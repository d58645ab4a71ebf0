-- ===== src/Merkle/Stream.antt =====
-- merkle_tree.c: adding data does not depend on how the stream is cut into pieces.
use newnode.Prelude.{
  ◌>>=◌, ℕ, zero, suc, ◌+◌, ◌-◌, ◌<◌, ◌≤◌, ◌≡◌, ◌∙◌, refl, sym, ap, false, Option, some, none, List,
  [], ◌∷◌, ◌++◌, arith, ◌==◌, if◌then◌else◌, Option-cases, inl, inr, le→leb, lt→ltb, length, take,
  drop, min, length-drop, length-take, take-append-drop,
}
use mathlib.Core.List.{flatten}
use newnode.Crypto.{Generichash, hash_bytes}
use newnode.Merkle.{
  MerkleTree, leaf_chunk_size, leaf_finish, absorb, add_loop, add_hashed_data, add_evbuffer,
}

>>=-assoc {ℓ κ μ} :
    {A : Type ℓ} {B : Type κ} {C : Type μ} (m : Option A) (f : A → Option B) (g : B → Option C)
    → (m >>= λ a. f a >>= g) ≡ (m >>= f >>= g)
>>=-assoc none f g = refl
>>=-assoc (some a) f g = refl

>>=-ext {ℓ κ} :
    {A : Type ℓ} {B : Type κ} (m : Option A) (f g : A → Option B)
    → ((a : A) → m ≡ some a → f a ≡ g a)
    → (m >>= f) ≡ (m >>= g)
>>=-ext none f g e = refl
>>=-ext (some a) f g e = e a refl

pub chunk_pos : 0 < leaf_chunk_size
unfolding leaf_chunk_size
chunk_pos = omega arith

module _ (h : Generichash) where
  open h use {State, update, update-update}

  -- One byte at a time.
  unfoldable pub feed_all : MerkleTree State → List ℕ → Option (MerkleTree State)
  feed_all m [] = some m
  feed_all m (x ∷ xs) = absorb h m (x ∷ []) >>= λ m'. feed_all m' xs

  abbrev pub Open : MerkleTree State → Type 0
  Open m = m.leaf_progress < leaf_chunk_size

  -- The tree with bytes taken into the leaf that is being hashed.
  abbrev pub took : MerkleTree State → List ℕ → MerkleTree State
  took m xs = record m {
    leaf_state = update (if m.leaf_progress == 0 then h.init [] hash_bytes else m.leaf_state) xs;
    leaf_progress = m.leaf_progress + length xs;
  }

  pub absorb_within :
      (m : MerkleTree State) (xs : List ℕ)
      → Open m
      → m.leaf_progress + length xs ≤ leaf_chunk_size
      → absorb h m xs ≡ (
          if m.leaf_progress + length xs == leaf_chunk_size
          then leaf_finish h (took m xs)
          else some (took m xs))
  unfolding absorb
  absorb_within m xs unfilled le = rw (
    lt→ltb m.leaf_progress leaf_chunk_size unfilled,
    le→leb (m.leaf_progress + length xs) leaf_chunk_size le,
  )

  took-took :
      (m : MerkleTree State) (x y : ℕ) (ys : List ℕ)
      → took (took m (x ∷ [])) (y ∷ ys) ≡ took m (x ∷ y ∷ ys)
  took-took m x y ys =
      let s : State = if m.leaf_progress == 0 then h.init [] hash_bytes else m.leaf_state in
      let nonzero : (m.leaf_progress + 1 == 0) ≡ false = ground arith in
      let sum : m.leaf_progress + 1 + suc (length ys) ≡ m.leaf_progress + suc (suc (length ys)) =
        omega arith in
      rw (nonzero, sum, update-update s (x ∷ []) (y ∷ ys))

  absorb_cons :
      (m : MerkleTree State) (x y : ℕ) (ys : List ℕ)
      → m.leaf_progress + suc (suc (length ys)) ≤ leaf_chunk_size
      → (absorb h m (x ∷ []) >>= λ m'. absorb h m' (y ∷ ys)) ≡ absorb h m (x ∷ y ∷ ys)
  absorb_cons m x y ys le =
      let partial : (m.leaf_progress + 1 == leaf_chunk_size) ≡ false = ground arith in
      let sum : m.leaf_progress + 1 + suc (length ys) ≡ m.leaf_progress + suc (suc (length ys)) =
        omega arith in
      rw (
        absorb_within m (x ∷ []) (omega arith) (omega arith),
        partial,
        absorb_within (took m (x ∷ [])) (y ∷ ys) (omega arith) (omega arith),
        took-took m x y ys,
        sum,
        absorb_within m (x ∷ y ∷ ys) (omega arith) le,
      )

  absorb-Open : (m m' : MerkleTree State) (xs : List ℕ) → absorb h m xs ≡ some m' → Open m'
  unfolding absorb leaf_finish
  absorb-Open m m' xs e = ground (arith, chunk_pos)

  feed_all-append :
      (m : MerkleTree State) (xs ys : List ℕ)
      → feed_all m (xs ++ ys) ≡ (feed_all m xs >>= λ m'. feed_all m' ys)
  unfolding feed_all
  feed_all-append m [] ys = refl
  feed_all-append m (x ∷ xs) ys =
      >>=-ext (absorb h m (x ∷ [])) _ _ (λ a e. feed_all-append a xs ys)
      ∙ >>=-assoc (absorb h m (x ∷ [])) (λ a. feed_all a xs) (λ m'. feed_all m' ys)

  progress-absorb :
      (m : MerkleTree State) (x : ℕ) (a : MerkleTree State)
      → absorb h m (x ∷ []) ≡ some a
      → m.leaf_progress + 1 < leaf_chunk_size
      → a.leaf_progress ≡ m.leaf_progress + 1
  progress-absorb m x a e lt = ground (arith, absorb_within m (x ∷ []) (omega arith) (omega arith))

  -- Within a chunk the bytes go in one by one as they go in together.
  feed_all-absorb :
      (m : MerkleTree State) (x : ℕ) (xs : List ℕ)
      → m.leaf_progress + suc (length xs) ≤ leaf_chunk_size
      → feed_all m (x ∷ xs) ≡ absorb h m (x ∷ xs)
  unfolding feed_all
  feed_all-absorb m x [] le = some-right (absorb h m (x ∷ []))
    where
      some-right : (o : Option (MerkleTree State)) → (o >>= λ m'. some m') ≡ o
      some-right none = refl
      some-right (some a) = refl
  feed_all-absorb m x (y ∷ ys) le =
      >>=-ext (absorb h m (x ∷ [])) _ _
        (λ a e. feed_all-absorb a y ys (omega (arith, progress-absorb m x a e (omega arith))))
      ∙ absorb_cons m x y ys le

  add_loop-feed_all :
      (fuel : ℕ) (m : MerkleTree State) (xs : List ℕ)
      → length xs ≤ fuel
      → Open m
      → add_loop h fuel m xs ≡ feed_all m xs
  unfolding add_loop
  add_loop-feed_all zero m [] le op = unfold feed_all in refl
  add_loop-feed_all zero m (x ∷ xs) le op = absurd (omega arith)
  add_loop-feed_all (suc fuel) m [] le op = unfold feed_all in refl
  add_loop-feed_all (suc fuel) m (x ∷ xs) le op =
      let len : ℕ = min (leaf_chunk_size - m.leaf_progress) (suc (length xs)) in
      let k : ℕ = len - 1 in
      let len_eq : len ≡ suc k = omega arith in
      let taken = length-take k xs in
      rw len_eq (
        >>=-ext (absorb h m (x ∷ take k xs)) _ _ (λ a e.
          add_loop-feed_all fuel a (drop k xs) (omega (arith, length-drop k xs))
            (absorb-Open m a _ e))
        ∙ rw (← feed_all-absorb m x (take k xs) (omega arith)) (
            sym (feed_all-append m (x ∷ take k xs) (drop k xs))
            ∙ ap (λ l. feed_all m (x ∷ l)) (take-append-drop k xs)))

  pub add_hashed_data-feed_all :
      (m : MerkleTree State) (xs : List ℕ) → Open m → add_hashed_data h m xs ≡ feed_all m xs
  unfolding add_hashed_data
  add_hashed_data-feed_all m xs op = add_loop-feed_all (length xs) m xs (omega arith) op

  pub feed_all-Open :
      (m m' : MerkleTree State) (xs : List ℕ) → Open m → feed_all m xs ≡ some m' → Open m'
  unfolding feed_all
  feed_all-Open m m' [] op e = ground arith
  feed_all-Open m m' (x ∷ xs) op e = elim (Option-cases (absorb h m (x ∷ []))) [
    | inl stop ↦ absurd (none_some (sym (rw (stop, ◌>>=◌)) ∙ e))
    | inr (a, go) ↦ feed_all-Open a m' xs (absorb-Open m a (x ∷ []) go) (rw (go, ◌>>=◌) at e)
  ]
    where
      none_some : none ≡ some m' → ⊥
      none_some q = cc

  -- Data that comes in two calls is hashed as if it came in one, whatever the place of the cut.
  pub add_hashed_data-append :
      (m : MerkleTree State) (xs ys : List ℕ)
      → Open m
      → add_hashed_data h m (xs ++ ys) ≡ (add_hashed_data h m xs >>= λ m'. add_hashed_data h m' ys)
  add_hashed_data-append m xs ys op =
      add_hashed_data-feed_all m (xs ++ ys) op
      ∙ feed_all-append m xs ys
      ∙ rw (add_hashed_data-feed_all m xs op) (
          >>=-ext (feed_all m xs) _ _
            (λ a e. sym (add_hashed_data-feed_all a ys (feed_all-Open m a xs op e))))

  -- Adding an evbuffer extent by extent is adding its bytes, however they are spread over extents.
  pub add_evbuffer-flatten :
      (m : MerkleTree State) (vs : List (List ℕ))
      → Open m
      → add_evbuffer h m vs ≡ add_hashed_data h m (flatten vs)
  unfolding add_evbuffer flatten
  add_evbuffer-flatten m [] op = sym (add_hashed_data-feed_all m [] op ∙ unfold feed_all in refl)
  add_evbuffer-flatten m (v ∷ vs) op =
      >>=-ext (add_hashed_data h m v) _ _ (λ a e.
        add_evbuffer-flatten a vs
          (feed_all-Open m a v op (sym (add_hashed_data-feed_all m v op) ∙ e)))
      ∙ sym (add_hashed_data-append m v (flatten vs) op)
