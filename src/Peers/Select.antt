-- ===== src/Peers/Select.antt =====
-- client.c: what select_peer selects.
use mathlib.Core.List.{Memᴰ}
use newnode.Prelude.{
  ℕ, zero, suc, ◌+◌, ◌<◌, ◌≡◌, refl, ap, Bool, true, false, none, some, List, [], ◌∷◌, All, length,
  ◌⊎◌, arith, ◌==◌, Bool-cases, inl, inr,
}
use newnode.Peers.{Peer, Best, sort_key, key_less, zero_best, consider, select_loop, select_peer}

-- Of keys of one length, being less and not being less go together as in an order.
key_less-below :
    (a b c : List ℕ)
    → length a ≡ length b
    → length c ≡ length b
    → key_less a b ≡ true
    → key_less a c ≡ false
    → key_less b c ≡ false
unfolding key_less
key_less-below [] b c la lc h g = absurd (cc h)
key_less-below (x ∷ a) [] c la lc h g = absurd (cc h)
key_less-below (x ∷ a) (y ∷ b) [] la lc h g = refl
key_less-below (x ∷ a) (y ∷ b) (z ∷ c) la lc h g =
    let rest = key_less-below a b c (omega arith) (omega arith) in ground (arith, rest)

key_less-above :
    (a b c : List ℕ)
    → length a ≡ length b
    → length c ≡ length b
    → key_less a b ≡ false
    → key_less b c ≡ false
    → key_less a c ≡ false
unfolding key_less
key_less-above [] b c la lc h g = refl
key_less-above (x ∷ a) [] c la lc h g = absurd (omega arith)
key_less-above (x ∷ a) (y ∷ b) [] la lc h g = refl
key_less-above (x ∷ a) (y ∷ b) (z ∷ c) la lc h g =
    let rest = key_less-above a b c (omega arith) (omega arith) in ground (arith, rest)

key_less_irrefl : (k : List ℕ) → key_less k k ≡ false
unfolding key_less
key_less_irrefl [] = refl
key_less_irrefl (x ∷ k) = ground (arith, key_less_irrefl k)

-- No key is less than zeros.
abbrev Zeros : List ℕ → Type 0
Zeros [] = Unit
Zeros (zero ∷ k) = Zeros k
Zeros (suc x ∷ k) = ⊥

key_less-Zeros : (k z : List ℕ) → Zeros z → key_less k z ≡ false
unfolding key_less
key_less-Zeros [] z h = refl
key_less-Zeros (x ∷ k) [] h = refl
key_less-Zeros (x ∷ k) (zero ∷ z) h = ground (arith, key_less-Zeros k z h)
key_less-Zeros (x ∷ k) (suc y ∷ z) h = elim h [ ]

module _ (now : ℕ) (salt : Peer → ℕ) (filter : Peer → Bool) where
  -- Every peer of `ps` is filtered out or does not sort before `p`.
  abbrev pub NoneBefore : Peer → List Peer → Type 0
  NoneBefore p =
      All (λ q. (filter q ≡ true) ⊎ (key_less (sort_key now salt q) (sort_key now salt p) ≡ false))

  abbrev pub chosen : Peer → Best
  chosen p = record { key = sort_key now salt p; peer = some p }

  abbrev pub key : Peer → List ℕ
  key = sort_key now salt

  -- From a chosen peer on, the loop chooses one that the chosen one does not sort before.
  chosen_loop :
      (i : ℕ) (p : Peer) (ps : List Peer)
      → 0 < i
      → filter p ≡ false
      → (q : Peer) × (select_loop now salt filter i ps (chosen p) ≡ chosen q)
        × (filter q ≡ false)
        × ((q ≡ p) ⊎ Memᴰ q ps)
        × (key_less (key p) (key q) ≡ false)
        × NoneBefore q ps
  unfolding select_loop consider
  chosen_loop i p [] pos ok = (p, refl, ok, inl refl, key_less_irrefl (key p), tt)
  chosen_loop i p (c ∷ ps) pos ok = elim (Bool-cases (filter c)) [
    | inl out ↦
        let (q, e, okq, at, after, all) = chosen_loop (i + 1) p ps (omega arith) ok in
        (q, rw out e, okq, later q p c ps at, after, (inl out, all))
    | inr okc ↦ elim (Bool-cases (key_less (key c) (key p))) [
      | inl less ↦
          let (q, e, okq, at, after, all) = chosen_loop (i + 1) c ps (omega arith) okc in
          (
            q,
            rw (okc, not_first, less) e,
            okq,
            inr (here q c ps at),
            key_less-below (key c) (key p) (key q) refl refl less after,
            (inr after, all),
          )
      | inr more ↦
          let (q, e, okq, at, after, all) = chosen_loop (i + 1) p ps (omega arith) ok in
          (
            q,
            rw (okc, not_first, more) e,
            okq,
            later q p c ps at,
            after,
            (inr (key_less-above (key c) (key p) (key q) refl refl more after), all),
          )
    ]
  ]
    where
      not_first : (i == 0) ≡ false
      not_first = ground arith

      later : (q p c : Peer) (ps : List Peer) → (q ≡ p) ⊎ Memᴰ q ps → (q ≡ p) ⊎ Memᴰ q (c ∷ ps)
      later q p c ps (inl e) = inl e
      later q p c ps (inr m) = inr (Memᴰ.tail m)

      here : (q c : Peer) (ps : List Peer) → (q ≡ c) ⊎ Memᴰ q ps → Memᴰ q (c ∷ ps)
      here q c ps (inl e) = Memᴰ.head e
      here q c ps (inr m) = Memᴰ.tail m

  -- When the first peer of the array is eligible, the peer that is selected is an eligible one of the
  -- array, before which no eligible one sorts.
  pub select_peer-NoneBefore :
      (p : Peer) (ps : List Peer)
      → filter p ≡ false
      → (q : Peer) × (select_peer now salt filter (p ∷ ps) ≡ some q)
        × Memᴰ q (p ∷ ps)
        × (filter q ≡ false)
        × NoneBefore q (p ∷ ps)
  unfolding select_peer select_loop consider
  select_peer-NoneBefore p ps ok =
      let (q, e, okq, at, after, all) = chosen_loop 1 p ps (omega arith) ok in
      (q, rw (select_peer, ok) (ap (λ b. b.peer) e), first q at, okq, (inr after, all))
    where
      first : (q : Peer) → (q ≡ p) ⊎ Memᴰ q ps → Memᴰ q (p ∷ ps)
      first q (inl e) = Memᴰ.head e
      first q (inr m) = Memᴰ.tail m

  zero_loop :
      (i : ℕ) (ps : List Peer) → 0 < i → select_loop now salt filter i ps zero_best ≡ zero_best
  unfolding select_loop consider
  zero_loop i [] pos = refl
  zero_loop i (p ∷ ps) pos = elim (Bool-cases (filter p)) [
    | inl out ↦ rw out (zero_loop (i + 1) ps (omega arith))
    | inr ok ↦
        let later : (i == 0) ≡ false = ground arith in
        rw (ok, later, key_less-Zeros (sort_key now salt p) (zero_best).key tt)
          (zero_loop (i + 1) ps (omega arith))
  ]

  -- When the first peer of the array is filtered out, none is selected, whatever peers follow.
  pub select_peer-first_filtered :
      (p : Peer) (ps : List Peer) → filter p ≡ true → select_peer now salt filter (p ∷ ps) ≡ none
  unfolding select_peer select_loop consider
  select_peer-first_filtered p ps out =
      rw (select_peer, out) (ap (λ b. b.peer) (zero_loop 1 ps (omega arith)))
