-- ===== src/Http/Copies.antt =====
-- http.c: overwrite_kv_header and copy_header leave the one value that they write.
use mathlib.Core.Path.{subst}
use newnode.Prelude.{
  ◌>>=◌, ℕ, zero, suc, ◌<◌, ◌≡◌, ◌∙◌, refl, sym, ap, Bool, true, false, Option, none, some, List,
  [], ◌∷◌, ◌++◌, if◌then◌else◌, if_intro, if_true, if_false, bytes_eq, bytes_eq→eq, bytes_eq_refl,
  length, Bool-cases, Option-cases, inl, inr, ◌⊎◌, arith,
}
use newnode.Http.{
  KeyValue, removed, copied, same_key, lowered, first_value, without_first, Evhttp, Request,
  remove_all, overwrite_kv_header, overwrite_header, copy_header,
}

same_key_refl : (k : List ℕ) → same_key k k ≡ true
unfolding same_key
same_key_refl k = bytes_eq_refl (lowered k)

-- A key that is the same as one of two different keys is not the same as the other.
same_key_one :
    (e k k' : List ℕ) → same_key k k' ≡ false → same_key e k ≡ true → same_key e k' ≡ false
unfolding same_key
same_key_one e k k' apart h =
    ap (λ x. bytes_eq x (lowered k')) (bytes_eq→eq (lowered e) (lowered k) h) ∙ apart

-- The entries without those of a key.
unfoldable pub without : List ℕ → List KeyValue → List KeyValue
without key [] = []
without key (e ∷ es) = if same_key e.key key then without key es else e ∷ without key es

none_cons :
    (b : Bool) (v : List ℕ) (o : Option (List ℕ))
    → (if b then some v else o) ≡ none
    → (b ≡ false) × (o ≡ none)
none_cons true v o h = cc
none_cons false v o h = (refl, h)

some_cons :
    (b : Bool) (v w : List ℕ) (o : Option (List ℕ))
    → b ≡ false
    → (if b then some v else o) ≡ some w
    → o ≡ some w
some_cons true v w o e h = cc
some_cons false v w o e h = h

without-none : (key : List ℕ) (q : List KeyValue) → first_value q key ≡ none → without key q ≡ q
unfolding without first_value
without-none key [] h = refl
without-none key (e ∷ es) h =
    let p = none_cons (same_key e.key key) e.value (first_value es key) h in
    if_false (λ x. x ≡ e ∷ es) (same_key e.key key) _ p.0
      (ap (λ x. e ∷ x) (without-none key es p.1))

without-first :
    (key : List ℕ) (q : List KeyValue) → without key (without_first q key) ≡ without key q
unfolding without without_first
without-first key [] = refl
without-first key (e ∷ es) =
    let b = same_key e.key key in
    elim (Bool-cases (same_key e.key key)) [
      | inl y ↦
          if_true (λ x. without key x ≡ without key (e ∷ es)) b _ y
            (if_true (λ z. without key es ≡ z) b _ y refl)
      | inr n ↦
          if_false (λ x. without key x ≡ without key (e ∷ es)) b _ n
            (if_false (λ x. x ≡ without key (e ∷ es)) b _ n
              (if_false (λ z. e ∷ without key (without_first es key) ≡ z) b _ n
                (ap (λ x. e ∷ x) (without-first key es))))
    ]

without_first_shorter :
    (key v : List ℕ) (q : List KeyValue)
    → first_value q key ≡ some v
    → length (without_first q key) < length q
unfolding without_first first_value
without_first_shorter key v [] h = cc
without_first_shorter key v (e ∷ es) h =
    let b = same_key e.key key in
    if_intro (λ x. length x < suc (length es)) b {x = es} {y = e ∷ without_first es key}
      (λ y. omega arith)
      (λ n.
        omega
          (arith, without_first_shorter key v es (some_cons b e.value v (first_value es key) n h)))

-- What is found without a key, and with a new entry at the end.
found_not : (key : List ℕ) (q : List KeyValue) → first_value (without key q) key ≡ none
unfolding without first_value
found_not key [] = refl
found_not key (e ∷ es) =
    let b = same_key e.key key in
    if_intro (λ x. first_value x key ≡ none) b (λ y. found_not key es)
      (λ n. if_false (λ x. x ≡ none) b _ n (found_not key es))

found_other :
    (key key' : List ℕ) (q : List KeyValue)
    → same_key key key' ≡ false
    → first_value (without key q) key' ≡ first_value q key'
unfolding without first_value
found_other key key' [] apart = refl
found_other key key' (e ∷ es) apart =
    let b' = same_key e.key key' in
    if_intro (λ x. first_value x key' ≡ first_value (e ∷ es) key') (same_key e.key key)
      (λ y.
        if_false (λ z. first_value (without key es) key' ≡ z) b' _
          (same_key_one e.key key key' apart y) (found_other key key' es apart))
      (λ n.
        ap (λ (x : Option (List ℕ)). if b' then some e.value else x)
          (found_other key key' es apart))

found_last :
    (q : List KeyValue) (e : KeyValue) (key : List ℕ)
    → first_value q key ≡ none
    → same_key e.key key ≡ true
    → first_value (q ++ e ∷ []) key ≡ some e.value
unfolding first_value
found_last [] e key h y = if_true (λ x. x ≡ some e.value) (same_key e.key key) _ y refl
found_last (d ∷ ds) e key h y =
    let p = none_cons (same_key d.key key) d.value (first_value ds key) h in
    if_false (λ x. x ≡ some e.value) (same_key d.key key) _ p.0 (found_last ds e key p.1 y)

found_front :
    (q : List KeyValue) (e : KeyValue) (key : List ℕ)
    → same_key e.key key ≡ false
    → first_value (q ++ e ∷ []) key ≡ first_value q key
unfolding first_value
found_front [] e key n = if_false (λ x. x ≡ none) (same_key e.key key) _ n refl
found_front (d ∷ ds) e key n =
    ap (λ (x : Option (List ℕ)). if same_key d.key key then some d.value else x)
      (found_front ds e key n)

-- Whether `to` has the value of `from` under a key, and whether it may be copied.
unfoldable pub Agree : Request → Request → List ℕ → Type 0
Agree from to key = first_value to.output_headers key ≡ first_value from.input_headers key

unfoldable pub Ready : Request → Request → List ℕ → Type 0
Ready from to key = (first_value to.output_headers key ≡ none) ⊎ Agree from to key

ready_gone :
    (from to : Request) (key : List ℕ)
    → first_value from.input_headers key ≡ none
    → Ready from to key
    → Agree from to key
unfolding Ready Agree
ready_gone from to key e (inl gone) = gone ∙ sym e
ready_gone from to key e (inr same) = same

module _ (lib : Evhttp) where
  removes :
      (fuel : ℕ) (q : List KeyValue) (key : List ℕ)
      → length q < fuel
      → remove_all lib fuel q key ≡ some (without key q)
  unfolding remove_all
  removes zero q key h = absurd (omega (arith, h))
  removes (suc fuel) q key h =
      let rest = remove_all lib fuel (lib.remove_header q key) key in
      elim (Option-cases (first_value q key)) [
        | inl gone ↦
            ap (λ o. removed o q rest) (lib.find_first q key ∙ gone)
            ∙ ap some (sym (without-none key q gone))
        | inr (v, there) ↦
            ap (λ o. removed o q rest) (lib.find_first q key ∙ there)
            ∙ (ap (λ x. remove_all lib fuel x key) (lib.remove_only q key)
                ∙ (removes fuel (without_first q key) key
                      (omega (arith, h, without_first_shorter key v q there))
                    ∙ ap some (without-first key q)))
      ]

  -- The one entry of the key is the new one, and the others are as before.
  overwritten :
      (q : List KeyValue) (key value : List ℕ)
      → lib.accepts key value ≡ true
      → overwrite_kv_header lib q key value
        ≡ some (without key q ++ record { key = key; value = value } ∷ [])
  unfolding overwrite_kv_header
  overwritten q key value ok =
      ap (λ o. o >>= λ x. some (lib.add_header x key value))
        (removes (suc (length q)) q key (omega arith))
      ∙ ap some (lib.add_last (without key q) key value ok)

  -- What a copy leaves: the value of `from` under the key, if it has one, and under a different key what
  -- was there.
  pub record Copied (from to : Request) (key : List ℕ) (o : Option Request) : Type 0 where
    pub result : Request
    pub returns : o ≡ some result
    pub same : Ready from to key → Agree from result key
    pub others :
        (key' : List ℕ)
        → same_key key key' ≡ false
        → first_value result.output_headers key' ≡ first_value to.output_headers key'
    pub place : result.localhost ≡ to.localhost

  copies :
      (from to : Request) (key : List ℕ) (o : Option (List ℕ))
      → first_value from.input_headers key ≡ o
      → ((v : List ℕ) → o ≡ some v → lib.accepts key v ≡ true)
      → Copied from to key (copied lib o key to)
  unfolding overwrite_header Agree
  copies from to key none e ok = record {
    result = to;
    returns = refl;
    same = ready_gone from to key e;
    others = λ key' apart. refl;
    place = refl;
  }
  copies from to key (some v) e ok =
      let entry : KeyValue = record { key = key; value = v } in
      let q = without key to.output_headers in
      record {
        result = record to { output_headers = q ++ entry ∷ [] };
        returns =
            ap (λ o. o >>= λ x. some (record to { output_headers = x }))
              (overwritten to.output_headers key v (ok v refl));
        same = λ ready.
            found_last q entry key (found_not key to.output_headers) (same_key_refl key) ∙ sym e;
        others = λ key' apart.
            found_front q entry key' apart ∙ found_other key key' to.output_headers apart;
        place = refl;
      }

  pub copy_header-Copied :
      (from to : Request) (key : List ℕ)
      → ((v : List ℕ) → first_value from.input_headers key ≡ some v → lib.accepts key v ≡ true)
      → Copied from to key (copy_header lib from to key)
  unfolding copy_header
  copy_header-Copied from to key ok =
      subst (λ o. Copied from to key (copied lib o key to))
        (sym (lib.find_first from.input_headers key))
        (copies from to key (first_value from.input_headers key) refl ok)
