-- ===== src/Http/Hashed.antt =====
-- client.c: what a client passes on of an answer hashes as the answer itself.
use mathlib.Core.Path.{subst}
use newnode.Prelude.{
  ◌>>=◌, ℕ, ◌≡◌, ◌∙◌, refl, sym, ap, Bool, true, false, not, ◌&&◌, ◌||◌, Option, none, some, List,
  [], ◌∷◌, ◌++◌, if◌then◌else◌, if_intro, bytes_eq, bytes_eq→eq, Bool-cases, inl, inr, arith, All,
  ◌==◌,
}
use newnode.Base64.{codes}
use newnode.Crypto.{Generichash}
use newnode.Merkle.{MerkleTree, add_evbuffer}
use newnode.Http.{
  same_key, first_value, Evhttp, Request, hashed_headers, crlf, header_line, header_lines,
  copy_header, copy_each, copy_response_headers, build_request_buffer, merkle_tree_hash_request,
}
use newnode.Http.Copies.{Agree, Ready, Copied, copy_header-Copied}

-- Each of the keys is this one or differs from it, and one of them is it.
separate : List ℕ → List (List ℕ) → Bool
separate h [] = true
separate h (k ∷ ks) = (bytes_eq k h || not (same_key k h)) && separate h ks

listed : List ℕ → List (List ℕ) → Bool
listed h [] = false
listed h (k ∷ ks) = bytes_eq k h || listed h ks

first_nil : (h : List ℕ) → first_value [] h ≡ none
unfolding first_value
first_nil h = refl

module _ (lib : Evhttp) (from : Request) where
  abbrev Accepted : Type 0
  Accepted =
      (key v : List ℕ) → first_value from.input_headers key ≡ some v → lib.accepts key v ≡ true

  record CopiedAll (to : Request) (keys : List (List ℕ)) (o : Option Request) : Type 0 where
    result : Request
    returns : o ≡ some result
    agree : (h : List ℕ) → separate h keys ≡ true → Agree from to h → Agree from result h
    got :
        (h : List ℕ)
        → separate h keys ≡ true
        → listed h keys ≡ true
        → Ready from to h
        → Agree from result h

  -- A copy of this key or of another.
  Agree-step :
      (to : Request) (k h : List ℕ) (o : Option Request) (c : Copied lib from to k o)
      → bytes_eq k h || not (same_key k h) ≡ true
      → Agree from to h
      → Agree from c.result h
  unfolding Agree Ready
  Agree-step to k h o c apart a = elim (Bool-cases (bytes_eq k h)) [
    | inl same ↦
        let e : k ≡ h = bytes_eq→eq k h same in
        subst (λ x. Agree from c.result x) e (c.same (subst (λ x. Ready from to x) (sym e) (inr a)))
    | inr other ↦ c.others h (ground (arith, apart, other)) ∙ a
  ]

  got_step :
      (to : Request) (k h : List ℕ) (o : Option Request) (c : Copied lib from to k o)
      → bytes_eq k h ≡ true
      → Ready from to h
      → Agree from c.result h
  got_step to k h o c same ready =
      let e : k ≡ h = bytes_eq→eq k h same in
      subst (λ x. Agree from c.result x) e (c.same (subst (λ x. Ready from to x) (sym e) ready))

  ready_step :
      (to : Request) (k h : List ℕ) (o : Option Request) (c : Copied lib from to k o)
      → same_key k h ≡ false
      → Ready from to h
      → Ready from c.result h
  unfolding Agree Ready
  ready_step to k h o c apart (inl gone) = inl (c.others h apart ∙ gone)
  ready_step to k h o c apart (inr a) = inr (c.others h apart ∙ a)

  copy_each-CopiedAll :
      Accepted
      → (to : Request) (keys : List (List ℕ)) → CopiedAll to keys (copy_each lib from keys to)
  unfolding copy_each separate listed
  copy_each-CopiedAll ok to [] = record {
    result = to;
    returns = refl;
    agree = λ h sep a. a;
    got = λ h sep l r. cc;
  }
  copy_each-CopiedAll ok to (k ∷ ks) =
      let c : Copied lib from to k (copy_header lib from to k) =
        copy_header-Copied lib from to k (ok k) in
      let rest : CopiedAll c.result ks (copy_each lib from ks c.result) =
        copy_each-CopiedAll ok c.result ks in
      record {
        result = rest.result;
        returns = ap (λ o. o >>= λ x. copy_each lib from ks x) c.returns ∙ rest.returns;
        agree = λ h sep a.
            rest.agree h (ground (arith, sep)) (Agree-step to k h _ c (ground (arith, sep)) a);
        got = λ h sep l ready. elim (Bool-cases (bytes_eq k h)) [
          | inl same ↦ rest.agree h (ground (arith, sep)) (got_step to k h _ c same ready)
          | inr other ↦
              rest.got h (ground (arith, sep)) (ground (arith, l, other))
                (ready_step to k h _ c (ground (arith, sep, other)) ready)
        ];
      }

  lines-Agree :
      (to : Request) (keys : List (List ℕ))
      → All (Agree from to) keys
      → header_lines lib keys to.output_headers ≡ header_lines lib keys from.input_headers
  unfolding header_lines Agree
  lines-Agree to [] a = refl
  lines-Agree to (k ∷ ks) (a, rest) =
      let found : lib.find_header to.output_headers k ≡ lib.find_header from.input_headers k =
        lib.find_first to.output_headers k ∙ (a ∙ sym (lib.find_first from.input_headers k)) in
      ap (λ o. header_line k o ++ header_lines lib ks to.output_headers) found
      ∙ ap (λ x. header_line k (lib.find_header from.input_headers k) ++ x) (lines-Agree to ks rest)

  same_buffer :
      (code : ℕ) (to : Request)
      → All (Agree from to) hashed_headers
      → build_request_buffer lib code to.output_headers
        ≡ build_request_buffer lib code from.input_headers
  unfolding build_request_buffer
  same_buffer code to a =
      ap (λ (x : List ℕ). if code == 0 then none else some (lib.printf_d code ++ crlf ++ x))
        (lines-Agree to hashed_headers a)

  -- Each hashed header is copied, and no later copy changes it.
  hashed_got :
      (to : Request)
      → to.output_headers ≡ []
      → (o : Option Request) (c : CopiedAll to hashed_headers o)
      → All (Agree from c.result) hashed_headers
  unfolding separate listed same_key bytes_eq Ready
  hashed_got to e o c =
      let absent : (h : List ℕ) → first_value to.output_headers h ≡ none =
        λ h. ap (λ q. first_value q h) e ∙ first_nil h in
      let got =
        λ (h : List ℕ) (sep : separate h hashed_headers ≡ true)
            (l : listed h hashed_headers ≡ true).
          c.got h sep l (inl (absent h)) in
      (
        got _ refl refl,
        (got _ refl refl, (got _ refl refl, (got _ refl refl, (got _ refl refl, tt)))),
      )

  length_kept :
      (to : Request) (o : Option Request) (c : Copied lib from to (codes "Content-Length") o)
      → All (Agree from to) hashed_headers
      → All (Agree from c.result) hashed_headers
  unfolding same_key bytes_eq
  length_kept to o c (a, (b, (d, (e, (f, u))))) =
      let step = λ (h : List ℕ). Agree-step to (codes "Content-Length") h o c in
      (step _ refl a, (step _ refl b, (step _ refl d, (step _ refl e, (step _ refl f, tt)))))

  others_kept :
      (to : Request) (o : Option Request)
      (c : CopiedAll to (codes "Content-Location" ∷ codes "X-MSign" ∷ codes "X-Hashes" ∷ []) o)
      → All (Agree from to) hashed_headers
      → All (Agree from c.result) hashed_headers
  unfolding separate same_key bytes_eq
  others_kept to o c (a, (b, (d, (e, (f, u))))) = (
    c.agree _ refl a,
    (c.agree _ refl b, (c.agree _ refl d, (c.agree _ refl e, (c.agree _ refl f, tt)))),
  )

module _ (lib : Evhttp) (hash : Generichash) where
  open hash use {State}

  passed_on :
      (from to : Request) (m : MerkleTree State) (code : ℕ) (o : Option Request)
      → (r : Request) × (o ≡ some r) × All (Agree from r) hashed_headers
      → (o >>= λ r. merkle_tree_hash_request lib hash m code r.output_headers)
        ≡ merkle_tree_hash_request lib hash m code from.input_headers
  unfolding merkle_tree_hash_request
  passed_on from to m code o (r, e, a) =
      ap (λ x. x >>= λ r. merkle_tree_hash_request lib hash m code r.output_headers) e
      ∙ ap (λ x. x >>= λ buf. add_evbuffer hash m (buf ∷ [])) (same_buffer lib from code r a)

  copies_hashed :
      (from to : Request)
      → ((key v : List ℕ) → first_value from.input_headers key ≡ some v → lib.accepts key v ≡ true)
      → to.output_headers ≡ []
      → (r : Request) × (copy_response_headers lib from to ≡ some r)
        × All (Agree from r) hashed_headers
  unfolding copy_response_headers
  copies_hashed from to ok e =
      let c1 = copy_each-CopiedAll lib from ok to hashed_headers in
      let a1 = hashed_got lib from to e _ c1 in
      let c2 =
        copy_header-Copied lib from c1.result (codes "Content-Length")
          (ok (codes "Content-Length")) in
      let a2 = length_kept lib from c1.result _ c2 a1 in
      let c3 =
        copy_each-CopiedAll lib from ok c2.result
          (codes "Content-Location" ∷ codes "X-MSign" ∷ codes "X-Hashes" ∷ []) in
      let a3 = others_kept lib from c2.result _ c3 a2 in
      let last = λ (x : Request).
        if not to.localhost
        then copy_each lib from (codes "Content-Location" ∷ codes "X-MSign" ∷ codes "X-Hashes" ∷ [])
            x
        else some x in
      let front : copy_response_headers lib from to ≡ last c2.result =
        ap (λ o. o >>= λ x. (copy_header lib from x (codes "Content-Length") >>= last)) c1.returns
        ∙ ap (λ o. o >>= last) c2.returns in
      if_intro
        (λ o.
          (copy_response_headers lib from to ≡ o)
          → (r : Request) × (copy_response_headers lib from to ≡ some r)
            × All (Agree from r) hashed_headers)
        (not to.localhost) (λ _ f. (c3.result, f ∙ c3.returns, a3)) (λ _ f. (c2.result, f, a2))
        front

  -- For an answer whose headers evhttp_add_header accepts, and a request of the browser whose reply has no
  -- headers yet, merkle_tree_hash_request hashes the headers that copy_response_headers leaves in the reply
  -- to the same as those of the answer, whatever the tree, the code and the rest of the headers are, also
  -- where a header is repeated, and copy_response_headers returns.
  pub copy_response_headers-merkle_tree_hash_request :
      (from to : Request) (m : MerkleTree State) (code : ℕ)
      → ((key v : List ℕ) → first_value from.input_headers key ≡ some v → lib.accepts key v ≡ true)
      → to.output_headers ≡ []
      → (copy_response_headers lib from to >>= λ r.
          merkle_tree_hash_request lib hash m code r.output_headers)
        ≡ merkle_tree_hash_request lib hash m code from.input_headers
  copy_response_headers-merkle_tree_hash_request from to m code ok e =
      passed_on from to m code (copy_response_headers lib from to) (copies_hashed from to ok e)
