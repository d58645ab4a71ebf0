-- ===== src/Merkle/Root.antt =====
-- merkle_tree.c: the array that merkle_tree_finish_leaves fills, read as a binary tree.
use newnode.Prelude.{
  ℕ, zero, suc, ◌+◌, ◌-◌, ◌*◌, ◌<◌, ◌≤◌, ◌≡◌, ◌∙◌, refl, arith, ◌==◌, ==_refl, Bool-cases, inl, inr,
  ==_iff,
}
use newnode.Prelude.Or.{pow2, pow2_pos}
use newnode.Crypto.{Generichash}
use newnode.Merkle.{Hash, store, node_hash, hash_levels}

le_mul : (a b : ℕ) → 0 < b → a ≤ a * b
le_mul a b h = grind arith

module _ (h : Generichash) where
  -- The hash of the perfect binary tree of height `d` over the leaves from index `i` on.
  abbrev pub tree_hash : (ℕ → Hash) → ℕ → ℕ → Hash
  tree_hash leaves zero i = leaves i
  tree_hash leaves (suc d) i = node_hash h (tree_hash leaves d i) (tree_hash leaves d (i + pow2 d))

  pub hash_levels-below :
      (rounds k n j : ℕ) (mem : ℕ → Hash) → j < n + k → hash_levels h rounds k n mem j ≡ mem j
  unfolding hash_levels
  hash_levels-below zero k n j mem lt = refl
  hash_levels-below (suc rounds) k n j mem lt =
      hash_levels-below rounds (k + 1) n j _ (omega arith) ∙ ground arith

  -- Each entry behind the leaves is the hash of its two children.
  hash_levels-node :
      (rounds k n j : ℕ) (mem : ℕ → Hash)
      → k + rounds + 1 ≤ n
      → k ≤ j
      → j < k + rounds
      → let out = hash_levels h rounds k n mem in
        out (n + j) ≡ node_hash h (out (2 * j)) (out (2 * j + 1))
  unfolding hash_levels
  hash_levels-node zero k n j mem b lo hi = absurd (omega arith)
  hash_levels-node (suc rounds) k n j mem b lo hi = elim (Bool-cases (k == j)) [
    | inl here ↦ at_k ((==_iff k j).0 here)
    | inr later ↦ hash_levels-node rounds (k + 1) n j _ (omega arith) (ground arith) (omega arith)
  ]
    where
      mem' : ℕ → Hash
      mem' = store mem (n + k) (node_hash h (mem (2 * k)) (mem (2 * k + 1)))

      below : (i : ℕ) → i < n + k → hash_levels h rounds (k + 1) n mem' i ≡ mem i
      below i lt = hash_levels-below rounds (k + 1) n i mem' (omega arith) ∙ ground arith

      at_k :
          k ≡ j
          → let out = hash_levels h rounds (k + 1) n mem' in
            out (n + j) ≡ node_hash h (out (2 * j)) (out (2 * j + 1))
      at_k e =
          rw (← e, below (2 * k) (omega arith), below (2 * k + 1) (omega arith))
            (hash_levels-below rounds (k + 1) n (n + k) mem' (omega arith) ∙ rw (==_refl (n + k)))

  -- A level of width `w`, `d` levels above the leaves, starts at index 2n - 2w.
  pub hash_levels-level :
      (d w n j : ℕ) (mem : ℕ → Hash)
      → n ≡ w * pow2 d
      → 0 < w
      → j < w
      → hash_levels h (n - 1) 0 n mem (2 * n - 2 * w + j) ≡ tree_hash mem d (j * pow2 d)
  hash_levels-level zero w n j mem e pos lt =
      let e1 : 2 * n - 2 * w + j ≡ j = omega arith in
      let e2 : j * 1 ≡ j = omega arith in
      rw (e1, e2) (hash_levels-below (n - 1) 0 n j mem (omega arith))
  hash_levels-level (suc d) w n j mem e pos lt =
      let i : ℕ = n - 2 * w + j in
      let wide : n ≡ 2 * w * pow2 d = omega arith in
      let big : 2 * w ≤ n = omega (arith, pow2_pos d, le_mul (2 * w) (pow2 d) (pow2_pos d)) in
      let here : 2 * n - 2 * w + j ≡ n + i = omega arith in
      let left : 2 * i ≡ 2 * n - 2 * (2 * w) + 2 * j = omega arith in
      let right : 2 * i + 1 ≡ 2 * n - 2 * (2 * w) + (2 * j + 1) = omega arith in
      let at_left : j * (2 * pow2 d) ≡ 2 * j * pow2 d = omega arith in
      let at_right : j * (2 * pow2 d) + pow2 d ≡ (2 * j + 1) * pow2 d = omega arith in
      rw here (
        hash_levels-node (n - 1) 0 n i mem (omega arith) (omega arith) (omega arith)
        ∙ rw (
          right,
          left,
          at_right,
          at_left,
          hash_levels-level d (2 * w) n (2 * j) mem wide (omega arith) (omega arith),
          hash_levels-level d (2 * w) n (2 * j + 1) mem wide (omega arith) (omega arith),
        ))

  pub tree_hash-ext :
      (f g : ℕ → Hash) (d i : ℕ)
      → ((j : ℕ) → i ≤ j → j < i + pow2 d → f j ≡ g j)
      → tree_hash f d i ≡ tree_hash g d i
  tree_hash-ext f g zero i e = e i (omega arith) (omega arith)
  tree_hash-ext f g (suc d) i e =
      let pos = pow2_pos d in
      rw (
        tree_hash-ext f g d i (λ j lo hi. e j lo (omega arith)),
        tree_hash-ext f g d (i + pow2 d) (λ j lo hi. e j (omega arith) (omega arith)),
      )
