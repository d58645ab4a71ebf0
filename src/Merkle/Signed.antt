-- ===== src/Merkle/Signed.antt =====
-- merkle_tree.c: the root that the injector signs, and that a client checks, from data to hash.
use newnode.Prelude.{◌>>=◌, ℕ, ◌*◌, ◌^◌, ◌<◌, ◌≤◌, ◌≡◌, ◌∙◌, ap, some, List, arith, length}
use newnode.Prelude.Or.{pow2}
use newnode.Base64.{div_round_up}
use newnode.Crypto.{Generichash}
use newnode.Merkle.{Hash, MerkleTree, leaf_chunk_size, new, add_hashed_data, get_root}
use newnode.Merkle.Root.{tree_hash, tree_hash-ext}
use newnode.Merkle.Finish.{leaf_count, leaf_at, get_root-tree_hash}
use newnode.Merkle.Leaves.{chunk_hash, add_hashed_data-Holds, leaf_at-chunk_hash, Holds}

module _ (h : Generichash) where
  open h use {State}

  leaf_count_bounds :
      (m : MerkleTree State) (xs : List ℕ)
      → Holds h m xs
      → 0 < length xs
      → length xs ≤ 2 ^ 62
      → (0 < leaf_count h m) × (leaf_count h m ≡ div_round_up (length xs) leaf_chunk_size)
  unfolding leaf_chunk_size
  leaf_count_bounds m xs v pos le = ground (arith, v.count, v.unfilled)

  few_leaves :
      (m : MerkleTree State) (xs : List ℕ)
      → Holds h m xs
      → length xs ≤ 2 ^ 62
      → leaf_count h m ≤ 2 ^ 58
  unfolding leaf_chunk_size
  few_leaves m xs v le = ground (arith, v.count, le)

  -- The root of a stream of 1 to 2 ^ 62 bytes is the hash of the perfect binary tree over the hashes of
  -- its chunks of 16384 bytes, the last one shorter, filled up with hashes of nothing, of the least
  -- height that has a leaf for each chunk. No assertion fails on the way, and the array then
  -- begins with these leaves.
  pub get_root-add_hashed_data :
      (s : State) (mem : ℕ → Hash) (xs : List ℕ)
      → 0 < length xs
      → length xs ≤ 2 ^ 62
      → (d : ℕ) × (m : MerkleTree State) × ((add_hashed_data h (new h s mem) xs >>= get_root h)
          ≡ some (tree_hash h (chunk_hash h xs) d 0, m))
        × (div_round_up (length xs) leaf_chunk_size ≤ pow2 d)
        × (pow2 d < 2 * div_round_up (length xs) leaf_chunk_size)
        × (m.leaves_num ≡ pow2 d)
        × ((j : ℕ) → j < pow2 d → m.nodes j ≡ chunk_hash h xs j)
  get_root-add_hashed_data s mem xs pos le =
      let (m, e, v) = add_hashed_data-Holds h s mem xs le in
      let (some_leaf, exact) = leaf_count_bounds m xs v pos le in
      let (d, m', root, lo, hi, width, kept) =
        get_root-tree_hash h m v.fits some_leaf (few_leaves m xs v le) in
      (
        d,
        m',
        rw (e, ◌>>=◌)
            (root
              ∙ ap (λ t. some (t, m'))
                  (tree_hash-ext h (leaf_at h m) (chunk_hash h xs) d 0
                    (λ j _ _. leaf_at-chunk_hash h m xs v j))),
        omega (arith, exact, lo),
        omega (arith, exact, hi),
        width,
        λ j lt. kept j lt ∙ leaf_at-chunk_hash h m xs v j,
      )
