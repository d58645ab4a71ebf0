-- ===== src/Merkle/SetLeaf.antt =====
-- merkle_tree.c, merkle_tree_set_leaf: the growth of the array, and the leaf that is stored.
use newnode.Prelude.{
  ℕ, zero, suc, ◌+◌, ◌^◌, ◌<◌, ◌≤◌, ◌≡◌, refl, arith, leb, ltb, true, some, ◌||◌, ◌==◌,
  if◌then◌else◌, Bool-cases, inl, inr,
}
use newnode.Crypto.{Generichash}
use newnode.Merkle.{Hash, MerkleTree, double, grow, room_for, leaf_set, set_leaf}
use newnode.Merkle.Finish.{Fits}

-- With a round for each place that is missing, the loop ends behind the index, without wrapping.
grow-enough :
    (fuel idx n : ℕ)
    → idx < 2 ^ 58
    → n < 2 ^ 59
    → idx < n + fuel
    → (idx < grow fuel idx n) × (n ≤ grow fuel idx n) × (grow fuel idx n < 2 ^ 59)
unfolding grow
grow-enough zero idx n max size lt = (omega arith, omega arith, omega arith)
grow-enough (suc fuel) idx n max size lt = elim (Bool-cases (leb n idx)) [
  | inl small ↦
      let le : n ≤ idx = ground arith in
      let next : n + 1 ≤ double n = ground arith in
      let bound : double n < 2 ^ 59 = ground arith in
      let (behind, above, sized) = grow-enough fuel idx (double n) max bound (omega arith) in
      rw (grow, small) (behind, omega arith, sized)
  | inr large ↦ rw (grow, large) (ground arith, omega arith, omega arith)
]

module _ (h : Generichash) where
  open h use {State}

  -- Storing a leaf at an index below 2 ^ 58 in a sound tree stays inside the array that it has grown, and
  -- leaves a sound tree with room for the index, which counts the leaf, holds it there, and is as before at
  -- every other index.
  pub set_leaf-Fits :
      (m : MerkleTree State) (idx : ℕ) (hash : Hash) (j : ℕ)
      → Fits m
      → idx < 2 ^ 58
      → (m' : MerkleTree State) × (set_leaf h m idx hash ≡ some m')
        × Fits m'
        × (idx < m'.leaves_num)
        × (m.leaves_num ≤ m'.leaves_num)
        × (m'.nodes j ≡ (if idx == j then hash else m.nodes j))
  unfolding set_leaf
  set_leaf-Fits m idx hash j f max =
      let (behind, above, sized) =
        grow-enough (suc idx) idx m.nodes_alloc max f.sized (omega arith) in
      let room : (ltb idx m.nodes_alloc || room_for idx (grow (suc idx) idx m.nodes_alloc)) ≡ true =
        ground (arith, behind, sized) in
      (
        leaf_set h m idx hash,
        rw room refl,
        record { within = ground (arith, f.within, behind, above); sized = sized },
        ground arith,
        ground arith,
        refl,
      )
