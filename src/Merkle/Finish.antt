-- ===== src/Merkle/Finish.antt =====
-- merkle_tree.c: merkle_tree_leaf_finish, _finish_leaves and _get_root against the tree of the leaves.
use newnode.Prelude.{
  ◌>>=◌, ℕ, zero, suc, ◌+◌, ◌-◌, ◌*◌, ◌%◌, ◌^◌, ◌<◌, ◌≤◌, ◌≡◌, ◌∙◌, refl, ap, false, ◌&&◌, ◌||◌,
  true, leb, ltb, some, [], arith, ◌==◌, if◌then◌else◌, Bool-cases, inl, inr, ltb→lt,
}
use newnode.Prelude.Or.{pow2, pow2_pos}
use newnode.Base64.{size_mod}
use newnode.Crypto.{Generichash, hash_bytes}
use newnode.Merkle.{
  Hash, MerkleTree, store, double, leaf_finish, pad_leaves, finish_leaves, get_root, hash_levels,
  power_two_ceil, room_for,
}
use newnode.Merkle.Root.{tree_hash, tree_hash-ext, hash_levels-level, hash_levels-below}
use newnode.Merkle.PowerTwo.{pow2_anti, pow2_mono, power_two_ceil_least}

-- The leaves lie within the array, whose size in bytes is a size_t.
pub record Fits {State : Type 0} (m : MerkleTree State) : Type 0 where
  pub within : m.leaves_num ≤ m.nodes_alloc
  pub sized : m.nodes_alloc < 2 ^ 59

width_lem : (d : ℕ) → pow2 d < 2 ^ 59 → pow2 d ≤ 2 ^ 58
width_lem d lt =
    let top : pow2 59 ≡ 2 ^ 59 = refl in
    let below : d < 59 = pow2_anti d 59 (omega (arith, top, lt)) in
    let at : pow2 58 ≡ 2 ^ 58 = refl in omega (arith, at, pow2_mono d 58 (omega arith))

module _ (h : Generichash) where
  open h use {State, init, final}

  abbrev pub empty_leaf : Hash
  empty_leaf = final (init [] hash_bytes) hash_bytes

  -- The sequence of leaves that a tree stands for: those in the array, the one that is being hashed
  -- if bytes have gone into it, and empty ones.
  abbrev pub leaf_at : MerkleTree State → ℕ → Hash
  leaf_at m i =
      if ltb i m.leaves_num
      then m.nodes i
      else if ltb 0 m.leaf_progress && i == m.leaves_num
      then final m.leaf_state hash_bytes
      else empty_leaf

  abbrev pub leaf_count : MerkleTree State → ℕ
  leaf_count m = if ltb 0 m.leaf_progress then m.leaves_num + 1 else m.leaves_num

  abbrev pub finished : MerkleTree State → MerkleTree State
  finished m = record m {
    nodes_alloc = if m.leaves_num == m.nodes_alloc then double m.nodes_alloc else m.nodes_alloc;
    nodes = store m.nodes m.leaves_num (final m.leaf_state hash_bytes);
    leaves_num = m.leaves_num + 1;
    leaf_progress = 0;
  }

  -- The assertion holds, and the array has room for the new leaf.
  pub leaf_finish-some :
      (m : MerkleTree State)
      → Fits m
      → m.leaves_num < 2 ^ 58
      → (leaf_finish h m ≡ some (finished m)) × Fits (finished m)
  unfolding leaf_finish
  leaf_finish-some m f lt =
      let room : leb m.leaves_num m.nodes_alloc
            && (ltb m.leaves_num m.nodes_alloc || room_for m.leaves_num (double m.nodes_alloc))
          ≡ true =
        ground (arith, f.within, f.sized, lt) in
      (rw room refl, ground arith)

  pub record Padded (m : MerkleTree State) (n : ℕ) (m' : MerkleTree State) : Type 0 where
    pub fits : Fits m'
    pub count : m'.leaves_num ≡ m.leaves_num + n
    pub old : (i : ℕ) → i < m.leaves_num → m'.nodes i ≡ m.nodes i
    pub fresh : (i : ℕ) → m.leaves_num ≤ i → i < m.leaves_num + n → m'.nodes i ≡ empty_leaf

  pad_leaves-Padded :
      (n : ℕ) (m : MerkleTree State)
      → Fits m
      → m.leaves_num + n ≤ 2 ^ 58
      → (m' : MerkleTree State) × (pad_leaves h n m ≡ some m') × Padded m n m'
  unfolding pad_leaves
  pad_leaves-Padded zero m f le = (
    m,
    refl,
    record {
      fits = f;
      count = omega arith;
      old = λ i lt. refl;
      fresh = λ i lo hi. absurd (omega arith);
    },
  )
  pad_leaves-Padded (suc n) m f le =
      let m0 : MerkleTree State = record m { leaf_state = init [] hash_bytes } in
      let f0 : Fits m0 = record { within = f.within; sized = f.sized } in
      let (e, f1) = leaf_finish-some m0 f0 (omega arith) in
      let (m', e', p) = pad_leaves-Padded n (finished m0) f1 (omega arith) in
      (
        m',
        rw (e, ◌>>=◌) e',
        record {
          fits = p.fits;
          count = omega (arith, p.count);
          old = λ i lt. p.old i (omega arith) ∙ ground arith;
          fresh = λ i lo hi. elim (Bool-cases (i == m.leaves_num)) [
            | inl here ↦ p.old i (ground arith) ∙ ground arith
            | inr later ↦ p.fresh i (ground arith) (omega arith)
          ];
        },
      )

  record Flushed (m m1 : MerkleTree State) : Type 0 where
    fits : Fits m1
    count : m1.leaves_num ≡ leaf_count m
    leaves : (i : ℕ) → i < leaf_count m → m1.nodes i ≡ leaf_at m i

  flush-Flushed :
      (m : MerkleTree State)
      → Fits m
      → leaf_count m ≤ 2 ^ 58
      → (m1 : MerkleTree State) × ((if ltb 0 m.leaf_progress then leaf_finish h m else some m)
          ≡ some m1)
        × Flushed m m1
  flush-Flushed m f max = elim (Bool-cases (ltb 0 m.leaf_progress)) [
    | inl partial ↦
        let (e, f1) = leaf_finish-some m f (ground (arith, partial, max)) in
        (
          finished m,
          rw partial e,
          record { fits = f1; count = rw partial; leaves = λ i below. ground arith },
        )
    | inr whole ↦
        (m, rw whole, record { fits = f; count = rw whole; leaves = λ i below. ground arith })
  ]

  -- Behind the leaves that a padded tree keeps stand the empty ones.
  Padded-leaves :
      (m m1 m2 : MerkleTree State) (n : ℕ)
      → Flushed m m1
      → Padded m1 n m2
      → (i : ℕ) → i < m1.leaves_num + n
      → m2.nodes i ≡ leaf_at m i
  Padded-leaves m m1 m2 n fl p i lt = elim (Bool-cases (ltb i m1.leaves_num)) [
    | inl old ↦ let low = ltb→lt _ _ old in p.old i low ∙ fl.leaves i (omega (arith, fl.count))
    | inr new ↦ p.fresh i (ground arith) lt ∙ ground (arith, fl.count)
  ]

  abbrev levelled : MerkleTree State → MerkleTree State
  levelled m = record m { nodes = hash_levels h (m.leaves_num - 1) 0 m.leaves_num m.nodes }

  get_root_steps :
      (m m1 m2 : MerkleTree State) (n : ℕ)
      → (if ltb 0 m.leaf_progress then leaf_finish h m else some m) ≡ some m1
      → (power_two_ceil m1.leaves_num + size_mod - m1.leaves_num) % size_mod ≡ n
      → pad_leaves h n m1 ≡ some m2
      → (m2.leaves_num == 0) ≡ false
      → leb size_mod ((m2.leaves_num * 2 - 1) * hash_bytes) ≡ false
      → get_root h m ≡ some ((levelled m2).nodes (m2.leaves_num * 2 - 2), levelled m2)
  unfolding get_root finish_leaves
  get_root_steps m m1 m2 n e1 round e2 nonzero small =
      rw (e1, ◌>>=◌, round, e2, ◌>>=◌, nonzero, small)

  root_of_levels :
      (d n : ℕ) (leaves : ℕ → Hash)
      → n ≡ pow2 d
      → hash_levels h (n - 1) 0 n leaves (n * 2 - 2) ≡ tree_hash h leaves d 0
  root_of_levels d n leaves e =
      let last : n * 2 - 2 ≡ 2 * n - 2 * 1 + 0 = omega arith in
      let first : 0 * pow2 d ≡ 0 = omega arith in
      rw (last, hash_levels-level h d 1 n 0 leaves (omega arith) (omega arith) (omega arith), first)

  -- For a tree of at least one and at most 2 ^ 58 leaves, counting a partly filled one,
  -- merkle_tree_get_root passes its assertions and yields the hash of the perfect binary tree whose
  -- leaves are those of the tree in order, then empty ones, and whose height is the least that holds
  -- them all. These leaves are what the array then begins with.
  pub get_root-tree_hash :
      (m : MerkleTree State)
      → Fits m
      → 0 < leaf_count m
      → leaf_count m ≤ 2 ^ 58
      → (d : ℕ) × (m' : MerkleTree State) × (get_root h m ≡ some (tree_hash h (leaf_at m) d 0, m'))
        × (leaf_count m ≤ pow2 d)
        × (pow2 d < 2 * leaf_count m)
        × (m'.leaves_num ≡ pow2 d)
        × ((j : ℕ) → j < pow2 d → m'.nodes j ≡ leaf_at m j)
  get_root-tree_hash m f pos max =
      let (m1, e1, fl) = flush-Flushed m f max in
      let same : m1.leaves_num ≡ leaf_count m = fl.count in
      let (d, ceil, lo, hi) = power_two_ceil_least m1.leaves_num (omega arith) (omega arith) in
      let small_width : pow2 d ≤ 2 ^ 58 = width_lem d (omega (arith, hi, same, max)) in
      let (m2, e2, p) = pad_leaves-Padded (pow2 d - m1.leaves_num) m1 fl.fits (omega arith) in
      let n2 : m2.leaves_num ≡ pow2 d = omega (arith, p.count) in
      let round : (power_two_ceil m1.leaves_num + size_mod - m1.leaves_num) % size_mod
          ≡ pow2 d - m1.leaves_num =
        omega arith in
      let same_leaf : (j : ℕ) → j < pow2 d → m2.nodes j ≡ leaf_at m j =
        λ j lt. Padded-leaves m m1 m2 (pow2 d - m1.leaves_num) fl p j (omega arith) in
      let same_tree =
        tree_hash-ext h m2.nodes (leaf_at m) d 0 (λ j lo hi. same_leaf j (omega arith)) in
      (
        d,
        levelled m2,
        get_root_steps m m1 m2 (pow2 d - m1.leaves_num) e1 round e2 (ground (arith, pow2_pos d))
              (ground (arith, n2, pow2_pos d, small_width))
            ∙ ap (λ r. some (r, levelled m2))
                (root_of_levels d m2.leaves_num m2.nodes n2 ∙ same_tree),
        omega arith,
        omega arith,
        n2,
        λ j lt.
            hash_levels-below h (m2.leaves_num - 1) 0 m2.leaves_num j m2.nodes (omega arith)
            ∙ same_leaf j lt,
      )
