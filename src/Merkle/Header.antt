-- ===== src/Merkle/Header.antt =====
-- merkle_tree.c, merkle_tree_set_leaves: the leaves as the X-Hashes header carries them.
use newnode.Prelude.{
  ◌>>=◌, ℕ, zero, suc, ◌+◌, ◌-◌, ◌*◌, ◌/◌, ◌%◌, ◌^◌, ◌<◌, ◌≤◌, ◌≡◌, ◌∙◌, refl, sym, ap, some, none,
  List, [], ◌∷◌, ◌++◌, arith, length, ltb, if◌then◌else◌, replicate, take, drop, length-append,
  take-append, take_all, lt→ltb,
}
use newnode.Base64.{size_mod, div_round_up}
use newnode.Prelude.Or.{pow2, pow2_pos}
use newnode.Crypto.{Generichash, hash_bytes}
use newnode.Merkle.{
  Hash, MerkleTree, leaf_chunk_size, new, set_leaves, hash_at, add_hashed_data, get_root,
  finish_leaves, pad_leaves, power_two_ceil,
}
use newnode.Merkle.PowerTwo.{pow2_anti}
use newnode.Merkle.Root.{tree_hash, tree_hash-ext}
use newnode.Merkle.Finish.{Fits, leaf_count, leaf_at, get_root-tree_hash}
use newnode.Merkle.Leaves.{chunk_hash}
use newnode.Merkle.Signed.{get_root-add_hashed_data}

-- The first `n` nodes in memory, `&nodes[0]` to `&nodes[n]`.
abbrev pub leaf_bytes : ℕ → (ℕ → Hash) → List ℕ
leaf_bytes zero nodes = []
leaf_bytes (suc n) nodes = nodes 0 ++ leaf_bytes n (λ i. nodes (suc i))

abbrev Sized : ℕ → (ℕ → Hash) → Type 0
Sized n nodes = (i : ℕ) → i < n → length (nodes i) ≡ hash_bytes

length-leaf_bytes :
    (n : ℕ) (nodes : ℕ → Hash) → Sized n nodes → length (leaf_bytes n nodes) ≡ n * hash_bytes
length-leaf_bytes zero nodes s = refl
length-leaf_bytes (suc n) nodes s = omega (
  arith,
  length-append (nodes 0) (leaf_bytes n (λ i. nodes (suc i))),
  s 0 (omega arith),
  length-leaf_bytes n (λ i. nodes (suc i)) (λ i lt. s (suc i) (omega arith)),
)

drop-length-append : (x ys : List ℕ) (k : ℕ) → drop (length x + k) (x ++ ys) ≡ drop k ys
drop-length-append [] ys k = let e : 0 + k ≡ k = omega arith in rw e
drop-length-append (a ∷ x) ys k =
    let e : suc (length x) + k ≡ suc (length x + k) = omega arith in
    rw e (drop-length-append x ys k)

drop-hash :
    (x ys : List ℕ) (k : ℕ)
    → length x ≡ hash_bytes
    → drop (suc k * hash_bytes) (x ++ ys) ≡ drop (k * hash_bytes) ys
drop-hash x ys k e =
    let skip : suc k * hash_bytes ≡ length x + k * hash_bytes = omega arith in
    rw skip (drop-length-append x ys (k * hash_bytes))

hash_at-leaf_bytes :
    (n i : ℕ) (nodes : ℕ → Hash) → Sized n nodes → i < n → hash_at (leaf_bytes n nodes) i ≡ nodes i
unfolding hash_at
hash_at-leaf_bytes zero i nodes s lt = absurd (omega arith)
hash_at-leaf_bytes (suc n) zero nodes s lt =
    let size = s 0 (omega arith) in
    take-append hash_bytes (nodes 0) (leaf_bytes n (λ i. nodes (suc i))) (omega arith)
    ∙ take_all hash_bytes (nodes 0) (omega arith)
hash_at-leaf_bytes (suc n) (suc i) nodes s lt =
    ap (take hash_bytes)
      (drop-hash (nodes 0) (leaf_bytes n (λ i. nodes (suc i))) i (s 0 (omega arith)))
    ∙ hash_at-leaf_bytes n i (λ i. nodes (suc i)) (λ j lt. s (suc j) (omega arith)) (omega arith)

pow2_between : (d k : ℕ) → pow2 d ≤ pow2 k → pow2 k < 2 * pow2 d → k ≡ d
pow2_between d k lo hi =
    let below : k < suc d = pow2_anti k (suc d) (omega arith) in
    let above : d < suc k = pow2_anti d (suc k) (omega (arith, pow2_pos k)) in omega arith

module _ (h : Generichash) where
  open h use {State, length-final}

  -- A tree set from `n` leaves of the right size has them as its leaves, and is sound.
  set_leaves-some :
      (m : MerkleTree State) (n : ℕ) (nodes : ℕ → Hash)
      → m.leaf_progress ≡ 0
      → 0 < n
      → n ≤ 2 ^ 58
      → Sized n nodes
      → (m' : MerkleTree State) × (set_leaves h m (leaf_bytes n nodes) ≡ some m')
        × Fits m'
        × (leaf_count h m' ≡ n)
        × ((j : ℕ) → j < n → leaf_at h m' j ≡ nodes j)
  unfolding set_leaves
  set_leaves-some m n nodes idle pos max s =
      let size = length-leaf_bytes n nodes s in
      let whole : length (leaf_bytes n nodes) % hash_bytes ≡ 0 = omega arith in
      let count : length (leaf_bytes n nodes) / hash_bytes ≡ n = omega arith in
      (
        record m {
          leaves_num = n;
          nodes_alloc = (n * 2 + (size_mod - 1)) % size_mod;
          nodes = λ i. if ltb i n then hash_at (leaf_bytes n nodes) i else replicate hash_bytes 0;
        },
        rw (whole, count) refl,
        record { within = omega arith; sized = omega arith },
        rw (idle) refl,
        λ j lt. rw (lt→ltb j n lt) (hash_at-leaf_bytes n j nodes s lt),
      )

  same_root :
      (m : MerkleTree State) (nodes leaves : ℕ → Hash) (d : ℕ)
      → m.leaf_progress ≡ 0
      → pow2 d ≤ 2 ^ 58
      → Sized (pow2 d) leaves
      → ((j : ℕ) → j < pow2 d → nodes j ≡ leaves j)
      → (m' : MerkleTree State) × ((set_leaves h m (leaf_bytes (pow2 d) nodes) >>= get_root h)
          ≡ some (tree_hash h leaves d 0, m'))
  same_root m nodes leaves d idle max sized same =
      let sized_nodes : Sized (pow2 d) nodes = λ j lt. ap length (same j lt) ∙ sized j lt in
      let (m1, e1, fits, count, at) =
        set_leaves-some m (pow2 d) nodes idle (omega (arith, pow2_pos d)) max sized_nodes in
      let (k, m2, root, lo, hi, _, _) =
        get_root-tree_hash h m1 fits (omega (arith, pow2_pos d)) (omega arith) in
      let height : k ≡ d = pow2_between d k (omega arith) (omega arith) in
      (
        m2,
        rw (e1, ◌>>=◌)
            (root
              ∙ rw height (
                  ap (λ t. some (t, m2))
                    (tree_hash-ext h (leaf_at h m1) leaves d 0
                      (λ j _ lt. at j (omega arith) ∙ same j (omega arith))))),
      )

  received :
      (m : MerkleTree State) (nodes leaves : ℕ → Hash) (n d : ℕ) (root : Hash)
      → m.leaf_progress ≡ 0
      → pow2 d ≤ 2 ^ 58
      → Sized (pow2 d) leaves
      → ((j : ℕ) → j < pow2 d → nodes j ≡ leaves j)
      → n ≡ pow2 d
      → root ≡ tree_hash h leaves d 0
      → (m' : MerkleTree State) × ((set_leaves h m (leaf_bytes n nodes) >>= get_root h)
          ≡ some (root, m'))
  received m nodes leaves n d root idle max sized same width same_hash =
      rw (width, same_hash) (same_root m nodes leaves d idle max sized same)

  few_leaves :
      (d n : ℕ) → n ≤ 2 ^ 61 → pow2 d < 2 * div_round_up n leaf_chunk_size → pow2 d ≤ 2 ^ 58
  unfolding leaf_chunk_size
  few_leaves d n le lt = ground (arith, le, lt)

  -- The leaves that the signing side leaves in its array after it has computed the root of a stream,
  -- sent as bytes and set in a new tree, give the receiving side the same root.
  pub get_root-set_leaves :
      (s : State) (mem : ℕ → Hash) (xs : List ℕ) (root : Hash) (m : MerkleTree State) (s' : State)
      (mem' : ℕ → Hash)
      → 0 < length xs
      → length xs ≤ 2 ^ 61
      → (add_hashed_data h (new h s mem) xs >>= get_root h) ≡ some (root, m)
      → (m' : MerkleTree State) × ((set_leaves h (new h s' mem') (leaf_bytes m.leaves_num m.nodes)
            >>= get_root h)
          ≡ some (root, m'))
  get_root-set_leaves s mem xs root m s' mem' pos le run =
      let (d, m1, e, enough, few, width, kept) =
        get_root-add_hashed_data h s mem xs pos (omega arith) in
      let both = sym run ∙ e in
      let same_m : m ≡ m1 = grind arith in
      let same_hash : root ≡ tree_hash h (chunk_hash h xs) d 0 = grind arith in
      received (new h s' mem') m.nodes (chunk_hash h xs) m.leaves_num d root (unfold new in refl)
        (few_leaves d (length xs) le few) (λ j _. length-final _ hash_bytes)
        (λ j lt. ap (λ t. t.nodes j) same_m ∙ kept j lt) (ap (λ t. t.leaves_num) same_m ∙ width)
        same_hash

  -- When no bytes of a leaf are pending in the tree, merkle_tree_set_leaves accepts an empty header, and
  -- merkle_tree_get_root then fails an assertion on the tree that it has set.
  pub get_root-set_leaves_nil :
      (m : MerkleTree State)
      → m.leaf_progress ≡ 0
      → (m' : MerkleTree State) × (set_leaves h m [] ≡ some m') × (get_root h m' ≡ none)
  unfolding set_leaves get_root finish_leaves pad_leaves power_two_ceil
  get_root-set_leaves_nil m idle = (
    record m {
      leaves_num = 0;
      nodes_alloc = (0 * 2 + (size_mod - 1)) % size_mod;
      nodes = λ i. if ltb i 0 then hash_at [] i else replicate hash_bytes 0;
    },
    refl,
    rw (idle) refl,
  )
