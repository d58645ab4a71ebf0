-- ===== src/Merkle.antt =====
-- merkle_tree.c: a tree of hashes over chunks of a stream, kept in one array: the leaves first, and
-- behind them each level above, up to the root.
pub mod Root
pub mod Signed
pub mod Header
pub mod Leaves
pub mod Stream
pub mod Finish
pub mod PowerTwo
pub mod SetLeaf
mod Tests
use newnode.Prelude.{
  ◌>>=◌, ℕ, zero, suc, ◌+◌, ◌-◌, ◌*◌, ◌/◌, ◌%◌, ◌^◌, bit_or, true, false, Bool, ◌&&◌, ◌||◌, Option,
  none, some, List, [], ◌∷◌, ◌++◌, ltb, leb, ◌==◌, if◌then◌else◌, length, take, drop, replicate,
  min,
}
use newnode.Base64.{codes, size_mod}
use newnode.Crypto.{Generichash, hash_bytes, key_bytes}

abbrev pub Hash : Type 0
Hash = List ℕ

-- LEAF_CHUNK_SIZE
unfoldable pub leaf_chunk_size : ℕ
leaf_chunk_size = 16384

-- `nodes` is the memory behind the pointer, by index; what `realloc` adds is whatever it holds.
pub record MerkleTree (State : Type 0) : Type 0 where
  pub leaf_state : State
  pub leaf_progress : ℕ
  pub leaves_num : ℕ
  pub nodes_alloc : ℕ
  pub nodes : ℕ → Hash

abbrev pub store : (ℕ → Hash) → ℕ → Hash → ℕ → Hash
store m i h j = if i == j then h else m j

-- One doubling of `nodes_alloc`, from 0 to 2.
abbrev pub double : ℕ → ℕ
double n = ((if n == 0 then 1 else n) * 2) % size_mod

-- Whether the array of `n` nodes has an index, and its size in bytes, the argument of realloc, does not wrap.
abbrev pub room_for : ℕ → ℕ → Bool
room_for idx n = ltb idx n && ltb (n * hash_bytes) size_mod

-- `while (leaf_idx >= m->nodes_alloc)`, on fuel.
unfoldable pub grow : ℕ → ℕ → ℕ → ℕ
grow zero idx n = n
grow (suc fuel) idx n = elim (leb n idx) [ true ↦ grow fuel idx (double n) | false ↦ n ]

-- The halving steps of `power_two_ceil`, with the loop's shifts 1, 2, 4, 8, 16 and 32.
abbrev pub smear : ℕ → ℕ → ℕ
smear v i = bit_or v (v / 2 ^ i)

unfoldable pub power_two_ceil : ℕ → ℕ
power_two_ceil v =
    let v0 = (v + (size_mod - 1)) % size_mod in
    (smear (smear (smear (smear (smear (smear v0 1) 2) 4) 8) 16) 32 + 1) % size_mod

-- The leaves in the bytes of an X-Hashes header.
unfoldable pub hash_at : List ℕ → ℕ → Hash
hash_at bytes i = take hash_bytes (drop (i * hash_bytes) bytes)

module _ (h : Generichash) where
  open h use {State, init, update, final}

  -- alloc(merkle_tree)
  unfoldable pub new : State → (ℕ → Hash) → MerkleTree State
  new s mem = record {
    leaf_state = s;
    leaf_progress = 0;
    leaves_num = 0;
    nodes_alloc = 0;
    nodes = mem;
  }

  -- `none` is the result false.
  unfoldable pub set_leaves : MerkleTree State → List ℕ → Option (MerkleTree State)
  unfolding hash_at
  set_leaves m bytes =
      let n = length bytes / hash_bytes in
      if length bytes % hash_bytes == 0
      then some (record m {
        leaves_num = n;
        nodes_alloc = (n * 2 + (size_mod - 1)) % size_mod;
        nodes = λ i. if ltb i n then hash_at bytes i else replicate hash_bytes 0;
      })
      else none

  abbrev pub leaf_set : MerkleTree State → ℕ → Hash → MerkleTree State
  leaf_set m idx hash = record m {
    nodes_alloc = grow (suc idx) idx m.nodes_alloc;
    nodes = store m.nodes idx hash;
    leaves_num = if leb m.leaves_num idx then idx + 1 else m.leaves_num;
  }

  -- `none` is a failed assertion or a write outside of the array, whose size in bytes has wrapped, here and
  -- below.
  unfoldable pub set_leaf : MerkleTree State → ℕ → Hash → Option (MerkleTree State)
  set_leaf m idx hash =
      if ltb idx m.nodes_alloc || room_for idx (grow (suc idx) idx m.nodes_alloc)
      then some (leaf_set m idx hash)
      else none

  unfoldable pub leaf_finish : MerkleTree State → Option (MerkleTree State)
  leaf_finish m =
      if leb m.leaves_num m.nodes_alloc
        && (ltb m.leaves_num m.nodes_alloc || room_for m.leaves_num (double m.nodes_alloc))
      then some (record m {
        nodes_alloc = if m.leaves_num == m.nodes_alloc then double m.nodes_alloc else m.nodes_alloc;
        nodes = store m.nodes m.leaves_num (final m.leaf_state hash_bytes);
        leaves_num = m.leaves_num + 1;
        leaf_progress = 0;
      })
      else none

  -- The body of the loop of `merkle_tree_add_hashed_data`, on the next `len` bytes.
  unfoldable pub absorb : MerkleTree State → List ℕ → Option (MerkleTree State)
  absorb m bytes =
      let s = if m.leaf_progress == 0 then init [] hash_bytes else m.leaf_state in
      let progress = m.leaf_progress + length bytes in
      let m' = record m { leaf_state = update s bytes; leaf_progress = progress } in
      if ltb m.leaf_progress leaf_chunk_size
      then if leb progress leaf_chunk_size
        then if progress == leaf_chunk_size then leaf_finish m' else some m'
        else none
      else none

  -- `for (remain = length; remain; )`, on fuel.
  unfoldable pub add_loop : ℕ → MerkleTree State → List ℕ → Option (MerkleTree State)
  add_loop zero m bytes = some m
  add_loop (suc fuel) m [] = some m
  add_loop (suc fuel) m (b ∷ bs) =
      let len = min (leaf_chunk_size - m.leaf_progress) (suc (length bs)) in
      absorb m (take len (b ∷ bs)) >>= λ m'. add_loop fuel m' (drop len (b ∷ bs))

  unfoldable pub add_hashed_data : MerkleTree State → List ℕ → Option (MerkleTree State)
  add_hashed_data m bytes = add_loop (length bytes) m bytes

  -- The extents of the buffer, in order.
  unfoldable pub add_evbuffer : MerkleTree State → List (List ℕ) → Option (MerkleTree State)
  add_evbuffer m [] = some m
  add_evbuffer m (v ∷ vs) = add_hashed_data m v >>= λ m'. add_evbuffer m' vs

  -- The key is the array "node" filled up with zeros.
  unfoldable pub node_hash : Hash → Hash → Hash
  node_hash l r =
      final (update (update (init (codes "node" ++ replicate (key_bytes - 4) 0) hash_bytes) l) r)
        hash_bytes

  -- The empty leaves that fill the level up.
  unfoldable pub pad_leaves : ℕ → MerkleTree State → Option (MerkleTree State)
  pad_leaves zero m = some m
  pad_leaves (suc n) m =
      leaf_finish (record m { leaf_state = init [] hash_bytes }) >>= λ m'. pad_leaves n m'

  -- `i` runs through the even numbers 2k below `leaves_num * 2 - 2`, k from `k` on.
  unfoldable pub hash_levels : ℕ → ℕ → ℕ → (ℕ → Hash) → ℕ → Hash
  hash_levels zero k n mem = mem
  hash_levels (suc rounds) k n mem =
      hash_levels rounds (k + 1) n (store mem (n + k) (node_hash (mem (2 * k)) (mem (2 * k + 1))))

  unfoldable pub finish_leaves : MerkleTree State → Option (MerkleTree State)
  finish_leaves m = (if ltb 0 m.leaf_progress then leaf_finish m else some m) >>= λ m1.
      pad_leaves ((power_two_ceil m1.leaves_num + size_mod - m1.leaves_num) % size_mod) m1 >>= λ m2.
      if m2.leaves_num == 0
      then none
      else if leb size_mod ((m2.leaves_num * 2 - 1) * hash_bytes)
      then none
      else some (record m2 { nodes = hash_levels (m2.leaves_num - 1) 0 m2.leaves_num m2.nodes })

  -- The root, and the tree that is left.
  unfoldable pub get_root : MerkleTree State → Option (Hash × MerkleTree State)
  get_root m = finish_leaves m >>= λ m'. some (m'.nodes (m'.leaves_num * 2 - 2), m')
