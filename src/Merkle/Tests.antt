-- ===== src/Merkle/Tests.antt =====
-- merkle_tree.c: the theorems on a concrete hash, which keeps the first bytes that it is given.
use newnode.Prelude.{
  ◌>>=◌, ℕ, ◌==◌, if◌then◌else◌, ◌*◌, ◌<◌, ◌≤◌, ◌≡◌, refl, some, none, List, [], ◌∷◌, ◌++◌, arith,
}
use newnode.Prelude.Or.{pow2}
use newnode.Crypto.FirstBytes.{first_bytes, keep}
use newnode.Base64.{div_round_up}
use newnode.Merkle.{
  set_leaf, Hash, MerkleTree, leaf_chunk_size, power_two_ceil, new, absorb, leaf_finish, add_loop,
  add_hashed_data, add_evbuffer, get_root, finish_leaves, pad_leaves, hash_levels, node_hash,
  set_leaves, store,
}
use newnode.Merkle.PowerTwo.{power_two_ceil_least}
use newnode.Merkle.Root.{tree_hash}
use newnode.Merkle.Finish.{Fits, leaf_at, get_root-tree_hash}
use mathlib.Core.List.{flatten}
use newnode.Merkle.Stream.{add_hashed_data-append, add_evbuffer-flatten}
use newnode.Merkle.Leaves.{Holds, chunk_hash, add_hashed_data-Holds}
use newnode.Merkle.SetLeaf.{set_leaf-Fits}
use newnode.Merkle.Signed.{get_root-add_hashed_data}
use newnode.Merkle.Header.{leaf_bytes, get_root-set_leaves, get_root-set_leaves_nil}

abbrev memory : ℕ → Hash
memory i = []

abbrev three_leaves : MerkleTree (List ℕ)
three_leaves = record {
  leaf_state = [];
  leaf_progress = 0;
  leaves_num = 3;
  nodes_alloc = 4;
  nodes = λ i. i ∷ [];
}

abbrev empty_tree : MerkleTree (List ℕ)
empty_tree = new first_bytes [] memory

power_two_ceil_least_example :
    (d : ℕ) × (power_two_ceil 5 ≡ pow2 d) × (5 ≤ pow2 d) × (pow2 d < 2 * 5)
power_two_ceil_least_example = power_two_ceil_least 5 (omega arith) (omega arith)

get_root-tree_hash_example :
    (d : ℕ) × (m' : MerkleTree (List ℕ)) × (get_root first_bytes three_leaves
      ≡ some (tree_hash first_bytes (leaf_at first_bytes three_leaves) d 0, m'))
    × (3 ≤ pow2 d)
    × (pow2 d < 2 * 3)
    × (m'.leaves_num ≡ pow2 d)
    × ((j : ℕ) → j < pow2 d → m'.nodes j ≡ leaf_at first_bytes three_leaves j)
get_root-tree_hash_example =
    get_root-tree_hash first_bytes three_leaves
      (record { within = omega arith; sized = omega arith }) (omega arith) (omega arith)

add_hashed_data-append_example :
    add_hashed_data first_bytes three_leaves ((1 ∷ 2 ∷ []) ++ (3 ∷ [])) ≡ (
      add_hashed_data first_bytes three_leaves (1 ∷ 2 ∷ []) >>= λ m.
      add_hashed_data first_bytes m (3 ∷ []))
add_hashed_data-append_example =
    add_hashed_data-append first_bytes three_leaves (1 ∷ 2 ∷ []) (3 ∷ [])
      (unfold leaf_chunk_size in omega arith)

add_evbuffer-flatten_example :
    add_evbuffer first_bytes three_leaves ((1 ∷ 2 ∷ []) ∷ (3 ∷ []) ∷ [])
    ≡ add_hashed_data first_bytes three_leaves (flatten ((1 ∷ 2 ∷ []) ∷ (3 ∷ []) ∷ []))
add_evbuffer-flatten_example =
    add_evbuffer-flatten first_bytes three_leaves ((1 ∷ 2 ∷ []) ∷ (3 ∷ []) ∷ [])
      (unfold leaf_chunk_size in omega arith)

add_hashed_data-Holds_example :
    (m : MerkleTree (List ℕ)) × (add_hashed_data first_bytes empty_tree (7 ∷ 8 ∷ []) ≡ some m)
    × Holds first_bytes m (7 ∷ 8 ∷ [])
add_hashed_data-Holds_example =
    add_hashed_data-Holds first_bytes [] memory (7 ∷ 8 ∷ []) (omega arith)

get_root-add_hashed_data_example :
    (d : ℕ) × (m : MerkleTree (List ℕ)) × ((add_hashed_data first_bytes empty_tree (7 ∷ 8 ∷ [])
        >>= get_root first_bytes)
      ≡ some (tree_hash first_bytes (chunk_hash first_bytes (7 ∷ 8 ∷ [])) d 0, m))
    × (div_round_up 2 leaf_chunk_size ≤ pow2 d)
    × (pow2 d < 2 * div_round_up 2 leaf_chunk_size)
    × (m.leaves_num ≡ pow2 d)
    × ((j : ℕ) → j < pow2 d → m.nodes j ≡ chunk_hash first_bytes (7 ∷ 8 ∷ []) j)
get_root-add_hashed_data_example =
    get_root-add_hashed_data first_bytes [] memory (7 ∷ 8 ∷ []) (omega arith) (omega arith)

abbrev signed_tree : MerkleTree (List ℕ)
signed_tree = record {
  leaf_state = 7 ∷ 8 ∷ [];
  leaf_progress = 0;
  leaves_num = 1;
  nodes_alloc = 2;
  nodes = store memory 0 (keep 32 (7 ∷ 8 ∷ []));
}

signed_run :
    (add_hashed_data first_bytes empty_tree (7 ∷ 8 ∷ []) >>= get_root first_bytes)
    ≡ some (keep 32 (7 ∷ 8 ∷ []), signed_tree)
unfolding new leaf_chunk_size power_two_ceil add_hashed_data add_loop absorb leaf_finish get_root
    finish_leaves pad_leaves hash_levels node_hash
signed_run = refl

get_root-set_leaves_example :
    (m' : MerkleTree (List ℕ)) × ((set_leaves first_bytes
          (new first_bytes (5 ∷ []) memory)
          (leaf_bytes 1 signed_tree.nodes)
        >>= get_root first_bytes)
      ≡ some (keep 32 (7 ∷ 8 ∷ []), m'))
get_root-set_leaves_example =
    get_root-set_leaves first_bytes [] memory (7 ∷ 8 ∷ []) (keep 32 (7 ∷ 8 ∷ [])) signed_tree
      (5 ∷ []) memory (omega arith) (omega arith) signed_run

get_root-set_leaves_nil_example :
    (m' : MerkleTree (List ℕ)) × (set_leaves first_bytes three_leaves [] ≡ some m')
    × (get_root first_bytes m' ≡ none)
get_root-set_leaves_nil_example = get_root-set_leaves_nil first_bytes three_leaves refl

set_leaf-Fits_example :
    (m' : MerkleTree (List ℕ)) × (set_leaf first_bytes three_leaves 9 (5 ∷ []) ≡ some m')
    × Fits m'
    × (9 < m'.leaves_num)
    × (3 ≤ m'.leaves_num)
    × (m'.nodes 2 ≡ (if 9 == 2 then 5 ∷ [] else three_leaves.nodes 2))
set_leaf-Fits_example =
    set_leaf-Fits first_bytes three_leaves 9 (5 ∷ []) 2
      (record { within = omega arith; sized = omega arith }) (omega arith)
