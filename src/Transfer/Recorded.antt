-- ===== src/Transfer/Recorded.antt =====
-- client.c: what the origin sends is stored, and its hashes become the leaves of the tree.
use mathlib.Core.Path.{subst}
use newnode.Prelude.{
  ℕ, zero, suc, ◌+◌, ◌*◌, ◌^◌, ◌<◌, ◌≤◌, ◌≡◌, ◌∙◌, refl, sym, ap, ◌⊎◌, inl, inr, Bool, true, false,
  some, List, [], ltb, ◌||◌, ◌==◌, if_intro, ==_refl, arith, length, drop,
}
use newnode.Crypto.{Generichash}
use newnode.Merkle.{MerkleTree, Hash, leaf_chunk_size, leaf_set, set_leaf, room_for, grow, get_root}
use newnode.Chunks.{num_chunks}
use newnode.Transfer.{
  DirectRequest, ProxyRequest, Round, returns, aborts, goes, set_bit, write_at, fill, wanted,
  header_prefix, this_chunk_len, next_round, this_chunk_offset, content_hash,
}
use newnode.Transfer.Peer.{Surroundings}
use newnode.Transfer.Direct.{
  direct_next, direct_play, with_leaf, direct_store, direct_chunk, direct_round,
  direct_request_process_chunks,
}
use newnode.Transfer.Kept.{Core, kept, OnRound, on_returns, on_aborts, on_goes, on_weaker}
use newnode.Transfer.Held.{Held, store-Held, leaf_set-Held, place, size, chunk_length_le}
use newnode.Transfer.Sizes.{
  Sized, fill-size, full-size, this_chunk_offset-place, no_bytes, chunk_place,
}
use newnode.Transfer.Origin.{Unfinished, Left, Behind, direct_next-Behind, direct_play-Behind}

-- The invariant of a request to the origin for a page of known length, whatever place it stands at, whose
-- end the playhead has not reached.
pub record Recorded (hash : Generichash) (p : ProxyRequest hash.State) (d : DirectRequest)
    : Type 0 where
  pub held : Held hash (kept p)
  pub sized : Sized (kept p)
  pub known : p.chunked ≡ false
  pub unfinished : Unfinished p
  pub buffered : length d.range.chunk_buffer ≤ size (kept p) d.range.chunk_index

-- A page that is complete: its root is that of a tree for which the invariant holds.
abbrev pub Rooted : (hash : Generichash) → ProxyRequest hash.State → Type 0
Rooted hash p =
    (m : MerkleTree hash.State) × Held hash (record (kept p) { m = m })
    × (get_root hash m ≡ some (p.root_hash, p.m))

abbrev pub Outcome : (hash : Generichash) → ProxyRequest hash.State → DirectRequest → Type 0
Outcome hash p d = Recorded hash p d ⊎ Rooted hash p

leaf_set_here :
    (hash : Generichash) (m : MerkleTree hash.State) (i : ℕ) (leaf : Hash)
    → leaf ≡ (leaf_set hash m i leaf).nodes i
leaf_set_here hash m i leaf = rw (==_refl i) refl

module _ (hash : Generichash) (env : Surroundings) (malloc : ℕ → Bool)
    (writes : (offset : ℕ) (bytes : List ℕ) → env.write_to_file offset bytes ≡ true) where
  open hash use {State}
  open env use {write_to_file}

  abbrev Next : ProxyRequest State → DirectRequest → Type 0
  Next p d = Recorded hash p d × (d.range.chunk_index < num_chunks p.total_length)

  abbrev Records : Round State DirectRequest → Type 0
  Records = OnRound (Outcome hash) Unit Next

  -- What a round that leaves a core gives, where the core holds.
  ended-Records :
      (k : Core State) (i : ℕ) (x : Round State DirectRequest)
      → Held hash k
      → Sized k
      → k.chunked ≡ false
      → OnRound (Left hash k) Unit (Behind k i) x
      → Records x
  ended-Records k i x held sized known =
      on_weaker (Left hash k) (Outcome hash) Unit Unit (Behind k i) Next x left (λ a. a) behind
    where
      same_core :
          (p : ProxyRequest State) (d : DirectRequest)
          → kept p ≡ k
          → Unfinished p
          → d.range.chunk_buffer ≡ []
          → Recorded hash p d
      same_core p d same unfinished empty = record {
        unfinished = unfinished;
        held = subst (Held hash) (sym same) held;
        sized = subst Sized (sym same) sized;
        known = ap (λ (c : Core State). c.chunked) same ∙ known;
        buffered = rw empty (omega arith);
      }

      left : (p : ProxyRequest State) (d : DirectRequest) → Left hash k p d → Outcome hash p d
      left p d (inl (same, unfinished), empty) = inl (same_core p d same unfinished empty)
      left p d (inr (same, root), empty) = inr (
        k.m,
        subst (Held hash) (ap (λ (c : Core State). record c { m = k.m }) (sym same)) held,
        root,
      )

      behind : (p : ProxyRequest State) (d : DirectRequest) → Behind k i p d → Next p d
      behind p d (same, unfinished, empty, at, more) =
          let total : p.total_length ≡ k.total_length =
            ap (λ (c : Core State). c.total_length) same in
          (same_core p d same unfinished empty, rw (at, total) more)

  direct_store-Records :
      (q : ProxyRequest State) (d : DirectRequest) (input : List ℕ)
      → Held hash (kept q)
      → Sized (kept q)
      → q.chunked ≡ false
      → q.have_bitfield d.range.chunk_index ≡ false
      → d.range.chunk_index * leaf_chunk_size + leaf_chunk_size < 2 ^ 64
      → length d.range.chunk_buffer ≡ size (kept q) d.range.chunk_index
      → Records (
          direct_store hash env malloc
            (record q {
              have_bitfield = set_bit q.have_bitfield d.range.chunk_index;
              m =
                  leaf_set hash q.m d.range.chunk_index
                    (content_hash hash q.header_buf d.range.chunk_index d.range.chunk_buffer);
            })
            d
            input)
  unfolding direct_store
  direct_store-Records q d input held sized known missing index full =
      let i = d.range.chunk_index in
      let bytes = d.range.chunk_buffer in
      let leaf = content_hash hash q.header_buf i bytes in
      let k1 : Core State = record (kept q) { m = leaf_set hash q.m i leaf } in
      let p = record q {
        have_bitfield = set_bit q.have_bitfield i;
        m = leaf_set hash q.m i leaf;
      } in
      let offset = this_chunk_offset p d.range in
      let written = record p { file = write_at offset bytes p.file } in
      let at : offset ≡ place (kept q) i = this_chunk_offset-place q d.range sized index in
      let l = chunk_length_le q.chunked q.total_length 0 in
      let fits : length q.header_buf ≤ leaf_chunk_size = omega (arith, l, sized.header_fits) in
      let stored =
        store-Held hash k1 i bytes (leaf_set-Held hash (kept q) i leaf held missing) fits full
          (leaf_set_here hash q.m i leaf) in
      let held_place =
        subst (λ o. Held hash (kept (record p { file = write_at o bytes q.file }))) (sym at)
          stored in
      if_intro Records (length bytes == 0)
        (λ empty.
          ended-Records (kept p) i (direct_play hash env malloc p d input)
            (subst
              (λ b. Held hash (kept (record p { file = write_at (place (kept q) i) b q.file })))
              (no_bytes bytes empty) stored)
            (record { header_fits = sized.header_fits; below = sized.below }) known
            (direct_play-Behind hash env malloc (kept p) p d input refl known))
        (λ some_bytes.
          if_intro Records (write_to_file offset bytes)
            (λ done.
              ended-Records (kept written) i (direct_play hash env malloc written d input)
                held_place (record { header_fits = sized.header_fits; below = sized.below }) known
                (direct_play-Behind hash env malloc (kept written) written d input refl known))
            (λ failed. absurd (true_false (sym (writes offset bytes) ∙ failed))))
    where
      true_false : true ≡ false → ⊥
      true_false q = cc

  direct_round-Records :
      (p : ProxyRequest State) (d : DirectRequest) (input : List ℕ)
      → Recorded hash p d
      → d.range.chunk_index * leaf_chunk_size + leaf_chunk_size < 2 ^ 64
      → Records (direct_round hash env malloc p d input)
  unfolding direct_round direct_chunk set_leaf
  direct_round-Records p d input s index =
      let i = d.range.chunk_index in
      let d1 : DirectRequest = record d { range = fill p d.range input } in
      let rest = drop (wanted p d.range) input in
      let small =
        fill-size p d.range input s.sized (record { index = index; buffered = s.buffered }) in
      if_intro Records
        (ltb (header_prefix p d.range + length d1.range.chunk_buffer) (this_chunk_len p d.range))
        (λ short. on_returns (Outcome hash) Unit Next true p d1 rest (
          inl (record {
            held = s.held;
            sized = s.sized;
            known = s.known;
            unfinished = s.unfinished;
            buffered = small;
          })))
        (λ full.
          if_intro Records (p.have_bitfield i)
            (λ duplicate.
              ended-Records (kept p) i (direct_next hash env malloc p d1 rest) s.held s.sized
                s.known (direct_next-Behind hash env malloc (kept p) p d1 rest refl s.known))
            (λ new.
              let leaf = content_hash hash p.header_buf i d1.range.chunk_buffer in
              if_intro (λ o. Records (with_leaf hash env malloc p d1 rest o))
                (ltb i p.m.nodes_alloc || room_for i (grow (suc i) i p.m.nodes_alloc))
                (λ room.
                  direct_store-Records p d1 rest s.held s.sized s.known new index
                    (full-size p d.range d1.range.chunk_buffer s.sized small full))
                (λ wraps. on_aborts (Outcome hash) Unit Next tt)))

  next_round-Outcome :
      (fuel : ℕ) (x : Round State DirectRequest)
      → ((p : ProxyRequest State) (d : DirectRequest) (rest : List ℕ)
          → Next p d
          → OnRound
              (Outcome hash)
              Unit
              (Recorded hash)
              (direct_request_process_chunks hash env malloc fuel p d rest))
      → Records x
      → OnRound
          (Outcome hash)
          Unit
          (Recorded hash)
          (next_round x (direct_request_process_chunks hash env malloc fuel))
  unfolding OnRound
  next_round-Outcome fuel (returns b p d input) again h = h
  next_round-Outcome fuel aborts again h = h
  next_round-Outcome fuel (goes p d input) again h = again p d input h

  -- Where each write to the cache file succeeds, direct_request_process_chunks keeps the invariant on a
  -- page of known length whose end the playhead has not reached: each chunk that counts as held stands in
  -- the file, and its hash is its leaf of the tree. If it does not fail an assertion, it either keeps this
  -- invariant, the end still not reached, or stores a root, the one of a tree for which each chunk that
  -- counts as held stands in the file with its hash as its leaf.
  pub direct_request_process_chunks-Outcome :
      (fuel : ℕ) (p : ProxyRequest State) (d : DirectRequest) (input : List ℕ)
      → Recorded hash p d
      → d.range.chunk_index * leaf_chunk_size + leaf_chunk_size < 2 ^ 64
      → OnRound
          (Outcome hash)
          Unit
          (Recorded hash)
          (direct_request_process_chunks hash env malloc fuel p d input)
  unfolding direct_request_process_chunks
  direct_request_process_chunks-Outcome zero p d input s index =
      on_goes (Outcome hash) Unit (Recorded hash) p d input s
  direct_request_process_chunks-Outcome (suc fuel) p d input s index =
      next_round-Outcome fuel (direct_round hash env malloc p d input)
        (λ p' d' rest h.
          direct_request_process_chunks-Outcome fuel p' d' rest h.0
            (chunk_place p'.total_length d'.range.chunk_index h.0.sized.below h.1))
        (direct_round-Records p d input s index)
