-- ===== src/Transfer/Checked.antt =====
-- client.c: what a peer sends is stored and sent on only where its hash is its leaf of the tree.
use mathlib.Core.Path.{subst}
use newnode.Prelude.{
  ℕ, zero, suc, ◌+◌, ◌*◌, ◌^◌, ◌<◌, ◌≤◌, ◌≡◌, ◌∙◌, refl, sym, ap, true, false, List, [], ltb, ◌==◌,
  if_intro, ==_refl, arith, length, drop, bytes_eq, bytes_eq→eq,
}
use newnode.Crypto.{Generichash}
use newnode.Merkle.{leaf_chunk_size}
use newnode.Chunks.{num_chunks}
use newnode.Transfer.{
  PeerRequest, ProxyRequest, peer_verified, send, Round, returns, aborts, goes, set_bit, write_at,
  fill, wanted, header_prefix, this_chunk_len, next_round, this_chunk_offset, content_hash,
}
use newnode.Transfer.Peer.{
  Surroundings, peer_play, peer_store, peer_chunk, peer_round, peer_request_process_chunks,
}
use newnode.Transfer.Kept.{Core, kept, OnRound, on_returns, on_goes, on_weaker}
use newnode.Transfer.Held.{Held, store-Held, place, size, chunk_length_le}
use newnode.Transfer.Rounds.{Stopped, Advanced, peer_play-Advanced}
use newnode.Transfer.Sizes.{
  Sized, fill-size, full-size, this_chunk_offset-place, no_bytes, chunk_place,
}

-- The invariant of a request to a peer, whatever place it stands at.
pub record Sound (hash : Generichash) (p : ProxyRequest hash.State) (r : PeerRequest) : Type 0 where
  pub held : Held hash (kept p)
  pub sized : Sized (kept p)
  pub buffered : length r.range.chunk_buffer ≤ size (kept p) r.range.chunk_index

module _ (hash : Generichash) (env : Surroundings)
    (writes : (offset : ℕ) (bytes : List ℕ) → env.write_to_file offset bytes ≡ true) where
  open hash use {State}
  open env use {write_to_file}

  -- The state that the loop goes on from.
  abbrev Next : ProxyRequest State → PeerRequest → Type 0
  Next p r = Sound hash p r × (r.range.chunk_index < num_chunks p.total_length)

  abbrev Checks : Round State PeerRequest → Type 0
  Checks = OnRound (Sound hash) Unit Next

  peer_play-Sound :
      (p : ProxyRequest State) (r : PeerRequest) (input : List ℕ)
      → Held hash (kept p)
      → Sized (kept p)
      → p.have_bitfield r.range.chunk_index ≡ true
      → Checks (peer_play hash env p r input)
  peer_play-Sound p r input held sized here =
      let sound : (p' : ProxyRequest State) (r' : PeerRequest)
          → Stopped (kept p) p' r'
          → Sound hash p' r' =
        λ p' r' h. stopped p' r' h.0 h.1 in
      on_weaker (Stopped (kept p)) (Sound hash) Unit Unit (Advanced (kept p) r.range.chunk_index)
        Next (peer_play hash env p r input) sound (λ a. a)
        (λ p' r' h. (sound p' r' (h.0, h.1), next p' r' h))
        (peer_play-Advanced hash env Unit (kept p) p r input refl here (λ no. tt) (λ past. tt))
    where
      next :
          (p' : ProxyRequest State) (r' : PeerRequest)
          → Advanced (kept p) r.range.chunk_index p' r'
          → r'.range.chunk_index < num_chunks p'.total_length
      next p' r' h =
          let total : p'.total_length ≡ p.total_length =
            ap (λ (c : Core State). c.total_length) h.0 in
          rw (h.2, total) h.3

      stopped :
          (p' : ProxyRequest State) (r' : PeerRequest)
          → kept p' ≡ kept p
          → r'.range.chunk_buffer ≡ []
          → Sound hash p' r'
      stopped p' r' same empty = record {
        held = subst (Held hash) (sym same) held;
        sized = subst Sized (sym same) sized;
        buffered = rw empty (omega arith);
      }

  peer_store-Sound :
      (q : ProxyRequest State) (r : PeerRequest) (input : List ℕ)
      → Held hash (kept q)
      → Sized (kept q)
      → r.range.chunk_index * leaf_chunk_size + leaf_chunk_size < 2 ^ 64
      → length r.range.chunk_buffer ≡ size (kept q) r.range.chunk_index
      → content_hash hash q.header_buf r.range.chunk_index r.range.chunk_buffer
        ≡ q.m.nodes r.range.chunk_index
      → Checks (
          peer_store hash env
            (send peer_verified
              (record q { have_bitfield = set_bit q.have_bitfield r.range.chunk_index }))
            r
            input)
  unfolding peer_store
  peer_store-Sound q r input held sized index full good =
      let i = r.range.chunk_index in
      let bytes = r.range.chunk_buffer in
      let p = send peer_verified (record q { have_bitfield = set_bit q.have_bitfield i }) in
      let offset = this_chunk_offset p r.range in
      let written = record p { file = write_at offset bytes p.file } in
      let at : offset ≡ place (kept q) i = this_chunk_offset-place q r.range sized index in
      let l = chunk_length_le q.chunked q.total_length 0 in
      let fits : length q.header_buf ≤ leaf_chunk_size = omega (arith, l, sized.header_fits) in
      let stored = store-Held hash (kept q) i bytes held fits full good in
      let still : Sized (kept p) = record {
        header_fits = sized.header_fits;
        below = sized.below;
      } in
      let bit : set_bit q.have_bitfield i i ≡ true = rw (==_refl i) refl in
      if_intro Checks (length bytes == 0)
        (λ empty.
          peer_play-Sound p r input
            (subst
              (λ b. Held hash (kept (record p { file = write_at (place (kept q) i) b q.file })))
              (no_bytes bytes empty) stored)
            still bit)
        (λ some_bytes.
          if_intro Checks (write_to_file offset bytes)
            (λ done.
              peer_play-Sound written r input
                (subst (λ o. Held hash (kept (record p { file = write_at o bytes q.file })))
                  (sym at) stored)
                (record { header_fits = sized.header_fits; below = sized.below }) bit)
            (λ failed. absurd (true_false (sym (writes offset bytes) ∙ failed))))
    where
      true_false : true ≡ false → ⊥
      true_false q = cc

  peer_round-Sound :
      (p : ProxyRequest State) (r : PeerRequest) (input : List ℕ)
      → Sound hash p r
      → r.range.chunk_index * leaf_chunk_size + leaf_chunk_size < 2 ^ 64
      → Checks (peer_round hash env p r input)
  unfolding peer_round peer_chunk
  peer_round-Sound p r input s index =
      let i = r.range.chunk_index in
      let r1 : PeerRequest = record r { range = fill p r.range input } in
      let rest = drop (wanted p r.range) input in
      let small =
        fill-size p r.range input s.sized (record { index = index; buffered = s.buffered }) in
      let filled : Sound hash p r1 = record { held = s.held; sized = s.sized; buffered = small } in
      if_intro Checks
        (ltb (header_prefix p r.range + length r1.range.chunk_buffer) (this_chunk_len p r.range))
        (λ short. on_returns (Sound hash) Unit Next true p r1 rest filled)
        (λ full.
          if_intro Checks
            (bytes_eq (content_hash hash p.header_buf i r1.range.chunk_buffer) (p.m.nodes i))
            (λ good.
              peer_store-Sound p r1 rest s.held s.sized index
                (full-size p r.range r1.range.chunk_buffer s.sized small full)
                (bytes_eq→eq (content_hash hash p.header_buf i r1.range.chunk_buffer) (p.m.nodes i)
                  good))
            (λ bad. on_returns (Sound hash) Unit Next false p r1 rest filled))

  next_round-Sound :
      (fuel : ℕ) (x : Round State PeerRequest)
      → ((p : ProxyRequest State) (r : PeerRequest) (rest : List ℕ)
          → Next p r
          → OnRound
              (Sound hash)
              Unit
              (Sound hash)
              (peer_request_process_chunks hash env fuel p r rest))
      → Checks x
      → OnRound
          (Sound hash)
          Unit
          (Sound hash)
          (next_round x (peer_request_process_chunks hash env fuel))
  unfolding OnRound
  next_round-Sound fuel (returns b p r input) again h = h
  next_round-Sound fuel aborts again h = h
  next_round-Sound fuel (goes p r input) again h = again p r input h

  -- Where each write to the cache file succeeds, peer_request_process_chunks keeps the invariant: each
  -- chunk that counts as held stands in the file, and its hash, with the header for the first one, is
  -- its leaf of the tree.
  pub peer_request_process_chunks-Sound :
      (fuel : ℕ) (p : ProxyRequest State) (r : PeerRequest) (input : List ℕ)
      → Sound hash p r
      → r.range.chunk_index * leaf_chunk_size + leaf_chunk_size < 2 ^ 64
      → OnRound (Sound hash) Unit (Sound hash) (peer_request_process_chunks hash env fuel p r input)
  unfolding peer_request_process_chunks
  peer_request_process_chunks-Sound zero p r input s index =
      on_goes (Sound hash) Unit (Sound hash) p r input s
  peer_request_process_chunks-Sound (suc fuel) p r input s index =
      next_round-Sound fuel (peer_round hash env p r input)
        (λ p' r' rest h.
          peer_request_process_chunks-Sound fuel p' r' rest h.0
            (chunk_place p'.total_length r'.range.chunk_index h.0.sized.below h.1))
        (peer_round-Sound p r input s index)
