-- ===== src/Transfer/Ends.antt =====
-- client.c: the loop of peer_request_process_chunks returns.
use newnode.Prelude.{
  ℕ, zero, suc, ◌+◌, ◌<◌, ◌≤◌, ◌≡◌, ◌∙◌, refl, sym, ap, Bool, true, false, List, ltb, ◌==◌,
  if_intro, ==_refl, arith, length, drop, bytes_eq,
}
use newnode.Crypto.{Generichash}
use newnode.Chunks.{num_chunks}
use newnode.Transfer.{
  PeerRequest, ProxyRequest, peer_verified, send, Round, returns, aborts, goes, set_bit, write_at,
  fill, wanted, header_prefix, this_chunk_len, next_round, this_chunk_offset, content_hash,
}
use newnode.Transfer.Peer.{
  Surroundings, peer_play, peer_store, peer_chunk, peer_round, peer_request_process_chunks,
}
use newnode.Transfer.Kept.{Core, kept, OnRound, on_returns, on_weaker}
use newnode.Transfer.Rounds.{Stopped, Advanced, peer_play-Advanced}

-- A loop that has returned, and the state that it goes on from behind chunk `i` of `n`.
abbrev pub Returned : {S : Type 0} → ProxyRequest S → PeerRequest → Type 0
Returned p r = Unit

abbrev Later : {S : Type 0} → ℕ → ℕ → ProxyRequest S → PeerRequest → Type 0
Later total i p r =
    (p.total_length ≡ total)
    × (p.merkle_tree_finished ≡ true)
    × (r.range.chunk_index ≡ i + 1)
    × (i + 1 < num_chunks total)

module _ (hash : Generichash) (env : Surroundings) where
  open hash use {State}
  open env use {write_to_file}

  -- What a round makes of a page whose tree is there, at one of its chunks.
  abbrev Proceeds : ProxyRequest State → PeerRequest → Round State PeerRequest → Type 0
  Proceeds p r = OnRound Returned ⊥ (Later p.total_length r.range.chunk_index)

  peer_play-Later :
      (p : ProxyRequest State) (r : PeerRequest) (input : List ℕ)
      → p.merkle_tree_finished ≡ true
      → r.range.chunk_index < num_chunks p.total_length
      → p.have_bitfield r.range.chunk_index ≡ true
      → Proceeds p r (peer_play hash env p r input)
  peer_play-Later p r input finished within held =
      on_weaker (Stopped (kept p)) Returned ⊥ ⊥ (Advanced (kept p) r.range.chunk_index)
        (Later p.total_length r.range.chunk_index) (peer_play hash env p r input) (λ p' r' h. tt)
        (λ a. a)
        (λ p' r' h. (
          ap (λ (c : Core State). c.total_length) h.0,
          ap (λ (c : Core State). c.merkle_tree_finished) h.0 ∙ finished,
          h.2,
          h.3,
        ))
        (peer_play-Advanced hash env ⊥ (kept p) p r input refl held
          (λ no. true_false (sym finished ∙ no)) (λ past. omega arith))
    where
      true_false : true ≡ false → ⊥
      true_false q = cc

  peer_store-Later :
      (p : ProxyRequest State) (r : PeerRequest) (input : List ℕ)
      → p.merkle_tree_finished ≡ true
      → r.range.chunk_index < num_chunks p.total_length
      → p.have_bitfield r.range.chunk_index ≡ true
      → Proceeds p r (peer_store hash env p r input)
  unfolding peer_store
  peer_store-Later p r input finished within held =
      let offset = this_chunk_offset p r.range in
      let written = record p { file = write_at offset r.range.chunk_buffer p.file } in
      if_intro (Proceeds p r) (length r.range.chunk_buffer == 0)
        (λ empty. peer_play-Later p r input finished within held)
        (λ some_bytes.
          if_intro (Proceeds p r) (write_to_file offset r.range.chunk_buffer)
            (λ done. peer_play-Later written r input finished within held)
            (λ failed.
              on_returns Returned ⊥ (Later p.total_length r.range.chunk_index) false p r input tt))

  peer_round-Later :
      (p : ProxyRequest State) (r : PeerRequest) (input : List ℕ)
      → p.merkle_tree_finished ≡ true
      → r.range.chunk_index < num_chunks p.total_length
      → Proceeds p r (peer_round hash env p r input)
  unfolding peer_round peer_chunk
  peer_round-Later p r input finished within =
      let i = r.range.chunk_index in
      let r1 = record r { range = fill p r.range input } in
      let rest = drop (wanted p r.range) input in
      let got = send peer_verified (record p { have_bitfield = set_bit p.have_bitfield i }) in
      let bit : (i == i) ≡ true = ==_refl i in
      if_intro (Proceeds p r)
        (ltb (header_prefix p r.range + length r1.range.chunk_buffer) (this_chunk_len p r.range))
        (λ short. on_returns Returned ⊥ (Later p.total_length i) true p r1 rest tt)
        (λ full.
          if_intro (Proceeds p r)
            (bytes_eq (content_hash hash p.header_buf i r1.range.chunk_buffer) (p.m.nodes i))
            (λ good. peer_store-Later got r1 rest finished within (rw bit refl))
            (λ bad. on_returns Returned ⊥ (Later p.total_length i) false p r1 rest tt))

  abbrev ReturnsSome : Round State PeerRequest → Type 0
  ReturnsSome x =
      (b : Bool) × (p : ProxyRequest State) × (r : PeerRequest) × (rest : List ℕ) × (x
        ≡ returns b p r rest)

  next_round-ReturnsSome :
      (total i fuel : ℕ) (x : Round State PeerRequest)
      → ((p : ProxyRequest State) (r : PeerRequest) (rest : List ℕ)
          → Later total i p r
          → ReturnsSome (peer_request_process_chunks hash env fuel p r rest))
      → OnRound Returned ⊥ (Later total i) x
      → ReturnsSome (next_round x (peer_request_process_chunks hash env fuel))
  unfolding OnRound
  next_round-ReturnsSome total i fuel (returns b p r input) again h = (b, p, r, input, refl)
  next_round-ReturnsSome total i fuel aborts again h = absurd h
  next_round-ReturnsSome total i fuel (goes p r input) again h = again p r input h

  -- At a chunk of a page whose tree is there, the loop returns after at most one round for each
  -- chunk of the page that is not before it, and no assertion fails.
  pub peer_request_process_chunks-returns :
      (fuel : ℕ) (p : ProxyRequest State) (r : PeerRequest) (input : List ℕ)
      → p.merkle_tree_finished ≡ true
      → r.range.chunk_index < num_chunks p.total_length
      → num_chunks p.total_length ≤ r.range.chunk_index + fuel
      → (b : Bool) × (p' : ProxyRequest State) × (r' : PeerRequest) × (rest : List ℕ)
        × (peer_request_process_chunks hash env fuel p r input ≡ returns b p' r' rest)
  unfolding peer_request_process_chunks
  peer_request_process_chunks-returns zero p r input finished within enough = absurd (omega arith)
  peer_request_process_chunks-returns (suc fuel) p r input finished within enough =
      next_round-ReturnsSome p.total_length r.range.chunk_index fuel (peer_round hash env p r input)
        (λ p' r' rest h.
          let (total, tree, at, more) = h in
          peer_request_process_chunks-returns fuel p' r' rest tree (rw total (omega arith))
            (rw total (omega arith)))
        (peer_round-Later p r input finished within)
