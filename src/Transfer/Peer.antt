-- ===== src/Transfer/Peer.antt =====
-- client.c: peer_request_process_chunks, whose every chunk is checked against its leaf of the tree.
use newnode.Prelude.{
  ℕ, zero, suc, ◌+◌, ◌%◌, Bool, true, false, ◌&&◌, Option, none, some, List, [], ltb, leb, ◌==◌,
  if◌then◌else◌, length, drop, bytes_eq,
}
use mathlib.Core.List.{map}
use newnode.Base64.{size_mod}
use newnode.Crypto.{Generichash}
use newnode.Chunks.{num_chunks, proxy_is_complete}
use newnode.Transfer.{
  PeerRequest, ProxyRequest, peer_verified, proxy_save_cache, Round, returns, aborts, goes,
  chunk_begin, set_bit, write_at, peer_request_cancel, send, proxy_direct_requests_cancel,
  proxy_request_reply_start, this_chunk_len, header_prefix, wanted, fill, this_chunk_offset,
  next_round, play, send_held, end_reply, join, progress, content_hash,
}

-- The grace period at the end of a reply: a request that is almost done is not cancelled.
unfoldable pub release : PeerRequest → PeerRequest
release r =
    if r.req && ltb r.range.end ((chunk_begin r.range.chunk_index + 1024) % size_mod)
    then record r { chunked_cb = false }
    else peer_request_cancel r

-- What a request and its surroundings give: the response code, the host of its URI, whether a write to
-- the cache file succeeds, and a segment of it.
pub record Surroundings : Type 0 where
  pub response_code : ℕ
  pub host : Option (List ℕ)
  pub write_to_file : ℕ → List ℕ → Bool
  pub segment : (ℕ → ℕ) → ℕ → ℕ → Option (List ℕ)

module _ (hash : Generichash) (env : Surroundings) where
  open hash use {State}
  open env use {response_code, host, write_to_file, segment}

  -- The playhead has reached the end.
  unfoldable pub peer_complete : ProxyRequest State → PeerRequest → List ℕ → Round State PeerRequest
  peer_complete p r input =
      let p1 = if p.server_req then record (end_reply p) { peers = map release p.peers } else p in
      let r1 = if p.server_req then release r else r in
      let p2 = join host p1 in
      if p2.merkle_tree_finished
      then returns true (if proxy_is_complete (progress p2) then send proxy_save_cache p2 else p2)
          r1 input
      else aborts

  unfoldable pub peer_end : ProxyRequest State → PeerRequest → List ℕ → Round State PeerRequest
  peer_end p r input =
      if p.byte_playhead == p.total_length
      then peer_complete p r input
      else if leb r.range.chunk_index (num_chunks p.total_length)
      then if leb (num_chunks p.total_length) r.range.chunk_index
        then returns true p r input
        else if p.have_bitfield r.range.chunk_index
        then returns false p r input
        else goes p r input
      else aborts

  abbrev pub peer_flushed :
      ProxyRequest State
      → PeerRequest
      → List ℕ
      → Option (ProxyRequest State)
      → Round State PeerRequest
  peer_flushed p r input none = returns false p r input
  peer_flushed p r input (some p') = peer_end p' r input

  -- From the end of a chunk on.
  unfoldable pub peer_next : ProxyRequest State → PeerRequest → List ℕ → Round State PeerRequest
  peer_next p r input =
      let i = r.range.chunk_index in
      let next = if leb (chunk_begin i) r.range.end then i + 1 else i in
      let r1 = record r { range = record (r.range) { chunk_buffer = []; chunk_index = next } } in
      peer_flushed p r1 input (send_held segment p)

  unfoldable pub peer_play : ProxyRequest State → PeerRequest → List ℕ → Round State PeerRequest
  peer_play p r input =
      let started = proxy_request_reply_start response_code (proxy_direct_requests_cancel p) in
      peer_next (play started p r.range) r input

  -- A chunk whose hash is right.
  unfoldable pub peer_store : ProxyRequest State → PeerRequest → List ℕ → Round State PeerRequest
  peer_store p r input =
      let offset = this_chunk_offset p r.range in
      let written = record p { file = write_at offset r.range.chunk_buffer p.file } in
      if length r.range.chunk_buffer == 0
      then peer_play p r input
      else if write_to_file offset r.range.chunk_buffer
      then peer_play written r input
      else returns false p r input

  unfoldable pub peer_chunk : ProxyRequest State → PeerRequest → List ℕ → Round State PeerRequest
  peer_chunk p r input =
      let i = r.range.chunk_index in
      if bytes_eq (content_hash hash p.header_buf i r.range.chunk_buffer) (p.m.nodes i)
      then peer_store (send peer_verified (record p { have_bitfield = set_bit p.have_bitfield i }))
          r input
      else returns false p r input

  unfoldable pub peer_round : ProxyRequest State → PeerRequest → List ℕ → Round State PeerRequest
  peer_round p r input =
      let r1 = record r { range = fill p r.range input } in
      let rest = drop (wanted p r.range) input in
      if ltb (header_prefix p r.range + length r1.range.chunk_buffer) (this_chunk_len p r.range)
      then returns true p r1 rest
      else peer_chunk p r1 rest

  -- The loop of peer_request_process_chunks, on fuel.
  unfoldable pub peer_request_process_chunks :
      ℕ → ProxyRequest State → PeerRequest → List ℕ → Round State PeerRequest
  peer_request_process_chunks zero p r input = goes p r input
  peer_request_process_chunks (suc fuel) p r input =
      next_round (peer_round p r input) (peer_request_process_chunks fuel)

  -- A loop that returns false cancels the request.
  unfoldable pub peer_request_chunked_cb :
      ℕ → ProxyRequest State → PeerRequest → List ℕ → Round State PeerRequest
  peer_request_chunked_cb fuel p r input = elim (peer_request_process_chunks fuel p r input) [
    | returns true p' r' rest ↦ returns true p' r' rest
    | returns false p' r' rest ↦ returns false p' (peer_request_cancel r') rest
    | aborts ↦ aborts
    | goes p' r' rest ↦ goes p' r' rest
  ]
