-- ===== src/Transfer/Direct.antt =====
-- client.c: direct_request_process_chunks, whose chunks become the leaves of the tree.
use newnode.Prelude.{
  ℕ, zero, suc, ◌+◌, Bool, true, false, not, ◌&&◌, Option, none, some, List, [], ◌++◌, ltb, leb,
  ◌==◌, if◌then◌else◌, length, drop,
}
use newnode.Base64.{codes, base64_urlsafe_encode}
use newnode.Crypto.{Generichash}
use newnode.Merkle.{MerkleTree, Hash, set_leaf, get_root}
use newnode.Chunks.{num_chunks}
use newnode.Transfer.{
  ChunkedRange, DirectRequest, ProxyRequest, submit_request, direct_submit_request, Round, returns,
  aborts, goes, set_bit, write_at, direct_request_cancel, send, proxy_direct_requests_cancel,
  proxy_request_reply_start, this_chunk_len, header_prefix, wanted, fill, this_chunk_offset,
  next_round, play, send_held, end_reply, join, content_hash,
}
use newnode.Transfer.Peer.{Surroundings}

module _ (hash : Generichash) (env : Surroundings) (malloc : ℕ → Bool) where
  open hash use {State}
  open env use {response_code, host, write_to_file, segment}

  -- The request for the cache, with the root as its If-None-Match. `aborts` stands for a failed assertion
  -- of the tree and for the text of a NULL pointer.
  abbrev pub with_etag :
      ProxyRequest State → DirectRequest → List ℕ → Option (List ℕ) → Round State DirectRequest
  with_etag p d input none = aborts
  with_etag p d input (some b64_hash) =
      returns true (send (submit_request (codes "\"" ++ (b64_hash ++ codes "\""))) p) d input

  abbrev pub with_root :
      ProxyRequest State
      → DirectRequest
      → List ℕ
      → Option (Hash × MerkleTree State)
      → Round State DirectRequest
  with_root p d input none = aborts
  with_root p d input (some (root, m)) =
      with_etag (record p { root_hash = root; m = m }) d input (base64_urlsafe_encode malloc root)

  -- The playhead has reached the end.
  unfoldable pub direct_complete :
      ProxyRequest State → DirectRequest → List ℕ → Round State DirectRequest
  direct_complete p d input =
      let p1 = if p.server_req then proxy_direct_requests_cancel (end_reply p) else p in
      let d1 = if p.server_req then direct_request_cancel d else d in
      with_root (join host p1) d1 input (get_root hash p1.m)

  unfoldable pub direct_end :
      ProxyRequest State → DirectRequest → List ℕ → Round State DirectRequest
  direct_end p d input =
      if not p.chunked && (p.byte_playhead == p.total_length)
      then direct_complete p d input
      else if p.chunked
      then goes (record p { total_length = p.byte_playhead }) d input
      else if leb d.range.chunk_index (num_chunks p.total_length)
      then if leb (num_chunks p.total_length) d.range.chunk_index
        then returns true p d input
        else if p.have_bitfield d.range.chunk_index
        then returns false p d input
        else goes p d input
      else aborts

  abbrev pub direct_flushed :
      ProxyRequest State
      → DirectRequest
      → List ℕ
      → Option (ProxyRequest State)
      → Round State DirectRequest
  direct_flushed p d input none = returns false p d input
  direct_flushed p d input (some p') = direct_end p' d input

  -- From the end of a chunk on.
  unfoldable pub direct_next :
      ProxyRequest State → DirectRequest → List ℕ → Round State DirectRequest
  direct_next p d input =
      let next = d.range.chunk_index + 1 in
      let d1 = record d { range = record (d.range) { chunk_buffer = []; chunk_index = next } } in
      direct_flushed p d1 input (send_held segment p)

  unfoldable pub direct_play :
      ProxyRequest State → DirectRequest → List ℕ → Round State DirectRequest
  direct_play p d input =
      direct_next (play (proxy_request_reply_start response_code p) p d.range) d input

  unfoldable pub direct_store :
      ProxyRequest State → DirectRequest → List ℕ → Round State DirectRequest
  direct_store p d input =
      let offset = this_chunk_offset p d.range in
      let written = record p { file = write_at offset d.range.chunk_buffer p.file } in
      if length d.range.chunk_buffer == 0
      then direct_play p d input
      else if write_to_file offset d.range.chunk_buffer
      then direct_play written d input
      else returns false p d input

  -- The tree that holds the leaf of the chunk, or none, where the array is too large.
  abbrev pub with_leaf :
      ProxyRequest State
      → DirectRequest
      → List ℕ
      → Option (MerkleTree State)
      → Round State DirectRequest
  with_leaf p d input none = aborts
  with_leaf p d input (some m) =
      direct_store (record p { have_bitfield = set_bit p.have_bitfield d.range.chunk_index; m = m })
        d input

  -- A chunk that is there in full.
  unfoldable pub direct_chunk :
      ProxyRequest State → DirectRequest → List ℕ → Round State DirectRequest
  direct_chunk p d input =
      let i = d.range.chunk_index in
      let leaf = content_hash hash p.header_buf i d.range.chunk_buffer in
      if p.have_bitfield i
      then direct_next p d input
      else with_leaf p d input (set_leaf hash p.m i leaf)

  unfoldable pub direct_round :
      ProxyRequest State → DirectRequest → List ℕ → Round State DirectRequest
  direct_round p d input =
      let d1 = record d { range = fill p d.range input } in
      let rest = drop (wanted p d.range) input in
      if ltb (header_prefix p d.range + length d1.range.chunk_buffer) (this_chunk_len p d.range)
      then returns true p d1 rest
      else direct_chunk p d1 rest

  -- The loop of direct_request_process_chunks, on fuel.
  unfoldable pub direct_request_process_chunks :
      ℕ → ProxyRequest State → DirectRequest → List ℕ → Round State DirectRequest
  direct_request_process_chunks zero p d input = goes p d input
  direct_request_process_chunks (suc fuel) p d input =
      next_round (direct_round p d input) (direct_request_process_chunks fuel)

  -- A loop that returns false cancels the request for another.
  unfoldable pub direct_chunked_cb :
      ℕ → ProxyRequest State → DirectRequest → List ℕ → Round State DirectRequest
  direct_chunked_cb fuel p d input = elim (direct_request_process_chunks fuel p d input) [
    | returns true p' d' rest ↦ returns true p' d' rest
    | returns false p' d' rest ↦
        returns false (send direct_submit_request p') (direct_request_cancel d') rest
    | aborts ↦ aborts
    | goes p' d' rest ↦ goes p' d' rest
  ]

  -- What direct_request_done_cb does with the length of a chunked answer.
  unfoldable pub end_chunked : ProxyRequest State → ChunkedRange → ProxyRequest State
  end_chunked p r =
      let front = if r.chunk_index == 0 then length p.header_buf else p.byte_playhead in
      if p.chunked
      then record p { total_length = front + length r.chunk_buffer; chunked = false }
      else p
