-- ===== src/Transfer.antt =====
-- client.c: what a proxy_request keeps of the page that it fetches in chunks, and the parts that the two
-- loops over the chunks share, the one on what a peer sends and the one on what the origin sends.
pub mod Peer
pub mod Direct
pub mod Errors
pub mod Kept
pub mod Rounds
pub mod Memory
pub mod Held
pub mod Sizes
pub mod Checked
pub mod Ends
pub mod Overrun
pub mod Origin
pub mod Recorded
pub mod Gate
pub mod Trust
pub mod Setup
mod Tests
use newnode.Prelude.{
  ℕ, zero, suc, ◌+◌, ◌-◌, ◌*◌, ◌/◌, ◌%◌, Bool, true, false, not, ◌&&◌, ◌||◌, Option, none, some,
  List, [], ◌∷◌, ◌++◌, ltb, leb, ◌==◌, if◌then◌else◌, length, take, drop,
}
use mathlib.Core.List.{map}
use newnode.Base64.{size_mod}
use newnode.Crypto.{Generichash, hash_bytes}
use newnode.Merkle.{MerkleTree, Hash, leaf_chunk_size}
use newnode.Chunks.{Progress, num_chunks, chunk_length}

-- `chunk_buffer` is empty where the pointer is NULL.
pub record ChunkedRange : Type 0 where
  pub start : ℕ
  pub end : ℕ
  pub chunk_index : ℕ
  pub chunk_buffer : List ℕ

-- `req` and `pc` say whether the pointer is set, `on_connect` whether it waits for a connection, and
-- `chunked_cb` whether libevent still calls peer_request_chunked_cb.
pub record PeerRequest : Type 0 where
  pub req : Bool
  pub pc : Bool
  pub on_connect : Bool
  pub chunked_cb : Bool
  pub range : ChunkedRange

pub record DirectRequest : Type 0 where
  pub req : Bool
  pub evcon : Bool
  pub range : ChunkedRange

-- What is called outside: evhttp's replies, in order, the swarm, the cache, the peer and the next request.
pub data Event : Type 0 where
  copy_response_headers closecb_cleared reply_end peer_verified proxy_save_cache : Event
  peer_reuse return_connection direct_submit_request freed : Event
  reply_start : ℕ → Option (ℕ × ℕ × ℕ) → Event
  reply_chunk join_url_swarm submit_request : List ℕ → Event
  send_error : ℕ → Event
  direct_header : List ℕ → List ℕ → Event

-- `server_req` says whether the pointer is set, `evcon` and `responded` what its fields evcon and
-- response_code are, `range` whether its header Range is there. `have_bitfield` and `file` are the
-- array and the contents of the cache file by index; what `realloc` adds is whatever it holds.
-- `peers` and `directs` are the slots, less the one that a loop works on.
pub record ProxyRequest (S : Type 0) : Type 0 where
  pub server_req : Bool
  pub evcon : Bool
  pub responded : Bool
  pub range : Bool
  pub range_start : ℕ
  pub range_end : ℕ
  pub content_length : ℕ
  pub total_length : ℕ
  pub byte_playhead : ℕ
  pub header_buf : List ℕ
  pub have_bitfield : ℕ → Bool
  pub m : MerkleTree S
  pub root_hash : Hash
  pub file : ℕ → ℕ
  pub chunked : Bool
  pub merkle_tree_finished : Bool
  pub dont_free : Bool
  pub peers : List PeerRequest
  pub directs : List DirectRequest
  pub events : List Event

-- A round of a loop returns, fails an assertion, or goes on.
pub data Round (S Q : Type 0) : Type 0 where
  returns : Bool → ProxyRequest S → Q → List ℕ → Round S Q
  aborts : Round S Q
  goes : ProxyRequest S → Q → List ℕ → Round S Q

abbrev pub next_round :
    {S Q : Type 0} → Round S Q → (ProxyRequest S → Q → List ℕ → Round S Q) → Round S Q
next_round (returns b p r input) again = returns b p r input
next_round aborts again = aborts
next_round (goes p r input) again = again p r input

-- The difference of two uint64_t.
abbrev pub minus : ℕ → ℕ → ℕ
minus a b = (a + size_mod - b) % size_mod

-- LEAF_CHUNK_SIZE times an index.
abbrev pub chunk_begin : ℕ → ℕ
chunk_begin i = (i * leaf_chunk_size) % size_mod

abbrev pub set_bit : (ℕ → Bool) → ℕ → ℕ → Bool
set_bit have i j = if i == j then true else have j

-- The bytes of a file after a write, and those that a read gives.
abbrev pub write_at : ℕ → List ℕ → (ℕ → ℕ) → ℕ → ℕ
write_at offset [] file = file
write_at offset (b ∷ bs) file =
    let rest = write_at (offset + 1) bs file in λ i. if i == offset then b else rest i

abbrev pub read_at : ℕ → ℕ → (ℕ → ℕ) → List ℕ
read_at zero offset file = []
read_at (suc n) offset file = file offset ∷ read_at n (offset + 1) file

-- peer_request_cancel, and the same on each slot.
unfoldable pub peer_request_cancel : PeerRequest → PeerRequest
peer_request_cancel r = record r {
  req = false;
  pc = false;
  on_connect = if r.pc then r.on_connect else false;
  range = record (r.range) { chunk_buffer = [] };
}

unfoldable pub direct_request_cancel : DirectRequest → DirectRequest
direct_request_cancel d = record d { req = false }

module _ {S : Type 0} where
  abbrev pub send : Event → ProxyRequest S → ProxyRequest S
  send e p = record p { events = p.events ++ e ∷ [] }

  unfoldable pub proxy_direct_requests_cancel : ProxyRequest S → ProxyRequest S
  proxy_direct_requests_cancel p = record p { directs = map direct_request_cancel p.directs }

  unfoldable pub proxy_peer_requests_cancel : ProxyRequest S → ProxyRequest S
  proxy_peer_requests_cancel p = record p { peers = map peer_request_cancel p.peers }

  -- proxy_request_reply_start, where the playhead is 0.
  unfoldable pub proxy_request_reply_start : ℕ → ProxyRequest S → ProxyRequest S
  proxy_request_reply_start response_code p =
      let code =
        if p.range then response_code else if response_code == 206 then 200 else response_code in
      let content_range =
        if p.range then some (p.range_start, p.range_end, p.content_length) else none in
      if p.server_req
      then record p {
        byte_playhead = length p.header_buf;
        responded = true;
        events = p.events ++ (copy_response_headers ∷ reply_start code content_range ∷ []);
      }
      else p

  abbrev pub to_server : List ℕ → ProxyRequest S → ProxyRequest S
  to_server bytes p = if p.server_req then send (reply_chunk bytes) p else p

  -- The begin of a round: its chunk's length, what the header takes of it, and the bytes it moves.
  abbrev pub this_chunk_len : ProxyRequest S → ChunkedRange → ℕ
  this_chunk_len p r = chunk_length p.chunked p.total_length r.chunk_index

  abbrev pub header_prefix : ProxyRequest S → ChunkedRange → ℕ
  header_prefix p r = if r.chunk_index == 0 then length p.header_buf else 0

  abbrev pub wanted : ProxyRequest S → ChunkedRange → ℕ
  wanted p r = minus (minus (this_chunk_len p r) (header_prefix p r)) (length r.chunk_buffer)

  abbrev pub fill : ProxyRequest S → ChunkedRange → List ℕ → ChunkedRange
  fill p r input = record r { chunk_buffer = r.chunk_buffer ++ take (wanted p r) input }

  abbrev pub this_chunk_offset : ProxyRequest S → ChunkedRange → ℕ
  this_chunk_offset p r =
      if r.chunk_index == 0
      then chunk_begin r.chunk_index
      else minus (chunk_begin r.chunk_index) (length p.header_buf)

  -- A chunk at the playhead goes to the browser, behind the begin of the reply.
  unfoldable pub play : ProxyRequest S → ProxyRequest S → ChunkedRange → ProxyRequest S
  play started p r =
      let p1 = to_server r.chunk_buffer (if p.byte_playhead == 0 then started else p) in
      if p.byte_playhead == chunk_begin r.chunk_index
      then record p1 {
        byte_playhead =
            (p1.byte_playhead + minus (this_chunk_len p r) (header_prefix p r)) % size_mod;
      }
      else p

  -- `while (c < p->total_length && p->have_bitfield[c / LEAF_CHUNK_SIZE])`, on fuel.
  unfoldable pub held_until : ℕ → ProxyRequest S → ℕ → ℕ
  held_until zero p c = c
  held_until (suc fuel) p c =
      let rest = held_until fuel p ((c + leaf_chunk_size) % size_mod) in
      if ltb c p.total_length then if p.have_bitfield (c / leaf_chunk_size) then rest else c else c

  -- The chunks behind the playhead that are held go to the browser from the file. `none` is a file
  -- segment that cannot be made.
  abbrev pub send_segment : ProxyRequest S → ℕ → Option (List ℕ) → Option (ProxyRequest S)
  send_segment p c none = none
  send_segment p c (some bytes) = some (record (to_server bytes p) {
    byte_playhead = (p.byte_playhead + minus c p.byte_playhead) % size_mod;
  })

  unfoldable pub send_held :
      ((ℕ → ℕ) → ℕ → ℕ → Option (List ℕ)) → ProxyRequest S → Option (ProxyRequest S)
  send_held segment p =
      let c = held_until (p.total_length / leaf_chunk_size + 1) p p.byte_playhead in
      let offset = minus p.byte_playhead (length p.header_buf) in
      if ltb p.byte_playhead c
      then send_segment p c (segment p.file offset (minus c p.byte_playhead))
      else some p

  -- The end of the reply, and the swarm of the page's host.
  abbrev pub end_reply : ProxyRequest S → ProxyRequest S
  end_reply p =
      let p1 = if p.evcon then send closecb_cleared p else p in
      record (send reply_end p1) { server_req = false }

  abbrev pub join : Option (List ℕ) → ProxyRequest S → ProxyRequest S
  join none p = p
  join (some host) p = send (join_url_swarm host) p

  abbrev pub progress : ProxyRequest S → Progress
  progress p = record {
    range_start = p.range_start;
    total_length = p.total_length;
    header_len = length p.header_buf;
    chunked = p.chunked;
    merkle_tree_finished = p.merkle_tree_finished;
    have_bitfield = some p.have_bitfield;
  }

-- The hash of a chunk, to which the first one adds the header.
module _ (hash : Generichash) where
  open hash use {init, update, final}

  unfoldable pub content_hash : List ℕ → ℕ → List ℕ → Hash
  content_hash header i buffer =
      let s = init [] hash_bytes in
      final (update (if i == 0 then update s header else s) buffer) hash_bytes
