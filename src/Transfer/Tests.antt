-- ===== src/Transfer/Tests.antt =====
-- client.c: the theorems on the loops over chunks, on a page of one chunk.
use newnode.Prelude.{
  ℕ, ◌<◌, ◌≡◌, refl, Bool, true, false, none, some, List, [], ◌∷◌, ◌++◌, replicate, arith,
}
use newnode.Crypto.FirstBytes.{first_bytes}
use newnode.Merkle.{leaf_chunk_size}
use newnode.Chunks.{num_chunks, chunk_length}
use newnode.Transfer.{
  PeerRequest, DirectRequest, ProxyRequest, returns, reply_chunk, minus, send_held, read_at,
}
use newnode.Transfer.Peer.{Surroundings, peer_request_process_chunks}
use newnode.Transfer.Kept.{OnRound}
use newnode.Transfer.Held.{Held}
use newnode.Transfer.Checked.{Sound, peer_request_process_chunks-Sound}
use newnode.Transfer.Direct.{direct_request_process_chunks}
use newnode.Transfer.Recorded.{Recorded, Outcome, direct_request_process_chunks-Outcome}
use newnode.Signature.Tests.{zero_keys, enough_memory, text, hash as signed_hash}
use newnode.Transfer.Gate.{Answer, peer_request_header_cb}
use newnode.Transfer.Trust.{Trusted, peer_request_header_cb-Trusted}
use newnode.Transfer.Overrun.{send_held-overrun}
use newnode.Transfer.Ends.{peer_request_process_chunks-returns}

-- A page of three bytes behind a header of two, whose tree has the hash of all five.
abbrev page : ProxyRequest (List ℕ)
page = record {
  server_req = true;
  evcon = true;
  responded = false;
  range = false;
  range_start = 0;
  range_end = 2;
  content_length = 3;
  total_length = 5;
  byte_playhead = 0;
  header_buf = 1 ∷ 2 ∷ [];
  have_bitfield = λ i. false;
  m = record {
    leaf_state = [];
    leaf_progress = 0;
    leaves_num = 1;
    nodes_alloc = 1;
    nodes = λ i. (1 ∷ 2 ∷ 3 ∷ 4 ∷ 5 ∷ []) ++ replicate 27 0;
  };
  root_hash = replicate 32 0;
  file = λ i. 0;
  chunked = false;
  merkle_tree_finished = true;
  dont_free = false;
  peers = [];
  directs = [];
  events = [];
}

abbrev asking : PeerRequest
asking = record {
  req = true;
  pc = true;
  on_connect = false;
  chunked_cb = true;
  range = record { start = 0; end = 2; chunk_index = 0; chunk_buffer = [] };
}

abbrev around : Surroundings
around = record {
  response_code = 200;
  host = none;
  write_to_file = λ offset bytes. true;
  segment = λ file offset n. some (read_at n offset file);
}

page-Sound : Sound first_bytes page asking
unfolding Held chunk_length
page-Sound = record {
  held = λ j max here. cc;
  sized = record { header_fits = omega arith; below = omega arith };
  buffered = omega arith;
}

peer_request_process_chunks-Sound_example :
    OnRound
      (Sound first_bytes)
      Unit
      (Sound first_bytes)
      (peer_request_process_chunks first_bytes around 1 page asking (3 ∷ 4 ∷ 5 ∷ []))
unfolding leaf_chunk_size
peer_request_process_chunks-Sound_example =
    peer_request_process_chunks-Sound first_bytes around (λ offset bytes. refl) 1 page asking
      (3 ∷ 4 ∷ 5 ∷ []) page-Sound (omega arith)

peer_request_process_chunks-returns_example :
    (b : Bool) × (p' : ProxyRequest (List ℕ)) × (r' : PeerRequest) × (rest : List ℕ)
    × (peer_request_process_chunks first_bytes around 1 page asking (3 ∷ 4 ∷ 5 ∷ [])
        ≡ returns b p' r' rest)
unfolding num_chunks
peer_request_process_chunks-returns_example =
    peer_request_process_chunks-returns first_bytes around 1 page asking (3 ∷ 4 ∷ 5 ∷ []) refl
      (omega arith) (omega arith)

-- The playhead behind nothing, the page of one chunk held.
abbrev all_held : ProxyRequest (List ℕ)
all_held = record page { header_buf = []; have_bitfield = λ i. true }

send_held-overrun_example :
    (p' : ProxyRequest (List ℕ)) × (send_held
        (λ file offset n. some (read_at n offset file))
        all_held
      ≡ some p')
    × (p'.total_length < p'.byte_playhead)
    × (p'.events
        ≡ all_held.events
          ++ reply_chunk (read_at (minus p'.byte_playhead 0) (minus 0 0) all_held.file) ∷ [])
unfolding leaf_chunk_size
send_held-overrun_example =
    send_held-overrun (λ file offset n. read_at n offset file) all_held refl (omega arith)
      (omega arith) (omega arith) (λ i lo hi. refl) refl

abbrev fetching : DirectRequest
fetching = record {
  req = true;
  evcon = true;
  range = record { start = 0; end = 2; chunk_index = 0; chunk_buffer = [] };
}

page-Recorded : Recorded first_bytes page fetching
unfolding Held chunk_length
page-Recorded = record {
  held = λ j max here. cc;
  sized = record { header_fits = omega arith; below = omega arith };
  known = refl;
  unfinished = refl;
  buffered = omega arith;
}

direct_request_process_chunks-Outcome_example :
    OnRound (Outcome first_bytes) Unit (Recorded first_bytes) (
      direct_request_process_chunks first_bytes around (λ n. true) 1 page fetching (3 ∷ 4 ∷ 5 ∷ []))
unfolding leaf_chunk_size
direct_request_process_chunks-Outcome_example =
    direct_request_process_chunks-Outcome first_bytes around (λ n. true) (λ offset bytes. refl) 1
      page fetching (3 ∷ 4 ∷ 5 ∷ []) page-Recorded (omega arith)

-- An answer of a peer to a page whose root is signed.
abbrev signed_page : ProxyRequest (List ℕ)
signed_page = record page { root_hash = signed_hash }

abbrev signed_answer : Answer
signed_answer = record {
  response_code = 200;
  content_location = some (1 ∷ []);
  msign = some text;
  xhashes = none;
}

peer_request_header_cb-Trusted_example :
    Trusted first_bytes zero_keys enough_memory []
      (λ i. [])
      signed_page
      (some text)
      (peer_request_header_cb first_bytes zero_keys enough_memory []
        (λ i. [])
        signed_page
        asking
        (1 ∷ [])
        signed_answer)
peer_request_header_cb-Trusted_example =
    peer_request_header_cb-Trusted first_bytes zero_keys enough_memory [] (λ i. []) signed_page
      asking (1 ∷ []) signed_answer
