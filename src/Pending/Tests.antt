-- ===== src/Pending/Tests.antt =====
-- client.c: a pool with a connection that is being made, and one request that waits.
use newnode.Prelude.{
  ℕ, ◌≡◌, refl, Bool, false, none, some, [], ◌∷◌, arith, ◌==◌, replicate, if◌then◌else◌,
}
use newnode.Base64.{codes}
use newnode.Peers.{Peer}
use newnode.Pending.{Connection, PendingRequest, Pool, abort_connect}
use newnode.Pending.Counts.{Sound, occurs, abort_connect-Sound}

abbrev some_peer : Peer
some_peer = record {
  pointer = 4096;
  addr = 127 ∷ [];
  port = 80;
  last_verified = 90;
  last_connect = 0;
  last_connect_attempt = 50;
  via = b'a';
  loop = 0;
}

abbrev connecting : Connection
connecting = record { pointer = 1; peer = 4096; ready = false }

abbrev waiting : PendingRequest
waiting = record { request = 7; via = some (codes "1.1 b.newnode") }

abbrev another : PendingRequest
another = record { request = 8; via = none }

abbrev one_waits : Pool
one_waits = record {
  peer_connections = some connecting ∷ replicate 19 none;
  pending_requests = waiting ∷ [];
  pending_requests_len = 1;
  on_connect = λ r. r == 7;
  peer_at = λ p. some_peer;
  all_peers = 4096 ∷ [];
  injectors = [];
  injector_proxies = [];
  next_pointer = 2;
  events = [];
}

one_waits-Sound : Sound one_waits
one_waits-Sound = record { size = refl; count = refl; once = λ r. ground arith }

abbrev passes : Peer → Bool
passes p = false

abort_connect-Sound_example :
    Sound (abort_connect 7 one_waits)
    × ((q : ℕ)
        → occurs q (abort_connect 7 one_waits).pending_requests
          ≡ (if q == 7 then 0 else occurs q one_waits.pending_requests))
abort_connect-Sound_example = abort_connect-Sound 7 one_waits one_waits-Sound
