-- ===== src/Tunnel/Calls.antt =====
-- client.c: the callbacks of an HTTP CONNECT, when each of them may come, and what they keep.
use mathlib.Core.List.{Memᴰ}
use newnode.Prelude.{
  ℕ, suc, ◌+◌, ◌≤◌, ◌≡◌, ◌≢◌, Bool, true, false, ◌||◌, Option, none, some, List, [], ◌∷◌, ◌++◌, ◌⊎◌,
  length,
}
use newnode.Splice.{Bufferevent}
use newnode.Tunnel.{
  ConnectReq, tried_freed, no_bevs, connect_server_read_cb, connect_server_event_cb,
  connect_evcon_close_cb, bev_at, connect_other_read_cb, connect_other_event_cb,
}
use newnode.Tunnel.Answers.{
  HttpError, request_cancel, Outcome, peer_connected, connect_done_cb, connect_header_cb,
  connect_error_cb, connect_direct_event_cb,
}

-- `arrives` and `other_reads` have the bytes that have come.
pub data Callback : Type 0 where
  peer_ready closes server_ends : Callback
  header : ℕ → Option Bool → Bufferevent → Callback
  done : Bool → Callback
  error : HttpError → Callback
  direct_event : Outcome → Bufferevent → Callback
  server_reads : List ℕ → Callback
  tried_answers tried_ends : ℕ → Callback

-- Bytes of the browser arrive.
abbrev pub server_received : List ℕ → ConnectReq → ConnectReq
server_received bytes c = record c {
  server = record (c.server) {
    input = c.server.input ++ bytes;
    received = c.server.received ++ bytes;
  };
}

unfoldable pub call : Callback → ConnectReq → Option ConnectReq
call peer_ready c = peer_connected (record c { on_connect = false })
call closes c = connect_evcon_close_cb c
call server_ends c = connect_server_event_cb c
call (header code msign other) c = connect_header_cb code msign other c
call (done ready) c = connect_done_cb ready c
call (error e) c = connect_error_cb e c
call (direct_event o other) c = connect_direct_event_cb o other c
call (server_reads bytes) c = some (connect_server_read_cb (server_received bytes c))
call (tried_answers i) c = connect_other_read_cb i c
call (tried_ends i) c = connect_other_event_cb i c

-- When libevent and the pool make a call: a callback is registered on what it is about. A request that
-- connect_proxy_cancel cancels is not among them.
unfoldable pub Due : Callback → ConnectReq → Type 0
Due peer_ready c = c.on_connect ≡ true
Due closes c = c.server_req ≡ true
Due server_ends c = c.pending_bev ≡ true
Due (header code msign other) c = (c.proxy_req ≡ true) × (c.pc ≡ true)
Due (done ready) c = (c.requested ≡ true) × (c.pc ≡ true)
Due (error e) c = (c.requested ≡ true) × (e ≢ request_cancel)
Due (direct_event o other) c = c.direct ≡ true
Due (server_reads bytes) c = c.pending_bev ≡ true
Due (tried_answers i) c = bev_at c.bevs i ≢ none
Due (tried_ends i) c = bev_at c.bevs i ≢ none

abbrev pub count : List (Option Bufferevent) → ℕ
count [] = 0
count (none ∷ bs) = count bs
count (some b ∷ bs) = suc (count bs)

abbrev pub one_if : Bool → ℕ
one_if true = 1
one_if false = 0

-- What is at work for a browser.
abbrev pub at_work : ConnectReq → Bool
at_work c = c.direct || (c.proxy_req || c.on_connect)

-- A connection is tried for the browser, or one that was tried has ended.
abbrev pub Tried : ConnectReq → Type 0
Tried c = (no_bevs c.bevs ≡ false) ⊎ Memᴰ tried_freed c.events

-- Where the browser's connection is: it waits with something at work for it, it is taken over while
-- connections are tried or after one of these has ended, or it is answered and nothing is at work.
pub data Place (c : ConnectReq) : Type 0 where
  waits :
      c.server_req ≡ true
      → c.pending_bev ≡ false
      → no_bevs c.bevs ≡ true
      → at_work c ≡ true
      → Place c
  taken : c.server_req ≡ false → c.pending_bev ≡ true → Tried c → Place c
  answered :
      c.server_req ≡ false
      → c.pending_bev ≡ false
      → no_bevs c.bevs ≡ true
      → at_work c ≡ false
      → Place c

-- The invariant between callbacks: besides the place of the browser's connection, one request at most is
-- made or waits to be made to a peer, libevent has the one that is made, and few slots are used.
pub record Sound (c : ConnectReq) : Type 0 where
  pub no_server_bev : c.server_bev ≡ false
  pub may_free : c.dont_free ≡ false
  pub place : Place c
  pub peers : c.on_connect ≡ true → (c.pc ≡ false) × (c.proxy_req ≡ false)
  pub asked : c.proxy_req ≡ true → c.requested ≡ true
  pub room : count c.bevs + one_if c.direct + one_if (c.on_connect || c.pc) ≤ 2
  pub slots : length c.bevs ≡ 10

-- No assertion fails, and the request is freed or the invariant holds.
unfoldable pub Fine : Option ConnectReq → Type 0
Fine none = ⊥
Fine (some c) = (c.freed ≡ true) ⊎ Sound c
