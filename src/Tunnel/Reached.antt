-- ===== src/Tunnel/Reached.antt =====
-- client.c: what is reached from connect_request by the callbacks of an HTTP CONNECT.
use newnode.Prelude.{
  ℕ, ◌≡◌, refl, Bool, true, false, Option, none, some, ◌==◌, inl, inr, if_intro, arith,
}
use newnode.Splice.{Bufferevent}
use newnode.Tunnel.{ConnectReq, no_bevs}
use newnode.Tunnel.Answers.{connect_request, connect_peer, new_request, peer_connected}
use newnode.Tunnel.Calls.{
  Callback, peer_ready, closes, server_ends, header, done, error, direct_event, server_reads,
  tried_answers, tried_ends, call, Due, waits, Sound, Fine,
}
use newnode.Tunnel.Keeps.{error_Fine}
use newnode.Tunnel.Refusals.{header_Fine}
use newnode.Tunnel.Ends.{direct_Fine, done_Fine, ready_Fine}
use newnode.Tunnel.Browser.{closes_Fine, ends_Fine, reads_Fine, event_Fine, joins_Fine}

-- A callback that is due keeps the invariant.
pub call-Fine : (cb : Callback) (c : ConnectReq) → Sound c → Due cb c → Fine (call cb c)
unfolding call Due Fine
call-Fine peer_ready c s due = ready_Fine c s due
call-Fine closes c s due = closes_Fine c s due
call-Fine server_ends c s due = ends_Fine c s due
call-Fine (header code msign other) c s due = header_Fine code msign other c s due.0 due.1
call-Fine (done ready) c s due = done_Fine ready c s due.1
call-Fine (error e) c s due = error_Fine e c due.1 s
call-Fine (direct_event o other) c s due = direct_Fine o other c s due
call-Fine (server_reads bytes) c s due = inr (reads_Fine bytes c s due)
call-Fine (tried_answers i) c s due = joins_Fine i c s due
call-Fine (tried_ends i) c s due = event_Fine i c s due

-- The states after any number of callbacks, each when it is due and before the request is freed.
pub data Reached (start : Option ConnectReq) : Option ConnectReq → Type 0 where
  first : Reached start start
  next :
      (c : ConnectReq) (cb : Callback)
      → Reached start (some c)
      → c.freed ≡ false
      → Due cb c
      → Reached start (call cb c)

pub live-Sound : (c : ConnectReq) → Fine (some c) → c.freed ≡ false → Sound c
unfolding Fine
live-Sound c (inl freed) live = cc
live-Sound c (inr s) live = s

pub Reached-Fine : (start o : Option ConnectReq) → Fine start → Reached start o → Fine o
Reached-Fine start _ f first = f
Reached-Fine start _ f (next c cb r live due) =
    call-Fine cb c (live-Sound c (Reached-Fine start (some c) f r) live) due

-- The request after the tests of connect_request.
abbrev pub started : Bool → Bool → Bufferevent → Option ConnectReq
started ready local server =
    connect_peer ready false (record (new_request server) {
      server_req = true;
      evcon = true;
      local = local;
      direct = true;
    })

pub started-Fine : (ready local : Bool) (server : Bufferevent) → Fine (started ready local server)
unfolding Fine connect_peer peer_connected no_bevs
started-Fine true local server = inr (record {
  no_server_bev = refl;
  may_free = refl;
  place = waits refl refl refl refl;
  peers = λ w. cc;
  asked = λ w. refl;
  room = omega arith;
  slots = refl;
})
started-Fine false local server = inr (record {
  no_server_bev = refl;
  may_free = refl;
  place = waits refl refl refl refl;
  peers = λ w. (refl, refl);
  asked = λ w. cc;
  room = omega arith;
  slots = refl;
})

pub starts :
    (ready local host : Bool) (port : Option ℕ) (server : Bufferevent) (start : Option ConnectReq)
    → connect_request ready local host port server ≡ inr start
    → start ≡ started ready local server
unfolding connect_request
starts ready local true none server start e = cc
starts ready local true (some p) server start e =
    if_intro (λ x. x ≡ inr start → start ≡ started ready local server) (p == 443) (λ _ h. cc)
      (λ _ h. cc) e
starts ready local false port server start e = cc
