-- ===== src/Tunnel/Flows.antt =====
-- client.c: the connection that a CONNECT is joined to gets what the browser has sent.
use mathlib.Core.Path.{subst}
use newnode.Prelude.{
  ℕ, ◌≡◌, ◌∙◌, refl, sym, ap, Bool, true, false, Option, some, List, [], ◌∷◌, ◌++◌, append_assoc,
  inr,
}
use newnode.Splice.{Bufferevent, Pair}
use newnode.Splice.Relay.{Stream}
use newnode.Tunnel.{
  ConnectReq, tell, closecb_cleared, or_nothing, connect_server_event_cb, connect_evcon_close_cb,
  bev_at, set_bev, connect_other_read_cb, connect_other_event_cb,
}
use newnode.Tunnel.Answers.{connect_request, connect_peer, peer_connected}
use newnode.Tunnel.Calls.{
  Callback, peer_ready, closes, server_ends, header, done, error, direct_event, server_reads,
  tried_answers, tried_ends, call, Due,
}
use newnode.Tunnel.Reached.{started, starts}
use newnode.Tunnel.Delivers.{
  AllGiven, Carries, Streams, Delivers, DeliversOr, error_Delivers, ready_Delivers,
  done_cb_Delivers, cancel_Delivers,
}
use newnode.Tunnel.Joined.{
  Unused, header_Delivers, direct_Delivers, reads_Delivers, given-set_bev, given-bev_at,
  ends_Delivers, answers_Delivers,
}

-- The callbacks hand over connections that were not used.
unfoldable pub Fresh : Callback → Type 0
Fresh (header code msign other) = Unused other
Fresh (direct_event o other) = Unused other
Fresh _ = Unit

-- What comes after the start of a request: callbacks, and what a connection that is tried sends and receives.
pub data Flows (start : Option ConnectReq) : Option ConnectReq → Type 0 where
  begun : Flows start start
  calls :
      (c : ConnectReq) (cb : Callback)
      → Flows start (some c)
      → c.freed ≡ false
      → Due cb c
      → Fresh cb
      → Flows start (call cb c)
  slot_sends :
      (c : ConnectReq) (i : ℕ) (b : Bufferevent) (front back : List ℕ)
      → Flows start (some c)
      → bev_at c.bevs i ≡ some b
      → b.output ≡ front ++ back
      → Flows start (
          some (record c {
            bevs = set_bev c.bevs i (some (record b { output = back; sent = b.sent ++ front }));
          }))
  slot_receives :
      (c : ConnectReq) (i : ℕ) (b : Bufferevent) (bytes : List ℕ)
      → Flows start (some c)
      → bev_at c.bevs i ≡ some b
      → Flows start (
          some (record c {
            bevs =
                set_bev c.bevs i
                  (some (record b { input = b.input ++ bytes; received = b.received ++ bytes }));
          }))

call-Delivers :
    (cb : Callback) (c : ConnectReq)
    → c.freed ≡ false
    → Fresh cb
    → Delivers c
    → DeliversOr (call cb c)
unfolding call Fresh DeliversOr Delivers connect_server_event_cb connect_evcon_close_cb
    connect_other_read_cb connect_other_event_cb
call-Delivers peer_ready c live f d = ready_Delivers (record c { on_connect = false }) d
call-Delivers closes c live f d =
    cancel_Delivers (tell closecb_cleared (record c { server_req = false })) d
call-Delivers server_ends c live f d = cancel_Delivers c d
call-Delivers (header code msign other) c live f d = header_Delivers code msign other c f live d
call-Delivers (done ready) c live f d = done_cb_Delivers ready c d
call-Delivers (error e) c live f d = error_Delivers e c d
call-Delivers (direct_event o other) c live f d = direct_Delivers o other c f live d
call-Delivers (server_reads bytes) c live f d = reads_Delivers bytes c live d
call-Delivers (tried_answers i) c live f d =
    answers_Delivers i c (bev_at c.bevs i)
      (given-bev_at (or_nothing c.intro_data) c.bevs i (d.1 live).given) live d
call-Delivers (tried_ends i) c live f d = ends_Delivers i c (bev_at c.bevs i) live d

-- A slot whose connection has sent and waits to send the same bytes as before.
changed_Delivers :
    (c : ConnectReq) (i : ℕ) (b b' : Bufferevent)
    → bev_at c.bevs i ≡ some b
    → b'.sent ++ b'.output ≡ b.sent ++ b.output
    → Delivers c
    → Delivers (record c { bevs = set_bev c.bevs i (some b') })
unfolding Delivers AllGiven
changed_Delivers c i b b' at same d = (
  d.0,
  λ live.
      let k : Carries c.server c.intro_data c.bevs = d.1 live in
      let intro = or_nothing c.intro_data in
      let g : AllGiven intro (some b ∷ []) =
        subst (λ x. AllGiven intro (x ∷ [])) at (given-bev_at intro c.bevs i k.given) in
      record {
        whole = k.whole;
        early = k.early;
        given = given-set_bev intro c.bevs i (some b') k.given (same ∙ g.0, tt);
      },
)

Flows-Delivers : (start o : Option ConnectReq) → DeliversOr start → Flows start o → DeliversOr o
unfolding DeliversOr
Flows-Delivers start _ d begun = d
Flows-Delivers start _ d (calls c cb r live due fresh) =
    call-Delivers cb c live fresh (Flows-Delivers start (some c) d r)
Flows-Delivers start _ d (slot_sends c i b front back r at e) =
    changed_Delivers c i b (record b { output = back; sent = b.sent ++ front }) at
      (append_assoc b.sent front back ∙ ap (λ x. b.sent ++ x) (sym e))
      (Flows-Delivers start (some c) d r)
Flows-Delivers start _ d (slot_receives c i b bytes r at) =
    changed_Delivers c i b (record b { input = b.input ++ bytes; received = b.received ++ bytes })
      at refl (Flows-Delivers start (some c) d r)

started-Delivers :
    (ready local : Bool) (server : Bufferevent)
    → server.input ≡ []
    → server.received ≡ []
    → DeliversOr (started ready local server)
unfolding DeliversOr Delivers Streams AllGiven connect_peer peer_connected
started-Delivers true local server i r =
    (tt, λ live. record { whole = i ∙ sym r; early = λ e. i; given = tt })
started-Delivers false local server i r =
    (tt, λ live. record { whole = i ∙ sym r; early = λ e. i; given = tt })

streams_of : (c : ConnectReq) (p : Pair) → c.spliced ≡ some p → Delivers c → Stream p.bev p.other
unfolding Delivers Streams
streams_of c p e d = subst Streams e d.0

-- If no byte of the browser is read before its connection is taken over, and each connection that a
-- callback hands over was not used before, then at the time a CONNECT is joined to a connection, after any
-- callbacks that are due, and with any of the tried connections' bytes sent and received meanwhile: what
-- that connection has sent, what is in its output and what waits in the input of the browser's connection
-- are, in this order, all bytes that the browser has sent since, each once.
pub connect_request-Stream :
    (ready local host : Bool) (port : Option ℕ) (server : Bufferevent) (start : Option ConnectReq)
    (c : ConnectReq) (p : Pair)
    → connect_request ready local host port server ≡ inr start
    → server.input ≡ []
    → server.received ≡ []
    → Flows start (some c)
    → c.spliced ≡ some p
    → Stream p.bev p.other
unfolding DeliversOr
connect_request-Stream ready local host port server start c p e no_input none_received flow joins =
    let at_start : DeliversOr start =
      subst DeliversOr (sym (starts ready local host port server start e))
        (started-Delivers ready local server no_input none_received) in
    streams_of c p joins (Flows-Delivers start (some c) at_start flow)
