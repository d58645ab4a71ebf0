-- ===== src/Tunnel/Tests.antt =====
-- client.c: runs of a CONNECT, and the theorems on them.
use newnode.Prelude.{◌≤◌, ◌≡◌, refl, true, false, none, some, [], ◌∷◌, inr}
use mathlib.Core.Path.{subst}
use newnode.Splice.{Bufferevent, Pair}
use newnode.Splice.Relay.{Stream}
use newnode.Tunnel.Flows.{Flows, begun, calls, slot_sends, Fresh, connect_request-Stream}
use newnode.Tunnel.{
  write_all, connect_server_read_cb, bev_at, set_bev, connect_other_read_cb, connect_direct_cancel,
  connect_proxy_cancel, closecb_cleared, peer_disconnected,
}
use newnode.Tunnel.Answers.{established, is_connected, connected, put_bev}
use newnode.Tunnel.Calls.{server_reads, tried_answers}
use newnode.Tunnel.{
  ConnectReq, connect_exhausted, connect_send_error, connect_cleanup, no_bevs, more_injectors,
  bev_freed,
}
use newnode.Tunnel.Answers.{
  connect_request, connect_peer, peer_connected, timeout, failed, econnrefused,
  connect_direct_event_cb,
}
use newnode.Tunnel.Calls.{Callback, direct_event, error, call, Due}
use newnode.Tunnel.Reached.{Reached}
use newnode.Tunnel.Failures.{Fails}
use newnode.Tunnel.Answered.{Failing, unfailed, fails, Settled, connect_request-Settled}

abbrev browser : Bufferevent
browser = record {
  input = [];
  output = [];
  ev_read = true;
  ev_write = true;
  shut_wr = false;
  shut_rd = false;
  closing = false;
  freed = false;
  received = [];
  sent = [];
}

abbrev both_tried : ConnectReq
both_tried = record {
  socks = false;
  server_req = true;
  evcon = true;
  local = true;
  server_bev = false;
  proxy_req = true;
  on_connect = false;
  pc = true;
  requested = true;
  direct = true;
  pending_bev = false;
  server = browser;
  intro_data = none;
  bevs = none ∷ none ∷ none ∷ none ∷ none ∷ none ∷ none ∷ none ∷ none ∷ none ∷ [];
  attempts = 0;
  dont_free = false;
  freed = false;
  spliced = none;
  events = more_injectors ∷ [];
}

-- The direct connection is refused, and then the peer does not answer in time.
abbrev refused : Callback
refused = direct_event (failed econnrefused) browser

abbrev peer_left : ConnectReq
peer_left = record both_tried { direct = false; events = more_injectors ∷ bev_freed ∷ [] }

starts_both : connect_request true true true (some 443) browser ≡ inr (some both_tried)
unfolding connect_request connect_peer peer_connected
starts_both = refl

one_failed : call refused both_tried ≡ some peer_left
unfolding call connect_direct_event_cb connect_send_error connect_cleanup connect_exhausted
one_failed = refl

both_fail : Failing (some both_tried) 2 (call (error timeout) peer_left)
unfolding call connect_direct_event_cb connect_send_error connect_cleanup connect_exhausted Due
    Fails
both_fail =
    fails 1 peer_left (error timeout) (fails 0 both_tried refused unfailed refl refl tt) refl
      (refl, λ e. cc) tt

connect_request-Settled_example : (2 ≤ 33) × Settled (call (error timeout) peer_left)
connect_request-Settled_example =
    connect_request-Settled true true true (some 443) browser (some both_tried)
      (call (error timeout) peer_left) 2 starts_both both_fail

-- The direct connection answers: the browser sends three bytes, of which two are sent on.
abbrev taken_over : ConnectReq
taken_over = record both_tried {
  server_req = false;
  direct = false;
  pending_bev = true;
  server = record browser { output = established };
  intro_data = some [];
  bevs = some browser ∷ none ∷ none ∷ none ∷ none ∷ none ∷ none ∷ none ∷ none ∷ none ∷ [];
  events = more_injectors ∷ closecb_cleared ∷ [];
}

abbrev asked_for : ConnectReq
asked_for = record taken_over {
  server = record browser { output = established; received = 1 ∷ 2 ∷ 3 ∷ [] };
  intro_data = some (1 ∷ 2 ∷ 3 ∷ []);
  bevs =
      some (record browser { output = 1 ∷ 2 ∷ 3 ∷ [] })
      ∷ none
      ∷ none
      ∷ none
      ∷ none
      ∷ none
      ∷ none
      ∷ none
      ∷ none
      ∷ none
      ∷ [];
}

abbrev half_sent : ConnectReq
half_sent = record asked_for {
  bevs =
      some (record browser { output = 3 ∷ []; sent = 1 ∷ 2 ∷ [] })
      ∷ none
      ∷ none
      ∷ none
      ∷ none
      ∷ none
      ∷ none
      ∷ none
      ∷ none
      ∷ none
      ∷ [];
}

abbrev join : Pair
join = record {
  bev = record browser { output = established; received = 1 ∷ 2 ∷ 3 ∷ [] };
  other = record browser { output = 3 ∷ []; sent = 1 ∷ 2 ∷ [] };
}

abbrev joined_up : ConnectReq
joined_up = record half_sent {
  proxy_req = false;
  pc = false;
  requested = false;
  pending_bev = false;
  intro_data = none;
  bevs = none ∷ none ∷ none ∷ none ∷ none ∷ none ∷ none ∷ none ∷ none ∷ none ∷ [];
  freed = true;
  spliced = some join;
  events = more_injectors ∷ closecb_cleared ∷ peer_disconnected ∷ [];
}

answers : call (direct_event is_connected browser) both_tried ≡ some taken_over
unfolding call connect_direct_event_cb connected put_bev
answers = refl

asks : call (server_reads (1 ∷ 2 ∷ 3 ∷ [])) taken_over ≡ some asked_for
unfolding call connect_server_read_cb write_all
asks = refl

joins : call (tried_answers 0) half_sent ≡ some joined_up
unfolding call connect_other_read_cb bev_at connect_direct_cancel connect_proxy_cancel
    connect_cleanup connect_exhausted no_bevs
joins = refl

flow : Flows (some both_tried) (call (tried_answers 0) half_sent)
unfolding call connect_direct_event_cb connected put_bev connect_server_read_cb write_all Due Fresh
    bev_at set_bev
flow =
    calls half_sent (tried_answers 0)
      (slot_sends asked_for 0 (record browser { output = 1 ∷ 2 ∷ 3 ∷ [] }) (1 ∷ 2 ∷ []) (3 ∷ [])
        (calls taken_over (server_reads (1 ∷ 2 ∷ 3 ∷ []))
          (calls both_tried (direct_event is_connected browser) begun refl refl (refl, refl)) refl
          refl tt)
        refl refl)
      refl (λ e. cc) tt

flow_joined : Flows (some both_tried) (some joined_up)
flow_joined = subst (Flows (some both_tried)) joins flow

connect_request-Stream_example : Stream join.bev join.other
connect_request-Stream_example =
    connect_request-Stream true true true (some 443) browser (some both_tried) joined_up join
      starts_both refl refl flow_joined refl
