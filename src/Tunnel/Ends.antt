-- ===== src/Tunnel/Ends.antt =====
-- client.c: the callbacks of an HTTP CONNECT that are not a peer's answer keep its invariant.
use newnode.Prelude.{
  ◌>>=◌, ◌+◌, ◌≡◌, refl, Bool, true, false, not, ◌&&◌, ◌||◌, ltb, inr, if_intro, if_true, if_false,
  arith,
}
use newnode.Splice.{Bufferevent}
use newnode.Tunnel.{ConnectReq, no_bevs, tell, peer_reused}
use newnode.Tunnel.Answers.{
  finish, connect_invalid_reply, peer_connected, connect_done_cb, Outcome, timed_out, is_connected,
  failed, direct_code, connect_direct_event_cb,
}
use newnode.Tunnel.Calls.{Sound, Fine}
use newnode.Tunnel.Keeps.{waiting, settle, direct_gone, peer_gone}
use newnode.Tunnel.Refusals.{kept, unwaited}
use newnode.Tunnel.Connects.{
  connected-Fine, not_answered, unanswered, done_settles, Alone, peer_settles,
}

pub direct_Fine :
    (o : Outcome) (other : Bufferevent) (c : ConnectReq)
    → Sound c
    → c.direct ≡ true
    → Fine (connect_direct_event_cb o other c)
unfolding connect_direct_event_cb
direct_Fine timed_out other c s working = settle 504 _ (direct_gone c s)
direct_Fine (failed err) other c s working = settle (direct_code err) _ (direct_gone c s)
direct_Fine is_connected other c s working =
    connected-Fine other (record c { direct = false })
      (record {
        no_server_bev = s.no_server_bev;
        may_free = s.may_free;
        reached = not_answered c s.place (ground (arith, working));
        peers = s.peers;
        asked = s.asked;
        room = ground (arith, s.room, working);
        slots = s.slots;
      })

-- The peer's answer has ended, and the next peer is asked if there is no direct connection.
asked_again :
    (c : ConnectReq)
    → Sound c
    → c.pc ≡ true
    → c.server_req ≡ true
    → Alone (
        tell peer_reused
          (record c { proxy_req = false; requested = false; pc = false; attempts = c.attempts }))
asked_again c s peer there =
    let no_wait : c.on_connect ≡ false = unwaited c s peer in
    let p : (c.pending_bev ≡ false) × (no_bevs c.bevs ≡ true) = unanswered c s.place there in
    record {
      there = there;
      loose = record {
        no_server_bev = s.no_server_bev;
        may_free = s.may_free;
        place = waiting there p.0 p.1;
        peers = λ w. (refl, refl);
        asked = λ w. cc;
        room = ground (arith, s.room, no_wait, peer);
        slots = s.slots;
      };
      no_pc = refl;
      no_wait = no_wait;
      no_request = refl;
      none_taken = p.0;
      none_tried = p.1;
      space = ground (arith, s.room, peer);
    }

retried : (c : ConnectReq) → Alone c → Alone (record c { attempts = c.attempts + 1 })
retried c a = record {
  there = a.there;
  loose = record {
    no_server_bev = a.loose.no_server_bev;
    may_free = a.loose.may_free;
    place = waiting a.there a.none_taken a.none_tried;
    peers = a.loose.peers;
    asked = a.loose.asked;
    room = a.loose.room;
    slots = a.loose.slots;
  };
  no_pc = a.no_pc;
  no_wait = a.no_wait;
  no_request = a.no_request;
  none_taken = a.none_taken;
  none_tried = a.none_tried;
  space = a.space;
}

invalid_settles :
    (ready : Bool) (c : ConnectReq) → Alone c → Fine (connect_invalid_reply ready c >>= finish)
unfolding connect_invalid_reply
invalid_settles ready c a =
    let c1 = record c { attempts = c.attempts + 1 } in
    if_intro (λ o. Fine (o >>= finish)) (ltb c1.attempts 10)
      (λ _. peer_settles ready true c1 (retried c a)) (λ _. done_settles c1 (retried c a).loose)

pub done_Fine :
    (ready : Bool) (c : ConnectReq) → Sound c → c.pc ≡ true → Fine (connect_done_cb ready c)
unfolding connect_done_cb
done_Fine ready c s peer =
    if_intro (λ o. Fine (o >>= finish)) (not c.direct && (c.server_req || c.server_bev))
      (λ e.
        let there : c.server_req ≡ true = ground (arith, e, s.no_server_bev) in
        if_true (λ x. Fine (connect_invalid_reply ready x >>= finish)) c.pc _ peer
          (invalid_settles ready _ (asked_again c s peer there)))
      (λ _. done_settles _ (peer_gone c s))

pub ready_Fine :
    (c : ConnectReq)
    → Sound c
    → c.on_connect ≡ true
    → Fine (peer_connected (record c { on_connect = false }))
unfolding peer_connected Fine
ready_Fine c s waits_on =
    let p = s.peers waits_on in
    let free : c.pc || c.proxy_req ≡ false = ground (arith, p.0, p.1) in
    if_false Fine (c.pc || c.proxy_req) _ free (
      inr (record {
        no_server_bev = s.no_server_bev;
        may_free = s.may_free;
        place = kept c _ refl refl refl (ground (arith, waits_on)) (λ m. m) s.place;
        peers = λ w. cc;
        asked = λ w. refl;
        room = ground (arith, s.room, waits_on);
        slots = s.slots;
      }))
