-- ===== src/Tunnel/Connects.antt =====
-- client.c: connected and connect_done_cb keep the invariant of an HTTP CONNECT.
use newnode.Prelude.{
  ◌>>=◌, ℕ, suc, ◌+◌, ◌≤◌, ◌<◌, ◌≡◌, ◌∙◌, refl, ap, Bool, true, false, ◌||◌, Option, none, some,
  List, [], ◌∷◌, inl, inr, length, if_intro, if_true, if_false, Bool-cases, arith,
}
use newnode.Socks.{socks_reply}
use newnode.Splice.{Bufferevent}
use newnode.Tunnel.{ConnectReq, no_bevs, connect_exhausted, connect_cleanup, enable, write}
use newnode.Tunnel.Answers.{
  connected, introduced, in_slot, put_bev, established, finish, connect_peer, peer_connected,
}
use newnode.Tunnel.Calls.{Place, waits, taken, answered, Fine, count, one_if, at_work}
use newnode.Tunnel.Keeps.{
  Loose, waiting, settle, settle_gone, placed-Sound, busy_place, cleanup_busy,
}

-- A free slot is used.
data Filled (bs : List (Option Bufferevent)) : Option (List (Option Bufferevent)) → Type 0 where
  filled :
      (bs' : List (Option Bufferevent))
      → count bs' ≡ suc (count bs)
      → length bs' ≡ length bs
      → Filled bs (some bs')

then_filled :
    (a : Bufferevent) (bs : List (Option Bufferevent)) (o : Option (List (Option Bufferevent)))
    → Filled bs o
    → Filled (some a ∷ bs) (o >>= λ rest. some (some a ∷ rest))
then_filled a bs _ (filled bs' e h) = filled (some a ∷ bs') (ap suc e) (ap suc h)

put_bev_filled :
    (b : Bufferevent) (bs : List (Option Bufferevent))
    → count bs < length bs
    → Filled bs (put_bev b bs)
unfolding put_bev
put_bev_filled b [] h = absurd (omega (arith, h))
put_bev_filled b (none ∷ bs) h = filled (some b ∷ bs) refl refl
put_bev_filled b (some a ∷ bs) h = then_filled a bs _ (put_bev_filled b bs (omega (arith, h)))

-- A request whose browser's connection is taken over, with room for one more connection.
record Taken (c : ConnectReq) : Type 0 where
  no_server_bev : c.server_bev ≡ false
  may_free : c.dont_free ≡ false
  no_request : c.server_req ≡ false
  pending : c.pending_bev ≡ true
  peers : c.on_connect ≡ true → (c.pc ≡ false) × (c.proxy_req ≡ false)
  asked : c.proxy_req ≡ true → c.requested ≡ true
  room : count c.bevs + one_if c.direct + one_if (c.on_connect || c.pc) ≤ 1
  slots : length c.bevs ≡ 10

some_bev : (bs : List (Option Bufferevent)) (n : ℕ) → count bs ≡ suc n → no_bevs bs ≡ false
unfolding no_bevs
some_bev [] n e = absurd (omega (arith, e))
some_bev (none ∷ bs) n e = some_bev bs n e
some_bev (some b ∷ bs) n e = refl

in_slot-Fine :
    (c : ConnectReq) (o : Option (List (Option Bufferevent)))
    → Taken c
    → Filled c.bevs o
    → Fine (in_slot c o)
unfolding Fine
in_slot-Fine c _ t (filled bs' e h) = inr (record {
  no_server_bev = t.no_server_bev;
  may_free = t.may_free;
  place = taken t.no_request t.pending (inl (some_bev bs' (count c.bevs) e));
  peers = t.peers;
  asked = t.asked;
  room = omega (arith, e, t.room);
  slots = h ∙ t.slots;
})

put_Fine :
    (c : ConnectReq) (other : Bufferevent) → Taken c → Fine (in_slot c (put_bev other c.bevs))
put_Fine c other t =
    in_slot-Fine c (put_bev other c.bevs) t
      (put_bev_filled other c.bevs (omega (arith, t.room, t.slots)))

introduced-Fine :
    (greeting : List ℕ) (c : ConnectReq) (other : Bufferevent) (o : Option (List ℕ))
    → Taken c
    → Fine (introduced greeting c other o)
introduced-Fine greeting c other (some intro) t = put_Fine c (write intro other) t
introduced-Fine greeting c other none t =
    put_Fine
      (record c {
        intro_data = some c.server.input;
        server = write greeting (record (c.server) { input = [] });
      })
      other
      (record {
        no_server_bev = t.no_server_bev;
        may_free = t.may_free;
        no_request = t.no_request;
        pending = t.pending;
        peers = t.peers;
        asked = t.asked;
        room = t.room;
        slots = t.slots;
      })

-- A request with room for one more connection, whose browser is not answered.
pub record Open (c : ConnectReq) : Type 0 where
  pub no_server_bev : c.server_bev ≡ false
  pub may_free : c.dont_free ≡ false
  pub reached : (c.server_req ≡ false) → (c.pending_bev ≡ true)
  pub peers : c.on_connect ≡ true → (c.pc ≡ false) × (c.proxy_req ≡ false)
  pub asked : c.proxy_req ≡ true → c.requested ≡ true
  pub room : count c.bevs + one_if c.direct + one_if (c.on_connect || c.pc) ≤ 1
  pub slots : length c.bevs ≡ 10

pub connected-Fine : (other : Bufferevent) (c : ConnectReq) → Open c → Fine (connected other c)
unfolding connected
connected-Fine other c o =
    if_intro Fine c.server_req
      (λ _. introduced-Fine established _ (enable other) c.intro_data (record {
        no_server_bev = o.no_server_bev;
        may_free = o.may_free;
        no_request = refl;
        pending = refl;
        peers = o.peers;
        asked = o.asked;
        room = o.room;
        slots = o.slots;
      }))
      (λ gone.
        let there : c.server_bev || c.pending_bev ≡ true =
          ground (arith, o.no_server_bev, o.reached gone) in
        if_true Fine (c.server_bev || c.pending_bev) _ there (
          introduced-Fine (socks_reply 0x00) _ (enable other) c.intro_data (record {
            no_server_bev = refl;
            may_free = o.may_free;
            no_request = gone;
            pending = refl;
            peers = o.peers;
            asked = o.asked;
            room = o.room;
            slots = o.slots;
          })))

-- Something at work means that the browser is not answered.
pub not_answered :
    (c : ConnectReq) → Place c → at_work c ≡ true → c.server_req ≡ false → c.pending_bev ≡ true
not_answered c (waits r p b w) work gone = ground (arith, r, gone)
not_answered c (taken r p t) work gone = p
not_answered c (answered r p b w) work gone = cc

pub unanswered :
    (c : ConnectReq)
    → Place c
    → c.server_req ≡ true
    → (c.pending_bev ≡ false) × (no_bevs c.bevs ≡ true)
unanswered c (waits r p b w) there = (p, b)
unanswered c (taken r p t) there = cc
unanswered c (answered r p b w) there = cc

pub done_settles : (c : ConnectReq) → Loose c → Fine (finish c)
unfolding finish
done_settles c l = elim (Bool-cases (connect_exhausted c)) [
  | inl idle ↦
      if_true (λ o. Fine (o >>= connect_cleanup)) (connect_exhausted c) _ idle
        (if_false (λ o. Fine (o >>= connect_cleanup)) c.server_bev _ l.no_server_bev
          (if_intro (λ x. Fine (connect_cleanup x)) c.server_req (λ _. settle 523 c l)
            (λ gone. settle_gone c l gone)))
  | inr busy ↦
      if_false (λ o. Fine (o >>= connect_cleanup)) (connect_exhausted c) _ busy
        (cleanup_busy c (placed-Sound c l (busy_place c busy l.place)) busy)
]

-- A request of the browser without a direct connection, a peer or a wait for one.
pub record Alone (c : ConnectReq) : Type 0 where
  pub there : c.server_req ≡ true
  pub loose : Loose c
  pub no_pc : c.pc ≡ false
  pub no_wait : c.on_connect ≡ false
  pub no_request : c.proxy_req ≡ false
  pub none_taken : c.pending_bev ≡ false
  pub none_tried : no_bevs c.bevs ≡ true
  pub space : count c.bevs + one_if c.direct ≤ 1

pub peer_settles :
    (ready preference : Bool) (c : ConnectReq)
    → Alone c
    → Fine (connect_peer ready preference c >>= finish)
unfolding connect_peer peer_connected
peer_settles ready preference c a =
    let l = a.loose in
    let no_peer : c.pc || (c.on_connect || c.proxy_req) ≡ false =
      ground (arith, a.no_pc, a.no_wait, a.no_request) in
    if_false (λ o. Fine (o >>= finish)) (c.pc || (c.on_connect || c.proxy_req)) _ no_peer
      (if_intro (λ o. Fine (o >>= finish)) ready
        (λ _.
          if_false (λ o. Fine (o >>= finish)) (c.pc || (c.on_connect || c.proxy_req)) _ no_peer
            (done_settles _ (record {
              no_server_bev = l.no_server_bev;
              may_free = l.may_free;
              place = waiting a.there a.none_taken a.none_tried;
              peers = λ w. cc;
              asked = λ w. refl;
              room = ground (arith, a.space, a.no_wait);
              slots = l.slots;
            })))
        (λ _. done_settles _ (record {
          no_server_bev = l.no_server_bev;
          may_free = l.may_free;
          place = waiting a.there a.none_taken a.none_tried;
          peers = λ w. (a.no_pc, a.no_request);
          asked = l.asked;
          room = ground (arith, a.space);
          slots = l.slots;
        })))
