-- ===== src/Tunnel/Answered.antt =====
-- client.c: a browser whose CONNECT is refused everywhere is told so.
use newnode.Prelude.{
  ℕ, suc, ◌+◌, ◌≤◌, ◌≡◌, ◌∙◌, sym, Bool, true, false, Option, none, some, ◌==◌, ◌⊎◌, inl, inr,
  Bool-cases, arith,
}
use mathlib.Core.Path.{subst}
use newnode.Splice.{Bufferevent}
use newnode.Tunnel.{ConnectReq}
use newnode.Tunnel.Answers.{timeout, timed_out, connect_request, connect_peer, peer_connected}
use newnode.Tunnel.Calls.{
  Callback, peer_ready, header, error, direct_event, call, Due, Place, waits, taken, answered,
  Sound, Fine, at_work,
}
use newnode.Tunnel.Reached.{starts, started, started-Fine, live-Sound, call-Fine}
use newnode.Tunnel.Failures.{Fails, replied, measure, Less, LessOr, call_Less, header_Less}

-- The states after `n` callbacks of a failure, and answers of peers other than 200 between them.
pub data Failing (start : Option ConnectReq) : ℕ → Option ConnectReq → Type 0 where
  unfailed : Failing start 0 start
  fails :
      (n : ℕ) (c : ConnectReq) (cb : Callback)
      → Failing start n (some c)
      → c.freed ≡ false
      → Due cb c
      → Fails cb
      → Failing start (suc n) (call cb c)
  refuses :
      (n code : ℕ) (msign : Option Bool) (other : Bufferevent) (c : ConnectReq)
      → Failing start n (some c)
      → c.freed ≡ false
      → Due (header code msign other) c
      → (code == 200) ≡ false
      → Failing start n (call (header code msign other) c)

-- The browser was answered, or another callback of a failure is due.
unfoldable pub Settled : Option ConnectReq → Type 0
Settled none = ⊥
Settled (some c) = (replied c.events ≡ true) ⊎ ((cb : Callback) × Due cb c × Fails cb)

-- What holds of each state after `n` callbacks.
record Bounded (n : ℕ) (c : ConnectReq) : Type 0 where
  bounded : n + measure c ≤ 33
  said : c.server_req ≡ false → replied c.events ≡ true
  let_go : c.freed ≡ true → c.server_req ≡ false

BoundedOr : ℕ → Option ConnectReq → Type 0
BoundedOr n none = ⊥
BoundedOr n (some c) = Bounded n c

start_Bounded :
    (ready local : Bool) (server : Bufferevent) → BoundedOr 0 (started ready local server)
unfolding BoundedOr connect_peer peer_connected
start_Bounded true local server = record { bounded = omega arith; said = λ g. cc; let_go = λ f. cc }
start_Bounded false local server = record {
  bounded = omega arith;
  said = λ g. cc;
  let_go = λ f. cc;
}

less_Bounded :
    (n : ℕ) (c : ConnectReq) (o : Option ConnectReq)
    → Bounded n c
    → Fine o
    → LessOr (measure c) o
    → BoundedOr (suc n) o
unfolding BoundedOr LessOr Fine
less_Bounded n c none b f l = f
less_Bounded n c (some d) b f l = record {
  bounded = omega (arith, b.bounded, l.less);
  said = l.told;
  let_go = l.freed_last;
}

same_Bounded :
    (n : ℕ) (c : ConnectReq) (o : Option ConnectReq)
    → Bounded n c
    → Fine o
    → LessOr (suc (measure c)) o
    → BoundedOr n o
unfolding BoundedOr LessOr Fine
same_Bounded n c none b f l = f
same_Bounded n c (some d) b f l = record {
  bounded = omega (arith, b.bounded, l.less);
  said = l.told;
  let_go = l.freed_last;
}

record Both (n : ℕ) (o : Option ConnectReq) : Type 0 where
  fine : Fine o
  within : BoundedOr n o

unbox : (n : ℕ) (c : ConnectReq) → BoundedOr n (some c) → Bounded n c
unfolding BoundedOr
unbox n c b = b

Failing-Both : (start o : Option ConnectReq) (n : ℕ) → Both 0 start → Failing start n o → Both n o
unfolding call
Failing-Both start _ _ b unfailed = b
Failing-Both start _ _ b (fails n c cb r live due f) =
    let h : Both n (some c) = Failing-Both start (some c) n b r in
    let w : Bounded n c = unbox n c h.within in
    let fine : Fine (call cb c) = call-Fine cb c (live-Sound c h.fine live) due in
    record {
      fine = fine;
      within =
          less_Bounded n c (call cb c) w fine
            (call_Less cb c (record { told = w.said; live = live }) due f);
    }
Failing-Both start _ _ b (refuses n code msign other c r live due refused) =
    let h : Both n (some c) = Failing-Both start (some c) n b r in
    let w : Bounded n c = unbox n c h.within in
    let fine : Fine (call (header code msign other) c) =
      call-Fine (header code msign other) c (live-Sound c h.fine live) due in
    let l : Less (suc (measure c)) c = record {
      less = omega arith;
      told = w.said;
      freed_last = w.let_go;
    } in
    let step : LessOr (suc (measure c)) (call (header code msign other) c) =
      header_Less (suc (measure c)) code msign other c l refused in
    record { fine = fine; within = same_Bounded n c _ w fine step }

work-Due : (c : ConnectReq) → Sound c → at_work c ≡ true → (cb : Callback) × Due cb c × Fails cb
unfolding Due Fails
work-Due c s w = elim (Bool-cases c.direct) [
  | inl direct ↦ (direct_event timed_out c.server, direct, tt)
  | inr indirect ↦ elim (Bool-cases c.on_connect) [
    | inl waits_on ↦ (peer_ready, waits_on, tt)
    | inr no_wait ↦ (error timeout, (s.asked (ground (arith, w, indirect, no_wait)), λ e. cc), tt)
  ]
]

waits-Due :
    (c : ConnectReq)
    → Sound c
    → c.server_req ≡ true
    → Place c
    → (cb : Callback) × Due cb c × Fails cb
waits-Due c s there (waits r p b w) = work-Due c s w
waits-Due c s there (taken r p t) = cc
waits-Due c s there (answered r p b w) = cc

settles : (n : ℕ) (c : ConnectReq) → Bounded n c → Fine (some c) → Settled (some c)
unfolding Settled
settles n c b f = elim (Bool-cases c.server_req) [
  | inl there ↦ elim (Bool-cases c.freed) [
    | inl freed ↦ let clash : true ≡ false = sym there ∙ b.let_go freed in cc
    | inr live ↦ let s = live-Sound c f live in inr (waits-Due c s there s.place)
  ]
  | inr gone ↦ inl (b.said gone)
]

end_settle : (n : ℕ) (o : Option ConnectReq) → Both n o → (n ≤ 33) × Settled o
unfolding BoundedOr Fine Settled
end_settle n none h = absurd h.fine
end_settle n (some c) h =
    let b : Bounded n c = unbox n c h.within in (omega (arith, b.bounded), settles n c b h.fine)

-- Of a CONNECT that connect_request has started, let the direct connection fail, and let every request to a
-- peer fail, or be answered with another code than 200 and end, in any order: at most 33 callbacks of the
-- direct connection, of an error, of an end and of a new connection to a peer come, and at any time the
-- browser was answered or another of these is due, so a browser that is refused everywhere is told so.
pub connect_request-Settled :
    (ready local host : Bool) (port : Option ℕ) (server : Bufferevent) (start o : Option ConnectReq)
    (n : ℕ)
    → connect_request ready local host port server ≡ inr start
    → Failing start n o
    → (n ≤ 33) × Settled o
connect_request-Settled ready local host port server start o n e r =
    let at_start : Both 0 (started ready local server) = record {
      fine = started-Fine ready local server;
      within = start_Bounded ready local server;
    } in
    end_settle n o (
      Failing-Both start o n
        (subst (Both 0) (sym (starts ready local host port server start e)) at_start) r)
