-- ===== src/Tunnel/Refusals.antt =====
-- client.c: the callbacks of a peer's answer keep the invariant of an HTTP CONNECT.
use mathlib.Core.List.{Memᴰ}
use newnode.Prelude.{
  ℕ, ◌≡◌, ◌∙◌, refl, sym, Bool, true, false, not, ◌&&◌, Option, none, some, [], ◌∷◌, ◌==◌, inl, inr,
  if_intro, if_false, Bool-cases, arith,
}
use newnode.Splice.{Bufferevent}
use newnode.Tunnel.{
  ConnectReq, Event, tried_freed, no_bevs, connect_exhausted, tell, closecb_cleared, peer_is_loop,
  peer_verified, peer_unverified, copied_signature, send_reply,
}
use newnode.Tunnel.Answers.{signed_refusal, refusal, connect_header_cb}
use newnode.Tunnel.Calls.{Place, waits, taken, answered, Sound, Fine, at_work}
use newnode.Tunnel.Keeps.{
  Loose, loosen, LoosePlace, waiting, placed, took, placed-Sound, busy_place, exhausted_busy,
  exhausted_idle, Mem-append, still-Tried,
}
use newnode.Tunnel.Connects.{Open, connected-Fine, not_answered, unanswered}

exhausted_means :
    (c : ConnectReq) → connect_exhausted c ≡ true → (at_work c ≡ false) × (no_bevs c.bevs ≡ true)
exhausted_means c e = elim (Bool-cases (at_work c)) [
  | inl busy ↦ let clash : false ≡ true = sym (exhausted_busy c busy) ∙ e in cc
  | inr idle ↦ (idle, sym (exhausted_idle c idle) ∙ e)
]

gone_place : (c : ConnectReq) → c.server_req ≡ false → LoosePlace c → Place c
gone_place c gone (waiting r p b) = cc
gone_place c gone (placed p) = p
gone_place c gone (took r p t) = taken r p t

-- A request of which the same is at work, and whose browser's connection is where it was.
pub kept :
    (c c' : ConnectReq)
    → c'.server_req ≡ c.server_req
    → c'.pending_bev ≡ c.pending_bev
    → no_bevs c'.bevs ≡ no_bevs c.bevs
    → at_work c' ≡ at_work c
    → (Memᴰ tried_freed c.events → Memᴰ tried_freed c'.events)
    → Place c
    → Place c'
kept c c' req pending bevs same log (waits r p b w) =
    waits (req ∙ r) (pending ∙ p) (bevs ∙ b) (same ∙ w)
kept c c' req pending bevs same log (taken r p t) =
    taken (req ∙ r) (pending ∙ p) (still-Tried c c' bevs log t)
kept c c' req pending bevs same log (answered r p b w) =
    answered (req ∙ r) (pending ∙ p) (bevs ∙ b) (same ∙ w)

told-Sound : (e : Event) (c : ConnectReq) → Sound c → Sound (tell e c)
told-Sound e c s = record {
  no_server_bev = s.no_server_bev;
  may_free = s.may_free;
  place = kept c (tell e c) refl refl refl refl (Mem-append tried_freed c.events (e ∷ [])) s.place;
  peers = s.peers;
  asked = s.asked;
  room = s.room;
  slots = s.slots;
}

verified-Loose :
    (c : ConnectReq) → Sound c → Loose (tell peer_verified (record c { proxy_req = false }))
verified-Loose c s = record {
  no_server_bev = s.no_server_bev;
  may_free = s.may_free;
  place =
      loosen c (tell peer_verified (record c { proxy_req = false })) refl refl refl
        (λ w. ground (arith, w)) (Mem-append tried_freed c.events (peer_verified ∷ [])) s.place;
  peers = λ w. ((s.peers w).0, refl);
  asked = λ w. cc;
  room = s.room;
  slots = s.slots;
}

replied_sound :
    (code : ℕ) (c : ConnectReq)
    → Loose c
    → c.server_req ≡ true
    → connect_exhausted c ≡ true
    → c.pending_bev ≡ false
    → Fine (some (tell (send_reply code) (tell closecb_cleared (record c { server_req = false }))))
unfolding Fine
replied_sound code c l there e p = inr (record {
  no_server_bev = l.no_server_bev;
  may_free = l.may_free;
  place = answered refl p (exhausted_means c e).1 (exhausted_means c e).0;
  peers = l.peers;
  asked = l.asked;
  room = l.room;
  slots = l.slots;
})

-- Either the browser has the peer's reply, or something else is at work for it.
unreplied-Sound : (c : ConnectReq) → Loose c → c.server_req && connect_exhausted c ≡ false → Sound c
unreplied-Sound c l e = placed-Sound c l (elim (Bool-cases c.server_req) [
  | inl there ↦
      let busy : connect_exhausted c ≡ false = ground (arith, there, e) in busy_place c busy l.place
  | inr gone ↦ gone_place c gone l.place
])

-- The test of the model, with what it says of the two operands.
both : (a b : Bool) → a && b ≡ true → (a ≡ true) × (b ≡ true)
both true true h = (refl, refl)
both true false h = cc
both false b h = cc

told_place : (e : Event) (c : ConnectReq) → LoosePlace c → LoosePlace (tell e c)
told_place e c (waiting r p b) = waiting r p b
told_place e c (placed p) =
    placed (kept c (tell e c) refl refl refl refl (Mem-append tried_freed c.events (e ∷ [])) p)
told_place e c (took r p t) =
    took r p (still-Tried c (tell e c) refl (Mem-append tried_freed c.events (e ∷ [])) t)

told-Loose : (e : Event) (c : ConnectReq) → Loose c → Loose (tell e c)
told-Loose e c l = record {
  no_server_bev = l.no_server_bev;
  may_free = l.may_free;
  place = told_place e c l.place;
  peers = l.peers;
  asked = l.asked;
  room = l.room;
  slots = l.slots;
}

signed_refusal-Fine : (code : ℕ) (c : ConnectReq) → Sound c → Fine (signed_refusal code c)
unfolding signed_refusal connect_exhausted Fine
signed_refusal-Fine code c s =
    let c1 = tell peer_verified (record c { proxy_req = false }) in
    let l : Loose c1 = verified-Loose c s in
    if_false Fine c.server_bev _ s.no_server_bev (
      if_intro (λ x. Fine (some x)) (c1.server_req && connect_exhausted c1)
        (λ e.
          let p : (c1.server_req ≡ true) × (connect_exhausted c1 ≡ true) =
            both c1.server_req (connect_exhausted c1) e in
          if_intro
            (λ (x : ConnectReq). Fine (
              some
                (tell (send_reply code) (tell closecb_cleared (record x { server_req = false })))))
            c1.local (λ _. replied_sound code c1 l p.0 p.1 (unanswered c s.place p.0).0)
            (λ _.
              replied_sound code (tell copied_signature c1) (told-Loose copied_signature c1 l) p.0
                p.1 (unanswered c s.place p.0).0))
        (λ e. inr (unreplied-Sound c1 l e)))

refusal-Fine :
    (code : ℕ) (msign : Option Bool) (c : ConnectReq) → Sound c → Fine (refusal code c msign)
unfolding Fine
refusal-Fine code none c s = inr s
refusal-Fine code (some false) c s = inr (told-Sound peer_unverified c s)
refusal-Fine code (some true) c s = signed_refusal-Fine code c s

pub unwaited : (c : ConnectReq) → Sound c → c.pc ≡ true → c.on_connect ≡ false
unwaited c s peer = elim (Bool-cases c.on_connect) [
  | inl waits_on ↦ let p = s.peers waits_on in let clash : true ≡ false = sym peer ∙ p.0 in cc
  | inr no_wait ↦ no_wait
]

-- One of the two that are at work has the browser's connection now.
detached :
    (c : ConnectReq) → Sound c → c.proxy_req ≡ true → c.pc ≡ true → Open (record c { pc = false })
detached c s working peer =
    let no_wait : c.on_connect ≡ false = unwaited c s peer in
    record {
      no_server_bev = s.no_server_bev;
      may_free = s.may_free;
      reached = not_answered c s.place (ground (arith, working));
      peers = λ w. (refl, (s.peers w).1);
      asked = s.asked;
      room = ground (arith, s.room, no_wait, peer);
      slots = s.slots;
    }

pub header_Fine :
    (code : ℕ) (msign : Option Bool) (other : Bufferevent) (c : ConnectReq)
    → Sound c
    → c.proxy_req ≡ true
    → c.pc ≡ true
    → Fine (connect_header_cb code msign other c)
unfolding connect_header_cb
header_Fine code msign other c s working peer =
    if_intro Fine (not (code == 200))
      (λ _.
        if_intro (λ x. Fine (refusal code x msign)) (code == 508)
          (λ _. refusal-Fine code msign (tell peer_is_loop c) (told-Sound peer_is_loop c s))
          (λ _. refusal-Fine code msign c s))
      (λ _. connected-Fine other (record c { pc = false }) (detached c s working peer))
