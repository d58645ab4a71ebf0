-- ===== src/Tunnel/Keeps.antt =====
-- client.c: each callback of an HTTP CONNECT keeps its invariant.
use mathlib.Core.List.{Memᴰ}
use newnode.Prelude.{
  ◌>>=◌, ℕ, ◌+◌, ◌≤◌, ◌≡◌, ◌≢◌, ◌∙◌, refl, sym, ap, true, false, not, ◌||◌, if◌then◌else◌, inl, inr,
  List, [], ◌∷◌, ◌++◌, length, if_intro, if_true, if_false, Bool-cases, arith,
}
use newnode.Tunnel.{
  ConnectReq, Event, tried_freed, no_bevs, connect_exhausted, connect_cleanup, tell, bev_freed,
  connect_send_error,
}
use newnode.Tunnel.Answers.{
  HttpError, request_cancel, timeout, eof, invalid_header, buffer_error, data_too_long, error_code,
  error_reply, connect_error_cb,
}
use newnode.Tunnel.Calls.{at_work, Tried, Place, waits, taken, answered, Sound, Fine, count, one_if}

pub exhausted_busy : (c : ConnectReq) → at_work c ≡ true → connect_exhausted c ≡ false
unfolding connect_exhausted
exhausted_busy c e = rw e refl

pub exhausted_idle : (c : ConnectReq) → at_work c ≡ false → connect_exhausted c ≡ no_bevs c.bevs
unfolding connect_exhausted
exhausted_idle c e = rw e refl

pub cleanup_busy :
    (c : ConnectReq) → Sound c → connect_exhausted c ≡ false → Fine (connect_cleanup c)
unfolding connect_cleanup Fine
cleanup_busy c s e =
    let stays : c.dont_free || not (connect_exhausted c) ≡ true = ground (arith, e) in
    if_true Fine (c.dont_free || not (connect_exhausted c)) _ stays (inr s)

pub cleanup_idle :
    (c : ConnectReq)
    → c.dont_free ≡ false
    → connect_exhausted c ≡ true
    → c.server_req ≡ false
    → c.server_bev ≡ false
    → Fine (connect_cleanup c)
unfolding connect_cleanup Fine
cleanup_idle c free e no_req no_bev =
    let goes : c.dont_free || not (connect_exhausted c) ≡ false = ground (arith, free, e) in
    let none_waits : c.server_req || c.server_bev ≡ false = ground (arith, no_req, no_bev) in
    if_false Fine (c.dont_free || not (connect_exhausted c)) _ goes
      (if_false Fine (c.server_req || c.server_bev) _ none_waits (inl refl))

-- A request of which something that was at work may be gone.
pub data LoosePlace (c : ConnectReq) : Type 0 where
  waiting : c.server_req ≡ true → c.pending_bev ≡ false → no_bevs c.bevs ≡ true → LoosePlace c
  placed : Place c → LoosePlace c
  took : c.server_req ≡ false → c.pending_bev ≡ true → Tried c → LoosePlace c

pub record Loose (c : ConnectReq) : Type 0 where
  pub no_server_bev : c.server_bev ≡ false
  pub may_free : c.dont_free ≡ false
  pub place : LoosePlace c
  pub peers : c.on_connect ≡ true → (c.pc ≡ false) × (c.proxy_req ≡ false)
  pub asked : c.proxy_req ≡ true → c.requested ≡ true
  pub room : count c.bevs + one_if c.direct + one_if (c.on_connect || c.pc) ≤ 2
  pub slots : length c.bevs ≡ 10

pub placed-Sound : (c : ConnectReq) → Loose c → Place c → Sound c
placed-Sound c l p = record {
  no_server_bev = l.no_server_bev;
  may_free = l.may_free;
  place = p;
  peers = l.peers;
  asked = l.asked;
  room = l.room;
  slots = l.slots;
}

work_left :
    (c : ConnectReq) → connect_exhausted c ≡ false → no_bevs c.bevs ≡ true → at_work c ≡ true
work_left c e tried = elim (Bool-cases (at_work c)) [
  | inl busy ↦ busy
  | inr idle ↦ let clash : true ≡ false = sym tried ∙ (sym (exhausted_idle c idle) ∙ e) in cc
]

pub busy_place : (c : ConnectReq) → connect_exhausted c ≡ false → LoosePlace c → Place c
busy_place c e (waiting req no_pending none_tried) =
    waits req no_pending none_tried (work_left c e none_tried)
busy_place c e (placed p) = p
busy_place c e (took no_req pending tried) = taken no_req pending tried

send_busy :
    (code : ℕ) (c : ConnectReq)
    → connect_exhausted c ≡ false
    → Fine (connect_cleanup c)
    → Fine (connect_cleanup (connect_send_error code c))
unfolding connect_send_error
send_busy code c e h = if_false (λ x. Fine (connect_cleanup x)) (connect_exhausted c) _ e h

-- The browser gets the error, if it waits, and the request is freed.
send_idle :
    (code : ℕ) (c : ConnectReq)
    → c.dont_free ≡ false
    → c.server_bev ≡ false
    → connect_exhausted c ≡ true
    → Fine (connect_cleanup (connect_send_error code c))
unfolding connect_send_error connect_exhausted
send_idle code c free no_bev e =
    if_true (λ x. Fine (connect_cleanup x)) (connect_exhausted c) _ e
      (elim (Bool-cases c.server_req) [
        | inl there ↦
            if_true (λ x. Fine (connect_cleanup x)) c.server_req _ there
              (cleanup_idle _ free e refl no_bev)
        | inr gone ↦
            if_false (λ x. Fine (connect_cleanup x)) c.server_req _ gone
              (cleanup_idle c free e gone no_bev)
      ])

pub settle :
    (code : ℕ) (c : ConnectReq) → Loose c → Fine (connect_cleanup (connect_send_error code c))
settle code c l = elim (Bool-cases (connect_exhausted c)) [
  | inl idle ↦ send_idle code c l.may_free l.no_server_bev idle
  | inr busy ↦
      send_busy code c busy (cleanup_busy c (placed-Sound c l (busy_place c busy l.place)) busy)
]

-- The log only grows.
pub Mem-append : (e : Event) (xs ys : List Event) → Memᴰ e xs → Memᴰ e (xs ++ ys)
Mem-append e [] ys m = elim m [ ]
Mem-append e (x ∷ xs) ys (Memᴰ.head p) = Memᴰ.head p
Mem-append e (x ∷ xs) ys (Memᴰ.tail m) = Memᴰ.tail (Mem-append e xs ys m)

pub still-Tried :
    (c c' : ConnectReq)
    → no_bevs c'.bevs ≡ no_bevs c.bevs
    → (Memᴰ tried_freed c.events → Memᴰ tried_freed c'.events)
    → Tried c
    → Tried c'
still-Tried c c' bevs log (inl b) = inl (bevs ∙ b)
still-Tried c c' bevs log (inr m) = inr (log m)

-- Less is at work, and the rest is as before.
pub loosen :
    (c c' : ConnectReq)
    → c'.server_req ≡ c.server_req
    → c'.pending_bev ≡ c.pending_bev
    → c'.bevs ≡ c.bevs
    → (at_work c ≡ false → at_work c' ≡ false)
    → (Memᴰ tried_freed c.events → Memᴰ tried_freed c'.events)
    → Place c
    → LoosePlace c'
loosen c c' req pending bevs less log (waits r p b w) =
    waiting (req ∙ r) (pending ∙ p) (ap no_bevs bevs ∙ b)
loosen c c' req pending bevs less log (taken r p t) =
    took (req ∙ r) (pending ∙ p) (still-Tried c c' (ap no_bevs bevs) log t)
loosen c c' req pending bevs less log (answered r p b w) =
    placed (answered (req ∙ r) (pending ∙ p) (ap no_bevs bevs ∙ b) (less w))

-- A direct connection is gone, or a request to a peer.
pub direct_gone : (c : ConnectReq) → Sound c → Loose (tell bev_freed (record c { direct = false }))
direct_gone c s = record {
  no_server_bev = s.no_server_bev;
  may_free = s.may_free;
  place =
      loosen c (tell bev_freed (record c { direct = false })) refl refl refl
        (λ w. ground (arith, w)) (Mem-append tried_freed c.events (bev_freed ∷ [])) s.place;
  peers = s.peers;
  asked = s.asked;
  room = omega (arith, s.room);
  slots = s.slots;
}

pub peer_gone :
    (c : ConnectReq) → Sound c → Loose (record c { proxy_req = false; requested = false })
peer_gone c s = record {
  no_server_bev = s.no_server_bev;
  may_free = s.may_free;
  place =
      loosen c (record c { proxy_req = false; requested = false }) refl refl refl
        (λ w. ground (arith, w)) (λ m. m) s.place;
  peers = λ w. ((s.peers w).0, refl);
  asked = λ w. cc;
  room = s.room;
  slots = s.slots;
}

-- Without a request of the browser no error is sent.
pub settle_gone : (c : ConnectReq) → Loose c → c.server_req ≡ false → Fine (connect_cleanup c)
settle_gone c l gone = elim (Bool-cases (connect_exhausted c)) [
  | inl idle ↦ cleanup_idle c l.may_free idle gone l.no_server_bev
  | inr busy ↦ cleanup_busy c (placed-Sound c l (busy_place c busy l.place)) busy
]

send_keeps_bev : (code : ℕ) (c : ConnectReq) → (connect_send_error code c).server_bev ≡ c.server_bev
unfolding connect_send_error
send_keeps_bev code c =
    if_intro (λ (x : ConnectReq). x.server_bev ≡ c.server_bev) (connect_exhausted c)
      (λ _.
        if_intro (λ (x : ConnectReq). x.server_bev ≡ c.server_bev) c.server_req (λ _. refl)
          (λ _. refl))
      (λ _. refl)

error_sends :
    (e : HttpError) (c : ConnectReq)
    → e ≢ request_cancel
    → Loose c
    → Fine (connect_cleanup (error_code e c))
error_sends timeout c live l = settle 504 c l
error_sends eof c live l = settle 502 c l
error_sends invalid_header c live l = settle 502 c l
error_sends buffer_error c live l = settle 502 c l
error_sends request_cancel c live l = absurd (live refl)
error_sends data_too_long c live l = settle 502 c l

error_keeps_bev : (e : HttpError) (c : ConnectReq) → (error_code e c).server_bev ≡ c.server_bev
error_keeps_bev timeout c = send_keeps_bev 504 c
error_keeps_bev eof c = send_keeps_bev 502 c
error_keeps_bev invalid_header c = send_keeps_bev 502 c
error_keeps_bev buffer_error c = send_keeps_bev 502 c
error_keeps_bev request_cancel c = refl
error_keeps_bev data_too_long c = send_keeps_bev 502 c

error_settles :
    (e : HttpError) (c : ConnectReq)
    → e ≢ request_cancel
    → Loose c
    → Fine (connect_cleanup (if c.server_req then error_code e c else c))
error_settles e c live l =
    if_intro (λ x. Fine (connect_cleanup x)) c.server_req (λ _. error_sends e c live l)
      (λ gone. settle_gone c l gone)

error_no_bev :
    (e : HttpError) (c : ConnectReq)
    → c.server_bev ≡ false
    → (if c.server_req then error_code e c else c).server_bev ≡ false
error_no_bev e c h =
    if_intro (λ (x : ConnectReq). x.server_bev ≡ false) c.server_req (λ _. error_keeps_bev e c ∙ h)
      (λ _. h)

pub error_Fine :
    (e : HttpError) (c : ConnectReq) → e ≢ request_cancel → Sound c → Fine (connect_error_cb e c)
unfolding connect_error_cb
error_Fine e c live s =
    let c1 = record c { proxy_req = false; requested = false } in
    let x = if c1.server_req then error_code e c1 else c1 in
    if_false (λ o. Fine (o >>= connect_cleanup)) x.server_bev (error_reply e x)
      (error_no_bev e c1 s.no_server_bev) (error_settles e c1 live (peer_gone c s))
