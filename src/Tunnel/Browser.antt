-- ===== src/Tunnel/Browser.antt =====
-- client.c: the callbacks of the browser's connection, and of those that are tried for it, keep the
-- invariant of an HTTP CONNECT.
use mathlib.Core.List.{Memᴰ}
use newnode.Prelude.{
  ℕ, zero, suc, ◌≤◌, ◌≡◌, ◌≢◌, ◌∙◌, refl, sym, ap, true, false, not, ◌&&◌, Option, none, some, List,
  [], ◌∷◌, ◌++◌, if◌then◌else◌, inl, inr, length, if_intro, if_false, Bool-cases, arith,
}
use newnode.Splice.{Bufferevent, Pair}
use newnode.Tunnel.{
  ConnectReq, Event, tried_freed, connect_aborted, no_bevs, connect_exhausted, tell,
  closecb_cleared, connect_server_read_cb, connect_server_event_cb, connect_evcon_close_cb, bev_at,
  set_bev, connect_other_read_cb, connect_other_event_cb, cancel_all, write_all, joined,
  other_answers, other_ends, cleared, free_others, connect_proxy_cancel, connect_direct_cancel,
}
use newnode.Tunnel.Calls.{Tried, Place, waits, taken, answered, Sound, Fine, count, server_received}
use newnode.Tunnel.Keeps.{Mem-append, still-Tried, cleanup_busy, cleanup_idle}
use newnode.Tunnel.Refusals.{kept, unwaited}
use newnode.Tunnel.Connects.{unanswered}

no_wait_left :
    (c : ConnectReq) → (c.pc ≡ true → c.on_connect ≡ false) → (cancel_all c).on_connect ≡ false
unfolding connect_direct_cancel connect_proxy_cancel
no_wait_left c free =
    if_intro (λ b. b ≡ false) (not c.pc) (λ _. refl) (λ e. free (ground (arith, e)))

idle_left :
    (c : ConnectReq)
    → (c.pc ≡ true → c.on_connect ≡ false)
    → no_bevs c.bevs ≡ true
    → connect_exhausted (cancel_all c) ≡ true
unfolding connect_exhausted connect_direct_cancel connect_proxy_cancel
idle_left c free b =
    if_false (λ x. x ≡ true) (if not c.pc then false else c.on_connect) _ (no_wait_left c free) b

pub closes_Fine : (c : ConnectReq) → Sound c → c.server_req ≡ true → Fine (connect_evcon_close_cb c)
unfolding connect_evcon_close_cb connect_direct_cancel connect_proxy_cancel
closes_Fine c s there =
    cleanup_idle _ s.may_free
      (idle_left (tell closecb_cleared (record c { server_req = false })) (unwaited c s)
        (unanswered c s.place there).1)
      refl s.no_server_bev

taken-Tried : (c : ConnectReq) → Place c → c.pending_bev ≡ true → Tried c
taken-Tried c (waits r p b w) pending = cc
taken-Tried c (taken r p t) pending = t
taken-Tried c (answered r p b w) pending = cc

cancel_log : (c : ConnectReq) → Memᴰ tried_freed c.events → Memᴰ tried_freed (cancel_all c).events
unfolding connect_direct_cancel connect_proxy_cancel
cancel_log c m =
    if_intro (λ es. Memᴰ tried_freed es) (not c.pc && c.on_connect)
      (λ _. Mem-append tried_freed c.events (connect_aborted ∷ []) m) (λ _. m)

cancelled-Sound :
    (c : ConnectReq) → Sound c → c.server_req ≡ false → c.pending_bev ≡ true → Sound (cancel_all c)
unfolding connect_direct_cancel connect_proxy_cancel
cancelled-Sound c s gone pending =
    let no_wait : (if not c.pc then false else c.on_connect) ≡ false =
      no_wait_left c (unwaited c s) in
    record {
      no_server_bev = s.no_server_bev;
      may_free = s.may_free;
      place =
          taken gone pending
            (still-Tried c (cancel_all c) refl (cancel_log c) (taken-Tried c s.place pending));
      peers = λ w. let clash : false ≡ true = sym (no_wait_left c (unwaited c s)) ∙ w in cc;
      asked = λ w. cc;
      room = ground (arith, s.room, no_wait);
      slots = s.slots;
    }

taken_gone : (c : ConnectReq) → Place c → c.pending_bev ≡ true → c.server_req ≡ false
taken_gone c (waits r p b w) pending = cc
taken_gone c (taken r p t) pending = r
taken_gone c (answered r p b w) pending = r

pub ends_Fine : (c : ConnectReq) → Sound c → c.pending_bev ≡ true → Fine (connect_server_event_cb c)
unfolding connect_server_event_cb connect_direct_cancel connect_proxy_cancel
ends_Fine c s pending =
    let gone = taken_gone c s.place pending in
    elim (Bool-cases (connect_exhausted (cancel_all c))) [
      | inl idle ↦ cleanup_idle (cancel_all c) s.may_free idle gone s.no_server_bev
      | inr busy ↦ cleanup_busy (cancel_all c) (cancelled-Sound c s gone pending) busy
    ]

count-write_all :
    (bytes : List ℕ) (bs : List (Option Bufferevent)) → count (write_all bytes bs) ≡ count bs
unfolding write_all
count-write_all bytes [] = refl
count-write_all bytes (none ∷ bs) = count-write_all bytes bs
count-write_all bytes (some b ∷ bs) = ap suc (count-write_all bytes bs)

length-write_all :
    (bytes : List ℕ) (bs : List (Option Bufferevent)) → length (write_all bytes bs) ≡ length bs
unfolding write_all
length-write_all bytes [] = refl
length-write_all bytes (none ∷ bs) = ap suc (length-write_all bytes bs)
length-write_all bytes (some b ∷ bs) = ap suc (length-write_all bytes bs)

no_bevs-write_all :
    (bytes : List ℕ) (bs : List (Option Bufferevent)) → no_bevs (write_all bytes bs) ≡ no_bevs bs
unfolding write_all no_bevs
no_bevs-write_all bytes [] = refl
no_bevs-write_all bytes (none ∷ bs) = no_bevs-write_all bytes bs
no_bevs-write_all bytes (some b ∷ bs) = refl

pub reads_Fine :
    (bytes : List ℕ) (c : ConnectReq)
    → Sound c
    → c.pending_bev ≡ true
    → Sound (connect_server_read_cb (server_received bytes c))
unfolding connect_server_read_cb
reads_Fine bytes c s pending =
    let sent = c.server.input ++ bytes in
    record {
      no_server_bev = s.no_server_bev;
      may_free = s.may_free;
      place = taken (taken_gone c s.place pending) pending (
          still-Tried c (connect_server_read_cb (server_received bytes c))
            (no_bevs-write_all sent c.bevs) (λ m. m) (taken-Tried c s.place pending));
      peers = s.peers;
      asked = s.asked;
      room = omega (arith, s.room, count-write_all sent c.bevs);
      slots = length-write_all sent c.bevs ∙ s.slots;
    }

no_slot : (bs : List (Option Bufferevent)) (i : ℕ) → no_bevs bs ≡ true → bev_at bs i ≡ none
unfolding no_bevs bev_at
no_slot [] i h = refl
no_slot (none ∷ bs) zero h = refl
no_slot (none ∷ bs) (suc i) h = no_slot bs i h
no_slot (some b ∷ bs) i h = cc

tried_pending :
    (c : ConnectReq) (i : ℕ)
    → Place c
    → bev_at c.bevs i ≢ none
    → (c.pending_bev ≡ true) × (c.server_req ≡ false)
tried_pending c i (waits r p b w) there = absurd (there (no_slot c.bevs i b))
tried_pending c i (taken r p t) there = (p, r)
tried_pending c i (answered r p b w) there = absurd (there (no_slot c.bevs i b))

count-set_bev : (bs : List (Option Bufferevent)) (i : ℕ) → count (set_bev bs i none) ≤ count bs
unfolding set_bev
count-set_bev [] i = omega arith
count-set_bev (none ∷ bs) zero = omega arith
count-set_bev (some b ∷ bs) zero = omega arith
count-set_bev (none ∷ bs) (suc i) = count-set_bev bs i
count-set_bev (some b ∷ bs) (suc i) = omega (arith, count-set_bev bs i)

length-set_bev :
    (bs : List (Option Bufferevent)) (i : ℕ) (v : Option Bufferevent)
    → length (set_bev bs i v) ≡ length bs
unfolding set_bev
length-set_bev [] i v = refl
length-set_bev (b ∷ bs) zero v = refl
length-set_bev (b ∷ bs) (suc i) v = ap suc (length-set_bev bs i v)

Mem-last : (e : Event) (xs : List Event) → Memᴰ e (xs ++ e ∷ [])
Mem-last e [] = Memᴰ.head refl
Mem-last e (x ∷ xs) = Memᴰ.tail (Mem-last e xs)

other_ends-Fine :
    (i : ℕ) (c : ConnectReq) (o : Option Bufferevent)
    → o ≢ none
    → Sound c
    → (c.pending_bev ≡ true) × (c.server_req ≡ false)
    → Fine (other_ends i c o)
unfolding Fine
other_ends-Fine i c none there s p = absurd (there refl)
other_ends-Fine i c (some bev) there s p = inr (record {
  no_server_bev = s.no_server_bev;
  may_free = s.may_free;
  place = taken p.1 p.0 (inr (Mem-last tried_freed c.events));
  peers = s.peers;
  asked = s.asked;
  room = omega (arith, s.room, count-set_bev c.bevs i);
  slots = length-set_bev c.bevs i none ∙ s.slots;
})

pub event_Fine :
    (i : ℕ) (c : ConnectReq) → Sound c → bev_at c.bevs i ≢ none → Fine (connect_other_event_cb i c)
unfolding connect_other_event_cb
event_Fine i c s there =
    other_ends-Fine i c (bev_at c.bevs i) there s (tried_pending c i s.place there)

no_bevs-cleared : (bs : List (Option Bufferevent)) → no_bevs (cleared bs) ≡ true
unfolding no_bevs
no_bevs-cleared [] = refl
no_bevs-cleared (b ∷ bs) = no_bevs-cleared bs

joined-Fine : (p : Pair) (o : Option ConnectReq) → Fine o → Fine (joined p o)
unfolding Fine
joined-Fine p none h = h
joined-Fine p (some c) (inl freed) = inl freed
joined-Fine p (some c) (inr s) = inr (record {
  no_server_bev = s.no_server_bev;
  may_free = s.may_free;
  place = kept c _ refl refl refl refl (λ m. m) s.place;
  peers = s.peers;
  asked = s.asked;
  room = s.room;
  slots = s.slots;
})

answers_Fine :
    (i : ℕ) (c : ConnectReq) (o : Option Bufferevent)
    → o ≢ none
    → Sound c
    → (c.pending_bev ≡ true) × (c.server_req ≡ false)
    → Fine (other_answers i c o)
unfolding connect_direct_cancel connect_proxy_cancel
answers_Fine i c none there s p = absurd (there refl)
answers_Fine i c (some bev) there s p = joined-Fine _ _ (
    cleanup_idle _ s.may_free
      (idle_left
        (record c {
          bevs = cleared c.bevs;
          pending_bev = false;
          events = c.events ++ free_others i 0 c.bevs;
        })
        (unwaited c s) (no_bevs-cleared c.bevs))
      p.1 s.no_server_bev)

pub joins_Fine :
    (i : ℕ) (c : ConnectReq) → Sound c → bev_at c.bevs i ≢ none → Fine (connect_other_read_cb i c)
unfolding connect_other_read_cb
joins_Fine i c s there =
    answers_Fine i c (bev_at c.bevs i) there s (tried_pending c i s.place there)
