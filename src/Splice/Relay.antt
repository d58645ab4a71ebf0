-- ===== src/Splice/Relay.antt =====
-- bev_splice.c: no byte is lost, repeated or reordered.
use mathlib.Core.Path.{subst}
use newnode.Prelude.{
  ℕ, ◌≡◌, ◌∙◌, refl, sym, ap, Bool, true, false, not, ◌&&◌, ◌||◌, List, [], ◌∷◌, ◌++◌, append_assoc,
  append-nil, arith, ◌==◌, if◌then◌else◌, if_intro, length,
}
use newnode.Splice.{
  Bufferevent, Pair, turned, bev_splice_shutdown_write, write_buffer, bev_splice_read_cb,
  bev_splice_write_cb, ended_read, ended_write, bev_splice_free_write_cb, ended_both,
  bev_splice_event_cb,
}

-- What was read is what was sent, what waits to be sent and what waits to be handed over.
abbrev pub Stream : Bufferevent → Bufferevent → Type 0
Stream from to = to.sent ++ (to.output ++ from.input) ≡ from.received

-- One that is not written any more has nothing to send; then, or once it is to be freed when its output
-- is sent, the other is not read any more and has nothing to hand over.
abbrev pub Shut : Bufferevent → Bufferevent → Type 0
Shut b other =
    (b.ev_write ≡ false → b.output ≡ [])
    × ((b.ev_write && not b.closing) ≡ false → other.input ≡ [])
    × ((b.ev_write && not b.closing) ≡ false → other.ev_read ≡ false)

-- The same for both directions.
pub record Relays (s : Pair) : Type 0 where
  pub there : Stream s.bev s.other
  pub back : Stream s.other s.bev
  pub shut_bev : Shut s.bev s.other
  pub shut_other : Shut s.other s.bev

abbrev pub sent_front : Pair → List ℕ → List ℕ → Pair
sent_front s front back = record s {
  bev = record (s.bev) { output = back; sent = s.bev.sent ++ front };
}

abbrev pub arrived : Pair → List ℕ → Pair
arrived s bytes = record s {
  bev = record (s.bev) { input = s.bev.input ++ bytes; received = s.bev.received ++ bytes };
}

-- What libevent does: it reads bytes where reading is enabled and calls the read callback, it sends the
-- first bytes of an output where writing is enabled and calls the write callback that is set when none is
-- left, and at the end of what it reads it disables reading and calls the event callback, each for either
-- of the two that is not freed.
pub data Step : Pair → Pair → Type 0 where
  arrives :
      (s : Pair) (bytes : List ℕ)
      → s.bev.ev_read ≡ true
      → s.bev.freed ≡ false
      → Step s (bev_splice_read_cb (arrived s bytes))
  sends :
      (s : Pair) (front back : List ℕ)
      → s.bev.ev_write ≡ true
      → s.bev.freed ≡ false
      → s.bev.closing ≡ false
      → s.bev.output ≡ front ++ back
      → Step s (
          if length back == 0
          then bev_splice_write_cb (sent_front s front back)
          else sent_front s front back)
  drains :
      (s : Pair) (front back : List ℕ)
      → s.bev.ev_write ≡ true
      → s.bev.freed ≡ false
      → s.bev.closing ≡ true
      → s.bev.output ≡ front ++ back
      → Step s (
          if length back == 0
          then record (sent_front s front back) {
            bev = bev_splice_free_write_cb ((sent_front s front back).bev);
          }
          else sent_front s front back)
  ends :
      (s : Pair)
      → s.bev.ev_read ≡ true
      → s.bev.freed ≡ false
      → Step s (bev_splice_event_cb false (record s { bev = record (s.bev) { ev_read = false } }))
  turns : (s s' : Pair) → Step (turned s) s' → Step s (turned s')

no_length : (xs : List ℕ) → (length xs == 0) ≡ true → xs ≡ []
no_length [] e = refl
no_length (x ∷ xs) e = absurd (ground (arith, e))

not_both : (a b : Bool) → a ≡ true → a ≡ false → ⊥
not_both a b t f = cc

-- Where the other is read, this one is written.
and_false : (a b : Bool) → a ≡ false → (a && b) ≡ false
and_false a b e = rw e refl

and_not : (a b : Bool) → b ≡ true → (a && not b) ≡ false
and_not a b e = ground arith

turned-Relays : (s : Pair) → Relays s → Relays (turned s)
turned-Relays s r = record {
  there = r.back;
  back = r.there;
  shut_bev = r.shut_other;
  shut_other = r.shut_bev;
}

write_buffer-Relays : (s : Pair) → Relays s → Relays (write_buffer s)
write_buffer-Relays s r = record {
  there = rw (append-nil (s.other.output ++ s.bev.input)) r.there;
  back = r.back;
  shut_bev = r.shut_bev;
  shut_other = (
    λ e. nothing (r.shut_other.0 e) (r.shut_other.1 (and_false _ _ e)),
    λ e. refl,
    r.shut_other.2,
  );
}
  where
    nothing : {xs ys : List ℕ} → xs ≡ [] → ys ≡ [] → xs ++ ys ≡ []
    nothing x y = rw (x, y) refl

read_cb-Relays : (s : Pair) → Relays s → Relays (bev_splice_read_cb s)
unfolding bev_splice_read_cb
read_cb-Relays s r =
    if_intro Relays (length s.other.output == 0) (λ e. write_buffer-Relays s r) (λ e. r)

read_cb_handed :
    (s : Pair)
    → (length (bev_splice_read_cb s).other.output == 0) ≡ true
    → (bev_splice_read_cb s).bev.input ≡ []
unfolding bev_splice_read_cb
read_cb_handed s =
    if_intro (λ (x : Pair). (length x.other.output == 0) ≡ true → x.bev.input ≡ [])
      (length s.other.output == 0) (λ e h. refl) (λ e h. absurd (not_both _ true h e))

shutdown_other :
    (s : Pair)
    → Relays s
    → ((length s.other.output == 0) ≡ true → s.bev.input ≡ [])
    → s.bev.ev_read ≡ false
    → Relays (record s { other = bev_splice_shutdown_write s.other })
unfolding bev_splice_shutdown_write
shutdown_other s r handed ended =
    if_intro (λ (b : Bufferevent). Relays (record s { other = b })) (length s.other.output == 0)
      (λ e. record {
        there = r.there;
        back = r.back;
        shut_bev = r.shut_bev;
        shut_other = (λ h. no_length s.other.output e, λ h. handed e, λ h. ended);
      })
      (λ e. r)

write_cb-Relays : (s : Pair) → Relays s → Relays (bev_splice_write_cb s)
unfolding bev_splice_write_cb
write_cb-Relays s r =
    let s1 = bev_splice_read_cb (turned s) in
    let r1 : Relays s1 = read_cb-Relays (turned s) (turned-Relays s r) in
    if_intro Relays (not s1.bev.ev_read)
      (λ e.
        turned-Relays (record s1 { other = bev_splice_shutdown_write s1.other })
          (shutdown_other s1 r1 (read_cb_handed (turned s)) (ground arith)))
      (λ e. turned-Relays s1 r1)

arrived-Relays :
    (s : Pair) (bytes : List ℕ) → s.bev.ev_read ≡ true → Relays s → Relays (arrived s bytes)
arrived-Relays s bytes reads r = record {
  there =
      ap (◌++◌ s.other.sent) (sym (append_assoc s.other.output s.bev.input bytes))
      ∙ sym (append_assoc s.other.sent (s.other.output ++ s.bev.input) bytes)
      ∙ ap (λ xs. xs ++ bytes) r.there;
  back = r.back;
  shut_bev = r.shut_bev;
  shut_other =
      (r.shut_other.0, λ e. absurd (not_both _ true reads (r.shut_other.2 e)), r.shut_other.2);
}

sent_front-Relays :
    (s : Pair) (front back : List ℕ)
    → s.bev.ev_write ≡ true
    → s.bev.output ≡ front ++ back
    → Relays s
    → Relays (sent_front s front back)
sent_front-Relays s front back writes e r = record {
  there = r.there;
  back =
      append_assoc s.bev.sent front (back ++ s.other.input)
      ∙ ap (◌++◌ s.bev.sent) (sym (append_assoc front back s.other.input))
      ∙ ap (λ xs. s.bev.sent ++ (xs ++ s.other.input)) (sym e)
      ∙ r.back;
  shut_bev = (λ h. absurd (not_both _ true writes h), r.shut_bev.1, r.shut_bev.2);
  shut_other = r.shut_other;
}

freed-Relays :
    (s : Pair)
    → (length s.bev.output == 0) ≡ true
    → s.other.input ≡ []
    → s.other.ev_read ≡ false
    → Relays s
    → Relays (record s { bev = bev_splice_free_write_cb s.bev })
unfolding bev_splice_free_write_cb
freed-Relays s none_left handed ended r = record {
  there = r.there;
  back = r.back;
  shut_bev = (λ h. no_length s.bev.output none_left, λ h. handed, λ h. ended);
  shut_other = r.shut_other;
}

-- What was read is handed over, and no more is read.
abbrev Ended : Pair → Type 0
Ended s = Relays s × (s.bev.input ≡ []) × (s.bev.ev_read ≡ false)

ended_read-Ended : (s : Pair) → s.bev.ev_read ≡ false → Relays s → Ended (ended_read s)
unfolding ended_read
ended_read-Ended s ended r =
    if_intro Ended (not s.bev.ev_read)
      (λ e.
        (shutdown_other (write_buffer s) (write_buffer-Relays s r) (λ h. refl) ended, refl, ended))
      (λ e. (r, absurd (reading s.bev.ev_read e ended), ended))
  where
    reading : (b : Bool) → not b ≡ false → b ≡ false → ⊥
    reading b e h = ground arith

-- Where it is not written, nothing waits for it: nothing is lost.
ended_write-Ended : (s : Pair) → Ended s → Ended (ended_write s)
unfolding ended_write
ended_write-Ended s (r, handed, ended) =
    if_intro Ended (not s.bev.ev_write)
      (λ e.
        let shut : s.bev.ev_write ≡ false = ground arith in
        (
          record {
            there = r.there;
            back =
                subst (λ xs. s.bev.sent ++ (xs ++ []) ≡ s.other.received) (r.shut_bev.0 shut)
                  (subst (λ xs. s.bev.sent ++ (s.bev.output ++ xs) ≡ s.other.received)
                    (r.shut_bev.1 (and_false _ _ shut)) r.back);
            shut_bev = (λ h. refl, λ h. refl, λ h. refl);
            shut_other = r.shut_other;
          },
          handed,
          ended,
        ))
      (λ e. (r, handed, ended))

ended_both-Relays : (s : Pair) → Ended s → Relays (ended_both s)
unfolding ended_both
ended_both-Relays s (r, handed, ended) =
    if_intro Relays (not (s.bev.ev_read || s.bev.ev_write))
      (λ e.
        if_intro
          (λ (b : Bufferevent).
            Relays (record { bev = record (s.bev) { freed = true }; other = b }))
          (length s.other.output == 0)
          (λ h. turned-Relays _ (
            freed-Relays (turned (record s { bev = record (s.bev) { freed = true } })) h handed
              ended
              (record {
                there = r.back;
                back = r.there;
                shut_bev = r.shut_other;
                shut_other = r.shut_bev;
              })))
          (λ h. record {
            there = r.there;
            back = r.back;
            shut_bev = r.shut_bev;
            shut_other = (r.shut_other.0, λ x. handed, λ x. ended);
          }))
      (λ e. r)

read_ended : (s : Pair) → Relays s → Relays (record s { bev = record (s.bev) { ev_read = false } })
read_ended s r = record {
  there = r.there;
  back = r.back;
  shut_bev = r.shut_bev;
  shut_other = (r.shut_other.0, r.shut_other.1, λ e. refl);
}

-- Each step of two joined connections whose sockets are written without an error, to their second end and
-- the frees after it, keeps that, for both directions, the bytes that were read are those that were sent,
-- then those that wait to be sent, then those that wait to be handed over, in order, and that nothing waits
-- for a connection that is not written any more.
pub Step-Relays : (s s' : Pair) → Step s s' → Relays s → Relays s'
unfolding bev_splice_event_cb
Step-Relays u u' (arrives s bytes reads live) r =
    read_cb-Relays (arrived s bytes) (arrived-Relays s bytes reads r)
Step-Relays u u' (sends s front back writes live running e) r =
    let moved = sent_front-Relays s front back writes e r in
    if_intro Relays (length back == 0) (λ h. write_cb-Relays (sent_front s front back) moved)
      (λ h. moved)
Step-Relays u u' (drains s front back writes live last e) r =
    let moved = sent_front-Relays s front back writes e r in
    let shut = and_not s.bev.ev_write s.bev.closing last in
    if_intro Relays (length back == 0)
      (λ h. freed-Relays (sent_front s front back) h (r.shut_bev.1 shut) (r.shut_bev.2 shut) moved)
      (λ h. moved)
Step-Relays u u' (ends s reads live) r =
    let t = record s { bev = record (s.bev) { ev_read = false } } in
    ended_both-Relays (ended_write (ended_read t))
      (ended_write-Ended (ended_read t) (ended_read-Ended t refl (read_ended s r)))
Step-Relays u u' (turns s t step) r =
    turned-Relays t (Step-Relays (turned s) t step (turned-Relays s r))
