-- ===== src/Tunnel/Failures.antt =====
-- client.c: each failure of what is at work for a CONNECT leaves less to come, and the browser is answered
-- when it is let go.
use newnode.Prelude.{
  ◌>>=◌, ℕ, ◌+◌, ◌*◌, ◌-◌, ◌<◌, ◌≡◌, ◌∙◌, refl, sym, ap, Bool, true, false, not, ◌&&◌, ◌||◌, Option,
  none, some, List, [], ◌∷◌, ◌++◌, ltb, ◌==◌, if◌then◌else◌, inl, inr, if_intro, if_true, ltb→lt,
  Bool-cases, arith,
}
use newnode.Splice.{Bufferevent}
use newnode.Tunnel.{
  ConnectReq, Event, send_error, send_reply, peer_verified, peer_unverified, peer_is_loop,
  copied_signature, closecb_cleared, connect_exhausted, connect_cleanup, connect_send_error,
  connect_socks_reply, tell, bev_freed, peer_reused,
}
use newnode.Tunnel.Answers.{
  finish, signed_refusal, refusal, socks_code, connect_header_cb, HttpError, timeout, eof,
  invalid_header, buffer_error, request_cancel, data_too_long, error_code, error_reply, timed_out,
  is_connected, failed, connect_peer, peer_connected, connect_invalid_reply, connect_done_cb,
  connect_error_cb, connect_direct_event_cb, direct_code,
}
use newnode.Tunnel.Calls.{
  Callback, peer_ready, closes, server_ends, header, done, error, direct_event, server_reads,
  tried_answers, tried_ends, call, Due, one_if,
}

-- The callbacks of a failure, and the wait for a connection to a peer.
unfoldable pub Fails : Callback → Type 0
Fails peer_ready = Unit
Fails (done ready) = Unit
Fails (error e) = Unit
Fails (direct_event timed_out other) = Unit
Fails (direct_event (failed e) other) = Unit
Fails _ = ⊥

is_reply : Event → Bool
is_reply (send_error code) = true
is_reply (send_reply code) = true
is_reply _ = false

-- Whether the browser was answered.
unfoldable pub replied : List Event → Bool
unfolding is_reply
replied [] = false
replied (e ∷ es) = is_reply e || replied es

replied_more : (es fs : List Event) → replied es ≡ true → replied (es ++ fs) ≡ true
unfolding replied
replied_more [] fs h = cc
replied_more (e ∷ es) fs h = elim (Bool-cases (is_reply e)) [
  | inl y ↦ ground (arith, y)
  | inr n ↦ ground (arith, n, replied_more es fs (ground (arith, n, h)))
]

replied_end : (es fs : List Event) → replied fs ≡ true → replied (es ++ fs) ≡ true
unfolding replied
replied_end [] fs h = h
replied_end (e ∷ es) fs h = ground (arith, replied_end es fs h)

-- What bounds the number of failures that are to come.
abbrev pub measure : ConnectReq → ℕ
measure c = 3 * (10 - c.attempts) + one_if c.direct + 2 * one_if c.on_connect + one_if c.requested

pub record Less (m : ℕ) (c : ConnectReq) : Type 0 where
  pub less : measure c < m
  pub told : c.server_req ≡ false → replied c.events ≡ true
  pub freed_last : c.freed ≡ true → c.server_req ≡ false

unfoldable pub LessOr : ℕ → Option ConnectReq → Type 0
LessOr m none = Unit
LessOr m (some c) = Less m c

bind_Less :
    (m : ℕ) (o : Option ConnectReq) (f : ConnectReq → Option ConnectReq)
    → LessOr m o
    → ((c : ConnectReq) → Less m c → LessOr m (f c))
    → LessOr m (o >>= f)
unfolding LessOr
bind_Less m none f h k = tt
bind_Less m (some c) f h k = k c h

cleanup_Less : (m : ℕ) (c : ConnectReq) → Less m c → LessOr m (connect_cleanup c)
unfolding connect_cleanup LessOr
cleanup_Less m c l =
    if_intro (LessOr m) (c.dont_free || not (connect_exhausted c)) (λ _. l)
      (λ _.
        if_intro (LessOr m) (c.server_req || c.server_bev) (λ _. tt)
          (λ e. record {
            less = omega (arith, l.less);
            told = λ gone. replied_more c.events _ (l.told gone);
            freed_last = λ _. ground (arith, e);
          }))

sends_error : (code : ℕ) (es : List Event) → replied (es ++ send_error code ∷ []) ≡ true
unfolding replied is_reply
sends_error code es = replied_end es (send_error code ∷ []) refl

send_Less : (m code : ℕ) (c : ConnectReq) → Less m c → Less m (connect_send_error code c)
unfolding connect_send_error
send_Less m code c l =
    if_intro (Less m) (connect_exhausted c)
      (λ _.
        if_intro (Less m) c.server_req
          (λ _. record {
            less = l.less;
            told = λ _. replied_end c.events _ (sends_error code _);
            freed_last = λ _. refl;
          })
          (λ _. l))
      (λ _. l)

socks_Less : (m resp : ℕ) (c : ConnectReq) → Less m c → LessOr m (connect_socks_reply resp c)
unfolding connect_socks_reply LessOr
socks_Less m resp c l =
    if_intro (LessOr m) (connect_exhausted c)
      (λ _.
        if_intro (LessOr m) c.server_bev
          (λ _. record {
            less = l.less;
            told = λ gone. replied_more c.events _ (l.told gone);
            freed_last = l.freed_last;
          })
          (λ _. tt))
      (λ _. l)

done_Less : (m : ℕ) (c : ConnectReq) → Less m c → LessOr m (finish c)
unfolding finish LessOr
done_Less m c l =
    bind_Less m _ connect_cleanup
      (if_intro (LessOr m) (connect_exhausted c)
        (λ _.
          if_intro (LessOr m) c.server_bev
            (λ _.
              socks_Less m 0x04 _
                (if_intro (Less m) c.server_req (λ _. send_Less m 523 c l) (λ _. l)))
            (λ _. if_intro (Less m) c.server_req (λ _. send_Less m 523 c l) (λ _. l)))
        (λ _. l))
      (cleanup_Less m)

code_Less : (m : ℕ) (e : HttpError) (c : ConnectReq) → Less m c → Less m (error_code e c)
code_Less m timeout c l = send_Less m 504 c l
code_Less m eof c l = send_Less m 502 c l
code_Less m invalid_header c l = send_Less m 502 c l
code_Less m buffer_error c l = send_Less m 502 c l
code_Less m request_cancel c l = l
code_Less m data_too_long c l = send_Less m 502 c l

reply_Less : (m : ℕ) (e : HttpError) (c : ConnectReq) → Less m c → LessOr m (error_reply e c)
unfolding LessOr
reply_Less m timeout c l = socks_Less m 0x06 c l
reply_Less m eof c l = socks_Less m 0x01 c l
reply_Less m invalid_header c l = socks_Less m 0x01 c l
reply_Less m buffer_error c l = socks_Less m 0x01 c l
reply_Less m request_cancel c l = l
reply_Less m data_too_long c l = socks_Less m 0x01 c l

-- What a state must have had before a callback of a failure.
pub record Waiting (c : ConnectReq) : Type 0 where
  pub told : c.server_req ≡ false → replied c.events ≡ true
  pub live : c.freed ≡ false

error_Less :
    (e : HttpError) (c : ConnectReq)
    → Waiting c
    → c.requested ≡ true
    → LessOr (measure c) (connect_error_cb e c)
unfolding connect_error_cb LessOr
error_Less e c w there =
    let l : Less (measure c) (record c { proxy_req = false; requested = false }) = record {
      less = ground (arith, there);
      told = w.told;
      freed_last = λ f. let clash : false ≡ true = sym w.live ∙ f in cc;
    } in
    let c1 = record c { proxy_req = false; requested = false } in
    let c2 = if c1.server_req then error_code e c1 else c1 in
    let l2 : Less (measure c) c2 =
      if_intro (Less (measure c)) c.server_req (λ _. code_Less (measure c) e _ l) (λ _. l) in
    bind_Less (measure c) _ connect_cleanup
      (if_intro (LessOr (measure c)) c2.server_bev {x = error_reply e c2} {y = some c2}
        (λ _. reply_Less (measure c) e _ l2) (λ _. l2))
      (cleanup_Less (measure c))

direct_lost :
    (c : ConnectReq)
    → Waiting c
    → c.direct ≡ true
    → Less (measure c) (tell bev_freed (record c { direct = false }))
direct_lost c w there = record {
  less = ground (arith, there);
  told = λ gone. replied_more c.events _ (w.told gone);
  freed_last = λ f. let clash : false ≡ true = sym w.live ∙ f in cc;
}

ready_Less :
    (c : ConnectReq)
    → Waiting c
    → c.on_connect ≡ true
    → LessOr (measure c) (peer_connected (record c { on_connect = false }))
unfolding peer_connected LessOr
ready_Less c w there =
    if_intro (LessOr (measure c)) (c.pc || c.proxy_req) (λ _. tt)
      (λ _. record {
        less = ground (arith, there);
        told = w.told;
        freed_last = λ f. let clash : false ≡ true = sym w.live ∙ f in cc;
      })

peer_Less :
    (m : ℕ) (ready preference : Bool) (c : ConnectReq)
    → Less m c
    → measure c + 2 < m
    → LessOr m (connect_peer ready preference c)
unfolding connect_peer peer_connected LessOr
peer_Less m ready preference c l room =
    if_intro (LessOr m) (c.pc || (c.on_connect || c.proxy_req)) (λ _. tt)
      (λ _.
        if_intro (LessOr m) ready
          (λ _.
            if_intro (LessOr m) (c.pc || (c.on_connect || c.proxy_req)) (λ _. tt)
              (λ _. record {
                less = omega (arith, room);
                told = λ gone. replied_more c.events _ (l.told gone);
                freed_last = l.freed_last;
              }))
          (λ _. record {
            less = omega (arith, room);
            told = λ gone. replied_more c.events _ (l.told gone);
            freed_last = l.freed_last;
          }))

invalid_Less :
    (m : ℕ) (ready : Bool) (c : ConnectReq)
    → Less m c
    → measure c < m
    → LessOr m (connect_invalid_reply ready c)
unfolding connect_invalid_reply LessOr
invalid_Less m ready c l room =
    let c1 = record c { attempts = c.attempts + 1 } in
    let l1 : Less m c1 = record {
      less = omega (arith, room);
      told = l.told;
      freed_last = l.freed_last;
    } in
    if_intro (LessOr m) (ltb c1.attempts 10)
      (λ few. peer_Less m ready true c1 l1 (omega (arith, room, ltb→lt c1.attempts 10 few)))
      (λ _. l1)

done_cb_Less :
    (ready : Bool) (c : ConnectReq)
    → Waiting c
    → c.requested ≡ true
    → LessOr (measure c) (connect_done_cb ready c)
unfolding connect_done_cb LessOr
done_cb_Less ready c w there =
    let c1 = record c { proxy_req = false; requested = false } in
    let l : Less (measure c) c1 = record {
      less = ground (arith, there);
      told = w.told;
      freed_last = λ f. let clash : false ≡ true = sym w.live ∙ f in cc;
    } in
    let l2 : Less (measure c) (tell peer_reused (record c1 { pc = false })) = record {
      less = l.less;
      told = λ gone. replied_more c.events _ (l.told gone);
      freed_last = l.freed_last;
    } in
    bind_Less (measure c) _ finish
      (if_intro (LessOr (measure c)) (not c.direct && (c.server_req || c.server_bev))
        (λ _.
          if_intro (λ x. LessOr (measure c) (connect_invalid_reply ready x)) c.pc
            (λ _. invalid_Less (measure c) ready _ l2 l.less)
            (λ _. invalid_Less (measure c) ready _ l l.less))
        (λ _. l))
      (done_Less (measure c))

pub call_Less :
    (cb : Callback) (c : ConnectReq)
    → Waiting c
    → Due cb c
    → Fails cb
    → LessOr (measure c) (call cb c)
unfolding call Due Fails connect_direct_event_cb connect_cleanup
call_Less peer_ready c w due f = ready_Less c w due
call_Less closes c w due f = absurd f
call_Less server_ends c w due f = absurd f
call_Less (header code msign other) c w due f = absurd f
call_Less (done ready) c w due f = done_cb_Less ready c w due.0
call_Less (error e) c w due f = error_Less e c w due.0
call_Less (direct_event timed_out other) c w due f =
    cleanup_Less _ _ (send_Less _ 504 _ (direct_lost c w due))
call_Less (direct_event (failed err) other) c w due f =
    cleanup_Less _ _ (send_Less _ (direct_code err) _ (direct_lost c w due))
call_Less (direct_event is_connected other) c w due f = absurd f
call_Less (server_reads bytes) c w due f = absurd f
call_Less (tried_answers i) c w due f = absurd f
call_Less (tried_ends i) c w due f = absurd f

told_Less : (m : ℕ) (e : Event) (c : ConnectReq) → Less m c → Less m (tell e c)
told_Less m e c l = record {
  less = l.less;
  told = λ gone. replied_more c.events _ (l.told gone);
  freed_last = l.freed_last;
}

replies : (code : ℕ) (es : List Event) → replied (es ++ send_reply code ∷ []) ≡ true
unfolding replied is_reply
replies code es = replied_end es (send_reply code ∷ []) refl

signed_Less : (m code : ℕ) (c : ConnectReq) → Less m c → LessOr m (signed_refusal code c)
unfolding signed_refusal LessOr
signed_Less m code c l =
    let c1 = tell peer_verified (record c { proxy_req = false }) in
    let l1 : Less m c1 = record {
      less = l.less;
      told = λ gone. replied_more c.events _ (l.told gone);
      freed_last = l.freed_last;
    } in
    let c2 = if c1.local then c1 else tell copied_signature c1 in
    let less : measure c2 < m =
      if_intro (λ (x : ConnectReq). measure x < m) c1.local (λ _. l.less) (λ _. l.less) in
    let c3 =
      if c1.server_req && connect_exhausted c1
      then tell (send_reply code) (tell closecb_cleared (record c2 { server_req = false }))
      else c1 in
    let l3 : Less m c3 =
      if_intro (Less m) (c1.server_req && connect_exhausted c1)
        (λ _. record { less = less; told = λ _. replies code _; freed_last = λ _. refl })
        (λ _. l1) in
    if_intro (LessOr m) c.server_bev (λ _. socks_Less m (socks_code code) c3 l3) (λ _. l3)

refusal-Less :
    (m code : ℕ) (msign : Option Bool) (c : ConnectReq) → Less m c → LessOr m (refusal code c msign)
unfolding LessOr
refusal-Less m code none c l = l
refusal-Less m code (some false) c l = told_Less m peer_unverified c l
refusal-Less m code (some true) c l = signed_Less m code c l

pub header_Less :
    (m code : ℕ) (msign : Option Bool) (other : Bufferevent) (c : ConnectReq)
    → Less m c
    → (code == 200) ≡ false
    → LessOr m (connect_header_cb code msign other c)
unfolding connect_header_cb
header_Less m code msign other c l refused =
    if_true (LessOr m) (not (code == 200)) _ (ap not refused) (
      if_intro (λ x. LessOr m (refusal code x msign)) (code == 508)
        (λ _. refusal-Less m code msign (tell peer_is_loop c) (told_Less m peer_is_loop c l))
        (λ _. refusal-Less m code msign c l))
