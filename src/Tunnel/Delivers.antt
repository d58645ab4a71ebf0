-- ===== src/Tunnel/Delivers.antt =====
-- client.c: what the browser has sent through a CONNECT is, for each connection that is tried, sent or in
-- its output; the functions of a connect_req keep this.
use newnode.Prelude.{
  ◌>>=◌, ℕ, ◌+◌, ◌≡◌, Bool, true, false, not, ◌&&◌, ◌||◌, Option, none, some, List, [], ◌∷◌, ◌++◌,
  ltb, if◌then◌else◌, if_intro,
}
use newnode.Splice.{Bufferevent, Pair}
use newnode.Splice.Relay.{Stream}
use newnode.Tunnel.{
  ConnectReq, tell, closecb_cleared, send_reply, peer_verified, copied_signature, connect_exhausted,
  connect_cleanup, connect_send_error, connect_socks_reply, connect_proxy_cancel,
  connect_direct_cancel, cancel_all, or_nothing,
}
use newnode.Tunnel.Answers.{
  finish, HttpError, timeout, eof, invalid_header, buffer_error, request_cancel, data_too_long,
  error_code, error_reply, connect_peer, peer_connected, connect_invalid_reply, connect_done_cb,
  connect_error_cb, signed_refusal, refusal, socks_code,
}

-- The bytes that each connection was given.
unfoldable pub AllGiven : List ℕ → List (Option Bufferevent) → Type 0
AllGiven bytes [] = Unit
AllGiven bytes (none ∷ bs) = AllGiven bytes bs
AllGiven bytes (some b ∷ bs) = (b.sent ++ b.output ≡ bytes) × AllGiven bytes bs

pub record Carries (server : Bufferevent) (intro : Option (List ℕ))
    (bevs : List (Option Bufferevent)) : Type 0 where
  pub whole : or_nothing intro ++ server.input ≡ server.received
  pub early : intro ≡ none → server.input ≡ []
  pub given : AllGiven (or_nothing intro) bevs

unfoldable pub Streams : Option Pair → Type 0
Streams none = Unit
Streams (some p) = Stream p.bev p.other

-- Nothing is lost of what the browser sent, while connections are tried and when it is joined to one.
unfoldable pub Delivers : ConnectReq → Type 0
Delivers c = Streams c.spliced × (c.freed ≡ false → Carries c.server c.intro_data c.bevs)

unfoldable pub DeliversOr : Option ConnectReq → Type 0
DeliversOr none = Unit
DeliversOr (some c) = Delivers c

pub bind_Delivers :
    (o : Option ConnectReq) (f : ConnectReq → Option ConnectReq)
    → DeliversOr o
    → ((c : ConnectReq) → Delivers c → DeliversOr (f c))
    → DeliversOr (o >>= f)
unfolding DeliversOr
bind_Delivers none f h k = tt
bind_Delivers (some c) f h k = k c h

pub cleanup_Delivers : (c : ConnectReq) → Delivers c → DeliversOr (connect_cleanup c)
unfolding connect_cleanup DeliversOr Delivers
cleanup_Delivers c d =
    if_intro DeliversOr (c.dont_free || not (connect_exhausted c)) (λ _. d)
      (λ _. if_intro DeliversOr (c.server_req || c.server_bev) (λ _. tt) (λ _. (d.0, λ f. cc)))

pub send_Delivers : (code : ℕ) (c : ConnectReq) → Delivers c → Delivers (connect_send_error code c)
unfolding connect_send_error Delivers
send_Delivers code c d =
    if_intro Delivers (connect_exhausted c) (λ _. if_intro Delivers c.server_req (λ _. d) (λ _. d))
      (λ _. d)

socks_Delivers : (resp : ℕ) (c : ConnectReq) → Delivers c → DeliversOr (connect_socks_reply resp c)
unfolding connect_socks_reply DeliversOr Delivers
socks_Delivers resp c d =
    if_intro DeliversOr (connect_exhausted c)
      (λ _. if_intro DeliversOr c.server_bev (λ _. d) (λ _. tt)) (λ _. d)

done_Delivers : (c : ConnectReq) → Delivers c → DeliversOr (finish c)
unfolding finish DeliversOr
done_Delivers c d =
    let told = if_intro Delivers c.server_req (λ _. send_Delivers 523 c d) (λ _. d) in
    bind_Delivers _ connect_cleanup
      (if_intro DeliversOr (connect_exhausted c)
        (λ _. if_intro DeliversOr c.server_bev (λ _. socks_Delivers 0x04 _ told) (λ _. told))
        (λ _. d))
      cleanup_Delivers

code_Delivers : (e : HttpError) (c : ConnectReq) → Delivers c → Delivers (error_code e c)
code_Delivers timeout c d = send_Delivers 504 c d
code_Delivers eof c d = send_Delivers 502 c d
code_Delivers invalid_header c d = send_Delivers 502 c d
code_Delivers buffer_error c d = send_Delivers 502 c d
code_Delivers request_cancel c d = d
code_Delivers data_too_long c d = send_Delivers 502 c d

reply_Delivers : (e : HttpError) (c : ConnectReq) → Delivers c → DeliversOr (error_reply e c)
unfolding DeliversOr
reply_Delivers timeout c d = socks_Delivers 0x06 c d
reply_Delivers eof c d = socks_Delivers 0x01 c d
reply_Delivers invalid_header c d = socks_Delivers 0x01 c d
reply_Delivers buffer_error c d = socks_Delivers 0x01 c d
reply_Delivers request_cancel c d = d
reply_Delivers data_too_long c d = socks_Delivers 0x01 c d

pub error_Delivers :
    (e : HttpError) (c : ConnectReq) → Delivers c → DeliversOr (connect_error_cb e c)
unfolding connect_error_cb DeliversOr Delivers
error_Delivers e c d =
    let c1 = record c { proxy_req = false; requested = false } in
    let c2 = if c1.server_req then error_code e c1 else c1 in
    let d2 : Delivers c2 = if_intro Delivers c.server_req (λ _. code_Delivers e c1 d) (λ _. d) in
    bind_Delivers _ connect_cleanup
      (if_intro DeliversOr c2.server_bev {x = error_reply e c2} {y = some c2}
        (λ _. reply_Delivers e c2 d2) (λ _. d2))
      cleanup_Delivers

peer_Delivers :
    (ready preference : Bool) (c : ConnectReq)
    → Delivers c
    → DeliversOr (connect_peer ready preference c)
unfolding connect_peer peer_connected DeliversOr Delivers
peer_Delivers ready preference c d =
    if_intro DeliversOr (c.pc || (c.on_connect || c.proxy_req)) (λ _. tt)
      (λ _.
        if_intro DeliversOr ready
          (λ _. if_intro DeliversOr (c.pc || (c.on_connect || c.proxy_req)) (λ _. tt) (λ _. d))
          (λ _. d))

pub ready_Delivers : (c : ConnectReq) → Delivers c → DeliversOr (peer_connected c)
unfolding peer_connected DeliversOr Delivers
ready_Delivers c d = if_intro DeliversOr (c.pc || (c.on_connect || c.proxy_req)) (λ _. tt) (λ _. d)

invalid_Delivers :
    (ready : Bool) (c : ConnectReq) → Delivers c → DeliversOr (connect_invalid_reply ready c)
unfolding connect_invalid_reply DeliversOr Delivers
invalid_Delivers ready c d =
    if_intro DeliversOr (ltb (c.attempts + 1) 10) (λ _. peer_Delivers ready true _ d) (λ _. d)

pub done_cb_Delivers :
    (ready : Bool) (c : ConnectReq) → Delivers c → DeliversOr (connect_done_cb ready c)
unfolding connect_done_cb DeliversOr Delivers
done_cb_Delivers ready c d =
    bind_Delivers _ finish
      (if_intro DeliversOr (not c.direct && (c.server_req || c.server_bev))
        (λ _.
          if_intro (λ x. DeliversOr (connect_invalid_reply ready x)) c.pc
            (λ _. invalid_Delivers ready _ d) (λ _. invalid_Delivers ready _ d))
        (λ _. d))
      done_Delivers

signed_Delivers : (code : ℕ) (c : ConnectReq) → Delivers c → DeliversOr (signed_refusal code c)
unfolding signed_refusal DeliversOr Delivers
signed_Delivers code c d =
    let c1 = tell peer_verified (record c { proxy_req = false }) in
    let c2 = if c1.local then c1 else tell copied_signature c1 in
    let c3 =
      if c1.server_req && connect_exhausted c1
      then tell (send_reply code) (tell closecb_cleared (record c2 { server_req = false }))
      else c1 in
    let d2 : Delivers c2 = if_intro Delivers c1.local (λ _. d) (λ _. d) in
    let d3 : Delivers c3 =
      if_intro Delivers (c1.server_req && connect_exhausted c1) (λ _. d2) (λ _. d) in
    if_intro DeliversOr c.server_bev (λ _. socks_Delivers (socks_code code) c3 d3) (λ _. d3)

pub refusal-Delivers :
    (code : ℕ) (msign : Option Bool) (c : ConnectReq)
    → Delivers c
    → DeliversOr (refusal code c msign)
unfolding DeliversOr Delivers
refusal-Delivers code none c d = d
refusal-Delivers code (some false) c d = d
refusal-Delivers code (some true) c d = signed_Delivers code c d

pub cancel_Delivers : (c : ConnectReq) → Delivers c → DeliversOr (connect_cleanup (cancel_all c))
unfolding connect_direct_cancel connect_proxy_cancel Delivers
cancel_Delivers c d = cleanup_Delivers (cancel_all c) d
