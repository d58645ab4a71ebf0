-- ===== src/Tunnel/Answers.antt =====
-- client.c: what a connect_req makes of a connection, and of the answers of a peer.
use newnode.Prelude.{
  ◌>>=◌, ℕ, ◌+◌, Bool, true, false, not, ◌&&◌, ◌||◌, Option, none, some, List, [], ◌∷◌, ◌++◌, ltb,
  ◌==◌, if◌then◌else◌, ◌⊎◌, inl, inr,
}
use newnode.Base64.{codes}
use newnode.Socks.{socks_reply}
use newnode.Splice.{Bufferevent}
use newnode.Tunnel.{
  ConnectReq, send_reply, closecb_cleared, copied_signature, peer_reused, peer_verified,
  peer_unverified, peer_is_loop, more_injectors, bev_freed, tell, connect_exhausted,
  connect_socks_reply, connect_send_error, connect_cleanup, enable, write,
}

-- What EVHTTP tells an error callback.
pub data HttpError : Type 0 where
  timeout eof invalid_header buffer_error request_cancel data_too_long : HttpError

-- The events of a connection that the callbacks tell apart, and the errors of a socket.
pub data Errno : Type 0 where
  enetunreach ehostunreach econnrefused etimedout other_error : Errno

pub data Outcome : Type 0 where
  timed_out is_connected : Outcome
  failed : Errno → Outcome

-- The first free slot; `none` if there is none, where the assertion fails.
unfoldable pub put_bev :
    Bufferevent → List (Option Bufferevent) → Option (List (Option Bufferevent))
put_bev b [] = none
put_bev b (none ∷ bs) = some (some b ∷ bs)
put_bev b (some a ∷ bs) = put_bev b bs >>= λ rest. some (some a ∷ rest)

abbrev pub in_slot : ConnectReq → Option (List (Option Bufferevent)) → Option ConnectReq
in_slot c none = none
in_slot c (some bevs) = some (record c { bevs = bevs })

-- From the test of `intro_data` on, with what the browser is told.
abbrev pub introduced : List ℕ → ConnectReq → Bufferevent → Option (List ℕ) → Option ConnectReq
introduced greeting c other (some intro) = in_slot c (put_bev (write intro other) c.bevs)
introduced greeting c other none =
    in_slot
      (record c {
        intro_data = some c.server.input;
        server = write greeting (record (c.server) { input = [] });
      })
      (put_bev other c.bevs)

abbrev pub established : List ℕ
established = codes "HTTP/1.0 200 Connection established" ++ (13 ∷ 10 ∷ 13 ∷ 10 ∷ [])

unfoldable pub connected : Bufferevent → ConnectReq → Option ConnectReq
connected other c =
    let c1 = record c { pending_bev = true; server = enable c.server } in
    if c.server_req
    then introduced established (tell closecb_cleared (record c1 { server_req = false }))
        (enable other) c.intro_data
    else if c.server_bev || c.pending_bev
    then introduced (socks_reply 0x00) (record c1 { server_bev = false }) (enable other)
        c.intro_data
    else none

-- The block of connect_peer, which gets a connection to a peer.
unfoldable pub peer_connected : ConnectReq → Option ConnectReq
peer_connected c =
    if c.pc || (c.on_connect || c.proxy_req)
    then none
    else some (record c { pc = true; proxy_req = true; requested = true })

-- `ready` says that queue_request finds a connection at once.
unfoldable pub connect_peer : Bool → Bool → ConnectReq → Option ConnectReq
connect_peer ready injector_preference c =
    let c1 = tell more_injectors c in
    if c.pc || (c.on_connect || c.proxy_req)
    then none
    else if ready
    then peer_connected c1
    else some (record c1 { on_connect = true })

unfoldable pub connect_invalid_reply : Bool → ConnectReq → Option ConnectReq
connect_invalid_reply ready c =
    let c1 = record c { attempts = c.attempts + 1 } in
    if ltb c1.attempts 10 then connect_peer ready true c1 else some c1

-- The end of connect_done_cb.
unfoldable pub finish : ConnectReq → Option ConnectReq
finish c =
    let c1 = if c.server_req then connect_send_error 523 c else c in
    (if connect_exhausted c
      then if c.server_bev then connect_socks_reply 0x04 c1 else some c1
      else some c)
    >>= connect_cleanup

unfoldable pub connect_done_cb : Bool → ConnectReq → Option ConnectReq
connect_done_cb ready c =
    let c1 = record c { proxy_req = false; requested = false } in
    let c2 = if c1.pc then tell peer_reused (record c1 { pc = false }) else c1 in
    (if not c1.direct && (c1.server_req || c1.server_bev)
      then connect_invalid_reply ready c2
      else some c1)
    >>= finish

abbrev pub socks_code : ℕ → ℕ
socks_code response_code =
    if response_code == 504
    then 0x06
    else if response_code == 523
    then 0x04
    else if response_code == 521
    then 0x05
    else 0x01

-- An answer whose signature is good.
unfoldable pub signed_refusal : ℕ → ConnectReq → Option ConnectReq
signed_refusal response_code c =
    let c1 = tell peer_verified (record c { proxy_req = false }) in
    let c2 = if c1.local then c1 else tell copied_signature c1 in
    let c3 =
      if c1.server_req && connect_exhausted c1
      then tell (send_reply response_code) (tell closecb_cleared (record c2 { server_req = false }))
      else c1 in
    if c.server_bev then connect_socks_reply (socks_code response_code) c3 else some c3

-- `msign` says whether there is an X-MSign, and what verify_signature says of it and of the root of the
-- hashed headers.
abbrev pub refusal : ℕ → ConnectReq → Option Bool → Option ConnectReq
refusal response_code c none = some c
refusal response_code c (some false) = some (tell peer_unverified c)
refusal response_code c (some true) = signed_refusal response_code c

-- `other` is the connection that is detached from the request.
unfoldable pub connect_header_cb : ℕ → Option Bool → Bufferevent → ConnectReq → Option ConnectReq
connect_header_cb response_code msign other c =
    let c1 = if response_code == 508 then tell peer_is_loop c else c in
    if not (response_code == 200)
    then refusal response_code c1 msign
    else connected other (record c { pc = false })

abbrev pub error_code : HttpError → ConnectReq → ConnectReq
error_code timeout c = connect_send_error 504 c
error_code request_cancel c = c
error_code _ c = connect_send_error 502 c

abbrev pub error_reply : HttpError → ConnectReq → Option ConnectReq
error_reply timeout c = connect_socks_reply 0x06 c
error_reply request_cancel c = some c
error_reply _ c = connect_socks_reply 0x01 c

unfoldable pub connect_error_cb : HttpError → ConnectReq → Option ConnectReq
connect_error_cb error c =
    let c1 = record c { proxy_req = false; requested = false } in
    let c2 = if c1.server_req then error_code error c1 else c1 in
    (if c2.server_bev then error_reply error c2 else some c2) >>= connect_cleanup

abbrev pub direct_code : Errno → ℕ
direct_code enetunreach = 523
direct_code ehostunreach = 523
direct_code econnrefused = 521
direct_code etimedout = 504
direct_code other_error = 502

abbrev pub direct_reply : Errno → ℕ
direct_reply enetunreach = 0x03
direct_reply ehostunreach = 0x04
direct_reply econnrefused = 0x05
direct_reply etimedout = 0x06
direct_reply other_error = 0x01

-- The direct connection of an HTTP CONNECT; `other` is the connection itself.
unfoldable pub connect_direct_event_cb : Outcome → Bufferevent → ConnectReq → Option ConnectReq
connect_direct_event_cb timed_out other c =
    connect_cleanup (connect_send_error 504 (tell bev_freed (record c { direct = false })))
connect_direct_event_cb (failed err) other c =
    connect_cleanup
      (connect_send_error (direct_code err) (tell bev_freed (record c { direct = false })))
connect_direct_event_cb is_connected other c = connected other (record c { direct = false })

-- The direct connection of a SOCKS5 client.
unfoldable pub socks_connect_event_cb : Outcome → Bufferevent → ConnectReq → Option ConnectReq
socks_connect_event_cb timed_out other c =
    connect_socks_reply 0x06 (tell bev_freed (record c { direct = false })) >>= connect_cleanup
socks_connect_event_cb (failed err) other c =
    connect_socks_reply (direct_reply err) (tell bev_freed (record c { direct = false }))
    >>= connect_cleanup
socks_connect_event_cb is_connected other c = connected other (record c { direct = false })

-- alloc(connect_req): all fields are zero.
abbrev pub new_request : Bufferevent → ConnectReq
new_request server = record {
  socks = false;
  server_req = false;
  evcon = false;
  local = false;
  server_bev = false;
  proxy_req = false;
  on_connect = false;
  pc = false;
  requested = false;
  direct = false;
  pending_bev = false;
  server = server;
  intro_data = none;
  bevs = none ∷ none ∷ none ∷ none ∷ none ∷ none ∷ none ∷ none ∷ none ∷ none ∷ [];
  attempts = 0;
  dont_free = false;
  freed = false;
  spliced = none;
  events = [];
}

abbrev pub at_port : ℕ ⊎ Option ConnectReq → Option ℕ → ℕ ⊎ Option ConnectReq
at_port start none = start
at_port start (some p) = if p == 443 then start else inl 403

-- `host` says whether the URI has a host; the port -1 is `none`. The result `inl` is the error's code.
unfoldable pub connect_request : Bool → Bool → Bool → Option ℕ → Bufferevent → ℕ ⊎ Option ConnectReq
connect_request ready local host port server =
    let c = record (new_request server) {
      server_req = true;
      evcon = true;
      local = local;
      direct = true;
    } in
    let start = inr (connect_peer ready false c) in if host then at_port start port else inl 400

-- The part of socks_connect_request on the connect_req.
unfoldable pub socks_connect_request : Bool → ℕ → Bufferevent → Option ConnectReq
socks_connect_request ready port server =
    let c = record (new_request server) { socks = true; server_bev = true; direct = true } in
    if port == 443 || port == 80 then connect_peer ready false c else some c
