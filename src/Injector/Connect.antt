-- ===== src/Injector/Connect.antt =====
-- injector.c: a CONNECT of a client, which is joined to the origin or answered with a signed error.
use newnode.Prelude.{
  ◌>>=◌, ℕ, Bool, true, false, Option, none, some, List, [], ◌∷◌, ◌++◌, ◌==◌, if◌then◌else◌, ◌⊎◌,
  inl, inr,
}
use newnode.Base64.{codes, base64_urlsafe_encode}
use newnode.Crypto.{Generichash, hash_bytes}
use newnode.Signature.{Signing, content_sign}
use newnode.Http.{KeyValue, Evhttp, Request, build_request_buffer, overwrite_header}

-- What bufferevent_get_error tells apart, and the events of the connection to the origin.
pub data Errno : Type 0 where
  no_error enetunreach ehostunreach econnrefused etimedout other_error : Errno

pub data Outcome : Type 0 where
  timed_out is_connected : Outcome
  failed : Errno → Outcome

-- What is called outside: the reply and its headers, the end of the connection to the origin, and the two
-- connections joined.
pub data Event : Type 0 where
  closecb_cleared bev_freed spliced : Event
  send_reply : ℕ → List KeyValue → Event

-- A connect_req. `request` and `uri` are the headers and the URI of server_req, `evcon` is its field.
pub record ConnectReq : Type 0 where
  pub server_req : Bool
  pub request : Request
  pub uri : List ℕ
  pub evcon : Bool
  pub direct : Bool
  pub freed : Bool
  pub events : List Event

abbrev pub error_code : Errno → ℕ
error_code enetunreach = 523
error_code ehostunreach = 523
error_code econnrefused = 521
error_code etimedout = 504
error_code no_error = 502
error_code other_error = 502

abbrev pub tell : Event → ConnectReq → ConnectReq
tell e c = record c { events = c.events ++ e ∷ [] }

module _ (lib : Evhttp) (hash : Generichash) (keys : Signing) (malloc : ℕ → Bool) where
  open hash use {init, update, final}

  -- The hash of the headers, signed; `none` is a failed assertion or the use of a NULL pointer, here and below.
  unfoldable pub signed_error : List ℕ → ℕ → Request → Option (List ℕ)
  signed_error time code request =
      build_request_buffer lib code request.output_headers >>= λ request_buf.
      base64_urlsafe_encode malloc
        (content_sign keys time (final (update (init [] hash_bytes) request_buf) hash_bytes))

  abbrev pub reply_error : List ℕ → ℕ → ConnectReq → Option ConnectReq
  reply_error time code c =
      overwrite_header lib c.request (codes "Content-Location") (codes "https://" ++ c.uri)
      >>= λ r1. signed_error time code r1 >>= λ b64_sig.
          overwrite_header lib r1 (codes "X-Sign") b64_sig >>= λ r2.
          overwrite_header lib r2 (codes "X-MSign") b64_sig >>= λ r3. some (record c {
            request = r3;
            freed = true;
            events =
                (if c.evcon then c.events ++ closecb_cleared ∷ [] else c.events)
                ++ send_reply code r3.output_headers ∷ [];
          })

  -- `time` is the text that strftime writes.
  unfoldable pub connect_cleanup : List ℕ → Errno → ConnectReq → Option ConnectReq
  connect_cleanup time err c =
      if c.direct
      then some c
      else if c.server_req
      then reply_error time (error_code err) c
      else some (record c { freed = true })

  unfoldable pub connected : List ℕ → ConnectReq → Option ConnectReq
  connected time c =
      connect_cleanup time no_error (tell closecb_cleared (record c { server_req = false }))
      >>= λ c1. some (tell spliced c1)

  unfoldable pub connect_event_cb : List ℕ → Outcome → ConnectReq → Option ConnectReq
  connect_event_cb time timed_out c = connect_cleanup time etimedout c
  connect_event_cb time (failed err) c =
      connect_cleanup time err (tell bev_freed (record c { direct = false }))
  connect_event_cb time is_connected c = connected time (record c { direct = false })

  unfoldable pub close_cb : List ℕ → ConnectReq → Option ConnectReq
  close_cb time c =
      let c1 = tell closecb_cleared (record c { server_req = false }) in
      connect_cleanup time no_error
        (if c.direct then tell bev_freed (record c1 { direct = false }) else c1)

-- `host` says whether the URI has a host; the port -1 is `none`. The result `inl` is the error's code.
unfoldable pub connect_request : Bool → Option ℕ → Request → List ℕ → ℕ ⊎ ConnectReq
connect_request host port request uri =
    let c : ConnectReq = record {
      server_req = true;
      request = request;
      uri = uri;
      evcon = true;
      direct = true;
      freed = false;
      events = [];
    } in
    let allowed : Bool = elim port [ none ↦ true | some p ↦ p == 443 ] in
    if host then (if allowed then inr c else inl 403) else inl 400
