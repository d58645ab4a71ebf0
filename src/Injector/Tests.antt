-- ===== src/Injector/Tests.antt =====
-- injector.c: runs of the callbacks.
use newnode.Prelude.{ℕ, ◌≡◌, refl, Bool, true, false, none, some, List, [], ◌∷◌, inr, if_true}
use newnode.Base64.{codes}
use newnode.Crypto.{Generichash}
use newnode.Crypto.FirstBytes.{first_bytes}
use newnode.Signature.{Signing}
use newnode.Signature.Tests.{zero_keys, enough_memory, timestamp}
use newnode.Merkle.{new}
use newnode.Http.{Evhttp, Request}
use newnode.Http.Lenient.{lenient}
use newnode.Injector.{
  Proxied, timeout, send_error, connection_free, request_cleanup, error_cb, request_done_cb,
}
use newnode.Injector.Connect.{
  ConnectReq, timed_out, connect_cleanup, connect_event_cb, close_cb, connect_request,
  closecb_cleared, bev_freed,
}

abbrev asked : Request
asked = record { input_headers = []; output_headers = []; localhost = false }

abbrev fetching : Proxied (List ℕ)
fetching = record {
  server_req = true;
  request = asked;
  uri = codes "/";
  evcon = true;
  pending_output = none;
  content_state = [];
  m = new first_bytes [] (λ i. []);
  freed = false;
  events = [];
}

times_out : (error_cb timeout fetching).events ≡ send_error 504 ∷ connection_free ∷ []
unfolding error_cb request_cleanup
times_out = refl

no_request :
    request_done_cb lenient first_bytes zero_keys enough_memory timestamp timestamp none fetching
    ≡ some fetching
unfolding request_done_cb
no_request = refl

abbrev started : ConnectReq
started = record {
  server_req = true;
  request = asked;
  uri = codes "example.com:443";
  evcon = true;
  direct = true;
  freed = false;
  events = [];
}

starts : connect_request true (some 443) asked (codes "example.com:443") ≡ inr started
unfolding connect_request
starts = refl

closes :
    close_cb lenient first_bytes zero_keys enough_memory timestamp started
    ≡ some (record started {
      server_req = false;
      direct = false;
      freed = true;
      events = closecb_cleared ∷ bev_freed ∷ [];
    })
unfolding close_cb connect_cleanup
closes = refl

-- A connection that times out is not answered, since it is still set when connect_cleanup is called.
times_out_unanswered :
    (lib : Evhttp) (hash : Generichash) (keys : Signing) (malloc : ℕ → Bool) (time : List ℕ)
    (c : ConnectReq)
    → c.direct ≡ true
    → connect_event_cb lib hash keys malloc time timed_out c ≡ some c
unfolding connect_event_cb connect_cleanup
times_out_unanswered lib hash keys malloc time c e = if_true (λ x. x ≡ some c) c.direct _ e refl
