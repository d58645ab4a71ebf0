-- ===== src/Tunnel.antt =====
-- client.c: a CONNECT of the browser or of a SOCKS5 client, which is tried directly and through a peer at
-- once, and joined to the first of these that answers.

pub mod Answers
pub mod Calls
pub mod Keeps
pub mod Connects
pub mod Refusals
pub mod Ends
pub mod Browser
pub mod Reached
pub mod Failures
pub mod Answered
pub mod Delivers
pub mod Joined
pub mod Flows
mod Tests
use newnode.Prelude.{
  ◌>>=◌, ℕ, zero, suc, ◌+◌, Bool, true, false, not, ◌&&◌, ◌||◌, Option, none, some, List, [], ◌∷◌,
  ◌++◌, ltb, ◌==◌, if◌then◌else◌,
}
use newnode.Base64.{codes}
use newnode.Splice.{Bufferevent, Pair}

-- What is called outside, in order; `tried_freed` frees a connection that is tried, when it has ended.
pub data Event : Type 0 where
  send_error send_reply socks_replied : ℕ → Event
  closecb_cleared copied_signature peer_disconnected peer_reused peer_verified peer_unverified :
      Event
  peer_is_loop more_injectors connect_aborted bev_freed tried_freed : Event

-- A connect_req. The fields of the pointers say whether they are set; `server` is the connection of the
-- browser, which server_req, server_bev or pending_bev stand for. `socks` says which of the two functions
-- made the request, `evcon` and `local` what server_req->evcon is, `requested` that libevent has a
-- request to the peer, and `spliced` are the arguments of bev_splice. After `freed` nothing is called.
pub record ConnectReq : Type 0 where
  pub socks : Bool
  pub server_req : Bool
  pub evcon : Bool
  pub local : Bool
  pub server_bev : Bool
  pub proxy_req : Bool
  pub on_connect : Bool
  pub pc : Bool
  pub requested : Bool
  pub direct : Bool
  pub pending_bev : Bool
  pub server : Bufferevent
  pub intro_data : Option (List ℕ)
  pub bevs : List (Option Bufferevent)
  pub attempts : ℕ
  pub dont_free : Bool
  pub freed : Bool
  pub spliced : Option Pair
  pub events : List Event

abbrev pub tell : Event → ConnectReq → ConnectReq
tell e c = record c { events = c.events ++ e ∷ [] }

-- Whether no slot of `bevs` is set, and the slots when all are cleared.
unfoldable pub no_bevs : List (Option Bufferevent) → Bool
no_bevs [] = true
no_bevs (none ∷ bs) = no_bevs bs
no_bevs (some b ∷ bs) = false

unfoldable pub connect_exhausted : ConnectReq → Bool
connect_exhausted c = if c.direct || (c.proxy_req || c.on_connect) then false else no_bevs c.bevs

-- `none` is a failed assertion or the use of a NULL pointer, here and below.
unfoldable pub connect_socks_reply : ℕ → ConnectReq → Option ConnectReq
connect_socks_reply resp c =
    if connect_exhausted c
    then if c.server_bev
      then some (tell (socks_replied resp) (record c { server_bev = false }))
      else none
    else some c

unfoldable pub connect_send_error : ℕ → ConnectReq → ConnectReq
connect_send_error error c =
    let first = if c.evcon then closecb_cleared ∷ [] else [] in
    if connect_exhausted c
    then if c.server_req
      then record c { server_req = false; events = c.events ++ (first ++ send_error error ∷ []) }
      else c
    else c

abbrev pub freed_request : ConnectReq → ConnectReq
freed_request c =
    let taken = if c.pending_bev then bev_freed ∷ [] else [] in
    let peer = if c.pc then peer_disconnected ∷ [] else [] in
    record c {
      pending_bev = false;
      intro_data = none;
      pc = false;
      requested = false;
      freed = true;
      events = c.events ++ (taken ++ peer);
    }

unfoldable pub connect_cleanup : ConnectReq → Option ConnectReq
connect_cleanup c =
    if c.dont_free || not (connect_exhausted c)
    then some c
    else if c.server_req || c.server_bev
    then none
    else some (freed_request c)

-- evhttp_cancel_request calls connect_error_cb, which only clears `proxy_req` then.
unfoldable pub connect_proxy_cancel : ConnectReq → ConnectReq
connect_proxy_cancel c =
    let aborted = not c.pc && c.on_connect in
    record c {
      proxy_req = false;
      requested = if c.proxy_req then false else c.requested;
      on_connect = if not c.pc then false else c.on_connect;
      events = if aborted then c.events ++ connect_aborted ∷ [] else c.events;
    }

unfoldable pub connect_direct_cancel : ConnectReq → ConnectReq
connect_direct_cancel c = record c { direct = false }

-- The end of all that is at work, and of the request.
abbrev pub cancel_all : ConnectReq → ConnectReq
cancel_all c = connect_direct_cancel (connect_proxy_cancel c)

-- bufferevent_enable(bev, EV_READ|EV_WRITE)
abbrev pub enable : Bufferevent → Bufferevent
enable b = record b { ev_read = true; ev_write = true }

abbrev pub write : List ℕ → Bufferevent → Bufferevent
write bytes b = record b { output = b.output ++ bytes }

-- evbuffer_add_buffer_reference to each connection that is tried.
unfoldable pub write_all : List ℕ → List (Option Bufferevent) → List (Option Bufferevent)
write_all bytes [] = []
write_all bytes (none ∷ bs) = none ∷ write_all bytes bs
write_all bytes (some b ∷ bs) = some (write bytes b) ∷ write_all bytes bs

abbrev pub or_nothing : Option (List ℕ) → List ℕ
or_nothing none = []
or_nothing (some bytes) = bytes

unfoldable pub connect_server_read_cb : ConnectReq → ConnectReq
connect_server_read_cb c = record c {
  bevs = write_all c.server.input c.bevs;
  intro_data = some (or_nothing c.intro_data ++ c.server.input);
  server = record (c.server) { input = [] };
}

unfoldable pub connect_server_event_cb : ConnectReq → Option ConnectReq
connect_server_event_cb c = connect_cleanup (cancel_all c)

unfoldable pub connect_evcon_close_cb : ConnectReq → Option ConnectReq
connect_evcon_close_cb c =
    connect_cleanup (cancel_all (tell closecb_cleared (record c { server_req = false })))

-- The slot `i`, and the slots without it or with another there.
unfoldable pub bev_at : List (Option Bufferevent) → ℕ → Option Bufferevent
bev_at [] i = none
bev_at (b ∷ bs) zero = b
bev_at (b ∷ bs) (suc i) = bev_at bs i

unfoldable pub set_bev :
    List (Option Bufferevent) → ℕ → Option Bufferevent → List (Option Bufferevent)
set_bev [] i v = []
set_bev (b ∷ bs) zero v = v ∷ bs
set_bev (b ∷ bs) (suc i) v = b ∷ set_bev bs i v

abbrev pub cleared : List (Option Bufferevent) → List (Option Bufferevent)
cleared [] = []
cleared (b ∷ bs) = none ∷ cleared bs

-- The connections in the slots from `i` on, but for slot `k`, are freed.
abbrev pub free_others : ℕ → ℕ → List (Option Bufferevent) → List Event
free_others k i [] = []
free_others k i (none ∷ bs) = free_others k (i + 1) bs
free_others k i (some b ∷ bs) =
    let rest = free_others k (i + 1) bs in if i == k then rest else bev_freed ∷ rest

-- The connection in slot `i` has answered. The bytes are counted for the statistics, which are not kept.
abbrev pub joined : Pair → Option ConnectReq → Option ConnectReq
joined s none = none
joined s (some c) = some (record c { spliced = some s })

abbrev pub other_answers : ℕ → ConnectReq → Option Bufferevent → Option ConnectReq
other_answers i c none = none
other_answers i c (some bev) =
    let alone = record c {
      bevs = cleared c.bevs;
      pending_bev = false;
      events = c.events ++ free_others i 0 c.bevs;
    } in
    joined (record { bev = enable c.server; other = enable bev })
      (connect_cleanup (cancel_all alone))

unfoldable pub connect_other_read_cb : ℕ → ConnectReq → Option ConnectReq
connect_other_read_cb i c = other_answers i c (bev_at c.bevs i)

abbrev pub other_ends : ℕ → ConnectReq → Option Bufferevent → Option ConnectReq
other_ends i c none = none
other_ends i c (some bev) = some (tell tried_freed (record c { bevs = set_bev c.bevs i none }))

unfoldable pub connect_other_event_cb : ℕ → ConnectReq → Option ConnectReq
connect_other_event_cb i c = other_ends i c (bev_at c.bevs i)
