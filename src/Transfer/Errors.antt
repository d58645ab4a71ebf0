-- ===== src/Transfer/Errors.antt =====
-- client.c: what is still at work for a request, the answer to an error, and the end of a request.
use newnode.Prelude.{ℕ, Bool, true, false, ◌||◌, List, [], ◌∷◌, if◌then◌else◌}
use newnode.Transfer.{
  PeerRequest, DirectRequest, ProxyRequest, send_error, reply_end, closecb_cleared, freed, send,
}

unfoldable pub proxy_request_any_direct : List DirectRequest → Bool
proxy_request_any_direct [] = false
proxy_request_any_direct (d ∷ ds) =
    let rest = proxy_request_any_direct ds in if d.req then true else rest

unfoldable pub proxy_request_any_peers : List PeerRequest → Bool
proxy_request_any_peers [] = false
proxy_request_any_peers (r ∷ rs) =
    let rest = proxy_request_any_peers rs in if r.req || r.on_connect then true else rest

-- Whether a request is at work, one of `peers` or `directs`: all slots, the one of the caller with them.
abbrev pub any : List PeerRequest → List DirectRequest → Bool
any peers directs = proxy_request_any_direct directs || proxy_request_any_peers peers

module _ {S : Type 0} where
  unfoldable pub proxy_send_error :
      List PeerRequest → List DirectRequest → ℕ → ProxyRequest S → ProxyRequest S
  proxy_send_error peers directs error p =
      let p1 = if p.evcon then send closecb_cleared p else p in
      let p2 = send (if p.responded then reply_end else send_error error) p1 in
      if any peers directs then p else if p.server_req then record p2 { server_req = false } else p

  -- `none` of the slots is left at work and the request is freed, unless it is kept.
  unfoldable pub proxy_request_cleanup :
      List PeerRequest → List DirectRequest → ProxyRequest S → ProxyRequest S
  proxy_request_cleanup peers directs p =
      let p1 = if p.server_req then proxy_send_error peers directs 502 p else p in
      if p.dont_free || any peers directs then p else send freed p1

  -- peer_request_cleanup.
  unfoldable pub peer_request_cleanup : PeerRequest → ProxyRequest S → PeerRequest × ProxyRequest S
  peer_request_cleanup r p =
      let r1 = record r { pc = false; range = record (r.range) { chunk_buffer = [] } } in
      if r.req then (r, p) else (r1, proxy_request_cleanup (r1 ∷ p.peers) p.directs p)
