-- ===== src/Socks/Tests.antt =====
-- client.c: SOCKS5 messages in pieces.
use newnode.Prelude.{ℕ, ◌≡◌, refl, List, [], ◌∷◌, ◌++◌}
use newnode.Base64.{codes}
use newnode.Socks.{
  pullup, socks_read_auth_cb, request_connect, hostname, name_request, name_length, request_type,
  request_head, socks_read_req_cb,
}
use newnode.Socks.Stream.{
  AuthStands, RequestStands, socks_read_auth_cb-AuthStands, socks_read_req_cb-RequestStands,
}

abbrev greeting : List ℕ
greeting = 5 ∷ 1 ∷ 0 ∷ []

abbrev to_host : List ℕ
to_host = 5 ∷ 1 ∷ 0 ∷ 3 ∷ 2 ∷ codes "ab" ++ 31 ∷ 144 ∷ []

host_run :
    socks_read_req_cb (to_host ++ 9 ∷ []) ≡ request_connect (hostname (codes "ab") 8080) (9 ∷ [])
unfolding socks_read_req_cb request_head request_type name_length name_request pullup
host_run = refl

socks_read_auth_cb-AuthStands_example :
    AuthStands to_host (socks_read_auth_cb greeting) (socks_read_auth_cb (greeting ++ to_host))
socks_read_auth_cb-AuthStands_example = socks_read_auth_cb-AuthStands greeting to_host

socks_read_req_cb-RequestStands_example :
    RequestStands greeting (socks_read_req_cb to_host) (socks_read_req_cb (to_host ++ greeting))
socks_read_req_cb-RequestStands_example = socks_read_req_cb-RequestStands to_host greeting
