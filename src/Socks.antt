-- ===== src/Socks.antt =====
-- client.c: the two messages of a SOCKS5 client, as bytes arrive.
pub mod Stream
mod Tests
use newnode.Prelude.{
  ℕ, zero, suc, ◌+◌, ◌*◌, Bool, true, false, not, ◌&&◌, ◌||◌, Option, none, some, List, [], ◌∷◌,
  ◌++◌, leb, ◌==◌, if◌then◌else◌, length, take, drop, get_or,
}
use newnode.Address.{Sockaddr, inet, inet6}

-- evbuffer_pullup, by the bytes that it makes readable and those behind them: `none` is NULL, when there
-- are fewer.
unfoldable pub pullup : ℕ → List ℕ → Option (List ℕ × List ℕ)
pullup n input = if leb n (length input) then some (take n input, drop n input) else none

unfoldable pub memchr : ℕ → List ℕ → Bool
memchr c [] = false
memchr c (x ∷ xs) = let rest = memchr c xs in if x == c then true else rest

-- What socks_read_auth_cb does: nothing yet, free the bufferevent, or answer 05 00 and go on to the
-- request with the bytes that are left.
pub data Auth : Type 0 where
  auth_wait : Auth
  auth_free : Auth
  auth_accept : List ℕ → Auth

unfoldable pub auth_methods : ℕ → Option (List ℕ × List ℕ) → Auth
auth_methods n none = auth_wait
auth_methods n (some (p, rest)) =
    if n == 0 || not (memchr 0 (take n (drop 2 p))) then auth_free else auth_accept rest

unfoldable pub auth_version : List ℕ → Option (List ℕ × List ℕ) → Auth
auth_version input none = auth_wait
auth_version input (some (p, rest)) =
    if get_or p 0 0 == 0x05
    then auth_methods (get_or p 1 0) (pullup (2 + get_or p 1 0) input)
    else auth_free

unfoldable pub socks_read_auth_cb : List ℕ → Auth
socks_read_auth_cb input = auth_version input (pullup 2 input)

-- Where a request is to be connected: an address, or a host and a port.
pub data Target : Type 0 where
  address : Sockaddr → Target
  hostname : List ℕ → ℕ → Target

-- What socks_read_req_cb does: nothing yet, free the bufferevent, connect with the bytes that are left, or
-- nothing at all, for another type of address.
pub data Request : Type 0 where
  request_wait : Request
  request_free : Request
  request_connect : Target → List ℕ → Request
  request_ignore : Request

-- "%.*s": the bytes up to a NUL.
abbrev pub c_string : List ℕ → List ℕ
c_string [] = []
c_string (c ∷ cs) = let rest = c_string cs in if c == 0 then [] else c ∷ rest

unfoldable pub ipv4_request : Option (List ℕ × List ℕ) → Request
ipv4_request none = request_wait
ipv4_request (some (p, rest)) =
    request_connect (address (inet (get_or p 8 0) (get_or p 9 0) (take 4 (drop 4 p)))) rest

unfoldable pub ipv6_request : Option (List ℕ × List ℕ) → Request
ipv6_request none = request_wait
ipv6_request (some (p, rest)) =
    request_connect (address (inet6 (get_or p 20 0) (get_or p 21 0) (take 16 (drop 4 p)))) rest

unfoldable pub name_request : ℕ → Option (List ℕ × List ℕ) → Request
name_request n none = request_wait
name_request n (some (p, rest)) =
    request_connect
      (hostname (c_string (take n (drop 5 p))) (get_or p (5 + n) 0 * 256 + get_or p (5 + n + 1) 0))
      rest

unfoldable pub name_length : List ℕ → Option (List ℕ × List ℕ) → Request
name_length input none = request_wait
name_length input (some (p, rest)) =
    name_request (get_or p 4 0) (pullup (4 + 1 + get_or p 4 0 + 2) input)

unfoldable pub request_type : List ℕ → ℕ → Request
request_type input t =
    if t == 0x01
    then ipv4_request (pullup (4 + 4 + 2) input)
    else if t == 0x03
    then name_length input (pullup (4 + 1) input)
    else if t == 0x04
    then ipv6_request (pullup (4 + 16 + 2) input)
    else request_ignore

unfoldable pub request_head : List ℕ → Option (List ℕ × List ℕ) → Request
request_head input none = request_wait
request_head input (some (p, rest)) =
    if get_or p 0 0 == 0x05 && (get_or p 1 0 == 0x01 && get_or p 2 0 == 0x00)
    then request_type input (get_or p 3 0)
    else request_free

unfoldable pub socks_read_req_cb : List ℕ → Request
socks_read_req_cb input = request_head input (pullup 4 input)

-- The bytes that socks_reply writes.
unfoldable pub socks_reply : ℕ → List ℕ
socks_reply resp = 0x05 ∷ resp ∷ 0x00 ∷ 0x01 ∷ 0x00 ∷ 0x00 ∷ 0x00 ∷ 0x00 ∷ 0x00 ∷ 0x00 ∷ []
