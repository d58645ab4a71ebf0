-- ===== src/Address.antt =====
-- network.c: socket addresses, and IPv4 over the IPv6 socket of the program.
pub mod Mapping
pub mod Compare
mod Tests
use newnode.Prelude.{
  ℕ, zero, suc, ◌+◌, ◌-◌, ◌*◌, ◌/◌, ◌%◌, Bool, true, false, ◌&&◌, Option, none, some, List, [], ◌∷◌,
  ◌++◌, ltb, ◌==◌, if◌then◌else◌, bytes_eq, get_or, take, replicate,
}

-- A difference of two numbers, as an int.
pub data ℤ : Type 0 where
  pos : ℕ → ℤ
  negsuc : ℕ → ℤ

abbrev pub difference : ℕ → ℕ → ℤ
difference a b = if ltb a b then negsuc (b - a - 1) else pos (a - b)

-- A sockaddr, with its port and its address as the bytes of memory, in network order.
pub data Sockaddr : Type 0 where
  inet : ℕ → ℕ → List ℕ → Sockaddr
  inet6 : ℕ → ℕ → List ℕ → Sockaddr
  unix : List ℕ → Sockaddr
  other : ℕ → Sockaddr

-- AF_LOCAL, AF_INET and AF_INET6 of Linux.
abbrev pub family : Sockaddr → ℕ
family (inet hi lo a) = 2
family (inet6 hi lo a) = 10
family (unix path) = 1
family (other f) = f

abbrev pub v4_anyaddr : List ℕ
v4_anyaddr = replicate 10 0 ++ 0xff ∷ 0xff ∷ replicate 4 0

abbrev pub v4_noaddr : List ℕ
v4_noaddr = replicate 10 0 ++ replicate 6 0xff

unfoldable pub map4to6 : List ℕ → List ℕ
map4to6 a =
    if bytes_eq a (replicate 4 0)
    then v4_anyaddr
    else if bytes_eq a (replicate 4 0xff)
    then v4_noaddr
    else take 12 v4_anyaddr ++ get_or a 0 0 ∷ get_or a 1 0 ∷ get_or a 2 0 ∷ get_or a 3 0 ∷ []

unfoldable pub map6to4 : List ℕ → List ℕ
map6to4 a = get_or a 12 0 ∷ get_or a 13 0 ∷ get_or a 14 0 ∷ get_or a 15 0 ∷ []

-- The address that `udp_sendto` hands to sendto.
unfoldable pub destination : Sockaddr → Sockaddr
destination (inet hi lo a) = inet6 hi lo (map4to6 a)
destination (inet6 hi lo a) = inet6 hi lo a
destination (unix path) = unix path
destination (other f) = other f

-- What is called to send, in order, and the result. `d2d_sendto` and `sendto` give the number of bytes
-- that they sent, `none` for an error; the first is tried only on an IPv6 address.
pub data Sending : Type 0 where
  d2d_sendto : List ℕ → Sockaddr → Sending
  sendto : List ℕ → Sockaddr → Sending

unfoldable pub sent_d2d : Option ℕ → Option ℕ
sent_d2d none = none
sent_d2d (some n) = if ltb 0 n then some n else none

module _ (d2d : List ℕ → Sockaddr → Option ℕ) (send : List ℕ → Sockaddr → Option ℕ) where
  unfoldable pub send_after_d2d : List ℕ → Sockaddr → Option ℕ → List Sending × Option ℕ
  send_after_d2d buf sa (some n) = (d2d_sendto buf sa ∷ [], some n)
  send_after_d2d buf sa none = (d2d_sendto buf sa ∷ sendto buf sa ∷ [], send buf sa)

  unfoldable pub send_to : List ℕ → Sockaddr → List Sending × Option ℕ
  send_to buf (inet6 hi lo a) =
      send_after_d2d buf (inet6 hi lo a) (sent_d2d (d2d buf (inet6 hi lo a)))
  send_to buf (inet hi lo a) = (sendto buf (inet hi lo a) ∷ [], send buf (inet hi lo a))
  send_to buf (unix path) = (sendto buf (unix path) ∷ [], send buf (unix path))
  send_to buf (other f) = (sendto buf (other f) ∷ [], send buf (other f))

  unfoldable pub udp_sendto : List ℕ → Sockaddr → List Sending × Option ℕ
  udp_sendto buf sa = send_to buf (destination sa)

-- IN6_IS_ADDR_V4MAPPED
abbrev pub is_v4mapped : List ℕ → Bool
is_v4mapped a = bytes_eq (take 12 a) (take 12 v4_anyaddr)

-- The address that `udp_read` passes on for the source of a packet.
unfoldable pub source : Sockaddr → Sockaddr
source (inet6 hi lo a) = if is_v4mapped a then inet hi lo (map6to4 a) else inet6 hi lo a
source (inet hi lo a) = inet hi lo a
source (unix path) = unix path
source (other f) = other f

-- `none` is a failed assertion, here and below.
unfoldable pub sockaddr_get_length : Sockaddr → Option ℕ
sockaddr_get_length (inet hi lo a) = some 16
sockaddr_get_length (inet6 hi lo a) = some 28
sockaddr_get_length (unix path) = some 110
sockaddr_get_length (other f) = none

unfoldable pub sockaddr_get_port : Sockaddr → Option ℕ
sockaddr_get_port (inet hi lo a) = some (hi * 256 + lo)
sockaddr_get_port (inet6 hi lo a) = some (hi * 256 + lo)
sockaddr_get_port (unix path) = none
sockaddr_get_port (other f) = none

unfoldable pub sockaddr_set_port : Sockaddr → ℕ → Option Sockaddr
sockaddr_set_port (inet hi lo a) port = some (inet (port / 256) (port % 256) a)
sockaddr_set_port (inet6 hi lo a) port = some (inet6 (port / 256) (port % 256) a)
sockaddr_set_port (unix path) port = none
sockaddr_set_port (other f) port = none

-- memcmp, or strcmp, of byte strings.
abbrev pub compare_bytes : List ℕ → List ℕ → ℤ
compare_bytes [] [] = pos 0
compare_bytes [] (y ∷ ys) = negsuc y
compare_bytes (x ∷ xs) [] = pos (x + 1)
compare_bytes (x ∷ xs) (y ∷ ys) =
    let rest = compare_bytes xs ys in if x == y then rest else difference x y

-- The last comparison of `sockaddr_cmp`: both of its operands are taken from `sa`, as in the source.
unfoldable pub compare_addr : Sockaddr → Option ℤ
compare_addr (inet hi lo a) = some (pos 0)
compare_addr (inet6 hi lo a) = some (compare_bytes a a)
compare_addr (unix path) = some (compare_bytes path path)
compare_addr (other f) = none

abbrev pub compare_ports : Option ℕ → Option ℕ → Option ℤ → Option ℤ
compare_ports none pb rest = none
compare_ports (some a) none rest = none
compare_ports (some a) (some b) rest = if a == b then rest else some (difference a b)

unfoldable pub sockaddr_cmp : Sockaddr → Sockaddr → Option ℤ
sockaddr_cmp sa sb =
    if family sa == family sb
    then compare_ports (sockaddr_get_port sa) (sockaddr_get_port sb) (compare_addr sa)
    else some (difference (family sa) (family sb))

unfoldable pub is_zero : Option ℤ → Option Bool
is_zero none = none
is_zero (some (pos n)) = some (n == 0)
is_zero (some (negsuc n)) = some false

unfoldable pub sockaddr_eq : Sockaddr → Sockaddr → Option Bool
sockaddr_eq sa sb = is_zero (sockaddr_cmp sa sb)

unfoldable pub sockaddr_is_localhost : Sockaddr → Option Bool
sockaddr_is_localhost (inet hi lo a) = some (get_or a 0 0 == 127)
sockaddr_is_localhost (inet6 hi lo a) = some (bytes_eq a (replicate 15 0 ++ 1 ∷ []))
sockaddr_is_localhost (unix path) = some true
sockaddr_is_localhost (other f) = none

-- With the address that getsockname gives.
unfoldable pub bufferevent_is_localhost : Sockaddr → Option Bool
bufferevent_is_localhost sa = if family sa == 1 then some false else sockaddr_is_localhost sa
