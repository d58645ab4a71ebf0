-- ===== src/Socks/Stream.antt =====
-- client.c: what the SOCKS5 callbacks decide does not depend on how the bytes are cut.
use newnode.Prelude.{
  ℕ, ◌+◌, ◌≡◌, ◌≤◌, refl, not, ◌&&◌, ◌||◌, Option, none, some, List, ◌++◌, arith, leb, ◌==◌, length,
  take, drop, get_or, take-append, drop-append, length-append, le→leb, leb→le, Bool-cases, inl, inr,
}
use newnode.Socks.{
  pullup, memchr, Auth, auth_wait, auth_free, auth_accept, auth_methods, auth_version,
  socks_read_auth_cb, Request, request_wait, request_free, request_connect, request_ignore,
  ipv4_request, ipv6_request, name_request, name_length, request_type, request_head,
  socks_read_req_cb,
}

-- With more bytes behind, what could be read is read, and more is left.
abbrev Readable : List ℕ → Option (List ℕ × List ℕ) → Option (List ℕ × List ℕ) → Type 0
Readable more none later = Unit
Readable more (some (p, rest)) later = later ≡ some (p, rest ++ more)

pullup-Readable :
    (n : ℕ) (input more : List ℕ) → Readable more (pullup n input) (pullup n (input ++ more))
unfolding pullup
pullup-Readable n input more = elim (Bool-cases (leb n (length input))) [
  | inl there ↦
      let le : n ≤ length input = leb→le n (length input) there in
      let longer = le→leb n (length (input ++ more)) (omega (arith, length-append input more)) in
      rw (there, longer, take-append n input more le, drop-append n input more le) refl
  | inr missing ↦ rw missing tt
]

-- A decision stands when more bytes follow, and leaves them to what reads next.
abbrev pub AuthStands : List ℕ → Auth → Auth → Type 0
AuthStands more auth_wait later = Unit
AuthStands more auth_free later = later ≡ auth_free
AuthStands more (auth_accept rest) later = later ≡ auth_accept (rest ++ more)

abbrev pub RequestStands : List ℕ → Request → Request → Type 0
RequestStands more request_wait later = Unit
RequestStands more request_free later = later ≡ request_free
RequestStands more request_ignore later = later ≡ request_ignore
RequestStands more (request_connect t rest) later = later ≡ request_connect t (rest ++ more)

auth_methods-AuthStands :
    (n : ℕ) (more : List ℕ) (o later : Option (List ℕ × List ℕ))
    → Readable more o later
    → AuthStands more (auth_methods n o) (auth_methods n later)
unfolding auth_methods
auth_methods-AuthStands n more none later h = tt
auth_methods-AuthStands n more (some (p, rest)) later h =
    elim (Bool-cases (n == 0 || not (memchr 0 (take n (drop 2 p))))) [
      | inl bad ↦ rw (h, bad) refl
      | inr good ↦ rw (h, good) refl
    ]

auth_version-AuthStands :
    (input more : List ℕ) (o later : Option (List ℕ × List ℕ))
    → Readable more o later
    → AuthStands more (auth_version input o) (auth_version (input ++ more) later)
unfolding auth_version
auth_version-AuthStands input more none later h = tt
auth_version-AuthStands input more (some (p, rest)) later h =
    elim (Bool-cases (get_or p 0 0 == 0x05)) [
      | inl five ↦
          rw (h, five)
            (auth_methods-AuthStands (get_or p 1 0) more _ _
              (pullup-Readable (2 + get_or p 1 0) input more))
      | inr wrong ↦ rw (h, wrong) refl
    ]

-- What socks_read_auth_cb decides on some bytes stands when more bytes have arrived with them: it frees
-- the connection, or accepts and leaves these bytes over.
pub socks_read_auth_cb-AuthStands :
    (input more : List ℕ)
    → AuthStands more (socks_read_auth_cb input) (socks_read_auth_cb (input ++ more))
unfolding socks_read_auth_cb
socks_read_auth_cb-AuthStands input more =
    auth_version-AuthStands input more _ _ (pullup-Readable 2 input more)

ipv4_request-RequestStands :
    (more : List ℕ) (o later : Option (List ℕ × List ℕ))
    → Readable more o later
    → RequestStands more (ipv4_request o) (ipv4_request later)
unfolding ipv4_request
ipv4_request-RequestStands more none later h = tt
ipv4_request-RequestStands more (some (p, rest)) later h = rw h refl

ipv6_request-RequestStands :
    (more : List ℕ) (o later : Option (List ℕ × List ℕ))
    → Readable more o later
    → RequestStands more (ipv6_request o) (ipv6_request later)
unfolding ipv6_request
ipv6_request-RequestStands more none later h = tt
ipv6_request-RequestStands more (some (p, rest)) later h = rw h refl

name_request-RequestStands :
    (n : ℕ) (more : List ℕ) (o later : Option (List ℕ × List ℕ))
    → Readable more o later
    → RequestStands more (name_request n o) (name_request n later)
unfolding name_request
name_request-RequestStands n more none later h = tt
name_request-RequestStands n more (some (p, rest)) later h = rw h refl

name_length-RequestStands :
    (input more : List ℕ) (o later : Option (List ℕ × List ℕ))
    → Readable more o later
    → RequestStands more (name_length input o) (name_length (input ++ more) later)
unfolding name_length
name_length-RequestStands input more none later h = tt
name_length-RequestStands input more (some (p, rest)) later h = rw h (
    name_request-RequestStands (get_or p 4 0) more _ _
      (pullup-Readable (4 + 1 + get_or p 4 0 + 2) input more))

request_type-RequestStands :
    (input more : List ℕ) (t : ℕ)
    → RequestStands more (request_type input t) (request_type (input ++ more) t)
unfolding request_type
request_type-RequestStands input more t = elim (Bool-cases (t == 0x01)) [
  | inl four ↦
      rw four (ipv4_request-RequestStands more _ _ (pullup-Readable (4 + 4 + 2) input more))
  | inr not_four ↦ elim (Bool-cases (t == 0x03)) [
    | inl name ↦
        rw (not_four, name)
          (name_length-RequestStands input more _ _ (pullup-Readable (4 + 1) input more))
    | inr not_name ↦ elim (Bool-cases (t == 0x04)) [
      | inl six ↦
          rw (not_four, not_name, six)
            (ipv6_request-RequestStands more _ _ (pullup-Readable (4 + 16 + 2) input more))
      | inr not_six ↦ rw (not_four, not_name, not_six) refl
    ]
  ]
]

request_head-RequestStands :
    (input more : List ℕ) (o later : Option (List ℕ × List ℕ))
    → Readable more o later
    → RequestStands more (request_head input o) (request_head (input ++ more) later)
unfolding request_head
request_head-RequestStands input more none later h = tt
request_head-RequestStands input more (some (p, rest)) later h =
    elim (Bool-cases (get_or p 0 0 == 0x05 && (get_or p 1 0 == 0x01 && get_or p 2 0 == 0x00))) [
      | inl good ↦ rw (h, good) (request_type-RequestStands input more (get_or p 3 0))
      | inr bad ↦ rw (h, bad) refl
    ]

-- What socks_read_req_cb decides on some bytes stands when more bytes have arrived with them: it frees
-- the connection, ignores the request, or connects to the same target and leaves these bytes over.
pub socks_read_req_cb-RequestStands :
    (input more : List ℕ)
    → RequestStands more (socks_read_req_cb input) (socks_read_req_cb (input ++ more))
unfolding socks_read_req_cb
socks_read_req_cb-RequestStands input more =
    request_head-RequestStands input more _ _ (pullup-Readable 4 input more)
