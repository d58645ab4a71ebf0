-- ===== src/Peers.antt =====
-- client.c: the peers that the client knows, and which of them it connects to next.
pub mod Select
mod Tests
use newnode.Prelude.{
  ℕ, zero, suc, ◌+◌, ◌-◌, ◌*◌, ◌/◌, ◌%◌, ◌^◌, Bool, true, false, not, Option, none, some, List, [],
  ◌∷◌, ◌++◌, ltb, leb, ◌==◌, if◌then◌else◌, bytes_eq,
}
use newnode.Base64.{codes, size_mod}

-- A peer, with the address of its memory. Times are time_t values that are not negative.
pub record Peer : Type 0 where
  pub pointer : ℕ
  pub addr : List ℕ
  pub port : ℕ
  pub last_verified : ℕ
  pub last_connect : ℕ
  pub last_connect_attempt : ℕ
  pub via : ℕ
  pub loop : ℕ

unfoldable pub starts_with : List ℕ → List ℕ → Bool
starts_with [] text = true
starts_with (c ∷ cs) [] = false
starts_with (c ∷ cs) (t ∷ ts) = let rest = starts_with cs ts in if c == t then rest else false

-- strstr(text, part) != NULL
unfoldable pub strstr : List ℕ → List ℕ → Bool
strstr [] part = starts_with part []
strstr (t ∷ ts) part = let rest = strstr ts part in if starts_with part (t ∷ ts) then true else rest

unfoldable pub via_contains : Option (List ℕ) → ℕ → Bool
via_contains none v = false
via_contains (some via) v = if v == 0 then false else strstr via (v ∷ codes ".newnode")

-- The address with its family and port is `addr`, of which memeq compares the length of the one that
-- is looked for.
unfoldable pub get_peer : List Peer → List ℕ → Option Peer
get_peer [] a = none
get_peer (p ∷ ps) a = let rest = get_peer ps a in if bytes_eq a p.addr then some p else rest

-- The eight bytes of a pointer in memory, the lowest first.
abbrev pub pointer_bytes : ℕ → List ℕ
pointer_bytes p =
    p % 256
    ∷ p / 2 ^ 8 % 256
    ∷ p / 2 ^ 16 % 256
    ∷ p / 2 ^ 24 % 256
    ∷ p / 2 ^ 32 % 256
    ∷ p / 2 ^ 40 % 256
    ∷ p / 2 ^ 48 % 256
    ∷ p / 2 ^ 56 % 256
    ∷ []

-- The fields of a peer_sort in the order of memory. The two times stand big-endian, so that memcmp
-- compares them as numbers, and the pointer as the bytes that it has in memory; the bits beside the two of
-- one bit are taken as 0.
abbrev pub sort_key : ℕ → (Peer → ℕ) → Peer → List ℕ
sort_key now salt p =
    (if ltb p.last_connect p.last_connect_attempt then 1 else 0)
    ∷ p.last_connect_attempt
    ∷ (now + size_mod - p.last_verified) % size_mod
    ∷ (if p.last_connect == 0 then 1 else 0)
    ∷ p.loop
    ∷ salt p
    ∷ pointer_bytes p.pointer

-- memcmp(a, b) < 0
unfoldable pub key_less : List ℕ → List ℕ → Bool
key_less [] ks = false
key_less (j ∷ js) [] = false
key_less (j ∷ js) (k ∷ ks) =
    let rest = key_less js ks in if ltb j k then true else if j == k then rest else false

-- `best`, with its key: all zero at first, and of no peer.
pub record Best : Type 0 where
  pub key : List ℕ
  pub peer : Option Peer

abbrev pub zero_best : Best
zero_best = record { key = 0 ∷ 0 ∷ 0 ∷ 0 ∷ 0 ∷ 0 ∷ pointer_bytes 0; peer = none }

module _ (now : ℕ) (salt : Peer → ℕ) (filter : Peer → Bool) where
  -- The body of the loop of `select_peer`, for the peer `p` at `i`.
  unfoldable pub consider : ℕ → Peer → Best → Best
  consider i p best =
      if filter p
      then best
      else if i == 0
      then record { key = sort_key now salt p; peer = some p }
      else if key_less (sort_key now salt p) best.key
      then record { key = sort_key now salt p; peer = some p }
      else best

  unfoldable pub select_loop : ℕ → List Peer → Best → Best
  select_loop i [] best = best
  select_loop i (p ∷ ps) best = select_loop (i + 1) ps (consider i p best)

  unfoldable pub select_peer : List Peer → Option Peer
  select_peer ps = (select_loop 0 ps zero_best).peer
