-- ===== src/Address/Mapping.antt =====
-- network.c: an IPv4 address on its way out and back in.
use newnode.Prelude.{
  ℕ, ◌<◌, ◌≡◌, ◌∙◌, refl, sym, ap, some, [], ◌∷◌, ◌++◌, arith, Bool-cases, inl, inr, bytes_eq,
  bytes_eq→eq, replicate, take,
}
use newnode.Address.{
  Sockaddr, inet, inet6, unix, other, map4to6, map6to4, destination, source, v4_anyaddr,
  sockaddr_get_port, sockaddr_set_port,
}

-- The special cases of `map4to6` are the general one.
map4to6-bytes :
    (a b c d : ℕ) → map4to6 (a ∷ b ∷ c ∷ d ∷ []) ≡ take 12 v4_anyaddr ++ a ∷ b ∷ c ∷ d ∷ []
unfolding map4to6
map4to6-bytes a b c d = elim (Bool-cases (bytes_eq (a ∷ b ∷ c ∷ d ∷ []) (replicate 4 0))) [
  | inl any ↦ rw any (ap (λ x. take 12 v4_anyaddr ++ x) (sym (bytes_eq→eq _ _ any)))
  | inr some_set ↦ elim (Bool-cases (bytes_eq (a ∷ b ∷ c ∷ d ∷ []) (replicate 4 0xff))) [
    | inl all ↦ rw (some_set, all) (ap (λ x. take 12 v4_anyaddr ++ x) (sym (bytes_eq→eq _ _ all)))
    | inr some_unset ↦ rw (some_set, some_unset) refl
  ]
]

some_port :
    (sb : Sockaddr) (port : ℕ) (sc : Sockaddr)
    → some sc ≡ some sb
    → sockaddr_get_port sc ≡ some port
    → sockaddr_get_port sb ≡ some port
some_port sb port sc e h = let same : sb ≡ sc = cc e in ap sockaddr_get_port same ∙ h

-- The address of an IPv4 peer comes back from the address that a packet to it is sent to: what
-- udp_read passes on for a packet from there is the address that udp_sendto was given.
pub source-destination :
    (hi lo a b c d : ℕ)
    → source (destination (inet hi lo (a ∷ b ∷ c ∷ d ∷ []))) ≡ inet hi lo (a ∷ b ∷ c ∷ d ∷ [])
unfolding source destination map6to4 bytes_eq
source-destination hi lo a b c d = rw (destination, map4to6-bytes a b c d) refl

-- A port that is set is read back, where setting it does not fail an assertion.
pub sockaddr_get_port-set_port :
    (sa sb : Sockaddr) (port : ℕ)
    → port < 65536
    → sockaddr_set_port sa port ≡ some sb
    → sockaddr_get_port sb ≡ some port
unfolding sockaddr_get_port sockaddr_set_port
sockaddr_get_port-set_port (inet hi lo a) sb port lt e =
    some_port sb port _ e (ap some (omega arith))
sockaddr_get_port-set_port (inet6 hi lo a) sb port lt e =
    some_port sb port _ e (ap some (omega arith))
sockaddr_get_port-set_port (unix path) sb port lt e = absurd (cc e)
sockaddr_get_port-set_port (other f) sb port lt e = absurd (cc e)
