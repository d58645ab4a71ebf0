-- ===== src/Address/Compare.antt =====
-- network.c: what sockaddr_cmp and sockaddr_eq compare.
use newnode.Prelude.{
  ℕ, ◌≡◌, refl, ap, true, false, some, List, [], ◌∷◌, arith, ◌==◌, ==_iff, ==_refl,
}
use newnode.Address.{
  pos, difference, Sockaddr, inet, inet6, unix, other, family, sockaddr_get_port, sockaddr_cmp,
  compare_ports, compare_bytes, compare_addr, is_zero, sockaddr_eq,
}

compare_bytes_refl : (xs : List ℕ) → compare_bytes xs xs ≡ pos 0
compare_bytes_refl [] = refl
compare_bytes_refl (x ∷ xs) = rw (==_refl x) (compare_bytes_refl xs)

compare_addr-zero :
    (sa : Sockaddr) (p : ℕ) → sockaddr_get_port sa ≡ some p → compare_addr sa ≡ some (pos 0)
unfolding compare_addr sockaddr_get_port
compare_addr-zero (inet hi lo a) p e = refl
compare_addr-zero (inet6 hi lo a) p e = ap some (compare_bytes_refl a)
compare_addr-zero (unix path) p e = absurd (cc e)
compare_addr-zero (other f) p e = absurd (cc e)

compare_ports-zero :
    (a b : ℕ) → is_zero (compare_ports (some a) (some b) (some (pos 0))) ≡ some (a == b)
unfolding is_zero
compare_ports-zero a b = ground arith

-- On two addresses with ports and of one family, sockaddr_eq holds when the ports are equal, whatever
-- the hosts are.
pub sockaddr_eq-port :
    (sa sb : Sockaddr) (p q : ℕ)
    → family sa ≡ family sb
    → sockaddr_get_port sa ≡ some p
    → sockaddr_get_port sb ≡ some q
    → sockaddr_eq sa sb ≡ some (p == q)
unfolding sockaddr_eq sockaddr_cmp
sockaddr_eq-port sa sb p q same ea eb =
    let one : (family sa == family sb) ≡ true = (==_iff _ _).1 same in
    rw (sockaddr_cmp, one, ea, eb, compare_addr-zero sa p ea) (compare_ports-zero p q)

-- On addresses of different families it does not hold, and no port is read.
pub sockaddr_eq-family :
    (sa sb : Sockaddr) → (family sa == family sb) ≡ false → sockaddr_eq sa sb ≡ some false
unfolding sockaddr_eq sockaddr_cmp is_zero
sockaddr_eq-family sa sb other_family =
    rw (sockaddr_cmp, other_family) (apart (family sa) (family sb) other_family)
  where
    apart : (a b : ℕ) → (a == b) ≡ false → is_zero (some (difference a b)) ≡ some false
    apart a b e = ground arith
