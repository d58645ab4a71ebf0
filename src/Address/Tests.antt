-- ===== src/Address/Tests.antt =====
-- network.c: addresses of two hosts.
use newnode.Prelude.{◌≡◌, refl, some, [], ◌∷◌, ◌==◌, arith}
use newnode.Address.{
  Sockaddr, inet, source, destination, sockaddr_eq, sockaddr_get_port, sockaddr_set_port,
}
use newnode.Address.Mapping.{source-destination, sockaddr_get_port-set_port}
use newnode.Address.Compare.{sockaddr_eq-port}

abbrev one_host : Sockaddr
one_host = inet 31 144 (10 ∷ 0 ∷ 0 ∷ 1 ∷ [])

abbrev other_host : Sockaddr
other_host = inet 31 144 (192 ∷ 168 ∷ 7 ∷ 9 ∷ [])

source-destination_example : source (destination one_host) ≡ one_host
source-destination_example = source-destination 31 144 10 0 0 1

set_run : sockaddr_set_port other_host 8080 ≡ some (inet 31 144 (192 ∷ 168 ∷ 7 ∷ 9 ∷ []))
unfolding sockaddr_set_port
set_run = refl

sockaddr_get_port-set_port_example : sockaddr_get_port other_host ≡ some 8080
sockaddr_get_port-set_port_example =
    sockaddr_get_port-set_port other_host other_host 8080 (omega arith) set_run

port_run : (sockaddr_get_port one_host ≡ some 8080) × (sockaddr_get_port other_host ≡ some 8080)
unfolding sockaddr_get_port
port_run = (refl, refl)

sockaddr_eq-port_example : sockaddr_eq one_host other_host ≡ some (8080 == 8080)
sockaddr_eq-port_example = sockaddr_eq-port one_host other_host 8080 8080 refl port_run.0 port_run.1
