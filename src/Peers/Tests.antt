-- ===== src/Peers/Tests.antt =====
-- client.c: the selection of a peer among two.
use mathlib.Core.List.{Memᴰ}
use newnode.Prelude.{◌≡◌, refl, Bool, true, false, none, some, [], ◌∷◌, ◌==◌}
use newnode.Base64.{codes}
use newnode.Peers.{Peer, via_contains, strstr, starts_with, select_peer}
use newnode.Peers.Select.{NoneBefore, select_peer-NoneBefore, select_peer-first_filtered}

abbrev pub tried : Peer
tried = record {
  pointer = 4096;
  addr = 127 ∷ [];
  port = 80;
  last_verified = 90;
  last_connect = 0;
  last_connect_attempt = 50;
  via = b'a';
  loop = 0;
}

abbrev pub fresh : Peer
fresh = record tried { pointer = 8192; last_connect_attempt = 0; via = b'b' }

via_run : via_contains (some (codes "1.1 a.newnode")) b'a' ≡ true
unfolding via_contains strstr starts_with
via_run = refl

abbrev passes : Peer → Bool
passes p = false

abbrev is_tried : Peer → Bool
is_tried p = p.pointer == 4096

select_peer-NoneBefore_example :
    (q : Peer) × (select_peer 100 (λ p. 3) passes (tried ∷ fresh ∷ []) ≡ some q)
    × Memᴰ q (tried ∷ fresh ∷ [])
    × (passes q ≡ false)
    × NoneBefore 100 (λ p. 3) passes q (tried ∷ fresh ∷ [])
select_peer-NoneBefore_example = select_peer-NoneBefore 100 (λ p. 3) passes tried (fresh ∷ []) refl

select_peer-first_filtered_example : select_peer 100 (λ p. 3) is_tried (tried ∷ fresh ∷ []) ≡ none
select_peer-first_filtered_example =
    select_peer-first_filtered 100 (λ p. 3) is_tried tried (fresh ∷ []) refl
