-- ===== src/Pending/Slots.antt =====
-- client.c: how the operations on the pool change its slots.
use newnode.Prelude.{
  ℕ, zero, suc, ◌+◌, ◌≡◌, refl, ap, Bool, true, false, not, ◌&&◌, Option, none, some, List, [], ◌∷◌,
  All, arith, length, Bool-cases, inl, inr,
}
use newnode.Peers.{Peer}
use newnode.Pending.{
  Connection, Pool, pick, picked_behind, evhttp_utp_connect, connect_selected,
  start_peer_connection, filled, fill, or_else, connect_slots,
}

-- The connection stands in one of the slots, and `rest` are the slots with that one cleared.
pub data Leaves (c : Connection)
    : List (Option Connection) → List (Option Connection) → Type 0 where
  at_front : (cs : List (Option Connection)) → Leaves c (some c ∷ cs) (none ∷ cs)
  further :
      (d : Option Connection) (cs rest : List (Option Connection))
      → Leaves c cs rest
      → Leaves c (d ∷ cs) (d ∷ rest)

-- Each slot is as it was, or it was empty and has a connection that is not ready.
pub data Filled : List (Option Connection) → List (Option Connection) → Type 0 where
  end : Filled [] []
  as_before :
      (d : Option Connection) (cs slots : List (Option Connection))
      → Filled cs slots
      → Filled (d ∷ cs) (d ∷ slots)
  made :
      (c : Connection) (cs slots : List (Option Connection))
      → c.ready ≡ false
      → Filled cs slots
      → Filled (none ∷ cs) (some c ∷ slots)

pub length-Leaves :
    (c : Connection) (cs rest : List (Option Connection))
    → Leaves c cs rest
    → length rest ≡ length cs
length-Leaves c xs ys (at_front cs) = refl
length-Leaves c xs ys (further d cs rest h) = ap suc (length-Leaves c cs rest h)

pub Filled-refl : (cs : List (Option Connection)) → Filled cs cs
Filled-refl [] = end
Filled-refl (d ∷ cs) = as_before d cs cs (Filled-refl cs)

-- No connection is ready and not filtered out.
abbrev Unfit : (Peer → Bool) → (ℕ → Peer) → Option Connection → Type 0
Unfit filter at none = Unit
Unfit filter at (some c) = (c.ready && not (filter (at c.peer))) ≡ false

abbrev pub NoneFits : (Peer → Bool) → (ℕ → Peer) → List (Option Connection) → Type 0
NoneFits filter at = All (Unfit filter at)

-- What is picked of the slots is ready and not filtered out, and the others are left.
abbrev pub Picked :
    (Peer → Bool)
    → (ℕ → Peer)
    → List (Option Connection)
    → Option (Connection × List (Option Connection))
    → Type 0
Picked filter at cs none = NoneFits filter at cs
Picked filter at cs (some (c, rest)) =
    Leaves c cs rest × (c.ready ≡ true) × (filter (at c.peer) ≡ false)

picked_behind-Picked :
    (filter : Peer → Bool) (at : ℕ → Peer) (cs : List (Option Connection)) (d : Option Connection)
    (o : Option (Connection × List (Option Connection)))
    → Unfit filter at d
    → Picked filter at cs o
    → Picked filter at (d ∷ cs) (picked_behind d o)
picked_behind-Picked filter at cs d none bad h = (bad, h)
picked_behind-Picked filter at cs d (some (c, rest)) bad (leaves, ready, ok) =
    (further d cs rest leaves, ready, ok)

pub pick-Picked :
    (filter : Peer → Bool) (at : ℕ → Peer) (cs : List (Option Connection))
    → Picked filter at cs (pick filter at cs)
unfolding pick
pick-Picked filter at [] = tt
pick-Picked filter at (none ∷ cs) =
    picked_behind-Picked filter at cs none _ tt (pick-Picked filter at cs)
pick-Picked filter at (some d ∷ cs) = elim (Bool-cases (d.ready && not (filter (at d.peer)))) [
  | inl good ↦
      let (ready, ok) = both d.ready (filter (at d.peer)) good in rw good (at_front cs, ready, ok)
  | inr bad ↦ rw bad (picked_behind-Picked filter at cs (some d) _ bad (pick-Picked filter at cs))
]
  where
    both : (a b : Bool) → (a && not b) ≡ true → (a ≡ true) × (b ≡ false)
    both a b e = ground arith

module _ (now : ℕ) (salt : ℕ → Peer → ℕ) (coin : ℕ → Bool) where
  abbrev Fresh : Option Connection → Type 0
  Fresh none = Unit
  Fresh (some c) = c.ready ≡ false

  connect_selected-Fresh :
      (s : Pool) (p : Option Peer) → Fresh (connect_selected now salt coin s p).0
  unfolding connect_selected evhttp_utp_connect
  connect_selected-Fresh s none = tt
  connect_selected-Fresh s (some p) = refl

  start_peer_connection-Fresh :
      (peers : List ℕ) (filter : Peer → Bool) (s : Pool)
      → Fresh (start_peer_connection now salt coin peers filter s).0
  unfolding start_peer_connection
  start_peer_connection-Fresh peers filter s = connect_selected-Fresh s _

  filled-Filled :
      (cs : List (Option Connection)) (one : Option Connection × Pool)
      (rest : List (Option Connection) × Pool)
      → Fresh one.0
      → Filled cs rest.0
      → Filled (none ∷ cs) (filled cs one rest).0
  filled-Filled cs (none, s) rest fresh h = Filled-refl (none ∷ cs)
  filled-Filled cs (some c, s) rest fresh h = made c cs rest.0 fresh h

  pub fill-Filled :
      (filter : Peer → Bool) (cs : List (Option Connection)) (s : Pool)
      → Filled cs (fill now salt coin filter cs s).0
  unfolding fill
  fill-Filled filter [] s = end
  fill-Filled filter (some c ∷ cs) s =
      as_before (some c) cs (fill now salt coin filter cs s).0 (fill-Filled filter cs s)
  fill-Filled filter (none ∷ cs) s =
      filled-Filled cs (start_peer_connection now salt coin s.all_peers filter s) _
        (start_peer_connection-Fresh s.all_peers filter s) (fill-Filled filter cs _)

  or_else-Fresh :
      (one other : Option Connection × Pool)
      → Fresh one.0
      → Fresh other.0
      → Fresh (or_else one other).0
  or_else-Fresh (none, t) other a b = b
  or_else-Fresh (some c, t) other a b = a

  in_slot :
      (d : Option Connection) (cs slots : List (Option Connection))
      → Fresh d
      → Filled cs slots
      → Filled (none ∷ cs) (d ∷ slots)
  in_slot none cs slots fresh h = as_before none cs slots h
  in_slot (some c) cs slots fresh h = made c cs slots fresh h

  pub connect_slots-Filled :
      (preference : Bool) (i n : ℕ) (cs : List (Option Connection)) (s : Pool)
      → Filled cs (connect_slots now salt coin preference i n cs s).0
  unfolding connect_slots
  connect_slots-Filled preference i zero cs s = Filled-refl cs
  connect_slots-Filled preference i (suc n) [] s = end
  connect_slots-Filled preference i (suc n) (some c ∷ cs) s =
      as_before (some c) cs _ (connect_slots-Filled preference (i + 1) n cs s)
  connect_slots-Filled preference i (suc n) (none ∷ cs) s =
      in_slot _ cs _
        (or_else-Fresh _ _ (start_peer_connection-Fresh _ (λ p. false) s)
          (start_peer_connection-Fresh _ (λ p. false) _))
        (connect_slots-Filled preference (i + 1) n cs _)
