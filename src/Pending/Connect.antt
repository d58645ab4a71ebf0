-- ===== src/Pending/Connect.antt =====
-- client.c: what on_utp_connect does with a new connection.
use newnode.Prelude.{
  ℕ, ◌-◌, ◌<◌, ◌≡◌, Bool, true, false, Option, none, some, List, [], ◌∷◌, ◌==◌, if◌then◌else◌,
}
use newnode.Peers.{Peer, via_contains}
use newnode.Pending.{Connection, PendingRequest, connected, Pool, set_flag, remove, make_ready}
use newnode.Pending.Slots.{Leaves, Filled}
use newnode.Pending.Counts.{occurs}

-- Whether the connection is in the pool.
abbrev pub pooled : ℕ → List (Option Connection) → Bool
pooled pc [] = false
pooled pc (none ∷ cs) = pooled pc cs
pooled pc (some c ∷ cs) = let rest = pooled pc cs in if c.pointer == pc then true else rest

-- The ready connection of that pointer has left the slots, where it was marked ready.
abbrev pub LeavesReady : ℕ → List (Option Connection) → List (Option Connection) → Type 0
LeavesReady pc cs rest =
    (c : Connection) × (c.pointer ≡ pc) × (c.ready ≡ true) × Leaves c (make_ready pc cs) rest

-- The request `r` was taken from the queue and given the connection, which has left its slot; of the slots
-- that are left, empty ones may have a connection that is not ready.
pub record Given (r : PendingRequest) (pc : Connection) (s s' : Pool) : Type 0 where
  pub rest : List (Option Connection)
  pub leaves : LeavesReady pc.pointer s.peer_connections rest
  pub filled : Filled rest s'.peer_connections
  pub log : s'.events ≡ connected r.request pc ∷ s.events
  pub pending : s'.pending_requests ≡ remove r.request s.pending_requests
  pub allowed : via_contains r.via (s.peer_at pc.peer).via ≡ false

module _ (now : ℕ) (salt : ℕ → Peer → ℕ) (coin : ℕ → Bool) where
  -- What is found among `qs` stands there, and has not passed the peer of the connection.
  abbrev Found : (ℕ → Peer) → Connection → List PendingRequest → Option PendingRequest → Type 0
  Found at pc qs none = Unit
  Found at pc qs (some r) =
      (0 < occurs r.request qs) × (via_contains r.via (at pc.peer).via ≡ false)

  abbrev handed : PendingRequest → Connection → Pool → List (Option Connection) → Pool
  handed r pc s rest = record s {
    peer_connections = rest;
    pending_requests = remove r.request s.pending_requests;
    pending_requests_len = s.pending_requests_len - 1;
    on_connect = set_flag s.on_connect r.request false;
    events = connected r.request pc ∷ s.events;
  }
