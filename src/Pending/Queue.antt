-- ===== src/Pending/Queue.antt =====
-- client.c: queue_request, which serves a request at once or lets it wait.
use newnode.Prelude.{◌≡◌, Bool, true, false, Option, List, [], ◌∷◌, ◌++◌}
use newnode.Peers.{Peer}
use newnode.Pending.{Connection, PendingRequest, connected, Pool}
use newnode.Pending.Slots.{Leaves, Filled, NoneFits}

-- The request was put behind those that wait, and no connection of the slots, filled with those that were
-- started, is ready and not filtered out.
pub record Queued (r : PendingRequest) (filter : Peer → Bool) (s s' : Pool) : Type 0 where
  pub slots : List (Option Connection)
  pub filled : Filled s.peer_connections slots
  pub none_fits : NoneFits filter s'.peer_at slots
  pub pending : s'.pending_requests ≡ s.pending_requests ++ r ∷ []
  pub waits : s'.on_connect r.request ≡ true

-- The request was given a ready connection that is not filtered out, which leaves the slots, filled with
-- those that were started, and the requests that wait are as before.
pub record Served (r : PendingRequest) (filter : Peer → Bool) (s s' : Pool) : Type 0 where
  pub pc : Connection
  pub slots : List (Option Connection)
  pub filled : Filled s.peer_connections slots
  pub leaves : Leaves pc slots s'.peer_connections
  pub ready : pc.ready ≡ true
  pub allowed : filter (s'.peer_at pc.peer) ≡ false
  pub log : s'.events ≡ connected r.request pc ∷ s.events
  pub pending : s'.pending_requests ≡ s.pending_requests
