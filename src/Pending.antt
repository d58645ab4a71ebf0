-- ===== src/Pending.antt =====
-- client.c: the requests that wait for a peer, and the pool of connections that serve them.
pub mod Slots
pub mod Counts
pub mod Queue
pub mod Connect
mod Tests
use newnode.Prelude.{
  ℕ, zero, suc, ◌+◌, ◌-◌, ◌/◌, Bool, true, false, not, ◌&&◌, ◌||◌, Option, none, some, List, [],
  ◌∷◌, ◌++◌, ltb, leb, ◌==◌, if◌then◌else◌, length,
}
use newnode.Peers.{Peer, via_contains, select_peer}

-- A peer_connection, by its pointer; `peer` is the pointer to its peer, `ready` says that it has an
-- `evcon`, as on_utp_connect sets it, in place of its `bev`.
pub record Connection : Type 0 where
  pub pointer : ℕ
  pub peer : ℕ
  pub ready : Bool

pub record PendingRequest : Type 0 where
  pub request : ℕ
  pub via : Option (List ℕ)

-- What the callers see: a connection given to a request's `on_connect`, or one that is freed.
pub data Event : Type 0 where
  connected : ℕ → Connection → Event
  freed : Connection → Event

pub record Pool : Type 0 where
  pub peer_connections : List (Option Connection)
  pub pending_requests : List PendingRequest
  pub pending_requests_len : ℕ
  pub on_connect : ℕ → Bool
  pub peer_at : ℕ → Peer
  pub all_peers : List ℕ
  pub injectors : List ℕ
  pub injector_proxies : List ℕ
  pub next_pointer : ℕ
  pub events : List Event

abbrev pub map_peers : (ℕ → Peer) → List ℕ → List Peer
map_peers at [] = []
map_peers at (p ∷ ps) = at p ∷ map_peers at ps

abbrev pub set_flag {ℓ} : {A : Type ℓ} → (ℕ → A) → ℕ → A → ℕ → A
set_flag f i v j = if i == j then v else f j

-- Removes the first entry of a request.
unfoldable pub remove : ℕ → List PendingRequest → List PendingRequest
remove r [] = []
remove r (q ∷ qs) = let rest = remove r qs in if q.request == r then qs else q ∷ rest

abbrev pub behind :
    Option Connection → Option (List (Option Connection)) → Option (List (Option Connection))
behind c none = none
behind c (some cs) = some (c ∷ cs)

abbrev pub picked_behind :
    Option Connection
    → Option (Connection × List (Option Connection))
    → Option (Connection × List (Option Connection))
picked_behind c none = none
picked_behind c (some (d, cs)) = some (d, c ∷ cs)

-- `pool[i] = NULL` at the first `i` where the pool has the connection; `none` if it has none.
unfoldable pub take_out : ℕ → List (Option Connection) → Option (List (Option Connection))
take_out pc [] = none
take_out pc (none ∷ cs) = behind none (take_out pc cs)
take_out pc (some c ∷ cs) =
    let later = behind (some c) (take_out pc cs) in
    if c.pointer == pc then some (none ∷ cs) else later

-- The slots from a free one on: the loop stops there if no connection was started.
abbrev pub filled :
    List (Option Connection)
    → Option Connection × Pool
    → List (Option Connection) × Pool
    → List (Option Connection) × Pool
filled cs (none, s) rest = (none ∷ cs, s)
filled cs (some c, s) (rest, s') = (some c ∷ rest, s')

-- The loop that looks for a ready connection that is not filtered out: it and the pool without it,
-- or how many were filtered out.
unfoldable pub pick :
    (Peer → Bool)
    → (ℕ → Peer)
    → List (Option Connection)
    → Option (Connection × List (Option Connection))
pick filter at [] = none
pick filter at (none ∷ cs) = picked_behind none (pick filter at cs)
pick filter at (some c ∷ cs) =
    let later = picked_behind (some c) (pick filter at cs) in
    if c.ready && not (filter (at c.peer)) then some (c, none ∷ cs) else later

unfoldable pub count_filtered : (Peer → Bool) → (ℕ → Peer) → List (Option Connection) → ℕ
count_filtered filter at [] = 0
count_filtered filter at (none ∷ cs) = count_filtered filter at cs
count_filtered filter at (some c ∷ cs) =
    let n = count_filtered filter at cs in if c.ready && filter (at c.peer) then n + 1 else n

-- Frees the first `limit` connections that are filtered out.
unfoldable pub discard :
    ℕ
    → (Peer → Bool)
    → (ℕ → Peer)
    → List (Option Connection)
    → List (Option Connection) × List Event
discard zero filter at cs = (cs, [])
discard (suc limit) filter at [] = ([], [])
discard (suc limit) filter at (none ∷ cs) =
    let (rest, es) = discard (suc limit) filter at cs in (none ∷ rest, es)
discard (suc limit) filter at (some c ∷ cs) =
    let (less, es) = discard limit filter at cs in
    let (rest, fs) = discard (suc limit) filter at cs in
    if c.ready && filter (at c.peer) then (none ∷ less, freed c ∷ es) else (some c ∷ rest, fs)

-- The end of `queue_request`, when no connection was found.
unfoldable pub enqueue : PendingRequest → Pool → Option Pool
enqueue r s =
    if s.on_connect r.request
    then none
    else some (record s {
      on_connect = set_flag s.on_connect r.request true;
      pending_requests = s.pending_requests ++ r ∷ [];
      pending_requests_len = s.pending_requests_len + 1;
    })

-- What follows in `queue_request` on what was picked. `none` is a failed assertion, here and below.
unfoldable pub serve_or_enqueue :
    PendingRequest
    → (Peer → Bool)
    → List (Option Connection)
    → Pool
    → Option (Connection × List (Option Connection))
    → Option Pool
serve_or_enqueue r filter slots s (some (c, rest)) =
    some (record s { peer_connections = rest; events = connected r.request c ∷ s.events })
serve_or_enqueue r filter slots s none =
    let (kept, gone) = discard 2 filter s.peer_at slots in
    if leb (length slots / 2) (count_filtered filter s.peer_at slots)
    then enqueue r (record s { peer_connections = kept; events = gone ++ s.events })
    else enqueue r (record s { peer_connections = slots })

abbrev pub or_else : Option Connection × Pool → Option Connection × Pool → Option Connection × Pool
or_else (none, s) other = other
or_else (some c, s) other = (some c, s)

-- pending_request_complete, with the callback as an event.
unfoldable pub pending_request_complete : PendingRequest → Connection → Pool → Pool
pending_request_complete r pc s = record s {
  on_connect = set_flag s.on_connect r.request false;
  events = connected r.request pc ∷ s.events;
}

-- The first request that the connection may serve.
unfoldable pub first_fit : (ℕ → Peer) → Connection → List PendingRequest → Option PendingRequest
first_fit at pc [] = none
first_fit at pc (r ∷ rs) =
    let rest = first_fit at pc rs in if via_contains r.via (at pc.peer).via then rest else some r

abbrev pub is_none {ℓ} : {A : Type ℓ} → Option A → Bool
is_none none = true
is_none (some a) = false

abbrev pub make_ready : ℕ → List (Option Connection) → List (Option Connection)
make_ready pc [] = []
make_ready pc (none ∷ cs) = none ∷ make_ready pc cs
make_ready pc (some c ∷ cs) =
    some (if c.pointer == pc then record c { ready = true } else c) ∷ make_ready pc cs

unfoldable pub abort_connect : ℕ → Pool → Pool
abort_connect r s =
    if s.on_connect r
    then record s {
      on_connect = set_flag s.on_connect r false;
      pending_requests = remove r s.pending_requests;
      pending_requests_len = s.pending_requests_len - 1;
    }
    else s

-- `now` is the clock's time, `salt` what randombytes_uniform(0xFF) gives for a peer while the connection
-- of that pointer is chosen, `coin` what randombytes_uniform(2) gives at an index of the pool.
module _ (now : ℕ) (salt : ℕ → Peer → ℕ) (coin : ℕ → Bool) where
  unfoldable pub evhttp_utp_connect : Peer → Pool → Connection × Pool
  evhttp_utp_connect p s = (
    record { pointer = s.next_pointer; peer = p.pointer; ready = false },
    record s {
      next_pointer = s.next_pointer + 1;
      peer_at = set_flag s.peer_at p.pointer (record p { last_connect_attempt = now });
    },
  )

  unfoldable pub connect_selected : Pool → Option Peer → Option Connection × Pool
  connect_selected s none = (none, s)
  connect_selected s (some p) = let (c, s') = evhttp_utp_connect p s in (some c, s')

  -- A NULL filter is the one that filters nothing.
  unfoldable pub start_peer_connection : List ℕ → (Peer → Bool) → Pool → Option Connection × Pool
  start_peer_connection peers filter s =
      connect_selected s (select_peer now (salt s.next_pointer) filter (map_peers s.peer_at peers))

  -- The loop of `queue_request` that fills free slots.
  unfoldable pub fill :
      (Peer → Bool) → List (Option Connection) → Pool → List (Option Connection) × Pool
  fill filter [] s = ([], s)
  fill filter (some c ∷ cs) s = let (rest, s') = fill filter cs s in (some c ∷ rest, s')
  fill filter (none ∷ cs) s =
      let started = start_peer_connection s.all_peers filter s in
      filled cs started (fill filter cs started.1)

  -- The times last_request and last_lsd, and whether local discovery is sent, are not kept.
  unfoldable pub queue_request : PendingRequest → (Peer → Bool) → Pool → Option Pool
  queue_request r filter s =
      let (slots, s1) = fill filter s.peer_connections s in
      serve_or_enqueue r filter slots s1 (pick filter s1.peer_at slots)

  -- The loop over the first half of the pool.
  unfoldable pub connect_slots :
      Bool → ℕ → ℕ → List (Option Connection) → Pool → List (Option Connection) × Pool
  connect_slots preference i zero cs s = (cs, s)
  connect_slots preference i (suc n) [] s = ([], s)
  connect_slots preference i (suc n) (some c ∷ cs) s =
      let (rest, s') = connect_slots preference (i + 1) n cs s in (some c ∷ rest, s')
  connect_slots preference i (suc n) (none ∷ cs) s =
      let swap = not preference && coin i in
      let first = if swap then s.injector_proxies else s.injectors in
      let second = if swap then s.injectors else s.injector_proxies in
      let one = start_peer_connection first (λ p. false) s in
      let (d, s2) = or_else one (start_peer_connection second (λ p. false) one.1) in
      let (rest, s3) = connect_slots preference (i + 1) n cs s2 in (d ∷ rest, s3)

  unfoldable pub connect_more_injectors : Bool → Pool → Pool
  connect_more_injectors preference s =
      let n = length s.peer_connections / 2 in
      let (slots, s') = connect_slots preference 0 n s.peer_connections s in
      record s' { peer_connections = slots }

  -- The body of the loop in `on_utp_connect` for the request that was found, with the pool that is left
  -- without the connection.
  unfoldable pub give :
      PendingRequest → Connection → Pool → Option (List (Option Connection)) → Option Pool
  give r pc s none = none
  give r pc s (some rest) =
      let left = remove r.request s.pending_requests in
      let s1 = pending_request_complete r pc (record s {
        peer_connections = rest;
        pending_requests = left;
        pending_requests_len = s.pending_requests_len - 1;
      }) in
      some (if length left == 0 then s1 else connect_more_injectors false s1)

  unfoldable pub give_first :
      Connection → Pool → List (Option Connection) → Option PendingRequest → Option Pool
  give_first pc s slots none = some (record s { peer_connections = slots })
  give_first pc s slots (some r) = give r pc s (take_out pc.pointer slots)

  -- `bufferevent_getfd` is the descriptor of the bufferevent of the connection of that pointer, `none` for -1.
  unfoldable pub on_utp_connect : (ℕ → Option ℕ) → Connection → Pool → Option Pool
  on_utp_connect bufferevent_getfd pc s =
      let pc' = record pc { ready = true } in
      if pc.ready || is_none (bufferevent_getfd pc.pointer)
      then none
      else give_first pc' s (make_ready pc.pointer s.peer_connections)
          (first_fit s.peer_at pc' s.pending_requests)
