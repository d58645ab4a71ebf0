-- ===== src/Pending/Counts.antt =====
-- client.c: the queue of waiting requests and its counter, through the operations on it.
use newnode.Prelude.{
  ℕ, zero, suc, ◌+◌, ◌-◌, ◌<◌, ◌≡◌, ◌∙◌, inl, inr, refl, sym, ap, Bool, true, false, Option, none,
  some, List, [], ◌∷◌, arith, ◌==◌, if◌then◌else◌, length, Bool-cases,
}
use newnode.Peers.{Peer}
use newnode.Pending.{
  Connection, PendingRequest, Event, Pool, remove, evhttp_utp_connect, start_peer_connection,
  connect_selected, filled, fill, or_else, connect_slots, abort_connect,
}

-- How often a request stands in the queue.
abbrev pub occurs : ℕ → List PendingRequest → ℕ
occurs r [] = 0
occurs r (q ∷ qs) = let rest = occurs r qs in if q.request == r then rest + 1 else rest

-- The pool keeps its size, the counter is the length of the queue, and a request stands in the queue
-- once while its `on_connect` is set, else not.
pub record Sound (s : Pool) : Type 0 where
  pub size : length s.peer_connections ≡ 20
  pub count : s.pending_requests_len ≡ length s.pending_requests
  pub once : (r : ℕ) → occurs r s.pending_requests ≡ (if s.on_connect r then 1 else 0)

pub length-remove :
    (r : ℕ) (qs : List PendingRequest) → 0 < occurs r qs → length (remove r qs) + 1 ≡ length qs
unfolding remove
length-remove r [] lt = absurd (omega arith)
length-remove r (q ∷ qs) lt = ground (arith, length-remove r qs)

pub occurs-remove :
    (p r : ℕ) (qs : List PendingRequest)
    → 0 < occurs r qs
    → occurs p (remove r qs) ≡ (if r == p then occurs p qs - 1 else occurs p qs)
unfolding remove
occurs-remove p r [] lt = absurd (omega arith)
occurs-remove p r (q ∷ qs) lt = ground (arith, occurs-remove p r qs)

-- What starting connections leaves as it was.
pub record Kept (s s' : Pool) : Type 0 where
  pub pending : s'.pending_requests ≡ s.pending_requests
  pub len : s'.pending_requests_len ≡ s.pending_requests_len
  pub flags : s'.on_connect ≡ s.on_connect
  pub log : s'.events ≡ s.events

pub Kept-refl : (s : Pool) → Kept s s
Kept-refl s = record { pending = refl; len = refl; flags = refl; log = refl }

pub Kept-trans : (s t u : Pool) → Kept s t → Kept t u → Kept s u
Kept-trans s t u a b = record {
  pending = b.pending ∙ a.pending;
  len = b.len ∙ a.len;
  flags = b.flags ∙ a.flags;
  log = b.log ∙ a.log;
}

module _ (now : ℕ) (salt : ℕ → Peer → ℕ) (coin : ℕ → Bool) where
  connect_selected-Kept :
      (s : Pool) (p : Option Peer) → Kept s (connect_selected now salt coin s p).1
  unfolding connect_selected evhttp_utp_connect
  connect_selected-Kept s none = Kept-refl s
  connect_selected-Kept s (some p) = record { pending = refl; len = refl; flags = refl; log = refl }

  pub start_peer_connection-Kept :
      (peers : List ℕ) (filter : Peer → Bool) (s : Pool)
      → Kept s (start_peer_connection now salt coin peers filter s).1
  unfolding start_peer_connection
  start_peer_connection-Kept peers filter s = connect_selected-Kept s _

  filled-Kept :
      (s : Pool) (cs : List (Option Connection)) (started : Option Connection × Pool)
      (rest : List (Option Connection) × Pool)
      → Kept s started.1
      → (length rest.0 ≡ length cs) × Kept started.1 rest.1
      → (length (filled cs started rest).0 ≡ suc (length cs)) × Kept s (filled cs started rest).1
  filled-Kept s cs (none, t) rest first later = (refl, first)
  filled-Kept s cs (some c, t) rest first (size, kept) =
      (ap suc size, Kept-trans s t rest.1 first kept)

  pub fill-Kept :
      (filter : Peer → Bool) (cs : List (Option Connection)) (s : Pool)
      → (length (fill now salt coin filter cs s).0 ≡ length cs)
        × Kept s (fill now salt coin filter cs s).1
  unfolding fill
  fill-Kept filter [] s = (refl, Kept-refl s)
  fill-Kept filter (some c ∷ cs) s = let (size, kept) = fill-Kept filter cs s in (ap suc size, kept)
  fill-Kept filter (none ∷ cs) s =
      filled-Kept s cs (start_peer_connection now salt coin s.all_peers filter s) _
        (start_peer_connection-Kept s.all_peers filter s) (fill-Kept filter cs _)

  or_else-Kept :
      (s : Pool) (one other : Option Connection × Pool)
      → Kept s one.1
      → Kept one.1 other.1
      → Kept s (or_else one other).1
  or_else-Kept s (none, t) other a b = Kept-trans s t other.1 a b
  or_else-Kept s (some c, t) other a b = a

  pub connect_slots-Kept :
      (preference : Bool) (i n : ℕ) (cs : List (Option Connection)) (s : Pool)
      → (length (connect_slots now salt coin preference i n cs s).0 ≡ length cs)
        × Kept s (connect_slots now salt coin preference i n cs s).1
  unfolding connect_slots
  connect_slots-Kept preference i zero cs s = (refl, Kept-refl s)
  connect_slots-Kept preference i (suc n) [] s = (refl, Kept-refl s)
  connect_slots-Kept preference i (suc n) (some c ∷ cs) s =
      let (size, kept) = connect_slots-Kept preference (i + 1) n cs s in (ap suc size, kept)
  connect_slots-Kept preference i (suc n) (none ∷ cs) s =
      let (size, kept) = connect_slots-Kept preference (i + 1) n cs _ in
      (
        ap suc size,
        Kept-trans s _ _
            (or_else-Kept s _ _ (start_peer_connection-Kept _ (λ p. false) s)
              (start_peer_connection-Kept _ (λ p. false) _))
            kept,
      )

  pub Kept-Sound :
      (s t : Pool) (cs : List (Option Connection)) (es : List Event)
      → Sound s
      → Kept s t
      → length cs ≡ length s.peer_connections
      → Sound (record t { peer_connections = cs; events = es })
  Kept-Sound s t cs es v k size = record {
    size = size ∙ v.size;
    count = k.len ∙ v.count ∙ sym (ap length k.pending);
    once = λ r. ap (occurs r) k.pending ∙ v.once r ∙ ap (λ f. if f r then 1 else 0) (sym k.flags);
  }

-- Aborting takes the request from the queue if it waits there, leaves the others as they are, and
-- keeps the pool and the queue sound.
pub abort_connect-Sound :
    (r : ℕ) (s : Pool)
    → Sound s
    → Sound (abort_connect r s)
      × ((q : ℕ)
          → occurs q (abort_connect r s).pending_requests
            ≡ (if q == r then 0 else occurs q s.pending_requests))
unfolding abort_connect
abort_connect-Sound r s v = elim (Bool-cases (s.on_connect r)) [
  | inl waits ↦
      let in_queue : 0 < occurs r s.pending_requests = ground (arith, v.once r) in
      let gone = λ (q : ℕ). occurs-remove q r s.pending_requests in_queue in
      rw waits (
        record {
          size = v.size;
          count = omega (arith, v.count, length-remove r s.pending_requests in_queue);
          once = λ q. gone q ∙ ground (arith, v.once q, v.once r);
        },
        λ q. gone q ∙ once_only q waits,
      )
  | inr idle ↦ rw idle (v, λ q. absent q idle)
]
  where
    once_only :
        (q : ℕ)
        → s.on_connect r ≡ true
        → (if r == q then occurs q s.pending_requests - 1 else occurs q s.pending_requests)
          ≡ (if q == r then 0 else occurs q s.pending_requests)
    once_only q waits = elim (Bool-cases (r == q)) [
      | inl e ↦
          let same : r ≡ q = ground arith in
          let flag : s.on_connect q ≡ true = ap s.on_connect (sym same) ∙ waits in
          rw same (ground (arith, v.once q))
      | inr other ↦ ground arith
    ]

    absent :
        (q : ℕ)
        → s.on_connect r ≡ false
        → occurs q s.pending_requests ≡ (if q == r then 0 else occurs q s.pending_requests)
    absent q idle = elim (Bool-cases (q == r)) [
      | inl e ↦ let same : q ≡ r = ground arith in rw same (ground (arith, v.once r))
      | inr other ↦ ground arith
    ]
