-- ===== src/Http/Pool.antt =====
-- http.c: the pool of connections to origins, which are numbers here.
use newnode.Prelude.{
  ◌>>=◌, if_false, ℕ, ◌≡◌, refl, Bool, true, false, ◌&&◌, Option, none, some, List, [], ◌∷◌, ◌++◌,
  ◌==◌, if◌then◌else◌, if_true,
}
use newnode.Http.{same_key}

-- The close callbacks that are set or cleared, and the connections that are freed.
pub data PoolEvent : Type 0 where
  set_closecb clear_closecb evcon_free evcon_free_on_completion : ℕ → PoolEvent

pub record Connections : Type 0 where
  pub connections : List (Option ℕ)
  pub events : List PoolEvent

-- evhttp_uri_get_scheme, _host and _port, whose port -1 is `none`.
pub record Uri : Type 0 where
  pub scheme : List ℕ
  pub host : Option (List ℕ)
  pub port : Option ℕ

-- evhttp_connection_get_peer: the host and port that a connection was made for.
pub record HostPort : Type 0 where
  pub e_host : List ℕ
  pub e_port : ℕ

-- A connection that is used again, a new one to a host and port, or none for a URI without a host. A port
-- of -1 that get_port_for_scheme gives is `none`, and matches no connection.
pub data Made : Type 0 where
  reused : ℕ → Made
  connects : List ℕ → Option ℕ → Made
  no_host : Made

-- The first free slot is taken, or the pool is full.
unfoldable pub put : ℕ → List (Option ℕ) → Option (List (Option ℕ))
put evcon [] = none
put evcon (none ∷ cs) = some (some evcon ∷ cs)
put evcon (some c ∷ cs) = put evcon cs >>= λ rest. some (some c ∷ rest)

-- The first slot with the connection is cleared.
unfoldable pub vacate : ℕ → List (Option ℕ) → List (Option ℕ)
vacate evcon [] = []
vacate evcon (none ∷ cs) = none ∷ vacate evcon cs
vacate evcon (some c ∷ cs) =
    let rest = vacate evcon cs in if c == evcon then none ∷ cs else some c ∷ rest

unfoldable pub return_connection : ℕ → Connections → Connections
return_connection evcon p = elim (put evcon p.connections) [
  | none ↦ record p { events = p.events ++ evcon_free evcon ∷ [] }
  | some cs ↦ record p { connections = cs; events = p.events ++ set_closecb evcon ∷ [] }
]

unfoldable pub evcon_close_cb : ℕ → Connections → Connections
evcon_close_cb evcon p = record p {
  connections = vacate evcon p.connections;
  events = p.events ++ evcon_free_on_completion evcon ∷ clear_closecb evcon ∷ [];
}

abbrev pub same_port : Option ℕ → ℕ → Bool
same_port none e_port = false
same_port (some port) e_port = port == e_port

module _ (peer_of : ℕ → HostPort) (get_port_for_scheme : List ℕ → Option ℕ) where
  abbrev pub serves : List ℕ → Option ℕ → ℕ → Bool
  serves host port evcon =
      same_port port (peer_of evcon).e_port && same_key host (peer_of evcon).e_host

  -- The first connection of the pool to a host and port.
  unfoldable pub find : List ℕ → Option ℕ → List (Option ℕ) → Option ℕ
  find host port [] = none
  find host port (none ∷ cs) = find host port cs
  find host port (some c ∷ cs) =
      let rest = find host port cs in if serves host port c then some c else rest

  abbrev pub with_port : Connections → List ℕ → Option ℕ → Made × Connections
  with_port p host port = elim (find host port p.connections) [
    | none ↦ (connects host port, p)
    | some evcon ↦ (
      reused evcon,
      record p {
        connections = vacate evcon p.connections;
        events = p.events ++ clear_closecb evcon ∷ [];
      },
    )
  ]

  abbrev pub port_of : Uri → Option ℕ
  port_of uri = elim uri.port [ none ↦ get_port_for_scheme uri.scheme | some port ↦ some port ]

  unfoldable pub make_connection : Uri → Connections → Made × Connections
  make_connection uri p = elim uri.host [
    | none ↦ (no_host, p)
    | some host ↦ with_port p host (port_of uri)
  ]

  unfoldable pub Found : List ℕ → Option ℕ → ℕ → Option (List (Option ℕ)) → Type 0
  Found host port evcon none = Unit
  Found host port evcon (some cs) = find host port cs ≡ some evcon

  not_here :
      (b : Bool) (c : ℕ) (o : Option ℕ)
      → (if b then some c else o) ≡ none
      → (b ≡ false) × (o ≡ none)
  not_here true c o h = cc
  not_here false c o h = (refl, h)

  behind :
      (host : List ℕ) (port : Option ℕ) (evcon c : ℕ) (o : Option (List (Option ℕ)))
      → serves host port c ≡ false
      → Found host port evcon o
      → Found host port evcon (o >>= λ rest. some (some c ∷ rest))
  unfolding Found find
  behind host port evcon c none n f = tt
  behind host port evcon c (some cs) n f = if_false (λ x. x ≡ some evcon) (serves host port c) _ n f

  -- A connection that was put in the pool is found for its host and port, if none was found before.
  pub put-find :
      (host : List ℕ) (port : Option ℕ) (evcon : ℕ) (cs : List (Option ℕ))
      → serves host port evcon ≡ true
      → find host port cs ≡ none
      → Found host port evcon (put evcon cs)
  unfolding Found find put
  put-find host port evcon [] y h = tt
  put-find host port evcon (none ∷ cs) y h =
      if_true (λ x. x ≡ some evcon) (serves host port evcon) _ y refl
  put-find host port evcon (some c ∷ cs) y h =
      let p = not_here (serves host port c) c (find host port cs) h in
      behind host port evcon c (put evcon cs) p.0 (put-find host port evcon cs y p.1)
