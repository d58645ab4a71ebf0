-- ===== src/Transfer/Kept.antt =====
-- client.c: what of a page the replies to the browser leave as it is, for either loop.
use newnode.Prelude.{
  ◌/◌, ℕ, ◌+◌, ◌≡◌, ◌∙◌, refl, Bool, Option, none, some, List, if◌then◌else◌, ltb, ◌==◌, if_intro,
  length,
}
use newnode.Merkle.{MerkleTree, leaf_chunk_size}
use newnode.Transfer.{
  held_until, minus, chunk_begin, ChunkedRange, ProxyRequest, Round, returns, aborts, goes,
  proxy_request_reply_start, to_server, play, send_segment, send_held, end_reply, join,
}

-- The fields that say which chunks are held, and what they are.
pub record Core (S : Type 0) : Type 0 where
  pub total_length : ℕ
  pub header_buf : List ℕ
  pub have_bitfield : ℕ → Bool
  pub m : MerkleTree S
  pub file : ℕ → ℕ
  pub chunked : Bool
  pub merkle_tree_finished : Bool

module _ {S : Type 0} where
  abbrev pub kept : ProxyRequest S → Core S
  kept p = record {
    total_length = p.total_length;
    header_buf = p.header_buf;
    have_bitfield = p.have_bitfield;
    m = p.m;
    file = p.file;
    chunked = p.chunked;
    merkle_tree_finished = p.merkle_tree_finished;
  }

  -- What holds of the state that a round ends in: `R` where it returns, `G` where the loop goes on, and
  -- `A` where an assertion fails.
  unfoldable pub OnRound :
      {Q : Type 0} (R : ProxyRequest S → Q → Type 0) (A : Type 0) (G : ProxyRequest S → Q → Type 0)
      → Round S Q
      → Type 0
  OnRound R A G (returns b p r input) = R p r
  OnRound R A G aborts = A
  OnRound R A G (goes p r input) = G p r

  pub on_returns :
      {Q : Type 0} (R : ProxyRequest S → Q → Type 0) (A : Type 0) (G : ProxyRequest S → Q → Type 0)
      (b : Bool) (p : ProxyRequest S) (r : Q) (input : List ℕ)
      → R p r
      → OnRound R A G (returns b p r input)
  unfolding OnRound
  on_returns R A G b p r input h = h

  pub on_aborts :
      {Q : Type 0} (R : ProxyRequest S → Q → Type 0) (A : Type 0) (G : ProxyRequest S → Q → Type 0)
      → A
      → OnRound R A G aborts
  unfolding OnRound
  on_aborts R A G h = h

  pub on_goes :
      {Q : Type 0} (R : ProxyRequest S → Q → Type 0) (A : Type 0) (G : ProxyRequest S → Q → Type 0)
      (p : ProxyRequest S) (r : Q) (input : List ℕ)
      → G p r
      → OnRound R A G (goes p r input)
  unfolding OnRound
  on_goes R A G p r input h = h

  pub on_weaker :
      {Q : Type 0} (R R' : ProxyRequest S → Q → Type 0) (A A' : Type 0)
      (G G' : ProxyRequest S → Q → Type 0) (x : Round S Q)
      → ((p : ProxyRequest S) (r : Q) → R p r → R' p r)
      → (A → A')
      → ((p : ProxyRequest S) (r : Q) → G p r → G' p r)
      → OnRound R A G x
      → OnRound R' A' G' x
  unfolding OnRound
  on_weaker R R' A A' G G' (returns b p r input) f a g h = f p r h
  on_weaker R R' A A' G G' aborts f a g h = a h
  on_weaker R R' A A' G G' (goes p r input) f a g h = g p r h

  unfoldable pub KeptSome : Core S → Option (ProxyRequest S) → Type 0
  KeptSome k none = Unit
  KeptSome k (some p) = kept p ≡ k

  pub kept-reply_start :
      (code : ℕ) (p : ProxyRequest S) → kept (proxy_request_reply_start code p) ≡ kept p
  unfolding proxy_request_reply_start
  kept-reply_start code p = if_intro (λ x. kept x ≡ kept p) p.server_req (λ e. refl) (λ e. refl)

  kept-to_server : (bytes : List ℕ) (p : ProxyRequest S) → kept (to_server bytes p) ≡ kept p
  kept-to_server bytes p = if_intro (λ x. kept x ≡ kept p) p.server_req (λ e. refl) (λ e. refl)

  pub kept-play :
      (started p : ProxyRequest S) (r : ChunkedRange)
      → kept started ≡ kept p
      → kept (play started p r) ≡ kept p
  unfolding play
  kept-play started p r same =
      if_intro (λ x. kept x ≡ kept p) (p.byte_playhead == chunk_begin r.chunk_index)
        (λ e.
          kept-to_server r.chunk_buffer (if p.byte_playhead == 0 then started else p)
          ∙ if_intro (λ x. kept x ≡ kept p) (p.byte_playhead == 0) (λ e. same) (λ e. refl))
        (λ e. refl)

  kept-send_segment :
      (p : ProxyRequest S) (c : ℕ) (bytes : Option (List ℕ))
      → KeptSome (kept p) (send_segment p c bytes)
  unfolding KeptSome
  kept-send_segment p c none = tt
  kept-send_segment p c (some bytes) = kept-to_server bytes p

  keep_all : (p : ProxyRequest S) → KeptSome (kept p) (some p)
  unfolding KeptSome
  keep_all p = refl

  pub kept-send_held :
      (segment : (ℕ → ℕ) → ℕ → ℕ → Option (List ℕ)) (p : ProxyRequest S)
      → KeptSome (kept p) (send_held segment p)
  unfolding send_held
  kept-send_held segment p =
      let c = held_until (p.total_length / leaf_chunk_size + 1) p p.byte_playhead in
      let bytes =
        segment p.file (minus p.byte_playhead (length p.header_buf)) (minus c p.byte_playhead) in
      if_intro (KeptSome (kept p)) (ltb p.byte_playhead c) (λ e. kept-send_segment p c bytes)
        (λ e. keep_all p)

  pub kept-end_reply : (p : ProxyRequest S) → kept (end_reply p) ≡ kept p
  kept-end_reply p = if_intro (λ x. kept x ≡ kept p) p.evcon (λ e. refl) (λ e. refl)

  pub kept-join : (host : Option (List ℕ)) (p : ProxyRequest S) → kept (join host p) ≡ kept p
  kept-join none p = refl
  kept-join (some host) p = refl
