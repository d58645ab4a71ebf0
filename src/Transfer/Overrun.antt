-- ===== src/Transfer/Overrun.antt =====
-- client.c: what the search for held chunks makes of a last chunk that is not full.
use newnode.Prelude.{
  ℕ, zero, suc, ◌+◌, ◌*◌, ◌/◌, ◌%◌, ◌^◌, ◌<◌, ◌≤◌, ◌≢◌, ◌≡◌, ◌∙◌, sym, ap, refl, true, false, some,
  List, [], ◌∷◌, ◌++◌, ltb, arith, Bool-cases, if_intro, inl, inr, length,
}
use newnode.Base64.{size_mod}
use newnode.Merkle.{leaf_chunk_size}
use newnode.Transfer.{ProxyRequest, reply_chunk, held_until, to_server, send_held, minus}

module _ {S : Type 0} where
  pub at_end : (fuel c : ℕ) (p : ProxyRequest S) → p.total_length ≤ c → held_until fuel p c ≡ c
  unfolding held_until
  at_end zero c p past = refl
  at_end (suc fuel) c p past =
      let stop : ltb c p.total_length ≡ false = ground arith in rw stop refl

  held_until_past :
      (fuel c : ℕ) (p : ProxyRequest S)
      → c % leaf_chunk_size ≡ 0
      → c < p.total_length
      → p.total_length % leaf_chunk_size ≢ 0
      → p.total_length + leaf_chunk_size < 2 ^ 64
      → ((i : ℕ)
          → c / leaf_chunk_size ≤ i
          → i ≤ p.total_length / leaf_chunk_size
          → p.have_bitfield i ≡ true)
      → p.total_length < c + fuel * leaf_chunk_size
      → (p.total_length < held_until fuel p c)
        × (held_until fuel p c ≤ p.total_length + leaf_chunk_size)
  unfolding held_until leaf_chunk_size
  held_until_past zero c p even below odd max have enough = absurd (omega arith)
  held_until_past (suc fuel) c p even below odd max have enough =
      let here : ltb c p.total_length ≡ true = ground arith in
      let held : p.have_bitfield (c / leaf_chunk_size) ≡ true =
        have (c / leaf_chunk_size) (omega arith) (omega arith) in
      let next : (c + leaf_chunk_size) % size_mod ≡ c + leaf_chunk_size = omega arith in
      rw (here, held, next)
        (elim (Bool-cases (ltb (c + leaf_chunk_size) p.total_length)) [
          | inl more ↦
              held_until_past fuel (c + leaf_chunk_size) p (omega arith) (ground arith) odd max
                (λ i lo hi. have i (omega arith) hi) (omega arith)
          | inr last ↦
              let end : p.total_length ≤ c + leaf_chunk_size = ground arith in
              rw (at_end fuel (c + leaf_chunk_size) p end) (omega arith, omega arith)
        ])

  -- When all chunks from the playhead to the end of a page are held, the last one is not full, and the
  -- browser waits for the page, then the bytes that are read of the file for them are sent, as many as the
  -- playhead moves by, and the playhead is set behind the end of the page, not at its length.
  pub send_held-overrun :
      (read : (ℕ → ℕ) → ℕ → ℕ → List ℕ) (p : ProxyRequest S)
      → p.byte_playhead % leaf_chunk_size ≡ 0
      → p.byte_playhead < p.total_length
      → p.total_length % leaf_chunk_size ≢ 0
      → p.total_length + leaf_chunk_size < 2 ^ 64
      → ((i : ℕ)
          → p.byte_playhead / leaf_chunk_size ≤ i
          → i ≤ p.total_length / leaf_chunk_size
          → p.have_bitfield i ≡ true)
      → p.server_req ≡ true
      → (p' : ProxyRequest S) × (send_held (λ file offset n. some (read file offset n)) p ≡ some p')
        × (p'.total_length < p'.byte_playhead)
        × (p'.events
            ≡ p.events
              ++ reply_chunk (
                  read p.file
                    (minus p.byte_playhead (length p.header_buf))
                    (minus p'.byte_playhead p.byte_playhead))
                ∷ [])
  unfolding send_held leaf_chunk_size
  send_held-overrun read p even below odd max have asked =
      let c = held_until (p.total_length / leaf_chunk_size + 1) p p.byte_playhead in
      let enough : p.total_length
          < p.byte_playhead + (p.total_length / leaf_chunk_size + 1) * leaf_chunk_size =
        omega arith in
      let (behind, bound) =
        held_until_past (p.total_length / leaf_chunk_size + 1) p.byte_playhead p even below odd max
          have enough in
      let more : ltb p.byte_playhead c ≡ true = ground (arith, behind) in
      let bytes =
        read p.file (minus p.byte_playhead (length p.header_buf)) (minus c p.byte_playhead) in
      let total : (to_server bytes p).total_length ≡ p.total_length =
        if_intro (λ (x : ProxyRequest S). x.total_length ≡ p.total_length) p.server_req (λ e. refl)
          (λ e. refl) in
      let head : (p.byte_playhead + minus c p.byte_playhead) % size_mod ≡ c =
        omega (arith, behind, bound) in
      rw more (
        record (to_server bytes p) {
          byte_playhead = (p.byte_playhead + minus c p.byte_playhead) % size_mod;
        },
        refl,
        rw (total, head) behind,
        sent bytes
            ∙ ap
                (λ to.
                  p.events
                  ++ reply_chunk (
                      read p.file (minus p.byte_playhead (length p.header_buf))
                        (minus to p.byte_playhead))
                    ∷ [])
                (sym head),
      )
    where
      true_false : true ≡ false → ⊥
      true_false q = cc

      sent : (bytes : List ℕ) → (to_server bytes p).events ≡ p.events ++ reply_chunk bytes ∷ []
      sent bytes =
          if_intro (λ (x : ProxyRequest S). x.events ≡ p.events ++ reply_chunk bytes ∷ [])
            p.server_req (λ e. refl) (λ e. absurd (true_false (sym asked ∙ e)))
