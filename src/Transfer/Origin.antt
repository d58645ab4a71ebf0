-- ===== src/Transfer/Origin.antt =====
-- client.c: where a round of direct_request_process_chunks leaves a page of known length.
use newnode.Prelude.{
  ℕ, ◌+◌, ◌<◌, ◌≡◌, ◌∙◌, refl, sym, ap, ◌⊎◌, inl, inr, Bool, true, false, not, ◌&&◌, Option, none,
  some, List, [], if◌then◌else◌, leb, ltb, ◌/◌, Bool-cases, ◌==◌, if_intro, arith,
}
use newnode.Base64.{base64_urlsafe_encode}
use newnode.Crypto.{Generichash}
use newnode.Merkle.{Hash, MerkleTree, leaf_chunk_size, get_root}
use newnode.Chunks.{num_chunks}
use newnode.Transfer.{
  DirectRequest, ProxyRequest, Round, direct_request_cancel, send_held, held_until, end_reply, join,
  proxy_direct_requests_cancel, proxy_request_reply_start, play,
}
use newnode.Transfer.Peer.{Surroundings}
use newnode.Transfer.Direct.{
  with_etag, with_root, direct_complete, direct_end, direct_flushed, direct_next, direct_play,
}
use newnode.Transfer.Overrun.{at_end}
use newnode.Transfer.Kept.{
  Core, kept, OnRound, on_returns, on_aborts, on_goes, KeptSome, kept-reply_start, kept-play,
  kept-send_held, kept-end_reply, kept-join,
}

-- The playhead is not at the end of the page.
abbrev pub Unfinished : {S : Type 0} → ProxyRequest S → Type 0
Unfinished p = (p.byte_playhead == p.total_length) ≡ false

-- A round that leaves the core `k` and does not reach the end of the page, or leaves the core `k`, but for the tree when its root was computed, and no bytes in the
-- buffer.
abbrev pub Left :
    (hash : Generichash) → Core hash.State → ProxyRequest hash.State → DirectRequest → Type 0
Left hash k p d =
    (((kept p ≡ k) × Unfinished p)
      ⊎ ((kept p ≡ record k { m = p.m }) × (get_root hash k.m ≡ some (p.root_hash, p.m))))
    × (d.range.chunk_buffer ≡ [])

-- The same, where the loop goes on with the chunk behind `i`, one of the page.
abbrev pub Behind : {S : Type 0} → Core S → ℕ → ProxyRequest S → DirectRequest → Type 0
Behind k i p d =
    (kept p ≡ k)
    × Unfinished p
    × (d.range.chunk_buffer ≡ [])
    × (d.range.chunk_index ≡ i + 1)
    × (i + 1 < num_chunks k.total_length)

module _ (hash : Generichash) (env : Surroundings) (malloc : ℕ → Bool) where
  open hash use {State}
  open env use {response_code, host, segment}

  abbrev Ended : Core State → ℕ → Round State DirectRequest → Type 0
  Ended k i = OnRound (Left hash k) Unit (Behind k i)

  with_etag-Left :
      (k : Core State) (i : ℕ) (p : ProxyRequest State) (d : DirectRequest) (input : List ℕ)
      (b64_hash : Option (List ℕ))
      → Left hash k p d
      → Ended k i (with_etag hash env malloc p d input b64_hash)
  unfolding OnRound
  with_etag-Left k i p d input none h = tt
  with_etag-Left k i p d input (some b64_hash) h = h

  with_root-Left :
      (k : Core State) (i : ℕ) (p : ProxyRequest State) (d : DirectRequest) (input : List ℕ)
      (root : Option (Hash × MerkleTree State))
      → kept p ≡ k
      → d.range.chunk_buffer ≡ []
      → get_root hash k.m ≡ root
      → Ended k i (with_root hash env malloc p d input root)
  with_root-Left k i p d input none same e r = on_aborts (Left hash k) Unit (Behind k i) tt
  with_root-Left k i p d input (some (root, m)) same e r =
      with_etag-Left k i (record p { root_hash = root; m = m }) d input
        (base64_urlsafe_encode malloc root)
        (inr (ap (λ (c : Core State). record c { m = m }) same, r), e)

  direct_complete-Left :
      (k : Core State) (i : ℕ) (p : ProxyRequest State) (d : DirectRequest) (input : List ℕ)
      → kept p ≡ k
      → d.range.chunk_buffer ≡ []
      → Ended k i (direct_complete hash env malloc p d input)
  unfolding direct_complete direct_request_cancel proxy_direct_requests_cancel
  direct_complete-Left k i p d input same e =
      let p1 = if p.server_req then proxy_direct_requests_cancel (end_reply p) else p in
      let d1 = if p.server_req then direct_request_cancel d else d in
      let ended : kept p1 ≡ k =
        if_intro (λ x. kept x ≡ k) p.server_req (λ h. kept-end_reply p ∙ same) (λ h. same) in
      let empty : d1.range.chunk_buffer ≡ [] =
        if_intro (λ (x : DirectRequest). x.range.chunk_buffer ≡ []) p.server_req (λ h. e)
          (λ h. e) in
      with_root-Left k i (join host p1) d1 input (get_root hash p1.m) (kept-join host p1 ∙ ended)
        empty (ap (λ (c : Core State). get_root hash c.m) (sym ended))

  direct_end-Behind :
      (k : Core State) (i : ℕ) (p : ProxyRequest State) (d : DirectRequest) (input : List ℕ)
      → kept p ≡ k
      → k.chunked ≡ false
      → d.range.chunk_buffer ≡ []
      → d.range.chunk_index ≡ i + 1
      → Ended k i (direct_end hash env malloc p d input)
  unfolding direct_end
  direct_end-Behind k i p d input same known e at =
      let P = Ended k i in
      let j = d.range.chunk_index in
      let n = num_chunks p.total_length in
      let total : p.total_length ≡ k.total_length = ap (λ (c : Core State). c.total_length) same in
      let flag : p.chunked ≡ false = ap (λ (c : Core State). c.chunked) same ∙ known in
      if_intro P (not p.chunked && (p.byte_playhead == p.total_length))
        (λ h. direct_complete-Left k i p d input same e)
        (λ h.
          let unfinished : Unfinished p = ground (arith, h, flag) in
          let stop : Left hash k p d = (inl (same, unfinished), e) in
          if_intro P p.chunked (λ unknown. absurd (true_false (sym unknown ∙ flag)))
            (λ sized.
              if_intro P (leb j n)
                (λ within.
                  if_intro P (leb n j)
                    (λ last. on_returns (Left hash k) Unit (Behind k i) true p d input stop)
                    (λ more.
                      if_intro P (p.have_bitfield j)
                        (λ held. on_returns (Left hash k) Unit (Behind k i) false p d input stop)
                        (λ missing.
                          let below : j < n = ground arith in
                          on_goes (Left hash k) Unit (Behind k i) p d input
                            (same, unfinished, e, at, rw (sym total) (omega arith)))))
                (λ outside. on_aborts (Left hash k) Unit (Behind k i) tt)))
    where
      true_false : true ≡ false → ⊥
      true_false q = cc

  send_held-Unfinished : (p : ProxyRequest State) → send_held segment p ≡ none → Unfinished p
  unfolding send_held
  send_held-Unfinished p e = elim (Bool-cases (p.byte_playhead == p.total_length)) [
    | inr other ↦ other
    | inl done ↦
        let fuel = p.total_length / leaf_chunk_size + 1 in
        let at = at_end fuel p.byte_playhead p (ground (arith, done)) in
        let stop : ltb p.byte_playhead (held_until fuel p p.byte_playhead) ≡ false =
          rw at (ground arith) in
        absurd (none_some (sym e ∙ rw stop refl))
  ]
    where
      none_some : none ≡ some p → ⊥
      none_some q = cc

  direct_flushed-Behind :
      (k : Core State) (i : ℕ) (p : ProxyRequest State) (d : DirectRequest) (input : List ℕ)
      (sent : Option (ProxyRequest State))
      → KeptSome (kept p) sent
      → (sent ≡ none → Unfinished p)
      → kept p ≡ k
      → k.chunked ≡ false
      → d.range.chunk_buffer ≡ []
      → d.range.chunk_index ≡ i + 1
      → Ended k i (direct_flushed hash env malloc p d input sent)
  unfolding KeptSome
  direct_flushed-Behind k i p d input none keeps failed same known e at =
      on_returns (Left hash k) Unit (Behind k i) false p d input (inl (same, failed refl), e)
  direct_flushed-Behind k i p d input (some p') keeps failed same known e at =
      direct_end-Behind k i p' d input (keeps ∙ same) known e at

  pub direct_next-Behind :
      (k : Core State) (p : ProxyRequest State) (d : DirectRequest) (input : List ℕ)
      → kept p ≡ k
      → k.chunked ≡ false
      → Ended k d.range.chunk_index (direct_next hash env malloc p d input)
  unfolding direct_next
  direct_next-Behind k p d input same known =
      let i = d.range.chunk_index in
      let d1 : DirectRequest = record d {
        range = record (d.range) { chunk_buffer = []; chunk_index = i + 1 };
      } in
      direct_flushed-Behind k i p d1 input (send_held segment p) (kept-send_held segment p)
        (send_held-Unfinished p) same known refl refl

  pub direct_play-Behind :
      (k : Core State) (p : ProxyRequest State) (d : DirectRequest) (input : List ℕ)
      → kept p ≡ k
      → k.chunked ≡ false
      → Ended k d.range.chunk_index (direct_play hash env malloc p d input)
  unfolding direct_play
  direct_play-Behind k p d input same known =
      let started = proxy_request_reply_start response_code p in
      let begun : kept started ≡ kept p = kept-reply_start response_code p in
      direct_next-Behind k (play started p d.range) d input
        (kept-play started p d.range begun ∙ same) known
