-- ===== src/Transfer/Rounds.antt =====
-- client.c: where a round of peer_request_process_chunks leaves the page once its chunk is stored.
use newnode.Prelude.{
  ◌%◌, ℕ, ◌+◌, ◌<◌, ◌≤◌, ◌≡◌, ◌∙◌, refl, sym, ap, true, false, ◌&&◌, Option, none, some, List, [],
  if◌then◌else◌, ltb, leb, ◌==◌, if_intro, arith,
}
use mathlib.Core.List.{map}
use newnode.Base64.{size_mod}
use newnode.Crypto.{Generichash}
use newnode.Chunks.{num_chunks, proxy_is_complete}
use newnode.Transfer.{
  PeerRequest, ProxyRequest, proxy_save_cache, chunk_begin, peer_request_cancel, send, send_held,
  end_reply, join, progress, proxy_direct_requests_cancel, proxy_request_reply_start, play,
}
use newnode.Transfer.Peer.{
  Surroundings, release, peer_complete, peer_end, peer_flushed, peer_next, peer_play,
}
use newnode.Transfer.Kept.{
  Core, kept, OnRound, on_returns, on_aborts, on_goes, KeptSome, kept-reply_start, kept-play,
  kept-send_held, kept-end_reply, kept-join,
}

-- A round that leaves the core `k` and no bytes in the buffer.
abbrev pub Stopped : {S : Type 0} → Core S → ProxyRequest S → PeerRequest → Type 0
Stopped k p r = (kept p ≡ k) × (r.range.chunk_buffer ≡ [])

-- The same, where the loop goes on with the chunk behind `i`, one of the page.
abbrev pub Advanced : {S : Type 0} → Core S → ℕ → ProxyRequest S → PeerRequest → Type 0
Advanced k i p r =
    (kept p ≡ k)
    × (r.range.chunk_buffer ≡ [])
    × (r.range.chunk_index ≡ i + 1)
    × (i + 1 < num_chunks k.total_length)

release_empties :
    (r : PeerRequest) → r.range.chunk_buffer ≡ [] → (release r).range.chunk_buffer ≡ []
unfolding release peer_request_cancel
release_empties r e =
    if_intro (λ (x : PeerRequest). x.range.chunk_buffer ≡ [])
      (r.req && ltb r.range.end ((chunk_begin r.range.chunk_index + 1024) % size_mod)) (λ h. e)
      (λ h. refl)

module _ (hash : Generichash) (env : Surroundings) (A : Type 0) where
  open hash use {State}
  open env use {response_code, host, segment}

  peer_complete-Stopped :
      (k : Core State) (i : ℕ) (p : ProxyRequest State) (r : PeerRequest) (input : List ℕ)
      → kept p ≡ k
      → r.range.chunk_buffer ≡ []
      → (k.merkle_tree_finished ≡ false → A)
      → OnRound (Stopped k) A (Advanced k i) (peer_complete hash env p r input)
  unfolding peer_complete
  peer_complete-Stopped k i p r input same e unfinished =
      let p1 = if p.server_req then record (end_reply p) { peers = map release p.peers } else p in
      let r1 = if p.server_req then release r else r in
      let p2 = join host p1 in
      let ended : kept p1 ≡ k =
        if_intro (λ x. kept x ≡ k) p.server_req (λ h. kept-end_reply p ∙ same) (λ h. same) in
      let joined : kept p2 ≡ k = kept-join host p1 ∙ ended in
      let empty : r1.range.chunk_buffer ≡ [] =
        if_intro (λ (x : PeerRequest). x.range.chunk_buffer ≡ []) p.server_req
          (λ h. release_empties r e) (λ h. e) in
      let saved : kept (if proxy_is_complete (progress p2) then send proxy_save_cache p2 else p2)
          ≡ k =
        if_intro (λ x. kept x ≡ k) (proxy_is_complete (progress p2)) (λ h. joined) (λ h. joined) in
      if_intro (OnRound (Stopped k) A (Advanced k i)) p2.merkle_tree_finished
        (λ h. on_returns (Stopped k) A (Advanced k i) true _ r1 input (saved, empty))
        (λ h.
          on_aborts (Stopped k) A (Advanced k i)
            (unfinished (sym (ap (λ (c : Core State). c.merkle_tree_finished) joined) ∙ h)))

  peer_end-Advanced :
      (k : Core State) (i : ℕ) (p : ProxyRequest State) (r : PeerRequest) (input : List ℕ)
      → kept p ≡ k
      → r.range.chunk_buffer ≡ []
      → (k.have_bitfield r.range.chunk_index ≡ false → r.range.chunk_index ≡ i + 1)
      → (k.merkle_tree_finished ≡ false → A)
      → (num_chunks k.total_length < r.range.chunk_index → A)
      → OnRound (Stopped k) A (Advanced k i) (peer_end hash env p r input)
  unfolding peer_end
  peer_end-Advanced k i p r input same e next unfinished beyond =
      let P = OnRound (Stopped k) A (Advanced k i) in
      let j = r.range.chunk_index in
      let n = num_chunks p.total_length in
      let total : p.total_length ≡ k.total_length = ap (λ c. c.total_length) same in
      let have : p.have_bitfield ≡ k.have_bitfield = ap (λ c. c.have_bitfield) same in
      let stop : Stopped k p r = (same, e) in
      if_intro P (p.byte_playhead == p.total_length)
        (λ h. peer_complete-Stopped k i p r input same e unfinished)
        (λ h.
          if_intro P (leb j n)
            (λ within.
              if_intro P (leb n j)
                (λ last. on_returns (Stopped k) A (Advanced k i) true p r input stop)
                (λ more.
                  if_intro P (p.have_bitfield j)
                    (λ held. on_returns (Stopped k) A (Advanced k i) false p r input stop)
                    (λ missing.
                      let at_next : j ≡ i + 1 = next (ap (λ f. f j) (sym have) ∙ missing) in
                      let below : j < n = ground arith in
                      on_goes (Stopped k) A (Advanced k i) p r input
                        (same, e, at_next, rw (sym total) (omega arith)))))
            (λ outside.
              on_aborts (Stopped k) A (Advanced k i)
                (let above : n < j = ground arith in beyond (rw (sym total) above))))

  peer_flushed-Advanced :
      (k : Core State) (i : ℕ) (p : ProxyRequest State) (r : PeerRequest) (input : List ℕ)
      (sent : Option (ProxyRequest State))
      → KeptSome (kept p) sent
      → kept p ≡ k
      → r.range.chunk_buffer ≡ []
      → (k.have_bitfield r.range.chunk_index ≡ false → r.range.chunk_index ≡ i + 1)
      → (k.merkle_tree_finished ≡ false → A)
      → (num_chunks k.total_length < r.range.chunk_index → A)
      → OnRound (Stopped k) A (Advanced k i) (peer_flushed hash env p r input sent)
  unfolding KeptSome
  peer_flushed-Advanced k i p r input none keeps same e next unfinished beyond =
      on_returns (Stopped k) A (Advanced k i) false p r input (same, e)
  peer_flushed-Advanced k i p r input (some p') keeps same e next unfinished beyond =
      peer_end-Advanced k i p' r input (keeps ∙ same) e next unfinished beyond

  -- From the end of a stored chunk on.
  pub peer_next-Advanced :
      (k : Core State) (p : ProxyRequest State) (r : PeerRequest) (input : List ℕ)
      → kept p ≡ k
      → k.have_bitfield r.range.chunk_index ≡ true
      → (k.merkle_tree_finished ≡ false → A)
      → (num_chunks k.total_length ≤ r.range.chunk_index → A)
      → OnRound (Stopped k) A (Advanced k r.range.chunk_index) (peer_next hash env p r input)
  unfolding peer_next
  peer_next-Advanced k p r input same held unfinished beyond =
      let i = r.range.chunk_index in
      let next = if leb (chunk_begin i) r.range.end then i + 1 else i in
      let r1 : PeerRequest = record r {
        range = record (r.range) { chunk_buffer = []; chunk_index = next };
      } in
      let move : k.have_bitfield next ≡ false → next ≡ i + 1 =
        if_intro (λ j. k.have_bitfield j ≡ false → j ≡ i + 1) (leb (chunk_begin i) r.range.end)
          (λ h. λ missing. refl) (λ h. λ missing. absurd (true_false (sym held ∙ missing))) in
      let past : num_chunks k.total_length < next → A =
        if_intro (λ j. num_chunks k.total_length < j → A) (leb (chunk_begin i) r.range.end)
          (λ h. λ far. beyond (omega arith)) (λ h. λ far. beyond (omega arith)) in
      peer_flushed-Advanced k i p r1 input (send_held segment p) (kept-send_held segment p) same
        refl move unfinished past
    where
      true_false : true ≡ false → ⊥
      true_false q = cc

  pub peer_play-Advanced :
      (k : Core State) (p : ProxyRequest State) (r : PeerRequest) (input : List ℕ)
      → kept p ≡ k
      → k.have_bitfield r.range.chunk_index ≡ true
      → (k.merkle_tree_finished ≡ false → A)
      → (num_chunks k.total_length ≤ r.range.chunk_index → A)
      → OnRound (Stopped k) A (Advanced k r.range.chunk_index) (peer_play hash env p r input)
  unfolding peer_play proxy_direct_requests_cancel
  peer_play-Advanced k p r input same held unfinished beyond =
      let started = proxy_request_reply_start response_code (proxy_direct_requests_cancel p) in
      let begun : kept started ≡ kept p =
        kept-reply_start response_code (proxy_direct_requests_cancel p) in
      peer_next-Advanced k (play started p r.range) r input
        (kept-play started p r.range begun ∙ same) held unfinished beyond
