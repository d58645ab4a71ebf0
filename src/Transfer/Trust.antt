-- ===== src/Transfer/Trust.antt =====
-- client.c: an answer that peer_request_header_cb accepts has a signed tree.
use newnode.Prelude.{
  ℕ, ◌/◌, ◌≡◌, refl, ◌⊎◌, inl, inr, Bool, true, Option, none, some, List, [], ◌∷◌, ◌==◌,
  if◌then◌else◌, if_intro, bytes_eq,
}
use newnode.Base64.{base64_decode}
use newnode.Crypto.{Generichash}
use newnode.Signature.{Signing, verify_signature}
use newnode.Merkle.{MerkleTree, Hash, new, set_leaves, get_root}
use newnode.Transfer.{
  PeerRequest, DirectRequest, ProxyRequest, reply_end, send_error, submit_request, send,
}
use newnode.Transfer.Errors.{any, proxy_send_error}
use newnode.Transfer.Kept.{kept}
use newnode.Transfer.Gate.{
  Answer, Verdict, refuses, unverifies, loops, accepts, aborts, decoded, error, check_root,
  check_leaves, check_hashes, check_signature, signed, check_msign, check_location,
  peer_request_header_cb,
}

kept-send_error :
    {S : Type 0} (peers : List PeerRequest) (directs : List DirectRequest) (code : ℕ)
    (p : ProxyRequest S)
    → kept (proxy_send_error peers directs code p) ≡ kept p
unfolding proxy_send_error
kept-send_error peers directs code p =
    if_intro (λ x. kept x ≡ kept p) (any peers directs) (λ e. refl)
      (λ e.
        if_intro (λ x. kept x ≡ kept p) p.server_req
          (λ h.
            if_intro
              (λ x. kept (send (if p.responded then reply_end else send_error code) x) ≡ kept p)
              p.evcon (λ c. refl) (λ c. refl))
          (λ h. refl))

module _ (hash : Generichash) (keys : Signing) (malloc : ℕ → Bool) (state : hash.State)
    (memory : ℕ → Hash) where
  open hash use {State}

  -- The tree of a page is the one that it had, or that of hashes with the root that is kept.
  abbrev pub SameOrNew : ProxyRequest State → ProxyRequest State → Type 0
  SameOrNew p p' =
      ((kept p' ≡ kept p) × (p'.root_hash ≡ p.root_hash))
      ⊎ ((bytes : List ℕ) × (m : MerkleTree State) × (set_leaves hash (new hash state memory) bytes
            ≡ some m)
          × (get_root hash m ≡ some (p'.root_hash, p'.m)))

  -- What a verdict says of the page: where it accepts, the root is signed and is that of the tree, and
  -- else the page is as before.
  unfoldable pub Trusted : ProxyRequest State → Option (List ℕ) → Verdict State → Type 0
  Trusted p msign (accepts p') =
      (p'.merkle_tree_finished ≡ true)
      × ((sign : List ℕ) × (msign ≡ some sign)
          × (verify_signature keys malloc p'.root_hash sign ≡ true))
      × SameOrNew p p'
  Trusted p msign (refuses p') = kept p' ≡ kept p
  Trusted p msign (unverifies p') = kept p' ≡ kept p
  Trusted p msign (loops p') = kept p' ≡ kept p
  Trusted p msign aborts = Unit

  unverifies-Trusted :
      (code : ℕ) (p : ProxyRequest State) (r : PeerRequest) (msign : Option (List ℕ))
      → Trusted p msign (unverifies (error hash keys malloc state memory code r p))
  unfolding Trusted
  unverifies-Trusted code p r msign = kept-send_error (r ∷ p.peers) p.directs code p

  refuses-Trusted :
      (code : ℕ) (p : ProxyRequest State) (r : PeerRequest) (msign : Option (List ℕ))
      → Trusted p msign (refuses (error hash keys malloc state memory code r p))
  unfolding Trusted
  refuses-Trusted code p r msign = kept-send_error (r ∷ p.peers) p.directs code p

  accepts-Trusted :
      (p p' : ProxyRequest State) (sign : List ℕ)
      → p'.merkle_tree_finished ≡ true
      → verify_signature keys malloc p'.root_hash sign ≡ true
      → SameOrNew p p'
      → Trusted p (some sign) (accepts p')
  unfolding Trusted
  accepts-Trusted p p' sign f v s = (f, (sign, refl, v), s)

  check_root-Trusted :
      (p : ProxyRequest State) (r : PeerRequest) (sign xhashes bytes : List ℕ)
      (m : MerkleTree State) (root : Option (Hash × MerkleTree State))
      → set_leaves hash (new hash state memory) bytes ≡ some m
      → get_root hash m ≡ root
      → Trusted p (some sign) (check_root hash keys malloc state memory p r sign xhashes root)
  unfolding Trusted
  check_root-Trusted p r sign xhashes bytes m none leaves e = tt
  check_root-Trusted p r sign xhashes bytes m (some (root, m')) leaves e =
      if_intro (Trusted p (some sign)) (verify_signature keys malloc root sign)
        (λ good. (refl, (sign, refl, good), inr (bytes, m, leaves, e)))
        (λ bad. unverifies-Trusted 502 p r (some sign))

  check_leaves-Trusted :
      (p : ProxyRequest State) (r : PeerRequest) (sign xhashes bytes : List ℕ)
      (m : Option (MerkleTree State))
      → set_leaves hash (new hash state memory) bytes ≡ m
      → Trusted p (some sign) (check_leaves hash keys malloc state memory p r sign xhashes m)
  check_leaves-Trusted p r sign xhashes bytes none e = unverifies-Trusted 502 p r (some sign)
  check_leaves-Trusted p r sign xhashes bytes (some m) e =
      check_root-Trusted p r sign xhashes bytes m (get_root hash m) e refl

  check_hashes-Trusted :
      (p : ProxyRequest State) (r : PeerRequest) (sign : List ℕ) (xhashes : Option (List ℕ))
      → Trusted p (some sign) (check_hashes hash keys malloc state memory p r sign xhashes)
  check_hashes-Trusted p r sign none = refuses-Trusted 502 p r (some sign)
  check_hashes-Trusted p r sign (some xhashes) =
      let bytes = decoded (base64_decode malloc xhashes) in
      check_leaves-Trusted p r sign xhashes bytes (set_leaves hash (new hash state memory) bytes)
        refl

  check_signature-Trusted :
      (p : ProxyRequest State) (r : PeerRequest) (sign : List ℕ) (xhashes : Option (List ℕ))
      → Trusted p (some sign) (check_signature hash keys malloc state memory p r sign xhashes)
  unfolding check_signature
  check_signature-Trusted p r sign xhashes =
      if_intro (Trusted p (some sign)) p.merkle_tree_finished
        (λ finished.
          if_intro (Trusted p (some sign)) (verify_signature keys malloc p.root_hash sign)
            (λ good. accepts-Trusted p p sign finished good (inl (refl, refl)))
            (λ bad. unverifies-Trusted 502 p r (some sign)))
        (λ unfinished. check_hashes-Trusted p r sign xhashes)

  signed-Trusted :
      (p : ProxyRequest State) (location sign : List ℕ) (v : Verdict State)
      → Trusted p (some sign) v
      → Trusted p (some sign) (signed hash keys malloc state memory location sign v)
  unfolding Trusted
  signed-Trusted p location sign (accepts p') h = h
  signed-Trusted p location sign (refuses p') h = h
  signed-Trusted p location sign (unverifies p') h = h
  signed-Trusted p location sign (loops p') h = h
  signed-Trusted p location sign aborts h = h

  check_msign-Trusted :
      (p : ProxyRequest State) (r : PeerRequest) (location : List ℕ)
      (msign xhashes : Option (List ℕ))
      → Trusted p msign (check_msign hash keys malloc state memory p r location msign xhashes)
  check_msign-Trusted p r location none xhashes = refuses-Trusted 502 p r none
  check_msign-Trusted p r location (some sign) xhashes =
      signed-Trusted p location sign
        (check_signature hash keys malloc state memory p r sign xhashes)
        (check_signature-Trusted p r sign xhashes)

  check_location-Trusted :
      (p : ProxyRequest State) (r : PeerRequest) (uri : List ℕ) (answer : Answer)
      (location : Option (List ℕ))
      → Trusted p answer.msign
          (check_location hash keys malloc state memory p r uri answer location)
  check_location-Trusted p r uri answer none = refuses-Trusted 502 p r answer.msign
  check_location-Trusted p r uri answer (some location) =
      if_intro (Trusted p answer.msign) (bytes_eq location uri)
        (λ same. check_msign-Trusted p r location answer.msign answer.xhashes)
        (λ other. refuses-Trusted 502 p r answer.msign)

  loops-Trusted :
      (code : ℕ) (p : ProxyRequest State) (r : PeerRequest) (msign : Option (List ℕ))
      → Trusted p msign
          (loops (error hash keys malloc state memory code r (send (submit_request []) p)))
  unfolding Trusted
  loops-Trusted code p r msign =
      kept-send_error (r ∷ p.peers) p.directs code (send (submit_request []) p)

  plain-Trusted : (p : ProxyRequest State) (msign : Option (List ℕ)) → Trusted p msign (refuses p)
  unfolding Trusted
  plain-Trusted p msign = refl

  -- Where peer_request_header_cb accepts the answer of a peer, the answer has a signature, which
  -- verifies for the root that the page then has; this root and the tree are those of hashes that are
  -- set in a new tree, or the ones that the page had. Where it refuses, the page is as before.
  pub peer_request_header_cb-Trusted :
      (p : ProxyRequest State) (r : PeerRequest) (uri : List ℕ) (answer : Answer)
      → Trusted p answer.msign (peer_request_header_cb hash keys malloc state memory p r uri answer)
  unfolding peer_request_header_cb
  peer_request_header_cb-Trusted p r uri answer =
      let P = Trusted p answer.msign in
      let code = answer.response_code in
      let checked = check_location-Trusted p r uri answer answer.content_location in
      if_intro P (code / 100 == 1) (λ e. checked)
        (λ e.
          if_intro P (code / 100 == 2) (λ e. checked)
            (λ e.
              if_intro P (code / 100 == 3) (λ e. checked)
                (λ e.
                  if_intro P (code / 100 == 4) (λ e. refuses-Trusted code p r answer.msign)
                    (λ e.
                      if_intro P (code == 508) (λ e. loops-Trusted code p r answer.msign)
                        (λ e.
                          if_intro P (code / 100 == 5) (λ e. refuses-Trusted code p r answer.msign)
                            (λ e. plain-Trusted p answer.msign))))))
