-- ===== src/Transfer/Gate.antt =====
-- client.c: the checks of peer_request_header_cb, before anything that a peer sends is taken.
use newnode.Prelude.{
  ℕ, ◌/◌, Bool, true, Option, none, some, List, [], ◌∷◌, ◌==◌, if◌then◌else◌, bytes_eq,
}
use newnode.Base64.{codes, base64_decode}
use newnode.Crypto.{Generichash}
use newnode.Signature.{Signing, verify_signature}
use newnode.Merkle.{MerkleTree, Hash, new, set_leaves, get_root}
use newnode.Transfer.{PeerRequest, ProxyRequest, direct_header, peer_verified, submit_request, send}
use newnode.Transfer.Errors.{proxy_send_error}

-- The headers of an answer that the checks read.
pub record Answer : Type 0 where
  pub response_code : ℕ
  pub content_location : Option (List ℕ)
  pub msign : Option (List ℕ)
  pub xhashes : Option (List ℕ)

-- An answer is refused with -1, which may take the peer's time of verification from it or count a loop
-- of its requests, or it is accepted, or an assertion fails.
pub data Verdict (S : Type 0) : Type 0 where
  refuses unverifies loops accepts : ProxyRequest S → Verdict S
  aborts : Verdict S

-- A failed base64_decode gives no bytes.
abbrev pub decoded : Option (List ℕ) → List ℕ
decoded none = []
decoded (some bytes) = bytes

module _ (hash : Generichash) (keys : Signing) (malloc : ℕ → Bool) (state : hash.State)
    (memory : ℕ → Hash) where
  open hash use {State}

  -- proxy_send_error, with the request itself among those at work.
  abbrev pub error : ℕ → PeerRequest → ProxyRequest State → ProxyRequest State
  error code r p = proxy_send_error (r ∷ p.peers) p.directs code p

  abbrev pub check_root :
      ProxyRequest State
      → PeerRequest
      → List ℕ
      → List ℕ
      → Option (Hash × MerkleTree State)
      → Verdict State
  check_root p r msign xhashes none = aborts
  check_root p r msign xhashes (some (root, m)) =
      if verify_signature keys malloc root msign
      then accepts (
          send (direct_header (codes "X-Hashes") xhashes)
            (record p { m = m; root_hash = root; merkle_tree_finished = true }))
      else unverifies (error 502 r p)

  abbrev pub check_leaves :
      ProxyRequest State → PeerRequest → List ℕ → List ℕ → Option (MerkleTree State) → Verdict State
  check_leaves p r msign xhashes none = unverifies (error 502 r p)
  check_leaves p r msign xhashes (some m) = check_root p r msign xhashes (get_root hash m)

  abbrev pub check_hashes :
      ProxyRequest State → PeerRequest → List ℕ → Option (List ℕ) → Verdict State
  check_hashes p r msign none = refuses (error 502 r p)
  check_hashes p r msign (some xhashes) =
      check_leaves p r msign xhashes
        (set_leaves hash (new hash state memory) (decoded (base64_decode malloc xhashes)))

  -- The tests of the signature, against the tree of the answer or the one that is there.
  unfoldable pub check_signature :
      ProxyRequest State → PeerRequest → List ℕ → Option (List ℕ) → Verdict State
  check_signature p r msign xhashes =
      if p.merkle_tree_finished
      then if verify_signature keys malloc p.root_hash msign
        then accepts p
        else unverifies (error 502 r p)
      else check_hashes p r msign xhashes

  abbrev pub signed : List ℕ → List ℕ → Verdict State → Verdict State
  signed location msign (accepts p) = accepts (
      send peer_verified (
        send (direct_header (codes "Content-Location") location)
          (send (direct_header (codes "X-MSign") msign) p)))
  signed location msign (refuses p) = refuses p
  signed location msign (unverifies p) = unverifies p
  signed location msign (loops p) = loops p
  signed location msign aborts = aborts

  abbrev pub check_msign :
      ProxyRequest State → PeerRequest → List ℕ → Option (List ℕ) → Option (List ℕ) → Verdict State
  check_msign p r location none xhashes = refuses (error 502 r p)
  check_msign p r location (some msign) xhashes =
      signed location msign (check_signature p r msign xhashes)

  abbrev pub check_location :
      ProxyRequest State → PeerRequest → List ℕ → Answer → Option (List ℕ) → Verdict State
  check_location p r uri answer none = refuses (error 502 r p)
  check_location p r uri answer (some location) =
      if bytes_eq location uri
      then check_msign p r location answer.msign answer.xhashes
      else refuses (error 502 r p)

  -- peer_request_header_cb, up to the file and the range of an answer that it accepts.
  unfoldable pub peer_request_header_cb :
      ProxyRequest State → PeerRequest → List ℕ → Answer → Verdict State
  peer_request_header_cb p r uri answer =
      let klass = answer.response_code / 100 in
      let checked = check_location p r uri answer answer.content_location in
      if klass == 1
      then checked
      else if klass == 2
      then checked
      else if klass == 3
      then checked
      else if klass == 4
      then refuses (error answer.response_code r p)
      else if answer.response_code == 508
      then loops (error answer.response_code r (send (submit_request []) p))
      else if klass == 5
      then refuses (error answer.response_code r p)
      else refuses p
