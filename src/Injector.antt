-- ===== src/Injector.antt =====
-- injector.c: a page that is fetched for a client, and answered with its signatures.
pub mod Connect
mod Tests
use newnode.Prelude.{
  ◌>>=◌, ℕ, zero, suc, ◌+◌, ◌-◌, ◌*◌, Bool, true, false, not, ◌&&◌, ◌||◌, Option, none, some, List,
  [], ◌∷◌, ◌++◌, ◌==◌, if◌then◌else◌, bytes_eq, length, take, drop,
}
use newnode.Base64.{codes, base64_urlsafe_encode}
use newnode.Crypto.{Generichash, hash_bytes}
use newnode.Signature.{Signing, content_sign}
use newnode.Merkle.{MerkleTree, Hash, add_evbuffer, get_root}
use newnode.Merkle.Header.{leaf_bytes}
use newnode.Http.{
  KeyValue, Evhttp, Request, hashed_headers, header_line, copy_each, overwrite_header,
  merkle_tree_hash_request,
}

-- What EVHTTP tells an error callback.
pub data HttpError : Type 0 where
  timeout eof invalid_header buffer_error request_cancel data_too_long : HttpError

-- What is called outside, in order: a reply with its code, headers and body, an error, and the end of the
-- connection to the origin.
pub data Event : Type 0 where
  send_reply : ℕ → List KeyValue → List ℕ → Event
  send_error : ℕ → Event
  return_connection connection_free : Event

-- A proxy_request. `server_req` and `evcon` say whether the pointer is set; the headers of server_req and
-- its URI are `request` and `uri`.
pub record Proxied (S : Type 0) : Type 0 where
  pub server_req : Bool
  pub request : Request
  pub uri : List ℕ
  pub evcon : Bool
  pub pending_output : Option (List ℕ)
  pub content_state : S
  pub m : MerkleTree S
  pub freed : Bool
  pub events : List Event

abbrev pub or_nothing : Option (List ℕ) → List ℕ
or_nothing none = []
or_nothing (some bytes) = bytes

-- The tag that If-None-Match has between the quotes: one at the end and any first character are dropped.
abbrev pub unquoted_end : List ℕ → List ℕ
unquoted_end [] = []
unquoted_end (b ∷ []) = if b == 34 then [] else b ∷ []
unquoted_end (b ∷ c ∷ cs) = b ∷ unquoted_end (c ∷ cs)

abbrev pub unquoted : List ℕ → List ℕ
unquoted v = drop 1 (unquoted_end v)

unfoldable pub request_cleanup : {S : Type 0} → Proxied S → Proxied S
request_cleanup p = record p {
  evcon = false;
  freed = true;
  events = if p.evcon then p.events ++ connection_free ∷ [] else p.events;
}

abbrev pub fail : {S : Type 0} → HttpError → Proxied S → Proxied S
fail timeout p = record p { events = p.events ++ send_error 504 ∷ [] }
fail request_cancel p = p
fail _ p = record p { events = p.events ++ send_error 502 ∷ [] }

unfoldable pub error_cb : {S : Type 0} → HttpError → Proxied S → Proxied S
error_cb error p =
    let p1 = record (fail error p) { server_req = false } in
    request_cleanup (if p.server_req then p1 else p)

module _ (lib : Evhttp) (hash : Generichash) where
  open lib use {find_header, add_header}
  open hash use {State, init, update, final}

  -- The lines go through a buffer of 1024 bytes.
  unfoldable pub hash_headers : List (List ℕ) → List KeyValue → State → State
  hash_headers [] hdrs content_state = content_state
  hash_headers (key ∷ keys) hdrs content_state =
      hash_headers keys hdrs (elim (find_header hdrs key) [
        | none ↦ content_state
        | some value ↦ update content_state (take 1023 (header_line key (some value)))
      ])

  unfoldable pub header_cb : ℕ → Request → Proxied State → Option (Proxied State)
  header_cb response_code origin p = copy_each lib origin hashed_headers p.request >>= λ r1.
      overwrite_header lib r1 (codes "Content-Location") p.uri >>= λ r2.
      merkle_tree_hash_request lib hash p.m response_code r2.output_headers >>= λ m.
      some (record p {
        request = r2;
        content_state = hash_headers hashed_headers r2.output_headers (init [] hash_bytes);
        m = m;
      })

  -- The bytes of the buffer; Merkle says that its extents do not matter.
  unfoldable pub chunked_cb : List ℕ → Proxied State → Option (Proxied State)
  chunked_cb input p = add_evbuffer hash p.m (input ∷ []) >>= λ m. some (record p {
    content_state = update p.content_state input;
    m = m;
    pending_output = some (or_nothing p.pending_output ++ input);
  })

module _ (lib : Evhttp) (hash : Generichash) (keys : Signing) (malloc : ℕ → Bool) where
  open lib use {find_header, add_header}
  open hash use {State, final}

  -- `none` is a failed assertion or the use of a NULL pointer, here and below.
  abbrev pub with_hashes :
      MerkleTree State → List KeyValue → Option (List ℕ) → Option (List KeyValue)
  with_hashes m out none = some out
  with_hashes m out (some asked) =
      base64_urlsafe_encode malloc (leaf_bytes m.leaves_num m.nodes) >>= λ b64_hashes.
      some (add_header out (codes "X-Hashes") b64_hashes)

  abbrev pub matches : Hash → Hash → Option (List ℕ) → Option Bool
  matches content_hash root_hash none = some false
  matches content_hash root_hash (some ifnonematch) =
      base64_urlsafe_encode malloc content_hash >>= λ content_etag.
      base64_urlsafe_encode malloc root_hash >>= λ root_etag.
      some
        (bytes_eq (unquoted ifnonematch) content_etag || bytes_eq (unquoted ifnonematch) root_etag)

  abbrev pub answer : ℕ → Proxied State → List KeyValue → Bool → Proxied State
  answer response_code p out matched =
      let reply =
        if matched
        then send_reply 304 out []
        else send_reply response_code out (or_nothing p.pending_output) in
      record p {
        server_req = false;
        request = record (p.request) { output_headers = out };
        events = p.events ++ reply ∷ [];
      }

  abbrev pub signed_root :
      List ℕ
      → ℕ
      → Proxied State
      → Hash
      → List ℕ
      → Option (Hash × MerkleTree State)
      → Option (Proxied State)
  signed_root time response_code p content_hash b64_sign none = none
  signed_root time response_code p content_hash b64_sign (some (root_hash, m)) =
      base64_urlsafe_encode malloc (content_sign keys time root_hash) >>= λ b64_msign.
      with_hashes m
        (add_header (add_header p.request.output_headers (codes "X-Sign") b64_sign)
          (codes "X-MSign") b64_msign)
        (find_header p.request.input_headers (codes "X-HashRequest"))
      >>= λ out.
          matches content_hash root_hash
            (find_header p.request.input_headers (codes "If-None-Match"))
          >>= λ matched. some (answer response_code (record p { m = m }) out matched)

  -- `time` and `time'` are the texts that strftime writes for the two signatures.
  unfoldable pub sign_reply : List ℕ → List ℕ → ℕ → Proxied State → Option (Proxied State)
  sign_reply time time' response_code p =
      let content_hash = final p.content_state hash_bytes in
      base64_urlsafe_encode malloc (content_sign keys time content_hash) >>= λ b64_sign.
      signed_root time' response_code p content_hash b64_sign (get_root hash p.m)

  abbrev pub return_evcon : ℕ → Proxied State → Proxied State
  return_evcon response_code p =
      if not (response_code == 0)
      then record p { evcon = false; events = p.events ++ return_connection ∷ [] }
      else p

  -- A request of NULL does nothing.
  unfoldable pub request_done_cb :
      List ℕ → List ℕ → Option ℕ → Proxied State → Option (Proxied State)
  request_done_cb time time' none p = some p
  request_done_cb time time' (some response_code) p =
      (if not (response_code == 0) && p.server_req
        then sign_reply time time' response_code p
        else some p)
      >>= λ p1. some (request_cleanup (return_evcon response_code p1))
