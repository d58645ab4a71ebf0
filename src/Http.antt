-- ===== src/Http.antt =====
-- http.c and client.c: the headers of requests and answers, what of them is hashed, and what a client
-- passes on.
pub mod Copies
pub mod Hashed
pub mod Pool
pub mod Lenient
mod Tests
use newnode.Prelude.{
  ◌>>=◌, ℕ, zero, suc, ◌+◌, ◌≡◌, Bool, true, false, not, ◌&&◌, Option, none, some, List, [], ◌∷◌,
  ◌++◌, leb, ◌==◌, if◌then◌else◌, bytes_eq, length,
}
use newnode.Base64.{codes}
use newnode.Crypto.{Generichash}
use newnode.Merkle.{MerkleTree, add_evbuffer}

-- evkeyval, whose fields are public.
pub record KeyValue : Type 0 where
  pub key : List ℕ
  pub value : List ℕ

-- The C locale's tolower, and strcasecmp(a, b) == 0.
abbrev pub lower : ℕ → ℕ
lower b = if leb 65 b && leb b 90 then b + 32 else b

abbrev pub lowered : List ℕ → List ℕ
lowered [] = []
lowered (b ∷ bs) = lower b ∷ lowered bs

unfoldable pub same_key : List ℕ → List ℕ → Bool
same_key a b = bytes_eq (lowered a) (lowered b)

-- The value of the first entry with a key, and the entries without that entry.
unfoldable pub first_value : List KeyValue → List ℕ → Option (List ℕ)
first_value [] key = none
first_value (e ∷ es) key = if same_key e.key key then some e.value else first_value es key

unfoldable pub without_first : List KeyValue → List ℕ → List KeyValue
without_first [] key = []
without_first (e ∷ es) key = if same_key e.key key then es else e ∷ without_first es key

-- What libevent documents of evhttp_find_header, evhttp_remove_header and evhttp_add_header, which refuses
-- a header with a line break, and printf of "%d".
pub record Evhttp : Type 0 where
  pub find_header : List KeyValue → List ℕ → Option (List ℕ)
  pub remove_header : List KeyValue → List ℕ → List KeyValue
  pub add_header : List KeyValue → List ℕ → List ℕ → List KeyValue
  pub accepts : List ℕ → List ℕ → Bool
  pub printf_d : ℕ → List ℕ
  pub find_first : (q : List KeyValue) (key : List ℕ) → find_header q key ≡ first_value q key
  pub remove_only : (q : List KeyValue) (key : List ℕ) → remove_header q key ≡ without_first q key
  pub add_last :
      (q : List KeyValue) (key value : List ℕ)
      → accepts key value ≡ true
      → add_header q key value ≡ q ++ record { key = key; value = value } ∷ []

-- The fields of an evhttp_request that the functions read. `localhost` is evcon_is_localhost(req->evcon).
pub record Request : Type 0 where
  pub input_headers : List KeyValue
  pub output_headers : List KeyValue
  pub localhost : Bool

abbrev pub hashed_headers : List (List ℕ)
hashed_headers =
    codes "Content-Encoding"
    ∷ codes "Content-Location"
    ∷ codes "Content-Type"
    ∷ codes "Location"
    ∷ codes "Access-Control-Allow-Origin"
    ∷ []

abbrev pub crlf : List ℕ
crlf = 13 ∷ 10 ∷ []

-- A round of the loop of overwrite_kv_header.
abbrev pub removed :
    Option (List ℕ) → List KeyValue → Option (List KeyValue) → Option (List KeyValue)
removed none q rest = some q
removed (some value) q rest = rest

abbrev pub header_line : List ℕ → Option (List ℕ) → List ℕ
header_line key none = []
header_line key (some value) = key ++ codes ": " ++ value ++ crlf

module _ (lib : Evhttp) where
  open lib use {find_header, remove_header, add_header, printf_d}

  -- The loop of overwrite_kv_header, on fuel; `none` when it is used up.
  unfoldable pub remove_all : ℕ → List KeyValue → List ℕ → Option (List KeyValue)
  remove_all zero q key = none
  remove_all (suc fuel) q key =
      let rest = remove_all fuel (remove_header q key) key in removed (find_header q key) q rest

  -- An entry is removed in each round.
  unfoldable pub overwrite_kv_header : List KeyValue → List ℕ → List ℕ → Option (List KeyValue)
  overwrite_kv_header out key value =
      remove_all (suc (length out)) out key >>= λ q. some (add_header q key value)

  unfoldable pub overwrite_header : Request → List ℕ → List ℕ → Option Request
  overwrite_header to key value = overwrite_kv_header to.output_headers key value >>= λ q.
      some (record to { output_headers = q })

  abbrev pub copied : Option (List ℕ) → List ℕ → Request → Option Request
  copied none key to = some to
  copied (some value) key to = overwrite_header to key value

  unfoldable pub copy_header : Request → Request → List ℕ → Option Request
  copy_header from to key = copied (find_header from.input_headers key) key to

  unfoldable pub copy_each : Request → List (List ℕ) → Request → Option Request
  copy_each from [] to = some to
  copy_each from (key ∷ keys) to = copy_header from to key >>= λ to'. copy_each from keys to'

  unfoldable pub copy_entries : List KeyValue → Request → Option Request
  copy_entries [] to = some to
  copy_entries (e ∷ es) to = overwrite_header to e.key e.value >>= λ to'. copy_entries es to'

  unfoldable pub copy_all_headers : Request → Request → Option Request
  copy_all_headers from to = copy_entries from.input_headers to

  unfoldable pub copy_response_headers : Request → Request → Option Request
  copy_response_headers from to = copy_each from hashed_headers to >>= λ to1.
      copy_header from to1 (codes "Content-Length") >>= λ to2.
      (if not to.localhost
        then copy_each from (codes "Content-Location" ∷ codes "X-MSign" ∷ codes "X-Hashes" ∷ []) to2
        else some to2)

  unfoldable pub header_lines : List (List ℕ) → List KeyValue → List ℕ
  header_lines [] hdrs = []
  header_lines (key ∷ keys) hdrs = header_line key (find_header hdrs key) ++ header_lines keys hdrs

  -- `none` is the failed assertion.
  unfoldable pub build_request_buffer : ℕ → List KeyValue → Option (List ℕ)
  build_request_buffer response_code hdrs =
      if response_code == 0
      then none
      else some (printf_d response_code ++ crlf ++ header_lines hashed_headers hdrs)

module _ (lib : Evhttp) (hash : Generichash) where
  open hash use {State}

  unfoldable pub merkle_tree_hash_request :
      MerkleTree State → ℕ → List KeyValue → Option (MerkleTree State)
  merkle_tree_hash_request m response_code hdrs =
      build_request_buffer lib response_code hdrs >>= λ buf. add_evbuffer hash m (buf ∷ [])
