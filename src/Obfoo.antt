-- ===== src/Obfoo.antt =====
-- obfoo.c: the stream cipher at any byte, and the handshake that hides the protocol.
pub mod Stream
pub mod Duplex
pub mod Sync
mod Tests
use newnode.Prelude.{
  ℕ, zero, suc, ◌+◌, ◌-◌, ◌*◌, ◌/◌, ◌%◌, ◌^◌, ◌≤◌, ◌≡◌, bit_xor, Bool, true, false, Option, none,
  some, ◌>>=◌, List, [], ◌∷◌, ◌++◌, min, ltb, leb, ◌==◌, if◌then◌else◌, length, take, drop,
  replicate,
}
use newnode.Base64.{codes, size_mod}
use newnode.Crypto.{Generichash}

-- The bytes of a message, each with the byte of a key stream at its place from `i` on.
abbrev pub xor_from : (ℕ → ℕ) → ℕ → List ℕ → List ℕ
xor_from stream i [] = []
xor_from stream i (b ∷ bs) = bit_xor b (stream i) ∷ xor_from stream (i + 1) bs

-- What the program relies on of libsodium's ChaCha20 and key exchange: crypto_stream_chacha20_xor_ic
-- (message, nonce, block, key) joins the message with the key stream from the begin of that block on and
-- does not fail, and crypto_kx_server_session_keys and _client_session_keys (pk, sk, other pk) may refuse
-- a key.
pub record Primitives : Type 0 where
  pub stream : List ℕ → List ℕ → ℕ → ℕ
  pub xor_ic : List ℕ → List ℕ → ℕ → List ℕ → Option (List ℕ)
  pub server_session_keys : List ℕ → List ℕ → List ℕ → Option (List ℕ × List ℕ)
  pub client_session_keys : List ℕ → List ℕ → List ℕ → Option (List ℕ × List ℕ)
  pub xor_ic-stream :
      (m n : List ℕ) (ic : ℕ) (k : List ℕ)
      → ic * 64 + length m ≤ 2 ^ 64
      → xor_ic m n ic k ≡ some (xor_from (stream k n) (ic * 64) m)

pub data State : Type 0 where
  intro sync discard ready : State

-- `synchash` is the union with `vc`, its first eight bytes.
pub record Obfoo : Type 0 where
  pub pk : List ℕ
  pub sk : List ℕ
  pub rx : List ℕ
  pub tx : List ℕ
  pub rx_nonce : List ℕ
  pub tx_nonce : List ℕ
  pub rx_ic_bytes : ℕ
  pub tx_ic_bytes : ℕ
  pub synchash : List ℕ
  pub state : State
  pub output : List ℕ
  pub discarding : ℕ
  pub incoming : Bool

-- obfoo_new, with what crypto_kx_keypair and randombytes_buf give; the user sets `incoming`.
unfoldable pub obfoo_new : List ℕ → List ℕ → List ℕ → Bool → Obfoo
obfoo_new pk sk nonce incoming = record {
  pk = pk;
  sk = sk;
  rx = replicate 32 0;
  tx = replicate 32 0;
  rx_nonce = replicate 8 0;
  tx_nonce = nonce;
  rx_ic_bytes = 0;
  tx_ic_bytes = 0;
  synchash = replicate 40 0;
  state = intro;
  output = [];
  discarding = 0;
  incoming = incoming;
}

-- obfoo_write_intro, with its random padding: what it adds.
unfoldable pub obfoo_write_intro : Obfoo → List ℕ → List ℕ
obfoo_write_intro o pad = o.pk ++ (o.tx_nonce ++ pad)

-- A crypt_intro with its padding, in memory: `vc`, `crypto_provide` and `pad_len`, little-endian.
abbrev pub crypt_intro : List ℕ → List ℕ
crypt_intro pad =
    replicate 8 0 ++ (1 ∷ 0 ∷ 0 ∷ 0 ∷ length pad % 256 ∷ (length pad / 256) % 256 ∷ pad)

abbrev pub little_endian : List ℕ → ℕ
little_endian [] = 0
little_endian (b ∷ bs) = b + 256 * little_endian bs

abbrev pub crypt_intro_size : ℕ
crypt_intro_size = 14

abbrev pub intro_bytes : ℕ
intro_bytes = 40

abbrev pub intro_pad_max : ℕ
intro_pad_max = 96 + 256 - intro_bytes

-- What a filter returns, `none` for -1, with the bytes that are left in `in` and those added to `out`.
-- After -1 the connection is closed and its buffers are not read again.
pub record Filtered : Type 0 where
  pub result : Option ℕ
  pub obfoo : Obfoo
  pub input : List ℕ
  pub out : List ℕ

-- A step of obfoo_input_filter returns, reads through a NULL pointer, or falls through to the next case.
pub data Step : Type 0 where
  returns : Filtered → Step
  crashes : Step
  falls : Obfoo → List ℕ → Step

abbrev pub return : Option ℕ → Obfoo → List ℕ → Step
return r o input = returns (record { result = r; obfoo = o; input = input; out = [] })

-- What is left of a buffer when a call whose result is not read fails.
abbrev pub or_keep : List ℕ → Option (List ℕ) → List ℕ
or_keep m none = m
or_keep m (some c) = c

module _ (lib : Primitives) where
  open lib use {xor_ic}

  unfoldable pub chacha20_xor_ic_bytes : List ℕ → List ℕ → ℕ → List ℕ → Option (List ℕ)
  chacha20_xor_ic_bytes m n ic_bytes k =
      let partial = ic_bytes % 64 in
      let plen = min (64 - partial) (length m) in
      let tail_ic = (ic_bytes + plen) % size_mod in
      if partial == 0
      then xor_ic m n (ic_bytes / 64) k
      else xor_ic (replicate partial 0 ++ take plen m) n (ic_bytes / 64) k >>= λ block.
          xor_ic (drop plen m) n (tail_ic / 64) k >>= λ rest.
          some (take plen (drop partial block) ++ rest)

  unfoldable pub obfoo_encrypt : Obfoo → List ℕ → Obfoo × Option (List ℕ)
  obfoo_encrypt o m = (
    record o { tx_ic_bytes = (o.tx_ic_bytes + length m) % size_mod },
    chacha20_xor_ic_bytes m o.tx_nonce o.tx_ic_bytes o.tx,
  )

  unfoldable pub obfoo_decrypt : Obfoo → List ℕ → Obfoo × Option (List ℕ)
  obfoo_decrypt o c = (
    record o { rx_ic_bytes = (o.rx_ic_bytes + length c) % size_mod },
    chacha20_xor_ic_bytes c o.rx_nonce o.rx_ic_bytes o.rx,
  )

-- An extent in front of the others: none is reached behind one that fails.
abbrev pub before_extents :
    Obfoo × Option (List ℕ) → Obfoo × Option (List ℕ) → Obfoo × Option (List ℕ)
before_extents (o, none) rest = (o, none)
before_extents (o, some front) (o', cs) = (o', cs >>= λ back. some (front ++ back))

-- The loop of evbuffer_filter over the extents, with what the callback makes of each in place.
unfoldable pub filter_extents :
    (Obfoo → List ℕ → Obfoo × Option (List ℕ)) → Obfoo → List (List ℕ) → Obfoo × Option (List ℕ)
filter_extents cb o [] = (o, some [])
filter_extents cb o (v ∷ vs) = before_extents (cb o v) (filter_extents cb (cb o v).0 vs)

abbrev pub filtered : List ℕ → Obfoo × Option (List ℕ) → Filtered
filtered input (o, none) = record { result = none; obfoo = o; input = input; out = [] }
filtered input (o, some bytes) = record { result = some 0; obfoo = o; input = []; out = bytes }

-- `hash` and `lib` are libsodium. `search` is evbuffer_search: the first place of some bytes in a buffer.
-- `extents` is how libevent lays the bytes of a buffer out in memory.
module _ (hash : Generichash) (lib : Primitives) (search : List ℕ → List ℕ → Option ℕ)
    (extents : List ℕ → List (List ℕ)) where
  open hash use {init, update, final}
  open lib use {xor_ic, server_session_keys, client_session_keys}

  unfoldable pub evbuffer_filter :
      (Obfoo → List ℕ → Obfoo × Option (List ℕ)) → Obfoo → List ℕ → Filtered
  evbuffer_filter cb o input = filtered input (filter_extents cb o (extents input))

  -- crypto_generichash_init(sizeof(SYNC_HASH_LEN)), the size of an int.
  unfoldable pub sync_hash : List ℕ → List ℕ
  sync_hash key = final (update (update (init [] 4) (codes "req1")) key) 40

  -- The case OF_STATE_INTRO once the session keys are there: the answer of the side that was called, or
  -- the second message of the caller.
  unfoldable pub intro_answer : List ℕ → List ℕ → Obfoo → Obfoo
  intro_answer intro_pad pad o =
      let plain = crypt_intro pad ++ (0 ∷ 0 ∷ []) in
      let (o1, c) = obfoo_encrypt lib o plain in
      let vc = take 8 o.synchash in
      if o.incoming
      then record o {
        synchash = sync_hash o.rx;
        output = o.output ++ obfoo_write_intro o intro_pad;
      }
      else record o1 {
        output = o.output ++ (sync_hash o.tx ++ or_keep plain c);
        synchash = or_keep vc (xor_ic vc o.rx_nonce 0 o.rx) ++ drop 8 o.synchash;
      }

  abbrev pub with_keys : List ℕ → List ℕ → Obfoo → List ℕ → Option (List ℕ × List ℕ) → Step
  with_keys intro_pad pad o input none = return none o input
  with_keys intro_pad pad o input (some (rx, tx)) =
      let o1 = record o {
        rx = rx;
        tx = tx;
        sk = replicate 32 0;
        rx_nonce = take 8 (drop 32 input);
      } in
      falls (record (intro_answer intro_pad pad o1) { state = sync }) (drop 40 input)

  unfoldable pub intro_step : List ℕ → List ℕ → Obfoo → List ℕ → Step
  intro_step intro_pad pad o input =
      let other_pk = take 32 input in
      if ltb (length input) intro_bytes
      then return (some 0) o input
      else with_keys intro_pad pad o input (
          if o.incoming
          then server_session_keys o.pk o.sk other_pk
          else client_session_keys o.pk o.sk other_pk)

  -- The case OF_STATE_SYNC from the crypt_intro on, once it is decrypted to `ci`.
  unfoldable pub sync_answer : List ℕ → Obfoo → List ℕ → List ℕ → Step
  sync_answer pad o ci input =
      let pad_len = little_endian (take 2 (drop 12 ci)) in
      let (o1, c) = obfoo_encrypt lib o (crypt_intro pad) in
      if little_endian (take 8 ci) == 0
      then if leb (little_endian (take 4 (drop 8 ci))) 1
        then falls
            (if o.incoming
              then record o1 {
                discarding = (pad_len + 2) % 65536;
                output = o.output ++ or_keep (crypt_intro pad) c;
                state = discard;
              }
              else record o { discarding = pad_len; state = discard })
            (drop crypt_intro_size input)
        else return none o input
      else return none o input

  abbrev pub at_sync : List ℕ → Obfoo → List ℕ → Step
  at_sync pad o input =
      let (o1, c) = obfoo_decrypt lib o (take crypt_intro_size input) in
      if ltb (length input) crypt_intro_size
      then crashes
      else sync_answer pad o1 (or_keep (take crypt_intro_size input) c) input

  unfoldable pub sync_found : List ℕ → Obfoo → List ℕ → ℕ → Option ℕ → Step
  sync_found pad o input search_len none =
      if leb (intro_pad_max + search_len) (length input)
      then return none o input
      else return (some 0) o input
  sync_found pad o input search_len (some pos) =
      at_sync pad o (if o.incoming then drop 40 (drop pos input) else drop pos input)

  unfoldable pub sync_step : List ℕ → Obfoo → List ℕ → Step
  sync_step pad o input =
      let sync_len = (if o.incoming then 40 else 0) + crypt_intro_size in
      let what = if o.incoming then o.synchash else take 8 o.synchash in
      let search_len = if o.incoming then 40 else 8 in
      if ltb (length input) sync_len
      then return (some 0) o input
      else sync_found pad o input search_len (search input what)

  unfoldable pub discard_step : Obfoo → List ℕ → Step
  discard_step o input =
      let n = min (length input) o.discarding in
      let o1 = record o {
        rx_ic_bytes = (o.rx_ic_bytes + n) % size_mod;
        discarding = o.discarding - n;
      } in
      if o1.discarding == 0
      then falls (record o1 { state = ready }) (drop n input)
      else return (some n) o1 (drop n input)

  unfoldable pub ready_step : Obfoo → List ℕ → Step
  ready_step o input = returns (evbuffer_filter (obfoo_decrypt lib) o input)

  abbrev pub then_step : Step → (Obfoo → List ℕ → Step) → Step
  then_step (returns f) next = returns f
  then_step crashes next = crashes
  then_step (falls o input) next = next o input

  unfoldable pub from_discard : Obfoo → List ℕ → Step
  from_discard o input = then_step (discard_step o input) ready_step

  unfoldable pub from_sync : List ℕ → Obfoo → List ℕ → Step
  from_sync pad o input = then_step (sync_step pad o input) from_discard

  -- The switch of obfoo_input_filter, whose cases fall through.
  unfoldable pub from_state : State → List ℕ → List ℕ → Obfoo → List ℕ → Step
  from_state intro intro_pad pad o input =
      then_step (intro_step intro_pad pad o input) (from_sync pad)
  from_state sync intro_pad pad o input = from_sync pad o input
  from_state discard intro_pad pad o input = from_discard o input
  from_state ready intro_pad pad o input = ready_step o input

  unfoldable pub obfoo_input_filter : List ℕ → List ℕ → Obfoo → List ℕ → Step
  obfoo_input_filter intro_pad pad o input = from_state o.state intro_pad pad o input

  unfoldable pub output_in : State → Obfoo → List ℕ → Filtered
  output_in intro o input = record { result = some 0; obfoo = o; input = input; out = [] }
  output_in sync o input = record { result = some 0; obfoo = o; input = input; out = [] }
  output_in discard o input = evbuffer_filter (obfoo_encrypt lib) o input
  output_in ready o input = evbuffer_filter (obfoo_encrypt lib) o input

  unfoldable pub obfoo_output_filter : Obfoo → List ℕ → Filtered
  obfoo_output_filter o input = output_in o.state o input
