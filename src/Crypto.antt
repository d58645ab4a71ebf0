-- ===== src/Crypto.antt =====
-- What the program relies on of libsodium's generic hash: a parameter of the models that use it.
pub mod FirstBytes
use newnode.Prelude.{ℕ, ◌≡◌, List, [], ◌++◌, length}

-- crypto_generichash_init(key, outlen), _update and _final(outlen). Updating is streaming: a state
-- depends only on the bytes given so far, and a digest has the length asked for.
pub record Generichash : Type 1 where
  pub State : Type 0
  pub init : List ℕ → ℕ → State
  pub update : State → List ℕ → State
  pub final : State → ℕ → List ℕ
  pub update-nil : (s : State) → update s [] ≡ s
  pub update-update : (s : State) (a b : List ℕ) → update (update s a) b ≡ update s (a ++ b)
  pub length-final : (s : State) (n : ℕ) → length (final s n) ≡ n

-- crypto_generichash_BYTES and crypto_generichash_KEYBYTES.
abbrev pub hash_bytes : ℕ
hash_bytes = 32

abbrev pub key_bytes : ℕ
key_bytes = 32
