-- ===== src/Signature.antt =====
-- injector.c and client.c: the signature over a hash, and its verification.
pub mod Verify
pub mod Tests
use newnode.Prelude.{
  ℕ, ◌≡◌, ◌<◌, Bool, true, false, Option, none, some, List, [], ◌++◌, ◌==◌, if◌then◌else◌, length,
  take, drop, bytes_eq, All,
}
use newnode.Base64.{codes, base64_length, base64_decode, base64_urlsafe_encode}
use newnode.Crypto.{hash_bytes}

-- crypto_sign_detached and crypto_sign_verify_detached, under one pair of keys: a signature has
-- crypto_sign_BYTES bytes, and what was signed verifies.
pub record Signing : Type 0 where
  pub sign_detached : List ℕ → List ℕ
  pub verify_detached : List ℕ → List ℕ → Bool
  pub length-sign : (msg : List ℕ) → length (sign_detached msg) ≡ 64
  pub sign-bytes : (msg : List ℕ) → All (λ b. b < 256) (sign_detached msg)
  pub verify-sign : (msg : List ℕ) → verify_detached (sign_detached msg) msg ≡ true

-- sizeof(content_sig): a signature, "sign", a timestamp and a hash.
abbrev pub content_sig_size : ℕ
content_sig_size = 120

module _ (keys : Signing) where
  open keys use {sign_detached, verify_detached}

  -- The bytes of `sig`, with the timestamp that strftime writes.
  unfoldable pub content_sign : List ℕ → List ℕ → List ℕ
  content_sign timestamp content_hash =
      let signed = codes "sign" ++ timestamp ++ content_hash in sign_detached signed ++ signed

  -- The tests from the decoded bytes on.
  unfoldable pub check_sig : List ℕ → Option (List ℕ) → Bool
  check_sig content_hash none = false
  check_sig content_hash (some raw_sig) =
      if length raw_sig == content_sig_size
      then if verify_detached (take 64 raw_sig) (drop 64 raw_sig)
        then bytes_eq (take hash_bytes content_hash) (take hash_bytes (drop 88 raw_sig))
        else false
      else false

  unfoldable pub verify_signature : (ℕ → Bool) → List ℕ → List ℕ → Bool
  verify_signature malloc content_hash sign =
      if length sign == base64_length content_sig_size
      then check_sig content_hash (base64_decode malloc sign)
      else false
