-- ===== src/Signature/Tests.antt =====
-- injector.c and client.c: signing with keys of which every signature is zeros.
use newnode.Prelude.{
  ℕ, zero, suc, ◌<◌, ◌≡◌, refl, Bool, true, some, List, arith, bytes_eq, bytes_eq_refl, replicate,
  All, get_or,
}
use newnode.Base64.{base64_urlsafe_encode, base64_table_encode, base64_urlsafe_table, encode_bytes}
use newnode.Signature.{Signing, content_sign, verify_signature}
use newnode.Signature.Verify.{verify_signature-content_sign}

pub zeros-bytes : (n : ℕ) → All (λ b. b < 256) (replicate n 0)
zeros-bytes zero = tt
zeros-bytes (suc n) = (omega arith, zeros-bytes n)

abbrev pub zero_keys : Signing
zero_keys = record {
  sign_detached = λ msg. replicate 64 0;
  verify_detached = λ sig msg. bytes_eq sig (replicate 64 0);
  length-sign = λ msg. refl;
  sign-bytes = λ msg. zeros-bytes 64;
  verify-sign = λ msg. bytes_eq_refl (replicate 64 0);
}

abbrev pub enough_memory : ℕ → Bool
enough_memory n = true

abbrev pub timestamp : List ℕ
timestamp = replicate 20 b'0'

abbrev pub hash : List ℕ
hash = replicate 32 7

abbrev other_hash : List ℕ
other_hash = replicate 32 8

timestamp-bytes : (n : ℕ) → All (λ b. b < 256) (replicate n b'0')
timestamp-bytes zero = tt
timestamp-bytes (suc n) = (omega arith, timestamp-bytes n)

hash-bytes : (n : ℕ) → All (λ b. b < 256) (replicate n 7)
hash-bytes zero = tt
hash-bytes (suc n) = (omega arith, hash-bytes n)

abbrev pub text : List ℕ
text = encode_bytes (λ i. get_or base64_urlsafe_table i 0) (content_sign zero_keys timestamp hash)

text_run : base64_urlsafe_encode enough_memory (content_sign zero_keys timestamp hash) ≡ some text
unfolding base64_urlsafe_encode base64_table_encode encode_bytes content_sign base64_urlsafe_table
text_run = refl

verify_signature-content_sign_example :
    verify_signature zero_keys enough_memory other_hash text ≡ bytes_eq other_hash hash
verify_signature-content_sign_example =
    verify_signature-content_sign zero_keys enough_memory timestamp hash text other_hash refl
      (timestamp-bytes 20) refl (hash-bytes 32) text_run refl refl
