-- ===== src/Base64/Length.antt =====
-- base64.c: how long the encoder's output is, against the buffer that it allocates.
use newnode.Prelude.{
  ℕ, ◌+◌, ◌*◌, ◌/◌, ◌%◌, ◌^◌, ◌<◌, ◌≡◌, refl, Bool, some, none, List, [], ◌∷◌, arith, length,
  get_or, le→ltb, if◌then◌else◌,
}
use newnode.Base64.{encode_bytes, base64_table_encode, base64_length, size_mod}

pub length-encode_bytes :
    (table : ℕ → ℕ) (src : List ℕ) → length (encode_bytes table src) ≡ (length src * 4 + 2) / 3
unfolding encode_bytes
length-encode_bytes table [] = omega arith
length-encode_bytes table (a ∷ []) = omega arith
length-encode_bytes table (a ∷ b ∷ []) = omega arith
length-encode_bytes table (a ∷ b ∷ c ∷ rest) = omega (arith, length-encode_bytes table rest)

-- Where the size arithmetic does not wrap, encoding under any table returns NULL exactly when the
-- allocation of BASE64_LENGTH(len) + 1 bytes fails, and the characters that it otherwise returns are
-- BASE64_LENGTH(len) many: with the terminating NUL they fill the buffer and do not pass it.
pub base64_table_encode-length :
    (malloc : ℕ → Bool) (table src : List ℕ)
    → length src * 4 + 3 < 2 ^ 64
    → let out = encode_bytes (λ i. get_or table i 0) src in
      (base64_table_encode malloc table src
        ≡ (if malloc (base64_length (length src) + 1) then some out else none))
      × (length out ≡ base64_length (length src))
unfolding base64_table_encode
base64_table_encode-length malloc table src h = (
  rw (olen_lem, le→ltb (base64_length (length src) + 1) (length src) (omega arith)) refl,
  omega (arith, length-encode_bytes (λ i. get_or table i 0) src),
)
  where
    olen_lem : (base64_length (length src) + 1) % size_mod ≡ base64_length (length src) + 1
    olen_lem = omega arith
