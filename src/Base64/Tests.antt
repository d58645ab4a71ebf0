-- ===== src/Base64/Tests.antt =====
-- base64.c
use newnode.Prelude.{
  ℕ, ◌+◌, ◌≡◌, refl, Bool, true, some, none, length, get_or, if◌then◌else◌, inl, arith,
}
use newnode.Base64.Length.{base64_table_encode-length}
use newnode.Base64.Inverse.{base64_decode-encode}
use newnode.Base64.{
  codes, base64_length, base64_encode, base64_table_encode, base64_decode, encode_bytes, dtable,
  base64_table, put_char, trim,
}

abbrev enough_memory : ℕ → Bool
enough_memory n = true

encode_run : base64_encode enough_memory (codes "Man>") ≡ some (codes "TWFuPg")
unfolding base64_encode base64_table_encode encode_bytes base64_table
encode_run = refl

decode_run : base64_decode enough_memory (codes "TWFuPg") ≡ some (codes "Man>")
unfolding base64_decode dtable put_char trim
decode_run = refl

decode_error : base64_decode enough_memory (codes "TWF*Pg") ≡ none
unfolding base64_decode dtable put_char trim
decode_error = refl

base64_table_encode-length_example :
    (base64_table_encode enough_memory base64_table (codes "Man>") ≡ (
      if enough_memory (base64_length 4 + 1)
      then some (encode_bytes (λ i. get_or base64_table i 0) (codes "Man>"))
      else none))
    × (length (encode_bytes (λ i. get_or base64_table i 0) (codes "Man>")) ≡ base64_length 4)
base64_table_encode-length_example =
    base64_table_encode-length enough_memory base64_table (codes "Man>") (omega arith)

table_run : base64_table_encode enough_memory base64_table (codes "Man>") ≡ some (codes "TWFuPg")
unfolding base64_table_encode encode_bytes base64_table
table_run = refl

base64_decode-encode_example : base64_decode enough_memory (codes "TWFuPg") ≡ some (codes "Man>")
base64_decode-encode_example =
    base64_decode-encode enough_memory base64_table (codes "Man>") (codes "TWFuPg") (inl refl)
      (omega arith, (omega arith, (omega arith, (omega arith, tt)))) (omega arith) table_run refl
