-- ===== src/Base64/Inverse.antt =====
-- base64.c: the two public encoders against the one decoder, and what the decoder refuses.
use newnode.Prelude.{
  ℕ, ◌+◌, ◌-◌, ◌*◌, ◌/◌, ◌%◌, ◌^◌, ◌<◌, ◌≡◌, ◌⊎◌, ◌∙◌, inl, inr, refl, ap, Bool, true, false, not,
  some, List, [], ◌∷◌, ◌++◌, arith, ◌==◌, ==_iff, length, get_or, replicate, All,
}
use newnode.Prelude.Bits.{tested, tested-true}
use newnode.Base64.{
  base64_table, base64_urlsafe_table, base64_table_encode, base64_decode, dtable, decode_loop, trim,
  encode_bytes, fresh_decoder, div_round_up, size_mod, Decoder,
}
use newnode.Base64.Length.{length-encode_bytes, base64_table_encode-length}
use newnode.Base64.RoundTrip.{Inverts, IsByte, decode_encoded, pads}

abbrev lookup_char : ℕ → ℕ
lookup_char c = get_or dtable c 0

-- The table of an encoder of the program.
abbrev pub IsAlphabet : List ℕ → Type 0
IsAlphabet table = (table ≡ base64_table) ⊎ (table ≡ base64_urlsafe_table)

abbrev inverse_check : List ℕ → Bool
inverse_check table = tested (λ i. lookup_char (get_or table i 0) == i) 64

abbrev mark_check : List ℕ → Bool
mark_check table = tested (λ i. not (get_or table i 0 == b'=')) 64

not-true : (b : Bool) → not b ≡ true → b ≡ false
not-true b h = ground arith

checked-Inverts :
    (table : List ℕ)
    → inverse_check table ≡ true
    → mark_check table ≡ true
    → lookup_char b'=' ≡ 0
    → Inverts lookup_char (λ i. get_or table i 0)
checked-Inverts table inverse marks mark = record {
  back = λ i h. (==_iff _ i).0 (tested-true _ 64 i h inverse);
  no_mark = λ i h e. cc (not-true _ (tested-true _ 64 i h marks), (==_iff _ _).1 e);
  mark = mark;
}

base64_table-Inverts : Inverts lookup_char (λ i. get_or base64_table i 0)
unfolding tested base64_table base64_urlsafe_table dtable
base64_table-Inverts = checked-Inverts base64_table refl refl refl

base64_urlsafe_table-Inverts : Inverts lookup_char (λ i. get_or base64_urlsafe_table i 0)
unfolding tested base64_table base64_urlsafe_table dtable
base64_urlsafe_table-Inverts = checked-Inverts base64_urlsafe_table refl refl refl

IsAlphabet-Inverts :
    (table : List ℕ) → IsAlphabet table → Inverts lookup_char (λ i. get_or table i 0)
IsAlphabet-Inverts table (inl e) = rw e base64_table-Inverts
IsAlphabet-Inverts table (inr e) = rw e base64_urlsafe_table-Inverts

pads_lem :
    (src : List ℕ) → pads src ≡ ((length src * 4 + 2) / 3 + 3) / 4 * 4 - (length src * 4 + 2) / 3
pads_lem [] = refl
pads_lem (a ∷ []) = refl
pads_lem (a ∷ b ∷ []) = refl
pads_lem (a ∷ b ∷ c ∷ rest) = omega (arith, pads_lem rest)

pub encoded :
    (malloc : ℕ → Bool) (table src out : List ℕ)
    → length src * 4 + 8 < 2 ^ 64
    → base64_table_encode malloc table src ≡ some out
    → encode_bytes (λ i. get_or table i 0) src ≡ out
encoded malloc table src out h enc =
    let e = (base64_table_encode-length malloc table src (omega arith)).0 in ground arith

-- With the sizes computed, decoding is the loop over the padded text.
decode_padded :
    (malloc : ℕ → Bool) (text : List ℕ) (k : ℕ)
    → length text + 4 < 2 ^ 64
    → k ≡ (length text + 3) / 4 * 4 - length text
    → malloc (div_round_up (length text) 4 * 3) ≡ true
    → (d : Decoder) → decode_loop lookup_char (text ++ replicate k b'=') fresh_decoder ≡ some d
    → base64_decode malloc text ≡ some (trim d)
unfolding base64_decode
decode_padded malloc text k h hk alloc d loop = rw (e3, alloc, e4, loop) refl
  where
    e3 : (div_round_up (length text) 4 * 3) % size_mod ≡ div_round_up (length text) 4 * 3
    e3 = omega arith

    e4 : (div_round_up (length text) 4 * 4) % size_mod - length text ≡ k
    e4 = omega arith

-- Whatever bytes either encoder is given, decoding the text that it returns gives those bytes back,
-- if the sizes do not wrap and the decoder's allocation succeeds.
pub base64_decode-encode :
    (malloc : ℕ → Bool) (table src out : List ℕ)
    → IsAlphabet table
    → All IsByte src
    → length src * 4 + 8 < 2 ^ 64
    → base64_table_encode malloc table src ≡ some out
    → malloc (div_round_up (length out) 4 * 3) ≡ true
    → base64_decode malloc out ≡ some src
base64_decode-encode malloc table src out alphabet bytes h enc alloc =
    let text_eq = encoded malloc table src out h enc in
    let table_at : ℕ → ℕ = λ i. get_or table i 0 in
    let size = length-encode_bytes table_at src in
    let (d, loop, trimmed) =
      decode_encoded lookup_char table_at (IsAlphabet-Inverts table alphabet) src [] 0 0 0 0 0 0 0 0
        bytes (omega arith) (omega arith) in
    let length_out : length out ≡ (length src * 4 + 2) / 3 = rw (← text_eq) size in
    decode_padded malloc out (pads src) (omega arith) (omega (arith, pads_lem src)) alloc d
      (rw (← text_eq) loop)
    ∙ ap some trimmed
