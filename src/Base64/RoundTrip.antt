-- ===== src/Base64/RoundTrip.antt =====
-- base64.c: decoding what was encoded.
use newnode.Prelude.{
  ℕ, ◌+◌, ◌*◌, ◌/◌, ◌%◌, ◌<◌, ◌≡◌, ◌≢◌, ◌∙◌, sym, ap, refl, some, List, [], ◌∷◌, ◌++◌, arith,
  length, replicate, All, take, length-append, take-length-append, bit_or, bit_and, append-nil,
  append_assoc,
}
use newnode.Prelude.Bits.{low2, low4, low6, join_4_16, join_16_4, join_64_4, join_16_16, join_4_64}
use newnode.Base64.{drop_last, Decoder, encode_bytes, decode_loop, put_char, trim, block_bytes}

-- The decoder between two groups.
abbrev full : (i0 i1 i2 i3 b0 b1 b2 b3 : ℕ) → List ℕ → Decoder
full i0 i1 i2 i3 b0 b1 b2 b3 out = record {
  count = 0;
  input = i0 ∷ i1 ∷ i2 ∷ i3 ∷ [];
  block = b0 ∷ b1 ∷ b2 ∷ b3 ∷ [];
  out = out;
}

abbrev Decodes : (ℕ → ℕ) → ℕ → ℕ → Type 0
Decodes dec c v = (dec c ≡ v) × (v < 64)

char_step :
    (dec : ℕ → ℕ) (c v : ℕ) (cs : List ℕ) (d : Decoder)
    → Decodes dec c v
    → decode_loop dec (c ∷ cs) d ≡ decode_loop dec cs (put_char d c v)
unfolding decode_loop
char_step dec c v cs d h = rw (h.0) (ground arith)

group_step :
    (dec : ℕ → ℕ) (c0 c1 c2 c3 v0 v1 v2 v3 i0 i1 i2 i3 b0 b1 b2 b3 : ℕ) (rest out : List ℕ)
    → Decodes dec c0 v0
    → Decodes dec c1 v1
    → Decodes dec c2 v2
    → Decodes dec c3 v3
    → decode_loop dec (c0 ∷ c1 ∷ c2 ∷ c3 ∷ rest) (full i0 i1 i2 i3 b0 b1 b2 b3 out)
      ≡ decode_loop dec rest
          (full c0 c1 c2 c3 v0 v1 v2 v3 (out ++ block_bytes (v0 ∷ v1 ∷ v2 ∷ v3 ∷ [])))
unfolding put_char
group_step dec c0 c1 c2 c3 v0 v1 v2 v3 i0 i1 i2 i3 b0 b1 b2 b3 rest out h0 h1 h2 h3 =
    char_step dec c0 v0 (c1 ∷ c2 ∷ c3 ∷ rest) _ h0
    ∙ char_step dec c1 v1 (c2 ∷ c3 ∷ rest) _ h1
    ∙ char_step dec c2 v2 (c3 ∷ rest) _ h2
    ∙ char_step dec c3 v3 rest _ h3

-- The bytes of a block in terms of its four fields.
block_byte_0 : (v w : ℕ) → v < 64 → w < 64 → bit_or ((v * 4) % 256) (w / 16) ≡ v * 4 + w / 16
block_byte_0 v w hv hw =
    let e : (v * 4) % 256 ≡ v * 4 = omega arith in rw e (join_64_4 v (w / 16) hv (omega arith))

block_byte_1 : (v w : ℕ) → v < 64 → w < 64 → bit_or ((v * 16) % 256) (w / 4) ≡ v % 16 * 16 + w / 4
block_byte_1 v w hv hw =
    let e : (v * 16) % 256 ≡ v % 16 * 16 = omega arith in
    rw e (join_16_16 (v % 16) (w / 4) (omega arith) (omega arith))

block_byte_2 : (v w : ℕ) → v < 64 → w < 64 → bit_or ((v * 64) % 256) w ≡ v % 4 * 64 + w
block_byte_2 v w hv hw =
    let e : (v * 64) % 256 ≡ v % 4 * 64 = omega arith in rw e (join_4_64 (v % 4) w (omega arith) hw)

cons₃ : {a b c a' b' c' : ℕ} → a ≡ a' → b ≡ b' → c ≡ c' → a ∷ b ∷ c ∷ [] ≡ a' ∷ b' ∷ c' ∷ []
cons₃ p q r = cc

fields_bytes :
    (a b c v w : ℕ)
    → a < 256
    → b < 256
    → c < 256
    → v ≡ a % 4 * 16 + b / 16
    → w ≡ b % 16 * 4 + c / 64
    → block_bytes (a / 4 ∷ v ∷ w ∷ c % 64 ∷ []) ≡ a ∷ b ∷ c ∷ []
fields_bytes a b c v w ha hb hc hv hw =
    cons₃ (omega (arith, block_byte_0 (a / 4) v (omega arith) (omega arith)))
      (omega (arith, block_byte_1 v w (omega arith) (omega arith)))
      (omega (arith, block_byte_2 w (c % 64) (omega arith) (omega arith)))

middle : (a b : ℕ) → a < 256 → b < 256 → bit_or (bit_and a 0x03 * 16) (b / 16) ≡ a % 4 * 16 + b / 16
middle a b ha hb = rw (low2 a ha) (join_4_16 (a % 4) (b / 16) (omega arith) (omega arith))

middle' : (b c : ℕ) → b < 256 → c < 256 → bit_or (bit_and b 0x0f * 4) (c / 64) ≡ b % 16 * 4 + c / 64
middle' b c hb hc = rw (low4 b hb) (join_16_4 (b % 16) (c / 64) (omega arith) (omega arith))

drop_last-append :
    (out : List ℕ) (x y z : ℕ)
    → (drop_last 2 (out ++ x ∷ y ∷ z ∷ []) ≡ out ++ x ∷ [])
      × (drop_last 1 (out ++ x ∷ y ∷ z ∷ []) ≡ out ++ x ∷ y ∷ [])
drop_last-append out x y z = (
  rw (length-append out (x ∷ y ∷ z ∷ [])) (two (omega arith)),
  rw (length-append out (x ∷ y ∷ z ∷ [])) (one (omega arith)),
)
  where
    two : {n : ℕ} → n ≡ length out + 1 → take n (out ++ x ∷ y ∷ z ∷ []) ≡ out ++ x ∷ []
    two e = rw e (take-length-append out (x ∷ y ∷ z ∷ []) 1)

    one : {n : ℕ} → n ≡ length out + 2 → take n (out ++ x ∷ y ∷ z ∷ []) ≡ out ++ x ∷ y ∷ []
    one e = rw e (take-length-append out (x ∷ y ∷ z ∷ []) 2)

-- How many marks the decoder reads past the end of an encoding.
abbrev pub pads : List ℕ → ℕ
pads [] = 0
pads (a ∷ []) = 2
pads (a ∷ b ∷ []) = 1
pads (a ∷ b ∷ c ∷ rest) = pads rest

trim-full :
    (i0 i1 i2 i3 b0 b1 b2 b3 : ℕ) (out : List ℕ)
    → i2 ≢ b'='
    → i3 ≢ b'='
    → trim (full i0 i1 i2 i3 b0 b1 b2 b3 out) ≡ out
unfolding trim
trim-full i0 i1 i2 i3 b0 b1 b2 b3 out h2 h3 = ground arith

trim-two :
    (i0 i1 b0 b1 b2 b3 x y z : ℕ) (out : List ℕ)
    → trim (full i0 i1 b'=' b'=' b0 b1 b2 b3 (out ++ x ∷ y ∷ z ∷ [])) ≡ out ++ x ∷ []
unfolding trim
trim-two i0 i1 b0 b1 b2 b3 x y z out =
    ground (arith, length-append out (x ∷ y ∷ z ∷ []), drop_last-append out x y z)

trim-one :
    (i0 i1 i2 b0 b1 b2 b3 x y z : ℕ) (out : List ℕ)
    → i2 ≢ b'='
    → trim (full i0 i1 i2 b'=' b0 b1 b2 b3 (out ++ x ∷ y ∷ z ∷ [])) ≡ out ++ x ∷ y ∷ []
unfolding trim
trim-one i0 i1 i2 b0 b1 b2 b3 x y z out h =
    ground (arith, length-append out (x ∷ y ∷ z ∷ []), drop_last-append out x y z)

-- What the decoder needs of a table: it inverts it, and '=' is not in it.
pub record Inverts (dec table : ℕ → ℕ) : Type 0 where
  pub back : (i : ℕ) → i < 64 → dec (table i) ≡ i
  pub no_mark : (i : ℕ) → i < 64 → table i ≢ b'='
  pub mark : dec b'=' ≡ 0

abbrev pub IsByte : ℕ → Type 0
IsByte x = x < 256

module _ (dec table : ℕ → ℕ) (inv : Inverts dec table) where
  decodes : (i : ℕ) → i < 64 → Decodes dec (table i) i
  decodes i h = (inv.back i h, h)

  Decodes-mark : Decodes dec b'=' 0
  Decodes-mark = (inv.mark, omega arith)

  -- From any full block that holds no mark, the rest of an encoding decodes to the rest of the bytes.
  pub decode_encoded :
      (src out : List ℕ) (i0 i1 i2 i3 b0 b1 b2 b3 : ℕ)
      → All IsByte src
      → i2 ≢ b'='
      → i3 ≢ b'='
      → (d : Decoder) × (decode_loop dec
            (encode_bytes table src ++ replicate (pads src) b'=')
            (full i0 i1 i2 i3 b0 b1 b2 b3 out)
          ≡ some d)
        × (trim d ≡ out ++ src)
  unfolding encode_bytes
  decode_encoded [] out i0 i1 i2 i3 b0 b1 b2 b3 bytes h2 h3 = (
    full i0 i1 i2 i3 b0 b1 b2 b3 out,
    unfold decode_loop in refl,
    trim-full i0 i1 i2 i3 b0 b1 b2 b3 out h2 h3 ∙ sym (append-nil out),
  )
  decode_encoded (a ∷ []) out i0 i1 i2 i3 b0 b1 b2 b3 (ha, _) h2 h3 = (
    full (table (a / 4)) (table (a % 4 * 16)) b'=' b'=' (a / 4) (a % 4 * 16) 0 0
        (out ++ block_bytes (a / 4 ∷ a % 4 * 16 ∷ 0 ∷ 0 ∷ [])),
    rw (low2 a ha) (
        group_step dec (table (a / 4)) (table (a % 4 * 16)) b'=' b'=' (a / 4) (a % 4 * 16) 0 0 i0 i1
          i2 i3 b0 b1 b2 b3 [] out (decodes (a / 4) (omega arith))
          (decodes (a % 4 * 16) (omega arith)) Decodes-mark Decodes-mark
        ∙ unfold decode_loop in refl),
    trim-two (table (a / 4)) (table (a % 4 * 16)) (a / 4) (a % 4 * 16) 0 0 _ _ _ out
        ∙ ap (λ x. out ++ x ∷ [])
            (omega (arith, block_byte_0 (a / 4) (a % 4 * 16) (omega arith) (omega arith))),
  )
  decode_encoded (a ∷ b ∷ []) out i0 i1 i2 i3 b0 b1 b2 b3 (ha, (hb, _)) h2 h3 =
      let v : ℕ = a % 4 * 16 + b / 16 in
      let w : ℕ = b % 16 * 4 in
      (
        full (table (a / 4)) (table v) (table w) b'=' (a / 4) v w 0
            (out ++ block_bytes (a / 4 ∷ v ∷ w ∷ 0 ∷ [])),
        rw (middle a b ha hb, low4 b hb)
            (group_step dec (table (a / 4)) (table v) (table w) b'=' (a / 4) v w 0 i0 i1 i2 i3 b0 b1
                b2 b3 [] out (decodes (a / 4) (omega arith)) (decodes v (omega arith))
                (decodes w (omega arith)) Decodes-mark
              ∙ unfold decode_loop in refl),
        trim-one (table (a / 4)) (table v) (table w) (a / 4) v w 0 _ _ _ out
              (inv.no_mark w (omega arith))
            ∙ ap (λ (l : List ℕ). out ++ take 2 l)
                (fields_bytes a b 0 v w ha hb (omega arith) refl (omega arith)),
      )
  decode_encoded (a ∷ b ∷ c ∷ rest) out i0 i1 i2 i3 b0 b1 b2 b3 (ha, (hb, (hc, h))) h2 h3 =
      let v : ℕ = a % 4 * 16 + b / 16 in
      let w : ℕ = b % 16 * 4 + c / 64 in
      let (d, loop, out_eq) =
        decode_encoded rest (out ++ block_bytes (a / 4 ∷ v ∷ w ∷ c % 64 ∷ [])) (table (a / 4))
          (table v) (table w) (table (c % 64)) (a / 4) v w (c % 64) h (inv.no_mark w (omega arith))
          (inv.no_mark (c % 64) (omega arith)) in
      (
        d,
        rw (middle a b ha hb, middle' b c hb hc, low6 c hc)
            (group_step dec (table (a / 4)) (table v) (table w) (table (c % 64)) (a / 4) v w
                (c % 64) i0 i1 i2 i3 b0 b1 b2 b3 _ out (decodes (a / 4) (omega arith))
                (decodes v (omega arith)) (decodes w (omega arith)) (decodes (c % 64) (omega arith))
              ∙ loop),
        out_eq
            ∙ append_assoc out _ rest
            ∙ ap (λ (l : List ℕ). out ++ (l ++ rest)) (fields_bytes a b c v w ha hb hc refl refl),
      )
