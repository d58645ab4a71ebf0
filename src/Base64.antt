-- ===== src/Base64.antt =====
-- base64.c: encoding without padding over two tables, and the decoder that accepts both.
pub mod Length
pub mod RoundTrip
pub mod Inverse
mod Tests
use Prim.Native.Char.{code}
use Prim.Native.String.{String}
use newnode.Prelude.{
  ℕ, zero, suc, ◌+◌, ◌-◌, ◌*◌, ◌/◌, ◌%◌, ◌^◌, ◌≡◌, bit_and, bit_or, Bool, true, false, Option, none,
  some, List, [], ◌∷◌, ◌++◌, ltb, ◌==◌, if◌then◌else◌, length, get_or, set, take, replicate,
}

abbrev pub codes : String → List ℕ
codes String.[] = []
codes (String.◌∷◌ c s) = code c ∷ codes s

abbrev pub size_mod : ℕ
size_mod = 2 ^ 64

unfoldable pub base64_table : List ℕ
base64_table = codes "ABCDEFGHIJKLMNOPQRSTUVWXYZabcdefghijklmnopqrstuvwxyz0123456789+/"

unfoldable pub base64_urlsafe_table : List ℕ
base64_urlsafe_table = codes "ABCDEFGHIJKLMNOPQRSTUVWXYZabcdefghijklmnopqrstuvwxyz0123456789-_"

-- DIV_ROUND_UP(x, n) and BASE64_LENGTH(x), in size_t arithmetic.
abbrev pub div_round_up : ℕ → ℕ → ℕ
div_round_up x n = ((x + (n - 1)) % size_mod) / n

abbrev pub base64_length : ℕ → ℕ
base64_length x = div_round_up ((x * 4) % size_mod) 3

-- The two loops over whole groups and the last one or two bytes.
unfoldable pub encode_bytes : (ℕ → ℕ) → List ℕ → List ℕ
encode_bytes table [] = []
encode_bytes table (a ∷ []) = table (a / 4) ∷ table (bit_and a 0x03 * 16) ∷ []
encode_bytes table (a ∷ b ∷ []) =
    table (a / 4) ∷ table (bit_or (bit_and a 0x03 * 16) (b / 16)) ∷ table (bit_and b 0x0f * 4) ∷ []
encode_bytes table (a ∷ b ∷ c ∷ rest) =
    table (a / 4)
    ∷ table (bit_or (bit_and a 0x03 * 16) (b / 16))
    ∷ table (bit_or (bit_and b 0x0f * 4) (c / 64))
    ∷ table (bit_and c 0x3f)
    ∷ encode_bytes table rest

-- `none` is a NULL result. `malloc` says whether an allocation of that many bytes succeeds.
unfoldable pub base64_table_encode : (ℕ → Bool) → List ℕ → List ℕ → Option (List ℕ)
base64_table_encode malloc table src =
    let len = length src in
    let olen = (base64_length len + 1) % size_mod in
    if ltb olen len
    then none
    else if malloc olen
    then some (encode_bytes (λ i. get_or table i 0) src)
    else none

unfoldable pub base64_encode : (ℕ → Bool) → List ℕ → Option (List ℕ)
base64_encode malloc src = base64_table_encode malloc base64_table src

unfoldable pub base64_urlsafe_encode : (ℕ → Bool) → List ℕ → Option (List ℕ)
base64_urlsafe_encode malloc src = base64_table_encode malloc base64_urlsafe_table src

-- The loop that fills `dtable`: index `i` of both tables, for the entries left in each.
fill_dtable : List ℕ → List ℕ → ℕ → List ℕ → List ℕ
fill_dtable [] us i d = d
fill_dtable (s ∷ ss) [] i d = d
fill_dtable (s ∷ ss) (u ∷ us) i d =
    let d' = set d s i in fill_dtable ss us (i + 1) (if u == s then d' else set d' u i)

unfoldable pub dtable : List ℕ
unfolding fill_dtable base64_table base64_urlsafe_table
dtable = set (fill_dtable base64_table base64_urlsafe_table 0 (replicate 256 0x80)) b'=' 0

-- The variables of the decoder's loop; `out` is what stands before `pos`.
pub record Decoder : Type 0 where
  pub count : ℕ
  pub input : List ℕ
  pub block : List ℕ
  pub out : List ℕ

-- The three bytes of a full block, each store into an unsigned char.
abbrev pub block_bytes : List ℕ → List ℕ
block_bytes b =
    let at = λ (i : ℕ). get_or b i 0 in
    bit_or ((at 0 * 4) % 256) (at 1 / 16)
    ∷ bit_or ((at 1 * 16) % 256) (at 2 / 4)
    ∷ bit_or ((at 2 * 64) % 256) (at 3)
    ∷ []

unfoldable pub put_char : Decoder → ℕ → ℕ → Decoder
put_char d c tmp =
    let input' = set d.input d.count c in
    let block' = set d.block d.count tmp in
    if d.count + 1 == 4
    then record { count = 0; input = input'; block = block'; out = d.out ++ block_bytes block' }
    else record { count = d.count + 1; input = input'; block = block'; out = d.out }

-- The loop over the `plen` characters, `none` at a character that is not in the table.
unfoldable pub decode_loop : (ℕ → ℕ) → List ℕ → Decoder → Option Decoder
decode_loop table [] d = some d
decode_loop table (c ∷ cs) d =
    let tmp = table c in
    let rest = decode_loop table cs (put_char d c tmp) in if tmp == 0x80 then none else rest

-- `in` and `block` are not initialised in the source; they are read only after a full block.
abbrev pub fresh_decoder : Decoder
fresh_decoder = record { count = 0; input = replicate 4 0; block = replicate 4 0; out = [] }

abbrev pub drop_last : ℕ → List ℕ → List ℕ
drop_last n xs = take (length xs - n) xs

-- The padding marks of the last block shorten the output.
unfoldable pub trim : Decoder → List ℕ
trim d =
    if ltb 0 (length d.out)
    then if get_or d.input 2 0 == b'='
      then drop_last 2 d.out
      else if get_or d.input 3 0 == b'='
      then drop_last 1 d.out
      else d.out
    else d.out

-- Past the end of `src` the loop reads '='.
unfoldable pub base64_decode : (ℕ → Bool) → List ℕ → Option (List ℕ)
unfolding decode_loop
base64_decode malloc src =
    let len = length src in
    let count = div_round_up len 4 in
    let plen = (count * 4) % size_mod in
    let olen = (count * 3) % size_mod in
    let padded = src ++ replicate (plen - len) b'=' in
    if malloc olen
    then elim (decode_loop (λ c. get_or dtable c 0) padded fresh_decoder) [
      | none ↦ none
      | some d ↦ some (trim d)
    ]
    else none
