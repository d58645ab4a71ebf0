-- ===== src/Obfoo/Stream.antt =====
-- obfoo.c: the cipher from any byte on is one key stream, and what the two ends make of it.
use newnode.Prelude.{
  ℕ, suc, ◌+◌, ◌-◌, ◌*◌, ◌/◌, ◌%◌, ◌^◌, ◌≤◌, ◌<◌, ◌≡◌, ◌∙◌, refl, sym, ap, bit_xor, some, ◌>>=◌,
  List, [], ◌∷◌, ◌++◌, min, ltb, ◌==◌, length, take, drop, replicate, arith, Bool-cases, inl, inr,
  length-append, length-take, length-drop, length-replicate, take-append-drop, take_all,
  drop-append, drop_all, append-nil,
}
use newnode.Prelude.Xor.{bit_xor-bit_xor}
use newnode.Base64.{size_mod}
use newnode.Obfoo.{Primitives, xor_from, chacha20_xor_ic_bytes}

pub length-xor_from :
    (stream : ℕ → ℕ) (i : ℕ) (xs : List ℕ) → length (xor_from stream i xs) ≡ length xs
length-xor_from stream i [] = refl
length-xor_from stream i (x ∷ xs) = ap suc (length-xor_from stream (i + 1) xs)

pub xor_from-append :
    (stream : ℕ → ℕ) (i j : ℕ) (xs ys : List ℕ)
    → j ≡ i + length xs
    → xor_from stream i (xs ++ ys) ≡ xor_from stream i xs ++ xor_from stream j ys
xor_from-append stream i j [] ys e = let same : j ≡ i = omega arith in rw same refl
xor_from-append stream i j (x ∷ xs) ys e =
    ap (◌∷◌ (bit_xor x (stream i))) (xor_from-append stream (i + 1) j xs ys (omega arith))

-- The same stream again gives the message back.
pub xor_from-xor_from :
    (stream : ℕ → ℕ) (i : ℕ) (xs : List ℕ) → xor_from stream i (xor_from stream i xs) ≡ xs
xor_from-xor_from stream i [] = refl
xor_from-xor_from stream i (x ∷ xs) =
    rw (bit_xor-bit_xor x (stream i), xor_from-xor_from stream (i + 1) xs) refl

-- The bytes behind `n` bytes of padding.
xor_behind :
    (stream : ℕ → ℕ) (i j n plen : ℕ) (xs : List ℕ)
    → j ≡ i + n
    → plen ≡ length xs
    → take plen (drop n (xor_from stream i (replicate n 0 ++ xs))) ≡ xor_from stream j xs
xor_behind stream i j n plen xs ej ep =
    let zeros = length-replicate {A = ℕ} n 0 in
    let size = length-xor_from stream i (replicate n 0) in
    rw
      (
        xor_from-append stream i j (replicate n 0) xs (omega arith),
        drop-append n (xor_from stream i (replicate n 0)) (xor_from stream j xs) (omega arith),
        drop_all n (xor_from stream i (replicate n 0)) (omega arith),
      )
      (take_all plen (xor_from stream j xs) (omega (arith, length-xor_from stream j xs)))

module _ (lib : Primitives) where
  open lib use {stream, xor_ic, xor_ic-stream}

  -- Ciphering from any byte on joins the message with the key stream from that byte on.
  pub chacha20_xor_ic_bytes-xor_from :
      (m n : List ℕ) (ic_bytes : ℕ) (k : List ℕ)
      → ic_bytes + length m < 2 ^ 64
      → chacha20_xor_ic_bytes lib m n ic_bytes k ≡ some (xor_from (stream k n) ic_bytes m)
  unfolding chacha20_xor_ic_bytes
  chacha20_xor_ic_bytes-xor_from m n ic_bytes k max = elim (Bool-cases (ic_bytes % 64 == 0)) [
    | inl whole ↦
        let start : ic_bytes / 64 * 64 ≡ ic_bytes = ground arith in
        rw whole (xor_ic-stream m n (ic_bytes / 64) k (omega arith) ∙ rw start refl)
    | inr cut ↦
        let first =
          xor_ic-stream (replicate r 0 ++ take plen m) n q k
            (omega (arith, length-append (replicate r 0) (take plen m), zeros, taken)) in
        let second = xor_ic-stream (drop plen m) n (end / 64) k (omega (arith, left)) in
        let front =
          xor_behind f (q * 64) ic_bytes r plen (take plen m) (omega arith)
            (omega (arith, taken)) in
        rw (cut, first, ◌>>=◌, second, ◌>>=◌, front) (ap some joined)
  ]
    where
      f : ℕ → ℕ
      f = stream k n

      r : ℕ
      r = ic_bytes % 64

      q : ℕ
      q = ic_bytes / 64

      plen : ℕ
      plen = min (64 - r) (length m)

      end : ℕ
      end = (ic_bytes + plen) % size_mod

      zeros : length (replicate {A = ℕ} r 0) ≡ r
      zeros = length-replicate {A = ℕ} r 0

      taken : length (take plen m) ≡ plen
      taken = omega (arith, length-take plen m)

      left : length (drop plen m) ≡ length m - plen
      left = length-drop plen m

      joined :
          xor_from f ic_bytes (take plen m) ++ xor_from f (end / 64 * 64) (drop plen m)
          ≡ xor_from f ic_bytes m
      joined = elim (Bool-cases (ltb plen (length m))) [
        | inl more ↦
            let place : end / 64 * 64 ≡ ic_bytes + length (take plen m) = ground (arith, taken) in
            sym (xor_from-append f ic_bytes (end / 64 * 64) (take plen m) (drop plen m) place)
            ∙ ap (xor_from f ic_bytes) (take-append-drop plen m)
        | inr all ↦
            let le : length m ≤ plen = ground arith in
            rw (drop_all plen m le, take_all plen m le, append-nil) refl
      ]
