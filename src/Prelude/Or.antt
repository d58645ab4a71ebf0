-- ===== src/Prelude/Or.antt =====
-- Laws of the bitwise or at variables, from its lowest binary digit.
use Prim.Native.Nat.{max, digits, bit_or-bitwise}
use newnode.Prelude.{ℕ, zero, suc, ◌+◌, ◌-◌, ◌*◌, ◌/◌, ◌%◌, ◌<◌, ◌≤◌, ◌≡◌, ◌∙◌, refl, bit_or, arith}

-- 2 ^ d, by recursion on the exponent.
abbrev pub pow2 : ℕ → ℕ
pow2 zero = 1
pow2 (suc d) = 2 * pow2 d

pub pow2_pos : (d : ℕ) → 0 < pow2 d
pow2_pos zero = omega arith
pow2_pos (suc d) = omega (arith, pow2_pos d)

pub pow2-add : (a b : ℕ) → pow2 (a + b) ≡ pow2 a * pow2 b
pow2-add zero b = let e : 0 + b ≡ b = omega arith in rw e (omega arith)
pow2-add (suc a) b =
    let e : suc a + b ≡ suc (a + b) = omega arith in rw e (omega (arith, pow2-add a b))

abbrev or_digits : ℕ → ℕ → ℕ → ℕ
or_digits = digits (λ y. y) max

-- More fuel than the first number changes nothing.
or_digits_fuel : (a b k m : ℕ) → a ≤ k → a ≤ m → or_digits k a b ≡ or_digits m a b
or_digits_fuel zero b zero zero hk hm = refl
or_digits_fuel zero b zero (suc m) hk hm = refl
or_digits_fuel zero b (suc k) zero hk hm = refl
or_digits_fuel (suc a) b k zero hk hm = absurd (omega arith)
or_digits_fuel (suc a) b zero m hk hm = absurd (omega arith)
or_digits_fuel a b (suc k) (suc m) hk hm =
    let half = or_digits_fuel (a / 2) (b / 2) k m in ground (arith, half)

zero-bit_or : (b : ℕ) → bit_or 0 b ≡ b
zero-bit_or b = bit_or-bitwise 0 b

pub bit_or_digit : (a b : ℕ) → bit_or a b ≡ bit_or (a / 2) (b / 2) * 2 + max (a % 2) (b % 2)
bit_or_digit zero b = omega (arith, zero-bit_or b, zero-bit_or (b / 2))
bit_or_digit (suc a) b = omega (
  arith,
  bit_or-bitwise (suc a) b,
  bit_or-bitwise (suc a / 2) (b / 2),
  or_digits_fuel (suc a / 2) (b / 2) a (suc a / 2) (omega arith) (omega arith),
)

bit_or_comm_fuel : (n a b : ℕ) → a ≤ n → b ≤ n → bit_or a b ≡ bit_or b a
bit_or_comm_fuel zero a b p q = let e : a ≡ b = omega arith in rw e
bit_or_comm_fuel (suc n) a b p q = omega (
  arith,
  bit_or_digit a b,
  bit_or_digit b a,
  bit_or_comm_fuel n (a / 2) (b / 2) (omega arith) (omega arith),
)

pub bit_or_comm : (a b : ℕ) → bit_or a b ≡ bit_or b a
bit_or_comm a b = bit_or_comm_fuel (a + b) a b (omega arith) (omega arith)

-- A mask of ones sets the low bits.
pub bit_or_mask :
    (m q r : ℕ) → r < pow2 m → bit_or (q * pow2 m + r) (pow2 m - 1) ≡ q * pow2 m + (pow2 m - 1)
bit_or_mask zero q r h =
    let e : q * 1 + r ≡ q = omega arith in rw e (bit_or_comm q 0 ∙ (zero-bit_or q ∙ omega arith))
bit_or_mask (suc m) q r h =
    let half : (q * (2 * pow2 m) + r) / 2 ≡ q * pow2 m + r / 2 = omega arith in
    let ones : (2 * pow2 m - 1) / 2 ≡ pow2 m - 1 = omega arith in
    bit_or_digit (q * (2 * pow2 m) + r) (2 * pow2 m - 1)
    ∙ rw (half, ones, bit_or_mask m q (r / 2) (omega arith)) (omega (arith, pow2_pos m))

-- The high parts of two numbers are joined apart from their low parts.
pub bit_or_split :
    (j a b r s : ℕ)
    → r < pow2 j
    → s < pow2 j
    → (t : ℕ) × (t < pow2 j) × (bit_or (a * pow2 j + r) (b * pow2 j + s) ≡ bit_or a b * pow2 j + t)
bit_or_split zero a b r s hr hs =
    let e1 : a * 1 + r ≡ a = omega arith in
    let e2 : b * 1 + s ≡ b = omega arith in (0, omega arith, rw (e1, e2) (omega arith))
bit_or_split (suc j) a b r s hr hs =
    let (t, lt, e) = bit_or_split j a b (r / 2) (s / 2) (omega arith) (omega arith) in
    let ha : (a * (2 * pow2 j) + r) / 2 ≡ a * pow2 j + r / 2 = omega arith in
    let hb : (b * (2 * pow2 j) + s) / 2 ≡ b * pow2 j + s / 2 = omega arith in
    (
      2 * t + max (r % 2) (s % 2),
      omega arith,
      bit_or_digit (a * (2 * pow2 j) + r) (b * (2 * pow2 j) + s) ∙ rw (ha, hb, e) (omega arith),
    )
