-- ===== src/Prelude/Xor.antt =====
-- The exclusive or is its own inverse, from its lowest binary digit.
use Prim.Native.Nat.{digits, differ, bit_xor-bitwise}
use newnode.Prelude.{ℕ, zero, suc, ◌+◌, ◌*◌, ◌/◌, ◌%◌, ◌≤◌, ◌<◌, ◌≡◌, ◌∙◌, refl, bit_xor, arith}

abbrev xor_digits : ℕ → ℕ → ℕ → ℕ
xor_digits = digits (λ y. y) differ

xor_digits_fuel : (a b k m : ℕ) → a ≤ k → a ≤ m → xor_digits k a b ≡ xor_digits m a b
xor_digits_fuel zero b zero zero hk hm = refl
xor_digits_fuel zero b zero (suc m) hk hm = refl
xor_digits_fuel zero b (suc k) zero hk hm = refl
xor_digits_fuel (suc a) b k zero hk hm = absurd (omega arith)
xor_digits_fuel (suc a) b zero m hk hm = absurd (omega arith)
xor_digits_fuel a b (suc k) (suc m) hk hm =
    let half = xor_digits_fuel (a / 2) (b / 2) k m in ground (arith, half)

zero-bit_xor : (b : ℕ) → bit_xor 0 b ≡ b
zero-bit_xor b = bit_xor-bitwise 0 b

differ_sum : (r s : ℕ) → r < 2 → s < 2 → differ r s ≡ (r + s) % 2
differ_sum zero s hr hs = omega arith
differ_sum (suc zero) zero hr hs = refl
differ_sum (suc zero) (suc zero) hr hs = refl
differ_sum (suc zero) (suc (suc s)) hr hs = absurd (omega arith)
differ_sum (suc (suc r)) s hr hs = absurd (omega arith)

bit_xor_digit : (a b : ℕ) → bit_xor a b ≡ bit_xor (a / 2) (b / 2) * 2 + (a + b) % 2
bit_xor_digit zero b = omega (arith, zero-bit_xor b, zero-bit_xor (b / 2))
bit_xor_digit (suc a) b = omega (
  arith,
  bit_xor-bitwise (suc a) b,
  bit_xor-bitwise (suc a / 2) (b / 2),
  xor_digits_fuel (suc a / 2) (b / 2) a (suc a / 2) (omega arith) (omega arith),
  differ_sum (suc a % 2) (b % 2) (omega arith) (omega arith),
)

xor_twice_fuel : (n a b : ℕ) → a ≤ n → b ≤ n → bit_xor (bit_xor a b) b ≡ a
xor_twice_fuel zero a b ha hb =
    let ea : a ≡ 0 = omega arith in let eb : b ≡ 0 = omega arith in rw (ea, eb) refl
xor_twice_fuel (suc n) a b ha hb =
    let half : bit_xor a b / 2 ≡ bit_xor (a / 2) (b / 2) = omega (arith, bit_xor_digit a b) in
    let inner = xor_twice_fuel n (a / 2) (b / 2) (omega arith) (omega arith) in
    bit_xor_digit (bit_xor a b) b ∙ rw (half, inner) (omega (arith, bit_xor_digit a b))

pub bit_xor-bit_xor : (a b : ℕ) → bit_xor (bit_xor a b) b ≡ a
bit_xor-bit_xor a b = xor_twice_fuel (a + b) a b (omega arith) (omega arith)
