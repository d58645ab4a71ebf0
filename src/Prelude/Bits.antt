-- ===== src/Prelude/Bits.antt =====
-- Bit operations on bytes, decided by evaluation, and shifts that join disjoint fields.
use newnode.Prelude.{
  ℕ, zero, suc, ◌+◌, ◌*◌, ◌%◌, ◌<◌, ◌≡◌, refl, bit_and, bit_or, Bool, true, false, if◌then◌else◌,
  arith, ◌==◌, ==_iff,
}

-- Whether a test holds of each number under a bound.
unfoldable pub tested : (ℕ → Bool) → ℕ → Bool
tested p zero = true
tested p (suc n) = let below = tested p n in if p n then below else false

pub tested-true : (p : ℕ → Bool) (n x : ℕ) → x < n → tested p n ≡ true → p x ≡ true
unfolding tested
tested-true p zero x lt t = absurd (omega arith)
tested-true p (suc n) x lt t = ground (arith, tested-true p n x)

low2_table : tested (λ x. bit_and x 0x03 == x % 4) 256 ≡ true
unfolding tested
low2_table = refl

low4_table : tested (λ x. bit_and x 0x0f == x % 16) 256 ≡ true
unfolding tested
low4_table = refl

low6_table : tested (λ x. bit_and x 0x3f == x % 64) 256 ≡ true
unfolding tested
low6_table = refl

pub low2 : (x : ℕ) → x < 256 → bit_and x 0x03 ≡ x % 4
low2 x h = (==_iff _ _).0 (tested-true _ 256 x h low2_table)

pub low4 : (x : ℕ) → x < 256 → bit_and x 0x0f ≡ x % 16
low4 x h = (==_iff _ _).0 (tested-true _ 256 x h low4_table)

pub low6 : (x : ℕ) → x < 256 → bit_and x 0x3f ≡ x % 64
low6 x h = (==_iff _ _).0 (tested-true _ 256 x h low6_table)

join_table : ℕ → ℕ → ℕ → Bool
unfolding tested
join_table hi k lo = tested (λ x. tested (λ y. bit_or (x * k) y == x * k + y) lo) hi

join_table_sound :
    (hi k lo x y : ℕ) → join_table hi k lo ≡ true → x < hi → y < lo → bit_or (x * k) y ≡ x * k + y
unfolding join_table
join_table_sound hi k lo x y t hx hy =
    (==_iff _ _).0 (tested-true _ lo y hy (tested-true _ hi x hx t))

join_4_16_table : join_table 4 16 16 ≡ true
unfolding join_table
join_4_16_table = refl

join_16_4_table : join_table 16 4 4 ≡ true
unfolding join_table
join_16_4_table = refl

join_64_4_table : join_table 64 4 4 ≡ true
unfolding join_table
join_64_4_table = refl

join_16_16_table : join_table 16 16 16 ≡ true
unfolding join_table
join_16_16_table = refl

join_4_64_table : join_table 4 64 64 ≡ true
unfolding join_table
join_4_64_table = refl

-- A field shifted above another is their sum.
pub join_4_16 : (x y : ℕ) → x < 4 → y < 16 → bit_or (x * 16) y ≡ x * 16 + y
join_4_16 x y = join_table_sound 4 16 16 x y join_4_16_table

pub join_16_4 : (x y : ℕ) → x < 16 → y < 4 → bit_or (x * 4) y ≡ x * 4 + y
join_16_4 x y = join_table_sound 16 4 4 x y join_16_4_table

pub join_64_4 : (x y : ℕ) → x < 64 → y < 4 → bit_or (x * 4) y ≡ x * 4 + y
join_64_4 x y = join_table_sound 64 4 4 x y join_64_4_table

pub join_16_16 : (x y : ℕ) → x < 16 → y < 16 → bit_or (x * 16) y ≡ x * 16 + y
join_16_16 x y = join_table_sound 16 16 16 x y join_16_16_table

pub join_4_64 : (x y : ℕ) → x < 4 → y < 64 → bit_or (x * 64) y ≡ x * 64 + y
join_4_64 x y = join_table_sound 4 64 64 x y join_4_64_table
