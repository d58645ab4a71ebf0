-- ===== src/Merkle/PowerTwo.antt =====
-- merkle_tree.c: power_two_ceil, by which the leaves are filled up to a full level.
use newnode.Prelude.{
  ℕ, zero, suc, ◌+◌, ◌-◌, ◌*◌, ◌/◌, ◌%◌, ◌^◌, ◌<◌, ◌≤◌, ◌≡◌, ◌⊎◌, ◌∙◌, ap, inl, inr, refl, bit_or,
  arith, ltb, leb, Bool-cases, leb→le, ltb→lt,
}
use native.Mathlib.Nat.{div-add-mod', mod-lt}
use newnode.Prelude.Or.{pow2, pow2_pos, pow2-add, bit_or_comm, bit_or_mask, bit_or_split}
use newnode.Base64.{size_mod}
use newnode.Merkle.{power_two_ceil, smear}

-- The `m` highest of the `b` bits of `x` are set, or all of them.
Top : ℕ → ℕ → ℕ → Type 0
Top b m x =
    (x ≡ pow2 b - 1)
    ⊎ ((j : ℕ) × (r : ℕ) × (j + m ≡ b) × (r < pow2 j) × (x ≡ (pow2 m - 1) * pow2 j + r))

ones_or : (b y : ℕ) → y < pow2 b → bit_or (pow2 b - 1) y ≡ pow2 b - 1
ones_or b y h =
    let e : 0 * pow2 b + y ≡ y = omega arith in
    bit_or_comm (pow2 b - 1) y ∙ rw (← e) (bit_or_mask b 0 y h ∙ omega arith)

mul_le : (a b c : ℕ) → b ≤ c → a * b ≤ a * c
mul_le a b c h = grind arith

le_mul_right : (a b : ℕ) → 0 < b → a ≤ a * b
le_mul_right a b h = grind arith

div-le : (a b : ℕ) → a / b ≤ a
div-le a b = grind arith

top_all : (b m x : ℕ) → x ≡ pow2 b - 1 → bit_or x (x / pow2 m) ≡ pow2 b - 1
top_all b m x e = rw e (ones_or b _ (omega (arith, div-le (pow2 b - 1) (pow2 m), pow2_pos b)))

div_of : (q p s x : ℕ) → x ≡ q * p + s → s < p → x / p ≡ q
div_of q p s x e h = rw e (grind arith)

div_lt : (x p q : ℕ) → x < q * p → x / p < q
div_lt x p q h = grind arith

sub_one_mul : (a b : ℕ) → 0 < a → (a - 1) * b + b ≡ a * b
sub_one_mul zero b h = elim h [ ]
sub_one_mul (suc a) b h = let e : suc a - 1 ≡ a = omega arith in rw e (omega arith)

pub pow2_mono : (j m : ℕ) → j ≤ m → pow2 j ≤ pow2 m
pow2_mono zero m h = omega (arith, pow2_pos m)
pow2_mono (suc j) zero h = absurd (omega arith)
pow2_mono (suc j) (suc m) h = omega (arith, pow2_mono j m)

-- Fewer than `m` bits are left below the top: all of them are set.
top_short :
    (j m r : ℕ)
    → j ≤ m
    → r < pow2 j
    → let x = (pow2 m - 1) * pow2 j + r in bit_or x (x / pow2 m) ≡ pow2 (j + m) - 1
top_short j m r le h =
    let low = pow2_mono j m le in
    let left = sub_one_mul (pow2 m) (pow2 j) (pow2_pos m) in
    let right = sub_one_mul (pow2 j) (pow2 m) (pow2_pos j) in
    let shifted : ((pow2 m - 1) * pow2 j + r) / pow2 m ≡ pow2 j - 1 =
      div_of (pow2 j - 1) (pow2 m) (pow2 m - pow2 j + r) _ (omega arith) (omega arith) in
    rw (shifted, pow2-add j m, bit_or_mask j (pow2 m - 1) r h) (omega arith)

-- Otherwise twice as many are.
top_long :
    (j k m r : ℕ)
    → k ≡ j + m
    → r < pow2 k
    → let x = (pow2 m - 1) * pow2 k + r in
      (s : ℕ) × (s < pow2 j) × (bit_or x (x / pow2 m) ≡ (pow2 (m + m) - 1) * pow2 j + s)
top_long j k m r ek h =
    let size : pow2 k ≡ pow2 j * pow2 m = rw ek (pow2-add j m) in
    let p : ℕ = pow2 m in
    let q : ℕ = pow2 j in
    let big : r < q * p = rw (← size) h in
    let cut = div-add-mod' r p in
    let cut' = div-add-mod' r q in
    let hi : r / q < p = div_lt r q p (omega arith) in
    let lo : r / p < q = div_lt r p q big in
    let one = sub_one_mul p (q * p) (pow2_pos m) in
    let one' = sub_one_mul p p (pow2_pos m) in
    let square : (p - 1) * p + (p - 1) ≡ p * p - 1 = omega (arith, pow2_pos m) in
    let shifted : ((p - 1) * (q * p) + r) / p ≡ (p - 1) * q + r / p =
      div_of ((p - 1) * q + r / p) p (r % p) _ (omega arith) (mod-lt r (pow2_pos m)) in
    let parts : (p - 1) * (q * p) + r ≡ ((p - 1) * p + r / q) * q + r % q = omega arith in
    let (t, lt, e) =
      bit_or_split j ((p - 1) * p + r / q) (p - 1) (r % q) (r / p) (mod-lt r (pow2_pos j)) lo in
    (
      t,
      lt,
      rw (size, shifted, parts, e, bit_or_mask m (p - 1) (r / q) hi, pow2-add m m)
          (ap (λ k. k * q + t) square),
    )

-- Or-ing with the number shifted by `m` doubles the bits that are set below the top one.
Top-double : (b m x : ℕ) → Top b m x → Top b (m + m) (bit_or x (x / pow2 m))
unfolding Top
Top-double b m x (inl e) = inl (top_all b m x e)
Top-double b m x (inr (j, r, eb, lt, ex)) = elim (Bool-cases (leb m j)) [
  | inl long ↦ double_long (leb→le m j long)
  | inr short ↦ inl (rw ex (top_short j m r (ground arith) lt ∙ rw eb))
]
  where
    double_long : m ≤ j → Top b (m + m) (bit_or x (x / pow2 m))
    double_long le =
        let (s, small, e) = top_long (j - m) j m r (omega arith) lt in
        inr (j - m, s, omega arith, small, rw ex e)

log_exists : (v : ℕ) → 0 < v → (k : ℕ) × (pow2 k ≤ v) × (v < pow2 (suc k))
log_exists zero h = elim h [ ]
log_exists (suc zero) h = (0, omega arith, omega arith)
log_exists (suc (suc v)) h =
    let (k, lo, hi) = log_exists (suc v) (omega arith) in
    elim (Bool-cases (ltb (suc (suc v)) (pow2 (suc k)))) [
      | inl inside ↦ (k, omega arith, ltb→lt _ _ inside)
      | inr above ↦ (suc k, ground arith, omega (arith, pow2_pos k))
    ]

Top-start : (k v : ℕ) → pow2 k ≤ v → v < pow2 (suc k) → Top (suc k) 1 v
unfolding Top
Top-start k v lo hi = inr (k, v - pow2 k, omega arith, omega arith, omega arith)

Top-end : (b x : ℕ) → b ≤ 64 → Top b 64 x → x ≡ pow2 b - 1
unfolding Top
Top-end b x h (inl e) = e
Top-end b x h (inr (zero, r, eb, lt, ex)) = let e : b ≡ 64 = omega arith in rw e (omega arith)
Top-end b x h (inr (suc j, r, eb, lt, ex)) = absurd (omega arith)

smeared :
    (b v : ℕ)
    → b ≤ 64
    → Top b 1 v
    → smear (smear (smear (smear (smear (smear v 1) 2) 4) 8) 16) 32 ≡ pow2 b - 1
smeared b v h t = Top-end b _ h (
    Top-double b 32 _ (
      Top-double b 16 _
        (Top-double b 8 _ (Top-double b 4 _ (Top-double b 2 _ (Top-double b 1 v t))))))

pub pow2_anti : (k m : ℕ) → pow2 k < pow2 m → k < m
pow2_anti k m h = elim (Bool-cases (ltb k m)) [
  | inl lt ↦ ltb→lt _ _ lt
  | inr ge ↦ absurd (omega (arith, pow2_mono m k (ground arith)))
]

-- For every number of leaves from 1 to 2 ^ 63, power_two_ceil is the least power of two that is not
-- below it.
pub power_two_ceil_least :
    (v : ℕ)
    → 0 < v
    → v ≤ 2 ^ 63
    → (d : ℕ) × (power_two_ceil v ≡ pow2 d) × (v ≤ pow2 d) × (pow2 d < 2 * v)
unfolding power_two_ceil
power_two_ceil_least zero h max = elim h [ ]
power_two_ceil_least (suc zero) h max = (0, refl, omega arith, omega arith)
power_two_ceil_least (suc (suc v)) h max =
    let (k, lo, hi) = log_exists (suc v) (omega arith) in
    let small : k < 63 = pow2_anti k 63 (omega arith) in
    let start : (suc (suc v) + (size_mod - 1)) % size_mod ≡ suc v = omega arith in
    let below = pow2_mono (suc k) 63 (omega arith) in
    (
      suc k,
      rw (start, smeared (suc k) (suc v) (omega arith) (Top-start k (suc v) lo hi))
          (omega (arith, pow2_pos k)),
      omega arith,
      omega arith,
    )
