-- ===== src/Transfer/Memory.antt =====
-- client.c: what a read of the cache file gives after a write.
use newnode.Prelude.{
  ℕ, zero, suc, ◌+◌, ◌<◌, ◌≤◌, ◌≡◌, ◌∙◌, refl, ◌⊎◌, inl, inr, true, false, List, [], ◌∷◌, ◌==◌,
  length, arith,
}
use newnode.Transfer.{write_at, read_at}

read_at_cong :
    (n offset : ℕ) (f g : ℕ → ℕ)
    → ((i : ℕ) → offset ≤ i → i < offset + n → f i ≡ g i)
    → read_at n offset f ≡ read_at n offset g
read_at_cong zero offset f g same = refl
read_at_cong (suc n) offset f g same =
    rw
      (
        same offset (omega arith) (omega arith),
        read_at_cong n (offset + 1) f g (λ i lo hi. same i (omega arith) (omega arith)),
      )
      refl

write_at_outside :
    (offset : ℕ) (bs : List ℕ) (file : ℕ → ℕ) (i : ℕ)
    → (i < offset) ⊎ (offset + length bs ≤ i)
    → write_at offset bs file i ≡ file i
write_at_outside offset [] file i out = refl
write_at_outside offset (b ∷ bs) file i out =
    let other : (i == offset) ≡ false = apart i offset (length bs) out in
    rw other (write_at_outside (offset + 1) bs file i (further i offset (length bs) out))
  where
    apart : (i offset n : ℕ) → (i < offset) ⊎ (offset + suc n ≤ i) → (i == offset) ≡ false
    apart i offset n (inl lo) = ground arith
    apart i offset n (inr hi) = ground arith

    further :
        (i offset n : ℕ)
        → (i < offset) ⊎ (offset + suc n ≤ i)
        → (i < offset + 1) ⊎ (offset + 1 + n ≤ i)
    further i offset n (inl lo) = inl (omega arith)
    further i offset n (inr hi) = inr (omega arith)

-- The bytes just written.
pub read_at-write_at :
    (offset : ℕ) (bs : List ℕ) (file : ℕ → ℕ)
    → read_at (length bs) offset (write_at offset bs file) ≡ bs
read_at-write_at offset [] file = refl
read_at-write_at offset (b ∷ bs) file =
    let here : (offset == offset) ≡ true = ground arith in
    let behind : read_at (length bs) (offset + 1) (write_at offset (b ∷ bs) file) ≡ bs =
      read_at_cong (length bs) (offset + 1) (write_at offset (b ∷ bs) file)
        (write_at (offset + 1) bs file)
        (λ i lo hi. let other : (i == offset) ≡ false = ground arith in rw other refl)
      ∙ read_at-write_at (offset + 1) bs file in
    rw (here, behind) refl

-- The bytes beside them.
pub read_at_beside :
    (n begin offset : ℕ) (bs : List ℕ) (file : ℕ → ℕ)
    → (begin + n ≤ offset) ⊎ (offset + length bs ≤ begin)
    → read_at n begin (write_at offset bs file) ≡ read_at n begin file
read_at_beside n begin offset bs file (inl before) =
    read_at_cong n begin (write_at offset bs file) file
      (λ i lo hi. write_at_outside offset bs file i (inl (omega arith)))
read_at_beside n begin offset bs file (inr behind) =
    read_at_cong n begin (write_at offset bs file) file
      (λ i lo hi. write_at_outside offset bs file i (inr (omega arith)))
