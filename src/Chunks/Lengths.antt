-- ===== src/Chunks/Lengths.antt =====
-- client.c: the lengths of the chunks against the length of the page, and when a page is complete.
use newnode.Prelude.{
  ℕ, zero, suc, ◌+◌, ◌*◌, ◌^◌, ◌<◌, ◌≤◌, ◌≡◌, ◌∙◌, sym, ap, Bool, true, false, not, some, arith,
  ◌==◌, if◌then◌else◌, Bool-cases, inl, inr, min,
}
use newnode.Merkle.{leaf_chunk_size}
use newnode.Chunks.{
  Progress, num_chunks, chunk_length, any_missing, proxy_needs_any, proxy_is_complete,
}

-- The lengths of the first `n` chunks of a page of known length, together.
abbrev pub sum_lengths : ℕ → ℕ → ℕ
sum_lengths total zero = 0
sum_lengths total (suc n) = sum_lengths total n + chunk_length false total n

sum_lengths-prefix :
    (total n : ℕ)
    → total < 2 ^ 63
    → n ≤ num_chunks total
    → sum_lengths total n ≡ min (n * leaf_chunk_size) total
unfolding num_chunks chunk_length leaf_chunk_size
sum_lengths-prefix total zero max le = omega arith
sum_lengths-prefix total (suc n) max le =
    let before = sum_lengths-prefix total n max (omega arith) in ground (arith, before)

-- The chunks of a page below 2 ^ 63 bytes make up the page.
pub sum_chunk_length : (total : ℕ) → total < 2 ^ 63 → sum_lengths total (num_chunks total) ≡ total
unfolding num_chunks leaf_chunk_size
sum_chunk_length total max =
    sum_lengths-prefix total (num_chunks total) max (omega arith) ∙ omega arith

none_missing :
    (rounds i j : ℕ) (have : ℕ → Bool)
    → any_missing rounds i have ≡ false
    → i ≤ j
    → j < i + rounds
    → have j ≡ true
unfolding any_missing
none_missing zero i j have e lo hi = absurd (omega arith)
none_missing (suc rounds) i j have e lo hi = elim (Bool-cases (have i)) [
  | inl here ↦ elim (Bool-cases (i == j)) [
    | inl same ↦ let eq_j : i ≡ j = ground arith in ap have (sym eq_j) ∙ here
    | inr later ↦ none_missing rounds (i + 1) j have (rw here at e) (ground arith) (omega arith)
  ]
  | inr gone ↦ absurd (true_false (rw gone at e))
]
  where
    true_false : true ≡ false → ⊥
    true_false q = cc

-- When a request counts as complete, each chunk of its page is held.
pub proxy_is_complete-chunks :
    (p : Progress) (have : ℕ → Bool) (i : ℕ)
    → p.have_bitfield ≡ some have
    → proxy_is_complete p ≡ true
    → i < num_chunks p.total_length
    → have i ≡ true
unfolding proxy_is_complete proxy_needs_any
proxy_is_complete-chunks p have i known done lt =
    none_missing (num_chunks p.total_length) 0 i have
      (finish p.merkle_tree_finished _ (rw known at done)) (omega arith) (omega arith)
  where
    finish : (b c : Bool) → (if b then not c else false) ≡ true → c ≡ false
    finish b c e = ground arith
