-- ===== src/Chunks/Range.antt =====
-- client.c: which chunk proxy_new_range_start asks for next.
use newnode.Prelude.{
  ℕ, zero, suc, ◌+◌, ◌-◌, ◌*◌, ◌/◌, ◌%◌, ◌^◌, ◌<◌, ◌≤◌, ◌≡◌, ◌∙◌, refl, sym, ap, Bool, true, false,
  some, arith, ltb, leb, ◌==◌, if◌then◌else◌, Bool-cases, ltb→lt, leb→le, inl, inr,
}
use newnode.Base64.{size_mod}
use newnode.Merkle.{leaf_chunk_size}
use newnode.Chunks.{
  Progress, Run, extended, count_chunk, longest_run, no_run, middle, num_chunks, any_missing,
  proxy_needs_any, proxy_new_range_start,
}

-- All chunks from `a` up to `b` are missing.
abbrev pub Missing : (ℕ → Bool) → ℕ → ℕ → Type 0
Missing have a b = (j : ℕ) → a ≤ j → j < b → have j ≡ false

-- What holds of the search when it has seen the chunks below `i`.
pub record Seen (have : ℕ → Bool) (i : ℕ) (r : Run) : Type 0 where
  pub ordered : r.longest_from ≤ r.longest_to
  pub within : r.longest_to ≤ i
  pub missing : Missing have r.longest_from r.longest_to
  pub current : Missing have (i - r.run_length) i
  pub current_start : 0 < r.run_length → r.start_run ≡ i - r.run_length
  pub current_within : r.run_length ≤ i
  pub current_most : r.run_length ≤ r.longest_to - r.longest_from
  pub current_whole : (a : ℕ) → a ≤ i → Missing have a i → i - a ≤ r.run_length
  pub most : (a b : ℕ) → a ≤ b → b ≤ i → Missing have a b → b - a ≤ r.longest_to - r.longest_from

Missing-stop : (have : ℕ → Bool) (a i : ℕ) → have i ≡ true → Missing have a (i + 1) → i < a
Missing-stop have a i here m = elim (Bool-cases (ltb i a)) [
  | inl before ↦ ground arith
  | inr after ↦ absurd (true_false (sym here ∙ m i (ground arith) (omega arith)))
]
  where
    true_false : true ≡ false → ⊥
    true_false e = cc

Missing-shorter : (have : ℕ → Bool) (a i : ℕ) → Missing have a (i + 1) → Missing have a i
Missing-shorter have a i m j lo hi = m j lo (omega arith)

Missing-longer :
    (have : ℕ → Bool) (a i : ℕ) → have i ≡ false → Missing have a i → Missing have a (i + 1)
Missing-longer have a i gone m j lo hi = elim (Bool-cases (ltb j i)) [
  | inl before ↦ m j lo (ground arith)
  | inr at ↦ let e : j ≡ i = ground arith in rw e gone
]

present-Seen :
    (have : ℕ → Bool) (i : ℕ) (r : Run)
    → have i ≡ true
    → Seen have i r
    → Seen have (i + 1) (record r { run_length = 0 })
present-Seen have i r here s = record {
  ordered = s.ordered;
  within = omega (arith, s.within);
  missing = s.missing;
  current = λ j lo hi. absurd (omega arith);
  current_start = λ lt. absurd (omega arith);
  current_within = omega arith;
  current_most = omega arith;
  current_whole = λ a le m. omega (arith, Missing-stop have a i here m);
  most = λ a b ab le m. elim (Bool-cases (leb b i)) [
    | inl before ↦ s.most a b ab (ground arith) m
    | inr last ↦
        let e : b ≡ i + 1 = ground arith in omega (arith, Missing-stop have a i here (rw e at m))
  ];
}

extended-Seen :
    (have : ℕ → Bool) (i start : ℕ) (r : Run)
    → have i ≡ false
    → start ≡ i - r.run_length
    → Seen have i r
    → Seen have (i + 1) (extended start r)
extended-Seen have i start r gone e s =
    elim (Bool-cases (ltb (r.longest_to - r.longest_from) (r.run_length + 1))) [
      | inl more ↦ rw more (record {
        ordered = omega arith;
        within = omega (arith, s.current_within);
        missing = λ j lo hi. gap j (omega arith) (omega (arith, s.current_within));
        current = λ j lo hi. gap j (omega arith) hi;
        current_start = λ lt. omega arith;
        current_within = omega (arith, s.current_within);
        current_most = omega arith;
        current_whole = whole;
        most = λ a b ab le m. elim (Bool-cases (leb b i)) [
          | inl before ↦
              let old = s.most a b ab (ground arith) m in
              let longer = ltb→lt _ _ more in omega (arith, old, longer)
          | inr last ↦
              let at_end : b ≡ i + 1 = ground arith in
              omega (arith, whole a (omega arith) (rw at_end at m))
        ];
      })
      | inr less ↦ rw less (record {
        ordered = s.ordered;
        within = omega (arith, s.within);
        missing = s.missing;
        current = λ j lo hi. gap j (omega arith) hi;
        current_start = λ lt. omega arith;
        current_within = omega (arith, s.current_within);
        current_most = ground arith;
        current_whole = whole;
        most = λ a b ab le m. elim (Bool-cases (leb b i)) [
          | inl before ↦ s.most a b ab (ground arith) m
          | inr last ↦
              let at_end : b ≡ i + 1 = ground arith in
              let fits : r.run_length + 1 ≤ r.longest_to - r.longest_from = ground arith in
              omega (arith, fits, whole a (omega arith) (rw at_end at m))
        ];
      })
    ]
  where
    gap : Missing have (i - r.run_length) (i + 1)
    gap = Missing-longer have (i - r.run_length) i gone s.current

    whole : (a : ℕ) → a ≤ i + 1 → Missing have a (i + 1) → i + 1 - a ≤ r.run_length + 1
    whole a le m = elim (Bool-cases (leb a i)) [
      | inl before ↦
          omega (arith, s.current_whole a (leb→le a i before) (Missing-shorter have a i m))
      | inr last ↦ ground arith
    ]

count_chunk-Seen :
    (have : ℕ → Bool) (i : ℕ) (r : Run) → Seen have i r → Seen have (i + 1) (count_chunk have i r)
unfolding count_chunk
count_chunk-Seen have i r s = elim (Bool-cases (have i)) [
  | inl here ↦ rw here (present-Seen have i r here s)
  | inr gone ↦ rw gone (extended-Seen have i _ r gone (ground (arith, s.current_start)) s)
]

longest_run-Seen :
    (rounds i n : ℕ) (have : ℕ → Bool) (r : Run)
    → n ≡ i + rounds
    → Seen have i r
    → Seen have n (longest_run rounds i have r)
unfolding longest_run
longest_run-Seen zero i n have r e s = let same : n ≡ i = omega arith in rw same s
longest_run-Seen (suc rounds) i n have r e s =
    longest_run-Seen rounds (i + 1) n have (count_chunk have i r) (omega arith)
      (count_chunk-Seen have i r s)

no_run-Seen : (have : ℕ → Bool) → Seen have 0 no_run
no_run-Seen have = record {
  ordered = omega arith;
  within = omega arith;
  missing = λ j lo hi. absurd (omega arith);
  current = λ j lo hi. absurd (omega arith);
  current_start = λ lt. absurd (omega arith);
  current_within = omega arith;
  current_most = omega arith;
  current_whole = λ a le m. omega arith;
  most = λ a b ab le m. omega arith;
}

pub any_missing-false :
    (rounds i : ℕ) (have : ℕ → Bool)
    → any_missing rounds i have ≡ true
    → (j : ℕ) × (i ≤ j) × (j < i + rounds) × (have j ≡ false)
unfolding any_missing
any_missing-false zero i have e = absurd (cc e)
any_missing-false (suc rounds) i have e = elim (Bool-cases (have i)) [
  | inl here ↦
      let (j, lo, hi, gone) = any_missing-false rounds (i + 1) have (rw here at e) in
      (j, omega arith, omega arith, gone)
  | inr gone ↦ (i, omega arith, omega arith, gone)
]

-- A longest run of missing chunks among the first `n`.
pub record LongestRun (have : ℕ → Bool) (n from to : ℕ) : Type 0 where
  pub within : to ≤ n
  pub missing : Missing have from to
  pub most : (a b : ℕ) → a ≤ b → b ≤ n → Missing have a b → b - a ≤ to - from

middle-LongestRun :
    (n : ℕ) (have : ℕ → Bool)
    → any_missing n 0 have ≡ true
    → (from : ℕ) × (to : ℕ) × LongestRun have n from to
      × (from < to)
      × (middle n have ≡ from + (to - from) / 2)
unfolding middle
middle-LongestRun n have e =
    let r = longest_run n 0 have no_run in
    let s : Seen have n r = longest_run-Seen n 0 n have no_run (omega arith) (no_run-Seen have) in
    let (j, lo, hi, gone) = any_missing-false n 0 have e in
    let one =
      s.most j (j + 1) (omega arith) (omega arith)
        (λ k l u. let same : k ≡ j = omega arith in rw same gone) in
    (
      r.longest_from,
      r.longest_to,
      record { within = s.within; missing = s.missing; most = s.most },
      omega arith,
      refl,
    )

-- The chunk in which the range from the begin of the chunk `mid` begins.
chunk_of_start :
    (mid header : ℕ)
    → mid * leaf_chunk_size < 2 ^ 63 + leaf_chunk_size
    → header < leaf_chunk_size
    → ((if mid == 0 then mid else (mid * leaf_chunk_size + size_mod - header) % size_mod) + header)
        / leaf_chunk_size
      ≡ mid
unfolding leaf_chunk_size
chunk_of_start zero header max short = omega arith
chunk_of_start (suc mid) header max short = ground arith

-- Every chunk begins within the stream.
chunk_begin : (total i : ℕ) → total < 2 ^ 63 → i < num_chunks total → i * leaf_chunk_size ≤ total
unfolding num_chunks leaf_chunk_size
chunk_begin total i max lt = omega arith

-- While a chunk is missing and the header is shorter than a chunk, the range that is asked for next
-- begins in a chunk that is missing: reckoned from the range as proxy_setup_range does, it is the one
-- in the middle of a run of missing chunks, and no run of missing chunks is longer.
pub proxy_new_range_start-LongestRun :
    (p : Progress) (have : ℕ → Bool)
    → p.have_bitfield ≡ some have
    → p.total_length < 2 ^ 63
    → p.header_len < leaf_chunk_size
    → proxy_needs_any p ≡ true
    → (from : ℕ) × (to : ℕ) × LongestRun have (num_chunks p.total_length) from to
      × (((proxy_new_range_start p + p.header_len) / leaf_chunk_size) ≡ from + (to - from) / 2)
      × (have ((proxy_new_range_start p + p.header_len) / leaf_chunk_size) ≡ false)
unfolding proxy_new_range_start proxy_needs_any
proxy_new_range_start-LongestRun p have known max short needs =
    let (from, to, run, some_missing, at) =
      middle-LongestRun (num_chunks p.total_length) have (rw known at needs) in
    let mid = middle (num_chunks p.total_length) have in
    let inside : from + (to - from) / 2 < to = omega arith in
    let begin : mid * leaf_chunk_size ≤ p.total_length =
      chunk_begin p.total_length mid max (omega (arith, run.within)) in
    let chunk : (proxy_new_range_start p + p.header_len) / leaf_chunk_size
        ≡ from + (to - from) / 2 =
      rw known (chunk_of_start mid p.header_len (omega arith) short) ∙ at in
    (from, to, run, chunk, ap have chunk ∙ run.missing _ (omega arith) inside)
