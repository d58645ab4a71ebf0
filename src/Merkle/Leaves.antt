-- ===== src/Merkle/Leaves.antt =====
-- merkle_tree.c: which leaves a stream of bytes leaves behind, and the root that signs it.
use newnode.Prelude.{
  ◌>>=◌, ℕ, ◌+◌, ◌*◌, ◌^◌, ◌<◌, ◌≤◌, ◌≡◌, ◌∙◌, ◌⊎◌, refl, sym, ap, true, some, List, [], ◌∷◌, ◌++◌,
  arith, ltb, ◌==◌, if◌then◌else◌, ◌&&◌, Bool-cases, inl, inr, length, take, drop, length-append,
  length-drop, drop-append, take-append, take_all, drop_all, append-nil, append_assoc,
}
use newnode.Crypto.{Generichash, hash_bytes}
use newnode.Merkle.{Hash, MerkleTree, leaf_chunk_size, new, absorb, leaf_finish, add_hashed_data}
use newnode.Merkle.Finish.{Fits, leaf_at, leaf_finish-some, finished, empty_leaf}
use newnode.Merkle.Stream.{took, absorb_within, feed_all, add_hashed_data-feed_all, chunk_pos}

le_of_mul : (i n c : ℕ) → i < n → i * c + c ≤ n * c
le_of_mul i n c h = grind arith

pub mul_mono : (n i c : ℕ) → n ≤ i → n * c ≤ i * c
mul_mono n i c h = grind arith

behind_end : (n p c l i : ℕ) → n * c + p ≡ l → p < c → n ≤ i → (p ≡ 0) ⊎ (n < i) → l ≤ i * c
behind_end n p c l i e lt le (inl none_in) = omega (arith, mul_mono n i c le)
behind_end n p c l i e lt le (inr past) = omega (arith, le_of_mul n i c past)

le_mul_chunk : (n : ℕ) → n ≤ n * leaf_chunk_size
unfolding leaf_chunk_size
le_mul_chunk n = omega arith

==→eq : (a b : ℕ) → (a == b) ≡ true → a ≡ b
==→eq a b e = ground arith

module _ (h : Generichash) where
  open h use {State, init, update, final, update-nil, update-update}

  -- The hash of the `i`-th chunk of a stream, empty behind its end.
  abbrev pub chunk_hash : List ℕ → ℕ → Hash
  chunk_hash xs i =
      final (update (init [] hash_bytes) (take leaf_chunk_size (drop (i * leaf_chunk_size) xs)))
        hash_bytes

  -- The tree `m` has taken in the stream `xs`.
  pub record Holds (m : MerkleTree State) (xs : List ℕ) : Type 0 where
    pub count : m.leaves_num * leaf_chunk_size + m.leaf_progress ≡ length xs
    pub unfilled : m.leaf_progress < leaf_chunk_size
    pub fits : Fits m
    pub leaves : (i : ℕ) → i < m.leaves_num → m.nodes i ≡ chunk_hash xs i
    pub pending :
        0 < m.leaf_progress
        → m.leaf_state ≡ update (init [] hash_bytes) (drop (m.leaves_num * leaf_chunk_size) xs)

  chunk_hash-append :
      (xs ys : List ℕ) (i n : ℕ)
      → i < n
      → n * leaf_chunk_size ≤ length xs
      → chunk_hash (xs ++ ys) i ≡ chunk_hash xs i
  chunk_hash-append xs ys i n lt le =
      let room = le_of_mul i n leaf_chunk_size lt in
      rw (
        chunk_hash,
        drop-append (i * leaf_chunk_size) xs ys (omega arith),
        take-append leaf_chunk_size (drop (i * leaf_chunk_size) xs) ys
            (omega (arith, length-drop (i * leaf_chunk_size) xs)),
      )

  new-Holds : (s : State) (mem : ℕ → Hash) → Holds (new h s mem) []
  unfolding new
  new-Holds s mem = record {
    count = omega arith;
    unfilled = chunk_pos;
    fits = omega arith;
    leaves = λ i lt. absurd (omega arith);
    pending = λ lt. absurd (omega arith);
  }

  took_state :
      (m : MerkleTree State) (xs : List ℕ) (b : ℕ)
      → Holds m xs
      → (took h m (b ∷ [])).leaf_state
        ≡ update (init [] hash_bytes) (drop (m.leaves_num * leaf_chunk_size) (xs ++ b ∷ []))
  took_state m xs b v =
      let n : ℕ = m.leaves_num * leaf_chunk_size in
      let split = drop-append n xs (b ∷ []) (omega (arith, v.count)) in
      elim (Bool-cases (m.leaf_progress == 0)) [
        | inl empty ↦ rw (empty, split, drop_all n xs (ground (arith, v.count)))
        | inr some_in ↦ rw (
          some_in,
          split,
          v.pending (ground arith),
          update-update (init [] hash_bytes) (drop n xs) (b ∷ []),
        )
      ]

  last_leaf :
      (m : MerkleTree State) (xs : List ℕ) (b : ℕ)
      → Holds m xs
      → final (took h m (b ∷ [])).leaf_state hash_bytes ≡ chunk_hash (xs ++ b ∷ []) m.leaves_num
  last_leaf m xs b v =
      ap (λ s. final s hash_bytes) (took_state m xs b v)
      ∙ rw (
        chunk_hash,
        take_all leaf_chunk_size (drop (m.leaves_num * leaf_chunk_size) (xs ++ b ∷ [])) (
            omega (
              arith,
              length-drop (m.leaves_num * leaf_chunk_size) (xs ++ b ∷ []),
              length-append xs (b ∷ []),
              v.count,
            )),
      )

  few_chunks : (n k : ℕ) → n * leaf_chunk_size + k < 2 ^ 62 → n < 2 ^ 58
  unfolding leaf_chunk_size
  few_chunks n k lt = omega (arith, lt)

  -- One more byte.
  feed-Holds :
      (m : MerkleTree State) (xs : List ℕ) (b : ℕ)
      → Holds m xs
      → length xs < 2 ^ 62
      → (m' : MerkleTree State) × (absorb h m (b ∷ []) ≡ some m') × Holds m' (xs ++ b ∷ [])
  feed-Holds m xs b v lt = elim (Bool-cases (m.leaf_progress + 1 == leaf_chunk_size)) [
    | inl full ↦ (
      finished h (took h m (b ∷ [])),
      within ∙ rw full (finish.0),
      record {
        count = omega (arith, v.count, length-append xs (b ∷ []), ==→eq _ _ full);
        unfilled = chunk_pos;
        fits = finish.1;
        leaves = λ i lt. elim (Bool-cases (m.leaves_num == i)) [
          | inl last ↦
              rw last (last_leaf m xs b v ∙ ap (chunk_hash (xs ++ b ∷ [])) (==→eq _ _ last))
          | inr old ↦ rw old (
              v.leaves i (ground arith)
              ∙ sym (
                  chunk_hash-append xs (b ∷ []) i m.leaves_num (ground arith)
                    (omega (arith, v.count))))
        ];
        pending = λ lt. absurd (omega arith);
      },
    )
    | inr partial ↦ (
      took h m (b ∷ []),
      within ∙ rw partial,
      record {
        count = omega (arith, v.count, length-append xs (b ∷ []));
        unfilled = ground arith;
        fits = record { within = v.fits.within; sized = v.fits.sized };
        leaves = λ i lt.
            v.leaves i lt
            ∙ sym (chunk_hash-append xs (b ∷ []) i m.leaves_num lt (omega (arith, v.count)));
        pending = λ lt. took_state m xs b v;
      },
    )
  ]
    where
      within : absorb h m (b ∷ []) ≡ (
          if m.leaf_progress + 1 == leaf_chunk_size
          then leaf_finish h (took h m (b ∷ []))
          else some (took h m (b ∷ [])))
      within = absorb_within h m (b ∷ []) v.unfilled (omega (arith, v.unfilled))

      few : m.leaves_num < 2 ^ 58
      few = few_chunks m.leaves_num m.leaf_progress (omega (arith, v.count, lt))

      finish :
          (leaf_finish h (took h m (b ∷ [])) ≡ some (finished h (took h m (b ∷ []))))
          × Fits (finished h (took h m (b ∷ [])))
      finish =
          leaf_finish-some h (took h m (b ∷ []))
            (record { within = v.fits.within; sized = v.fits.sized }) few

  feed_all-Holds :
      (ys : List ℕ) (m : MerkleTree State) (xs : List ℕ)
      → Holds m xs
      → length xs + length ys ≤ 2 ^ 62
      → (m' : MerkleTree State) × (feed_all h m ys ≡ some m') × Holds m' (xs ++ ys)
  unfolding feed_all
  feed_all-Holds [] m xs v le = (m, refl, rw append-nil v)
  feed_all-Holds (y ∷ ys) m xs v le =
      let (a, e, va) = feed-Holds m xs y v (omega arith) in
      let (m', e', v') =
        feed_all-Holds ys a (xs ++ y ∷ []) va (omega (arith, length-append xs (y ∷ []))) in
      (m', rw (e, ◌>>=◌) e', rw append_assoc at v')

  -- Adding up to 2 ^ 62 bytes to a new tree passes every assertion and every array bound, and leaves
  -- the tree with one leaf for each whole chunk, the hash of that chunk, and with the hash state of the
  -- bytes behind the last whole chunk.
  pub add_hashed_data-Holds :
      (s : State) (mem : ℕ → Hash) (xs : List ℕ)
      → length xs ≤ 2 ^ 62
      → (m : MerkleTree State) × (add_hashed_data h (new h s mem) xs ≡ some m) × Holds m xs
  add_hashed_data-Holds s mem xs le =
      let (m, e, v) = feed_all-Holds xs (new h s mem) [] (new-Holds s mem) (omega arith) in
      (m, add_hashed_data-feed_all h (new h s mem) xs (new-Holds s mem).unfilled ∙ e, v)

  chunk_hash_behind :
      (xs : List ℕ) (i : ℕ) → length xs ≤ i * leaf_chunk_size → chunk_hash xs i ≡ empty_leaf h
  chunk_hash_behind xs i le = rw (
    chunk_hash,
    drop_all (i * leaf_chunk_size) xs le,
    take_all {A = ℕ} leaf_chunk_size [] (omega arith),
    update-nil (init [] hash_bytes),
  )

  chunk_hash_partial :
      (xs : List ℕ) (i : ℕ)
      → length xs ≤ i * leaf_chunk_size + leaf_chunk_size
      → chunk_hash xs i
        ≡ final (update (init [] hash_bytes) (drop (i * leaf_chunk_size) xs)) hash_bytes
  chunk_hash_partial xs i le = rw (
    chunk_hash,
    take_all leaf_chunk_size (drop (i * leaf_chunk_size) xs)
        (omega (arith, length-drop (i * leaf_chunk_size) xs)),
  )

  -- The sequence of leaves is the sequence of the hashes of the chunks.
  pub leaf_at-chunk_hash :
      (m : MerkleTree State) (xs : List ℕ) → Holds m xs → (i : ℕ) → leaf_at h m i ≡ chunk_hash xs i
  leaf_at-chunk_hash m xs v i = elim (Bool-cases (ltb i m.leaves_num)) [
    | inl old ↦ rw old (v.leaves i (ground arith))
    | inr new ↦ elim (Bool-cases (ltb 0 m.leaf_progress && i == m.leaves_num)) [
      | inl open_leaf ↦
          let here : i ≡ m.leaves_num = ground arith in
          rw (new, open_leaf)
            (ap (λ s. final s hash_bytes) (v.pending (ground arith))
              ∙ rw here (sym (chunk_hash_partial xs m.leaves_num (omega (arith, v.count)))))
      | inr behind ↦
          let far : length xs ≤ i * leaf_chunk_size =
            behind_end m.leaves_num m.leaf_progress leaf_chunk_size (length xs) i v.count v.unfilled
              (ground arith) (ground arith) in
          rw (new, behind) (sym (chunk_hash_behind xs i far))
    ]
  ]
