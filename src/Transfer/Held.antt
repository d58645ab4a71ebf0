-- ===== src/Transfer/Held.antt =====
-- client.c: each chunk that counts as held is in the cache file, and its hash is its leaf of the tree.
use mathlib.Core.Path.{subst}
use newnode.Prelude.{
  ℕ, zero, suc, ◌+◌, ◌-◌, ◌*◌, ◌^◌, ◌<◌, ◌≤◌, ◌≡◌, ◌∙◌, ap, sym, ◌⊎◌, inl, inr, Bool, true, false,
  List, if◌then◌else◌, ◌==◌, leb, length, arith, Bool-cases,
}
use newnode.Crypto.{Generichash}
use newnode.Merkle.{Hash, leaf_set, leaf_chunk_size}
use newnode.Chunks.{chunk_length}
use newnode.Transfer.{set_bit, write_at, read_at, content_hash}
use newnode.Transfer.Kept.{Core}
use newnode.Transfer.Memory.{read_at-write_at, read_at_beside}

-- Where a chunk begins in the cache file, which holds the page without its header, and how much of it
-- stands there.
abbrev pub place : {S : Type 0} → Core S → ℕ → ℕ
place k j = if j == 0 then 0 else j * leaf_chunk_size - length k.header_buf

abbrev pub size : {S : Type 0} → Core S → ℕ → ℕ
size k j = chunk_length k.chunked k.total_length j - (if j == 0 then length k.header_buf else 0)

pub chunk_length_le : (c : Bool) (total i : ℕ) → chunk_length c total i ≤ leaf_chunk_size
unfolding chunk_length leaf_chunk_size
chunk_length_le c total i = ground arith

-- Two chunks stand beside each other.
beside :
    (li lj hl i j : ℕ)
    → li ≤ leaf_chunk_size
    → lj ≤ leaf_chunk_size
    → hl ≤ leaf_chunk_size
    → (i == j) ≡ false
    → let pi = if i == 0 then 0 else i * leaf_chunk_size - hl in
      let pj = if j == 0 then 0 else j * leaf_chunk_size - hl in
      (pj + (lj - (if j == 0 then hl else 0)) ≤ pi) ⊎ (pi + (li - (if i == 0 then hl else 0)) ≤ pj)
unfolding leaf_chunk_size
beside li lj hl zero zero bi bj bh differ = cc
beside li lj hl zero (suc j) bi bj bh differ = inr (ground arith)
beside li lj hl (suc i) zero bi bj bh differ = inl (ground arith)
beside li lj hl (suc i) (suc j) bi bj bh differ = elim (Bool-cases (leb i j)) [
  | inl below ↦ let lt : i < j = ground arith in inr (ground arith)
  | inr above ↦ let gt : j < i = ground arith in inl (ground arith)
]

module _ (hash : Generichash) where
  open hash use {State}

  unfoldable pub Held : Core State → Type 0
  Held k =
      (j : ℕ)
      → j * leaf_chunk_size + leaf_chunk_size < 2 ^ 64
      → k.have_bitfield j ≡ true
      → content_hash hash k.header_buf j (read_at (size k j) (place k j) k.file) ≡ k.m.nodes j

  -- Storing a chunk whose hash is its leaf.
  pub store-Held :
      (k : Core State) (i : ℕ) (bytes : List ℕ)
      → Held k
      → length k.header_buf ≤ leaf_chunk_size
      → length bytes ≡ size k i
      → content_hash hash k.header_buf i bytes ≡ k.m.nodes i
      → Held (record k {
        have_bitfield = set_bit k.have_bitfield i;
        file = write_at (place k i) bytes k.file;
      })
  unfolding Held
  store-Held k i bytes held fits full good j max here = elim (Bool-cases (i == j)) [
    | inl same ↦
        let eq_j : i ≡ j = ground arith in
        let stored : content_hash hash k.header_buf i
              (read_at (size k i) (place k i) (write_at (place k i) bytes k.file))
            ≡ k.m.nodes i =
          rw (sym full, read_at-write_at (place k i) bytes k.file) good in
        subst
          (λ j.
            content_hash hash k.header_buf j
              (read_at (size k j) (place k j) (write_at (place k i) bytes k.file))
            ≡ k.m.nodes j)
          eq_j stored
    | inr other ↦
        let before : k.have_bitfield j ≡ true = rw other at here in
        rw
          (read_at_beside (size k j) (place k j) (place k i) bytes k.file (
            rw full (
              beside (chunk_length k.chunked k.total_length i)
                (chunk_length k.chunked k.total_length j) (length k.header_buf) i j
                (chunk_length_le k.chunked k.total_length i)
                (chunk_length_le k.chunked k.total_length j) fits other)))
          (held j max before)
  ]

  -- Setting the leaf of a chunk that is not held.
  pub leaf_set-Held :
      (k : Core State) (i : ℕ) (leaf : Hash)
      → Held k
      → k.have_bitfield i ≡ false
      → Held (record k { m = leaf_set hash k.m i leaf })
  unfolding Held
  leaf_set-Held k i leaf held missing j max here = elim (Bool-cases (i == j)) [
    | inl same ↦
        let eq_j : i ≡ j = ground arith in
        absurd (true_false (sym here ∙ ap k.have_bitfield (sym eq_j) ∙ missing))
    | inr other ↦ rw other (held j max here)
  ]
    where
      true_false : true ≡ false → ⊥
      true_false q = cc
