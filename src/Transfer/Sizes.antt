-- ===== src/Transfer/Sizes.antt =====
-- client.c: the lengths and places of the two loops, without the wrap-around that they could have.
use newnode.Prelude.{
  ℕ, zero, suc, ◌+◌, ◌-◌, ◌*◌, ◌^◌, ◌<◌, ◌≤◌, ◌≡◌, refl, Bool, true, false, List, [], ◌∷◌,
  if◌then◌else◌, ltb, ◌==◌, arith, length, take, length-append, length-take,
}
use newnode.Merkle.{leaf_chunk_size}
use newnode.Chunks.{num_chunks, chunk_length}
use newnode.Transfer.{
  ChunkedRange, ProxyRequest, fill, wanted, header_prefix, this_chunk_len, this_chunk_offset,
  chunk_begin, minus,
}
use newnode.Transfer.Kept.{Core, kept}
use newnode.Transfer.Held.{place, size, chunk_length_le}

-- The header fits in the first chunk, and the page is far from the end of a uint64_t.
pub record Sized {S : Type 0} (k : Core S) : Type 0 where
  pub header_fits : length k.header_buf ≤ chunk_length k.chunked k.total_length 0
  pub below : k.total_length < 2 ^ 63

-- A range at a chunk whose place is no overflow, with no more in its buffer than the chunk has.
pub record InChunk {S : Type 0} (k : Core S) (r : ChunkedRange) : Type 0 where
  pub index : r.chunk_index * leaf_chunk_size + leaf_chunk_size < 2 ^ 64
  pub buffered : length r.chunk_buffer ≤ size k r.chunk_index

prefix_fits :
    (c : Bool) (total hl i : ℕ)
    → hl ≤ chunk_length c total 0
    → (if i == 0 then hl else 0) ≤ chunk_length c total i
prefix_fits c total hl zero fits = fits
prefix_fits c total hl (suc i) fits = ground arith

-- The differences of the source do not wrap.
missing_bytes :
    (l h n : ℕ) → l ≤ leaf_chunk_size → h ≤ l → n ≤ l - h → minus (minus l h) n ≡ l - h - n
unfolding leaf_chunk_size
missing_bytes l h n small fits some_bytes = ground arith

place_lem :
    (hl i : ℕ)
    → hl ≤ leaf_chunk_size
    → i * leaf_chunk_size + leaf_chunk_size < 2 ^ 64
    → (if i == 0 then chunk_begin i else minus (chunk_begin i) hl)
      ≡ (if i == 0 then 0 else i * leaf_chunk_size - hl)
unfolding leaf_chunk_size
place_lem hl zero fits max = refl
place_lem hl (suc i) fits max = ground arith

module _ {S : Type 0} where
  prefix-Sized :
      (p : ProxyRequest S) (r : ChunkedRange)
      → Sized (kept p)
      → header_prefix p r ≤ this_chunk_len p r
  prefix-Sized p r sized =
      prefix_fits p.chunked p.total_length (length p.header_buf) r.chunk_index sized.header_fits

  -- The bytes that complete a chunk.
  pub fill-size :
      (p : ProxyRequest S) (r : ChunkedRange) (input : List ℕ)
      → Sized (kept p)
      → InChunk (kept p) r
      → length (fill p r input).chunk_buffer ≤ size (kept p) r.chunk_index
  fill-size p r input sized inside =
      let h = header_prefix p r in
      let l = this_chunk_len p r in
      let b = r.chunk_buffer in
      let w : wanted p r ≡ l - h - length b =
        missing_bytes l h (length b) (chunk_length_le p.chunked p.total_length r.chunk_index)
          (prefix-Sized p r sized) inside.buffered in
      let both = length-append b (take (wanted p r) input) in
      let moved = length-take (wanted p r) input in omega (arith, both, moved, w, inside.buffered)

  pub full-size :
      (p : ProxyRequest S) (r : ChunkedRange) (bytes : List ℕ)
      → Sized (kept p)
      → length bytes ≤ size (kept p) r.chunk_index
      → ltb (header_prefix p r + length bytes) (this_chunk_len p r) ≡ false
      → length bytes ≡ size (kept p) r.chunk_index
  full-size p r bytes sized small full =
      let fits = prefix-Sized p r sized in ground (arith, small, full, fits)

  pub this_chunk_offset-place :
      (p : ProxyRequest S) (r : ChunkedRange)
      → Sized (kept p)
      → r.chunk_index * leaf_chunk_size + leaf_chunk_size < 2 ^ 64
      → this_chunk_offset p r ≡ place (kept p) r.chunk_index
  this_chunk_offset-place p r sized index =
      let l = chunk_length_le p.chunked p.total_length 0 in
      place_lem (length p.header_buf) r.chunk_index (omega (arith, l, sized.header_fits)) index

pub no_bytes : (bytes : List ℕ) → (length bytes == 0) ≡ true → bytes ≡ []
no_bytes [] e = refl
no_bytes (b ∷ bs) e = ground arith

pub chunk_place :
    (total i : ℕ)
    → total < 2 ^ 63
    → i < num_chunks total
    → i * leaf_chunk_size + leaf_chunk_size < 2 ^ 64
unfolding num_chunks leaf_chunk_size
chunk_place total i below within = omega (arith, below, within)
