-- ===== src/Chunks/Tests.antt =====
-- client.c: the search for the next range, on a page of four chunks.
use newnode.Prelude.{ℕ, ◌+◌, ◌-◌, ◌/◌, ◌*◌, ◌≡◌, refl, Bool, true, false, some, arith, ◌==◌}
use newnode.Merkle.{leaf_chunk_size}
use newnode.Chunks.{
  Progress, num_chunks, proxy_needs_any, proxy_is_complete, proxy_new_range_start, middle,
  longest_run, count_chunk, any_missing,
}
use newnode.Chunks.Range.{LongestRun, proxy_new_range_start-LongestRun}
use newnode.Chunks.Lengths.{sum_lengths, sum_chunk_length, proxy_is_complete-chunks}

abbrev second_held : ℕ → Bool
second_held i = i == 1

abbrev four_chunks : Progress
four_chunks = record {
  range_start = 0;
  total_length = 50000;
  header_len = 100;
  chunked = false;
  merkle_tree_finished = false;
  have_bitfield = some second_held;
}

range_run : proxy_new_range_start four_chunks ≡ 3 * 16384 - 100
unfolding proxy_new_range_start num_chunks middle longest_run count_chunk leaf_chunk_size
range_run = refl

needs_run : proxy_needs_any four_chunks ≡ true
unfolding proxy_needs_any num_chunks any_missing leaf_chunk_size
needs_run = refl

proxy_new_range_start-LongestRun_example :
    (from : ℕ) × (to : ℕ) × LongestRun second_held (num_chunks 50000) from to
    × (((proxy_new_range_start four_chunks + 100) / leaf_chunk_size) ≡ from + (to - from) / 2)
    × (second_held ((proxy_new_range_start four_chunks + 100) / leaf_chunk_size) ≡ false)
proxy_new_range_start-LongestRun_example =
    proxy_new_range_start-LongestRun four_chunks second_held refl (omega arith)
      (unfold leaf_chunk_size in omega arith) needs_run

sum_chunk_length_example : sum_lengths 50000 (num_chunks 50000) ≡ 50000
sum_chunk_length_example = sum_chunk_length 50000 (omega arith)

abbrev all_held : Progress
all_held = record four_chunks { merkle_tree_finished = true; have_bitfield = some (λ i. true) }

complete_run : proxy_is_complete all_held ≡ true
unfolding proxy_is_complete proxy_needs_any num_chunks any_missing leaf_chunk_size
complete_run = refl

proxy_is_complete-chunks_example : (λ (i : ℕ). true) 2 ≡ true
proxy_is_complete-chunks_example =
    proxy_is_complete-chunks all_held (λ i. true) 2 refl complete_run
      (unfold num_chunks leaf_chunk_size in omega arith)
