-- ===== src/Chunks.antt =====
-- client.c: the chunks of a page that is fetched in ranges, and where the next range begins.
pub mod Range
pub mod Lengths
mod Tests
use newnode.Prelude.{
  ℕ, zero, suc, ◌+◌, ◌-◌, ◌*◌, ◌/◌, ◌%◌, ◌^◌, Bool, true, false, not, Option, none, some, List, [],
  ◌∷◌, ltb, leb, ◌==◌, if◌then◌else◌, get_or,
}
use newnode.Base64.{size_mod, div_round_up}
use newnode.Merkle.{leaf_chunk_size}

-- The fields of a proxy_request that the scheduling of ranges reads. `have_bitfield` is `none` before
-- it is allocated, `header_len` is the length of `header_buf`.
pub record Progress : Type 0 where
  pub range_start : ℕ
  pub total_length : ℕ
  pub header_len : ℕ
  pub chunked : Bool
  pub merkle_tree_finished : Bool
  pub have_bitfield : Option (ℕ → Bool)

unfoldable pub num_chunks : ℕ → ℕ
unfolding leaf_chunk_size
num_chunks total_length = div_round_up total_length leaf_chunk_size

unfoldable pub chunk_length : Bool → ℕ → ℕ → ℕ
unfolding leaf_chunk_size
chunk_length chunked total_length chunk_index =
    if chunked
    then leaf_chunk_size
    else if leb ((((chunk_index + 1) % size_mod) * leaf_chunk_size) % size_mod) total_length
    then leaf_chunk_size
    else total_length % leaf_chunk_size

-- The loop over the chunks from `i` on, with `rounds` left.
unfoldable pub any_missing : ℕ → ℕ → (ℕ → Bool) → Bool
any_missing zero i have = false
any_missing (suc rounds) i have =
    let rest = any_missing rounds (i + 1) have in if have i then rest else true

unfoldable pub proxy_needs_any : Progress → Bool
proxy_needs_any p = elim p.have_bitfield [
  | none ↦ true
  | some have ↦ any_missing (num_chunks p.total_length) 0 have
]

unfoldable pub proxy_is_complete : Progress → Bool
proxy_is_complete p = elim p.have_bitfield [
  | none ↦ false
  | some have ↦ if p.merkle_tree_finished then not (proxy_needs_any p) else false
]

-- The variables of the search for the longest run of missing chunks.
pub record Run : Type 0 where
  pub start_run : ℕ
  pub run_length : ℕ
  pub longest_from : ℕ
  pub longest_to : ℕ

abbrev pub extended : ℕ → Run → Run
extended start r =
    let run = r.run_length + 1 in
    if ltb (r.longest_to - r.longest_from) run
    then record {
      start_run = start;
      run_length = run;
      longest_from = start;
      longest_to = start + run;
    }
    else record r { start_run = start; run_length = run }

unfoldable pub count_chunk : (ℕ → Bool) → ℕ → Run → Run
count_chunk have i r =
    if have i
    then record r { run_length = 0 }
    else extended (if r.run_length == 0 then i else r.start_run) r

unfoldable pub longest_run : ℕ → ℕ → (ℕ → Bool) → Run → Run
longest_run zero i have r = r
longest_run (suc rounds) i have r = longest_run rounds (i + 1) have (count_chunk have i r)

abbrev pub no_run : Run
no_run = record { start_run = 0; run_length = 0; longest_from = 0; longest_to = 0 }

-- The chunk in the middle of the longest run.
unfoldable pub middle : ℕ → (ℕ → Bool) → ℕ
middle n have =
    let r = longest_run n 0 have no_run in r.longest_from + (r.longest_to - r.longest_from) / 2

unfoldable pub proxy_new_range_start : Progress → ℕ
unfolding leaf_chunk_size
proxy_new_range_start p = elim p.have_bitfield [
  | none ↦ p.range_start
  | some have ↦
      let mid = middle (num_chunks p.total_length) have in
      if mid == 0 then mid else (mid * leaf_chunk_size + size_mod - p.header_len) % size_mod
]
