-- ===== src/Transfer/Setup/Agreed.antt =====
-- client.c: the answers of the origin that are taken agree on the page.
use newnode.Prelude.{
  ℕ, ◌+◌, ◌%◌, ◌^◌, ◌<◌, ◌≤◌, ◌≡◌, ◌≢◌, Bool, false, none, some, List, if◌then◌else◌, length,
}
use newnode.Base64.{size_mod}
use newnode.Merkle.{leaf_chunk_size}
use newnode.Chunks.{chunk_length}
use newnode.Transfer.Setup.{Page, Setup, refuses, sets, aborts}

-- What a page is after an answer that is taken, and what of it was there before.
pub record Agreed (head : Bool) (p p' : Page) : Type 0 where
  pub header : List ℕ
  pub is_set : p'.header_buf ≡ some header
  pub header_kept : (h : List ℕ) → p.header_buf ≡ some h → header ≡ h
  pub length_kept : p.content_length ≢ 0 → p'.content_length ≡ p.content_length
  pub total_kept : p.total_length ≢ 0 → p'.total_length ≡ p.total_length
  pub total_is :
      p'.total_length ≡ ((if head then 0 else p'.content_length) + length header) % size_mod
  pub bits_kept : (have : ℕ → Bool) → p.have_bitfield ≡ some have → p'.have_bitfield ≡ some have
  pub bits_new : p.have_bitfield ≡ none → p'.have_bitfield ≡ some (λ i. false)
  pub fits :
      length header ≤ leaf_chunk_size
      → p'.content_length + length header < 2 ^ 63
      → (length header ≤ chunk_length p'.chunked p'.total_length 0) × (p'.total_length < 2 ^ 63)

unfoldable pub AgreedSetup : Bool → Page → Setup → Type 0
AgreedSetup head p (refuses p') = Unit
AgreedSetup head p (sets p' range) = Agreed head p p'
AgreedSetup head p aborts = Unit
