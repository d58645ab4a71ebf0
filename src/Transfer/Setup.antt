-- ===== src/Transfer/Setup.antt =====
-- client.c: what an answer of the origin says of a page, and the range that it is.
pub mod Agreed
mod Tests
use newnode.Prelude.{
  ◌>>=◌, ℕ, zero, suc, ◌+◌, ◌-◌, ◌*◌, ◌/◌, ◌%◌, Bool, true, false, not, ◌&&◌, ◌||◌, Option, none,
  some, List, [], ◌∷◌, ◌++◌, ltb, ◌==◌, if◌then◌else◌, length,
}
use mathlib.Core.List.{map}
use newnode.Base64.{codes, size_mod}
use newnode.Merkle.{leaf_chunk_size}
use newnode.Http.{KeyValue, Evhttp, Request, build_request_buffer, copy_all_headers}
use newnode.Transfer.{ChunkedRange, PeerRequest, peer_request_cancel}

-- The fields of a proxy_request that the setup of a range reads and writes. An Option is a pointer, the
-- reply's code is `responded` when it is not 0, `submitted` counts the calls of direct_submit_request, and
-- `refused` are the codes that proxy_send_error was called with.
pub record Page : Type 0 where
  pub uri : List ℕ
  pub server_req : Request
  pub responded : Bool
  pub requests : List PeerRequest
  pub direct_headers : List KeyValue
  pub cache_file : Bool
  pub etag : Option (List ℕ)
  pub header_buf : Option (List ℕ)
  pub direct_code : ℕ
  pub chunked : Bool
  pub content_length : ℕ
  pub range_end : ℕ
  pub total_length : ℕ
  pub have_bitfield : Option (ℕ → Bool)
  pub submitted : ℕ
  pub refused : List ℕ

-- The three numbers of a Content-Range.
pub record Numbers : Type 0 where
  pub start : ℕ
  pub end : ℕ
  pub total : ℕ

-- sscanf with "bytes %u-%u/%u", which leaves the numbers that it does not read, evutil_strtoll, with `none`
-- where the text is empty, has other characters or is negative, and strstr.
pub record Scanning : Type 0 where
  pub sscanf_range : List ℕ → Numbers → Numbers
  pub strtoll : List ℕ → Option ℕ
  pub strstr : List ℕ → List ℕ → Bool

-- The function returns -1, returns 1, or an assertion fails.
pub data Setup : Type 0 where
  refuses : Page → Setup
  sets : Page → ChunkedRange → Setup
  aborts : Setup

-- What the answer says of the length: the total length, the range and whether it is sent in chunks.
pub record Measured : Type 0 where
  pub total : ℕ
  pub range : ChunkedRange
  pub chunked : Bool

abbrev pub refuse : Page → Setup
refuse p = refuses (record p { refused = p.refused ++ 502 ∷ [] })

abbrev pub index_of : ℕ → ℕ → ℕ
index_of start prefix = ((start + prefix) % size_mod) / leaf_chunk_size

abbrev pub prefix_of : Option (List ℕ) → ℕ
prefix_of none = 0
prefix_of (some header) = length header

abbrev pub kept_or : Option (List ℕ) → Option (List ℕ) → Option (List ℕ)
kept_or none new = new
kept_or (some old) new = some old

-- calloc, if the array is not there.
abbrev pub allocated : Option (ℕ → Bool) → Option (ℕ → Bool)
allocated none = some (λ i. false)
allocated (some have) = some have

-- From the test of `content_length` on, with the header and the length that the answer gives.
unfoldable pub lengths : Bool → Page → ChunkedRange → List ℕ → ℕ → Setup
lengths head p range header given =
    let total = ((if head then 0 else given) + length header) % size_mod in
    if not (p.content_length == 0) && not (p.content_length == given)
    then refuse p
    else if not (p.total_length == 0) && not (p.total_length == total)
    then refuse (record p {
      content_length = given;
      range_end = if p.range_end == 0 && not (given == 0) then given - 1 else p.range_end;
    })
    else sets
        (record p {
          content_length = given;
          range_end = if p.range_end == 0 && not (given == 0) then given - 1 else p.range_end;
          total_length = total;
          have_bitfield = allocated p.have_bitfield;
        })
        range

abbrev pub answer_code : ℕ → Option (List ℕ) → ℕ
answer_code code none = if code == 206 then 200 else code
answer_code code (some range) = code

abbrev pub any_request : List PeerRequest → Bool
any_request [] = false
any_request (r ∷ rs) = r.req || any_request rs

module _ (lib : Evhttp) (scan : Scanning) where
  open lib use {find_header}
  open scan use {sscanf_range, strtoll, strstr}

  abbrev pub by_length : ChunkedRange → Bool → Option ℕ → Option Measured
  by_length range chunked none = none
  by_length range chunked (some clen) = some (record {
    total = clen;
    range = record range { end = (clen + size_mod - 1) % size_mod };
    chunked = chunked;
  })

  abbrev pub by_encoding : ChunkedRange → Bool → Option (List ℕ) → Measured
  by_encoding range chunked none = record { total = 0; range = range; chunked = chunked }
  by_encoding range chunked (some encoding) = record {
    total = 0;
    range = range;
    chunked = chunked || strstr encoding (codes "chunked");
  }

  -- The three tests of the headers; `none` is an illegal length.
  unfoldable pub measured :
      Page → ChunkedRange → Option (List ℕ) → Option (List ℕ) → Option (List ℕ) → Option Measured
  measured p range (some content_range) content_length encoding =
      let n =
        sscanf_range content_range (record { start = range.start; end = range.end; total = 0 }) in
      some (record {
        total = n.total;
        range = record range {
          start = n.start;
          end = n.end;
          chunk_index = index_of n.start (prefix_of p.header_buf);
        };
        chunked = p.chunked;
      })
  measured p range none (some content_length) encoding =
      by_length range p.chunked (strtoll content_length)
  measured p range none none encoding = some (by_encoding range p.chunked encoding)

  abbrev pub with_header : Bool → ℕ → Page → Measured → Option (List ℕ) → Setup
  with_header head code p m none = aborts
  with_header head code p m (some built) =
      let range = record (m.range) { chunk_index = index_of m.range.start (length built) } in
      lengths head (record p { chunked = m.chunked; direct_code = code; header_buf = some built })
        range built m.total

  abbrev pub with_lengths :
      Bool → ℕ → List KeyValue → Page → Option Measured → Option (List ℕ) → Setup
  with_lengths head code hdrs p none header = refuse p
  with_lengths head code hdrs p (some m) (some header) =
      lengths head (record p { chunked = m.chunked }) m.range header m.total
  with_lengths head code hdrs p (some m) none =
      let code1 = answer_code code (find_header p.server_req.input_headers (codes "Range")) in
      with_header head code1 p m (build_request_buffer lib code1 hdrs)

  -- `head` says whether the request is a HEAD.
  unfoldable pub proxy_setup_range : Page → Bool → ℕ → List KeyValue → ChunkedRange → Setup
  proxy_setup_range p head code hdrs range =
      let p1 = record p {
        cache_file = true;
        etag = kept_or p.etag (find_header hdrs (codes "ETag"));
      } in
      let m =
        measured p1 range (find_header hdrs (codes "Content-Range"))
          (find_header hdrs (codes "Content-Length"))
          (find_header hdrs (codes "Transfer-Encoding")) in
      with_lengths head code hdrs p1 m p1.header_buf

  abbrev pub add_headers : List KeyValue → List KeyValue → List KeyValue
  add_headers to [] = to
  add_headers to (e ∷ es) = add_headers (lib.add_header to e.key e.value) es

  abbrev pub offers_ranges : Option (List ℕ) → Option (List ℕ) → Bool
  offers_ranges (some content_range) accept_ranges = true
  offers_ranges none none = false
  offers_ranges none (some accept_ranges) = strstr accept_ranges (codes "bytes")

  abbrev pub more_requests : Bool → List KeyValue → Setup → Setup
  more_requests get hdrs (refuses p) = refuses p
  more_requests get hdrs aborts = aborts
  more_requests get hdrs (sets p range) =
      if get
        && ltb (leaf_chunk_size * 2) p.total_length
        && offers_ranges (find_header hdrs (codes "Content-Range"))
            (find_header hdrs (codes "Accept-Ranges"))
      then sets (record p { submitted = p.submitted + 1 }) range
      else sets p range

  -- `get` and `head` say what the method of the request is; `none` is a copy that does not end.
  abbrev pub direct_setup :
      Bool → Bool → ℕ → Request → Page → ChunkedRange → Option Request → Option Setup
  direct_setup get head code from p range none = none
  direct_setup get head code from p range (some to) =
      let hdrs = lib.add_header from.input_headers (codes "Content-Location") p.uri in
      let p1 = record p { server_req = to; direct_headers = add_headers p.direct_headers hdrs } in
      some (more_requests get hdrs (proxy_setup_range p1 head code hdrs range))

  unfoldable pub direct_header_cb : Bool → Bool → ℕ → Request → Page → ChunkedRange → Option Setup
  direct_header_cb get head code from p range =
      let discards = not p.responded && any_request p.requests in
      let p1 = record p {
        content_length = if discards then 0 else p.content_length;
        total_length = if discards then 0 else p.total_length;
        requests = map peer_request_cancel p.requests;
      } in
      if code == 416
      then some (refuses p)
      else direct_setup get head code from p1 range (copy_all_headers lib from p.server_req)
