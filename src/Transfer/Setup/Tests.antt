-- ===== src/Transfer/Setup/Tests.antt =====
-- client.c: two answers for one page, and the theorem on them.
use newnode.Prelude.{◌≡◌, refl, true, false, none, some, [], ◌∷◌, ◌++◌, bytes_eq}
use newnode.Base64.{codes}
use newnode.Merkle.{leaf_chunk_size}
use newnode.Http.Lenient.{lenient}
use newnode.Http.{same_key, first_value, build_request_buffer, header_lines}
use newnode.Transfer.{ChunkedRange}
use newnode.Transfer.Setup.{Page, Scanning, sets, measured, lengths, proxy_setup_range}
use newnode.Transfer.Setup.Agreed.{Agreed}

-- Every text is the range of the bytes 20000 to 39999 of 40000, and the number 40000.
abbrev scan : Scanning
scan = record {
  sscanf_range = λ text n. record { start = 20000; end = 39999; total = 40000 };
  strtoll = λ text. some 40000;
  strstr = λ text part. false;
}

abbrev asked : Page
asked = record {
  uri = codes "/";
  server_req = record { input_headers = []; output_headers = []; localhost = true };
  responded = false;
  requests = [];
  direct_headers = [];
  cache_file = false;
  etag = none;
  header_buf = none;
  direct_code = 0;
  chunked = false;
  content_length = 0;
  range_end = 0;
  total_length = 0;
  have_bitfield = none;
  submitted = 0;
  refused = [];
}

abbrev whole : ChunkedRange
whole = record { start = 0; end = 0; chunk_index = 0; chunk_buffer = [] }

-- The page after the first answer, and the range of the second.
abbrev known : Page
known = record asked {
  cache_file = true;
  header_buf = some (codes "?" ++ 13 ∷ 10 ∷ []);
  direct_code = 200;
  content_length = 40000;
  range_end = 39999;
  total_length = 40003;
  have_bitfield = some (λ i. false);
}

abbrev second : ChunkedRange
second = record { start = 20000; end = 39999; chunk_index = 1; chunk_buffer = [] }

first_answer :
    proxy_setup_range lenient scan asked false 200
      (record { key = codes "Content-Length"; value = codes "40000" } ∷ [])
      whole
    ≡ sets known (record whole { end = 39999 })
unfolding proxy_setup_range measured lengths build_request_buffer header_lines first_value same_key
    bytes_eq leaf_chunk_size
first_answer = refl
