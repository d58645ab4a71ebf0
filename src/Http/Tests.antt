-- ===== src/Http/Tests.antt =====
-- http.c and client.c: headers that are copied, and the theorem on them.
use newnode.Prelude.{bytes_eq, ◌>>=◌, ◌≡◌, refl, true, some, [], ◌∷◌}
use newnode.Base64.{codes}
use newnode.Http.Lenient.{lenient}
use newnode.Crypto.FirstBytes.{first_bytes}
use newnode.Merkle.{new}
use newnode.Http.{
  copy_entries, overwrite_header, Request, same_key, first_value, without_first,
  overwrite_kv_header, remove_all, copy_all_headers, copy_response_headers,
  merkle_tree_hash_request,
}
use newnode.Http.Hashed.{copy_response_headers-merkle_tree_hash_request}

-- An answer with a repeated header.
abbrev answer : Request
answer = record {
  input_headers =
      record { key = codes "location"; value = codes "/a" }
      ∷ record { key = codes "Location"; value = codes "/b" }
      ∷ record { key = codes "Content-Type"; value = codes "text/html" }
      ∷ [];
  output_headers = [];
  localhost = true;
}

-- copy_all_headers keeps only the last value of a repeated header.
repeated :
    copy_all_headers lenient answer answer
    ≡ some (record answer {
      output_headers =
          record { key = codes "Location"; value = codes "/b" }
          ∷ record { key = codes "Content-Type"; value = codes "text/html" }
          ∷ [];
    })
unfolding copy_all_headers copy_entries overwrite_header overwrite_kv_header remove_all first_value
    same_key bytes_eq without_first
repeated = refl

copy_response_headers-merkle_tree_hash_request_example :
    (copy_response_headers lenient answer answer >>= λ r.
    merkle_tree_hash_request lenient first_bytes
      (new first_bytes [] (λ i. []))
      200
      r.output_headers)
    ≡ merkle_tree_hash_request lenient first_bytes
        (new first_bytes [] (λ i. []))
        200
        answer.input_headers
copy_response_headers-merkle_tree_hash_request_example =
    copy_response_headers-merkle_tree_hash_request lenient first_bytes answer answer
      (new first_bytes [] (λ i. [])) 200 (λ key v e. refl) refl
