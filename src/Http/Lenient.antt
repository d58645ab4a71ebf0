-- ===== src/Http/Lenient.antt =====
-- Calls of libevent for the tests: every header is accepted, and each number is printed as a question mark.
use newnode.Prelude.{refl, true, [], ◌∷◌, ◌++◌}
use newnode.Base64.{codes}
use newnode.Http.{Evhttp, first_value, without_first}

abbrev pub lenient : Evhttp
lenient = record {
  find_header = first_value;
  remove_header = without_first;
  add_header = λ q k v. q ++ record { key = k; value = v } ∷ [];
  accepts = λ k v. true;
  printf_d = λ n. codes "?";
  find_first = λ q k. refl;
  remove_only = λ q k. refl;
  add_last = λ q k v ok. refl;
}
