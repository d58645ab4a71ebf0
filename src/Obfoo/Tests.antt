-- ===== src/Obfoo/Tests.antt =====
-- obfoo.c: the theorems on a constant key stream.
use mathlib.Core.List.{flatten}
use newnode.Prelude.{
  ℕ, suc, ◌*◌, ◌≡◌, refl, Bool, true, false, Option, none, some, List, [], ◌∷◌, ◌++◌, if◌then◌else◌,
  length, take, replicate, arith, append-nil, bytes_eq,
}
use newnode.Crypto.FirstBytes.{first_bytes}
use newnode.Obfoo.{
  Primitives, sync, ready, Obfoo, returns, crashes, xor_from, chacha20_xor_ic_bytes, obfoo_new,
  obfoo_input_filter, obfoo_output_filter,
}
use newnode.Obfoo.Stream.{chacha20_xor_ic_bytes-xor_from}
use newnode.Obfoo.Duplex.{Linked, obfoo_input_filter-output_filter}
use newnode.Obfoo.Sync.{
  header, marker, answered, obfoo_input_filter-sync, obfoo_input_filter-crashes,
}

-- A key stream that is 7 everywhere, whatever the key.
abbrev sevens : Primitives
sevens = record {
  stream = λ k n i. 7;
  xor_ic = λ m n ic k. some (xor_from (λ i. 7) (ic * 64) m);
  server_session_keys = λ pk sk other. some (pk, other);
  client_session_keys = λ pk sk other. some (other, pk);
  xor_ic-stream = λ m n ic k max. refl;
}

abbrev step_past : Option ℕ → Option ℕ
step_past none = none
step_past (some i) = some (suc i)

abbrev first_place : List ℕ → List ℕ → Option ℕ
first_place [] what = none
first_place (x ∷ xs) what =
    let rest = step_past (first_place xs what) in
    if bytes_eq (take (length what) (x ∷ xs)) what then some 0 else rest

abbrev one_extent : List ℕ → List (List ℕ)
one_extent xs = xs ∷ []

abbrev at_start : Bool → Obfoo
at_start incoming = obfoo_new (replicate 32 1) (replicate 32 2) (replicate 8 3) incoming

abbrev caller : Obfoo
caller = record (at_start false) { state = ready }

abbrev called : Obfoo
called = record (at_start true) { state = ready; rx_nonce = replicate 8 3 }

-- The side that called waits for eight bytes of the key stream.
abbrev waiting : Obfoo
waiting = record (at_start false) { state = sync; synchash = replicate 8 7 ++ replicate 32 0 }

chacha20_xor_ic_bytes-xor_from_example :
    chacha20_xor_ic_bytes sevens (replicate 70 1) [] 60 []
    ≡ some (xor_from (λ i. 7) 60 (replicate 70 1))
chacha20_xor_ic_bytes-xor_from_example =
    chacha20_xor_ic_bytes-xor_from sevens (replicate 70 1) [] 60 [] (omega arith)

obfoo_input_filter-output_filter_example :
    let sent = obfoo_output_filter first_bytes sevens first_place one_extent caller (1 ∷ 2 ∷ []) in
    (b' : Obfoo) × (obfoo_input_filter first_bytes sevens first_place one_extent [] [] called
        sent.out
      ≡ returns (record { result = some 0; obfoo = b'; input = []; out = 1 ∷ 2 ∷ [] }))
    × Linked sent.obfoo b'
    × (sent.obfoo.state ≡ ready)
    × (b'.state ≡ ready)
unfolding obfoo_new flatten
obfoo_input_filter-output_filter_example =
    obfoo_input_filter-output_filter first_bytes sevens first_place one_extent caller called
      (1 ∷ 2 ∷ []) [] [] append-nil refl refl (record { key = refl; nonce = refl; count = refl })
      (omega arith)

-- Three bytes of the other's padding, its message with a byte of padding, and two bytes of data.
obfoo_input_filter-sync_example :
    obfoo_input_filter first_bytes sevens first_place one_extent [] [] waiting (
      (9 ∷ 9 ∷ 9 ∷ [])
      ++ (marker waiting ++ xor_from (λ i. 7) 0 (header 1 ++ ((5 ∷ []) ++ (1 ∷ 2 ∷ [])))))
    ≡ returns (record {
      result = some 0;
      obfoo = record (answered first_bytes sevens first_place one_extent [] waiting 1) {
        rx_ic_bytes = 17;
        discarding = 0;
        state = ready;
      };
      input = [];
      out = 1 ∷ 2 ∷ [];
    })
unfolding obfoo_new flatten bytes_eq
obfoo_input_filter-sync_example =
    obfoo_input_filter-sync first_bytes sevens first_place one_extent [] [] (9 ∷ 9 ∷ 9 ∷ [])
      (5 ∷ []) (1 ∷ 2 ∷ []) waiting 1 append-nil refl refl refl refl (omega arith) (omega arith)
      (omega arith)

obfoo_input_filter-crashes_example :
    obfoo_input_filter first_bytes sevens first_place one_extent [] [] waiting
      (replicate 6 9 ++ (marker waiting ++ replicate 8 7))
    ≡ crashes
unfolding obfoo_new flatten bytes_eq
obfoo_input_filter-crashes_example =
    obfoo_input_filter-crashes first_bytes sevens first_place one_extent [] [] (replicate 6 9)
      (replicate 8 7) waiting refl refl refl (omega arith) (omega arith)
