-- ===== src/Crypto/FirstBytes.antt =====
-- A concrete generic hash for the tests: it keeps the first bytes that it is given.
use newnode.Prelude.{
  ℕ, ◌≡◌, List, ◌++◌, arith, length, take, replicate, append_assoc, append-nil, length-take,
  length-append, length-replicate,
}
use newnode.Crypto.{Generichash}

abbrev pub keep : ℕ → List ℕ → List ℕ
keep n xs = take n (xs ++ replicate n 0)

pub length-keep : (xs : List ℕ) (n : ℕ) → length (keep n xs) ≡ n
length-keep xs n = omega (
  arith,
  length-take n (xs ++ replicate n 0),
  length-append xs (replicate n 0),
  length-replicate {A = ℕ} n 0,
)

abbrev pub first_bytes : Generichash
first_bytes = record {
  State = List ℕ;
  init = λ key n. key;
  update = λ s xs. s ++ xs;
  final = λ s n. keep n s;
  update-nil = append-nil;
  update-update = append_assoc;
  length-final = length-keep;
}
