-- ===== src/Obfoo/Duplex.antt =====
-- obfoo.c: what one end sends once the handshake is over, the other end reads.
use mathlib.Core.List.{flatten}
use newnode.Prelude.{
  ℕ, ◌+◌, ◌%◌, ◌^◌, ◌<◌, ◌≡◌, ◌∙◌, refl, sym, ap, Option, some, ◌>>=◌, List, [], ◌∷◌, length, arith,
  length-append,
}
use newnode.Base64.{size_mod}
use newnode.Crypto.{Generichash}
use newnode.Obfoo.{
  Primitives, ready, Obfoo, returns, xor_from, obfoo_encrypt, obfoo_decrypt, filter_extents,
  evbuffer_filter, ready_step, from_state, obfoo_input_filter, output_in, obfoo_output_filter,
}
use newnode.Obfoo.Stream.{
  xor_from-append, xor_from-xor_from, length-xor_from, chacha20_xor_ic_bytes-xor_from,
}

-- A callback that ciphers with one key stream, from the state at byte `i` on.
Ciphers : (Obfoo → List ℕ → Obfoo × Option (List ℕ)) → (ℕ → Obfoo) → (ℕ → ℕ) → Type 0
Ciphers cb at f =
    (i : ℕ) (v : List ℕ)
    → i + length v < 2 ^ 64
    → cb (at i) v ≡ (at (i + length v), some (xor_from f i v))

filter_extents-xor_from :
    (cb : Obfoo → List ℕ → Obfoo × Option (List ℕ)) (at : ℕ → Obfoo) (f : ℕ → ℕ) (i j : ℕ)
    (vs : List (List ℕ))
    → Ciphers cb at f
    → j ≡ i + length (flatten vs)
    → j < 2 ^ 64
    → filter_extents cb (at i) vs ≡ (at j, some (xor_from f i (flatten vs)))
unfolding filter_extents Ciphers flatten
filter_extents-xor_from cb at f i j [] c e max = let same : j ≡ i = omega arith in rw same refl
filter_extents-xor_from cb at f i j (v ∷ vs) c e max =
    let sizes = length-append v (flatten vs) in
    let one = c i v (omega arith) in
    let rest = filter_extents-xor_from cb at f (i + length v) j vs c (omega arith) max in
    rw (one, rest, ◌>>=◌)
      (ap (λ t. (at j, some t)) (sym (xor_from-append f i (i + length v) v (flatten vs) refl)))

module _ (lib : Primitives) where
  open lib use {stream}

  obfoo_encrypt-Ciphers :
      (o : Obfoo)
      → Ciphers (obfoo_encrypt lib) (λ i. record o { tx_ic_bytes = i }) (stream o.tx o.tx_nonce)
  unfolding Ciphers obfoo_encrypt
  obfoo_encrypt-Ciphers o i v max =
      let wrap : (i + length v) % size_mod ≡ i + length v = omega arith in
      rw (wrap, chacha20_xor_ic_bytes-xor_from lib v o.tx_nonce i o.tx max) refl

  obfoo_decrypt-Ciphers :
      (o : Obfoo)
      → Ciphers (obfoo_decrypt lib) (λ i. record o { rx_ic_bytes = i }) (stream o.rx o.rx_nonce)
  unfolding Ciphers obfoo_decrypt
  obfoo_decrypt-Ciphers o i v max =
      let wrap : (i + length v) % size_mod ≡ i + length v = omega arith in
      rw (wrap, chacha20_xor_ic_bytes-xor_from lib v o.rx_nonce i o.rx max) refl

-- Two ends that hold the same key and count for what the first sends.
pub record Linked (a b : Obfoo) : Type 0 where
  pub key : b.rx ≡ a.tx
  pub nonce : b.rx_nonce ≡ a.tx_nonce
  pub count : b.rx_ic_bytes ≡ a.tx_ic_bytes

module _ (hash : Generichash) (lib : Primitives) (search : List ℕ → List ℕ → Option ℕ)
    (extents : List ℕ → List (List ℕ)) where
  open lib use {stream}

  -- Filtering with a ciphering callback, whatever the extents are.
  evbuffer_filter-xor_from :
      (cb : Obfoo → List ℕ → Obfoo × Option (List ℕ)) (at : ℕ → Obfoo) (f : ℕ → ℕ) (i : ℕ)
      (xs : List ℕ)
      → flatten (extents xs) ≡ xs
      → Ciphers cb at f
      → i + length xs < 2 ^ 64
      → evbuffer_filter hash lib search extents cb (at i) xs
        ≡ record { result = some 0; obfoo = at (i + length xs); input = []; out = xor_from f i xs }
  unfolding evbuffer_filter
  evbuffer_filter-xor_from cb at f i xs whole c max =
      rw
        (
          filter_extents-xor_from cb at f i (i + length xs) (extents xs) c (rw whole refl) max,
          whole,
        )
        refl

  output_ready :
      (a : Obfoo) (xs : List ℕ)
      → flatten (extents xs) ≡ xs
      → a.state ≡ ready
      → a.tx_ic_bytes + length xs < 2 ^ 64
      → obfoo_output_filter hash lib search extents a xs ≡ record {
        result = some 0;
        obfoo = record a { tx_ic_bytes = a.tx_ic_bytes + length xs };
        input = [];
        out = xor_from (stream a.tx a.tx_nonce) a.tx_ic_bytes xs;
      }
  unfolding obfoo_output_filter output_in
  output_ready a xs whole r max =
      ap (λ s. output_in hash lib search extents s a xs) r
      ∙ evbuffer_filter-xor_from (obfoo_encrypt lib) (λ i. record a { tx_ic_bytes = i })
          (stream a.tx a.tx_nonce) a.tx_ic_bytes xs whole (obfoo_encrypt-Ciphers lib a) max

  pub ready_step-xor_from :
      (b : Obfoo) (xs : List ℕ)
      → flatten (extents xs) ≡ xs
      → b.rx_ic_bytes + length xs < 2 ^ 64
      → ready_step hash lib search extents b xs
        ≡ returns (record {
          result = some 0;
          obfoo = record b { rx_ic_bytes = b.rx_ic_bytes + length xs };
          input = [];
          out = xor_from (stream b.rx b.rx_nonce) b.rx_ic_bytes xs;
        })
  unfolding ready_step
  ready_step-xor_from b xs whole max = ap returns (
      evbuffer_filter-xor_from (obfoo_decrypt lib) (λ i. record b { rx_ic_bytes = i })
        (stream b.rx b.rx_nonce) b.rx_ic_bytes xs whole (obfoo_decrypt-Ciphers lib b) max)

  input_ready :
      (b : Obfoo) (xs intro_pad pad : List ℕ)
      → flatten (extents xs) ≡ xs
      → b.state ≡ ready
      → b.rx_ic_bytes + length xs < 2 ^ 64
      → obfoo_input_filter hash lib search extents intro_pad pad b xs
        ≡ returns (record {
          result = some 0;
          obfoo = record b { rx_ic_bytes = b.rx_ic_bytes + length xs };
          input = [];
          out = xor_from (stream b.rx b.rx_nonce) b.rx_ic_bytes xs;
        })
  unfolding obfoo_input_filter from_state
  input_ready b xs intro_pad pad whole r max =
      ap (λ s. from_state hash lib search extents s intro_pad pad b xs) r
      ∙ ready_step-xor_from b xs whole max

  -- After the handshake, with two ends linked for one direction, the receiving filter puts out the
  -- bytes that the sending filter was given, and the ends stay linked, for up to 2 ^ 64 bytes in all,
  -- whatever extents the bytes lie in.
  pub obfoo_input_filter-output_filter :
      (a b : Obfoo) (xs : List ℕ) (intro_pad pad : List ℕ)
      → ((ys : List ℕ) → flatten (extents ys) ≡ ys)
      → a.state ≡ ready
      → b.state ≡ ready
      → Linked a b
      → a.tx_ic_bytes + length xs < 2 ^ 64
      → let sent = obfoo_output_filter hash lib search extents a xs in
        (b' : Obfoo) × (obfoo_input_filter hash lib search extents intro_pad pad b sent.out
          ≡ returns (record { result = some 0; obfoo = b'; input = []; out = xs }))
        × Linked sent.obfoo b'
        × (sent.obfoo.state ≡ ready)
        × (b'.state ≡ ready)
  obfoo_input_filter-output_filter a b xs intro_pad pad whole ra rb link max =
      let f = stream a.tx a.tx_nonce in
      let c = xor_from f a.tx_ic_bytes xs in
      let size = length-xor_from f a.tx_ic_bytes xs in
      rw (output_ready a xs (whole xs) ra max) (
        record b { rx_ic_bytes = b.rx_ic_bytes + length c },
        input_ready b c intro_pad pad (whole c) rb (omega (arith, link.count, size))
            ∙ ap
                (λ t. returns (record {
                  result = some 0;
                  obfoo = record b { rx_ic_bytes = b.rx_ic_bytes + length c };
                  input = [];
                  out = t;
                }))
                (rw (link.key, link.nonce, link.count) (xor_from-xor_from f a.tx_ic_bytes xs)),
        record { key = link.key; nonce = link.nonce; count = omega (arith, link.count, size) },
        ra,
        rb,
      )
