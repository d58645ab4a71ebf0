-- ===== src/Obfoo/Sync.antt =====
-- obfoo.c: how an end finds the other's second message behind the padding, and what it makes of it.
use mathlib.Core.List.{flatten}
use newnode.Prelude.{
  ℕ, ◌+◌, ◌-◌, ◌*◌, ◌/◌, ◌%◌, ◌^◌, ◌≤◌, ◌<◌, ◌≡◌, ◌∙◌, refl, sym, ap, true, false, Option, some,
  List, [], ◌∷◌, ◌++◌, min, ltb, if◌then◌else◌, length, take, drop, replicate, arith, Bool-cases,
  inl, inr, length-append, drop-append, drop_all, take-append, take_all,
}
use newnode.Base64.{size_mod}
use newnode.Crypto.{Generichash}
use newnode.Obfoo.{
  Primitives, sync, discard, ready, Obfoo, returns, crashes, falls, xor_from, obfoo_encrypt,
  obfoo_decrypt, crypt_intro, sync_answer, at_sync, sync_found, sync_step, discard_step,
  from_discard, from_sync, from_state, obfoo_input_filter,
}
use newnode.Obfoo.Stream.{
  xor_from-append, xor_from-xor_from, length-xor_from, chacha20_xor_ic_bytes-xor_from,
}
use newnode.Obfoo.Duplex.{ready_step-xor_from}

-- The fields of a crypt_intro in front of its padding.
abbrev pub header : ℕ → List ℕ
header len = replicate 8 0 ++ (1 ∷ 0 ∷ 0 ∷ 0 ∷ len % 256 ∷ (len / 256) % 256 ∷ [])

drop_front : (xs ys : List ℕ) (n : ℕ) → length xs ≡ n → drop n (xs ++ ys) ≡ ys
drop_front xs ys n e = drop-append n xs ys (omega arith) ∙ rw (drop_all n xs (omega arith)) refl

take_front : (h t c : List ℕ) (n : ℕ) → c ≡ h ++ t → length h ≡ n → take n c ≡ h
take_front h t c n e l = rw e (take-append n h t (omega arith) ∙ take_all n h (omega arith))

-- What stands in front of the other end's crypt_intro, and what is searched for.
abbrev pub marker : Obfoo → List ℕ
marker o = if o.incoming then o.synchash else []

abbrev pub searched : Obfoo → List ℕ
searched o = if o.incoming then o.synchash else take 8 o.synchash

module _ (hash : Generichash) (lib : Primitives) (search : List ℕ → List ℕ → Option ℕ)
    (extents : List ℕ → List (List ℕ)) where
  open lib use {stream}

  -- The state once the other end's crypt_intro with `len` bytes of padding is read: the end that was
  -- called skips two bytes more, and answers.
  abbrev pub answered : List ℕ → Obfoo → ℕ → Obfoo
  answered pad o len =
      let reply = crypt_intro pad in
      record o {
        rx_ic_bytes = o.rx_ic_bytes + 14;
        tx_ic_bytes = if o.incoming then o.tx_ic_bytes + length reply else o.tx_ic_bytes;
        discarding = if o.incoming then len + 2 else len;
        output =
            if o.incoming
            then o.output ++ xor_from (stream o.tx o.tx_nonce) o.tx_ic_bytes reply
            else o.output;
        state = discard;
      }

  -- The first bytes of `rest` are an encrypted header.
  decrypt_header :
      (o : Obfoo) (len : ℕ) (front : List ℕ)
      → front ≡ xor_from (stream o.rx o.rx_nonce) o.rx_ic_bytes (header len)
      → o.rx_ic_bytes + 14 < 2 ^ 64
      → obfoo_decrypt lib o front
        ≡ (record o { rx_ic_bytes = o.rx_ic_bytes + 14 }, some (header len))
  unfolding obfoo_decrypt
  decrypt_header o len front e max =
      let f = stream o.rx o.rx_nonce in
      let size : length front ≡ 14 = ap length e ∙ length-xor_from f o.rx_ic_bytes (header len) in
      let wrap : (o.rx_ic_bytes + 14) % size_mod ≡ o.rx_ic_bytes + 14 = omega arith in
      let clear =
        chacha20_xor_ic_bytes-xor_from lib front o.rx_nonce o.rx_ic_bytes o.rx
          (omega (arith, size)) in
      rw (size, wrap, clear, e, xor_from-xor_from f o.rx_ic_bytes (header len)) refl

  sync_answer-header :
      (pad rest : List ℕ) (o : Obfoo) (len : ℕ)
      → len + 2 < 65536
      → o.tx_ic_bytes + length (crypt_intro pad) < 2 ^ 64
      → sync_answer hash lib search extents pad
          (record o { rx_ic_bytes = o.rx_ic_bytes + 14 })
          (header len)
          rest
        ≡ falls (answered pad o len) (drop 14 rest)
  unfolding sync_answer obfoo_encrypt
  sync_answer-header pad rest o len small max =
      let two : len % 256 + 256 * (len / 256 % 256 + 0) ≡ len = omega arith in
      let wrap : (len + 2) % 65536 ≡ len + 2 = omega arith in
      let tx_wrap : (o.tx_ic_bytes + length (crypt_intro pad)) % size_mod
          ≡ o.tx_ic_bytes + length (crypt_intro pad) =
        omega arith in
      elim (Bool-cases o.incoming) [
        | inl called ↦
            rw
              (
                two,
                wrap,
                tx_wrap,
                called,
                chacha20_xor_ic_bytes-xor_from lib (crypt_intro pad) o.tx_nonce o.tx_ic_bytes o.tx
                    max,
              )
              refl
        | inr caller ↦ rw (two, caller) refl
      ]

  at_sync-header :
      (pad rest : List ℕ) (o : Obfoo) (len : ℕ)
      → take 14 rest ≡ xor_from (stream o.rx o.rx_nonce) o.rx_ic_bytes (header len)
      → 14 ≤ length rest
      → len + 2 < 65536
      → o.rx_ic_bytes + 14 < 2 ^ 64
      → o.tx_ic_bytes + length (crypt_intro pad) < 2 ^ 64
      → at_sync hash lib search extents pad o rest ≡ falls (answered pad o len) (drop 14 rest)
  at_sync-header pad rest o len e long small max_rx max_tx =
      let there : ltb (length rest) 14 ≡ false = ground arith in
      rw (there, decrypt_header o len (take 14 rest) e max_rx)
        (sync_answer-header pad rest o len small max_tx)

  -- Past the padding what is left is the other end's data.
  from_discard-ready :
      (o : Obfoo) (skipped payload : List ℕ)
      → flatten (extents payload) ≡ payload
      → o.discarding ≡ length skipped
      → o.rx_ic_bytes + length skipped + length payload < 2 ^ 64
      → from_discard hash lib search extents o (skipped ++ payload)
        ≡ returns (record {
          result = some 0;
          obfoo = record o {
            rx_ic_bytes = o.rx_ic_bytes + length skipped + length payload;
            discarding = 0;
            state = ready;
          };
          input = [];
          out = xor_from (stream o.rx o.rx_nonce) (o.rx_ic_bytes + length skipped) payload;
        })
  unfolding from_discard discard_step
  from_discard-ready o skipped payload whole e max =
      let sizes = length-append skipped payload in
      let n : min (length (skipped ++ payload)) (length skipped) ≡ length skipped = omega arith in
      let none_left : length skipped - length skipped ≡ 0 = omega arith in
      let wrap : (o.rx_ic_bytes + length skipped) % size_mod ≡ o.rx_ic_bytes + length skipped =
        omega arith in
      rw (e, n, none_left, wrap, drop_front skipped payload (length skipped) refl)
        (ready_step-xor_from hash lib search extents
          (record o { rx_ic_bytes = o.rx_ic_bytes + length skipped; discarding = 0; state = ready })
          payload whole max)

  drop_to_marker :
      (o : Obfoo) (front c : List ℕ)
      → length o.synchash ≡ 40
      → (if o.incoming
          then drop 40 (drop (length front) (front ++ (marker o ++ c)))
          else drop (length front) (front ++ (marker o ++ c)))
        ≡ c
  drop_to_marker o front c hashed =
      rw (drop_front front (marker o ++ c) (length front) refl) (elim (Bool-cases o.incoming) [
        | inl called ↦ rw called (drop_front o.synchash c 40 hashed)
        | inr caller ↦ rw caller refl
      ])

  long_enough :
      (o : Obfoo) (front c : List ℕ)
      → length o.synchash ≡ 40
      → 14 ≤ length c
      → ltb (length (front ++ (marker o ++ c))) ((if o.incoming then 40 else 0) + 14) ≡ false
  long_enough o front c hashed long =
      let sizes = length-append front (marker o ++ c) in
      let more = length-append (marker o) c in
      elim (Bool-cases o.incoming) [
        | inl called ↦ let m : length (marker o) ≡ 40 = rw called hashed in rw called (ground arith)
        | inr caller ↦ rw caller (ground arith)
      ]

  sync_step-found :
      (pad front c : List ℕ) (o : Obfoo) (len : ℕ)
      → search (front ++ (marker o ++ c)) (searched o) ≡ some (length front)
      → length o.synchash ≡ 40
      → take 14 c ≡ xor_from (stream o.rx o.rx_nonce) o.rx_ic_bytes (header len)
      → 14 ≤ length c
      → len + 2 < 65536
      → o.rx_ic_bytes + 14 < 2 ^ 64
      → o.tx_ic_bytes + length (crypt_intro pad) < 2 ^ 64
      → sync_step hash lib search extents pad o (front ++ (marker o ++ c))
        ≡ falls (answered pad o len) (drop 14 c)
  unfolding sync_step sync_found
  sync_step-found pad front c o len found hashed e long small max_rx max_tx =
      rw (long_enough o front c hashed long, found)
        (ap (at_sync hash lib search extents pad o) (drop_to_marker o front c hashed)
          ∙ at_sync-header pad c o len e long small max_rx max_tx)

  from_sync-ready :
      (pad front c skipped payload : List ℕ) (o : Obfoo) (len : ℕ)
      → ((ys : List ℕ) → flatten (extents ys) ≡ ys)
      → search (front ++ (marker o ++ c)) (searched o) ≡ some (length front)
      → length o.synchash ≡ 40
      → take 14 c ≡ xor_from (stream o.rx o.rx_nonce) o.rx_ic_bytes (header len)
      → drop 14 c ≡ skipped ++ payload
      → 14 ≤ length c
      → length skipped ≡ (if o.incoming then len + 2 else len)
      → len + 2 < 65536
      → o.rx_ic_bytes + 14 + length skipped + length payload < 2 ^ 64
      → o.tx_ic_bytes + length (crypt_intro pad) < 2 ^ 64
      → from_sync hash lib search extents pad o (front ++ (marker o ++ c))
        ≡ returns (record {
          result = some 0;
          obfoo = record (answered pad o len) {
            rx_ic_bytes = o.rx_ic_bytes + 14 + length skipped + length payload;
            discarding = 0;
            state = ready;
          };
          input = [];
          out = xor_from (stream o.rx o.rx_nonce) (o.rx_ic_bytes + 14 + length skipped) payload;
        })
  unfolding from_sync
  from_sync-ready pad front c skipped payload o len whole found hashed e behind long size small
        max_rx max_tx =
      rw (sync_step-found pad front c o len found hashed e long small (omega arith) max_tx, behind)
        (from_discard-ready (answered pad o len) skipped payload (whole payload) (sym size) max_rx)

  -- The other end's second message, found behind its padding: the filter skips to it, reads it, skips
  -- what it says is padding, and puts out the clear bytes of what follows.
  pub obfoo_input_filter-sync :
      (intro_pad pad front skipped payload : List ℕ) (o : Obfoo) (len : ℕ)
      → let c =
          xor_from (stream o.rx o.rx_nonce) o.rx_ic_bytes (header len ++ (skipped ++ payload)) in
        ((ys : List ℕ) → flatten (extents ys) ≡ ys)
        → o.state ≡ sync
        → search (front ++ (marker o ++ c)) (searched o) ≡ some (length front)
        → length o.synchash ≡ 40
        → length skipped ≡ (if o.incoming then len + 2 else len)
        → len + 2 < 65536
        → o.rx_ic_bytes + 14 + length skipped + length payload < 2 ^ 64
        → o.tx_ic_bytes + length (crypt_intro pad) < 2 ^ 64
        → obfoo_input_filter hash lib search extents intro_pad pad o (front ++ (marker o ++ c))
          ≡ returns (record {
            result = some 0;
            obfoo = record (answered pad o len) {
              rx_ic_bytes = o.rx_ic_bytes + 14 + length skipped + length payload;
              discarding = 0;
              state = ready;
            };
            input = [];
            out = payload;
          })
  unfolding obfoo_input_filter from_state from_sync
  obfoo_input_filter-sync intro_pad pad front skipped payload o len whole r found hashed size small
        max_rx max_tx =
      let f = stream o.rx o.rx_nonce in
      let i = o.rx_ic_bytes in
      let h = xor_from f i (header len) in
      let s = xor_from f (i + 14) skipped in
      let p = xor_from f (i + 14 + length skipped) payload in
      let ls = length-xor_from f (i + 14) skipped in
      let lp = length-xor_from f (i + 14 + length skipped) payload in
      let c = xor_from f i (header len ++ (skipped ++ payload)) in
      let parts : c ≡ h ++ (s ++ p) =
        xor_from-append f i (i + 14) (header len) (skipped ++ payload) refl
        ∙ ap (◌++◌ h) (xor_from-append f (i + 14) (i + 14 + length skipped) skipped payload refl) in
      ap (λ t. from_state hash lib search extents t intro_pad pad o (front ++ (marker o ++ c))) r
      ∙ from_sync-ready pad front c s p o len whole found hashed
          (take_front h (s ++ p) c 14 parts refl)
          (ap (drop 14) parts ∙ drop_front h (s ++ p) 14 refl)
          (omega (arith, ap length parts, length-append h (s ++ p))) (ls ∙ size) small (omega arith)
          max_tx
      ∙ rw (ls, lp, xor_from-xor_from f (i + 14 + length skipped) payload) refl

  -- When the other end's second message is found and fewer bytes than a crypt_intro follow, the filter
  -- reads through the NULL that evbuffer_pullup gives.
  pub obfoo_input_filter-crashes :
      (intro_pad pad front c : List ℕ) (o : Obfoo)
      → o.state ≡ sync
      → search (front ++ (marker o ++ c)) (searched o) ≡ some (length front)
      → length o.synchash ≡ 40
      → (if o.incoming then 40 else 0) + 14 ≤ length (front ++ (marker o ++ c))
      → length c < 14
      → obfoo_input_filter hash lib search extents intro_pad pad o (front ++ (marker o ++ c))
        ≡ crashes
  unfolding obfoo_input_filter from_state from_sync sync_step sync_found
  obfoo_input_filter-crashes intro_pad pad front c o r found hashed enough short =
      let long : ltb (length (front ++ (marker o ++ c))) ((if o.incoming then 40 else 0) + 14)
          ≡ false =
        ground arith in
      let gone : ltb (length c) 14 ≡ true = ground arith in
      ap (λ t. from_state hash lib search extents t intro_pad pad o (front ++ (marker o ++ c))) r
      ∙ rw (long, found, drop_to_marker o front c hashed, gone) refl
