-- ===== src/Signature/Verify.antt =====
-- injector.c and client.c: what the client makes of a signature that the injector wrote.
use newnode.Prelude.{
  ℕ, ◌≡◌, ◌∙◌, refl, sym, ap, Bool, true, some, List, [], ◌∷◌, ◌++◌, arith, length, get_or, take,
  drop, bytes_eq, All, length-append, take-append, take_all, drop-append, drop_all, inr,
  append_assoc,
}
use newnode.Base64.{codes, base64_urlsafe_table, base64_decode, base64_urlsafe_encode}
use newnode.Base64.Length.{length-encode_bytes}
use newnode.Base64.RoundTrip.{IsByte}
use newnode.Base64.Inverse.{encoded, base64_decode-encode}
use newnode.Crypto.{hash_bytes}
use newnode.Signature.{Signing, content_sig_size, content_sign, check_sig, verify_signature}

All-append : (xs ys : List ℕ) → All IsByte xs → All IsByte ys → All IsByte (xs ++ ys)
All-append [] ys hx hy = hy
All-append (x ∷ xs) ys (h, hx) hy = (h, All-append xs ys hx hy)

take_front : (n : ℕ) (xs ys : List ℕ) → length xs ≡ n → take n (xs ++ ys) ≡ xs
take_front n xs ys e = take-append n xs ys (omega arith) ∙ take_all n xs (omega arith)

drop_front : (n : ℕ) (xs ys : List ℕ) → length xs ≡ n → drop n (xs ++ ys) ≡ ys
drop_front n xs ys e = drop-append n xs ys (omega arith) ∙ rw (drop_all n xs (omega arith)) refl

length-front :
    (sig timestamp : List ℕ)
    → length sig ≡ 64
    → length timestamp ≡ 20
    → length (sig ++ (codes "sign" ++ timestamp)) ≡ 88
length-front sig timestamp es et = omega (arith, length-append sig (codes "sign" ++ timestamp))

module _ (keys : Signing) where
  open keys use {sign_detached, verify_detached, length-sign, sign-bytes, verify-sign}

  -- The parts of a content_sig: the message behind the signature, and the hash at its end.
  record Layout (timestamp hash raw : List ℕ) : Type 0 where
    pub size : length raw ≡ content_sig_size
    pub signature : take 64 raw ≡ sign_detached (codes "sign" ++ timestamp ++ hash)
    pub message : drop 64 raw ≡ codes "sign" ++ timestamp ++ hash
    pub content_hash : drop 88 raw ≡ hash

  content_sign-Layout :
      (timestamp hash : List ℕ)
      → length timestamp ≡ 20
      → length hash ≡ hash_bytes
      → Layout timestamp hash (content_sign keys timestamp hash)
  unfolding content_sign
  content_sign-Layout timestamp hash et eh =
      let signed = codes "sign" ++ timestamp ++ hash in
      let sig = sign_detached signed in
      let size = length-sign signed in
      record {
        size = omega (arith, length-append sig signed, length-append timestamp hash);
        signature = take_front 64 sig signed size;
        message = drop_front 64 sig signed size;
        content_hash =
            ap (drop 88) (sym (append_assoc sig (codes "sign" ++ timestamp) hash))
            ∙ drop_front 88 (sig ++ (codes "sign" ++ timestamp)) hash
                (length-front sig timestamp size et);
      }

  check_sig-Layout :
      (timestamp hash raw candidate : List ℕ)
      → Layout timestamp hash raw
      → length hash ≡ hash_bytes
      → length candidate ≡ hash_bytes
      → check_sig keys candidate (some raw) ≡ bytes_eq candidate hash
  unfolding check_sig
  check_sig-Layout timestamp hash raw candidate l eh ec =
      let signed = codes "sign" ++ timestamp ++ hash in
      rw
        (
          l.size,
          l.signature,
          l.message,
          l.content_hash,
          verify-sign signed,
          take_all hash_bytes hash (omega arith),
          take_all hash_bytes candidate (omega arith),
        )
        refl

  content_sign-bytes :
      (timestamp hash : List ℕ)
      → All IsByte timestamp
      → All IsByte hash
      → All IsByte (content_sign keys timestamp hash)
  unfolding content_sign
  content_sign-bytes timestamp hash bt bh =
      let signed = codes "sign" ++ timestamp ++ hash in
      All-append (sign_detached signed) signed (sign-bytes signed)
        (omega arith, (omega arith, (omega arith, (omega arith, All-append timestamp hash bt bh))))

  -- For the text that the injector sends in X-Sign or X-MSign for a hash, verify_signature accepts that
  -- hash and no other, if the client's allocation succeeds.
  pub verify_signature-content_sign :
      (malloc : ℕ → Bool) (timestamp hash text candidate : List ℕ)
      → length timestamp ≡ 20
      → All IsByte timestamp
      → length hash ≡ hash_bytes
      → All IsByte hash
      → base64_urlsafe_encode malloc (content_sign keys timestamp hash) ≡ some text
      → malloc 120 ≡ true
      → length candidate ≡ hash_bytes
      → verify_signature keys malloc candidate text ≡ bytes_eq candidate hash
  unfolding verify_signature base64_urlsafe_encode
  verify_signature-content_sign malloc timestamp hash text candidate et bt eh bh enc alloc ec =
      let raw = content_sign keys timestamp hash in
      let l = content_sign-Layout timestamp hash et eh in
      let text_eq = encoded malloc base64_urlsafe_table raw text (omega (arith, l.size)) enc in
      let chars : length text ≡ 160 =
        sym (ap length text_eq)
        ∙ (length-encode_bytes (λ i. get_or base64_urlsafe_table i 0) raw ∙ rw (l.size) refl) in
      let decoded : base64_decode malloc text ≡ some raw =
        base64_decode-encode malloc base64_urlsafe_table raw text (inr refl)
          (content_sign-bytes timestamp hash bt bh) (omega (arith, l.size)) enc (rw chars alloc) in
      rw (verify_signature, chars, decoded) (check_sig-Layout timestamp hash raw candidate l eh ec)
