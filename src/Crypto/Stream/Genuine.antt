-- ===== src/Crypto/Stream/Genuine.antt =====
-- What sealed content that opens consists of.
use mathlib.Core.Path.{subst}
use passalong.Prelude.{
  ℕ, zero, suc, ◌+◌, ◌≤◌, ◌≡◌, refl, sym, ap, ◌∙◌, Bool, true, false, ◌||◌, not, Option, none, some,
  ◌⊎◌, inl, inr, ◌∷◌, ◌++◌, ltb, if◌then◌else◌, length, take, drop, text_eq, text_eq→eq, Result, ok,
  err, arith, Bool-cases, Option-cases, Result-cases, length-take, take-append-drop, length-drop,
}
use passalong.Model.Digest.{Bytes}
use passalong.Store.Errors.{CryptoError}
use passalong.Crypto.Aead.{Aead, AeadLaws}
use passalong.Crypto.Stream.{
  chunk_len, record_len, record_nonce, after, open_record, open_loop, open_content, other_salt,
  content_magic, content_salt_len, header_len,
}

record_len_eq : record_len ≡ chunk_len + 16
unfolding record_len
record_len_eq = refl

expected-salt :
    (expected : Option Bytes) (salt : Bytes)
    → other_salt expected salt ≡ false
    → (expected ≡ none) ⊎ (expected ≡ some salt)
expected-salt none salt h = inl refl
expected-salt (some e) salt h = inr (ap some (text_eq→eq e salt (ground (arith, h))))

-- The header's three parts.
header-parts :
    (stream : Bytes)
    → header_len ≤ length stream
    → take 4 stream ≡ content_magic
    → stream ≡ content_magic ++ take content_salt_len (drop 4 stream) ++ drop header_len stream
header-parts (a ∷ b ∷ c ∷ d ∷ rest) long front =
    ap (λ r. r ++ rest) front
    ∙ ap (λ r. content_magic ++ r) (sym (take-append-drop content_salt_len rest))
header-parts _ long front = absurd (omega arith)

module _ (aead : Aead) (laws : AeadLaws aead chunk_len) where
  open aead use {Key, Cipher, content_cipher}
  open laws use {sealed}

  -- `Records c n plain stream`: the stream is the sealed records of `plain`, numbered from `n`, every
  -- one full but the last, and the last one marked as the final.
  pub data Records (c : Cipher) : ℕ → Bytes → Bytes → Type 0 where
    final :
        (n : ℕ) (plain : Bytes)
        → length plain ≤ chunk_len
        → Records c n plain (sealed c (record_nonce n true) plain)
    more :
        (n : ℕ) (plain rest stream : Bytes)
        → length plain ≡ chunk_len
        → Records c (n + 1) rest stream
        → Records c n (plain ++ rest) (sealed c (record_nonce n false) plain ++ stream)

  -- The record that was opened is in front, and the reader took it for the final one exactly if nothing
  -- was behind it.
  open_record-decrypt :
      (c : Cipher) (n : ℕ) (rest plain : Bytes) (last : Bool)
      → open_record aead c n rest ≡ ok (plain, last)
      → (last ≡ not (ltb record_len (length rest)))
        × (aead.decrypt c (record_nonce n last) (if last then rest else take record_len rest)
            ≡ some plain)
  unfolding open_record
  open_record-decrypt c n rest plain last h =
      let record_bytes = if ltb record_len (length rest) then take record_len rest else rest in
      elim (Bool-cases (ltb record_len (length rest))) [
        | inl e ↦
            elim (Option-cases (aead.decrypt c (record_nonce n false) (take record_len rest))) [
              | inl f ↦ ground (arith, h, e, f)
              | inr (p, f) ↦ ground (arith, h, e, f)
            ]
        | inr e ↦ elim (Option-cases (aead.decrypt c (record_nonce n true) rest)) [
          | inl f ↦ ground (arith, h, e, f)
          | inr (p, f) ↦ ground (arith, h, e, f)
        ]
      ]

  after-ok :
      (p plain : Bytes) (tail : Option (Result CryptoError Bytes))
      → after p tail ≡ some (ok plain)
      → (q : Bytes) × (tail ≡ some (ok q)) × (plain ≡ p ++ q)
  after-ok p plain none h = cc
  after-ok p plain (some (err e)) h = cc
  after-ok p plain (some (ok q)) h = (q, refl, cc)

  -- The final record of a stream that opens.
  genuine-last :
      (c : Cipher) (n : ℕ) (rest p : Bytes)
      → open_record aead c n rest ≡ ok (p, true)
      → Records c n p rest
  genuine-last c n rest p h =
      let (short, opened) = open_record-decrypt c n rest p true h in
      let whole = laws.decrypt_genuine c (record_nonce n true) rest p opened in
      let size = laws.sealed_length c (record_nonce n true) p in
      let fits : length p ≤ chunk_len =
        ground (arith, short, size, ap length whole, record_len_eq) in
      subst (λ r. Records c n p r) (sym whole) (final n p fits)

  -- Every record of a stream that opens.
  genuine-more :
      (c : Cipher) (n : ℕ) (rest p q : Bytes)
      → open_record aead c n rest ≡ ok (p, false)
      → Records c (n + 1) q (drop record_len rest)
      → Records c n (p ++ q) rest
  genuine-more c n rest p q h behind =
      let (long, opened) = open_record-decrypt c n rest p false h in
      let front = laws.decrypt_genuine c (record_nonce n false) (take record_len rest) p opened in
      let size = laws.sealed_length c (record_nonce n false) p in
      let full : length p ≡ chunk_len =
        ground (arith, long, size, ap length front, length-take record_len rest, record_len_eq) in
      let whole =
        ap (λ r. r ++ drop record_len rest) (sym front) ∙ take-append-drop record_len rest in
      subst (λ r. Records c n (p ++ q) r) whole (more n p q (drop record_len rest) full behind)

  open_loop-genuine :
      (fuel : ℕ) (c : Cipher) (n : ℕ) (rest plain : Bytes)
      → open_loop aead fuel c n rest ≡ some (ok plain)
      → Records c n plain rest
  unfolding open_loop
  open_loop-genuine zero c n rest plain h = cc
  open_loop-genuine (suc fuel) c n rest plain h = elim (Result-cases (open_record aead c n rest)) [
    | inl (e, opened) ↦ ground (arith, opened, h)
    | inr ((p, last), opened) ↦ elim (Bool-cases last) [
      | inl e ↦
          let same : plain ≡ p = ground (arith, opened, e, h) in
          subst (λ r. Records c n r rest) (sym same)
            (genuine-last c n rest p (opened ∙ ap (λ l. ok (p, l)) e))
      | inr e ↦
          let (q, tail, parts) =
            after-ok p plain (open_loop aead fuel c (n + 1) (drop record_len rest))
              (ground (arith, opened, e, h)) in
          subst (λ r. Records c n r rest) (sym parts)
            (genuine-more c n rest p q (opened ∙ ap (λ l. ok (p, l)) e)
              (open_loop-genuine fuel c (n + 1) (drop record_len rest) q tail))
    ]
  ]

  -- Sealed content that opens is what a sealer makes of the plaintext read from it: the magic bytes, a
  -- salt of 32 bytes, which is the one recorded where one is, and under the cipher of the key and this
  -- salt the records of the plaintext, numbered from 0, none of them missing and only the last one
  -- final. The cipher opens nothing that it did not seal.
  pub open_content-genuine :
      (fuel : ℕ) (key : Key) (expected : Option Bytes) (stream plain : Bytes)
      → open_content aead fuel key expected stream ≡ some (ok plain)
      → (salt : Bytes) × (out : Bytes) × (stream ≡ content_magic ++ salt ++ out)
        × (length salt ≡ content_salt_len)
        × ((expected ≡ none) ⊎ (expected ≡ some salt))
        × Records (content_cipher key salt) 0 plain out
  unfolding open_content
  open_content-genuine fuel key expected stream plain h =
      let salt = take content_salt_len (drop 4 stream) in
      let out = drop header_len stream in
      elim (Bool-cases
        (ltb (length stream) header_len || not (text_eq (take 4 stream) content_magic))) [
          | inl e ↦ ground (arith, h, e)
          | inr e ↦ elim (Bool-cases (other_salt expected salt)) [
            | inl f ↦ ground (arith, h, e, f)
            | inr f ↦
                let long : header_len ≤ length stream = ground (arith, e) in
                let front : take 4 stream ≡ content_magic =
                  text_eq→eq (take 4 stream) content_magic (ground (arith, e)) in
                let opened : open_loop aead fuel (content_cipher key salt) 0 out ≡ some (ok plain) =
                  ground (arith, h, e, f) in
                (
                  salt,
                  out,
                  header-parts stream long front,
                  omega (
                    arith,
                    length-take content_salt_len (drop 4 stream),
                    length-drop 4 stream,
                    long,
                  ),
                  expected-salt expected salt f,
                  open_loop-genuine fuel (content_cipher key salt) 0 out plain opened,
                )
          ]
        ]
