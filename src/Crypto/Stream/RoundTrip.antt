-- ===== src/Crypto/Stream/RoundTrip.antt =====
-- Opening what was sealed.
use mathlib.Core.List.{append-nil}
use passalong.Prelude.{
  ℕ, zero, suc, ◌+◌, ◌-◌, ◌*◌, ◌^◌, ◌≤◌, ◌<◌, max, ◌/◌, ◌≡◌, refl, sym, ap, ◌∙◌, Bool, true, false,
  none, some, [], ◌∷◌, ◌++◌, ltb, if◌then◌else◌, length, take, drop, is_empty, text_eq_refl, ok,
  arith, Bool-cases, inl, inr, length-append, length-take, take-append, drop-append,
  take-append-drop, length-drop,
}
use passalong.Model.Digest.{Bytes}
use passalong.Crypto.Aead.{Aead, AeadLaws}
use passalong.Crypto.Stream.{
  chunk_len, record_len, sealed_len, record_nonce, ContentSealer, new, seal_chunk, seal_loop,
  seal_content, open_record, open_loop, open_content, content_magic, content_salt_len, tag_len,
}

record_len_eq : record_len ≡ chunk_len + 16
unfolding record_len
record_len_eq = refl

chunk_len_pos : 0 < chunk_len
unfolding chunk_len
chunk_len_pos = omega arith

take_empty : (n : ℕ) → take {A = ℕ} n [] ≡ []
take_empty zero = refl
take_empty (suc n) = refl

nonempty-is_empty : (xs : Bytes) → 0 < length xs → is_empty xs ≡ false
nonempty-is_empty [] h = absurd (omega arith)
nonempty-is_empty (x ∷ xs) h = refl

records : ℕ → ℕ
unfolding chunk_len
records n = max ((n + (chunk_len - 1)) / chunk_len) 1

records-chunk : (n : ℕ) → 0 < n → records (chunk_len + n) ≡ 1 + records n
unfolding records
records-chunk n h = omega arith

records-one : (n : ℕ) → n ≤ chunk_len → records n ≡ 1
unfolding records
records-one n h = omega arith

sealed_len_eq : (n : ℕ) → sealed_len n ≡ 36 + n + records n * 16
unfolding sealed_len records
sealed_len_eq n = omega arith

module _ (aead : Aead) (laws : AeadLaws aead chunk_len) where
  open aead use {Key, Cipher, content_cipher}
  open laws use {sealed}

  -- A chunk that fits is sealed as a record of its own.
  seal_chunk-ok :
      (s : ContentSealer aead) (plain : Bytes) (last : Bool)
      → s.finished ≡ false
      → s.counter + 1 < 2 ^ 64
      → length plain ≤ chunk_len
      → (last ≡ false → length plain ≡ chunk_len)
      → seal_chunk aead s plain last
        ≡ ok (
          sealed s.cipher (record_nonce s.counter last) plain,
          record s { counter = s.counter + 1; finished = last },
        )
  unfolding seal_chunk
  seal_chunk-ok s plain last open_still room fits full =
      ground (arith, laws.encrypt_total s.cipher (record_nonce s.counter last) plain, full)

  -- A full record is as long as the reader takes it to be.
  record_size :
      (c : Cipher) (n : ℕ) (last : Bool) (plain : Bytes)
      → length plain ≡ chunk_len
      → length (sealed c (record_nonce n last) plain) ≡ record_len
  record_size c n last plain full =
      omega (arith, laws.sealed_length c (record_nonce n last) plain, record_len_eq)

  -- The final record opens.
  open_record-last :
      (c : Cipher) (n : ℕ) (plain : Bytes)
      → length plain ≤ chunk_len
      → open_record aead c n (sealed c (record_nonce n true) plain) ≡ ok (plain, true)
  unfolding open_record
  open_record-last c n plain fits = ground (
    arith,
    record_len_eq,
    laws.sealed_length c (record_nonce n true) plain,
    laws.decrypt_sealed c (record_nonce n true) plain,
  )

  -- So does a full record with more behind it.
  open_record-more :
      (c : Cipher) (n : ℕ) (plain rest : Bytes)
      → length plain ≡ chunk_len
      → 0 < length rest
      → open_record aead c n (sealed c (record_nonce n false) plain ++ rest) ≡ ok (plain, false)
  unfolding open_record
  open_record-more c n plain rest full more =
      let record_bytes = sealed c (record_nonce n false) plain in
      let size : length record_bytes ≡ record_len = record_size c n false plain full in
      let cut : take record_len (record_bytes ++ rest) ≡ record_bytes =
        take-append record_bytes rest size in
      let left : drop record_len (record_bytes ++ rest) ≡ rest =
        drop-append record_bytes rest size in
      let long : ltb record_len (length (record_bytes ++ rest)) ≡ true =
        ground (arith, length-append record_bytes rest) in
      ground
        (arith, cut, long, record_len_eq, size, laws.decrypt_sealed c (record_nonce n false) plain)

  -- The last record of the loops: nothing is left behind the current chunk.
  loops-last :
      (fuel : ℕ) (s : ContentSealer aead) (current : Bytes)
      → s.finished ≡ false
      → s.counter + 1 < 2 ^ 64
      → length current ≤ chunk_len
      → (seal_loop aead (suc fuel) s current []
          ≡ some (ok (sealed s.cipher (record_nonce s.counter true) current)))
        × (open_loop aead
              (suc fuel)
              s.cipher
              s.counter
              (sealed s.cipher (record_nonce s.counter true) current)
            ≡ some (ok current))
  unfolding seal_loop open_loop
  loops-last fuel s current h1 h2 h3 =
      let nothing = take_empty chunk_len in
      (
        ground (arith, nothing, seal_chunk-ok s current true),
        ground (arith, open_record-last s.cipher s.counter current),
      )

  -- What the two loops do to each other, once for every number of records.
  Loops : ℕ → ContentSealer aead → Bytes → Bytes → Type 0
  Loops fuel s current rest =
      (out : Bytes) × (seal_loop aead fuel s current rest ≡ some (ok out))
      × (open_loop aead fuel s.cipher s.counter out ≡ some (ok (current ++ rest)))
      × (0 < length out)
      × (length out ≡ length (current ++ rest) + records (length (current ++ rest)) * 16)

  Loops-step :
      (fuel : ℕ) (s : ContentSealer aead) (current rest : Bytes)
      → s.finished ≡ false
      → s.counter + 1 < 2 ^ 64
      → length current ≡ chunk_len
      → 0 < length rest
      → Loops fuel
          (record s { counter = s.counter + 1; finished = false })
          (take chunk_len rest)
          (drop chunk_len rest)
      → Loops (suc fuel) s current rest
  unfolding seal_loop open_loop Loops
  Loops-step fuel s current rest h1 h2 full more (out, sealing, opening, some_out, size) =
      let record_bytes = sealed s.cipher (record_nonce s.counter false) current in
      let next_is : is_empty (take chunk_len rest) ≡ false =
        nonempty-is_empty (take chunk_len rest)
          (omega (arith, length-take chunk_len rest, chunk_len_pos)) in
      let opened = open_record-more s.cipher s.counter current out full some_out in
      let whole = take-append-drop chunk_len rest in
      let tail : open_loop aead fuel s.cipher (s.counter + 1) out ≡ some (ok rest) =
        opening ∙ ap (λ r. some (ok r)) whole in
      let left : drop record_len (record_bytes ++ out) ≡ out =
        drop-append record_bytes out (record_size s.cipher s.counter false current full) in
      let longer : records (length (current ++ rest)) ≡ 1 + records (length rest) =
        ap records (length-append current rest ∙ ap (λ n. n + length rest) full)
        ∙ records-chunk (length rest) more in
      (
        record_bytes ++ out,
        ground (arith, sealing, next_is, seal_chunk-ok s current false),
        ground (arith, opened, left, tail),
        omega (arith, length-append record_bytes out),
        omega (
          arith,
          size,
          longer,
          length-append record_bytes out,
          length-append current rest,
          ap length whole,
          ap (λ xs. records (length xs)) whole,
          laws.sealed_length s.cipher (record_nonce s.counter false) current,
        ),
      )

  -- The loops agree on every content, by induction on the fuel.
  Loops-agree :
      (fuel : ℕ) (s : ContentSealer aead) (current rest : Bytes)
      → s.finished ≡ false
      → s.counter + 1 + length rest < 2 ^ 64
      → length current ≤ chunk_len
      → (0 < length rest → length current ≡ chunk_len)
      → length rest < fuel
      → Loops fuel s current rest
  unfolding Loops
  Loops-agree zero s current rest h1 h2 h3 h4 h5 = absurd (omega arith)
  Loops-agree (suc fuel) s current [] h1 h2 h3 h4 h5 =
      let (sealing, opening) = loops-last fuel s current h1 (omega arith) h3 in
      let size = laws.sealed_length s.cipher (record_nonce s.counter true) current in
      (
        sealed s.cipher (record_nonce s.counter true) current,
        sealing,
        opening ∙ ap (λ r. some (ok r)) (sym (append-nil current)),
        omega arith,
        omega (
          arith,
          records-one (length current) h3,
          ap length (append-nil current),
          ap (λ xs. records (length xs)) (append-nil current),
        ),
      )
  Loops-agree (suc fuel) s current (x ∷ rest) h1 h2 h3 h4 h5 =
      let left = length-drop chunk_len (x ∷ rest) in
      Loops-step fuel s current (x ∷ rest) h1 (omega arith) (h4 (omega arith)) (omega arith) (
        Loops-agree fuel (record s { counter = s.counter + 1; finished = false })
          (take chunk_len (x ∷ rest)) (drop chunk_len (x ∷ rest)) refl
          (omega (arith, left, chunk_len_pos)) (omega (arith, length-take chunk_len (x ∷ rest)))
          (λ more. omega (arith, left, length-take chunk_len (x ∷ rest)))
          (omega (arith, left, chunk_len_pos)))

  -- The loops agree on a whole content.
  loops-whole :
      (key : Key) (salt content : Bytes) (fuel : ℕ)
      → length content < 2 ^ 63
      → length content < fuel
      → (out : Bytes) × (seal_loop aead fuel
            (new aead (content_cipher key salt) salt)
            (take chunk_len content)
            (drop chunk_len content)
          ≡ some (ok out))
        × (open_loop aead fuel (content_cipher key salt) 0 out ≡ some (ok content))
        × (length out ≡ length content + records (length content) * tag_len)
  unfolding new Loops
  loops-whole key salt content fuel small enough =
      let sealer = new aead (content_cipher key salt) salt in
      let left = length-drop chunk_len content in
      let taken = length-take chunk_len content in
      let whole = take-append-drop chunk_len content in
      let (out, sealing, opening, some_out, size) =
        Loops-agree fuel sealer (take chunk_len content) (drop chunk_len content) refl
          (omega (arith, left)) (omega (arith, taken)) (λ more. omega (arith, left, taken))
          (omega (arith, left)) in
      (
        out,
        sealing,
        opening ∙ ap (λ r. some (ok r)) whole,
        size ∙ ap (λ xs. length xs + records (length xs) * tag_len) whole,
      )

  -- The header is taken off, and the salt in it is the key's.
  open_content-header :
      (key : Key) (salt out : Bytes) (fuel : ℕ) (recorded : Bool)
      → length salt ≡ content_salt_len
      → open_content aead fuel key
          (if recorded then some salt else none)
          (content_magic ++ salt ++ out)
        ≡ open_loop aead fuel (content_cipher key salt) 0 out
  unfolding open_content
  open_content-header key salt out fuel recorded salted =
      let salt_is = take-append salt out salted in
      let rest_is = drop-append salt out salted in
      let long = length-append salt out in
      elim (Bool-cases recorded) [
        | inl e ↦
            ground (arith, salt_is, rest_is, long, text_eq_refl salt, text_eq_refl content_magic)
        | inr e ↦ ground (arith, salt_is, rest_is, long, text_eq_refl content_magic)
      ]

  -- Content is sealed without an error by a new sealer with a salt of 32 bytes, into as many bytes as
  -- `sealed_len` says, and reading these bytes with the same key gives the content back, whether the
  -- salt is also recorded in the item's metadata or not. The cipher seals and opens as documented, and
  -- the fuel is more than the content's length, which stays below 2^63.
  pub open_content-seal_content :
      (key : Key) (salt content : Bytes) (fuel : ℕ) (recorded : Bool)
      → length salt ≡ content_salt_len
      → length content < 2 ^ 63
      → length content < fuel
      → (out : Bytes) × (seal_content aead fuel (new aead (content_cipher key salt) salt) content
          ≡ some (ok out))
        × (length out ≡ sealed_len (length content))
        × (open_content aead fuel key (if recorded then some salt else none) out
            ≡ some (ok content))
  unfolding seal_content open_content new Loops
  open_content-seal_content key salt content fuel recorded salted small enough =
      let (out, sealing, opening, size) = loops-whole key salt content fuel small enough in
      (
        content_magic ++ salt ++ out,
        ground (arith, sealing),
        omega (arith, length-append salt out, size, sealed_len_eq (length content)),
        open_content-header key salt out fuel recorded salted ∙ opening,
      )
