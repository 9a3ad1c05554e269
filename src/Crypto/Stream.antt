-- ===== src/Crypto/Stream.antt =====
-- Sealed content (`ContentSealer`, `OpenReader` and `sealed_len` of
-- crates/passalong-core/src/crypto/stream.rs, and the sealing loop of `copy` of
-- crates/passalong-core/src/store/format.rs). A reader's bytes are those it has not opened yet,
-- whether they are buffered or still to be read: it looks at no more of them than it has buffered.
pub mod Nonces
pub mod RoundTrip
pub mod Genuine
use passalong.Prelude.{
  ℕ, zero, suc, ◌+◌, ◌-◌, ◌*◌, ◌/◌, ◌%◌, ◌^◌, max, Bool, true, false, ◌&&◌, ◌||◌, not, Option, none,
  some, List, [], ◌∷◌, ◌++◌, ltb, ◌==◌, if◌then◌else◌, length, take, drop, is_empty, text_eq, codes,
  Result, ok, err, ok_or, ◌>>=◌,
}
use passalong.Model.Digest.{Bytes}
use passalong.Store.Errors.{CryptoError, format, authentication, truncated}
use passalong.Crypto.Aead.{Aead}

abbrev pub content_magic : Bytes
content_magic = codes "PAC1"

abbrev pub content_salt_len : ℕ
content_salt_len = 32

abbrev pub tag_len : ℕ
tag_len = 16

abbrev pub header_len : ℕ
header_len = 4 + content_salt_len

unfoldable pub chunk_len : ℕ
chunk_len = 64 * 1024

unfoldable pub record_len : ℕ
unfolding chunk_len
record_len = chunk_len + tag_len

-- `to_be_bytes` in `w` bytes
unfoldable pub to_be_bytes : ℕ → ℕ → Bytes
to_be_bytes zero n = []
to_be_bytes (suc w) n = to_be_bytes w (n / 256) ++ n % 256 ∷ []

-- `record_nonce`
unfoldable pub record_nonce : ℕ → Bool → Bytes
unfolding to_be_bytes
record_nonce counter last = 0 ∷ 0 ∷ 0 ∷ (to_be_bytes 8 counter ++ (if last then 1 else 0) ∷ [])

-- `sealed_len`, with `div_ceil`
unfoldable pub sealed_len : ℕ → ℕ
unfolding chunk_len
sealed_len plain_len =
    header_len + plain_len + max ((plain_len + (chunk_len - 1)) / chunk_len) 1 * tag_len

abbrev counter_limit : ℕ
counter_limit = 2 ^ 64

-- The messages of `CryptoError::Format` are left out.
abbrev bad_format : CryptoError
bad_format = format []

-- The rest of the sealed content behind one record.
abbrev pub after : Bytes → Option (Result CryptoError Bytes) → Option (Result CryptoError Bytes)
after record_bytes none = none
after record_bytes (some (err e)) = some (err e)
after record_bytes (some (ok rest)) = some (ok (record_bytes ++ rest))

-- Whether the metadata records another salt than the header has.
abbrev pub other_salt : Option Bytes → Bytes → Bool
other_salt none salt = false
other_salt (some e) salt = not (text_eq e salt)

module _ (aead : Aead) where
  open aead use {Key, Cipher, content_cipher, encrypt, decrypt}

  pub record ContentSealer : Type 0 where
    pub cipher : Cipher
    pub salt : Bytes
    pub counter : ℕ
    pub finished : Bool

  -- `ContentSealer::new`
  unfoldable pub new : Cipher → Bytes → ContentSealer
  new cipher salt = record { cipher = cipher; salt = salt; counter = 0; finished = false }

  -- `ContentSealer::header`
  unfoldable pub header : ContentSealer → Bytes
  header s = content_magic ++ s.salt

  -- The end of `seal_chunk`: the record number is counted with `checked_add`.
  unfoldable pub advance : ContentSealer → Bool → Bytes → Result CryptoError (Bytes × ContentSealer)
  advance s last sealed =
      if ltb (s.counter + 1) counter_limit
      then ok (sealed, record s { counter = s.counter + 1; finished = last })
      else err bad_format

  -- `ContentSealer::seal_chunk`
  unfoldable pub seal_chunk :
      ContentSealer → Bytes → Bool → Result CryptoError (Bytes × ContentSealer)
  unfolding advance
  seal_chunk s plain last =
      if s.finished
      then err bad_format
      else if ltb chunk_len (length plain) || (not last && not (length plain == chunk_len))
      then err bad_format
      else do
        sealed ← ok_or (encrypt s.cipher (record_nonce s.counter last) plain) bad_format
        advance s last sealed

  -- The sealing loop of `copy`: `current` is the chunk read, `rest` the content after it. Only a full
  -- chunk can have more after it. `none` means that the fuel ran out.
  unfoldable pub seal_loop : ℕ → ContentSealer → Bytes → Bytes → Option (Result CryptoError Bytes)
  seal_loop zero s current rest = none
  seal_loop (suc fuel) s current rest =
      let full = length current == chunk_len in
      let next = if full then take chunk_len rest else [] in
      let last = is_empty next in
      elim (seal_chunk s current last) [
        | err e ↦ some (err e)
        | ok (record_bytes, s') ↦
            let tail = seal_loop fuel s' next (drop chunk_len rest) in
            if last then some (ok record_bytes) else after record_bytes tail
      ]

  -- The sealing branch of `copy`: the header, then the records.
  unfoldable pub seal_content : ℕ → ContentSealer → Bytes → Option (Result CryptoError Bytes)
  unfolding header
  seal_content fuel s content =
      after (header s) (seal_loop fuel s (take chunk_len content) (drop chunk_len content))

  -- Whether a record that does not open as the final one opens as another: the content was cut.
  unfoldable pub open_error : Cipher → ℕ → Bool → Bytes → CryptoError
  open_error cipher counter last record_bytes =
      if last && length record_bytes == record_len
      then elim (decrypt cipher (record_nonce counter false) record_bytes) [
        | some _ ↦ truncated
        | none ↦ authentication
      ]
      else authentication

  -- One record: its plaintext, and whether it was the final one.
  unfoldable pub open_record : Cipher → ℕ → Bytes → Result CryptoError (Bytes × Bool)
  unfolding open_error
  open_record cipher counter rest =
      let last = not (ltb record_len (length rest)) in
      let record_bytes = if last then rest else take record_len rest in
      if ltb (length record_bytes) tag_len
      then err truncated
      else elim (decrypt cipher (record_nonce counter last) record_bytes) [
        | some plain ↦ ok (plain, last)
        | none ↦ err (open_error cipher counter last record_bytes)
      ]

  -- Reading the records to the end. `none` means that the fuel ran out.
  unfoldable pub open_loop : ℕ → Cipher → ℕ → Bytes → Option (Result CryptoError Bytes)
  open_loop zero cipher counter rest = none
  open_loop (suc fuel) cipher counter rest = elim (open_record cipher counter rest) [
    | err e ↦ some (err e)
    | ok (plain, last) ↦
        let tail = open_loop fuel cipher (counter + 1) (drop record_len rest) in
        if last then some (ok plain) else after plain tail
  ]

  -- `OpenReader`, read to its end: the header is checked first, and the salt with it where the item's
  -- metadata records one.
  unfoldable pub open_content : ℕ → Key → Option Bytes → Bytes → Option (Result CryptoError Bytes)
  unfolding open_loop
  open_content fuel key expected sealed =
      let salt = take content_salt_len (drop 4 sealed) in
      if ltb (length sealed) header_len || not (text_eq (take 4 sealed) content_magic)
      then some (err bad_format)
      else if other_salt expected salt
      then some (err authentication)
      else open_loop fuel (content_cipher key salt) 0 (drop header_len sealed)
