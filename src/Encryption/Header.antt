-- ===== src/Encryption/Header.antt =====
-- The JSON of the store header (`StoreHeader` of crates/passalong-core/src/encryption/header.rs).
-- serde_json is a parameter; a header is its wrapped key.
pub mod RoundTrip
use passalong.Prelude.{
  ℕ, ◌*◌, Bool, true, false, ◌&&◌, ◌||◌, not, Option, none, some, [], ◌∷◌, ◌++◌, ◌==◌,
  if◌then◌else◌, length, take, Text, text_eq, codes, Result, ok, err, ok_or, ◌>>=◌,
}
use passalong.Model.Digest.{Bytes}
use passalong.Crypto.Keys.{Primitives, KdfParams, WrappedKey, parse_key_id, print_key_id}
use passalong.Store.Errors.{
  FsError, StoreError, EncryptionError, CryptoError, fs, encryption, header, layout,
}

abbrev pub header_format : ℕ
header_format = 1

abbrev pub kdf_alg : Text
kdf_alg = codes "argon2id"

abbrev pub kdf_version : ℕ
kdf_version = 0x13

abbrev pub kdf_salt_len : ℕ
kdf_salt_len = 16

abbrev pub nonce_len : ℕ
nonce_len = 12

-- `HeaderJson`, with the objects in it laid flat
pub record HeaderJson : Type 0 where
  pub format : ℕ
  pub key_id : Text
  pub alg : Text
  pub version : ℕ
  pub m_kib : ℕ
  pub t : ℕ
  pub p : ℕ
  pub salt : Text
  pub nonce : Text
  pub ciphertext : Text

-- What serde_json makes of these types
pub record Serde : Type 0 where
  pub to_vec_pretty : HeaderJson → Bytes
  -- `from_slice::<FormatOnly>`
  pub format_only : Bytes → Option ℕ
  -- `from_slice::<HeaderJson>`
  pub from_slice : Bytes → Option HeaderJson

-- `invalid`; the reasons are left out.
abbrev pub invalid : EncryptionError
invalid = EncryptionError.header []

-- `map_err(|err| invalid(..))`
abbrev pub or_invalid : {A : Type 0} → Result CryptoError A → Result EncryptionError A
or_invalid (ok a) = ok a
or_invalid (err e) = err invalid

module _ (prims : Primitives) (serde : Serde) where
  open prims use {hex_encode, hex_decode}

  -- `decode`
  unfoldable pub decode : ℕ → Text → Result EncryptionError Bytes
  decode n text = do
    bytes ← ok_or (hex_decode text) invalid
    if length bytes == n then ok bytes else err invalid

  -- `StoreHeader::to_json`
  unfoldable pub to_json : WrappedKey → Bytes
  unfolding print_key_id
  to_json w =
      serde.to_vec_pretty (record {
        format = header_format;
        key_id = print_key_id prims w.key_id;
        alg = kdf_alg;
        version = kdf_version;
        m_kib = w.kdf.m_kib;
        t = w.kdf.t;
        p = w.kdf.p;
        salt = hex_encode w.kdf.salt;
        nonce = hex_encode w.nonce;
        ciphertext = hex_encode w.ciphertext;
      })
      ++ 10 ∷ []

  -- The end of `StoreHeader::parse`: the fields, once the format and the derivation are known
  unfoldable pub fields : HeaderJson → Result EncryptionError WrappedKey
  unfolding decode parse_key_id
  fields json = do
    key_id ← or_invalid (parse_key_id prims json.key_id)
    ciphertext ← ok_or (hex_decode json.ciphertext) invalid
    salt ← decode kdf_salt_len json.salt
    nonce ← decode nonce_len json.nonce
    ok (record {
      key_id = key_id;
      kdf = record { m_kib = json.m_kib; t = json.t; p = json.p; salt = salt };
      nonce = nonce;
      ciphertext = ciphertext;
    })

  abbrev of_format : Bytes → ℕ → Result EncryptionError HeaderJson
  of_format bytes format =
      if format == header_format then ok_or (serde.from_slice bytes) invalid else err invalid

  -- `StoreHeader::parse`
  unfoldable pub parse : Bytes → Result EncryptionError WrappedKey
  unfolding fields
  parse bytes = do
    format ← ok_or (serde.format_only bytes) invalid
    json ← of_format bytes format
    if not (text_eq json.alg kdf_alg) || not (json.version == kdf_version)
        then err invalid
        else fields json

-- `StoreHeader` as the rest of the program uses it: how it is written and read, and its key's id
pub record Headers : Type 1 where
  pub Header : Type 0
  pub to_bytes : Header → Bytes
  pub of_bytes : Bytes → Result EncryptionError Header
  pub key_id : Header → Text

-- The header of this program
abbrev pub store_headers : Primitives → Serde → Headers
store_headers prims serde = record {
  Header = WrappedKey;
  to_bytes = to_json prims serde;
  of_bytes = parse prims serde;
  key_id = λ w. print_key_id prims w.key_id;
}
