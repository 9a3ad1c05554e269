-- ===== src/Crypto/Keys.antt =====
-- Keys: their ids, their wrapping with words, and sealed metadata (`DataKey`, `KeyId`, `KdfParams`,
-- `wrap`, `unwrap` and `Sealer` of crates/passalong-core/src/crypto/mod.rs). The crates argon2, hkdf,
-- hmac, aes-gcm and hex are parameters, and what the system's generator gave is an argument.
-- Keys, ids and salts are lists of bytes; the fixed lengths of the source's arrays are in IsKey.
pub mod Wrapping
use passalong.Prelude.{
  ℕ, ◌*◌, Bool, true, false, ◌&&◌, ◌||◌, not, Option, none, some, [], ◌∷◌, ◌++◌, ltb, leb, ◌==◌,
  if◌then◌else◌, length, any, take, Text, text_eq, codes, Result, ok, err, ok_or, ◌>>=◌,
}
use passalong.Model.Digest.{Bytes, Crates, ContentDigest, from_sha256}
use passalong.Model.Id.{ItemId, ContentKey}
use passalong.Store.Errors.{
  CryptoError, kdf_params, key_id_mismatch, format, wrong_words, authentication,
}

abbrev pub key_len : ℕ
key_len = 32

abbrev pub key_id_len : ℕ
key_id_len = 8

abbrev pub max_m_kib : ℕ
max_m_kib = 1048576

abbrev pub max_t : ℕ
max_t = 10

abbrev pub max_p : ℕ
max_p = 16

abbrev info_key_id : Bytes
info_key_id = codes "passalong key id v1"

abbrev info_id : Bytes
info_id = codes "passalong id v1"

abbrev info_meta : Bytes
info_meta = codes "passalong meta v1"

abbrev aad_key : Bytes
aad_key = codes "passalong key v1"

abbrev aad_meta : Bytes
aad_meta = codes "passalong meta v1"

pub record Primitives : Type 0 where
  -- `Hkdf::<Sha256>` to 32 bytes: the key, the salt and the info
  pub hkdf : Bytes → Option Bytes → Bytes → Bytes
  -- `Params::new` accepts the memory, the iterations and the lanes
  pub argon2_accepts : ℕ → ℕ → ℕ → Bool
  -- `hash_password_into`, with the parameters, the salt and the password
  pub argon2_hash : ℕ → ℕ → ℕ → Bytes → Bytes → Option Bytes
  -- AES-256-GCM: the key, the nonce, the associated data and the message
  pub encrypt : Bytes → Bytes → Bytes → Bytes → Option Bytes
  pub decrypt : Bytes → Bytes → Bytes → Bytes → Option Bytes
  -- `Hmac<Sha256>`
  pub hmac : Bytes → Bytes → Bytes
  -- The hex crate
  pub hex_encode : Bytes → Text
  pub hex_decode : Text → Option Bytes

pub record KdfParams : Type 0 where
  pub m_kib : ℕ
  pub t : ℕ
  pub p : ℕ
  pub salt : Bytes

pub record WrappedKey : Type 0 where
  pub key_id : Bytes
  pub kdf : KdfParams
  pub nonce : Bytes
  pub ciphertext : Bytes

pub record SealedMeta : Type 0 where
  pub nonce : Bytes
  pub ciphertext : Bytes

-- `b.is_ascii_uppercase()`
unfoldable pub is_upper : ℕ → Bool
is_upper b = leb b'A' b && leb b b'Z'

-- `key_aad`
unfoldable pub key_aad : Bytes → Bytes
key_aad key_id = aad_key ++ key_id

-- `meta_aad`
unfoldable pub meta_aad : ItemId → Bytes
meta_aad id = aad_meta ++ id.repr

module _ (prims : Primitives) where
  open prims use {hkdf, argon2_accepts, argon2_hash, encrypt, decrypt, hmac, hex_encode, hex_decode}

  -- `DataKey::key_id`
  unfoldable pub key_id : Bytes → Bytes
  key_id key = take key_id_len (hkdf key none info_key_id)

  -- `KeyId::fmt`
  unfoldable pub print_key_id : Bytes → Text
  print_key_id id = hex_encode id

  -- `KeyId::short`
  unfoldable pub short : Bytes → Text
  short id = hex_encode (take 4 id)

  -- `KeyId::parse`
  unfoldable pub parse_key_id : Text → Result CryptoError Bytes
  unfolding is_upper
  parse_key_id text =
      if not (length text == 2 * key_id_len) || any is_upper text
      then err (format text)
      else ok_or (hex_decode text) (format text)

  -- `KdfParams::check`; the messages are left out.
  unfoldable pub check : KdfParams → Result CryptoError Unit
  check kdf =
      if ltb max_m_kib kdf.m_kib
      then err (kdf_params [])
      else if ltb max_t kdf.t
      then err (kdf_params [])
      else if ltb max_p kdf.p
      then err (kdf_params [])
      else if argon2_accepts kdf.m_kib kdf.t kdf.p
      then ok tt
      else err (kdf_params [])

  -- `KdfParams::derive`, of the words' text
  unfoldable pub derive : KdfParams → Text → Result CryptoError Bytes
  unfolding check
  derive kdf words = do
    checked ← check kdf
    ok_or (argon2_hash kdf.m_kib kdf.t kdf.p kdf.salt words) (kdf_params [])

  -- `wrap`, with the nonce that the generator gave
  unfoldable pub wrap :
      Bytes → Text → KdfParams → Result CryptoError Bytes → Result CryptoError WrappedKey
  unfolding derive key_id key_aad
  wrap key words kdf random = do
    wrapping ← derive kdf words
    nonce ← random
    ciphertext ← ok_or (encrypt wrapping nonce (key_aad (key_id key)) key) (format [])
    ok (record { key_id = key_id key; kdf = kdf; nonce = nonce; ciphertext = ciphertext })

  -- The end of `unwrap`: the length and the id of what was decrypted
  unfoldable pub accepted : WrappedKey → Bytes → Result CryptoError Bytes
  unfolding key_id print_key_id
  accepted wrapped plain =
      if not (length plain == key_len)
      then err (format [])
      else if text_eq (key_id plain) wrapped.key_id
      then ok plain
      else err (key_id_mismatch (print_key_id wrapped.key_id))

  -- `unwrap`
  unfoldable pub unwrap : WrappedKey → Text → Result CryptoError Bytes
  unfolding derive key_aad accepted
  unwrap wrapped words = do
    wrapping ← derive wrapped.kdf words
    plain ←
        ok_or (decrypt wrapping wrapped.nonce (key_aad wrapped.key_id) wrapped.ciphertext)
          wrong_words
    accepted wrapped plain

  -- `Sealer`: its key, and the keys that `Sealer::new` derives
  pub record Sealer : Type 0 where
    pub key : Bytes
    pub key_id : Bytes
    pub id_key : Bytes
    pub meta : Bytes

  -- `Sealer::new`
  unfoldable pub new_sealer : Bytes → Sealer
  unfolding key_id
  new_sealer key = record {
    key = key;
    key_id = key_id key;
    id_key = hkdf key none info_id;
    meta = hkdf key none info_meta;
  }

  -- `Sealer::content_key`
  unfoldable pub content_key : Crates → Sealer → ContentDigest → ContentKey
  unfolding from_sha256
  content_key crates s digest = from_sha256 crates (hmac s.id_key digest.sha256)

  -- `Sealer::seal_meta`
  unfoldable pub seal_meta :
      Sealer → ItemId → Bytes → Result CryptoError Bytes → Result CryptoError SealedMeta
  unfolding meta_aad
  seal_meta s id plain random = do
    nonce ← random
    ciphertext ← ok_or (encrypt s.meta nonce (meta_aad id) plain) (format [])
    ok (record { nonce = nonce; ciphertext = ciphertext })

  -- `Sealer::open_meta`
  unfoldable pub open_meta : Sealer → ItemId → SealedMeta → Result CryptoError Bytes
  unfolding meta_aad
  open_meta s id sealed =
      ok_or (decrypt s.meta sealed.nonce (meta_aad id) sealed.ciphertext) authentication
