-- ===== src/Encryption/Header/RoundTrip.antt =====
-- Reading a written header.
use passalong.Prelude.{ℕ, ◌*◌, ◌≡◌, false, some, [], ◌∷◌, ◌++◌, length, any, text_eq, ok, arith}
use passalong.Model.Digest.{Bytes}
use passalong.Crypto.Keys.{Primitives, WrappedKey, key_id_len, is_upper, parse_key_id, print_key_id}
use passalong.Encryption.Header.{
  Serde, HeaderJson, kdf_alg, kdf_version, kdf_salt_len, nonce_len, to_json, parse, fields, decode,
}

-- The documented behaviour of serde_json and of the hex crate: what is written is read as it was, also
-- with a line feed after it, and every byte is two digits, in lower case.
pub record HeaderLaws (prims : Primitives) (serde : Serde) : Type 0 where
  pub format_only-to_vec_pretty :
      (json : HeaderJson)
      → serde.format_only (serde.to_vec_pretty json ++ 10 ∷ []) ≡ some json.format
  pub from_slice-to_vec_pretty :
      (json : HeaderJson) → serde.from_slice (serde.to_vec_pretty json ++ 10 ∷ []) ≡ some json
  pub decode_encode : (b : Bytes) → prims.hex_decode (prims.hex_encode b) ≡ some b
  pub length_encode : (b : Bytes) → length (prims.hex_encode b) ≡ 2 * length b
  pub encode_lower : (b : Bytes) → any is_upper (prims.hex_encode b) ≡ false

-- The lengths of the source's arrays
pub record HasLengths (w : WrappedKey) : Type 0 where
  pub key_id : length w.key_id ≡ key_id_len
  pub salt : length w.kdf.salt ≡ kdf_salt_len
  pub nonce : length w.nonce ≡ nonce_len

module _ (prims : Primitives) (serde : Serde) (laws : HeaderLaws prims serde) where
  -- The text of a key's id is read as that id.
  parse_key_id-print :
      (id : Bytes) → length id ≡ key_id_len → parse_key_id prims (print_key_id prims id) ≡ ok id
  unfolding parse_key_id print_key_id
  parse_key_id-print id h =
      ground (arith, h, laws.decode_encode id, laws.length_encode id, laws.encode_lower id)

  decode-encode :
      (n : ℕ) (b : Bytes) → length b ≡ n → decode prims serde n (prims.hex_encode b) ≡ ok b
  unfolding decode
  decode-encode n b h = ground (arith, h, laws.decode_encode b)

  module _ (w : WrappedKey) (h : HasLengths w) where
    -- The JSON of the header
    abbrev json : HeaderJson
    json = record {
      format = 1;
      key_id = print_key_id prims w.key_id;
      alg = kdf_alg;
      version = kdf_version;
      m_kib = w.kdf.m_kib;
      t = w.kdf.t;
      p = w.kdf.p;
      salt = prims.hex_encode w.kdf.salt;
      nonce = prims.hex_encode w.nonce;
      ciphertext = prims.hex_encode w.ciphertext;
    }

    fields-json : fields prims serde json ≡ ok w
    unfolding fields
    fields-json = ground (
      arith,
      parse_key_id-print w.key_id h.key_id,
      decode-encode kdf_salt_len w.kdf.salt h.salt,
      decode-encode nonce_len w.nonce h.nonce,
      laws.decode_encode w.ciphertext,
    )

    -- `StoreHeader::parse` reads what `to_json` writes as the same header: the key's id, the derivation's
    -- parameters, the nonce and the ciphertext.
    pub parse-to_json : parse prims serde (to_json prims serde w) ≡ ok w
    unfolding parse to_json text_eq
    parse-to_json = ground (
      arith,
      laws.format_only-to_vec_pretty json,
      laws.from_slice-to_vec_pretty json,
      fields-json,
    )
