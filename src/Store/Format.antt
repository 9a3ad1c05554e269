-- ===== src/Store/Format.antt =====
-- What a store on a filesystem uses of the bytes its items are stored as
-- (crates/passalong-core/src/store/format.rs and `Sealer` of
-- crates/passalong-core/src/crypto/sealer.rs): plaintext, or sealed with the store's key.
use passalong.Prelude.{Bool, Option, Text, Result}
use passalong.Model.Digest.{Bytes, ContentDigest}
use passalong.Model.Id.{ItemId, ContentKey}
use passalong.Model.Meta.{ItemMeta}
use passalong.Store.Errors.{StoreError, CryptoError}

-- `MetaError`
pub data MetaError : Type 0 where
  corrupt unopened : Text → MetaError

-- `CopyError`; a failed write is the backend's error.
pub data CopyError : Type 0 where
  read : Text → CopyError
  crypto : CryptoError → CopyError

-- `Written`
pub record Written : Type 0 where
  pub digest : ContentDigest
  pub head : Bytes
  pub salt : Option Bytes

-- A content stream: the bytes that arrive, and the error that ends it where it does not end well.
pub record Content : Type 0 where
  pub bytes : Bytes
  pub failure : Option Text

pub record Format (DateTime : Type 0) : Type 0 where
  -- `sealer.is_some()`
  pub is_sealed : Bool
  -- `Sealer::key_id`
  pub key_id : Text
  -- `Sealer::content_key`, or the digest's own
  pub content_key : ContentDigest → ContentKey
  -- `write_content`: the bytes that it writes, and what it learned
  pub write_content : Content → Bytes × Result CopyError Written
  -- `utf8_prefix`: `std::str::from_utf8` up to the first error
  pub utf8_prefix : Bytes → Text
  pub encode_meta : ItemMeta DateTime → Option Bytes → Result StoreError Bytes
  pub decode_meta : ItemId → Bytes → Result MetaError (ItemMeta DateTime × Option Bytes)
