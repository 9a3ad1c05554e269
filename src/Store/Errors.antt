-- ===== src/Store/Errors.antt =====
-- The errors of a store (`FsError` of crates/passalong-core/src/fs/mod.rs, `EncryptionError` of
-- crates/passalong-core/src/encryption/mod.rs, `StoreError` of
-- crates/passalong-core/src/store/mod.rs). Payloads that only messages use are texts.
use passalong.Prelude.{ℕ, Bool, true, false, Option, List, Text}
use passalong.Model.Id.{ItemId, ModelError}

pub data FsError : Type 0 where
  not_found already_exists permission_denied invalid_path : Text → FsError
  other : Text → Text → FsError

pub data CryptoError : Type 0 where
  random kdf_params key_id_mismatch format : Text → CryptoError
  wrong_words authentication truncated : CryptoError
  word_count : ℕ → ℕ → CryptoError
  unknown_word : ℕ → CryptoError

pub data EncryptionError : Type 0 where
  incomplete : Text → EncryptionError
  crypto : CryptoError → EncryptionError
  key_file header layout : Text → EncryptionError
  key_mismatch : Text → Text → EncryptionError
  rewriting recovering : Option Text → EncryptionError
  no_key key_without_encryption not_encrypted header_missing key_changed already_encrypted :
      EncryptionError

pub data StoreError : Type 0 where
  not_found invalid_prefix unsupported_backend config content backend denied : Text → StoreError
  ambiguous : Text → List ItemId → StoreError
  fs : FsError → StoreError
  corrupt : Text → Text → StoreError
  model : ModelError → StoreError
  encryption : EncryptionError → StoreError

-- `StoreError::NotFound(_) | StoreError::Corrupt { .. }`: an item that is gone or damaged.
unfoldable pub is_gone : StoreError → Bool
is_gone (StoreError.not_found _) = true
is_gone (corrupt _ _) = true
is_gone _ = false

-- `StoreError::Encryption(EncryptionError::Incomplete { .. })`: an item that is still arriving.
unfoldable pub is_incomplete : StoreError → Bool
is_incomplete (encryption (incomplete _)) = true
is_incomplete _ = false

-- `StoreError::Encryption(EncryptionError::Rewriting { .. })`
unfoldable pub is_rewriting : StoreError → Bool
is_rewriting (encryption (rewriting _)) = true
is_rewriting _ = false
