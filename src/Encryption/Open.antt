-- ===== src/Encryption/Open.antt =====
-- Opening a store as its header says (`Claim`, `opening` and `open_with_key` of
-- crates/passalong-core/src/encryption/open.rs). A store that is opened is the sealer that it is
-- opened with, or none for a plaintext store.
pub mod Table
use passalong.Prelude.{Option, none, some, if◌then◌else◌, Text, text_eq, Result, ok, err}
use passalong.Model.Digest.{Bytes}
use passalong.Store.Errors.{
  StoreError, encryption, no_key, key_without_encryption, header_missing, key_mismatch,
}
use passalong.Store.Errors
use passalong.Fs.Io.{Io, lift, ◌>>=◌}
use passalong.Crypto.Keys.{Primitives, WrappedKey, Sealer, new_sealer, key_id, short}
use passalong.Encryption.Header.{Serde, store_headers}
use passalong.Encryption.Admin.{Layout, classify}

-- `Claim`; when a change started is left out.
pub data Claim : Type 0 where
  plain rewriting broken : Claim
  encrypted : Bytes → Claim

module _ (prims : Primitives) where
  -- The key of a device for a store that is encrypted under the key with an id
  unfoldable pub with_key : Bytes → Option Bytes → Result StoreError (Option (Sealer prims))
  unfolding key_id short new_sealer
  with_key store none = err (encryption no_key)
  with_key store (some key) =
      if text_eq (key_id prims key) store
      then ok (some (new_sealer prims key))
      else err (encryption (key_mismatch (short prims (key_id prims key)) (short prims store)))

  abbrev plaintext : Option Bytes → Result StoreError (Option (Sealer prims))
  plaintext none = ok none
  plaintext (some key) = err (encryption key_without_encryption)

  -- `opening`
  unfoldable pub opening : Claim → Option Bytes → Result StoreError (Option (Sealer prims))
  unfolding with_key
  opening rewriting key = err (encryption (Errors.rewriting none))
  opening broken key = err (encryption header_missing)
  opening plain key = plaintext key
  opening (encrypted store) key = with_key store key

  -- The claim of a layout
  unfoldable pub claim_of : Layout WrappedKey → Claim
  claim_of Layout.rewriting = rewriting
  claim_of Layout.broken = broken
  claim_of Layout.plain = plain
  claim_of (Layout.encrypted header) = encrypted header.key_id

  -- `open_with_key`, up to the making of the store
  unfoldable pub open_with_key : Serde → Option Bytes → Io StoreError (Option (Sealer prims))
  unfolding opening claim_of
  open_with_key serde key =
      classify (store_headers prims serde) >>= λ layout. lift (opening (claim_of layout) key)
