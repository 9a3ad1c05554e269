-- ===== src/Encryption/HeaderChange.antt =====
-- Changes to the store header alone (crates/passalong-core/src/encryption/header_change.rs).
pub mod Slots
pub mod Install
pub mod Revert
pub mod Attempts
pub mod Lost
use passalong.Prelude.{
  Bool, true, false, Option, none, some, List, [], ◌∷◌, if◌then◌else◌, not, Text, text_eq, Result,
  ok, err,
}
use passalong.Model.Digest.{Bytes}
use passalong.Store.Errors.{
  StoreError, CryptoError, EncryptionError, encryption, layout, header_missing,
}
use passalong.Fs.{RemotePath}
use passalong.Fs.Disk.{Node}
use passalong.Fs.Io.{Io, pure, fail, lift, attempt, ◌>>=◌, ◌>>◌, lift_fs, stat, rename}
use passalong.Encryption.Header.{Headers}
use passalong.Encryption.HeaderFile.{read_header_in}
use passalong.Encryption.Admin.{header_path, is_there, stop_old_clients, restore_items}
use passalong.Encryption.Journal.{
  HeaderChange, HeaderChangeKind, set_up, fresh_start, words, new_header, old_header, previous,
  under_rewrite, publish,
}
use passalong.Encryption.Journal.Release.{release_lock}

abbrev pub must_be_free : Option Node → Result StoreError Unit
must_be_free none = ok tt
must_be_free (some _) = err (encryption (layout []))

-- The current header moves into the lock, whose place for it must be free.
unfoldable pub put_aside : Io StoreError Unit
put_aside = do
  replaced ← lift_fs (stat (under_rewrite previous))
  lift (must_be_free replaced)
  lift_fs (rename header_path (under_rewrite previous))

-- The new header takes the current one's place.
unfoldable pub swap : Io StoreError Unit
unfolding put_aside
swap = do
  current ← lift_fs (stat header_path)
  if is_there current then put_aside else pure tt
  lift_fs (rename (under_rewrite new_header) header_path)

-- `install`
unfoldable pub install : Io StoreError Unit
unfolding swap
install = do
  pending ← lift_fs (stat (under_rewrite new_header))
  if is_there pending then swap else pure tt

-- `kind != HeaderChangeKind::Words`
abbrev pub changes_items : HeaderChangeKind → Bool
changes_items words = false
changes_items _ = true

-- `complete`
unfoldable pub complete : HeaderChangeKind → Io StoreError Unit
unfolding install release_lock stop_old_clients
complete kind = do if changes_items kind then stop_old_clients else pure tt; install; release_lock

-- `rename` where the target is free and the source is there
unfoldable pub take_back : RemotePath → RemotePath → Io StoreError Unit
take_back from to = do
  target ← lift_fs (stat to)
  if is_there target
      then pure tt
      else (lift_fs (stat from) >>= λ source.
          if is_there source then lift_fs (rename from to) else pure tt)

-- The copy of the old header, where there is no current one
unfoldable pub restore_copy : Io StoreError Unit
restore_copy = do
  current ← lift_fs (stat header_path)
  if is_there current then pure tt else lift_fs (rename (under_rewrite old_header) header_path)

-- The header's part of `revert`
unfoldable pub revert_header : Io StoreError Unit
unfolding take_back
revert_header = do
  take_back header_path (under_rewrite new_header)
  take_back (under_rewrite previous) header_path

-- What `revert` does for the kind of change
abbrev pub revert_kind : HeaderChangeKind → Io StoreError Unit
revert_kind words = restore_copy
revert_kind _ = restore_items

-- `revert`
unfoldable pub revert : HeaderChange → Io StoreError Unit
unfolding revert_header restore_copy restore_items release_lock
revert change = do revert_header; revert_kind change.kind; release_lock

module _ (headers : Headers) where
  open headers use {Header, key_id}

  abbrev pub with_old : Option Header → List (Text × Header)
  with_old none = []
  with_old (some old) = (old_header, old) ∷ []

  -- `run_change`, of the journal's text
  unfoldable pub run_change : HeaderChangeKind → Bytes → Header → Option Header → Io StoreError Unit
  unfolding publish complete
  run_change kind json header old = do
    publish headers json ((new_header, header) ∷ with_old old)
    complete kind

  -- The header that a change puts in place: the one in the lock, or else the current one
  abbrev pub header_or_current : Option Header → Io StoreError (Option Header)
  header_or_current (some header) = pure (some header)
  header_or_current none = read_header_in headers header_path

  abbrev pub or_missing : Option Header → Result StoreError Header
  or_missing none = err (encryption header_missing)
  or_missing (some header) = ok header

  abbrev pub must_be_saved : Bool → Result StoreError Unit
  must_be_saved true = ok tt
  must_be_saved false = err (encryption (layout []))

  abbrev pub unlocked : {Key : Type 0} → Result CryptoError Key → Result StoreError Key
  unlocked (ok key) = ok key
  unlocked (err e) = err (encryption (EncryptionError.crypto e))

  -- `finish_change`, with what `unwrap` makes of a header and the words
  unfoldable pub finish_change :
      {Key : Type 0} → (Header → Result CryptoError Key) → HeaderChange → Io StoreError Key
  unfolding complete
  finish_change unwrap change = do
    pending ← read_header_in headers (under_rewrite new_header)
    found ← header_or_current pending
    header ← lift (or_missing found)
    lift (must_be_saved (text_eq (key_id header) change.key))
    key ← lift (unlocked (unwrap header))
    complete change.kind
    pure key
