-- ===== src/Encryption/HeaderFile.antt =====
-- Reading and writing a store header, and the stop file (`read_header_in`, `write_header_in` and
-- `write_stop_file` of crates/passalong-core/src/encryption/header.rs). The names that the source joins
-- to paths are constants that `RemotePath` accepts.
use passalong.Prelude.{Option, none, some, [], ◌∷◌, ◌++◌, take, codes, Result, ok, err}
use passalong.Model.Digest.{Bytes}
use passalong.Store.Errors.{FsError, StoreError, EncryptionError, fs, encryption, layout}
use passalong.Encryption.Header.{Headers, invalid}
use passalong.Fs.{RemotePath}
use passalong.Fs.Disk.{Node, dir}
use passalong.Fs.Io.{
  Io, pure, fail, lift, attempt, ◌>>=◌, ◌>>◌, lift_fs, open_read, read_to_end, open_write,
  write_all, stat, create_dir_all,
}
use passalong.Store.FsStore.{header_file, items_name, max_header_bytes}

-- `STOP_TEXT`
abbrev pub stop_text : Bytes
stop_text = codes "This store is encrypted. Upgrade to passalong 0.2.0 or later." ++ 10 ∷ []

abbrev pub as_encryption : {A : Type 0} → Result EncryptionError A → Result StoreError A
as_encryption (ok a) = ok a
as_encryption (err e) = err (encryption e)

abbrev pub read_failed : {A : Type 0} → Result FsError A → Result StoreError A
read_failed (ok a) = ok a
read_failed (err e) = err (encryption invalid)

module _ (headers : Headers) where
  open headers use {Header, to_bytes, of_bytes}

  -- Once the file is opened
  abbrev pub read_opened : Result FsError Bytes → Io StoreError (Option Header)
  read_opened (ok reader) = do
    read ← attempt (read_to_end (take max_header_bytes reader))
    bytes ← lift (read_failed read)
    parsed ← lift (as_encryption (of_bytes bytes))
    pure (some parsed)
  read_opened (err (FsError.not_found _)) = pure none
  read_opened (err e) = fail (fs e)

  -- `read_header_in`
  unfoldable pub read_header_in : RemotePath → Io StoreError (Option Header)
  read_header_in path = do
    opened ← attempt (open_read (path ++ header_file ∷ []))
    read_opened opened

  -- `write_header_in`
  unfoldable pub write_header_in : RemotePath → Header → Io StoreError Unit
  write_header_in path header = do
    lift_fs (create_dir_all path)
    lift_fs (open_write (path ++ header_file ∷ []))
    lift_fs (write_all (path ++ header_file ∷ []) (to_bytes header))

abbrev pub must_not_be_dir : Option Node → Result StoreError Unit
must_not_be_dir (some dir) = err (encryption (layout []))
must_not_be_dir _ = ok tt

-- `write_stop_file`
unfoldable pub write_stop_file : Io StoreError Unit
write_stop_file = do
  found ← lift_fs (stat (items_name ∷ []))
  lift (must_not_be_dir found)
  lift_fs (open_write (items_name ∷ []))
  lift_fs (write_all (items_name ∷ []) stop_text)
