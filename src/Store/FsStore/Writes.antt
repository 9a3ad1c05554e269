-- ===== src/Store/FsStore/Writes.antt =====
-- The guards and `put` of `FsStore`
-- (crates/passalong-core/src/store/fs_store.rs).
use passalong.Prelude.{
  ℕ, Bool, true, false, ◌&&◌, Option, none, some, List, [], ◌∷◌, ◌++◌, take, if◌then◌else◌, Text,
  text_eq, codes, Result, ok, err,
}
use passalong.Model.Hex.{hex_fixed}
use passalong.Model.Time.{Chrono}
use passalong.Model.Digest.{Crates, Bytes}
use passalong.Model.Id.{ItemId, ModelError}
use passalong.Model.Preview.{preview_of}
use passalong.Model.Meta.{ItemMeta, NewItem, ItemKind, finish_keyed}
use passalong.Store.Errors.{
  FsError, StoreError, EncryptionError, fs, content, model, encryption, rewriting, no_key,
  header_missing, key_changed, already_exists,
}
use passalong.Store.Format.{Content, Written, CopyError}
use passalong.Fs.{RemotePath}
use passalong.Fs.Disk.{Node}
use passalong.Fs.Io.{
  Io, pure, fail, lift, attempt, ◌>>=◌, ◌>>◌, lift_fs, open_read, read_to_end, open_write,
  write_all, stat, create_dir_all, rename, remove_dir_all, next_u64,
}
use passalong.Store.FsStore.{
  FsStore, items_dir, tmp_dir, join, item_dir, read_meta, find_by_content_key, item_ids, items_name,
  content_file, meta_file, encryption_dir, rewrite_dir, header_file, max_header_bytes,
}

-- `PutOutcome`
pub record PutOutcome (DateTime : Type 0) : Type 0 where
  pub meta : ItemMeta DateTime
  pub created : Bool

abbrev pub model_err : {A : Type 0} → Result ModelError A → Result StoreError A
model_err (ok a) = ok a
model_err (err e) = err (model e)

abbrev pub copy_err : {A : Type 0} → Result CopyError A → Result StoreError A
copy_err (ok a) = ok a
copy_err (err (CopyError.read e)) = err (content e)
copy_err (err (CopyError.crypto e)) = err (encryption (EncryptionError.crypto e))

-- A folder that must not be there
abbrev pub must_be_absent : Option Node → StoreError → Result StoreError Unit
must_be_absent none e = ok tt
must_be_absent (some _) e = err e

-- A file where the plaintext items go stops a plaintext client.
abbrev pub must_not_be_file : Option Node → StoreError → Result StoreError Unit
must_not_be_file (some (Node.file _)) e = err e
must_not_be_file _ e = ok tt

-- The header's bytes; a failure while they are read is a header that cannot be parsed.
abbrev pub header_read : Result FsError Bytes → Result StoreError Bytes
header_read (ok b) = ok b
header_read (err e) = err (encryption (EncryptionError.header []))

-- `read_header(..)?.ok_or(HeaderMissing)`, for the file's opening
abbrev pub header_opened : Result FsError Bytes → Result StoreError Bytes
header_opened (ok b) = ok b
header_opened (err (FsError.not_found _)) = err (encryption header_missing)
header_opened (err e) = err (fs e)

module _ (chrono : Chrono) (crates : Crates) where
  open chrono use {DateTime}

  -- `check_plain`
  unfoldable pub check_plain : FsStore DateTime → Io StoreError Unit
  check_plain s = do
    rewrite ← lift_fs (stat (rewrite_dir ∷ []))
    lift (must_be_absent rewrite (encryption (rewriting none)))
    folder ← lift_fs (stat (encryption_dir ∷ []))
    lift (must_be_absent folder (encryption no_key))
    items ← lift_fs (stat (items_name ∷ []))
    lift (must_not_be_file items (encryption header_missing))

  -- The check of a sealed store that is guarded
  unfoldable pub check_header : FsStore DateTime → Io StoreError Unit
  check_header s = do
    rewrite ← lift_fs (stat (rewrite_dir ∷ []))
    lift (must_be_absent rewrite (encryption (rewriting none)))
    opened ← attempt (open_read (encryption_dir ∷ header_file ∷ []))
    reader ← lift (header_opened opened)
    read ← attempt (read_to_end (take max_header_bytes reader))
    bytes ← lift (header_read read)
    key_id ← lift (s.parse_header bytes)
    if text_eq key_id s.format.key_id then pure tt else fail (encryption key_changed)

  -- `check_key`
  unfoldable pub check_key : FsStore DateTime → Io StoreError Unit
  unfolding check_plain check_header
  check_key s =
      if s.plain_guard
      then check_plain s
      else if s.guard && s.format.is_sealed
      then check_header s
      else pure tt

  -- The name of a staging directory: `prefix` and a random number
  abbrev pub named : Text → ℕ → Text
  named prefix token = prefix ++ hex_fixed 16 token

  -- The removal of a staging directory: a failure is only logged.
  unfoldable pub cleared : RemotePath → Io StoreError Unit
  cleared path = attempt (remove_dir_all path) >>= λ _. pure tt

  -- An item that was moved is removed; one that is not there went into a re-encryption.
  abbrev pub bury : RemotePath → Result FsError Unit → Io StoreError Unit
  bury grave (ok _) = cleared grave
  bury grave (err _) = pure tt

  -- `retract`; none of its failures is reported.
  unfoldable pub retract : FsStore DateTime → ItemId → Io StoreError Unit
  unfolding item_dir tmp_dir
  retract s id = do
    token ← next_u64
    item ← item_dir chrono s id
    grave ←
        join chrono (tmp_dir chrono s) (named (codes "retracted-" ++ id.repr ++ codes "-") token)
    renamed ← attempt (rename item grave)
    bury grave renamed

  -- `write_content`
  unfoldable pub write_content : FsStore DateTime → Content → RemotePath → Io StoreError Written
  write_content s stream path = do
    lift_fs (open_write path)
    lift_fs (write_all path (s.format.write_content stream).0)
    lift (copy_err (s.format.write_content stream).1)

  -- `write_meta`
  unfoldable pub write_meta :
      FsStore DateTime → RemotePath → ItemMeta DateTime → Option Bytes → Io StoreError Unit
  write_meta s path meta salt = do
    json ← lift (s.format.encode_meta meta salt)
    lift_fs (open_write path)
    lift_fs (write_all path json)

  -- An item published while the key changed is taken back, and the error returned.
  abbrev pub confirmed :
      FsStore DateTime
      → ItemMeta DateTime
      → Result StoreError Unit
      → Io StoreError (PutOutcome DateTime)
  confirmed s meta (ok _) = pure (record { meta = meta; created = true })
  confirmed s meta (err e) = do taken ← attempt {F = StoreError} (retract s meta.id); fail e

  -- What follows the publishing rename. A change of key that began while the item was staged shows
  -- now, and the item is taken back.
  unfoldable pub published :
      FsStore DateTime
      → ItemMeta DateTime
      → Result FsError Unit
      → Io StoreError (PutOutcome DateTime)
  unfolding check_key retract
  published s meta (ok _) = do checked ← attempt (check_key s); confirmed s meta checked
  published s meta (err (already_exists _)) = do
    existing ← read_meta chrono s meta.id
    pure (record { meta = existing; created = false })
  published s meta (err e) = fail (fs e)

  -- `stage_and_publish` behind the search for the same content
  unfoldable pub publish :
      FsStore DateTime
      → NewItem
      → Written
      → Option Text
      → RemotePath
      → Io StoreError (PutOutcome DateTime)
  unfolding write_meta published
  publish s item written preview staging = do
    meta ← lift (
        model_err (
          finish_keyed chrono crates item s.now written.digest (s.format.content_key written.digest)
            preview))
    path ← join chrono staging meta_file
    write_meta s path meta written.salt
    target ← join chrono (items_dir chrono s) meta.id.repr
    renamed ← attempt (rename staging target)
    published s meta renamed

  -- `preview` of crates/passalong-core/src/store/format.rs
  unfoldable pub preview : FsStore DateTime → ItemKind → Bytes → Option Text
  preview s ItemKind.text head = some (preview_of (s.format.utf8_prefix head))
  preview s ItemKind.file head = none

  -- The same content is not stored twice.
  abbrev pub unless_present :
      FsStore DateTime
      → NewItem
      → Written
      → RemotePath
      → Option (ItemMeta DateTime)
      → Io StoreError (PutOutcome DateTime)
  unless_present s item written staging (some existing) =
      pure (record { meta = existing; created = false })
  unless_present s item written staging none =
      publish s item written (preview s item.kind written.head) staging

  -- `stage_and_publish`
  unfoldable pub stage_and_publish :
      FsStore DateTime → NewItem → Content → RemotePath → Io StoreError (PutOutcome DateTime)
  unfolding write_content
  stage_and_publish s item stream staging = do
    path ← join chrono staging content_file
    written ← write_content s stream path
    found ← find_by_content_key chrono s (s.format.content_key written.digest)
    unless_present s item written staging found

  -- A new staging directory
  unfoldable pub make_staging : FsStore DateTime → Io StoreError RemotePath
  make_staging s = do
    token ← next_u64
    staging ← join chrono (tmp_dir chrono s) (named [] token)
    lift_fs (create_dir_all staging)
    pure staging

  -- Work in a staging directory, which is removed whatever came of it.
  unfoldable pub staged : {A : Type 0} → RemotePath → Io StoreError A → Io StoreError A
  unfolding cleared
  staged staging m = do result ← attempt m; cleared staging; lift result

  -- `put`
  unfoldable pub put : FsStore DateTime → NewItem → Content → Io StoreError (PutOutcome DateTime)
  unfolding check_key stage_and_publish make_staging staged
  put s item stream = do
    check_key s
    lift_fs (create_dir_all (items_dir chrono s))
    lift_fs (create_dir_all (tmp_dir chrono s))
    staging ← make_staging s
    staged staging (stage_and_publish s item stream staging)

  -- `list_ids`
  unfoldable pub list_ids : FsStore DateTime → Io StoreError (List ItemId)
  unfolding check_key
  list_ids s = check_key s >> item_ids chrono s
