-- ===== src/Store/FsStore/Changes.antt =====
-- The deletion of an item and its import from another store (`delete`, `id_for` and `import` of
-- crates/passalong-core/src/store/fs_store.rs).
use passalong.Prelude.{
  ◌||◌, not, Option, none, some, [], ◌++◌, ◌==◌, if◌then◌else◌, Text, text_eq, codes, Result, ok,
  err,
}
use passalong.Model.Time.{Chrono}
use passalong.Model.Digest.{Crates, Bytes, ContentDigest, sha256_hex}
use passalong.Model.Id.{ItemId, ContentKey, ModelError, id_eq}
use passalong.Model.Id
use passalong.Model.Meta.{ItemMeta}
use passalong.Store.Errors.{FsError, StoreError, fs, corrupt, already_exists}
use passalong.Store.Format.{Content, Written}
use passalong.Fs.{RemotePath}
use passalong.Fs.Disk.{Node}
use passalong.Fs.Io.{
  Io, pure, lift, attempt, ◌>>=◌, ◌>>◌, lift_fs, stat, create_dir_all, rename, remove_dir_all,
  next_u64,
}
use passalong.Store.FsStore.{
  FsStore, items_dir, tmp_dir, join, item_dir, read_meta, gone_as_not_found, content_file,
  meta_file,
}
use passalong.Store.FsStore.Writes.{
  model_err, check_key, named, write_content, write_meta, make_staging, staged,
}

module _ (chrono : Chrono) (crates : Crates) where
  open chrono use {DateTime}

  abbrev pub gone : {A : Type 0} → ItemId → Result FsError A → Result StoreError A
  gone id (ok a) = ok a
  gone id (err (FsError.not_found _)) = err (StoreError.not_found id.repr)
  gone id (err e) = err (fs e)

  -- `delete`
  unfoldable pub delete : FsStore DateTime → ItemId → Io StoreError (ItemMeta DateTime)
  unfolding check_key gone_as_not_found
  delete s id = do
    check_key chrono crates s
    found ← attempt (read_meta chrono s id)
    meta ← lift (gone_as_not_found id found)
    lift_fs (create_dir_all (tmp_dir chrono s))
    token ← next_u64
    grave ←
        join chrono (tmp_dir chrono s)
          (named chrono crates (codes "deleted-" ++ id.repr ++ codes "-") token)
    item ← item_dir chrono s id
    renamed ← attempt (rename item grave)
    lift (gone id renamed)
    lift_fs (remove_dir_all grave)
    pure meta

  -- The item that `import` makes of another store's: its content must be what its metadata says.
  unfoldable pub imported :
      ItemId → ItemMeta DateTime → Written → Result StoreError (ItemMeta DateTime)
  imported id meta written =
      if not (text_eq (sha256_hex crates written.digest) meta.sha256)
        || not (written.digest.size == meta.size)
      then err (corrupt meta.id.repr [])
      else ok (record meta { id = id })

  abbrev pub already_there : {A : Type 0} → A → Result FsError Unit → Result StoreError A
  already_there copy (ok _) = ok copy
  already_there copy (err (already_exists _)) = ok copy
  already_there copy (err e) = err (fs e)

  -- `id_for`; `decode_array` reads the digest's hexadecimal digits.
  unfoldable pub id_for :
      (Text → Option Bytes) → FsStore DateTime → ItemMeta DateTime → Result StoreError ItemId
  id_for decode_array s meta = elim (decode_array meta.sha256) [
    | none ↦ err (corrupt meta.id.repr [])
    | some sha256 ↦
        let digest : ContentDigest = record { sha256 = sha256; size = meta.size } in
        model_err (Id.new chrono meta.created_at (s.format.content_key digest))
  ]

  -- The body of `import` in its staging directory
  unfoldable pub stage_import :
      FsStore DateTime
      → ItemId
      → ItemMeta DateTime
      → Content
      → RemotePath
      → RemotePath
      → Io StoreError (ItemMeta DateTime)
  unfolding write_content write_meta imported
  stage_import s id meta stream target staging = do
    content_path ← join chrono staging content_file
    written ← write_content chrono crates s stream content_path
    copy ← lift (imported id meta written)
    meta_path ← join chrono staging meta_file
    write_meta chrono crates s meta_path copy written.salt
    renamed ← attempt (rename staging target)
    lift (already_there copy renamed)

  -- An item already stored under the id is left as it is.
  unfoldable pub import_new :
      FsStore DateTime
      → ItemId
      → ItemMeta DateTime
      → Content
      → RemotePath
      → Option Node
      → Io StoreError (ItemMeta DateTime)
  unfolding stage_import make_staging staged
  import_new s id meta stream target (some _) = read_meta chrono s id
  import_new s id meta stream target none = do
    lift_fs (create_dir_all (items_dir chrono s))
    lift_fs (create_dir_all (tmp_dir chrono s))
    staging ← make_staging chrono crates s
    staged chrono crates staging (stage_import s id meta stream target staging)

  -- `import`
  unfoldable pub import_item :
      (Text → Option Bytes)
      → FsStore DateTime
      → ItemMeta DateTime
      → Content
      → Io StoreError (ItemMeta DateTime)
  unfolding id_for import_new
  import_item decode_array s meta stream = do
    id ← lift (id_for decode_array s meta)
    target ← item_dir chrono s id
    found ← lift_fs (stat target)
    import_new s id meta stream target found
