-- ===== src/Encryption/Admin.antt =====
-- The layout of an encrypted store and its items' folder (`classify`, `stop_old_clients`,
-- `clear_items`, `move_items_to_plain` and `restore_items` of
-- crates/passalong-core/src/encryption/admin.rs, and `fold` of
-- crates/passalong-core/src/encryption/rewrite.rs).
use passalong.Prelude.{
  Bool, true, false, ◌&&◌, not, Option, none, some, List, [], ◌∷◌, if◌then◌else◌, is_empty, Text,
  codes, Result, ok, err,
}
use passalong.Store.Errors.{FsError, StoreError, fs, encryption, layout, already_exists}
use passalong.Fs.{RemotePath, join, parent}
use passalong.Fs.Disk.{Node, dir, file, DirEntry}
use passalong.Fs.Io.{
  Io, pure, fail, lift, attempt, ◌>>=◌, ◌>>◌, lift_fs, map_err, stat, create_dir_all, rename,
  remove_dir_all, remove_file, read_dir,
}
use passalong.Store.FsStore.{items_name, tmp_name, encryption_dir}
use passalong.Encryption.Header.{Headers}
use passalong.Encryption.HeaderFile.{read_header_in, write_stop_file}
use passalong.Encryption.Journal.{lock_path}

abbrev pub plain_dir : Text
plain_dir = codes "plain"

-- `items_path`
abbrev pub items_path : RemotePath
items_path = items_name ∷ []

-- `plain_path`
abbrev pub plain_path : RemotePath
plain_path = plain_dir ∷ []

-- `plain_path().join(STOP_FILE)`
abbrev pub kept_path : RemotePath
kept_path = plain_dir ∷ items_name ∷ []

-- `plain_tmp`
abbrev pub plain_tmp : RemotePath
plain_tmp = tmp_name ∷ []

-- `encryption_dir()`
abbrev pub header_path : RemotePath
header_path = encryption_dir ∷ []

-- `is_some_and(|meta| meta.is_dir)`
abbrev pub is_folder : Option Node → Bool
is_folder (some dir) = true
is_folder _ = false

-- `is_some_and(|meta| !meta.is_dir)`
abbrev pub is_plain_file : Option Node → Bool
is_plain_file (some (file _)) = true
is_plain_file _ = false

abbrev pub is_there : Option Node → Bool
is_there none = false
is_there (some _) = true

-- `Layout`; when a change started is left out.
pub data Layout (Header : Type 0) : Type 0 where
  rewriting broken plain : Layout Header
  encrypted : Header → Layout Header

abbrev pub by_header : {Header : Type 0} → Bool → Option Header → Layout Header
by_header items_folder none = broken
by_header true (some header) = broken
by_header false (some header) = encrypted header

module _ (headers : Headers) where
  open headers use {Header}

  abbrev pub with_folder : Bool → Bool → Io StoreError (Layout Header)
  with_folder items_there items_folder = do
    folder ← lift_fs (stat header_path)
    if is_there folder
        then (read_header_in headers header_path >>= λ header. pure (by_header items_folder header))
        else pure (if items_there && not items_folder then broken else plain)

  -- `classify`
  unfoldable pub classify : Io StoreError (Layout Header)
  classify = do
    lock ← lift_fs (stat lock_path)
    if is_there lock
        then pure rewriting
        else (lift_fs (stat items_path) >>= λ items. with_folder (is_there items) (is_folder items))

-- A move of one entry of a folder: one that the target has already is dropped.
abbrev pub moved_or_dropped : RemotePath → Result FsError Unit → Io StoreError Unit
moved_or_dropped source (ok u) = pure tt
moved_or_dropped source (err (already_exists _)) = lift_fs (remove_dir_all source)
moved_or_dropped source (err e) = fail (fs e)

unfoldable pub move_entry : RemotePath → RemotePath → DirEntry → Io StoreError Unit
move_entry from to e = do
  source ← lift (map_err (join from e.name))
  target ← lift (map_err (join to e.name))
  renamed ← attempt (rename source target)
  moved_or_dropped source renamed

-- The loop of `fold` and of `move_items_to_plain`
unfoldable pub move_entries : RemotePath → RemotePath → List DirEntry → Io StoreError Unit
unfolding move_entry
move_entries from to [] = pure tt
move_entries from to (e ∷ es) = move_entry from to e >> move_entries from to es

-- Entry by entry, and then the folder itself
unfoldable pub merge : RemotePath → RemotePath → Io StoreError Unit
unfolding move_entries
merge from to = do
  entries ← lift_fs (read_dir from)
  move_entries from to entries
  lift_fs (remove_dir_all from)

-- `if let Some(parent) = to.parent()`
abbrev pub make_parent : Option RemotePath → Io StoreError Unit
make_parent none = pure tt
make_parent (some p) = lift_fs (create_dir_all p)

-- `fold`
unfoldable pub fold : RemotePath → RemotePath → Io StoreError Unit
unfolding merge parent
fold from to = do
  found ← lift_fs (stat to)
  if is_there found then merge from to else (make_parent (parent to) >> lift_fs (rename from to))

-- `move_items_to_plain`
unfoldable pub move_items_to_plain : Io StoreError Unit
unfolding merge
move_items_to_plain = do
  items ← lift_fs (stat items_path)
  if not (is_folder items)
      then pure tt
      else (lift_fs (create_dir_all plain_path) >> lift_fs (stat kept_path) >>= λ kept.
          if is_there kept
          then merge items_path kept_path
          else lift_fs (rename items_path kept_path))

-- `clear_items`
unfoldable pub clear_items : Io StoreError Unit
unfolding move_items_to_plain
clear_items = do
  items ← lift_fs (stat items_path)
  if not (is_folder items)
      then pure tt
      else (lift_fs (read_dir items_path) >>= λ entries.
          if is_empty entries then lift_fs (remove_dir_all items_path) else move_items_to_plain)

-- A stop file that a folder is in the way of is written once more, when the folder is gone.
abbrev pub stop_again : Result StoreError Unit → Io StoreError Unit
stop_again (ok u) = pure tt
stop_again (err (encryption (layout _))) = clear_items >> write_stop_file
stop_again (err e) = fail e

-- `stop_old_clients`
unfoldable pub stop_old_clients : Io StoreError Unit
unfolding clear_items write_stop_file
stop_old_clients = do
  clear_items
  written ← attempt write_stop_file
  stop_again written
  lift_fs (remove_dir_all plain_tmp)

-- The end of `restore_items`: an empty `plain/` is removed.
unfoldable pub remove_empty_plain : Io StoreError Unit
remove_empty_plain = do
  folder ← lift_fs (stat plain_path)
  if is_there folder
      then (lift_fs (read_dir plain_path) >>= λ entries.
          if is_empty entries then lift_fs (remove_dir_all plain_path) else pure tt)
      else pure tt

-- `restore_items`
unfoldable pub restore_items : Io StoreError Unit
unfolding fold remove_empty_plain
restore_items = do
  items ← lift_fs (stat items_path)
  if is_plain_file items then lift_fs (remove_file items_path) else pure tt
  kept ← lift_fs (stat kept_path)
  if is_there kept then fold kept_path items_path else pure tt
  remove_empty_plain
