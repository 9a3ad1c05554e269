-- ===== src/Store/FsStore.antt =====
-- A store on a filesystem (`FsStore` of crates/passalong-core/src/store/fs_store.rs): its folders and
-- the operations that only read. The logging is left out.
pub mod Writes
pub mod Changes
pub mod Reads
pub mod Items
pub mod Renames
pub mod Staging
pub mod Others
pub mod Listing
pub mod Meaning
pub mod Resolving
pub mod Complete
use passalong.Prelude.{
  ℕ, ◌+◌, ◌*◌, Bool, true, false, ◌&&◌, ◌||◌, not, Option, none, some, List, [], ◌∷◌, ◌++◌, ◌==◌,
  any, keep, take, length, ltb, if◌then◌else◌, Text, text_eq, codes, Result, ok, err,
}
use passalong.Model.Time.{Chrono}
use passalong.Model.Digest.{Bytes, ContentDigest}
use passalong.Model.Id
use passalong.Model.Id.{ItemId, ContentKey, id_ltb}
use passalong.Model.Meta.{ItemMeta}
use passalong.Model.FileName.{trim}
use mathlib.Core.List.{reverse}
use passalong.Retention.{sort_newest_first}
use passalong.Store.Errors.{
  FsError, StoreError, EncryptionError, fs, corrupt, encryption, incomplete, ambiguous,
  invalid_prefix, is_gone, is_incomplete, rewriting, no_key, header_missing, key_changed,
}
use passalong.Store.Format.{Format, MetaError}
use passalong.Fs
use passalong.Fs.{RemotePath}
use passalong.Fs.Disk.{Node, dir, file, DirEntry}
use passalong.Fs.Io.{
  Io, pure, fail, lift, attempt, ◌>>=◌, ◌>>◌, lift_fs, map_err, read_dir, open_read, read_to_end,
  stat,
}

abbrev pub items_name : Text
items_name = codes "items"

abbrev pub tmp_name : Text
tmp_name = codes "tmp"

abbrev pub sealed_name : Text
sealed_name = codes "v2"

abbrev pub content_file : Text
content_file = codes "content"

abbrev pub meta_file : Text
meta_file = codes "meta.json"

abbrev pub encryption_dir : Text
encryption_dir = codes "encryption"

abbrev pub rewrite_dir : Text
rewrite_dir = codes ".rewrite"

abbrev pub header_file : Text
header_file = codes "header.json"

abbrev pub min_prefix_len : ℕ
min_prefix_len = 4

abbrev pub incomplete_grace_secs : ℕ
incomplete_grace_secs = 5 * 60

abbrev pub max_meta_bytes : ℕ
max_meta_bytes = 64 * 1024

abbrev pub max_header_bytes : ℕ
max_header_bytes = 16 * 1024

-- `FsStore`: the format has its sealer. The clock stands still during an operation, and
-- `parse_header` is `StoreHeader::parse`, of which the key's id is used.
pub record FsStore (DateTime : Type 0) : Type 0 where
  pub format : Format DateTime
  pub now : DateTime
  pub guard : Bool
  pub plain_guard : Bool
  pub parse_header : Bytes → Result StoreError Text

-- `iter().filter_map(|e| ItemId::parse(&e.name).ok())` over the directories
unfoldable pub parsed_ids : List DirEntry → List ItemId
parsed_ids [] = []
parsed_ids (e ∷ es) =
    let rest = parsed_ids es in
    if e.is_dir then elim (Id.parse e.name) [ ok id ↦ id ∷ rest | err _ ↦ rest ] else rest

-- The error of a failed read that is answered by nothing: a folder that does not exist.
unfoldable pub or_empty : {A : Type 0} → Result FsError (List A) → Result StoreError (List A)
or_empty (ok xs) = ok xs
or_empty (err (FsError.not_found _)) = ok []
or_empty (err e) = err (fs e)

-- `starts_with`
unfoldable pub starts_with : Text → Text → Bool
starts_with s [] = true
starts_with [] (b ∷ t) = false
starts_with (a ∷ s) (b ∷ t) = a == b && starts_with s t

-- `to_ascii_lowercase`
unfoldable pub to_lower : ℕ → ℕ
to_lower c = if ltb 64 c && ltb c 91 then c + 32 else c

unfoldable pub lowercase : Text → Text
unfolding to_lower
lowercase [] = []
lowercase (c ∷ s) = to_lower c ∷ lowercase s

-- Whether an id is what the needle means: a full id has a dash, a prefix of a content key has none.
unfoldable pub matches : Text → ItemId → Bool
unfolding starts_with
matches needle id = starts_with (if any (λ c. c == b'-') needle then id.repr else id.key) needle

-- The answer of `resolve` for the ids that match.
unfoldable pub only_one : Text → List ItemId → Result StoreError ItemId
only_one input [] = err (StoreError.not_found input)
only_one input (id ∷ []) = ok id
only_one input candidates = err (ambiguous input candidates)

-- `StoreError::Fs(FsError::NotFound(_))`
unfoldable pub is_missing : StoreError → Bool
is_missing (fs (FsError.not_found _)) = true
is_missing _ = false

-- `StoreError::Corrupt { .. }`
unfoldable pub is_corrupt : StoreError → Bool
is_corrupt (corrupt _ _) = true
is_corrupt _ = false

-- What a listing skips: an item without `meta.json`, one still arriving and a corrupt one.
unfoldable pub is_skipped : StoreError → Bool
unfolding is_missing is_corrupt is_incomplete
is_skipped e = is_missing e || is_incomplete e || is_corrupt e

-- The error of an item's metadata that a caller sees when the item is gone
unfoldable pub gone_as_not_found : {A : Type 0} → ItemId → Result StoreError A → Result StoreError A
unfolding is_missing
gone_as_not_found id (ok a) = ok a
gone_as_not_found id (err e) = if is_missing e then err (StoreError.not_found id.repr) else err e

-- A failure while the metadata is read; the message is left out.
unfoldable pub or_corrupt : {A : Type 0} → ItemId → Result FsError A → Result StoreError A
or_corrupt id (ok a) = ok a
or_corrupt id (err e) = err (corrupt id.repr [])

module _ (chrono : Chrono) where
  open chrono use {DateTime, before, checked_sub}

  -- `items_dir`
  unfoldable pub items_dir : FsStore DateTime → RemotePath
  items_dir s = if s.format.is_sealed then sealed_name ∷ items_name ∷ [] else items_name ∷ []

  -- `tmp_dir`
  unfoldable pub tmp_dir : FsStore DateTime → RemotePath
  tmp_dir s = if s.format.is_sealed then sealed_name ∷ tmp_name ∷ [] else tmp_name ∷ []

  -- `RemotePath::join` with the error of the store
  abbrev pub join : RemotePath → Text → Io StoreError RemotePath
  join path name = lift (map_err (Fs.join path name))

  -- `item_dir`
  unfoldable pub item_dir : FsStore DateTime → ItemId → Io StoreError RemotePath
  unfolding items_dir
  item_dir s id = join (items_dir s) id.repr

  -- `unreadable`: a recent sealed item may still be arriving.
  unfoldable pub unreadable : FsStore DateTime → ItemId → Text → StoreError
  unreadable s id reason = elim (checked_sub s.now incomplete_grace_secs) [
    | some limit ↦
        if before limit (Id.timestamp chrono id)
        then encryption (incomplete id.repr)
        else corrupt id.repr reason
    | none ↦ corrupt id.repr reason
  ]

  -- `item_ids`: every valid id, newest first
  unfoldable pub item_ids : FsStore DateTime → Io StoreError (List ItemId)
  unfolding parsed_ids or_empty
  item_ids s = do
    entries ← attempt (read_dir (items_dir s))
    listed ← lift (or_empty entries)
    pure (sort_newest_first (λ id. id) (parsed_ids listed))

  unfoldable pub decoded :
      FsStore DateTime → ItemId → Bytes → Result StoreError (ItemMeta DateTime × Option Bytes)
  unfolding unreadable
  decoded s id bytes = elim (s.format.decode_meta id bytes) [
    | ok found ↦ ok found
    | err (MetaError.corrupt reason) ↦ err (corrupt id.repr reason)
    | err (MetaError.unopened reason) ↦ err (unreadable s id reason)
  ]

  -- `read_item`
  unfoldable pub read_item :
      FsStore DateTime → ItemId → Io StoreError (ItemMeta DateTime × Option Bytes)
  unfolding item_dir decoded or_corrupt
  read_item s id = do
    item ← item_dir s id
    path ← join item meta_file
    reader ← lift_fs (open_read path)
    buf ← attempt (read_to_end (take max_meta_bytes reader))
    bytes ← lift (or_corrupt id buf)
    lift (decoded s id bytes)

  -- `read_meta`
  unfoldable pub read_meta : FsStore DateTime → ItemId → Io StoreError (ItemMeta DateTime)
  unfolding read_item
  read_meta s id = do found ← read_item s id; pure found.0

  -- `get_meta`
  unfoldable pub get_meta : FsStore DateTime → ItemId → Io StoreError (ItemMeta DateTime)
  unfolding read_meta gone_as_not_found
  get_meta s id = do found ← attempt (read_meta s id); lift (gone_as_not_found id found)

  -- `exists`
  unfoldable pub exists_item : FsStore DateTime → ItemId → Io StoreError Bool
  unfolding item_dir
  exists_item s id = do
    item ← item_dir s id
    path ← join item meta_file
    found ← lift_fs (stat path)
    pure (elim found [ none ↦ false | some _ ↦ true ])

  -- The loop of `list_after`: ids come newest first, so the first that is not after the given one ends it.
  unfoldable pub list_loop :
      FsStore DateTime → Option ItemId → List ItemId → Io StoreError (List (ItemMeta DateTime))
  unfolding read_meta is_skipped
  list_loop s after [] = pure []
  list_loop s after (id ∷ ids) =
      let rest = list_loop s after ids in
      if elim after [ none ↦ false | some a ↦ not (id_ltb a id) ]
      then pure []
      else attempt (read_meta s id) >>= λ found. elim found [
        | ok meta ↦ rest >>= λ metas. pure (meta ∷ metas)
        | err e ↦ if is_skipped e then rest else fail e
      ]

  -- `list_after`
  unfoldable pub list_after :
      FsStore DateTime → Option ItemId → Io StoreError (List (ItemMeta DateTime))
  unfolding list_loop item_ids
  list_after s after = item_ids s >>= list_loop s after

  -- The loop of `find_by_content_key`, over the ids with that key, oldest first
  unfoldable pub find_loop :
      FsStore DateTime → List ItemId → Io StoreError (Option (ItemMeta DateTime))
  unfolding read_meta is_skipped
  find_loop s [] = pure none
  find_loop s (id ∷ ids) =
      let rest = find_loop s ids in
      attempt (read_meta s id) >>= λ found. elim found [
        | ok meta ↦ pure (some meta)
        | err e ↦ if is_skipped e then rest else fail e
      ]

  -- `find_by_content_key`
  unfoldable pub find_by_content_key :
      FsStore DateTime → ContentKey → Io StoreError (Option (ItemMeta DateTime))
  unfolding find_loop item_ids
  find_by_content_key s key =
      item_ids s >>= λ ids. find_loop s (keep (λ id. text_eq id.key key) (reverse ids))

  -- `resolve`
  unfoldable pub resolve : FsStore DateTime → Text → Io StoreError ItemId
  unfolding item_ids matches lowercase only_one
  resolve s text =
      let input = trim text in
      let needle = lowercase input in
      if ltb (length needle) min_prefix_len
      then fail (invalid_prefix input)
      else item_ids s >>= λ ids. lift (only_one input (keep (matches needle) ids))
