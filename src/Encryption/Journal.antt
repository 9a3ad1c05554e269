-- ===== src/Encryption/Journal.antt =====
-- The journal of a change, which is the lock of a store (crates/passalong-core/src/encryption/journal.rs).
-- serde_json is a parameter. The tokens of the staged folders are the world's random numbers; the time
-- that the storage keeps of a recovery's folder is left out.
pub mod Release
pub mod Staging
pub mod Lock
use passalong.Prelude.{
  ℕ, ◌*◌, Bool, true, false, ◌&&◌, ◌||◌, not, Option, none, some, List, [], ◌∷◌, ◌++◌,
  if◌then◌else◌, keep, length, take, is_empty, Text, text_eq, codes, Result, ok, err,
}
use passalong.Model.Hex.{hex_fixed}
use passalong.Model.Digest.{Bytes}
use passalong.Store.Errors.{
  FsError, StoreError, fs, encryption, rewriting, recovering, layout, already_exists,
}
use passalong.Fs.{RemotePath, join}
use passalong.Fs.Disk.{Node, DirEntry}
use passalong.Fs.Io.{
  Io, pure, fail, lift, attempt, ◌>>=◌, ◌>>◌, lift_fs, map_err, open_read, read_to_end, open_write,
  write_all, stat, create_dir, rename, remove_dir_all, read_dir, next_u64,
}
use passalong.Store.FsStore.{rewrite_dir, starts_with}
use passalong.Encryption.Header.{Headers}
use passalong.Encryption.HeaderFile.{write_header_in}

abbrev pub plan_file : Text
plan_file = codes "plan.json"

abbrev pub new_header : Text
new_header = codes "header"

abbrev pub old_header : Text
old_header = codes "old-header"

abbrev pub previous : Text
previous = codes "previous"

abbrev pub recovery : Text
recovery = codes "recovery"

abbrev pub staging_prefix : Text
staging_prefix = codes ".rewrite-"

abbrev pub max_journal_bytes : ℕ
max_journal_bytes = 64 * 1024

pub data RewriteKind : Type 0 where
  migrate rotate : RewriteKind

pub record RewritePlan : Type 0 where
  pub kind : RewriteKind
  pub started_at : Text
  pub from_key : Option Text
  pub to_key : Text
  pub items : ℕ

pub data HeaderChangeKind : Type 0 where
  set_up fresh_start words : HeaderChangeKind

pub record HeaderChange : Type 0 where
  pub kind : HeaderChangeKind
  pub started_at : Text
  pub key : Text

pub data Journal : Type 0 where
  rewrite : RewritePlan → Journal
  header_change : HeaderChange → Journal
  newer unreadable : Text → Journal

-- What serde_json makes of a journal: its text, and of a text its `kind` (nothing where the text is no
-- JSON, and an empty one where there is none) and the two types
pub record JournalSerde : Type 0 where
  pub kind_of : Bytes → Option Text
  pub plan_of : Bytes → Option RewritePlan
  pub change_of : Bytes → Option HeaderChange

abbrev pub lock_path : RemotePath
lock_path = rewrite_dir ∷ []

-- `under_rewrite`
abbrev pub under_rewrite : Text → RemotePath
under_rewrite rel = rewrite_dir ∷ rel ∷ []

abbrev rewrite_or_unreadable : Option RewritePlan → Journal
rewrite_or_unreadable (some plan) = rewrite plan
rewrite_or_unreadable none = unreadable []

abbrev change_or_unreadable : Option HeaderChange → Journal
change_or_unreadable (some change) = header_change change
change_or_unreadable none = unreadable []

-- `parse` once the kind is known; the reasons are left out.
unfoldable pub parse_kind : JournalSerde → Bytes → Text → Journal
unfolding text_eq
parse_kind serde bytes kind =
    if text_eq kind (codes "migrate") || text_eq kind (codes "rotate")
    then rewrite_or_unreadable (serde.plan_of bytes)
    else if text_eq kind (codes "set-up")
        || text_eq kind (codes "fresh-start")
        || text_eq kind (codes "words")
    then change_or_unreadable (serde.change_of bytes)
    else if is_empty kind
    then unreadable []
    else newer kind

-- `parse`
unfoldable pub parse : JournalSerde → Bytes → Journal
unfolding parse_kind
parse serde bytes = elim (serde.kind_of bytes) [
  | none ↦ unreadable []
  | some kind ↦ parse_kind serde bytes kind
]

abbrev pub read_opened : JournalSerde → Result FsError Bytes → Io StoreError (Option Journal)
read_opened serde (ok reader) = do
  bytes ← lift_fs (read_to_end (take max_journal_bytes reader))
  pure (some (parse serde bytes))
read_opened serde (err (FsError.not_found _)) = pure none
read_opened serde (err e) = fail (fs e)

-- `read_journal`
unfoldable pub read_journal : JournalSerde → Io StoreError (Option Journal)
unfolding parse
read_journal serde = do
  opened ← attempt (open_read (under_rewrite plan_file))
  read_opened serde opened

-- `unsupported`; the reasons are left out.
abbrev pub unsupported : StoreError
unsupported = encryption (layout [])

-- `nothing_to_recover`
abbrev pub nothing_to_recover : StoreError
nothing_to_recover = encryption (layout [])

-- A lock that is there already
abbrev pub must_be_unlocked : Option Node → Result StoreError Unit
must_be_unlocked none = ok tt
must_be_unlocked (some _) = err (encryption (rewriting none))

abbrev pub locked_already : Result FsError Unit → Result StoreError Unit
locked_already (ok u) = ok tt
locked_already (err (already_exists _)) = err (encryption (rewriting none))
locked_already (err e) = err (fs e)

-- A staged folder that was not published is removed; a failure of that is only logged.
abbrev pub unstage : RemotePath → Result StoreError Unit → Io StoreError Unit
unstage staged (ok u) = pure tt
unstage staged (err e) = do removed ← attempt (remove_dir_all staged); fail e

abbrev pub staged_path : ℕ → RemotePath
staged_path token = (staging_prefix ++ hex_fixed 16 token) ∷ []

module _ (headers : Headers) where
  open headers use {Header}

  -- The loop of `publish` over the headers
  unfoldable pub write_headers : RemotePath → List (Text × Header) → Io StoreError Unit
  unfolding write_header_in
  write_headers staged [] = pure tt
  write_headers staged ((folder, header) ∷ rest) = do
    write_header_in headers (staged ++ folder ∷ []) header
    write_headers staged rest

  -- The staged journal, up to its rename
  unfoldable pub stage_journal : RemotePath → Bytes → List (Text × Header) → Io StoreError Unit
  unfolding write_headers
  stage_journal staged json headers_of = do
    lift_fs (open_write (staged ++ plan_file ∷ []))
    lift_fs (write_all (staged ++ plan_file ∷ []) json)
    write_headers staged headers_of
    renamed ← attempt (rename staged lock_path)
    lift (locked_already renamed)

  -- `publish`, of the journal's text
  unfoldable pub publish : Bytes → List (Text × Header) → Io StoreError Unit
  unfolding stage_journal
  publish json headers_of = do
    locked ← lift_fs (stat lock_path)
    lift (must_be_unlocked locked)
    token ← next_u64
    lift_fs (create_dir (staged_path token))
    published ← attempt (stage_journal (staged_path token) json headers_of)
    unstage (staged_path token) published
