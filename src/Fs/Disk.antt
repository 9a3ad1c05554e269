-- ===== src/Fs/Disk.antt =====
-- What the operations of `RemoteFs` do (crates/passalong-core/src/fs/mod.rs): the contract that its
-- documentation states, on a disk that is a list of the paths that exist, the root left out.
use passalong.Prelude.{
  ℕ, zero, suc, Bool, true, false, not, Option, none, some, List, [], ◌∷◌, ◌++◌, keep,
  if◌then◌else◌, Text, text_ltb, Result, ok, err,
}
use passalong.Model.Digest.{Bytes}
use passalong.Store.Errors.{FsError, already_exists, other}
use passalong.Fs.{RemotePath, path_eq, below, as_str, parent}

pub data Node : Type 0 where
  dir : Node
  file : Bytes → Node

abbrev pub Disk : Type 0
Disk = List (RemotePath × Node)

pub record DirEntry : Type 0 where
  pub name : Text
  pub is_dir : Bool

unfoldable pub or_else {ℓ} : {A : Type ℓ} → Option A → Option A → Option A
or_else none b = b
or_else (some a) b = some a

unfoldable pub lookup : Disk → RemotePath → Option Node
unfolding or_else path_eq
lookup [] p = none
lookup ((q, node) ∷ d) p = or_else (if path_eq q p then some node else none) (lookup d p)

unfoldable pub is_none {ℓ} : {A : Type ℓ} → Option A → Bool
is_none none = true
is_none (some a) = false

-- One path set to a file, in place of what it was.
unfoldable pub set_file : RemotePath → Bytes → Disk → Disk
unfolding path_eq
set_file path bytes d = (path, file bytes) ∷ keep (λ e. not (path_eq e.0 path)) d

-- The entries outside `path` and the tree below it.
unfoldable pub outside : RemotePath → Disk → Disk
unfolding is_none
outside path d = keep (λ e. is_none (below path e.0)) d

-- The tree at `path` without the first `n` of its entries: what a removal that stopped leaves.
unfoldable pub trimmed : ℕ → RemotePath → Disk → Disk
unfolding below
trimmed n path [] = []
trimmed n path ((q, node) ∷ d) = elim (below path q) [
  | none ↦ (q, node) ∷ trimmed n path d
  | some _ ↦ elim n [ zero ↦ (q, node) ∷ d | suc m ↦ trimmed m path d ]
]

-- The tree at `from`, at `to` instead.
unfoldable pub moved : RemotePath → RemotePath → Disk → Disk
unfolding below
moved from to [] = []
moved from to ((q, node) ∷ d) =
    let rest = moved from to d in
    elim (below from q) [ none ↦ rest | some s ↦ (to ++ s, node) ∷ rest ]

-- A directory and its missing parents: `done` is the part of the path that exists.
unfoldable pub make_dirs : Disk → RemotePath → RemotePath → Result FsError Disk
unfolding lookup
make_dirs d done [] = ok d
make_dirs d done (part ∷ rest) =
    let path = done ++ part ∷ [] in
    let fresh = make_dirs ((path, dir) ∷ d) path rest in
    let found = make_dirs d path rest in
    elim (lookup d path) [
      | none ↦ fresh
      | some dir ↦ found
      | some (file _) ↦ err (already_exists (as_str path))
    ]

unfoldable pub is_dir_at : Disk → RemotePath → Bool
unfolding lookup
is_dir_at d [] = true
is_dir_at d (part ∷ rest) = elim (lookup d (part ∷ rest)) [ some dir ↦ true | _ ↦ false ]

unfoldable pub parent_exists : Disk → RemotePath → Bool
unfolding is_dir_at parent
parent_exists d path = elim (parent path) [ none ↦ false | some p ↦ is_dir_at d p ]

-- `open_write`: the file is created or emptied, and its parent exists.
unfoldable pub make_file : Disk → RemotePath → Result FsError Disk
unfolding parent_exists set_file
make_file d path =
    if not (parent_exists d path)
    then err (FsError.not_found (as_str path))
    else elim (lookup d path) [
      | some dir ↦ err (other (as_str path) [])
      | _ ↦ ok (set_file path [] d)
    ]

-- `create_dir`: the parent exists, and the path does not.
unfoldable pub make_dir : Disk → RemotePath → Result FsError Disk
unfolding lookup parent_exists
make_dir d path = elim (lookup d path) [
  | some _ ↦ err (already_exists (as_str path))
  | none ↦
      if parent_exists d path then ok ((path, dir) ∷ d) else err (FsError.not_found (as_str path))
]

-- `remove_file`: a file alone, and nothing where there is none.
unfoldable pub drop_file : Disk → RemotePath → Result FsError Disk
unfolding lookup path_eq
drop_file d path = elim (lookup d path) [
  | none ↦ ok d
  | some dir ↦ err (other (as_str path) [])
  | some (file _) ↦ ok (keep (λ e. not (path_eq e.0 path)) d)
]

-- `rename`: never over what exists.
unfoldable pub rename_tree : Disk → RemotePath → RemotePath → Result FsError Disk
unfolding lookup outside moved
rename_tree d from to = elim (lookup d from) [
  | none ↦ err (FsError.not_found (as_str from))
  | some _ ↦ elim (lookup d to) [
    | some _ ↦ err (already_exists (as_str to))
    | none ↦ ok (moved from to d ++ outside from d)
  ]
]

-- The entry of a directory that a path is, where it is one.
unfoldable pub child_name : RemotePath → RemotePath → Option Text
unfolding below
child_name path q = elim (below path q) [ some (name ∷ []) ↦ some name | _ ↦ none ]

unfoldable pub is_dir_node : Node → Bool
is_dir_node dir = true
is_dir_node (file _) = false

unfoldable pub insert_entry : DirEntry → List DirEntry → List DirEntry
insert_entry e [] = e ∷ []
insert_entry e (f ∷ fs) = if text_ltb f.name e.name then f ∷ insert_entry e fs else e ∷ f ∷ fs

-- `read_dir`, sorted by name
unfoldable pub entries_of : Disk → RemotePath → List DirEntry
unfolding child_name insert_entry is_dir_node
entries_of [] path = []
entries_of ((q, node) ∷ d) path =
    let rest = entries_of d path in
    elim (child_name path q) [
      | none ↦ rest
      | some name ↦ insert_entry (record { name = name; is_dir = is_dir_node node }) rest
    ]
