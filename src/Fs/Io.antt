-- ===== src/Fs/Io.antt =====
-- Operations that change the disk and may fail (`RemoteFs` of crates/passalong-core/src/fs/mod.rs).
-- Any operation of the backend can also fail by itself: each takes the next of the faults to come,
-- and does nothing when there is one, except that a failed write may have written some bytes, and a
-- failed removal may have removed some entries.
use passalong.Prelude.{
  ℕ, suc, Option, none, some, List, [], ◌∷◌, take, if◌then◌else◌, Result, ok, err,
}
use passalong.Model.Digest.{Bytes}
use passalong.Store.Errors.{FsError, StoreError, fs, other}
use passalong.Fs.{RemotePath, as_str}
use passalong.Fs.Disk.{
  Node, dir, file, Disk, DirEntry, lookup, set_file, outside, trimmed, make_dirs, make_file,
  make_dir, drop_file, rename_tree, entries_of, is_dir_at,
}

-- A failure, and how much of a write or of a removal was done before it: bytes, or entries.
pub record Fault : Type 0 where
  pub error : FsError
  pub done : ℕ

pub record World : Type 0 where
  pub disk : Disk
  pub faults : List (Option Fault)
  -- `RandomSource::next_u64`, by the number of draws made before
  pub random : ℕ → ℕ
  pub draws : ℕ

abbrev pub Io : Type 0 → Type 0 → Type 0
Io E A = World → Result E A × World

module _ {E A : Type 0} where
  abbrev pub pure : A → Io E A
  pure a w = (ok a, w)

  abbrev pub fail : E → Io E A
  fail e w = (err e, w)

  abbrev pub lift : Result E A → Io E A
  lift r w = (r, w)

  -- The result as a value: what the source matches on
  unfoldable pub attempt : {F : Type 0} → Io E A → Io F (Result E A)
  attempt m w = let (r, w') = m w in (ok r, w')

module _ {E A B : Type 0} where
  abbrev pub continue : Result E A × World → (A → Io E B) → Result E B × World
  continue (ok a, w) f = f a w
  continue (err e, w) f = (err e, w)

  infixl 10 ◌>>=◌ ◌>>◌
  unfoldable pub ◌>>=◌ : Io E A → (A → Io E B) → Io E B
  (m >>= f) w = continue (m w) f

  abbrev pub ◌>>◌ : Io E A → Io E B → Io E B
  m >> n = m >>= λ _. n

abbrev pub map_err : {A : Type 0} → Result FsError A → Result StoreError A
map_err (ok a) = ok a
map_err (err e) = err (fs e)

-- `?` on the result of a backend's operation: `StoreError::Fs`
unfoldable pub lift_fs : {A : Type 0} → Io FsError A → Io StoreError A
lift_fs m w = let (r, w') = m w in (map_err r, w')

-- The next fault to come
abbrev pub first : List (Option Fault) → Option Fault
first [] = none
first (f ∷ _) = f

abbrev pub rest_of : List (Option Fault) → List (Option Fault)
rest_of [] = []
rest_of (_ ∷ rest) = rest

-- An operation that reads the disk.
unfoldable pub reading : {A : Type 0} → (Disk → Result FsError A) → Io FsError A
reading f w = (
  elim (first w.faults) [ some fault ↦ err fault.error | none ↦ f w.disk ],
  record w { faults = rest_of w.faults },
)

abbrev pub changed : World → Option Fault → Result FsError Disk → Result FsError Unit × World
changed w (some fault) r = (err fault.error, record w { faults = rest_of w.faults })
changed w none (err e) = (err e, record w { faults = rest_of w.faults })
changed w none (ok d) = (ok tt, record w { disk = d; faults = rest_of w.faults })

-- An operation that changes the disk.
unfoldable pub changing : (Disk → Result FsError Disk) → Io FsError Unit
changing f w = changed w (first w.faults) (f w.disk)

unfoldable pub create_dir_all : RemotePath → Io FsError Unit
unfolding changing
create_dir_all path = changing (λ d. make_dirs d [] path)

unfoldable pub read_dir : RemotePath → Io FsError (List DirEntry)
unfolding reading
read_dir path = reading (λ d.
    if is_dir_at d path then ok (entries_of d path) else err (FsError.not_found (as_str path)))

-- `open_read`: a reader is the bytes that it will give.
unfoldable pub open_read : RemotePath → Io FsError Bytes
unfolding reading
open_read path = reading (λ d. elim (lookup d path) [
  | none ↦ err (FsError.not_found (as_str path))
  | some dir ↦ err (other (as_str path) [])
  | some (file bytes) ↦ ok bytes
])

-- `read_to_end`
unfoldable pub read_to_end : Bytes → Io FsError Bytes
unfolding reading
read_to_end bytes = reading (λ _. ok bytes)

unfoldable pub open_write : RemotePath → Io FsError Unit
unfolding changing
open_write path = changing (λ d. make_file d path)

abbrev pub wrote : World → RemotePath → Bytes → Option Fault → Result FsError Unit × World
wrote w path bytes none =
    (ok tt, record w { disk = set_file path bytes w.disk; faults = rest_of w.faults })
wrote w path bytes (some fault) = (
  err fault.error,
  record w { disk = set_file path (take fault.done bytes) w.disk; faults = rest_of w.faults },
)

-- `write_all` and `shutdown`: the bytes of the file from its start.
unfoldable pub write_all : RemotePath → Bytes → Io FsError Unit
write_all path bytes w = wrote w path bytes (first w.faults)

unfoldable pub rename : RemotePath → RemotePath → Io FsError Unit
unfolding changing
rename from to = changing (λ d. rename_tree d from to)

unfoldable pub create_dir : RemotePath → Io FsError Unit
unfolding changing
create_dir path = changing (λ d. make_dir d path)

unfoldable pub remove_file : RemotePath → Io FsError Unit
unfolding changing
remove_file path = changing (λ d. drop_file d path)

abbrev pub removed : World → RemotePath → Option Fault → Result FsError Unit × World
removed w path none = (ok tt, record w { disk = outside path w.disk; faults = rest_of w.faults })
removed w path (some fault) =
    (err fault.error, record w { disk = trimmed fault.done path w.disk; faults = rest_of w.faults })

unfoldable pub remove_dir_all : RemotePath → Io FsError Unit
remove_dir_all path w = removed w path (first w.faults)

-- `stat`
unfoldable pub stat : RemotePath → Io FsError (Option Node)
unfolding reading
stat path = reading (λ d. ok (lookup d path))

unfoldable pub next_u64 : {E : Type 0} → Io E ℕ
next_u64 w = (ok (w.random w.draws), record w { draws = suc w.draws })
