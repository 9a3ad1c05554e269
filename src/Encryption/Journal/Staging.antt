-- ===== src/Encryption/Journal/Staging.antt =====
-- What is staged beside the lock of a store, while the lock stays as it is (`publish`).
use mathlib.Core.Path.{subst}
use passalong.Prelude.{
  ℕ, ◌≡◌, refl, sym, ap, ◌∙◌, false, Option, none, some, List, All, [], ◌∷◌, ◌++◌, if◌then◌else◌,
  text_eq, Result, ok, err,
}
use passalong.Model.Digest.{Bytes}
use passalong.Store.Errors.{StoreError, FsError}
use passalong.Fs.{RemotePath, below, path_eq}
use passalong.Fs.Disk.{
  dir, file, Disk, lookup, set_file, make_dirs, make_dir, is_none, rename_tree, or_else,
}
use passalong.Fs.Io.{lift, attempt, ◌>>=◌, lift_fs, open_write, write_all, rename}
use passalong.Fs.Lookup.{
  lookup-set_file, lookup-make_dirs, lookup-outside, lookup-trimmed, path_eq_refl, path_eq-append,
}
use passalong.Fs.Renamed.{lookup-renamed_in}
use passalong.Fs.Holds.{
  Either, Holds, Holds-pure, Holds-fail, Holds-bind, Holds-lift, Holds-lift_fs, Holds-attempt,
  Holds-changing, Holds-write_all, Holds-weaken,
}
use passalong.Fs.Keeps.{Keeps-attempt, Keeps-remove_dir_all}
use passalong.Store.FsStore.{header_file}
use passalong.Fs.Made.{make_dirs-keeps, make_dir-ok, make_file-ok}
use passalong.Encryption.Header.{Headers}
use passalong.Encryption.Journal.{
  plan_file, new_header, old_header, lock_path, staged_path, locked_already, unstage,
}

-- A rename that fails publishes nothing.
refused : {X : Type 0} (e : FsError) (u : Unit) → locked_already (err e) ≡ ok u → X
refused (FsError.already_exists p) u h = cc
refused (FsError.not_found p) u h = cc
refused _ u h = cc

-- What is below the lock
abbrev pub SameLock : Disk → Disk → Type 0
SameLock d d' = (rest : RemotePath) → lookup d' (lock_path ++ rest) ≡ lookup d (lock_path ++ rest)

-- The files in the lock
abbrev pub InLock : List (RemotePath × Bytes) → Disk → Type 0
InLock files d = All (λ f. lookup d (lock_path ++ f.0) ≡ some (file f.1)) files

module _ (headers : Headers) where
  open headers use {Header, to_bytes}

  abbrev pub of_old : Option Header → List (RemotePath × Bytes) → List (RemotePath × Bytes)
  of_old none files = files
  of_old (some old) files = (old_header ∷ header_file ∷ [], to_bytes old) ∷ files

  -- The files of a change: the old header, the new one, and the journal
  abbrev pub files_of : Bytes → Header → Option Header → List (RemotePath × Bytes)
  files_of json header old =
      of_old old ((new_header ∷ header_file ∷ [], to_bytes header) ∷ (plan_file ∷ [], json) ∷ [])

module _ (start : Disk) (token : ℕ) where
  abbrev pub S : RemotePath
  S = staged_path token

  -- The files that are staged, while the lock is as it was
  pub record Staged (files : List (RemotePath × Bytes)) (d : Disk) : Type 0 where
    pub same : SameLock start d
    pub has : All (λ f. lookup d (S ++ f.0) ≡ some (file f.1)) files

  staged-apart : (x rest : RemotePath) → below (S ++ x) (lock_path ++ rest) ≡ none
  unfolding below text_eq
  staged-apart x rest = refl

  lock-apart : (x rest : RemotePath) → below (lock_path ++ rest) (S ++ x) ≡ none
  unfolding below text_eq
  lock-apart x rest = refl

  differ : (x rest : RemotePath) → path_eq (S ++ x) (lock_path ++ rest) ≡ false
  unfolding path_eq text_eq
  differ x rest = refl

  abbrev pub Fresh : RemotePath → List (RemotePath × Bytes) → Type 0
  Fresh x files = All (λ f. path_eq x f.0 ≡ false) files

  same-set_file :
      (x : RemotePath) (b : Bytes) (d : Disk)
      → SameLock start d
      → SameLock start (set_file (S ++ x) b d)
  same-set_file x b d s rest =
      lookup-set_file (S ++ x) (lock_path ++ rest) b d
      ∙ ap (λ t. if t then some (file b) else lookup d (lock_path ++ rest)) (differ x rest)
      ∙ s rest

  has-set_file :
      (x : RemotePath) (b : Bytes) (d : Disk) (files : List (RemotePath × Bytes))
      → Fresh x files
      → All (λ f. lookup d (S ++ f.0) ≡ some (file f.1)) files
      → All (λ f. lookup (set_file (S ++ x) b d) (S ++ f.0) ≡ some (file f.1)) files
  has-set_file x b d [] fresh h = tt
  has-set_file x b d ((y, c) ∷ files) fresh h = (
    lookup-set_file (S ++ x) (S ++ y) b d
        ∙ ap (λ t. if t then some (file b) else lookup d (S ++ y)) (path_eq-append S x y ∙ fresh.0)
        ∙ h.0,
    has-set_file x b d files fresh.1 h.1,
  )

  Staged-set_file :
      (x : RemotePath) (b : Bytes) (files : List (RemotePath × Bytes)) (d : Disk)
      → Fresh x files
      → Staged files d
      → Staged files (set_file (S ++ x) b d)
  Staged-set_file x b files d fresh s = record {
    same = same-set_file x b d s.same;
    has = has-set_file x b d files fresh s.has;
  }

  has-make_dirs :
      (x : RemotePath) (d d' : Disk) (files : List (RemotePath × Bytes))
      → make_dirs d [] (S ++ x) ≡ ok d'
      → All (λ f. lookup d (S ++ f.0) ≡ some (file f.1)) files
      → All (λ f. lookup d' (S ++ f.0) ≡ some (file f.1)) files
  has-make_dirs x d d' [] h s = tt
  has-make_dirs x d d' (f ∷ files) h s = (
    make_dirs-keeps d d' [] (S ++ x) (S ++ f.0) (file f.1) h s.0,
    has-make_dirs x d d' files h s.1,
  )

  pub Staged-make_dirs :
      (x : RemotePath) (files : List (RemotePath × Bytes)) (d d' : Disk)
      → make_dirs d [] (S ++ x) ≡ ok d'
      → Staged files d
      → Staged files d'
  unfolding is_none
  Staged-make_dirs x files d d' h s = record {
    same = λ rest.
        lookup-make_dirs d d' [] (S ++ x) (lock_path ++ rest) h (ap is_none (lock-apart x rest))
        ∙ s.same rest;
    has = has-make_dirs x d d' files h s.has;
  }

  -- A file is opened, and then written.
  pub open_file :
      (x : RemotePath) (files : List (RemotePath × Bytes))
      → Fresh x files
      → Holds
          (Staged files)
          (lift_fs (open_write (S ++ x)))
          (SameLock start)
          (λ _ d. Staged files d)
  unfolding open_write
  open_file x files fresh = Holds-lift_fs (
      Holds-changing {Q = Staged files} _ (λ d s. s.same)
        (λ d d' s h.
          subst (Staged files) (sym (make_file-ok d d' (S ++ x) h))
            (Staged-set_file x [] files d fresh s)))

  pub write_file :
      (x : RemotePath) (b : Bytes) (files : List (RemotePath × Bytes))
      → Fresh x files
      → Holds
          (Staged files)
          (lift_fs (write_all (S ++ x) b))
          (SameLock start)
          (λ _ d. Staged ((x, b) ∷ files) d)
  write_file x b files fresh = Holds-lift_fs (
      Holds-write_all (S ++ x) b (λ d b' s. same-set_file x b' d s.same)
        (λ d s. record {
          same = same-set_file x b d s.same;
          has = (
            lookup-set_file (S ++ x) (S ++ x) b d
                ∙ ap (λ t. if t then some (file b) else lookup d (S ++ x)) (path_eq_refl (S ++ x)),
            has-set_file x b d files fresh s.has,
          );
        }))

  -- The staging folder is made and removed beside the lock.
  pub made : (d d' : Disk) → SameLock start d → make_dir d S ≡ ok d' → SameLock start d'
  unfolding lookup or_else
  made d d' s h rest =
      ap (λ x. lookup x (lock_path ++ rest)) (make_dir-ok d d' S h)
      ∙ ap (λ t. or_else (if t then some dir else none) (lookup d (lock_path ++ rest)))
          (differ [] rest)
      ∙ s rest

  pub cleaned :
      (r : Result StoreError Unit) (files : List (RemotePath × Bytes))
      → Holds
          (Either (SameLock start) (λ _ d. InLock files d) r)
          (unstage S r)
          (SameLock start)
          (λ _ d. InLock files d)
  unfolding is_none
  cleaned (ok u) files = Holds-pure tt (λ d p. p)
  cleaned (err e) files =
      Holds-bind
        (Keeps-attempt (
          Keeps-remove_dir_all S
            (λ d s rest.
              lookup-outside S (lock_path ++ rest) d
              ∙ ap (λ o. if is_none o then lookup d (lock_path ++ rest) else none)
                  (staged-apart [] rest)
              ∙ s rest)
            (λ n d s rest.
              lookup-trimmed n S (lock_path ++ rest) d (staged-apart [] rest) ∙ s rest)))
        λ x. Holds-fail e (λ d p. p)

  moved_in :
      (d d' : Disk) (files : List (RemotePath × Bytes))
      → rename_tree d S lock_path ≡ ok d'
      → All (λ f. lookup d (S ++ f.0) ≡ some (file f.1)) files
      → InLock files d'
  moved_in d d' [] h s = tt
  moved_in d d' (f ∷ files) h s =
      (lookup-renamed_in d d' S lock_path f.0 (file f.1) h s.0, moved_in d d' files h s.1)

  -- The rename publishes the files.
  pub renamed :
      (files : List (RemotePath × Bytes))
      → Holds
          (Staged files)
          (attempt (rename S lock_path) >>= λ r. lift (locked_already r))
          (SameLock start)
          (λ _ d. InLock files d)
  unfolding rename
  renamed files =
      Holds-bind
        (Holds-attempt (
          Holds-changing {Q = InLock files} _ (λ d s. s.same)
            (λ d d' s h. moved_in d d' files h s.has)))
        after
    where
      after :
          (r : Result FsError Unit)
          → Holds
              (Either (SameLock start) (λ _ d. InLock files d) r)
              (lift (locked_already r))
              (SameLock start)
              (λ _ d. InLock files d)
      after (ok u) = Holds-pure tt (λ d p. p)
      after (err e) =
          Holds-weaken (Holds-lift (locked_already (err e)) (λ d p. p))
            (λ u d p. refused {X = InLock files d} e u p.1)
