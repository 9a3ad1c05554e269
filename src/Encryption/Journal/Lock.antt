-- ===== src/Encryption/Journal/Lock.antt =====
-- The lock of a store while it is published, under faults.
use passalong.Prelude.{
  ℕ, ◌≡◌, refl, sym, ◌∙◌, false, Option, none, some, List, [], ◌∷◌, ◌++◌, Text, text_eq, ok, arith,
}
use passalong.Model.Digest.{Bytes}
use passalong.Fs.{RemotePath, path_eq}
use passalong.Fs.Disk.{Node, Disk, lookup}
use passalong.Fs.Io.{World, attempt, ◌>>=◌, lift_fs, create_dir, create_dir_all, next_u64}
use passalong.Fs.Holds.{
  Outcome, Holds, Holds-pure, Holds-bind, Holds-lift, Holds-lift_fs, Holds-attempt, Holds-changing,
  Holds-stat, Holds-given, Holds-weaken, Holds-next_u64, Holds-pre,
}
use passalong.Store.FsStore.{header_file}
use passalong.Encryption.Header.{Headers}
use passalong.Encryption.HeaderFile.{write_header_in}
use passalong.Encryption.HeaderChange.{with_old}
use passalong.Encryption.Journal.{
  plan_file, new_header, old_header, lock_path, staged_path, must_be_unlocked, write_headers,
  stage_journal, unstage, publish,
}
use passalong.Encryption.Journal.Staging.{
  SameLock, S, Staged, Fresh, Staged-make_dirs, open_file, write_file, made, cleaned, InLock,
  of_old, files_of, renamed,
}

module _ (start : Disk) (token : ℕ) where
  module _ (headers : Headers) where
    open headers use {Header, to_bytes}

    write_header :
        (folder : Text) (header : Header) (files : List (RemotePath × Bytes))
        → Fresh start token (folder ∷ header_file ∷ []) files
        → Holds
            (Staged start token files)
            (write_header_in headers ((S start token) ++ folder ∷ []) header)
            (SameLock start)
            (λ _ d. Staged start token ((folder ∷ header_file ∷ [], to_bytes header) ∷ files) d)
    unfolding write_header_in create_dir_all
    write_header folder header files fresh =
        Holds-bind
          (Holds-lift_fs (
            Holds-changing {Q = Staged start token files} _ (λ d s. s.same)
              (λ d d' s h. Staged-make_dirs start token (folder ∷ []) files d d' h s)))
          λ u.
            Holds-bind (open_file start token (folder ∷ header_file ∷ []) files fresh)
              λ v. write_file start token (folder ∷ header_file ∷ []) (to_bytes header) files fresh

    fresh_plan : (folder : Text) → path_eq (folder ∷ header_file ∷ []) (plan_file ∷ []) ≡ false
    unfolding path_eq
    fresh_plan folder = ground arith

    fresh_old : path_eq (old_header ∷ header_file ∷ []) (new_header ∷ header_file ∷ []) ≡ false
    unfolding path_eq text_eq
    fresh_old = refl

    module _ (json : Bytes) (header : Header) (old : Option Header) where
      abbrev before_old : List (RemotePath × Bytes)
      before_old = (new_header ∷ header_file ∷ [], to_bytes header) ∷ (plan_file ∷ [], json) ∷ []

      write_old :
          (old : Option Header)
          → Holds
              (Staged start token before_old)
              (write_headers headers (S start token) (with_old headers old))
              (SameLock start)
              (λ _ d. Staged start token (of_old headers old before_old) d)
      unfolding write_headers
      write_old none = Holds-pure tt (λ d s. s)
      write_old (some old) =
          Holds-bind
            (write_header old_header old before_old (fresh_old, (fresh_plan old_header, tt)))
            λ u. Holds-pure tt (λ d s. s)

      stage_journal-InLock :
          Holds
            (SameLock start)
            (stage_journal headers
              (S start token)
              json
              ((new_header, header) ∷ with_old headers old))
            (SameLock start)
            (λ _ d. InLock (files_of headers json header old) d)
      unfolding stage_journal write_headers
      stage_journal-InLock =
          Holds-pre (λ d s. record { same = s; has = tt })
            (Holds-bind (open_file start token (plan_file ∷ []) [] tt) λ u.
              Holds-bind (write_file start token (plan_file ∷ []) json [] tt) λ v.
                Holds-bind
                  (Holds-bind
                    (write_header new_header header ((plan_file ∷ [], json) ∷ [])
                      (fresh_plan new_header, tt))
                    (λ x. write_old old))
                  (λ y. renamed start token (files_of headers json header old)))

module _ (headers : Headers) (json : Bytes) (header : headers.Header)
    (old : Option headers.Header) where
  abbrev files : List (RemotePath × Bytes)
  files = files_of headers json header old

  publish_free :
      (start : Disk)
      → Holds
          (SameLock start)
          (next_u64 >>= λ token. lift_fs (create_dir (staged_path token)) >>= λ u.
            attempt (
              stage_journal headers
                (staged_path token)
                json
                ((new_header, header) ∷ with_old headers old))
            >>= λ r. unstage (staged_path token) r)
          (SameLock start)
          (λ _ d. InLock files d)
  unfolding create_dir
  publish_free start = Holds-bind Holds-next_u64 λ token.
      Holds-bind
        (Holds-lift_fs (Holds-changing {Q = SameLock start} _ (λ d s. s) (made start token)))
        λ u.
          Holds-bind (Holds-attempt (stage_journal-InLock start token headers json header old))
            λ r. cleaned start token r files

  unlocked : (found : Option Node) (u : Unit) → must_be_unlocked found ≡ ok u → found ≡ none
  unlocked none u h = refl
  unlocked (some n) u h = cc

  abbrev pub WasFree : Disk → Type 0
  WasFree start = lookup start lock_path ≡ none

  publish-start :
      (start : Disk)
      → Holds
          (SameLock start)
          (publish headers json ((new_header, header) ∷ with_old headers old))
          (SameLock start)
          (λ _ d. WasFree start × InLock files d)
  unfolding publish
  publish-start start = Holds-bind (Holds-lift_fs (Holds-stat lock_path (λ d s. s))) λ found.
      Holds-bind (Holds-lift (must_be_unlocked found) (λ d p. p.0)) λ u.
        Holds-pre (λ d p. (p.0.0, sym (p.0.0 []) ∙ p.0.1 ∙ unlocked found u p.1))
          (Holds-given λ free. Holds-weaken (publish_free start) (λ v d q. (free, q)))

  -- Publishing a lock is all or nothing. When it fails, wherever it was interrupted, every path below
  -- the lock is as it was before; when it succeeds, there was no lock before, and the lock has the
  -- journal, the new header and the old one, where there is an old one, each written to its end.
  pub publish-whole :
      (w : World)
      → Outcome
          (SameLock w.disk)
          (λ _ d. WasFree w.disk × InLock files d)
          (publish headers json ((new_header, header) ∷ with_old headers old) w)
  publish-whole w = (publish-start w.disk).run w (λ rest. refl)
