-- ===== src/Encryption/Journal/Release.antt =====
-- The removal of staged journals and of the lock, and the claim of a recovery
-- (crates/passalong-core/src/encryption/journal.rs).
use passalong.Prelude.{
  ℕ, Bool, true, false, ◌&&◌, not, Option, none, some, List, [], ◌∷◌, if◌then◌else◌, keep, length,
  text_eq, Result, ok, err,
}
use passalong.Store.Errors.{FsError, StoreError, fs, encryption, recovering, layout, already_exists}
use passalong.Fs.{join}
use passalong.Fs.Disk.{Node, DirEntry}
use passalong.Fs.Io.{
  Io, pure, fail, lift, attempt, ◌>>=◌, ◌>>◌, lift_fs, map_err, stat, create_dir, remove_dir_all,
  read_dir,
}
use passalong.Store.FsStore.{starts_with}
use passalong.Encryption.Journal.{
  plan_file, recovery, staging_prefix, lock_path, under_rewrite, nothing_to_recover,
}

abbrev pub is_staged : DirEntry → Bool
is_staged e = e.is_dir && starts_with e.name staging_prefix

-- The removal of a staged journal. The name of an entry has no separator in it, so that
-- `RemotePath::new` makes of it what `join` does.
unfoldable pub remove_entry : DirEntry → Io StoreError Unit
remove_entry e = do path ← lift (map_err (join [] e.name)); lift_fs (remove_dir_all path)

-- The loop of `sweep_staged`
unfoldable pub sweep : List DirEntry → Io StoreError Unit
unfolding starts_with remove_entry
sweep [] = pure tt
sweep (e ∷ es) = let rest = sweep es in if is_staged e then remove_entry e >> rest else rest

-- `sweep_staged`
unfoldable pub sweep_staged : Io StoreError Unit
unfolding sweep
sweep_staged = lift_fs (read_dir []) >>= sweep

-- `count_staged`
unfoldable pub count_staged : Io StoreError ℕ
unfolding starts_with
count_staged = lift_fs (read_dir []) >>= λ entries. pure (length (keep is_staged entries))

-- `release_lock`
unfoldable pub release_lock : Io StoreError Unit
unfolding sweep_staged
release_lock = sweep_staged >> lift_fs (remove_dir_all lock_path)

-- The names that a lock that never started may hold
abbrev pub is_unexpected : DirEntry → Bool
is_unexpected e = not (text_eq e.name plan_file) && not (text_eq e.name recovery)

abbrev pub must_be_unstarted : List DirEntry → Result StoreError Unit
must_be_unstarted [] = ok tt
must_be_unstarted (e ∷ es) = err (encryption (layout []))

-- `release_unstarted`
unfoldable pub release_unstarted : Io StoreError Unit
unfolding release_lock
release_unstarted = do
  entries ← lift_fs (read_dir lock_path)
  lift (must_be_unstarted (keep is_unexpected entries))
  release_lock

-- `recovery_in_progress`
unfoldable pub recovery_in_progress : Io StoreError Bool
recovery_in_progress = do
  found ← lift_fs (stat (under_rewrite recovery))
  pure (elim found [ none ↦ false | some _ ↦ true ])

-- `release_recovery`
unfoldable pub release_recovery : Io StoreError Unit
release_recovery = lift_fs (remove_dir_all (under_rewrite recovery))

abbrev pub must_be_locked : Option Node → Result StoreError Unit
must_be_locked none = err nothing_to_recover
must_be_locked (some _) = ok tt

abbrev pub claimed : Result FsError Unit → Io StoreError Unit
claimed (ok u) = pure tt
claimed (err (already_exists _)) = do
  running ← recovery_in_progress
  fail (encryption (recovering none))
claimed (err (FsError.not_found _)) = fail nothing_to_recover
claimed (err e) = fail (fs e)

-- `claim_recovery`
unfoldable pub claim_recovery : Io StoreError Unit
unfolding recovery_in_progress
claim_recovery = do
  locked ← lift_fs (stat lock_path)
  lift (must_be_locked locked)
  made ← attempt (create_dir (under_rewrite recovery))
  claimed made

-- `unclaim`, of what a claimed recovery came to
unfoldable pub unclaim : {A : Type 0} → Result StoreError A → Io StoreError A
unfolding release_recovery
unclaim (ok a) = pure a
unclaim (err e) = do released ← attempt {F = StoreError} release_recovery; fail e
