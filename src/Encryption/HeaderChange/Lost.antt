-- ===== src/Encryption/HeaderChange/Lost.antt =====
-- What undoing does to a change of words whose lock was partly removed.
use mathlib.Core.Path.{subst}
use passalong.Prelude.{
  ◌≡◌, sym, ◌∙◌, Bool, true, false, Option, none, some, List, inl, inr, ok, err, [], ◌∷◌, ◌++◌,
  if◌then◌else◌, arith, Bool-cases, Result,
}
use passalong.Fs.{RemotePath, below, join}
use passalong.Fs.Disk.{Node, Disk, DirEntry, lookup, outside, is_none}
use passalong.Fs.Io.{Io, read_dir, World, rename, pure, lift_fs, ◌>>◌, map_err}
use passalong.Fs.Lookup.{lookup-outside, below_self}
use passalong.Fs.Holds.{
  Outcome, Holds, Holds-bind, Holds-pure, Holds-lift, Holds-lift_fs, Holds-stat, Holds-changing,
  Holds-reading, Holds-remove_dir_all,
}
use passalong.Fs.Renamed.{Tree}
use passalong.Store.FsStore.{header_file}
use passalong.Encryption.Admin.{header_path, is_there}
use passalong.Encryption.Journal.{HeaderChange, words, under_rewrite, old_header, lock_path}
use passalong.Encryption.Journal.Release.{
  release_lock, sweep_staged, sweep, remove_entry, is_staged,
}
use passalong.Encryption.HeaderChange.{revert, revert_kind, restore_copy}
use passalong.Encryption.HeaderChange.Revert.{revert_header-Ready}
use passalong.Encryption.HeaderChange.Slots.{Phase, done, IsTree, Ready, Done}

-- The header's file below a header's folder
abbrev file_rest : RemotePath
file_rest = header_file ∷ []

lookup-outside-none :
    (p q : RemotePath) (d : Disk) → lookup d q ≡ none → lookup (outside p d) q ≡ none
lookup-outside-none p q d h = elim (Bool-cases (is_none (below p q))) [
  | inl e ↦ lookup-outside p q d ∙ ground (arith, h, e)
  | inr e ↦ lookup-outside p q d ∙ ground (arith, h, e)
]

abbrev Lost : Disk → Type 0
Lost d = lookup d (header_path ++ file_rest) ≡ none

abbrev Any : Disk → Type 0
Any d = Unit

Holds-forget :
    {E A : Type 0} {P R : Disk → Type 0} {Q : A → Disk → Type 0} {m : Io E A}
    → Holds P m R Q
    → Holds P m Any Q
unfolding Outcome
Holds-forget {E} {A} {P} {R} {Q} {m} h = record { run = λ w p. go (m w) (h.run w p) }
  where
    go : (r : Result E A × World) → Outcome R Q r → Outcome Any Q r
    go (ok a, w) q = q
    go (err e, w) q = tt

remove_entry-Lost : (e : DirEntry) → Holds Lost (remove_entry e) Any (λ _ d. Lost d)
unfolding remove_entry
remove_entry-Lost e = Holds-bind (Holds-lift (map_err (join [] e.name)) (λ d p. tt)) λ path.
    Holds-lift_fs (
      Holds-remove_dir_all path (λ n d p. tt)
        (λ d p. lookup-outside-none path (header_path ++ file_rest) d p.0))

sweep-Lost : (es : List DirEntry) → Holds Lost (sweep es) Any (λ _ d. Lost d)
unfolding sweep
sweep-Lost [] = Holds-pure tt (λ d p. p)
sweep-Lost (e ∷ es) = go (is_staged e) (sweep-Lost es)
  where
    go :
        (b : Bool)
        → Holds Lost (sweep es) Any (λ _ d. Lost d)
        → Holds Lost (if b then remove_entry e >> sweep es else sweep es) Any (λ _ d. Lost d)
    go true h = Holds-bind (remove_entry-Lost e) (λ u. h)
    go false h = h

-- What is left: no header, and no lock
pub record Emptied (d : Disk) : Type 0 where
  pub no_header : lookup d (header_path ++ file_rest) ≡ none
  pub no_lock : (rest : RemotePath) → lookup d (lock_path ++ rest) ≡ none

emptied : (d : Disk) → Lost d → Emptied (outside lock_path d)
unfolding is_none
emptied d lost = record {
  no_header = lookup-outside-none lock_path (header_path ++ file_rest) d lost;
  no_lock = λ rest.
      lookup-outside lock_path (lock_path ++ rest) d ∙ ground (arith, below_self lock_path rest);
}

release_lock-Lost : Holds Lost release_lock Any (λ _ d. Emptied d)
unfolding release_lock sweep_staged read_dir
release_lock-Lost =
    Holds-bind (Holds-bind (Holds-lift_fs (Holds-reading _ (λ d p. tt))) sweep-Lost)
      λ u. Holds-lift_fs (Holds-remove_dir_all lock_path (λ n d p. tt) emptied)

module _ (new old : Tree) (node kept : Node) (new_there : new [] ≡ some node)
    (old_there : old [] ≡ some kept) (no_file : old file_rest ≡ none) where
  copy-unused : Holds (Ready new old) restore_copy Any (λ _ d. Lost d)
  unfolding restore_copy rename
  copy-unused = Holds-bind (Holds-lift_fs (Holds-stat header_path (λ d s. tt))) after
    where
      after :
          (current : Option Node)
          → Holds
              (λ d. Ready new old d × (lookup d header_path ≡ current))
              (if is_there current
                then pure tt
                else lift_fs (rename (under_rewrite old_header) header_path))
              Any
              (λ _ d. Lost d)
      after none = Holds-lift_fs (
          Holds-changing _ (λ d p. tt)
            (λ d d' p h. absurd (cc (p.0.at_current [], old_there, p.1))))
      after (some n) = Holds-pure tt (λ d p. p.0.at_current file_rest ∙ no_file)

  old_tree : IsTree old
  old_tree h = cc (h, old_there)

  -- Undoing a change of words that was already complete, and whose lock lost the file of the old header
  -- but not its folder when its removal was interrupted, leaves the store without any header: neither
  -- the new one nor the old one, and no lock.
  pub revert_loses-header :
      (change : HeaderChange) (w w' : World)
      → change.kind ≡ words
      → Done new old w.disk
      → revert change w ≡ (ok tt, w')
      → Emptied w'.disk
  unfolding revert Outcome
  revert_loses-header change w w' is_words s h =
      subst (Outcome Any (λ _ d. Emptied d)) h (all.run w (done s))
    where
      copy : Holds (Ready new old) (revert_kind change.kind) Any (λ _ d. Lost d)
      copy =
          subst (λ k. Holds (Ready new old) (revert_kind k) Any (λ _ d. Lost d)) (sym is_words)
            copy-unused

      all : Holds (Phase new old) (revert change) Any (λ _ d. Emptied d)
      all =
          Holds-bind (Holds-forget (revert_header-Ready new old node new_there old_tree))
            λ u. Holds-bind copy (λ v. release_lock-Lost)
