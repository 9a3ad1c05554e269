-- ===== src/Encryption/HeaderChange/Attempts.antt =====
-- Interrupted attempts at a header change, and what can follow them.
use mathlib.Core.Path.{subst}
use passalong.Prelude.{◌≡◌, sym, some, ok, err, [], Result}
use passalong.Store.Errors.{StoreError}
use passalong.Fs.Disk.{Node, Disk}
use passalong.Fs.Io.{World}
use passalong.Fs.Holds.{Outcome}
use passalong.Fs.Succeeds.{Success}
use passalong.Fs.Renamed.{Tree}
use passalong.Encryption.HeaderChange.{install, revert_header}
use passalong.Encryption.HeaderChange.Slots.{Phase, ready, done, Ready, Done, IsTree}
use passalong.Encryption.HeaderChange.Install.{install-Done, install-succeeds}
use passalong.Encryption.HeaderChange.Revert.{revert_header-Ready, revert_header-succeeds}

-- Attempts to complete or to undo a change, one after the other, each with whatever faults meet it
pub data Attempts (start : Disk) : Disk → Type 0 where
  no_attempt : Attempts start start
  installed :
      {d : Disk} → Attempts start d → (w : World) → w.disk ≡ d → Attempts start (install w).1.disk
  reverted :
      {d : Disk}
      → Attempts start d
      → (w : World) → w.disk ≡ d
      → Attempts start (revert_header w).1.disk

module _ (new old : Tree) (node : Node) (new_there : new [] ≡ some node) (tree : IsTree old) where
  Outcome-Phase :
      {Q : Disk → Type 0} (r : Result StoreError Unit × World)
      → ((d : Disk) → Q d → Phase new old d)
      → Outcome (λ d. Phase new old d) (λ _ d. Q d) r
      → Phase new old r.1.disk
  unfolding Outcome
  Outcome-Phase (ok u, w) h q = h w.disk q
  Outcome-Phase (err e, w) h p = p

  Attempts-Phase : {d d' : Disk} → Ready new old d → Attempts d d' → Phase new old d'
  Attempts-Phase s no_attempt = ready s
  Attempts-Phase s (installed a w e) =
      Outcome-Phase (install w) (λ d q. done q)
        ((install-Done new old node new_there tree).run w
          (subst (Phase new old) (sym e) (Attempts-Phase s a)))
  Attempts-Phase s (reverted a w e) =
      Outcome-Phase (revert_header w) (λ d q. ready q)
        ((revert_header-Ready new old node new_there tree).run w
          (subst (Phase new old) (sym e) (Attempts-Phase s a)))

  -- From the moment that the lock is published with the new header in it, and after any attempts at
  -- `install` and at the header's part of `revert`, in any order and interrupted anywhere, both succeed
  -- when the backend has no more faults: `install` leaves the new header in place with the old one kept
  -- in the lock, and `revert_header` leaves the old one in place, or none where there was none, with the
  -- new one in the lock, each with every file that it had.
  pub Attempts-recover :
      (d : Disk) (w : World)
      → Ready new old d
      → Attempts d w.disk
      → w.faults ≡ []
      → Success (λ _ d'. Done new old d') (install w)
        × Success (λ _ d'. Ready new old d') (revert_header w)
  Attempts-recover d w s a no_faults =
      let p = Attempts-Phase s a in
      (
        (install-succeeds new old node new_there tree).run w no_faults p,
        (revert_header-succeeds new old node new_there tree).run w no_faults p,
      )
