-- ===== src/Fs/Holds.antt =====
-- Reasoning about operations that change the disk (Fs/Io), whatever faults are to come.
use passalong.Prelude.{ℕ, take, ◌≡◌, refl, Option, none, some, Result, ok, err}
use passalong.Model.Digest.{Bytes}
use passalong.Store.Errors.{FsError}
use passalong.Fs.{RemotePath}
use passalong.Fs.Disk.{Disk, lookup, set_file, outside, trimmed}
use passalong.Fs.Io.{
  World, Fault, Io, pure, fail, lift, attempt, continue, ◌>>=◌, lift_fs, map_err, first, rest_of,
  changed, changing, reading, write_all, wrote, next_u64, stat, removed, remove_dir_all,
}

-- What a result says of the disk it leaves: `Q` after a success, `R` after an error.
unfoldable pub Outcome :
    {E A : Type 0} → (Disk → Type 0) → (A → Disk → Type 0) → Result E A × World → Type 0
Outcome R Q (ok a, w) = Q a w.disk
Outcome R Q (err e, w) = R w.disk

-- The same of a result that is looked at
abbrev pub Either :
    {E A : Type 0} → (Disk → Type 0) → (A → Disk → Type 0) → Result E A → Disk → Type 0
Either R Q (ok a) d = Q a d
Either R Q (err e) d = R d

-- From a disk with `P`, an operation leaves one with `Q` when it succeeds and with `R` when not.
pub record Holds {E A : Type 0} (P : Disk → Type 0) (m : Io E A) (R : Disk → Type 0)
    (Q : A → Disk → Type 0) : Type 0 where
  pub run : (w : World) → P w.disk → Outcome R Q (m w)

module _ {A : Type 0} {P R : Disk → Type 0} {Q : A → Disk → Type 0} where
  pub Holds-pure : {E : Type 0} (a : A) → ((d : Disk) → P d → Q a d) → Holds P (pure {E = E} a) R Q
  unfolding Outcome
  Holds-pure a h = record { run = λ w p. h w.disk p }

  pub Holds-fail : {E : Type 0} (e : E) → ((d : Disk) → P d → R d) → Holds P (fail {A = A} e) R Q
  unfolding Outcome
  Holds-fail e h = record { run = λ w p. h w.disk p }

  pub Holds-attempt :
      {E F : Type 0} {m : Io E A} → Holds P m R Q → Holds P (attempt {F = F} m) R (Either R Q)
  unfolding Outcome attempt
  Holds-attempt {E = E} {F = F} {m = m} h = record { run = λ w p. go (m w) (h.run w p) }
    where
      go : (r : Result E A × World) → Outcome R Q r → Outcome {E = F} R (Either R Q) (ok r.0, r.1)
      go (ok a, w) h = h
      go (err e, w) h = h

  pub Holds-bind :
      {E B : Type 0} {S : B → Disk → Type 0} {m : Io E A} {f : A → Io E B}
      → Holds P m R Q
      → ((a : A) → Holds (Q a) (f a) R S)
      → Holds P (m >>= f) R S
  unfolding Outcome ◌>>=◌
  Holds-bind {E = E} {B = B} {S = S} {m = m} {f = f} h k = record {
    run = λ w p. go (m w) (h.run w p);
  }
    where
      go : (r : Result E A × World) → Outcome R Q r → Outcome R S (continue r f)
      go (ok a, w) h = (k a).run w h
      go (err e, w) h = h

  -- `?` on the result of a backend's operation
  pub Holds-lift_fs : {m : Io FsError A} → Holds P m R Q → Holds P (lift_fs m) R Q
  unfolding Outcome lift_fs
  Holds-lift_fs {m = m} h = record { run = λ w p. go (m w) (h.run w p) }
    where
      go : (r : Result FsError A × World) → Outcome R Q r → Outcome R Q (map_err r.0, r.1)
      go (ok a, w) h = h
      go (err e, w) h = h

module _ {A : Type 0} {P R : Disk → Type 0} where
  pub Holds-lift :
      {E : Type 0} (r : Result E A)
      → ((d : Disk) → P d → R d)
      → Holds P (lift r) R (λ a d. P d × (r ≡ ok a))
  unfolding Outcome
  Holds-lift (ok a) h = record { run = λ w p. (p, refl) }
  Holds-lift (err e) h = record { run = λ w p. h w.disk p }

  pub Holds-reading :
      (f : Disk → Result FsError A) → ((d : Disk) → P d → R d) → Holds P (reading f) R (λ a d. P d)
  unfolding Outcome reading
  Holds-reading f h = record { run = λ w p. go w (first w.faults) (f w.disk) p }
    where
      go :
          (w : World) (fault : Option Fault) (r : Result FsError A)
          → P w.disk
          → Outcome R
              (λ a d. P d)
              (
                elim fault [ some e ↦ err e.error | none ↦ r ],
                record w { faults = rest_of w.faults },
              )
      go w (some fault) r p = h w.disk p
      go w none (ok a) p = p
      go w none (err e) p = h w.disk p

  pub Holds-weaken :
      {E : Type 0} {Q S : A → Disk → Type 0} {m : Io E A}
      → Holds P m R Q
      → ((a : A) (d : Disk) → Q a d → S a d)
      → Holds P m R S
  unfolding Outcome
  Holds-weaken {E = E} {Q = Q} {S = S} {m = m} h k = record { run = λ w p. go (m w) (h.run w p) }
    where
      go : (r : Result E A × World) → Outcome R Q r → Outcome R S r
      go (ok a, w) h = k a w.disk h
      go (err e, w) h = h

pub Holds-pre :
    {E A : Type 0} {P P' R : Disk → Type 0} {Q : A → Disk → Type 0} {m : Io E A}
    → ((d : Disk) → P' d → P d)
    → Holds P m R Q
    → Holds P' m R Q
Holds-pre h k = record { run = λ w p. k.run w (h w.disk p) }

module _ {P R Q : Disk → Type 0} where
  pub Holds-changing :
      (f : Disk → Result FsError Disk)
      → ((d : Disk) → P d → R d)
      → ((d d' : Disk) → P d → f d ≡ ok d' → Q d')
      → Holds P (changing f) R (λ _ d. Q d)
  unfolding Outcome changing
  Holds-changing f h k = record { run = λ w p. go w (first w.faults) (f w.disk) (k w.disk) p }
    where
      go :
          (w : World) (fault : Option Fault) (r : Result FsError Disk)
          → ((d' : Disk) → P w.disk → r ≡ ok d' → Q d')
          → P w.disk
          → Outcome R (λ _ d. Q d) (changed w fault r)
      go w (some fault) r k p = h w.disk p
      go w none (ok d) k p = k d p refl
      go w none (err e) k p = h w.disk p

  pub Holds-write_all :
      (path : RemotePath) (bytes : Bytes)
      → ((d : Disk) (b : Bytes) → P d → R (set_file path b d))
      → ((d : Disk) → P d → Q (set_file path bytes d))
      → Holds P (write_all path bytes) R (λ _ d. Q d)
  unfolding Outcome write_all
  Holds-write_all path bytes h k = record { run = λ w p. go w (first w.faults) p }
    where
      go :
          (w : World) (fault : Option Fault)
          → P w.disk
          → Outcome R (λ _ d. Q d) (wrote w path bytes fault)
      go w none p = k w.disk p
      go w (some fault) p = h w.disk (take fault.done bytes) p

  pub Holds-remove_dir_all :
      (path : RemotePath)
      → ((n : ℕ) (d : Disk) → P d → R (trimmed n path d))
      → ((d : Disk) → P d → Q (outside path d))
      → Holds P (remove_dir_all path) R (λ _ d. Q d)
  unfolding Outcome remove_dir_all
  Holds-remove_dir_all path h k = record { run = λ w p. go w (first w.faults) p }
    where
      go :
          (w : World) (fault : Option Fault)
          → P w.disk
          → Outcome R (λ _ d. Q d) (removed w path fault)
      go w none p = k w.disk p
      go w (some fault) p = h fault.done w.disk p

module _ {P R : Disk → Type 0} where
  pub Holds-next_u64 : {E : Type 0} → Holds {E = E} P next_u64 R (λ _ d. P d)
  unfolding Outcome next_u64
  Holds-next_u64 = record { run = λ w p. p }

module _ {P R : Disk → Type 0} where
  -- `stat`, with what it tells of the disk
  pub Holds-stat :
      (path : RemotePath)
      → ((d : Disk) → P d → R d)
      → Holds P (stat path) R (λ found d. P d × (lookup d path ≡ found))
  unfolding Outcome stat reading
  Holds-stat path h = record { run = λ w p. go w (first w.faults) p }
    where
      go :
          (w : World) (fault : Option Fault)
          → P w.disk
          → Outcome R
              (λ found d. P d × (lookup d path ≡ found))
              (
                elim fault [ some e ↦ err e.error | none ↦ ok (lookup w.disk path) ],
                record w { faults = rest_of w.faults },
              )
      go w (some fault) p = h w.disk p
      go w none p = (p, refl)

-- What is known without the disk is known before the operation.
pub Holds-given :
    {E A X : Type 0} {P R : Disk → Type 0} {Q : A → Disk → Type 0} {m : Io E A}
    → (X → Holds P m R Q)
    → Holds (λ d. P d × X) m R Q
Holds-given h = record { run = λ w p. (h p.1).run w p.0 }
