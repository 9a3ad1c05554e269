-- ===== src/Fs/Keeps.antt =====
-- Operations that keep a property of the disk, whether they succeed or not.
use passalong.Prelude.{ℕ, ◌≡◌, Bool, true, false, Result, ok, err, if◌then◌else◌}
use passalong.Model.Digest.{Bytes}
use passalong.Store.Errors.{FsError}
use passalong.Fs.{RemotePath}
use passalong.Fs.Disk.{Disk, set_file, outside, trimmed}
use passalong.Fs.Io.{
  World, remove_dir_all, Io, pure, fail, lift, attempt, ◌>>=◌, lift_fs, changing, reading,
  write_all, next_u64,
}
use passalong.Fs.Holds.{
  Outcome, Either, Holds, Holds-pure, Holds-fail, Holds-lift, Holds-attempt, Holds-bind,
  Holds-lift_fs, Holds-reading, Holds-changing, Holds-write_all, Holds-remove_dir_all,
  Holds-next_u64, Holds-weaken,
}

abbrev pub Keeps : {E A : Type 0} → (Disk → Type 0) → Io E A → Type 0
Keeps P m = Holds P m P (λ _ d. P d)

module _ {P : Disk → Type 0} {A : Type 0} where
  pub Keeps-pure : {E : Type 0} (a : A) → Keeps P (pure {E = E} a)
  Keeps-pure a = Holds-pure a (λ d p. p)

  pub Keeps-fail : {E : Type 0} (e : E) → Keeps P (fail {A = A} e)
  Keeps-fail e = Holds-fail e (λ d p. p)

  pub Keeps-lift : {E : Type 0} (r : Result E A) → Keeps P (lift r)
  Keeps-lift r = Holds-weaken (Holds-lift r (λ d p. p)) (λ a d p. p.0)

  pub Keeps-reading : (f : Disk → Result FsError A) → Keeps P (reading f)
  Keeps-reading f = Holds-reading f (λ d p. p)

  pub Keeps-lift_fs : {m : Io FsError A} → Keeps P m → Keeps P (lift_fs m)
  Keeps-lift_fs h = Holds-lift_fs h

  pub Keeps-attempt : {E F : Type 0} {m : Io E A} → Keeps P m → Keeps P (attempt {F = F} m)
  Keeps-attempt {E = E} h = Holds-weaken (Holds-attempt h) whatever
    where
      whatever : (r : Result E A) (d : Disk) → Either P (λ _ d. P d) r d → P d
      whatever (ok a) d p = p
      whatever (err e) d p = p

  pub Keeps-bind :
      {E B : Type 0} {m : Io E A} {f : A → Io E B}
      → Keeps P m
      → ((a : A) → Keeps P (f a))
      → Keeps P (m >>= f)
  Keeps-bind h k = Holds-bind h k

  pub Keeps-if :
      {E : Type 0} {m n : Io E A} (b : Bool) → Keeps P m → Keeps P n → Keeps P (if b then m else n)
  Keeps-if true h k = h
  Keeps-if false h k = k

module _ {P : Disk → Type 0} where
  pub Keeps-changing :
      (f : Disk → Result FsError Disk)
      → ((d d' : Disk) → P d → f d ≡ ok d' → P d')
      → Keeps P (changing f)
  Keeps-changing f k = Holds-changing f (λ d p. p) k

  pub Keeps-write_all :
      (path : RemotePath) (bytes : Bytes)
      → ((d : Disk) (b : Bytes) → P d → P (set_file path b d))
      → Keeps P (write_all path bytes)
  Keeps-write_all path bytes h = Holds-write_all path bytes h (λ d p. h d bytes p)

  pub Keeps-remove_dir_all :
      (path : RemotePath)
      → ((d : Disk) → P d → P (outside path d))
      → ((n : ℕ) (d : Disk) → P d → P (trimmed n path d))
      → Keeps P (remove_dir_all path)
  Keeps-remove_dir_all path h k = Holds-remove_dir_all path k h

  pub Keeps-next_u64 : {E : Type 0} → Keeps P (next_u64 {E = E})
  Keeps-next_u64 = Holds-next_u64

module _ {P R : Disk → Type 0} {A : Type 0} where
  -- Where less is asked of the disk after an error
  pub Keeps→Holds :
      {E : Type 0} {m : Io E A} → Keeps P m → ((d : Disk) → P d → R d) → Holds P m R (λ _ d. P d)
  unfolding Outcome
  Keeps→Holds {E = E} {m = m} h k = record { run = λ w p. go (m w) (h.run w p) }
    where
      go : (r : Result E A × World) → Outcome P (λ _ d. P d) r → Outcome R (λ _ d. P d) r
      go (ok a, w) h = h
      go (err e, w) h = k w.disk h
