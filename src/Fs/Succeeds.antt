-- ===== src/Fs/Succeeds.antt =====
-- Reasoning about operations on the disk (Fs/Io) when the backend has no faults: they succeed.
use mathlib.Core.Path.{subst}
use passalong.Prelude.{
  ◌≡◌, refl, Bool, true, false, none, some, [], ◌++◌, Result, ok, err, if◌then◌else◌, arith,
}
use passalong.Store.Errors.{FsError}
use passalong.Fs.{RemotePath}
use passalong.Fs.Disk.{Node, Disk, lookup, outside, moved, rename_tree}
use passalong.Fs.Io.{
  World, Io, pure, lift, continue, ◌>>=◌, lift_fs, map_err, first, changed, changing, reading, stat,
  rename,
}

-- What a success without faults leaves
pub record Success {E A : Type 0} (Q : A → Disk → Type 0) (r : Result E A × World) : Type 0 where
  pub value : A
  pub is_ok : r.0 ≡ ok value
  pub no_faults : r.1.faults ≡ []
  pub leaves : Q value r.1.disk

-- From a disk with `P`, and without faults, an operation succeeds and leaves one with `Q`.
pub record Succeeds {E A : Type 0} (P : Disk → Type 0) (m : Io E A) (Q : A → Disk → Type 0)
    : Type 0 where
  pub run : (w : World) → w.faults ≡ [] → P w.disk → Success Q (m w)

module _ {E A : Type 0} {P : Disk → Type 0} {Q : A → Disk → Type 0} where
  pub Succeeds-pure : (a : A) → ((d : Disk) → P d → Q a d) → Succeeds P (pure {E = E} a) Q
  Succeeds-pure a h = record {
    run = λ w f p. record { value = a; is_ok = refl; no_faults = f; leaves = h w.disk p };
  }

  pub Succeeds-bind :
      {B : Type 0} {S : B → Disk → Type 0} {m : Io E A} {f : A → Io E B}
      → Succeeds P m Q
      → ((a : A) → Succeeds (Q a) (f a) S)
      → Succeeds P (m >>= f) S
  unfolding ◌>>=◌
  Succeeds-bind {B = B} {S = S} {m = m} {f = f} h k = record {
    run = λ w none_left p. go (m w) (h.run w none_left p);
  }
    where
      go : (r : Result E A × World) → Success Q r → Success S (continue r f)
      go (ok a, w) s =
          let same : s.value ≡ a = ground (arith, s.is_ok) in
          (k a).run w s.no_faults (subst (λ x. Q x w.disk) same s.leaves)
      go (err e, w) s = absurd (ground (arith, s.is_ok))

-- A result that is a success wherever `P` holds
pub Succeeds-lift :
    {E A : Type 0} {P : Disk → Type 0} (r : Result E A)
    → ((d : Disk) → P d → (a : A) × (r ≡ ok a))
    → Succeeds P (lift r) (λ _ d. P d)
Succeeds-lift r h = record {
  run =
      λ w f p. record { value = (h w.disk p).0; is_ok = (h w.disk p).1; no_faults = f; leaves = p };
}

module _ {A : Type 0} {P : Disk → Type 0} {Q : A → Disk → Type 0} where
  pub Succeeds-lift_fs : {m : Io FsError A} → Succeeds P m Q → Succeeds P (lift_fs m) Q
  unfolding lift_fs
  Succeeds-lift_fs {m = m} h = record { run = λ w f p. go (m w) (h.run w f p) }
    where
      go : (r : Result FsError A × World) → Success Q r → Success Q (map_err r.0, r.1)
      go (ok a, w) s = record {
        value = s.value;
        is_ok = ground (arith, s.is_ok);
        no_faults = s.no_faults;
        leaves = s.leaves;
      }
      go (err e, w) s = absurd (ground (arith, s.is_ok))

  -- A precondition that is split in two
  pub Succeeds-if :
      {E : Type 0} {m n : Io E A} (b : Bool)
      → Succeeds P m Q
      → Succeeds P n Q
      → Succeeds P (if b then m else n) Q
  Succeeds-if true h k = h
  Succeeds-if false h k = k

module _ {P : Disk → Type 0} where
  pub Succeeds-stat :
      (path : RemotePath) → Succeeds P (stat path) (λ found d. P d × (lookup d path ≡ found))
  unfolding stat reading
  Succeeds-stat path = record {
    run = λ w f p. record {
      value = lookup w.disk path;
      is_ok = ground (arith, f);
      no_faults = ground (arith, f);
      leaves = (p, refl);
    };
  }

  pub Succeeds-changing :
      {Q : Disk → Type 0} (f : Disk → Result FsError Disk)
      → ((d : Disk) → P d → (d' : Disk) × (f d ≡ ok d') × Q d')
      → Succeeds P (changing f) (λ _ d. Q d)
  unfolding changing
  Succeeds-changing {Q} f h = record { run = λ w none_left p. go w none_left (h w.disk p) }
    where
      go :
          (w : World)
          → w.faults ≡ []
          → (d' : Disk) × (f w.disk ≡ ok d') × Q d'
          → Success (λ _ d. Q d) (changed w (first w.faults) (f w.disk))
      go w none_left (d', e, q) =
          let done : (ok tt, record w { disk = d'; faults = [] })
              ≡ changed w (first w.faults) (f w.disk) =
            ground (arith, none_left, e) in
          subst (Success (λ _ d. Q d)) done
            (record { value = tt; is_ok = refl; no_faults = refl; leaves = q })

pub Succeeds-pre :
    {E A : Type 0} {P P' : Disk → Type 0} {Q : A → Disk → Type 0} {m : Io E A}
    → ((d : Disk) → P' d → P d)
    → Succeeds P m Q
    → Succeeds P' m Q
Succeeds-pre h k = record { run = λ w f p. k.run w f (h w.disk p) }

module _ {P Q : Disk → Type 0} where
  -- A rename succeeds where the source is there and the target is free.
  pub Succeeds-rename :
      (from to : RemotePath)
      → ((d : Disk) → P d → (n : Node) × (lookup d from ≡ some n))
      → ((d : Disk) → P d → lookup d to ≡ none)
      → ((d d' : Disk) → P d → rename_tree d from to ≡ ok d' → Q d')
      → Succeeds P (rename from to) (λ _ d. Q d)
  unfolding rename rename_tree
  Succeeds-rename from to source free h = Succeeds-changing _ λ d p.
      let (n, found) = source d p in
      let renamed : rename_tree d from to ≡ ok (moved from to d ++ outside from d) =
        ground (arith, found, free d p) in
      (moved from to d ++ outside from d, renamed, h d _ p renamed)
