-- ===== src/Store/FsStore/Complete.antt =====
-- `put` and the completeness of the entries of `items/`, under faults.
use mathlib.Core.Path.{subst}
use mathlib.Core.List.{append_assoc, append-nil}
use passalong.Prelude.{
  ◌≡◌, sym, ◌∙◌, Option, none, some, [], ◌∷◌, ◌++◌, Text, Result, ok, err, arith, Result-cases, inl,
  inr, codes,
}
use passalong.Model.Time.{Chrono}
use passalong.Model.Digest.{Crates, ContentDigest, sha256_hex}
use passalong.Model.Id
use passalong.Model.Id.{ItemId, ContentKey}
use passalong.Model.Meta.{ItemMeta, NewItem, finish_keyed}
use passalong.Store.Errors.{FsError, StoreError, already_exists}
use passalong.Store.Format.{Content, Written}
use passalong.Fs
use passalong.Fs.{RemotePath}
use passalong.Fs.Disk.{Disk}
use passalong.Fs.Io.{World, Io, map_err, attempt, create_dir_all, rename}
use passalong.Fs.Holds.{
  Outcome, Either, Holds, Holds-pure, Holds-bind, Holds-lift, Holds-given, Holds-changing,
  Holds-attempt, Holds-weaken,
}
use passalong.Fs.Keeps.{
  Keeps, Keeps-pure, Keeps-fail, Keeps-lift, Keeps-lift_fs, Keeps-attempt, Keeps-bind,
  Keeps-next_u64, Keeps→Holds,
}
use passalong.Store.FsStore.{FsStore, items_dir, tmp_dir, item_dir, content_file, meta_file}
use passalong.Store.FsStore.Writes.{
  retract, published, publish, preview, stage_and_publish, make_staging, staged, put, named,
  model_err, write_meta, write_content, bury, cleared, confirmed, unless_present,
}
use passalong.Store.FsStore.Reads.{Keeps-check_key, Keeps-read_meta, Keeps-find_by_content_key}
use passalong.Store.FsStore.Items.{ItemAt, Complete}
use passalong.Store.FsStore.Renames.{Complete-published}
use passalong.Store.FsStore.Staging.{
  Staged, join-ok, Keeps-make_items, Keeps-make_tmp, Keeps-take, Keeps-cleared, Holds-write_content,
  Holds-write_meta,
}

-- The metadata of a new item has the content's digest.
finish-digest :
    (chrono : Chrono) (crates : Crates) (item : NewItem) (now : chrono.DateTime)
    (digest : ContentDigest) (key : ContentKey) (preview : Option Text)
    (meta : ItemMeta chrono.DateTime)
    → model_err (finish_keyed chrono crates item now digest key preview) ≡ ok meta
    → (meta.sha256 ≡ sha256_hex crates digest) × (meta.size ≡ digest.size)
unfolding finish_keyed
finish-digest chrono crates item now digest key preview meta h =
    elim (Result-cases (Id.new chrono now key)) [
      | inl (e, f) ↦ ground (arith, h, f)
      | inr (id, f) ↦ ground (arith, h, f)
    ]

module _ (chrono : Chrono) (crates : Crates) (s : FsStore chrono.DateTime) where
  open chrono use {DateTime}

  abbrev C : Disk → Type 0
  C = Complete chrono crates s

  abbrev T : RemotePath
  T = tmp_dir chrono s

  Keeps-bury :
      (grave x : RemotePath)
      → grave ≡ T ++ x
      → (r : Result FsError Unit) → Keeps C (bury chrono crates grave r)
  Keeps-bury grave x e (ok u) =
      subst (λ p. Keeps C (cleared chrono crates p)) (sym e) (Keeps-cleared chrono crates s x)
  Keeps-bury grave x e (err f) = Keeps-pure tt

  Keeps-retract : (id : ItemId) → Keeps C (retract chrono crates s id)
  unfolding retract item_dir
  Keeps-retract id = Keeps-bind Keeps-next_u64 λ token.
      Holds-bind (Holds-lift (map_err (Fs.join (items_dir chrono s) id.repr)) (λ d c. c)) λ item.
        Holds-given λ item_is.
          Holds-bind
            (Holds-lift
              (map_err (
                Fs.join T (named chrono crates (codes "retracted-" ++ id.repr ++ codes "-") token)))
              (λ d c. c))
            λ grave. Holds-given λ grave_is.
              Keeps-bind
                (Keeps-attempt (
                  subst (λ p. Keeps C (rename p grave))
                    (sym (join-ok (items_dir chrono s) item id.repr item_is))
                    (subst (λ p. Keeps C (rename (items_dir chrono s ++ id.repr ∷ []) p))
                      (sym (join-ok T grave _ grave_is)) (Keeps-take chrono crates s id.repr _))))
                (Keeps-bury grave _ (join-ok T grave _ grave_is))

  Keeps-confirmed :
      (meta : ItemMeta DateTime) (r : Result StoreError Unit)
      → Keeps C (confirmed chrono crates s meta r)
  Keeps-confirmed meta (ok u) = Keeps-pure _
  Keeps-confirmed meta (err e) =
      Keeps-bind (Keeps-attempt (Keeps-retract meta.id)) λ _. Keeps-fail e

  Keeps-published :
      (meta : ItemMeta DateTime) (renamed : Result FsError Unit)
      → Keeps C (published chrono crates s meta renamed)
  unfolding published
  Keeps-published meta (ok u) =
      Keeps-bind (Keeps-attempt (Keeps-check_key chrono s crates)) (Keeps-confirmed meta)
  Keeps-published meta (err (already_exists t)) =
      Keeps-bind (Keeps-read_meta chrono s meta.id) λ _. Keeps-pure _
  Keeps-published meta (err (FsError.not_found t)) = Keeps-fail _
  Keeps-published meta (err (FsError.permission_denied t)) = Keeps-fail _
  Keeps-published meta (err (FsError.invalid_path t)) = Keeps-fail _
  Keeps-published meta (err (FsError.other t u)) = Keeps-fail _

  -- The publishing rename
  Holds-publish_rename :
      (token : Text) (name : Text)
      → Holds
          (λ d. C d × ItemAt chrono crates s d T token name)
          (rename (T ++ token ∷ []) (items_dir chrono s ++ name ∷ []))
          C
          (λ _ d. C d)
  unfolding rename
  Holds-publish_rename token name =
      Holds-changing _ (λ d p. p.0)
        λ d d' p h. Complete-published chrono crates s d d' token name h p.1 p.0

  Keeps-looked_at : (r : Result FsError Unit) (d : Disk) → Either C (λ _ d. C d) r d → C d
  Keeps-looked_at (ok u) d c = c
  Keeps-looked_at (err e) d c = c

  pub publish_rename :
      (token name : Text) (target : RemotePath)
      → target ≡ items_dir chrono s ++ name ∷ []
      → Holds
          (λ d. C d × ItemAt chrono crates s d T token name)
          (attempt {F = StoreError} (rename (T ++ token ∷ []) target))
          C
          (λ _ d. C d)
  publish_rename token name target there =
      subst
        (λ p.
          Holds (λ d. C d × ItemAt chrono crates s d T token name)
            (attempt {F = StoreError} (rename (T ++ token ∷ []) p)) C (λ _ d. C d))
        (sym there) (Holds-weaken (Holds-attempt (Holds-publish_rename token name)) Keeps-looked_at)

  Holds-publish :
      (item : NewItem) (written : Written) (seen : Option Text) (token : Text)
      → Holds
          (Staged chrono crates s token written)
          (publish chrono crates s item written seen (T ++ token ∷ []))
          C
          (λ _ d. C d)
  unfolding publish
  Holds-publish item written seen token = Holds-bind (Holds-lift _ (λ d p. p.complete)) λ meta.
      Holds-given λ finished.
        let (digest_is, size_is) =
          finish-digest chrono crates item s.now written.digest _ seen meta finished in
        Holds-bind (Holds-lift _ (λ d p. p.complete)) λ path. Holds-given λ path_is.
          let at_path : path ≡ T ++ token ∷ meta_file ∷ [] =
            join-ok (T ++ token ∷ []) path meta_file path_is
            ∙ append_assoc T (token ∷ []) (meta_file ∷ []) in
          let write : Holds (Staged chrono crates s token written)
              (write_meta chrono crates s path meta written.salt) C
              (λ _ d. C d × ItemAt chrono crates s d T token meta.id.repr) =
            subst
              (λ p.
                Holds (Staged chrono crates s token written)
                  (write_meta chrono crates s p meta written.salt) C
                  (λ _ d. C d × ItemAt chrono crates s d T token meta.id.repr))
              (sym at_path)
              (Holds-write_meta chrono crates s token written meta digest_is size_is) in
          Holds-bind write λ _.
            Holds-bind
              (Holds-lift (map_err (Fs.join (items_dir chrono s) meta.id.repr)) (λ d p. p.0))
              λ target. Holds-given λ target_is.
                Holds-bind
                  (publish_rename token meta.id.repr target
                    (join-ok (items_dir chrono s) target meta.id.repr target_is))
                  λ renamed. Keeps-published meta renamed

  Keeps-unless_present :
      (item : NewItem) (written : Written) (token : Text) (found : Option (ItemMeta DateTime))
      → Holds
          (Staged chrono crates s token written)
          (unless_present chrono crates s item written (T ++ token ∷ []) found)
          C
          (λ _ d. C d)
  Keeps-unless_present item written token (some meta) = Holds-pure _ (λ d p. p.complete)
  Keeps-unless_present item written token none = Holds-publish item written _ token

  Holds-stage_and_publish :
      (item : NewItem) (stream : Content) (token : Text)
      → Keeps C (stage_and_publish chrono crates s item stream (T ++ token ∷ []))
  unfolding stage_and_publish
  Holds-stage_and_publish item stream token =
      Holds-bind (Holds-lift (map_err (Fs.join (T ++ token ∷ []) content_file)) (λ d c. c)) λ path.
        Holds-given λ path_is.
          let at_path : path ≡ T ++ token ∷ content_file ∷ [] =
            join-ok (T ++ token ∷ []) path content_file path_is
            ∙ append_assoc T (token ∷ []) (content_file ∷ []) in
          let write : Holds C (write_content chrono crates s stream path) C
              (λ written d. Staged chrono crates s token written d) =
            subst
              (λ p.
                Holds C (write_content chrono crates s stream p) C
                  (λ written d. Staged chrono crates s token written d))
              (sym at_path) (Holds-write_content chrono crates s stream token) in
          Holds-bind write λ written.
            Holds-bind (Keeps→Holds (Keeps-find_by_content_key chrono s _) (λ d p. p.complete))
              λ found. Keeps-unless_present item written token found

  -- A staging directory, and work in it
  pub Holds-make_staging :
      Holds C
        (make_staging chrono crates s)
        C
        (λ staging d. C d × ((token : Text) × (staging ≡ T ++ token ∷ [])))
  unfolding make_staging
  Holds-make_staging = Holds-bind Keeps-next_u64 λ n.
      Holds-bind (Holds-lift (map_err (Fs.join T (named chrono crates [] n))) (λ d c. c)) λ staging.
        Holds-given λ staging_is.
          let there = join-ok T staging (named chrono crates [] n) staging_is in
          let made : Keeps C (create_dir_all staging) =
            subst (λ p. Keeps C (create_dir_all p)) (sym there)
              (Keeps-make_tmp chrono crates s _) in
          Holds-bind (Keeps-lift_fs made)
            λ _. Holds-pure staging (λ d c. (c, (named chrono crates [] n, there)))

  pub Keeps-staged :
      {A : Type 0} (token : Text) (m : Io StoreError A)
      → Keeps C m
      → Keeps C (staged chrono crates (T ++ token ∷ []) m)
  unfolding staged
  Keeps-staged token m h =
      Keeps-bind (Keeps-attempt h)
        λ result. Keeps-bind (Keeps-cleared chrono crates s (token ∷ [])) λ _. Keeps-lift result

  pub Keeps-make_tmp_dir : Keeps C (create_dir_all T)
  Keeps-make_tmp_dir =
      subst (λ p. Keeps C (create_dir_all p)) (append-nil T) (Keeps-make_tmp chrono crates s [])

  Keeps-put : (item : NewItem) (stream : Content) → Keeps C (put chrono crates s item stream)
  unfolding put
  Keeps-put item stream = Keeps-bind (Keeps-check_key chrono s crates) λ _.
      Keeps-bind (Keeps-lift_fs (Keeps-make_items chrono crates s)) λ _.
        Keeps-bind (Keeps-lift_fs Keeps-make_tmp_dir) λ _. Holds-bind Holds-make_staging λ staging.
          Holds-given λ p.
            subst
              (λ q.
                Keeps C (staged chrono crates q (stage_and_publish chrono crates s item stream q)))
              (sym p.1) (Keeps-staged p.0 _ (Holds-stage_and_publish item stream p.0))

  pub Keeps→Complete :
      {A : Type 0} (m : Io StoreError A) (w : World) → Keeps C m → C w.disk → C (m w).1.disk
  unfolding Outcome
  Keeps→Complete {A = A} m w h c = go (m w) (h.run w c)
    where
      go : (r : Result StoreError A × World) → Outcome C (λ _ d. C d) r → C r.1.disk
      go (ok a, w) c = c
      go (err e, w) c = c

  -- In a store whose every entry of `items/` is a complete item (the content written to its end, the
  -- metadata encoded under the entry's id, with the content's digest and size), they all are again after
  -- `put`, whatever the content stream does, whichever operations of the backend fail, in the middle of
  -- a write or of a removal too, and whether `put` succeeds or not.
  pub put-Complete :
      (item : NewItem) (stream : Content) (w : World)
      → Complete chrono crates s w.disk
      → Complete chrono crates s (put chrono crates s item stream w).1.disk
  put-Complete item stream w c =
      Keeps→Complete (put chrono crates s item stream) w (Keeps-put item stream) c
