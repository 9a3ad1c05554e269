-- ===== src/Store/FsStore/Others.antt =====
-- `delete` and `import` and the completeness of the entries of `items/`, under faults.
use mathlib.Core.Path.{subst}
use mathlib.Core.List.{append_assoc}
use passalong.Prelude.{
  ◌==◌, ◌≡◌, sym, ap, ◌∙◌, Option, none, some, [], ◌∷◌, ◌++◌, Text, text_eq, text_eq→eq, ok, arith,
  Bool-cases, inl, inr, codes,
}
use passalong.Model.Time.{Chrono}
use passalong.Model.Digest.{Crates, Bytes, sha256_hex}
use passalong.Model.Id.{ItemId}
use passalong.Model.Meta.{ItemMeta}
use passalong.Store.Format.{Content, Written}
use passalong.Fs
use passalong.Fs.{RemotePath}
use passalong.Fs.Disk.{Disk, Node}
use passalong.Fs.Io.{World, map_err, remove_dir_all, rename}
use passalong.Fs.Holds.{Holds, Holds-bind, Holds-lift, Holds-given}
use passalong.Fs.Keeps.{
  Keeps, Keeps-pure, Keeps-lift, Keeps-lift_fs, Keeps-attempt, Keeps-bind, Keeps-next_u64,
}
use passalong.Store.FsStore.{FsStore, items_dir, tmp_dir, item_dir, content_file, meta_file}
use passalong.Store.FsStore.Writes.{staged, named, write_meta, write_content}
use passalong.Store.FsStore.Changes.{delete, imported, import_item, import_new, stage_import}
use passalong.Store.FsStore.Reads.{Keeps-check_key, Keeps-read_meta, Keeps-stat}
use passalong.Store.FsStore.Items.{ItemAt, Complete}
use passalong.Store.FsStore.Complete.{
  Keeps→Complete, Keeps-make_tmp_dir, Holds-make_staging, Keeps-staged, publish_rename,
}
use passalong.Store.FsStore.Staging.{
  Staged, join-ok, Keeps-make_items, Keeps-take, Keeps-remove_tmp, Holds-write_content,
  Holds-write_meta,
}

-- A metadata that is imported is that of the content.
imported-ok :
    (chrono : Chrono) (crates : Crates) (id : ItemId) (meta copy : ItemMeta chrono.DateTime)
    (written : Written)
    → imported chrono crates id meta written ≡ ok copy
    → (copy.sha256 ≡ sha256_hex crates written.digest)
      × (copy.size ≡ written.digest.size)
      × (copy.id ≡ id)
unfolding imported
imported-ok chrono crates id meta copy written h =
    elim (Bool-cases (text_eq (sha256_hex crates written.digest) meta.sha256)) [
      | inl e ↦ elim (Bool-cases (written.digest.size == meta.size)) [
        | inl f ↦
            ground (arith, h, e, f, text_eq→eq (sha256_hex crates written.digest) meta.sha256 e)
        | inr f ↦ ground (arith, h, e, f)
      ]
      | inr e ↦ ground (arith, h, e)
    ]

module _ (chrono : Chrono) (crates : Crates) (s : FsStore chrono.DateTime) where
  open chrono use {DateTime}

  abbrev C : Disk → Type 0
  C = Complete chrono crates s

  abbrev T : RemotePath
  T = tmp_dir chrono s

  Keeps-delete : (id : ItemId) → Keeps C (delete chrono crates s id)
  unfolding delete item_dir
  Keeps-delete id = Keeps-bind (Keeps-check_key chrono s crates) λ _.
      Keeps-bind (Keeps-attempt (Keeps-read_meta chrono s id)) λ _.
        Keeps-bind (Keeps-lift _) λ meta.
          Keeps-bind (Keeps-lift_fs (Keeps-make_tmp_dir chrono crates s)) λ _.
            Keeps-bind Keeps-next_u64 λ token.
              Holds-bind
                (Holds-lift
                  (map_err (
                    Fs.join T
                      (named chrono crates (codes "deleted-" ++ id.repr ++ codes "-") token)))
                  (λ d c. c))
                λ grave. Holds-given λ grave_is.
                  Holds-bind
                    (Holds-lift (map_err (Fs.join (items_dir chrono s) id.repr)) (λ d c. c))
                    λ item. Holds-given λ item_is.
                      let there = join-ok T grave _ grave_is in
                      let take_out : Keeps C (rename item grave) =
                        subst (λ p. Keeps C (rename p grave))
                          (sym (join-ok (items_dir chrono s) item id.repr item_is))
                          (subst (λ p. Keeps C (rename (items_dir chrono s ++ id.repr ∷ []) p))
                            (sym there) (Keeps-take chrono crates s id.repr _)) in
                      let remove : Keeps C (remove_dir_all grave) =
                        subst (λ p. Keeps C (remove_dir_all p)) (sym there)
                          (Keeps-remove_tmp chrono crates s _) in
                      Keeps-bind (Keeps-attempt take_out) λ renamed.
                        Keeps-bind (Keeps-lift _)
                          λ _. Keeps-bind (Keeps-lift_fs remove) λ _. Keeps-pure meta

  -- In a store whose every entry of `items/` is a complete item, they all are again after `delete`,
  -- whichever operations of the backend fail, in the middle of a removal too, and whether `delete`
  -- succeeds or not.
  pub delete-Complete :
      (id : ItemId) (w : World)
      → Complete chrono crates s w.disk
      → Complete chrono crates s (delete chrono crates s id w).1.disk
  delete-Complete id w c =
      Keeps→Complete chrono crates s (delete chrono crates s id) w (Keeps-delete id) c

  Keeps-stage_import :
      (id : ItemId) (meta : ItemMeta DateTime) (stream : Content) (target : RemotePath)
      (token : Text)
      → target ≡ items_dir chrono s ++ id.repr ∷ []
      → Keeps C (stage_import chrono crates s id meta stream target (T ++ token ∷ []))
  unfolding stage_import
  Keeps-stage_import id meta stream target token target_is =
      Holds-bind (Holds-lift (map_err (Fs.join (T ++ token ∷ []) content_file)) (λ d c. c)) λ path.
        Holds-given λ path_is.
          let at_path : path ≡ T ++ token ∷ content_file ∷ [] =
            join-ok (T ++ token ∷ []) path content_file path_is
            ∙ append_assoc T (token ∷ []) (content_file ∷ []) in
          let write : Holds C (write_content chrono crates s stream path) C
              (λ written d. Staged chrono crates s token written d) =
            subst
              (λ p.
                Holds C (write_content chrono crates s stream p) C
                  (λ written d. Staged chrono crates s token written d))
              (sym at_path) (Holds-write_content chrono crates s stream token) in
          Holds-bind write λ written. Holds-bind (Holds-lift _ (λ d p. p.complete)) λ copy.
            Holds-given λ copy_is.
              let (digest_is, size_is, id_is) =
                imported-ok chrono crates id meta copy written copy_is in
              Holds-bind
                (Holds-lift (map_err (Fs.join (T ++ token ∷ []) meta_file)) (λ d p. p.complete))
                λ meta_path. Holds-given λ meta_path_is.
                  let at_meta : meta_path ≡ T ++ token ∷ meta_file ∷ [] =
                    join-ok (T ++ token ∷ []) meta_path meta_file meta_path_is
                    ∙ append_assoc T (token ∷ []) (meta_file ∷ []) in
                  let write_it : Holds (Staged chrono crates s token written)
                      (write_meta chrono crates s meta_path copy written.salt) C
                      (λ _ d. C d × ItemAt chrono crates s d T token copy.id.repr) =
                    subst
                      (λ p.
                        Holds (Staged chrono crates s token written)
                          (write_meta chrono crates s p copy written.salt) C
                          (λ _ d. C d × ItemAt chrono crates s d T token copy.id.repr))
                      (sym at_meta)
                      (Holds-write_meta chrono crates s token written copy digest_is size_is) in
                  Holds-bind write_it λ _.
                    Holds-bind
                      (publish_rename chrono crates s token copy.id.repr target
                        (target_is ∙ ap (λ i. items_dir chrono s ++ i.repr ∷ []) (sym id_is)))
                      λ renamed. Keeps-lift _

  Keeps-import_new :
      (id : ItemId) (meta : ItemMeta DateTime) (stream : Content) (target : RemotePath)
      (found : Option Node)
      → target ≡ items_dir chrono s ++ id.repr ∷ []
      → Keeps C (import_new chrono crates s id meta stream target found)
  unfolding import_new
  Keeps-import_new id meta stream target (some node) target_is = Keeps-read_meta chrono s id
  Keeps-import_new id meta stream target none target_is =
      Keeps-bind (Keeps-lift_fs (Keeps-make_items chrono crates s)) λ _.
        Keeps-bind (Keeps-lift_fs (Keeps-make_tmp_dir chrono crates s)) λ _.
          Holds-bind (Holds-make_staging chrono crates s) λ staging. Holds-given λ p.
            subst
              (λ q.
                Keeps C
                  (staged chrono crates q (stage_import chrono crates s id meta stream target q)))
              (sym p.1)
              (Keeps-staged chrono crates s p.0 _
                (Keeps-stage_import id meta stream target p.0 target_is))

  Keeps-import_item :
      (decode_array : Text → Option Bytes) (meta : ItemMeta DateTime) (stream : Content)
      → Keeps C (import_item chrono crates decode_array s meta stream)
  unfolding import_item item_dir
  Keeps-import_item decode_array meta stream = Keeps-bind (Keeps-lift _) λ id.
      Holds-bind (Holds-lift (map_err (Fs.join (items_dir chrono s) id.repr)) (λ d c. c)) λ target.
        Holds-given λ target_is. Keeps-bind (Keeps-lift_fs (Keeps-stat target)) λ found.
          Keeps-import_new id meta stream target found
            (join-ok (items_dir chrono s) target id.repr target_is)

  -- In a store whose every entry of `items/` is a complete item, they all are again after `import` of
  -- another store's item, whatever its content and its metadata are, whichever operations of the backend
  -- fail, and whether `import` succeeds or not.
  pub import-Complete :
      (decode_array : Text → Option Bytes) (meta : ItemMeta DateTime) (stream : Content) (w : World)
      → Complete chrono crates s w.disk
      → Complete chrono crates s (import_item chrono crates decode_array s meta stream w).1.disk
  import-Complete decode_array meta stream w c =
      Keeps→Complete chrono crates s (import_item chrono crates decode_array s meta stream) w
        (Keeps-import_item decode_array meta stream) c
