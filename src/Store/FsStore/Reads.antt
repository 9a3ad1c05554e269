-- ===== src/Store/FsStore/Reads.antt =====
-- The reading operations of `FsStore` and the disk.
use passalong.Prelude.{ℕ, ◌&&◌, Option, none, some, List, [], ◌∷◌, ok, err, if◌then◌else◌}
use passalong.Model.Time.{Chrono}
use passalong.Model.Digest.{Crates}
use passalong.Model.Id.{ItemId, ContentKey}
use passalong.Model.Meta.{ItemMeta}
use passalong.Store.Errors.{StoreError}
use passalong.Fs.{RemotePath}
use passalong.Fs.Disk.{Disk}
use passalong.Fs.Io.{pure, fail, read_dir, open_read, read_to_end, stat}
use passalong.Fs.Keeps.{
  Keeps, Keeps-pure, Keeps-fail, Keeps-lift, Keeps-reading, Keeps-lift_fs, Keeps-attempt,
  Keeps-bind, Keeps-if,
}
use passalong.Store.FsStore.{
  FsStore, item_dir, item_ids, read_item, read_meta, find_loop, find_by_content_key, is_skipped,
}
use passalong.Store.FsStore.Writes.{check_plain, check_header, check_key}

module _ {P : Disk → Type 0} where
  Keeps-read_dir : (p : RemotePath) → Keeps P (read_dir p)
  unfolding read_dir
  Keeps-read_dir p = Keeps-reading _

  Keeps-open_read : (p : RemotePath) → Keeps P (open_read p)
  unfolding open_read
  Keeps-open_read p = Keeps-reading _

  Keeps-read_to_end : (b : List ℕ) → Keeps P (read_to_end b)
  unfolding read_to_end
  Keeps-read_to_end b = Keeps-reading _

  pub Keeps-stat : (p : RemotePath) → Keeps P (stat p)
  unfolding stat
  Keeps-stat p = Keeps-reading _

module _ (chrono : Chrono) (s : FsStore chrono.DateTime) {P : Disk → Type 0} where
  pub Keeps-item_dir : (id : ItemId) → Keeps P (item_dir chrono s id)
  unfolding item_dir
  Keeps-item_dir id = Keeps-lift _

  Keeps-item_ids : Keeps P (item_ids chrono s)
  unfolding item_ids
  Keeps-item_ids =
      Keeps-bind (Keeps-attempt (Keeps-read_dir _)) λ _. Keeps-bind (Keeps-lift _) λ _. Keeps-pure _

  Keeps-read_item : (id : ItemId) → Keeps P (read_item chrono s id)
  unfolding read_item
  Keeps-read_item id = Keeps-bind (Keeps-item_dir id) λ _. Keeps-bind (Keeps-lift _) λ _.
      Keeps-bind (Keeps-lift_fs (Keeps-open_read _)) λ _.
        Keeps-bind (Keeps-attempt (Keeps-read_to_end _))
          λ _. Keeps-bind (Keeps-lift _) λ _. Keeps-lift _

  pub Keeps-read_meta : (id : ItemId) → Keeps P (read_meta chrono s id)
  unfolding read_meta
  Keeps-read_meta id = Keeps-bind (Keeps-read_item id) λ _. Keeps-pure _

  Keeps-find_loop : (ids : List ItemId) → Keeps P (find_loop chrono s ids)
  unfolding find_loop
  Keeps-find_loop [] = Keeps-pure none
  Keeps-find_loop (id ∷ ids) = Keeps-bind (Keeps-attempt (Keeps-read_meta id)) λ found.
      elim found
        as (λ r. Keeps {E = StoreError} {A = Option (ItemMeta chrono.DateTime)} P (elim r [
          | ok meta ↦ pure (some meta)
          | err e ↦ if is_skipped e then find_loop chrono s ids else fail e
        ])) [
          | ok meta ↦ Keeps-pure (some meta)
          | err e ↦ Keeps-if (is_skipped e) (Keeps-find_loop ids) (Keeps-fail e)
        ]

  pub Keeps-find_by_content_key : (key : ContentKey) → Keeps P (find_by_content_key chrono s key)
  unfolding find_by_content_key
  Keeps-find_by_content_key key = Keeps-bind Keeps-item_ids λ ids. Keeps-find_loop _

  module _ (crates : Crates) where
    Keeps-check_plain : Keeps P (check_plain chrono crates s)
    unfolding check_plain
    Keeps-check_plain = Keeps-bind (Keeps-lift_fs (Keeps-stat _)) λ _.
        Keeps-bind (Keeps-lift _) λ _. Keeps-bind (Keeps-lift_fs (Keeps-stat _)) λ _.
          Keeps-bind (Keeps-lift _) λ _. Keeps-bind (Keeps-lift_fs (Keeps-stat _)) λ _. Keeps-lift _

    Keeps-check_header : Keeps P (check_header chrono crates s)
    unfolding check_header
    Keeps-check_header = Keeps-bind (Keeps-lift_fs (Keeps-stat _)) λ _.
        Keeps-bind (Keeps-lift _) λ _. Keeps-bind (Keeps-attempt (Keeps-open_read _)) λ _.
          Keeps-bind (Keeps-lift _) λ _. Keeps-bind (Keeps-attempt (Keeps-read_to_end _)) λ _.
            Keeps-bind (Keeps-lift _)
              λ _. Keeps-bind (Keeps-lift _) λ _. Keeps-if _ (Keeps-pure _) (Keeps-fail _)

    pub Keeps-check_key : Keeps P (check_key chrono crates s)
    unfolding check_key
    Keeps-check_key =
        Keeps-if s.plain_guard Keeps-check_plain
          (Keeps-if (s.guard && s.format.is_sealed) Keeps-check_header (Keeps-pure tt))
