-- ===== src/Store/FsStore/Items.antt =====
-- What makes an item of a store complete, and what the changes of the disk do to the items.
use passalong.Prelude.{
  ℕ, ◌≡◌, sym, ap, ◌∙◌, false, none, some, [], ◌∷◌, ◌++◌, Text, text_eq, ok, if◌then◌else◌, arith,
}
use passalong.Model.Time.{Chrono}
use passalong.Model.Digest.{Crates, Bytes, sha256_hex}
use passalong.Model.Meta.{ItemMeta}
use passalong.Store.Format.{Content, Written}
use passalong.Fs.{RemotePath, below}
use passalong.Fs.Disk.{Node, file, Disk, lookup, set_file, outside, trimmed, is_none, make_dirs}
use passalong.Fs.Lookup.{
  path_eq-apart, lookup-set_file, lookup-outside, lookup-trimmed, lookup-make_dirs,
}
use passalong.Store.FsStore.{FsStore, items_dir, tmp_dir, content_file, meta_file}

module _ (chrono : Chrono) (crates : Crates) (s : FsStore chrono.DateTime) where
  open chrono use {DateTime}

  -- A complete item in the directory `entry` of `path`, for the id `name`: its content was written to
  -- the end, its metadata encoded under its id, and the metadata has the content's digest and size.
  pub record ItemAt (d : Disk) (path : RemotePath) (entry name : Text) : Type 0 where
    pub content : Content
    pub stored : Bytes
    pub written : Written
    pub meta : ItemMeta DateTime
    pub json : Bytes
    pub was_written : s.format.write_content content ≡ (stored, ok written)
    pub was_encoded : s.format.encode_meta meta written.salt ≡ ok json
    pub named : meta.id.repr ≡ name
    pub digest_is : meta.sha256 ≡ sha256_hex crates written.digest
    pub size_is : meta.size ≡ written.digest.size
    pub has_content : lookup d (path ++ entry ∷ content_file ∷ []) ≡ some (file stored)
    pub has_meta : lookup d (path ++ entry ∷ meta_file ∷ []) ≡ some (file json)

  -- Every entry of `items/` is a complete item.
  unfoldable pub Complete : Disk → Type 0
  Complete d =
      (name : Text)
      → is_none (lookup d (items_dir chrono s ++ name ∷ [])) ≡ false
      → ItemAt d (items_dir chrono s) name name

  -- The two disks have the same trees in `items/`.
  unfoldable pub SameItems : Disk → Disk → Type 0
  SameItems d d' =
      (name : Text) (rest : RemotePath)
      → lookup d' (items_dir chrono s ++ name ∷ rest) ≡ lookup d (items_dir chrono s ++ name ∷ rest)

  -- A complete item somewhere else on another disk
  pub ItemAt-moved :
      {d d' : Disk} {path path' : RemotePath} {entry entry' name : Text}
      → ItemAt d path entry name
      → ((rest : RemotePath) (n : Node)
          → lookup d (path ++ entry ∷ rest) ≡ some n
          → lookup d' (path' ++ entry' ∷ rest) ≡ some n)
      → ItemAt d' path' entry' name
  ItemAt-moved item same = record {
    content = item.content;
    stored = item.stored;
    written = item.written;
    meta = item.meta;
    json = item.json;
    was_written = item.was_written;
    was_encoded = item.was_encoded;
    named = item.named;
    digest_is = item.digest_is;
    size_is = item.size_is;
    has_content = same (content_file ∷ []) (file item.stored) item.has_content;
    has_meta = same (meta_file ∷ []) (file item.json) item.has_meta;
  }

  pub Complete-SameItems : (d d' : Disk) → SameItems d d' → Complete d → Complete d'
  unfolding Complete SameItems
  Complete-SameItems d d' same c name h =
      ItemAt-moved (c name (sym (ap is_none (same name [])) ∙ h)) (λ rest n e. same name rest ∙ e)

  -- Nothing of `items/` is in `tmp/`, and the other way round.
  pub apart_tmp :
      (x y : RemotePath) → below (tmp_dir chrono s ++ x) (items_dir chrono s ++ y) ≡ none
  unfolding below items_dir tmp_dir text_eq
  apart_tmp x y = ground arith

  pub apart_items :
      (name : Text) (x y : RemotePath)
      → below (items_dir chrono s ++ name ∷ y) (tmp_dir chrono s ++ x) ≡ none
  unfolding below items_dir tmp_dir text_eq
  apart_items name x y = ground arith

  above_items :
      (name : Text) (x : RemotePath)
      → below (items_dir chrono s ++ name ∷ x) (items_dir chrono s) ≡ none
  unfolding below items_dir text_eq
  above_items name x = ground arith

  -- Making `items/`, or directories in `tmp/`
  pub same-make_items : (d d' : Disk) → make_dirs d [] (items_dir chrono s) ≡ ok d' → SameItems d d'
  unfolding SameItems is_none
  same-make_items d d' h name rest =
      lookup-make_dirs d d' [] (items_dir chrono s) (items_dir chrono s ++ name ∷ rest) h
        (ap is_none (above_items name rest))

  pub same-make_tmp :
      (x : RemotePath) (d d' : Disk)
      → make_dirs d [] (tmp_dir chrono s ++ x) ≡ ok d'
      → SameItems d d'
  unfolding SameItems is_none
  same-make_tmp x d d' h name rest =
      lookup-make_dirs d d' [] (tmp_dir chrono s ++ x) (items_dir chrono s ++ name ∷ rest) h
        (ap is_none (apart_items name x rest))

  -- Writing a file in `tmp/`
  pub same-set_file :
      (x : RemotePath) (b : Bytes) (d : Disk) → SameItems d (set_file (tmp_dir chrono s ++ x) b d)
  unfolding SameItems
  same-set_file x b d name rest =
      lookup-set_file (tmp_dir chrono s ++ x) (items_dir chrono s ++ name ∷ rest) b d
      ∙ ap (λ t. if t then some (file b) else lookup d (items_dir chrono s ++ name ∷ rest))
          (path_eq-apart (tmp_dir chrono s ++ x) (items_dir chrono s ++ name ∷ rest)
            (apart_tmp x (name ∷ rest)))

  -- Removing a tree of `tmp/`
  pub same-trimmed :
      (n : ℕ) (x : RemotePath) (d : Disk) → SameItems d (trimmed n (tmp_dir chrono s ++ x) d)
  unfolding SameItems
  same-trimmed n x d name rest =
      lookup-trimmed n (tmp_dir chrono s ++ x) (items_dir chrono s ++ name ∷ rest) d
        (apart_tmp x (name ∷ rest))

  pub same-outside : (x : RemotePath) (d : Disk) → SameItems d (outside (tmp_dir chrono s ++ x) d)
  unfolding SameItems is_none
  same-outside x d name rest =
      lookup-outside (tmp_dir chrono s ++ x) (items_dir chrono s ++ name ∷ rest) d
      ∙ ap (λ b. if is_none b then lookup d (items_dir chrono s ++ name ∷ rest) else none)
          (apart_tmp x (name ∷ rest))
