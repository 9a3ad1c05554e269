-- ===== src/Store/FsStore/Staging.antt =====
-- What `FsStore` does in `tmp/`, step by step, and what is there when an item is published.
use mathlib.Core.Path.{subst}
use passalong.Prelude.{
  ◌≡◌, refl, sym, ap, ◌∙◌, false, some, [], ◌∷◌, ◌++◌, Text, text_eq, text_eq_refl, Result, ok, err,
  if◌then◌else◌, arith,
}
use passalong.Model.Time.{Chrono}
use passalong.Model.Digest.{Crates, Bytes, sha256_hex}
use passalong.Model.Meta.{ItemMeta}
use passalong.Store.Format.{Content, Written, CopyError}
use passalong.Fs
use passalong.Fs.{RemotePath, path_eq}
use passalong.Fs.Disk.{file, Disk, lookup, set_file}
use passalong.Fs.Io.{map_err, open_write, create_dir_all, remove_dir_all, rename}
use passalong.Fs.Made.{make_file-ok}
use passalong.Fs.Lookup.{path_eq_refl, path_eq-append, lookup-set_file}
use passalong.Fs.Holds.{
  Holds, Holds-bind, Holds-lift, Holds-given, Holds-write_all, Holds-lift_fs, Holds-weaken,
}
use passalong.Fs.Keeps.{
  Keeps, Keeps-pure, Keeps-lift_fs, Keeps-attempt, Keeps-bind, Keeps-changing, Keeps-remove_dir_all,
  Keeps→Holds,
}
use passalong.Store.FsStore.{FsStore, items_dir, tmp_dir, content_file, meta_file}
use passalong.Store.FsStore.Writes.{write_content, write_meta, cleared, copy_err}
use passalong.Store.FsStore.Items.{
  ItemAt, Complete, Complete-SameItems, same-make_items, same-make_tmp, same-set_file, same-outside,
  same-trimmed,
}
use passalong.Store.FsStore.Renames.{Complete-taken}

pub join-ok :
    (p q : RemotePath) (name : Text) → map_err (Fs.join p name) ≡ ok q → q ≡ p ++ name ∷ []
unfolding Fs.join
join-ok p q name h = ground (arith, h)

copy_err-ok :
    (written : Written) (r : Result CopyError Written) → copy_err r ≡ ok written → r ≡ ok written
copy_err-ok written (ok w) h = ground (arith, h)
copy_err-ok written (err (CopyError.read e)) h = cc
copy_err-ok written (err (CopyError.crypto e)) h = cc

module _ (chrono : Chrono) (crates : Crates) (s : FsStore chrono.DateTime) where
  open chrono use {DateTime}

  abbrev C : Disk → Type 0
  C = Complete chrono crates s

  abbrev T : RemotePath
  T = tmp_dir chrono s

  pub Complete-set_file : (x : RemotePath) (b : Bytes) (d : Disk) → C d → C (set_file (T ++ x) b d)
  Complete-set_file x b d c =
      Complete-SameItems chrono crates s d (set_file (T ++ x) b d)
        (same-set_file chrono crates s x b d) c

  pub Keeps-make_items : Keeps C (create_dir_all (items_dir chrono s))
  unfolding create_dir_all
  Keeps-make_items =
      Keeps-changing _ λ d d' c h.
        Complete-SameItems chrono crates s d d' (same-make_items chrono crates s d d' h) c

  pub Keeps-make_tmp : (x : RemotePath) → Keeps C (create_dir_all (T ++ x))
  unfolding create_dir_all
  Keeps-make_tmp x =
      Keeps-changing _ λ d d' c h.
        Complete-SameItems chrono crates s d d' (same-make_tmp chrono crates s x d d' h) c

  pub Keeps-remove_tmp : (x : RemotePath) → Keeps C (remove_dir_all (T ++ x))
  Keeps-remove_tmp x =
      Keeps-remove_dir_all (T ++ x)
        (λ d c. Complete-SameItems chrono crates s d _ (same-outside chrono crates s x d) c)
        (λ n d c. Complete-SameItems chrono crates s d _ (same-trimmed chrono crates s n x d) c)

  pub Keeps-take :
      (name : Text) (x : RemotePath) → Keeps C (rename (items_dir chrono s ++ name ∷ []) (T ++ x))
  unfolding rename
  Keeps-take name x = Keeps-changing _ λ d d' c h. Complete-taken chrono crates s d d' name x h c

  pub Keeps-cleared : (x : RemotePath) → Keeps C (cleared chrono crates (T ++ x))
  unfolding cleared
  Keeps-cleared x = Keeps-bind (Keeps-attempt (Keeps-remove_tmp x)) λ _. Keeps-pure tt

  -- The content of the item that is staged
  pub record Staged (token : Text) (written : Written) (d : Disk) : Type 0 where
    pub content : Content
    pub stored : Bytes
    pub was_written : s.format.write_content content ≡ (stored, ok written)
    pub has_content : lookup d (T ++ token ∷ content_file ∷ []) ≡ some (file stored)
    pub complete : C d

  -- Opening and writing a file of `tmp/` keeps the items complete.
  Keeps-open_write : (x : RemotePath) → Keeps C (open_write (T ++ x))
  unfolding open_write
  Keeps-open_write x =
      Keeps-changing _
        λ d d' c h. subst C (sym (make_file-ok d d' (T ++ x) h)) (Complete-set_file x [] d c)

  found_there : (d : Disk) (p : RemotePath) (b : Bytes) → lookup (set_file p b d) p ≡ some (file b)
  found_there d p b =
      lookup-set_file p p b d ∙ ap (λ t. if t then some (file b) else lookup d p) (path_eq_refl p)

  -- The content is there once it has been written to the end.
  pub Holds-write_content :
      (stream : Content) (token : Text)
      → Holds C
          (write_content chrono crates s stream (T ++ token ∷ content_file ∷ []))
          C
          (λ written d. Staged token written d)
  unfolding write_content
  Holds-write_content stream token =
      let path = T ++ token ∷ content_file ∷ [] in
      let stored = (s.format.write_content stream).0 in
      Holds-bind (Keeps-lift_fs (Keeps-open_write (token ∷ content_file ∷ []))) λ _.
        Holds-bind
          (Holds-lift_fs {Q = λ _ d. C d × (lookup d path ≡ some (file stored))} (
            Holds-write_all path stored
              (λ d b c. Complete-set_file (token ∷ content_file ∷ []) b d c)
              (λ d c. (
                Complete-set_file (token ∷ content_file ∷ []) stored d c,
                found_there d path stored,
              ))))
          λ _.
            Holds-weaken (Holds-lift (copy_err (s.format.write_content stream).1) (λ d p. p.0))
              λ written d p. record {
                content = stream;
                stored = stored;
                was_written =
                    ap (λ r. (stored, r))
                      (copy_err-ok written (s.format.write_content stream).1 p.1);
                has_content = p.0.1;
                complete = p.0.0;
              }

  -- Writing the metadata beside the content leaves the content as it is.
  content-beside :
      (token : Text) (written : Written) (b : Bytes) (d : Disk)
      → Staged token written d
      → Staged token written (set_file (T ++ token ∷ meta_file ∷ []) b d)
  unfolding path_eq text_eq
  content-beside token written b d staged =
      let path = T ++ token ∷ meta_file ∷ [] in
      let other = T ++ token ∷ content_file ∷ [] in
      let apart : path_eq path other ≡ false =
        path_eq-append T (token ∷ meta_file ∷ []) (token ∷ content_file ∷ [])
        ∙ ground (arith, text_eq_refl token) in
      record {
        content = staged.content;
        stored = staged.stored;
        was_written = staged.was_written;
        has_content =
            lookup-set_file path other b d
            ∙ ap (λ t. if t then some (file b) else lookup d other) apart
            ∙ staged.has_content;
        complete = Complete-set_file (token ∷ meta_file ∷ []) b d staged.complete;
      }

  Keeps-open_meta :
      (token : Text) (written : Written)
      → Keeps (Staged token written) (open_write (T ++ token ∷ meta_file ∷ []))
  unfolding open_write
  Keeps-open_meta token written = Keeps-changing _ λ d d' c h.
      subst (Staged token written) (sym (make_file-ok d d' (T ++ token ∷ meta_file ∷ []) h))
        (content-beside token written [] d c)

  -- With its metadata written too, what is staged is a complete item.
  pub Holds-write_meta :
      (token : Text) (written : Written) (meta : ItemMeta DateTime)
      → meta.sha256 ≡ sha256_hex crates written.digest
      → meta.size ≡ written.digest.size
      → Holds
          (Staged token written)
          (write_meta chrono crates s (T ++ token ∷ meta_file ∷ []) meta written.salt)
          C
          (λ _ d. C d × ItemAt chrono crates s d T token meta.id.repr)
  unfolding write_meta
  Holds-write_meta token written meta digest_is size_is =
      let path = T ++ token ∷ meta_file ∷ [] in
      Holds-bind (Holds-lift (s.format.encode_meta meta written.salt) (λ d p. p.complete)) λ json.
        Holds-given λ encoded.
          Holds-bind
            (Keeps→Holds (Keeps-lift_fs (Keeps-open_meta token written)) (λ d p. p.complete))
            λ _. Holds-lift_fs (
              Holds-write_all path json
                (λ d b p. Complete-set_file (token ∷ meta_file ∷ []) b d p.complete)
                (λ d p.
                  let after = content-beside token written json d p in
                  (
                    after.complete,
                    record {
                      content = after.content;
                      stored = after.stored;
                      written = written;
                      meta = meta;
                      json = json;
                      was_written = after.was_written;
                      was_encoded = encoded;
                      named = refl;
                      digest_is = digest_is;
                      size_is = size_is;
                      has_content = after.has_content;
                      has_meta = found_there d path json;
                    },
                  )))
