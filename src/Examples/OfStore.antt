-- ===== src/Examples/OfStore.antt =====
-- The store on a small disk: a `put` on a disk without folders, and what follows it.
use passalong.Prelude.{
  ℕ, ◌≡◌, ◌↔◌, refl, Bool, true, false, Option, none, some, List, [], ◌∷◌, All, keep, Text, codes,
  Result, ok, err, ℤ, pos, arith, length, ◌≤◌,
}
use passalong.Model.Hex.{hex_fixed, hex_digit}
use passalong.Model.FileName.{trim}
use passalong.Model.Id.{ItemId, id_of}
use passalong.Model.Id.RoundTrip.{IsValidId}
use passalong.Model.Meta.{ItemMeta, NewItem, new_text, file, clipboard}
use passalong.Retention.Selection.{NewestFirst}
use passalong.Store.Errors.{other}
use passalong.Store.Format.{Content}
use passalong.Fs.Disk.{Disk, Node, dir, lookup, is_none}
use passalong.Fs.Io.{World, Fault}
use passalong.Store.FsStore.{item_ids, resolve, matches, lowercase}
use passalong.Store.FsStore.Writes.{put}
use passalong.Store.FsStore.Changes.{delete, import_item}
use passalong.Store.FsStore.Items.{Complete}
use passalong.Store.FsStore.Complete.{put-Complete}
use passalong.Store.FsStore.Others.{delete-Complete, import-Complete}
use passalong.Store.FsStore.Listing.{item_ids-valid}
use passalong.Store.FsStore.Meaning.{Means}
use passalong.Store.FsStore.Resolving.{OnlyOne, resolve_iff}
use passalong.Examples.Parameters.{whole_secs, by_length, plain_store, zeros}

abbrev hello : Content
hello = record { bytes = codes "hello"; failure = none }

abbrev broken : Content
broken = record { bytes = codes "hel"; failure = some (codes "connection reset") }

abbrev laptop : NewItem
laptop = new_text (codes "laptop")

-- The ninth operation from here fails.
abbrev before_put : World
before_put = record {
  disk = [];
  faults =
      none
      ∷ none
      ∷ none
      ∷ none
      ∷ none
      ∷ none
      ∷ none
      ∷ none
      ∷ some (record { error = other [] (codes "no space"); done = 2 })
      ∷ [];
  random = λ n. n;
  draws = 0;
}

abbrev after_put : World
after_put = (put whole_secs by_length plain_store laptop hello before_put).1

empty-Complete : Complete whole_secs by_length plain_store before_put.disk
unfolding Complete is_none lookup
empty-Complete name h = cc

abbrev hello_id : ItemId
hello_id = id_of (codes "050000000000") 1000

put-Complete_example : Complete whole_secs by_length plain_store after_put.disk
put-Complete_example =
    put-Complete whole_secs by_length plain_store laptop hello before_put empty-Complete

delete-Complete_example :
    Complete whole_secs by_length plain_store
      (delete whole_secs by_length plain_store hello_id after_put).1.disk
delete-Complete_example =
    delete-Complete whole_secs by_length plain_store hello_id after_put
      (put-Complete whole_secs by_length plain_store laptop hello before_put empty-Complete)

abbrev photo : ItemMeta ℤ
photo = record {
  schema = 1;
  id = hello_id;
  kind = file;
  name = some (codes "photo.png");
  mime = codes "image/png";
  size = 5;
  sha256 = codes "0500";
  created_at = pos 1000;
  device = codes "phone";
  preview = none;
  origin = some clipboard;
}

import-Complete_example :
    Complete whole_secs by_length plain_store
      (import_item whole_secs by_length
        (λ t. some (5 ∷ zeros 31))
        plain_store
        photo
        broken
        after_put).1.disk
import-Complete_example =
    import-Complete whole_secs by_length plain_store (λ t. some (5 ∷ zeros 31)) photo broken
      after_put
      (put-Complete whole_secs by_length plain_store laptop hello before_put empty-Complete)

-- A disk with two items and a file beside them
abbrev two_items : World
two_items = record {
  disk =
      (codes "items" ∷ [], dir)
      ∷ (codes "items" ∷ codes "000003e8-0500a0000000" ∷ [], dir)
      ∷ (codes "items" ∷ codes "000003e9-0700b0000000" ∷ [], dir)
      ∷ (codes "items" ∷ codes "notes" ∷ [], dir)
      ∷ [];
  faults = [];
  random = λ n. n;
  draws = 0;
}

abbrev older : ItemId
older = id_of (codes "0500a0000000") 1000

abbrev newer : ItemId
newer = id_of (codes "0700b0000000") 1001

listed : item_ids whole_secs plain_store two_items ≡ (ok (newer ∷ older ∷ []), two_items)
unfolding item_ids passalong.Fs.Io.◌>>=◌ passalong.Fs.Io.attempt passalong.Fs.Io.read_dir
    passalong.Fs.Disk.is_dir_at passalong.Store.FsStore.items_dir passalong.Prelude.text_eq
    passalong.Retention.sort_newest_first passalong.Fs.Disk.entries_of passalong.Prelude.text_ltb
    passalong.Model.Id.parse passalong.Model.Hex.is_lower_hex passalong.Model.Hex.from_hex
    passalong.Model.Id.id_ltb hex_fixed
listed = refl

item_ids-valid_example :
    All IsValidId (newer ∷ older ∷ []) × NewestFirst (λ id. id) (newer ∷ older ∷ [])
item_ids-valid_example =
    item_ids-valid whole_secs plain_store (newer ∷ older ∷ []) two_items two_items listed

resolve_iff_example :
    (resolve whole_secs plain_store (codes " 0700B ") two_items ≡ (ok newer, two_items)) ↔ (
      (4 ≤ length (trim (codes " 0700B ")))
      × ((ids : List ItemId) × (item_ids whole_secs plain_store two_items ≡ (ok ids, two_items))
          × OnlyOne (Means (trim (codes " 0700B "))) ids newer))
resolve_iff_example = resolve_iff whole_secs plain_store (codes " 0700B ") newer two_items two_items
