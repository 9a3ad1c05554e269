-- ===== src/Serve/Pull.antt =====
-- Pulling what other devices stored (`Puller` of crates/passalong-core/src/serve/pull.rs). The
-- warnings are left out; what reading and saving an item's content gives is the surroundings'.
pub mod Handling
pub mod Often
pub mod Once
use passalong.Prelude.{
  ℕ, ◌≡◌, refl, Bool, true, false, ◌&&◌, ◌||◌, not, Option, none, some, List, [], ◌∷◌, ◌++◌, any,
  keep, if◌then◌else◌, Text, text_eq, Result, ok, err,
}
use passalong.Model.Digest.{Bytes}
use passalong.Model.FileName.{sanitise_file_name}
use passalong.Model.Id.{ItemId, ModelError, id_eq}
use passalong.Model.Meta.{ItemMeta, ItemKind, is_clipboard_image}
use passalong.Store.Errors.{StoreError, backend, is_gone, is_incomplete}
use passalong.Store.Api.{Store}
use passalong.Serve.ClipboardWatcher.{RgbaImage}
use passalong.Cache.{has_id}

pub data ClipboardWrite : Type 0 where
  text image : Bytes → ClipboardWrite

-- What a poll does outside the store
pub data Effect : Type 0 where
  written : ItemId → ClipboardWrite → Effect
  saved : ItemId → Text → Effect

unfoldable pub effect_id : Effect → ItemId
effect_id (written id w) = id
effect_id (saved id path) = id

pub data Handled : Type 0 where
  done later : Handled

pub data Fetched : Type 0 where
  fetched : Bytes → Fetched
  unfetched : Handled → Fetched

-- `DownloadError`: a failed read, and whether sealed content did not open; or any other
pub data DownloadError : Type 0 where
  read_failure : Bool → DownloadError
  unusable : DownloadError

pub record Puller : Type 0 where
  pub device : Text
  pub seen : List ItemId
  pub key_id : Option Text
  -- `clipboard.is_some()`
  pub has_clipboard : Bool

-- The surroundings of a poll: `get` opens an item's content, `read_verified` and `download_into`
-- are what download.rs makes of it, and `is_recent` is whether an id is within the grace for arriving.
pub record Surroundings (DateTime : Type 0) : Type 0 where
  pub store : Store DateTime Text
  pub get : ItemId → Result StoreError Unit
  pub read_verified : ItemMeta DateTime → Result DownloadError Bytes
  pub download_into : ItemMeta DateTime → Text → Result DownloadError Text
  pub dir_exists : Bool
  pub is_utf8 : Bytes → Bool
  pub is_png : Bytes → Bool
  pub is_recent : ItemId → Bool

-- `unopened`
unfoldable pub unopened : StoreError → Result StoreError Handled
unfolding is_incomplete is_gone
unopened e = if is_incomplete e then ok later else if is_gone e then ok done else err e

-- The order of a listing, turned round
abbrev pub rev {ℓ} : {A : Type ℓ} → List A → List A
rev [] = []
rev (x ∷ xs) = rev xs ++ x ∷ []

abbrev pub as_unfetched : Result StoreError Handled → Result StoreError Fetched
as_unfetched (ok h) = ok (unfetched h)
as_unfetched (err e) = err e

abbrev pub without_effect : Result StoreError Handled → Result StoreError (Handled × Option Effect)
without_effect (ok h) = ok (h, none)
without_effect (err e) = err e

abbrev pub name_or_empty : Option Text → Text
name_or_empty none = []
name_or_empty (some name) = name

abbrev pub is_newest : Option ItemId → ItemId → Bool
is_newest none id = false
is_newest (some newest) id = id_eq newest id

abbrev pub with_effect : Option Effect → List Effect → List Effect
with_effect none effects = effects
with_effect (some e) effects = e ∷ effects

abbrev pub mark : Handled → ItemId → List ItemId → List ItemId
mark done id seen = id ∷ seen
mark later id seen = seen

-- What a loop leaves: its result, its effects, and the ids seen
abbrev pub Left : Type 0
Left = Result StoreError Unit × List Effect × List ItemId

abbrev pub before : Option Effect → Left → Left
before e (r, effects, seen) = (r, with_effect e effects, seen)

abbrev pub same_key : Option Text → Option Text → Bool
same_key none none = true
same_key (some a) (some b) = text_eq a b
same_key _ _ = false

module _ {DateTime : Type 0} where
  -- `read_failed`
  unfoldable pub read_failed :
      Surroundings DateTime → ItemMeta DateTime → Bool → Result StoreError Handled
  read_failed env meta sealed =
      if not sealed then err (backend []) else if env.is_recent meta.id then ok later else ok done

  abbrev pub verified :
      Surroundings DateTime
      → ItemMeta DateTime
      → Result DownloadError Bytes
      → Result StoreError Fetched
  verified env meta (ok bytes) = ok (fetched bytes)
  verified env meta (err (read_failure sealed)) = as_unfetched (read_failed env meta sealed)
  verified env meta (err unusable) = ok (unfetched done)

  abbrev pub opened :
      Surroundings DateTime → ItemMeta DateTime → Result StoreError Unit → Result StoreError Fetched
  opened env meta (ok u) = verified env meta (env.read_verified meta)
  opened env meta (err e) = as_unfetched (unopened e)

  -- `fetch`
  unfoldable pub fetch : Surroundings DateTime → ItemMeta DateTime → Result StoreError Fetched
  unfolding read_failed unopened
  fetch env meta = opened env meta (env.get meta.id)

  -- The clipboard write that an item's bytes give, where they are usable
  unfoldable pub write_of :
      Surroundings DateTime → ItemMeta DateTime → Bytes → Option ClipboardWrite
  write_of env meta bytes = elim meta.kind [
    | ItemKind.text ↦ if env.is_utf8 bytes then some (ClipboardWrite.text bytes) else none
    | ItemKind.file ↦ if env.is_png bytes then some (image bytes) else none
  ]

  abbrev pub applied :
      Surroundings DateTime
      → ItemMeta DateTime
      → Result StoreError Fetched
      → Result StoreError (Handled × Option Effect)
  applied env meta (err e) = err e
  applied env meta (ok (unfetched h)) = ok (h, none)
  applied env meta (ok (fetched bytes)) =
      ok (done, elim (write_of env meta bytes) [ none ↦ none | some w ↦ some (written meta.id w) ])

  -- `apply`
  unfoldable pub apply :
      Surroundings DateTime
      → Puller
      → ItemMeta DateTime
      → Result StoreError (Handled × Option Effect)
  unfolding fetch write_of
  apply env p meta = if p.has_clipboard then applied env meta (fetch env meta) else ok (done, none)

  abbrev pub downloaded :
      Surroundings DateTime
      → ItemMeta DateTime
      → Result DownloadError Text
      → Result StoreError (Handled × Option Effect)
  downloaded env meta (ok path) = ok (done, some (saved meta.id path))
  downloaded env meta (err (read_failure sealed)) = without_effect (read_failed env meta sealed)
  downloaded env meta (err unusable) = ok (done, none)

  -- The file of an item whose content opened
  abbrev pub save_content :
      Surroundings DateTime
      → ItemMeta DateTime
      → Text
      → Result StoreError Unit
      → Result StoreError (Handled × Option Effect)
  save_content env meta name (ok u) = downloaded env meta (env.download_into meta name)
  save_content env meta name (err e) = without_effect (unopened e)

  abbrev pub save_named :
      Surroundings DateTime
      → ItemMeta DateTime
      → Result ModelError Text
      → Result StoreError (Handled × Option Effect)
  save_named env meta (ok name) = save_content env meta name (env.get meta.id)
  save_named env meta (err e) = ok (done, none)

  -- `download` once the folder exists: the name, the content, the file
  unfoldable pub save :
      Surroundings DateTime → ItemMeta DateTime → Result StoreError (Handled × Option Effect)
  save env meta = save_named env meta (sanitise_file_name (name_or_empty meta.name))

  -- `download`
  unfoldable pub download :
      Surroundings DateTime → ItemMeta DateTime → Result StoreError (Handled × Option Effect)
  unfolding save
  download env meta = if env.dir_exists then save env meta else ok (done, none)

  -- `is_foreign`
  unfoldable pub is_foreign : Puller → ItemMeta DateTime → Bool
  is_foreign p meta = not (text_eq meta.device p.device)

  -- `for_clipboard`
  unfoldable pub for_clipboard : ItemMeta DateTime → Bool
  unfolding is_clipboard_image
  for_clipboard meta = elim meta.kind [
    | ItemKind.text ↦ true
    | ItemKind.file ↦ is_clipboard_image meta
  ]

  -- The first of the new items, newest first, that goes to the clipboard
  unfoldable pub newest_for_clipboard : Puller → List (ItemMeta DateTime) → Option ItemId
  unfolding is_foreign for_clipboard
  newest_for_clipboard p [] = none
  newest_for_clipboard p (meta ∷ metas) =
      let rest = newest_for_clipboard p metas in
      if is_foreign p meta && for_clipboard meta then some meta.id else rest

  -- One item of the handling loop
  unfoldable pub handle_item :
      Surroundings DateTime
      → Puller
      → Option ItemId
      → ItemMeta DateTime
      → Result StoreError (Handled × Option Effect)
  unfolding is_foreign for_clipboard download apply
  handle_item env p newest meta =
      if not (is_foreign p meta)
      then ok (done, none)
      else if not (for_clipboard meta)
      then download env meta
      else if is_newest newest meta.id
      then apply env p meta
      else ok (done, none)

  -- The handling loop, oldest first: an error ends it, and leaves what was handled seen.
  unfoldable pub handle_all :
      Surroundings DateTime → Puller → Option ItemId → List (ItemMeta DateTime) → List ItemId → Left
  unfolding handle_item
  handle_all env p newest [] seen = (ok tt, [], seen)
  handle_all env p newest (meta ∷ metas) seen = elim (handle_item env p newest meta) [
    | err e ↦ (err e, [], seen)
    | ok (h, e) ↦ before e (handle_all env p newest metas (mark h meta.id seen))
  ]

  abbrev pub add_meta :
      ItemMeta DateTime
      → Result StoreError (List (ItemMeta DateTime)) × List ItemId
      → Result StoreError (List (ItemMeta DateTime)) × List ItemId
  add_meta meta (ok metas, seen) = (ok (meta ∷ metas), seen)
  add_meta meta (err e, seen) = (err e, seen)

  -- The loop that reads the metadata of the unseen ids: what is gone is seen, what is arriving is not.
  unfoldable pub read_new :
      Surroundings DateTime
      → List ItemId
      → List ItemId
      → Result StoreError (List (ItemMeta DateTime)) × List ItemId
  unfolding is_gone is_incomplete
  read_new env [] seen = (ok [], seen)
  read_new env (id ∷ ids) seen = elim (env.store.get_meta id) [
    | ok meta ↦ add_meta meta (read_new env ids seen)
    | err e ↦
        let gone = read_new env ids (id ∷ seen) in
        let rest = read_new env ids seen in
        if is_gone e then gone else if is_incomplete e then rest else (err e, seen)
  ]

  abbrev pub handle_new :
      Surroundings DateTime
      → Puller
      → Result StoreError (List (ItemMeta DateTime)) × List ItemId
      → Left
  handle_new env p (err e, seen) = (err e, [], seen)
  handle_new env p (ok metas, seen) =
      handle_all env p (newest_for_clipboard p metas) (rev metas) seen

  -- `poll` behind the listing, while the store's key is the same
  unfoldable pub poll_ids : Surroundings DateTime → Puller → List ItemId → Left
  unfolding read_new handle_all newest_for_clipboard has_id
  poll_ids env p ids =
      let seen = keep (λ id. has_id id ids) p.seen in
      handle_new env p (read_new env (keep (λ id. not (has_id id seen)) ids) seen)

  abbrev pub poll_listed :
      Surroundings DateTime → Puller → Result StoreError (List ItemId) → Left × Option Text
  poll_listed env p (err e) = ((err e, [], p.seen), p.key_id)
  poll_listed env p (ok ids) =
      if same_key env.store.key_id p.key_id
      then (poll_ids env p ids, p.key_id)
      else ((ok tt, [], ids), env.store.key_id)

  -- `poll`: its result and its effects, and the puller afterwards. A new key means new ids: the puller
  -- starts from the store's current items.
  unfoldable pub poll :
      Surroundings DateTime → Puller → Result StoreError Unit × List Effect × Puller
  unfolding poll_ids
  poll env p =
      let ((r, effects, seen), key_id) = poll_listed env p env.store.list_ids in
      (r, effects, record p { seen = seen; key_id = key_id })
