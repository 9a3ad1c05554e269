-- ===== src/Cache.antt =====
-- The local copy of a store's item list (`ListCache` of crates/passalong-core/src/cache.rs). The
-- cache's file is left out; a key's id is its text.
pub mod Fresh
use passalong.Prelude.{
  ℕ, ◌≡◌, refl, Bool, true, false, ◌&&◌, ◌||◌, not, Option, none, some, List, [], ◌∷◌, ◌++◌, any,
  keep, if◌then◌else◌, Text, text_eq, codes, length, take, drop, leb, ◌-◌, Result, ok, err, ◌>>=◌,
}
use passalong.Model.Id.{ItemId, id_eq}
use passalong.Model.Meta.{ItemMeta}
use passalong.Retention.{sort_newest_first}
use passalong.Store.Errors.{StoreError, is_gone}
use passalong.Store.Api.{Store}

abbrev pub cache_version : ℕ
cache_version = 1

-- `ListCache::identity_for`
unfoldable pub identity_for : Text → Option Text → Text
identity_for base none = base ++ codes " plain"
identity_for base (some key) = base ++ codes " key " ++ key

pub record ListCache (DateTime : Type 0) : Type 0 where
  pub version : ℕ
  pub store : Text
  pub checked_at : DateTime
  pub items : List (ItemMeta DateTime)

-- Whether a list of ids has an id
unfoldable pub has_id : ItemId → List ItemId → Bool
has_id id ids = any (id_eq id) ids

module _ {DateTime : Type 0} where
  abbrev pub meta_id : ItemMeta DateTime → ItemId
  meta_id meta = meta.id

  -- `ListCache::new`
  unfoldable pub new : Text → DateTime → List (ItemMeta DateTime) → ListCache DateTime
  new store checked_at items = record {
    version = cache_version;
    store = store;
    checked_at = checked_at;
    items = sort_newest_first meta_id items;
  }

  -- `ListCache::usable`: `within` is `(now - checked_at).abs() <= limit`
  unfoldable pub usable : (DateTime → DateTime → Bool) → ListCache DateTime → Text → DateTime → Bool
  usable within cache store now = text_eq cache.store store && within now cache.checked_at

  -- Whether a list of items has an id
  unfoldable pub has_item : ItemId → List (ItemMeta DateTime) → Bool
  has_item id items = any (λ meta. id_eq id meta.id) items

  -- An item that is gone or damaged is left out.
  unfoldable pub with_meta :
      Result StoreError (ItemMeta DateTime)
      → Result StoreError (List (ItemMeta DateTime))
      → Result StoreError (List (ItemMeta DateTime))
  unfolding is_gone
  with_meta (ok meta) rest = rest >>= λ metas. ok (meta ∷ metas)
  with_meta (err e) rest = if is_gone e then rest else err e

  -- The loop of `refresh` over the ids that are not known
  unfoldable pub fetch :
      Store DateTime Text → List ItemId → Result StoreError (List (ItemMeta DateTime))
  unfolding with_meta
  fetch store [] = ok []
  fetch store (id ∷ ids) = with_meta (store.get_meta id) (fetch store ids)

  -- The items of the cache that the store still has
  unfoldable pub still_there : List ItemId → List (ItemMeta DateTime) → List (ItemMeta DateTime)
  unfolding has_id
  still_there ids items = keep (λ meta. has_id meta.id ids) items

  -- `ListCache::refresh` after its listing
  unfoldable pub refreshed :
      ListCache DateTime
      → Store DateTime Text
      → DateTime
      → List ItemId
      → Result StoreError (ListCache DateTime)
  unfolding still_there fetch has_item
  refreshed cache store now ids =
      let items = still_there ids cache.items in
      fetch store (keep (λ id. not (has_item id items)) ids) >>= λ fetched.
      ok (record cache { items = sort_newest_first meta_id (items ++ fetched); checked_at = now })

  abbrev pub or_unchanged :
      ListCache DateTime
      → Result StoreError (ListCache DateTime)
      → Result StoreError Unit × ListCache DateTime
  or_unchanged cache (ok fresh) = (ok tt, fresh)
  or_unchanged cache (err e) = (err e, cache)

  -- `ListCache::refresh`
  unfoldable pub refresh :
      ListCache DateTime
      → Store DateTime Text
      → DateTime
      → Result StoreError Unit × ListCache DateTime
  unfolding refreshed
  refresh cache store now = or_unchanged cache (store.list_ids >>= refreshed cache store now)

  -- `ListCache::read`
  unfoldable pub read :
      Store DateTime Text → Text → DateTime → Result StoreError (ListCache DateTime)
  unfolding new
  read store identity now = store.list >>= λ items. ok (new identity now items)

  -- `ListCache::apply_put`
  unfoldable pub apply_put : ListCache DateTime → ItemMeta DateTime → ListCache DateTime
  unfolding has_item
  apply_put cache meta =
      if has_item meta.id cache.items
      then cache
      else record cache { items = sort_newest_first meta_id (cache.items ++ meta ∷ []) }

  -- `ListCache::apply_delete`
  unfoldable pub apply_delete : ListCache DateTime → ItemId → ListCache DateTime
  apply_delete cache id = record cache { items = keep (λ meta. not (id_eq id meta.id)) cache.items }

  -- A cache of another key is read again.
  unfoldable pub of_identity : Text → Option (ListCache DateTime) → Option (ListCache DateTime)
  of_identity identity none = none
  of_identity identity (some cache) = if text_eq cache.store identity then some cache else none

  abbrev pub as_read :
      Result StoreError (ListCache DateTime) → Result StoreError Unit × Option (ListCache DateTime)
  as_read (ok fresh) = (ok tt, some fresh)
  as_read (err e) = (err e, none)

  abbrev pub as_refreshed :
      Result StoreError Unit × ListCache DateTime
      → Result StoreError Unit × Option (ListCache DateTime)
  as_refreshed (r, cache) = (r, some cache)

  -- `refresh_once`, once the store is connected; the connection is kept when the result is `ok`.
  unfoldable pub refresh_connected :
      Store DateTime Text
      → Text
      → DateTime
      → Option (ListCache DateTime)
      → Result StoreError Unit × Option (ListCache DateTime)
  unfolding refresh read
  refresh_connected store identity now none = as_read (read store identity now)
  refresh_connected store identity now (some cache) = as_refreshed (refresh cache store now)

  unfoldable pub refresh_once :
      Store DateTime Text
      → Text
      → DateTime
      → Option (ListCache DateTime)
      → Result StoreError Unit × Option (ListCache DateTime)
  unfolding refresh_connected of_identity identity_for
  refresh_once store base now cache =
      let identity = identity_for base store.key_id in
      refresh_connected store identity now (of_identity identity cache)
