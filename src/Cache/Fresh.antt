-- ===== src/Cache/Fresh.antt =====
-- What a refreshed cache lists.
use mathlib.Core.Path.{subst}
use passalong.Prelude.{
  ◌≡◌, refl, sym, ap, ◌∙◌, Bool, true, false, ◌&&◌, ◌||◌, not, List, [], ◌∷◌, ◌++◌, keep, Text,
  text_eq_refl, text_eq→eq, ok, err, arith, Bool-cases, Result-cases, inl, inr,
}
use passalong.Model.Id.{ItemId, id_eq, id_ltb}
use passalong.Model.Meta.{ItemMeta}
use passalong.Retention.{insert_newest, sort_newest_first}
use passalong.Retention.Selection.{NewestFirst, sort-NewestFirst}
use passalong.Store.Api.{Store}
use passalong.Cache.{ListCache, meta_id, has_id, has_item, fetch, still_there, refresh}

pub id_eq_refl : (a : ItemId) → id_eq a a ≡ true
unfolding id_eq
id_eq_refl a = ground (arith, text_eq_refl a.repr, text_eq_refl a.key)

pub id_eq→eq : (a b : ItemId) → id_eq a b ≡ true → a ≡ b
unfolding id_eq
id_eq→eq a b h = ground (arith, text_eq→eq a.repr b.repr, text_eq→eq a.key b.key)

id_eq_sym : (a b : ItemId) → id_eq a b ≡ true → id_eq b a ≡ true
id_eq_sym a b h = ap (id_eq b) (id_eq→eq a b h) ∙ id_eq_refl b

module _ {DateTime : Type 0} where
  -- Whether the store answers with an item's metadata
  unfoldable pub answers : Store DateTime Text → ItemId → Bool
  answers store id = elim (store.get_meta id) [ ok _ ↦ true | err _ ↦ false ]

  has_item-insert :
      (id : ItemId) (x : ItemMeta DateTime) (xs : List (ItemMeta DateTime))
      → has_item id (insert_newest meta_id x xs) ≡ (id_eq id x.id || has_item id xs)
  unfolding has_item insert_newest
  has_item-insert id x [] = refl
  has_item-insert id x (y ∷ ys) = elim (Bool-cases (id_ltb x.id y.id)) [
    | inl e ↦ ground (arith, e, has_item-insert id x ys)
    | inr e ↦ ground (arith, e)
  ]

  has_item-sort :
      (id : ItemId) (xs : List (ItemMeta DateTime))
      → has_item id (sort_newest_first meta_id xs) ≡ has_item id xs
  unfolding has_item sort_newest_first
  has_item-sort id [] = refl
  has_item-sort id (x ∷ xs) =
      ground (arith, has_item-insert id x (sort_newest_first meta_id xs), has_item-sort id xs)

  has_item-append :
      (id : ItemId) (xs ys : List (ItemMeta DateTime))
      → has_item id (xs ++ ys) ≡ (has_item id xs || has_item id ys)
  unfolding has_item
  has_item-append id [] ys = refl
  has_item-append id (x ∷ xs) ys = ground (arith, has_item-append id xs ys)

  has_item-still_there :
      (id : ItemId) (ids : List ItemId) (items : List (ItemMeta DateTime))
      → has_item id (still_there ids items) ≡ (has_item id items && has_id id ids)
  unfolding has_item still_there
  has_item-still_there id ids [] = refl
  has_item-still_there id ids (x ∷ xs) = elim (Bool-cases (id_eq id x.id)) [
    | inl e ↦
        ground
          (arith, e, ap (λ i. has_id i ids) (id_eq→eq id x.id e), has_item-still_there id ids xs)
    | inr e ↦ elim (Bool-cases (has_id x.id ids)) [
      | inl f ↦ ground (arith, e, f, has_item-still_there id ids xs)
      | inr f ↦ ground (arith, e, f, has_item-still_there id ids xs)
    ]
  ]

  has_id-unknown :
      (id : ItemId) (items : List (ItemMeta DateTime)) (ids : List ItemId)
      → has_id id (keep (λ i. not (has_item i items)) ids)
        ≡ (has_id id ids && not (has_item id items))
  unfolding has_id
  has_id-unknown id items [] = refl
  has_id-unknown id items (x ∷ xs) = elim (Bool-cases (id_eq id x)) [
    | inl e ↦
        ground (arith, e, ap (λ i. has_item i items) (id_eq→eq id x e), has_id-unknown id items xs)
    | inr e ↦ elim (Bool-cases (has_item x items)) [
      | inl f ↦ ground (arith, e, f, has_id-unknown id items xs)
      | inr f ↦ ground (arith, e, f, has_id-unknown id items xs)
    ]
  ]

  module _ (store : Store DateTime Text)
      (own : (id : ItemId) (meta : ItemMeta DateTime)
        → store.get_meta id ≡ ok meta
        → meta.id ≡ id) where
    fetch-answers :
        (id : ItemId) (ids : List ItemId) (fetched : List (ItemMeta DateTime))
        → fetch store ids ≡ ok fetched
        → has_item id fetched ≡ (has_id id ids && answers store id)
    unfolding fetch has_item has_id answers
    fetch-answers id [] fetched h = ground (arith, h)
    fetch-answers id (x ∷ xs) fetched h = elim (Result-cases (store.get_meta x)) [
      | inl (e, f) ↦
          let tail : fetch store xs ≡ ok fetched = ground (arith, h, f) in
          let ih = fetch-answers id xs fetched tail in
          elim (Bool-cases (id_eq id x)) [
            | inl g ↦
                let same = id_eq→eq id x g in
                let unanswered : answers store id ≡ false =
                  ap (answers store) same ∙ ground (arith, f) in
                ground (arith, ih, g, unanswered)
            | inr g ↦ ground (arith, ih, g)
          ]
      | inr (meta, f) ↦ elim (Result-cases (fetch store xs)) [
        | inl (e, g) ↦ ground (arith, h, f, g)
        | inr (metas, g) ↦
            let whole : fetched ≡ meta ∷ metas = ground (arith, h, f, g) in
            let ih = fetch-answers id xs metas g in
            let named = own x meta f in
            let step : has_item id fetched ≡ (id_eq id x || has_item id metas) =
              ap (has_item id) whole ∙ ap (λ i. id_eq id i || has_item id metas) named in
            elim (Bool-cases (id_eq id x)) [
              | inl k ↦
                  let answered : answers store id ≡ true =
                    ap (answers store) (id_eq→eq id x k) ∙ ground (arith, f) in
                  ground (arith, step, k, answered)
              | inr k ↦ ground (arith, step, ih, k)
            ]
      ]
    ]

    -- A refresh that succeeds leaves the items newest first, checked now, and with exactly the ids that the
    -- store listed and that either were in the cache or have metadata that the store answers with. The
    -- store answers for an id with that id's metadata.
    pub refresh-ok :
        (cache fresh : ListCache DateTime) (now : DateTime) (ids : List ItemId) (id : ItemId)
        → store.list_ids ≡ ok ids
        → refresh cache store now ≡ (ok tt, fresh)
        → NewestFirst meta_id fresh.items
          × (fresh.checked_at ≡ now)
          × (fresh.store ≡ cache.store)
          × (has_item id fresh.items
              ≡ (has_id id ids && (has_item id cache.items || answers store id)))
    unfolding refresh
    refresh-ok cache fresh now ids id listed h =
        let items = still_there ids cache.items in
        elim (Result-cases (fetch store (keep (λ i. not (has_item i items)) ids))) [
          | inl (e, f) ↦ ground (arith, h, listed, f)
          | inr (fetched, f) ↦
              let made : fresh ≡ record cache {
                items = sort_newest_first meta_id (items ++ fetched);
                checked_at = now;
              } =
                ground (arith, h, listed, f) in
              (
                subst (λ c. NewestFirst meta_id c.items) (sym made)
                    (sort-NewestFirst meta_id (items ++ fetched)),
                ap (λ c. c.checked_at) made,
                ap (λ c. c.store) made,
                ap (λ c. has_item id c.items) made
                    ∙ has_item-sort id (items ++ fetched)
                    ∙ has_item-append id items fetched
                    ∙ ground (
                      arith,
                      fetch-answers id _ fetched f,
                      has_item-still_there id ids cache.items,
                      has_id-unknown id items ids,
                    ),
              )
        ]
