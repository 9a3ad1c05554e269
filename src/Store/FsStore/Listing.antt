-- ===== src/Store/FsStore/Listing.antt =====
-- What `list_ids` of `FsStore` answers.
use mathlib.Core.Path.{subst}
use passalong.Prelude.{
  ◌≡◌, List, [], ◌∷◌, All, Result, ok, err, arith, Bool-cases, Result-cases, inl, inr,
}
use passalong.Model.Time.{Chrono}
use passalong.Model.Id
use passalong.Model.Id.{ItemId, id_ltb}
use passalong.Model.Id.RoundTrip.{IsValidId, parse-IsValidId}
use passalong.Retention.{insert_newest, sort_newest_first}
use passalong.Retention.Selection.{NewestFirst, sort-NewestFirst}
use passalong.Store.Errors.{FsError, StoreError}
use passalong.Fs.Disk.{DirEntry}
use passalong.Fs.Io.{World, ◌>>=◌, attempt, continue, lift, pure, read_dir}
use passalong.Store.FsStore.{FsStore, parsed_ids, or_empty, items_dir, item_ids}

parsed_ids-valid : (es : List DirEntry) → All IsValidId (parsed_ids es)
unfolding parsed_ids
parsed_ids-valid [] = tt
parsed_ids-valid (e ∷ es) = elim (Bool-cases e.is_dir) [
  | inl d ↦ elim (Result-cases (Id.parse e.name)) [
    | inl (x, f) ↦ rw (d, f) (parsed_ids-valid es)
    | inr (id, f) ↦ rw (d, f) ((parse-IsValidId e.name id f).0, parsed_ids-valid es)
  ]
  | inr d ↦ rw d (parsed_ids-valid es)
]

insert-All :
    (P : ItemId → Type 0) (x : ItemId) (xs : List ItemId)
    → P x
    → All P xs
    → All P (insert_newest (λ id. id) x xs)
unfolding insert_newest
insert-All P x [] h k = (h, tt)
insert-All P x (y ∷ ys) h k = elim (Bool-cases (id_ltb x y)) [
  | inl e ↦ rw e (k.0, insert-All P x ys h k.1)
  | inr e ↦ rw e (h, k)
]

sort-All :
    (P : ItemId → Type 0) (xs : List ItemId) → All P xs → All P (sort_newest_first (λ id. id) xs)
unfolding sort_newest_first
sort-All P [] h = tt
sort-All P (x ∷ xs) h = insert-All P x (sort_newest_first (λ id. id) xs) h.0 (sort-All P xs h.1)

module _ (chrono : Chrono) (s : FsStore chrono.DateTime) where
  -- Whatever the directory of the items holds, the ids that the store lists are valid, and none comes
  -- before a newer one, when the listing succeeds.
  pub item_ids-valid :
      (ids : List ItemId) (w w' : World)
      → item_ids chrono s w ≡ (ok ids, w')
      → All IsValidId ids × NewestFirst (λ id. id) ids
  unfolding item_ids ◌>>=◌ attempt
  item_ids-valid ids w w' h = go (read_dir (items_dir chrono s) w) h
    where
      valid :
          (es : List DirEntry)
          → sort_newest_first (λ id. id) (parsed_ids es) ≡ ids
          → All IsValidId ids × NewestFirst (λ id. id) ids
      valid es e =
          subst (λ l. All IsValidId l × NewestFirst (λ id. id) l) e
            (
              sort-All IsValidId (parsed_ids es) (parsed_ids-valid es),
              sort-NewestFirst (λ id. id) (parsed_ids es),
            )

      of_result :
          (r : Result StoreError (List DirEntry)) (w1 : World)
          → continue (r, w1) (λ listed. pure (sort_newest_first (λ id. id) (parsed_ids listed)))
            ≡ (ok ids, w')
          → All IsValidId ids × NewestFirst (λ id. id) ids
      of_result (ok es) w1 h = valid es (ground (arith, h))
      of_result (err e) w1 h = cc

      go :
          (r : Result FsError (List DirEntry) × World)
          → continue
              (lift (or_empty r.0) r.1)
              (λ listed. pure (sort_newest_first (λ id. id) (parsed_ids listed)))
            ≡ (ok ids, w')
          → All IsValidId ids × NewestFirst (λ id. id) ids
      go (r, w1) h = of_result (or_empty r) w1 h
