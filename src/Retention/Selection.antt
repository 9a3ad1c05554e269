-- ===== src/Retention/Selection.antt =====
-- What `select` deletes.
use mathlib.Core.List.{Perm}
use mathlib.Core.List.Perm
use passalong.Prelude.{
  ℕ, ◌≡◌, refl, Bool, true, false, Option, none, some, List, [], ◌∷◌, map, keep, drop, All,
  Bool-cases, inl, inr,
}
use passalong.Model.Time.{Chrono}
use passalong.Model.Id.{ItemId, id_ltb}
use passalong.Model.Id.Order.{id_ltb_asym, id_ltb_cotrans}
use passalong.Model.Meta.{ItemMeta}
use passalong.Retention.{insert_newest, sort_newest_first, cutoff_of}

-- Newest first: no item comes before a newer one.
abbrev pub NewestFirst : {A : Type 0} → (A → ItemId) → List A → Type 0
NewestFirst id [] = Unit
NewestFirst id (x ∷ xs) = All (λ y. id_ltb (id x) (id y) ≡ false) xs × NewestFirst id xs

module _ {A : Type 0} (id : A → ItemId) where
  abbrev NotBefore : A → List A → Type 0
  NotBefore x xs = All (λ y. id_ltb (id x) (id y) ≡ false) xs

  NotBefore-trans :
      (x y : A) (ys : List A) → id_ltb (id x) (id y) ≡ false → NotBefore y ys → NotBefore x ys
  NotBefore-trans x y [] h k = tt
  NotBefore-trans x y (z ∷ ys) h k =
      (id_ltb_cotrans (id x) (id y) (id z) h k.0, NotBefore-trans x y ys h k.1)

  insert-NotBefore :
      (y x : A) (ys : List A)
      → id_ltb (id y) (id x) ≡ false
      → NotBefore y ys
      → NotBefore y (insert_newest id x ys)
  unfolding insert_newest
  insert-NotBefore y x [] h k = (h, tt)
  insert-NotBefore y x (z ∷ ys) h k = elim (Bool-cases (id_ltb (id x) (id z))) [
    | inl e ↦ rw e (k.0, insert-NotBefore y x ys h k.1)
    | inr e ↦ rw e (h, k)
  ]

  insert-NewestFirst :
      (x : A) (xs : List A) → NewestFirst id xs → NewestFirst id (insert_newest id x xs)
  unfolding insert_newest
  insert-NewestFirst x [] h = (tt, tt)
  insert-NewestFirst x (y ∷ ys) h = elim (Bool-cases (id_ltb (id x) (id y))) [
    | inl e ↦
        rw e
          (insert-NotBefore y x ys (id_ltb_asym (id x) (id y) e) h.0, insert-NewestFirst x ys h.1)
    | inr e ↦ rw e ((e, NotBefore-trans x y ys e h.0), h)
  ]

  pub sort-NewestFirst : (xs : List A) → NewestFirst id (sort_newest_first id xs)
  unfolding sort_newest_first
  sort-NewestFirst [] = tt
  sort-NewestFirst (x ∷ xs) = insert-NewestFirst x (sort_newest_first id xs) (sort-NewestFirst xs)

  insert-perm : (x : A) (xs : List A) → Perm (insert_newest id x xs) (x ∷ xs)
  unfolding insert_newest
  insert-perm x [] = Perm.refl (x ∷ [])
  insert-perm x (y ∷ ys) = elim (Bool-cases (id_ltb (id x) (id y))) [
    | inl e ↦ rw e (Perm.trans (Perm.cons y (insert-perm x ys)) (Perm.swap x y ys))
    | inr e ↦ rw e (Perm.refl (x ∷ y ∷ ys))
  ]

  pub sort-perm : (xs : List A) → Perm (sort_newest_first id xs) xs
  unfolding sort_newest_first
  sort-perm [] = Perm.refl []
  sort-perm (x ∷ xs) =
      Perm.trans (insert-perm x (sort_newest_first id xs)) (Perm.cons x (sort-perm xs))

module _ (chrono : Chrono) (now : chrono.DateTime) where
  open chrono use {DateTime, before}

  -- An item that the age rule lets go: with no such rule, every item.
  abbrev is_old : Option ℕ → ItemMeta DateTime → Bool
  is_old none meta = true
  is_old (some age) meta = before meta.created_at (cutoff_of chrono now age)

  -- The items after the newest that `--keep` protects.
  abbrev beyond : Option ℕ → List (ItemMeta DateTime) → List (ItemMeta DateTime)
  beyond none items = items
  beyond (some n) items = drop n items

  ids : List (ItemMeta DateTime) → List ItemId
  ids = map (λ meta. meta.id)

  -- What the two rules together let go of the items in order.
  abbrev pub deleted : Option ℕ → Option ℕ → List (ItemMeta DateTime) → List ItemId
  deleted none none sorted = []
  deleted older_than keeping sorted =
      map (λ meta. meta.id) (keep (is_old older_than) (beyond keeping sorted))
