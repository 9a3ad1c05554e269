-- ===== src/Retention.antt =====
-- Choosing which items `prune` deletes (crates/passalong-core/src/retention.rs).
pub mod Age
pub mod Selection
use passalong.Prelude.{
  ℕ, zero, suc, ◌+◌, Bool, true, false, ◌&&◌, Option, none, some, List, [], ◌∷◌, leb, map, keep,
  if◌then◌else◌,
}
use passalong.Model.Time.{Chrono}
use passalong.Model.Id.{ItemId, id_ltb}
use passalong.Model.Meta.{ItemMeta}

-- `sort_unstable_by(|a, b| b.id.cmp(&a.id))` as an insertion sort. Equal ids would keep their order;
-- a store holds each id once.
unfoldable pub insert_newest {ℓ} : {A : Type ℓ} → (A → ItemId) → A → List A → List A
insert_newest id x [] = x ∷ []
insert_newest id x (y ∷ ys) = if id_ltb (id x) (id y) then y ∷ insert_newest id x ys else x ∷ y ∷ ys

unfoldable pub sort_newest_first {ℓ} : {A : Type ℓ} → (A → ItemId) → List A → List A
unfolding insert_newest
sort_newest_first id [] = []
sort_newest_first id (x ∷ xs) = insert_newest id x (sort_newest_first id xs)

module _ (chrono : Chrono) where
  open chrono use {DateTime, before, checked_sub, min_utc}

  -- The time before which an item is old enough; an age that cannot be subtracted spares all.
  unfoldable pub cutoff_of : DateTime → ℕ → DateTime
  cutoff_of now age = elim (checked_sub now age) [ none ↦ min_utc | some t ↦ t ]

  -- `beyond_keep && old_enough` for the item at `index`
  unfoldable pub is_eligible : DateTime → Option ℕ → Option ℕ → ℕ → ItemMeta DateTime → Bool
  unfolding cutoff_of
  is_eligible now older_than keeping index meta =
      elim keeping [ none ↦ true | some n ↦ leb n index ]
      && elim older_than [ none ↦ true | some age ↦ before meta.created_at (cutoff_of now age) ]

  -- `enumerate().filter(…).map(…)`, from `index` on
  unfoldable pub pick : DateTime → Option ℕ → Option ℕ → ℕ → List (ItemMeta DateTime) → List ItemId
  unfolding is_eligible
  pick now older_than keeping index [] = []
  pick now older_than keeping index (meta ∷ rest) =
      let tail = pick now older_than keeping (index + 1) rest in
      if is_eligible now older_than keeping index meta then meta.id ∷ tail else tail

  -- `select`
  unfoldable pub select : List (ItemMeta DateTime) → DateTime → Option ℕ → Option ℕ → List ItemId
  unfolding pick sort_newest_first
  select items now none none = []
  select items now older_than keeping =
      pick now older_than keeping 0 (sort_newest_first (λ meta. meta.id) items)
