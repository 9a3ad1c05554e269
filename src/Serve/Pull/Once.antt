-- ===== src/Serve/Pull/Once.antt =====
-- What a poll applies, and how often (`Puller`).
use mathlib.Core.Path.{subst}
use passalong.Prelude.{
  ◌≡◌, ◌≤◌, refl, sym, ap, ◌∙◌, Bool, true, false, ◌&&◌, ◌||◌, not, Option, List, [], ◌∷◌, ◌++◌,
  any, keep, All, if◌then◌else◌, Text, Result, ok, err, arith, Bool-cases, Result-cases, inl, inr,
}
use passalong.Model.Id.{ItemId, id_eq}
use passalong.Model.Meta.{ItemMeta}
use passalong.Store.Errors.{StoreError, is_gone, is_incomplete}
use passalong.Cache.{has_id}
use passalong.Cache.Fresh.{id_eq→eq}
use passalong.Serve.Pull.{
  Effect, effect_id, Puller, Surroundings, rev, handle_all, Left, read_new, add_meta, handle_new,
  poll_ids, newest_for_clipboard, same_key, poll_listed, poll,
}
use passalong.Serve.Pull.Often.{times, is_of, listed, poll-times}
use passalong.Serve.Pull.Handling.{Applied, Handling, handle_all-Handling}

module _ {DateTime : Type 0} (env : Surroundings DateTime) (p : Puller)
    (own : (id : ItemId) (meta : ItemMeta DateTime)
      → env.store.get_meta id ≡ ok meta
      → meta.id ≡ id) where
  -- The new items are of the ids that were read, and what was seen stays so.
  Reading :
      List ItemId
      → List ItemId
      → Result StoreError (List (ItemMeta DateTime)) × List ItemId
      → Type 0
  Reading ids seen (ok metas, after) =
      ((id : ItemId) → has_id id seen ≡ true → has_id id after ≡ true)
      × ((id : ItemId) → any (λ meta. id_eq id meta.id) metas ≡ true → has_id id ids ≡ true)
  Reading ids seen (err e, after) = Unit

  read_new-Reading : (ids seen : List ItemId) → Reading ids seen (read_new env ids seen)
  unfolding Reading read_new has_id
  read_new-Reading [] seen = (λ id there. there, λ id there. there)
  read_new-Reading (x ∷ ids) seen = elim (Result-cases (env.store.get_meta x)) [
    | inl (e, f) ↦ elim (Bool-cases (is_gone e)) [
      | inl g ↦ subst (Reading (x ∷ ids) seen) (ground (arith, f, g)) (
          skipped x ids (x ∷ seen) seen (read_new env ids (x ∷ seen))
            (λ id there. ground (arith, there)) (read_new-Reading ids (x ∷ seen)))
      | inr g ↦ elim (Bool-cases (is_incomplete e)) [
        | inl k ↦ subst (Reading (x ∷ ids) seen) (ground (arith, f, g, k)) (
            skipped x ids seen seen (read_new env ids seen) (λ id there. there)
              (read_new-Reading ids seen))
        | inr k ↦ subst (Reading (x ∷ ids) seen) {x = (err e, seen)} (ground (arith, f, g, k)) tt
      ]
    ]
    | inr (meta, f) ↦
        subst (Reading (x ∷ ids) seen) (ground (arith, f))
          (added x meta ids seen (own x meta f) (read_new env ids seen) (read_new-Reading ids seen))
  ]
    where
      skipped :
          (x : ItemId) (ids seen seen' : List ItemId)
          (r : Result StoreError (List (ItemMeta DateTime)) × List ItemId)
          → ((id : ItemId) → has_id id seen' ≡ true → has_id id seen ≡ true)
          → Reading ids seen r
          → Reading (x ∷ ids) seen' r
      skipped x ids seen seen' (ok metas, after) more (grows, of_ids) =
          (λ id there. grows id (more id there), λ id there. ground (arith, of_ids id there))
      skipped x ids seen seen' (err e, after) more h = tt

      added :
          (x : ItemId) (meta : ItemMeta DateTime) (ids seen : List ItemId)
          → meta.id ≡ x
          → (r : Result StoreError (List (ItemMeta DateTime)) × List ItemId) → Reading ids seen r
          → Reading (x ∷ ids) seen (add_meta meta r)
      added x meta ids seen named (ok metas, after) (grows, of_ids) = (
        grows,
        λ id there. elim (Bool-cases (id_eq id x)) [
          | inl e ↦ ground (arith, e)
          | inr e ↦
              let other : id_eq id meta.id ≡ false = ap (id_eq id) named ∙ e in
              let behind : any (λ m. id_eq id m.id) metas ≡ true = ground (arith, there, other) in
              ground (arith, e, of_ids id behind)
        ],
      )
      added x meta ids seen named (err e, after) h = tt

has_id-keep :
    (id : ItemId) (q : ItemId → Bool) (ids : List ItemId)
    → has_id id (keep q ids) ≡ (has_id id ids && q id)
unfolding has_id
has_id-keep id q [] = refl
has_id-keep id q (x ∷ xs) = elim (Bool-cases (id_eq id x)) [
  | inl e ↦ ground (arith, e, ap q (id_eq→eq id x e), has_id-keep id q xs)
  | inr e ↦ elim (Bool-cases (q x)) [
    | inl f ↦ ground (arith, e, f, has_id-keep id q xs)
    | inr f ↦ ground (arith, e, f, has_id-keep id q xs)
  ]
]

module _ {A : Type 0} (q : A → Bool) where
  any-append : (xs ys : List A) → any q (xs ++ ys) ≡ (any q xs || any q ys)
  any-append [] ys = refl
  any-append (x ∷ xs) ys = ground (arith, any-append xs ys)

  any-rev : (xs : List A) → any q (rev xs) ≡ any q xs
  any-rev [] = refl
  any-rev (x ∷ xs) = ground (arith, any-append (rev xs) (x ∷ []), any-rev xs)

module _ {DateTime : Type 0} (env : Surroundings DateTime) (p : Puller)
    (own : (id : ItemId) (meta : ItemMeta DateTime)
      → env.store.get_meta id ≡ ok meta
      → meta.id ≡ id) where
  -- An effect of an item that was not seen before and is seen afterwards
  FirstTime : List ItemId → List ItemId → Effect → Type 0
  FirstTime seen after e = (has_id (effect_id e) seen ≡ false) × (has_id (effect_id e) after ≡ true)

  -- An id of the listing that the puller has not seen is none of those it had seen before.
  unseen-new :
      (ids : List ItemId) (id : ItemId)
      → has_id id (keep (λ i. not (has_id i (keep (λ j. has_id j ids) p.seen))) ids) ≡ true
      → has_id id p.seen ≡ false
  unseen-new ids id h = ground (
    arith,
    h,
    has_id-keep id (λ i. not (has_id i (keep (λ j. has_id j ids) p.seen))) ids,
    has_id-keep id (λ j. has_id j ids) p.seen,
  )

  All-FirstTime :
      (metas : List (ItemMeta DateTime)) (newest : Option ItemId) (after : List ItemId)
      (effects : List Effect)
      → ((id : ItemId) → any (λ meta. id_eq id meta.id) metas ≡ true → has_id id p.seen ≡ false)
      → All (Applied env p newest metas after) effects
      → All (FirstTime p.seen after) effects
  unfolding Applied FirstTime
  All-FirstTime metas newest after [] h k = tt
  All-FirstTime metas newest after (e ∷ es) h k =
      ((h (effect_id e) k.0.0, k.0.1), All-FirstTime metas newest after es h k.1)

  poll_ids-FirstTime :
      (ids : List ItemId) → All (FirstTime p.seen (poll_ids env p ids).2) (poll_ids env p ids).1
  unfolding poll_ids
  poll_ids-FirstTime ids = go (read_new env unseen seen) (read_new-Reading env p own unseen seen)
    where
      seen : List ItemId
      seen = keep (λ j. has_id j ids) p.seen

      unseen : List ItemId
      unseen = keep (λ i. not (has_id i seen)) ids

      go :
          (r : Result StoreError (List (ItemMeta DateTime)) × List ItemId)
          → Reading env p own unseen seen r
          → All (FirstTime p.seen (handle_new env p r).2) (handle_new env p r).1
      go (err e, after) h = tt
      go (ok metas, after) h =
          let newest = newest_for_clipboard p metas in
          let of_ids : (id : ItemId)
              → any (λ meta. id_eq id meta.id) metas ≡ true
              → has_id id unseen ≡ true =
            unfold Reading in h.1 in
          let handled : Handling env p newest (rev metas) after
              (handle_all env p newest (rev metas) after) =
            handle_all-Handling env p newest (rev metas) after in
          All-FirstTime (rev metas) newest _ _
            (λ id there.
              unseen-new ids id
                (of_ids id (sym (any-rev (λ meta. id_eq id meta.id) metas) ∙ there)))
            (unfold Handling in handled.1)

  poll-FirstTime : All (FirstTime p.seen (poll env p).2.seen) (poll env p).1
  unfolding poll
  poll-FirstTime = go env.store.list_ids
    where
      unless :
          (b : Bool) (x y : Left × Option Text)
          → All (FirstTime p.seen x.0.2) x.0.1
          → All (FirstTime p.seen y.0.2) y.0.1
          → All (FirstTime p.seen (if b then x else y).0.2) (if b then x else y).0.1
      unless true x y h k = h
      unless false x y h k = k

      go :
          (r : Result StoreError (List ItemId))
          → All (FirstTime p.seen (poll_listed env p r).0.2) (poll_listed env p r).0.1
      go (err e) = tt
      go (ok ids) =
          unless (same_key env.store.key_id p.key_id) (poll_ids env p ids, p.key_id)
            ((ok tt, [], ids), env.store.key_id) (poll_ids-FirstTime ids) tt

  -- Whatever a poll does, also one that fails, it writes to the clipboard and saves only items that
  -- the puller had not seen before, each of which it has seen afterwards, and no item more often than the
  -- store's listing has its id: at most once, when no id is listed twice. The store answers for an id
  -- with that id's metadata.
  pub poll-once :
      (id : ItemId)
      → All
          (λ e.
            (has_id (effect_id e) p.seen ≡ false)
            × (has_id (effect_id e) (poll env p).2.seen ≡ true))
          (poll env p).1
        × (times (is_of id) (poll env p).1 ≤ times (id_eq id) (listed env.store.list_ids))
  unfolding FirstTime
  poll-once id = (poll-FirstTime, poll-times env p id own)
