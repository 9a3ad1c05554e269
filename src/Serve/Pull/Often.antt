-- ===== src/Serve/Pull/Often.antt =====
-- How often a poll handles an item.
use mathlib.Core.Path.{subst}
use passalong.Prelude.{
  ℕ, ◌+◌, ◌≤◌, ◌≡◌, refl, ap, Bool, not, Option, none, some, List, [], ◌∷◌, ◌++◌, keep,
  if◌then◌else◌, Result, ok, err, arith, Bool-cases, Result-cases, inl, inr,
}
use passalong.Model.Id.{ItemId, id_eq}
use passalong.Model.Meta.{ItemMeta}
use passalong.Store.Errors.{StoreError, is_gone, is_incomplete}
use passalong.Cache.{has_id}
use passalong.Serve.Pull.{
  Effect, effect_id, Handled, Puller, Surroundings, rev, handle_item, handle_all, mark, Left,
  before, read_new, add_meta, handle_new, poll_ids, newest_for_clipboard, same_key, poll_listed,
  poll,
}
use passalong.Serve.Pull.Handling.{Own, OwnResult, handle_item-Own}

-- How many elements pass a test
abbrev pub times : {A : Type 0} → (A → Bool) → List A → ℕ
times q [] = 0
times q (x ∷ xs) = (if q x then 1 else 0) + times q xs

module _ {A : Type 0} (q : A → Bool) where
  times-keep : (p : A → Bool) (xs : List A) → times q (keep p xs) ≤ times q xs
  times-keep p [] = omega arith
  times-keep p (x ∷ xs) = ground (arith, times-keep p xs)

  times-append : (xs ys : List A) → times q (xs ++ ys) ≡ times q xs + times q ys
  times-append [] ys = omega arith
  times-append (x ∷ xs) ys = omega (arith, times-append xs ys)

  times-rev : (xs : List A) → times q (rev xs) ≡ times q xs
  times-rev [] = refl
  times-rev (x ∷ xs) = omega (arith, times-append (rev xs) (x ∷ []), times-rev xs)

-- An effect of the item with an id
abbrev pub is_of : ItemId → Effect → Bool
is_of id e = id_eq id (effect_id e)

-- The ids of a listing, and none of one that failed
abbrev pub listed : Result StoreError (List ItemId) → List ItemId
listed (ok ids) = ids
listed (err e) = []

module _ {DateTime : Type 0} (env : Surroundings DateTime) (p : Puller) (id : ItemId) where
  abbrev of_meta : ItemMeta DateTime → Bool
  of_meta meta = id_eq id meta.id

  before-times :
      (meta : ItemMeta DateTime) (h : Handled) (e : Option Effect) (left : Left)
      → Own meta (h, e)
      → times (is_of id) (before e left).1
        ≤ (if of_meta meta then 1 else 0) + times (is_of id) left.1
  unfolding Own
  before-times meta h none (r, effects, after) own = omega arith
  before-times meta h (some e) (r, effects, after) own =
      let same : is_of id e ≡ of_meta meta = ap (id_eq id) own.1 in ground (arith, same)

  handle_all-times :
      (newest : Option ItemId) (metas : List (ItemMeta DateTime)) (seen : List ItemId)
      → times (is_of id) (handle_all env p newest metas seen).1 ≤ times of_meta metas
  unfolding handle_all
  handle_all-times newest [] seen = omega arith
  handle_all-times newest (meta ∷ metas) seen =
      elim (Result-cases (handle_item env p newest meta)) [
        | inl (x, f) ↦
            let stop : (err x, [], seen) ≡ handle_all env p newest (meta ∷ metas) seen =
              ground (arith, f) in
            subst (λ left. times (is_of id) left.1 ≤ times of_meta (meta ∷ metas)) stop
              (omega arith)
        | inr ((h, e), f) ↦
            let own : Own meta (h, e) =
              unfold OwnResult in subst (OwnResult meta) f (handle_item-Own env p newest meta) in
            let go : before e (handle_all env p newest metas (mark h meta.id seen))
                ≡ handle_all env p newest (meta ∷ metas) seen =
              ground (arith, f) in
            subst (λ left. times (is_of id) left.1 ≤ times of_meta (meta ∷ metas)) go
              (omega (
                arith,
                before-times meta h e (handle_all env p newest metas (mark h meta.id seen)) own,
                handle_all-times newest metas (mark h meta.id seen),
              ))
      ]

  module _
      (own : (i : ItemId) (meta : ItemMeta DateTime)
        → env.store.get_meta i ≡ ok meta
        → meta.id ≡ i) where
    -- What is read of some ids has an id as often as these do, at most.
    Reading : List ItemId → Result StoreError (List (ItemMeta DateTime)) × List ItemId → Type 0
    Reading ids (ok metas, after) = times of_meta metas ≤ times (id_eq id) ids
    Reading ids (err e, after) = Unit

    skipped :
        (x : ItemId) (ids : List ItemId)
        (r : Result StoreError (List (ItemMeta DateTime)) × List ItemId)
        → Reading ids r
        → Reading (x ∷ ids) r
    unfolding Reading
    skipped x ids (ok metas, after) h = omega (arith, h)
    skipped x ids (err e, after) h = tt

    added :
        (x : ItemId) (meta : ItemMeta DateTime) (ids : List ItemId)
        (r : Result StoreError (List (ItemMeta DateTime)) × List ItemId)
        → meta.id ≡ x
        → Reading ids r
        → Reading (x ∷ ids) (add_meta meta r)
    unfolding Reading
    added x meta ids (ok metas, after) named h =
        let same : of_meta meta ≡ id_eq id x = ap (id_eq id) named in ground (arith, same, h)
    added x meta ids (err e, after) named h = tt

    read_new-Reading : (ids seen : List ItemId) → Reading ids (read_new env ids seen)
    unfolding read_new
    read_new-Reading [] seen = unfold Reading in omega arith
    read_new-Reading (x ∷ ids) seen = elim (Result-cases (env.store.get_meta x)) [
      | inl (e, f) ↦ elim (Bool-cases (is_gone e)) [
        | inl g ↦
            subst (Reading (x ∷ ids)) (ground (arith, f, g))
              (skipped x ids (read_new env ids (x ∷ seen)) (read_new-Reading ids (x ∷ seen)))
        | inr g ↦ elim (Bool-cases (is_incomplete e)) [
          | inl k ↦
              subst (Reading (x ∷ ids)) (ground (arith, f, g, k))
                (skipped x ids (read_new env ids seen) (read_new-Reading ids seen))
          | inr k ↦
              subst (Reading (x ∷ ids)) {x = (err e, seen)} (ground (arith, f, g, k))
                (unfold Reading in tt)
        ]
      ]
      | inr (meta, f) ↦
          subst (Reading (x ∷ ids)) (ground (arith, f))
            (added x meta ids (read_new env ids seen) (own x meta f) (read_new-Reading ids seen))
    ]

    handle_new-times :
        (ids : List ItemId) (r : Result StoreError (List (ItemMeta DateTime)) × List ItemId)
        → Reading ids r
        → times (is_of id) (handle_new env p r).1 ≤ times (id_eq id) ids
    unfolding Reading
    handle_new-times ids (err e, after) h = omega arith
    handle_new-times ids (ok metas, after) h = omega (
      arith,
      h,
      handle_all-times (newest_for_clipboard p metas) (rev metas) after,
      times-rev of_meta metas,
    )

    poll_ids-times :
        (ids : List ItemId) → times (is_of id) (poll_ids env p ids).1 ≤ times (id_eq id) ids
    unfolding poll_ids
    poll_ids-times ids =
        let seen = keep (λ j. has_id j ids) p.seen in
        let unseen = keep (λ i. not (has_id i seen)) ids in
        omega (
          arith,
          handle_new-times unseen (read_new env unseen seen) (read_new-Reading unseen seen),
          times-keep (id_eq id) (λ i. not (has_id i seen)) ids,
        )

    pub poll-times : times (is_of id) (poll env p).1 ≤ times (id_eq id) (listed env.store.list_ids)
    unfolding poll
    poll-times = go env.store.list_ids
      where
        go :
            (r : Result StoreError (List ItemId))
            → times (is_of id) (poll_listed env p r).0.1 ≤ times (id_eq id) (listed r)
        go (err e) = omega arith
        go (ok ids) = elim (Bool-cases (same_key env.store.key_id p.key_id)) [
          | inl e ↦ rw e (poll_ids-times ids)
          | inr e ↦ rw e (omega arith)
        ]
