-- ===== src/Store/FsStore/Resolving.antt =====
-- What `resolve` of `FsStore` answers.
use mathlib.Core.Path.{subst}
use passalong.Prelude.{
  ◌≤◌, ◌≡◌, ◌↔◌, refl, sym, ap, ◌∙◌, Bool, true, false, List, [], ◌∷◌, ◌++◌, keep, length, ltb, All,
  Text, Result, ok, err, arith, Bool-cases, inl, inr,
}
use passalong.Model.Time.{Chrono}
use passalong.Model.FileName.{trim}
use passalong.Model.Id.{ItemId}
use passalong.Model.Id.RoundTrip.{IsValidId}
use passalong.Store.Errors.{StoreError}
use passalong.Fs.Io.{World, ◌>>=◌}
use passalong.Store.FsStore.{
  FsStore, item_ids, resolve, lowercase, matches, only_one, min_prefix_len,
}
use passalong.Store.FsStore.Listing.{item_ids-valid}
use passalong.Store.FsStore.Meaning.{Means, length-lowercase, matches-Means}

only_one_iff :
    (input : Text) (ids : List ItemId) (id : ItemId)
    → (only_one input ids ≡ ok id) ↔ (ids ≡ id ∷ [])
unfolding only_one
only_one_iff input [] id = (λ h. cc, λ h. cc)
only_one_iff input (a ∷ []) id = (λ h. cc, λ h. cc)
only_one_iff input (a ∷ b ∷ rest) id = (λ h. cc, λ h. cc)

-- The only one of a list with a property
pub record OnlyOne (P : ItemId → Type 0) (ids : List ItemId) (id : ItemId) : Type 0 where
  pub before : List ItemId
  pub after : List ItemId
  pub listed : ids ≡ before ++ id ∷ after
  pub meant : P id
  pub none_before : All (λ j. ¬ P j) before
  pub none_after : All (λ j. ¬ P j) after

-- What is kept of a list, for a test of a property
module _ (q : ItemId → Bool) (P : ItemId → Type 0) where
  abbrev Tests : ItemId → Type 0
  Tests id = (q id ≡ true) ↔ P id

  keep-none : (ids : List ItemId) → All Tests ids → keep q ids ≡ [] → All (λ j. ¬ P j) ids
  keep-none [] t h = tt
  keep-none (x ∷ ids) t h = elim (Bool-cases (q x)) [
    | inl e ↦ absurd (ground (arith, h, e))
    | inr e ↦ (λ p. cc (e, t.0.1 p), keep-none ids t.1 (ground (arith, h, e)))
  ]

  none-keep : (ids : List ItemId) → All Tests ids → All (λ j. ¬ P j) ids → keep q ids ≡ []
  none-keep [] t h = refl
  none-keep (x ∷ ids) t h = elim (Bool-cases (q x)) [
    | inl e ↦ absurd (h.0 (t.0.0 e))
    | inr e ↦ ground (arith, e, none-keep ids t.1 h.1)
  ]

  keep-OnlyOne :
      (ids : List ItemId) (id : ItemId) → All Tests ids → keep q ids ≡ id ∷ [] → OnlyOne P ids id
  keep-OnlyOne [] id t h = cc
  keep-OnlyOne (x ∷ ids) id t h = elim (Bool-cases (q x)) [
    | inl e ↦
        let is_first : x ≡ id = ground (arith, h, e) in
        subst (OnlyOne P (x ∷ ids)) is_first (record {
          before = [];
          after = ids;
          listed = refl;
          meant = t.0.0 e;
          none_before = tt;
          none_after = keep-none ids t.1 (ground (arith, h, e));
        })
    | inr e ↦
        let o = keep-OnlyOne ids id t.1 (ground (arith, h, e)) in
        record {
          before = x ∷ o.before;
          after = o.after;
          listed = ap (λ r. x ∷ r) o.listed;
          meant = o.meant;
          none_before = (λ p. cc (e, t.0.1 p), o.none_before);
          none_after = o.none_after;
        }
  ]

  split-keep :
      (before after : List ItemId) (id : ItemId)
      → All Tests (before ++ id ∷ after)
      → P id
      → All (λ j. ¬ P j) before
      → All (λ j. ¬ P j) after
      → keep q (before ++ id ∷ after) ≡ id ∷ []
  split-keep [] after id t p h k = ground (arith, t.0.1 p, none-keep after t.1 k)
  split-keep (x ∷ before) after id t p h k = elim (Bool-cases (q x)) [
    | inl e ↦ absurd (h.0 (t.0.0 e))
    | inr e ↦ ground (arith, e, split-keep before after id t.1 p h.1 k)
  ]

  OnlyOne-keep :
      (ids : List ItemId) (id : ItemId) → All Tests ids → OnlyOne P ids id → keep q ids ≡ id ∷ []
  OnlyOne-keep ids id t o =
      ap (keep q) o.listed
      ∙ split-keep o.before o.after id (subst (All Tests) o.listed t) o.meant o.none_before
          o.none_after

All-Tests :
    (typed : Text) (ids : List ItemId)
    → All IsValidId ids
    → All (Tests (matches (lowercase typed)) (Means typed)) ids
All-Tests typed [] v = tt
All-Tests typed (id ∷ ids) v = (matches-Means typed id v.0, All-Tests typed ids v.1)

module _ (chrono : Chrono) (s : FsStore chrono.DateTime) where
  listed-Tests :
      (typed : Text) (ids : List ItemId) (w w' : World)
      → item_ids chrono s w ≡ (ok ids, w')
      → All (Tests (matches (lowercase typed)) (Means typed)) ids
  listed-Tests typed ids w w' h = All-Tests typed ids (item_ids-valid chrono s ids w w' h).0

  resolve_listed :
      (text : Text) (ids : List ItemId) (w w' : World)
      → 4 ≤ length (trim text)
      → item_ids chrono s w ≡ (ok ids, w')
      → resolve chrono s text w
        ≡ (only_one (trim text) (keep (matches (lowercase (trim text))) ids), w')
  unfolding resolve ◌>>=◌
  resolve_listed text ids w w' long listed =
      let enough : ltb (length (lowercase (trim text))) min_prefix_len ≡ false =
        ground (arith, long, length-lowercase (trim text)) in
      ground (arith, enough, listed)

  -- What an answer of `resolve` comes from
  abbrev Answers : Text → ItemId → World → World → Type 0
  Answers text id w w' =
      (4 ≤ length (trim text))
      × ((ids : List ItemId) × (item_ids chrono s w ≡ (ok ids, w'))
          × OnlyOne (Means (trim text)) ids id)

  listed-Answers :
      (text : Text) (id : ItemId) (ids : List ItemId) (w w' w1 : World)
      → 4 ≤ length (trim text)
      → item_ids chrono s w ≡ (ok ids, w1)
      → resolve chrono s text w ≡ (ok id, w')
      → Answers text id w w'
  listed-Answers text id ids w w' w1 long listed h =
      let kept = keep (matches (lowercase (trim text))) ids in
      let same : (only_one (trim text) kept, w1) ≡ (ok id, w') =
        sym (resolve_listed text ids w w1 long listed) ∙ h in
      let only : kept ≡ id ∷ [] = (only_one_iff (trim text) kept id).0 (ap (λ r. r.0) same) in
      (
        long,
        (
          ids,
          listed ∙ (λ i. (ok ids, (same i).1)),
          keep-OnlyOne (matches (lowercase (trim text))) (Means (trim text)) ids id
              (listed-Tests (trim text) ids w w1 listed) only,
        ),
      )

  resolve-Answers :
      (text : Text) (id : ItemId) (w w' : World) (r : Result StoreError (List ItemId) × World)
      → item_ids chrono s w ≡ r
      → resolve chrono s text w ≡ (ok id, w')
      → Answers text id w w'
  unfolding resolve ◌>>=◌
  resolve-Answers text id w w' r e h =
      elim (Bool-cases (ltb (length (lowercase (trim text))) min_prefix_len)) [
        | inl short ↦ absurd (ground (arith, short, h))
        | inr enough ↦ go r e enough
      ]
    where
      go :
          (r : Result StoreError (List ItemId) × World)
          → item_ids chrono s w ≡ r
          → ltb (length (lowercase (trim text))) min_prefix_len ≡ false
          → Answers text id w w'
      go (ok ids, w1) e enough =
          listed-Answers text id ids w w' w1 (ground (arith, enough, length-lowercase (trim text)))
            e h
      go (err x, w1) e enough = absurd (ground (arith, enough, e, h))

  -- `resolve` answers with an id exactly when the text, without the white space around it, has at least
  -- four characters, the store's listing succeeds, and the id is the only one in it that the text means:
  -- with letters of either case, the text is how the whole id starts, past its dash, or how its content
  -- key starts.
  pub resolve_iff :
      (text : Text) (id : ItemId) (w w' : World)
      → (resolve chrono s text w ≡ (ok id, w')) ↔ (
          (4 ≤ length (trim text))
          × ((ids : List ItemId) × (item_ids chrono s w ≡ (ok ids, w'))
              × OnlyOne (Means (trim text)) ids id))
  resolve_iff text id w w' = (
    resolve-Answers text id w w' (item_ids chrono s w) refl,
    λ (long, (ids, listed, only)). resolve_listed text ids w w' long listed ∙ (λ i. (
      (only_one_iff (trim text) (keep (matches (lowercase (trim text))) ids) id).1
          (OnlyOne-keep (matches (lowercase (trim text))) (Means (trim text)) ids id
            (listed-Tests (trim text) ids w w' listed) only)
          i,
      w',
    )),
  )
