-- ===== src/Serve/Pull/Handling.antt =====
-- What handling the items of a poll does, and which of them are seen afterwards.
use mathlib.Core.Path.{subst}
use passalong.Prelude.{
  ◌≡◌, refl, sym, ap, ◌∙◌, Bool, true, false, not, Option, none, some, List, [], ◌∷◌, any, All,
  if◌then◌else◌, Text, Result, ok, err, arith, Option-cases, Result-cases, inl, inr,
}
use passalong.Model.FileName.{sanitise_file_name}
use passalong.Model.Id.{ItemId, ModelError, id_eq}
use passalong.Model.Meta.{ItemMeta}
use passalong.Store.Errors.{StoreError}
use passalong.Cache.{has_id}
use passalong.Cache.Fresh.{id_eq_refl}
use passalong.Serve.Pull.{
  Effect, effect_id, Handled, done, later, Fetched, fetched, unfetched, DownloadError, read_failure,
  unusable, Puller, Surroundings, applied, write_of, without_effect, downloaded, read_failed,
  unopened, save, download, apply, fetch, is_foreign, for_clipboard, is_newest, handle_item,
  handle_all, mark, Left, before, name_or_empty, save_content, save_named,
}

-- What a handled item says of its effect
unfoldable pub Own : {DateTime : Type 0} → ItemMeta DateTime → Handled × Option Effect → Type 0
Own meta (h, none) = Unit
Own meta (h, some e) = (h ≡ done) × (effect_id e ≡ meta.id)

unfoldable pub OwnResult :
    {DateTime : Type 0} → ItemMeta DateTime → Result StoreError (Handled × Option Effect) → Type 0
unfolding Own
OwnResult meta (err e) = Unit
OwnResult meta (ok r) = Own meta r

module _ {DateTime : Type 0} (env : Surroundings DateTime) (p : Puller) where
  without_effect-Own :
      (meta : ItemMeta DateTime) (r : Result StoreError Handled) → OwnResult meta (without_effect r)
  unfolding OwnResult
  without_effect-Own meta (ok h) = tt
  without_effect-Own meta (err e) = tt

  applied-Own :
      (meta : ItemMeta DateTime) (r : Result StoreError Fetched)
      → OwnResult meta (applied env meta r)
  unfolding OwnResult effect_id
  applied-Own meta (err e) = tt
  applied-Own meta (ok (unfetched h)) = tt
  applied-Own meta (ok (fetched bytes)) = elim (Option-cases (write_of env meta bytes)) [
    | inl e ↦ rw e tt
    | inr (w, e) ↦ rw e (refl, refl)
  ]

  downloaded-Own :
      (meta : ItemMeta DateTime) (r : Result DownloadError Text)
      → OwnResult meta (downloaded env meta r)
  unfolding OwnResult effect_id
  downloaded-Own meta (ok path) = (refl, refl)
  downloaded-Own meta (err (read_failure sealed)) =
      without_effect-Own meta (read_failed env meta sealed)
  downloaded-Own meta (err unusable) = tt

  save_content-Own :
      (meta : ItemMeta DateTime) (name : Text) (r : Result StoreError Unit)
      → OwnResult meta (save_content env meta name r)
  save_content-Own meta name (ok u) = downloaded-Own meta (env.download_into meta name)
  save_content-Own meta name (err e) = without_effect-Own meta (unopened e)

  save_named-Own :
      (meta : ItemMeta DateTime) (r : Result ModelError Text)
      → OwnResult meta (save_named env meta r)
  unfolding OwnResult
  save_named-Own meta (ok name) = save_content-Own meta name (env.get meta.id)
  save_named-Own meta (err e) = tt

  save-Own : (meta : ItemMeta DateTime) → OwnResult meta (save env meta)
  unfolding save
  save-Own meta = save_named-Own meta (sanitise_file_name (name_or_empty meta.name))

  if-Own :
      (meta : ItemMeta DateTime) (b : Bool) (x y : Result StoreError (Handled × Option Effect))
      → OwnResult meta x
      → OwnResult meta y
      → OwnResult meta (if b then x else y)
  if-Own meta true x y h k = h
  if-Own meta false x y h k = k

  pub handle_item-Own :
      (newest : Option ItemId) (meta : ItemMeta DateTime)
      → OwnResult meta (handle_item env p newest meta)
  unfolding OwnResult handle_item download apply
  handle_item-Own newest meta = if-Own meta (not (is_foreign p meta)) _ _ tt (
      if-Own meta (not (for_clipboard meta)) _ _ (if-Own meta env.dir_exists _ _ (save-Own meta) tt)
        (if-Own meta (is_newest newest meta.id) _ _
          (if-Own meta p.has_clipboard _ _ (applied-Own meta (fetch env meta)) tt) tt))

-- The ids that are seen stay seen while items are handled, and what has an effect is seen.
module _ {DateTime : Type 0} (env : Surroundings DateTime) (p : Puller)
    (newest : Option ItemId) where
  -- An effect of one of these items, which is seen afterwards
  unfoldable pub Applied : List (ItemMeta DateTime) → List ItemId → Effect → Type 0
  Applied metas seen e =
      (any (λ meta. id_eq (effect_id e) meta.id) metas ≡ true) × (has_id (effect_id e) seen ≡ true)

  unfoldable pub Handling : List (ItemMeta DateTime) → List ItemId → Left → Type 0
  Handling metas seen (r, effects, after) =
      ((id : ItemId) → has_id id seen ≡ true → has_id id after ≡ true)
      × All (Applied metas after) effects

  Applied-cons :
      (meta : ItemMeta DateTime) (metas : List (ItemMeta DateTime)) (seen : List ItemId)
      (effects : List Effect)
      → All (Applied metas seen) effects
      → All (Applied (meta ∷ metas) seen) effects
  unfolding Applied
  Applied-cons meta metas seen [] h = tt
  Applied-cons meta metas seen (e ∷ es) h =
      ((ground (arith, h.0.0), h.0.1), Applied-cons meta metas seen es h.1)

  Handling-step :
      (meta : ItemMeta DateTime) (metas : List (ItemMeta DateTime)) (seen : List ItemId)
      (h : Handled) (e : Option Effect) (left : Left)
      → Own meta (h, e)
      → Handling metas (mark h meta.id seen) left
      → Handling (meta ∷ metas) seen (before e left)
  unfolding Own Handling Applied has_id
  Handling-step meta metas seen done none (r, effects, after) own (grows, all_applied) = (
    λ id there. grows id (ground (arith, there)),
    Applied-cons meta metas after effects all_applied,
  )
  Handling-step meta metas seen later none (r, effects, after) own (grows, all_applied) =
      (grows, Applied-cons meta metas after effects all_applied)
  Handling-step meta metas seen done (some e) (r, effects, after) own (grows, all_applied) =
      let same : id_eq (effect_id e) meta.id ≡ true =
        ap (id_eq (effect_id e)) (sym own.1) ∙ id_eq_refl (effect_id e) in
      (
        λ id there. grows id (ground (arith, there)),
        (
          (ground (arith, same), grows (effect_id e) (ground (arith, same))),
          Applied-cons meta metas after effects all_applied,
        ),
      )
  Handling-step meta metas seen later (some e) (r, effects, after) own (grows, all_applied) =
      absurd (cc (own.0))

  pub handle_all-Handling :
      (metas : List (ItemMeta DateTime)) (seen : List ItemId)
      → Handling metas seen (handle_all env p newest metas seen)
  unfolding handle_all
  handle_all-Handling [] seen = unfold Handling in (λ id there. there, tt)
  handle_all-Handling (meta ∷ metas) seen = elim (Result-cases (handle_item env p newest meta)) [
    | inl (x, f) ↦
        let stop : (err x, [], seen) ≡ handle_all env p newest (meta ∷ metas) seen =
          ground (arith, f) in
        subst (Handling (meta ∷ metas) seen) stop (unfold Handling in (λ id there. there, tt))
    | inr ((h, e), f) ↦
        let go : before e (handle_all env p newest metas (mark h meta.id seen))
            ≡ handle_all env p newest (meta ∷ metas) seen =
          ground (arith, f) in
        let own : Own meta (h, e) =
          unfold OwnResult in subst (OwnResult meta) f (handle_item-Own env p newest meta) in
        subst (Handling (meta ∷ metas) seen) go (
          Handling-step meta metas seen h e _ own (handle_all-Handling metas (mark h meta.id seen)))
  ]
