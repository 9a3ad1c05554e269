-- ===== src/Cli/Picker/Selection.antt =====
-- The picker's selection over a run of keys.
use passalong.Prelude.{
  ℕ, zero, suc, ◌-◌, ◌≤◌, ◌<◌, ◌≡◌, ◌≢◌, refl, Option, none, some, List, [], ◌∷◌, length, get_elem?,
  Text, arith, Bool-cases, Option-cases, inl, inr,
}
use passalong.Model.Id.{ItemId}
use passalong.Model.Meta.{ItemMeta}
use passalong.Cli.Picker.{
  Picker, Outcome, KeyEvent, KeyCode, Mode, Action, new, set_status, clear_status, show_details,
  visible, selected, last_row, replace, handle, mode_key, browse_key, filter_key, details_key,
  moved, browse_char, clamp, act_on, on_selected, char, enter, closes_details, other_key,
}

get_elem?-some {ℓ} :
    {A : Type ℓ} (xs : List A) (i : ℕ) → i < length xs → (a : A) × (get_elem? xs i ≡ some a)
get_elem?-some [] i h = absurd (omega arith)
get_elem?-some (x ∷ xs) zero h = (x, refl)
get_elem?-some (x ∷ xs) (suc i) h = get_elem?-some xs i (omega arith)

moved-le :
    (code : KeyCode) (row last row' : ℕ)
    → row ≤ last
    → moved code row last ≡ some row'
    → row' ≤ last
unfolding moved
moved-le code row last row' h e = ground arith

module _ {DateTime : Type 0} (to_lowercase : Text → Text) where
  -- What happens to a picker: keys, and what `choose` calls after them
  pub data Step : Picker DateTime → Picker DateTime → Type 0 where
    key : (k : KeyEvent) (p : Picker DateTime) → Step p (handle to_lowercase k p).0
    replaced :
        (items : List (ItemMeta DateTime)) (p : Picker DateTime)
        → Step p (replace to_lowercase items p)
    said : (text : Text) (p : Picker DateTime) → Step p (set_status text p)
    cleared : (p : Picker DateTime) → Step p (clear_status p)
    showed :
        (title : Text) (lines : List Text) (p : Picker DateTime)
        → Step p (show_details title lines p)

  pub data Reach (items : List (ItemMeta DateTime)) : Picker DateTime → Type 0 where
    opened : Reach items (new items)
    next : {p q : Picker DateTime} → Reach items p → Step p q → Reach items q

  abbrev InRange : Picker DateTime → Type 0
  InRange p = p.selected ≤ last_row to_lowercase p

  filter_key-InRange :
      (code : KeyCode) (p : Picker DateTime) → InRange p → InRange (filter_key code p)
  unfolding filter_key visible
  filter_key-InRange code p h = ground arith

  details_key-InRange :
      (title : Text) (lines : List Text) (scroll : ℕ) (code : KeyCode) (p : Picker DateTime)
      → InRange p
      → InRange (details_key title lines scroll code p)
  unfolding details_key visible
  details_key-InRange title lines scroll code p h = elim (Bool-cases (closes_details code)) [
    | inl e ↦ ground (arith, e)
    | inr e ↦ elim (Option-cases (moved code scroll (length lines - 1))) [
      | inl f ↦ ground (arith, e, f)
      | inr (row, f) ↦ ground (arith, e, f)
    ]
  ]

  on_selected-InRange :
      (f : ItemId → Picker DateTime × Outcome) (p : Picker DateTime)
      (o : Option (ItemMeta DateTime))
      → ((id : ItemId) → InRange (f id).0)
      → InRange p
      → InRange (on_selected to_lowercase f p o).0
  unfolding set_status visible
  on_selected-InRange f p none k h = h
  on_selected-InRange f p (some meta) k h = k meta.id

  act_on-InRange :
      (action : Action) (p : Picker DateTime) → InRange p → InRange (act_on to_lowercase action p).0
  unfolding act_on
  act_on-InRange action p h =
      on_selected-InRange (λ id. (p, Outcome.act action id)) p (selected to_lowercase p) (λ id. h) h

  browse_char-InRange :
      (c : ℕ) (p : Picker DateTime) → InRange p → InRange (browse_char to_lowercase c p).0
  unfolding browse_char visible
  browse_char-InRange c p h = ground (
    arith,
    act_on-InRange Action.cat p h,
    on_selected-InRange (λ id. (p, Outcome.details id)) p (selected to_lowercase p) (λ id. h) h,
    on_selected-InRange (λ id. (record p { mode = Mode.confirm_delete id }, Outcome.continue)) p
        (selected to_lowercase p) (λ id. h) h,
  )

  other_key-InRange :
      (code : KeyCode) (p : Picker DateTime) → InRange p → InRange (other_key to_lowercase code p).0
  other_key-InRange (char c) p h = browse_char-InRange c p h
  other_key-InRange enter p h = act_on-InRange Action.load p h
  other_key-InRange _ p h = h

  browse_key-InRange :
      (code : KeyCode) (p : Picker DateTime)
      → InRange p
      → InRange (browse_key to_lowercase code p).0
  unfolding browse_key visible
  browse_key-InRange code p h =
      elim (Option-cases (moved code p.selected (last_row to_lowercase p))) [
        | inl e ↦ ground (arith, e, other_key-InRange code p h)
        | inr (row, e) ↦
            ground (arith, e, moved-le code p.selected (last_row to_lowercase p) row h e)
      ]

  mode_key-InRange :
      (mode : Mode) (code : KeyCode) (p : Picker DateTime)
      → InRange p
      → InRange (mode_key to_lowercase mode code p).0
  unfolding mode_key visible set_status
  mode_key-InRange Mode.filter code p h = filter_key-InRange code p h
  mode_key-InRange (Mode.confirm_delete id) code p h = ground arith
  mode_key-InRange Mode.help code p h = h
  mode_key-InRange (Mode.details title lines scroll) code p h =
      details_key-InRange title lines scroll code p h
  mode_key-InRange Mode.browse code p h = browse_key-InRange code p h

  handle-InRange :
      (k : KeyEvent) (p : Picker DateTime) → InRange p → InRange (handle to_lowercase k p).0
  unfolding handle
  handle-InRange k p h = ground (arith, mode_key-InRange p.mode k.code p h)

  Step-InRange : {p q : Picker DateTime} → Step p q → InRange p → InRange q
  unfolding replace clamp visible set_status clear_status show_details
  Step-InRange (key k p) h = handle-InRange k p h
  Step-InRange (replaced items p) h = omega arith
  Step-InRange (said text p) h = h
  Step-InRange (cleared p) h = h
  Step-InRange (showed title lines p) h = h

  Reach-InRange :
      {items : List (ItemMeta DateTime)} {p : Picker DateTime} → Reach items p → InRange p
  unfolding new
  Reach-InRange opened = omega arith
  Reach-InRange (next r s) = Step-InRange s (Reach-InRange r)

  -- Whatever keys are pressed and whatever lists replace the first one, in any order, an item is
  -- selected as soon as the filter lets one through.
  pub Reach-selected :
      (items : List (ItemMeta DateTime)) (p : Picker DateTime)
      → Reach items p
      → visible to_lowercase p ≢ []
      → (meta : ItemMeta DateTime) × (selected to_lowercase p ≡ some meta)
  unfolding selected
  Reach-selected items p r some_visible =
      get_elem?-some (visible to_lowercase p) p.selected
        (inside (visible to_lowercase p) some_visible (Reach-InRange r))
    where
      inside :
          (xs : List (ItemMeta DateTime))
          → xs ≢ []
          → p.selected ≤ length xs - 1
          → p.selected < length xs
      inside [] h k = absurd (h refl)
      inside (x ∷ xs) h k = omega arith
