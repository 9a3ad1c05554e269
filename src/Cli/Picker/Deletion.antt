-- ===== src/Cli/Picker/Deletion.antt =====
-- When a key in the picker deletes an item.
use passalong.Prelude.{◌⊎◌, ◌≡◌, true, Option, none, some, List, Text}
use passalong.Model.Id.{ItemId}
use passalong.Model.Meta.{ItemMeta}
use passalong.Cli.Picker.{Picker, Outcome, KeyEvent, KeyCode, Mode, selected, handle, is_yes, char}
use passalong.Cli.Picker.Selection.{Step, Reach}

-- What an outcome deletes
abbrev deleted : Outcome → Option ItemId
deleted (Outcome.delete id) = some id
deleted _ = none

-- The item that a mode asks about
abbrev asked : Mode → Option ItemId
asked (Mode.confirm_delete id) = some id
asked _ = none

module _ {DateTime : Type 0} (to_lowercase : Text → Text) where
  -- A picker whose selected item has the id
  pub record Chose (id : ItemId) (p : Picker DateTime) : Type 0 where
    pub meta : ItemMeta DateTime
    pub is_selected : selected to_lowercase p ≡ some meta
    pub has_id : meta.id ≡ id

  -- What a key in the list leads to: nothing is deleted, and a question is about the selected item.
  record Browsed (code : KeyCode) (p : Picker DateTime) (r : Picker DateTime × Outcome)
      : Type 0 where
    no_delete : deleted r.1 ≡ none
    question :
        (id : ItemId)
        → asked r.0.mode ≡ some id
        → (asked p.mode ≡ some id) ⊎ (Chose id p × (code ≡ char b'd'))

  -- What a key leads to in any mode
  record Handled (p : Picker DateTime) (code : KeyCode) (r : Picker DateTime × Outcome)
      : Type 0 where
    answered :
        (id : ItemId) → deleted r.1 ≡ some id → (asked p.mode ≡ some id) × (is_yes code ≡ true)
    question :
        (id : ItemId)
        → asked r.0.mode ≡ some id
        → (asked p.mode ≡ some id) ⊎ (Chose id p × (p.mode ≡ Mode.browse) × (code ≡ char b'd'))

  -- From a picker in browse mode in which `d` is pressed, on to one that has asked about the item
  -- ever since
  pub data Asking (id : ItemId) (q : Picker DateTime) : Picker DateTime → Type 0 where
    pressed :
        (k : KeyEvent)
        → q.mode ≡ Mode.browse
        → k.code ≡ char b'd'
        → Asking id q (handle to_lowercase k q).0
    kept :
        {p p' : Picker DateTime}
        → Asking id q p
        → p.mode ≡ Mode.confirm_delete id
        → Step to_lowercase p p'
        → Asking id q p'

  -- Where the question about an item comes from
  abbrev Origin : List (ItemMeta DateTime) → ItemId → Picker DateTime → Type 0
  Origin items id p =
      (q : Picker DateTime) × Reach to_lowercase items q × Chose id q × Asking id q p
