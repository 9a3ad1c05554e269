-- ===== src/Cli/Picker.antt =====
-- The picker of `passalong choose` (`Picker` of
-- crates/passalong-cli/src/commands/choose/state.rs, and `kind_label` of
-- crates/passalong-cli/src/output.rs). `str::to_lowercase` is a parameter: its table is Unicode's.
pub mod Selection
pub mod Deletion
use passalong.Prelude.{
  ℕ, ◌+◌, ◌-◌, min, Bool, true, false, ◌&&◌, ◌||◌, not, Option, none, some, List, [], ◌∷◌, ◌++◌,
  ◌==◌, if◌then◌else◌, length, get_elem?, any, keep, is_empty, Text, codes,
}
use passalong.Model.Id.{ItemId}
use passalong.Model.Meta.{ItemMeta, ItemKind, is_clipboard_image}
use passalong.Store.FsStore.{starts_with}

abbrev pub page : ℕ
page = 10

pub data Action : Type 0 where
  load cat : Action

pub data Outcome : Type 0 where
  continue quit reload reload_server : Outcome
  act : Action → ItemId → Outcome
  delete details : ItemId → Outcome

pub data Mode : Type 0 where
  browse filter help : Mode
  confirm_delete : ItemId → Mode
  details : Text → List Text → ℕ → Mode

-- `KeyCode`, of which the picker knows these
pub data KeyCode : Type 0 where
  char : ℕ → KeyCode
  up down page_up page_down home end enter esc backspace unknown : KeyCode

-- `KeyEvent`: whether it is a press, and whether Control is held
pub record KeyEvent : Type 0 where
  pub is_press : Bool
  pub control : Bool
  pub code : KeyCode

pub record Picker (DateTime : Type 0) : Type 0 where
  pub items : List (ItemMeta DateTime)
  pub filter : Text
  pub mode : Mode
  pub selected : ℕ
  pub status : Option Text

-- `str::contains`
unfoldable pub contains : Text → Text → Bool
unfolding starts_with
contains [] needle = is_empty needle
contains (c ∷ text) needle = starts_with (c ∷ text) needle || contains text needle

unfoldable pub or_empty : Option Text → Option Text → Text
or_empty (some name) preview = name
or_empty none (some preview) = preview
or_empty none none = []

-- `String::pop`
unfoldable pub pop : Text → Text
pop [] = []
pop (c ∷ []) = []
pop (c ∷ d ∷ text) = c ∷ pop (d ∷ text)

-- Moving a row, within the rows up to `last`: `none` for the other keys
unfoldable pub moved : KeyCode → ℕ → ℕ → Option ℕ
moved up row last = some (row - 1)
moved down row last = some (min (row + 1) last)
moved page_up row last = some (row - page)
moved page_down row last = some (min (row + page) last)
moved home row last = some 0
moved end row last = some last
moved (char c) row last =
    if c == b'k' then some (row - 1) else if c == b'j' then some (min (row + 1) last) else none
moved _ row last = none

-- `KeyCode::Char('y' | 'Y')`
unfoldable pub is_yes : KeyCode → Bool
is_yes (char c) = c == b'y' || c == b'Y'
is_yes _ = false

-- Control and `c`
unfoldable pub is_interrupt : KeyEvent → Bool
is_interrupt key = elim key.code [ char c ↦ key.control && c == b'c' | _ ↦ false ]

-- The keys that close the details
unfoldable pub closes_details : KeyCode → Bool
closes_details esc = true
closes_details enter = true
closes_details (char c) = c == b'q' || c == b'g'
closes_details _ = false

module _ {DateTime : Type 0} where
  -- `kind_label` and `kind_name`
  unfoldable pub kind_label : ItemMeta DateTime → Text
  unfolding is_clipboard_image
  kind_label meta =
      if is_clipboard_image meta
      then codes "image"
      else elim meta.kind [ ItemKind.text ↦ codes "text" | ItemKind.file ↦ codes "file" ]

  -- `Picker::new`
  unfoldable pub new : List (ItemMeta DateTime) → Picker DateTime
  new items = record { items = items; filter = []; mode = browse; selected = 0; status = none }

  -- `Picker::set_status` and `clear_status`
  unfoldable pub set_status : Text → Picker DateTime → Picker DateTime
  set_status text p = record p { status = some text }

  unfoldable pub clear_status : Picker DateTime → Picker DateTime
  clear_status p = record p { status = none }

  -- `Picker::show_details`
  unfoldable pub show_details : Text → List Text → Picker DateTime → Picker DateTime
  show_details title lines p = record p { mode = details title lines 0 }

  abbrev with_scroll : Text → List Text → Option ℕ → Picker DateTime → Picker DateTime
  with_scroll title lines none p = p
  with_scroll title lines (some scroll) p = record p { mode = details title lines scroll }

  -- `Picker::details_key`
  unfoldable pub details_key : Text → List Text → ℕ → KeyCode → Picker DateTime → Picker DateTime
  unfolding closes_details moved
  details_key title lines scroll code p =
      if closes_details code
      then record p { mode = browse }
      else with_scroll title lines (moved code scroll (length lines - 1)) p

  -- `Picker::filter_key`
  unfoldable pub filter_key : KeyCode → Picker DateTime → Picker DateTime
  unfolding pop
  filter_key (char c) p = record p { filter = p.filter ++ c ∷ []; selected = 0 }
  filter_key backspace p = record p { filter = pop p.filter; selected = 0 }
  filter_key enter p = record p { mode = browse }
  filter_key esc p = record p { filter = []; selected = 0; mode = browse }
  filter_key _ p = p

  abbrev no_item_selected : Picker DateTime → Picker DateTime × Outcome
  no_item_selected p = (set_status (codes "no item selected") p, continue)

  module _ (to_lowercase : Text → Text) where
    -- `matches`
    unfoldable pub matches : ItemMeta DateTime → Text → Bool
    unfolding contains or_empty kind_label
    matches meta needle =
        any (λ field. contains (to_lowercase field) needle)
          (meta.id.repr ∷ or_empty meta.name meta.preview ∷ meta.device ∷ kind_label meta ∷ [])

    -- `Picker::visible`
    unfoldable pub visible : Picker DateTime → List (ItemMeta DateTime)
    visible p =
        let needle = to_lowercase p.filter in
        keep (λ meta. is_empty needle || matches meta needle) p.items

    -- `Picker::selected`
    unfoldable pub selected : Picker DateTime → Option (ItemMeta DateTime)
    selected p = get_elem? (visible p) p.selected

    abbrev last_row : Picker DateTime → ℕ
    last_row p = length (visible p) - 1

    -- `Picker::clamp`
    unfoldable pub clamp : Picker DateTime → Picker DateTime
    clamp p = record p { selected = min p.selected (last_row p) }

    -- `Picker::replace`
    unfoldable pub replace : List (ItemMeta DateTime) → Picker DateTime → Picker DateTime
    unfolding clamp
    replace items p = clamp (record p { items = items })

    -- What a key does with the selected item, where there is one
    abbrev on_selected :
        (ItemId → Picker DateTime × Outcome)
        → Picker DateTime
        → Option (ItemMeta DateTime)
        → Picker DateTime × Outcome
    on_selected f p none = no_item_selected p
    on_selected f p (some meta) = f meta.id

    -- `Picker::act`
    unfoldable pub act_on : Action → Picker DateTime → Picker DateTime × Outcome
    unfolding set_status selected
    act_on action p = on_selected (λ id. (p, act action id)) p (selected p)

    -- The letters of `browse_key` that do not move
    unfoldable pub browse_char : ℕ → Picker DateTime → Picker DateTime × Outcome
    unfolding act_on set_status selected
    browse_char c p =
        if c == b'/'
        then (record p { mode = filter; status = none }, continue)
        else if c == b'?'
        then (record p { mode = help }, continue)
        else if c == b'r'
        then (p, reload)
        else if c == b'R'
        then (p, reload_server)
        else if c == b'q'
        then (p, quit)
        else if c == b'c'
        then act_on cat p
        else if c == b'g'
        then on_selected (λ id. (p, Outcome.details id)) p (selected p)
        else if c == b'd'
        then on_selected (λ id. (record p { mode = confirm_delete id }, continue)) p (selected p)
        else (p, continue)

    abbrev other_key : KeyCode → Picker DateTime → Picker DateTime × Outcome
    other_key (char c) p = browse_char c p
    other_key enter p = act_on load p
    other_key esc p = (p, quit)
    other_key _ p = (p, continue)

    abbrev to_row : Option ℕ → KeyCode → Picker DateTime → Picker DateTime × Outcome
    to_row (some row) code p = (record p { selected = row }, continue)
    to_row none code p = other_key code p

    -- `Picker::browse_key`
    unfoldable pub browse_key : KeyCode → Picker DateTime → Picker DateTime × Outcome
    unfolding moved browse_char act_on
    browse_key code p = to_row (moved code p.selected (last_row p)) code p

    -- The `match` on the mode
    unfoldable pub mode_key : Mode → KeyCode → Picker DateTime → Picker DateTime × Outcome
    unfolding filter_key browse_key details_key set_status is_yes
    mode_key filter code p = (filter_key code p, continue)
    mode_key (confirm_delete id) code p =
        let p' = record p { mode = browse } in
        if is_yes code then (p', delete id) else (set_status (codes "not deleted") p', continue)
    mode_key help code p = (record p { mode = browse }, continue)
    mode_key (Mode.details title lines scroll) code p =
        (details_key title lines scroll code p, continue)
    mode_key browse code p = browse_key code p

    -- `Picker::handle`
    unfoldable pub handle : KeyEvent → Picker DateTime → Picker DateTime × Outcome
    unfolding mode_key is_interrupt
    handle key p =
        if not key.is_press
        then (p, continue)
        else if is_interrupt key
        then (p, quit)
        else mode_key p.mode key.code p
