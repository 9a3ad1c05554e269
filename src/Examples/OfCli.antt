-- ===== src/Examples/OfCli.antt =====
-- The picker with two items.
use passalong.Prelude.{ℕ, ◌≡◌, ◌≢◌, refl, true, false, none, some, List, [], ◌∷◌, Text, codes}
use passalong.Model.Id.{id_of}
use passalong.Model.Meta.{ItemMeta, ItemKind}
use passalong.Cli.Picker.{Picker, KeyEvent, KeyCode, char, new, handle, selected, visible}
use passalong.Cli.Picker.Selection.{Reach, key, opened, next, Reach-selected}

abbrev item : ℕ → ItemMeta ℕ
item secs = record {
  schema = 1;
  id = id_of (codes "2cf24dba5fb0") secs;
  kind = ItemKind.text;
  name = none;
  mime = codes "text/plain; charset=utf-8";
  size = 5;
  sha256 = [];
  created_at = secs;
  device = codes "laptop";
  preview = none;
  origin = none;
}

abbrev items : List (ItemMeta ℕ)
items = item 20 ∷ item 10 ∷ []

abbrev same : Text → Text
same text = text

abbrev pressed : ℕ → KeyEvent
pressed c = record { is_press = true; control = false; code = char c }

-- The second item is selected, and the picker asks whether to delete it.
abbrev second : Picker ℕ
second = (handle same (pressed b'j') (new items)).0

abbrev asking : Picker ℕ
asking = (handle same (pressed b'd') second).0

second-Reach : Reach same items second
second-Reach = next opened (key (pressed b'j') (new items))

lower_shows : visible same second ≡ items
unfolding visible handle new
lower_shows = refl

lower_some : visible same second ≢ []
lower_some h = cc (h, lower_shows)

Reach-selected_example : (meta : ItemMeta ℕ) × (selected same second ≡ some meta)
Reach-selected_example = Reach-selected same items second second-Reach lower_some

abbrev done : Picker ℕ
done = (handle same (pressed b'y') asking).0
