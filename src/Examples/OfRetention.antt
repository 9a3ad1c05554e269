-- ===== src/Examples/OfRetention.antt =====
-- Ages and the choice of what `prune` deletes.
use passalong.Prelude.{
  Text, ◌≤◌, ℕ, ◌≡◌, ◌↔◌, refl, true, none, List, [], ◌∷◌, ◌++◌, codes, ok, err, ℤ, pos,
}
use passalong.Model.Id.{id_of}
use passalong.Model.Meta.{ItemMeta, ItemKind}
use passalong.Retention.Age.{panics, parse_age}
use passalong.Retention.Age.Accepts.{IsAge, parse_age_iff}
use passalong.Retention.Age.Panics.{utf8, parse_age_panics_iff}

parse_age_iff_example :
    (parse_age (λ n. true) (codes "30" ++ b'd' ∷ []) ≡ ok 2592000)
    ↔ IsAge (λ n. true) (codes "30") b'd' 2592000
parse_age_iff_example = parse_age_iff (λ n. true) (codes "30") b'd' 2592000

-- `5é`
parse_age_panics_iff_example :
    (parse_age (λ n. true) (utf8 (b'5' ∷ 0xe9 ∷ [])) ≡ err panics)
    ↔ ((front : Text) × (c : ℕ) × (b'5' ∷ 0xe9 ∷ [] ≡ front ++ c ∷ []) × (0x80 ≤ c))
parse_age_panics_iff_example = parse_age_panics_iff (λ n. true) (b'5' ∷ 0xe9 ∷ [])

-- The bytes of `5é`, and what becomes of them
bytes : utf8 (b'5' ∷ 0xe9 ∷ []) ≡ b'5' ∷ 0xc3 ∷ 0xa9 ∷ []
unfolding utf8
bytes = refl

abbrev item : ℕ → ItemMeta ℤ
item secs = record {
  schema = 1;
  id = id_of (codes "2cf24dba5fb0") secs;
  kind = ItemKind.text;
  name = none;
  mime = codes "text/plain; charset=utf-8";
  size = 5;
  sha256 = [];
  created_at = pos secs;
  device = codes "laptop";
  preview = none;
  origin = none;
}
