-- ===== src/Model/Id.antt =====
-- Content keys and item ids (`ContentKey` and `ItemId` of crates/passalong-core/src/model.rs).
pub mod RoundTrip
pub mod Order
use mathlib.Core.Option
use passalong.Prelude.{
  ℕ, ◌<◌, ◌≡◌, Bool, true, false, ◌&&◌, not, Option, none, some, List, [], ◌∷◌, ◌++◌, arith, ltb,
  ◌||◌, ◌==◌, if◌then◌else◌, Text, text_eq, text_ltb, Result, ok, err, ok_or, ◌>>=◌, ℤ, pos, negsuc,
}
use passalong.Model.Hex.{is_lower_hex, hex_fixed, from_hex, u32_mod}
use passalong.Model.Time.{Chrono}

pub data ModelError : Type 0 where
  invalid_item_id : Text → ModelError
  invalid_content_key : Text → ModelError
  -- The time itself is kept for the message alone.
  timestamp_out_of_range : ModelError
  invalid_file_name : Text → ModelError

abbrev pub timestamp_hex_len : ℕ
timestamp_hex_len = 8

abbrev pub key_hex_len : ℕ
key_hex_len = 12

abbrev pub ContentKey : Type 0
ContentKey = Text

-- `ContentKey::parse`
unfoldable pub parse_key : Text → Result ModelError ContentKey
parse_key text = if is_lower_hex text key_hex_len then ok text else err (invalid_content_key text)

pub record ItemId : Type 0 where
  pub repr : Text
  pub secs : ℕ
  pub key : ContentKey

-- `u32::try_from` of an `i64`
unfoldable pub u32_try_from : ℤ → Option ℕ
u32_try_from (pos n) = if ltb n u32_mod then some n else none
u32_try_from (negsuc n) = none

abbrev pub id_of : ContentKey → ℕ → ItemId
id_of key secs = record {
  repr = hex_fixed timestamp_hex_len secs ++ b'-' ∷ key;
  secs = secs;
  key = key;
}

-- `ItemId::new`
unfoldable pub new : (chrono : Chrono) → chrono.DateTime → ContentKey → Result ModelError ItemId
unfolding u32_try_from
new chrono created_at key = do
  secs ← ok_or (u32_try_from (chrono.timestamp created_at)) timestamp_out_of_range
  ok (id_of key secs)

-- `str::split_once`: the texts before and after the first `c`.
unfoldable pub split_once : ℕ → Text → Option (Text × Text)
split_once c [] = none
split_once c (b ∷ rest) =
    if b == c then some ([], rest) else Option.map (λ p. (b ∷ p.0, p.1)) (split_once c rest)

-- The rest of `ItemId::parse`, once the text is split.
unfoldable pub parse_parts : Text → Text → Text → Result ModelError ItemId
parse_parts text ts key =
    if not (is_lower_hex ts timestamp_hex_len && is_lower_hex key key_hex_len)
    then err (invalid_item_id text)
    else do
      secs ← ok_or (from_hex 0 ts) (invalid_item_id text)
      ok (record { repr = text; secs = secs; key = key })

-- `ItemId::parse`
unfoldable pub parse : Text → Result ModelError ItemId
unfolding split_once parse_parts
parse text = do
  parts ← ok_or (split_once b'-' text) (invalid_item_id text)
  parse_parts text parts.0 parts.1

-- `ItemId::timestamp`
unfoldable pub timestamp : (chrono : Chrono) → ItemId → chrono.DateTime
timestamp chrono id = chrono.from_timestamp id.secs

-- The derived `Ord`: the text first, then the seconds, then the key.
unfoldable pub id_ltb : ItemId → ItemId → Bool
id_ltb a b =
    text_ltb a.repr b.repr
    || (text_eq a.repr b.repr && (ltb a.secs b.secs || (a.secs == b.secs && text_ltb a.key b.key)))

-- The derived `PartialEq`
unfoldable pub id_eq : ItemId → ItemId → Bool
id_eq a b = text_eq a.repr b.repr && a.secs == b.secs && text_eq a.key b.key
