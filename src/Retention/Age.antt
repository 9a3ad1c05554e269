-- ===== src/Retention/Age.antt =====
-- Ages such as `30d` (`parse_age` of crates/passalong-core/src/retention.rs). A text is its bytes in
-- UTF-8 here, since the source splits it by bytes.
pub mod Accepts
pub mod Panics
use passalong.Prelude.{
  ℕ, ◌+◌, ◌-◌, ◌*◌, ◌^◌, Bool, true, false, ◌&&◌, ◌||◌, not, Option, none, some, List, [], ◌∷◌, ltb,
  leb, ◌==◌, if◌then◌else◌, all, is_empty, Text, Result, ok, err, ok_or, ◌>>=◌,
}

-- How a call ends when it gives no age: with the error, or in a panic of the standard library.
pub data AgeError : Type 0 where
  invalid_age : Text → AgeError
  panics : AgeError

-- The text without its last byte, and that byte.
unfoldable pub split_last : Text → Text × Option ℕ
split_last [] = ([], none)
split_last (c ∷ rest) =
    let (front, unit) = split_last rest in
    elim unit [ none ↦ ([], some c) | some u ↦ (c ∷ front, some u) ]

-- A byte inside a character: `str::split_at` panics before it.
unfoldable pub is_continuation : ℕ → Bool
is_continuation b = leb 0x80 b && ltb b 0xc0

unfoldable pub unit_secs : ℕ → Option ℕ
unit_secs c =
    if c == b'm'
    then some 60
    else if c == b'h'
    then some 3600
    else if c == b'd'
    then some 86400
    else if c == b'w'
    then some 604800
    else none

unfoldable pub is_digit : ℕ → Bool
is_digit b = leb b'0' b && leb b b'9'

abbrev pub u64_limit : ℕ
u64_limit = 2 ^ 64

abbrev pub i64_limit : ℕ
i64_limit = 2 ^ 63

-- `parse::<u64>` of digits, from `acc` on: an error past `u64::MAX`.
unfoldable pub parse_u64 : ℕ → Text → Option ℕ
parse_u64 acc [] = some acc
parse_u64 acc (b ∷ rest) =
    let next = acc * 10 + (b - b'0') in
    let tail = parse_u64 next rest in if ltb next u64_limit then tail else none

-- `checked_mul` with the filter, `i64::try_from` and chrono's `TimeDelta::try_seconds`, of which
-- `fits` is the limit.
unfoldable pub in_range : (ℕ → Bool) → ℕ → ℕ → Option ℕ
in_range fits count unit =
    let secs = count * unit in
    if ltb secs u64_limit && ltb 0 secs && ltb secs i64_limit && fits secs then some secs else none

-- The number and the unit, once they are apart.
unfoldable pub parse_number : (ℕ → Bool) → Text → Text → ℕ → Result AgeError ℕ
unfolding in_range is_digit
parse_number fits text number unit =
    if is_empty number || not (all is_digit number) then err (invalid_age text) else do
      count ← ok_or (parse_u64 0 number) (invalid_age text)
      ok_or (in_range fits count unit) (invalid_age text)

-- The unit, once the last byte is apart.
unfoldable pub parse_split : (ℕ → Bool) → Text → Text × Option ℕ → Result AgeError ℕ
unfolding is_continuation unit_secs parse_number parse_u64
parse_split fits text (number, none) = err (invalid_age text)
parse_split fits text (number, some c) =
    if is_continuation c
    then err panics
    else do unit ← ok_or (unit_secs c) (invalid_age text); parse_number fits text number unit

-- `parse_age`
unfoldable pub parse_age : (ℕ → Bool) → Text → Result AgeError ℕ
unfolding split_last parse_split
parse_age fits text = parse_split fits text (split_last text)
