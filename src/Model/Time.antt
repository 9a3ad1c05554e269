-- ===== src/Model/Time.antt =====
-- What the program uses of the chrono crate, as a parameter: instants, their whole seconds since
-- the Unix epoch, their order, and the subtraction of a number of seconds.
use passalong.Prelude.{ℕ, ◌<◌, ◌≡◌, Bool, Option, ℤ, pos}
use passalong.Model.Hex.{u32_mod}

pub record Chrono : Type 1 where
  pub DateTime : Type 0
  -- `timestamp()`
  pub timestamp : DateTime → ℤ
  -- `from_timestamp(secs, 0)`, which every `u32` is in range of
  pub from_timestamp : ℕ → DateTime
  -- `a < b`
  pub before : DateTime → DateTime → Bool
  -- `checked_sub_signed(TimeDelta::seconds(n))`
  pub checked_sub : DateTime → ℕ → Option DateTime
  -- `DateTime::<Utc>::MIN_UTC`
  pub min_utc : DateTime

-- The documented behaviour that the properties rely on.
pub record ChronoLaws (chrono : Chrono) : Type 0 where
  pub timestamp-from_timestamp :
      (n : ℕ) → n < u32_mod → chrono.timestamp (chrono.from_timestamp n) ≡ pos n
