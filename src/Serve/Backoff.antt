-- ===== src/Serve/Backoff.antt =====
-- The delays between retries (`Backoff` of crates/passalong-core/src/serve/retry.rs), in seconds.
use passalong.Prelude.{ℕ, zero, suc, ◌*◌, ◌^◌, ◌≤◌, ◌≡◌, min, arith}
use native.Mathlib.Nat.{pow-suc}

abbrev pub first_delay : ℕ
first_delay = 1

abbrev pub max_delay : ℕ
max_delay = 60

pub record Backoff : Type 0 where
  pub next : ℕ

-- `Backoff::default`
unfoldable pub default : Backoff
default = record { next = first_delay }

-- `Backoff::next_delay`
unfoldable pub next_delay : Backoff → ℕ × Backoff
next_delay b = (b.next, record { next = min (b.next * 2) max_delay })

-- `Backoff::reset`
unfoldable pub reset : Backoff → Backoff
reset b = record { next = first_delay }

-- The backoff after `n` attempts in a row
unfoldable pub after_attempts : ℕ → Backoff → Backoff
unfolding next_delay
after_attempts zero b = b
after_attempts (suc n) b = (next_delay (after_attempts n b)).1

pow_pos : (n : ℕ) → 1 ≤ 2 ^ n
pow_pos zero = omega arith
pow_pos (suc n) = omega (arith, pow_pos n, pow-suc 2 n)

after_attempts_lem :
    (n : ℕ) (b : Backoff) → (after_attempts n (reset b)).next ≡ min (2 ^ n) max_delay
unfolding after_attempts reset
after_attempts_lem zero b = omega arith
after_attempts_lem (suc n) b = omega (arith, after_attempts_lem n b, pow-suc 2 n)

-- After a reset, the delay before the attempt that follows `n` failures is 2^n seconds, but at most
-- 60.
pub next_delay-after_attempts :
    (n : ℕ) (b : Backoff) → (next_delay (after_attempts n (reset b))).0 ≡ min (2 ^ n) max_delay
unfolding next_delay
next_delay-after_attempts n b = after_attempts_lem n b
