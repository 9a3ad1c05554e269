-- ===== src/Model/Hex.antt =====
-- Lowercase hexadecimal: `is_lower_hex` of crates/passalong-core/src/model.rs, and what it uses of
-- the standard library, `{:08x}` and `u32::from_str_radix`.
use mathlib.Core.List.{append-nil, append_assoc}
use native.Mathlib.Nat.{mul-le-mul_right, pow-suc, le_trans, add-zero, zero-add}
use passalong.Prelude.{
  &&_true, lt→ltb, ap, sym, ◌∙◌, ℕ, zero, suc, ◌+◌, ◌-◌, ◌*◌, ◌/◌, ◌%◌, ◌^◌, ◌≤◌, ◌<◌, ◌≡◌, refl,
  Bool, true, ◌&&◌, ◌||◌, Option, none, some, [], ◌∷◌, ◌++◌, arith, ltb, leb, ◌==◌, if◌then◌else◌,
  length, all, length-append, all-append, Text,
}

-- `b.is_ascii_digit() || (b'a'..=b'f').contains(&b)`
unfoldable pub is_hex_digit : ℕ → Bool
is_hex_digit b = (leb b'0' b && leb b b'9') || (leb b'a' b && leb b b'f')

-- A text by its bytes: the test accepts ASCII alone, where bytes and characters agree.
unfoldable pub is_lower_hex : Text → ℕ → Bool
unfolding is_hex_digit
is_lower_hex text len = length text == len && all is_hex_digit text

-- `{:x}` of one digit
unfoldable pub hex_digit : ℕ → ℕ
hex_digit n = if ltb n 10 then b'0' + n else b'a' + (n - 10)

-- `char::to_digit(16)` of a lowercase digit
unfoldable pub digit_value : ℕ → ℕ
digit_value b = if leb b b'9' then b - b'0' else b - b'a' + 10

-- `{:0w x}` of a number below `16 ^ w`: exactly `w` digits, the highest first.
unfoldable pub hex_fixed : ℕ → ℕ → Text
unfolding hex_digit
hex_fixed zero n = []
hex_fixed (suc w) n = hex_fixed w (n / 16) ++ hex_digit (n % 16) ∷ []

abbrev pub u32_mod : ℕ
u32_mod = 2 ^ 32

-- `u32::from_str_radix(_, 16)` from `acc` on: `None` for another character or past `u32::MAX`.
unfoldable pub from_hex : ℕ → Text → Option ℕ
unfolding is_hex_digit digit_value
from_hex acc [] = some acc
from_hex acc (b ∷ rest) =
    let next = acc * 16 + digit_value b in
    let tail = from_hex next rest in if is_hex_digit b && ltb next u32_mod then tail else none

pub hex_digit-is_hex_digit : (n : ℕ) → n < 16 → is_hex_digit (hex_digit n) ≡ true
unfolding is_hex_digit hex_digit
hex_digit-is_hex_digit n h = ground arith

pub digit_value-hex_digit : (n : ℕ) → n < 16 → digit_value (hex_digit n) ≡ n
unfolding digit_value hex_digit
digit_value-hex_digit n h = ground arith

pub hex_digit-digit_value : (b : ℕ) → is_hex_digit b ≡ true → hex_digit (digit_value b) ≡ b
unfolding digit_value hex_digit is_hex_digit
hex_digit-digit_value b h = ground arith

pub digit_value-lt : (b : ℕ) → is_hex_digit b ≡ true → digit_value b < 16
unfolding digit_value is_hex_digit
digit_value-lt b h = ground arith

pub length-hex_fixed : (w n : ℕ) → length (hex_fixed w n) ≡ w
unfolding hex_fixed
length-hex_fixed zero n = refl
length-hex_fixed (suc w) n = omega (
  arith,
  length-append (hex_fixed w (n / 16)) (hex_digit (n % 16) ∷ []),
  length-hex_fixed w (n / 16),
)

pub hex_fixed-all : (w n : ℕ) → all is_hex_digit (hex_fixed w n) ≡ true
unfolding hex_fixed
hex_fixed-all zero n = refl
hex_fixed-all (suc w) n = ground (
  arith,
  all-append is_hex_digit (hex_fixed w (n / 16)) (hex_digit (n % 16) ∷ []),
  hex_fixed-all w (n / 16),
  hex_digit-is_hex_digit (n % 16),
)

-- A fixed-width number is a lowercase hexadecimal text of that width.
pub hex_fixed-is_lower_hex : (w n : ℕ) → is_lower_hex (hex_fixed w n) w ≡ true
unfolding is_lower_hex
hex_fixed-is_lower_hex w n = ground (arith, length-hex_fixed w n, hex_fixed-all w n)

-- The number that a text of digits stands for, without the test for overflow.
hex_value : ℕ → Text → ℕ
hex_value acc [] = acc
hex_value acc (b ∷ rest) = hex_value (acc * 16 + digit_value b) rest

scale_le : (n a p : ℕ) → n ≤ a * 16 → n * p ≤ a * (p * 16)
scale_le n a p h = le_trans (mul-le-mul_right p h) (omega arith)

pow16_pos : (k : ℕ) → 0 < 16 ^ k
pow16_pos zero = omega arith
pow16_pos (suc k) = rw pow-suc (omega (arith, pow16_pos k))

le_scale : (n p : ℕ) → 0 < p → n ≤ n * p
le_scale n p h = grind arith

-- Digits that fit in 32 bits are read without an error.
from_hex-hex_value :
    (acc : ℕ) (text : Text)
    → all is_hex_digit text ≡ true
    → (acc + 1) * 16 ^ length text ≤ u32_mod
    → from_hex acc text ≡ some (hex_value acc text)
unfolding from_hex hex_value
from_hex-hex_value acc [] h fits = refl
from_hex-hex_value acc (b ∷ rest) h fits =
    let next = acc * 16 + digit_value b in
    let digit = (&&_true (is_hex_digit b) (all is_hex_digit rest) h).0 in
    let others = (&&_true (is_hex_digit b) (all is_hex_digit rest) h).1 in
    let bound : (next + 1) * 16 ^ length rest ≤ u32_mod =
      le_trans
        (scale_le (next + 1) (acc + 1) (16 ^ length rest) (omega (arith, digit_value-lt b digit)))
        (rw pow-suc at fits) in
    let small : next < u32_mod =
      omega (arith, bound, le_scale (next + 1) (16 ^ length rest) (pow16_pos (length rest))) in
    rw (digit, lt→ltb _ _ small) (from_hex-hex_value next rest others bound)

hex_value-hex_fixed :
    (w n acc : ℕ) (rest : Text)
    → n < 16 ^ w
    → hex_value acc (hex_fixed w n ++ rest) ≡ hex_value (acc * 16 ^ w + n) rest
unfolding hex_fixed hex_value
hex_value-hex_fixed zero n acc rest h = ap (λ k. hex_value k rest) (omega arith)
hex_value-hex_fixed (suc w) n acc rest h =
    let fits : n / 16 < 16 ^ w = omega (arith, rw pow-suc at h) in
    rw (append_assoc, hex_value-hex_fixed w (n / 16) acc (hex_digit (n % 16) ∷ rest) fits)
      (ap (λ k. hex_value k rest)
        (rw (digit_value-hex_digit (n % 16) (omega arith), pow-suc) (omega arith)))

hex_fixed-hex_value :
    (w acc : ℕ) (text : Text)
    → all is_hex_digit text ≡ true
    → hex_fixed (w + length text) (hex_value acc text) ≡ hex_fixed w acc ++ text
unfolding hex_value
hex_fixed-hex_value w acc [] h = rw (add-zero, append-nil)
hex_fixed-hex_value w acc (b ∷ rest) h =
    let digit = (&&_true (is_hex_digit b) (all is_hex_digit rest) h).0 in
    let others = (&&_true (is_hex_digit b) (all is_hex_digit rest) h).1 in
    let value = digit_value-lt b digit in
    let next = acc * 16 + digit_value b in
    let high : next / 16 ≡ acc = omega (arith, value) in
    let low : next % 16 ≡ digit_value b = omega (arith, value) in
    let shift : w + suc (length rest) ≡ suc w + length rest = omega arith in
    rw (shift, hex_fixed-hex_value (suc w) next rest others)
      (unfold hex_fixed in rw (high, low, hex_digit-digit_value b digit, append_assoc))

-- Printing a number in eight digits and reading it gives the number back.
pub from_hex-hex_fixed : (n : ℕ) → n < u32_mod → from_hex 0 (hex_fixed 8 n) ≡ some n
from_hex-hex_fixed n h =
    let short : 16 ^ length (hex_fixed 8 n) ≡ u32_mod = rw (length-hex_fixed 8 n) in
    from_hex-hex_value 0 (hex_fixed 8 n) (hex_fixed-all 8 n) (rw short (omega arith))
    ∙ ap some (
        ap (hex_value 0) (sym (append-nil (hex_fixed 8 n)))
        ∙ hex_value-hex_fixed 8 n 0 [] (omega arith)
        ∙ unfold hex_value in omega arith)

hex_value-lt :
    (acc : ℕ) (text : Text)
    → all is_hex_digit text ≡ true
    → hex_value acc text < (acc + 1) * 16 ^ length text
unfolding hex_value
hex_value-lt acc [] h = omega arith
hex_value-lt acc (b ∷ rest) h =
    let digit = (&&_true (is_hex_digit b) (all is_hex_digit rest) h).0 in
    let others = (&&_true (is_hex_digit b) (all is_hex_digit rest) h).1 in
    let next = acc * 16 + digit_value b in
    rw pow-suc (
      le_trans (hex_value-lt next rest others)
        (scale_le (next + 1) (acc + 1) (16 ^ length rest) (omega (arith, digit_value-lt b digit))))

hex_fixed-length :
    (text : Text) → all is_hex_digit text ≡ true → hex_fixed (length text) (hex_value 0 text) ≡ text
unfolding hex_fixed
hex_fixed-length text h = rw zero-add at (hex_fixed-hex_value 0 0 text h)

-- Eight digits are read as the 32-bit number that prints as them.
pub from_hex_canonical :
    (text : Text)
    → is_lower_hex text 8 ≡ true
    → (n : ℕ) × (from_hex 0 text ≡ some n) × (n < u32_mod) × (hex_fixed 8 n ≡ text)
unfolding is_lower_hex
from_hex_canonical text h =
    let digits = (&&_true (length text == 8) (all is_hex_digit text) h).1 in
    let eight : length text ≡ 8 = ground arith in
    let short : 16 ^ length text ≡ u32_mod = rw eight in
    (
      hex_value 0 text,
      from_hex-hex_value 0 text digits (rw short (omega arith)),
      rw short at (hex_value-lt 0 text digits),
      rw eight at (hex_fixed-length text digits),
    )
