-- ===== src/Retention/Age/Accepts.antt =====
-- The texts that are ages (`parse_age`).
use passalong.Prelude.{
  ℕ, ◌+◌, ◌-◌, ◌*◌, ◌≤◌, ◌<◌, ◌≡◌, ◌↔◌, refl, sym, ap, ◌∙◌, Bool, true, false, ◌||◌, not, none,
  some, [], ◌∷◌, ◌++◌, ltb, if◌then◌else◌, all, is_empty, Text, ok, arith, Bool-cases, Option-cases,
  inl, inr, lt→ltb,
}
use passalong.Retention.Age.{
  split_last, is_continuation, unit_secs, is_digit, u64_limit, i64_limit, parse_u64, in_range,
  parse_number, parse_split, parse_age,
}

-- The number that digits stand for.
pub dec_value : ℕ → Text → ℕ
dec_value acc [] = acc
dec_value acc (b ∷ rest) = dec_value (acc * 10 + (b - b'0')) rest

le-dec_value : (acc : ℕ) (text : Text) → acc ≤ dec_value acc text
unfolding dec_value
le-dec_value acc [] = omega arith
le-dec_value acc (b ∷ rest) = omega (arith, le-dec_value (acc * 10 + (b - b'0')) rest)

-- Digits are read as their value while it fits in 64 bits.
parse_u64-dec_value :
    (acc : ℕ) (text : Text)
    → acc < u64_limit
    → parse_u64 acc text
      ≡ (if ltb (dec_value acc text) u64_limit then some (dec_value acc text) else none)
unfolding parse_u64 dec_value
parse_u64-dec_value acc [] h = ground arith
parse_u64-dec_value acc (b ∷ rest) h = ground (
  arith,
  parse_u64-dec_value (acc * 10 + (b - b'0')) rest,
  le-dec_value (acc * 10 + (b - b'0')) rest,
)

pub split_last-append : (number : Text) (c : ℕ) → split_last (number ++ c ∷ []) ≡ (number, some c)
unfolding split_last
split_last-append [] c = refl
split_last-append (d ∷ number) c = ground (arith, split_last-append number c)

-- What an age of `number` and `c` is: a whole number of digits and a unit, whose seconds are neither
-- zero nor past what the limits allow.
pub record IsAge (fits : ℕ → Bool) (number : Text) (c secs : ℕ) : Type 0 where
  pub filled : is_empty number ≡ false
  pub digits : all is_digit number ≡ true
  pub unit : ℕ
  pub named : unit_secs c ≡ some unit
  pub product : secs ≡ dec_value 0 number * unit
  pub positive : 0 < secs
  pub bounded : secs < i64_limit
  pub allowed : fits secs ≡ true

unit-not_continuation :
    (c unit : ℕ) → unit_secs c ≡ some unit → (is_continuation c ≡ false) × (0 < unit)
unfolding unit_secs is_continuation
unit-not_continuation c unit h = ground arith

small_count : (value unit : ℕ) → 0 < unit → value * unit < i64_limit → value < u64_limit
small_count value unit h k = grind arith

in_range-some :
    (fits : ℕ → Bool) (count unit secs : ℕ)
    → in_range fits count unit ≡ some secs
    → (secs ≡ count * unit) × (0 < secs) × (secs < i64_limit) × (fits secs ≡ true)
unfolding in_range
in_range-some fits count unit secs h = ground arith

parse_number-IsAge :
    (fits : ℕ → Bool) (text number : Text) (c unit secs : ℕ)
    → unit_secs c ≡ some unit
    → parse_number fits text number unit ≡ ok secs
    → IsAge fits number c secs
unfolding parse_number
parse_number-IsAge fits text number c unit secs named h =
    elim (Bool-cases (is_empty number || not (all is_digit number))) [
      | inl e ↦ cc (rw e at h)
      | inr e ↦
          let read = parse_u64-dec_value 0 number (omega arith) in
          elim (Bool-cases (ltb (dec_value 0 number) u64_limit)) [
            | inl small ↦
                let range =
                  in_range-some fits (dec_value 0 number) unit secs
                    (ground (arith, rw (e, read, small) at h)) in
                record {
                  filled = ground (arith, e);
                  digits = ground (arith, e);
                  unit = unit;
                  named = named;
                  product = range.0;
                  positive = range.1;
                  bounded = range.2;
                  allowed = range.3;
                }
            | inr large ↦ cc (rw (e, read, large) at h)
          ]
    ]

parse_split-IsAge :
    (fits : ℕ → Bool) (text number : Text) (c secs : ℕ)
    → parse_split fits text (number, some c) ≡ ok secs
    → IsAge fits number c secs
unfolding parse_split
parse_split-IsAge fits text number c secs h = elim (Bool-cases (is_continuation c)) [
  | inl e ↦ cc (rw e at h)
  | inr e ↦ elim (Option-cases (unit_secs c)) [
    | inl n ↦ cc (rw (e, n) at h)
    | inr u ↦ parse_number-IsAge fits text number c u.0 secs u.1 (rw (e, u.1) at h)
  ]
]

IsAge-parse_split :
    (fits : ℕ → Bool) (text number : Text) (c secs : ℕ)
    → IsAge fits number c secs
    → parse_split fits text (number, some c) ≡ ok secs
unfolding parse_split parse_number
IsAge-parse_split fits text number c secs age =
    let whole = unit-not_continuation c age.unit age.named in
    let count : dec_value 0 number < u64_limit =
      small_count (dec_value 0 number) age.unit whole.1 (rw age.product at age.bounded) in
    let read = parse_u64-dec_value 0 number (omega arith) in
    rw (whole.0, age.named, age.filled, age.digits, read, lt→ltb _ _ count)
      (unfold in_range in ground (arith, age.product, age.positive, age.bounded, age.allowed))

-- A text is accepted with `secs` seconds exactly when it is a number of decimal digits and one of
-- the units m, h, d and w, the product is `secs`, and that is neither zero nor too large.
pub parse_age_iff :
    (fits : ℕ → Bool) (number : Text) (c secs : ℕ)
    → (parse_age fits (number ++ c ∷ []) ≡ ok secs) ↔ IsAge fits number c secs
unfolding parse_age
parse_age_iff fits number c secs = (
  λ h.
      parse_split-IsAge fits (number ++ c ∷ []) number c secs
        (ap (parse_split fits (number ++ c ∷ [])) (sym (split_last-append number c)) ∙ h),
  λ age.
      ap (parse_split fits (number ++ c ∷ [])) (split_last-append number c)
      ∙ IsAge-parse_split fits (number ++ c ∷ []) number c secs age,
)
