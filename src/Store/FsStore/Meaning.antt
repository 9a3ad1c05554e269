-- ===== src/Store/FsStore/Meaning.antt =====
-- What a typed id means (`resolve` of `FsStore`).
use passalong.Prelude.{
  ℕ, ◌+◌, ◌≤◌, ◌≡◌, ◌↔◌, refl, ap, ◌∙◌, Bool, true, false, ◌&&◌, ◌||◌, [], ◌∷◌, ◌==◌, length, ltb,
  all, any, all-append, Text, arith, Bool-cases, inl, inr,
}
use passalong.Model.Hex.{is_hex_digit, is_lower_hex, hex_fixed, hex_fixed-all}
use passalong.Model.Id.{ItemId}
use passalong.Model.Id.RoundTrip.{IsValidId}
use passalong.Store.FsStore.{lowercase, to_lower, matches, starts_with}

-- A typed character for one of an id: the same, or the upper case of the same letter
pub data SameLetter (c d : ℕ) : Type 0 where
  same : c ≡ d → SameLetter c d
  upper : b'A' ≤ c → c ≤ b'Z' → c + 32 ≡ d → SameLetter c d

-- A typed text is how another one starts.
abbrev pub IsStart : Text → Text → Type 0
IsStart [] text = Unit
IsStart (c ∷ typed) [] = ⊥
IsStart (c ∷ typed) (d ∷ text) = SameLetter c d × IsStart typed text

abbrev pub has_dash : Text → Bool
has_dash text = any (λ c. c == b'-') text

-- What a typed text means: how the whole id starts, past its dash, or how its content key does
pub data Means (typed : Text) (id : ItemId) : Type 0 where
  of_id : has_dash typed ≡ true → IsStart typed id.repr → Means typed id
  of_key : IsStart typed id.key → Means typed id

abbrev not_upper : ℕ → Bool
not_upper c = ltb c b'A' || ltb b'Z' c

to_lower-SameLetter : (c d : ℕ) → (d == to_lower c) ≡ true → SameLetter c d
unfolding to_lower
to_lower-SameLetter c d h = elim (Bool-cases (ltb 64 c && ltb c 91)) [
  | inl e ↦ upper (ground (arith, e)) (ground (arith, e)) (ground (arith, e, h))
  | inr e ↦ same (ground (arith, e, h))
]

SameLetter-to_lower : (c d : ℕ) → not_upper d ≡ true → SameLetter c d → (d == to_lower c) ≡ true
unfolding to_lower
SameLetter-to_lower c d h (same e) = ground (arith, h, e)
SameLetter-to_lower c d h (upper a z e) = ground (arith, a, z, e)

starts_with-IsStart :
    (text typed : Text) → starts_with text (lowercase typed) ≡ true → IsStart typed text
unfolding starts_with lowercase
starts_with-IsStart text [] h = tt
starts_with-IsStart [] (c ∷ typed) h = cc
starts_with-IsStart (d ∷ text) (c ∷ typed) h = (
  to_lower-SameLetter c d (ground (arith, h)),
  starts_with-IsStart text typed (ground (arith, h)),
)

IsStart-starts_with :
    (text typed : Text)
    → all not_upper text ≡ true
    → IsStart typed text
    → starts_with text (lowercase typed) ≡ true
unfolding starts_with lowercase
IsStart-starts_with text [] h s = refl
IsStart-starts_with [] (c ∷ typed) h s = absurd s
IsStart-starts_with (d ∷ text) (c ∷ typed) h s = ground (
  arith,
  h,
  SameLetter-to_lower c d (ground (arith, h)) s.0,
  IsStart-starts_with text typed (ground (arith, h)) s.1,
)

dash-lowercase : (typed : Text) → has_dash (lowercase typed) ≡ has_dash typed
unfolding lowercase to_lower
dash-lowercase [] = refl
dash-lowercase (c ∷ typed) = ground (arith, dash-lowercase typed)

pub length-lowercase : (typed : Text) → length (lowercase typed) ≡ length typed
unfolding lowercase
length-lowercase [] = refl
length-lowercase (c ∷ typed) = omega (arith, length-lowercase typed)

hex-not_upper : (text : Text) → all is_hex_digit text ≡ true → all not_upper text ≡ true
unfolding is_hex_digit
hex-not_upper [] h = refl
hex-not_upper (c ∷ text) h = ground (arith, h, hex-not_upper text)

SameLetter-no_dash : (c d : ℕ) → is_hex_digit d ≡ true → SameLetter c d → (c == b'-') ≡ false
unfolding is_hex_digit
SameLetter-no_dash c d h (same e) = ground (arith, h, e)
SameLetter-no_dash c d h (upper a z e) = ground (arith, a)

IsStart-no_dash :
    (text typed : Text) → all is_hex_digit text ≡ true → IsStart typed text → has_dash typed ≡ false
IsStart-no_dash text [] h s = refl
IsStart-no_dash [] (c ∷ typed) h s = absurd s
IsStart-no_dash (d ∷ text) (c ∷ typed) h s = ground (
  arith,
  SameLetter-no_dash c d (ground (arith, h)) s.0,
  IsStart-no_dash text typed (ground (arith, h)) s.1,
)

key-hex : (id : ItemId) → IsValidId id → all is_hex_digit id.key ≡ true
unfolding is_lower_hex
key-hex id v = ground (arith, v.key_hex)

repr-not_upper : (id : ItemId) → IsValidId id → all not_upper id.repr ≡ true
repr-not_upper id v =
    ap (all not_upper) v.printed
    ∙ all-append not_upper (hex_fixed 8 id.secs) (b'-' ∷ id.key)
    ∙ ground (
      arith,
      hex-not_upper (hex_fixed 8 id.secs) (hex_fixed-all 8 id.secs),
      hex-not_upper id.key (key-hex id v),
    )

pub matches-Means :
    (typed : Text) (id : ItemId)
    → IsValidId id
    → (matches (lowercase typed) id ≡ true) ↔ Means typed id
unfolding matches
matches-Means typed id v = elim (Bool-cases (has_dash typed)) [
  | inl e ↦ (
    λ h. of_id e (starts_with-IsStart id.repr typed (ground (arith, h, e, dash-lowercase typed))),
    λ m. elim m [
      | of_id dash s ↦ ground (
        arith,
        e,
        dash-lowercase typed,
        IsStart-starts_with id.repr typed (repr-not_upper id v) s,
      )
      | of_key s ↦ absurd (cc (e, IsStart-no_dash id.key typed (key-hex id v) s))
    ],
  )
  | inr e ↦ (
    λ h. of_key (starts_with-IsStart id.key typed (ground (arith, h, e, dash-lowercase typed))),
    λ m. elim m [
      | of_id dash s ↦ absurd (cc (e, dash))
      | of_key s ↦ ground (
        arith,
        e,
        dash-lowercase typed,
        IsStart-starts_with id.key typed (hex-not_upper id.key (key-hex id v)) s,
      )
    ],
  )
]
