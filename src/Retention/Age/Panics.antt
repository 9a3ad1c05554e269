-- ===== src/Retention/Age/Panics.antt =====
-- The texts that make `parse_age` panic.
use passalong.Prelude.{
  ℕ, ◌+◌, ◌/◌, ◌%◌, ◌≤◌, ◌≡◌, ◌≢◌, ◌⊎◌, ◌↔◌, refl, sym, ap, ◌∙◌, Bool, true, ◌||◌, not, some, [],
  ◌∷◌, ◌++◌, ltb, leb, if◌then◌else◌, all, is_empty, Text, err, arith, Bool-cases, Option-cases,
  inl, inr,
}
use mathlib.Core.List.{append_assoc}
use passalong.Retention.Age.{
  panics, split_last, is_continuation, unit_secs, is_digit, parse_u64, in_range, parse_number,
  parse_split, parse_age,
}
use passalong.Retention.Age.Accepts.{split_last-append}

-- UTF-8, of one character and of a text
unfoldable pub encode : ℕ → Text
encode c =
    if ltb c 0x80
    then c ∷ []
    else if ltb c 0x800
    then (0xc0 + c / 64) ∷ (0x80 + c % 64) ∷ []
    else if ltb c 0x10000
    then (0xe0 + c / 4096) ∷ (0x80 + c / 64 % 64) ∷ (0x80 + c % 64) ∷ []
    else (0xf0 + c / 262144) ∷ (0x80 + c / 4096 % 64) ∷ (0x80 + c / 64 % 64) ∷ (0x80 + c % 64) ∷ []

unfoldable pub utf8 : Text → Text
unfolding encode
utf8 [] = []
utf8 (c ∷ text) = encode c ++ utf8 text

utf8-append : (front : Text) (c : ℕ) → utf8 (front ++ c ∷ []) ≡ utf8 front ++ encode c
unfolding utf8
utf8-append [] c = go (encode c)
  where
    go : (t : Text) → t ++ [] ≡ t
    go [] = refl
    go (x ∷ t) = ap (λ r. x ∷ r) (go t)
utf8-append (d ∷ front) c =
    ap (λ r. encode d ++ r) (utf8-append front c)
    ∙ sym (append_assoc (encode d) (utf8 front) (encode c))

-- The last byte of a character is inside it when the character takes more than one.
last_byte :
    (c : ℕ)
    → (front : Text) × (b : ℕ) × (encode c ≡ front ++ b ∷ []) × (is_continuation b ≡ leb 0x80 c)
unfolding encode is_continuation
last_byte c = elim (Bool-cases (ltb c 0x80)) [
  | inl e ↦ ([], c, ground (arith, e), ground (arith, e))
  | inr e ↦ elim (Bool-cases (ltb c 0x800)) [
    | inl f ↦ ((0xc0 + c / 64) ∷ [], 0x80 + c % 64, ground (arith, e, f), ground (arith, e))
    | inr f ↦ elim (Bool-cases (ltb c 0x10000)) [
      | inl g ↦ (
        (0xe0 + c / 4096) ∷ (0x80 + c / 64 % 64) ∷ [],
        0x80 + c % 64,
        ground (arith, e, f, g),
        ground (arith, e),
      )
      | inr g ↦ (
        (0xf0 + c / 262144) ∷ (0x80 + c / 4096 % 64) ∷ (0x80 + c / 64 % 64) ∷ [],
        0x80 + c % 64,
        ground (arith, e, f, g),
        ground (arith, e),
      )
    ]
  ]
]

module _ (fits : ℕ → Bool) where
  parse_number-returns :
      (text number : Text) (unit : ℕ) → parse_number fits text number unit ≢ err panics
  unfolding parse_number
  parse_number-returns text number unit h =
      elim (Bool-cases (is_empty number || not (all is_digit number))) [
        | inl e ↦ cc (rw e at h)
        | inr e ↦ elim (Option-cases (parse_u64 0 number)) [
          | inl f ↦ cc (rw (e, f) at h)
          | inr (count, f) ↦ elim (Option-cases (in_range fits count unit)) [
            | inl g ↦ cc (rw (e, f, g) at h)
            | inr (secs, g) ↦ cc (rw (e, f, g) at h)
          ]
        ]
      ]

  panics-from :
      (number : Text) (b : ℕ)
      → is_continuation b ≡ true
      → parse_age fits (number ++ b ∷ []) ≡ err panics
  unfolding parse_age parse_split
  panics-from number b h =
      ap (parse_split fits (number ++ b ∷ [])) (split_last-append number b) ∙ rw h

  split-panics :
      (text number : Text) (b : ℕ)
      → parse_split fits text (number, some b) ≡ err panics
      → is_continuation b ≡ true
  unfolding parse_split
  split-panics text number b h = elim (Bool-cases (is_continuation b)) [
    | inl e ↦ e
    | inr e ↦ elim (Option-cases (unit_secs b)) [
      | inl f ↦ cc (rw (e, f) at h)
      | inr (unit, f) ↦ absurd (parse_number-returns text number unit (rw (e, f) at h))
    ]
  ]

  panics-to :
      (number : Text) (b : ℕ)
      → parse_age fits (number ++ b ∷ []) ≡ err panics
      → is_continuation b ≡ true
  unfolding parse_age
  panics-to number b h =
      split-panics (number ++ b ∷ []) number b
        (ap (parse_split fits (number ++ b ∷ [])) (sym (split_last-append number b)) ∙ h)

  -- The bytes of a text with a last character
  bytes :
      (front : Text) (c : ℕ)
      → (number : Text) × (b : ℕ) × (utf8 (front ++ c ∷ []) ≡ number ++ b ∷ [])
        × (is_continuation b ≡ leb 0x80 c)
  bytes front c =
      let (start, b, e, f) = last_byte c in
      (
        utf8 front ++ start,
        b,
        utf8-append front c
            ∙ ap (λ r. utf8 front ++ r) e
            ∙ sym (append_assoc (utf8 front) start (b ∷ [])),
        f,
      )

  last_of : (text : Text) → (text ≡ []) ⊎ ((front : Text) × (c : ℕ) × (text ≡ front ++ c ∷ []))
  last_of [] = inl refl
  last_of (c ∷ text) = elim (last_of text) [
    | inl e ↦ inr ([], c, ap (λ r. c ∷ r) e)
    | inr (front, d, e) ↦ inr (c ∷ front, d, ap (λ r. c ∷ r) e)
  ]

  empty-returns : parse_age fits (utf8 []) ≢ err panics
  unfolding parse_age utf8 split_last parse_split
  empty-returns h = cc h

  -- The call panics, where it should return an error, for exactly the texts whose last character takes
  -- more than one byte in UTF-8, whatever precedes it.
  pub parse_age_panics_iff :
      (text : Text)
      → (parse_age fits (utf8 text) ≡ err panics)
        ↔ ((front : Text) × (c : ℕ) × (text ≡ front ++ c ∷ []) × (0x80 ≤ c))
  parse_age_panics_iff text = (
    λ h. elim (last_of text) [
      | inl e ↦ absurd (empty-returns (ap (λ t. parse_age fits (utf8 t)) (sym e) ∙ h))
      | inr (front, c, e) ↦
          let (number, b, f, g) = bytes front c in
          let inside : is_continuation b ≡ true =
            panics-to number b
              (ap (parse_age fits) (sym f) ∙ ap (λ t. parse_age fits (utf8 t)) (sym e) ∙ h) in
          (front, c, e, ground (arith, g, inside))
    ],
    λ (front, c, e, wide).
        let (number, b, f, g) = bytes front c in
        ap (λ t. parse_age fits (utf8 t)) e
        ∙ ap (parse_age fits) f
        ∙ panics-from number b (ground (arith, g, wide)),
  )
