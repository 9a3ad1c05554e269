-- ===== src/Crypto/Words/Phrases.antt =====
-- Typing a generated passphrase.
use mathlib.Core.Path.{subst}
use passalong.Prelude.{
  ℕ, zero, suc, ◌≡◌, refl, ap, ◌∙◌, Bool, true, ◌&&◌, not, none, some, List, [], ◌∷◌, ◌++◌, ltb,
  length, get_elem?, any, all, all-append, is_empty, Text, text_eq, text_eq_refl, arith, Result, ok,
  err, inl, inr, Option-cases,
}
use passalong.Store.Errors.{CryptoError}
use passalong.Model.FileName.{is_whitespace}
use passalong.Crypto.Keys.{is_upper}
use passalong.Crypto.Words.{
  list_len, count, uniform_index, join, pieces, drop_empty, split_whitespace, position_unknown,
  pick, generate, parse,
}

-- A character that `to_lowercase` leaves
unfoldable pub is_lower_ascii : ℕ → Bool
is_lower_ascii c = ltb c 128 && not (is_upper c)

-- A word of the list: not empty, in lower case, and without white space
unfoldable pub is_word : Text → Bool
unfolding is_lower_ascii is_whitespace
is_word word =
    not (is_empty word) && all is_lower_ascii word && all (λ c. not (is_whitespace c)) word

pieces_word : (word : Text) → all (λ c. not (is_whitespace c)) word ≡ true → pieces word ≡ word ∷ []
unfolding pieces
pieces_word [] h = refl
pieces_word (c ∷ word) h = ground (arith, pieces_word word)

pieces-append :
    (word rest : Text)
    → all (λ c. not (is_whitespace c)) word ≡ true
    → pieces (word ++ 32 ∷ rest) ≡ word ∷ pieces rest
unfolding pieces is_whitespace
pieces-append [] rest h = refl
pieces-append (c ∷ word) rest h = ground (arith, pieces-append word rest)

pieces-join :
    (word : Text) (words : List Text)
    → all is_word (word ∷ words) ≡ true
    → pieces (join (word ∷ words)) ≡ word ∷ words
unfolding join is_word
pieces-join word [] h = pieces_word word (ground arith)
pieces-join word (next ∷ words) h =
    pieces-append word (join (next ∷ words)) (ground arith)
    ∙ ap (λ r. word ∷ r) (pieces-join next words (ground arith))

drop_empty-words : (words : List Text) → all is_word words ≡ true → drop_empty words ≡ words
unfolding drop_empty is_word
drop_empty-words [] h = refl
drop_empty-words (word ∷ words) h = ground (arith, drop_empty-words words)

split_whitespace-join :
    (word : Text) (words : List Text)
    → all is_word (word ∷ words) ≡ true
    → split_whitespace (join (word ∷ words)) ≡ word ∷ words
unfolding split_whitespace
split_whitespace-join word words h =
    ap drop_empty (pieces-join word words h) ∙ drop_empty-words (word ∷ words) h

join-lower : (words : List Text) → all is_word words ≡ true → all is_lower_ascii (join words) ≡ true
unfolding join is_word is_upper
join-lower [] h = refl
join-lower (word ∷ []) h = ground arith
join-lower (word ∷ next ∷ words) h =
    all-append is_lower_ascii word (32 ∷ join (next ∷ words))
    ∙ ground (arith, join-lower (next ∷ words))

-- The words that the list has
unfoldable pub are_known : List Text → List Text → Bool
are_known list words = all (λ word. any (text_eq word) list) words

get_elem?-known :
    (list : List Text) (i : ℕ) (word : Text)
    → get_elem? list i ≡ some word
    → all is_word list ≡ true
    → (any (text_eq word) list ≡ true) × (is_word word ≡ true)
get_elem?-known [] i word h k = cc
get_elem?-known (x ∷ list) zero word h k =
    let same : x ≡ word = ground (arith, h) in
    subst (λ w. (any (text_eq w) (x ∷ list) ≡ true) × (is_word w ≡ true)) same
      (ground (arith, text_eq_refl x), ground (arith, k))
get_elem?-known (x ∷ list) (suc i) word h k = ground (arith, get_elem?-known list i word)

position_unknown-known :
    (list words : List Text) → are_known list words ≡ true → position_unknown list words ≡ none
unfolding position_unknown are_known
position_unknown-known list [] h = refl
position_unknown-known list (word ∷ words) h = ground (arith, position_unknown-known list words)

module _ (list : List Text) (words_only : all is_word list ≡ true) where
  record Picked (n : ℕ) (words : List Text) : Type 0 where
    size : length words ≡ n
    known : are_known list words ≡ true
    well_formed : all is_word words ≡ true

  Picked-cons :
      (n i : ℕ) (word : Text) (words : List Text)
      → get_elem? list i ≡ some word
      → Picked n words
      → Picked (suc n) (word ∷ words)
  unfolding are_known
  Picked-cons n i word words e p =
      let (known, well_formed) = get_elem?-known list i word e words_only in
      record {
        size = omega (arith, p.size);
        known = ground (arith, known, p.known);
        well_formed = ground (arith, well_formed, p.well_formed);
      }

  pick-Picked :
      (n : ℕ) (draws : List (Result CryptoError ℕ)) (words : List Text)
      → pick list n draws ≡ some (ok words)
      → Picked n words
  unfolding pick are_known
  pick-Picked zero draws words h =
      let is_empty : [] ≡ words = ground (arith, h) in
      subst (Picked 0) is_empty (record { size = refl; known = refl; well_formed = refl })
  pick-Picked (suc n) draws words h = elim (Option-cases (uniform_index list_len draws)) [
    | inl e ↦ absurd (ground (arith, h, e))
    | inr ((err x, draws'), e) ↦ absurd (ground (arith, h, e))
    | inr ((ok i, draws'), e) ↦ elim (Option-cases (get_elem? list i)) [
      | inl f ↦ absurd (ground (arith, h, e, f))
      | inr (word, f) ↦ elim (Option-cases (pick list n draws')) [
        | inl g ↦ absurd (ground (arith, h, e, f, g))
        | inr (err x, g) ↦ absurd (ground (arith, h, e, f, g))
        | inr (ok rest, g) ↦
            let same : word ∷ rest ≡ words = ground (arith, h, e, f, g) in
            subst (Picked (suc n)) same (Picked-cons n i word rest f (pick-Picked n draws' rest g))
      ]
    ]
  ]

  module _ (to_lowercase : Text → Text)
      (lowercase-ascii : (text : Text)
        → all is_lower_ascii text ≡ true
        → to_lowercase text ≡ text) where
    understood :
        (words : List Text)
        → Picked count words
        → parse to_lowercase list (join words) ≡ ok (join words)
    unfolding parse
    understood [] p = absurd (omega (arith, p.size))
    understood (word ∷ words) p =
        let typed =
          ap split_whitespace
            (lowercase-ascii (join (word ∷ words)) (join-lower (word ∷ words) p.well_formed))
          ∙ split_whitespace-join word words p.well_formed in
        ground (
          arith,
          typed,
          p.size,
          ap length typed,
          ap join typed,
          ap (position_unknown list) typed,
          position_unknown-known list (word ∷ words) p.known,
        )

    -- A passphrase that `generate` makes is accepted by `parse`, as itself. The list's words are in
    -- lower case and have no white space, and `str::to_lowercase` leaves text like that as it is.
    pub parse-generate :
        (draws : List (Result CryptoError ℕ)) (phrase : Text)
        → generate list draws ≡ some (ok phrase)
        → parse to_lowercase list phrase ≡ ok phrase
    unfolding generate parse
    parse-generate draws phrase h = elim (Option-cases (pick list count draws)) [
      | inl e ↦ absurd (ground (arith, h, e))
      | inr (err x, e) ↦ absurd (ground (arith, h, e))
      | inr (ok words, e) ↦
          let p = pick-Picked count draws words e in
          let made : join words ≡ phrase = ground (arith, h, e) in
          subst (λ x. parse to_lowercase list x ≡ ok x) made (understood words p)
    ]
