-- ===== src/Model/Preview/Bounds.antt =====
-- The length and the characters of a preview.
use passalong.Prelude.{
  min, zero, suc, ap, ◌∙◌, ℕ, ◌≤◌, ◌<◌, ◌≡◌, refl, Bool, true, ◌||◌, not, List, [], ◌∷◌, ◌++◌,
  arith, leb, ◌==◌, length, take, all, All, Text, length-append, length-take, all-append, all-take,
  Bool-cases, inl, inr, leb→le,
}
use passalong.Model.FileName.{is_whitespace}
use passalong.Model.Preview.{
  preview_chars, space, ellipsis, flush, split_whitespace, join_words, collapsed, shorten,
  preview_of,
}

-- A character that keeps a text on one line: it is no white space but the plain space.
unfoldable pub is_inline : ℕ → Bool
is_inline c = not (is_whitespace c) || c == space

not_white : ℕ → Bool
not_white c = not (is_whitespace c)

abbrev IsWord : Text → Type 0
IsWord word = all not_white word ≡ true

All-append {ℓ} :
    {A : Type ℓ} (P : A → Type 0) (xs ys : List A) → All P xs → All P ys → All P (xs ++ ys)
All-append P [] ys h k = k
All-append P (x ∷ xs) ys h k = (h.0, All-append P xs ys h.1 k)

flush-words : (word : Text) → IsWord word → All IsWord (flush word)
flush-words [] h = tt
flush-words (c ∷ word) h = (h, tt)

split_whitespace-words : (word text : Text) → IsWord word → All IsWord (split_whitespace word text)
unfolding split_whitespace not_white
split_whitespace-words word [] h = flush-words word h
split_whitespace-words word (c ∷ rest) h = elim (Bool-cases (is_whitespace c)) [
  | inl e ↦
      rw e (
        All-append IsWord (flush word) _ (flush-words word h) (split_whitespace-words [] rest refl))
  | inr e ↦ rw e (
      split_whitespace-words (word ++ c ∷ []) rest
        (ground (arith, all-append not_white word (c ∷ []))))
]

word-inline : (word : Text) → IsWord word → all is_inline word ≡ true
unfolding is_inline not_white
word-inline [] h = refl
word-inline (c ∷ word) h = ground (arith, word-inline word)

join_words-inline : (words : List Text) → All IsWord words → all is_inline (join_words words) ≡ true
unfolding join_words is_inline is_whitespace
join_words-inline [] h = refl
join_words-inline (word ∷ []) h = word-inline word h.0
join_words-inline (word ∷ next ∷ rest) h =
    rw (all-append is_inline word (space ∷ join_words (next ∷ rest)), word-inline word h.0)
      (join_words-inline (next ∷ rest) h.1)

take-take_append :
    {A : Type 0} (n : ℕ) (xs ys : List A) → n ≤ length xs → take n (take n xs ++ ys) ≡ take n xs
take-take_append zero xs ys h = refl
take-take_append (suc n) [] ys h = absurd (omega arith)
take-take_append (suc n) (x ∷ xs) ys h = ap (λ r. x ∷ r) (take-take_append n xs ys (omega arith))

abbrev IsPreviewOf : Text → Text → Type 0
IsPreviewOf line preview =
    (length preview ≡ min preview_chars (length line))
    × (all is_inline preview ≡ true)
    × (take 79 preview ≡ take 79 line)

long-preview :
    (line : Text)
    → all is_inline line ≡ true
    → preview_chars < length line
    → IsPreviewOf line (take 79 line ++ ellipsis ∷ [])
long-preview line h long = (
  omega (arith, length-append (take 79 line) (ellipsis ∷ []), length-take 79 line),
  all-append is_inline (take 79 line) (ellipsis ∷ [])
      ∙ rw (all-take is_inline 79 line h) (unfold is_inline is_whitespace in refl),
  take-take_append 79 line (ellipsis ∷ []) (omega arith),
)

shorten_lem : (line : Text) → all is_inline line ≡ true → IsPreviewOf line (shorten line)
unfolding shorten
shorten_lem line h = elim (Bool-cases (leb (length line) preview_chars)) [
  | inl e ↦ rw e (omega (arith, leb→le _ _ e), h, refl)
  | inr e ↦ rw e (long-preview line h (ground (arith, e)))
]

-- The preview of any text is one line: no white space but plain spaces. It has as many characters as
-- the collapsed text but at most eighty, and its first 79 are those of the collapsed text.
pub preview_of_bounds :
    (text : Text)
    → (length (preview_of text) ≡ min preview_chars (length (collapsed text)))
      × (all is_inline (preview_of text) ≡ true)
      × (take 79 (preview_of text) ≡ take 79 (collapsed text))
unfolding preview_of
preview_of_bounds text = shorten_lem (collapsed text) (
    unfold collapsed in
    join_words-inline (split_whitespace [] text) (split_whitespace-words [] text refl))
