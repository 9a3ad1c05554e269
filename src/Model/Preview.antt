-- ===== src/Model/Preview.antt =====
-- The one-line preview of a text item (`preview_of` of crates/passalong-core/src/model.rs).
pub mod Bounds
use passalong.Prelude.{
  ℕ, ◌-◌, List, [], ◌∷◌, ◌++◌, leb, if◌then◌else◌, length, take, is_empty, Text,
}
use passalong.Model.FileName.{is_whitespace}

abbrev pub preview_chars : ℕ
preview_chars = 80

abbrev pub space : ℕ
space = 32

-- The character `…`
abbrev pub ellipsis : ℕ
ellipsis = 0x2026

-- A word that has been read, unless it is empty.
abbrev flush : Text → List Text
flush [] = []
flush (c ∷ word) = (c ∷ word) ∷ []

-- `split_whitespace`; `word` is what has been read since the last white space.
unfoldable pub split_whitespace : Text → Text → List Text
unfolding is_whitespace
split_whitespace word [] = flush word
split_whitespace word (c ∷ rest) =
    (if is_whitespace c then flush word else [])
    ++ split_whitespace (if is_whitespace c then [] else word ++ c ∷ []) rest

-- `join(" ")`
unfoldable pub join_words : List Text → Text
join_words [] = []
join_words (word ∷ []) = word
join_words (word ∷ next ∷ rest) = word ++ space ∷ join_words (next ∷ rest)

unfoldable pub collapsed : Text → Text
unfolding split_whitespace join_words
collapsed text = join_words (split_whitespace [] text)

-- Text longer than the limit is cut and ends in `…`.
unfoldable pub shorten : Text → Text
shorten line =
    if leb (length line) preview_chars then line else take (preview_chars - 1) line ++ ellipsis ∷ []

-- `preview_of`
unfoldable pub preview_of : Text → Text
unfolding collapsed shorten
preview_of text = shorten (collapsed text)
