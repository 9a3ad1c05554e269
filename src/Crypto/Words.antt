-- ===== src/Crypto/Words.antt =====
-- Six-word passphrases (crates/passalong-core/src/crypto/words.rs). The text of the list and
-- `str::to_lowercase` are parameters; what the system's generator gives is a list of draws. A
-- passphrase is its text, and its erasure from memory is left out.
pub mod Uniform
pub mod Ends
pub mod Phrases
use passalong.Prelude.{
  ℕ, zero, suc, ◌+◌, ◌*◌, ◌/◌, ◌%◌, ◌^◌, Bool, true, false, ◌&&◌, not, Option, none, some, List, [],
  ◌∷◌, ◌++◌, ltb, ◌==◌, if◌then◌else◌, length, get_elem?, any, is_empty, Text, text_eq, Result, ok,
  err, ◌>>=◌,
}
use passalong.Store.Errors.{CryptoError, word_count, unknown_word}
use passalong.Model.FileName.{is_whitespace}
use passalong.Fs.{split}

abbrev pub list_len : ℕ
list_len = 7776

abbrev pub count : ℕ
count = 6

-- `str::lines`: a line ends in a line feed, with a carriage return before it or not, and the last
-- one need not.
unfoldable pub without_return : Text → Text
without_return [] = []
without_return (c ∷ []) = if c == 13 then [] else c ∷ []
without_return (c ∷ d ∷ rest) = c ∷ without_return (d ∷ rest)

unfoldable pub cut_lines : List Text → List Text
cut_lines [] = []
cut_lines (line ∷ []) = if is_empty line then [] else line ∷ []
cut_lines (line ∷ next ∷ rest) = without_return line ∷ cut_lines (next ∷ rest)

unfoldable pub lines : Text → List Text
unfolding cut_lines without_return split
lines text = cut_lines (split 10 text)

-- `filter_map(|line| line.split('\t').nth(1))`
unfoldable pub second_fields : List Text → List Text
unfolding split
second_fields [] = []
second_fields (line ∷ rest) = elim (get_elem? (split 9 line) 1) [
  | none ↦ second_fields rest
  | some word ↦ word ∷ second_fields rest
]

-- `word_list`
unfoldable pub word_list : Text → List Text
unfolding lines second_fields
word_list text = second_fields (lines text)

abbrev pub u32_range : ℕ
u32_range = 2 ^ 32

-- The bound of `uniform_index`
unfoldable pub bound : ℕ → ℕ
bound n = u32_range / n * n

-- `uniform_index`, and the draws that are left: `none` means that there were not enough.
unfoldable pub uniform_index :
    ℕ → List (Result CryptoError ℕ) → Option (Result CryptoError ℕ × List (Result CryptoError ℕ))
unfolding bound
uniform_index n [] = none
uniform_index n (err e ∷ draws) = some (err e, draws)
uniform_index n (ok value ∷ draws) =
    let again = uniform_index n draws in
    if ltb value (bound n) then some (ok (value % n), draws) else again

-- `parts.join(" ")`
unfoldable pub join : List Text → Text
join [] = []
join (word ∷ []) = word
join (word ∷ next ∷ rest) = word ++ 32 ∷ join (next ∷ rest)

-- `split_whitespace`: the pieces that are not empty
unfoldable pub add_char : ℕ → List Text → List Text
add_char c [] = (c ∷ []) ∷ []
add_char c (word ∷ words) = (c ∷ word) ∷ words

unfoldable pub pieces : Text → List Text
unfolding add_char is_whitespace
pieces [] = [] ∷ []
pieces (c ∷ rest) = let tail = pieces rest in if is_whitespace c then [] ∷ tail else add_char c tail

unfoldable pub drop_empty : List Text → List Text
drop_empty [] = []
drop_empty (word ∷ words) = if is_empty word then drop_empty words else word ∷ drop_empty words

unfoldable pub split_whitespace : Text → List Text
unfolding pieces drop_empty
split_whitespace text = drop_empty (pieces text)

-- `iter().position(|word| !list.contains(word))`
unfoldable pub position_unknown : List Text → List Text → Option ℕ
position_unknown list [] = none
position_unknown list (word ∷ words) =
    let rest = position_unknown list words in
    if any (text_eq word) list then elim rest [ none ↦ none | some i ↦ some (i + 1) ] else some 0

-- The picking loop of `Words::generate`; `list[i]` panics past the list's end, which is `none` too.
unfoldable pub pick :
    List Text → ℕ → List (Result CryptoError ℕ) → Option (Result CryptoError (List Text))
unfolding uniform_index
pick list zero draws = some (ok [])
pick list (suc n) draws = elim (uniform_index list_len draws) [
  | none ↦ none
  | some (err e, draws') ↦ some (err e)
  | some (ok i, draws') ↦ elim (get_elem? list i) [
    | none ↦ none
    | some word ↦ elim (pick list n draws') [
      | none ↦ none
      | some (err e) ↦ some (err e)
      | some (ok words) ↦ some (ok (word ∷ words))
    ]
  ]
]

abbrev joined : Option (Result CryptoError (List Text)) → Option (Result CryptoError Text)
joined none = none
joined (some (err e)) = some (err e)
joined (some (ok words)) = some (ok (join words))

-- `Words::generate`
unfoldable pub generate : List Text → List (Result CryptoError ℕ) → Option (Result CryptoError Text)
unfolding pick join
generate list draws = joined (pick list count draws)

-- `Words::parse`
unfoldable pub parse : (Text → Text) → List Text → Text → Result CryptoError Text
unfolding split_whitespace position_unknown join
parse to_lowercase list text =
    let parts = split_whitespace (to_lowercase text) in
    if not (length parts == count)
    then err (word_count count (length parts))
    else elim (position_unknown list parts) [
      | some position ↦ err (unknown_word (position + 1))
      | none ↦ ok (join parts)
    ]
