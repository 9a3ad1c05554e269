-- ===== src/Model/FileName.antt =====
-- File names from the store made safe to create locally (`sanitise_file_name` and
-- `is_reserved_on_windows` of crates/passalong-core/src/model.rs), with what they use of the
-- standard library's text functions.
pub mod Safety
use passalong.Prelude.{
  ℕ, ◌-◌, Bool, true, false, ◌&&◌, ◌||◌, not, List, [], ◌∷◌, ◌++◌, ltb, leb, ◌==◌, if◌then◌else◌,
  map, length, keep, is_empty, Text, text_eq, codes, Result, ok, err,
}
use mathlib.Core.List.{reverse}
use passalong.Model.Id.{ModelError, invalid_file_name}

-- `char::is_control`: the category Cc
unfoldable pub is_control : ℕ → Bool
is_control c = ltb c 0x20 || (leb 0x7f c && ltb c 0xa0)

-- `char::is_whitespace`: the property White_Space
unfoldable pub is_whitespace : ℕ → Bool
is_whitespace c =
    (leb 9 c && leb c 13)
    || c == 32
    || c == 0x85
    || c == 0xa0
    || c == 0x1680
    || (leb 0x2000 c && leb c 0x200a)
    || c == 0x2028
    || c == 0x2029
    || c == 0x202f
    || c == 0x205f
    || c == 0x3000

unfoldable pub is_separator : ℕ → Bool
is_separator c = c == b'/' || c == b'\\'

-- `text.rsplit(sep).next()`: what follows the last character of `sep`. `last` is what has been
-- read since.
unfoldable pub last_part : (ℕ → Bool) → Text → Text → Text
last_part sep last [] = last
last_part sep last (c ∷ rest) = last_part sep (if sep c then [] else last ++ c ∷ []) rest

-- `text.split(sep).next()`: what precedes the first character of `sep`.
unfoldable pub first_part : (ℕ → Bool) → Text → Text
first_part sep [] = []
first_part sep (c ∷ rest) = if sep c then [] else c ∷ first_part sep rest

-- `trim_start_matches`
unfoldable pub trim_start : (ℕ → Bool) → Text → Text
trim_start p [] = []
trim_start p (c ∷ rest) = if p c then trim_start p rest else c ∷ rest

-- `trim_end_matches`
unfoldable pub trim_end : (ℕ → Bool) → Text → Text
trim_end p [] = []
trim_end p (c ∷ rest) = let tail = trim_end p rest in if is_empty tail && p c then [] else c ∷ tail

-- `trim`
unfoldable pub trim : Text → Text
unfolding trim_start trim_end is_whitespace
trim text = trim_end is_whitespace (trim_start is_whitespace text)

-- The characters that Windows cannot store in a name.
unfoldable pub is_illegal : ℕ → Bool
is_illegal c =
    c == b'<' || c == b'>' || c == b':' || c == b'"' || c == b'|' || c == b'?' || c == b'*'

abbrev pub underscore : ℕ
underscore = b'_'

unfoldable pub replace_illegal : ℕ → ℕ
replace_illegal c = if is_illegal c then underscore else c

-- `to_ascii_uppercase`
unfoldable pub to_upper : ℕ → ℕ
to_upper c = if leb b'a' c && leb c b'z' then c - 32 else c

unfoldable pub is_dot : ℕ → Bool
is_dot c = c == b'.'

unfoldable pub is_dot_or_space : ℕ → Bool
is_dot_or_space c = c == b'.' || c == 32

abbrev pub starts_com_or_lpt : ℕ → ℕ → ℕ → Bool
starts_com_or_lpt a b c =
    (a == b'C' && b == b'O' && c == b'M') || (a == b'L' && b == b'P' && c == b'T')

-- The `match` on the stem. Four bytes that end in a digit are four characters.
unfoldable pub is_device : Text → Bool
is_device (a ∷ b ∷ c ∷ []) =
    (a == b'C' && b == b'O' && c == b'N')
    || (a == b'P' && b == b'R' && c == b'N')
    || (a == b'A' && b == b'U' && c == b'X')
    || (a == b'N' && b == b'U' && c == b'L')
is_device (a ∷ b ∷ c ∷ d ∷ []) = starts_com_or_lpt a b c && leb b'1' d && leb d b'9'
is_device _ = false

-- `is_reserved_on_windows`
unfoldable pub is_reserved_on_windows : Text → Bool
unfolding first_part trim_end is_whitespace to_upper is_dot is_device
is_reserved_on_windows name =
    is_device (map to_upper (trim_end is_whitespace (first_part is_dot name)))

-- The name with its directory, control characters, illegal characters and end trimmed away.
unfoldable pub cleaned : Text → Text
unfolding last_part is_control replace_illegal is_illegal trim trim_end is_separator is_dot_or_space
cleaned name =
    trim_end is_dot_or_space
      (trim (map replace_illegal (keep (λ c. not (is_control c)) (last_part is_separator [] name))))

-- `sanitise_file_name`
unfoldable pub sanitise_file_name : Text → Result ModelError Text
unfolding cleaned is_reserved_on_windows
sanitise_file_name name =
    let text = cleaned name in
    if is_empty text
    then err (invalid_file_name name)
    else if is_reserved_on_windows text
    then ok (underscore ∷ text)
    else ok text
