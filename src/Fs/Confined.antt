-- ===== src/Fs/Confined.antt =====
-- The paths that `RemotePath` accepts.
use mathlib.Core.List.{append-nil, append_assoc}
use mathlib.Core.Path.{subst}
use passalong.Prelude.{
  ℕ, ◌≡◌, refl, sym, ◌∙◌, false, List, [], ◌∷◌, ◌++◌, ◌==◌, is_empty, All, Text, ok, arith,
  Bool-cases, inl, inr, ==_iff,
}
use passalong.Fs.{RemotePath, is_invalid, add_char, split, join_all, new, as_str}

-- Every component is a name: not empty, not `.` or `..`, and without `/`, `\` and NUL.
abbrev pub IsConfined : RemotePath → Type 0
IsConfined path = All (λ part. is_invalid part ≡ false) path

join_all-ok :
    (acc parts path : RemotePath)
    → join_all acc parts ≡ ok path
    → IsConfined parts × (path ≡ acc ++ parts)
unfolding join_all
join_all-ok acc [] path h = (tt, ground (arith, h, append-nil acc))
join_all-ok acc (part ∷ parts) path h = elim (Bool-cases (is_invalid part)) [
  | inl e ↦ ground (arith, h, e)
  | inr e ↦
      let rest : join_all (acc ++ part ∷ []) parts ≡ ok path = ground (arith, h, e) in
      let (valid, whole) = join_all-ok (acc ++ part ∷ []) parts path rest in
      ((e, valid), whole ∙ append_assoc acc (part ∷ []) parts)
]

as_str-add_char : (b : ℕ) (parts : List Text) → as_str (add_char b parts) ≡ b ∷ as_str parts
unfolding as_str add_char
as_str-add_char b [] = refl
as_str-add_char b (part ∷ []) = refl
as_str-add_char b (part ∷ next ∷ rest) = refl

as_str-empty_first :
    (parts : List Text) → is_empty parts ≡ false → as_str ([] ∷ parts) ≡ b'/' ∷ as_str parts
unfolding as_str
as_str-empty_first [] h = cc
as_str-empty_first (part ∷ rest) h = refl

split-filled : (c : ℕ) (text : Text) → is_empty (split c text) ≡ false
unfolding split
split-filled c [] = refl
split-filled c (b ∷ rest) = elim (Bool-cases (b == c)) [
  | inl e ↦ ground (arith, e)
  | inr e ↦ ground (arith, e, add_char-filled b (split c rest))
]
  where
    add_char-filled : (b : ℕ) (parts : List Text) → is_empty (add_char b parts) ≡ false
    add_char-filled b [] = refl
    add_char-filled b (part ∷ parts) = refl

as_str-split : (text : Text) → as_str (split b'/' text) ≡ text
unfolding split
as_str-split [] = unfold as_str in refl
as_str-split (b ∷ rest) = elim (Bool-cases (b == b'/')) [
  | inl e ↦
      let (to, from) = ==_iff b b'/' in
      ground (
        arith,
        e,
        to e,
        as_str-empty_first (split b'/' rest) (split-filled b'/' rest),
        as_str-split rest,
      )
  | inr e ↦ ground (arith, e, as_str-add_char b (split b'/' rest), as_str-split rest)
]

-- A text that is accepted as a path gives one of names only, none of them empty, `.`, `..` or with a
-- separator or NUL in it, so that it cannot leave the root; and its text is the given one.
pub new-IsConfined :
    (text : Text) (path : RemotePath) → new text ≡ ok path → IsConfined path × (as_str path ≡ text)
unfolding new
new-IsConfined [] path h =
    let root_is : [] ≡ path = ground (arith, h) in
    subst (λ p. IsConfined p × (as_str p ≡ [])) root_is (tt, unfold as_str in refl)
new-IsConfined (b ∷ text) path h =
    let (valid, whole) = join_all-ok [] (split b'/' (b ∷ text)) path h in
    subst (λ p. IsConfined p × (as_str p ≡ b ∷ text)) (sym whole) (valid, as_str-split (b ∷ text))
