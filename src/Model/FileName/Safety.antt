-- ===== src/Model/FileName/Safety.antt =====
-- The characters and names that `sanitise_file_name` lets through.
use mathlib.Core.Path.{subst}
use passalong.Prelude.{
  ap, ◌∙◌, ℕ, ◌≡◌, refl, Bool, true, false, ◌&&◌, not, [], ◌∷◌, ◌++◌, arith, map, all, keep,
  is_empty, Text, ok, if◌then◌else◌, all-append, all-keep, all-keep_self, Bool-cases, inl, inr,
}
use passalong.Model.FileName.{
  is_control, is_whitespace, is_separator, last_part, first_part, trim_start, trim_end, trim,
  is_illegal, underscore, replace_illegal, to_upper, is_dot, is_dot_or_space, is_device,
  is_reserved_on_windows, cleaned, sanitise_file_name,
}

-- The characters that a local file name may hold.
unfoldable pub is_plain : ℕ → Bool
is_plain c = not (is_control c) && not (is_illegal c) && not (is_separator c)

all-last_part :
    (sep : ℕ → Bool) (last text : Text)
    → all (λ c. not (sep c)) last ≡ true
    → all (λ c. not (sep c)) (last_part sep last text) ≡ true
unfolding last_part
all-last_part sep last [] h = h
all-last_part sep last (c ∷ rest) h =
    all-last_part sep (if sep c then [] else last ++ c ∷ []) rest
      (ground (arith, all-append (λ (c : ℕ). not (sep c)) last (c ∷ [])))

all-trim_start :
    (p q : ℕ → Bool) (text : Text) → all q text ≡ true → all q (trim_start p text) ≡ true
unfolding trim_start
all-trim_start p q [] h = refl
all-trim_start p q (c ∷ rest) h = ground (arith, all-trim_start p q rest)

all-trim_end : (p q : ℕ → Bool) (text : Text) → all q text ≡ true → all q (trim_end p text) ≡ true
unfolding trim_end
all-trim_end p q [] h = refl
all-trim_end p q (c ∷ rest) h = ground (arith, all-trim_end p q rest)

-- Replacing the illegal characters leaves plain ones.
plain_after_replacing :
    (text : Text)
    → all (λ c. not (is_control c)) text ≡ true
    → all (λ c. not (is_separator c)) text ≡ true
    → all is_plain (map replace_illegal text) ≡ true
unfolding is_plain replace_illegal is_control is_separator is_illegal
plain_after_replacing [] h k = refl
plain_after_replacing (c ∷ rest) h k = ground (arith, plain_after_replacing rest)

trim_end_idem : (p : ℕ → Bool) (text : Text) → trim_end p (trim_end p text) ≡ trim_end p text
unfolding trim_end
trim_end_idem p [] = refl
trim_end_idem p (c ∷ rest) = ground (arith, trim_end_idem p rest)

cleaned-plain : (name : Text) → all is_plain (cleaned name) ≡ true
unfolding cleaned trim
cleaned-plain name =
    let part = last_part is_separator [] name in
    let kept = keep (λ (c : ℕ). not (is_control c)) part in
    let visible = all-keep_self (λ (c : ℕ). not (is_control c)) part in
    let local =
      all-keep (λ (c : ℕ). not (is_control c)) (λ (c : ℕ). not (is_separator c)) part
        (all-last_part is_separator [] name refl) in
    all-trim_end is_dot_or_space is_plain _ (
      all-trim_end is_whitespace is_plain _ (
        all-trim_start is_whitespace is_plain (map replace_illegal kept)
          (plain_after_replacing kept visible local)))

cleaned-trimmed : (name : Text) → trim_end is_dot_or_space (cleaned name) ≡ cleaned name
unfolding cleaned
cleaned-trimmed name =
    trim_end_idem is_dot_or_space
      (trim (map replace_illegal (keep (λ c. not (is_control c)) (last_part is_separator [] name))))

underscore-not_device : (rest : Text) → is_device (underscore ∷ rest) ≡ false
unfolding is_device
underscore-not_device [] = refl
underscore-not_device (a ∷ []) = refl
underscore-not_device (a ∷ b ∷ []) = refl
underscore-not_device (a ∷ b ∷ c ∷ []) = refl
underscore-not_device (a ∷ b ∷ c ∷ d ∷ rest) = refl

trim_end-keep :
    (p : ℕ → Bool) (c : ℕ) (rest : Text) → p c ≡ false → trim_end p (c ∷ rest) ≡ c ∷ trim_end p rest
unfolding trim_end
trim_end-keep p c rest h = ground arith

underscore-not_reserved : (text : Text) → is_reserved_on_windows (underscore ∷ text) ≡ false
unfolding is_reserved_on_windows first_part to_upper is_dot
underscore-not_reserved text =
    rw
      (trim_end-keep is_whitespace underscore (first_part is_dot text)
        (unfold is_whitespace in refl))
      (underscore-not_device (map to_upper (trim_end is_whitespace (first_part is_dot text))))

-- A name that every device can create in a directory of its own: it is not empty, holds no control
-- character, separator or character that Windows refuses, does not end in a dot or a space (so it is
-- neither `.` nor `..`), and is no Windows device.
pub record IsSafeName (name : Text) : Type 0 where
  pub filled : is_empty name ≡ false
  pub plain : all is_plain name ≡ true
  pub trimmed : trim_end is_dot_or_space name ≡ name
  pub free : is_reserved_on_windows name ≡ false

underscored : (name : Text) → IsSafeName (underscore ∷ cleaned name)
underscored name = record {
  filled = refl;
  plain = unfold is_plain is_control is_illegal is_separator in cleaned-plain name;
  trimmed =
      trim_end-keep is_dot_or_space underscore (cleaned name) (unfold is_dot_or_space in refl)
      ∙ ap (λ (t : Text). underscore ∷ t) (cleaned-trimmed name);
  free = underscore-not_reserved (cleaned name);
}

-- Whatever name the store gives, a sanitised name is safe.
pub sanitise_file_name-IsSafeName :
    (name out : Text) → sanitise_file_name name ≡ ok out → IsSafeName out
unfolding sanitise_file_name
sanitise_file_name-IsSafeName name out h = elim (Bool-cases (is_empty (cleaned name))) [
  | inl e ↦ cc (rw e at h)
  | inr filled ↦ elim (Bool-cases (is_reserved_on_windows (cleaned name))) [
    | inl device ↦ subst IsSafeName (cc (rw (filled, device) at h)) (underscored name)
    | inr free ↦ subst IsSafeName (cc (rw (filled, free) at h)) (record {
      filled = filled;
      plain = cleaned-plain name;
      trimmed = cleaned-trimmed name;
      free = free;
    })
  ]
]
