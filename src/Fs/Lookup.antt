-- ===== src/Fs/Lookup.antt =====
-- What the operations on a disk leave at each path (Fs/Disk).
use mathlib.Core.List.{append_assoc}
use passalong.Prelude.{
  ℕ, zero, suc, ◌≡◌, refl, sym, ap, ◌∙◌, true, false, not, none, some, inl, inr, [], ◌∷◌, ◌++◌,
  keep, if◌then◌else◌, text_eq_refl, text_eq→eq, ok, arith, Bool-cases, Option-cases,
}
use passalong.Model.Digest.{Bytes}
use passalong.Fs.{RemotePath, path_eq, below}
use passalong.Fs.Disk.{
  dir, file, Disk, or_else, lookup, set_file, outside, trimmed, moved, is_none, make_dirs,
}

pub path_eq_refl : (p : RemotePath) → path_eq p p ≡ true
unfolding path_eq
path_eq_refl [] = refl
path_eq_refl (a ∷ p) = ground (arith, text_eq_refl a, path_eq_refl p)

pub path_eq→eq : (p q : RemotePath) → path_eq p q ≡ true → p ≡ q
unfolding path_eq
path_eq→eq [] [] h = refl
path_eq→eq [] (b ∷ q) h = cc
path_eq→eq (a ∷ p) [] h = cc
path_eq→eq (a ∷ p) (b ∷ q) h = ground (arith, text_eq→eq a b, path_eq→eq p q)

pub path_eq_sym : (p q : RemotePath) → path_eq p q ≡ path_eq q p
path_eq_sym p q = elim (Bool-cases (path_eq p q)) [
  | inl e ↦
      ap (λ r. path_eq r q) (path_eq→eq p q e) ∙ ap (λ r. path_eq q r) (sym (path_eq→eq p q e))
  | inr e ↦ elim (Bool-cases (path_eq q p)) [
    | inl f ↦
        ap (λ r. path_eq p r) (path_eq→eq q p f) ∙ ap (λ r. path_eq r p) (sym (path_eq→eq q p f))
    | inr f ↦ e ∙ sym f
  ]
]

-- Paths of which the first is not above the second are different.
pub path_eq-apart : (p q : RemotePath) → below p q ≡ none → path_eq p q ≡ false
unfolding path_eq below
path_eq-apart [] q h = cc
path_eq-apart (a ∷ p) [] h = refl
path_eq-apart (a ∷ p) (b ∷ q) h = ground (arith, path_eq-apart p q)

pub below-append : (p x y : RemotePath) → below (p ++ x) (p ++ y) ≡ below x y
unfolding below
below-append [] x y = refl
below-append (a ∷ p) x y = ground (arith, text_eq_refl a, below-append p x y)

pub path_eq-append : (p x y : RemotePath) → path_eq (p ++ x) (p ++ y) ≡ path_eq x y
unfolding path_eq
path_eq-append [] x y = refl
path_eq-append (a ∷ p) x y = ground (arith, text_eq_refl a, path_eq-append p x y)

pub below_self : (p s : RemotePath) → below p (p ++ s) ≡ some s
unfolding below
below_self [] s = refl
below_self (a ∷ p) s = ground (arith, text_eq_refl a, below_self p s)

pub below_sound : (p q s : RemotePath) → below p q ≡ some s → q ≡ p ++ s
unfolding below
below_sound [] q s h = ground (arith, h)
below_sound (a ∷ p) [] s h = cc
below_sound (a ∷ p) (b ∷ q) s h = ground (arith, text_eq→eq a b, below_sound p q s)

lookup-rest :
    (p q : RemotePath) (d : Disk)
    → path_eq p q ≡ false
    → lookup (keep (λ e. not (path_eq e.0 p)) d) q ≡ lookup d q
unfolding lookup
lookup-rest p q [] h = refl
lookup-rest p q ((r, node) ∷ d) h = elim (Bool-cases (path_eq r p)) [
  | inl e ↦ ground (arith, e, lookup-rest p q d, ap (λ x. path_eq x q) (path_eq→eq r p e))
  | inr e ↦ ground (arith, e, lookup-rest p q d)
]

pub lookup-set_file :
    (p q : RemotePath) (b : Bytes) (d : Disk)
    → lookup (set_file p b d) q ≡ (if path_eq p q then some (file b) else lookup d q)
unfolding lookup set_file
lookup-set_file p q b d = elim (Bool-cases (path_eq p q)) [
  | inl e ↦ ground (arith, e)
  | inr e ↦ ground (arith, e, lookup-rest p q d e)
]

pub lookup-append :
    (d e : Disk) (q : RemotePath) → lookup (d ++ e) q ≡ or_else (lookup d q) (lookup e q)
unfolding lookup
lookup-append [] e q = refl
lookup-append ((r, node) ∷ d) e q = ground (arith, lookup-append d e q)

pub lookup-outside :
    (p q : RemotePath) (d : Disk)
    → lookup (outside p d) q ≡ (if is_none (below p q) then lookup d q else none)
unfolding lookup outside
lookup-outside p q [] = ground arith
lookup-outside p q ((r, node) ∷ d) = elim (Bool-cases (path_eq r q)) [
  | inl e ↦ ground (arith, lookup-outside p q d, ap (below p) (path_eq→eq r q e))
  | inr e ↦ ground (arith, lookup-outside p q d)
]

-- What a removal leaves of the paths outside the tree it is about
pub lookup-trimmed :
    (n : ℕ) (p q : RemotePath) (d : Disk) → below p q ≡ none → lookup (trimmed n p d) q ≡ lookup d q
unfolding lookup trimmed
lookup-trimmed n p q [] h = refl
lookup-trimmed zero p q ((r, node) ∷ d) h = elim (Option-cases (below p r)) [
  | inl e ↦ ground (arith, e, lookup-trimmed zero p q d h)
  | inr (s, e) ↦ ground (arith, e)
]
lookup-trimmed (suc m) p q ((r, node) ∷ d) h = elim (Option-cases (below p r)) [
  | inl e ↦ ground (arith, e, lookup-trimmed (suc m) p q d h)
  | inr (s, e) ↦ elim (Bool-cases (path_eq r q)) [
    | inl f ↦ cc (h, e, ap (below p) (path_eq→eq r q f))
    | inr f ↦ ground (arith, e, f, lookup-trimmed m p q d h)
  ]
]

not-path_eq : (from r s : RemotePath) → below from r ≡ none → path_eq r (from ++ s) ≡ false
not-path_eq from r s h = elim (Bool-cases (path_eq r (from ++ s))) [
  | inl e ↦ cc (h, below_self from s, ap (below from) (path_eq→eq r (from ++ s) e))
  | inr e ↦ e
]

pub lookup-moved :
    (from to s : RemotePath) (d : Disk) → lookup (moved from to d) (to ++ s) ≡ lookup d (from ++ s)
unfolding lookup moved
lookup-moved from to s [] = refl
lookup-moved from to s ((r, node) ∷ d) = elim (Option-cases (below from r)) [
  | inl e ↦
      let other : path_eq r (from ++ s) ≡ false = not-path_eq from r s e in
      ground (arith, e, other, lookup-moved from to s d)
  | inr (t, e) ↦
      let here =
        ap (λ x. path_eq x (from ++ s)) (below_sound from r t e) ∙ path_eq-append from t s in
      ground (arith, e, here, path_eq-append to t s, lookup-moved from to s d)
]

path_eq-apart_above : (p x q : RemotePath) → below p q ≡ none → path_eq (p ++ x) q ≡ false
unfolding path_eq below
path_eq-apart_above [] x q h = cc
path_eq-apart_above (a ∷ p) x [] h = refl
path_eq-apart_above (a ∷ p) x (b ∷ q) h = ground (arith, path_eq-apart_above p x q)

pub lookup-moved_out :
    (from to q : RemotePath) (d : Disk) → below to q ≡ none → lookup (moved from to d) q ≡ none
unfolding lookup moved
lookup-moved_out from to q [] h = refl
lookup-moved_out from to q ((r, node) ∷ d) h = elim (Option-cases (below from r)) [
  | inl e ↦ ground (arith, e, lookup-moved_out from to q d h)
  | inr (t, e) ↦ ground (arith, e, lookup-moved_out from to q d h, path_eq-apart_above to t q h)
]

lookup-fresh :
    (path rest q : RemotePath) (d : Disk)
    → is_none (below q (path ++ rest)) ≡ true
    → lookup ((path, dir) ∷ d) q ≡ lookup d q
unfolding lookup is_none
lookup-fresh path rest q d apart = elim (Bool-cases (path_eq path q)) [
  | inl e ↦ cc (
    apart,
    ap (λ x. is_none (below x (path ++ rest))) (path_eq→eq path q e),
    ap is_none (below_self path rest),
  )
  | inr e ↦ ground (arith, e)
]

-- The directories that are made are on the path, and where nothing was.
pub lookup-make_dirs :
    (d d' : Disk) (done rest q : RemotePath)
    → make_dirs d done rest ≡ ok d'
    → is_none (below q (done ++ rest)) ≡ true
    → lookup d' q ≡ lookup d q
unfolding make_dirs
lookup-make_dirs d d' done [] q h apart = ground (arith, h)
lookup-make_dirs d d' done (part ∷ rest) q h apart =
    let path = done ++ part ∷ [] in
    let whole : path ++ rest ≡ done ++ part ∷ rest = append_assoc done (part ∷ []) rest in
    let apart' : is_none (below q (path ++ rest)) ≡ true =
      ap (λ x. is_none (below q x)) whole ∙ apart in
    elim (Option-cases (lookup d path)) [
      | inl e ↦
          lookup-make_dirs ((path, dir) ∷ d) d' path rest q (ground (arith, h, e)) apart'
          ∙ lookup-fresh path rest q d apart'
      | inr (dir, e) ↦ lookup-make_dirs d d' path rest q (ground (arith, h, e)) apart'
      | inr (file b, e) ↦ ground (arith, h, e)
    ]
