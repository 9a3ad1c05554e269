-- ===== src/Prelude/Texts.antt =====
-- Texts as lists of code points, compared as Rust compares strings.
use Prim.Native.Nat.{ℕ}
use Prim.Native.Char.{code}
use Prim.Native.String.{String}
use mathlib.Core.Path.{◌≡◌, refl}
use mathlib.Core.Logic.{◌↔◌}
use mathlib.Core.Bool.{Bool, true, false, not, ◌&&◌, ◌||◌}
use mathlib.Core.List.{List, [], ◌∷◌, ◌++◌}
use native.Mathlib.Omega.{arith}
use passalong.Prelude.Lists.{length}
use passalong.Prelude.Tests.{ltb, ◌==◌}

abbrev pub Text : Type 0
Text = List ℕ

abbrev pub codes : String → Text
codes String.[] = []
codes (String.◌∷◌ c s) = code c ∷ codes s

unfoldable pub text_eq : Text → Text → Bool
text_eq [] [] = true
text_eq (a ∷ s) (b ∷ t) = a == b && text_eq s t
text_eq _ _ = false

-- `a < b` on strings: the first difference decides, and a prefix comes first.
unfoldable pub text_ltb : Text → Text → Bool
text_ltb [] [] = false
text_ltb [] (b ∷ t) = true
text_ltb (a ∷ s) [] = false
text_ltb (a ∷ s) (b ∷ t) = ltb a b || (a == b && text_ltb s t)

pub text_eq→eq : (s t : Text) → text_eq s t ≡ true → s ≡ t
unfolding text_eq
text_eq→eq [] [] h = refl
text_eq→eq [] (b ∷ t) h = cc
text_eq→eq (a ∷ s) [] h = cc
text_eq→eq (a ∷ s) (b ∷ t) h = ground (arith, text_eq→eq s t)

pub text_eq_refl : (s : Text) → text_eq s s ≡ true
unfolding text_eq
text_eq_refl [] = refl
text_eq_refl (a ∷ s) = ground (arith, text_eq_refl s)

pub text_eq_iff : (s t : Text) → (text_eq s t ≡ true) ↔ (s ≡ t)
text_eq_iff s t = (text_eq→eq s t, λ e. ground (arith, text_eq_refl s))

pub text_ltb_irrefl : (s : Text) → text_ltb s s ≡ false
unfolding text_ltb
text_ltb_irrefl [] = refl
text_ltb_irrefl (a ∷ s) = ground (arith, text_ltb_irrefl s)

pub text_ltb_trans :
    (r s t : Text) → text_ltb r s ≡ true → text_ltb s t ≡ true → text_ltb r t ≡ true
unfolding text_ltb
text_ltb_trans [] [] t h k = cc
text_ltb_trans [] (b ∷ s) [] h k = cc
text_ltb_trans [] (b ∷ s) (c ∷ t) h k = refl
text_ltb_trans (a ∷ r) [] t h k = cc
text_ltb_trans (a ∷ r) (b ∷ s) [] h k = cc
text_ltb_trans (a ∷ r) (b ∷ s) (c ∷ t) h k = ground (arith, text_ltb_trans r s t)

-- Two texts are equal or one of them comes first.
pub text_ltb_total : (s t : Text) → text_ltb s t ≡ false → text_ltb t s ≡ false → s ≡ t
unfolding text_ltb
text_ltb_total [] [] h k = refl
text_ltb_total [] (b ∷ t) h k = cc
text_ltb_total (a ∷ s) [] h k = cc
text_ltb_total (a ∷ s) (b ∷ t) h k = ground (arith, text_ltb_total s t)

-- Texts of one length are compared piece by piece.
pub text_ltb-append :
    (s t x y : Text)
    → length s ≡ length t
    → text_ltb (s ++ x) (t ++ y) ≡ (text_ltb s t || (text_eq s t && text_ltb x y))
unfolding text_ltb text_eq
text_ltb-append [] [] x y h = refl
text_ltb-append [] (b ∷ t) x y h = absurd (omega arith)
text_ltb-append (a ∷ s) [] x y h = absurd (omega arith)
text_ltb-append (a ∷ s) (b ∷ t) x y h = ground (arith, text_ltb-append s t x y)

pub text_eq-append :
    (s t x y : Text)
    → length s ≡ length t
    → text_eq (s ++ x) (t ++ y) ≡ (text_eq s t && text_eq x y)
unfolding text_eq
text_eq-append [] [] x y h = refl
text_eq-append [] (b ∷ t) x y h = absurd (omega arith)
text_eq-append (a ∷ s) [] x y h = absurd (omega arith)
text_eq-append (a ∷ s) (b ∷ t) x y h = ground (arith, text_eq-append s t x y)

-- What lies between two texts in order is after the first or before the second.
pub text_ltb_cotrans : (r s t : Text) → text_ltb r t ≡ true → (text_ltb r s || text_ltb s t) ≡ true
unfolding text_ltb
text_ltb_cotrans [] [] t h = h
text_ltb_cotrans [] (b ∷ s) t h = refl
text_ltb_cotrans (a ∷ r) s [] h = cc
text_ltb_cotrans (a ∷ r) [] (c ∷ t) h = refl
text_ltb_cotrans (a ∷ r) (b ∷ s) (c ∷ t) h = ground (arith, text_ltb_cotrans r s t)

-- Equal texts are those of which neither comes first.
pub text_eq-not_ltb : (s t : Text) → text_eq s t ≡ (not (text_ltb s t) && not (text_ltb t s))
unfolding text_ltb text_eq
text_eq-not_ltb [] [] = refl
text_eq-not_ltb [] (b ∷ t) = refl
text_eq-not_ltb (a ∷ s) [] = refl
text_eq-not_ltb (a ∷ s) (b ∷ t) = ground (arith, text_eq-not_ltb s t)

pub text_ltb_asym : (s t : Text) → text_ltb s t ≡ true → text_ltb t s ≡ false
unfolding text_ltb
text_ltb_asym [] [] h = refl
text_ltb_asym [] (b ∷ t) h = refl
text_ltb_asym (a ∷ s) [] h = cc
text_ltb_asym (a ∷ s) (b ∷ t) h = ground (arith, text_ltb_asym s t)
