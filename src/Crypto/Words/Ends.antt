-- ===== src/Crypto/Words/Ends.antt =====
-- When the drawing of an index ends (`uniform_index`).
use native.Mathlib.Nat.{mod-lt, mod-add-div', le-div_iff_mul-le, mul-le-mul_right}
use passalong.Prelude.{
  ℕ, ◌*◌, ◌/◌, ◌%◌, ◌<◌, ◌≤◌, ◌≡◌, refl, true, false, ltb, List, All, [], ◌∷◌, ◌++◌, ◌+◌, ◌∙◌, some,
  arith, Result, ok, err,
}
use passalong.Store.Errors.{CryptoError}
use passalong.Crypto.Words.{bound, u32_range, uniform_index}

-- A draw in the last round of `n` numbers, which 2^32 cuts off: nothing comes of it.
abbrev pub IsRejected : ℕ → Result CryptoError ℕ → Type 0
IsRejected n (ok v) = u32_range ≤ v + u32_range % n
IsRejected n (err e) = ⊥

-- What ends the loop, and with what: a draw in a whole round with its index, and an error with itself
pub data Answer (n : ℕ) : Result CryptoError ℕ → Result CryptoError ℕ → Type 0 where
  index : (v : ℕ) → v + u32_range % n < u32_range → Answer n (ok v) (ok (v % n))
  failure : (e : CryptoError) → Answer n (err e) (err e)

bound-rest : (n : ℕ) → u32_range % n + bound n ≡ u32_range
unfolding bound
bound-rest n = mod-add-div' u32_range n

rejected :
    (n v : ℕ) (draws : List (Result CryptoError ℕ))
    → u32_range ≤ v + u32_range % n
    → uniform_index n (ok v ∷ draws) ≡ uniform_index n draws
unfolding uniform_index
rejected n v draws h =
    let large : ltb v (bound n) ≡ false = ground (arith, h, bound-rest n) in ground (arith, large)

answered :
    (n : ℕ) (d r : Result CryptoError ℕ) (after : List (Result CryptoError ℕ))
    → Answer n d r
    → uniform_index n (d ∷ after) ≡ some (r, after)
unfolding uniform_index
answered n _ _ after (index v h) =
    let small : ltb v (bound n) ≡ true = ground (arith, h, bound-rest n) in ground (arith, small)
answered n _ _ after (failure e) = refl

answers :
    (n : ℕ) (before : List (Result CryptoError ℕ)) (d r : Result CryptoError ℕ)
    (after : List (Result CryptoError ℕ))
    → All (IsRejected n) before
    → Answer n d r
    → uniform_index n (before ++ d ∷ after) ≡ some (r, after)
answers n [] d r after h a = answered n d r after a
answers n (ok v ∷ before) d r after h a =
    rejected n v (before ++ d ∷ after) h.0 ∙ answers n before d r after h.1 a
answers n (err e ∷ before) d r after h a = absurd h.0

few_rejected : (n : ℕ) → 0 < n → n ≤ u32_range → 2 * (u32_range % n) < u32_range
few_rejected n h k =
    let whole = mod-add-div' u32_range n in
    let small : u32_range % n < n = mod-lt u32_range h in
    let least : 1 ≤ u32_range / n = (le-div_iff_mul-le h).1 (omega (arith, k)) in
    omega (arith, whole, small, mul-le-mul_right n least)

-- The loop of `uniform_index` for at most 2^32 indices passes over the draws in the last round of `n`,
-- which 2^32 cuts off, and ends at the first other one: with the draw modulo `n`, or with the error of
-- the generator, and without a further draw. The draws that are passed over are fewer than half of all.
pub uniform_index-ends :
    (n : ℕ) (before : List (Result CryptoError ℕ)) (d r : Result CryptoError ℕ)
    (after : List (Result CryptoError ℕ))
    → 0 < n
    → n ≤ u32_range
    → All (IsRejected n) before
    → Answer n d r
    → (uniform_index n (before ++ d ∷ after) ≡ some (r, after)) × (2 * (u32_range % n) < u32_range)
uniform_index-ends n before d r after h k passed a =
    (answers n before d r after passed a, few_rejected n h k)
