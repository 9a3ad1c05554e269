-- ===== src/Crypto/Words/Uniform.antt =====
-- Which draws give which index (`uniform_index`).
use native.Mathlib.Nat.{
  mod-add-div', div-lt_iff_lt-mul, add-mul-div_right, add-mul-mod_self_right, mod-eq_of_lt,
  div-eq_of_lt,
}
use passalong.Prelude.{
  ℕ, ◌+◌, ◌*◌, ◌/◌, ◌%◌, ◌<◌, ◌≡◌, ◌↔◌, ◌∙◌, ltb, [], ◌∷◌, some, arith, ok, Bool-cases, inl, inr,
  lt→ltb, ltb→lt,
}
use passalong.Crypto.Words.{bound, u32_range, uniform_index}

module _ (n i : ℕ) (h : i < n) where
  even-to : (q v : ℕ) → v < q * n → v % n ≡ i → (k : ℕ) × (k < q) × (v ≡ i + k * n)
  even-to q v below e =
      (v / n, (div-lt_iff_lt-mul {k = n} (omega arith)).1 below, omega (arith, mod-add-div' v n, e))

  even-from : (q k : ℕ) → k < q → ((i + k * n) < q * n) × ((i + k * n) % n ≡ i)
  even-from q k below =
      let quotient : (i + k * n) / n ≡ k =
        omega (arith, add-mul-div_right i k {z = n} (omega arith), div-eq_of_lt h) in
      (
        (div-lt_iff_lt-mul {k = n} (omega arith)).0 (omega (arith, quotient)),
        add-mul-mod_self_right i k n ∙ mod-eq_of_lt h,
      )

  draw-to :
      (v : ℕ)
      → uniform_index n (ok v ∷ []) ≡ some (ok i, [])
      → (k : ℕ) × (k < u32_range / n) × (v ≡ i + k * n)
  unfolding uniform_index bound
  draw-to v e = elim (Bool-cases (ltb v (u32_range / n * n))) [
    | inl f ↦ even-to (u32_range / n) v (ltb→lt _ _ f) (ground (arith, e, f))
    | inr f ↦ absurd (ground (arith, e, f))
  ]

  draw-from :
      (v : ℕ)
      → (k : ℕ) × (k < u32_range / n) × (v ≡ i + k * n)
      → uniform_index n (ok v ∷ []) ≡ some (ok i, [])
  unfolding uniform_index bound
  draw-from v (k, below, e) =
      let (small, rest) = even-from (u32_range / n) k below in
      ground (arith, e, lt→ltb _ _ small, rest)

  -- Every index below `n` comes from equally many of the 2^32 draws: it is the answer to a draw exactly
  -- when the draw is the index plus `k` times `n`, for one of the first 2^32 / n numbers `k`.
  pub uniform_index-even :
      (v : ℕ)
      → (uniform_index n (ok v ∷ []) ≡ some (ok i, []))
        ↔ ((k : ℕ) × (k < u32_range / n) × (v ≡ i + k * n))
  uniform_index-even v = (draw-to v, draw-from v)
