-- ===== src/Crypto/Stream/Nonces.antt =====
-- The nonces of the records of one content (`record_nonce`).
use passalong.Prelude.{
  ℕ, zero, suc, ◌/◌, ◌%◌, ◌^◌, ◌<◌, ◌≡◌, refl, Bool, [], ◌∷◌, ◌++◌, arith, if◌then◌else◌,
}
use passalong.Model.Digest.{Bytes}
use passalong.Crypto.Stream.{to_be_bytes, record_nonce}
use native.Mathlib.Nat.{pow-suc}

-- The last element, and what precedes it, of two equal lists.
snoc_injective : (xs ys : Bytes) (a b : ℕ) → xs ++ a ∷ [] ≡ ys ++ b ∷ [] → (xs ≡ ys) × (a ≡ b)
snoc_injective [] [] a b h = (refl, cc)
snoc_injective [] (y ∷ []) a b h = cc
snoc_injective [] (y ∷ z ∷ ys) a b h = cc
snoc_injective (x ∷ []) [] a b h = cc
snoc_injective (x ∷ z ∷ xs) [] a b h = cc
snoc_injective (x ∷ xs) (y ∷ ys) a b h =
    let rest : xs ++ a ∷ [] ≡ ys ++ b ∷ [] = cc in
    let tail = snoc_injective xs ys a b rest in (cc (tail.0), tail.1)

to_be_bytes_injective :
    (w n m : ℕ) → n < 256 ^ w → m < 256 ^ w → to_be_bytes w n ≡ to_be_bytes w m → n ≡ m
unfolding to_be_bytes
to_be_bytes_injective zero n m h k e = omega arith
to_be_bytes_injective (suc w) n m h k e =
    let parts =
      snoc_injective (to_be_bytes w (n / 256)) (to_be_bytes w (m / 256)) (n % 256) (m % 256) e in
    let high =
      to_be_bytes_injective w (n / 256) (m / 256) (omega (arith, rw pow-suc at h))
        (omega (arith, rw pow-suc at k)) parts.0 in
    omega (arith, high, parts.1)

flag_injective : (a b : Bool) → ◌≡◌ {A = ℕ} (if a then 1 else 0) (if b then 1 else 0) → a ≡ b
flag_injective a b h = ground arith

-- Two records numbered below 2^64 with the same nonce have the same number and are both final or
-- both not.
pub record_nonce_injective :
    (c d : ℕ) (last final : Bool)
    → c < 2 ^ 64
    → d < 2 ^ 64
    → record_nonce c last ≡ record_nonce d final
    → (c ≡ d) × (last ≡ final)
unfolding record_nonce
record_nonce_injective c d last final h k e =
    let tail : to_be_bytes 8 c ++ (if last then 1 else 0) ∷ []
        ≡ to_be_bytes 8 d ++ (if final then 1 else 0) ∷ [] =
      cc in
    let parts =
      snoc_injective (to_be_bytes 8 c) (to_be_bytes 8 d) (if last then 1 else 0)
        (if final then 1 else 0) tail in
    (
      to_be_bytes_injective 8 c d (omega arith) (omega arith) parts.0,
      flag_injective last final parts.1,
    )
