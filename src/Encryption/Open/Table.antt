-- ===== src/Encryption/Open/Table.antt =====
-- How a device opens a store, with a key or without.
use mathlib.Core.Path.{subst}
use passalong.Prelude.{
  ◌≡◌, ◌↔◌, refl, Option, none, some, text_eq, text_eq_refl, text_eq→eq, ok, arith, inl, inr,
  Bool-cases,
}
use passalong.Model.Digest.{Bytes}
use passalong.Crypto.Keys.{Primitives, Sealer, key_id, new_sealer}
use passalong.Encryption.Open.{Claim, plain, rewriting, broken, encrypted, opening, with_key}

module _ (prims : Primitives) where
  -- When a store is opened, and how
  pub data Opens : Claim → Option Bytes → Option (Sealer prims) → Type 0 where
    as_plaintext : Opens plain none none
    as_sealed :
        (key : Bytes)
        → Opens (encrypted (key_id prims key)) (some key) (some (new_sealer prims key))

  opening-Opens :
      (claim : Claim) (key : Option Bytes) (sealer : Option (Sealer prims))
      → opening prims claim key ≡ ok sealer
      → Opens claim key sealer
  unfolding opening with_key
  opening-Opens rewriting key sealer h = cc
  opening-Opens broken key sealer h = cc
  opening-Opens plain none sealer h = subst (Opens plain none) (ground (arith, h)) as_plaintext
  opening-Opens plain (some key) sealer h = cc
  opening-Opens (encrypted store) none sealer h = cc
  opening-Opens (encrypted store) (some key) sealer h =
      elim (Bool-cases (text_eq (key_id prims key) store)) [
        | inl e ↦
            let made : some (new_sealer prims key) ≡ sealer = ground (arith, h, e) in
            subst (λ id. Opens (encrypted id) (some key) sealer)
              (text_eq→eq (key_id prims key) store e)
              (subst (Opens (encrypted (key_id prims key)) (some key)) made (as_sealed key))
        | inr e ↦ absurd (ground (arith, h, e))
      ]

  Opens-opening :
      (claim : Claim) (key : Option Bytes) (sealer : Option (Sealer prims))
      → Opens claim key sealer
      → opening prims claim key ≡ ok sealer
  unfolding opening with_key
  Opens-opening _ _ _ as_plaintext = refl
  Opens-opening _ _ _ (as_sealed key) = ground (arith, text_eq_refl (key_id prims key))

  -- A store opens in two ways and no other: as plaintext for a device without a key when it claims
  -- that it is not encrypted, and with the device's key when it claims encryption under that key's id.
  -- So a device with a key never opens a store as plaintext, whatever the store claims.
  pub opening_iff :
      (claim : Claim) (key : Option Bytes) (sealer : Option (Sealer prims))
      → (opening prims claim key ≡ ok sealer) ↔ Opens claim key sealer
  opening_iff claim key sealer = (opening-Opens claim key sealer, Opens-opening claim key sealer)
