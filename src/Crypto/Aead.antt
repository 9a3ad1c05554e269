-- ===== src/Crypto/Aead.antt =====
-- The authenticated encryption of the aes-gcm crate, as a parameter: AES-256-GCM under the key of one
-- content (`DataKey::content_cipher`, which the hkdf crate derives from the key and the salt).
use passalong.Prelude.{ℕ, ◌+◌, ◌≤◌, ◌≡◌, Option, some, length}
use passalong.Model.Digest.{Bytes}

pub record Aead : Type 1 where
  pub Key : Type 0
  pub Cipher : Type 0
  pub content_cipher : Key → Bytes → Cipher
  -- `encrypt(nonce, plain)`: the ciphertext with its tag
  pub encrypt : Cipher → Bytes → Bytes → Option Bytes
  -- `decrypt(nonce, sealed)`
  pub decrypt : Cipher → Bytes → Bytes → Option Bytes

-- The documented behaviour: up to `limit` bytes are sealed without an error; a tag of sixteen bytes
-- is added; and `decrypt` accepts exactly what `encrypt` makes under the same key and nonce.
pub record AeadLaws (aead : Aead) (limit : ℕ) : Type 0 where
  pub sealed : aead.Cipher → Bytes → Bytes → Bytes
  pub encrypt_total :
      (c : aead.Cipher) (n p : Bytes) → length p ≤ limit → aead.encrypt c n p ≡ some (sealed c n p)
  pub sealed_length : (c : aead.Cipher) (n p : Bytes) → length (sealed c n p) ≡ length p + 16
  pub decrypt_sealed : (c : aead.Cipher) (n p : Bytes) → aead.decrypt c n (sealed c n p) ≡ some p
  pub decrypt_genuine :
      (c : aead.Cipher) (n s p : Bytes) → aead.decrypt c n s ≡ some p → s ≡ sealed c n p
