-- ===== src/Model/Digest.antt =====
-- Content digests (`ContentHasher` and `ContentDigest` of crates/passalong-core/src/model.rs). The
-- sha2 and hex crates are a parameter.
pub mod Chunks
use passalong.Prelude.{
  ℕ, ◌+◌, ◌*◌, ◌%◌, ◌^◌, ◌≡◌, Bool, true, false, ◌&&◌, List, [], ◌∷◌, ◌++◌, ◌==◌, length, take,
  Text, text_eq,
}
use passalong.Model.Hex.{is_lower_hex}
use passalong.Model.Id.{ContentKey}

abbrev pub Bytes : Type 0
Bytes = List ℕ

pub record Crates : Type 1 where
  -- `Sha256`: its state, `new`, `update` and `finalize`
  pub Sha256 : Type 0
  pub sha_new : Sha256
  pub sha_update : Sha256 → Bytes → Sha256
  pub sha_finalize : Sha256 → Bytes
  -- `hex::encode`
  pub hex_encode : Bytes → Text

-- The documented behaviour: hashing two pieces is hashing them joined, and every byte is two
-- lowercase hexadecimal digits.
pub record CratesLaws (crates : Crates) : Type 0 where
  pub update_append :
      (s : crates.Sha256) (a b : Bytes)
      → crates.sha_update (crates.sha_update s a) b ≡ crates.sha_update s (a ++ b)
  pub update_nil : (s : crates.Sha256) → crates.sha_update s [] ≡ s
  pub digest_length : (s : crates.Sha256) → length (crates.sha_finalize s) ≡ 32
  pub hex_encode-is_lower_hex :
      (b : Bytes) → is_lower_hex (crates.hex_encode b) (2 * length b) ≡ true

pub record ContentDigest : Type 0 where
  pub sha256 : Bytes
  pub size : ℕ

abbrev pub u64_mod : ℕ
u64_mod = 2 ^ 64

module _ (crates : Crates) where
  open crates use {Sha256, sha_new, sha_update, sha_finalize, hex_encode}

  pub record ContentHasher : Type 0 where
    pub inner : Sha256
    pub size : ℕ

  -- `ContentHasher::new`
  unfoldable pub new : ContentHasher
  new = record { inner = sha_new; size = 0 }

  -- `ContentHasher::update`, with the addition in 64 bits
  unfoldable pub update : ContentHasher → Bytes → ContentHasher
  update h bytes = record {
    inner = sha_update h.inner bytes;
    size = (h.size + length bytes) % u64_mod;
  }

  -- `ContentHasher::finalize`
  unfoldable pub finalize : ContentHasher → ContentDigest
  finalize h = record { sha256 = sha_finalize h.inner; size = h.size }

  -- `ContentKey::from_sha256`: the first six bytes
  unfoldable pub from_sha256 : Bytes → ContentKey
  from_sha256 sha256 = hex_encode (take 6 sha256)

  -- `ContentDigest::content_key`
  unfoldable pub content_key : ContentDigest → ContentKey
  unfolding from_sha256
  content_key digest = from_sha256 digest.sha256

  -- `ContentDigest::sha256_hex`
  unfoldable pub sha256_hex : ContentDigest → Text
  sha256_hex digest = hex_encode digest.sha256

  -- The digest of bytes held in memory, as `read_verified` and `send_text` compute it.
  unfoldable pub digest_of : Bytes → ContentDigest
  unfolding new update finalize
  digest_of bytes = finalize (update new bytes)

  -- A content read in pieces of any sizes: the loop of `copy`, `stream_to` and `verify`.
  unfoldable pub hash_chunks : ContentHasher → List Bytes → ContentHasher
  unfolding update
  hash_chunks h [] = h
  hash_chunks h (chunk ∷ rest) = hash_chunks (update h chunk) rest
