-- ===== src/Model/Digest/Chunks.antt =====
-- The digest of a streamed content and its pieces.
use mathlib.Core.List.{append-nil, append_assoc}
use passalong.Prelude.{
  ◌+◌, ◌*◌, ◌%◌, ◌≡◌, sym, ap, ◌∙◌, List, [], ◌∷◌, ◌++◌, arith, length, take, length-append,
  length-take, true,
}
use passalong.Model.Hex.{is_lower_hex}
use passalong.Model.Id.{key_hex_len}
use passalong.Model.Digest.{
  Bytes, Crates, CratesLaws, ContentHasher, u64_mod, new, update, finalize, digest_of, hash_chunks,
  content_key,
}

-- The pieces of a content, joined.
pub concat : List Bytes → Bytes
concat [] = []
concat (chunk ∷ rest) = chunk ++ concat rest

module _ (crates : Crates) (laws : CratesLaws crates) where
  update-update :
      (h : ContentHasher crates) (a b : Bytes)
      → update crates (update crates h a) b ≡ update crates h (a ++ b)
  unfolding update
  update-update h a b = λ i. record { inner = laws.update_append h.inner a b i; size = sizes i }
    where
      sizes :
          ((h.size + length a) % u64_mod + length b) % u64_mod
          ≡ (h.size + length (a ++ b)) % u64_mod
      sizes = omega (arith, length-append a b)

  hash_chunks-update :
      (h : ContentHasher crates) (chunk : Bytes) (rest : List Bytes)
      → hash_chunks crates (update crates h chunk) rest ≡ update crates h (chunk ++ concat rest)
  unfolding hash_chunks concat
  hash_chunks-update h chunk [] = ap (update crates h) (sym (append-nil chunk))
  hash_chunks-update h chunk (next ∷ rest) =
      ap (λ k. hash_chunks crates k rest) (update-update h chunk next)
      ∙ hash_chunks-update h (chunk ++ next) rest
      ∙ ap (update crates h) (append_assoc chunk next (concat rest))

  -- The digest of a content read piece by piece is the digest of the content.
  pub finalize-hash_chunks :
      (chunks : List Bytes)
      → finalize crates (hash_chunks crates (new crates) chunks) ≡ digest_of crates (concat chunks)
  unfolding digest_of hash_chunks concat update new
  finalize-hash_chunks [] =
      ap (finalize crates)
        (λ i. record { inner = sym (laws.update_nil crates.sha_new) i; size = 0 })
  finalize-hash_chunks (chunk ∷ rest) =
      ap (finalize crates) (hash_chunks-update (new crates) chunk rest)

  -- The content key of any digest made by the hasher is twelve lowercase hexadecimal digits.
  pub content_key-is_lower_hex :
      (h : ContentHasher crates)
      → is_lower_hex (content_key crates (finalize crates h)) key_hex_len ≡ true
  unfolding content_key finalize
  content_key-is_lower_hex h =
      let sha256 = crates.sha_finalize h.inner in
      let size : 2 * length (take 6 sha256) ≡ key_hex_len =
        omega (arith, length-take 6 sha256, laws.digest_length h.inner) in
      rw size at (laws.hex_encode-is_lower_hex (take 6 sha256))
