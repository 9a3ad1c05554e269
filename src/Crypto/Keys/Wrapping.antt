-- ===== src/Crypto/Keys/Wrapping.antt =====
-- Opening wrapped keys and sealed metadata.
use mathlib.Core.Path.{subst}
use passalong.Prelude.{
  ◌≡◌, ◌↔◌, refl, sym, ap, ◌∙◌, some, ◌++◌, if◌then◌else◌, length, Text, text_eq, text_eq_refl,
  text_eq→eq, Result, ok, err, arith, inl, inr, Bool-cases, Option-cases, Result-cases, drop,
  drop-append,
}
use passalong.Model.Digest.{Bytes}
use passalong.Model.Id.{ItemId}
use passalong.Store.Errors.{CryptoError, authentication}
use passalong.Crypto.Keys.{
  Primitives, KdfParams, WrappedKey, SealedMeta, Sealer, key_len, key_id, key_aad, meta_aad, derive,
  wrap, unwrap, accepted, seal_meta, open_meta, aad_meta,
}

-- The documented behaviour of AES-256-GCM: `decrypt` accepts what `encrypt` made under the same key,
-- nonce and associated data, and nothing else.
pub record PrimitivesLaws (prims : Primitives) : Type 0 where
  pub decrypt_encrypt :
      (k n a m c : Bytes) → prims.encrypt k n a m ≡ some c → prims.decrypt k n a c ≡ some m
  pub decrypt_genuine :
      (k n a m c : Bytes) → prims.decrypt k n a c ≡ some m → prims.encrypt k n a m ≡ some c
  pub encrypt_binds :
      (k n a a' m m' c : Bytes)
      → prims.encrypt k n a m ≡ some c
      → prims.encrypt k n a' m' ≡ some c
      → a ≡ a'

module _ (prims : Primitives) (laws : PrimitivesLaws prims) where
  -- What a wrapped key holds of a key, under the words' derived key
  pub record Wraps (wrapped : WrappedKey) (words : Text) (key : Bytes) : Type 0 where
    pub wrapping : Bytes
    pub derived : derive prims wrapped.kdf words ≡ ok wrapping
    pub sealed :
        prims.encrypt wrapping wrapped.nonce (key_aad wrapped.key_id) key ≡ some wrapped.ciphertext
    pub size : length key ≡ key_len
    pub same_id : key_id prims key ≡ wrapped.key_id

  accepted-ok :
      (wrapped : WrappedKey) (plain key : Bytes)
      → accepted prims wrapped plain ≡ ok key
      → (plain ≡ key) × (length key ≡ key_len) × (key_id prims key ≡ wrapped.key_id)
  unfolding accepted
  accepted-ok wrapped plain key h =
      elim (Bool-cases (text_eq (key_id prims plain) wrapped.key_id)) [
        | inl e ↦
            let same : plain ≡ key = ground (arith, h, e) in
            (
              same,
              subst (λ k. length k ≡ key_len) same (ground (arith, h, e)),
              subst (λ k. key_id prims k ≡ wrapped.key_id) same (text_eq→eq _ _ e),
            )
        | inr e ↦ absurd (ground (arith, h, e))
      ]

  unwrap-Wraps :
      (wrapped : WrappedKey) (words : Text) (key : Bytes)
      → unwrap prims wrapped words ≡ ok key
      → Wraps wrapped words key
  unfolding unwrap
  unwrap-Wraps wrapped words key h = elim (Result-cases (derive prims wrapped.kdf words)) [
    | inl (x, e) ↦ absurd (ground (arith, h, e))
    | inr (wrapping, e) ↦
        elim (Option-cases
          (prims.decrypt wrapping wrapped.nonce (key_aad wrapped.key_id) wrapped.ciphertext)) [
            | inl f ↦ absurd (ground (arith, h, e, f))
            | inr (plain, f) ↦
                let (same, size, same_id) =
                  accepted-ok wrapped plain key (ground (arith, h, e, f)) in
                record {
                  wrapping = wrapping;
                  derived = e;
                  sealed =
                      laws.decrypt_genuine wrapping wrapped.nonce (key_aad wrapped.key_id) key
                        wrapped.ciphertext (f ∙ ap some same);
                  size = size;
                  same_id = same_id;
                }
          ]
  ]

  Wraps-unwrap :
      (wrapped : WrappedKey) (words : Text) (key : Bytes)
      → Wraps wrapped words key
      → unwrap prims wrapped words ≡ ok key
  unfolding unwrap accepted
  Wraps-unwrap wrapped words key w = ground (
    arith,
    w.derived,
    w.size,
    w.same_id,
    text_eq_refl (key_id prims key),
    ap (λ k. text_eq (key_id prims key) k) w.same_id,
    laws.decrypt_encrypt w.wrapping wrapped.nonce (key_aad wrapped.key_id) key wrapped.ciphertext
        w.sealed,
  )

  -- `unwrap` gives a key exactly when it is what the wrapped key holds: the key derived from the words
  -- seals it, with the recorded id as associated data, as the recorded ciphertext, and it has 32 bytes
  -- and the recorded id.
  pub unwrap_iff :
      (wrapped : WrappedKey) (words : Text) (key : Bytes)
      → (unwrap prims wrapped words ≡ ok key) ↔ Wraps wrapped words key
  unwrap_iff wrapped words key = (unwrap-Wraps wrapped words key, Wraps-unwrap wrapped words key)

  wrap-Wraps :
      (key : Bytes) (words : Text) (kdf : KdfParams) (nonce : Result CryptoError Bytes)
      (wrapped : WrappedKey)
      → length key ≡ key_len
      → wrap prims key words kdf nonce ≡ ok wrapped
      → Wraps wrapped words key
  unfolding wrap
  wrap-Wraps key words kdf nonce wrapped size h = elim (Result-cases (derive prims kdf words)) [
    | inl (x, e) ↦ absurd (ground (arith, h, e))
    | inr (wrapping, e) ↦ elim (Result-cases nonce) [
      | inl (x, f) ↦ absurd (ground (arith, h, e, f))
      | inr (n, f) ↦
          elim (Option-cases (prims.encrypt wrapping n (key_aad (key_id prims key)) key)) [
            | inl g ↦ absurd (ground (arith, h, e, f, g))
            | inr (c, g) ↦
                let made : WrappedKey = record {
                  key_id = key_id prims key;
                  kdf = kdf;
                  nonce = n;
                  ciphertext = c;
                } in
                let is_made : made ≡ wrapped = ground (arith, h, e, f, g) in
                subst (λ x. Wraps x words key) is_made
                  (record {
                    wrapping = wrapping;
                    derived = e;
                    sealed = g;
                    size = size;
                    same_id = refl;
                  })
          ]
    ]
  ]

  -- The words that wrapped a key unwrap it.
  pub unwrap-wrap :
      (key : Bytes) (words : Text) (kdf : KdfParams) (nonce : Result CryptoError Bytes)
      (wrapped : WrappedKey)
      → length key ≡ key_len
      → wrap prims key words kdf nonce ≡ ok wrapped
      → unwrap prims wrapped words ≡ ok key
  unwrap-wrap key words kdf nonce wrapped size h =
      Wraps-unwrap wrapped words key (wrap-Wraps key words kdf nonce wrapped size h)

  meta_aad_injective : (id id' : ItemId) → meta_aad id ≡ meta_aad id' → id.repr ≡ id'.repr
  unfolding meta_aad
  meta_aad_injective id id' h =
      sym (drop-append aad_meta id.repr {n = length aad_meta} refl)
      ∙ ap (drop (length aad_meta)) h
      ∙ drop-append aad_meta id'.repr {n = length aad_meta} refl

  opens :
      (s : Sealer prims) (id id' : ItemId) (plain n c : Bytes)
      → prims.encrypt s.meta n (meta_aad id) plain ≡ some c
      → open_meta prims s id' (record { nonce = n; ciphertext = c })
        ≡ (if text_eq id.repr id'.repr then ok plain else err authentication)
  unfolding open_meta meta_aad
  opens s id id' plain n c f = elim (Bool-cases (text_eq id.repr id'.repr)) [
    | inl e ↦
        let same : prims.encrypt s.meta n (meta_aad id') plain ≡ some c =
          subst (λ r. prims.encrypt s.meta n (aad_meta ++ r) plain ≡ some c) (text_eq→eq _ _ e) f in
        ground (arith, e, laws.decrypt_encrypt s.meta n (meta_aad id') plain c same)
    | inr e ↦ elim (Option-cases (prims.decrypt s.meta n (meta_aad id') c)) [
      | inl g ↦ ground (arith, e, g)
      | inr (m, g) ↦
          let bound =
            laws.encrypt_binds s.meta n (meta_aad id) (meta_aad id') plain m c f
              (laws.decrypt_genuine s.meta n (meta_aad id') m c g) in
          absurd (
            ground (
              arith,
              e,
              text_eq_refl id.repr,
              ap (text_eq id.repr) (meta_aad_injective id id' bound),
            ))
    ]
  ]

  -- Metadata sealed for an id opens for the ids of the same text, to what was sealed, and for no other
  -- id.
  pub open_meta-seal_meta :
      (s : Sealer prims) (id id' : ItemId) (plain : Bytes) (nonce : Result CryptoError Bytes)
      (sealed : SealedMeta)
      → seal_meta prims s id plain nonce ≡ ok sealed
      → open_meta prims s id' sealed
        ≡ (if text_eq id.repr id'.repr then ok plain else err authentication)
  unfolding seal_meta open_meta
  open_meta-seal_meta s id id' plain nonce sealed h = elim (Result-cases nonce) [
    | inl (x, e) ↦ absurd (ground (arith, h, e))
    | inr (n, e) ↦ elim (Option-cases (prims.encrypt s.meta n (meta_aad id) plain)) [
      | inl f ↦ absurd (ground (arith, h, e, f))
      | inr (c, f) ↦
          let made : SealedMeta = record { nonce = n; ciphertext = c } in
          let is_made : made ≡ sealed = ground (arith, h, e, f) in
          subst
            (λ x.
              open_meta prims s id' x
              ≡ (if text_eq id.repr id'.repr then ok plain else err authentication))
            is_made (opens s id id' plain n c f)
    ]
  ]
