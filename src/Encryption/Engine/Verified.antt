-- ===== src/Encryption/Engine/Verified.antt =====
-- What the new items' folder holds when the re-encryption commits.
use mathlib.Core.Path.{subst}
use mathlib.Core.List.{reverse}
use passalong.Prelude.{
  ℕ, ◌-◌, leb, ◌≡◌, refl, sym, ap, ◌∙◌, Bool, true, false, Option, none, some, List, [], ◌∷◌, map,
  All, if◌then◌else◌, text_eq→eq, length, Result, ok, err, arith, inl, inr, Option-cases,
}
use passalong.Model.Digest.{Crates, CratesLaws, Bytes, ContentDigest, sha256_hex, digest_of}
use passalong.Model.Digest.Chunks.{concat, finalize-hash_chunks}
use passalong.Model.Id.{ItemId}
use passalong.Model.Meta.{ItemMeta}
use passalong.Store.Errors.{StoreError}
use passalong.Encryption.Engine.{
  Reader, continue, ◌>>=◌, lift, Rewrite, tick, stage_item, stage_all, check_digest, digest_read,
  verify, verify_all, run_rewrite,
}
use passalong.Encryption.Engine.Ends.{
  Ends, >>=-ok, Ends-bind, Ends-given, Ends-lift, Ends-ok, Ends-pure, Ends-result, Ends-weaken,
}

-- What is relied on: an id answers with its own metadata, what is read back is what is stored under
-- the id, and neither reading back nor a heartbeat changes what is stored.
pub record RewriteLaws {DateTime S : Type 0} (r : Rewrite DateTime S)
    (stored : S → ItemId → Option Bytes) : Type 0 where
  pub get_meta-id :
      (id : ItemId) (s s' : S) (meta : ItemMeta DateTime)
      → r.get_meta id s ≡ (ok meta, s')
      → meta.id ≡ id
  pub read_back-stored :
      (id : ItemId) (s s' : S) (meta : ItemMeta DateTime) (reader : Reader)
      → r.read_back id s ≡ (ok (meta, reader), s')
      → reader.failure ≡ none
      → stored s id ≡ some (concat reader.pieces)
  pub read_back-keeps : (id : ItemId) (s : S) → stored (r.read_back id s).1 ≡ stored s
  pub heartbeat-keeps : (s : S) → stored (r.heartbeat s).1 ≡ stored s

module _ {DateTime S : Type 0} (r : Rewrite DateTime S) (stored : S → ItemId → Option Bytes)
    (laws : RewriteLaws r stored) where
  abbrev Any : S → Type 0
  Any s = Unit

  tick-Any : (last : ℕ) → Ends Any (tick r last) (λ _ s. Unit)
  tick-Any last = Ends-result (tick r last) (λ s t a p e. tt)

  stage_all-ids :
      (ids : List ItemId) (last : ℕ)
      → Ends Any (stage_all r ids last) (λ found s. map (λ meta. meta.id) found.0 ≡ ids)
  unfolding stage_all
  stage_all-ids [] last = Ends-pure ([], last) (λ s p. refl)
  stage_all-ids (id ∷ ids) last =
      Ends-bind
        (Ends-result {Q = λ meta s. meta.id ≡ id} (r.get_meta id)
          (λ s t meta p e. laws.get_meta-id id s t meta e))
        λ meta. Ends-bind (Ends-lift (r.target_id meta)) λ target.
          Ends-bind (Ends-result {Q = λ b s. meta.id ≡ id} (r.staged target) (λ s t b p e. p.0))
            λ is_staged.
              Ends-bind
                (Ends-result {Q = λ u s. meta.id ≡ id} (stage_item r id is_staged) (λ s t u p e. p))
                λ u.
                  Ends-bind (Ends-result {Q = λ l s. meta.id ≡ id} (tick r last) (λ s t l p e. p))
                    λ last'.
                      Ends-bind (after meta last' (stage_all-ids ids last'))
                        λ rest. Ends-pure (meta ∷ rest.0, rest.1) (λ s p. λ i. p.0 i ∷ p.1 i)
    where
      after :
          (meta : ItemMeta DateTime) (l : ℕ)
          → Ends Any (stage_all r ids l) (λ found s. map (λ m. m.id) found.0 ≡ ids)
          → Ends
              (λ s. meta.id ≡ id)
              (stage_all r ids l)
              (λ found s. (meta.id ≡ id) × (map (λ m. m.id) found.0 ≡ ids))
      after meta l h =
          Ends-result (stage_all r ids l) (λ s t found p e. (p, Ends-ok s t found h tt e))

  module _ (crates : Crates) where
    -- The content stored under an item's new id has the digest and the size of its metadata.
    pub record Intact (at : ItemId → Option Bytes) (meta : ItemMeta DateTime) : Type 0 where
      pub id : ItemId
      pub bytes : Bytes
      pub is_target : r.target_id meta ≡ ok id
      pub is_stored : at id ≡ some bytes
      pub sha256 : sha256_hex crates (digest_of crates bytes) ≡ meta.sha256
      pub size : (digest_of crates bytes).size ≡ meta.size

    module _ (crates_laws : CratesLaws crates) (at : ItemId → Option Bytes) where
      abbrev Keeping : S → Type 0
      Keeping s = stored s ≡ at

      tick-Keeping : (last : ℕ) → Ends Keeping (tick r last) (λ _ s. Keeping s)
      unfolding tick ◌>>=◌
      tick-Keeping last = Ends-result (tick r last) λ s t l p e.
          ap stored (sym (ap (λ x. x.1) e)) ∙ kept (leb r.heartbeat_every (r.now s - last)) s ∙ p
        where
          after_heartbeat :
              (x : Result StoreError Unit × S)
              → stored (continue x (λ _ s'. (ok (r.now s'), s'))).1 ≡ stored x.1
          after_heartbeat (ok u, s) = refl
          after_heartbeat (err e, s) = refl

          kept :
              (due : Bool) (s : S)
              → stored
                  (if due
                    then continue (r.heartbeat s) (λ _ s'. (ok (r.now s'), s'))
                    else (ok last, s)).1
                ≡ stored s
          kept true s = after_heartbeat (r.heartbeat s) ∙ laws.heartbeat-keeps s
          kept false s = refl

      digest_read-ok :
          (reader : Reader) (digest : ContentDigest)
          → digest_read crates reader ≡ ok digest
          → (reader.failure ≡ none) × (digest ≡ digest_of crates (concat reader.pieces))
      unfolding digest_read
      digest_read-ok reader digest h = elim (Option-cases reader.failure) [
        | inl e ↦ (e, ground (arith, h, e, finalize-hash_chunks crates crates_laws reader.pieces))
        | inr (x, e) ↦ ground (arith, h, e)
      ]

      check_digest-ok :
          (meta : ItemMeta DateTime) (id : ItemId) (digest : ContentDigest)
          → check_digest crates meta id digest ≡ ok tt
          → (sha256_hex crates digest ≡ meta.sha256) × (digest.size ≡ meta.size)
      unfolding check_digest
      check_digest-ok meta id digest h =
          (ground (arith, h, text_eq→eq (sha256_hex crates digest) meta.sha256), ground (arith, h))

      verify-Intact :
          (meta : ItemMeta DateTime)
          → Ends Keeping (verify crates r meta) (λ _ s. Keeping s × Intact at meta)
      unfolding verify
      verify-Intact meta = Ends-bind (Ends-lift (r.target_id meta)) λ id.
          Ends-bind (read id) λ found. Ends-bind (Ends-lift (digest_read crates found.1)) λ digest.
            Ends-result (lift (check_digest crates meta id digest)) λ s t u p e.
              let (clean, digest_is) = digest_read-ok found.1 digest p.1 in
              let (sha256, size) = check_digest-ok meta id digest (ap (λ x. x.0) e) in
              (
                ap stored (sym (ap (λ x. x.1) e)) ∙ p.0.0,
                record {
                  id = id;
                  bytes = concat found.1.pieces;
                  is_target = p.0.1;
                  is_stored = p.0.2 clean;
                  sha256 = ap (sha256_hex crates) (sym digest_is) ∙ sha256;
                  size = ap (λ d. d.size) (sym digest_is) ∙ size;
                },
              )
        where
          read :
              (id : ItemId)
              → Ends
                  (λ s. Keeping s × (r.target_id meta ≡ ok id))
                  (r.read_back id)
                  (λ found s.
                    Keeping s
                    × (r.target_id meta ≡ ok id)
                    × (found.1.failure ≡ none → at id ≡ some (concat found.1.pieces)))
          read id = Ends-result (r.read_back id) λ s t found p e. (
            ap stored (sym (ap (λ x. x.1) e)) ∙ laws.read_back-keeps id s ∙ p.0,
            p.1,
            λ clean.
                ap (λ f. f id) (sym p.0) ∙ laws.read_back-stored id s t found.0 found.1 e clean,
          )

      verify_all-Intact :
          (metas : List (ItemMeta DateTime)) (last : ℕ)
          → Ends Keeping (verify_all crates r metas last) (λ _ s. Keeping s × All (Intact at) metas)
      unfolding verify_all
      verify_all-Intact [] last = Ends-pure last (λ s p. (p, tt))
      verify_all-Intact (meta ∷ metas) last = Ends-bind (verify-Intact meta) λ u.
          Ends-given λ intact.
            Ends-bind (tick-Keeping last)
              λ last'. Ends-weaken (verify_all-Intact metas last') (λ l s p. (p.0, (intact, p.1)))

    -- When `run_rewrite` ends well, its last step was the commit, in a state where every item that the
    -- source listed has its content under its new id, with the digest and the size of its metadata; and
    -- the number that it gives is that of the listed items.
    pub run_rewrite-Intact :
        CratesLaws crates
        → (s s' : S) (n : ℕ) → run_rewrite crates r s ≡ (ok n, s')
        → (ids : List ItemId) × (metas : List (ItemMeta DateTime)) × (committed : S) × ((r.list_ids
              s).0
            ≡ ok ids)
          × (map (λ meta. meta.id) metas ≡ reverse ids)
          × All (Intact (stored committed)) metas
          × (r.commit committed ≡ (ok tt, s'))
          × (n ≡ length metas)
    unfolding run_rewrite
    run_rewrite-Intact crates_laws s s' n h =
        let (ids, s1, e1, h1) = >>=-ok r.list_ids _ s s' n h in
        let (found, s2, e2, h2) = >>=-ok (stage_all r (reverse ids) (r.now s)) _ s1 s' n h1 in
        let (last, s3, e3, h3) = >>=-ok (verify_all crates r found.0 found.1) _ s2 s' n h2 in
        let (u, s4, e4, h4) = >>=-ok r.commit _ s3 s' n h3 in
        let same = Ends-ok s1 s2 found (stage_all-ids (reverse ids) (r.now s)) tt e2 in
        let verified =
          Ends-ok s2 s3 last (verify_all-Intact crates_laws (stored s2) found.0 found.1) refl e3 in
        (
          ids,
          found.0,
          s3,
          ap (λ x. x.0) e1,
          same,
          subst (λ at. All (Intact at) found.0) (sym verified.0) verified.1,
          e4 ∙ ap (λ x. (ok tt, x)) (ap (λ x. x.1) h4),
          ground (arith, ap (λ x. x.0) h4),
        )
