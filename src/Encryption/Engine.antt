-- ===== src/Encryption/Engine.antt =====
-- The engine that re-encrypts every item (`Rewrite`, `run_rewrite`, `KeepAlive` and `verify` of
-- crates/passalong-core/src/encryption/admin_trait.rs). The implementation and the clock are a state
-- with operations on it; a reader is the pieces that it gives until its end or a failure.
pub mod Ends
pub mod Verified
use passalong.Prelude.{
  ℕ, ◌-◌, leb, ◌==◌, Bool, true, false, ◌||◌, not, Option, none, some, List, [], ◌∷◌, if◌then◌else◌,
  Text, text_eq, length, Result, ok, err,
}
use mathlib.Core.List.{reverse}
use passalong.Model.Digest
use passalong.Model.Digest.{Crates, Bytes, ContentDigest, hash_chunks, finalize, sha256_hex}
use passalong.Model.Id.{ItemId}
use passalong.Model.Meta.{ItemMeta}
use passalong.Store.Errors.{StoreError, corrupt, content}

-- `HEARTBEAT_EVERY`, in seconds: what an implementation has where it does not say otherwise
abbrev pub default_heartbeat_every : ℕ
default_heartbeat_every = 60

pub record Reader : Type 0 where
  pub pieces : List Bytes
  pub failure : Option Text

-- An operation of the implementation
abbrev pub Op : Type 0 → Type 0 → Type 0
Op S A = S → Result StoreError A × S

module _ {S A B : Type 0} where
  abbrev pub continue : Result StoreError A × S → (A → Op S B) → Result StoreError B × S
  continue (ok a, s) f = f a s
  continue (err e, s) f = (err e, s)

  infixl 10 ◌>>=◌ ◌>>◌
  unfoldable pub ◌>>=◌ : Op S A → (A → Op S B) → Op S B
  (m >>= f) s = continue (m s) f

  abbrev pub ◌>>◌ : Op S A → Op S B → Op S B
  m >> n = m >>= λ _. n

module _ {S A : Type 0} where
  abbrev pub pure : A → Op S A
  pure a s = (ok a, s)

  abbrev pub lift : Result StoreError A → Op S A
  lift r s = (r, s)

-- `Rewrite`, with the operations of its source that are used, and the seconds that its clock shows
pub record Rewrite (DateTime S : Type 0) : Type 0 where
  pub list_ids : Op S (List ItemId)
  pub get_meta : ItemId → Op S (ItemMeta DateTime)
  pub get : ItemId → Op S (ItemMeta DateTime × Reader)
  pub target_id : ItemMeta DateTime → Result StoreError ItemId
  pub staged : ItemId → Op S Bool
  pub import_item : ItemMeta DateTime → Reader → Op S (ItemMeta DateTime)
  pub read_back : ItemId → Op S (ItemMeta DateTime × Reader)
  pub heartbeat : Op S Unit
  pub heartbeat_every : ℕ
  pub commit : Op S Unit
  pub now : S → ℕ

module _ (crates : Crates) where
  -- The end of `verify`
  unfoldable pub check_digest :
      {DateTime : Type 0} → ItemMeta DateTime → ItemId → ContentDigest → Result StoreError Unit
  check_digest meta id digest =
      if not (text_eq (sha256_hex crates digest) meta.sha256) || not (digest.size == meta.size)
      then err (corrupt id.repr [])
      else ok tt

  -- The reading loop of `verify`
  unfoldable pub digest_read : Reader → Result StoreError ContentDigest
  digest_read reader = elim reader.failure [
    | some e ↦ err (content e)
    | none ↦ ok (finalize crates (hash_chunks crates (Digest.new crates) reader.pieces))
  ]

module _ {DateTime S : Type 0} where
  -- `KeepAlive::tick`, from the time of the last heartbeat to the next
  unfoldable pub tick : Rewrite DateTime S → ℕ → Op S ℕ
  tick r last s =
      if leb r.heartbeat_every (r.now s - last)
      then (r.heartbeat >>= λ _ s'. (ok (r.now s'), s')) s
      else (ok last, s)

  -- An item that is not staged yet is sealed under the new key.
  unfoldable pub stage_item : Rewrite DateTime S → ItemId → Bool → Op S Unit
  stage_item r id true = pure tt
  stage_item r id false = do found ← r.get id; imported ← r.import_item found.0 found.1; pure tt

  -- The loop over the source's items
  unfoldable pub stage_all :
      Rewrite DateTime S → List ItemId → ℕ → Op S (List (ItemMeta DateTime) × ℕ)
  unfolding stage_item tick
  stage_all r [] last = pure ([], last)
  stage_all r (id ∷ ids) last = do
    meta ← r.get_meta id
    target ← lift (r.target_id meta)
    is_staged ← r.staged target
    stage_item r id is_staged
    last' ← tick r last
    rest ← stage_all r ids last'
    pure (meta ∷ rest.0, rest.1)

  module _ (crates : Crates) where
    -- `verify`
    unfoldable pub verify : Rewrite DateTime S → ItemMeta DateTime → Op S Unit
    unfolding check_digest digest_read
    verify r meta = do
      id ← lift (r.target_id meta)
      found ← r.read_back id
      digest ← lift (digest_read crates found.1)
      lift (check_digest crates meta id digest)

    -- The loop over the new items
    unfoldable pub verify_all : Rewrite DateTime S → List (ItemMeta DateTime) → ℕ → Op S ℕ
    unfolding verify tick
    verify_all r [] last = pure last
    verify_all r (meta ∷ metas) last = do
      verify r meta
      last' ← tick r last
      verify_all r metas last'

    -- `run_rewrite`
    unfoldable pub run_rewrite : Rewrite DateTime S → Op S ℕ
    unfolding stage_all verify_all
    run_rewrite r s =
        (r.list_ids >>= λ ids. stage_all r (reverse ids) (r.now s) >>= λ found.
        verify_all r found.0 found.1 >>= λ last. r.commit >>= λ done. pure (length found.0))
          s
