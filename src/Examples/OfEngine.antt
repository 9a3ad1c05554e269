-- ===== src/Examples/OfEngine.antt =====
-- A re-encryption of one item.
use passalong.Prelude.{
  ◌↔◌, ℕ, ◌≡◌, refl, ap, arith, Bool, true, false, Option, none, some, List, [], ◌∷◌, ◌++◌, map,
  All, length, Text, codes, Result, ok, err,
}
use mathlib.Core.List.{reverse}
use passalong.Model.Id.{ItemId, id_of}
use passalong.Model.Meta.{ItemMeta, ItemKind}
use passalong.Model.Digest.{Bytes, digest_of, sha256_hex}
use passalong.Model.Digest.Chunks.{concat}
use passalong.Store.Errors.{StoreError, corrupt}
use passalong.Encryption.Engine.{Rewrite, Reader, run_rewrite}
use passalong.Encryption.Engine.Verified.{RewriteLaws, Intact, run_rewrite-Intact}
use passalong.Examples.Parameters.{by_length, by_length-laws}

-- What is staged under the only id
abbrev Staging : Type 0
Staging = Option (List Bytes)

abbrev item : ItemId → ItemMeta ℕ
item id = record {
  schema = 1;
  id = id;
  kind = ItemKind.text;
  name = none;
  mime = codes "text/plain; charset=utf-8";
  size = 5;
  sha256 = sha256_hex by_length (digest_of by_length (codes "hello"));
  created_at = 10;
  device = codes "laptop";
  preview = none;
  origin = none;
}

abbrev id : ItemId
id = id_of (codes "2cf24dba5fb0") 10

abbrev is_staged : Staging → Bool
is_staged none = false
is_staged (some _) = true

abbrev staged_item : ItemId → Staging → Result StoreError (ItemMeta ℕ × Reader)
staged_item i none = err (corrupt i.repr [])
staged_item i (some pieces) = ok (item i, record { pieces = pieces; failure = none })

abbrev one_item : Rewrite ℕ Staging
one_item = record {
  list_ids = λ s. (ok (id ∷ []), s);
  get_meta = λ i s. (ok (item i), s);
  get = λ i s. (ok (item i, record { pieces = codes "hel" ∷ codes "lo" ∷ []; failure = none }), s);
  target_id = λ meta. ok meta.id;
  staged = λ i s. (ok (is_staged s), s);
  import_item = λ meta reader s. (ok meta, some reader.pieces);
  read_back = λ i s. (staged_item i s, s);
  heartbeat = λ s. (ok tt, s);
  heartbeat_every = 60;
  commit = λ s. (ok tt, s);
  now = λ s. 0;
}

abbrev stored : Staging → ItemId → Option Bytes
stored none i = none
stored (some pieces) i = some (concat pieces)

read_back-stored :
    (i : ItemId) (s s' : Staging) (meta : ItemMeta ℕ) (reader : Reader)
    → one_item.read_back i s ≡ (ok (meta, reader), s')
    → reader.failure ≡ none
    → stored s i ≡ some (concat reader.pieces)
read_back-stored i none s' meta reader h clean = cc (ap (λ x. x.0) h)
read_back-stored i (some pieces) s' meta reader h clean =
    let same : record { pieces = pieces; failure = none } ≡ reader = ground (arith, h) in
    λ j. some (concat (same j).pieces)

one_item-laws : RewriteLaws one_item stored
one_item-laws = record {
  get_meta-id = λ i s s' meta h. ground (arith, h);
  read_back-stored = read_back-stored;
  read_back-keeps = λ i s. refl;
  heartbeat-keeps = λ s. refl;
}

rewritten : run_rewrite by_length one_item none ≡ (ok 1, some (codes "hel" ∷ codes "lo" ∷ []))
unfolding run_rewrite passalong.Encryption.Engine.◌>>=◌ passalong.Prelude.text_eq sha256_hex
    passalong.Model.Digest.finalize passalong.Model.Hex.hex_fixed digest_of
    passalong.Model.Digest.hash_chunks
rewritten = refl

run_rewrite-Intact_example :
    (ids : List ItemId) × (metas : List (ItemMeta ℕ)) × (committed : Staging) × (◌≡◌
      {A = Result StoreError (List ItemId)}
      (ok (id ∷ []))
      (ok ids))
    × (map (λ meta. meta.id) metas ≡ reverse ids)
    × All (Intact one_item stored one_item-laws by_length (stored committed)) metas
    × (◌≡◌ {A = Result StoreError Unit × Staging}
        (ok tt, committed)
        (ok tt, some (codes "hel" ∷ codes "lo" ∷ [])))
    × (1 ≡ length metas)
run_rewrite-Intact_example =
    run_rewrite-Intact one_item stored one_item-laws by_length by_length-laws none
      (some (codes "hel" ∷ codes "lo" ∷ [])) 1 rewritten
