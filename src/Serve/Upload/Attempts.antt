-- ===== src/Serve/Upload/Attempts.antt =====
-- What one attempt of an upload sends.
use passalong.Prelude.{◌≡◌, true, false, none, some, ◌⊎◌, inl, inr, ok, arith, Result-cases}
use passalong.Model.Digest.{Bytes, Crates, digest_of}
use passalong.Model.Meta.{ItemMeta, NewItem}
use passalong.Serve.Upload.{JobOutcome, sent, already_present, Target, send_bytes}

module _ {DateTime : Type 0} (crates : Crates) where
  -- Text and images are sent as new items only when the store had no item with the content's key and
  -- its `put` created one, whose id the outcome names; any other success means that the content was
  -- there already, found by its key or by `put`.
  pub send_bytes-ok :
      (target : Target DateTime) (item : NewItem) (bytes : Bytes) (outcome : JobOutcome)
      → send_bytes crates target item bytes ≡ ok outcome
      → ((meta : ItemMeta DateTime) × (outcome ≡ sent meta.id)
          × (target.find_by_content_key (target.content_key (digest_of crates bytes)) ≡ ok none)
          × (target.put item bytes ≡ ok (meta, true)))
        ⊎ ((outcome ≡ already_present)
            × (((meta : ItemMeta DateTime) × (target.find_by_content_key
                      (target.content_key (digest_of crates bytes))
                    ≡ ok (some meta)))
                ⊎ ((meta : ItemMeta DateTime) × (target.put item bytes ≡ ok (meta, false)))))
  unfolding send_bytes
  send_bytes-ok target item bytes outcome h =
      elim (Result-cases
        (target.find_by_content_key (target.content_key (digest_of crates bytes)))) [
          | inl (e, f) ↦ ground (arith, h, f)
          | inr (some meta, f) ↦ inr (ground (arith, h, f), inl (meta, f))
          | inr (none, f) ↦ elim (Result-cases (target.put item bytes)) [
            | inl (e, g) ↦ ground (arith, h, f, g)
            | inr ((meta, true), g) ↦ inl (meta, ground (arith, h, f, g), f, g)
            | inr ((meta, false), g) ↦ inr (ground (arith, h, f, g), inr (meta, g))
          ]
        ]
