-- ===== src/Model/Meta/Finish.antt =====
-- What metadata says of its item once the content is hashed.
use passalong.Prelude.{arith, >>=-ok, ◌≡◌, true, Option, Text, ok}
use passalong.Model.Time.{Chrono, ChronoLaws}
use passalong.Model.Hex.{is_lower_hex}
use passalong.Model.Id
use passalong.Model.Id.{ItemId, ContentKey, ModelError, key_hex_len}
use passalong.Model.Id.RoundTrip.{IsValidId, parse-new}
use passalong.Model.Digest.{Crates, ContentDigest, sha256_hex}
use passalong.Model.Meta.{ItemMeta, NewItem, finish_keyed}

module _ (chrono : Chrono) (crates : Crates) where
  open chrono use {DateTime}

  -- Metadata that agrees with itself and with the digest of its content.
  pub record Describes (meta : ItemMeta DateTime) (digest : ContentDigest) : Type 0 where
    pub valid_id : IsValidId meta.id
    pub sized : meta.size ≡ digest.size
    pub hashed : meta.sha256 ≡ sha256_hex crates digest
    pub dated : meta.created_at ≡ Id.timestamp chrono meta.id

  module _ (laws : ChronoLaws chrono) where
    -- Metadata finished for a content key of twelve lowercase hexadecimal digits describes the
    -- digest under a valid id of that key, at the whole second of its creation, and keeps the item's
    -- kind, name, type, device, preview and origin.
    pub finish_keyed-Describes :
        (item : NewItem) (created_at : DateTime) (digest : ContentDigest) (key : ContentKey)
        (preview : Option Text) (meta : ItemMeta DateTime)
        → is_lower_hex key key_hex_len ≡ true
        → finish_keyed chrono crates item created_at digest key preview ≡ ok meta
        → Describes meta digest
          × (meta.id.key ≡ key)
          × (chrono.timestamp meta.created_at ≡ chrono.timestamp created_at)
          × (meta.kind ≡ item.kind)
          × (meta.name ≡ item.name)
          × (meta.mime ≡ item.mime)
          × (meta.device ≡ item.device)
          × (meta.preview ≡ preview)
          × (meta.origin ≡ item.origin)
    unfolding finish_keyed
    finish_keyed-Describes item created_at digest key preview meta hex h =
        let (id, rest, made) = >>=-ok _ (Id.new chrono created_at key) h in
        let (parsed, valid, keyed, when) = parse-new chrono laws created_at key id hex made in
        (
          record {
            valid_id = ground (arith, valid, rest);
            sized = ground (arith, rest);
            hashed = ground (arith, rest);
            dated = ground (arith, rest);
          },
          ground (arith, rest, keyed),
          ground (arith, rest, when),
          ground (arith, rest),
          ground (arith, rest),
          ground (arith, rest),
          ground (arith, rest),
          ground (arith, rest),
          ground (arith, rest),
        )
