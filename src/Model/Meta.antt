-- ===== src/Model/Meta.antt =====
-- Item metadata (`ItemKind`, `ItemOrigin`, `ItemMeta` and `NewItem` of
-- crates/passalong-core/src/model.rs). The mime_guess crate and chrono's formatting are parameters.
pub mod Finish
use passalong.Prelude.{
  ℕ, ◌≡◌, Bool, true, false, ◌&&◌, Option, none, some, List, [], ◌∷◌, ◌++◌, Text, text_eq, codes,
  Result, ok, ◌>>=◌,
}
use passalong.Model.Time.{Chrono}
use passalong.Model.Id
use passalong.Model.Id.{ItemId, ContentKey, ModelError}
use passalong.Model.Digest.{Crates, ContentDigest, content_key, sha256_hex}

abbrev pub text_mime : Text
text_mime = codes "text/plain; charset=utf-8"

abbrev pub image_mime : Text
image_mime = codes "image/png"

pub data ItemKind : Type 0 where
  text file : ItemKind

pub data ItemOrigin : Type 0 where
  clipboard : ItemOrigin

pub record ItemMeta (DateTime : Type 0) : Type 0 where
  pub schema : ℕ
  pub id : ItemId
  pub kind : ItemKind
  pub name : Option Text
  pub mime : Text
  pub size : ℕ
  pub sha256 : Text
  pub created_at : DateTime
  pub device : Text
  pub preview : Option Text
  pub origin : Option ItemOrigin

abbrev pub schema_version : ℕ
schema_version = 1

-- `ItemMeta::is_clipboard_image`
unfoldable pub is_clipboard_image : {T : Type 0} → ItemMeta T → Bool
is_clipboard_image meta = elim meta.origin [
  | none ↦ false
  | some clipboard ↦ text_eq meta.mime image_mime
]

pub record NewItem : Type 0 where
  pub kind : ItemKind
  pub name : Option Text
  pub mime : Text
  pub device : Text
  pub origin : Option ItemOrigin

-- `NewItem::text`
unfoldable pub new_text : Text → NewItem
new_text device = record {
  kind = text;
  name = none;
  mime = text_mime;
  device = device;
  origin = none;
}

-- `NewItem::file`; the guess of the MIME type is the mime_guess crate's.
unfoldable pub new_file : (Text → Text) → Text → Text → NewItem
new_file mime_for_file_name name device = record {
  kind = file;
  name = some name;
  mime = mime_for_file_name name;
  device = device;
  origin = none;
}

-- `NewItem::clipboard_image`; `name` is the creation time as chrono formats it.
unfoldable pub new_clipboard_image : Text → Text → NewItem
new_clipboard_image device name = record {
  kind = file;
  name = some name;
  mime = image_mime;
  device = device;
  origin = some clipboard;
}

module _ (chrono : Chrono) (crates : Crates) where
  open chrono use {DateTime}

  -- `NewItem::finish_keyed`
  unfoldable pub finish_keyed :
      NewItem
      → DateTime
      → ContentDigest
      → ContentKey
      → Option Text
      → Result ModelError (ItemMeta DateTime)
  finish_keyed item created_at digest key preview = do
    id ← Id.new chrono created_at key
    ok (record {
      schema = schema_version;
      created_at = Id.timestamp chrono id;
      id = id;
      kind = item.kind;
      name = item.name;
      mime = item.mime;
      size = digest.size;
      sha256 = sha256_hex crates digest;
      device = item.device;
      preview = preview;
      origin = item.origin;
    })

  -- `NewItem::finish`
  unfoldable pub finish :
      NewItem → DateTime → ContentDigest → Option Text → Result ModelError (ItemMeta DateTime)
  unfolding finish_keyed
  finish item created_at digest preview =
      finish_keyed item created_at digest (content_key crates digest) preview
