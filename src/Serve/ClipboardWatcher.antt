-- ===== src/Serve/ClipboardWatcher.antt =====
-- Which clipboard texts and images are new (`ClipboardWatcher` of
-- crates/passalong-core/src/serve/clipboard_watcher.rs).
pub mod Again
use passalong.Prelude.{
  ℕ, ◌/◌, ◌%◌, ◌≡◌, Bool, false, Option, none, some, [], ◌∷◌, ◌++◌, is_empty, Text, text_eq,
  text_eq_refl, if◌then◌else◌, arith, Bool-cases, inl, inr,
}
use passalong.Model.Digest.{Bytes, Crates, digest_of}
use passalong.Model.FileName.{trim}

pub record RgbaImage : Type 0 where
  pub width : ℕ
  pub height : ℕ
  pub rgba : Bytes

pub record ClipboardWatcher : Type 0 where
  pub last : Option Bytes
  pub last_image : Option Bytes

-- `ClipboardWatcher::new`
unfoldable pub new : ClipboardWatcher
new = record { last = none; last_image = none }

-- `self.last == Some(digest)`
unfoldable pub is_last : Option Bytes → Bytes → Bool
is_last none digest = false
is_last (some d) digest = text_eq d digest

-- `u32::to_le_bytes`
unfoldable pub le_bytes : ℕ → Bytes
le_bytes n = n % 256 ∷ n / 256 % 256 ∷ n / 65536 % 256 ∷ n / 16777216 % 256 ∷ []

-- A text is bytes in UTF-8: `utf8` is `str::as_bytes`.
module _ (crates : Crates) (utf8 : Text → Bytes) where
  -- `text_digest`
  unfoldable pub text_digest : Text → Bytes
  text_digest text = (digest_of crates (utf8 text)).sha256

  -- `image_digest`: three updates, which hash what one of the joined bytes does
  unfoldable pub image_digest : RgbaImage → Bytes
  unfolding le_bytes
  image_digest image =
      (digest_of crates (le_bytes image.width ++ le_bytes image.height ++ image.rgba)).sha256

  -- The text that is reported, once the digest is not the last one
  unfoldable pub unless_blank : Text → Option Text
  unless_blank text = if is_empty (trim text) then none else some text

  -- `ClipboardWatcher::observe`
  unfoldable pub observe : ClipboardWatcher → Option Text → Option Text × ClipboardWatcher
  unfolding is_last unless_blank
  observe w none = (none, w)
  observe w (some text) =
      if is_last w.last (text_digest text)
      then (none, w)
      else (unless_blank text, record w { last = some (text_digest text) })

  -- `ClipboardWatcher::mark_text`
  unfoldable pub mark_text : ClipboardWatcher → Text → ClipboardWatcher
  mark_text w text = record w { last = some (text_digest text) }

  -- `ClipboardWatcher::observe_image`
  unfoldable pub observe_image :
      ClipboardWatcher → Option RgbaImage → Option RgbaImage × ClipboardWatcher
  unfolding is_last
  observe_image w none = (none, w)
  observe_image w (some image) =
      if is_last w.last_image (image_digest image)
      then (none, w)
      else (some image, record w { last_image = some (image_digest image) })

  -- `ClipboardWatcher::mark_image`
  unfoldable pub mark_image : ClipboardWatcher → RgbaImage → ClipboardWatcher
  mark_image w image = record w { last_image = some (image_digest image) }
