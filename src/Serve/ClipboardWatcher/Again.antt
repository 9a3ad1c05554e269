-- ===== src/Serve/ClipboardWatcher/Again.antt =====
-- Observing a text again (`ClipboardWatcher`).
use passalong.Prelude.{
  ◌≡◌, refl, ap, ◌∙◌, ◌⊎◌, true, Option, none, some, Text, text_eq_refl, arith, Bool-cases, inl,
  inr,
}
use passalong.Model.Digest.{Bytes, Crates}
use passalong.Serve.ClipboardWatcher.{
  ClipboardWatcher, RgbaImage, is_last, text_digest, observe, observe_image, mark_text, mark_image,
}

module _ (crates : Crates) (utf8 : Text → Bytes) where
  -- What happens to a watcher while no text comes: the clipboard has no text, or images are observed
  -- and marked, any number of times.
  pub data NoText (w : ClipboardWatcher) : ClipboardWatcher → Type 0 where
    at_once : NoText w w
    no_text : {v : ClipboardWatcher} → NoText w v → NoText w (observe crates utf8 v none).1
    observed :
        {v : ClipboardWatcher} (image : Option RgbaImage)
        → NoText w v
        → NoText w (observe_image crates utf8 v image).1
    marked :
        {v : ClipboardWatcher} (image : RgbaImage)
        → NoText w v
        → NoText w (mark_image crates utf8 v image)

  observe_image-last :
      (v : ClipboardWatcher) (image : Option RgbaImage)
      → (observe_image crates utf8 v image).1.last ≡ v.last
  unfolding observe_image
  observe_image-last v none = refl
  observe_image-last v (some image) = ground arith

  NoText-last : {w v : ClipboardWatcher} → NoText w v → v.last ≡ w.last
  unfolding observe mark_image
  NoText-last at_once = refl
  NoText-last (no_text s) = NoText-last s
  NoText-last (observed {v} image s) = observe_image-last v image ∙ NoText-last s
  NoText-last (marked image s) = NoText-last s

  knows-marked :
      (w : ClipboardWatcher) (text : Text)
      → is_last (mark_text crates utf8 w text).last (text_digest crates utf8 text) ≡ true
  unfolding mark_text is_last
  knows-marked w text = text_eq_refl (text_digest crates utf8 text)

  knows-observed :
      (w : ClipboardWatcher) (text : Text)
      → is_last (observe crates utf8 w (some text)).1.last (text_digest crates utf8 text) ≡ true
  unfolding observe
  knows-observed w text = elim (Bool-cases (is_last w.last (text_digest crates utf8 text))) [
    | inl e ↦ ground (arith, e)
    | inr e ↦ unfold is_last in ground (arith, e, text_eq_refl (text_digest crates utf8 text))
  ]

  -- A text that was marked, or observed, is not reported when it is observed next and changes nothing
  -- then, whatever happens in between as long as no text does.
  pub observe-again :
      (w v : ClipboardWatcher) (text : Text)
      → NoText (mark_text crates utf8 w text) v ⊎ NoText (observe crates utf8 w (some text)).1 v
      → observe crates utf8 v (some text) ≡ (none, v)
  unfolding observe
  observe-again w v text (inl s) = ground (
    arith,
    knows-marked w text,
    ap (λ l. is_last l (text_digest crates utf8 text)) (NoText-last s),
  )
  observe-again w v text (inr s) = ground (
    arith,
    knows-observed w text,
    ap (λ l. is_last l (text_digest crates utf8 text)) (NoText-last s),
  )
