-- ===== src/Serve/Upload.antt =====
-- Sending one queued job until it succeeds or `serve` stops
-- (crates/passalong-core/src/serve/upload.rs). What the world does to an attempt is a round: what the
-- attempt gave, whether the wait before the next one was cut short, and whether the store opened again.
pub mod Retries
pub mod Attempts
use passalong.Prelude.{
  ℕ, ◌≡◌, Bool, true, false, Option, none, some, List, [], ◌∷◌, if◌then◌else◌, Text, Result, ok,
  err, ◌>>=◌,
}
use passalong.Model.Digest.{Bytes, Crates, ContentDigest, digest_of}
use passalong.Model.Id.{ItemId, ContentKey}
use passalong.Model.Meta.{ItemMeta, NewItem, new_text, new_file, new_clipboard_image}
use passalong.Store.Errors.{StoreError, denied, content}
use passalong.Serve.Backoff
use passalong.Serve.Backoff.{Backoff}

pub data JobOutcome : Type 0 where
  sent : ItemId → JobOutcome
  already_present skipped abandoned : JobOutcome
  refused : Text → JobOutcome

pub data Failure : Type 0 where
  local : Text → Failure
  store : StoreError → Failure

pub record Round : Type 0 where
  -- `none` when `serve` was stopped during the attempt
  pub attempt : Option (Result Failure JobOutcome)
  pub slept : Bool
  pub reopened : Result StoreError Unit

-- What ends the job after the wait: `serve` stopped, or the store refused the device.
unfoldable pub after_wait : Round → Option JobOutcome
after_wait r =
    if r.slept
    then elim r.reopened [ err (denied message) ↦ some (refused message) | _ ↦ none ]
    else some abandoned

-- What ends the job before any wait; `none` when it is to be tried again.
unfoldable pub at_once : Option (Result Failure JobOutcome) → Option JobOutcome
at_once none = some abandoned
at_once (some (ok outcome)) = some outcome
at_once (some (err (local message))) = some skipped
at_once (some (err (store (denied message)))) = some (refused message)
at_once (some (err (store e))) = none

-- `handle_with_retries`: the delays waited for, and the outcome; no outcome when it is still trying
-- after these rounds. The logging, with its flag for a re-encryption, is left out.
unfoldable pub handle_with_retries : Backoff → List Round → List ℕ × Option JobOutcome
unfolding at_once after_wait
handle_with_retries b [] = ([], none)
handle_with_retries b (r ∷ rounds) =
    let (delay, b') = Backoff.next_delay b in
    let (delays, outcome) = handle_with_retries b' rounds in
    elim (at_once r.attempt) [
      | some done ↦ ([], some done)
      | none ↦ elim (after_wait r) [
        | some done ↦ (delay ∷ [], some done)
        | none ↦ (delay ∷ delays, outcome)
      ]
    ]

-- What an upload uses of its store: the answers of one connection. `put` gives the metadata, and
-- whether the item was created.
pub record Target (DateTime : Type 0) : Type 0 where
  pub content_key : ContentDigest → ContentKey
  pub find_by_content_key : ContentKey → Result StoreError (Option (ItemMeta DateTime))
  pub put : NewItem → Bytes → Result StoreError (ItemMeta DateTime × Bool)

abbrev pub or_store : {A : Type 0} → Result StoreError A → Result Failure A
or_store (ok a) = ok a
or_store (err e) = err (store e)

-- A failure of the local file's reading is the file's.
abbrev pub or_local : {A : Type 0} → Result StoreError A → Result Failure A
or_local (ok a) = ok a
or_local (err (content message)) = err (local message)
or_local (err e) = err (store e)

module _ {DateTime : Type 0} (crates : Crates) where
  unfoldable pub outcome_of : ItemMeta DateTime × Bool → JobOutcome
  outcome_of (meta, created) = if created then sent meta.id else already_present

  -- The upload, unless the content is already there
  unfoldable pub put_unless :
      Target DateTime → NewItem → Bytes → Option (ItemMeta DateTime) → Result Failure JobOutcome
  unfolding outcome_of
  put_unless target item bytes (some existing) = ok already_present
  put_unless target item bytes none = or_store (target.put item bytes) >>= λ r. ok (outcome_of r)

  -- `send_text` and `send_image`, behind the encoding of the content
  unfoldable pub send_bytes : Target DateTime → NewItem → Bytes → Result Failure JobOutcome
  unfolding put_unless
  send_bytes target item bytes =
      or_store (target.find_by_content_key (target.content_key (digest_of crates bytes)))
      >>= put_unless target item bytes

  -- `send_text`; the text is its bytes.
  unfoldable pub send_text : Target DateTime → Text → Bytes → Result Failure JobOutcome
  unfolding send_bytes
  send_text target device text = send_bytes target (new_text device) text

  -- `send_image`, with the PNG encoding's result and the name chrono formats
  unfoldable pub send_image :
      Target DateTime → Text → Text → Result Text Bytes → Result Failure JobOutcome
  unfolding send_bytes
  send_image target device name (ok png) = send_bytes target (new_clipboard_image device name) png
  send_image target device name (err message) = err (local message)

  -- `send_file`: the file's name where it has one, and its bytes where it opens. What becomes of the
  -- file afterwards is left out.
  unfoldable pub send_file :
      (Text → Text)
      → Target DateTime
      → Text
      → Option Text
      → Result Text Bytes
      → Result Failure JobOutcome
  unfolding outcome_of
  send_file mime target device none opened = err (local [])
  send_file mime target device (some name) (err message) = err (local message)
  send_file mime target device (some name) (ok bytes) =
      or_local (target.put (new_file mime name device) bytes) >>= λ r. ok (outcome_of r)
