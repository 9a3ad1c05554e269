-- ===== src/Examples/OfServe.antt =====
-- Retries, the clipboard, the drop folder, pulling and the list cache.
use passalong.Prelude.{
  inr, ◌^◌, ◌-◌, ◌≤◌, ◌≡◌, ◌⊎◌, refl, min, true, false, ◌&&◌, ◌||◌, any, none, some, [], ◌∷◌, ◌++◌,
  All, Text, text_eq, codes, ok, err, ℤ, pos, arith,
}
use passalong.Model.Digest.{digest_of, content_key}
use passalong.Model.Id.{ItemId, id_of, id_eq}
use passalong.Model.Meta.{ItemMeta, ItemKind, new_text}
use passalong.Retention.Selection.{NewestFirst}
use passalong.Store.Errors.{StoreError}
use passalong.Store.Api.{Store}
use passalong.Cache.{ListCache, meta_id, has_id, has_item, refresh}
use passalong.Cache.Fresh.{answers, refresh-ok}
use passalong.Fs
use passalong.Fs.{RemotePath, as_str}
use passalong.Fs.Confined.{IsConfined, new-IsConfined}
use passalong.Serve.Backoff.{
  Backoff, next_delay, after_attempts, reset, max_delay, next_delay-after_attempts,
}
use passalong.Serve.ClipboardWatcher.{ClipboardWatcher, RgbaImage, observe, observe_image}
use passalong.Serve.ClipboardWatcher.Again.{at_once, observed, observe-again}
use passalong.Serve.DropTracker.{
  FileState, Candidate, InFlight, DropTracker, get, track, is_fixed, is_present,
}
use passalong.Serve.DropTracker
use passalong.Serve.DropTracker.Ready.{track-ready, observe-in_flight}
use passalong.Serve.Pull.{effect_id, Puller, Surroundings, poll}
use passalong.Serve.Pull.Often.{times, is_of}
use passalong.Serve.Pull.Once.{poll-once}
use passalong.Serve.Upload.{
  JobOutcome, sent, already_present, Round, Target, store, handle_with_retries, send_bytes,
}
use passalong.Serve.Upload.Attempts.{send_bytes-ok}
use passalong.Serve.Upload.Retries.{delays_from, handle_with_retries-append}
use passalong.Examples.Parameters.{by_length}

abbrev fresh_backoff : Backoff
fresh_backoff = record { next = 8 }

next_delay-after_attempts_example :
    (next_delay (after_attempts 7 (reset fresh_backoff))).0 ≡ min (2 ^ 7) max_delay
next_delay-after_attempts_example = next_delay-after_attempts 7 fresh_backoff

abbrev failed : Round
failed = record {
  attempt = some (err (store (StoreError.backend (codes "connection reset"))));
  slept = true;
  reopened = ok tt;
}

abbrev succeeded : Round
succeeded = record { attempt = some (ok already_present); slept = true; reopened = ok tt }

handle_with_retries-append_example :
    handle_with_retries (reset fresh_backoff) (failed ∷ failed ∷ succeeded ∷ []) ≡ (
      delays_from 0 2
          ++ (handle_with_retries (after_attempts 2 (reset fresh_backoff)) (succeeded ∷ [])).0,
      (handle_with_retries (after_attempts 2 (reset fresh_backoff)) (succeeded ∷ [])).1,
    )
unfolding passalong.Serve.Upload.at_once passalong.Serve.Upload.after_wait
handle_with_retries-append_example =
    handle_with_retries-append fresh_backoff (failed ∷ failed ∷ []) (succeeded ∷ [])
      ((refl, refl), ((refl, refl), tt))

abbrev meta : ItemMeta ℤ
meta = record {
  schema = 1;
  id = id_of (codes "2cf24dba5fb0") 1000;
  kind = ItemKind.text;
  name = none;
  mime = codes "text/plain; charset=utf-8";
  size = 5;
  sha256 = [];
  created_at = pos 1000;
  device = codes "phone";
  preview = none;
  origin = none;
}

abbrev empty_target : Target ℤ
empty_target = record {
  content_key = content_key by_length;
  find_by_content_key = λ key. ok none;
  put = λ item bytes. ok (meta, true);
}

is_sent :
    send_bytes by_length empty_target (new_text (codes "laptop")) (codes "hello")
    ≡ ok (sent meta.id)
unfolding send_bytes
is_sent = refl

send_bytes-ok_example :
    ((m : ItemMeta ℤ) × (sent meta.id ≡ sent m.id)
      × (empty_target.find_by_content_key
            (empty_target.content_key (digest_of by_length (codes "hello")))
          ≡ ok none)
      × (empty_target.put (new_text (codes "laptop")) (codes "hello") ≡ ok (m, true)))
    ⊎ ((sent meta.id ≡ already_present)
        × (((m : ItemMeta ℤ) × (empty_target.find_by_content_key
                  (empty_target.content_key (digest_of by_length (codes "hello")))
                ≡ ok (some m)))
            ⊎ ((m : ItemMeta ℤ) × (empty_target.put (new_text (codes "laptop")) (codes "hello")
                  ≡ ok (m, false)))))
send_bytes-ok_example =
    send_bytes-ok by_length empty_target (new_text (codes "laptop")) (codes "hello") (sent meta.id)
      is_sent

abbrev watcher : ClipboardWatcher
watcher = record { last = none; last_image = none }

abbrev pixel : RgbaImage
pixel = record { width = 1; height = 1; rgba = 0 ∷ 0 ∷ 0 ∷ 255 ∷ [] }

abbrev seen_hello : ClipboardWatcher
seen_hello = (observe by_length (λ t. t) watcher (some (codes "hello"))).1

abbrev seen_pixel : ClipboardWatcher
seen_pixel = (observe_image by_length (λ t. t) seen_hello (some pixel)).1

observe-again_example :
    observe by_length (λ t. t) seen_pixel (some (codes "hello")) ≡ (none, seen_pixel)
observe-again_example =
    observe-again by_length (λ t. t) watcher seen_pixel (codes "hello")
      (inr (observed (some pixel) at_once))

abbrev notes : FileState
notes = record { path = codes "notes.txt"; size = 5; modified = 10 }

abbrev settling : DropTracker
settling = record {
  stable_wait = 2;
  candidates = (codes "notes.txt", record { size = 5; modified = 10; since = 20 }) ∷ [];
  in_flight = [];
}

ready : (track settling notes 30).0 ≡ some (codes "notes.txt")
unfolding track get text_eq
ready = refl

track-ready_example :
    (codes "notes.txt" ≡ codes "notes.txt")
    × ((seen : Candidate) × (get settling.candidates (codes "notes.txt") ≡ some seen)
        × (seen.size ≡ 5)
        × (seen.modified ≡ 10)
        × (2 ≤ 30 - seen.since))
    × ((get settling.in_flight (codes "notes.txt") ≡ none)
        ⊎ ((s : InFlight) × (get settling.in_flight (codes "notes.txt") ≡ some s)
            × (is_fixed notes s ≡ true)))
    × (get (track settling notes 30).1.in_flight (codes "notes.txt")
        ≡ some (record { size = 5; modified = 10; skipped = false }))
track-ready_example = track-ready settling notes 30 (codes "notes.txt") ready

abbrev sending : DropTracker
sending = record {
  stable_wait = 2;
  candidates = [];
  in_flight = (codes "notes.txt", record { size = 4; modified = 9; skipped = false }) ∷ [];
}

observe-in_flight_example :
    (any (text_eq (codes "notes.txt")) (DropTracker.observe sending (notes ∷ []) 40).0 ≡ false)
    × (get (DropTracker.observe sending (notes ∷ []) 40).1.in_flight (codes "notes.txt")
        ≡ some (record { size = 4; modified = 9; skipped = false }))
unfolding is_present get text_eq
observe-in_flight_example =
    observe-in_flight sending (notes ∷ []) 40 (codes "notes.txt")
      (record { size = 4; modified = 9; skipped = false }) refl refl refl

-- A store that has one item, a text from the phone
abbrev one_item : Store ℤ Text
one_item = record {
  key_id = none;
  list_ids = ok (meta.id ∷ []);
  list = ok (meta ∷ []);
  get_meta = λ id. ok (record meta { id = id });
}

one_item-own : (id : ItemId) (m : ItemMeta ℤ) → one_item.get_meta id ≡ ok m → m.id ≡ id
one_item-own id m h = ground (arith, h)

abbrev cached : ListCache ℤ
cached = record { version = 1; store = codes "s plain"; checked_at = pos 0; items = meta ∷ [] }

abbrev checked : ListCache ℤ
checked = record cached { checked_at = pos 7 }

is_fresh : refresh cached one_item (pos 7) ≡ (ok tt, checked)
unfolding refresh id_eq text_eq passalong.Model.Hex.hex_fixed passalong.Retention.sort_newest_first
is_fresh = refl

refresh-ok_example :
    NewestFirst meta_id (meta ∷ [])
    × (checked.checked_at ≡ pos 7)
    × (checked.store ≡ codes "s plain")
    × (has_item meta.id (meta ∷ []) ≡ (
        has_id meta.id (meta.id ∷ [])
        && (has_item meta.id (meta ∷ []) || answers one_item meta.id)))
refresh-ok_example =
    refresh-ok one_item one_item-own cached checked (pos 7) (meta.id ∷ []) meta.id refl is_fresh

abbrev puller : Puller
puller = record { device = codes "laptop"; seen = []; key_id = none; has_clipboard = true }

abbrev around : Surroundings ℤ
around = record {
  store = one_item;
  get = λ id. ok tt;
  read_verified = λ m. ok (codes "hello");
  download_into = λ m name. ok name;
  dir_exists = true;
  is_utf8 = λ b. true;
  is_png = λ b. false;
  is_recent = λ id. false;
}

poll-once_example :
    All
      (λ e.
        (has_id (effect_id e) [] ≡ false)
        × (has_id (effect_id e) (poll around puller).2.seen ≡ true))
      (poll around puller).1
    × (times (is_of meta.id) (poll around puller).1 ≤ times (id_eq meta.id) (meta.id ∷ []))
poll-once_example = poll-once around puller one_item-own meta.id

confined : Fs.new (codes "items/a") ≡ ok (codes "items" ∷ codes "a" ∷ [])
unfolding Fs.new text_eq
confined = refl

new-IsConfined_example :
    IsConfined (codes "items" ∷ codes "a" ∷ [])
    × (as_str (codes "items" ∷ codes "a" ∷ []) ≡ codes "items/a")
new-IsConfined_example = new-IsConfined (codes "items/a") (codes "items" ∷ codes "a" ∷ []) confined
