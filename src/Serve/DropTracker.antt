-- ===== src/Serve/DropTracker.antt =====
-- When a dropped file is ready to send (crates/passalong-core/src/serve/drop_watcher.rs). A path is a
-- text, a hash map the list of its entries, and times are numbers of nanoseconds.
use passalong.Prelude.{
  ℕ, zero, suc, ◌+◌, ◌-◌, ◌≤◌, ◌≡◌, refl, sym, ap, ◌∙◌, Bool, true, false, ◌&&◌, ◌||◌, not, Option,
  none, some, List, [], ◌∷◌, ◌++◌, ltb, leb, ◌==◌, any, keep, drop, length, is_empty, if◌then◌else◌,
  map, Text, text_eq, codes, arith,
}
pub mod Ready

abbrev pub ignored_suffixes : List Text
ignored_suffixes = codes ".part" ∷ codes ".crdownload" ∷ codes ".tmp" ∷ codes ".passalong-part" ∷ []

-- `to_ascii_lowercase`
unfoldable pub lower : ℕ → ℕ
lower c = if leb b'A' c && leb c b'Z' then c + 32 else c

-- `ends_with`
unfoldable pub ends_with : Text → Text → Bool
ends_with text suffix =
    leb (length suffix) (length text) && text_eq (drop (length text - length suffix) text) suffix

-- `starts_with('.')`
unfoldable pub is_hidden : Text → Bool
is_hidden [] = false
is_hidden (c ∷ rest) = c == b'.'

-- `is_ignored`
unfoldable pub is_ignored : Text → Bool
unfolding lower ends_with is_hidden
is_ignored name = is_hidden name || any (ends_with (map lower name)) ignored_suffixes

pub record FileState : Type 0 where
  pub path : Text
  pub size : ℕ
  pub modified : ℕ

pub record Candidate : Type 0 where
  pub size : ℕ
  pub modified : ℕ
  pub since : ℕ

pub record InFlight : Type 0 where
  pub size : ℕ
  pub modified : ℕ
  pub skipped : Bool

-- `HashMap::get`
unfoldable pub get : {A : Type 0} → List (Text × A) → Text → Option A
get [] path = none
get ((p, a) ∷ rest) path = let found = get rest path in if text_eq p path then some a else found

-- `HashMap::remove`
unfoldable pub remove : {A : Type 0} → List (Text × A) → Text → List (Text × A)
remove entries path = keep (λ e. not (text_eq e.0 path)) entries

-- `HashMap::insert`, and a change through `get_mut`
unfoldable pub insert : {A : Type 0} → List (Text × A) → Text → A → List (Text × A)
unfolding remove
insert entries path a = (path, a) ∷ remove entries path

pub record DropTracker : Type 0 where
  pub stable_wait : ℕ
  pub candidates : List (Text × Candidate)
  pub in_flight : List (Text × InFlight)

-- `DropTracker::new`
unfoldable pub new : ℕ → DropTracker
new stable_wait = record { stable_wait = stable_wait; candidates = []; in_flight = [] }

-- `DropTracker::mark_skipped`
unfoldable pub mark_skipped : DropTracker → Text → DropTracker
unfolding insert
mark_skipped t path = elim (get t.in_flight path) [
  | none ↦ t
  | some sent ↦ record t { in_flight = insert t.in_flight path (record sent { skipped = true }) }
]

-- `DropTracker::has_pending`
unfoldable pub has_pending : DropTracker → Bool
has_pending t = not (is_empty t.candidates)

-- The files that a scan does not have are forgotten.
unfoldable pub is_present : List FileState → Text → Bool
is_present files path = any (λ f. text_eq f.path path) files

unfoldable pub retain : DropTracker → List FileState → DropTracker
unfolding is_present
retain t files = record t {
  in_flight = keep (λ e. is_present files e.0) t.in_flight;
  candidates = keep (λ e. is_present files e.0) t.candidates;
}

-- A file whose size and time are those seen before is ready once it has been so for long enough.
unfoldable pub settle : DropTracker → FileState → ℕ → Option Candidate → Option Text × DropTracker
unfolding insert
settle t file now none = (
  none,
  record t {
    candidates =
        insert t.candidates file.path
          (record { size = file.size; modified = file.modified; since = now });
  },
)
settle t file now (some seen) =
    if seen.size == file.size && seen.modified == file.modified
    then (if leb t.stable_wait (now - seen.since)
        then (
          some file.path,
          record t {
            candidates = remove t.candidates file.path;
            in_flight =
                insert t.in_flight file.path
                  (record { size = file.size; modified = file.modified; skipped = false });
          },
        )
        else (none, t))
    else (
      none,
      record t {
        candidates =
            insert t.candidates file.path
              (record { size = file.size; modified = file.modified; since = now });
      },
    )

-- A file in flight is left alone, unless it was skipped and has changed since.
unfoldable pub is_fixed : FileState → InFlight → Bool
is_fixed file sent =
    sent.skipped && (not (sent.size == file.size) || not (sent.modified == file.modified))

-- One file of a scan: the body of the loop of `observe`
unfoldable pub track_sent :
    DropTracker → FileState → ℕ → Option InFlight → Option Text × DropTracker
unfolding settle is_fixed
track_sent t file now none = settle t file now (get t.candidates file.path)
track_sent t file now (some sent) =
    if is_fixed file sent
    then settle (record t { in_flight = remove t.in_flight file.path }) file now
        (get t.candidates file.path)
    else (none, t)

unfoldable pub track : DropTracker → FileState → ℕ → Option Text × DropTracker
unfolding track_sent
track t file now = track_sent t file now (get t.in_flight file.path)

abbrev pub with_ready : Option Text → List Text → List Text
with_ready none ready = ready
with_ready (some path) ready = path ∷ ready

-- The loop of `observe`
unfoldable pub track_all : DropTracker → List FileState → ℕ → List Text × DropTracker
unfolding track
track_all t [] now = ([], t)
track_all t (file ∷ files) now =
    let (found, t') = track t file now in
    let (ready, t'') = track_all t' files now in (with_ready found ready, t'')

-- `DropTracker::observe`
unfoldable pub observe : DropTracker → List FileState → ℕ → List Text × DropTracker
unfolding track_all retain
observe t files now = track_all (retain t files) files now
