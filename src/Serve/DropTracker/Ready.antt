-- ===== src/Serve/DropTracker/Ready.antt =====
-- When `DropTracker` reports a file.
use mathlib.Core.Path.{subst}
use passalong.Prelude.{
  ℕ, ◌-◌, ◌≤◌, ◌≡◌, ◌⊎◌, refl, sym, ap, ◌∙◌, true, false, ◌&&◌, Option, none, some, List, [], ◌∷◌,
  leb, ◌==◌, any, keep, Text, text_eq, text_eq_refl, text_eq→eq, arith, Bool-cases, Option-cases,
  inl, inr,
}
use passalong.Serve.DropTracker.{
  FileState, Candidate, InFlight, DropTracker, get, remove, insert, settle, is_fixed, track,
  track_sent, track_all, with_ready, observe, retain, is_present,
}

get-insert :
    {A : Type 0} (entries : List (Text × A)) (path : Text) (a : A)
    → get (insert entries path a) path ≡ some a
unfolding get insert
get-insert entries path a = ground (arith, text_eq_refl path)

-- The settling step reports only what has not changed for long enough, and puts it in flight.
settle-ready :
    (t : DropTracker) (file : FileState) (now : ℕ) (seen : Candidate) (path : Text)
    → (settle t file now (some seen)).0 ≡ some path
    → (path ≡ file.path)
      × (seen.size ≡ file.size)
      × (seen.modified ≡ file.modified)
      × (t.stable_wait ≤ now - seen.since)
      × (get (settle t file now (some seen)).1.in_flight file.path
          ≡ some (record { size = file.size; modified = file.modified; skipped = false }))
unfolding settle
settle-ready t file now seen path h =
    let there =
      get-insert t.in_flight file.path
        (record { size = file.size; modified = file.modified; skipped = false }) in
    elim (Bool-cases (seen.size == file.size && seen.modified == file.modified)) [
      | inl e ↦ elim (Bool-cases (leb t.stable_wait (now - seen.since))) [
        | inl f ↦ (
          ground (arith, h, e, f),
          ground (arith, e),
          ground (arith, e),
          ground (arith, f),
          ground (arith, e, f, there),
        )
        | inr f ↦ ground (arith, h, e, f)
      ]
      | inr e ↦ ground (arith, h, e)
    ]

-- A file that one step reports was a candidate of the same size and time for long enough, and not in
-- flight unless it was skipped there and has changed; and then it is in flight, not skipped, with the
-- size and the time that it has.
pub track-ready :
    (t : DropTracker) (file : FileState) (now : ℕ) (path : Text)
    → (track t file now).0 ≡ some path
    → (path ≡ file.path)
      × ((seen : Candidate) × (get t.candidates file.path ≡ some seen)
          × (seen.size ≡ file.size)
          × (seen.modified ≡ file.modified)
          × (t.stable_wait ≤ now - seen.since))
      × ((get t.in_flight file.path ≡ none)
          ⊎ ((sent : InFlight) × (get t.in_flight file.path ≡ some sent)
              × (is_fixed file sent ≡ true)))
      × (get (track t file now).1.in_flight file.path
          ≡ some (record { size = file.size; modified = file.modified; skipped = false }))
unfolding track
track-ready t file now path h = elim (Option-cases (get t.candidates file.path)) [
  | inl e ↦ elim (Option-cases (get t.in_flight file.path)) [
    | inl f ↦ ground (arith, h, e, f)
    | inr (sent, f) ↦ ground (arith, h, e, f)
  ]
  | inr (seen, e) ↦ elim (Option-cases (get t.in_flight file.path)) [
    | inl f ↦
        let step : track t file now ≡ settle t file now (some seen) = ground (arith, e, f) in
        let (named, size, time, long, there) =
          settle-ready t file now seen path (sym (ap (λ r. r.0) step) ∙ h) in
        (
          named,
          (seen, e, size, time, long),
          inl f,
          ap (λ r. get r.1.in_flight file.path) step ∙ there,
        )
    | inr (sent, f) ↦ elim (Bool-cases (is_fixed file sent)) [
      | inl g ↦
          let t' = record t { in_flight = remove t.in_flight file.path } in
          let step : track t file now ≡ settle t' file now (some seen) = ground (arith, e, f, g) in
          let (named, size, time, long, there) =
            settle-ready t' file now seen path (sym (ap (λ r. r.0) step) ∙ h) in
          (
            named,
            (seen, e, size, time, long),
            inr (sent, f, g),
            ap (λ r. get r.1.in_flight file.path) step ∙ there,
          )
      | inr g ↦ ground (arith, h, e, f, g)
    ]
  ]
]

get-rest :
    {A : Type 0} (entries : List (Text × A)) (other path : Text)
    → text_eq other path ≡ false
    → get (remove entries other) path ≡ get entries path
unfolding get remove
get-rest [] other path h = refl
get-rest ((p, a) ∷ rest) other path h = elim (Bool-cases (text_eq p other)) [
  | inl e ↦
      ground (arith, e, get-rest rest other path h, ap (λ x. text_eq x path) (text_eq→eq p other e))
  | inr e ↦ ground (arith, e, get-rest rest other path h)
]

get-insert_other :
    {A : Type 0} (entries : List (Text × A)) (other path : Text) (a : A)
    → text_eq other path ≡ false
    → get (insert entries other a) path ≡ get entries path
unfolding get insert
get-insert_other entries other path a h = ground (arith, h, get-rest entries other path h)

-- What a step says of a path in flight that was not skipped: it is not reported, and stays.
Left : Option Text × DropTracker → Text → InFlight → Type 0
Left (found, t) path sent =
    (elim found [ none ↦ false | some p ↦ text_eq path p ] ≡ false)
    × (get t.in_flight path ≡ some sent)

settle-other :
    (t : DropTracker) (file : FileState) (now : ℕ) (c : Option Candidate) (path : Text)
    (sent : InFlight)
    → text_eq file.path path ≡ false
    → text_eq path file.path ≡ false
    → get t.in_flight path ≡ some sent
    → Left (settle t file now c) path sent
unfolding Left settle
settle-other t file now none path sent h k there = (refl, there)
settle-other t file now (some seen) path sent h k there =
    let kept =
      get-insert_other t.in_flight file.path path
        (record { size = file.size; modified = file.modified; skipped = false }) h in
    elim (Bool-cases (seen.size == file.size && seen.modified == file.modified)) [
      | inl e ↦ elim (Bool-cases (leb t.stable_wait (now - seen.since))) [
        | inl f ↦ (ground (arith, e, f, k), ground (arith, e, f, kept, there))
        | inr f ↦ (ground (arith, e, f), ground (arith, e, f, there))
      ]
      | inr e ↦ (ground (arith, e), ground (arith, e, there))
    ]

text_eq_sym : (s t : Text) → text_eq s t ≡ false → text_eq t s ≡ false
text_eq_sym s t h = elim (Bool-cases (text_eq t s)) [
  | inl e ↦ ground (arith, h, text_eq→eq t s e, text_eq_refl s)
  | inr e ↦ e
]

track-left :
    (t : DropTracker) (file : FileState) (now : ℕ) (path : Text) (sent : InFlight)
    → sent.skipped ≡ false
    → get t.in_flight path ≡ some sent
    → Left (track t file now) path sent
unfolding track
track-left t file now path sent unskipped there = elim (Bool-cases (text_eq file.path path)) [
  | inl e ↦
      let here : get t.in_flight file.path ≡ some sent =
        ap (get t.in_flight) (text_eq→eq file.path path e) ∙ there in
      let still : track t file now ≡ (none, t) = ground (arith, here, unskipped) in
      subst (λ r. Left r path sent) (sym still) (unfold Left in (refl, there))
  | inr e ↦
      let back = text_eq_sym file.path path e in
      elim (Option-cases (get t.in_flight file.path)) [
        | inl f ↦
            subst (λ r. Left r path sent) (ap (track_sent t file now) (sym f))
              (settle-other t file now (get t.candidates file.path) path sent e back there)
        | inr (other, f) ↦
            subst (λ r. Left r path sent) (ap (track_sent t file now) (sym f))
              (elim (Bool-cases (is_fixed file other)) [
                | inl g ↦ rw g (
                    settle-other (record t { in_flight = remove t.in_flight file.path }) file now
                      (get t.candidates file.path) path sent e back
                      (get-rest t.in_flight file.path path e ∙ there))
                | inr g ↦ rw g (unfold Left in (refl, there))
              ])
      ]
]

with_ready-silent :
    (found : Option Text) (ready : List Text) (path : Text)
    → elim found [ none ↦ false | some p ↦ text_eq path p ] ≡ false
    → any (text_eq path) ready ≡ false
    → any (text_eq path) (with_ready found ready) ≡ false
with_ready-silent none ready path h k = k
with_ready-silent (some p) ready path h k = ground (arith, h, k)

track_all-left :
    (t : DropTracker) (files : List FileState) (now : ℕ) (path : Text) (sent : InFlight)
    → sent.skipped ≡ false
    → get t.in_flight path ≡ some sent
    → (any (text_eq path) (track_all t files now).0 ≡ false)
      × (get (track_all t files now).1.in_flight path ≡ some sent)
unfolding track_all Left
track_all-left t [] now path sent unskipped there = (refl, there)
track_all-left t (file ∷ files) now path sent unskipped there =
    let (silent, kept) = track-left t file now path sent unskipped there in
    let (silent', kept') = track_all-left (track t file now).1 files now path sent unskipped kept in
    (
      with_ready-silent (track t file now).0 (track_all (track t file now).1 files now).0 path
          silent silent',
      kept',
    )

get-present :
    {A : Type 0} (entries : List (Text × A)) (files : List FileState) (path : Text)
    → is_present files path ≡ true
    → get (keep (λ e. is_present files e.0) entries) path ≡ get entries path
unfolding get
get-present [] files path h = refl
get-present ((p, a) ∷ rest) files path h = elim (Bool-cases (text_eq p path)) [
  | inl e ↦ ground (arith, e, h, ap (is_present files) (text_eq→eq p path e))
  | inr e ↦ ground (arith, e, get-present rest files path h)
]

-- A file that was reported and not skipped is not reported again by a scan that still has it, whatever
-- its size and its time are now, and stays in flight.
pub observe-in_flight :
    (t : DropTracker) (files : List FileState) (now : ℕ) (path : Text) (sent : InFlight)
    → is_present files path ≡ true
    → get t.in_flight path ≡ some sent
    → sent.skipped ≡ false
    → (any (text_eq path) (observe t files now).0 ≡ false)
      × (get (observe t files now).1.in_flight path ≡ some sent)
unfolding observe retain
observe-in_flight t files now path sent here there unskipped =
    track_all-left (retain t files) files now path sent unskipped
      (get-present t.in_flight files path here ∙ there)
