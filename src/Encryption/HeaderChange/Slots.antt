-- ===== src/Encryption/HeaderChange/Slots.antt =====
-- Where the headers of a change are: the new one in the lock or in place, and the old one in place or
-- kept in the lock.
use passalong.Prelude.{◌⊎◌, inl, inr, ◌≡◌, refl, sym, ◌∙◌, none, some, ok, [], text_eq}
use passalong.Fs.{RemotePath, below}
use passalong.Fs.Disk.{Node, Disk, lookup, rename_tree}
use passalong.Fs.Renamed.{Tree, no_tree, At, Apart, At-arrived, At-left, At-beside}
use passalong.Encryption.Admin.{header_path}
use passalong.Encryption.Journal.{new_header, previous, under_rewrite}

abbrev pub pending_path : RemotePath
pending_path = under_rewrite new_header

abbrev pub previous_path : RemotePath
previous_path = under_rewrite previous

-- What is at the place of the new header in the lock, at the current header's, and at that of the one
-- put aside
pub record Slots (pending current aside : Tree) (d : Disk) : Type 0 where
  pub at_pending : At d pending_path pending
  pub at_current : At d header_path current
  pub at_previous : At d previous_path aside

-- How far the change has come
pub data Phase (new old : Tree) (d : Disk) : Type 0 where
  ready : Slots new old no_tree d → Phase new old d
  aside : Slots new no_tree old d → Phase new old d
  done : Slots no_tree new old d → Phase new old d

-- Nothing is below a path where nothing is.
abbrev pub IsTree : Tree → Type 0
IsTree tree = tree [] ≡ none → (rest : RemotePath) → tree rest ≡ none

pending-current : Apart pending_path header_path
unfolding below text_eq
pending-current rest = refl

current-pending : Apart header_path pending_path
unfolding below text_eq
current-pending rest = refl

pending-previous : Apart pending_path previous_path
unfolding below text_eq
pending-previous rest = refl

previous-pending : Apart previous_path pending_path
unfolding below text_eq
previous-pending rest = refl

current-previous : Apart header_path previous_path
unfolding below text_eq
current-previous rest = refl

previous-current : Apart previous_path header_path
unfolding below text_eq
previous-current rest = refl

module _ (new old : Tree) (d d' : Disk) where
  -- The old header is put aside.
  pub Slots-aside :
      rename_tree d header_path previous_path ≡ ok d'
      → Slots new old no_tree d
      → Slots new no_tree old d'
  Slots-aside h s = record {
    at_pending =
        At-beside d d' header_path previous_path h pending_path new current-pending previous-pending
          s.at_pending;
    at_current = At-left d d' header_path previous_path h previous-current;
    at_previous =
        At-arrived d d' header_path previous_path h old current-previous s.at_current s.at_previous;
  }

  -- The new header is put in place.
  pub Slots-done :
      rename_tree d pending_path header_path ≡ ok d'
      → Slots new no_tree old d
      → Slots no_tree new old d'
  Slots-done h s = record {
    at_pending = At-left d d' pending_path header_path h current-pending;
    at_current =
        At-arrived d d' pending_path header_path h new pending-current s.at_pending s.at_current;
    at_previous =
        At-beside d d' pending_path header_path h previous_path old pending-previous
          current-previous s.at_previous;
  }

  -- The new header is taken back.
  pub Slots-undone :
      rename_tree d header_path pending_path ≡ ok d'
      → Slots no_tree new old d
      → Slots new no_tree old d'
  Slots-undone h s = record {
    at_pending =
        At-arrived d d' header_path pending_path h new current-pending s.at_current s.at_pending;
    at_current = At-left d d' header_path pending_path h pending-current;
    at_previous =
        At-beside d d' header_path pending_path h previous_path old current-previous
          pending-previous s.at_previous;
  }

  -- The old header is put back.
  pub Slots-back :
      rename_tree d previous_path header_path ≡ ok d'
      → Slots new no_tree old d
      → Slots new old no_tree d'
  Slots-back h s = record {
    at_pending =
        At-beside d d' previous_path header_path h pending_path new previous-pending current-pending
          s.at_pending;
    at_current =
        At-arrived d d' previous_path header_path h old previous-current s.at_previous s.at_current;
    at_previous = At-left d d' previous_path header_path h current-previous;
  }

-- Without an old header nothing need be put aside.
pub Slots-no_old :
    (new old : Tree) (d : Disk)
    → IsTree old
    → old [] ≡ none
    → Slots new old no_tree d
    → Slots new no_tree old d
Slots-no_old new old d tree e s = record {
  at_pending = s.at_pending;
  at_current = λ rest. s.at_current rest ∙ tree e rest;
  at_previous = λ rest. s.at_previous rest ∙ sym (tree e rest);
}

pub Slots-no_aside :
    (new old : Tree) (d : Disk)
    → IsTree old
    → old [] ≡ none
    → Slots new no_tree old d
    → Slots new old no_tree d
Slots-no_aside new old d tree e s = record {
  at_pending = s.at_pending;
  at_current = λ rest. s.at_current rest ∙ sym (tree e rest);
  at_previous = λ rest. s.at_previous rest ∙ tree e rest;
}

module _ (new old : Tree) where
  abbrev pub Ready : Disk → Type 0
  Ready d = Slots new old no_tree d

  abbrev pub Aside : Disk → Type 0
  Aside d = Slots new no_tree old d

  abbrev pub Done : Disk → Type 0
  Done d = Slots no_tree new old d

  -- The new header is still in the lock.
  abbrev pub Pending : Disk → Type 0
  Pending d = Ready d ⊎ Aside d

  pub Pending→Phase : (d : Disk) → Pending d → Phase new old d
  Pending→Phase d (inl s) = ready s
  Pending→Phase d (inr s) = aside s

  -- What is at the place in the lock tells how far the change is.
  pub none_pending :
      (node : Node)
      → new [] ≡ some node
      → (d : Disk) → Phase new old d × (lookup d pending_path ≡ none)
      → Done d
  none_pending node new_there d (ready s, h) = absurd (cc (s.at_pending [], new_there, h))
  none_pending node new_there d (aside s, h) = absurd (cc (s.at_pending [], new_there, h))
  none_pending node new_there d (done s, h) = s

  pub some-Pending :
      (n : Node) (d : Disk) → Phase new old d × (lookup d pending_path ≡ some n) → Pending d
  some-Pending n d (ready s, h) = inl s
  some-Pending n d (aside s, h) = inr s
  some-Pending n d (done s, h) = absurd (cc (s.at_pending [], h))
