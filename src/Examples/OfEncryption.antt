-- ===== src/Examples/OfEncryption.antt =====
-- Locks, header changes and the opening of a store.
use passalong.Prelude.{
  ◌↔◌, ℕ, ◌≡◌, refl, ap, arith, Bool, true, false, Option, none, some, List, [], ◌∷◌, ◌++◌, map,
  All, length, Text, codes, Result, ok, err,
}
use passalong.Model.Digest.{Bytes}
use passalong.Store.Errors.{other}
use passalong.Fs.{RemotePath}
use passalong.Fs.Disk.{Disk, Node, dir, file, lookup}
use passalong.Fs.Io.{World, Fault}
use passalong.Fs.Succeeds.{Success}
use passalong.Fs.Renamed.{Tree}
use passalong.Encryption.Admin.{header_path}
use passalong.Encryption.HeaderChange.{install, revert_header}
use passalong.Encryption.HeaderChange.Slots.{pending_path, Ready, Done, IsTree}
use passalong.Encryption.HeaderChange.Attempts.{no_attempt, installed, Attempts-recover}
use passalong.Encryption.HeaderChange.{revert}
use passalong.Encryption.HeaderChange.Slots.{previous_path}
use passalong.Encryption.HeaderChange.Lost.{Emptied, revert_loses-header}
use passalong.Encryption.Journal.{HeaderChange, words, lock_path}
use passalong.Encryption.Journal.{publish, new_header}
use passalong.Encryption.Journal.Staging.{SameLock, InLock, files_of}
use passalong.Encryption.Journal.Lock.{WasFree, publish-whole}
use passalong.Encryption.Header.{Headers}
use passalong.Encryption.HeaderChange.{with_old}
use passalong.Fs.Holds.{Outcome}
use passalong.Encryption.Open.{opening, encrypted}
use passalong.Encryption.Open.Table.{Opens, opening_iff}
use passalong.Crypto.Keys.{new_sealer}
use passalong.Examples.Sealing.{framing}
use passalong.Examples.Parameters.{zeros}

-- The lock with a new header in it, and the old one in place
abbrev locked : Disk
locked =
    (header_path, dir)
    ∷ (header_path ++ codes "header.json" ∷ [], file (codes "old"))
    ∷ (pending_path, dir)
    ∷ (pending_path ++ codes "header.json" ∷ [], file (codes "new"))
    ∷ []

abbrev new_tree : Tree
new_tree rest = lookup locked (pending_path ++ rest)

abbrev old_tree : Tree
old_tree rest = lookup locked (header_path ++ rest)

old_tree-IsTree : IsTree old_tree
unfolding lookup passalong.Prelude.text_eq passalong.Fs.path_eq
old_tree-IsTree h = cc h

locked-Ready : Ready new_tree old_tree locked
unfolding lookup passalong.Prelude.text_eq passalong.Fs.path_eq
locked-Ready = record {
  at_pending = λ rest. refl;
  at_current = λ rest. refl;
  at_previous = λ rest. refl;
}

-- `install` fails when the old header is already aside.
abbrev failing : World
failing = record {
  disk = locked;
  faults = none ∷ none ∷ none ∷ none ∷ some (record { error = other [] []; done = 0 }) ∷ [];
  random = λ n. n;
  draws = 0;
}

abbrev after : World
after = record { disk = (install failing).1.disk; faults = []; random = λ n. n; draws = 0 }

there : new_tree [] ≡ some dir
unfolding lookup passalong.Prelude.text_eq passalong.Fs.path_eq
there = refl

Attempts-recover_example :
    Success (λ _ d. Done new_tree old_tree d) (install after)
    × Success (λ _ d. Ready new_tree old_tree d) (revert_header after)
Attempts-recover_example =
    Attempts-recover new_tree old_tree dir there old_tree-IsTree locked after locked-Ready
      (installed no_attempt failing refl) refl

-- A complete change of words, and of its lock the journal and an empty folder for the old header
abbrev torn : Disk
torn =
    (header_path, dir)
    ∷ (header_path ++ codes "header.json" ∷ [], file (codes "new"))
    ∷ (lock_path, dir)
    ∷ (lock_path ++ codes "plan.json" ∷ [], file (codes "{}"))
    ∷ (previous_path, dir)
    ∷ []

abbrev torn_world : World
torn_world = record { disk = torn; faults = []; random = λ n. n; draws = 0 }

abbrev change : HeaderChange
change = record {
  kind = words;
  started_at = codes "2026-07-03T12:00:00Z";
  key = codes "0000000000000000";
}

abbrev in_place : Tree
in_place rest = lookup torn (header_path ++ rest)

abbrev kept : Tree
kept rest = lookup torn (previous_path ++ rest)

torn-Done : Done in_place kept torn
unfolding lookup passalong.Prelude.text_eq passalong.Fs.path_eq
torn-Done = record {
  at_pending = λ rest. refl;
  at_current = λ rest. refl;
  at_previous = λ rest. refl;
}

in_place_there : in_place [] ≡ some dir
unfolding lookup passalong.Prelude.text_eq passalong.Fs.path_eq
in_place_there = refl

kept_there : kept [] ≡ some dir
unfolding lookup passalong.Prelude.text_eq passalong.Fs.path_eq
kept_there = refl

kept_no_file : kept (codes "header.json" ∷ []) ≡ none
unfolding lookup passalong.Prelude.text_eq passalong.Fs.path_eq
kept_no_file = refl

reverts : revert change torn_world ≡ (ok tt, (revert change torn_world).1)
unfolding revert passalong.Fs.Io.◌>>=◌ passalong.Fs.Io.lift_fs passalong.Fs.Io.stat lookup
    passalong.Prelude.text_eq passalong.Fs.Io.rename passalong.Fs.Disk.rename_tree
    passalong.Fs.Io.read_dir passalong.Fs.Disk.is_dir_at passalong.Fs.Disk.entries_of
    passalong.Prelude.text_ltb passalong.Fs.Io.remove_dir_all
reverts = refl

revert_loses-header_example : Emptied (revert change torn_world).1.disk
revert_loses-header_example =
    revert_loses-header in_place kept dir dir in_place_there kept_there kept_no_file change
      torn_world (revert change torn_world).1 refl torn-Done reverts

opening_iff_example :
    (opening framing (encrypted (zeros 8)) (some (zeros 32))
      ≡ ok (some (new_sealer framing (zeros 32))))
    ↔ Opens framing (encrypted (zeros 8)) (some (zeros 32)) (some (new_sealer framing (zeros 32)))
opening_iff_example =
    opening_iff framing (encrypted (zeros 8)) (some (zeros 32))
      (some (new_sealer framing (zeros 32)))

-- A header is its bytes.
abbrev raw : Headers
raw = record { Header = Bytes; to_bytes = λ h. h; of_bytes = λ b. ok b; key_id = λ h. h }

abbrev empty_world : World
empty_world = record { disk = []; faults = []; random = λ n. n; draws = 0 }

abbrev json : Bytes
json = codes "{}"

abbrev files : List (RemotePath × Bytes)
files = files_of raw json (codes "new") (some (codes "old"))

publish-whole_example :
    Outcome
      (SameLock [])
      (λ _ d. WasFree raw json (codes "new") (some (codes "old")) [] × InLock files d)
      (publish raw json ((new_header, codes "new") ∷ with_old raw (some (codes "old"))) empty_world)
publish-whole_example = publish-whole raw json (codes "new") (some (codes "old")) empty_world
