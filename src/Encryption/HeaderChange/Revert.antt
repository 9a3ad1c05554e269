-- ===== src/Encryption/HeaderChange/Revert.antt =====
-- Putting the old header back (`revert`), interrupted or not.
use passalong.Prelude.{◌≡◌, inl, inr, sym, ◌∙◌, Option, none, some, [], if◌then◌else◌}
use passalong.Fs.Disk.{Node, Disk, lookup}
use passalong.Fs.Io.{rename, pure, lift_fs, ◌>>=◌, stat}
use passalong.Fs.Holds.{
  Holds, Holds-bind, Holds-pure, Holds-lift_fs, Holds-stat, Holds-changing, Holds-pre,
}
use passalong.Fs.Succeeds.{
  Succeeds, Succeeds-bind, Succeeds-pure, Succeeds-lift_fs, Succeeds-stat, Succeeds-rename,
  Succeeds-pre,
}
use passalong.Fs.Renamed.{Tree}
use passalong.Encryption.Admin.{header_path, is_there}
use passalong.Encryption.HeaderChange.{revert_header, take_back}
use passalong.Encryption.HeaderChange.Slots.{
  Phase, aside, done, Ready, Aside, Done, Pending, Pending→Phase, none_pending, some-Pending,
  IsTree, pending_path, previous_path, Slots-undone, Slots-back, Slots-no_aside,
}

module _ (new old : Tree) (node : Node) (new_there : new [] ≡ some node) (tree : IsTree old) where
  not_placed : (d : Disk) → Done new old d × (lookup d header_path ≡ none) → Pending new old d
  not_placed d (s, h) = absurd (cc (s.at_current [], new_there, h))

  in_place :
      (n : Node) (d : Disk) → Pending new old d × (lookup d header_path ≡ some n) → Ready new old d
  in_place n d (inl s, h) = s
  in_place n d (inr s, h) = absurd (cc (s.at_current [], h))

  nothing_aside :
      (d : Disk)
      → (Pending new old d × (lookup d header_path ≡ none)) × (lookup d previous_path ≡ none)
      → Ready new old d
  nothing_aside d ((inl s, h), k) = s
  nothing_aside d ((inr s, h), k) = Slots-no_aside new old d tree (sym (s.at_previous []) ∙ k) s

  something-Aside :
      (n : Node) (d : Disk)
      → (Pending new old d × (lookup d header_path ≡ none)) × (lookup d previous_path ≡ some n)
      → Aside new old d × (lookup d previous_path ≡ some n)
  something-Aside n d ((inl s, h), k) = absurd (cc (s.at_previous [], k))
  something-Aside n d ((inr s, h), k) = (s, k)

  new_back :
      Holds
        (Phase new old)
        (take_back header_path pending_path)
        (Phase new old)
        (λ _ d. Pending new old d)
  unfolding take_back rename
  new_back = Holds-bind (Holds-lift_fs (Holds-stat pending_path (λ d p. p))) after
    where
      again :
          (source : Option Node)
          → Holds
              (λ d. Done new old d × (lookup d header_path ≡ source))
              (if is_there source then lift_fs (rename header_path pending_path) else pure tt)
              (Phase new old)
              (λ _ d. Pending new old d)
      again none = Holds-pure tt not_placed
      again (some n) =
          Holds-lift_fs
            (Holds-changing _ (λ d p. done p.0) (λ d d' p h. inr (Slots-undone new old d d' h p.0)))

      after :
          (target : Option Node)
          → Holds
              (λ d. Phase new old d × (lookup d pending_path ≡ target))
              (if is_there target
                then pure tt
                else (lift_fs {A = Option Node} (stat header_path) >>= λ source.
                    if is_there source then lift_fs (rename header_path pending_path) else pure tt))
              (Phase new old)
              (λ _ d. Pending new old d)
      after (some n) = Holds-pure tt (some-Pending new old n)
      after none =
          Holds-pre (none_pending new old node new_there)
            (Holds-bind (Holds-lift_fs (Holds-stat header_path (λ d s. done s))) again)

  old_back :
      Holds
        (Pending new old)
        (take_back previous_path header_path)
        (Phase new old)
        (λ _ d. Ready new old d)
  unfolding take_back rename
  old_back = Holds-bind (Holds-lift_fs (Holds-stat header_path (Pending→Phase new old))) after
    where
      again :
          (source : Option Node)
          → Holds
              (λ d.
                (Pending new old d × (lookup d header_path ≡ none))
                × (lookup d previous_path ≡ source))
              (if is_there source then lift_fs (rename previous_path header_path) else pure tt)
              (Phase new old)
              (λ _ d. Ready new old d)
      again none = Holds-pure tt nothing_aside
      again (some n) = Holds-pre (something-Aside n) (
          Holds-lift_fs
            (Holds-changing _ (λ d p. aside p.0) (λ d d' p h. Slots-back new old d d' h p.0)))

      after :
          (target : Option Node)
          → Holds
              (λ d. Pending new old d × (lookup d header_path ≡ target))
              (if is_there target
                then pure tt
                else (lift_fs {A = Option Node} (stat previous_path) >>= λ source.
                    if is_there source
                    then lift_fs (rename previous_path header_path)
                    else pure tt))
              (Phase new old)
              (λ _ d. Ready new old d)
      after (some n) = Holds-pure tt (in_place n)
      after none =
          Holds-bind (Holds-lift_fs (Holds-stat previous_path (λ d p. Pending→Phase new old d p.0)))
            again

  pub revert_header-Ready :
      Holds (Phase new old) revert_header (Phase new old) (λ _ d. Ready new old d)
  unfolding revert_header
  revert_header-Ready = Holds-bind new_back (λ _. old_back)

  new_back-succeeds :
      Succeeds (Phase new old) (take_back header_path pending_path) (λ _ d. Pending new old d)
  unfolding take_back
  new_back-succeeds = Succeeds-bind (Succeeds-lift_fs (Succeeds-stat pending_path)) after
    where
      again :
          (source : Option Node)
          → Succeeds
              (λ d. Done new old d × (lookup d header_path ≡ source))
              (if is_there source then lift_fs (rename header_path pending_path) else pure tt)
              (λ _ d. Pending new old d)
      again none = Succeeds-pure tt not_placed
      again (some n) = Succeeds-lift_fs (
          Succeeds-rename header_path pending_path (λ d p. (n, p.1)) (λ d p. p.0.at_pending [])
            (λ d d' p h. inr (Slots-undone new old d d' h p.0)))

      after :
          (target : Option Node)
          → Succeeds
              (λ d. Phase new old d × (lookup d pending_path ≡ target))
              (if is_there target
                then pure tt
                else (lift_fs {A = Option Node} (stat header_path) >>= λ source.
                    if is_there source then lift_fs (rename header_path pending_path) else pure tt))
              (λ _ d. Pending new old d)
      after (some n) = Succeeds-pure tt (some-Pending new old n)
      after none =
          Succeeds-pre (none_pending new old node new_there)
            (Succeeds-bind (Succeeds-lift_fs (Succeeds-stat header_path)) again)

  old_back-succeeds :
      Succeeds (Pending new old) (take_back previous_path header_path) (λ _ d. Ready new old d)
  unfolding take_back
  old_back-succeeds = Succeeds-bind (Succeeds-lift_fs (Succeeds-stat header_path)) after
    where
      again :
          (source : Option Node)
          → Succeeds
              (λ d.
                (Pending new old d × (lookup d header_path ≡ none))
                × (lookup d previous_path ≡ source))
              (if is_there source then lift_fs (rename previous_path header_path) else pure tt)
              (λ _ d. Ready new old d)
      again none = Succeeds-pure tt nothing_aside
      again (some n) = Succeeds-pre (something-Aside n) (
          Succeeds-lift_fs (
            Succeeds-rename previous_path header_path (λ d p. (n, p.1)) (λ d p. p.0.at_current [])
              (λ d d' p h. Slots-back new old d d' h p.0)))

      after :
          (target : Option Node)
          → Succeeds
              (λ d. Pending new old d × (lookup d header_path ≡ target))
              (if is_there target
                then pure tt
                else (lift_fs {A = Option Node} (stat previous_path) >>= λ source.
                    if is_there source
                    then lift_fs (rename previous_path header_path)
                    else pure tt))
              (λ _ d. Ready new old d)
      after (some n) = Succeeds-pure tt (in_place n)
      after none = Succeeds-bind (Succeeds-lift_fs (Succeeds-stat previous_path)) again

  pub revert_header-succeeds : Succeeds (Phase new old) revert_header (λ _ d. Ready new old d)
  unfolding revert_header
  revert_header-succeeds = Succeeds-bind new_back-succeeds (λ _. old_back-succeeds)
