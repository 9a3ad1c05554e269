-- ===== src/Encryption/HeaderChange/Install.antt =====
-- Putting the new header in place (`install`), interrupted or not.
use passalong.Prelude.{◌≡◌, inl, inr, refl, sym, ◌∙◌, Option, none, some, ok, [], if◌then◌else◌}
use passalong.Fs.Disk.{Node, Disk, lookup}
use passalong.Fs.Io.{rename, pure}
use passalong.Fs.Holds.{
  Holds, Holds-bind, Holds-pure, Holds-lift, Holds-lift_fs, Holds-stat, Holds-changing, Holds-pre,
}
use passalong.Fs.Succeeds.{
  Succeeds, Succeeds-bind, Succeeds-pure, Succeeds-lift, Succeeds-lift_fs, Succeeds-stat,
  Succeeds-rename, Succeeds-pre,
}
use passalong.Fs.Renamed.{Tree}
use passalong.Encryption.Admin.{header_path, is_there}
use passalong.Encryption.HeaderChange.{install, swap, put_aside, must_be_free}
use passalong.Encryption.HeaderChange.Slots.{
  Phase, ready, aside, Ready, Aside, Done, Pending, Pending→Phase, none_pending, some-Pending,
  IsTree, pending_path, previous_path, Slots-aside, Slots-done, Slots-no_old,
}

module _ (new old : Tree) (node : Node) (new_there : new [] ≡ some node) (tree : IsTree old) where
  none_current : (d : Disk) → Pending new old d × (lookup d header_path ≡ none) → Aside new old d
  none_current d (inl s, h) = Slots-no_old new old d tree (sym (s.at_current []) ∙ h) s
  none_current d (inr s, h) = s

  some_current :
      (n : Node) (d : Disk)
      → Pending new old d × (lookup d header_path ≡ some n)
      → Ready new old d × (lookup d header_path ≡ some n)
  some_current n d (inl s, h) = (s, h)
  some_current n d (inr s, h) = absurd (cc (s.at_current [], h))

  put_aside-Aside : Holds (Ready new old) put_aside (Phase new old) (λ _ d. Aside new old d)
  unfolding put_aside rename
  put_aside-Aside = Holds-bind (Holds-lift_fs (Holds-stat previous_path (λ d s. ready s))) λ found.
      Holds-bind (Holds-lift (must_be_free found) (λ d p. ready p.0)) λ _.
        Holds-lift_fs
          (Holds-changing _ (λ d p. ready p.0.0) (λ d d' p h. Slots-aside new old d d' h p.0.0))

  swap-Done : Holds (Pending new old) swap (Phase new old) (λ _ d. Done new old d)
  unfolding swap rename
  swap-Done = Holds-bind (Holds-lift_fs (Holds-stat header_path (Pending→Phase new old))) λ current.
      Holds-bind (after current) λ _.
        Holds-lift_fs (Holds-changing _ (λ d s. aside s) (λ d d' s h. Slots-done new old d d' h s))
    where
      after :
          (current : Option Node)
          → Holds
              (λ d. Pending new old d × (lookup d header_path ≡ current))
              (if is_there current then put_aside else pure tt)
              (Phase new old)
              (λ _ d. Aside new old d)
      after none = Holds-pure tt none_current
      after (some n) = Holds-pre (λ d p. (some_current n d p).0) put_aside-Aside

  pub install-Done : Holds (Phase new old) install (Phase new old) (λ _ d. Done new old d)
  unfolding install
  install-Done = Holds-bind (Holds-lift_fs (Holds-stat pending_path (λ d p. p))) after
    where
      after :
          (found : Option Node)
          → Holds
              (λ d. Phase new old d × (lookup d pending_path ≡ found))
              (if is_there found then swap else pure tt)
              (Phase new old)
              (λ _ d. Done new old d)
      after none = Holds-pure tt (none_pending new old node new_there)
      after (some n) = Holds-pre (some-Pending new old n) swap-Done

  put_aside-succeeds :
      (n : Node)
      → Succeeds
          (λ d. Ready new old d × (lookup d header_path ≡ some n))
          put_aside
          (λ _ d. Aside new old d)
  unfolding put_aside
  put_aside-succeeds n = Succeeds-bind (Succeeds-lift_fs (Succeeds-stat previous_path)) λ found.
      Succeeds-bind
        (Succeeds-lift (must_be_free found)
          (λ d p. (tt, free found (sym p.1 ∙ p.0.0.at_previous []))))
        λ _. Succeeds-lift_fs (
          Succeeds-rename header_path previous_path (λ d p. (n, p.0.1))
            (λ d p. p.0.0.at_previous []) (λ d d' p h. Slots-aside new old d d' h p.0.0))
    where
      free : (found : Option Node) → found ≡ none → must_be_free found ≡ ok tt
      free none h = refl
      free (some n) h = cc

  swap-succeeds : Succeeds (Pending new old) swap (λ _ d. Done new old d)
  unfolding swap
  swap-succeeds = Succeeds-bind (Succeeds-lift_fs (Succeeds-stat header_path)) λ current.
      Succeeds-bind (after current) λ _. Succeeds-lift_fs (
        Succeeds-rename pending_path header_path (λ d s. (node, s.at_pending [] ∙ new_there))
          (λ d s. s.at_current []) (λ d d' s h. Slots-done new old d d' h s))
    where
      after :
          (current : Option Node)
          → Succeeds
              (λ d. Pending new old d × (lookup d header_path ≡ current))
              (if is_there current then put_aside else pure tt)
              (λ _ d. Aside new old d)
      after none = Succeeds-pure tt none_current
      after (some n) = Succeeds-pre (some_current n) (put_aside-succeeds n)

  pub install-succeeds : Succeeds (Phase new old) install (λ _ d. Done new old d)
  unfolding install
  install-succeeds = Succeeds-bind (Succeeds-lift_fs (Succeeds-stat pending_path)) after
    where
      after :
          (found : Option Node)
          → Succeeds
              (λ d. Phase new old d × (lookup d pending_path ≡ found))
              (if is_there found then swap else pure tt)
              (λ _ d. Done new old d)
      after none = Succeeds-pure tt (none_pending new old node new_there)
      after (some n) = Succeeds-pre (some-Pending new old n) swap-succeeds
