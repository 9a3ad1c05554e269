-- ===== src/Fs/Made.antt =====
-- What the making of directories and files leaves (Fs/Disk).
use passalong.Prelude.{◌≡◌, ap, some, [], ◌∷◌, ◌++◌, ok, arith, Bool-cases, Option-cases, inl, inr}
use passalong.Fs.{RemotePath, path_eq}
use passalong.Fs.Disk.{
  Node, dir, file, Disk, lookup, set_file, make_dirs, make_dir, make_file, parent_exists,
}
use passalong.Fs.Lookup.{path_eq→eq}

-- Directories that are made leave what was there.
pub make_dirs-keeps :
    (d d' : Disk) (done rest q : RemotePath) (n : Node)
    → make_dirs d done rest ≡ ok d'
    → lookup d q ≡ some n
    → lookup d' q ≡ some n
unfolding make_dirs lookup
make_dirs-keeps d d' done [] q n h found = ground (arith, h, found)
make_dirs-keeps d d' done (part ∷ rest) q n h found =
    let path = done ++ part ∷ [] in
    elim (Option-cases (lookup d path)) [
      | inl e ↦ elim (Bool-cases (path_eq path q)) [
        | inl f ↦ cc (e, found, ap (lookup d) (path_eq→eq path q f))
        | inr f ↦
            make_dirs-keeps ((path, dir) ∷ d) d' path rest q n (ground (arith, h, e))
              (ground (arith, f, found))
      ]
      | inr (dir, e) ↦ make_dirs-keeps d d' path rest q n (ground (arith, h, e)) found
      | inr (file b, e) ↦ absurd (ground (arith, h, e))
    ]

pub make_dir-ok : (d d' : Disk) (p : RemotePath) → make_dir d p ≡ ok d' → d' ≡ (p, dir) ∷ d
unfolding make_dir
make_dir-ok d d' p h = elim (Option-cases (lookup d p)) [
  | inr (n, e) ↦ absurd (ground (arith, h, e))
  | inl e ↦ ground (arith, h, e)
]

pub make_file-ok : (d d' : Disk) (p : RemotePath) → make_file d p ≡ ok d' → d' ≡ set_file p [] d
unfolding make_file
make_file-ok d d' p h = elim (Bool-cases (parent_exists d p)) [
  | inl e ↦ elim (Option-cases (lookup d p)) [
    | inl f ↦ ground (arith, h, e, f)
    | inr (dir, f) ↦ ground (arith, h, e, f)
    | inr (file b, f) ↦ ground (arith, h, e, f)
  ]
  | inr e ↦ ground (arith, h, e)
]
