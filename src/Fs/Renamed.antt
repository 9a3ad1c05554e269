-- ===== src/Fs/Renamed.antt =====
-- What a rename leaves at each path (Fs/Disk).
use passalong.Prelude.{
  ◌≡◌, ap, ◌∙◌, none, some, ◌++◌, ok, if◌then◌else◌, arith, Option-cases, inl, inr, Option,
}
use passalong.Fs.{RemotePath, below}
use passalong.Fs.Disk.{Node, Disk, or_else, lookup, outside, moved, is_none, rename_tree}
use passalong.Fs.Lookup.{lookup-append, lookup-outside, lookup-moved, lookup-moved_out, below_self}

-- A rename that succeeds moves the tree.
pub rename_tree-ok :
    (d d' : Disk) (from to : RemotePath)
    → rename_tree d from to ≡ ok d'
    → d' ≡ moved from to d ++ outside from d
unfolding rename_tree
rename_tree-ok d d' from to h = elim (Option-cases (lookup d from)) [
  | inl e ↦ ground (arith, h, e)
  | inr (n, e) ↦ elim (Option-cases (lookup d to)) [
    | inl f ↦ ground (arith, h, e, f)
    | inr (m, f) ↦ ground (arith, h, e, f)
  ]
]

-- What a rename leaves where the target is not above.
pub lookup-renamed_out :
    (d d' : Disk) (from to q : RemotePath)
    → rename_tree d from to ≡ ok d'
    → below to q ≡ none
    → lookup d' q ≡ (if is_none (below from q) then lookup d q else none)
unfolding or_else
lookup-renamed_out d d' from to q h out =
    ap (λ x. lookup x q) (rename_tree-ok d d' from to h)
    ∙ lookup-append (moved from to d) (outside from d) q
    ∙ ap (λ x. or_else x (lookup (outside from d) q)) (lookup-moved_out from to q d out)
    ∙ lookup-outside from q d

-- What it leaves at the target, where the source had a node.
pub lookup-renamed_in :
    (d d' : Disk) (from to x : RemotePath) (n : Node)
    → rename_tree d from to ≡ ok d'
    → lookup d (from ++ x) ≡ some n
    → lookup d' (to ++ x) ≡ some n
unfolding or_else
lookup-renamed_in d d' from to x n h found =
    ap (λ y. lookup y (to ++ x)) (rename_tree-ok d d' from to h)
    ∙ lookup-append (moved from to d) (outside from d) (to ++ x)
    ∙ ap (λ y. or_else y (lookup (outside from d) (to ++ x))) (lookup-moved from to x d ∙ found)

-- What is below a path: a node for each path from there
abbrev pub Tree : Type 0
Tree = RemotePath → Option Node

abbrev pub no_tree : Tree
no_tree rest = none

-- The tree of a disk at a path
abbrev pub At : Disk → RemotePath → Tree → Type 0
At d path tree = (rest : RemotePath) → lookup d (path ++ rest) ≡ tree rest

-- Paths of which the first is not above anything that is below the second
abbrev pub Apart : RemotePath → RemotePath → Type 0
Apart p q = (rest : RemotePath) → below p (q ++ rest) ≡ none

module _ (d d' : Disk) (from to : RemotePath) (renamed : rename_tree d from to ≡ ok d') where
  -- The tree arrives at the target, which was empty.
  pub At-arrived : (tree : Tree) → Apart from to → At d from tree → At d to no_tree → At d' to tree
  unfolding or_else is_none
  At-arrived tree apart source free rest =
      let whole =
        ap (λ y. lookup y (to ++ rest)) (rename_tree-ok d d' from to renamed)
        ∙ lookup-append (moved from to d) (outside from d) (to ++ rest) in
      let there = lookup-moved from to rest d ∙ source rest in
      let behind =
        lookup-outside from (to ++ rest) d
        ∙ ap (λ b. if is_none b then lookup d (to ++ rest) else none) (apart rest)
        ∙ free rest in
      elim (Option-cases (tree rest)) [
        | inl e ↦ ground (arith, whole, there, behind, e)
        | inr (n, e) ↦ ground (arith, whole, there, behind, e)
      ]

  -- Nothing is left at the source.
  pub At-left : Apart to from → At d' from no_tree
  unfolding is_none
  At-left apart rest =
      lookup-renamed_out d d' from to (from ++ rest) renamed (apart rest)
      ∙ ap (λ b. if is_none b then lookup d (from ++ rest) else none) (below_self from rest)

  -- A tree elsewhere stays.
  pub At-beside :
      (path : RemotePath) (tree : Tree)
      → Apart from path
      → Apart to path
      → At d path tree
      → At d' path tree
  unfolding is_none
  At-beside path tree apart apart' at rest =
      lookup-renamed_out d d' from to (path ++ rest) renamed (apart' rest)
      ∙ ap (λ b. if is_none b then lookup d (path ++ rest) else none) (apart rest)
      ∙ at rest
