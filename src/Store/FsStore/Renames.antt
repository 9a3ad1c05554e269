-- ===== src/Store/FsStore/Renames.antt =====
-- The two renames of `FsStore`: an item published from `tmp/`, and one taken back to it.
use mathlib.Core.Path.{subst}
use mathlib.Core.List.{append_assoc}
use passalong.Prelude.{
  ◌≡◌, sym, ap, ◌∙◌, false, none, some, [], ◌∷◌, ◌++◌, Text, text_eq, text_eq→eq, ok, if◌then◌else◌,
  arith, Bool-cases, inl, inr,
}
use passalong.Model.Time.{Chrono}
use passalong.Model.Digest.{Crates}
use passalong.Fs.{RemotePath, below}
use passalong.Fs.Disk.{Node, Disk, lookup, is_none, rename_tree}
use passalong.Fs.Lookup.{below-append}
use passalong.Fs.Renamed.{lookup-renamed_out, lookup-renamed_in}
use passalong.Store.FsStore.{FsStore, items_dir, tmp_dir}
use passalong.Store.FsStore.Items.{ItemAt, Complete, ItemAt-moved, apart_tmp}

module _ (chrono : Chrono) (crates : Crates) (s : FsStore chrono.DateTime) where
  open chrono use {DateTime}

  -- An item of another name is where it was.
  untouched :
      (d d' : Disk) (name other : Text) (x : RemotePath)
      → rename_tree d (items_dir chrono s ++ name ∷ []) (tmp_dir chrono s ++ x) ≡ ok d'
      → (rest : RemotePath)
      → lookup d' (items_dir chrono s ++ other ∷ rest)
        ≡ (if text_eq name other then none else lookup d (items_dir chrono s ++ other ∷ rest))
  unfolding is_none below
  untouched d d' name other x h rest =
      let gone =
        lookup-renamed_out d d' (items_dir chrono s ++ name ∷ []) (tmp_dir chrono s ++ x)
          (items_dir chrono s ++ other ∷ rest) h (apart_tmp chrono crates s x (other ∷ rest)) in
      let where_it_is = below-append (items_dir chrono s) (name ∷ []) (other ∷ rest) in
      elim (Bool-cases (text_eq name other)) [
        | inl e ↦ ground (arith, gone, where_it_is, e)
        | inr e ↦ ground (arith, gone, where_it_is, e)
      ]

  -- Taking an item out of `items/` leaves the others complete.
  pub Complete-taken :
      (d d' : Disk) (name : Text) (x : RemotePath)
      → rename_tree d (items_dir chrono s ++ name ∷ []) (tmp_dir chrono s ++ x) ≡ ok d'
      → Complete chrono crates s d
      → Complete chrono crates s d'
  unfolding Complete is_none
  Complete-taken d d' name x h c other there = elim (Bool-cases (text_eq name other)) [
    | inl e ↦ ground (arith, e, there, untouched d d' name other x h [])
    | inr e ↦
        let same : (rest : RemotePath)
            → lookup d' (items_dir chrono s ++ other ∷ rest)
              ≡ lookup d (items_dir chrono s ++ other ∷ rest) =
          λ rest.
            untouched d d' name other x h rest
            ∙ ap (λ b. if b then none else lookup d (items_dir chrono s ++ other ∷ rest)) e in
        ItemAt-moved chrono crates s (c other (sym (ap is_none (same [])) ∙ there))
          (λ rest n f. same rest ∙ f)
  ]

  arrived :
      (d d' : Disk) (token name : Text)
      → rename_tree d (tmp_dir chrono s ++ token ∷ []) (items_dir chrono s ++ name ∷ []) ≡ ok d'
      → (rest : RemotePath) (n : Node) → lookup d (tmp_dir chrono s ++ token ∷ rest) ≡ some n
      → lookup d' (items_dir chrono s ++ name ∷ rest) ≡ some n
  arrived d d' token name h rest n found =
      let from_is = append_assoc (tmp_dir chrono s) (token ∷ []) rest in
      let to_is = append_assoc (items_dir chrono s) (name ∷ []) rest in
      ap (lookup d') (sym to_is)
      ∙ lookup-renamed_in d d' (tmp_dir chrono s ++ token ∷ []) (items_dir chrono s ++ name ∷ [])
          rest n h (ap (lookup d) from_is ∙ found)

  beside :
      (d d' : Disk) (token name other : Text)
      → rename_tree d (tmp_dir chrono s ++ token ∷ []) (items_dir chrono s ++ name ∷ []) ≡ ok d'
      → text_eq name other ≡ false
      → (rest : RemotePath)
      → lookup d' (items_dir chrono s ++ other ∷ rest)
        ≡ lookup d (items_dir chrono s ++ other ∷ rest)
  unfolding is_none below
  beside d d' token name other h e rest =
      let out : below (items_dir chrono s ++ name ∷ []) (items_dir chrono s ++ other ∷ rest)
          ≡ none =
        below-append (items_dir chrono s) (name ∷ []) (other ∷ rest) ∙ ground (arith, e) in
      lookup-renamed_out d d' (tmp_dir chrono s ++ token ∷ []) (items_dir chrono s ++ name ∷ [])
        (items_dir chrono s ++ other ∷ rest) h out
      ∙ ap (λ b. if is_none b then lookup d (items_dir chrono s ++ other ∷ rest) else none)
          (apart_tmp chrono crates s (token ∷ []) (other ∷ rest))

  -- An item that is published is complete when what was staged is, and the others stay so.
  pub Complete-published :
      (d d' : Disk) (token name : Text)
      → rename_tree d (tmp_dir chrono s ++ token ∷ []) (items_dir chrono s ++ name ∷ []) ≡ ok d'
      → ItemAt chrono crates s d (tmp_dir chrono s) token name
      → Complete chrono crates s d
      → Complete chrono crates s d'
  unfolding Complete is_none below
  Complete-published d d' token name h staged c other there =
      elim (Bool-cases (text_eq name other)) [
        | inl e ↦
            let here = text_eq→eq name other e in
            subst (λ n. ItemAt chrono crates s d' (items_dir chrono s) n n) here
              (ItemAt-moved chrono crates s staged (λ rest n f. arrived d d' token name h rest n f))
        | inr e ↦
            let same : (rest : RemotePath)
                → lookup d' (items_dir chrono s ++ other ∷ rest)
                  ≡ lookup d (items_dir chrono s ++ other ∷ rest) =
              λ rest. beside d d' token name other h e rest in
            ItemAt-moved chrono crates s (c other (sym (ap is_none (same [])) ∙ there))
              (λ rest n f. same rest ∙ f)
      ]
