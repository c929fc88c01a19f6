-- ===== src/Vfs/Tree/Walks.antt =====
-- crates/vfs/src/lib.rs: what `lookup_abs` finds once the entries of a directory have changed.
use whuse.Prelude.{
  ℕ, ◌≡◌, ◌≢◌, refl, sym, ap, subst, ◌∙◌, true, List, [], ◌∷◌, ◌++◌, some, ◌==◌, ==_iff,
  if◌then◌else◌, All, arith, inl, inr, Bool-cases, KernelResult-cases, ok, ok_or, ◌>>=◌,
  ok-injective, err≢ok, ok_or-ok,
}
use whuse.Prelude.Errno
use whuse.Prelude.Text.{Text, text_eq, text_eq_iff, split, trim_end, rsplit_once}
use whuse.Prelude.TextMap
use whuse.Prelude.TextMap.{TextMap, get-insert, get-remove}
use whuse.Vfs.{directory, Heap, KernelVfs, node_at, set_contents}
use whuse.Vfs.Heaps.{node_at-set_contents}
use whuse.Vfs.Paths.{root_path, render, split_parent, normalize_path, segments}
use whuse.Vfs.Paths.Canonical.{IsName, normalize_path_names, segments-render, split_parent-render}
use whuse.Vfs.Tree.{entry_of, lookup_from, lookup_abs}

pub lookup_abs-segments :
    (vfs : KernelVfs) (path : Text)
    → lookup_abs vfs path ≡ lookup_from vfs.heap vfs.root (segments path)
lookup_abs-segments vfs path =
    unfold lookup_abs in
    elim (Bool-cases (text_eq path root_path)) [
      | inl here ↦
          let at = (text_eq_iff path root_path).0 here in
          rw (here, ap segments at) (unfold segments split lookup_from in refl)
      | inr other ↦ rw other refl
    ]

lookup_from-append :
    (heap : Heap) (id : ℕ) (parts : List Text) (name : Text)
    → lookup_from heap id (parts ++ name ∷ [])
      ≡ (lookup_from heap id parts >>= λ j. entry_of (node_at heap j).contents name)
unfolding lookup_from
lookup_from-append heap id [] name =
    elim (KernelResult-cases (entry_of (node_at heap id).contents name)) [
      | inl (j, e) ↦ rw e refl
      | inr (n, e) ↦ rw e refl
    ]
lookup_from-append heap id (part ∷ parts) name =
    elim (KernelResult-cases (entry_of (node_at heap id).contents part)) [
      | inl (j, e) ↦ rw e (lookup_from-append heap j parts name)
      | inr (n, e) ↦ rw e refl
    ]

-- The last of some parts.
last_part :
    (part : Text) (parts : List Text)
    → (before : List Text) × (name : Text) × (part ∷ parts ≡ before ++ name ∷ [])
last_part part [] = ([], part, refl)
last_part part (next ∷ parts) =
    let (before, name, e) = last_part next parts in (part ∷ before, name, ap (λ ps. part ∷ ps) e)

All_ends :
    (before : List Text) (name : Text)
    → All IsName (before ++ name ∷ [])
    → All IsName before × IsName name
All_ends [] name h = (tt, h.0)
All_ends (part ∷ before) name h = let (k, n) = All_ends before name h.1 in ((h.0, k), n)

split_parent_root : {p : Text × Text} → split_parent root_path ≢ ok p
unfolding split_parent trim_end rsplit_once
split_parent_root h = ground arith

lookup_abs-render :
    (vfs : KernelVfs) (parts : List Text)
    → All IsName parts
    → lookup_abs vfs (render parts) ≡ lookup_from vfs.heap vfs.root parts
lookup_abs-render vfs parts names =
    lookup_abs-segments vfs (render parts)
    ∙ ap (lookup_from vfs.heap vfs.root) (segments-render parts names)

-- A canonical path is found in the directory that `split_parent` names.
pub lookup_abs_split :
    (cwd path : Text) (p : Text × Text)
    → split_parent (normalize_path cwd path) ≡ ok p
    → (vfs : KernelVfs)
    → lookup_abs vfs (normalize_path cwd path)
      ≡ (lookup_abs vfs p.0 >>= λ id. entry_of (node_at vfs.heap id).contents p.1)
lookup_abs_split cwd path p h vfs =
    let (parts, e, names, leads) = normalize_path_names cwd path in
    rw e (found parts names (rw (sym e) h))
  where
    found :
        (parts : List Text)
        → All IsName parts
        → split_parent (render parts) ≡ ok p
        → lookup_abs vfs (render parts)
          ≡ (lookup_abs vfs p.0 >>= λ id. entry_of (node_at vfs.heap id).contents p.1)
    found [] names k = absurd (split_parent_root k)
    found (part ∷ parts) names k =
        let (before, name, e) = last_part part parts in
        let ends = All_ends before name (subst (All IsName) e names) in
        let split =
          ok-injective
            (sym k ∙ ap split_parent (ap render e) ∙ split_parent-render before name ends.1) in
        ap (λ ps. lookup_abs vfs (render ps)) e
        ∙ lookup_abs-render vfs (before ++ name ∷ []) (subst (All IsName) e names)
        ∙ lookup_from-append vfs.heap vfs.root before name
        ∙ ap (λ r. r >>= λ id. entry_of (node_at vfs.heap id).contents name)
            (sym (lookup_abs-render vfs before ends.0))
        ∙ ap (λ q. lookup_abs vfs q.0 >>= λ id. entry_of (node_at vfs.heap id).contents q.1)
            (sym split)

-- Every entry stays.
abbrev pub Keeps : TextMap ℕ → TextMap ℕ → Type 0
Keeps entries new =
    (part : Text) (id : ℕ) → TextMap.get part entries ≡ some id → TextMap.get part new ≡ some id

-- The entries of the node `parent` of the heap change.
module _ (heap : Heap) (parent : ℕ) (entries new : TextMap ℕ)
    (at : (node_at heap parent).contents ≡ directory entries) where
  abbrev changed : Heap
  changed = set_contents parent (directory new) heap

  pub entry_of-changed :
      (id : ℕ) (part : Text)
      → entry_of (node_at (set_contents parent (directory new) heap) id).contents part ≡ (
          if parent == id
          then ok_or (TextMap.get part new) Errno.enoent
          else entry_of (node_at heap id).contents part)
  entry_of-changed id part = elim (Bool-cases (parent == id)) [
    | inl here ↦
        ap (λ n. entry_of n.contents part) (node_at-set_contents parent id (directory new) heap)
        ∙ rw here refl
    | inr other ↦
        ap (λ n. entry_of n.contents part) (node_at-set_contents parent id (directory new) heap)
        ∙ rw other refl
  ]

  pub entry_of-parent :
      (id : ℕ) (part : Text)
      → (parent == id) ≡ true
      → entry_of (node_at heap id).contents part ≡ ok_or (TextMap.get part entries) Errno.enoent
  entry_of-parent id part here =
      ap (λ j. entry_of (node_at heap j).contents part) (sym ((==_iff parent id).0 here))
      ∙ ap (λ c. entry_of c part) at

  entry_of-Keeps :
      Keeps entries new
      → (id : ℕ) (part : Text) (j : ℕ) → entry_of (node_at heap id).contents part ≡ ok j
      → entry_of (node_at changed id).contents part ≡ ok j
  entry_of-Keeps keeps id part j h = elim (Bool-cases (parent == id)) [
    | inr other ↦ entry_of-changed id part ∙ rw other h
    | inl here ↦
        let there =
          ok_or-ok (TextMap.get part entries) Errno.enoent
            (sym (entry_of-parent id part here) ∙ h) in
        entry_of-changed id part ∙ rw (here, keeps part j there) refl
  ]

  pub lookup_from-Keeps :
      Keeps entries new
      → (id : ℕ) (parts : List Text) (found : ℕ) → lookup_from heap id parts ≡ ok found
      → lookup_from changed id parts ≡ ok found
  unfolding lookup_from
  lookup_from-Keeps keeps id [] found h = h
  lookup_from-Keeps keeps id (part ∷ parts) found h =
      elim (KernelResult-cases (entry_of (node_at heap id).contents part)) [
        | inl (j, e) ↦
            ap (λ r. r >>= λ i. lookup_from changed i parts) (entry_of-Keeps keeps id part j e)
            ∙ lookup_from-Keeps keeps j parts found
                (sym (ap (λ r. r >>= λ i. lookup_from heap i parts) e) ∙ h)
        | inr (n, e) ↦ absurd (err≢ok (sym (ap (λ r. r >>= λ i. lookup_from heap i parts) e) ∙ h))
      ]
