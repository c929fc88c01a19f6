-- ===== src/Vfs/Paths/Canonical.antt =====
-- crates/vfs/src/lib.rs: what `normalize_path` returns, and how the other functions take it apart.
use mathlib.Core.List.{append-nil, append_assoc}
use whuse.Prelude.{
  ℕ, ◌≡◌, refl, sym, ap, ◌∙◌, false, List, [], ◌∷◌, ◌++◌, none, some, ◌==◌, All, arith, Bool-cases,
  inl, inr, All-append, ok,
}
use whuse.Prelude.Text.{Text, starts_with, is_empty, split, join, join_first, trim_end, rsplit_once}
use whuse.Vfs.Paths.{
  slash, is_skipped, is_parent, source_path, pop, walk, render, normalize_path, split_parent,
  proper, segments, named,
}
use whuse.Vfs.Paths.Resolution.{Resolves, components, spelled, render-spelled, source_path-Resolves}

-- A component without a slash in it.
abbrev pub NoSlash : Text → Type 0
NoSlash = All (λ c. (c == slash) ≡ false)

-- A component that names something.
abbrev pub IsName : Text → Type 0
IsName part = (is_skipped part ≡ false) × (is_parent part ≡ false) × NoSlash part

NoSlash-join_first :
    (c : ℕ) (parts : List Text)
    → (c == slash) ≡ false
    → All NoSlash parts
    → All NoSlash (join_first c parts)
NoSlash-join_first c [] e h = ((e, tt), tt)
NoSlash-join_first c (part ∷ parts) e h = ((e, h.0), h.1)

NoSlash-split : (s : Text) → All NoSlash (split slash s)
unfolding split
NoSlash-split [] = (tt, tt)
NoSlash-split (c ∷ s) = elim (Bool-cases (c == slash)) [
  | inl here ↦ rw here (tt, NoSlash-split s)
  | inr other ↦ rw other (NoSlash-join_first c (split slash s) other (NoSlash-split s))
]

split_name : (part : Text) → NoSlash part → split slash part ≡ part ∷ []
unfolding split
split_name [] h = refl
split_name (c ∷ part) h = rw (h.0, split_name part h.1) refl

split-slash :
    (part rest : Text) → NoSlash part → split slash (part ++ slash ∷ rest) ≡ part ∷ split slash rest
unfolding split
split-slash [] rest h = refl
split-slash (c ∷ part) rest h = rw (h.0, split-slash part rest h.1) refl

split-join :
    (part : Text) (parts : List Text)
    → All NoSlash (part ∷ parts)
    → split slash (join slash (part ∷ parts)) ≡ part ∷ parts
unfolding join
split-join part [] h = split_name part h.0
split-join part (next ∷ parts) h =
    split-slash part (join slash (next ∷ parts)) h.0
    ∙ ap (λ ps. part ∷ ps) (split-join next parts h.1)

IsName-pop : (parts : List Text) → All IsName parts → All IsName (pop parts)
IsName-pop [] h = tt
IsName-pop (part ∷ []) h = tt
IsName-pop (part ∷ next ∷ parts) h = (h.0, IsName-pop (next ∷ parts) h.1)

IsName-walk :
    (names parts : List Text) → All IsName names → All NoSlash parts → All IsName (walk names parts)
unfolding walk
IsName-walk names [] h k = h
IsName-walk names (part ∷ parts) h k = elim (Bool-cases (is_skipped part)) [
  | inl skipped ↦ rw skipped (IsName-walk names parts h k.1)
  | inr used ↦ rw used (elim (Bool-cases (is_parent part)) [
    | inl up ↦ rw up (IsName-walk (pop names) parts (IsName-pop names h) k.1)
    | inr down ↦ rw down (
        IsName-walk (names ++ part ∷ []) parts
          (All-append IsName names (part ∷ []) h ((used, down, k.0), tt)) k.1)
  ])
]

walk_names : (names parts : List Text) → All IsName parts → walk names parts ≡ names ++ parts
unfolding walk
walk_names names [] h = sym (append-nil names)
walk_names names (part ∷ parts) h =
    rw (h.0.0, h.0.1)
      (walk_names (names ++ part ∷ []) parts h.1 ∙ append_assoc names (part ∷ []) parts)

NoSlash-IsName : (parts : List Text) → All IsName parts → All NoSlash parts
NoSlash-IsName [] h = tt
NoSlash-IsName (part ∷ parts) h = (h.0.2, NoSlash-IsName parts h.1)

normalize_path-render :
    (cwd : Text) (parts : List Text)
    → All IsName parts
    → normalize_path cwd (render parts) ≡ render parts
normalize_path-render cwd [] h = unfold normalize_path split starts_with in refl
normalize_path-render cwd (part ∷ parts) h =
    unfold normalize_path starts_with split in
    rw (split-join part parts (NoSlash-IsName (part ∷ parts) h))
      (ap render (walk_names [] (part ∷ parts) h))

pub normalize_path_names :
    (cwd path : Text)
    → (names : List Text) × (normalize_path cwd path ≡ render names)
      × All IsName names
      × Resolves (components cwd path) names
normalize_path_names cwd path =
    unfold normalize_path in
    (
      walk [] (split slash (source_path cwd path)),
      refl,
      IsName-walk [] (split slash (source_path cwd path)) tt (NoSlash-split (source_path cwd path)),
      source_path-Resolves cwd path,
    )

-- `normalize_path` returns the names that the components of the path lead to, those of the directory
-- before them unless the path begins with a slash, each behind a slash and without "", "." and "..";
-- such a path is left as it is, whatever the directory.
pub normalize_path_lem :
    (cwd path : Text)
    → (names : List Text) × (normalize_path cwd path ≡ spelled names)
      × All IsName names
      × Resolves (components cwd path) names
      × ((other : Text) → normalize_path other (normalize_path cwd path) ≡ normalize_path cwd path)
normalize_path_lem cwd path =
    let (names, e, proper_names, leads) = normalize_path_names cwd path in
    (
      names,
      e ∙ render-spelled names,
      proper_names,
      leads,
      λ other. ap (normalize_path other) e ∙ normalize_path-render other names proper_names ∙ sym e,
    )

pub segments-render : (parts : List Text) → All IsName parts → segments (render parts) ≡ parts
unfolding segments
segments-render [] h = unfold split in refl
segments-render (part ∷ parts) h =
    unfold split in
    rw (split-join part parts (NoSlash-IsName (part ∷ parts) h)) (all_proper (part ∷ parts) h)
  where
    all_proper : (names : List Text) → All IsName names → proper names ≡ names
    all_proper [] k = refl
    all_proper ([] ∷ names) k = absurd (ground arith)
    all_proper ((c ∷ name) ∷ names) k = ap (λ ps. (c ∷ name) ∷ ps) (all_proper names k.1)

rsplit_once_name : (name : Text) → NoSlash name → rsplit_once slash name ≡ none
unfolding rsplit_once
rsplit_once_name [] h = refl
rsplit_once_name (c ∷ name) h = rw (rsplit_once_name name h.1, h.0) refl

rsplit_once-append :
    (before name : Text)
    → NoSlash name
    → rsplit_once slash (before ++ slash ∷ name) ≡ some (before, name)
unfolding rsplit_once
rsplit_once-append [] name h = rw (rsplit_once_name name h) refl
rsplit_once-append (c ∷ before) name h = rw (rsplit_once-append before name h) refl

trim_end_name : (name : Text) → NoSlash name → trim_end slash name ≡ name
unfolding trim_end
trim_end_name [] h = refl
trim_end_name (c ∷ name) h = rw (trim_end_name name h.1, h.0) (ground arith)

is_empty-append : (before : Text) (c : ℕ) (name : Text) → is_empty (before ++ c ∷ name) ≡ false
is_empty-append [] c name = refl
is_empty-append (b ∷ before) c name = refl

trim_end-append :
    (before : Text) (c : ℕ) (name : Text)
    → NoSlash (c ∷ name)
    → trim_end slash (before ++ c ∷ name) ≡ before ++ c ∷ name
unfolding trim_end
trim_end-append [] c name h = trim_end_name (c ∷ name) h
trim_end-append (b ∷ before) c name h =
    rw (trim_end-append before c name h, is_empty-append before c name) refl

-- What stands before the last slash.
abbrev prefix : List Text → Text
prefix [] = []
prefix (part ∷ parts) = slash ∷ join slash (part ∷ parts)

join-append :
    (part : Text) (parts : List Text) (name : Text)
    → join slash ((part ∷ parts) ++ name ∷ []) ≡ join slash (part ∷ parts) ++ slash ∷ name
unfolding join
join-append part [] name = refl
join-append part (next ∷ parts) name =
    ap (λ t. part ++ slash ∷ t) (join-append next parts name)
    ∙ sym (append_assoc part (slash ∷ join slash (next ∷ parts)) (slash ∷ name))

render-append :
    (parts : List Text) (name : Text) → render (parts ++ name ∷ []) ≡ prefix parts ++ slash ∷ name
render-append [] name = unfold join in refl
render-append (part ∷ parts) name = ap (λ t. slash ∷ t) (join-append part parts name)

-- The parent of a path of names and its last name.
pub split_parent-render :
    (parts : List Text) (name : Text)
    → IsName name
    → split_parent (render (parts ++ name ∷ [])) ≡ ok (render parts, name)
unfolding split_parent
split_parent-render parts [] h = absurd (ground arith)
split_parent-render parts (c ∷ name) h =
    ap split_parent (render-append parts (c ∷ name))
    ∙ ap (λ t. named (rsplit_once slash t)) trimmed
    ∙ ap named (rsplit_once-append (prefix parts) (c ∷ name) h.2)
    ∙ parent parts
  where
    trimmed : trim_end slash (prefix parts ++ slash ∷ c ∷ name) ≡ prefix parts ++ slash ∷ c ∷ name
    trimmed =
        ap (trim_end slash) (sym (append_assoc (prefix parts) (slash ∷ []) (c ∷ name)))
        ∙ trim_end-append (prefix parts ++ slash ∷ []) c name h.2
        ∙ append_assoc (prefix parts) (slash ∷ []) (c ∷ name)

    parent : (ps : List Text) → named (some (prefix ps, c ∷ name)) ≡ ok (render ps, c ∷ name)
    parent [] = refl
    parent (p ∷ ps) = refl
