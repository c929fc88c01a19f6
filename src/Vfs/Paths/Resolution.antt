-- ===== src/Vfs/Paths/Resolution.antt =====
-- crates/vfs/src/lib.rs: the components of a path, and the names that they lead to.
use mathlib.Core.List.{append-nil, append_assoc}
use whuse.Prelude.{
  ℕ, zero, suc, ◌≡◌, ◌≢◌, refl, sym, ap, ◌∙◌, Bool, true, false, ◌&&◌, ◌⊎◌, inl, inr, List, [], ◌∷◌,
  ◌++◌, ◌==◌, if◌then◌else◌, replicate, arith, Bool-cases, subst,
}
use whuse.Prelude.Text.{
  Text, text_eq, text_eq_iff, bytes, starts_with, is_empty, split, join, join_first, trim_end,
}
use whuse.Vfs.Paths.{slash, root_path, is_skipped, is_parent, source_path, pop, walk, render}

-- The names, from the root on, that the components of a path lead to, one component at a time: an
-- empty component and "." stay, ".." takes the last name away, if there is one, and any other
-- component is one more name.
pub data Resolves : List Text → List Text → Type 0 where
  start : Resolves [] []
  stay :
      (parts names : List Text) (part : Text)
      → Resolves parts names
      → (part ≡ []) ⊎ (part ≡ bytes ".")
      → Resolves (parts ++ part ∷ []) names
  up_root : (parts : List Text) → Resolves parts [] → Resolves (parts ++ bytes ".." ∷ []) []
  up :
      (parts names : List Text) (name : Text)
      → Resolves parts (names ++ name ∷ [])
      → Resolves (parts ++ bytes ".." ∷ []) names
  down :
      (parts names : List Text) (part : Text)
      → Resolves parts names
      → part ≢ []
      → part ≢ bytes "."
      → part ≢ bytes ".."
      → Resolves (parts ++ part ∷ []) (names ++ part ∷ [])

-- The components of a path: those of the directory come first, unless the path begins with a slash.
abbrev pub components : Text → Text → List Text
components cwd path =
    if starts_with (bytes "/") path then split slash path else split slash cwd ++ split slash path

abbrev behind_slashes : List Text → Text
behind_slashes [] = []
behind_slashes (name ∷ names) = (slash ∷ name) ++ behind_slashes names

-- Each name behind a slash, or one slash where there is no name.
abbrev pub spelled : List Text → Text
spelled [] = bytes "/"
spelled (name ∷ names) = behind_slashes (name ∷ names)

join-behind_slashes :
    (part : Text) (parts : List Text) → join slash (part ∷ parts) ≡ part ++ behind_slashes parts
unfolding join
join-behind_slashes part [] = sym (append-nil part)
join-behind_slashes part (next ∷ parts) =
    ap (λ t. part ++ slash ∷ t) (join-behind_slashes next parts)

pub render-spelled : (names : List Text) → render names ≡ spelled names
render-spelled [] = refl
render-spelled (name ∷ names) = ap (λ t. slash ∷ t) (join-behind_slashes name names)

pop_cases : (names : List Text) → (names ≡ []) ⊎ ((last : Text) × (names ≡ pop names ++ last ∷ []))
pop_cases [] = inl refl
pop_cases (name ∷ []) = inr (name, refl)
pop_cases (name ∷ next ∷ names) = elim (pop_cases (next ∷ names)) [
  | inl none ↦ absurd (ground arith)
  | inr (last, e) ↦ inr (last, ap (λ ns. name ∷ ns) e)
]

Resolves-pop :
    (parts names : List Text)
    → Resolves parts names
    → Resolves (parts ++ bytes ".." ∷ []) (pop names)
Resolves-pop parts names h = elim (pop_cases names) [
  | inl e ↦
      subst (λ ns. Resolves (parts ++ bytes ".." ∷ []) (pop ns)) (sym e)
        (Resolves.up_root parts (subst (Resolves parts) e h))
  | inr (last, e) ↦ Resolves.up parts (pop names) last (subst (Resolves parts) e h)
]

skipped_cases : (part : Text) → is_skipped part ≡ true → (part ≡ []) ⊎ (part ≡ bytes ".")
skipped_cases [] h = inl refl
skipped_cases (c ∷ part) h = inr ((text_eq_iff (c ∷ part) (bytes ".")).0 h)

used_cases : (part : Text) → is_skipped part ≡ false → (part ≢ []) × (part ≢ bytes ".")
used_cases part h =
    (λ e. ground (arith, ap is_skipped e), λ e. ground (arith, (text_eq_iff part (bytes ".")).1 e))

-- One turn of the loop.
abbrev advance : List Text → Text → List Text
advance names part =
    if is_skipped part then names else if is_parent part then pop names else names ++ part ∷ []

step-Resolves :
    (parts names : List Text) (part : Text)
    → Resolves parts names
    → Resolves (parts ++ part ∷ []) (advance names part)
step-Resolves parts names part h = elim (Bool-cases (is_skipped part)) [
  | inl skipped ↦ rw skipped (Resolves.stay parts names part h (skipped_cases part skipped))
  | inr used ↦ rw used (elim (Bool-cases (is_parent part)) [
    | inl above ↦ rw above (
        subst (λ p. Resolves (parts ++ p ∷ []) (pop names))
          (sym ((text_eq_iff part (bytes "..")).0 above)) (Resolves-pop parts names h))
    | inr below ↦
        let (full, no_dot) = used_cases part used in
        rw below (
          Resolves.down parts names part h full no_dot
            (λ e. ground (arith, (text_eq_iff part (bytes "..")).1 e)))
  ])
]

-- The loop goes on from the components done to the names of all.
walk-Resolves :
    (done names parts : List Text)
    → Resolves done names
    → Resolves (done ++ parts) (walk names parts)
unfolding walk
walk-Resolves done names [] h = subst (λ ps. Resolves ps names) (sym (append-nil done)) h
walk-Resolves done names (part ∷ parts) h =
    subst (λ ps. Resolves ps (walk names (part ∷ parts))) (append_assoc done (part ∷ []) parts)
      (walk-Resolves (done ++ part ∷ []) (advance names part) parts
        (step-Resolves done names part h))

walk-append :
    (names parts more : List Text) → walk names (parts ++ more) ≡ walk (walk names parts) more
unfolding walk
walk-append names [] more = refl
walk-append names (part ∷ parts) more = walk-append (advance names part) parts more

walk_empty : (names : List Text) (k : ℕ) → walk names (replicate k []) ≡ names
unfolding walk
walk_empty names zero = refl
walk_empty names (suc k) = walk_empty names k

split_cons : (s : Text) → (part : Text) × (parts : List Text) × (split slash s ≡ part ∷ parts)
unfolding split
split_cons [] = ([], [], refl)
split_cons (c ∷ s) =
    let (part, parts, e) = split_cons s in
    elim (Bool-cases (c == slash)) [
      | inl here ↦ ([], split slash s, rw here refl)
      | inr other ↦ (c ∷ part, parts, rw (other, e) refl)
    ]

join_first-append :
    (c : ℕ) (s : Text) (more : List Text)
    → join_first c (split slash s ++ more) ≡ join_first c (split slash s) ++ more
join_first-append c s more = let (part, parts, e) = split_cons s in rw e refl

split-append : (s t : Text) → split slash (s ++ slash ∷ t) ≡ split slash s ++ split slash t
unfolding split
split-append [] t = refl
split-append (c ∷ s) t = elim (Bool-cases (c == slash)) [
  | inl here ↦ rw here (ap (λ ps. [] ∷ ps) (split-append s t))
  | inr other ↦
      rw other (ap (join_first c) (split-append s t) ∙ join_first-append c s (split slash t))
]

is_empty-[] : {s : Text} → is_empty s ≡ true → s ≡ []
is_empty-[] {s} h = ground arith

kept_end : (b : Bool) → (b && false) ≡ false
kept_end b = ground arith

-- The slashes at the end of a path are so many empty components.
split-trim_end :
    (s : Text) → (k : ℕ) × (split slash s ≡ split slash (trim_end slash s) ++ replicate k [])
unfolding split trim_end
split-trim_end [] = (0, refl)
split-trim_end (c ∷ s) =
    let (k, e) = split-trim_end s in
    elim (Bool-cases (c == slash)) [
      | inl here ↦ elim (Bool-cases (is_empty (trim_end slash s))) [
        | inl gone ↦ (suc k, rw (here, gone) (ap (λ ps. [] ∷ ps) (e ∙ rw (is_empty-[] gone) refl)))
        | inr kept ↦ (k, rw (here, kept, here) (ap (λ ps. [] ∷ ps) e))
      ]
      | inr other ↦ (
        k,
        rw (other, kept_end (is_empty (trim_end slash s)), other)
            (ap (join_first c) e ∙ join_first-append c (trim_end slash s) (replicate k [])),
      )
    ]

walk-trim_end :
    (names : List Text) (s : Text)
    → walk names (split slash (trim_end slash s)) ≡ walk names (split slash s)
walk-trim_end names s =
    let (k, e) = split-trim_end s in
    sym (
      ap (walk names) e
      ∙ walk-append names (split slash (trim_end slash s)) (replicate k [])
      ∙ walk_empty (walk names (split slash (trim_end slash s))) k)

walk-source_path :
    (cwd path : Text) → walk [] (split slash (source_path cwd path)) ≡ walk [] (components cwd path)
walk-source_path cwd path = elim (Bool-cases (starts_with root_path path)) [
  | inl absolute ↦ rw absolute refl
  | inr relative ↦ rw relative (elim (Bool-cases (text_eq cwd root_path)) [
    | inl root ↦
        let e = (text_eq_iff cwd root_path).0 root in rw (root, e) (unfold walk split in refl)
    | inr below ↦ rw below (
        ap (walk []) (split-append (trim_end slash cwd) path)
        ∙ walk-append [] (split slash (trim_end slash cwd)) (split slash path)
        ∙ ap (λ ns. walk ns (split slash path)) (walk-trim_end [] cwd)
        ∙ sym (walk-append [] (split slash cwd) (split slash path)))
  ])
]

pub source_path-Resolves :
    (cwd path : Text)
    → Resolves (components cwd path) (walk [] (split slash (source_path cwd path)))
source_path-Resolves cwd path =
    subst (Resolves (components cwd path)) (sym (walk-source_path cwd path))
      (walk-Resolves [] [] (components cwd path) Resolves.start)
