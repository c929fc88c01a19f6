-- ===== src/Vfs/Paths.antt =====
-- crates/vfs/src/lib.rs: paths. The byte 47 is the slash, and 46 the dot.
pub mod Resolution
pub mod Canonical
use whuse.Prelude.{
  ℕ, Bool, ◌||◌, List, [], ◌∷◌, ◌++◌, Option, none, some, if◌then◌else◌, KernelResult, ok, err,
}
use whuse.Prelude.Errno
use whuse.Prelude.Text.{
  Text, text_eq, starts_with, strip_prefix, is_empty, split, join, trim_end, rsplit_once,
}

abbrev pub slash : ℕ
slash = 47

abbrev pub root_path : Text
root_path = slash ∷ []

-- The components that do nothing: the empty one and ".".
abbrev pub is_skipped : Text → Bool
is_skipped part = is_empty part || text_eq part (46 ∷ [])

abbrev pub is_parent : Text → Bool
is_parent part = text_eq part (46 ∷ 46 ∷ [])

-- `Vec::pop`
abbrev pub pop : List Text → List Text
pop [] = []
pop (part ∷ []) = []
pop (part ∷ next ∷ parts) = part ∷ pop (next ∷ parts)

-- The loop of `normalize_path` over the components.
unfoldable pub walk : List Text → List Text → List Text
walk components [] = components
walk components (part ∷ parts) =
    walk
      (if is_skipped part
        then components
        else if is_parent part
        then pop components
        else components ++ part ∷ [])
      parts

abbrev pub render : List Text → Text
render [] = root_path
render (part ∷ parts) = slash ∷ join slash (part ∷ parts)

-- The path that `normalize_path` takes apart.
abbrev pub source_path : Text → Text → Text
source_path cwd path =
    if starts_with root_path path
    then path
    else if text_eq cwd root_path
    then slash ∷ path
    else trim_end slash cwd ++ slash ∷ path

unfoldable pub normalize_path : Text → Text → Text
unfolding walk
normalize_path cwd path = render (walk [] (split slash (source_path cwd path)))

abbrev pub named : Option (Text × Text) → KernelResult (Text × Text)
named none = err Errno.einval
named (some (before, name)) =
    if is_empty name
    then err Errno.einval
    else ok (if is_empty before then root_path else before, name)

unfoldable pub split_parent : Text → KernelResult (Text × Text)
split_parent path = named (rsplit_once slash (trim_end slash path))

-- The parts that are not empty.
abbrev pub proper : List Text → List Text
proper [] = []
proper (part ∷ parts) = if is_empty part then proper parts else part ∷ proper parts

-- The components that `lookup_abs` goes through.
unfoldable pub segments : Text → List Text
segments path = proper (split slash path)

abbrev under_slash : Option Text → Option Text
under_slash none = none
under_slash (some suffix) = elim (strip_prefix root_path suffix) [
  | none ↦ none
  | some rest ↦ some (slash ∷ rest)
]

unfoldable pub external_mount_path : Text → Text → Option Text
external_mount_path target absolute =
    if text_eq target root_path
    then some absolute
    else if text_eq absolute target
    then some root_path
    else under_slash (strip_prefix target absolute)
