-- ===== src/Vfs/Tree.antt =====
-- crates/vfs/src/lib.rs: the tree of nodes in memory, and the paths that lie on an external mount.
pub mod Follow
pub mod Changes
pub mod Nodes
pub mod Creating
mod Walks
pub mod Removals
pub mod Places
pub mod Links
pub mod Renames
use whuse.Prelude.{
  ℕ, zero, suc, ◌<◌, ◌≤◌, Bool, true, false, not, ◌||◌, ◌&&◌, List, [], ◌∷◌, ◌++◌, Option, none,
  some, ltb, leb, ◌==◌, if◌then◌else◌, any, length, KernelResult, ok, err, ◌>>=◌, ok_or,
}
use whuse.Prelude.Errno
use whuse.Prelude.Text.{Text, text_eq, starts_with, bytes}
use whuse.Prelude.TextMap
use whuse.Prelude.TextMap.{TextMap}
use whuse.Vfs.{
  NodeKind, FileStat, MountRecord, NodeData, directory, symlink, file, proc_file, Node, Heap,
  ExternalMount, KernelVfs, Outside, node_at, set_contents, s_ifdir,
}
use whuse.Vfs.Paths.{slash, root_path, normalize_path, split_parent, segments, external_mount_path}
use whuse.Vfs.Objects.{kind_mode, mode_of, object_size}

abbrev pub entries_in : NodeData → Option (TextMap ℕ)
entries_in contents = elim contents [ directory entries ↦ some entries | _ ↦ none ]

-- The entry of a directory.
abbrev pub entry_of : NodeData → Text → KernelResult ℕ
entry_of contents name = ok_or (entries_in contents) Errno.enotdir >>= λ entries.
    ok_or (TextMap.get name entries) Errno.enoent

-- The loop of `lookup_abs` over the components.
unfoldable pub lookup_from : Heap → ℕ → List Text → KernelResult ℕ
lookup_from heap id [] = ok id
lookup_from heap id (part ∷ parts) =
    entry_of (node_at heap id).contents part >>= λ next. lookup_from heap next parts

unfoldable pub lookup_abs : KernelVfs → Text → KernelResult ℕ
unfolding lookup_from segments
lookup_abs vfs path =
    if text_eq path root_path then ok vfs.root else lookup_from vfs.heap vfs.root (segments path)

abbrev pub is_ok {ℓ} : {A : Type ℓ} → KernelResult A → Bool
is_ok (ok a) = true
is_ok (err e) = false

abbrev pub kind_at : KernelVfs → ℕ → NodeKind
kind_at vfs id = (node_at vfs.heap id).kind

-- The node of a directory with its entries.
unfoldable pub directory_at : KernelVfs → Text → KernelResult (ℕ × TextMap ℕ)
unfolding lookup_abs node_at
directory_at vfs path = lookup_abs vfs path >>= λ id.
    ok_or (entries_in (node_at vfs.heap id).contents) Errno.enotdir >>= λ entries. ok (id, entries)

abbrev pub is_directory : NodeKind → Bool
is_directory NodeKind.directory = true
is_directory _ = false

unfoldable pub is_memory_preferred_path : Text → Bool
is_memory_preferred_path absolute =
    any (λ path. text_eq absolute path)
      (bytes "/dev" ∷ bytes "/proc" ∷ bytes "/tmp" ∷ bytes "/mnt" ∷ [])
    || any (λ path. starts_with path absolute)
        (bytes "/dev/" ∷ bytes "/proc/" ∷ bytes "/tmp/" ∷ bytes "/mnt/" ∷ [])

-- The last of the longest targets, with the path below it.
abbrev longer :
    Option (ExternalMount × Text) → ExternalMount → Option Text → Option (ExternalMount × Text)
longer best mount none = best
longer none mount (some path) = some (mount, path)
longer (some (m, p)) mount (some path) =
    if ltb (length mount.target) (length m.target) then some (m, p) else some (mount, path)

abbrev pub longest :
    Option (ExternalMount × Text) → List ExternalMount → Text → Option (ExternalMount × Text)
longest best [] absolute = best
longest best (mount ∷ mounts) absolute =
    longest (longer best mount (external_mount_path mount.target absolute)) mounts absolute

unfoldable pub resolve_external_path : KernelVfs → Text → Option (ExternalMount × Text)
unfolding external_mount_path
resolve_external_path vfs absolute = longest none vfs.external_mounts absolute

abbrev pub has_key_below {ℓ} : {A : Type ℓ} → Text → TextMap A → Bool
has_key_below below [] = false
has_key_below below ((key, v) ∷ m) = starts_with below key || has_key_below below m

abbrev pub dir_prefix : Text → Text
dir_prefix absolute = if text_eq absolute root_path then root_path else absolute ++ slash ∷ []

-- A name that a shell takes for its own: in none of the trees.
abbrev pub is_shell_token_path : Text → Bool
is_shell_token_path absolute = any (λ path. text_eq absolute path) (bytes "/[" ∷ bytes "/]" ∷ [])

unfoldable pub stat : KernelVfs → Text → ℕ → FileStat
unfolding node_at
stat vfs path id =
    let node = node_at vfs.heap id in
    record {
      mode =
          mode_of node.contents (elim (TextMap.get path vfs.mem_modes) [
            | none ↦ kind_mode node.kind
            | some mode ↦ mode
          ]);
      size = object_size vfs.heap node.contents;
      nlink = 1;
    }
