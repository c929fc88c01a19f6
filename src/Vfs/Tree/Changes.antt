-- ===== src/Vfs/Tree/Changes.antt =====
-- crates/vfs/src/lib.rs: `unlink`, `link`, `rename`, and the changes of modes and mounts.
use whuse.Prelude.{
  ℕ, ◌+◌, ◌-◌, ◌%◌, Bool, false, not, Option, none, some, if◌then◌else◌, KernelResult, ok, err,
  ok_or, ◌>>=◌,
}
use whuse.Prelude.Errno
use whuse.Prelude.Text.{Text, is_empty}
use whuse.Prelude.TextMap
use whuse.Prelude.TextMap.{TextMap}
use whuse.Vfs.{
  FileStat, FileHandle, NodeData, directory, Node, ExternalMount, KernelVfs, Outside, node_at,
  set_contents,
}
use whuse.Vfs.Objects.{stat_from_locked}
use whuse.Vfs.Paths.{root_path, normalize_path, split_parent}
use whuse.Vfs.Tree.{lookup_abs, directory_at, is_directory, resolve_external_path}
use whuse.Vfs.Tree.Follow.{stat_path}

-- What a call leaves, and what it returns.
abbrev pub Step {ℓ} : Type ℓ → Type ℓ
Step A = KernelVfs × KernelResult A

abbrev pub set_entries : ℕ → TextMap ℕ → KernelVfs → KernelVfs
set_entries id entries vfs = record vfs { heap = set_contents id (directory entries) vfs.heap }

abbrev has_entries : NodeData → Bool
has_entries contents = elim contents [ directory children ↦ not (is_empty children) | _ ↦ false ]

abbrev pub is_full_directory : Node → Bool
is_full_directory node = if is_directory node.kind then has_entries node.contents else false

-- A directory with its entries, less the one that may be unlinked.
abbrev pub without : KernelVfs → Text → ℕ × TextMap ℕ → KernelResult (ℕ × TextMap ℕ)
without vfs name found = ok_or (TextMap.get name found.1) Errno.enoent >>= λ id.
    if is_full_directory (node_at vfs.heap id)
    then err Errno.enotempty
    else ok (found.0, TextMap.remove name found.1)

unfoldable pub entries_without : KernelVfs → Text → KernelResult (ℕ × TextMap ℕ)
unfolding split_parent directory_at node_at
entries_without vfs absolute =
    split_parent absolute >>= λ p. directory_at vfs p.0 >>= without vfs p.1

abbrev pub insert_deletion : Option (ExternalMount × Text) → Text → KernelVfs → KernelVfs
insert_deletion none absolute vfs = vfs
insert_deletion (some found) absolute vfs = record vfs {
  external_deletions = TextMap.insert absolute tt vfs.external_deletions;
}

-- The tables forget the path.
abbrev pub forget_path : Text → KernelVfs → KernelVfs
forget_path absolute vfs =
    insert_deletion (resolve_external_path vfs absolute) absolute (record vfs {
      socket_bindings = TextMap.remove absolute vfs.socket_bindings;
      mem_modes = TextMap.remove absolute vfs.mem_modes;
      external_preloaded = TextMap.remove absolute vfs.external_preloaded;
      external_stat_cache = TextMap.remove absolute vfs.external_stat_cache;
    })

abbrev pub unlinked : KernelVfs → Text → KernelResult (ℕ × TextMap ℕ) → Step (Unit {0})
unlinked vfs absolute (err e) = (vfs, err e)
unlinked vfs absolute (ok (parent, entries)) =
    (forget_path absolute (set_entries parent entries vfs), ok tt)

unfoldable pub unlink : KernelVfs → Text → Text → Step (Unit {0})
unfolding entries_without set_contents resolve_external_path normalize_path
unlink vfs cwd path =
    let absolute = normalize_path cwd path in unlinked vfs absolute (entries_without vfs absolute)

-- A directory with its entries and one more.
abbrev pub with_entry : Text → ℕ → ℕ × TextMap ℕ → KernelResult (ℕ × TextMap ℕ)
with_entry name id found =
    if TextMap.contains_key name found.1
    then err Errno.eexist
    else ok (found.0, TextMap.insert name id found.1)

-- The directory that the path `(parent, name)` lies in, with the node under that name.
unfoldable pub entries_with : KernelVfs → Text × Text → ℕ → KernelResult (ℕ × TextMap ℕ)
unfolding directory_at
entries_with vfs p id = directory_at vfs p.0 >>= with_entry p.1 id

unfoldable pub new_entries : KernelVfs → Text → ℕ → KernelResult (ℕ × TextMap ℕ)
unfolding split_parent entries_with
new_entries vfs absolute id = split_parent absolute >>= λ p. entries_with vfs p id

abbrev insert_mode : Option ℕ → Text → TextMap ℕ → TextMap ℕ
insert_mode none absolute modes = modes
insert_mode (some mode) absolute modes = TextMap.insert absolute mode modes

abbrev pub linked : KernelVfs → Text → Text → KernelResult (ℕ × TextMap ℕ) → Step (Unit {0})
linked vfs old new (err e) = (vfs, err e)
linked vfs old new (ok (parent, entries)) = (
  record (set_entries parent entries vfs) {
    external_deletions = TextMap.remove new vfs.external_deletions;
    mem_modes = insert_mode (TextMap.get old vfs.mem_modes) new vfs.mem_modes;
  },
  ok tt,
)

unfoldable pub link : KernelVfs → Text → Text → Text → Step (Unit {0})
unfolding normalize_path lookup_abs new_entries set_contents
link vfs cwd old_path new_path =
    let old = normalize_path cwd old_path in
    let new = normalize_path cwd new_path in
    linked vfs old new (lookup_abs vfs old >>= λ id. new_entries vfs new id)

abbrev pub moved : KernelVfs → Text → Text → KernelResult (ℕ × TextMap ℕ) → Step (Unit {0})
moved vfs old new (err e) = (vfs, err e)
moved vfs old new (ok (parent, entries)) = (
  record (set_entries parent entries vfs) {
    external_deletions = TextMap.remove new vfs.external_deletions;
    mem_modes = insert_mode (TextMap.get old vfs.mem_modes) new (TextMap.remove old vfs.mem_modes);
  },
  ok tt,
)

-- The directory of the old name, the node there, and the entries without it.
unfoldable pub taken_out : KernelVfs → Text × Text → KernelResult (ℕ × ℕ × TextMap ℕ)
unfolding directory_at
taken_out vfs p = directory_at vfs p.0 >>= λ found.
    ok_or (TextMap.get p.1 found.1) Errno.enoent >>= λ id.
    ok (found.0, id, TextMap.remove p.1 found.1)

-- `rename` once the node has left its directory.
abbrev pub put_in :
    KernelVfs → Text → Text → Text × Text → KernelResult (ℕ × ℕ × TextMap ℕ) → Step (Unit {0})
put_in vfs old new q (err e) = (vfs, err e)
put_in vfs old new q (ok (parent, id, entries)) =
    let left = set_entries parent entries vfs in moved left old new (entries_with left q id)

abbrev pub renamed :
    KernelVfs → Text → Text → KernelResult ((Text × Text) × (Text × Text)) → Step (Unit {0})
renamed vfs old new (err e) = (vfs, err e)
renamed vfs old new (ok (p, q)) = put_in vfs old new q (taken_out vfs p)

unfoldable pub rename : KernelVfs → Text → Text → Text → Step (Unit {0})
unfolding normalize_path split_parent taken_out entries_with set_contents
rename vfs cwd old_path new_path =
    let old = normalize_path cwd old_path in
    let new = normalize_path cwd new_path in
    renamed vfs old new (split_parent old >>= λ p. split_parent new >>= λ q. ok (p, q))

-- `(found & !0o7777) | (mode & 0o7777)`
abbrev pub with_permissions : ℕ → ℕ → ℕ
with_permissions found mode = found - found % 0o1_0000 + mode % 0o1_0000

abbrev pub chmodded : KernelVfs → Text → ℕ → KernelResult FileStat → Step (Unit {0})
chmodded vfs path mode (err e) = (vfs, err e)
chmodded vfs path mode (ok found) = (
  record vfs { mem_modes = TextMap.insert path (with_permissions found.mode mode) vfs.mem_modes },
  ok tt,
)

unfoldable pub chmod_path : Outside → KernelVfs → Text → Text → ℕ → Step (Unit {0})
unfolding normalize_path stat_path
chmod_path outside vfs cwd path mode =
    let absolute = normalize_path cwd path in
    chmodded vfs absolute mode (stat_path outside vfs root_path absolute)

unfoldable pub chmod_handle : KernelVfs → FileHandle → ℕ → Step (Unit {0})
unfolding stat_from_locked
chmod_handle vfs handle mode = chmodded vfs handle.path mode (ok (stat_from_locked handle vfs.heap))
