-- ===== src/Vfs/Tree/Follow.antt =====
-- crates/vfs/src/lib.rs: paths through symbolic links and on an external mount. The source stops
-- at the sixteenth link; the fuel counts the links that are left.
use whuse.Prelude.{
  ℕ, zero, suc, ◌+◌, Bool, true, false, ◌||◌, Option, none, some, ◌==◌, if◌then◌else◌, KernelResult,
  ok, err, ◌>>=◌,
}
use whuse.Prelude.Errno
use whuse.Prelude.Text.{Text}
use whuse.Prelude.TextMap
use whuse.Vfs.{
  FileStat, NodeKind, NodeData, symlink, ExternalMount, KernelVfs, Outside, node_at, s_ifdir,
}
use whuse.Vfs.Paths.{normalize_path, split_parent}
use whuse.Vfs.Tree.{
  lookup_abs, is_ok, kind_at, is_directory, is_memory_preferred_path, resolve_external_path,
  has_key_below, dir_prefix, is_shell_token_path, stat,
}

abbrev pub is_known_below : KernelVfs → Text → Bool
is_known_below vfs absolute =
    has_key_below (dir_prefix absolute) vfs.external_preloaded
    || has_key_below (dir_prefix absolute) vfs.external_stat_cache

abbrev stat_or_nothing : KernelResult FileStat → KernelResult (Option FileStat)
stat_or_nothing (ok found) = ok (some found)
stat_or_nothing (err e) = if e == Errno.enoent then ok none else err e

abbrev stat_on_mount :
    Outside → KernelVfs → Text → Option (ExternalMount × Text) → KernelResult (Option FileStat)
stat_on_mount outside vfs absolute none = ok none
stat_on_mount outside vfs absolute (some (mount, fs_path)) =
    if is_known_below vfs absolute
    then ok (some (record { mode = s_ifdir + 0o755; size = 0; nlink = 1 }))
    else stat_or_nothing (outside.ext4_stat mount.ext4 fs_path)

unfoldable pub external_stat_path : Outside → KernelVfs → Text → KernelResult (Option FileStat)
unfolding lookup_abs is_memory_preferred_path resolve_external_path
external_stat_path outside vfs absolute =
    if is_shell_token_path absolute
      || is_ok (lookup_abs vfs absolute)
      || is_memory_preferred_path absolute
    then ok none
    else elim (TextMap.get absolute vfs.external_preloaded) [
      | some preloaded ↦ ok (some preloaded.1)
      | none ↦
          if TextMap.contains_key absolute vfs.external_deletions
          then ok none
          else elim (TextMap.get absolute vfs.external_stat_cache) [
            | some known ↦ ok (some known)
            | none ↦ stat_on_mount outside vfs absolute (resolve_external_path vfs absolute)
          ]
    ]

abbrev pub is_symlink : NodeKind → Bool
is_symlink NodeKind.symlink = true
is_symlink _ = false

-- Where a symbolic link leads.
unfoldable pub link_target : KernelVfs → Text → ℕ → KernelResult Text
unfolding node_at split_parent normalize_path
link_target vfs absolute id = elim (node_at vfs.heap id).contents [
  | symlink target ↦ split_parent absolute >>= λ p. ok (normalize_path p.0 target)
  | _ ↦ err Errno.einval
]

unfoldable pub stat_path_follow : ℕ → Outside → KernelVfs → Text → KernelResult FileStat
unfolding external_stat_path lookup_abs stat link_target
stat_path_follow zero outside vfs absolute = err Errno.eloop
stat_path_follow (suc left) outside vfs absolute =
    external_stat_path outside vfs absolute >>= λ found. elim found [
      | some known ↦ ok known
      | none ↦ lookup_abs vfs absolute >>= λ id. elim (is_symlink (kind_at vfs id)) [
        | true ↦ link_target vfs absolute id >>= stat_path_follow left outside vfs
        | false ↦ ok (stat vfs absolute id)
      ]
    ]

unfoldable pub stat_path : Outside → KernelVfs → Text → Text → KernelResult FileStat
unfolding stat_path_follow normalize_path
stat_path outside vfs cwd path = stat_path_follow 16 outside vfs (normalize_path cwd path)

unfoldable pub access : Outside → KernelVfs → Text → Text → KernelResult (Unit {0})
unfolding stat_path_follow normalize_path
access outside vfs cwd path =
    stat_path_follow 16 outside vfs (normalize_path cwd path) >>= λ found. ok tt

abbrev exists_on_mount : Option (ExternalMount × Text) → KernelResult (Unit {0})
exists_on_mount none = err Errno.enoent
exists_on_mount (some mount) = ok tt

-- Every path on an external mount counts as one that is there.
abbrev path_exists_outside : KernelVfs → Text → KernelResult (Unit {0})
path_exists_outside vfs absolute =
    if TextMap.contains_key absolute vfs.external_preloaded
    then ok tt
    else if TextMap.contains_key absolute vfs.external_deletions
        || is_memory_preferred_path absolute
    then err Errno.enoent
    else exists_on_mount (resolve_external_path vfs absolute)

unfoldable pub path_exists_follow : ℕ → KernelVfs → Text → KernelResult (Unit {0})
unfolding lookup_abs link_target is_memory_preferred_path resolve_external_path
path_exists_follow zero vfs absolute = err Errno.eloop
path_exists_follow (suc left) vfs absolute = elim (lookup_abs vfs absolute) [
  | ok id ↦ elim (is_symlink (kind_at vfs id)) [
    | true ↦ link_target vfs absolute id >>= path_exists_follow left vfs
    | false ↦ ok tt
  ]
  | err e ↦ path_exists_outside vfs absolute
]

unfoldable pub path_exists : KernelVfs → Text → KernelResult (Unit {0})
unfolding path_exists_follow
path_exists vfs absolute = path_exists_follow 16 vfs absolute

unfoldable pub resolve_mem_path : ℕ → KernelVfs → Text → KernelResult (Text × ℕ)
unfolding lookup_abs link_target
resolve_mem_path zero vfs path = err Errno.eloop
resolve_mem_path (suc left) vfs path = lookup_abs vfs path >>= λ id.
    elim (is_symlink (kind_at vfs id)) [
      | true ↦ link_target vfs path id >>= resolve_mem_path left vfs
      | false ↦ ok (path, id)
    ]

abbrev chdir_outside : KernelVfs → Text → KernelResult Text
chdir_outside vfs absolute =
    if is_memory_preferred_path absolute
    then err Errno.enoent
    else if TextMap.contains_key absolute vfs.external_preloaded
    then ok absolute
    else exists_on_mount (resolve_external_path vfs absolute) >>= λ found. ok absolute

unfoldable pub chdir : KernelVfs → Text → Text → KernelResult Text
unfolding normalize_path lookup_abs is_memory_preferred_path resolve_external_path
chdir vfs cwd path =
    let absolute = normalize_path cwd path in
    elim (lookup_abs vfs absolute) [
      | ok id ↦ if is_directory (kind_at vfs id) then ok absolute else err Errno.enotdir
      | err e ↦ chdir_outside vfs absolute
    ]

abbrev link_text : NodeData → KernelResult Text
link_text contents = elim contents [ symlink target ↦ ok target | _ ↦ err Errno.einval ]

unfoldable pub read_link : Outside → KernelVfs → Text → Text → KernelResult Text
unfolding normalize_path lookup_abs resolve_external_path node_at
read_link outside vfs cwd path =
    let absolute = normalize_path cwd path in
    elim (resolve_external_path vfs absolute) [
      | some found ↦ outside.ext4_read_link found.0.ext4 found.1
      | none ↦ lookup_abs vfs absolute >>= λ id. link_text (node_at vfs.heap id).contents
    ]
