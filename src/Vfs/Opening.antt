-- ===== src/Vfs/Opening.antt =====
-- crates/vfs/src/lib.rs: opening a file, on an external mount or in memory. The lines that the probes
-- write to the console are left out.
use whuse.Prelude.{
  ℕ, zero, suc, ◌+◌, ◌-◌, ◌/◌, ◌%◌, Bool, true, false, not, ◌||◌, ◌&&◌, List, [], ◌∷◌, ◌++◌, Option,
  none, some, ltb, ◌==◌, if◌then◌else◌, any, length, KernelResult, ok, err,
}
use whuse.Prelude.Errno
use whuse.Prelude.Text.{Text, text_eq, starts_with, is_empty, bytes}
use whuse.Prelude.TextMap
use whuse.Vfs.{
  NodeKind, FileStat, FileHandle, no_end, NodeData, file, ext4_file, ext4_dir, Node, Heap,
  ExternalMount, KernelVfs, Outside, node_at, set_contents, o_creat, o_trunc, o_directory, o_rdonly,
  o_wronly, o_rdwr, s_ifreg,
}
use whuse.Vfs.Paths.{root_path, normalize_path}
use whuse.Vfs.Objects.{Outcome, drop_handle}
use whuse.Vfs.Objects.Reading.{read_object}
use whuse.Vfs.Tree.{
  lookup_abs, is_ok, kind_at, is_directory, is_shell_token_path, resolve_external_path,
}
use whuse.Vfs.Tree.Changes.{Step}
use whuse.Vfs.Tree.Follow.{is_symlink, link_target}
use whuse.Vfs.Tree.Creating.{create_file_with_mode}
use whuse.Vfs.Tree.Nodes.{has_dir_bit}
use whuse.Vfs.Handles.{new_handle, on_new_node, stat_handle}

-- `s.ends_with(p)`
abbrev ends_with : Text → Text → Bool
ends_with p [] = text_eq p []
ends_with p (a ∷ s) = text_eq p (a ∷ s) || ends_with p s

-- `s.contains(p)`
abbrev contains : Text → Text → Bool
contains p [] = starts_with p []
contains p (a ∷ s) = starts_with p (a ∷ s) || contains p s

-- Whether a flag of one bit is set.
abbrev has_flag : ℕ → ℕ → Bool
has_flag flags bit = flags / bit % 2 == 1

abbrev is_libctest_probe_path : Text → Bool
is_libctest_probe_path path =
    any (λ probe. text_eq path probe)
      (bytes "/musl/run-static.sh"
        ∷ bytes "/musl/run-dynamic.sh"
        ∷ bytes "/musl/libctest_testcode.sh"
        ∷ bytes "/musl/runtest.exe"
        ∷ bytes "/musl/entry-static.exe"
        ∷ bytes "/musl/entry-dynamic.exe"
        ∷ [])

abbrev is_library_path : Text → Bool
is_library_path absolute =
    any (λ dir. starts_with dir absolute)
      (bytes "/lib/" ∷ bytes "/lib64/" ∷ bytes "/glibc/lib/" ∷ bytes "/musl/lib/" ∷ [])

unfoldable pub should_use_statless_external_open : Text → ℕ → Bool
should_use_statless_external_open absolute flags =
    if has_flag flags o_directory
    then false
    else if text_eq absolute (bytes "/etc/localtime")
        || ends_with (bytes "/basic/test_echo") absolute
        || is_libctest_probe_path absolute
    then true
    else is_library_path absolute
      && (contains (bytes "ld-linux") absolute
          || contains (bytes "ld-musl") absolute
          || ends_with (bytes ".so") absolute
          || contains (bytes ".so.") absolute)

-- The node that stands for a file or a directory of an external mount.
abbrev ext4_node : Text → ℕ → Text → FileStat → Option (List ℕ) → Node
ext4_node absolute mount fs_path found cached =
    if has_dir_bit found.mode
    then record {
      name = absolute;
      kind = NodeKind.directory;
      contents = ext4_dir (record {
        mount = mount;
        path = fs_path;
        mode = found.mode;
        size = found.size;
        entries = none;
      });
    }
    else record {
      name = absolute;
      kind = NodeKind.file;
      contents = ext4_file (record {
        mount = mount;
        path = fs_path;
        mode = found.mode;
        size = found.size;
        cached = cached;
      });
    }

unfoldable pub build_ext4_handle :
    KernelVfs → Text → ℕ → Text → FileStat → Option (List ℕ) → KernelVfs × FileHandle
build_ext4_handle vfs absolute mount fs_path found cached =
    on_new_node (ext4_node absolute mount fs_path found cached) o_rdonly absolute vfs

abbrev opened_as : KernelVfs × FileHandle → Step (Option FileHandle)
opened_as (vfs, handle) = (vfs, ok (some handle))

-- The handle, unless a directory is asked for and this is none.
abbrev open_found :
    KernelVfs → Text → ℕ → Text → ℕ → FileStat → Option (List ℕ) → Step (Option FileHandle)
open_found vfs absolute mount fs_path flags found cached =
    if has_flag flags o_directory && not (has_dir_bit found.mode)
    then (vfs, err Errno.enotdir)
    else opened_as (build_ext4_handle vfs absolute mount fs_path found cached)

abbrev open_stat :
    KernelVfs → Text → ℕ → Text → ℕ → KernelResult FileStat → Step (Option FileHandle)
open_stat vfs absolute mount fs_path flags (err e) =
    (vfs, if e == Errno.enoent then ok none else err e)
open_stat vfs absolute mount fs_path flags (ok found) =
    open_found
      (record vfs { external_stat_cache = TextMap.insert absolute found vfs.external_stat_cache })
      absolute mount fs_path flags found none

abbrev open_on_mount :
    Outside → KernelVfs → Text → ℕ → Option (ExternalMount × Text) → Step (Option FileHandle)
open_on_mount outside vfs absolute flags none = (vfs, ok none)
open_on_mount outside vfs absolute flags (some (mount, fs_path)) =
    if has_flag flags o_wronly
      || has_flag flags o_rdwr
      || has_flag flags o_creat
      || has_flag flags o_trunc
    then (vfs, ok none)
    else elim (TextMap.get absolute vfs.external_preloaded) [
      | some preloaded ↦
          open_found vfs absolute mount.ext4 fs_path flags preloaded.1 (some preloaded.0)
      | none ↦ elim (TextMap.get absolute vfs.external_stat_cache) [
        | some known ↦ open_found vfs absolute mount.ext4 fs_path flags known none
        | none ↦
            if should_use_statless_external_open absolute flags
            then opened_as (
                build_ext4_handle vfs absolute mount.ext4 fs_path
                  (record { mode = s_ifreg + 0o755; size = 0; nlink = 1 }) none)
            else open_stat vfs absolute mount.ext4 fs_path flags
                (outside.ext4_stat mount.ext4 fs_path)
      ]
    ]

unfoldable pub try_open_external : Outside → KernelVfs → Text → ℕ → Step (Option FileHandle)
unfolding lookup_abs resolve_external_path should_use_statless_external_open build_ext4_handle
try_open_external outside vfs absolute flags =
    if is_shell_token_path absolute
      || is_ok (lookup_abs vfs absolute)
      || TextMap.contains_key absolute vfs.external_deletions
    then (vfs, ok none)
    else open_on_mount outside vfs absolute flags (resolve_external_path vfs absolute)

-- The node of a path, made where it is missing and may be made.
abbrev found_again : KernelVfs × KernelResult (Unit {0}) → Text → Step ℕ
found_again (vfs, err e) absolute = (vfs, err e)
found_again (vfs, ok done) absolute = (vfs, lookup_abs vfs absolute)

abbrev find_or_create : Outside → KernelVfs → Text → ℕ → ℕ → KernelResult ℕ → Step ℕ
find_or_create outside vfs absolute flags mode (ok id) = (vfs, ok id)
find_or_create outside vfs absolute flags mode (err e) =
    elim (e == Errno.enoent && has_flag flags o_creat) [
      | true ↦ found_again (create_file_with_mode outside vfs root_path absolute [] mode) absolute
      | false ↦ (vfs, err e)
    ]

abbrev cleared : ℕ → NodeData → Heap → Heap
cleared id contents heap = elim contents [ file buf ↦ set_contents id (file []) heap | _ ↦ heap ]

-- The end of `open_mem`, with the node.
abbrev open_node : KernelVfs → Text → ℕ → ℕ → Step FileHandle
open_node vfs resolved flags id =
    if has_flag flags o_directory && not (is_directory (kind_at vfs id))
    then (vfs, err Errno.enotdir)
    else (
      (if has_flag flags o_trunc
          then record vfs { heap = cleared id (node_at vfs.heap id).contents vfs.heap }
          else vfs),
      ok (new_handle id flags resolved no_end),
    )

abbrev handle_or_enoent : Step (Option FileHandle) → Step FileHandle
handle_or_enoent (vfs, err e) = (vfs, err e)
handle_or_enoent (vfs, ok none) = (vfs, err Errno.enoent)
handle_or_enoent (vfs, ok (some handle)) = (vfs, ok handle)

abbrev open_target : Outside → KernelVfs → Text → ℕ → KernelResult ℕ → Step FileHandle
open_target outside vfs resolved flags (ok id) = open_node vfs resolved flags id
open_target outside vfs resolved flags (err e) =
    if e == Errno.enoent
    then handle_or_enoent (try_open_external outside vfs resolved flags)
    else (vfs, err e)

abbrev open_link : Outside → KernelVfs → ℕ → KernelResult Text → Step FileHandle
open_link outside vfs flags (err e) = (vfs, err e)
open_link outside vfs flags (ok resolved) =
    open_target outside vfs resolved flags (lookup_abs vfs resolved)

abbrev open_at : Outside → Text → ℕ → Step ℕ → Step FileHandle
open_at outside absolute flags (vfs, err e) = (vfs, err e)
open_at outside absolute flags (vfs, ok id) =
    if is_symlink (kind_at vfs id)
    then open_link outside vfs flags (link_target vfs absolute id)
    else open_node vfs absolute flags id

unfoldable pub open_mem : Outside → KernelVfs → Text → ℕ → ℕ → Step FileHandle
unfolding lookup_abs create_file_with_mode link_target try_open_external node_at set_contents
open_mem outside vfs absolute flags mode =
    open_at outside absolute flags
      (find_or_create outside vfs absolute flags mode (lookup_abs vfs absolute))

abbrev or_in_memory : Outside → Text → ℕ → ℕ → Step (Option FileHandle) → Step FileHandle
or_in_memory outside absolute flags mode (vfs, err e) = (vfs, err e)
or_in_memory outside absolute flags mode (vfs, ok (some handle)) = (vfs, ok handle)
or_in_memory outside absolute flags mode (vfs, ok none) = open_mem outside vfs absolute flags mode

-- `KernelVfs::open`
unfoldable pub open_path : Outside → KernelVfs → Text → Text → ℕ → ℕ → Step FileHandle
unfolding normalize_path try_open_external open_mem
open_path outside vfs cwd path flags mode =
    let absolute = normalize_path cwd path in
    or_in_memory outside absolute flags mode (try_open_external outside vfs absolute flags)

unfoldable pub preload_external_file : KernelVfs → Text → List ℕ → Option ℕ → KernelVfs
unfolding normalize_path
preload_external_file vfs path contents mode =
    let absolute = normalize_path root_path path in
    let found : FileStat = record {
      mode = elim mode [ none ↦ s_ifreg + 0o755 | some given ↦ given ];
      size = length contents;
      nlink = 1;
    } in
    record vfs {
      external_preloaded = TextMap.insert absolute (contents, found) vfs.external_preloaded;
      external_stat_cache = TextMap.insert absolute found vfs.external_stat_cache;
    }

-- The loop of `read_file_all`; each turn but the last adds a byte, so that the size is fuel enough.
unfoldable pub read_chunks : ℕ → Outside → Heap → FileHandle → ℕ → List ℕ → Outcome (List ℕ)
unfolding read_object
read_chunks zero outside heap handle size out = (heap, handle, ok out)
read_chunks (suc fuel) outside heap handle size out = elim (ltb (length out) size) [
  | false ↦ (heap, handle, ok out)
  | true ↦
      let (after, moved, chunk) = read_object outside heap handle (size - length out) in
      elim chunk [
        | err e ↦ (after, moved, err e)
        | ok found ↦ elim (is_empty found) [
          | true ↦ (after, moved, ok out)
          | false ↦ read_chunks fuel outside after moved size (out ++ found)
        ]
      ]
]

-- The handle is dropped at the end.
abbrev read_and_drop : KernelVfs → Outcome (List ℕ) → Step (List ℕ)
read_and_drop vfs (heap, handle, r) = (record vfs { heap = drop_handle handle heap }, r)

abbrev read_opened : Outside → Step FileHandle → Step (List ℕ)
read_opened outside (vfs, err e) = (vfs, err e)
read_opened outside (vfs, ok handle) =
    let size = (stat_handle vfs handle).size in
    read_and_drop vfs (read_chunks size outside vfs.heap handle size [])

unfoldable pub read_file_all : Outside → KernelVfs → Text → Text → Step (List ℕ)
unfolding open_path stat_handle read_chunks drop_handle
read_file_all outside vfs cwd path = read_opened outside (open_path outside vfs cwd path o_rdonly 0)
