-- ===== src/Vfs/Dirents.antt =====
-- crates/vfs/src/lib.rs: the entries of a directory as `getdents64` wants them.
mod Records
mod Tests
use whuse.Prelude.{
  ℕ, zero, suc, ◌+◌, ◌-◌, ◌/◌, ◌*◌, ◌%◌, ◌^◌, Bool, not, ◌&&◌, List, [], ◌∷◌, ◌++◌, ltb, ◌==◌,
  if◌then◌else◌, length, drop, replicate, retain, map, leb, ◌||◌, Option, none, some, KernelResult,
  ok, err,
}
use whuse.Prelude.Errno
use whuse.Prelude.Words.{saturating_add}
use whuse.Prelude.Text.{Text, text_eq, to_le_bytes}
use whuse.Prelude.TextMap
use whuse.Vfs.{
  NodeKind, FileStat, FileHandle, Ext4NodeKind, Ext4DirEntry, Ext4DirState, directory, ext4_dir,
  Heap, KernelVfs, Outside, node_at, set_contents,
}
use whuse.Vfs.Paths.{normalize_path}
use whuse.Vfs.Handles.{HandleStep}

abbrev pub node_kind_to_dirent_type : NodeKind → ℕ
node_kind_to_dirent_type NodeKind.directory = 4
node_kind_to_dirent_type NodeKind.symlink = 10
node_kind_to_dirent_type _ = 8

-- `align_up(19 + name.len() + 1, 8)`
abbrev pub record_length : Text → ℕ
record_length name = (19 + length name + 1 + 7) / 8 * 8

-- The zeros up to a multiple of 8.
abbrev pub padding : ℕ → ℕ
padding len = (8 - len % 8) % 8

abbrev pub dirent : ℕ → Text → ℕ → List ℕ
dirent index name file_type =
    to_le_bytes 8 (index + 1)
    ++ to_le_bytes 8 (index + 1)
    ++ to_le_bytes 2 (record_length name)
    ++ file_type ∷ name
    ++ 0 ∷ []

unfoldable pub append_dirent : List ℕ → ℕ → Text → ℕ → List ℕ
unfolding to_le_bytes
append_dirent out index name file_type =
    let written = out ++ dirent index name file_type in
    written ++ replicate (padding (length written)) 0

abbrev pub ext4_kind_to_dirent_type : Ext4NodeKind → ℕ
ext4_kind_to_dirent_type Ext4NodeKind.directory = 4
ext4_kind_to_dirent_type Ext4NodeKind.symlink = 10
ext4_kind_to_dirent_type _ = 8

-- The loop over the entries from the handle's place on, with the bytes so far and their count.
unfoldable pub emit_entries : ℕ → ℕ → List ℕ → ℕ → List (Text × ℕ) → List ℕ × ℕ
unfolding append_dirent
emit_entries max_len index out emitted [] = (out, emitted)
emit_entries max_len index out emitted ((name, file_type) ∷ entries) =
    let rest =
      emit_entries max_len (suc index) (append_dirent out index name file_type) (suc emitted)
        entries in
    if not (emitted == 0) && ltb max_len (length out + record_length name)
    then (out, emitted)
    else rest

abbrev pub emitted_from : KernelVfs → FileHandle → List ℕ × ℕ → HandleStep (List ℕ)
emitted_from vfs handle (out, emitted) =
    (vfs, record handle { offset = saturating_add handle.offset emitted }, ok out)

abbrev pub typed : Heap → Text × ℕ → Text × ℕ
typed heap (name, id) = (name, node_kind_to_dirent_type (node_at heap id).kind)

abbrev ext4_typed : Text × Ext4NodeKind → Text × ℕ
ext4_typed (name, kind) = (name, ext4_kind_to_dirent_type kind)

abbrev is_dots : Text → Bool
is_dots name = text_eq name (46 ∷ []) || text_eq name (46 ∷ 46 ∷ [])

unfoldable pub cache_external_dirent_stat : Text → Text → FileStat → KernelVfs → KernelVfs
unfolding normalize_path
cache_external_dirent_stat dir_absolute name found vfs = record vfs {
  external_stat_cache =
      TextMap.insert (normalize_path dir_absolute name) found vfs.external_stat_cache;
}

abbrev cache_each : Text → List Ext4DirEntry → KernelVfs → KernelVfs
cache_each dir [] vfs = vfs
cache_each dir (entry ∷ entries) vfs =
    cache_each dir entries (cache_external_dirent_stat dir entry.name entry.stat vfs)

abbrev cached_entries :
    Text
    → KernelVfs
    → KernelResult (List Ext4DirEntry)
    → KernelVfs × KernelResult (List (Text × Ext4NodeKind))
cached_entries dir vfs (err e) = (vfs, err e)
cached_entries dir vfs (ok found) =
    let entries = retain (λ entry. not (is_dots entry.name)) found in
    (cache_each dir entries vfs, ok (map (λ entry. (entry.name, entry.kind)) entries))

abbrev lite_entries :
    KernelResult (List (Text × Ext4NodeKind)) → KernelResult (List (Text × Ext4NodeKind))
lite_entries (err e) = err e
lite_entries (ok found) = ok (retain (λ entry. not (is_dots entry.0)) found)

abbrev ext4_dir_stat_cache_max_size : ℕ
ext4_dir_stat_cache_max_size = 512 * 1024

-- The entries of an external directory, read when they are first asked for.
abbrev entries_of_ext4 :
    Outside
    → Text
    → Ext4DirState
    → KernelVfs
    → KernelVfs × KernelResult (List (Text × Ext4NodeKind))
entries_of_ext4 outside dir state vfs = elim state.entries [
  | some entries ↦ (vfs, ok entries)
  | none ↦
      if leb state.size ext4_dir_stat_cache_max_size
      then cached_entries dir vfs (outside.ext4_read_dir state.mount state.path)
      else (vfs, lite_entries (outside.ext4_read_dir_lite state.mount state.path))
]

abbrev emit_ext4 : KernelVfs → FileHandle → ℕ → List (Text × Ext4NodeKind) → HandleStep (List ℕ)
emit_ext4 vfs handle max_len entries =
    if ltb (length entries) handle.offset
    then (vfs, record handle { offset = length entries }, ok [])
    else emitted_from vfs handle
        (emit_entries max_len handle.offset [] 0 (map ext4_typed (drop handle.offset entries)))

abbrev getdents_ext4 :
    FileHandle
    → ℕ
    → Ext4DirState
    → KernelVfs × KernelResult (List (Text × Ext4NodeKind))
    → HandleStep (List ℕ)
getdents_ext4 handle max_len state (vfs, err e) = (vfs, handle, err e)
getdents_ext4 handle max_len state (vfs, ok entries) =
    emit_ext4
      (record vfs {
        heap =
            set_contents handle.node (ext4_dir (record state { entries = some entries })) vfs.heap;
      })
      handle max_len entries

unfoldable pub getdents : Outside → KernelVfs → FileHandle → ℕ → HandleStep (List ℕ)
unfolding node_at set_contents emit_entries cache_external_dirent_stat
getdents outside vfs handle max_len =
    if max_len == 0 then (vfs, handle, ok []) else elim (node_at vfs.heap handle.node).contents [
      | directory entries ↦ emitted_from vfs handle (
          emit_entries max_len handle.offset [] 0
            (map (typed vfs.heap) (drop handle.offset entries)))
      | ext4_dir state ↦
          getdents_ext4 handle max_len state (entries_of_ext4 outside handle.path state vfs)
      | _ ↦ (vfs, handle, err Errno.enotdir)
    ]
