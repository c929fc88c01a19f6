-- ===== src/Vfs/Mounts.antt =====
-- crates/vfs/src/lib.rs: the table of mounts.
use whuse.Prelude.{
  ℕ, Bool, not, ◌||◌, List, [], ◌∷◌, ◌++◌, Option, none, some, ltb, ◌==◌, if◌then◌else◌, length,
  retain, KernelResult, ok, err,
}
use whuse.Prelude.Errno
use whuse.Prelude.Text.{Text, text_eq, starts_with, bytes}
use whuse.Vfs.{MountRecord, proc_file, KernelVfs, Outside, set_contents}
use whuse.Vfs.Paths.{slash, root_path, normalize_path}
use whuse.Vfs.Tree.{lookup_abs}
use whuse.Vfs.Tree.Changes.{Step}
use whuse.Vfs.Tree.Creating.{mkdir}

-- The text of "/proc/mounts".
abbrev mounts_text : List MountRecord → Text
mounts_text [] = []
mounts_text (mount ∷ mounts) =
    mount.source ++ 32 ∷ mount.target ++ 32 ∷ mount.fs_type ++ 10 ∷ mounts_text mounts

abbrev refreshed : KernelVfs → KernelResult ℕ → KernelVfs
refreshed vfs (err e) = vfs
refreshed vfs (ok id) = record vfs {
  heap = set_contents id (proc_file (mounts_text vfs.mounts)) vfs.heap;
}

unfoldable pub refresh_mounts_proc : KernelVfs → KernelVfs
unfolding lookup_abs set_contents
refresh_mounts_proc vfs = refreshed vfs (lookup_abs vfs (bytes "/proc/mounts"))

-- The directory of a mount, made where it is missing.
abbrev with_target : Outside → KernelVfs → Text → KernelResult ℕ → Step (Unit {0})
with_target outside vfs absolute (ok id) = (vfs, ok tt)
with_target outside vfs absolute (err e) = mkdir outside vfs root_path absolute 0o755

abbrev mounted : MountRecord → Step (Unit {0}) → Step (Unit {0})
mounted mount (vfs, err e) = (vfs, err e)
mounted mount (vfs, ok done) =
    (refresh_mounts_proc (record vfs { mounts = vfs.mounts ++ mount ∷ [] }), ok tt)

unfoldable pub mount : Outside → KernelVfs → Text → Text → Text → ℕ → Step (Unit {0})
unfolding normalize_path lookup_abs mkdir refresh_mounts_proc
mount outside vfs source target fs_type flags =
    let absolute = normalize_path root_path target in
    mounted (record { source = source; target = absolute; fs_type = fs_type; flags = flags })
      (with_target outside vfs absolute (lookup_abs vfs absolute))

abbrev covers : Text → MountRecord → Bool
covers absolute mount =
    text_eq absolute mount.target || starts_with (mount.target ++ slash ∷ []) absolute

abbrev longer_target : Option MountRecord → MountRecord → Option MountRecord
longer_target none mount = some mount
longer_target (some best) mount =
    if ltb (length mount.target) (length best.target) then some best else some mount

-- The last of the longest targets that cover the path.
abbrev closest : Option MountRecord → List MountRecord → Text → Option MountRecord
closest best [] absolute = best
closest best (mount ∷ mounts) absolute =
    closest (if covers absolute mount then longer_target best mount else best) mounts absolute

abbrev flags_or_none : Option MountRecord → ℕ
flags_or_none none = 0
flags_or_none (some mount) = mount.flags

unfoldable pub mount_flags_for_path : KernelVfs → Text → Text → ℕ
unfolding normalize_path
mount_flags_for_path vfs cwd path =
    flags_or_none (closest none vfs.mounts (normalize_path cwd path))

abbrev forget_external : KernelVfs → KernelVfs
forget_external vfs = record vfs {
  external_stat_cache = [];
  external_preloaded = [];
  external_deletions = [];
}

abbrev without_target : Text → KernelVfs → KernelVfs
without_target absolute vfs = record vfs {
  mounts = retain (λ mount. not (text_eq mount.target absolute)) vfs.mounts;
  external_mounts = retain (λ mount. not (text_eq mount.target absolute)) vfs.external_mounts;
}

unfoldable pub umount : KernelVfs → Text → Step (Unit {0})
unfolding normalize_path refresh_mounts_proc
umount vfs target =
    let absolute = normalize_path root_path target in
    let left = without_target absolute vfs in
    let after =
      (if length left.external_mounts == length vfs.external_mounts
        then left
        else forget_external left) in
    if length left.mounts == length vfs.mounts
    then (after, err Errno.enoent)
    else (refresh_mounts_proc after, ok tt)
