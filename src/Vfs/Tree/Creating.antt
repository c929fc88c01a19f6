-- ===== src/Vfs/Tree/Creating.antt =====
-- crates/vfs/src/lib.rs: `create_node` and the calls that make a node of one kind. The length of the
-- path is fuel enough for the directories above it, so that there always is a result.
use whuse.Prelude.{ℕ, ◌+◌, ◌%◌, List, Option, none, some, length, ok, err}
use whuse.Prelude.Text.{Text}
use whuse.Prelude.TextMap
use whuse.Vfs.{
  NodeKind, NodeData, file, char_device, proc_file, symlink, KernelVfs, Outside, s_ifreg, s_ifdir,
  s_iflnk,
}
use whuse.Vfs.Paths.{normalize_path}
use whuse.Vfs.Tree.Changes.{Step}
use whuse.Vfs.Tree.Nodes.{create_node_with, ensure_memory_dir}
use whuse.Vfs.Tree.Nodes.Depth.{result, create_node_with-Gives}

unfoldable pub create_node :
    Outside → KernelVfs → Text → NodeKind → Option NodeData → Step (Unit {0})
unfolding create_node_with ensure_memory_dir
create_node outside vfs absolute kind contents =
    result
      (create_node_with (ensure_memory_dir (length absolute) outside) vfs absolute kind contents)
      (create_node_with-Gives outside vfs absolute kind contents)

abbrev pub set_mode : Text → ℕ → Step (Unit {0}) → Step (Unit {0})
set_mode absolute mode (vfs, err e) = (vfs, err e)
set_mode absolute mode (vfs, ok done) =
    (record vfs { mem_modes = TextMap.insert absolute mode vfs.mem_modes }, ok tt)

unfoldable pub create_char_device : Outside → KernelVfs → Text → Step (Unit {0})
unfolding create_node
create_char_device outside vfs path =
    create_node outside vfs path NodeKind.char_device (some char_device)

unfoldable pub create_proc_file : Outside → KernelVfs → Text → List ℕ → Step (Unit {0})
unfolding create_node
create_proc_file outside vfs path contents =
    create_node outside vfs path NodeKind.proc (some (proc_file contents))

unfoldable pub create_file_with_mode :
    Outside → KernelVfs → Text → Text → List ℕ → ℕ → Step (Unit {0})
unfolding create_node normalize_path
create_file_with_mode outside vfs cwd path contents mode =
    let absolute = normalize_path cwd path in
    set_mode absolute (s_ifreg + mode % 0o1_0000)
      (create_node outside vfs absolute NodeKind.file (some (file contents)))

unfoldable pub create_file : Outside → KernelVfs → Text → Text → List ℕ → Step (Unit {0})
unfolding create_file_with_mode
create_file outside vfs cwd path contents =
    create_file_with_mode outside vfs cwd path contents (s_ifreg + 0o755)

unfoldable pub create_symlink : Outside → KernelVfs → Text → Text → Text → Step (Unit {0})
unfolding create_node normalize_path
create_symlink outside vfs cwd path target =
    let absolute = normalize_path cwd path in
    set_mode absolute (s_iflnk + 0o777)
      (create_node outside vfs absolute NodeKind.symlink (some (symlink target)))

unfoldable pub mkdir : Outside → KernelVfs → Text → Text → ℕ → Step (Unit {0})
unfolding create_node normalize_path
mkdir outside vfs cwd path mode =
    let absolute = normalize_path cwd path in
    set_mode absolute (s_ifdir + mode % 0o1_0000)
      (create_node outside vfs absolute NodeKind.directory none)
