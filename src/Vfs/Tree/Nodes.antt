-- ===== src/Vfs/Tree/Nodes.antt =====
-- crates/vfs/src/lib.rs: how nodes come into the tree, with the directories above them that an
-- external mount has. The fuel of `ensure_memory_dir` counts the paths above; out of fuel it has no
-- result.
pub mod Depth
use whuse.Prelude.{
  ℕ, zero, suc, ◌+◌, ◌/◌, ◌%◌, Bool, true, false, not, ◌||◌, List, [], ◌∷◌, ◌++◌, Option, none,
  some, ◌==◌, if◌then◌else◌, length, retain, replicate, KernelResult, ok, err,
}
use whuse.Prelude.Errno
use whuse.Prelude.Text.{Text, text_eq, bytes}
use whuse.Prelude.TextMap
use whuse.Prelude.TextMap.{TextMap}
use whuse.Prelude.BTreeMap.{insert}
use whuse.Vfs.{
  NodeKind, FileStat, MountRecord, NodeData, directory, file, char_device, proc_file, pipe, symlink,
  event, epoll, socket_pending, socket_raw, pid_fd, PipeState, SocketPending, RawSocketState, Node,
  Heap, ExternalMount, KernelVfs, Outside, set_contents, s_ifreg, s_ifdir, s_iflnk,
}
use whuse.Vfs.Paths.{root_path, normalize_path, split_parent}
use whuse.Vfs.Tree.{lookup_abs, is_ok}
use whuse.Vfs.Tree.Follow.{external_stat_path}
use whuse.Vfs.Tree.Changes.{Step, set_entries, entries_with}

abbrev data_or : Option NodeData → NodeData → NodeData
data_or none otherwise = otherwise
data_or (some contents) otherwise = contents

abbrev pub node_pipe : Text → Node
node_pipe name = record {
  name = name;
  kind = NodeKind.pipe;
  contents = pipe (record { buf = []; readers = 1; writers = 1 });
}

abbrev pub node_eventfd : Text → ℕ → Node
node_eventfd name init = record { name = name; kind = NodeKind.event; contents = event init }

abbrev pub node_epoll : Text → Node
node_epoll name = record { name = name; kind = NodeKind.epoll; contents = epoll [] }

abbrev pub node_socket_pending : Text → ℕ → ℕ → Node
node_socket_pending name family sock_type = record {
  name = name;
  kind = NodeKind.socket;
  contents = socket_pending (record {
    path = none;
    listening = false;
    family = family;
    sock_type = sock_type;
    multicast_joined = false;
    pending = [];
  });
}

abbrev pub node_socket_raw : Text → ℕ → ℕ → Node
node_socket_raw name family protocol = record {
  name = name;
  kind = NodeKind.socket;
  contents = socket_raw (record {
    family = family;
    protocol = protocol;
    bound_path = none;
    checksum_offset = none;
    icmp6_filter = replicate 8 0;
    ipv6_recv_opts = [];
    inbox = [];
  });
}

abbrev pub node_pidfd : Text → ℕ → Node
node_pidfd name pid = record { name = name; kind = NodeKind.pid_fd; contents = pid_fd pid }

-- The node that `create_node` makes.
abbrev pub fresh_node : NodeKind → Text → Option NodeData → Node
fresh_node NodeKind.directory name contents = record {
  name = name;
  kind = NodeKind.directory;
  contents = directory [];
}
fresh_node NodeKind.file name contents = record {
  name = name;
  kind = NodeKind.file;
  contents = data_or contents (file []);
}
fresh_node NodeKind.char_device name contents = record {
  name = name;
  kind = NodeKind.char_device;
  contents = data_or contents char_device;
}
fresh_node NodeKind.proc name contents = record {
  name = name;
  kind = NodeKind.proc;
  contents = data_or contents (proc_file []);
}
fresh_node NodeKind.pipe name contents = node_pipe name
fresh_node NodeKind.symlink name contents = record {
  name = name;
  kind = NodeKind.symlink;
  contents = data_or contents (symlink []);
}
fresh_node NodeKind.event name contents = node_eventfd name 0
fresh_node NodeKind.epoll name contents = node_epoll name
fresh_node NodeKind.socket name contents = node_socket_pending name 1 1
fresh_node NodeKind.pid_fd name contents = node_pidfd name 0

-- `Arc::new`
abbrev pub add_node : Node → Heap → Heap
add_node node heap = record heap {
  nodes = insert heap.next_node node heap.nodes;
  next_node = suc heap.next_node;
}

-- The end of `create_node`.
abbrev pub created : KernelVfs → Text → Node → KernelResult (ℕ × TextMap ℕ) → Step (Unit {0})
created vfs absolute node (err e) = (vfs, err e)
created vfs absolute node (ok (parent, entries)) = (
  set_entries parent entries (record vfs {
    external_deletions = TextMap.remove absolute vfs.external_deletions;
    heap = add_node node vfs.heap;
  }),
  ok tt,
)

-- Once the directory is there.
abbrev pub create_under :
    Text → Text × Text → NodeKind → Option NodeData → Step (Unit {0}) → Step (Unit {0})
create_under absolute p kind contents (vfs, err e) = (vfs, err e)
create_under absolute p kind contents (vfs, ok done) =
    created vfs absolute (fresh_node kind p.1 contents) (entries_with vfs p vfs.heap.next_node)

-- What `ensure_memory_dir` does to the file system, if it returns: none where its fuel has run out.
abbrev pub Ensure : Type 0
Ensure = KernelVfs → Text → Option (Step (Unit {0}))

abbrev pub with_parent : Ensure → KernelVfs → Text → KernelResult ℕ → Option (Step (Unit {0}))
with_parent ensure vfs parent_path (ok parent) = some (vfs, ok tt)
with_parent ensure vfs parent_path (err e) = elim (e == Errno.enoent) [
  | true ↦ ensure vfs parent_path
  | false ↦ some (vfs, err e)
]

-- `create_node` goes on once the directory has been looked for.
abbrev pub create_after :
    Text
    → Text × Text
    → NodeKind
    → Option NodeData
    → Option (Step (Unit {0}))
    → Option (Step (Unit {0}))
create_after absolute p kind contents none = none
create_after absolute p kind contents (some done) =
    some (create_under absolute p kind contents done)

abbrev pub create_split :
    Ensure
    → KernelVfs
    → Text
    → NodeKind
    → Option NodeData
    → KernelResult (Text × Text)
    → Option (Step (Unit {0}))
create_split ensure vfs absolute kind contents (err e) = some (vfs, err e)
create_split ensure vfs absolute kind contents (ok p) =
    create_after absolute p kind contents (with_parent ensure vfs p.0 (lookup_abs vfs p.0))

-- `create_node` over `ensure_memory_dir`, which calls it in turn.
unfoldable pub create_node_with :
    Ensure → KernelVfs → Text → NodeKind → Option NodeData → Option (Step (Unit {0}))
unfolding split_parent lookup_abs entries_with set_contents
create_node_with ensure vfs absolute kind contents =
    if text_eq absolute root_path
    then some (vfs, err Errno.eexist)
    else create_split ensure vfs absolute kind contents (split_parent absolute)

-- `mode & S_IFDIR == S_IFDIR`
abbrev pub has_dir_bit : ℕ → Bool
has_dir_bit mode = mode / s_ifdir % 2 == 1

abbrev pub create_known :
    Ensure → KernelVfs → Text → KernelResult (Option FileStat) → Option (Step (Unit {0}))
create_known ensure vfs absolute (err e) = some (vfs, err e)
create_known ensure vfs absolute (ok none) = some (vfs, err Errno.enoent)
create_known ensure vfs absolute (ok (some found)) = elim (has_dir_bit found.mode) [
  | true ↦ create_node_with ensure vfs absolute NodeKind.directory none
  | false ↦ some (vfs, err Errno.enotdir)
]

-- `ensure_memory_dir` once it has called itself for the parent.
abbrev pub ensure_below :
    Ensure → Outside → Text → Option (Step (Unit {0})) → Option (Step (Unit {0}))
ensure_below ensure outside absolute none = none
ensure_below ensure outside absolute (some (vfs, err e)) = some (vfs, err e)
ensure_below ensure outside absolute (some (vfs, ok done)) =
    create_known ensure vfs absolute (external_stat_path outside vfs absolute)

abbrev pub ensure_split :
    Ensure → Outside → KernelVfs → Text → KernelResult (Text × Text) → Option (Step (Unit {0}))
ensure_split ensure outside vfs absolute (err e) = some (vfs, err e)
ensure_split ensure outside vfs absolute (ok p) =
    ensure_below ensure outside absolute (ensure vfs p.0)

unfoldable pub ensure_memory_dir : ℕ → Outside → Ensure
unfolding lookup_abs split_parent create_node_with external_stat_path
ensure_memory_dir zero outside vfs absolute = none
ensure_memory_dir (suc fuel) outside vfs absolute =
    elim (text_eq absolute root_path || is_ok (lookup_abs vfs absolute)) [
      | true ↦ some (vfs, ok tt)
      | false ↦
          ensure_split (ensure_memory_dir fuel outside) outside vfs absolute (split_parent absolute)
    ]
