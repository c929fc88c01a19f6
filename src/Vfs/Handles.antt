-- ===== src/Vfs/Handles.antt =====
-- crates/vfs/src/lib.rs: the calls that make a handle on an object without a name, and the calls on
-- such handles.
use whuse.Prelude.{ℕ, suc, Bool, true, false, List, [], ◌∷◌, ◌++◌, KernelResult, ok, err}
use whuse.Prelude.Errno
use whuse.Prelude.Text.{Text, bytes, decimal}
use whuse.Vfs.{
  NodeKind, FileStat, PipeEnd, no_end, read_end, write_end, FileHandle, EpollWatch, file, proc_file,
  epoll, pid_fd, Node, KernelVfs, Outside, node_at, set_contents, o_rdonly, o_wronly, o_rdwr,
}
use whuse.Vfs.Paths.{normalize_path}
use whuse.Vfs.Objects.{Outcome, drop_handle}
use whuse.Vfs.Objects.Writing.{truncate}
use whuse.Vfs.Tree.{lookup_abs, stat}
use whuse.Vfs.Tree.Changes.{Step}
use whuse.Vfs.Tree.Nodes.{add_node, node_pipe, node_eventfd, node_epoll, node_pidfd}

-- What a call on a handle leaves, and what it returns.
abbrev pub HandleStep : Type 0 → Type 0
HandleStep A = KernelVfs × FileHandle × KernelResult A

abbrev pub new_handle : ℕ → ℕ → Text → PipeEnd → FileHandle
new_handle id flags path end = record {
  node = id;
  offset = 0;
  flags = flags;
  path = path;
  pipe_end = end;
}

abbrev pub numbered : Text → ℕ → Text
numbered before n = before ++ decimal n ++ 93 ∷ []

-- The name of an object that takes its number from `next_pipe_id`, and the count of one more.
abbrev pub with_number :
    (Text → KernelVfs → KernelVfs × FileHandle) → Text → KernelVfs → KernelVfs × FileHandle
with_number make before vfs =
    make (numbered before vfs.next_pipe_id) (record vfs { next_pipe_id = suc vfs.next_pipe_id })

-- A handle on a new node.
abbrev pub on_new_node : Node → ℕ → Text → KernelVfs → KernelVfs × FileHandle
on_new_node node flags path vfs =
    (record vfs { heap = add_node node vfs.heap }, new_handle vfs.heap.next_node flags path no_end)

unfoldable pub create_pipe : KernelVfs → KernelVfs × FileHandle × FileHandle
unfolding decimal
create_pipe vfs =
    let path = numbered (bytes "pipe:[") vfs.next_pipe_id in
    (
      record vfs { next_pipe_id = suc vfs.next_pipe_id; heap = add_node (node_pipe path) vfs.heap },
      new_handle vfs.heap.next_node o_rdonly path read_end,
      new_handle vfs.heap.next_node o_wronly path write_end,
    )

unfoldable pub create_eventfd : KernelVfs → ℕ → KernelVfs × FileHandle
unfolding decimal
create_eventfd vfs init =
    with_number (λ path. on_new_node (node_eventfd path init) o_rdwr path) (bytes "eventfd:[") vfs

unfoldable pub create_epoll : KernelVfs → KernelVfs × FileHandle
unfolding decimal
create_epoll vfs =
    with_number (λ path. on_new_node (node_epoll path) o_rdwr path) (bytes "epoll:[") vfs

unfoldable pub epoll_watches : KernelVfs → FileHandle → KernelResult (List EpollWatch)
unfolding node_at
epoll_watches vfs handle = elim (node_at vfs.heap handle.node).contents [
  | epoll watches ↦ ok watches
  | _ ↦ err Errno.einval
]

unfoldable pub create_memfd : KernelVfs → Text → KernelVfs × FileHandle
unfolding decimal
create_memfd vfs name =
    let path = bytes "memfd:" ++ name ++ 58 ∷ decimal vfs.next_memfd_id in
    on_new_node (record { name = path; kind = NodeKind.file; contents = file [] }) o_rdwr path
      (record vfs { next_memfd_id = suc vfs.next_memfd_id })

unfoldable pub create_pidfd : KernelVfs → ℕ → KernelVfs × FileHandle
unfolding decimal
create_pidfd vfs pid =
    let path = numbered (bytes "pidfd:[") pid in on_new_node (node_pidfd path pid) o_rdonly path vfs

unfoldable pub pidfd_pid : KernelVfs → FileHandle → KernelResult ℕ
unfolding node_at
pidfd_pid vfs handle = elim (node_at vfs.heap handle.node).contents [
  | pid_fd pid ↦ ok pid
  | _ ↦ err Errno.einval
]

unfoldable pub stat_handle : KernelVfs → FileHandle → FileStat
unfolding stat
stat_handle vfs handle = stat vfs handle.path handle.node

abbrev is_pipe_kind : NodeKind → Bool
is_pipe_kind NodeKind.pipe = true
is_pipe_kind _ = false

unfoldable pub is_pipe : KernelVfs → FileHandle → Bool
unfolding node_at
is_pipe vfs handle = is_pipe_kind (node_at vfs.heap handle.node).kind

abbrev is_socket_kind : NodeKind → Bool
is_socket_kind NodeKind.socket = true
is_socket_kind _ = false

unfoldable pub is_socket : KernelVfs → FileHandle → Bool
unfolding node_at
is_socket vfs handle = is_socket_kind (node_at vfs.heap handle.node).kind

abbrev dropped : KernelVfs → Outcome (Unit {0}) → Step (Unit {0})
dropped vfs (heap, handle, r) = (record vfs { heap = drop_handle handle heap }, r)

-- The handle of its own is dropped at the end.
unfoldable pub truncate_path : Outside → KernelVfs → Text → Text → ℕ → Step (Unit {0})
unfolding normalize_path lookup_abs truncate drop_handle
truncate_path outside vfs cwd path len =
    let absolute = normalize_path cwd path in
    elim (lookup_abs vfs absolute) [
      | err e ↦ (vfs, err e)
      | ok id ↦ dropped vfs (truncate outside vfs.heap (new_handle id o_rdwr absolute no_end) len)
    ]

unfoldable pub replace_proc_file : KernelVfs → Text → List ℕ → Step (Unit {0})
unfolding lookup_abs set_contents
replace_proc_file vfs path contents = elim (lookup_abs vfs path) [
  | err e ↦ (vfs, err e)
  | ok id ↦ (record vfs { heap = set_contents id (proc_file contents) vfs.heap }, ok tt)
]
