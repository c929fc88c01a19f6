-- ===== src/Vfs/Objects.antt =====
-- crates/vfs/src/lib.rs: what a `FileHandle` does: `KernelObject`, `Clone` and `Drop`. The source
-- holds the lock of the node throughout each of them.
pub mod Reading
pub mod Writing
pub mod Status
use whuse.Prelude.{
  ℕ, suc, ◌+◌, ◌-◌, ◌*◌, ◌/◌, ◌%◌, ◌^◌, min, Bool, true, false, not, ◌||◌, ◌&&◌, List, [], ◌∷◌,
  ◌++◌, Option, none, some, ltb, leb, ◌==◌, if◌then◌else◌, length, take, drop, replicate,
  KernelResult, ok, err,
}
use whuse.Prelude.Errno
use whuse.Prelude.Words.{usize_mod, wrapping_add, saturating_add, checked_sub}
use whuse.Prelude.Text.{Text, text_eq, starts_with, is_empty, bytes}
use whuse.Prelude.Integers.{ℤ, pos, negsuc}
use whuse.Prelude.BTreeMap.{get, insert}
use whuse.Vfs.{
  NodeKind, FileStat, PipeEnd, no_end, read_end, write_end, FileHandle, ObjectKind, SocketChannel,
  NodeData, directory, file, ext4_file, ext4_dir, char_device, proc_file, pipe, symlink, event,
  epoll, socket_pending, socket_connected, socket_raw, pid_fd, PipeState, Node, Heap, Outside,
  node_at, set_contents, s_ifreg, s_ifdir, s_ifchr, s_ififo, s_iflnk, s_ifsock,
  inmem_file_size_limit,
}

-- What an operation leaves of the heap and of its handle, and what it returns.
abbrev pub Outcome : Type 0 → Type 0
Outcome A = Heap × FileHandle × KernelResult A

-- A channel by its number; an `Arc` points to one.
abbrev pub channel_or : Option SocketChannel → SocketChannel
channel_or none = record { inbox0 = []; inbox1 = []; open0 = 0; open1 = 0 }
channel_or (some channel) = channel

unfoldable pub channel_at : Heap → ℕ → SocketChannel
channel_at heap id = channel_or (get id heap.channels)

abbrev pub inbox : ℕ → SocketChannel → List ℕ
inbox side channel = if side == 0 then channel.inbox0 else channel.inbox1

abbrev pub open_sides : ℕ → SocketChannel → ℕ
open_sides side channel = if side == 0 then channel.open0 else channel.open1

abbrev pub with_inbox : ℕ → List ℕ → SocketChannel → SocketChannel
with_inbox side buf channel =
    if side == 0 then record channel { inbox0 = buf } else record channel { inbox1 = buf }

abbrev pub with_open : ℕ → ℕ → SocketChannel → SocketChannel
with_open side count channel =
    if side == 0 then record channel { open0 = count } else record channel { open1 = count }

unfoldable pub set_channel : ℕ → SocketChannel → Heap → Heap
set_channel id channel heap = record heap { channels = insert id channel heap.channels }

abbrev adjust_count : ℤ → ℕ → ℕ
adjust_count (pos n) count = saturating_add count n
adjust_count (negsuc n) count = count - suc n

abbrev pub adjust_pipe : PipeEnd → ℤ → PipeState → PipeState
adjust_pipe no_end delta state = state
adjust_pipe read_end delta state = record state { readers = adjust_count delta state.readers }
adjust_pipe write_end delta state = record state { writers = adjust_count delta state.writers }

-- `adjust_pipe_refcount`, by the data of the node.
unfoldable pub adjust_pipe_refcount : ℤ → FileHandle → Heap → Heap
unfolding node_at set_contents channel_at set_channel
adjust_pipe_refcount delta handle heap = elim (node_at heap handle.node).contents [
  | pipe state ↦ set_contents handle.node (pipe (adjust_pipe handle.pipe_end delta state)) heap
  | socket_connected channel side _ _ _ ↦
      let socket = channel_at heap channel in
      set_channel channel (with_open side (adjust_count delta (open_sides side socket)) socket) heap
  | _ ↦ heap
]

unfoldable pub clone_handle : FileHandle → Heap → Heap × FileHandle
unfolding adjust_pipe_refcount
clone_handle handle heap = (adjust_pipe_refcount (pos 1) handle heap, handle)

unfoldable pub drop_handle : FileHandle → Heap → Heap
unfolding adjust_pipe_refcount
drop_handle handle heap = adjust_pipe_refcount (negsuc 0) handle heap

abbrev pub object_size : Heap → NodeData → ℕ
object_size heap contents = elim contents [
  | directory entries ↦ length entries
  | file buf ↦ length buf
  | ext4_file state ↦ state.size
  | ext4_dir state ↦ state.size
  | char_device ↦ 0
  | proc_file buf ↦ length buf
  | pipe state ↦ length state.buf
  | symlink target ↦ length target
  | event _ ↦ 8
  | epoll watches ↦ length watches
  | socket_pending state ↦ length state.pending
  | socket_connected channel side _ _ _ ↦ length (inbox side (channel_at heap channel))
  | socket_raw state ↦ length state.inbox
  | pid_fd _ ↦ 0
]

abbrev pub kind_mode : NodeKind → ℕ
kind_mode NodeKind.directory = s_ifdir + 0o755
kind_mode NodeKind.file = s_ifreg + 0o644
kind_mode NodeKind.char_device = s_ifchr + 0o600
kind_mode NodeKind.proc = s_ifreg + 0o644
kind_mode NodeKind.pipe = s_ififo + 0o644
kind_mode NodeKind.symlink = s_iflnk + 0o777
kind_mode NodeKind.event = s_ifsock + 0o644
kind_mode NodeKind.epoll = s_ifsock + 0o644
kind_mode NodeKind.socket = s_ifsock + 0o644
kind_mode NodeKind.pid_fd = s_ifreg + 0o444

abbrev pub mode_of : NodeData → ℕ → ℕ
mode_of contents otherwise = elim contents [
  | ext4_file state ↦ state.mode
  | ext4_dir state ↦ state.mode
  | _ ↦ otherwise
]

unfoldable pub stat_from_locked : FileHandle → Heap → FileStat
unfolding node_at channel_at
stat_from_locked handle heap =
    let node = node_at heap handle.node in
    record {
      mode = mode_of node.contents (kind_mode node.kind);
      size = object_size heap node.contents;
      nlink = 1;
    }

abbrev kind_of_object : NodeKind → Text → ObjectKind
kind_of_object NodeKind.directory path = ObjectKind.directory
kind_of_object NodeKind.file path =
    if starts_with (bytes "memfd:") path then ObjectKind.mem_fd else ObjectKind.regular
kind_of_object NodeKind.char_device path = ObjectKind.char_device
kind_of_object NodeKind.proc path = ObjectKind.procfs
kind_of_object NodeKind.pipe path = ObjectKind.pipe
kind_of_object NodeKind.symlink path = ObjectKind.symlink
kind_of_object NodeKind.event path = ObjectKind.event_fd
kind_of_object NodeKind.epoll path = ObjectKind.epoll
kind_of_object NodeKind.socket path = ObjectKind.socket_local
kind_of_object NodeKind.pid_fd path = ObjectKind.pid_fd

unfoldable pub object_kind : FileHandle → Heap → ObjectKind
unfolding node_at starts_with
object_kind handle heap = kind_of_object (node_at heap handle.node).kind handle.path
