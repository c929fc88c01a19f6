-- ===== src/Vfs.antt =====
-- crates/vfs/src/lib.rs: the data of the file system. The nodes that an `Arc` points to, and the
-- channels that two sockets share, stand in a heap under numbers.
pub mod Paths
pub mod Objects
pub mod Tree
pub mod Heaps
pub mod Handles
pub mod Mounts
pub mod Sockets
pub mod Dirents
pub mod Opening
mod Pipes
mod Files
mod Sizes
mod Polling
mod Tests
use whuse.Prelude.{ℕ, suc, Bool, false, List, [], Option, none, some, KernelResult, replicate}
use whuse.Prelude.Text.{Text}
use whuse.Prelude.TextMap.{TextMap, TextSet}
use whuse.Prelude.BTreeMap.{BTreeMap, get, insert}
use whuse.Prelude.Integers.{ℤ}

abbrev pub o_creat : ℕ
o_creat = 0o100

abbrev pub o_trunc : ℕ
o_trunc = 0o1000

abbrev pub o_directory : ℕ
o_directory = 0o20_0000

abbrev pub o_rdonly : ℕ
o_rdonly = 0

abbrev pub o_wronly : ℕ
o_wronly = 1

abbrev pub o_rdwr : ℕ
o_rdwr = 2

abbrev pub s_ifreg : ℕ
s_ifreg = 0o10_0000

abbrev pub s_ifdir : ℕ
s_ifdir = 0o4_0000

abbrev pub s_ifchr : ℕ
s_ifchr = 0o2_0000

abbrev pub s_ififo : ℕ
s_ififo = 0o1_0000

abbrev pub s_iflnk : ℕ
s_iflnk = 0o12_0000

abbrev pub s_ifsock : ℕ
s_ifsock = 0o14_0000

abbrev pub inmem_file_size_limit : ℕ
inmem_file_size_limit = 0x400_0000

pub data NodeKind : Type 0 where
  directory file char_device proc pipe symlink event epoll socket pid_fd : NodeKind

pub record FileStat : Type 0 where
  pub mode : ℕ
  pub size : ℕ
  pub nlink : ℕ

pub record MountRecord : Type 0 where
  pub source : Text
  pub target : Text
  pub fs_type : Text
  pub flags : ℕ

pub data PipeEnd : Type 0 where
  no_end read_end write_end : PipeEnd

pub record FileHandle : Type 0 where
  pub node : ℕ
  pub offset : ℕ
  pub flags : ℕ
  pub path : Text
  pub pipe_end : PipeEnd

pub data ObjectKind : Type 0 where
  regular directory pipe event_fd epoll mem_fd pid_fd socket_local char_device procfs symlink :
      ObjectKind

pub record EpollWatch : Type 0 where
  pub fd : ℤ
  pub events : ℕ

pub record SocketChannel : Type 0 where
  pub inbox0 : List ℕ
  pub inbox1 : List ℕ
  pub open0 : ℕ
  pub open1 : ℕ

pub record SocketPending : Type 0 where
  pub path : Option Text
  pub listening : Bool
  pub family : ℕ
  pub sock_type : ℕ
  pub multicast_joined : Bool
  pub pending : List ℕ

-- A mount of crates/fs-ext4 is a number.
pub record Ext4FileState : Type 0 where
  pub mount : ℕ
  pub path : Text
  pub mode : ℕ
  pub size : ℕ
  pub cached : Option (List ℕ)

pub data Ext4NodeKind : Type 0 where
  regular directory symlink special : Ext4NodeKind

pub record Ext4DirEntry : Type 0 where
  pub name : Text
  pub stat : FileStat
  pub kind : Ext4NodeKind

pub record Ext4DirState : Type 0 where
  pub mount : ℕ
  pub path : Text
  pub mode : ℕ
  pub size : ℕ
  pub entries : Option (List (Text × Ext4NodeKind))

pub record PipeState : Type 0 where
  pub buf : List ℕ
  pub readers : ℕ
  pub writers : ℕ

pub record RawSocketState : Type 0 where
  pub family : ℕ
  pub protocol : ℕ
  pub bound_path : Option Text
  pub checksum_offset : Option ℕ
  pub icmp6_filter : List ℕ
  pub ipv6_recv_opts : BTreeMap ℤ
  pub inbox : List (List ℕ)

pub data NodeData : Type 0 where
  directory : TextMap ℕ → NodeData
  file : List ℕ → NodeData
  ext4_file : Ext4FileState → NodeData
  ext4_dir : Ext4DirState → NodeData
  char_device : NodeData
  proc_file : List ℕ → NodeData
  pipe : PipeState → NodeData
  symlink : Text → NodeData
  event : ℕ → NodeData
  epoll : List EpollWatch → NodeData
  socket_pending : SocketPending → NodeData
  socket_connected : (channel side family sock_type : ℕ) (multicast_joined : Bool) → NodeData
  socket_raw : RawSocketState → NodeData
  pid_fd : ℕ → NodeData

pub record Node : Type 0 where
  pub name : Text
  pub kind : NodeKind
  pub contents : NodeData

pub record Heap : Type 0 where
  pub nodes : BTreeMap Node
  pub channels : BTreeMap SocketChannel
  pub next_node : ℕ
  pub next_channel : ℕ

pub record ExternalMount : Type 0 where
  pub target : Text
  pub ext4 : ℕ

pub record KernelVfs : Type 0 where
  pub root : ℕ
  pub mounts : List MountRecord
  pub external_mounts : List ExternalMount
  pub external_stat_cache : TextMap FileStat
  pub external_preloaded : TextMap (List ℕ × FileStat)
  pub external_deletions : TextSet
  pub mem_modes : TextMap ℕ
  pub next_pipe_id : ℕ
  pub next_memfd_id : ℕ
  pub next_ephemeral_port : ℕ
  pub socket_bindings : TextMap ℕ
  pub raw_sockets : List ℕ
  pub heap : Heap

-- What an `ext4` mount answers, and whether the global allocator has so many bytes.
pub record Outside : Type 0 where
  pub read_range : ℕ → Text → ℕ → ℕ → KernelResult (List ℕ)
  pub ext4_stat : ℕ → Text → KernelResult FileStat
  pub ext4_read_dir : ℕ → Text → KernelResult (List Ext4DirEntry)
  pub ext4_read_dir_lite : ℕ → Text → KernelResult (List (Text × Ext4NodeKind))
  pub ext4_read_link : ℕ → Text → KernelResult Text
  pub can_reserve : ℕ → Bool

-- An `Arc` points to a node; a number without one reads as an empty file.
abbrev nowhere : Node
nowhere = record { name = []; kind = NodeKind.file; contents = NodeData.file [] }

abbrev pub node_or : Option Node → Node
node_or none = nowhere
node_or (some node) = node

unfoldable pub node_at : Heap → ℕ → Node
node_at heap id = node_or (get id heap.nodes)

-- A write through the lock of a node.
unfoldable pub set_contents : ℕ → NodeData → Heap → Heap
unfolding node_at
set_contents id contents heap = record heap {
  nodes = insert id (record (node_at heap id) { contents = contents }) heap.nodes;
}
