-- ===== src/Vfs/Sockets.antt =====
-- crates/vfs/src/lib.rs: sockets. A listening socket keeps the nodes that wait to be accepted; two
-- connected sockets share a channel.
pub mod Raw
mod Accepting
mod Tests
use whuse.Prelude.{
  ℕ, suc, ◌+◌, Bool, true, false, not, ◌||◌, ◌&&◌, List, [], ◌∷◌, ◌++◌, Option, none, some, ◌==◌,
  if◌then◌else◌, KernelResult, ok, err, ok_or, ◌>>=◌,
}
use whuse.Prelude.Errno
use whuse.Prelude.Words.{saturating_add}
use whuse.Prelude.Text.{Text, text_eq, starts_with, strip_prefix, rsplit_once, bytes, decimal}
use whuse.Prelude.TextMap
use whuse.Prelude.TextMap.{TextMap}
use whuse.Prelude.BTreeMap.{insert}
use whuse.Vfs.{
  NodeKind, no_end, FileHandle, SocketChannel, SocketPending, RawSocketState, NodeData,
  socket_pending, socket_connected, socket_raw, Node, Heap, KernelVfs, node_at, set_contents,
  o_rdwr, s_ifsock,
}
use whuse.Vfs.Paths.{normalize_path, split_parent}
use whuse.Vfs.Tree.{lookup_abs, kind_at, is_directory, entries_in}
use whuse.Vfs.Tree.Changes.{set_entries}
use whuse.Vfs.Tree.Nodes.{add_node, node_socket_pending, node_socket_raw}
use whuse.Vfs.Handles.{HandleStep, new_handle, numbered, on_new_node}

abbrev pub unix_abstract_prefix : Text
unix_abstract_prefix = bytes "/__unix_abstract__/"

unfoldable pub socket_family : KernelVfs → FileHandle → KernelResult ℕ
unfolding node_at
socket_family vfs handle = elim (node_at vfs.heap handle.node).contents [
  | socket_pending state ↦ ok state.family
  | socket_connected _ _ family _ _ ↦ ok family
  | socket_raw state ↦ ok state.family
  | _ ↦ err Errno.enotsock
]

abbrev push_raw : KernelVfs × FileHandle → KernelVfs × FileHandle
push_raw (vfs, handle) = (record vfs { raw_sockets = vfs.raw_sockets ++ handle.node ∷ [] }, handle)

unfoldable pub create_socket : KernelVfs → ℕ → ℕ → ℕ → KernelVfs × FileHandle
unfolding decimal
create_socket vfs family sock_type protocol =
    let path = numbered (bytes "socket:[") vfs.next_pipe_id in
    let counted = record vfs { next_pipe_id = suc vfs.next_pipe_id } in
    if sock_type == 3
    then push_raw (on_new_node (node_socket_raw path family protocol) o_rdwr path counted)
    else on_new_node (node_socket_pending path family sock_type) o_rdwr path counted

abbrev pub node_socket_connected : Text → ℕ → ℕ → ℕ → ℕ → Node
node_socket_connected name channel side family sock_type = record {
  name = name;
  kind = NodeKind.socket;
  contents = socket_connected channel side family sock_type false;
}

abbrev pub new_channel : SocketChannel
new_channel = record { inbox0 = []; inbox1 = []; open0 = 1; open1 = 1 }

abbrev pub add_channel : Heap → Heap
add_channel heap = record heap {
  channels = insert heap.next_channel new_channel heap.channels;
  next_channel = suc heap.next_channel;
}

unfoldable pub create_socketpair : KernelVfs → KernelVfs × FileHandle × FileHandle
unfolding decimal
create_socketpair vfs =
    let path = numbered (bytes "socketpair:[") vfs.next_pipe_id in
    let channel = vfs.heap.next_channel in
    let first = add_node (node_socket_connected path channel 0 1 1) (add_channel vfs.heap) in
    (
      record vfs {
        next_pipe_id = suc vfs.next_pipe_id;
        heap = add_node (node_socket_connected path channel 1 1 1) first;
      },
      new_handle vfs.heap.next_node o_rdwr (path ++ bytes ":0") no_end,
      new_handle first.next_node o_rdwr (path ++ bytes ":1") no_end,
    )

-- The path under a prefix with the next port in place of port 0.
abbrev assigned_port : KernelVfs → Text → Text → Option (Text × Text) → Option (KernelVfs × Text)
assigned_port vfs before path none = none
assigned_port vfs before path (some (ip, port)) =
    if text_eq port (48 ∷ [])
    then some (
      record vfs {
        next_ephemeral_port =
            (if vfs.next_ephemeral_port == 65535 then 65535 else suc vfs.next_ephemeral_port);
      },
      before ++ ip ++ 58 ∷ decimal vfs.next_ephemeral_port,
    )
    else none

abbrev assigned_under : KernelVfs → Text → Text → Option (KernelVfs × Text)
assigned_under vfs before path = elim (strip_prefix before path) [
  | none ↦ none
  | some rest ↦ assigned_port vfs before path (rsplit_once 58 rest)
]

unfoldable pub assign_ephemeral_inet_path : KernelVfs → Text → KernelVfs × Text
unfolding decimal
assign_ephemeral_inet_path vfs path = elim (assigned_under vfs (bytes "/inet/") path) [
  | some found ↦ found
  | none ↦ elim (assigned_under vfs (bytes "/inet6/") path) [
    | some found ↦ found
    | none ↦ (vfs, path)
  ]
]

abbrev local_address : Option (Text × Text) → KernelResult (Unit {0})
local_address none = err Errno.einval
local_address (some (ip, port)) =
    if text_eq ip (bytes "000.000.000.000") || text_eq ip (bytes "127.000.000.001")
    then ok tt
    else err Errno.eaddrnotavail

-- An address of family 2 has to be a local one.
abbrev check_inet : ℕ → Text → KernelResult (Unit {0})
check_inet family absolute =
    if family == 2
    then elim (strip_prefix (bytes "/inet/") absolute) [
      | none ↦ ok tt
      | some rest ↦ local_address (rsplit_once 58 rest)
    ]
    else ok tt

abbrev free_entry : Text → ℕ → ℕ → TextMap ℕ → KernelResult (Option (ℕ × TextMap ℕ))
free_entry name id parent entries =
    if TextMap.contains_key name entries
    then err Errno.eaddrinuse
    else ok (some (parent, TextMap.insert name id entries))

abbrev entry_for : KernelVfs → Text → ℕ → KernelResult (Option (ℕ × TextMap ℕ))
entry_for vfs absolute id = split_parent absolute >>= λ p. lookup_abs vfs p.0 >>= λ parent.
    if is_directory (kind_at vfs parent)
    then (ok_or (entries_in (node_at vfs.heap parent).contents) Errno.enotdir
        >>= free_entry p.1 id parent)
    else err Errno.enotdir

-- The directory of a socket of family 1 with its new entries, unless the name is abstract.
abbrev entry_in_tree : KernelVfs → ℕ → Text → ℕ → KernelResult (Option (ℕ × TextMap ℕ))
entry_in_tree vfs family absolute id =
    if family == 1 && not (starts_with unix_abstract_prefix absolute)
    then (if TextMap.contains_key absolute vfs.socket_bindings
        then err Errno.eaddrinuse
        else entry_for vfs absolute id)
    else ok none

abbrev bind_place : KernelVfs → Option Text → ℕ → Text → ℕ → KernelResult (Option (ℕ × TextMap ℕ))
bind_place vfs (some bound) family absolute id = err Errno.einval
bind_place vfs none family absolute id =
    check_inet family absolute >>= λ checked. entry_in_tree vfs family absolute id

abbrev enter_socket : Text → Option (ℕ × TextMap ℕ) → KernelVfs → KernelVfs
enter_socket absolute none vfs = vfs
enter_socket absolute (some (parent, entries)) vfs =
    set_entries parent entries
      (record vfs { mem_modes = TextMap.insert absolute (s_ifsock + 0o777) vfs.mem_modes })

-- `bind_socket` once the place is known, with what the socket becomes.
abbrev bound_socket :
    KernelVfs
    → FileHandle
    → Text
    → NodeData
    → TextMap ℕ
    → KernelResult (Option (ℕ × TextMap ℕ))
    → HandleStep (Unit {0})
bound_socket vfs handle absolute becomes bindings (err e) = (vfs, handle, err e)
bound_socket vfs handle absolute becomes bindings (ok place) =
    let entered = enter_socket absolute place vfs in
    (
      record entered {
        heap = set_contents handle.node becomes entered.heap;
        socket_bindings = bindings;
      },
      record handle { path = absolute },
      ok tt,
    )

abbrev bind_assigned : FileHandle → KernelVfs × Text → HandleStep (Unit {0})
bind_assigned handle (vfs, absolute) = elim (node_at vfs.heap handle.node).contents [
  | socket_pending state ↦
      bound_socket vfs handle absolute (socket_pending (record state { path = some absolute }))
        (TextMap.insert absolute handle.node vfs.socket_bindings)
        (bind_place vfs state.path state.family absolute handle.node)
  | socket_raw state ↦
      bound_socket vfs handle absolute (socket_raw (record state { bound_path = some absolute }))
        vfs.socket_bindings (bind_place vfs state.bound_path state.family absolute handle.node)
  | _ ↦ (vfs, handle, err Errno.enotsock)
]

unfoldable pub bind_socket : KernelVfs → FileHandle → Text → Text → HandleStep (Unit {0})
unfolding normalize_path assign_ephemeral_inet_path lookup_abs split_parent node_at set_contents
bind_socket vfs handle cwd path =
    bind_assigned handle (assign_ephemeral_inet_path vfs (normalize_path cwd path))

unfoldable pub listen_socket : KernelVfs → FileHandle → HandleStep (Unit {0})
unfolding node_at set_contents
listen_socket vfs handle = elim (node_at vfs.heap handle.node).contents [
  | socket_pending state ↦ (
    record vfs {
      heap = set_contents handle.node (socket_pending (record state { listening = true })) vfs.heap;
    },
    handle,
    ok tt,
  )
  | _ ↦ (vfs, handle, err Errno.einval)
]

abbrev any_address : Text → Option (Text × Text) → Option Text
any_address before none = none
any_address before (some (ip, port)) = some (before ++ port)

unfoldable pub inet_any_listener_path : Text → Option Text
inet_any_listener_path path = elim (strip_prefix (bytes "/inet/") path) [
  | some rest ↦ any_address (bytes "/inet/000.000.000.000:") (rsplit_once 58 rest)
  | none ↦ elim (strip_prefix (bytes "/inet6/") path) [
    | some rest ↦ any_address (bytes "/inet6/0:0:0:0:0:0:0:0:") (rsplit_once 58 rest)
    | none ↦ none
  ]
]

abbrev binding_of : KernelVfs → Option Text → KernelResult ℕ
binding_of vfs none = err Errno.enoent
binding_of vfs (some path) = ok_or (TextMap.get path vfs.socket_bindings) Errno.enoent

unfoldable pub listener_at : KernelVfs → Text → KernelResult ℕ
unfolding inet_any_listener_path
listener_at vfs absolute = elim (TextMap.get absolute vfs.socket_bindings) [
  | some listener ↦ ok listener
  | none ↦ binding_of vfs (inet_any_listener_path absolute)
]

abbrev pub is_stream : ℕ → Bool
is_stream sock_type = sock_type == 1 || sock_type == 5

-- The heap once the listener has its end of the channel.
abbrev pub offer : Text → ℕ → ℕ → SocketPending → Heap → KernelResult Heap
offer absolute listener channel state heap =
    if is_stream state.sock_type
    then (if state.listening
        then ok (
            set_contents listener
              (socket_pending (record state { pending = state.pending ++ heap.next_node ∷ [] }))
              (add_node (node_socket_connected absolute channel 1 state.family state.sock_type)
                heap))
        else err Errno.einval)
    else ok
        (set_contents listener (socket_connected channel 1 state.family state.sock_type false) heap)

abbrev pub connected :
    KernelVfs → FileHandle → Text → ℕ → SocketPending → KernelResult Heap → HandleStep (Unit {0})
connected vfs handle absolute channel state (err e) = (vfs, handle, err e)
connected vfs handle absolute channel state (ok heap) = (
  record vfs {
    heap =
        set_contents handle.node (socket_connected channel 0 state.family state.sock_type false)
          heap;
  },
  record handle { path = absolute },
  ok tt,
)

abbrev pub connect_listener : KernelVfs → FileHandle → Text → ℕ → NodeData → HandleStep (Unit {0})
connect_listener vfs handle absolute listener contents = elim contents [
  | socket_pending state ↦
      connected vfs handle absolute vfs.heap.next_channel state
        (offer absolute listener vfs.heap.next_channel state (add_channel vfs.heap))
  | _ ↦ (vfs, handle, err Errno.enotsock)
]

abbrev pub connect_to : KernelVfs → FileHandle → Text → KernelResult ℕ → HandleStep (Unit {0})
connect_to vfs handle absolute (err e) = (vfs, handle, err e)
connect_to vfs handle absolute (ok listener) =
    connect_listener vfs handle absolute listener (node_at vfs.heap listener).contents

-- A channel that no socket has got is gone again.
unfoldable pub connect_socket : KernelVfs → FileHandle → Text → Text → HandleStep (Unit {0})
unfolding normalize_path listener_at node_at set_contents
connect_socket vfs handle cwd path =
    let absolute = normalize_path cwd path in
    connect_to vfs handle absolute (listener_at vfs absolute)

-- `Vec::pop`
abbrev pub pop_last : List ℕ → Option (List ℕ × ℕ)
pop_last [] = none
pop_last (x ∷ xs) = elim (pop_last xs) [
  | none ↦ some ([], x)
  | some (rest, last) ↦ some (x ∷ rest, last)
]

abbrev pub accept_last :
    KernelVfs → FileHandle → SocketPending → Option (List ℕ × ℕ) → HandleStep FileHandle
accept_last vfs handle state none = (vfs, handle, err Errno.eagain)
accept_last vfs handle state (some (rest, node)) = (
  record vfs {
    heap = set_contents handle.node (socket_pending (record state { pending = rest })) vfs.heap;
  },
  handle,
  ok (new_handle node o_rdwr handle.path no_end),
)

abbrev pub accept_from : KernelVfs → FileHandle → NodeData → HandleStep FileHandle
accept_from vfs handle contents = elim contents [
  | socket_pending state ↦
      if is_stream state.sock_type
      then (if state.listening
          then accept_last vfs handle state (pop_last state.pending)
          else (vfs, handle, err Errno.einval))
      else (vfs, handle, err Errno.eopnotsupp)
  | _ ↦ (vfs, handle, err Errno.enotsock)
]

unfoldable pub accept_socket : KernelVfs → FileHandle → HandleStep FileHandle
unfolding node_at set_contents
accept_socket vfs handle = accept_from vfs handle (node_at vfs.heap handle.node).contents
