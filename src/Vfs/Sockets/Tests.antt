-- ===== src/Vfs/Sockets/Tests.antt =====
-- The sockets of crates/vfs/src/lib.rs at concrete inputs.
use whuse.Prelude.{refl, true, false, [], ◌∷◌, none, some, arith}
use whuse.Prelude.Text.{bytes, text_eq, split, starts_with, join}
use whuse.Prelude.TextMap
use whuse.Prelude.BTreeMap.{get}
use whuse.Vfs.{NodeKind, no_end, SocketPending, socket_pending, KernelVfs, node_at}
use whuse.Vfs.Paths.{normalize_path}
use whuse.Vfs.Sockets.{connect_socket, listener_at}
use whuse.Vfs.Sockets.Accepting.{Accepts, connect_socket-Accepts}
use whuse.Vfs.Tests.{outside, tree, node, handle}

-- One connection waits already.
abbrev listener : SocketPending
listener = record {
  path = some (bytes "/s");
  listening = true;
  family = 1;
  sock_type = 1;
  multicast_joined = false;
  pending = 2 ∷ [];
}

abbrev client : SocketPending
client = record listener { path = none; listening = false; pending = [] }

abbrev net : KernelVfs
net = record tree {
  socket_bindings = (bytes "/s", 1) ∷ [];
  heap = record {
    nodes =
        (0, node NodeKind.socket (socket_pending client))
        ∷ (1, node NodeKind.socket (socket_pending listener))
        ∷ (2, node NodeKind.socket (socket_pending client))
        ∷ [];
    channels = [];
    next_node = 3;
    next_channel = 0;
  };
}

connect_socket-Accepts_example :
    Accepts outside
      (handle 1 0 no_end)
      listener
      (5 ∷ 6 ∷ [])
      (connect_socket net (handle 0 0 no_end) (bytes "/") (bytes "s"))
unfolding listener_at normalize_path node_at get TextMap.get text_eq split starts_with join
connect_socket-Accepts_example =
    connect_socket-Accepts net (handle 0 0 no_end) (handle 1 0 no_end) (bytes "/") (bytes "s")
      listener refl refl refl refl refl (ground arith) (ground arith) outside 5 (6 ∷ [])
