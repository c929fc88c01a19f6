-- ===== src/Vfs/Sockets/Accepting.antt =====
-- crates/vfs/src/lib.rs: a connection from `connect_socket` to `accept_socket` and its bytes.
use whuse.Prelude.{
  ℕ, ◌<◌, ◌≡◌, refl, sym, ap, subst, ◌∙◌, Bool, true, false, List, [], ◌∷◌, ◌++◌, some, ◌==◌,
  if◌then◌else◌, length, take, arith, ok, err,
}
use whuse.Prelude.Errno
use whuse.Prelude.Text.{Text}
use whuse.Prelude.BTreeMap.{get-insert_same, get-insert_other}
use whuse.Vfs.{
  no_end, FileHandle, SocketChannel, SocketPending, NodeData, socket_pending, socket_connected,
  Node, Heap, KernelVfs, Outside, node_at, set_contents, node_or, o_rdwr,
}
use whuse.Vfs.Heaps.{node_at-set_contents, contents-set_contents}
use whuse.Vfs.Paths.{normalize_path}
use whuse.Vfs.Objects.{channel_at, set_channel, channel_or}
use whuse.Vfs.Objects.Reading.{read_object, read_socket}
use whuse.Vfs.Objects.Writing.{write_object, write_socket}
use whuse.Vfs.Tree.Nodes.{add_node}
use whuse.Vfs.Handles.{HandleStep, new_handle}
use whuse.Vfs.Sockets.{
  new_channel, add_channel, node_socket_connected, is_stream, offer, connected, connect_listener,
  connect_to, connect_socket, listener_at, pop_last, accept_last, accept_from, accept_socket,
}

pop_last-append : (xs : List ℕ) (x : ℕ) → pop_last (xs ++ x ∷ []) ≡ some (xs, x)
pop_last-append [] x = refl
pop_last-append (y ∷ xs) x = rw (pop_last-append xs x, pop_last) refl

contents_other :
    (id j : ℕ) (contents : NodeData) (heap : Heap)
    → (id == j) ≡ false
    → (node_at (set_contents id contents heap) j).contents ≡ (node_at heap j).contents
contents_other id j contents heap h = ground (arith, h, node_at-set_contents id j contents heap)

node_at-add_node : (node : Node) (heap : Heap) → node_at (add_node node heap) heap.next_node ≡ node
unfolding node_at
node_at-add_node node heap = ap node_or (get-insert_same heap.next_node node heap.nodes)

other_node :
    (node : Node) (heap : Heap) (j : ℕ)
    → j < heap.next_node
    → (node_at (add_node node heap) j).contents ≡ (node_at heap j).contents
unfolding node_at
other_node node heap j h =
    ap (λ o. (node_or o).contents)
      (get-insert_other heap.next_node j node heap.nodes (ground arith))

take-length : (xs : List ℕ) → take (length xs) xs ≡ xs
take-length [] = refl
take-length (x ∷ xs) = ap (λ t. x ∷ t) (take-length xs)

channel_at-set_channel :
    (id : ℕ) (channel : SocketChannel) (heap : Heap)
    → channel_at (set_channel id channel heap) id ≡ channel
unfolding channel_at set_channel
channel_at-set_channel id channel heap = ap channel_or (get-insert_same id channel heap.channels)

-- What one end of a new channel writes is what the other end reads.
module _ (outside : Outside) (heap : Heap) (channel : ℕ) (sender receiver : FileHandle)
    (family sock_type family' sock_type' : ℕ) (joined joined' : Bool)
    (from : (node_at heap sender.node).contents
      ≡ socket_connected channel 0 family sock_type joined)
    (to : (node_at heap receiver.node).contents
      ≡ socket_connected channel 1 family' sock_type' joined')
    (at : channel_at heap channel ≡ new_channel) where
  write_object_socket :
      (bytes : List ℕ)
      → write_object outside heap sender bytes ≡ (
        set_channel channel (record new_channel { inbox1 = bytes }) heap,
        sender,
        ok (length bytes),
      )
  unfolding write_object write_socket
  write_object_socket bytes = rw (write_object, from, at) refl

  read_object_socket :
      (other : SocketChannel) (len : ℕ)
      → (read_object outside (set_channel channel other heap) receiver len).2
        ≡ (read_socket len 1 other).1
  unfolding read_object read_socket node_at
  read_object_socket other len =
      rw (read_object, to, channel_at-set_channel channel other heap) refl

  exchange :
      (b : ℕ) (bytes : List ℕ)
      → (read_object outside
          (write_object outside heap sender (b ∷ bytes)).0
          receiver
          (length (b ∷ bytes))).2
        ≡ ok (b ∷ bytes)
  unfolding read_socket
  exchange b bytes =
      ap (λ o. (read_object outside o.0 receiver (length (b ∷ bytes))).2)
        (write_object_socket (b ∷ bytes))
      ∙ read_object_socket (record new_channel { inbox1 = b ∷ bytes }) (length (b ∷ bytes))
      ∙ ap ok (take-length (b ∷ bytes))

offer_stream :
    (absolute : Text) (listener channel : ℕ) (state : SocketPending) (heap : Heap)
    → is_stream state.sock_type ≡ true
    → state.listening ≡ true
    → offer absolute listener channel state heap
      ≡ ok (
          set_contents listener
            (socket_pending (record state { pending = state.pending ++ heap.next_node ∷ [] }))
            (add_node (node_socket_connected absolute channel 1 state.family state.sock_type) heap))
offer_stream absolute listener channel state heap h k = rw (offer, h, k) refl

accept_stream :
    (vfs : KernelVfs) (server : FileHandle) (state : SocketPending)
    → is_stream state.sock_type ≡ true
    → state.listening ≡ true
    → accept_from vfs server (socket_pending state)
      ≡ accept_last vfs server state (pop_last state.pending)
accept_stream vfs server state h k =
    ap
      (λ b.
        if b
        then (if state.listening
            then accept_last vfs server state (pop_last state.pending)
            else (vfs, server, err Errno.einval))
        else (vfs, server, err Errno.eopnotsupp))
      h
    ∙ ap
        (λ b.
          if b
          then accept_last vfs server state (pop_last state.pending)
          else (vfs, server, err Errno.einval))
        k

-- What follows a connection to `server`: the next call of `accept_socket` answers the other end, to
-- which the bytes go, and leaves `state`.
abbrev pub Accepts : Outside → FileHandle → SocketPending → List ℕ → HandleStep (Unit {0}) → Type 0
Accepts outside server state bytes joined =
    let accepted = accept_socket joined.0 server in
    (joined.2 ≡ ok tt)
    × (peer : FileHandle) × (accepted.2 ≡ ok peer)
    × ((node_at accepted.0.heap server.node).contents ≡ socket_pending state)
    × ((read_object outside (write_object outside accepted.0.heap joined.1 bytes).0 peer
          (length bytes)).2
        ≡ ok bytes)

-- A client connects to a listening stream socket.
module _ (vfs : KernelVfs) (client server : FileHandle) (cwd path : Text) (state : SocketPending)
    (found : listener_at vfs (normalize_path cwd path) ≡ ok server.node)
    (waits : (node_at vfs.heap server.node).contents ≡ socket_pending state)
    (streams : is_stream state.sock_type ≡ true) (listens : state.listening ≡ true)
    (apart : (client.node == server.node) ≡ false) (known : client.node < vfs.heap.next_node)
    (there : server.node < vfs.heap.next_node) where
  -- The heap with the channel and the node to be accepted.
  abbrev offered : Heap
  offered =
      add_node
        (node_socket_connected (normalize_path cwd path) vfs.heap.next_channel 1 state.family
          state.sock_type)
        (add_channel vfs.heap)

  abbrev joined_heap : Heap
  joined_heap =
      set_contents client.node
        (socket_connected vfs.heap.next_channel 0 state.family state.sock_type false)
        (set_contents server.node
          (socket_pending (record state { pending = state.pending ++ vfs.heap.next_node ∷ [] }))
          offered)

  connect_socket_stream :
      connect_socket vfs client cwd path
      ≡ (record vfs { heap = joined_heap }, record client { path = normalize_path cwd path }, ok tt)
  unfolding connect_socket
  connect_socket_stream =
      ap (connect_to vfs client (normalize_path cwd path)) found
      ∙ ap (connect_listener vfs client (normalize_path cwd path) server.node) waits
      ∙ ap (connected vfs client (normalize_path cwd path) vfs.heap.next_channel state) (
          offer_stream (normalize_path cwd path) server.node vfs.heap.next_channel state
            (add_channel vfs.heap) streams listens)

  -- The heap once the connection is accepted.
  abbrev accepted_heap : Heap
  accepted_heap = set_contents server.node (socket_pending state) joined_heap

  server_joined :
      (node_at joined_heap server.node).contents
      ≡ socket_pending (record state { pending = state.pending ++ vfs.heap.next_node ∷ [] })
  server_joined =
      contents_other client.node server.node _ _ apart ∙ contents-set_contents server.node _ offered

  accept_socket_stream : accept_socket (record vfs { heap = joined_heap }) server ≡ (
    record vfs { heap = accepted_heap },
    server,
    ok (new_handle vfs.heap.next_node o_rdwr server.path no_end),
  )
  unfolding accept_socket
  accept_socket_stream =
      ap (accept_from (record vfs { heap = joined_heap }) server) server_joined
      ∙ accept_stream (record vfs { heap = joined_heap }) server
          (record state { pending = state.pending ++ vfs.heap.next_node ∷ [] }) streams listens
      ∙ ap
          (accept_last (record vfs { heap = joined_heap }) server
            (record state { pending = state.pending ++ vfs.heap.next_node ∷ [] }))
          (pop_last-append state.pending vfs.heap.next_node)

  client_accepted :
      (node_at accepted_heap client.node).contents
      ≡ socket_connected vfs.heap.next_channel 0 state.family state.sock_type false
  client_accepted =
      contents_other server.node client.node (socket_pending state) joined_heap (ground arith)
      ∙ contents-set_contents client.node
          (socket_connected vfs.heap.next_channel 0 state.family state.sock_type false)
          (set_contents server.node
            (socket_pending (record state { pending = state.pending ++ vfs.heap.next_node ∷ [] }))
            offered)

  peer_accepted :
      (node_at accepted_heap vfs.heap.next_node).contents
      ≡ socket_connected vfs.heap.next_channel 1 state.family state.sock_type false
  peer_accepted =
      contents_other server.node vfs.heap.next_node (socket_pending state) joined_heap
        (ground arith)
      ∙ contents_other client.node vfs.heap.next_node
          (socket_connected vfs.heap.next_channel 0 state.family state.sock_type false)
          (set_contents server.node
            (socket_pending (record state { pending = state.pending ++ vfs.heap.next_node ∷ [] }))
            offered)
          (ground arith)
      ∙ contents_other server.node vfs.heap.next_node
          (socket_pending (record state { pending = state.pending ++ vfs.heap.next_node ∷ [] }))
          offered (ground arith)
      ∙ ap (λ n. n.contents)
          (node_at-add_node
            (node_socket_connected (normalize_path cwd path) vfs.heap.next_channel 1 state.family
              state.sock_type)
            (add_channel vfs.heap))

  channel_accepted : channel_at accepted_heap vfs.heap.next_channel ≡ new_channel
  unfolding channel_at set_contents
  channel_accepted =
      ap channel_or (get-insert_same vfs.heap.next_channel new_channel vfs.heap.channels)

  -- A client that connects to a listening stream socket succeeds. The next call of `accept_socket`
  -- answers its connection, whichever others wait, and leaves these waiting; what the client then
  -- writes is what a read from the accepted handle returns.
  pub connect_socket-Accepts :
      (outside : Outside) (b : ℕ) (bytes : List ℕ)
      → Accepts outside server state (b ∷ bytes) (connect_socket vfs client cwd path)
  connect_socket-Accepts outside b bytes =
      let joined = record client { path = normalize_path cwd path } in
      let peer = new_handle vfs.heap.next_node o_rdwr server.path no_end in
      subst (Accepts outside server state (b ∷ bytes)) (sym connect_socket_stream) (
        refl,
        peer,
        ap (λ o. o.2) accept_socket_stream,
        ap (λ o. (node_at o.0.heap server.node).contents) accept_socket_stream
            ∙ contents-set_contents server.node (socket_pending state) joined_heap,
        ap
              (λ o.
                (read_object outside (write_object outside o.0.heap joined (b ∷ bytes)).0 peer
                  (length (b ∷ bytes))).2)
              accept_socket_stream
            ∙ exchange outside accepted_heap vfs.heap.next_channel joined peer state.family
                state.sock_type state.family state.sock_type false false client_accepted
                peer_accepted channel_accepted b bytes,
      )
