-- ===== src/Vfs/Polling.antt =====
-- crates/vfs/src/lib.rs: readiness and the error that asks the caller to wait.
use whuse.Prelude.{
  ℕ, ◌-◌, ◌≡◌, ◌≢◌, refl, ◌↔◌, Bool, true, false, not, ◌||◌, List, [], ◌∷◌, ◌==◌, arith,
  KernelResult, ok, err,
}
use whuse.Prelude.Errno
use whuse.Prelude.Text.{is_empty}
use whuse.Vfs.{
  FileHandle, PipeEnd, no_end, read_end, write_end, NodeData, directory, file, ext4_file, ext4_dir,
  char_device, proc_file, pipe, symlink, event, epoll, socket_pending, socket_connected, socket_raw,
  pid_fd, PipeState, Heap, Outside, node_at,
}
use whuse.Vfs.Objects.{channel_at, inbox, open_sides}
use whuse.Vfs.Objects.Reading.{
  take_front, read_pipe, read_socket, read_raw, first_packet, read_object,
}
use whuse.Vfs.Objects.Status.{poll_read_ready}

-- The objects that a reader may have to wait for: a pipe, save through its writing end, and a socket
-- that is connected or raw. (On any other socket a read fails.)
abbrev pub CanBlock : PipeEnd → NodeData → Type 0
CanBlock end (pipe state) = end ≢ write_end
CanBlock end (socket_connected _ _ _ _ _) = Unit {0}
CanBlock end (socket_raw _) = Unit {0}
CanBlock end _ = ⊥

abbrev asks_to_wait : KernelResult (List ℕ) → Bool
asks_to_wait (ok bytes) = false
asks_to_wait (err errno) = errno == Errno.eagain

take_front_waits :
    (len : ℕ) (buf : List ℕ) (closed : Bool)
    → asks_to_wait (take_front len buf closed).1 ≡ not (not (is_empty buf) || closed)
take_front_waits len [] true = refl
take_front_waits len [] false = refl
take_front_waits len (b ∷ buf) closed = refl

first_packet_waits :
    (len : ℕ) (packets : List (List ℕ))
    → asks_to_wait (first_packet len packets).1 ≡ not (not (is_empty packets))
first_packet_waits len [] = refl
first_packet_waits len (packet ∷ packets) = ground arith

read_pipe_waits :
    (len : ℕ) (end : PipeEnd) (state : PipeState)
    → end ≢ write_end
    → asks_to_wait (read_pipe len end state).1
      ≡ not (not (is_empty state.buf) || state.writers == 0)
unfolding read_pipe
read_pipe_waits len no_end state h = take_front_waits len state.buf (state.writers == 0)
read_pipe_waits len read_end state h = take_front_waits len state.buf (state.writers == 0)
read_pipe_waits len write_end state h = absurd (h refl)

waits_iff :
    (r : KernelResult (List ℕ)) (ready : Bool)
    → asks_to_wait r ≡ not ready
    → (r ≡ err Errno.eagain) ↔ (ready ≡ false)
waits_iff (ok bytes) true h = ground arith
waits_iff (ok bytes) false h = absurd (ground arith)
waits_iff (err e) true h = ground arith
waits_iff (err e) false h = ground arith

module _ (outside : Outside) (heap : Heap) (handle : FileHandle) (len : ℕ) where
  by_contents :
      (contents : NodeData)
      → (node_at heap handle.node).contents ≡ contents
      → CanBlock handle.pipe_end contents
      → asks_to_wait (read_object outside heap handle len).2 ≡ not (poll_read_ready heap handle)
  unfolding read_object poll_read_ready read_socket read_raw
  by_contents (pipe state) e h =
      rw (read_object, poll_read_ready, e) (read_pipe_waits len handle.pipe_end state h)
  by_contents (socket_connected channel side a b c) e h =
      rw (read_object, poll_read_ready, e)
        (take_front_waits len (inbox side (channel_at heap channel))
          (open_sides (1 - side) (channel_at heap channel) == 0))
  by_contents (socket_raw state) e h =
      rw (read_object, poll_read_ready, e) (first_packet_waits len state.inbox)
  by_contents (directory _) e h = absurd h
  by_contents (file _) e h = absurd h
  by_contents (ext4_file _) e h = absurd h
  by_contents (ext4_dir _) e h = absurd h
  by_contents char_device e h = absurd h
  by_contents (proc_file _) e h = absurd h
  by_contents (symlink _) e h = absurd h
  by_contents (event _) e h = absurd h
  by_contents (epoll _) e h = absurd h
  by_contents (socket_pending _) e h = absurd h
  by_contents (pid_fd _) e h = absurd h

  -- On a pipe, save through its writing end, on a connected socket and on a raw one, reading asks the
  -- caller to wait exactly where polling says that it is not ready.
  pub read_object-poll_read_ready :
      CanBlock handle.pipe_end (node_at heap handle.node).contents
      → ((read_object outside heap handle len).2 ≡ err Errno.eagain)
        ↔ (poll_read_ready heap handle ≡ false)
  read_object-poll_read_ready h =
      waits_iff (read_object outside heap handle len).2 (poll_read_ready heap handle)
        (by_contents (node_at heap handle.node).contents refl h)
