-- ===== src/Vfs/Objects/Reading.antt =====
-- crates/vfs/src/lib.rs: `read_object`, by the data of the node.
use whuse.Prelude.{
  ℕ, ◌-◌, min, Bool, ◌||◌, List, [], ◌∷◌, none, some, ltb, ◌==◌, if◌then◌else◌, length, take, drop,
  replicate, KernelResult, ok, err,
}
use whuse.Prelude.Errno
use whuse.Prelude.Words.{wrapping_add}
use whuse.Prelude.Text.{Text, text_eq, bytes, to_le_bytes}
use whuse.Vfs.{
  PipeEnd, no_end, read_end, write_end, FileHandle, SocketChannel, directory, file, ext4_file,
  ext4_dir, char_device, proc_file, pipe, symlink, event, epoll, socket_pending, socket_connected,
  socket_raw, pid_fd, PipeState, RawSocketState, Ext4FileState, Heap, Outside, node_at,
  set_contents,
}
use whuse.Vfs.Objects.{Outcome, channel_at, set_channel, inbox, open_sides, with_inbox}

-- `buf[start..end]`; where the end has wrapped to below the start, the source stops the kernel.
abbrev pub slice : ℕ → ℕ → List ℕ → List ℕ
slice start end buf = take (end - start) (drop start buf)

-- Reading the bytes of a file from the handle's place on.
unfoldable pub read_bytes_at : Heap → FileHandle → List ℕ → ℕ → Outcome (List ℕ)
read_bytes_at heap handle buf len =
    let start = min handle.offset (length buf) in
    let end = min (wrapping_add start len) (length buf) in
    (heap, record handle { offset = end }, ok (slice start end buf))

unfoldable pub read_ext4 : Outside → Heap → FileHandle → Ext4FileState → ℕ → Outcome (List ℕ)
unfolding read_bytes_at
read_ext4 outside heap handle state len = elim state.cached [
  | some cached ↦ read_bytes_at heap handle cached len
  | none ↦ elim (outside.read_range state.mount state.path handle.offset len) [
    | err errno ↦ (heap, handle, err errno)
    | ok found ↦
        (heap, record handle { offset = wrapping_add handle.offset (length found) }, ok found)
  ]
]

-- What is left of a buffer and what is taken, or the answer where it is empty.
abbrev pub take_front : ℕ → List ℕ → Bool → List ℕ × KernelResult (List ℕ)
take_front len [] closed = ([], if closed then ok [] else err Errno.eagain)
take_front len (b ∷ buf) closed = (drop len (b ∷ buf), ok (take len (b ∷ buf)))

unfoldable pub read_pipe : ℕ → PipeEnd → PipeState → PipeState × KernelResult (List ℕ)
read_pipe len write_end state = (state, err Errno.einval)
read_pipe len no_end state =
    let taken = take_front len state.buf (state.writers == 0) in
    (record state { buf = taken.0 }, taken.1)
read_pipe len read_end state =
    let taken = take_front len state.buf (state.writers == 0) in
    (record state { buf = taken.0 }, taken.1)

unfoldable pub read_socket : ℕ → ℕ → SocketChannel → SocketChannel × KernelResult (List ℕ)
read_socket len side channel =
    let taken = take_front len (inbox side channel) (open_sides (1 - side) channel == 0) in
    (with_inbox side taken.0 channel, taken.1)

abbrev pub first_packet : ℕ → List (List ℕ) → List (List ℕ) × KernelResult (List ℕ)
first_packet len [] = ([], err Errno.eagain)
first_packet len (packet ∷ packets) =
    if ltb len (length packet)
    then (drop len packet ∷ packets, ok (take len packet))
    else (packets, ok packet)

unfoldable pub read_raw : ℕ → RawSocketState → RawSocketState × KernelResult (List ℕ)
read_raw len state =
    let taken = first_packet len state.inbox in (record state { inbox = taken.0 }, taken.1)

abbrev is_zero_device : Text → Bool
is_zero_device path =
    text_eq path (bytes "/dev/zero")
    || (text_eq path (bytes "/dev/random") || text_eq path (bytes "/dev/urandom"))

unfoldable pub read_object : Outside → Heap → FileHandle → ℕ → Outcome (List ℕ)
unfolding node_at set_contents channel_at set_channel read_bytes_at read_ext4 read_pipe read_socket
    read_raw
read_object outside heap handle len = elim (node_at heap handle.node).contents [
  | directory _ ↦ (heap, handle, err Errno.eisdir)
  | file buf ↦ read_bytes_at heap handle buf len
  | ext4_file state ↦ read_ext4 outside heap handle state len
  | ext4_dir _ ↦ (heap, handle, err Errno.eisdir)
  | char_device ↦ (heap, handle, ok (if is_zero_device handle.path then replicate len 0 else []))
  | proc_file buf ↦ read_bytes_at heap handle buf len
  | pipe state ↦
      let r = read_pipe len handle.pipe_end state in
      (set_contents handle.node (pipe r.0) heap, handle, r.1)
  | symlink target ↦ (heap, handle, ok (take (min (length target) len) target))
  | event counter ↦
      if ltb len 8
      then (heap, handle, err Errno.einval)
      else (set_contents handle.node (event 0) heap, handle, ok (to_le_bytes 8 counter))
  | epoll _ ↦ (heap, handle, err Errno.einval)
  | socket_pending _ ↦ (heap, handle, err Errno.einval)
  | socket_connected channel side _ _ _ ↦
      let r = read_socket len side (channel_at heap channel) in
      (set_channel channel r.0 heap, handle, r.1)
  | socket_raw state ↦
      let r = read_raw len state in (set_contents handle.node (socket_raw r.0) heap, handle, r.1)
  | pid_fd _ ↦ (heap, handle, err Errno.einval)
]
