-- ===== src/Vfs/Objects/Writing.antt =====
-- crates/vfs/src/lib.rs: `write_object`, `truncate` and `fallocate`.
use whuse.Prelude.{
  ℕ, ◌+◌, ◌-◌, min, List, ◌++◌, ltb, leb, ◌==◌, if◌then◌else◌, length, take, drop, replicate,
  KernelResult, ok, err,
}
use whuse.Prelude.Errno
use whuse.Prelude.Words.{wrapping_add, saturating_add}
use whuse.Prelude.Text.{is_empty, from_le_bytes}
use whuse.Vfs.{
  PipeEnd, no_end, read_end, write_end, FileHandle, SocketChannel, NodeData, directory, file,
  ext4_file, ext4_dir, char_device, proc_file, pipe, symlink, event, epoll, socket_pending,
  socket_connected, socket_raw, pid_fd, PipeState, Heap, Outside, node_at, set_contents,
  inmem_file_size_limit,
}
use whuse.Vfs.Objects.{Outcome, channel_at, set_channel, inbox, open_sides, with_inbox}

unfoldable pub ensure_file_size : Outside → List ℕ → ℕ → KernelResult (List ℕ)
ensure_file_size outside buf size =
    if leb size (length buf)
    then ok buf
    else if ltb inmem_file_size_limit size
    then err Errno.enospc
    else if outside.can_reserve (size - length buf)
    then ok (buf ++ replicate (size - length buf) 0)
    else err Errno.enomem

-- The growth before a write, where the buffer is too short.
abbrev pub grow_to : Outside → ℕ → List ℕ → KernelResult (List ℕ)
grow_to outside size buf =
    if ltb (length buf) size then ensure_file_size outside buf size else ok buf

-- `buf[offset..offset + data.len()].copy_from_slice(data)`
abbrev pub overwrite : ℕ → List ℕ → List ℕ → List ℕ
overwrite offset data_bytes buf =
    take offset buf ++ data_bytes ++ drop (offset + length data_bytes) buf

abbrev pub overwritten : ℕ → List ℕ → List ℕ → KernelResult (List ℕ) → List ℕ × KernelResult ℕ
overwritten offset data_bytes reached (err errno) = (reached, err errno)
overwritten offset data_bytes reached (ok grown) =
    (overwrite offset data_bytes grown, ok (wrapping_add offset (length data_bytes)))

-- The second growth and the write.
abbrev pub write_reached :
    Outside → ℕ → List ℕ → List ℕ → KernelResult (List ℕ) → List ℕ × KernelResult ℕ
write_reached outside offset data_bytes buf (err errno) = (buf, err errno)
write_reached outside offset data_bytes buf (ok reached) =
    overwritten offset data_bytes reached
      (grow_to outside (saturating_add offset (length data_bytes)) reached)

-- The buffer that writing leaves, and the new place or the error; a first growth that succeeded
-- stays where the second fails.
unfoldable pub write_buffer : Outside → ℕ → List ℕ → List ℕ → List ℕ × KernelResult ℕ
unfolding ensure_file_size
write_buffer outside offset data_bytes buf =
    write_reached outside offset data_bytes buf (grow_to outside offset buf)

abbrev pub written : Heap → FileHandle → ℕ → KernelResult ℕ → Outcome ℕ
written heap handle len (err errno) = (heap, handle, err errno)
written heap handle len (ok place) = (heap, record handle { offset = place }, ok len)

unfoldable pub write_pipe : List ℕ → PipeEnd → PipeState → PipeState × KernelResult ℕ
write_pipe data_bytes read_end state = (state, err Errno.einval)
write_pipe data_bytes no_end state =
    if is_empty data_bytes
    then (state, ok 0)
    else if state.readers == 0
    then (state, err Errno.epipe)
    else (record state { buf = state.buf ++ data_bytes }, ok (length data_bytes))
write_pipe data_bytes write_end state =
    if is_empty data_bytes
    then (state, ok 0)
    else if state.readers == 0
    then (state, err Errno.epipe)
    else (record state { buf = state.buf ++ data_bytes }, ok (length data_bytes))

unfoldable pub write_socket : List ℕ → ℕ → SocketChannel → SocketChannel × KernelResult ℕ
write_socket data_bytes side channel =
    let peer = 1 - side in
    if open_sides peer channel == 0
    then (channel, err Errno.epipe)
    else (with_inbox peer (inbox peer channel ++ data_bytes) channel, ok (length data_bytes))

-- What a character device shows on the console is left out.
unfoldable pub write_object : Outside → Heap → FileHandle → List ℕ → Outcome ℕ
unfolding node_at set_contents channel_at set_channel write_buffer write_pipe write_socket
write_object outside heap handle data_bytes = elim (node_at heap handle.node).contents [
  | directory _ ↦ (heap, handle, err Errno.eisdir)
  | file buf ↦
      let r = write_buffer outside handle.offset data_bytes buf in
      written (set_contents handle.node (file r.0) heap) handle (length data_bytes) r.1
  | ext4_file _ ↦ (heap, handle, err Errno.erofs)
  | ext4_dir _ ↦ (heap, handle, err Errno.erofs)
  | char_device ↦ (heap, handle, ok (length data_bytes))
  | proc_file buf ↦
      let r = write_buffer outside handle.offset data_bytes buf in
      written (set_contents handle.node (proc_file r.0) heap) handle (length data_bytes) r.1
  | pipe state ↦
      let r = write_pipe data_bytes handle.pipe_end state in
      (set_contents handle.node (pipe r.0) heap, handle, r.1)
  | symlink _ ↦ (heap, handle, err Errno.einval)
  | event counter ↦ if ltb (length data_bytes) 8 then (heap, handle, err Errno.einval) else (
    set_contents handle.node (event (saturating_add counter (from_le_bytes (take 8 data_bytes))))
        heap,
    handle,
    ok 8,
  )
  | epoll _ ↦ (heap, handle, err Errno.einval)
  | socket_pending _ ↦ (heap, handle, err Errno.einval)
  | socket_connected channel side _ _ _ ↦
      let r = write_socket data_bytes side (channel_at heap channel) in
      (set_channel channel r.0 heap, handle, r.1)
  | socket_raw _ ↦ (heap, handle, err Errno.einval)
  | pid_fd _ ↦ (heap, handle, err Errno.einval)
]

abbrev pub resized :
    Heap → FileHandle → ℕ → (List ℕ → NodeData) → KernelResult (List ℕ) → ℕ → Outcome (Unit {0})
resized heap handle id make (err errno) place = (heap, handle, err errno)
resized heap handle id make (ok buf) place =
    (set_contents id (make buf) heap, record handle { offset = place }, ok tt)

unfoldable pub truncate : Outside → Heap → FileHandle → ℕ → Outcome (Unit {0})
unfolding node_at set_contents ensure_file_size
truncate outside heap handle len = elim (node_at heap handle.node).contents [
  | file buf ↦
      resized heap handle handle.node file (ensure_file_size outside buf len)
        (min handle.offset len)
  | proc_file buf ↦
      resized heap handle handle.node proc_file (ensure_file_size outside buf len)
        (min handle.offset len)
  | ext4_file _ ↦ (heap, handle, err Errno.erofs)
  | ext4_dir _ ↦ (heap, handle, err Errno.erofs)
  | _ ↦ (heap, handle, err Errno.einval)
]

unfoldable pub fallocate : Outside → Heap → FileHandle → ℕ → ℕ → Outcome (Unit {0})
unfolding node_at set_contents ensure_file_size
fallocate outside heap handle offset len =
    let size = saturating_add offset len in
    elim (node_at heap handle.node).contents [
      | file buf ↦
          resized heap handle handle.node file (ensure_file_size outside buf size) handle.offset
      | proc_file buf ↦
          resized heap handle handle.node proc_file (ensure_file_size outside buf size)
            handle.offset
      | ext4_file _ ↦ (heap, handle, err Errno.erofs)
      | ext4_dir _ ↦ (heap, handle, err Errno.erofs)
      | _ ↦ (heap, handle, err Errno.einval)
    ]
