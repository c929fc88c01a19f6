-- ===== src/Vfs/Objects/Status.antt =====
-- crates/vfs/src/lib.rs: `seek_object`, readiness, and the calls on pipes and `epoll` objects.
use whuse.Prelude.{
  any, ℕ, ◌-◌, Bool, true, false, not, ◌||◌, List, [], ◌∷◌, ◌++◌, Option, none, some, ◌==◌,
  if◌then◌else◌, KernelResult, ok, err,
}
use whuse.Prelude.Errno
use whuse.Prelude.Text.{is_empty}
use whuse.Prelude.Integers.{ℤ, pos, negsuc, as_isize, ◌+ℤ◌, fits_isize, same}
use whuse.Vfs.{
  EpollWatch, NodeKind, FileHandle, directory, file, ext4_file, ext4_dir, char_device, proc_file,
  pipe, symlink, event, epoll, socket_pending, socket_connected, socket_raw, pid_fd, Heap, node_at,
  set_contents,
}
use whuse.Vfs.Objects.{Outcome, channel_at, inbox, open_sides, stat_from_locked}

abbrev seeks : NodeKind → Bool
seeks NodeKind.directory = true
seeks NodeKind.file = true
seeks NodeKind.char_device = true
seeks NodeKind.proc = true
seeks NodeKind.pipe = false
seeks NodeKind.symlink = true
seeks NodeKind.event = false
seeks NodeKind.epoll = false
seeks NodeKind.socket = false
seeks NodeKind.pid_fd = false

abbrev base_of : ℕ → ℕ → ℕ → Option ℤ
base_of whence offset size =
    if whence == 0
    then some (pos 0)
    else if whence == 1
    then some (as_isize offset)
    else if whence == 2
    then some (as_isize size)
    else none

abbrev placed : Heap → FileHandle → ℤ → Outcome ℕ
placed heap handle (negsuc n) = (heap, handle, err Errno.einval)
placed heap handle (pos n) =
    if fits_isize (pos n)
    then (heap, record handle { offset = n }, ok n)
    else (heap, handle, err Errno.einval)

unfoldable pub seek_object : Heap → FileHandle → ℤ → ℕ → Outcome ℕ
unfolding node_at stat_from_locked ◌+ℤ◌
seek_object heap handle offset whence =
    if seeks (node_at heap handle.node).kind
    then elim (base_of whence handle.offset (stat_from_locked handle heap).size) [
      | none ↦ (heap, handle, err Errno.einval)
      | some base ↦ placed heap handle (base +ℤ offset)
    ]
    else (heap, handle, err Errno.einval)

abbrev is_zero : ℕ → Bool
is_zero n = n == 0

unfoldable pub poll_read_ready : Heap → FileHandle → Bool
unfolding node_at channel_at
poll_read_ready heap handle = elim (node_at heap handle.node).contents [
  | directory _ ↦ true
  | file _ ↦ true
  | ext4_file _ ↦ true
  | ext4_dir _ ↦ true
  | char_device ↦ true
  | proc_file _ ↦ true
  | pipe state ↦ not (is_empty state.buf) || is_zero state.writers
  | symlink _ ↦ true
  | event counter ↦ not (is_zero counter)
  | epoll _ ↦ true
  | socket_pending state ↦ not (is_empty state.pending)
  | socket_connected channel side _ _ _ ↦
      let guard = channel_at heap channel in
      not (is_empty (inbox side guard)) || is_zero (open_sides (1 - side) guard)
  | socket_raw state ↦ not (is_empty state.inbox)
  | pid_fd _ ↦ true
]

unfoldable pub poll_write_ready : Heap → FileHandle → Bool
unfolding node_at
poll_write_ready heap handle = elim (node_at heap handle.node).contents [
  | directory _ ↦ false
  | ext4_file _ ↦ false
  | ext4_dir _ ↦ false
  | pid_fd _ ↦ false
  | pipe state ↦ not (is_zero state.readers)
  | _ ↦ true
]

abbrev watched : List EpollWatch → ℤ → Bool
watched watches fd = any (λ watch. same watch.fd fd) watches

abbrev set_events : ℤ → ℕ → List EpollWatch → List EpollWatch
set_events fd events [] = []
set_events fd events (watch ∷ watches) =
    if same watch.fd fd
    then record watch { events = events } ∷ watches
    else watch ∷ set_events fd events watches

abbrev drop_watch : ℤ → List EpollWatch → List EpollWatch
drop_watch fd [] = []
drop_watch fd (watch ∷ watches) =
    if same watch.fd fd then watches else watch ∷ drop_watch fd watches

-- The watches after `epoll_ctl`.
abbrev new_watches : ℕ → ℤ → ℕ → List EpollWatch → KernelResult (List EpollWatch)
new_watches op fd events watches =
    if op == 1
    then (if watched watches fd
        then err Errno.eexist
        else ok (watches ++ record { fd = fd; events = events } ∷ []))
    else if op == 2
    then (if watched watches fd then ok (set_events fd events watches) else err Errno.enoent)
    else if op == 3
    then (if watched watches fd then ok (drop_watch fd watches) else err Errno.enoent)
    else err Errno.einval

abbrev watching : Heap → ℕ → KernelResult (List EpollWatch) → Heap × KernelResult (Unit {0})
watching heap id (err errno) = (heap, err errno)
watching heap id (ok watches) = (set_contents id (epoll watches) heap, ok tt)

unfoldable pub epoll_ctl : Heap → FileHandle → ℕ → ℤ → ℕ → Heap × KernelResult (Unit {0})
unfolding node_at set_contents
epoll_ctl heap handle op fd events = elim (node_at heap handle.node).contents [
  | epoll watches ↦ watching heap handle.node (new_watches op fd events watches)
  | _ ↦ (heap, err Errno.einval)
]
