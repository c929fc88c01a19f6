-- ===== src/Proc/Fds.antt =====
-- crates/proc/src/lib.rs: the file descriptors of a process. A descriptor is a number from 0 on;
-- one below 0 is in no table.
mod Slots
mod Closing
mod Tests
use whuse.Prelude.{
  ℕ, zero, suc, Bool, true, false, List, [], ◌∷◌, Option, none, some, ◌==◌, if◌then◌else◌, any,
  length, KernelResult, ok, err, ok_or, ◌>>=◌,
}
use whuse.Prelude.Errno
use whuse.Prelude.BTreeMap.{BTreeMap, get, insert, remove, contains_key}
use whuse.Vfs.{FileHandle}
use whuse.Proc.{Process}

-- The loop of `add_fd`; `none` means that the fuel ran out.
unfoldable pub free_slot : ℕ → ℕ → BTreeMap FileHandle → Option ℕ
free_slot zero fd fds = none
free_slot (suc fuel) fd fds =
    let rest = free_slot fuel (suc fd) fds in if contains_key fd fds then rest else some fd

unfoldable pub add_fd : FileHandle → Process → Option (Process × ℕ)
unfolding free_slot
add_fd handle process = elim (free_slot (suc (length process.fds)) 0 process.fds) [
  | none ↦ none
  | some fd ↦ some (
    record process { fds = insert fd handle process.fds; fd_alias = insert fd fd process.fd_alias },
    fd,
  )
]

-- The descriptors whose leader is the one that is closed.
unfoldable pub replacements : ℕ → BTreeMap ℕ → List ℕ
replacements fd [] = []
replacements fd ((candidate, leader) ∷ m) =
    if leader == fd then candidate ∷ replacements fd m else replacements fd m

unfoldable pub lead_each : ℕ → List ℕ → BTreeMap ℕ → BTreeMap ℕ
lead_each leader [] m = m
lead_each leader (candidate ∷ candidates) m =
    lead_each leader candidates (insert candidate leader m)

-- The first replacement leads itself and the others.
unfoldable pub appoint : List ℕ → BTreeMap ℕ → BTreeMap ℕ
unfolding lead_each
appoint [] m = m
appoint (new_leader ∷ candidates) m =
    lead_each new_leader candidates (insert new_leader new_leader m)

unfoldable pub close_fd : ℕ → Process → KernelResult Process
unfolding replacements appoint
close_fd fd process =
    let fd_alias = remove fd process.fd_alias in
    if contains_key fd process.fds
    then ok (record process {
      fds = remove fd process.fds;
      fd_alias =
          if any (λ entry. entry.1 == fd) fd_alias
          then appoint (replacements fd fd_alias) fd_alias
          else fd_alias;
    })
    else err Errno.ebadf

unfoldable pub handle_at : Process → ℕ → KernelResult FileHandle
handle_at process fd = ok_or (get fd process.fds) Errno.ebadf

-- The loop of `fd_alias_leader`.
unfoldable pub follow : ℕ → BTreeMap ℕ → ℕ → ℕ
follow zero m leader = leader
follow (suc n) m leader = elim (get leader m) [
  | none ↦ leader
  | some next ↦ let rest = follow n m next in if next == leader then leader else rest
]

abbrev leader_of : BTreeMap ℕ → ℕ → ℕ
leader_of m fd = elim (get fd m) [ none ↦ fd | some leader ↦ leader ]

unfoldable pub fd_alias_leader : Process → ℕ → KernelResult ℕ
unfolding handle_at follow
fd_alias_leader process fd = do
  handle ← handle_at process fd
  ok (follow 16 process.fd_alias (leader_of process.fd_alias fd))

abbrev at_offset : ℕ → FileHandle → FileHandle
at_offset offset handle = record handle { offset = offset }

unfoldable pub seek : ℕ → ℕ → BTreeMap FileHandle → BTreeMap FileHandle
seek fd offset fds = elim (get fd fds) [
  | none ↦ fds
  | some handle ↦ insert fd (at_offset offset handle) fds
]

unfoldable pub sync_fd_offset_from_alias : ℕ → Process → KernelResult Process
unfolding fd_alias_leader seek
sync_fd_offset_from_alias fd process = do
  leader ← fd_alias_leader process fd
  (if leader == fd then ok process else (do
    source ← handle_at process leader
    ok (record process { fds = seek fd source.offset process.fds })))

unfoldable pub seek_each : ℕ → List ℕ → BTreeMap FileHandle → BTreeMap FileHandle
unfolding seek
seek_each offset [] fds = fds
seek_each offset (peer ∷ peers) fds = seek_each offset peers (seek peer offset fds)

unfoldable pub sync_fd_offset_to_aliases : ℕ → Process → KernelResult Process
unfolding fd_alias_leader seek_each replacements
sync_fd_offset_to_aliases fd process = do
  leader ← fd_alias_leader process fd
  handle ← handle_at process fd
  let synced = seek_each handle.offset (replacements leader process.fd_alias) process.fds
  ok (record process { fds = seek leader handle.offset synced })

unfoldable pub set_fd_alias : ℕ → ℕ → Process → Process
set_fd_alias fd leader process = record process { fd_alias = insert fd leader process.fd_alias }
