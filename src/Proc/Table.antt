-- ===== src/Proc/Table.antt =====
-- crates/proc/src/lib.rs: the operations of `ProcessTable` on identities, groups and sessions.
pub mod Loops
mod Ids
pub mod Tests
use whuse.Prelude.{
  ℕ, not, Bool, true, false, ◌&&◌, ◌||◌, List, [], ◌∷◌, Option, none, some, ◌==◌, if◌then◌else◌,
  map, find, any, suc, KernelResult, ok, err, ok_or, ◌>>=◌, ◌%◌,
}
use whuse.Prelude.Errno
use whuse.Prelude.BTreeMap.{BTreeMap, get, insert, contains_key}
use whuse.Proc.{Process, ProcessTable}

-- `if let Some(process) = self.processes.get_mut(&tid)`, and the change of the process.
unfoldable pub modify : ℕ → (Process → Process) → BTreeMap Process → BTreeMap Process
modify tid f m = elim (get tid m) [ none ↦ m | some process ↦ insert tid (f process) m ]

-- The loops over `self.processes.values_mut()` with a filter.
unfoldable pub modify_each :
    (Process → Bool) → (Process → Process) → BTreeMap Process → BTreeMap Process
modify_each chosen f [] = []
modify_each chosen f ((tid, process) ∷ m) =
    (tid, if chosen process then f process else process) ∷ modify_each chosen f m

abbrev in_group : ℕ → Process → Bool
in_group tgid process = process.tgid == tgid

unfoldable pub current : ProcessTable → KernelResult Process
current t = ok_or (get t.current_tid t.processes) Errno.ebadf

unfoldable pub current_tgid : ProcessTable → KernelResult ℕ
unfolding current
current_tgid t = do process ← current t; ok process.tgid

unfoldable pub current_pgid : ProcessTable → KernelResult ℕ
unfolding current
current_pgid t = do process ← current t; ok process.pgid

unfoldable pub has_pid : ProcessTable → ℕ → Bool
has_pid t pid = contains_key pid t.processes || any (λ entry. in_group pid entry.1) t.processes

unfoldable pub set_current : ProcessTable → ℕ → KernelResult ProcessTable
set_current t tid =
    if contains_key tid t.processes then ok (record t { current_tid = tid }) else err Errno.ebadf

abbrev leads : ℕ → ℕ × Process → Bool
leads pid entry = not entry.1.is_thread && in_group pid entry.1

abbrev value_of : Option (ℕ × Process) → Option Process
value_of none = none
value_of (some entry) = some entry.1

-- The process of that thread id, or else the leader of that group.
unfoldable pub find_process_by_pid : ProcessTable → ℕ → KernelResult Process
find_process_by_pid t pid = elim (get pid t.processes) [
  | some process ↦ ok process
  | none ↦ ok_or (value_of (find (leads pid) t.processes)) Errno.enoent
]

-- The key that `find_process_by_pid_mut` gives access to.
unfoldable pub find_key_by_pid : ProcessTable → ℕ → KernelResult ℕ
find_key_by_pid t pid =
    if contains_key pid t.processes
    then ok pid
    else do entry ← ok_or (find (leads pid) t.processes) Errno.enoent; ok entry.0

-- A change of every thread of the current group.
unfoldable pub change_group : (Process → Process) → ProcessTable → KernelResult ProcessTable
unfolding current_tgid modify_each
change_group f t = do
  tgid ← current_tgid t
  ok (record t { processes = modify_each (in_group tgid) f t.processes })

unfoldable pub getpgid : ProcessTable → ℕ → KernelResult ℕ
unfolding current find_process_by_pid
getpgid t pid = do
  target ← (if pid == 0 then current t else find_process_by_pid t pid)
  ok target.pgid

unfoldable pub getsid : ProcessTable → ℕ → KernelResult ℕ
unfolding current find_process_by_pid
getsid t pid = do
  target ← (if pid == 0 then current t else find_process_by_pid t pid)
  ok target.sid

unfoldable pub setpgid : ProcessTable → ℕ → ℕ → KernelResult ProcessTable
unfolding current_tgid find_key_by_pid modify
setpgid t pid pgid = do
  target ← (if pid == 0 then current_tgid t else ok pid)
  key ← find_key_by_pid t target
  ok (record t {
    processes =
        modify key (λ process. record process { pgid = if pgid == 0 then target else pgid })
          t.processes;
  })

unfoldable pub setsid_current : ProcessTable → KernelResult (ProcessTable × ℕ)
unfolding change_group
setsid_current t = do
  pid ← current_tgid t
  changed ← change_group (λ process. record process { sid = pid; pgid = pid }) t
  ok (changed, pid)

unfoldable pub setuid_current : ProcessTable → ℕ → KernelResult ProcessTable
unfolding change_group
setuid_current t uid = change_group (λ process. record process { uid = uid; euid = uid }) t

abbrev pub unwrap_or : Option ℕ → ℕ → ℕ
unwrap_or none n = n
unwrap_or (some m) n = m

-- The test of `setresuid_current` and `setresgid_current` on the targets and the current ids.
abbrev pub refused : ℕ → ℕ → ℕ → ℕ → Bool
refused target_real target_effective real effective =
    not (real == 0 || effective == 0)
    && (not (target_real == real)
        && (not (target_real == effective)
            && (not (target_effective == real) && not (target_effective == effective))))

unfoldable pub setresuid_current : ProcessTable → Option ℕ → Option ℕ → KernelResult ProcessTable
unfolding current change_group
setresuid_current t ruid euid = do
  now ← current t
  (if refused (unwrap_or ruid now.uid) (unwrap_or euid now.euid) now.uid now.euid
      then err 1
      else change_group
          (λ process. record process {
            uid = unwrap_or ruid process.uid;
            euid = unwrap_or euid process.euid;
          })
          t)

unfoldable pub setgid_current : ProcessTable → ℕ → KernelResult ProcessTable
unfolding change_group
setgid_current t gid = change_group (λ process. record process { gid = gid; egid = gid }) t

unfoldable pub setresgid_current : ProcessTable → Option ℕ → Option ℕ → KernelResult ProcessTable
unfolding current change_group
setresgid_current t rgid egid = do
  now ← current t
  (if refused (unwrap_or rgid now.gid) (unwrap_or egid now.egid) now.gid now.egid
      then err 1
      else change_group
          (λ process. record process {
            gid = unwrap_or rgid process.gid;
            egid = unwrap_or egid process.egid;
          })
          t)

unfoldable pub setgroups_current : ProcessTable → List ℕ → KernelResult ProcessTable
unfolding change_group
setgroups_current t groups = change_group (λ process. record process { groups = groups }) t

unfoldable pub umask_current : ProcessTable → ℕ → KernelResult (ProcessTable × ℕ)
unfolding current modify
umask_current t mask = do
  process ← current t
  ok (
    record t {
      processes = modify t.current_tid (λ p. record p { umask = mask % 512 }) t.processes;
    },
    process.umask,
  )
