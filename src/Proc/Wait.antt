-- ===== src/Proc/Wait.antt =====
-- crates/proc/src/lib.rs: waiting for a child and the removal of a thread group.
pub mod Initial
pub mod Reap
use whuse.Prelude.{
  ℕ, suc, not, Bool, true, false, ◌&&◌, ◌+◌, ◌*◌, ◌%◌, ◌-◌, ◌^◌, List, [], ◌∷◌, Option, none, some,
  ◌==◌, if◌then◌else◌, find, any, KernelResult, ok, err,
}
use whuse.Prelude.Errno
use whuse.Prelude.Integers.{ℤ, pos, negsuc, as_i32}
use whuse.Prelude.BTreeMap.{BTreeMap, get, remove, contains_key}
use whuse.Proc.{
  Process, ProcessTable, ProcessState, ready, running, blocked, exited, WaitSelector, any_child,
  with_pid, with_pgid,
}
use whuse.Proc.Futex.{FutexWaiters, remove_futex_waiter}
use whuse.Proc.Table.{modify, modify_each, current_tgid, find_process_by_pid}

-- The negation of the least `i32` is itself, and is widened with its sign.
unfoldable pub selector_from_wait_pid : ℤ → ℕ → WaitSelector
selector_from_wait_pid (pos n) current_pgid = if n == 0 then with_pgid current_pgid else with_pid n
selector_from_wait_pid (negsuc n) current_pgid =
    if n == 0
    then any_child
    else if suc n == 2 ^ 31
    then with_pgid (2 ^ 64 - 2 ^ 31)
    else with_pgid (suc n)

unfoldable pub wait_status_from_signal : ℕ → ℤ
wait_status_from_signal signum =
    let core = any (λ n. n == signum) (3 ∷ 4 ∷ 6 ∷ 7 ∷ 8 ∷ 11 ∷ 24 ∷ 25 ∷ 31 ∷ []) in
    pos (signum % 128 + (if core then 128 else 0))

abbrev pub is_exited : ProcessState → Bool
is_exited ready = false
is_exited running = false
is_exited blocked = false
is_exited exited = true

abbrev pub is_some_of : Option ℕ → ℕ → Bool
is_some_of none n = false
is_some_of (some m) n = m == n

unfoldable pub selector_matches : WaitSelector → Process → Bool
selector_matches any_child process = true
selector_matches (with_pid pid) process = process.tgid == pid
selector_matches (with_pgid pgid) process = process.pgid == pgid

unfoldable pub init_tgid : BTreeMap Process → ℕ
init_tgid processes =
    elim (find (λ e. not e.1.is_thread && (elim e.1.parent [ none ↦ true | some _ ↦ false ]))
      processes) [ none ↦ 1 | some entry ↦ entry.1.tgid ]

-- The live processes that lose their parent.
abbrev pub orphaned : ℕ → Process → Bool
orphaned tgid process =
    not process.is_thread
    && (not (is_exited process.state)
        && (is_some_of process.parent tgid && not (process.tgid == tgid)))

unfoldable pub group_tids : ℕ → BTreeMap Process → List ℕ
group_tids tgid [] = []
group_tids tgid ((tid, process) ∷ m) =
    if process.tgid == tgid then tid ∷ group_tids tgid m else group_tids tgid m

abbrev pub reap_one : ℕ → ProcessTable → ProcessTable
reap_one tid t = record t {
  processes = remove tid t.processes;
  futex_waiters = remove_futex_waiter tid t.futex_waiters;
}

unfoldable pub reap_each : List ℕ → ProcessTable → ProcessTable
reap_each [] t = t
reap_each (tid ∷ tids) t = reap_each tids (reap_one tid t)

unfoldable pub reap_thread_group : ℕ → ProcessTable → ProcessTable
unfolding init_tgid group_tids reap_each modify_each
reap_thread_group tgid t =
    let init = init_tgid t.processes in
    let adopted =
      modify_each (orphaned tgid) (λ process. record process { parent = some init }) t.processes in
    reap_each (group_tids tgid adopted) (record t { processes = adopted })

-- A child that the caller may wait for.
abbrev pub is_child : ℕ → WaitSelector → Process → Bool
is_child parent_tgid selector process =
    not process.is_thread
    && (is_some_of process.parent parent_tgid && selector_matches selector process)

abbrev exit_code_of : Option Process → ℤ
exit_code_of none = pos 0
exit_code_of (some process) = elim process.exit_code [ none ↦ pos 0 | some code ↦ code ]

-- The exit code of a child as its status word.
unfoldable pub wait_status : ℤ → ℤ
unfolding wait_status_from_signal
wait_status (pos code) = as_i32 (code * 256)
wait_status (negsuc n) = wait_status_from_signal (suc n)

unfoldable pub wait_child : ProcessTable → ℕ → WaitSelector → KernelResult (ProcessTable × ℕ × ℤ)
unfolding reap_thread_group wait_status
wait_child t parent_tgid selector =
    let done = find (λ e. is_child parent_tgid selector e.1 && is_exited e.1.state) t.processes in
    elim done [
      | some entry ↦
          let code = exit_code_of (get entry.1.tgid t.processes) in
          ok (reap_thread_group entry.1.tgid t, entry.1.tgid, wait_status code)
      | none ↦
          if any (λ e. is_child parent_tgid selector e.1) t.processes
          then ok (t, 0, pos 0)
          else err Errno.echild
    ]

unfoldable pub wait : ProcessTable → ℕ → ℤ → KernelResult (ProcessTable × ℕ × ℤ)
unfolding find_process_by_pid wait_child
wait t parent_pid pid = elim (find_process_by_pid t parent_pid) [
  | err errno ↦ err errno
  | ok parent ↦ wait_child t parent_pid (selector_from_wait_pid pid parent.pgid)
]

pub record ProcessSnapshot : Type 0 where
  pub tid : ℕ
  pub tgid : ℕ
  pub name : List ℕ
  pub state : ProcessState
  pub is_thread : Bool

abbrev snapshot : Process → ProcessSnapshot
snapshot process = record {
  tid = process.tid;
  tgid = process.tgid;
  name = process.name;
  state = process.state;
  is_thread = process.is_thread;
}

unfoldable snapshots : (Process → Bool) → BTreeMap Process → List ProcessSnapshot
snapshots chosen [] = []
snapshots chosen ((tid, process) ∷ m) =
    if chosen process then snapshot process ∷ snapshots chosen m else snapshots chosen m

unfoldable wait_child_snapshot : ProcessTable → ℕ → WaitSelector → List ProcessSnapshot
unfolding snapshots
wait_child_snapshot t parent_tgid selector = snapshots (is_child parent_tgid selector) t.processes

-- `release_vfork_parent_for_tgid`: the first vfork parent among the threads of the group.
unfoldable first_vfork_parent : ℕ → BTreeMap Process → Option ℕ
first_vfork_parent tgid [] = none
first_vfork_parent tgid ((tid, process) ∷ m) =
    let rest = first_vfork_parent tgid m in
    if process.tgid == tgid
    then elim process.vfork_parent_tid [ none ↦ rest | some parent ↦ some parent ]
    else rest

unfoldable release_vfork_parent_for_tgid : ℕ → ProcessTable → ProcessTable × Option ℕ
unfolding first_vfork_parent modify_each
release_vfork_parent_for_tgid tgid t = (
  record t {
    processes =
        modify_each (λ p. p.tgid == tgid) (λ p. record p { vfork_parent_tid = none }) t.processes;
  },
  first_vfork_parent tgid t.processes,
)

unfoldable release_current_vfork_parent : ProcessTable → KernelResult (ProcessTable × Option ℕ)
unfolding release_vfork_parent_for_tgid current_tgid
release_current_vfork_parent t = elim (current_tgid t) [
  | err errno ↦ err errno
  | ok tgid ↦ ok (release_vfork_parent_for_tgid tgid t)
]

unfoldable set_vfork_parent_tid : ProcessTable → ℕ → ℕ → KernelResult ProcessTable
unfolding modify
set_vfork_parent_tid t child_tid parent_tid =
    if contains_key child_tid t.processes
    then ok (record t {
      processes =
          modify child_tid (λ p. record p { vfork_parent_tid = some parent_tid }) t.processes;
    })
    else err Errno.enoent
