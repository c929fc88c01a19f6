-- ===== src/Proc/Table/Tests.antt =====
-- The process table of crates/proc/src/lib.rs at concrete inputs.
use whuse.Prelude.{
  ℕ, ◌≡◌, refl, sym, ◌∙◌, true, false, [], ◌∷◌, Option, none, some, ok, arith, inl, inr,
  Option-cases, ◌==◌, if◌then◌else◌,
}
use whuse.Prelude.BTreeMap.{BTreeMap, get, Entries, Entries-get}
use whuse.Proc.{Process, ProcessTable, ready}
use whuse.Proc.Table.{setresuid_current}
use whuse.Proc.Table.Ids
use whuse.Proc.Table.Ids.{SameIds, ids, Agree, id_call, setresuid}
use whuse.Proc.Wait.{reap_thread_group}
use whuse.Proc.Wait.Reap

-- A thread as `Process::new` makes it, of that group and parent and with those user ids.
abbrev pub thread : ℕ → ℕ → Option ℕ → ℕ → Process
thread tid tgid parent uid = record {
  pid = tgid;
  tid = tid;
  tgid = tgid;
  pgid = tgid;
  sid = 1;
  parent = parent;
  name = [];
  cwd = 47 ∷ [];
  uid = uid;
  euid = uid;
  gid = 0;
  egid = 0;
  groups = [];
  umask = 18;
  state = ready;
  exit_code = none;
  address_space = tgid;
  fds = [];
  fd_alias = [];
  trap_frame = record {
    regs = [];
    sepc = 0;
    sstatus = 0;
    scause = 0;
    stval = 0;
    fregs = [];
    fcsr = 0;
  };
  user_stack = [];
  tid_address = none;
  clear_child_tid = none;
  robust_list = none;
  signal_mask = 0;
  pending_signals = 0;
  sigaltstack = none;
  signal_actions = [];
  sleep_deadline_ns = none;
  sleep_requested_ns = 0;
  sleep_remain_ptr = none;
  sleep_absolute = false;
  itimer_real_deadline_ns = none;
  itimer_real_interval_ns = 0;
  futex_wait_addr = none;
  futex_wait_deadline_ns = none;
  epoll_wait_deadline_ns = none;
  sigsuspend_saved_mask = none;
  is_thread = if tid == tgid then false else true;
  signal_frame_pending = false;
  cancel_signal_seen = false;
  cancellation_in_progress = false;
  eintr_count = 0;
  force_thread_exit = false;
  vfork_parent_tid = none;
}

-- The initial process, a child of two threads that runs, and its child.
abbrev pub family : ProcessTable
family = record {
  next_pid = 5;
  current_tid = 3;
  processes =
      (1, thread 1 1 none 1000)
      ∷ (2, thread 2 2 (some 1) 1000)
      ∷ (3, thread 3 2 (some 1) 1000)
      ∷ (4, thread 4 4 (some 2) 1000)
      ∷ [];
  futex_waiters = [];
}

alike : (m : BTreeMap Process) → Entries (λ _ q. ids q ≡ ids (thread 1 1 none 1000)) m → SameIds m
alike m h j k = elim (Option-cases (get j m)) [
  | inl none_here ↦ rw none_here tt
  | inr (p, here) ↦ rw here (elim (Option-cases (get k m)) [
    | inl none_there ↦ rw none_there tt
    | inr (q, there) ↦
        rw there (λ _. Entries-get P j p m h here ∙ sym (Entries-get P k q m h there))
  ])
]
  where
    P : ℕ → Process → Type 0
    P _ q = ids q ≡ ids (thread 1 1 none 1000)

setresuid_effective_example :
    (t' : ProcessTable) × (setresuid_current family none (some 0) ≡ ok t')
    × (get 3 t'.processes ≡ some (record (thread 3 2 (some 1) 1000) { euid = 0 }))
unfolding get
setresuid_effective_example = Ids.setresuid_effective family (thread 3 2 (some 1) 1000) 0 refl

id_call-Safe_example : Ids.Safe (id_call (setresuid none (some 0)) family)
id_call-Safe_example =
    Ids.id_call-Safe family (alike family.processes (refl, (refl, (refl, (refl, tt)))))
      (setresuid none (some 0))

reap_thread_group_lem_example :
    Reap.Reaped 2 family.processes (reap_thread_group 2 family).processes
reap_thread_group_lem_example = Reap.reap_thread_group_lem 2 family (omega arith)
