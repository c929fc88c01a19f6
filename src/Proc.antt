-- ===== src/Proc.antt =====
-- crates/proc/src/lib.rs: the data of the process table. What a process names by a reference count
-- (its address space, the node of a file) is a number here.
pub mod Futex
pub mod Fds
pub mod Table
pub mod Wait
pub mod Signals
use whuse.Prelude.{ℕ, Bool, List, Option}
use whuse.Prelude.BTreeMap.{BTreeMap}
use whuse.Prelude.Integers.{ℤ}
use whuse.Vfs.{FileHandle}
use Futex.{FutexWaiters}

pub data ProcessState : Type 0 where
  ready running blocked exited : ProcessState

pub record SigAction : Type 0 where
  pub handler : ℕ
  pub flags : ℕ
  pub restorer : ℕ
  pub mask : ℕ

pub data WaitSelector : Type 0 where
  any_child : WaitSelector
  with_pid : ℕ → WaitSelector
  with_pgid : ℕ → WaitSelector

-- `hal_api::TrapFrame` of riscv64.
pub record TrapFrame : Type 0 where
  pub regs : List ℕ
  pub sepc : ℕ
  pub sstatus : ℕ
  pub scause : ℕ
  pub stval : ℕ
  pub fregs : List ℕ
  pub fcsr : ℕ

pub record Process : Type 0 where
  pub pid : ℕ
  pub tid : ℕ
  pub tgid : ℕ
  pub pgid : ℕ
  pub sid : ℕ
  pub parent : Option ℕ
  pub name : List ℕ
  pub cwd : List ℕ
  pub uid : ℕ
  pub euid : ℕ
  pub gid : ℕ
  pub egid : ℕ
  pub groups : List ℕ
  pub umask : ℕ
  pub state : ProcessState
  pub exit_code : Option ℤ
  pub address_space : ℕ
  pub fds : BTreeMap FileHandle
  pub fd_alias : BTreeMap ℕ
  pub trap_frame : TrapFrame
  pub user_stack : List ℕ
  pub tid_address : Option ℕ
  pub clear_child_tid : Option ℕ
  pub robust_list : Option (ℕ × ℕ)
  pub signal_mask : ℕ
  pub pending_signals : ℕ
  pub sigaltstack : Option (ℕ × ℕ × ℕ)
  pub signal_actions : BTreeMap SigAction
  pub sleep_deadline_ns : Option ℕ
  pub sleep_requested_ns : ℕ
  pub sleep_remain_ptr : Option ℕ
  pub sleep_absolute : Bool
  pub itimer_real_deadline_ns : Option ℕ
  pub itimer_real_interval_ns : ℕ
  pub futex_wait_addr : Option ℕ
  pub futex_wait_deadline_ns : Option ℕ
  pub epoll_wait_deadline_ns : Option ℕ
  pub sigsuspend_saved_mask : Option ℕ
  pub is_thread : Bool
  pub signal_frame_pending : Bool
  pub cancel_signal_seen : Bool
  pub cancellation_in_progress : Bool
  pub eintr_count : ℕ
  pub force_thread_exit : Bool
  pub vfork_parent_tid : Option ℕ

pub record ProcessTable : Type 0 where
  pub next_pid : ℕ
  pub current_tid : ℕ
  pub processes : BTreeMap Process
  pub futex_waiters : FutexWaiters
