-- ===== src/Proc/Signals.antt =====
-- crates/proc/src/lib.rs: the settings of the current thread and the signal actions of its group.
mod Tests
use whuse.Prelude.{
  ℕ, ◌<◌, ◌≤◌, ◌≡◌, refl, ◌∙◌, ap, sym, subst, Bool, true, false, ◌||◌, Option, none, some, ◌==◌,
  ltb, if◌then◌else◌, KernelResult, ok, err, ok_or, ◌>>=◌, arith, Bool-cases,
}
use whuse.Prelude.Errno
use whuse.Prelude.BTreeMap.{BTreeMap, get, insert, get-insert}
use whuse.Proc.{Process, ProcessTable, SigAction}
use whuse.Proc.Table.{current, current_tgid, change_group, modify, modify_each, find_process_by_pid}
use whuse.Proc.Table.Loops.{get-modify_each}

-- A change of the current thread.
unfoldable pub change_current : (Process → Process) → ProcessTable → KernelResult ProcessTable
unfolding current modify
change_current f t = do
  process ← current t
  ok (record t { processes = modify t.current_tid f t.processes })

unfoldable pub set_tid_address : ProcessTable → ℕ → KernelResult (ProcessTable × ℕ)
unfolding change_current current
set_tid_address t addr = do
  process ← current t
  changed ←
      change_current (λ p. record p { tid_address = some addr; clear_child_tid = some addr }) t
  ok (changed, process.tid)

unfoldable pub set_robust_list : ProcessTable → ℕ → ℕ → KernelResult ProcessTable
unfolding change_current
set_robust_list t head len =
    if len == 0
    then err Errno.einval
    else change_current (λ p. record p { robust_list = some (head, len) }) t

unfoldable pub set_signal_mask : ProcessTable → ℕ → KernelResult ProcessTable
unfolding change_current
set_signal_mask t mask = change_current (λ p. record p { signal_mask = mask }) t

unfoldable pub set_clear_child_tid : ProcessTable → Option ℕ → KernelResult ProcessTable
unfolding change_current
set_clear_child_tid t addr = change_current (λ p. record p { clear_child_tid = addr }) t

unfoldable pub set_sigaltstack :
    ProcessTable → Option (ℕ × ℕ × ℕ) → KernelResult (ProcessTable × Option (ℕ × ℕ × ℕ))
unfolding change_current current
set_sigaltstack t stack = do
  process ← current t
  changed ← change_current (λ p. record p { sigaltstack = stack }) t
  ok (changed, process.sigaltstack)

unfoldable pub set_itimer_real_current : ProcessTable → Option ℕ → ℕ → KernelResult ProcessTable
unfolding change_group
set_itimer_real_current t deadline_ns interval_ns =
    change_group
      (λ p. record p {
        itimer_real_deadline_ns = deadline_ns;
        itimer_real_interval_ns = interval_ns;
      })
      t

unfoldable pub get_robust_list : ProcessTable → ℕ → KernelResult (ℕ × ℕ)
unfolding current find_process_by_pid
get_robust_list t pid = do
  process ← (if pid == 0 then current t else find_process_by_pid t pid)
  ok_or process.robust_list Errno.einval

abbrev pub not_a_signal : ℕ → Bool
not_a_signal signal = signal == 0 || ltb 64 signal

unfoldable pub set_sigaction : ProcessTable → ℕ → SigAction → KernelResult ProcessTable
unfolding change_group
set_sigaction t signal action =
    if not_a_signal signal
    then err Errno.einval
    else change_group (λ p. record p { signal_actions = insert signal action p.signal_actions }) t

-- `SigAction::default()` where none is set.
abbrev pub or_default : Option SigAction → SigAction
or_default none = record { handler = 0; flags = 0; restorer = 0; mask = 0 }
or_default (some action) = action

unfoldable pub sigaction : ProcessTable → ℕ → KernelResult SigAction
unfolding current
sigaction t signal =
    if not_a_signal signal
    then err Errno.einval
    else do process ← current t; ok (or_default (get signal process.signal_actions))

itself : (n : ℕ) → (n == n) ≡ true
itself n = ground arith

abbrev looked_up : ℕ → Option SigAction → KernelResult SigAction
looked_up signal found = if not_a_signal signal then err Errno.einval else ok (or_default found)

sigaction_found :
    (t : ProcessTable) (q : Process) (signal : ℕ)
    → get t.current_tid t.processes ≡ some q
    → sigaction t signal ≡ looked_up signal (get signal q.signal_actions)
unfolding sigaction current
sigaction_found t q signal found = rw (sigaction, current, found) refl

looked_up-insert :
    (signal other : ℕ) (action : SigAction) (m : BTreeMap SigAction)
    → 0 < signal
    → signal ≤ 64
    → looked_up other (get other (insert signal action m))
      ≡ (if signal == other then ok action else looked_up other (get other m))
looked_up-insert signal other action m low high = ground (arith, get-insert signal other action m)

valid_signal : (signal : ℕ) → 0 < signal → signal ≤ 64 → not_a_signal signal ≡ false
valid_signal signal low high = ground arith

-- After an action is set for a signal, each thread of the group finds it for that signal, and for
-- another signal what it found before.
pub set_sigaction-sigaction :
    (t : ProcessTable) (signal other : ℕ) (action : SigAction) (p : Process)
    → 0 < signal
    → signal ≤ 64
    → get t.current_tid t.processes ≡ some p
    → (k : ℕ) (q : Process) → get k t.processes ≡ some q
    → q.tgid ≡ p.tgid
    → (t' : ProcessTable) × (set_sigaction t signal action ≡ ok t')
      × (sigaction (record t' { current_tid = k }) other
          ≡ (if signal == other then ok action else sigaction (record t { current_tid = k }) other))
unfolding set_sigaction change_group current_tgid current
set_sigaction-sigaction t signal other action p low high here k q there group = (
  record t { processes = modify_each (λ r. r.tgid == p.tgid) put t.processes },
  runs,
  sigaction_found
        (record t {
          processes = modify_each (λ r. r.tgid == p.tgid) put t.processes;
          current_tid = k;
        })
        (put q) other changed
      ∙ looked_up-insert signal other action q.signal_actions low high
      ∙ ap (λ r. if signal == other then ok action else r)
          (sym (sigaction_found (record t { current_tid = k }) q other there)),
)
  where
    put : Process → Process
    put r = record r { signal_actions = insert signal action r.signal_actions }

    runs :
        set_sigaction t signal action
        ≡ ok (record t { processes = modify_each (λ r. r.tgid == p.tgid) put t.processes })
    runs = rw (valid_signal signal low high, here) refl

    changed : get k (modify_each (λ r. r.tgid == p.tgid) put t.processes) ≡ some (put q)
    changed =
        get-modify_each (λ r. r.tgid == p.tgid) put k t.processes
        ∙ in_entry
        ∙ subst (λ b. some (if b then put q else q) ≡ some (put q))
            (sym (ap (λ n. n == p.tgid) group ∙ itself p.tgid)) refl
      where
        in_entry :
            (elim (get k t.processes) [
              | none ↦ none
              | some r ↦ some (if r.tgid == p.tgid then put r else r)
            ])
            ≡ some (if q.tgid == p.tgid then put q else q)
        in_entry = rw there refl
