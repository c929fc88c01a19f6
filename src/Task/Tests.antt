-- ===== src/Task/Tests.antt =====
-- Runs of the scheduler of crates/task/src/lib.rs, and the theorems at concrete inputs.
use Prim.Native.String.{String}
use whuse.Prelude.{ℕ, ◌≡◌, refl, List, [], ◌∷◌, some, map, true}
use whuse.Task.{
  Task, TaskState, Scheduler, new, running_label, ready_label, blocked_label, gone,
  task_state_label, spawn, start, exit_group, block_current, block_current_on, wake_one,
  wake_all_blocked,
}
use whuse.Task.Counts.{count, count_in}
use whuse.Prelude.BTreeMap.{get, insert}
use whuse.Task.Steps.{Call, run, step}
use whuse.Task.Invariant.{IsValid, run-new-IsValid, step-IsValid}
use whuse.Task.Conservation.{step-count}
use whuse.Task.Moves.{may_move, step-may_move}
use whuse.Task.Rotation.{yields, yields_turn, yields_round}
use whuse.Task.Removal
use whuse.Task.Sleep

abbrev calls : List Call
calls =
    Call.spawns "a" 1 10
    ∷ Call.spawns "b" 2 20
    ∷ Call.spawns "c" 3 10
    ∷ Call.starts
    ∷ Call.blocks
    ∷ []

-- Task 2 runs, task 3 is ready and task 1 is parked.
abbrev busy : Scheduler
busy = run new calls

busy-IsValid : IsValid busy
unfolding new run step spawn start block_current get count count_in
busy-IsValid = run-new-IsValid calls (refl, (refl, (refl, (refl, (tt, tt)))))

-- Task 1 is parked, task 2 runs and task 3 waits.
labels :
    map (task_state_label busy) (1 ∷ 2 ∷ 3 ∷ 4 ∷ [])
    ≡ blocked_label ∷ running_label ∷ ready_label ∷ gone ∷ []
unfolding new run step spawn start block_current get insert task_state_label
labels = refl

task_of : ℕ → ℕ → String → Task
task_of id pid name = record { id = id; process_id = pid; name = name; state = TaskState.ready }

run-new-IsValid_example : IsValid (run new calls)
unfolding new run step spawn start block_current get count count_in
run-new-IsValid_example = run-new-IsValid calls (refl, (refl, (refl, (refl, (tt, tt)))))

step-IsValid_example : IsValid (step busy (Call.wakes 1))
step-IsValid_example = step-IsValid busy (Call.wakes 1) busy-IsValid tt

step-count_example : count 3 (step busy Call.yields) ≡ count 3 busy
step-count_example = step-count busy Call.yields 3 busy-IsValid tt tt

step-may_move_example :
    may_move (task_state_label busy 2) (task_state_label (step busy Call.yields) 2) ≡ true
step-may_move_example = step-may_move busy Call.yields 2 busy-IsValid tt

yields_turn_example :
    (yields 1 busy).current ≡ some (record (task_of 3 10 "c") { state = TaskState.running })
unfolding new run step spawn start block_current get task_of
yields_turn_example =
    yields_turn busy (record (task_of 2 20 "b") { state = TaskState.running }) (task_of 3 10 "c") []
      [] busy-IsValid refl refl

yields_round_example : yields 2 busy ≡ busy
unfolding new run step spawn start block_current get task_of
yields_round_example =
    yields_round busy (record (task_of 2 20 "b") { state = TaskState.running }) busy-IsValid refl

exit_group-owned_example : Removal.owned 20 (exit_group busy 10).0 ≡ 1
unfolding new run step spawn start block_current get Removal.owned insert
exit_group-owned_example = Removal.exit_group-owned busy 10 busy-IsValid.sorted 20

sleep_wake_example :
    (wake_one
      (block_current_on busy (record { id = 1; waiters = [] })).0
      (block_current_on busy (record { id = 1; waiters = [] })).1).2
    ≡ some 2
unfolding new run step spawn start block_current get task_of
sleep_wake_example =
    (Sleep.sleep_wake busy (record (task_of 2 20 "b") { state = TaskState.running }) busy-IsValid
      refl (record { id = 1; waiters = [] }) refl).1

wake_all_blocked_lem_example : (wake_all_blocked busy).0.blocked ≡ []
wake_all_blocked_lem_example = (Sleep.wake_all_blocked_lem busy busy-IsValid).0
