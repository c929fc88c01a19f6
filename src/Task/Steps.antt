-- ===== src/Task/Steps.antt =====
-- crates/task/src/lib.rs: the calls that the kernel makes on a scheduler, as one step function.
use Prim.Native.String.{String}
use whuse.Prelude.{ℕ, ◌≡◌, List, [], ◌∷◌, none}
use whuse.Task.{
  Scheduler, WaitQueue, spawn, start, ensure_current, yield_now, exit_current, block_current,
  block_current_on, wake_task, wake_one, wake_all, wake_all_blocked, remove_task, exit_group,
}
use whuse.Task.Counts.{count}

pub data Call : Type 0 where
  spawns : String → ℕ → ℕ → Call
  starts ensures yields exits blocks wakes_all_blocked : Call
  blocks_on wakes_one wakes_all : WaitQueue → Call
  wakes removes exits_group : ℕ → Call

unfoldable pub step : Scheduler → Call → Scheduler
step s (spawns name tid pid) = (spawn s name tid pid).0
step s starts = (start s).0
step s ensures = (ensure_current s).0
step s yields = (yield_now s).0
step s exits = exit_current s
step s blocks = (block_current s).0
step s wakes_all_blocked = (wake_all_blocked s).0
step s (blocks_on q) = (block_current_on s q).0
step s (wakes_one q) = (wake_one s q).0
step s (wakes_all q) = (wake_all s q).0
step s (wakes tid) = (wake_task s tid).0
step s (removes tid) = (remove_task s tid).0
step s (exits_group pid) = (exit_group s pid).0

-- What the kernel sees to: a spawned id is new, and `start` finds no task running.
abbrev pub Enabled : Scheduler → Call → Type 0
Enabled s (spawns name tid pid) = count tid s ≡ 0
Enabled s starts = s.current ≡ none
Enabled s _ = Unit {0}

unfoldable pub run : Scheduler → List Call → Scheduler
unfolding step
run s [] = s
run s (c ∷ cs) = run (step s c) cs

abbrev pub AllEnabled : Scheduler → List Call → Type 0
AllEnabled s [] = Unit {0}
AllEnabled s (c ∷ cs) = Enabled s c × AllEnabled (step s c) cs
