-- ===== src/Task/Conservation.antt =====
-- crates/task/src/lib.rs: scheduling, sleeping and waking lose no task and double none.
use whuse.Prelude.{ℕ, ◌≡◌, refl, List, [], ◌∷◌, arith, Option-cases, inl, inr}
use whuse.Prelude.BTreeMap.{keys}
use whuse.Task.{
  Scheduler, WaitQueue, start, block_current, block_current_on, wake_all_blocked, wake_one,
  wake_all, pop_waiter, drain_waiters,
}
use whuse.Task.Counts
use whuse.Task.Counts.{count}
use whuse.Task.Invariant.{IsValid, current_not_blocked}
use whuse.Task.Steps.{Call, step, Enabled}

-- The calls that neither make a task nor end one.
abbrev pub Keeps : Call → Type 0
Keeps (Call.spawns name tid pid) = ⊥
Keeps Call.exits = ⊥
Keeps (Call.removes tid) = ⊥
Keeps (Call.exits_group pid) = ⊥
Keeps _ = Unit {0}

wake_one-count :
    (s : Scheduler) (q : WaitQueue) (k : ℕ) → IsValid s → count k (wake_one s q).0 ≡ count k s
unfolding wake_one pop_waiter
wake_one-count s q k v = wake_front q.waiters
  where
    wake_front : (ws : List ℕ) → count k (wake_one s (record q { waiters = ws })).0 ≡ count k s
    wake_front [] = refl
    wake_front (tid ∷ rest) = Counts.count-wake_task k s tid v.parked

block_current-count : (s : Scheduler) (k : ℕ) → IsValid s → count k (block_current s).0 ≡ count k s
unfolding block_current
block_current-count s k v = elim (Option-cases s.current) [
  | inl e ↦ ground arith
  | inr (t, e) ↦ ground (arith, Counts.count-park k s t, current_not_blocked t v e)
]

block_current_on-count :
    (s : Scheduler) (q : WaitQueue) (k : ℕ)
    → IsValid s
    → count k (block_current_on s q).0 ≡ count k s
unfolding block_current_on
block_current_on-count s q k v = elim (Option-cases s.current) [
  | inl e ↦ ground arith
  | inr (t, e) ↦ ground (arith, Counts.count-park k s t, current_not_blocked t v e)
]

-- Such a call leaves every thread id in as many places of the scheduler as before.
pub step-count :
    (s : Scheduler) (c : Call) (k : ℕ)
    → IsValid s
    → Enabled s c
    → Keeps c
    → count k (step s c) ≡ count k s
unfolding step start wake_all_blocked wake_all drain_waiters
step-count s (Call.spawns name tid pid) k v e h = absurd h
step-count s Call.exits k v e h = absurd h
step-count s (Call.removes tid) k v e h = absurd h
step-count s (Call.exits_group pid) k v e h = absurd h
step-count s Call.starts k v e h = Counts.count-schedule_next k s e
step-count s Call.ensures k v e h = Counts.count-ensure_current k s
step-count s Call.yields k v e h = Counts.count-yield_now k s v.running
step-count s Call.blocks k v e h = block_current-count s k v
step-count s Call.wakes_all_blocked k v e h = Counts.count-wake_each k (keys s.blocked) s 0 v.parked
step-count s (Call.blocks_on q) k v e h = block_current_on-count s q k v
step-count s (Call.wakes_one q) k v e h = wake_one-count s q k v
step-count s (Call.wakes_all q) k v e h = Counts.count-wake_each k q.waiters s 0 v.parked
step-count s (Call.wakes tid) k v e h = Counts.count-wake_task k s tid v.parked
