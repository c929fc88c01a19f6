-- ===== src/Task/Moves.antt =====
-- crates/task/src/lib.rs: how a call may change the state label of a task.
use Prim.Native.String.{String}
use whuse.Prelude.{
  ℕ, ◌≤◌, ◌≡◌, refl, Bool, true, false, ◌||◌, List, [], ◌∷◌, ◌++◌, none, some, arith, ◌==◌, any,
  inl, inr, Option-cases, ap, retain,
}
use whuse.Prelude.BTreeMap.{get, keys, Entries, get-insert, get-remove, Entries-get}
use whuse.Task.{
  Task, TaskState, Scheduler, WaitQueue, Label, running_label, ready_label, blocked_label, gone,
  task_state_label, spawn, schedule_next, start, ensure_current, yield_now, requeue, exit_current,
  park, put_to_sleep, block_current, block_current_on, wake_task, unpark, wake_each, pop_waiter,
  drain_waiters, wake_all_blocked, wake_one, wake_all, remove_task, remove_ready, exit_group,
}
use whuse.Task.Counts.{count, Parked, wake_task-Parked}
use whuse.Task.Invariant.{IsValid}
use whuse.Task.Removal.{any-count_in, count-remove_task}
use whuse.Task.Removal
use whuse.Task.Steps.{Call, step, Enabled}

-- The arrows of the task life cycle.
pub may_move : Label → Label → Bool
may_move gone ready_label = true
may_move ready_label running_label = true
may_move running_label ready_label = true
may_move running_label blocked_label = true
may_move blocked_label ready_label = true
may_move _ gone = true
may_move running_label running_label = true
may_move ready_label ready_label = true
may_move blocked_label blocked_label = true
may_move _ _ = false

pub any-append :
    (k : ℕ) (xs ys : List Task)
    → any (λ t. t.id == k) (xs ++ ys) ≡ any (λ t. t.id == k) xs || any (λ t. t.id == k) ys
any-append k [] ys = refl
any-append k (x ∷ xs) ys = ground (arith, any-append k xs ys)

module _ (k : ℕ) where
  schedule_next-may_move :
      (s : Scheduler)
      → s.current ≡ none
      → may_move (task_state_label s k) (task_state_label (schedule_next s).0 k) ≡ true
  unfolding may_move task_state_label schedule_next
  schedule_next-may_move s e = ground arith

  spawn-may_move :
      (s : Scheduler) (name : String) (tid pid : ℕ)
      → count tid s ≡ 0
      → may_move (task_state_label s k) (task_state_label (spawn s name tid pid).0 k) ≡ true
  unfolding may_move task_state_label spawn count
  spawn-may_move s name tid pid fresh = ground (
    arith,
    any-append k s.ready
        (record { id = tid; process_id = pid; name = name; state = TaskState.ready } ∷ []),
    any-count_in tid s.ready,
    ap (λ j. get j s.blocked),
  )

  yield_now-may_move :
      (s : Scheduler) → may_move (task_state_label s k) (task_state_label (yield_now s).0 k) ≡ true
  unfolding may_move task_state_label yield_now requeue schedule_next
  yield_now-may_move s = elim (Option-cases s.current) [
    | inl e ↦ ground arith
    | inr (c, e) ↦ ground (arith, any-append k s.ready (record c { state = TaskState.ready } ∷ []))
  ]

  park-may_move :
      (s : Scheduler) (c : Task)
      → s.current ≡ some c
      → may_move (task_state_label s k) (task_state_label (park s c) k) ≡ true
  unfolding may_move task_state_label park put_to_sleep schedule_next
  park-may_move s c e =
      ground (arith, get-insert c.id k (record c { state = TaskState.blocked }) s.blocked)

  exit_current-may_move :
      (s : Scheduler)
      → ((j : ℕ) → count j s ≤ 1)
      → may_move (task_state_label s k) (task_state_label (exit_current s) k) ≡ true
  unfolding may_move task_state_label exit_current count
  exit_current-may_move s single = ground (arith, single k, any-count_in k s.ready)

  remove_task-may_move :
      (s : Scheduler) (tid : ℕ)
      → ((j : ℕ) → count j s ≤ 1)
      → may_move (task_state_label s k) (task_state_label (remove_task s tid).0 k) ≡ true
  unfolding may_move task_state_label remove_task count
  remove_task-may_move s tid single = ground (
    arith,
    single k,
    any-count_in k s.ready,
    any-count_in k (remove_ready tid s.ready),
    Removal.count_in-remove_ready k tid s.ready,
    get-remove tid k s.blocked,
  )

  exit_group-may_move :
      (s : Scheduler) (pid : ℕ)
      → IsValid s
      → may_move (task_state_label s k) (task_state_label (exit_group s pid).0 k) ≡ true
  unfolding may_move task_state_label exit_group count
  exit_group-may_move s pid v = rw (Removal.exit_group-blocked s pid v.sorted) (
      ground (
        arith,
        v.single k,
        any-count_in k s.ready,
        any-count_in k (retain (Removal.outside pid) s.ready),
        Removal.count_in-retain k pid s.ready,
        Removal.get-parked_outside k pid s.blocked,
      ))

-- Sleeping to ready, or no change.
woken : Label → Label → Bool
woken blocked_label ready_label = true
woken gone gone = true
woken running_label running_label = true
woken ready_label ready_label = true
woken blocked_label blocked_label = true
woken _ _ = false

woken_trans : (a b c : Label) → woken a b ≡ true → woken b c ≡ true → woken a c ≡ true
unfolding woken
woken_trans a b c h g = ground arith

woken_refl : (a : Label) → woken a a ≡ true
unfolding woken
woken_refl a = ground arith

may_move_refl : (a : Label) → may_move a a ≡ true
unfolding may_move
may_move_refl a = ground arith

woken-may_move : (a b : Label) → woken a b ≡ true → may_move a b ≡ true
unfolding woken may_move
woken-may_move a b h = ground arith

module _ (k : ℕ) where
  wake_task-woken :
      (s : Scheduler) (tid : ℕ)
      → Entries Parked s.blocked
      → woken (task_state_label s k) (task_state_label (wake_task s tid).0 k) ≡ true
  unfolding woken task_state_label wake_task unpark
  wake_task-woken s tid parked = elim (Option-cases (get tid s.blocked)) [
    | inl e ↦ ground arith
    | inr (t, e) ↦ ground (
      arith,
      get-remove tid k s.blocked,
      any-append k s.ready (record t { state = TaskState.ready } ∷ []),
      Entries-get Parked tid t s.blocked parked e,
      ap (λ j. get j s.blocked),
    )
  ]

  wake_each-woken :
      (ids : List ℕ) (s : Scheduler) (woke : ℕ)
      → Entries Parked s.blocked
      → woken (task_state_label s k) (task_state_label (wake_each ids s woke).0 k) ≡ true
  unfolding wake_each
  wake_each-woken [] s woke parked = woken_refl (task_state_label s k)
  wake_each-woken (tid ∷ ids) s woke parked =
      woken_trans (task_state_label s k) (task_state_label (wake_task s tid).0 k) _
        (wake_task-woken s tid parked)
        (wake_each-woken ids (wake_task s tid).0 _ (wake_task-Parked s tid parked))

wake_one-woken :
    (k : ℕ) (s : Scheduler) (q : WaitQueue)
    → Entries Parked s.blocked
    → woken (task_state_label s k) (task_state_label (wake_one s q).0 k) ≡ true
unfolding wake_one pop_waiter
wake_one-woken k s q parked = wake_front q.waiters
  where
    wake_front :
        (ws : List ℕ)
        → woken
            (task_state_label s k)
            (task_state_label (wake_one s (record q { waiters = ws })).0 k)
          ≡ true
    wake_front [] = woken_refl (task_state_label s k)
    wake_front (tid ∷ rest) = wake_task-woken k s tid parked

-- A call takes every task along an arrow of its life cycle, or leaves it where it is.
pub step-may_move :
    (s : Scheduler) (c : Call) (k : ℕ)
    → IsValid s
    → Enabled s c
    → may_move (task_state_label s k) (task_state_label (step s c) k) ≡ true
unfolding step start ensure_current block_current block_current_on wake_all_blocked wake_all
    drain_waiters
step-may_move s (Call.spawns name tid pid) k v e = spawn-may_move k s name tid pid e
step-may_move s Call.starts k v e = schedule_next-may_move k s e
step-may_move s Call.ensures k v e = elim (Option-cases s.current) [
  | inl e' ↦ ground (arith, schedule_next-may_move k s e')
  | inr (t, e') ↦ ground (arith, may_move_refl (task_state_label s k))
]
step-may_move s Call.yields k v e = yield_now-may_move k s
step-may_move s Call.exits k v e = exit_current-may_move k s v.single
step-may_move s Call.blocks k v e = elim (Option-cases s.current) [
  | inl e' ↦ ground (arith, may_move_refl (task_state_label s k))
  | inr (t, e') ↦ ground (arith, park-may_move k s t)
]
step-may_move s (Call.blocks_on q) k v e = elim (Option-cases s.current) [
  | inl e' ↦ ground (arith, may_move_refl (task_state_label s k))
  | inr (t, e') ↦ ground (arith, park-may_move k s t)
]
step-may_move s Call.wakes_all_blocked k v e =
    woken-may_move _ _ (wake_each-woken k (keys s.blocked) s 0 v.parked)
step-may_move s (Call.wakes_one q) k v e = woken-may_move _ _ (wake_one-woken k s q v.parked)
step-may_move s (Call.wakes_all q) k v e =
    woken-may_move _ _ (wake_each-woken k q.waiters s 0 v.parked)
step-may_move s (Call.wakes tid) k v e = woken-may_move _ _ (wake_task-woken k s tid v.parked)
step-may_move s (Call.removes tid) k v e = remove_task-may_move k s tid v.single
step-may_move s (Call.exits_group pid) k v e = exit_group-may_move k s pid v
