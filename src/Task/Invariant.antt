-- ===== src/Task/Invariant.antt =====
-- crates/task/src/lib.rs: the scheduler's invariant, and that every call keeps it.
use Prim.Native.String.{String}
use whuse.Prelude.{
  ℕ, ◌≤◌, ◌≡◌, refl, List, [], ◌∷◌, none, some, arith, All, All-append, All-retain, inl, inr,
  Option-cases, ap,
}
use whuse.Prelude.BTreeMap.{
  keys, get, Entries, Entries-get, Entries-insert, Entries-remove, IsSorted, insert-From,
  remove-From,
}
use whuse.Task.{
  Task, TaskState, Scheduler, WaitQueue, new, spawn, schedule_next, start, ensure_current,
  yield_now, requeue, exit_current, park, put_to_sleep, block_current, block_current_on, wake_task,
  unpark, pop_waiter, drain_waiters, wake_each, wake_one, wake_all, wake_all_blocked, remove_task,
  exit_group,
}
use whuse.Task.Counts
use whuse.Task.Removal
use whuse.Task.Counts.{count, count_in, Parked}
use whuse.Task.Steps.{Call, step, Enabled, run, AllEnabled}

abbrev pub Waiting : Task → Type 0
Waiting t = t.state ≡ TaskState.ready

-- No id stands in two places, and each task's state says where it stands.
pub record IsValid (s : Scheduler) : Type 0 where
  pub sorted : IsSorted s.blocked
  pub single : (k : ℕ) → count k s ≤ 1
  pub running : (t : Task) → s.current ≡ some t → t.state ≡ TaskState.running
  pub waiting : All Waiting s.ready
  pub parked : Entries Parked s.blocked

pub new-IsValid : IsValid new
unfolding new count count_in get
new-IsValid = record {
  sorted = tt;
  single = λ k. omega arith;
  running = λ t e. absurd (cc);
  waiting = tt;
  parked = tt;
}

-- The current task is not parked too.
pub current_not_blocked :
    {s : Scheduler} (t : Task) → IsValid s → s.current ≡ some t → get t.id s.blocked ≡ none
unfolding count
current_not_blocked {s} t v e = ground (arith, v.single t.id)

schedule_next-IsValid : {s : Scheduler} → IsValid s → s.current ≡ none → IsValid (schedule_next s).0
unfolding schedule_next
schedule_next-IsValid {s} v e = record {
  sorted = ground arith;
  single = λ k. ground (arith, v.single k, Counts.count-schedule_next k s);
  running = λ t h. ground arith;
  waiting = ground arith;
  parked = ground arith;
}

spawn-IsValid :
    {s : Scheduler} (name : String) (tid pid : ℕ)
    → IsValid s
    → count tid s ≡ 0
    → IsValid (spawn s name tid pid).0
unfolding spawn
spawn-IsValid {s} name tid pid v fresh = record {
  sorted = v.sorted;
  single =
      λ k. ground (arith, v.single k, Counts.count-spawn k s name tid pid, ap (λ j. count j s));
  running = v.running;
  waiting = All-append Waiting s.ready _ v.waiting (refl, tt);
  parked = v.parked;
}

ensure_current-IsValid : {s : Scheduler} → IsValid s → IsValid (ensure_current s).0
unfolding ensure_current
ensure_current-IsValid {s} v = elim (Option-cases s.current) [
  | inl e ↦ ground (arith, schedule_next-IsValid v e)
  | inr (t, e) ↦ ground arith
]

requeue-IsValid :
    {s : Scheduler} (t : Task) → IsValid s → s.current ≡ some t → IsValid (requeue s t)
unfolding requeue
requeue-IsValid {s} t v e = record {
  sorted = v.sorted;
  single = λ k. ground (arith, v.single k, Counts.count-requeue k s t);
  running = λ u h. absurd (cc);
  waiting = All-append Waiting s.ready _ v.waiting (refl, tt);
  parked = v.parked;
}

yield_now-IsValid : {s : Scheduler} → IsValid s → IsValid (yield_now s).0
unfolding yield_now
yield_now-IsValid {s} v = elim (Option-cases s.current) [
  | inl e ↦ ground (arith, schedule_next-IsValid v e)
  | inr (t, e) ↦ ground (
    arith,
    v.running t e,
    schedule_next-IsValid (requeue-IsValid t v e) (Counts.requeue-current 0 s t),
  )
]

exit_current-IsValid : {s : Scheduler} → IsValid s → IsValid (exit_current s)
unfolding exit_current count
exit_current-IsValid {s} v = record {
  sorted = v.sorted;
  single = λ k. ground (arith, v.single k);
  running = λ t e. absurd (cc);
  waiting = v.waiting;
  parked = v.parked;
}

put_to_sleep-IsValid :
    {s : Scheduler} (t : Task) → IsValid s → s.current ≡ some t → IsValid (put_to_sleep s t)
unfolding put_to_sleep
put_to_sleep-IsValid {s} t v e = record {
  sorted = insert-From 0 t.id _ s.blocked v.sorted (omega arith);
  single =
      λ k. ground (arith, v.single k, Counts.count-put_to_sleep k s t, current_not_blocked t v e);
  running = λ u h. absurd (cc);
  waiting = v.waiting;
  parked = Entries-insert Parked t.id _ s.blocked (refl, refl) v.parked;
}

park-IsValid : {s : Scheduler} (t : Task) → IsValid s → s.current ≡ some t → IsValid (park s t)
unfolding park
park-IsValid {s} t v e =
    schedule_next-IsValid (put_to_sleep-IsValid t v e) (unfold put_to_sleep in refl)

unpark-IsValid :
    {s : Scheduler} (tid : ℕ) (t : Task)
    → IsValid s
    → get tid s.blocked ≡ some t
    → IsValid (unpark s tid t)
unfolding unpark
unpark-IsValid {s} tid t v e = record {
  sorted = remove-From 0 tid s.blocked v.sorted;
  single = λ k. ground (
    arith,
    v.single k,
    Counts.count-unpark k s tid t,
    Entries-get Parked tid t s.blocked v.parked e,
  );
  running = v.running;
  waiting = All-append Waiting s.ready _ v.waiting (refl, tt);
  parked = Entries-remove Parked tid s.blocked v.parked;
}

wake_task-IsValid : {s : Scheduler} (tid : ℕ) → IsValid s → IsValid (wake_task s tid).0
unfolding wake_task
wake_task-IsValid {s} tid v = elim (Option-cases (get tid s.blocked)) [
  | inl e ↦ ground arith
  | inr (t, e) ↦ ground (arith, unpark-IsValid tid t v e)
]

wake_each-IsValid :
    {s : Scheduler} (ids : List ℕ) (woke : ℕ) → IsValid s → IsValid (wake_each ids s woke).0
unfolding wake_each
wake_each-IsValid [] woke v = v
wake_each-IsValid {s} (tid ∷ ids) woke v =
    wake_each-IsValid {s = (wake_task s tid).0} ids _ (wake_task-IsValid tid v)

remove_task-IsValid : {s : Scheduler} (tid : ℕ) → IsValid s → IsValid (remove_task s tid).0
unfolding remove_task
remove_task-IsValid {s} tid v = record {
  sorted = ground (arith, remove-From 0 tid s.blocked v.sorted);
  single = λ k. ground (arith, v.single k, Removal.count-remove_task s tid k (v.single tid));
  running = λ t h. ground (arith, v.running t);
  waiting = ground (arith, Removal.remove_ready-All Waiting tid s.ready v.waiting);
  parked = ground (arith, Entries-remove Parked tid s.blocked v.parked);
}

exit_group-IsValid : {s : Scheduler} (pid : ℕ) → IsValid s → IsValid (exit_group s pid).0
exit_group-IsValid {s} pid v = record {
  sorted =
      rw (Removal.exit_group-blocked s pid v.sorted)
        (Removal.parked_outside-From 0 pid s.blocked v.sorted);
  single = λ k. ground (arith, v.single k, Removal.count-exit_group_le s pid k v.sorted);
  running = λ t h. unfold exit_group in ground (arith, v.running t);
  waiting = unfold exit_group in All-retain Waiting (Removal.outside pid) s.ready v.waiting;
  parked =
      rw (Removal.exit_group-blocked s pid v.sorted)
        (Removal.parked_outside-Entries Parked pid s.blocked v.parked);
}

wake_one-IsValid : {s : Scheduler} (q : WaitQueue) → IsValid s → IsValid (wake_one s q).0
unfolding wake_one pop_waiter
wake_one-IsValid {s} q v = wake_front q.waiters
  where
    wake_front : (ws : List ℕ) → IsValid (wake_one s (record q { waiters = ws })).0
    wake_front [] = v
    wake_front (tid ∷ rest) = wake_task-IsValid tid v

-- Every call that the kernel may make keeps the scheduler well formed.
pub step-IsValid : (s : Scheduler) (c : Call) → IsValid s → Enabled s c → IsValid (step s c)
unfolding step start block_current block_current_on wake_all_blocked wake_all drain_waiters
step-IsValid s (Call.spawns name tid pid) v e = spawn-IsValid name tid pid v e
step-IsValid s Call.starts v e = schedule_next-IsValid v e
step-IsValid s Call.ensures v e = ensure_current-IsValid v
step-IsValid s Call.yields v e = yield_now-IsValid v
step-IsValid s Call.exits v e = exit_current-IsValid v
step-IsValid s Call.blocks v e = elim (Option-cases s.current) [
  | inl none' ↦ ground arith
  | inr (t, some') ↦ ground (arith, park-IsValid t v some')
]
step-IsValid s Call.wakes_all_blocked v e = wake_each-IsValid (keys s.blocked) 0 v
step-IsValid s (Call.blocks_on q) v e = elim (Option-cases s.current) [
  | inl none' ↦ ground arith
  | inr (t, some') ↦ ground (arith, park-IsValid t v some')
]
step-IsValid s (Call.wakes_one q) v e = wake_one-IsValid q v
step-IsValid s (Call.wakes_all q) v e = wake_each-IsValid q.waiters 0 v
step-IsValid s (Call.wakes tid) v e = wake_task-IsValid tid v
step-IsValid s (Call.removes tid) v e = remove_task-IsValid tid v
step-IsValid s (Call.exits_group pid) v e = exit_group-IsValid pid v

run-IsValid : (s : Scheduler) (cs : List Call) → IsValid s → AllEnabled s cs → IsValid (run s cs)
unfolding run
run-IsValid s [] v e = v
run-IsValid s (c ∷ cs) v e = run-IsValid (step s c) cs (step-IsValid s c v e.0) e.1

-- From the empty scheduler, whatever the kernel calls, no thread id is ever in two places, and the
-- state of a task agrees with its place.
pub run-new-IsValid : (cs : List Call) → AllEnabled new cs → IsValid (run new cs)
run-new-IsValid cs e = run-IsValid new cs new-IsValid e
