-- ===== src/Task/Sleep.antt =====
-- crates/task/src/lib.rs: wait queues, and a task that sleeps on one and is woken.
use whuse.Prelude.{
  ℕ, ◌≡◌, ◌≤◌, ◌+◌, refl, true, false, List, [], ◌∷◌, ◌++◌, some, arith, ◌==◌, any, if◌then◌else◌,
  inl, inr, ap, Bool-cases, length, length-append, suc,
}
use whuse.Prelude.BTreeMap.{BTreeMap, From, keys, get, remove_head, get-insert}
use whuse.Task.{
  Task, TaskState, Scheduler, WaitQueue, register, block_current_on, park, put_to_sleep, wake_each,
  wake_all_blocked, blocked_count, ready_count, schedule_next, wake_one, pop_waiter, wake_task,
  unpark, task_state_label, blocked_label, ready_label,
}
use whuse.Task.Counts.{count}
use whuse.Task.Removal.{any-count_in}
use whuse.Task.Moves.{any-append}
use whuse.Task.Invariant.{IsValid}

-- How often an id waits.
unfoldable pub waits : ℕ → List ℕ → ℕ
waits k [] = 0
waits k (w ∷ ws) = (if w == k then 1 else 0) + waits k ws

waits-append : (k : ℕ) (xs ys : List ℕ) → waits k (xs ++ ys) ≡ waits k xs + waits k ys
unfolding waits
waits-append k [] ys = omega arith
waits-append k (x ∷ xs) ys = omega (arith, waits-append k xs ys)

waits-any : (k : ℕ) (ws : List ℕ) → any (λ w. w == k) ws ≡ false → waits k ws ≡ 0
unfolding waits
waits-any k [] h = refl
waits-any k (w ∷ ws) h = ground (arith, waits-any k ws)

any-waits : (k : ℕ) (ws : List ℕ) → any (λ w. w == k) ws ≡ true → 1 ≤ waits k ws
unfolding waits
any-waits k [] h = absurd (cc)
any-waits k (w ∷ ws) h = ground (arith, any-waits k ws)

-- Registering makes a task wait exactly once, however often it is repeated, and leaves the others
-- as they were.
pub register-waits :
    (q : WaitQueue) (tid k : ℕ)
    → waits tid q.waiters ≤ 1
    → waits k (register q tid).0.waiters ≡ (if tid == k then 1 else waits k q.waiters)
unfolding register
register-waits q tid k h = elim (Bool-cases (any (λ w. w == tid) q.waiters)) [
  | inl e ↦ ground (arith, any-waits tid q.waiters e, ap (λ j. waits j q.waiters))
  | inr e ↦
      unfold waits in
      ground (
        arith,
        waits-any tid q.waiters e,
        waits-append k q.waiters (tid ∷ []),
        ap (λ j. waits j q.waiters),
      )
]

wake_task-label :
    (s : Scheduler) (t : Task) (k : ℕ)
    → get k s.blocked ≡ some t
    → t.id ≡ k
    → task_state_label s k ≡ blocked_label
    → task_state_label (wake_task s k).0 k ≡ ready_label
unfolding wake_task unpark task_state_label
wake_task-label s t k e same parked =
    ground (arith, any-append k s.ready (record t { state = TaskState.ready } ∷ []))

module _ (s : Scheduler) (c : Task) (v : IsValid s) (e : s.current ≡ some c) where
  parked_task : Task
  parked_task = record c { state = TaskState.blocked }

  park-get : get c.id (park s c).blocked ≡ some parked_task
  unfolding park put_to_sleep schedule_next parked_task
  park-get = ground (arith, get-insert c.id c.id (record c { state = TaskState.blocked }) s.blocked)

  park-label : task_state_label (park s c) c.id ≡ blocked_label
  unfolding park put_to_sleep schedule_next task_state_label count
  park-label = ground (
    arith,
    get-insert c.id c.id (record c { state = TaskState.blocked }) s.blocked,
    v.single c.id,
    any-count_in c.id s.ready,
  )

  woken-label : task_state_label (wake_task (park s c) c.id).0 c.id ≡ ready_label
  woken-label =
      wake_task-label (park s c) parked_task c.id park-get (unfold parked_task in refl) park-label

  -- A task that sleeps on an empty queue is the one that `wake_one` wakes: it is parked in between,
  -- ready afterwards, and the queue is as before.
  pub sleep_wake :
      (q : WaitQueue)
      → q.waiters ≡ []
      → let b = block_current_on s q in
        let w = wake_one b.0 b.1 in
        (task_state_label b.0 c.id ≡ blocked_label)
        × (w.2 ≡ some c.id)
        × (w.1 ≡ q)
        × (task_state_label w.0 c.id ≡ ready_label)
  unfolding block_current_on register wake_one pop_waiter
  sleep_wake q empty = ground (arith, park-label, woken-label)

get_head :
    (k : ℕ) (t : Task) (m : BTreeMap Task) (s : Scheduler)
    → s.blocked ≡ (k, t) ∷ m
    → get k s.blocked ≡ some t
unfolding get
get_head k t m s e = ground arith

unpark_head :
    (k : ℕ) (t : Task) (m : BTreeMap Task) (s : Scheduler)
    → s.blocked ≡ (k, t) ∷ m
    → From (suc k) m
    → ((unpark s k t).blocked ≡ m) × (length (unpark s k t).ready ≡ length s.ready + 1)
unfolding unpark
unpark_head k t m s e f = (
  rw e (remove_head k t m f),
  omega (arith, length-append s.ready (record t { state = TaskState.ready } ∷ [])),
)

wake_each-keys :
    (n : ℕ) (m : BTreeMap Task) (s : Scheduler) (woke : ℕ)
    → s.blocked ≡ m
    → From n m
    → let r = wake_each (keys m) s woke in
      (r.0.blocked ≡ []) × (r.1 ≡ woke + length m) × (length r.0.ready ≡ length s.ready + length m)
unfolding wake_each
wake_each-keys n [] s woke e f = ground arith
wake_each-keys n ((k, t) ∷ m) s woke e f = ground (
  arith,
  get_head k t m s e,
  unpark_head k t m s e f.1,
  wake_each-keys (suc k) m (unpark s k t) (woke + 1) (unpark_head k t m s e f.1).0 f.1,
)

-- `wake_all_blocked` empties `blocked`, and its answer is the number of tasks that became ready.
pub wake_all_blocked_lem :
    (s : Scheduler)
    → IsValid s
    → let r = wake_all_blocked s in
      (r.0.blocked ≡ [])
      × (r.1 ≡ blocked_count s)
      × (ready_count r.0 ≡ ready_count s + blocked_count s)
unfolding wake_all_blocked blocked_count ready_count
wake_all_blocked_lem s v = ground (arith, wake_each-keys 0 s.blocked s 0 refl v.sorted)
