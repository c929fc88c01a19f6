-- ===== src/Task/Counts.antt =====
-- crates/task/src/lib.rs: in how many places a task id stands, and what moves it.
use Prim.Native.String.{String}
use whuse.Prelude.{
  ℕ, ◌+◌, ◌≡◌, refl, List, [], ◌∷◌, ◌++◌, Option, none, some, arith, ◌==◌, if◌then◌else◌, inl, inr,
  Option-cases, ap, ◌∙◌,
}
use whuse.Prelude.BTreeMap.{get, Entries, Entries-get, Entries-remove, get-insert, get-remove}
use whuse.Task.{
  park, put_to_sleep, requeue, unpark, Task, TaskState, Scheduler, spawn, schedule_next,
  ensure_current, yield_now, wake_task, wake_each,
}

-- The number of tasks of that id in a queue.
unfoldable pub count_in : ℕ → List Task → ℕ
count_in k [] = 0
count_in k (t ∷ ts) = (if t.id == k then 1 else 0) + count_in k ts

abbrev pub count_current : ℕ → Option Task → ℕ
count_current k none = 0
count_current k (some t) = if t.id == k then 1 else 0

abbrev pub count_some {ℓ} : {A : Type ℓ} → Option A → ℕ
count_some none = 0
count_some (some a) = 1

-- The number of places of the scheduler that hold the id.
unfoldable pub count : ℕ → Scheduler → ℕ
count k s = count_current k s.current + count_in k s.ready + count_some (get k s.blocked)

-- A parked task stands under its own id.
abbrev pub Parked : ℕ → Task → Type 0
Parked k t = (t.id ≡ k) × (t.state ≡ TaskState.blocked)

pub count_in-append :
    (k : ℕ) (xs ys : List Task) → count_in k (xs ++ ys) ≡ count_in k xs + count_in k ys
unfolding count_in
count_in-append k [] ys = omega arith
count_in-append k (x ∷ xs) ys = omega (arith, count_in-append k xs ys)

pub count-spawn :
    (k : ℕ) (s : Scheduler) (name : String) (tid pid : ℕ)
    → count k (spawn s name tid pid).0 ≡ (if tid == k then 1 else 0) + count k s
unfolding count spawn count_in
count-spawn k s name tid pid = ground (arith, count_in-append k s.ready (t ∷ []))
  where
    t : Task
    t = record { id = tid; process_id = pid; name = name; state = TaskState.ready }

-- With no current task, taking the next one moves it only.
pub count-schedule_next :
    (k : ℕ) (s : Scheduler) → s.current ≡ none → count k (schedule_next s).0 ≡ count k s
unfolding count schedule_next count_in
count-schedule_next k s h = ground arith

pub count-ensure_current : (k : ℕ) (s : Scheduler) → count k (ensure_current s).0 ≡ count k s
unfolding ensure_current
count-ensure_current k s = ground (arith, count-schedule_next k s)

module _ (k : ℕ) (s : Scheduler) where
  pub count-requeue : (t : Task) → s.current ≡ some t → count k (requeue s t) ≡ count k s
  unfolding requeue count count_in
  count-requeue t e =
      ground (arith, count_in-append k s.ready (record t { state = TaskState.ready } ∷ []))

  pub requeue-current : (t : Task) → (requeue s t).current ≡ none
  unfolding requeue
  requeue-current t = refl

  pub count-yield_now :
      ((t : Task) → s.current ≡ some t → t.state ≡ TaskState.running)
      → count k (yield_now s).0 ≡ count k s
  unfolding yield_now
  count-yield_now running = elim (Option-cases s.current) [
    | inl e ↦ ground (arith, count-schedule_next k s)
    | inr (t, e) ↦ ground (
      arith,
      running t e,
      count-schedule_next k (requeue s t),
      requeue-current t,
      count-requeue t,
    )
  ]

  pub count-put_to_sleep :
      (t : Task)
      → s.current ≡ some t
      → get t.id s.blocked ≡ none
      → count k (put_to_sleep s t) ≡ count k s
  unfolding put_to_sleep count
  count-put_to_sleep t e fresh = ground (
    arith,
    get-insert t.id k (record t { state = TaskState.blocked }) s.blocked,
    ap (λ j. get j s.blocked),
  )

  -- The current task is counted among the parked instead.
  pub count-park :
      (t : Task) → s.current ≡ some t → get t.id s.blocked ≡ none → count k (park s t) ≡ count k s
  unfolding park put_to_sleep
  count-park t e fresh =
      count-schedule_next k (put_to_sleep s t) refl ∙ count-put_to_sleep t e fresh

  pub count-unpark :
      (tid : ℕ) (t : Task)
      → get tid s.blocked ≡ some t
      → t.id ≡ tid
      → count k (unpark s tid t) ≡ count k s
  unfolding unpark count count_in
  count-unpark tid t e same = ground (
    arith,
    get-remove tid k s.blocked,
    count_in-append k s.ready (record t { state = TaskState.ready } ∷ []),
  )

  pub count-wake_task :
      (tid : ℕ) → Entries Parked s.blocked → count k (wake_task s tid).0 ≡ count k s
  unfolding wake_task
  count-wake_task tid parked = elim (Option-cases (get tid s.blocked)) [
    | inl e ↦ rw (e, wake_task)
    | inr (t, e) ↦
        rw (e, wake_task) (count-unpark tid t e (Entries-get Parked tid t s.blocked parked e).0)
  ]

pub wake_task-Parked :
    (s : Scheduler) (tid : ℕ)
    → Entries Parked s.blocked
    → Entries Parked (wake_task s tid).0.blocked
unfolding wake_task unpark
wake_task-Parked s tid parked = elim (Option-cases (get tid s.blocked)) [
  | inl e ↦ rw (e, wake_task) parked
  | inr (t, e) ↦ rw (e, wake_task) (Entries-remove Parked tid s.blocked parked)
]

-- Waking moves tasks, whichever are named.
pub count-wake_each :
    (k : ℕ) (ids : List ℕ) (s : Scheduler) (woke : ℕ)
    → Entries Parked s.blocked
    → count k (wake_each ids s woke).0 ≡ count k s
unfolding wake_each
count-wake_each k [] s woke parked = refl
count-wake_each k (tid ∷ ids) s woke parked =
    count-wake_each k ids (wake_task s tid).0 _ (wake_task-Parked s tid parked)
    ∙ count-wake_task k s tid parked
