-- ===== src/Task.antt =====
-- crates/task/src/lib.rs: wait queues and the cooperative scheduler.
pub mod Counts
pub mod Steps
pub mod Invariant
pub mod Rotation
pub mod Removal
pub mod Conservation
pub mod Moves
pub mod Sleep
mod Tests
use Prim.Native.String.{String}
use mathlib.Core.Option
use whuse.Prelude.{
  ℕ, ◌+◌, ◌-◌, max, Bool, true, false, List, [], ◌∷◌, ◌++◌, Option, none, some, ◌==◌, not,
  if◌then◌else◌, any, retain, length,
}
use whuse.Prelude.Words.{wrapping_add}
use whuse.Prelude.BTreeMap.{BTreeMap, get, insert, remove, contains_key, keys}

pub data TaskState : Type 0 where
  ready running blocked exited : TaskState

pub record Task : Type 0 where
  pub id : ℕ
  pub process_id : ℕ
  pub name : String
  pub state : TaskState

pub record WaitToken : Type 0 where
  pub queue_id : ℕ
  pub task_id : ℕ

pub record WaitQueue : Type 0 where
  pub id : ℕ
  pub waiters : List ℕ

-- `WaitQueue::new`, `register`, `wake_one` and `wake_all`.
pub new_wait_queue : ℕ → WaitQueue
new_wait_queue id = record { id = id; waiters = [] }

pub register : WaitQueue → ℕ → WaitQueue × WaitToken
register q task_id = (
  record q {
    waiters =
        if any (λ waiter. waiter == task_id) q.waiters
        then q.waiters
        else q.waiters ++ task_id ∷ [];
  },
  record { queue_id = q.id; task_id = task_id },
)

pub pop_waiter : WaitQueue → WaitQueue × Option ℕ
pop_waiter q = elim q.waiters [ [] ↦ (q, none) | w ∷ rest ↦ (record q { waiters = rest }, some w) ]

pub drain_waiters : WaitQueue → WaitQueue × List ℕ
drain_waiters q = (record q { waiters = [] }, q.waiters)

pub record Scheduler : Type 0 where
  pub next_id : ℕ
  pub ready : List Task
  pub current : Option Task
  pub blocked : BTreeMap Task
  pub next_wait_queue : ℕ

pub new : Scheduler
new = record { next_id = 1; ready = []; current = none; blocked = []; next_wait_queue = 1 }

pub create_wait_queue : Scheduler → Scheduler × WaitQueue
unfolding new_wait_queue
create_wait_queue s = (
  record s { next_wait_queue = wrapping_add s.next_wait_queue 1 },
  new_wait_queue s.next_wait_queue,
)

pub spawn : Scheduler → String → ℕ → ℕ → Scheduler × ℕ
spawn s name thread_id process_id = (
  record s {
    next_id = max s.next_id (wrapping_add thread_id 1);
    ready =
        s.ready
        ++ record { id = thread_id; process_id = process_id; name = name; state = TaskState.ready }
          ∷ [];
  },
  thread_id,
)

pub schedule_next : Scheduler → Scheduler × Option ℕ
schedule_next s = elim s.ready [
  | [] ↦ (s, none)
  | task ∷ rest ↦ (
    record s { ready = rest; current = some (record task { state = TaskState.running }) },
    some task.id,
  )
]

pub start : Scheduler → Scheduler × Option ℕ
unfolding schedule_next
start s = schedule_next s

pub ensure_current : Scheduler → Scheduler × Option ℕ
unfolding schedule_next
ensure_current s = elim s.current [ some current ↦ (s, some current.id) | none ↦ schedule_next s ]

abbrev is_exited : TaskState → Bool
is_exited TaskState.exited = true
is_exited _ = false

-- The task that was current goes to the back of the ready queue.
pub requeue : Scheduler → Task → Scheduler
requeue s current = record s {
  current = none;
  ready = s.ready ++ record current { state = TaskState.ready } ∷ [];
}

pub yield_now : Scheduler → Scheduler × Option ℕ
unfolding schedule_next
yield_now s = elim s.current [
  | some current ↦
      schedule_next
        (if is_exited current.state then record s { current = none } else requeue s current)
  | none ↦ schedule_next s
]

-- The exited task is dropped with the `take`.
pub exit_current : Scheduler → Scheduler
exit_current s = record s { current = none }

pub current_process_id : Scheduler → Option ℕ
current_process_id s = Option.map (λ (t : Task). t.process_id) s.current

pub current_thread_id : Scheduler → Option ℕ
current_thread_id s = Option.map (λ (t : Task). t.id) s.current

-- The current task goes to `blocked`, and the next one is scheduled.
pub put_to_sleep : Scheduler → Task → Scheduler
put_to_sleep s current = record s {
  current = none;
  blocked = insert current.id (record current { state = TaskState.blocked }) s.blocked;
}

pub park : Scheduler → Task → Scheduler
unfolding schedule_next put_to_sleep
park s current = (schedule_next (put_to_sleep s current)).0

pub block_current_on : Scheduler → WaitQueue → Scheduler × WaitQueue × Option WaitToken
unfolding register park
block_current_on s queue = elim s.current [
  | none ↦ (s, queue, none)
  | some current ↦
      let (queue', token) = register queue current.id in (park s current, queue', some token)
]

pub block_current : Scheduler → Scheduler × Option ℕ
unfolding park
block_current s = elim s.current [
  | none ↦ (s, none)
  | some current ↦ (park s current, some current.id)
]

pub unpark : Scheduler → ℕ → Task → Scheduler
unpark s task_id task = record s {
  blocked = remove task_id s.blocked;
  ready = s.ready ++ record task { state = TaskState.ready } ∷ [];
}

pub wake_task : Scheduler → ℕ → Scheduler × Bool
wake_task s task_id = elim (get task_id s.blocked) [
  | none ↦ (s, false)
  | some task ↦ (unpark s task_id task, true)
]

-- The loop of `wake_all_blocked` and `wake_all`.
pub wake_each : List ℕ → Scheduler → ℕ → Scheduler × ℕ
unfolding wake_task
wake_each [] s woke = (s, woke)
wake_each (task_id ∷ rest) s woke =
    let r = wake_task s task_id in wake_each rest r.0 (if r.1 then woke + 1 else woke)

pub wake_all_blocked : Scheduler → Scheduler × ℕ
unfolding wake_each
wake_all_blocked s = wake_each (keys s.blocked) s 0

pub wake_one : Scheduler → WaitQueue → Scheduler × WaitQueue × Option ℕ
unfolding wake_task pop_waiter
wake_one s queue =
    let popped = pop_waiter queue in
    elim popped.1 [
      | none ↦ (s, popped.0, none)
      | some task_id ↦ ((wake_task s task_id).0, popped.0, some task_id)
    ]

pub wake_all : Scheduler → WaitQueue → Scheduler × WaitQueue × ℕ
unfolding wake_each drain_waiters
wake_all s queue =
    let (queue', task_ids) = drain_waiters queue in
    let (s', woke) = wake_each task_ids s 0 in (s', queue', woke)

pub blocked_count : Scheduler → ℕ
blocked_count s = length s.blocked

pub ready_count : Scheduler → ℕ
ready_count s = length s.ready

pub is_blocked : Scheduler → ℕ → Bool
is_blocked s task_id = contains_key task_id s.blocked

pub is_ready : Scheduler → ℕ → Bool
is_ready s task_id = any (λ t. t.id == task_id) s.ready

pub is_current : Scheduler → ℕ → Bool
is_current s task_id = elim s.current [ none ↦ false | some t ↦ t.id == task_id ]

-- The four results of `task_state_label`.
pub data Label : Type 0 where
  running_label ready_label blocked_label gone : Label

pub task_state_label : Scheduler → ℕ → Label
unfolding is_current is_ready is_blocked
task_state_label s task_id =
    if is_current s task_id
    then running_label
    else if is_ready s task_id
    then ready_label
    else if is_blocked s task_id
    then blocked_label
    else gone

-- `position` and `VecDeque::remove`: the first task of that id is taken out.
pub remove_ready : ℕ → List Task → List Task
remove_ready task_id [] = []
remove_ready task_id (t ∷ ts) = if t.id == task_id then ts else t ∷ remove_ready task_id ts

pub remove_task : Scheduler → ℕ → Scheduler × Bool
unfolding is_current is_ready is_blocked remove_ready
remove_task s task_id =
    if is_current s task_id
    then (record s { current = none }, true)
    else if is_ready s task_id
    then (record s { ready = remove_ready task_id s.ready }, true)
    else (record s { blocked = remove task_id s.blocked }, is_blocked s task_id)

-- The ids in `blocked` of a process, and the loop that removes them.
pub blocked_ids_of : ℕ → BTreeMap Task → List ℕ
blocked_ids_of process_id [] = []
blocked_ids_of process_id ((task_id, task) ∷ m) =
    let rest = blocked_ids_of process_id m in
    if task.process_id == process_id then task_id ∷ rest else rest

pub remove_each : List ℕ → BTreeMap Task → ℕ → BTreeMap Task × ℕ
remove_each [] m removed = (m, removed)
remove_each (task_id ∷ rest) m removed = remove_each rest (remove task_id m) (removed + 1)

pub runs_for : ℕ → Option Task → Bool
runs_for process_id none = false
runs_for process_id (some task) = task.process_id == process_id

pub exit_group : Scheduler → ℕ → Scheduler × ℕ
unfolding runs_for remove_each blocked_ids_of
exit_group s process_id =
    let was_current = runs_for process_id s.current in
    let ready' = retain (λ task. not (task.process_id == process_id)) s.ready in
    let removed = (if was_current then 1 else 0) + (length s.ready - length ready') in
    let (blocked', total) = remove_each (blocked_ids_of process_id s.blocked) s.blocked removed in
    (
      record s {
        current = if was_current then none else s.current;
        ready = ready';
        blocked = blocked';
      },
      total,
    )
