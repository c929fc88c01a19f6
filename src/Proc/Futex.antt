-- ===== src/Proc/Futex.antt =====
-- crates/proc/src/lib.rs: the futex queues of `ProcessTable`, which are its field `futex_waiters`.
pub mod Refinement
mod Invariant
mod Tests
use whuse.Prelude.{
  ℕ, zero, suc, Bool, not, List, [], ◌∷◌, ◌++◌, Option, none, some, ◌==◌, if◌then◌else◌, any,
  retain, true, false,
}
use whuse.Prelude.BTreeMap.{BTreeMap, get, insert, remove, keys}

abbrev pub FutexWaiters : Type 0
FutexWaiters = BTreeMap (List ℕ)

-- `entry(addr).or_default()` and `get(&addr)`: no entry is an empty queue.
unfoldable pub waiting : FutexWaiters → ℕ → List ℕ
waiting m addr = elim (get addr m) [ none ↦ [] | some waiters ↦ waiters ]

abbrev pub is_empty : List ℕ → Bool
is_empty [] = true
is_empty (t ∷ ts) = false

-- The entry is gone when its queue has become empty.
unfoldable pub put_back : ℕ → List ℕ → FutexWaiters → FutexWaiters
put_back addr waiters m = if is_empty waiters then remove addr m else insert addr waiters m

unfoldable pub enqueue_futex_waiter : ℕ → ℕ → FutexWaiters → FutexWaiters
unfolding waiting
enqueue_futex_waiter addr tid m =
    let waiters = waiting m addr in
    if any (λ waiter. waiter == tid) waiters
    then insert addr waiters m
    else insert addr (waiters ++ tid ∷ []) m

-- Pops as many as are asked for and there: those, and the rest.
unfoldable pub pop_each : ℕ → List ℕ → List ℕ × List ℕ
pop_each zero waiters = ([], waiters)
pop_each (suc count) [] = ([], [])
pop_each (suc count) (tid ∷ waiters) = let rest = pop_each count waiters in (tid ∷ rest.0, rest.1)

unfoldable pub wake_futex : ℕ → ℕ → FutexWaiters → FutexWaiters × List ℕ
unfolding put_back pop_each
wake_futex addr count m = elim (get addr m) [
  | none ↦ (m, [])
  | some waiters ↦ let popped = pop_each count waiters in (put_back addr popped.1 m, popped.0)
]

unfoldable pub is_futex_waiting : ℕ → ℕ → FutexWaiters → Bool
is_futex_waiting addr tid m = elim (get addr m) [
  | none ↦ false
  | some waiters ↦ any (λ waiter. waiter == tid) waiters
]

unfoldable pub remove_futex_waiter_at : ℕ → ℕ → FutexWaiters → FutexWaiters
unfolding put_back
remove_futex_waiter_at addr tid m = elim (get addr m) [
  | none ↦ m
  | some waiters ↦ put_back addr (retain (λ waiter. not (waiter == tid)) waiters) m
]

-- The second half of `requeue_futex`: the moved threads join the other queue.
unfoldable pub append_waiters : ℕ → List ℕ → FutexWaiters → FutexWaiters
unfolding waiting
append_waiters to moved m = if is_empty moved then m else insert to (waiting m to ++ moved) m

unfoldable pub requeue_futex : ℕ → ℕ → ℕ → ℕ → FutexWaiters → FutexWaiters × List ℕ
unfolding wake_futex append_waiters
requeue_futex from to wake_count requeue_count m =
    let woken = wake_futex from wake_count m in
    let moved = wake_futex from requeue_count woken.0 in
    (append_waiters to moved.1 moved.0, woken.1)

unfoldable pub remove_each : ℕ → List ℕ → FutexWaiters → FutexWaiters
unfolding remove_futex_waiter_at
remove_each tid [] m = m
remove_each tid (addr ∷ addrs) m = remove_each tid addrs (remove_futex_waiter_at addr tid m)

unfoldable pub remove_futex_waiter : ℕ → FutexWaiters → FutexWaiters
unfolding remove_each
remove_futex_waiter tid m = remove_each tid (keys m) m
