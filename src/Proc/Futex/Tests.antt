-- ===== src/Proc/Futex/Tests.antt =====
-- The futex queues of crates/proc/src/lib.rs at concrete inputs.
use whuse.Prelude.{arith, ℕ, [], ◌∷◌, ◌≡◌, refl, List}
use whuse.Prelude.BTreeMap.{get, insert, remove}
use whuse.Proc.Futex.{FutexWaiters, waiting, requeue_futex, put_back}
use whuse.Proc.Futex.Refinement
use whuse.Proc.Futex.Refinement.{Call, enqueue, wake, requeue, forget, call, promise}
use whuse.Proc.Futex.Invariant

-- Three threads wait at one address, and one at another.
abbrev queues : FutexWaiters
queues = (0x1000, 4 ∷ 7 ∷ 9 ∷ []) ∷ (0x2000, 5 ∷ []) ∷ []

requeue_two : requeue_futex 0x1000 0x2000 1 5 queues ≡ ((0x2000, 5 ∷ 7 ∷ 9 ∷ []) ∷ [], 4 ∷ [])
unfolding requeue_futex put_back get insert remove waiting
requeue_two = refl

call-promise_example :
    ((a : ℕ)
      → waiting (call (requeue 0x1000 0x2000 1 5) queues).0 a
        ≡ (promise (requeue 0x1000 0x2000 1 5) (waiting queues)).0 a)
    × ((call (requeue 0x1000 0x2000 1 5) queues).1
        ≡ (promise (requeue 0x1000 0x2000 1 5) (waiting queues)).1)
call-promise_example = Refinement.call-promise (requeue 0x1000 0x2000 1 5) queues

abbrev calls : List Call
calls = enqueue 0x1000 4 ∷ enqueue 0x2000 5 ∷ wake 0x1000 1 ∷ forget 5 ∷ []

run-IsTidy_example : Invariant.IsTidy (Invariant.run calls queues)
run-IsTidy_example =
    Invariant.run-IsTidy calls queues (record { sorted = omega arith; manned = (refl, (refl, tt)) })
