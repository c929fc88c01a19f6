-- ===== src/Proc/Futex/Invariant.antt =====
-- crates/proc/src/lib.rs: the futex queues keep their addresses in order and no empty queue.
use whuse.Prelude.{
  Bool, ℕ, not, List, [], ◌∷◌, ◌++◌, ◌==◌, ◌≡◌, refl, any, retain, true, false, arith, Bool-cases,
  inl, inr, Option-cases,
}
use whuse.Prelude.BTreeMap.{
  get, insert, keys, IsSorted, Entries, Entries-insert, Entries-remove, insert-From, remove-From,
}
use whuse.Proc.Futex.{
  FutexWaiters, waiting, is_empty, put_back, enqueue_futex_waiter, wake_futex,
  remove_futex_waiter_at, append_waiters, requeue_futex, remove_each, remove_futex_waiter, pop_each,
}
use whuse.Proc.Futex.Refinement.{Call, enqueue, wake, leave, requeue, forget, call}

abbrev NotEmpty : ℕ → List ℕ → Type 0
NotEmpty addr q = is_empty q ≡ false

-- The addresses increase, and each has a thread that waits.
pub record IsTidy (m : FutexWaiters) : Type 0 where
  pub sorted : IsSorted m
  pub manned : Entries NotEmpty m

insert-IsTidy :
    (k : ℕ) (q : List ℕ) (m : FutexWaiters) → is_empty q ≡ false → IsTidy m → IsTidy (insert k q m)
insert-IsTidy k q m h t = record {
  sorted = insert-From 0 k q m t.sorted (omega arith);
  manned = Entries-insert NotEmpty k q m h t.manned;
}

put_back-IsTidy : (k : ℕ) (q : List ℕ) (m : FutexWaiters) → IsTidy m → IsTidy (put_back k q m)
unfolding put_back
put_back-IsTidy k [] m t = record {
  sorted = remove-From 0 k m t.sorted;
  manned = Entries-remove NotEmpty k m t.manned;
}
put_back-IsTidy k (x ∷ q) m t = insert-IsTidy k (x ∷ q) m refl t

is_empty-append : (xs : List ℕ) (t : ℕ) (ys : List ℕ) → is_empty (xs ++ t ∷ ys) ≡ false
is_empty-append [] t ys = refl
is_empty-append (x ∷ xs) t ys = refl

is_empty-any : (p : ℕ → Bool) (xs : List ℕ) → any p xs ≡ true → is_empty xs ≡ false
is_empty-any p [] h = ground arith
is_empty-any p (x ∷ xs) h = refl

enqueue-IsTidy :
    (addr tid : ℕ) (m : FutexWaiters) → IsTidy m → IsTidy (enqueue_futex_waiter addr tid m)
unfolding enqueue_futex_waiter
enqueue-IsTidy addr tid m t = elim (Bool-cases (any (λ waiter. waiter == tid) (waiting m addr))) [
  | inl there ↦
      rw there (insert-IsTidy addr (waiting m addr) m (is_empty-any _ (waiting m addr) there) t)
  | inr new ↦ rw new (
      insert-IsTidy addr (waiting m addr ++ tid ∷ []) m (is_empty-append (waiting m addr) tid []) t)
]

wake-IsTidy : (addr count : ℕ) (m : FutexWaiters) → IsTidy m → IsTidy (wake_futex addr count m).0
unfolding wake_futex
wake-IsTidy addr count m t = elim (Option-cases (get addr m)) [
  | inl e ↦ rw (wake_futex, e) t
  | inr (q, e) ↦ rw (wake_futex, e) (put_back-IsTidy addr (pop_each count q).1 m t)
]

leave-IsTidy :
    (addr tid : ℕ) (m : FutexWaiters) → IsTidy m → IsTidy (remove_futex_waiter_at addr tid m)
unfolding remove_futex_waiter_at
leave-IsTidy addr tid m t = elim (Option-cases (get addr m)) [
  | inl e ↦ rw (remove_futex_waiter_at, e) t
  | inr (q, e) ↦
      rw (remove_futex_waiter_at, e)
        (put_back-IsTidy addr (retain (λ waiter. not (waiter == tid)) q) m t)
]

append-IsTidy :
    (to : ℕ) (moved : List ℕ) (m : FutexWaiters) → IsTidy m → IsTidy (append_waiters to moved m)
unfolding append_waiters
append-IsTidy to [] m t = t
append-IsTidy to (x ∷ moved) m t =
    insert-IsTidy to (waiting m to ++ x ∷ moved) m (is_empty-append (waiting m to) x moved) t

remove_each-IsTidy :
    (tid : ℕ) (addrs : List ℕ) (m : FutexWaiters) → IsTidy m → IsTidy (remove_each tid addrs m)
unfolding remove_each
remove_each-IsTidy tid [] m t = t
remove_each-IsTidy tid (a ∷ addrs) m t =
    remove_each-IsTidy tid addrs (remove_futex_waiter_at a tid m) (leave-IsTidy a tid m t)

call-IsTidy : (c : Call) (m : FutexWaiters) → IsTidy m → IsTidy (call c m).0
unfolding call requeue_futex remove_futex_waiter
call-IsTidy (enqueue addr tid) m t = enqueue-IsTidy addr tid m t
call-IsTidy (wake addr count) m t = wake-IsTidy addr count m t
call-IsTidy (leave addr tid) m t = leave-IsTidy addr tid m t
call-IsTidy (requeue from to wake_count requeue_count) m t =
    let woken = wake_futex from wake_count m in
    let moved = wake_futex from requeue_count woken.0 in
    append-IsTidy to moved.1 moved.0
      (wake-IsTidy from requeue_count woken.0 (wake-IsTidy from wake_count m t))
call-IsTidy (forget tid) m t = remove_each-IsTidy tid (keys m) m t

pub run : List Call → FutexWaiters → FutexWaiters
run [] m = m
run (c ∷ cs) m = run cs (call c m).0

-- Whatever the calls, the addresses stay in order and each keeps a thread that waits.
pub run-IsTidy : (cs : List Call) (m : FutexWaiters) → IsTidy m → IsTidy (run cs m)
unfolding run
run-IsTidy [] m t = t
run-IsTidy (c ∷ cs) m t = run-IsTidy cs (call c m).0 (call-IsTidy c m t)
