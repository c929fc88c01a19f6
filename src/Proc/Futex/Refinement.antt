-- ===== src/Proc/Futex/Refinement.antt =====
-- crates/proc/src/lib.rs: what the futex queues promise, as a function from addresses to queues.
use mathlib.Core.List.{append-nil}
use whuse.Prelude.{
  Option-cases, inl, inr, ℕ, zero, suc, Bool, not, List, [], ◌∷◌, ◌++◌, none, some, ◌==◌,
  if◌then◌else◌, any, retain, false, ◌≡◌, refl, take, drop, arith, ◌∙◌, ap,
}
use whuse.Prelude.BTreeMap.{get, insert, keys, get-insert, get-remove}
use whuse.Proc.Futex.{
  FutexWaiters, waiting, put_back, enqueue_futex_waiter, pop_each, wake_futex,
  remove_futex_waiter_at, append_waiters, requeue_futex, remove_each, remove_futex_waiter,
}

-- The calls of the kernel on the futex queues.
pub data Call : Type 0 where
  enqueue : (addr tid : ℕ) → Call
  wake : (addr count : ℕ) → Call
  leave : (addr tid : ℕ) → Call
  requeue : (from to wake_count requeue_count : ℕ) → Call
  forget : (tid : ℕ) → Call

-- The call by the code: the queues after it and the threads that it wakes.
unfoldable pub call : Call → FutexWaiters → FutexWaiters × List ℕ
call (enqueue addr tid) m = (enqueue_futex_waiter addr tid m, [])
call (wake addr count) m = wake_futex addr count m
call (leave addr tid) m = (remove_futex_waiter_at addr tid m, [])
call (requeue from to wake_count requeue_count) m = requeue_futex from to wake_count requeue_count m
call (forget tid) m = (remove_futex_waiter tid m, [])

abbrev pub Queues : Type 0
Queues = ℕ → List ℕ

abbrev set : Queues → ℕ → List ℕ → Queues
set q addr waiters a = if addr == a then waiters else q a

abbrev without : ℕ → List ℕ → List ℕ
without tid = retain (λ waiter. not (waiter == tid))

-- The call on queues that are a function of the address.
unfoldable pub promise : Call → Queues → Queues × List ℕ
promise (enqueue addr tid) q =
    (set q addr (if any (λ waiter. waiter == tid) (q addr) then q addr else q addr ++ tid ∷ []), [])
promise (wake addr count) q = (set q addr (drop count (q addr)), take count (q addr))
promise (leave addr tid) q = (set q addr (without tid (q addr)), [])
promise (requeue from to wake_count requeue_count) q =
    let left = drop wake_count (q from) in
    let moved = take requeue_count left in
    let after = set q from (drop requeue_count left) in
    (set after to (after to ++ moved), take wake_count (q from))
promise (forget tid) q = ((λ a. without tid (q a)), [])

waiting-put_back :
    (k : ℕ) (q : List ℕ) (m : FutexWaiters) (a : ℕ)
    → waiting (put_back k q m) a ≡ set (waiting m) k q a
unfolding waiting put_back
waiting-put_back k [] m a = ground (arith, get-remove k a m)
waiting-put_back k (t ∷ q) m a = ground (arith, get-insert k a (t ∷ q) m)

waiting-insert :
    (k : ℕ) (q : List ℕ) (m : FutexWaiters) (a : ℕ)
    → waiting (insert k q m) a ≡ set (waiting m) k q a
unfolding waiting
waiting-insert k q m a = ground (arith, get-insert k a q m)

pop_each_lem : (n : ℕ) (q : List ℕ) → pop_each n q ≡ (take n q, drop n q)
unfolding pop_each
pop_each_lem zero q = refl
pop_each_lem (suc n) [] = refl
pop_each_lem (suc n) (t ∷ q) = rw (pop_each_lem n q) refl

take_empty : (n : ℕ) → take {A = ℕ} n [] ≡ []
take_empty zero = refl
take_empty (suc n) = refl

drop_empty : (n : ℕ) → drop {A = ℕ} n [] ≡ []
drop_empty zero = refl
drop_empty (suc n) = refl

waiting-some : (m : FutexWaiters) (a : ℕ) (q : List ℕ) → get a m ≡ some q → waiting m a ≡ q
waiting-some m a q e = unfold waiting in ground arith

waiting-none : (m : FutexWaiters) (a : ℕ) → get a m ≡ none → waiting m a ≡ []
waiting-none m a e = unfold waiting in ground arith

-- Nothing changes where there is no entry.
set-none :
    (m : FutexWaiters) (addr a : ℕ) → get addr m ≡ none → waiting m a ≡ set (waiting m) addr [] a
set-none m addr a e = ground (arith, waiting-none m addr e)

module _ (addr : ℕ) (m : FutexWaiters) (a : ℕ) where
  waiting-enqueue :
      (tid : ℕ)
      → waiting (enqueue_futex_waiter addr tid m) a ≡ (promise (enqueue addr tid) (waiting m)).0 a
  waiting-enqueue tid =
      unfold enqueue_futex_waiter promise in
      ground (
        arith,
        waiting-insert addr (waiting m addr) m a,
        waiting-insert addr (waiting m addr ++ tid ∷ []) m a,
      )

  waiting-wake :
      (count : ℕ)
      → (waiting (wake_futex addr count m).0 a
          ≡ set (waiting m) addr (drop count (waiting m addr)) a)
        × ((wake_futex addr count m).1 ≡ take count (waiting m addr))
  waiting-wake count = elim (Option-cases (get addr m)) [
    | inl e ↦
        rw (nothing e, waiting-none m addr e, take_empty count, drop_empty count)
          (set-none m addr a e, refl)
    | inr (q, e) ↦
        rw (popped q e, waiting-some m addr q e, pop_each_lem count q)
          (waiting-put_back addr (drop count q) m a, refl)
  ]
    where
      nothing : get addr m ≡ none → wake_futex addr count m ≡ (m, [])
      nothing e = unfold wake_futex in ground arith

      popped :
          (q : List ℕ)
          → get addr m ≡ some q
          → wake_futex addr count m ≡ (put_back addr (pop_each count q).1 m, (pop_each count q).0)
      popped q e = unfold wake_futex in ground arith

  waiting-leave :
      (tid : ℕ)
      → waiting (remove_futex_waiter_at addr tid m) a
        ≡ set (waiting m) addr (without tid (waiting m addr)) a
  waiting-leave tid = elim (Option-cases (get addr m)) [
    | inl e ↦ rw (nothing e, waiting-none m addr e) (set-none m addr a e)
    | inr (q, e) ↦
        rw (left q e, waiting-some m addr q e) (waiting-put_back addr (without tid q) m a)
  ]
    where
      nothing : get addr m ≡ none → remove_futex_waiter_at addr tid m ≡ m
      nothing e = unfold remove_futex_waiter_at in ground arith

      left :
          (q : List ℕ)
          → get addr m ≡ some q
          → remove_futex_waiter_at addr tid m ≡ put_back addr (without tid q) m
      left q e = unfold remove_futex_waiter_at in ground arith

  waiting-append :
      (moved : List ℕ)
      → waiting (append_waiters addr moved m) a ≡ set (waiting m) addr (waiting m addr ++ moved) a
  waiting-append [] = unfold append_waiters in ground (arith, append-nil (waiting m addr))
  waiting-append (t ∷ moved) =
      unfold append_waiters in waiting-insert addr (waiting m addr ++ t ∷ moved) m a

retain-retain : (p : ℕ → Bool) (xs : List ℕ) → retain p (retain p xs) ≡ retain p xs
retain-retain p [] = refl
retain-retain p (x ∷ xs) = ground (arith, retain-retain p xs)

module _ (tid a : ℕ) where
  -- Leaving the queues at some addresses.
  waiting-remove_each :
      (addrs : List ℕ) (m : FutexWaiters)
      → waiting (remove_each tid addrs m) a
        ≡ (if any (λ addr. addr == a) addrs then without tid (waiting m a) else waiting m a)
  unfolding remove_each
  waiting-remove_each [] m = refl
  waiting-remove_each (addr ∷ addrs) m =
      let rest = waiting-remove_each addrs (remove_futex_waiter_at addr tid m) in
      let first = waiting-leave addr m a tid in
      ground (arith, rest, first, retain-retain (λ waiter. not (waiter == tid)) (waiting m a))

  waiting_elsewhere :
      (m : FutexWaiters) → any (λ addr. addr == a) (keys m) ≡ false → waiting m a ≡ []
  unfolding waiting get
  waiting_elsewhere [] h = refl
  waiting_elsewhere ((k, q) ∷ m) h = ground (arith, waiting_elsewhere m)

  pub waiting-forget :
      (m : FutexWaiters) → waiting (remove_futex_waiter tid m) a ≡ without tid (waiting m a)
  waiting-forget m =
      unfold remove_futex_waiter in
      ground (arith, waiting-remove_each (keys m) m, waiting_elsewhere m)

waiting-requeue :
    (from to wake_count requeue_count : ℕ) (m : FutexWaiters) (a : ℕ)
    → (waiting (requeue_futex from to wake_count requeue_count m).0 a
        ≡ (promise (requeue from to wake_count requeue_count) (waiting m)).0 a)
      × ((requeue_futex from to wake_count requeue_count m).1 ≡ take wake_count (waiting m from))
unfolding requeue_futex promise
waiting-requeue from to wake_count requeue_count m a =
    (ground (arith, joined, after a, after to, moved), (waiting-wake from m a wake_count).1)
  where
    once : FutexWaiters × List ℕ
    once = wake_futex from wake_count m

    twice : FutexWaiters × List ℕ
    twice = wake_futex from requeue_count once.0

    left : waiting once.0 from ≡ drop wake_count (waiting m from)
    left = ground (arith, (waiting-wake from m from wake_count).0)

    after :
        (b : ℕ)
        → waiting twice.0 b
          ≡ set (waiting m) from (drop requeue_count (drop wake_count (waiting m from))) b
    after b = ground (
      arith,
      left,
      (waiting-wake from once.0 b requeue_count).0,
      (waiting-wake from m b wake_count).0,
    )

    moved : twice.1 ≡ take requeue_count (drop wake_count (waiting m from))
    moved = (waiting-wake from once.0 a requeue_count).1 ∙ ap (take requeue_count) left

    joined :
        waiting (append_waiters to twice.1 twice.0) a
        ≡ set (waiting twice.0) to (waiting twice.0 to ++ twice.1) a
    joined = waiting-append to twice.0 a twice.1

-- Every call of the futex queues does what it does on queues that are a function of the address:
-- it leaves these queues, and wakes those threads, oldest first.
pub call-promise :
    (c : Call) (m : FutexWaiters)
    → ((a : ℕ) → waiting (call c m).0 a ≡ (promise c (waiting m)).0 a)
      × ((call c m).1 ≡ (promise c (waiting m)).1)
unfolding call promise
call-promise (enqueue addr tid) m = ((λ a. waiting-enqueue addr m a tid), refl)
call-promise (wake addr count) m =
    ((λ a. (waiting-wake addr m a count).0), (waiting-wake addr m 0 count).1)
call-promise (leave addr tid) m = ((λ a. waiting-leave addr m a tid), refl)
call-promise (requeue from to wake_count requeue_count) m = (
  (λ a. (waiting-requeue from to wake_count requeue_count m a).0),
  (waiting-requeue from to wake_count requeue_count m 0).1,
)
call-promise (forget tid) m = ((λ a. waiting-forget tid a m), refl)
