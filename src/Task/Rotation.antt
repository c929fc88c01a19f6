-- ===== src/Task/Rotation.antt =====
-- crates/task/src/lib.rs: `yield_now` serves the tasks in turn.
use mathlib.Core.List.{append_assoc, append-nil}
use whuse.Prelude.{
  ℕ, zero, suc, ◌≡◌, refl, sym, ap, ◌∙◌, List, [], ◌∷◌, ◌++◌, none, some, arith, All,
  All-append_left, length, subst,
}
use whuse.Task.{Task, TaskState, Scheduler, yield_now, schedule_next, requeue}
use whuse.Task.Invariant.{IsValid, Waiting}

pub yields : ℕ → Scheduler → Scheduler
yields zero s = s
yields (suc n) s = yields n (yield_now s).0

-- The scheduler that runs the first task of the line, with the others ready behind it.
abbrev pub line : Scheduler → List Task → Scheduler
line s [] = record s { current = none; ready = [] }
line s (t ∷ ts) = record s { current = some (record t { state = TaskState.running }); ready = ts }

line_step :
    (s : Scheduler) (t : Task) (ts : List Task)
    → Waiting t
    → (yield_now (line s (t ∷ ts))).0 ≡ line s (ts ++ t ∷ [])
unfolding yield_now requeue schedule_next
line_step s t [] w = ground arith
line_step s t (u ∷ ts) w = ground arith

-- After as many calls as there are tasks in front, those stand at the back in the same order.
pub line-yields :
    (s : Scheduler) (xs ys : List Task)
    → All Waiting xs
    → yields (length xs) (line s (xs ++ ys)) ≡ line s (ys ++ xs)
unfolding yields
line-yields s [] ys w = rw (append-nil ys)
line-yields s (x ∷ xs) ys w =
    ap (yields (length xs)) (line_step s x (xs ++ ys) w.0 ∙ ap (line s) (append_assoc xs ys _))
    ∙ line-yields s xs (ys ++ x ∷ []) w.1
    ∙ ap (line s) (append_assoc ys (x ∷ []) xs)

-- The current task, as it will stand in the ready queue.
abbrev pub at_rest : Task → Task
at_rest t = record t { state = TaskState.ready }

line-current :
    (s : Scheduler) (c : Task) → IsValid s → s.current ≡ some c → line s (at_rest c ∷ s.ready) ≡ s
line-current s c v e = ground (arith, v.running c e)

-- In a valid scheduler with a current task, a ready task with n tasks before it runs after n + 1
-- calls of `yield_now`.
pub yields_turn :
    (s : Scheduler) (c t : Task) (xs ys : List Task)
    → IsValid s
    → s.current ≡ some c
    → s.ready ≡ xs ++ t ∷ ys
    → (yields (suc (length xs)) s).current ≡ some (record t { state = TaskState.running })
yields_turn s c t xs ys v e r =
    ap (λ u. (yields (suc (length xs)) u).current)
      (sym (line-current s c v e) ∙ ap (λ l. line s (at_rest c ∷ l)) r)
    ∙ ap (λ u. u.current)
        (line-yields s (at_rest c ∷ xs) (t ∷ ys)
          (refl, All-append_left Waiting xs (t ∷ ys) (subst (All Waiting) r v.waiting)))

-- In a valid scheduler with a current task, one call of `yield_now` for each ready task and one more
-- leave the scheduler as it was.
pub yields_round :
    (s : Scheduler) (c : Task)
    → IsValid s
    → s.current ≡ some c
    → yields (suc (length s.ready)) s ≡ s
yields_round s c v e =
    ap (yields (suc (length s.ready)))
      (sym (line-current s c v e) ∙ ap (line s) (sym (append-nil (at_rest c ∷ s.ready))))
    ∙ line-yields s (at_rest c ∷ s.ready) [] (refl, v.waiting)
    ∙ line-current s c v e
