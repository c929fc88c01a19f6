-- ===== src/Task/Removal.antt =====
-- crates/task/src/lib.rs: `remove_task` and `exit_group`.
use whuse.Prelude.{
  ℕ, suc, ◌+◌, ◌-◌, ◌≤◌, ◌≡◌, refl, Bool, false, not, List, [], ◌∷◌, Option, none, some, arith,
  ◌==◌, if◌then◌else◌, All, any, retain, length, length-retain-le, ap, ◌∙◌,
}
use whuse.Prelude.BTreeMap.{
  BTreeMap, get, remove, Entries, get-remove, IsSorted, From, From-mono, remove_head, remove_tail,
}
use whuse.Task.{
  Task, Scheduler, is_ready, is_current, is_blocked, remove_ready, remove_task, remove_each,
  blocked_ids_of, runs_for, exit_group,
}
use whuse.Task.Counts.{count, count_in, count_some}

pub any-count_in : (k : ℕ) (ts : List Task) → any (λ t. t.id == k) ts ≡ not (count_in k ts == 0)
unfolding count_in
any-count_in k [] = refl
any-count_in k (t ∷ ts) = ground (arith, any-count_in k ts)

pub count_in-remove_ready :
    (k tid : ℕ) (ts : List Task)
    → count_in k (remove_ready tid ts) ≡ count_in k ts - (if tid == k then 1 else 0)
unfolding count_in remove_ready
count_in-remove_ready k tid [] = ground arith
count_in-remove_ready k tid (t ∷ ts) = ground (arith, count_in-remove_ready k tid ts)

count_in-remove_ready_le :
    (k tid : ℕ) (ts : List Task) → count_in k (remove_ready tid ts) ≤ count_in k ts
count_in-remove_ready_le k tid ts = ground (arith, count_in-remove_ready k tid ts)

-- The answer says whether the task was there.
pub remove_task-found : (s : Scheduler) (tid : ℕ) → (remove_task s tid).1 ≡ not (count tid s == 0)
unfolding remove_task is_current is_ready is_blocked count
remove_task-found s tid = ground (arith, any-count_in tid s.ready)

pub count-remove_task :
    (s : Scheduler) (tid k : ℕ)
    → count tid s ≤ 1
    → count k (remove_task s tid).0 ≡ (if tid == k then 0 else count k s)
unfolding remove_task is_current is_ready is_blocked count
count-remove_task s tid k single = ground (
  arith,
  any-count_in tid s.ready,
  count_in-remove_ready k tid s.ready,
  get-remove tid k s.blocked,
  ap (λ j. count_in j s.ready),
  ap (λ j. get j s.blocked),
)

abbrev pub outside : ℕ → Task → Bool
outside pid t = not (t.process_id == pid)

-- The parked tasks of the other processes.
abbrev pub parked_outside : ℕ → BTreeMap Task → BTreeMap Task
parked_outside pid = retain λ e. outside pid e.1

pub parked_outside-From : (n pid : ℕ) (m : BTreeMap Task) → From n m → From n (parked_outside pid m)
parked_outside-From n pid [] f = tt
parked_outside-From n pid ((k, t) ∷ m) f =
    ground
      (arith, parked_outside-From (suc k) pid m f.1, From-mono n (suc k) (parked_outside pid m))

-- The ids lie above `n`.
abbrev AllFrom : ℕ → List ℕ → Type 0
AllFrom n = All λ k. n ≤ k

AllFrom-mono : (a b : ℕ) (ids : List ℕ) → a ≤ b → AllFrom b ids → AllFrom a ids
AllFrom-mono a b [] h f = tt
AllFrom-mono a b (k ∷ ids) h f = (omega arith, AllFrom-mono a b ids h f.1)

blocked_ids_of-AllFrom :
    (n pid : ℕ) (m : BTreeMap Task) → From n m → AllFrom n (blocked_ids_of pid m)
unfolding blocked_ids_of
blocked_ids_of-AllFrom n pid [] f = tt
blocked_ids_of-AllFrom n pid ((k, t) ∷ m) f =
    ground (
      arith,
      blocked_ids_of-AllFrom (suc k) pid m f.1,
      AllFrom-mono n (suc k) (blocked_ids_of pid m),
    )

-- Removing larger ids leaves the first entry.
remove_each-cons :
    (ids : List ℕ) (k : ℕ) (t : Task) (m : BTreeMap Task) (r : ℕ)
    → AllFrom (suc k) ids
    → remove_each ids ((k, t) ∷ m) r ≡ ((k, t) ∷ (remove_each ids m r).0, (remove_each ids m r).1)
unfolding remove_each
remove_each-cons [] k t m r f = refl
remove_each-cons (j ∷ ids) k t m r f =
    ap (λ m'. remove_each ids m' (r + 1)) (remove_tail k j t m f.0)
    ∙ remove_each-cons ids k t (remove j m) (r + 1) f.1

-- The loop drops the tasks of the process and counts them.
remove_each-blocked_ids_of :
    (n pid : ℕ) (m : BTreeMap Task) (r : ℕ)
    → From n m
    → remove_each (blocked_ids_of pid m) m r
      ≡ (parked_outside pid m, r + (length m - length (parked_outside pid m)))
unfolding remove_each blocked_ids_of
remove_each-blocked_ids_of n pid [] r f = ground arith
remove_each-blocked_ids_of n pid ((k, t) ∷ m) r f = ground (
  arith,
  remove_head k t m f.1,
  remove_each-blocked_ids_of (suc k) pid m (r + 1) f.1,
  remove_each-blocked_ids_of (suc k) pid m r f.1,
  remove_each-cons (blocked_ids_of pid m) k t m r (blocked_ids_of-AllFrom (suc k) pid m f.1),
  length-retain-le (λ (e : ℕ × Task). outside pid e.1) m,
)

-- The tasks that the scheduler holds, in all and of one process.
pub in_process : ℕ → List Task → ℕ
in_process pid [] = 0
in_process pid (t ∷ ts) = (if t.process_id == pid then 1 else 0) + in_process pid ts

pub parked_in_process : ℕ → BTreeMap Task → ℕ
parked_in_process pid [] = 0
parked_in_process pid ((k, t) ∷ m) =
    (if t.process_id == pid then 1 else 0) + parked_in_process pid m

-- How many tasks of a process the scheduler holds.
unfoldable pub owned : ℕ → Scheduler → ℕ
unfolding runs_for in_process parked_in_process
owned pid s =
    (if runs_for pid s.current then 1 else 0)
    + in_process pid s.ready
    + parked_in_process pid s.blocked

in_process-retain :
    (pid q : ℕ) (ts : List Task)
    → in_process q (retain (outside pid) ts) ≡ (if q == pid then 0 else in_process q ts)
unfolding in_process
in_process-retain pid q [] = ground arith
in_process-retain pid q (t ∷ ts) = ground (arith, in_process-retain pid q ts)

parked_in_process-retain :
    (pid q : ℕ) (m : BTreeMap Task)
    → parked_in_process q (parked_outside pid m) ≡ (if q == pid then 0 else parked_in_process q m)
unfolding parked_in_process
parked_in_process-retain pid q [] = ground arith
parked_in_process-retain pid q ((k, t) ∷ m) = ground (arith, parked_in_process-retain pid q m)

retain-in_process :
    (pid : ℕ) (ts : List Task) → length (retain (outside pid) ts) + in_process pid ts ≡ length ts
unfolding in_process
retain-in_process pid [] = omega arith
retain-in_process pid (t ∷ ts) = ground (arith, retain-in_process pid ts)

parked_outside-in_process :
    (pid : ℕ) (m : BTreeMap Task)
    → length (parked_outside pid m) + parked_in_process pid m ≡ length m
unfolding parked_in_process
parked_outside-in_process pid [] = omega arith
parked_outside-in_process pid ((k, t) ∷ m) = ground (arith, parked_outside-in_process pid m)

runs_for-drop :
    (pid q : ℕ) (c : Option Task)
    → runs_for q (if runs_for pid c then none else c) ≡ (if q == pid then false else runs_for q c)
unfolding runs_for
runs_for-drop pid q none = ground arith
runs_for-drop pid q (some t) = ground arith

module _ (s : Scheduler) (pid : ℕ) (sorted : IsSorted s.blocked) where
  pub exit_group-blocked : (exit_group s pid).0.blocked ≡ parked_outside pid s.blocked
  unfolding exit_group
  exit_group-blocked = ap (λ p. p.0) (remove_each-blocked_ids_of 0 pid s.blocked _ sorted)

  -- Every task of the process is gone, and the tasks of the others stay.
  pub exit_group-owned :
      (q : ℕ) → owned q (exit_group s pid).0 ≡ (if q == pid then 0 else owned q s)
  unfolding exit_group owned
  exit_group-owned q =
      rw (exit_group-blocked, runs_for-drop pid q s.current)
        (ground (arith, in_process-retain pid q s.ready, parked_in_process-retain pid q s.blocked))

  -- The answer is the number of tasks that the process had.
  pub exit_group_removed : (exit_group s pid).1 ≡ owned pid s
  unfolding exit_group owned
  exit_group_removed = ground (
    arith,
    remove_each-blocked_ids_of 0 pid s.blocked
        ((if runs_for pid s.current then 1 else 0)
          + (length s.ready - length (retain (outside pid) s.ready)))
        sorted,
    retain-in_process pid s.ready,
    parked_outside-in_process pid s.blocked,
  )

pub count_in-retain :
    (k pid : ℕ) (ts : List Task) → count_in k (retain (outside pid) ts) ≤ count_in k ts
unfolding count_in
count_in-retain k pid [] = omega arith
count_in-retain k pid (t ∷ ts) = ground (arith, count_in-retain k pid ts)

pub get-parked_outside :
    (k pid : ℕ) (m : BTreeMap Task)
    → count_some (get k (parked_outside pid m)) ≤ count_some (get k m)
unfolding get
get-parked_outside k pid [] = omega arith
get-parked_outside k pid ((j, t) ∷ m) = ground (arith, get-parked_outside k pid m)

pub count-exit_group_le :
    (s : Scheduler) (pid k : ℕ) → IsSorted s.blocked → count k (exit_group s pid).0 ≤ count k s
unfolding exit_group count
count-exit_group_le s pid k sorted =
    rw (exit_group-blocked s pid sorted)
      (ground (arith, count_in-retain k pid s.ready, get-parked_outside k pid s.blocked))

pub parked_outside-Entries {κ} :
    (P : ℕ → Task → Type κ) (pid : ℕ) (m : BTreeMap Task)
    → Entries P m
    → Entries P (parked_outside pid m)
parked_outside-Entries P pid [] f = f
parked_outside-Entries P pid ((j, t) ∷ m) f = ground (arith, parked_outside-Entries P pid m f.1)

pub remove_ready-All {κ} :
    (P : Task → Type κ) (tid : ℕ) (ts : List Task) → All P ts → All P (remove_ready tid ts)
unfolding remove_ready
remove_ready-All P tid [] f = f
remove_ready-All P tid (t ∷ ts) f = ground (arith, remove_ready-All P tid ts f.1)
