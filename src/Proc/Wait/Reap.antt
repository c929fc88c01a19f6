-- ===== src/Proc/Wait/Reap.antt =====
-- crates/proc/src/lib.rs: what is left of the process table when a thread group is reaped.
use whuse.Prelude.{
  ℕ, suc, ◌≡◌, ◌≢◌, ==_iff, refl, ◌∙◌, ap, Bool, true, false, List, [], ◌∷◌, Option, none, some,
  ◌==◌, if◌then◌else◌, sym, inl, inr, Bool-cases, Option-cases, any, retain, not, ◌&&◌, arith,
}
use whuse.Prelude.BTreeMap.{BTreeMap, get, get-remove, get_below, From, IsSorted}
use whuse.Proc.{Process, ProcessTable, ProcessState, ready, running, blocked, exited}
use whuse.Proc.Table.{modify_each}
use whuse.Proc.Table.Loops.{get-modify_each, modify_each-From}
use whuse.Proc.Futex.{waiting}
use whuse.Proc.Futex.Refinement.{waiting-forget}
use whuse.Proc.Wait.Initial.{IsInit, init_tgid-IsInit}
use whuse.Proc.Wait.{
  group_tids, reap_each, reap_one, reap_thread_group, init_tgid, is_exited, is_some_of, orphaned,
}

get-reap_each :
    (tids : List ℕ) (t : ProcessTable) (k : ℕ)
    → get k (reap_each tids t).processes
      ≡ (if any (λ tid. tid == k) tids then none else get k t.processes)
unfolding reap_each
get-reap_each [] t k = refl
get-reap_each (tid ∷ tids) t k =
    ground (arith, get-reap_each tids (reap_one tid t) k, get-remove tid k t.processes)

any-group_tids :
    (tgid n k : ℕ) (m : BTreeMap Process)
    → From n m
    → any (λ tid. tid == k) (group_tids tgid m)
      ≡ (elim (get k m) [ none ↦ false | some p ↦ p.tgid == tgid ])
unfolding get group_tids
any-group_tids tgid n k [] h = refl
any-group_tids tgid n k ((j, p) ∷ m) h =
    ground (arith, any-group_tids tgid (suc j) k m h.1, get_below (suc j) k m h.1)

retain_all : (xs : List ℕ) → retain (λ _. true) xs ≡ xs
retain_all [] = refl
retain_all (x ∷ xs) = ap (λ ys. x ∷ ys) (retain_all xs)

-- Whether a thread is not among those.
abbrev stays : List ℕ → ℕ → Bool
stays tids w = not (any (λ tid. tid == w) tids)

retain-stays :
    (tid : ℕ) (tids xs : List ℕ)
    → retain (stays tids) (retain (λ w. not (w == tid)) xs) ≡ retain (stays (tid ∷ tids)) xs
retain-stays tid tids [] = refl
retain-stays tid tids (x ∷ xs) = ground (arith, retain-stays tid tids xs)

waiting-reap_each :
    (tids : List ℕ) (t : ProcessTable) (a : ℕ)
    → waiting (reap_each tids t).futex_waiters a ≡ retain (stays tids) (waiting t.futex_waiters a)
unfolding reap_each
waiting-reap_each [] t a = sym (retain_all (waiting t.futex_waiters a))
waiting-reap_each (tid ∷ tids) t a =
    waiting-reap_each tids (reap_one tid t) a
    ∙ ap (retain (stays tids)) (waiting-forget tid a t.futex_waiters)
    ∙ retain-stays tid tids (waiting t.futex_waiters a)

module _ (tgid : ℕ) (chosen : Process → Bool) (f : Process → Process)
    (keeps : (p : Process) → (f p).tgid ≡ p.tgid) where
  kept_tgid : (p : Process) → (if chosen p then f p else p).tgid ≡ p.tgid
  kept_tgid p = elim (Bool-cases (chosen p)) [ inl e ↦ rw e (keeps p) | inr e ↦ rw e refl ]

  -- Changing the chosen threads and then removing the group.
  without_group :
      (k : ℕ) (m : BTreeMap Process)
      → IsSorted m
      → (if any (λ tid. tid == k) (group_tids tgid (modify_each chosen f m))
          then none
          else get k (modify_each chosen f m))
        ≡ (elim (get k m) [
          | none ↦ none
          | some p ↦ if p.tgid == tgid then none else some (if chosen p then f p else p)
        ])
  without_group k m sorted =
      rw
        (
          any-group_tids tgid 0 k (modify_each chosen f m) (modify_each-From chosen f 0 m sorted),
          get-modify_each chosen f k m,
        )
        (elim (Option-cases (get k m)) [
          | inl e ↦ rw e refl
          | inr (p, e) ↦ rw (e, kept_tgid p) refl
        ])

-- What becomes of a thread when the group is reaped.
abbrev survivor : ℕ → ℕ → Process → Option Process
survivor tgid init process =
    if process.tgid == tgid
    then none
    else some (if orphaned tgid process then record process { parent = some init } else process)

get-reap_thread_group :
    (tgid : ℕ) (t : ProcessTable)
    → IsSorted t.processes
    → (k : ℕ)
    → get k (reap_thread_group tgid t).processes ≡ (elim (get k t.processes) [
      | none ↦ none
      | some p ↦ survivor tgid (init_tgid t.processes) p
    ])
unfolding reap_thread_group
get-reap_thread_group tgid t sorted k =
    let adopt = λ (p : Process). record p { parent = some (init_tgid t.processes) } in
    let adopted = modify_each (orphaned tgid) adopt t.processes in
    get-reap_each (group_tids tgid adopted) (record t { processes = adopted }) k
    ∙ without_group tgid (orphaned tgid) adopt (λ p. refl) k t.processes sorted

-- A live child of the group that leads a group of its own.
abbrev pub IsOrphan : ℕ → Process → Type 0
IsOrphan tgid p =
    (p.is_thread ≡ false) × (p.state ≢ exited) × (p.parent ≡ some tgid) × (p.tgid ≢ tgid)

-- The processes before and after the group is reaped.
pub record Reaped (tgid : ℕ) (before after : BTreeMap Process) : Type 0 where
  pub init : ℕ
  pub initial : IsInit before init
  pub absent : (k : ℕ) → get k before ≡ none → get k after ≡ none
  pub gone : (k : ℕ) (p : Process) → get k before ≡ some p → p.tgid ≡ tgid → get k after ≡ none
  pub adopted :
      (k : ℕ) (p : Process)
      → get k before ≡ some p
      → IsOrphan tgid p
      → get k after ≡ some (record p { parent = some init })
  pub kept :
      (k : ℕ) (p : Process)
      → get k before ≡ some p
      → p.tgid ≢ tgid
      → ¬ IsOrphan tgid p
      → get k after ≡ some p

==_other : (m n : ℕ) → m ≢ n → (m == n) ≡ false
==_other m n h = ground (arith, ==_iff m n)

is_exited_lem : (state : ProcessState) → state ≢ exited → is_exited state ≡ false
is_exited_lem ready h = refl
is_exited_lem running h = refl
is_exited_lem blocked h = refl
is_exited_lem exited h = absurd (h refl)

orphaned_holds : (tgid : ℕ) (p : Process) → IsOrphan tgid p → orphaned tgid p ≡ true
orphaned_holds tgid p (leader, alive, child, other) =
    rw (leader, is_exited_lem p.state alive, child, ==_other p.tgid tgid other) (ground arith)

parts_of_and : {a b : Bool} → (a && b) ≡ true → (a ≡ true) × (b ≡ true)
parts_of_and {a} {b} h = ground arith

orphaned-IsOrphan : (tgid : ℕ) (p : Process) → orphaned tgid p ≡ true → IsOrphan tgid p
orphaned-IsOrphan tgid p h =
    let (leader, h1) = parts_of_and h in
    let (alive, h2) = parts_of_and h1 in
    let (child, other) = parts_of_and h2 in
    (
      ground arith,
      λ e. ground (arith, ap is_exited e),
      elim (Option-cases p.parent) [
        | inl e ↦ absurd (ground (arith, ap (λ o. is_some_of o tgid) e))
        | inr (parent, e) ↦
            e ∙ ap some ((==_iff parent tgid).0 (ap (λ o. is_some_of o tgid) (sym e) ∙ child))
      ],
      λ e. ground (arith, (==_iff p.tgid tgid).1 e),
    )

orphaned_fails : (tgid : ℕ) (p : Process) → ¬ IsOrphan tgid p → orphaned tgid p ≡ false
orphaned_fails tgid p h = elim (Bool-cases (orphaned tgid p)) [
  | inr e ↦ e
  | inl e ↦ absurd (h (orphaned-IsOrphan tgid p e))
]

-- Reaping a group removes its threads and gives its live children, which are not among them, to the
-- initial process: the first without a parent, or process 1 where there is none. Every other thread
-- is as before.
pub reap_thread_group_lem :
    (tgid : ℕ) (t : ProcessTable)
    → IsSorted t.processes
    → Reaped tgid t.processes (reap_thread_group tgid t).processes
reap_thread_group_lem tgid t sorted = record {
  init = init_tgid t.processes;
  initial = init_tgid-IsInit 0 t.processes sorted;
  absent = λ k e. get-reap_thread_group tgid t sorted k ∙ rw e refl;
  gone = λ k p e same.
      get-reap_thread_group tgid t sorted k ∙ rw (e, (==_iff p.tgid tgid).1 same) refl;
  adopted = λ k p e o.
      get-reap_thread_group tgid t sorted k
      ∙ rw (e, orphaned_holds tgid p o, ==_other p.tgid tgid o.3) refl;
  kept = λ k p e other o.
      get-reap_thread_group tgid t sorted k
      ∙ rw (e, orphaned_fails tgid p o, ==_other p.tgid tgid other) refl;
}
