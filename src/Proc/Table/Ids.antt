-- ===== src/Proc/Table/Ids.antt =====
-- crates/proc/src/lib.rs: the threads of a group have the same ids, and who may change them.
use whuse.Prelude.{
  ℕ, ◌≡◌, refl, sym, ap, subst, ◌∙◌, Bool, true, false, List, Option, none, some, inl, inr, arith,
  ◌==◌, if◌then◌else◌, Option-cases, KernelResult, ok, err, ◌>>=◌,
}
use whuse.Prelude.BTreeMap.{BTreeMap, get}
use whuse.Proc.{Process, ProcessTable}
use whuse.Proc.Table.{
  modify_each, current, current_tgid, change_group, setuid_current, setresuid_current,
  setgid_current, setresgid_current, setgroups_current, unwrap_or, refused,
}
use whuse.Proc.Table.Loops.{get-modify_each}

abbrev pub Ids : Type 0
Ids = ℕ × ℕ × ℕ × ℕ × List ℕ × ℕ

abbrev pub ids : Process → Ids
ids p = (p.uid, p.euid, p.gid, p.egid, p.groups, p.sid)

abbrev pub Agree : Option Process → Option Process → Type 0
Agree none b = Unit {0}
Agree (some p) none = Unit {0}
Agree (some p) (some q) = p.tgid ≡ q.tgid → ids p ≡ ids q

-- Threads of one group have the same ids.
abbrev pub SameIds : BTreeMap Process → Type 0
SameIds m = (j k : ℕ) → Agree (get j m) (get k m)

module _ (tgid : ℕ) (f : Process → Process) (keeps : (p : Process) → (f p).tgid ≡ p.tgid)
    (same : (p q : Process) → ids p ≡ ids q → ids (f p) ≡ ids (f q)) where
  abbrev changed : Process → Process
  changed p = if p.tgid == tgid then f p else p

  abbrev changed_entry : Option Process → Option Process
  changed_entry none = none
  changed_entry (some p) = some (changed p)

  tgid_either : (b : Bool) (p : Process) → (if b then f p else p).tgid ≡ p.tgid
  tgid_either true p = keeps p
  tgid_either false p = refl

  ids_either :
      (b : Bool) (p q : Process)
      → ids p ≡ ids q
      → ids (if b then f p else p) ≡ ids (if b then f q else q)
  ids_either true p q h = same p q h
  ids_either false p q h = h

  Agree-changed : (a b : Option Process) → Agree a b → Agree (changed_entry a) (changed_entry b)
  Agree-changed none b h = tt
  Agree-changed (some p) none h = tt
  Agree-changed (some p) (some q) h = λ e.
      let group = sym (tgid_either (p.tgid == tgid) p) ∙ e ∙ tgid_either (q.tgid == tgid) q in
      subst (λ b. ids (if b then f p else p) ≡ ids (changed q)) (sym (ap (λ n. n == tgid) group))
        (ids_either (q.tgid == tgid) p q (h group))

  get_changed :
      (m : BTreeMap Process) (k : ℕ)
      → get k (modify_each (λ p. p.tgid == tgid) f m) ≡ changed_entry (get k m)
  get_changed m k =
      get-modify_each (λ p. p.tgid == tgid) f k m
      ∙ (elim (Option-cases (get k m)) [ inl e ↦ rw e refl | inr (p, e) ↦ rw e refl ])

  modify_each-SameIds :
      (m : BTreeMap Process) → SameIds m → SameIds (modify_each (λ p. p.tgid == tgid) f m)
  modify_each-SameIds m h j k =
      rw (get_changed m j, get_changed m k) (Agree-changed (get j m) (get k m) (h j k))

-- The calls that change the ids of a process.
pub data IdCall : Type 0 where
  setuid : (uid : ℕ) → IdCall
  setresuid : (ruid euid : Option ℕ) → IdCall
  setgid : (gid : ℕ) → IdCall
  setresgid : (rgid egid : Option ℕ) → IdCall
  setgroups : (groups : List ℕ) → IdCall

pub id_call : IdCall → ProcessTable → KernelResult ProcessTable
id_call (setuid uid) t = setuid_current t uid
id_call (setresuid ruid euid) t = setresuid_current t ruid euid
id_call (setgid gid) t = setgid_current t gid
id_call (setresgid rgid egid) t = setresgid_current t rgid egid
id_call (setgroups groups) t = setgroups_current t groups

-- A result that is a table with the same ids in each group, or an error.
abbrev pub Safe : KernelResult ProcessTable → Type 0
Safe (ok t) = SameIds t.processes
Safe (err errno) = Unit {0}

module _ (t : ProcessTable) (h : SameIds t.processes) where
  change_group-Safe :
      (f : Process → Process)
      → ((p : Process) → (f p).tgid ≡ p.tgid)
      → ((p q : Process) → ids p ≡ ids q → ids (f p) ≡ ids (f q))
      → Safe (change_group f t)
  unfolding change_group current_tgid current
  change_group-Safe f keeps same = elim (Option-cases (get t.current_tid t.processes)) [
    | inl e ↦ rw e tt
    | inr (p, e) ↦ rw e (modify_each-SameIds p.tgid f keeps same t.processes h)
  ]

  guarded_Safe :
      (test : Process → Bool) (f : Process → Process)
      → ((p : Process) → (f p).tgid ≡ p.tgid)
      → ((p q : Process) → ids p ≡ ids q → ids (f p) ≡ ids (f q))
      → Safe (current t >>= λ now. if test now then err 1 else change_group f t)
  guarded_Safe test f keeps same = either (current t)
    where
      decided : (b : Bool) → Safe (if b then err 1 else change_group f t)
      decided true = tt
      decided false = change_group-Safe f keeps same

      either :
          (r : KernelResult Process)
          → Safe (r >>= λ now. if test now then err 1 else change_group f t)
      either (ok now) = decided (test now)
      either (err errno) = tt

  setresuid-Safe : (ruid euid : Option ℕ) → Safe (setresuid_current t ruid euid)
  unfolding setresuid_current current change_group
  setresuid-Safe ruid euid =
      guarded_Safe
        (λ now. refused (unwrap_or ruid now.uid) (unwrap_or euid now.euid) now.uid now.euid)
        (λ p. record p { uid = unwrap_or ruid p.uid; euid = unwrap_or euid p.euid }) (λ p. refl)
        (λ p q e. ap (λ i. (unwrap_or ruid i.0, unwrap_or euid i.1, i.2, i.3, i.4, i.5)) e)

  setresgid-Safe : (rgid egid : Option ℕ) → Safe (setresgid_current t rgid egid)
  unfolding setresgid_current current change_group
  setresgid-Safe rgid egid =
      guarded_Safe
        (λ now. refused (unwrap_or rgid now.gid) (unwrap_or egid now.egid) now.gid now.egid)
        (λ p. record p { gid = unwrap_or rgid p.gid; egid = unwrap_or egid p.egid }) (λ p. refl)
        (λ p q e. ap (λ i. (i.0, i.1, unwrap_or rgid i.2, unwrap_or egid i.3, i.4, i.5)) e)

  -- A call that changes ids leaves the threads of each group with the same ids.
  pub id_call-Safe : (c : IdCall) → Safe (id_call c t)
  unfolding id_call setuid_current setgid_current setgroups_current
  id_call-Safe (setuid uid) =
      change_group-Safe (λ p. record p { uid = uid; euid = uid }) (λ p. refl)
        (λ p q e. ap (λ i. (uid, uid, i.2, i.3, i.4, i.5)) e)
  id_call-Safe (setresuid ruid euid) = setresuid-Safe ruid euid
  id_call-Safe (setgid gid) =
      change_group-Safe (λ p. record p { gid = gid; egid = gid }) (λ p. refl)
        (λ p q e. ap (λ i. (i.0, i.1, gid, gid, i.4, i.5)) e)
  id_call-Safe (setresgid rgid egid) = setresgid-Safe rgid egid
  id_call-Safe (setgroups groups) =
      change_group-Safe (λ p. record p { groups = groups }) (λ p. refl)
        (λ p q e. ap (λ i. (i.0, i.1, i.2, i.3, groups, i.5)) e)

not_refused : (real effective asked : ℕ) → refused real asked real effective ≡ false
not_refused real effective asked = ground arith

itself : (n : ℕ) → (n == n) ≡ true
itself n = ground arith

-- A process that leaves its real id gets any effective id that it asks for, whatever its ids are.
pub setresuid_effective :
    (t : ProcessTable) (p : Process) (euid : ℕ)
    → get t.current_tid t.processes ≡ some p
    → (t' : ProcessTable) × (setresuid_current t none (some euid) ≡ ok t')
      × (get t.current_tid t'.processes ≡ some (record p { euid = euid }))
unfolding setresuid_current change_group current_tgid current
setresuid_effective t p euid here = (
  record t {
    processes = modify_each (λ q. q.tgid == p.tgid) (λ q. record q { euid = euid }) t.processes;
  },
  runs,
  get-modify_each (λ q. q.tgid == p.tgid) (λ q. record q { euid = euid }) t.current_tid t.processes
      ∙ there,
)
  where
    runs :
        setresuid_current t none (some euid)
        ≡ ok (record t {
          processes =
              modify_each (λ q. q.tgid == p.tgid) (λ q. record q { euid = euid }) t.processes;
        })
    runs = rw (here, not_refused p.uid p.euid euid) refl

    there :
        (elim (get t.current_tid t.processes) [
          | none ↦ none
          | some q ↦ some (if q.tgid == p.tgid then record q { euid = euid } else q)
        ])
        ≡ some (record p { euid = euid })
    there = rw (here, itself p.tgid) refl
