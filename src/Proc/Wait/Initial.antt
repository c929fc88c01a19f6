-- ===== src/Proc/Wait/Initial.antt =====
-- crates/proc/src/lib.rs: the initial process, as reaping a thread group looks for it.
use whuse.Prelude.{
  ℕ, suc, ◌<◌, ◌≡◌, ◌≢◌, ◌⊎◌, refl, ◌∙◌, ap, Bool, true, false, [], ◌∷◌, none, some, ◌==◌, sym,
  subst, inl, inr, Bool-cases, Option-cases, not, ◌&&◌, arith,
}
use whuse.Prelude.BTreeMap.{BTreeMap, get, get_below, From}
use whuse.Proc.{Process}
use whuse.Proc.Wait.{init_tgid}

-- A process, not a thread of one, that has no parent.
abbrev pub IsRoot : Process → Type 0
IsRoot p = (p.is_thread ≡ false) × (p.parent ≡ none)

-- The process id of the first process without a parent, or 1 where there is none.
abbrev pub IsInit : BTreeMap Process → ℕ → Type 0
IsInit m init =
    ((k : ℕ) × (p : Process) × (get k m ≡ some p)
      × IsRoot p
      × (p.tgid ≡ init)
      × ((j : ℕ) (q : Process) → j < k → get j m ≡ some q → ¬ IsRoot q))
    ⊎ ((init ≡ 1) × ((j : ℕ) (q : Process) → get j m ≡ some q → ¬ IsRoot q))

abbrev is_root : Process → Bool
is_root p = not p.is_thread && (elim p.parent [ none ↦ true | some _ ↦ false ])

is_root_lem : (p : Process) → ((is_root p ≡ true) × IsRoot p) ⊎ ((is_root p ≡ false) × (¬ IsRoot p))
is_root_lem p = elim (Bool-cases p.is_thread) [
  | inl thread ↦ inr (rw thread refl, λ h. ground (arith, h.0, thread))
  | inr leader ↦ elim (Option-cases p.parent) [
    | inl e ↦ inl (rw (leader, e) refl, (leader, e))
    | inr (parent, e) ↦ inr (rw (leader, e) refl, λ h. ground (arith, h.1, e))
  ]
]

some-injective : {p q : Process} → some p ≡ some q → p ≡ q
some-injective {p} h = ap (λ o. elim o [ none ↦ p | some r ↦ r ]) h

none≢some : {p : Process} → none ≢ some p
none≢some h = ground arith

get_here :
    (n j : ℕ) (p : Process) (m : BTreeMap Process) → (n == j) ≡ true → get j ((n, p) ∷ m) ≡ some p
unfolding get
get_here n j p m e = rw e refl

get_later :
    (n j : ℕ) (p : Process) (m : BTreeMap Process) → (n == j) ≡ false → get j ((n, p) ∷ m) ≡ get j m
unfolding get
get_later n j p m e = rw e refl

-- A first entry that is no root changes nothing.
IsInit-cons :
    (n : ℕ) (p : Process) (m : BTreeMap Process) (init : ℕ)
    → From (suc n) m
    → ¬ IsRoot p
    → IsInit m init
    → IsInit ((n, p) ∷ m) init
IsInit-cons n p m init s other h = elim h [
  | inl (k, q, at, root, e, first) ↦
      inl (k, q, further k q at, root, e, λ j r lt there. by_place j r there (first j r lt))
  | inr (e, never) ↦ inr (e, λ j r there. by_place j r there (never j r))
]
  where
    further : (k : ℕ) (q : Process) → get k m ≡ some q → get k ((n, p) ∷ m) ≡ some q
    further k q at = unfold get in ground (arith, get_below (suc n) k m s)

    by_place :
        (j : ℕ) (r : Process)
        → get j ((n, p) ∷ m) ≡ some r
        → (get j m ≡ some r → ¬ IsRoot r)
        → ¬ IsRoot r
    by_place j r there later = elim (Bool-cases (n == j)) [
      | inl here ↦
          subst (λ q. ¬ IsRoot q) (some-injective (sym (get_here n j p m here) ∙ there)) other
      | inr e ↦ later (sym (get_later n j p m e) ∙ there)
    ]

init_tgid_root :
    (n : ℕ) (p : Process) (m : BTreeMap Process)
    → is_root p ≡ true
    → init_tgid ((n, p) ∷ m) ≡ p.tgid
unfolding init_tgid
init_tgid_root n p m e = rw (init_tgid, e) refl

init_tgid_other :
    (n : ℕ) (p : Process) (m : BTreeMap Process)
    → is_root p ≡ false
    → init_tgid ((n, p) ∷ m) ≡ init_tgid m
unfolding init_tgid
init_tgid_other n p m e = rw (init_tgid, e) refl

pub init_tgid-IsInit : (n : ℕ) (m : BTreeMap Process) → From n m → IsInit m (init_tgid m)
init_tgid-IsInit n [] s =
    inr (unfold init_tgid in refl, λ j q h. absurd (unfold get in ground arith))
init_tgid-IsInit n ((k, p) ∷ m) s = elim (is_root_lem p) [
  | inl (e, root) ↦ inl (
    k,
    p,
    get_here k k p m (ground arith),
    root,
    sym (init_tgid_root k p m e),
    λ j q lt there.
        absurd (none≢some (sym (get_below k j ((k, p) ∷ m) (ground arith, s.1) lt) ∙ there)),
  )
  | inr (e, other) ↦
      subst (IsInit ((k, p) ∷ m)) (sym (init_tgid_other k p m e))
        (IsInit-cons k p m (init_tgid m) s.1 other (init_tgid-IsInit (suc k) m s.1))
]
