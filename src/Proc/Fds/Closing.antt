-- ===== src/Proc/Fds/Closing.antt =====
-- crates/proc/src/lib.rs: what `close_fd` leaves of the descriptors and their leaders.
use whuse.Prelude.{
  ℕ, suc, ◌≡◌, refl, ◌∙◌, true, false, List, [], ◌∷◌, Option, none, some, arith, ◌==◌,
  if◌then◌else◌, any, Bool-cases, inl, inr, ok,
}
use whuse.Prelude.BTreeMap.{
  BTreeMap, get, insert, remove, contains_key, From, get_below, get-insert, get-remove, remove-From,
  IsSorted,
}
use whuse.Proc.{Process}
use whuse.Proc.Fds.{replacements, lead_each, appoint, close_fd}

get-lead_each :
    (leader k : ℕ) (ks : List ℕ) (m : BTreeMap ℕ)
    → get k (lead_each leader ks m) ≡ (if any (λ c. c == k) ks then some leader else get k m)
unfolding lead_each
get-lead_each leader k [] m = refl
get-lead_each leader k (c ∷ ks) m =
    ground (arith, get-lead_each leader k ks (insert c leader m), get-insert c k leader m)

any-replacements :
    (fd n k : ℕ) (m : BTreeMap ℕ)
    → From n m
    → any (λ c. c == k) (replacements fd m) ≡ (elim (get k m) [ none ↦ false | some l ↦ l == fd ])
unfolding get replacements
any-replacements fd n k [] h = refl
any-replacements fd n k ((j, l) ∷ m) h =
    ground (arith, any-replacements fd (suc j) k m h.1, get_below (suc j) k m h.1)

-- The first descriptor of a list.
abbrev pub first_of : List ℕ → Option ℕ
first_of [] = none
first_of (c ∷ cs) = some c

-- The leader of a descriptor that the closed one led, and that of another.
abbrev pub led_by : ℕ → Option ℕ → Option ℕ → Option ℕ
led_by fd heir none = none
led_by fd heir (some l) = if l == fd then heir else some l

get-appoint :
    (fd k : ℕ) (m : BTreeMap ℕ)
    → IsSorted m
    → get k (appoint (replacements fd m) m) ≡ led_by fd (first_of (replacements fd m)) (get k m)
unfolding appoint
get-appoint fd k m sorted = by_list (replacements fd m) (any-replacements fd 0 k m sorted)
  where
    by_list :
        (cs : List ℕ)
        → any (λ c. c == k) cs ≡ (elim (get k m) [ none ↦ false | some l ↦ l == fd ])
        → get k (appoint cs m) ≡ led_by fd (first_of cs) (get k m)
    by_list [] h = ground arith
    by_list (c ∷ cs) h = ground (arith, get-lead_each c k cs (insert c c m), get-insert c k c m)

no_replacements :
    (fd : ℕ) (m : BTreeMap ℕ) → any (λ e. e.1 == fd) m ≡ false → replacements fd m ≡ []
unfolding replacements
no_replacements fd [] h = refl
no_replacements fd ((k, l) ∷ m) h = ground (arith, no_replacements fd m)

-- The test for a led descriptor only saves work.
appoint_always :
    (fd : ℕ) (m : BTreeMap ℕ)
    → (if any (λ e. e.1 == fd) m then appoint (replacements fd m) m else m)
      ≡ appoint (replacements fd m) m
unfolding appoint
appoint_always fd m = elim (Bool-cases (any (λ e. e.1 == fd) m)) [
  | inl some_led ↦ rw some_led refl
  | inr none_led ↦ rw (none_led, no_replacements fd m none_led) refl
]

-- Closing an open descriptor frees it and no other; the descriptors that it led are led by the
-- first of them, and every other keeps its leader.
pub close_fd_lem :
    (fd : ℕ) (p : Process)
    → IsSorted p.fd_alias
    → contains_key fd p.fds ≡ true
    → (p' : Process) × (close_fd fd p ≡ ok p')
      × ((k : ℕ) → get k p'.fds ≡ (if fd == k then none else get k p.fds))
      × ((k : ℕ)
          → get k p'.fd_alias ≡ (
              if fd == k
              then none
              else led_by fd
                  (first_of (replacements fd (remove fd p.fd_alias)))
                  (get k p.fd_alias)))
close_fd_lem fd p sorted there = (
  record p { fds = remove fd p.fds; fd_alias = appoint (replacements fd left) left },
  runs,
  (λ k. get-remove fd k p.fds),
  (λ k. get-appoint fd k left (remove-From 0 fd p.fd_alias sorted) ∙ led k),
)
  where
    left : BTreeMap ℕ
    left = remove fd p.fd_alias

    runs :
        close_fd fd p
        ≡ ok (record p { fds = remove fd p.fds; fd_alias = appoint (replacements fd left) left })
    runs = unfold close_fd in rw (there, appoint_always fd left) refl

    led :
        (k : ℕ)
        → led_by fd (first_of (replacements fd left)) (get k left) ≡ (
            if fd == k
            then none
            else led_by fd (first_of (replacements fd left)) (get k p.fd_alias))
    led k = ground (arith, get-remove fd k p.fd_alias)
