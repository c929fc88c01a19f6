-- ===== src/Proc/Table/Loops.antt =====
-- crates/proc/src/lib.rs: the loops over the values of the process map.
use whuse.Prelude.{ℕ, suc, ◌≡◌, refl, Bool, [], ◌∷◌, none, some, arith, if◌then◌else◌}
use whuse.Prelude.BTreeMap.{BTreeMap, get, From}
use whuse.Proc.{Process}
use whuse.Proc.Table.{modify_each}

pub get-modify_each :
    (chosen : Process → Bool) (f : Process → Process) (k : ℕ) (m : BTreeMap Process)
    → get k (modify_each chosen f m)
      ≡ (elim (get k m) [ none ↦ none | some p ↦ some (if chosen p then f p else p) ])
unfolding get modify_each
get-modify_each chosen f k [] = refl
get-modify_each chosen f k ((j, p) ∷ m) = ground (arith, get-modify_each chosen f k m)

pub modify_each-From :
    (chosen : Process → Bool) (f : Process → Process) (n : ℕ) (m : BTreeMap Process)
    → From n m
    → From n (modify_each chosen f m)
unfolding modify_each
modify_each-From chosen f n [] h = tt
modify_each-From chosen f n ((j, p) ∷ m) h = (h.0, modify_each-From chosen f (suc j) m h.1)
