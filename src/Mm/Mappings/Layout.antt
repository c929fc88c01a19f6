-- ===== src/Mm/Mappings/Layout.antt =====
-- crates/mm/src/lib.rs: segments that do not overlap, and what a slice of one is.
use whuse.Prelude.{
  ℕ, suc, ◌+◌, ◌≤◌, ◌<◌, ◌≡◌, refl, [], ◌∷◌, Option, none, some, arith, ltb, leb, if◌then◌else◌,
  find, ok, err,
}
use whuse.Prelude.Words.{usize_mod}
use whuse.Prelude.BTreeMap.{From, From-mono}
use whuse.Mm.{Mappings}
use whuse.Mm.Mappings.{holds, find_segment}

-- From `lo` on, each segment stands under its start, is not empty, ends below the top of the
-- address range, and ends before the next begins.
abbrev pub Laid : ℕ → Mappings → Type 0
Laid lo [] = Unit {0}
Laid lo ((k, s) ∷ m) =
    (lo ≤ k)
    × (s.area.start ≡ k)
    × (0 < s.area.len)
    × (k + s.area.len < usize_mod)
    × Laid (k + s.area.len) m

pub Laid-From : (lo : ℕ) (m : Mappings) → Laid lo m → From lo m
Laid-From lo [] l = tt
Laid-From lo ((k, s) ∷ m) l =
    (l.0, From-mono (suc k) (k + s.area.len) m (omega arith) (Laid-From (k + s.area.len) m l.4))

pub Laid-mono : (a b : ℕ) (m : Mappings) → a ≤ b → Laid b m → Laid a m
Laid-mono a b [] h l = tt
Laid-mono a b ((k, s) ∷ m) h l = (omega arith, l.1, l.2, l.3, l.4)

-- The rights at an address: those of the segment that `find_segment` gives for one byte.
pub protection_at : Mappings → ℕ → Option ℕ
unfolding find_segment
protection_at m a = elim (find_segment m a 1) [ err e ↦ none | ok found ↦ some found.0.area.prot ]

-- The same by the segments alone.
unfoldable pub rights : ℕ → Mappings → Option ℕ
rights a [] = none
rights a ((k, s) ∷ m) =
    if leb k a
    then (if ltb a (k + s.area.len) then some s.area.prot else rights a m)
    else rights a m

rights-find :
    (a lo : ℕ) (m : Mappings)
    → Laid lo m
    → a + 1 < usize_mod
    → (elim (find (holds a (a + 1)) m) [ none ↦ none | some e ↦ some e.1.area.prot ]) ≡ rights a m
unfolding rights
rights-find a lo [] l h = refl
rights-find a lo ((k, s) ∷ m) l h = ground (arith, rights-find a (k + s.area.len) m l.4 h)

pub protection_at-rights :
    (a lo : ℕ) (m : Mappings) → Laid lo m → a + 1 < usize_mod → protection_at m a ≡ rights a m
unfolding protection_at
protection_at-rights a lo m l h = ground (arith, rights-find a lo m l h)
