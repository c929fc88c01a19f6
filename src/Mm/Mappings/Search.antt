-- ===== src/Mm/Mappings/Search.antt =====
-- crates/mm/src/lib.rs: the loop that looks for a free range ends, and what it finds.
use whuse.Prelude.{
  ℕ, zero, suc, ◌+◌, ◌%◌, ◌≤◌, ◌<◌, ◌≡◌, refl, false, [], ◌∷◌, none, some, arith, ltb,
  if◌then◌else◌, any, find, All, length, Option-cases, inl, inr,
}
use whuse.Prelude.Words.{usize_mod, saturating_add, align_up}
use whuse.Mm.{Mappings, Segment, page_size}
use whuse.Mm.Mappings.{seg_end, meets, overlaps, first_overlap_end, find_gap}

-- Every segment ends a page below the top of the address range.
abbrev pub Roomy : Mappings → Type 0
Roomy = All λ e. seg_end e + page_size < usize_mod

-- The number of segments that end above `x`.
above : ℕ → Mappings → ℕ
above x [] = 0
above x (e ∷ m) = (if ltb x (seg_end e) then 1 else 0) + above x m

above_mono : (x y : ℕ) (m : Mappings) → x ≤ y → above y m ≤ above x m
unfolding above
above_mono x y [] h = omega arith
above_mono x y (e ∷ m) h = ground (arith, above_mono x y m h)

above-le-length : (x : ℕ) (m : Mappings) → above x m ≤ length m
unfolding above
above-le-length x [] = omega arith
above-le-length x (e ∷ m) = ground (arith, above-le-length x m)

module _ (start stop : ℕ) where
  find-above :
      (m : Mappings) (e : ℕ × Segment)
      → find (meets start stop) m ≡ some e
      → Roomy m
      → (start < seg_end e)
        × (seg_end e + page_size < usize_mod)
        × (above (align_up (seg_end e) page_size) m < above start m)
  unfolding above
  find-above [] e h r = absurd (cc)
  find-above ((k, s) ∷ m) e h r =
      ground (arith, find-above m e, above_mono start (align_up (seg_end e) page_size) m)

  find-none-any :
      (m : Mappings) → find (meets start stop) m ≡ none → any (meets start stop) m ≡ false
  find-none-any [] h = refl
  find-none-any (e ∷ m) h = ground (arith, find-none-any m)

first_overlap_end-above :
    (m : Mappings) (start len e : ℕ)
    → first_overlap_end m start len ≡ some e
    → Roomy m
    → (start < e) × (e + page_size < usize_mod) × (above (align_up e page_size) m < above start m)
unfolding first_overlap_end
first_overlap_end-above m start len e h r =
    elim (Option-cases (find (meets start (saturating_add start len)) m)) [
      | inl none' ↦ absurd (ground arith)
      | inr (x, found) ↦ ground (arith, find-above start (saturating_add start len) m x found r)
    ]

first_overlap_end-none :
    (m : Mappings) (start len : ℕ)
    → first_overlap_end m start len ≡ none
    → overlaps m start len ≡ false
unfolding first_overlap_end overlaps
first_overlap_end-none m start len h =
    find-none-any start (saturating_add start len) m (ground arith)

find_gap-above :
    (fuel : ℕ) (m : Mappings) (start len : ℕ)
    → above start m < fuel
    → Roomy m
    → start % page_size ≡ 0
    → (g : ℕ) × (find_gap fuel m start len ≡ some g)
      × (overlaps m g len ≡ false)
      × (g % page_size ≡ 0)
      × (start ≤ g)
unfolding find_gap
find_gap-above zero m start len h r p = absurd (omega arith)
find_gap-above (suc fuel) m start len h r p = elim (Option-cases (first_overlap_end m start len)) [
  | inl free ↦ (start, ground arith, first_overlap_end-none m start len free, p, omega arith)
  | inr (e, taken) ↦
      let (up, room, fewer) = first_overlap_end-above m start len e taken r in
      let (g, found, free, aligned, behind) =
        find_gap-above fuel m (align_up e page_size) len (omega arith) r (omega arith) in
      (g, ground arith, free, aligned, omega arith)
]

-- With one turn more than there are segments the loop ends, at a page boundary at or behind the
-- start, where a range of the length meets no segment.
pub find_gap_lem :
    (m : Mappings) (start len : ℕ)
    → Roomy m
    → start % page_size ≡ 0
    → (g : ℕ) × (find_gap (suc (length m)) m start len ≡ some g)
      × (overlaps m g len ≡ false)
      × (g % page_size ≡ 0)
      × (start ≤ g)
find_gap_lem m start len r p =
    find_gap-above (suc (length m)) m start len (omega (arith, above-le-length start m)) r p
