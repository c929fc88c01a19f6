-- ===== src/Mm/Mappings/Cut.antt =====
-- crates/mm/src/lib.rs: the loops of `unmap_range_inner` and `mprotect` as one pass over the
-- segments, which gives up or relabels what lies in the range.
pub mod Loops
use mathlib.Core.List.{append_assoc}
use whuse.Prelude.{
  ℕ, suc, ◌+◌, ◌-◌, ◌≤◌, ◌<◌, ◌≡◌, refl, min, max, Bool, true, false, List, [], ◌∷◌, ◌++◌, Option,
  none, some, arith, ltb, leb, ◌||◌, ◌&&◌, if◌then◌else◌, Bool-cases, inl, inr, ap, ◌∙◌,
}
use whuse.Prelude.Words.{usize_mod}
use whuse.Mm.{Segment, Mappings}
use whuse.Mm.Mappings.{slice_segment}
use whuse.Mm.Mappings.Layout.{Laid, Laid-mono, rights}

-- The part of a segment before the range, inside it and behind it. Inside, `none` gives the part
-- up, and `some p` gives it the rights `p`.
abbrev pub left_part : ℕ → Segment → Mappings
left_part start s =
    if ltb s.area.start start
    then (s.area.start, slice_segment s s.area.start (start - s.area.start) s.area.prot) ∷ []
    else []

abbrev pub middle_part : Option ℕ → ℕ → ℕ → Segment → Mappings
middle_part none start end s = []
middle_part (some p) start end s =
    (
      max s.area.start start,
      slice_segment s (max s.area.start start)
          (min (s.area.start + s.area.len) end - max s.area.start start) p,
    )
    ∷ []

abbrev pub right_part : ℕ → Segment → Mappings
right_part end s =
    if ltb end (s.area.start + s.area.len)
    then (end, slice_segment s end (s.area.start + s.area.len - end) s.area.prot) ∷ []
    else []

abbrev pub apart : ℕ → ℕ → Segment → Bool
apart start end s = leb end s.area.start || leb (s.area.start + s.area.len) start

unfoldable pub pieces : Option ℕ → ℕ → ℕ → Segment → Mappings
pieces mid start end s =
    if apart start end s
    then (s.area.start, s) ∷ []
    else left_part start s ++ (middle_part mid start end s ++ right_part end s)

unfoldable pub cut : Option ℕ → ℕ → ℕ → Mappings → Mappings
unfolding pieces
cut mid start end [] = []
cut mid start end ((k, s) ∷ m) = pieces mid start end s ++ cut mid start end m

-- The pieces of a segment lie where the segment lay.
pub pieces-Laid :
    (mid : Option ℕ) (start end : ℕ) (s : Segment) (rest : Mappings)
    → start < end
    → 0 < s.area.len
    → s.area.start + s.area.len < usize_mod
    → Laid (s.area.start + s.area.len) rest
    → Laid s.area.start (pieces mid start end s ++ rest)
unfolding pieces slice_segment
pieces-Laid none start end s rest h p f l = ground (
  arith,
  Laid-mono end (s.area.start + s.area.len) rest,
  Laid-mono s.area.start (s.area.start + s.area.len) rest,
  Laid-mono start (s.area.start + s.area.len) rest,
)
pieces-Laid (some q) start end s rest h p f l = ground (arith)

pub cut-Laid :
    (mid : Option ℕ) (start end lo : ℕ) (m : Mappings)
    → start < end
    → Laid lo m
    → Laid lo (cut mid start end m)
unfolding cut
cut-Laid mid start end lo [] h l = tt
cut-Laid mid start end lo ((k, s) ∷ m) h l = Laid-mono lo s.area.start _ (omega arith) (
    pieces-Laid mid start end s (cut mid start end m) h l.2 (omega arith) (
      cut-Laid mid start end (s.area.start + s.area.len) m h
        (Laid-mono _ (k + s.area.len) m (omega arith) l.4)))

pub rights_below : (a lo : ℕ) (m : Mappings) → Laid lo m → a < lo → rights a m ≡ none
unfolding rights
rights_below a lo [] l h = refl
rights_below a lo ((k, s) ∷ m) l h = ground (arith, rights_below a (k + s.area.len) m l.4)

-- What the rights at an address become inside the range.
abbrev pub relabel : Option ℕ → Option ℕ → Option ℕ
relabel none old = none
relabel (some p) none = none
relabel (some p) (some q) = some p

abbrev pub within : ℕ → ℕ → ℕ → Bool
within start end a = leb start a && ltb a end

module _ (start end a : ℕ) (s : Segment) (rest : Mappings) where
  rights-left_part :
      rights a (left_part start s ++ rest)
      ≡ (if leb s.area.start a && ltb a start then some s.area.prot else rights a rest)
  unfolding rights slice_segment
  rights-left_part = ground arith

  rights-middle_part :
      (p : ℕ)
      → rights a (middle_part (some p) start end s ++ rest) ≡ (
          if leb s.area.start a && ltb a (s.area.start + s.area.len) && within start end a
          then some p
          else rights a rest)
  unfolding rights slice_segment
  rights-middle_part p = ground arith

  rights-right_part :
      rights a (right_part end s ++ rest)
      ≡ (if leb end a && ltb a (s.area.start + s.area.len) then some s.area.prot else rights a rest)
  unfolding rights slice_segment
  rights-right_part = ground arith

rights-pieces :
    (mid : Option ℕ) (start end a : ℕ) (s : Segment) (rest : Mappings)
    → start < end
    → (a < s.area.start + s.area.len → rights a rest ≡ none)
    → rights a (pieces mid start end s ++ rest) ≡ (
        if leb s.area.start a && ltb a (s.area.start + s.area.len)
        then (if within start end a then relabel mid (some s.area.prot) else some s.area.prot)
        else rights a rest)
rights-pieces none start end a s rest h below = unfold rights pieces slice_segment in ground arith
rights-pieces (some p) start end a s rest h below = elim (Bool-cases (apart start end s)) [
  | inl e ↦ unfold rights pieces in ground arith
  | inr e ↦
      unfold pieces in
      rw
        (
          e,
          append_assoc (left_part start s) _ rest,
          append_assoc (middle_part (some p) start end s) _ rest,
          rights-left_part start end a s _,
          rights-middle_part start end a s _ p,
          rights-right_part start end a s rest,
        )
        (ground arith)
]

relabel-none : (mid : Option ℕ) (b : Bool) → none ≡ (if b then relabel mid none else none)
relabel-none none b = ground arith
relabel-none (some p) b = ground arith

relabel_if :
    (mid : Option ℕ) (x y w : Bool) (p : ℕ) (r : Option ℕ)
    → (if x && y
        then (if w then relabel mid (some p) else some p)
        else (if w then relabel mid r else r))
      ≡ (if w
          then relabel mid (if x then (if y then some p else r) else r)
          else (if x then (if y then some p else r) else r))
relabel_if mid true true true p r = refl
relabel_if mid true true false p r = refl
relabel_if mid true false true p r = refl
relabel_if mid true false false p r = refl
relabel_if mid false y true p r = refl
relabel_if mid false y false p r = refl

-- In the range the rights are given up or relabelled, and elsewhere they stay.
pub rights-cut :
    (mid : Option ℕ) (start end a lo : ℕ) (m : Mappings)
    → start < end
    → Laid lo m
    → rights a (cut mid start end m)
      ≡ (if within start end a then relabel mid (rights a m) else rights a m)
unfolding cut rights
rights-cut mid start end a lo [] h l = relabel-none mid (within start end a)
rights-cut mid start end a lo ((k, s) ∷ m) h l =
    rights-pieces mid start end a s (cut mid start end m) h (λ lt.
      rights_below a (k + s.area.len) (cut mid start end m)
        (cut-Laid mid start end (k + s.area.len) m h l.4) (omega arith))
    ∙ ap (λ r. if inside s.area.start then labelled else r)
        (rights-cut mid start end a (k + s.area.len) m h l.4)
    ∙ ap (λ j. if inside j then labelled else rest) l.1
    ∙ relabel_if mid (leb k a) (ltb a (k + s.area.len)) (within start end a) s.area.prot
        (rights a m)
  where
    inside : ℕ → Bool
    inside j = leb j a && ltb a (j + s.area.len)

    labelled : Option ℕ
    labelled = if within start end a then relabel mid (some s.area.prot) else some s.area.prot

    rest : Option ℕ
    rest = if within start end a then relabel mid (rights a m) else rights a m
