-- ===== src/Mm/Mappings/Insertion.antt =====
-- crates/mm/src/lib.rs: what `insert_segment` does to the rights of every address.
use whuse.Prelude.{
  ℕ, ◌+◌, ◌≤◌, ◌<◌, ◌≡◌, refl, Bool, true, false, [], ◌∷◌, ◌++◌, none, some, arith, if◌then◌else◌,
  any, ok, Bool-cases, inl, inr, ◌⊎◌,
}
use whuse.Prelude.Words.{usize_mod}
use whuse.Prelude.BTreeMap.{insert}
use whuse.Mm.{MappingArea, Mappings, Segment}
use whuse.Mm.Mappings.{meets, overlaps, insert_segment, unmap_range_inner, slice_segment}
use whuse.Mm.Mappings.Layout.{Laid, rights, protection_at, protection_at-rights}
use whuse.Mm.Mappings.Cut.{cut, cut-Laid, rights-cut, pieces, within}
use whuse.Mm.Mappings.Ranges.{unmap_range_inner-cut}

meets_behind :
    (start stop lo : ℕ) (m : Mappings) → Laid lo m → stop ≤ lo → any (meets start stop) m ≡ false
meets_behind start stop lo [] l h = refl
meets_behind start stop lo ((k, s) ∷ m) l h =
    ground (arith, meets_behind start stop (k + s.area.len) m l.4)

insert-Laid :
    (lo : ℕ) (new : Segment) (m : Mappings)
    → Laid lo m
    → lo ≤ new.area.start
    → 0 < new.area.len
    → new.area.start + new.area.len < usize_mod
    → any (meets new.area.start (new.area.start + new.area.len)) m ≡ false
    → Laid lo (insert new.area.start new m)
unfolding insert
insert-Laid lo new [] l h p fits free = (h, refl, p, fits, tt)
insert-Laid lo new ((k, s) ∷ m) l h p fits free =
    ground (arith, insert-Laid (k + s.area.len) new m l.4)

rights-insert :
    (lo a : ℕ) (new : Segment) (m : Mappings)
    → Laid lo m
    → new.area.start + new.area.len < usize_mod
    → 0 < new.area.len
    → any (meets new.area.start (new.area.start + new.area.len)) m ≡ false
    → rights a (insert new.area.start new m) ≡ (
        if within new.area.start (new.area.start + new.area.len) a
        then some new.area.prot
        else rights a m)
unfolding rights insert
rights-insert lo a new [] l fits p free = ground arith
rights-insert lo a new ((k, s) ∷ m) l fits p free =
    ground (arith, rights-insert (k + s.area.len) a new m l.4)

-- After a cut nothing is left in the range.
pieces-free :
    (start end : ℕ) (s : Segment) (rest : Mappings)
    → start < end
    → s.area.start + s.area.len < usize_mod
    → any (meets start end) rest ≡ false
    → any (meets start end) (pieces none start end s ++ rest) ≡ false
unfolding pieces slice_segment
pieces-free start end s rest h fits free = ground arith

cut-free :
    (start end lo : ℕ) (m : Mappings)
    → start < end
    → Laid lo m
    → any (meets start end) (cut none start end m) ≡ false
unfolding cut
cut-free start end lo [] h l = refl
cut-free start end lo ((k, s) ∷ m) h l =
    pieces-free start end s (cut none start end m) h (omega arith)
      (cut-free start end (k + s.area.len) m h l.4)

-- `r` is `m` with the new segment in place of what lay in its range.
abbrev pub Replaces : Mappings → MappingArea → Mappings → Type 0
Replaces m new r =
    Laid 0 r
    × ((a : ℕ)
        → a + 1 < usize_mod
        → protection_at r a
          ≡ (if within new.start (new.start + new.len) a then some new.prot else protection_at m a))

module _ (m : Mappings) (new : Segment) (l : Laid 0 m) (p : 0 < new.area.len)
    (fits : new.area.start + new.area.len < usize_mod) where
  abbrev stop : ℕ
  stop = new.area.start + new.area.len

  -- A map that has nothing in the range, and elsewhere the rights of `m`.
  insert-Replaces :
      (c : Mappings)
      → Laid 0 c
      → any (meets new.area.start stop) c ≡ false
      → ((a : ℕ)
          → rights a c ≡ (if within new.area.start stop a then none else rights a m)
            ⊎ (rights a c ≡ rights a m))
      → Replaces m new.area (insert new.area.start new c)
  insert-Replaces c lc free same = (lr, agree)
    where
      lr : Laid 0 (insert new.area.start new c)
      lr = insert-Laid 0 new c lc (omega arith) p fits free

      agree :
          (a : ℕ)
          → a + 1 < usize_mod
          → protection_at (insert new.area.start new c) a
            ≡ (if within new.area.start stop a then some new.area.prot else protection_at m a)
      agree a small =
          rw
            (
              protection_at-rights a 0 (insert new.area.start new c) lr small,
              protection_at-rights a 0 m l small,
              rights-insert 0 a new c lc fits p free,
            )
            (ground (arith, same a))

  insert_segment_taken :
      (c : Mappings) (changed : Bool)
      → overlaps m new.area.start new.area.len ≡ true
      → unmap_range_inner m new.area.start new.area.len ≡ ok (c, changed)
      → insert_segment m new ≡ ok (insert new.area.start new c)
  unfolding insert_segment
  insert_segment_taken c changed taken e = rw taken (rw e)

  insert_segment_free :
      overlaps m new.area.start new.area.len ≡ false
      → insert_segment m new ≡ ok (insert new.area.start new m)
  unfolding insert_segment
  insert_segment_free free = rw free

  -- A segment can always be put in place; what lay in its range gives way, and all else keeps its
  -- rights.
  pub insert_segment_rights : (r : Mappings) × (insert_segment m new ≡ ok r) × Replaces m new.area r
  insert_segment_rights = elim (Bool-cases (overlaps m new.area.start new.area.len)) [
    | inl taken ↦
        let (changed, e) = unmap_range_inner-cut m new.area.start new.area.len l p fits in
        (
          insert new.area.start new (cut none new.area.start stop m),
          insert_segment_taken (cut none new.area.start stop m) changed taken e,
          insert-Replaces (cut none new.area.start stop m)
              (cut-Laid none new.area.start stop 0 m (omega arith) l)
              (cut-free new.area.start stop 0 m (omega arith) l)
              (λ a. inl (rights-cut none new.area.start stop a 0 m (omega arith) l)),
        )
    | inr free ↦ (
      insert new.area.start new m,
      insert_segment_free free,
      insert-Replaces m l (unfold overlaps in ground arith) (λ a. inr refl),
    )
  ]
