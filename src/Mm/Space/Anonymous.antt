-- ===== src/Mm/Space/Anonymous.antt =====
-- crates/mm/src/lib.rs: `map_anonymous`.
use whuse.Prelude.{
  ℕ, ◌+◌, ◌%◌, ◌<◌, ◌≡◌, refl, sym, subst, ap, ◌∙◌, max, true, false, inl, inr, Option, some, arith,
  length, length-replicate, replicate, ok, err, Bool-cases,
}
use whuse.Prelude.Errno
use whuse.Prelude.Words.{usize_mod, align_up}
use whuse.Mm.{MappingArea, page_size}
use whuse.Mm.Mappings.{overlaps}
use whuse.Mm.Mappings.Layout.{Laid}
use whuse.Mm.Mappings.Search.{Roomy}
use whuse.Mm.Space.Storage.{Platform, World, M, ◌>>=◌, ◌>>◌, lift, try_reserve, >>=-ok, >>=-err}
use whuse.Mm.Space.{map_owned, take_gap, fill_gap, map_anonymous}
use whuse.Mm.Space.Mapping.{Maps, map_owned-Maps, take_gap_lem}

abbrev area_of : ℕ → ℕ → ℕ → MappingArea
area_of start len prot = record { start = start; len = len; prot = prot }

-- What `map_anonymous` does once it has its range.
fill : Platform → ℕ → ℕ → ℕ → M (Option ℕ)
fill p aligned prot g = fill_gap p aligned prot (some g)

module _ (p : Platform) (aligned prot g : ℕ) (w : World) where
  fill-Maps :
      Laid 0 w.space.mappings
      → 0 < aligned
      → g + aligned < usize_mod
      → Maps w (area_of g aligned prot) (some g) (fill p aligned prot g w)
  fill-Maps l pos fits = elim (Bool-cases (p.can_reserve aligned)) [
    | inr full ↦ subst (Maps w _ (some g)) (sym (stops full)) (inl (refl, refl))
    | inl room ↦ subst (Maps w _ (some g)) (sym (goes_on room)) (elim mapped [
      | inl (e, same) ↦
          subst (Maps w (area_of g aligned prot) (some g))
            (sym (>>=-err owned_map (λ _. lift (ok (some g))) w _ e)) (inl (refl, same))
      | inr (e, put) ↦
          subst (Maps w (area_of g aligned prot) (some g))
            (sym (>>=-ok owned_map (λ _. lift (ok (some g))) w _ e)) (inr (refl, put))
    ])
  ]
    where
      owned_map : M (Unit {0})
      owned_map = map_owned p g (replicate aligned 0) prot

      stops : p.can_reserve aligned ≡ false → fill p aligned prot g w ≡ (w, err Errno.enomem)
      stops full = unfold fill fill_gap try_reserve in ground arith

      goes_on :
          p.can_reserve aligned ≡ true
          → fill p aligned prot g w ≡ (owned_map >> lift (ok (some g))) w
      goes_on room = unfold fill fill_gap try_reserve in ground arith

      size : max (length (replicate {A = ℕ} aligned 0)) 1 ≡ aligned
      size = omega (arith, length-replicate {A = ℕ} aligned 0)

      mapped : Maps w (area_of g aligned prot) tt (owned_map w)
      mapped =
          subst (λ n. Maps w (area_of g n prot) tt (owned_map w)) size
            (map_owned-Maps p g (replicate aligned 0) prot w l (omega (arith, size)))

-- In a map that is in order, where the segments, the place to search from and the length stay a page
-- below the top of the address range, mapping anonymous memory of a length that is not 0 ends: it finds
-- no memory and leaves the map, or gives a page-aligned range of the rounded length that was free,
-- which has the asked rights while every other address keeps its own.
pub map_anonymous_lem :
    (p : Platform) (len prot : ℕ) (w : World)
    → Laid 0 w.space.mappings
    → Roomy w.space.mappings
    → w.space.next_mapping_base + page_size < usize_mod
    → 0 < len
    → len + page_size < usize_mod
    → (g : ℕ) × (overlaps w.space.mappings g (align_up len page_size) ≡ false)
      × (g % page_size ≡ 0)
      × Maps w (area_of g (align_up len page_size) prot) (some g) (map_anonymous p len prot w)
map_anonymous_lem p len prot w l roomy low pos small =
    let (g, free, page, behind, outcome) = take_gap_lem (align_up len page_size) w roomy low in
    (
      g,
      free,
      page,
      elim outcome [
        | inl (e, over) ↦ subst (Maps w _ (some g)) (sym (no_gap e)) (inl (refl, refl))
        | inr (e, fits) ↦
            subst (Maps w _ (some g)) (sym (gap g e))
              (fill-Maps p (align_up len page_size) prot g (moved g) l (omega arith) fits)
      ],
    )
  where
    moved : ℕ → World
    moved g = record w {
      space = record (w.space) { next_mapping_base = g + align_up len page_size };
    }

    opened :
        map_anonymous p len prot w
        ≡ (take_gap (align_up len page_size) >>= fill_gap p (align_up len page_size) prot) w
    opened = unfold map_anonymous in ground arith

    no_gap :
        take_gap (align_up len page_size) w ≡ (w, err Errno.enomem)
        → map_anonymous p len prot w ≡ (w, err Errno.enomem)
    no_gap e =
        opened
        ∙ >>=-err (take_gap (align_up len page_size)) (fill_gap p (align_up len page_size) prot) w
            Errno.enomem (ap (λ r. r.1) e)
        ∙ ap (λ r. (r.0, err Errno.enomem)) e

    gap :
        (g : ℕ)
        → take_gap (align_up len page_size) w ≡ (moved g, ok (some g))
        → map_anonymous p len prot w ≡ fill p (align_up len page_size) prot g (moved g)
    gap g e =
        opened
        ∙ >>=-ok (take_gap (align_up len page_size)) (fill_gap p (align_up len page_size) prot) w
            (some g) (ap (λ r. r.1) e)
        ∙ ap (λ r. fill_gap p (align_up len page_size) prot (some g) r.0) e
        ∙ unfold fill in refl
