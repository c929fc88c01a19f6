-- ===== src/Mm/Space/Mapping.antt =====
-- crates/mm/src/lib.rs: what the operations that map memory do to the rights of every address, on
-- success and on failure.
use whuse.Prelude.{
  some, ltb, ℕ, ◌+◌, ◌-◌, ◌%◌, ◌≤◌, ◌<◌, ◌≡◌, refl, sym, subst, max, true, false, ◌⊎◌, inl, inr,
  List, ◌++◌, arith, length, length-append, length-replicate, replicate, KernelResult, ok, err,
  Option-cases, Bool-cases,
}
use whuse.Prelude.Errno
use whuse.Prelude.Words.{usize_mod, align_up}
use whuse.Mm.{MappingArea, Segment, SegmentStorage, OwnedFrames, owned, Mappings, page_size}
use whuse.Mm.Mappings
use whuse.Mm.Mappings.{find_gap, overlaps}
use whuse.Mm.Mappings.Layout.{Laid}
use whuse.Mm.Mappings.Insertion.{Replaces, insert_segment_rights}
use whuse.Mm.Mappings.Search.{Roomy, find_gap_lem}
use whuse.Mm.Space.Storage.{
  Platform, World, create_owned_storage, take_frames, page_count, not_empty, try_reserve, >>=-ok,
  >>=-err,
}
use whuse.Mm.Space.{insert_segment, map_owned, map_fixed_bytes, take_gap}

-- Nothing of the mappings and their bases has changed.
pub record SameMap (v w : World) : Type 0 where
  pub mappings : w.space.mappings ≡ v.space.mappings
  pub program_break : w.space.program_break ≡ v.space.program_break
  pub next_mapping_base : w.space.next_mapping_base ≡ v.space.next_mapping_base

create_owned_storage_cases :
    (p : Platform) (addr : ℕ) (bytes : List ℕ) (w : World)
    → SameMap w (create_owned_storage p addr bytes w).0
      × (((create_owned_storage p addr bytes w).1 ≡ err Errno.enomem)
          ⊎ ((f : OwnedFrames) × ((create_owned_storage p addr bytes w).1 ≡ ok (owned f))))
unfolding create_owned_storage
create_owned_storage_cases p addr bytes w =
    elim (Option-cases
      (take_frames (page_count addr (length (not_empty bytes))) w.space.frame_allocator).1) [
        | inl e ↦ (ground arith, inl (ground arith))
        | inr (base, e) ↦ (
          ground arith,
          inr (
            record { phys_base = base; num_pages = page_count addr (length (not_empty bytes)) },
            ground arith,
          ),
        )
      ]

-- The outcome of an operation that maps an area: there was no memory and the map is as before, or
-- the area took its place.
abbrev pub Maps : {A : Type 0} → World → MappingArea → A → World × KernelResult A → Type 0
Maps w area a r =
    ((r.1 ≡ err Errno.enomem) × (r.0.space.mappings ≡ w.space.mappings))
    ⊎ ((r.1 ≡ ok a) × Replaces w.space.mappings area r.0.space.mappings)

module _ (w : World) (segment : Segment) (l : Laid 0 w.space.mappings) (p : 0 < segment.area.len)
    (fits : segment.area.start + segment.area.len < usize_mod) where
  inserted :
      (m : Mappings)
      → Mappings.insert_segment w.space.mappings segment ≡ ok m
      → insert_segment segment w
        ≡ (record w { space = record (w.space) { mappings = m; dirty = true } }, ok tt)
  unfolding insert_segment
  inserted m e = rw e

  -- Putting a segment in place always succeeds.
  insert_segment-Maps :
      ((insert_segment segment w).1 ≡ ok tt)
      × Replaces w.space.mappings segment.area (insert_segment segment w).0.space.mappings
  insert_segment-Maps =
      let (m, e, put) = insert_segment_rights w.space.mappings segment l p fits in
      rw (inserted m e) (refl, put)

pub map_owned-Maps :
    (p : Platform) (addr : ℕ) (bytes : List ℕ) (prot : ℕ) (w : World)
    → Laid 0 w.space.mappings
    → addr + max (length bytes) 1 < usize_mod
    → Maps w
        (record { start = addr; len = max (length bytes) 1; prot = prot })
        tt
        (map_owned p addr bytes prot w)
unfolding map_owned
map_owned-Maps p addr bytes prot w l fits =
    let (same, outcome) = create_owned_storage_cases p addr bytes w in
    elim outcome [
      | inl e ↦
          subst (Maps w area tt) (sym (>>=-err (create_owned_storage p addr bytes) put w _ e))
            (inl (refl, same.mappings))
      | inr (f, e) ↦
          subst (Maps w area tt) (sym (>>=-ok (create_owned_storage p addr bytes) put w _ e))
            (inr (insert_after f same))
    ]
  where
    area : MappingArea
    area = record { start = addr; len = max (length bytes) 1; prot = prot }

    put : SegmentStorage → World → World × KernelResult (Unit {0})
    put storage = insert_segment (record { area = area; storage = storage })

    later : World
    later = (create_owned_storage p addr bytes w).0

    insert_after :
        (f : OwnedFrames)
        → SameMap w later
        → ((put (owned f) later).1 ≡ ok tt)
          × Replaces w.space.mappings area (put (owned f) later).0.space.mappings
    insert_after f same =
        let (done, put_there) =
          insert_segment-Maps later (record { area = area; storage = owned f }) (rw same.mappings l)
            (omega arith) fits in
        (
          done,
          subst (λ m. Replaces m area (put (owned f) later).0.space.mappings) same.mappings
              put_there,
        )

length-zeros :
    (bytes : List ℕ) (n : ℕ)
    → length bytes ≤ n
    → length (bytes ++ replicate (n - length bytes) 0) ≡ n
length-zeros bytes n h = omega (
  arith,
  length-append bytes (replicate (n - length bytes) 0),
  length-replicate {A = ℕ} (n - length bytes) 0,
)

module _ (p : Platform) (addr : ℕ) (bytes : List ℕ) (mem_len prot : ℕ) (w : World)
    (pos : 0 < mem_len) (holds : length bytes ≤ mem_len) where
  map_fixed_bytes_room :
      p.can_reserve mem_len ≡ true
      → map_fixed_bytes p addr bytes mem_len prot w
        ≡ map_owned p addr (bytes ++ replicate (mem_len - length bytes) 0) prot w
  unfolding map_fixed_bytes try_reserve
  map_fixed_bytes_room room = ground arith

  map_fixed_bytes_full :
      p.can_reserve mem_len ≡ false
      → map_fixed_bytes p addr bytes mem_len prot w ≡ (w, err Errno.enomem)
  unfolding map_fixed_bytes try_reserve
  map_fixed_bytes_full full = ground arith

-- `map_fixed_bytes` of a length that holds the bytes either finds no memory and leaves the map, or
-- the range has the asked rights and every other address its own.
pub map_fixed_bytes-Maps :
    (p : Platform) (addr : ℕ) (bytes : List ℕ) (mem_len prot : ℕ) (w : World)
    → Laid 0 w.space.mappings
    → 0 < mem_len
    → length bytes ≤ mem_len
    → addr + mem_len < usize_mod
    → Maps w
        (record { start = addr; len = mem_len; prot = prot })
        tt
        (map_fixed_bytes p addr bytes mem_len prot w)
map_fixed_bytes-Maps p addr bytes mem_len prot w l pos holds fits =
    elim (Bool-cases (p.can_reserve mem_len)) [
      | inl room ↦
          subst (Maps w _ tt)
            (sym (map_fixed_bytes_room p addr bytes mem_len prot w pos holds room))
            (subst
              (λ n.
                Maps w (record { start = addr; len = n; prot = prot }) tt
                  (map_owned p addr buffer prot w))
              size (map_owned-Maps p addr buffer prot w l (omega (arith, size))))
      | inr full ↦
          subst (Maps w _ tt)
            (sym (map_fixed_bytes_full p addr bytes mem_len prot w pos holds full))
            (inl (refl, refl))
    ]
  where
    buffer : List ℕ
    buffer = bytes ++ replicate (mem_len - length bytes) 0

    size : max (length buffer) 1 ≡ mem_len
    size = omega (arith, length-zeros bytes mem_len holds)

-- The first free page-aligned range of the length is taken from the map.
pub take_gap_lem :
    (aligned : ℕ) (w : World)
    → Roomy w.space.mappings
    → w.space.next_mapping_base + page_size < usize_mod
    → (g : ℕ) × (overlaps w.space.mappings g aligned ≡ false)
      × (g % page_size ≡ 0)
      × (w.space.next_mapping_base ≤ g)
      × (((take_gap aligned w ≡ (w, err Errno.enomem)) × (usize_mod ≤ g + aligned))
          ⊎ ((take_gap aligned w ≡ (
            record w { space = record (w.space) { next_mapping_base = g + aligned } },
            ok (some g),
          ))
              × (g + aligned < usize_mod)))
unfolding take_gap
take_gap_lem aligned w roomy low =
    let (g, found, free, page, behind) =
      find_gap_lem w.space.mappings (align_up w.space.next_mapping_base page_size) aligned roomy
        (omega arith) in
    (
      g,
      free,
      page,
      omega arith,
      elim (Bool-cases (ltb (g + aligned) usize_mod)) [
        | inl fits ↦ inr (ground arith, ground arith)
        | inr over ↦ inl (ground arith, ground arith)
      ],
    )
