-- ===== src/Mm/Tests.antt =====
-- Runs of crates/mm/src/lib.rs, and the theorems at concrete inputs.
use whuse.Prelude.{
  ℕ, ◌+◌, ◌≤◌, ◌<◌, ◌≡◌, ◌⊎◌, refl, Bool, true, false, [], ◌∷◌, none, some, arith, ok, err, ◌%◌,
  ◌↔◌, if◌then◌else◌,
}
use whuse.Prelude.Errno
use whuse.Prelude.BTreeMap.{get, insert, remove}
use whuse.Mm.{Segment, owned, shared, host, Mappings, page_size}
use whuse.Mm.Frames
use whuse.Mm.Frames.{FrameAllocator}
use whuse.Mm.Mappings
use whuse.Mm.Mappings.{
  unmap_range_inner, protect_range, insert_segment, find_gap, overlaps, slice_segment,
}
use whuse.Mm.Mappings.Layout.{Laid, protection_at}
use whuse.Mm.Mappings.Cut.{within, relabel}
use whuse.Prelude.Words.{usize_mod}
use whuse.Mm.Mappings.Ranges
use whuse.Mm.Mappings.Insertion
use whuse.Mm.Mappings.Search
use whuse.Mm.Mappings.Slices

-- Three pages with rights 3, and one page with rights 1 behind them.
abbrev first : Segment
first = record {
  area = record { start = 0x5000_0000; len = 0x3000; prot = 3 };
  storage = owned (record { phys_base = 0x9000_0000; num_pages = 3 });
}

abbrev second : Segment
second = record {
  area = record { start = 0x5000_4000; len = 0x1000; prot = 1 };
  storage = shared 1 0x8000_0000;
}

abbrev two : Mappings
two = (0x5000_0000, first) ∷ (0x5000_4000, second) ∷ []

unmap_middle :
    unmap_range_inner two 0x5000_1000 0x1000
    ≡ ok (
      (0x5000_0000, slice_segment first 0x5000_0000 0x1000 3)
          ∷ (0x5000_2000, slice_segment first 0x5000_2000 0x1000 3)
          ∷ (0x5000_4000, second)
          ∷ [],
      true,
    )
unfolding unmap_range_inner get insert remove slice_segment
unmap_middle = refl

gap_behind : find_gap 3 two 0x5000_0000 0x2000 ≡ some 0x5000_5000
unfolding find_gap Mappings.first_overlap_end
gap_behind = refl

alloc_page_lem_example :
    Frames.IsValid
      (Frames.alloc_page
        (record { start = 0x9000_0000; limit = 0x9000_2000; next = 0x9000_1000 })).0
alloc_page_lem_example =
    (Frames.alloc_page_lem (record { start = 0x9000_0000; limit = 0x9000_2000; next = 0x9000_1000 })
      (omega arith)).0

unmap_range_inner_rights_example :
    (r : Mappings × Bool) × (unmap_range_inner two 0x5000_1000 0x1000 ≡ ok r)
    × Laid 0 r.0
    × ((a : ℕ)
        → a + 1 < usize_mod
        → protection_at r.0 a
          ≡ (if within 0x5000_1000 0x5000_2000 a then none else protection_at two a))
unmap_range_inner_rights_example =
    Ranges.unmap_range_inner_rights two 0x5000_1000 0x1000 (omega arith) (omega arith) (omega arith)

unmap_range_inner_error_example :
    (unmap_range_inner two 0x5000_1000 0 ≡ err Errno.einval)
    ↔ ((◌≡◌ {A = ℕ} 0 0) ⊎ (usize_mod ≤ 0x5000_1000))
unmap_range_inner_error_example = Ranges.unmap_range_inner_error two 0x5000_1000 0

protect_range_rights_example :
    (r : Mappings) × (protect_range two 0x5000_2000 0x2800 4 ≡ ok r)
    × Laid 0 r
    × ((a : ℕ)
        → a + 1 < usize_mod
        → protection_at r a ≡ (
            if within 0x5000_2000 0x5000_5000 a
            then relabel (some 4) (protection_at two a)
            else protection_at two a))
protect_range_rights_example =
    Ranges.protect_range_rights two 0x5000_2000 0x2800 4 (omega arith) (omega arith) (omega arith)

abbrev third : Segment
third = record {
  area = record { start = 0x5000_2000; len = 0x3000; prot = 5 };
  storage = host 0x5000_2000 0x3000;
}

insert_segment_rights_example :
    (r : Mappings) × (insert_segment two third ≡ ok r) × Insertion.Replaces two third.area r
insert_segment_rights_example =
    Insertion.insert_segment_rights two third (omega arith) (omega arith) (omega arith)

find_gap_lem_example :
    (g : ℕ) × (find_gap 3 two 0x5000_0000 0x2000 ≡ some g)
    × (overlaps two g 0x2000 ≡ false)
    × (g % page_size ≡ 0)
    × (0x5000_0000 ≤ g)
find_gap_lem_example = Search.find_gap_lem two 0x5000_0000 0x2000 (omega arith) refl

slice_owned-byte_at_example :
    Slices.byte_at (λ p. p) (slice_segment first 0x5000_2000 0x1000 3) 0x5000_2010 + 0x2000
    ≡ Slices.byte_at (λ p. p) first 0x5000_2010
slice_owned-byte_at_example =
    Slices.slice_owned-byte_at (λ p. p) first 0x5000_2000 0x1000 3 0x5000_2010 (omega arith)
      (omega arith) (record { phys_base = 0x9000_0000; num_pages = 3 }) refl refl (omega arith)

slice_shared-byte_at_example :
    Slices.byte_at (λ p. p) (slice_segment second 0x5000_4800 0x800 1) 0x5000_4810
    ≡ Slices.byte_at (λ p. p) second 0x5000_4810
slice_shared-byte_at_example =
    Slices.slice_shared-byte_at (λ p. p) second 0x5000_4800 0x800 1 0x5000_4810 (omega arith)
      (omega arith) 1 0x8000_0000 refl (omega arith)
