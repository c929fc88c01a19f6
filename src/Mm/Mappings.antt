-- ===== src/Mm/Mappings.antt =====
-- crates/mm/src/lib.rs: the operations on `mappings`, the map of segments by their start address.
pub mod Layout
pub mod Cut
pub mod Ranges
pub mod Search
pub mod Slices
pub mod Insertion
use whuse.Prelude.{
  ℕ, zero, suc, ◌+◌, ◌-◌, ◌/◌, ◌%◌, min, max, Bool, true, false, ◌&&◌, ◌||◌, List, [], ◌∷◌, Option,
  none, some, ltb, leb, ◌==◌, if◌then◌else◌, any, find, KernelResult, ok, err, ok_or, ◌>>=◌,
}
use whuse.Prelude.Errno
use whuse.Prelude.Words.{usize_mod, wrapping_add, checked_add, saturating_add, align_up}
use whuse.Prelude.BTreeMap.{BTreeMap, get, insert, remove, keys}
use whuse.Mm.{MappingArea, Segment, SegmentStorage, owned, shared, host, Mappings, page_size}

abbrev pub seg_end : ℕ × Segment → ℕ
seg_end (base, segment) = wrapping_add base segment.area.len

-- `overlaps` and `first_overlap_end` share this test.
abbrev pub meets : ℕ → ℕ → ℕ × Segment → Bool
meets start end e = ltb start (seg_end e) && ltb e.0 end

unfoldable pub overlaps : Mappings → ℕ → ℕ → Bool
overlaps mappings start len = any (meets start (saturating_add start len)) mappings

unfoldable pub first_overlap_end : Mappings → ℕ → ℕ → Option ℕ
first_overlap_end mappings start len =
    elim (find (meets start (saturating_add start len)) mappings) [
      | none ↦ none
      | some e ↦ some (seg_end e)
    ]

-- `range(..=cursor).next_back()`: the last entry whose key is at most the cursor.
unfoldable pub last_at_most : ℕ → Mappings → Option (ℕ × Segment)
last_at_most cursor [] = none
last_at_most cursor (e ∷ m) =
    let later = last_at_most cursor m in
    if leb e.0 cursor then elim later [ none ↦ some e | some f ↦ some f ] else later

-- The loop of `range_fully_mapped`; `none` means that the fuel ran out.
unfoldable pub walk_mapped : ℕ → Mappings → ℕ → ℕ → Option Bool
walk_mapped zero mappings cursor end = none
walk_mapped (suc fuel) mappings cursor end = elim (ltb cursor end) [
  | false ↦ some true
  | true ↦ elim (last_at_most cursor mappings) [
    | none ↦ some false
    | some e ↦ elim (ltb cursor e.0 || leb (seg_end e) cursor) [
      | true ↦ some false
      | false ↦ walk_mapped fuel mappings (min (seg_end e) end) end
    ]
  ]
]

unfoldable pub slice_segment_storage : Segment → ℕ → ℕ → SegmentStorage
slice_segment_storage segment start len = elim segment.storage [
  | owned frames ↦ owned frames
  | shared bytes ptr ↦ shared bytes (saturating_add ptr (start - segment.area.start))
  | host ptr _ ↦ host (saturating_add ptr (start - segment.area.start)) len
]

unfoldable pub slice_segment : Segment → ℕ → ℕ → ℕ → Segment
unfolding slice_segment_storage
slice_segment segment start len prot = record {
  area = record { start = start; len = len; prot = prot };
  storage = slice_segment_storage segment start len;
}

-- One turn of the loop in `unmap_range_inner`, for a segment that was just removed from the map.
unfoldable pub unmap_segment : ℕ → ℕ → Segment → Mappings → Mappings × Bool
unmap_segment start end segment m =
    let seg_start = segment.area.start in
    let seg_end = wrapping_add seg_start segment.area.len in
    let left = slice_segment segment seg_start (start - seg_start) segment.area.prot in
    let right = slice_segment segment end (seg_end - end) segment.area.prot in
    let with_left = if ltb seg_start start then insert left.area.start left m else m in
    if leb end seg_start || leb seg_end start
    then (insert seg_start segment m, false)
    else (if ltb end seg_end then insert right.area.start right with_left else with_left, true)

unfoldable pub unmap_key : ℕ → ℕ → ℕ → Mappings → Mappings × Bool
unfolding unmap_segment
unmap_key start end key m = elim (get key m) [
  | none ↦ (m, false)
  | some segment ↦ unmap_segment start end segment (remove key m)
]

unfoldable pub unmap_keys : ℕ → ℕ → List ℕ → Mappings → Bool → Mappings × Bool
unfolding unmap_key
unmap_keys start end [] m changed = (m, changed)
unmap_keys start end (key ∷ rest) m changed =
    let r = unmap_key start end key m in unmap_keys start end rest r.0 (changed || r.1)

-- `unmap_range_inner`: the new mappings, and whether `dirty` is to be set.
unfoldable pub unmap_range_inner : Mappings → ℕ → ℕ → KernelResult (Mappings × Bool)
unfolding unmap_keys
unmap_range_inner mappings start len = if len == 0 then err Errno.einval else do
  end ← ok_or (checked_add start len) Errno.einval
  ok (unmap_keys start end (keys mappings) mappings false)

-- One turn of the loop in `mprotect`.
unfoldable pub protect_segment : ℕ → ℕ → ℕ → Segment → Mappings → Mappings
protect_segment addr end prot segment m =
    let seg_start = segment.area.start in
    let seg_end = wrapping_add seg_start segment.area.len in
    let left = slice_segment segment seg_start (addr - seg_start) segment.area.prot in
    let mid_start = max seg_start addr in
    let mid = slice_segment segment mid_start (min seg_end end - mid_start) prot in
    let right = slice_segment segment end (seg_end - end) segment.area.prot in
    let with_left = if ltb seg_start addr then insert left.area.start left m else m in
    let with_mid = insert mid.area.start mid with_left in
    if leb end seg_start || leb seg_end addr
    then insert seg_start segment m
    else if ltb end seg_end
    then insert right.area.start right with_mid
    else with_mid

unfoldable pub protect_key : ℕ → ℕ → ℕ → ℕ → Mappings → Mappings
unfolding protect_segment
protect_key addr end prot key m = elim (get key m) [
  | none ↦ m
  | some segment ↦ protect_segment addr end prot segment (remove key m)
]

unfoldable pub protect_keys : ℕ → ℕ → ℕ → List ℕ → Mappings → Mappings
unfolding protect_key
protect_keys addr end prot [] m = m
protect_keys addr end prot (key ∷ rest) m =
    protect_keys addr end prot rest (protect_key addr end prot key m)

-- `mprotect` on the mappings.
unfoldable pub protect_range : Mappings → ℕ → ℕ → ℕ → KernelResult Mappings
unfolding protect_keys
protect_range mappings addr len prot = if len == 0 then err Errno.einval else do
  end ← ok_or (checked_add addr (align_up len page_size)) Errno.einval
  ok (protect_keys addr end prot (keys mappings) mappings)

-- `find_segment` and `find_segment_mut`, whose test is the same.
abbrev pub holds : ℕ → ℕ → ℕ × Segment → Bool
holds addr end (base, segment) = elim (checked_add base segment.area.len) [
  | none ↦ false
  | some seg_end ↦ leb base addr && leb end seg_end
]

unfoldable pub find_segment : Mappings → ℕ → ℕ → KernelResult (Segment × ℕ)
find_segment mappings addr len = do
  end ← ok_or (checked_add addr len) Errno.efault
  found ← ok_or (find (holds addr end) mappings) Errno.efault
  ok (found.1, addr - found.0)

-- The loop of `map_anonymous`, `map_anonymous_shared` and `reserve_dynamic_load_bias`: the start
-- moves behind each segment in the way. `none` means that the fuel ran out.
unfoldable pub find_gap : ℕ → Mappings → ℕ → ℕ → Option ℕ
find_gap zero mappings start aligned = none
find_gap (suc fuel) mappings start aligned = elim (first_overlap_end mappings start aligned) [
  | none ↦ some start
  | some overlap_end ↦ find_gap fuel mappings (align_up overlap_end page_size) aligned
]

-- `insert_segment` on the mappings: what lies in the range is unmapped first.
unfoldable pub insert_segment : Mappings → Segment → KernelResult Mappings
unfolding overlaps
insert_segment mappings segment = do
  cleared ←
      if overlaps mappings segment.area.start segment.area.len
      then (do r ← unmap_range_inner mappings segment.area.start segment.area.len; ok r.0)
      else ok mappings
  ok (insert segment.area.start segment cleared)
