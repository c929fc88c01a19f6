-- ===== src/Mm/Space/Fork.antt =====
-- crates/mm/src/lib.rs: `clone_private`, by which `fork_from` in crates/proc/src/lib.rs makes the
-- child's address space.
mod Tests
use mathlib.Core.List.{append-nil, append_assoc}
use whuse.Prelude.{
  max, ◌%◌, ap, sym, ◌∙◌, true, false, All, suc, ◌-◌, ℕ, ◌+◌, ◌/◌, ◌<◌, ◌≡◌, refl, Bool, List, [],
  ◌∷◌, ◌++◌, map, Option, none, some, inl, inr, Option-cases, arith, find, ok, err,
}
use whuse.Prelude.Words.{usize_mod, align_up, wrapping_add, saturating_add}
use whuse.Prelude.BTreeMap.{insert}
use whuse.Prelude.BTreeMap.Middle.{Below, Below-mono, Below-append, insert-middle}
use whuse.Mm.{OwnedFrames, Segment, SegmentStorage, owned, shared, host, Mappings, page_size}
use whuse.Mm.Frames.{alloc_page, from_regions}
use whuse.Mm.Mappings.{holds, find_segment}
use whuse.Mm.Mappings.Layout.{Laid}
use whuse.Mm.Mappings.Slices.{byte_address}
use whuse.Mm.Space.Storage.{Platform, AddressSpace, World, create_owned_storage, take_frames}

-- The storage of the copy: the frames and vectors are the same, by their reference counts.
unfoldable clone_storage : SegmentStorage → SegmentStorage
clone_storage (owned frames) = owned frames
clone_storage (shared bytes ptr) = shared bytes ptr
clone_storage (host ptr len) =
    owned (record { phys_base = ptr; num_pages = align_up len page_size / page_size })

unfoldable clone_segment : Segment → Segment
unfolding clone_storage
clone_segment segment = record { area = segment.area; storage = clone_storage segment.storage }

-- The loop over the mappings, with the new ones so far.
unfoldable clone_each : Mappings → Mappings → Mappings
clone_each mappings [] = mappings
clone_each mappings ((start, segment) ∷ rest) =
    clone_each (insert start (clone_segment segment) mappings) rest

pub clone_private : Platform → AddressSpace → AddressSpace
clone_private platform inner = record {
  mappings = clone_each [] inner.mappings;
  program_break = inner.program_break;
  next_mapping_base = inner.next_mapping_base;
  dirty = true;
  frame_allocator = from_regions platform.memory_regions;
}

-- The bytes that a deep copy of the segments would take.
unfoldable estimated_clone_bytes : ℕ → Mappings → ℕ
estimated_clone_bytes acc [] = acc
estimated_clone_bytes acc ((start, segment) ∷ rest) =
    let page_offset = segment.area.start % page_size in
    let seg_len = max segment.area.len 1 in
    let map_len = align_up (wrapping_add page_offset seg_len) page_size in
    estimated_clone_bytes (saturating_add acc (saturating_add map_len page_size)) rest

unfoldable estimated_private_clone_bytes : AddressSpace → ℕ
unfolding estimated_clone_bytes
estimated_private_clone_bytes inner = estimated_clone_bytes 0 inner.mappings

-- The kernel's address of the byte that a read or a write at the address reaches.
pub backing : Platform → Mappings → ℕ → Option ℕ
backing platform m a = elim (find_segment m a 1) [
  | err _ ↦ none
  | ok found ↦ some (byte_address platform.phys_to_virt found.0 found.1)
]

abbrev clone_entry : ℕ × Segment → ℕ × Segment
clone_entry e = (e.0, clone_segment e.1)

clone_each_lem :
    (lo : ℕ) (xs m : Mappings) → Below lo xs → Laid lo m → clone_each xs m ≡ xs ++ map clone_entry m
unfolding clone_each
clone_each_lem lo xs [] f l = sym (append-nil xs)
clone_each_lem lo xs ((k, s) ∷ m) f l =
    ap (λ ys. clone_each ys m) added
    ∙ clone_each_lem (k + s.area.len) (xs ++ clone_entry (k, s) ∷ []) m
        (Below-append (k + s.area.len) xs (clone_entry (k, s) ∷ [])
          (Below-mono lo (k + s.area.len) xs (omega arith) f) (omega arith, tt))
        l.4
    ∙ append_assoc xs (clone_entry (k, s) ∷ []) (map clone_entry m)
  where
    added : insert k (clone_segment s) xs ≡ xs ++ clone_entry (k, s) ∷ []
    added =
        ap (insert k (clone_segment s)) (sym (append-nil xs))
        ∙ insert-middle k (clone_segment s) xs [] (Below-mono lo k xs l.0 f) tt

abbrev pub on_host : Segment → Bool
on_host s = elim s.storage [ owned _ ↦ false | shared _ _ ↦ false | host _ _ ↦ true ]

byte_address-clone_segment :
    (phys_to_virt : ℕ → ℕ) (s : Segment) (offset : ℕ)
    → on_host s ≡ false
    → byte_address phys_to_virt (clone_segment s) offset ≡ byte_address phys_to_virt s offset
unfolding byte_address clone_segment
byte_address-clone_segment phys_to_virt s offset h = ground arith

module _ (phys_to_virt : ℕ → ℕ) (a : ℕ) where
  abbrev address : Option (ℕ × Segment) → Option ℕ
  address found = elim found [
    | none ↦ none
    | some e ↦ some (byte_address phys_to_virt e.1 (a - e.0))
  ]

  address-clone :
      (m : Mappings)
      → All (λ e. on_host e.1 ≡ false) m
      → address (find (holds a (a + 1)) (map clone_entry m)) ≡ address (find (holds a (a + 1)) m)
  unfolding clone_segment
  address-clone [] h = refl
  address-clone ((k, s) ∷ m) h =
      ground (arith, address-clone m h.1, byte_address-clone_segment phys_to_virt s (a - k) h.0)

-- In the copy each address stands for the byte of memory that it stands for in the original.
pub backing-clone_private :
    (platform : Platform) (space : AddressSpace)
    → Laid 0 space.mappings
    → All (λ e. on_host e.1 ≡ false) space.mappings
    → (a : ℕ)
    → backing platform (clone_private platform space).mappings a ≡ backing platform space.mappings a
backing-clone_private platform space l h a =
    unfold backing find_segment clone_private in
    rw (clone_each_lem 0 [] space.mappings tt l)
      (ground (arith, address-clone platform.phys_to_virt a space.mappings h))

created-owned :
    (p : Platform) (addr : ℕ) (bytes : List ℕ) (w : World) (f : OwnedFrames)
    → (create_owned_storage p addr bytes w).1 ≡ ok (owned f)
    → (alloc_page w.space.frame_allocator).1 ≡ some f.phys_base
unfolding create_owned_storage take_frames
created-owned p addr bytes w f e = ground arith

-- Where the frames of an address space were the first that it took, the copy's first frames begin
-- at the same address, though the original still has them.
pub clone_private_frames :
    (p : Platform) (addr addr' : ℕ) (bytes bytes' : List ℕ) (w w' : World) (f g : OwnedFrames)
    → w.space.frame_allocator ≡ from_regions p.memory_regions
    → (create_owned_storage p addr bytes w).1 ≡ ok (owned f)
    → w'.space ≡ clone_private p (create_owned_storage p addr bytes w).0.space
    → (create_owned_storage p addr' bytes' w').1 ≡ ok (owned g)
    → g.phys_base ≡ f.phys_base
unfolding clone_private
clone_private_frames p addr addr' bytes bytes' w w' f g fresh had copied took =
    let before = created-owned p addr bytes w f had in
    let after = created-owned p addr' bytes' w' g took in
    let again = ap (λ s. (alloc_page s.frame_allocator).1) copied in
    let first = ap (λ a. (alloc_page a).1) fresh in grind arith
