-- ===== src/Mm/Mappings/Slices.antt =====
-- crates/mm/src/lib.rs: the byte of memory behind an address of a segment, and behind the same
-- address of a slice of it. `phys_to_virt` is the platform's `HalMemory::phys_to_virt`.
use whuse.Prelude.{ℕ, ◌+◌, ◌-◌, ◌%◌, ◌≤◌, ◌<◌, ◌≡◌, arith}
use whuse.Prelude.Words.{usize_mod, wrapping_add}
use whuse.Mm.{Segment, OwnedFrames, owned, shared, host, page_size}
use whuse.Mm.Mappings.{slice_segment}

-- The pointer that `read_bytes` and `write_bytes` use at an offset of the segment.
unfoldable pub byte_address : (ℕ → ℕ) → Segment → ℕ → ℕ
byte_address phys_to_virt segment offset = elim segment.storage [
  | owned frames ↦
      wrapping_add (wrapping_add (phys_to_virt frames.phys_base) (segment.area.start % page_size))
        offset
  | shared bytes ptr ↦ wrapping_add ptr offset
  | host ptr _ ↦ wrapping_add ptr offset
]

-- The byte at address `a`.
pub byte_at : (ℕ → ℕ) → Segment → ℕ → ℕ
unfolding byte_address
byte_at phys_to_virt segment a = byte_address phys_to_virt segment (a - segment.area.start)

module _ (phys_to_virt : ℕ → ℕ) (s : Segment) (start len prot a : ℕ) (inside : s.area.start ≤ start)
    (behind : start ≤ a) where
  -- A slice of a shared segment shows the same byte at each address.
  pub slice_shared-byte_at :
      (bytes ptr : ℕ)
      → s.storage ≡ shared bytes ptr
      → ptr + (a - s.area.start) < usize_mod
      → byte_at phys_to_virt (slice_segment s start len prot) a ≡ byte_at phys_to_virt s a
  unfolding byte_at slice_segment
  slice_shared-byte_at bytes ptr e fits = ground arith

  pub slice_host-byte_at :
      (ptr size : ℕ)
      → s.storage ≡ host ptr size
      → ptr + (a - s.area.start) < usize_mod
      → byte_at phys_to_virt (slice_segment s start len prot) a ≡ byte_at phys_to_virt s a
  unfolding byte_at slice_segment
  slice_host-byte_at ptr size e fits = ground arith

  -- A slice of an owned segment that begins at a later page shows, at each address, the byte that
  -- the segment had as many bytes before it as the slice begins behind the segment.
  pub slice_owned-byte_at :
      (frames : OwnedFrames)
      → s.storage ≡ owned frames
      → s.area.start % page_size ≡ start % page_size
      → phys_to_virt frames.phys_base + page_size + a < usize_mod
      → byte_at phys_to_virt (slice_segment s start len prot) a + (start - s.area.start)
        ≡ byte_at phys_to_virt s a
  unfolding byte_at slice_segment
  slice_owned-byte_at frames e pages fits = ground arith
