-- ===== src/Mm/Space/Storage.antt =====
-- crates/mm/src/lib.rs: the world that an address space works on, and `create_owned_storage` and
-- `create_shared_storage`.
use whuse.Prelude.{
  ℕ, zero, suc, ◌≡◌, ◌+◌, ◌-◌, ◌/◌, ◌%◌, Bool, true, false, ◌&&◌, List, [], ◌∷◌, Option, none, some,
  ltb, leb, if◌then◌else◌, length, replicate, get_or, KernelResult, ok, err, arith,
}
use whuse.Prelude.Errno
use whuse.Prelude.Words.{usize_mod, wrapping_add, align_up}
use whuse.Mm.{MemoryRegion, Mappings, SegmentStorage, owned, shared, page_size}
use whuse.Mm.Frames.{FrameAllocator, alloc_page}

-- What the platform and the global allocator give: the memory regions, the kernel's address of a
-- physical one, whether a reservation of that many bytes succeeds, and the address of the vector
-- of a name and length.
pub record Platform : Type 0 where
  pub memory_regions : List MemoryRegion
  pub phys_to_virt : ℕ → ℕ
  pub can_reserve : ℕ → Bool
  pub vec_address : ℕ → ℕ → ℕ

-- `AddressSpaceInner`; its token and page table are rebuilt from the mappings when `dirty` is set.
pub record AddressSpace : Type 0 where
  pub mappings : Mappings
  pub program_break : ℕ
  pub next_mapping_base : ℕ
  pub dirty : Bool
  pub frame_allocator : FrameAllocator

-- The address space, the bytes at the kernel's addresses, and the next name of a shared vector.
pub record World : Type 0 where
  pub space : AddressSpace
  pub memory : ℕ → ℕ
  pub next_buffer : ℕ

abbrev pub M : Type 0 → Type 0
M A = World → World × KernelResult A

infixl 5 ◌>>=◌ ◌>>◌
abbrev pub ◌>>=◌ : {A B : Type 0} → M A → (A → M B) → M B
◌>>=◌ m f w = let r = m w in elim r.1 [ ok a ↦ f a r.0 | err e ↦ (r.0, err e) ]

abbrev pub ◌>>◌ : {B : Type 0} → M (Unit {0}) → M B → M B
m >> k = m >>= λ _. k

abbrev pub lift : {A : Type 0} → KernelResult A → M A
lift r w = (w, r)

abbrev pub get_space : M AddressSpace
get_space w = (w, ok w.space)

abbrev pub put_space : AddressSpace → M (Unit {0})
put_space space w = (record w { space = space }, ok tt)

-- `try_reserve_exact(len).map_err(|_| ENOMEM)?`
unfoldable pub try_reserve : Platform → ℕ → M (Unit {0})
try_reserve platform len = lift (if platform.can_reserve len then ok tt else err Errno.enomem)

-- `copy_nonoverlapping` to `ptr`.
unfoldable pub write_memory : ℕ → List ℕ → (ℕ → ℕ) → ℕ → ℕ
write_memory ptr bytes memory a =
    if leb ptr a && ltb a (ptr + length bytes) then get_or bytes (a - ptr) 0 else memory a

-- The loop that takes the pages after the first; they stay taken when it fails.
unfoldable pub take_pages : ℕ → FrameAllocator → FrameAllocator × Bool
unfolding alloc_page
take_pages zero frames = (frames, true)
take_pages (suc n) frames =
    let taken = alloc_page frames in
    elim taken.1 [ none ↦ (taken.0, false) | some _ ↦ take_pages n taken.0 ]

abbrev pub not_empty : List ℕ → List ℕ
not_empty [] = 0 ∷ []
not_empty (b ∷ bytes) = b ∷ bytes

abbrev pub page_count : ℕ → ℕ → ℕ
page_count addr len =
    let map_len = align_up (wrapping_add (addr % page_size) len) page_size in
    (map_len + page_size - 1) % usize_mod / page_size

-- The frames for so many pages: the first one's address, if all are to be had.
unfoldable pub take_frames : ℕ → FrameAllocator → FrameAllocator × Option ℕ
unfolding take_pages
take_frames num_pages frames =
    let first = alloc_page frames in
    let rest = take_pages (num_pages - 1) first.0 in
    elim first.1 [
      | none ↦ (first.0, none)
      | some base ↦ (rest.0, if rest.1 then some base else none)
    ]

unfoldable pub create_owned_storage : Platform → ℕ → List ℕ → M SegmentStorage
unfolding take_frames write_memory
create_owned_storage platform addr bytes w =
    let data_bytes = not_empty bytes in
    let num_pages = page_count addr (length data_bytes) in
    let taken = take_frames num_pages w.space.frame_allocator in
    let w' = record w { space = record (w.space) { frame_allocator = taken.0 } } in
    elim taken.1 [
      | none ↦ (w', err Errno.enomem)
      | some phys_base ↦
          let kernel_va = platform.phys_to_virt phys_base in
          let ptr = align_up kernel_va page_size + addr % page_size in
          (
            record w' { memory = write_memory ptr data_bytes w.memory },
            ok (owned (record { phys_base = phys_base; num_pages = num_pages })),
          )
    ]

unfoldable pub create_shared_storage : Platform → ℕ → List ℕ → M SegmentStorage
unfolding write_memory
create_shared_storage platform addr bytes w =
    let data_bytes = not_empty bytes in
    let page_offset = addr % page_size in
    let map_len = align_up (wrapping_add page_offset (length data_bytes)) page_size in
    let total = map_len + page_size in
    let raw_ptr = platform.vec_address w.next_buffer total in
    let ptr = align_up raw_ptr page_size + page_offset in
    (
      record w {
        memory = write_memory ptr data_bytes (write_memory raw_ptr (replicate total 0) w.memory);
        next_buffer = suc w.next_buffer;
      },
      ok (shared w.next_buffer ptr),
    )

module _ {A B : Type 0} (m : M A) (f : A → M B) (w : World) where
  pub >>=-ok : (a : A) → (m w).1 ≡ ok a → (m >>= f) w ≡ f a (m w).0
  >>=-ok a e = ground arith

  pub >>=-err : (n : ℕ) → (m w).1 ≡ err n → (m >>= f) w ≡ ((m w).0, err n)
  >>=-err n e = ground arith
