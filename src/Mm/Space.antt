-- ===== src/Mm/Space.antt =====
-- crates/mm/src/lib.rs: `AddressSpace`, with its storage. The mutex of `inner` is held throughout
-- each operation, so an operation is a function on the world, the memory included.
pub mod Storage
pub mod Mapping
pub mod Anonymous
pub mod Fork
pub mod Access
pub mod Loading
mod Tests
use whuse.Prelude.{
  ℕ, ◌+◌, ◌-◌, ◌%◌, max, Bool, true, false, ◌||◌, not, List, [], ◌∷◌, ◌++◌, Option, none, some, ltb,
  leb, ◌==◌, if◌then◌else◌, length, replicate, suc, KernelResult, ok, err, ok_or,
}
use whuse.Prelude.Errno
use whuse.Prelude.Words.{usize_mod, wrapping_add, checked_add, align_up}
use whuse.Mm.{
  MemoryRegion, MappingArea, Segment, SegmentStorage, host, shared, Mappings, page_size,
  user_heap_base, user_mmap_base, default_prot,
}
use whuse.Mm.Frames.{from_regions}
use whuse.Mm.Mappings
use whuse.Mm.Mappings.{overlaps, find_gap, unmap_range_inner, protect_range}
use Storage.{
  Platform, AddressSpace, World, M, ◌>>=◌, ◌>>◌, lift, get_space, put_space, try_reserve,
  create_owned_storage, create_shared_storage,
}

-- `AddressSpace::new_user`
unfoldable pub new_user : Platform → AddressSpace
new_user platform = record {
  mappings = [];
  program_break = user_heap_base;
  next_mapping_base = user_mmap_base;
  dirty = true;
  frame_allocator = from_regions platform.memory_regions;
}

unfoldable pub insert_segment : Segment → M (Unit {0})
insert_segment segment = do
  space ← get_space
  mappings ← lift (Mappings.insert_segment space.mappings segment)
  put_space (record space { mappings = mappings; dirty = true })

unfoldable pub map_owned : Platform → ℕ → List ℕ → ℕ → M (Unit {0})
unfolding insert_segment
map_owned platform addr bytes prot = do
  let len = max (length bytes) 1
  storage ← create_owned_storage platform addr bytes
  insert_segment
      (record { area = record { start = addr; len = len; prot = prot }; storage = storage })

unfoldable pub map_shared : Platform → ℕ → List ℕ → ℕ → M (Unit {0})
unfolding insert_segment
map_shared platform addr bytes prot = do
  let len = max (length bytes) 1
  storage ← create_shared_storage platform addr bytes
  insert_segment
      (record { area = record { start = addr; len = len; prot = prot }; storage = storage })

-- `data` is the vector of that name and length.
unfoldable pub map_shared_existing : ℕ → ℕ → ℕ → ℕ → M ℕ
unfolding insert_segment
map_shared_existing addr buffer data_len prot = do
  insert_segment (record {
    area = record { start = addr; len = max data_len 1; prot = prot };
    storage = shared buffer addr;
  })
  lift (ok addr)

-- The place that the search has found, taken from the map.
abbrev pub take_place : ℕ → AddressSpace → Option ℕ → M (Option ℕ)
take_place aligned space none = lift (ok none)
take_place aligned space (some start) = do
  next ← lift (ok_or (checked_add start aligned) Errno.enomem)
  put_space (record space { next_mapping_base = next })
  lift (ok (some start))

-- The free range that `map_anonymous` takes. Here and in what calls it `ok none` means that the fuel
-- ran out, so that there is no result.
unfoldable pub take_gap : ℕ → M (Option ℕ)
unfolding find_gap
take_gap aligned = do
  space ← get_space
  let first = align_up space.next_mapping_base page_size
  take_place aligned space (find_gap (suc (length space.mappings)) space.mappings first aligned)

-- The end of `map_anonymous`, with its range.
unfoldable pub fill_gap : Platform → ℕ → ℕ → Option ℕ → M (Option ℕ)
unfolding map_owned
fill_gap platform aligned prot none = lift (ok none)
fill_gap platform aligned prot (some start) = do
  try_reserve platform aligned
  map_owned platform start (replicate aligned 0) prot
  lift (ok (some start))

unfoldable pub map_anonymous : Platform → ℕ → ℕ → M (Option ℕ)
unfolding take_gap fill_gap
map_anonymous platform len prot = if len == 0 then lift (err Errno.einval) else do
  let aligned = align_up len page_size
  gap ← take_gap aligned
  fill_gap platform aligned prot gap

-- The end of `map_anonymous_shared`, with its range.
unfoldable pub fill_shared_gap : Platform → ℕ → ℕ → Option ℕ → M (Option ℕ)
unfolding map_shared
fill_shared_gap platform aligned prot none = lift (ok none)
fill_shared_gap platform aligned prot (some start) = do
  try_reserve platform aligned
  map_shared platform start (replicate aligned 0) prot
  lift (ok (some start))

unfoldable pub map_anonymous_shared : Platform → ℕ → ℕ → M (Option ℕ)
unfolding take_gap fill_shared_gap
map_anonymous_shared platform len prot = if len == 0 then lift (err Errno.einval) else do
  let aligned = align_up len page_size
  gap ← take_gap aligned
  fill_shared_gap platform aligned prot gap

unfoldable pub map_fixed_bytes : Platform → ℕ → List ℕ → ℕ → ℕ → M (Unit {0})
unfolding map_owned
map_fixed_bytes platform addr bytes mem_len prot =
    if mem_len == 0 || ltb mem_len (length bytes) then lift (err Errno.einval) else do
      try_reserve platform mem_len
      map_owned platform addr (bytes ++ replicate (mem_len - length bytes) 0) prot

unfoldable pub map_fixed_shared_bytes : Platform → ℕ → List ℕ → ℕ → ℕ → M (Unit {0})
unfolding map_shared
map_fixed_shared_bytes platform addr bytes mem_len prot =
    if mem_len == 0 || ltb mem_len (length bytes) then lift (err Errno.einval) else do
      try_reserve platform mem_len
      map_shared platform addr (bytes ++ replicate (mem_len - length bytes) 0) prot

abbrev misaligned : ℕ → Bool
misaligned addr = not (addr % page_size == 0)

unfoldable pub map_anonymous_at : Platform → ℕ → ℕ → ℕ → M ℕ
unfolding map_fixed_bytes
map_anonymous_at platform addr len prot =
    if len == 0 || misaligned addr
    then lift (err Errno.einval)
    else do map_fixed_bytes platform addr [] (align_up len page_size) prot; lift (ok addr)

unfoldable pub map_anonymous_shared_at : Platform → ℕ → ℕ → ℕ → M ℕ
unfolding map_fixed_shared_bytes
map_anonymous_shared_at platform addr len prot =
    if len == 0 || misaligned addr
    then lift (err Errno.einval)
    else do map_fixed_shared_bytes platform addr [] (align_up len page_size) prot; lift (ok addr)

unfoldable pub is_range_available : ℕ → ℕ → M Bool
is_range_available addr len = if len == 0 || misaligned addr then lift (err Errno.einval) else do
  space ← get_space
  lift (ok (not (overlaps space.mappings addr (align_up len page_size))))

unfoldable pub install_host_range : ℕ → ℕ → ℕ → M (Unit {0})
unfolding insert_segment
install_host_range addr len prot =
    if len == 0
    then lift (err Errno.einval)
    else insert_segment
        (record { area = record { start = addr; len = len; prot = prot }; storage = host addr len })

-- `unmap_range_inner` on the address space.
unfoldable pub unmap_inner : ℕ → ℕ → M (Unit {0})
unmap_inner start len = do
  space ← get_space
  cleared ← lift (unmap_range_inner space.mappings start len)
  put_space (record space { mappings = cleared.0; dirty = space.dirty || cleared.1 })

unfoldable pub unmap : ℕ → ℕ → M (Unit {0})
unfolding unmap_inner
unmap addr len =
    if len == 0 then lift (err Errno.einval) else unmap_inner addr (align_up len page_size)

unfoldable pub mprotect : ℕ → ℕ → ℕ → M (Unit {0})
mprotect addr len prot = do
  space ← get_space
  mappings ← lift (protect_range space.mappings addr len prot)
  put_space (record space { mappings = mappings; dirty = true })

unfoldable pub grow_heap : Platform → ℕ → ℕ → M (Unit {0})
unfolding map_fixed_bytes
grow_heap platform old_break new_break =
    let map_start = align_up old_break page_size in
    let map_end = align_up new_break page_size in
    if ltb map_start map_end
    then map_fixed_bytes platform map_start [] (map_end - map_start) default_prot
    else lift (ok tt)

unfoldable pub shrink_heap : ℕ → ℕ → M (Unit {0})
unfolding unmap_inner
shrink_heap old_break new_break =
    let unmap_start = align_up new_break page_size in
    let unmap_end = align_up old_break page_size in
    if ltb unmap_start unmap_end
    then unmap_inner unmap_start (unmap_end - unmap_start)
    else lift (ok tt)

unfoldable pub brk : Platform → Option ℕ → M ℕ
unfolding grow_heap shrink_heap
brk platform none = do space ← get_space; lift (ok space.program_break)
brk platform (some requested_break) =
    if ltb requested_break user_heap_base then lift (err Errno.einval) else do
      let new_break = align_up requested_break 16
      before ← get_space
      (if ltb before.program_break new_break
          then grow_heap platform before.program_break new_break
          else if ltb new_break before.program_break
          then shrink_heap before.program_break new_break
          else lift (ok tt))
      after ← get_space
      put_space (record after { program_break = new_break })
      lift (ok new_break)

unfoldable pub clear : M (Unit {0})
clear = do
  space ← get_space
  put_space (record space {
    mappings = [];
    program_break = user_heap_base;
    next_mapping_base = user_mmap_base;
    dirty = true;
  })
