-- ===== src/Mm/Space/Loading.antt =====
-- crates/mm/src/lib.rs: `map_elf_segments`, which maps the segments of an ELF image.
use whuse.Prelude.{
  ℕ, zero, suc, ◌-◌, ◌*◌, ◌%◌, min, max, Bool, not, ◌&&◌, List, ◌++◌, Option, none, some, ltb, ◌==◌,
  if◌then◌else◌, length, take, drop, replicate, KernelResult, ok, err, ok_or,
}
use whuse.Prelude.Errno
use whuse.Prelude.Words.{usize_mod, wrapping_add, checked_add, checked_sub, align_up, align_down}
use whuse.Mm.{page_size}
use whuse.Mm.Mappings.{find_gap}
use whuse.Mm.Elf.{
  ElfHeader, ProgramHeader, parse_elf_header, parse_program_header, find_phdr_vaddr,
  elf_flags_to_prot,
}
use whuse.Mm.Space.{map_fixed_bytes, take_place}
use whuse.Mm.Space.Storage.{Platform, M, ◌>>=◌, ◌>>◌, lift, get_space, try_reserve}

pub record MappedElfImage : Type 0 where
  pub entry : ℕ
  pub load_bias : ℕ
  pub phdr_addr : ℕ
  pub phnum : ℕ
  pub phent : ℕ
  pub highest_end : ℕ
  pub is_dyn : Bool

-- The lowest and the highest address of the segments to load, and how many there are.
pub record Extent : Type 0 where
  pub min_vaddr : ℕ
  pub max_vaddr_end : ℕ
  pub load_segments : ℕ

abbrev header_at : ElfHeader → List ℕ → ℕ → KernelResult ProgramHeader
header_at header image index =
    parse_program_header image
      (wrapping_add header.program_header_offset (index * header.program_header_size % usize_mod))

abbrev widened : ProgramHeader → Extent → KernelResult Extent
widened ph extent =
    if ltb ph.mem_size ph.file_size
    then err Errno.enoexec
    else elim (checked_add ph.vaddr ph.mem_size) [
      | none ↦ err Errno.enoexec
      | some vaddr_end ↦ ok (record {
        min_vaddr = min extent.min_vaddr ph.vaddr;
        max_vaddr_end = max extent.max_vaddr_end vaddr_end;
        load_segments = suc extent.load_segments;
      })
    ]

-- The first loop, over the headers that are left.
unfoldable extent_loop : ℕ → ElfHeader → List ℕ → ℕ → Extent → M Extent
unfolding parse_program_header
extent_loop zero header image index extent = lift (ok extent)
extent_loop (suc left) header image index extent = do
  ph ← lift (header_at header image index)
  wider ← lift (if ph.segment_type == 1 then widened ph extent else ok extent)
  extent_loop left header image (suc index) wider

-- The end of `reserve_dynamic_load_bias`, with the place that the search has found.
abbrev biased : ℕ → Option ℕ → M (Option ℕ)
biased load_floor none = lift (ok none)
biased load_floor (some base) = do
  bias ← lift (ok_or (checked_sub base load_floor) Errno.enomem)
  lift (ok (some bias))

-- Here and in what calls it `ok none` means that the fuel ran out, so that there is no result.
unfoldable pub reserve_dynamic_load_bias : ℕ → ℕ → M (Option ℕ)
unfolding find_gap
reserve_dynamic_load_bias min_vaddr max_vaddr_end = do
  let load_floor = align_down min_vaddr page_size
  let span = align_up (max (max_vaddr_end - load_floor) page_size) page_size
  space ← get_space
  base ← take_place span space (
      find_gap (suc (length space.mappings)) space.mappings
        (align_up space.next_mapping_base page_size) span)
  biased load_floor base

abbrev load_bias_of : ElfHeader → Extent → M (Option ℕ)
load_bias_of header extent =
    if header.elf_type == 2
    then lift (ok (some 0))
    else if header.elf_type == 3
    then reserve_dynamic_load_bias extent.min_vaddr extent.max_vaddr_end
    else lift (err Errno.enoexec)

-- One turn of the second loop.
unfoldable pub map_load_segment : Platform → List ℕ → ℕ → ProgramHeader → M (Unit {0})
unfolding map_fixed_bytes try_reserve
map_load_segment platform image load_bias ph =
    if ltb ph.mem_size ph.file_size then lift (err Errno.enoexec) else do
      data_end ← lift (ok_or (checked_add ph.offset ph.file_size) Errno.enoexec)
      within ← lift (if ltb (length image) data_end then err Errno.enoexec else ok tt)
      mapped_vaddr ← lift (ok_or (checked_add ph.vaddr load_bias) Errno.enoexec)
      let seg_start = align_down mapped_vaddr page_size
      let page_offset = mapped_vaddr - seg_start
      mem_end ← lift (ok_or (checked_add page_offset ph.mem_size) Errno.enoexec)
      try_reserve platform (wrapping_add page_offset ph.file_size)
      map_fixed_bytes platform seg_start
          (replicate page_offset 0 ++ take ph.file_size (drop ph.offset image))
          (align_up mem_end page_size) (elf_flags_to_prot ph.flags)

unfoldable map_loop : ℕ → Platform → ElfHeader → List ℕ → ℕ → ℕ → M (Unit {0})
unfolding parse_program_header map_load_segment
map_loop zero platform header image load_bias index = lift (ok tt)
map_loop (suc left) platform header image load_bias index = do
  ph ← lift (header_at header image index)
  (if ph.segment_type == 1 then map_load_segment platform image load_bias ph else lift (ok tt))
  map_loop left platform header image load_bias (suc index)

abbrev is_loadable : ElfHeader → Bool
is_loadable header =
    header.program_header_size == 56
    && header.class == 2
    && header.endianness == 1
    && not (header.program_header_num == 0)

-- `map_elf_segments` once it has the load bias.
unfoldable map_biased :
    Platform → List ℕ → ElfHeader → Extent → Option ℕ → M (Option MappedElfImage)
unfolding map_loop find_phdr_vaddr
map_biased platform image header extent none = lift (ok none)
map_biased platform image header extent (some load_bias) = do
  map_loop header.program_header_num platform header image load_bias 0
  phdr_vaddr ← lift (find_phdr_vaddr header image)
  phdr_addr ← lift (ok_or (checked_add phdr_vaddr load_bias) Errno.enoexec)
  entry ← lift (ok_or (checked_add header.entry load_bias) Errno.enoexec)
  highest ← lift (ok_or (checked_add extent.max_vaddr_end load_bias) Errno.enoexec)
  lift (
      ok (
        some (record {
          entry = entry;
          load_bias = load_bias;
          phdr_addr = phdr_addr;
          phnum = header.program_header_num;
          phent = header.program_header_size;
          highest_end = align_up highest page_size;
          is_dyn = header.elf_type == 3;
        })))

unfoldable pub map_elf_segments : Platform → List ℕ → M (Option MappedElfImage)
unfolding parse_elf_header extent_loop reserve_dynamic_load_bias map_biased
map_elf_segments platform image = do
  header ← lift (parse_elf_header image)
  loadable ← lift (if is_loadable header then ok tt else err Errno.enoexec)
  extent ←
      extent_loop header.program_header_num header image 0
        (record { min_vaddr = usize_mod - 1; max_vaddr_end = 0; load_segments = 0 })
  some_segment ← lift (if extent.load_segments == 0 then err Errno.enoexec else ok tt)
  load_bias ← load_bias_of header extent
  map_biased platform image header extent load_bias
