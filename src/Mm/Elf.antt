-- ===== src/Mm/Elf.antt =====
-- crates/mm/src/lib.rs: the headers of an ELF image.
use whuse.Prelude.{
  ℕ, zero, suc, ◌+◌, ◌-◌, ◌*◌, ◌/◌, ◌%◌, Bool, true, false, not, ◌||◌, List, [], ◌∷◌, ltb, leb,
  ◌==◌, if◌then◌else◌, length, take, drop, get_or, KernelResult, ok, err, ok_or, ◌>>=◌,
}
use whuse.Prelude.Errno
use whuse.Prelude.Words.{usize_mod, wrapping_add, checked_add}
use whuse.Prelude.Text.{text_eq, from_le_bytes}
use whuse.Mm.{default_prot}

-- `read_u16`, `read_u32` and `read_u64`, by the width.
unfoldable pub read_le : ℕ → List ℕ → ℕ → KernelResult ℕ
unfolding from_le_bytes
read_le width bytes offset =
    if ltb (length bytes) (wrapping_add offset width)
    then err Errno.enoexec
    else ok (from_le_bytes (take width (drop offset bytes)))

abbrev pub read_u16 : List ℕ → ℕ → KernelResult ℕ
read_u16 = read_le 2

abbrev pub read_u32 : List ℕ → ℕ → KernelResult ℕ
read_u32 = read_le 4

abbrev pub read_u64 : List ℕ → ℕ → KernelResult ℕ
read_u64 = read_le 8

pub record ElfHeader : Type 0 where
  pub class : ℕ
  pub endianness : ℕ
  pub elf_type : ℕ
  pub entry : ℕ
  pub program_header_offset : ℕ
  pub program_header_size : ℕ
  pub program_header_num : ℕ

-- `ElfHeader::parse`
unfoldable pub parse_elf_header : List ℕ → KernelResult ElfHeader
unfolding text_eq read_le
parse_elf_header image =
    if ltb (length image) 64 || not (text_eq (take 4 image) (127 ∷ 69 ∷ 76 ∷ 70 ∷ []))
    then err Errno.enoexec
    else (read_u16 image 16 >>= λ elf_type. read_u64 image 24 >>= λ entry.
        read_u64 image 32 >>= λ program_header_offset. read_u16 image 54 >>= λ program_header_size.
        read_u16 image 56 >>= λ program_header_num. ok (record {
          class = get_or image 4 0;
          endianness = get_or image 5 0;
          elf_type = elf_type;
          entry = entry;
          program_header_offset = program_header_offset;
          program_header_size = program_header_size;
          program_header_num = program_header_num;
        }))

pub record ProgramHeader : Type 0 where
  pub segment_type : ℕ
  pub flags : ℕ
  pub offset : ℕ
  pub vaddr : ℕ
  pub file_size : ℕ
  pub mem_size : ℕ

-- `ProgramHeader::parse`
unfoldable pub parse_program_header : List ℕ → ℕ → KernelResult ProgramHeader
unfolding read_le
parse_program_header image offset =
    if ltb (length image) (wrapping_add offset 56)
    then err Errno.enoexec
    else (read_u32 image offset >>= λ segment_type. read_u32 image (offset + 4) >>= λ flags.
        read_u64 image (offset + 8) >>= λ file_offset. read_u64 image (offset + 16) >>= λ vaddr.
        read_u64 image (offset + 32) >>= λ file_size. read_u64 image (offset + 40) >>= λ mem_size.
        ok (record {
          segment_type = segment_type;
          flags = flags;
          offset = file_offset;
          vaddr = vaddr;
          file_size = file_size;
          mem_size = mem_size;
        }))

-- Whether the program headers do not lie in the segment.
abbrev passes_over : ℕ → ProgramHeader → ℕ → Bool
passes_over phoff ph file_end = ltb phoff ph.offset || leb file_end phoff

-- The loop of `find_phdr_vaddr`, over the headers that are left.
unfoldable phdr_loop : ℕ → ElfHeader → List ℕ → ℕ → KernelResult ℕ
unfolding parse_program_header
phdr_loop zero header image index = ok 0
phdr_loop (suc left) header image index =
    let phoff = header.program_header_offset in
    parse_program_header image (wrapping_add phoff (index * header.program_header_size % usize_mod))
    >>= λ ph. elim (not (ph.segment_type == 1) || ph.file_size == 0) [
      | true ↦ phdr_loop left header image (suc index)
      | false ↦ ok_or (checked_add ph.offset ph.file_size) Errno.enoexec >>= λ file_end.
          elim (passes_over phoff ph file_end) [
            | true ↦ phdr_loop left header image (suc index)
            | false ↦ ok_or (checked_add ph.vaddr (phoff - ph.offset)) Errno.enoexec
          ]
    ]

unfoldable pub find_phdr_vaddr : ElfHeader → List ℕ → KernelResult ℕ
unfolding phdr_loop
find_phdr_vaddr header image = phdr_loop header.program_header_num header image 0

abbrev bit_to : ℕ → ℕ → ℕ → ℕ
bit_to flags bit prot = if flags / bit % 2 == 1 then prot else 0

-- The bits 4, 2 and 1 of an ELF segment are read, write and execute.
unfoldable pub elf_flags_to_prot : ℕ → ℕ
elf_flags_to_prot flags =
    let prot = bit_to flags 4 1 + bit_to flags 2 2 + bit_to flags 1 4 in
    if prot == 0 then default_prot else prot
