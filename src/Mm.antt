-- ===== src/Mm.antt =====
-- crates/mm/src/lib.rs: the error numbers, constants and data of the memory crate.
pub mod Frames
pub mod Mappings
pub mod Space
pub mod Elf
pub mod Stack
mod Tests
use whuse.Prelude.{ℕ, ◌*◌, ◌^◌, Bool}
use whuse.Prelude.BTreeMap.{BTreeMap}

abbrev pub user_heap_base : ℕ
user_heap_base = 0x4000_0000

abbrev pub user_stack_size : ℕ
user_stack_size = 0x80_000

abbrev pub user_stack_top : ℕ
user_stack_top = 0x7fff_f000

abbrev pub user_mmap_base : ℕ
user_mmap_base = 0x5000_0000

abbrev pub default_prot : ℕ
default_prot = 3

abbrev pub page_size : ℕ
page_size = 4096

-- `hal_api::MemoryRegion`
pub record MemoryRegion : Type 0 where
  pub start : ℕ
  pub size : ℕ
  pub usable : Bool

pub record MappingArea : Type 0 where
  pub start : ℕ
  pub len : ℕ
  pub prot : ℕ

-- `OwnedFramesInner`
pub record OwnedFrames : Type 0 where
  pub phys_base : ℕ
  pub num_pages : ℕ

-- In `shared` the first field names the byte vector that the `Arc` holds.
pub data SegmentStorage : Type 0 where
  owned : OwnedFrames → SegmentStorage
  shared : (bytes ptr : ℕ) → SegmentStorage
  host : (ptr len : ℕ) → SegmentStorage

pub record Segment : Type 0 where
  pub area : MappingArea
  pub storage : SegmentStorage

abbrev pub Mappings : Type 0
Mappings = BTreeMap Segment
