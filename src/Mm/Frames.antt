-- ===== src/Mm/Frames.antt =====
-- crates/mm/src/lib.rs: the bump allocator of page frames and `MemoryManager`.
use whuse.Prelude.{
  ℕ, ◌+◌, ◌-◌, ◌≤◌, ◌<◌, ◌≡◌, ◌⊎◌, false, List, Option, none, some, arith, ltb, if◌then◌else◌, find,
  KernelResult, ok_or,
}
use whuse.Prelude.Words.{usize_mod, wrapping_add, checked_add}
use whuse.Prelude.Errno
use whuse.Mm.{MemoryRegion, page_size}

pub record FrameAllocator : Type 0 where
  pub start : ℕ
  pub limit : ℕ
  pub next : ℕ

abbrev no_region : MemoryRegion
no_region = record { start = 0; size = 0; usable = false }

abbrev or_else : Option MemoryRegion → MemoryRegion
or_else none = no_region
or_else (some r) = r

unfoldable pub from_regions : List MemoryRegion → FrameAllocator
from_regions regions =
    let usable = or_else (find (λ r. r.usable) regions) in
    record {
      start = usable.start;
      limit = wrapping_add usable.start usable.size;
      next = usable.start;
    }

unfoldable pub alloc_page : FrameAllocator → FrameAllocator × Option ℕ
alloc_page a = elim (checked_add a.next page_size) [
  | none ↦ (a, none)
  | some next ↦ if ltb a.limit next then (a, none) else (record a { next = next }, some a.next)
]

-- A freed page is not reused.
unfoldable pub dealloc_page : FrameAllocator → ℕ → FrameAllocator
dealloc_page a page = a

pub used_bytes : FrameAllocator → ℕ
used_bytes a = a.next - a.start

-- `MemoryManager::alloc_page`; the manager is its allocator.
pub manager_alloc_page : FrameAllocator → FrameAllocator × KernelResult ℕ
unfolding alloc_page
manager_alloc_page a = let (b, page) = alloc_page a in (b, ok_or page Errno.enomem)

pub record IsValid (a : FrameAllocator) : Type 0 where
  pub floor : a.start ≤ a.next
  pub ceiling : a.next ≤ a.limit
  pub fits : a.limit < usize_mod

-- A page that is handed out lies between the used memory and the limit, and the used memory grows
-- by that page; nothing is handed out only where no whole page is left.
pub alloc_page_lem :
    (a : FrameAllocator)
    → IsValid a
    → IsValid (alloc_page a).0
      × (((alloc_page a).1 ≡ none) × ((alloc_page a).0 ≡ a) × (a.limit < a.next + page_size)
          ⊎ ((alloc_page a).1 ≡ some a.next)
            × (a.next + page_size ≤ a.limit)
            × (used_bytes (alloc_page a).0 ≡ used_bytes a + page_size))
unfolding alloc_page used_bytes
alloc_page_lem a v = ground arith
