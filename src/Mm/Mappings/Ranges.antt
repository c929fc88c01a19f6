-- ===== src/Mm/Mappings/Ranges.antt =====
-- crates/mm/src/lib.rs: what `unmap_range_inner` and `mprotect` do to the rights of every address.
use whuse.Prelude.{
  ℕ, ◌+◌, ◌≤◌, ◌<◌, ◌≡◌, Bool, false, ◌⊎◌, Option, none, some, arith, if◌then◌else◌, ok, err, [],
  ◌↔◌,
}
use whuse.Prelude.Errno
use whuse.Prelude.Words.{usize_mod, align_up}
use whuse.Prelude.BTreeMap.{keys}
use whuse.Mm.{Mappings, page_size}
use whuse.Mm.Mappings.{unmap_range_inner, unmap_keys, protect_range}
use whuse.Mm.Mappings.Layout.{Laid, protection_at, protection_at-rights}
use whuse.Mm.Mappings.Cut.{cut, cut-Laid, rights-cut, relabel, within}
use whuse.Mm.Mappings.Cut.Loops.{unmap_keys-cut, protect_keys-cut}

protection_at-cut :
    (mid : Option ℕ) (start end a : ℕ) (m : Mappings)
    → start < end
    → Laid 0 m
    → a + 1 < usize_mod
    → protection_at (cut mid start end m) a
      ≡ (if within start end a then relabel mid (protection_at m a) else protection_at m a)
protection_at-cut mid start end a m h l fits =
    rw
      (
        protection_at-rights a 0 (cut mid start end m) (cut-Laid mid start end 0 m h l) fits,
        protection_at-rights a 0 m l fits,
      )
      (rights-cut mid start end a 0 m h l)

pub unmap_range_inner-cut :
    (m : Mappings) (start len : ℕ)
    → Laid 0 m
    → 0 < len
    → start + len < usize_mod
    → (changed : Bool) × (unmap_range_inner m start len
        ≡ ok (cut none start (start + len) m, changed))
unfolding unmap_range_inner
unmap_range_inner-cut m start len l p fits = (
  (unmap_keys start (start + len) (keys m) m false).1,
  ground (arith, unmap_keys-cut start (start + len) 0 [] m false (omega arith) tt l),
)

-- Unmapping a range of a well laid map succeeds; the map stays well laid, no address of the range
-- has any rights afterwards, and every other address keeps its own.
pub unmap_range_inner_rights :
    (m : Mappings) (start len : ℕ)
    → Laid 0 m
    → 0 < len
    → start + len < usize_mod
    → (r : Mappings × Bool) × (unmap_range_inner m start len ≡ ok r)
      × Laid 0 r.0
      × ((a : ℕ)
          → a + 1 < usize_mod
          → protection_at r.0 a
            ≡ (if within start (start + len) a then none else protection_at m a))
unmap_range_inner_rights m start len l p fits =
    let (changed, e) = unmap_range_inner-cut m start len l p fits in
    (
      (cut none start (start + len) m, changed),
      e,
      cut-Laid none start (start + len) 0 m (omega arith) l,
      λ a. protection_at-cut none start (start + len) a m (omega arith) l,
    )

-- It fails with EINVAL exactly on an empty range and on one that passes the top of the address range.
pub unmap_range_inner_error :
    (m : Mappings) (start len : ℕ)
    → (unmap_range_inner m start len ≡ err Errno.einval) ↔ ((len ≡ 0) ⊎ (usize_mod ≤ start + len))
unfolding unmap_range_inner
unmap_range_inner_error m start len = ground arith

-- `mprotect` of a range whose rounded length fits succeeds; the map stays well laid, the addresses
-- of the rounded range that were mapped have the new rights and no other is mapped there, and every
-- other address keeps its rights.
pub protect_range_rights :
    (m : Mappings) (addr len prot : ℕ)
    → Laid 0 m
    → 0 < len
    → addr + len + page_size < usize_mod
    → (r : Mappings) × (protect_range m addr len prot ≡ ok r)
      × Laid 0 r
      × ((a : ℕ)
          → a + 1 < usize_mod
          → protection_at r a ≡ (
              if within addr (addr + align_up len page_size) a
              then relabel (some prot) (protection_at m a)
              else protection_at m a))
unfolding protect_range
protect_range_rights m addr len prot l p fits = (
  cut (some prot) addr (addr + align_up len page_size) m,
  ground
      (arith, protect_keys-cut addr (addr + align_up len page_size) prot 0 [] m (omega arith) tt l),
  cut-Laid (some prot) addr _ 0 m (omega arith) l,
  λ a. protection_at-cut (some prot) addr _ a m (omega arith) l,
)
