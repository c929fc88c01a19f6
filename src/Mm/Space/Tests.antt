-- ===== src/Mm/Space/Tests.antt =====
-- Runs of `AddressSpace` in crates/mm/src/lib.rs, and its theorems at concrete inputs.
use whuse.Prelude.{some, ℕ, ◌%◌, ◌≡◌, true, false, [], ◌∷◌, arith}
use whuse.Prelude.Words.{align_up}
use whuse.Mm.{owned, shared, page_size}
use whuse.Mm.Mappings.{overlaps}
use whuse.Mm.Space.{map_fixed_bytes, map_anonymous}
use whuse.Mm.Space.Storage.{Platform, AddressSpace, World}
use whuse.Mm.Space.Mapping.{Maps, map_fixed_bytes-Maps}
use whuse.Mm.Space.Anonymous.{map_anonymous_lem}

abbrev pub machine : Platform
machine = record {
  memory_regions = record { start = 0x9000_0000; size = 0x10_0000; usable = true } ∷ [];
  phys_to_virt = λ p. p;
  can_reserve = λ _. true;
  vec_address = λ name len. 0xa000_0000;
}

-- One page with rights 3, and one of a shared vector with rights 1.
abbrev pub space : AddressSpace
space = record {
  mappings =
      (
        0x5000_0000,
        record {
          area = record { start = 0x5000_0000; len = 0x1000; prot = 3 };
          storage = owned (record { phys_base = 0x9000_0000; num_pages = 1 });
        },
      )
      ∷ (
        0x5000_4000,
        record {
          area = record { start = 0x5000_4000; len = 0x1000; prot = 1 };
          storage = shared 0 0xa000_0000;
        },
      )
      ∷ [];
  program_break = 0x4000_0000;
  next_mapping_base = 0x5000_0000;
  dirty = false;
  frame_allocator = record { start = 0x9000_0000; limit = 0x9010_0000; next = 0x9000_1000 };
}

abbrev pub world : World
world = record { space = space; memory = λ _. 0; next_buffer = 1 }

map_anonymous_lem_example :
    (g : ℕ) × (overlaps space.mappings g (align_up 0x1800 page_size) ≡ false)
    × (g % page_size ≡ 0)
    × Maps world
        (record { start = g; len = align_up 0x1800 page_size; prot = 3 })
        (some g)
        (map_anonymous machine 0x1800 3 world)
map_anonymous_lem_example =
    map_anonymous_lem machine 0x1800 3 world (omega arith) (omega arith) (omega arith) (omega arith)
      (omega arith)

map_fixed_bytes-Maps_example :
    Maps world
      (record { start = 0x5000_0800; len = 0x1000; prot = 5 })
      tt
      (map_fixed_bytes machine 0x5000_0800 (1 ∷ 2 ∷ []) 0x1000 5 world)
map_fixed_bytes-Maps_example =
    map_fixed_bytes-Maps machine 0x5000_0800 (1 ∷ 2 ∷ []) 0x1000 5 world (omega arith) (omega arith)
      (omega arith) (omega arith)
