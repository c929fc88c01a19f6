-- ===== src/Mm/Space/Fork/Tests.antt =====
-- `clone_private` of crates/mm/src/lib.rs at concrete inputs.
use whuse.Prelude.{arith, ◌≡◌, refl, [], ◌∷◌}
use whuse.Mm.{OwnedFrames}
use whuse.Mm.Frames.{from_regions, alloc_page}
use whuse.Mm.Space.Storage.{World, create_owned_storage}
use whuse.Mm.Space.Fork
use whuse.Mm.Space.Fork.{backing, clone_private}
use whuse.Mm.Space.Tests.{machine, space}

backing-clone_private_example :
    backing machine (clone_private machine space).mappings 0x5000_4010
    ≡ backing machine space.mappings 0x5000_4010
backing-clone_private_example =
    Fork.backing-clone_private machine space (omega arith) (refl, (refl, tt)) 0x5000_4010

abbrev fresh : World
fresh = record {
  space = record space { frame_allocator = from_regions machine.memory_regions };
  memory = λ _. 0;
  next_buffer = 1;
}

abbrev later : World
later = (create_owned_storage machine 0x5000_1000 (1 ∷ []) fresh).0

abbrev child : World
child = record later { space = clone_private machine later.space }

abbrev first_frames : OwnedFrames
first_frames = record { phys_base = 0x9000_0000; num_pages = 1 }

abbrev child_frames : OwnedFrames
child_frames = record { phys_base = 0x9000_0000; num_pages = 2 }

clone_private_frames_example : child_frames.phys_base ≡ first_frames.phys_base
unfolding clone_private create_owned_storage from_regions alloc_page
clone_private_frames_example =
    Fork.clone_private_frames machine 0x5000_1000 0x5000_2fff (1 ∷ []) (2 ∷ 3 ∷ []) fresh child
      first_frames child_frames refl refl refl refl
