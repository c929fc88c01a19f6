-- ===== src/Vfs/Tests.antt =====
-- crates/vfs/src/lib.rs at concrete inputs.
use whuse.Prelude.{
  ℕ, ◌≡◌, ◌↔◌, refl, Bool, false, List, [], ◌∷◌, length, get_or, All, some, ok, err, arith,
}
use whuse.Prelude.Errno
use whuse.Prelude.Integers.{negsuc}
use whuse.Prelude.Text.{Text, bytes, text_eq, split, starts_with, join, rsplit_once, trim_end}
use whuse.Prelude.TextMap
use whuse.Prelude.TextMap.{TextMap}
use whuse.Prelude.BTreeMap.{get, insert}
use whuse.Vfs.{
  NodeKind, NodeData, directory, file, pipe, PipeEnd, no_end, read_end, write_end, FileHandle, Node,
  Heap, KernelVfs, Outside, node_at,
}
use whuse.Vfs.Paths.{normalize_path}
use whuse.Vfs.Paths.Resolution.{Resolves, components, spelled}
use whuse.Vfs.Paths.Canonical.{IsName, normalize_path_lem}
use whuse.Vfs.Objects.Reading.{read_object}
use whuse.Vfs.Objects.Writing.{write_object, truncate}
use whuse.Vfs.Objects.Status.{poll_read_ready}
use whuse.Vfs.Pipes.{Call, read, write, adjust, run, Passes, run-Passes}
use whuse.Vfs.Files.{Wrote, write_object-read_object}
use whuse.Vfs.Sizes.{truncate_keeps}
use whuse.Vfs.Polling.{read_object-poll_read_ready}
use whuse.Vfs.Tree.{lookup_abs}
use whuse.Vfs.Tree.Changes.{Step, unlink, link, rename}
use whuse.Vfs.Tree.Links.{Unlinked, unlink-lookup_abs, link-lookup_abs}
use whuse.Vfs.Tree.Renames.{Ends, rename-Ends}
use whuse.Vfs.Tree.Nodes.{ensure_memory_dir}
use whuse.Vfs.Tree.Nodes.Depth.{ensure_memory_dir_fuel}

abbrev pub outside : Outside
outside = record {
  read_range = λ mount path offset len. err Errno.enoent;
  ext4_stat = λ mount path. err Errno.enoent;
  ext4_read_dir = λ mount path. ok [];
  ext4_read_dir_lite = λ mount path. ok [];
  ext4_read_link = λ mount path. err Errno.enoent;
  can_reserve = λ size. Bool.true;
}

abbrev pub node : NodeKind → NodeData → Node
node kind contents = record { name = []; kind = kind; contents = contents }

-- The files "/a" and "/d/b", the directory "/d", and a pipe.
abbrev heap : Heap
heap = record {
  nodes =
      (0, node NodeKind.directory (directory ((97 ∷ [], 1) ∷ (100 ∷ [], 2) ∷ [])))
      ∷ (1, node NodeKind.file (file (1 ∷ 2 ∷ 3 ∷ [])))
      ∷ (2, node NodeKind.directory (directory ((98 ∷ [], 3) ∷ [])))
      ∷ (3, node NodeKind.file (file []))
      ∷ (4, node NodeKind.pipe (pipe (record { buf = 7 ∷ []; readers = 1; writers = 1 })))
      ∷ (5, node NodeKind.pipe (pipe (record { buf = []; readers = 1; writers = 1 })))
      ∷ [];
  channels = [];
  next_node = 6;
  next_channel = 0;
}

abbrev pub tree : KernelVfs
tree = record {
  root = 0;
  mounts = [];
  external_mounts = [];
  external_stat_cache = [];
  external_preloaded = [];
  external_deletions = [];
  mem_modes = [];
  next_pipe_id = 0;
  next_memfd_id = 0;
  next_ephemeral_port = 40000;
  socket_bindings = [];
  raw_sockets = [];
  heap = heap;
}

abbrev pub handle : ℕ → ℕ → PipeEnd → FileHandle
handle id offset end = record { node = id; offset = offset; flags = 2; path = []; pipe_end = end }

normalize_path_lem_example :
    (names : List Text) × (normalize_path (bytes "/tmp") (bytes "../a/./b") ≡ spelled names)
    × All IsName names
    × Resolves (components (bytes "/tmp") (bytes "../a/./b")) names
    × ((other : Text)
        → normalize_path other (normalize_path (bytes "/tmp") (bytes "../a/./b"))
          ≡ normalize_path (bytes "/tmp") (bytes "../a/./b"))
normalize_path_lem_example = normalize_path_lem (bytes "/tmp") (bytes "../a/./b")

abbrev calls : List Call
calls =
    write (handle 0 0 write_end) (8 ∷ 9 ∷ [])
    ∷ adjust (handle 0 0 write_end) (negsuc 0)
    ∷ read (handle 0 0 read_end) 2
    ∷ []

run-Passes_example : Passes outside 4 (7 ∷ []) (run outside 4 calls heap)
unfolding node_at get
run-Passes_example =
    run-Passes outside 4 calls (7 ∷ []) heap
      (record { buf = 7 ∷ []; readers = 1; writers = 1 }, refl, refl)

write_object-read_object_example :
    (new : List ℕ) × ((node_at
        (write_object outside heap (handle 1 2 no_end) (8 ∷ 9 ∷ [])).0
        1).contents
      ≡ file new)
    × Wrote 2 (8 ∷ 9 ∷ []) (1 ∷ 2 ∷ 3 ∷ []) new
    × ((write_object outside heap (handle 1 2 no_end) (8 ∷ 9 ∷ [])).1 ≡ handle 1 4 no_end)
    × ((read_object outside
          (write_object outside heap (handle 1 2 no_end) (8 ∷ 9 ∷ [])).0
          (handle 1 2 no_end)
          2).2
        ≡ ok (8 ∷ 9 ∷ []))
unfolding write_object get
write_object-read_object_example =
    write_object-read_object outside heap (handle 1 2 no_end) (1 ∷ 2 ∷ 3 ∷ []) (8 ∷ 9 ∷ []) 2 refl
      (ground arith) refl

truncate_keeps_example :
    (new : List ℕ) × ((node_at (truncate outside heap (handle 1 2 no_end) 1).0 1).contents
      ≡ file new)
    × (length new ≡ 3)
    × ((k : ℕ) → get_or new k 0 ≡ get_or (1 ∷ 2 ∷ 3 ∷ []) k 0)
unfolding truncate get
truncate_keeps_example =
    truncate_keeps outside heap (handle 1 2 no_end) (1 ∷ 2 ∷ 3 ∷ []) 1 refl refl

read_object-poll_read_ready_example :
    ((read_object outside heap (handle 5 0 read_end) 3).2 ≡ err Errno.eagain)
    ↔ (poll_read_ready heap (handle 5 0 read_end) ≡ false)
unfolding node_at get
read_object-poll_read_ready_example =
    read_object-poll_read_ready outside heap (handle 5 0 read_end) 3 (λ h. ground arith)

unlink-lookup_abs_example :
    Unlinked tree (normalize_path (bytes "/d") (bytes "b")) (unlink tree (bytes "/d") (bytes "b")).0
unfolding unlink rsplit_once trim_end split starts_with text_eq join get TextMap.get
unlink-lookup_abs_example = unlink-lookup_abs tree (bytes "/d") (bytes "b") refl

link-lookup_abs_example :
    (id : ℕ) × (lookup_abs tree (normalize_path (bytes "/") (bytes "a")) ≡ ok id)
    × (lookup_abs
          (link tree (bytes "/") (bytes "a") (bytes "d/c")).0
          (normalize_path (bytes "/") (bytes "d/c"))
        ≡ ok id)
    × ((other : Text) (found : ℕ)
        → lookup_abs tree other ≡ ok found
        → lookup_abs (link tree (bytes "/") (bytes "a") (bytes "d/c")).0 other ≡ ok found)
unfolding link rsplit_once trim_end split starts_with text_eq join get TextMap.get
link-lookup_abs_example = link-lookup_abs tree (bytes "/") (bytes "a") (bytes "d/c") refl

-- The new name is taken, so that the file "/a" is lost.
rename-Ends_example :
    Ends tree
      (normalize_path (bytes "/") (bytes "a"))
      (normalize_path (bytes "/") (bytes "d/b"))
      1
      (rename tree (bytes "/") (bytes "a") (bytes "d/b"))
unfolding lookup_abs normalize_path node_at text_eq split starts_with join get TextMap.get
rename-Ends_example = rename-Ends tree (bytes "/") (bytes "a") (bytes "d/b") 1 refl

rename_taken : (rename tree (bytes "/") (bytes "a") (bytes "d/b")).1 ≡ err Errno.eexist
unfolding rename rsplit_once trim_end split starts_with text_eq join get TextMap.get insert
    TextMap.remove
rename_taken = refl

ensure_memory_dir_fuel_example :
    (r : Step (Unit {0})) × (ensure_memory_dir 9 outside tree (bytes "/d/e") ≡ some r)
    × (ensure_memory_dir 5 outside tree (bytes "/d/e") ≡ some r)
ensure_memory_dir_fuel_example =
    ensure_memory_dir_fuel 9 5 outside tree (bytes "/d/e") (ground arith) (ground arith)
