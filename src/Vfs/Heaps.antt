-- ===== src/Vfs/Heaps.antt =====
-- crates/vfs/src/lib.rs: the heap after a write to a node.
use whuse.Prelude.{ℕ, ◌≡◌, ◌==◌, if◌then◌else◌, arith}
use whuse.Prelude.BTreeMap.{get-insert}
use whuse.Vfs.{NodeData, Heap, node_at, set_contents}

pub node_at-set_contents :
    (id j : ℕ) (contents : NodeData) (heap : Heap)
    → node_at (set_contents id contents heap) j
      ≡ (if id == j then record (node_at heap id) { contents = contents } else node_at heap j)
unfolding node_at set_contents
node_at-set_contents id j contents heap =
    ground (arith, get-insert id j (record (node_at heap id) { contents = contents }) heap.nodes)

pub contents-set_contents :
    (id : ℕ) (contents : NodeData) (heap : Heap)
    → (node_at (set_contents id contents heap) id).contents ≡ contents
contents-set_contents id contents heap = ground (arith, node_at-set_contents id id contents heap)
