-- ===== src/Vfs/Tree/Nodes/Depth.antt =====
-- crates/vfs/src/lib.rs: `ensure_memory_dir` and `create_node` call each other for shorter and
-- shorter paths.
use whuse.Prelude.{
  ℕ, zero, suc, ◌+◌, ◌<◌, ◌≤◌, ◌≡◌, ◌≢◌, refl, ap, Bool, ◌∙◌, true, false, ◌||◌, [], ◌∷◌, Option,
  none, some, ◌==◌, if◌then◌else◌, length, KernelResult, ok, err, arith,
}
use whuse.Prelude.Errno
use whuse.Prelude.Text.{Text, text_eq, trim_end, rsplit_once, split_before}
use whuse.Vfs.{NodeKind, FileStat, NodeData, KernelVfs, Outside}
use whuse.Vfs.Paths.{slash, root_path, split_parent, named}
use whuse.Vfs.Tree.{lookup_abs, is_ok}
use whuse.Vfs.Tree.Follow.{external_stat_path}
use whuse.Vfs.Tree.Changes.{Step}
use whuse.Vfs.Tree.Nodes.{
  Ensure, create_under, create_after, with_parent, create_split, create_node_with, has_dir_bit,
  create_known, ensure_below, ensure_split, ensure_memory_dir,
}

length-trim_end : (s : Text) → length (trim_end slash s) ≤ length s
unfolding trim_end
length-trim_end [] = ground arith
length-trim_end (a ∷ s) = ground (arith, length-trim_end s)

rsplit_once-length :
    (s before after : Text)
    → rsplit_once slash s ≡ some (before, after)
    → length s ≡ suc (length before + length after)
unfolding rsplit_once
rsplit_once-length [] before after h = absurd (ground arith)
rsplit_once-length (c ∷ s) before after h = of (rsplit_once slash s) (rsplit_once-length s) h
  where
    of :
        (o : Option (Text × Text))
        → ((b a : Text) → o ≡ some (b, a) → length s ≡ suc (length b + length a))
        → split_before slash c s o ≡ some (before, after)
        → suc (length s) ≡ suc (length before + length after)
    of none e k = ground arith
    of (some (b, a)) e k = ground (arith, e b a refl)

-- The parent of a path is shorter.
split_parent-length :
    (path : Text) (p : Text × Text) → split_parent path ≡ ok p → length p.0 < length path
split_parent-length path p h =
    of (rsplit_once slash (trim_end slash path)) refl (unfold split_parent in h)
  where
    of :
        (o : Option (Text × Text))
        → rsplit_once slash (trim_end slash path) ≡ o
        → named o ≡ ok p
        → length p.0 < length path
    of none e k = absurd (ground arith)
    of (some (before, [])) e k = absurd (ground arith)
    of (some ([], c ∷ name)) e k =
        ground
          (arith, length-trim_end path, rsplit_once-length (trim_end slash path) [] (c ∷ name) e)
    of (some (b ∷ before, c ∷ name)) e k = ground (
      arith,
      length-trim_end path,
      rsplit_once-length (trim_end slash path) (b ∷ before) (c ∷ name) e,
    )

-- A call that returns.
abbrev pub Gives : Option (Step (Unit {0})) → Type 0
Gives o = (r : Step (Unit {0})) × (o ≡ some r)

pub none≢some : {r : Step (Unit {0})} → none ≢ some r
none≢some h = ground arith

-- What a call that returns leaves and returns.
abbrev pub result : (o : Option (Step (Unit {0}))) → Gives o → Step (Unit {0})
result none (r, e) = absurd (none≢some e)
result (some r) h = r

-- Two calls that return the same.
abbrev Both : Option (Step (Unit {0})) → Option (Step (Unit {0})) → Type 0
Both o p = (r : Step (Unit {0})) × (o ≡ some r) × (p ≡ some r)

-- Two versions of `ensure_memory_dir` that return the same on shorter paths.
abbrev Agree : Ensure → Ensure → Text → Type 0
Agree f g path =
    (vfs : KernelVfs) (below : Text) → length below < length path → Both (f vfs below) (g vfs below)

where_true-Both :
    (b : Bool) (o q : Option (Step (Unit {0}))) (r : Step (Unit {0}))
    → Both o q
    → Both (elim b [ true ↦ o | false ↦ some r ]) (elim b [ true ↦ q | false ↦ some r ])
where_true-Both true o q r h = h
where_true-Both false o q r h = (r, refl, refl)

where_false-Both :
    (b : Bool) (o q : Option (Step (Unit {0}))) (r : Step (Unit {0}))
    → Both o q
    → Both (elim b [ true ↦ some r | false ↦ o ]) (elim b [ true ↦ some r | false ↦ q ])
where_false-Both true o q r h = (r, refl, refl)
where_false-Both false o q r h = h

if_false-Both :
    (b : Bool) (o q : Option (Step (Unit {0}))) (r : Step (Unit {0}))
    → Both o q
    → Both (if b then some r else o) (if b then some r else q)
if_false-Both true o q r h = (r, refl, refl)
if_false-Both false o q r h = h

module _ (f g : Ensure) where
  with_parent-Both :
      (vfs : KernelVfs) (above : Text) (r : KernelResult ℕ)
      → Both (f vfs above) (g vfs above)
      → Both (with_parent f vfs above r) (with_parent g vfs above r)
  with_parent-Both vfs above (ok id) same = ((vfs, ok tt), refl, refl)
  with_parent-Both vfs above (err e) same =
      where_true-Both (e == Errno.enoent) (f vfs above) (g vfs above) (vfs, err e) same

  create_after-Both :
      (path : Text) (p : Text × Text) (kind : NodeKind) (contents : Option NodeData)
      (o q : Option (Step (Unit {0})))
      → Both o q
      → Both (create_after path p kind contents o) (create_after path p kind contents q)
  create_after-Both path p kind contents o q (r, e, h) = (
    create_under path p kind contents r,
    ap (create_after path p kind contents) e,
    ap (create_after path p kind contents) h,
  )

  create_split-Both :
      (vfs : KernelVfs) (path : Text) (kind : NodeKind) (contents : Option NodeData)
      (r : KernelResult (Text × Text))
      → split_parent path ≡ r
      → Agree f g path
      → Both (create_split f vfs path kind contents r) (create_split g vfs path kind contents r)
  create_split-Both vfs path kind contents (err e) h agree = ((vfs, err e), refl, refl)
  create_split-Both vfs path kind contents (ok p) h agree =
      create_after-Both path p kind contents (with_parent f vfs p.0 (lookup_abs vfs p.0))
        (with_parent g vfs p.0 (lookup_abs vfs p.0))
        (with_parent-Both vfs p.0 (lookup_abs vfs p.0)
          (agree vfs p.0 (split_parent-length path p h)))

  create_node_with-Both :
      (vfs : KernelVfs) (path : Text) (kind : NodeKind) (contents : Option NodeData)
      → Agree f g path
      → Both (create_node_with f vfs path kind contents) (create_node_with g vfs path kind contents)
  unfolding create_node_with
  create_node_with-Both vfs path kind contents agree =
      if_false-Both (text_eq path root_path)
        (create_split f vfs path kind contents (split_parent path))
        (create_split g vfs path kind contents (split_parent path)) (vfs, err Errno.eexist)
        (create_split-Both vfs path kind contents (split_parent path) refl agree)

  create_known-Both :
      (vfs : KernelVfs) (path : Text) (r : KernelResult (Option FileStat))
      → Agree f g path
      → Both (create_known f vfs path r) (create_known g vfs path r)
  create_known-Both vfs path (err e) agree = ((vfs, err e), refl, refl)
  create_known-Both vfs path (ok none) agree = ((vfs, err Errno.enoent), refl, refl)
  create_known-Both vfs path (ok (some found)) agree =
      where_true-Both (has_dir_bit found.mode) (create_node_with f vfs path NodeKind.directory none)
        (create_node_with g vfs path NodeKind.directory none) (vfs, err Errno.enotdir)
        (create_node_with-Both vfs path NodeKind.directory none agree)

  ensure_below-Both :
      (outside : Outside) (path : Text) (o q : Option (Step (Unit {0})))
      → Both o q
      → Agree f g path
      → Both (ensure_below f outside path o) (ensure_below g outside path q)
  ensure_below-Both outside path o q ((vfs, err e), h, k) agree =
      ((vfs, err e), ap (ensure_below f outside path) h, ap (ensure_below g outside path) k)
  ensure_below-Both outside path o q ((vfs, ok done), h, k) agree =
      let (r, there, same) =
        create_known-Both vfs path (external_stat_path outside vfs path) agree in
      (r, ap (ensure_below f outside path) h ∙ there, ap (ensure_below g outside path) k ∙ same)

  ensure_split-Both :
      (outside : Outside) (vfs : KernelVfs) (path : Text) (r : KernelResult (Text × Text))
      → split_parent path ≡ r
      → Agree f g path
      → Both (ensure_split f outside vfs path r) (ensure_split g outside vfs path r)
  ensure_split-Both outside vfs path (err e) h agree = ((vfs, err e), refl, refl)
  ensure_split-Both outside vfs path (ok p) h agree =
      ensure_below-Both outside path (f vfs p.0) (g vfs p.0)
        (agree vfs p.0 (split_parent-length path p h)) agree

-- `ensure_memory_dir` returns, and returns the same whatever the fuel, if this is more than the
-- length of the path.
pub ensure_memory_dir_fuel :
    (fuel more : ℕ) (outside : Outside) (vfs : KernelVfs) (path : Text)
    → length path < fuel
    → length path < more
    → (r : Step (Unit {0})) × (ensure_memory_dir fuel outside vfs path ≡ some r)
      × (ensure_memory_dir more outside vfs path ≡ some r)
unfolding ensure_memory_dir
ensure_memory_dir_fuel zero more outside vfs path h k = absurd (ground arith)
ensure_memory_dir_fuel (suc fuel) zero outside vfs path h k = absurd (ground arith)
ensure_memory_dir_fuel (suc fuel) (suc more) outside vfs path h k =
    let below =
      ensure_split-Both (ensure_memory_dir fuel outside) (ensure_memory_dir more outside) outside
        vfs path (split_parent path) refl
        (λ v above shorter.
          ensure_memory_dir_fuel fuel more outside v above (ground arith) (ground arith)) in
    where_false-Both (text_eq path root_path || is_ok (lookup_abs vfs path))
      (ensure_split (ensure_memory_dir fuel outside) outside vfs path (split_parent path))
      (ensure_split (ensure_memory_dir more outside) outside vfs path (split_parent path))
      (vfs, ok tt) below

-- So `create_node` returns, too.
pub create_node_with-Gives :
    (outside : Outside) (vfs : KernelVfs) (path : Text) (kind : NodeKind)
    (contents : Option NodeData)
    → Gives (create_node_with (ensure_memory_dir (length path) outside) vfs path kind contents)
create_node_with-Gives outside vfs path kind contents =
    let (r, e, same) =
      create_node_with-Both (ensure_memory_dir (length path) outside)
        (ensure_memory_dir (length path) outside) vfs path kind contents
        (λ v below shorter.
          ensure_memory_dir_fuel (length path) (length path) outside v below shorter shorter) in
    (r, e)
