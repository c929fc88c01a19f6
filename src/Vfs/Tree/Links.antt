-- ===== src/Vfs/Tree/Links.antt =====
-- crates/vfs/src/lib.rs: which paths name which nodes after `unlink` and `link`.
use whuse.Prelude.{
  ℕ, not, false, [], ◌∷◌, arith, ◌≡◌, refl, sym, ap, ◌∙◌, none, some, if◌then◌else◌, KernelResult,
  ok, err, ok_or, ok_or-ok, ◌>>=◌, err≢ok, bind_ok, guard_ok,
}
use whuse.Prelude.Errno
use whuse.Prelude.Text.{Text, is_empty}
use whuse.Prelude.TextMap
use whuse.Prelude.TextMap.{
  TextMap, get-insert, get-insert_same, get-remove, get-remove_same, get-contains_key,
}
use whuse.Vfs.{NodeKind, Node, directory, KernelVfs, node_at, set_contents}
use whuse.Vfs.Paths.{normalize_path, split_parent}
use whuse.Vfs.Tree.{lookup_abs, directory_at}
use whuse.Vfs.Tree.Changes.{
  set_entries, forget_path, is_full_directory, without, entries_without, with_entry, entries_with,
  new_entries, unlinked, unlink, linked, link,
}
use whuse.Vfs.Tree.Places.{
  directory_at-ok, Lies, without_entry, lookup_abs-remove, lookup_abs-insert, lookup_abs-Lies,
  heap-forget_path,
}

lies :
    (vfs : KernelVfs) (absolute before name : Text) (j parent : ℕ) (entries : TextMap ℕ)
    → split_parent absolute ≡ ok (before, name)
    → lookup_abs vfs before ≡ ok j
    → (node_at vfs.heap j).contents ≡ directory entries
    → j ≡ parent
    → Lies vfs absolute parent entries name
lies vfs absolute before name j parent entries parts found at e = record {
  before = before;
  parts = parts;
  found = found ∙ ap ok e;
  at = ap (λ i. (node_at vfs.heap i).contents) (sym e) ∙ at;
}

-- A node that is no directory, or one without entries.
abbrev pub IsRemovable : Node → Type 0
IsRemovable node =
    (children : TextMap ℕ)
    → node.kind ≡ NodeKind.directory
    → node.contents ≡ directory children
    → children ≡ []

is_empty-[] : (children : TextMap ℕ) → not (is_empty children) ≡ false → children ≡ []
is_empty-[] [] h = refl
is_empty-[] (c ∷ children) h = absurd (ground arith)

is_full_directory-IsRemovable : (node : Node) → is_full_directory node ≡ false → IsRemovable node
is_full_directory-IsRemovable node h children kind contents =
    is_empty-[] children (sym (rw (kind, contents) refl) ∙ h)

entries_without-Lies :
    (vfs : KernelVfs) (absolute : Text) (parent : ℕ) (new : TextMap ℕ)
    → entries_without vfs absolute ≡ ok (parent, new)
    → (entries : TextMap ℕ) × (name : Text) × Lies vfs absolute parent entries name
      × (id : ℕ) × (TextMap.get name entries ≡ some id)
      × IsRemovable (node_at vfs.heap id)
      × (new ≡ TextMap.remove name entries)
unfolding entries_without
entries_without-Lies vfs absolute parent new h =
    let ((before, name), parts, h1) =
      bind_ok (split_parent absolute) (λ p. directory_at vfs p.0 >>= without vfs p.1) h in
    let ((j, entries), found, h2) = bind_ok (directory_at vfs before) (without vfs name) h1 in
    let (id, there, h3) =
      bind_ok (ok_or (TextMap.get name entries) Errno.enoent)
        (λ id.
          if is_full_directory (node_at vfs.heap id)
          then err Errno.enotempty
          else ok (j, TextMap.remove name entries))
        h2 in
    let (b, e) = guard_ok (is_full_directory (node_at vfs.heap id)) Errno.enotempty h3 in
    let (l, at) = directory_at-ok vfs before j entries found in
    (
      entries,
      name,
      lies vfs absolute before name j parent entries parts l at (ap (λ r. r.0) e),
      id,
      ok_or-ok (TextMap.get name entries) Errno.enoent there,
      is_full_directory-IsRemovable (node_at vfs.heap id) b,
      sym (ap (λ r. r.1) e),
    )

-- The path named a node, no directory with entries, in a directory under a name. In the file system
-- `after` it names nothing; nor does a path that leads through this entry, and what every other path
-- names stays.
abbrev pub Unlinked : KernelVfs → Text → KernelVfs → Type 0
Unlinked vfs absolute after =
    (parent : ℕ) × (entries : TextMap ℕ) × (name : Text) × (id : ℕ) × Lies vfs absolute parent
      entries name
    × (lookup_abs vfs absolute ≡ ok id)
    × IsRemovable (node_at vfs.heap id)
    × (lookup_abs after absolute ≡ err Errno.enoent)
    × ((other : Text) → lookup_abs after other ≡ without_entry vfs parent name other)

-- A call of `unlink` that succeeds was given a path that named a node, no directory with entries, in
-- a directory under a name. After it the path names nothing; nor does a path that leads through this
-- entry, and what every other path names stays.
pub unlink-lookup_abs :
    (vfs : KernelVfs) (cwd path : Text)
    → (unlink vfs cwd path).1 ≡ ok tt
    → Unlinked vfs (normalize_path cwd path) (unlink vfs cwd path).0
unfolding unlink
unlink-lookup_abs vfs cwd path h = gone (entries_without vfs (normalize_path cwd path)) refl h
  where
    gone :
        (r : KernelResult (ℕ × TextMap ℕ))
        → entries_without vfs (normalize_path cwd path) ≡ r
        → (unlinked vfs (normalize_path cwd path) r).1 ≡ ok tt
        → Unlinked vfs (normalize_path cwd path) (unlinked vfs (normalize_path cwd path) r).0
    gone (err e) found k = absurd (err≢ok k)
    gone (ok (parent, new)) found k =
        let (entries, name, l, id, there, removable, e) =
          entries_without-Lies vfs (normalize_path cwd path) parent new found in
        let (same_heap, same_root) =
          heap-forget_path (normalize_path cwd path) (set_entries parent new vfs) in
        let after = forget_path (normalize_path cwd path) (set_entries parent new vfs) in
        let (lost, stays) = lookup_abs-remove vfs after cwd path name parent entries l (record {
          heap = same_heap ∙ ap (λ es. set_contents parent (directory es) vfs.heap) e;
          root = same_root;
        }) in
        let named = lookup_abs-Lies vfs cwd path parent entries name id l there in
        (parent, entries, name, id, l, named, removable, lost, stays)

pub entries_with-Lies :
    (vfs : KernelVfs) (absolute before name : Text) (id parent : ℕ) (new : TextMap ℕ)
    → split_parent absolute ≡ ok (before, name)
    → entries_with vfs (before, name) id ≡ ok (parent, new)
    → (entries : TextMap ℕ) × Lies vfs absolute parent entries name
      × (TextMap.get name entries ≡ none)
      × (new ≡ TextMap.insert name id entries)
unfolding entries_with
entries_with-Lies vfs absolute before name id parent new parts h =
    let ((j, entries), found, h1) = bind_ok (directory_at vfs before) (with_entry name id) h in
    let (free, e) = guard_ok (TextMap.contains_key name entries) Errno.eexist h1 in
    let (l, at) = directory_at-ok vfs before j entries found in
    (
      entries,
      lies vfs absolute before name j parent entries parts l at (ap (λ r. r.0) e),
      get-contains_key name entries free,
      sym (ap (λ r. r.1) e),
    )

new_entries-Lies :
    (vfs : KernelVfs) (absolute : Text) (id parent : ℕ) (new : TextMap ℕ)
    → new_entries vfs absolute id ≡ ok (parent, new)
    → (entries : TextMap ℕ) × (name : Text) × Lies vfs absolute parent entries name
      × (TextMap.get name entries ≡ none)
      × (new ≡ TextMap.insert name id entries)
unfolding new_entries
new_entries-Lies vfs absolute id parent new h =
    let ((before, name), parts, h1) =
      bind_ok (split_parent absolute) (λ p. entries_with vfs p id) h in
    let (entries, l, free, e) = entries_with-Lies vfs absolute before name id parent new parts h1 in
    (entries, name, l, free, e)

linked-lookup_abs :
    (vfs : KernelVfs) (cwd path old : Text) (id : ℕ) (r : KernelResult (ℕ × TextMap ℕ))
    → ((parent : ℕ) (new : TextMap ℕ)
        → r ≡ ok (parent, new)
        → (entries : TextMap ℕ) × (name : Text) × Lies vfs
            (normalize_path cwd path)
            parent
            entries
            name
          × (TextMap.get name entries ≡ none)
          × (new ≡ TextMap.insert name id entries))
    → (linked vfs old (normalize_path cwd path) r).1 ≡ ok tt
    → (lookup_abs (linked vfs old (normalize_path cwd path) r).0 (normalize_path cwd path) ≡ ok id)
      × ((other : Text) (found : ℕ)
          → lookup_abs vfs other ≡ ok found
          → lookup_abs (linked vfs old (normalize_path cwd path) r).0 other ≡ ok found)
linked-lookup_abs vfs cwd path old id (err e) lies k = absurd (err≢ok k)
linked-lookup_abs vfs cwd path old id (ok (parent, new)) lies k =
    let (entries, name, l, free, e) = lies parent new refl in
    lookup_abs-insert vfs (linked vfs old (normalize_path cwd path) (ok (parent, new))).0 cwd path
      name parent id entries l free
      (record { heap = ap (λ es. set_contents parent (directory es) vfs.heap) e; root = refl })

-- After a call of `link` that succeeds, the new path names the node that the old path names, and
-- every path that named a node still names it.
pub link-lookup_abs :
    (vfs : KernelVfs) (cwd old new : Text)
    → (link vfs cwd old new).1 ≡ ok tt
    → (id : ℕ) × (lookup_abs vfs (normalize_path cwd old) ≡ ok id)
      × (lookup_abs (link vfs cwd old new).0 (normalize_path cwd new) ≡ ok id)
      × ((other : Text) (found : ℕ)
          → lookup_abs vfs other ≡ ok found
          → lookup_abs (link vfs cwd old new).0 other ≡ ok found)
unfolding link
link-lookup_abs vfs cwd old new h = from (lookup_abs vfs (normalize_path cwd old)) refl h
  where
    from :
        (r : KernelResult ℕ)
        → lookup_abs vfs (normalize_path cwd old) ≡ r
        → (linked vfs
            (normalize_path cwd old)
            (normalize_path cwd new)
            (r >>= λ id. new_entries vfs (normalize_path cwd new) id)).1
          ≡ ok tt
        → (id : ℕ) × (lookup_abs vfs (normalize_path cwd old) ≡ ok id)
          × (lookup_abs
                (linked vfs
                  (normalize_path cwd old)
                  (normalize_path cwd new)
                  (r >>= λ id. new_entries vfs (normalize_path cwd new) id)).0
                (normalize_path cwd new)
              ≡ ok id)
          × ((other : Text) (found : ℕ)
              → lookup_abs vfs other ≡ ok found
              → lookup_abs
                  (linked vfs
                    (normalize_path cwd old)
                    (normalize_path cwd new)
                    (r >>= λ id. new_entries vfs (normalize_path cwd new) id)).0
                  other
                ≡ ok found)
    from (err n) e k = absurd (err≢ok k)
    from (ok id) e k =
        let (there, others) =
          linked-lookup_abs vfs cwd new (normalize_path cwd old) id
            (new_entries vfs (normalize_path cwd new) id)
            (new_entries-Lies vfs (normalize_path cwd new) id) k in
        (id, e, there, others)
