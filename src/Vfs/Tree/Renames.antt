-- ===== src/Vfs/Tree/Renames.antt =====
-- crates/vfs/src/lib.rs: what `rename` leaves, whether it succeeds or not.
use whuse.Prelude.{
  ℕ, ◌≡◌, refl, sym, ap, subst, ◌∙◌, Option, none, some, arith, KernelResult, ok, err, ◌>>=◌,
  bind_ok,
}
use whuse.Prelude.Errno
use whuse.Prelude.Text.{Text, rsplit_once, trim_end}
use whuse.Prelude.TextMap
use whuse.Prelude.TextMap.{TextMap}
use whuse.Vfs.{directory, KernelVfs, node_at, set_contents}
use whuse.Vfs.Paths.{slash, normalize_path, split_parent, named}
use whuse.Vfs.Tree.{entry_of, lookup_abs, directory_at}
use whuse.Vfs.Tree.Changes.{
  Step, set_entries, entries_with, taken_out, put_in, moved, renamed, rename,
}
use whuse.Vfs.Tree.Walks.{lookup_abs_split}
use whuse.Vfs.Tree.Places.{Lies, entry_of-ok, lookup_abs-remove, lookup_abs-insert}
use whuse.Vfs.Tree.Links.{entries_with-Lies}

split_parent_error : (path : Text) (e : ℕ) → split_parent path ≡ err e → e ≡ Errno.einval
split_parent_error path e h =
    of (rsplit_once slash (trim_end slash path)) (unfold split_parent in h)
  where
    of : (o : Option (Text × Text)) → named o ≡ err e → e ≡ Errno.einval
    of none k = ground arith
    of (some (before, name)) k = ground arith

-- What `rename` leaves of a file that the old path names: the file under the new name, everything as
-- it was, or the loss of the old name.
pub data Ends (vfs : KernelVfs) (old new : Text) (id : ℕ) : Step (Unit {0}) → Type 0 where
  renames : (after : KernelVfs) → lookup_abs after new ≡ ok id → Ends vfs old new id (after, ok tt)
  refuses : Ends vfs old new id (vfs, err Errno.einval)
  loses :
      (after : KernelVfs) (e : ℕ)
      → lookup_abs after old ≡ err Errno.enoent
      → Ends vfs old new id (after, err e)

taken_out-ok :
    (vfs : KernelVfs) (before name : Text) (parent id : ℕ) (entries : TextMap ℕ)
    → lookup_abs vfs before ≡ ok parent
    → (node_at vfs.heap parent).contents ≡ directory entries
    → TextMap.get name entries ≡ some id
    → taken_out vfs (before, name) ≡ ok (parent, id, TextMap.remove name entries)
unfolding taken_out directory_at
taken_out-ok vfs before name parent id entries found at there = rw (found, at, there) refl

moved-Ends :
    (vfs left : KernelVfs) (cwd old new : Text) (q : Text × Text) (id : ℕ)
    → split_parent (normalize_path cwd new) ≡ ok q
    → lookup_abs left (normalize_path cwd old) ≡ err Errno.enoent
    → Ends vfs
        (normalize_path cwd old)
        (normalize_path cwd new)
        id
        (moved left (normalize_path cwd old) (normalize_path cwd new) (entries_with left q id))
moved-Ends vfs left cwd old new (before, name) id parts gone =
    of (entries_with left (before, name) id) refl
  where
    of :
        (r : KernelResult (ℕ × TextMap ℕ))
        → entries_with left (before, name) id ≡ r
        → Ends vfs
            (normalize_path cwd old)
            (normalize_path cwd new)
            id
            (moved left (normalize_path cwd old) (normalize_path cwd new) r)
    of (err e) h = loses left e gone
    of (ok (parent, entries)) h =
        let (before_entries, l, free, e) =
          entries_with-Lies left (normalize_path cwd new) before name id parent entries parts h in
        let after =
          (moved left (normalize_path cwd old) (normalize_path cwd new) (ok (parent, entries))).0 in
        renames after
          (lookup_abs-insert left after cwd new name parent id before_entries l free (record {
            heap = ap (λ es. set_contents parent (directory es) left.heap) e;
            root = refl;
          })).0

put_in-Ends :
    (vfs : KernelVfs) (cwd old new : Text) (p q : Text × Text) (id : ℕ)
    → lookup_abs vfs (normalize_path cwd old) ≡ ok id
    → split_parent (normalize_path cwd old) ≡ ok p
    → split_parent (normalize_path cwd new) ≡ ok q
    → Ends vfs
        (normalize_path cwd old)
        (normalize_path cwd new)
        id
        (put_in vfs (normalize_path cwd old) (normalize_path cwd new) q (taken_out vfs p))
put_in-Ends vfs cwd old new (before, name) q id here parts qparts =
    let (parent, found, h) =
      bind_ok (lookup_abs vfs before) (λ i. entry_of (node_at vfs.heap i).contents name)
        (sym (lookup_abs_split cwd old (before, name) parts vfs) ∙ here) in
    let (entries, at, there) = entry_of-ok (node_at vfs.heap parent).contents name id h in
    let left = set_entries parent (TextMap.remove name entries) vfs in
    let l : Lies vfs (normalize_path cwd old) parent entries name = record {
      before = before;
      parts = parts;
      found = found;
      at = at;
    } in
    let gone =
      lookup_abs-remove vfs left cwd old name parent entries l
        (record { heap = refl; root = refl }) in
    subst
      (λ r.
        Ends vfs (normalize_path cwd old) (normalize_path cwd new) id
          (put_in vfs (normalize_path cwd old) (normalize_path cwd new) q r))
      (sym (taken_out-ok vfs before name parent id entries found at there))
      (moved-Ends vfs left cwd old new q id qparts gone.0)

-- A file that the old path names is under the new name if `rename` succeeds. If it fails, then with
-- EINVAL and everything as it was, or the old path names nothing any more.
pub rename-Ends :
    (vfs : KernelVfs) (cwd old new : Text) (id : ℕ)
    → lookup_abs vfs (normalize_path cwd old) ≡ ok id
    → Ends vfs (normalize_path cwd old) (normalize_path cwd new) id (rename vfs cwd old new)
unfolding rename
rename-Ends vfs cwd old new id here =
    of (split_parent (normalize_path cwd old)) (split_parent (normalize_path cwd new)) refl refl
  where
    of :
        (r s : KernelResult (Text × Text))
        → split_parent (normalize_path cwd old) ≡ r
        → split_parent (normalize_path cwd new) ≡ s
        → Ends vfs (normalize_path cwd old) (normalize_path cwd new) id (
            renamed vfs
              (normalize_path cwd old)
              (normalize_path cwd new)
              (r >>= λ p. s >>= λ q. ok (p, q)))
    of (err e) s h k = rw (split_parent_error (normalize_path cwd old) e h) refuses
    of (ok p) (err e) h k = rw (split_parent_error (normalize_path cwd new) e k) refuses
    of (ok p) (ok q) h k = put_in-Ends vfs cwd old new p q id here h k
