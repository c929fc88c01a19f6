-- ===== src/Vfs/Tree/Places.antt =====
-- crates/vfs/src/lib.rs: what a path names after one entry of its directory is removed or inserted.
use whuse.Prelude.{
  ℕ, ◌≡◌, ◌≢◌, refl, sym, ap, ◌∙◌, Option, none, some, arith, if◌then◌else◌, KernelResult, inl, inr,
  Bool-cases, Option-cases, ok, err, ok_or, ◌>>=◌, ok-injective, ok_or-ok, bind_ok,
}
use whuse.Prelude.Errno
use whuse.Prelude.Text.{Text, text_eq, text_eq_iff}
use whuse.Prelude.TextMap
use whuse.Prelude.TextMap.{
  TextMap, get-insert, get-insert_same, get-remove, get-remove_same, get-contains_key,
}
use whuse.Vfs.{
  NodeData, directory, file, ext4_file, ext4_dir, char_device, proc_file, pipe, symlink, event,
  epoll, socket_pending, socket_connected, socket_raw, pid_fd, KernelVfs, node_at, set_contents,
}
use whuse.Vfs.Paths.{normalize_path, split_parent, segments}
use whuse.Vfs.Tree.{
  entry_of, lookup_from, lookup_abs, entries_in, directory_at, resolve_external_path,
}
use whuse.Vfs.Heaps.{contents-set_contents}
use whuse.Vfs.Tree.Walks.{Keeps, lookup_abs-segments, lookup_abs_split, lookup_from-Keeps}
use whuse.Vfs.Tree.Removals.{leads_through, lookup_from-lost}
use whuse.Vfs.Tree.Changes.{forget_path}

abbrev entries_or : TextMap ℕ → Option (TextMap ℕ) → TextMap ℕ
entries_or es none = es
entries_or es (some entries) = entries

none≢some : {entries : TextMap ℕ} → none ≢ some entries
none≢some h = ground arith

pub entries_in-some :
    (contents : NodeData) (entries : TextMap ℕ)
    → entries_in contents ≡ some entries
    → contents ≡ directory entries
entries_in-some (directory es) entries h = ap (λ o. directory (entries_or es o)) h
entries_in-some (file _) entries h = absurd (none≢some h)
entries_in-some (ext4_file _) entries h = absurd (none≢some h)
entries_in-some (ext4_dir _) entries h = absurd (none≢some h)
entries_in-some (char_device) entries h = absurd (none≢some h)
entries_in-some (proc_file _) entries h = absurd (none≢some h)
entries_in-some (pipe _) entries h = absurd (none≢some h)
entries_in-some (symlink _) entries h = absurd (none≢some h)
entries_in-some (event _) entries h = absurd (none≢some h)
entries_in-some (epoll _) entries h = absurd (none≢some h)
entries_in-some (socket_pending _) entries h = absurd (none≢some h)
entries_in-some (socket_connected _ _ _ _ _) entries h = absurd (none≢some h)
entries_in-some (socket_raw _) entries h = absurd (none≢some h)
entries_in-some (pid_fd _) entries h = absurd (none≢some h)

-- A path that leads to a directory with these entries.
pub directory_at-ok :
    (vfs : KernelVfs) (path : Text) (id : ℕ) (entries : TextMap ℕ)
    → directory_at vfs path ≡ ok (id, entries)
    → (lookup_abs vfs path ≡ ok id) × ((node_at vfs.heap id).contents ≡ directory entries)
unfolding directory_at
directory_at-ok vfs path id entries h =
    let (j, found, h1) =
      bind_ok (lookup_abs vfs path)
        (λ i. ok_or (entries_in (node_at vfs.heap i).contents) Errno.enotdir >>= λ es. ok (i, es))
        h in
    let (es, there, h2) =
      bind_ok (ok_or (entries_in (node_at vfs.heap j).contents) Errno.enotdir) (λ es. ok (j, es))
        h1 in
    let e = ok-injective h2 in
    (
      found ∙ ap (λ r. ok r.0) e,
      ap (λ r. (node_at vfs.heap r.0).contents) (sym e)
          ∙ entries_in-some (node_at vfs.heap j).contents es
              (ok_or-ok (entries_in (node_at vfs.heap j).contents) Errno.enotdir there)
          ∙ ap (λ r. directory r.1) e,
    )

pub entry_of-ok :
    (contents : NodeData) (name : Text) (id : ℕ)
    → entry_of contents name ≡ ok id
    → (entries : TextMap ℕ) × (contents ≡ directory entries) × (TextMap.get name entries ≡ some id)
entry_of-ok contents name id h =
    let (entries, there, found) =
      bind_ok (ok_or (entries_in contents) Errno.enotdir)
        (λ es. ok_or (TextMap.get name es) Errno.enoent) h in
    (
      entries,
      entries_in-some contents entries (ok_or-ok (entries_in contents) Errno.enotdir there),
      ok_or-ok (TextMap.get name entries) Errno.enoent found,
    )

pub heap-forget_path :
    (absolute : Text) (vfs : KernelVfs)
    → ((forget_path absolute vfs).heap ≡ vfs.heap) × ((forget_path absolute vfs).root ≡ vfs.root)
heap-forget_path absolute vfs = elim (Option-cases (resolve_external_path vfs absolute)) [
  | inl e ↦ rw e (refl, refl)
  | inr (a, e) ↦ rw e (refl, refl)
]

-- Where a path lies: in which directory, with which entries, under which name.
pub record Lies (vfs : KernelVfs) (absolute : Text) (parent : ℕ) (entries : TextMap ℕ) (name : Text)
    : Type 0 where
  pub before : Text
  pub parts : split_parent absolute ≡ ok (before, name)
  pub found : lookup_abs vfs before ≡ ok parent
  pub at : (node_at vfs.heap parent).contents ≡ directory entries

-- The file system `after` differs from `vfs` in the entries of one directory, as far as a lookup sees.
pub record Changed (vfs after : KernelVfs) (parent : ℕ) (new : TextMap ℕ) : Type 0 where
  pub heap : after.heap ≡ set_contents parent (directory new) vfs.heap
  pub root : after.root ≡ vfs.root

lookup_abs-Changed :
    (vfs after : KernelVfs) (parent : ℕ) (new : TextMap ℕ)
    → Changed vfs after parent new
    → (path : Text)
    → lookup_abs after path
      ≡ lookup_from (set_contents parent (directory new) vfs.heap) vfs.root (segments path)
lookup_abs-Changed vfs after parent new c path =
    lookup_abs-segments after path
    ∙ ap (λ h. lookup_from h after.root (segments path)) c.heap
    ∙ ap (λ r. lookup_from (set_contents parent (directory new) vfs.heap) r (segments path)) c.root

-- The entry that a changed directory has.
entry_of-Changed :
    (vfs after : KernelVfs) (parent : ℕ) (new : TextMap ℕ) (name : Text)
    → Changed vfs after parent new
    → entry_of (node_at after.heap parent).contents name ≡ ok_or (TextMap.get name new) Errno.enoent
entry_of-Changed vfs after parent new name c =
    ap (λ h. entry_of (node_at h parent).contents name) c.heap
    ∙ ap (λ d. entry_of d name) (contents-set_contents parent (directory new) vfs.heap)

Keeps-insert :
    (name : Text) (id : ℕ) (entries : TextMap ℕ)
    → TextMap.get name entries ≡ none
    → Keeps entries (TextMap.insert name id entries)
Keeps-insert name id entries free part found h = elim (Bool-cases (text_eq name part)) [
  | inl here ↦ absurd (ground (arith, (text_eq_iff name part).0 here, free, h))
  | inr other ↦ get-insert name part id entries ∙ rw other h
]

-- What the path names that lies there.
pub lookup_abs-Lies :
    (vfs : KernelVfs) (cwd path : Text) (parent : ℕ) (entries : TextMap ℕ) (name : Text) (id : ℕ)
    → Lies vfs (normalize_path cwd path) parent entries name
    → TextMap.get name entries ≡ some id
    → lookup_abs vfs (normalize_path cwd path) ≡ ok id
lookup_abs-Lies vfs cwd path parent entries name id l there =
    lookup_abs_split cwd path (l.before, name) l.parts vfs
    ∙ ap (λ r. r >>= λ j. entry_of (node_at vfs.heap j).contents name) l.found
    ∙ ap (λ c. entry_of c name) l.at
    ∙ ap (λ o. ok_or o Errno.enoent) there

-- What a path names once the entry `name` of the directory `parent` is removed.
abbrev pub without_entry : KernelVfs → ℕ → Text → Text → KernelResult ℕ
without_entry vfs parent name path =
    if leads_through vfs.heap parent name vfs.root (segments path)
    then err Errno.enoent
    else lookup_abs vfs path

-- A path whose entry is removed names nothing, nor does one that leads through the entry; the others
-- stay.
pub lookup_abs-remove :
    (vfs after : KernelVfs) (cwd path name : Text) (parent : ℕ) (entries : TextMap ℕ)
    → Lies vfs (normalize_path cwd path) parent entries name
    → Changed vfs after parent (TextMap.remove name entries)
    → (lookup_abs after (normalize_path cwd path) ≡ err Errno.enoent)
      × ((other : Text) → lookup_abs after other ≡ without_entry vfs parent name other)
lookup_abs-remove vfs after cwd path name parent entries l c =
    (lookup_abs_split cwd path (l.before, name) l.parts after ∙ gone (stays l.before), stays)
  where
    stays : (other : Text) → lookup_abs after other ≡ without_entry vfs parent name other
    stays other =
        lookup_abs-Changed vfs after parent (TextMap.remove name entries) c other
        ∙ lookup_from-lost vfs.heap parent entries name l.at vfs.root (segments other)
        ∙ ap
            (λ r.
              if leads_through vfs.heap parent name vfs.root (segments other)
              then err Errno.enoent
              else r)
            (sym (lookup_abs-segments vfs other))

    gone :
        lookup_abs after l.before ≡ without_entry vfs parent name l.before
        → (lookup_abs after l.before >>= λ id. entry_of (node_at after.heap id).contents name)
          ≡ err Errno.enoent
    gone h = elim (Bool-cases (leads_through vfs.heap parent name vfs.root (segments l.before))) [
      | inl lost ↦
          let missing : lookup_abs after l.before ≡ err Errno.enoent = h ∙ rw lost refl in
          ap (λ r. r >>= λ id. entry_of (node_at after.heap id).contents name) missing
      | inr same ↦
          let there : lookup_abs after l.before ≡ ok parent = h ∙ rw same l.found in
          ap (λ r. r >>= λ id. entry_of (node_at after.heap id).contents name) there
          ∙ entry_of-Changed vfs after parent (TextMap.remove name entries) name c
          ∙ ap (λ o. ok_or o Errno.enoent) (get-remove_same name entries)
    ]

-- A path whose entry is inserted names the new node, and the others that named one still do.
pub lookup_abs-insert :
    (vfs after : KernelVfs) (cwd path name : Text) (parent id : ℕ) (entries : TextMap ℕ)
    → Lies vfs (normalize_path cwd path) parent entries name
    → TextMap.get name entries ≡ none
    → Changed vfs after parent (TextMap.insert name id entries)
    → (lookup_abs after (normalize_path cwd path) ≡ ok id)
      × ((other : Text) (found : ℕ)
          → lookup_abs vfs other ≡ ok found
          → lookup_abs after other ≡ ok found)
lookup_abs-insert vfs after cwd path name parent id entries l free c =
    let keeps : (other : Text) (found : ℕ)
        → lookup_abs vfs other ≡ ok found
        → lookup_abs after other ≡ ok found =
      (λ other found h.
        lookup_abs-Changed vfs after parent (TextMap.insert name id entries) c other
        ∙ lookup_from-Keeps vfs.heap parent entries (TextMap.insert name id entries) l.at
            (Keeps-insert name id entries free) vfs.root (segments other) found
            (sym (lookup_abs-segments vfs other) ∙ h)) in
    (
      lookup_abs_split cwd path (l.before, name) l.parts after
          ∙ ap (λ r. r >>= λ i. entry_of (node_at after.heap i).contents name)
              (keeps l.before parent l.found)
          ∙ entry_of-Changed vfs after parent (TextMap.insert name id entries) name c
          ∙ ap (λ o. ok_or o Errno.enoent) (get-insert_same name id entries),
      keeps,
    )
