-- ===== src/Vfs/Dirents/Records.antt =====
-- crates/vfs/src/lib.rs: which records `getdents` writes.
use mathlib.Core.List.{append-nil, append_assoc}
use whuse.Prelude.{
  ℕ, zero, suc, ◌+◌, ◌-◌, ◌/◌, ◌%◌, ◌≤◌, ◌<◌, ◌≡◌, refl, sym, ap, ◌∙◌, false, not, ◌&&◌, List, [],
  ◌∷◌, ◌++◌, ◌==◌, ltb, arith, ◌⊎◌, inl, inr, length, take, drop, map, subst, ok, length-map,
  replicate, length-append, length-replicate, Bool-cases,
}
use whuse.Prelude.Bytes.{length-drop}
use whuse.Prelude.Text.{Text, to_le_bytes}
use whuse.Prelude.Words.{usize_mod, saturating_add}
use whuse.Prelude.TextMap.{TextMap}
use whuse.Vfs.{FileHandle, directory, KernelVfs, Outside, node_at}
use whuse.Vfs.Dirents.{
  typed, emitted_from, getdents, record_length, padding, dirent, append_dirent, emit_entries,
}

-- One record, padded to a multiple of 8 bytes.
abbrev pub record_bytes : ℕ → Text → ℕ → List ℕ
record_bytes index name file_type =
    dirent index name file_type ++ replicate (record_length name - (20 + length name)) 0

-- The records of the entries from an index on.
unfoldable pub records : ℕ → List (Text × ℕ) → List ℕ
records index [] = []
records index ((name, file_type) ∷ entries) =
    record_bytes index name file_type ++ records (suc index) entries

length-to_le_bytes : (width n : ℕ) → length (to_le_bytes width n) ≡ width
unfolding to_le_bytes
length-to_le_bytes zero n = refl
length-to_le_bytes (suc width) n = ap suc (length-to_le_bytes width (n / 256))

length-dirent :
    (index : ℕ) (name : Text) (file_type : ℕ)
    → length (dirent index name file_type) ≡ 20 + length name
length-dirent index name file_type =
    let a = to_le_bytes 8 (index + 1) in
    let c = to_le_bytes 2 (record_length name) in
    omega (
      arith,
      length-append (((a ++ a) ++ c) ++ file_type ∷ name) (0 ∷ []),
      length-append ((a ++ a) ++ c) (file_type ∷ name),
      length-append (a ++ a) c,
      length-append a a,
      length-to_le_bytes 8 (index + 1),
      length-to_le_bytes 2 (record_length name),
    )

length-record_bytes :
    (index : ℕ) (name : Text) (file_type : ℕ)
    → length (record_bytes index name file_type) ≡ record_length name
length-record_bytes index name file_type =
    length-append (dirent index name file_type)
      (replicate (record_length name - (20 + length name)) 0)
    ∙ omega (
      arith,
      length-dirent index name file_type,
      length-replicate {A = ℕ} (record_length name - (20 + length name)) 0,
    )

append_dirent-record_bytes :
    (out : List ℕ) (index : ℕ) (name : Text) (file_type : ℕ)
    → length out % 8 ≡ 0
    → append_dirent out index name file_type ≡ out ++ record_bytes index name file_type
unfolding append_dirent
append_dirent-record_bytes out index name file_type h =
    let pad : padding (length (out ++ dirent index name file_type))
        ≡ record_length name - (20 + length name) =
      omega (
        arith,
        length-append out (dirent index name file_type),
        length-dirent index name file_type,
      ) in
    ap (λ n. (out ++ dirent index name file_type) ++ replicate n 0) pad
    ∙ append_assoc out (dirent index name file_type)
        (replicate (record_length name - (20 + length name)) 0)

-- What the loop has written is not longer than asked, or it is one record.
abbrev pub Fits : ℕ → List ℕ → ℕ → Type 0
Fits max_len out emitted = (emitted ≤ 1) ⊎ (length out ≤ max_len)

-- What the loop adds: the records of some entries from the front.
record Emits (max_len index : ℕ) (out : List ℕ) (emitted : ℕ) (entries : List (Text × ℕ))
    (r : List ℕ × ℕ) : Type 0 where
  count : ℕ
  within : count ≤ length entries
  emits : r ≡ (out ++ records index (take count entries), emitted + count)
  fits : Fits max_len r.0 r.1
  first : emitted ≡ 0 → 0 < length entries → 0 < count

Emits-none :
    (max_len index : ℕ) (out : List ℕ) (emitted : ℕ) (entries : List (Text × ℕ))
    → Fits max_len out emitted
    → (emitted ≡ 0 → 0 < length entries → 0 < 0)
    → Emits max_len index out emitted entries (out, emitted)
unfolding records
Emits-none max_len index out emitted entries fits first = record {
  count = 0;
  within = ground arith;
  emits = ap (λ o. (o, emitted)) (sym (append-nil out)) ∙ ap (λ n. (out ++ [], n)) nothing;
  fits = fits;
  first = first;
}
  where
    nothing : emitted ≡ emitted + 0
    nothing = ground arith

Fits-longer :
    (max_len : ℕ) (out longer : List ℕ) (emitted size : ℕ)
    → (not (emitted == 0) && ltb max_len (length out + size)) ≡ false
    → length longer ≡ length out + size
    → Fits max_len longer (suc emitted)
Fits-longer max_len out longer zero size more e = inl (ground arith)
Fits-longer max_len out longer (suc emitted) size more e = inr (ground arith)

module _ (max_len index : ℕ) (out : List ℕ) (emitted : ℕ) (name : Text) (t : ℕ)
    (entries : List (Text × ℕ)) where
  Emits-more :
      (r : List ℕ × ℕ)
      → length out % 8 ≡ 0
      → Emits max_len (suc index) (append_dirent out index name t) (suc emitted) entries r
      → Emits max_len index out emitted ((name, t) ∷ entries) r
  unfolding records
  Emits-more r h rest = record {
    count = suc rest.count;
    within = ground (arith, rest.within);
    emits =
        rest.emits
        ∙ ap (λ o. (o ++ records (suc index) (take rest.count entries), suc emitted + rest.count))
            (append_dirent-record_bytes out index name t h)
        ∙ ap (λ o. (o, suc emitted + rest.count))
            (append_assoc out (record_bytes index name t)
              (records (suc index) (take rest.count entries)))
        ∙ ap
            (λ n. (
              out ++ (record_bytes index name t ++ records (suc index) (take rest.count entries)),
              n,
            ))
            later;
    fits = rest.fits;
    first = λ none some. ground arith;
  }
    where
      later : suc emitted + rest.count ≡ emitted + suc rest.count
      later = ground arith

length-append_dirent :
    (out : List ℕ) (index : ℕ) (name : Text) (t : ℕ)
    → length out % 8 ≡ 0
    → length (append_dirent out index name t) ≡ length out + record_length name
length-append_dirent out index name t h =
    ap length (append_dirent-record_bytes out index name t h)
    ∙ length-append out (record_bytes index name t)
    ∙ ap (λ n. length out + n) (length-record_bytes index name t)

emit_entries-Emits :
    (max_len index : ℕ) (out : List ℕ) (emitted : ℕ) (entries : List (Text × ℕ))
    → length out % 8 ≡ 0
    → Fits max_len out emitted
    → Emits max_len index out emitted entries (emit_entries max_len index out emitted entries)
unfolding emit_entries
emit_entries-Emits max_len index out emitted [] h fits =
    Emits-none max_len index out emitted [] fits (ground arith)
emit_entries-Emits max_len index out emitted ((name, t) ∷ entries) h fits =
    elim (Bool-cases (not (emitted == 0) && ltb max_len (length out + record_length name))) [
      | inl stop ↦
          rw stop (Emits-none max_len index out emitted ((name, t) ∷ entries) fits (ground arith))
      | inr more ↦
          let size = length-append_dirent out index name t h in
          rw more (
            Emits-more max_len index out emitted name t entries
              (emit_entries max_len (suc index) (append_dirent out index name t) (suc emitted)
                entries)
              h
              (emit_entries-Emits max_len (suc index) (append_dirent out index name t) (suc emitted)
                entries (omega (arith, size, h))
                (Fits-longer max_len out (append_dirent out index name t) emitted
                  (record_length name) more size)))
    ]

-- The loop from the beginning.
emit_entries-records :
    (max_len index : ℕ) (entries : List (Text × ℕ))
    → (count : ℕ) × (emit_entries max_len index [] 0 entries
        ≡ (records index (take count entries), count))
      × (count ≤ length entries)
      × Fits max_len (records index (take count entries)) count
      × (0 < length entries → 0 < count)
emit_entries-records max_len index entries =
    let x = emit_entries-Emits max_len index [] 0 entries refl (inl (ground arith)) in
    let none : 0 + x.count ≡ x.count = ground arith in
    let e = x.emits ∙ ap (λ n. (records index (take x.count entries), n)) none in
    (x.count, e, x.within, subst (λ o. Fits max_len o.0 o.1) e x.fits, λ some. x.first refl some)

-- The entries that a handle on a directory in memory has still to read.
abbrev pub unread : KernelVfs → FileHandle → TextMap ℕ → List (Text × ℕ)
unread vfs handle entries = map (typed vfs.heap) (drop handle.offset entries)

getdents_directory :
    (outside : Outside) (vfs : KernelVfs) (handle : FileHandle) (max_len : ℕ) (entries : TextMap ℕ)
    → (node_at vfs.heap handle.node).contents ≡ directory entries
    → 0 < max_len
    → getdents outside vfs handle max_len
      ≡ emitted_from vfs handle
          (emit_entries max_len handle.offset [] 0 (unread vfs handle entries))
unfolding getdents
getdents_directory outside vfs handle max_len entries e h =
    let asked : (max_len == 0) ≡ false = ground arith in rw (getdents, asked, e) refl

length-unread :
    (vfs : KernelVfs) (handle : FileHandle) (entries : TextMap ℕ)
    → length (unread vfs handle entries) ≡ length entries - handle.offset
length-unread vfs handle entries =
    length-map (typed vfs.heap) (drop handle.offset entries) ∙ length-drop handle.offset entries

saturating_add-within :
    (offset count next len : ℕ)
    → count ≤ next
    → next ≡ len - offset
    → offset + len < usize_mod
    → saturating_add offset count ≡ offset + count
saturating_add-within offset count next len h k fits = ground arith

-- Reading a directory in memory returns the records of the next entries in order and moves the handle
-- behind them. They fit in the buffer, or are one record, and there is one if an entry is left.
pub getdents-records :
    (outside : Outside) (vfs : KernelVfs) (handle : FileHandle) (max_len : ℕ) (entries : TextMap ℕ)
    → (node_at vfs.heap handle.node).contents ≡ directory entries
    → 0 < max_len
    → handle.offset + length entries < usize_mod
    → (count : ℕ) × (getdents outside vfs handle max_len ≡ (
      vfs,
      record handle { offset = handle.offset + count },
      ok (records handle.offset (take count (unread vfs handle entries))),
    ))
      × (count ≤ length (unread vfs handle entries))
      × Fits max_len (records handle.offset (take count (unread vfs handle entries))) count
      × (0 < length (unread vfs handle entries) → 0 < count)
getdents-records outside vfs handle max_len entries e positive fits =
    let next = unread vfs handle entries in
    let (count, emits, within, short, first) = emit_entries-records max_len handle.offset next in
    (
      count,
      getdents_directory outside vfs handle max_len entries e positive
          ∙ ap (emitted_from vfs handle) emits
          ∙ ap
              (λ place. (
                vfs,
                record handle { offset = place },
                ok (records handle.offset (take count next)),
              ))
              (saturating_add-within handle.offset count (length next) (length entries) within
                (length-unread vfs handle entries) fits),
      within,
      short,
      first,
    )
