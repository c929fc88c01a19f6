-- ===== src/Vfs/Files.antt =====
-- crates/vfs/src/lib.rs: what writing leaves in a file, and what is read from it then.
use mathlib.Core.List.{append_assoc}
use whuse.Prelude.{
  ℕ, ◌+◌, ◌-◌, ◌≤◌, ◌<◌, ◌≡◌, refl, sym, ap, subst, ◌∙◌, min, max, ltb, leb, ◌&&◌, if◌then◌else◌,
  false, List, ◌++◌, arith, take, drop, length, get_or, replicate, length-append, length-replicate,
  KernelResult, ok, err, Bool-cases, inl, inr, ◌⊎◌,
}
use whuse.Prelude.Bytes.{
  get_or-append, get_or-take, get_or-drop, get_or-replicate, get_or_beyond, length-take,
  length-drop, drop-append, take-append,
}
use whuse.Prelude.Words.{usize_mod, saturating_add, wrapping_add}
use whuse.Vfs.{FileHandle, file, Heap, Outside, node_at, set_contents}
use whuse.Vfs.Heaps.{contents-set_contents}
use whuse.Vfs.Objects.Reading.{read_bytes_at, read_object}
use whuse.Vfs.Objects.Writing.{
  written, ensure_file_size, grow_to, overwrite, overwritten, write_reached, write_buffer,
  write_object,
}

-- The buffer has grown by zero bytes only.
pub record Extends (buf grown : List ℕ) (size : ℕ) : Type 0 where
  pub long : length grown ≡ max (length buf) size
  pub same : (k : ℕ) → get_or grown k 0 ≡ get_or buf k 0

Extends-zeros : (buf : List ℕ) (n : ℕ) → Extends buf (buf ++ replicate n 0) (length buf + n)
Extends-zeros buf n = record {
  long = omega (arith, length-append buf (replicate n 0), length-replicate {A = ℕ} n 0);
  same = λ k. ground (
    arith,
    get_or-append {A = ℕ} 0 buf (replicate n 0) k,
    get_or-replicate {A = ℕ} 0 n (k - length buf),
    get_or_beyond {A = ℕ} 0 buf k,
  );
}

ensure_cases :
    (outside : Outside) (buf grown : List ℕ) (size : ℕ)
    → ensure_file_size outside buf size ≡ ok grown
    → ((grown ≡ buf) × (size ≤ length buf))
      ⊎ ((grown ≡ buf ++ replicate (size - length buf) 0) × (length buf < size))
unfolding ensure_file_size
ensure_cases outside buf grown size h = elim (Bool-cases (leb size (length buf))) [
  | inl small ↦ inl (ground arith, ground arith)
  | inr big ↦ inr (ground arith, ground arith)
]

pub ensure_file_size-Extends :
    (outside : Outside) (buf grown : List ℕ) (size : ℕ)
    → ensure_file_size outside buf size ≡ ok grown
    → Extends buf grown size
ensure_file_size-Extends outside buf grown size h = elim (ensure_cases outside buf grown size h) [
  | inl (e, small) ↦ rw e (record { long = omega arith; same = λ k. refl })
  | inr (e, big) ↦
      let total : length buf + (size - length buf) ≡ size = omega arith in
      rw e (
        subst (Extends buf (buf ++ replicate (size - length buf) 0)) total
          (Extends-zeros buf (size - length buf)))
]

grow_to-Extends :
    (outside : Outside) (buf grown : List ℕ) (size : ℕ)
    → grow_to outside size buf ≡ ok grown
    → Extends buf grown size
grow_to-Extends outside buf grown size h = elim (Bool-cases (ltb (length buf) size)) [
  | inl short ↦ ensure_file_size-Extends outside buf grown size (ground arith)
  | inr enough ↦
      let e : grown ≡ buf = ground arith in rw e (record { long = ground arith; same = λ k. refl })
]

-- The bytes stand at the place, and elsewhere the buffer is as before, with zeros behind its end.
pub record Wrote (offset : ℕ) (data_bytes buf new : List ℕ) : Type 0 where
  pub long : length new ≡ max (length buf) (offset + length data_bytes)
  pub there : take (length data_bytes) (drop offset new) ≡ data_bytes
  pub elsewhere :
      (k : ℕ)
      → (leb offset k && ltb k (offset + length data_bytes)) ≡ false
      → get_or new k 0 ≡ get_or buf k 0

overwrite-Wrote :
    (offset : ℕ) (data_bytes buf : List ℕ)
    → offset + length data_bytes ≤ length buf
    → Wrote offset data_bytes buf (overwrite offset data_bytes buf)
overwrite-Wrote offset data_bytes buf fits = record {
  long = omega (
    arith,
    length-append (head ++ data_bytes) tail,
    length-append head data_bytes,
    at_offset,
    length-drop stop buf,
  );
  there =
      subst (λ n. take (length data_bytes) (drop n (head ++ data_bytes ++ tail)) ≡ data_bytes)
        at_offset
        (ap (λ l. take (length data_bytes) (drop (length head) l))
            (append_assoc head data_bytes tail)
          ∙ ap (take (length data_bytes)) (drop-append head (data_bytes ++ tail))
          ∙ take-append data_bytes tail);
  elsewhere = λ k apart. elim (Bool-cases (ltb k offset)) [
    | inl before ↦ ground (
      arith,
      in_parts k,
      get_or-append {A = ℕ} 0 head data_bytes k,
      length-append head data_bytes,
      at_offset,
      get_or-take {A = ℕ} 0 offset buf k,
    )
    | inr behind ↦
        let place : stop + (k - stop) ≡ k = ground arith in
        ground (
          arith,
          in_parts k,
          length-append head data_bytes,
          at_offset,
          get_or-drop {A = ℕ} 0 stop buf (k - stop),
          ap (λ i. get_or buf i 0) place,
        )
  ];
}
  where
    head : List ℕ
    head = take offset buf

    stop : ℕ
    stop = offset + length data_bytes

    tail : List ℕ
    tail = drop stop buf

    at_offset : length head ≡ offset
    at_offset = omega (arith, length-take offset buf)

    middle : length (head ++ data_bytes) ≡ stop
    middle = omega (arith, length-append head data_bytes, at_offset)

    in_parts :
        (k : ℕ)
        → get_or (head ++ data_bytes ++ tail) k 0
          ≡ (if ltb k stop then get_or (head ++ data_bytes) k 0 else get_or tail (k - stop) 0)
    in_parts k =
        subst
          (λ n.
            get_or (head ++ data_bytes ++ tail) k 0
            ≡ (if ltb k n then get_or (head ++ data_bytes) k 0 else get_or tail (k - n) 0))
          middle (get_or-append {A = ℕ} 0 (head ++ data_bytes) tail k)

Wrote-extended :
    (offset : ℕ) (data_bytes buf reached grown : List ℕ)
    → Extends buf reached offset
    → Extends reached grown (offset + length data_bytes)
    → Wrote offset data_bytes buf (overwrite offset data_bytes grown)
Wrote-extended offset data_bytes buf reached grown x y =
    let w = overwrite-Wrote offset data_bytes grown (omega (arith, y.long)) in
    record {
      long = omega (arith, w.long, x.long, y.long);
      there = w.there;
      elsewhere = λ k apart. w.elsewhere k apart ∙ y.same k ∙ x.same k;
    }

module _ (outside : Outside) (offset : ℕ) (data_bytes buf : List ℕ) (place : ℕ)
    (fits : offset + length data_bytes < usize_mod) where
  abbrev Done : List ℕ × KernelResult ℕ → Type 0
  Done r = (r.1 ≡ ok place) → (place ≡ offset + length data_bytes) × Wrote offset data_bytes buf r.0

  overwritten-Done :
      (reached : List ℕ) (r : KernelResult (List ℕ))
      → Extends buf reached offset
      → grow_to outside (saturating_add offset (length data_bytes)) reached ≡ r
      → Done (overwritten offset data_bytes reached r)
  overwritten-Done reached (err e) x g = λ h. absurd (ground arith)
  overwritten-Done reached (ok grown) x g = λ h.
      let stop : saturating_add offset (length data_bytes) ≡ offset + length data_bytes =
        ground arith in
      let y = grow_to-Extends outside reached grown (saturating_add offset (length data_bytes)) g in
      (
        ground arith,
        Wrote-extended offset data_bytes buf reached grown x (subst (Extends reached grown) stop y),
      )

  write_reached-Done :
      (r : KernelResult (List ℕ))
      → grow_to outside offset buf ≡ r
      → Done (write_reached outside offset data_bytes buf r)
  write_reached-Done (err e) g = λ h. absurd (ground arith)
  write_reached-Done (ok reached) g =
      overwritten-Done reached _ (grow_to-Extends outside buf reached offset g) refl

  write_buffer-Done : Done (write_buffer outside offset data_bytes buf)
  unfolding write_buffer
  write_buffer-Done = write_reached-Done (grow_to outside offset buf) refl

written-ok :
    (heap : Heap) (handle : FileHandle) (len n : ℕ) (r : KernelResult ℕ)
    → (written heap handle len r).2 ≡ ok n
    → (place : ℕ) × (r ≡ ok place)
written-ok heap handle len n (ok place) h = (place, refl)
written-ok heap handle len n (err e) h = absurd (ground arith)

module _ (outside : Outside) (heap : Heap) (handle : FileHandle) (buf data_bytes : List ℕ)
    (e : (node_at heap handle.node).contents ≡ file buf) where
  write_object_file :
      write_object outside heap handle data_bytes
      ≡ written
          (set_contents handle.node
            (file (write_buffer outside handle.offset data_bytes buf).0)
            heap)
          handle
          (length data_bytes)
          (write_buffer outside handle.offset data_bytes buf).1
  unfolding write_object
  write_object_file = rw (write_object, e) refl

  read_object_file :
      (len : ℕ) → read_object outside heap handle len ≡ read_bytes_at heap handle buf len
  unfolding read_object
  read_object_file len = rw (read_object, e) refl

read_bytes_at-Wrote :
    (heap : Heap) (handle : FileHandle) (buf data_bytes new : List ℕ)
    → handle.offset + length data_bytes < usize_mod
    → Wrote handle.offset data_bytes buf new
    → (read_bytes_at heap handle new (length data_bytes)).2 ≡ ok data_bytes
unfolding read_bytes_at
read_bytes_at-Wrote heap handle buf data_bytes new fits w =
    let start : min handle.offset (length new) ≡ handle.offset = omega (arith, w.long) in
    let stop : min (wrapping_add handle.offset (length data_bytes)) (length new) - handle.offset
        ≡ length data_bytes =
      omega (arith, w.long) in
    rw (start, stop) (ap ok w.there)

-- A write through a handle on a file that succeeds puts the bytes at the handle's place and moves
-- the handle behind them; the file keeps every other byte, with zeros where it grew, and reading so
-- many bytes from the same place gives them back.
pub write_object-read_object :
    (outside : Outside) (heap : Heap) (handle : FileHandle) (buf data_bytes : List ℕ) (n : ℕ)
    → (node_at heap handle.node).contents ≡ file buf
    → handle.offset + length data_bytes < usize_mod
    → (write_object outside heap handle data_bytes).2 ≡ ok n
    → (new : List ℕ) × ((node_at
          (write_object outside heap handle data_bytes).0
          handle.node).contents
        ≡ file new)
      × Wrote handle.offset data_bytes buf new
      × ((write_object outside heap handle data_bytes).1
          ≡ record handle { offset = handle.offset + length data_bytes })
      × ((read_object outside
            (write_object outside heap handle data_bytes).0
            handle
            (length data_bytes)).2
          ≡ ok data_bytes)
write_object-read_object outside heap handle buf data_bytes n e fits h =
    let r = write_buffer outside handle.offset data_bytes buf in
    let after = set_contents handle.node (file r.0) heap in
    let wrote = write_object_file outside heap handle buf data_bytes e in
    let (place, done) =
      written-ok after handle (length data_bytes) n r.1 (ap (λ o. o.2) (sym wrote) ∙ h) in
    let (moved, w) = write_buffer-Done outside handle.offset data_bytes buf place fits done in
    let there = contents-set_contents handle.node (file r.0) heap in
    let outcome = wrote ∙ ap (written after handle (length data_bytes)) done in
    (
      r.0,
      ap (λ o. (node_at o.0 handle.node).contents) outcome ∙ there,
      w,
      ap (λ o. o.1) outcome ∙ ap (λ p. record handle { offset = p }) moved,
      ap (λ o. (read_object outside o.0 handle (length data_bytes)).2) outcome
          ∙ ap (λ o. o.2)
              (read_object_file outside after handle r.0 data_bytes there (length data_bytes))
          ∙ read_bytes_at-Wrote after handle buf data_bytes r.0 fits w,
    )
