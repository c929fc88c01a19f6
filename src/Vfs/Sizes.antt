-- ===== src/Vfs/Sizes.antt =====
-- crates/vfs/src/lib.rs: the size of a file after `truncate`.
use whuse.Prelude.{
  ℕ, ◌≡◌, refl, sym, ap, ◌∙◌, max, min, List, length, get_or, KernelResult, ok, err, arith,
}
use whuse.Vfs.{FileHandle, file, Heap, Outside, node_at}
use whuse.Vfs.Heaps.{contents-set_contents}
use whuse.Vfs.Files.{ensure_file_size-Extends}
use whuse.Vfs.Objects.Writing.{resized, ensure_file_size, truncate}

resized-ok :
    (heap : Heap) (handle : FileHandle) (r : KernelResult (List ℕ)) (place : ℕ)
    → (resized heap handle handle.node file r place).2 ≡ ok tt
    → (buf : List ℕ) × (r ≡ ok buf)
resized-ok heap handle (ok buf) place h = (buf, refl)
resized-ok heap handle (err e) place h = absurd (ground arith)

truncate_file :
    (outside : Outside) (heap : Heap) (handle : FileHandle) (buf : List ℕ) (len : ℕ)
    → (node_at heap handle.node).contents ≡ file buf
    → truncate outside heap handle len
      ≡ resized heap handle handle.node file
          (ensure_file_size outside buf len)
          (min handle.offset len)
unfolding truncate
truncate_file outside heap handle buf len e = rw (truncate, e) refl

-- Truncating a file leaves all of its bytes, with zeros behind them where the new length is greater:
-- the file is as long as the greater of the old length and the new.
pub truncate_keeps :
    (outside : Outside) (heap : Heap) (handle : FileHandle) (buf : List ℕ) (len : ℕ)
    → (node_at heap handle.node).contents ≡ file buf
    → (truncate outside heap handle len).2 ≡ ok tt
    → (new : List ℕ) × ((node_at (truncate outside heap handle len).0 handle.node).contents
        ≡ file new)
      × (length new ≡ max (length buf) len)
      × ((k : ℕ) → get_or new k 0 ≡ get_or buf k 0)
truncate_keeps outside heap handle buf len e h =
    let outcome = truncate_file outside heap handle buf len e in
    let (new, grown) =
      resized-ok heap handle (ensure_file_size outside buf len) (min handle.offset len)
        (ap (λ o. o.2) (sym outcome) ∙ h) in
    let x = ensure_file_size-Extends outside buf new len grown in
    (
      new,
      ap (λ o. (node_at o.0 handle.node).contents)
            (outcome
              ∙ ap (λ r. resized heap handle handle.node file r (min handle.offset len)) grown)
          ∙ contents-set_contents handle.node (file new) heap,
      x.long,
      x.same,
    )
