-- ===== src/Vfs/Tree/Removals.antt =====
-- crates/vfs/src/lib.rs: what `lookup_abs` finds once one entry of a directory is removed.
use whuse.Prelude.{
  ℕ, ◌≡◌, refl, sym, ap, ◌∙◌, Bool, true, false, ◌&&◌, ◌||◌, List, [], ◌∷◌, ◌==◌, if◌then◌else◌,
  inl, inr, Bool-cases, KernelResult-cases, ok, err, ok_or, ◌>>=◌,
}
use whuse.Prelude.Errno
use whuse.Prelude.Text.{Text, text_eq}
use whuse.Prelude.TextMap
use whuse.Prelude.TextMap.{TextMap, get-insert, get-remove}
use whuse.Vfs.{directory, Heap, node_at, set_contents}
use whuse.Vfs.Tree.Walks.{entry_of-changed, entry_of-parent}
use whuse.Vfs.Tree.{entry_of, lookup_from}

-- Whether the walk along the components goes through an entry of a directory.
unfoldable pub leads_through : Heap → ℕ → Text → ℕ → List Text → Bool
leads_through heap parent name id [] = false
leads_through heap parent name id (part ∷ parts) =
    (parent == id && text_eq name part) || (elim (entry_of (node_at heap id).contents part) [
      | ok next ↦ leads_through heap parent name next parts
      | err e ↦ false
    ])

-- One entry of the node `parent` is removed.
module _ (heap : Heap) (parent : ℕ) (entries : TextMap ℕ) (name : Text)
    (at : (node_at heap parent).contents ≡ directory entries) where
  abbrev lost : Heap
  lost = set_contents parent (directory (TextMap.remove name entries)) heap

  entry_of-lost :
      (id : ℕ) (part : Text)
      → entry_of (node_at lost id).contents part ≡ (
          if parent == id && text_eq name part
          then err Errno.enoent
          else entry_of (node_at heap id).contents part)
  entry_of-lost id part = elim (Bool-cases (parent == id)) [
    | inr other ↦
        entry_of-changed heap parent entries (TextMap.remove name entries) at id part
        ∙ rw other refl
    | inl here ↦
        entry_of-changed heap parent entries (TextMap.remove name entries) at id part
        ∙ rw here (by_name here)
  ]
    where
      by_name :
          (parent == id) ≡ true
          → ok_or (TextMap.get part (TextMap.remove name entries)) Errno.enoent ≡ (
              if text_eq name part
              then err Errno.enoent
              else entry_of (node_at heap id).contents part)
      by_name here = elim (Bool-cases (text_eq name part)) [
        | inl same ↦ ap (λ o. ok_or o Errno.enoent) (get-remove name part entries) ∙ rw same refl
        | inr other ↦
            ap (λ o. ok_or o Errno.enoent) (get-remove name part entries)
            ∙ rw other (
                sym (
                  entry_of-parent heap parent entries (TextMap.remove name entries) at id part
                    here))
      ]

  entry_of-hit :
      (id : ℕ) (part : Text)
      → (parent == id && text_eq name part) ≡ true
      → entry_of (node_at lost id).contents part ≡ err Errno.enoent
  entry_of-hit id part hit = entry_of-lost id part ∙ rw hit refl

  entry_of-miss :
      (id : ℕ) (part : Text)
      → (parent == id && text_eq name part) ≡ false
      → entry_of (node_at lost id).contents part ≡ entry_of (node_at heap id).contents part
  entry_of-miss id part miss = entry_of-lost id part ∙ rw miss refl

  -- The walks that go through the entry find nothing, and the others what they found.
  pub lookup_from-lost :
      (id : ℕ) (parts : List Text)
      → lookup_from lost id parts ≡ (
          if leads_through heap parent name id parts
          then err Errno.enoent
          else lookup_from heap id parts)
  unfolding lookup_from leads_through
  lookup_from-lost id [] = refl
  lookup_from-lost id (part ∷ parts) = elim (Bool-cases (parent == id && text_eq name part)) [
    | inl hit ↦
        ap (λ r. r >>= λ j. lookup_from lost j parts) (entry_of-hit id part hit) ∙ rw hit refl
    | inr miss ↦
        ap (λ r. r >>= λ j. lookup_from lost j parts) (entry_of-miss id part miss)
        ∙ elim (KernelResult-cases (entry_of (node_at heap id).contents part)) [
          | inl (j, e) ↦ rw (miss, e) (lookup_from-lost j parts)
          | inr (n, e) ↦ rw (miss, e) refl
        ]
  ]
