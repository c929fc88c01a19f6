-- ===== src/Prelude/BTreeMap.antt =====
-- `BTreeMap<usize, V>` as the list of its entries by increasing key.
pub mod Middle
use Prim.Native.Nat.{ℕ, suc, ◌≤◌, ◌<◌}
use mathlib.Core.Path.{◌≡◌, refl, subst₂, ◌∙◌}
use mathlib.Core.Bool.{Bool, true, false}
use mathlib.Core.Option.{Option, none, some}
use mathlib.Core.List.{List, [], ◌∷◌, map, Perm}
use mathlib.Core.List.Perm
use mathlib.Core.Logic.{inl, inr}
use native.Mathlib.Omega.{arith}
use whuse.Prelude.Tests.{ltb, ◌==◌, if◌then◌else◌, Bool-cases}

abbrev pub BTreeMap {ℓ} : Type ℓ → Type ℓ
BTreeMap V = List (ℕ × V)

module _ {ℓ} {V : Type ℓ} where
  unfoldable pub get : ℕ → BTreeMap V → Option V
  get k [] = none
  get k ((j, v) ∷ m) = if j == k then some v else get k m

  unfoldable pub insert : ℕ → V → BTreeMap V → BTreeMap V
  insert k v [] = (k, v) ∷ []
  insert k v ((j, w) ∷ m) =
      if ltb k j then (k, v) ∷ (j, w) ∷ m else if j == k then (k, v) ∷ m else (j, w) ∷ insert k v m

  unfoldable pub remove : ℕ → BTreeMap V → BTreeMap V
  remove k [] = []
  remove k ((j, v) ∷ m) = if j == k then remove k m else (j, v) ∷ remove k m

  abbrev pub contains_key : ℕ → BTreeMap V → Bool
  contains_key k m = elim (get k m) [ none ↦ false | some _ ↦ true ]

  abbrev pub keys : BTreeMap V → List ℕ
  keys = map λ e. e.0

  -- The keys increase from `n` on.
  abbrev pub From : ℕ → BTreeMap V → Type 0
  From n [] = Unit {0}
  From n ((k, v) ∷ m) = (n ≤ k) × From (suc k) m

  abbrev pub IsSorted : BTreeMap V → Type 0
  IsSorted = From 0

  pub From-mono : (a b : ℕ) (m : BTreeMap V) → a ≤ b → From b m → From a m
  From-mono a b [] h f = tt
  From-mono a b ((k, v) ∷ m) h f = (omega arith, f.1)

  pub get-insert :
      (k j : ℕ) (v : V) (m : BTreeMap V)
      → get j (insert k v m) ≡ (if k == j then some v else get j m)
  unfolding get insert
  get-insert k j v [] = refl
  get-insert k j v ((i, w) ∷ m) = ground (arith, get-insert k j v m)

  pub get-insert_same : (k : ℕ) (v : V) (m : BTreeMap V) → get k (insert k v m) ≡ some v
  get-insert_same k v m = get-insert k k v m ∙ ground arith

  pub get-insert_other :
      (k j : ℕ) (v : V) (m : BTreeMap V) → (k == j) ≡ false → get j (insert k v m) ≡ get j m
  get-insert_other k j v m h = get-insert k j v m ∙ rw h refl

  pub get-remove :
      (k j : ℕ) (m : BTreeMap V) → get j (remove k m) ≡ (if k == j then none else get j m)
  unfolding get remove
  get-remove k j [] = ground arith
  get-remove k j ((i, w) ∷ m) = ground (arith, get-remove k j m)

  pub get_below : (n k : ℕ) (m : BTreeMap V) → From n m → k < n → get k m ≡ none
  unfolding get
  get_below n k [] f h = refl
  get_below n k ((j, v) ∷ m) f h = ground (arith, get_below (suc j) k m f.1)

  pub remove_absent : (k : ℕ) (m : BTreeMap V) → get k m ≡ none → remove k m ≡ m
  unfolding get remove
  remove_absent k [] h = refl
  remove_absent k ((j, v) ∷ m) h = ground (arith, remove_absent k m)

  pub remove_head : (k : ℕ) (v : V) (m : BTreeMap V) → From (suc k) m → remove k ((k, v) ∷ m) ≡ m
  unfolding remove
  remove_head k v m f = ground (arith, remove_absent k m, get_below (suc k) k m f)

  pub remove_tail :
      (k j : ℕ) (v : V) (m : BTreeMap V) → k < j → remove j ((k, v) ∷ m) ≡ (k, v) ∷ remove j m
  unfolding remove
  remove_tail k j v m h = ground arith

  pub insert-From : (n k : ℕ) (v : V) (m : BTreeMap V) → From n m → n ≤ k → From n (insert k v m)
  unfolding insert
  insert-From n k v [] f h = (h, tt)
  insert-From n k v ((j, w) ∷ m) f h = ground (arith, insert-From (suc j) k v m f.1)

  pub remove-From : (n k : ℕ) (m : BTreeMap V) → From n m → From n (remove k m)
  unfolding remove
  remove-From n k [] f = tt
  remove-From n k ((j, v) ∷ m) f =
      ground (arith, remove-From (suc j) k m f.1, From-mono n (suc j) (remove k m))

  -- A new entry is added to the others.
  pub insert-perm :
      (k : ℕ) (v : V) (m : BTreeMap V) → get k m ≡ none → Perm (insert k v m) ((k, v) ∷ m)
  unfolding get insert
  insert-perm k v [] h = Perm.refl _
  insert-perm k v ((j, w) ∷ m) h =
      let later = λ (e : get k m ≡ none).
        Perm.trans (Perm.cons (j, w) (insert-perm k v m e)) (Perm.swap (k, v) (j, w) m) in
      elim (Bool-cases (ltb k j)) [
        | inl lt ↦ rw lt (Perm.refl _)
        | inr ge ↦ rw ge (elim (Bool-cases (j == k)) [
          | inl same ↦ absurd (ground arith)
          | inr other ↦ rw other (later (ground arith))
        ])
      ]

  -- A removed entry is taken from the others.
  pub remove-perm :
      (n k : ℕ) (v : V) (m : BTreeMap V)
      → From n m
      → get k m ≡ some v
      → Perm m ((k, v) ∷ remove k m)
  unfolding get remove
  remove-perm n k v [] f h = cc
  remove-perm n k v ((j, w) ∷ m) f h = elim (Bool-cases (j == k)) [
    | inl same ↦
        rw (same, remove_absent k m (get_below (suc j) k m f.1 (ground arith)))
          (Perm.cons' (ground arith) Perm.rfl)
    | inr other ↦ rw other (
        Perm.trans (Perm.cons (j, w) (remove-perm (suc j) k v m f.1 (ground arith)))
          (Perm.swap (k, v) (j, w) (remove k m)))
  ]

  abbrev pub Entries {κ} : (ℕ → V → Type κ) → BTreeMap V → Type κ
  Entries P [] = Unit
  Entries P ((k, v) ∷ m) = P k v × Entries P m

  module _ {κ} (P : ℕ → V → Type κ) where
    pub Entries-insert :
        (k : ℕ) (v : V) (m : BTreeMap V) → P k v → Entries P m → Entries P (insert k v m)
    unfolding insert
    Entries-insert k v [] h f = (h, tt)
    Entries-insert k v ((j, w) ∷ m) h f = ground (arith, Entries-insert k v m h f.1)

    pub Entries-remove : (k : ℕ) (m : BTreeMap V) → Entries P m → Entries P (remove k m)
    unfolding remove
    Entries-remove k [] f = f
    Entries-remove k ((j, w) ∷ m) f = ground (arith, Entries-remove k m f.1)

    pub Entries-get : (k : ℕ) (v : V) (m : BTreeMap V) → Entries P m → get k m ≡ some v → P k v
    unfolding get
    Entries-get k v [] f h = absurd (cc)
    Entries-get k v ((j, w) ∷ m) f h = elim (Bool-cases (j == k)) [
      | inl same ↦ subst₂ P (ground arith) (ground arith) f.0
      | inr other ↦ Entries-get k v m f.1 (ground arith)
    ]
