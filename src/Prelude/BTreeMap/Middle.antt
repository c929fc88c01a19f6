-- ===== src/Prelude/BTreeMap/Middle.antt =====
-- Operations on a map that is written as the entries before a key and those from it on.
use mathlib.Core.List.{append_assoc}
use whuse.Prelude.{ap, sym, ◌∙◌, ℕ, suc, ◌≤◌, ◌<◌, ◌≡◌, refl, [], ◌∷◌, ◌++◌, some, arith}
use whuse.Prelude.BTreeMap.{BTreeMap, get, insert, remove, remove_head, From}

module _ {ℓ} {V : Type ℓ} where
  -- All keys lie below `n`.
  abbrev pub Below : ℕ → BTreeMap V → Type 0
  Below n [] = Unit {0}
  Below n ((k, v) ∷ m) = (k < n) × Below n m

  pub Below-mono : (a b : ℕ) (m : BTreeMap V) → a ≤ b → Below a m → Below b m
  Below-mono a b [] h f = tt
  Below-mono a b ((k, v) ∷ m) h f = (omega arith, Below-mono a b m h f.1)

  pub Below-append : (n : ℕ) (xs ys : BTreeMap V) → Below n xs → Below n ys → Below n (xs ++ ys)
  Below-append n [] ys f g = g
  Below-append n ((k, v) ∷ xs) ys f g = (f.0, Below-append n xs ys f.1 g)

  pub get-middle :
      (k : ℕ) (v : V) (xs ys : BTreeMap V) → Below k xs → get k (xs ++ (k, v) ∷ ys) ≡ some v
  unfolding get
  get-middle k v [] ys f = ground arith
  get-middle k v ((j, w) ∷ xs) ys f = ground (arith, get-middle k v xs ys f.1)

  pub remove-middle :
      (k : ℕ) (v : V) (xs ys : BTreeMap V)
      → Below k xs
      → From (suc k) ys
      → remove k (xs ++ (k, v) ∷ ys) ≡ xs ++ ys
  unfolding remove
  remove-middle k v [] ys f g = remove_head k v ys g
  remove-middle k v ((j, w) ∷ xs) ys f g = ground (arith, remove-middle k v xs ys f.1 g)

  pub insert-middle :
      (k : ℕ) (v : V) (xs ys : BTreeMap V)
      → Below k xs
      → From (suc k) ys
      → insert k v (xs ++ ys) ≡ xs ++ (k, v) ∷ ys
  unfolding insert
  insert-middle k v [] [] f g = refl
  insert-middle k v [] ((i, u) ∷ ys) f g = ground arith
  insert-middle k v ((j, w) ∷ xs) ys f g = ground (arith, insert-middle k v xs ys f.1 g)

  -- The same behind more entries.
  pub insert-second :
      (k : ℕ) (v : V) (xs zs ys : BTreeMap V)
      → Below k xs
      → Below k zs
      → From (suc k) ys
      → insert k v (xs ++ (zs ++ ys)) ≡ xs ++ (zs ++ (k, v) ∷ ys)
  insert-second k v xs zs ys f g h =
      ap (insert k v) (sym (append_assoc xs zs ys))
      ∙ insert-middle k v (xs ++ zs) ys (Below-append k xs zs f g) h
      ∙ append_assoc xs zs _
