-- ===== src/Prelude/TextMap.antt =====
-- `BTreeMap<String, V>` as the list of its entries by increasing key, and `BTreeSet<String>`.
use mathlib.Core.Path.{◌≡◌, refl, ◌∙◌}
use mathlib.Core.Bool.{Bool, true, false}
use mathlib.Core.Option.{Option, none, some}
use mathlib.Core.List.{List, [], ◌∷◌}
use native.Mathlib.Omega.{arith}
use whuse.Prelude.Tests.{if◌then◌else◌}
use whuse.Prelude.Text.{Text, text_eq, text_lt, text_eq_iff, text_eq_refl}

abbrev pub TextMap {ℓ} : Type ℓ → Type ℓ
TextMap V = List (Text × V)

module _ {ℓ} {V : Type ℓ} where
  unfoldable pub get : Text → TextMap V → Option V
  get k [] = none
  get k ((j, v) ∷ m) = if text_eq j k then some v else get k m

  unfoldable pub insert : Text → V → TextMap V → TextMap V
  insert k v [] = (k, v) ∷ []
  insert k v ((j, w) ∷ m) =
      if text_lt k j
      then (k, v) ∷ (j, w) ∷ m
      else if text_eq j k
      then (k, v) ∷ m
      else (j, w) ∷ insert k v m

  unfoldable pub remove : Text → TextMap V → TextMap V
  remove k [] = []
  remove k ((j, v) ∷ m) = if text_eq j k then remove k m else (j, v) ∷ remove k m

  abbrev pub contains_key : Text → TextMap V → Bool
  contains_key k m = elim (get k m) [ none ↦ false | some _ ↦ true ]

  pub get-insert :
      (k j : Text) (v : V) (m : TextMap V)
      → get j (insert k v m) ≡ (if text_eq k j then some v else get j m)
  unfolding get insert
  get-insert k j v [] = refl
  get-insert k j v ((i, w) ∷ m) =
      ground (arith, text_eq_iff k j, text_eq_iff i k, text_eq_iff i j, get-insert k j v m)

  pub get-remove :
      (k j : Text) (m : TextMap V) → get j (remove k m) ≡ (if text_eq k j then none else get j m)
  unfolding get remove
  get-remove k j [] = ground arith
  get-remove k j ((i, w) ∷ m) =
      ground (arith, text_eq_iff k j, text_eq_iff i k, text_eq_iff i j, get-remove k j m)

  pub get-insert_same : (k : Text) (v : V) (m : TextMap V) → get k (insert k v m) ≡ some v
  get-insert_same k v m = get-insert k k v m ∙ rw (text_eq_refl k) refl

  pub get-remove_same : (k : Text) (m : TextMap V) → get k (remove k m) ≡ none
  get-remove_same k m = get-remove k k m ∙ rw (text_eq_refl k) refl

  pub get-contains_key : (k : Text) (m : TextMap V) → contains_key k m ≡ false → get k m ≡ none
  get-contains_key k m h = ground arith

abbrev pub TextSet : Type 0
TextSet = TextMap (Unit {0})
