-- ===== src/Prelude/Bytes.antt =====
-- The elements of lists that are put together and cut.
use Prim.Native.Nat.{ℕ, zero, suc, ◌+◌, ◌-◌, ◌≤◌, ◌<◌, min}
use mathlib.Core.Path.{◌≡◌, refl, ap}
use mathlib.Core.List.{List, [], ◌∷◌, ◌++◌}
use native.Mathlib.Omega.{arith}
use whuse.Prelude.Tests.{ltb, if◌then◌else◌}
use whuse.Prelude.Lists.{length, take, drop, get_or, replicate}

module _ {ℓ} {A : Type ℓ} (d : A) where
  pub get_or-append :
      (xs ys : List A) (k : ℕ)
      → get_or (xs ++ ys) k d
        ≡ (if ltb k (length xs) then get_or xs k d else get_or ys (k - length xs) d)
  get_or-append [] ys k = ground arith
  get_or-append (x ∷ xs) ys zero = ground arith
  get_or-append (x ∷ xs) ys (suc k) = ground (arith, get_or-append xs ys k)

  pub get_or-take : (n : ℕ) (xs : List A) (k : ℕ) → k < n → get_or (take n xs) k d ≡ get_or xs k d
  get_or-take zero xs k h = absurd (omega arith)
  get_or-take (suc n) [] k h = refl
  get_or-take (suc n) (x ∷ xs) zero h = refl
  get_or-take (suc n) (x ∷ xs) (suc k) h = get_or-take n xs k (omega arith)

  pub get_or-drop : (n : ℕ) (xs : List A) (k : ℕ) → get_or (drop n xs) k d ≡ get_or xs (n + k) d
  get_or-drop zero xs k = ground arith
  get_or-drop (suc n) [] k = ground arith
  get_or-drop (suc n) (x ∷ xs) k = ground (arith, get_or-drop n xs k)

  pub get_or-replicate : (n k : ℕ) → get_or (replicate n d) k d ≡ d
  get_or-replicate zero k = refl
  get_or-replicate (suc n) zero = refl
  get_or-replicate (suc n) (suc k) = get_or-replicate n k

  pub get_or_beyond : (xs : List A) (k : ℕ) → length xs ≤ k → get_or xs k d ≡ d
  get_or_beyond [] k h = refl
  get_or_beyond (x ∷ xs) zero h = absurd (omega arith)
  get_or_beyond (x ∷ xs) (suc k) h = get_or_beyond xs k (omega arith)

module _ {ℓ} {A : Type ℓ} where
  pub length-take : (n : ℕ) (xs : List A) → length (take n xs) ≡ min n (length xs)
  length-take zero xs = omega arith
  length-take (suc n) [] = omega arith
  length-take (suc n) (x ∷ xs) = omega (arith, length-take n xs)

  pub length-drop : (n : ℕ) (xs : List A) → length (drop n xs) ≡ length xs - n
  length-drop zero xs = omega arith
  length-drop (suc n) [] = omega arith
  length-drop (suc n) (x ∷ xs) = omega (arith, length-drop n xs)

  pub drop-append : (xs ys : List A) → drop (length xs) (xs ++ ys) ≡ ys
  drop-append [] ys = refl
  drop-append (x ∷ xs) ys = drop-append xs ys

  pub take-append : (xs ys : List A) → take (length xs) (xs ++ ys) ≡ xs
  take-append [] ys = refl
  take-append (x ∷ xs) ys = ap (λ t. x ∷ t) (take-append xs ys)

  pub take-append-drop : (n : ℕ) (xs : List A) → take n xs ++ drop n xs ≡ xs
  take-append-drop zero xs = refl
  take-append-drop (suc n) [] = refl
  take-append-drop (suc n) (x ∷ xs) = ap (λ ys. x ∷ ys) (take-append-drop n xs)
