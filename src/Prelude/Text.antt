-- ===== src/Prelude/Text.antt =====
-- Texts as lists of bytes, with the operations of `str` that the crates use.
use Prim.Native.Nat.{ℕ, zero, suc, ◌+◌, ◌*◌, ◌/◌, ◌%◌}
use Prim.Native.Char.{code}
use Prim.Native.String.{String}
use mathlib.Core.Path.{◌≡◌, refl}
use mathlib.Core.Logic.{◌↔◌}
use mathlib.Core.Bool.{Bool, true, false, ◌&&◌}
use mathlib.Core.List.{List, [], ◌∷◌, ◌++◌}
use mathlib.Core.Option.{Option, none, some}
use native.Mathlib.Omega.{arith}
use whuse.Prelude.Tests.{ltb, ◌==◌, if◌then◌else◌}

abbrev pub Text : Type 0
Text = List ℕ

unfoldable pub text_eq : Text → Text → Bool
text_eq [] [] = true
text_eq [] (b ∷ t) = false
text_eq (a ∷ s) [] = false
text_eq (a ∷ s) (b ∷ t) = a == b && text_eq s t

-- The order of `str`, by bytes.
unfoldable pub text_lt : Text → Text → Bool
text_lt s [] = false
text_lt [] (b ∷ t) = true
text_lt (a ∷ s) (b ∷ t) = if a == b then text_lt s t else ltb a b

pub text_eq_iff : (s t : Text) → (text_eq s t ≡ true) ↔ (s ≡ t)
unfolding text_eq
text_eq_iff [] [] = ground arith
text_eq_iff [] (b ∷ t) = ground arith
text_eq_iff (a ∷ s) [] = ground arith
text_eq_iff (a ∷ s) (b ∷ t) = ground (arith, text_eq_iff s t)

pub text_eq_refl : (s : Text) → text_eq s s ≡ true
text_eq_refl s = (text_eq_iff s s).1 refl

-- `s.strip_prefix(p)`
unfoldable pub strip_prefix : Text → Text → Option Text
strip_prefix [] s = some s
strip_prefix (b ∷ p) [] = none
strip_prefix (b ∷ p) (a ∷ s) = if a == b then strip_prefix p s else none

-- `s.starts_with(p)`
unfoldable pub starts_with : Text → Text → Bool
starts_with [] s = true
starts_with (b ∷ p) [] = false
starts_with (b ∷ p) (a ∷ s) = a == b && starts_with p s

abbrev pub is_empty {ℓ} : {A : Type ℓ} → List A → Bool
is_empty [] = true
is_empty (x ∷ xs) = false

abbrev pub join_first : ℕ → List Text → List Text
join_first c [] = (c ∷ []) ∷ []
join_first c (part ∷ parts) = (c ∷ part) ∷ parts

-- `s.split(sep)`
unfoldable pub split : ℕ → Text → List Text
split sep [] = [] ∷ []
split sep (c ∷ s) = let rest = split sep s in if c == sep then [] ∷ rest else join_first c rest

-- `parts.join(sep)`
unfoldable pub join : ℕ → List Text → Text
join sep [] = []
join sep (part ∷ []) = part
join sep (part ∷ next ∷ parts) = part ++ sep ∷ join sep (next ∷ parts)

-- `s.trim_end_matches(c)`
unfoldable pub trim_end : ℕ → Text → Text
trim_end c [] = []
trim_end c (a ∷ s) = let rest = trim_end c s in if is_empty rest && a == c then [] else a ∷ rest

abbrev pub split_before : ℕ → ℕ → Text → Option (Text × Text) → Option (Text × Text)
split_before sep c s none = if c == sep then some ([], s) else none
split_before sep c s (some (before, after)) = some (c ∷ before, after)

-- `s.rsplit_once(sep)`: what is before the last separator, and what is after it.
unfoldable pub rsplit_once : ℕ → Text → Option (Text × Text)
rsplit_once sep [] = none
rsplit_once sep (c ∷ s) = split_before sep c s (rsplit_once sep s)

-- The bytes of an ASCII literal.
abbrev pub bytes : String → Text
bytes String.[] = []
bytes (String.◌∷◌ c rest) = code c ∷ bytes rest

-- `to_le_bytes` in so many bytes, and `from_le_bytes`.
unfoldable pub to_le_bytes : ℕ → ℕ → Text
to_le_bytes zero n = []
to_le_bytes (suc width) n = n % 256 ∷ to_le_bytes width (n / 256)

unfoldable pub from_le_bytes : Text → ℕ
from_le_bytes [] = 0
from_le_bytes (b ∷ rest) = b + 256 * from_le_bytes rest

unfoldable digits : ℕ → ℕ → Text → Text
digits zero n tail = tail
digits (suc fuel) n tail =
    let rest = digits fuel (n / 10) ((48 + n % 10) ∷ tail) in
    if ltb n 10 then (48 + n) ∷ tail else rest

-- `{}` for a `usize`, which has at most 20 digits.
unfoldable pub decimal : ℕ → Text
unfolding digits
decimal n = digits 20 n []
