-- ===== src/Prelude/Words.antt =====
-- `usize` and `u64` as numbers below 2 ^ 64. An unchecked `+` wraps, as in a release build.
use Prim.Native.Nat.{ℕ, ◌+◌, ◌-◌, ◌%◌, ◌^◌, ◌<◌}
use mathlib.Core.Path.{◌≡◌}
use mathlib.Core.Option.{Option, none, some}
use native.Mathlib.Omega.{arith}
use whuse.Prelude.Tests.{ltb, leb, if◌then◌else◌}

abbrev pub usize_mod : ℕ
usize_mod = 2 ^ 64

-- `a + b`
abbrev pub wrapping_add : ℕ → ℕ → ℕ
wrapping_add a b = (a + b) % usize_mod

-- `a.checked_add(b)`
abbrev pub checked_add : ℕ → ℕ → Option ℕ
checked_add a b = if ltb (a + b) usize_mod then some (a + b) else none

-- `a.saturating_add(b)`
abbrev pub saturating_add : ℕ → ℕ → ℕ
saturating_add a b = if ltb (a + b) usize_mod then a + b else usize_mod - 1

-- `a.checked_sub(b)`
abbrev pub checked_sub : ℕ → ℕ → Option ℕ
checked_sub a b = if leb b a then some (a - b) else none

pub checked_add-some : (a b c : ℕ) → checked_add a b ≡ some c → (c ≡ a + b) × (a + b < usize_mod)
checked_add-some a b c h = ground arith

pub wrapping_add-of_fits : (a b : ℕ) → a + b < usize_mod → wrapping_add a b ≡ a + b
wrapping_add-of_fits a b h = omega arith

-- `align_down` and `align_up` of crates/mm for an alignment that is a power of two, where
-- `x & !(a - 1)` is `x - x % a`.
abbrev pub align_down : ℕ → ℕ → ℕ
align_down value alignment = value - value % alignment

abbrev pub align_up : ℕ → ℕ → ℕ
align_up value alignment =
    let bumped = (value + alignment - 1) % usize_mod in bumped - bumped % alignment
