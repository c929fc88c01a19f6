-- ===== src/Prelude/Results.antt =====
-- `KernelResult<T>`, which is `Result<T, i32>` with a positive error number.
use Prim.Native.Nat.{ℕ}
use mathlib.Core.Option.{Option, none, some}
use mathlib.Core.Path.{◌≡◌, refl, ap}
use mathlib.Core.Logic.{◌⊎◌, ◌≢◌, inl, inr}
use mathlib.Core.Bool.{Bool, true, false}
use native.Mathlib.Omega.{arith}
use whuse.Prelude.Tests.{if◌then◌else◌}

pub data KernelResult {ℓ} (T : Type ℓ) : Type ℓ where
  ok : T → KernelResult T
  err : (errno : ℕ) → KernelResult T

-- `ok_or(e)?`
abbrev pub ok_or {ℓ} : {T : Type ℓ} → Option T → ℕ → KernelResult T
ok_or none errno = err errno
ok_or (some value) errno = ok value

-- The question mark.
infixl 5 ◌>>=◌
abbrev pub ◌>>=◌ {ℓ κ} :
    {T : Type ℓ} {U : Type κ} → KernelResult T → (T → KernelResult U) → KernelResult U
◌>>=◌ result next = elim result [ ok value ↦ next value | err errno ↦ err errno ]

-- To split on a result and keep the equation.
pub KernelResult-cases {ℓ} :
    {T : Type ℓ} (r : KernelResult T) → ((a : T) × (r ≡ ok a)) ⊎ ((e : ℕ) × (r ≡ err e))
KernelResult-cases (ok a) = inl (a, refl)
KernelResult-cases (err e) = inr (e, refl)

abbrev value_or {ℓ} : {T : Type ℓ} → T → KernelResult T → T
value_or a (ok b) = b
value_or a (err e) = a

pub ok-injective {ℓ} : {T : Type ℓ} {a b : T} → ok a ≡ ok b → a ≡ b
ok-injective {a = a} h = ap (value_or a) h

pub err≢ok {ℓ} : {T : Type ℓ} {a : T} {errno : ℕ} → err errno ≢ ok a
err≢ok h = ground arith

pub ok_or-ok {ℓ} :
    {T : Type ℓ} {a : T} (o : Option T) (errno : ℕ) → ok_or o errno ≡ ok a → o ≡ some a
ok_or-ok none errno h = absurd (err≢ok h)
ok_or-ok (some b) errno h = ap some (ok-injective h)

-- What a chain returns came from its first link.
pub bind_ok {ℓ κ} :
    {T : Type ℓ} {U : Type κ} (r : KernelResult T) (next : T → KernelResult U) {u : U}
    → (r >>= next) ≡ ok u
    → (a : T) × (r ≡ ok a) × (next a ≡ ok u)
bind_ok (ok a) next h = (a, refl, h)
bind_ok (err e) next h = absurd (err≢ok h)

pub guard_ok {ℓ} :
    {T : Type ℓ} {a u : T} (b : Bool) (errno : ℕ)
    → (if b then err errno else ok a) ≡ ok u
    → (b ≡ false) × (a ≡ u)
guard_ok true errno h = absurd (err≢ok h)
guard_ok false errno h = (refl, ok-injective h)
