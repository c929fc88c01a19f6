-- ===== src/Proc/Fds/Slots.antt =====
-- crates/proc/src/lib.rs: `add_fd` takes the lowest free descriptor.
use whuse.Prelude.{
  ℕ, zero, suc, ◌≤◌, ◌<◌, ◌≡◌, refl, true, [], ◌∷◌, none, some, arith, ◌==◌, if◌then◌else◌, length,
  Bool-cases, inl, inr,
}
use whuse.Prelude.BTreeMap.{
  BTreeMap, get, insert, contains_key, From, From-mono, get_below, get-insert, IsSorted,
}
use whuse.Vfs.{FileHandle}
use whuse.Proc.{Process}
use whuse.Proc.Fds.{free_slot, add_fd}

-- Entries below the place of the search do not matter.
free_slot_above :
    (fuel fd k : ℕ) (h : FileHandle) (m : BTreeMap FileHandle)
    → k < fd
    → free_slot fuel fd ((k, h) ∷ m) ≡ free_slot fuel fd m
unfolding free_slot get
free_slot_above zero fd k h m below = refl
free_slot_above (suc fuel) fd k h m below =
    ground (arith, free_slot_above fuel (suc fd) k h m (omega arith))

-- The slot is free, and those from the first on below it are not.
abbrev IsLowest : ℕ → ℕ → BTreeMap FileHandle → Type 0
IsLowest fd g m = (get g m ≡ none) × (fd ≤ g) × ((j : ℕ) → fd ≤ j → j < g → contains_key j m ≡ true)

free_slot_lem :
    (fd : ℕ) (m : BTreeMap FileHandle)
    → From fd m
    → (g : ℕ) × (free_slot (suc (length m)) fd m ≡ some g) × IsLowest fd g m
unfolding free_slot get
free_slot_lem fd [] f = (fd, refl, (refl, omega arith, λ j a b. absurd (omega arith)))
free_slot_lem fd ((k, h) ∷ m) f = elim (Bool-cases (k == fd)) [
  | inl here ↦
      let (g, found, lowest) =
        free_slot_lem (suc fd) m (From-mono (suc fd) (suc k) m (ground arith) f.1) in
      (
        g,
        ground (arith, found, free_slot_above (suc (length m)) (suc fd) k h m),
        (ground (arith, lowest.0), omega (arith, lowest.1), λ j a b. ground (arith, lowest.2 j)),
      )
  | inr other ↦ (
    fd,
    ground (arith, get_below (suc k) fd m f.1),
    (ground (arith, get_below (suc k) fd m f.1), omega arith, λ j a b. absurd (omega arith)),
  )
]

-- A new descriptor is the lowest that is free; it stands for the handle and leads itself, and the
-- others stay.
pub add_fd_lem :
    (handle : FileHandle) (p : Process)
    → IsSorted p.fds
    → (fd : ℕ) × (p' : Process) × (add_fd handle p ≡ some (p', fd))
      × (get fd p.fds ≡ none)
      × ((j : ℕ) → j < fd → contains_key j p.fds ≡ true)
      × ((k : ℕ) → get k p'.fds ≡ (if fd == k then some handle else get k p.fds))
      × ((k : ℕ) → get k p'.fd_alias ≡ (if fd == k then some fd else get k p.fd_alias))
unfolding add_fd
add_fd_lem handle p sorted =
    let (fd, found, lowest) = free_slot_lem 0 p.fds sorted in
    (
      fd,
      record p { fds = insert fd handle p.fds; fd_alias = insert fd fd p.fd_alias },
      runs fd found,
      lowest.0,
      (λ j b. lowest.2 j (omega arith) b),
      (λ k. get-insert fd k handle p.fds),
      (λ k. get-insert fd k fd p.fd_alias),
    )
  where
    runs :
        (fd : ℕ)
        → free_slot (suc (length p.fds)) 0 p.fds ≡ some fd
        → add_fd handle p
          ≡ some (record p { fds = insert fd handle p.fds; fd_alias = insert fd fd p.fd_alias }, fd)
    runs fd found = rw (add_fd, found) refl
