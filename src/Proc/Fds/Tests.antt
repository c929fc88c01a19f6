-- ===== src/Proc/Fds/Tests.antt =====
-- The file descriptors of crates/proc/src/lib.rs at concrete inputs.
use whuse.Prelude.{ℕ, ◌<◌, ◌≡◌, refl, true, [], ◌∷◌, none, some, ok, arith, ◌==◌, if◌then◌else◌}
use whuse.Prelude.BTreeMap.{get, contains_key, remove}
use whuse.Vfs.{FileHandle, no_end}
use whuse.Proc.{Process}
use whuse.Proc.Fds.{add_fd, close_fd, replacements}
use whuse.Proc.Fds.Slots
use whuse.Proc.Fds.Closing
use whuse.Proc.Fds.Closing.{led_by, first_of}
use whuse.Proc.Table.Tests.{thread}

abbrev handle : ℕ → FileHandle
handle node = record { node = node; offset = 0; flags = 0; path = []; pipe_end = no_end }

-- The descriptors 0, 1, 3 and 4 are open, and 1 leads the last two.
abbrev shell : Process
shell = record (thread 2 2 (some 1) 0) {
  fds = (0, handle 7) ∷ (1, handle 8) ∷ (3, handle 8) ∷ (4, handle 8) ∷ [];
  fd_alias = (0, 0) ∷ (1, 1) ∷ (3, 1) ∷ (4, 1) ∷ [];
}

add_fd_lem_example :
    (fd : ℕ) × (p' : Process) × (add_fd (handle 9) shell ≡ some (p', fd))
    × (get fd shell.fds ≡ none)
    × ((j : ℕ) → j < fd → contains_key j shell.fds ≡ true)
    × ((k : ℕ) → get k p'.fds ≡ (if fd == k then some (handle 9) else get k shell.fds))
    × ((k : ℕ) → get k p'.fd_alias ≡ (if fd == k then some fd else get k shell.fd_alias))
add_fd_lem_example = Slots.add_fd_lem (handle 9) shell (omega arith)

close_fd_lem_example :
    (p' : Process) × (close_fd 1 shell ≡ ok p')
    × ((k : ℕ) → get k p'.fds ≡ (if 1 == k then none else get k shell.fds))
    × ((k : ℕ)
        → get k p'.fd_alias ≡ (
            if 1 == k
            then none
            else led_by 1
                (first_of (replacements 1 (remove 1 shell.fd_alias)))
                (get k shell.fd_alias)))
unfolding get
close_fd_lem_example = Closing.close_fd_lem 1 shell (omega arith) refl
