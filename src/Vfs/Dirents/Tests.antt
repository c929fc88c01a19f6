-- ===== src/Vfs/Dirents/Tests.antt =====
-- Directory reading of crates/vfs/src/lib.rs at concrete inputs.
use whuse.Prelude.{ℕ, ◌<◌, ◌≤◌, ◌+◌, ◌≡◌, refl, [], ◌∷◌, take, length, ok, arith}
use whuse.Prelude.BTreeMap.{get}
use whuse.Prelude.TextMap.{TextMap}
use whuse.Vfs.{no_end, node_at}
use whuse.Vfs.Dirents.{getdents}
use whuse.Vfs.Dirents.Records.{records, unread, Fits, getdents-records}
use whuse.Vfs.Tests.{outside, tree, handle}

-- The entries of "/".
abbrev root_entries : TextMap ℕ
root_entries = (97 ∷ [], 1) ∷ (100 ∷ [], 2) ∷ []

getdents-records_example :
    (count : ℕ) × (getdents outside tree (handle 0 0 no_end) 30 ≡ (
      tree,
      handle 0 (0 + count) no_end,
      ok (records 0 (take count (unread tree (handle 0 0 no_end) root_entries))),
    ))
    × (count ≤ length (unread tree (handle 0 0 no_end) root_entries))
    × Fits 30 (records 0 (take count (unread tree (handle 0 0 no_end) root_entries))) count
    × (0 < length (unread tree (handle 0 0 no_end) root_entries) → 0 < count)
unfolding node_at get
getdents-records_example =
    getdents-records outside tree (handle 0 0 no_end) 30 root_entries refl (ground arith)
      (ground arith)
