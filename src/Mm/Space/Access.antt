-- ===== src/Mm/Space/Access.antt =====
-- crates/mm/src/lib.rs: reads and writes of user memory. The fuel of a loop is the bytes that are
-- left, since each turn moves one at least.
use whuse.Prelude.{
  ℕ, zero, suc, ◌+◌, ◌-◌, ◌*◌, ◌%◌, min, max, Bool, true, false, List, [], ◌∷◌, ◌++◌, Option, none,
  some, ltb, ◌==◌, if◌then◌else◌, length, take, drop, KernelResult, ok, err, ok_or, ◌>>=◌,
}
use whuse.Prelude.Errno
use whuse.Prelude.Text.{is_empty}
use whuse.Prelude.Words.{wrapping_add, checked_add}
use whuse.Mm.{SegmentStorage, owned, shared, host, page_size, default_prot}
use whuse.Mm.Mappings.{find_segment}
use whuse.Mm.Mappings.Slices.{byte_address}
use whuse.Mm.Space.{map_fixed_bytes}
use whuse.Mm.Space.Storage.{Platform, World, M, write_memory}

-- `from_raw_parts`
abbrev pub bytes_from : (ℕ → ℕ) → ℕ → ℕ → List ℕ
bytes_from memory ptr zero = []
bytes_from memory ptr (suc n) = memory ptr ∷ bytes_from memory (suc ptr) n

-- The loop of `read_bytes`.
unfoldable pub read_loop : ℕ → Platform → World → ℕ → ℕ → KernelResult (List ℕ)
unfolding find_segment byte_address
read_loop zero platform w cursor remaining = ok []
read_loop (suc fuel) platform w cursor remaining = elim (remaining == 0) [
  | true ↦ ok []
  | false ↦ find_segment w.space.mappings cursor 1 >>= λ found.
      let taken = min (found.0.area.len - found.1) remaining in
      elim (taken == 0) [
        | true ↦ err Errno.efault
        | false ↦ ok_or (checked_add cursor taken) Errno.efault >>= λ next.
            read_loop fuel platform w next (remaining - taken) >>= λ rest.
            ok (
              bytes_from w.memory (byte_address platform.phys_to_virt found.0 found.1) taken
              ++ rest)
      ]
]

unfoldable pub read_bytes : Platform → World → ℕ → ℕ → KernelResult (List ℕ)
unfolding read_loop
read_bytes platform w addr len =
    if len == 0
    then ok []
    else if platform.can_reserve len
    then read_loop len platform w addr len
    else err Errno.enomem

-- A host range that is shorter than its segment.
abbrev refuses : SegmentStorage → ℕ → Bool
refuses (owned frames) end = false
refuses (shared bytes ptr) end = false
refuses (host ptr len) end = ltb len end

-- The loop of `write_bytes`; what it has written stays where it fails.
unfoldable pub write_loop : ℕ → Platform → ℕ → List ℕ → M (Unit {0})
unfolding find_segment byte_address write_memory
write_loop zero platform cursor bytes w = (w, ok tt)
write_loop (suc fuel) platform cursor bytes w = elim (is_empty bytes) [
  | true ↦ (w, ok tt)
  | false ↦ elim (find_segment w.space.mappings cursor 1) [
    | err e ↦ (w, err e)
    | ok found ↦
        let taken = min (found.0.area.len - found.1) (length bytes) in
        elim (refuses found.0.storage (wrapping_add found.1 taken)) [
          | true ↦ (w, err Errno.efault)
          | false ↦
              let w' = record w {
                memory =
                    write_memory (byte_address platform.phys_to_virt found.0 found.1)
                      (take taken bytes) w.memory;
              } in
              elim (checked_add cursor taken) [
                | none ↦ (w', err Errno.efault)
                | some next ↦ write_loop fuel platform next (drop taken bytes) w'
              ]
        ]
  ]
]

unfoldable pub write_bytes : Platform → ℕ → List ℕ → M (Unit {0})
unfolding write_loop
write_bytes platform addr bytes = write_loop (length bytes) platform addr bytes

abbrev or_map : Platform → ℕ → List ℕ → World × KernelResult (Unit {0}) → World
or_map platform addr bytes (w, ok done) = w
or_map platform addr bytes (w, err e) =
    let r = map_fixed_bytes platform addr bytes (max (length bytes) 1) default_prot w in r.0

unfoldable pub install_bytes : Platform → ℕ → List ℕ → World → World
unfolding write_bytes map_fixed_bytes
install_bytes platform addr bytes w = or_map platform addr bytes (write_bytes platform addr bytes w)

abbrev max_str_len : ℕ
max_str_len = 16 * page_size

-- What comes before the first zero.
abbrev before_nul : List ℕ → Option (List ℕ)
before_nul [] = none
before_nul (b ∷ bytes) =
    if b == 0
    then some []
    else elim (before_nul bytes) [ none ↦ none | some rest ↦ some (b ∷ rest) ]

-- The bytes so far, and whether the string has ended.
abbrev Progress : Type 0
Progress = Bool × List ℕ

abbrev first_byte : List ℕ → ℕ
first_byte [] = 0
first_byte (b ∷ bytes) = b

-- Byte by byte, where the mapping is shorter than the chunk.
unfoldable probe_bytes : ℕ → Platform → World → ℕ → List ℕ → KernelResult Progress
unfolding read_bytes
probe_bytes zero platform w addr out = ok (false, out)
probe_bytes (suc n) platform w addr out = elim (read_bytes platform w addr 1) [
  | err e ↦ err Errno.efault
  | ok bytes ↦ elim (first_byte bytes == 0) [
    | true ↦ ok (true, out)
    | false ↦ probe_bytes n platform w (wrapping_add addr 1) (out ++ first_byte bytes ∷ [])
  ]
]

abbrev chunk_read :
    Platform → World → ℕ → ℕ → List ℕ → KernelResult (List ℕ) → KernelResult Progress
chunk_read platform w addr chunk_len out (err e) = probe_bytes chunk_len platform w addr out
chunk_read platform w addr chunk_len out (ok chunk) = elim (before_nul chunk) [
  | some rest ↦ ok (true, out ++ rest)
  | none ↦ ok (false, out ++ chunk)
]

-- The loop of `read_cstr` over pages, at an offset; `is_utf8` is the test of `String::from_utf8`.
unfoldable cstr_loop :
    ℕ → Platform → World → (List ℕ → Bool) → ℕ → ℕ → List ℕ → KernelResult (List ℕ)
unfolding read_bytes probe_bytes
cstr_loop zero platform w is_utf8 addr offset out = err Errno.efault
cstr_loop (suc fuel) platform w is_utf8 addr offset out = elim (ltb offset max_str_len) [
  | false ↦ err Errno.efault
  | true ↦
      let here = wrapping_add addr offset in
      let chunk_len = min (page_size - here % page_size) (max_str_len - offset) in
      chunk_read platform w here chunk_len out (read_bytes platform w here chunk_len)
      >>= λ progress. elim progress.0 [
        | true ↦ if is_utf8 progress.1 then ok progress.1 else err Errno.efault
        | false ↦ cstr_loop fuel platform w is_utf8 addr (offset + chunk_len) progress.1
      ]
]

-- 16 pages of bytes lie in 17 pages at most.
unfoldable pub read_cstr : Platform → World → (List ℕ → Bool) → ℕ → KernelResult (List ℕ)
unfolding cstr_loop
read_cstr platform w is_utf8 addr = cstr_loop 17 platform w is_utf8 addr 0 []
