-- ===== src/Mm/Stack.antt =====
-- crates/mm/src/lib.rs: `build_initial_stack`. The vector `stack` of the source is only ever used from
-- `string_cursor` on; that part is kept here.
use whuse.Prelude.{
  ℕ, ◌+◌, ◌-◌, ◌%◌, List, [], ◌∷◌, ◌++◌, Option, none, some, ltb, if◌then◌else◌, length, replicate,
  KernelResult, ok, err,
}
use whuse.Prelude.Errno
use whuse.Prelude.Words.{usize_mod, align_up}
use whuse.Prelude.Text.{Text, to_le_bytes}
use whuse.Mm.{user_stack_size}

abbrev aux_random_bytes : List ℕ
aux_random_bytes =
    0x57 ∷ 0x68 ∷ 0x75 ∷ 0x73 ∷ 0x65 ∷ 0x2d ∷ 0x72 ∷ 0x76 ∷ 0x2d ∷ 0x61 ∷ 0x75 ∷ 0x78 ∷ 0x76 ∷ 0x2d
    ∷ 0x31 ∷ 0x36 ∷ []

-- The bytes below the top after `push_blob`, and their address.
abbrev pub push_blob : ℕ → List ℕ → List ℕ → List ℕ × ℕ
push_blob stack_top blob below =
    let pushed = blob ++ below in (pushed, (stack_top + usize_mod - length pushed) % usize_mod)

-- The strings of a list, each with a zero, the first one on top, and their addresses in order.
abbrev pub push_strings : ℕ → List Text → List ℕ → List ℕ × List ℕ
push_strings stack_top [] below = (below, [])
push_strings stack_top (entry ∷ entries) below =
    let first = push_blob stack_top (entry ++ 0 ∷ []) below in
    let rest = push_strings stack_top entries first.0 in (rest.0, first.1 ∷ rest.1)

abbrev push_execfn : ℕ → Option Text → List ℕ → List ℕ × List ℕ
push_execfn stack_top none below = (below, [])
push_execfn stack_top (some value) below =
    let pushed = push_blob stack_top (value ++ 0 ∷ []) below in (pushed.0, 31 ∷ pushed.1 ∷ [])

abbrev aux_words : List (ℕ × ℕ) → List ℕ
aux_words [] = []
aux_words ((key, value) ∷ auxv) = key ∷ value ∷ aux_words auxv

abbrev word_bytes : List ℕ → List ℕ
word_bytes [] = []
word_bytes (word ∷ words) = to_le_bytes 8 word ++ word_bytes words

-- The head and the strings, with the zeros between them that make the whole a multiple of 16.
abbrev stack_image : List ℕ → List ℕ → KernelResult (List ℕ)
stack_image head strings =
    let total = length head + length strings in
    if ltb user_stack_size total
    then err Errno.enomem
    else ok (head ++ replicate (align_up total 16 - total) 0 ++ strings)

unfoldable pub build_initial_stack :
    List Text → List Text → ℕ → List (ℕ × ℕ) → Option Text → KernelResult (List ℕ)
unfolding to_le_bytes
build_initial_stack args envs stack_top auxv execfn =
    let arg_ptrs = push_strings stack_top args [] in
    let env_ptrs = push_strings stack_top envs arg_ptrs.0 in
    let name = push_execfn stack_top execfn env_ptrs.0 in
    let random = push_blob stack_top aux_random_bytes name.0 in
    stack_image
      (word_bytes (
        length args ∷ arg_ptrs.1
        ++ 0 ∷ env_ptrs.1
        ++ 0 ∷ aux_words auxv
        ++ 25 ∷ random.1 ∷ name.1
        ++ 0 ∷ 0 ∷ []))
      random.0
