-- ===== src/Vfs/Pipes.antt =====
-- crates/vfs/src/lib.rs: a pipe passes on, in order and once each, the bytes that are written to it.
use mathlib.Core.List.{append-nil, append_assoc}
use whuse.Prelude.{
  ℕ, ◌≡◌, refl, sym, ap, ◌∙◌, ◌==◌, Bool, true, false, List, [], ◌∷◌, ◌++◌, arith, KernelResult, ok,
  err,
}
use whuse.Prelude.Bytes.{take-append-drop}
use whuse.Prelude.Integers.{ℤ}
use whuse.Vfs.{
  FileHandle, PipeEnd, no_end, read_end, write_end, pipe, PipeState, Heap, Outside, node_at,
  set_contents,
}
use whuse.Vfs.Heaps.{contents-set_contents}
use whuse.Vfs.Objects.{adjust_pipe, adjust_pipe_refcount}
use whuse.Vfs.Objects.Reading.{take_front, read_pipe, read_object}
use whuse.Vfs.Objects.Writing.{write_pipe, write_object}

abbrev got : KernelResult (List ℕ) → List ℕ
got (ok bytes) = bytes
got (err errno) = []

abbrev accepted : List ℕ → KernelResult ℕ → List ℕ
accepted bytes (ok n) = bytes
accepted bytes (err errno) = []

take_front_lem :
    (len : ℕ) (buf : List ℕ) (closed : Bool)
    → got (take_front len buf closed).1 ++ (take_front len buf closed).0 ≡ buf
take_front_lem len [] true = refl
take_front_lem len [] false = refl
take_front_lem len (b ∷ buf) closed = take-append-drop len (b ∷ buf)

read_pipe_lem :
    (len : ℕ) (end : PipeEnd) (state : PipeState)
    → got (read_pipe len end state).1 ++ (read_pipe len end state).0.buf ≡ state.buf
unfolding read_pipe
read_pipe_lem len no_end state = take_front_lem len state.buf (state.writers == 0)
read_pipe_lem len read_end state = take_front_lem len state.buf (state.writers == 0)
read_pipe_lem len write_end state = refl

write_pipe_lem :
    (bytes : List ℕ) (end : PipeEnd) (state : PipeState)
    → (write_pipe bytes end state).0.buf
      ≡ state.buf ++ accepted bytes (write_pipe bytes end state).1
unfolding write_pipe
write_pipe_lem bytes read_end state = sym (append-nil state.buf)
write_pipe_lem [] no_end state = sym (append-nil state.buf)
write_pipe_lem [] write_end state = sym (append-nil state.buf)
write_pipe_lem (b ∷ bytes) no_end state = ground (arith, append-nil state.buf)
write_pipe_lem (b ∷ bytes) write_end state = ground (arith, append-nil state.buf)

-- A call through a handle on one pipe: reading, writing, cloning and dropping.
pub data Call : Type 0 where
  read : FileHandle → (len : ℕ) → Call
  write : FileHandle → (bytes : List ℕ) → Call
  adjust : FileHandle → (delta : ℤ) → Call

module _ (outside : Outside) (id : ℕ) where
  abbrev on : FileHandle → FileHandle
  on handle = record handle { node = id }

  -- The heap after a call, the bytes that it read and those that it wrote.
  unfoldable call : Call → Heap → Heap × List ℕ × List ℕ
  call (read handle len) heap =
      let r = read_object outside heap (on handle) len in (r.0, got r.2, [])
  call (write handle bytes) heap =
      let r = write_object outside heap (on handle) bytes in (r.0, [], accepted bytes r.2)
  call (adjust handle delta) heap = (adjust_pipe_refcount delta (on handle) heap, [], [])

  pub run : List Call → Heap → Heap × List ℕ × List ℕ
  unfolding call
  run [] heap = (heap, [], [])
  run (c ∷ cs) heap =
      let first = call c heap in
      let rest = run cs first.0 in (rest.0, first.1 ++ rest.1, first.2 ++ rest.2)

  -- The node is a pipe with these bytes in it.
  abbrev pub Holds : List ℕ → Heap → Type 0
  Holds buf heap =
      (state : PipeState) × ((node_at heap id).contents ≡ pipe state) × (state.buf ≡ buf)

  -- What was read and what is left in the pipe are what was in it and what was written.
  abbrev pub Passes : List ℕ → Heap × List ℕ × List ℕ → Type 0
  Passes buf r = (left : List ℕ) × Holds left r.0 × (r.1 ++ left ≡ buf ++ r.2)

  module _ (heap : Heap) (state : PipeState) (e : (node_at heap id).contents ≡ pipe state) where
    read_object_pipe :
        (handle : FileHandle) (len : ℕ)
        → read_object outside heap (on handle) len ≡ (
          set_contents id (pipe (read_pipe len handle.pipe_end state).0) heap,
          on handle,
          (read_pipe len handle.pipe_end state).1,
        )
    unfolding read_object
    read_object_pipe handle len = rw (read_object, e) refl

    write_object_pipe :
        (handle : FileHandle) (bytes : List ℕ)
        → write_object outside heap (on handle) bytes ≡ (
          set_contents id (pipe (write_pipe bytes handle.pipe_end state).0) heap,
          on handle,
          (write_pipe bytes handle.pipe_end state).1,
        )
    unfolding write_object
    write_object_pipe handle bytes = rw (write_object, e) refl

    adjust_pipe_refcount_pipe :
        (handle : FileHandle) (delta : ℤ)
        → adjust_pipe_refcount delta (on handle) heap
          ≡ set_contents id (pipe (adjust_pipe handle.pipe_end delta state)) heap
    unfolding adjust_pipe_refcount
    adjust_pipe_refcount_pipe handle delta = rw (adjust_pipe_refcount, e) refl

  adjusted_buf :
      (end : PipeEnd) (delta : ℤ) (state : PipeState)
      → (adjust_pipe end delta state).buf ≡ state.buf
  adjusted_buf no_end delta state = refl
  adjusted_buf read_end delta state = refl
  adjusted_buf write_end delta state = refl

  call-Passes : (c : Call) (buf : List ℕ) (heap : Heap) → Holds buf heap → Passes buf (call c heap)
  unfolding call
  call-Passes (read handle len) buf heap (state, e, same) =
      let r = read_pipe len handle.pipe_end state in
      rw (read_object_pipe heap state e handle len) (
        r.0.buf,
        (r.0, contents-set_contents id (pipe r.0) heap, refl),
        read_pipe_lem len handle.pipe_end state ∙ same ∙ sym (append-nil buf),
      )
  call-Passes (write handle bytes) buf heap (state, e, same) =
      let r = write_pipe bytes handle.pipe_end state in
      rw (write_object_pipe heap state e handle bytes) (
        r.0.buf,
        (r.0, contents-set_contents id (pipe r.0) heap, refl),
        write_pipe_lem bytes handle.pipe_end state ∙ ap (λ b. b ++ accepted bytes r.1) same,
      )
  call-Passes (adjust handle delta) buf heap (state, e, same) =
      let after = adjust_pipe handle.pipe_end delta state in
      rw (adjust_pipe_refcount_pipe heap state e handle delta) (
        state.buf,
        (
          after,
          contents-set_contents id (pipe after) heap,
          adjusted_buf handle.pipe_end delta state,
        ),
        same ∙ sym (append-nil buf),
      )

  -- Whatever the calls on a pipe, what they read and then what is left in it is what was in it and
  -- then what they wrote.
  pub run-Passes :
      (cs : List Call) (buf : List ℕ) (heap : Heap) → Holds buf heap → Passes buf (run cs heap)
  unfolding run
  run-Passes [] buf heap h = (buf, h, sym (append-nil buf))
  run-Passes (c ∷ cs) buf heap h =
      let (mid, held, first) = call-Passes c buf heap h in
      let (left, held', rest) = run-Passes cs mid (call c heap).0 held in
      (left, held', joined mid left first rest)
    where
      joined :
          (mid left : List ℕ)
          → (call c heap).1 ++ mid ≡ buf ++ (call c heap).2
          → (run cs (call c heap).0).1 ++ left ≡ mid ++ (run cs (call c heap).0).2
          → ((call c heap).1 ++ (run cs (call c heap).0).1) ++ left
            ≡ buf ++ ((call c heap).2 ++ (run cs (call c heap).0).2)
      joined mid left first rest =
          append_assoc (call c heap).1 (run cs (call c heap).0).1 left
          ∙ ap (λ t. (call c heap).1 ++ t) rest
          ∙ sym (append_assoc (call c heap).1 mid (run cs (call c heap).0).2)
          ∙ ap (λ t. t ++ (run cs (call c heap).0).2) first
          ∙ append_assoc buf (call c heap).2 (run cs (call c heap).0).2
