-- ===== src/Handlers/KeyBuffer/Cleanup.antt =====
-- No block is freed twice, none is written after it is freed, and none is left behind.
use mathlib.Core.Option
use native.Mathlib.Decide.{ℕ_discrete}
use saw_script.Base.{
  ℕ, ◌<◌, ◌≡◌, ◌≢◌, ◌∙◌, refl, sym, ap, arith, Option, some, true, false, List, [], ◌∷◌, inl, inr,
  ◌⊎◌, ◌==◌, ltb, Bool-cases,
}
use saw_script.Handlers.KeyBuffer.{
  Allocator, KeyBuffer, Return, minus_one, covers, is_block, key_buffer_init, key_buffer_free,
  process_with_cleanup,
}

-- A sequence of calls on one buffer.
pub data Call : Type 0 where
  init_call : ℕ → Call
  free_call : Call

module _ {H : Type 0} (a : Allocator H) where
  abbrev pub call : Call → KeyBuffer → H → Option (Return H)
  call (init_call size) buf h = some (key_buffer_init a buf h size)
  call free_call buf h = key_buffer_free a buf h

  -- A buffer that is marked as allocated has a block of its length.
  abbrev pub IsOwner : KeyBuffer → H → Type 0
  IsOwner buf h = buf.is_allocated ≢ 0 → a.size_of h buf.data_ptr ≡ some buf.len

  key_buffer_init-IsOwner :
      (buf : KeyBuffer) (h : H) (size : ℕ)
      → IsOwner (key_buffer_init a buf h size).buf (key_buffer_init a buf h size).heap
  unfolding key_buffer_init
  key_buffer_init-IsOwner buf h size = elim (Bool-cases ((a.model_alloc h size).ptr == 0)) [
    | inl e ↦ rw e (λ allocated. absurd (allocated refl))
    | inr e ↦ rw e (λ allocated. a.alloc_size h size (ground arith))
  ]

  key_buffer_free-IsOwner :
      (buf : KeyBuffer) (h : H)
      → IsOwner buf h
      → (r : Return H) × (key_buffer_free a buf h ≡ some r) × IsOwner r.buf r.heap
  unfolding key_buffer_free
  key_buffer_free-IsOwner buf h owner = elim (Bool-cases (buf.is_allocated == 0)) [
    | inl e ↦ (record { rc = 0; buf = buf; heap = h }, rw e refl, owner)
    | inr e ↦ (
      record {
        rc = 0;
        buf = record { data_ptr = 0; len = 0; is_allocated = 0 };
        heap = a.model_free h buf.data_ptr;
      },
      rw (e, ap is_block (owner (ground arith))) refl,
      λ allocated. absurd (allocated refl),
    )
  ]

  -- One way through process_with_cleanup: no allocation, and -1.
  process-fails :
      (h : H) (size : ℕ)
      → (a.model_alloc h size).ptr ≡ 0
      → process_with_cleanup a h size
        ≡ some (record {
          rc = minus_one;
          buf = record { data_ptr = (a.model_alloc h size).ptr; len = 0; is_allocated = 0 };
          heap = (a.model_alloc h size).heap;
        })
  unfolding process_with_cleanup key_buffer_init key_buffer_free
  process-fails h size e =
      let test : ((a.model_alloc h size).ptr == 0) ≡ true = ground arith in rw test refl

  -- The other: the block is written to, freed, and the result is 0.
  process-succeeds :
      (h : H) (size : ℕ)
      → 0 < size
      → (a.model_alloc h size).ptr ≢ 0
      → process_with_cleanup a h size
        ≡ some (record {
          rc = 0;
          buf = record { data_ptr = 0; len = 0; is_allocated = 0 };
          heap = a.model_free (a.model_alloc h size).heap (a.model_alloc h size).ptr;
        })
  unfolding process_with_cleanup key_buffer_init key_buffer_free
  process-succeeds h size pos e =
      let test : ((a.model_alloc h size).ptr == 0) ≡ false = ground arith in
      let inside : ltb 0 size ≡ true = ground arith in
      let size_known = a.alloc_size h size e in
      rw (test, ap (λ o. covers o 0) size_known ∙ inside, ap is_block size_known) refl

  abbrev pub run : List Call → KeyBuffer → H → Option (Return H)
  run [] buf h = some (record { rc = 0; buf = buf; heap = h })
  run (c ∷ calls) buf h = Option.bind (call c buf h) (λ r. run calls r.buf r.heap)

  call-IsOwner :
      (c : Call) (buf : KeyBuffer) (h : H)
      → IsOwner buf h
      → (r : Return H) × (call c buf h ≡ some r) × IsOwner r.buf r.heap
  call-IsOwner (init_call size) buf h owner =
      (key_buffer_init a buf h size, refl, key_buffer_init-IsOwner buf h size)
  call-IsOwner free_call buf h owner = key_buffer_free-IsOwner buf h owner

  -- Whatever the order of the calls, model_free is only given blocks.
  run-IsOwner :
      (calls : List Call) (buf : KeyBuffer) (h : H)
      → IsOwner buf h
      → (r : Return H) × (run calls buf h ≡ some r) × IsOwner r.buf r.heap
  unfolding Option.bind
  run-IsOwner [] buf h owner = (record { rc = 0; buf = buf; heap = h }, refl, owner)
  run-IsOwner (c ∷ calls) buf h owner =
      let first = call-IsOwner c buf h owner in
      let rest = run-IsOwner calls first.0.buf first.0.heap first.2 in
      (rest.0, ap (λ o. Option.bind o (λ r. run calls r.buf r.heap)) first.1 ∙ rest.1, rest.2)

  -- The blocks of two heaps are the same.
  abbrev pub SameBlocks : H → H → Type 0
  SameBlocks h k = (q : ℕ) → a.size_of h q ≡ a.size_of k q

  freed-SameBlocks :
      (h : H) (size : ℕ)
      → (a.model_alloc h size).ptr ≢ 0
      → SameBlocks (a.model_free (a.model_alloc h size).heap (a.model_alloc h size).ptr) h
  freed-SameBlocks h size e q = elim (ℕ_discrete q (a.model_alloc h size).ptr) [
    | yes same ↦
        ap (a.size_of (a.model_free (a.model_alloc h size).heap (a.model_alloc h size).ptr)) same
        ∙ a.free_gone (a.model_alloc h size).heap (a.model_alloc h size).ptr
        ∙ sym (a.alloc_fresh h size e)
        ∙ sym (ap (a.size_of h) same)
    | no other ↦
        a.free_other (a.model_alloc h size).heap (a.model_alloc h size).ptr q other
        ∙ a.alloc_other h size q other
  ]

  -- What a call of process_with_cleanup leaves, by what the allocator returns.
  abbrev pub IsClean : H → ℕ → Return H → Type 0
  IsClean h size r =
      SameBlocks r.heap h
      × (r.buf.is_allocated ≡ 0)
      × ((((a.model_alloc h size).ptr ≡ 0) × (r.rc ≡ minus_one))
          ⊎ (((a.model_alloc h size).ptr ≢ 0) × (r.rc ≡ 0)))

-- For a buffer of at least one byte, process_with_cleanup writes inside a block only and frees a
-- block only, leaves the blocks of the heap as they were, and returns -1 when the allocation fails
-- and 0 when it does not; and any sequence of calls of key_buffer_init and key_buffer_free on a buffer
-- that is not allocated frees a block only.
pub process_with_cleanup-IsClean :
    {H : Type 0} (a : Allocator H) (h : H) (size : ℕ) (calls : List Call) (buf : KeyBuffer)
    → 0 < size
    → buf.is_allocated ≡ 0
    → ((r : Return H) × (process_with_cleanup a h size ≡ some r) × IsClean a h size r)
      × ((r : Return H) × (run a calls buf h ≡ some r))
process_with_cleanup-IsClean a h size calls buf pos empty =
    let runs = run-IsOwner a calls buf h (λ allocated. absurd (allocated empty)) in
    (
      elim (ℕ_discrete (a.model_alloc h size).ptr 0) [
        | yes e ↦
            (_, process-fails a h size e, (λ q. a.alloc_fails h size q e, refl, inl (e, refl)))
        | no e ↦
            (_, process-succeeds a h size pos e, (freed-SameBlocks a h size e, refl, inr (e, refl)))
      ],
      (runs.0, runs.1),
    )
