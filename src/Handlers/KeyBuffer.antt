-- ===== src/Handlers/KeyBuffer.antt =====
-- intTests/test_llvm_no_use_after_free/test.c: a key buffer on the heap. The allocator is a parameter.
pub mod Cleanup
use mathlib.Core.Option
use saw_script.Base.{
  ℕ, zero, suc, ◌-◌, ◌^◌, ◌<◌, ◌≤◌, ◌≡◌, ◌≢◌, ◌∙◌, refl, sym, ap, subst, arith, Option, some, none,
  Bool, true, false, not, List, [], ◌∷◌, inl, inr, if◌then◌else◌, ◌==◌, ltb, Bool-cases,
}

-- A pointer, and the heap behind the call that returned it.
pub record Allocated (H : Type 0) : Type 0 where
  pub ptr : ℕ
  pub heap : H

-- model_alloc and model_free: 0 is the null pointer, and `size_of h p` is the size of the block at
-- `p`, if there is one. A new block is where none was, and no other block changes.
pub record Allocator (H : Type 0) : Type 0 where
  pub model_alloc : H → ℕ → Allocated H
  pub model_free : H → ℕ → H
  pub size_of : H → ℕ → Option ℕ
  pub alloc_fails :
      (h : H) (n q : ℕ) → (model_alloc h n).ptr ≡ 0 → size_of (model_alloc h n).heap q ≡ size_of h q
  pub alloc_fresh :
      (h : H) (n : ℕ) → (model_alloc h n).ptr ≢ 0 → size_of h (model_alloc h n).ptr ≡ none
  pub alloc_size :
      (h : H) (n : ℕ)
      → (model_alloc h n).ptr ≢ 0
      → size_of (model_alloc h n).heap (model_alloc h n).ptr ≡ some n
  pub alloc_other :
      (h : H) (n q : ℕ) → q ≢ (model_alloc h n).ptr → size_of (model_alloc h n).heap q ≡ size_of h q
  pub free_gone : (h : H) (p : ℕ) → size_of (model_free h p) p ≡ none
  pub free_other : (h : H) (p q : ℕ) → q ≢ p → size_of (model_free h p) q ≡ size_of h q

pub record KeyBuffer : Type 0 where
  pub data_ptr : ℕ
  pub len : ℕ
  pub is_allocated : ℕ

-- What a function returns, and what it leaves in the buffer and on the heap.
pub record Return (H : Type 0) : Type 0 where
  pub rc : ℕ
  pub buf : KeyBuffer
  pub heap : H

-- The C value -1.
abbrev pub minus_one : ℕ
minus_one = 2 ^ 32 - 1

-- A byte can be written inside of a block only.
abbrev pub covers : Option ℕ → ℕ → Bool
covers none i = false
covers (some n) i = ltb i n

abbrev pub is_block : Option ℕ → Bool
is_block none = false
is_block (some n) = true

module _ {H : Type 0} (a : Allocator H) where
  unfoldable pub key_buffer_init : KeyBuffer → H → ℕ → Return H
  key_buffer_init buf h size =
      let m = a.model_alloc h size in
      if m.ptr == 0
      then record {
        rc = minus_one;
        buf = record { data_ptr = m.ptr; len = 0; is_allocated = 0 };
        heap = m.heap;
      }
      else record {
        rc = 0;
        buf = record { data_ptr = m.ptr; len = size; is_allocated = 1 };
        heap = m.heap;
      }

  -- `none` is a call of model_free that is given no block. The function returns nothing, here 0.
  unfoldable pub key_buffer_free : KeyBuffer → H → Option (Return H)
  key_buffer_free buf h =
      if buf.is_allocated == 0
      then some (record { rc = 0; buf = buf; heap = h })
      else if is_block (a.size_of h buf.data_ptr)
      then some (record {
        rc = 0;
        buf = record { data_ptr = 0; len = 0; is_allocated = 0 };
        heap = a.model_free h buf.data_ptr;
      })
      else none

  -- `none` is also a write outside of a block.
  unfoldable pub process_with_cleanup : H → ℕ → Option (Return H)
  process_with_cleanup h key_size =
      let r = key_buffer_init (record { data_ptr = 0; len = 0; is_allocated = 0 }) h key_size in
      if not (r.rc == 0)
      then Option.map (λ (f : Return H). record f { rc = minus_one }) (key_buffer_free r.buf r.heap)
      else if covers (a.size_of r.heap r.buf.data_ptr) 0
      then Option.map (λ (f : Return H). record f { rc = 0 }) (key_buffer_free r.buf r.heap)
      else none
