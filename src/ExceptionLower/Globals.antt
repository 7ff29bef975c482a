-- ===== src/ExceptionLower/Globals.antt =====
-- The three global variables of the pass, and what it adds to a module.
use mathlib.Core.List.{append_assoc, append-nil}
use Prim.Native.String.{String}
use text.Mathlib.Text.{◌==◌ as str_eq}
use saw_script.Base.{
  ℕ, ◌+◌, Option, none, subst, length, length-append, ◌≡◌, ◌∙◌, refl, sym, ap, inl, inr, arith,
  true, List, [], ◌∷◌, ◌++◌, Bool-cases, some, All,
}
use saw_script.ExceptionLower.{
  Global, get_global_variable, found_or_new, get_or_create_thread_local_global,
  get_or_create_error_state,
}

-- `gs'` is `gs` with `n` variables of local linkage behind it.
abbrev pub Adds : List Global → List Global → ℕ → Type 0
Adds gs gs' n =
    (new : List Global) × (gs' ≡ gs ++ new)
    × (length new ≡ n)
    × All (λ (g : Global). g.is_local ≡ true) new

-- 1 when the module has no variable of that name that the pass finds.
abbrev pub missing : List Global → String → ℕ
missing gs name = elim (get_global_variable gs name) [ none ↦ 1 | some g ↦ 0 ]

-- How many of the three variables the pass does not find.
abbrev pub missing_three : List Global → ℕ
missing_three gs =
    missing gs "__exclow_error_flag"
    + missing gs "__exclow_error_typeinfo"
    + missing gs "__exclow_error_value"

local_only :
    (new : List Global) (name : String)
    → All (λ (g : Global). g.is_local ≡ true) new
    → get_global_variable new name ≡ none
unfolding get_global_variable
local_only [] name all = refl
local_only (g ∷ new) name all = elim (Bool-cases (str_eq name g.name)) [
  | inl e ↦ rw (e, all.0) refl
  | inr e ↦ rw e (local_only new name all.1)
]

-- Variables of local linkage are not found.
get_global_variable-append :
    (gs new : List Global) (name : String)
    → All (λ (g : Global). g.is_local ≡ true) new
    → get_global_variable (gs ++ new) name ≡ get_global_variable gs name
unfolding get_global_variable
get_global_variable-append [] new name all = local_only new name all
get_global_variable-append (g ∷ gs) new name all = elim (Bool-cases (str_eq name g.name)) [
  | inl e ↦ rw e refl
  | inr e ↦ rw e (get_global_variable-append gs new name all)
]

All-append :
    (xs ys : List Global)
    → All (λ (g : Global). g.is_local ≡ true) xs
    → All (λ (g : Global). g.is_local ≡ true) ys
    → All (λ (g : Global). g.is_local ≡ true) (xs ++ ys)
All-append [] ys hx hy = hy
All-append (x ∷ xs) ys hx hy = (hx.0, All-append xs ys hx.1 hy)

Adds-trans : (a b c : List Global) (n k : ℕ) → Adds a b n → Adds b c k → Adds a c (n + k)
Adds-trans a b c n k h h' = (
  h.0 ++ h'.0,
  h'.1 ∙ ap (λ z. z ++ h'.0) h.1 ∙ append_assoc a h.0 h'.0,
  omega (arith, length-append h.0 h'.0, h.2, h'.2),
  All-append h.0 h'.0 h.3 h'.3,
)

pub missing-Adds :
    (gs gs' : List Global) (n : ℕ) (name : String)
    → Adds gs gs' n
    → missing gs' name ≡ missing gs name
missing-Adds gs gs' n name h =
    ap (λ (o : Option Global). elim o as (λ x. ℕ) [ none ↦ 1 | some g ↦ 0 ])
      (ap (λ z. get_global_variable z name) h.1 ∙ get_global_variable-append gs h.0 name h.3)

module _ (unique_name : List Global → String → String) where
  found_or_new-Adds :
      (gs : List Global) (name : String) (o : Option Global)
      → Adds gs
          (found_or_new unique_name gs name o).globals
          (elim o as (λ x. ℕ) [ none ↦ 1 | some g ↦ 0 ])
  unfolding found_or_new
  found_or_new-Adds gs name none =
      (record { name = unique_name gs name; is_local = true } ∷ [], refl, refl, (refl, tt))
  found_or_new-Adds gs name (some g) = ([], sym (append-nil gs), refl, tt)

  get_or_create-Adds :
      (gs : List Global) (name : String)
      → Adds gs (get_or_create_thread_local_global unique_name gs name).globals (missing gs name)
  unfolding get_or_create_thread_local_global
  get_or_create-Adds gs name = found_or_new-Adds gs name (get_global_variable gs name)

  pub get_or_create_error_state-Adds :
      (gs : List Global)
      → Adds gs (get_or_create_error_state unique_name gs).globals (missing_three gs)
  unfolding get_or_create_error_state
  get_or_create_error_state-Adds gs =
      let g₁ = (get_or_create_thread_local_global unique_name gs "__exclow_error_flag").globals in
      let g₂ =
        (get_or_create_thread_local_global unique_name g₁ "__exclow_error_typeinfo").globals in
      let g₃ = (get_or_create_thread_local_global unique_name g₂ "__exclow_error_value").globals in
      let flag = get_or_create-Adds gs "__exclow_error_flag" in
      let info = get_or_create-Adds g₁ "__exclow_error_typeinfo" in
      let ptr = get_or_create-Adds g₂ "__exclow_error_value" in
      let two = Adds-trans gs g₁ g₂ _ _ flag info in
      let same_info = missing-Adds gs g₁ _ "__exclow_error_typeinfo" flag in
      let same_ptr = missing-Adds gs g₂ _ "__exclow_error_value" two in
      subst (λ (n : ℕ). Adds gs g₃ n) (omega (arith, same_info, same_ptr))
        (Adds-trans gs g₂ g₃ _ _ two ptr)
