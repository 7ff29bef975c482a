-- ===== src/Base/Region.antt =====
-- Regions of a memory that a stream cipher has written: a key stream mixed into the bytes that
-- one pointer shows, and stored where another shows.
use native.Mathlib.Decide.{dec_lt}
use saw_script.Base.Bits.{xor_cancel}
use Prim.Native.Nat.{ℕ, ◌+◌, ◌-◌, ◌≤◌, ◌<◌, bit_xor}
use mathlib.Core.Path.{◌≡◌, refl, sym, ◌∙◌, ap, ap₂}
use mathlib.Core.Logic.{◌⊎◌, inl, inr}
use mathlib.Core.List.{List}
use native.Mathlib.Omega.{arith}
use saw_script.Base.Lists.{
  length, get_or, set, length-set, get_or-set_self, get_or-set_ne, get_or_ext,
}

-- `ks j` is the key stream's byte at offset `j`. In `after` the offsets from `lo` to `hi` of `out`
-- hold what `before` has at the same offsets of `msg`, mixed; all else is as before.
pub record IsXored (ks : ℕ → ℕ) (out msg lo hi : ℕ) (before after : List ℕ) : Type 0 where
  pub same_length : length after ≡ length before
  pub inside :
      (j : ℕ)
      → lo ≤ j
      → j < hi
      → get_or after (out + j) 0 ≡ bit_xor (get_or before (msg + j) 0) (ks j)
  pub outside : (p : ℕ) → (p < out + lo) ⊎ (out + hi ≤ p) → get_or after p 0 ≡ get_or before p 0

-- Writing forwards never touches a byte that is still to be read.
abbrev pub CanStream : ℕ → ℕ → ℕ → Type 0
CanStream out msg n = (out ≤ msg) ⊎ (msg + n ≤ out)

module _ (ks : ℕ → ℕ) (out msg : ℕ) where
  pub IsXored-empty : (lo : ℕ) (mem : List ℕ) → IsXored ks out msg lo lo mem mem
  IsXored-empty lo mem = record {
    same_length = refl;
    inside = λ j p q. absurd (omega arith);
    outside = λ p h. refl;
  }

  pub IsXored-set :
      (i v : ℕ) (mem : List ℕ)
      → out + i < length mem
      → v ≡ bit_xor (get_or mem (msg + i) 0) (ks i)
      → IsXored ks out msg i (i + 1) mem (set mem (out + i) v)
  IsXored-set i v mem fits e = record {
    same_length = length-set mem (out + i) v;
    inside = λ j p q.
        let here : j ≡ i = omega arith in rw here (get_or-set_self mem (out + i) v 0 fits ∙ e);
    outside = λ p h. get_or-set_ne mem (out + i) p v 0 (omega arith);
  }

  pub IsXored-append :
      (n lo mid hi : ℕ) (m₀ m₁ m₂ : List ℕ)
      → CanStream out msg n
      → lo ≤ mid
      → mid ≤ hi
      → hi ≤ n
      → IsXored ks out msg lo mid m₀ m₁
      → IsXored ks out msg mid hi m₁ m₂
      → IsXored ks out msg lo hi m₀ m₂
  IsXored-append n lo mid hi m₀ m₁ m₂ can p q r a b = record {
    same_length = b.same_length ∙ a.same_length;
    inside = λ j u v. elim (dec_lt j mid) [
      | yes early ↦ b.outside (out + j) (inl (omega arith)) ∙ a.inside j u early
      | no late ↦
          b.inside j (omega arith) v
          ∙ ap (λ (t : ℕ). bit_xor t (ks j)) (a.outside (msg + j) (unread j (omega arith) v))
    ];
    outside = λ at h. b.outside at (grind arith) ∙ a.outside at (grind arith);
  }
    where
      unread : (j : ℕ) → mid ≤ j → j < hi → (msg + j < out + lo) ⊎ (out + mid ≤ msg + j)
      unread j u v = omega arith

-- The same region seen from pointers that have moved on by `d`.
pub IsXored-shift :
    (ks moved : ℕ → ℕ) (out msg d n : ℕ) (before after : List ℕ)
    → ((j : ℕ) → moved j ≡ ks (d + j))
    → IsXored moved (out + d) (msg + d) 0 n before after
    → IsXored ks out msg d (d + n) before after
IsXored-shift ks moved out msg d n before after e x = record {
  same_length = x.same_length;
  inside = λ j p q.
      let at : out + d + (j - d) ≡ out + j = omega arith in
      let from : msg + d + (j - d) ≡ msg + j = omega arith in
      let byte : d + (j - d) ≡ j = omega arith in
      ap (λ (t : ℕ). get_or after t 0) (sym at)
      ∙ (x.inside (j - d) (omega arith) (omega arith)
          ∙ ap₂ bit_xor (ap (λ (t : ℕ). get_or before t 0) from) (e (j - d) ∙ ap ks byte));
  outside = λ p h. x.outside p (omega arith);
}

pub IsXored-congr :
    (ks other : ℕ → ℕ) (out msg n : ℕ) (before after : List ℕ)
    → ((j : ℕ) → j < n → other j ≡ ks j)
    → IsXored other out msg 0 n before after
    → IsXored ks out msg 0 n before after
IsXored-congr ks other out msg n before after e x = record {
  same_length = x.same_length;
  inside = λ j p q. x.inside j p q ∙ ap (λ (t : ℕ). bit_xor (get_or before (msg + j) 0) t) (e j q);
  outside = x.outside;
}

-- Mixing the same stream in place twice gives the memory back.
pub IsXored-twice :
    (ks : ℕ → ℕ) (out n : ℕ) (m₀ m₁ m₂ : List ℕ)
    → IsXored ks out out 0 n m₀ m₁
    → IsXored ks out out 0 n m₁ m₂
    → m₂ ≡ m₀
IsXored-twice ks out n m₀ m₁ m₂ a b = get_or_ext 0 m₂ m₀ (b.same_length ∙ a.same_length) back
  where
    inside : (j : ℕ) → j < n → get_or m₂ (out + j) 0 ≡ get_or m₀ (out + j) 0
    inside j h =
        b.inside j (omega arith) h
        ∙ (ap (λ (t : ℕ). bit_xor t (ks j)) (a.inside j (omega arith) h)
            ∙ xor_cancel (get_or m₀ (out + j) 0) (ks j))

    region : (p : ℕ) → out ≤ p → p < out + n → get_or m₂ p 0 ≡ get_or m₀ p 0
    region p h k =
        let at : out + (p - out) ≡ p = omega arith in rw at at (inside (p - out) (omega arith))

    back : (p : ℕ) → get_or m₂ p 0 ≡ get_or m₀ p 0
    back p = elim (dec_lt p out) [
      | yes below ↦ b.outside p (inl (omega arith)) ∙ a.outside p (inl (omega arith))
      | no above ↦ elim (dec_lt p (out + n)) [
        | yes within ↦ region p (omega arith) within
        | no past ↦ b.outside p (inr (omega arith)) ∙ a.outside p (inr (omega arith))
      ]
    ]
