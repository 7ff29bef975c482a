-- ===== src/Session/Reach.antt =====
-- The runs of a key session, as a step relation over its two functions.
use native.Mathlib.Decide.{ℕ_discrete}
use saw_script.Base.{
  ℕ, zero, suc, ◌+◌, ◌≤◌, ◌<◌, ◌≡◌, ◌≢◌, ◌⊎◌, ◌∙◌, inl, inr, refl, sym, ap, subst, arith, List,
  length, get_or, set, length-set, Bool-cases, ==_iff, ltb, lt→ltb, get_or-set_self, get_or-set_ne,
  ◌==◌, false,
}
use saw_script.Session.{Session, success, refused, attest_key_ownership, key_loop, load_key}

-- One call of either function, whatever its arguments and whatever the external operation returns.
pub data Step (s : Session) : Session → Type 0 where
  attest : (result : ℕ) → Step s (attest_key_ownership result s).session
  load : (key : List ℕ) (key_len : ℕ) → Step s (load_key key key_len s).session

pub data Steps (s : Session) : Session → Type 0 where
  none_yet : Steps s s
  then_step : (t u : Session) → Steps s t → Step t u → Steps s u

-- The states are the four, and a key is marked as loaded exactly outside INIT.
pub record IsValid (s : Session) : Type 0 where
  pub known : s.state ≤ 3
  pub size : length s.key_data ≡ 32
  pub unloaded : s.state ≡ 0 → s.key_loaded ≡ 0
  pub loaded : s.state ≢ 0 → s.key_loaded ≡ 1

length-key_loop :
    (key : List ℕ) (left i : ℕ) (d : List ℕ) → length (key_loop key left i d) ≡ length d
unfolding key_loop
length-key_loop key zero i d = refl
length-key_loop key (suc left) i d =
    length-key_loop key left (i + 1) (set d i (get_or key i 0)) ∙ length-set d i (get_or key i 0)

attest-IsValid :
    (result : ℕ) (s : Session) → IsValid s → IsValid (attest_key_ownership result s).session
unfolding attest_key_ownership
attest-IsValid result s v = elim (Bool-cases (s.state == 1)) [
  | inl e ↦ rw e (elim (Bool-cases (result == 0)) [
    | inl f ↦ rw f (record {
      known = omega arith;
      size = v.size;
      unloaded = λ h. absurd (omega arith);
      loaded = λ h. v.loaded (ground arith);
    })
    | inr f ↦ rw f (record {
      known = omega arith;
      size = v.size;
      unloaded = λ h. absurd (omega arith);
      loaded = λ h. v.loaded (ground arith);
    })
  ])
  | inr e ↦ rw e v
]

load-IsValid :
    (key : List ℕ) (key_len : ℕ) (s : Session)
    → IsValid s
    → IsValid (load_key key key_len s).session
unfolding load_key
load-IsValid key key_len s v = elim (Bool-cases (s.state == 0)) [
  | inl e ↦ rw e (elim (Bool-cases (ltb 32 key_len)) [
    | inl f ↦ rw f v
    | inr f ↦ rw f (record {
      known = omega arith;
      size = length-key_loop key key_len 0 s.key_data ∙ v.size;
      unloaded = λ h. absurd (omega arith);
      loaded = λ h. refl;
    })
  ])
  | inr e ↦ rw e v
]

-- Every session that calls of the two functions reach from a valid one is valid: it is in one of
-- the four states, its buffer has 32 bytes, and a key is marked as loaded exactly outside INIT.
pub Steps-IsValid : (s t : Session) → IsValid s → Steps s t → IsValid t
Steps-IsValid s _ v none_yet = v
Steps-IsValid s _ v (then_step u _ run (attest result)) =
    attest-IsValid result u (Steps-IsValid s u v run)
Steps-IsValid s _ v (then_step u _ run (load key key_len)) =
    load-IsValid key key_len u (Steps-IsValid s u v run)

attest-keeps :
    (result : ℕ) (s : Session)
    → s.state ≢ 0
    → ((attest_key_ownership result s).session.state ≢ 0)
      × ((attest_key_ownership result s).session.key_data ≡ s.key_data)
unfolding attest_key_ownership
attest-keeps result s h = elim (Bool-cases (s.state == 1)) [
  | inl e ↦ rw e (elim (Bool-cases (result == 0)) [
    | inl f ↦ rw f (λ k. absurd (omega arith), refl)
    | inr f ↦ rw f (λ k. absurd (omega arith), refl)
  ])
  | inr e ↦ rw e (h, refl)
]

load-keeps :
    (key : List ℕ) (key_len : ℕ) (s : Session) → s.state ≢ 0 → (load_key key key_len s).session ≡ s
unfolding load_key
load-keeps key key_len s h = elim (Bool-cases (s.state == 0)) [
  | inl e ↦ absurd (h ((==_iff s.state 0).0 e))
  | inr e ↦ rw e refl
]

-- Once a session has left INIT, no calls of the two functions bring it back, and none changes the
-- key that it holds.
pub Steps-keep_key :
    (s t : Session) → s.state ≢ 0 → Steps s t → (t.state ≢ 0) × (t.key_data ≡ s.key_data)
Steps-keep_key s _ h none_yet = (h, refl)
Steps-keep_key s _ h (then_step u _ run (attest result)) =
    let before = Steps-keep_key s u h run in
    let now = attest-keeps result u before.0 in (now.0, now.1 ∙ before.1)
Steps-keep_key s _ h (then_step u _ run (load key key_len)) =
    let before = Steps-keep_key s u h run in
    let now = load-keeps key key_len u before.0 in
    (
      subst (λ (x : Session). x.state ≢ 0) (sym now) before.0,
      ap (λ (x : Session). x.key_data) now ∙ before.1,
    )

key_loop-at :
    (key : List ℕ) (left i : ℕ) (d : List ℕ) (j : ℕ)
    → i + left ≤ length d
    → ((i ≤ j) × (j < i + left) → get_or (key_loop key left i d) j 0 ≡ get_or key j 0)
      × ((j < i) ⊎ (i + left ≤ j) → get_or (key_loop key left i d) j 0 ≡ get_or d j 0)
unfolding key_loop
key_loop-at key zero i d j fits = (λ h. absurd (omega arith), λ h. refl)
key_loop-at key (suc left) i d j fits =
    let d' : List ℕ = set d i (get_or key i 0) in
    let rest = key_loop-at key left (i + 1) d' j (omega (arith, length-set d i (get_or key i 0))) in
    (
      λ h. elim (ℕ_discrete i j) [
        | yes e ↦
            rest.1 (inl (omega arith))
            ∙ (ap (λ (t : ℕ). get_or d' t 0) (sym e)
                ∙ (get_or-set_self d i (get_or key i 0) 0 (omega arith)
                    ∙ ap (λ (t : ℕ). get_or key t 0) e))
        | no ne ↦ rest.0 (omega arith)
      ],
      λ h. rest.1 (omega arith) ∙ get_or-set_ne d i j (get_or key i 0) 0 (omega arith),
    )

-- Loading a key of at most 32 bytes into a valid session in INIT succeeds and moves it to
-- KEY_LOADED. Byte `j` of the buffer is that of the key below `key_len`, and what it was from there
-- on. A longer key is refused, and nothing changes.
pub load_key_lem :
    (key : List ℕ) (key_len : ℕ) (s : Session)
    → IsValid s
    → s.state ≡ 0
    → (key_len ≤ 32
        → ((load_key key key_len s).code ≡ success)
          × ((load_key key key_len s).session.state ≡ 1)
          × ((j : ℕ)
              → (j < key_len
                  → get_or (load_key key key_len s).session.key_data j 0 ≡ get_or key j 0)
                × (key_len ≤ j
                    → get_or (load_key key key_len s).session.key_data j 0
                      ≡ get_or s.key_data j 0)))
      × (32 < key_len → load_key key key_len s ≡ record { code = refused; session = s })
unfolding load_key
load_key_lem key key_len s v init = rw ((==_iff s.state 0).1 init) (
  λ h. rw (not_over h) (
    refl,
    refl,
    λ j.
        let bytes = key_loop-at key key_len 0 s.key_data j (omega (arith, v.size)) in
        (λ p. bytes.0 (omega arith), λ p. bytes.1 (inr (omega arith))),
  ),
  λ h. rw (lt→ltb 32 key_len h),
)
  where
    not_over : key_len ≤ 32 → ltb 32 key_len ≡ false
    not_over h = ground arith
