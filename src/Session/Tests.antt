-- ===== src/Session/Tests.antt =====
-- A run of a key session, and the theorems at it.
use saw_script.Base.{ℕ, ◌≤◌, ◌<◌, ◌≡◌, ◌≢◌, refl, arith, List, [], ◌∷◌, get_or, replicate}
use saw_script.Session.{Session, success, refused, attest_key_ownership, load_key}
use saw_script.Session.Reach.{
  attest, load, Steps, none_yet, then_step, IsValid, Steps-IsValid, Steps-keep_key, load_key_lem,
}

abbrev fresh : Session
fresh = record { state = 0; key_data = replicate 32 0; key_loaded = 0 }

fresh-IsValid : IsValid fresh
fresh-IsValid = record {
  known = omega arith;
  size = refl;
  unloaded = λ h. refl;
  loaded = λ h. absurd (h refl);
}

abbrev key : List ℕ
key = 11 ∷ 22 ∷ 33 ∷ []

abbrev keyed : Session
keyed = (load_key key 3 fresh).session

-- The external operation fails.
abbrev failed : Session
failed = (attest_key_ownership 5 keyed).session

loading : Steps fresh keyed
loading = then_step fresh keyed none_yet (load key 3)

failing : Steps keyed failed
failing = then_step keyed failed none_yet (attest 5)

Steps-IsValid_example : IsValid keyed
Steps-IsValid_example = Steps-IsValid fresh keyed fresh-IsValid loading

keyed_state : keyed.state ≡ 1
unfolding load_key
keyed_state = refl

keyed_is_out : keyed.state ≢ 0
keyed_is_out h = absurd (omega (arith, keyed_state))

Steps-keep_key_example : (failed.state ≢ 0) × (failed.key_data ≡ keyed.key_data)
Steps-keep_key_example = Steps-keep_key keyed failed keyed_is_out failing

load_key_lem_example :
    (3 ≤ 32
      → ((load_key key 3 fresh).code ≡ success)
        × ((load_key key 3 fresh).session.state ≡ 1)
        × ((j : ℕ)
            → (j < 3 → get_or (load_key key 3 fresh).session.key_data j 0 ≡ get_or key j 0)
              × (3 ≤ j
                  → get_or (load_key key 3 fresh).session.key_data j 0
                    ≡ get_or fresh.key_data j 0)))
    × (32 < 3 → load_key key 3 fresh ≡ record { code = refused; session = fresh })
load_key_lem_example = load_key_lem key 3 fresh fresh-IsValid refl
