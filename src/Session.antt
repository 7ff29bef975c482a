-- ===== src/Session.antt =====
-- intTests/test_llvm_key_state_machine/test.c: a key session, loaded once and then attested.
pub mod Reach
mod Tests
use saw_script.Base.{ℕ, zero, suc, ◌+◌, List, get_or, set, if◌then◌else◌, ltb, ◌==◌}

-- `struct key_session`; the states INIT, KEY_LOADED, ATTESTED and ERROR are 0 to 3.
pub record Session : Type 0 where
  pub state : ℕ
  pub key_data : List ℕ
  pub key_loaded : ℕ

-- The codes 0, -1 and -2.
pub data Code : Type 0 where
  success : Code
  refused : Code
  crypto_failed : Code

-- `result` is what external_crypto_op returns: its code is not part of the program. The proof that
-- it writes is not used.
unfoldable pub attest_key_ownership : ℕ → Session → record { code : Code; session : Session }
attest_key_ownership result session =
    if session.state == 1
    then if result == 0
      then record { code = success; session = record session { state = 2 } }
      else record { code = crypto_failed; session = record session { state = 3 } }
    else record { code = refused; session = session }

-- The loop that copies the key.
unfoldable pub key_loop : List ℕ → ℕ → ℕ → List ℕ → List ℕ
key_loop key zero i key_data = key_data
key_loop key (suc left) i key_data = key_loop key left (i + 1) (set key_data i (get_or key i 0))

unfoldable pub load_key : List ℕ → ℕ → Session → record { code : Code; session : Session }
load_key key key_len session =
    if session.state == 0
    then if ltb 32 key_len then record { code = refused; session = session } else record {
      code = success;
      session = record {
        state = 1;
        key_data = key_loop key key_len 0 session.key_data;
        key_loaded = 1;
      };
    }
    else record { code = refused; session = session }
