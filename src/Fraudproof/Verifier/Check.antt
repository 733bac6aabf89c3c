-- ===== src/Fraudproof/Verifier/Check.antt =====
-- crates/sena-fraudproof/src/verifier.rs: what a verifier finds when it has executed a batch.
use sena.Stf.Instruction.{ExecutionTrace}
use sena.Fraudproof.Assertion.{Assertion}
use sena.Fraudproof.Verifier.{final_state}
use sena.Base.{Bool, ℕ, false, true, length, ◌≡◌, if◌then◌else◌, ◌↔◌, not, arith, ◌==◌}
use sena.Primitives.Hash256.{Hash256, bytes_eq, bytes_eq_iff}

pub data Finding : Type 0 where
  agrees : Finding
  root_diverges : (asserted computed : Hash256) → Finding
  trace_length_diverges : (asserted computed : ℕ) → Finding

-- `Finding::warrants_challenge`
unfoldable pub warrants_challenge : Finding → Bool
warrants_challenge Finding.agrees = false
warrants_challenge other = true

-- `check_assertion`
unfoldable pub check_assertion : Assertion → ExecutionTrace → Finding
unfolding final_state
check_assertion assertion local =
    let computed_root = (final_state local.states).state_root in
    let computed_length = length local.instructions in
    if not (bytes_eq assertion.post_state_root computed_root)
    then Finding.root_diverges assertion.post_state_root computed_root
    else if not (assertion.trace_length == computed_length)
    then Finding.trace_length_diverges assertion.trace_length computed_length
    else Finding.agrees

-- A verifier leaves an assertion unchallenged exactly when it claims the root and the number of
-- steps that the verifier's own execution has.
pub check_assertion_lem :
    (assertion : Assertion) (local : ExecutionTrace)
    → (warrants_challenge (check_assertion assertion local) ≡ false) ↔ (
        (assertion.post_state_root ≡ (final_state local.states).state_root)
        × (assertion.trace_length ≡ length local.instructions))
unfolding warrants_challenge check_assertion
check_assertion_lem assertion local =
    ground (arith, bytes_eq_iff assertion.post_state_root (final_state local.states).state_root)
