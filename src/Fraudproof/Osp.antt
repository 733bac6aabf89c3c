-- ===== src/Fraudproof/Osp.antt =====
-- crates/sena-fraudproof/src/osp.rs: what a dispute over one step is settled by.
pub mod Judge
pub mod Honest
use sena.Stf.Governance.Signatures.{Ed25519}
use sena.Stf.Execute.Step.{StepWitness, verify_step}
use sena.Primitives.Hash256.{Bytes, Hash256, bytes_eq}
use sena.Fraudproof.Bisection.{Party, disputed_step, Dispute}
use sena.Base.{ℕ, List, Result, if◌then◌else◌, Option, not, none, ok, some, get_elem?, err, length}
use sena.Stf.Machine.{MachineState, commitment}
use sena.Stf.Execute.{StepError}
use sena.Stf.Instruction.{Instruction}

pub record OneStepProof : Type 0 where
  pub pre_state : MachineState
  pub witness : StepWitness

pub data VerdictReason : Type 0 where
  defender_claim_confirmed defender_claim_refuted proof_contradicts_agreed_state : VerdictReason
  step_is_not_executable witness_rejected : (error : StepError) → VerdictReason
  trace_length_overstated : (step program_length : ℕ) → VerdictReason

pub record Verdict : Type 0 where
  pub winner : Party
  pub reason : VerdictReason

abbrev pub verdict : Party → VerdictReason → Verdict
verdict winner reason = record { winner = winner; reason = reason }

-- The last two arms of the match in `adjudicate`.
unfoldable pub blame : StepError → Verdict
blame (StepError.witness_slot_mismatch provided expected) =
    verdict Party.defender
      (VerdictReason.witness_rejected (StepError.witness_slot_mismatch provided expected))
blame (StepError.bad_witness_proof e) =
    verdict Party.defender (VerdictReason.witness_rejected (StepError.bad_witness_proof e))
blame other = verdict Party.challenger (VerdictReason.step_is_not_executable other)

module _ (digest : Bytes → Hash256) (ed : Ed25519) where
  -- The match on the result of `verify_step`.
  unfoldable pub judge_step : Dispute → Result StepError MachineState → Verdict
  unfolding blame commitment
  judge_step d (ok post) =
      if bytes_eq (commitment digest post) d.hi_commitment
      then verdict Party.defender VerdictReason.defender_claim_confirmed
      else verdict Party.challenger VerdictReason.defender_claim_refuted
  judge_step d (err e) = blame e

  -- `adjudicate` at the disputed step.
  unfoldable pub adjudicate_at : ℕ → List Instruction → Dispute → OneStepProof → Verdict
  unfolding judge_step verify_step commitment
  adjudicate_at step program d p =
      if not (bytes_eq (commitment digest p.pre_state) d.lo_commitment)
      then verdict Party.defender VerdictReason.proof_contradicts_agreed_state
      else elim (get_elem? program step) [
        | none ↦
            verdict Party.challenger (VerdictReason.trace_length_overstated step (length program))
        | some i ↦ judge_step d (verify_step digest ed p.pre_state i p.witness)
      ]

  -- `adjudicate`; `none` where it panics, for a dispute that is not at one step.
  unfoldable pub adjudicate : List Instruction → Dispute → OneStepProof → Option Verdict
  unfolding adjudicate_at disputed_step
  adjudicate program d p = elim (disputed_step d) [
    | none ↦ none
    | some step ↦ some (adjudicate_at step program d p)
  ]
