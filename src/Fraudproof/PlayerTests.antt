-- ===== src/Fraudproof/PlayerTests.antt =====
-- crates/sena-fraudproof/src/verifier.rs: the theorem at a concrete game.
use sena.Fraudproof.Verifier.Defence.{DefenceMove, Defends, run_defence, honest_defender}
use sena.Fraudproof.Verifier.Check.{warrants_challenge, check_assertion, check_assertion_lem}
use sena.Fraudproof.Assertion.{Assertion}
use sena.Stf.Instruction.{Instruction, ExecutionTrace}
use sena.Primitives.Codec.{to_be_bytes}
use sena.Fraudproof.Verifier.{commitment_at, final_state}
use sena.Stf.Machine.{MachineState, commitment}
use sena.Fraudproof.Verifier.Game.{run_game, GameMove, honest_challenger}
use sena.Fraudproof.Verifier.Honest.{Disputes}
use sena.Fraudproof.Bisection.Shrink.{IsWellFormed, open_dispute-IsWellFormed}
use sena.Fraudproof.Bisection.{Dispute, open_dispute, Stage}
use sena.Base.{List, ◌≡◌, ◌∷◌, arith, [], ◌≢◌, ◌+◌, ap, length, refl, false, ◌↔◌}
use sena.Primitives.Hash256.{Bytes, Hash256}

-- A digest that keeps every byte.
abbrev all_bytes : Bytes → Hash256
all_bytes bs = bs

-- What the challenger computed.
abbrev honest_states : List MachineState
honest_states =
    record { state_root = 1 ∷ []; pc = 0 }
    ∷ record { state_root = 2 ∷ []; pc = 1 }
    ∷ record { state_root = 3 ∷ []; pc = 2 }
    ∷ []

-- A dispute over its two steps, whose end the defender claims otherwise.
disputed : Dispute
disputed =
    open_dispute
      (record {
        assertion = 7 ∷ [];
        defender = 1;
        challenger = 2;
        trace_length = 2;
        lo_commitment = commitment_at all_bytes honest_states 0;
        hi_commitment = 9 ∷ [];
        challenge_window = 86400;
      })
      100

abbrev game : List GameMove
game = GameMove.defender_dissects 110 ((4 ∷ []) ∷ []) ∷ GameMove.challenger_plays 120 ∷ []

disputed-IsWellFormed : IsWellFormed disputed
unfolding disputed
disputed-IsWellFormed = open_dispute-IsWellFormed _ 100 (omega arith)

disputed-Disputes : Disputes all_bytes honest_states disputed
unfolding disputed open_dispute commitment_at commitment to_be_bytes
disputed-Disputes = record { agrees = refl; differs = λ e. absurd (omega (arith, ap length e)) }

honest_challenger_example :
    let d = run_game all_bytes honest_states game disputed in
    IsWellFormed d
    × (d.lo_commitment ≡ commitment_at all_bytes honest_states d.lo)
    × (d.hi_commitment ≢ commitment_at all_bytes honest_states d.hi)
    × (d.stage ≡ Stage.one_step → d.hi ≡ d.lo + 1)
honest_challenger_example =
    honest_challenger all_bytes honest_states game disputed disputed-IsWellFormed disputed-Disputes

-- An assertion about a batch of one step, and the batch's execution.
abbrev local : ExecutionTrace
local = record {
  instructions = Instruction.consume_nonce (1 ∷ []) 0 ∷ [];
  states = record { state_root = 1 ∷ []; pc = 0 } ∷ record { state_root = 2 ∷ []; pc = 1 } ∷ [];
  tx_starts = 0 ∷ [];
}

abbrev claim : Assertion
claim = record {
  parent = [];
  proposer = 1;
  pre_state_root = 1 ∷ [];
  post_state_root = 2 ∷ [];
  batch_commitment = [];
  trace_length = 1;
  bond = 50;
}

check_assertion_lem_example : (warrants_challenge (check_assertion claim local) ≡ false) ↔ (
    (claim.post_state_root ≡ (final_state local.states).state_root)
    × (claim.trace_length ≡ length local.instructions))
check_assertion_lem_example = check_assertion_lem claim local

-- A dispute whose end the defender claims as it computed it.
defended : Dispute
defended =
    open_dispute
      (record {
        assertion = 7 ∷ [];
        defender = 1;
        challenger = 2;
        trace_length = 2;
        lo_commitment = commitment_at all_bytes honest_states 0;
        hi_commitment = commitment_at all_bytes honest_states 2;
        challenge_window = 86400;
      })
      100

abbrev defence : List DefenceMove
defence = DefenceMove.defender_plays 110 ∷ DefenceMove.challenger_selects 120 1 ∷ []

defended-IsWellFormed : IsWellFormed defended
unfolding defended
defended-IsWellFormed = open_dispute-IsWellFormed _ 100 (omega arith)

defended-Defends : Defends all_bytes honest_states defended
unfolding defended open_dispute
defended-Defends = record { start = refl; end = refl; division = λ o e. absurd (ground (arith, e)) }

honest_defender_example :
    let d = run_defence all_bytes honest_states defence defended in
    IsWellFormed d
    × (d.lo_commitment ≡ commitment_at all_bytes honest_states d.lo)
    × (d.hi_commitment ≡ commitment_at all_bytes honest_states d.hi)
    × (d.stage ≡ Stage.one_step → d.hi ≡ d.lo + 1)
honest_defender_example =
    honest_defender all_bytes honest_states defence defended defended-IsWellFormed defended-Defends
