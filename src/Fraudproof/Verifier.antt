-- ===== src/Fraudproof/Verifier.antt =====
-- crates/sena-fraudproof/src/verifier.rs: an honest party plays a dispute from the states it
-- computed, here the `states` of its trace.
pub mod Honest
pub mod Game
pub mod Check
pub mod Defence
pub mod Division
use sena.Stf.Machine.{MachineState, machine_start, commitment}
use sena.Primitives.Hash256.{Bytes, Hash256, zero_hash, bytes_eq}
use sena.Fraudproof.Bisection.Moves.{Move, dissect, select}
use sena.Fraudproof.Bisection.{MoveError, Dispute, Party, dispute_boundaries, pending}
use sena.Base.{
  List, ℕ, ◌∷◌, get_or, take, map_err, map, Option, length, none, [], ◌-◌, ◌+◌, ◌++◌, drop,
  if◌then◌else◌, err, not, some, ok,
}
use sena.Base.Action.{Action, gets, ◌>>=◌}

abbrev pub last_or : List MachineState → MachineState → MachineState
last_or [] d = d
last_or (s ∷ ss) d = last_or ss s

-- `ExecutionTrace::final_state`; a trace without states would panic.
unfoldable pub final_state : List MachineState → MachineState
final_state states = last_or states (machine_start zero_hash)

-- `TracePlayer::state_at`: beyond the trace, the final state.
unfoldable pub state_at : List MachineState → ℕ → MachineState
unfolding final_state
state_at states step = get_or states step (final_state states)

-- The boundaries without the first and the last.
abbrev pub interior : List ℕ → List ℕ
interior bounds = take (length bounds - 2) (drop 1 bounds)

pub data PlayError : Type 0 where
  move_refused : MoveError → PlayError
  no_disagreement : PlayError

-- `?` on a move, whose error `PlayError` wraps.
abbrev pub play_move : {A : Type 0} → Move A → Action Dispute PlayError A
play_move m d = let (d', r) = m d in (d', map_err PlayError.move_refused r)

module _ (digest : Bytes → Hash256) (states : List MachineState) where
  -- `TracePlayer::commitment_at`
  unfoldable pub commitment_at : ℕ → Hash256
  unfolding state_at
  commitment_at step = commitment digest (state_at states step)

  -- `TracePlayer::dissect`
  unfoldable pub player_dissect : Dispute → List Hash256
  player_dissect d = map commitment_at (interior (dispute_boundaries d))

  -- The search of `first_disagreement` among the claimed ends, from segment `index` on.
  unfoldable pub find_disagreement : List ℕ → ℕ → List Hash256 → Option ℕ
  find_disagreement bounds index [] = none
  find_disagreement bounds index (claimed ∷ ends) =
      let rest = find_disagreement bounds (index + 1) ends in
      if not (bytes_eq (commitment_at (get_or bounds (index + 1) 0)) claimed)
      then some index
      else rest

  -- `TracePlayer::first_disagreement`
  unfoldable pub first_disagreement : Dispute → List Hash256 → Option ℕ
  unfolding find_disagreement
  first_disagreement d offered =
      find_disagreement (dispute_boundaries d) 0 (offered ++ d.hi_commitment ∷ [])

  -- `TracePlayer::play`
  unfoldable pub play : Party → ℕ → Action Dispute PlayError (Unit {0})
  unfolding player_dissect first_disagreement
  play Party.defender now = do
    commitments ← gets player_dissect
    play_move (dissect now commitments)
  play Party.challenger now = do
    offered ← λ d. elim (pending d.stage) [
      | none ↦ (d, err (PlayError.move_refused MoveError.wrong_stage))
      | some o ↦ (d, ok o)
    ]
    index ← λ d. elim (first_disagreement d offered) [
      | none ↦ (d, err PlayError.no_disagreement)
      | some i ↦ (d, ok i)
    ]
    play_move (select now index)
