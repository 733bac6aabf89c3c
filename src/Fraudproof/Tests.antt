-- ===== src/Fraudproof/Tests.antt =====
-- crates/sena-fraudproof: the theorems at a concrete dispute.
use sena.Fraudproof.Bisection.Clock.{check_timeout_concludes, run_within_window}
use sena.Fraudproof.Bisection.Rounds.{rounds_played, rounds_played-le}
use sena.Primitives.Hash256.{Hash256}
use sena.Fraudproof.Bisection.Shrink.{IsWellFormed, run-IsWellFormed, open_dispute-IsWellFormed}
use sena.Fraudproof.Bisection.Moves.{select, begin_move, dissect, run, Call, check_timeout, call}
use sena.Base.{List, ◌∷◌, ◌*◌, [], ◌≢◌, ◌≤◌, ◌≡◌, none, ◌+◌, arith, refl}
use sena.Fraudproof.Bisection.{boundaries, Opening, winner, open_dispute, Party}

-- A dispute over a batch of 20 steps, opened at time 100 with a window of a day.
abbrev opening : Opening
opening = record {
  assertion = 7 ∷ [];
  defender = 1;
  challenger = 2;
  trace_length = 20;
  lo_commitment = 0 ∷ [];
  hi_commitment = 20 ∷ [];
  challenge_window = 86400;
}

abbrev seven : List Hash256
seven = (1 ∷ []) ∷ (2 ∷ []) ∷ (3 ∷ []) ∷ (4 ∷ []) ∷ (5 ∷ []) ∷ (6 ∷ []) ∷ (7 ∷ []) ∷ []

-- The defender divides, is refused a second division, and the challenger selects.
abbrev calls : List Call
calls = Call.dissect_call 110 seven ∷ Call.dissect_call 115 seven ∷ Call.select_call 200 2 ∷ []

check_timeout_concludes_example :
    winner (check_timeout 90000 (run calls (open_dispute opening 100))).0 ≢ none
check_timeout_concludes_example =
    check_timeout_concludes opening 100 calls 90000 (omega arith) (omega arith)

run_within_window_example :
    let d = run calls (open_dispute opening 100) in
    (2 * d.last_move_at ≤ 2 * 100 + 86400) × (4 * d.deadline ≤ 4 * 100 + 3 * 86400)
run_within_window_example = run_within_window opening 100 calls

rounds_played-le_example : rounds_played calls (open_dispute opening 100) ≤ 2
unfolding open_dispute
rounds_played-le_example =
    rounds_played-le calls 2 (open_dispute opening 100)
      (open_dispute-IsWellFormed opening 100 (omega arith)) (omega arith)

run-IsWellFormed_example : IsWellFormed (run calls (open_dispute opening 100))
run-IsWellFormed_example =
    run-IsWellFormed calls (open_dispute opening 100)
      (open_dispute-IsWellFormed opening 100 (omega arith))

-- The selection of the third segment leaves the interval from 5 to 7, on the defender's turn.
selection_run :
    let d = run calls (open_dispute opening 100) in
    (d.lo ≡ 5) × (d.hi ≡ 7) × (d.lo_commitment ≡ 2 ∷ []) × (d.turn ≡ Party.defender)
unfolding run call select begin_move dissect open_dispute boundaries
selection_run = (refl, refl, refl, refl)
