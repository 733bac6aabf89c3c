-- ===== src/Fraudproof/Bisection/Moves.antt =====
-- crates/sena-fraudproof/src/bisection.rs: the moves of a dispute, as methods that change it.
use sena.Base.{
  ℕ, ◌+◌, ◌-◌, not, ◌||◌, Option, none, some, List, [], ◌∷◌, ◌++◌, ltb, leb, ◌==◌, if◌then◌else◌,
  length, get_or, ok, err,
}
use sena.Base.Action.{Action, gets, require, modify, or_raise, ◌>>=◌, ◌>>◌}
use sena.Primitives.Hash256.{Hash256}
use sena.Fraudproof.Bisection.{
  Party, opponent, party_eq, Resolution, Stage, MoveError, Dispute, is_resolved, is_bisecting,
  pending, dispute_boundaries, pass_turn, enter_one_step_if_narrow,
}

abbrev pub Move : Type 0 → Type 0
Move = Action Dispute MoveError

-- The end of `begin_move`: the mover's clock pays for the time it took.
unfoldable pub charge_clock : ℕ → Party → Move (Unit {0})
charge_clock elapsed Party.defender d =
    if ltb d.defender_clock elapsed
    then (
      record d { stage = Stage.resolved Party.challenger Resolution.clock_exhausted },
      err MoveError.already_resolved,
    )
    else (record d { defender_clock = d.defender_clock - elapsed }, ok tt)
charge_clock elapsed Party.challenger d =
    if ltb d.challenger_clock elapsed
    then (
      record d { stage = Stage.resolved Party.defender Resolution.clock_exhausted },
      err MoveError.already_resolved,
    )
    else (record d { challenger_clock = d.challenger_clock - elapsed }, ok tt)

-- `Dispute::begin_move`
unfoldable pub begin_move : ℕ → Party → Move (Unit {0})
unfolding charge_clock party_eq opponent
begin_move now party d =
    if is_resolved d.stage
    then (d, err MoveError.already_resolved)
    else if ltb now d.last_move_at
    then (d, err MoveError.time_went_backwards)
    else if not (party_eq d.turn party)
    then (d, err (MoveError.wrong_turn d.turn party))
    else if ltb d.deadline now
    then (
      record d { stage = Stage.resolved (opponent party) Resolution.timeout },
      err MoveError.already_resolved,
    )
    else charge_clock (now - d.last_move_at) party d

-- `Dispute::dissect`
unfoldable pub dissect : ℕ → List Hash256 → Move (Unit {0})
unfolding dispute_boundaries pass_turn
dissect now commitments = do
  begin_move now Party.defender
  require (← gets (λ d. is_bisecting d.stage)) MoveError.wrong_stage
  expected ← gets (λ d. length (dispute_boundaries d) - 2)
  require (length commitments == expected)
      (MoveError.wrong_dissection_length expected (length commitments))
  modify (λ d. record d { stage = Stage.bisecting (some commitments) })
  modify (pass_turn now)

-- The interval shrinks to the segment `index`. Out of `bounds` or `all` the source would
-- panic; here a default is read.
unfoldable pub narrow : List ℕ → List Hash256 → ℕ → Dispute → Dispute
narrow bounds all index d = record d {
  lo = get_or bounds index d.lo;
  hi = get_or bounds (index + 1) d.hi;
  lo_commitment = get_or all index d.lo_commitment;
  hi_commitment = get_or all (index + 1) d.hi_commitment;
  stage = Stage.bisecting none;
}

-- `Dispute::select`
unfoldable pub select : ℕ → ℕ → Move (Unit {0})
unfolding dispute_boundaries narrow pass_turn enter_one_step_if_narrow
select now index = do
  begin_move now Party.challenger
  require (← gets (λ d. is_bisecting d.stage)) MoveError.wrong_stage
  offered ← λ d. or_raise (pending d.stage) MoveError.wrong_stage d
  bounds ← gets dispute_boundaries
  let segments = length bounds - 1
  require (ltb index segments) (MoveError.segment_out_of_range index segments)
  modify (λ d. narrow bounds (d.lo_commitment ∷ offered ++ d.hi_commitment ∷ []) index d)
  modify (pass_turn now)
  modify enter_one_step_if_narrow

-- `Dispute::resolve_by_one_step`
unfoldable pub resolve_by_one_step : Party → Dispute → Dispute
resolve_by_one_step w d = record d { stage = Stage.resolved w Resolution.one_step_adjudicated }

-- `Dispute::check_timeout`
unfoldable pub check_timeout : ℕ → Dispute → Dispute × Option Party
unfolding opponent
check_timeout now d = if is_resolved d.stage || leb now d.deadline then (d, none) else (
  record d { stage = Stage.resolved (opponent d.turn) Resolution.timeout },
  some (opponent d.turn),
)

-- One call on a dispute, by whoever makes it.
pub data Call : Type 0 where
  dissect_call : ℕ → List Hash256 → Call
  select_call : ℕ → ℕ → Call
  timeout_call : ℕ → Call
  resolve_call : Party → Call

-- The dispute after a call, whether it was accepted or refused.
unfoldable pub call : Call → Dispute → Dispute
call (Call.dissect_call now commitments) d = (dissect now commitments d).0
call (Call.select_call now index) d = (select now index d).0
call (Call.timeout_call now) d = (check_timeout now d).0
call (Call.resolve_call w) d = resolve_by_one_step w d

unfoldable pub run : List Call → Dispute → Dispute
unfolding call
run [] d = d
run (c ∷ cs) d = run cs (call c d)
