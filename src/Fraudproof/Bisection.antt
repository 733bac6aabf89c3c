-- ===== src/Fraudproof/Bisection.antt =====
-- crates/sena-fraudproof/src/bisection.rs: the interactive bisection protocol. A method on
-- `&mut self` is an `Action` on the dispute.
pub mod Moves
pub mod Clock
pub mod Rounds
pub mod Shrink
pub mod Inversion
pub mod Boundaries
use sena.Base.{
  ℕ, ◌+◌, ◌-◌, ◌*◌, ◌/◌, min, max, Bool, true, false, not, Option, none, some, List, [], ◌∷◌, ◌++◌,
  map, ltb, ◌==◌, if◌then◌else◌, length, get_or, range, saturating_add_u64, Result, ok, err,
}
use sena.Base.Action.{Action, raise, gets, require, modify, or_raise, ◌>>=◌, ◌>>◌}
use sena.Primitives.Hash256.{Hash256}

-- `Party`
pub data Party : Type 0 where
  defender challenger : Party

unfoldable pub opponent : Party → Party
opponent Party.defender = Party.challenger
opponent Party.challenger = Party.defender

-- The derived `PartialEq` of `Party`.
unfoldable pub party_eq : Party → Party → Bool
party_eq Party.defender Party.defender = true
party_eq Party.challenger Party.challenger = true
party_eq _ _ = false

pub data Resolution : Type 0 where
  timeout clock_exhausted one_step_adjudicated : Resolution

pub data Stage : Type 0 where
  bisecting : Option (List Hash256) → Stage
  one_step : Stage
  resolved : Party → Resolution → Stage

pub data MoveError : Type 0 where
  already_resolved wrong_stage no_disagreement time_went_backwards : MoveError
  wrong_turn : Party → Party → MoveError
  wrong_dissection_length segment_out_of_range : ℕ → ℕ → MoveError

-- The terms that a dispute opens on. Assertions are named by their hash, parties by a number.
pub record Opening : Type 0 where
  pub assertion : Hash256
  pub defender : ℕ
  pub challenger : ℕ
  pub trace_length : ℕ
  pub lo_commitment : Hash256
  pub hi_commitment : Hash256
  pub challenge_window : ℕ

pub record Dispute : Type 0 where
  pub assertion : Hash256
  pub defender : ℕ
  pub challenger : ℕ
  pub lo : ℕ
  pub hi : ℕ
  pub lo_commitment : Hash256
  pub hi_commitment : Hash256
  pub stage : Stage
  pub turn : Party
  pub deadline : ℕ
  pub clock_budget : ℕ
  pub defender_clock : ℕ
  pub challenger_clock : ℕ
  pub last_move_at : ℕ
  pub arity : ℕ

-- Six hours, in seconds.
abbrev pub move_timeout : ℕ
move_timeout = 6 * 60 * 60

abbrev pub clock_budget_divisor : ℕ
clock_budget_divisor = 4

unfoldable pub clock_budget : ℕ → ℕ
clock_budget challenge_window = challenge_window / clock_budget_divisor

abbrev pub default_arity : ℕ
default_arity = 8

-- How many segments `[lo, hi]` is divided into.
unfoldable pub segment_count : ℕ → ℕ → ℕ
segment_count span arity = max (min arity span) 1

-- The free function `boundaries`. Its products are taken in u64, where the source panics on an
-- overflow; they are unbounded here. There is none where the arity times the span is below
-- 2 ^ 64, that is up to spans of 2 ^ 61 - 1 with the default arity.
unfoldable pub boundaries : ℕ → ℕ → ℕ → List ℕ
unfolding segment_count
boundaries lo hi arity =
    let span = hi - lo in
    let segments = segment_count span arity in
    map (λ i. lo + span * i / segments) (range 0 (segments + 1))

-- `Dispute::boundaries`
unfoldable pub dispute_boundaries : Dispute → List ℕ
dispute_boundaries d = boundaries d.lo d.hi d.arity

-- `Dispute::dissection_len`
unfoldable pub dissection_len : Dispute → ℕ
unfolding dispute_boundaries
dissection_len d = length (dispute_boundaries d) - 2

unfoldable pub enter_one_step_if_narrow : Dispute → Dispute
enter_one_step_if_narrow d =
    if d.hi - d.lo == 1 then record d { stage = Stage.one_step; turn = Party.challenger } else d

unfoldable pub pass_turn : ℕ → Dispute → Dispute
unfolding opponent
pass_turn now d = record d {
  turn = opponent d.turn;
  last_move_at = now;
  deadline = saturating_add_u64 now (min move_timeout d.clock_budget);
}

-- `Dispute::open`
unfoldable pub open_dispute : Opening → ℕ → Dispute
unfolding clock_budget enter_one_step_if_narrow
open_dispute o now =
    let budget = clock_budget o.challenge_window in
    enter_one_step_if_narrow (record {
      assertion = o.assertion;
      defender = o.defender;
      challenger = o.challenger;
      lo = 0;
      hi = o.trace_length;
      lo_commitment = o.lo_commitment;
      hi_commitment = o.hi_commitment;
      stage = Stage.bisecting none;
      turn = Party.defender;
      deadline = saturating_add_u64 now (min move_timeout budget);
      clock_budget = budget;
      defender_clock = budget;
      challenger_clock = budget;
      last_move_at = now;
      arity = default_arity;
    })

abbrev pub is_resolved : Stage → Bool
is_resolved (Stage.resolved w r) = true
is_resolved _ = false

abbrev pub is_bisecting : Stage → Bool
is_bisecting (Stage.bisecting o) = true
is_bisecting _ = false

-- The division that waits for a selection, if the stage has one.
abbrev pub pending : Stage → Option (List Hash256)
pending (Stage.bisecting o) = o
pending _ = none

-- `Dispute::winner`
unfoldable pub winner : Dispute → Option Party
winner d = elim d.stage [ Stage.resolved w r ↦ some w | _ ↦ none ]

-- `Dispute::disputed_step`
unfoldable pub disputed_step : Dispute → Option ℕ
disputed_step d = elim d.stage [ Stage.one_step ↦ some d.lo | _ ↦ none ]
