-- ===== src/Fraudproof/Bisection/Shrink.antt =====
-- crates/sena-fraudproof/src/bisection.rs: the disputed interval over a whole dispute.
use sena.Fraudproof.Bisection.Inversion.{
  selected, Done-cases, dissect-ok, select-ok, dissect_refused, select_refused,
}
use sena.Fraudproof.Bisection.Boundaries.{
  length-boundaries, boundary, get_or-boundaries, boundary_step, segment_count_pos,
}
use sena.Primitives.Hash256.{Hash256}
use sena.Base.{ℕ, ◌≤◌, ◌≡◌, length, List, ◌<◌, arith, some, ◌+◌, ◌-◌, none, true, inl, ◌∷◌, [], inr}
use sena.Fraudproof.Bisection.Moves.{
  begin_move, dissect, narrow, select, call, run, check_timeout, Call, resolve_by_one_step,
}
use sena.Fraudproof.Bisection.{
  Stage, Dispute, open_dispute, Opening, Party, pass_turn, default_arity, boundaries,
  enter_one_step_if_narrow, segment_count, is_bisecting,
}

-- What a stage says of the width of the interval.
abbrev pub StageFits : Stage → ℕ → Type 0
StageFits (Stage.bisecting none) span = 2 ≤ span
StageFits (Stage.bisecting (some cs)) span =
    (2 ≤ span) × (length cs + 1 ≡ segment_count span default_arity)
StageFits Stage.one_step span = span ≡ 1
StageFits (Stage.resolved w r) span = Unit

-- The interval is not empty, and the stage fits it.
pub record IsWellFormed (d : Dispute) : Type 0 where
  pub arity_fixed : d.arity ≡ default_arity
  pub nonempty : d.lo < d.hi
  pub stage_fits : StageFits d.stage (d.hi - d.lo)

pub open_dispute-IsWellFormed :
    (o : Opening) (now : ℕ) → 0 < o.trace_length → IsWellFormed (open_dispute o now)
unfolding open_dispute
open_dispute-IsWellFormed o now h = ground arith

begin_move-IsWellFormed :
    (now : ℕ) (p : Party) (d : Dispute) → IsWellFormed d → IsWellFormed (begin_move now p d).0
unfolding begin_move
begin_move-IsWellFormed now Party.defender d h = ground arith
begin_move-IsWellFormed now Party.challenger d h = ground arith

pub segments_of :
    (d : Dispute)
    → IsWellFormed d
    → length (boundaries d.lo d.hi d.arity) ≡ segment_count (d.hi - d.lo) default_arity + 1
segments_of d h = cc (h.arity_fixed, length-boundaries d.lo d.hi d.arity)

pub stage_wide : (d : Dispute) → IsWellFormed d → is_bisecting d.stage ≡ true → 2 ≤ d.hi - d.lo
stage_wide d h e = ground arith

dissect-IsWellFormed :
    (now : ℕ) (cs : List Hash256) (d : Dispute) → IsWellFormed d → IsWellFormed (dissect now cs d).0
unfolding pass_turn
dissect-IsWellFormed now cs d h = elim (Done-cases (dissect now cs d).1) [
  | inl e ↦ ground (
    arith,
    dissect-ok now cs d e,
    segments_of d h,
    stage_wide d h,
    segment_count_pos (d.hi - d.lo) default_arity,
  )
  | inr e ↦ rw (dissect_refused now cs d e) (begin_move-IsWellFormed now Party.defender d h)
]

-- The interval that an accepted selection leaves.
pub selected_interval :
    (now index : ℕ) (offered : List Hash256) (d : Dispute)
    → index < length (boundaries d.lo d.hi d.arity) - 1
    → let d' = selected now index offered d in
      (d'.lo ≡ boundary d.lo d.hi d.arity index)
      × (d'.hi ≡ boundary d.lo d.hi d.arity (index + 1))
      × (d'.arity ≡ d.arity)
unfolding narrow pass_turn enter_one_step_if_narrow
selected_interval now index offered d h = ground (
  arith,
  length-boundaries d.lo d.hi d.arity,
  get_or-boundaries d.lo d.hi d.arity index d.lo,
  get_or-boundaries d.lo d.hi d.arity (index + 1) d.hi,
)

selected-IsWellFormed :
    (now index : ℕ) (offered : List Hash256) (d : Dispute)
    → IsWellFormed d
    → index < length (boundaries d.lo d.hi d.arity) - 1
    → IsWellFormed (selected now index offered d)
unfolding narrow pass_turn enter_one_step_if_narrow
selected-IsWellFormed now index offered d h i = ground (
  arith,
  selected_interval now index offered d i,
  boundary_step d.lo d.hi d.arity index h.nonempty,
)

select-IsWellFormed :
    (now index : ℕ) (d : Dispute) → IsWellFormed d → IsWellFormed (select now index d).0
select-IsWellFormed now index d h = elim (Done-cases (select now index d).1) [
  | inl e ↦
      let (offered, m, st, i, eq) = select-ok now index d e in
      rw eq (selected-IsWellFormed now index offered d h i)
  | inr e ↦ rw (select_refused now index d e) (begin_move-IsWellFormed now Party.challenger d h)
]

-- Each call on its own.
pub call-IsWellFormed : (c : Call) (d : Dispute) → IsWellFormed d → IsWellFormed (call c d)
unfolding call check_timeout resolve_by_one_step
call-IsWellFormed (Call.dissect_call now cs) d h = dissect-IsWellFormed now cs d h
call-IsWellFormed (Call.select_call now index) d h = select-IsWellFormed now index d h
call-IsWellFormed (Call.timeout_call now) d h = ground arith
call-IsWellFormed (Call.resolve_call w) d h = ground arith

-- Every sequence of calls keeps a well-formed dispute well-formed: the interval holds a step,
-- the arity is the default, and the stage and the length of a pending division fit the
-- interval's width.
pub run-IsWellFormed : (cs : List Call) (d : Dispute) → IsWellFormed d → IsWellFormed (run cs d)
unfolding run
run-IsWellFormed [] d h = h
run-IsWellFormed (c ∷ cs) d h = run-IsWellFormed cs (call c d) (call-IsWellFormed c d h)
