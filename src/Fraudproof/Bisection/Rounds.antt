-- ===== src/Fraudproof/Bisection/Rounds.antt =====
-- crates/sena-fraudproof/src/bisection.rs: how many rounds a dispute can take.
use sena.Primitives.Hash256.{Hash256}
use sena.Fraudproof.Bisection.Inversion.{select_refused, select-ok}
use sena.Fraudproof.Bisection.Boundaries.{max_width, boundary_step}
use sena.Fraudproof.Bisection.Shrink.{
  IsWellFormed, stage_wide, selected_interval, call-IsWellFormed,
}
use sena.Base.{
  List, ℕ, ◌≤◌, ◌^◌, Bool, ◌∷◌, ◌≡◌, suc, if◌then◌else◌, arith, ◌+◌, false, ok, true, ◌-◌, [], err,
  ◌<◌, Bool-cases, max, ltb, min, inl, ◌/◌, tests, inr, zero, refl,
}
use sena.Fraudproof.Bisection.Moves.{
  Call, begin_move, call, check_timeout, resolve_by_one_step, select, dissect,
}
use sena.Fraudproof.Bisection.{segment_count, Dispute, Party, default_arity}
use native.Mathlib.Nat.{pow-suc, one-le-pow, div-lt_iff_lt-mul}

-- An interval of at most eight steps is cut into single steps.
max_width_small : (span : ℕ) → 0 < span → span ≤ 8 → max_width span default_arity ≤ 1
unfolding segment_count
max_width_small span p h =
    let e : max (min 8 span) 1 ≡ span = omega arith in
    let below : (span + (span - 1)) / span < 2 = (div-lt_iff_lt-mul p).1 (omega arith) in
    rw e (omega arith)

max_width-le : (span k : ℕ) → 2 ≤ span → span ≤ 8 ^ suc k → max_width span default_arity ≤ 8 ^ k
unfolding segment_count
max_width-le span k p h = elim (Bool-cases (ltb 8 span)) [
  | inl wide ↦ let e : max (min 8 span) 1 ≡ 8 = omega tests in rw e (omega (arith, pow-suc 8 k))
  | inr small ↦
      omega (tests, max_width_small span (omega arith) (omega tests), one-le-pow k 8 (omega arith))
]

-- Whether a call is a selection that the dispute accepts.
unfoldable pub is_accepted_selection : Call → Dispute → Bool
is_accepted_selection (Call.select_call now index) d = elim (select now index d).1 [
  | ok u ↦ true
  | err e ↦ false
]
is_accepted_selection _ d = false

-- How many selections of a sequence of calls the dispute accepts.
unfoldable pub rounds_played : List Call → Dispute → ℕ
unfolding is_accepted_selection
rounds_played [] d = 0
rounds_played (c ∷ cs) d =
    (if is_accepted_selection c d then 1 else 0) + rounds_played cs (call c d)

-- A call that is no accepted selection leaves the interval alone.
begin_move_interval :
    (now : ℕ) (p : Party) (d : Dispute)
    → let d' = (begin_move now p d).0 in (d'.lo ≡ d.lo) × (d'.hi ≡ d.hi)
unfolding begin_move
begin_move_interval now Party.defender d = ground arith
begin_move_interval now Party.challenger d = ground arith

dissect_interval :
    (now : ℕ) (cs : List Hash256) (d : Dispute)
    → let d' = (dissect now cs d).0 in (d'.lo ≡ d.lo) × (d'.hi ≡ d.hi)
unfolding dissect
dissect_interval now cs d = ground (arith, begin_move_interval now Party.defender d)

call_interval :
    (c : Call) (d : Dispute)
    → is_accepted_selection c d ≡ false
    → ((call c d).lo ≡ d.lo) × ((call c d).hi ≡ d.hi)
unfolding call is_accepted_selection check_timeout resolve_by_one_step
call_interval (Call.dissect_call now cs) d h = dissect_interval now cs d
call_interval (Call.select_call now index) d h =
    ground (arith, select_refused now index d, begin_move_interval now Party.challenger d)
call_interval (Call.timeout_call now) d h = ground arith
call_interval (Call.resolve_call w) d h = ground arith

-- An accepted selection cuts a power of eight by one.
select_shrinks :
    (now index k : ℕ) (d : Dispute)
    → IsWellFormed d
    → (select now index d).1 ≡ ok tt
    → d.hi - d.lo ≤ 8 ^ suc k
    → (select now index d).0.hi - (select now index d).0.lo ≤ 8 ^ k
select_shrinks now index k d h e w =
    let (offered, m, st, i, eq) = select-ok now index d e in
    let two : 2 ≤ d.hi - d.lo = stage_wide d h (rw st) in
    ground (
      arith,
      selected_interval now index offered d i,
      boundary_step d.lo d.hi default_arity index h.nonempty,
      max_width-le (d.hi - d.lo) k two w,
    )

accepted_select :
    (now index : ℕ) (d : Dispute)
    → is_accepted_selection (Call.select_call now index) d ≡ true
    → (select now index d).1 ≡ ok tt
unfolding is_accepted_selection
accepted_select now index d h = ground arith

accepted_shrinks :
    (c : Call) (k : ℕ) (d : Dispute)
    → IsWellFormed d
    → is_accepted_selection c d ≡ true
    → d.hi - d.lo ≤ 8 ^ k
    → (j : ℕ) × (k ≡ suc j) × ((call c d).hi - (call c d).lo ≤ 8 ^ j)
unfolding call is_accepted_selection
accepted_shrinks (Call.select_call now index) (suc k) d h a w =
    (k, refl, select_shrinks now index k d h (accepted_select now index d a) w)
accepted_shrinks (Call.select_call now index) zero d h a w =
    let (offered, m, st, i, eq) = select-ok now index d (accepted_select now index d a) in
    absurd (omega (arith, stage_wide d h (rw st)))
accepted_shrinks (Call.dissect_call now cs) k d h a w = absurd (cc)
accepted_shrinks (Call.timeout_call now) k d h a w = absurd (cc)
accepted_shrinks (Call.resolve_call p) k d h a w = absurd (cc)

-- A well-formed dispute whose interval is at most 8 ^ k wide accepts at most k selections,
-- whatever else is called: none at one step.
pub rounds_played-le :
    (cs : List Call) (k : ℕ) (d : Dispute)
    → IsWellFormed d
    → d.hi - d.lo ≤ 8 ^ k
    → rounds_played cs d ≤ k
unfolding rounds_played
rounds_played-le [] k d h w = omega arith
rounds_played-le (c ∷ cs) k d h w = elim (Bool-cases (is_accepted_selection c d)) [
  | inl played ↦
      let (j, e, narrower) = accepted_shrinks c k d h played w in
      rw (played, e)
        (omega (arith, rounds_played-le cs j (call c d) (call-IsWellFormed c d h) narrower))
  | inr other ↦
      let same = call_interval c d other in
      let ih = rounds_played-le cs k (call c d) (call-IsWellFormed c d h) (omega arith) in
      rw other (omega arith)
]
