-- ===== src/Fraudproof/Bisection/Clock.antt =====
-- crates/sena-fraudproof/src/bisection.rs: clocks and deadlines over a whole dispute.
use sena.Base.{ℕ, ◌+◌, ◌-◌, ◌*◌, ◌≤◌, ◌≡◌, List, [], ◌∷◌, arith, ok, ◌<◌, ◌≢◌, none, ◌/◌}
use sena.Primitives.Hash256.{Hash256}
use sena.Fraudproof.Bisection.{Party, Opening, Dispute, clock_budget, open_dispute, winner}
use sena.Fraudproof.Bisection.Moves.{
  charge_clock, dissect, select, check_timeout, resolve_by_one_step, Call, call, run, begin_move,
}

-- What the clocks of a dispute that opened at `opened` say of its age.
pub record IsBudgeted (opened budget : ℕ) (d : Dispute) : Type 0 where
  pub fixed : d.clock_budget ≡ budget
  pub started : opened ≤ d.last_move_at
  pub spent : d.last_move_at + d.defender_clock + d.challenger_clock ≤ opened + 2 * budget
  pub near : d.deadline ≤ d.last_move_at + budget

open_dispute-IsBudgeted :
    (o : Opening) (now : ℕ) → IsBudgeted now (clock_budget o.challenge_window) (open_dispute o now)
unfolding open_dispute
open_dispute-IsBudgeted o now = ground arith

module _ (opened budget : ℕ) where
  charge_clock-IsBudgeted :
      (elapsed : ℕ) (p : Party) (d : Dispute)
      → IsBudgeted opened budget d
      → IsBudgeted opened budget (charge_clock elapsed p d).0
  unfolding charge_clock
  charge_clock-IsBudgeted elapsed Party.defender d h = ground arith
  charge_clock-IsBudgeted elapsed Party.challenger d h = ground arith

  begin_move-IsBudgeted :
      (now : ℕ) (p : Party) (d : Dispute)
      → IsBudgeted opened budget d
      → IsBudgeted opened budget (begin_move now p d).0
  unfolding begin_move
  begin_move-IsBudgeted now p d h =
      ground (arith, charge_clock-IsBudgeted (now - d.last_move_at) p d)

  -- The clocks have paid for the time up to a move that has begun.
  begin_move_paid :
      (now : ℕ) (p : Party) (d : Dispute)
      → IsBudgeted opened budget d
      → (begin_move now p d).1 ≡ ok tt
      → let d' = (begin_move now p d).0 in
        (opened ≤ now) × (now + d'.defender_clock + d'.challenger_clock ≤ opened + 2 * budget)
  unfolding begin_move
  begin_move_paid now Party.defender d h e = ground arith
  begin_move_paid now Party.challenger d h e = ground arith

  dissect-IsBudgeted :
      (now : ℕ) (cs : List Hash256) (d : Dispute)
      → IsBudgeted opened budget d
      → IsBudgeted opened budget (dissect now cs d).0
  unfolding dissect
  dissect-IsBudgeted now cs d h =
      ground (
        arith,
        begin_move-IsBudgeted now Party.defender d h,
        begin_move_paid now Party.defender d h,
      )

  select-IsBudgeted :
      (now index : ℕ) (d : Dispute)
      → IsBudgeted opened budget d
      → IsBudgeted opened budget (select now index d).0
  unfolding select
  select-IsBudgeted now index d h = ground (
    arith,
    begin_move-IsBudgeted now Party.challenger d h,
    begin_move_paid now Party.challenger d h,
  )

  call-IsBudgeted :
      (c : Call) (d : Dispute) → IsBudgeted opened budget d → IsBudgeted opened budget (call c d)
  unfolding call check_timeout resolve_by_one_step
  call-IsBudgeted (Call.dissect_call now cs) d h = dissect-IsBudgeted now cs d h
  call-IsBudgeted (Call.select_call now index) d h = select-IsBudgeted now index d h
  call-IsBudgeted (Call.timeout_call now) d h = ground arith
  call-IsBudgeted (Call.resolve_call w) d h = ground arith

  run-IsBudgeted :
      (cs : List Call) (d : Dispute)
      → IsBudgeted opened budget d
      → IsBudgeted opened budget (run cs d)
  unfolding run
  run-IsBudgeted [] d h = h
  run-IsBudgeted (c ∷ cs) d h = run-IsBudgeted cs (call c d) (call-IsBudgeted c d h)

-- However the parties play, and however many of their calls are refused, the last accepted move
-- is made within half the challenge window of the opening, and the deadline of the party to move
-- lies within three quarters of it.
pub run_within_window :
    (o : Opening) (now : ℕ) (cs : List Call)
    → let d = run cs (open_dispute o now) in
      (2 * d.last_move_at ≤ 2 * now + o.challenge_window)
      × (4 * d.deadline ≤ 4 * now + 3 * o.challenge_window)
unfolding clock_budget
run_within_window o now cs =
    let b =
      run-IsBudgeted now (o.challenge_window / 4) cs (open_dispute o now)
        (open_dispute-IsBudgeted o now) in
    (omega arith, omega arith)

-- Once a non-empty challenge window has run since the opening, one call of `check_timeout` leaves
-- the dispute resolved, whatever calls were made before.
pub check_timeout_concludes :
    (o : Opening) (now : ℕ) (cs : List Call) (t : ℕ)
    → 0 < o.challenge_window
    → now + o.challenge_window ≤ t
    → winner (check_timeout t (run cs (open_dispute o now))).0 ≢ none
unfolding check_timeout winner
check_timeout_concludes o now cs t w h = ground (arith, run_within_window o now cs)
