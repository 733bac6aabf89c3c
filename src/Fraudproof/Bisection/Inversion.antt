-- ===== src/Fraudproof/Bisection/Inversion.antt =====
-- crates/sena-fraudproof/src/bisection.rs: what an accepted move has checked, and the dispute it
-- leaves.
use sena.Primitives.Hash256.{Hash256}
use sena.Fraudproof.Bisection.Moves.{begin_move, dissect, select, narrow}
use sena.Fraudproof.Bisection.{
  Party, Dispute, is_resolved, pass_turn, Stage, enter_one_step_if_narrow, is_bisecting, boundaries,
}
use sena.Base.{
  ℕ, ◌≡◌, false, ok, arith, ◌≤◌, ◌-◌, List, some, true, length, ◌<◌, ◌∷◌, ◌++◌, [], ◌≢◌, Result,
  ◌⊎◌, inl, err, inr, refl,
}

-- A dispute whose mover has paid for the time that passed.
abbrev pub charged : ℕ → Party → Dispute → Dispute
charged now Party.defender d = record d {
  defender_clock = d.defender_clock - (now - d.last_move_at);
}
charged now Party.challenger d = record d {
  challenger_clock = d.challenger_clock - (now - d.last_move_at);
}

abbrev pub clock_of : Party → Dispute → ℕ
clock_of Party.defender d = d.defender_clock
clock_of Party.challenger d = d.challenger_clock

-- What `begin_move` requires.
pub record MayMove (now : ℕ) (p : Party) (d : Dispute) : Type 0 where
  pub open_still : is_resolved d.stage ≡ false
  pub later : d.last_move_at ≤ now
  pub to_move : d.turn ≡ p
  pub in_time : now ≤ d.deadline
  pub can_pay : now - d.last_move_at ≤ clock_of p d

begin_move-ok :
    (now : ℕ) (p : Party) (d : Dispute)
    → (begin_move now p d).1 ≡ ok tt
    → ((begin_move now p d).0 ≡ charged now p d) × MayMove now p d
unfolding begin_move
begin_move-ok now Party.defender d e = ground arith
begin_move-ok now Party.challenger d e = ground arith

begin_move_accepts :
    (now : ℕ) (p : Party) (d : Dispute)
    → MayMove now p d
    → begin_move now p d ≡ (charged now p d, ok tt)
unfolding begin_move
begin_move_accepts now Party.defender d m = ground arith
begin_move_accepts now Party.challenger d m = ground arith

-- The dispute after an accepted `dissect`.
abbrev pub dissected : ℕ → List Hash256 → Dispute → Dispute
dissected now commitments d =
    let c = charged now Party.defender d in
    pass_turn now (record c { stage = Stage.bisecting (some commitments) })

-- The dispute after an accepted `select`.
abbrev pub selected : ℕ → ℕ → List Hash256 → Dispute → Dispute
selected now index offered d =
    let c = charged now Party.challenger d in
    enter_one_step_if_narrow (
      pass_turn now (
        narrow (boundaries d.lo d.hi d.arity) (d.lo_commitment ∷ offered ++ d.hi_commitment ∷ [])
          index c))

pub dissect-ok :
    (now : ℕ) (cs : List Hash256) (d : Dispute)
    → (dissect now cs d).1 ≡ ok tt
    → MayMove now Party.defender d
      × (is_bisecting d.stage ≡ true)
      × (length cs ≡ length (boundaries d.lo d.hi d.arity) - 2)
      × ((dissect now cs d).0 ≡ dissected now cs d)
unfolding dissect pass_turn
dissect-ok now cs d e = ground (arith, begin_move-ok now Party.defender d)

pub select-ok :
    (now index : ℕ) (d : Dispute)
    → (select now index d).1 ≡ ok tt
    → (offered : List Hash256) × MayMove now Party.challenger d
      × (d.stage ≡ Stage.bisecting (some offered))
      × (index < length (boundaries d.lo d.hi d.arity) - 1)
      × ((select now index d).0 ≡ selected now index offered d)
unfolding select
select-ok now index d e = ground (arith, begin_move-ok now Party.challenger d)

pub dissect_accepts :
    (now : ℕ) (cs : List Hash256) (d : Dispute)
    → MayMove now Party.defender d
    → is_bisecting d.stage ≡ true
    → length cs ≡ length (boundaries d.lo d.hi d.arity) - 2
    → dissect now cs d ≡ (dissected now cs d, ok tt)
unfolding dissect
dissect_accepts now cs d m s l = ground (arith, begin_move_accepts now Party.defender d m)

pub select_accepts :
    (now index : ℕ) (offered : List Hash256) (d : Dispute)
    → MayMove now Party.challenger d
    → d.stage ≡ Stage.bisecting (some offered)
    → index < length (boundaries d.lo d.hi d.arity) - 1
    → select now index d ≡ (selected now index offered d, ok tt)
unfolding select
select_accepts now index offered d m s l =
    ground (arith, begin_move_accepts now Party.challenger d m)

-- A refused move leaves what `begin_move` left.
pub dissect_refused :
    (now : ℕ) (cs : List Hash256) (d : Dispute)
    → (dissect now cs d).1 ≢ ok tt
    → (dissect now cs d).0 ≡ (begin_move now Party.defender d).0
unfolding dissect
dissect_refused now cs d e = ground arith

pub select_refused :
    (now index : ℕ) (d : Dispute)
    → (select now index d).1 ≢ ok tt
    → (select now index d).0 ≡ (begin_move now Party.challenger d).0
unfolding select
select_refused now index d e = ground arith

-- A method either succeeds or not.
pub Done-cases {ℓ} : {E : Type ℓ} (r : Result E (Unit {0})) → (r ≡ ok tt) ⊎ (r ≢ ok tt)
Done-cases (ok u) = inl refl
Done-cases (err e) = inr (λ p. cc)
