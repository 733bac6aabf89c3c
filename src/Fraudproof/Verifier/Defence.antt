-- ===== src/Fraudproof/Verifier/Defence.antt =====
-- crates/sena-fraudproof/src/verifier.rs: a whole dispute of an honest defender against a
-- challenger who selects what it likes, when it likes.
use sena.Fraudproof.Verifier.Division.{commit_ends, get_or-map}
use sena.Fraudproof.Verifier.Honest.{first_bound, get_or-default}
use sena.Fraudproof.Bisection.Inversion.{
  selected, Done-cases, select-ok, dissect-ok, select_refused, dissect_refused,
}
use sena.Fraudproof.Bisection.Boundaries.{
  segment_count_pos, length-boundaries, get_or-boundaries, boundary_last,
}
use sena.Fraudproof.Bisection.Shrink.{IsWellFormed, segments_of, call-IsWellFormed}
use sena.Fraudproof.Bisection.Moves.{select, check_timeout, narrow, begin_move, dissect, call, Call}
use sena.Fraudproof.Verifier.{player_dissect, commitment_at, play}
use sena.Fraudproof.Bisection.{
  Dispute, Stage, dispute_boundaries, Party, boundaries, pass_turn, segment_count, default_arity,
  enter_one_step_if_narrow,
}
use sena.Stf.Machine.{MachineState}
use sena.Primitives.Hash256.{Bytes, Hash256}
use sena.Base.{
  ℕ, List, length, ◌<◌, map, ◌≡◌, get_or, ◌++◌, ◌+◌, ◌∷◌, ap, [], arith, some, refl, ◌-◌, ◌∙◌, sym,
  inl, subst, inr,
}

-- One move of the game. The defender's is the one that `play` makes.
pub data DefenceMove : Type 0 where
  challenger_selects : ℕ → ℕ → DefenceMove
  timeout_claimed : ℕ → DefenceMove
  defender_plays : ℕ → DefenceMove

module _ (digest : Bytes → Hash256) (states : List MachineState) where
  -- The dispute after a move, whether it was accepted or refused.
  unfoldable pub defence_move : DefenceMove → Dispute → Dispute
  defence_move (DefenceMove.challenger_selects now index) d = (select now index d).0
  defence_move (DefenceMove.timeout_claimed now) d = (check_timeout now d).0
  defence_move (DefenceMove.defender_plays now) d = (play digest states Party.defender now d).0

  unfoldable pub run_defence : List DefenceMove → Dispute → Dispute
  unfolding defence_move
  run_defence [] d = d
  run_defence (m ∷ ms) d = run_defence ms (defence_move m d)

  -- Every commitment of the dispute is the defender's own.
  pub record Defends (d : Dispute) : Type 0 where
    pub start : d.lo_commitment ≡ commitment_at digest states d.lo
    pub end : d.hi_commitment ≡ commitment_at digest states d.hi
    pub division :
        (o : List Hash256) → d.stage ≡ Stage.bisecting (some o) → o ≡ player_dissect digest states d

  last_boundary :
      (d : Dispute)
      → IsWellFormed d
      → get_or (dispute_boundaries d) (length (dispute_boundaries d) - 1) 0 ≡ d.hi
  unfolding dispute_boundaries
  last_boundary d w =
      let n : length (boundaries d.lo d.hi d.arity) - 1 ≡ segment_count (d.hi - d.lo) d.arity =
        omega (arith, length-boundaries d.lo d.hi d.arity) in
      ap (λ i. get_or (boundaries d.lo d.hi d.arity) i 0) n
      ∙ get_or-boundaries d.lo d.hi d.arity (segment_count (d.hi - d.lo) d.arity) 0 (omega arith)
      ∙ boundary_last d.lo d.hi d.arity (omega (arith, w.nonempty))

  -- With the ends of the interval, an honest division commits to every boundary.
  whole_division :
      (d : Dispute)
      → IsWellFormed d
      → Defends d
      → d.lo_commitment ∷ (player_dissect digest states d ++ d.hi_commitment ∷ [])
        ≡ map (commitment_at digest states) (dispute_boundaries d)
  unfolding player_dissect dispute_boundaries
  whole_division d w h =
      commit_ends (commitment_at digest states) (dispute_boundaries d) d.lo_commitment
        d.hi_commitment
        (omega (arith, segments_of d w, segment_count_pos (d.hi - d.lo) default_arity))
        (h.start ∙ ap (commitment_at digest states) (sym (first_bound digest states d w)))
        (h.end ∙ ap (commitment_at digest states) (sym (last_boundary d w)))

  -- A segment of an honest division has the defender's own commitments at both ends.
  selected-Defends :
      (now index : ℕ) (d : Dispute)
      → IsWellFormed d
      → Defends d
      → index < length (dispute_boundaries d) - 1
      → Defends (selected now index (player_dissect digest states d) d)
  unfolding narrow pass_turn enter_one_step_if_narrow dispute_boundaries
  selected-Defends now index d w h l =
      let bounds = boundaries d.lo d.hi d.arity in
      let all = whole_division d w h in
      let f = commitment_at digest states in
      let lo =
        ap (λ x. get_or x index d.lo_commitment) all
        ∙ get_or-map f bounds index d.lo_commitment (omega (arith, l))
        ∙ ap f (get_or-default digest states bounds index 0 d.lo (omega (arith, l))) in
      let hi =
        ap (λ x. get_or x (index + 1) d.hi_commitment) all
        ∙ get_or-map f bounds (index + 1) d.hi_commitment (omega (arith, l))
        ∙ ap f (get_or-default digest states bounds (index + 1) 0 d.hi (omega (arith, l))) in
      record {
        start = ground (arith, lo);
        end = ground (arith, hi);
        division = λ o e. absurd (ground (arith, e));
      }

  begin_move-Defends :
      (now : ℕ) (p : Party) (d : Dispute) → Defends d → Defends (begin_move now p d).0
  unfolding begin_move player_dissect dispute_boundaries
  begin_move-Defends now Party.defender d h = record {
    start = ground (arith, h.start);
    end = ground (arith, h.end);
    division = λ o e. ground (arith, h.division o, e);
  }
  begin_move-Defends now Party.challenger d h = record {
    start = ground (arith, h.start);
    end = ground (arith, h.end);
    division = λ o e. ground (arith, h.division o, e);
  }

  select-Defends :
      (now index : ℕ) (d : Dispute) → IsWellFormed d → Defends d → Defends (select now index d).0
  unfolding dispute_boundaries
  select-Defends now index d w h = elim (Done-cases (select now index d).1) [
    | inl e ↦
        let (offered, m, st, i, eq) = select-ok now index d e in
        rw (eq, h.division offered st) (selected-Defends now index d w h i)
    | inr e ↦ rw (select_refused now index d e) (begin_move-Defends now Party.challenger d h)
  ]

  play_defender-eq :
      (now : ℕ) (d : Dispute)
      → (play digest states Party.defender now d).0
        ≡ (dissect now (player_dissect digest states d) d).0
  unfolding play
  play_defender-eq now d = refl

  dissect-Defends :
      (now : ℕ) (d : Dispute)
      → Defends d
      → Defends (dissect now (player_dissect digest states d) d).0
  unfolding pass_turn player_dissect dispute_boundaries
  dissect-Defends now d h =
      let cs = player_dissect digest states d in
      elim (Done-cases (dissect now cs d).1) [
        | inl e ↦
            let (m, b, l, eq) = dissect-ok now cs d e in
            rw eq (record { start = h.start; end = h.end; division = λ o s. ground (arith, s) })
        | inr e ↦ rw (dissect_refused now cs d e) (begin_move-Defends now Party.defender d h)
      ]

  check_timeout-Defends : (now : ℕ) (d : Dispute) → Defends d → Defends (check_timeout now d).0
  unfolding check_timeout player_dissect dispute_boundaries
  check_timeout-Defends now d h = record {
    start = ground (arith, h.start);
    end = ground (arith, h.end);
    division = λ o e. ground (arith, h.division o, e);
  }

  defence_move-keeps :
      (m : DefenceMove) (d : Dispute)
      → IsWellFormed d
      → Defends d
      → IsWellFormed (defence_move m d) × Defends (defence_move m d)
  unfolding defence_move call check_timeout
  defence_move-keeps (DefenceMove.challenger_selects now index) d w h =
      (call-IsWellFormed (Call.select_call now index) d w, select-Defends now index d w h)
  defence_move-keeps (DefenceMove.timeout_claimed now) d w h =
      (call-IsWellFormed (Call.timeout_call now) d w, check_timeout-Defends now d h)
  defence_move-keeps (DefenceMove.defender_plays now) d w h = (
    subst IsWellFormed (sym (play_defender-eq now d))
        (call-IsWellFormed (Call.dissect_call now (player_dissect digest states d)) d w),
    subst Defends (sym (play_defender-eq now d)) (dissect-Defends now d h),
  )

  -- From a well-formed dispute whose commitments at both ends of the interval, and the pending
  -- division if there is one, are the defender's own, however the challenger plays and whenever
  -- the defender makes its moves: the dispute stays well-formed, its commitments at both ends
  -- of the interval are the defender's own, and at the stage of one step the interval is one
  -- step wide.
  pub honest_defender :
      (ms : List DefenceMove) (d : Dispute)
      → IsWellFormed d
      → Defends d
      → let d' = run_defence ms d in
        IsWellFormed d'
        × (d'.lo_commitment ≡ commitment_at digest states d'.lo)
        × (d'.hi_commitment ≡ commitment_at digest states d'.hi)
        × (d'.stage ≡ Stage.one_step → d'.hi ≡ d'.lo + 1)
  unfolding run_defence
  honest_defender [] d w h = (w, h.start, h.end, λ e. ground (arith, w, e))
  honest_defender (m ∷ ms) d w h =
      let (w', h') = defence_move-keeps m d w h in honest_defender ms (defence_move m d) w' h'
