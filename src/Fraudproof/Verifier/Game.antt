-- ===== src/Fraudproof/Verifier/Game.antt =====
-- crates/sena-fraudproof/src/verifier.rs: a whole dispute of an honest challenger against a
-- defender who calls what it likes, when it likes.
use sena.Fraudproof.Bisection.Inversion.{
  Done-cases, dissect-ok, dissect_refused, select-ok, selected, select_refused,
}
use sena.Fraudproof.Bisection.Shrink.{IsWellFormed, call-IsWellFormed}
use sena.Fraudproof.Verifier.Honest.{Disputes, first_disagreement_keeps}
use sena.Fraudproof.Verifier.{play, commitment_at, first_disagreement}
use sena.Fraudproof.Bisection.Moves.{begin_move, call, dissect, check_timeout, Call, select}
use sena.Fraudproof.Bisection.{Dispute, pass_turn, Stage, Party, pending}
use sena.Stf.Machine.{MachineState}
use sena.Primitives.Hash256.{Bytes, Hash256}
use sena.Base.{
  ℕ, List, ◌∷◌, arith, ◌≡◌, [], some, ◌⊎◌, inl, ap, subst, ◌≢◌, sym, ◌+◌, inr, Option-cases,
}

-- One move of the game. The challenger's is the one that `play` makes.
pub data GameMove : Type 0 where
  defender_dissects : ℕ → List Hash256 → GameMove
  timeout_checked : ℕ → GameMove
  challenger_plays : ℕ → GameMove

module _ (digest : Bytes → Hash256) (states : List MachineState) where
  -- The dispute after a move, whether it was accepted or refused.
  unfoldable pub game_move : GameMove → Dispute → Dispute
  game_move (GameMove.defender_dissects now cs) d = (dissect now cs d).0
  game_move (GameMove.timeout_checked now) d = (check_timeout now d).0
  game_move (GameMove.challenger_plays now) d = (play digest states Party.challenger now d).0

  unfoldable pub run_game : List GameMove → Dispute → Dispute
  unfolding game_move
  run_game [] d = d
  run_game (m ∷ ms) d = run_game ms (game_move m d)

  begin_move-Disputes :
      (now : ℕ) (p : Party) (d : Dispute)
      → Disputes digest states d
      → Disputes digest states (begin_move now p d).0
  unfolding begin_move
  begin_move-Disputes now Party.defender d h = ground arith
  begin_move-Disputes now Party.challenger d h = ground arith

  dissect-Disputes :
      (now : ℕ) (cs : List Hash256) (d : Dispute)
      → Disputes digest states d
      → Disputes digest states (dissect now cs d).0
  unfolding pass_turn
  dissect-Disputes now cs d h = elim (Done-cases (dissect now cs d).1) [
    | inl e ↦ ground (arith, dissect-ok now cs d e)
    | inr e ↦ rw (dissect_refused now cs d e) (begin_move-Disputes now Party.defender d h)
  ]

  pending-eq : (s : Stage) (o : List Hash256) → pending s ≡ some o → s ≡ Stage.bisecting (some o)
  pending-eq (Stage.bisecting o') o e = ap Stage.bisecting e
  pending-eq Stage.one_step o e = absurd (cc)
  pending-eq (Stage.resolved w r) o e = absurd (cc)

  select-Disputes :
      (now index : ℕ) (o : List Hash256) (d : Dispute)
      → IsWellFormed d
      → d.stage ≡ Stage.bisecting (some o)
      → Disputes digest states d
      → first_disagreement digest states d o ≡ some index
      → Disputes digest states (select now index d).0
  select-Disputes now index o d w s h found = elim (Done-cases (select now index d).1) [
    | inl e ↦
        let (offered, m, st, i, eq) = select-ok now index d e in
        let (j, found', l, keeps) = first_disagreement_keeps digest states d o w s h in
        let same : j ≡ index = cc (found, found') in
        let pend : offered ≡ o = cc (s, st) in
        rw (eq, pend) (subst (λ i. Disputes digest states (selected now i o d)) same (keeps now))
    | inr e ↦ rw (select_refused now index d e) (begin_move-Disputes now Party.challenger d h)
  ]

  -- What the challenger's move is, whether or not there is a division to answer.
  play_challenger-cases :
      (now : ℕ) (d : Dispute)
      → ((play digest states Party.challenger now d).0 ≡ d)
        ⊎ ((o : List Hash256) × (index : ℕ) × (d.stage ≡ Stage.bisecting (some o))
            × (first_disagreement digest states d o ≡ some index)
            × ((play digest states Party.challenger now d).0 ≡ (select now index d).0))
  unfolding play
  play_challenger-cases now d = elim (Option-cases (pending d.stage)) [
    | inl nothing ↦ inl (ground (arith, nothing))
    | inr (o, offered) ↦ elim (Option-cases (first_disagreement digest states d o)) [
      | inl agreed ↦ inl (ground (arith, offered, agreed))
      | inr (index, found) ↦
          inr (o, index, pending-eq d.stage o offered, found, ground (arith, offered, found))
    ]
  ]

  game_move-keeps :
      (m : GameMove) (d : Dispute)
      → IsWellFormed d
      → Disputes digest states d
      → IsWellFormed (game_move m d) × Disputes digest states (game_move m d)
  unfolding game_move call check_timeout
  game_move-keeps (GameMove.defender_dissects now cs) d w h =
      (call-IsWellFormed (Call.dissect_call now cs) d w, dissect-Disputes now cs d h)
  game_move-keeps (GameMove.timeout_checked now) d w h =
      (call-IsWellFormed (Call.timeout_call now) d w, ground arith)
  game_move-keeps (GameMove.challenger_plays now) d w h = elim (play_challenger-cases now d) [
    | inl same ↦ (subst IsWellFormed (sym same) w, subst (Disputes digest states) (sym same) h)
    | inr (o, index, s, found, moved) ↦ (
      subst IsWellFormed (sym moved) (call-IsWellFormed (Call.select_call now index) d w),
      subst (Disputes digest states) (sym moved) (select-Disputes now index o d w s h found),
    )
  ]

  -- From a well-formed dispute whose commitment at the start of the interval is the
  -- challenger's own and whose commitment at the end is not, however the defender plays and
  -- whenever the challenger makes its moves: the dispute stays well-formed, its commitment at
  -- the start of the interval is the challenger's own and the one at the end is not, and at the
  -- stage of one step the interval is one step wide.
  pub honest_challenger :
      (ms : List GameMove) (d : Dispute)
      → IsWellFormed d
      → Disputes digest states d
      → let d' = run_game ms d in
        IsWellFormed d'
        × (d'.lo_commitment ≡ commitment_at digest states d'.lo)
        × (d'.hi_commitment ≢ commitment_at digest states d'.hi)
        × (d'.stage ≡ Stage.one_step → d'.hi ≡ d'.lo + 1)
  unfolding run_game
  honest_challenger [] d w h = (w, h.agrees, h.differs, λ e. ground (arith, w, e))
  honest_challenger (m ∷ ms) d w h =
      let (w', h') = game_move-keeps m d w h in honest_challenger ms (game_move m d) w' h'
