-- ===== src/Fraudproof/Verifier/Honest.antt =====
-- crates/sena-fraudproof/src/verifier.rs: the answer of an honest challenger to one division.
use sena.Fraudproof.Bisection.Boundaries.{get_or-boundaries, boundary_first, boundary_last}
use sena.Fraudproof.Bisection.Moves.{narrow}
use sena.Fraudproof.Bisection.Inversion.{selected}
use sena.Fraudproof.Bisection.Shrink.{IsWellFormed, StageFits, segments_of}
use sena.Fraudproof.Bisection.{
  Dispute, dispute_boundaries, Stage, pass_turn, enter_one_step_if_narrow, boundaries,
  segment_count,
}
use sena.Fraudproof.Verifier.{find_disagreement, first_disagreement, commitment_at}
use sena.Stf.Machine.{MachineState}
use sena.Base.{
  List, get_or, ℕ, ◌++◌, ◌≡◌, none, ◌∷◌, some, ◌<◌, [], ◌≢◌, ◌+◌, length, arith, Bool-cases, ◌-◌,
  refl, inl, sym, suc, zero, inr, subst, ◌∙◌, ap, Option-cases, length-append,
}
use sena.Primitives.Hash256.{Bytes, Hash256, bytes_eq, bytes_eq_iff}

module _ (digest : Bytes → Hash256) (states : List MachineState) where
  -- What a find says of the ends before it and of its own.
  find_disagreement-some :
      (bounds : List ℕ) (index : ℕ) (prev x : Hash256) (ends : List Hash256) (j : ℕ)
      → prev ≡ commitment_at digest states (get_or bounds index 0)
      → find_disagreement digest states bounds index ends ≡ some j
      → (k : ℕ) × (j ≡ index + k)
        × (k < length ends)
        × (get_or (prev ∷ ends) k x ≡ commitment_at digest states (get_or bounds j 0))
        × (get_or ends k x ≢ commitment_at digest states (get_or bounds (j + 1) 0))
  unfolding find_disagreement
  find_disagreement-some bounds index prev x [] j agree e = absurd (ground (arith, e))
  find_disagreement-some bounds index prev x (claimed ∷ ends) j agree e =
      let mine = commitment_at digest states (get_or bounds (index + 1) 0) in
      elim (Bool-cases (bytes_eq mine claimed)) [
        | inl same ↦
            let agree' : claimed ≡ mine = sym ((bytes_eq_iff mine claimed).0 same) in
            let e' : find_disagreement digest states bounds (index + 1) ends ≡ some j =
              ground (arith, same, e) in
            let (k, sum, lt, here, there) =
              find_disagreement-some bounds (index + 1) claimed x ends j agree' e' in
            (suc k, omega (arith, sum), omega (arith, lt), here, there)
        | inr other ↦
            let found : index ≡ j = ground (arith, other, e) in
            let differ : claimed ≢ mine = λ p. cc (other, (bytes_eq_iff mine claimed).1 (sym p)) in
            (
              0,
              omega (arith, found),
              omega arith,
              subst (λ i. prev ≡ commitment_at digest states (get_or bounds i 0)) found agree,
              subst (λ i. claimed ≢ commitment_at digest states (get_or bounds (i + 1) 0)) found
                  differ,
            )
      ]

  find_disagreement-none :
      (bounds : List ℕ) (index k : ℕ) (x : Hash256) (ends : List Hash256)
      → find_disagreement digest states bounds index ends ≡ none
      → k < length ends
      → get_or ends k x ≡ commitment_at digest states (get_or bounds (index + k + 1) 0)
  unfolding find_disagreement
  find_disagreement-none bounds index k x [] e h = elim h [ ]
  find_disagreement-none bounds index k x (claimed ∷ ends) e h =
      let mine = commitment_at digest states (get_or bounds (index + 1) 0) in
      elim (Bool-cases (bytes_eq mine claimed)) [
        | inl same ↦
            let agree' : claimed ≡ mine = sym ((bytes_eq_iff mine claimed).0 same) in
            let e' : find_disagreement digest states bounds (index + 1) ends ≡ none =
              ground (arith, same, e) in
            elim k
                as (λ i.
                  i < suc (length ends)
                  → get_or (claimed ∷ ends) i x
                    ≡ commitment_at digest states (get_or bounds (index + i + 1) 0)) [
                      | zero ↦ λ _.
                          agree'
                          ∙ ap (λ i. commitment_at digest states (get_or bounds i 0)) (omega arith)
                      | suc i ↦ λ l.
                          find_disagreement-none bounds (index + 1) i x ends e' (omega (arith, l))
                          ∙ ap (λ n. commitment_at digest states (get_or bounds n 0)) (omega arith)
                    ]
              h
        | inr other ↦ absurd (ground (arith, other, e))
      ]

  get_or-snoc : (xs : List Hash256) (y d : Hash256) → get_or (xs ++ y ∷ []) (length xs) d ≡ y
  get_or-snoc [] y d = refl
  get_or-snoc (x ∷ xs) y d = get_or-snoc xs y d

  -- The challenger agrees where the interval starts and disagrees where it ends.
  pub record Disputes (d : Dispute) : Type 0 where
    pub agrees : d.lo_commitment ≡ commitment_at digest states d.lo
    pub differs : d.hi_commitment ≢ commitment_at digest states d.hi

  -- The commitments that a segment's two ends have in the division.
  ends_of :
      (lo hi : Hash256) (offered : List Hash256) (index : ℕ) (x : Hash256)
      → get_or (lo ∷ offered ++ hi ∷ []) (index + 1) x ≡ get_or (offered ++ hi ∷ []) index x
  ends_of lo hi offered index x =
      let e : index + 1 ≡ suc index = omega arith in
      ap (λ n. get_or (lo ∷ offered ++ hi ∷ []) n x) e

  -- A default is not read inside a list.
  pub get_or-default :
      {B : Type 0} (xs : List B) (i : ℕ) (x y : B) → i < length xs → get_or xs i x ≡ get_or xs i y
  get_or-default [] i x y h = elim h [ ]
  get_or-default (z ∷ xs) zero x y h = refl
  get_or-default (z ∷ xs) (suc i) x y h = get_or-default xs i x y (omega arith)

  -- The dispute that is left by selecting a segment whose start this party agrees with and whose
  -- end it disagrees with.
  selected-Disputes :
      (now index : ℕ) (offered : List Hash256) (d : Dispute)
      → index < length (dispute_boundaries d) - 1
      → get_or (d.lo_commitment ∷ offered ++ d.hi_commitment ∷ []) index d.lo_commitment
        ≡ commitment_at digest states (get_or (dispute_boundaries d) index 0)
      → get_or (offered ++ d.hi_commitment ∷ []) index d.hi_commitment
        ≢ commitment_at digest states (get_or (dispute_boundaries d) (index + 1) 0)
      → Disputes (selected now index offered d)
  unfolding narrow pass_turn enter_one_step_if_narrow dispute_boundaries
  selected-Disputes now index offered d l here there =
      let bounds = boundaries d.lo d.hi d.arity in
      let lo = get_or-default bounds index 0 d.lo (omega (arith, l)) in
      let hi = get_or-default bounds (index + 1) 0 d.hi (omega (arith, l)) in
      let last = ends_of d.lo_commitment d.hi_commitment offered index d.hi_commitment in
      ground (arith, lo, hi, last, here, there)

  pub first_bound : (d : Dispute) → IsWellFormed d → get_or (dispute_boundaries d) 0 0 ≡ d.lo
  unfolding dispute_boundaries
  first_bound d w =
      get_or-boundaries d.lo d.hi d.arity 0 0 (omega arith) ∙ boundary_first d.lo d.hi d.arity

  -- The last end of a division lies at the end of the interval.
  last_bound :
      (d : Dispute) (offered : List Hash256)
      → IsWellFormed d
      → d.stage ≡ Stage.bisecting (some offered)
      → get_or (dispute_boundaries d) (0 + length offered + 1) 0 ≡ d.hi
  unfolding dispute_boundaries
  last_bound d offered w s =
      let fits = subst (λ st. StageFits st (d.hi - d.lo)) s w.stage_fits in
      let n : 0 + length offered + 1 ≡ segment_count (d.hi - d.lo) d.arity =
        ground (arith, fits, w.arity_fixed) in
      ap (λ i. get_or (boundaries d.lo d.hi d.arity) i 0) n
      ∙ get_or-boundaries d.lo d.hi d.arity (segment_count (d.hi - d.lo) d.arity) 0 (omega arith)
      ∙ boundary_last d.lo d.hi d.arity (omega (arith, w.nonempty))

  -- Whatever division the defender offers, an honest challenger disagrees with a segment of it,
  -- and the dispute that is left by its accepted selection is one where it agrees with the start
  -- and disagrees with the end.
  pub first_disagreement_keeps :
      (d : Dispute) (offered : List Hash256)
      → IsWellFormed d
      → d.stage ≡ Stage.bisecting (some offered)
      → Disputes d
      → (index : ℕ) × (first_disagreement digest states d offered ≡ some index)
        × (index < length (dispute_boundaries d) - 1)
        × ((now : ℕ) → Disputes (selected now index offered d))
  unfolding first_disagreement dispute_boundaries
  first_disagreement_keeps d offered w s h =
      let bounds = dispute_boundaries d in
      let ends = offered ++ d.hi_commitment ∷ [] in
      let fits = subst (λ st. StageFits st (d.hi - d.lo)) s w.stage_fits in
      let width : length ends ≡ length offered + 1 = length-append offered (d.hi_commitment ∷ []) in
      let count : length bounds ≡ length ends + 1 = omega (arith, fits, width, segments_of d w) in
      elim (Option-cases (first_disagreement digest states d offered)) [
        | inl agreed ↦
            let last = get_or-snoc offered d.hi_commitment d.hi_commitment in
            let mine =
              find_disagreement-none bounds 0 (length offered) d.hi_commitment ends agreed
                (omega (arith, width)) in
            absurd (
              h.differs
                (sym last ∙ mine ∙ ap (commitment_at digest states) (last_bound d offered w s)))
        | inr (index, found) ↦
            let (k, sum, lt, here, there) =
              find_disagreement-some bounds 0 d.lo_commitment d.lo_commitment ends index
                (h.agrees ∙ ap (commitment_at digest states) (sym (first_bound d w))) found in
            let same : k ≡ index = omega (arith, sum) in
            let l : index < length bounds - 1 = omega (arith, same, lt, count) in
            let start =
              subst
                (λ i.
                  get_or (d.lo_commitment ∷ ends) i d.lo_commitment
                  ≡ commitment_at digest states (get_or bounds index 0))
                same here in
            let stop =
              subst
                (λ i.
                  get_or ends i d.lo_commitment
                  ≢ commitment_at digest states (get_or bounds (index + 1) 0))
                same there in
            let swap =
              get_or-default ends index d.hi_commitment d.lo_commitment (omega (arith, same, lt)) in
            (
              index,
              found,
              l,
              λ now. selected-Disputes now index offered d l start (λ e. stop (sym swap ∙ e)),
            )
      ]
