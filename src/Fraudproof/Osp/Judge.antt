-- ===== src/Fraudproof/Osp/Judge.antt =====
-- crates/sena-fraudproof/src/osp.rs: what the adjudication makes of one submission.
use sena.Base.{refl, Option}
use sena.State.Proof.{ProofError, MerkleProof}
use mathlib.Core.Path.{ap₂}
use sena.Stf.Keys.{slot}
use sena.Stf.Execute.Step.Unique.{Broken}
use sena.Fraudproof.Bisection.{Party, Dispute, disputed_step}
use sena.Stf.Governance.Signatures.{Ed25519}
use sena.Stf.Execute.Step.{StepWitness, verify_step, check_witness}
use sena.Stf.Execute.Transition.Effects.{is_witness_error}
use sena.State.Trie.{MerkleTrie}
use sena.Primitives.Hash256.{Bytes, Hash256, bytes_eq, bytes_eq_iff, bytes_eq_refl}
use sena.Fraudproof.Osp.{
  blame, verdict, OneStepProof, adjudicate, judge_step, adjudicate_at, VerdictReason,
}
use sena.Stf.Machine.{MachineState, commitment}
use sena.Stf.Execute.{StepError}
use sena.Stf.Instruction.{Instruction}
use sena.Base.{
  ◌≡◌, ◌⊎◌, saturating_add_u64, false, ◌≢◌, Bool-cases, List, ◌&&◌, ◌==◌, ℕ, err, inl, arith, some,
  get_elem?, inr, ap, Result, true, map_err, ◌∙◌, ok,
}

pub machine_cases : (s t : MachineState) → (s ≡ t) ⊎ (s ≢ t)
machine_cases s t = elim (Bool-cases (bytes_eq s.state_root t.state_root && s.pc == t.pc)) [
  | inl q ↦
      let roots : s.state_root ≡ t.state_root =
        ground (arith, bytes_eq_iff s.state_root t.state_root) in
      let pcs : s.pc ≡ t.pc = ground arith in
      inl (ap₂ (λ r p. record { state_root = r; pc = p }) roots pcs)
  | inr q ↦ inr (λ e.
      absurd
        (ground (arith, bytes_eq_refl s.state_root, ap (λ x. x.state_root) e, ap (λ x. x.pc) e)))
]

-- The machine state after a step, over the trie that it left.
abbrev pub next_state : MachineState → MerkleTrie → MachineState
next_state pre trie = record { state_root = trie.root; pc = saturating_add_u64 pre.pc 1 }

pub some_inj : (p q : MerkleProof) → some p ≡ some q → p ≡ q
some_inj p q e = cc

pub same_trie :
    (a b : MerkleTrie) (r : Option (Result StepError MerkleTrie))
    → r ≡ some (ok a)
    → r ≡ some (ok b)
    → a ≡ b
same_trie a b r e f = cc

pub not_both :
    (x : StepError) (b : MerkleTrie) (r : Option (Result StepError MerkleTrie))
    → r ≡ some (err x)
    → r ≡ some (ok b)
    → ⊥
not_both x b r e f = absurd (cc)

pub blame-own :
    (e : StepError)
    → is_witness_error e ≡ false
    → blame e ≡ verdict Party.challenger (VerdictReason.step_is_not_executable e)
unfolding blame is_witness_error
blame-own (StepError.nonce_mismatch x y) h = refl
blame-own (StepError.balance x) h = refl
blame-own StepError.malformed_slot h = refl
blame-own StepError.identifier_taken h = refl
blame-own StepError.identifier_not_held h = refl
blame-own StepError.asset_not_whitelisted h = refl
blame-own StepError.asset_disabled h = refl
blame-own (StepError.gas_rate_mismatch x y) h = refl
blame-own (StepError.gas x) h = refl
blame-own (StepError.governance x) h = refl
blame-own StepError.jwk_not_accepted h = refl
blame-own StepError.window_full h = refl
blame-own StepError.fee_split_mismatch h = refl
blame-own (StepError.intrinsic_gas_mismatch x y) h = refl
blame-own (StepError.base_fee_mismatch x y) h = refl
blame-own (StepError.witness_slot_mismatch x y) h = absurd (ground arith)
blame-own (StepError.bad_witness_proof x) h = absurd (ground arith)

-- The submission's state is another one with the commitment of `pre`, or its witness collides with
-- `w`.
pub data Forged (digest : Bytes → Hash256) (key : Hash256) (pre : MachineState) (w : StepWitness)
    (p : OneStepProof) : Type 0 where
  states :
      pre ≢ p.pre_state
      → commitment digest pre ≡ commitment digest p.pre_state
      → Forged digest key pre w p
  witnesses : Broken digest key w p.witness → Forged digest key pre w p

module _ (digest : Bytes → Hash256) (ed : Ed25519) where
  pub adjudicate-step :
      (program : List Instruction) (d : Dispute) (p : OneStepProof) (step : ℕ) (i : Instruction)
      → disputed_step d ≡ some step
      → get_elem? program step ≡ some i
      → commitment digest p.pre_state ≡ d.lo_commitment
      → adjudicate digest ed program d p
        ≡ some (judge_step digest ed d (verify_step digest ed p.pre_state i p.witness))
  unfolding adjudicate adjudicate_at
  adjudicate-step program d p step i s g c =
      ground (arith, s, g, (bytes_eq_iff (commitment digest p.pre_state) d.lo_commitment).1 c)

  pub adjudicate-other :
      (program : List Instruction) (d : Dispute) (p : OneStepProof) (step : ℕ)
      → disputed_step d ≡ some step
      → bytes_eq (commitment digest p.pre_state) d.lo_commitment ≡ false
      → adjudicate digest ed program d p
        ≡ some (verdict Party.defender VerdictReason.proof_contradicts_agreed_state)
  unfolding adjudicate adjudicate_at
  adjudicate-other program d p step s c = ground (arith, s, c)

  map_err-err :
      {E F A : Type 0} (g : E → F) (r : Result E A) (x : F)
      → map_err g r ≡ err x
      → (e : E) × (x ≡ g e)
  map_err-err g (ok a) x q = absurd (cc)
  map_err-err g (err e) x q = (e, cc)

  check_witness-err :
      (root : Hash256) (w : StepWitness) (x : StepError)
      → check_witness digest ed root w ≡ err x
      → (e : ProofError) × (x ≡ StepError.bad_witness_proof e)
  unfolding check_witness
  check_witness-err root w x q = map_err-err StepError.bad_witness_proof _ x q

  verify_step-slot :
      (pre : MachineState) (i : Instruction) (w : StepWitness)
      → bytes_eq w.slot (slot digest i) ≡ false
      → verify_step digest ed pre i w ≡ err (StepError.witness_slot_mismatch w.slot (slot digest i))
  unfolding verify_step
  verify_step-slot pre i w q = ground (arith, q)

  verify_step-witness :
      (pre : MachineState) (i : Instruction) (w : StepWitness) (x : StepError)
      → bytes_eq w.slot (slot digest i) ≡ true
      → check_witness digest ed pre.state_root w ≡ err x
      → verify_step digest ed pre i w ≡ err x
  unfolding verify_step
  verify_step-witness pre i w x q e = ground (arith, q, e)

  -- A witness that is not accepted is the challenger's fault.
  pub judge-slot :
      (d : Dispute) (pre : MachineState) (i : Instruction) (w : StepWitness)
      → bytes_eq w.slot (slot digest i) ≡ false
      → (judge_step digest ed d (verify_step digest ed pre i w)).winner ≡ Party.defender
  unfolding judge_step blame
  judge-slot d pre i w q = ap (λ r. (judge_step digest ed d r).winner) (verify_step-slot pre i w q)

  pub judge-witness :
      (d : Dispute) (pre : MachineState) (i : Instruction) (w : StepWitness) (x : StepError)
      → bytes_eq w.slot (slot digest i) ≡ true
      → check_witness digest ed pre.state_root w ≡ err x
      → (judge_step digest ed d (verify_step digest ed pre i w)).winner ≡ Party.defender
  unfolding judge_step blame
  judge-witness d pre i w x q c =
      let (e, same) = check_witness-err pre.state_root w x c in
      ap (λ r. (judge_step digest ed d r).winner) (verify_step-witness pre i w x q c ∙ ap err same)
