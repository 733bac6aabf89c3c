-- ===== src/Fraudproof/Osp/Honest.antt =====
-- crates/sena-fraudproof/src/osp.rs: the verdict for a party that is right about the disputed step.
use sena.Fraudproof.Osp.Judge.{
  next_state, adjudicate-step, some_inj, judge-slot, Forged, blame-own, not_both, judge-witness,
  adjudicate-other, same_trie, machine_cases,
}
use sena.State.Trie.Walk.{tree_proof}
use sena.Stf.Execute.Step.Agree.{Agreed, check_witness-trie}
use sena.Base.{refl, subst, Result-cases, sym}
use sena.Stf.Execute.Step.Agree.{tree_after, verify_step-apply}
use sena.State.Trie.Backs.{Backs, prove-Proves}
use sena.State.Trie.Tree.{Tree}
use sena.State.Trie.Store.{NoClash, Within}
use sena.State.Proof.{MerkleProof}
use sena.Stf.Keys.{slot}
use sena.Stf.Execute.Step.Unique.{Broken, IsAccepted, accepted_unique}
use sena.Fraudproof.Bisection.{Party, Dispute, disputed_step}
use sena.Stf.Governance.Signatures.{Ed25519}
use sena.Stf.Execute.Step.{StepWitness, verify_step, check_witness, apply, witness_of}
use sena.State.Trie.{MerkleTrie, prove}
use sena.Primitives.Hash256.{Bytes, Hash256, bytes_eq, bytes_eq_iff, IsHash}
use sena.Fraudproof.Osp.{verdict, OneStepProof, adjudicate, judge_step, VerdictReason, Verdict}
use sena.Stf.Machine.{MachineState, commitment}
use sena.Stf.Instruction.{Instruction}
use sena.State.Node.{Node}
use sena.Base.{
  ◌≡◌, ◌⊎◌, ◌≢◌, Bool-cases, List, ℕ, inl, arith, some, get_elem?, inr, ap, ◌∙◌, ok, if◌then◌else◌,
}

module _ (digest : Bytes → Hash256) (ed : Ed25519) {P : Node → Type 0} (apart : NoClash digest P)
    (program : List Instruction) (d : Dispute) (step : ℕ) (i : Instruction) (pre : MachineState)
    (trie : MerkleTrie) (t : Tree) where
  -- At the disputed step, a challenger that holds the trie of the agreed state can prove the slot,
  -- and wins with that proof, if the step fails on its trie, or leads to a state with another
  -- commitment than the defender's. This is where the slot has 32 bytes and the nodes of the
  -- store and of the tree after the step have hashes of their own.
  pub honest_challenger_wins :
      disputed_step d ≡ some step
      → get_elem? program step ≡ some i
      → commitment digest pre ≡ d.lo_commitment
      → pre.state_root ≡ trie.root
      → IsHash (slot digest i)
      → Backs digest P trie t
      → Within digest P (tree_after digest ed apart i trie t)
      → ((trie' : MerkleTrie)
          → apply digest ed i trie ≡ some (ok trie')
          → commitment digest (next_state pre trie') ≢ d.hi_commitment)
      → (p : MerkleProof) × (prove (slot digest i) trie ≡ some p)
        × ((reason : VerdictReason) × (adjudicate digest ed program d
                (record { pre_state = pre; witness = witness_of digest ed (slot digest i) trie p })
              ≡ some (verdict Party.challenger reason)))
  unfolding judge_step
  honest_challenger_wins s g lo root h b within disagrees =
      let (p, given, agreed) = verify_step-apply digest ed apart pre i trie t h root b within in
      let proof : OneStepProof = record {
        pre_state = pre;
        witness = witness_of digest ed (slot digest i) trie p;
      } in
      let judged = adjudicate-step digest ed program d proof step i s g lo in
      (
        p,
        given,
        elim agreed [
          | Agreed.refused e a v own ↦ (
            VerdictReason.step_is_not_executable e,
            judged ∙ ap (λ r. some (judge_step digest ed d r)) v ∙ ap some (blame-own e own),
          )
          | Agreed.stepped trie' t' a v b' ↦ (
            VerdictReason.defender_claim_refuted,
            judged
                ∙ ap (λ r. some (judge_step digest ed d r)) v
                ∙ ap some (
                    refuted (commitment digest (next_state pre trie')) d.hi_commitment
                      (disagrees trie' a)),
          )
        ],
      )
    where
      refuted :
          (x y : Hash256)
          → x ≢ y
          → (if bytes_eq x y
              then verdict Party.defender VerdictReason.defender_claim_confirmed
              else verdict Party.challenger VerdictReason.defender_claim_refuted)
            ≡ verdict Party.challenger VerdictReason.defender_claim_refuted
      refuted x y n = ground (arith, bytes_eq_iff x y)

  honest-IsAccepted :
      pre.state_root ≡ trie.root
      → IsHash (slot digest i)
      → Backs digest P trie t
      → IsAccepted digest ed pre.state_root
          (slot digest i)
          (witness_of digest ed (slot digest i) trie (tree_proof digest (slot digest i) t))
  honest-IsAccepted root h b = record {
    own_slot = refl;
    checked =
        subst
          (λ r.
            check_witness digest ed r
              (witness_of digest ed (slot digest i) trie (tree_proof digest (slot digest i) t))
            ≡ ok tt)
          (sym root)
          (check_witness-trie digest ed apart (slot digest i) trie t
            (tree_proof digest (slot digest i) t)
            (prove-Proves digest apart (slot digest i) trie t h b));
  }

  -- The honest witness leads to the state of the trie after the step.
  honest_post :
      (trie' : MerkleTrie)
      → pre.state_root ≡ trie.root
      → IsHash (slot digest i)
      → Backs digest P trie t
      → Within digest P (tree_after digest ed apart i trie t)
      → apply digest ed i trie ≡ some (ok trie')
      → verify_step digest ed pre i
          (witness_of digest ed (slot digest i) trie (tree_proof digest (slot digest i) t))
        ≡ ok (next_state pre trie')
  honest_post trie' root h b within runs =
      let (p, given, agreed) = verify_step-apply digest ed apart pre i trie t h root b within in
      let w = prove-Proves digest apart (slot digest i) trie t h b in
      let one : p ≡ tree_proof digest (slot digest i) t = some_inj _ _ (sym given ∙ w.given) in
      subst
        (λ x.
          verify_step digest ed pre i (witness_of digest ed (slot digest i) trie x)
          ≡ ok (next_state pre trie'))
        one
        (elim agreed [
          | Agreed.refused e a v own ↦ absurd (not_both e trie' _ a runs)
          | Agreed.stepped trie'' t' a v b' ↦
              v ∙ ap (λ x. ok (next_state pre x)) (same_trie trie'' trie' _ a runs)
        ])

  -- The judgement of any witness, from the agreed state.
  defended :
      (trie' : MerkleTrie) (w : StepWitness)
      → pre.state_root ≡ trie.root
      → IsHash (slot digest i)
      → Backs digest P trie t
      → Within digest P (tree_after digest ed apart i trie t)
      → apply digest ed i trie ≡ some (ok trie')
      → commitment digest (next_state pre trie') ≡ d.hi_commitment
      → ((judge_step digest ed d (verify_step digest ed pre i w)).winner ≡ Party.defender)
        ⊎ Broken digest
            (slot digest i)
            (witness_of digest ed (slot digest i) trie (tree_proof digest (slot digest i) t))
            w
  unfolding judge_step
  defended trie' w root h b within runs hi = elim (Bool-cases (bytes_eq w.slot (slot digest i))) [
    | inr q ↦ inl (judge-slot digest ed d pre i w q)
    | inl q ↦ elim (Result-cases (check_witness digest ed pre.state_root w)) [
      | inr (x, c) ↦ inl (judge-witness digest ed d pre i w x q c)
      | inl (done, c) ↦
          let honest =
            witness_of digest ed (slot digest i) trie (tree_proof digest (slot digest i) t) in
          let accepted : IsAccepted digest ed pre.state_root (slot digest i) w = record {
            own_slot = (bytes_eq_iff _ _).0 q;
            checked = c;
          } in
          elim (accepted_unique digest ed pre.state_root (slot digest i) honest w
            (honest-IsAccepted root h b) accepted) [
              | inr broken ↦ inr broken
              | inl same ↦
                  let post = honest_post trie' root h b within runs in
                  inl (
                    ap (λ r. (judge_step digest ed d r).winner)
                      (ap (verify_step digest ed pre i) (sym same) ∙ post)
                    ∙ confirmed (commitment digest (next_state pre trie')) d.hi_commitment hi)
            ]
    ]
  ]
    where
      confirmed :
          (x y : Hash256)
          → x ≡ y
          → (if bytes_eq x y
              then verdict Party.defender VerdictReason.defender_claim_confirmed
              else verdict Party.challenger VerdictReason.defender_claim_refuted).winner
            ≡ Party.defender
      confirmed x y n = ground (arith, (bytes_eq_iff x y).1 n)

  -- At the disputed step, a defender whose commitment is that of the state to which the step leads
  -- wins whatever the challenger submits, or the submission exhibits a collision with what the
  -- defender holds: its state differs from the agreed one and has the same commitment, its
  -- value differs from the trie's at the slot and has the same hash, or among the nodes hashed
  -- to check its proof and the trie's own two different ones have one hash or one has the hash
  -- of the empty subtree. This is where the slot has 32 bytes and the nodes of the store and of
  -- the tree after the step have hashes of their own.
  pub honest_defender_wins :
      (trie' : MerkleTrie) (p : OneStepProof)
      → disputed_step d ≡ some step
      → get_elem? program step ≡ some i
      → commitment digest pre ≡ d.lo_commitment
      → pre.state_root ≡ trie.root
      → IsHash (slot digest i)
      → Backs digest P trie t
      → Within digest P (tree_after digest ed apart i trie t)
      → apply digest ed i trie ≡ some (ok trie')
      → commitment digest (next_state pre trie') ≡ d.hi_commitment
      → ((v : Verdict) × (adjudicate digest ed program d p ≡ some v) × (v.winner ≡ Party.defender))
        ⊎ Forged digest
            (slot digest i)
            pre
            (witness_of digest ed (slot digest i) trie (tree_proof digest (slot digest i) t))
            p
  honest_defender_wins trie' p s g lo root h b within runs hi =
      elim (Bool-cases (bytes_eq (commitment digest p.pre_state) d.lo_commitment)) [
        | inr q ↦ inl (_, adjudicate-other digest ed program d p step s q, refl)
        | inl q ↦
            let agreed_lo = (bytes_eq_iff _ _).0 q in
            elim (machine_cases pre p.pre_state) [
              | inr differ ↦ inr (Forged.states differ (lo ∙ sym agreed_lo))
              | inl same ↦
                  let judged = adjudicate-step digest ed program d p step i s g agreed_lo in
                  elim (defended trie' p.witness root h b within runs hi) [
                    | inl wins ↦ inl (
                      _,
                      judged,
                      subst
                          (λ x.
                            (judge_step digest ed d (verify_step digest ed x i p.witness)).winner
                            ≡ Party.defender)
                          same wins,
                    )
                    | inr broken ↦ inr (Forged.witnesses broken)
                  ]
            ]
      ]
