-- ===== src/Stf/Execute/Step/Agree.antt =====
-- crates/sena-stf/src/execute.rs: the node that holds the trie and the verifier that holds a witness
-- compute the same step.
use sena.Stf.Execute.Transition.Effects.{is_witness_error, transition-err}
use sena.Primitives.Hash256.Order.{bytes_ord}
use sena.Base.BTreeMap.{get}
use sena.State.Trie.Walk.{tree_proof}
use sena.Stf.Keys.{slot}
use sena.State.Trie.Backs.{Proves, Backs, tree_set, prove-Proves, insert_value-Backs}
use sena.Stf.Execute.Transition.{transition}
use sena.State.Proof.{MerkleProof, compute_updated_root}
use sena.State.Trie.Tree.{Tree}
use sena.State.Trie.{MerkleTrie, get_value, prove}
use sena.Stf.Machine.{MachineState}
use sena.Stf.Execute.Step.{check_witness, verify_step, StepWitness, apply, witness_of}
use sena.State.Trie.Store.{NoClash, Within}
use sena.Stf.Governance.Signatures.{Ed25519}
use sena.Primitives.Hash256.{Bytes, Hash256, IsHash, bytes_eq_refl}
use sena.Stf.Execute.{StepError}
use sena.Stf.Instruction.{Instruction}
use sena.State.Node.{Node, hash_value}
use sena.Base.{
  ◌≡◌, some, err, ok, Option-cases, saturating_add_u64, subst, inl, sym, inr, Result-cases, arith,
  refl, ◌∙◌, ap, false,
}

module _ (digest : Bytes → Hash256) (ed : Ed25519) {P : Node → Type 0}
    (apart : NoClash digest P) where
  pub check_witness-trie :
      (key : Hash256) (trie : MerkleTrie) (t : Tree) (p : MerkleProof)
      → Proves digest trie t key p
      → check_witness digest ed trie.root (witness_of digest ed key trie p) ≡ ok tt
  unfolding check_witness
  check_witness-trie key trie t p w = elim (Option-cases (get key trie.values)) [
    | inl e ↦ rw (e, w.excluded e) refl
    | inr (value, e) ↦ rw (e, w.included value e) refl
  ]

  -- What the two compute at one instruction.
  pub data Agreed (pre : MachineState) (i : Instruction) (trie : MerkleTrie) (w : StepWitness)
      : Type 0 where
    refused :
        (e : StepError)
        → apply digest ed i trie ≡ some (err e)
        → verify_step digest ed pre i w ≡ err e
        → is_witness_error e ≡ false
        → Agreed pre i trie w
    stepped :
        (trie' : MerkleTrie) (t' : Tree)
        → apply digest ed i trie ≡ some (ok trie')
        → verify_step digest ed pre i w
          ≡ ok (record { state_root = trie'.root; pc = saturating_add_u64 pre.pc 1 })
        → Backs digest P trie' t'
        → Agreed pre i trie w

  -- The tree after the instruction, where the transition accepts it.
  unfoldable pub tree_after : Instruction → MerkleTrie → Tree → Tree
  tree_after i trie t = elim (transition ed i (get_value (slot digest i) trie)) [
    | err e ↦ t
    | ok updated ↦ tree_set digest (slot digest i) updated t
  ]

  -- From a trie whose root stands for a tree, and the machine state of that root: the trie proves
  -- the instruction's slot, and with that proof `verify_step` fails with the error with which
  -- `apply` fails, or gives the root of the trie that `apply` gives, which stands for a tree
  -- again. This is where slots have 32 bytes and the nodes of the store and of the new tree have
  -- hashes of their own.
  pub verify_step-apply :
      (pre : MachineState) (i : Instruction) (trie : MerkleTrie) (t : Tree)
      → IsHash (slot digest i)
      → pre.state_root ≡ trie.root
      → Backs digest P trie t
      → Within digest P (tree_after i trie t)
      → (p : MerkleProof) × (prove (slot digest i) trie ≡ some p)
        × Agreed pre i trie (witness_of digest ed (slot digest i) trie p)
  unfolding verify_step apply tree_after
  verify_step-apply pre i trie t h root b within =
      let key = slot digest i in
      let p = tree_proof digest key t in
      let w = prove-Proves digest apart key trie t h b in
      let checked : check_witness digest ed pre.state_root (witness_of digest ed key trie p)
          ≡ ok tt =
        subst (λ r. check_witness digest ed r (witness_of digest ed key trie p) ≡ ok tt) (sym root)
          (check_witness-trie key trie t p w) in
      (
        p,
        w.given,
        elim (Result-cases (transition ed i (get_value key trie))) [
          | inr (e, q) ↦
              Agreed.refused e (ground (arith, q)) (ground (arith, bytes_eq_refl key, checked, q))
                (transition-err ed i (get_value key trie) e q)
          | inl (updated, q) ↦
              let set : tree_after i trie t ≡ tree_set digest key updated t =
                rw (q, tree_after) refl in
              let (trie', goes, values, backs, kept) =
                insert_value-Backs digest apart key updated trie t h b
                  (subst (Within digest P) set within) in
              let computed : compute_updated_root digest p key (hash_value digest updated)
                  ≡ ok trie'.root =
                w.updated updated ∙ ap ok (sym backs.root_hash) in
              Agreed.stepped trie' (tree_set digest key updated t) (ground (arith, q, goes))
                (ground (arith, bytes_eq_refl key, checked, q, computed)) backs
        ],
      )
