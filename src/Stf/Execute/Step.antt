-- ===== src/Stf/Execute/Step.antt =====
-- crates/sena-stf/src/execute.rs: one instruction on the whole trie, and on a witness of its slot.
pub mod Agree
pub mod Unique
use sena.Stf.Machine.{MachineState}
use sena.Stf.Execute.Transition.{transition}
use sena.State.Trie.{MerkleTrie, get_value, insert_value}
use sena.Stf.Keys.{slot}
use sena.State.Proof.{MerkleProof, verify_inclusion, verify_non_inclusion, compute_updated_root}
use sena.Stf.Governance.Signatures.{Ed25519}
use sena.Primitives.Hash256.{Hash256, Bytes, bytes_eq}
use sena.Stf.Execute.{StepError}
use sena.Stf.Instruction.{Instruction}
use sena.State.Node.{hash_value}
use sena.Base.{◌>>=◌, ◌>>◌, Option, Result, map_err, err, some, guard, ok, none, saturating_add_u64}

pub record StepWitness : Type 0 where
  pub slot : Hash256
  pub value : Option Bytes
  pub proof : MerkleProof

module _ (digest : Bytes → Hash256) (ed : Ed25519) where
  -- `apply`: the trie after the instruction, or the error, which leaves it; `none` where the trie's
  -- insertion panics.
  unfoldable pub apply : Instruction → MerkleTrie → Option (Result StepError MerkleTrie)
  unfolding slot transition
  apply i trie = elim (transition ed i (get_value (slot digest i) trie)) [
    | err e ↦ some (err e)
    | ok updated ↦ elim (insert_value digest (slot digest i) updated trie) [
      | none ↦ none
      | some trie' ↦ some (ok trie')
    ]
  ]

  -- The match on the witness's value in `verify_step`.
  unfoldable pub check_witness : Hash256 → StepWitness → Result StepError (Unit {0})
  check_witness root w = map_err StepError.bad_witness_proof (elim w.value [
    | some stored ↦ verify_inclusion digest w.proof root w.slot stored
    | none ↦ verify_non_inclusion digest w.proof root w.slot
  ])

  -- `verify_step`
  unfoldable pub verify_step :
      MachineState → Instruction → StepWitness → Result StepError MachineState
  unfolding slot transition check_witness
  verify_step pre i w = do
    guard (bytes_eq w.slot (slot digest i)) (StepError.witness_slot_mismatch w.slot (slot digest i))
    check_witness pre.state_root w
    updated ← transition ed i w.value
    post_root ←
        map_err StepError.bad_witness_proof
          (compute_updated_root digest w.proof w.slot (hash_value digest updated))
    ok (record { state_root = post_root; pc = saturating_add_u64 pre.pc 1 })

  -- The witness that a trie gives.
  abbrev pub witness_of : Hash256 → MerkleTrie → MerkleProof → StepWitness
  witness_of key trie p = record { slot = key; value = get_value key trie; proof = p }
