-- ===== src/Fraudproof/OspTests.antt =====
-- crates/sena-fraudproof/src/osp.rs: the theorems at a concrete dispute over one step, a JWK accepted
-- in an empty trie.
use sena.State.Trie.Walk.{tree_proof}
use sena.Base.BTreeMap.{get, insert}
use sena.Fraudproof.Osp.Honest.{honest_challenger_wins, honest_defender_wins}
use sena.State.Proof.Binding.{Clash}
use sena.Stf.Execute.Step.Unique.{Broken}
use sena.Fraudproof.Osp.Judge.{Forged, next_state}
use sena.Fraudproof.Osp.{VerdictReason, adjudicate, verdict, OneStepProof, Verdict}
use sena.State.Proof.{MerkleProof}
use sena.Stf.Execute.Transition.{transition}
use sena.State.Trie.{new_trie, MerkleTrie, prove, insert_value, insert_at, store}
use sena.State.Trie.Backs.{tree_set, new_trie-Backs}
use sena.State.Sample.{checksum, checksum-IsHash, checksum-nonzero}
use sena.Stf.Execute.Step.{apply, witness_of}
use sena.Fraudproof.Bisection.{disputed_step, Dispute, Stage, Party}
use sena.Stf.Machine.{MachineState, commitment, machine_start, machine_preimage}
use sena.Stf.Execute.Step.Agree.{tree_after}
use sena.Stf.Keys.{slot, entry_preimage, Entry}
use sena.State.Trie.Store.{NoClash, Within}
use sena.Base.{◌≡◌, false, true, ◌∷◌, ◌∙◌, subst, ◌≢◌, [], sym, some, ok, refl, none, ◌⊎◌}
use sena.Primitives.Hash256.{zero_bytes, Hash256, IsHash, zero_hash}
use sena.Stf.Governance.Signatures.{Ed25519}
use sena.Stf.Instruction.{Instruction}
use sena.State.Trie.Tree.{Tree, tree_insert}
use sena.State.Proof.{Terminal}
use sena.State.Node.{Node, node_hash, hash_value, preimage}

abbrev toy : Ed25519
toy = record {
  is_key = λ key. false;
  is_weak = λ key. false;
  verify_strict = λ key digest signature. false;
}

abbrev accepting : Instruction
accepting = Instruction.set_jwk (zero_bytes 32) (zero_bytes 32) true

abbrev IsOnly : Node → Type 0
IsOnly n = n ≡ Node.leaf (slot checksum accepting) (hash_value checksum (1 ∷ []))

only : NoClash checksum IsOnly
unfolding node_hash
only = record { free = λ n m p q e. p ∙ sym q; nonzero = λ n p. checksum-nonzero (preimage n) }

slot-IsHash : IsHash (slot checksum accepting)
unfolding slot
slot-IsHash = checksum-IsHash (entry_preimage (Entry.jwk (zero_bytes 32) (zero_bytes 32)))

after_eq :
    tree_after checksum toy only accepting new_trie Tree.empty
    ≡ Tree.leaf (slot checksum accepting) (hash_value checksum (1 ∷ []))
unfolding tree_after tree_set tree_insert transition sena.Stf.Execute.encode_jwk_record
after_eq = refl

within : Within checksum IsOnly (tree_after checksum toy only accepting new_trie Tree.empty)
within = subst (Within checksum IsOnly) (sym after_eq) refl

abbrev pre : MachineState
pre = machine_start zero_hash

-- A dispute at step zero, over the claimed commitment `hi`.
abbrev narrowed : Hash256 → Dispute
narrowed hi = record {
  assertion = zero_hash;
  defender = 0;
  challenger = 1;
  lo = 0;
  hi = 1;
  lo_commitment = commitment checksum pre;
  hi_commitment = hi;
  stage = Stage.one_step;
  turn = Party.challenger;
  deadline = 0;
  clock_budget = 0;
  defender_clock = 0;
  challenger_clock = 0;
  last_move_at = 0;
  arity = 8;
}

not_zero : (s : MachineState) → commitment checksum s ≢ zero_hash
unfolding commitment
not_zero s = checksum-nonzero (machine_preimage s)

honest_challenger_wins_example :
    (p : MerkleProof) × (prove (slot checksum accepting) new_trie ≡ some p)
    × ((reason : VerdictReason) × (adjudicate checksum toy
            (accepting ∷ [])
            (narrowed zero_hash)
            (record {
              pre_state = pre;
              witness = witness_of checksum toy (slot checksum accepting) new_trie p;
            })
          ≡ some (verdict Party.challenger reason)))
unfolding disputed_step new_trie
honest_challenger_wins_example =
    honest_challenger_wins checksum toy only (accepting ∷ []) (narrowed zero_hash) 0 accepting pre
      new_trie Tree.empty refl refl refl refl slot-IsHash (new_trie-Backs checksum IsOnly) within
      (λ t e. not_zero (next_state pre t))

abbrev leaf : Node
leaf = Node.leaf (slot checksum accepting) (hash_value checksum (1 ∷ []))

abbrev stored : MerkleTrie
stored = record {
  nodes = (node_hash checksum leaf, leaf) ∷ [];
  values = (slot checksum accepting, 1 ∷ []) ∷ [];
  root = node_hash checksum leaf;
}

ran : apply checksum toy accepting new_trie ≡ some (ok stored)
unfolding apply transition sena.Stf.Execute.encode_jwk_record insert_value new_trie insert_at get
    insert store
ran = refl

-- The proof of the empty slot.
abbrev submitted : OneStepProof
submitted = record {
  pre_state = pre;
  witness = record {
    slot = slot checksum accepting;
    value = none;
    proof = record { siblings = []; terminal = Terminal.empty };
  };
}

honest_defender_wins_example :
    ((v : Verdict) × (adjudicate checksum toy
          (accepting ∷ [])
          (narrowed (commitment checksum (next_state pre stored)))
          submitted
        ≡ some v)
      × (v.winner ≡ Party.defender))
    ⊎ Forged checksum
        (slot checksum accepting)
        pre
        (witness_of checksum toy
          (slot checksum accepting)
          new_trie
          (tree_proof checksum (slot checksum accepting) Tree.empty))
        submitted
unfolding disputed_step new_trie
honest_defender_wins_example =
    honest_defender_wins checksum toy only (accepting ∷ [])
      (narrowed (commitment checksum (next_state pre stored))) 0 accepting pre new_trie Tree.empty
      stored submitted refl refl refl refl slot-IsHash (new_trie-Backs checksum IsOnly) within ran
      refl

-- No collision is at hand here, so the defender wins.
submitted_unforged :
    ¬ Forged checksum
      (slot checksum accepting)
      pre
      (witness_of checksum toy
        (slot checksum accepting)
        new_trie
        (tree_proof checksum (slot checksum accepting) Tree.empty))
      submitted
unfolding new_trie node_hash
submitted_unforged (Forged.states d e) = d refl
submitted_unforged (Forged.witnesses (Broken.nodes (Clash.zero_left n i e))) =
    checksum-nonzero (preimage n) e
submitted_unforged (Forged.witnesses (Broken.nodes (Clash.zero_right m j e))) =
    checksum-nonzero (preimage m) e
submitted_unforged (Forged.witnesses (Broken.nodes (Clash.collision n m i j d e))) = absurd (j)
submitted_unforged (Forged.witnesses (Broken.values a b p q d e)) = absurd (cc)
