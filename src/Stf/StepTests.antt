-- ===== src/Stf/StepTests.antt =====
-- crates/sena-stf: the theorems on instructions, slots and the council at concrete inputs.
use sena.Stf.Governance.Quorum.{IsSigned, verify_council_signatures-ok}
use sena.Stf.Machine.{machine_start}
use sena.Stf.Social.Encoding.{IsBinding, encode-decode_binding}
use sena.State.Proof.Binding.{Clash}
use sena.Stf.Execute.Step.Unique.{Broken, IsAccepted, accepted_unique}
use sena.Stf.Execute.Transition.Effects.{is_witness_error, transition-err}
use sena.Stf.Keys.Regions.{entry_preimage-inj}
use sena.State.Proof.{MerkleProof, Terminal}
use sena.State.Trie.Backs.{tree_set, new_trie-Backs}
use sena.State.Sample.{checksum, checksum-IsHash, checksum-nonzero}
use sena.Base.BTreeMap.{insert, get}
use sena.Stf.Execute.Step.{StepWitness, check_witness, witness_of}
use sena.State.Trie.{new_trie, prove}
use sena.State.Trie.Store.{NoClash, Within}
use sena.Stf.Execute.Transition.{transition}
use sena.Base.{
  inl, ◌∷◌, ℕ, ◌≡◌, [], true, ◌+◌, ◌⊎◌, ◌≢◌, ok, false, ◌<◌, ◌++◌, none, ◌∙◌, ◌≤◌, err, sym, some,
  refl, length, arith, IsDistinct, All, subst, inr,
}
use sena.Stf.Governance.Signatures.{Ed25519, verify_council_signatures}
use sena.Stf.Social.{decode_binding, encode_binding, SocialBinding}
use sena.Stf.Keys.{entry_preimage, slot, Entry}
use sena.Primitives.Hash256.{Bytes, zero_bytes, IsHash, bytes_eq, zero_hash, Hash256}
use sena.Stf.Execute.{StepError}
use sena.Stf.Account.{BalanceError}
use sena.Stf.Instruction.{Instruction, CouncilSignature}
use sena.Stf.Governance.{Council, required, GovernanceError}
use sena.Stf.Execute.Step.Agree.{Agreed, tree_after, verify_step-apply}
use sena.State.Trie.Tree.{Tree, tree_insert}
use sena.State.Node.{Node, node_hash, hash_value, preimage}

abbrev who : Bytes
who = 9 ∷ zero_bytes 31

entry_preimage-inj_example : Entry.account who ≡ Entry.account who
entry_preimage-inj_example =
    entry_preimage-inj (Entry.account who) (Entry.account who) refl refl refl

-- The slot of an account and that of an identifier with the same bytes.
kinds_apart : entry_preimage (Entry.account who) ≢ entry_preimage (Entry.social_by_address who)
kinds_apart e =
    let same = entry_preimage-inj (Entry.account who) (Entry.social_by_address who) refl refl e in
    absurd (cc)

encode-decode_binding_example :
    (encode_binding (SocialBinding.bound who) ≡ 0 ∷ who) × IsBinding (SocialBinding.bound who)
unfolding decode_binding sena.Primitives.Codec.read_u8 sena.Primitives.Codec.take_bytes
    sena.Primitives.Codec.finish
encode-decode_binding_example =
    encode-decode_binding (0 ∷ who) (SocialBinding.bound who) (omega arith) refl

decode-encode_binding_runs : decode_binding (1 ∷ []) ≡ ok SocialBinding.vacant
unfolding decode_binding sena.Primitives.Codec.read_u8 sena.Primitives.Codec.finish
decode-encode_binding_runs = refl

-- Keys that are all good, and under which a signature is the key followed by the digest.
abbrev toy : Ed25519
toy = record {
  is_key = λ key. true;
  is_weak = λ key. false;
  verify_strict = λ key digest signature. bytes_eq signature (key ++ digest);
}

abbrev council : Council
council = record {
  members = (1 ∷ []) ∷ (2 ∷ []) ∷ (3 ∷ []) ∷ [];
  threshold = 2;
  epoch = 0;
  guardian_threshold = 0;
}

abbrev signed : ℕ → CouncilSignature
signed index = record { index = index; signature = (index + 1) ∷ 8 ∷ [] }

verify_council_signatures-ok_example :
    (0 < required council false)
    × (required council false ≤ 2)
    × (2 ≤ length council.members)
    × IsDistinct {A = ℕ} (0 ∷ 2 ∷ [])
    × All (IsSigned toy council (8 ∷ [])) (signed 0 ∷ signed 2 ∷ [])
unfolding verify_council_signatures required bytes_eq
verify_council_signatures-ok_example =
    verify_council_signatures-ok toy council (8 ∷ []) (signed 0 ∷ signed 2 ∷ []) false refl

-- One member's signature does not count twice.
repeated :
    verify_council_signatures toy council (8 ∷ []) (signed 0 ∷ signed 0 ∷ []) false
    ≡ err GovernanceError.unordered_signers
unfolding verify_council_signatures required bytes_eq
repeated = refl

-- A credit of five to an account of an empty trie.
abbrev credited : Instruction
credited = Instruction.credit who 0 5

abbrev updated : Bytes
updated = zero_bytes 8 ++ (0 ∷ 0 ∷ 0 ∷ 1 ∷ []) ++ zero_bytes 4 ++ zero_bytes 15 ++ 5 ∷ []

transition_runs : transition toy credited none ≡ ok updated
unfolding transition sena.Stf.Execute.credit_slot sena.Stf.Account.credit sena.Stf.Account.encode
    sena.Stf.Account.balance insert get sena.Primitives.Codec.to_be_bytes
transition_runs = refl

transition-err_example :
    is_witness_error (StepError.balance (BalanceError.insufficient 0 5)) ≡ false
unfolding transition sena.Stf.Execute.debit_slot sena.Stf.Account.debit sena.Stf.Account.balance get
transition-err_example =
    transition-err toy (Instruction.debit who 0 5) none
      (StepError.balance (BalanceError.insufficient 0 5)) refl

abbrev IsOnly : Node → Type 0
IsOnly n = n ≡ Node.leaf (slot checksum credited) (hash_value checksum updated)

only : NoClash checksum IsOnly
unfolding node_hash
only = record { free = λ n m p q e. p ∙ sym q; nonzero = λ n p. checksum-nonzero (preimage n) }

after_eq :
    tree_after checksum toy only credited new_trie Tree.empty
    ≡ Tree.leaf (slot checksum credited) (hash_value checksum updated)
unfolding tree_after tree_set tree_insert new_trie get transition slot hash_value
    sena.Stf.Execute.credit_slot sena.Primitives.Codec.to_be_bytes sena.Stf.Account.credit
    sena.Stf.Account.balance sena.Stf.Account.encode insert
after_eq = refl

slot-IsHash : IsHash (slot checksum credited)
unfolding slot
slot-IsHash = checksum-IsHash (entry_preimage (Entry.account who))

verify_step-apply_example :
    (p : MerkleProof) × (prove (slot checksum credited) new_trie ≡ some p)
    × Agreed checksum toy only
        (machine_start zero_hash)
        credited
        new_trie
        (witness_of checksum toy (slot checksum credited) new_trie p)
unfolding new_trie
verify_step-apply_example =
    verify_step-apply checksum toy only (machine_start zero_hash) credited new_trie Tree.empty
      slot-IsHash refl (new_trie-Backs checksum IsOnly)
      (subst (Within checksum IsOnly) (sym after_eq) refl)

-- A witness of a value, under the root of a trie that holds nothing else.
abbrev held : StepWitness
held = record {
  slot = slot checksum credited;
  value = some (5 ∷ []);
  proof = record {
    siblings = [];
    terminal = Terminal.leaf (slot checksum credited) (hash_value checksum (5 ∷ []));
  };
}

abbrev held_root : Hash256
held_root = node_hash checksum (Node.leaf (slot checksum credited) (hash_value checksum (5 ∷ [])))

accepted : IsAccepted checksum toy held_root (slot checksum credited) held
unfolding check_witness sena.State.Proof.verify_inclusion bytes_eq slot node_hash
    sena.Primitives.Codec.to_be_bytes
accepted = record { own_slot = refl; checked = refl }

accepted_unique_example : (held ≡ held) ⊎ Broken checksum (slot checksum credited) held held
accepted_unique_example =
    accepted_unique checksum toy held_root (slot checksum credited) held held accepted accepted

-- The way out of a collision is closed to this witness.
held_unbroken : ¬ Broken checksum (slot checksum credited) held held
unfolding node_hash
held_unbroken (Broken.nodes (Clash.collision n m (inl p) (inl q) d e)) = d (p ∙ sym q)
held_unbroken (Broken.nodes (Clash.collision n m (inl p) (inr j) d e)) = absurd (j)
held_unbroken (Broken.nodes (Clash.collision n m (inr i) j d e)) = absurd (i)
held_unbroken (Broken.nodes (Clash.zero_left n i e)) = checksum-nonzero (preimage n) e
held_unbroken (Broken.nodes (Clash.zero_right m j e)) = checksum-nonzero (preimage m) e
held_unbroken (Broken.values a b p q d e) = d (cc)
