-- ===== src/State/Tests.antt =====
-- crates/sena-state: the theorems at concrete proofs.
use sena.State.Proof.Update.{written, compute_updated_root-own}
use sena.Primitives.Codec.{to_be_bytes}
use sena.State.Node.{Node, node_hash, preimage-inj}
use sena.State.Proof.Binding.{Clash, hashed, inclusion_binding, absence_binding}
use sena.Base.{take, ◌∷◌, [], ◌++◌, ◌≡◌, ok, ◌⊎◌, refl, arith}
use sena.State.Proof.{
  MerkleProof, Terminal, climb, verify_inclusion_hashed, terminal_hash, verify_non_inclusion,
  compute_updated_root,
}
use sena.Primitives.Hash256.{Bytes, Hash256, zero_hash, zero_bytes, bit, bytes_eq}

-- A digest that takes the first 32 bytes, and one that is constant.
abbrev first_bytes : Bytes → Hash256
first_bytes bs = take 32 (bs ++ zero_bytes 32)

abbrev constant : Bytes → Hash256
constant bs = zero_hash

abbrev key : Hash256
key = 128 ∷ zero_bytes 31

abbrev present : MerkleProof
present = record { siblings = key ∷ []; terminal = Terminal.leaf key (zero_bytes 32) }

abbrev absent : MerkleProof
absent = record { siblings = []; terminal = Terminal.empty }

present_root : Hash256
present_root = climb first_bytes key present.siblings 1 (terminal_hash first_bytes present.terminal)

present_accepted :
    verify_inclusion_hashed first_bytes present present_root key (zero_bytes 32) ≡ ok tt
unfolding verify_inclusion_hashed present_root bit bytes_eq node_hash to_be_bytes
present_accepted = refl

inclusion_binding_example :
    (zero_bytes 32 ≡ zero_bytes 32)
    ⊎ Clash first_bytes (hashed first_bytes present key) (hashed first_bytes present key)
inclusion_binding_example =
    inclusion_binding first_bytes present present present_root key (zero_bytes 32) (zero_bytes 32)
      present_accepted present_accepted

absence_binding_example : Clash constant (hashed constant present key) (hashed constant absent key)
unfolding verify_inclusion_hashed verify_non_inclusion bit bytes_eq node_hash zero_hash
absence_binding_example =
    absence_binding constant present absent zero_hash key (zero_bytes 32) refl refl

preimage-inj_example : Node.leaf key key ≡ Node.leaf key key
preimage-inj_example =
    preimage-inj (Node.leaf key key) (Node.leaf key key) (refl, refl) (refl, refl) refl

compute_updated_root-own_example :
    (root : Hash256) × (compute_updated_root first_bytes present key key ≡ ok root)
    × (verify_inclusion_hashed first_bytes (written present key key) root key key ≡ ok tt)
compute_updated_root-own_example =
    compute_updated_root-own first_bytes present key key (omega arith) refl
