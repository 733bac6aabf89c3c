-- ===== src/State/Node.antt =====
-- crates/sena-state/src/node.rs: the trie's nodes and their hashing rules.
use sena.Primitives.Encoding.Framing.{push_all, push_all-inj}
use sena.Base.{
  length, List, ◌≡◌, All, Bool, ◌<◌, true, ◌∷◌, [], u32_mod, sym, ◌&&◌, ◌↔◌, arith, ◌∙◌, false,
  refl, ap, get_or,
}
use sena.Primitives.Encoding.{new_encoder, field, trie_internal, trie_leaf}
use sena.Primitives.Hash256.{Hash256, Bytes, bytes_eq, bytes_eq_iff}

pub data Node : Type 0 where
  internal : Hash256 → Hash256 → Node
  leaf : Hash256 → Hash256 → Node

-- The bytes that `Node::hash` commits to.
unfoldable pub preimage : Node → Bytes
unfolding new_encoder field
preimage (Node.internal left right) = field right (field left (new_encoder trie_internal))
preimage (Node.leaf key value_hash) = field value_hash (field key (new_encoder trie_leaf))

module _ (digest : Bytes → Hash256) where
  -- `Node::hash`
  unfoldable pub node_hash : Node → Hash256
  unfolding preimage
  node_hash n = digest (preimage n)

  -- `hash_value`
  unfoldable pub hash_value : Bytes → Hash256
  hash_value value = digest value

-- A node whose hashes have their width.
abbrev pub IsNode : Node → Type 0
IsNode (Node.internal left right) = (length left ≡ 32) × (length right ≡ 32)
IsNode (Node.leaf key value_hash) = (length key ≡ 32) × (length value_hash ≡ 32)

-- The fields of a node's preimage.
abbrev node_fields : Node → List Bytes
node_fields (Node.internal left right) = trie_internal ∷ left ∷ right ∷ []
node_fields (Node.leaf key value_hash) = trie_leaf ∷ key ∷ value_hash ∷ []

preimage-eq : (n : Node) → preimage n ≡ push_all (node_fields n) []
unfolding preimage
preimage-eq (Node.internal left right) = refl
preimage-eq (Node.leaf key value_hash) = refl

fields-short : (n : Node) → IsNode n → All (λ x. length x < u32_mod) (node_fields n)
fields-short (Node.internal left right) w = (omega arith, (omega arith, (omega arith, tt)))
fields-short (Node.leaf key value_hash) w = (omega arith, (omega arith, (omega arith, tt)))

fields-inj : (n m : Node) → node_fields n ≡ node_fields m → n ≡ m
fields-inj (Node.internal l r) (Node.internal l' r') e = cc
fields-inj (Node.internal l r) (Node.leaf k v) e =
    absurd (omega (arith, ap (λ t. length (get_or t 0 [])) e))
fields-inj (Node.leaf k v) (Node.internal l r) e =
    absurd (omega (arith, ap (λ t. length (get_or t 0 [])) e))
fields-inj (Node.leaf k v) (Node.leaf k' v') e = cc

-- Two nodes with 32-byte hashes that are hashed from the same bytes are the same node: a leaf
-- commits to its whole key, and no leaf passes for an internal node.
pub preimage-inj : (n m : Node) → IsNode n → IsNode m → preimage n ≡ preimage m → n ≡ m
preimage-inj n m v w e = fields-inj n m (
    push_all-inj (node_fields n) (node_fields m) (fields-short n v) (fields-short m w)
      (sym (preimage-eq n) ∙ e ∙ preimage-eq m))

-- The derived `PartialEq`.
unfoldable pub node_eq : Node → Node → Bool
node_eq (Node.internal l r) (Node.internal l' r') = bytes_eq l l' && bytes_eq r r'
node_eq (Node.leaf k v) (Node.leaf k' v') = bytes_eq k k' && bytes_eq v v'
node_eq _ _ = false

pub node_eq_iff : (n m : Node) → (node_eq n m ≡ true) ↔ (n ≡ m)
unfolding node_eq
node_eq_iff (Node.internal l r) (Node.internal l' r') =
    ground (arith, bytes_eq_iff l l', bytes_eq_iff r r')
node_eq_iff (Node.internal l r) (Node.leaf k' v') = ground arith
node_eq_iff (Node.leaf k v) (Node.internal l r) = ground arith
node_eq_iff (Node.leaf k v) (Node.leaf k' v') = ground (arith, bytes_eq_iff k k', bytes_eq_iff v v')
