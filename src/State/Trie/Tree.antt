-- ===== src/State/Trie/Tree.antt =====
-- crates/sena-state/src/trie.rs: the tree that a root stands for, and the operations on it, without
-- the node store.
use sena.State.Trie.{toward, away}
use sena.Base.{ℕ, if◌then◌else◌, Option, none, some, suc, bool_eq, ◌+◌, true, zero, false}
use sena.Primitives.Hash256.{Hash256, Bytes, zero_hash, bit, bytes_eq}
use sena.State.Node.{Node, node_hash}

-- `Hash256::ZERO`, a leaf, and an internal node.
pub data Tree : Type 0 where
  empty : Tree
  leaf : (key value_hash : Hash256) → Tree
  node : Tree → Tree → Tree

unfoldable pub fork : Hash256 → ℕ → Tree → Tree → Tree
fork key depth sibling child =
    if bit key depth then Tree.node sibling child else Tree.node child sibling

unfoldable pub tree_split : ℕ → ℕ → Hash256 → Hash256 → Hash256 → Hash256 → Option Tree
unfolding fork
tree_split zero depth key_a value_a key_b value_b = none
tree_split (suc left) depth key_a value_a key_b value_b =
    elim (bool_eq (bit key_a depth) (bit key_b depth)) [
      | true ↦ elim (tree_split left (depth + 1) key_a value_a key_b value_b) [
        | none ↦ none
        | some child ↦ some (fork key_a depth Tree.empty child)
      ]
      | false ↦ some (fork key_a depth (Tree.leaf key_b value_b) (Tree.leaf key_a value_a))
    ]

unfoldable pub tree_insert : ℕ → ℕ → Hash256 → Hash256 → Tree → Option Tree
unfolding tree_split fork
tree_insert left depth key v Tree.empty = some (Tree.leaf key v)
tree_insert left depth key v (Tree.leaf k w) =
    if bytes_eq k key then some (Tree.leaf key v) else tree_split left depth key v k w
tree_insert zero depth key v (Tree.node l r) = none
tree_insert (suc left) depth key v (Tree.node l r) =
    elim (tree_insert left (depth + 1) key v (toward key depth l r)) [
      | none ↦ none
      | some child ↦ some (fork key depth (away key depth l r) child)
    ]

-- The value at a key, by the key's bits.
unfoldable pub tree_get : ℕ → Hash256 → Tree → Option Hash256
tree_get depth key Tree.empty = none
tree_get depth key (Tree.leaf k v) = if bytes_eq k key then some v else none
tree_get depth key (Tree.node l r) =
    if bit key depth then tree_get (depth + 1) key r else tree_get (depth + 1) key l

module _ (digest : Bytes → Hash256) where
  unfoldable pub tree_hash : Tree → Hash256
  tree_hash Tree.empty = zero_hash
  tree_hash (Tree.leaf key v) = node_hash digest (Node.leaf key v)
  tree_hash (Tree.node l r) = node_hash digest (Node.internal (tree_hash l) (tree_hash r))
