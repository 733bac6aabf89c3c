-- ===== src/State/Trie.antt =====
-- crates/sena-state/src/trie.rs: the sparse Merkle trie. `none` is where the source panics: a walk
-- past the last bit of the key. The levels that are left above that bit are the fuel.
pub mod Tree
pub mod Store
pub mod Branch
pub mod Refine
pub mod Shape
pub mod Unique
pub mod Grow
pub mod Insert
pub mod Walk
pub mod Prove
pub mod Rewrite
pub mod Backs
pub mod Writes
use sena.Primitives.Hash256.Order.{bytes_ord}
use sena.State.Proof.{Terminal, branch, MerkleProof, max_depth}
use sena.Primitives.Hash256.{Hash256, Bytes, zero_hash, bit, bytes_eq}
use sena.Base.{
  [], List, ℕ, Option, if◌then◌else◌, some, none, ◌&&◌, suc, ◌+◌, bool_eq, ◌++◌, zero, true, ◌∷◌,
  false,
}
use sena.Base.BTreeMap.{BTreeMap, insert, get, remove}
use sena.State.Node.{Node, node_hash, hash_value}

abbrev pub Nodes : Type 0
Nodes = BTreeMap Hash256 Node

pub record MerkleTrie : Type 0 where
  pub nodes : Nodes
  pub values : BTreeMap Hash256 Bytes
  pub root : Hash256

-- `MerkleTrie::new`
unfoldable pub new_trie : MerkleTrie
new_trie = record { nodes = []; values = []; root = zero_hash }

-- `MerkleTrie::get`
abbrev pub get_value : Hash256 → MerkleTrie → Option Bytes
get_value key t = get key t.values

-- The child on the key's side, and the other one.
abbrev pub toward {ℓ} : {A : Type ℓ} → Hash256 → ℕ → A → A → A
toward key depth left right = if bit key depth then right else left

abbrev pub away {ℓ} : {A : Type ℓ} → Hash256 → ℕ → A → A → A
away key depth left right = if bit key depth then left else right

abbrev ending : List Hash256 → Terminal → Option MerkleProof
ending siblings terminal = some (record { siblings = siblings; terminal = terminal })

-- The loop of `prove_at`, with the siblings that it has pushed.
unfoldable pub prove_loop : ℕ → ℕ → Hash256 → Nodes → List Hash256 → Hash256 → Option MerkleProof
prove_loop zero depth key ns siblings current = elim (get current ns) [
  | none ↦ ending siblings Terminal.empty
  | some (Node.leaf k v) ↦ ending siblings (Terminal.leaf k v)
  | some (Node.internal l r) ↦ none
]
prove_loop (suc left) depth key ns siblings current = elim (get current ns) [
  | none ↦ ending siblings Terminal.empty
  | some (Node.leaf k v) ↦ ending siblings (Terminal.leaf k v)
  | some (Node.internal l r) ↦
      prove_loop left (depth + 1) key ns (siblings ++ away key depth l r ∷ [])
        (toward key depth l r)
]

-- `MerkleTrie::prove_at`
unfoldable pub prove_at : Hash256 → Hash256 → MerkleTrie → Option MerkleProof
unfolding prove_loop
prove_at root key t = prove_loop max_depth 0 key t.nodes [] root

-- `MerkleTrie::prove`
unfoldable pub prove : Hash256 → MerkleTrie → Option MerkleProof
unfolding prove_at
prove key t = prove_at t.root key t

-- `lone_child`: the only child that is not empty, if it is a leaf.
unfoldable pub leaf_only : Hash256 → Nodes → Option Hash256
leaf_only candidate ns = elim (get candidate ns) [
  | none ↦ none
  | some (Node.leaf k v) ↦ some candidate
  | some (Node.internal l r) ↦ none
]

unfoldable pub lone_child : Hash256 → Hash256 → Nodes → Option Hash256
unfolding leaf_only
lone_child left right ns =
    if bytes_eq left zero_hash
    then (if bytes_eq right zero_hash then none else leaf_only right ns)
    else if bytes_eq right zero_hash
    then leaf_only left ns
    else none

module _ (digest : Bytes → Hash256) where
  -- `MerkleTrie::store`
  unfoldable pub store : Node → Nodes → Nodes × Hash256
  store n ns = (insert (node_hash digest n) n ns, node_hash digest n)

  -- The end of `split`, where the bits differ.
  unfoldable pub store_fork : ℕ → Hash256 → Hash256 → Hash256 → Hash256 → Nodes → Nodes × Hash256
  unfolding store
  store_fork depth key_a value_a key_b value_b ns =
      let (with_a, leaf_a) = store (Node.leaf key_a value_a) ns in
      let (with_b, leaf_b) = store (Node.leaf key_b value_b) with_a in
      store (branch key_a depth leaf_b leaf_a) with_b

  -- `MerkleTrie::split`
  unfoldable pub split :
      ℕ → ℕ → Hash256 → Hash256 → Hash256 → Hash256 → Nodes → Option (Nodes × Hash256)
  unfolding store_fork
  split zero depth key_a value_a key_b value_b ns = none
  split (suc left) depth key_a value_a key_b value_b ns =
      elim (bool_eq (bit key_a depth) (bit key_b depth)) [
        | true ↦ elim (split left (depth + 1) key_a value_a key_b value_b ns) [
          | none ↦ none
          | some (ns', child) ↦ some (store (branch key_a depth zero_hash child) ns')
        ]
        | false ↦ some (store_fork depth key_a value_a key_b value_b ns)
      ]

  -- `insert_at` where the slot is empty or holds a leaf.
  unfoldable pub insert_leaf :
      ℕ → ℕ → Hash256 → Hash256 → Hash256 → Hash256 → Nodes → Option (Nodes × Hash256)
  unfolding split
  insert_leaf left depth key value_hash existing_key existing_value ns =
      if bytes_eq existing_key key
      then some (store (Node.leaf key value_hash) ns)
      else split left depth key value_hash existing_key existing_value ns

  -- `MerkleTrie::insert_at`
  unfoldable pub insert_at : ℕ → ℕ → Hash256 → Hash256 → Nodes → Hash256 → Option (Nodes × Hash256)
  unfolding insert_leaf
  insert_at zero depth key value_hash ns current = elim (get current ns) [
    | none ↦ some (store (Node.leaf key value_hash) ns)
    | some (Node.leaf k v) ↦ insert_leaf zero depth key value_hash k v ns
    | some (Node.internal l r) ↦ none
  ]
  insert_at (suc left) depth key value_hash ns current = elim (get current ns) [
    | none ↦ some (store (Node.leaf key value_hash) ns)
    | some (Node.leaf k v) ↦ insert_leaf (suc left) depth key value_hash k v ns
    | some (Node.internal l r) ↦
        elim (insert_at left (depth + 1) key value_hash ns (toward key depth l r)) [
          | none ↦ none
          | some (ns', child) ↦ some (store (branch key depth (away key depth l r) child) ns')
        ]
  ]

  -- `MerkleTrie::insert`
  unfoldable pub insert_value : Hash256 → Bytes → MerkleTrie → Option MerkleTrie
  unfolding insert_at
  insert_value key value t =
      elim (insert_at max_depth 0 key (hash_value digest value) t.nodes t.root) [
        | none ↦ none
        | some (ns, root) ↦
            some (record { nodes = ns; values = insert key value t.values; root = root })
      ]

  -- The end of `remove_at` at an internal node: a branch that need not exist is collapsed.
  unfoldable pub collapse : Hash256 → Hash256 → Nodes → Nodes × Hash256
  unfolding lone_child store
  collapse left right ns = elim (lone_child left right ns) [
    | some surviving_leaf ↦ (ns, surviving_leaf)
    | none ↦
        if bytes_eq left zero_hash && bytes_eq right zero_hash
        then (ns, zero_hash)
        else store (Node.internal left right) ns
  ]

  -- `remove_at` where the slot holds a leaf.
  unfoldable pub remove_leaf : Hash256 → Hash256 → Hash256 → Nodes → Nodes × Hash256
  remove_leaf key existing current ns =
      if bytes_eq existing key then (ns, zero_hash) else (ns, current)

  -- `MerkleTrie::remove_at`
  unfoldable pub remove_at : ℕ → ℕ → Hash256 → Nodes → Hash256 → Option (Nodes × Hash256)
  unfolding collapse remove_leaf
  remove_at zero depth key ns current = elim (get current ns) [
    | none ↦ some (ns, zero_hash)
    | some (Node.leaf k v) ↦ some (remove_leaf key k current ns)
    | some (Node.internal l r) ↦ none
  ]
  remove_at (suc left) depth key ns current = elim (get current ns) [
    | none ↦ some (ns, zero_hash)
    | some (Node.leaf k v) ↦ some (remove_leaf key k current ns)
    | some (Node.internal l r) ↦ elim (remove_at left (depth + 1) key ns (toward key depth l r)) [
      | none ↦ none
      | some (ns', child) ↦
          some (if bit key depth then collapse l child ns' else collapse child r ns')
    ]
  ]

  -- `MerkleTrie::remove`
  unfoldable pub remove_value : Hash256 → MerkleTrie → Option MerkleTrie
  unfolding remove_at
  remove_value key t = elim (get key t.values) [
    | none ↦ some t
    | some value ↦ elim (remove_at max_depth 0 key t.nodes t.root) [
      | none ↦ none
      | some (ns, root) ↦ some (record { nodes = ns; values = remove key t.values; root = root })
    ]
  ]
