-- ===== src/Stf/Batch.antt =====
-- crates/sena-stf/src/batch.rs: the commitment tree of a batch. The digest function is a parameter.
-- The source panics on a pair of one hash, which a level of a power of two never has.
pub mod Paths
use sena.Primitives.Encoding.{ascii, new_encoder, field, u64_field, u128_field, batch_domain}
use sena.Base.{
  ℕ, List, [], if◌then◌else◌, ◌∷◌, length, get_or, Option, suc, ◌*◌, ◌%◌, ltb, max, leb, ◌==◌, ◌++◌,
  ◌/◌, none, zero, ◌+◌, ◌-◌, some,
}
use sena.Primitives.Hash256.{Bytes, Hash256, zero_hash}

abbrev pub batch_leaf_domain : Bytes
batch_leaf_domain = ascii "SENA:v1:batch-leaf"

abbrev pub batch_node_domain : Bytes
batch_node_domain = ascii "SENA:v1:batch-node"

pub record LeafProof : Type 0 where
  pub index : ℕ
  pub siblings : List Hash256

pub record BatchTree : Type 0 where
  pub levels : List (List Hash256)
  pub tx_count : ℕ

-- `next_power_of_two`, from the power `p` on; `n` doublings reach any number up to 2 ^ n.
unfoldable pub next_power : ℕ → ℕ → ℕ → ℕ
next_power zero p n = p
next_power (suc fuel) p n = let rest = next_power fuel (2 * p) n in if leb n p then p else rest

-- `resize` with the zero hash, to a width that is not smaller.
unfoldable pub fill : ℕ → List Hash256
fill zero = []
fill (suc n) = zero_hash ∷ fill n

-- `i ^ 1`
unfoldable pub sibling_index : ℕ → ℕ
sibling_index i = if i % 2 == 0 then i + 1 else i - 1

module _ (digest : Bytes → Hash256) where
  -- `leaf_hash`
  unfoldable pub leaf_hash : ℕ → ℕ → Bytes → Hash256
  unfolding new_encoder field u64_field
  leaf_hash index start_pc tx_bytes =
      digest (field tx_bytes (u64_field start_pc (u64_field index (new_encoder batch_leaf_domain))))

  -- `node_hash`
  unfoldable pub batch_node : Hash256 → Hash256 → Hash256
  unfolding new_encoder field
  batch_node left right = digest (field right (field left (new_encoder batch_node_domain)))

  -- `header_commitment`
  unfoldable pub header_commitment : ℕ → ℕ → Bytes → ℕ → Hash256 → Hash256
  unfolding new_encoder field u64_field u128_field
  header_commitment timestamp base_fee fee_recipient tx_count tx_root = digest (
      field tx_root (
        u64_field tx_count (
          field fee_recipient
            (u128_field base_fee (u64_field timestamp (new_encoder batch_domain))))))

  -- The loop of `LeafProof::root_for`.
  unfoldable pub root_from : Hash256 → ℕ → List Hash256 → Hash256
  unfolding batch_node
  root_from node index [] = node
  root_from node index (sibling ∷ left) =
      root_from (if index % 2 == 0 then batch_node node sibling else batch_node sibling node)
        (index / 2) left

  -- `LeafProof::root_for`
  unfoldable pub root_for : LeafProof → Hash256 → Hash256
  unfolding root_from
  root_for p leaf = root_from leaf p.index p.siblings

  -- The leaves of `BatchTree::build`, from index `i` on.
  unfoldable pub leaf_hashes : ℕ → List (ℕ × Bytes) → List Hash256
  unfolding leaf_hash
  leaf_hashes i [] = []
  leaf_hashes i ((start_pc, tx_bytes) ∷ left) =
      leaf_hash i start_pc tx_bytes ∷ leaf_hashes (suc i) left

  -- The level above, `chunks(2)` mapped.
  unfoldable pub pair_up : List Hash256 → List Hash256
  unfolding batch_node
  pair_up [] = []
  pair_up (a ∷ []) = []
  pair_up (a ∷ b ∷ left) = batch_node a b ∷ pair_up left

  -- The loop of `BatchTree::build`: the levels above `level`.
  unfoldable pub levels_above : ℕ → List Hash256 → List (List Hash256)
  unfolding pair_up
  levels_above zero level = []
  levels_above (suc fuel) level =
      let rest = levels_above fuel (pair_up level) in
      if ltb 1 (length level) then pair_up level ∷ rest else []

  -- `BatchTree::build`
  unfoldable pub build : List (ℕ × Bytes) → BatchTree
  unfolding leaf_hashes levels_above next_power fill
  build leaves =
      let hashes = leaf_hashes 0 leaves in
      let width = next_power (length hashes) 1 (max (length hashes) 1) in
      let level = hashes ++ fill (width - length hashes) in
      record { levels = level ∷ levels_above width level; tx_count = length hashes }

-- The last level's first hash, `BatchTree::root`, from a level and those above.
unfoldable pub top_hash : List Hash256 → List (List Hash256) → Hash256
top_hash level [] = get_or level 0 zero_hash
top_hash level (next ∷ above) = top_hash next above

-- `BatchTree::root`; a tree always has a level.
unfoldable pub batch_root : BatchTree → Hash256
unfolding top_hash
batch_root t = elim t.levels [ [] ↦ zero_hash | level ∷ above ↦ top_hash level above ]

-- The loop of `BatchTree::prove`, over all levels but the last.
unfoldable pub siblings_from : List Hash256 → List (List Hash256) → ℕ → List Hash256
unfolding sibling_index
siblings_from level [] i = []
siblings_from level (next ∷ above) i =
    get_or level (sibling_index i) zero_hash ∷ siblings_from next above (i / 2)

-- `BatchTree::prove`
unfoldable pub prove_leaf : BatchTree → ℕ → Option LeafProof
unfolding siblings_from
prove_leaf t i = if leb t.tx_count i then none else elim t.levels [
  | [] ↦ none
  | level ∷ above ↦ some (record { index = i; siblings = siblings_from level above i })
]
