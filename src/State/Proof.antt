-- ===== src/State/Proof.antt =====
-- crates/sena-state/src/proof.rs: inclusion and non-inclusion proofs against a state root.
pub mod Path
pub mod Binding
pub mod Update
use sena.State.Node.{Node, hash_value, node_hash}
use sena.Primitives.Hash256.{Hash256, Bytes, zero_hash, bit, bytes_eq}
use sena.Base.{
  ℕ, List, Result, none, suc, ok, if◌then◌else◌, length, err, ◌+◌, get_or, ltb, not, bool_eq, ◌>>◌,
  ◌>>=◌, zero, guard, ◌-◌,
}

-- One level per key bit.
abbrev pub max_depth : ℕ
max_depth = 256

pub data Terminal : Type 0 where
  empty : Terminal
  leaf : Hash256 → Hash256 → Terminal

pub record MerkleProof : Type 0 where
  pub siblings : List Hash256
  pub terminal : Terminal

pub data ProofError : Type 0 where
  too_deep : ℕ → ProofError
  root_mismatch : Hash256 → Hash256 → ProofError
  leaf_off_path : ℕ → ProofError
  key_absent different_key key_present : ProofError
  value_mismatch : Hash256 → Hash256 → ProofError

-- The loop `for i in 0..depth` that compares a leaf's key with the queried one, from level `i`
-- over the levels that are left.
unfoldable pub check_path : Hash256 → Hash256 → ℕ → ℕ → Result ProofError (Unit {0})
check_path leaf_key key i zero = ok tt
check_path leaf_key key i (suc n) =
    let rest = check_path leaf_key key (i + 1) n in
    if bool_eq (bit leaf_key i) (bit key i) then rest else err (ProofError.leaf_off_path i)

-- The internal node at `level` with `running` on the key's side.
unfoldable pub branch : Hash256 → ℕ → Hash256 → Hash256 → Node
branch key level sibling running =
    if bit key level then Node.internal sibling running else Node.internal running sibling

module _ (digest : Bytes → Hash256) where
  -- The loop `for level in (0..depth).rev()`, which folds the siblings upwards.
  unfoldable pub climb : Hash256 → List Hash256 → ℕ → Hash256 → Hash256
  unfolding branch
  climb key siblings zero running = running
  climb key siblings (suc level) running =
      climb key siblings level
        (node_hash digest (branch key level (get_or siblings level zero_hash) running))

  -- The hash that the path ends in.
  unfoldable pub terminal_hash : Terminal → Hash256
  terminal_hash Terminal.empty = zero_hash
  terminal_hash (Terminal.leaf key value_hash) = node_hash digest (Node.leaf key value_hash)

  unfoldable pub check_terminal : Terminal → Hash256 → ℕ → Result ProofError (Unit {0})
  unfolding check_path
  check_terminal Terminal.empty key depth = ok tt
  check_terminal (Terminal.leaf leaf_key v) key depth = check_path leaf_key key 0 depth

  -- `MerkleProof::reconstruct_root`
  unfoldable pub reconstruct_root : MerkleProof → Hash256 → Result ProofError Hash256
  unfolding climb terminal_hash check_terminal
  reconstruct_root p key =
      let depth = length p.siblings in
      if ltb max_depth depth
      then err (ProofError.too_deep depth)
      else (check_terminal p.terminal key depth
          >> ok (climb key p.siblings depth (terminal_hash p.terminal)))

  -- The match that ends `verify_inclusion_hashed`.
  unfoldable pub check_value : Terminal → Hash256 → Hash256 → Result ProofError (Unit {0})
  check_value Terminal.empty key value_hash = err ProofError.key_absent
  check_value (Terminal.leaf leaf_key found) key value_hash =
      if not (bytes_eq leaf_key key)
      then err ProofError.different_key
      else if bytes_eq found value_hash
      then ok tt
      else err (ProofError.value_mismatch found value_hash)

  -- `MerkleProof::verify_inclusion_hashed`
  unfoldable pub verify_inclusion_hashed :
      MerkleProof → Hash256 → Hash256 → Hash256 → Result ProofError (Unit {0})
  unfolding reconstruct_root check_value
  verify_inclusion_hashed p root key value_hash = do
    computed ← reconstruct_root p key
    guard (bytes_eq computed root) (ProofError.root_mismatch computed root)
    check_value p.terminal key value_hash

  -- `MerkleProof::verify_inclusion`
  unfoldable pub verify_inclusion :
      MerkleProof → Hash256 → Hash256 → Bytes → Result ProofError (Unit {0})
  unfolding verify_inclusion_hashed hash_value
  verify_inclusion p root key value = verify_inclusion_hashed p root key (hash_value digest value)

  -- The match that ends `verify_non_inclusion`.
  unfoldable pub check_absent : Terminal → Hash256 → Result ProofError (Unit {0})
  check_absent Terminal.empty key = ok tt
  check_absent (Terminal.leaf leaf_key v) key =
      if not (bytes_eq leaf_key key) then ok tt else err ProofError.key_present

  -- `MerkleProof::verify_non_inclusion`
  unfoldable pub verify_non_inclusion :
      MerkleProof → Hash256 → Hash256 → Result ProofError (Unit {0})
  unfolding reconstruct_root check_absent
  verify_non_inclusion p root key = do
    computed ← reconstruct_root p key
    guard (bytes_eq computed root) (ProofError.root_mismatch computed root)
    check_absent p.terminal key

  -- `split_hash`, by the levels that are left below `max_depth`.
  unfoldable pub split_hash :
      ℕ → ℕ → Hash256 → Hash256 → Hash256 → Hash256 → Result ProofError Hash256
  split_hash zero depth key_a value_a key_b value_b = err (ProofError.too_deep depth)
  split_hash (suc left) depth key_a value_a key_b value_b =
      let child = split_hash left (depth + 1) key_a value_a key_b value_b in
      if bool_eq (bit key_a depth) (bit key_b depth)
      then (child >>= λ c. ok (node_hash digest (branch key_a depth zero_hash c)))
      else ok (
          node_hash digest (
            branch key_a depth (node_hash digest (Node.leaf key_b value_b))
              (node_hash digest (Node.leaf key_a value_a))))

  -- The match that begins `compute_updated_root`: the hash of what replaces the terminal.
  unfoldable pub updated_terminal : Terminal → ℕ → Hash256 → Hash256 → Result ProofError Hash256
  unfolding check_path split_hash
  updated_terminal Terminal.empty depth key new_value_hash =
      ok (node_hash digest (Node.leaf key new_value_hash))
  updated_terminal (Terminal.leaf existing existing_value) depth key new_value_hash =
      if bytes_eq existing key
      then ok (node_hash digest (Node.leaf key new_value_hash))
      else (check_path existing key 0 depth
          >> split_hash (max_depth - depth) depth key new_value_hash existing existing_value)

  -- `MerkleProof::compute_updated_root`
  unfoldable pub compute_updated_root : MerkleProof → Hash256 → Hash256 → Result ProofError Hash256
  unfolding updated_terminal climb
  compute_updated_root p key new_value_hash =
      let depth = length p.siblings in
      if ltb max_depth depth
      then err (ProofError.too_deep depth)
      else (updated_terminal p.terminal depth key new_value_hash >>= λ running.
          ok (climb key p.siblings depth running))
