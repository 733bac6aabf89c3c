-- ===== src/State/Proof/Update.antt =====
-- crates/sena-state/src/proof.rs: the root after a write, which `compute_updated_root` gives.
use sena.State.Node.{Node, node_hash}
use sena.Base.{ℕ, ◌≡◌, ok, suc, arith, bool_eq_iff, ◌+◌, length, ◌≤◌, zero, refl}
use sena.Primitives.Hash256.{Bytes, Hash256, bit, bytes_eq_iff, bytes_eq_refl}
use sena.State.Proof.{
  check_path, Terminal, updated_terminal, MerkleProof, compute_updated_root,
  verify_inclusion_hashed, reconstruct_root, check_terminal, check_value, terminal_hash, max_depth,
  climb,
}

-- A key is on its own path.
check_path_refl : (key : Hash256) (i n : ℕ) → check_path key key i n ≡ ok tt
unfolding check_path
check_path_refl key i zero = refl
check_path_refl key i (suc n) =
    ground (arith, bool_eq_iff (bit key i) (bit key i), check_path_refl key (i + 1) n)

-- The slot that a proof ends in is free, or holds the key.
abbrev pub IsOwn : Terminal → Hash256 → Type 0
IsOwn Terminal.empty key = Unit
IsOwn (Terminal.leaf existing w) key = existing ≡ key

-- The proof of the slot after the write.
abbrev pub written : MerkleProof → Hash256 → Hash256 → MerkleProof
written p key v = record p { terminal = Terminal.leaf key v }

module _ (digest : Bytes → Hash256) where
  updated_terminal-own :
      (t : Terminal) (depth : ℕ) (key v : Hash256)
      → IsOwn t key
      → updated_terminal digest t depth key v ≡ ok (node_hash digest (Node.leaf key v))
  unfolding updated_terminal
  updated_terminal-own Terminal.empty depth key v h = refl
  updated_terminal-own (Terminal.leaf existing w) depth key v h =
      ground (arith, h, bytes_eq_iff existing key)

  -- Over at most 256 siblings, computing the root after a write of a slot that is free or holds
  -- the key succeeds, and under that root the same siblings prove that the key has the value
  -- that was written.
  pub compute_updated_root-own :
      (p : MerkleProof) (key v : Hash256)
      → length p.siblings ≤ max_depth
      → IsOwn p.terminal key
      → (root : Hash256) × (compute_updated_root digest p key v ≡ ok root)
        × (verify_inclusion_hashed digest (written p key v) root key v ≡ ok tt)
  unfolding compute_updated_root verify_inclusion_hashed reconstruct_root check_terminal check_value
      terminal_hash
  compute_updated_root-own p key v l h =
      let root =
        climb digest key p.siblings (length p.siblings) (node_hash digest (Node.leaf key v)) in
      (
        root,
        ground (arith, updated_terminal-own p.terminal (length p.siblings) key v h),
        ground (
          arith,
          check_path_refl key 0 (length p.siblings),
          bytes_eq_refl root,
          bytes_eq_refl key,
          bytes_eq_refl v,
        ),
      )
