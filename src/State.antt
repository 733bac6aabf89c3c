-- ===== src/State.antt =====
-- The crate sena-state: the sparse Merkle trie and its proofs. SHA-256 is the parameter `digest`
-- of every definition that hashes.
pub mod Node
pub mod Proof
pub mod Trie
pub mod Sample
mod Tests
mod TrieTests
