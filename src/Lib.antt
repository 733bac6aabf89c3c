-- ===== src/Lib.antt =====
-- SENA is an optimistic rollup on Aptos. A sequencer executes batches of transactions over a sparse
-- Merkle trie of accounts, posts a bonded assertion about the resulting state root, and anybody who
-- computed another root challenges it: the two parties bisect the execution trace until one step is
-- left, which the L1 adjudicates. This library models the crates that this safety argument rests on.
--
-- Primitives models crates/sena-primitives/src:
--   Primitives/Hash256 (hash.rs: Hash256, ZERO, bit, the derived equality and order),
--   Primitives/Codec (codec.rs: Writer and Reader), Primitives/Encoding (encoding.rs:
--   CanonicalEncoder and the domain tags). A byte string is a list of numbers below 256, a hash one
--   of 32 bytes. SHA-256 is a third-party crate: it is the parameter `digest` of every definition
--   that hashes. Where security rests on it, the theorem returns the collision; where the trie's
--   store rests on it, the theorem asks that the nodes at hand (a predicate `P`, NoClash) have
--   hashes of their own that are not zero. Primitives/Utf8 is the lossy decoding of strings.
-- State models crates/sena-state/src: State/Node (node.rs) and State/Proof (proof.rs: verification
--   of inclusion and absence, compute_updated_root), and State/Trie (trie.rs: the node store,
--   insert, remove and prove). The loops over levels recurse on the levels that are left of the
--   256; at none left the source panics on the key's bit, and the model returns `none`.
--   State/Trie/Tree is the tree that a root stands for, the specification of the store.
-- Stf models crates/sena-stf/src: Stf/Account (account.rs: nonce, balances, credit, debit and the
--   canonical encoding), Stf/Gas (gas.rs: fee market, settlement, fee split, and the stored
--   records in Gas/Records and Gas/Stored), Stf/Machine (instruction.rs: MachineState and its
--   commitment), Stf/Instruction (the instruction set, its gas, and the trace of a batch),
--   Stf/Social (social.rs), Stf/Keys (keys.rs, and Instruction::slot), Stf/Governance
--   (governance.rs: council, permitted updates, and the signature check in
--   Governance/Signatures, over the parameter `Ed25519`), and Stf/Execute (execute.rs: the arms of
--   transition in Execute, Execute/Fees and Execute/Council, transition in Execute/Transition,
--   apply and verify_step in Execute/Step), Stf/Transaction and Stf/Signing (transaction.rs: the
--   transaction and what is signed), and Stf/Wire (wire.rs: the encoding, with decode in Wire/Read),
--   and Stf/Batch (batch.rs: the commitment tree of a batch).
-- Fraudproof models crates/sena-fraudproof/src: Fraudproof/Bisection (bisection.rs: the dispute;
--   its moves in Bisection/Moves), Fraudproof/Assertion (assertion.rs: the assertion chain; its
--   methods in Assertion/Calls, the worklist of challenger_won in Assertion/Reject, its
--   snapshot in Assertion/Snapshot), Fraudproof/Verifier (verifier.rs: the moves of an honest
--   party; check_assertion in Verifier/Check), and Fraudproof/Osp (osp.rs: adjudicate).
--
-- A method on `&mut self` that can fail is an `Action` (Base/Action): what it wrote before it failed
-- stays written. A BTreeMap is a list of entries in key order (Base/BTreeMap). Machine words are
-- native numbers: saturating and checked arithmetic is written out, and a subtraction that the
-- source guards is that of the naturals. The worklist of challenger_won runs on fuel for one pass for
-- each record: a pass rejects a record that stood, and no record is pushed twice. Lists are read
-- with a default where the source would panic on an index out of range. The division points of an
-- interval are computed on unbounded numbers: the source multiplies in u64 and panics where the span
-- times the arity, which is 8 by default, reaches 2 ^ 64.
--
-- A dispute and a chain are exercised by sequences of calls in any order, refused ones included.
-- The chain does not see disputes: the L1 contract, which is not in these crates, opens a dispute
-- for a challenge and reports its winner.
--
-- Not modelled: compilation of transactions into instructions, the execution of a batch,
-- the trie's snapshot; the authentication of a transaction, keyless or not,
-- the node's services, wallets and bindings, which are input and output around the core or
-- third-party cryptography.
pub mod Base
pub mod Primitives
pub mod Fraudproof
pub mod Stf
pub mod State
