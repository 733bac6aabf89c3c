-- ===== src/Fraudproof/Assertion.antt =====
-- crates/sena-fraudproof/src/assertion.rs: bonded assertions and the chain they form. An
-- `AssertionId` is the hash it wraps and a `PartyId` its number; bonds are u128, times u64.
pub mod Reject
pub mod Calls
pub mod Step
pub mod Worklist
pub mod Dry
pub mod Closed
pub mod Consistent
pub mod Matured
pub mod Post
pub mod Snapshot
pub mod Restore
use sena.Primitives.Hash256.Order.{bytes_ord}
use sena.Primitives.Encoding.{new_encoder, field, u64_field, u128_field, assertion_domain}
use sena.Base.BTreeMap.{BTreeMap, insert, get}
use sena.Base.{Bool, ℕ, Option, true, ◌*◌, false, none, [], ◌∷◌, some, max, ◌&&◌, ◌||◌}
use sena.Primitives.Hash256.{Hash256, Bytes, zero_hash, bytes_eq}

pub record Assertion : Type 0 where
  pub parent : Hash256
  pub proposer : ℕ
  pub pre_state_root : Hash256
  pub post_state_root : Hash256
  pub batch_commitment : Hash256
  pub trace_length : ℕ
  pub bond : ℕ

pub data Status : Type 0 where
  pending challenged finalized rejected : Status

-- The derived `PartialEq` of `Status`.
unfoldable pub status_eq : Status → Status → Bool
status_eq Status.pending Status.pending = true
status_eq Status.challenged Status.challenged = true
status_eq Status.finalized Status.finalized = true
status_eq Status.rejected Status.rejected = true
status_eq _ _ = false

pub record Record : Type 0 where
  pub assertion : Assertion
  pub status : Status
  pub posted_at : ℕ
  pub open_challenges : ℕ

pub data ChainError : Type 0 where
  unknown_assertion unknown_parent parent_rejected time_went_backwards : ChainError
  broken_chain : Hash256 → Hash256 → ChainError
  bond_too_small : ℕ → ℕ → ChainError
  wrong_status : Status → ChainError
  window_open : ℕ → ChainError

abbrev pub Records : Type 0
Records = BTreeMap Hash256 Record

pub record AssertionChain : Type 0 where
  pub records : Records
  pub latest_finalized : Option Hash256
  pub challenge_window : ℕ
  pub minimum_bond : ℕ
  pub now : ℕ

-- A day, in seconds.
abbrev pub challenge_window_floor : ℕ
challenge_window_floor = 24 * 60 * 60

abbrev pub default_challenge_window : ℕ
default_challenge_window = 7 * 24 * 60 * 60

-- The bytes that an assertion's id commits to.
unfoldable pub assertion_preimage : Assertion → Bytes
unfolding new_encoder field u64_field u128_field
assertion_preimage a = u128_field a.bond (
    u64_field a.trace_length (
      field a.batch_commitment (
        field a.post_state_root (
          field a.pre_state_root
            (u64_field a.proposer (field a.parent (new_encoder assertion_domain)))))))

-- `Assertion::id`
unfoldable pub assertion_id : (Bytes → Hash256) → Assertion → Hash256
unfolding assertion_preimage
assertion_id digest a = digest (assertion_preimage a)

-- The first assertion of a chain, which nobody made.
unfoldable pub genesis_assertion : Hash256 → Assertion
genesis_assertion genesis_root = record {
  parent = zero_hash;
  proposer = 0;
  pre_state_root = zero_hash;
  post_state_root = genesis_root;
  batch_commitment = zero_hash;
  trace_length = 0;
  bond = 0;
}

-- `AssertionChain::new`
unfoldable pub new_chain : (Bytes → Hash256) → Hash256 → ℕ → ℕ → AssertionChain
unfolding assertion_id genesis_assertion
new_chain digest genesis_root challenge_window minimum_bond =
    let genesis = genesis_assertion genesis_root in
    let id = assertion_id digest genesis in
    record {
      records =
          insert id
            (record {
              assertion = genesis;
              status = Status.finalized;
              posted_at = 0;
              open_challenges = 0;
            })
            [];
      latest_finalized = some id;
      challenge_window = max challenge_window challenge_window_floor;
      minimum_bond = minimum_bond;
      now = 0;
    }

-- `AssertionChain::status`
unfoldable pub status_of : Hash256 → AssertionChain → Option Status
status_of id c = elim (get id c.records) [ none ↦ none | some r ↦ some r.status ]

-- `AssertionChain::latest_finalized`
unfoldable pub latest_finalized_record : AssertionChain → Option Record
latest_finalized_record c = elim c.latest_finalized [ none ↦ none | some id ↦ get id c.records ]

-- The search of `is_withdrawable`.
unfoldable pub any_finalized : Hash256 → Records → Bool
unfolding status_eq
any_finalized root [] = false
any_finalized root ((id, r) ∷ m) =
    status_eq r.status Status.finalized && bytes_eq r.assertion.post_state_root root
    || any_finalized root m

-- `AssertionChain::is_withdrawable`
unfoldable pub is_withdrawable : Hash256 → AssertionChain → Bool
unfolding any_finalized
is_withdrawable root c = any_finalized root c.records
