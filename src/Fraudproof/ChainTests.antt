-- ===== src/Fraudproof/ChainTests.antt =====
-- crates/sena-fraudproof/src/assertion.rs: the theorems at a concrete chain.
use sena.Fraudproof.Assertion.Restore.{restore-snapshot_run}
use sena.Fraudproof.Assertion.Snapshot.{restore, snapshot}
use sena.Fraudproof.Assertion.Dry.{worklist_runs_dry}
use sena.Fraudproof.Assertion.Reject.{reject_loop}
use sena.Fraudproof.Assertion.Worklist.{IsOpen}
use sena.Fraudproof.Assertion.Consistent.{IsConsistent, new_chain_closed}
use sena.Fraudproof.Assertion.Calls.{open_challenge}
use sena.Primitives.Codec.{to_be_bytes}
use sena.Base.BTreeMap.{insert}
use sena.Fraudproof.Assertion.Post.{challenger_won-ok, post-ok}
use sena.Base.BTreeMap.{get}
use sena.Fraudproof.Assertion.Step.{ChainCall, run_chain}
use sena.Fraudproof.Assertion.Calls.{challenger_won, post}
use sena.Fraudproof.Assertion.Matured.{IsMatured, finalized_after_window}
use sena.Base.{List, ◌∷◌, ◌≡◌, [], some, ◌≢◌, ◌≤◌, refl, arith, length}
use sena.Fraudproof.Assertion.{
  Assertion, AssertionChain, assertion_id, status_of, genesis_assertion, new_chain, Record, Status,
}
use sena.Primitives.Hash256.{zero_hash, bytes_eq, Bytes, Hash256}
use sena.Primitives.Hash256.Order.{bytes_cmp, bytes_ord}

-- A digest that keeps every byte.
abbrev whole : Bytes → Hash256
whole bs = bs

abbrev root : Hash256
root = 5 ∷ []

abbrev first : Assertion
first = record {
  parent = assertion_id whole (genesis_assertion root);
  proposer = 1;
  pre_state_root = root;
  post_state_root = 6 ∷ [];
  batch_commitment = 7 ∷ [];
  trace_length = 20;
  bond = 50;
}

abbrev first_id : Hash256
first_id = assertion_id whole first

abbrev second : Assertion
second = record {
  parent = first_id;
  proposer = 1;
  pre_state_root = 6 ∷ [];
  post_state_root = 8 ∷ [];
  batch_commitment = 9 ∷ [];
  trace_length = 3;
  bond = 50;
}

-- Two assertions are posted, and the first is challenged.
abbrev dispute_calls : List ChainCall
dispute_calls =
    ChainCall.post_call first ∷ ChainCall.post_call second ∷ ChainCall.challenge_call first_id ∷ []

-- A chain whose window was asked to be ten seconds.
chain : AssertionChain
chain = run_chain whole dispute_calls (new_chain whole root 10 50)

finalized_after_window_example : IsMatured (assertion_id whole (genesis_assertion root)) (
    run_chain whole
      (ChainCall.post_call first
        ∷ ChainCall.advance_call 86400
        ∷ ChainCall.finalize_call first_id
        ∷ [])
      (new_chain whole root 10 50))
finalized_after_window_example = finalized_after_window whole root 10 50 (
    ChainCall.post_call first
    ∷ ChainCall.advance_call 86400
    ∷ ChainCall.finalize_call first_id
    ∷ [])

new_chain_closed_example : IsConsistent (run_chain whole dispute_calls (new_chain whole root 10 50))
new_chain_closed_example = new_chain_closed whole root 10 50 dispute_calls

-- The challenge that is won rejects both assertions.
challenger_won-ok_example :
    (status_of first_id chain ≡ some Status.challenged)
    × (status_of first_id (challenger_won first_id chain).0 ≡ some Status.rejected)
    × IsConsistent (challenger_won first_id chain).0
unfolding chain challenger_won post get run_chain open_challenge new_chain insert bytes_cmp
    to_be_bytes zero_hash bytes_eq
challenger_won-ok_example =
    challenger_won-ok whole first_id (first_id ∷ assertion_id whole second ∷ []) chain
      new_chain_closed_example refl

-- Posting the challenged assertion again is accepted, and its record is pending again.
repost_example :
    (first_id ≡ assertion_id whole first)
    × ((p : Record) × (get first.parent chain.records ≡ some p)
        × (p.status ≢ Status.rejected)
        × (p.assertion.post_state_root ≡ first.pre_state_root))
    × (chain.minimum_bond ≤ first.bond)
    × (get first_id (post whole first chain).0.records
        ≡ some (record {
          assertion = first;
          status = Status.pending;
          posted_at = chain.now;
          open_challenges = 0;
        }))
    × (root ≢ first_id → get root (post whole first chain).0.records ≡ get root chain.records)
unfolding chain post get run_chain open_challenge new_chain insert bytes_cmp to_be_bytes zero_hash
    bytes_eq
repost_example = post-ok whole first chain first_id root refl

first-IsOpen : IsOpen chain.records first_id
unfolding chain get run_chain open_challenge post new_chain insert bytes_cmp to_be_bytes zero_hash
    bytes_eq
first-IsOpen = (
  record { assertion = first; status = Status.challenged; posted_at = 0; open_challenges = 1 },
  refl,
  ground arith,
)

worklist_runs_dry_example :
    (reject_loop (length chain.records) (first_id ∷ []) [] chain.records).frontier ≡ []
unfolding chain run_chain
worklist_runs_dry_example =
    worklist_runs_dry first_id chain.records new_chain_closed_example.sorted first-IsOpen

restore-snapshot_run_example :
    restore whole (snapshot (run_chain whole dispute_calls (new_chain whole root 10 50)))
    ≡ run_chain whole dispute_calls (new_chain whole root 10 50)
restore-snapshot_run_example = restore-snapshot_run whole root 10 50 dispute_calls
