-- ===== src/Fraudproof/Assertion/Calls.antt =====
-- crates/sena-fraudproof/src/assertion.rs: the methods that change the chain. A record changed
-- through `get_mut` is written back under its key.
use sena.Fraudproof.Assertion.Reject.{reject_loop}
use sena.Base.BTreeMap.{get, insert}
use sena.Base.{
  ℕ, Option, not, ltb, ◌||◌, ◌-◌, List, Bool, some, saturating_add_u32, if◌then◌else◌, length,
  false, leb, none, ◌==◌, ◌∷◌, [],
}
use sena.Primitives.Hash256.{Hash256, Bytes, bytes_eq}
use sena.Fraudproof.Assertion.{
  AssertionChain, status_eq, status_of, ChainError, Record, assertion_id, Status, Assertion,
}
use sena.Primitives.Hash256.Order.{bytes_ord}
use sena.Base.Action.{Action, pure, gets, require, modify, or_raise, ◌>>=◌, ◌>>◌}

abbrev pub Method : Type 0 → Type 0
Method = Action AssertionChain ChainError

abbrev pub set_record : Hash256 → Record → AssertionChain → AssertionChain
set_record id r c = record c { records = insert id r c.records }

-- `AssertionChain::advance_to`
unfoldable pub advance_to : ℕ → Method (Unit {0})
advance_to to = do
  require (not (ltb to (← gets (λ c. c.now)))) ChainError.time_went_backwards
  modify (λ c. record c { now = to })

-- `AssertionChain::post`
unfoldable pub post : (Bytes → Hash256) → Assertion → Method Hash256
unfolding status_eq assertion_id
post digest assertion = do
  parent ← λ c. or_raise (get assertion.parent c.records) ChainError.unknown_parent c
  require (not (status_eq parent.status Status.rejected)) ChainError.parent_rejected
  require (bytes_eq parent.assertion.post_state_root assertion.pre_state_root)
      (ChainError.broken_chain assertion.pre_state_root parent.assertion.post_state_root)
  minimum_bond ← gets (λ c. c.minimum_bond)
  require (leb minimum_bond assertion.bond) (ChainError.bond_too_small assertion.bond minimum_bond)
  modify (λ c.
      set_record (assertion_id digest assertion)
        (record {
          assertion = assertion;
          status = Status.pending;
          posted_at = c.now;
          open_challenges = 0;
        })
        c)
  pure (assertion_id digest assertion)

-- `AssertionChain::open_challenge`
unfoldable pub open_challenge : Hash256 → Method (Unit {0})
unfolding status_eq
open_challenge id = do
  r ← λ c. or_raise (get id c.records) ChainError.unknown_assertion c
  require (status_eq r.status Status.pending || status_eq r.status Status.challenged)
      (ChainError.wrong_status r.status)
  modify (
      set_record id (record r {
        status = Status.challenged;
        open_challenges = saturating_add_u32 r.open_challenges 1;
      }))

-- `AssertionChain::defender_won`
unfoldable pub defender_won : Hash256 → Method (Unit {0})
unfolding status_eq
defender_won id = do
  r ← λ c. or_raise (get id c.records) ChainError.unknown_assertion c
  require (status_eq r.status Status.challenged) (ChainError.wrong_status r.status)
  let left = r.open_challenges - 1
  modify (
      set_record id (record r {
        status = if left == 0 then Status.pending else r.status;
        open_challenges = left;
      }))

-- `AssertionChain::challenger_won`, with fuel for one pass for each record.
unfoldable pub challenger_won : Hash256 → Method (List Hash256)
unfolding status_eq reject_loop
challenger_won id = do
  r ← λ c. or_raise (get id c.records) ChainError.unknown_assertion c
  require (status_eq r.status Status.challenged) (ChainError.wrong_status r.status)
  w ← gets (λ c. reject_loop (length c.records) (id ∷ []) [] c.records)
  modify (λ c. record c { records = w.records })
  pure w.rejected

-- The status of an assertion's parent, if it is known.
unfoldable pub parent_status : Record → AssertionChain → Option Status
unfolding status_of
parent_status r c = status_of r.assertion.parent c

-- What `finalize` says of the parent's status.
abbrev pub is_finalized : Option Status → Bool
is_finalized none = false
is_finalized (some s) = status_eq s Status.finalized

abbrev pub status_or_rejected : Option Status → Status
status_or_rejected none = Status.rejected
status_or_rejected (some s) = s

-- `AssertionChain::finalize`
unfoldable pub finalize : Hash256 → Method (Unit {0})
unfolding status_eq parent_status
finalize id = do
  r ← λ c. or_raise (get id c.records) ChainError.unknown_assertion c
  require (status_eq r.status Status.pending) (ChainError.wrong_status r.status)
  parent ← gets (parent_status r)
  require (is_finalized parent) (ChainError.wrong_status (status_or_rejected parent))
  elapsed ← gets (λ c. c.now - r.posted_at)
  window ← gets (λ c. c.challenge_window)
  require (leb window elapsed) (ChainError.window_open (window - elapsed))
  modify (set_record id (record r { status = Status.finalized }))
  modify (λ c. record c { latest_finalized = some id })
