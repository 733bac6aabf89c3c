-- ===== src/Fraudproof/Assertion/Step.antt =====
-- crates/sena-fraudproof/src/assertion.rs: what a call does to the chain, as a step relation.
use sena.Fraudproof.Assertion.Reject.{reject_loop}
use sena.Base.BTreeMap.{get}
use sena.Fraudproof.Assertion.Calls.{
  advance_to, open_challenge, post, defender_won, challenger_won, finalize, set_record,
  parent_status, is_finalized,
}
use sena.Fraudproof.Assertion.{status_eq, Assertion, Status, AssertionChain, Record, assertion_id}
use sena.Primitives.Hash256.{Bytes, Hash256, bytes_eq}
use sena.Base.{
  ℕ, ◌≡◌, List, ◌≤◌, true, ◌∷◌, Bool-cases, Option-cases, ◌↔◌, ltb, [], some, arith, inl, ◌≢◌, inr,
  ◌||◌, ◌-◌, length, Option, not, saturating_add_u32, if◌then◌else◌, ◌&&◌, ◌==◌, ap, leb, none,
}
use sena.Primitives.Hash256.Order.{bytes_ord}

-- One call on the chain, by whoever makes it.
pub data ChainCall : Type 0 where
  advance_call : ℕ → ChainCall
  post_call : Assertion → ChainCall
  challenge_call defended_call rejected_call finalize_call : Hash256 → ChainCall

-- How a chain may move in one call.
pub data Step (digest : Bytes → Hash256) (c c' : AssertionChain) : Type 0 where
  refused : c' ≡ c → Step digest c c'
  advanced : (t : ℕ) → c.now ≤ t → c' ≡ record c { now = t } → Step digest c c'
  posted :
      (a : Assertion) (p : Record)
      → get a.parent c.records ≡ some p
      → p.status ≢ Status.rejected
      → c'
        ≡ set_record
            (assertion_id digest a)
            (record {
              assertion = a;
              status = Status.pending;
              posted_at = c.now;
              open_challenges = 0;
            })
            c
      → Step digest c c'
  disputed :
      (id : Hash256) (r r' : Record)
      → get id c.records ≡ some r
      → r.status ≢ Status.rejected
      → r'.status ≢ Status.rejected
      → r'.status ≢ Status.finalized
      → r'.assertion ≡ r.assertion
      → c' ≡ set_record id r' c
      → Step digest c c'
  finalized :
      (id : Hash256) (r : Record)
      → get id c.records ≡ some r
      → r.status ≡ Status.pending
      → parent_status r c ≡ some Status.finalized
      → c.challenge_window ≤ c.now - r.posted_at
      → c' ≡ record (set_record id (record r { status = Status.finalized }) c) {
        latest_finalized = some id;
      }
      → Step digest c c'
  rejected :
      (id : Hash256) (r : Record)
      → get id c.records ≡ some r
      → r.status ≡ Status.challenged
      → c' ≡ record c { records = (reject_loop (length c.records) (id ∷ []) [] c.records).records }
      → Step digest c c'

pub status_eq_iff : (s t : Status) → (status_eq s t ≡ true) ↔ (s ≡ t)
unfolding status_eq
status_eq_iff Status.pending Status.pending = ground arith
status_eq_iff Status.pending Status.challenged = ground arith
status_eq_iff Status.pending Status.finalized = ground arith
status_eq_iff Status.pending Status.rejected = ground arith
status_eq_iff Status.challenged Status.pending = ground arith
status_eq_iff Status.challenged Status.challenged = ground arith
status_eq_iff Status.challenged Status.finalized = ground arith
status_eq_iff Status.challenged Status.rejected = ground arith
status_eq_iff Status.finalized Status.pending = ground arith
status_eq_iff Status.finalized Status.challenged = ground arith
status_eq_iff Status.finalized Status.finalized = ground arith
status_eq_iff Status.finalized Status.rejected = ground arith
status_eq_iff Status.rejected Status.pending = ground arith
status_eq_iff Status.rejected Status.challenged = ground arith
status_eq_iff Status.rejected Status.finalized = ground arith
status_eq_iff Status.rejected Status.rejected = ground arith

is_finalized-eq : (s : Option Status) → is_finalized s ≡ true → s ≡ some Status.finalized
is_finalized-eq none e = absurd (ground arith)
is_finalized-eq (some s) e = ap some ((status_eq_iff s Status.finalized).0 e)

module _ (digest : Bytes → Hash256) where
  -- The chain after a call, whether it was accepted or refused.
  unfoldable pub chain_call : ChainCall → AssertionChain → AssertionChain
  chain_call (ChainCall.advance_call t) c = (advance_to t c).0
  chain_call (ChainCall.post_call a) c = (post digest a c).0
  chain_call (ChainCall.challenge_call id) c = (open_challenge id c).0
  chain_call (ChainCall.defended_call id) c = (defender_won id c).0
  chain_call (ChainCall.rejected_call id) c = (challenger_won id c).0
  chain_call (ChainCall.finalize_call id) c = (finalize id c).0

  unfoldable pub run_chain : List ChainCall → AssertionChain → AssertionChain
  unfolding chain_call
  run_chain [] c = c
  run_chain (call ∷ calls) c = run_chain calls (chain_call call c)

  advance_to-Step : (t : ℕ) (c : AssertionChain) → Step digest c (advance_to t c).0
  unfolding advance_to
  advance_to-Step t c = elim (Bool-cases (ltb t c.now)) [
    | inl back ↦ Step.refused (ground arith)
    | inr on ↦ Step.advanced t (ground arith) (ground arith)
  ]

  post-Step : (a : Assertion) (c : AssertionChain) → Step digest c (post digest a c).0
  unfolding post
  post-Step a c = elim (Option-cases (get a.parent c.records)) [
    | inl unknown ↦ Step.refused (ground arith)
    | inr (p, known) ↦
        elim (Bool-cases (
          not (status_eq p.status Status.rejected)
          && bytes_eq p.assertion.post_state_root a.pre_state_root
          && leb c.minimum_bond a.bond)) [
            | inl may ↦
                Step.posted a p known (ground (arith, status_eq_iff p.status Status.rejected))
                  (ground arith)
            | inr not_good ↦ Step.refused (ground arith)
          ]
  ]

  open_challenge-Step : (id : Hash256) (c : AssertionChain) → Step digest c (open_challenge id c).0
  unfolding open_challenge
  open_challenge-Step id c = elim (Option-cases (get id c.records)) [
    | inl unknown ↦ Step.refused (ground arith)
    | inr (r, known) ↦
        elim (Bool-cases
          (status_eq r.status Status.pending || status_eq r.status Status.challenged)) [
            | inl may ↦
                Step.disputed id r
                  (record r {
                    status = Status.challenged;
                    open_challenges = saturating_add_u32 r.open_challenges 1;
                  })
                  known
                  (ground (
                    arith,
                    status_eq_iff r.status Status.pending,
                    status_eq_iff r.status Status.challenged,
                  ))
                  (ground arith) (ground arith) (ground arith) (ground arith)
            | inr not_open ↦ Step.refused (ground arith)
          ]
  ]

  defender_won-Step : (id : Hash256) (c : AssertionChain) → Step digest c (defender_won id c).0
  unfolding defender_won
  defender_won-Step id c = elim (Option-cases (get id c.records)) [
    | inl unknown ↦ Step.refused (ground arith)
    | inr (r, known) ↦ elim (Bool-cases (status_eq r.status Status.challenged)) [
      | inl may ↦
          let s = (status_eq_iff r.status Status.challenged).0 may in
          Step.disputed id r
            (record r {
              status = if r.open_challenges - 1 == 0 then Status.pending else r.status;
              open_challenges = r.open_challenges - 1;
            })
            known (ground (arith, s)) (ground (arith, s)) (ground (arith, s)) (ground arith)
            (ground arith)
      | inr not_challenged ↦ Step.refused (ground arith)
    ]
  ]

  challenger_won-Step : (id : Hash256) (c : AssertionChain) → Step digest c (challenger_won id c).0
  unfolding challenger_won
  challenger_won-Step id c = elim (Option-cases (get id c.records)) [
    | inl unknown ↦ Step.refused (ground arith)
    | inr (r, known) ↦ elim (Bool-cases (status_eq r.status Status.challenged)) [
      | inl may ↦
          Step.rejected id r known ((status_eq_iff r.status Status.challenged).0 may) (ground arith)
      | inr not_challenged ↦ Step.refused (ground arith)
    ]
  ]

  finalize-Step : (id : Hash256) (c : AssertionChain) → Step digest c (finalize id c).0
  unfolding finalize
  finalize-Step id c = elim (Option-cases (get id c.records)) [
    | inl unknown ↦ Step.refused (ground arith)
    | inr (r, known) ↦
        elim (Bool-cases (
          status_eq r.status Status.pending
          && is_finalized (parent_status r c)
          && leb c.challenge_window (c.now - r.posted_at))) [
            | inl may ↦
                Step.finalized id r known (ground (arith, status_eq_iff r.status Status.pending))
                  (is_finalized-eq (parent_status r c) (ground arith)) (ground arith) (ground arith)
            | inr not_yet ↦ Step.refused (ground arith)
          ]
  ]

  -- Every call is a step.
  pub chain_call-Step : (call : ChainCall) (c : AssertionChain) → Step digest c (chain_call call c)
  unfolding chain_call
  chain_call-Step (ChainCall.advance_call t) c = advance_to-Step t c
  chain_call-Step (ChainCall.post_call a) c = post-Step a c
  chain_call-Step (ChainCall.challenge_call id) c = open_challenge-Step id c
  chain_call-Step (ChainCall.defended_call id) c = defender_won-Step id c
  chain_call-Step (ChainCall.rejected_call id) c = challenger_won-Step id c
  chain_call-Step (ChainCall.finalize_call id) c = finalize-Step id c
