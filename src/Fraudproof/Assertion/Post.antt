-- ===== src/Fraudproof/Assertion/Post.antt =====
-- crates/sena-fraudproof/src/assertion.rs: what an accepted `post` and `challenger_won` leave.
use sena.Fraudproof.Assertion.Consistent.{IsConsistent, Step-IsConsistent}
use sena.Fraudproof.Assertion.Worklist.{reject_record_unknown, reject_record-eq}
use sena.Fraudproof.Assertion.Step.{status_eq_iff, chain_call-Step, ChainCall, chain_call}
use sena.Base.BTreeMap.{get, get-insert_self, get-insert_ne, insert}
use sena.Fraudproof.Assertion.{
  Assertion, AssertionChain, Records, Record, assertion_id, Status, status_of,
}
use sena.Base.{
  ℕ, List, ◌≡◌, ok, some, ◌≢◌, ◌≤◌, suc, Option-cases, ◌∷◌, inl, arith, subst, sym, inr, Bool-cases,
  ◌∙◌, zero, [], refl, length,
}
use sena.Primitives.Hash256.{Bytes, Hash256, bytes_eq_iff, bytes_eq}
use sena.Fraudproof.Assertion.Reject.{reject_loop, reject_step, as_rejected}
use sena.Fraudproof.Assertion.Calls.{post, challenger_won}
use sena.Primitives.Hash256.Order.{bytes_ord}

-- An accepted post names a parent that is known and not rejected, continues its state root, and
-- carries the minimum bond. It leaves every other record alone, and under the assertion's id a
-- record that is pending, posted now and without challenges, whatever stood there before.
pub post-ok :
    (digest : Bytes → Hash256) (a : Assertion) (c : AssertionChain) (id other : Hash256)
    → (post digest a c).1 ≡ ok id
    → let c' = (post digest a c).0 in
      (id ≡ assertion_id digest a)
      × ((p : Record) × (get a.parent c.records ≡ some p)
          × (p.status ≢ Status.rejected)
          × (p.assertion.post_state_root ≡ a.pre_state_root))
      × (c.minimum_bond ≤ a.bond)
      × (get id c'.records
          ≡ some (record {
            assertion = a;
            status = Status.pending;
            posted_at = c.now;
            open_challenges = 0;
          }))
      × (other ≢ id → get other c'.records ≡ get other c.records)
unfolding post
post-ok digest a c id other e = elim (Option-cases (get a.parent c.records)) [
  | inl unknown ↦ absurd (ground arith)
  | inr (p, known) ↦
      let s = status_eq_iff p.status Status.rejected in
      let b = bytes_eq_iff p.assertion.post_state_root a.pre_state_root in
      let w : Record = record {
        assertion = a;
        status = Status.pending;
        posted_at = c.now;
        open_challenges = 0;
      } in
      let self = get-insert_self (assertion_id digest a) w c.records in
      let ne = get-insert_ne (assertion_id digest a) other w c.records in
      (
        ground arith,
        (p, known, ground (arith, s), ground (arith, b)),
        ground arith,
        ground (arith, self),
        ground (arith, ne),
      )
]

-- A rejected record stays rejected while the worklist runs.
reject_loop_keeps :
    (n : ℕ) (f rejected : List Hash256) (m : Records) (id : Hash256) (r : Record)
    → get id m ≡ some r
    → r.status ≡ Status.rejected
    → (r' : Record) × (get id (reject_loop n f rejected m).records ≡ some r')
      × (r'.status ≡ Status.rejected)
unfolding reject_loop reject_step
reject_loop_keeps zero f rejected m id r k s = (r, k, s)
reject_loop_keeps (suc n) [] rejected m id r k s = (r, k, s)
reject_loop_keeps (suc n) (c ∷ f) rejected m id r k s =
    let w = reject_step c f rejected m in
    elim (Option-cases (get c m)) [
      | inl unknown ↦
          reject_loop_keeps n w.frontier w.rejected w.records id r
            (subst (λ x. get id x ≡ some r) (sym (reject_record_unknown c m unknown)) k) s
      | inr (q, known) ↦ elim (Bool-cases (bytes_eq id c)) [
        | inl here ↦
            let e = (bytes_eq_iff id c).0 here in
            let written : get id (insert c (as_rejected q) m) ≡ some (as_rejected q) =
              subst (λ x. get x (insert c (as_rejected q) m) ≡ some (as_rejected q)) (sym e)
                (get-insert_self c (as_rejected q) m) in
            reject_loop_keeps n w.frontier w.rejected w.records id (as_rejected q)
              (subst (λ x. get id x ≡ some (as_rejected q)) (sym (reject_record-eq c m q known))
                written)
              refl
        | inr other ↦
            let n' : id ≢ c = λ e. cc (other, (bytes_eq_iff id c).1 e) in
            reject_loop_keeps n w.frontier w.rejected w.records id r
              (subst (λ x. get id x ≡ some r) (sym (reject_record-eq c m q known))
                (get-insert_ne c id (as_rejected q) m n' ∙ k))
              s
      ]
    ]

reject_loop_first :
    (id : Hash256) (m : Records) (r : Record)
    → get id m ≡ some r
    → (r' : Record) × (get id (reject_loop (length m) (id ∷ []) [] m).records ≡ some r')
      × (r'.status ≡ Status.rejected)
unfolding reject_loop reject_step get
reject_loop_first id [] r k = absurd (ground (arith, k))
reject_loop_first id ((j, v) ∷ m) r k =
    let m0 = (j, v) ∷ m in
    let w = reject_step id [] [] m0 in
    reject_loop_keeps (length m) w.frontier w.rejected w.records id (as_rejected r)
      (subst (λ x. get id x ≡ some (as_rejected r)) (sym (reject_record-eq id m0 r k))
        (get-insert_self id (as_rejected r) m0))
      refl

-- A challenge that is won on a consistent chain is one against a challenged assertion. It
-- leaves that assertion rejected and the chain consistent: whatever builds on a rejected
-- assertion is rejected.
pub challenger_won-ok :
    (digest : Bytes → Hash256) (id : Hash256) (ids : List Hash256) (c : AssertionChain)
    → IsConsistent c
    → (challenger_won id c).1 ≡ ok ids
    → let c' = (challenger_won id c).0 in
      (status_of id c ≡ some Status.challenged)
      × (status_of id c' ≡ some Status.rejected)
      × IsConsistent c'
unfolding challenger_won status_of chain_call
challenger_won-ok digest id ids c h e = elim (Option-cases (get id c.records)) [
  | inl unknown ↦ absurd (ground arith)
  | inr (r, known) ↦
      let (r', k', s') = reject_loop_first id c.records r known in
      (
        ground (arith, status_eq_iff r.status Status.challenged),
        ground (arith, k', s'),
        Step-IsConsistent digest c _ (chain_call-Step digest (ChainCall.rejected_call id) c) h,
      )
]
