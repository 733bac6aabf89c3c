-- ===== src/Fraudproof/Assertion/Matured.antt =====
-- crates/sena-fraudproof/src/assertion.rs: when assertions are finalized.
use sena.Fraudproof.Assertion.Worklist.{reject_record_unknown, reject_record-eq}
use sena.Base.{
  ℕ, List, ◌≤◌, ◌≡◌, subst, some, sym, ◌∷◌, ◌⊎◌, arith, inl, ◌+◌, Bool-cases, Option-cases, suc,
  inr, ap, zero, [], ◌∙◌, ◌≢◌,
}
use sena.Base.BTreeMap.{insert, get, get-insert_self, get-insert_ne}
use sena.Fraudproof.Assertion.Step.{run_chain, Step, ChainCall, chain_call, chain_call-Step}
use sena.Fraudproof.Assertion.Reject.{reject_loop, reject_step, reject_record, as_rejected}
use sena.Fraudproof.Assertion.{
  Records, new_chain, AssertionChain, Record, challenge_window_floor, assertion_id,
  genesis_assertion, Status,
}
use sena.Primitives.Hash256.{Hash256, Bytes, bytes_eq, bytes_eq_iff}
use sena.Primitives.Hash256.Order.{bytes_ord}

-- Finalized records were posted a challenge window ago, but for the one at `genesis`; and the
-- window is at least its floor.
pub record IsMatured (genesis : Hash256) (c : AssertionChain) : Type 0 where
  pub window_floor : challenge_window_floor ≤ c.challenge_window
  pub matured :
      (id : Hash256) (r : Record)
      → get id c.records ≡ some r
      → r.status ≡ Status.finalized
      → (id ≡ genesis) ⊎ (r.posted_at + c.challenge_window ≤ c.now)

-- A finalized record of the map after a write is the one written or stood there before.
pub insert_entry :
    (m : Records) (k id : Hash256) (w r : Record)
    → get id (insert k w m) ≡ some r
    → ((id ≡ k) × (r ≡ w)) ⊎ (get id m ≡ some r)
insert_entry m k id w r e = elim (Bool-cases (bytes_eq id k)) [
  | inl here ↦
      let same = (bytes_eq_iff id k).0 here in
      let e' = subst (λ x. get x (insert k w m) ≡ some r) same e in
      inl (same, cc (get-insert_self k w m, e'))
  | inr other ↦
      let n : id ≢ k = λ p. cc (other, (bytes_eq_iff id k).1 p) in
      inr (sym (get-insert_ne k id w m n) ∙ e)
]

reject_record_finalized :
    (m : Records) (k id : Hash256) (r : Record)
    → get id (reject_record k m) ≡ some r
    → r.status ≡ Status.finalized
    → get id m ≡ some r
reject_record_finalized m k id r e f = elim (Option-cases (get k m)) [
  | inl unknown ↦ subst (λ x. get id x ≡ some r) (reject_record_unknown k m unknown) e
  | inr (q, known) ↦
      let e' = subst (λ x. get id x ≡ some r) (reject_record-eq k m q known) e in
      elim (insert_entry m k id (as_rejected q) r e') [
        | inl (same, w) ↦ absurd (ground (arith, w, f))
        | inr old ↦ old
      ]
]

reject_loop_finalized :
    (n : ℕ) (f rejected : List Hash256) (m : Records) (id : Hash256) (r : Record)
    → get id (reject_loop n f rejected m).records ≡ some r
    → r.status ≡ Status.finalized
    → get id m ≡ some r
unfolding reject_loop reject_step
reject_loop_finalized zero f rejected m id r e s = e
reject_loop_finalized (suc n) [] rejected m id r e s = e
reject_loop_finalized (suc n) (c ∷ f) rejected m id r e s =
    let w = reject_step c f rejected m in
    reject_record_finalized m c id r
      (reject_loop_finalized n w.frontier w.rejected w.records id r e s) s

module _ (digest : Bytes → Hash256) (genesis : Hash256) where
  Step-IsMatured :
      (c c' : AssertionChain) → Step digest c c' → IsMatured genesis c → IsMatured genesis c'
  Step-IsMatured c c' (Step.refused e) h = subst (IsMatured genesis) (sym e) h
  Step-IsMatured c c' (Step.advanced t l e) h = subst (IsMatured genesis) (sym e) (record {
    window_floor = h.window_floor;
    matured = λ id r k f. elim (h.matured id r k f) [ inl g ↦ inl g | inr o ↦ inr (omega arith) ];
  })
  Step-IsMatured c c' (Step.posted a p k o e) h = subst (IsMatured genesis) (sym e) (record {
    window_floor = h.window_floor;
    matured = λ id r ki f. elim (insert_entry c.records _ id _ r ki) [
      | inl (same, w) ↦ absurd (ground (arith, w, f))
      | inr old ↦ h.matured id r old f
    ];
  })
  Step-IsMatured c c' (Step.disputed id r r' k o o' n same e) h =
      subst (IsMatured genesis) (sym e) (record {
        window_floor = h.window_floor;
        matured = λ j s kj f. elim (insert_entry c.records id j r' s kj) [
          | inl (here, w) ↦ absurd (n (sym (ap (λ x. x.status) w) ∙ f))
          | inr old ↦ h.matured j s old f
        ];
      })
  Step-IsMatured c c' (Step.finalized id r k s f w e) h =
      subst (IsMatured genesis) (sym e) (record {
        window_floor = h.window_floor;
        matured = λ j q kj fj. elim (insert_entry c.records id j _ q kj) [
          | inl (here, written) ↦ inr (ground (arith, written, w, h.window_floor))
          | inr old ↦ h.matured j q old fj
        ];
      })
  Step-IsMatured c c' (Step.rejected id r k s e) h = subst (IsMatured genesis) (sym e) (record {
    window_floor = h.window_floor;
    matured = λ j q kj fj. h.matured j q (reject_loop_finalized _ _ _ c.records j q kj fj) fj;
  })

  run_chain-IsMatured :
      (calls : List ChainCall) (c : AssertionChain)
      → IsMatured genesis c
      → IsMatured genesis (run_chain digest calls c)
  unfolding run_chain
  run_chain-IsMatured [] c h = h
  run_chain-IsMatured (call ∷ calls) c h =
      run_chain-IsMatured calls (chain_call digest call c)
        (Step-IsMatured c _ (chain_call-Step digest call c) h)

new_chain-IsMatured :
    (digest : Bytes → Hash256) (root : Hash256) (window bond : ℕ)
    → IsMatured (assertion_id digest (genesis_assertion root)) (new_chain digest root window bond)
unfolding new_chain insert get
new_chain-IsMatured digest root window bond = record {
  window_floor = omega arith;
  matured = λ id r k f.
      inl
        (ground (arith, k, bytes_ord.eq_of_cmp id (assertion_id digest (genesis_assertion root))));
}

-- Whatever calls a chain has seen since it was created, a finalized assertion other than the
-- genesis was posted at least one challenge window ago, and the window is at least a day.
pub finalized_after_window :
    (digest : Bytes → Hash256) (root : Hash256) (window bond : ℕ) (calls : List ChainCall)
    → IsMatured
        (assertion_id digest (genesis_assertion root))
        (run_chain digest calls (new_chain digest root window bond))
finalized_after_window digest root window bond calls =
    run_chain-IsMatured digest (assertion_id digest (genesis_assertion root)) calls
      (new_chain digest root window bond) (new_chain-IsMatured digest root window bond)
