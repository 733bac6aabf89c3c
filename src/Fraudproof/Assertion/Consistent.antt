-- ===== src/Fraudproof/Assertion/Consistent.antt =====
-- crates/sena-fraudproof/src/assertion.rs: the calls of a chain and what they reject.
use sena.Fraudproof.Assertion.Dry.{worklist_runs_dry}
use sena.Fraudproof.Assertion.Worklist.{reject_record_unknown, reject_record-eq}
use sena.Base.BTreeMap.{get, insert}
use sena.Fraudproof.Assertion.Step.{Step, run_chain, ChainCall, chain_call, chain_call-Step}
use sena.Fraudproof.Assertion.Closed.{
  IsClosed, insert-IsClosed, IsClosedBut, reject_loop-IsClosedBut,
}
use sena.Base.{
  ℕ, List, subst, ◌≡◌, sym, arith, suc, ◌∷◌, some, Option-cases, ◌≢◌, inl, length, [], inr, zero,
}
use sena.Base.BTreeMap.Sorted.{IsSorted, insert-IsSorted}
use sena.Primitives.Hash256.{Bytes, Hash256}
use sena.Fraudproof.Assertion.{AssertionChain, Records, Record, new_chain, Status}
use sena.Fraudproof.Assertion.Reject.{reject_loop, reject_step, as_rejected}
use sena.Primitives.Hash256.Order.{bytes_ord}

reject_loop-IsSorted :
    (n : ℕ) (f rejected : List Hash256) (m : Records)
    → IsSorted m
    → IsSorted (reject_loop n f rejected m).records
unfolding reject_loop reject_step
reject_loop-IsSorted zero f rejected m s = s
reject_loop-IsSorted (suc n) [] rejected m s = s
reject_loop-IsSorted (suc n) (c ∷ f) rejected m s =
    let w = reject_step c f rejected m in
    let s' : IsSorted w.records = elim (Option-cases (get c m)) [
      | inl unknown ↦ subst IsSorted (sym (reject_record_unknown c m unknown)) s
      | inr (q, known) ↦
          subst IsSorted (sym (reject_record-eq c m q known))
            (insert-IsSorted c (as_rejected q) m s)
    ] in
    reject_loop-IsSorted n w.frontier w.rejected w.records s'

-- The records are in key order, and nothing that builds on a rejected record stands.
pub record IsConsistent (c : AssertionChain) : Type 0 where
  pub sorted : IsSorted c.records
  pub closed : IsClosed c.records

-- The parent of an open record is open.
open_parent :
    (m : Records) (id : Hash256) (r p : Record)
    → IsClosed m
    → get id m ≡ some r
    → r.status ≢ Status.rejected
    → get r.assertion.parent m ≡ some p
    → p.status ≢ Status.rejected
open_parent m id r p h k o kp pr = elim (h id r p k kp pr) [ inl done ↦ o done | inr i ↦ i ]

module _ (digest : Bytes → Hash256) where
  pub Step-IsConsistent :
      (c c' : AssertionChain) → Step digest c c' → IsConsistent c → IsConsistent c'
  Step-IsConsistent c c' (Step.refused e) h = subst IsConsistent (sym e) h
  Step-IsConsistent c c' (Step.advanced t l e) h =
      subst IsConsistent (sym e) (record { sorted = h.sorted; closed = h.closed })
  Step-IsConsistent c c' (Step.posted a p k o e) h = subst IsConsistent (sym e) (record {
    sorted = insert-IsSorted _ _ c.records h.sorted;
    closed = insert-IsClosed c.records _ _ h.closed (ground arith) (λ q kq.
        let same : p ≡ q = cc (k, kq) in subst (λ (x : Record). x.status ≢ Status.rejected) same o);
  })
  Step-IsConsistent c c' (Step.disputed id r r' k o o' n same e) h =
      subst IsConsistent (sym e) (record {
        sorted = insert-IsSorted _ _ c.records h.sorted;
        closed = insert-IsClosed c.records id r' h.closed o' (λ p kp.
            open_parent c.records id r p h.closed k o
              (subst (λ x. get x.parent c.records ≡ some p) same kp));
      })
  Step-IsConsistent c c' (Step.finalized id r k s f w e) h = subst IsConsistent (sym e) (record {
    sorted = insert-IsSorted _ _ c.records h.sorted;
    closed =
        insert-IsClosed c.records id _ h.closed (ground arith)
          (λ p kp. open_parent c.records id r p h.closed k (ground (arith, s)) kp);
  })
  Step-IsConsistent c c' (Step.rejected id r k s e) h =
      let w = reject_loop (length c.records) (id ∷ []) [] c.records in
      let dry = worklist_runs_dry id c.records h.sorted (r, k, ground (arith, s)) in
      let but : IsClosedBut (id ∷ []) c.records = λ j r p kr kp pr. elim (h.closed j r p kr kp pr) [
        | inl done ↦ inl done
        | inr i ↦ absurd i
      ] in
      subst IsConsistent (sym e) (record {
        sorted = reject_loop-IsSorted _ _ _ c.records h.sorted;
        closed =
            subst (λ f. IsClosedBut f w.records) dry
              (reject_loop-IsClosedBut (length c.records) (id ∷ []) [] c.records but);
      })

  new_chain-IsConsistent :
      (root : Hash256) (window bond : ℕ) → IsConsistent (new_chain digest root window bond)
  unfolding new_chain insert get
  new_chain-IsConsistent root window bond = record {
    sorted = (tt, tt);
    closed = λ id r p kr kp pr. absurd (ground (arith, kp, pr));
  }

  run_chain-IsConsistent :
      (calls : List ChainCall) (c : AssertionChain)
      → IsConsistent c
      → IsConsistent (run_chain digest calls c)
  unfolding run_chain
  run_chain-IsConsistent [] c h = h
  run_chain-IsConsistent (call ∷ calls) c h =
      run_chain-IsConsistent calls (chain_call digest call c)
        (Step-IsConsistent c _ (chain_call-Step digest call c) h)

  -- Whatever calls a chain has seen since it was created, and however many were refused, its
  -- records are in key order and an assertion that builds on a rejected assertion is rejected.
  pub new_chain_closed :
      (root : Hash256) (window bond : ℕ) (calls : List ChainCall)
      → IsConsistent (run_chain digest calls (new_chain digest root window bond))
  new_chain_closed root window bond calls =
      run_chain-IsConsistent calls (new_chain digest root window bond)
        (new_chain-IsConsistent root window bond)
