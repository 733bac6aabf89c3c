-- ===== src/Fraudproof/Assertion/Restore.antt =====
-- crates/sena-fraudproof/src/assertion.rs: chains before and after a restart.
use sena.Fraudproof.Assertion.Worklist.{reject_record_unknown, reject_record-eq}
use sena.Fraudproof.Assertion.Matured.{finalized_after_window}
use sena.Fraudproof.Assertion.Consistent.{new_chain_closed}
use sena.Base.BTreeMap.Entries.{All-insert, All-get}
use sena.Fraudproof.Assertion.Snapshot.{IsKeyed, restore, snapshot, restore-snapshot}
use sena.Base.BTreeMap.{insert, get}
use sena.Base.{
  ℕ, All, List, ◌∷◌, refl, suc, Option-cases, zero, ◌∙◌, ◌≡◌, [], ap, inl, subst, sym, inr,
}
use sena.Fraudproof.Assertion.Step.{run_chain, Step, ChainCall, chain_call, chain_call-Step}
use sena.Fraudproof.Assertion.Reject.{reject_loop, reject_step, reject_record, as_rejected}
use sena.Fraudproof.Assertion.{Records, AssertionChain, new_chain, assertion_id}
use sena.Primitives.Hash256.{Bytes, Hash256}
use sena.Primitives.Hash256.Order.{bytes_ord}

module _ (digest : Bytes → Hash256) where
  reject_record-IsKeyed :
      (id : Hash256) (m : Records)
      → All (IsKeyed digest) m
      → All (IsKeyed digest) (reject_record id m)
  reject_record-IsKeyed id m k = elim (Option-cases (get id m)) [
    | inl unknown ↦ subst (All (IsKeyed digest)) (sym (reject_record_unknown id m unknown)) k
    | inr (r, known) ↦ subst (All (IsKeyed digest)) (sym (reject_record-eq id m r known)) (
        All-insert (IsKeyed digest) id (as_rejected r) m (All-get (IsKeyed digest) id r m k known)
          k)
  ]

  reject_loop-IsKeyed :
      (n : ℕ) (f rejected : List Hash256) (m : Records)
      → All (IsKeyed digest) m
      → All (IsKeyed digest) (reject_loop n f rejected m).records
  unfolding reject_loop reject_step
  reject_loop-IsKeyed zero f rejected m k = k
  reject_loop-IsKeyed (suc n) [] rejected m k = k
  reject_loop-IsKeyed (suc n) (c ∷ f) rejected m k =
      let w = reject_step c f rejected m in
      reject_loop-IsKeyed n w.frontier w.rejected w.records (reject_record-IsKeyed c m k)

  Step-IsKeyed :
      (c c' : AssertionChain)
      → Step digest c c'
      → All (IsKeyed digest) c.records
      → All (IsKeyed digest) c'.records
  Step-IsKeyed c c' (Step.refused e) k = rw e k
  Step-IsKeyed c c' (Step.advanced t l e) k = rw e k
  Step-IsKeyed c c' (Step.posted a p kp o e) k =
      rw e (All-insert (IsKeyed digest) _ _ c.records refl k)
  Step-IsKeyed c c' (Step.disputed id r r' kr o o' n same e) k =
      let keyed = All-get (IsKeyed digest) id r c.records k kr in
      rw e (
        All-insert (IsKeyed digest) id r' c.records (keyed ∙ ap (assertion_id digest) (sym same)) k)
  Step-IsKeyed c c' (Step.finalized id r kr s f w e) k =
      rw e (
        All-insert (IsKeyed digest) id _ c.records (All-get (IsKeyed digest) id r c.records k kr) k)
  Step-IsKeyed c c' (Step.rejected id r kr s e) k = rw e (reject_loop-IsKeyed _ _ _ c.records k)

  run_chain-IsKeyed :
      (calls : List ChainCall) (c : AssertionChain)
      → All (IsKeyed digest) c.records
      → All (IsKeyed digest) (run_chain digest calls c).records
  unfolding run_chain
  run_chain-IsKeyed [] c k = k
  run_chain-IsKeyed (call ∷ calls) c k =
      run_chain-IsKeyed calls (chain_call digest call c)
        (Step-IsKeyed c _ (chain_call-Step digest call c) k)

  new_chain-IsKeyed :
      (root : Hash256) (window bond : ℕ)
      → All (IsKeyed digest) (new_chain digest root window bond).records
  unfolding new_chain insert
  new_chain-IsKeyed root window bond = (refl, tt)

  -- A chain that was created and has seen any calls is restored from its snapshot exactly.
  pub restore-snapshot_run :
      (root : Hash256) (window bond : ℕ) (calls : List ChainCall)
      → let c = run_chain digest calls (new_chain digest root window bond) in
        restore digest (snapshot c) ≡ c
  restore-snapshot_run root window bond calls =
      let c = run_chain digest calls (new_chain digest root window bond) in
      restore-snapshot digest c (new_chain_closed digest root window bond calls).sorted
        (run_chain-IsKeyed calls (new_chain digest root window bond)
          (new_chain-IsKeyed root window bond))
        (finalized_after_window digest root window bond calls).window_floor
