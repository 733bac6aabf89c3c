-- ===== src/Fraudproof/Assertion/Snapshot.antt =====
-- crates/sena-fraudproof/src/assertion.rs: the snapshot that keeps a chain across restarts.
use sena.Base.BTreeMap.Entries.{IsSorted-Below}
use sena.Base.BTreeMap.{insert}
use sena.Base.BTreeMap.Sorted.{IsSorted, insert_last}
use sena.Primitives.Hash256.{Bytes, Hash256}
use sena.Fraudproof.Assertion.{
  Records, AssertionChain, Record, assertion_id, challenge_window_floor,
}
use sena.Base.{List, Option, ◌∷◌, [], ◌≡◌, ℕ, max, ◌++◌, All, sym, subst, ◌≤◌, arith, ap, ◌∙◌}
use mathlib.Core.List.{append_assoc, append-nil}
use sena.Primitives.Hash256.Order.{bytes_ord}

pub record ChainSnapshot : Type 0 where
  pub records : List Record
  pub latest_finalized : Option Hash256
  pub challenge_window : ℕ
  pub minimum_bond : ℕ
  pub now : ℕ

abbrev pub values : Records → List Record
values [] = []
values ((id, r) ∷ m) = r ∷ values m

-- `AssertionChain::snapshot`
unfoldable pub snapshot : AssertionChain → ChainSnapshot
snapshot c = record {
  records = values c.records;
  latest_finalized = c.latest_finalized;
  challenge_window = c.challenge_window;
  minimum_bond = c.minimum_bond;
  now = c.now;
}

module _ (digest : Bytes → Hash256) where
  -- The loop of `restore` over the records that are left.
  unfoldable pub restore_records : Records → List Record → Records
  restore_records m [] = m
  restore_records m (r ∷ rs) = restore_records (insert (assertion_id digest r.assertion) r m) rs

  -- `AssertionChain::restore`
  unfoldable pub restore : ChainSnapshot → AssertionChain
  unfolding restore_records
  restore s = record {
    records = restore_records [] s.records;
    latest_finalized = s.latest_finalized;
    challenge_window = max s.challenge_window challenge_window_floor;
    minimum_bond = s.minimum_bond;
    now = s.now;
  }

  -- An entry whose key is its assertion's id.
  abbrev pub IsKeyed : Hash256 × Record → Type 0
  IsKeyed e = e.0 ≡ assertion_id digest e.1.assertion

  restore_records-values :
      (m rest : Records)
      → IsSorted (m ++ rest)
      → All IsKeyed rest
      → restore_records m (values rest) ≡ m ++ rest
  unfolding restore_records
  restore_records-values m [] s k = sym (append-nil m)
  restore_records-values m ((id, r) ∷ rest) s k =
      let placed : insert (assertion_id digest r.assertion) r m ≡ m ++ (id, r) ∷ [] =
        subst (λ x. insert x r m ≡ m ++ (id, r) ∷ []) k.0
          (insert_last id r m (IsSorted-Below id r m rest s)) in
      let regroup : (m ++ (id, r) ∷ []) ++ rest ≡ m ++ (id, r) ∷ rest =
        append_assoc m ((id, r) ∷ []) rest in
      ap (λ x. restore_records x (values rest)) placed
      ∙ restore_records-values (m ++ (id, r) ∷ []) rest (subst IsSorted (sym regroup) s) k.1
      ∙ regroup

  -- A chain in key order, whose records stand under their assertions' ids and whose window is at
  -- least the floor, is restored from its snapshot.
  pub restore-snapshot :
      (c : AssertionChain)
      → IsSorted c.records
      → All IsKeyed c.records
      → challenge_window_floor ≤ c.challenge_window
      → restore (snapshot c) ≡ c
  unfolding restore snapshot
  restore-snapshot c s k w =
      let same = restore_records-values [] c.records s k in
      let window : max c.challenge_window challenge_window_floor ≡ c.challenge_window =
        omega arith in
      ground (arith, same, window)
