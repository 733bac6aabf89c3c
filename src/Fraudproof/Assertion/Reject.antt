-- ===== src/Fraudproof/Assertion/Reject.antt =====
-- crates/sena-fraudproof/src/assertion.rs: the worklist of `challenger_won`. The stack `frontier`
-- has its top first.
use sena.Base.BTreeMap.{get, insert}
use sena.Base.{List, ℕ, ◌∷◌, suc, if◌then◌else◌, [], zero, none, some, ◌++◌, ◌&&◌, not}
use sena.Primitives.Hash256.{Hash256, bytes_eq}
use sena.Fraudproof.Assertion.{Record, status_eq, Records, Status}
use sena.Primitives.Hash256.Order.{bytes_ord}

-- `record.status = Status::Rejected; record.open_challenges = 0`
abbrev pub as_rejected : Record → Record
as_rejected r = record r { status = Status.rejected; open_challenges = 0 }

-- The `if let Some(record)` of the loop, on the records.
unfoldable pub reject_record : Hash256 → Records → Records
reject_record id m = elim (get id m) [ none ↦ m | some r ↦ insert id (as_rejected r) m ]

-- The same, on the list of what was rejected.
unfoldable pub push_rejected : Hash256 → Records → List Hash256 → List Hash256
push_rejected id m rejected = elim (get id m) [ none ↦ rejected | some r ↦ rejected ++ id ∷ [] ]

-- The ids of the records that build on `parent` and are not rejected, in key order.
unfoldable pub open_children : Hash256 → Records → List Hash256
unfolding status_eq
open_children parent [] = []
open_children parent ((id, r) ∷ m) =
    let rest = open_children parent m in
    if bytes_eq r.assertion.parent parent && not (status_eq r.status Status.rejected)
    then id ∷ rest
    else rest

-- `frontier.extend(ids)`
unfoldable pub extend : List Hash256 → List Hash256 → List Hash256
extend [] frontier = frontier
extend (id ∷ ids) frontier = extend ids (id ∷ frontier)

pub record Worklist : Type 0 where
  pub records : Records
  pub rejected : List Hash256
  pub frontier : List Hash256

-- One pass of the loop, with `current` popped.
unfoldable pub reject_step : Hash256 → List Hash256 → List Hash256 → Records → Worklist
unfolding reject_record push_rejected open_children extend
reject_step current frontier rejected m =
    let m' = reject_record current m in
    record {
      records = m';
      rejected = push_rejected current m rejected;
      frontier = extend (open_children current m') frontier;
    }

-- The loop `while let Some(current) = frontier.pop()`, on fuel.
unfoldable pub reject_loop : ℕ → List Hash256 → List Hash256 → Records → Worklist
unfolding reject_step
reject_loop zero frontier rejected m = record {
  records = m;
  rejected = rejected;
  frontier = frontier;
}
reject_loop (suc n) [] rejected m = record { records = m; rejected = rejected; frontier = [] }
reject_loop (suc n) (current ∷ frontier) rejected m =
    let w = reject_step current frontier rejected m in reject_loop n w.frontier w.rejected w.records
