-- ===== src/Fraudproof/Assertion/Dry.antt =====
-- crates/sena-fraudproof/src/assertion.rs: how many passes the worklist of
-- `challenger_won` takes.
use sena.Fraudproof.Assertion.Worklist.{
  IsOrphan, Apart, IsReady, IsOpen, open_count, open_count-le, open_count_pos, All-extend,
  extend-IsDistinct, open_count-reject, reject_record-eq,
}
use sena.Fraudproof.Assertion.Step.{status_eq_iff}
use sena.Base.{
  ◌≡◌, All, IsDistinct, some, ◌∷◌, ◌≢◌, arith, [], ◌⊎◌, All-map, Elem, Bool-cases, All-Elem, inl,
  inr, ◌&&◌, not, refl, List, sym, subst, ◌∙◌, ap, ℕ, length, ◌+◌, ◌≤◌, suc, zero,
}
use sena.Base.BTreeMap.Sorted.{IsSorted, Above, get-Above, insert-IsSorted}
use sena.Primitives.Hash256.{Hash256, bytes_eq, bytes_eq_iff}
use sena.Fraudproof.Assertion.Reject.{open_children, as_rejected, reject_step, reject_loop, extend}
use sena.Base.BTreeMap.{get, insert, get-insert_ne, get-insert_self}
use sena.Fraudproof.Assertion.{Records, Record, Status, status_eq}
use sena.Primitives.Hash256.Order.{bytes_ord}

-- A child of `c` that is open.
abbrev IsChild : Records → Hash256 → Hash256 → Type 0
IsChild m c id =
    (r : Record) × (get id m ≡ some r) × (r.assertion.parent ≡ c) × (r.status ≢ Status.rejected)

get_first : (j : Hash256) (w : Record) (m : Records) → get j ((j, w) ∷ m) ≡ some w
unfolding get
get_first j w m = ground (arith, bytes_ord.cmp_refl j)

IsChild-cons :
    (j : Hash256) (w : Record) (m : Records) (c id : Hash256)
    → Above j m
    → IsChild m c id
    → IsChild ((j, w) ∷ m) c id
unfolding get
IsChild-cons j w m c id a (r, known, p, o) =
    (r, ground (arith, get-Above j m a, bytes_ord.eq_of_cmp id j), p, o)

open_children-cases :
    (j : Hash256) (w : Record) (m : Records) (c : Hash256)
    → ((open_children c ((j, w) ∷ m) ≡ j ∷ open_children c m)
        × (w.assertion.parent ≡ c)
        × (w.status ≢ Status.rejected))
      ⊎ (open_children c ((j, w) ∷ m) ≡ open_children c m)
unfolding open_children
open_children-cases j w m c =
    elim (Bool-cases (bytes_eq w.assertion.parent c && not (status_eq w.status Status.rejected))) [
      | inl child ↦ inl (
          ground (arith, bytes_eq_iff w.assertion.parent c, status_eq_iff w.status Status.rejected))
      | inr other ↦ inr (rw other refl)
    ]

open_children-IsChild :
    (m : Records) (c : Hash256) → IsSorted m → All (IsChild m c) (open_children c m)
unfolding open_children
open_children-IsChild [] c s = tt
open_children-IsChild ((j, w) ∷ m) c s =
    let rest : All (IsChild ((j, w) ∷ m) c) (open_children c m) =
      All-map (open_children c m) (λ id. IsChild-cons j w m c id s.0)
        (open_children-IsChild m c s.1) in
    let here : get j ((j, w) ∷ m) ≡ some w = get_first j w m in
    elim (open_children-cases j w m c) [
      | inl (e, p, o) ↦ rw e ((w, here, p, o), rest)
      | inr e ↦ rw e rest
    ]

open_children-IsDistinct : (m : Records) (c : Hash256) → IsSorted m → IsDistinct (open_children c m)
unfolding open_children
open_children-IsDistinct [] c s = tt
open_children-IsDistinct ((j, w) ∷ m) c s =
    let rest = open_children-IsDistinct m c s.1 in
    let fresh : ¬ Elem j (open_children c m) = λ i.
      let (r, known, p, o) =
        All-Elem (IsChild m c) (open_children c m) j (open_children-IsChild m c s.1) i in
      cc (get-Above j m s.0, known) in
    elim (open_children-cases j w m c) [ inl (e, p, o) ↦ rw e (fresh, rest) | inr e ↦ rw e rest ]

-- An orphan on the frontier stays one when the open record `c` is rejected.
IsOrphan-insert :
    (m : Records) (c id : Hash256) (q : Record)
    → get c m ≡ some q
    → q.status ≢ Status.rejected
    → ¬ (c ≡ id)
    → IsOrphan m id
    → IsOrphan (insert c (as_rejected q) m) id
IsOrphan-insert m c id q known o n (r, p, k, ro, kp, pr) =
    let other : r.assertion.parent ≢ c = λ e. o (ground (arith, e)) in
    (
      r,
      p,
      get-insert_ne c id (as_rejected q) m (λ e. n (sym e)) ∙ k,
      ro,
      get-insert_ne c r.assertion.parent (as_rejected q) m other ∙ kp,
      pr,
    )

-- An open child of a rejected record is an orphan.
IsOrphan-child :
    (m : Records) (c id : Hash256) (q : Record)
    → get c m ≡ some q
    → q.status ≡ Status.rejected
    → IsChild m c id
    → IsOrphan m id
IsOrphan-child m c id q known rejected (r, k, p, o) = (r, q, k, o, rw p known, rejected)

orphan_no_child :
    (m : Records) (c id : Hash256) (q r : Record)
    → get c m ≡ some q
    → q.status ≢ Status.rejected
    → get id m ≡ some r
    → r.assertion.parent ≡ c
    → IsOrphan m id
    → ⊥
orphan_no_child m c id q r known o k p (r', p', k', ro, kp, pr) =
    let same : r' ≡ r = cc (k, k') in
    let up : get c m ≡ some p' =
      subst (λ x. get x m ≡ some p') (ap (λ x. x.assertion.parent) same ∙ p) kp in
    let parents : p' ≡ q = cc (up, known) in o (sym (ap (λ x. x.status) parents) ∙ pr)

-- No orphan is a child of an open record.
children-Apart :
    (m : Records) (c : Hash256) (q : Record) (ids f : List Hash256)
    → get c m ≡ some q
    → q.status ≢ Status.rejected
    → All (IsChild (insert c (as_rejected q) m) c) ids
    → All (IsOrphan m) f
    → ¬ Elem c f
    → Apart ids f
children-Apart m c q [] f known o ch orphans n = tt
children-Apart m c q (id ∷ ids) f known o ch orphans n = (
  λ i.
      let (r, k, p, ro) = ch.0 in
      let other : id ≢ c = λ e. n (subst (λ x. Elem x f) e i) in
      let old = sym (get-insert_ne c id (as_rejected q) m other) ∙ k in
      orphan_no_child m c id q r known o old p (All-Elem (IsOrphan m) f id orphans i),
  children-Apart m c q ids f known o ch.1 orphans n,
)

-- The orphans that are left when the open record `c` is rejected.
orphans_left :
    (m : Records) (c : Hash256) (q : Record) (f : List Hash256)
    → get c m ≡ some q
    → q.status ≢ Status.rejected
    → ¬ Elem c f
    → All (IsOrphan m) f
    → All (IsOrphan (insert c (as_rejected q) m)) f
orphans_left m c q [] known o n h = tt
orphans_left m c q (id ∷ f) known o n h = (
  IsOrphan-insert m c id q known o (λ e. n (inl e)) h.0,
  orphans_left m c q f known o (λ i. n (inr i)) h.1,
)

-- A frontier of distinct orphans is ready.
orphans-IsReady : (m : Records) (f : List Hash256) → All (IsOrphan m) f → IsDistinct f → IsReady m f
orphans-IsReady m [] h d = tt
orphans-IsReady m (id ∷ f) ((r, p, k, o, kp, pr), h) d = ((r, k, o), h, d)

-- A pass leaves the frontier ready and one open record fewer.
reject_step-IsReady :
    (c : Hash256) (f rejected : List Hash256) (m : Records)
    → IsSorted m
    → IsReady m (c ∷ f)
    → let w = reject_step c f rejected m in
      IsSorted w.records × IsReady w.records w.frontier × (open_count w.records + 1 ≡ open_count m)
unfolding reject_step
reject_step-IsReady c f rejected m s ((q, known, o), orphans, (n, d)) =
    let m' = insert c (as_rejected q) m in
    let s' = insert-IsSorted c (as_rejected q) m s in
    let ch = open_children-IsChild m' c s' in
    let all =
      All-extend (IsOrphan m') (open_children c m') f
        (All-map (open_children c m')
          (λ id. IsOrphan-child m' c id (as_rejected q) (get-insert_self c (as_rejected q) m) refl)
          ch)
        (orphans_left m c q f known o n orphans) in
    let distinct =
      extend-IsDistinct (open_children c m') f (open_children-IsDistinct m' c s') d
        (children-Apart m c q (open_children c m') f known o ch orphans n) in
    subst
      (λ x.
        IsSorted x × IsReady x (extend (open_children c x) f) × (open_count x + 1 ≡ open_count m))
      (sym (reject_record-eq c m q known))
      (
        s',
        orphans-IsReady m' (extend (open_children c m') f) all distinct,
        open_count-reject m c q s known o,
      )

-- Fuel for each open record empties the frontier.
reject_loop_done :
    (n : ℕ) (f rejected : List Hash256) (m : Records)
    → IsSorted m
    → IsReady m f
    → open_count m ≤ n
    → (reject_loop n f rejected m).frontier ≡ []
unfolding reject_loop
reject_loop_done zero [] rejected m s h l = refl
reject_loop_done zero (c ∷ f) rejected m s h l = absurd (omega (arith, open_count_pos m c h.0))
reject_loop_done (suc n) [] rejected m s h l = refl
reject_loop_done (suc n) (c ∷ f) rejected m s h l =
    let w = reject_step c f rejected m in
    let (s', h', e) = reject_step-IsReady c f rejected m s h in
    reject_loop_done n w.frontier w.rejected w.records s' h' (omega (arith, e, l))

-- Over records in key order, the worklist that starts at one record that is not rejected is
-- empty after at most one pass for each record.
pub worklist_runs_dry :
    (id : Hash256) (m : Records)
    → IsSorted m
    → IsOpen m id
    → (reject_loop (length m) (id ∷ []) [] m).frontier ≡ []
worklist_runs_dry id m s h =
    reject_loop_done (length m) (id ∷ []) [] m s (h, tt, ((λ i. i), tt)) (open_count-le m)
