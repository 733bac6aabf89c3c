-- ===== src/Fraudproof/Assertion/Worklist.antt =====
-- crates/sena-fraudproof/src/assertion.rs: the records and the frontier in a pass of
-- `challenger_won`.
use sena.Fraudproof.Assertion.Step.{status_eq_iff}
use sena.Base.BTreeMap.Sorted.{IsSorted, get-Above, Above-trans}
use sena.Primitives.Hash256.{Hash256}
use sena.Base.{
  List, ℕ, ◌≤◌, ◌∷◌, length, ◌<◌, Elem, All, IsDistinct, if◌then◌else◌, ◌≡◌, arith, ◌⊎◌, [], inl,
  some, sym, inr, ◌+◌, ◌≢◌, none,
}
use sena.Fraudproof.Assertion.Reject.{extend, as_rejected, reject_record}
use sena.Base.BTreeMap.{get, insert}
use sena.Fraudproof.Assertion.{Records, Record, status_eq, Status}
use sena.Primitives.Hash256.Order.{bytes_ord}

-- How many records are not rejected.
abbrev pub open_count : Records → ℕ
open_count [] = 0
open_count ((id, r) ∷ m) = (if status_eq r.status Status.rejected then 0 else 1) + open_count m

-- A record that is open.
abbrev pub IsOpen : Records → Hash256 → Type 0
IsOpen m id = (r : Record) × (get id m ≡ some r) × (r.status ≢ Status.rejected)

-- A record that is open though its parent is rejected.
abbrev pub IsOrphan : Records → Hash256 → Type 0
IsOrphan m id =
    (r p : Record) × (get id m ≡ some r)
    × (r.status ≢ Status.rejected)
    × (get r.assertion.parent m ≡ some p)
    × (p.status ≡ Status.rejected)

-- What the frontier satisfies before each pass.
abbrev pub IsReady : Records → List Hash256 → Type 0
IsReady m [] = Unit
IsReady m (c ∷ f) = IsOpen m c × All (IsOrphan m) f × IsDistinct (c ∷ f)

pub open_count-le : (m : Records) → open_count m ≤ length m
open_count-le [] = omega arith
open_count-le ((id, r) ∷ m) = ground (arith, open_count-le m)

pub open_count_pos : (m : Records) (id : Hash256) → IsOpen m id → 0 < open_count m
unfolding get
open_count_pos [] id h = absurd (ground arith)
open_count_pos ((j, w) ∷ m) id (r, known, o) =
    ground (arith, open_count_pos m id, status_eq_iff w.status Status.rejected)

-- Rejecting an open record leaves one open record fewer.
pub open_count-reject :
    (m : Records) (id : Hash256) (r : Record)
    → IsSorted m
    → get id m ≡ some r
    → r.status ≢ Status.rejected
    → open_count (insert id (as_rejected r) m) + 1 ≡ open_count m
unfolding get insert status_eq
open_count-reject [] id r s known o = absurd (ground arith)
open_count-reject ((j, w) ∷ m) id r s known o = ground (
  arith,
  open_count-reject m id r s.1,
  status_eq_iff w.status Status.rejected,
  get-Above id m,
  Above-trans id j m,
)

pub extend-Elem :
    (ids f : List Hash256) (x : Hash256) → Elem x ids ⊎ Elem x f → Elem x (extend ids f)
unfolding extend
extend-Elem [] f x (inl h) = elim h [ ]
extend-Elem [] f x (inr h) = h
extend-Elem (id ∷ ids) f x (inl (inl h)) = extend-Elem ids (id ∷ f) x (inr (inl h))
extend-Elem (id ∷ ids) f x (inl (inr h)) = extend-Elem ids (id ∷ f) x (inl h)
extend-Elem (id ∷ ids) f x (inr h) = extend-Elem ids (id ∷ f) x (inr (inr h))

pub All-extend {ℓ} :
    (P : Hash256 → Type ℓ) (ids f : List Hash256) → All P ids → All P f → All P (extend ids f)
unfolding extend
All-extend P [] f a b = b
All-extend P (id ∷ ids) f a b = All-extend P ids (id ∷ f) a.1 (a.0, b)

-- No id of the first list is in the second.
abbrev pub Apart : List Hash256 → List Hash256 → Type 0
Apart ids f = All (λ id. ¬ Elem id f) ids

Apart-push : (ids f : List Hash256) (x : Hash256) → ¬ Elem x ids → Apart ids f → Apart ids (x ∷ f)
Apart-push [] f x n a = tt
Apart-push (id ∷ ids) f x n a = (
  λ h. elim h [ inl e ↦ n (inl (sym e)) | inr i ↦ a.0 i ],
  Apart-push ids f x (λ i. n (inr i)) a.1,
)

pub extend-IsDistinct :
    (ids f : List Hash256) → IsDistinct ids → IsDistinct f → Apart ids f → IsDistinct (extend ids f)
unfolding extend
extend-IsDistinct [] f d e a = e
extend-IsDistinct (id ∷ ids) f d e a =
    extend-IsDistinct ids (id ∷ f) d.1 (a.0, e) (Apart-push ids f id d.0 a.1)

pub reject_record-eq :
    (id : Hash256) (m : Records) (r : Record)
    → get id m ≡ some r
    → reject_record id m ≡ insert id (as_rejected r) m
unfolding reject_record
reject_record-eq id m r known = ground (arith, known)

pub reject_record_unknown : (id : Hash256) (m : Records) → get id m ≡ none → reject_record id m ≡ m
unfolding reject_record
reject_record_unknown id m unknown = ground (arith, unknown)
