-- ===== src/Fraudproof/Assertion/Closed.antt =====
-- crates/sena-fraudproof/src/assertion.rs: what builds on a rejected assertion.
use sena.Fraudproof.Assertion.Worklist.{extend-Elem, reject_record_unknown, reject_record-eq}
use sena.Fraudproof.Assertion.Step.{status_eq_iff}
use sena.Base.BTreeMap.{get, insert, get-insert_self, get-insert_ne}
use sena.Primitives.Hash256.{Hash256, bytes_eq, bytes_eq_iff}
use sena.Fraudproof.Assertion.Reject.{open_children, as_rejected, reject_step, reject_loop, extend}
use sena.Fraudproof.Assertion.{Records, Record, Status, status_eq}
use sena.Base.{
  List, [], ◌≡◌, ◌≢◌, some, ◌⊎◌, Elem, Bool-cases, ◌∷◌, arith, inl, subst, inr, sym, ◌∙◌, none,
  Option-cases, ℕ, ap, suc, zero,
}
use sena.Primitives.Hash256.Order.{bytes_ord}

-- Whatever builds on a rejected record is rejected, but for the ids in `f`.
abbrev pub IsClosedBut : List Hash256 → Records → Type 0
IsClosedBut f m =
    (id : Hash256) (r p : Record)
    → get id m ≡ some r
    → get r.assertion.parent m ≡ some p
    → p.status ≡ Status.rejected
    → (r.status ≡ Status.rejected) ⊎ Elem id f

-- Whatever builds on a rejected record is rejected.
abbrev pub IsClosed : Records → Type 0
IsClosed = IsClosedBut []

-- Writing a record that is open and does not build on a rejected one.
pub insert-IsClosed :
    (m : Records) (id : Hash256) (r : Record)
    → IsClosed m
    → r.status ≢ Status.rejected
    → ((p : Record) → get r.assertion.parent m ≡ some p → p.status ≢ Status.rejected)
    → IsClosed (insert id r m)
insert-IsClosed m id r h o up k s p ks kp pr = elim (Bool-cases (bytes_eq s.assertion.parent id)) [
  | inl above ↦
      let same : s.assertion.parent ≡ id = (bytes_eq_iff _ _).0 above in
      let kp' = subst (λ x. get x (insert id r m) ≡ some p) same kp in
      absurd (o (ground (arith, get-insert_self id r m, kp', pr)))
  | inr apart ↦
      let n : s.assertion.parent ≢ id = λ e. cc (apart, (bytes_eq_iff s.assertion.parent id).1 e) in
      let kp' = sym (get-insert_ne id s.assertion.parent r m n) ∙ kp in
      elim (Bool-cases (bytes_eq k id)) [
        | inl here ↦
            let ks' = subst (λ x. get x (insert id r m) ≡ some s) ((bytes_eq_iff k id).0 here) ks in
            let same : s ≡ r = cc (get-insert_self id r m, ks') in
            absurd (up p (subst (λ x. get x.assertion.parent m ≡ some p) same kp') pr)
        | inr other ↦
            let e : k ≢ id = λ e. cc (other, (bytes_eq_iff k id).1 e) in
            h k s p (sym (get-insert_ne id k r m e) ∙ ks) kp' pr
      ]
]

open_children-Elem :
    (m : Records) (c id : Hash256) (r : Record)
    → get id m ≡ some r
    → r.assertion.parent ≡ c
    → r.status ≢ Status.rejected
    → Elem id (open_children c m)
unfolding open_children get
open_children-Elem [] c id r k p o = absurd (cc)
open_children-Elem ((j, w) ∷ m) c id r k p o = ground (
  arith,
  bytes_ord.eq_of_cmp id j,
  bytes_eq_iff w.assertion.parent c,
  status_eq_iff w.status Status.rejected,
  open_children-Elem m c id r,
)

-- Rejecting the record on top, with its open children pushed.
reject_known :
    (m : Records) (c : Hash256) (q : Record) (f : List Hash256)
    → get c m ≡ some q
    → IsClosedBut (c ∷ f) m
    → let m' = insert c (as_rejected q) m in IsClosedBut (extend (open_children c m') f) m'
reject_known m c q f known h k r p kr kp pr =
    let m' = insert c (as_rejected q) m in
    elim (Bool-cases (bytes_eq k c)) [
      | inl here ↦
          let kr' = subst (λ x. get x m' ≡ some r) ((bytes_eq_iff k c).0 here) kr in
          let same : r ≡ as_rejected q = cc (get-insert_self c (as_rejected q) m, kr') in
          inl (ap (λ x. x.status) same)
      | inr other ↦
          let n : k ≢ c = λ e. cc (other, (bytes_eq_iff k c).1 e) in
          let kr' = sym (get-insert_ne c k (as_rejected q) m n) ∙ kr in
          elim (Bool-cases (status_eq r.status Status.rejected)) [
            | inl done ↦ inl ((status_eq_iff r.status Status.rejected).0 done)
            | inr open' ↦
                let o : r.status ≢ Status.rejected =
                  λ e. cc (open', (status_eq_iff r.status Status.rejected).1 e) in
                elim (Bool-cases (bytes_eq r.assertion.parent c)) [
                  | inl child ↦ inr (
                      extend-Elem (open_children c m') f k
                        (inl (open_children-Elem m' c k r kr ((bytes_eq_iff _ _).0 child) o)))
                  | inr elsewhere ↦
                      let a : r.assertion.parent ≢ c =
                        λ e. cc (elsewhere, (bytes_eq_iff r.assertion.parent c).1 e) in
                      let kp' = sym (get-insert_ne c r.assertion.parent (as_rejected q) m a) ∙ kp in
                      elim (h k r p kr' kp' pr) [
                        | inl done ↦ inl done
                        | inr (inl e) ↦ absurd (n e)
                        | inr (inr i) ↦ inr (extend-Elem (open_children c m') f k (inr i))
                      ]
                ]
          ]
    ]

-- A pass over an id that the chain does not know.
reject_unknown :
    (m : Records) (c : Hash256) (f : List Hash256)
    → get c m ≡ none
    → IsClosedBut (c ∷ f) m
    → IsClosedBut (extend (open_children c m) f) m
reject_unknown m c f unknown h k r p kr kp pr = elim (h k r p kr kp pr) [
  | inl done ↦ inl done
  | inr (inl e) ↦ absurd (cc (unknown, subst (λ x. get x m ≡ some r) e kr))
  | inr (inr i) ↦ inr (extend-Elem (open_children c m) f k (inr i))
]

reject_step-IsClosedBut :
    (c : Hash256) (f rejected : List Hash256) (m : Records)
    → IsClosedBut (c ∷ f) m
    → let w = reject_step c f rejected m in IsClosedBut w.frontier w.records
unfolding reject_step
reject_step-IsClosedBut c f rejected m h = elim (Option-cases (get c m)) [
  | inl unknown ↦
      subst (λ x. IsClosedBut (extend (open_children c x) f) x)
        (sym (reject_record_unknown c m unknown)) (reject_unknown m c f unknown h)
  | inr (q, known) ↦
      subst (λ x. IsClosedBut (extend (open_children c x) f) x) (sym (reject_record-eq c m q known))
        (reject_known m c q f known h)
]

pub reject_loop-IsClosedBut :
    (n : ℕ) (f rejected : List Hash256) (m : Records)
    → IsClosedBut f m
    → let w = reject_loop n f rejected m in IsClosedBut w.frontier w.records
unfolding reject_loop
reject_loop-IsClosedBut zero f rejected m h = h
reject_loop-IsClosedBut (suc n) [] rejected m h = h
reject_loop-IsClosedBut (suc n) (c ∷ f) rejected m h =
    let w = reject_step c f rejected m in
    reject_loop-IsClosedBut n w.frontier w.rejected w.records
      (reject_step-IsClosedBut c f rejected m h)
