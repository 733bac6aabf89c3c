-- ===== src/Base/BTreeMap/Entries.antt =====
-- What holds of every entry of a `BTreeMap`, and maps that are rebuilt entry by entry.
use Prim.Native.Nat.Ordering.{lt, eq, gt}
use mathlib.Core.Logic.{◌⊎◌, inl, inr}
use mathlib.Core.Path.{ap₂, ◌≡◌, subst, sym}
use mathlib.Core.Option.{some}
use mathlib.Core.List.{[], ◌∷◌, ◌++◌}
use native.Mathlib.Omega.{arith}
use sena.Base.Lists.{All}
use sena.Base.BTreeMap.{Ord, BTreeMap, get, insert}
use sena.Base.BTreeMap.Sorted.{Above, Below, IsSorted}

gt_of_lt {ℓ} : {K : Type ℓ} ⦃o : Ord K⦄ (j k : K) → o.cmp j k ≡ lt → o.cmp k j ≡ gt
gt_of_lt ⦃o⦄ j k h = ground (arith, h, o.lt_trans j k j, o.cmp_refl j, o.eq_of_cmp k j)

module _ {ℓ κ} {K : Type ℓ} {V : Type κ} ⦃o : Ord K⦄ where
  pub All-insert {μ} :
      (P : K × V → Type μ) (k : K) (v : V) (m : BTreeMap K V)
      → P (k, v)
      → All P m
      → All P (insert k v m)
  unfolding insert
  All-insert P k v [] p a = (p, tt)
  All-insert P k v ((j, w) ∷ m) p a =
      let rest = All-insert P k v m p a.1 in
      elim (o.cmp k j)
        as (λ c.
          All P
            (elim c [ lt ↦ (k, v) ∷ (j, w) ∷ m | eq ↦ (k, v) ∷ m | gt ↦ (j, w) ∷ insert k v m ])) [
              | lt ↦ (p, a)
              | eq ↦ (p, a.1)
              | gt ↦ (a.0, rest)
            ]

  Above-split : (j k : K) (v : V) (l m : BTreeMap K V) → Above j (l ++ (k, v) ∷ m) → o.cmp j k ≡ lt
  Above-split j k v [] m a = a.0
  Above-split j k v ((i, w) ∷ l) m a = Above-split j k v l m a.1

  -- In a sorted map, what stands before an entry is below its key.
  pub IsSorted-Below : (k : K) (v : V) (l m : BTreeMap K V) → IsSorted (l ++ (k, v) ∷ m) → Below k l
  IsSorted-Below k v [] m s = tt
  IsSorted-Below k v ((j, w) ∷ l) m s =
      (gt_of_lt j k (Above-split j k v l m s.0), IsSorted-Below k v l m s.1)

  get-cons :
      (k j : K) (v w : V) (m : BTreeMap K V)
      → get k ((j, w) ∷ m) ≡ some v
      → ((k ≡ j) × (v ≡ w)) ⊎ (get k m ≡ some v)
  unfolding get
  get-cons k j v w m h = ground (arith, o.eq_of_cmp k j)

  pub All-get {μ} :
      (P : K × V → Type μ) (k : K) (v : V) (m : BTreeMap K V)
      → All P m
      → get k m ≡ some v
      → P (k, v)
  unfolding get
  All-get P k v [] a h = absurd (cc)
  All-get P k v ((j, w) ∷ m) a h = elim (get-cons k j v w m h) [
    | inl (e, d) ↦ subst P (ap₂ (λ x y. (x, y)) (sym e) (sym d)) a.0
    | inr rest ↦ All-get P k v m a.1 rest
  ]
