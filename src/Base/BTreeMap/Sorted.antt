-- ===== src/Base/BTreeMap/Sorted.antt =====
-- The order of a `BTreeMap`: its keys rise strictly, so a map is determined by its entries.
use Prim.Native.Nat.Ordering.{lt, gt}
use mathlib.Core.Path.{◌≡◌, refl}
use mathlib.Core.Logic.{◌≢◌}
use mathlib.Core.Option.{none, some}
use mathlib.Core.List.{[], ◌∷◌, ◌++◌}
use native.Mathlib.Omega.{arith}
use sena.Base.BTreeMap.{Ord, BTreeMap, get, insert, remove}

module _ {ℓ κ} {K : Type ℓ} {V : Type κ} ⦃o : Ord K⦄ where
  -- Every key is greater than `k`.
  abbrev pub Above : K → BTreeMap K V → Type 0
  Above k [] = Unit
  Above k ((j, w) ∷ m) = (o.cmp k j ≡ lt) × Above k m

  -- Every key is less than `k`.
  abbrev pub Below : K → BTreeMap K V → Type 0
  Below k [] = Unit
  Below k ((j, w) ∷ m) = (o.cmp k j ≡ gt) × Below k m

  abbrev pub IsSorted : BTreeMap K V → Type 0
  IsSorted [] = Unit
  IsSorted ((k, v) ∷ m) = Above k m × IsSorted m

  pub Above-trans : (j k : K) (m : BTreeMap K V) → o.cmp j k ≡ lt → Above k m → Above j m
  Above-trans j k [] h a = tt
  Above-trans j k ((i, w) ∷ m) h a = (o.lt_trans j k i h a.0, Above-trans j k m h a.1)

  pub Above-insert :
      (j k : K) (v : V) (m : BTreeMap K V) → o.cmp j k ≡ lt → Above j m → Above j (insert k v m)
  unfolding insert
  Above-insert j k v [] h a = (h, tt)
  Above-insert j k v ((i, w) ∷ m) h a = ground (arith, Above-insert j k v m h a.1)

  pub insert-IsSorted : (k : K) (v : V) (m : BTreeMap K V) → IsSorted m → IsSorted (insert k v m)
  unfolding insert
  insert-IsSorted k v [] s = (tt, tt)
  insert-IsSorted k v ((j, w) ∷ m) s = ground (
    arith,
    insert-IsSorted k v m s.1,
    Above-trans k j m,
    Above-insert j k v m,
    o.eq_of_cmp k j,
    o.lt_of_gt k j,
  )

  pub Above-remove : (j k : K) (m : BTreeMap K V) → Above j m → Above j (remove k m)
  unfolding remove
  Above-remove j k [] a = tt
  Above-remove j k ((i, w) ∷ m) a = ground (arith, Above-remove j k m a.1)

  pub remove-IsSorted : (k : K) (m : BTreeMap K V) → IsSorted m → IsSorted (remove k m)
  unfolding remove
  remove-IsSorted k [] s = tt
  remove-IsSorted k ((j, w) ∷ m) s = ground (arith, remove-IsSorted k m s.1, Above-remove j k m s.0)

  pub get-Above : (k : K) (m : BTreeMap K V) → Above k m → get k m ≡ none
  unfolding get
  get-Above k [] a = refl
  get-Above k ((j, w) ∷ m) a = ground (arith, get-Above k m a.1)

  pub get-remove_self : (k : K) (m : BTreeMap K V) → IsSorted m → get k (remove k m) ≡ none
  unfolding get remove
  get-remove_self k [] s = refl
  get-remove_self k ((j, w) ∷ m) s =
      ground (arith, get-remove_self k m s.1, o.eq_of_cmp k j, get-Above k m)

  pub get-remove_ne : (k p : K) (m : BTreeMap K V) → p ≢ k → get p (remove k m) ≡ get p m
  unfolding get remove
  get-remove_ne k p [] n = refl
  get-remove_ne k p ((j, w) ∷ m) n =
      ground (arith, get-remove_ne k p m n, o.eq_of_cmp k j, o.eq_of_cmp p j)

  -- Removing a key that was new gives back the map.
  pub remove-insert_new :
      (k : K) (v : V) (m : BTreeMap K V) → get k m ≡ none → remove k (insert k v m) ≡ m
  unfolding get insert remove
  remove-insert_new k v [] h = ground (arith, o.cmp_refl k)
  remove-insert_new k v ((j, w) ∷ m) h = ground (arith, o.cmp_refl k, remove-insert_new k v m)

  -- A later write of a key hides an earlier one.
  pub insert-insert :
      (k : K) (v w : V) (m : BTreeMap K V) → insert k w (insert k v m) ≡ insert k w m
  unfolding insert
  insert-insert k v w [] = ground (arith, o.cmp_refl k)
  insert-insert k v w ((j, u) ∷ m) = ground (arith, o.cmp_refl k, insert-insert k v w m)

  -- Writing what is there changes nothing.
  pub insert_same :
      (k : K) (v : V) (m : BTreeMap K V) → IsSorted m → get k m ≡ some v → insert k v m ≡ m
  unfolding get insert
  insert_same k v [] s h = absurd (cc)
  insert_same k v ((j, w) ∷ m) s h =
      ground (arith, o.eq_of_cmp k j, insert_same k v m s.1, get-Above k m, Above-trans k j m)

  -- A greatest key goes to the end.
  pub insert_last : (k : K) (v : V) (m : BTreeMap K V) → Below k m → insert k v m ≡ m ++ (k, v) ∷ []
  unfolding insert
  insert_last k v [] b = refl
  insert_last k v ((j, w) ∷ m) b = ground (arith, insert_last k v m b.1)

  pub Below-append :
      (k j : K) (w : V) (m : BTreeMap K V) → Below k m → o.cmp k j ≡ gt → Below k (m ++ (j, w) ∷ [])
  Below-append k j w [] b h = (h, tt)
  Below-append k j w ((i, u) ∷ m) b h = (b.0, Below-append k j w m b.1 h)

  Above-append :
      (k j : K) (w : V) (m : BTreeMap K V) → Above k m → o.cmp k j ≡ lt → Above k (m ++ (j, w) ∷ [])
  Above-append k j w [] a h = (h, tt)
  Above-append k j w ((i, u) ∷ m) a h = (a.0, Above-append k j w m a.1 h)

  -- A greatest key at the end keeps the order.
  pub IsSorted-append :
      (k : K) (v : V) (m : BTreeMap K V) → IsSorted m → Below k m → IsSorted (m ++ (k, v) ∷ [])
  IsSorted-append k v [] s b = (tt, tt)
  IsSorted-append k v ((j, w) ∷ m) s b =
      (Above-append j k v m s.0 (o.lt_of_gt k j b.0), IsSorted-append k v m s.1 b.1)
