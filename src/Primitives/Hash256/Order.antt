-- ===== src/Primitives/Hash256/Order.antt =====
-- crates/sena-primitives/src/hash.rs: the derived `Ord` of `Hash256`, byte by byte.
use Prim.Native.Nat.{eq, gt, lt}
use sena.Base.{Ordering, ◌≡◌, ◌∷◌, arith, [], compare, refl}
use sena.Base.BTreeMap.{Ord}
use sena.Primitives.Hash256.{Bytes}

unfoldable pub bytes_cmp : Bytes → Bytes → Ordering
bytes_cmp [] [] = eq
bytes_cmp [] (b ∷ bs) = lt
bytes_cmp (a ∷ as') [] = gt
bytes_cmp (a ∷ as') (b ∷ bs) =
    let rest = bytes_cmp as' bs in elim (compare a b) [ lt ↦ lt | eq ↦ rest | gt ↦ gt ]

pub bytes_cmp_refl : (a : Bytes) → bytes_cmp a a ≡ eq
unfolding bytes_cmp
bytes_cmp_refl [] = refl
bytes_cmp_refl (a ∷ as') = ground (arith, bytes_cmp_refl as')

pub eq_of_bytes_cmp : (a b : Bytes) → bytes_cmp a b ≡ eq → a ≡ b
unfolding bytes_cmp
eq_of_bytes_cmp [] [] h = refl
eq_of_bytes_cmp [] (b ∷ bs) h = absurd (ground arith)
eq_of_bytes_cmp (a ∷ as') [] h = absurd (ground arith)
eq_of_bytes_cmp (a ∷ as') (b ∷ bs) h = ground (arith, eq_of_bytes_cmp as' bs)

pub lt_of_bytes_gt : (a b : Bytes) → bytes_cmp a b ≡ gt → bytes_cmp b a ≡ lt
unfolding bytes_cmp
lt_of_bytes_gt [] [] h = absurd (ground arith)
lt_of_bytes_gt [] (b ∷ bs) h = absurd (ground arith)
lt_of_bytes_gt (a ∷ as') [] h = refl
lt_of_bytes_gt (a ∷ as') (b ∷ bs) h = ground (arith, lt_of_bytes_gt as' bs)

pub bytes_lt_trans : (a b c : Bytes) → bytes_cmp a b ≡ lt → bytes_cmp b c ≡ lt → bytes_cmp a c ≡ lt
unfolding bytes_cmp
bytes_lt_trans a [] [] h k = absurd (ground arith)
bytes_lt_trans [] [] (c ∷ cs) h k = absurd (ground arith)
bytes_lt_trans (a ∷ as') [] (c ∷ cs) h k = absurd (ground arith)
bytes_lt_trans a (b ∷ bs) [] h k = absurd (ground arith)
bytes_lt_trans [] (b ∷ bs) (c ∷ cs) h k = refl
bytes_lt_trans (a ∷ as') (b ∷ bs) (c ∷ cs) h k = ground (arith, bytes_lt_trans as' bs cs)

instance abbrev pub bytes_ord : Ord Bytes
bytes_ord = record {
  cmp = bytes_cmp;
  cmp_refl = bytes_cmp_refl;
  lt_trans = bytes_lt_trans;
  lt_of_gt = lt_of_bytes_gt;
  eq_of_cmp = eq_of_bytes_cmp;
}
