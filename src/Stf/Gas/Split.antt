-- ===== src/Stf/Gas/Split.antt =====
-- crates/sena-stf/src/gas.rs: the fee split, in millionths. An address is its 32 bytes.
use sena.Stf.Gas.{GasError}
use sena.Primitives.Hash256.{Bytes, bytes_eq}
use sena.Base.{
  ℕ, List, Result, ◌≡◌, Bool, ok, ◌∷◌, false, ◌++◌, if◌then◌else◌, ◌+◌, length, [], ltb, arith, ◌≤◌,
  ◌*◌, ◌||◌, ◌==◌, err, Result-cases, ◌>>=◌, inl, ok_or, inr, checked_mul, u128_mod, ◌/◌, subst, ap,
}

abbrev pub share_scale : ℕ
share_scale = 1000000

abbrev pub max_fee_beneficiaries : ℕ
max_fee_beneficiaries = 8

pub record FeeSplit : Type 0 where
  pub beneficiaries : List (Bytes × ℕ)
  pub burn : ℕ

-- `iter().any(|(a, _)| a == address)`
unfoldable pub any_address : Bytes → List (Bytes × ℕ) → Bool
any_address address [] = false
any_address address ((a, share) ∷ seen) = bytes_eq a address || any_address address seen

-- The loop of `FeeSplit::check` over the beneficiaries that are left, with those before it.
unfoldable pub check_shares : List (Bytes × ℕ) → ℕ → List (Bytes × ℕ) → Result GasError ℕ
unfolding any_address
check_shares seen total [] = ok total
check_shares seen total ((address, share) ∷ left) =
    let rest = check_shares (seen ++ (address, share) ∷ []) (total + share) left in
    if share == 0 || any_address address seen then err GasError.invalid_fee_split else rest

-- `FeeSplit::check`
unfoldable pub check_split : FeeSplit → Result GasError (Unit {0})
unfolding check_shares
check_split s =
    if ltb max_fee_beneficiaries (length s.beneficiaries)
    then err GasError.invalid_fee_split
    else (check_shares [] s.burn s.beneficiaries >>= λ total.
        if total == share_scale then ok tt else err GasError.invalid_fee_split)

-- `FeeSplit::shares_of`, over the beneficiaries.
unfoldable pub shares_from : ℕ → List (Bytes × ℕ) → Result GasError (List (Bytes × ℕ))
shares_from amount [] = ok []
shares_from amount ((address, share) ∷ left) = do
  product ← ok_or (checked_mul u128_mod amount share) GasError.overflow
  rest ← shares_from amount left
  ok ((address, product / share_scale) ∷ rest)

unfoldable pub shares_of : FeeSplit → ℕ → Result GasError (List (Bytes × ℕ))
unfolding shares_from
shares_of s amount = shares_from amount s.beneficiaries

-- The sum of the second parts.
abbrev pub sum_shares : List (Bytes × ℕ) → ℕ
sum_shares [] = 0
sum_shares ((address, share) ∷ left) = share + sum_shares left

check_shares-ok :
    (seen left : List (Bytes × ℕ)) (total v : ℕ)
    → check_shares seen total left ≡ ok v
    → v ≡ total + sum_shares left
unfolding check_shares
check_shares-ok seen [] total v e = ground arith
check_shares-ok seen ((address, share) ∷ left) total v e =
    ground (arith, check_shares-ok (seen ++ (address, share) ∷ []) left (total + share) v)

check_split-ok :
    (s : FeeSplit)
    → check_split s ≡ ok tt
    → (length s.beneficiaries ≤ max_fee_beneficiaries)
      × (sum_shares s.beneficiaries + s.burn ≡ share_scale)
unfolding check_split
check_split-ok s e = elim (Result-cases (check_shares [] s.burn s.beneficiaries)) [
  | inl (v, q) ↦ ground (arith, check_shares-ok [] s.beneficiaries s.burn v q)
  | inr (x, q) ↦ absurd (ground arith)
]

-- A payout that is one share short of a division for each beneficiary at most.
abbrev IsPayout : ℕ → List (Bytes × ℕ) → List (Bytes × ℕ) → Type 0
IsPayout amount left paid =
    (length paid ≡ length left)
    × (share_scale * sum_shares paid ≤ amount * sum_shares left)
    × (amount * sum_shares left ≤ share_scale * (sum_shares paid + length left))

shares_from-cons :
    (amount : ℕ) (address : Bytes) (share : ℕ) (left rest paid : List (Bytes × ℕ))
    → shares_from amount left ≡ ok rest
    → shares_from amount ((address, share) ∷ left) ≡ ok paid
    → (address, amount * share / share_scale) ∷ rest ≡ paid
unfolding shares_from
shares_from-cons amount address share left rest paid q e = ground arith

shares_from-IsPayout :
    (amount : ℕ) (left paid : List (Bytes × ℕ))
    → shares_from amount left ≡ ok paid
    → IsPayout amount left paid
unfolding shares_from
shares_from-IsPayout amount [] paid e =
    let nothing : [] ≡ paid = cc in subst (IsPayout amount []) nothing (omega arith)
shares_from-IsPayout amount ((address, share) ∷ left) paid e =
    elim (Result-cases (shares_from amount left)) [
      | inl (rest, q) ↦
          let (l, below, above) = shares_from-IsPayout amount left rest q in
          subst (IsPayout amount ((address, share) ∷ left))
            (shares_from-cons amount address share left rest paid q e)
            (omega (arith, l), omega (arith, below), omega (arith, above))
      | inr (x, q) ↦ absurd (ground arith)
    ]

-- A split that passes the check pays each beneficiary a part of the amount. The payouts sum to
-- at most the amount, and with the exact burnt share they fall short of the amount by at most
-- one unit for each beneficiary.
pub shares_of_checked :
    (s : FeeSplit) (amount : ℕ) (paid : List (Bytes × ℕ))
    → check_split s ≡ ok tt
    → shares_of s amount ≡ ok paid
    → (length paid ≡ length s.beneficiaries)
      × (sum_shares paid ≤ amount)
      × (share_scale * sum_shares paid + amount * s.burn ≤ share_scale * amount)
      × (share_scale * amount ≤ share_scale * (sum_shares paid + length paid) + amount * s.burn)
unfolding shares_of
shares_of_checked s amount paid c e =
    let (few, total) = check_split-ok s c in
    let (l, below, above) = shares_from-IsPayout amount s.beneficiaries paid e in
    let shared : amount * sum_shares s.beneficiaries + amount * s.burn ≡ share_scale * amount =
      omega (arith, ap (λ n. amount * n) total) in
    (l, omega (arith, below, shared), omega (arith, below, shared), omega (arith, above, shared, l))
