-- ===== src/Stf/Gas/Settle.antt =====
-- crates/sena-stf/src/gas.rs: how a settled fee is shared out.
use sena.Stf.Gas.{
  native_to_asset, total, rate_scale, price_scale, settle, FeeCharge, max_gas_limit, share_out,
}
use sena.Base.{ℕ, ◌*◌, min, ◌+◌, ◌≡◌, ◌≤◌, ◌/◌, ◌-◌, ok, ◌<◌, ◌≢◌, u128_mod, arith, subst}

-- The base fee in the fee asset, per gas.
abbrev pub base_per_gas : ℕ → ℕ → ℕ
base_per_gas base_fee rate = base_fee * rate / rate_scale

-- The tip, per gas: what is left below the maximum, at most what was offered.
abbrev pub tip_per_gas : ℕ → ℕ → ℕ → ℕ → ℕ
tip_per_gas max_fee max_priority base_fee rate =
    min max_priority (max_fee - base_per_gas base_fee rate)

-- What one unit of gas costs.
abbrev pub price : ℕ → ℕ → ℕ → ℕ → ℕ
price max_fee max_priority base_fee rate =
    base_per_gas base_fee rate + tip_per_gas max_fee max_priority base_fee rate

native_to_asset-ok :
    (native rate v : ℕ)
    → native_to_asset native rate ≡ ok v
    → (rate ≢ 0) × (native * rate < u128_mod) × (v ≡ base_per_gas native rate)
unfolding native_to_asset
native_to_asset-ok native rate v e = ground arith

native_to_asset_accepts :
    (native rate : ℕ)
    → rate ≢ 0
    → native * rate < u128_mod
    → native_to_asset native rate ≡ ok (base_per_gas native rate)
unfolding native_to_asset
native_to_asset_accepts native rate n fits = ground arith

total-ok : (gas p v : ℕ) → total gas p ≡ ok v → (gas * p < u128_mod) × (v ≡ gas * p / price_scale)
unfolding total
total-ok gas p v e = ground arith

total_accepts : (gas p : ℕ) → gas * p < u128_mod → total gas p ≡ ok (gas * p / price_scale)
unfolding total
total_accepts gas p h = ground arith

-- The parts of a hold, rounded down, leave a remainder.
parts-le :
    (rest used base tip : ℕ)
    → rest * (base + tip) / price_scale + used * tip / price_scale + used * base / price_scale
      ≤ (used + rest) * (base + tip) / price_scale
parts-le rest used base tip =
    let whole : (used + rest) * (base + tip) ≡ rest * (base + tip) + used * tip + used * base =
      omega arith in
    omega (arith, whole)

share_out-ok :
    (limit used base tip : ℕ) (c : FeeCharge)
    → share_out limit used base tip ≡ ok c
    → (0 < c.hold)
      × (c.hold ≡ limit * (base + tip) / price_scale)
      × (c.refund ≡ (limit - used) * (base + tip) / price_scale)
      × (c.tip ≡ used * tip / price_scale)
      × (c.base
          ≡ used * base / price_scale + (c.hold - c.refund - c.tip - used * base / price_scale))
unfolding share_out
share_out-ok limit used base tip c e = ground (
  arith,
  total-ok limit (base + tip),
  total-ok (limit - used) (base + tip),
  total-ok used tip,
  total-ok used base,
)

settle_inner :
    (limit used max_fee max_priority base_fee rate : ℕ) (c : FeeCharge)
    → settle limit used max_fee max_priority base_fee rate ≡ ok c
    → (used ≤ limit)
      × (limit ≤ max_gas_limit)
      × (base_per_gas base_fee rate ≤ max_fee)
      × (share_out limit used
            (base_per_gas base_fee rate)
            (tip_per_gas max_fee max_priority base_fee rate)
          ≡ ok c)
unfolding settle
settle_inner limit used max_fee max_priority base_fee rate c e =
    ground (arith, native_to_asset-ok base_fee rate)

-- An accepted fee has a gas limit within the maximum that covers the gas used, and a price for
-- each unit of gas that is at most the sender's maximum. What is held is that price for the
-- limit, rounded down, and is not zero; the tip is that for the gas used, rounded down; the
-- base fee is at least its own part, rounded down; and the refund, the tip and the base fee sum
-- to what is held.
pub settle-ok :
    (limit used max_fee max_priority base_fee rate : ℕ) (c : FeeCharge)
    → settle limit used max_fee max_priority base_fee rate ≡ ok c
    → (used ≤ limit)
      × (limit ≤ max_gas_limit)
      × (0 < c.hold)
      × (c.hold ≡ limit * price max_fee max_priority base_fee rate / price_scale)
      × (price max_fee max_priority base_fee rate ≤ max_fee)
      × (c.tip ≡ used * tip_per_gas max_fee max_priority base_fee rate / price_scale)
      × (used * base_per_gas base_fee rate / price_scale ≤ c.base)
      × (c.refund + c.tip + c.base ≡ c.hold)
settle-ok limit used max_fee max_priority base_fee rate c e =
    let b = base_per_gas base_fee rate in
    let t = tip_per_gas max_fee max_priority base_fee rate in
    let (u, l, m, shared) = settle_inner limit used max_fee max_priority base_fee rate c e in
    let (p, h, r, i, a) = share_out-ok limit used b t c shared in
    let le = parts-le (limit - used) used b t in
    let whole : used + (limit - used) ≡ limit = omega arith in
    let le' =
      subst
        (λ n.
          (limit - used) * (b + t) / price_scale + used * t / price_scale + used * b / price_scale
          ≤ n * (b + t) / price_scale)
        whole le in
    (u, l, p, h, omega arith, i, omega arith, omega (arith, le'))

-- The charge that `share_out` makes.
abbrev pub charge : ℕ → ℕ → ℕ → ℕ → FeeCharge
charge limit used base tip =
    let hold = limit * (base + tip) / price_scale in
    let refund = (limit - used) * (base + tip) / price_scale in
    let tips = used * tip / price_scale in
    let bases = used * base / price_scale in
    record {
      gas_used = used;
      hold = hold;
      refund = refund;
      tip = tips;
      base = bases + (hold - refund - tips - bases);
    }

share_out_accepts :
    (rest used base tip : ℕ)
    → (used + rest) * (base + tip) < u128_mod
    → 0 < (used + rest) * (base + tip) / price_scale
    → share_out (used + rest) used base tip ≡ ok (charge (used + rest) used base tip)
unfolding share_out
share_out_accepts rest used base tip held charged =
    let whole : (used + rest) * (base + tip) ≡ rest * (base + tip) + used * tip + used * base =
      omega arith in
    let left : used + rest - used ≡ rest = omega arith in
    rw left (
      ground (
        arith,
        total_accepts (used + rest) (base + tip) held,
        total_accepts rest (base + tip) (omega (arith, whole, held)),
        total_accepts used tip (omega (arith, whole, held)),
        total_accepts used base (omega (arith, whole, held)),
      ))

-- A fee is settled, as `charge` has it, if the gas limit covers the gas used and is within the
-- maximum, the rate is not zero, the converted base fee and the hold do not overflow, the
-- sender's maximum covers the base fee, and the hold does not round to zero. No part of the
-- hold overflows then.
pub settle_accepts :
    (limit used max_fee max_priority base_fee rate : ℕ)
    → used ≤ limit
    → limit ≤ max_gas_limit
    → rate ≢ 0
    → base_fee * rate < u128_mod
    → base_per_gas base_fee rate ≤ max_fee
    → limit * price max_fee max_priority base_fee rate < u128_mod
    → 0 < limit * price max_fee max_priority base_fee rate / price_scale
    → settle limit used max_fee max_priority base_fee rate
      ≡ ok (
          charge limit used
            (base_per_gas base_fee rate)
            (tip_per_gas max_fee max_priority base_fee rate))
unfolding settle
settle_accepts limit used max_fee max_priority base_fee rate u l n fits offered held charged =
    let b = base_per_gas base_fee rate in
    let t = tip_per_gas max_fee max_priority base_fee rate in
    let whole : used + (limit - used) ≡ limit = omega arith in
    let shared = share_out_accepts (limit - used) used b t (rw whole held) (rw whole charged) in
    let shared' = subst (λ m. share_out m used b t ≡ ok (charge m used b t)) whole shared in
    ground (arith, native_to_asset_accepts base_fee rate n fits, shared')
