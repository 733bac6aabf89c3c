-- ===== src/Stf/Gas.antt =====
-- crates/sena-stf/src/gas.rs: the fee market and what a transaction pays. Amounts are u128, gas
-- and times are u64; what cannot overflow is written without a check, as in the source.
pub mod Settle
pub mod Market
pub mod Records
pub mod Split
pub mod Stored
use sena.Base.{
  ◌>>=◌, ◌>>◌, ℕ, saturating_mul_u64, Result, if◌then◌else◌, ◌==◌, ltb, ◌||◌, err, ok, ok_or, max,
  guard, checked_mul, leb, u128_mod, min, ◌-◌, ◌/◌, checked_add, ◌+◌,
}

abbrev pub rate_scale : ℕ
rate_scale = 1000000

abbrev pub price_scale : ℕ
price_scale = 1000000000000

abbrev pub max_gas_limit : ℕ
max_gas_limit = 30000000

-- `DEFAULT_BASE_FEE_FLOOR`
abbrev pub default_base_fee_floor : ℕ
default_base_fee_floor = 25000000000

-- `DEFAULT_GAS_TARGET`
abbrev pub default_gas_target : ℕ
default_gas_target = 5000000

abbrev pub elasticity : ℕ
elasticity = 2

abbrev pub base_fee_change_denominator : ℕ
base_fee_change_denominator = 8

pub data GasError : Type 0 where
  zero_rate overflow fee_rounds_to_zero timestamp_regressed invalid_fee_split : GasError
  invalid_fee_market : GasError
  fee_below_base_fee gas_limit_too_low : ℕ → ℕ → GasError
  gas_limit_too_high : ℕ → GasError

pub record FeeMarket : Type 0 where
  pub base_fee : ℕ
  pub floor : ℕ
  pub target : ℕ
  pub window_ts : ℕ
  pub window_gas : ℕ

-- `FeeMarket::genesis`
unfoldable pub genesis_market : ℕ → ℕ → FeeMarket
genesis_market floor target = record {
  base_fee = floor;
  floor = floor;
  target = target;
  window_ts = 0;
  window_gas = 0;
}

-- `FeeMarket::window_limit`
unfoldable pub window_limit : FeeMarket → ℕ
window_limit m = saturating_mul_u64 m.target elasticity

-- The base fee of the next window before the floor applies.
unfoldable pub moved_base_fee : ℕ → ℕ → ℕ → Result GasError ℕ
moved_base_fee base gas target =
    if target == 0 || ltb target gas
    then (do
      product ←
          ok_or (checked_mul u128_mod base (if target == 0 then gas else gas - target))
            GasError.overflow
      ok_or
          (checked_add u128_mod base (max (product / max target 1 / base_fee_change_denominator) 1))
          GasError.overflow)
    else (do
      product ← ok_or (checked_mul u128_mod base (target - gas)) GasError.overflow
      ok (base - product / target / base_fee_change_denominator))

-- `next_base_fee`
unfoldable pub next_base_fee : ℕ → ℕ → ℕ → ℕ → Result GasError ℕ
unfolding moved_base_fee
next_base_fee base gas target floor = do next ← moved_base_fee base gas target; ok (max next floor)

-- `FeeMarket::at`
unfoldable pub market_at : ℕ → FeeMarket → Result GasError FeeMarket
unfolding next_base_fee
market_at timestamp m =
    if ltb timestamp m.window_ts
    then err GasError.timestamp_regressed
    else if timestamp == m.window_ts
    then ok m
    else (do
      base_fee ← next_base_fee m.base_fee m.window_gas m.target m.floor
      ok (record m { base_fee = base_fee; window_ts = timestamp; window_gas = 0 }))

-- `FeeMarket::base_fee_at`
unfoldable pub base_fee_at : ℕ → FeeMarket → Result GasError ℕ
unfolding market_at
base_fee_at timestamp m = do moved ← market_at timestamp m; ok moved.base_fee

-- `native_to_asset`
unfoldable pub native_to_asset : ℕ → ℕ → Result GasError ℕ
native_to_asset native rate = if rate == 0 then err GasError.zero_rate else (do
  product ← ok_or (checked_mul u128_mod native rate) GasError.overflow
  ok (product / rate_scale))

pub record FeeCharge : Type 0 where
  pub gas_used : ℕ
  pub hold : ℕ
  pub refund : ℕ
  pub tip : ℕ
  pub base : ℕ

-- The closure `total` of `settle`.
unfoldable pub total : ℕ → ℕ → Result GasError ℕ
total gas price = do
  product ← ok_or (checked_mul u128_mod gas price) GasError.overflow
  ok (product / price_scale)

-- The end of `settle`, from the price on.
unfoldable pub share_out : ℕ → ℕ → ℕ → ℕ → Result GasError FeeCharge
unfolding total
share_out gas_limit gas_used base_per_gas tip_per_gas = do
  let price = base_per_gas + tip_per_gas
  hold ← total gas_limit price
  guard (ltb 0 hold) GasError.fee_rounds_to_zero
  refund ← total (gas_limit - gas_used) price
  tip ← total gas_used tip_per_gas
  base ← total gas_used base_per_gas
  let remainder = hold - refund - tip - base
  ok (record {
    gas_used = gas_used;
    hold = hold;
    refund = refund;
    tip = tip;
    base = base + remainder;
  })

-- `settle`
unfoldable pub settle : ℕ → ℕ → ℕ → ℕ → ℕ → ℕ → Result GasError FeeCharge
unfolding native_to_asset share_out
settle gas_limit gas_used max_fee_per_gas max_priority_fee_per_gas base_fee rate = do
  guard (leb gas_limit max_gas_limit) (GasError.gas_limit_too_high gas_limit)
  guard (leb gas_used gas_limit) (GasError.gas_limit_too_low gas_limit gas_used)
  base_per_gas ← native_to_asset base_fee rate
  guard (leb base_per_gas max_fee_per_gas)
      (GasError.fee_below_base_fee max_fee_per_gas base_per_gas)
  share_out gas_limit gas_used base_per_gas
      (min max_priority_fee_per_gas (max_fee_per_gas - base_per_gas))
