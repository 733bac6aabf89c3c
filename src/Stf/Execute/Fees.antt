-- ===== src/Stf/Execute/Fees.antt =====
-- crates/sena-stf/src/execute.rs: `fee_transition`, by its instructions.
use sena.Stf.Gas.Records.{encode_market}
use sena.Stf.Gas.Stored.{decode_asset, encode_split}
use sena.Primitives.Hash256.{Bytes, bytes_eq}
use sena.Stf.Gas.{FeeMarket, market_at, window_limit}
use sena.Stf.Gas.Split.{FeeSplit}
use sena.Stf.Execute.{decode_fee_market, StepError}
use sena.Base.{
  ◌>>=◌, ◌>>◌, ℕ, Result, Option, checked_add, guard, ok_or, u64_mod, map_err, ◌==◌, none, ok, some,
  if◌then◌else◌, leb,
}
use sena.Stf.Instruction.{WhitelistedAsset}

-- The comparisons of `Instruction::VerifyGasAsset`.
unfoldable pub check_asset : ℕ → ℕ → WhitelistedAsset → Result StepError (Unit {0})
check_asset rate intrinsic_gas a = do
  guard a.enabled StepError.asset_disabled
  guard (a.rate == rate) (StepError.gas_rate_mismatch rate a.rate)
  guard (a.intrinsic_gas == intrinsic_gas)
      (StepError.intrinsic_gas_mismatch intrinsic_gas a.intrinsic_gas)

-- `Instruction::VerifyGasAsset`
unfoldable pub verify_gas_asset : ℕ → ℕ → Option Bytes → Result StepError Bytes
unfolding check_asset
verify_gas_asset rate intrinsic_gas current = do
  stored ← ok_or current StepError.asset_not_whitelisted
  a ← map_err (λ e. StepError.malformed_slot) (decode_asset stored)
  check_asset rate intrinsic_gas a
  ok stored

-- The gas of the window with the transaction's in it, if there is room.
unfoldable pub charged_gas : ℕ → FeeMarket → Option ℕ
charged_gas gas_used m = elim (checked_add u64_mod m.window_gas gas_used) [
  | none ↦ none
  | some g ↦ if leb g (window_limit m) then some g else none
]

-- `Instruction::ChargeBaseFee`
unfoldable pub charge_base_fee : ℕ → ℕ → ℕ → Option Bytes → Result StepError Bytes
unfolding decode_fee_market charged_gas
charge_base_fee timestamp base_fee gas_used current = do
  stored ← decode_fee_market current
  m ← map_err StepError.gas (market_at timestamp stored)
  guard (m.base_fee == base_fee) (StepError.base_fee_mismatch base_fee m.base_fee)
  g ← ok_or (charged_gas gas_used m) StepError.window_full
  ok (encode_market (record m { window_gas = g }))

-- `Instruction::VerifyFeeSplit`
unfoldable pub verify_fee_split : FeeSplit → Option Bytes → Result StepError Bytes
verify_fee_split split current = do
  stored ← ok_or current StepError.fee_split_mismatch
  guard (bytes_eq stored (encode_split split)) StepError.fee_split_mismatch
  ok stored
