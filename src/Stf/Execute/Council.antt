-- ===== src/Stf/Execute/Council.antt =====
-- crates/sena-stf/src/execute.rs: `governance_transition`, by its instructions.
use sena.Stf.Account.{BalanceError}
use sena.Stf.Gas.Records.{encode_market}
use sena.Primitives.Codec.{to_be_bytes}
use sena.Stf.Gas.Stored.{encode_asset, encode_split, decode_asset}
use sena.Stf.Execute.{StepError, decode_fee_market}
use sena.Stf.Gas.Split.{FeeSplit}
use sena.Primitives.Hash256.{Bytes, Hash256}
use sena.Stf.Governance.Signatures.{Ed25519, verify_council_signatures}
use sena.Stf.Governance.{
  GovernanceUpdate, check_permitted, GovernanceError, decode_council, encode_council,
}
use sena.Base.{
  ◌>>=◌, ◌>>◌, Result, ℕ, Option, map_err, List, ok, ok_or, Bool, max, false, guard, ◌==◌,
  checked_add, u64_mod,
}
use sena.Stf.Instruction.{WhitelistedAsset, CouncilSignature}

abbrev permitted : GovernanceUpdate → Result StepError (Unit {0})
permitted update = map_err StepError.governance (check_permitted update)

-- `Instruction::VerifyCouncil`
unfoldable pub verify_council :
    Ed25519 → ℕ → Hash256 → List CouncilSignature → Bool → Option Bytes → Result StepError Bytes
verify_council ed epoch digest signatures guardian current = do
  stored ← ok_or current (StepError.governance GovernanceError.malformed_council)
  council ← map_err StepError.governance (decode_council stored)
  guard (council.epoch == epoch)
      (StepError.governance (GovernanceError.wrong_epoch council.epoch epoch))
  map_err StepError.governance (verify_council_signatures ed council digest signatures guardian)
  next ← ok_or (checked_add u64_mod council.epoch 1) (StepError.balance BalanceError.overflow)
  ok (encode_council (record council { epoch = next }))

-- `Instruction::SetGasAsset`
unfoldable pub set_gas_asset : WhitelistedAsset → Result StepError Bytes
set_gas_asset asset_record = do
  permitted (GovernanceUpdate.set_gas_asset asset_record)
  ok (encode_asset asset_record)

-- `Instruction::SetParameter`
unfoldable pub set_parameter : Bytes → ℕ → Result StepError Bytes
set_parameter name value = do
  permitted (GovernanceUpdate.set_parameter name value)
  ok (to_be_bytes 16 value)

-- `Instruction::SetFeeMarket`
unfoldable pub set_fee_market : ℕ → ℕ → Option Bytes → Result StepError Bytes
set_fee_market floor target current = do
  permitted (GovernanceUpdate.set_fee_market floor target)
  m ← decode_fee_market current
  ok (encode_market (record m { base_fee = max m.base_fee floor; floor = floor; target = target }))

-- `Instruction::SetFeeSplit`
unfoldable pub set_fee_split : FeeSplit → Result StepError Bytes
set_fee_split split = do permitted (GovernanceUpdate.set_fee_split split); ok (encode_split split)

-- `Instruction::DisableGasAsset`
unfoldable pub disable_gas_asset : Option Bytes → Result StepError Bytes
disable_gas_asset current = do
  stored ← ok_or current StepError.asset_not_whitelisted
  a ← map_err (λ e. StepError.malformed_slot) (decode_asset stored)
  ok (encode_asset (record a { enabled = false }))
