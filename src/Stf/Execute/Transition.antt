-- ===== src/Stf/Execute/Transition.antt =====
-- crates/sena-stf/src/execute.rs: `transition`, with the two halves that it routes to in line.
pub mod Effects
use sena.Primitives.Hash256.{Bytes}
use sena.Base.{Option, Result, ok}
use sena.Stf.Governance.Signatures.{Ed25519}
use sena.Stf.Instruction.{Instruction}
use sena.Stf.Execute
use sena.Stf.Execute.{StepError}
use sena.Stf.Execute.Fees
use sena.Stf.Execute.Council

module _ (ed : Ed25519) where
  unfoldable pub transition : Instruction → Option Bytes → Result StepError Bytes
  unfolding Execute.consume_nonce
  transition (Instruction.consume_nonce address expected) current =
      Execute.consume_nonce expected current
  transition (Instruction.debit address asset amount) current =
      Execute.debit_slot asset amount current
  transition (Instruction.credit address asset amount) current =
      Execute.credit_slot asset amount current
  transition (Instruction.bind_identifier identifier address) current =
      Execute.bind_identifier address current
  transition (Instruction.unbind_identifier identifier address) current =
      Execute.unbind_identifier address current
  transition (Instruction.verify_gas_asset asset rate intrinsic_gas) current =
      Fees.verify_gas_asset rate intrinsic_gas current
  transition (Instruction.charge_base_fee timestamp base_fee gas) current =
      Fees.charge_base_fee timestamp base_fee gas current
  transition (Instruction.verify_fee_split split) current = Fees.verify_fee_split split current
  transition (Instruction.verify_council epoch digest signatures guardian) current =
      Council.verify_council ed epoch digest signatures guardian current
  transition (Instruction.set_gas_asset asset_record) current = Council.set_gas_asset asset_record
  transition (Instruction.set_parameter name value) current = Council.set_parameter name value
  transition (Instruction.set_fee_market floor target) current =
      Council.set_fee_market floor target current
  transition (Instruction.set_fee_split split) current = Council.set_fee_split split
  transition (Instruction.disable_gas_asset asset) current = Council.disable_gas_asset current
  transition (Instruction.verify_jwk iss_hash jwk_hash) current = Execute.verify_jwk current
  transition (Instruction.set_jwk iss_hash jwk_hash active) current =
      ok (Execute.encode_jwk_record active)
