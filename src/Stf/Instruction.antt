-- ===== src/Stf/Instruction.antt =====
-- crates/sena-stf/src/instruction.rs: the instructions of the state transition function, and the
-- trace of a batch (execute.rs). Addresses and identifiers are their bytes, a string its UTF-8
-- bytes, an asset id its number.
use sena.Stf.Machine.{MachineState}
use sena.Stf.Gas.Split.{FeeSplit}
use sena.Primitives.Hash256.{Bytes, Hash256}
use sena.Base.{ℕ, List, Bool, ◌+◌, ◌*◌, length}

-- `WhitelistedAsset` of gas.rs.
pub record WhitelistedAsset : Type 0 where
  pub asset : ℕ
  pub symbol : Bytes
  pub rate : ℕ
  pub intrinsic_gas : ℕ
  pub enabled : Bool

-- `CouncilSignature` of governance.rs.
pub record CouncilSignature : Type 0 where
  pub index : ℕ
  pub signature : Bytes

pub data Instruction : Type 0 where
  consume_nonce : (account : Bytes) (expected : ℕ) → Instruction
  debit credit : (account : Bytes) (asset amount : ℕ) → Instruction
  bind_identifier unbind_identifier : (identifier address : Bytes) → Instruction
  verify_gas_asset : (asset rate intrinsic_gas : ℕ) → Instruction
  charge_base_fee : (timestamp base_fee gas : ℕ) → Instruction
  verify_fee_split set_fee_split : (split : FeeSplit) → Instruction
  set_fee_market : (floor target : ℕ) → Instruction
  disable_gas_asset : (asset : ℕ) → Instruction
  verify_council :
      (epoch : ℕ) (digest : Hash256) (signatures : List CouncilSignature) (guardian : Bool)
      → Instruction
  set_gas_asset : (asset_record : WhitelistedAsset) → Instruction
  set_parameter : (name : Bytes) (value : ℕ) → Instruction
  verify_jwk : (iss_hash jwk_hash : Bytes) → Instruction
  set_jwk : (iss_hash jwk_hash : Bytes) (active : Bool) → Instruction

-- `instruction_gas` of gas.rs.
unfoldable pub instruction_gas : Instruction → ℕ
instruction_gas (Instruction.debit account asset amount) = 5000
instruction_gas (Instruction.credit account asset amount) = 5000
instruction_gas (Instruction.unbind_identifier identifier owner) = 5000
instruction_gas (Instruction.verify_council epoch digest signatures guardian) =
    10000 + 3000 * length signatures
instruction_gas (Instruction.bind_identifier identifier address) = 20000
instruction_gas (Instruction.set_gas_asset asset_record) = 20000
instruction_gas (Instruction.set_parameter name value) = 20000
instruction_gas (Instruction.set_jwk iss_hash jwk_hash active) = 20000
instruction_gas (Instruction.set_fee_market floor target) = 20000
instruction_gas (Instruction.set_fee_split split) = 20000
instruction_gas (Instruction.disable_gas_asset asset) = 20000
instruction_gas (Instruction.verify_fee_split split) = 2000
instruction_gas (Instruction.consume_nonce account expected) = 0
instruction_gas (Instruction.verify_gas_asset asset rate intrinsic_gas) = 0
instruction_gas (Instruction.charge_base_fee timestamp base_fee gas) = 0
instruction_gas (Instruction.verify_jwk iss_hash jwk_hash) = 0

pub record ExecutionTrace : Type 0 where
  pub instructions : List Instruction
  pub states : List MachineState
  pub tx_starts : List ℕ
