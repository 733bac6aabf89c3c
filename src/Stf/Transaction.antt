-- ===== src/Stf/Transaction.antt =====
-- crates/sena-stf/src/transaction.rs: what a transaction asks for and how it is authorised, with
-- `Channel` of crates/sena-primitives/src/identity.rs and `KeylessSignature` of
-- crates/sena-stf/src/keyless.rs. Addresses, identifiers, keys and proofs are their bytes.
use sena.Primitives.Hash256.{Bytes}
use sena.Base.{ℕ, Option, List, if◌then◌else◌, ◌==◌, some, none}
use sena.Stf.Gas.Split.{FeeSplit}
use sena.Stf.Governance.{GovernanceUpdate}
use sena.Stf.Instruction.{CouncilSignature}

pub data Channel : Type 0 where
  email phone handle : Channel

-- `Channel::discriminant`
unfoldable pub discriminant : Channel → ℕ
discriminant Channel.email = 0
discriminant Channel.phone = 1
discriminant Channel.handle = 2

-- `Channel::from_discriminant`
unfoldable pub from_discriminant : ℕ → Option Channel
from_discriminant d =
    if d == 0
    then some Channel.email
    else if d == 1
    then some Channel.phone
    else if d == 2
    then some Channel.handle
    else none

pub record KeylessSignature : Type 0 where
  pub iss_hash : Bytes
  pub idc : Bytes
  pub ephemeral_public_key : Bytes
  pub ephemeral_signature : Bytes
  pub exp_date_secs : ℕ
  pub exp_horizon_secs : ℕ
  pub jwt_header_hash : Bytes
  pub jwk_hash : Bytes
  pub extra_field_hash : Option Bytes
  pub proof : Bytes

pub data Authenticator : Type 0 where
  ed25519 : (public_key signature : Bytes) → Authenticator
  keyless : KeylessSignature → Authenticator

pub data Payload : Type 0 where
  transfer : (to : Bytes) (asset amount : ℕ) → Payload
  bind_identifier : (channel : Channel) (identifier : Bytes) → Payload
  unbind_identifier : (identifier : Bytes) → Payload
  governance :
      (epoch : ℕ) (update : GovernanceUpdate) (signatures : List CouncilSignature) → Payload
  distribute_fees : (asset amount : ℕ) (split : FeeSplit) → Payload

pub record Transaction : Type 0 where
  pub sender : Bytes
  pub nonce : ℕ
  pub fee_asset : ℕ
  pub fee_rate : ℕ
  pub fee_intrinsic_gas : ℕ
  pub gas_limit : ℕ
  pub max_fee_per_gas : ℕ
  pub max_priority_fee_per_gas : ℕ
  pub payload : Payload
  pub authenticator : Authenticator
