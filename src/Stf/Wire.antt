-- ===== src/Stf/Wire.antt =====
-- crates/sena-stf/src/wire.rs: the encoding of a transaction, as batches publish it and as the
-- signing digests read it. The source panics on a list of 2 ^ 32 signatures.
pub mod Read
pub mod Records
pub mod Updates
pub mod Payloads
pub mod Authenticators
pub mod Canonical
use sena.Primitives.Hash256.{Bytes}
use sena.Primitives.Codec.Write.{Writer, u8, u64, bytes, u128, raw, bool, u32}
use sena.Primitives.Codec.{DecodeError}
use sena.Base.{ℕ, Option, List, ◌∷◌, some, length, [], none}
use sena.Stf.Governance.{GovernanceUpdate}
use sena.Stf.Instruction.{CouncilSignature}
use sena.Stf.Gas.Stored.{encode_asset, encode_split}
use sena.Stf.Transaction.{Transaction, Payload, Authenticator, KeylessSignature, discriminant}

-- `MAX_TRANSACTION_BYTES`
abbrev pub max_transaction_bytes : ℕ
max_transaction_bytes = 8192

-- `MAX_COUNCIL_SIGNATURES`
abbrev pub max_council_signatures : ℕ
max_council_signatures = 32

pub data WireError : Type 0 where
  malformed : DecodeError → WireError
  too_large : ℕ → WireError
  too_many_signatures : WireError

-- The match on the extra field in `write_keyless`.
unfoldable pub write_extra : Option Bytes → Writer → Writer
write_extra none w = u8 0 w
write_extra (some h) w = raw h (u8 1 w)

unfoldable pub write_keyless : KeylessSignature → Writer → Writer
unfolding write_extra
write_keyless sig w =
    let times = u64 sig.exp_horizon_secs (
      u64 sig.exp_date_secs (
        raw sig.ephemeral_signature
          (raw sig.ephemeral_public_key (raw sig.idc (raw sig.iss_hash w))))) in
    raw sig.proof
      (write_extra sig.extra_field_hash (raw sig.jwk_hash (raw sig.jwt_header_hash times)))

unfoldable pub write_update : GovernanceUpdate → Writer → Writer
write_update (GovernanceUpdate.set_gas_asset asset_record) w =
    bytes (encode_asset asset_record) (u8 0 w)
write_update (GovernanceUpdate.set_parameter name value) w = u128 value (bytes name (u8 1 w))
write_update (GovernanceUpdate.set_jwk iss_hash jwk_hash active) w =
    bool active (raw jwk_hash (raw iss_hash (u8 2 w)))
write_update (GovernanceUpdate.set_fee_market floor target) w = u64 target (u128 floor (u8 3 w))
write_update (GovernanceUpdate.set_fee_split split) w = bytes (encode_split split) (u8 4 w)
write_update (GovernanceUpdate.disable_gas_asset asset) w = u32 asset (u8 5 w)

-- The loop of `write_payload` over the signatures.
unfoldable pub write_signatures : List CouncilSignature → Writer → Writer
write_signatures [] w = w
write_signatures (s ∷ left) w = write_signatures left (bytes s.signature (u32 s.index w))

unfoldable pub write_payload : Payload → Writer → Writer
unfolding write_update write_signatures
write_payload (Payload.transfer to asset amount) w = u128 amount (u32 asset (raw to (u8 0 w)))
write_payload (Payload.bind_identifier channel identifier) w =
    raw identifier (u8 (discriminant channel) (u8 1 w))
write_payload (Payload.unbind_identifier identifier) w = raw identifier (u8 2 w)
write_payload (Payload.governance epoch update signatures) w =
    write_signatures signatures
      (u32 (length signatures) (bytes (write_update update []) (u64 epoch (u8 3 w))))
write_payload (Payload.distribute_fees asset amount split) w =
    bytes (encode_split split) (u128 amount (u32 asset (u8 4 w)))

-- The match on the authenticator in `encode`.
unfoldable pub write_authenticator : Authenticator → Writer → Writer
unfolding write_keyless
write_authenticator (Authenticator.ed25519 public_key signature) w =
    raw signature (raw public_key (u8 0 w))
write_authenticator (Authenticator.keyless sig) w = write_keyless sig (u8 1 w)

-- `encode`
unfoldable pub encode_transaction : Transaction → Bytes
unfolding write_payload write_authenticator
encode_transaction tx =
    let head = u128 tx.fee_rate (u32 tx.fee_asset (u64 tx.nonce (raw tx.sender []))) in
    let fees =
      u128 tx.max_priority_fee_per_gas
        (u128 tx.max_fee_per_gas (u64 tx.gas_limit (u64 tx.fee_intrinsic_gas head))) in
    write_authenticator tx.authenticator (bytes (write_payload tx.payload []) fees)
