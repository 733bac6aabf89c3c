-- ===== src/Stf/Wire/Read.antt =====
-- crates/sena-stf/src/wire.rs: the strict decoding of a transaction.
use sena.Stf.Gas.Split.{FeeSplit}
use sena.Primitives.Hash256.{Bytes, bytes_eq}
use sena.Base.{
  Result, map_err, Bool, ℕ, leb, Option, if◌then◌else◌, List, ok, some, ◌==◌, [], ltb, none, err,
  length, suc, ◌∷◌, true, false, zero,
}
use sena.Base.Action.{Action, pure, raise, require, or_raise, ◌>>=◌, ◌>>◌}
use sena.Primitives.Codec
use sena.Primitives.Codec.{Reader, DecodeError}
use sena.Stf.Governance.{GovernanceUpdate}
use sena.Stf.Wire.{WireError, encode_transaction, max_transaction_bytes, max_council_signatures}
use sena.Stf.Instruction.{CouncilSignature, WhitelistedAsset}
use sena.Stf.Gas.Stored.{encode_asset, encode_split, decode_asset, decode_split}
use sena.Stf.Transaction.{Transaction, Payload, Authenticator, KeylessSignature, from_discriminant}

-- `?` on a `Result` that reads nothing.
abbrev pub from_result : {E A : Type 0} → Result E A → Action Reader E A
from_result x r = (r, x)

-- `?` on a read, with `WireError::from`.
abbrev pub lift : {A : Type 0} → Codec.Read A → Action Reader WireError A
lift p r = let (r', x) = p r in (r', map_err WireError.malformed x)

-- A reader of its own over `input`.
abbrev pub nested : {E A : Type 0} → Action Reader E A → Bytes → Action Reader E A
nested p input r = (r, (p (Codec.new_reader input)).1)

-- The extra field in `read_keyless`.
unfoldable pub read_extra : Bool → Codec.Read (Option Bytes)
read_extra true = do h ← Codec.read_bytes32; pure (some h)
read_extra false = pure none

unfoldable pub read_keyless : Codec.Read KeylessSignature
unfolding read_extra
read_keyless = do
  iss_hash ← Codec.read_bytes32
  idc ← Codec.read_bytes32
  ephemeral_public_key ← Codec.read_bytes32
  ephemeral_signature ← Codec.take_bytes 64
  exp_date_secs ← Codec.read_u64
  exp_horizon_secs ← Codec.read_u64
  jwt_header_hash ← Codec.read_bytes32
  jwk_hash ← Codec.read_bytes32
  reveals ← Codec.read_bool
  extra_field_hash ← read_extra reveals
  proof ← Codec.take_bytes 128
  pure (record {
    iss_hash = iss_hash;
    idc = idc;
    ephemeral_public_key = ephemeral_public_key;
    ephemeral_signature = ephemeral_signature;
    exp_date_secs = exp_date_secs;
    exp_horizon_secs = exp_horizon_secs;
    jwt_header_hash = jwt_header_hash;
    jwk_hash = jwk_hash;
    extra_field_hash = extra_field_hash;
    proof = proof;
  })

-- `read_split`
unfoldable pub read_wire_split : ℕ → Codec.Read FeeSplit
read_wire_split variant = do
  input ← Codec.read_bytes
  split ← from_result (map_err (λ e. DecodeError.unknown_variant variant) (decode_split input))
  require (bytes_eq (encode_split split) input) (DecodeError.unknown_variant variant)
  pure split

-- The record in `read_update`, which must re-encode to the bytes that it was read from.
unfoldable pub read_wire_asset : Codec.Read WhitelistedAsset
read_wire_asset = do
  input ← Codec.read_bytes
  asset_record ← from_result (map_err (λ e. DecodeError.unknown_variant 0) (decode_asset input))
  require (bytes_eq (encode_asset asset_record) input) (DecodeError.unknown_variant 0)
  pure asset_record

-- The match on the tag in `read_update`.
unfoldable pub read_update_of : ℕ → Codec.Read GovernanceUpdate
unfolding read_wire_split read_wire_asset
read_update_of tag =
    if tag == 0
    then (do r ← read_wire_asset; pure (GovernanceUpdate.set_gas_asset r))
    else if tag == 1
    then (do
      name ← Codec.read_string
      value ← Codec.read_u128
      pure (GovernanceUpdate.set_parameter name value))
    else if tag == 2
    then (do
      iss_hash ← Codec.read_bytes32
      jwk_hash ← Codec.read_bytes32
      active ← Codec.read_bool
      pure (GovernanceUpdate.set_jwk iss_hash jwk_hash active))
    else if tag == 3
    then (do
      floor ← Codec.read_u128
      target ← Codec.read_u64
      pure (GovernanceUpdate.set_fee_market floor target))
    else if tag == 4
    then (do split ← read_wire_split 4; pure (GovernanceUpdate.set_fee_split split))
    else if tag == 5
    then (do asset ← Codec.read_u32; pure (GovernanceUpdate.disable_gas_asset asset))
    else raise (DecodeError.unknown_variant tag)

unfoldable pub read_update : Codec.Read GovernanceUpdate
unfolding read_update_of
read_update = do tag ← Codec.read_u8; read_update_of tag

-- The loop of `read_payload` over the signatures that are left.
unfoldable pub read_signatures : ℕ → Codec.Read (List CouncilSignature)
read_signatures zero = pure []
read_signatures (suc n) = do
  index ← Codec.read_u32
  sig ← Codec.read_bytes
  require (length sig == 64) DecodeError.length_overflow
  rest ← read_signatures n
  pure (record { index = index; signature = sig } ∷ rest)

-- The branch of `read_payload` for a governance payload.
unfoldable pub read_governance : Action Reader WireError Payload
unfolding read_update read_signatures
read_governance = do
  epoch ← lift Codec.read_u64
  inner ← lift Codec.read_bytes
  update ← nested (lift (do update ← read_update; Codec.finish; pure update)) inner
  count ← lift Codec.read_u32
  require (leb count max_council_signatures) WireError.too_many_signatures
  signatures ← lift (read_signatures count)
  pure (Payload.governance epoch update signatures)

-- The match on the tag in `read_payload`, where each branch but that one only reads.
unfoldable pub read_payload_of : ℕ → Action Reader WireError Payload
unfolding read_governance read_wire_split
read_payload_of tag =
    if tag == 0
    then lift (do
      to ← Codec.read_bytes32
      asset ← Codec.read_u32
      amount ← Codec.read_u128
      pure (Payload.transfer to asset amount))
    else if tag == 1
    then lift (do
      d ← Codec.read_u8
      channel ← or_raise (from_discriminant d) (DecodeError.unknown_variant d)
      identifier ← Codec.read_bytes32
      pure (Payload.bind_identifier channel identifier))
    else if tag == 2
    then lift (do identifier ← Codec.read_bytes32; pure (Payload.unbind_identifier identifier))
    else if tag == 3
    then read_governance
    else if tag == 4
    then lift (do
      asset ← Codec.read_u32
      amount ← Codec.read_u128
      split ← read_wire_split 4
      pure (Payload.distribute_fees asset amount split))
    else raise (WireError.malformed (DecodeError.unknown_variant tag))

unfoldable pub read_payload : Action Reader WireError Payload
unfolding read_payload_of
read_payload = do tag ← lift Codec.read_u8; read_payload_of tag

-- The match on the tag of the authenticator in `decode`.
unfoldable pub read_authenticator : ℕ → Codec.Read Authenticator
unfolding read_keyless
read_authenticator tag =
    if tag == 0
    then (do
      public_key ← Codec.read_bytes32
      signature ← Codec.take_bytes 64
      pure (Authenticator.ed25519 public_key signature))
    else if tag == 1
    then (do sig ← read_keyless; pure (Authenticator.keyless sig))
    else raise (DecodeError.unknown_variant tag)

-- `decode` up to the end of the input.
unfoldable pub read_transaction : Action Reader WireError Transaction
unfolding read_payload read_authenticator
read_transaction = do
  sender ← lift Codec.read_bytes32
  nonce ← lift Codec.read_u64
  fee_asset ← lift Codec.read_u32
  fee_rate ← lift Codec.read_u128
  fee_intrinsic_gas ← lift Codec.read_u64
  gas_limit ← lift Codec.read_u64
  max_fee_per_gas ← lift Codec.read_u128
  max_priority_fee_per_gas ← lift Codec.read_u128
  payload_bytes ← lift Codec.read_bytes
  payload ← nested (do payload ← read_payload; lift Codec.finish; pure payload) payload_bytes
  tag ← lift Codec.read_u8
  authenticator ← lift (read_authenticator tag)
  lift Codec.finish
  pure (record {
    sender = sender;
    nonce = nonce;
    fee_asset = fee_asset;
    fee_rate = fee_rate;
    fee_intrinsic_gas = fee_intrinsic_gas;
    gas_limit = gas_limit;
    max_fee_per_gas = max_fee_per_gas;
    max_priority_fee_per_gas = max_priority_fee_per_gas;
    payload = payload;
    authenticator = authenticator;
  })

-- The backstop at the end of `decode`.
unfoldable pub strict : Bytes → Result WireError Transaction → Result WireError Transaction
strict input (ok tx) =
    if bytes_eq (encode_transaction tx) input
    then ok tx
    else err (WireError.malformed (DecodeError.unknown_variant 255))
strict input (err e) = err e

-- `decode`
unfoldable pub decode_transaction : Bytes → Result WireError Transaction
unfolding read_transaction strict
decode_transaction input =
    if ltb max_transaction_bytes (length input)
    then err (WireError.too_large (length input))
    else strict input (read_transaction (Codec.new_reader input)).1
