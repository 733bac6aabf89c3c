-- ===== src/Stf/Signing.antt =====
-- crates/sena-stf/src/transaction.rs and governance.rs: the digests that a sender and the council
-- sign, and the check of one signature. The digest function and the curve are parameters.
pub mod Fields
use sena.Primitives.Encoding.{new_encoder, ascii, field, u64_field, u128_field, transaction_domain}
use sena.Primitives.Hash256.{Bytes, Hash256}
use sena.Stf.Governance.{GovernanceUpdate}
use sena.Stf.Governance.Signatures.{Ed25519}
use sena.Stf.Wire.{write_payload, write_update, encode_transaction}
use sena.Stf.Transaction.{Transaction, Payload}
use sena.Base.{◌>>=◌, ◌>>◌, [], ℕ}

-- `GOVERNANCE_UPDATE`
abbrev pub governance_update_domain : Bytes
governance_update_domain = ascii "SENA:v1:governance-update"

-- `Payload::encode`
unfoldable pub encode_payload : Payload → Bytes
unfolding write_payload
encode_payload payload = write_payload payload []

-- The bytes that `Transaction::signing_digest` is taken of.
unfoldable pub signing_preimage : Transaction → Bytes
unfolding encode_payload new_encoder field u64_field u128_field
signing_preimage tx =
    let fees = u64_field tx.fee_intrinsic_gas (
      u128_field tx.fee_rate (
        u64_field tx.fee_asset
          (u64_field tx.nonce (field tx.sender (new_encoder transaction_domain))))) in
    field (encode_payload tx.payload) (
      u128_field tx.max_priority_fee_per_gas
        (u128_field tx.max_fee_per_gas (u64_field tx.gas_limit fees)))

-- `GovernanceUpdate::encode`
unfoldable pub encode_update : GovernanceUpdate → Bytes
unfolding write_update
encode_update update = write_update update []

-- The bytes that `GovernanceUpdate::signing_digest` is taken of.
unfoldable pub update_preimage : ℕ → GovernanceUpdate → Bytes
unfolding encode_update new_encoder field u64_field
update_preimage epoch update =
    field (encode_update update) (u64_field epoch (new_encoder governance_update_domain))

module _ (digest : Bytes → Hash256) where
  -- `Transaction::signing_digest`
  unfoldable pub signing_digest : Transaction → Hash256
  unfolding signing_preimage
  signing_digest tx = digest (signing_preimage tx)

  -- `Transaction::hash`
  unfoldable pub transaction_hash : Transaction → Hash256
  unfolding encode_transaction
  transaction_hash tx = digest (encode_transaction tx)

  -- `GovernanceUpdate::signing_digest`
  unfoldable pub update_digest : ℕ → GovernanceUpdate → Hash256
  unfolding update_preimage
  update_digest epoch update = digest (update_preimage epoch update)
