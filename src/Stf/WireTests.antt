-- ===== src/Stf/WireTests.antt =====
-- crates/sena-stf/src/wire.rs, transaction.rs and batch.rs: the theorems at a concrete transaction
-- and at a batch of three.
use sena.Base.{
  arith, ◌≡◌, length, ◌∷◌, ◌++◌, ok, ◌<◌, [], refl, ◌↔◌, u32_mod, ◌≢◌, ◌≤◌, ap, length-append, List,
  some, ℕ, err, suc, zero,
}
use sena.Primitives.Hash256.{zero_bytes, Bytes}
use sena.Stf.Wire.{encode_transaction, max_transaction_bytes, WireError}
use sena.Stf.Wire.Read.{decode_transaction}
use sena.Stf.Wire.Canonical.{IsTransaction, decode_transaction_iff}
use sena.Stf.Batch.{LeafProof, prove_leaf, build, root_for, leaf_hash, batch_root}
use sena.Stf.Batch.Paths.{prove_leaf-build}
use sena.State.Sample.{checksum}
use sena.Stf.Instruction.{CouncilSignature}
use sena.Stf.Governance.{GovernanceUpdate}
use sena.Stf.Signing.{signing_preimage, encode_payload}
use sena.Stf.Signing.Fields.{signing_preimage-inj}
use sena.Stf.Transaction.{Transaction, Payload, Authenticator}

-- A transfer of 250 units.
abbrev pay : Transaction
pay = record {
  sender = zero_bytes 32;
  nonce = 7;
  fee_asset = 1;
  fee_rate = 1000000;
  fee_intrinsic_gas = 10000;
  gas_limit = 100000;
  max_fee_per_gas = 30;
  max_priority_fee_per_gas = 2;
  payload = Payload.transfer (zero_bytes 32) 1 250;
  authenticator = Authenticator.ed25519 (zero_bytes 32) (zero_bytes 64);
}

pay-IsTransaction : IsTransaction pay
pay-IsTransaction = record {
  sender_width = refl;
  nonce_fits = omega arith;
  fee_asset_fits = omega arith;
  fee_rate_fits = omega arith;
  intrinsic_fits = omega arith;
  gas_limit_fits = omega arith;
  max_fee_fits = omega arith;
  max_tip_fits = omega arith;
  payload_fits = (refl, omega arith, omega arith);
  authenticator_fits = (refl, refl);
}

decode_transaction_iff_example : (decode_transaction (encode_transaction pay) ≡ ok pay) ↔ (
    (encode_transaction pay ≡ encode_transaction pay)
    × (length (encode_transaction pay) ≤ max_transaction_bytes))
decode_transaction_iff_example =
    decode_transaction_iff pay (encode_transaction pay) pay-IsTransaction

-- The encoding of the transfer has 262 bytes, and decodes.
length-pay : length (encode_transaction pay) ≡ 262
unfolding encode_transaction sena.Primitives.Codec.to_be_bytes
length-pay = refl

decode-pay : decode_transaction (encode_transaction pay) ≡ ok pay
decode-pay =
    (decode_transaction_iff pay (encode_transaction pay) pay-IsTransaction).1
      (refl, omega (arith, length-pay))

-- The same transfer with another signature.
abbrev resigned : Transaction
resigned = record pay { authenticator = Authenticator.ed25519 (zero_bytes 32) (1 ∷ zero_bytes 63) }

resigned-IsTransaction : IsTransaction resigned
resigned-IsTransaction = record {
  sender_width = refl;
  nonce_fits = omega arith;
  fee_asset_fits = omega arith;
  fee_rate_fits = omega arith;
  intrinsic_fits = omega arith;
  gas_limit_fits = omega arith;
  max_fee_fits = omega arith;
  max_tip_fits = omega arith;
  payload_fits = (refl, omega arith, omega arith);
  authenticator_fits = (refl, refl);
}

length-payload : length (encode_payload pay.payload) < u32_mod
unfolding encode_payload sena.Primitives.Codec.to_be_bytes
length-payload = omega arith

signing_preimage-inj_example : record pay { authenticator = resigned.authenticator } ≡ resigned
unfolding signing_preimage
signing_preimage-inj_example =
    signing_preimage-inj pay resigned pay-IsTransaction resigned-IsTransaction length-payload
      length-payload refl

-- A transaction with a byte behind it is refused.
trailing : decode_transaction (encode_transaction pay ++ 0 ∷ []) ≢ ok pay
trailing e =
    let same =
      ((decode_transaction_iff pay (encode_transaction pay ++ 0 ∷ []) pay-IsTransaction).0 e).0 in
    absurd
      (ground (arith, ap length same, length-pay, length-append (encode_transaction pay) (0 ∷ [])))

abbrev three : List (ℕ × Bytes)
three = (0, 7 ∷ []) ∷ (4, 8 ∷ []) ∷ (9, 9 ∷ 9 ∷ []) ∷ []

prove_leaf-build_example :
    (p : LeafProof) × (prove_leaf (build checksum three) 2 ≡ some p)
    × (root_for checksum p (leaf_hash checksum 2 9 (9 ∷ 9 ∷ []))
        ≡ batch_root (build checksum three))
prove_leaf-build_example = prove_leaf-build checksum three 2 9 (9 ∷ 9 ∷ []) refl

-- A governance payload with more than 32 signatures is encoded, and refused by decode.
abbrev copies : ℕ → List CouncilSignature
copies zero = []
copies (suc n) = record { index = n; signature = zero_bytes 64 } ∷ copies n

abbrev crowded : Transaction
crowded = record pay {
  payload = Payload.governance 0 (GovernanceUpdate.disable_gas_asset 1) (copies 33);
}

decode-crowded : decode_transaction (encode_transaction crowded) ≡ err WireError.too_many_signatures
unfolding decode_transaction encode_transaction sena.Primitives.Codec.to_be_bytes
    sena.Primitives.Codec.from_be_bytes sena.Primitives.Codec.take_bytes
    sena.Primitives.Codec.read_uint sena.Primitives.Codec.read_u8 sena.Primitives.Codec.read_bytes
    sena.Primitives.Codec.finish
decode-crowded = refl
