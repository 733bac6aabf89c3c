-- ===== src/Stf/Execute.antt =====
-- crates/sena-stf/src/execute.rs: the semantics of the instructions, from a slot's bytes to its new
-- bytes.
pub mod Fees
pub mod Council
pub mod Transition
pub mod Step
use sena.Stf.Gas.Records.{decode_market}
use sena.Stf.Governance.{GovernanceError}
use sena.State.Proof.{ProofError}
use sena.Stf.Social.{MalformedBinding, SocialBinding, encode_binding, decode_binding}
use sena.Stf.Gas.{FeeMarket, genesis_market, GasError, default_base_fee_floor, default_gas_target}
use sena.Primitives.Codec.Write.{byte_of_bool}
use sena.Primitives.Hash256.{Bytes, Hash256, bytes_eq}
use sena.Base.{
  ◌>>=◌, ◌>>◌, ℕ, Bool, Option, Result, ◌∷◌, ok, guard, ok_or, [], false, ◌==◌, err, map_err, some,
  checked_add, if◌then◌else◌, suc, true, u64_mod, zero, none,
}
use sena.Stf.Account
use sena.Stf.Account.{Account, BalanceError}
use sena.Stf.Instruction.{Instruction}

-- `StepError`
pub data StepError : Type 0 where
  nonce_mismatch : (actual expected : ℕ) → StepError
  balance : BalanceError → StepError
  malformed_slot identifier_taken identifier_not_held : StepError
  witness_slot_mismatch : (provided expected : Hash256) → StepError
  bad_witness_proof : ProofError → StepError
  asset_not_whitelisted asset_disabled : StepError
  gas_rate_mismatch : (declared on_chain : ℕ) → StepError
  gas : GasError → StepError
  governance : GovernanceError → StepError
  jwk_not_accepted window_full fee_split_mismatch : StepError
  intrinsic_gas_mismatch : (declared on_chain : ℕ) → StepError
  base_fee_mismatch : (declared actual : ℕ) → StepError

-- `encode_jwk_record`
unfoldable pub encode_jwk_record : Bool → Bytes
encode_jwk_record active = byte_of_bool active ∷ []

-- `decode_jwk_record`
unfoldable pub decode_jwk_record : Bytes → Result StepError Bool
decode_jwk_record (zero ∷ []) = ok false
decode_jwk_record (suc zero ∷ []) = ok true
decode_jwk_record _ = err StepError.malformed_slot

-- `decode_account`
unfoldable pub decode_account : Option Bytes → Result StepError Account
decode_account none = ok Account.new_account
decode_account (some stored) = map_err (λ e. StepError.malformed_slot) (Account.decode stored)

-- `decode_fee_market`
unfoldable pub decode_fee_market : Option Bytes → Result StepError FeeMarket
decode_fee_market none = ok (genesis_market default_base_fee_floor default_gas_target)
decode_fee_market (some stored) = map_err (λ e. StepError.malformed_slot) (decode_market stored)

-- The end of the balance instructions: `?` on the update, then the encoding.
unfoldable pub store_updated : Account × Result BalanceError (Unit {0}) → Result StepError Bytes
store_updated (a, ok done) = ok (Account.encode a)
store_updated (a, err e) = err (StepError.balance e)

-- `Instruction::ConsumeNonce`
unfoldable pub consume_nonce : ℕ → Option Bytes → Result StepError Bytes
unfolding decode_account
consume_nonce expected current = do
  a ← decode_account current
  guard (a.nonce == expected) (StepError.nonce_mismatch a.nonce expected)
  next ← ok_or (checked_add u64_mod a.nonce 1) (StepError.balance BalanceError.overflow)
  ok (Account.encode (record a { nonce = next }))

-- `Instruction::Debit`
unfoldable pub debit_slot : ℕ → ℕ → Option Bytes → Result StepError Bytes
unfolding decode_account store_updated
debit_slot asset amount current = do
  a ← decode_account current
  store_updated (Account.debit asset amount a)

-- `Instruction::Credit`
unfoldable pub credit_slot : ℕ → ℕ → Option Bytes → Result StepError Bytes
unfolding decode_account store_updated
credit_slot asset amount current = do
  a ← decode_account current
  store_updated (Account.credit asset amount a)

-- Whether the stored binding lets the address bind the identifier.
unfoldable pub check_free :
    Bytes → Result MalformedBinding SocialBinding → Result StepError (Unit {0})
check_free address (err e) = err StepError.malformed_slot
check_free address (ok SocialBinding.vacant) = ok tt
check_free address (ok (SocialBinding.bound holder)) =
    guard (bytes_eq holder address) StepError.identifier_taken

-- `Instruction::BindIdentifier`
unfoldable pub bind_identifier : Bytes → Option Bytes → Result StepError Bytes
unfolding check_free
bind_identifier address none = ok (encode_binding (SocialBinding.bound address))
bind_identifier address (some stored) = do
  check_free address (decode_binding stored)
  ok (encode_binding (SocialBinding.bound address))

-- The match on the holder in `Instruction::UnbindIdentifier`.
unfoldable pub release : Bytes → SocialBinding → Result StepError Bytes
release expected_owner SocialBinding.vacant = err StepError.identifier_not_held
release expected_owner (SocialBinding.bound holder) =
    if bytes_eq holder expected_owner
    then ok (encode_binding SocialBinding.vacant)
    else err StepError.identifier_not_held

-- `Instruction::UnbindIdentifier`
unfoldable pub unbind_identifier : Bytes → Option Bytes → Result StepError Bytes
unfolding release
unbind_identifier expected_owner current = do
  stored ← ok_or current StepError.identifier_not_held
  binding ← map_err (λ e. StepError.malformed_slot) (decode_binding stored)
  release expected_owner binding

-- `Instruction::VerifyJwk`
unfoldable pub verify_jwk : Option Bytes → Result StepError Bytes
unfolding decode_jwk_record
verify_jwk current = do
  stored ← ok_or current StepError.jwk_not_accepted
  active ← decode_jwk_record stored
  guard active StepError.jwk_not_accepted
  ok stored
