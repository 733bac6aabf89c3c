-- ===== src/Stf/Governance.antt =====
-- crates/sena-stf/src/governance.rs: the council, the updates it may sign and the check of its
-- signatures. A name is its UTF-8 bytes.
pub mod Signatures
pub mod Quorum
use sena.Primitives.Encoding.{ascii}
use sena.Primitives.Codec.Write.{Writer, u32, u64, raw}
use sena.Stf.Gas.Split.{FeeSplit, check_split}
use sena.Primitives.Hash256.{Bytes, Hash256, bytes_eq}
use sena.Base.{
  List, ℕ, Bool, Result, Option, if◌then◌else◌, [], map_err, false, guard, true, ok_or, ok, ◌&&◌,
  ◌∷◌, not, get_elem?, suc, some, ltb, length, ◌==◌, leb, zero, ◌||◌, none, min, u32_mod, ◌-◌,
}
use sena.Primitives.Codec
use sena.Base.Action.{Action, pure, raise, gets, require, ◌>>=◌, ◌>>◌}
use sena.Stf.Instruction.{WhitelistedAsset, CouncilSignature}

pub record Council : Type 0 where
  pub members : List Bytes
  pub threshold : ℕ
  pub epoch : ℕ
  pub guardian_threshold : ℕ

pub data GovernanceError : Type 0 where
  malformed_council unknown_signer unordered_signers invalid_asset_rate : GovernanceError
  invalid_fee_parameter : GovernanceError
  bad_signature : ℕ → GovernanceError
  threshold_not_met wrong_epoch : ℕ → ℕ → GovernanceError
  ungovernable_parameter : Bytes → GovernanceError

pub data GovernanceUpdate : Type 0 where
  set_gas_asset : (asset_record : WhitelistedAsset) → GovernanceUpdate
  set_parameter : (name : Bytes) (value : ℕ) → GovernanceUpdate
  set_jwk : (iss_hash jwk_hash : Bytes) (active : Bool) → GovernanceUpdate
  set_fee_market : (floor target : ℕ) → GovernanceUpdate
  set_fee_split : (split : FeeSplit) → GovernanceUpdate
  disable_gas_asset : (asset : ℕ) → GovernanceUpdate

-- `Council::required`
unfoldable pub required : Council → Bool → ℕ
required c guardian =
    if guardian && ltb 0 c.guardian_threshold then c.guardian_threshold else c.threshold

-- The loop of `Council::encode`.
unfoldable pub write_members : List Bytes → Writer → Writer
write_members [] w = w
write_members (key ∷ left) w = write_members left (raw key w)

-- `Council::encode`
unfoldable pub encode_council : Council → Bytes
unfolding write_members
encode_council c =
    u32 c.guardian_threshold
      (u64 c.epoch (u32 c.threshold (write_members c.members (u32 (length c.members) []))))

-- The loop of `Council::decode_inner`.
unfoldable pub read_members : ℕ → Codec.Read (List Bytes)
read_members zero = pure []
read_members (suc n) = do key ← Codec.read_bytes32; rest ← read_members n; pure (key ∷ rest)

-- `Council::decode_inner`
unfoldable pub read_council : Codec.Read Council
unfolding read_members
read_council = do
  count ← Codec.read_u32
  members ← read_members count
  threshold ← Codec.read_u32
  epoch ← Codec.read_u64
  guardian_threshold ← Codec.read_u32
  Codec.finish
  pure (record {
    members = members;
    threshold = threshold;
    epoch = epoch;
    guardian_threshold = guardian_threshold;
  })

-- `Council::decode`
unfoldable pub decode_council : Bytes → Result GovernanceError Council
unfolding read_council
decode_council input =
    map_err (λ e. GovernanceError.malformed_council) (Codec.decode_with read_council input)

-- `GOVERNABLE_PARAMETERS`
abbrev pub governable_parameters : List Bytes
governable_parameters = ascii "batch.max_transactions" ∷ []

-- `contains` on the names.
unfoldable pub contains_name : Bytes → List Bytes → Bool
contains_name name [] = false
contains_name name (x ∷ xs) = bytes_eq x name || contains_name name xs

-- `GovernanceUpdate::check_permitted`
unfoldable pub check_permitted : GovernanceUpdate → Result GovernanceError (Unit {0})
unfolding contains_name
check_permitted (GovernanceUpdate.set_parameter name value) =
    guard (contains_name name governable_parameters) (GovernanceError.ungovernable_parameter name)
check_permitted (GovernanceUpdate.set_gas_asset asset_record) =
    guard (not (asset_record.rate == 0)) GovernanceError.invalid_asset_rate
check_permitted (GovernanceUpdate.set_fee_market floor target) =
    guard (not (floor == 0 || target == 0)) GovernanceError.invalid_fee_parameter
check_permitted (GovernanceUpdate.set_fee_split split) =
    map_err (λ e. GovernanceError.invalid_fee_parameter) (check_split split)
check_permitted (GovernanceUpdate.set_jwk iss_hash jwk_hash active) = ok tt
check_permitted (GovernanceUpdate.disable_gas_asset asset) = ok tt

-- `GovernanceUpdate::guardian_may_apply`
unfoldable pub guardian_may_apply : GovernanceUpdate → Bool
guardian_may_apply (GovernanceUpdate.disable_gas_asset asset) = true
guardian_may_apply _ = false
