-- ===== src/Stf/Keys.antt =====
-- crates/sena-stf/src/keys.rs: the trie key of each kind of state, and `Instruction::slot`. A name
-- is its UTF-8 bytes, an asset id its number.
pub mod Regions
use sena.Base.{ℕ}
use sena.Primitives.Encoding.{new_encoder, ascii, field, u64_field}
use sena.Primitives.Hash256.{Bytes, Hash256}
use sena.Stf.Instruction.{Instruction}

-- The module `region`.
abbrev pub account_region : Bytes
account_region = ascii "SENA:v1:state:account"

abbrev pub social_by_identifier_region : Bytes
social_by_identifier_region = ascii "SENA:v1:state:social-by-identifier"

abbrev pub social_by_address_region : Bytes
social_by_address_region = ascii "SENA:v1:state:social-by-address"

abbrev pub asset_region : Bytes
asset_region = ascii "SENA:v1:state:asset"

abbrev pub parameter_region : Bytes
parameter_region = ascii "SENA:v1:state:parameter"

abbrev pub council_region : Bytes
council_region = ascii "SENA:v1:state:council"

abbrev pub jwk_region : Bytes
jwk_region = ascii "SENA:v1:state:jwk"

abbrev pub fee_market_region : Bytes
fee_market_region = ascii "SENA:v1:state:fee-market"

abbrev pub fee_split_region : Bytes
fee_split_region = ascii "SENA:v1:state:fee-split"

-- The functions of keys.rs, by the entry that each is the key of.
pub data Entry : Type 0 where
  account : (address : Bytes) → Entry
  social_by_identifier : (identifier : Hash256) → Entry
  social_by_address : (address : Bytes) → Entry
  asset : (asset_id : ℕ) → Entry
  parameter : (name : Bytes) → Entry
  council fee_market fee_split : Entry
  jwk : (iss_hash jwk_hash : Bytes) → Entry

-- The bytes that each of them commits to.
unfoldable pub entry_preimage : Entry → Bytes
unfolding new_encoder field u64_field
entry_preimage (Entry.account address) = field address (new_encoder account_region)
entry_preimage (Entry.social_by_identifier identifier) =
    field identifier (new_encoder social_by_identifier_region)
entry_preimage (Entry.social_by_address address) =
    field address (new_encoder social_by_address_region)
entry_preimage (Entry.asset asset_id) = u64_field asset_id (new_encoder asset_region)
entry_preimage (Entry.parameter name) = field name (new_encoder parameter_region)
entry_preimage Entry.council = new_encoder council_region
entry_preimage Entry.fee_market = new_encoder fee_market_region
entry_preimage Entry.fee_split = new_encoder fee_split_region
entry_preimage (Entry.jwk iss_hash jwk_hash) =
    field jwk_hash (field iss_hash (new_encoder jwk_region))

-- The entry that an instruction reads and writes.
unfoldable pub slot_entry : Instruction → Entry
slot_entry (Instruction.consume_nonce address expected) = Entry.account address
slot_entry (Instruction.debit address asset_id amount) = Entry.account address
slot_entry (Instruction.credit address asset_id amount) = Entry.account address
slot_entry (Instruction.bind_identifier identifier address) = Entry.social_by_identifier identifier
slot_entry (Instruction.unbind_identifier identifier address) =
    Entry.social_by_identifier identifier
slot_entry (Instruction.verify_gas_asset asset_id rate intrinsic_gas) = Entry.asset asset_id
slot_entry (Instruction.disable_gas_asset asset_id) = Entry.asset asset_id
slot_entry (Instruction.charge_base_fee timestamp base_fee gas) = Entry.fee_market
slot_entry (Instruction.set_fee_market floor target) = Entry.fee_market
slot_entry (Instruction.verify_fee_split split) = Entry.fee_split
slot_entry (Instruction.set_fee_split split) = Entry.fee_split
slot_entry (Instruction.set_gas_asset asset_record) = Entry.asset asset_record.asset
slot_entry (Instruction.verify_council epoch digest signatures guardian) = Entry.council
slot_entry (Instruction.set_parameter name value) = Entry.parameter name
slot_entry (Instruction.verify_jwk iss_hash jwk_hash) = Entry.jwk iss_hash jwk_hash
slot_entry (Instruction.set_jwk iss_hash jwk_hash active) = Entry.jwk iss_hash jwk_hash

module _ (digest : Bytes → Hash256) where
  unfoldable pub entry_key : Entry → Hash256
  unfolding entry_preimage
  entry_key e = digest (entry_preimage e)

  -- `Instruction::slot`
  unfoldable pub slot : Instruction → Hash256
  unfolding slot_entry entry_key
  slot i = entry_key (slot_entry i)
