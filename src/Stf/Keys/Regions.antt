-- ===== src/Stf/Keys/Regions.antt =====
-- crates/sena-stf/src/keys.rs: what the preimages of the keys distinguish.
use sena.Primitives.Codec.BigEndian.{length-to_be_bytes, from-to_be_bytes}
use sena.Primitives.Codec.{to_be_bytes, from_be_bytes}
use sena.Primitives.Encoding.Framing.{push_all, push_all-inj}
use sena.Base.{
  length, List, ◌≡◌, All, ◌<◌, ◌∷◌, u32_mod, [], arith, get_or, refl, if◌then◌else◌, ap, ◌==◌, sym,
  ◌∙◌,
}
use sena.Primitives.Hash256.{Bytes}
use sena.Stf.Keys.{
  Entry, entry_preimage, account_region, social_by_identifier_region, social_by_address_region,
  asset_region, parameter_region, council_region, fee_market_region, fee_split_region, jwk_region,
}

-- An entry whose fields have the widths of the source's types.
abbrev pub IsEntry : Entry → Type 0
IsEntry (Entry.account address) = length address ≡ 32
IsEntry (Entry.social_by_identifier identifier) = length identifier ≡ 32
IsEntry (Entry.social_by_address address) = length address ≡ 32
IsEntry (Entry.asset asset_id) = asset_id < u32_mod
IsEntry (Entry.parameter name) = length name < u32_mod
IsEntry Entry.council = Unit
IsEntry Entry.fee_market = Unit
IsEntry Entry.fee_split = Unit
IsEntry (Entry.jwk iss_hash jwk_hash) = (length iss_hash ≡ 32) × (length jwk_hash ≡ 32)

-- The region's tag and the fields of an entry.
abbrev region : Entry → Bytes
region (Entry.account address) = account_region
region (Entry.social_by_identifier identifier) = social_by_identifier_region
region (Entry.social_by_address address) = social_by_address_region
region (Entry.asset asset_id) = asset_region
region (Entry.parameter name) = parameter_region
region Entry.council = council_region
region Entry.fee_market = fee_market_region
region Entry.fee_split = fee_split_region
region (Entry.jwk iss_hash jwk_hash) = jwk_region

abbrev entry_fields : Entry → List Bytes
entry_fields (Entry.account address) = address ∷ []
entry_fields (Entry.social_by_identifier identifier) = identifier ∷ []
entry_fields (Entry.social_by_address address) = address ∷ []
entry_fields (Entry.asset asset_id) = to_be_bytes 8 asset_id ∷ []
entry_fields (Entry.parameter name) = name ∷ []
entry_fields Entry.council = []
entry_fields Entry.fee_market = []
entry_fields Entry.fee_split = []
entry_fields (Entry.jwk iss_hash jwk_hash) = iss_hash ∷ jwk_hash ∷ []

entry_preimage-eq : (e : Entry) → entry_preimage e ≡ push_all (region e ∷ entry_fields e) []
unfolding entry_preimage
entry_preimage-eq (Entry.account address) = refl
entry_preimage-eq (Entry.social_by_identifier identifier) = refl
entry_preimage-eq (Entry.social_by_address address) = refl
entry_preimage-eq (Entry.asset asset_id) = refl
entry_preimage-eq (Entry.parameter name) = refl
entry_preimage-eq Entry.council = refl
entry_preimage-eq Entry.fee_market = refl
entry_preimage-eq Entry.fee_split = refl
entry_preimage-eq (Entry.jwk iss_hash jwk_hash) = refl

fields-short : (e : Entry) → IsEntry e → All (λ x. length x < u32_mod) (region e ∷ entry_fields e)
fields-short (Entry.account address) w = (omega arith, (omega arith, tt))
fields-short (Entry.social_by_identifier identifier) w = (omega arith, (omega arith, tt))
fields-short (Entry.social_by_address address) w = (omega arith, (omega arith, tt))
fields-short (Entry.asset asset_id) w =
    (omega arith, (omega (arith, length-to_be_bytes 8 asset_id), tt))
fields-short (Entry.parameter name) w = (omega arith, (omega arith, tt))
fields-short Entry.council w = (omega arith, tt)
fields-short Entry.fee_market w = (omega arith, tt)
fields-short Entry.fee_split w = (omega arith, tt)
fields-short (Entry.jwk iss_hash jwk_hash) w = (omega arith, (omega arith, (omega arith, tt)))

-- Reads the entry back off its fields: the tags differ in their lengths or in their fifteenth byte.
unfoldable read_entry : Bytes → Bytes → Bytes → Entry
read_entry tag first second =
    if length tag == 34
    then Entry.social_by_identifier first
    else if length tag == 31
    then Entry.social_by_address first
    else if length tag == 19
    then Entry.asset (from_be_bytes first)
    else if length tag == 17
    then Entry.jwk first second
    else if length tag == 24
    then Entry.fee_market
    else if length tag == 21
    then (if get_or tag 14 0 == 97 then Entry.account first else Entry.council)
    else if get_or tag 14 0 == 112
    then Entry.parameter first
    else Entry.fee_split

abbrev read_fields : List Bytes → Entry
read_fields fields = read_entry (get_or fields 0 []) (get_or fields 1 []) (get_or fields 2 [])

read_fields-eq : (e : Entry) → IsEntry e → read_fields (region e ∷ entry_fields e) ≡ e
unfolding read_entry
read_fields-eq (Entry.account address) w = refl
read_fields-eq (Entry.social_by_identifier identifier) w = refl
read_fields-eq (Entry.social_by_address address) w = refl
read_fields-eq (Entry.asset asset_id) w = ap Entry.asset (from-to_be_bytes 8 asset_id (omega arith))
read_fields-eq (Entry.parameter name) w = refl
read_fields-eq Entry.council w = refl
read_fields-eq Entry.fee_market w = refl
read_fields-eq Entry.fee_split w = refl
read_fields-eq (Entry.jwk iss_hash jwk_hash) w = refl

-- Two entries with fields of their widths whose keys are digests of the same bytes are the same
-- entry: no kind of state is taken for another, and no field for another.
pub entry_preimage-inj :
    (e f : Entry) → IsEntry e → IsEntry f → entry_preimage e ≡ entry_preimage f → e ≡ f
entry_preimage-inj e f v w q =
    let fields =
      push_all-inj (region e ∷ entry_fields e) (region f ∷ entry_fields f) (fields-short e v)
        (fields-short f w) (sym (entry_preimage-eq e) ∙ q ∙ entry_preimage-eq f) in
    sym (read_fields-eq e v) ∙ ap read_fields fields ∙ read_fields-eq f w
