-- ===== src/Stf/Wire/Updates.antt =====
-- crates/sena-stf/src/wire.rs: reading back a governance update and the council's signatures.
use mathlib.Core.List.{append_assoc, append-nil}
use sena.Primitives.Codec.Write.{byte_of_bool, bytes, u32}
use sena.Primitives.Hash256.{Bytes, bytes_eq_refl}
use sena.Base.{
  refl, ◌<◌, ℕ, arith, [], List, u128_mod, ◌++◌, ◌≡◌, u32_mod, ◌∷◌, All, length, ok, sym, u64_mod,
  ◌∙◌,
}
use sena.Primitives.Codec.Reads.{
  Reads, Front, Front-eq, framed, length-framed, IsText, Reads-u8, Reads-uint, Reads-raw,
  Reads-string, Reads-bool, Reads-bytes,
}
use sena.Primitives.Codec
use sena.Primitives.Codec.{to_be_bytes}
use sena.Stf.Wire.Records.{IsAsset, IsSplit, decode-encode_asset, decode-encode_split}
use sena.Stf.Wire.Read.{
  read_wire_split, read_wire_asset, read_update, read_update_of, read_signatures,
}
use sena.Stf.Wire.{write_update, write_signatures}
use sena.Stf.Gas.Stored.{encode_asset, encode_split}
use sena.Stf.Gas.Split.{FeeSplit}
use sena.Stf.Governance.{GovernanceUpdate}
use sena.Stf.Instruction.{CouncilSignature, WhitelistedAsset}

-- The widths of an update's fields, with at most 8 beneficiaries of a fee split.
abbrev pub IsUpdate : GovernanceUpdate → Type 0
IsUpdate (GovernanceUpdate.set_gas_asset asset_record) = IsAsset asset_record
IsUpdate (GovernanceUpdate.set_parameter name value) = IsText name × (value < u128_mod)
IsUpdate (GovernanceUpdate.set_jwk iss_hash jwk_hash active) =
    (length iss_hash ≡ 32) × (length jwk_hash ≡ 32)
IsUpdate (GovernanceUpdate.set_fee_market floor target) = (floor < u128_mod) × (target < u64_mod)
IsUpdate (GovernanceUpdate.set_fee_split split) = IsSplit split
IsUpdate (GovernanceUpdate.disable_gas_asset asset) = asset < u32_mod

pub Reads-split :
    (variant : ℕ) (s : FeeSplit)
    → IsSplit s
    → Reads (read_wire_split variant) (framed (encode_split s)) s
unfolding read_wire_split
Reads-split variant s w = record {
  run = λ r ys f.
      let e0 = decode-encode_split s w (length-framed (encode_split s) ys r f) in
      let (r1, e1, f1) = (Reads-bytes (encode_split s)).run r ys f in
      (r1, ground (arith, e1, e0, bytes_eq_refl (encode_split s)), f1);
}

Reads-asset : (a : WhitelistedAsset) → IsAsset a → Reads read_wire_asset (framed (encode_asset a)) a
unfolding read_wire_asset
Reads-asset a w = record {
  run = λ r ys f.
      let e0 = decode-encode_asset a w (length-framed (encode_asset a) ys r f) in
      let (r1, e1, f1) = (Reads-bytes (encode_asset a)).run r ys f in
      (r1, ground (arith, e1, e0, bytes_eq_refl (encode_asset a)), f1);
}

-- What follows the tag.
abbrev update_fields : GovernanceUpdate → Bytes → Bytes
update_fields (GovernanceUpdate.set_gas_asset asset_record) ys =
    framed (encode_asset asset_record) ++ ys
update_fields (GovernanceUpdate.set_parameter name value) ys =
    framed name ++ (to_be_bytes 16 value ++ ys)
update_fields (GovernanceUpdate.set_jwk iss_hash jwk_hash active) ys =
    iss_hash ++ (jwk_hash ++ ((byte_of_bool active ∷ []) ++ ys))
update_fields (GovernanceUpdate.set_fee_market floor target) ys =
    to_be_bytes 16 floor ++ (to_be_bytes 8 target ++ ys)
update_fields (GovernanceUpdate.set_fee_split split) ys = framed (encode_split split) ++ ys
update_fields (GovernanceUpdate.disable_gas_asset asset) ys = to_be_bytes 4 asset ++ ys

abbrev update_tag : GovernanceUpdate → ℕ
update_tag (GovernanceUpdate.set_gas_asset asset_record) = 0
update_tag (GovernanceUpdate.set_parameter name value) = 1
update_tag (GovernanceUpdate.set_jwk iss_hash jwk_hash active) = 2
update_tag (GovernanceUpdate.set_fee_market floor target) = 3
update_tag (GovernanceUpdate.set_fee_split split) = 4
update_tag (GovernanceUpdate.disable_gas_asset asset) = 5

write_update-eq :
    (u : GovernanceUpdate) (ys : Bytes)
    → write_update u [] ++ ys ≡ (update_tag u ∷ []) ++ update_fields u ys
unfolding write_update framed
write_update-eq (GovernanceUpdate.set_gas_asset asset_record) ys = simp append_assoc
write_update-eq (GovernanceUpdate.set_parameter name value) ys = simp append_assoc
write_update-eq (GovernanceUpdate.set_jwk iss_hash jwk_hash active) ys = simp append_assoc
write_update-eq (GovernanceUpdate.set_fee_market floor target) ys = simp append_assoc
write_update-eq (GovernanceUpdate.set_fee_split split) ys = simp append_assoc
write_update-eq (GovernanceUpdate.disable_gas_asset asset) ys = simp append_assoc

read_fields :
    (u : GovernanceUpdate) (ys : Bytes) (r : Codec.Reader)
    → IsUpdate u
    → Front r (update_fields u ys)
    → (r' : Codec.Reader) × (read_update_of (update_tag u) r ≡ (r', ok u)) × Front r' ys
unfolding read_update_of
read_fields (GovernanceUpdate.set_gas_asset asset_record) ys r w f =
    let (r1, e1, f1) = (Reads-asset asset_record w).run r _ f in (r1, ground (arith, e1), f1)
read_fields (GovernanceUpdate.set_parameter name value) ys r (text, w) f =
    let (r1, e1, f1) = (Reads-string name text).run r _ f in
    let (r2, e2, f2) = (Reads-uint 16 value w).run r1 _ f1 in (r2, ground (arith, e1, e2), f2)
read_fields (GovernanceUpdate.set_jwk iss_hash jwk_hash active) ys r (i, j) f =
    let (r1, e1, f1) = (Reads-raw 32 iss_hash i).run r _ f in
    let (r2, e2, f2) = (Reads-raw 32 jwk_hash j).run r1 _ f1 in
    let (r3, e3, f3) = (Reads-bool active).run r2 _ f2 in (r3, ground (arith, e1, e2, e3), f3)
read_fields (GovernanceUpdate.set_fee_market floor target) ys r (fl, ta) f =
    let (r1, e1, f1) = (Reads-uint 16 floor fl).run r _ f in
    let (r2, e2, f2) = (Reads-uint 8 target ta).run r1 _ f1 in (r2, ground (arith, e1, e2), f2)
read_fields (GovernanceUpdate.set_fee_split split) ys r w f =
    let (r1, e1, f1) = (Reads-split 4 split w).run r _ f in (r1, ground (arith, e1), f1)
read_fields (GovernanceUpdate.disable_gas_asset asset) ys r w f =
    let (r1, e1, f1) = (Reads-uint 4 asset w).run r _ f in (r1, ground (arith, e1), f1)

pub Reads-update : (u : GovernanceUpdate) → IsUpdate u → Reads read_update (write_update u []) u
unfolding read_update
Reads-update u w = record {
  run = λ r ys f.
      let (r1, e1, f1) = (Reads-u8 (update_tag u)).run r _ (Front-eq (write_update-eq u ys) f) in
      let (r2, e2, f2) = read_fields u ys r1 w f1 in (r2, ground (arith, e1, e2), f2);
}

abbrev pub IsSigned : CouncilSignature → Type 0
IsSigned s = (s.index < u32_mod) × (length s.signature ≡ 64)

abbrev pub signatures_bytes : List CouncilSignature → Bytes
signatures_bytes [] = []
signatures_bytes (s ∷ left) = to_be_bytes 4 s.index ++ (framed s.signature ++ signatures_bytes left)

pub write_signatures-eq :
    (l : List CouncilSignature) (w : Bytes) → write_signatures l w ≡ w ++ signatures_bytes l
unfolding write_signatures framed
write_signatures-eq [] w = sym (append-nil w)
write_signatures-eq (s ∷ left) w =
    write_signatures-eq left (bytes s.signature (u32 s.index w)) ∙ simp append_assoc

pub Reads-signatures :
    (l : List CouncilSignature)
    → All IsSigned l
    → Reads (read_signatures (length l)) (signatures_bytes l) l
unfolding read_signatures
Reads-signatures [] h = record { run = λ r ys f. (r, refl, f) }
Reads-signatures (s ∷ left) ((i, l), h) = record {
  run = λ r ys f.
      let f0 =
        Front-eq
          {ys = to_be_bytes 4 s.index ++ (framed s.signature ++ (signatures_bytes left ++ ys))}
          (simp append_assoc) f in
      let (r1, e1, f1) = (Reads-uint 4 s.index i).run r _ f0 in
      let (r2, e2, f2) = (Reads-bytes s.signature).run r1 _ f1 in
      let (r3, e3, f3) = (Reads-signatures left h).run r2 _ f2 in
      (r3, ground (arith, e1, e2, l, e3), f3);
}
