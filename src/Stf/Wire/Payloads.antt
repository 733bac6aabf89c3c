-- ===== src/Stf/Wire/Payloads.antt =====
-- crates/sena-stf/src/wire.rs: reading back a payload.
use mathlib.Core.List.{append_assoc, append-nil}
use sena.Primitives.Hash256.{Bytes}
use sena.Primitives.Codec.Reads.{
  Reads, Front, Front-eq, Front-new, framed, length-framed, Reads-u8, Reads-uint, Reads-raw,
  Reads-bytes, finish-Front,
}
use sena.Primitives.Codec
use sena.Base.Action.{pure, ◌>>=◌, ◌>>◌}
use sena.Base.{
  refl, length, ◌≡◌, ℕ, [], ◌<◌, some, ◌++◌, List, ok, arith, u32_mod, ◌∷◌, ◌≤◌, u128_mod, sym,
  u64_mod, ap, leb, ◌∙◌, true, All,
}
use sena.Primitives.Codec.{to_be_bytes}
use sena.Stf.Wire.Records.{IsSplit}
use sena.Stf.Wire.Updates.{
  IsUpdate, IsSigned, Reads-split, Reads-update, Reads-signatures, signatures_bytes,
  write_signatures-eq,
}
use sena.Stf.Wire.Read.{read_update, read_payload, read_payload_of, read_governance, nested, lift}
use sena.Stf.Wire.{write_update, write_payload, max_council_signatures}
use sena.Stf.Gas.Stored.{encode_split}
use sena.Stf.Governance.{GovernanceUpdate}
use sena.Stf.Instruction.{CouncilSignature}
use sena.Stf.Transaction.{Payload, Channel, discriminant, from_discriminant}

-- The widths of a payload's fields, with at most 32 signatures and at most 8 beneficiaries of a
-- fee split.
abbrev pub IsPayload : Payload → Type 0
IsPayload (Payload.transfer to asset amount) =
    (length to ≡ 32) × (asset < u32_mod) × (amount < u128_mod)
IsPayload (Payload.bind_identifier channel identifier) = length identifier ≡ 32
IsPayload (Payload.unbind_identifier identifier) = length identifier ≡ 32
IsPayload (Payload.governance epoch update signatures) =
    (epoch < u64_mod)
    × IsUpdate update
    × (leb (length signatures) max_council_signatures ≡ true)
    × All IsSigned signatures
IsPayload (Payload.distribute_fees asset amount split) =
    (asset < u32_mod) × (amount < u128_mod) × IsSplit split

pub from-discriminant : (c : Channel) → from_discriminant (discriminant c) ≡ some c
unfolding from_discriminant discriminant
from-discriminant Channel.email = refl
from-discriminant Channel.phone = refl
from-discriminant Channel.handle = refl

abbrev payload_tag : Payload → ℕ
payload_tag (Payload.transfer to asset amount) = 0
payload_tag (Payload.bind_identifier channel identifier) = 1
payload_tag (Payload.unbind_identifier identifier) = 2
payload_tag (Payload.governance epoch update signatures) = 3
payload_tag (Payload.distribute_fees asset amount split) = 4

-- What follows the tag.
abbrev payload_fields : Payload → Bytes → Bytes
payload_fields (Payload.transfer to asset amount) ys =
    to ++ (to_be_bytes 4 asset ++ (to_be_bytes 16 amount ++ ys))
payload_fields (Payload.bind_identifier channel identifier) ys =
    (discriminant channel ∷ []) ++ (identifier ++ ys)
payload_fields (Payload.unbind_identifier identifier) ys = identifier ++ ys
payload_fields (Payload.governance epoch update signatures) ys =
    to_be_bytes 8 epoch
    ++ (framed (write_update update [])
        ++ (to_be_bytes 4 (length signatures) ++ (signatures_bytes signatures ++ ys)))
payload_fields (Payload.distribute_fees asset amount split) ys =
    to_be_bytes 4 asset ++ (to_be_bytes 16 amount ++ (framed (encode_split split) ++ ys))

write_payload-eq :
    (p : Payload) (ys : Bytes)
    → write_payload p [] ++ ys ≡ (payload_tag p ∷ []) ++ payload_fields p ys
unfolding write_payload framed
write_payload-eq (Payload.transfer to asset amount) ys = simp append_assoc
write_payload-eq (Payload.bind_identifier channel identifier) ys = simp append_assoc
write_payload-eq (Payload.unbind_identifier identifier) ys = simp append_assoc
write_payload-eq (Payload.governance epoch update signatures) ys =
    ap (λ t. t ++ ys) (write_signatures-eq signatures _) ∙ simp append_assoc
write_payload-eq (Payload.distribute_fees asset amount split) ys = simp append_assoc

-- The nested reader of a governance payload.
nested_update :
    (u : GovernanceUpdate) (r : Codec.Reader)
    → IsUpdate u
    → length (write_update u []) < u32_mod
    → nested (lift (do update ← read_update; Codec.finish; pure update)) (write_update u []) r
      ≡ (r, ok u)
nested_update u r w short =
    let f0 =
      Front-eq (sym (append-nil (write_update u []))) (Front-new (write_update u []) short) in
    let (r1, e1, f1) = (Reads-update u w).run _ [] f0 in
    let e2 = finish-Front r1 f1 in ground (arith, e1, e2)

governance_fields :
    (epoch : ℕ) (u : GovernanceUpdate) (signatures : List CouncilSignature) (ys : Bytes)
    (r : Codec.Reader)
    → IsPayload (Payload.governance epoch u signatures)
    → Front r (payload_fields (Payload.governance epoch u signatures) ys)
    → (r' : Codec.Reader) × (read_governance r ≡ (r', ok (Payload.governance epoch u signatures)))
      × Front r' ys
unfolding read_governance
governance_fields epoch u signatures ys r (ep, w, few, signed) f =
    let few_eq : length signatures ≤ 32 = ground (arith, few) in
    let (r1, e1, f1) = (Reads-uint 8 epoch ep).run r _ f in
    let (r2, e2, f2) = (Reads-bytes (write_update u [])).run r1 _ f1 in
    let e3 = nested_update u r2 w (length-framed (write_update u []) _ r1 f1) in
    let (r4, e4, f4) = (Reads-uint 4 (length signatures) (omega (arith, few_eq))).run r2 _ f2 in
    let (r5, e5, f5) = (Reads-signatures signatures signed).run r4 _ f4 in
    (r5, ground (arith, e1, e2, e3, e4, few, e5), f5)

payload_fields-read :
    (p : Payload) (ys : Bytes) (r : Codec.Reader)
    → IsPayload p
    → Front r (payload_fields p ys)
    → (r' : Codec.Reader) × (read_payload_of (payload_tag p) r ≡ (r', ok p)) × Front r' ys
unfolding read_payload_of
payload_fields-read (Payload.transfer to asset amount) ys r (t, a, m) f =
    let (r1, e1, f1) = (Reads-raw 32 to t).run r _ f in
    let (r2, e2, f2) = (Reads-uint 4 asset a).run r1 _ f1 in
    let (r3, e3, f3) = (Reads-uint 16 amount m).run r2 _ f2 in (r3, ground (arith, e1, e2, e3), f3)
payload_fields-read (Payload.bind_identifier channel identifier) ys r w f =
    let (r1, e1, f1) = (Reads-u8 (discriminant channel)).run r _ f in
    let (r2, e2, f2) = (Reads-raw 32 identifier w).run r1 _ f1 in
    (r2, ground (arith, e1, from-discriminant channel, e2), f2)
payload_fields-read (Payload.unbind_identifier identifier) ys r w f =
    let (r1, e1, f1) = (Reads-raw 32 identifier w).run r _ f in (r1, ground (arith, e1), f1)
payload_fields-read (Payload.governance epoch update signatures) ys r w f =
    governance_fields epoch update signatures ys r w f
payload_fields-read (Payload.distribute_fees asset amount split) ys r (a, m, w) f =
    let (r1, e1, f1) = (Reads-uint 4 asset a).run r _ f in
    let (r2, e2, f2) = (Reads-uint 16 amount m).run r1 _ f1 in
    let (r3, e3, f3) = (Reads-split 4 split w).run r2 _ f2 in (r3, ground (arith, e1, e2, e3), f3)

pub Reads-payload : (p : Payload) → IsPayload p → Reads read_payload (write_payload p []) p
unfolding read_payload
Reads-payload p w = record {
  run = λ r ys f.
      let (r1, e1, f1) = (Reads-u8 (payload_tag p)).run r _ (Front-eq (write_payload-eq p ys) f) in
      let (r2, e2, f2) = payload_fields-read p ys r1 w f1 in (r2, ground (arith, e1, e2), f2);
}
