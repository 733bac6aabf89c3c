-- ===== src/Stf/Signing/Fields.antt =====
-- crates/sena-stf/src/transaction.rs and governance.rs: what the signed bytes fix.
use mathlib.Core.List.{append-nil}
use sena.Primitives.Encoding.{transaction_domain}
use sena.Primitives.Hash256.{Bytes}
use sena.Primitives.Codec.BigEndian.{length-to_be_bytes, from-to_be_bytes}
use sena.Primitives.Codec.{to_be_bytes, from_be_bytes}
use sena.Primitives.Codec.Reads.{Reads, Front-eq, Front-new}
use sena.Primitives.Codec
use sena.Base.{
  refl, length, List, ◌≡◌, ℕ, ◌<◌, [], u32_mod, ◌∷◌, ◌^◌, sym, All, get_or, arith, ◌∙◌, ap, ◌++◌,
}
use sena.Base.Action.{Action}
use sena.Primitives.Encoding.Framing.{push_all, push_all-inj}
use sena.Stf.Wire.Canonical.{IsTransaction}
use sena.Stf.Wire.Payloads.{IsPayload, Reads-payload}
use sena.Stf.Signing.{signing_preimage, encode_payload}
use sena.Stf.Transaction.{Transaction, Payload}

-- What a read returns is settled by the bytes.
pub Reads-unique :
    {E A : Type 0} {p : Action Codec.Reader E A} {xs ys : Bytes} {v w : A}
    → Reads p xs v
    → Reads p ys w
    → xs ≡ ys
    → length xs < u32_mod
    → v ≡ w
Reads-unique {xs = xs} {ys = ys} a b e short =
    let f = Front-eq (sym (append-nil xs)) (Front-new xs short) in
    let (r1, e1, f1) = a.run (Codec.new_reader xs) [] f in
    let (r2, e2, f2) = b.run (Codec.new_reader xs) [] (Front-eq (ap (λ t. t ++ []) e) f) in
    ground (arith, e1, e2)

encode_payload-inj :
    (p q : Payload)
    → IsPayload p
    → IsPayload q
    → length (encode_payload p) < u32_mod
    → encode_payload p ≡ encode_payload q
    → p ≡ q
unfolding encode_payload
encode_payload-inj p q v w short e = Reads-unique (Reads-payload p v) (Reads-payload q w) e short

abbrev signing_fields : Transaction → List Bytes
signing_fields tx =
    transaction_domain
    ∷ tx.sender
    ∷ to_be_bytes 8 tx.nonce
    ∷ to_be_bytes 8 tx.fee_asset
    ∷ to_be_bytes 16 tx.fee_rate
    ∷ to_be_bytes 8 tx.fee_intrinsic_gas
    ∷ to_be_bytes 8 tx.gas_limit
    ∷ to_be_bytes 16 tx.max_fee_per_gas
    ∷ to_be_bytes 16 tx.max_priority_fee_per_gas
    ∷ encode_payload tx.payload
    ∷ []

signing_preimage-eq : (tx : Transaction) → signing_preimage tx ≡ push_all (signing_fields tx) []
unfolding signing_preimage
signing_preimage-eq tx = refl

fields-IsShort :
    (tx : Transaction)
    → IsTransaction tx
    → length (encode_payload tx.payload) < u32_mod
    → All (λ x. length x < u32_mod) (signing_fields tx)
fields-IsShort tx w short = (
  omega arith,
  (
    omega (arith, w.sender_width),
    (
      omega (arith, length-to_be_bytes 8 tx.nonce),
      (
        omega (arith, length-to_be_bytes 8 tx.fee_asset),
        (
          omega (arith, length-to_be_bytes 16 tx.fee_rate),
          (
            omega (arith, length-to_be_bytes 8 tx.fee_intrinsic_gas),
            (
              omega (arith, length-to_be_bytes 8 tx.gas_limit),
              (
                omega (arith, length-to_be_bytes 16 tx.max_fee_per_gas),
                (omega (arith, length-to_be_bytes 16 tx.max_priority_fee_per_gas), (short, tt)),
              ),
            ),
          ),
        ),
      ),
    ),
  ),
)

-- An integer field that fits is settled by its bytes.
word :
    (width n : ℕ) (a b : ℕ) (xs ys : List Bytes)
    → a < 256 ^ width
    → b < 256 ^ width
    → get_or xs n [] ≡ to_be_bytes width a
    → get_or ys n [] ≡ to_be_bytes width b
    → xs ≡ ys
    → a ≡ b
word width n a b xs ys h k p q e =
    sym (from-to_be_bytes width a h)
    ∙ ap from_be_bytes (sym p ∙ ap (λ t. get_or t n []) e ∙ q)
    ∙ from-to_be_bytes width b k

-- Two transactions whose fields have their widths, with at most 32 council signatures and at most
-- 8 beneficiaries of a fee split, and payloads of fewer than 2 ^ 32 bytes, that
-- are signed over the same bytes differ in their authenticator at most: no other field can be
-- altered under a captured signature.
pub signing_preimage-inj :
    (t u : Transaction)
    → IsTransaction t
    → IsTransaction u
    → length (encode_payload t.payload) < u32_mod
    → length (encode_payload u.payload) < u32_mod
    → signing_preimage t ≡ signing_preimage u
    → record t { authenticator = u.authenticator } ≡ u
signing_preimage-inj t u v w short short' e =
    let fields =
      push_all-inj (signing_fields t) (signing_fields u) (fields-IsShort t v short)
        (fields-IsShort u w short') (sym (signing_preimage-eq t) ∙ e ∙ signing_preimage-eq u) in
    let senders : t.sender ≡ u.sender = ap (λ x. get_or x 1 []) fields in
    let nonces = word 8 2 t.nonce u.nonce _ _ v.nonce_fits w.nonce_fits refl refl fields in
    let assets =
      word 8 3 t.fee_asset u.fee_asset _ _ (omega (arith, v.fee_asset_fits))
        (omega (arith, w.fee_asset_fits)) refl refl fields in
    let rates =
      word 16 4 t.fee_rate u.fee_rate _ _ v.fee_rate_fits w.fee_rate_fits refl refl fields in
    let intrinsic =
      word 8 5 t.fee_intrinsic_gas u.fee_intrinsic_gas _ _ v.intrinsic_fits w.intrinsic_fits refl
        refl fields in
    let limits =
      word 8 6 t.gas_limit u.gas_limit _ _ v.gas_limit_fits w.gas_limit_fits refl refl fields in
    let fees =
      word 16 7 t.max_fee_per_gas u.max_fee_per_gas _ _ v.max_fee_fits w.max_fee_fits refl refl
        fields in
    let tips =
      word 16 8 t.max_priority_fee_per_gas u.max_priority_fee_per_gas _ _ v.max_tip_fits
        w.max_tip_fits refl refl fields in
    let payloads =
      encode_payload-inj t.payload u.payload v.payload_fits w.payload_fits short
        (ap (λ x. get_or x 9 []) fields) in
    ground (arith, senders, nonces, assets, rates, intrinsic, limits, fees, tips, payloads)
