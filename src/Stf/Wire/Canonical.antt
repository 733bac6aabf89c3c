-- ===== src/Stf/Wire/Canonical.antt =====
-- crates/sena-stf/src/wire.rs: the bytes that decode to a transaction.
use sena.Stf.Wire.Authenticators.{
  IsAuthenticator, authenticator_tag, authenticator_fields, write_authenticator-eq,
  read_authenticator-Front,
}
use mathlib.Core.List.{append_assoc, append-nil}
use sena.Primitives.Hash256.{Bytes, bytes_eq_iff, bytes_eq_refl}
use sena.Primitives.Codec.Reads.{
  Front-eq, Front-new, framed, length-framed, Reads-u8, Reads-uint, Reads-raw, Reads-bytes,
  finish-Front,
}
use sena.Primitives.Codec
use sena.Base.Action.{pure, ◌>>=◌, ◌>>◌}
use sena.Base.{
  refl, length, ◌≡◌, ◌<◌, [], ◌++◌, ok, ◌∙◌, Result, u64_mod, false, arith, ap, ◌∷◌, u32_mod, ◌↔◌,
  u128_mod, sym, ◌≤◌, err, ltb, subst, if◌then◌else◌,
}
use sena.Primitives.Codec.{to_be_bytes}
use sena.Stf.Wire.Payloads.{IsPayload, Reads-payload}
use sena.Stf.Wire.Read.{read_payload, read_transaction, decode_transaction, nested, lift, strict}
use sena.Stf.Wire.{WireError, write_payload, encode_transaction, max_transaction_bytes}
use sena.Stf.Transaction.{Transaction, Payload}

-- The fields have their widths, with at most 32 signatures in a governance payload and at most 8
-- beneficiaries in a fee split.
pub record IsTransaction (tx : Transaction) : Type 0 where
  pub sender_width : length tx.sender ≡ 32
  pub nonce_fits : tx.nonce < u64_mod
  pub fee_asset_fits : tx.fee_asset < u32_mod
  pub fee_rate_fits : tx.fee_rate < u128_mod
  pub intrinsic_fits : tx.fee_intrinsic_gas < u64_mod
  pub gas_limit_fits : tx.gas_limit < u64_mod
  pub max_fee_fits : tx.max_fee_per_gas < u128_mod
  pub max_tip_fits : tx.max_priority_fee_per_gas < u128_mod
  pub payload_fits : IsPayload tx.payload
  pub authenticator_fits : IsAuthenticator tx.authenticator

abbrev transaction_bytes : Transaction → Bytes
transaction_bytes tx =
    tx.sender
    ++ (to_be_bytes 8 tx.nonce
        ++ (to_be_bytes 4 tx.fee_asset
            ++ (to_be_bytes 16 tx.fee_rate
                ++ (to_be_bytes 8 tx.fee_intrinsic_gas
                    ++ (to_be_bytes 8 tx.gas_limit
                        ++ (to_be_bytes 16 tx.max_fee_per_gas
                            ++ (to_be_bytes 16 tx.max_priority_fee_per_gas
                                ++ (framed (write_payload tx.payload [])
                                    ++ ((authenticator_tag tx.authenticator ∷ [])
                                        ++ authenticator_fields tx.authenticator)))))))))

encode_transaction-eq : (tx : Transaction) → encode_transaction tx ≡ transaction_bytes tx
unfolding encode_transaction framed
encode_transaction-eq tx = write_authenticator-eq tx.authenticator _ ∙ simp append_assoc

-- The nested reader of the payload.
nested_payload :
    (p : Payload) (r : Codec.Reader)
    → IsPayload p
    → length (write_payload p []) < u32_mod
    → nested (do payload ← read_payload; lift Codec.finish; pure payload) (write_payload p []) r
      ≡ (r, ok p)
nested_payload p r w short =
    let f0 =
      Front-eq (sym (append-nil (write_payload p []))) (Front-new (write_payload p []) short) in
    let (r1, e1, f1) = (Reads-payload p w).run _ [] f0 in
    let e2 = finish-Front r1 f1 in ground (arith, e1, e2)

read_transaction-encode :
    (tx : Transaction)
    → IsTransaction tx
    → length (encode_transaction tx) < u32_mod
    → (read_transaction (Codec.new_reader (encode_transaction tx))).1 ≡ ok tx
unfolding read_transaction
read_transaction-encode tx w short =
    let f0 = Front-eq (encode_transaction-eq tx) (Front-new (encode_transaction tx) short) in
    let (r1, e1, f1) = (Reads-raw 32 tx.sender w.sender_width).run _ _ f0 in
    let (r2, e2, f2) = (Reads-uint 8 tx.nonce w.nonce_fits).run r1 _ f1 in
    let (r3, e3, f3) = (Reads-uint 4 tx.fee_asset w.fee_asset_fits).run r2 _ f2 in
    let (r4, e4, f4) = (Reads-uint 16 tx.fee_rate w.fee_rate_fits).run r3 _ f3 in
    let (r5, e5, f5) = (Reads-uint 8 tx.fee_intrinsic_gas w.intrinsic_fits).run r4 _ f4 in
    let (r6, e6, f6) = (Reads-uint 8 tx.gas_limit w.gas_limit_fits).run r5 _ f5 in
    let (r7, e7, f7) = (Reads-uint 16 tx.max_fee_per_gas w.max_fee_fits).run r6 _ f6 in
    let (r8, e8, f8) = (Reads-uint 16 tx.max_priority_fee_per_gas w.max_tip_fits).run r7 _ f7 in
    let (r9, e9, f9) = (Reads-bytes (write_payload tx.payload [])).run r8 _ f8 in
    let e10 =
      nested_payload tx.payload r9 w.payload_fits
        (length-framed (write_payload tx.payload []) _ r8 f8) in
    let (r11, e11, f11) = (Reads-u8 (authenticator_tag tx.authenticator)).run r9 _ f9 in
    let (r12, e12, f12) = read_authenticator-Front tx.authenticator r11 w.authenticator_fits f11 in
    let e13 = finish-Front r12 f12 in
    ground (arith, e1, e2, e3, e4, e5, e6, e7, e8, e9, e10, e11, e12, e13)

accepted-strict :
    (input : Bytes) (x : Result WireError Transaction) (tx : Transaction)
    → strict input x ≡ ok tx
    → encode_transaction tx ≡ input
unfolding strict
accepted-strict input (ok t) tx e = ground (arith, bytes_eq_iff (encode_transaction t) input)
accepted-strict input (err x) tx e = absurd (ground arith)

strict-encode : (tx : Transaction) → strict (encode_transaction tx) (ok tx) ≡ ok tx
unfolding strict
strict-encode tx = rw (bytes_eq_refl (encode_transaction tx)) refl

-- Up to the size limit, the encoding is read back.
decode-encode_transaction :
    (tx : Transaction)
    → IsTransaction tx
    → length (encode_transaction tx) ≤ max_transaction_bytes
    → decode_transaction (encode_transaction tx) ≡ ok tx
unfolding decode_transaction
decode-encode_transaction tx w l =
    let fits : ltb max_transaction_bytes (length (encode_transaction tx)) ≡ false =
      ground (arith, l) in
    let e = read_transaction-encode tx w (omega (arith, l)) in
    ap
      (λ b.
        if b
        then err (WireError.too_large (length (encode_transaction tx)))
        else strict (encode_transaction tx)
            (read_transaction (Codec.new_reader (encode_transaction tx))).1)
      fits
    ∙ ap (strict (encode_transaction tx)) e
    ∙ strict-encode tx

-- For a transaction whose fields have their widths, with at most 32 council signatures and at most
-- 8 beneficiaries of a fee split, `decode` accepts an input as this transaction
-- just where the input is its encoding and has at most 8192 bytes. So the encoding is read back,
-- and no other input decodes to the same transaction.
pub decode_transaction_iff :
    (tx : Transaction) (input : Bytes)
    → IsTransaction tx
    → (decode_transaction input ≡ ok tx)
      ↔ ((encode_transaction tx ≡ input) × (length input ≤ max_transaction_bytes))
unfolding decode_transaction
decode_transaction_iff tx input w = (
  λ e. (
    accepted-strict input (read_transaction (Codec.new_reader input)).1 tx (ground arith),
    ground arith,
  ),
  λ (e, l). subst (λ t. decode_transaction t ≡ ok tx) e (decode-encode_transaction tx w (rw e l)),
)
