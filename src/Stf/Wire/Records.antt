-- ===== src/Stf/Wire/Records.antt =====
-- crates/sena-stf/src/gas.rs: reading back a whitelisted asset and a fee split.
use sena.Primitives.Codec.Write.{byte_of_bool}
use mathlib.Core.List.{append_assoc, append-nil}
use sena.Base.{
  refl, leb, List, ◌≡◌, length, ◌<◌, ◌++◌, ℕ, true, ap, u32_mod, All, sym, [], ◌∙◌, ◌∷◌, u128_mod,
  ok, u64_mod, ◌≤◌, arith,
}
use sena.Primitives.Hash256.{Bytes}
use sena.Stf.Instruction.{WhitelistedAsset}
use sena.Primitives.Codec.Reads.{
  Reads, Front-eq, Front-new, framed, IsText, Reads-uint, Reads-raw, Reads-string, Reads-bool,
  finish-Front,
}
use sena.Primitives.Codec.{to_be_bytes}
use sena.Stf.Gas.Stored.{
  encode_asset, encode_split, decode_asset, decode_split, read_shares, write_shares,
}
use sena.Stf.Gas.Split.{FeeSplit, max_fee_beneficiaries}

-- The widths of the fields; the symbol is UTF-8.
pub record IsAsset (a : WhitelistedAsset) : Type 0 where
  pub asset_fits : a.asset < u32_mod
  pub symbol_text : IsText a.symbol
  pub rate_fits : a.rate < u128_mod
  pub gas_fits : a.intrinsic_gas < u64_mod

abbrev asset_bytes : WhitelistedAsset → Bytes
asset_bytes a =
    to_be_bytes 4 a.asset
    ++ (framed a.symbol
        ++ (to_be_bytes 16 a.rate
            ++ (to_be_bytes 8 a.intrinsic_gas ++ ((byte_of_bool a.enabled ∷ []) ++ []))))

encode_asset-eq : (a : WhitelistedAsset) → encode_asset a ≡ asset_bytes a
unfolding encode_asset framed
encode_asset-eq a = simp (append_assoc, append-nil)

pub decode-encode_asset :
    (a : WhitelistedAsset)
    → IsAsset a
    → length (encode_asset a) < u32_mod
    → decode_asset (encode_asset a) ≡ ok a
unfolding decode_asset
decode-encode_asset a w short =
    let f0 = Front-eq (encode_asset-eq a) (Front-new (encode_asset a) short) in
    let (r1, e0, f1) = (Reads-uint 4 a.asset w.asset_fits).run _ _ f0 in
    let (r2, e1, f2) = (Reads-string a.symbol w.symbol_text).run r1 _ f1 in
    let (r3, e2, f3) = (Reads-uint 16 a.rate w.rate_fits).run r2 _ f2 in
    let (r4, e3, f4) = (Reads-uint 8 a.intrinsic_gas w.gas_fits).run r3 _ f3 in
    let (r5, e4, f5) = (Reads-bool a.enabled).run r4 _ f4 in
    let e5 = finish-Front r5 f5 in ground (arith, e0, e1, e2, e3, e4, e5)

abbrev pub IsShare : Bytes × ℕ → Type 0
IsShare (address, share) = (length address ≡ 32) × (share < u32_mod)

-- The widths of the fields, and at most 8 beneficiaries.
pub record IsSplit (s : FeeSplit) : Type 0 where
  pub few : leb (length s.beneficiaries) max_fee_beneficiaries ≡ true
  pub shares : All IsShare s.beneficiaries
  pub burn_fits : s.burn < u32_mod

abbrev shares_bytes : List (Bytes × ℕ) → Bytes
shares_bytes [] = []
shares_bytes ((address, share) ∷ left) = address ++ (to_be_bytes 4 share ++ shares_bytes left)

write_shares-eq : (l : List (Bytes × ℕ)) (w : Bytes) → write_shares l w ≡ w ++ shares_bytes l
unfolding write_shares
write_shares-eq [] w = sym (append-nil w)
write_shares-eq ((address, share) ∷ left) w =
    write_shares-eq left ((w ++ address) ++ to_be_bytes 4 share) ∙ simp append_assoc

Reads-shares :
    (l : List (Bytes × ℕ)) → All IsShare l → Reads (read_shares (length l)) (shares_bytes l) l
unfolding read_shares
Reads-shares [] h = record { run = λ r ys f. (r, refl, f) }
Reads-shares ((address, share) ∷ left) ((l, s), h) = record {
  run = λ r ys f.
      let f0 =
        Front-eq {ys = address ++ (to_be_bytes 4 share ++ (shares_bytes left ++ ys))}
          (simp append_assoc) f in
      let (r1, e0, f1) = (Reads-raw 32 address l).run r _ f0 in
      let (r2, e1, f2) = (Reads-uint 4 share s).run r1 _ f1 in
      let (r3, e2, f3) = (Reads-shares left h).run r2 _ f2 in (r3, ground (arith, e0, e1, e2), f3);
}

abbrev split_bytes : FeeSplit → Bytes
split_bytes s =
    to_be_bytes 4 (length s.beneficiaries)
    ++ (shares_bytes s.beneficiaries ++ (to_be_bytes 4 s.burn ++ []))

encode_split-eq : (s : FeeSplit) → encode_split s ≡ split_bytes s
unfolding encode_split
encode_split-eq s =
    ap (λ t. t ++ to_be_bytes 4 s.burn) (write_shares-eq s.beneficiaries _)
    ∙ simp (append_assoc, append-nil)

pub decode-encode_split :
    (s : FeeSplit)
    → IsSplit s
    → length (encode_split s) < u32_mod
    → decode_split (encode_split s) ≡ ok s
unfolding decode_split
decode-encode_split s w short =
    let f0 = Front-eq (encode_split-eq s) (Front-new (encode_split s) short) in
    let few : length s.beneficiaries ≤ 8 = ground (arith, w.few) in
    let (r1, e0, f1) = (Reads-uint 4 (length s.beneficiaries) (omega (arith, few))).run _ _ f0 in
    let (r2, e1, f2) = (Reads-shares s.beneficiaries w.shares).run r1 _ f1 in
    let (r3, e2, f3) = (Reads-uint 4 s.burn w.burn_fits).run r2 _ f2 in
    let e3 = finish-Front r3 f3 in ground (arith, e0, w.few, e1, e2, e3)
