-- ===== src/Stf/Gas/Stored.antt =====
-- crates/sena-stf/src/gas.rs: how a whitelisted asset and the fee split are stored.
use sena.Primitives.Codec.{DecodeError}
use sena.Stf.Gas.Records.{MalformedRecord}
use sena.Primitives.Codec.Write.{bool, Writer, u32, u64, u128, raw, bytes}
use sena.Stf.Gas.Split.{FeeSplit, max_fee_beneficiaries}
use sena.Base.{List, ℕ, Result, [], leb, length, ◌∷◌, suc, map_err, zero}
use sena.Primitives.Hash256.{Bytes}
use sena.Primitives.Codec
use sena.Base.Action.{pure, require, ◌>>=◌, ◌>>◌}
use sena.Stf.Instruction.{WhitelistedAsset}

-- `WhitelistedAsset::encode`
unfoldable pub encode_asset : WhitelistedAsset → Bytes
encode_asset a =
    bool a.enabled (u64 a.intrinsic_gas (u128 a.rate (bytes a.symbol (u32 a.asset []))))

-- `WhitelistedAsset::decode_inner`
unfoldable pub read_asset : Codec.Read WhitelistedAsset
read_asset = do
  asset ← Codec.read_u32
  symbol ← Codec.read_string
  rate ← Codec.read_u128
  intrinsic_gas ← Codec.read_u64
  enabled ← Codec.read_bool
  Codec.finish
  pure (record {
    asset = asset;
    symbol = symbol;
    rate = rate;
    intrinsic_gas = intrinsic_gas;
    enabled = enabled;
  })

-- `WhitelistedAsset::decode`
unfoldable pub decode_asset : Bytes → Result MalformedRecord WhitelistedAsset
unfolding read_asset
decode_asset input =
    map_err (λ e. MalformedRecord.malformed_record) (Codec.decode_with read_asset input)

-- The loop of `FeeSplit::encode`.
unfoldable pub write_shares : List (Bytes × ℕ) → Writer → Writer
write_shares [] w = w
write_shares ((address, share) ∷ left) w = write_shares left (u32 share (raw address w))

-- `FeeSplit::encode`
unfoldable pub encode_split : FeeSplit → Bytes
unfolding write_shares
encode_split s = u32 s.burn (write_shares s.beneficiaries (u32 (length s.beneficiaries) []))

-- The loop of `FeeSplit::decode`, over the beneficiaries that are left.
unfoldable pub read_shares : ℕ → Codec.Read (List (Bytes × ℕ))
read_shares zero = pure []
read_shares (suc n) = do
  address ← Codec.read_bytes32
  share ← Codec.read_u32
  rest ← read_shares n
  pure ((address, share) ∷ rest)

-- The closure `inner` of `FeeSplit::decode`.
unfoldable pub read_split : Codec.Read FeeSplit
unfolding read_shares
read_split = do
  count ← Codec.read_u32
  require (leb count max_fee_beneficiaries) DecodeError.length_overflow
  beneficiaries ← read_shares count
  burn ← Codec.read_u32
  Codec.finish
  pure (record { beneficiaries = beneficiaries; burn = burn })

-- `FeeSplit::decode`
unfoldable pub decode_split : Bytes → Result MalformedRecord FeeSplit
unfolding read_split
decode_split input =
    map_err (λ e. MalformedRecord.malformed_record) (Codec.decode_with read_split input)
