-- ===== src/Stf/Gas/Records.antt =====
-- crates/sena-stf/src/gas.rs: how the fee market is stored.
use sena.Primitives.Codec.BigEndian.{length-to_be_bytes}
use sena.Primitives.Codec.Read.{At, advance, At-new, read_uint-At, finish-At, At-advance}
use mathlib.Core.List.{append_assoc, append-nil}
use sena.Primitives.Codec.{to_be_bytes}
use sena.Base.{
  [], Result, ◌<◌, ◌≡◌, length, map_err, u128_mod, ◌++◌, ok, u64_mod, ap, ℕ, subst, ◌∙◌, ◌^◌, arith,
  length-append,
}
use sena.Primitives.Hash256.{Bytes}
use sena.Stf.Gas.{FeeMarket}
use sena.Base.Action.{pure, ◌>>=◌, ◌>>◌}
use sena.Primitives.Codec
use sena.Primitives.Codec.Write.{u64, u128, bytes}

-- `MalformedRecord`
pub data MalformedRecord : Type 0 where
  malformed_record : MalformedRecord

-- `FeeMarket::encode`
unfoldable pub encode_market : FeeMarket → Bytes
encode_market m =
    u64 m.window_gas (u64 m.window_ts (u64 m.target (u128 m.floor (u128 m.base_fee []))))

-- The closure `inner` of `FeeMarket::decode`.
unfoldable pub read_market : Codec.Read FeeMarket
read_market = do
  base_fee ← Codec.read_u128
  floor ← Codec.read_u128
  target ← Codec.read_u64
  window_ts ← Codec.read_u64
  window_gas ← Codec.read_u64
  Codec.finish
  pure (record {
    base_fee = base_fee;
    floor = floor;
    target = target;
    window_ts = window_ts;
    window_gas = window_gas;
  })

-- `FeeMarket::decode`
unfoldable pub decode_market : Bytes → Result MalformedRecord FeeMarket
unfolding read_market
decode_market bytes =
    map_err (λ e. MalformedRecord.malformed_record) (Codec.decode_with read_market bytes)

-- A market whose fields are machine words.
pub record IsMarket (m : FeeMarket) : Type 0 where
  pub base_fee_fits : m.base_fee < u128_mod
  pub floor_fits : m.floor < u128_mod
  pub target_fits : m.target < u64_mod
  pub window_ts_fits : m.window_ts < u64_mod
  pub window_gas_fits : m.window_gas < u64_mod

market_bytes : FeeMarket → Bytes
market_bytes m =
    to_be_bytes 16 m.base_fee
    ++ (to_be_bytes 16 m.floor
        ++ (to_be_bytes 8 m.target
            ++ (to_be_bytes 8 m.window_ts ++ (to_be_bytes 8 m.window_gas ++ []))))

encode_market-eq : (m : FeeMarket) → encode_market m ≡ market_bytes m
unfolding encode_market market_bytes
encode_market-eq m = simp (append_assoc, append-nil)

length-encode_market : (m : FeeMarket) → length (encode_market m) ≡ 56
unfolding market_bytes
length-encode_market m = ap length (encode_market-eq m) ∙ simp (length-append, length-to_be_bytes)

-- Reading a field in front of the rest, and where the reader stands then.
step :
    (width v : ℕ) (ys : Bytes) (r : Codec.Reader)
    → v < 256 ^ width
    → At r (to_be_bytes width v ++ ys)
    → (Codec.read_uint width r ≡ (advance width r, ok v)) × At (advance width r) ys
step width v ys r h a = (
  read_uint-At width v ys r h a,
  At-advance width (to_be_bytes width v) ys r (length-to_be_bytes width v) a,
)

-- A fee market whose fields are machine words is read back from its encoding.
pub decode-encode_market : (m : FeeMarket) → IsMarket m → decode_market (encode_market m) ≡ ok m
unfolding decode_market market_bytes
decode-encode_market m w =
    let at0 =
      subst (At (Codec.new_reader (encode_market m))) (encode_market-eq m)
        (At-new (encode_market m) (omega (arith, length-encode_market m))) in
    let (e0, at1) = step 16 m.base_fee _ _ w.base_fee_fits at0 in
    let (e1, at2) = step 16 m.floor _ _ w.floor_fits at1 in
    let (e2, at3) = step 8 m.target _ _ w.target_fits at2 in
    let (e3, at4) = step 8 m.window_ts _ _ w.window_ts_fits at3 in
    let (e4, at5) = step 8 m.window_gas _ _ w.window_gas_fits at4 in
    let e5 = finish-At _ at5 in ground (arith, e0, e1, e2, e3, e4, e5)
