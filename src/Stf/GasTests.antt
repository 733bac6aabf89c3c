-- ===== src/Stf/GasTests.antt =====
-- crates/sena-stf/src/gas.rs: the theorems at concrete fees.
use sena.Stf.Gas.Records.{decode_market, encode_market, decode-encode_market}
use sena.Stf.Gas.Split.{
  FeeSplit, check_split, shares_of, shares_of_checked, sum_shares, share_scale,
}
use sena.Stf.Gas.Market.{next_base_fee_lem}
use sena.Stf.Gas.Settle.{charge, price, base_per_gas, tip_per_gas, settle_accepts, settle-ok}
use sena.Primitives.Hash256.{zero_hash, bytes_eq, Bytes}
use sena.Stf.Machine.{MachineState, machine_preimage-inj}
use sena.Base.{◌≤◌, ◌≡◌, ◌<◌, ok, ◌*◌, max, ◌+◌, arith, refl, ◌/◌, ◌∷◌, [], List, length, ℕ}
use sena.Stf.Gas.{FeeCharge, settle, next_base_fee, max_gas_limit, price_scale, FeeMarket}

-- A limit of 50000 gas, 31000 used, at a base fee of 25 billion and a rate of one.
abbrev settled : FeeCharge
settled = charge 50000 31000 25000000000 1000000000

settled-eq : settle 50000 31000 30000000000 1000000000 25000000000 1000000 ≡ ok settled
unfolding settle
settled-eq = refl

settle-ok_example :
    (31000 ≤ 50000)
    × (50000 ≤ max_gas_limit)
    × (0 < settled.hold)
    × (settled.hold ≡ 50000 * price 30000000000 1000000000 25000000000 1000000 / price_scale)
    × (price 30000000000 1000000000 25000000000 1000000 ≤ 30000000000)
    × (settled.tip ≡ 31000 * tip_per_gas 30000000000 1000000000 25000000000 1000000 / price_scale)
    × (31000 * base_per_gas 25000000000 1000000 / price_scale ≤ settled.base)
    × (settled.refund + settled.tip + settled.base ≡ settled.hold)
settle-ok_example =
    settle-ok 50000 31000 30000000000 1000000000 25000000000 1000000 settled settled-eq

settle_accepts_example :
    settle 50000 31000 30000000000 1000000000 25000000000 1000000
    ≡ ok (
        charge 50000 31000
          (base_per_gas 25000000000 1000000)
          (tip_per_gas 30000000000 1000000000 25000000000 1000000))
settle_accepts_example =
    settle_accepts 50000 31000 30000000000 1000000000 25000000000 1000000 (omega arith)
      (omega arith) (omega arith) (omega arith) (omega arith) (omega arith) (omega arith)

-- A full window at the default target.
next_base_fee_lem_example :
    (25000000000 ≤ 28125000000)
    × (5000000 < 10000000 → 25000000000 < 28125000000)
    × (10000000 ≤ 5000000 → 28125000000 ≤ max 25000000000 25000000000)
    × (28125000000 ≤ max (25000000000 + max (25000000000 / 8) 1) 25000000000)
    × (25000000000 ≤ 28125000000 + 25000000000 / 8)
unfolding next_base_fee
next_base_fee_lem_example =
    next_base_fee_lem 25000000000 10000000 5000000 25000000000 28125000000 (omega arith)
      (omega arith) refl

abbrev before : MachineState
before = record { state_root = zero_hash; pc = 3 }

machine_preimage-inj_example : before ≡ before
unfolding zero_hash
machine_preimage-inj_example =
    machine_preimage-inj before before refl refl (omega arith) (omega arith) refl

-- Two beneficiaries and a burnt quarter.
abbrev split : FeeSplit
split = record { beneficiaries = (1 ∷ [], 500000) ∷ (2 ∷ [], 250000) ∷ []; burn = 250000 }

abbrev paid : List (Bytes × ℕ)
paid = (1 ∷ [], 501) ∷ (2 ∷ [], 250) ∷ []

shares_of_checked_example :
    (length paid ≡ length split.beneficiaries)
    × (sum_shares paid ≤ 1003)
    × (share_scale * sum_shares paid + 1003 * split.burn ≤ share_scale * 1003)
    × (share_scale * 1003 ≤ share_scale * (sum_shares paid + length paid) + 1003 * split.burn)
unfolding check_split shares_of bytes_eq
shares_of_checked_example = shares_of_checked split 1003 paid refl refl

abbrev market : FeeMarket
market = record { base_fee = 30; floor = 25; target = 5000000; window_ts = 17; window_gas = 21000 }

decode-encode_market_example : decode_market (encode_market market) ≡ ok market
decode-encode_market_example = decode-encode_market market (record {
  base_fee_fits = omega arith;
  floor_fits = omega arith;
  target_fits = omega arith;
  window_ts_fits = omega arith;
  window_gas_fits = omega arith;
})
