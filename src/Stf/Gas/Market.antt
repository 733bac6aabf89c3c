-- ===== src/Stf/Gas/Market.antt =====
-- crates/sena-stf/src/gas.rs: how the base fee moves from one window to the next.
use native.Mathlib.Nat.{div-lt_iff_lt-mul}
use sena.Stf.Gas.{next_base_fee, moved_base_fee}
use sena.Base.{ℕ, ◌<◌, ◌≤◌, ◌*◌, ◌/◌, ◌≡◌, ◌+◌, ok, ◌-◌, max, arith, Bool-cases, ltb, inl, inr}

-- A share of `b` is at most `b`.
share-le : (b x t : ℕ) → 0 < t → x ≤ t → b * x / t ≤ b
share-le b x t p h =
    let (k, e) : (k : ℕ) × (t ≡ x + k) = (t - x, omega arith) in
    let below : b * x < (b + 1) * t = rw e (omega (arith, p)) in
    let lt : b * x / t < b + 1 = (div-lt_iff_lt-mul p).1 below in omega arith

-- For a positive target and a window of at most twice the target, a computed next base fee is
-- at least the floor. It is greater than the base fee if the gas exceeds the target, and at
-- most the greater of the base fee and the floor if not. It is at most the greater of the floor
-- and the base fee raised by an eighth, or by one where that is more, and it is below the base
-- fee by at most an eighth.
pub next_base_fee_lem :
    (base gas target floor v : ℕ)
    → 0 < target
    → gas ≤ 2 * target
    → next_base_fee base gas target floor ≡ ok v
    → (floor ≤ v)
      × (target < gas → base < v)
      × (gas ≤ target → v ≤ max base floor)
      × (v ≤ max (base + max (base / 8) 1) floor)
      × (base ≤ v + base / 8)
unfolding next_base_fee moved_base_fee
next_base_fee_lem base gas target floor v p h e = elim (Bool-cases (ltb target gas)) [
  | inl over ↦ let s = share-le base (gas - target) target p (omega (arith, h)) in ground (arith, s)
  | inr within ↦
      let s = share-le base (target - gas) target p (omega (arith, h)) in ground (arith, s)
]
