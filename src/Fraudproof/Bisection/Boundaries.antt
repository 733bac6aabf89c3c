-- ===== src/Fraudproof/Bisection/Boundaries.antt =====
-- crates/sena-fraudproof/src/bisection.rs: the arithmetic of `boundaries`.
use native.Mathlib.Nat.{
  lt-mul-div-succ, zero-div, mul-div_cancel, div-lt_iff_lt-mul, mul-le-mul_left,
}
use sena.Base.{
  ℕ, ◌+◌, ◌-◌, ◌*◌, ◌/◌, ◌≤◌, ◌<◌, ◌≡◌, ◌∙◌, ap, arith, length, get_or, range, length-range,
  length-map, get_or-map-range, u64_mod,
}
use sena.Fraudproof.Bisection.{segment_count, boundaries}

pub length-boundaries :
    (lo hi arity : ℕ) → length (boundaries lo hi arity) ≡ segment_count (hi - lo) arity + 1
unfolding boundaries
length-boundaries lo hi arity =
    length-map (range 0 (segment_count (hi - lo) arity + 1)) _ ∙ length-range 0 _

pub get_or-boundaries :
    (lo hi arity i d : ℕ)
    → i ≤ segment_count (hi - lo) arity
    → get_or (boundaries lo hi arity) i d ≡ lo + (hi - lo) * i / segment_count (hi - lo) arity
unfolding boundaries
get_or-boundaries lo hi arity i d h =
    get_or-map-range _ 0 (segment_count (hi - lo) arity + 1) i d (omega arith)
    ∙ ap (λ k. lo + (hi - lo) * k / segment_count (hi - lo) arity) (omega arith)

-- The products of `boundaries` are u64, as long as the arity times the span is.
product-lt :
    (lo hi arity i : ℕ)
    → 0 < arity
    → (hi - lo) * arity < u64_mod
    → i ≤ segment_count (hi - lo) arity
    → (hi - lo) * i < u64_mod
unfolding segment_count
product-lt lo hi arity i p h l =
    let few : i ≤ arity = omega arith in
    let below : (hi - lo) * i ≤ (hi - lo) * arity = mul-le-mul_left (hi - lo) few in
    omega (arith, below, h)

-- Adding at least the divisor raises the quotient.
div-lt-add : (a b s : ℕ) → 0 < s → s ≤ b → a / s < (a + b) / s
div-lt-add a b s p h = grind arith

-- Adding `b` raises the quotient by at most `b / s`, rounded up.
div-add-le : (a b s : ℕ) → 0 < s → (a + b) / s ≤ a / s + (b + (s - 1)) / s
div-add-le a b s p =
    let top : a + b < (a / s + (b + (s - 1)) / s + 1) * s =
      omega (arith, lt-mul-div-succ a p, lt-mul-div-succ (b + (s - 1)) p) in
    let below : (a + b) / s < a / s + (b + (s - 1)) / s + 1 = (div-lt_iff_lt-mul p).1 top in
    omega arith

-- The `i`-th division point.
abbrev pub boundary : ℕ → ℕ → ℕ → ℕ → ℕ
boundary lo hi arity i = lo + (hi - lo) * i / segment_count (hi - lo) arity

pub segment_count_pos : (span arity : ℕ) → 0 < segment_count span arity
unfolding segment_count
segment_count_pos span arity = omega arith

segment_count-le : (span arity : ℕ) → 0 < span → segment_count span arity ≤ span
unfolding segment_count
segment_count-le span arity h = omega arith

-- The widest segment of an interval, in steps.
abbrev pub max_width : ℕ → ℕ → ℕ
max_width span arity = (span + (segment_count span arity - 1)) / segment_count span arity

-- A segment is not empty, and is no wider than the span shared out among the segments.
pub boundary_step :
    (lo hi arity i : ℕ)
    → lo < hi
    → (boundary lo hi arity i < boundary lo hi arity (i + 1))
      × (boundary lo hi arity (i + 1) ≤ boundary lo hi arity i + max_width (hi - lo) arity)
boundary_step lo hi arity i h =
    let s = segment_count (hi - lo) arity in
    let p = segment_count_pos (hi - lo) arity in
    let e : (hi - lo) * (i + 1) ≡ (hi - lo) * i + (hi - lo) = omega arith in
    let up : (hi - lo) * i / s < ((hi - lo) * i + (hi - lo)) / s =
      div-lt-add ((hi - lo) * i) (hi - lo) s p (segment_count-le (hi - lo) arity (omega arith)) in
    let wide = div-add-le ((hi - lo) * i) (hi - lo) s p in rw e (omega arith, omega arith)

pub boundary_first : (lo hi arity : ℕ) → boundary lo hi arity 0 ≡ lo
boundary_first lo hi arity = grind (arith, zero-div)

pub boundary_last :
    (lo hi arity : ℕ) → lo ≤ hi → boundary lo hi arity (segment_count (hi - lo) arity) ≡ hi
boundary_last lo hi arity h =
    rw (mul-div_cancel (hi - lo) (segment_count_pos (hi - lo) arity)) (omega arith)
