-- ===== src/Primitives/Codec/BigEndian.antt =====
-- crates/sena-primitives/src/codec.rs: the big-endian bytes of an integer, both ways.
use sena.Primitives.Hash256.{IsBytes, Bytes}
use sena.Base.{
  ℕ, length, ◌<◌, ◌≡◌, ◌*◌, ◌%◌, ◌^◌, ◌∷◌, suc, ap, arith, ◌/◌, ◌∙◌, ◌+◌, [], zero, refl, ◌≤◌, sym,
}
use sena.Primitives.Codec.{to_be_bytes, from_be_bytes}
use mathlib.Core.Path.{ap₂}
use native.Mathlib.Nat.{
  pow-suc, div-add-mod, mod-lt, add-mul-mod_self_left, mod-eq_of_lt, one-le-pow, mul-le-mul_right,
  add-mul-div_left, mul-add-div_right, div-eq_of_lt,
}

pub length-to_be_bytes : (width v : ℕ) → length (to_be_bytes width v) ≡ width
unfolding to_be_bytes
length-to_be_bytes zero v = refl
length-to_be_bytes (suc n) v = ap suc (length-to_be_bytes n v)

pub to_be_bytes-IsBytes : (width v : ℕ) → IsBytes (to_be_bytes width v)
unfolding to_be_bytes
to_be_bytes-IsBytes zero v = tt
to_be_bytes-IsBytes (suc n) v = (omega arith, to_be_bytes-IsBytes n v)

mod-le-255 : (q : ℕ) → q % 256 ≤ 255
mod-le-255 q = omega arith

-- A number modulo a product, by its digits.
mod_digits : (v p : ℕ) → 0 < p → v % (p * 256) ≡ v / p % 256 * p + v % p
mod_digits v p h =
    let q = v / p in
    let low = q % 256 * p + v % p in
    let whole : low + p * 256 * (q / 256) ≡ v =
      omega (arith, div-add-mod v p, ap (λ (t : ℕ). t * p) (div-add-mod q 256)) in
    let small : low < p * 256 = omega (arith, mod-lt v h, mul-le-mul_right p (mod-le-255 q)) in
    ap (λ t. t % (p * 256)) (sym whole)
    ∙ add-mul-mod_self_left low (p * 256) (q / 256)
    ∙ mod-eq_of_lt small

from-to_be_bytes_mod : (width v : ℕ) → from_be_bytes (to_be_bytes width v) ≡ v % 256 ^ width
unfolding from_be_bytes to_be_bytes
from-to_be_bytes_mod zero v = omega arith
from-to_be_bytes_mod (suc n) v =
    rw (length-to_be_bytes n v, from-to_be_bytes_mod n v, pow-suc 256 n)
      (sym (mod_digits v (256 ^ n) (one-le-pow n 256 (omega arith))))

-- An integer that fits its width reads back.
pub from-to_be_bytes : (width v : ℕ) → v < 256 ^ width → from_be_bytes (to_be_bytes width v) ≡ v
from-to_be_bytes width v h = from-to_be_bytes_mod width v ∙ mod-eq_of_lt h

pub from_be_bytes-lt : (bs : Bytes) → IsBytes bs → from_be_bytes bs < 256 ^ length bs
unfolding from_be_bytes
from_be_bytes-lt [] h = omega arith
from_be_bytes-lt (b ∷ bs) h =
    let step : b * 256 ^ length bs ≤ 255 * 256 ^ length bs =
      mul-le-mul_right (256 ^ length bs) (omega arith) in
    omega (arith, from_be_bytes-lt bs h.1, pow-suc 256 (length bs), step)

-- Only the low digits of a number matter to its bytes.
to_be_bytes_high : (width k v : ℕ) → to_be_bytes width (k * 256 ^ width + v) ≡ to_be_bytes width v
unfolding to_be_bytes
to_be_bytes_high zero k v = refl
to_be_bytes_high (suc n) k v =
    let pow : k * 256 ^ suc n ≡ k * (256 ^ n * 256) = ap (λ t. k * t) (pow-suc 256 n) in
    let e : k * 256 ^ suc n + v ≡ v + 256 ^ n * (k * 256) = omega (arith, pow) in
    let e' : k * 256 ^ suc n + v ≡ k * 256 * 256 ^ n + v = omega (arith, pow) in
    let top : (k * 256 ^ suc n + v) / 256 ^ n % 256 ≡ v / 256 ^ n % 256 =
      rw (e, add-mul-div_left v (k * 256) (one-le-pow n 256 (omega arith))) (omega arith) in
    ap₂ (λ a b. a ∷ b) top (ap (to_be_bytes n) e' ∙ to_be_bytes_high n (k * 256) v)

-- The bytes of a number that was read from bytes are those bytes.
pub to-from_be_bytes : (bs : Bytes) → IsBytes bs → to_be_bytes (length bs) (from_be_bytes bs) ≡ bs
unfolding to_be_bytes from_be_bytes
to-from_be_bytes [] h = refl
to-from_be_bytes (b ∷ bs) h =
    let p = 256 ^ length bs in
    let low = from_be_bytes-lt bs h.1 in
    let top : (b * p + from_be_bytes bs) / p % 256 ≡ b =
      rw (mul-add-div_right (one-le-pow (length bs) 256 (omega arith)) b (from_be_bytes bs))
        (rw (div-eq_of_lt low) (omega arith)) in
    ap₂ (λ a b. a ∷ b) top
      (to_be_bytes_high (length bs) b (from_be_bytes bs) ∙ to-from_be_bytes bs h.1)
