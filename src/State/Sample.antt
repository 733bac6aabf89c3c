-- ===== src/State/Sample.antt =====
-- A digest for the tests: 32 bytes, of which two are a checksum.
use sena.Base.{ℕ, ◌≢◌, ◌<◌, ◌∷◌, arith, ◌*◌, ◌/◌, ap, [], refl, ◌+◌, ◌%◌, get_or, suc, zero}
use sena.Primitives.Hash256.{Bytes, zero_hash, Hash256, IsHash, zero_bytes, IsBytes}

abbrev weigh : Bytes → ℕ
weigh [] = 7
weigh (b ∷ bs) = (31 * b + 257 * weigh bs + 11) % 65521

abbrev pub checksum : Bytes → Hash256
checksum bs = 1 ∷ (weigh bs / 256) ∷ (weigh bs % 256) ∷ zero_bytes 29

pub checksum-nonzero : (bs : Bytes) → checksum bs ≢ zero_hash
unfolding zero_hash
checksum-nonzero bs e = absurd (omega (arith, ap (λ h. get_or h 0 0) e))

weigh-lt : (bs : Bytes) → weigh bs < 65521
weigh-lt [] = omega arith
weigh-lt (b ∷ bs) = omega arith

pub zero_bytes-IsBytes : (n : ℕ) → IsBytes (zero_bytes n)
zero_bytes-IsBytes zero = tt
zero_bytes-IsBytes (suc n) = (omega arith, zero_bytes-IsBytes n)

pub checksum-IsHash : (bs : Bytes) → IsHash (checksum bs)
checksum-IsHash bs =
    (refl, (omega arith, (omega (arith, weigh-lt bs), (omega arith, zero_bytes-IsBytes 29))))
