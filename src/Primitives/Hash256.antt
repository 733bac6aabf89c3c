-- ===== src/Primitives/Hash256.antt =====
-- crates/sena-primitives/src/hash.rs: the 32-byte digest. SHA-256 itself is not under the
-- repository's source; where a digest is taken, the function is a parameter.
pub mod Order
pub mod Bits
use sena.Base.{
  ℕ, zero, suc, ◌-◌, ◌/◌, ◌%◌, ◌^◌, ◌<◌, ◌≡◌, refl, ◌↔◌, Bool, true, false, ◌&&◌, List, [], ◌∷◌,
  arith, ◌==◌, length, get_or, All,
}

-- A byte string; its bytes are below 256 where `IsBytes` holds.
abbrev pub Bytes : Type 0
Bytes = List ℕ

-- `Hash256([u8; 32])`; the width is `IsHash`.
abbrev pub Hash256 : Type 0
Hash256 = Bytes

abbrev pub IsByte : ℕ → Type 0
IsByte b = b < 256

abbrev pub IsBytes : Bytes → Type 0
IsBytes = All IsByte

abbrev pub IsHash : Hash256 → Type 0
IsHash h = (length h ≡ 32) × IsBytes h

-- The derived `PartialEq`.
unfoldable pub bytes_eq : Bytes → Bytes → Bool
bytes_eq [] [] = true
bytes_eq [] (b ∷ bs) = false
bytes_eq (a ∷ as') [] = false
bytes_eq (a ∷ as') (b ∷ bs) = a == b && bytes_eq as' bs

pub bytes_eq_iff : (a b : Bytes) → (bytes_eq a b ≡ true) ↔ (a ≡ b)
unfolding bytes_eq
bytes_eq_iff [] [] = ground arith
bytes_eq_iff [] (b ∷ bs) = ground arith
bytes_eq_iff (a ∷ as') [] = ground arith
bytes_eq_iff (a ∷ as') (b ∷ bs) = ground (arith, bytes_eq_iff as' bs)

pub bytes_eq_refl : (a : Bytes) → bytes_eq a a ≡ true
bytes_eq_refl a = (bytes_eq_iff a a).1 refl

abbrev pub zero_bytes : ℕ → Bytes
zero_bytes zero = []
zero_bytes (suc n) = 0 ∷ zero_bytes n

-- `Hash256::ZERO`, the empty-subtree sentinel.
unfoldable pub zero_hash : Hash256
zero_hash = zero_bytes 32

-- `Hash256::bit`: most significant bit of the first byte first.
unfoldable pub bit : Hash256 → ℕ → Bool
bit h index = get_or h (index / 8) 0 / 2 ^ (7 - index % 8) % 2 == 1
