-- ===== src/Primitives/Utf8.antt =====
-- `String::from_utf8_lossy`, which crates/sena-primitives/src/codec.rs calls: each longest prefix
-- of an ill-formed sequence becomes the three bytes of U+FFFD. A string is its UTF-8 bytes.
use sena.Base.{
  ℕ, ◌∷◌, ◌++◌, All, [], if◌then◌else◌, ◌<◌, ltb, leb, ◌≡◌, ◌==◌, ◌&&◌, arith, ◌-◌, refl,
}
use sena.Primitives.Hash256.{Bytes}

-- Where the scan stands: between two characters, or inside one, with the bytes it has, those that
-- are missing, and the range of the next one.
pub data Scan : Type 0 where
  boundary : Scan
  inside : (missing : ℕ) (pending : Bytes) (low high : ℕ) → Scan

abbrev pub replacement : Bytes
replacement = 239 ∷ 191 ∷ 189 ∷ []

-- A byte between two characters: what it completes, and where the scan goes on.
unfoldable pub scan_lead : ℕ → Bytes × Scan
scan_lead b =
    if ltb b 128
    then (b ∷ [], Scan.boundary)
    else if ltb b 194
    then (replacement, Scan.boundary)
    else if ltb b 224
    then ([], Scan.inside 1 (b ∷ []) 128 191)
    else if b == 224
    then ([], Scan.inside 2 (b ∷ []) 160 191)
    else if b == 237
    then ([], Scan.inside 2 (b ∷ []) 128 159)
    else if ltb b 240
    then ([], Scan.inside 2 (b ∷ []) 128 191)
    else if b == 240
    then ([], Scan.inside 3 (b ∷ []) 144 191)
    else if ltb b 244
    then ([], Scan.inside 3 (b ∷ []) 128 191)
    else if b == 244
    then ([], Scan.inside 3 (b ∷ []) 128 143)
    else (replacement, Scan.boundary)

-- A byte that ends an ill-formed sequence is looked at again as a first byte.
abbrev restart : Bytes × Scan → Bytes × Scan
restart (completed, s) = (replacement ++ completed, s)

unfoldable pub scan_byte : Scan → ℕ → Bytes × Scan
unfolding scan_lead
scan_byte Scan.boundary b = scan_lead b
scan_byte (Scan.inside missing pending low high) b =
    if leb low b && leb b high
    then (if leb missing 1
        then (pending ++ b ∷ [], Scan.boundary)
        else ([], Scan.inside (missing - 1) (pending ++ b ∷ []) 128 191))
    else restart (scan_lead b)

-- The text from a place in the scan on.
unfoldable pub lossy_from : Scan → Bytes → Bytes
unfolding scan_byte
lossy_from Scan.boundary [] = []
lossy_from (Scan.inside missing pending low high) [] = replacement
lossy_from s (b ∷ bs) = let (completed, s') = scan_byte s b in completed ++ lossy_from s' bs

unfoldable pub from_utf8_lossy : Bytes → Bytes
unfolding lossy_from
from_utf8_lossy bytes = lossy_from Scan.boundary bytes

-- Bytes of ASCII characters are text already.
pub from_utf8_lossy-ascii :
    (bytes : Bytes) → All (λ b. b < 128) bytes → from_utf8_lossy bytes ≡ bytes
unfolding from_utf8_lossy
from_utf8_lossy-ascii [] h = refl
from_utf8_lossy-ascii (b ∷ bs) h = ground (arith, from_utf8_lossy-ascii bs h.1)
