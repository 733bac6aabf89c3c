-- ===== src/Primitives/Hash256/Bits.antt =====
-- crates/sena-primitives/src/hash.rs: a digest by its bits.
use mathlib.Core.Path.{ap₂}
use sena.Base.{[], ◌∷◌}
use sena.Primitives.Hash256.{bit, Hash256, Bytes, IsHash, IsBytes}
use sena.Base.{ℕ, ◌<◌, ◌%◌, ◌/◌, ◌==◌, ◌∷◌, ◌≡◌, arith, ◌+◌, length, ◌∙◌, suc, ◌*◌, sym, refl}

-- Two bytes with the same eight bits are equal.
byte_ext :
    (b c : ℕ)
    → b < 256
    → c < 256
    → b / 128 % 2 ≡ c / 128 % 2
    → b / 64 % 2 ≡ c / 64 % 2
    → b / 32 % 2 ≡ c / 32 % 2
    → b / 16 % 2 ≡ c / 16 % 2
    → b / 8 % 2 ≡ c / 8 % 2
    → b / 4 % 2 ≡ c / 4 % 2
    → b / 2 % 2 ≡ c / 2 % 2
    → b / 1 % 2 ≡ c / 1 % 2
    → b ≡ c
byte_ext b c hb hc e7 e6 e5 e4 e3 e2 e1 e0 = omega arith

parity : (x y : ℕ) → (x % 2 == 1) ≡ (y % 2 == 1) → x % 2 ≡ y % 2
parity x y h = ground arith

bit-cons : (b : ℕ) (bs : Bytes) (i : ℕ) → bit (b ∷ bs) (i + 8) ≡ bit bs i
unfolding bit
bit-cons b bs i =
    let q : (i + 8) / 8 ≡ suc (i / 8) = omega arith in
    let m : (i + 8) % 8 ≡ i % 8 = omega arith in rw (q, m) refl

-- The bits below `n` are the same.
abbrev pub Agree : ℕ → Hash256 → Hash256 → Type 0
Agree n a b = (i : ℕ) → i < n → bit a i ≡ bit b i

bytes_ext :
    (a b : Bytes) → IsBytes a → IsBytes b → length a ≡ length b → Agree (8 * length a) a b → a ≡ b
unfolding bit
bytes_ext [] [] ha hb l e = refl
bytes_ext [] (c ∷ cs) ha hb l e = absurd (omega arith)
bytes_ext (b ∷ bs) [] ha hb l e = absurd (omega arith)
bytes_ext (b ∷ bs) (c ∷ cs) ha hb l e =
    let head =
      byte_ext b c ha.0 hb.0 (parity _ _ (e 0 (omega arith))) (parity _ _ (e 1 (omega arith)))
        (parity _ _ (e 2 (omega arith))) (parity _ _ (e 3 (omega arith)))
        (parity _ _ (e 4 (omega arith))) (parity _ _ (e 5 (omega arith)))
        (parity _ _ (e 6 (omega arith))) (parity _ _ (e 7 (omega arith))) in
    ap₂ (λ x xs. x ∷ xs) head
      (bytes_ext bs cs ha.1 hb.1 (omega arith)
        (λ i h. sym (bit-cons b bs i) ∙ e (i + 8) (omega arith) ∙ bit-cons c cs i))

-- Two digests with the same 256 bits are equal.
pub hash_ext : (a b : Hash256) → IsHash a → IsHash b → Agree 256 a b → a ≡ b
hash_ext a b ha hb e = bytes_ext a b ha.1 hb.1 (ha.0 ∙ sym hb.0) (λ i h. e i (omega (arith, ha.0)))
