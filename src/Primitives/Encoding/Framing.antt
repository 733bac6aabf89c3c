-- ===== src/Primitives/Encoding/Framing.antt =====
-- crates/sena-primitives/src/encoding.rs: the frames of a sequence of fields.
use sena.Primitives.Codec.BigEndian.{length-to_be_bytes, from-to_be_bytes}
use sena.Primitives.Codec.{to_be_bytes, from_be_bytes}
use sena.Primitives.Encoding.{push_framed}
use sena.Primitives.Hash256.{Bytes}
use sena.Base.{
  List, ℕ, ◌∷◌, length, ◌≡◌, All, ◌<◌, ◌++◌, [], u32_mod, sym, ◌∙◌, take-append, ap, take,
  drop-append, drop, refl,
}
use mathlib.Core.Path.{ap₂}
use mathlib.Core.List.{append_assoc, append-nil}

-- The encoder after a sequence of fields.
abbrev pub push_all : List Bytes → Bytes → Bytes
push_all [] buf = buf
push_all (x ∷ xs) buf = push_all xs (push_framed x buf)

abbrev IsShort : Bytes → Type 0
IsShort x = length x < u32_mod

-- The frames of a sequence of fields.
abbrev frames : List Bytes → Bytes
frames [] = []
frames (x ∷ xs) = to_be_bytes 4 (length x) ++ (x ++ frames xs)

push_all-eq : (xs : List Bytes) (buf : Bytes) → push_all xs buf ≡ buf ++ frames xs
unfolding push_framed
push_all-eq [] buf = simp append-nil
push_all-eq (x ∷ xs) buf = push_all-eq xs _ ∙ simp append_assoc

append-inj :
    (n : ℕ) (xs xs' ys ys' : Bytes)
    → length xs ≡ n
    → length xs' ≡ n
    → xs ++ ys ≡ xs' ++ ys'
    → (xs ≡ xs') × (ys ≡ ys')
append-inj n xs xs' ys ys' h h' e = (
  sym (take-append xs ys n h) ∙ ap (take n) e ∙ take-append xs' ys' n h',
  sym (drop-append xs ys n h) ∙ ap (drop n) e ∙ drop-append xs' ys' n h',
)

frames-inj :
    (xs ys : List Bytes) → All IsShort xs → All IsShort ys → frames xs ≡ frames ys → xs ≡ ys
unfolding to_be_bytes
frames-inj [] [] h k e = refl
frames-inj [] (y ∷ ys) h k e = absurd (cc)
frames-inj (x ∷ xs) [] h k e = absurd (cc)
frames-inj (x ∷ xs) (y ∷ ys) h k e =
    let (lens, rest) =
      append-inj 4 (to_be_bytes 4 (length x)) (to_be_bytes 4 (length y)) (x ++ frames xs)
        (y ++ frames ys) (length-to_be_bytes 4 (length x)) (length-to_be_bytes 4 (length y)) e in
    let same : length x ≡ length y =
      sym (from-to_be_bytes 4 (length x) h.0)
      ∙ ap from_be_bytes lens
      ∙ from-to_be_bytes 4 (length y) k.0 in
    let (heads, tails) = append-inj (length y) x y (frames xs) (frames ys) same refl rest in
    ap₂ (λ a b. a ∷ b) heads (frames-inj xs ys h.1 k.1 tails)

-- Two encodings are equal only if they hold the same fields in the same order, the domain tag
-- among them: bytes cannot move from one field to the next.
pub push_all-inj :
    (xs ys : List Bytes)
    → All IsShort xs
    → All IsShort ys
    → push_all xs [] ≡ push_all ys []
    → xs ≡ ys
push_all-inj xs ys h k e = frames-inj xs ys h k (sym (push_all-eq xs []) ∙ e ∙ push_all-eq ys [])
