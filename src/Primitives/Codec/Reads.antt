-- ===== src/Primitives/Codec/Reads.antt =====
-- crates/sena-primitives/src/codec.rs: how a sequence of reads takes apart a sequence of writes.
use mathlib.Core.List.{append_assoc}
use sena.Primitives.Utf8.{from_utf8_lossy}
use sena.Primitives.Codec.BigEndian.{length-to_be_bytes}
use sena.Primitives.Codec.Write.{byte_of_bool}
use sena.Base.{
  ℕ, Bool, [], length, ◌≡◌, ◌++◌, ◌∷◌, ◌<◌, u32_mod, subst, ok, ◌^◌, arith, refl, length-append,
  leb, ◌-◌, true,
}
use sena.Primitives.Hash256.{Bytes}
use sena.Base.Action.{Action}
use sena.Primitives.Codec
use sena.Primitives.Codec.Read.{
  At, advance, At-advance, read_uint-At, take_bytes-At, read_u8-At, read_bool-At, finish-At, At-new,
}
use sena.Primitives.Codec.{Reader, to_be_bytes}

-- A reader in front of `bytes`, on an input whose length fits in 32 bits.
pub record Front (r : Reader) (bytes : Bytes) : Type 0 where
  pub at : At r bytes
  pub short : length r.input < u32_mod

pub Front-new : (input : Bytes) → length input < u32_mod → Front (Codec.new_reader input) input
Front-new input h = record { at = At-new input (omega (arith, h)); short = h }

pub Front-eq : {r : Reader} {xs ys : Bytes} → xs ≡ ys → Front r xs → Front r ys
Front-eq {r = r} e f = subst (Front r) e f

-- In front of `xs`, `p` returns `v` and stops right behind `xs`.
pub record Reads {E A : Type 0} (p : Action Reader E A) (xs : Bytes) (v : A) : Type 0 where
  pub run :
      (r : Reader) (ys : Bytes)
      → Front r (xs ++ ys)
      → (r' : Reader) × (p r ≡ (r', ok v)) × Front r' ys

behind :
    (n : ℕ) (xs ys : Bytes) (r : Reader)
    → length xs ≡ n
    → Front r (xs ++ ys)
    → Front (advance n r) ys
behind n xs ys r l f = record { at = At-advance n xs ys r l f.at; short = f.short }

pub Reads-u8 : (v : ℕ) → Reads Codec.read_u8 (v ∷ []) v
Reads-u8 v = record {
  run = λ r ys f. (advance 1 r, read_u8-At v ys r f.at, behind 1 (v ∷ []) ys r refl f);
}

pub Reads-uint :
    (width v : ℕ) → v < 256 ^ width → Reads (Codec.read_uint width) (to_be_bytes width v) v
Reads-uint width v h = record {
  run = λ r ys f. (
    advance width r,
    read_uint-At width v ys r h f.at,
    behind width (to_be_bytes width v) ys r (length-to_be_bytes width v) f,
  );
}

pub Reads-raw : (n : ℕ) (xs : Bytes) → length xs ≡ n → Reads (Codec.take_bytes n) xs xs
Reads-raw n xs l = record {
  run = λ r ys f. (advance n r, take_bytes-At n xs ys r l f.at, behind n xs ys r l f);
}

pub Reads-bool : (v : Bool) → Reads Codec.read_bool (byte_of_bool v ∷ []) v
Reads-bool v = record {
  run =
      λ r ys f. (advance 1 r, read_bool-At v ys r f.at, behind 1 (byte_of_bool v ∷ []) ys r refl f);
}

-- A length-prefixed byte string.
unfoldable pub framed : Bytes → Bytes
framed value = to_be_bytes 4 (length value) ++ value

pub Reads-bytes : (value : Bytes) → Reads Codec.read_bytes (framed value) value
unfolding framed sena.Primitives.Codec.read_bytes
Reads-bytes value = record {
  run = λ r ys f.
      let l4 = length-to_be_bytes 4 (length value) in
      let f0 = Front-eq (append_assoc (to_be_bytes 4 (length value)) value ys) f in
      let whole = f0.at.within in
      let small : length value < 256 ^ 4 = omega (
        arith,
        whole,
        f0.short,
        length-append (to_be_bytes 4 (length value)) (value ++ ys),
        length-append value ys,
      ) in
      let (r1, e0, f1) = (Reads-uint 4 (length value) small).run r (value ++ ys) f0 in
      let (r2, e1, f2) = (Reads-raw (length value) value refl).run r1 ys f1 in
      let room : leb (length value) (length r1.input - r1.offset) ≡ true =
        ground (arith, f1.at.within, length-append value ys) in
      (r2, ground (arith, e0, room, e1), f2);
}

-- A text is a byte string that the lossy conversion leaves as it is, as it does UTF-8.
abbrev pub IsText : Bytes → Type 0
IsText name = from_utf8_lossy name ≡ name

pub Reads-string : (name : Bytes) → IsText name → Reads Codec.read_string (framed name) name
unfolding sena.Primitives.Codec.read_string
Reads-string name t = record {
  run =
      λ r ys f. let (r1, e0, f1) = (Reads-bytes name).run r ys f in (r1, ground (arith, e0, t), f1);
}

pub finish-Front : (r : Reader) → Front r [] → Codec.finish r ≡ (r, ok tt)
finish-Front r f = finish-At r f.at

pub length-framed :
    (value ys : Bytes) (r : Reader) → Front r (framed value ++ ys) → length value < u32_mod
unfolding framed
length-framed value ys r f = omega (
  arith,
  f.at.within,
  f.short,
  length-append (to_be_bytes 4 (length value) ++ value) ys,
  length-append (to_be_bytes 4 (length value)) value,
)
