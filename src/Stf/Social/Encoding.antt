-- ===== src/Stf/Social/Encoding.antt =====
-- crates/sena-stf/src/social.rs: reading back a stored binding.
use sena.Primitives.Hash256.{Bytes}
use mathlib.Core.List.{append-nil}
use sena.Primitives.Codec.{new_reader, Reader, finish, take_bytes, read_u8}
use sena.Base.{
  length, ◌≡◌, ok, ◌∷◌, ◌++◌, [], subst, sym, arith, refl, ℕ, ◌<◌, u64_mod, Result-cases, inl, drop,
  ◌∙◌, ap, inr, suc, zero,
}
use sena.Stf.Social.{SocialBinding, decode_binding, encode_binding, read_binding}
use sena.Primitives.Codec.Read.{
  At, At-new, read_u8-At, At-advance, take_bytes-At, finish-At, take_bytes-ok, read_u8-ok, At-after,
  advance, finish-ok,
}

abbrev pub IsBinding : SocialBinding → Type 0
IsBinding (SocialBinding.bound a) = length a ≡ 32
IsBinding SocialBinding.vacant = Unit

-- A binding to an address of 32 bytes, or a vacant one, is read back from its encoding.
pub decode-encode_binding :
    (b : SocialBinding) → IsBinding b → decode_binding (encode_binding b) ≡ ok b
unfolding decode_binding encode_binding sena.Primitives.Codec.read_u8 sena.Primitives.Codec.finish
decode-encode_binding (SocialBinding.bound a) h =
    let at0 : At (new_reader (0 ∷ a)) (0 ∷ (a ++ [])) =
      subst (λ t. At (new_reader (0 ∷ a)) (0 ∷ t)) (sym (append-nil a))
        (At-new (0 ∷ a) (omega (arith, h))) in
    let e0 = read_u8-At 0 _ _ at0 in
    let at1 = At-advance 1 (0 ∷ []) (a ++ []) _ refl at0 in
    let e1 = take_bytes-At 32 a [] _ h at1 in
    let e2 = finish-At _ (At-advance 32 a [] _ h at1) in ground arith
decode-encode_binding SocialBinding.vacant h = refl

-- What follows the tag.
after_tag :
    (tag : ℕ) (rest : Bytes) (b : SocialBinding) (r : Reader)
    → At r rest
    → (read_binding tag r).1 ≡ ok b
    → (finish (read_binding tag r).0).1 ≡ ok tt
    → (encode_binding b ≡ tag ∷ rest) × IsBinding b
unfolding encode_binding read_binding
after_tag zero rest b r at e f = elim (Result-cases (take_bytes 32 r).1) [
  | inl (a, q) ↦
      let (l, split, moved) = take_bytes-ok 32 rest a r at q in
      let at1 = At-after 32 a rest r (advance 32 r) at l split refl in
      let ended = finish-ok (drop 32 rest) (advance 32 r) at1 (ground arith) in
      let whole : rest ≡ a = split ∙ ap (λ t. a ++ t) ended ∙ append-nil a in
      let same : SocialBinding.bound a ≡ b = ground arith in
      subst (λ t. (encode_binding t ≡ 0 ∷ rest) × IsBinding t) same (ap (λ t. 0 ∷ t) (sym whole), l)
  | inr (x, q) ↦ absurd (ground arith)
]
after_tag (suc zero) rest b r at e f =
    let ended = finish-ok rest r at f in
    let same : SocialBinding.vacant ≡ b = ground arith in
    subst (λ t. (encode_binding t ≡ 1 ∷ rest) × IsBinding t) same (ap (λ t. 1 ∷ t) (sym ended), tt)
after_tag (suc (suc other)) rest b r at e f = absurd (ground arith)

-- Bytes that decode, fewer than 2 ^ 64 of them, are the encoding of the binding that they decode
-- to, which holds 32 bytes if it holds an address.
pub encode-decode_binding :
    (input : Bytes) (b : SocialBinding)
    → length input < u64_mod
    → decode_binding input ≡ ok b
    → (encode_binding b ≡ input) × IsBinding b
unfolding decode_binding encode_binding
encode-decode_binding input b short e =
    let r = new_reader input in
    let at0 = At-new input short in
    elim (Result-cases (read_u8 r).1) [
      | inl (tag, e0) ↦
          let (split, moved) = read_u8-ok tag input r at0 e0 in
          let at1 = At-after 1 (tag ∷ []) input r (advance 1 r) at0 refl split refl in
          let (whole, w) =
            after_tag tag (drop 1 input) b (advance 1 r) at1 (ground arith) (ground arith) in
          (whole ∙ sym split, w)
      | inr (x, e0) ↦ absurd (ground arith)
    ]
