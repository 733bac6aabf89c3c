-- ===== src/Primitives/Codec/Read.antt =====
-- crates/sena-primitives/src/codec.rs: what each read of `Reader` does at the bytes that follow, in
-- both directions.
use sena.Primitives.Codec.BigEndian.{
  length-to_be_bytes, from-to_be_bytes, to-from_be_bytes, from_be_bytes-lt,
}
use sena.Primitives.Codec.Write.{byte_of_bool}
use sena.Primitives.Hash256.{Bytes, IsBytes, IsByte}
use sena.Base.{
  ℕ, length, ◌+◌, ◌≡◌, ◌<◌, ◌∷◌, Bool, [], u64_mod, ◌++◌, ok, ◌^◌, drop, drop-drop, arith,
  get_elem?-drop, ◌∙◌, length-append, true, refl, ap, take-append, false, drop-append, length-take,
  Option-cases, subst, take-append-drop, Result-cases, get_elem?, sym, inl, inr, All-split, suc,
  drop-get_elem?, some,
}
use sena.Primitives.Codec.{
  Reader, take_bytes, read_uint, read_u8, read_bool, finish, new_reader, to_be_bytes, from_be_bytes,
}

-- The reader stands in front of `bytes`. No input has 2 ^ 64 bytes, so offsets do not overflow.
pub record At (r : Reader) (bytes : Bytes) : Type 0 where
  pub small : length r.input < u64_mod
  pub there : drop r.offset r.input ≡ bytes
  pub within : r.offset + length bytes ≡ length r.input

abbrev pub advance : ℕ → Reader → Reader
advance n r = record r { offset = r.offset + n }

pub At-new : (input : Bytes) → length input < u64_mod → At (new_reader input) input
At-new input h = record { small = h; there = refl; within = omega arith }

pub At-advance :
    (n : ℕ) (xs ys : Bytes) (r : Reader) → length xs ≡ n → At r (xs ++ ys) → At (advance n r) ys
At-advance n xs ys r h a = record {
  small = a.small;
  there =
      drop-drop r.offset n (r.offset + n) r.input refl
      ∙ ap (drop n) a.there
      ∙ drop-append xs ys n h;
  within = omega (arith, length-append xs ys, a.within);
}

pub take_bytes-At :
    (n : ℕ) (xs ys : Bytes) (r : Reader)
    → length xs ≡ n
    → At r (xs ++ ys)
    → take_bytes n r ≡ (advance n r, ok xs)
unfolding take_bytes
take_bytes-At n xs ys r h a =
    ground (arith, a.small, a.within, a.there, length-append xs ys, take-append xs ys n h)

pub take_bytes-ok :
    (n : ℕ) (bytes xs : Bytes) (r : Reader)
    → At r bytes
    → (take_bytes n r).1 ≡ ok xs
    → (length xs ≡ n) × (bytes ≡ xs ++ drop n bytes) × ((take_bytes n r).0 ≡ advance n r)
unfolding take_bytes
take_bytes-ok n bytes xs r a e = ground (arith, length-take n bytes, take-append-drop n bytes)

pub read_uint-At :
    (width v : ℕ) (ys : Bytes) (r : Reader)
    → v < 256 ^ width
    → At r (to_be_bytes width v ++ ys)
    → read_uint width r ≡ (advance width r, ok v)
unfolding read_uint
read_uint-At width v ys r h a = ground (
  arith,
  take_bytes-At width (to_be_bytes width v) ys r (length-to_be_bytes width v) a,
  from-to_be_bytes width v h,
)

pub read_uint-ok :
    (width v : ℕ) (bytes : Bytes) (r : Reader)
    → IsBytes bytes
    → At r bytes
    → (read_uint width r).1 ≡ ok v
    → (v < 256 ^ width)
      × (bytes ≡ to_be_bytes width v ++ drop width bytes)
      × ((read_uint width r).0 ≡ advance width r)
unfolding read_uint
read_uint-ok width v bytes r b a e = elim (Result-cases (take_bytes width r).1) [
  | inl (xs, q) ↦
      let (l, split, moved) = take_bytes-ok width bytes xs r a q in
      let v_eq : from_be_bytes xs ≡ v = ground arith in
      let xs-IsBytes = (All-split IsByte xs (drop width bytes) (subst IsBytes split b)).0 in
      let canonical : to_be_bytes width v ≡ xs =
        rw (← v_eq, ← l) (to-from_be_bytes xs xs-IsBytes) in
      let bound : v < 256 ^ width = rw (← v_eq, ← l) (from_be_bytes-lt xs xs-IsBytes) in
      (bound, split ∙ ap (λ t. t ++ drop width bytes) (sym canonical), ground arith)
  | inr (x, q) ↦ absurd (ground arith)
]

pub read_u8-At : (v : ℕ) (ys : Bytes) (r : Reader) → At r (v ∷ ys) → read_u8 r ≡ (advance 1 r, ok v)
unfolding read_u8
read_u8-At v ys r a = ground (arith, get_elem?-drop r.offset r.input ys v a.there)

pub read_u8-ok :
    (v : ℕ) (bytes : Bytes) (r : Reader)
    → At r bytes
    → (read_u8 r).1 ≡ ok v
    → (bytes ≡ v ∷ drop 1 bytes) × ((read_u8 r).0 ≡ advance 1 r)
unfolding read_u8
read_u8-ok v bytes r a e = elim (Option-cases (get_elem? r.input r.offset)) [
  | inl q ↦ absurd (ground arith)
  | inr (y, q) ↦
      let y_eq : y ≡ v = ground arith in
      let d : bytes ≡ v ∷ drop (suc r.offset) r.input =
        sym a.there ∙ drop-get_elem? r.offset r.input v (q ∙ ap some y_eq) in
      (d ∙ ap (λ t. v ∷ t) (ap (drop 1) (sym d)), ground arith)
]

pub read_bool-At :
    (v : Bool) (ys : Bytes) (r : Reader)
    → At r (byte_of_bool v ∷ ys)
    → read_bool r ≡ (advance 1 r, ok v)
unfolding read_bool
read_bool-At true ys r a = ground (arith, read_u8-At 1 ys r a)
read_bool-At false ys r a = ground (arith, read_u8-At 0 ys r a)

pub finish-At : (r : Reader) → At r [] → finish r ≡ (r, ok tt)
unfolding finish
finish-At r a = ground (arith, a.within)

pub finish-ok : (bytes : Bytes) (r : Reader) → At r bytes → (finish r).1 ≡ ok tt → bytes ≡ []
unfolding finish
finish-ok [] r a e = refl
finish-ok (b ∷ bs) r a e = absurd (ground (arith, a.within))

-- After a read that consumed a prefix, the reader stands in front of the rest.
pub At-after :
    (n : ℕ) (xs bytes : Bytes) (r r' : Reader)
    → At r bytes
    → length xs ≡ n
    → bytes ≡ xs ++ drop n bytes
    → r' ≡ advance n r
    → At r' (drop n bytes)
At-after n xs bytes r r' a l split moved =
    subst (λ t. At t (drop n bytes)) (sym moved)
      (At-advance n xs (drop n bytes) r l (subst (At r) split a))
