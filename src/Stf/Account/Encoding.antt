-- ===== src/Stf/Account/Encoding.antt =====
-- crates/sena-stf/src/account.rs: decoding what was encoded.
use sena.Primitives.Codec.BigEndian.{length-to_be_bytes}
use sena.Primitives.Codec.Read.{At, read_uint-At, At-advance, advance, At-new, finish-At}
use sena.Stf.Account.Balances.{HaveBalances, IsCanonical}
use sena.Primitives.Codec.{to_be_bytes, Reader, new_reader}
use sena.Base.BTreeMap.Sorted.{Above, Below, Below-append, IsSorted, insert_last}
use sena.Primitives.Hash256.{Bytes}
use sena.Base.{
  Option, ℕ, ◌≡◌, ◌≤◌, ◌∷◌, ◌++◌, [], false, some, sym, length, ◌+◌, arith, subst, ◌∙◌, none, ok,
  refl, ◌<◌, u32_mod, u64_mod,
}
use sena.Stf.Account.{write_balances, encode, read_balances, Account, is_out_of_order, decode}
use sena.Base.BTreeMap.{BTreeMap, nat_ord}
use mathlib.Core.List.{append_assoc, append-nil}

-- The bytes of the balances.
abbrev pub balance_bytes : BTreeMap ℕ ℕ → Bytes
balance_bytes [] = []
balance_bytes ((asset, amount) ∷ m) =
    to_be_bytes 4 asset ++ (to_be_bytes 16 amount ++ balance_bytes m)

pub write_balances-eq : (m : BTreeMap ℕ ℕ) (w : Bytes) → write_balances m w ≡ w ++ balance_bytes m
unfolding write_balances
write_balances-eq [] w = sym (append-nil w)
write_balances-eq ((asset, amount) ∷ m) w = write_balances-eq m _ ∙ simp append_assoc

pub encode-eq :
    (a : Account)
    → encode a
      ≡ to_be_bytes 8 a.nonce ++ (to_be_bytes 4 (length a.balances) ++ balance_bytes a.balances)
unfolding encode
encode-eq a =
    write_balances-eq a.balances _
    ∙ append_assoc (to_be_bytes 8 a.nonce) (to_be_bytes 4 (length a.balances))
        (balance_bytes a.balances)

-- No key that was read is greater than the last one.
abbrev pub Upto : Option ℕ → BTreeMap ℕ ℕ → Type 0
Upto none m = m ≡ []
Upto (some p) m = Below (p + 1) m

-- The next key is greater than the last one.
abbrev pub Starts : Option ℕ → BTreeMap ℕ ℕ → Type 0
Starts previous [] = Unit
Starts previous ((k, v) ∷ m) = is_out_of_order previous k ≡ false

Below-mono : (p k : ℕ) (m : BTreeMap ℕ ℕ) → p ≤ k → Below p m → Below k m
Below-mono p k [] h b = tt
Below-mono p k ((j, w) ∷ m) h b = (ground arith, Below-mono p k m h b.1)

pub Below-of_Upto :
    (previous : Option ℕ) (k : ℕ) (m : BTreeMap ℕ ℕ)
    → is_out_of_order previous k ≡ false
    → Upto previous m
    → Below k m
Below-of_Upto none k m h u = subst (Below k) (sym u) tt
Below-of_Upto (some p) k m h u = Below-mono (p + 1) k m (ground arith) u

pub Upto-append :
    (previous : Option ℕ) (k v : ℕ) (m : BTreeMap ℕ ℕ)
    → is_out_of_order previous k ≡ false
    → Upto previous m
    → Upto (some k) (m ++ (k, v) ∷ [])
Upto-append previous k v m h u =
    Below-append (k + 1) k v m
      (Below-mono k (k + 1) m (omega arith) (Below-of_Upto previous k m h u)) (ground arith)

Starts-of_Above : (k : ℕ) (m : BTreeMap ℕ ℕ) → Above k m → Starts (some k) m
Starts-of_Above k [] a = tt
Starts-of_Above k ((j, w) ∷ m) a = ground arith

Starts-none : (m : BTreeMap ℕ ℕ) → Starts none m
Starts-none [] = tt
Starts-none ((k, v) ∷ m) = refl

-- The loop reads back the entries that were written, behind those that it holds.
read_balances-At :
    (m : BTreeMap ℕ ℕ) (previous : Option ℕ) (acc : BTreeMap ℕ ℕ) (ys : Bytes) (r : Reader)
    → IsSorted m
    → HaveBalances m
    → Upto previous acc
    → Starts previous m
    → At r (balance_bytes m ++ ys)
    → (r' : Reader) × (read_balances (length m) previous acc r ≡ (r', ok (acc ++ m))) × At r' ys
unfolding read_balances
read_balances-At [] previous acc ys r s h u st at = (r, rw append-nil, at)
read_balances-At ((k, v) ∷ m) previous acc ys r s h u st at =
    let at0 : At r (to_be_bytes 4 k ++ (to_be_bytes 16 v ++ (balance_bytes m ++ ys))) =
      subst (At r) (simp append_assoc) at in
    let e0 = read_uint-At 4 k _ r h.0 at0 in
    let at1 = At-advance 4 (to_be_bytes 4 k) _ r (length-to_be_bytes 4 k) at0 in
    let e1 = read_uint-At 16 v _ (advance 4 r) h.2 at1 in
    let at2 = At-advance 16 (to_be_bytes 16 v) _ (advance 4 r) (length-to_be_bytes 16 v) at1 in
    let (r', e2, at3) =
      read_balances-At m (some k) (acc ++ (k, v) ∷ []) ys (advance 16 (advance 4 r)) s.1 h.3
        (Upto-append previous k v acc st u) (Starts-of_Above k m s.0) at2 in
    let last = insert_last k v acc (Below-of_Upto previous k acc st u) in
    let regroup : (acc ++ (k, v) ∷ []) ++ m ≡ acc ++ (k, v) ∷ m =
      append_assoc acc ((k, v) ∷ []) m in
    (r', ground arith, at3)

-- A canonical account with fewer than 2 ^ 32 assets and an encoding of fewer than 2 ^ 64 bytes
-- is read back from its encoding.
pub decode-encode :
    (a : Account)
    → IsCanonical a
    → length a.balances < u32_mod
    → length (encode a) < u64_mod
    → decode (encode a) ≡ ok a
unfolding decode
decode-encode a c countable short =
    let at0 : At (new_reader (encode a))
        (to_be_bytes 8 a.nonce ++ (to_be_bytes 4 (length a.balances) ++ balance_bytes a.balances)) =
      subst (At (new_reader (encode a))) (encode-eq a) (At-new (encode a) short) in
    let e0 = read_uint-At 8 a.nonce _ _ c.nonce_fits at0 in
    let at1 = At-advance 8 (to_be_bytes 8 a.nonce) _ _ (length-to_be_bytes 8 a.nonce) at0 in
    let e1 = read_uint-At 4 (length a.balances) _ _ countable at1 in
    let at2 = At-advance 4 (to_be_bytes 4 (length a.balances)) _ _ (length-to_be_bytes 4 _) at1 in
    let at3 : At _ (balance_bytes a.balances ++ []) = subst (At _) (sym (append-nil _)) at2 in
    let (r', e2, at4) =
      read_balances-At a.balances none [] [] _ c.sorted c.amounts refl (Starts-none a.balances)
        at3 in
    let e3 = finish-At r' at4 in ground arith
