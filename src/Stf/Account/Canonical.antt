-- ===== src/Stf/Account/Canonical.antt =====
-- crates/sena-stf/src/account.rs: what `decode` accepts.
use sena.Primitives.Codec.BigEndian.{length-to_be_bytes}
use sena.Stf.Account.Balances.{HaveBalances, IsCanonical}
use sena.Stf.Account.Encoding.{balance_bytes, Upto, Below-of_Upto, Upto-append, encode-eq}
use sena.Base.BTreeMap.Sorted.{IsSorted, insert_last, insert-IsSorted}
use sena.Primitives.Codec.Read.{At, read_uint-ok, At-after, advance, At-new, finish-ok}
use sena.Primitives.Codec.{Reader, read_u32, to_be_bytes, read_u128, new_reader, read_u64, finish}
use sena.Primitives.Hash256.{Bytes, IsBytes, IsByte}
use sena.Base.{
  ℕ, Option, length, ◌≡◌, ◌++◌, ok, [], arith, subst, suc, Result-cases, inl, drop, All-split, inr,
  zero, refl, sym, false, ◌∙◌, ◌<◌, ap, u32_mod, u128_mod, ◌∷◌, some, u64_mod, none,
}
use sena.Stf.Account.{read_balances, is_out_of_order, Account, decode, encode}
use sena.Base.BTreeMap.{BTreeMap, nat_ord, insert}
use mathlib.Core.List.{append_assoc, append-nil}

-- What the loop has read, from the bytes in front of it.
record LoopRead (acc m : BTreeMap ℕ ℕ) (n : ℕ) (bytes : Bytes) (r' : Reader) : Type 0 where
  entries : BTreeMap ℕ ℕ
  rest : Bytes
  counted : length entries ≡ n
  result : m ≡ acc ++ entries
  consumed : bytes ≡ balance_bytes entries ++ rest
  sorted : IsSorted m
  amounts : HaveBalances entries
  after : At r' rest

-- What one round of the loop has read.
record EntryRead (n : ℕ) (previous : Option ℕ) (acc : BTreeMap ℕ ℕ) (bytes : Bytes) (r : Reader)
    : Type 0 where
  asset : ℕ
  amount : ℕ
  in_order : is_out_of_order previous asset ≡ false
  asset_fits : asset < u32_mod
  positive : 0 < amount
  amount_fits : amount < u128_mod
  consumed : bytes ≡ to_be_bytes 4 asset ++ (to_be_bytes 16 amount ++ drop 16 (drop 4 bytes))
  after : At (advance 16 (advance 4 r)) (drop 16 (drop 4 bytes))
  goes_on :
      read_balances (suc n) previous acc r
      ≡ read_balances n (some asset) (insert asset amount acc) (advance 16 (advance 4 r))

entry-ok :
    (n : ℕ) (previous : Option ℕ) (acc m : BTreeMap ℕ ℕ) (bytes : Bytes) (r : Reader)
    → IsBytes bytes
    → At r bytes
    → (read_balances (suc n) previous acc r).1 ≡ ok m
    → EntryRead n previous acc bytes r
unfolding read_balances
entry-ok n previous acc m bytes r b at e = elim (Result-cases (read_u32 r).1) [
  | inl (k, e0) ↦
      let (hk, split0, moved0) = read_uint-ok 4 k bytes r b at e0 in
      let b1 : IsBytes (drop 4 bytes) =
        (All-split IsByte (to_be_bytes 4 k) (drop 4 bytes) (subst IsBytes split0 b)).1 in
      let at1 =
        At-after 4 (to_be_bytes 4 k) bytes r (advance 4 r) at (length-to_be_bytes 4 k) split0
          refl in
      elim (Result-cases (read_u128 (advance 4 r)).1) [
        | inl (v, e1) ↦
            let (hv, split1, moved1) = read_uint-ok 16 v (drop 4 bytes) (advance 4 r) b1 at1 e1 in
            let at2 =
              At-after 16 (to_be_bytes 16 v) (drop 4 bytes) (advance 4 r) (advance 16 (advance 4 r))
                at1 (length-to_be_bytes 16 v) split1 refl in
            record {
              asset = k;
              amount = v;
              in_order = ground arith;
              asset_fits = hk;
              positive = ground arith;
              amount_fits = hv;
              consumed = split0 ∙ ap (λ t. to_be_bytes 4 k ++ t) split1;
              after = at2;
              goes_on = ground arith;
            }
        | inr (x, e1) ↦ absurd (ground arith)
      ]
  | inr (x, e0) ↦ absurd (ground arith)
]

read_balances-ok :
    (n : ℕ) (previous : Option ℕ) (acc m : BTreeMap ℕ ℕ) (bytes : Bytes) (r : Reader)
    → IsBytes bytes
    → At r bytes
    → IsSorted acc
    → Upto previous acc
    → (read_balances n previous acc r).1 ≡ ok m
    → LoopRead acc m n bytes (read_balances n previous acc r).0
unfolding read_balances
read_balances-ok zero previous acc m bytes r b at s u e =
    let same : acc ≡ m = cc in
    record {
      entries = [];
      rest = bytes;
      counted = refl;
      result = sym same ∙ sym (append-nil acc);
      consumed = refl;
      sorted = subst IsSorted same s;
      amounts = tt;
      after = at;
    }
read_balances-ok (suc n) previous acc m bytes r b at s u e =
    let one = entry-ok n previous acc m bytes r b at e in
    let k = one.asset in
    let v = one.amount in
    let rest = drop 16 (drop 4 bytes) in
    let below = Below-of_Upto previous k acc one.in_order u in
    let last : insert k v acc ≡ acc ++ (k, v) ∷ [] = insert_last k v acc below in
    let rest-IsBytes : IsBytes rest =
      (All-split IsByte (to_be_bytes 16 v) rest
        (All-split IsByte (to_be_bytes 4 k) (to_be_bytes 16 v ++ rest)
          (subst IsBytes one.consumed b)).1).1 in
    let ih =
      read_balances-ok n (some k) (insert k v acc) m rest (advance 16 (advance 4 r)) rest-IsBytes
        one.after (insert-IsSorted k v acc s)
        (subst (Upto (some k)) (sym last) (Upto-append previous k v acc one.in_order u))
        (ap (λ t. t.1) (sym one.goes_on) ∙ e) in
    record {
      entries = (k, v) ∷ ih.entries;
      rest = ih.rest;
      counted = ap suc ih.counted;
      result =
          ih.result ∙ ap (λ t. t ++ ih.entries) last ∙ append_assoc acc ((k, v) ∷ []) ih.entries;
      consumed =
          one.consumed
          ∙ ap (λ t. to_be_bytes 4 k ++ (to_be_bytes 16 v ++ t)) ih.consumed
          ∙ simp append_assoc;
      sorted = ih.sorted;
      amounts = (one.asset_fits, one.positive, one.amount_fits, ih.amounts);
      after = subst (λ t. At t.0 ih.rest) (sym one.goes_on) ih.after;
    }

-- The parts of a successful `decode`.
record DecodeRead (bytes : Bytes) (a : Account) : Type 0 where
  nonce : ℕ
  balances : BTreeMap ℕ ℕ
  count : ℕ
  last : Reader
  whole : a ≡ record { nonce = nonce; balances = balances }
  nonce_fits : nonce < u64_mod
  count_fits : count < u32_mod
  header : bytes ≡ to_be_bytes 8 nonce ++ (to_be_bytes 4 count ++ drop 4 (drop 8 bytes))
  body : LoopRead [] balances count (drop 4 (drop 8 bytes)) last
  ended : body.rest ≡ []

decode-ok :
    (bytes : Bytes) (a : Account)
    → IsBytes bytes
    → length bytes < u64_mod
    → decode bytes ≡ ok a
    → DecodeRead bytes a
unfolding decode
decode-ok bytes a b short e =
    let r = new_reader bytes in
    let at = At-new bytes short in
    elim (Result-cases (read_u64 r).1) [
      | inl (nonce, e0) ↦
          let (h0, split0, moved0) = read_uint-ok 8 nonce bytes r b at e0 in
          let at1 =
            At-after 8 (to_be_bytes 8 nonce) bytes r (advance 8 r) at (length-to_be_bytes 8 nonce)
              split0 refl in
          let b1 =
            (All-split IsByte (to_be_bytes 8 nonce) (drop 8 bytes) (subst IsBytes split0 b)).1 in
          elim (Result-cases (read_u32 (advance 8 r)).1) [
            | inl (count, e1) ↦
                let (h1, split1, moved1) =
                  read_uint-ok 4 count (drop 8 bytes) (advance 8 r) b1 at1 e1 in
                let at2 =
                  At-after 4 (to_be_bytes 4 count) (drop 8 bytes) (advance 8 r)
                    (advance 4 (advance 8 r)) at1 (length-to_be_bytes 4 count) split1 refl in
                let b2 =
                  (All-split IsByte (to_be_bytes 4 count) (drop 4 (drop 8 bytes))
                    (subst IsBytes split1 b1)).1 in
                elim (Result-cases (read_balances count none [] (advance 4 (advance 8 r))).1) [
                  | inl (m, e2) ↦
                      (let loop =
                          read_balances-ok count none [] m (drop 4 (drop 8 bytes))
                            (advance 4 (advance 8 r)) b2 at2 tt refl e2 in
                        let done : (finish
                              (read_balances count none [] (advance 4 (advance 8 r))).0).1
                            ≡ ok tt =
                          ground arith in
                        record {
                          nonce = nonce;
                          balances = m;
                          count = count;
                          last = (read_balances count none [] (advance 4 (advance 8 r))).0;
                          whole = ground arith;
                          nonce_fits = h0;
                          count_fits = h1;
                          header = split0 ∙ ap (λ t. to_be_bytes 8 nonce ++ t) split1;
                          body = loop;
                          ended = finish-ok loop.rest _ loop.after done;
                        })
                  | inr (x, e2) ↦ absurd (ground arith)
                ]
            | inr (x, e1) ↦ absurd (ground arith)
          ]
      | inr (x, e0) ↦ absurd (ground arith)
    ]

-- Bytes that decode, fewer than 2 ^ 64 of them, are the encoding of the account that they
-- decode to, and that account is canonical: no account has two encodings.
pub encode-decode :
    (bytes : Bytes) (a : Account)
    → IsBytes bytes
    → length bytes < u64_mod
    → decode bytes ≡ ok a
    → (encode a ≡ bytes) × IsCanonical a
encode-decode bytes a b short e =
    let d = decode-ok bytes a b short e in
    let entries : d.body.entries ≡ d.balances = sym d.body.result in
    let counted : d.count ≡ length d.balances = sym d.body.counted ∙ ap length entries in
    let tail : drop 4 (drop 8 bytes) ≡ balance_bytes d.balances =
      d.body.consumed
      ∙ ap (λ t. balance_bytes d.body.entries ++ t) d.ended
      ∙ append-nil (balance_bytes d.body.entries)
      ∙ ap balance_bytes entries in
    let back : bytes ≡ encode (record { nonce = d.nonce; balances = d.balances }) =
      d.header
      ∙ ap (λ t. to_be_bytes 8 d.nonce ++ (to_be_bytes 4 d.count ++ t)) tail
      ∙ ap (λ t. to_be_bytes 8 d.nonce ++ (to_be_bytes 4 t ++ balance_bytes d.balances)) counted
      ∙ sym (encode-eq (record { nonce = d.nonce; balances = d.balances })) in
    (
      ap encode d.whole ∙ sym back,
      subst IsCanonical (sym d.whole) (record {
        nonce_fits = d.nonce_fits;
        sorted = d.body.sorted;
        amounts = subst HaveBalances entries d.body.amounts;
      }),
    )
