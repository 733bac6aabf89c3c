-- ===== src/Stf/Tests.antt =====
-- crates/sena-stf: the theorems at concrete accounts.
use sena.Base.BTreeMap.{get, insert}
use sena.Primitives.Hash256.{Bytes, zero_bytes}
use sena.Primitives.Codec.{to_be_bytes, read_uint, take_bytes, from_be_bytes, finish}
use sena.Stf.Account.Encoding.{decode-encode}
use sena.Stf.Account.Canonical.{encode-decode}
use sena.Base.{◌∷◌, arith, ◌≡◌, [], ok, refl, ◌++◌, ◌<◌, err, ◌⊎◌, ◌≤◌, if◌then◌else◌, ◌==◌, ◌-◌}
use sena.Stf.Account.Balances.{IsCanonical, debit-credit, debit_lem}
use sena.Stf.Account.{Account, encode, credit, decode, debit, balance, BalanceError}

-- An account that holds two assets.
abbrev holder : Account
holder = record { nonce = 4; balances = (1, 500) ∷ (9, 30) ∷ [] }

holder-IsCanonical : IsCanonical holder
holder-IsCanonical = ground arith

decode-encode_example : decode (encode holder) ≡ ok holder
unfolding encode to_be_bytes
decode-encode_example = decode-encode holder holder-IsCanonical (omega arith) (omega arith)

-- An account with nonce 4 and one balance, as bytes.
abbrev account_bytes : Bytes
account_bytes = zero_bytes 7 ++ 4 ∷ zero_bytes 3 ++ 1 ∷ zero_bytes 3 ++ 9 ∷ zero_bytes 15 ++ 30 ∷ []

abbrev small : Account
small = record { nonce = 4; balances = (9, 30) ∷ [] }

decode-account_bytes : decode account_bytes ≡ ok small
unfolding decode read_uint take_bytes from_be_bytes finish insert
decode-account_bytes = refl

encode-decode_example : (encode small ≡ account_bytes) × IsCanonical small
encode-decode_example =
    encode-decode account_bytes small (omega arith) (omega arith) decode-account_bytes

credit_undone : debit 9 12 (credit 9 12 holder).0 ≡ (holder, ok tt)
unfolding credit balance get
credit_undone = debit-credit 9 12 holder holder-IsCanonical refl

debit_lem_example :
    let (a', r) = debit 9 31 holder in
    ((balance 9 holder < 31)
      × (r ≡ err (BalanceError.insufficient (balance 9 holder) 31))
      × (a' ≡ holder))
    ⊎ ((31 ≤ balance 9 holder)
        × (r ≡ ok tt)
        × (a'.nonce ≡ 4)
        × (balance 1 a' ≡ (if 1 == 9 then balance 9 holder - 31 else balance 1 holder)))
debit_lem_example = debit_lem 9 31 1 holder holder-IsCanonical
