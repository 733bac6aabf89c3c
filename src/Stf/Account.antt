-- ===== src/Stf/Account.antt =====
-- crates/sena-stf/src/account.rs: an account's nonce and balances. An `AssetId` is its number.
pub mod Balances
pub mod Encoding
pub mod Canonical
use sena.Primitives.Hash256.{Bytes}
use sena.Base.{
  ℕ, [], Option, none, if◌then◌else◌, length, Bool, Result, some, suc, ◌==◌, false, not, map_err,
  ok, leb, ◌||◌, checked_add, checked_sub, zero, u128_mod, err, ◌∷◌,
}
use sena.Base.Action.{Action, pure, raise, gets, require, ◌>>=◌, ◌>>◌}
use sena.Base.BTreeMap.{BTreeMap, get, insert, remove, nat_ord}
use sena.Primitives.Codec
use sena.Primitives.Codec.Write.{Writer, u32, u64, u128, bytes}

pub record Account : Type 0 where
  pub nonce : ℕ
  pub balances : BTreeMap ℕ ℕ

pub data BalanceError : Type 0 where
  insufficient : ℕ → ℕ → BalanceError
  overflow malformed : BalanceError

-- `Account::new`
abbrev pub new_account : Account
new_account = record { nonce = 0; balances = [] }

-- `Account::balance`
unfoldable pub balance : ℕ → Account → ℕ
balance asset a = elim (get asset a.balances) [ none ↦ 0 | some amount ↦ amount ]

-- `Account::credit`
unfoldable pub credit : ℕ → ℕ → Action Account BalanceError (Unit {0})
credit asset amount a =
    if amount == 0 then (a, ok tt) else elim (checked_add u128_mod (balance asset a) amount) [
      | none ↦ (a, err BalanceError.overflow)
      | some updated ↦ (record a { balances = insert asset updated a.balances }, ok tt)
    ]

-- Where `debit` stores what is left: a zero balance is never stored.
unfoldable pub store_balance : ℕ → ℕ → Account → Account
store_balance asset updated a =
    if updated == 0
    then record a { balances = remove asset a.balances }
    else record a { balances = insert asset updated a.balances }

-- `Account::debit`
unfoldable pub debit : ℕ → ℕ → Action Account BalanceError (Unit {0})
unfolding store_balance
debit asset amount a =
    if amount == 0 then (a, ok tt) else elim (checked_sub (balance asset a) amount) [
      | none ↦ (a, err (BalanceError.insufficient (balance asset a) amount))
      | some updated ↦ (store_balance asset updated a, ok tt)
    ]

-- The loop of `encode` over the balances.
unfoldable pub write_balances : BTreeMap ℕ ℕ → Writer → Writer
write_balances [] w = w
write_balances ((asset, amount) ∷ m) w = write_balances m (u128 amount (u32 asset w))

-- `Account::encode`
unfoldable pub encode : Account → Bytes
unfolding write_balances
encode a = write_balances a.balances (u32 (length a.balances) (u64 a.nonce []))

-- Asset ids must rise: `previous.is_some_and(|prev| asset <= prev)`.
abbrev pub is_out_of_order : Option ℕ → ℕ → Bool
is_out_of_order none asset = false
is_out_of_order (some prev) asset = leb asset prev

-- The loop of `decode_inner`, over the entries that are left.
unfoldable pub read_balances : ℕ → Option ℕ → BTreeMap ℕ ℕ → Codec.Read (BTreeMap ℕ ℕ)
read_balances zero previous m = pure m
read_balances (suc n) previous m = do
  asset ← Codec.read_u32
  amount ← Codec.read_u128
  require (not (is_out_of_order previous asset || amount == 0)) (Codec.unknown_variant 0)
  read_balances n (some asset) (insert asset amount m)

-- `Account::decode_inner`
unfoldable pub decode_inner : Codec.Read Account
unfolding read_balances
decode_inner = do
  nonce ← Codec.read_u64
  count ← Codec.read_u32
  balances ← read_balances count none []
  Codec.finish
  pure (record { nonce = nonce; balances = balances })

-- `Account::decode`
unfoldable pub decode : Bytes → Result BalanceError Account
unfolding decode_inner
decode bytes = map_err (λ e. BalanceError.malformed) (Codec.decode_with decode_inner bytes)
