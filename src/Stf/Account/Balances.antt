-- ===== src/Stf/Account/Balances.antt =====
-- crates/sena-stf/src/account.rs: credits and debits.
use sena.Base.BTreeMap.Sorted.{
  IsSorted, insert-IsSorted, remove-IsSorted, get-remove_self, get-remove_ne, remove-insert_new,
  insert-insert, insert_same,
}
use sena.Stf.Account.{Account, credit, debit, balance, BalanceError, store_balance}
use sena.Base.{
  ℕ, ◌<◌, ◌≢◌, ◌≡◌, u64_mod, u32_mod, ◌≤◌, none, some, u128_mod, arith, ◌+◌, ◌∷◌, [], err, ◌-◌, ◌⊎◌,
  ok, if◌then◌else◌, ◌==◌, Option-cases, Bool-cases, ltb, inl, inr, ◌∙◌, ap, sym,
}
use sena.Base.BTreeMap.{BTreeMap, get, insert, remove, nat_ord, get-insert_self, get-insert_ne}

-- Every stored balance is positive and fits its word.
abbrev pub HaveBalances : BTreeMap ℕ ℕ → Type 0
HaveBalances [] = Unit
HaveBalances ((asset, amount) ∷ m) =
    (asset < u32_mod) × (0 < amount) × (amount < u128_mod) × HaveBalances m

-- What an account's state satisfies: one canonical form for each set of balances.
pub record IsCanonical (a : Account) : Type 0 where
  pub nonce_fits : a.nonce < u64_mod
  pub sorted : IsSorted a.balances
  pub amounts : HaveBalances a.balances

HaveBalances-insert :
    (k v : ℕ) (m : BTreeMap ℕ ℕ)
    → k < u32_mod
    → 0 < v
    → v < u128_mod
    → HaveBalances m
    → HaveBalances (insert k v m)
unfolding insert
HaveBalances-insert k v [] hk pv hv h = (hk, pv, hv, tt)
HaveBalances-insert k v ((j, w) ∷ m) hk pv hv h =
    ground (arith, HaveBalances-insert k v m hk pv hv h.3)

HaveBalances-remove : (k : ℕ) (m : BTreeMap ℕ ℕ) → HaveBalances m → HaveBalances (remove k m)
unfolding remove
HaveBalances-remove k [] h = tt
HaveBalances-remove k ((j, w) ∷ m) h = ground (arith, HaveBalances-remove k m h.3)

get-HaveBalances :
    (k v : ℕ) (m : BTreeMap ℕ ℕ) → HaveBalances m → get k m ≡ some v → (0 < v) × (v < u128_mod)
unfolding get
get-HaveBalances k v [] h e = absurd (cc)
get-HaveBalances k v ((j, w) ∷ m) h e = ground (arith, get-HaveBalances k v m h.3)

-- What is stored for an asset, by the balance that it shows.
held :
    (asset : ℕ) (a : Account)
    → IsCanonical a
    → (balance asset a < u128_mod)
      × (((balance asset a ≡ 0) × (get asset a.balances ≡ none))
          ⊎ ((0 < balance asset a) × (get asset a.balances ≡ some (balance asset a))))
unfolding balance
held asset a c = elim (Option-cases (get asset a.balances)) [
  | inl e ↦
      let none_held : balance asset a ≡ 0 = ground arith in
      (omega (arith, none_held), inl (none_held, e))
  | inr (v, e) ↦
      let some_held : balance asset a ≡ v = ground arith in
      let bounds = get-HaveBalances asset v a.balances c.amounts e in
      (
        omega (arith, some_held, bounds),
        inr (omega (arith, some_held, bounds), e ∙ ap some (sym some_held)),
      )
]

-- Crediting keeps the account canonical, accepted or refused.
pub credit-IsCanonical :
    (asset amount : ℕ) (a : Account)
    → asset < u32_mod
    → IsCanonical a
    → IsCanonical (credit asset amount a).0
unfolding credit
credit-IsCanonical asset amount a h c = ground (
  arith,
  insert-IsSorted asset (balance asset a + amount) a.balances c.sorted,
  HaveBalances-insert asset (balance asset a + amount) a.balances h,
)

-- Debiting keeps the account canonical: a balance that reaches zero is not stored.
pub debit-IsCanonical :
    (asset amount : ℕ) (a : Account)
    → asset < u32_mod
    → IsCanonical a
    → IsCanonical (debit asset amount a).0
unfolding debit
debit-IsCanonical asset amount a h c = ground (
  arith,
  held asset a c,
  remove-IsSorted asset a.balances c.sorted,
  HaveBalances-remove asset a.balances c.amounts,
  insert-IsSorted asset (balance asset a - amount) a.balances c.sorted,
  HaveBalances-insert asset (balance asset a - amount) a.balances h,
)

-- A credit is refused exactly when the balance would leave its 128 bits, and then changes
-- nothing; an accepted one adds the amount to the asset's balance and touches no other balance and
-- not the nonce.
pub credit_lem :
    (asset amount other : ℕ) (a : Account)
    → let (a', r) = credit asset amount a in
      ((amount ≢ 0 × (u128_mod ≤ balance asset a + amount))
        × (r ≡ err BalanceError.overflow)
        × (a' ≡ a))
      ⊎ (((amount ≡ 0) ⊎ (balance asset a + amount < u128_mod))
          × (r ≡ ok tt)
          × (a'.nonce ≡ a.nonce)
          × (balance other a'
              ≡ (if other == asset then balance asset a + amount else balance other a)))
unfolding credit balance
credit_lem asset amount other a = elim (Bool-cases (amount == 0)) [
  | inl zero_amount ↦ inr (ground arith)
  | inr positive ↦ elim (Bool-cases (ltb (balance asset a + amount) u128_mod)) [
    | inl fits ↦ inr (
        ground (
          arith,
          get-insert_self asset (balance asset a + amount) a.balances,
          get-insert_ne asset other (balance asset a + amount) a.balances,
        ))
    | inr over ↦ inl (ground arith)
  ]
]

-- A debit of a canonical account is refused exactly when the account holds too little, and then
-- changes nothing; an accepted one takes the amount from the asset's balance and touches no
-- other balance and not the nonce.
pub debit_lem :
    (asset amount other : ℕ) (a : Account)
    → IsCanonical a
    → let (a', r) = debit asset amount a in
      ((balance asset a < amount)
        × (r ≡ err (BalanceError.insufficient (balance asset a) amount))
        × (a' ≡ a))
      ⊎ ((amount ≤ balance asset a)
          × (r ≡ ok tt)
          × (a'.nonce ≡ a.nonce)
          × (balance other a'
              ≡ (if other == asset then balance asset a - amount else balance other a)))
unfolding debit balance
debit_lem asset amount other a c = elim (Bool-cases (ltb (balance asset a) amount)) [
  | inl short ↦ inl (ground arith)
  | inr enough ↦ inr (
      ground (
        arith,
        get-insert_self asset (balance asset a - amount) a.balances,
        get-insert_ne asset other (balance asset a - amount) a.balances,
        get-remove_self asset a.balances c.sorted,
        get-remove_ne asset other a.balances,
      ))
]

-- On a canonical account, a debit after an accepted credit of the same amount is accepted and
-- leaves the account as it was: an asset that was not held before is not recorded afterwards.
pub debit-credit :
    (asset amount : ℕ) (a : Account)
    → IsCanonical a
    → (credit asset amount a).1 ≡ ok tt
    → debit asset amount (credit asset amount a).0 ≡ (a, ok tt)
unfolding debit credit balance
debit-credit asset amount a c e = elim (Bool-cases (amount == 0)) [
  | inl nothing ↦ ground arith
  | inr positive ↦
      let b = balance asset a in
      let total = b + amount in
      let a' : Account = record a { balances = insert asset total a.balances } in
      let stored : balance asset a' ≡ total =
        rw (get-insert_self asset total a.balances, balance) in
      let back : store_balance asset b a' ≡ a = ground (
        arith,
        held asset a c,
        remove-insert_new asset total a.balances,
        insert-insert asset total b a.balances,
        insert_same asset b a.balances c.sorted,
      ) in
      ground arith
]
