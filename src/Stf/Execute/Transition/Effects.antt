-- ===== src/Stf/Execute/Transition/Effects.antt =====
-- crates/sena-stf/src/execute.rs: the errors with which an instruction itself fails.
use sena.Stf.Governance.{decode_council}
use sena.Stf.Execute.Transition.{transition}
use sena.Stf.Governance.Signatures.{Ed25519}
use sena.Stf.Gas.Split.{FeeSplit}
use sena.Stf.Gas.{market_at}
use sena.Stf.Social.{MalformedBinding, SocialBinding, decode_binding}
use sena.Primitives.Hash256.{Bytes, bytes_eq, Hash256}
use sena.Stf.Account
use sena.Stf.Account.{Account, BalanceError}
use sena.Stf.Execute.{StepError}
use sena.Stf.Execute
use sena.Stf.Execute.Fees
use sena.Stf.Execute.Council
use sena.Stf.Instruction.{Instruction, WhitelistedAsset, CouncilSignature}
use sena.Base.{
  ◌>>=◌, Bool, Result, Option, true, ◌≡◌, ◌∷◌, ok, some, false, arith, err, none, suc, map_err,
  ok_or, guard, [], refl, zero, if◌then◌else◌, ℕ, Result-cases, inl, inr, List,
}

-- The errors that speak of the witness, and not of the instruction.
unfoldable pub is_witness_error : StepError → Bool
is_witness_error (StepError.witness_slot_mismatch provided expected) = true
is_witness_error (StepError.bad_witness_proof e) = true
is_witness_error _ = false

-- A result whose error, if any, does not speak of the witness.
record IsOwn {A : Type 0} (r : Result StepError A) : Type 0 where
  own : (e : StepError) → r ≡ err e → is_witness_error e ≡ false

module _ {A : Type 0} where
  IsOwn-ok : (a : A) → IsOwn (ok a)
  IsOwn-ok a = record { own = λ e q. absurd (cc) }

  IsOwn-err : (e : StepError) → is_witness_error e ≡ false → IsOwn {A = A} (err e)
  IsOwn-err e h = record { own = λ x q. cc }

  IsOwn-bind :
      {B : Type 0} (m : Result StepError A) (f : A → Result StepError B)
      → IsOwn m
      → ((a : A) → IsOwn (f a))
      → IsOwn (m >>= f)
  IsOwn-bind (ok a) f h k = k a
  IsOwn-bind (err e) f h k = record { own = λ x q. h.own x (cc) }

  IsOwn-map :
      {E : Type 0} (g : E → StepError) (r : Result E A)
      → ((x : E) → is_witness_error (g x) ≡ false)
      → IsOwn (map_err g r)
  IsOwn-map g (ok a) h = IsOwn-ok a
  IsOwn-map g (err x) h = IsOwn-err (g x) (h x)

  IsOwn-or : (o : Option A) (e : StepError) → is_witness_error e ≡ false → IsOwn (ok_or o e)
  IsOwn-or none e h = IsOwn-err e h
  IsOwn-or (some a) e h = IsOwn-ok a

IsOwn-guard : (b : Bool) (e : StepError) → is_witness_error e ≡ false → IsOwn (guard b e)
IsOwn-guard true e h = IsOwn-ok tt
IsOwn-guard false e h = IsOwn-err e h

IsOwn-if :
    {A : Type 0} (b : Bool) (r s : Result StepError A)
    → IsOwn r
    → IsOwn s
    → IsOwn (if b then r else s)
IsOwn-if true r s x y = x
IsOwn-if false r s x y = y

IsOwn-account : (current : Option Bytes) → IsOwn (Execute.decode_account current)
unfolding Execute.decode_account is_witness_error
IsOwn-account none = IsOwn-ok _
IsOwn-account (some stored) = IsOwn-map _ _ (λ x. refl)

IsOwn-market : (current : Option Bytes) → IsOwn (Execute.decode_fee_market current)
unfolding Execute.decode_fee_market is_witness_error
IsOwn-market none = IsOwn-ok _
IsOwn-market (some stored) = IsOwn-map _ _ (λ x. refl)

IsOwn-stored : (r : Account × Result BalanceError (Unit {0})) → IsOwn (Execute.store_updated r)
unfolding Execute.store_updated is_witness_error
IsOwn-stored (a, ok done) = IsOwn-ok _
IsOwn-stored (a, err e) = IsOwn-err _ refl

IsOwn-free :
    (address : Bytes) (r : Result MalformedBinding SocialBinding)
    → IsOwn (Execute.check_free address r)
unfolding Execute.check_free is_witness_error
IsOwn-free address (err e) = IsOwn-err _ refl
IsOwn-free address (ok SocialBinding.vacant) = IsOwn-ok _
IsOwn-free address (ok (SocialBinding.bound holder)) = IsOwn-guard _ _ refl

IsOwn-release : (owner : Bytes) (b : SocialBinding) → IsOwn (Execute.release owner b)
unfolding Execute.release is_witness_error
IsOwn-release owner SocialBinding.vacant = IsOwn-err _ refl
IsOwn-release owner (SocialBinding.bound holder) =
    IsOwn-if (bytes_eq holder owner) _ _ (IsOwn-ok _) (IsOwn-err _ refl)

IsOwn-jwk : (stored : Bytes) → IsOwn (Execute.decode_jwk_record stored)
unfolding Execute.decode_jwk_record is_witness_error
IsOwn-jwk [] = IsOwn-err _ refl
IsOwn-jwk (zero ∷ []) = IsOwn-ok _
IsOwn-jwk (suc zero ∷ []) = IsOwn-ok _
IsOwn-jwk (suc (suc n) ∷ []) = IsOwn-err _ refl
IsOwn-jwk (zero ∷ b ∷ bs) = IsOwn-err _ refl
IsOwn-jwk (suc zero ∷ b ∷ bs) = IsOwn-err _ refl
IsOwn-jwk (suc (suc n) ∷ b ∷ bs) = IsOwn-err _ refl

IsOwn-bind_identifier :
    (address : Bytes) (current : Option Bytes) → IsOwn (Execute.bind_identifier address current)
unfolding Execute.bind_identifier
IsOwn-bind_identifier address none = IsOwn-ok _
IsOwn-bind_identifier address (some stored) =
    IsOwn-bind _ _ (IsOwn-free address (decode_binding stored)) (λ a. IsOwn-ok _)

-- A transition whose error, if any, does not speak of the witness.
abbrev IsOwnAt : Result StepError Bytes → StepError → Type 0
IsOwnAt r e = r ≡ err e → is_witness_error e ≡ false

consume_nonce-own :
    (expected : ℕ) (current : Option Bytes) (e : StepError)
    → IsOwnAt (Execute.consume_nonce expected current) e
unfolding Execute.consume_nonce is_witness_error
consume_nonce-own expected current e q = elim (Result-cases (Execute.decode_account current)) [
  | inl (a, h) ↦ ground (arith, h)
  | inr (x, h) ↦ let o = IsOwn-account current in ground (arith, h, o.own x h)
]

unbind-own :
    (owner : Bytes) (current : Option Bytes) (e : StepError)
    → IsOwnAt (Execute.unbind_identifier owner current) e
unfolding Execute.unbind_identifier is_witness_error
unbind-own owner none e q = ground arith
unbind-own owner (some stored) e q = elim (Result-cases (decode_binding stored)) [
  | inl (b, h) ↦ let o = IsOwn-release owner b in o.own e (ground (arith, h))
  | inr (x, h) ↦ ground (arith, h)
]

verify_gas_asset-own :
    (rate intrinsic_gas : ℕ) (current : Option Bytes) (e : StepError)
    → IsOwnAt (Fees.verify_gas_asset rate intrinsic_gas current) e
unfolding Fees.verify_gas_asset Fees.check_asset is_witness_error
verify_gas_asset-own rate intrinsic_gas none e q = ground arith
verify_gas_asset-own rate intrinsic_gas (some stored) e q = ground arith

charge_base_fee-own :
    (timestamp base_fee gas : ℕ) (current : Option Bytes) (e : StepError)
    → IsOwnAt (Fees.charge_base_fee timestamp base_fee gas current) e
unfolding Fees.charge_base_fee is_witness_error
charge_base_fee-own timestamp base_fee gas current e q =
    elim (Result-cases (Execute.decode_fee_market current)) [
      | inl (a, h) ↦ elim (Result-cases (market_at timestamp a)) [
        | inl (m, g) ↦ ground (arith, h, g)
        | inr (x, g) ↦ ground (arith, h, g)
      ]
      | inr (x, h) ↦ let o = IsOwn-market current in ground (arith, h, o.own x h)
    ]

verify_fee_split-own :
    (split : FeeSplit) (current : Option Bytes) (e : StepError)
    → IsOwnAt (Fees.verify_fee_split split current) e
unfolding Fees.verify_fee_split is_witness_error
verify_fee_split-own split current e q = ground arith

verify_jwk-own : (current : Option Bytes) (e : StepError) → IsOwnAt (Execute.verify_jwk current) e
unfolding Execute.verify_jwk is_witness_error
verify_jwk-own none e q = ground arith
verify_jwk-own (some stored) e q = elim (Result-cases (Execute.decode_jwk_record stored)) [
  | inl (b, h) ↦ ground (arith, h)
  | inr (x, h) ↦ let o = IsOwn-jwk stored in ground (arith, h, o.own x h)
]

disable-own :
    (current : Option Bytes) (e : StepError) → IsOwnAt (Council.disable_gas_asset current) e
unfolding Council.disable_gas_asset is_witness_error
disable-own current e q = ground arith

set_fee_market-own :
    (floor target : ℕ) (current : Option Bytes) (e : StepError)
    → IsOwnAt (Council.set_fee_market floor target current) e
unfolding Council.set_fee_market is_witness_error
set_fee_market-own floor target current e q =
    elim (Result-cases (Execute.decode_fee_market current)) [
      | inl (a, h) ↦ ground (arith, h)
      | inr (x, h) ↦ let o = IsOwn-market current in ground (arith, h, o.own x h)
    ]

set_parameter-own :
    (name : Bytes) (value : ℕ) (e : StepError) → IsOwnAt (Council.set_parameter name value) e
unfolding Council.set_parameter is_witness_error
set_parameter-own name value e q = ground arith

set_gas_asset-own : (a : WhitelistedAsset) (e : StepError) → IsOwnAt (Council.set_gas_asset a) e
unfolding Council.set_gas_asset is_witness_error
set_gas_asset-own a e q = ground arith

set_fee_split-own : (s : FeeSplit) (e : StepError) → IsOwnAt (Council.set_fee_split s) e
unfolding Council.set_fee_split is_witness_error
set_fee_split-own s e q = ground arith

module _ (ed : Ed25519) where
  verify_council-own :
      (epoch : ℕ) (digest : Hash256) (signatures : List CouncilSignature) (guardian : Bool)
      (current : Option Bytes) (e : StepError)
      → IsOwnAt (Council.verify_council ed epoch digest signatures guardian current) e
  unfolding Council.verify_council is_witness_error
  verify_council-own epoch digest signatures guardian none e q = ground arith
  verify_council-own epoch digest signatures guardian (some stored) e q =
      elim (Result-cases (decode_council stored)) [
        | inl (c, h) ↦ ground (arith, h)
        | inr (x, h) ↦ ground (arith, h)
      ]

  -- An instruction that fails does so with an error of its own, never with one of the errors that
  -- speak of the witness.
  pub transition-err :
      (i : Instruction) (current : Option Bytes) (e : StepError)
      → transition ed i current ≡ err e
      → is_witness_error e ≡ false
  unfolding transition Execute.debit_slot Execute.credit_slot
  transition-err (Instruction.consume_nonce address expected) current e q =
      consume_nonce-own expected current e q
  transition-err (Instruction.debit address asset amount) current e q =
      let o =
        IsOwn-bind _ _ (IsOwn-account current) (λ a. IsOwn-stored (Account.debit asset amount a)) in
      o.own e q
  transition-err (Instruction.credit address asset amount) current e q =
      let o =
        IsOwn-bind _ _ (IsOwn-account current)
          (λ a. IsOwn-stored (Account.credit asset amount a)) in
      o.own e q
  transition-err (Instruction.bind_identifier identifier address) current e q =
      let o = IsOwn-bind_identifier address current in o.own e q
  transition-err (Instruction.unbind_identifier identifier address) current e q =
      unbind-own address current e q
  transition-err (Instruction.verify_gas_asset asset rate intrinsic_gas) current e q =
      verify_gas_asset-own rate intrinsic_gas current e q
  transition-err (Instruction.charge_base_fee timestamp base_fee gas) current e q =
      charge_base_fee-own timestamp base_fee gas current e q
  transition-err (Instruction.verify_fee_split split) current e q =
      verify_fee_split-own split current e q
  transition-err (Instruction.verify_council epoch digest signatures guardian) current e q =
      verify_council-own epoch digest signatures guardian current e q
  transition-err (Instruction.set_gas_asset asset_record) current e q =
      set_gas_asset-own asset_record e q
  transition-err (Instruction.set_parameter name value) current e q =
      set_parameter-own name value e q
  transition-err (Instruction.set_fee_market floor target) current e q =
      set_fee_market-own floor target current e q
  transition-err (Instruction.set_fee_split split) current e q = set_fee_split-own split e q
  transition-err (Instruction.disable_gas_asset asset) current e q = disable-own current e q
  transition-err (Instruction.verify_jwk iss_hash jwk_hash) current e q = verify_jwk-own current e q
  transition-err (Instruction.set_jwk iss_hash jwk_hash active) current e q = absurd (cc)
