-- ===== src/Stf/Governance/Signatures.antt =====
-- crates/sena-stf/src/governance.rs: `verify_council_signatures`. The curve is not under the
-- repository's source, and is a parameter.
use sena.Stf.Governance.{Council, required, GovernanceError}
use sena.Primitives.Hash256.{Bytes, Hash256}
use sena.Base.{
  ◌>>=◌, ◌>>◌, Option, Bool, ℕ, false, Result, List, some, leb, ok_or, ok, guard, get_elem?, ◌∷◌,
  not, none, ◌==◌, [], min, length, u32_mod, ◌-◌,
}
use sena.Stf.Instruction.{CouncilSignature}

-- The crate ed25519_dalek: a `VerifyingKey` stands for the bytes it was parsed from.
pub record Ed25519 : Type 0 where
  pub is_key : Bytes → Bool
  pub is_weak : Bytes → Bool
  pub verify_strict : Bytes → Bytes → Bytes → Bool

-- Signer indices must rise.
abbrev pub is_unordered : Option ℕ → ℕ → Bool
is_unordered none index = false
is_unordered (some prev) index = leb index prev

module _ (ed : Ed25519) where
  -- The checks on one signature, once its index is in order.
  unfoldable pub check_signature :
      Council → Hash256 → CouncilSignature → Result GovernanceError (Unit {0})
  check_signature c digest s = do
    key ← ok_or (get_elem? c.members s.index) GovernanceError.unknown_signer
    guard (ed.is_key key) GovernanceError.malformed_council
    guard (not (ed.is_weak key)) GovernanceError.malformed_council
    guard (ed.verify_strict key digest s.signature) (GovernanceError.bad_signature s.index)

  -- The loop of `verify_council_signatures`.
  unfoldable pub check_signatures :
      Council → Hash256 → Option ℕ → List CouncilSignature → Result GovernanceError (Unit {0})
  unfolding check_signature
  check_signatures c digest previous [] = ok tt
  check_signatures c digest previous (s ∷ left) = do
    guard (not (is_unordered previous s.index)) GovernanceError.unordered_signers
    check_signature c digest s
    check_signatures c digest (some s.index) left

  -- `verify_council_signatures`
  unfoldable pub verify_council_signatures :
      Council → Hash256 → List CouncilSignature → Bool → Result GovernanceError (Unit {0})
  unfolding required check_signatures
  verify_council_signatures c digest signatures guardian = do
    guard (not (required c guardian == 0)) (GovernanceError.threshold_not_met 0 0)
    check_signatures c digest none signatures
    let supplied = min (length signatures) (u32_mod - 1)
    guard (leb (required c guardian) supplied)
        (GovernanceError.threshold_not_met supplied (required c guardian))
