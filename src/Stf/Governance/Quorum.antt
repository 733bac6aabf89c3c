-- ===== src/Stf/Governance/Quorum.antt =====
-- crates/sena-stf/src/governance.rs: what an accepted set of signatures shows.
use sena.Primitives.Hash256.{Hash256, Bytes}
use sena.Stf.Governance.{Council, required}
use sena.Stf.Governance.Signatures.{
  Ed25519, check_signature, check_signatures, is_unordered, verify_council_signatures,
}
use sena.Stf.Instruction.{CouncilSignature}
use sena.Base.{
  Option, get_elem?, ℕ, ◌≡◌, List, some, ◌∷◌, ok, true, Option-cases, All, false, inl, arith, [],
  inr, ◌<◌, ◌≤◌, IsDistinct, none, refl, length, Elem, map, Bool, ◌+◌, get_elem?-lt, All-map,
  u32_mod,
}

module _ (ed : Ed25519) (c : Council) (digest : Hash256) where
  -- A member's key under which the signature verifies.
  pub record IsSigned (s : CouncilSignature) : Type 0 where
    pub key : Bytes
    pub member : get_elem? c.members s.index ≡ some key
    pub valid : ed.is_key key ≡ true
    pub strong : ed.is_weak key ≡ false
    pub verified : ed.verify_strict key digest s.signature ≡ true

  -- Indices that rise from the previous one on.
  abbrev pub Rising : Option ℕ → List CouncilSignature → Type 0
  Rising previous [] = Unit
  Rising previous (s ∷ left) = (is_unordered previous s.index ≡ false) × Rising (some s.index) left

  check_signature-ok : (s : CouncilSignature) → check_signature ed c digest s ≡ ok tt → IsSigned s
  unfolding check_signature
  check_signature-ok s e = elim (Option-cases (get_elem? c.members s.index)) [
    | inl q ↦ absurd (ground arith)
    | inr (key, q) ↦ record {
      key = key;
      member = q;
      valid = ground arith;
      strong = ground arith;
      verified = ground arith;
    }
  ]

  check_signatures-ok :
      (left : List CouncilSignature) (previous : Option ℕ)
      → check_signatures ed c digest previous left ≡ ok tt
      → Rising previous left × All IsSigned left
  unfolding check_signatures
  check_signatures-ok [] previous e = (tt, tt)
  check_signatures-ok (s ∷ left) previous e =
      let ordered : is_unordered previous s.index ≡ false = ground arith in
      let one : check_signature ed c digest s ≡ ok tt = ground arith in
      let (r, a) = check_signatures-ok left (some s.index) (ground arith) in
      ((ordered, r), (check_signature-ok s one, a))

  check_signature-IsSigned :
      (s : CouncilSignature) → IsSigned s → check_signature ed c digest s ≡ ok tt
  unfolding check_signature
  check_signature-IsSigned s w = ground (arith, w.member, w.valid, w.strong, w.verified)

  check_signatures-Rising :
      (left : List CouncilSignature) (previous : Option ℕ)
      → Rising previous left
      → All IsSigned left
      → check_signatures ed c digest previous left ≡ ok tt
  unfolding check_signatures
  check_signatures-Rising [] previous r a = refl
  check_signatures-Rising (s ∷ left) previous r a =
      ground
        (arith, check_signature-IsSigned s a.0, check_signatures-Rising left (some s.index) r.1 a.1)

  -- Rising indices below a bound are no more than fit below it.
  length-Rising :
      (left : List CouncilSignature) (p n : ℕ)
      → p < n
      → Rising (some p) left
      → All (λ s. s.index < n) left
      → length left + p < n
  length-Rising [] p n h r a = omega arith
  length-Rising (s ∷ left) p n h r a =
      let above : p < s.index = ground (arith, r.0) in
      let tail = length-Rising left s.index n a.0 r.1 a.1 in omega arith

  -- No later signer is one that came before.
  Rising-not_Elem :
      (left : List CouncilSignature) (p i : ℕ)
      → i ≤ p
      → Rising (some p) left
      → ¬ Elem i (map (λ s. s.index) left)
  Rising-not_Elem [] p i h r e = elim e [ ]
  Rising-not_Elem (s ∷ left) p i h r (inl e) =
      let above : p < s.index = ground (arith, r.0) in omega arith
  Rising-not_Elem (s ∷ left) p i h r (inr e) =
      let above : p < s.index = ground (arith, r.0) in
      Rising-not_Elem left s.index i (omega arith) r.1 e

  Rising-IsDistinct :
      (left : List CouncilSignature) (previous : Option ℕ)
      → Rising previous left
      → IsDistinct (map (λ s. s.index) left)
  Rising-IsDistinct [] previous r = tt
  Rising-IsDistinct (s ∷ left) previous r = (
    Rising-not_Elem left s.index s.index (omega arith) r.1,
    Rising-IsDistinct left (some s.index) r.1,
  )

  index-lt : (s : CouncilSignature) → IsSigned s → s.index < length c.members
  index-lt s w = get_elem?-lt c.members s.index w.key w.member

  length-signers :
      (signatures : List CouncilSignature)
      → Rising none signatures
      → All IsSigned signatures
      → length signatures ≤ length c.members
  length-signers [] r a = omega arith
  length-signers (s ∷ left) r a =
      let bounds = All-map left index-lt a.1 in
      let rest = length-Rising left s.index (length c.members) (index-lt s a.0) r.1 bounds in
      omega arith

  -- An accepted set of signatures is signed by as many distinct members of the council as the
  -- council requires, and by one at least: the indices are distinct, there are no more than
  -- members, and under each stands a key that is valid and not weak and verifies the signature.
  pub verify_council_signatures-ok :
      (signatures : List CouncilSignature) (guardian : Bool)
      → verify_council_signatures ed c digest signatures guardian ≡ ok tt
      → (0 < required c guardian)
        × (required c guardian ≤ length signatures)
        × (length signatures ≤ length c.members)
        × IsDistinct (map (λ s. s.index) signatures)
        × All IsSigned signatures
  unfolding verify_council_signatures
  verify_council_signatures-ok signatures guardian e =
      let positive : 0 < required c guardian = ground arith in
      let checked : check_signatures ed c digest none signatures ≡ ok tt = ground arith in
      let (r, a) = check_signatures-ok signatures none checked in
      (
        positive,
        ground arith,
        length-signers signatures r a,
        Rising-IsDistinct signatures none r,
        a,
      )

  -- Signatures with rising indices that verify under their members' keys are accepted if there are
  -- fewer than 2 ^ 32 of them, and as many as a positive threshold requires.
  pub verify_council_signatures-accepts :
      (signatures : List CouncilSignature) (guardian : Bool)
      → 0 < required c guardian
      → required c guardian ≤ length signatures
      → length signatures < u32_mod
      → Rising none signatures
      → All IsSigned signatures
      → verify_council_signatures ed c digest signatures guardian ≡ ok tt
  unfolding verify_council_signatures
  verify_council_signatures-accepts signatures guardian p q s r a =
      ground (arith, check_signatures-Rising signatures none r a)
