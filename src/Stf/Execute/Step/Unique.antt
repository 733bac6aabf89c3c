-- ===== src/Stf/Execute/Step/Unique.antt =====
-- crates/sena-stf/src/execute.rs: what two accepted witnesses of one slot have in common.
use sena.State.Proof.{
  MerkleProof, verify_inclusion, terminal_hash, Terminal, verify_non_inclusion,
  verify_inclusion_hashed,
}
use sena.State.Proof.Path.{path}
use sena.State.Proof.Binding.{
  Clash, hashed, proof_binding, verify_non_inclusion-ok, verify_inclusion_hashed-ok,
  check_absent-ok,
}
use sena.Stf.Execute.Step.{StepWitness, check_witness}
use sena.Stf.Governance.Signatures.{Ed25519}
use sena.Primitives.Hash256.{Bytes, Hash256, bytes_eq, bytes_eq_iff}
use sena.State.Node.{hash_value}
use sena.Base.{
  ◌≡◌, ok, none, Option, ◌⊎◌, ◌≢◌, some, subst, inl, Result-cases, inr, arith, sym, ◌∙◌, Bool-cases,
  ap, refl,
}

-- The witness is for the key, and its proof is accepted under the root.
pub record IsAccepted (digest : Bytes → Hash256) (ed : Ed25519) (root key : Hash256)
    (w : StepWitness) : Type 0 where
  pub own_slot : w.slot ≡ key
  pub checked : check_witness digest ed root w ≡ ok tt

-- Among the nodes that are hashed to check the two witnesses there are two different ones with
-- one hash or one with the hash of the empty subtree, or the two witnesses' own values differ
-- and have one hash.
pub data Broken (digest : Bytes → Hash256) (key : Hash256) (w u : StepWitness) : Type 0 where
  nodes :
      Clash digest (hashed digest w.proof key) (hashed digest u.proof key) → Broken digest key w u
  values :
      (a b : Bytes)
      → w.value ≡ some a
      → u.value ≡ some b
      → a ≢ b
      → hash_value digest a ≡ hash_value digest b
      → Broken digest key w u

module _ (digest : Bytes → Hash256) (ed : Ed25519) where
  accepted-some :
      (root key v : Hash256) (p : MerkleProof)
      → check_witness digest ed root (record { slot = key; value = some v; proof = p }) ≡ ok tt
      → verify_inclusion_hashed digest p root key (hash_value digest v) ≡ ok tt
  unfolding check_witness verify_inclusion
  accepted-some root key v p e =
      elim (Result-cases (verify_inclusion_hashed digest p root key (hash_value digest v))) [
        | inl (done, q) ↦ q
        | inr (x, q) ↦ absurd (ground arith)
      ]

  accepted-none :
      (root key : Hash256) (p : MerkleProof)
      → check_witness digest ed root (record { slot = key; value = none; proof = p }) ≡ ok tt
      → verify_non_inclusion digest p root key ≡ ok tt
  unfolding check_witness
  accepted-none root key p e = elim (Result-cases (verify_non_inclusion digest p root key)) [
    | inl (done, q) ↦ q
    | inr (x, q) ↦ absurd (ground arith)
  ]

  -- The proof of an accepted witness has the root.
  accepted-root :
      (root key : Hash256) (w : StepWitness)
      → IsAccepted digest ed root key w
      → path digest key 0 w.proof.siblings (terminal_hash digest w.proof.terminal) ≡ root
  accepted-root root key w a = go w.slot w.value w.proof a.own_slot a.checked
    where
      go :
          (s : Hash256) (value : Option Bytes) (p : MerkleProof)
          → s ≡ key
          → check_witness digest ed root (record { slot = s; value = value; proof = p }) ≡ ok tt
          → path digest key 0 p.siblings (terminal_hash digest p.terminal) ≡ root
      go s none p o c =
          subst (λ k. path digest k 0 p.siblings (terminal_hash digest p.terminal) ≡ root) o
            (verify_non_inclusion-ok digest p root s (accepted-none root s p c)).0
      go s (some v) p o c =
          subst (λ k. path digest k 0 p.siblings (terminal_hash digest p.terminal) ≡ root) o
            (verify_inclusion_hashed-ok digest p root s (hash_value digest v)
              (accepted-some root s v p c)).0

  leaf_values : (key x y : Hash256) → Terminal.leaf key x ≡ Terminal.leaf key y → x ≡ y
  leaf_values key x y e = cc

  -- With one proof, two accepted witnesses hold one value, or their two values have one hash.
  same_value :
      (root key : Hash256) (p : MerkleProof) (a b : Option Bytes) (w u : StepWitness)
      → w.value ≡ a
      → u.value ≡ b
      → check_witness digest ed root (record { slot = key; value = a; proof = p }) ≡ ok tt
      → check_witness digest ed root (record { slot = key; value = b; proof = p }) ≡ ok tt
      → (a ≡ b) ⊎ Broken digest key w u
  same_value root key p none none w u ea eb c d = inl refl
  same_value root key p none (some y) w u ea eb c d =
      let absent = (verify_non_inclusion-ok digest p root key (accepted-none root key p c)).1 in
      let present =
        (verify_inclusion_hashed-ok digest p root key (hash_value digest y)
          (accepted-some root key y p d)).1 in
      absurd (check_absent-ok digest p.terminal key (hash_value digest y) absent present)
  same_value root key p (some x) none w u ea eb c d =
      let absent = (verify_non_inclusion-ok digest p root key (accepted-none root key p d)).1 in
      let present =
        (verify_inclusion_hashed-ok digest p root key (hash_value digest x)
          (accepted-some root key x p c)).1 in
      absurd (check_absent-ok digest p.terminal key (hash_value digest x) absent present)
  same_value root key p (some x) (some y) w u ea eb c d =
      let one =
        (verify_inclusion_hashed-ok digest p root key (hash_value digest x)
          (accepted-some root key x p c)).1 in
      let two =
        (verify_inclusion_hashed-ok digest p root key (hash_value digest y)
          (accepted-some root key y p d)).1 in
      elim (Bool-cases (bytes_eq x y)) [
        | inl q ↦ inl (ap some ((bytes_eq_iff x y).0 q))
        | inr q ↦ inr (
            Broken.values x y ea eb (λ e. ground (arith, bytes_eq_iff x y, e))
              (leaf_values key (hash_value digest x) (hash_value digest y) (sym one ∙ two)))
      ]

  -- Two accepted witnesses of one slot under one root are the same, or there is a collision at
  -- hand: among the nodes hashed to check the two, two different ones have one hash or one has
  -- the hash of the empty subtree, or the values of the two witnesses differ and have one hash.
  pub accepted_unique :
      (root key : Hash256) (w u : StepWitness)
      → IsAccepted digest ed root key w
      → IsAccepted digest ed root key u
      → (w ≡ u) ⊎ Broken digest key w u
  accepted_unique root key w u a b =
      elim (proof_binding digest w.proof u.proof root key (accepted-root root key w a)
        (accepted-root root key u b)) [
          | inr c ↦ inr (Broken.nodes c)
          | inl same ↦
              let cw : check_witness digest ed root
                    (record { slot = key; value = w.value; proof = w.proof })
                  ≡ ok tt =
                subst
                  (λ s.
                    check_witness digest ed root
                      (record { slot = s; value = w.value; proof = w.proof })
                    ≡ ok tt)
                  a.own_slot a.checked in
              let cu : check_witness digest ed root
                    (record { slot = key; value = u.value; proof = w.proof })
                  ≡ ok tt =
                subst
                  (λ p.
                    check_witness digest ed root (record { slot = key; value = u.value; proof = p })
                    ≡ ok tt)
                  (sym same)
                  (subst
                    (λ s.
                      check_witness digest ed root
                        (record { slot = s; value = u.value; proof = u.proof })
                      ≡ ok tt)
                    b.own_slot b.checked) in
              elim (same_value root key w.proof w.value u.value w u refl refl cw cu) [
                | inr c ↦ inr c
                | inl v ↦ inl (whole w u (a.own_slot ∙ sym b.own_slot) v same)
              ]
        ]
    where
      whole : (x y : StepWitness) → x.slot ≡ y.slot → x.value ≡ y.value → x.proof ≡ y.proof → x ≡ y
      whole x y s v p = cc
