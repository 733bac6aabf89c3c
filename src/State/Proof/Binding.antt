-- ===== src/State/Proof/Binding.antt =====
-- crates/sena-state/src/proof.rs: two proofs under one root, and what it takes of the hash function
-- for them to disagree.
use mathlib.Core.Path.{ap₂}
use sena.State.Proof.Path.{path, climb-path}
use sena.State.Proof.{
  Terminal, terminal_hash, branch, MerkleProof, reconstruct_root, verify_inclusion_hashed,
  verify_non_inclusion, check_value, check_absent,
}
use sena.Base.{
  List, ◌≡◌, ◌∷◌, ◌≢◌, ◌⊎◌, ℕ, Bool-cases, [], inr, inl, sym, suc, arith, refl, ok, Result-cases,
  ◌∙◌,
}
use sena.Primitives.Hash256.{Bytes, Hash256, zero_hash, bytes_eq_iff}
use sena.State.Node.{Node, node_hash, node_eq, node_eq_iff}

abbrev In : Node → List Node → Type 0
In n [] = ⊥
In n (m ∷ ms) = (n ≡ m) ⊎ In n ms

-- Two different nodes of the lists with one hash, or a node that hashes to the empty sentinel.
pub data Clash (digest : Bytes → Hash256) (ns ms : List Node) : Type 0 where
  collision :
      (n m : Node)
      → In n ns
      → In m ms
      → n ≢ m
      → node_hash digest n ≡ node_hash digest m
      → Clash digest ns ms
  zero_left : (n : Node) → In n ns → node_hash digest n ≡ zero_hash → Clash digest ns ms
  zero_right : (m : Node) → In m ms → node_hash digest m ≡ zero_hash → Clash digest ns ms

node_cases : (n m : Node) → (n ≡ m) ⊎ (n ≢ m)
node_cases n m = elim (Bool-cases (node_eq n m)) [
  | inl e ↦ inl ((node_eq_iff n m).0 e)
  | inr e ↦ inr (λ p. cc ((node_eq_iff n m).1 p))
]

module _ (digest : Bytes → Hash256) where
  -- The nodes that a terminal hashes.
  abbrev pub terminal_nodes : Terminal → List Node
  terminal_nodes Terminal.empty = []
  terminal_nodes (Terminal.leaf k v) = Node.leaf k v ∷ []

  -- The nodes that a path hashes, root first, its terminal's last.
  abbrev pub path_nodes : Hash256 → ℕ → List Hash256 → Terminal → List Node
  path_nodes key level [] t = terminal_nodes t
  path_nodes key level (s ∷ ss) t =
      branch key level s (path digest key (suc level) ss (terminal_hash digest t))
      ∷ path_nodes key (suc level) ss t

  Clash-deeper :
      (n m : Node) {ns ms : List Node} → Clash digest ns ms → Clash digest (n ∷ ns) (m ∷ ms)
  Clash-deeper n m (Clash.collision a b i j d e) = Clash.collision a b (inr i) (inr j) d e
  Clash-deeper n m (Clash.zero_left a i e) = Clash.zero_left a (inr i) e
  Clash-deeper n m (Clash.zero_right b j e) = Clash.zero_right b (inr j) e

  -- Two terminals with one hash are one, or clash.
  terminal_binding :
      (t t' : Terminal)
      → terminal_hash digest t ≡ terminal_hash digest t'
      → (t ≡ t') ⊎ Clash digest (terminal_nodes t) (terminal_nodes t')
  unfolding terminal_hash
  terminal_binding Terminal.empty Terminal.empty e = inl refl
  terminal_binding Terminal.empty (Terminal.leaf k v) e =
      inr (Clash.zero_right (Node.leaf k v) (inl refl) (sym e))
  terminal_binding (Terminal.leaf k v) Terminal.empty e =
      inr (Clash.zero_left (Node.leaf k v) (inl refl) e)
  terminal_binding (Terminal.leaf k v) (Terminal.leaf k' v') e =
      elim (node_cases (Node.leaf k v) (Node.leaf k' v')) [
        | inl same ↦ inl (cc)
        | inr differ ↦
            inr (Clash.collision (Node.leaf k v) (Node.leaf k' v') (inl refl) (inl refl) differ e)
      ]

  -- A terminal's hash is no branch's, or they clash.
  terminal_no_branch :
      (key : Hash256) (level : ℕ) (s r : Hash256) (t : Terminal) (ns : List Node)
      → terminal_hash digest t ≡ node_hash digest (branch key level s r)
      → Clash digest (terminal_nodes t) (branch key level s r ∷ ns)
  unfolding terminal_hash branch
  terminal_no_branch key level s r Terminal.empty ns e =
      Clash.zero_right (branch key level s r) (inl refl) (sym e)
  terminal_no_branch key level s r (Terminal.leaf k v) ns e =
      Clash.collision (Node.leaf k v) (branch key level s r) (inl refl) (inl refl)
        (λ p. ground arith) e

  Clash-sym : {ns ms : List Node} → Clash digest ns ms → Clash digest ms ns
  Clash-sym (Clash.collision a b i j d e) = Clash.collision b a j i (λ p. d (sym p)) (sym e)
  Clash-sym (Clash.zero_left a i e) = Clash.zero_right a i e
  Clash-sym (Clash.zero_right b j e) = Clash.zero_left b j e

  branch-inj :
      (key : Hash256) (level : ℕ) (s s' r r' : Hash256)
      → branch key level s r ≡ branch key level s' r'
      → (s ≡ s') × (r ≡ r')
  unfolding branch
  branch-inj key level s s' r r' e = ground arith

  -- Two paths of one key to one root are the same and end alike, or clash.
  path_binding :
      (key : Hash256) (level : ℕ) (ss ss' : List Hash256) (t t' : Terminal)
      → path digest key level ss (terminal_hash digest t)
        ≡ path digest key level ss' (terminal_hash digest t')
      → ((ss ≡ ss') × (t ≡ t'))
        ⊎ Clash digest (path_nodes key level ss t) (path_nodes key level ss' t')
  unfolding path
  path_binding key level [] [] t t' e = elim (terminal_binding t t' e) [
    | inl same ↦ inl (refl, same)
    | inr c ↦ inr c
  ]
  path_binding key level [] (s ∷ ss) t t' e = inr (terminal_no_branch key level s _ t _ e)
  path_binding key level (s ∷ ss) [] t t' e =
      inr (Clash-sym (terminal_no_branch key level s _ t' _ (sym e)))
  path_binding key level (s ∷ ss) (s' ∷ ss') t t' e =
      let r = path digest key (suc level) ss (terminal_hash digest t) in
      let r' = path digest key (suc level) ss' (terminal_hash digest t') in
      elim (node_cases (branch key level s r) (branch key level s' r')) [
        | inl same ↦
            elim (path_binding key (suc level) ss ss' t t'
              (branch-inj key level s s' r r' same).1) [
                | inl ends ↦
                    inl
                      (ap₂ (λ x xs. x ∷ xs) (branch-inj key level s s' r r' same).0 ends.0, ends.1)
                | inr c ↦ inr (Clash-deeper _ _ c)
              ]
        | inr differ ↦ inr (Clash.collision _ _ (inl refl) (inl refl) differ e)
      ]

  -- The nodes that the verifier hashes for a proof.
  abbrev pub hashed : MerkleProof → Hash256 → List Node
  hashed p key = path_nodes key 0 p.siblings p.terminal

  reconstruct_root-ok :
      (p : MerkleProof) (key computed : Hash256)
      → reconstruct_root digest p key ≡ ok computed
      → path digest key 0 p.siblings (terminal_hash digest p.terminal) ≡ computed
  unfolding reconstruct_root
  reconstruct_root-ok p key computed e =
      ground (arith, climb-path digest key p.siblings (terminal_hash digest p.terminal))

  check_value-ok :
      (t : Terminal) (key v : Hash256)
      → check_value digest t key v ≡ ok tt
      → t ≡ Terminal.leaf key v
  unfolding check_value
  check_value-ok Terminal.empty key v e = absurd (cc)
  check_value-ok (Terminal.leaf k w) key v e = ground (arith, bytes_eq_iff k key, bytes_eq_iff w v)

  pub check_absent-ok :
      (t : Terminal) (key v : Hash256) → check_absent digest t key ≡ ok tt → t ≢ Terminal.leaf key v
  unfolding check_absent
  check_absent-ok Terminal.empty key v e p = absurd (cc)
  check_absent-ok (Terminal.leaf k w) key v e p = ground (arith, bytes_eq_iff k key)

  pub verify_inclusion_hashed-ok :
      (p : MerkleProof) (root key value_hash : Hash256)
      → verify_inclusion_hashed digest p root key value_hash ≡ ok tt
      → (path digest key 0 p.siblings (terminal_hash digest p.terminal) ≡ root)
        × (p.terminal ≡ Terminal.leaf key value_hash)
  unfolding verify_inclusion_hashed
  verify_inclusion_hashed-ok p root key value_hash e =
      elim (Result-cases (reconstruct_root digest p key)) [
        | inl (computed, q) ↦ ground (
          arith,
          bytes_eq_iff computed root,
          reconstruct_root-ok p key computed q,
          check_value-ok p.terminal key value_hash,
        )
        | inr (x, q) ↦ absurd (ground arith)
      ]

  pub verify_non_inclusion-ok :
      (p : MerkleProof) (root key : Hash256)
      → verify_non_inclusion digest p root key ≡ ok tt
      → (path digest key 0 p.siblings (terminal_hash digest p.terminal) ≡ root)
        × (check_absent digest p.terminal key ≡ ok tt)
  unfolding verify_non_inclusion
  verify_non_inclusion-ok p root key e = elim (Result-cases (reconstruct_root digest p key)) [
    | inl (computed, q) ↦
        ground (arith, bytes_eq_iff computed root, reconstruct_root-ok p key computed q)
    | inr (x, q) ↦ absurd (ground arith)
  ]

  -- Two accepted inclusion proofs of one key under one root prove the same value, or exhibit two
  -- different nodes with one hash, or a node that hashes to the empty sentinel, among the nodes
  -- hashed to check them.
  pub inclusion_binding :
      (p q : MerkleProof) (root key v w : Hash256)
      → verify_inclusion_hashed digest p root key v ≡ ok tt
      → verify_inclusion_hashed digest q root key w ≡ ok tt
      → (v ≡ w) ⊎ Clash digest (hashed p key) (hashed q key)
  inclusion_binding p q root key v w e f =
      let (r, t) = verify_inclusion_hashed-ok p root key v e in
      let (r', t') = verify_inclusion_hashed-ok q root key w f in
      elim (path_binding key 0 p.siblings q.siblings p.terminal q.terminal (r ∙ sym r')) [
        | inl same ↦ inl (cc)
        | inr c ↦ inr c
      ]

  -- If an inclusion proof and an absence proof of one key are accepted under one root, then the
  -- nodes hashed to check them hold two different nodes with one hash, or one that hashes to
  -- the empty sentinel.
  pub absence_binding :
      (p q : MerkleProof) (root key v : Hash256)
      → verify_inclusion_hashed digest p root key v ≡ ok tt
      → verify_non_inclusion digest q root key ≡ ok tt
      → Clash digest (hashed p key) (hashed q key)
  absence_binding p q root key v e f =
      let (r, t) = verify_inclusion_hashed-ok p root key v e in
      let (r', t') = verify_non_inclusion-ok q root key f in
      elim (path_binding key 0 p.siblings q.siblings p.terminal q.terminal (r ∙ sym r')) [
        | inl same ↦ absurd (check_absent-ok q.terminal key v t' (sym same.1 ∙ t))
        | inr c ↦ c
      ]

  -- Two proofs of one key under one root are the same, or clash.
  pub proof_binding :
      (p q : MerkleProof) (root key : Hash256)
      → path digest key 0 p.siblings (terminal_hash digest p.terminal) ≡ root
      → path digest key 0 q.siblings (terminal_hash digest q.terminal) ≡ root
      → (p ≡ q) ⊎ Clash digest (hashed p key) (hashed q key)
  proof_binding p q root key e f =
      elim (path_binding key 0 p.siblings q.siblings p.terminal q.terminal (e ∙ sym f)) [
        | inl (ss, t) ↦ inl (ap₂ (λ x y. record { siblings = x; terminal = y }) ss t)
        | inr c ↦ inr c
      ]
