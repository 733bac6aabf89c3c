-- ===== src/State/Trie/Rewrite.antt =====
-- crates/sena-state/src/trie.rs and proof.rs: `compute_updated_root` on the tree's own proof.
use sena.State.Trie.Grow.{Agree-step}
use sena.State.Trie.{toward, away}
use sena.State.Trie.Shape.{Fits, AllKeys, AllKeys-both, fork_right, fork_left}
use sena.State.Trie.Branch.{tree_hash-fork}
use sena.State.Trie.Prove.{check_path-Agree}
use sena.State.Proof.Path.{path, climb-path}
use sena.Primitives.Hash256.Bits.{Agree}
use sena.State.Trie.Walk.{tree_terminal, tree_siblings, tree_proof, tree-IsWalk}
use sena.State.Trie.Tree.{tree_split, Tree, tree_insert, tree_hash, fork}
use sena.State.Proof.{
  split_hash, updated_terminal, max_depth, Terminal, compute_updated_root, branch, climb,
}
use sena.Primitives.Hash256.{Bytes, Hash256, bytes_eq, bit}
use sena.State.Node.{node_hash}
use sena.Base.{
  ℕ, true, ◌≡◌, ◌+◌, some, length, ok, Bool-cases, suc, bool_eq, inl, Option-cases, arith, ap, inr,
  sym, ◌∙◌, ◌-◌, zero, ◌∷◌, subst, refl, false, [],
}

module _ (digest : Bytes → Hash256) where
  -- The verifier's `split_hash` hashes the tree that `split` builds.
  split_hash-tree :
      (left depth : ℕ) (ka va kb vb : Hash256) (t : Tree)
      → tree_split left depth ka va kb vb ≡ some t
      → split_hash digest left depth ka va kb vb ≡ ok (tree_hash digest t)
  unfolding split_hash tree_split sena.Primitives.Hash256.zero_hash tree_hash
  split_hash-tree zero depth ka va kb vb t e = absurd (cc)
  split_hash-tree (suc left) depth ka va kb vb t e =
      elim (Bool-cases (bool_eq (bit ka depth) (bit kb depth))) [
        | inl q ↦ elim (Option-cases (tree_split left (depth + 1) ka va kb vb)) [
          | inl d ↦ absurd (ground arith)
          | inr (c, d) ↦
              let same : fork ka depth Tree.empty c ≡ t = ground arith in
              let deeper = split_hash-tree left (depth + 1) ka va kb vb c d in
              let hashed = tree_hash-fork digest ka depth Tree.empty c in
              rw (q, deeper) (ap ok (sym hashed ∙ ap (tree_hash digest) same))
        ]
        | inr q ↦
            let same : fork ka depth (Tree.leaf kb vb) (Tree.leaf ka va) ≡ t = ground arith in
            let hashed = tree_hash-fork digest ka depth (Tree.leaf kb vb) (Tree.leaf ka va) in
            rw q (ap ok (sym hashed ∙ ap (tree_hash digest) same))
      ]

  -- The hash that replaces the end of a walk, and the root over it.
  record Rewritten (depth : ℕ) (key v : Hash256) (t t' : Tree) : Type 0 where
    running : Hash256
    updated :
        updated_terminal digest
          (tree_terminal depth key t)
          (depth + length (tree_siblings digest depth key t))
          key
          v
        ≡ ok running
    hashes : path digest key depth (tree_siblings digest depth key t) running ≡ tree_hash digest t'

  leaf-Rewritten :
      (left depth : ℕ) (key v k w : Hash256) (t' : Tree)
      → left + depth ≡ max_depth
      → Agree depth key k
      → tree_insert left depth key v (Tree.leaf k w) ≡ some t'
      → updated_terminal digest (Terminal.leaf k w) depth key v ≡ ok (tree_hash digest t')
  unfolding updated_terminal tree_insert node_hash tree_hash
  leaf-Rewritten left depth key v k w t' b a e = elim (Bool-cases (bytes_eq k key)) [
    | inl q ↦
        let same : Tree.leaf key v ≡ t' = ground arith in
        rw q (ap (λ t. ok (tree_hash digest t)) same)
    | inr q ↦
        let parted : tree_split left depth key v k w ≡ some t' = ground arith in
        let checked = check_path-Agree k key 0 depth (λ j l. sym (a j (omega arith))) in
        let levels : max_depth - depth ≡ left = omega arith in
        rw (q, checked, levels) (split_hash-tree left depth key v k w t' parted)
  ]

  node-Rewritten :
      (depth : ℕ) (key v : Hash256) (l r on off c : Tree)
      → tree_siblings digest depth key (Tree.node l r)
        ≡ tree_hash digest off ∷ tree_siblings digest (depth + 1) key on
      → tree_terminal depth key (Tree.node l r) ≡ tree_terminal (depth + 1) key on
      → Rewritten (depth + 1) key v on c
      → Rewritten depth key v (Tree.node l r) (fork key depth off c)
  unfolding path
  node-Rewritten depth key v l r on off c s t d = record {
    running = d.running;
    updated =
        rw (s, t)
          (subst
            (λ n. updated_terminal digest (tree_terminal (depth + 1) key on) n key v ≡ ok d.running)
            (omega arith) d.updated);
    hashes = rw s (
        ap (λ h. node_hash digest (branch key depth (tree_hash digest off) h))
          (subst
            (λ n.
              path digest key n (tree_siblings digest (depth + 1) key on) d.running
              ≡ tree_hash digest c)
            (omega arith) d.hashes)
        ∙ sym (tree_hash-fork digest key depth off c));
  }

  -- After an insertion into the tree, the tree's proof from before gives the new tree's hash.
  tree_insert-Rewritten :
      (left depth : ℕ) (key v : Hash256) (t t' : Tree)
      → left + depth ≡ max_depth
      → Fits depth t
      → AllKeys (Agree depth key) t
      → tree_insert left depth key v t ≡ some t'
      → Rewritten depth key v t t'
  unfolding tree_siblings tree_terminal path tree_insert updated_terminal tree_hash
  tree_insert-Rewritten left depth key v Tree.empty t' b f a e =
      let same : Tree.leaf key v ≡ t' = ground arith in
      record {
        running = tree_hash digest (Tree.leaf key v);
        updated = refl;
        hashes = ap (tree_hash digest) same;
      }
  tree_insert-Rewritten left depth key v (Tree.leaf k w) t' b f a e =
      let level : depth ≡ depth + length {A = Hash256} [] = omega arith in
      record {
        running = tree_hash digest t';
        updated =
            subst
              (λ n. updated_terminal digest (Terminal.leaf k w) n key v ≡ ok (tree_hash digest t'))
              level (leaf-Rewritten left depth key v k w t' b a e);
        hashes = refl;
      }
  tree_insert-Rewritten zero depth key v (Tree.node l r) t' b f a e = absurd (cc)
  tree_insert-Rewritten (suc left) depth key v (Tree.node l r) t' b f a e =
      elim (Option-cases (tree_insert left (depth + 1) key v (toward key depth l r))) [
        | inl d ↦ absurd (ground arith)
        | inr (c, d) ↦
            let same : fork key depth (away key depth l r) c ≡ t' = ground arith in
            elim (Bool-cases (bit key depth)) [
              | inl q ↦
                  let agree =
                    AllKeys-both (Agree depth key) (λ k. bit k depth ≡ true) (Agree (depth + 1) key)
                      r (λ k p x. Agree-step depth key k p (q ∙ sym x)) a.1 f.2 in
                  let grown : tree_insert left (depth + 1) key v r ≡ some c = rw q at d in
                  let joined : fork key depth l c ≡ t' =
                    fork_right key depth l c q ∙ rw q at same in
                  subst (Rewritten depth key v (Tree.node l r)) joined (
                    node-Rewritten depth key v l r r l c (rw q refl) (rw q refl) (
                      tree_insert-Rewritten left (depth + 1) key v r c (omega arith) f.4 agree
                        grown))
              | inr q ↦
                  let agree =
                    AllKeys-both (Agree depth key) (λ k. bit k depth ≡ false)
                      (Agree (depth + 1) key) l (λ k p x. Agree-step depth key k p (q ∙ sym x)) a.0
                      f.1 in
                  let grown : tree_insert left (depth + 1) key v l ≡ some c = rw q at d in
                  let joined : fork key depth r c ≡ t' = fork_left key depth c r q ∙ rw q at same in
                  subst (Rewritten depth key v (Tree.node l r)) joined (
                    node-Rewritten depth key v l r l r c (rw q refl) (rw q refl) (
                      tree_insert-Rewritten left (depth + 1) key v l c (omega arith) f.3 agree
                        grown))
            ]
      ]

  -- The verifier computes the hash of the tree after the write from the tree's proof from before.
  pub compute_updated_root-tree :
      (key v : Hash256) (t t' : Tree)
      → Fits 0 t
      → AllKeys (Agree 0 key) t
      → tree_insert max_depth 0 key v t ≡ some t'
      → compute_updated_root digest (tree_proof digest key t) key v ≡ ok (tree_hash digest t')
  unfolding compute_updated_root
  compute_updated_root-tree key v t t' f a e =
      let w = tree-IsWalk digest 0 key t (omega arith) f a in
      let d = tree_insert-Rewritten max_depth 0 key v t t' refl f a e in
      let siblings = tree_siblings digest 0 key t in
      let climbed : climb digest key siblings (length siblings) d.running ≡ tree_hash digest t' =
        climb-path digest key siblings d.running ∙ d.hashes in
      let updated : updated_terminal digest (tree_terminal 0 key t) (length siblings) key v
          ≡ ok d.running =
        subst (λ n. updated_terminal digest (tree_terminal 0 key t) n key v ≡ ok d.running)
          (omega arith) d.updated in
      ground (arith, w.short, updated, climbed)
