-- ===== src/State/Trie/Refine.antt =====
-- crates/sena-state/src/trie.rs: insertion into the node store, by the tree.
use sena.State.Trie.Branch.{
  Built, Built-eq, leaf-Built, split-Built, Holds-toward, Within-fork, fork-Built,
}
use sena.Primitives.Hash256.Order.{bytes_ord}
use sena.Base.BTreeMap.{get}
use sena.Base.{
  ℕ, ◌≡◌, arith, Bool-cases, some, suc, ap, refl, inl, sym, Option-cases, inr, ◌+◌, subst, zero,
  none, ◌∙◌,
}
use sena.State.Proof.{branch}
use sena.State.Trie.Store.{NoClash, Within, Finds, Holds, IsStore, Holds-Keeps, get-zero}
use sena.State.Trie.{Nodes, store, split, toward, away, insert_leaf, insert_at}
use sena.State.Trie.Tree.{fork, Tree, tree_hash, tree_insert}
use sena.Primitives.Hash256.{Bytes, Hash256, zero_hash, bytes_eq}
use sena.State.Node.{Node, node_hash}

module _ (digest : Bytes → Hash256) {P : Node → Type 0} (apart : NoClash digest P) where
  insert_leaf-Built :
      (left depth : ℕ) (key v k w : Hash256) (ns : Nodes) (t : Tree)
      → tree_insert left depth key v (Tree.leaf k w) ≡ some t
      → Within digest P t
      → IsStore digest P ns
      → Built digest apart ns t (insert_leaf digest left depth key v k w ns)
  unfolding insert_leaf tree_insert
  insert_leaf-Built left depth key v k w ns t e wi is = elim (Bool-cases (bytes_eq k key)) [
    | inl q ↦
        let same : Tree.leaf key v ≡ t = ground arith in
        let goes : insert_leaf digest left depth key v k w ns
            ≡ some (store digest (Node.leaf key v) ns) =
          ground arith in
        Built-eq digest apart ns same goes
          (leaf-Built digest apart key v ns (subst (Within digest P) (sym same) wi) is)
    | inr q ↦
        let goes : insert_leaf digest left depth key v k w ns
            ≡ split digest left depth key v k w ns =
          ground arith in
        Built-eq digest apart ns refl goes
          (split-Built digest apart left depth key v k w ns t (ground arith) wi is)
  ]

  -- At a slot that is empty or a leaf the levels do not matter.
  insert_at-leaf :
      (left depth : ℕ) (key v k w : Hash256) (ns : Nodes)
      → Finds digest ns (Node.leaf k w)
      → insert_at digest left depth key v ns (node_hash digest (Node.leaf k w))
        ≡ insert_leaf digest left depth key v k w ns
  unfolding insert_at
  insert_at-leaf zero depth key v k w ns f = ground arith
  insert_at-leaf (suc left) depth key v k w ns f = ground arith

  insert_at-empty :
      (left depth : ℕ) (key v : Hash256) (ns : Nodes)
      → get zero_hash ns ≡ none
      → insert_at digest left depth key v ns zero_hash ≡ some (store digest (Node.leaf key v) ns)
  unfolding insert_at
  insert_at-empty zero depth key v ns f = ground arith
  insert_at-empty (suc left) depth key v ns f = ground arith

  insert_at-node :
      (left depth : ℕ) (key v l r s c : Hash256) (ns ns' : Nodes)
      → Finds digest ns (Node.internal l r)
      → away key depth l r ≡ s
      → insert_at digest left (depth + 1) key v ns (toward key depth l r) ≡ some (ns', c)
      → insert_at digest (suc left) depth key v ns (node_hash digest (Node.internal l r))
        ≡ some (store digest (branch key depth s c) ns')
  unfolding insert_at
  insert_at-node left depth key v l r s c ns ns' f q e = ground arith

  hash-toward :
      (key : Hash256) (depth : ℕ) (l r : Tree)
      → toward key depth (tree_hash digest l) (tree_hash digest r)
        ≡ tree_hash digest (toward key depth l r)
  hash-toward key depth l r = ground arith

  hash-away :
      (key : Hash256) (depth : ℕ) (l r : Tree)
      → away key depth (tree_hash digest l) (tree_hash digest r)
        ≡ tree_hash digest (away key depth l r)
  hash-away key depth l r = ground arith

  -- Where the tree's insertion succeeds, the store's does, and returns the hash of the same tree,
  -- which it holds; it forgets no node.
  pub insert_at-Built :
      (left depth : ℕ) (key v : Hash256) (ns : Nodes) (t t' : Tree)
      → tree_insert left depth key v t ≡ some t'
      → Within digest P t'
      → IsStore digest P ns
      → Holds digest ns t
      → Built digest apart ns t' (insert_at digest left depth key v ns (tree_hash digest t))
  unfolding tree_insert tree_hash
  insert_at-Built left depth key v ns Tree.empty t' e w is h =
      let same : Tree.leaf key v ≡ t' = ground arith in
      Built-eq digest apart ns same
        (insert_at-empty left depth key v ns (get-zero digest apart ns is))
        (leaf-Built digest apart key v ns (subst (Within digest P) (sym same) w) is)
  insert_at-Built left depth key v ns (Tree.leaf k u) t' e w is h =
      Built-eq digest apart ns refl (insert_at-leaf left depth key v k u ns h)
        (insert_leaf-Built left depth key v k u ns t' e w is)
  insert_at-Built zero depth key v ns (Tree.node l r) t' e w is h = absurd (cc)
  insert_at-Built (suc left) depth key v ns (Tree.node l r) t' e w is h =
      let on = toward key depth l r in
      let off = away key depth l r in
      let (hon, hoff) = Holds-toward digest ns key depth l r h in
      elim (Option-cases (tree_insert left (depth + 1) key v on)) [
        | inl d ↦ absurd (ground arith)
        | inr (c, d) ↦
            let same : fork key depth off c ≡ t' = ground arith in
            let w' = subst (Within digest P) (sym same) w in
            let deeper =
              insert_at-Built left (depth + 1) key v ns on c d
                (Within-fork digest P key depth off c w').2 is hon in
            let top =
              fork-Built digest apart key depth off c ns deeper.after w' deeper.kept deeper.is_store
                (Holds-Keeps digest ns deeper.after off deeper.kept hoff) deeper.holds in
            Built-eq digest apart ns same
              (insert_at-node left depth key v (tree_hash digest l) (tree_hash digest r)
                (tree_hash digest off) (tree_hash digest c) ns deeper.after h.0
                (hash-away key depth l r)
                (ap (insert_at digest left (depth + 1) key v ns) (hash-toward key depth l r)
                  ∙ deeper.result))
              top
      ]
