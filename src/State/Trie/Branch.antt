-- ===== src/State/Trie/Branch.antt =====
-- crates/sena-state/src/trie.rs: the store under a branch, and `split` by the tree.
use sena.Primitives.Hash256.Order.{bytes_ord}
use sena.Base.{
  ℕ, ◌≡◌, Option, arith, Bool-cases, some, suc, ap, bool_eq, refl, inl, sym, Option-cases, inr, ◌+◌,
  subst, zero, Bool, if◌then◌else◌, true, false,
}
use sena.State.Proof.{branch}
use sena.State.Trie.Store.{NoClash, Within, Finds, Holds, IsStore, Keeps, store-Stores, Holds-Keeps}
use sena.State.Trie.{Nodes, store, store_fork, split, toward, away}
use sena.State.Trie.Tree.{fork, Tree, tree_hash, tree_split}
use sena.Primitives.Hash256.{Bytes, Hash256, bit, zero_hash}
use sena.State.Node.{Node, node_hash}

module _ (digest : Bytes → Hash256) where
  pub tree_hash-fork :
      (key : Hash256) (depth : ℕ) (s c : Tree)
      → tree_hash digest (fork key depth s c)
        ≡ node_hash digest (branch key depth (tree_hash digest s) (tree_hash digest c))
  unfolding fork branch tree_hash
  tree_hash-fork key depth s c = ground arith

  Within-either :
      (P : Node → Type 0) (b : Bool) (s c : Tree)
      → Within digest P (if b then Tree.node s c else Tree.node c s)
      → P (
          if b
          then Node.internal (tree_hash digest s) (tree_hash digest c)
          else Node.internal (tree_hash digest c) (tree_hash digest s))
        × Within digest P s
        × Within digest P c
  Within-either P true s c w = w
  Within-either P false s c w = (w.0, w.2, w.1)

  pub Within-fork :
      (P : Node → Type 0) (key : Hash256) (depth : ℕ) (s c : Tree)
      → Within digest P (fork key depth s c)
      → P (branch key depth (tree_hash digest s) (tree_hash digest c))
        × Within digest P s
        × Within digest P c
  unfolding fork branch
  Within-fork P key depth s c w = Within-either P (bit key depth) s c w

  Holds-fork :
      (ns : Nodes) (key : Hash256) (depth : ℕ) (s c : Tree)
      → Finds digest ns (branch key depth (tree_hash digest s) (tree_hash digest c))
      → Holds digest ns s
      → Holds digest ns c
      → Holds digest ns (fork key depth s c)
  unfolding fork branch
  Holds-fork ns key depth s c f hs hc = ground arith

  pub Holds-toward :
      (ns : Nodes) (key : Hash256) (depth : ℕ) (l r : Tree)
      → Holds digest ns (Tree.node l r)
      → Holds digest ns (toward key depth l r) × Holds digest ns (away key depth l r)
  Holds-toward ns key depth l r h = ground arith

module _ (digest : Bytes → Hash256) {P : Node → Type 0} (apart : NoClash digest P) where
  -- The store after an operation that returns the hash of the tree `t`.
  pub record Built (ns : Nodes) (t : Tree) (r : Option (Nodes × Hash256)) : Type 0 where
    pub after : Nodes
    pub result : r ≡ some (after, tree_hash digest t)
    pub holds : Holds digest after t
    pub kept : Keeps digest ns after
    pub is_store : IsStore digest P after

  pub Built-eq :
      (ns : Nodes) {t t' : Tree} {r r' : Option (Nodes × Hash256)}
      → t ≡ t'
      → r' ≡ r
      → Built ns t r
      → Built ns t' r'
  Built-eq ns {r = r} {r' = r'} e d b = subst (λ x. Built ns x r') e (subst (Built ns _) (sym d) b)

  pub leaf-Built :
      (key v : Hash256) (ns : Nodes)
      → P (Node.leaf key v)
      → IsStore digest P ns
      → Built ns (Tree.leaf key v) (some (store digest (Node.leaf key v) ns))
  unfolding tree_hash store
  leaf-Built key v ns p s =
      let st = store-Stores digest apart (Node.leaf key v) ns p s in
      record {
        after = (store digest (Node.leaf key v) ns).0;
        result = refl;
        holds = st.found;
        kept = st.kept;
        is_store = st.is_store;
      }

  -- Storing the branch over a subtree that the store holds.
  pub fork-Built :
      (key : Hash256) (depth : ℕ) (s c : Tree) (ns ns' : Nodes)
      → Within digest P (fork key depth s c)
      → Keeps digest ns ns'
      → IsStore digest P ns'
      → Holds digest ns' s
      → Holds digest ns' c
      → Built ns
          (fork key depth s c)
          (some (store digest (branch key depth (tree_hash digest s) (tree_hash digest c)) ns'))
  unfolding store
  fork-Built key depth s c ns ns' w k is hs hc =
      let n = branch key depth (tree_hash digest s) (tree_hash digest c) in
      let (p, ws, wc) = Within-fork digest P key depth s c w in
      let st = store-Stores digest apart n ns' p is in
      record {
        after = (store digest n ns').0;
        result =
            ap (λ h. some ((store digest n ns').0, h)) (sym (tree_hash-fork digest key depth s c));
        holds =
            Holds-fork digest _ key depth s c st.found (Holds-Keeps digest ns' _ s st.kept hs)
              (Holds-Keeps digest ns' _ c st.kept hc);
        kept = λ m f. st.kept m (k m f);
        is_store = st.is_store;
      }

  store_fork-Built :
      (depth : ℕ) (ka va kb vb : Hash256) (ns : Nodes)
      → Within digest P (fork ka depth (Tree.leaf kb vb) (Tree.leaf ka va))
      → IsStore digest P ns
      → Built ns
          (fork ka depth (Tree.leaf kb vb) (Tree.leaf ka va))
          (some (store_fork digest depth ka va kb vb ns))
  unfolding store_fork node_hash tree_hash
  store_fork-Built depth ka va kb vb ns w is =
      let (p, wb, wa) = Within-fork digest P ka depth (Tree.leaf kb vb) (Tree.leaf ka va) w in
      let a = store-Stores digest apart (Node.leaf ka va) ns wa is in
      let b = store-Stores digest apart (Node.leaf kb vb) _ wb a.is_store in
      fork-Built ka depth (Tree.leaf kb vb) (Tree.leaf ka va) ns _ w (λ m f. b.kept m (a.kept m f))
        b.is_store b.found (b.kept _ a.found)

  pub split-Built :
      (left depth : ℕ) (ka va kb vb : Hash256) (ns : Nodes) (t : Tree)
      → tree_split left depth ka va kb vb ≡ some t
      → Within digest P t
      → IsStore digest P ns
      → Built ns t (split digest left depth ka va kb vb ns)
  unfolding split tree_split zero_hash tree_hash
  split-Built zero depth ka va kb vb ns t e w is = absurd (cc)
  split-Built (suc left) depth ka va kb vb ns t e w is =
      elim (Bool-cases (bool_eq (bit ka depth) (bit kb depth))) [
        | inl q ↦ elim (Option-cases (tree_split left (depth + 1) ka va kb vb)) [
          | inl d ↦ absurd (ground arith)
          | inr (c, d) ↦
              let same : fork ka depth Tree.empty c ≡ t = ground arith in
              let w' : Within digest P (fork ka depth Tree.empty c) =
                subst (Within digest P) (sym same) w in
              let deeper =
                split-Built left (depth + 1) ka va kb vb ns c d
                  (Within-fork digest P ka depth Tree.empty c w').2 is in
              let top =
                fork-Built ka depth Tree.empty c ns deeper.after w' deeper.kept deeper.is_store tt
                  deeper.holds in
              let goes : split digest (suc left) depth ka va kb vb ns
                  ≡ some
                      (store digest (branch ka depth zero_hash (tree_hash digest c)) deeper.after) =
                ground (arith, deeper.result) in
              Built-eq ns same goes top
        ]
        | inr q ↦
            let same : fork ka depth (Tree.leaf kb vb) (Tree.leaf ka va) ≡ t = ground arith in
            let w' = subst (Within digest P) (sym same) w in
            let goes : split digest (suc left) depth ka va kb vb ns
                ≡ some (store_fork digest depth ka va kb vb ns) =
              ground arith in
            Built-eq ns same goes (store_fork-Built depth ka va kb vb ns w' is)
      ]
