-- ===== src/State/Trie/Store.antt =====
-- crates/sena-state/src/trie.rs: the node store and the trees that it holds.
use sena.Primitives.Hash256.Order.{bytes_ord}
use sena.Base.BTreeMap.{get, get-insert_self, insert, get-insert_ne}
use sena.State.Trie.Tree.{Tree, tree_hash}
use sena.State.Trie.{Nodes, store}
use sena.Base.{
  ◌≡◌, ◌≢◌, All, some, Bool-cases, none, Option-cases, inl, inr, sym, subst, arith, ◌∙◌, refl,
}
use sena.Primitives.Hash256.{Bytes, Hash256, zero_hash, bytes_eq, bytes_eq_iff}
use sena.State.Node.{Node, node_hash}
use sena.Base.BTreeMap.Entries.{All-insert, All-get}

-- Among the nodes of `P` no two share a hash, and none has the hash of the empty subtree.
pub record NoClash (digest : Bytes → Hash256) (P : Node → Type 0) : Type 0 where
  pub free : (n m : Node) → P n → P m → node_hash digest n ≡ node_hash digest m → n ≡ m
  pub nonzero : (n : Node) → P n → node_hash digest n ≢ zero_hash

module _ (digest : Bytes → Hash256) (P : Node → Type 0) where
  -- Every entry stands under its node's hash.
  abbrev pub IsStore : Nodes → Type 0
  IsStore ns = All (λ e. (e.0 ≡ node_hash digest e.1) × P e.1) ns

  -- The nodes of a tree are in `P`.
  abbrev pub Within : Tree → Type 0
  Within Tree.empty = Unit
  Within (Tree.leaf k v) = P (Node.leaf k v)
  Within (Tree.node l r) =
      P (Node.internal (tree_hash digest l) (tree_hash digest r)) × Within l × Within r

-- The store finds the node under its hash.
abbrev pub Finds : (Bytes → Hash256) → Nodes → Node → Type 0
Finds digest ns n = get (node_hash digest n) ns ≡ some n

-- The store holds every node of the tree.
abbrev pub Holds : (Bytes → Hash256) → Nodes → Tree → Type 0
Holds digest ns Tree.empty = Unit
Holds digest ns (Tree.leaf k v) = Finds digest ns (Node.leaf k v)
Holds digest ns (Tree.node l r) =
    Finds digest ns (Node.internal (tree_hash digest l) (tree_hash digest r))
    × Holds digest ns l
    × Holds digest ns r

-- Every node that one store finds the other finds.
abbrev pub Keeps : (Bytes → Hash256) → Nodes → Nodes → Type 0
Keeps digest ns ns' = (n : Node) → Finds digest ns n → Finds digest ns' n

module _ (digest : Bytes → Hash256) where
  pub Holds-Keeps :
      (ns ns' : Nodes) (t : Tree) → Keeps digest ns ns' → Holds digest ns t → Holds digest ns' t
  Holds-Keeps ns ns' Tree.empty k h = tt
  Holds-Keeps ns ns' (Tree.leaf key v) k h = k (Node.leaf key v) h
  Holds-Keeps ns ns' (Tree.node l r) k h =
      (k _ h.0, Holds-Keeps ns ns' l k h.1, Holds-Keeps ns ns' r k h.2)

module _ (digest : Bytes → Hash256) {P : Node → Type 0} (apart : NoClash digest P) where
  Finds-In : (ns : Nodes) (n : Node) → IsStore digest P ns → Finds digest ns n → P n
  Finds-In ns n s f = (All-get _ _ _ _ s f).1

  -- The empty subtree's hash is no node's.
  pub get-zero : (ns : Nodes) → IsStore digest P ns → get zero_hash ns ≡ none
  get-zero ns s = elim (Option-cases (get zero_hash ns)) [
    | inl e ↦ e
    | inr (n, e) ↦ let (h, p) = All-get _ _ _ _ s e in absurd (apart.nonzero n p (sym h))
  ]

  -- What storing a node does: it is found under the hash that is returned, and so is every node
  -- that was found before.
  pub record Stores (n : Node) (ns : Nodes) : Type 0 where
    pub found : Finds digest (store digest n ns).0 n
    pub kept : Keeps digest ns (store digest n ns).0
    pub is_store : IsStore digest P (store digest n ns).0

  pub store-Stores : (n : Node) (ns : Nodes) → P n → IsStore digest P ns → Stores n ns
  unfolding store
  store-Stores n ns p s = record {
    found = get-insert_self (node_hash digest n) n ns;
    kept = λ m f. elim (Bool-cases (bytes_eq (node_hash digest m) (node_hash digest n))) [
      | inl e ↦
          let h = (bytes_eq_iff _ _).0 e in
          let same = apart.free m n (Finds-In ns m s f) p h in
          subst (λ t. get (node_hash digest t) (insert (node_hash digest n) n ns) ≡ some t)
            (sym same) (get-insert_self (node_hash digest n) n ns)
      | inr e ↦
          get-insert_ne (node_hash digest n) (node_hash digest m) n ns
            (λ q. ground (arith, (bytes_eq_iff (node_hash digest m) (node_hash digest n)).1 q))
          ∙ f
    ];
    is_store = All-insert _ (node_hash digest n) n ns (refl, p) s;
  }
