-- ===== src/State/Trie/Writes.antt =====
-- crates/sena-state/src/trie.rs: tries that sequences of writes build, and what their roots say of
-- the values.
use sena.Primitives.Hash256.Order.{bytes_ord}
use mathlib.Core.Path.{ap₂}
use sena.State.Node.{Node}
use sena.Base.{
  List, Option, ◌≡◌, All, ◌∷◌, if◌then◌else◌, none, some, sym, ◌∙◌, [], ap, ◌↔◌, Bool-cases, refl,
  inl, subst, inr, arith,
}
use sena.Primitives.Hash256.{Hash256, IsHash, Bytes, bytes_eq, bytes_eq_iff}
use sena.State.Trie.{MerkleTrie, new_trie, insert_value}
use sena.State.Trie.Tree.{Tree, tree_hash, tree_get}
use sena.State.Trie.Store.{NoClash, Within}
use sena.State.Trie.Backs.{
  Backs, tree_set, hash_of, new_trie-Backs, insert_value-Backs, root_of_values,
}
use sena.Base.BTreeMap.{get, insert, get-insert_self, get-insert_ne}

-- A key with its value.
abbrev pub Write : Type 0
Write = Hash256 × Bytes

abbrev pub IsWrite : Write → Type 0
IsWrite w = IsHash w.0

-- What stands at a key after writes, over what stood there before.
unfoldable pub written : Hash256 → List Write → Option Bytes → Option Bytes
written key [] before = before
written key ((k, v) ∷ ws) before = written key ws (if bytes_eq k key then some v else before)

-- The value of the last write to a key.
abbrev pub last_write : Hash256 → List Write → Option Bytes
last_write key ws = written key ws none

module _ (digest : Bytes → Hash256) where
  -- `MerkleTrie::insert`, called in order.
  unfoldable pub run_inserts : List Write → MerkleTrie → Option MerkleTrie
  run_inserts [] trie = some trie
  run_inserts ((k, v) ∷ ws) trie = elim (insert_value digest k v trie) [
    | none ↦ none
    | some trie' ↦ run_inserts ws trie'
  ]

  abbrev pub tree_after_inserts : List Write → Tree → Tree
  tree_after_inserts [] t = t
  tree_after_inserts ((k, v) ∷ ws) t = tree_after_inserts ws (tree_set digest k v t)

  -- The nodes of each tree on the way are in `P`.
  abbrev pub AllWithin : (Node → Type 0) → List Write → Tree → Type 0
  AllWithin P [] t = Within digest P t
  AllWithin P ((k, v) ∷ ws) t = Within digest P t × AllWithin P ws (tree_set digest k v t)

  AllWithin-last :
      (P : Node → Type 0) (ws : List Write) (t : Tree)
      → AllWithin P ws t
      → Within digest P (tree_after_inserts ws t)
  AllWithin-last P [] t w = w
  AllWithin-last P ((k, v) ∷ ws) t w = AllWithin-last P ws (tree_set digest k v t) w.1

  AllWithin-first :
      (P : Node → Type 0) (ws : List Write) (t : Tree) → AllWithin P ws t → Within digest P t
  AllWithin-first P [] t w = w
  AllWithin-first P ((k, v) ∷ ws) t w = w.0

module _ (digest : Bytes → Hash256) {P : Node → Type 0} (apart : NoClash digest P) where
  -- A root is the root of one tree.
  tree_hash-inj :
      (t u : Tree)
      → Within digest P t
      → Within digest P u
      → tree_hash digest t ≡ tree_hash digest u
      → t ≡ u
  unfolding tree_hash
  tree_hash-inj Tree.empty Tree.empty v w e = refl
  tree_hash-inj Tree.empty (Tree.leaf k x) v w e = absurd (apart.nonzero _ w (sym e))
  tree_hash-inj Tree.empty (Tree.node l r) v w e = absurd (apart.nonzero _ w.0 (sym e))
  tree_hash-inj (Tree.leaf k x) Tree.empty v w e = absurd (apart.nonzero _ v e)
  tree_hash-inj (Tree.leaf k x) (Tree.leaf j y) v w e = let same = apart.free _ _ v w e in cc
  tree_hash-inj (Tree.leaf k x) (Tree.node l r) v w e =
      let same = apart.free _ _ v w.0 e in absurd (cc)
  tree_hash-inj (Tree.node l r) Tree.empty v w e = absurd (apart.nonzero _ v.0 e)
  tree_hash-inj (Tree.node l r) (Tree.leaf k x) v w e =
      let same = apart.free _ _ v.0 w e in absurd (cc)
  tree_hash-inj (Tree.node l r) (Tree.node l' r') v w e =
      let same = apart.free _ _ v.0 w.0 e in
      ap₂ Tree.node (tree_hash-inj l l' v.1 w.1 (cc)) (tree_hash-inj r r' v.2 w.2 (cc))

  -- What writes build: the trie of the tree after them, with the last value at each key.
  record Built (ws : List Write) (trie : MerkleTrie) (t : Tree) : Type 0 where
    after : MerkleTrie
    result : run_inserts digest ws trie ≡ some after
    backs : Backs digest P after (tree_after_inserts digest ws t)
    values : (key : Hash256) → get key after.values ≡ written key ws (get key trie.values)

  get-insert :
      (k key : Hash256) (v : Bytes) (trie : MerkleTrie)
      → get key (insert k v trie.values) ≡ (if bytes_eq k key then some v else get key trie.values)
  get-insert k key v trie = elim (Bool-cases (bytes_eq k key)) [
    | inl q ↦
        let same = (bytes_eq_iff k key).0 q in
        rw q (
          subst (λ j. get j (insert k v trie.values) ≡ some v) same
            (get-insert_self k v trie.values))
    | inr q ↦ rw q (get-insert_ne k key v trie.values (λ e. ground (arith, bytes_eq_iff k key, e)))
  ]

  run_inserts-Built :
      (ws : List Write) (trie : MerkleTrie) (t : Tree)
      → All IsWrite ws
      → Backs digest P trie t
      → AllWithin digest P ws t
      → Built ws trie t
  unfolding run_inserts written
  run_inserts-Built [] trie t h b w = record {
    after = trie;
    result = refl;
    backs = b;
    values = λ key. refl;
  }
  run_inserts-Built ((k, v) ∷ ws) trie t h b w =
      let (trie', goes, holds, backs, kept) =
        insert_value-Backs digest apart k v trie t h.0 b
          (AllWithin-first digest P ws (tree_set digest k v t) w.1) in
      let rest = run_inserts-Built ws trie' (tree_set digest k v t) h.1 backs w.1 in
      record {
        after = rest.after;
        result = rw (goes, run_inserts) rest.result;
        backs = rest.backs;
        values = λ key.
            rest.values key ∙ ap (written key ws) (ap (get key) holds ∙ get-insert k key v trie);
      }

  -- Two sequences of writes of 32-byte keys to the empty trie do not panic, and they give the same
  -- root just where at every key the last values written have the same hash, or nothing was
  -- written: the root is settled by the values, in whatever order they were written and
  -- whatever they replaced, and it settles their hashes. This is where the nodes of all trees on
  -- the way have hashes of their own.
  pub root_of_writes :
      (ws vs : List Write)
      → All IsWrite ws
      → All IsWrite vs
      → AllWithin digest P ws Tree.empty
      → AllWithin digest P vs Tree.empty
      → (a : MerkleTrie) × (b : MerkleTrie) × (run_inserts digest ws new_trie ≡ some a)
        × (run_inserts digest vs new_trie ≡ some b)
        × ((a.root ≡ b.root) ↔ (
            (key : Hash256)
            → hash_of digest (last_write key ws) ≡ hash_of digest (last_write key vs)))
  unfolding new_trie get
  root_of_writes ws vs h k w z =
      let x = run_inserts-Built ws new_trie Tree.empty h (new_trie-Backs digest P) w in
      let y = run_inserts-Built vs new_trie Tree.empty k (new_trie-Backs digest P) z in
      (
        x.after,
        y.after,
        x.result,
        y.result,
        (
          λ e key.
              let one =
                tree_hash-inj (tree_after_inserts digest ws Tree.empty)
                  (tree_after_inserts digest vs Tree.empty)
                  (AllWithin-last digest P ws Tree.empty w)
                  (AllWithin-last digest P vs Tree.empty z)
                  (sym x.backs.root_hash ∙ e ∙ y.backs.root_hash) in
              ap (hash_of digest) (sym (x.values key))
              ∙ sym (x.backs.contents key)
              ∙ ap (tree_get 0 key) one
              ∙ y.backs.contents key
              ∙ ap (hash_of digest) (y.values key),
          λ same.
              root_of_values digest x.after y.after (tree_after_inserts digest ws Tree.empty)
                (tree_after_inserts digest vs Tree.empty) x.backs y.backs
                (λ key.
                  ap (hash_of digest) (x.values key)
                  ∙ same key
                  ∙ ap (hash_of digest) (sym (y.values key))),
        ),
      )
