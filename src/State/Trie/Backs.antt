-- ===== src/State/Trie/Backs.antt =====
-- crates/sena-state/src/trie.rs: the trie's operations by the tree that its root stands for.
use sena.State.Trie.Rewrite.{compute_updated_root-tree}
use sena.State.Trie.Prove.{prove_loop-tree, tree_proof-verifies, tree_proof-absent}
use sena.State.Trie.Walk.{tree_proof, tree-IsWalk}
use sena.State.Trie.Refine.{insert_at-Built}
use sena.Primitives.Hash256.Order.{bytes_ord}
use sena.State.Trie.Insert.{tree_insert-Grown}
use sena.State.Trie.Unique.{tree_unique}
use sena.State.Proof.{
  max_depth, MerkleProof, verify_inclusion, verify_non_inclusion, compute_updated_root,
  verify_inclusion_hashed,
}
use sena.Primitives.Hash256.Bits.{Agree}
use sena.Base.BTreeMap.{get, insert, get-insert_self, get-insert_ne}
use sena.State.Trie.Shape.{AllKeys, Fits, IsCompact}
use sena.State.Trie.Store.{NoClash, IsStore, Holds, Within, Keeps}
use sena.State.Trie.{MerkleTrie, new_trie, insert_value, insert_at, prove, prove_at, prove_loop}
use sena.Base.{
  Option, ◌≡◌, some, none, arith, ◌∙◌, ap, sym, refl, subst, Bool-cases, inl, inr, ok, [],
}
use sena.State.Trie.Tree.{Tree, tree_insert, tree_hash, tree_get}
use sena.Primitives.Hash256.{Hash256, Bytes, IsHash, bytes_eq, bytes_eq_iff}
use sena.State.Node.{Node, hash_value}

AllKeys-all : (Q : Hash256 → Type 0) (t : Tree) → ((k : Hash256) → Q k) → AllKeys Q t
AllKeys-all Q Tree.empty f = tt
AllKeys-all Q (Tree.leaf k v) f = f k
AllKeys-all Q (Tree.node l r) f = (AllKeys-all Q l f, AllKeys-all Q r f)

-- No bits are above the root.
Agree-root : (key : Hash256) (t : Tree) → AllKeys (Agree 0 key) t
Agree-root key t = AllKeys-all (Agree 0 key) t (λ k i h. absurd (omega arith))

module _ (digest : Bytes → Hash256) where
  abbrev pub hash_of : Option Bytes → Option Hash256
  hash_of none = none
  hash_of (some value) = some (hash_value digest value)

  -- The tree after a write.
  unfoldable pub tree_set : Hash256 → Bytes → Tree → Tree
  tree_set key value t = elim (tree_insert max_depth 0 key (hash_value digest value) t) [
    | none ↦ t
    | some t' ↦ t'
  ]

  -- The trie's store holds the tree, and the tree the hashes of the trie's values.
  pub record Backs (P : Node → Type 0) (trie : MerkleTrie) (t : Tree) : Type 0 where
    pub root_hash : trie.root ≡ tree_hash digest t
    pub is_store : IsStore digest P trie.nodes
    pub holds : Holds digest trie.nodes t
    pub fits : Fits 0 t
    pub compact : IsCompact t
    pub contents : (key : Hash256) → tree_get 0 key t ≡ hash_of (get key trie.values)

  pub new_trie-Backs : (P : Node → Type 0) → Backs P new_trie Tree.empty
  unfolding new_trie tree_hash tree_get get
  new_trie-Backs P = record {
    root_hash = refl;
    is_store = tt;
    holds = tt;
    fits = tt;
    compact = tt;
    contents = λ key. refl;
  }

  -- Tries that hold trees, with values of the same hash at every key, have the same root.
  pub root_of_values :
      {P Q : Node → Type 0} (a b : MerkleTrie) (t u : Tree)
      → Backs P a t
      → Backs Q b u
      → ((key : Hash256) → hash_of (get key a.values) ≡ hash_of (get key b.values))
      → a.root ≡ b.root
  root_of_values a b t u x y same =
      let one =
        tree_unique 0 t u x.fits y.fits x.compact y.compact
          (λ key. x.contents key ∙ same key ∙ sym (y.contents key)) in
      x.root_hash ∙ ap (tree_hash digest) one ∙ sym y.root_hash

  tree_set-eq :
      (key : Hash256) (value : Bytes) (t t' : Tree)
      → tree_insert max_depth 0 key (hash_value digest value) t ≡ some t'
      → tree_set key value t ≡ t'
  unfolding tree_set
  tree_set-eq key value t t' e = rw (e, tree_set) refl

module _ (digest : Bytes → Hash256) {P : Node → Type 0} (apart : NoClash digest P) where
  -- A write of a 32-byte key to a trie whose root stands for a tree does not panic, and gives the
  -- trie of the tree after the write, with every node that it had before, where the nodes of
  -- the store and of the new tree have hashes of their own.
  pub insert_value-Backs :
      (key : Hash256) (value : Bytes) (trie : MerkleTrie) (t : Tree)
      → IsHash key
      → Backs digest P trie t
      → Within digest P (tree_set digest key value t)
      → (trie' : MerkleTrie) × (insert_value digest key value trie ≡ some trie')
        × (trie'.values ≡ insert key value trie.values)
        × Backs digest P trie' (tree_set digest key value t)
        × Keeps digest trie.nodes trie'.nodes
  unfolding insert_value
  insert_value-Backs key value trie t h b w =
      let v = hash_value digest value in
      let g = tree_insert-Grown max_depth 0 key v t refl h b.fits b.compact (Agree-root key t) in
      let set = tree_set-eq digest key value t g.after g.result in
      let built =
        insert_at-Built digest apart max_depth 0 key v trie.nodes t g.after g.result
          (subst (Within digest P) set w) b.is_store b.holds in
      let goes : insert_at digest max_depth 0 key v trie.nodes trie.root
          ≡ some (built.after, tree_hash digest g.after) =
        ap (insert_at digest max_depth 0 key v trie.nodes) b.root_hash ∙ built.result in
      (
        record {
          nodes = built.after;
          values = insert key value trie.values;
          root = tree_hash digest g.after;
        },
        rw (goes, insert_value) refl,
        refl,
        subst (Backs digest P _) (sym set) (record {
          root_hash = refl;
          is_store = built.is_store;
          holds = built.holds;
          fits = g.fits;
          compact = g.compact;
          contents = λ other. g.gets other ∙ elim (Bool-cases (bytes_eq key other)) [
            | inl q ↦
                let same = (bytes_eq_iff key other).0 q in
                rw q (
                  subst (λ k. some v ≡ hash_of digest (get k (insert key value trie.values))) same
                    (ap (hash_of digest) (sym (get-insert_self key value trie.values))))
            | inr q ↦ rw q (
                b.contents other
                ∙ ap (hash_of digest) (
                    sym (
                      get-insert_ne key other value trie.values
                        (λ e. ground (arith, bytes_eq_iff key other, e)))))
          ];
        }),
        built.kept,
      )

-- The proof that a trie gives for a key.
pub record Proves (digest : Bytes → Hash256) (trie : MerkleTrie) (t : Tree) (key : Hash256)
    (p : MerkleProof) : Type 0 where
  pub given : prove key trie ≡ some p
  pub included :
      (value : Bytes)
      → get key trie.values ≡ some value
      → verify_inclusion digest p trie.root key value ≡ ok tt
  pub excluded : get key trie.values ≡ none → verify_non_inclusion digest p trie.root key ≡ ok tt
  pub updated :
      (value : Bytes)
      → compute_updated_root digest p key (hash_value digest value)
        ≡ ok (tree_hash digest (tree_set digest key value t))

module _ (digest : Bytes → Hash256) {P : Node → Type 0} (apart : NoClash digest P) where
  -- A trie whose store holds the tree of its root proves every 32-byte key, without a panic: the
  -- verifier accepts the value that it holds, or that there is none, and computes from the proof
  -- the root of the tree after a write. This is where the nodes of the store have hashes of
  -- their own.
  pub prove-Proves :
      (key : Hash256) (trie : MerkleTrie) (t : Tree)
      → IsHash key
      → Backs digest P trie t
      → Proves digest trie t key (tree_proof digest key t)
  unfolding prove prove_at verify_inclusion
  prove-Proves key trie t h b =
      let w = tree-IsWalk digest 0 key t (omega arith) b.fits (Agree-root key t) in
      record {
        given =
            ap (prove_loop max_depth 0 key trie.nodes []) b.root_hash
            ∙ prove_loop-tree digest apart max_depth 0 key t trie.nodes [] refl b.fits b.holds
                b.is_store;
        included = λ value e.
            subst
              (λ r.
                verify_inclusion_hashed digest (tree_proof digest key t) r key
                  (hash_value digest value)
                ≡ ok tt)
              (sym b.root_hash)
              (tree_proof-verifies digest key (hash_value digest value) t w
                (b.contents key ∙ ap (hash_of digest) e));
        excluded = λ e.
            subst (λ r. verify_non_inclusion digest (tree_proof digest key t) r key ≡ ok tt)
              (sym b.root_hash)
              (tree_proof-absent digest key t w (b.contents key ∙ ap (hash_of digest) e));
        updated = λ value.
            let v = hash_value digest value in
            let g =
              tree_insert-Grown max_depth 0 key v t refl h b.fits b.compact (Agree-root key t) in
            compute_updated_root-tree digest key v t g.after b.fits (Agree-root key t) g.result
            ∙ ap (λ x. ok (tree_hash digest x))
                (sym (tree_set-eq digest key value t g.after g.result));
      }
