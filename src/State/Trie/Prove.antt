-- ===== src/State/Trie/Prove.antt =====
-- crates/sena-state/src/trie.rs: `prove_at` on a store that holds the tree, and the verifier's checks
-- of what it returns.
use mathlib.Core.List.{append-nil, append_assoc}
use sena.State.Proof.Path.{climb-path}
use sena.Primitives.Hash256.Order.{bytes_ord}
use sena.State.Trie.Shape.{Fits}
use sena.Base.BTreeMap.{get}
use sena.State.Trie.Walk.{
  tree_siblings, OnPath, IsWalk, shown, tree_terminal, tree_proof, tree_get-terminal,
}
use sena.State.Trie.{prove_loop, Nodes, away, toward}
use sena.State.Trie.Tree.{Tree, tree_get, tree_hash}
use sena.State.Trie.Store.{NoClash, Finds, Holds, IsStore, get-zero}
use sena.Primitives.Hash256.{Bytes, Hash256, bit, zero_hash, bytes_eq_refl}
use sena.State.Proof.{
  check_path, check_terminal, reconstruct_root, check_value, verify_inclusion_hashed, check_absent,
  verify_non_inclusion, Terminal, max_depth, climb, terminal_hash,
}
use sena.State.Node.{Node, node_hash}
use sena.Base.{
  ℕ, ◌<◌, ◌+◌, ◌≡◌, List, ok, some, none, sym, length, arith, suc, bool_eq_iff, subst, ◌++◌, zero,
  refl, ◌∷◌, [], ◌∙◌, Bool-cases, inl, inr,
}

pub check_path-Agree :
    (a b : Hash256) (i n : ℕ)
    → ((j : ℕ) → j < i + n → bit a j ≡ bit b j)
    → check_path a b i n ≡ ok tt
unfolding check_path
check_path-Agree a b i zero h = refl
check_path-Agree a b i (suc n) h =
    let here : bit a i ≡ bit b i = h i (omega arith) in
    let rest = check_path-Agree a b (i + 1) n (λ j l. h j (omega arith)) in
    ground (arith, rest, (bool_eq_iff (bit a i) (bit b i)).1 here)

module _ (digest : Bytes → Hash256) where
  pub check_terminal-OnPath :
      (t : Terminal) (key : Hash256) (n : ℕ)
      → OnPath n key t
      → check_terminal digest t key n ≡ ok tt
  unfolding check_terminal
  check_terminal-OnPath Terminal.empty key n o = refl
  check_terminal-OnPath (Terminal.leaf k v) key n o =
      check_path-Agree k key 0 n (λ j l. sym (o j (omega arith)))

  -- The verifier reads the tree's hash off the tree's proof.
  pub reconstruct_root-tree :
      (key : Hash256) (t : Tree)
      → IsWalk digest 0 key t
      → reconstruct_root digest (tree_proof digest key t) key ≡ ok (tree_hash digest t)
  unfolding reconstruct_root
  reconstruct_root-tree key t w =
      let terminal = tree_terminal 0 key t in
      let siblings = tree_siblings digest 0 key t in
      let checked =
        check_terminal-OnPath terminal key (length siblings)
          (subst (λ n. OnPath n key terminal) (omega arith) w.on_path) in
      let climbed : climb digest key siblings (length siblings) (terminal_hash digest terminal)
          ≡ tree_hash digest t =
        climb-path digest key siblings (terminal_hash digest terminal) ∙ w.hashes in
      ground (arith, w.short, checked, climbed)

  check_shown :
      (e : Terminal) (k u : Hash256) → shown e k ≡ some u → check_value digest e k u ≡ ok tt
  unfolding check_value
  check_shown Terminal.empty k u h = absurd (cc)
  check_shown (Terminal.leaf j x) k u h = ground (arith, bytes_eq_refl u)

  -- A key with a value is proved to have it, and one without is proved to have none.
  pub tree_proof-verifies :
      (key v : Hash256) (t : Tree)
      → IsWalk digest 0 key t
      → tree_get 0 key t ≡ some v
      → verify_inclusion_hashed digest (tree_proof digest key t) (tree_hash digest t) key v ≡ ok tt
  unfolding verify_inclusion_hashed
  tree_proof-verifies key v t w g =
      let root = reconstruct_root-tree key t w in
      let found = check_shown (tree_terminal 0 key t) key v (sym (tree_get-terminal 0 key t) ∙ g) in
      ground (arith, root, bytes_eq_refl (tree_hash digest t), found)

  check_none : (e : Terminal) (k : Hash256) → shown e k ≡ none → check_absent digest e k ≡ ok tt
  unfolding check_absent
  check_none Terminal.empty k h = refl
  check_none (Terminal.leaf j x) k h = ground arith

  pub tree_proof-absent :
      (key : Hash256) (t : Tree)
      → IsWalk digest 0 key t
      → tree_get 0 key t ≡ none
      → verify_non_inclusion digest (tree_proof digest key t) (tree_hash digest t) key ≡ ok tt
  unfolding verify_non_inclusion
  tree_proof-absent key t w g =
      let root = reconstruct_root-tree key t w in
      let missing = check_none (tree_terminal 0 key t) key (sym (tree_get-terminal 0 key t) ∙ g) in
      ground (arith, root, bytes_eq_refl (tree_hash digest t), missing)

module _ (digest : Bytes → Hash256) {P : Node → Type 0} (apart : NoClash digest P) where
  prove_loop-leaf :
      (left depth : ℕ) (key k v : Hash256) (ns : Nodes) (acc : List Hash256)
      → Finds digest ns (Node.leaf k v)
      → prove_loop left depth key ns acc (node_hash digest (Node.leaf k v))
        ≡ some (record { siblings = acc; terminal = Terminal.leaf k v })
  unfolding prove_loop
  prove_loop-leaf zero depth key k v ns acc f = ground arith
  prove_loop-leaf (suc left) depth key k v ns acc f = ground arith

  prove_loop-empty :
      (left depth : ℕ) (key : Hash256) (ns : Nodes) (acc : List Hash256)
      → get zero_hash ns ≡ none
      → prove_loop left depth key ns acc zero_hash
        ≡ some (record { siblings = acc; terminal = Terminal.empty })
  unfolding prove_loop
  prove_loop-empty zero depth key ns acc f = ground arith
  prove_loop-empty (suc left) depth key ns acc f = ground arith

  prove_loop-node :
      (left depth : ℕ) (key l r : Hash256) (ns : Nodes) (acc : List Hash256)
      → Finds digest ns (Node.internal l r)
      → prove_loop (suc left) depth key ns acc (node_hash digest (Node.internal l r))
        ≡ prove_loop left (depth + 1) key ns (acc ++ away key depth l r ∷ []) (toward key depth l r)
  unfolding prove_loop
  prove_loop-node left depth key l r ns acc f = ground arith

  pub prove_loop-tree :
      (left depth : ℕ) (key : Hash256) (t : Tree) (ns : Nodes) (acc : List Hash256)
      → left + depth ≡ max_depth
      → Fits depth t
      → Holds digest ns t
      → IsStore digest P ns
      → prove_loop left depth key ns acc (tree_hash digest t)
        ≡ some (record {
          siblings = acc ++ tree_siblings digest depth key t;
          terminal = tree_terminal depth key t;
        })
  unfolding tree_siblings tree_terminal tree_hash
  prove_loop-tree left depth key Tree.empty ns acc b f h s =
      prove_loop-empty left depth key ns acc (get-zero digest apart ns s) ∙ rw append-nil refl
  prove_loop-tree left depth key (Tree.leaf k v) ns acc b f h s =
      prove_loop-leaf left depth key k v ns acc h ∙ rw append-nil refl
  prove_loop-tree zero depth key (Tree.node l r) ns acc b f h s = absurd (omega (arith, f.0))
  prove_loop-tree (suc left) depth key (Tree.node l r) ns acc b f h s =
      prove_loop-node left depth key (tree_hash digest l) (tree_hash digest r) ns acc h.0
      ∙ elim (Bool-cases (bit key depth)) [
        | inl q ↦ rw q (
            prove_loop-tree left (depth + 1) key r ns (acc ++ tree_hash digest l ∷ []) (omega arith)
              f.4 h.2 s
            ∙ rw append_assoc refl)
        | inr q ↦ rw q (
            prove_loop-tree left (depth + 1) key l ns (acc ++ tree_hash digest r ∷ []) (omega arith)
              f.3 h.1 s
            ∙ rw append_assoc refl)
      ]
