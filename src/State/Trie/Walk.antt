-- ===== src/State/Trie/Walk.antt =====
-- crates/sena-state/src/trie.rs: the proof that a walk down the tree gives, and that the verifier
-- accepts it.
use sena.State.Trie.Branch.{tree_hash-fork}
use sena.State.Trie.Grow.{Agree-step}
use sena.State.Trie.Shape.{Fits, AllKeys, fork_right, AllKeys-both, fork_left}
use sena.State.Proof.Path.{path}
use sena.Primitives.Hash256.Bits.{Agree}
use sena.Primitives.Hash256.{Bytes, Hash256, bit, bytes_eq}
use sena.State.Trie.Tree.{tree_get, Tree, tree_hash, fork}
use sena.State.Proof.{Terminal, MerkleProof, terminal_hash, max_depth, branch}
use sena.Base.{
  ℕ, Option, if◌then◌else◌, none, ◌≡◌, List, ◌+◌, Bool-cases, [], length, some, ◌∷◌, ◌≤◌, inl, inr,
  suc, refl, subst, arith, ap, ◌∙◌, true, sym, false,
}
use sena.State.Node.{node_hash}

-- Where the walk for a key ends.
unfoldable pub tree_terminal : ℕ → Hash256 → Tree → Terminal
tree_terminal depth key Tree.empty = Terminal.empty
tree_terminal depth key (Tree.leaf k v) = Terminal.leaf k v
tree_terminal depth key (Tree.node l r) =
    if bit key depth then tree_terminal (depth + 1) key r else tree_terminal (depth + 1) key l

-- The value that a terminal shows for the key.
abbrev pub shown : Terminal → Hash256 → Option Hash256
shown Terminal.empty key = none
shown (Terminal.leaf k v) key = if bytes_eq k key then some v else none

-- The terminal's key has the key's bits above the level.
abbrev pub OnPath : ℕ → Hash256 → Terminal → Type 0
OnPath n key Terminal.empty = Unit
OnPath n key (Terminal.leaf k v) = Agree n key k

pub tree_get-terminal :
    (depth : ℕ) (key : Hash256) (t : Tree)
    → tree_get depth key t ≡ shown (tree_terminal depth key t) key
unfolding tree_get tree_terminal
tree_get-terminal depth key Tree.empty = refl
tree_get-terminal depth key (Tree.leaf k v) = refl
tree_get-terminal depth key (Tree.node l r) = elim (Bool-cases (bit key depth)) [
  | inl q ↦ rw q (tree_get-terminal (depth + 1) key r)
  | inr q ↦ rw q (tree_get-terminal (depth + 1) key l)
]

module _ (digest : Bytes → Hash256) where
  -- The hashes beside the walk, the root's first.
  unfoldable pub tree_siblings : ℕ → Hash256 → Tree → List Hash256
  tree_siblings depth key Tree.empty = []
  tree_siblings depth key (Tree.leaf k v) = []
  tree_siblings depth key (Tree.node l r) =
      if bit key depth
      then tree_hash digest l ∷ tree_siblings (depth + 1) key r
      else tree_hash digest r ∷ tree_siblings (depth + 1) key l

  -- The proof that the tree gives.
  abbrev pub tree_proof : Hash256 → Tree → MerkleProof
  tree_proof key t = record { siblings = tree_siblings 0 key t; terminal = tree_terminal 0 key t }

  -- What the walk shows, from a level on.
  pub record IsWalk (depth : ℕ) (key : Hash256) (t : Tree) : Type 0 where
    pub short : depth + length (tree_siblings depth key t) ≤ max_depth
    pub hashes :
        path digest key depth
          (tree_siblings depth key t)
          (terminal_hash digest (tree_terminal depth key t))
        ≡ tree_hash digest t
    pub on_path :
        OnPath (depth + length (tree_siblings depth key t)) key (tree_terminal depth key t)

  node-IsWalk :
      (depth : ℕ) (key : Hash256) (l r on off : Tree)
      → tree_siblings depth key (Tree.node l r)
        ≡ tree_hash digest off ∷ tree_siblings (depth + 1) key on
      → tree_terminal depth key (Tree.node l r) ≡ tree_terminal (depth + 1) key on
      → fork key depth off on ≡ Tree.node l r
      → IsWalk (depth + 1) key on
      → IsWalk depth key (Tree.node l r)
  unfolding path
  node-IsWalk depth key l r on off s t w d = record {
    short = rw s (omega (arith, d.short));
    hashes =
        rw (s, t)
          (ap (λ h. node_hash digest (branch key depth (tree_hash digest off) h)) (hashes_at d)
            ∙ sym (tree_hash-fork digest key depth off on)
            ∙ ap (tree_hash digest) w);
    on_path =
        rw (s, t)
          (subst (λ n. OnPath n key (tree_terminal (depth + 1) key on)) (omega arith) d.on_path);
  }
    where
      hashes_at :
          IsWalk (depth + 1) key on
          → path digest key
              (suc depth)
              (tree_siblings (depth + 1) key on)
              (terminal_hash digest (tree_terminal (depth + 1) key on))
            ≡ tree_hash digest on
      hashes_at x =
          subst
            (λ n.
              path digest key n (tree_siblings (depth + 1) key on)
                (terminal_hash digest (tree_terminal (depth + 1) key on))
              ≡ tree_hash digest on)
            (omega arith) x.hashes

  pub tree-IsWalk :
      (depth : ℕ) (key : Hash256) (t : Tree)
      → depth ≤ max_depth
      → Fits depth t
      → AllKeys (Agree depth key) t
      → IsWalk depth key t
  unfolding tree_siblings tree_terminal path terminal_hash tree_hash
  tree-IsWalk depth key Tree.empty h f a = record {
    short = omega arith;
    hashes = refl;
    on_path = tt;
  }
  tree-IsWalk depth key (Tree.leaf k v) h f a = record {
    short = omega arith;
    hashes = refl;
    on_path = subst (λ n. Agree n key k) (omega arith) a;
  }
  tree-IsWalk depth key (Tree.node l r) h f a = elim (Bool-cases (bit key depth)) [
    | inl q ↦ node-IsWalk depth key l r r l (rw q refl) (rw q refl) (fork_right key depth l r q) (
        tree-IsWalk (depth + 1) key r (omega (arith, f.0)) f.4 (
          AllKeys-both (Agree depth key) (λ k. bit k depth ≡ true) (Agree (depth + 1) key) r
            (λ k p e. Agree-step depth key k p (q ∙ sym e)) a.1 f.2))
    | inr q ↦ node-IsWalk depth key l r l r (rw q refl) (rw q refl) (fork_left key depth l r q) (
        tree-IsWalk (depth + 1) key l (omega (arith, f.0)) f.3 (
          AllKeys-both (Agree depth key) (λ k. bit k depth ≡ false) (Agree (depth + 1) key) l
            (λ k p e. Agree-step depth key k p (q ∙ sym e)) a.0 f.1))
  ]
