-- ===== src/State/Trie/Shape.antt =====
-- crates/sena-state/src/trie.rs: which trees stand for a trie.
use sena.State.Proof.{max_depth}
use sena.State.Trie.Tree.{Tree, tree_get, fork}
use sena.Base.{ℕ, ◌≤◌, ◌≡◌, ◌+◌, ◌<◌, some, arith, false, true, Bool-cases, inl, inr, refl}
use sena.Primitives.Hash256.{Hash256, IsHash, bit, bytes_eq_iff}

-- The keys of a tree satisfy a predicate.
abbrev pub AllKeys : (Hash256 → Type 0) → Tree → Type 0
AllKeys Q Tree.empty = Unit
AllKeys Q (Tree.leaf k v) = Q k
AllKeys Q (Tree.node l r) = AllKeys Q l × AllKeys Q r

-- At a node the keys part by their bit at its depth.
abbrev pub Fits : ℕ → Tree → Type 0
Fits depth Tree.empty = Unit
Fits depth (Tree.leaf k v) = IsHash k
Fits depth (Tree.node l r) =
    (depth < max_depth)
    × AllKeys (λ k. bit k depth ≡ false) l
    × AllKeys (λ k. bit k depth ≡ true) r
    × Fits (depth + 1) l
    × Fits (depth + 1) r

-- The number of keys, counted up to two.
abbrev pub weight : Tree → ℕ
weight Tree.empty = 0
weight (Tree.leaf k v) = 1
weight (Tree.node l r) = 2

-- A node stands over two keys at least, so that a leaf is as shallow as it can be.
abbrev pub IsCompact : Tree → Type 0
IsCompact Tree.empty = Unit
IsCompact (Tree.leaf k v) = Unit
IsCompact (Tree.node l r) = (2 ≤ weight l + weight r) × IsCompact l × IsCompact r

pub weight_two : (t : Tree) → 1 < weight t → weight t ≡ 2
weight_two Tree.empty h = absurd (omega arith)
weight_two (Tree.leaf k v) h = absurd (omega arith)
weight_two (Tree.node l r) h = refl

pub AllKeys-map :
    (Q R : Hash256 → Type 0) (t : Tree) → ((k : Hash256) → Q k → R k) → AllKeys Q t → AllKeys R t
AllKeys-map Q R Tree.empty f a = tt
AllKeys-map Q R (Tree.leaf k v) f a = f k a
AllKeys-map Q R (Tree.node l r) f a = (AllKeys-map Q R l f a.0, AllKeys-map Q R r f a.1)

-- A key that is found is one of the tree's.
pub get-AllKeys :
    (Q : Hash256 → Type 0) (depth : ℕ) (key v : Hash256) (t : Tree)
    → AllKeys Q t
    → tree_get depth key t ≡ some v
    → Q key
unfolding tree_get
get-AllKeys Q depth key v Tree.empty a e = absurd (cc)
get-AllKeys Q depth key v (Tree.leaf k w) a e = ground (arith, bytes_eq_iff k key)
get-AllKeys Q depth key v (Tree.node l r) a e = elim (Bool-cases (bit key depth)) [
  | inl q ↦ get-AllKeys Q (depth + 1) key v r a.1 (ground arith)
  | inr q ↦ get-AllKeys Q (depth + 1) key v l a.0 (ground arith)
]

pub AllKeys-both :
    (Q R S : Hash256 → Type 0) (t : Tree)
    → ((k : Hash256) → Q k → R k → S k)
    → AllKeys Q t
    → AllKeys R t
    → AllKeys S t
AllKeys-both Q R S Tree.empty f a b = tt
AllKeys-both Q R S (Tree.leaf k v) f a b = f k a b
AllKeys-both Q R S (Tree.node l r) f a b =
    (AllKeys-both Q R S l f a.0 b.0, AllKeys-both Q R S r f a.1 b.1)

pub fork_right :
    (key : Hash256) (depth : ℕ) (l r : Tree)
    → bit key depth ≡ true
    → fork key depth l r ≡ Tree.node l r
unfolding fork
fork_right key depth l r q = rw q refl

pub fork_left :
    (key : Hash256) (depth : ℕ) (l r : Tree)
    → bit key depth ≡ false
    → fork key depth r l ≡ Tree.node l r
unfolding fork
fork_left key depth l r q = rw q refl
