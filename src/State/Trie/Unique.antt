-- ===== src/State/Trie/Unique.antt =====
-- crates/sena-state/src/trie.rs: one set of keys with their values has one tree.
use mathlib.Core.Path.{ap₂}
use sena.State.Trie.Shape.{AllKeys, Fits, IsCompact, get-AllKeys, weight, weight_two}
use sena.Primitives.Hash256.{Hash256, bit, bytes_eq_refl, bytes_eq_iff}
use sena.State.Trie.Tree.{tree_get, Tree}
use sena.Base.{
  Bool, ℕ, ◌≡◌, ◌≢◌, not, some, ◌+◌, false, true, none, ◌<◌, arith, Bool-cases, refl, Option-cases,
  ltb, sym, inl, ◌&&◌, ◌∙◌, inr, ap,
}
use mathlib.Core.Bool.{false≢true}

-- A key with the other bit is not found.
get_off :
    (b : Bool) (depth d : ℕ) (key : Hash256) (t : Tree)
    → AllKeys (λ k. bit k depth ≡ b) t
    → bit key depth ≡ not b
    → tree_get d key t ≡ none
get_off b depth d key t a h = elim (Option-cases (tree_get d key t)) [
  | inl e ↦ e
  | inr (v, e) ↦ let on = get-AllKeys (λ k. bit k depth ≡ b) d key v t a e in absurd (ground arith)
]

-- A key that the tree holds.
record Found (depth : ℕ) (t : Tree) : Type 0 where
  key : Hash256
  value : Hash256
  found : tree_get depth key t ≡ some value

get_in_left :
    (depth : ℕ) (l r : Tree) (key v : Hash256)
    → Fits depth (Tree.node l r)
    → tree_get (depth + 1) key l ≡ some v
    → tree_get depth key (Tree.node l r) ≡ some v
unfolding tree_get
get_in_left depth l r key v f e =
    let off = get-AllKeys (λ k. bit k depth ≡ false) (depth + 1) key v l f.1 e in ground arith

get_in_right :
    (depth : ℕ) (l r : Tree) (key v : Hash256)
    → Fits depth (Tree.node l r)
    → tree_get (depth + 1) key r ≡ some v
    → tree_get depth key (Tree.node l r) ≡ some v
unfolding tree_get
get_in_right depth l r key v f e =
    let on = get-AllKeys (λ k. bit k depth ≡ true) (depth + 1) key v r f.2 e in ground arith

has_key : (depth : ℕ) (t : Tree) → Fits depth t → IsCompact t → 0 < weight t → Found depth t
unfolding tree_get
has_key depth Tree.empty f c h = absurd (omega arith)
has_key depth (Tree.leaf k v) f c h = record {
  key = k;
  value = v;
  found = ground (arith, bytes_eq_refl k);
}
has_key depth (Tree.node l r) f c h = elim (Bool-cases (ltb 0 (weight l))) [
  | inl p ↦
      let k = has_key (depth + 1) l f.3 c.1 (ground arith) in
      record { key = k.key; value = k.value; found = get_in_left depth l r k.key k.value f k.found }
  | inr z ↦
      let k = has_key (depth + 1) r f.4 c.2 (ground (arith, c.0)) in
      record {
        key = k.key;
        value = k.value;
        found = get_in_right depth l r k.key k.value f k.found;
      }
]

-- Two keys that the tree holds.
record FoundTwo (depth : ℕ) (t : Tree) : Type 0 where
  first : Found depth t
  second : Found depth t
  apart : first.key ≢ second.key

has_two : (depth : ℕ) (t : Tree) → Fits depth t → IsCompact t → weight t ≡ 2 → FoundTwo depth t
has_two depth Tree.empty f c h = absurd (omega arith)
has_two depth (Tree.leaf k v) f c h = absurd (omega arith)
has_two depth (Tree.node l r) f c h = elim (Bool-cases (ltb 0 (weight l) && ltb 0 (weight r))) [
  | inl p ↦
      let a = has_key (depth + 1) l f.3 c.1 (ground arith) in
      let b = has_key (depth + 1) r f.4 c.2 (ground arith) in
      let off = get-AllKeys (λ k. bit k depth ≡ false) (depth + 1) a.key a.value l f.1 a.found in
      let on = get-AllKeys (λ k. bit k depth ≡ true) (depth + 1) b.key b.value r f.2 b.found in
      record {
        first = record {
          key = a.key;
          value = a.value;
          found = get_in_left depth l r a.key a.value f a.found;
        };
        second = record {
          key = b.key;
          value = b.value;
          found = get_in_right depth l r b.key b.value f b.found;
        };
        apart = λ e. false≢true (sym off ∙ ap (λ k. bit k depth) e ∙ on);
      }
  | inr z ↦ elim (Bool-cases (ltb 1 (weight l))) [
    | inl p ↦
        let two = has_two (depth + 1) l f.3 c.1 (weight_two l (ground arith)) in
        record {
          first = record {
            key = two.first.key;
            value = two.first.value;
            found = get_in_left depth l r _ _ f two.first.found;
          };
          second = record {
            key = two.second.key;
            value = two.second.value;
            found = get_in_left depth l r _ _ f two.second.found;
          };
          apart = two.apart;
        }
    | inr q ↦
        let two = has_two (depth + 1) r f.4 c.2 (weight_two r (ground (arith, c.0))) in
        record {
          first = record {
            key = two.first.key;
            value = two.first.value;
            found = get_in_right depth l r _ _ f two.first.found;
          };
          second = record {
            key = two.second.key;
            value = two.second.value;
            found = get_in_right depth l r _ _ f two.second.found;
          };
          apart = two.apart;
        }
  ]
]

-- The trees hold the same values at every key.
abbrev pub SameContents : ℕ → Tree → Tree → Type 0
SameContents depth t u = (key : Hash256) → tree_get depth key t ≡ tree_get depth key u

no_key :
    (depth : ℕ) (t : Tree)
    → Fits depth t
    → IsCompact t
    → ((key : Hash256) → tree_get depth key t ≡ none)
    → weight t ≡ 0
no_key depth t f c h = elim (Bool-cases (ltb 0 (weight t))) [
  | inl p ↦ let k = has_key depth t f c (ground arith) in absurd (ground (arith, h k.key, k.found))
  | inr z ↦ ground arith
]

leaf_key : (depth : ℕ) (k v key w : Hash256) → tree_get depth key (Tree.leaf k v) ≡ some w → k ≡ key
unfolding tree_get
leaf_key depth k v key w e = ground (arith, bytes_eq_iff k key)

-- A tree with two keys is no leaf.
no_leaf :
    (depth : ℕ) (t : Tree) (k v : Hash256)
    → Fits depth t
    → IsCompact t
    → weight t ≡ 2
    → ¬ SameContents depth (Tree.leaf k v) t
no_leaf depth t k v f c h s =
    let two = has_two depth t f c h in
    two.apart (
      sym (leaf_key depth k v two.first.key two.first.value (s two.first.key ∙ two.first.found))
      ∙ leaf_key depth k v two.second.key two.second.value (s two.second.key ∙ two.second.found))

get_left :
    (depth : ℕ) (key : Hash256) (l r : Tree)
    → bit key depth ≡ false
    → tree_get depth key (Tree.node l r) ≡ tree_get (depth + 1) key l
unfolding tree_get
get_left depth key l r q = rw q refl

get_right :
    (depth : ℕ) (key : Hash256) (l r : Tree)
    → bit key depth ≡ true
    → tree_get depth key (Tree.node l r) ≡ tree_get (depth + 1) key r
unfolding tree_get
get_right depth key l r q = rw q refl

left_same :
    (depth : ℕ) (l r l' r' : Tree)
    → Fits depth (Tree.node l r)
    → Fits depth (Tree.node l' r')
    → SameContents depth (Tree.node l r) (Tree.node l' r')
    → SameContents (depth + 1) l l'
left_same depth l r l' r' f g s key = elim (Bool-cases (bit key depth)) [
  | inl q ↦
      get_off false depth (depth + 1) key l f.1 q
      ∙ sym (get_off false depth (depth + 1) key l' g.1 q)
  | inr q ↦ sym (get_left depth key l r q) ∙ s key ∙ get_left depth key l' r' q
]

right_same :
    (depth : ℕ) (l r l' r' : Tree)
    → Fits depth (Tree.node l r)
    → Fits depth (Tree.node l' r')
    → SameContents depth (Tree.node l r) (Tree.node l' r')
    → SameContents (depth + 1) r r'
right_same depth l r l' r' f g s key = elim (Bool-cases (bit key depth)) [
  | inl q ↦ sym (get_right depth key l r q) ∙ s key ∙ get_right depth key l' r' q
  | inr q ↦
      get_off true depth (depth + 1) key r f.2 q ∙ sym (get_off true depth (depth + 1) key r' g.2 q)
]

-- One set of keys with their values has one tree: the root does not depend on the writes'
-- order.
pub tree_unique :
    (depth : ℕ) (t u : Tree)
    → Fits depth t
    → Fits depth u
    → IsCompact t
    → IsCompact u
    → SameContents depth t u
    → t ≡ u
unfolding tree_get
tree_unique depth Tree.empty Tree.empty f g c d s = refl
tree_unique depth Tree.empty (Tree.leaf k v) f g c d s =
    absurd (omega (arith, no_key depth (Tree.leaf k v) g d (λ key. sym (s key))))
tree_unique depth Tree.empty (Tree.node l r) f g c d s =
    absurd (omega (arith, no_key depth (Tree.node l r) g d (λ key. sym (s key))))
tree_unique depth (Tree.leaf k v) Tree.empty f g c d s =
    absurd (omega (arith, no_key depth (Tree.leaf k v) f c s))
tree_unique depth (Tree.leaf k v) (Tree.leaf j w) f g c d s =
    let e = s k in
    let same : j ≡ k = ground (arith, bytes_eq_refl k, bytes_eq_iff j k) in
    ground (arith, bytes_eq_refl k, bytes_eq_iff j k)
tree_unique depth (Tree.leaf k v) (Tree.node l r) f g c d s =
    absurd (no_leaf depth (Tree.node l r) k v g d refl s)
tree_unique depth (Tree.node l r) Tree.empty f g c d s =
    absurd (omega (arith, no_key depth (Tree.node l r) f c s))
tree_unique depth (Tree.node l r) (Tree.leaf k v) f g c d s =
    absurd (no_leaf depth (Tree.node l r) k v f c refl (λ key. sym (s key)))
tree_unique depth (Tree.node l r) (Tree.node l' r') f g c d s =
    ap₂ Tree.node (tree_unique (depth + 1) l l' f.3 g.3 c.1 d.1 (left_same depth l r l' r' f g s))
      (tree_unique (depth + 1) r r' f.4 g.4 c.2 d.2 (right_same depth l r l' r' f g s))
