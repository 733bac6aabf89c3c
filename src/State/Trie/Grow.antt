-- ===== src/State/Trie/Grow.antt =====
-- crates/sena-state/src/trie.rs: what an insertion does to the tree.
use sena.State.Proof.{max_depth}
use sena.State.Trie.Shape.{AllKeys, weight, IsCompact, Fits}
use sena.Primitives.Hash256.Bits.{Agree, hash_ext}
use sena.Primitives.Hash256.{Hash256, bit, IsHash, bytes_eq, bytes_eq_iff}
use sena.State.Trie.Tree.{fork, tree_get, tree_split, Tree}
use sena.Base.{
  ℕ, Option, ◌+◌, ◌≡◌, ◌≤◌, ◌<◌, some, arith, if◌then◌else◌, Bool-cases, not, bool_eq, ltb, Bool,
  ◌≢◌, inl, none, true, inr, subst, false, suc, bool_eq_iff, sym, ◌∙◌, zero, refl, ap,
}
use mathlib.Core.Bool.{true≢false}

-- The tree after `key` was set to `v` in `t`.
pub record Grown (depth : ℕ) (key v : Hash256) (t : Tree) (r : Option Tree) : Type 1 where
  pub after : Tree
  pub result : r ≡ some after
  pub fits : Fits depth after
  pub compact : IsCompact after
  pub heavy : weight t ≤ weight after
  pub filled : 1 ≤ weight after
  pub keys : (Q : Hash256 → Type 0) → Q key → AllKeys Q t → AllKeys Q after
  pub gets :
      (other : Hash256)
      → tree_get depth other after ≡ (if bytes_eq key other then some v else tree_get depth other t)

-- The tree of two keys, as `split` builds it.
pub record Parted (depth : ℕ) (ka va kb vb : Hash256) (r : Option Tree) : Type 1 where
  pub after : Tree
  pub result : r ≡ some after
  pub fits : Fits depth after
  pub compact : IsCompact after
  pub two : weight after ≡ 2
  pub keys : (Q : Hash256 → Type 0) → Q ka → Q kb → AllKeys Q after
  pub gets :
      (other : Hash256)
      → tree_get depth other after
        ≡ (if bytes_eq ka other then some va else if bytes_eq kb other then some vb else none)

pub AllKeys-fork :
    (Q : Hash256 → Type 0) (key : Hash256) (depth : ℕ) (s c : Tree)
    → AllKeys Q s
    → AllKeys Q c
    → AllKeys Q (fork key depth s c)
unfolding fork
AllKeys-fork Q key depth s c as' ac = ground arith

pub weight-fork : (key : Hash256) (depth : ℕ) (s c : Tree) → weight (fork key depth s c) ≡ 2
unfolding fork
weight-fork key depth s c = ground arith

pub IsCompact-fork :
    (key : Hash256) (depth : ℕ) (s c : Tree)
    → 2 ≤ weight s + weight c
    → IsCompact s
    → IsCompact c
    → IsCompact (fork key depth s c)
unfolding fork
IsCompact-fork key depth s c h cs ct = go (bit key depth)
  where
    go : (b : Bool) → IsCompact (if b then Tree.node s c else Tree.node c s)
    go true = (h, cs, ct)
    go false = (omega arith, ct, cs)

-- The sibling's keys have the other bit, the child's have the key's.
pub Fits-fork :
    (key : Hash256) (depth : ℕ) (s c : Tree)
    → depth < max_depth
    → AllKeys (λ k. bit k depth ≡ not (bit key depth)) s
    → AllKeys (λ k. bit k depth ≡ bit key depth) c
    → Fits (depth + 1) s
    → Fits (depth + 1) c
    → Fits depth (fork key depth s c)
unfolding fork
Fits-fork key depth s c h os oc fs fc = go (bit key depth) os oc
  where
    go :
        (b : Bool)
        → AllKeys (λ k. bit k depth ≡ not b) s
        → AllKeys (λ k. bit k depth ≡ b) c
        → Fits depth (if b then Tree.node s c else Tree.node c s)
    go true a a' = (h, a, a', fs, fc)
    go false a a' = (h, a', a, fc, fs)

pub get-fork :
    (key other : Hash256) (depth : ℕ) (s c : Tree)
    → tree_get depth other (fork key depth s c) ≡ (
        if bool_eq (bit key depth) (bit other depth)
        then tree_get (depth + 1) other c
        else tree_get (depth + 1) other s)
unfolding tree_get fork
get-fork key other depth s c = ground arith

pub Agree-step :
    (depth : ℕ) (a b : Hash256)
    → Agree depth a b
    → bit a depth ≡ bit b depth
    → Agree (depth + 1) a b
Agree-step depth a b h e i l = elim (Bool-cases (ltb i depth)) [
  | inl q ↦ h i (ground arith)
  | inr q ↦ let same : depth ≡ i = ground arith in subst (λ j. bit a j ≡ bit b j) same e
]

not_eq : (b : Bool) → bool_eq (not b) b ≡ false
not_eq true = refl
not_eq false = refl

-- Keys with different bits are different.
pub bits_differ :
    (depth : ℕ) (a b : Hash256) → bool_eq (bit a depth) (bit b depth) ≡ false → bytes_eq a b ≡ false
bits_differ depth a b h = elim (Bool-cases (bytes_eq a b)) [
  | inl q ↦
      let same : bit a depth ≡ bit b depth = ap (λ k. bit k depth) ((bytes_eq_iff a b).0 q) in
      absurd (true≢false (sym ((bool_eq_iff _ _).1 same) ∙ h))
  | inr q ↦ q
]

-- What a value is read from on either side of a branch.
abbrev pair_get : Hash256 → Hash256 → Hash256 → Hash256 → Hash256 → Option Hash256
pair_get ka va kb vb other =
    if bytes_eq ka other then some va else if bytes_eq kb other then some vb else none

deeper_gets :
    (depth : ℕ) (ka va kb vb other : Hash256) (c : Tree)
    → bit ka depth ≡ bit kb depth
    → tree_get (depth + 1) other c ≡ pair_get ka va kb vb other
    → tree_get depth other (fork ka depth Tree.empty c) ≡ pair_get ka va kb vb other
unfolding tree_get
deeper_gets depth ka va kb vb other c same g =
    get-fork ka other depth Tree.empty c
    ∙ elim (Bool-cases (bool_eq (bit ka depth) (bit other depth))) [
      | inl q ↦ rw q g
      | inr q ↦
          let off_b : bool_eq (bit kb depth) (bit other depth) ≡ false = rw (← same) q in
          rw (q, bits_differ depth ka other q, bits_differ depth kb other off_b) refl
    ]

parted_gets :
    (depth : ℕ) (ka va kb vb other : Hash256)
    → bit kb depth ≡ not (bit ka depth)
    → tree_get depth other (fork ka depth (Tree.leaf kb vb) (Tree.leaf ka va))
      ≡ pair_get ka va kb vb other
unfolding tree_get
parted_gets depth ka va kb vb other differ =
    get-fork ka other depth (Tree.leaf kb vb) (Tree.leaf ka va)
    ∙ elim (Bool-cases (bool_eq (bit ka depth) (bit other depth))) [
      | inl q ↦
          let same : bit ka depth ≡ bit other depth = (bool_eq_iff _ _).0 q in
          let off_b : bool_eq (bit kb depth) (bit other depth) ≡ false =
            rw (differ, same) (not_eq (bit other depth)) in
          rw (q, bits_differ depth kb other off_b) refl
      | inr q ↦ rw (q, bits_differ depth ka other q) refl
    ]

pub tree_split-Parted :
    (left depth : ℕ) (ka va kb vb : Hash256)
    → left + depth ≡ max_depth
    → IsHash ka
    → IsHash kb
    → ka ≢ kb
    → Agree depth ka kb
    → Parted depth ka va kb vb (tree_split left depth ka va kb vb)
unfolding tree_split
tree_split-Parted zero depth ka va kb vb l ha hb n a =
    absurd (n (hash_ext ka kb ha hb (subst (λ d. Agree d ka kb) (omega arith) a)))
tree_split-Parted (suc left) depth ka va kb vb l ha hb n a =
    elim (Bool-cases (bool_eq (bit ka depth) (bit kb depth))) [
      | inl q ↦
          let same : bit ka depth ≡ bit kb depth = (bool_eq_iff _ _).0 q in
          let d =
            tree_split-Parted left (depth + 1) ka va kb vb (omega arith) ha hb n
              (Agree-step depth ka kb a same) in
          record {
            after = fork ka depth Tree.empty d.after;
            result = ground (arith, d.result);
            fits =
                Fits-fork ka depth Tree.empty d.after (omega arith) tt
                  (d.keys (λ k. bit k depth ≡ bit ka depth) refl (sym same)) tt d.fits;
            compact =
                IsCompact-fork ka depth Tree.empty d.after (omega (arith, d.two)) tt d.compact;
            two = weight-fork ka depth Tree.empty d.after;
            keys = λ Q qa qb. AllKeys-fork Q ka depth Tree.empty d.after tt (d.keys Q qa qb);
            gets = λ other. deeper_gets depth ka va kb vb other d.after same (d.gets other);
          }
      | inr q ↦
          let differ : bit kb depth ≡ not (bit ka depth) = ground arith in
          record {
            after = fork ka depth (Tree.leaf kb vb) (Tree.leaf ka va);
            result = ground arith;
            fits =
                Fits-fork ka depth (Tree.leaf kb vb) (Tree.leaf ka va) (omega arith) differ refl hb
                  ha;
            compact =
                IsCompact-fork ka depth (Tree.leaf kb vb) (Tree.leaf ka va) (omega arith) tt tt;
            two = weight-fork ka depth (Tree.leaf kb vb) (Tree.leaf ka va);
            keys = λ Q qa qb. AllKeys-fork Q ka depth (Tree.leaf kb vb) (Tree.leaf ka va) qb qa;
            gets = λ other. parted_gets depth ka va kb vb other differ;
          }
    ]
