-- ===== src/State/Trie/Insert.antt =====
-- crates/sena-state/src/trie.rs: an insertion into a tree whose keys part by their bits.
use sena.Primitives.Hash256.Bits.{Agree}
use sena.State.Trie.{toward, away}
use sena.State.Proof.{max_depth}
use sena.State.Trie.Grow.{
  Grown, Parted, Fits-fork, IsCompact-fork, weight-fork, AllKeys-fork, get-fork, bits_differ,
  tree_split-Parted, Agree-step,
}
use sena.State.Trie.Shape.{Fits, AllKeys, IsCompact, weight, AllKeys-both}
use sena.Primitives.Hash256.{Hash256, IsHash, bit, bytes_eq, bytes_eq_iff, bytes_eq_refl}
use sena.State.Trie.Tree.{fork, tree_get, tree_insert, Tree}
use sena.Base.{
  ℕ, Bool, ◌≡◌, if◌then◌else◌, Option, ◌+◌, ◌<◌, arith, some, not, Bool-cases, refl, ◌≤◌, inl, true,
  subst, false, ◌∙◌, sym, bool_eq, ap, inr, ◌≢◌, suc, zero,
}

-- The two subtrees of a node, by the side that the key is on.
record Sides (depth : ℕ) (key : Hash256) (l r on off : Tree) : Type 1 where
  whole : fork key depth off on ≡ Tree.node l r
  on_keys : AllKeys (λ k. bit k depth ≡ bit key depth) on
  off_keys : AllKeys (λ k. bit k depth ≡ not (bit key depth)) off
  on_fits : Fits (depth + 1) on
  off_fits : Fits (depth + 1) off
  on_compact : IsCompact on
  off_compact : IsCompact off
  both : 2 ≤ weight off + weight on
  keys : (Q : Hash256 → Type 0) → AllKeys Q (Tree.node l r) → AllKeys Q on × AllKeys Q off

abbrev either : Bool → Tree → Tree → Tree
either b s c = if b then Tree.node s c else Tree.node c s

-- The same, with the bit as a variable.
record SidesAt (depth : ℕ) (b : Bool) (l r on off : Tree) : Type 1 where
  whole : either b off on ≡ Tree.node l r
  on_keys : AllKeys (λ k. bit k depth ≡ b) on
  off_keys : AllKeys (λ k. bit k depth ≡ not b) off
  on_fits : Fits (depth + 1) on
  off_fits : Fits (depth + 1) off
  on_compact : IsCompact on
  off_compact : IsCompact off
  both : 2 ≤ weight off + weight on
  keys : (Q : Hash256 → Type 0) → AllKeys Q (Tree.node l r) → AllKeys Q on × AllKeys Q off

sides_at :
    (depth : ℕ) (b : Bool) (l r : Tree)
    → Fits depth (Tree.node l r)
    → IsCompact (Tree.node l r)
    → SidesAt depth b l r (if b then r else l) (if b then l else r)
sides_at depth true l r f c = record {
  whole = refl;
  on_keys = f.2;
  off_keys = f.1;
  on_fits = f.4;
  off_fits = f.3;
  on_compact = c.2;
  off_compact = c.1;
  both = c.0;
  keys = λ Q a. (a.1, a.0);
}
sides_at depth false l r f c = record {
  whole = refl;
  on_keys = f.1;
  off_keys = f.2;
  on_fits = f.3;
  off_fits = f.4;
  on_compact = c.1;
  off_compact = c.2;
  both = omega (arith, c.0);
  keys = λ Q a. a;
}

sides :
    (depth : ℕ) (key : Hash256) (l r : Tree)
    → Fits depth (Tree.node l r)
    → IsCompact (Tree.node l r)
    → Sides depth key l r (toward key depth l r) (away key depth l r)
unfolding fork
sides depth key l r f c =
    let s = sides_at depth (bit key depth) l r f c in
    record {
      whole = s.whole;
      on_keys = s.on_keys;
      off_keys = s.off_keys;
      on_fits = s.on_fits;
      off_fits = s.off_fits;
      on_compact = s.on_compact;
      off_compact = s.off_compact;
      both = s.both;
      keys = s.keys;
    }

leaf-Grown :
    (depth : ℕ) (key v w : Hash256)
    → IsHash key
    → Grown depth key v (Tree.leaf key w) (some (Tree.leaf key v))
unfolding tree_get
leaf-Grown depth key v w h = record {
  after = Tree.leaf key v;
  result = refl;
  fits = h;
  compact = tt;
  heavy = omega arith;
  filled = omega arith;
  keys = λ Q q a. q;
  gets = λ other. ground arith;
}

empty-Grown :
    (depth : ℕ) (key v : Hash256)
    → IsHash key
    → Grown depth key v Tree.empty (some (Tree.leaf key v))
unfolding tree_get
empty-Grown depth key v h = record {
  after = Tree.leaf key v;
  result = refl;
  fits = h;
  compact = tt;
  heavy = omega arith;
  filled = omega arith;
  keys = λ Q q a. q;
  gets = λ other. refl;
}

-- A leaf of another key parts from the new one.
Grown-of_Parted :
    (depth : ℕ) (key v k w : Hash256) (r : Option Tree)
    → Parted depth key v k w r
    → Grown depth key v (Tree.leaf k w) r
unfolding tree_get
Grown-of_Parted depth key v k w r p = record {
  after = p.after;
  result = p.result;
  fits = p.fits;
  compact = p.compact;
  heavy = omega (arith, p.two);
  filled = omega (arith, p.two);
  keys = λ Q q a. p.keys Q q a;
  gets = p.gets;
}

-- A subtree that has grown under its parent.
fork-Grown :
    (depth : ℕ) (key v : Hash256) (l r on off : Tree) (g : Option Tree)
    → depth < max_depth
    → Sides depth key l r on off
    → (d : Grown (depth + 1) key v on g)
    → Grown depth key v (Tree.node l r) (some (fork key depth off d.after))
fork-Grown depth key v l r on off g h s d = record {
  after = fork key depth off d.after;
  result = refl;
  fits =
      Fits-fork key depth off d.after h s.off_keys
        (d.keys (λ k. bit k depth ≡ bit key depth) refl s.on_keys) s.off_fits d.fits;
  compact =
      IsCompact-fork key depth off d.after (omega (arith, s.both, d.heavy)) s.off_compact d.compact;
  heavy = omega (arith, weight-fork key depth off d.after);
  filled = omega (arith, weight-fork key depth off d.after);
  keys = λ Q q a. AllKeys-fork Q key depth off d.after (s.keys Q a).1 (d.keys Q q (s.keys Q a).0);
  gets = λ other.
      get-fork key other depth off d.after
      ∙ elim (Bool-cases (bool_eq (bit key depth) (bit other depth))) [
        | inl q ↦
            let old : tree_get depth other (Tree.node l r) ≡ tree_get (depth + 1) other on =
              ap (tree_get depth other) (sym s.whole)
              ∙ get-fork key other depth off on
              ∙ rw q refl in
            rw (q, old) (d.gets other)
        | inr q ↦
            let old : tree_get depth other (Tree.node l r) ≡ tree_get (depth + 1) other off =
              ap (tree_get depth other) (sym s.whole)
              ∙ get-fork key other depth off on
              ∙ rw q refl in
            rw (q, old, bits_differ depth key other q) refl
      ];
}

-- Setting a 32-byte key in a tree whose keys part by their bits, and share the key's bits above it,
-- never runs past the last bit.
pub tree_insert-Grown :
    (left depth : ℕ) (key v : Hash256) (t : Tree)
    → left + depth ≡ max_depth
    → IsHash key
    → Fits depth t
    → IsCompact t
    → AllKeys (Agree depth key) t
    → Grown depth key v t (tree_insert left depth key v t)
unfolding tree_insert
tree_insert-Grown left depth key v Tree.empty l h f c a = empty-Grown depth key v h
tree_insert-Grown left depth key v (Tree.leaf k w) l h f c a = elim (Bool-cases (bytes_eq k key)) [
  | inl q ↦
      let same = (bytes_eq_iff k key).0 q in
      subst (λ x. Grown depth key v (Tree.leaf x w) (tree_insert left depth key v (Tree.leaf x w)))
        (sym same) (rw (bytes_eq_refl key) (leaf-Grown depth key v w h))
  | inr q ↦
      let other : key ≢ k = λ e. ground (arith, bytes_eq_iff k key, e) in
      rw q
        (Grown-of_Parted depth key v k w _ (tree_split-Parted left depth key v k w l h f other a))
]
tree_insert-Grown zero depth key v (Tree.node l r) b h f c a = absurd (omega (arith, f.0))
tree_insert-Grown (suc left) depth key v (Tree.node l r) b h f c a =
    let s = sides depth key l r f c in
    let on = toward key depth l r in
    let off = away key depth l r in
    let agree : AllKeys (Agree (depth + 1) key) on =
      AllKeys-both (Agree depth key) (λ k. bit k depth ≡ bit key depth) (Agree (depth + 1) key) on
        (λ k p q. Agree-step depth key k p (sym q)) (s.keys (Agree depth key) a).0 s.on_keys in
    let d =
      tree_insert-Grown left (depth + 1) key v on (omega arith) h s.on_fits s.on_compact agree in
    rw (d.result, tree_insert) (fork-Grown depth key v l r on off _ f.0 s d)
