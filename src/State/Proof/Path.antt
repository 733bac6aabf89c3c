-- ===== src/State/Proof/Path.antt =====
-- crates/sena-state/src/proof.rs: the root that a proof implies, read from the root downwards.
use sena.State.Node.{node_hash}
use sena.State.Proof.{climb, branch}
use sena.Base.{
  List, ℕ, get_or, ◌∷◌, ◌++◌, length, ◌≡◌, ◌+◌, arith, [], suc, ap, refl, length-append, subst, ◌∙◌,
}
use sena.Primitives.Hash256.{Bytes, Hash256, zero_hash}
use mathlib.Core.List.{append_assoc}

-- The root over a path of siblings, root first, that ends in the hash `t` at the deepest level.
unfoldable pub path : (Bytes → Hash256) → Hash256 → ℕ → List Hash256 → Hash256 → Hash256
path digest key level [] t = t
path digest key level (s ∷ ss) t =
    node_hash digest (branch key level s (path digest key (suc level) ss t))

get_or-append : (pre ss : List Hash256) (s d : Hash256) → get_or (pre ++ s ∷ ss) (length pre) d ≡ s
get_or-append [] ss s d = refl
get_or-append (x ∷ pre) ss s d = get_or-append pre ss s d

module _ (digest : Bytes → Hash256) (key : Hash256) where
  climb-append :
      (ss pre : List Hash256) (k : ℕ) (t : Hash256)
      → length pre + length ss ≡ k
      → climb digest key (pre ++ ss) k t
        ≡ climb digest key (pre ++ ss) (length pre) (path digest key (length pre) ss t)
  unfolding climb path
  climb-append [] pre k t h =
      let e : k ≡ length pre = omega arith in ap (λ n. climb digest key (pre ++ []) n t) e
  climb-append (s ∷ ss) pre k t h =
      let pre' = pre ++ s ∷ [] in
      let l : length pre' ≡ suc (length pre) = omega (arith, length-append pre (s ∷ [])) in
      let whole : pre' ++ ss ≡ pre ++ s ∷ ss = append_assoc pre (s ∷ []) ss in
      let ih = climb-append ss pre' k t (omega (arith, l)) in
      let ih' =
        subst
          (λ w.
            climb digest key w k t
            ≡ climb digest key w (length pre') (path digest key (length pre') ss t))
          whole ih in
      subst
        (λ n.
          climb digest key (pre ++ s ∷ ss) k t
          ≡ climb digest key (pre ++ s ∷ ss) n (path digest key n ss t))
        l ih'
      ∙ ap
          (λ x. climb digest key (pre ++ s ∷ ss) (length pre) (
            node_hash digest (branch key (length pre) x (path digest key (suc (length pre)) ss t))))
          (get_or-append pre ss s zero_hash)

  -- The source's loop computes the path's root.
  pub climb-path :
      (ss : List Hash256) (t : Hash256) → climb digest key ss (length ss) t ≡ path digest key 0 ss t
  unfolding climb
  climb-path ss t = climb-append ss [] (length ss) t (omega arith)
