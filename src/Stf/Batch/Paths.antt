-- ===== src/Stf/Batch/Paths.antt =====
-- crates/sena-stf/src/batch.rs: the path of a leaf leads to the root.
use sena.Primitives.Hash256.{Bytes, Hash256, zero_hash}
use sena.Base.{
  ℕ, ◌<◌, ◌≤◌, length, ◌^◌, ◌≡◌, List, arith, ◌+◌, ◌*◌, get_or, get_elem?, ◌∷◌, suc, subst, ap,
  if◌then◌else◌, some, zero, Bool-cases, ◌%◌, ltb, ◌++◌, [], refl, leb, ◌==◌, false, get_elem?-lt,
  ◌/◌, true, max, inl, ◌-◌, inr, length-append, sym, ◌∙◌,
}
use native.Mathlib.Nat.{pow-suc, one-le-pow}
use sena.Stf.Batch.{
  LeafProof, next_power, fill, sibling_index, batch_node, root_from, root_for, leaf_hash,
  leaf_hashes, pair_up, levels_above, build, top_hash, batch_root, siblings_from, prove_leaf,
}

pow_gt : (n : ℕ) → n < 2 ^ n
pow_gt zero = omega arith
pow_gt (suc n) = omega (arith, pow_gt n, pow-suc 2 n)

-- The width of the lowest level is a power of two that is large enough.
next_power_lem :
    (fuel j n : ℕ)
    → n ≤ 2 ^ (j + fuel)
    → (k : ℕ) × (next_power fuel (2 ^ j) n ≡ 2 ^ k) × (n ≤ 2 ^ k)
unfolding next_power
next_power_lem zero j n h = (j, refl, subst (λ t. n ≤ 2 ^ t) (omega arith) h)
next_power_lem (suc fuel) j n h =
    let next : 2 * 2 ^ j ≡ 2 ^ suc j = omega (arith, pow-suc 2 j) in
    let (k, e, l) = next_power_lem fuel (suc j) n (subst (λ t. n ≤ 2 ^ t) (omega arith) h) in
    elim (Bool-cases (leb n (2 ^ j))) [
      | inl done ↦ (j, ground (arith, done), ground (arith, done))
      | inr more ↦ (k, ground (arith, more, next, e), l)
    ]

length-fill : (n : ℕ) → length (fill n) ≡ n
unfolding fill
length-fill zero = refl
length-fill (suc n) = ap suc (length-fill n)

module _ (digest : Bytes → Hash256) where
  length-pair_up :
      (m : ℕ) (level : List Hash256) → length level ≡ 2 * m → length (pair_up digest level) ≡ m
  unfolding pair_up
  length-pair_up m [] h = omega (arith, h)
  length-pair_up m (a ∷ []) h = absurd (omega (arith, h))
  length-pair_up zero (a ∷ b ∷ left) h = absurd (omega (arith, h))
  length-pair_up (suc m) (a ∷ b ∷ left) h = ap suc (length-pair_up m left (omega (arith, h)))

  get_or-pair_up :
      (j : ℕ) (level : List Hash256)
      → 2 * j + 1 < length level
      → get_or (pair_up digest level) j zero_hash
        ≡ batch_node digest (get_or level (2 * j) zero_hash) (get_or level (2 * j + 1) zero_hash)
  unfolding pair_up
  get_or-pair_up j [] h = absurd (omega (arith, h))
  get_or-pair_up j (a ∷ []) h = absurd (omega (arith, h))
  get_or-pair_up zero (a ∷ b ∷ left) h = refl
  get_or-pair_up (suc j) (a ∷ b ∷ left) h =
      let e : 2 * suc j ≡ suc (suc (2 * j)) = omega arith in
      let e' : 2 * suc j + 1 ≡ suc (suc (2 * j + 1)) = omega arith in
      rw (e', e) (get_or-pair_up j left (omega (arith, h)))

  -- One level of the path: the node above, from a node and its sibling.
  step_up :
      (i m : ℕ) (level : List Hash256)
      → length level ≡ 2 * m
      → i < 2 * m
      → (if i % 2 == 0
          then batch_node digest
              (get_or level i zero_hash)
              (get_or level (sibling_index i) zero_hash)
          else batch_node digest
              (get_or level (sibling_index i) zero_hash)
              (get_or level i zero_hash))
        ≡ get_or (pair_up digest level) (i / 2) zero_hash
  unfolding sibling_index
  step_up i m level l h =
      let up = get_or-pair_up (i / 2) level (omega (arith, l, h)) in
      elim (Bool-cases (i % 2 == 0)) [
        | inl even ↦ let e : 2 * (i / 2) ≡ i = ground (arith, even) in ground (arith, even, e, up)
        | inr odd ↦
            let e : 2 * (i / 2) + 1 ≡ i = ground (arith, odd) in
            let e' : 2 * (i / 2) ≡ i - 1 = ground (arith, odd) in ground (arith, odd, e, e', up)
      ]

  levels_above-wide :
      (fuel : ℕ) (level : List Hash256)
      → ltb 1 (length level) ≡ true
      → levels_above digest (suc fuel) level
        ≡ pair_up digest level ∷ levels_above digest fuel (pair_up digest level)
  unfolding levels_above
  levels_above-wide fuel level wide = rw wide refl

  path_up :
      (k fuel i : ℕ) (level : List Hash256)
      → length level ≡ 2 ^ k
      → k ≤ fuel
      → i < 2 ^ k
      → root_from digest
          (get_or level i zero_hash)
          i
          (siblings_from level (levels_above digest fuel level) i)
        ≡ top_hash level (levels_above digest fuel level)
  unfolding root_from siblings_from levels_above top_hash
  path_up zero zero i level l e h = let first : i ≡ 0 = omega (arith, h) in rw first refl
  path_up zero (suc fuel) i level l e h =
      let first : i ≡ 0 = omega (arith, h) in
      let single : ltb 1 (length level) ≡ false = ground (arith, l) in rw (single, first) refl
  path_up (suc k) zero i level l e h = absurd (omega (arith, e))
  path_up (suc k) (suc fuel) i level l e h =
      let p = pow-suc 2 k in
      let one = one-le-pow 2 k in
      let wide : ltb 1 (length level) ≡ true = ground (arith, l, p, one) in
      let double : length level ≡ 2 * 2 ^ k = omega (arith, l, p) in
      let above =
        path_up k fuel (i / 2) (pair_up digest level) (length-pair_up (2 ^ k) level double)
          (omega (arith, e)) (omega (arith, h, p)) in
      let s = step_up i (2 ^ k) level double (omega (arith, h, p)) in
      let rest = levels_above digest fuel (pair_up digest level) in
      subst
        (λ t.
          root_from digest (get_or level i zero_hash) i (siblings_from level t i)
          ≡ top_hash level t)
        (sym (levels_above-wide fuel level wide))
        (ap (λ t. root_from digest t (i / 2) (siblings_from (pair_up digest level) rest (i / 2))) s
          ∙ above)

  get_or-leaves :
      (n i : ℕ) (leaves : List (ℕ × Bytes)) (start_pc : ℕ) (tx_bytes : Bytes) (ys : List Hash256)
      → get_elem? leaves i ≡ some (start_pc, tx_bytes)
      → get_or (leaf_hashes digest n leaves ++ ys) i zero_hash
        ≡ leaf_hash digest (n + i) start_pc tx_bytes
  unfolding leaf_hashes
  get_or-leaves n i [] start_pc tx_bytes ys e = absurd (cc)
  get_or-leaves n zero ((s, b) ∷ left) start_pc tx_bytes ys e = ground arith
  get_or-leaves n (suc i) ((s, b) ∷ left) start_pc tx_bytes ys e =
      let shift : n + suc i ≡ suc n + i = omega arith in
      rw shift (get_or-leaves (suc n) i left start_pc tx_bytes ys e)

  length-leaf_hashes :
      (n : ℕ) (leaves : List (ℕ × Bytes)) → length (leaf_hashes digest n leaves) ≡ length leaves
  unfolding leaf_hashes
  length-leaf_hashes n [] = refl
  length-leaf_hashes n (leaf ∷ left) = ap suc (length-leaf_hashes (suc n) left)

  -- Each transaction of a batch has a path, which leads from its leaf hash to the root of the tree
  -- that is built over the batch.
  pub prove_leaf-build :
      (leaves : List (ℕ × Bytes)) (i start_pc : ℕ) (tx_bytes : Bytes)
      → get_elem? leaves i ≡ some (start_pc, tx_bytes)
      → (p : LeafProof) × (prove_leaf (build digest leaves) i ≡ some p)
        × (root_for digest p (leaf_hash digest i start_pc tx_bytes)
            ≡ batch_root (build digest leaves))
  unfolding prove_leaf build root_for batch_root
  prove_leaf-build leaves i start_pc tx_bytes e =
      let hashes = leaf_hashes digest 0 leaves in
      let size = length-leaf_hashes 0 leaves in
      let inside = get_elem?-lt leaves i (start_pc, tx_bytes) e in
      let enough : max (length hashes) 1 ≤ 2 ^ (0 + length hashes) =
        subst (λ t. max (length hashes) 1 ≤ 2 ^ t) {x = length hashes} (omega arith)
          (omega (arith, pow_gt (length hashes))) in
      let (k, w, n) = next_power_lem (length hashes) 0 (max (length hashes) 1) enough in
      let width = next_power (length hashes) 1 (max (length hashes) 1) in
      let level = hashes ++ fill (width - length hashes) in
      let full : length level ≡ 2 ^ k = omega (
        arith,
        length-append hashes (fill (width - length hashes)),
        length-fill (width - length hashes),
        w,
        n,
      ) in
      let path =
        path_up k width i level full (omega (arith, pow_gt k, w))
          (omega (arith, n, size, inside)) in
      let leaf = get_or-leaves 0 i leaves start_pc tx_bytes (fill (width - length hashes)) e in
      let z : 0 + i ≡ i = omega arith in
      let sibs = siblings_from level (levels_above digest width level) i in
      (
        record { index = i; siblings = sibs },
        ground (arith, size, inside),
        ap (λ t. root_from digest t i sibs)
              (sym (leaf ∙ ap (λ t. leaf_hash digest t start_pc tx_bytes) z))
            ∙ path,
      )
