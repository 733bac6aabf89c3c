-- ===== src/Fraudproof/Verifier/Division.antt =====
-- crates/sena-fraudproof/src/verifier.rs: the commitments of a division, ends included.
use sena.Primitives.Hash256.{Hash256}
use sena.Base.{
  ℕ, List, length, ◌<◌, map, ◌≤◌, ◌≡◌, get_or, ◌++◌, ◌+◌, ◌∷◌, ◌-◌, take, ap, suc, [], arith, drop,
  ◌∙◌, zero, refl, sym,
}
use mathlib.Core.Path.{ap₂}

-- A list is its elements but the last, and the last.
take_last : (n : ℕ) (ys : List ℕ) → length ys ≡ n + 1 → take n ys ++ get_or ys n 0 ∷ [] ≡ ys
take_last n [] h = absurd (omega (arith, h))
take_last zero (y ∷ []) h = refl
take_last zero (y ∷ z ∷ ys) h = absurd (omega (arith, h))
take_last (suc n) (y ∷ ys) h = ap (λ t. y ∷ t) (take_last n ys (omega (arith, h)))

pub get_or-map :
    (f : ℕ → Hash256) (xs : List ℕ) (i : ℕ) (d : Hash256)
    → i < length xs
    → get_or (map f xs) i d ≡ f (get_or xs i 0)
get_or-map f [] i d h = elim h [ ]
get_or-map f (x ∷ xs) zero d h = refl
get_or-map f (x ∷ xs) (suc i) d h = get_or-map f xs i d (omega (arith, h))

map-append : (f : ℕ → Hash256) (xs ys : List ℕ) → map f (xs ++ ys) ≡ map f xs ++ map f ys
map-append f [] ys = refl
map-append f (x ∷ xs) ys = ap (λ t. f x ∷ t) (map-append f xs ys)

pub commit_ends :
    (f : ℕ → Hash256) (xs : List ℕ) (a b : Hash256)
    → 2 ≤ length xs
    → a ≡ f (get_or xs 0 0)
    → b ≡ f (get_or xs (length xs - 1) 0)
    → a ∷ (map f (take (length xs - 2) (drop 1 xs)) ++ b ∷ []) ≡ map f xs
commit_ends f [] a b l p q = absurd (omega (arith, l))
commit_ends f (x ∷ ys) a b l p q =
    let n = length ys - 1 in
    let shorter : suc (length ys) - 2 ≡ n = omega arith in
    let at_end : suc (length ys) - 1 ≡ suc n = omega (arith, l) in
    let q' : b ≡ f (get_or ys n 0) = q ∙ ap (λ k. f (get_or (x ∷ ys) k 0)) at_end in
    ap₂ (λ h t. h ∷ t) p
      (ap (λ k. map f (take k ys) ++ b ∷ []) shorter
        ∙ ap (λ z. map f (take n ys) ++ z ∷ []) q'
        ∙ sym (map-append f (take n ys) (get_or ys n 0 ∷ []))
        ∙ ap (map f) (take_last n ys (omega (arith, l))))
