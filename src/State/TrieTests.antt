-- ===== src/State/TrieTests.antt =====
-- crates/sena-state/src/trie.rs: the theorems at a concrete trie, of two keys that part at the first
-- bit.
use sena.Primitives.Hash256.Order.{bytes_ord}
use sena.Base.{
  ◌∷◌, ◌≡◌, ℕ, [], ◌⊎◌, get_or, ◌≢◌, arith, inr, some, subst, List, refl, ap, inl, sym, ◌↔◌, ◌∙◌,
}
use sena.Primitives.Hash256.{Hash256, IsHash, zero_bytes, bytes_eq, bit}
use sena.Base.BTreeMap.{insert}
use sena.State.Trie.Walk.{tree_proof}
use sena.State.Trie.Tree.{Tree, tree_insert, tree_split, tree_hash}
use sena.State.Sample.{checksum, checksum-nonzero, zero_bytes-IsBytes}
use sena.State.Trie.{MerkleTrie, insert_value, new_trie}
use sena.State.Trie.Backs.{
  tree_set, Proves, Backs, insert_value-Backs, prove-Proves, new_trie-Backs, hash_of,
}
use sena.State.Trie.Writes.{Write, root_of_writes, run_inserts, last_write, AllWithin}
use sena.State.Trie.Store.{NoClash, Within, Keeps}
use sena.State.Node.{Node, node_hash, hash_value, preimage}

abbrev key_l : Hash256
key_l = zero_bytes 32

abbrev key_r : Hash256
key_r = 128 ∷ zero_bytes 31

abbrev leaf_l : Node
leaf_l = Node.leaf key_l (hash_value checksum (5 ∷ []))

abbrev leaf_r : Node
leaf_r = Node.leaf key_r (hash_value checksum (6 ∷ []))

abbrev top : Node
top = Node.internal (node_hash checksum leaf_l) (node_hash checksum leaf_r)

-- The nodes of the tries on the way.
abbrev IsHere : Node → Type 0
IsHere n = (n ≡ leaf_l) ⊎ (n ≡ leaf_r) ⊎ (n ≡ top)

-- The third byte of a node's hash.
abbrev third : Node → ℕ
third n = get_or (node_hash checksum n) 2 0

thirds : (third leaf_l ≡ 52) × (third leaf_r ≡ 8) × (third top ≡ 202)
unfolding node_hash hash_value sena.Primitives.Codec.to_be_bytes
thirds = (refl, refl, refl)

differ : (n m : Node) → third n ≢ third m → node_hash checksum n ≢ node_hash checksum m
differ n m d e = d (ap (λ h. get_or h 2 0) e)

l_r : node_hash checksum leaf_l ≢ node_hash checksum leaf_r
l_r = differ leaf_l leaf_r (λ e. absurd (omega (arith, thirds.0, thirds.1, e)))

l_top : node_hash checksum leaf_l ≢ node_hash checksum top
l_top = differ leaf_l top (λ e. absurd (omega (arith, thirds.0, thirds.2, e)))

r_top : node_hash checksum leaf_r ≢ node_hash checksum top
r_top = differ leaf_r top (λ e. absurd (omega (arith, thirds.1, thirds.2, e)))

distinct : (n m : Node) → IsHere n → IsHere m → node_hash checksum n ≡ node_hash checksum m → n ≡ m
distinct n m (inl p) (inl q) e = p ∙ sym q
distinct n m (inl p) (inr (inl q)) e =
    absurd (l_r (ap (node_hash checksum) (sym p) ∙ e ∙ ap (node_hash checksum) q))
distinct n m (inl p) (inr (inr q)) e =
    absurd (l_top (ap (node_hash checksum) (sym p) ∙ e ∙ ap (node_hash checksum) q))
distinct n m (inr (inl p)) (inl q) e =
    absurd (l_r (ap (node_hash checksum) (sym q) ∙ sym e ∙ ap (node_hash checksum) p))
distinct n m (inr (inl p)) (inr (inl q)) e = p ∙ sym q
distinct n m (inr (inl p)) (inr (inr q)) e =
    absurd (r_top (ap (node_hash checksum) (sym p) ∙ e ∙ ap (node_hash checksum) q))
distinct n m (inr (inr p)) (inl q) e =
    absurd (l_top (ap (node_hash checksum) (sym q) ∙ sym e ∙ ap (node_hash checksum) p))
distinct n m (inr (inr p)) (inr (inl q)) e =
    absurd (r_top (ap (node_hash checksum) (sym q) ∙ sym e ∙ ap (node_hash checksum) p))
distinct n m (inr (inr p)) (inr (inr q)) e = p ∙ sym q

apart : NoClash checksum IsHere
unfolding node_hash
apart = record { free = distinct; nonzero = λ n p. checksum-nonzero (preimage n) }

key_l-IsHash : IsHash key_l
key_l-IsHash = (refl, zero_bytes-IsBytes 32)

key_r-IsHash : IsHash key_r
key_r-IsHash = (refl, (omega arith, zero_bytes-IsBytes 31))

abbrev only_l : Tree
only_l = Tree.leaf key_l (hash_value checksum (5 ∷ []))

abbrev only_r : Tree
only_r = Tree.leaf key_r (hash_value checksum (6 ∷ []))

abbrev both : Tree
both = Tree.node only_l only_r

set_l : tree_set checksum key_l (5 ∷ []) Tree.empty ≡ only_l
unfolding tree_set tree_insert
set_l = refl

set_r : tree_set checksum key_r (6 ∷ []) Tree.empty ≡ only_r
unfolding tree_set tree_insert
set_r = refl

set_lr : tree_set checksum key_r (6 ∷ []) only_l ≡ both
unfolding tree_set tree_insert tree_split bytes_eq bit
set_lr = refl

set_rl : tree_set checksum key_l (5 ∷ []) only_r ≡ both
unfolding tree_set tree_insert tree_split bytes_eq bit
set_rl = refl

set_again : tree_set checksum key_r (6 ∷ []) both ≡ both
unfolding tree_set tree_insert bytes_eq bit
set_again = refl

both-Within : Within checksum IsHere both
unfolding tree_hash
both-Within = (inr (inr refl), inl refl, inr (inl refl))

-- The trie of the left key, from a write to the empty one.
first :
    (t : MerkleTrie) × (insert_value checksum key_l (5 ∷ []) new_trie ≡ some t)
    × (t.values ≡ insert key_l (5 ∷ []) new_trie.values)
    × Backs checksum IsHere t (tree_set checksum key_l (5 ∷ []) Tree.empty)
    × Keeps checksum new_trie.nodes t.nodes
first =
    insert_value-Backs checksum apart key_l (5 ∷ []) new_trie Tree.empty key_l-IsHash
      (new_trie-Backs checksum IsHere) (subst (Within checksum IsHere) (sym set_l) (inl refl))

first-Backs : Backs checksum IsHere first.0 only_l
first-Backs = subst (Backs checksum IsHere first.0) set_l first.3

insert_value-Backs_example :
    (trie' : MerkleTrie) × (insert_value checksum key_r (6 ∷ []) first.0 ≡ some trie')
    × (trie'.values ≡ insert key_r (6 ∷ []) first.0.values)
    × Backs checksum IsHere trie' (tree_set checksum key_r (6 ∷ []) only_l)
    × Keeps checksum first.0.nodes trie'.nodes
insert_value-Backs_example =
    insert_value-Backs checksum apart key_r (6 ∷ []) first.0 only_l key_r-IsHash first-Backs
      (subst (Within checksum IsHere) (sym set_lr) both-Within)

-- The trie of both keys.
second :
    (t : MerkleTrie) × (insert_value checksum key_r (6 ∷ []) first.0 ≡ some t)
    × (t.values ≡ insert key_r (6 ∷ []) first.0.values)
    × Backs checksum IsHere t (tree_set checksum key_r (6 ∷ []) only_l)
    × Keeps checksum first.0.nodes t.nodes
second =
    insert_value-Backs checksum apart key_r (6 ∷ []) first.0 only_l key_r-IsHash first-Backs
      (subst (Within checksum IsHere) (sym set_lr) both-Within)

prove-Proves_example : Proves checksum second.0 both key_l (tree_proof checksum key_l both)
prove-Proves_example =
    prove-Proves checksum apart key_l second.0 both key_l-IsHash
      (subst (Backs checksum IsHere second.0) set_lr second.3)

-- The two keys in one order, and in the other with the right one written again.
abbrev forward : List Write
forward = (key_l, 5 ∷ []) ∷ (key_r, 6 ∷ []) ∷ []

abbrev backward : List Write
backward = (key_r, 6 ∷ []) ∷ (key_l, 5 ∷ []) ∷ (key_r, 6 ∷ []) ∷ []

forward-AllWithin : AllWithin checksum IsHere forward Tree.empty
forward-AllWithin = (
  tt,
  subst
      (λ t. Within checksum IsHere t × Within checksum IsHere (tree_set checksum key_r (6 ∷ []) t))
      (sym set_l) (inl refl, subst (Within checksum IsHere) (sym set_lr) both-Within),
)

backward-AllWithin : AllWithin checksum IsHere backward Tree.empty
backward-AllWithin = (
  tt,
  subst (AllWithin checksum IsHere ((key_l, 5 ∷ []) ∷ (key_r, 6 ∷ []) ∷ [])) (sym set_r) (
    inr (inl refl),
    subst (AllWithin checksum IsHere ((key_r, 6 ∷ []) ∷ [])) (sym set_rl)
        (both-Within, subst (Within checksum IsHere) (sym set_again) both-Within),
  ),
)

root_of_writes_example :
    (a : MerkleTrie) × (b : MerkleTrie) × (run_inserts checksum forward new_trie ≡ some a)
    × (run_inserts checksum backward new_trie ≡ some b)
    × ((a.root ≡ b.root) ↔ (
        (key : Hash256)
        → hash_of checksum (last_write key forward) ≡ hash_of checksum (last_write key backward)))
root_of_writes_example =
    root_of_writes checksum apart forward backward (key_l-IsHash, (key_r-IsHash, tt))
      (key_r-IsHash, (key_l-IsHash, (key_r-IsHash, tt))) forward-AllWithin backward-AllWithin
