-- ===== src/Rbtree/Fix.antt =====
-- Insertion into a red-black tree as a function on trees, which the loops of `node_insert` and
-- `rb_insert` of btmod/bt/lib/rbtree.c carry out on the fields.
use btkernel.Base.{ℕ, Bool, true, false, [], ◌∷◌}
use btkernel.Rbtree.{black, red, is_red}
use btkernel.Rbtree.Shape.{Tree, leaf, node, in_left, in_right, Steps, plug}

abbrev pub is_red_tree : Tree → Bool
is_red_tree leaf = false
is_red_tree (node l a c r) = is_red c

abbrev pub blacken : Tree → Tree
blacken leaf = leaf
blacken (node l a c r) = node l a black r

-- The surroundings of the place where `x` goes.
abbrev pub place : (ℕ → ℕ → Bool) → ℕ → Tree → Steps → Steps
place less x leaf steps = steps
place less x (node l a c r) steps = elim (less a x) [
  | true ↦ place less x r (in_right l a c ∷ steps)
  | false ↦ place less x l (in_left a c r ∷ steps)
]

-- The whole tree after the loop, where the focus is the red node `x` with its subtrees. A red parent
-- at the root does not occur.
abbrev pub fix : Steps → Tree → ℕ → Tree → Tree
fix [] tl x tr = node tl x red tr
fix (in_left p black s ∷ steps) tl x tr = plug (in_left p black s ∷ steps) (node tl x red tr)
fix (in_right s p black ∷ steps) tl x tr = plug (in_right s p black ∷ steps) (node tl x red tr)
fix (in_left p red s ∷ []) tl x tr = plug (in_left p red s ∷ []) (node tl x red tr)
fix (in_right s p red ∷ []) tl x tr = plug (in_right s p red ∷ []) (node tl x red tr)
fix (in_left p red s ∷ in_left g d u ∷ steps) tl x tr = elim (is_red_tree u) [
  | true ↦ fix steps (node (node tl x red tr) p black s) g (blacken u)
  | false ↦ plug steps (node (node tl x red tr) p black (node s g red u))
]
fix (in_right s p red ∷ in_left g d u ∷ steps) tl x tr = elim (is_red_tree u) [
  | true ↦ fix steps (node s p black (node tl x red tr)) g (blacken u)
  | false ↦ plug steps (node (node s p red tl) x black (node tr g red u))
]
fix (in_right s p red ∷ in_right u g d ∷ steps) tl x tr = elim (is_red_tree u) [
  | true ↦ fix steps (blacken u) g (node s p black (node tl x red tr))
  | false ↦ plug steps (node (node u g red s) p black (node tl x red tr))
]
fix (in_left p red s ∷ in_right u g d ∷ steps) tl x tr = elim (is_red_tree u) [
  | true ↦ fix steps (blacken u) g (node (node tl x red tr) p black s)
  | false ↦ plug steps (node (node u g red tl) x black (node tr p red s))
]

-- The tree after the insertion of `x`.
abbrev pub insert : (ℕ → ℕ → Bool) → ℕ → Tree → Tree
insert less x tree = blacken (fix (place less x tree []) leaf x leaf)
