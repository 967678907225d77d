-- ===== src/Rbtree/Sequence.antt =====
-- What the red-black tree of btmod/bt/lib/rbtree.c promises: a sorted sequence of elements.
use btkernel.Base.{
  ℕ, ◌+◌, ◌<◌, ◌≡◌, refl, sym, ap, ◌∙◌, subst, ◌≢◌, Bool, List, [], ◌∷◌, ◌++◌, arith, if_ne, length,
  All, ok,
}
use btkernel.Rbtree.{Rbtree, nil, rbtree_init, rbtree_insert}
use btkernel.Rbtree.Shape.{Tree, leaf, node, one, occ, inorder, one_self}
use btkernel.Rbtree.Fix.{insert}
use btkernel.Rbtree.Place.{size}
use btkernel.Rbtree.Balance.{IsBalanced, insert-IsBalanced}
use btkernel.Rbtree.Order.{IsOrder, Sorted, insert_sorted, insert-Sorted, All-split, size-inorder}
use btkernel.Rbtree.Order.Fixed.{inorder-insert}
use btkernel.Rbtree.Insert.{HoldsTree, rbtree_insert-HoldsTree}

-- The fields hold a red-black tree with these elements in this order.
pub record Represents (less : ℕ → ℕ → Bool) (t : Rbtree) (xs : List ℕ) : Type 0 where
  pub tree : Tree
  pub held : HoldsTree t tree
  pub balanced : IsBalanced tree
  pub elements : inorder tree ≡ xs
  pub sorted : Sorted less xs

occ-absent : (x : ℕ) (t : Tree) → All (λ y. x ≢ y) (inorder t) → occ x t ≡ 0
occ-absent x leaf h = refl
occ-absent x (node l a c r) h =
    let (hl, ha, hr) = All-split (λ y. x ≢ y) (inorder l) (inorder r) a h in
    let other : one x a ≡ 0 = if_ne x a 1 0 ha in
    let el = occ-absent x l hl in let er = occ-absent x r hr in omega arith

pub rbtree_init-Represents : (less : ℕ → ℕ → Bool) (t : Rbtree) → Represents less (rbtree_init t) []
unfolding rbtree_init
rbtree_init-Represents less t = record {
  tree = leaf;
  held = record { is = (refl, tt); apart = ((λ x. omega arith), omega arith); dark = refl };
  balanced = tt;
  elements = refl;
  sorted = tt;
}

-- Where the fields hold a red-black tree whose elements are sorted, the comparison is asymmetric
-- and its negation transitive on these and the new element, and the new element is neither the
-- sentinel nor one of them, `rbtree_insert` returns with one round more than there are elements.
-- The fields then hold a red-black tree again, with no red child of a red node, as many black nodes
-- on each way down and a black root, every link to a parent in place, whose sorted elements are the
-- old ones and the new one, which stands behind those that are less than it and before all others.
pub rbtree_insert-Represents :
    (less : ℕ → ℕ → Bool) (On : ℕ → Type 0) (rounds : ℕ) (t : Rbtree) (xs : List ℕ) (x : ℕ)
    → IsOrder less On
    → All On (x ∷ xs)
    → x ≢ nil
    → All (λ y. x ≢ y) xs
    → length xs < rounds
    → Represents less t xs
    → (u : Rbtree) × (rbtree_insert less rounds t x ≡ ok u)
      × Represents less u (insert_sorted less x xs)
rbtree_insert-Represents less On rounds t xs x order (x_on, on) some_x new le rep =
    let out = occ-absent x rep.tree (subst (All (λ y. x ≢ y)) (sym rep.elements) new) in
    let sized : size rep.tree ≡ length xs = sym (size-inorder rep.tree) ∙ ap length rep.elements in
    let (u, run, held) =
      rbtree_insert-HoldsTree less rounds t rep.tree x some_x out (omega arith) rep.held in
    let listed : inorder (insert less x rep.tree) ≡ insert_sorted less x xs =
      inorder-insert less On order x rep.tree x_on (subst (All On) (sym rep.elements) on)
        (subst (Sorted less) (sym rep.elements) rep.sorted)
      ∙ ap (insert_sorted less x) rep.elements in
    (
      u,
      run,
      record {
        tree = insert less x rep.tree;
        held = held;
        balanced = insert-IsBalanced less x rep.tree rep.held.dark rep.balanced;
        elements = listed;
        sorted = insert-Sorted less On order x x_on xs on rep.sorted;
      },
    )

count : ℕ → List ℕ → ℕ
count y [] = 0
count y (x ∷ xs) = one y x + count y xs

count-append : (y : ℕ) (xs ys : List ℕ) → count y (xs ++ ys) ≡ count y xs + count y ys
unfolding count
count-append y [] ys = omega arith
count-append y (x ∷ xs) ys = let h = count-append y xs ys in omega arith

count-inorder : (y : ℕ) (t : Tree) → count y (inorder t) ≡ occ y t
unfolding count
count-inorder y leaf = refl
count-inorder y (node l a c r) =
    let h = count-append y (inorder l) (a ∷ inorder r) in
    let k = count-inorder y l in let m = count-inorder y r in omega arith

-- Neighbours in the sequence are different.
pub Represents-distinct :
    (less : ℕ → ℕ → Bool) (t : Rbtree) (xs pre post : List ℕ) (a b : ℕ)
    → Represents less t xs
    → xs ≡ pre ++ a ∷ b ∷ post
    → a ≢ b
unfolding count
Represents-distinct less t xs pre post a b rep split same =
    let here = ap (count a) (rep.elements ∙ split) in
    let k = count-append a pre (a ∷ b ∷ post) in
    let m = count-inorder a rep.tree in
    let once = rep.held.apart.0 a in
    let self = one_self a in let again = subst (λ v. one a v ≡ 1) same (one_self a) in omega arith
