-- ===== src/Rbtree/Search/Iterate.antt =====
-- The iteration of btmod/bt/lib/rbtree.c over the sequence of the tree, in both directions.
use btkernel.Base.{
  ℕ, ◌<◌, ◌≡◌, sym, ap, ◌∙◌, ◌≢◌, Bool, none, some, List, [], ◌∷◌, ◌++◌, append_assoc, arith, if_ne,
  length, ◌>>=◌, ok,
}
use btkernel.Rbtree.{Rbtree, nil}
use btkernel.Rbtree.Shape.{Tree, leaf, node, inorder}
use btkernel.Rbtree.Place.{size}
use btkernel.Rbtree.Order.{size-inorder}
use btkernel.Rbtree.Insert.{HoldsTree}
use btkernel.Rbtree.Sequence.{Represents}
use btkernel.Rbtree.Search.{
  minimum, maximum, predecessor, rbtree_begin, rbtree_rbegin, rbtree_next, rbtree_prev, rbtree_end,
  or_null,
}
use btkernel.Rbtree.Search.Climb.{first, last, last-behind, minimum-first, maximum-last}
use btkernel.Rbtree.Search.Neighbours.{successor-first, predecessor-last, element-ne}

least_at :
    (rounds : ℕ) (t : Rbtree) (tree : Tree) (a : ℕ) (xs : List ℕ)
    → size tree < rounds
    → HoldsTree t tree
    → inorder tree ≡ a ∷ xs
    → minimum rounds t t.root ≡ ok a
least_at rounds t leaf a xs le held here = absurd (cc)
least_at rounds t (node l b c r) a xs le held here =
    ap (minimum rounds t) held.is.0
    ∙ minimum-first rounds t nil l b c r (omega arith) (omega (arith, held.apart.1)) held.is.1
    ∙ ap (λ w. ok (first w)) here

greatest_at :
    (rounds : ℕ) (t : Rbtree) (tree : Tree) (z : ℕ) (xs : List ℕ)
    → size tree < rounds
    → HoldsTree t tree
    → inorder tree ≡ xs ++ z ∷ []
    → maximum rounds t t.root ≡ ok z
greatest_at rounds t leaf z [] le held here = absurd (cc)
greatest_at rounds t leaf z (x ∷ xs) le held here = absurd (cc)
greatest_at rounds t (node l b c r) z xs le held here =
    ap (maximum rounds t) held.is.0
    ∙ maximum-last rounds t nil l b c r (omega arith) (omega (arith, held.apart.1)) held.is.1
    ∙ ap (λ w. ok (last w)) here
    ∙ ap ok (last-behind xs [] z)

or_null-some : (a : ℕ) → a ≢ nil → or_null a ≡ some a
or_null-some a ne = if_ne a nil none (some a) ne

module _ (less : ℕ → ℕ → Bool) (rounds : ℕ) (t : Rbtree) (xs : List ℕ) (le : length xs < rounds)
    (rep : Represents less t xs) where
  sized : size rep.tree < rounds
  sized = let h = size-inorder rep.tree in let k = ap length rep.elements in omega arith

  -- Where the fields hold a red-black tree with the elements `xs`, and `a` and `b` are next to each
  -- other in `xs`, `rbtree_next` goes from `a` to `b` and `rbtree_prev` from `b` to `a`, each with
  -- one round more than there are elements.
  pub rbtree_next-Represents :
      (pre : List ℕ) (a b : ℕ) (post : List ℕ)
      → xs ≡ pre ++ a ∷ b ∷ post
      → (rbtree_next rounds t a ≡ ok (some b)) × (rbtree_prev rounds t b ≡ ok (some a))
  unfolding rbtree_next rbtree_prev
  rbtree_next-Represents pre a b post split =
      let here = rep.elements ∙ split in
      let there : inorder rep.tree ≡ (pre ++ a ∷ []) ++ b ∷ post =
        here ∙ sym (append_assoc pre (a ∷ []) (b ∷ post)) in
      let some_a =
        or_null-some a (element-ne rounds t rep.tree pre a (b ∷ post) sized rep.held here) in
      let some_b =
        or_null-some b (element-ne rounds t rep.tree (pre ++ a ∷ []) b post sized rep.held there) in
      let next = successor-first rounds t rep.tree pre a (b ∷ post) sized rep.held here in
      let prev : predecessor rounds t b ≡ ok a =
        predecessor-last rounds t rep.tree (pre ++ a ∷ []) b post sized rep.held there
        ∙ ap ok (last-behind pre [] a) in
      (rw (next, ◌>>=◌) (ap ok some_b), rw (prev, ◌>>=◌) (ap ok some_a))

  pub rbtree_next-last :
      (pre : List ℕ) (z : ℕ) → xs ≡ pre ++ z ∷ [] → rbtree_next rounds t z ≡ ok none
  unfolding rbtree_next
  rbtree_next-last pre z split =
      let there = rep.elements ∙ split in
      let next = successor-first rounds t rep.tree pre z [] sized rep.held there in rw (next, ◌>>=◌)

  -- Where the fields hold a red-black tree with the elements `xs`, the first of which is `a` and
  -- the last `z`, `rbtree_begin` returns `a` and `rbtree_rbegin` returns `z`, and `rbtree_prev` of
  -- `a` and `rbtree_next` of `z` return `NULL`, each with one round more than there are elements.
  pub rbtree_begin-Represents :
      (a : ℕ) (post : List ℕ) (pre : List ℕ) (z : ℕ)
      → xs ≡ a ∷ post
      → xs ≡ pre ++ z ∷ []
      → (rbtree_begin rounds t ≡ ok (some a))
        × (rbtree_prev rounds t a ≡ ok none)
        × (rbtree_rbegin rounds t ≡ ok (some z))
        × (rbtree_next rounds t z ≡ ok (rbtree_end t))
  unfolding rbtree_begin rbtree_rbegin rbtree_next rbtree_prev
  rbtree_begin-Represents a post pre z start end =
      let here = rep.elements ∙ start in
      let there = rep.elements ∙ end in
      let some_a = or_null-some a (element-ne rounds t rep.tree [] a post sized rep.held here) in
      let some_z = or_null-some z (element-ne rounds t rep.tree pre z [] sized rep.held there) in
      let next = successor-first rounds t rep.tree pre z [] sized rep.held there in
      let prev = predecessor-last rounds t rep.tree [] a post sized rep.held here in
      let min = least_at rounds t rep.tree a post sized rep.held here in
      let max = greatest_at rounds t rep.tree z pre sized rep.held there in
      (
        rw (min, ◌>>=◌) (ap ok some_a),
        rw (prev, ◌>>=◌),
        rw (max, ◌>>=◌) (ap ok some_z),
        rw (next, ◌>>=◌),
      )
