-- ===== src/Rbtree/Search/Neighbours.antt =====
-- `minimum`, `successor` and their mirrors in btmod/bt/lib/rbtree.c give neighbours in the
-- sequence.
use btkernel.Base.{
  ℕ, ◌+◌, ◌≤◌, ◌<◌, ◌≡◌, sym, ap, ◌∙◌, subst, ◌≢◌, false, List, [], ◌∷◌, ◌++◌, arith, ◌==◌, ==_ne,
  ok,
}
use mathlib.Core.List.{append-nil}
use btkernel.Rbtree.{Color, Rbtree, nil}
use btkernel.Rbtree.Shape.{
  Tree, leaf, node, Steps, above, plug, inorder, occ, occ_steps, Holds, HoldsSteps, Is,
}
use btkernel.Rbtree.Relink.{one-ne}
use btkernel.Rbtree.Place.{size}
use btkernel.Rbtree.Counts.{occ-plug}
use btkernel.Rbtree.Order.{before, behind}
use btkernel.Rbtree.Insert.{HoldsTree}
use btkernel.Rbtree.Search.{minimum, maximum, climb, successor, predecessor}
use btkernel.Rbtree.Focus.{At, locate, unplug-Is}
use btkernel.Rbtree.Search.Climb.{
  first, last, first-append, last-append, size-plug, minimum-first, maximum-last, climb_right-first,
  climb_left-last,
}

-- A held node in its surroundings, with enough rounds for the tree.
record Stands (rounds : ℕ) (t : Rbtree) (steps : Steps) (l : Tree) (a : ℕ) (c : Color) (r : Tree)
    : Type 0 where
  enough : size (plug steps (node l a c r)) < rounds
  apart : (y : ℕ) → occ_steps y steps + occ y (node l a c r) ≤ 1
  out : occ_steps nil steps + occ nil (node l a c r) ≡ 0
  around : HoldsSteps t a steps
  inside : Holds t (above steps) (node l a c r)

successor_at :
    (rounds : ℕ) (t : Rbtree) (steps : Steps) (l : Tree) (a : ℕ) (c : Color) (r : Tree)
    → Stands rounds t steps l a c r
    → successor rounds t a ≡ ok (first (inorder r ++ behind steps))
unfolding successor
successor_at rounds t steps l a c leaf s =
    let (el, er, ep, ec, hl, hr) = s.inside in
    let h = size-plug steps (node l a c leaf) in
    let enough = s.enough in
    let out = s.out in
    let start : successor rounds t a ≡ climb t.right rounds t a (t.parent a) = rw (successor, er) in
    start
    ∙ ap (climb t.right rounds t a) ep
    ∙ climb_right-first rounds t a steps (omega arith) (λ y. let d = s.apart y in omega arith)
        (omega arith) s.around
successor_at rounds t steps l a c (node rl b d rr) s =
    let (el, er, ep, ec, hl, hr) = s.inside in
    let h = size-plug steps (node l a c (node rl b d rr)) in
    let enough = s.enough in
    let out = s.out in
    let down : t.right a == nil ≡ false =
      ==_ne (t.right a) nil (λ k. one-ne nil b (omega arith) (sym (sym er ∙ k))) in
    let start : successor rounds t a ≡ minimum rounds t (t.right a) = rw (successor, down) in
    start
    ∙ ap (minimum rounds t) er
    ∙ minimum-first rounds t a rl b d rr (omega arith) (omega arith) hr
    ∙ ap ok (sym (first-append (inorder rl) (inorder rr) (behind steps) b))

predecessor_at :
    (rounds : ℕ) (t : Rbtree) (steps : Steps) (l : Tree) (a : ℕ) (c : Color) (r : Tree)
    → Stands rounds t steps l a c r
    → predecessor rounds t a ≡ ok (last (before steps ++ inorder l))
unfolding predecessor
predecessor_at rounds t steps leaf a c r s =
    let (el, er, ep, ec, hl, hr) = s.inside in
    let h = size-plug steps (node leaf a c r) in
    let enough = s.enough in
    let out = s.out in
    let start : predecessor rounds t a ≡ climb t.left rounds t a (t.parent a) =
      rw (predecessor, el) in
    start
    ∙ ap (climb t.left rounds t a) ep
    ∙ climb_left-last rounds t a steps (omega arith) (λ y. let d = s.apart y in omega arith)
        (omega arith) s.around
    ∙ ap (λ xs. ok (last xs)) (sym (append-nil (before steps)))
predecessor_at rounds t steps (node ll b d lr) a c r s =
    let (el, er, ep, ec, hl, hr) = s.inside in
    let h = size-plug steps (node (node ll b d lr) a c r) in
    let enough = s.enough in
    let out = s.out in
    let down : t.left a == nil ≡ false =
      ==_ne (t.left a) nil (λ k. one-ne nil b (omega arith) (sym (sym el ∙ k))) in
    let start : predecessor rounds t a ≡ maximum rounds t (t.left a) = rw (predecessor, down) in
    start
    ∙ ap (maximum rounds t) el
    ∙ maximum-last rounds t a ll b d lr (omega arith) (omega arith) hl
    ∙ ap ok (sym (last-append (before steps) (inorder ll) (inorder lr) b))

-- An element of the sequence has a place.
Stands-At :
    (rounds : ℕ) (t : Rbtree) (tree : Tree) (pre : List ℕ) (a : ℕ) (post : List ℕ)
    → size tree < rounds
    → HoldsTree t tree
    → (at : At tree [] pre a post) → Stands rounds t at.rest at.left a at.color at.right
Stands-At rounds t tree pre a post le held at =
    let here = node at.left a at.color at.right in
    let (hs, ht) = unplug-Is t at.rest here (subst (Is t) (sym at.whole) held.is) in
    record {
      enough = subst (λ w. size w < rounds) (sym at.whole) le;
      apart = λ y.
          let d = held.apart.0 y in
          let e = occ-plug y at.rest here in let k = ap (occ y) at.whole in omega arith;
      out =
          (let e = occ-plug nil at.rest here in
            let k = ap (occ nil) at.whole in omega (arith, held.apart.1));
      around = hs;
      inside = ht;
    }

module _ (rounds : ℕ) (t : Rbtree) (tree : Tree) (pre : List ℕ) (a : ℕ) (post : List ℕ)
    (le : size tree < rounds) (held : HoldsTree t tree)
    (here : inorder tree ≡ pre ++ a ∷ post) where
  pub successor-first : successor rounds t a ≡ ok (first post)
  successor-first =
      let at = locate tree [] pre a post here in
      successor_at rounds t at.rest at.left a at.color at.right
        (Stands-At rounds t tree pre a post le held at)
      ∙ ap (λ xs. ok (first xs)) (at.tail ∙ append-nil post)

  pub predecessor-last : predecessor rounds t a ≡ ok (last pre)
  predecessor-last =
      let at = locate tree [] pre a post here in
      predecessor_at rounds t at.rest at.left a at.color at.right
        (Stands-At rounds t tree pre a post le held at)
      ∙ ap (λ xs. ok (last xs)) at.lead

  pub element-ne : a ≢ nil
  element-ne h =
      let s = Stands-At rounds t tree pre a post le held (locate tree [] pre a post here) in
      let out = s.out in one-ne nil a (omega arith) (sym h)
