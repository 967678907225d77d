-- ===== src/Rbtree/Cases.antt =====
-- One round of the loop of `rb_insert` of btmod/bt/lib/rbtree.c under a red parent: the trees that
-- `left_case` and `right_case` leave.
use btkernel.Base.{
  ℕ, ◌≡◌, refl, sym, ap, ◌∙◌, ◌≢◌, true, false, not, ◌&&◌, ◌∷◌, arith, ◌==◌, ==_refl, ==_ne, ◌>>=◌,
  ok,
}
use btkernel.Rbtree.{
  Color, black, red, is_red, Rbtree, nil, recolor, turn, lift, left_case, right_case, leftrotate,
  rightrotate,
}
use btkernel.Rbtree.Shape.{
  Tree, leaf, node, in_left, in_right, Steps, top, above, occ, IsApart, Holds, HoldsSteps, one_self,
}
use btkernel.Rbtree.Relink.{one-ne, top-ne}
use btkernel.Rbtree.Rotate.{leftrotate-Turns, rightrotate-Turns}
use btkernel.Rbtree.Fix.{is_red_tree}
use btkernel.Rbtree.Paint.{Lifts, lift_left-Lifts, lift_right-Lifts}

-- The test of the uncle.
pub uncle_red :
    (t : Rbtree) (q : ℕ) (u : Tree)
    → occ nil u ≡ 0
    → Holds t q u
    → not (top u == nil) && is_red (t.color (top u)) ≡ is_red_tree u
uncle_red t q leaf out h = refl
uncle_red t q (node l b c r) out (el, er, ep, ec, hl, hr) =
    let b_nil = ==_ne b nil (λ h. one-ne nil b (omega arith) (sym h)) in rw (b_nil, ec)

module _ (t : Rbtree) (g p x : ℕ) (u : Tree) (up : t.parent x ≡ p) (upper : t.parent p ≡ g)
    (held : Holds t g u) (out : occ nil u ≡ 0) where
  right_uncle :
      t.right g ≡ top u
      → not (t.right (t.parent (t.parent x)) == nil)
          && is_red (t.color (t.right (t.parent (t.parent x))))
        ≡ is_red_tree u
  right_uncle side =
      ap (λ a. not (a == nil) && is_red (t.color a))
        (ap (λ q. t.right (t.parent q)) up ∙ ap t.right upper ∙ side)
      ∙ uncle_red t g u out held

  pub left_case-red :
      t.right g ≡ top u → is_red_tree u ≡ true → left_case t x ≡ ok (recolor t p (top u), g)
  unfolding left_case
  left_case-red side bloody =
      let raw : left_case t x
          ≡ ok (recolor t (t.parent x) (t.right (t.parent (t.parent x))), t.parent (t.parent x)) =
        rw (left_case, right_uncle side, bloody) in
      raw
      ∙ ap (λ q. ok (recolor t q (t.right (t.parent q)), t.parent q)) up
      ∙ ap (λ q. ok (recolor t p (t.right q), q)) upper
      ∙ ap (λ q. ok (recolor t p q, g)) side

  left_case-turn :
      t.right g ≡ top u
      → is_red_tree u ≡ false
      → left_case t x ≡ (
          turn leftrotate (x == t.right p) t x p >>= λ turned.
          lift rightrotate turned.0 turned.1 turned.2)
  unfolding left_case
  left_case-turn side dark =
      let raw : left_case t x ≡ (
          turn leftrotate (x == t.right (t.parent x)) t x (t.parent x) >>= λ turned.
          lift rightrotate turned.0 turned.1 turned.2) =
        rw (left_case, right_uncle side, dark) in
      raw
      ∙ ap
          (λ q. turn leftrotate (x == t.right q) t x q >>= λ turned.
            lift rightrotate turned.0 turned.1 turned.2)
          up

  left_uncle :
      t.left g ≡ top u
      → not (t.left (t.parent (t.parent x)) == nil)
          && is_red (t.color (t.left (t.parent (t.parent x))))
        ≡ is_red_tree u
  left_uncle side =
      ap (λ a. not (a == nil) && is_red (t.color a))
        (ap (λ q. t.left (t.parent q)) up ∙ ap t.left upper ∙ side)
      ∙ uncle_red t g u out held

  pub right_case-red :
      t.left g ≡ top u → is_red_tree u ≡ true → right_case t x ≡ ok (recolor t p (top u), g)
  unfolding right_case
  right_case-red side bloody =
      let raw : right_case t x
          ≡ ok (recolor t (t.parent x) (t.left (t.parent (t.parent x))), t.parent (t.parent x)) =
        rw (right_case, left_uncle side, bloody) in
      raw
      ∙ ap (λ q. ok (recolor t q (t.left (t.parent q)), t.parent q)) up
      ∙ ap (λ q. ok (recolor t p (t.left q), q)) upper
      ∙ ap (λ q. ok (recolor t p q, g)) side

  right_case-turn :
      t.left g ≡ top u
      → is_red_tree u ≡ false
      → right_case t x ≡ (
          turn rightrotate (x == t.left p) t x p >>= λ turned.
          lift leftrotate turned.0 turned.1 turned.2)
  unfolding right_case
  right_case-turn side dark =
      let raw : right_case t x ≡ (
          turn rightrotate (x == t.left (t.parent x)) t x (t.parent x) >>= λ turned.
          lift leftrotate turned.0 turned.1 turned.2) =
        rw (right_case, left_uncle side, dark) in
      raw
      ∙ ap
          (λ q. turn rightrotate (x == t.left q) t x q >>= λ turned.
            lift leftrotate turned.0 turned.1 turned.2)
          up

-- The parent is a left child.
module _ (t : Rbtree) (steps : Steps) (s : Tree) (p : ℕ) (tl : Tree) (x : ℕ) (tr : Tree) (g : ℕ)
    (d : Color) (u : Tree) (dark : is_red_tree u ≡ false) where
  pub left_outer-Lifts :
      IsApart steps (node (node (node tl x red tr) p red s) g d u)
      → HoldsSteps t g steps
      → Holds t (above steps) (node (node (node tl x red tr) p red s) g d u)
      → Lifts (left_case t x) x steps (node (node tl x red tr) p black (node s g red u))
  unfolding turn
  left_outer-Lifts apart hs ht =
      let (gl, gr, gq, gc, (pl, pr, pq, pc, (xl, xr, xq, xc, hl, hr), hm), hu) = ht in
      let x_once = one_self x in
      let dx = apart.0 x in
      let some_x : x ≢ nil = λ h. one-ne nil x (omega (arith, apart.1)) (sym h) in
      let outer : x == t.right p ≡ false =
        ==_ne x (t.right p) (λ h. top-ne x s (omega arith) some_x (h ∙ pr)) in
      let (v, run, sv, hv) =
        lift_right-Lifts t steps (node tl x red tr) p red s g d u apart x hs ht in
      let start = left_case-turn t g p x u xq pq hu (omega (arith, apart.1)) gr dark in
      (v, start ∙ rw (outer, turn, ◌>>=◌, run), sv, hv)

  pub left_inner-Lifts :
      IsApart steps (node (node s p red (node tl x red tr)) g d u)
      → HoldsSteps t g steps
      → Holds t (above steps) (node (node s p red (node tl x red tr)) g d u)
      → Lifts (left_case t x) p steps (node (node s p red tl) x black (node tr g red u))
  unfolding turn
  left_inner-Lifts apart hs ht =
      let (gl, gr, gq, gc, (pl, pr, pq, pc, hm, (xl, xr, xq, xc, hl, hr)), hu) = ht in
      let (v, run, (vl, vr, vq, vc, hu', hs'), hv) =
        leftrotate-Turns t (in_left g d u ∷ steps) s p red tl x red tr
          (λ y. let dy = apart.0 y in omega arith) (omega (arith, apart.1)) (gl, gr, gq, gc, hu, hs)
          (pl, pr, pq, pc, hm, (xl, xr, xq, xc, hl, hr)) in
      let (yl, yr, yq, yc, (wl, wr, wq, wc, kl, kr), kx) = hv in
      let (w, run', sw, hw) =
        lift_right-Lifts v steps (node s p red tl) x red tr g d u
          ((λ y. let dy = apart.0 y in omega arith), omega (arith, apart.1)) p hs'
          (vl, vr, vq, vc, hv, hu') in
      let start = left_case-turn t g p x u xq pq hu (omega (arith, apart.1)) gr dark in
      let inner : x == t.right p ≡ true = rw (pr, ==_refl x) in
      (w, start ∙ rw (inner, turn, run, ◌>>=◌, wq, run'), sw, hw)

-- The parent is a right child.
module _ (t : Rbtree) (steps : Steps) (s : Tree) (p : ℕ) (tl : Tree) (x : ℕ) (tr : Tree) (g : ℕ)
    (d : Color) (u : Tree) (dark : is_red_tree u ≡ false) where
  pub right_outer-Lifts :
      IsApart steps (node u g d (node s p red (node tl x red tr)))
      → HoldsSteps t g steps
      → Holds t (above steps) (node u g d (node s p red (node tl x red tr)))
      → Lifts (right_case t x) x steps (node (node u g red s) p black (node tl x red tr))
  unfolding turn
  right_outer-Lifts apart hs ht =
      let (gl, gr, gq, gc, hu, (pl, pr, pq, pc, hm, (xl, xr, xq, xc, hl, hr))) = ht in
      let x_once = one_self x in
      let dx = apart.0 x in
      let some_x : x ≢ nil = λ h. one-ne nil x (omega (arith, apart.1)) (sym h) in
      let outer : x == t.left p ≡ false =
        ==_ne x (t.left p) (λ h. top-ne x s (omega arith) some_x (h ∙ pl)) in
      let (v, run, sv, hv) =
        lift_left-Lifts t steps (node tl x red tr) p red s g d u apart x hs ht in
      let start = right_case-turn t g p x u xq pq hu (omega (arith, apart.1)) gl dark in
      (v, start ∙ rw (outer, turn, ◌>>=◌, run), sv, hv)

  pub right_inner-Lifts :
      IsApart steps (node u g d (node (node tl x red tr) p red s))
      → HoldsSteps t g steps
      → Holds t (above steps) (node u g d (node (node tl x red tr) p red s))
      → Lifts (right_case t x) p steps (node (node u g red tl) x black (node tr p red s))
  unfolding turn
  right_inner-Lifts apart hs ht =
      let (gl, gr, gq, gc, hu, (pl, pr, pq, pc, (xl, xr, xq, xc, hl, hr), hm)) = ht in
      let (v, run, (vl, vr, vq, vc, hu', hs'), hv) =
        rightrotate-Turns t (in_right u g d ∷ steps) s p red tr x red tl
          (λ y. let dy = apart.0 y in omega arith) (omega (arith, apart.1)) (gl, gr, gq, gc, hu, hs)
          (pl, pr, pq, pc, (xl, xr, xq, xc, hl, hr), hm) in
      let (yl, yr, yq, yc, kx, (wl, wr, wq, wc, kl, kr)) = hv in
      let (w, run', sw, hw) =
        lift_left-Lifts v steps (node tr p red s) x red tl g d u
          ((λ y. let dy = apart.0 y in omega arith), omega (arith, apart.1)) p hs'
          (vl, vr, vq, vc, hu', hv) in
      let start = right_case-turn t g p x u xq pq hu (omega (arith, apart.1)) gl dark in
      let inner : x == t.left p ≡ true = rw (pl, ==_refl x) in
      (w, start ∙ rw (inner, turn, run, ◌>>=◌, wq, run'), sw, hw)
