-- ===== src/Rbtree/Rounds.antt =====
-- The loop of `rb_insert` of btmod/bt/lib/rbtree.c under a red parent, which is the left or the right
-- child of the grandparent.
use btkernel.Base.{
  ℕ, suc, ◌+◌, ◌≤◌, ◌<◌, ◌≡◌, refl, sym, ap, ◌∙◌, ◌≢◌, false, ◌∷◌, arith, Run, ◌>>=◌, ok,
}
use btkernel.Rbtree.{Color, black, red, Rbtree, nil, recolor, insert_loop, left_case, right_case}
use btkernel.Rbtree.Shape.{
  Tree, leaf, node, Step, in_left, in_right, Steps, top, one, occ, IsApart, Holds, HoldsSteps,
  one_self, plug,
}
use btkernel.Rbtree.Relink.{one-ne, top-ne}
use btkernel.Rbtree.Fix.{is_red_tree, fix}
use btkernel.Rbtree.Paint.{Recolored, recolor_left-Holds, recolor_right-Holds}
use btkernel.Rbtree.Cases.{
  left_case-red, right_case-red, left_outer-Lifts, left_inner-Lifts, right_outer-Lifts,
  right_inner-Lifts,
}
use btkernel.Rbtree.Loop.{
  bottom, depth, RootBlack, RootBlack-tail, Loops, Ends, below_root, left_round, right_round,
  lifted-Loops,
}

module _ (n root : ℕ) (t : Rbtree) (steps : Steps) (s : Tree) (p : ℕ) (tl : Tree) (x : ℕ)
    (tr : Tree) (g : ℕ) (d : Color) where
  -- The rounds after this one.
  abbrev Rest : Type 0
  Rest = (t' : Rbtree) (l r : Tree) → Ends n root t' steps l g r

  RootBlack-drop : (s s' : Step) → RootBlack (s ∷ s' ∷ steps) → RootBlack steps
  RootBlack-drop s s' h = RootBlack-tail s' steps (RootBlack-tail s (s' ∷ steps) h)

  right_child : (u : Tree) → t.left g ≡ top u → occ p u + one p p ≤ 1 → one nil p ≡ 0 → p ≢ t.left g
  right_child u side once some_p h =
      let self = one_self p in
      top-ne p u (omega arith) (λ k. one-ne nil p some_p (sym k)) (h ∙ side)

  -- A red uncle.
  rest_of_rounds :
      (rest : Run (Rbtree × ℕ)) (t' : Rbtree) (l r : Tree)
      → Rest
      → insert_loop (suc n) root t x ≡ (rest >>= λ next. insert_loop n root next.0 next.1)
      → rest ≡ ok (t', g)
      → suc (suc (depth steps)) < suc n
      → root ≡ bottom steps g
      → IsApart steps (node l g red r)
      → RootBlack steps
      → Recolored t' g steps (node l g red r)
      → Loops (insert_loop (suc n) root t x) (fix steps l g r)
  rest_of_rounds rest t' l r more start run less at apart dark (hs, ht) =
      let (v, end, is) = more t' l r (omega arith) at apart dark hs ht in
      (v, start ∙ ap (λ next. next >>= λ next. insert_loop n root next.0 next.1) run ∙ end, is)

  left_outer-dark :
      (u : Tree)
      → is_red_tree u ≡ false
      → depth (in_left p red s ∷ in_left g d u ∷ steps) < suc n
      → root ≡ bottom (in_left p red s ∷ in_left g d u ∷ steps) x
      → IsApart (in_left p red s ∷ in_left g d u ∷ steps) (node tl x red tr)
      → HoldsSteps t x (in_left p red s ∷ in_left g d u ∷ steps)
      → Holds t p (node tl x red tr)
      → Loops
          (insert_loop (suc n) root t x)
          (plug steps (node (node tl x red tr) p black (node s g red u)))
  left_outer-dark u dark le at apart (pl, pr, pq, pc, hm, (gl, gr, gq, gc, hu, hs)) hx =
      let (xl, xr, xq, xc, hl, hr) = hx in
      lifted-Loops n root t x (left_case t x) x steps (node tl x red tr) p (node s g red u)
        (omega arith)
        (left_round n root t x p g
          (below_root (in_left p red s) (in_left g d u ∷ steps) tl x tr root at apart) xq pq pc gl)
        (left_outer-Lifts t steps s p tl x tr g d u dark
          ((λ y. let dy = apart.0 y in omega arith), omega (arith, apart.1)) hs
          (gl, gr, gq, gc, (pl, pr, pq, pc, hx, hm), hu))
        (λ v (vl, vr, vq, vc, (wl, wr, wq, wc, kl, kr), ks). wq)

  pub left_outer-Ends :
      (u : Tree) → Rest → Ends (suc n) root t (in_left p red s ∷ in_left g d u ∷ steps) tl x tr
  left_outer-Ends leaf more le at apart dark hs hx = left_outer-dark leaf refl le at apart hs hx
  left_outer-Ends (node ul b black ur) more le at apart dark hs hx =
      left_outer-dark (node ul b black ur) refl le at apart hs hx
  left_outer-Ends (node ul b red ur) more le at apart dark hs hx =
      let (pl, pr, pq, pc, hm, (gl, gr, gq, gc, hu, hs')) = hs in
      let (xl, xr, xq, xc, hl, hr) = hx in
      let u = node ul b red ur in
      rest_of_rounds (left_case t x) (recolor t p b) (node (node tl x red tr) p black s)
        (node ul b black ur) more
        (left_round n root t x p g
          (below_root (in_left p red s) (in_left g d u ∷ steps) tl x tr root at apart) xq pq pc gl)
        (left_case-red t g p x u xq pq hu (omega (arith, apart.1)) gr refl) le at
        ((λ y. let dy = apart.0 y in omega arith), omega (arith, apart.1))
        (RootBlack-drop (in_left p red s) (in_left g d u) dark)
        (recolor_right-Holds t steps (node tl x red tr) p red s g d ul b ur
          ((λ y. let dy = apart.0 y in omega arith), omega (arith, apart.1)) hs'
          (gl, gr, gq, gc, (pl, pr, pq, pc, hx, hm), hu))

  left_inner-dark :
      (u : Tree)
      → is_red_tree u ≡ false
      → depth (in_right s p red ∷ in_left g d u ∷ steps) < suc n
      → root ≡ bottom (in_right s p red ∷ in_left g d u ∷ steps) x
      → IsApart (in_right s p red ∷ in_left g d u ∷ steps) (node tl x red tr)
      → HoldsSteps t x (in_right s p red ∷ in_left g d u ∷ steps)
      → Holds t p (node tl x red tr)
      → Loops
          (insert_loop (suc n) root t x)
          (plug steps (node (node s p red tl) x black (node tr g red u)))
  left_inner-dark u dark le at apart (pl, pr, pq, pc, hm, (gl, gr, gq, gc, hu, hs)) hx =
      let (xl, xr, xq, xc, hl, hr) = hx in
      lifted-Loops n root t x (left_case t x) p steps (node s p red tl) x (node tr g red u)
        (omega arith)
        (left_round n root t x p g
          (below_root (in_right s p red) (in_left g d u ∷ steps) tl x tr root at apart) xq pq pc gl)
        (left_inner-Lifts t steps s p tl x tr g d u dark
          ((λ y. let dy = apart.0 y in omega arith), omega (arith, apart.1)) hs
          (gl, gr, gq, gc, (pl, pr, pq, pc, hm, hx), hu))
        (λ v (vl, vr, vq, vc, (wl, wr, wq, wc, kl, kr), ks). wq)

  pub left_inner-Ends :
      (u : Tree) → Rest → Ends (suc n) root t (in_right s p red ∷ in_left g d u ∷ steps) tl x tr
  left_inner-Ends leaf more le at apart dark hs hx = left_inner-dark leaf refl le at apart hs hx
  left_inner-Ends (node ul b black ur) more le at apart dark hs hx =
      left_inner-dark (node ul b black ur) refl le at apart hs hx
  left_inner-Ends (node ul b red ur) more le at apart dark hs hx =
      let (pl, pr, pq, pc, hm, (gl, gr, gq, gc, hu, hs')) = hs in
      let (xl, xr, xq, xc, hl, hr) = hx in
      let u = node ul b red ur in
      rest_of_rounds (left_case t x) (recolor t p b) (node s p black (node tl x red tr))
        (node ul b black ur) more
        (left_round n root t x p g
          (below_root (in_right s p red) (in_left g d u ∷ steps) tl x tr root at apart) xq pq pc gl)
        (left_case-red t g p x u xq pq hu (omega (arith, apart.1)) gr refl) le at
        ((λ y. let dy = apart.0 y in omega arith), omega (arith, apart.1))
        (RootBlack-drop (in_right s p red) (in_left g d u) dark)
        (recolor_right-Holds t steps s p red (node tl x red tr) g d ul b ur
          ((λ y. let dy = apart.0 y in omega arith), omega (arith, apart.1)) hs'
          (gl, gr, gq, gc, (pl, pr, pq, pc, hm, hx), hu))

  right_outer-dark :
      (u : Tree)
      → is_red_tree u ≡ false
      → depth (in_right s p red ∷ in_right u g d ∷ steps) < suc n
      → root ≡ bottom (in_right s p red ∷ in_right u g d ∷ steps) x
      → IsApart (in_right s p red ∷ in_right u g d ∷ steps) (node tl x red tr)
      → HoldsSteps t x (in_right s p red ∷ in_right u g d ∷ steps)
      → Holds t p (node tl x red tr)
      → Loops
          (insert_loop (suc n) root t x)
          (plug steps (node (node u g red s) p black (node tl x red tr)))
  right_outer-dark u dark le at apart (pl, pr, pq, pc, hm, (gl, gr, gq, gc, hu, hs)) hx =
      let (xl, xr, xq, xc, hl, hr) = hx in
      lifted-Loops n root t x (right_case t x) x steps (node u g red s) p (node tl x red tr)
        (omega arith)
        (right_round n root t x p g
          (below_root (in_right s p red) (in_right u g d ∷ steps) tl x tr root at apart) xq pq pc
          (right_child u gl (let dp = apart.0 p in omega arith) (omega (arith, apart.1))))
        (right_outer-Lifts t steps s p tl x tr g d u dark
          ((λ y. let dy = apart.0 y in omega arith), omega (arith, apart.1)) hs
          (gl, gr, gq, gc, hu, (pl, pr, pq, pc, hm, hx)))
        (λ v (vl, vr, vq, vc, ks, (wl, wr, wq, wc, kl, kr)). wq)

  pub right_outer-Ends :
      (u : Tree) → Rest → Ends (suc n) root t (in_right s p red ∷ in_right u g d ∷ steps) tl x tr
  right_outer-Ends leaf more le at apart dark hs hx = right_outer-dark leaf refl le at apart hs hx
  right_outer-Ends (node ul b black ur) more le at apart dark hs hx =
      right_outer-dark (node ul b black ur) refl le at apart hs hx
  right_outer-Ends (node ul b red ur) more le at apart dark hs hx =
      let (pl, pr, pq, pc, hm, (gl, gr, gq, gc, hu, hs')) = hs in
      let (xl, xr, xq, xc, hl, hr) = hx in
      let u = node ul b red ur in
      rest_of_rounds (right_case t x) (recolor t p b) (node ul b black ur)
        (node s p black (node tl x red tr)) more
        (right_round n root t x p g
          (below_root (in_right s p red) (in_right u g d ∷ steps) tl x tr root at apart) xq pq pc
          (right_child u gl (let dp = apart.0 p in omega arith) (omega (arith, apart.1))))
        (right_case-red t g p x u xq pq hu (omega (arith, apart.1)) gl refl) le at
        ((λ y. let dy = apart.0 y in omega arith), omega (arith, apart.1))
        (RootBlack-drop (in_right s p red) (in_right u g d) dark)
        (recolor_left-Holds t steps (node tl x red tr) p red s g d ul b ur
          ((λ y. let dy = apart.0 y in omega arith), omega (arith, apart.1)) hs'
          (gl, gr, gq, gc, hu, (pl, pr, pq, pc, hm, hx)))

  right_inner-dark :
      (u : Tree)
      → is_red_tree u ≡ false
      → depth (in_left p red s ∷ in_right u g d ∷ steps) < suc n
      → root ≡ bottom (in_left p red s ∷ in_right u g d ∷ steps) x
      → IsApart (in_left p red s ∷ in_right u g d ∷ steps) (node tl x red tr)
      → HoldsSteps t x (in_left p red s ∷ in_right u g d ∷ steps)
      → Holds t p (node tl x red tr)
      → Loops
          (insert_loop (suc n) root t x)
          (plug steps (node (node u g red tl) x black (node tr p red s)))
  right_inner-dark u dark le at apart (pl, pr, pq, pc, hm, (gl, gr, gq, gc, hu, hs)) hx =
      let (xl, xr, xq, xc, hl, hr) = hx in
      lifted-Loops n root t x (right_case t x) p steps (node u g red tl) x (node tr p red s)
        (omega arith)
        (right_round n root t x p g
          (below_root (in_left p red s) (in_right u g d ∷ steps) tl x tr root at apart) xq pq pc
          (right_child u gl (let dp = apart.0 p in omega arith) (omega (arith, apart.1))))
        (right_inner-Lifts t steps s p tl x tr g d u dark
          ((λ y. let dy = apart.0 y in omega arith), omega (arith, apart.1)) hs
          (gl, gr, gq, gc, hu, (pl, pr, pq, pc, hx, hm)))
        (λ v (vl, vr, vq, vc, ks, (wl, wr, wq, wc, kl, kr)). wq)

  pub right_inner-Ends :
      (u : Tree) → Rest → Ends (suc n) root t (in_left p red s ∷ in_right u g d ∷ steps) tl x tr
  right_inner-Ends leaf more le at apart dark hs hx = right_inner-dark leaf refl le at apart hs hx
  right_inner-Ends (node ul b black ur) more le at apart dark hs hx =
      right_inner-dark (node ul b black ur) refl le at apart hs hx
  right_inner-Ends (node ul b red ur) more le at apart dark hs hx =
      let (pl, pr, pq, pc, hm, (gl, gr, gq, gc, hu, hs')) = hs in
      let (xl, xr, xq, xc, hl, hr) = hx in
      let u = node ul b red ur in
      rest_of_rounds (right_case t x) (recolor t p b) (node ul b black ur)
        (node (node tl x red tr) p black s) more
        (right_round n root t x p g
          (below_root (in_left p red s) (in_right u g d ∷ steps) tl x tr root at apart) xq pq pc
          (right_child u gl (let dp = apart.0 p in omega arith) (omega (arith, apart.1))))
        (right_case-red t g p x u xq pq hu (omega (arith, apart.1)) gl refl) le at
        ((λ y. let dy = apart.0 y in omega arith), omega (arith, apart.1))
        (RootBlack-drop (in_left p red s) (in_right u g d) dark)
        (recolor_left-Holds t steps s p red (node tl x red tr) g d ul b ur
          ((λ y. let dy = apart.0 y in omega arith), omega (arith, apart.1)) hs'
          (gl, gr, gq, gc, hu, (pl, pr, pq, pc, hx, hm)))
