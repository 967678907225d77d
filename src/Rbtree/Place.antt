-- ===== src/Rbtree/Place.antt =====
-- The walk of `node_insert` of btmod/bt/lib/rbtree.c hangs the new node at its place.
use btkernel.Base.{
  ℕ, zero, suc, ◌+◌, ◌≤◌, ◌<◌, ◌≡◌, refl, sym, ap, ◌∙◌, subst, ◌≢◌, inl, inr, Bool, true, false,
  ◌∷◌, arith, ◌==◌, Bool-cases, ==_ne, if_ne, if_eq, Run, ok,
}
use btkernel.Rbtree.{Color, red, Rbtree, nil, insert_at, set_left, set_right, set_parent}
use btkernel.Rbtree.Shape.{
  Tree, leaf, node, in_left, in_right, Steps, above, one, occ, occ_steps, Holds, HoldsSteps,
  one_self, occ-ne, Holds-frame, HoldsSteps-frame,
}
use btkernel.Rbtree.Relink.{one-ne}
use btkernel.Rbtree.Fix.{place}

abbrev pub size : Tree → ℕ
size leaf = 0
size (node l a c r) = suc (size l + size r)

-- The run hangs the node `x` without children at the focus.
abbrev pub Hangs : Run Rbtree → ℕ → Steps → Type 0
Hangs run x steps =
    (u : Rbtree) × (run ≡ ok u)
    × HoldsSteps u x steps
    × Holds u (above steps) (node leaf x red leaf)

module _ (less : ℕ → ℕ → Bool) (t : Rbtree) (x : ℕ) (some_x : x ≢ nil) (xl : t.left x ≡ nil)
    (xr : t.right x ≡ nil) (xc : t.color x ≡ red) where
  -- What the walk does from a node with so many rounds.
  abbrev Walks : ℕ → Steps → Tree → ℕ → Color → Tree → Type 0
  Walks rounds steps l a c r =
      size (node l a c r) ≤ rounds
      → ((y : ℕ) → occ_steps y steps + occ y (node l a c r) + one y x ≤ 1)
      → occ_steps nil steps + occ nil (node l a c r) ≡ 0
      → HoldsSteps t a steps
      → Holds t (above steps) (node l a c r)
      → Hangs (insert_at less rounds t a x) x (place less x (node l a c r) steps)

  -- An address other than the new one.
  other : (y : ℕ) (tree : Tree) → occ x tree ≡ 0 → 0 < occ y tree → y ≢ x
  other y tree h k = occ-ne y x tree k h

  other_step : (y : ℕ) (steps : Steps) → occ_steps x steps ≡ 0 → 0 < occ_steps y steps → y ≢ x
  other_step y steps h k e = let z = subst (λ v. occ_steps v steps ≡ 0) (sym e) h in omega arith

  go_right :
      (rounds : ℕ) (steps : Steps) (l : Tree) (a : ℕ) (c : Color) (r : Tree)
      → ((s : Steps) (l' : Tree) (b : ℕ) (c' : Color) (r' : Tree) → Walks rounds s l' b c' r')
      → less a x ≡ true
      → size (node l a c r) ≤ suc rounds
      → ((y : ℕ) → occ_steps y steps + occ y (node l a c r) + one y x ≤ 1)
      → occ_steps nil steps + occ nil (node l a c r) ≡ 0
      → HoldsSteps t a steps
      → Holds t (above steps) (node l a c r)
      → Hangs (insert_at less (suc rounds) t a x) x (place less x r (in_right l a c ∷ steps))
  unfolding insert_at
  go_right rounds steps l a c leaf walks way le d z hs (al, ar, aq, ac, hl, hr) =
      let x_once = one_self x in
      let a_once = one_self a in
      let dx = d x in
      let da = d a in
      let a≢x = one-ne a x (omega arith) in
      let a_nil = ==_ne a nil (λ h. one-ne nil a (omega arith) (sym h)) in
      let u = set_parent (set_right t a x) x a in
      (
        u,
        rw (insert_at, a_nil, way, ar),
        (
          al,
          if_eq a x (t.right a),
          if_ne a x a (t.parent a) a≢x ∙ aq,
          ac,
          Holds-frame t u a l
              (λ y h. (
                refl,
                if_ne y a x (t.right y) (occ-ne y a l h (omega arith)),
                if_ne y x a (t.parent y) (other y l (omega arith) h),
                refl,
              ))
              hl,
          HoldsSteps-frame t u a steps
              (λ y h.
                let dy = d y in
                (
                  refl,
                  if_ne y a x (t.right y) (one-ne y a (omega arith)),
                  if_ne y x a (t.parent y) (other_step y steps (omega arith) h),
                  refl,
                ))
              refl hs,
        ),
        (xl, if_ne x a x (t.right x) (λ h. a≢x (sym h)) ∙ xr, if_eq x a (t.parent x), xc, tt, tt),
      )
  go_right rounds steps l a c (node rl b e rr) walks way le d z hs (al, ar, aq, ac, hl, hr) =
      let a_nil = ==_ne a nil (λ h. one-ne nil a (omega arith) (sym h)) in
      let b_nil = ==_ne b nil (λ h. one-ne nil b (omega arith) (sym h)) in
      let (u, run, hu, hx) =
        walks (in_right l a c ∷ steps) rl b e rr (omega arith) (λ y. let dy = d y in omega arith)
          (omega arith) (al, ar, aq, ac, hl, hs) hr in
      let there : t.right a == nil ≡ false = rw ar b_nil in
      let start : insert_at less (suc rounds) t a x ≡ insert_at less rounds t (t.right a) x =
        rw (insert_at, a_nil, way, there) in
      (u, start ∙ ap (λ v. insert_at less rounds t v x) ar ∙ run, hu, hx)

  go_left :
      (rounds : ℕ) (steps : Steps) (l : Tree) (a : ℕ) (c : Color) (r : Tree)
      → ((s : Steps) (l' : Tree) (b : ℕ) (c' : Color) (r' : Tree) → Walks rounds s l' b c' r')
      → less a x ≡ false
      → size (node l a c r) ≤ suc rounds
      → ((y : ℕ) → occ_steps y steps + occ y (node l a c r) + one y x ≤ 1)
      → occ_steps nil steps + occ nil (node l a c r) ≡ 0
      → HoldsSteps t a steps
      → Holds t (above steps) (node l a c r)
      → Hangs (insert_at less (suc rounds) t a x) x (place less x l (in_left a c r ∷ steps))
  unfolding insert_at
  go_left rounds steps leaf a c r walks way le d z hs (al, ar, aq, ac, hl, hr) =
      let x_once = one_self x in
      let a_once = one_self a in
      let dx = d x in
      let da = d a in
      let a≢x = one-ne a x (omega arith) in
      let a_nil = ==_ne a nil (λ h. one-ne nil a (omega arith) (sym h)) in
      let u = set_parent (set_left t a x) x a in
      (
        u,
        rw (insert_at, a_nil, way, al),
        (
          if_eq a x (t.left a),
          ar,
          if_ne a x a (t.parent a) a≢x ∙ aq,
          ac,
          Holds-frame t u a r
              (λ y h. (
                if_ne y a x (t.left y) (occ-ne y a r h (omega arith)),
                refl,
                if_ne y x a (t.parent y) (other y r (omega arith) h),
                refl,
              ))
              hr,
          HoldsSteps-frame t u a steps
              (λ y h.
                let dy = d y in
                (
                  if_ne y a x (t.left y) (one-ne y a (omega arith)),
                  refl,
                  if_ne y x a (t.parent y) (other_step y steps (omega arith) h),
                  refl,
                ))
              refl hs,
        ),
        (if_ne x a x (t.left x) (λ h. a≢x (sym h)) ∙ xl, xr, if_eq x a (t.parent x), xc, tt, tt),
      )
  go_left rounds steps (node rl b e rr) a c r walks way le d z hs (al, ar, aq, ac, hl, hr) =
      let a_nil = ==_ne a nil (λ h. one-ne nil a (omega arith) (sym h)) in
      let b_nil = ==_ne b nil (λ h. one-ne nil b (omega arith) (sym h)) in
      let (u, run, hu, hx) =
        walks (in_left a c r ∷ steps) rl b e rr (omega arith) (λ y. let dy = d y in omega arith)
          (omega arith) (al, ar, aq, ac, hr, hs) hl in
      let there : t.left a == nil ≡ false = rw al b_nil in
      let start : insert_at less (suc rounds) t a x ≡ insert_at less rounds t (t.left a) x =
        rw (insert_at, a_nil, way, there) in
      (u, start ∙ ap (λ v. insert_at less rounds t v x) al ∙ run, hu, hx)

  pub insert_at-Hangs :
      (rounds : ℕ) (steps : Steps) (l : Tree) (a : ℕ) (c : Color) (r : Tree)
      → Walks rounds steps l a c r
  unfolding insert_at
  insert_at-Hangs zero steps l a c r le d z hs ht = absurd (omega arith)
  insert_at-Hangs (suc rounds) steps l a c r le d z hs ht = elim (Bool-cases (less a x)) [
    | inl way ↦
        let placed : place less x (node l a c r) steps ≡ place less x r (in_right l a c ∷ steps) =
          rw (place, way) in
        subst (Hangs (insert_at less (suc rounds) t a x) x) (sym placed)
          (go_right rounds steps l a c r (insert_at-Hangs rounds) way le d z hs ht)
    | inr way ↦
        let placed : place less x (node l a c r) steps ≡ place less x l (in_left a c r ∷ steps) =
          rw (place, way) in
        subst (Hangs (insert_at less (suc rounds) t a x) x) (sym placed)
          (go_left rounds steps l a c r (insert_at-Hangs rounds) way le d z hs ht)
  ]
