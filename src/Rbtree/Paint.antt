-- ===== src/Rbtree/Paint.antt =====
-- The changes of colour in `rb_insert` of btmod/bt/lib/rbtree.c, and the rotation at the grandparent.
use btkernel.Base.{ℕ, ◌≤◌, ◌≡◌, refl, sym, ◌∙◌, subst, arith, if_ne, if_eq, Run, ◌>>=◌, ok}
use btkernel.Rbtree.{Color, black, red, Rbtree, set_color, recolor, lift, leftrotate, rightrotate}
use btkernel.Rbtree.Shape.{
  Tree, node, Steps, top, above, occ, occ_steps, IsApart, Holds, HoldsSteps, one_self, occ-ne,
  Holds-frame, HoldsSteps-frame,
}
use btkernel.Rbtree.Relink.{one-ne}
use btkernel.Rbtree.Rotate.{leftrotate-Turns, rightrotate-Turns}

-- The run of the body, which gives the fields and the node for the next round.
abbrev pub Lifts : Run (Rbtree × ℕ) → ℕ → Steps → Tree → Type 0
Lifts run n steps tree =
    (u : Rbtree) × (run ≡ ok (u, n)) × HoldsSteps u (top tree) steps × Holds u (above steps) tree

-- A tree in which the painted address does not occur.
pub Holds-paint :
    (t : Rbtree) (a : ℕ) (c : Color) (p : ℕ) (tree : Tree)
    → occ a tree ≡ 0
    → Holds t p tree
    → Holds (set_color t a c) p tree
Holds-paint t a c p tree out h =
    Holds-frame t (set_color t a c) p tree
      (λ x k. (refl, refl, refl, if_ne x a c (t.color x) (occ-ne x a tree k out))) h

pub HoldsSteps-paint :
    (t : Rbtree) (a : ℕ) (c : Color) (x : ℕ) (steps : Steps)
    → occ_steps a steps ≡ 0
    → HoldsSteps t x steps
    → HoldsSteps (set_color t a c) x steps
HoldsSteps-paint t a c x steps out h =
    HoldsSteps-frame t (set_color t a c) x steps
      (λ y k. (
        refl,
        refl,
        refl,
        if_ne y a c (t.color y)
            (λ e. let z = subst (λ v. occ_steps v steps ≡ 0) (sym e) out in omega arith),
      ))
      refl h

-- The top of a tree is painted.
pub Holds-paint_top :
    (t : Rbtree) (l : Tree) (a : ℕ) (c : Color) (r : Tree) (d : Color) (p : ℕ)
    → occ a (node l a c r) ≤ 1
    → Holds t p (node l a c r)
    → Holds (set_color t a d) p (node l a d r)
Holds-paint_top t l a c r d p once (al, ar, aq, ac, hl, hr) =
    let self = one_self a in
    (
      al,
      ar,
      aq,
      if_eq a d (t.color a),
      Holds-paint t a d a l (omega arith) hl,
      Holds-paint t a d a r (omega arith) hr,
    )

-- The left child of the top is painted.
pub Holds-paint_left :
    (t : Rbtree) (l : Tree) (p : ℕ) (c : Color) (m : Tree) (g : ℕ) (d : Color) (r : Tree)
    (e : Color) (q : ℕ)
    → occ p (node (node l p c m) g d r) ≤ 1
    → Holds t q (node (node l p c m) g d r)
    → Holds (set_color t p e) q (node (node l p e m) g d r)
Holds-paint_left t l p c m g d r e q once (gl, gr, gq, gc, hp, hr) =
    let self = one_self p in
    (
      gl,
      gr,
      gq,
      if_ne g p e (t.color g) (λ h. one-ne p g (omega arith) (sym h)) ∙ gc,
      Holds-paint_top t l p c m e g (omega arith) hp,
      Holds-paint t p e g r (omega arith) hr,
    )

-- The right child of the top is painted.
pub Holds-paint_right :
    (t : Rbtree) (r : Tree) (g : ℕ) (d : Color) (m : Tree) (p : ℕ) (c : Color) (l : Tree)
    (e : Color) (q : ℕ)
    → occ p (node r g d (node m p c l)) ≤ 1
    → Holds t q (node r g d (node m p c l))
    → Holds (set_color t p e) q (node r g d (node m p e l))
Holds-paint_right t r g d m p c l e q once (gl, gr, gq, gc, hr, hp) =
    let self = one_self p in
    (
      gl,
      gr,
      gq,
      if_ne g p e (t.color g) (λ h. one-ne p g (omega arith) (sym h)) ∙ gc,
      Holds-paint t p e g r (omega arith) hr,
      Holds-paint_top t m p c l e g (omega arith) hp,
    )

module _ (t : Rbtree) (steps : Steps) (l : Tree) (p : ℕ) (c : Color) (m : Tree) (g : ℕ) (d : Color)
    (r : Tree) (apart : IsApart steps (node (node l p c m) g d r)) where
  -- The parent becomes black and the grandparent red, and the rotation puts the parent on top.
  pub lift_right-Lifts :
      (n : ℕ)
      → HoldsSteps t g steps
      → Holds t (above steps) (node (node l p c m) g d r)
      → Lifts (lift rightrotate t n p) n steps (node l p black (node m g red r))
  unfolding lift
  lift_right-Lifts n hs ht =
      let (gl, gr, gq, gc, (pl, pr, pq, pc, hl, hm), hr) = ht in
      let p_once = one_self p in
      let g_once = one_self g in
      let dp = apart.0 p in
      let dg = apart.0 g in
      let t₁ = set_color t p black in
      let h₁ = Holds-paint_left t l p c m g d r black (above steps) (omega arith) ht in
      let h₂ = Holds-paint_top t₁ (node l p black m) g d r red (above steps) (omega arith) h₁ in
      let s₁ = HoldsSteps-paint t p black g steps (omega arith) hs in
      let s₂ = HoldsSteps-paint t₁ g red g steps (omega arith) s₁ in
      let (u, run, su, hu) =
        rightrotate-Turns (set_color t₁ g red) steps r g red m p black l
          (λ x. let dx = apart.0 x in omega arith) (omega (arith, apart.1)) s₂ h₂ in
      (u, rw (lift, pq, run, ◌>>=◌), su, hu)

module _ (t : Rbtree) (steps : Steps) (l : Tree) (p : ℕ) (c : Color) (m : Tree) (g : ℕ) (d : Color)
    (r : Tree) (apart : IsApart steps (node r g d (node m p c l))) where
  pub lift_left-Lifts :
      (n : ℕ)
      → HoldsSteps t g steps
      → Holds t (above steps) (node r g d (node m p c l))
      → Lifts (lift leftrotate t n p) n steps (node (node r g red m) p black l)
  unfolding lift
  lift_left-Lifts n hs ht =
      let (gl, gr, gq, gc, hr, (pl, pr, pq, pc, hm, hl)) = ht in
      let p_once = one_self p in
      let g_once = one_self g in
      let dp = apart.0 p in
      let dg = apart.0 g in
      let t₁ = set_color t p black in
      let h₁ = Holds-paint_right t r g d m p c l black (above steps) (omega arith) ht in
      let h₂ = Holds-paint_top t₁ r g d (node m p black l) red (above steps) (omega arith) h₁ in
      let s₁ = HoldsSteps-paint t p black g steps (omega arith) hs in
      let s₂ = HoldsSteps-paint t₁ g red g steps (omega arith) s₁ in
      let (u, run, su, hu) =
        leftrotate-Turns (set_color t₁ g red) steps r g red m p black l
          (λ x. let dx = apart.0 x in omega arith) (omega (arith, apart.1)) s₂ h₂ in
      (u, rw (lift, pq, run, ◌>>=◌), su, hu)

-- Under a red uncle, the colours are exchanged.
abbrev pub Recolored : Rbtree → ℕ → Steps → Tree → Type 0
Recolored u g steps tree = HoldsSteps u g steps × Holds u (above steps) tree

module _ (t : Rbtree) (steps : Steps) (l : Tree) (p : ℕ) (c : Color) (m : Tree) (g : ℕ) (d : Color)
    (ul : Tree) (b : ℕ) (ur : Tree) where
  pub recolor_right-Holds :
      IsApart steps (node (node l p c m) g d (node ul b red ur))
      → HoldsSteps t g steps
      → Holds t (above steps) (node (node l p c m) g d (node ul b red ur))
      → Recolored (recolor t p b) g steps (node (node l p black m) g red (node ul b black ur))
  recolor_right-Holds apart hs ht =
      let (gl, gr, gq, gc, (pl, pr, pq, pc, hl, hm), hr) = ht in
      let p_once = one_self p in
      let g_once = one_self g in
      let b_once = one_self b in
      let dp = apart.0 p in
      let dg = apart.0 g in
      let db = apart.0 b in
      let u = node ul b red ur in
      let t₁ = set_color t p black in
      let t₂ = set_color t₁ b black in
      let h₁ = Holds-paint_left t l p c m g d u black (above steps) (omega arith) ht in
      let h₂ =
        Holds-paint_right t₁ (node l p black m) g d ul b red ur black (above steps) (omega arith)
          h₁ in
      let h₃ =
        Holds-paint_top t₂ (node l p black m) g d (node ul b black ur) red (above steps)
          (omega arith) h₂ in
      let s₁ = HoldsSteps-paint t p black g steps (omega arith) hs in
      let s₂ = HoldsSteps-paint t₁ b black g steps (omega arith) s₁ in
      let s₃ = HoldsSteps-paint t₂ g red g steps (omega arith) s₂ in
      subst
        (λ v.
          Recolored (set_color t₂ v red) g steps
            (node (node l p black m) g red (node ul b black ur)))
        (sym pq) (s₃, h₃)

  pub recolor_left-Holds :
      IsApart steps (node (node ul b red ur) g d (node m p c l))
      → HoldsSteps t g steps
      → Holds t (above steps) (node (node ul b red ur) g d (node m p c l))
      → Recolored (recolor t p b) g steps (node (node ul b black ur) g red (node m p black l))
  recolor_left-Holds apart hs ht =
      let (gl, gr, gq, gc, hr, (pl, pr, pq, pc, hm, hl)) = ht in
      let p_once = one_self p in
      let g_once = one_self g in
      let b_once = one_self b in
      let dp = apart.0 p in
      let dg = apart.0 g in
      let db = apart.0 b in
      let u = node ul b red ur in
      let t₁ = set_color t p black in
      let t₂ = set_color t₁ b black in
      let h₁ = Holds-paint_right t u g d m p c l black (above steps) (omega arith) ht in
      let h₂ =
        Holds-paint_left t₁ ul b red ur g d (node m p black l) black (above steps) (omega arith)
          h₁ in
      let h₃ =
        Holds-paint_top t₂ (node ul b black ur) g d (node m p black l) red (above steps)
          (omega arith) h₂ in
      let s₁ = HoldsSteps-paint t p black g steps (omega arith) hs in
      let s₂ = HoldsSteps-paint t₁ b black g steps (omega arith) s₁ in
      let s₃ = HoldsSteps-paint t₂ g red g steps (omega arith) s₂ in
      subst
        (λ v.
          Recolored (set_color t₂ v red) g steps
            (node (node ul b black ur) g red (node m p black l)))
        (sym pq) (s₃, h₃)
