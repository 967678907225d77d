-- ===== src/Rbtree/Loop.antt =====
-- The loop of `rb_insert` of btmod/bt/lib/rbtree.c carries out `fix`.
use btkernel.Base.{
  ℕ, zero, suc, ◌+◌, ◌<◌, ◌≡◌, sym, ap, ◌∙◌, subst, ◌≢◌, inl, inr, true, false, [], ◌∷◌, arith,
  ◌==◌, Bool-cases, ==_refl, ==_ne, Run, ◌>>=◌, ok,
}
use btkernel.Rbtree.{black, red, is_red, Rbtree, insert_loop, left_case, right_case}
use btkernel.Rbtree.Shape.{
  Tree, node, Step, in_left, in_right, Steps, above, plug, one, occ_steps, IsApart, Holds,
  HoldsSteps, Is, one_self, plug-Is,
}
use btkernel.Rbtree.Fix.{fix}
use btkernel.Rbtree.Paint.{Lifts}

-- The root, over a focus with the top `x`.
abbrev pub bottom : Steps → ℕ → ℕ
bottom [] x = x
bottom (in_left a c r ∷ steps) x = bottom steps a
bottom (in_right l a c ∷ steps) x = bottom steps a

pub HoldsSteps-root :
    (t : Rbtree) (x : ℕ) (steps : Steps) → HoldsSteps t x steps → t.root ≡ bottom steps x
HoldsSteps-root t x [] h = h
HoldsSteps-root t x (in_left a c r ∷ steps) (el, er, ep, ec, hr, hs) = HoldsSteps-root t a steps hs
HoldsSteps-root t x (in_right l a c ∷ steps) (el, er, ep, ec, hl, hs) = HoldsSteps-root t a steps hs

root-occ : (steps : Steps) (a : ℕ) → 0 < occ_steps (bottom steps a) steps + one (bottom steps a) a
root-occ [] a = let self = one_self a in omega arith
root-occ (in_left b c r ∷ steps) a = let h = root-occ steps b in omega arith
root-occ (in_right l b c ∷ steps) a = let h = root-occ steps b in omega arith

above_occ : (s : Step) (steps : Steps) (x : ℕ) → 0 < occ_steps (bottom (s ∷ steps) x) (s ∷ steps)
above_occ (in_left a c r) steps x = let h = root-occ steps a in omega arith
above_occ (in_right l a c) steps x = let h = root-occ steps a in omega arith

abbrev pub depth : Steps → ℕ
depth [] = 0
depth (s ∷ steps) = suc (depth steps)

-- The root is black, unless it is the focus.
abbrev pub RootBlack : Steps → Type 0
RootBlack [] = Unit
RootBlack (in_left a c r ∷ []) = c ≡ black
RootBlack (in_right l a c ∷ []) = c ≡ black
RootBlack (s ∷ s' ∷ steps) = RootBlack (s' ∷ steps)

pub RootBlack-tail : (s : Step) (steps : Steps) → RootBlack (s ∷ steps) → RootBlack steps
RootBlack-tail s [] h = tt
RootBlack-tail (in_left a c r) (s' ∷ steps) h = h
RootBlack-tail (in_right l a c) (s' ∷ steps) h = h

-- The run ends with fields that hold the tree.
abbrev pub Loops : Run Rbtree → Tree → Type 0
Loops run tree = (u : Rbtree) × (run ≡ ok u) × Is u tree

-- What the loop does from a focus with so many rounds.
abbrev pub Ends : ℕ → ℕ → Rbtree → Steps → Tree → ℕ → Tree → Type 0
Ends n root t steps tl x tr =
    depth steps < n
    → root ≡ bottom steps x
    → IsApart steps (node tl x red tr)
    → RootBlack steps
    → HoldsSteps t x steps
    → Holds t (above steps) (node tl x red tr)
    → Loops (insert_loop n root t x) (fix steps tl x tr)

pub below_root :
    (s : Step) (steps : Steps) (tl : Tree) (x : ℕ) (tr : Tree) (root : ℕ)
    → root ≡ bottom (s ∷ steps) x
    → IsApart (s ∷ steps) (node tl x red tr)
    → x == root ≡ false
below_root s steps tl x tr root at apart = ==_ne x root (λ h.
    let d = apart.0 x in
    let self = one_self x in
    let k = subst (λ v. 0 < occ_steps v (s ∷ steps)) (sym (h ∙ at)) (above_occ s steps x) in
    omega arith)

module _ (n root : ℕ) (t : Rbtree) (x : ℕ) where
  pub black_stops : is_red (t.color (t.parent x)) ≡ false → insert_loop (suc n) root t x ≡ ok t
  unfolding insert_loop
  black_stops dark = elim (Bool-cases (x == root)) [
    | inl e ↦ rw (insert_loop, e)
    | inr e ↦ rw (insert_loop, e, dark)
  ]

  left_starts :
      x == root ≡ false
      → is_red (t.color (t.parent x)) ≡ true
      → t.parent x == t.left (t.parent (t.parent x)) ≡ true
      → insert_loop (suc n) root t x ≡ (left_case t x >>= λ next. insert_loop n root next.0 next.1)
  unfolding insert_loop
  left_starts e bloody side = rw (insert_loop, e, bloody, side)

  right_starts :
      x == root ≡ false
      → is_red (t.color (t.parent x)) ≡ true
      → t.parent x == t.left (t.parent (t.parent x)) ≡ false
      → insert_loop (suc n) root t x ≡ (right_case t x >>= λ next. insert_loop n root next.0 next.1)
  unfolding insert_loop
  right_starts e bloody side = rw (insert_loop, e, bloody, side)

  pub left_round :
      (p g : ℕ)
      → x == root ≡ false
      → t.parent x ≡ p
      → t.parent p ≡ g
      → t.color p ≡ red
      → t.left g ≡ p
      → insert_loop (suc n) root t x ≡ (left_case t x >>= λ next. insert_loop n root next.0 next.1)
  left_round p g e up upper bloody side = left_starts e (ap is_red (ap t.color up ∙ bloody)) (
      ap (λ q. q == t.left (t.parent q)) up
      ∙ ap (λ q. p == t.left q) upper
      ∙ ap (λ q. p == q) side
      ∙ ==_refl p)

  pub right_round :
      (p g : ℕ)
      → x == root ≡ false
      → t.parent x ≡ p
      → t.parent p ≡ g
      → t.color p ≡ red
      → p ≢ t.left g
      → insert_loop (suc n) root t x ≡ (right_case t x >>= λ next. insert_loop n root next.0 next.1)
  right_round p g e up upper bloody side = right_starts e (ap is_red (ap t.color up ∙ bloody)) (
      ap (λ q. q == t.left (t.parent q)) up
      ∙ ap (λ q. p == t.left q) upper
      ∙ ==_ne p (t.left g) side)

black_ends :
    (n root : ℕ) (t : Rbtree) (x : ℕ)
    → 0 < n
    → is_red (t.color (t.parent x)) ≡ false
    → insert_loop n root t x ≡ ok t
black_ends zero root t x more dark = absurd (omega arith)
black_ends (suc n) root t x more dark = black_stops n root t x dark

-- After the rotations, the parent of the node is black, and the loop ends.
pub lifted-Loops :
    (n root : ℕ) (t : Rbtree) (x : ℕ) (rest : Run (Rbtree × ℕ)) (m : ℕ) (steps : Steps) (l : Tree)
    (a : ℕ) (r : Tree)
    → 0 < n
    → insert_loop (suc n) root t x ≡ (rest >>= λ next. insert_loop n root next.0 next.1)
    → Lifts rest m steps (node l a black r)
    → ((v : Rbtree) → Holds v (above steps) (node l a black r) → v.parent m ≡ a)
    → Loops (insert_loop (suc n) root t x) (plug steps (node l a black r))
lifted-Loops n root t x rest m steps l a r more start (v, run, sv, hv) child =
    let (vl, vr, vq, vc, kl, kr) = hv in
    let dark : is_red (v.color (v.parent m)) ≡ false =
      ap (λ b. is_red (v.color b)) (child v hv) ∙ ap is_red vc in
    (
      v,
      start
          ∙ ap (λ next. next >>= λ next. insert_loop n root next.0 next.1) run
          ∙ black_ends n root v m more dark,
      plug-Is v steps (node l a black r) sv hv,
    )
