-- ===== src/Rbtree/Counts.antt =====
-- How often an address occurs in the trees of an insertion, and how far down the place of the new
-- node is, for btmod/bt/lib/rbtree.c.
use btkernel.Base.{ℕ, ◌+◌, ◌≤◌, ◌≡◌, refl, inl, inr, Bool, false, [], ◌∷◌, arith, Bool-cases}
use btkernel.Rbtree.{black, red}
use btkernel.Rbtree.Shape.{
  Tree, leaf, node, Step, in_left, in_right, Steps, plug, one, occ, occ_steps,
}
use btkernel.Rbtree.Fix.{is_red_tree, blacken, place, fix}
use btkernel.Rbtree.Place.{size}
use btkernel.Rbtree.Loop.{depth, RootBlack}

pub occ-plug :
    (y : ℕ) (steps : Steps) (t : Tree) → occ y (plug steps t) ≡ occ_steps y steps + occ y t
occ-plug y [] t = omega arith
occ-plug y (in_left a c r ∷ steps) t = let h = occ-plug y steps (node t a c r) in omega arith
occ-plug y (in_right l a c ∷ steps) t = let h = occ-plug y steps (node l a c t) in omega arith

pub occ-blacken : (y : ℕ) (t : Tree) → occ y (blacken t) ≡ occ y t
occ-blacken y leaf = refl
occ-blacken y (node l a c r) = refl

pub occ-fix :
    (y : ℕ) (steps : Steps) (l : Tree) (x : ℕ) (r : Tree)
    → occ y (fix steps l x r) ≡ occ_steps y steps + (occ y l + one y x + occ y r)
occ-fix y [] l x r = omega arith
occ-fix y (in_left p black s ∷ steps) l x r =
    occ-plug y (in_left p black s ∷ steps) (node l x red r)
occ-fix y (in_right s p black ∷ steps) l x r =
    occ-plug y (in_right s p black ∷ steps) (node l x red r)
occ-fix y (in_left p red s ∷ []) l x r = occ-plug y (in_left p red s ∷ []) (node l x red r)
occ-fix y (in_right s p red ∷ []) l x r = occ-plug y (in_right s p red ∷ []) (node l x red r)
occ-fix y (in_left p red s ∷ in_left g d u ∷ steps) l x r = elim (Bool-cases (is_red_tree u)) [
  | inl e ↦
      rw (fix, e)
        (let h = occ-fix y steps (node (node l x red r) p black s) g (blacken u) in
          let k = occ-blacken y u in omega arith)
  | inr e ↦
      rw (fix, e)
        (let h = occ-plug y steps (node (node l x red r) p black (node s g red u)) in omega arith)
]
occ-fix y (in_right s p red ∷ in_left g d u ∷ steps) l x r = elim (Bool-cases (is_red_tree u)) [
  | inl e ↦
      rw (fix, e)
        (let h = occ-fix y steps (node s p black (node l x red r)) g (blacken u) in
          let k = occ-blacken y u in omega arith)
  | inr e ↦
      rw (fix, e)
        (let h = occ-plug y steps (node (node s p red l) x black (node r g red u)) in omega arith)
]
occ-fix y (in_right s p red ∷ in_right u g d ∷ steps) l x r = elim (Bool-cases (is_red_tree u)) [
  | inl e ↦
      rw (fix, e)
        (let h = occ-fix y steps (blacken u) g (node s p black (node l x red r)) in
          let k = occ-blacken y u in omega arith)
  | inr e ↦
      rw (fix, e)
        (let h = occ-plug y steps (node (node u g red s) p black (node l x red r)) in omega arith)
]
occ-fix y (in_left p red s ∷ in_right u g d ∷ steps) l x r = elim (Bool-cases (is_red_tree u)) [
  | inl e ↦
      rw (fix, e)
        (let h = occ-fix y steps (blacken u) g (node (node l x red r) p black s) in
          let k = occ-blacken y u in omega arith)
  | inr e ↦
      rw (fix, e)
        (let h = occ-plug y steps (node (node u g red l) x black (node r p red s)) in omega arith)
]

module _ (less : ℕ → ℕ → Bool) (x : ℕ) where
  pub occ_steps-place :
      (y : ℕ) (t : Tree) (steps : Steps)
      → occ_steps y (place less x t steps) ≡ occ_steps y steps + occ y t
  occ_steps-place y leaf steps = omega arith
  occ_steps-place y (node l a c r) steps = elim (Bool-cases (less a x)) [
    | inl e ↦ rw (place, e) (let h = occ_steps-place y r (in_right l a c ∷ steps) in omega arith)
    | inr e ↦ rw (place, e) (let h = occ_steps-place y l (in_left a c r ∷ steps) in omega arith)
  ]

  pub depth-place : (t : Tree) (steps : Steps) → depth (place less x t steps) ≤ depth steps + size t
  depth-place leaf steps = omega arith
  depth-place (node l a c r) steps = elim (Bool-cases (less a x)) [
    | inl e ↦ rw (place, e) (let h = depth-place r (in_right l a c ∷ steps) in omega arith)
    | inr e ↦ rw (place, e) (let h = depth-place l (in_left a c r ∷ steps) in omega arith)
  ]

  -- From below the top.
  RootBlack-deeper :
      (t : Tree) (s : Step) (steps : Steps)
      → RootBlack (s ∷ steps)
      → RootBlack (place less x t (s ∷ steps))
  RootBlack-deeper leaf s steps h = h
  RootBlack-deeper (node l a c r) s steps h = elim (Bool-cases (less a x)) [
    | inl e ↦ rw (place, e) (RootBlack-deeper r (in_right l a c) (s ∷ steps) h)
    | inr e ↦ rw (place, e) (RootBlack-deeper l (in_left a c r) (s ∷ steps) h)
  ]

  pub RootBlack-place : (t : Tree) → is_red_tree t ≡ false → RootBlack (place less x t [])
  RootBlack-place leaf h = tt
  RootBlack-place (node l a red r) h = absurd (cc)
  RootBlack-place (node l a black r) h = elim (Bool-cases (less a x)) [
    | inl e ↦ rw (place, e) (RootBlack-deeper r (in_right l a black) [] refl)
    | inr e ↦ rw (place, e) (RootBlack-deeper l (in_left a black r) [] refl)
  ]
