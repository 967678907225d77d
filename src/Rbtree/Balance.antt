-- ===== src/Rbtree/Balance.antt =====
-- Red-black trees, and that an insertion of btmod/bt/lib/rbtree.c leaves one.
use btkernel.Base.{
  ℕ, suc, ◌+◌, ◌≡◌, refl, sym, subst, inl, inr, Bool, true, false, [], ◌∷◌, arith, Bool-cases,
}
use btkernel.Rbtree.{Color, black, red}
use btkernel.Rbtree.Shape.{Tree, leaf, node, in_left, in_right, Steps, plug}
use btkernel.Rbtree.Fix.{is_red_tree, blacken, place, fix, insert}
use btkernel.Rbtree.Loop.{RootBlack, RootBlack-tail}
use btkernel.Rbtree.Counts.{RootBlack-place}

abbrev pub bump : Color → ℕ
bump black = 1
bump red = 0

-- The black nodes on the way to the leftmost leaf.
abbrev pub height : Tree → ℕ
height leaf = 0
height (node l a c r) = bump c + height l

-- A red node has no red child.
abbrev pub IsCalm : Color → Tree → Tree → Type 0
IsCalm black l r = Unit
IsCalm red l r = (is_red_tree l ≡ false) × (is_red_tree r ≡ false)

-- All ways to a leaf pass as many black nodes.
abbrev pub IsBalanced : Tree → Type 0
IsBalanced leaf = Unit
IsBalanced (node l a c r) = IsBalanced l × IsBalanced r × (height l ≡ height r) × IsCalm c l r

abbrev above_color : Steps → Color
above_color [] = black
above_color (in_left a c r ∷ steps) = c
above_color (in_right l a c ∷ steps) = c

abbrev IsCalmStep : Color → Tree → Steps → Type 0
IsCalmStep black t steps = Unit
IsCalmStep red t steps = (is_red_tree t ≡ false) × (above_color steps ≡ black)

-- The surroundings of a balanced tree of the height `h`.
abbrev Fits : Steps → ℕ → Type 0
Fits [] h = Unit
Fits (in_left a c r ∷ steps) h =
    IsBalanced r × (h ≡ height r) × IsCalmStep c r steps × Fits steps (bump c + h)
Fits (in_right l a c ∷ steps) h =
    IsBalanced l × (height l ≡ h) × IsCalmStep c l steps × Fits steps (bump c + h)

plug-IsBalanced :
    (steps : Steps) (t : Tree)
    → Fits steps (height t)
    → IsBalanced t
    → (above_color steps ≡ red → is_red_tree t ≡ false)
    → IsBalanced (plug steps t)
plug-IsBalanced [] t fits bal calm = bal
plug-IsBalanced (in_left a black r ∷ steps) t (br, same, tt, fits) bal calm =
    plug-IsBalanced steps (node t a black r) fits (bal, br, same, tt) (λ h. refl)
plug-IsBalanced (in_left a red r ∷ steps) t (br, same, (rr, dark), fits) bal calm =
    plug-IsBalanced steps (node t a red r) fits (bal, br, same, (calm refl, rr)) (λ h. absurd (cc))
plug-IsBalanced (in_right l a black ∷ steps) t (bl, same, tt, fits) bal calm =
    plug-IsBalanced steps (node l a black t)
      (subst (λ h. Fits steps (bump black + h)) (sym same) fits) (bl, bal, same, tt) (λ h. refl)
plug-IsBalanced (in_right l a red ∷ steps) t (bl, same, (rl, dark), fits) bal calm =
    plug-IsBalanced steps (node l a red t) (subst (λ h. Fits steps (bump red + h)) (sym same) fits)
      (bl, bal, same, (rl, calm refl)) (λ h. absurd (cc))

-- A red tree that is made black.
abbrev Blackened : Tree → Type 0
Blackened u =
    IsBalanced (blacken u)
    × (height (blacken u) ≡ suc (height u))
    × (is_red_tree (blacken u) ≡ false)

blacken-Blackened : (u : Tree) → is_red_tree u ≡ true → IsBalanced u → Blackened u
blacken-Blackened leaf e bal = absurd (cc)
blacken-Blackened (node l a black r) e bal = absurd (cc)
blacken-Blackened (node l a red r) e (bl, br, same, calm) = ((bl, br, same, tt), omega arith, refl)

pub blacken-IsBalanced : (u : Tree) → IsBalanced u → IsBalanced (blacken u)
blacken-IsBalanced leaf bal = tt
blacken-IsBalanced (node l a c r) (bl, br, same, calm) = (bl, br, same, tt)

-- The node at the focus is red, and its children are not.
abbrev Focus : Steps → Tree → Tree → Type 0
Focus steps l r =
    IsBalanced l
    × IsBalanced r
    × (height l ≡ height r)
    × (is_red_tree l ≡ false)
    × (is_red_tree r ≡ false)
    × Fits steps (height l)

fix-IsBalanced :
    (steps : Steps) (l : Tree) (x : ℕ) (r : Tree)
    → RootBlack steps
    → Focus steps l r
    → IsBalanced (fix steps l x r)
fix-IsBalanced [] l x r dark (bl, br, same, cl, cr, fits) = (bl, br, same, (cl, cr))
fix-IsBalanced (in_left p black s ∷ steps) l x r dark (bl, br, same, cl, cr, fits) =
    plug-IsBalanced (in_left p black s ∷ steps) (node l x red r)
      (subst (Fits (in_left p black s ∷ steps)) (omega arith) fits) (bl, br, same, (cl, cr))
      (λ h. absurd (cc))
fix-IsBalanced (in_right s p black ∷ steps) l x r dark (bl, br, same, cl, cr, fits) =
    plug-IsBalanced (in_right s p black ∷ steps) (node l x red r)
      (subst (Fits (in_right s p black ∷ steps)) (omega arith) fits) (bl, br, same, (cl, cr))
      (λ h. absurd (cc))
fix-IsBalanced (in_left p red s ∷ []) l x r dark focus = absurd (cc)
fix-IsBalanced (in_right s p red ∷ []) l x r dark focus = absurd (cc)
fix-IsBalanced (in_left p red s ∷ in_left g d u ∷ steps) l x r dark focus =
    let (bl, br, same, cl, cr, (bs, hs, (cs, gd), (bu, hu, calm, high))) = focus in
    let fits = subst (λ e. Fits steps (bump e + (bump red + height l))) gd high in
    elim (Bool-cases (is_red_tree u)) [
      | inl e ↦
          let (bu', hu', cu') = blacken-Blackened u e bu in
          rw (fix, e)
            (fix-IsBalanced steps (node (node l x red r) p black s) g (blacken u)
              (RootBlack-tail (in_left g d u) steps dark)
              (
                ((bl, br, same, (cl, cr)), bs, omega arith, tt),
                bu',
                omega arith,
                refl,
                cu',
                subst (Fits steps) (omega arith) fits,
              ))
      | inr e ↦
          rw (fix, e)
            (plug-IsBalanced steps (node (node l x red r) p black (node s g red u))
              (subst (Fits steps) (omega arith) fits)
              ((bl, br, same, (cl, cr)), (bs, bu, omega arith, (cs, e)), omega arith, tt)
              (λ h. refl))
    ]
fix-IsBalanced (in_right s p red ∷ in_left g d u ∷ steps) l x r dark focus =
    let (bl, br, same, cl, cr, (bs, hs, (cs, gd), (bu, hu, calm, high))) = focus in
    let fits = subst (λ e. Fits steps (bump e + (bump red + height l))) gd high in
    elim (Bool-cases (is_red_tree u)) [
      | inl e ↦
          let (bu', hu', cu') = blacken-Blackened u e bu in
          rw (fix, e)
            (fix-IsBalanced steps (node s p black (node l x red r)) g (blacken u)
              (RootBlack-tail (in_left g d u) steps dark)
              (
                (bs, (bl, br, same, (cl, cr)), omega arith, tt),
                bu',
                omega arith,
                refl,
                cu',
                subst (Fits steps) (omega arith) fits,
              ))
      | inr e ↦
          rw (fix, e)
            (plug-IsBalanced steps (node (node s p red l) x black (node r g red u))
              (subst (Fits steps) (omega arith) fits)
              ((bs, bl, omega arith, (cs, cl)), (br, bu, omega arith, (cr, e)), omega arith, tt)
              (λ h. refl))
    ]
fix-IsBalanced (in_left p red s ∷ in_right u g d ∷ steps) l x r dark focus =
    let (bl, br, same, cl, cr, (bs, hs, (cs, gd), (bu, hu, calm, high))) = focus in
    let fits = subst (λ e. Fits steps (bump e + (bump red + height l))) gd high in
    elim (Bool-cases (is_red_tree u)) [
      | inl e ↦
          let (bu', hu', cu') = blacken-Blackened u e bu in
          rw (fix, e)
            (fix-IsBalanced steps (blacken u) g (node (node l x red r) p black s)
              (RootBlack-tail (in_right u g d) steps dark)
              (
                bu',
                ((bl, br, same, (cl, cr)), bs, omega arith, tt),
                omega arith,
                cu',
                refl,
                subst (Fits steps) (omega arith) fits,
              ))
      | inr e ↦
          rw (fix, e)
            (plug-IsBalanced steps (node (node u g red l) x black (node r p red s))
              (subst (Fits steps) (omega arith) fits)
              ((bu, bl, omega arith, (e, cl)), (br, bs, omega arith, (cr, cs)), omega arith, tt)
              (λ h. refl))
    ]
fix-IsBalanced (in_right s p red ∷ in_right u g d ∷ steps) l x r dark focus =
    let (bl, br, same, cl, cr, (bs, hs, (cs, gd), (bu, hu, calm, high))) = focus in
    let fits = subst (λ e. Fits steps (bump e + (bump red + height l))) gd high in
    elim (Bool-cases (is_red_tree u)) [
      | inl e ↦
          let (bu', hu', cu') = blacken-Blackened u e bu in
          rw (fix, e)
            (fix-IsBalanced steps (blacken u) g (node s p black (node l x red r))
              (RootBlack-tail (in_right u g d) steps dark)
              (
                bu',
                (bs, (bl, br, same, (cl, cr)), omega arith, tt),
                omega arith,
                cu',
                refl,
                subst (Fits steps) (omega arith) fits,
              ))
      | inr e ↦
          rw (fix, e)
            (plug-IsBalanced steps (node (node u g red s) p black (node l x red r))
              (subst (Fits steps) (omega arith) fits)
              ((bu, bs, omega arith, (e, cs)), (bl, br, same, (cl, cr)), omega arith, tt)
              (λ h. refl))
    ]

not_red : (c : Color) → (c ≡ red → true ≡ false) → c ≡ black
not_red black h = refl
not_red red h = absurd (let k = h refl in cc)

module _ (less : ℕ → ℕ → Bool) (x : ℕ) where
  place-Fits :
      (t : Tree) (steps : Steps)
      → IsBalanced t
      → Fits steps (height t)
      → (above_color steps ≡ red → is_red_tree t ≡ false)
      → Fits (place less x t steps) 0
  place-Fits leaf steps bal fits calm = fits
  place-Fits (node l a red r) steps (bl, br, same, (cl, cr)) fits calm =
      elim (Bool-cases (less a x)) [
        | inl e ↦
            rw (place, e)
              (place-Fits r (in_right l a red ∷ steps) br
                (
                  bl,
                  same,
                  (cl, not_red (above_color steps) calm),
                  subst (λ h. Fits steps (0 + h)) same fits,
                )
                (λ h. cr))
        | inr e ↦
            rw (place, e)
              (place-Fits l (in_left a red r ∷ steps) bl
                (br, same, (cr, not_red (above_color steps) calm), fits) (λ h. cl))
      ]
  place-Fits (node l a black r) steps (bl, br, same, c) fits calm = elim (Bool-cases (less a x)) [
    | inl e ↦
        rw (place, e)
          (place-Fits r (in_right l a black ∷ steps) br
            (bl, same, tt, subst (λ h. Fits steps (1 + h)) same fits) (λ h. absurd (cc)))
    | inr e ↦
        rw (place, e)
          (place-Fits l (in_left a black r ∷ steps) bl (br, same, tt, fits) (λ h. absurd (cc)))
  ]

pub insert-IsBalanced :
    (less : ℕ → ℕ → Bool) (x : ℕ) (tree : Tree)
    → is_red_tree tree ≡ false
    → IsBalanced tree
    → IsBalanced (insert less x tree)
insert-IsBalanced less x tree dark bal =
    let steps = place less x tree [] in
    blacken-IsBalanced (fix steps leaf x leaf) (
      fix-IsBalanced steps leaf x leaf (RootBlack-place less x tree dark)
        (tt, tt, refl, refl, refl, place-Fits less x tree [] bal tt (λ h. absurd (cc))))
