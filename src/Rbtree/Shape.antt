-- ===== src/Rbtree/Shape.antt =====
-- The trees that an `rbtree` of btmod/bt/lib/rbtree.c stands for, with a focus: a subtree and the
-- steps from it up to the root.
use btkernel.Base.{
  ℕ, ◌+◌, ◌≤◌, ◌<◌, ◌≡◌, sym, ◌∙◌, subst, ◌≢◌, List, [], ◌∷◌, ◌++◌, arith, ◌==◌, if◌then◌else◌,
  if_ne, if_eq,
}
use btkernel.Rbtree.{Color, nil, Rbtree}

pub data Tree : Type 0 where
  leaf : Tree
  node : Tree → ℕ → Color → Tree → Tree

-- The focus is the left, or the right, subtree of an element, whose other subtree is given.
pub data Step : Type 0 where
  in_left : ℕ → Color → Tree → Step
  in_right : Tree → ℕ → Color → Step

abbrev pub Steps : Type 0
Steps = List Step

abbrev pub top : Tree → ℕ
top leaf = nil
top (node l a c r) = a

-- The element above the focus.
abbrev pub above : Steps → ℕ
above [] = nil
above (in_left a c r ∷ steps) = a
above (in_right l a c ∷ steps) = a

-- The whole tree.
abbrev pub plug : Steps → Tree → Tree
plug [] t = t
plug (in_left a c r ∷ steps) t = plug steps (node t a c r)
plug (in_right l a c ∷ steps) t = plug steps (node l a c t)

-- The elements in order: of a tree, and those before and behind a focus.
abbrev pub inorder : Tree → List ℕ
inorder leaf = []
inorder (node l a c r) = inorder l ++ a ∷ inorder r

abbrev pub one : ℕ → ℕ → ℕ
one x a = if x == a then 1 else 0

-- How often an address occurs.
abbrev pub occ : ℕ → Tree → ℕ
occ x leaf = 0
occ x (node l a c r) = occ x l + one x a + occ x r

abbrev pub occ_steps : ℕ → Steps → ℕ
occ_steps x [] = 0
occ_steps x (in_left a c r ∷ steps) = one x a + occ x r + occ_steps x steps
occ_steps x (in_right l a c ∷ steps) = occ x l + one x a + occ_steps x steps

-- No element occurs twice, and none is the sentinel.
abbrev pub IsApart : Steps → Tree → Type 0
IsApart steps t =
    ((x : ℕ) → occ_steps x steps + occ x t ≤ 1) × (occ_steps nil steps + occ nil t ≡ 0)

-- The fields hold the tree, below the element `p`.
abbrev pub Holds : Rbtree → ℕ → Tree → Type 0
Holds t p leaf = Unit
Holds t p (node l a c r) =
    (t.left a ≡ top l)
    × (t.right a ≡ top r)
    × (t.parent a ≡ p)
    × (t.color a ≡ c)
    × Holds t a l
    × Holds t a r

-- The fields hold what surrounds a focus with the top `x`.
abbrev pub HoldsSteps : Rbtree → ℕ → Steps → Type 0
HoldsSteps t x [] = t.root ≡ x
HoldsSteps t x (in_left a c r ∷ steps) =
    (t.left a ≡ x)
    × (t.right a ≡ top r)
    × (t.parent a ≡ above steps)
    × (t.color a ≡ c)
    × Holds t a r
    × HoldsSteps t a steps
HoldsSteps t x (in_right l a c ∷ steps) =
    (t.left a ≡ top l)
    × (t.right a ≡ x)
    × (t.parent a ≡ above steps)
    × (t.color a ≡ c)
    × Holds t a l
    × HoldsSteps t a steps

-- The tree is held as a whole.
abbrev pub Is : Rbtree → Tree → Type 0
Is t tree = (t.root ≡ top tree) × Holds t nil tree

-- The fields of the element agree.
abbrev pub Agree : Rbtree → Rbtree → ℕ → Type 0
Agree t u x =
    (u.left x ≡ t.left x)
    × (u.right x ≡ t.right x)
    × (u.parent x ≡ t.parent x)
    × (u.color x ≡ t.color x)

pub one_self : (a : ℕ) → one a a ≡ 1
one_self a = if_eq a 1 0

pub occ-ne : (x a : ℕ) (tree : Tree) → 0 < occ x tree → occ a tree ≡ 0 → x ≢ a
occ-ne x a tree h k e = let z = subst (λ u. occ u tree ≡ 0) (sym e) k in omega arith

pub Holds-frame :
    (t u : Rbtree) (p : ℕ) (tree : Tree)
    → ((x : ℕ) → 0 < occ x tree → Agree t u x)
    → Holds t p tree
    → Holds u p tree
Holds-frame t u p leaf same h = tt
Holds-frame t u p (node l a c r) same (el, er, ep, ec, hl, hr) =
    let (fl, fr, fp, fc) = same a (let self = one_self a in omega arith) in
    (
      fl ∙ el,
      fr ∙ er,
      fp ∙ ep,
      fc ∙ ec,
      Holds-frame t u a l (λ x h. same x (omega arith)) hl,
      Holds-frame t u a r (λ x h. same x (omega arith)) hr,
    )

-- A tree that is moved below another element.
pub Holds-move :
    (t u : Rbtree) (p q : ℕ) (tree : Tree)
    → ((x : ℕ)
        → 0 < occ x tree
        → (u.left x ≡ t.left x)
          × (u.right x ≡ t.right x)
          × (u.color x ≡ t.color x)
          × (u.parent x ≡ (if x == top tree then q else t.parent x)))
    → (occ (top tree) tree ≤ 1)
    → Holds t p tree
    → Holds u q tree
Holds-move t u p q leaf same once h = tt
Holds-move t u p q (node l a c r) same once (el, er, ep, ec, hl, hr) =
    let self = one_self a in
    let (fl, fr, fc, fp) = same a (omega arith) in
    (
      fl ∙ el,
      fr ∙ er,
      fp ∙ if_eq a q (t.parent a),
      fc ∙ ec,
      Holds-frame t u a l
          (λ x h.
            let (gl, gr, gc, gp) = same x (omega arith) in
            (gl, gr, gp ∙ if_ne x a q (t.parent x) (occ-ne x a l h (omega arith)), gc))
          hl,
      Holds-frame t u a r
          (λ x h.
            let (gl, gr, gc, gp) = same x (omega arith) in
            (gl, gr, gp ∙ if_ne x a q (t.parent x) (occ-ne x a r h (omega arith)), gc))
          hr,
    )

pub HoldsSteps-frame :
    (t u : Rbtree) (x : ℕ) (steps : Steps)
    → ((y : ℕ) → 0 < occ_steps y steps → Agree t u y)
    → u.root ≡ t.root
    → HoldsSteps t x steps
    → HoldsSteps u x steps
HoldsSteps-frame t u x [] same root h = root ∙ h
HoldsSteps-frame t u x (in_left a c r ∷ steps) same root (el, er, ep, ec, hr, hs) =
    let (fl, fr, fp, fc) = same a (let self = one_self a in omega arith) in
    (
      fl ∙ el,
      fr ∙ er,
      fp ∙ ep,
      fc ∙ ec,
      Holds-frame t u a r (λ y h. same y (omega arith)) hr,
      HoldsSteps-frame t u a steps (λ y h. same y (omega arith)) root hs,
    )
HoldsSteps-frame t u x (in_right l a c ∷ steps) same root (el, er, ep, ec, hl, hs) =
    let (fl, fr, fp, fc) = same a (let self = one_self a in omega arith) in
    (
      fl ∙ el,
      fr ∙ er,
      fp ∙ ep,
      fc ∙ ec,
      Holds-frame t u a l (λ y h. same y (omega arith)) hl,
      HoldsSteps-frame t u a steps (λ y h. same y (omega arith)) root hs,
    )

-- A held focus is a held tree.
pub plug-Is :
    (t : Rbtree) (steps : Steps) (tree : Tree)
    → HoldsSteps t (top tree) steps
    → Holds t (above steps) tree
    → Is t (plug steps tree)
plug-Is t [] tree h k = (h, k)
plug-Is t (in_left a c r ∷ steps) tree (el, er, ep, ec, hr, hs) k =
    plug-Is t steps (node tree a c r) hs (el, er, ep, ec, k, hr)
plug-Is t (in_right l a c ∷ steps) tree (el, er, ep, ec, hl, hs) k =
    plug-Is t steps (node l a c tree) hs (el, er, ep, ec, hl, k)
