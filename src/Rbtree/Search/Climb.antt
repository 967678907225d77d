-- ===== src/Rbtree/Search/Climb.antt =====
-- The loops of `minimum` and `successor` and their mirrors in btmod/bt/lib/rbtree.c.
use btkernel.Base.{
  ℕ, zero, suc, ◌+◌, ◌≤◌, ◌<◌, ◌≡◌, refl, sym, ap, ◌∙◌, ◌≢◌, inl, inr, true, false, List, [], ◌∷◌,
  ◌++◌, append_assoc, arith, ◌==◌, Bool-cases, ==_refl, ==_ne, ok,
}
use btkernel.Rbtree.{Color, Rbtree, nil}
use btkernel.Rbtree.Shape.{
  Tree, leaf, node, in_left, in_right, Steps, above, plug, inorder, one, occ, occ_steps, Holds,
  HoldsSteps, one_self,
}
use btkernel.Rbtree.Relink.{one-ne, top-ne}
use btkernel.Rbtree.Place.{size}
use btkernel.Rbtree.Loop.{depth}
use btkernel.Rbtree.Order.{before, behind}
use btkernel.Rbtree.Search.{minimum, maximum, climb}

-- The ends of a sequence, or the sentinel.
abbrev pub first : List ℕ → ℕ
first [] = nil
first (x ∷ xs) = x

abbrev pub last : List ℕ → ℕ
last [] = nil
last (x ∷ []) = x
last (x ∷ y ∷ xs) = last (y ∷ xs)

pub first-append : (xs ys zs : List ℕ) (a : ℕ) → first ((xs ++ a ∷ ys) ++ zs) ≡ first (xs ++ a ∷ ys)
first-append [] ys zs a = refl
first-append (x ∷ xs) ys zs a = refl

pub last-cons : (z : ℕ) (xs ys : List ℕ) (a : ℕ) → last (z ∷ xs ++ a ∷ ys) ≡ last (xs ++ a ∷ ys)
last-cons z [] ys a = refl
last-cons z (x ∷ xs) ys a = refl

pub last-behind : (xs ys : List ℕ) (a : ℕ) → last (xs ++ a ∷ ys) ≡ last (a ∷ ys)
last-behind [] ys a = refl
last-behind (x ∷ xs) ys a = last-cons x xs ys a ∙ last-behind xs ys a

pub last-append : (zs xs ys : List ℕ) (a : ℕ) → last (zs ++ (xs ++ a ∷ ys)) ≡ last (xs ++ a ∷ ys)
last-append zs xs ys a =
    ap last (sym (append_assoc zs xs (a ∷ ys)))
    ∙ last-behind (zs ++ xs) ys a
    ∙ sym (last-behind xs ys a)

pub size-plug : (steps : Steps) (t : Tree) → depth steps + size t ≤ size (plug steps t)
size-plug [] t = omega arith
size-plug (in_left a c r ∷ steps) t = let h = size-plug steps (node t a c r) in omega arith
size-plug (in_right l a c ∷ steps) t = let h = size-plug steps (node l a c t) in omega arith

pub minimum-first :
    (rounds : ℕ) (t : Rbtree) (p : ℕ) (l : Tree) (a : ℕ) (c : Color) (r : Tree)
    → size (node l a c r) ≤ rounds
    → occ nil (node l a c r) ≡ 0
    → Holds t p (node l a c r)
    → minimum rounds t a ≡ ok (first (inorder (node l a c r)))
unfolding minimum
minimum-first zero t p l a c r le out h = absurd (omega arith)
minimum-first (suc rounds) t p leaf a c r le out (el, er, ep, ec, hl, hr) = rw (minimum, el)
minimum-first (suc rounds) t p (node ll b d lr) a c r le out (el, er, ep, ec, hl, hr) =
    let down : t.left a == nil ≡ false =
      ==_ne (t.left a) nil (λ h. one-ne nil b (omega arith) (sym (sym el ∙ h))) in
    let start : minimum (suc rounds) t a ≡ minimum rounds t (t.left a) = rw (minimum, down) in
    start
    ∙ ap (minimum rounds t) el
    ∙ minimum-first rounds t a ll b d lr (omega arith) (omega arith) hl
    ∙ ap ok (sym (first-append (inorder ll) (inorder lr) (a ∷ inorder r) b))

pub maximum-last :
    (rounds : ℕ) (t : Rbtree) (p : ℕ) (l : Tree) (a : ℕ) (c : Color) (r : Tree)
    → size (node l a c r) ≤ rounds
    → occ nil (node l a c r) ≡ 0
    → Holds t p (node l a c r)
    → maximum rounds t a ≡ ok (last (inorder (node l a c r)))
unfolding maximum
maximum-last zero t p l a c r le out h = absurd (omega arith)
maximum-last (suc rounds) t p l a c leaf le out (el, er, ep, ec, hl, hr) =
    rw (maximum, er) (ap ok (sym (last-behind (inorder l) [] a)))
maximum-last (suc rounds) t p l a c (node rl b d rr) le out (el, er, ep, ec, hl, hr) =
    let down : t.right a == nil ≡ false =
      ==_ne (t.right a) nil (λ h. one-ne nil b (omega arith) (sym (sym er ∙ h))) in
    let start : maximum (suc rounds) t a ≡ maximum rounds t (t.right a) = rw (maximum, down) in
    start
    ∙ ap (maximum rounds t) er
    ∙ maximum-last rounds t a rl b d rr (omega arith) (omega arith) hr
    ∙ ap ok (
        sym (
          last-behind (inorder l) (inorder rl ++ b ∷ inorder rr) a
          ∙ last-cons a (inorder rl) (inorder rr) b))

pub climb_right-first :
    (rounds : ℕ) (t : Rbtree) (x : ℕ) (steps : Steps)
    → depth steps < rounds
    → ((y : ℕ) → occ_steps y steps + one y x ≤ 1)
    → occ_steps nil steps + one nil x ≡ 0
    → HoldsSteps t x steps
    → climb t.right rounds t x (above steps) ≡ ok (first (behind steps))
unfolding climb
climb_right-first zero t x steps le apart out h = absurd (omega arith)
climb_right-first (suc rounds) t x [] le apart out h = refl
climb_right-first (suc rounds) t x (in_left a c r ∷ steps) le apart out (el, er, ep, ec, hr, hs) =
    let self = one_self x in
    let dx = apart x in
    let some_x : x ≢ nil = λ h. one-ne nil x (omega arith) (sym h) in
    let stays : x == t.right a ≡ false =
      ==_ne x (t.right a) (λ h. top-ne x r (omega arith) some_x (h ∙ er)) in
    elim (Bool-cases (a == nil)) [ inl e ↦ rw (climb, e) | inr e ↦ rw (climb, e, stays) ]
climb_right-first (suc rounds) t x (in_right l a c ∷ steps) le apart out (el, er, ep, ec, hl, hs) =
    let a_nil = ==_ne a nil (λ h. one-ne nil a (omega arith) (sym h)) in
    let up : x == t.right a ≡ true = rw (er, ==_refl x) in
    let start : climb t.right (suc rounds) t x a ≡ climb t.right rounds t a (t.parent a) =
      rw (climb, a_nil, up) in
    start
    ∙ ap (climb t.right rounds t a) ep
    ∙ climb_right-first rounds t a steps (omega arith) (λ y. let d = apart y in omega arith)
        (omega arith) hs

pub climb_left-last :
    (rounds : ℕ) (t : Rbtree) (x : ℕ) (steps : Steps)
    → depth steps < rounds
    → ((y : ℕ) → occ_steps y steps + one y x ≤ 1)
    → occ_steps nil steps + one nil x ≡ 0
    → HoldsSteps t x steps
    → climb t.left rounds t x (above steps) ≡ ok (last (before steps))
unfolding climb
climb_left-last zero t x steps le apart out h = absurd (omega arith)
climb_left-last (suc rounds) t x [] le apart out h = refl
climb_left-last (suc rounds) t x (in_right l a c ∷ steps) le apart out (el, er, ep, ec, hl, hs) =
    let self = one_self x in
    let dx = apart x in
    let some_x : x ≢ nil = λ h. one-ne nil x (omega arith) (sym h) in
    let stays : x == t.left a ≡ false =
      ==_ne x (t.left a) (λ h. top-ne x l (omega arith) some_x (h ∙ el)) in
    let end = ap ok (sym (last-behind (before steps ++ inorder l) [] a)) in
    elim (Bool-cases (a == nil)) [ inl e ↦ rw (climb, e) end | inr e ↦ rw (climb, e, stays) end ]
climb_left-last (suc rounds) t x (in_left a c r ∷ steps) le apart out (el, er, ep, ec, hr, hs) =
    let a_nil = ==_ne a nil (λ h. one-ne nil a (omega arith) (sym h)) in
    let up : x == t.left a ≡ true = rw (el, ==_refl x) in
    let start : climb t.left (suc rounds) t x a ≡ climb t.left rounds t a (t.parent a) =
      rw (climb, a_nil, up) in
    start
    ∙ ap (climb t.left rounds t a) ep
    ∙ climb_left-last rounds t a steps (omega arith) (λ y. let d = apart y in omega arith)
        (omega arith) hs
