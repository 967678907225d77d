-- ===== src/Rbtree/Insert.antt =====
-- `rbtree_insert` of btmod/bt/lib/rbtree.c carries out the insertion into a tree.
use btkernel.Base.{
  ℕ, zero, suc, ◌+◌, ◌≤◌, ◌<◌, ◌≡◌, refl, sym, ap, ◌∙◌, subst, ◌≢◌, Bool, true, false, [], ◌∷◌,
  arith, ℕ_discrete, ◌==◌, ==_refl, ==_ne, if_ne, if_eq, ◌>>=◌, ok,
}
use btkernel.Rbtree.{
  black, red, is_red, Rbtree, nil, set_left, set_right, set_parent, set_color, insert_loop,
  insert_at, rb_insert, node_insert, rbtree_insert,
}
use btkernel.Rbtree.Shape.{
  Tree, leaf, node, in_left, in_right, Steps, above, one, occ, IsApart, Holds, HoldsSteps, Is,
  one_self, occ-ne, Holds-frame, plug-Is,
}
use btkernel.Rbtree.Relink.{one-ne}
use btkernel.Rbtree.Fix.{is_red_tree, blacken, place, fix, insert}
use btkernel.Rbtree.Place.{size, insert_at-Hangs}
use btkernel.Rbtree.Paint.{Holds-paint_top, HoldsSteps-paint}
use btkernel.Rbtree.Loop.{depth, RootBlack, Loops, Ends, HoldsSteps-root, black_stops}
use btkernel.Rbtree.Counts.{occ-fix, occ-blacken, occ_steps-place, depth-place, RootBlack-place}
use btkernel.Rbtree.Rounds.{left_outer-Ends, left_inner-Ends, right_outer-Ends, right_inner-Ends}

pub insert_loop-Ends :
    (n root : ℕ) (t : Rbtree) (steps : Steps) (tl : Tree) (x : ℕ) (tr : Tree)
    → Ends n root t steps tl x tr
unfolding insert_loop
insert_loop-Ends zero root t steps tl x tr le at apart dark hs hx = absurd (omega arith)
insert_loop-Ends (suc n) root t [] tl x tr le at apart dark hs hx =
    let same : x == root ≡ true = rw (at, ==_refl x) in (t, rw (insert_loop, same), (hs, hx))
insert_loop-Ends (suc n) root t (in_left p black s ∷ steps) tl x tr le at apart dark hs hx =
    let (pl, pr, pq, pc, hm, hs') = hs in
    let (xl, xr, xq, xc, hl, hr) = hx in
    (
      t,
      black_stops n root t x (ap (λ a. is_red (t.color a)) xq ∙ ap is_red pc),
      plug-Is t (in_left p black s ∷ steps) (node tl x red tr) hs hx,
    )
insert_loop-Ends (suc n) root t (in_right s p black ∷ steps) tl x tr le at apart dark hs hx =
    let (pl, pr, pq, pc, hm, hs') = hs in
    let (xl, xr, xq, xc, hl, hr) = hx in
    (
      t,
      black_stops n root t x (ap (λ a. is_red (t.color a)) xq ∙ ap is_red pc),
      plug-Is t (in_right s p black ∷ steps) (node tl x red tr) hs hx,
    )
insert_loop-Ends (suc n) root t (in_left p red s ∷ []) tl x tr le at apart dark hs hx = absurd (cc)
insert_loop-Ends (suc n) root t (in_right s p red ∷ []) tl x tr le at apart dark hs hx = absurd (cc)
insert_loop-Ends (suc n) root t (in_left p red s ∷ in_left g d u ∷ steps) tl x tr le at apart dark
      hs hx =
    left_outer-Ends n root t steps s p tl x tr g d u
      (λ t' l r. insert_loop-Ends n root t' steps l g r) le at apart dark hs hx
insert_loop-Ends (suc n) root t (in_right s p red ∷ in_left g d u ∷ steps) tl x tr le at apart dark
      hs hx =
    left_inner-Ends n root t steps s p tl x tr g d u
      (λ t' l r. insert_loop-Ends n root t' steps l g r) le at apart dark hs hx
insert_loop-Ends (suc n) root t (in_right s p red ∷ in_right u g d ∷ steps) tl x tr le at apart dark
      hs hx =
    right_outer-Ends n root t steps s p tl x tr g d u
      (λ t' l r. insert_loop-Ends n root t' steps l g r) le at apart dark hs hx
insert_loop-Ends (suc n) root t (in_left p red s ∷ in_right u g d ∷ steps) tl x tr le at apart dark
      hs hx =
    right_inner-Ends n root t steps s p tl x tr g d u
      (λ t' l r. insert_loop-Ends n root t' steps l g r) le at apart dark hs hx

-- The last assignment of `rb_insert` makes the root black.
blacken-Is :
    (t : Rbtree) (tree : Tree)
    → ((y : ℕ) → occ y tree ≤ 1)
    → Is t tree
    → Is (set_color t t.root black) (blacken tree)
blacken-Is t leaf once (at, h) = (at, tt)
blacken-Is t (node l a c r) once (at, h) = (
  at,
  subst (λ b. Holds (set_color t b black) nil (node l a black r)) (sym at)
      (Holds-paint_top t l a c r black nil (once a) h),
)

-- The state after `rbtree_insert` has linked the new node, and after it.
pub rb_insert-Loops :
    (n : ℕ) (t : Rbtree) (steps : Steps) (x : ℕ)
    → depth steps < n
    → IsApart steps (node leaf x red leaf)
    → RootBlack steps
    → HoldsSteps t x steps
    → Holds t (above steps) (node leaf x red leaf)
    → Loops (rb_insert n t x) (blacken (fix steps leaf x leaf))
unfolding rb_insert
rb_insert-Loops n t steps x le apart dark hs hx =
    let x_once = one_self x in
    let dx = apart.0 x in
    let t₁ = set_color t x red in
    let s₁ = HoldsSteps-paint t x red x steps (omega arith) hs in
    let h₁ = Holds-paint_top t leaf x red leaf red (above steps) (omega arith) hx in
    let (u, run, is) =
      insert_loop-Ends n t.root t₁ steps leaf x leaf le (HoldsSteps-root t x steps hs) apart dark s₁
        h₁ in
    (
      set_color u u.root black,
      rw (rb_insert, run, ◌>>=◌),
      blacken-Is u (fix steps leaf x leaf)
          (λ y. let d = apart.0 y in let k = occ-fix y steps leaf x leaf in omega arith) is,
    )

-- The tree that the fields hold: no element twice, none the sentinel, and the root black.
pub record HoldsTree (t : Rbtree) (tree : Tree) : Type 0 where
  pub is : Is t tree
  pub apart : IsApart [] tree
  pub dark : is_red_tree tree ≡ false

-- A new address beside a tree.
one_new : (x y : ℕ) (tree : Tree) → occ x tree ≡ 0 → occ y tree ≤ 1 → occ y tree + one y x ≤ 1
one_new x y tree out once = elim (ℕ_discrete y x) [
  | yes e ↦
      let z = subst (λ v. occ v tree ≡ 0) (sym e) out in
      let self = subst (λ v. one y v ≡ 1) e (one_self y) in omega arith
  | no n ↦ let other : one y x ≡ 0 = if_ne y x 1 0 n in omega arith
]

module _ (less : ℕ → ℕ → Bool) (rounds : ℕ) (t : Rbtree) (x : ℕ) (some_x : x ≢ nil)
    (xl : t.left x ≡ nil) (xr : t.right x ≡ nil) (xp : t.parent x ≡ nil)
    (xc : t.color x ≡ red) where
  node_insert-Loops :
      (tree : Tree)
      → suc (size tree) ≤ rounds
      → HoldsTree t tree
      → occ x tree ≡ 0
      → Loops (node_insert less rounds t x) (insert less x tree)
  unfolding node_insert
  node_insert-Loops leaf le held out =
      let at : t.root ≡ nil = held.is.0 in
      let u = record t { root = x } in
      let there : t.root == nil ≡ true = rw at in
      let z : one nil x ≡ 0 = if_ne nil x 1 0 (λ h. some_x (sym h)) in
      let (v, run, is) =
        rb_insert-Loops rounds u [] x le
          ((λ y. let d = one_new x y leaf refl (omega arith) in omega arith), omega arith) tt refl
          (xl, xr, xp, xc, tt, tt) in
      (v, rw (node_insert, there, ◌>>=◌, run), is)
  node_insert-Loops (node l a c r) le held out =
      let at : t.root ≡ a = held.is.0 in
      let tree = node l a c r in
      let there : t.root == nil ≡ false =
        ==_ne t.root nil (λ h. one-ne nil a (omega (arith, held.apart.1)) (sym (sym at ∙ h))) in
      let z : one nil x ≡ 0 = if_ne nil x 1 0 (λ h. some_x (sym h)) in
      let (u, hung, hu, hx) =
        insert_at-Hangs less t x some_x xl xr xc rounds [] l a c r (omega arith)
          (λ y. let e = held.apart.0 y in let d = one_new x y tree out (omega arith) in omega arith)
          (omega (arith, held.apart.1)) at held.is.1 in
      let steps = place less x tree [] in
      let deep = depth-place less x tree [] in
      let (v, run, is) =
        rb_insert-Loops rounds u steps x (omega arith)
          (
            (λ y.
                let e = held.apart.0 y in
                let d = one_new x y tree out (omega arith) in
                let k = occ_steps-place less x y tree [] in omega arith),
            (let k = occ_steps-place less x nil tree [] in omega (arith, held.apart.1)),
          )
          (RootBlack-place less x tree held.dark) hu hx in
      let linked : insert_at less rounds t t.root x ≡ ok u =
        ap (λ b. insert_at less rounds t b x) at ∙ hung in
      (v, rw (node_insert, there, linked, ◌>>=◌, run), is)

is_red_tree-blacken : (t : Tree) → is_red_tree (blacken t) ≡ false
is_red_tree-blacken leaf = refl
is_red_tree-blacken (node l a c r) = refl

pub occ-insert :
    (less : ℕ → ℕ → Bool) (x y : ℕ) (tree : Tree)
    → occ y (insert less x tree) ≡ occ y tree + one y x
occ-insert less x y tree =
    let h = occ-blacken y (fix (place less x tree []) leaf x leaf) in
    let k = occ-fix y (place less x tree []) leaf x leaf in
    let e = occ_steps-place less x y tree [] in omega arith

pub insert-IsApart :
    (less : ℕ → ℕ → Bool) (x : ℕ) (tree : Tree)
    → x ≢ nil
    → IsApart [] tree
    → occ x tree ≡ 0
    → IsApart [] (insert less x tree)
insert-IsApart less x tree some_x apart out = (
  (λ y.
      let e = apart.0 y in
      let d = one_new x y tree out (omega arith) in
      let k = occ-insert less x y tree in omega arith),
  (let z : one nil x ≡ 0 = if_ne nil x 1 0 (λ h. some_x (sym h)) in
      let k = occ-insert less x nil tree in omega (arith, apart.1)),
)

-- A new element is inserted, and `rounds` is enough for the height of the tree.
pub rbtree_insert-HoldsTree :
    (less : ℕ → ℕ → Bool) (rounds : ℕ) (t : Rbtree) (tree : Tree) (x : ℕ)
    → x ≢ nil
    → occ x tree ≡ 0
    → size tree < rounds
    → HoldsTree t tree
    → (u : Rbtree) × (rbtree_insert less rounds t x ≡ ok u) × HoldsTree u (insert less x tree)
unfolding rbtree_insert
rbtree_insert-HoldsTree less rounds t tree x some_x out le held =
    let t₁ = set_parent (set_right (set_left t x nil) x nil) x nil in
    let t₂ = set_color t₁ x red in
    let kept =
      Holds-frame t t₂ nil tree
        (λ y h.
          let y≢x = occ-ne y x tree h out in
          (
            if_ne y x nil (t.left y) y≢x,
            if_ne y x nil (t.right y) y≢x,
            if_ne y x nil (t.parent y) y≢x,
            if_ne y x red (t.color y) y≢x,
          ))
        held.is.1 in
    let (u, run, is) =
      node_insert-Loops less rounds t₂ x some_x (if_eq x nil (t.left x)) (if_eq x nil (t.right x))
        (if_eq x nil (t.parent x)) (if_eq x red (t.color x)) tree le
        (record { is = (held.is.0, kept); apart = held.apart; dark = held.dark }) out in
    (
      u,
      rw (rbtree_insert, run),
      record {
        is = is;
        apart = insert-IsApart less x tree some_x held.apart out;
        dark = is_red_tree-blacken (fix (place less x tree []) leaf x leaf);
      },
    )
