-- ===== src/Rbtree/Relink.antt =====
-- The parts of a rotation of btmod/bt/lib/rbtree.c: the link from the parent, and the subtree that
-- moves.
use btkernel.Base.{
  ℕ, ◌≤◌, ◌<◌, ◌≡◌, refl, sym, subst, ◌≢◌, [], ◌∷◌, arith, ◌==◌, if◌then◌else◌, ==_refl, ==_ne,
  if_ne, if_eq, ok,
}
use btkernel.Rbtree.{Rbtree, nil, relink, adopt, set_left, set_right}
use btkernel.Rbtree.Shape.{
  Tree, leaf, node, in_left, in_right, Steps, top, above, one, occ, occ_steps, HoldsSteps, one_self,
  occ-ne, Holds-frame, HoldsSteps-frame,
}

pub one-ne : (x a : ℕ) → one x a ≡ 0 → x ≢ a
one-ne x a h e =
    let self = subst (λ u. one x u ≡ 0) (sym e) h in let same = one_self x in omega arith

-- An address outside a tree is not its top.
pub top-ne : (x : ℕ) (tree : Tree) → occ x tree ≡ 0 → x ≢ nil → x ≢ top tree
top-ne x leaf h n = n
top-ne x (node l a c r) h n = one-ne x a (omega arith)

-- What a change of the link leaves as it was.
pub record Linked (t u : Rbtree) (steps : Steps) : Type 0 where
  pub parent : u.parent ≡ t.parent
  pub color : u.color ≡ t.color
  pub left : (x : ℕ) → occ_steps x steps ≡ 0 → u.left x ≡ t.left x
  pub right : (x : ℕ) → occ_steps x steps ≡ 0 → u.right x ≡ t.right x

pub relink-HoldsSteps :
    (t : Rbtree) (steps : Steps) (a b : ℕ)
    → ((x : ℕ) → occ_steps x steps ≤ 1)
    → occ_steps nil steps ≡ 0
    → occ_steps a steps ≡ 0
    → a ≢ nil
    → HoldsSteps t a steps
    → (u : Rbtree) × (relink t (above steps) a b ≡ ok u) × HoldsSteps u b steps × Linked t u steps
unfolding relink
relink-HoldsSteps t [] a b d z out n h = (
  record t { root = b },
  rw (h, ==_refl a),
  refl,
  record { parent = refl; color = refl; left = λ x k. refl; right = λ x k. refl },
)
relink-HoldsSteps t (in_left g c r ∷ steps) a b d z out n (el, er, ep, ec, hr, hs) =
    let g_nil = ==_ne g nil (λ e. one-ne nil g (omega arith) (sym e)) in
    let once = d g in
    let self = one_self g in
    (
      set_left t g b,
      rw (g_nil, el, ==_refl a),
      (
        if_eq g b (t.left g),
        er,
        ep,
        ec,
        Holds-frame t (set_left t g b) g r
            (λ x k. (if_ne x g b (t.left x) (occ-ne x g r k (omega arith)), refl, refl, refl)) hr,
        HoldsSteps-frame t (set_left t g b) g steps
            (λ x k. (
              if_ne x g b (t.left x)
                  (λ e. let y = subst (λ v. 0 < occ_steps v steps) e k in omega arith),
              refl,
              refl,
              refl,
            ))
            refl hs,
      ),
      record {
        parent = refl;
        color = refl;
        left = λ x k. if_ne x g b (t.left x) (one-ne x g (omega arith));
        right = λ x k. refl;
      },
    )
relink-HoldsSteps t (in_right l g c ∷ steps) a b d z out n (el, er, ep, ec, hl, hs) =
    let g_nil = ==_ne g nil (λ e. one-ne nil g (omega arith) (sym e)) in
    let once = d g in
    let self = one_self g in
    let not_left = ==_ne a (top l) (top-ne a l (omega arith) n) in
    (
      set_right t g b,
      rw (g_nil, el, not_left),
      (
        el,
        if_eq g b (t.right g),
        ep,
        ec,
        Holds-frame t (set_right t g b) g l
            (λ x k. (refl, if_ne x g b (t.right x) (occ-ne x g l k (omega arith)), refl, refl)) hl,
        HoldsSteps-frame t (set_right t g b) g steps
            (λ x k. (
              refl,
              if_ne x g b (t.right x)
                  (λ e. let y = subst (λ v. 0 < occ_steps v steps) e k in omega arith),
              refl,
              refl,
            ))
            refl hs,
      ),
      record {
        parent = refl;
        color = refl;
        left = λ x k. refl;
        right = λ x k. if_ne x g b (t.right x) (one-ne x g (omega arith));
      },
    )

-- The subtree that moves gets the new parent at its top, and all else stays.
pub record Adopted (t u : Rbtree) (inner : Tree) (a : ℕ) : Type 0 where
  pub root : u.root ≡ t.root
  pub left : u.left ≡ t.left
  pub right : u.right ≡ t.right
  pub color : u.color ≡ t.color
  pub parent : (x : ℕ) → 0 < occ x inner → u.parent x ≡ (if x == top inner then a else t.parent x)
  pub others : (x : ℕ) → x ≢ top inner → u.parent x ≡ t.parent x

pub adopt-Adopted :
    (t : Rbtree) (inner : Tree) (a : ℕ)
    → occ nil inner ≡ 0
    → Adopted t (adopt t (top inner) a) inner a
unfolding adopt
adopt-Adopted t leaf a z = record {
  root = refl;
  left = refl;
  right = refl;
  color = refl;
  parent = λ x h. absurd (omega arith);
  others = λ x h. refl;
}
adopt-Adopted t (node l i c r) a z =
    let i_nil = ==_ne i nil (λ e. one-ne nil i (omega arith) (sym e)) in
    rw i_nil (record {
      root = refl;
      left = refl;
      right = refl;
      color = refl;
      parent = λ x h. refl;
      others = λ x h. if_ne x i a (t.parent x) h;
    })
