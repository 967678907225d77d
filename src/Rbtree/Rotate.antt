-- ===== src/Rbtree/Rotate.antt =====
-- A rotation of btmod/bt/lib/rbtree.c turns the subtree at its node and keeps all around it.
use btkernel.Base.{
  ℕ, ◌+◌, ◌≤◌, ◌<◌, ◌≡◌, refl, sym, ap, ◌∙◌, subst, ◌≢◌, arith, ◌==◌, if◌then◌else◌, if_ne, if_eq,
  Run, ◌>>=◌, ok,
}
use btkernel.Rbtree.{
  Color, Rbtree, nil, adopt, set_left, set_right, set_parent, leftrotate, rightrotate,
}
use btkernel.Rbtree.Shape.{
  Tree, node, Steps, top, above, one, occ, occ_steps, Holds, HoldsSteps, Agree, one_self, occ-ne,
  Holds-frame, Holds-move, HoldsSteps-frame,
}
use btkernel.Rbtree.Relink.{one-ne, top-ne, Linked, relink-HoldsSteps, Adopted, adopt-Adopted}

-- The run gives fields that hold the tree in its surroundings.
abbrev pub Turns : Run Rbtree → Steps → Tree → Type 0
Turns run steps tree =
    (u : Rbtree) × (run ≡ ok u) × HoldsSteps u (top tree) steps × Holds u (above steps) tree

module _ (t : Rbtree) (steps : Steps) (l : Tree) (a : ℕ) (c : Color) (m : Tree) (b : ℕ) (e : Color)
    (r : Tree)
    (apart : (x : ℕ) → occ_steps x steps + (occ x l + one x a + occ x m + one x b + occ x r) ≤ 1)
    (no_nil : occ_steps nil steps + (occ nil l + one nil a + occ nil m + one nil b + occ nil r)
      ≡ 0) where
  a_once : one a a ≡ 1
  a_once = one_self a

  b_once : one b b ≡ 1
  b_once = one_self b

  a≢b : a ≢ b
  a≢b = one-ne a b (let h = apart a in let k = a_once in omega arith)

  a≢nil : a ≢ nil
  a≢nil h = one-ne nil a (omega (arith, no_nil)) (sym h)

  b≢nil : b ≢ nil
  b≢nil h = one-ne nil b (omega (arith, no_nil)) (sym h)

  -- An address outside the two nodes.
  abbrev Outside : ℕ → Type 0
  Outside x = (x ≢ a) × (x ≢ b)

  Outside-l : (x : ℕ) → 0 < occ x l → Outside x × (x ≢ top m) × (occ_steps x steps ≡ 0)
  Outside-l x h =
      let d = apart x in
      let some_x = occ-ne x nil l h (omega (arith, no_nil)) in
      (
        (one-ne x a (omega arith), one-ne x b (omega arith)),
        top-ne x m (omega arith) some_x,
        omega arith,
      )

  Outside-m : (x : ℕ) → 0 < occ x m → Outside x × (occ_steps x steps ≡ 0)
  Outside-m x h =
      let d = apart x in ((one-ne x a (omega arith), one-ne x b (omega arith)), omega arith)

  Outside-r : (x : ℕ) → 0 < occ x r → Outside x × (x ≢ top m) × (occ_steps x steps ≡ 0)
  Outside-r x h =
      let d = apart x in
      let some_x = occ-ne x nil r h (omega (arith, no_nil)) in
      (
        (one-ne x a (omega arith), one-ne x b (omega arith)),
        top-ne x m (omega arith) some_x,
        omega arith,
      )

  Outside-steps : (x : ℕ) → 0 < occ_steps x steps → Outside x × (x ≢ top m)
  Outside-steps x h =
      let d = apart x in
      let some_x : x ≢ nil =
        λ k. let u = subst (λ v. 0 < occ_steps v steps) k h in omega (arith, no_nil) in
      ((one-ne x a (omega arith), one-ne x b (omega arith)), top-ne x m (omega arith) some_x)

  -- The fields before the link from the parent is set.
  module _ (s : Rbtree) (adopted : Adopted s (adopt s (top m) a) m a) where
    abbrev moved : Rbtree
    moved = set_parent (adopt s (top m) a) b (above steps)

    moved_parent : (x : ℕ) → Outside x → x ≢ top m → moved.parent x ≡ s.parent x
    moved_parent x (x≢a, x≢b) x≢m =
        if_ne x b (above steps) ((adopt s (top m) a).parent x) x≢b ∙ adopted.others x x≢m

    moved_top : (x : ℕ) → 0 < occ x m → moved.parent x ≡ (if x == top m then a else s.parent x)
    moved_top x h =
        if_ne x b (above steps) ((adopt s (top m) a).parent x) (Outside-m x h).0.1
        ∙ adopted.parent x h

  -- The fields after the rotation, from the ones in which the link is set.
  module _ (adopted : Adopted (set_right t a (top m)) (adopt (set_right t a (top m)) (top m) a) m a)
      (w : Rbtree) (linked : Linked (moved (set_right t a (top m)) adopted) w steps) where
    abbrev turned : Rbtree
    turned = set_parent (set_left w b a) a b

    turned_left : (x : ℕ) → x ≢ b → occ_steps x steps ≡ 0 → turned.left x ≡ t.left x
    turned_left x x≢b out =
        if_ne x b a (w.left x) x≢b ∙ linked.left x out ∙ ap (λ f. f x) adopted.left

    turned_right :
        (x : ℕ) → occ_steps x steps ≡ 0 → turned.right x ≡ (if x == a then top m else t.right x)
    turned_right x out = linked.right x out ∙ ap (λ f. f x) adopted.right

    turned_color : (x : ℕ) → turned.color x ≡ t.color x
    turned_color x = ap (λ f. f x) (linked.color ∙ adopted.color)

    turned_parent :
        (x : ℕ) → x ≢ a → turned.parent x ≡ (moved (set_right t a (top m)) adopted).parent x
    turned_parent x x≢a = if_ne x a b (w.parent x) x≢a ∙ ap (λ f. f x) linked.parent

    turned-Outside : (x : ℕ) → Outside x × (x ≢ top m) × (occ_steps x steps ≡ 0) → Agree t turned x
    turned-Outside x ((x≢a, x≢b), x≢m, out) = (
      turned_left x x≢b out,
      turned_right x out ∙ if_ne x a (top m) (t.right x) x≢a,
      turned_parent x x≢a ∙ moved_parent (set_right t a (top m)) adopted x (x≢a, x≢b) x≢m,
      turned_color x,
    )

    turned-Holds :
        Holds t (above steps) (node l a c (node m b e r))
        → Holds turned (above steps) (node (node l a c m) b e r)
    turned-Holds (al, ar, aq, ac, hl, (bl, br, bq, bc, hm, hr)) =
        let out_a : occ_steps a steps ≡ 0 = let d = apart a in let k = a_once in omega arith in
        let out_b : occ_steps b steps ≡ 0 = let d = apart b in let k = b_once in omega arith in
        (
          if_eq b a (w.left b),
          turned_right b out_b ∙ if_ne b a (top m) (t.right b) (λ h. a≢b (sym h)) ∙ br,
          turned_parent b (λ h. a≢b (sym h))
              ∙ if_eq b (above steps) ((adopt (set_right t a (top m)) (top m) a).parent b),
          turned_color b ∙ bc,
          (
            turned_left a a≢b out_a ∙ al,
            turned_right a out_a ∙ if_eq a (top m) (t.right a),
            if_eq a b (w.parent a),
            turned_color a ∙ ac,
            Holds-frame t turned a l (λ x h. turned-Outside x (Outside-l x h)) hl,
            Holds-move t turned b a m
                (λ x h.
                  let ((x≢a, x≢b), out) = Outside-m x h in
                  (
                    turned_left x x≢b out,
                    turned_right x out ∙ if_ne x a (top m) (t.right x) x≢a,
                    turned_color x,
                    turned_parent x x≢a ∙ moved_top (set_right t a (top m)) adopted x h,
                  ))
                (let d = apart (top m) in omega arith) hm,
          ),
          Holds-frame t turned b r (λ x h. turned-Outside x (Outside-r x h)) hr,
        )

    turned-HoldsSteps : HoldsSteps w b steps → HoldsSteps turned b steps
    turned-HoldsSteps h =
        HoldsSteps-frame w turned b steps
          (λ x k.
            let ((x≢a, x≢b), x≢m) = Outside-steps x k in
            (if_ne x b a (w.left x) x≢b, refl, if_ne x a b (w.parent x) x≢a, refl))
          refl h

  -- `leftrotate` at a node with a right child.
  pub leftrotate-Turns :
      HoldsSteps t a steps
      → Holds t (above steps) (node l a c (node m b e r))
      → Turns (leftrotate t a) steps (node (node l a c m) b e r)
  unfolding leftrotate
  leftrotate-Turns hs ht =
      let (al, ar, aq, ac, hl, (bl, br, bq, bc, hm, hr)) = ht in
      let s = set_right t a (top m) in
      let adopted = adopt-Adopted s m a (omega (arith, no_nil)) in
      let before : HoldsSteps (moved s adopted) a steps =
        HoldsSteps-frame t (moved s adopted) a steps
          (λ x k.
            let (out, x≢m) = Outside-steps x k in
            (
              ap (λ f. f x) adopted.left,
              ap (λ f. f x) adopted.right ∙ if_ne x a (top m) (t.right x) out.0,
              moved_parent s adopted x out x≢m,
              ap (λ f. f x) adopted.color,
            ))
          adopted.root hs in
      let (w, run, hw, linked) =
        relink-HoldsSteps (moved s adopted) steps a b (λ x. let d = apart x in omega arith)
          (omega (arith, no_nil)) (let d = apart a in let k = a_once in omega arith) a≢nil before in
      (
        turned adopted w linked,
        rw (leftrotate, ar, bl, aq, run, ◌>>=◌),
        turned-HoldsSteps adopted w linked hw,
        turned-Holds adopted w linked ht,
      )

  -- The fields after the rotation, from the ones in which the link is set.
  module _ (adopted : Adopted (set_left t a (top m)) (adopt (set_left t a (top m)) (top m) a) m a)
      (w : Rbtree) (linked : Linked (moved (set_left t a (top m)) adopted) w steps) where
    abbrev swung : Rbtree
    swung = set_parent (set_right w b a) a b

    swung_right : (x : ℕ) → x ≢ b → occ_steps x steps ≡ 0 → swung.right x ≡ t.right x
    swung_right x x≢b out =
        if_ne x b a (w.right x) x≢b ∙ linked.right x out ∙ ap (λ f. f x) adopted.right

    swung_left :
        (x : ℕ) → occ_steps x steps ≡ 0 → swung.left x ≡ (if x == a then top m else t.left x)
    swung_left x out = linked.left x out ∙ ap (λ f. f x) adopted.left

    swung_color : (x : ℕ) → swung.color x ≡ t.color x
    swung_color x = ap (λ f. f x) (linked.color ∙ adopted.color)

    swung_parent :
        (x : ℕ) → x ≢ a → swung.parent x ≡ (moved (set_left t a (top m)) adopted).parent x
    swung_parent x x≢a = if_ne x a b (w.parent x) x≢a ∙ ap (λ f. f x) linked.parent

    swung-Outside : (x : ℕ) → Outside x × (x ≢ top m) × (occ_steps x steps ≡ 0) → Agree t swung x
    swung-Outside x ((x≢a, x≢b), x≢m, out) = (
      swung_left x out ∙ if_ne x a (top m) (t.left x) x≢a,
      swung_right x x≢b out,
      swung_parent x x≢a ∙ moved_parent (set_left t a (top m)) adopted x (x≢a, x≢b) x≢m,
      swung_color x,
    )

    swung-Holds :
        Holds t (above steps) (node (node r b e m) a c l)
        → Holds swung (above steps) (node r b e (node m a c l))
    swung-Holds (ar, al, aq, ac, (br, bl, bq, bc, hr, hm), hl) =
        let out_a : occ_steps a steps ≡ 0 = let d = apart a in let k = a_once in omega arith in
        let out_b : occ_steps b steps ≡ 0 = let d = apart b in let k = b_once in omega arith in
        (
          swung_left b out_b ∙ if_ne b a (top m) (t.left b) (λ h. a≢b (sym h)) ∙ br,
          if_eq b a (w.right b),
          swung_parent b (λ h. a≢b (sym h))
              ∙ if_eq b (above steps) ((adopt (set_left t a (top m)) (top m) a).parent b),
          swung_color b ∙ bc,
          Holds-frame t swung b r (λ x h. swung-Outside x (Outside-r x h)) hr,
          (
            swung_left a out_a ∙ if_eq a (top m) (t.left a),
            swung_right a a≢b out_a ∙ al,
            if_eq a b (w.parent a),
            swung_color a ∙ ac,
            Holds-move t swung b a m
                (λ x h.
                  let ((x≢a, x≢b), out) = Outside-m x h in
                  (
                    swung_left x out ∙ if_ne x a (top m) (t.left x) x≢a,
                    swung_right x x≢b out,
                    swung_color x,
                    swung_parent x x≢a ∙ moved_top (set_left t a (top m)) adopted x h,
                  ))
                (let d = apart (top m) in omega arith) hm,
            Holds-frame t swung a l (λ x h. swung-Outside x (Outside-l x h)) hl,
          ),
        )

    swung-HoldsSteps : HoldsSteps w b steps → HoldsSteps swung b steps
    swung-HoldsSteps h =
        HoldsSteps-frame w swung b steps
          (λ x k.
            let ((x≢a, x≢b), x≢m) = Outside-steps x k in
            (refl, if_ne x b a (w.right x) x≢b, if_ne x a b (w.parent x) x≢a, refl))
          refl h

  -- `rightrotate` at a node with a left child.
  pub rightrotate-Turns :
      HoldsSteps t a steps
      → Holds t (above steps) (node (node r b e m) a c l)
      → Turns (rightrotate t a) steps (node r b e (node m a c l))
  unfolding rightrotate
  rightrotate-Turns hs ht =
      let (ar, al, aq, ac, (br, bl, bq, bc, hr, hm), hl) = ht in
      let s = set_left t a (top m) in
      let adopted = adopt-Adopted s m a (omega (arith, no_nil)) in
      let before : HoldsSteps (moved s adopted) a steps =
        HoldsSteps-frame t (moved s adopted) a steps
          (λ x k.
            let (out, x≢m) = Outside-steps x k in
            (
              ap (λ f. f x) adopted.left ∙ if_ne x a (top m) (t.left x) out.0,
              ap (λ f. f x) adopted.right,
              moved_parent s adopted x out x≢m,
              ap (λ f. f x) adopted.color,
            ))
          adopted.root hs in
      let (w, run, hw, linked) =
        relink-HoldsSteps (moved s adopted) steps a b (λ x. let d = apart x in omega arith)
          (omega (arith, no_nil)) (let d = apart a in let k = a_once in omega arith) a≢nil before in
      (
        swung adopted w linked,
        rw (rightrotate, ar, bl, aq, run, ◌>>=◌),
        swung-HoldsSteps adopted w linked hw,
        swung-Holds adopted w linked ht,
      )
