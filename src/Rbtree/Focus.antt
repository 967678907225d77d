-- ===== src/Rbtree/Focus.antt =====
-- The places of a tree of btmod/bt/lib/rbtree.c: each element of the sequence is at a focus.
use btkernel.Base.{ℕ, ◌≡◌, refl, ◌∙◌, ◌⊎◌, inl, inr, List, [], ◌∷◌, ◌++◌, append_assoc}
use btkernel.Rbtree.{Color, Rbtree}
use btkernel.Rbtree.Shape.{
  Tree, leaf, node, in_left, in_right, Steps, top, above, plug, inorder, Holds, HoldsSteps, Is,
}
use btkernel.Rbtree.Order.{before, behind}

-- A list that is split at two places.
pub split_twice :
    (xs ys pre post : List ℕ) (b a : ℕ)
    → xs ++ b ∷ ys ≡ pre ++ a ∷ post
    → ((xs ≡ pre) × (b ≡ a) × (ys ≡ post))
      ⊎ (((mid : List ℕ) × (xs ≡ pre ++ a ∷ mid) × (post ≡ mid ++ b ∷ ys))
          ⊎ ((mid : List ℕ) × (pre ≡ xs ++ b ∷ mid) × (ys ≡ mid ++ a ∷ post)))
split_twice [] ys [] post b a e = inl (refl, cc, cc)
split_twice [] ys (p ∷ pre) post b a e = inr (inr (pre, cc, cc))
split_twice (x ∷ xs) ys [] post b a e = inr (inl (xs, cc, cc))
split_twice (x ∷ xs) ys (p ∷ pre) post b a e = elim (split_twice xs ys pre post b a (cc)) [
  | inl (h, k, l) ↦ inl (cc, k, l)
  | inr (inl (mid, h, k)) ↦ inr (inl (mid, cc, k))
  | inr (inr (mid, h, k)) ↦ inr (inr (mid, cc, k))
]

-- The element `a` between two parts of the sequence of a tree in its surroundings.
pub record At (tree : Tree) (steps : Steps) (pre : List ℕ) (a : ℕ) (post : List ℕ) : Type 0 where
  pub rest : Steps
  pub left : Tree
  pub color : Color
  pub right : Tree
  pub whole : plug rest (node left a color right) ≡ plug steps tree
  pub lead : before rest ++ inorder left ≡ before steps ++ pre
  pub tail : inorder right ++ behind rest ≡ post ++ behind steps

pub locate :
    (tree : Tree) (steps : Steps) (pre : List ℕ) (a : ℕ) (post : List ℕ)
    → inorder tree ≡ pre ++ a ∷ post
    → At tree steps pre a post
locate leaf steps [] a post e = absurd (cc)
locate leaf steps (p ∷ pre) a post e = absurd (cc)
locate (node l b c r) steps pre a post e =
    elim (split_twice (inorder l) (inorder r) pre post b a e) [
      | inl (h, k, m) ↦ record {
        rest = steps;
        left = l;
        color = c;
        right = r;
        whole = rw k refl;
        lead = rw h refl;
        tail = rw m refl;
      }
      | inr (inl (mid, h, k)) ↦
          let at = locate l (in_left b c r ∷ steps) pre a mid h in
          record {
            rest = at.rest;
            left = at.left;
            color = at.color;
            right = at.right;
            whole = at.whole;
            lead = at.lead;
            tail = at.tail ∙ rw k (simp (append_assoc));
          }
      | inr (inr (mid, h, k)) ↦
          let at = locate r (in_right l b c ∷ steps) mid a post k in
          record {
            rest = at.rest;
            left = at.left;
            color = at.color;
            right = at.right;
            whole = at.whole;
            lead = at.lead ∙ rw h (simp (append_assoc));
            tail = at.tail;
          }
    ]

-- A held tree is held at every focus.
pub unplug-Is :
    (t : Rbtree) (steps : Steps) (tree : Tree)
    → Is t (plug steps tree)
    → HoldsSteps t (top tree) steps × Holds t (above steps) tree
unplug-Is t [] tree h = h
unplug-Is t (in_left a c r ∷ steps) tree h =
    let (hs, (el, er, ep, ec, hl, hr)) = unplug-Is t steps (node tree a c r) h in
    ((el, er, ep, ec, hr, hs), hl)
unplug-Is t (in_right l a c ∷ steps) tree h =
    let (hs, (el, er, ep, ec, hl, hr)) = unplug-Is t steps (node l a c tree) h in
    ((el, er, ep, ec, hl, hs), hr)
