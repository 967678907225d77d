-- ===== src/Rbtree/Order/Fixed.antt =====
-- The elements in order, after an insertion of btmod/bt/lib/rbtree.c.
use btkernel.Base.{ℕ, ◌≡◌, sym, ◌∙◌, inl, inr, Bool, [], ◌∷◌, ◌++◌, append_assoc, Bool-cases, All}
use mathlib.Core.List.{append-nil}
use btkernel.Rbtree.{black, red}
use btkernel.Rbtree.Shape.{Tree, leaf, node, in_left, in_right, Steps, inorder}
use btkernel.Rbtree.Fix.{is_red_tree, blacken, place, fix, insert}
use btkernel.Rbtree.Order.{
  IsOrder, Sorted, insert_sorted, before, behind, inorder-plug, inorder-blacken, place-inorder,
}

inorder-fix :
    (steps : Steps) (l : Tree) (x : ℕ) (r : Tree)
    → inorder (fix steps l x r) ≡ before steps ++ (inorder l ++ x ∷ inorder r) ++ behind steps
inorder-fix [] l x r = sym (append-nil (inorder l ++ x ∷ inorder r))
inorder-fix (in_left p black s ∷ steps) l x r =
    inorder-plug (in_left p black s ∷ steps) (node l x red r)
inorder-fix (in_right s p black ∷ steps) l x r =
    inorder-plug (in_right s p black ∷ steps) (node l x red r)
inorder-fix (in_left p red s ∷ []) l x r = inorder-plug (in_left p red s ∷ []) (node l x red r)
inorder-fix (in_right s p red ∷ []) l x r = inorder-plug (in_right s p red ∷ []) (node l x red r)
inorder-fix (in_left p red s ∷ in_left g d u ∷ steps) l x r = elim (Bool-cases (is_red_tree u)) [
  | inl e ↦
      rw
        (
          fix,
          e,
          inorder-fix steps (node (node l x red r) p black s) g (blacken u),
          inorder-blacken u,
        )
        (simp (append_assoc))
  | inr e ↦
      rw (fix, e, inorder-plug steps (node (node l x red r) p black (node s g red u)))
        (simp (append_assoc))
]
inorder-fix (in_right s p red ∷ in_left g d u ∷ steps) l x r = elim (Bool-cases (is_red_tree u)) [
  | inl e ↦
      rw
        (
          fix,
          e,
          inorder-fix steps (node s p black (node l x red r)) g (blacken u),
          inorder-blacken u,
        )
        (simp (append_assoc))
  | inr e ↦
      rw (fix, e, inorder-plug steps (node (node s p red l) x black (node r g red u)))
        (simp (append_assoc))
]
inorder-fix (in_right s p red ∷ in_right u g d ∷ steps) l x r = elim (Bool-cases (is_red_tree u)) [
  | inl e ↦
      rw
        (
          fix,
          e,
          inorder-fix steps (blacken u) g (node s p black (node l x red r)),
          inorder-blacken u,
        )
        (simp (append_assoc))
  | inr e ↦
      rw (fix, e, inorder-plug steps (node (node u g red s) p black (node l x red r)))
        (simp (append_assoc))
]
inorder-fix (in_left p red s ∷ in_right u g d ∷ steps) l x r = elim (Bool-cases (is_red_tree u)) [
  | inl e ↦
      rw
        (
          fix,
          e,
          inorder-fix steps (blacken u) g (node (node l x red r) p black s),
          inorder-blacken u,
        )
        (simp (append_assoc))
  | inr e ↦
      rw (fix, e, inorder-plug steps (node (node u g red l) x black (node r p red s)))
        (simp (append_assoc))
]

pub inorder-insert :
    (less : ℕ → ℕ → Bool) (On : ℕ → Type 0)
    → IsOrder less On
    → (x : ℕ) (tree : Tree) → On x
    → All On (inorder tree)
    → Sorted less (inorder tree)
    → inorder (insert less x tree) ≡ insert_sorted less x (inorder tree)
inorder-insert less On order x tree x_on on s =
    let steps = place less x tree [] in
    let fixed : inorder (fix steps leaf x leaf) ≡ before steps ++ x ∷ behind steps =
      rw (inorder-fix steps leaf x leaf) (simp (append_assoc)) in
    let placed : before steps ++ x ∷ behind steps ≡ insert_sorted less x (inorder tree) =
      place-inorder less On order x x_on tree [] on s
      ∙ append-nil (insert_sorted less x (inorder tree)) in
    inorder-blacken (fix steps leaf x leaf) ∙ fixed ∙ placed
