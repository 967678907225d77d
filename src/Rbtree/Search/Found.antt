-- ===== src/Rbtree/Search/Found.antt =====
-- `rbtree_find` and `rbtree_find_first` of btmod/bt/lib/rbtree.c search the sequence of the tree.
use btkernel.Base.{
  ℕ, zero, suc, ◌<◌, ◌≡◌, refl, sym, ap, ◌∙◌, subst, inl, inr, Bool, true, false, Option, none,
  some, List, [], ◌∷◌, ◌++◌, append_assoc, arith, Bool-cases, ==_ne, length, All, All-append, ◌>>=◌,
  ok,
}
use btkernel.Rbtree.{Rbtree, nil}
use btkernel.Rbtree.Shape.{Tree, leaf, node, in_left, in_right, Steps, top, plug, inorder, Is}
use btkernel.Rbtree.Place.{size}
use btkernel.Rbtree.Order.{before, behind, IsOrder, Sorted, inorder-plug, size-inorder}
use btkernel.Rbtree.Insert.{HoldsTree}
use btkernel.Rbtree.Focus.{unplug-Is}
use btkernel.Rbtree.Sequence.{Represents}
use btkernel.Rbtree.Search.{find_at, find_first_at, rbtree_find, rbtree_find_first}
use btkernel.Rbtree.Search.Neighbours.{element-ne}
use btkernel.Rbtree.Search.FirstEqual.{
  find_first_sorted, find_sorted, AllLess, find-skip, find_first-skip, Sorted-AllLess,
  find_first_equal_entry-FirstEqual, find_first_sorted-FirstEqual, find_sorted-FirstEqual,
}

module _ (less : ℕ → ℕ → Bool) (On : ℕ → Type 0) (order : IsOrder less On) (e : ℕ) (e_on : On e)
    (walk : ℕ) (t : Rbtree) (tree : Tree) (held : HoldsTree t tree) (enough : size tree < walk)
    (on : All On (inorder tree)) (sorted : Sorted less (inorder tree)) where
  find_at-Finds :
      (rounds : ℕ) (steps : Steps) (s : Tree)
      → size s < rounds
      → plug steps s ≡ tree
      → AllLess less On order e e_on (before steps)
      → find_sorted less e (behind steps) ≡ none
      → find_at less walk rounds t e (top s) ≡ ok (find_sorted less e (inorder tree))
  unfolding find_at
  find_at-Finds zero steps s le whole low high = absurd (omega arith)
  find_at-Finds (suc rounds) steps leaf le whole low high = ap ok (
      sym (
        ap (λ w. find_sorted less e (inorder w)) (sym whole)
        ∙ ap (find_sorted less e) (inorder-plug steps leaf)
        ∙ find-skip less On order e e_on (before steps ++ []) (behind steps)
            (All-append (λ b. less b e ≡ true) (before steps) [] low tt)
        ∙ high))
  find_at-Finds (suc rounds) steps (node l a c r) le whole low high =
      let here : inorder tree ≡ (before steps ++ inorder l) ++ a ∷ (inorder r ++ behind steps) =
        ap inorder (sym whole) ∙ inorder-plug steps (node l a c r) ∙ simp (append_assoc) in
      let pre = before steps ++ inorder l in
      let post = inorder r ++ behind steps in
      let some_a = ==_ne a nil (element-ne walk t tree pre a post enough held here) in
      let (hs, (al, ar, aq, ac, hl, hr)) =
        unplug-Is t steps (node l a c r) (subst (Is t) (sym whole) held.is) in
      elim (Bool-cases (less a e)) [
        | inl way ↦
            let lower =
              Sorted-AllLess less On order e e_on pre post a (subst (All On) here on)
                (subst (Sorted less) here sorted) way in
            let start : find_at less walk (suc rounds) t e a
                ≡ find_at less walk rounds t e (t.right a) =
              rw (find_at, some_a, way) in
            start
            ∙ ap (find_at less walk rounds t e) ar
            ∙ find_at-Finds rounds (in_right l a c ∷ steps) r (omega arith) whole
                (All-append (λ b. less b e ≡ true) pre (a ∷ []) lower (way, tt)) high
        | inr way ↦ elim (Bool-cases (less e a)) [
          | inl over ↦
              let start : find_at less walk (suc rounds) t e a
                  ≡ find_at less walk rounds t e (t.left a) =
                rw (find_at, some_a, way, over) in
              start
              ∙ ap (find_at less walk rounds t e) al
              ∙ find_at-Finds rounds (in_left a c r ∷ steps) l (omega arith) whole low
                  (rw (find_sorted, way, over) refl)
          | inr same ↦
              let (f, run, first) =
                find_first_equal_entry-FirstEqual less On order e e_on walk t tree held enough on
                  sorted pre a post here way same in
              let start : find_at less walk (suc rounds) t e a ≡ ok (some f) =
                rw (find_at, some_a, way, same, run, ◌>>=◌) in
              start
              ∙ ap ok (
                  sym (
                    find_sorted-FirstEqual less On order e e_on walk t tree held enough on sorted f
                      first))
        ]
      ]

  -- The last element that was found greater, above the focus.
  abbrev Seen : List ℕ → Option ℕ → Type 0
  Seen [] ret = ret ≡ none
  Seen (b ∷ bs) ret = (ret ≡ some b) × (less e b ≡ true) × (less b e ≡ false)

  Seen-found :
      (rounds : ℕ) (xs : List ℕ) (ret : Option ℕ)
      → Seen xs ret
      → find_first_at less walk (suc rounds) t e nil ret ≡ ok (find_first_sorted less e xs)
  unfolding find_first_at
  Seen-found rounds [] ret seen = rw (seen)
  Seen-found rounds (b ∷ bs) ret (seen, over, back) =
      let start : find_first_at less walk (suc rounds) t e nil ret ≡ ok (some b) =
        rw (seen, over, ◌>>=◌) in
      start ∙ ap ok (rw (find_first_sorted, back) refl)

  find_first_at-Finds :
      (rounds : ℕ) (steps : Steps) (s : Tree) (ret : Option ℕ)
      → size s < rounds
      → plug steps s ≡ tree
      → AllLess less On order e e_on (before steps)
      → Seen (behind steps) ret
      → find_first_at less walk rounds t e (top s) ret
        ≡ ok (find_first_sorted less e (inorder tree))
  unfolding find_first_at
  find_first_at-Finds zero steps s ret le whole low high = absurd (omega arith)
  find_first_at-Finds (suc rounds) steps leaf ret le whole low high =
      Seen-found rounds (behind steps) ret high
      ∙ ap ok (
          sym (
            ap (λ w. find_first_sorted less e (inorder w)) (sym whole)
            ∙ ap (find_first_sorted less e) (inorder-plug steps leaf)
            ∙ find_first-skip less On order e e_on (before steps ++ []) (behind steps)
                (All-append (λ b. less b e ≡ true) (before steps) [] low tt)))
  find_first_at-Finds (suc rounds) steps (node l a c r) ret le whole low high =
      let here : inorder tree ≡ (before steps ++ inorder l) ++ a ∷ (inorder r ++ behind steps) =
        ap inorder (sym whole) ∙ inorder-plug steps (node l a c r) ∙ simp (append_assoc) in
      let pre = before steps ++ inorder l in
      let post = inorder r ++ behind steps in
      let some_a = ==_ne a nil (element-ne walk t tree pre a post enough held here) in
      let (hs, (al, ar, aq, ac, hl, hr)) =
        unplug-Is t steps (node l a c r) (subst (Is t) (sym whole) held.is) in
      elim (Bool-cases (less a e)) [
        | inl way ↦
            let lower =
              Sorted-AllLess less On order e e_on pre post a (subst (All On) here on)
                (subst (Sorted less) here sorted) way in
            let start : find_first_at less walk (suc rounds) t e a ret
                ≡ find_first_at less walk rounds t e (t.right a) ret =
              rw (find_first_at, some_a, way) in
            start
            ∙ ap (λ v. find_first_at less walk rounds t e v ret) ar
            ∙ find_first_at-Finds rounds (in_right l a c ∷ steps) r ret (omega arith) whole
                (All-append (λ b. less b e ≡ true) pre (a ∷ []) lower (way, tt)) high
        | inr way ↦ elim (Bool-cases (less e a)) [
          | inl over ↦
              let start : find_first_at less walk (suc rounds) t e a ret
                  ≡ find_first_at less walk rounds t e (t.left a) (some a) =
                rw (find_first_at, some_a, way, over) in
              start
              ∙ ap (λ v. find_first_at less walk rounds t e v (some a)) al
              ∙ find_first_at-Finds rounds (in_left a c r ∷ steps) l (some a) (omega arith) whole
                  low (refl, over, way)
          | inr same ↦
              let (f, run, first) =
                find_first_equal_entry-FirstEqual less On order e e_on walk t tree held enough on
                  sorted pre a post here way same in
              let start : find_first_at less walk (suc rounds) t e a ret ≡ ok (some f) =
                rw (find_first_at, some_a, way, same, run, ◌>>=◌) in
              start
              ∙ ap ok (
                  sym (
                    find_first_sorted-FirstEqual less On order e e_on walk t tree held enough on
                      sorted f first))
        ]
      ]

module _ (less : ℕ → ℕ → Bool) (On : ℕ → Type 0) (order : IsOrder less On) (rounds : ℕ) (t : Rbtree)
    (xs : List ℕ) (le : length xs < rounds) (rep : Represents less t xs) where
  sized : size rep.tree < rounds
  sized = let h = size-inorder rep.tree in let k = ap length rep.elements in omega arith

  in_order : Sorted less (inorder rep.tree)
  in_order = subst (Sorted less) (sym rep.elements) rep.sorted

  -- Where the fields hold a red-black tree with the sorted elements `xs`, and the comparison is
  -- asymmetric and its negation transitive on these and the element searched for, `rbtree_find`
  -- returns with one round more than there are elements, and returns what a search of `xs` from its
  -- front gives: the first of the elements that are equal to the one that is searched for, or
  -- `NULL` where there is none.
  pub rbtree_find-Represents :
      (e : ℕ) → All On (e ∷ xs) → rbtree_find less rounds t e ≡ ok (find_sorted less e xs)
  unfolding rbtree_find
  rbtree_find-Represents e (e_on, on) =
      ap (find_at less rounds rounds t e) rep.held.is.0
      ∙ find_at-Finds less On order e e_on rounds t rep.tree rep.held sized
          (subst (All On) (sym rep.elements) on) in_order rounds [] rep.tree sized refl tt refl
      ∙ ap (λ w. ok (find_sorted less e w)) rep.elements

  -- Where the fields hold a red-black tree with the sorted elements `xs`, and the comparison is
  -- asymmetric and its negation transitive on these and the element searched for,
  -- `rbtree_find_first` returns with one round more than there are elements, and returns the first
  -- element of `xs` that is not less than the one that is searched for, or `NULL` where all are
  -- less.
  pub rbtree_find_first-Represents :
      (e : ℕ)
      → All On (e ∷ xs)
      → rbtree_find_first less rounds t e ≡ ok (find_first_sorted less e xs)
  unfolding rbtree_find_first
  rbtree_find_first-Represents e (e_on, on) =
      ap (λ v. find_first_at less rounds rounds t e v none) rep.held.is.0
      ∙ find_first_at-Finds less On order e e_on rounds t rep.tree rep.held sized
          (subst (All On) (sym rep.elements) on) in_order rounds [] rep.tree none sized refl tt refl
      ∙ ap (λ w. ok (find_first_sorted less e w)) rep.elements
