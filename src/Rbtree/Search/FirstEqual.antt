-- ===== src/Rbtree/Search/FirstEqual.antt =====
-- `find_first_equal_entry` of btmod/bt/lib/rbtree.c gives the first of the elements that are equal
-- to the one that is searched for.
use btkernel.Base.{
  ℕ, zero, suc, ◌+◌, ◌<◌, ◌≡◌, refl, sym, ap, ◌∙◌, subst, ◌⊎◌, inl, inr, Bool, true, false, Option,
  none, some, List, [], ◌∷◌, ◌++◌, append_assoc, arith, if◌then◌else◌, Bool-cases, ==_ne, length,
  All, length-append, All-append, ◌>>=◌, ok,
}
use btkernel.Rbtree.{Rbtree, nil}
use btkernel.Rbtree.Shape.{Tree, inorder}
use btkernel.Rbtree.Place.{size}
use btkernel.Rbtree.Order.{IsOrder, Sorted, All-split, size-inorder, Sorted-later}
use btkernel.Rbtree.Insert.{HoldsTree}
use btkernel.Rbtree.Search.{first_equal_loop, find_first_equal_entry, predecessor}
use btkernel.Rbtree.Search.Climb.{last, last-behind}
use btkernel.Rbtree.Search.Neighbours.{predecessor-last, element-ne}

-- The first element that is not less than `e`, and the same where it is equal to `e`.
abbrev pub find_first_sorted : (ℕ → ℕ → Bool) → ℕ → List ℕ → Option ℕ
find_first_sorted less e [] = none
find_first_sorted less e (a ∷ xs) = elim (less a e) [
  | true ↦ find_first_sorted less e xs
  | false ↦ some a
]

abbrev pub find_sorted : (ℕ → ℕ → Bool) → ℕ → List ℕ → Option ℕ
find_sorted less e [] = none
find_sorted less e (a ∷ xs) = elim (less a e) [
  | true ↦ find_sorted less e xs
  | false ↦ if less e a then none else some a
]

split_last : (xs : List ℕ) → (xs ≡ []) ⊎ ((ys : List ℕ) × (y : ℕ) × (xs ≡ ys ++ y ∷ []))
split_last [] = inl refl
split_last (x ∷ xs) = elim (split_last xs) [
  | inl e ↦ inr ([], x, ap (λ w. x ∷ w) e)
  | inr (ys, y, e) ↦ inr (x ∷ ys, y, ap (λ w. x ∷ w) e)
]

module _ (less : ℕ → ℕ → Bool) (On : ℕ → Type 0) (order : IsOrder less On) (e : ℕ)
    (e_on : On e) where
  abbrev pub AllLess : List ℕ → Type 0
  AllLess xs = All (λ b. less b e ≡ true) xs

  pub find_first-skip :
      (xs ys : List ℕ)
      → AllLess xs
      → find_first_sorted less e (xs ++ ys) ≡ find_first_sorted less e ys
  find_first-skip [] ys h = refl
  find_first-skip (x ∷ xs) ys (h, hs) = rw (find_first_sorted, h) (find_first-skip xs ys hs)

  pub find-skip :
      (xs ys : List ℕ) → AllLess xs → find_sorted less e (xs ++ ys) ≡ find_sorted less e ys
  find-skip [] ys h = refl
  find-skip (x ∷ xs) ys (h, hs) = rw (find_sorted, h) (find-skip xs ys hs)

  pub Sorted-AllLess :
      (xs ys : List ℕ) (a : ℕ)
      → All On (xs ++ a ∷ ys)
      → Sorted less (xs ++ a ∷ ys)
      → less a e ≡ true
      → AllLess xs
  Sorted-AllLess [] ys a on s h = tt
  Sorted-AllLess (b ∷ xs) ys a (b_on, on) (rest, s) h =
      let (lead, own, tail) = All-split (λ c. less c b ≡ false) xs ys a rest in
      let (on_lead, a_on, on_tail) = All-split On xs ys a on in
      (
        elim (Bool-cases (less b e)) [
          | inl k ↦ k
          | inr k ↦ absurd (let l = order.through a b e a_on b_on e_on own k in cc)
        ],
        Sorted-AllLess xs ys a on s h,
      )

  -- The first of the elements that are equal to `e`.
  pub record FirstEqual (xs : List ℕ) (f : ℕ) : Type 0 where
    pub lead : List ℕ
    pub tail : List ℕ
    pub there : xs ≡ lead ++ f ∷ tail
    pub lower : AllLess lead
    pub not_less : less f e ≡ false
    pub not_greater : less e f ≡ false

  module _ (walk : ℕ) (t : Rbtree) (tree : Tree) (held : HoldsTree t tree)
      (enough : size tree < walk) (on : All On (inorder tree))
      (sorted : Sorted less (inorder tree)) where
    first_equal_loop-FirstEqual :
        (rounds : ℕ) (pre : List ℕ) (a : ℕ) (post : List ℕ)
        → length pre < rounds
        → inorder tree ≡ pre ++ a ∷ post
        → less a e ≡ false
        → less e a ≡ false
        → (f : ℕ) × (first_equal_loop less walk rounds t e a ≡ ok f) × FirstEqual (inorder tree) f
    unfolding first_equal_loop
    first_equal_loop-FirstEqual zero pre a post le here h k = absurd (omega arith)
    first_equal_loop-FirstEqual (suc rounds) pre a post le here h k =
        let found = predecessor-last walk t tree pre a post enough held here in
        elim (split_last pre) [
          | inl start ↦
              let lone : predecessor walk t a ≡ ok nil = found ∙ ap (λ w. ok (last w)) start in
              (
                a,
                rw (first_equal_loop, lone, ◌>>=◌),
                record {
                  lead = pre;
                  tail = post;
                  there = here;
                  lower = subst AllLess (sym start) tt;
                  not_less = h;
                  not_greater = k;
                },
              )
          | inr (ys, p, split) ↦
              let here' : inorder tree ≡ ys ++ p ∷ a ∷ post =
                here ∙ ap (λ w. w ++ a ∷ post) split ∙ append_assoc ys (p ∷ []) (a ∷ post) in
              let found' : predecessor walk t a ≡ ok p =
                found ∙ ap (λ w. ok (last w)) split ∙ ap ok (last-behind ys [] p) in
              let some_p = ==_ne p nil (element-ne walk t tree ys p (a ∷ post) enough held here') in
              let sorted' = subst (Sorted less) here' sorted in
              let on' = subst (All On) here' on in
              let shorter : length pre ≡ length ys + 1 =
                ap length split ∙ length-append ys (p ∷ []) in
              elim (Bool-cases (less p e)) [
                | inl way ↦ (
                  a,
                  rw (first_equal_loop, found', ◌>>=◌, some_p, way),
                  record {
                    lead = pre;
                    tail = post;
                    there = here;
                    lower = subst AllLess (sym split) (
                        All-append (λ b. less b e ≡ true) ys (p ∷ [])
                          (Sorted-AllLess ys (a ∷ post) p on' sorted' way) (way, tt));
                    not_less = h;
                    not_greater = k;
                  },
                )
                | inr way ↦
                    let (on_lead, p_on, (a_on, on_tail)) = All-split On ys (a ∷ post) p on' in
                    let back =
                      order.through e a p e_on a_on p_on k
                        (Sorted-later less ys post p a sorted') in
                    let (f, run, first) =
                      first_equal_loop-FirstEqual rounds ys p (a ∷ post) (omega arith) here' way
                        back in
                    (f, rw (first_equal_loop, found', ◌>>=◌, some_p, way, way, back, run), first)
              ]
        ]

    pub find_first_equal_entry-FirstEqual :
        (pre : List ℕ) (a : ℕ) (post : List ℕ)
        → inorder tree ≡ pre ++ a ∷ post
        → less a e ≡ false
        → less e a ≡ false
        → (f : ℕ) × (find_first_equal_entry less walk t e a ≡ ok f) × FirstEqual (inorder tree) f
    unfolding find_first_equal_entry
    find_first_equal_entry-FirstEqual pre a post here h k =
        let sized = ap length here ∙ length-append pre (a ∷ post) in
        let total = size-inorder tree in
        let (f, run, first) = first_equal_loop-FirstEqual walk pre a post (omega arith) here h k in
        let some_f =
          ==_ne f nil (element-ne walk t tree first.lead f first.tail enough held first.there) in
        (
          f,
          rw (find_first_equal_entry, run, ◌>>=◌, some_f, first.not_greater, first.not_less),
          first,
        )

    -- The values of the two reference functions at such an element.
    pub find_first_sorted-FirstEqual :
        (f : ℕ) → FirstEqual (inorder tree) f → find_first_sorted less e (inorder tree) ≡ some f
    find_first_sorted-FirstEqual f first =
        ap (find_first_sorted less e) first.there
        ∙ find_first-skip first.lead (f ∷ first.tail) first.lower
        ∙ rw (find_first_sorted, first.not_less) refl

    pub find_sorted-FirstEqual :
        (f : ℕ) → FirstEqual (inorder tree) f → find_sorted less e (inorder tree) ≡ some f
    find_sorted-FirstEqual f first =
        ap (find_sorted less e) first.there
        ∙ find-skip first.lead (f ∷ first.tail) first.lower
        ∙ rw (find_sorted, first.not_less, first.not_greater) refl
