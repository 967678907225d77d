-- ===== src/Rbtree/Order.antt =====
-- The order of the elements, and that an insertion of btmod/bt/lib/rbtree.c puts the new one at its
-- place in it.
pub mod Fixed
use btkernel.Base.{
  ℕ, ◌≡◌, refl, sym, inl, inr, Bool, true, false, List, [], ◌∷◌, ◌++◌, append_assoc, arith,
  Bool-cases, length, All, length-append,
}
use mathlib.Core.List.{append-nil}
use btkernel.Rbtree.{black, red}
use btkernel.Rbtree.Shape.{Tree, leaf, node, in_left, in_right, Steps, plug, inorder}
use btkernel.Rbtree.Place.{size}
use btkernel.Rbtree.Fix.{is_red_tree, blacken, place, fix, insert}

-- A comparison function, as `rbtree_init` is given one, which orders the elements that it is on.
pub record IsOrder (less : ℕ → ℕ → Bool) (On : ℕ → Type 0) : Type 0 where
  pub asym : (a b : ℕ) → On a → On b → less a b ≡ true → less b a ≡ false
  pub through :
      (a b c : ℕ) → On a → On b → On c → less a b ≡ false → less b c ≡ false → less a c ≡ false

-- The elements before and behind the focus.
abbrev pub before : Steps → List ℕ
before [] = []
before (in_left a c r ∷ steps) = before steps
before (in_right l a c ∷ steps) = before steps ++ inorder l ++ a ∷ []

abbrev pub behind : Steps → List ℕ
behind [] = []
behind (in_left a c r ∷ steps) = a ∷ inorder r ++ behind steps
behind (in_right l a c ∷ steps) = behind steps

pub inorder-plug :
    (steps : Steps) (t : Tree) → inorder (plug steps t) ≡ before steps ++ inorder t ++ behind steps
inorder-plug [] t = sym (append-nil (inorder t))
inorder-plug (in_left a c r ∷ steps) t =
    rw (inorder-plug steps (node t a c r)) (simp (append_assoc))
inorder-plug (in_right l a c ∷ steps) t =
    rw (inorder-plug steps (node l a c t)) (simp (append_assoc))

pub size-inorder : (t : Tree) → length (inorder t) ≡ size t
size-inorder leaf = refl
size-inorder (node l a c r) =
    let h = size-inorder l in
    let k = size-inorder r in rw (length-append (inorder l) (a ∷ inorder r)) (omega arith)

pub inorder-blacken : (t : Tree) → inorder (blacken t) ≡ inorder t
inorder-blacken leaf = refl
inorder-blacken (node l a c r) = refl

abbrev pub insert_sorted : (ℕ → ℕ → Bool) → ℕ → List ℕ → List ℕ
insert_sorted less x [] = x ∷ []
insert_sorted less x (a ∷ xs) = elim (less a x) [
  | true ↦ a ∷ insert_sorted less x xs
  | false ↦ x ∷ a ∷ xs
]

-- No later element is less.
abbrev pub Sorted : (ℕ → ℕ → Bool) → List ℕ → Type 0
Sorted less [] = Unit
Sorted less (a ∷ xs) = All (λ b. less b a ≡ false) xs × Sorted less xs

pub All-split :
    (P : ℕ → Type 0) (xs ys : List ℕ) (a : ℕ) → All P (xs ++ a ∷ ys) → All P xs × P a × All P ys
All-split P [] ys a (h, rest) = (tt, h, rest)
All-split P (x ∷ xs) ys a (h, rest) = let (p, q, r) = All-split P xs ys a rest in ((h, p), q, r)

pub Sorted-later :
    (less : ℕ → ℕ → Bool) (xs ys : List ℕ) (p a : ℕ)
    → Sorted less (xs ++ p ∷ a ∷ ys)
    → less a p ≡ false
Sorted-later less [] ys p a (rest, s) = rest.0
Sorted-later less (x ∷ xs) ys p a (rest, s) = Sorted-later less xs ys p a s

Sorted-append :
    (less : ℕ → ℕ → Bool) (xs ys : List ℕ) (a : ℕ)
    → Sorted less (xs ++ a ∷ ys)
    → Sorted less xs × Sorted less ys
Sorted-append less [] ys a (last, s) = (tt, s)
Sorted-append less (x ∷ xs) ys a (last, s) =
    let (before, behind) = Sorted-append less xs ys a s in
    (((All-split (λ b. less b x ≡ false) xs ys a last).0, before), behind)

module _ (less : ℕ → ℕ → Bool) (On : ℕ → Type 0) (order : IsOrder less On) (x : ℕ)
    (x_on : On x) where
  All-insert :
      (a : ℕ) (xs : List ℕ)
      → less x a ≡ false
      → All (λ b. less b a ≡ false) xs
      → All (λ b. less b a ≡ false) (insert_sorted less x xs)
  All-insert a [] h last = (h, tt)
  All-insert a (b ∷ ys) h (hb, last) = elim (Bool-cases (less b x)) [
    | inl e ↦ rw (insert_sorted, e) (hb, All-insert a ys h last)
    | inr e ↦ rw (insert_sorted, e) (h, (hb, last))
  ]

  All-through :
      (a : ℕ) (xs : List ℕ)
      → On a
      → All On xs
      → less a x ≡ false
      → All (λ b. less b a ≡ false) xs
      → All (λ b. less b x ≡ false) xs
  All-through a [] a_on on h last = tt
  All-through a (b ∷ ys) a_on (b_on, on) h (hb, last) =
      (order.through b a x b_on a_on x_on hb h, All-through a ys a_on on h last)

  pub insert-Sorted :
      (xs : List ℕ) → All On xs → Sorted less xs → Sorted less (insert_sorted less x xs)
  insert-Sorted [] on s = (tt, tt)
  insert-Sorted (a ∷ xs) (a_on, on) (last, s) = elim (Bool-cases (less a x)) [
    | inl e ↦
        rw (insert_sorted, e)
          (All-insert a xs (order.asym a x a_on x_on e) last, insert-Sorted xs on s)
    | inr e ↦ rw (insert_sorted, e) ((e, All-through a xs a_on on e last), (last, s))
  ]

  insert-append_less :
      (xs ys : List ℕ) (a : ℕ)
      → All On (xs ++ a ∷ ys)
      → Sorted less (xs ++ a ∷ ys)
      → less a x ≡ true
      → insert_sorted less x (xs ++ a ∷ ys) ≡ xs ++ a ∷ insert_sorted less x ys
  insert-append_less [] ys a on s e = rw (insert_sorted, e)
  insert-append_less (b ∷ xs) ys a (b_on, on) (last, s) e = elim (Bool-cases (less b x)) [
    | inl h ↦ rw (insert_sorted, h, insert-append_less xs ys a on s e)
    | inr h ↦
        let (lead, own, rest) = All-split (λ c. less c b ≡ false) xs ys a last in
        let (on_lead, a_on, on_rest) = All-split On xs ys a on in
        let k = order.through a b x a_on b_on x_on own h in absurd (cc)
  ]

  insert-append_not :
      (xs ys : List ℕ) (a : ℕ)
      → less a x ≡ false
      → insert_sorted less x (xs ++ a ∷ ys) ≡ insert_sorted less x xs ++ a ∷ ys
  insert-append_not [] ys a e = rw (insert_sorted, e)
  insert-append_not (b ∷ xs) ys a e = elim (Bool-cases (less b x)) [
    | inl h ↦ rw (insert_sorted, h, insert-append_not xs ys a e)
    | inr h ↦ rw (insert_sorted, h)
  ]

  pub place-inorder :
      (t : Tree) (steps : Steps)
      → All On (inorder t)
      → Sorted less (inorder t)
      → before (place less x t steps) ++ x ∷ behind (place less x t steps)
        ≡ before steps ++ insert_sorted less x (inorder t) ++ behind steps
  place-inorder leaf steps on s = simp (append_assoc)
  place-inorder (node l a c r) steps on s =
      let (sl, sr) = Sorted-append less (inorder l) (inorder r) a s in
      let (on_l, a_on, on_r) = All-split On (inorder l) (inorder r) a on in
      elim (Bool-cases (less a x)) [
        | inl e ↦
            rw
              (
                place,
                e,
                place-inorder r (in_right l a c ∷ steps) on_r sr,
                insert-append_less (inorder l) (inorder r) a on s e,
              )
              (simp (append_assoc))
        | inr e ↦
            rw
              (
                place,
                e,
                place-inorder l (in_left a c r ∷ steps) on_l sl,
                insert-append_not (inorder l) (inorder r) a e,
              )
              (simp (append_assoc))
      ]
