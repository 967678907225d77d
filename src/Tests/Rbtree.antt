-- ===== src/Tests/Rbtree.antt =====
-- A red-black tree that holds the addresses 20 and 10, in the order of the numbers, in fields that
-- were zero.
use btkernel.Base.{◌≡◌, refl, none, some, [], ◌∷◌, arith, ltb, ok}
use btkernel.Rbtree.{black, Rbtree, rbtree_init, rbtree_insert}
use btkernel.Rbtree.Order.{IsOrder}
use btkernel.Rbtree.Sequence.{Represents, rbtree_init-Represents, rbtree_insert-Represents}
use btkernel.Rbtree.Search.{
  rbtree_find, rbtree_find_first, rbtree_begin, rbtree_rbegin, rbtree_next, rbtree_prev, rbtree_end,
}
use btkernel.Rbtree.Search.Found.{rbtree_find-Represents, rbtree_find_first-Represents}
use btkernel.Rbtree.Search.Iterate.{rbtree_next-Represents, rbtree_begin-Represents}

less-IsOrder : IsOrder ltb (λ a. Unit)
less-IsOrder = record {
  asym = λ a b p q h. ground arith;
  through = λ a b c p q r h k. ground arith;
}

abbrev blank : Rbtree
blank = record { root = 0; left = λ a. 0; right = λ a. 0; parent = λ a. 0; color = λ a. black }

one_in :
    (u : Rbtree) × (rbtree_insert ltb 9 (rbtree_init blank) 20 ≡ ok u) × Represents ltb u (20 ∷ [])
one_in =
    rbtree_insert-Represents ltb (λ a. Unit) 9 (rbtree_init blank) [] 20 less-IsOrder (tt, tt)
      (omega arith) tt (omega arith) (rbtree_init-Represents ltb blank)

two_in : (u : Rbtree) × (rbtree_insert ltb 9 one_in.0 10 ≡ ok u) × Represents ltb u (10 ∷ 20 ∷ [])
two_in =
    rbtree_insert-Represents ltb (λ a. Unit) 9 one_in.0 (20 ∷ []) 10 less-IsOrder (tt, (tt, tt))
      (omega arith) ((omega arith), tt) (omega arith) one_in.2

rbtree_insert-Represents_example :
    (u : Rbtree) × (rbtree_insert ltb 9 two_in.0 5 ≡ ok u) × Represents ltb u (5 ∷ 10 ∷ 20 ∷ [])
rbtree_insert-Represents_example =
    rbtree_insert-Represents ltb (λ a. Unit) 9 two_in.0 (10 ∷ 20 ∷ []) 5 less-IsOrder
      (tt, (tt, (tt, tt))) (omega arith) ((omega arith), ((omega arith), tt)) (omega arith) two_in.2

rbtree_find-Represents_example : rbtree_find ltb 9 two_in.0 10 ≡ ok (some 10)
rbtree_find-Represents_example =
    rbtree_find-Represents ltb (λ a. Unit) less-IsOrder 9 two_in.0 (10 ∷ 20 ∷ []) (omega arith)
      two_in.2 10 (tt, (tt, (tt, tt)))

rbtree_find_first-Represents_example : rbtree_find_first ltb 9 two_in.0 15 ≡ ok (some 20)
rbtree_find_first-Represents_example =
    rbtree_find_first-Represents ltb (λ a. Unit) less-IsOrder 9 two_in.0 (10 ∷ 20 ∷ [])
      (omega arith) two_in.2 15 (tt, (tt, (tt, tt)))

rbtree_next-Represents_example :
    (rbtree_next 9 two_in.0 10 ≡ ok (some 20)) × (rbtree_prev 9 two_in.0 20 ≡ ok (some 10))
rbtree_next-Represents_example =
    rbtree_next-Represents ltb 9 two_in.0 (10 ∷ 20 ∷ []) (omega arith) two_in.2 [] 10 20 [] refl

rbtree_begin-Represents_example :
    (rbtree_begin 9 two_in.0 ≡ ok (some 10))
    × (rbtree_prev 9 two_in.0 10 ≡ ok none)
    × (rbtree_rbegin 9 two_in.0 ≡ ok (some 20))
    × (rbtree_next 9 two_in.0 20 ≡ ok (rbtree_end two_in.0))
rbtree_begin-Represents_example =
    rbtree_begin-Represents ltb 9 two_in.0 (10 ∷ 20 ∷ []) (omega arith) two_in.2 10 (20 ∷ [])
      (10 ∷ []) 20 refl refl
