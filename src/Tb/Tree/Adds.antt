-- ===== src/Tb/Tree/Adds.antt =====
-- `tb_add` of btmod/bt/peep/tb.c puts a block at its place among the translations.
use btkernel.Base.{ℕ, ◌<◌, ◌≡◌, ap, ◌∙◌, ◌≢◌, none, List, ◌∷◌, length, All, ◌>>=◌, ok}
use btkernel.Tb.{Tb}
use btkernel.Rbtree.{Rbtree, nil}
use btkernel.Rbtree.Order.{insert_sorted}
use btkernel.Rbtree.Sequence.{Represents, rbtree_insert-Represents}
use btkernel.Rbtree.Search.{rbtree_find}
use btkernel.Rbtree.Search.Found.{rbtree_find-Represents}
use btkernel.Tb.Tree.{tc_end, tc_less, tb_add}
use btkernel.Tb.Tree.Interval.{IsApart, blocks-IsOrder, find_sorted-absent}

-- Where the fields hold a red-black tree of blocks in the order of `tc_less`, and the block `x` is
-- neither the sentinel nor in the tree, and its translation and those of the tree are not empty and lie
-- apart, `tb_add` returns with one round more than there are blocks: its ASSERT holds, and the fields
-- hold a red-black tree of the old blocks and `x`, in the order of their translations.
pub tb_add-Represents :
    (tbs : ℕ → Tb) (Block : ℕ → Type 0) (rounds : ℕ) (t : Rbtree) (xs : List ℕ) (x : ℕ)
    → ((a b : ℕ) → Block a → Block b → IsApart (λ c. (tbs c).tc_ptr) (λ c. tc_end (tbs c)) a b)
    → ((a : ℕ) → Block a → (tbs a).tc_ptr < tc_end (tbs a))
    → All Block (x ∷ xs)
    → x ≢ nil
    → All (λ y. x ≢ y) xs
    → length xs < rounds
    → Represents (tc_less tbs) t xs
    → (u : Rbtree) × (tb_add tbs rounds t x ≡ ok u)
      × Represents (tc_less tbs) u (insert_sorted (tc_less tbs) x xs)
unfolding tb_add
tb_add-Represents tbs Block rounds t xs x apart filled (x_on, on) some_x new le rep =
    let lo = λ (c : ℕ). (tbs c).tc_ptr in
    let hi = λ (c : ℕ). tc_end (tbs c) in
    let order = blocks-IsOrder lo hi Block apart filled in
    let searched : rbtree_find (tc_less tbs) rounds t x ≡ ok none =
      rbtree_find-Represents (tc_less tbs) Block order rounds t xs le rep x (x_on, on)
      ∙ ap ok (find_sorted-absent lo hi Block apart filled x xs x_on on new) in
    let (u, run, after) =
      rbtree_insert-Represents (tc_less tbs) Block rounds t xs x order (x_on, on) some_x new le
        rep in
    (u, rw (tb_add, searched, ◌>>=◌, run), after)
