-- ===== src/Tests/Tree.antt =====
-- Blocks whose translations are fifty bytes at each multiple of hundred; two of them are in the tree.
use btkernel.Base.{
  ℕ, ◌+◌, ◌*◌, ◌<◌, ◌≡◌, inl, inr, Option, List, [], ◌∷◌, arith, ℕ_discrete, ltb, ltb→lt, leb→le,
  Bool-cases, ok,
}
use btkernel.Malloc.{add32}
use btkernel.Tb.{Tb, Array16}
use btkernel.Rbtree.{black, Rbtree, rbtree_init, rbtree_insert}
use btkernel.Rbtree.Order.{IsOrder}
use btkernel.Rbtree.Sequence.{Represents, rbtree_init-Represents, rbtree_insert-Represents}
use btkernel.Tb.Tree.{tc_less, tc_end, tb_find, tb_add}
use btkernel.Tb.Tree.Interval.{IsApart, leb→lt, lt→leb}
use btkernel.Tb.Tree.Adds.{tb_add-Represents}
use btkernel.Tb.Tree.Finds.{Located, tb_find-Located}

abbrev array : List ℕ → Array16
array xs = record { at = 64; items = xs }

abbrev tbs : ℕ → Tb
tbs a = record {
  eip_virt = 0;
  end_eip = 0;
  edge_len = 0;
  code_len = 50;
  num_insns = 0;
  num_jumps = 0;
  tc_ptr = 100 * a;
  edge_ptr = 0;
  eip_boundaries = array [];
  tc_boundaries = array (50 ∷ []);
  jump_boundaries = array [];
  alignment = 0;
}

abbrev Block : ℕ → Type 0
Block a = a < 1000

tbs_end : (a : ℕ) → Block a → tc_end (tbs a) ≡ 100 * a + 50
unfolding add32
tbs_end a h = omega (arith, h)

tbs-IsOrder : IsOrder (tc_less tbs) Block
tbs-IsOrder = record {
  asym = λ a b p q h.
      let e = tbs_end a p in
      let f = tbs_end b q in
      let k = leb→le (tc_end (tbs a)) (100 * b) h in
      lt→leb (tc_end (tbs b)) (100 * a) (omega arith);
  through = λ a b c p q r h k.
      let e = tbs_end a p in
      let f = tbs_end b q in
      let l = leb→lt (tc_end (tbs a)) (100 * b) h in
      let m = leb→lt (tc_end (tbs b)) (100 * c) k in
      lt→leb (tc_end (tbs a)) (100 * c) (omega arith);
}

tbs-IsApart :
    (a b : ℕ) → Block a → Block b → IsApart (λ c. (tbs c).tc_ptr) (λ c. tc_end (tbs c)) a b
tbs-IsApart a b p q =
    let e = tbs_end a p in
    let f = tbs_end b q in
    elim (ℕ_discrete a b) [
      | yes s ↦ inl s
      | no n ↦ elim (Bool-cases (ltb a b)) [
        | inl l ↦ let m = ltb→lt a b l in inr (inl (omega arith))
        | inr l ↦ inr (inr (ground arith))
      ]
    ]

abbrev blank : Rbtree
blank = record { root = 0; left = λ a. 0; right = λ a. 0; parent = λ a. 0; color = λ a. black }

one_in :
    (u : Rbtree) × (rbtree_insert (tc_less tbs) 9 (rbtree_init blank) 2 ≡ ok u)
    × Represents (tc_less tbs) u (2 ∷ [])
one_in =
    rbtree_insert-Represents (tc_less tbs) Block 9 (rbtree_init blank) [] 2 tbs-IsOrder
      (omega arith, tt) (omega arith) tt (omega arith) (rbtree_init-Represents (tc_less tbs) blank)

two_in :
    (u : Rbtree) × (rbtree_insert (tc_less tbs) 9 one_in.0 1 ≡ ok u)
    × Represents (tc_less tbs) u (1 ∷ 2 ∷ [])
unfolding add32
two_in =
    rbtree_insert-Represents (tc_less tbs) Block 9 one_in.0 (2 ∷ []) 1 tbs-IsOrder
      (omega arith, (omega arith, tt)) (omega arith) ((omega arith), tt) (omega arith) one_in.2

tb_find-Located_example :
    (o : Option ℕ) × (tb_find tbs 9 two_in.0 5000 210 ≡ ok o) × Located tbs (1 ∷ 2 ∷ []) 210 o
tb_find-Located_example =
    tb_find-Located tbs Block tbs-IsApart (λ a h. let e = tbs_end a h in omega arith) 5000 210
      (λ a h e. absurd (omega arith)) (omega arith) 9 two_in.0 (1 ∷ 2 ∷ []) (omega arith) two_in.2
      (omega arith, (omega arith, tt))

tb_add-Represents_example :
    (u : Rbtree) × (tb_add tbs 9 two_in.0 3 ≡ ok u) × Represents (tc_less tbs) u (1 ∷ 2 ∷ 3 ∷ [])
unfolding add32
tb_add-Represents_example =
    tb_add-Represents tbs Block 9 two_in.0 (1 ∷ 2 ∷ []) 3 tbs-IsApart
      (λ a h. let e = tbs_end a h in omega arith) (omega arith, (omega arith, (omega arith, tt)))
      (omega arith) ((omega arith), ((omega arith), tt)) (omega arith) two_in.2
