-- ===== src/Tb/Tree/Finds.antt =====
-- `tb_find` of btmod/bt/peep/tb.c finds the block whose translation an address lies in.
use btkernel.Base.{
  ℕ, ◌+◌, ◌%◌, ◌^◌, ◌≤◌, ◌<◌, ◌≡◌, refl, sym, ap, ◌∙◌, subst, ◌≢◌, ◌⊎◌, inl, inr, true, false,
  Option, none, some, List, [], ◌∷◌, ◌++◌, arith, leb, Option-cases, if_ne, if_eq, length, All,
  All-mono, ◌>>=◌, ok,
}
use btkernel.Malloc.{add32}
use btkernel.Tb.{Tb}
use btkernel.Rbtree.{Rbtree}
use btkernel.Rbtree.Order.{Sorted, Sorted-later, All-split}
use btkernel.Rbtree.Sequence.{Represents, Represents-distinct}
use btkernel.Rbtree.Search.{rbtree_find, rbtree_next}
use btkernel.Rbtree.Search.FirstEqual.{find_sorted}
use btkernel.Rbtree.Search.Found.{rbtree_find-Represents}
use btkernel.Rbtree.Search.Iterate.{rbtree_next-Represents, rbtree_next-last}
use btkernel.Tb.Tree.{tc_end, tc_less, local_tb, with_key, tb_find}
use btkernel.Tb.Tree.Interval.{
  IsApart, leb→lt, le→leb, before-IsOrder, find_sorted-Holding, Holding, On,
}

-- Where the address is within the translation of a block.
abbrev pub Within : (ℕ → Tb) → ℕ → ℕ → Type 0
Within tbs p a = ((tbs a).tc_ptr ≤ p) × (p < tc_end (tbs a))

-- A block of the sequence that holds the address, or no block of it does.
abbrev pub Located : (ℕ → Tb) → List ℕ → ℕ → Option ℕ → Type 0
Located tbs xs p none = All (λ b. (tc_end (tbs b) ≤ p) ⊎ (p < (tbs b).tc_ptr)) xs
Located tbs xs p (some f) =
    ((pre : List ℕ) × (post : List ℕ) × (xs ≡ pre ++ f ∷ post)) × Within tbs p f

module _ (tbs : ℕ → Tb) (Block : ℕ → Type 0)
    (apart : (a b : ℕ)
      → Block a
      → Block b
      → IsApart (λ c. (tbs c).tc_ptr) (λ c. tc_end (tbs c)) a b)
    (filled : (a : ℕ) → Block a → (tbs a).tc_ptr < tc_end (tbs a)) (key p : ℕ)
    (local : (a : ℕ) → Block a → a ≢ key) (word : p + 1 < 2 ^ 32) where
  abbrev all : ℕ → Tb
  all = with_key tbs key p

  all_block : (a : ℕ) → Block a → all a ≡ tbs a
  all_block a h = if_ne a key (local_tb tbs key p) (tbs a) (local a h)

  abbrev lo : ℕ → ℕ
  lo a = (all a).tc_ptr

  abbrev hi : ℕ → ℕ
  hi a = tc_end (all a)

  lo_key : lo key ≡ p
  lo_key = ap (λ tb. tb.tc_ptr) (if_eq key (local_tb tbs key p) (tbs key))

  hi_key : hi key ≡ lo key + 1
  unfolding add32
  hi_key =
      let e : hi key ≡ (p + 1) % 2 ^ 32 = ap tc_end (if_eq key (local_tb tbs key p) (tbs key)) in
      let f = lo_key in omega (arith, word)

  lo_block : (a : ℕ) → Block a → lo a ≡ (tbs a).tc_ptr
  lo_block a h = ap (λ tb. tb.tc_ptr) (all_block a h)

  hi_block : (a : ℕ) → Block a → hi a ≡ tc_end (tbs a)
  hi_block a h = ap tc_end (all_block a h)

  all-IsApart : (a b : ℕ) → Block a → Block b → IsApart lo hi a b
  all-IsApart a b h k = elim (apart a b h k) [
    | inl e ↦ inl e
    | inr (inl l) ↦ inr (inl (let e = hi_block a h in let f = lo_block b k in omega arith))
    | inr (inr l) ↦ inr (inr (let e = hi_block b k in let f = lo_block a h in omega arith))
  ]

  all_filled : (a : ℕ) → Block a → lo a < hi a
  all_filled a h = let e = hi_block a h in let f = lo_block a h in let g = filled a h in omega arith

  less_block : (a b : ℕ) → Block a → Block b → tc_less tbs a b ≡ tc_less all a b
  less_block a b h k =
      ap (λ v. leb v (tbs b).tc_ptr) (sym (hi_block a h)) ∙ ap (leb (hi a)) (sym (lo_block b k))

  All-less_block :
      (a : ℕ) (xs : List ℕ)
      → Block a
      → All Block xs
      → All (λ b. tc_less tbs b a ≡ false) xs
      → All (λ b. tc_less all b a ≡ false) xs
  All-less_block a [] h hs last = tt
  All-less_block a (b ∷ xs) h (k, hs) (e, last) =
      (sym (less_block b a k h) ∙ e, All-less_block a xs h hs last)

  all-Sorted : (xs : List ℕ) → All Block xs → Sorted (tc_less tbs) xs → Sorted (tc_less all) xs
  all-Sorted [] hs s = tt
  all-Sorted (a ∷ xs) (h, hs) (last, s) = (All-less_block a xs h hs last, all-Sorted xs hs s)

  all_outside :
      (xs : List ℕ)
      → All Block xs
      → All (λ b. (hi b ≤ lo key) ⊎ (lo key < lo b)) xs
      → All (λ b. (tc_end (tbs b) ≤ p) ⊎ (p < (tbs b).tc_ptr)) xs
  all_outside [] hs out = tt
  all_outside (a ∷ xs) (h, hs) (o, out) =
      let e = hi_block a h in
      let f = lo_block a h in
      let k = lo_key in
      (elim o [ inl l ↦ inl (omega arith) | inr l ↦ inr (omega arith) ], all_outside xs hs out)

  module _ (rounds : ℕ) (t : Rbtree) (xs : List ℕ) (le : length xs < rounds)
      (rep : Represents (tc_less tbs) t xs) (blocks : All Block xs) where
    all_rep : Represents (tc_less all) t xs
    all_rep = record {
      tree = rep.tree;
      held = rep.held;
      balanced = rep.balanced;
      elements = rep.elements;
      sorted = all-Sorted xs blocks rep.sorted;
    }

    searched : rbtree_find (tc_less all) rounds t key ≡ ok (find_sorted (tc_less all) key xs)
    searched =
        rbtree_find-Represents (tc_less all) (On lo hi Block key hi_key all-IsApart all_filled)
          (before-IsOrder lo hi Block key hi_key all-IsApart all_filled) rounds t xs le all_rep key
          (inr refl, All-mono xs (λ a h. inl h) blocks)

    -- The block behind the one that is found is behind its translation.
    next_less :
        (pre post : List ℕ) (f : ℕ)
        → xs ≡ pre ++ f ∷ post
        → (next : Option ℕ) × (rbtree_next rounds t f ≡ ok next)
          × (elim next [ none ↦ true | some b ↦ tc_less all f b ] ≡ true)
    next_less pre [] f split =
        (none, rbtree_next-last (tc_less tbs) rounds t xs le rep pre f split, refl)
    next_less pre (b ∷ post) f split =
        let next = rbtree_next-Represents (tc_less tbs) rounds t xs le rep pre f b post split in
        let (hs, h, (k, ks)) = All-split Block pre (b ∷ post) f (subst (All Block) split blocks) in
        let later =
          Sorted-later (tc_less tbs) pre post f b (subst (Sorted (tc_less tbs)) split rep.sorted) in
        let meets = leb→lt (tc_end (tbs b)) (tbs f).tc_ptr later in
        (
          some b,
          next.0,
          elim (apart f b h k) [
            | inl e ↦ absurd (Represents-distinct (tc_less tbs) t xs pre post f b rep split e)
            | inr (inl l) ↦ sym (less_block f b h k) ∙ le→leb (tc_end (tbs f)) (tbs b).tc_ptr l
            | inr (inr l) ↦ absurd (omega arith)
          ],
        )

    -- Where the fields hold a red-black tree of blocks in the order of `tc_less`, the translations of
    -- the blocks are not empty and lie apart, none of them is the local block of the function, and the
    -- address is not the last of the address space, `tb_find` returns with one round more than there
    -- are blocks, and its ASSERT holds: it returns a block of the tree whose translation the address
    -- lies in, or `NULL` where it lies in the translation of no block of the tree.
    pub tb_find-Located : (o : Option ℕ) × (tb_find tbs rounds t key p ≡ ok o) × Located tbs xs p o
    unfolding tb_find
    tb_find-Located =
        let holds : Holding lo hi Block key hi_key all-IsApart all_filled xs
            (find_sorted (tc_less all) key xs) =
          find_sorted-Holding lo hi Block key hi_key all-IsApart all_filled xs blocks
            (all-Sorted xs blocks rep.sorted) in
        elim (Option-cases (find_sorted (tc_less all) key xs)) [
          | inl e ↦ (
            none,
            rw (tb_find, searched, e, ◌>>=◌),
            all_outside xs blocks
                (subst (Holding lo hi Block key hi_key all-IsApart all_filled xs) e holds),
          )
          | inr (f, e) ↦
              let (pre, post, split, low, high) =
                subst (Holding lo hi Block key hi_key all-IsApart all_filled xs) e holds in
              let (hs, h, ks) = All-split Block pre post f (subst (All Block) split blocks) in
              let (next, run, less) = next_less pre post f split in
              let a = hi_block f h in
              let b = lo_block f h in
              let c = lo_key in
              (
                some f,
                rw (tb_find, searched, e, ◌>>=◌, run, less),
                ((pre, post, split), (omega arith, omega arith)),
              )
        ]
