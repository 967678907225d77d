-- ===== src/Tb/Tree.antt =====
-- The search tree of the blocks by the addresses of their translations, of btmod/bt/peep/tb.c. A
-- block goes by the address of its `tc_elem`, and the blocks are a function of that address.
pub mod Interval
pub mod Finds
pub mod Adds
use btkernel.Base.{
  ℕ, Bool, true, false, Option, none, some, [], ◌∷◌, leb, get_or, Run, assert, ok, ◌>>=◌, ◌>>◌,
}
use btkernel.Malloc.{add32}
use btkernel.Tb.{Tb}
use btkernel.Rbtree.{Rbtree, update, rbtree_init, rbtree_insert}
use btkernel.Rbtree.Search.{rbtree_find, rbtree_next}

-- The end of a translation. The table of a block has `num_insns + 1` entries.
abbrev pub tc_end : Tb → ℕ
tc_end tb = add32 tb.tc_ptr (get_or tb.tc_boundaries.items tb.num_insns 0)

abbrev pub tc_less : (ℕ → Tb) → ℕ → ℕ → Bool
tc_less tbs a b = leb (tc_end (tbs a)) (tbs b).tc_ptr

-- The local block of `tb_find`, whose `tc_elem` has the address `key`: its members that are not set
-- are what the address held.
abbrev pub local_tb : (ℕ → Tb) → ℕ → ℕ → Tb
local_tb tbs key tc_ptr = record (tbs key) {
  num_insns = 0;
  tc_boundaries = record (tbs key).tc_boundaries { items = 1 ∷ [] };
  tc_ptr = tc_ptr;
}

abbrev pub with_key : (ℕ → Tb) → ℕ → ℕ → ℕ → Tb
with_key tbs key tc_ptr = update tbs key (local_tb tbs key tc_ptr)

abbrev pub tb_init : Rbtree → Rbtree
tb_init t = rbtree_init t

pub tb_find : (ℕ → Tb) → ℕ → Rbtree → ℕ → ℕ → Run (Option ℕ)
tb_find tbs rounds t key tc_ptr = do
  let less = tc_less (with_key tbs key tc_ptr)
  found ← rbtree_find less rounds t key
  elim found [
    | none ↦ ok none
    | some ret ↦ do
      next ← rbtree_next rounds t ret
      assert (elim next [ none ↦ true | some b ↦ less ret b ])
      ok (some ret)
  ]

pub tb_add : (ℕ → Tb) → ℕ → Rbtree → ℕ → Run Rbtree
tb_add tbs rounds t tb = do
  found ← rbtree_find (tc_less tbs) rounds t tb
  assert (elim found [ none ↦ true | some b ↦ false ])
  rbtree_insert (tc_less tbs) rounds t tb
