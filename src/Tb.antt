-- ===== src/Tb.antt =====
-- Translation blocks: btmod/bt/peep/tb.h and the functions of btmod/bt/peep/tb.c that work on one
-- block. The two links of a block into search trees (`jumptable2_elem`, `tc_elem`) are no members:
-- the tree in Tree knows a block by the address of its `tc_elem`. A pointer into the block's tables
-- comes with what it points to. The counts of a block are below
-- 2 ^ 30, so that no size in bytes wraps.
pub mod Jumps
pub mod Locate
pub mod Alloc
pub mod Obtain
pub mod Tree
use btkernel.Base.{
  ℕ, zero, suc, ◌+◌, ◌-◌, ◌*◌, ◌/◌, ◌%◌, ◌^◌, Bool, true, false, not, ◌&&◌, Option, none, some,
  List, [], ◌∷◌, ◌++◌, ltb, leb, ◌==◌, if◌then◌else◌, take, replicate, Run, assert, read, panic,
  fault, ok, stop, ◌>>=◌, ◌>>◌,
}
use btkernel.Malloc.{MallocInfo, add32, pool_tc, pool_edge, pool_kmalloc, malloc_from_pool}

-- An array of `uint16_t` at an address.
pub record Array16 : Type 0 where
  pub at : ℕ
  pub items : List ℕ

-- `tb_t`
pub record Tb : Type 0 where
  pub eip_virt : ℕ
  pub end_eip : ℕ
  pub edge_len : ℕ
  pub code_len : ℕ
  pub num_insns : ℕ
  pub num_jumps : ℕ
  pub tc_ptr : ℕ
  pub edge_ptr : ℕ
  pub eip_boundaries : Array16
  pub tc_boundaries : Array16
  pub jump_boundaries : Array16
  pub alignment : ℕ

-- `tb_kmalloc`: nothing is allocated for a size of 0.
pub tb_kmalloc : MallocInfo → ℕ → ℕ → Run (ℕ × MallocInfo)
tb_kmalloc info size pool = if size == 0 then ok (0, info) else do
  (ret, info') ← malloc_from_pool info pool size
  if ret == 0 then stop panic else ok (ret, info')

-- `alloc_a_tb`: the address of the block and its `alignment`. `sizeof_tb` is the size of a `tb_t`,
-- which is the compiler's; `& ~3` clears the two low bits of a word.
pub alloc_a_tb : ℕ → MallocInfo → Run (ℕ × ℕ × MallocInfo)
alloc_a_tb sizeof_tb info = do
  (alloc, info') ← tb_kmalloc info (sizeof_tb + 3) pool_kmalloc
  let tb = add32 alloc 3 / 4 * 4
  assert (tb % 4 == 0)
  let alignment = (tb + 2 ^ 32 - alloc) % 2 ^ 32
  assert (ltb alignment 4)
  ok (tb, alignment, info')

-- `tb_malloc`. The pools hand out memory that `btalloc` has cleared and that no block had before.
pub tb_malloc : MallocInfo → Tb → Run (Tb × MallocInfo)
tb_malloc info tb = do
  (tc, info₁) ← tb_kmalloc info tb.code_len pool_tc
  (edge, info₂) ← tb_kmalloc info₁ tb.edge_len pool_edge
  (tcb, info₃) ← tb_kmalloc info₂ ((tb.num_insns + 1) * 2) pool_kmalloc
  (eipb, info₄) ← tb_kmalloc info₃ (tb.num_insns * 2) pool_kmalloc
  ok (
    record tb {
      num_jumps = 0;
      tc_ptr = tc;
      edge_ptr = edge;
      tc_boundaries = record { at = tcb; items = replicate (tb.num_insns + 1) 0 };
      eip_boundaries = record { at = eipb; items = replicate tb.num_insns 0 };
    },
    info₄,
  )

-- The loop of `search_offset` with `n` rounds left.
pub search_loop : List ℕ → ℕ → ℕ → ℕ → Run Bool
search_loop jumps off zero i = ok false
search_loop jumps off (suc n) i = do
  j ← read jumps i
  elim (j == off) [ true ↦ ok true | false ↦ search_loop jumps off n (i + 1) ]

pub search_offset : Tb → ℕ → Run Bool
search_offset tb off = search_loop tb.jump_boundaries.items off tb.num_jumps 0

-- `tb_add_jump`. The copy takes `num_jumps` entries of the old array; the old array is not freed.
pub tb_add_jump : MallocInfo → Tb → ℕ → Run (Tb × MallocInfo)
tb_add_jump info tb off = do
  known ← search_offset tb off
  if known then ok (tb, info) else do
    (jmp_arr, info') ← tb_kmalloc info ((tb.num_jumps + 1) * 2) pool_kmalloc
    assert (not (jmp_arr == 0))
    ok (
      record tb {
        num_jumps = tb.num_jumps + 1;
        jump_boundaries = record {
          at = jmp_arr;
          items = take tb.num_jumps tb.jump_boundaries.items ++ off ∷ [];
        };
      },
      info',
    )

-- Where instruction `i` starts: `(i == 0) ? eip_virt : eip_virt + eip_boundaries[i - 1]`.
pub start_of : Tb → ℕ → Run ℕ
start_of tb zero = ok tb.eip_virt
start_of tb (suc i) = do off ← read tb.eip_boundaries.items i; ok (add32 tb.eip_virt off)

-- The loop of `tb_tc_ptr_to_eip_virt` with `n` rounds left; after the last one comes `NOT_REACHED`.
pub tc_loop : Tb → ℕ → ℕ → ℕ → Run ℕ
tc_loop tb tc_ptr zero i = stop panic
tc_loop tb tc_ptr (suc n) i = do
  low ← read tb.tc_boundaries.items i
  high ← read tb.tc_boundaries.items (i + 1)
  elim (leb (add32 tb.tc_ptr low) tc_ptr && ltb tc_ptr (add32 tb.tc_ptr high)) [
    | true ↦ start_of tb i
    | false ↦ tc_loop tb tc_ptr n (i + 1)
  ]

-- `tb_tc_ptr_to_eip_virt` behind its call of `tb_find`, which finds `none` or the block.
pub tb_tc_ptr_to_eip_virt : Option Tb → ℕ → Run ℕ
tb_tc_ptr_to_eip_virt none tc_ptr = ok 0
tb_tc_ptr_to_eip_virt (some tb) tc_ptr = do
  end ← read tb.tc_boundaries.items tb.num_insns
  assert (leb tb.tc_ptr tc_ptr && ltb tc_ptr (add32 tb.tc_ptr end))
  tc_loop tb tc_ptr tb.num_insns 0

-- The loop of `eip_virt_to_tc_ptr` with `n` rounds left.
pub eip_loop : Tb → ℕ → ℕ → ℕ → Run ℕ
eip_loop tb eip zero i = ok 0
eip_loop tb eip (suc n) i = do
  high ← read tb.eip_boundaries.items i
  elim (ltb eip (add32 tb.eip_virt high)) [
    | true ↦ do
      prev_eip ← start_of tb i
      tc ← read tb.tc_boundaries.items i
      ok (add32 (add32 tb.tc_ptr tc) (eip + 2 ^ 32 - prev_eip))
    | false ↦ eip_loop tb eip n (i + 1)
  ]

-- `eip_boundaries[n_insn - 1]`; with no instruction this is outside the array.
pub last_boundary : Tb → ℕ → Run ℕ
last_boundary tb zero = stop fault
last_boundary tb (suc n) = read tb.eip_boundaries.items n

pub eip_virt_to_tc_ptr : Tb → ℕ → Run ℕ
eip_virt_to_tc_ptr tb eip = do
  last ← last_boundary tb tb.num_insns
  assert (ltb tb.eip_virt eip && ltb eip (add32 tb.eip_virt last))
  eip_loop tb eip tb.num_insns 0
