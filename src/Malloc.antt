-- ===== src/Malloc.antt =====
-- The memory pools of btmod/bt/mem/malloc.c and mem/malloc.h: three pools share sixty chunks, and
-- each chunk is a bump allocator. A `uint32_t` or a pointer is a number below 2 ^ 32, and a sum of
-- two of them wraps. The `-1` of `addr_to_chunk` and `addr_to_pool` is `none`.
pub mod Pages
pub mod Init
pub mod Take
pub mod Trace
pub mod Classify
use btkernel.Base.{
  ℕ, zero, suc, ◌+◌, ◌-◌, ◌%◌, ◌^◌, true, false, ◌&&◌, Option, none, some, List, [], ◌∷◌, ltb, leb,
  if◌then◌else◌, set, Run, read, panic, ok, stop, ◌>>=◌,
}

abbrev pub pool_tc : ℕ
pool_tc = 0

abbrev pub pool_edge : ℕ
pool_edge = 1

abbrev pub pool_kmalloc : ℕ
pool_kmalloc = 2

abbrev pub max_chunk : ℕ
max_chunk = 60

-- `struct chunk_info`
pub record ChunkInfo : Type 0 where
  pub chunk_start : ℕ
  pub chunk_end : ℕ
  pub chunk_cur : ℕ

-- `struct malloc_info`; a row of `pool_range` is a pair
pub record MallocInfo : Type 0 where
  pub pool_range : List (ℕ × ℕ)
  pub cinfo : List ChunkInfo

-- uint32_t addition
unfoldable pub add32 : ℕ → ℕ → ℕ
add32 a b = (a + b) % 2 ^ 32

-- The `for` loop of `malloc_from_pool` with `n` rounds left; after the last one comes `BUG()`.
unfoldable pub take_loop : List ChunkInfo → ℕ → ℕ → ℕ → Run (ℕ × List ChunkInfo)
take_loop cs size zero i = stop panic
take_loop cs size (suc n) i = do
  c ← read cs i
  let next = add32 c.chunk_cur size
  elim (leb next c.chunk_end) [
    | true ↦ ok (c.chunk_cur, set cs i (record c { chunk_cur = next }))
    | false ↦ take_loop cs size n (i + 1)
  ]

unfoldable pub malloc_from_pool : MallocInfo → ℕ → ℕ → Run (ℕ × MallocInfo)
malloc_from_pool info pool size = do
  (start, end) ← read info.pool_range pool
  (ret, cs) ← take_loop info.cinfo size (end - start) start
  ok (ret, record info { cinfo = cs })

-- The loop of `addr_to_chunk` with `n` rounds left.
pub chunk_loop : List ChunkInfo → ℕ → ℕ → ℕ → Run (Option ℕ)
chunk_loop cs addr zero i = ok none
chunk_loop cs addr (suc n) i = do
  c ← read cs i
  elim (leb c.chunk_start addr && ltb addr c.chunk_end) [
    | true ↦ ok (some i)
    | false ↦ chunk_loop cs addr n (i + 1)
  ]

pub addr_to_chunk : MallocInfo → ℕ → Run (Option ℕ)
addr_to_chunk info addr = chunk_loop info.cinfo addr max_chunk 0

-- The two tests on `chunk_id`; a chunk of the last pool has no pool here.
pub chunk_to_pool : Option ℕ → Option ℕ
chunk_to_pool none = none
chunk_to_pool (some chunk_id) =
    if ltb chunk_id 24
    then some pool_tc
    else if leb 24 chunk_id && ltb chunk_id 40
    then some pool_edge
    else none

pub addr_to_pool : MallocInfo → ℕ → Run (Option ℕ)
addr_to_pool info addr = do chunk_id ← addr_to_chunk info addr; ok (chunk_to_pool chunk_id)

-- `init_pool_range`
pub init_pool_range : MallocInfo → MallocInfo
init_pool_range info = record info { pool_range = (0, 24) ∷ (24, 40) ∷ (40, 60) ∷ [] }
