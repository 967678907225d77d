-- ===== src/Malloc/Init.antt =====
-- `pool_alloc_pages`, `malloc_init` and `malloc_uninit` of btmod/bt/mem/malloc.c.
pub mod Fill
pub mod Ready
use btkernel.Base.{
  ℕ, zero, suc, ◌+◌, ◌-◌, ◌*◌, ◌%◌, ◌^◌, Bool, true, false, List, ◌==◌, if◌then◌else◌, Run, read,
  write, ok, ◌>>=◌,
}
use native.Mathlib.Nat.{add-zero}
use mathlib.Core.Path.{subst₂}
use btkernel.Malloc.{ChunkInfo, MallocInfo, max_chunk, init_pool_range}
use btkernel.Malloc.Take.{IsChunk}
use btkernel.Malloc.Trace.{Block, Apart, Apart-symm, ChunksApart, IsReady}
use btkernel.Malloc.Pages.{
  Kernel, Machine, btalloc, btfree, KernelLaws, btalloc-vmalloc, btalloc_place,
}

-- MAX_POOL_PAGES * PAGE_SIZE
abbrev pub pool_bytes : ℕ
pool_bytes = 64 * 4096

-- The chunk over a block at `ptr`; its last sixteen bytes are kept back.
abbrev pub chunk_at : ℕ → ChunkInfo
chunk_at ptr = record {
  chunk_start = ptr;
  chunk_end = (ptr + pool_bytes - 16) % 2 ^ 32;
  chunk_cur = ptr;
}

module _ (k : Kernel) where
  -- The loop of `pool_alloc_pages` with `n` rounds left; `false` is its `return 0`.
  pub fill_loop : List ChunkInfo → Machine k → ℕ → ℕ → Run (Bool × List ChunkInfo × Machine k)
  fill_loop cs m zero i = ok (true, cs, m)
  fill_loop cs m (suc n) i =
      let (ptr, m') = btalloc k m pool_bytes in
      elim (ptr == 0) [
        | true ↦ ok (false, cs, m')
        | false ↦ do cs' ← write cs i (chunk_at ptr); fill_loop cs' m' n (i + 1)
      ]

  pub pool_alloc_pages : MallocInfo → Machine k → Run (Bool × MallocInfo × Machine k)
  pool_alloc_pages info m = do
    (done, cs, m') ← fill_loop info.cinfo m max_chunk 0
    ok (done, record info { cinfo = cs }, m')

  pub malloc_init : MallocInfo → Machine k → Run (Bool × MallocInfo × Machine k)
  malloc_init info m = do
    (done, info', m') ← pool_alloc_pages info m
    ok (done, if done then init_pool_range info' else info', m')

  -- The loop of `malloc_uninit` with `n` rounds left.
  pub free_loop : List ChunkInfo → Machine k → ℕ → ℕ → Run (Machine k)
  free_loop cs m zero i = ok m
  free_loop cs m (suc n) i = do
    c ← read cs i
    free_loop cs (btfree k m c.chunk_start pool_bytes) n (i + 1)

  pub malloc_uninit : MallocInfo → Machine k → Run (Machine k)
  malloc_uninit info m = free_loop info.cinfo m max_chunk 0
