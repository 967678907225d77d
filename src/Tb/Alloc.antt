-- ===== src/Tb/Alloc.antt =====
-- `alloc_a_tb` of btmod/bt/peep/tb.c: a block descriptor that is aligned by hand.
use btkernel.Base.{
  ℕ, ◌+◌, ◌-◌, ◌*◌, ◌/◌, ◌%◌, ◌^◌, ◌≤◌, ◌<◌, ◌≡◌, ◌≢◌, true, false, arith, ltb, ◌==◌, lt→ltb,
  ==_iff, ◌>>=◌, ok,
}
use btkernel.Malloc.{MallocInfo, add32, pool_kmalloc, malloc_from_pool}
use btkernel.Tb.{tb_kmalloc, alloc_a_tb}

-- Where the kmalloc pool serves three bytes more than a descriptor takes, not at 0 and within the
-- address space, `alloc_a_tb` returns and none of its assertions fails: the descriptor lies inside
-- the bytes that were served, at a multiple of 4, and `alignment` leads back from it to their
-- start.
pub alloc_a_tb-aligned :
    (info info' : MallocInfo) (sizeof_tb alloc : ℕ)
    → malloc_from_pool info pool_kmalloc (sizeof_tb + 3) ≡ ok (alloc, info')
    → alloc ≢ 0
    → alloc + sizeof_tb + 3 < 2 ^ 32
    → (tb : ℕ) × (alignment : ℕ) × (alloc_a_tb sizeof_tb info ≡ ok (tb, alignment, info'))
      × (tb % 4 ≡ 0)
      × (alloc ≤ tb)
      × (tb + sizeof_tb ≤ alloc + (sizeof_tb + 3))
      × (tb ≡ alloc + alignment)
      × (alignment < 4)
unfolding alloc_a_tb tb_kmalloc add32
alloc_a_tb-aligned info info' sizeof_tb alloc served ne word =
    let tb = (alloc + 3) / 4 * 4 in
    let wrapped : (alloc + 3) % 2 ^ 32 / 4 * 4 ≡ tb = omega arith in
    let offset : (tb + 2 ^ 32 - alloc) % 2 ^ 32 ≡ tb - alloc = omega arith in
    let some_size : sizeof_tb + 3 == 0 ≡ false = ground arith in
    let some_addr : alloc == 0 ≡ false = ground arith in
    let aligned : tb % 4 == 0 ≡ true = (==_iff _ 0).1 (omega arith) in
    let near : ltb (tb - alloc) 4 ≡ true = lt→ltb _ _ (omega arith) in
    (
      tb,
      tb - alloc,
      rw (some_size, served, ◌>>=◌, some_addr, wrapped, aligned, offset, near),
      omega arith,
      omega arith,
      omega arith,
      omega arith,
      omega arith,
    )
