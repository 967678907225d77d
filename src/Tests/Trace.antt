-- ===== src/Tests/Trace.antt =====
-- Sequences of requests to the sixty chunks, and the pools of their addresses.
use btkernel.Base.{
  ℕ, ◌+◌, ◌*◌, ◌^◌, ◌≤◌, ◌<◌, ◌≡◌, refl, ◌⊎◌, none, some, List, [], ◌∷◌, arith, get_elem?, read,
  panic, ok, stop,
}
use btkernel.Malloc.{
  ChunkInfo, MallocInfo, malloc_from_pool, take_loop, add32, addr_to_chunk, addr_to_pool, pool_tc,
  pool_edge,
}
use btkernel.Malloc.Trace.{Block}
use btkernel.Malloc.Trace.Handed.{Request, AllRequests, malloc_all, Handed, malloc_all-Disjoint}
use btkernel.Malloc.Classify.{
  Within, Outside, addr_to_chunk-some, addr_to_pool-Says, addr_to_pool-malloc_from_pool,
}
use btkernel.Tests.{chunk_of, chunks, pools, pools-count, pools-IsReady, pools-Fits}

abbrev requests : List Request
requests = (2, 100) ∷ (0, 65536) ∷ (2, 8) ∷ []

requests-AllRequests : AllRequests pools requests
requests-AllRequests = (
  (omega arith, pools-Fits 100 (omega arith)),
  ((omega arith, pools-Fits 65536 (omega arith)), ((omega arith, pools-Fits 8 (omega arith)), tt)),
)

malloc_all-Disjoint_example :
    ((blocks : List Block) × (info' : MallocInfo) × (malloc_all pools requests ≡ ok (blocks, info'))
      × Handed pools info' blocks)
    ⊎ (malloc_all pools requests ≡ stop panic)
malloc_all-Disjoint_example = malloc_all-Disjoint pools requests pools-IsReady requests-AllRequests

at_two : get_elem? pools.cinfo 2 ≡ some (chunk_of 2)
unfolding chunks
at_two = refl

addr_to_chunk-some_example : addr_to_chunk pools (3 * 2 ^ 20 + 17) ≡ ok (some 2)
addr_to_chunk-some_example =
    addr_to_chunk-some pools (3 * 2 ^ 20 + 17) 2 (chunk_of 2) pools-IsReady at_two
      (omega arith, omega arith)

addr_to_pool-Says_example :
    ((pool : ℕ) × (i : ℕ) × (c : ChunkInfo) × (addr_to_pool pools 12345678 ≡ ok (some pool))
      × (get_elem? pools.cinfo i ≡ some c)
      × Within 12345678 c
      × ((pool ≡ pool_tc) × (i < 24) ⊎ (pool ≡ pool_edge) × ((24 ≤ i) × (i < 40))))
    ⊎ (addr_to_pool pools 12345678 ≡ ok none) × Outside pools.cinfo 12345678 0 40
addr_to_pool-Says_example = addr_to_pool-Says pools 12345678 pools-count

abbrev after : MallocInfo
after = record pools { cinfo = record (chunk_of 0) { chunk_cur = 2 ^ 20 + 100 } ∷ chunks 59 1 }

served : malloc_from_pool pools 0 100 ≡ ok (2 ^ 20, after)
unfolding malloc_from_pool take_loop add32 chunks read
served = refl

addr_to_pool-malloc_from_pool_example : addr_to_pool after (2 ^ 20 + 99) ≡ ok (some pool_tc)
addr_to_pool-malloc_from_pool_example =
    addr_to_pool-malloc_from_pool pools after 0 100 (2 ^ 20) (2 ^ 20 + 99) pools-IsReady
      (omega arith, pools-Fits 100 (omega arith)) served (omega arith) (omega arith)
