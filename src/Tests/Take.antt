-- ===== src/Tests/Take.antt =====
-- Single requests to the pools.
use btkernel.Base.{ℕ, ◌-◌, ◌^◌, ◌<◌, ◌≡◌, refl, ◌⊎◌, arith, set, panic, ok, stop}
use btkernel.Malloc.{ChunkInfo, MallocInfo, malloc_from_pool}
use btkernel.Malloc.Take.{
  IsChunk, Taken, Full, IsRequest, malloc_from_pool-Taken, malloc_from_pool_wraps,
}
use btkernel.Tests.{two_chunks}

small-IsRequest : IsRequest two_chunks 1 32 0 2
small-IsRequest = record {
  range = refl;
  order = omega arith;
  inside = omega arith;
  sound = (
    record { above = omega arith; below = omega arith; word = omega arith },
    (record { above = omega arith; below = omega arith; word = omega arith }, tt),
  );
  fits = (omega arith, (omega arith, tt));
}

malloc_from_pool-Taken_example :
    ((ret : ℕ) × (info' : MallocInfo) × (malloc_from_pool two_chunks 1 32 ≡ ok (ret, info'))
      × (info'.pool_range ≡ two_chunks.pool_range)
      × Taken two_chunks.cinfo 32 0 2 ret info'.cinfo)
    ⊎ (malloc_from_pool two_chunks 1 32 ≡ stop panic) × Full two_chunks.cinfo 32 0 2
malloc_from_pool-Taken_example = malloc_from_pool-Taken two_chunks 1 32 0 2 small-IsRequest

abbrev first_chunk : ChunkInfo
first_chunk = record { chunk_start = 4096; chunk_end = 4192; chunk_cur = 4180 }

first_chunk-IsChunk : IsChunk first_chunk
first_chunk-IsChunk = record { above = omega arith; below = omega arith; word = omega arith }

malloc_from_pool_wraps_example :
    (low : ℕ) × (malloc_from_pool two_chunks 2 (2 ^ 32 - 100)
      ≡ ok (
        4180,
        record two_chunks {
          cinfo = set two_chunks.cinfo 0 (record first_chunk { chunk_cur = low });
        },
      ))
    × (low < 4180)
malloc_from_pool_wraps_example =
    malloc_from_pool_wraps two_chunks 2 (2 ^ 32 - 100) 0 2 first_chunk refl (omega arith) refl
      first_chunk-IsChunk (omega arith) (omega arith)
