-- ===== src/Malloc/Trace.antt =====
-- Blocks that callers own, and the state of the pools in use.
pub mod Bump
pub mod Handed
use btkernel.Base.{
  ℕ, zero, suc, ◌+◌, ◌≤◌, ◌<◌, ◌≡◌, refl, ◌≢◌, ◌⊎◌, inl, inr, some, List, [], ◌∷◌, arith, length,
  get_elem?, All,
}
use btkernel.Malloc.{ChunkInfo, MallocInfo, malloc_from_pool}
use btkernel.Malloc.Take.{
  IsChunk, Fits, bumped, Taken, IsRequest, malloc_from_pool-Taken, Taken-IsChunk,
}

-- A block of memory that a caller owns.
pub record Block : Type 0 where
  pub addr : ℕ
  pub size : ℕ

abbrev pub Apart : Block → Block → Type 0
Apart b d = (b.addr + b.size ≤ d.addr) ⊎ (d.addr + d.size ≤ b.addr)

pub Apart-symm : (x y : Block) → Apart x y → Apart y x
Apart-symm x y (inl h) = inr h
Apart-symm x y (inr h) = inl h

abbrev pub Disjoint : List Block → Type 0
Disjoint [] = Unit
Disjoint (b ∷ bs) = All (Apart b) bs × Disjoint bs

abbrev pub Before : ChunkInfo → ChunkInfo → Type 0
Before c d = c.chunk_end ≤ d.chunk_start

-- Two chunks at different indices do not overlap.
abbrev pub ChunksApart : List ChunkInfo → Type 0
ChunksApart cs =
    (i j : ℕ) (c d : ChunkInfo)
    → get_elem? cs i ≡ some c
    → get_elem? cs j ≡ some d
    → i ≢ j
    → Before c d ⊎ Before d c

abbrev pub initial_ranges : List (ℕ × ℕ)
initial_ranges = (0, 24) ∷ (24, 40) ∷ (40, 60) ∷ []

-- The state that `malloc_init` sets up and `malloc_from_pool` keeps.
pub record IsReady (info : MallocInfo) : Type 0 where
  pub ranges : info.pool_range ≡ initial_ranges
  pub count : length info.cinfo ≡ 60
  pub sound : All IsChunk info.cinfo
  pub apart : ChunksApart info.cinfo

-- The block lies in the part of chunk `i` that has been handed out.
pub record IsOwned (cs : List ChunkInfo) (b : Block) : Type 0 where
  pub i : ℕ
  pub chunk : ChunkInfo
  pub found : get_elem? cs i ≡ some chunk
  pub low : chunk.chunk_start ≤ b.addr
  pub high : b.addr + b.size ≤ chunk.chunk_cur

pub pool_bounds :
    (pool : ℕ)
    → pool < 3
    → (a : ℕ) × (b : ℕ) × (get_elem? initial_ranges pool ≡ some (a, b)) × (a ≤ b) × (b ≤ 60)
pool_bounds zero h = (0, 24, refl, omega arith, omega arith)
pool_bounds (suc zero) h = (24, 40, refl, omega arith, omega arith)
pool_bounds (suc (suc zero)) h = (40, 60, refl, omega arith, omega arith)
pool_bounds (suc (suc (suc n))) h = absurd (omega arith)
