-- ===== src/Tests.antt =====
-- Concrete states for the tests: sixty unused chunks of 64 pages at multiples of 2 ^ 20, the three
-- pools over them, and two pools' worth of small chunks.
pub mod Take
pub mod Trace
pub mod Pages
pub mod Tb
pub mod Jumptable1
pub mod Opctable
pub mod NomatchPair
pub mod Regset
pub mod Peep
pub mod Insn
pub mod Rbtree
pub mod Tree
use btkernel.Base.{
  ℕ, zero, suc, ◌+◌, ◌*◌, ◌^◌, ◌≤◌, ◌<◌, ◌≡◌, refl, ap, ◌∙◌, inl, inr, some, List, [], ◌∷◌, arith,
  length, get_elem?, All, All_of_get_elem?,
}
use native.Mathlib.Decide.{dec_lt}
use btkernel.Malloc.{ChunkInfo, MallocInfo}
use btkernel.Malloc.Take.{IsChunk, Fits}
use btkernel.Malloc.Trace.{ChunksApart, initial_ranges, IsReady}

abbrev pub chunk_of : ℕ → ChunkInfo
chunk_of i = record {
  chunk_start = (i + 1) * 2 ^ 20;
  chunk_end = (i + 1) * 2 ^ 20 + 262128;
  chunk_cur = (i + 1) * 2 ^ 20;
}

pub chunks : ℕ → ℕ → List ChunkInfo
chunks zero i = []
chunks (suc n) i = chunk_of i ∷ chunks n (i + 1)

length-chunks : (n i : ℕ) → length (chunks n i) ≡ n
unfolding chunks
length-chunks zero i = refl
length-chunks (suc n) i = ap suc (length-chunks n (i + 1))

chunks-get :
    (n i j : ℕ) {c : ChunkInfo}
    → get_elem? (chunks n i) j ≡ some c
    → (c ≡ chunk_of (i + j)) × (j < n)
unfolding chunks
chunks-get zero i j e = absurd (cc)
chunks-get (suc n) i zero e = (ground arith, omega arith)
chunks-get (suc n) i (suc j) e =
    let (same, lt) = chunks-get n (i + 1) j e in
    let k : i + 1 + j ≡ i + suc j = omega arith in (same ∙ ap chunk_of k, omega arith)

pools-get :
    (i : ℕ) {c : ChunkInfo} → get_elem? (chunks 60 0) i ≡ some c → (c ≡ chunk_of i) × (i < 60)
pools-get i e =
    let (same, lt) = chunks-get 60 0 i e in
    let k : 0 + i ≡ i = omega arith in (same ∙ ap chunk_of k, lt)

abbrev pub pools : MallocInfo
pools = record { pool_range = initial_ranges; cinfo = chunks 60 0 }

pub pools-count : length pools.cinfo ≡ 60
pools-count = length-chunks 60 0

chunk_of_sound : (i : ℕ) {c : ChunkInfo} → i < 60 → c ≡ chunk_of i → IsChunk c
chunk_of_sound i lt e =
    rw e (record { above = omega arith; below = omega arith; word = omega arith })

pools-apart : ChunksApart pools.cinfo
pools-apart i j c d e g ne =
    let (here, lt) = pools-get i e in
    let (there, lt') = pools-get j g in
    rw (here, there) (elim (dec_lt i j) [ yes p ↦ inl (omega arith) | no p ↦ inr (omega arith) ])

pub pools-IsReady : IsReady pools
pools-IsReady = record {
  ranges = refl;
  count = pools-count;
  sound =
      All_of_get_elem? IsChunk (chunks 60 0)
        (λ i c e. chunk_of_sound i (pools-get i e).1 (pools-get i e).0);
  apart = pools-apart;
}

-- A request of up to 2 ^ 30 bytes wraps round at no chunk.
pub pools-Fits : (size : ℕ) → size ≤ 2 ^ 30 → All (Fits size) pools.cinfo
pools-Fits size h =
    All_of_get_elem? (Fits size) (chunks 60 0)
      (λ i c e. let (here, lt) = pools-get i e in rw here (omega arith))

-- Two chunks of 96 bytes, the first one almost used up, that all three pools share.
abbrev pub two_chunks : MallocInfo
two_chunks = record {
  pool_range = (0, 2) ∷ (0, 2) ∷ (0, 2) ∷ [];
  cinfo =
      record { chunk_start = 4096; chunk_end = 4192; chunk_cur = 4180 }
      ∷ record { chunk_start = 8192; chunk_end = 8288; chunk_cur = 8192 }
      ∷ [];
}
