-- ===== src/Malloc/Take.antt =====
-- What one call of `malloc_from_pool` does: the first chunk of the pool with room serves the
-- request, and the call ends in `BUG()` only when every chunk of the pool is full.
use btkernel.Base.{
  ℕ, zero, suc, ◌+◌, ◌-◌, ◌%◌, ◌^◌, ◌≤◌, ◌<◌, ◌≡◌, refl, subst, ◌⊎◌, inl, inr, some, List, arith,
  leb, if◌then◌else◌, leb→le, Bool-cases, lt_or_eq, length, get_elem?, set, All, get_elem?_of_lt,
  All-get_elem?, All-set, Run, ◌>>=◌, read-some, panic, ok, stop,
}
use btkernel.Malloc.{ChunkInfo, MallocInfo, add32, take_loop, malloc_from_pool}

-- The bump pointer lies between the ends of its chunk.
pub record IsChunk (c : ChunkInfo) : Type 0 where
  pub above : c.chunk_start ≤ c.chunk_cur
  pub below : c.chunk_cur ≤ c.chunk_end
  pub word : c.chunk_end < 2 ^ 32

-- The request fits in a word beyond every chunk, so that `chunk_cur + size` does not wrap.
abbrev pub Fits : ℕ → ChunkInfo → Type 0
Fits size c = c.chunk_end + size < 2 ^ 32

abbrev pub bumped : ChunkInfo → ℕ → ChunkInfo
bumped c size = record c { chunk_cur = c.chunk_cur + size }

-- Chunk `i` of `a .. b` is the first with room for `size` bytes, and is bumped by them.
pub record Taken (cs : List ChunkInfo) (size a b ret : ℕ) (cs' : List ChunkInfo) : Type 0 where
  pub i : ℕ
  pub chunk : ChunkInfo
  pub from : a ≤ i
  pub upto : i < b
  pub found : get_elem? cs i ≡ some chunk
  pub is_cur : ret ≡ chunk.chunk_cur
  pub room : ret + size ≤ chunk.chunk_end
  pub moved : cs' ≡ set cs i (bumped chunk size)
  pub first :
      (j : ℕ) (c : ChunkInfo)
      → a ≤ j
      → j < i
      → get_elem? cs j ≡ some c
      → c.chunk_end < c.chunk_cur + size

-- No chunk of `a .. b` has room for `size` bytes.
abbrev pub Full : List ChunkInfo → ℕ → ℕ → ℕ → Type 0
Full cs size a b =
    (j : ℕ) (c : ChunkInfo)
    → a ≤ j
    → j < b
    → get_elem? cs j ≡ some c
    → c.chunk_end < c.chunk_cur + size

abbrev pub Outcome : List ChunkInfo → ℕ → ℕ → ℕ → Run (ℕ × List ChunkInfo) → Type 0
Outcome cs size a b r =
    ((ret : ℕ) × (cs' : List ChunkInfo) × (r ≡ ok (ret, cs')) × Taken cs size a b ret cs')
    ⊎ (r ≡ stop panic) × Full cs size a b

-- A chunk that is full may be put in front of the range.
Full-cons :
    (cs : List ChunkInfo) (size a b : ℕ) (c : ChunkInfo)
    → get_elem? cs a ≡ some c
    → c.chunk_end < c.chunk_cur + size
    → Full cs size (a + 1) b
    → Full cs size a b
Full-cons cs size a b c e full rest j d p q g = elim (lt_or_eq a j p) [
  | inl lt ↦ rest j d (omega arith) q g
  | inr eq ↦ ground arith
]

Outcome-skip :
    (cs : List ChunkInfo) (size a b : ℕ) (c : ChunkInfo) {r : Run (ℕ × List ChunkInfo)}
    → get_elem? cs a ≡ some c
    → c.chunk_end < c.chunk_cur + size
    → Outcome cs size (a + 1) b r
    → Outcome cs size a b r
Outcome-skip cs size a b c e full (inl (ret, cs', run, t)) =
    let later = Full-cons cs size a t.i c e full t.first in
    inl (
      ret,
      cs',
      run,
      record {
        i = t.i;
        chunk = t.chunk;
        from = omega (arith, t.from);
        upto = t.upto;
        found = t.found;
        is_cur = t.is_cur;
        room = t.room;
        moved = t.moved;
        first = later;
      },
    )
Outcome-skip cs size a b c e full (inr (run, none_fits)) =
    inr (run, Full-cons cs size a b c e full none_fits)

-- One round, where the sum does not wrap.
take_loop-suc :
    (cs : List ChunkInfo) (size n i : ℕ) (c : ChunkInfo)
    → get_elem? cs i ≡ some c
    → c.chunk_cur + size < 2 ^ 32
    → take_loop cs size (suc n) i ≡ (
        if leb (c.chunk_cur + size) c.chunk_end
        then ok (c.chunk_cur, set cs i (bumped c size))
        else take_loop cs size n (i + 1))
unfolding take_loop add32
take_loop-suc cs size n i c e small =
    let plain : (c.chunk_cur + size) % 2 ^ 32 ≡ c.chunk_cur + size = omega arith in
    rw (read-some cs i e) (ground (arith, plain))

take_loop-step :
    (cs : List ChunkInfo) (size n i b : ℕ) (c : ChunkInfo)
    → get_elem? cs i ≡ some c
    → IsChunk c
    → Fits size c
    → i < b
    → Outcome cs size (i + 1) b (take_loop cs size n (i + 1))
    → Outcome cs size i b (take_loop cs size (suc n) i)
take_loop-step cs size n i b c e v f lt rest =
    rw (take_loop-suc cs size n i c e (omega arith))
      (elim (Bool-cases (leb (c.chunk_cur + size) c.chunk_end)) [
        | inl room ↦ rw room (
            inl (
              c.chunk_cur,
              set cs i (bumped c size),
              refl,
              record {
                i = i;
                chunk = c;
                from = omega arith;
                upto = lt;
                found = e;
                is_cur = refl;
                room = leb→le _ _ room;
                moved = refl;
                first = λ j d p q. absurd (omega arith);
              },
            ))
        | inr full ↦ rw full (Outcome-skip cs size i b c e (ground arith) rest)
      ])

take_loop-Outcome :
    (cs : List ChunkInfo) (size n i : ℕ)
    → All IsChunk cs
    → All (Fits size) cs
    → i + n ≤ length cs
    → Outcome cs size i (i + n) (take_loop cs size n i)
unfolding take_loop
take_loop-Outcome cs size zero i valid fits h = inr (refl, λ j c p q. absurd (omega arith))
take_loop-Outcome cs size (suc n) i valid fits h =
    let (c, e) = get_elem?_of_lt cs i (omega arith) in
    take_loop-step cs size n i (i + suc n) c e (All-get_elem? IsChunk cs i valid e)
      (All-get_elem? (Fits size) cs i fits e) (omega arith)
      (subst (λ b. Outcome cs size (i + 1) b (take_loop cs size n (i + 1))) (omega arith)
        (take_loop-Outcome cs size n (i + 1) valid fits (omega arith)))

-- The pool `pool` has the chunks `a .. b`, all of them sound, and a request of `size` bytes does not
-- wrap round at any of them.
pub record IsRequest (info : MallocInfo) (pool size a b : ℕ) : Type 0 where
  pub range : get_elem? info.pool_range pool ≡ some (a, b)
  pub order : a ≤ b
  pub inside : b ≤ length info.cinfo
  pub sound : All IsChunk info.cinfo
  pub fits : All (Fits size) info.cinfo

-- A call whose request is sound ends in one of two ways. Either it returns the bump pointer of the
-- first chunk of the pool with room, the block ends within that chunk, that chunk alone is bumped by
-- the size and the pool ranges stay; or it ends in `BUG()`, and then no chunk of the pool has room.
pub malloc_from_pool-Taken :
    (info : MallocInfo) (pool size a b : ℕ)
    → IsRequest info pool size a b
    → ((ret : ℕ) × (info' : MallocInfo) × (malloc_from_pool info pool size ≡ ok (ret, info'))
        × (info'.pool_range ≡ info.pool_range)
        × Taken info.cinfo size a b ret info'.cinfo)
      ⊎ (malloc_from_pool info pool size ≡ stop panic) × Full info.cinfo size a b
unfolding malloc_from_pool
malloc_from_pool-Taken info pool size a b q =
    let span : a + (b - a) ≡ b = omega (arith, q.order) in
    let result =
      take_loop-Outcome info.cinfo size (b - a) a q.sound q.fits
        (omega (arith, q.order, q.inside)) in
    rw (read-some info.pool_range pool q.range) (elim (rw span at result) [
      | inl (ret, cs', run, t) ↦ inl (ret, record info { cinfo = cs' }, rw (run, ◌>>=◌), refl, t)
      | inr (run, full) ↦ inr (rw (run, ◌>>=◌), full)
    ])

-- A successful call leaves every chunk sound.
pub Taken-IsChunk :
    (cs : List ChunkInfo) (size a b ret : ℕ) {cs' : List ChunkInfo}
    → All IsChunk cs
    → Taken cs size a b ret cs'
    → All IsChunk cs'
Taken-IsChunk cs size a b ret sound t =
    let v = All-get_elem? IsChunk cs t.i sound t.found in
    rw t.moved (
      All-set IsChunk cs t.i (bumped t.chunk size) sound (record {
        above = omega (arith, v.above);
        below = omega (arith, t.room, t.is_cur);
        word = v.word;
      }))

-- One round of the loop at a chunk where the sum wraps.
take_loop_wraps :
    (cs : List ChunkInfo) (size n a : ℕ) (c : ChunkInfo)
    → get_elem? cs a ≡ some c
    → IsChunk c
    → size < 2 ^ 32
    → 2 ^ 32 ≤ c.chunk_cur + size
    → take_loop cs size (suc n) a
      ≡ ok (c.chunk_cur, set cs a (record c { chunk_cur = c.chunk_cur + size - 2 ^ 32 }))
unfolding take_loop add32
take_loop_wraps cs size n a c e v word wraps =
    let plain : (c.chunk_cur + size) % 2 ^ 32 ≡ c.chunk_cur + size - 2 ^ 32 =
      omega (arith, v.below, v.word) in
    let low : c.chunk_cur + size - 2 ^ 32 ≤ c.chunk_end = omega (arith, v.below) in
    rw (read-some cs a e) (ground (arith, plain, low))

-- The sum in the test of `malloc_from_pool` is not guarded: where the first chunk of the pool is
-- sound and a size within `chunk_cur` of 2 ^ 32 is asked for, the call succeeds and moves the bump
-- pointer of that chunk down.
pub malloc_from_pool_wraps :
    (info : MallocInfo) (pool size a b : ℕ) (c : ChunkInfo)
    → get_elem? info.pool_range pool ≡ some (a, b)
    → a < b
    → get_elem? info.cinfo a ≡ some c
    → IsChunk c
    → size < 2 ^ 32
    → 2 ^ 32 ≤ c.chunk_cur + size
    → (low : ℕ) × (malloc_from_pool info pool size
        ≡ ok (c.chunk_cur, record info { cinfo = set info.cinfo a (record c { chunk_cur = low }) }))
      × (low < c.chunk_cur)
unfolding malloc_from_pool
malloc_from_pool_wraps info pool size a b c range some_chunk e v word wraps =
    let rounds : b - a ≡ suc (b - a - 1) = omega arith in
    (
      c.chunk_cur + size - 2 ^ 32,
      rw (
        read-some info.pool_range pool range,
        ◌>>=◌,
        rounds,
        take_loop_wraps info.cinfo size (b - a - 1) a c e v word wraps,
      ),
      omega (arith, v.below, v.word),
    )
