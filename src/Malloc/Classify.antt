-- ===== src/Malloc/Classify.antt =====
-- `addr_to_chunk` and `addr_to_pool`: the pool of an address is the pool that handed it out.
use btkernel.Base.{
  ℕ, zero, suc, ◌+◌, ◌≤◌, ◌<◌, ◌≡◌, refl, sym, ap, ◌∙◌, subst, ◌≢◌, ◌⊎◌, inl, inr, ◌&&◌, Option,
  none, some, List, arith, ltb, leb, if◌then◌else◌, Bool-cases, lt_or_eq, length, get_elem?,
  get_elem?-set_self, lt-length_of_get_elem?, get_elem?_of_lt, All-get_elem?, Run, ◌>>=◌, read-some,
  ok,
}
use btkernel.Malloc.{
  ChunkInfo, MallocInfo, pool_tc, pool_edge, malloc_from_pool, chunk_loop, addr_to_chunk,
  chunk_to_pool, addr_to_pool,
}
use btkernel.Malloc.Take.{IsChunk, bumped, malloc_from_pool-Taken}
use btkernel.Malloc.Trace.{ChunksApart, initial_ranges, IsReady}
use btkernel.Malloc.Trace.Bump.{Taken-Step}
use btkernel.Malloc.Trace.Handed.{Allowed, IsRequest-of}

-- The address lies in the chunk, the sixteen bytes behind `chunk_end` left out.
abbrev pub Within : ℕ → ChunkInfo → Type 0
Within addr c = (c.chunk_start ≤ addr) × (addr < c.chunk_end)

-- One round of the loop.
chunk_loop-suc :
    (cs : List ChunkInfo) (addr n k : ℕ) (c : ChunkInfo)
    → get_elem? cs k ≡ some c
    → chunk_loop cs addr (suc n) k ≡ (
        if leb c.chunk_start addr && ltb addr c.chunk_end
        then ok (some k)
        else chunk_loop cs addr n (k + 1))
unfolding chunk_loop
chunk_loop-suc cs addr n k c e = rw (read-some cs k e) (ground arith)

chunk_loop-some :
    (cs : List ChunkInfo) (addr n k i : ℕ) (c : ChunkInfo)
    → ChunksApart cs
    → get_elem? cs i ≡ some c
    → Within addr c
    → k ≤ i
    → i < k + n
    → chunk_loop cs addr n k ≡ ok (some i)
chunk_loop-some cs addr zero k i c apart e w low high = absurd (omega arith)
chunk_loop-some cs addr (suc n) k i c apart e w low high =
    let (d, g) = get_elem?_of_lt cs k (omega (arith, lt-length_of_get_elem? cs i e)) in
    elim (lt_or_eq k i low) [
      | inr p ↦ rw (chunk_loop-suc cs addr n k d g) (ground (arith, g, e))
      | inl p ↦
          let rest = chunk_loop-some cs addr n (k + 1) i c apart e w (omega arith) (omega arith) in
          let ne : i ≢ k = omega arith in
          rw (chunk_loop-suc cs addr n k d g) (elim (apart i k c d e g ne) [
            | inl h ↦ ground (arith, rest)
            | inr h ↦ ground (arith, rest)
          ])
    ]

-- In a ready state an address within chunk `i` is found there.
pub addr_to_chunk-some :
    (info : MallocInfo) (addr i : ℕ) (c : ChunkInfo)
    → IsReady info
    → get_elem? info.cinfo i ≡ some c
    → Within addr c
    → addr_to_chunk info addr ≡ ok (some i)
unfolding addr_to_chunk
addr_to_chunk-some info addr i c ready e w =
    chunk_loop-some info.cinfo addr 60 0 i c ready.apart e w (omega arith)
      (omega (arith, lt-length_of_get_elem? info.cinfo i e, ready.count))

-- No chunk of `a .. b` has the address within it.
abbrev pub Outside : List ChunkInfo → ℕ → ℕ → ℕ → Type 0
Outside cs addr a b =
    (j : ℕ) (c : ChunkInfo) → a ≤ j → j < b → get_elem? cs j ≡ some c → ¬ Within addr c

Outside-cons :
    (cs : List ChunkInfo) (addr a b : ℕ) (c : ChunkInfo)
    → get_elem? cs a ≡ some c
    → ¬ Within addr c
    → Outside cs addr (a + 1) b
    → Outside cs addr a b
Outside-cons cs addr a b c e out rest j d p q g w = elim (lt_or_eq a j p) [
  | inl lt ↦ rest j d (omega arith) q g w
  | inr eq ↦ out (ground (arith, e, g, w.0), ground (arith, e, g, w.1))
]

-- What `addr_to_chunk` says of an address, `none` for `-1`.
abbrev pub Says : List ChunkInfo → ℕ → ℕ → ℕ → Run (Option ℕ) → Type 0
Says cs addr a b r =
    ((i : ℕ) × (c : ChunkInfo) × (r ≡ ok (some i))
      × (a ≤ i)
      × (i < b)
      × (get_elem? cs i ≡ some c)
      × Within addr c
      × Outside cs addr a i)
    ⊎ (r ≡ ok none) × Outside cs addr a b

Says-skip :
    (cs : List ChunkInfo) (addr a b : ℕ) (c : ChunkInfo) {r : Run (Option ℕ)}
    → get_elem? cs a ≡ some c
    → ¬ Within addr c
    → Says cs addr (a + 1) b r
    → Says cs addr a b r
Says-skip cs addr a b c e out (inl (i, d, run, from, upto, g, w, first)) =
    inl (i, d, run, omega arith, upto, g, w, Outside-cons cs addr a i c e out first)
Says-skip cs addr a b c e out (inr (run, outside)) =
    inr (run, Outside-cons cs addr a b c e out outside)

chunk_loop-Says :
    (cs : List ChunkInfo) (addr n k : ℕ)
    → k + n ≤ length cs
    → Says cs addr k (k + n) (chunk_loop cs addr n k)
unfolding chunk_loop
chunk_loop-Says cs addr zero k h = inr (refl, λ j c p q. absurd (omega arith))
chunk_loop-Says cs addr (suc n) k h =
    let (c, e) = get_elem?_of_lt cs k (omega arith) in
    let rest : Says cs addr (k + 1) (k + suc n) (chunk_loop cs addr n (k + 1)) =
      subst (λ b. Says cs addr (k + 1) b (chunk_loop cs addr n (k + 1))) (omega arith)
        (chunk_loop-Says cs addr n (k + 1) (omega arith)) in
    rw (chunk_loop-suc cs addr n k c e)
      (elim (Bool-cases (leb c.chunk_start addr && ltb addr c.chunk_end)) [
        | inl hit ↦ rw hit (
            inl (
              k,
              c,
              refl,
              omega arith,
              omega arith,
              e,
              ground arith,
              λ j d p q. absurd (omega arith),
            ))
        | inr miss ↦
            rw miss (Says-skip cs addr k (k + suc n) c e (λ w. ground (arith, w.0, w.1)) rest)
      ])

chunk_to_pool-cases :
    (i : ℕ)
    → (chunk_to_pool (some i) ≡ some pool_tc) × (i < 24)
      ⊎ ((chunk_to_pool (some i) ≡ some pool_edge) × ((24 ≤ i) × (i < 40))
          ⊎ (chunk_to_pool (some i) ≡ none) × (40 ≤ i))
unfolding chunk_to_pool
chunk_to_pool-cases i = elim (Bool-cases (ltb i 24)) [
  | inl small ↦ inl (ground arith)
  | inr not_small ↦ elim (Bool-cases (ltb i 40)) [
    | inl mid ↦ inr (inl (ground arith))
    | inr large ↦ inr (inr (ground arith))
  ]
]

-- Whatever the sixty chunks are, `addr_to_pool` returns. It answers with the pool of a chunk that
-- the address lies within, or with `-1`, and then no chunk of the first forty has the address within
-- it.
pub addr_to_pool-Says :
    (info : MallocInfo) (addr : ℕ)
    → length info.cinfo ≡ 60
    → ((pool : ℕ) × (i : ℕ) × (c : ChunkInfo) × (addr_to_pool info addr ≡ ok (some pool))
        × (get_elem? info.cinfo i ≡ some c)
        × Within addr c
        × ((pool ≡ pool_tc) × (i < 24) ⊎ (pool ≡ pool_edge) × ((24 ≤ i) × (i < 40))))
      ⊎ (addr_to_pool info addr ≡ ok none) × Outside info.cinfo addr 0 40
unfolding addr_to_pool addr_to_chunk chunk_to_pool
addr_to_pool-Says info addr count = elim (chunk_loop-Says info.cinfo addr 60 0 (omega arith)) [
  | inr (run, out) ↦ inr (rw (run, ◌>>=◌, chunk_to_pool), λ j c p q. out j c p (omega arith))
  | inl (i, c, run, from, upto, e, w, first) ↦ elim (chunk_to_pool-cases i) [
    | inl (p, small) ↦ inl (pool_tc, i, c, rw (run, ◌>>=◌, p), e, w, inl (refl, small))
    | inr (inl (p, mid)) ↦ inl (pool_edge, i, c, rw (run, ◌>>=◌, p), e, w, inr (refl, mid))
    | inr (inr (p, large)) ↦ inr (rw (run, ◌>>=◌, p), λ j d low high. first j d low (omega arith))
  ]
]

-- The answer of `addr_to_pool` for a block of each pool: `-1` for the last one.
abbrev pub pool_name : ℕ → Option ℕ
pool_name pool = if ltb pool 2 then some pool else none

chunk_to_pool_lem :
    (pool a b i : ℕ)
    → get_elem? initial_ranges pool ≡ some (a, b)
    → a ≤ i
    → i < b
    → chunk_to_pool (some i) ≡ pool_name pool
unfolding chunk_to_pool
chunk_to_pool_lem zero a b i e p q = ground arith
chunk_to_pool_lem (suc zero) a b i e p q = ground arith
chunk_to_pool_lem (suc (suc zero)) a b i e p q = ground arith
chunk_to_pool_lem (suc (suc (suc n))) a b i e p q = cc

-- In a ready state, an address inside a block that an allowed request to `malloc_from_pool` has
-- just returned is in the translation cache for `POOL_TC`, in the edge cache for `POOL_EDGE`, and
-- in neither for `POOL_KMALLOC`.
pub addr_to_pool-malloc_from_pool :
    (info info' : MallocInfo) (pool size ret addr : ℕ)
    → IsReady info
    → Allowed info (pool, size)
    → malloc_from_pool info pool size ≡ ok (ret, info')
    → ret ≤ addr
    → addr < ret + size
    → addr_to_pool info' addr ≡ ok (pool_name pool)
unfolding addr_to_pool
addr_to_pool-malloc_from_pool info info' pool size ret addr ready allowed run low high =
    let (a, b, range, request) = IsRequest-of info pool size ready allowed in
    elim (malloc_from_pool-Taken info pool size a b request) [
      | inr (stopped, _) ↦ absurd (cc)
      | inl (ret', next, run', kept, t) ↦
          let s = Taken-Step info next size a b ret' ready kept t in
          let at : get_elem? next.cinfo t.i ≡ some (bumped t.chunk size) = rw t.moved (
            get_elem?-set_self info.cinfo t.i (bumped t.chunk size)
              (lt-length_of_get_elem? info.cinfo t.i t.found)) in
          let v = All-get_elem? IsChunk info.cinfo t.i ready.sound t.found in
          let same : ◌≡◌ {A = Run (ℕ × MallocInfo)} (ok (ret', next)) (ok (ret, info')) =
            sym run' ∙ run in
          let same_ret : ret' ≡ ret = cc in
          let same_info : next ≡ info' = cc in
          let hit =
            addr_to_chunk-some next addr t.i (bumped t.chunk size) s.ready at
              (omega (arith, v.above, t.is_cur), omega (arith, t.room)) in
          rw (← same_info, hit, ◌>>=◌) (ap ok (chunk_to_pool_lem pool a b t.i range t.from t.upto))
    ]
