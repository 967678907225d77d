-- ===== src/Malloc/Init/Fill.antt =====
-- Chunks that `pool_alloc_pages` has filled, and one more round of its loop.
use btkernel.Base.{
  ℕ, suc, ◌+◌, ◌^◌, ◌≤◌, ◌<◌, ◌≡◌, refl, sym, ◌∙◌, subst, ◌≢◌, false, some, List, ◌∷◌, arith,
  ℕ_discrete, ◌==◌, length, get_elem?, set, All, get_elem?-set_self, get_elem?-set_ne,
  All-get_elem?, ◌>>=◌, write-set, ok,
}
use btkernel.Malloc.{ChunkInfo}
use btkernel.Malloc.Trace.{Block, Apart, Apart-symm}
use btkernel.Malloc.Pages.{Kernel, Machine, btalloc}
use btkernel.Malloc.Init.{pool_bytes, chunk_at, fill_loop}

module _ (k : Kernel) (cs : List ChunkInfo) (m : Machine k) (n i : ℕ) where
  pub fill_loop_null :
      (btalloc k m pool_bytes).0 ≡ 0
      → fill_loop k cs m (suc n) i ≡ ok (false, cs, (btalloc k m pool_bytes).1)
  unfolding fill_loop
  fill_loop_null e = rw (e, fill_loop)

  pub fill_loop_some :
      (btalloc k m pool_bytes).0 ≢ 0
      → i < length cs
      → fill_loop k cs m (suc n) i
        ≡ fill_loop k
            (set cs i (chunk_at (btalloc k m pool_bytes).0))
            (btalloc k m pool_bytes).1
            n
            (i + 1)
  unfolding fill_loop
  fill_loop_some ne inside =
      let found : (btalloc k m pool_bytes).0 == 0 ≡ false = ground arith in
      rw (found, fill_loop, write-set cs i (chunk_at (btalloc k m pool_bytes).0) inside, ◌>>=◌)

abbrev pub region : ChunkInfo → Block
region c = record { addr = c.chunk_start; size = pool_bytes }

-- A chunk as `pool_alloc_pages` leaves it, over a mapped region.
pub record IsFresh (live : List Block) (c : ChunkInfo) : Type 0 where
  pub unused : c.chunk_cur ≡ c.chunk_start
  pub kept_back : c.chunk_end + 16 ≡ c.chunk_start + pool_bytes
  pub word : c.chunk_start + pool_bytes ≤ 2 ^ 32
  pub slot : ℕ
  pub mapped : get_elem? live slot ≡ some (region c)

-- The first `n` chunks are fresh, over regions that are pairwise apart.
pub record Filled (live : List Block) (cs : List ChunkInfo) (n : ℕ) : Type 0 where
  pub each : (i : ℕ) (c : ChunkInfo) → i < n → get_elem? cs i ≡ some c → IsFresh live c
  pub apart :
      (i j : ℕ) (c d : ChunkInfo)
      → i < n
      → j < n
      → get_elem? cs i ≡ some c
      → get_elem? cs j ≡ some d
      → i ≢ j
      → Apart (region c) (region d)

IsFresh-cons :
    (live : List Block) (b : Block) {c : ChunkInfo} → IsFresh live c → IsFresh (b ∷ live) c
IsFresh-cons live b f = record {
  unused = f.unused;
  kept_back = f.kept_back;
  word = f.word;
  slot = suc f.slot;
  mapped = f.mapped;
}

chunk_at-IsFresh :
    (live : List Block) (ptr : ℕ)
    → ptr + pool_bytes ≤ 2 ^ 32
    → IsFresh (record { addr = ptr; size = pool_bytes } ∷ live) (chunk_at ptr)
chunk_at-IsFresh live ptr word = record {
  unused = refl;
  kept_back = omega arith;
  word = word;
  slot = 0;
  mapped = refl;
}

-- The chunk at `n` is filled with a block that is apart from all that is mapped.
pub Filled-set :
    (live : List Block) (cs : List ChunkInfo) (n ptr : ℕ)
    → Filled live cs n
    → n < length cs
    → ptr + pool_bytes ≤ 2 ^ 32
    → All (Apart (record { addr = ptr; size = pool_bytes })) live
    → Filled (record { addr = ptr; size = pool_bytes } ∷ live) (set cs n (chunk_at ptr)) (n + 1)
Filled-set live cs n ptr filled inside word apart = record {
  each = λ i c lt e. elim (ℕ_discrete n i) [
    | yes p ↦ new_fresh i c p e
    | no p ↦ IsFresh-cons live b (filled.each i c (omega arith) (old i c p e))
  ];
  apart = λ i j c d lt lt' e g ne. elim (ℕ_discrete n i) [
    | yes p ↦
        subst (λ x. Apart (region x) (region d)) (new i c p e)
          (beside j d (λ q. ne (sym p ∙ q)) (omega arith) g)
    | no p ↦ elim (ℕ_discrete n j) [
      | yes q ↦
          subst (λ x. Apart (region c) (region x)) (new j d q g)
            (Apart-symm b (region c) (beside i c p (omega arith) e))
      | no q ↦ filled.apart i j c d (omega arith) (omega arith) (old i c p e) (old j d q g) ne
    ]
  ];
}
  where
    b : Block
    b = record { addr = ptr; size = pool_bytes }

    old :
        (i : ℕ) (c : ChunkInfo)
        → n ≢ i
        → get_elem? (set cs n (chunk_at ptr)) i ≡ some c
        → get_elem? cs i ≡ some c
    old i c p e = sym (get_elem?-set_ne cs n i (chunk_at ptr) p) ∙ e

    new :
        (i : ℕ) (c : ChunkInfo)
        → n ≡ i
        → get_elem? (set cs n (chunk_at ptr)) i ≡ some c
        → chunk_at ptr ≡ c
    new i c p e = ground (arith, get_elem?-set_self cs n (chunk_at ptr) inside)

    new_fresh :
        (i : ℕ) (c : ChunkInfo)
        → n ≡ i
        → get_elem? (set cs n (chunk_at ptr)) i ≡ some c
        → IsFresh (b ∷ live) c
    new_fresh i c p e = subst (IsFresh (b ∷ live)) (new i c p e) (chunk_at-IsFresh live ptr word)

    beside :
        (j : ℕ) (d : ChunkInfo)
        → n ≢ j
        → j < n + 1
        → get_elem? (set cs n (chunk_at ptr)) j ≡ some d
        → Apart b (region d)
    beside j d q lt g =
        let f = filled.each j d (omega arith) (old j d q g) in
        All-get_elem? (Apart b) live f.slot apart f.mapped
