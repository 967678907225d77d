-- ===== src/Malloc/Init/Ready.antt =====
-- What `malloc_init` guarantees, whether it succeeds or not.
use btkernel.Base.{
  ℕ, zero, suc, ◌+◌, ◌≤◌, ◌<◌, ◌≡◌, refl, sym, ap, ◌∙◌, subst, ◌≢◌, ◌⊎◌, inl, inr, Bool, true,
  false, some, List, ◌∷◌, arith, ℕ_discrete, length, get_elem?, set, All, length-set,
  lt-length_of_get_elem?, All_of_get_elem?, Run, ◌>>=◌, ok,
}
use native.Mathlib.Nat.{add-zero}
use mathlib.Core.Path.{subst₂}
use btkernel.Malloc.{ChunkInfo, MallocInfo, init_pool_range}
use btkernel.Malloc.Take.{IsChunk}
use btkernel.Malloc.Trace.{Block, Apart, IsReady}
use btkernel.Malloc.Pages.{
  Kernel, Machine, btalloc, KernelLaws, btalloc-vmalloc, btalloc_place, page_align,
}
use btkernel.Malloc.Init.{pool_bytes, chunk_at, fill_loop, pool_alloc_pages, malloc_init}
use btkernel.Malloc.Init.Fill.{fill_loop_null, fill_loop_some, Filled, Filled-set}

module _ {k : Kernel} {live : k.World → List Block} (laws : KernelLaws k live) where
  live_null :
      (m : Machine k)
      → (btalloc k m pool_bytes).0 ≡ 0
      → live (btalloc k m pool_bytes).1.world ≡ live m.world
  live_null m null =
      let (same, world) = btalloc-vmalloc k m pool_bytes in
      rw world (laws.fails m.world pool_bytes (sym same ∙ null))

  live_some :
      (m : Machine k)
      → (btalloc k m pool_bytes).0 ≢ 0
      → (live (btalloc k m pool_bytes).1.world
          ≡ record { addr = (btalloc k m pool_bytes).0; size = pool_bytes } ∷ live m.world)
        × All
            (Apart (record { addr = (btalloc k m pool_bytes).0; size = pool_bytes }))
            (live m.world)
  live_some m ne =
      let (same, world) = btalloc-vmalloc k m pool_bytes in
      let ne' = rw same at ne in
      (
        rw (world, same) (laws.maps m.world pool_bytes ne'),
        rw same (laws.fresh m.world pool_bytes ne'),
      )

  -- `__vmalloc` has failed in a call for one chunk, and `m'` is what this call left.
  abbrev Failed : Machine k → Type 0
  Failed m' =
      (w : k.World) × ((k.vmalloc w (page_align pool_bytes)).0 ≡ 0)
      × (m'.world ≡ (k.vmalloc w (page_align pool_bytes)).1)

  -- How the loop ends: all chunks are filled, or the allocation for some chunk failed, and then the
  -- chunks before it are filled and their regions stay mapped.
  abbrev Ends : Machine k → ℕ → ℕ → ℕ → Run (Bool × List ChunkInfo × Machine k) → Type 0
  Ends m len i b r =
      ((cs : List ChunkInfo) × (m' : Machine k) × (r ≡ ok (true, cs, m'))
        × (length cs ≡ len)
        × Filled (live m'.world) cs b)
      ⊎ ((cs : List ChunkInfo) × (m' : Machine k) × (j : ℕ) × (r ≡ ok (false, cs, m'))
          × (i + j < b)
          × Filled (live m'.world) cs (i + j)
          × Failed m'
          × (length (live m'.world) ≡ j + length (live m.world)))

  -- The round for one more chunk, and the rest of the loop behind it.
  Ends-cons :
      (m m' : Machine k) (b : Block) (len i top : ℕ) {r : Run (Bool × List ChunkInfo × Machine k)}
      → live m'.world ≡ b ∷ live m.world
      → Ends m' len (i + 1) top r
      → Ends m len i top r
  Ends-cons m m' b len i top e (inl done) = inl done
  Ends-cons m m' b len i top e (inr (cs, last, j, run, lt, filled, failed, count)) =
      let grown : length (live m'.world) ≡ suc (length (live m.world)) = ap length e in
      let next : i + 1 + j ≡ i + (j + 1) = omega arith in
      inr (
        cs,
        last,
        j + 1,
        run,
        omega arith,
        subst (Filled (live last.world) cs) next filled,
        failed,
        omega arith,
      )

  btalloc-Failed :
      (m : Machine k) → (btalloc k m pool_bytes).0 ≡ 0 → Failed (btalloc k m pool_bytes).1
  btalloc-Failed m null =
      let (same, world) = btalloc-vmalloc k m pool_bytes in (m.world, sym same ∙ null, world)

  fill_loop-Ends :
      (cs : List ChunkInfo) (m : Machine k) (n i : ℕ)
      → i + n ≤ length cs
      → Filled (live m.world) cs i
      → Ends m (length cs) i (i + n) (fill_loop k cs m n i)
  unfolding fill_loop
  fill_loop-Ends cs m zero i h filled = inl (cs, m, refl, refl, rw add-zero filled)
  fill_loop-Ends cs m (suc n) i h filled =
      let ptr = (btalloc k m pool_bytes).0 in
      let m' = (btalloc k m pool_bytes).1 in
      elim (ℕ_discrete ptr 0) [
        | yes null ↦ rw (fill_loop_null k cs m n i null) (
            inr (
              cs,
              m',
              0,
              refl,
              omega arith,
              subst (λ l. Filled l cs (i + 0)) (sym (live_null m null))
                  (subst (Filled (live m.world) cs) (omega arith) filled),
              btalloc-Failed m null,
              ap length (live_null m null) ∙ omega arith,
            ))
        | no ne ↦
            let (maps, fresh) = live_some m ne in
            let (page, word) = btalloc_place laws m pool_bytes ne in
            let filled' = Filled-set (live m.world) cs i ptr filled (omega arith) word fresh in
            let cs' = set cs i (chunk_at ptr) in
            let wide = length-set cs i (chunk_at ptr) in
            let rest =
              fill_loop-Ends cs' m' n (i + 1) (rw wide (omega arith))
                (subst (λ l. Filled l cs' (i + 1)) (sym maps) filled') in
            rw (fill_loop_some k cs m n i ne (omega arith)) (
              Ends-cons m m' (record { addr = ptr; size = pool_bytes }) (length cs) i (i + suc n)
                maps
                (subst₂ (λ l b. Ends m' l (i + 1) b (fill_loop k cs' m' n (i + 1))) wide
                  (omega arith) rest))
      ]

Filled-IsReady :
    (live : List Block) (info : MallocInfo)
    → length info.cinfo ≡ 60
    → Filled live info.cinfo 60
    → IsReady (init_pool_range info)
unfolding init_pool_range
Filled-IsReady live info count filled = record {
  ranges = refl;
  count = count;
  sound = All_of_get_elem? IsChunk info.cinfo (λ i c e.
      let f = filled.each i c (inside i e) e in
      record {
        above = omega (arith, f.unused);
        below = omega (arith, f.unused, f.kept_back);
        word = omega (arith, f.kept_back, f.word);
      });
  apart = λ i j c d e g ne.
      let f = filled.each i c (inside i e) e in
      let f' = filled.each j d (inside j g) g in
      elim (filled.apart i j c d (inside i e) (inside j g) e g ne) [
        | inl h ↦ inl (omega (arith, f.kept_back))
        | inr h ↦ inr (omega (arith, f'.kept_back))
      ];
}
  where
    inside : (i : ℕ) {c : ChunkInfo} → get_elem? info.cinfo i ≡ some c → i < 60
    inside i e = omega (arith, lt-length_of_get_elem? info.cinfo i e)

-- Given the kernel's laws, `malloc_init` on sixty chunks returns. If it returns 1, the pools are
-- ready: each chunk is unused, is the front of a mapped region of 64 pages without its last sixteen
-- bytes, and no two chunks overlap. It returns 0 only where `__vmalloc` has failed for a chunk in its
-- last call; the chunks before that one, fewer than sixty, are set up in the same way, and their
-- regions are still mapped: one region more for each of them than before.
pub malloc_init-IsReady :
    {k : Kernel} {live : k.World → List Block} (laws : KernelLaws k live) (info : MallocInfo)
    (m : Machine k)
    → length info.cinfo ≡ 60
    → ((info' : MallocInfo) × (m' : Machine k) × (malloc_init k info m ≡ ok (true, info', m'))
        × IsReady info'
        × Filled (live m'.world) info'.cinfo 60)
      ⊎ ((info' : MallocInfo) × (m' : Machine k) × (leaked : ℕ) × (malloc_init k info m
            ≡ ok (false, info', m'))
          × (leaked < 60)
          × Filled (live m'.world) info'.cinfo leaked
          × ((w : k.World) × ((k.vmalloc w (page_align pool_bytes)).0 ≡ 0)
              × (m'.world ≡ (k.vmalloc w (page_align pool_bytes)).1))
          × (length (live m'.world) ≡ leaked + length (live m.world)))
unfolding malloc_init pool_alloc_pages
malloc_init-IsReady {k} {live} laws info m count =
    elim (fill_loop-Ends laws info.cinfo m 60 0 (omega arith) nothing) [
      | inl (cs, m', run, wide, filled) ↦
          let info' = record info { cinfo = cs } in
          inl (
            init_pool_range info',
            m',
            rw (run, ◌>>=◌),
            Filled-IsReady (live m'.world) info' (wide ∙ count) filled,
            unfold init_pool_range in filled,
          )
      | inr (cs, m', j, run, lt, filled, failed, grown) ↦ inr (
        record info { cinfo = cs },
        m',
        j,
        rw (run, ◌>>=◌),
        omega arith,
        subst (Filled (live m'.world) cs) (omega arith) filled,
        failed,
        grown,
      )
    ]
  where
    nothing : Filled (live m.world) info.cinfo 0
    nothing = record {
      each = λ i c lt. absurd (omega arith);
      apart = λ i j c d lt. absurd (omega arith);
    }
