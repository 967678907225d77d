-- ===== src/Tests/Pages.antt =====
-- A kernel that maps each region behind all that are mapped, and the pools on it.
use btkernel.Base.{
  ℕ, ◌+◌, ◌*◌, ◌/◌, ◌%◌, ◌^◌, ◌≤◌, ◌<◌, ◌≡◌, refl, sym, ◌∙◌, ◌≢◌, ◌⊎◌, inl, inr, Bool, true, false,
  List, [], ◌∷◌, arith, leb, if◌then◌else◌, leb→le, Bool-cases, length, All, All-mono, ok,
}
use btkernel.Malloc.{MallocInfo}
use btkernel.Malloc.Trace.{Block, Apart, IsReady}
use btkernel.Malloc.Pages.{
  Kernel, Machine, btalloc, btfree, btalloc-vmalloc, KernelLaws, touches, btfree-btalloc,
  page_align,
}
use btkernel.Malloc.Init.{malloc_init, pool_bytes}
use btkernel.Malloc.Init.Fill.{Filled}
use btkernel.Malloc.Init.Ready.{malloc_init-IsReady}
use btkernel.Tests.{pools, pools-count}

-- A page boundary behind every block.
top : List Block → ℕ
top [] = 4096
top (b ∷ bs) = let rest = top bs in rest + (b.addr + b.size + 4095) / 4096 * 4096

top-page : (bs : List Block) → top bs % 4096 ≡ 0
unfolding top
top-page [] = omega arith
top-page (b ∷ bs) = omega (arith, top-page bs)

top-pos : (bs : List Block) → 0 < top bs
unfolding top
top-pos [] = omega arith
top-pos (b ∷ bs) = omega (arith, top-pos bs)

top-above : (bs : List Block) (t : ℕ) → top bs ≤ t → All (λ d. d.addr + d.size ≤ t) bs
unfolding top
top-above [] t h = tt
top-above (b ∷ bs) t h = (omega arith, top-above bs t (omega arith))

abbrev fits : List Block → ℕ → Bool
fits bs n = leb (top bs + n) (2 ^ 32)

place : List Block → ℕ → ℕ × List Block
place bs n = if fits bs n then (top bs, record { addr = top bs; size = n } ∷ bs) else (0, bs)

abbrev kernel : Kernel
kernel = record { World = List Block; vmalloc = place; vfree = λ w a. w }

module _ (bs : List Block) (n : ℕ) where
  place_cases :
      ((fits bs n ≡ true) × (place bs n ≡ (top bs, record { addr = top bs; size = n } ∷ bs)))
      ⊎ (place bs n ≡ (0, bs))
  unfolding place
  place_cases = elim (Bool-cases (fits bs n)) [ inl h ↦ inl (h, rw h) | inr h ↦ inr (rw h) ]

  place_aligned : (place bs n).0 % 4096 ≡ 0
  place_aligned = elim place_cases [ inl (h, e) ↦ rw e (top-page bs) | inr e ↦ rw e (omega arith) ]

  place_bounded : (place bs n).0 ≢ 0 → (place bs n).0 + n ≤ 2 ^ 32
  place_bounded ne = elim place_cases [
    | inl (h, e) ↦ rw e (leb→le _ _ h)
    | inr e ↦ absurd (ne (rw e))
  ]

  place_fresh : (place bs n).0 ≢ 0 → All (Apart (record { addr = (place bs n).0; size = n })) bs
  place_fresh ne = elim place_cases [
    | inl (h, e) ↦ All-mono bs (λ d p. inr (rw e p)) (top-above bs (top bs) (omega arith))
    | inr e ↦ absurd (ne (rw e))
  ]

  place_maps : (place bs n).0 ≢ 0 → (place bs n).1 ≡ record { addr = (place bs n).0; size = n } ∷ bs
  place_maps ne = elim place_cases [ inl (h, e) ↦ rw e | inr e ↦ absurd (ne (rw e)) ]

  place_fails : (place bs n).0 ≡ 0 → (place bs n).1 ≡ bs
  place_fails z = elim place_cases [
    | inl (h, e) ↦ absurd (omega (arith, top-pos bs, rw e at z))
    | inr e ↦ rw e
  ]

abbrev mapped : List Block → List Block
mapped w = w

kernel-KernelLaws : KernelLaws kernel mapped
kernel-KernelLaws = record {
  aligned = place_aligned;
  bounded = place_bounded;
  fresh = place_fresh;
  maps = place_maps;
  fails = place_fails;
}

abbrev start : Machine kernel
start = record { world = []; reserved = λ p. false }

malloc_init-IsReady_example :
    ((info' : MallocInfo) × (m' : Machine kernel) × (malloc_init kernel pools start
        ≡ ok (true, info', m'))
      × IsReady info'
      × Filled m'.world info'.cinfo 60)
    ⊎ ((info' : MallocInfo) × (m' : Machine kernel) × (leaked : ℕ) × (malloc_init kernel pools start
          ≡ ok (false, info', m'))
        × (leaked < 60)
        × Filled m'.world info'.cinfo leaked
        × ((w : List Block) × ((place w (page_align pool_bytes)).0 ≡ 0)
            × (m'.world ≡ (place w (page_align pool_bytes)).1))
        × (length m'.world ≡ leaked + 0))
malloc_init-IsReady_example =
    malloc_init-IsReady {k = kernel} {live = mapped} kernel-KernelLaws pools start pools-count

start_some : (btalloc kernel start 5000).0 ≢ 0
unfolding place top
start_some z = omega (arith, sym (btalloc-vmalloc kernel start 5000).0 ∙ z)

btfree-btalloc_example :
    ((btfree kernel (btalloc kernel start 5000).1 (btalloc kernel start 5000).0 5000).reserved 2
      ≡ false)
    × (touches (btalloc kernel start 5000).0 5000 2 ≡ true
        → (btalloc kernel start 5000).1.reserved 2 ≡ true)
btfree-btalloc_example =
    btfree-btalloc {k = kernel} {live = mapped} kernel-KernelLaws start 5000 2 (omega arith)
      start_some (λ h. refl)
