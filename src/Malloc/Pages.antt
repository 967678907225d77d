-- ===== src/Malloc/Pages.antt =====
-- `btalloc` and `btfree` of btmod/bt/mem/malloc.c over the kernel's `__vmalloc` and `vfree`, which
-- are a parameter. An `int` size is its bit pattern, below 2 ^ 32. The reserved flag of the page
-- behind a mapped address is kept by the number of the virtual page; what stands in the memory (the
-- `memset`) is not modelled.
use btkernel.Base.{
  ℕ, zero, suc, ◌+◌, ◌-◌, ◌*◌, ◌/◌, ◌%◌, ◌^◌, ◌≤◌, ◌<◌, ◌≡◌, refl, sym, ap, ◌∙◌, ◌≢◌, inl, inr,
  Bool, true, false, ◌&&◌, List, ◌∷◌, arith, ℕ_discrete, ltb, leb, ◌==◌, if◌then◌else◌, lt→ltb,
  ==_iff, Bool-cases, All,
}
use native.Mathlib.Decide.{dec_lt}
use btkernel.Malloc.{add32}
use btkernel.Malloc.Trace.{Block, Apart}

-- `__vmalloc` and `vfree`: a null pointer is 0.
pub record Kernel : Type 1 where
  pub World : Type 0
  pub vmalloc : World → ℕ → ℕ × World
  pub vfree : World → ℕ → World

-- The kernel's state and the reserved flags.
pub record Machine (k : Kernel) : Type 0 where
  pub world : k.World
  pub reserved : ℕ → Bool

-- `SetPageReserved` and `ClearPageReserved`
abbrev pub mark : (ℕ → Bool) → ℕ → Bool → ℕ → Bool
mark r page flag p = if p == page then flag else r p

-- `size > 0` for an `int`.
abbrev pub is_positive : ℕ → Bool
is_positive size = ltb 0 size && ltb size (2 ^ 31)

-- `size -= PAGE_SIZE` for an `int`.
abbrev pub less_page : ℕ → ℕ
less_page size = (size + (2 ^ 32 - 4096)) % 2 ^ 32

-- The loop `while (size > 0)` of `btalloc` (flag `true`) and `btfree` (flag `false`).
pub mark_loop : Bool → ℕ → ℕ → ℕ → (ℕ → Bool) → ℕ → Bool
mark_loop flag zero addr size r = r
mark_loop flag (suc fuel) addr size r = elim (is_positive size) [
  | true ↦ mark_loop flag fuel (add32 addr 4096) (less_page size) (mark r (addr / 4096) flag)
  | false ↦ r
]

-- `PAGE_ALIGN`, as a word of 32 bits.
abbrev pub page_align : ℕ → ℕ
page_align size = (size + 4095) % 2 ^ 32 / 4096 * 4096

module _ (k : Kernel) where
  pub btalloc : Machine k → ℕ → ℕ × Machine k
  btalloc m size =
      let (addr, w) = k.vmalloc m.world (page_align size) in
      if addr == 0 then (0, record { world = w; reserved = m.reserved }) else (
        addr,
        record {
          world = w;
          reserved = mark_loop true (page_align size) addr (page_align size) m.reserved;
        },
      )

  pub btfree : Machine k → ℕ → ℕ → Machine k
  btfree m ptr size = if ptr == 0 then m else record {
    world = k.vfree m.world ptr;
    reserved = mark_loop false size ptr size m.reserved;
  }

-- The pages that `size` bytes from a page boundary touch.
abbrev pub touches : ℕ → ℕ → ℕ → Bool
touches addr size p = leb (addr / 4096) p && ltb p (addr / 4096 + (size + 4095) / 4096)

module _ (flag : Bool) (n addr size : ℕ) (r : ℕ → Bool) (p : ℕ) where
  mark_loop_more :
      0 < size
      → size < 2 ^ 31
      → mark_loop flag (suc n) addr size r p
        ≡ mark_loop flag n (add32 addr 4096) (less_page size) (mark r (addr / 4096) flag) p
  unfolding mark_loop
  mark_loop_more h g = rw (lt→ltb 0 size h, lt→ltb size (2 ^ 31) g, mark_loop)

  mark_loop_done : is_positive size ≡ false → mark_loop flag (suc n) addr size r p ≡ r p
  unfolding mark_loop
  mark_loop_done h = rw (h, mark_loop)

mark_loop-not_positive :
    (flag : Bool) (n addr size : ℕ) (r : ℕ → Bool) (p : ℕ)
    → is_positive size ≡ false
    → mark_loop flag n addr size r p ≡ r p
unfolding mark_loop
mark_loop-not_positive flag zero addr size r p h = refl
mark_loop-not_positive flag (suc n) addr size r p h = mark_loop_done flag n addr size r p h

-- The first page and the pages of the rest.
touches_cons :
    (flag : Bool) (addr size : ℕ) (r : ℕ → Bool) (p : ℕ)
    → addr % 4096 ≡ 0
    → 4096 < size
    → (if touches (addr + 4096) (size - 4096) p then flag else mark r (addr / 4096) flag p)
      ≡ (if touches addr size p then flag else r p)
touches_cons flag addr size r p page more =
    let next : (addr + 4096) / 4096 ≡ addr / 4096 + 1 = omega arith in
    let rest : (size - 4096 + 4095) / 4096 + 1 ≡ (size + 4095) / 4096 = omega arith in
    ground (arith, next, rest)

-- From a page boundary, within the address space and with fuel for every page, the loop gives the
-- flag to exactly the pages that the bytes touch.
pub mark_loop-touches :
    (flag : Bool) (fuel addr size : ℕ) (r : ℕ → Bool) (p : ℕ)
    → addr % 4096 ≡ 0
    → addr + size ≤ 2 ^ 32
    → size < 2 ^ 31
    → size ≤ 4096 * fuel
    → mark_loop flag fuel addr size r p ≡ (if touches addr size p then flag else r p)
unfolding mark_loop
mark_loop-touches flag zero addr size r p page word int fuel = ground arith
mark_loop-touches flag (suc n) addr size r p page word int fuel = elim (dec_lt 0 size) [
  | no done ↦ mark_loop_done flag n addr size r p (ground arith) ∙ ground arith
  | yes more ↦ mark_loop_more flag n addr size r p more int ∙ elim (dec_lt 4096 size) [
    | no last ↦
        let over : is_positive (less_page size) ≡ false = ends last more in
        mark_loop-not_positive flag n (add32 addr 4096) (less_page size) (mark r (addr / 4096) flag)
          p over
        ∙ ground arith
    | yes further ↦
        let next : add32 addr 4096 ≡ addr + 4096 = unfold add32 in (omega arith) in
        let left : less_page size ≡ size - 4096 = omega arith in
        rw (next, left)
          (mark_loop-touches flag n (addr + 4096) (size - 4096) (mark r (addr / 4096) flag) p
              (omega arith) (omega arith) (omega arith) (omega arith)
            ∙ touches_cons flag addr size r p page further)
  ]
]
  where
    ends : ¬ (4096 < size) → 0 < size → is_positive (less_page size) ≡ false
    ends last more = elim (ℕ_discrete size 4096) [
      | yes e ↦ rw e refl
      | no ne ↦
          let over : less_page size ≡ size + (2 ^ 32 - 4096) = omega arith in rw over (ground arith)
    ]

-- What the code relies on: a region that `__vmalloc` hands out starts at a page boundary, ends
-- within the address space and is apart from the regions that are mapped, and it is mapped then; a
-- call that fails maps nothing.
pub record KernelLaws (k : Kernel) (live : k.World → List Block) : Type 0 where
  pub aligned : (w : k.World) (n : ℕ) → (k.vmalloc w n).0 % 4096 ≡ 0
  pub bounded : (w : k.World) (n : ℕ) → (k.vmalloc w n).0 ≢ 0 → (k.vmalloc w n).0 + n ≤ 2 ^ 32
  pub fresh :
      (w : k.World) (n : ℕ)
      → (k.vmalloc w n).0 ≢ 0
      → All (Apart (record { addr = (k.vmalloc w n).0; size = n })) (live w)
  pub maps :
      (w : k.World) (n : ℕ)
      → (k.vmalloc w n).0 ≢ 0
      → live (k.vmalloc w n).1 ≡ record { addr = (k.vmalloc w n).0; size = n } ∷ live w
  pub fails : (w : k.World) (n : ℕ) → (k.vmalloc w n).0 ≡ 0 → live (k.vmalloc w n).1 ≡ live w

-- Whether it succeeds or not, `btalloc` returns what `__vmalloc` did.
pub btalloc-vmalloc :
    (k : Kernel) (m : Machine k) (size : ℕ)
    → ((btalloc k m size).0 ≡ (k.vmalloc m.world (page_align size)).0)
      × ((btalloc k m size).1.world ≡ (k.vmalloc m.world (page_align size)).1)
unfolding btalloc
btalloc-vmalloc k m size = elim (Bool-cases ((k.vmalloc m.world (page_align size)).0 == 0)) [
  | inl null ↦ (rw null (sym ((==_iff _ 0).0 null)), rw null)
  | inr found ↦ (rw found, rw found)
]

btalloc_flags :
    (k : Kernel) (m : Machine k) (size : ℕ)
    → (btalloc k m size).0 ≢ 0
    → (btalloc k m size).1.reserved
      ≡ mark_loop true (page_align size) (btalloc k m size).0 (page_align size) m.reserved
unfolding btalloc
btalloc_flags k m size = elim (Bool-cases ((k.vmalloc m.world (page_align size)).0 == 0)) [
  | inl null ↦ rw null (λ ne. absurd (ne refl))
  | inr found ↦ rw found (λ ne. refl)
]

btfree_flags :
    (k : Kernel) (m : Machine k) (ptr size : ℕ)
    → ptr ≢ 0
    → (btfree k m ptr size).reserved ≡ mark_loop false size ptr size m.reserved
unfolding btfree
btfree_flags k m ptr size ne = let no_null : ptr == 0 ≡ false = ground arith in rw no_null

module _ {k : Kernel} {live : k.World → List Block} (laws : KernelLaws k live) where
  -- Where a successful `btalloc` puts its block.
  pub btalloc_place :
      (m : Machine k) (size : ℕ)
      → (btalloc k m size).0 ≢ 0
      → ((btalloc k m size).0 % 4096 ≡ 0) × ((btalloc k m size).0 + page_align size ≤ 2 ^ 32)
  btalloc_place m size ne =
      let e = (btalloc-vmalloc k m size).0 in
      (
        rw e (laws.aligned m.world (page_align size)),
        rw e (laws.bounded m.world (page_align size) (rw e at ne)),
      )

  -- The flags after a successful `btalloc`.
  btalloc-reserved :
      (m : Machine k) (size p : ℕ)
      → size + 4095 < 2 ^ 31
      → (btalloc k m size).0 ≢ 0
      → (btalloc k m size).1.reserved p
        ≡ (if touches (btalloc k m size).0 size p then true else m.reserved p)
  btalloc-reserved m size p int ne =
      let aligned : page_align size ≡ (size + 4095) / 4096 * 4096 = omega arith in
      let (page, word) = btalloc_place m size ne in
      let pages : (page_align size + 4095) / 4096 ≡ (size + 4095) / 4096 = omega arith in
      ap (λ (r : ℕ → Bool). r p) (btalloc_flags k m size ne)
      ∙ mark_loop-touches true (page_align size) (btalloc k m size).0 (page_align size) m.reserved p
          page word (omega arith) (omega arith)
      ∙ ground (arith, pages)

  -- Given the kernel's laws, and for a size that is not negative and that `PAGE_ALIGN` keeps below
  -- 2 ^ 31, `btfree` of a block that `btalloc` returned for the same size, page aligned or not, clears exactly the flags that `btalloc` set: where the page was not reserved
  -- before, or is none of the block's, its flag is as it was, and between the two calls every page
  -- of the block is reserved.
  pub btfree-btalloc :
      (m : Machine k) (size p : ℕ)
      → size + 4095 < 2 ^ 31
      → (btalloc k m size).0 ≢ 0
      → (touches (btalloc k m size).0 size p ≡ true → m.reserved p ≡ false)
      → ((btfree k (btalloc k m size).1 (btalloc k m size).0 size).reserved p ≡ m.reserved p)
        × (touches (btalloc k m size).0 size p ≡ true → (btalloc k m size).1.reserved p ≡ true)
  btfree-btalloc m size p int some_addr clean =
      let (a, n) = btalloc k m size in
      let (page, word) = btalloc_place m size some_addr in
      let set_flags = btalloc-reserved m size p int some_addr in
      let clear_flags =
        ap (λ (r : ℕ → Bool). r p) (btfree_flags k n a size some_addr)
        ∙ mark_loop-touches false size a size n.reserved p page (omega (arith, word)) (omega arith)
            (omega arith) in
      (clear_flags ∙ ground (arith, set_flags, clean), λ h. set_flags ∙ ground (arith, h))
