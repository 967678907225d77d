-- ===== src/Tb/Obtain.antt =====
-- The memory that `tb_malloc` of btmod/bt/peep/tb.c obtains for a block.
use btkernel.Base.{
  ℕ, ◌+◌, ◌*◌, ◌<◌, ◌≡◌, refl, ◌⊎◌, inl, inr, false, List, [], ◌∷◌, arith, ◌==◌, Bool-cases, length,
  replicate, length-replicate, ◌>>=◌, panic, ok, stop,
}
use btkernel.Malloc.{MallocInfo, pool_tc, pool_edge, pool_kmalloc}
use btkernel.Malloc.Trace.{Block, IsReady}
use btkernel.Malloc.Trace.Bump.{Step}
use btkernel.Malloc.Trace.Handed.{
  Request, Allowed, AllRequests, Handed, Handed-cons, malloc_from_pool-Step,
}
use btkernel.Tb.{Tb, tb_kmalloc, tb_malloc}

Handed-nil : (info : MallocInfo) → IsReady info → Handed info info []
Handed-nil info ready = record {
  ready = ready;
  kept = λ b o. o;
  owned = tt;
  disjoint = tt;
  fresh = λ b o. tt;
}

tb_kmalloc-Step :
    (info : MallocInfo) (size pool : ℕ)
    → IsReady info
    → Allowed info (pool, size)
    → 0 < size
    → ((ret : ℕ) × (info' : MallocInfo) × (tb_kmalloc info size pool ≡ ok (ret, info'))
        × Step info info' (record { addr = ret; size = size }))
      ⊎ (tb_kmalloc info size pool ≡ stop panic)
unfolding tb_kmalloc
tb_kmalloc-Step info size pool ready allowed pos =
    let some_size : size == 0 ≡ false = ground arith in
    elim (malloc_from_pool-Step info pool size ready allowed) [
      | inr run ↦ inr (rw (some_size, run, ◌>>=◌))
      | inl (ret, info', run, s) ↦ elim (Bool-cases (ret == 0)) [
        | inl null ↦ inr (rw (some_size, run, ◌>>=◌, null))
        | inr found ↦ inl (ret, info', rw (some_size, run, ◌>>=◌, found), s)
      ]
    ]

-- The blocks of a translated block, in the order in which they are obtained.
abbrev pub blocks_of : Tb → List Block
blocks_of tb =
    record { addr = tb.tc_ptr; size = tb.code_len }
    ∷ record { addr = tb.edge_ptr; size = tb.edge_len }
    ∷ record { addr = tb.tc_boundaries.at; size = (tb.num_insns + 1) * 2 }
    ∷ record { addr = tb.eip_boundaries.at; size = tb.num_insns * 2 }
    ∷ []

abbrev pub requests_of : Tb → List Request
requests_of tb =
    (pool_tc, tb.code_len)
    ∷ (pool_edge, tb.edge_len)
    ∷ (pool_kmalloc, (tb.num_insns + 1) * 2)
    ∷ (pool_kmalloc, tb.num_insns * 2)
    ∷ []

-- The block with its memory.
abbrev obtained : Tb → ℕ → ℕ → ℕ → ℕ → Tb
obtained tb tc edge tcb eipb = record tb {
  num_jumps = 0;
  tc_ptr = tc;
  edge_ptr = edge;
  tc_boundaries = record { at = tcb; items = replicate (tb.num_insns + 1) 0 };
  eip_boundaries = record { at = eipb; items = replicate tb.num_insns 0 };
}

-- In a ready state, for a block with code, edges and instructions whose sizes do not wrap at any
-- chunk, `tb_malloc` returns or panics. If it returns, the memory for the code, the edges and the
-- two tables are four disjoint blocks, apart from every block owned before, which stay owned; the
-- tables have one entry per instruction, and one more for the end of the translation; no jump is
-- recorded; and the pools are ready again.
pub tb_malloc-Handed :
    (info : MallocInfo) (tb : Tb)
    → IsReady info
    → AllRequests info (requests_of tb)
    → 0 < tb.code_len
    → 0 < tb.edge_len
    → 0 < tb.num_insns
    → ((tb' : Tb) × (info' : MallocInfo) × (tb_malloc info tb ≡ ok (tb', info'))
        × Handed info info' (blocks_of tb')
        × (length tb'.tc_boundaries.items ≡ tb.num_insns + 1)
        × (length tb'.eip_boundaries.items ≡ tb.num_insns)
        × (tb'.num_jumps ≡ 0)
        × (tb'.code_len ≡ tb.code_len)
        × (tb'.edge_len ≡ tb.edge_len)
        × (tb'.num_insns ≡ tb.num_insns))
      ⊎ (tb_malloc info tb ≡ stop panic)
unfolding tb_malloc
tb_malloc-Handed info tb ready (a₁, (a₂, (a₃, (a₄, _)))) code edge insns =
    elim (tb_kmalloc-Step info tb.code_len pool_tc ready a₁ code) [
      | inr run₁ ↦ inr (rw (run₁, ◌>>=◌))
      | inl (tc, info₁, run₁, s₁) ↦
          elim (tb_kmalloc-Step info₁ tb.edge_len pool_edge s₁.ready (a₂.0, s₁.fits _ a₂.1) edge) [
            | inr run₂ ↦ inr (rw (run₁, ◌>>=◌, run₂))
            | inl (ep, info₂, run₂, s₂) ↦
                elim (tb_kmalloc-Step info₂ ((tb.num_insns + 1) * 2) pool_kmalloc s₂.ready
                  (a₃.0, s₂.fits _ (s₁.fits _ a₃.1)) (omega arith)) [
                    | inr run₃ ↦ inr (rw (run₁, ◌>>=◌, run₂, run₃))
                    | inl (tcb, info₃, run₃, s₃) ↦
                        elim (tb_kmalloc-Step info₃ (tb.num_insns * 2) pool_kmalloc s₃.ready
                          (a₄.0, s₃.fits _ (s₂.fits _ (s₁.fits _ a₄.1))) (omega arith)) [
                            | inr run₄ ↦ inr (rw (run₁, ◌>>=◌, run₂, run₃, run₄))
                            | inl (eipb, info₄, run₄, s₄) ↦ inl (
                              obtained tb tc ep tcb eipb,
                              info₄,
                              rw (run₁, ◌>>=◌, run₂, run₃, run₄),
                              Handed-cons info info₁ info₄ _ _ s₁ (
                                  Handed-cons info₁ info₂ info₄ _ _ s₂ (
                                    Handed-cons info₂ info₃ info₄ _ _ s₃ (
                                      Handed-cons info₃ info₄ info₄ _ _ s₄
                                        (Handed-nil info₄ s₄.ready)))),
                              length-replicate (tb.num_insns + 1) 0,
                              length-replicate tb.num_insns 0,
                              refl,
                              refl,
                              refl,
                              refl,
                            )
                          ]
                  ]
          ]
    ]
