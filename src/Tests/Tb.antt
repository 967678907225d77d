-- ===== src/Tests/Tb.antt =====
-- A block of three instructions, and the pools that serve it.
use btkernel.Base.{
  ℕ, zero, suc, ◌+◌, ◌-◌, ◌^◌, ◌≤◌, ◌<◌, ◌≡◌, refl, ◌⊎◌, some, [], ◌∷◌, arith, length, ◌>>=◌, read,
  panic, ok, stop,
}
use btkernel.Malloc.{MallocInfo, pool_kmalloc, malloc_from_pool, take_loop, add32}
use btkernel.Tb.{Tb, tb_malloc, tb_add_jump, tb_tc_ptr_to_eip_virt, eip_virt_to_tc_ptr}
use btkernel.Tb.Jumps.{Added, tb_add_jump-Added}
use btkernel.Tb.Locate.{
  IsTranslated, eip_at, tc_at, eip_virt_to_tc_ptr-tc_at, tb_tc_ptr_to_eip_virt-eip_virt_to_tc_ptr,
}
use btkernel.Malloc.Trace.Handed.{AllRequests, Handed}
use btkernel.Tb.Obtain.{blocks_of, requests_of, tb_malloc-Handed}
use btkernel.Tests.{two_chunks, pools, pools-IsReady, pools-Fits}

abbrev block : Tb
block = record {
  eip_virt = 1000;
  end_eip = 1012;
  edge_len = 0;
  code_len = 30;
  num_insns = 3;
  num_jumps = 1;
  tc_ptr = 50000;
  edge_ptr = 0;
  eip_boundaries = record { at = 256; items = 3 ∷ 7 ∷ 12 ∷ [] };
  tc_boundaries = record { at = 512; items = 0 ∷ 9 ∷ 14 ∷ 30 ∷ [] };
  jump_boundaries = record { at = 768; items = 14 ∷ [] };
  alignment = 0;
}

block-IsTranslated : IsTranslated block
block-IsTranslated = record {
  some_insns = omega arith;
  eips = refl;
  tcs = refl;
  eip_word = eip_words;
  tc_word = tc_words;
  tc_order = tc_orders;
  tc_first = refl;
}
  where
    eip_words : (i : ℕ) → i ≤ 3 → eip_at block i < 2 ^ 32
    eip_words zero h = omega arith
    eip_words (suc zero) h = omega arith
    eip_words (suc (suc zero)) h = omega arith
    eip_words (suc (suc (suc zero))) h = omega arith
    eip_words (suc (suc (suc (suc i)))) h = absurd (omega arith)

    tc_words : (i : ℕ) → i ≤ 3 → tc_at block i < 2 ^ 32
    tc_words zero h = omega arith
    tc_words (suc zero) h = omega arith
    tc_words (suc (suc zero)) h = omega arith
    tc_words (suc (suc (suc zero))) h = omega arith
    tc_words (suc (suc (suc (suc i)))) h = absurd (omega arith)

    tc_orders : (i : ℕ) → i < 3 → tc_at block i ≤ tc_at block (i + 1)
    tc_orders zero h = omega arith
    tc_orders (suc zero) h = omega arith
    tc_orders (suc (suc zero)) h = omega arith
    tc_orders (suc (suc (suc i))) h = absurd (omega arith)

eip_virt_to_tc_ptr-tc_at_example :
    (j : ℕ) × (j < 3)
    × (eip_at block j ≤ 1004)
    × (1004 < eip_at block (suc j))
    × (eip_virt_to_tc_ptr block 1004 ≡ ok (add32 (tc_at block j) (1004 - eip_at block j)))
eip_virt_to_tc_ptr-tc_at_example =
    eip_virt_to_tc_ptr-tc_at block-IsTranslated 1004 (omega arith) (omega arith)

-- No instruction is longer than its translation.
lengths :
    (j : ℕ)
    → j < 3
    → eip_at block j ≤ 1004
    → 1004 < eip_at block (suc j)
    → tc_at block j + (1004 - eip_at block j) < tc_at block (j + 1)
lengths zero h low high = absurd (omega arith)
lengths (suc zero) h low high = omega arith
lengths (suc (suc zero)) h low high = absurd (omega arith)
lengths (suc (suc (suc j))) h low high = absurd (omega arith)

tb_tc_ptr_to_eip_virt-eip_virt_to_tc_ptr_example :
    (j : ℕ) × (j < 3)
    × (eip_at block j ≤ 1004)
    × (1004 < eip_at block (suc j))
    × ((eip_virt_to_tc_ptr block 1004 >>= tb_tc_ptr_to_eip_virt (some block)) ≡ ok (eip_at block j))
tb_tc_ptr_to_eip_virt-eip_virt_to_tc_ptr_example =
    tb_tc_ptr_to_eip_virt-eip_virt_to_tc_ptr block-IsTranslated 1004 (omega arith) (omega arith)
      lengths

-- The pools after a request of four bytes, and of 43.
abbrev after : ℕ → ℕ → MallocInfo
after first second = record two_chunks {
  cinfo =
      record { chunk_start = 4096; chunk_end = 4192; chunk_cur = first }
      ∷ record { chunk_start = 8192; chunk_end = 8288; chunk_cur = second }
      ∷ [];
}

served : malloc_from_pool two_chunks pool_kmalloc 4 ≡ ok (4180, after 4184 8192)
unfolding malloc_from_pool take_loop add32 read
served = refl

served_block : malloc_from_pool two_chunks pool_kmalloc 43 ≡ ok (8192, after 4180 8235)
unfolding malloc_from_pool take_loop add32 read
served_block = refl

tb_add_jump-Added_example :
    (tb' : Tb) × (last : MallocInfo) × (tb_add_jump two_chunks block 23 ≡ ok (tb', last))
    × Added two_chunks (after 4184 8192) block 23 tb' last
tb_add_jump-Added_example =
    tb_add_jump-Added two_chunks (after 4184 8192) block 23 4180 refl (refl, tt) served
      (λ e. absurd (omega (arith, e)))

abbrev edged : Tb
edged = record block { edge_len = 20 }

edged-AllRequests : AllRequests pools (requests_of edged)
edged-AllRequests = (
  (omega arith, pools-Fits 30 (omega arith)),
  (
    (omega arith, pools-Fits 20 (omega arith)),
    ((omega arith, pools-Fits 8 (omega arith)), ((omega arith, pools-Fits 6 (omega arith)), tt)),
  ),
)

tb_malloc-Handed_example :
    ((tb' : Tb) × (info' : MallocInfo) × (tb_malloc pools edged ≡ ok (tb', info'))
      × Handed pools info' (blocks_of tb')
      × (length tb'.tc_boundaries.items ≡ 4)
      × (length tb'.eip_boundaries.items ≡ 3)
      × (tb'.num_jumps ≡ 0)
      × (tb'.code_len ≡ 30)
      × (tb'.edge_len ≡ 20)
      × (tb'.num_insns ≡ 3))
    ⊎ (tb_malloc pools edged ≡ stop panic)
tb_malloc-Handed_example =
    tb_malloc-Handed pools edged pools-IsReady edged-AllRequests (omega arith) (omega arith)
      (omega arith)
