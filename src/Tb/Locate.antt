-- ===== src/Tb/Locate.antt =====
-- The two maps between the source and the translation of a block, `eip_virt_to_tc_ptr` and
-- `tb_tc_ptr_to_eip_virt` of btmod/bt/peep/tb.c.
use btkernel.Base.{
  ℕ, zero, suc, ◌+◌, ◌-◌, ◌%◌, ◌^◌, ◌≤◌, ◌<◌, ◌≡◌, refl, ap, ◌∙◌, inl, inr, true, false, ◌&&◌, some,
  arith, ltb, leb, if◌then◌else◌, lt→ltb, lt_or_eq, length, get_or, ◌>>=◌, read, read-get_or, ok,
}
use native.Mathlib.Decide.{dec_lt}
use native.Mathlib.Nat.{le_refl}
use btkernel.Malloc.{add32}
use btkernel.Tb.{
  Tb, start_of, tc_loop, tb_tc_ptr_to_eip_virt, eip_loop, last_boundary, eip_virt_to_tc_ptr,
}

-- The address at which instruction `i` starts, in the source and in the translation.
abbrev pub eip_at : Tb → ℕ → ℕ
eip_at tb zero = tb.eip_virt
eip_at tb (suc i) = tb.eip_virt + get_or tb.eip_boundaries.items i 0

abbrev pub tc_at : Tb → ℕ → ℕ
tc_at tb i = tb.tc_ptr + get_or tb.tc_boundaries.items i 0

-- A block as `translate` leaves it: the boundaries of each instruction, which lie in the address
-- space, and in the translation they are in order.
pub record IsTranslated (tb : Tb) : Type 0 where
  pub some_insns : 0 < tb.num_insns
  pub eips : length tb.eip_boundaries.items ≡ tb.num_insns
  pub tcs : length tb.tc_boundaries.items ≡ tb.num_insns + 1
  pub eip_word : (i : ℕ) → i ≤ tb.num_insns → eip_at tb i < 2 ^ 32
  pub tc_word : (i : ℕ) → i ≤ tb.num_insns → tc_at tb i < 2 ^ 32
  pub tc_order : (i : ℕ) → i < tb.num_insns → tc_at tb i ≤ tc_at tb (i + 1)
  pub tc_first : tc_at tb 0 ≡ tb.tc_ptr

module _ {tb : Tb} (t : IsTranslated tb) where
  start_of-eip_at : (i : ℕ) → i ≤ tb.num_insns → start_of tb i ≡ ok (eip_at tb i)
  unfolding start_of add32
  start_of-eip_at zero h = refl
  start_of-eip_at (suc i) h =
      let word = t.eip_word (suc i) h in
      let plain : (tb.eip_virt + get_or tb.eip_boundaries.items i 0) % 2 ^ 32
          ≡ tb.eip_virt + get_or tb.eip_boundaries.items i 0 =
        omega arith in
      rw (read-get_or tb.eip_boundaries.items i 0 (omega (arith, t.eips)), ◌>>=◌, plain)

  -- The translations of earlier instructions end before that of instruction `i` starts.
  tc_at_mono : (i j : ℕ) → j ≤ i → i ≤ tb.num_insns → tc_at tb j ≤ tc_at tb i
  tc_at_mono zero zero h g = le_refl _
  tc_at_mono zero (suc j) h g = absurd (omega arith)
  tc_at_mono (suc i) j h g = elim (lt_or_eq j (suc i) h) [
    | inr e ↦ rw e (le_refl _)
    | inl lt ↦
        let step = t.tc_order i (omega arith) in
        let next : tc_at tb (i + 1) ≡ tc_at tb (suc i) = ap (tc_at tb) (omega arith) in
        omega (arith, tc_at_mono i j (omega arith) (omega arith))
  ]

  tc_read :
      (i : ℕ)
      → i ≤ tb.num_insns
      → (read tb.tc_boundaries.items i ≡ ok (get_or tb.tc_boundaries.items i 0))
        × (add32 tb.tc_ptr (get_or tb.tc_boundaries.items i 0) ≡ tc_at tb i)
  unfolding add32
  tc_read i h =
      let word = t.tc_word i h in
      (read-get_or tb.tc_boundaries.items i 0 (omega (arith, t.tcs)), omega arith)

  -- One round of the loop of `tb_tc_ptr_to_eip_virt`.
  tc_loop-suc :
      (p n i : ℕ)
      → i < tb.num_insns
      → tc_loop tb p (suc n) i ≡ (
          if leb (tc_at tb i) p && ltb p (tc_at tb (i + 1))
          then ok (eip_at tb i)
          else tc_loop tb p n (i + 1))
  unfolding tc_loop
  tc_loop-suc p n i h =
      let (low, low_at) = tc_read i (omega arith) in
      let (high, high_at) = tc_read (i + 1) (omega arith) in
      let start = start_of-eip_at i (omega arith) in
      rw (low, ◌>>=◌, high, low_at, high_at) (ground (arith, start))

  tc_loop-eip_at :
      (p i n j : ℕ)
      → tc_at tb i ≤ p
      → p < tc_at tb (i + 1)
      → i < tb.num_insns
      → j ≤ i
      → i < j + n
      → tc_loop tb p n j ≡ ok (eip_at tb i)
  tc_loop-eip_at p i zero j low high inside from upto = absurd (omega arith)
  tc_loop-eip_at p i (suc n) j low high inside from upto = elim (lt_or_eq j i from) [
    | inr e ↦ rw (e, tc_loop-suc p n i inside) (ground arith)
    | inl lt ↦
        let earlier = tc_at_mono i (j + 1) (omega arith) (omega arith) in
        let rest = tc_loop-eip_at p i n (j + 1) low high inside (omega arith) (omega arith) in
        rw (tc_loop-suc p n j (omega arith)) (ground (arith, rest))
  ]

  -- On a translated block, an address inside the translation of instruction `i` maps to the start
  -- of the instruction.
  pub tb_tc_ptr_to_eip_virt-eip_at :
      (p i : ℕ)
      → i < tb.num_insns
      → tc_at tb i ≤ p
      → p < tc_at tb (i + 1)
      → tb_tc_ptr_to_eip_virt (some tb) p ≡ ok (eip_at tb i)
  unfolding tb_tc_ptr_to_eip_virt
  tb_tc_ptr_to_eip_virt-eip_at p i inside low high =
      let (end, end_at) = tc_read tb.num_insns (omega arith) in
      let before = tc_at_mono i 0 (omega arith) (omega arith) in
      let after = tc_at_mono tb.num_insns (i + 1) (omega arith) (omega arith) in
      let first = t.tc_first in
      let ok_low : leb tb.tc_ptr p ≡ true = ground arith in
      let ok_high : ltb p (tc_at tb tb.num_insns) ≡ true = ground arith in
      rw (end, ◌>>=◌, end_at, ok_low, ok_high)
        (tc_loop-eip_at p i tb.num_insns 0 low high inside (omega arith) (omega arith))

  eip_read :
      (i : ℕ)
      → i < tb.num_insns
      → (read tb.eip_boundaries.items i ≡ ok (get_or tb.eip_boundaries.items i 0))
        × (add32 tb.eip_virt (get_or tb.eip_boundaries.items i 0) ≡ eip_at tb (suc i))
  unfolding add32
  eip_read i h =
      let word = t.eip_word (suc i) h in
      (read-get_or tb.eip_boundaries.items i 0 (omega (arith, t.eips)), omega arith)

  -- The difference of two addresses is taken modulo 2 ^ 32, and so is the sum.
  shifted : (x e prev : ℕ) → prev ≤ e → add32 x (e + 2 ^ 32 - prev) ≡ add32 x (e - prev)
  unfolding add32
  shifted x e prev h = omega arith

  -- The two cases of a round of the loop of `eip_virt_to_tc_ptr`, at an address that lies at or
  -- behind the instruction's start.
  eip_loop_hit :
      (e n i : ℕ)
      → i < tb.num_insns
      → eip_at tb i ≤ e
      → e < eip_at tb (suc i)
      → eip_loop tb e (suc n) i ≡ ok (add32 (tc_at tb i) (e - eip_at tb i))
  unfolding eip_loop
  eip_loop_hit e n i h low high =
      let (off, off_at) = eip_read i h in
      let (tc, at) = tc_read i (omega arith) in
      rw (
        off,
        ◌>>=◌,
        off_at,
        lt→ltb _ _ high,
        start_of-eip_at i (omega arith),
        tc,
        at,
        shifted (tc_at tb i) e (eip_at tb i) low,
      )

  eip_loop_miss :
      (e n i : ℕ)
      → i < tb.num_insns
      → eip_at tb (suc i) ≤ e
      → eip_loop tb e (suc n) i ≡ eip_loop tb e n (suc i)
  unfolding eip_loop
  eip_loop_miss e n i h high =
      let (off, off_at) = eip_read i h in
      let next : i + 1 ≡ suc i = omega arith in
      let beyond : ltb e (eip_at tb (suc i)) ≡ false = ground arith in
      rw (off, ◌>>=◌, off_at, beyond, next)

  eip_loop-tc_at :
      (e n i : ℕ)
      → i + n ≡ tb.num_insns
      → eip_at tb i ≤ e
      → e < eip_at tb tb.num_insns
      → (j : ℕ) × (j < tb.num_insns)
        × (eip_at tb j ≤ e)
        × (e < eip_at tb (suc j))
        × (eip_loop tb e n i ≡ ok (add32 (tc_at tb j) (e - eip_at tb j)))
  eip_loop-tc_at e zero i h low high =
      let same : eip_at tb i ≡ eip_at tb tb.num_insns = ap (eip_at tb) (omega arith) in
      absurd (omega arith)
  eip_loop-tc_at e (suc n) i h low high = elim (dec_lt e (eip_at tb (suc i))) [
    | yes here ↦ (i, omega arith, low, here, eip_loop_hit e n i (omega arith) low here)
    | no further ↦
        let (j, inside, from, upto, run) =
          eip_loop-tc_at e n (suc i) (omega arith) (omega arith) high in
        (j, inside, from, upto, eip_loop_miss e n i (omega arith) (omega arith) ∙ run)
  ]

  last_boundary-eip_at :
      (n : ℕ)
      → n ≤ tb.num_insns
      → 0 < n
      → (last : ℕ) × (last_boundary tb n ≡ ok last) × (add32 tb.eip_virt last ≡ eip_at tb n)
  unfolding last_boundary
  last_boundary-eip_at zero h pos = absurd (omega arith)
  last_boundary-eip_at (suc n) h pos = let (off, at) = eip_read n h in (_, off, at)

  -- On a translated block, an address strictly inside the source lies in some instruction, and
  -- maps to the translation of that instruction, as far behind its start as the address lies
  -- behind the instruction's, modulo 2 ^ 32.
  pub eip_virt_to_tc_ptr-tc_at :
      (e : ℕ)
      → tb.eip_virt < e
      → e < eip_at tb tb.num_insns
      → (j : ℕ) × (j < tb.num_insns)
        × (eip_at tb j ≤ e)
        × (e < eip_at tb (suc j))
        × (eip_virt_to_tc_ptr tb e ≡ ok (add32 (tc_at tb j) (e - eip_at tb j)))
  unfolding eip_virt_to_tc_ptr
  eip_virt_to_tc_ptr-tc_at e low high =
      let (last, run, at) = last_boundary-eip_at tb.num_insns (le_refl _) t.some_insns in
      rw (run, ◌>>=◌, at, lt→ltb _ _ low, lt→ltb _ _ high)
        (eip_loop-tc_at e tb.num_insns 0 (omega arith) (omega arith) high)

  -- On a translated block, an address strictly inside the source goes to the translation and comes
  -- back as the start of its instruction, where it is not further behind that start than the
  -- instruction's translation is long.
  pub tb_tc_ptr_to_eip_virt-eip_virt_to_tc_ptr :
      (e : ℕ)
      → tb.eip_virt < e
      → e < eip_at tb tb.num_insns
      → ((j : ℕ)
          → j < tb.num_insns
          → eip_at tb j ≤ e
          → e < eip_at tb (suc j)
          → tc_at tb j + (e - eip_at tb j) < tc_at tb (j + 1))
      → (j : ℕ) × (j < tb.num_insns)
        × (eip_at tb j ≤ e)
        × (e < eip_at tb (suc j))
        × ((eip_virt_to_tc_ptr tb e >>= tb_tc_ptr_to_eip_virt (some tb)) ≡ ok (eip_at tb j))
  unfolding add32
  tb_tc_ptr_to_eip_virt-eip_virt_to_tc_ptr e low high short =
      let (j, inside, from, upto, run) = eip_virt_to_tc_ptr-tc_at e low high in
      let room = short j inside from upto in
      let word = t.tc_word (j + 1) (omega arith) in
      let plain : add32 (tc_at tb j) (e - eip_at tb j) ≡ tc_at tb j + (e - eip_at tb j) =
        omega arith in
      (
        j,
        inside,
        from,
        upto,
        rw (run, ◌>>=◌, plain)
            (tb_tc_ptr_to_eip_virt-eip_at (tc_at tb j + (e - eip_at tb j)) j inside (omega arith)
              room),
      )
