-- ===== src/Regset/Unused.antt =====
-- `regset_find_unused` of btmod/bt/peep/regset.c.
use btkernel.Base.{
  ℕ, zero, suc, ◌+◌, ◌≤◌, ◌<◌, ◌≡◌, refl, ◌⊎◌, inl, inr, Bool, true, false, arith, Bool-cases,
  lt_or_eq, Run, panic, ok, stop,
}
use btkernel.Regset.{Regset, unused_loop, regset_find_unused}

-- The first free register of `a .. b`, or a panic where all of them are used.
abbrev Answer : (ℕ → Bool) → ℕ → ℕ → Run ℕ → Type 0
Answer cregs a b r =
    ((i : ℕ) × (r ≡ ok i)
      × (a ≤ i)
      × (i < b)
      × (cregs i ≡ false)
      × ((j : ℕ) → a ≤ j → j < i → cregs j ≡ true))
    ⊎ (r ≡ stop panic) × ((j : ℕ) → a ≤ j → j < b → cregs j ≡ true)

used-cons :
    (cregs : ℕ → Bool) (a b : ℕ)
    → cregs a ≡ true
    → ((j : ℕ) → a + 1 ≤ j → j < b → cregs j ≡ true)
    → (j : ℕ) → a ≤ j
    → j < b
    → cregs j ≡ true
used-cons cregs a b used rest j low high = elim (lt_or_eq a j low) [
  | inl lt ↦ rest j (omega arith) high
  | inr eq ↦ rw (← eq) used
]

unused_loop-Answer :
    (cregs : ℕ → Bool) (n a b : ℕ) → a + n ≡ b → Answer cregs a b (unused_loop cregs n a)
unfolding unused_loop
unused_loop-Answer cregs zero a b h = inr (refl, λ j low high. absurd (omega arith))
unused_loop-Answer cregs (suc n) a b h = elim (Bool-cases (cregs a)) [
  | inr free ↦
      rw (free, unused_loop)
        (inl (a, refl, omega arith, omega arith, free, λ j low high. absurd (omega arith)))
  | inl used ↦
      rw (used, unused_loop)
        (elim (unused_loop-Answer cregs n (a + 1) b (omega arith)) [
          | inl (i, run, low, high, free, before) ↦
              inl (i, run, omega arith, high, free, used-cons cregs a i used before)
          | inr (run, all_used) ↦ inr (run, used-cons cregs a b used all_used)
        ])
]

-- `regset_find_unused` returns the first of the eight registers that is not in the set, and it
-- panics only when all of them are.
pub regset_find_unused_lem :
    (s : Regset)
    → ((i : ℕ) × (regset_find_unused s ≡ ok i)
        × (i < 8)
        × (s.cregs i ≡ false)
        × ((j : ℕ) → j < i → s.cregs j ≡ true))
      ⊎ (regset_find_unused s ≡ stop panic) × ((j : ℕ) → j < 8 → s.cregs j ≡ true)
unfolding regset_find_unused
regset_find_unused_lem s = elim (unused_loop-Answer s.cregs 8 0 8 (omega arith)) [
  | inl (i, run, low, high, free, before) ↦
      inl (i, run, high, free, λ j lt. before j (omega arith) lt)
  | inr (run, all_used) ↦ inr (run, λ j lt. all_used j (omega arith) lt)
]
