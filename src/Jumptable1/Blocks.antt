-- ===== src/Jumptable1/Blocks.antt =====
-- `alloc_jumptable1` of btmod/bt/peep/jumptable1.c glues four per-cpu areas together.
use btkernel.Base.{
  ℕ, ◌+◌, ◌%◌, ◌^◌, ◌≡◌, ◌≢◌, ◌⊎◌, true, false, List, [], ◌∷◌, arith, ◌==◌, if◌then◌else◌,
}
use btkernel.Malloc.{add32}
use btkernel.Jumptable1.{
  continuous_blocks, PercpuCall, alloc_percpu, free_percpu, Areas, alloc_jumptable1,
  free_jumptable1,
}

-- The areas that the calls give back, in order.
abbrev pub freed : List PercpuCall → List ℕ
freed [] = []
freed (alloc_percpu size ∷ calls) = freed calls
freed (free_percpu area ∷ calls) = area ∷ freed calls

-- The areas that the calls obtained, the latest first: the answers, in order, that are not null.
abbrev pub obtained : List PercpuCall → List ℕ → List ℕ → List ℕ
obtained [] answers got = got
obtained (alloc_percpu size ∷ calls) [] got = got
obtained (alloc_percpu size ∷ calls) (a ∷ answers) got =
    obtained calls answers (if a == 0 then got else a ∷ got)
obtained (free_percpu area ∷ calls) answers got = obtained calls answers got

module _ (j a₀ a₁ a₂ : ℕ) where
  abbrev outcome : Areas
  outcome = alloc_jumptable1 j a₀ a₁ a₂

  abbrev answers : List ℕ
  answers = j ∷ a₀ ∷ a₁ ∷ a₂ ∷ []

  -- When `alloc_jumptable1` fails it has given back every area that it obtained, each once, the
  -- latest first, and keeps none. When it succeeds it has given nothing back, `free_jumptable1`
  -- gives back just the areas that are in use, no area is null, and each of the last three areas
  -- starts where 1024 slots of the one before it end.
  pub alloc_jumptable1-balanced :
      ((outcome.result ≡ false)
        × (outcome.areas ≡ [])
        × (freed outcome.calls ≡ obtained outcome.calls answers []))
      ⊎ ((outcome.result ≡ true)
          × (outcome.areas ≡ answers)
          × (freed outcome.calls ≡ [])
          × (freed (free_jumptable1 j a₀ a₁ a₂) ≡ outcome.areas)
          × (j ≢ 0)
          × (a₀ ≢ 0)
          × (a₁ ≢ 0)
          × (a₂ ≢ 0)
          × (a₀ ≡ (j + 8192) % 2 ^ 32)
          × (a₁ ≡ (a₀ + 8192) % 2 ^ 32)
          × (a₂ ≡ (a₁ + 8192) % 2 ^ 32))
  unfolding alloc_jumptable1 free_jumptable1 continuous_blocks add32
  alloc_jumptable1-balanced = ground arith
