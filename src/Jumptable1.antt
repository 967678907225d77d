-- ===== src/Jumptable1.antt =====
-- The per-cpu table of jump targets, btmod/bt/peep/jumptable1.c. A slot is a `uint64_t`: the target
-- in the high word and the source address in the low word, or 0. `alloc_jumptable1` makes room for
-- 3 * 1024 + 1028 slots, four more than the 4096 that an index reaches.
pub mod Shift
pub mod Blocks
pub mod History
pub mod Clear
use btkernel.Base.{
  ℕ, zero, suc, ◌+◌, ◌*◌, ◌%◌, ◌^◌, bit_or, Bool, true, false, not, List, [], ◌∷◌, ◌==◌,
  if◌then◌else◌, Run, read, write, fault, ok, stop, ◌>>=◌,
}
use btkernel.Malloc.{add32}

abbrev pub jumptable1_size : ℕ
jumptable1_size = 4096

-- The slots of one processor.
abbrev pub Table : Type 0
Table = List ℕ

-- `(uint64_t)tc_ptr << 32 | eip`; the low word of the shifted value is 0.
pub entry : ℕ → ℕ → ℕ
entry eip tc_ptr = bit_or (tc_ptr * 2 ^ 32) eip

-- `jumptable1_add` on the table of the running processor; `eip & JUMPTABLE1_MASK` is the remainder
-- modulo the size. An occupied slot moves up by one, and so do the two behind it while they are
-- occupied.
pub jumptable1_add : Table → ℕ → ℕ → Run Table
jumptable1_add t₀ eip tc_ptr = do
  let indx = eip % jumptable1_size
  prev_val1 ← read t₀ indx
  t₁ ← if prev_val1 == 0 then ok t₀ else do
    prev_val2 ← read t₀ (indx + 1)
    t₂ ← if prev_val2 == 0 then ok t₀ else do
      prev_val3 ← read t₀ (indx + 2)
      t₃ ← if prev_val3 == 0 then ok t₀ else write t₀ (indx + 3) prev_val3
      write t₃ (indx + 2) prev_val2
    write t₂ (indx + 1) prev_val1
  write t₁ indx (entry eip tc_ptr)

-- The `memset` of `clear_jumptable1` on one table, and its loop over the processors.
pub clear_table : ℕ → Table → Run Table
clear_table zero t = ok t
clear_table (suc n) [] = stop fault
clear_table (suc n) (x ∷ t) = do rest ← clear_table n t; ok (0 ∷ rest)

pub clear_jumptable1 : ℕ → List Table → Run (List Table)
clear_jumptable1 zero tables = ok tables
clear_jumptable1 (suc n) [] = stop fault
clear_jumptable1 (suc n) (t ∷ tables) = do
  t' ← clear_table jumptable1_size t
  rest ← clear_jumptable1 n tables
  ok (t' ∷ rest)

-- `continuous_blocks`: the second block starts where the first one ends, as words.
pub continuous_blocks : ℕ → ℕ → ℕ → Bool
continuous_blocks addr1 addr2 size = add32 addr1 size == addr2

-- What `alloc_jumptable1` asks of the kernel, in order.
pub data PercpuCall : Type 0 where
  alloc_percpu : ℕ → PercpuCall
  free_percpu : ℕ → PercpuCall

-- What `alloc_jumptable1` returns, the areas that are in use then, by their address on processor 0,
-- and the calls that it made.
pub record Areas : Type 0 where
  pub result : Bool
  pub areas : List ℕ
  pub calls : List PercpuCall

abbrev pub refused : List PercpuCall → Areas
refused calls = record { result = false; areas = []; calls = calls }

-- `alloc_jumptable1`, where `__alloc_percpu` answers `j`, `a₀`, `a₁` and `a₂` in turn, 0 for a null
-- pointer; the labels `out_free_4` to `out_free_1` are the frees that the branches share.
pub alloc_jumptable1 : ℕ → ℕ → ℕ → ℕ → Areas
alloc_jumptable1 j a₀ a₁ a₂ =
    let size : ℕ = 1024 * 8 in
    let newsize : ℕ = 1028 * 8 in
    let c₀ = alloc_percpu size in
    let c₃ = alloc_percpu newsize in
    let f₁ = free_percpu j ∷ [] in
    let f₂ = free_percpu a₀ ∷ f₁ in
    let f₃ = free_percpu a₁ ∷ f₂ in
    let f₄ = free_percpu a₂ ∷ f₃ in
    if j == 0
    then refused (c₀ ∷ [])
    else if a₀ == 0
    then refused (c₀ ∷ c₀ ∷ f₁)
    else if not (continuous_blocks j a₀ size)
    then refused (c₀ ∷ c₀ ∷ f₂)
    else if a₁ == 0
    then refused (c₀ ∷ c₀ ∷ c₀ ∷ f₂)
    else if not (continuous_blocks a₀ a₁ size)
    then refused (c₀ ∷ c₀ ∷ c₀ ∷ f₃)
    else if a₂ == 0
    then refused (c₀ ∷ c₀ ∷ c₀ ∷ c₃ ∷ f₃)
    else if not (continuous_blocks a₁ a₂ size)
    then refused (c₀ ∷ c₀ ∷ c₀ ∷ c₃ ∷ f₄)
    else record { result = true; areas = j ∷ a₀ ∷ a₁ ∷ a₂ ∷ []; calls = c₀ ∷ c₀ ∷ c₀ ∷ c₃ ∷ [] }

-- `free_jumptable1`, where the pointers are to the four areas.
pub free_jumptable1 : ℕ → ℕ → ℕ → ℕ → List PercpuCall
free_jumptable1 j a₀ a₁ a₂ = free_percpu j ∷ free_percpu a₀ ∷ free_percpu a₁ ∷ free_percpu a₂ ∷ []
