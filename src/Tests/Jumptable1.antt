-- ===== src/Tests/Jumptable1.antt =====
-- An empty table of 4100 slots.
use btkernel.Base.{
  ℕ, zero, suc, ◌+◌, ◌/◌, ◌%◌, ◌^◌, ◌≡◌, refl, ap, ◌≢◌, ◌⊎◌, inl, true, false, List, [], ◌∷◌, arith,
  length, ok,
}
use btkernel.Jumptable1.{
  Table, entry, jumptable1_add, clear_jumptable1, alloc_jumptable1, free_jumptable1,
}
use btkernel.Jumptable1.Shift.{slots, slot, inserted, jumptable1_add-inserted}
use btkernel.Jumptable1.History.{
  RunAt, Sourced, Target, add_all, IsFrom, recorded, jumptable1_add-kept, add_all-IsFrom,
}
use btkernel.Jumptable1.Clear.{AllCleared, clear_jumptable1-AllCleared}
use btkernel.Jumptable1.Blocks.{freed, obtained, alloc_jumptable1-balanced}

zeros : ℕ → Table
zeros zero = []
zeros (suc n) = 0 ∷ zeros n

length-zeros : (n : ℕ) → length (zeros n) ≡ n
unfolding zeros
length-zeros zero = refl
length-zeros (suc n) = ap suc (length-zeros n)

slot-zeros : (n j : ℕ) → slot (zeros n) j ≡ 0
unfolding zeros
slot-zeros zero j = refl
slot-zeros (suc n) zero = refl
slot-zeros (suc n) (suc j) = slot-zeros n j

empty : Table
empty = zeros 4100

length-empty : length empty ≡ slots
unfolding empty
length-empty = length-zeros 4100

slot-empty : (j : ℕ) → slot empty j ≡ 0
unfolding empty
slot-empty j = slot-zeros 4100 j

jumptable1_add-inserted_example :
    (t' : Table) × (jumptable1_add empty 4097 77 ≡ ok t')
    × (length t' ≡ slots)
    × ((j : ℕ) → slot t' j ≡ inserted empty 1 (entry 4097 77) j)
    × (entry 4097 77 / 2 ^ 32 ≡ 77)
    × (entry 4097 77 % 2 ^ 32 ≡ 4097)
jumptable1_add-inserted_example = jumptable1_add-inserted empty 4097 77 length-empty (omega arith)

jumptable1_add-kept_example :
    (t' : Table) × (jumptable1_add empty 4097 77 ≡ ok t')
    × ((j : ℕ)
        → slot empty j ≢ 0
        → (slot t' j ≡ slot empty j)
          ⊎ ((slot t' (j + 1) ≡ slot empty j) ⊎ (j ≡ 1 + 3) × RunAt empty 1))
    × ((j : ℕ) → Sourced empty (entry 4097 77) (slot t' j))
jumptable1_add-kept_example = jumptable1_add-kept empty 4097 77 length-empty (omega arith)

abbrev targets : List Target
targets = (4097, 77) ∷ (1, 78) ∷ []

add_all-IsFrom_example :
    (t' : Table) × (add_all empty targets ≡ ok t')
    × (length t' ≡ slots)
    × IsFrom (recorded [] targets) t'
add_all-IsFrom_example =
    add_all-IsFrom [] targets empty length-empty (omega arith, (omega arith, tt))
      (λ j. inl (slot-empty j))

clear_jumptable1-AllCleared_example :
    (ts' : List Table) × (clear_jumptable1 1 (empty ∷ []) ≡ ok ts') × AllCleared 1 (empty ∷ []) ts'
clear_jumptable1-AllCleared_example =
    clear_jumptable1-AllCleared 1 (empty ∷ []) (omega arith) (length-empty, tt)

abbrev area : ℕ
area = 4096

abbrev behind : ℕ
behind = 12288

abbrev null : ℕ
null = 0

alloc_jumptable1-balanced_example :
    (((alloc_jumptable1 area behind null null).result ≡ false)
      × ((alloc_jumptable1 area behind null null).areas ≡ [])
      × (freed (alloc_jumptable1 area behind null null).calls
          ≡ obtained
              (alloc_jumptable1 area behind null null).calls
              (area ∷ behind ∷ null ∷ null ∷ [])
              []))
    ⊎ (((alloc_jumptable1 area behind null null).result ≡ true)
        × ((alloc_jumptable1 area behind null null).areas ≡ area ∷ behind ∷ null ∷ null ∷ [])
        × (freed (alloc_jumptable1 area behind null null).calls ≡ [])
        × (freed (free_jumptable1 area behind null null)
            ≡ (alloc_jumptable1 area behind null null).areas)
        × (area ≢ 0)
        × (behind ≢ 0)
        × (null ≢ 0)
        × (null ≢ 0)
        × (behind ≡ (area + 8192) % 2 ^ 32)
        × (null ≡ (behind + 8192) % 2 ^ 32)
        × (null ≡ (null + 8192) % 2 ^ 32))
alloc_jumptable1-balanced_example = alloc_jumptable1-balanced area behind null null
