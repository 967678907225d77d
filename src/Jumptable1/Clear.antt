-- ===== src/Jumptable1/Clear.antt =====
-- `clear_jumptable1` of btmod/bt/peep/jumptable1.c.
use btkernel.Base.{
  ℕ, zero, suc, ◌≤◌, ◌≡◌, refl, ap, ◌∙◌, List, [], ◌∷◌, arith, ltb, if◌then◌else◌, length, All,
  ◌>>=◌, ok,
}
use btkernel.Jumptable1.{jumptable1_size, Table, clear_table, clear_jumptable1}
use btkernel.Jumptable1.Shift.{slots, slot}

-- `clear_table` empties the first `n` slots and leaves the others.
clear_table_lem :
    (n : ℕ) (t : Table)
    → n ≤ length t
    → (t' : Table) × (clear_table n t ≡ ok t')
      × (length t' ≡ length t)
      × ((j : ℕ) → slot t' j ≡ (if ltb j n then 0 else slot t j))
unfolding clear_table
clear_table_lem zero t h = (t, refl, refl, λ j. ground arith)
clear_table_lem (suc n) [] h = absurd (omega arith)
clear_table_lem (suc n) (x ∷ t) h =
    let (t', run, size, at) = clear_table_lem n t (omega arith) in
    (0 ∷ t', rw (run, ◌>>=◌), ap suc size, cleared t' at)
  where
    cleared :
        (t' : Table)
        → ((j : ℕ) → slot t' j ≡ (if ltb j n then 0 else slot t j))
        → (j : ℕ) → slot (0 ∷ t') j ≡ (if ltb j (suc n) then 0 else slot (x ∷ t) j)
    cleared t' at zero = ground arith
    cleared t' at (suc j) = ground (arith, at j)

abbrev pub Cleared : Table → Table → Type 0
Cleared t t' =
    (length t' ≡ slots) × ((j : ℕ) → slot t' j ≡ (if ltb j jumptable1_size then 0 else slot t j))

abbrev pub AllCleared : ℕ → List Table → List Table → Type 0
AllCleared zero ts ts' = ts' ≡ ts
AllCleared (suc n) [] ts' = ⊥
AllCleared (suc n) (t ∷ ts) [] = ⊥
AllCleared (suc n) (t ∷ ts) (t' ∷ ts') = Cleared t t' × AllCleared n ts ts'

-- With a table of 4100 slots for each processor, `clear_jumptable1` returns, empties the 4096 slots
-- that an index reaches in the table of each of the first `n` processors, and leaves the four slots
-- behind them, into which entries move up, and the tables of other processors as they are.
pub clear_jumptable1-AllCleared :
    (n : ℕ) (ts : List Table)
    → n ≤ length ts
    → All (λ (t : Table). length t ≡ slots) ts
    → (ts' : List Table) × (clear_jumptable1 n ts ≡ ok ts') × AllCleared n ts ts'
unfolding clear_jumptable1
clear_jumptable1-AllCleared zero ts h wide = (ts, refl, refl)
clear_jumptable1-AllCleared (suc n) [] h wide = absurd (omega arith)
clear_jumptable1-AllCleared (suc n) (t ∷ ts) h wide =
    let (t', run, size, at) = clear_table_lem jumptable1_size t (omega (arith, wide.0)) in
    let (ts', run', rest) = clear_jumptable1-AllCleared n ts (omega arith) wide.1 in
    (t' ∷ ts', rw (run, ◌>>=◌, run'), ((size ∙ wide.0, at), rest))
