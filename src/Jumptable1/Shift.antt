-- ===== src/Jumptable1/Shift.antt =====
-- What one call of `jumptable1_add` leaves in each slot.
use btkernel.Base.{
  ℕ, ◌+◌, ◌/◌, ◌%◌, ◌^◌, ◌<◌, ◌≡◌, ◌∙◌, ◌≢◌, Bool, false, not, ◌&&◌, arith, ℕ_discrete, ◌==◌,
  if◌then◌else◌, length, get_or, set, length-set, get_or-set, ◌>>=◌, read-get_or, write-set,
  bit_or-shift, ok,
}
use btkernel.Jumptable1.{jumptable1_size, Table, entry, jumptable1_add}

abbrev pub slots : ℕ
slots = 4100

abbrev pub slot : Table → ℕ → ℕ
slot t i = get_or t i 0

abbrev pub occupied : Table → ℕ → Bool
occupied t i = not (slot t i == 0)

-- The slot `j` after an insertion of `e` at `i`: the run of occupied slots at `i`, three of them at
-- most, has moved up by one.
abbrev pub inserted : Table → ℕ → ℕ → ℕ → ℕ
inserted t i e j =
    if j == i
    then e
    else if (j == i + 1) && occupied t i
    then slot t i
    else if (j == i + 2) && (occupied t i && occupied t (i + 1))
    then slot t (i + 1)
    else if (j == i + 3) && (occupied t i && (occupied t (i + 1) && occupied t (i + 2)))
    then slot t (i + 2)
    else slot t j

-- The bits of a slot are the two addresses.
pub entry_lem :
    (eip tc_ptr : ℕ)
    → eip < 2 ^ 32
    → (entry eip tc_ptr / 2 ^ 32 ≡ tc_ptr) × (entry eip tc_ptr % 2 ^ 32 ≡ eip)
unfolding entry
entry_lem eip tc_ptr h =
    let e = bit_or-shift 32 tc_ptr eip h in (rw e (omega arith), rw e (omega arith))

module _ (t : Table) (eip tc_ptr : ℕ) (wide : length t ≡ slots) where
  home : ℕ
  home = eip % jumptable1_size

  home-lt : home < 4096
  unfolding home
  home-lt = omega arith

  abbrev Leaves : Table → Type 0
  Leaves t' =
      (jumptable1_add t eip tc_ptr ≡ ok t')
      × (length t' ≡ slots)
      × ((j : ℕ) → slot t' j ≡ inserted t home (entry eip tc_ptr) j)

  none_moves : slot t home ≡ 0 → Leaves (set t home (entry eip tc_ptr))
  unfolding jumptable1_add home
  none_moves e₀ =
      let lt = home-lt in
      (
        rw (
          read-get_or t home 0 (omega arith),
          ◌>>=◌,
          e₀,
          write-set t home (entry eip tc_ptr) (omega arith),
        ),
        length-set t home (entry eip tc_ptr) ∙ wide,
        λ j. get_or-set t home j (entry eip tc_ptr) 0 (omega arith) ∙ ground (arith, e₀),
      )

  -- The three deeper shifts; `up` is the table with the slots above `home` written.
  module _ (e₀ : slot t home ≢ 0) where
    first : slot t home == 0 ≡ false
    first = ground arith

    one_moves :
        slot t (home + 1) ≡ 0
        → Leaves (set (set t (home + 1) (slot t home)) home (entry eip tc_ptr))
    unfolding jumptable1_add home
    one_moves e₁ =
        let lt = home-lt in
        let v₀ = slot t home in
        let up = set t (home + 1) v₀ in
        let wide₁ = length-set t (home + 1) v₀ ∙ wide in
        (
          rw (
            read-get_or t home 0 (omega arith),
            ◌>>=◌,
            first,
            read-get_or t (home + 1) 0 (omega arith),
            e₁,
            write-set t (home + 1) v₀ (omega arith),
            write-set up home (entry eip tc_ptr) (omega arith),
          ),
          length-set up home (entry eip tc_ptr) ∙ wide₁,
          λ j.
              get_or-set up home j (entry eip tc_ptr) 0 (omega arith)
              ∙ ground (arith, get_or-set t (home + 1) j v₀ 0, e₁),
        )

    module _ (e₁ : slot t (home + 1) ≢ 0) where
      second : slot t (home + 1) == 0 ≡ false
      second = ground arith

      two_move :
          slot t (home + 2) ≡ 0
          → Leaves (
              set
                (set (set t (home + 2) (slot t (home + 1))) (home + 1) (slot t home))
                home
                (entry eip tc_ptr))
      unfolding jumptable1_add home
      two_move e₂ =
          let lt = home-lt in
          let v₀ = slot t home in
          let v₁ = slot t (home + 1) in
          let up₂ = set t (home + 2) v₁ in
          let up₁ = set up₂ (home + 1) v₀ in
          let wide₂ = length-set t (home + 2) v₁ ∙ wide in
          let wide₁ = length-set up₂ (home + 1) v₀ ∙ wide₂ in
          (
            rw (
              read-get_or t home 0 (omega arith),
              ◌>>=◌,
              first,
              read-get_or t (home + 1) 0 (omega arith),
              second,
              read-get_or t (home + 2) 0 (omega arith),
              e₂,
              write-set t (home + 2) v₁ (omega arith),
              write-set up₂ (home + 1) v₀ (omega arith),
              write-set up₁ home (entry eip tc_ptr) (omega arith),
            ),
            length-set up₁ home (entry eip tc_ptr) ∙ wide₁,
            λ j.
                get_or-set up₁ home j (entry eip tc_ptr) 0 (omega arith)
                ∙ ground
                    (arith, get_or-set up₂ (home + 1) j v₀ 0, get_or-set t (home + 2) j v₁ 0, e₂),
          )

      three_move :
          slot t (home + 2) ≢ 0
          → Leaves (
              set
                (set
                  (set (set t (home + 3) (slot t (home + 2))) (home + 2) (slot t (home + 1)))
                  (home + 1)
                  (slot t home))
                home
                (entry eip tc_ptr))
      unfolding jumptable1_add home
      three_move e₂ =
          let lt = home-lt in
          let v₀ = slot t home in
          let v₁ = slot t (home + 1) in
          let v₂ = slot t (home + 2) in
          let third : v₂ == 0 ≡ false = ground arith in
          let up₃ = set t (home + 3) v₂ in
          let up₂ = set up₃ (home + 2) v₁ in
          let up₁ = set up₂ (home + 1) v₀ in
          let wide₃ = length-set t (home + 3) v₂ ∙ wide in
          let wide₂ = length-set up₃ (home + 2) v₁ ∙ wide₃ in
          let wide₁ = length-set up₂ (home + 1) v₀ ∙ wide₂ in
          (
            rw (
              read-get_or t home 0 (omega arith),
              ◌>>=◌,
              first,
              read-get_or t (home + 1) 0 (omega arith),
              second,
              read-get_or t (home + 2) 0 (omega arith),
              third,
              write-set t (home + 3) v₂ (omega arith),
              write-set up₃ (home + 2) v₁ (omega arith),
              write-set up₂ (home + 1) v₀ (omega arith),
              write-set up₁ home (entry eip tc_ptr) (omega arith),
            ),
            length-set up₁ home (entry eip tc_ptr) ∙ wide₁,
            λ j.
                get_or-set up₁ home j (entry eip tc_ptr) 0 (omega arith)
                ∙ ground (
                  arith,
                  get_or-set up₂ (home + 1) j v₀ 0,
                  get_or-set up₃ (home + 2) j v₁ 0,
                  get_or-set t (home + 3) j v₂ 0,
                ),
          )

  -- On a table of 4100 slots, for a 32-bit address, `jumptable1_add` stays within the table and
  -- keeps its size. The slot of the address, which is its remainder modulo 4096, holds the pair of
  -- the source address and the target, as the low and the high word; what stood there has moved up
  -- by one, and so have the next one and the one after it while the slots before them were
  -- occupied; every other slot is as it was.
  pub jumptable1_add-inserted :
      eip < 2 ^ 32
      → (t' : Table) × (jumptable1_add t eip tc_ptr ≡ ok t')
        × (length t' ≡ slots)
        × ((j : ℕ) → slot t' j ≡ inserted t (eip % jumptable1_size) (entry eip tc_ptr) j)
        × (entry eip tc_ptr / 2 ^ 32 ≡ tc_ptr)
        × (entry eip tc_ptr % 2 ^ 32 ≡ eip)
  unfolding home
  jumptable1_add-inserted word =
      let (high, low) = entry_lem eip tc_ptr word in
      let (t', (run, size, at)) = shifted in (t', run, size, at, high, low)
    where
      shifted : (t' : Table) × Leaves t'
      shifted = elim (ℕ_discrete (slot t home) 0) [
        | yes e₀ ↦ (_, none_moves e₀)
        | no e₀ ↦ elim (ℕ_discrete (slot t (home + 1)) 0) [
          | yes e₁ ↦ (_, one_moves e₀ e₁)
          | no e₁ ↦ elim (ℕ_discrete (slot t (home + 2)) 0) [
            | yes e₂ ↦ (_, two_move e₀ e₁ e₂)
            | no e₂ ↦ (_, three_move e₀ e₁ e₂)
          ]
        ]
      ]
