-- ===== src/Jumptable1/History.antt =====
-- Sequences of insertions into a jump table: what is found there was put there, for that address.
use btkernel.Base.{
  ℕ, suc, ◌+◌, ◌%◌, ◌^◌, ◌<◌, ◌≡◌, refl, ◌∙◌, ◌≢◌, ◌⊎◌, inl, inr, Bool, true, false, some, List, [],
  ◌∷◌, arith, ℕ_discrete, if◌then◌else◌, length, get_elem?, All, Run, ◌>>=◌, ok,
}
use btkernel.Jumptable1.{Table, entry, jumptable1_add}
use btkernel.Jumptable1.Shift.{slots, slot, inserted, jumptable1_add-inserted}

-- Three occupied slots in a row.
abbrev pub RunAt : Table → ℕ → Type 0
RunAt t i = (slot t i ≢ 0) × (slot t (i + 1) ≢ 0) × (slot t (i + 2) ≢ 0)

-- An occupied slot keeps its value, or hands it to the slot above, or is the fourth of a run of
-- occupied slots and gives its value up.
inserted-kept :
    (t : Table) (i e j : ℕ)
    → slot t j ≢ 0
    → (inserted t i e j ≡ slot t j)
      ⊎ ((inserted t i e (j + 1) ≡ slot t j) ⊎ (j ≡ i + 3) × RunAt t i)
inserted-kept t i e j ne = elim (ℕ_discrete j i) [
  | yes p ↦ inr (inl (ground arith))
  | no p₀ ↦ elim (ℕ_discrete (slot t i) 0) [
    | yes z₀ ↦ inl (ground arith)
    | no o₀ ↦ elim (ℕ_discrete j (i + 1)) [
      | yes p ↦ inr (inl (ground arith))
      | no p₁ ↦ elim (ℕ_discrete (slot t (i + 1)) 0) [
        | yes z₁ ↦ inl (ground arith)
        | no o₁ ↦ elim (ℕ_discrete j (i + 2)) [
          | yes p ↦ inr (inl (ground arith))
          | no p₂ ↦ elim (ℕ_discrete (slot t (i + 2)) 0) [
            | yes z₂ ↦ inl (ground arith)
            | no o₂ ↦ elim (ℕ_discrete j (i + 3)) [
              | yes p ↦ inr (inr (p, (o₀, o₁, o₂)))
              | no p₃ ↦ inl (ground arith)
            ]
          ]
        ]
      ]
    ]
  ]
]

-- A slot holds the new value or one that stood somewhere in the table.
abbrev pub Sourced : Table → ℕ → ℕ → Type 0
Sourced t e v = (v ≡ e) ⊎ ((k : ℕ) × (v ≡ slot t k))

if-Sourced :
    (t : Table) (e : ℕ) (c : Bool) (x y : ℕ)
    → Sourced t e x
    → Sourced t e y
    → Sourced t e (if c then x else y)
if-Sourced t e true x y p q = p
if-Sourced t e false x y p q = q

inserted-Sourced : (t : Table) (i e j : ℕ) → Sourced t e (inserted t i e j)
inserted-Sourced t i e j = if-Sourced t e _ _ _ (inl refl) (
    if-Sourced t e _ _ _ (inr (i, refl)) (
      if-Sourced t e _ _ _ (inr (i + 1, refl))
        (if-Sourced t e _ _ _ (inr (i + 2, refl)) (inr (j, refl)))))

-- On a table of 4100 slots, for a 32-bit address: where a slot held something before an insertion,
-- the same value is afterwards in that slot or in the next one, unless the slot was the fourth of
-- a run of occupied slots at the address's slot; and what any slot holds afterwards is the new
-- entry or stood in the table before.
pub jumptable1_add-kept :
    (t : Table) (eip tc_ptr : ℕ)
    → length t ≡ slots
    → eip < 2 ^ 32
    → (t' : Table) × (jumptable1_add t eip tc_ptr ≡ ok t')
      × ((j : ℕ)
          → slot t j ≢ 0
          → (slot t' j ≡ slot t j)
            ⊎ ((slot t' (j + 1) ≡ slot t j) ⊎ (j ≡ eip % 4096 + 3) × RunAt t (eip % 4096)))
      × ((j : ℕ) → Sourced t (entry eip tc_ptr) (slot t' j))
jumptable1_add-kept t eip tc_ptr wide word =
    let (t', run, size, at, high, low) = jumptable1_add-inserted t eip tc_ptr wide word in
    (
      t',
      run,
      λ j ne. rw (at j, at (j + 1)) (inserted-kept t (eip % 4096) (entry eip tc_ptr) j ne),
      λ j. rw (at j) (inserted-Sourced t (eip % 4096) (entry eip tc_ptr) j),
    )

-- A registration: the source address and the target.
abbrev pub Target : Type 0
Target = ℕ × ℕ

pub add_all : Table → List Target → Run Table
add_all t [] = ok t
add_all t ((eip, tc_ptr) ∷ rest) = do t' ← jumptable1_add t eip tc_ptr; add_all t' rest

-- Every slot that is not empty is the entry of a registration.
abbrev pub IsFrom : List Target → Table → Type 0
IsFrom history t =
    (j : ℕ)
    → (slot t j ≡ 0)
      ⊎ ((n : ℕ) × (eip : ℕ) × (tc_ptr : ℕ) × (get_elem? history n ≡ some (eip, tc_ptr))
          × (slot t j ≡ entry eip tc_ptr))

IsFrom-add :
    (history : List Target) (t t' : Table) (eip tc_ptr : ℕ)
    → IsFrom history t
    → ((j : ℕ) → Sourced t (entry eip tc_ptr) (slot t' j))
    → IsFrom ((eip, tc_ptr) ∷ history) t'
IsFrom-add history t t' eip tc_ptr from sourced j = elim (sourced j) [
  | inl e ↦ inr (0, eip, tc_ptr, refl, e)
  | inr (k, e) ↦ elim (from k) [
    | inl z ↦ inl (e ∙ z)
    | inr (n, a, b, found, g) ↦ inr (suc n, a, b, found, e ∙ g)
  ]
]

-- The registrations, the latest first.
abbrev pub recorded : List Target → List Target → List Target
recorded history [] = history
recorded history (r ∷ rest) = recorded (r ∷ history) rest

abbrev pub AllWords : List Target → Type 0
AllWords reqs = All (λ (r : Target). r.0 < 2 ^ 32) reqs

pub add_all-IsFrom :
    (history reqs : List Target) (t : Table)
    → length t ≡ slots
    → AllWords reqs
    → IsFrom history t
    → (t' : Table) × (add_all t reqs ≡ ok t')
      × (length t' ≡ slots)
      × IsFrom (recorded history reqs) t'
unfolding add_all
add_all-IsFrom history [] t wide words from = (t, refl, wide, from)
add_all-IsFrom history ((eip, tc_ptr) ∷ rest) t wide words from =
    let (next, run, size, at, high, low) = jumptable1_add-inserted t eip tc_ptr wide words.0 in
    let sourced : (j : ℕ) → Sourced t (entry eip tc_ptr) (slot next j) =
      λ j. rw (at j) (inserted-Sourced t (eip % 4096) (entry eip tc_ptr) j) in
    let (t', run', size', from') =
      add_all-IsFrom ((eip, tc_ptr) ∷ history) rest next size words.1
        (IsFrom-add history t next eip tc_ptr from sourced) in
    (t', rw (run, ◌>>=◌) run', size', from')
