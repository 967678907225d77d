-- ===== src/Peep/Temps/Returns.antt =====
-- `temp_assignment_violates_nomatch_pairs` of btmod/bt/peep/peep.c returns on proper assignments,
-- and what it says of a register is right.
use btkernel.Base.{
  ℕ, suc, ◌<◌, ◌≡◌, refl, sym, ap, ◌∙◌, ◌≢◌, ◌⊎◌, inl, inr, Bool, true, false, ◌&&◌, Option, none,
  some, List, [], ◌∷◌, ltb, ◌==◌, if◌then◌else◌, ltb→lt, lt→ltb, ==_iff, Bool-cases, and_parts,
  get_elem?, All, Run, ◌>>=◌, read-some, ok,
}
use mathlib.Core.Bool.{false≢true}
use btkernel.Insntypes.{Tag, tag_const, tag_eq, temp_reg0}
use btkernel.NomatchPair.{NomatchPair}
use btkernel.Operand.Equal.{tag_eq→eq, type_eq→eq}
use btkernel.Assignments.{Assignments, assignments_get_regs}
use btkernel.Assignments.Indices.{IsProper, IsRegister, assignments_get_regs-IsRegister}
use btkernel.Peep.Temps.{
  other_of, taken_loop, pair_violates, temp_assignment_violates_nomatch_pairs,
}
use btkernel.Peep.Temps.Free.{Taken, Clash, other_of-Other}

-- The run returns a Boolean, and when it is true, `P` holds.
abbrev pub Tells : Run Bool → Type 0 → Type 0
Tells run P = (run ≡ ok false) ⊎ (run ≡ ok true) × P

taken_loop-Tells :
    (A : Assignments) (v t : ℕ) (indices : List ℕ)
    → All (IsRegister A) indices
    → Tells (taken_loop A v t indices) (Taken A v t)
unfolding taken_loop
taken_loop-Tells A v t [] h = inl refl
taken_loop-Tells A v t (r ∷ indices) ((a, found, var, val, no_const, const, low), hs) =
    let start : taken_loop A v t (r ∷ indices) ≡ elim ((v == a.var.val) && (t == a.val.val)) [
      | true ↦ ok true
      | false ↦ taken_loop A v t indices
    ] =
      rw (taken_loop, read-some A r found, ◌>>=◌, var, val, no_const, const, lt→ltb _ _ low) in
    elim (Bool-cases ((v == a.var.val) && (t == a.val.val))) [
      | inl hit ↦
          let (same_var, same_val) = and_parts (v == a.var.val) _ hit in
          inr (
            start ∙ rw hit,
            (
              r,
              a,
              found,
              type_eq→eq _ _ var,
              sym ((==_iff _ _).0 same_var),
              sym ((==_iff _ _).0 same_val),
            ),
          )
      | inr miss ↦ elim (taken_loop-Tells A v t indices hs) [
        | inl e ↦ inl (start ∙ rw (miss, e))
        | inr (e, taken) ↦ inr (start ∙ rw (miss, e), taken)
      ]
    ]

-- The last test of a pair, for its other register.
abbrev test_other : Assignments → ℕ → ℕ → Tag → Run Bool
test_other A t v w =
    if tag_eq w tag_const
    then ok (v == t)
    else if ltb v temp_reg0
    then assignments_get_regs A >>= taken_loop A v t
    else ok false

test_other-Tells :
    (A : Assignments) (t v : ℕ) (w : Tag)
    → All IsProper A
    → Tells
        (test_other A t v w)
        (((w ≡ tag_const) × (v ≡ t)) ⊎ (w ≢ tag_const) × (v < temp_reg0) × Taken A v t)
test_other-Tells A t v w proper = elim (Bool-cases (tag_eq w tag_const)) [
  | inl const ↦ elim (Bool-cases (v == t)) [
    | inl same ↦ inr (rw (const, same), inl (tag_eq→eq _ _ const, (==_iff _ _).0 same))
    | inr differ ↦ inl (rw (const, differ))
  ]
  | inr var ↦ elim (Bool-cases (ltb v temp_reg0)) [
    | inr high ↦ inl (rw (var, high))
    | inl low ↦
        let (indices, e, registers) = assignments_get_regs-IsRegister A proper in
        elim (taken_loop-Tells A v t indices registers) [
          | inl free ↦ inl (rw (var, low, e, ◌>>=◌, free))
          | inr (taken, entry) ↦ inr (
            rw (var, low, e, ◌>>=◌, taken),
            inr (λ c. false≢true (sym var ∙ ap (λ u. tag_eq u tag_const) c), ltb→lt _ _ low, entry),
          )
        ]
  ]
]

pair_violates-Tells :
    (A : Assignments) (j t : ℕ) (p : NomatchPair)
    → All IsProper A
    → Tells (pair_violates j t A p) (Clash A j t p)
unfolding pair_violates
pair_violates-Tells A j t p proper = split (other_of j p) refl
  where
    split :
        (other : Option (ℕ × Tag))
        → other_of j p ≡ other
        → Tells (pair_violates j t A p) (Clash A j t p)
    split none e = inl (rw (pair_violates, e))
    split (some (v, w)) e = elim (test_other-Tells A t v w proper) [
      | inl free ↦ inl (rw (pair_violates, e) free)
      | inr (clash, why) ↦ inr (rw (pair_violates, e) clash, (v, w, other_of-Other j p v w e, why))
    ]

-- On proper assignments the test returns, and when it answers true some pair clashes.
pub violates-Tells :
    (A : Assignments) (j t : ℕ) (pairs : List NomatchPair)
    → All IsProper A
    → Tells
        (temp_assignment_violates_nomatch_pairs j t A pairs)
        ((n : ℕ) × (p : NomatchPair) × (get_elem? pairs n ≡ some p) × Clash A j t p)
unfolding temp_assignment_violates_nomatch_pairs
violates-Tells A j t [] proper = inl refl
violates-Tells A j t (p ∷ pairs) proper = elim (pair_violates-Tells A j t p proper) [
  | inr (e, clash) ↦ inr (rw (e, ◌>>=◌), (0, p, refl, clash))
  | inl e ↦ elim (violates-Tells A j t pairs proper) [
    | inl free ↦ inl (rw (e, ◌>>=◌, free))
    | inr (some_clash, (n, q, at, clash)) ↦ inr (rw (e, ◌>>=◌, some_clash), (suc n, q, at, clash))
  ]
]
