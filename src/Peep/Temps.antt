-- ===== src/Peep/Temps.antt =====
-- The choice of the temporary registers of a peephole rule, `find_temporary_regs` of
-- btmod/bt/peep/peep.c, without the message that it prints when it fails.
pub mod Free
pub mod Distinct
pub mod Returns
pub mod Chooses
use btkernel.Base.{
  ℕ, zero, suc, ◌+◌, Bool, true, false, not, ◌&&◌, Option, none, some, List, [], ◌∷◌, ltb, ◌==◌,
  if◌then◌else◌, Run, assert, ◌>>=◌, read, ok, ◌>>◌,
}
use btkernel.Insntypes.{Tag, tag_const, tag_var, tag_eq, num_regs, max_temporaries, temp_reg0}
use btkernel.NomatchPair.{NomatchPair}
use btkernel.Regset.{update}
use btkernel.Operand.{Operand, op_reg, type_eq, scalar}
use btkernel.Assignments.{
  Assignments, is_const, is_reg, assignment_is_coherent, assignments_get_regs,
}

-- `otherval` and `othertag`: the other register of the pair when the temporary is in it.
abbrev pub other_of : ℕ → NomatchPair → Option (ℕ × Tag)
other_of tempno p =
    if (p.reg2 == temp_reg0 + tempno) && tag_eq p.tag2 tag_var
    then some (p.reg1, p.tag1)
    else if (p.reg1 == temp_reg0 + tempno) && tag_eq p.tag1 tag_var
    then some (p.reg2, p.tag2)
    else none

-- The inner loop, over the indices of the assigned registers.
unfoldable pub taken_loop : Assignments → ℕ → ℕ → List ℕ → Run Bool
taken_loop assignments otherval reg [] = ok false
taken_loop assignments otherval reg (r ∷ indices) = do
  a ← read assignments r
  assert (is_reg a.var)
  assert (is_reg a.val)
  assert (not (is_const a.var))
  assert (is_const a.val)
  assert (ltb a.var.val temp_reg0)
  elim ((otherval == a.var.val) && (reg == a.val.val)) [
    | true ↦ ok true
    | false ↦ taken_loop assignments otherval reg indices
  ]

-- One round of the outer loop.
unfoldable pub pair_violates : ℕ → ℕ → Assignments → NomatchPair → Run Bool
pair_violates tempno reg assignments p = elim (other_of tempno p) [
  | none ↦ ok false
  | some (otherval, othertag) ↦
      if tag_eq othertag tag_const
      then ok (otherval == reg)
      else if ltb otherval temp_reg0
      then assignments_get_regs assignments >>= taken_loop assignments otherval reg
      else ok false
]

unfoldable pub temp_assignment_violates_nomatch_pairs :
    ℕ → ℕ → Assignments → List NomatchPair → Run Bool
temp_assignment_violates_nomatch_pairs tempno reg assignments [] = ok false
temp_assignment_violates_nomatch_pairs tempno reg assignments (p ∷ pairs) = do
  violates ← pair_violates tempno reg assignments p
  elim violates [
    | true ↦ ok true
    | false ↦ temp_assignment_violates_nomatch_pairs tempno reg assignments pairs
  ]

-- The three tests of a register, in the order of the code.
unfoldable pub is_free : ℕ → Tag → Assignments → List NomatchPair → (ℕ → Bool) → ℕ → Run Bool
is_free j tag assignments pairs temp_regs r = do
  coherent ← assignment_is_coherent (scalar op_reg 4 0 tag) (scalar op_reg 4 r tag_const)
  if coherent && not (temp_regs r)
      then (temp_assignment_violates_nomatch_pairs j r assignments pairs >>= λ violates.
          ok (not violates))
      else ok false

-- The loop over the registers below a number, from the highest one down.
unfoldable pub pick : ℕ → Tag → Assignments → List NomatchPair → (ℕ → Bool) → ℕ → Run (Option ℕ)
pick j tag assignments pairs temp_regs zero = ok none
pick j tag assignments pairs temp_regs (suc r) = do
  free ← is_free j tag assignments pairs temp_regs r
  elim free [ true ↦ ok (some r) | false ↦ pick j tag assignments pairs temp_regs r ]

-- The loop over the temporaries from number `j` on; `none` is the result false.
unfoldable pub temporaries_from :
    ℕ → List Tag → Assignments → List NomatchPair → (ℕ → Bool) → Run (Option (List ℕ))
temporaries_from j [] assignments pairs temp_regs = ok (some [])
temporaries_from j (tag ∷ tags) assignments pairs temp_regs = do
  found ← pick j tag assignments pairs temp_regs num_regs
  elim found [
    | none ↦ ok none
    | some r ↦ do
      assert (ltb j max_temporaries)
      assert (ltb r num_regs)
      rest ← temporaries_from (j + 1) tags assignments pairs (update temp_regs r true)
      ok (elim rest [ none ↦ none | some rs ↦ some (r ∷ rs) ])
  ]

unfoldable pub find_temporary_regs :
    List Tag → Assignments → List NomatchPair → Run (Option (List ℕ))
find_temporary_regs tags assignments pairs = temporaries_from 0 tags assignments pairs (λ r. false)
