-- ===== src/Assignments/Random.antt =====
-- The constants that btmod/bt/peep/assignments.c picks for the variables of a rule.
use btkernel.Base.{
  ℕ, zero, suc, ◌+◌, ◌%◌, ◌^◌, Bool, true, false, not, ◌||◌, Option, none, some, List, [], ◌∷◌,
  ◌==◌, if◌then◌else◌, Run, assert, ok, ◌>>=◌, ◌>>◌,
}
use btkernel.Insntypes.{tag_const, num_regs}
use btkernel.Operand.{op_reg, op_seg, op_imm, op_prefix, type_eq, Operand}
use btkernel.Assignments.{Assignments, is_const, is_reg, assignments_add, assignment_is_coherent}

-- The loops over `used_consts`: whether there is a register among them. Each of the registers, or
-- segments, is then marked as used.
pub used_loop : List Operand → Run Bool
used_loop [] = ok false
used_loop (c ∷ used_consts) = do
  assert (not (is_reg c) || is_const c)
  used ← used_loop used_consts
  ok (is_reg c || used)

abbrev pub mark : (ℕ → Bool) → ℕ → ℕ → Bool
mark used r j = if j == r then true else used j

-- `regcons`: register `r` for the variable
abbrev pub regcons : Operand → ℕ → Operand
regcons var r = record var { type = op_reg; val = r; tag = tag_const }

-- The loop over the registers, from the last one down, with `n` of them left: the first that is free
-- and coherent.
pub pick_reg : (ℕ → Bool) → Operand → ℕ → Run (Option ℕ)
pick_reg used var zero = ok none
pick_reg used var (suc r) = elim (used r) [
  | true ↦ pick_reg used var r
  | false ↦ do
    coherent ← assignment_is_coherent var (regcons var r)
    elim coherent [ true ↦ ok (some r) | false ↦ pick_reg used var r ]
]

-- The loop over the variables; `none` is its `return false`.
pub regs_loop : (ℕ → Bool) → Assignments → List Operand → Run (Option Assignments)
regs_loop used assignments [] = ok (some assignments)
regs_loop used assignments (var ∷ vars) = elim (is_reg var) [
  | false ↦ regs_loop used assignments vars
  | true ↦ do
    assert (not (is_const var))
    found ← pick_reg used var num_regs
    elim found [
      | none ↦ ok none
      | some r ↦ do
        assignments' ← assignments_add assignments var (regcons var r)
        regs_loop (mark used r) assignments' vars
    ]
]

pub variables_assign_random_regs :
    Assignments → List Operand → List Operand → Run (Option Assignments)
variables_assign_random_regs assignments vars used_consts = do
  used ← used_loop used_consts
  regs_loop (λ r. used) assignments vars

-- The loop over the segments with `n` of them left, the first of them `s`.
pub pick_seg : (ℕ → Bool) → ℕ → ℕ → Option ℕ
pick_seg used zero s = none
pick_seg used (suc n) s = elim (used s) [ true ↦ pick_seg used n (s + 1) | false ↦ some s ]

pub segs_loop : (ℕ → Bool) → Assignments → List Operand → Run (Option Assignments)
segs_loop used assignments [] = ok (some assignments)
segs_loop used assignments (var ∷ vars) = elim (type_eq var.type op_seg) [
  | false ↦ segs_loop used assignments vars
  | true ↦ do
    assert (not (is_const var))
    elim (pick_seg used 5 0) [
      | none ↦ ok none
      | some s ↦ do
        assert (var.size == 0)
        assignments' ←
            assignments_add assignments var (record var { size = 0; val = s; tag = tag_const })
        segs_loop (mark used s) assignments' vars
    ]
]

pub variables_assign_random_segs :
    Assignments → List Operand → List Operand → Run (Option Assignments)
variables_assign_random_segs assignments vars used_consts = do
  used ← used_loop used_consts
  segs_loop (λ s. used) assignments vars

-- `variables_assign_random_consts`; VAR_CONST adds 0x70.
pub variables_assign_random_consts : Assignments → List Operand → Run Assignments
variables_assign_random_consts assignments [] = ok assignments
variables_assign_random_consts assignments (var ∷ vars) = elim (type_eq var.type op_imm) [
  | false ↦ variables_assign_random_consts assignments vars
  | true ↦ do
    assert (not (is_const var))
    assignments' ←
        assignments_add assignments var
          (record var { val = (112 + var.val) % 2 ^ 64; tag = tag_const })
    variables_assign_random_consts assignments' vars
]

pub variables_assign_random_prefix : Assignments → List Operand → Run Assignments
variables_assign_random_prefix assignments [] = ok assignments
variables_assign_random_prefix assignments (var ∷ vars) = elim (type_eq var.type op_prefix) [
  | false ↦ variables_assign_random_prefix assignments vars
  | true ↦ do
    assert (not (is_const var))
    assignments' ← assignments_add assignments var (record var { val = 0; tag = tag_const })
    variables_assign_random_prefix assignments' vars
]
