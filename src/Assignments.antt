-- ===== src/Assignments.antt =====
-- Assignments of constants to the variables of a peephole rule, btmod/bt/peep/assignments.c and
-- peep/assignments.h. The array with its count is the list of the entries that count.
pub mod Random
pub mod Tags
pub mod Assigns
pub mod Lookup
pub mod Indices
use btkernel.Base.{
  ℕ, ◌+◌, Bool, true, false, not, ◌&&◌, ◌||◌, Option, none, some, List, [], ◌∷◌, ◌++◌, ltb, leb,
  ◌==◌, if◌then◌else◌, length, Run, assert, ◌>>◌, panic, ok, stop, ◌>>=◌,
}
use btkernel.Insntypes.{
  Tag, tag_const, tag_var, tag_eax, tag_abcd, tag_no_esp, tag_no_eax, tag_no_eax_esp, tag_no_cs_gs,
  tag_cs_gs, tag_eq, num_regs, max_temporaries, temp_reg0,
}
use btkernel.Operand.{
  OperType, op_reg, op_seg, op_imm, op_prefix, type_eq, Operand, scalar, operands_equal,
}

-- an element of `arr`
pub record Assignment : Type 0 where
  pub var : Operand
  pub val : Operand

abbrev pub Assignments : Type 0
Assignments = List Assignment

abbrev pub max_variables : ℕ
max_variables = 8

abbrev pub is_const : Operand → Bool
is_const op = tag_eq op.tag tag_const

abbrev pub is_reg : Operand → Bool
is_reg op = type_eq op.type op_reg

-- The loop of `assignments_getval`. A register variable is also found in another size.
unfoldable pub getval_loop : Assignments → Operand → Run (Option Operand)
getval_loop [] templ = ok none
getval_loop (a ∷ rest) templ = do
  same ← operands_equal a.var templ
  elim same [
    | true ↦ ok (some a.val)
    | false ↦ elim (is_reg templ && is_reg a.var) [
      | false ↦ getval_loop rest templ
      | true ↦ assert (not (is_const templ)) >> elim (templ.val == a.var.val) [
        | false ↦ getval_loop rest templ
        | true ↦
            assert (ltb templ.size a.var.size) >> ok (some (record a.val { size = templ.size }))
      ]
    ]
  ]

unfoldable pub assignments_getval : Assignments → Operand → Run (Option Operand)
assignments_getval assignments templ = do
  assert (not (is_const templ))
  getval_loop assignments templ

-- The entry that `assignments_add` stores: a register is assigned as a whole.
unfoldable pub whole : Operand → Operand → Run Assignment
whole templ op =
    if is_reg templ && not (templ.size == 4)
    then (assert (leb templ.size 4)
        >> (assert (leb op.size 4)
            >> ok (record { var = record templ { size = 4 }; val = record op { size = 4 } })))
    else ok (record { var = templ; val = op })

unfoldable pub assignments_add : Assignments → Operand → Operand → Run Assignments
assignments_add assignments templ op = do
  assert (ltb (length assignments) max_variables)
  a ← whole templ op
  ok (assignments ++ a ∷ [])

unfoldable pub append_assignments : Assignments → Assignments → Run Assignments
append_assignments assignments new_assignments = do
  assert (ltb (length assignments + length new_assignments) max_variables)
  ok (assignments ++ new_assignments)

-- `val_satisfies_tag`, where a value has the bits of its field
unfoldable pub val_satisfies_tag : ℕ → Tag → Run Bool
val_satisfies_tag val tag_var = ok true
val_satisfies_tag val tag_eax = ok (val == 0)
val_satisfies_tag val tag_abcd = ok (leb val 3)
val_satisfies_tag val tag_no_esp = ok (not (val == 4))
val_satisfies_tag val tag_no_eax = ok (not (val == 0))
val_satisfies_tag val tag_no_eax_esp = ok (not (val == 0) && not (val == 4))
val_satisfies_tag val tag_no_cs_gs = ok (not (val == 5) && not (val == 1))
val_satisfies_tag val tag_cs_gs = ok ((val == 5) || (val == 1))
val_satisfies_tag val tag_const = stop panic

unfoldable pub assignment_is_coherent : Operand → Operand → Run Bool
assignment_is_coherent var val = do
  assert (type_eq var.type val.type)
  if type_eq var.type op_reg || type_eq var.type op_seg
      then (assert (not (is_const var))
          >> (assert (is_const val) >> val_satisfies_tag val.val var.tag))
      else ok true

pub assignments_are_coherent : Assignments → Run Bool
assignments_are_coherent [] = ok true
assignments_are_coherent (a ∷ rest) = do
  coherent ← assignment_is_coherent a.var a.val
  elim coherent [ true ↦ assignments_are_coherent rest | false ↦ ok false ]

-- The indices of the entries of a type, as `assignments_get_regs` and `assignments_get_segs` list
-- them; the tag of a segment is read as that of a register, which lies over it.
unfoldable pub indices_loop : OperType → Assignments → ℕ → Run (List ℕ)
indices_loop type [] i = ok []
indices_loop type (a ∷ rest) i = do
  assert (
      not (type_eq a.var.type type)
      || (type_eq a.val.type type && (not (is_const a.var) && is_const a.val)))
  indices ← indices_loop type rest (i + 1)
  ok (if type_eq a.var.type type then i ∷ indices else indices)

unfoldable pub assignments_get_regs : Assignments → Run (List ℕ)
assignments_get_regs assignments = indices_loop op_reg assignments 0

pub assignments_get_segs : Assignments → Run (List ℕ)
assignments_get_segs assignments = indices_loop op_seg assignments 0

pub var_is_temporary : Operand → Bool
var_is_temporary var = is_reg var && (not (is_const var) && leb temp_reg0 var.val)

-- The loop of `assignments_get_temporaries` after `ret` temporaries: the tags of those that follow.
pub temporaries_loop : Assignments → ℕ → Run (List Tag)
temporaries_loop [] ret = ok []
temporaries_loop (a ∷ rest) ret = elim (var_is_temporary a.var) [
  | false ↦ temporaries_loop rest ret
  | true ↦ do
    assert (ltb ret max_temporaries)
    tags ← temporaries_loop rest (ret + 1)
    ok (a.var.tag ∷ tags)
]

pub assignments_get_temporaries : Assignments → Run (List Tag)
assignments_get_temporaries assignments = temporaries_loop assignments 0
