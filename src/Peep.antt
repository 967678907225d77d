-- ===== src/Peep.antt =====
-- Matching of instructions against the templates of the peephole rules, btmod/bt/peep/peep.c. A
-- function that fills an array of assignments and returns whether it matched returns the array, or
-- `none` for false: the caller starts a new one then.
pub mod Fields
pub mod Matched
pub mod Operands
pub mod Sound
pub mod Entries
pub mod Grown
pub mod Built
pub mod Repeated
pub mod Temps
pub mod Translate
use btkernel.Base.{
  ℕ, ◌*◌, ◌%◌, ◌^◌, true, false, not, ◌&&◌, Option, none, some, List, [], ◌∷◌, ltb, ◌==◌,
  if◌then◌else◌, length, Run, assert, ◌>>=◌, panic, fault, ok, stop, ◌>>◌,
}
use btkernel.Insntypes.{Tag, tag_const, tag_eq}
use btkernel.Operand.{
  OperType, invalid, op_reg, op_seg, op_mem, op_imm, type_eq, segtype_sel, segtype_desc, segtype_eq,
  Operand, Insn, no_reg, scalar, operands_equal,
}
use btkernel.Assignments.{
  Assignments, is_const, assignments_getval, assignments_add, append_assignments,
  assignment_is_coherent,
}

-- A field of a memory operand as a value of its own, `_op` and `_templ` of `mem_match`: what the
-- bit field of the type holds of the field, and its size.
abbrev pub field_val : OperType → ℕ → ℕ
field_val op_reg v = v % 16
field_val op_seg v = v % 8
field_val _ v = v

abbrev pub field_operand : OperType → ℕ → ℕ → Tag → Operand
field_operand type addrsize v tag =
    scalar type (if type_eq type op_imm then 0 else addrsize) (field_val type v) tag

-- The variable part of `mem_match`, for the template's field `_templ` and the operand's `_op`.
unfoldable pub mem_match_var :
    Assignments → Assignments → Operand → Operand → Run (Option Assignments)
mem_match_var assignments tmp _templ _op = do
  found ← assignments_getval assignments _templ
  elim found [
    | some tmp_op ↦ do same ← operands_equal tmp_op _op; ok (if same then some tmp else none)
    | none ↦ do
      coherent ← assignment_is_coherent _templ _op
      elim coherent [
        | false ↦ ok none
        | true ↦ do tmp' ← assignments_add tmp _templ _op; ok (some tmp')
      ]
  ]

-- `mem_match`, for a field with the value `t` and the tag `ttag` in the template and `o` and `otag`
-- in the operand. The first array is searched and the second one grows.
unfoldable pub mem_match :
    Assignments → Assignments → OperType → ℕ → ℕ → Tag → ℕ → Tag → Run (Option Assignments)
mem_match assignments tmp type addrsize t ttag o otag =
    if tag_eq ttag tag_const
    then (if o == t then ok (some tmp) else ok none)
    else if type_eq type op_reg && (o == no_reg)
    then ok none
    else mem_match_var assignments tmp (field_operand type addrsize t ttag)
        (field_operand type addrsize o otag)

-- A further step where the array is there.
abbrev pub and_then :
    Run (Option Assignments) → (Assignments → Run (Option Assignments)) → Run (Option Assignments)
and_then run next = run >>= λ found. elim found [ none ↦ ok none | some tmp ↦ next tmp ]

-- The match of the segment, which is a selector or a descriptor.
unfoldable pub seg_match : Operand → Operand → Assignments → Assignments → Run (Option Assignments)
seg_match op templ assignments tmp =
    if segtype_eq op.mem.segtype segtype_sel
    then mem_match assignments tmp op_seg op.mem.addrsize (templ.mem.seg % 16) templ.mem_tag.seg
        (op.mem.seg % 16) op.mem_tag.seg
    else mem_match assignments tmp op_imm op.mem.addrsize templ.mem.seg templ.mem_tag.seg op.mem.seg
        op.mem_tag.seg

unfoldable pub base_match : Operand → Operand → Assignments → Assignments → Run (Option Assignments)
base_match op templ assignments tmp =
    mem_match assignments tmp op_reg op.mem.addrsize templ.mem.base templ.mem_tag.base op.mem.base
      op.mem_tag.base

unfoldable pub index_match :
    Operand → Operand → Assignments → Assignments → Run (Option Assignments)
index_match op templ assignments tmp =
    mem_match assignments tmp op_reg op.mem.addrsize templ.mem.index templ.mem_tag.index
      op.mem.index op.mem_tag.index

unfoldable pub disp_match : Operand → Operand → Assignments → Assignments → Run (Option Assignments)
disp_match op templ assignments tmp =
    mem_match assignments tmp op_imm op.mem.addrsize templ.mem.disp templ.mem_tag.disp op.mem.disp
      op.mem_tag.disp

unfoldable pub mem_operands_match : Operand → Operand → Assignments → Run (Option Assignments)
mem_operands_match op templ assignments = do
  assert (type_eq op.type op_mem)
  assert (type_eq templ.type op_mem)
  assert (is_const templ)
  if not (op.mem.addrsize == templ.mem.addrsize)
      then ok none
      else if not (segtype_eq op.mem.segtype templ.mem.segtype)
      then ok none
      else and_then (seg_match op templ assignments []) λ tmp₁.
        and_then (base_match op templ assignments tmp₁) λ tmp₂.
          and_then (index_match op templ assignments tmp₂) λ tmp₃.
            if not (templ.mem.scale == op.mem.scale)
            then ok none
            else and_then (disp_match op templ assignments tmp₃)
                λ tmp₄. do all ← append_assignments assignments tmp₄; ok (some all)

-- The sizes differ: a constant immediate without a size may still fit a variable of some size. The
-- shift of a 64-bit number by 64 bits or more is undefined.
unfoldable pub size_match : Operand → Operand → Assignments → Run (Option Assignments)
size_match op templ assignments =
    if not (op.size == 0)
    then ok none
    else if not (type_eq op.type op_imm)
    then stop panic
    else if not (ltb (templ.size * 8) 64)
    then stop fault
    else if not (ltb op.val (2 ^ (templ.size * 8)))
    then ok none
    else do all ← assignments_add assignments templ op; ok (some all)

-- A variable that has a value already ends in NOT_REACHED where the operand is that value.
unfoldable pub var_match : Operand → Operand → Assignments → Run (Option Assignments)
var_match op templ assignments = do
  found ← assignments_getval assignments templ
  elim found [
    | some tmp_op ↦ do same ← operands_equal tmp_op op; if same then stop panic else ok none
    | none ↦ do
      coherent ← assignment_is_coherent templ op
      elim coherent [
        | false ↦ ok none
        | true ↦ do all ← assignments_add assignments templ op; ok (some all)
      ]
  ]

-- A template's constant.
unfoldable pub const_match : Operand → Operand → Assignments → Run (Option Assignments)
const_match op templ assignments = do
  same ← operands_equal templ op
  ok (if same then some assignments else none)

unfoldable pub operands_match : Operand → Operand → Assignments → Run (Option Assignments)
operands_match op templ assignments =
    if not (type_eq op.type templ.type)
    then ok none
    else if not (op.size == templ.size)
    then size_match op templ assignments
    else if type_eq op.type invalid
    then ok (some assignments)
    else if not (is_const templ)
    then var_match op templ assignments
    else if type_eq op.type op_mem
    then mem_operands_match op templ assignments
    else const_match op templ assignments

unfoldable pub templ_matches_insn : Insn → Insn → Assignments → Run (Option Assignments)
templ_matches_insn insn tmpl assignments =
    if not (insn.opc == tmpl.opc)
    then ok none
    else and_then (operands_match insn.op0 tmpl.op0 assignments) λ a₀.
      and_then (operands_match insn.op1 tmpl.op1 a₀) λ a₁. operands_match insn.op2 tmpl.op2 a₁

-- The loop of `templ_matches_insns` over templates as many as instructions.
unfoldable pub insns_loop : List Insn → List Insn → Assignments → Run (Option Assignments)
insns_loop [] tmpls assignments = ok (some assignments)
insns_loop (insn ∷ insns) [] assignments = stop fault
insns_loop (insn ∷ insns) (tmpl ∷ tmpls) assignments =
    and_then (templ_matches_insn insn tmpl assignments) (insns_loop insns tmpls)

unfoldable pub templ_matches_insns : List Insn → List Insn → Run (Option Assignments)
templ_matches_insns insns tmpls =
    if not (length insns == length tmpls) then ok none else insns_loop insns tmpls []
