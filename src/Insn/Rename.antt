-- ===== src/Insn/Rename.antt =====
-- The constants of an instruction are replaced by the variables to which they are assigned,
-- `insn_rename_constants` of btmod/bt/peep/insn.c, and which operands an instruction writes.
use btkernel.Base.{
  ℕ, zero, suc, ◌+◌, ◌*◌, ◌/◌, ◌%◌, ◌^◌, Bool, true, false, not, ◌&&◌, ◌||◌, [], ◌∷◌, leb, ◌==◌,
  if◌then◌else◌, Run, assert, ◌>>=◌, ◌>>◌, ok,
}
use btkernel.Insntypes.{tag_eq}
use btkernel.Opctable.{Opctable, opctable_name, str_eq}
use btkernel.Operand.{
  op_reg, op_seg, op_mem, op_imm, type_eq, segtype_sel, segtype_eq, Operand, Insn, scalar,
  operands_equal,
}
use btkernel.Assignments.{Assignments, is_const, is_reg}
use btkernel.Strings.{codes, starts, starts_one}
use btkernel.Insn.{by_name}

-- The test of `rename_constants_mem_field`: whether the field, as an operand, is the value. The
-- variable's tag is then asserted.
unfoldable pub is_value : Operand → Operand → Operand → Run Bool
is_value field var val = do
  same ← operands_equal field val
  if same then (assert (not (is_const var)) >> ok true) else ok false

-- `rename_constants_mem_field` for the four fields, with the bits that a field has.
unfoldable pub rename_seg : Operand → Operand → Operand → Run Operand
rename_seg var val op =
    let seg = op.mem.seg in
    if segtype_eq op.mem.segtype segtype_sel
    then (is_value (scalar op_seg 0 (seg % 8) op.mem_tag.seg) var val >>= λ same. ok (
        if same
        then record op {
          mem = record op.mem { seg = seg / 16 * 16 + var.val % 8 };
          mem_tag = record op.mem_tag { seg = var.tag };
        }
        else op))
    else (is_value (scalar op_imm 0 seg op.mem_tag.seg) var val >>= λ same. ok (
        if same
        then record op {
          mem = record op.mem { seg = var.val % 2 ^ 16 };
          mem_tag = record op.mem_tag { seg = var.tag };
        }
        else op))

unfoldable pub rename_base : Operand → Operand → Operand → Run Operand
rename_base var val op = do
  same ← is_value (scalar op_reg op.mem.addrsize (op.mem.base % 16) op.mem_tag.base) var val
  ok (
      if same
      then record op {
        mem = record op.mem { base = var.val % 16 };
        mem_tag = record op.mem_tag { base = var.tag };
      }
      else op)

unfoldable pub rename_index : Operand → Operand → Operand → Run Operand
rename_index var val op = do
  same ← is_value (scalar op_reg op.mem.addrsize (op.mem.index % 16) op.mem_tag.index) var val
  ok (
      if same
      then record op {
        mem = record op.mem { index = var.val % 16 };
        mem_tag = record op.mem_tag { index = var.tag };
      }
      else op)

unfoldable pub rename_disp : Operand → Operand → Operand → Run Operand
rename_disp var val op = do
  same ← is_value (scalar op_imm 0 op.mem.disp op.mem_tag.disp) var val
  ok (
      if same
      then record op {
        mem = record op.mem { disp = var.val };
        mem_tag = record op.mem_tag { disp = var.tag };
      }
      else op)

-- The body of the inner loop, for one operand.
unfoldable pub rename_operand : Operand → Operand → Operand → Run Operand
rename_operand var val op = elim (type_eq op.type op_mem) [
  | true ↦ do
    op₁ ← rename_seg var val op
    op₂ ← rename_base var val op₁
    op₃ ← rename_index var val op₂
    rename_disp var val op₃
  | false ↦ elim (is_reg op && is_reg val) [
    | true ↦ do
      assert (is_const val)
      elim ((op.val == val.val) && is_const op) [
        | false ↦ ok op
        | true ↦ do assert (leb op.size var.size); ok (record var { size = op.size })
      ]
    | false ↦ do same ← operands_equal op val; ok (if same then var else op)
  ]
]

-- The loop over the assignments.
unfoldable pub insn_rename_constants : Insn → Assignments → Run Insn
insn_rename_constants insn [] = ok insn
insn_rename_constants insn (a ∷ assignments) = do
  op0 ← rename_operand a.var a.val insn.op0
  op1 ← rename_operand a.var a.val insn.op1
  op2 ← rename_operand a.var a.val insn.op2
  insn_rename_constants (record { opc = insn.opc; op0 = op0; op1 = op1; op2 = op2 }) assignments

pub insn_is_indirect_branch : Opctable → Insn → Run Bool
insn_is_indirect_branch bt insn =
    by_name bt insn λ opc. starts_one opc (codes "jmp" ∷ codes "call" ∷ codes "ret" ∷ [])

pub insn_is_comparison : Opctable → Insn → Run Bool
insn_is_comparison bt insn = by_name bt insn λ opc. starts_one opc (codes "test" ∷ codes "cmp" ∷ [])

pub insn_is_nop : Opctable → Insn → Run Bool
insn_is_nop bt insn = by_name bt insn λ opc.
    (starts_one opc (codes "xchg" ∷ codes "mov" ∷ [])
      && (is_reg insn.op0
          && (is_reg insn.op1
              && ((insn.op0.val == insn.op1.val) && (insn.op0.size == insn.op1.size)))))
    || str_eq opc (codes "lea")

pub is_xor_to_zero : Opctable → Insn → Run Bool
is_xor_to_zero bt insn = by_name bt insn λ opc.
    starts opc (codes "xor")
    && (is_reg insn.op0
        && (is_reg insn.op1
            && (tag_eq insn.op0.tag insn.op1.tag && (insn.op0.val == insn.op1.val))))

-- `writes_operand` for operand number `n`, which the code finds by the address of the operand.
pub writes_operand : Opctable → Insn → ℕ → Run Bool
writes_operand bt insn zero = do
  branch ← insn_is_indirect_branch bt insn
  comparison ← insn_is_comparison bt insn
  nop ← insn_is_nop bt insn
  ok (not branch && (not comparison && not nop))
writes_operand bt insn (suc zero) = do
  opc ← opctable_name bt insn.opc
  zeroes ← is_xor_to_zero bt insn
  ok (zeroes || starts opc (codes "pop"))
writes_operand bt insn (suc (suc n)) = do assert (n == 0); ok false
