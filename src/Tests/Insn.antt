-- ===== src/Tests/Insn.antt =====
-- A load and a jump, in a table with two names.
use btkernel.Base.{
  ℕ, ◌≡◌, refl, inl, inr, true, none, some, [], ◌∷◌, arith, ◌==◌, if◌then◌else◌, ok,
}
use btkernel.Insntypes.{tag_const}
use btkernel.Opctable.{Opctable, Name, opctable_name}
use btkernel.Regset.{Regset}
use btkernel.Operand.{Operand, Insn, invalid, op_reg, op_mem, op_imm, scalar, plain_mem}
use btkernel.Strings.{codes}
use btkernel.Insn.{insn_is_direct_jump, insn_is_terminating}
use btkernel.Insn.Ends.{Leaves-insn_is_terminating}
use btkernel.Insn.Access.{insn_accesses_op_type, operand_is_mem}
use btkernel.Insn.Access.First.{insn_accesses_op_type-summary}
use btkernel.Insn.Usedef.{insn_get_usedef, full_insn_get_usedef, implicit_regs}
use btkernel.Insn.Usedef.Full.{ExactlyKept, full_insn_get_usedef-ExactlyKept}
use btkernel.Insn.Usedef.Marked.{Exactly, insn_get_usedef-Exactly}

abbrev names : ℕ → Name
names opc = if opc == 7 then codes "mov" else codes "jne"

abbrev empty : Opctable
empty = record {
  dpnum = 0;
  sizeflagtable_size = 0;
  nametable_size = 9;
  nametable = names;
  sizeflagtable = λ i. 0;
  opctable = λ dp s. 0;
}

abbrev absent_op : Operand
absent_op = scalar invalid 0 0 tag_const

-- `mov edx, [ebx + 16]`
abbrev load : Insn
load = record {
  opc = 7;
  op0 = scalar op_reg 4 2 tag_const;
  op1 = record (scalar op_mem 4 0 tag_const) { mem = record plain_mem { base = 3; disp = 16 } };
  op2 = absent_op;
}

abbrev jump : Insn
jump = record { opc = 8; op0 = scalar op_imm 0 64 tag_const; op1 = absent_op; op2 = absent_op }

abbrev full : Regset
full = record { cregs = λ i. true; vregs = λ i. true; tregs = λ i. true }

Leaves-insn_is_terminating_example : insn_is_terminating empty jump ≡ ok true
unfolding insn_is_direct_jump opctable_name
Leaves-insn_is_terminating_example =
    Leaves-insn_is_terminating empty jump (inr (inr (inr (inl refl))))

insn_accesses_op_type-summary_example :
    insn_accesses_op_type empty load operand_is_mem none none
    ≡ ok (record { ret = true; op1 = some load.op1; op2 = none })
unfolding opctable_name
insn_accesses_op_type-summary_example =
    insn_accesses_op_type-summary empty load operand_is_mem none none (codes "mov") refl

insn_get_usedef-Exactly_example :
    Exactly (insn_get_usedef load full full) ((tag_const, 3) ∷ []) ((tag_const, 2) ∷ []) tag_const 3
insn_get_usedef-Exactly_example =
    insn_get_usedef-Exactly load full full tag_const 3 (inl refl) (inr refl) (inl refl)
      (omega arith, tt) (omega arith, tt) (omega arith)

full_insn_get_usedef-ExactlyKept_example :
    ExactlyKept
      (codes "mov")
      (full_insn_get_usedef empty load full full)
      ((tag_const, 3) ∷ [])
      ((tag_const, 2) ∷ [])
      tag_const
      3
unfolding opctable_name implicit_regs
full_insn_get_usedef-ExactlyKept_example =
    full_insn_get_usedef-ExactlyKept empty (codes "mov") load full full tag_const 3 refl (inl refl)
      (inr refl) (inl refl) (omega arith, tt) (omega arith, tt) (omega arith)
