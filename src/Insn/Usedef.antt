-- ===== src/Insn/Usedef.antt =====
-- The registers that an instruction uses and defines, btmod/bt/peep/insn.c.
pub mod Marked
pub mod Implicit
pub mod Full
use btkernel.Base.{
  ℕ, ◌%◌, Bool, true, false, not, ◌&&◌, List, [], ◌∷◌, ◌++◌, ◌==◌, if◌then◌else◌, Run, assert, ok,
  ◌>>=◌, ◌>>◌,
}
use btkernel.Insntypes.{Tag, tag_const, num_regs}
use btkernel.Opctable.{Opctable, opctable_name, Name}
use btkernel.Operand.{OperType, op_reg, op_mem, op_prefix, type_eq, Operand, Insn, no_reg}
use btkernel.Assignments.{is_const, is_reg}
use btkernel.Regset.{Regset, update, regset_clear_all, regset_mark, union_loop}
use btkernel.Strings.{codes, starts, starts_one}
use btkernel.Insn.Access.{is_rep}

-- The number of a register operand; one of the eight byte registers counts as a part of the first
-- four.
abbrev pub reg_of : Operand → ℕ
reg_of op = if is_const op && (op.size == 1) then op.val % 4 else op.val

-- A register of a memory operand, where it has one.
abbrev pub mark_part : Regset → Tag → ℕ → Run Regset
mark_part use_set tag reg = if reg == no_reg then ok use_set else regset_mark use_set tag reg

-- A round of the loop of `insn_get_usedef`, the first one or a later one.
pub usedef_step : Bool → Operand → Regset × Regset → Run (Regset × Regset)
usedef_step first op (use_set, def) =
    if is_reg op
    then elim first [
      | true ↦ do def' ← regset_mark def op.tag (reg_of op); ok (use_set, def')
      | false ↦ do use' ← regset_mark use_set op.tag (reg_of op); ok (use', def)
    ]
    else elim (type_eq op.type op_mem) [
      | false ↦ ok (use_set, def)
      | true ↦ do
        assert (is_const op)
        use₁ ← mark_part use_set op.mem_tag.base op.mem.base
        use₂ ← mark_part use₁ op.mem_tag.index op.mem.index
        ok (use₂, def)
    ]

-- `insn_get_usedef`, with the two sets as they are before.
pub insn_get_usedef : Insn → Regset → Regset → Run (Regset × Regset)
insn_get_usedef insn use_set def = do
  s₀ ← usedef_step true insn.op0 (regset_clear_all use_set, regset_clear_all def)
  s₁ ← usedef_step false insn.op1 s₀
  usedef_step false insn.op2 s₁

-- Assignments of 1 to elements of `use->cregs`.
abbrev pub set_cregs : Regset → List ℕ → Regset
set_cregs s [] = s
set_cregs s (r ∷ rs) = set_cregs (record s { cregs = update s.cregs r true }) rs

-- R_ECX, R_ESI and R_EDI for a prefix that repeats.
abbrev pub prefix_step : Operand → Regset → Regset
prefix_step op s =
    if type_eq op.type op_prefix && is_rep op.val then set_cregs s (1 ∷ 6 ∷ 7 ∷ []) else s

-- A round of the loop of `__insn_get_usedef`.
pub full_step : Bool → Operand → Regset × Regset → Run (Regset × Regset)
full_step first op sets = do s ← usedef_step first op sets; ok (prefix_step op s.0, s.1)

-- The registers that the name of the instruction calls for; R_EAX, R_ECX, R_EDX, R_EBX, R_ESI and
-- R_EDI are 0, 1, 2, 3, 6 and 7.
unfoldable pub implicit_regs : Name → List ℕ
implicit_regs opc =
    if starts_one opc (codes "idiv" ∷ codes "imul" ∷ codes "div" ∷ codes "mul" ∷ [])
    then 2 ∷ 0 ∷ []
    else if starts opc (codes "s")
    then (if starts_one opc (codes "shrd" ∷ codes "shld" ∷ []) then 1 ∷ [] else [])
      ++ (if starts opc (codes "sahf") then 0 ∷ [] else [])
      ++ (if starts opc (codes "scas") then 0 ∷ 7 ∷ [] else [])
    else if starts opc (codes "cmpxchg8b")
    then 0 ∷ 3 ∷ 1 ∷ 2 ∷ []
    else if starts opc (codes "cmpxchg")
    then 0 ∷ []
    else if starts opc (codes "xsave")
    then 0 ∷ 2 ∷ []
    else []

-- The loop at the end: what is defined counts as used, but for moves.
abbrev pub with_defined : Name → Regset → Regset → Regset
with_defined opc use_set def =
    if not (starts opc (codes "mov")) && not (starts opc (codes "lea"))
    then record use_set { cregs = union_loop use_set.cregs def.cregs num_regs 0 }
    else use_set

-- `__insn_get_usedef`
pub full_insn_get_usedef : Opctable → Insn → Regset → Regset → Run (Regset × Regset)
full_insn_get_usedef bt insn use_set def = do
  opc ← opctable_name bt insn.opc
  s₀ ← full_step true insn.op0 (regset_clear_all use_set, regset_clear_all def)
  s₁ ← full_step false insn.op1 s₀
  s₂ ← full_step false insn.op2 s₁
  ok (with_defined opc (set_cregs s₂.0 (implicit_regs opc)) s₂.1, s₂.1)
