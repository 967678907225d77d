-- ===== src/Insn/Access.antt =====
-- The operands of a kind that an instruction has, and what follows from them, btmod/bt/peep/insn.c.
pub mod First
use btkernel.Base.{
  ℕ, ◌-◌, ◌^◌, min, Bool, true, false, not, ◌&&◌, ◌||◌, Option, none, some, List, [], ◌∷◌, ltb,
  ◌==◌, if◌then◌else◌, length, Run, assert, panic, fault, ok, stop, ◌>>=◌, ◌>>◌,
}
use btkernel.Insntypes.{tag_const, tag_eq}
use btkernel.Opctable.{Opctable, opctable_name, Name, str_eq}
use btkernel.Operand.{OperType, op_reg, op_mem, op_prefix, type_eq, Operand, Insn, no_reg}
use btkernel.Assignments.{is_const}
use btkernel.Strings.{codes, starts}

-- `ret`, `retop1` and `retop2` of `insn_accesses_op_type`.
pub record Access : Type 0 where
  pub ret : Bool
  pub op1 : Option Operand
  pub op2 : Option Operand

-- What the function does for one operand, which is of the kind or not.
pub note : Bool → Operand → Access → Access
note false op access = access
note true op access = elim access.op1 [
  | none ↦ record { ret = true; op1 = some op; op2 = access.op2 }
  | some first ↦ record { ret = true; op1 = some first; op2 = some op }
]

-- `insn_accesses_op_type`; the last argument is what the two pointers of the caller hold before,
-- which stays for `lea`.
pub insn_accesses_op_type :
    Opctable → Insn → (Operand → Bool) → Option Operand → Option Operand → Run Access
insn_accesses_op_type bt insn type_fn op1 op2 = do
  opc ← opctable_name bt insn.opc
  ok (
      if str_eq opc (codes "lea")
      then record { ret = false; op1 = op1; op2 = op2 }
      else note (type_fn insn.op2) insn.op2 (
          note (type_fn insn.op1) insn.op1
            (note (type_fn insn.op0) insn.op0 (record { ret = false; op1 = none; op2 = none }))))

abbrev pub operand_is_mem : Operand → Bool
operand_is_mem op = type_eq op.type op_mem

abbrev pub operand_is_mem16 : Operand → Bool
operand_is_mem16 op = type_eq op.type op_mem && (op.mem.addrsize == 2)

abbrev pub operand_is_prefix : Operand → Bool
operand_is_prefix op = type_eq op.type op_prefix

pub insn_accesses_mem16 : Opctable → Insn → Option Operand → Option Operand → Run Access
insn_accesses_mem16 bt insn = insn_accesses_op_type bt insn operand_is_mem16

pub insn_accesses_mem : Opctable → Insn → Option Operand → Option Operand → Run Access
insn_accesses_mem bt insn = insn_accesses_op_type bt insn operand_is_mem

pub insn_has_prefix : Opctable → Insn → Run (Option Operand)
insn_has_prefix bt insn = do
  access ← insn_accesses_op_type bt insn operand_is_prefix none none
  elim access.ret [
    | false ↦ ok none
    | true ↦ elim access.op1 [ none ↦ stop panic | some op ↦ ok (some op) ]
  ]

-- `(unsigned)-1` where the operand has no size
pub operand_get_size : OperType → Operand → ℕ
operand_get_size op_reg op = op.size
operand_get_size op_mem op = op.size
operand_get_size _ op = 2 ^ 32 - 1

pub insn_get_operand_size : Insn → ℕ
insn_get_operand_size insn =
    let size₀ = min 8 (operand_get_size insn.op0.type insn.op0) in
    let size₁ = min size₀ (operand_get_size insn.op1.type insn.op1) in
    min size₁ (operand_get_size insn.op2.type insn.op2)

-- `insn_get_addr_size`; without a memory operand the ASSERT fails.
pub insn_get_addr_size : Opctable → Insn → Run ℕ
insn_get_addr_size bt insn = do
  access ← insn_accesses_mem bt insn none none
  assert access.ret
  elim access.op1 [
    | none ↦ stop fault
    | some op ↦ do
      assert (is_const op)
      assert ((op.mem.addrsize == 2) || (op.mem.addrsize == 4))
      ok op.mem.addrsize
  ]

-- PREFIX_REPZ or PREFIX_REPNZ
abbrev pub is_rep : ℕ → Bool
is_rep prefix = (prefix == 1) || (prefix == 2)

-- The loop of `insn_has_rep_prefix` over the operands.
pub rep_loop : List Operand → Run Bool
rep_loop [] = ok false
rep_loop (op ∷ ops) = elim (type_eq op.type op_prefix) [
  | false ↦ rep_loop ops
  | true ↦ do assert (is_const op); elim (is_rep op.val) [ true ↦ ok true | false ↦ rep_loop ops ]
]

pub insn_has_rep_prefix : Insn → Run Bool
insn_has_rep_prefix insn = rep_loop (insn.op0 ∷ insn.op1 ∷ insn.op2 ∷ [])

pub insn_can_do_exception : Opctable → Insn → Run Bool
insn_can_do_exception bt insn = do
  rep ← insn_has_rep_prefix insn
  elim rep [
    | true ↦ do name ← opctable_name bt insn.opc; ok (not (starts name (codes "out")))
    | false ↦ do
      access ← insn_accesses_mem bt insn none none
      elim access.ret [
        | false ↦ ok false
        | true ↦ elim access.op1 [
          | none ↦ stop fault
          | some op1 ↦ elim (not (op1.mem.base == no_reg) || not (op1.mem.index == no_reg)) [
            | false ↦ ok false
            | true ↦ do name ← opctable_name bt insn.opc; ok (starts name (codes "mov"))
          ]
        ]
      ]
  ]

-- A round of the loop of `get_opcode_size`.
abbrev pub smaller : ℕ → Operand → ℕ
smaller size op = if not (op.size == 0) && ltb op.size size then op.size else size

-- The byte before the end of the name, which for an empty name is outside it.
abbrev pub last_byte : Name → Run ℕ
last_byte [] = stop fault
last_byte (c ∷ []) = ok c
last_byte (c ∷ d ∷ name) = last_byte (d ∷ name)

pub get_opcode_size : Opctable → Insn → Run ℕ
get_opcode_size bt insn = do
  let size = smaller (smaller (smaller 4 insn.op0) insn.op1) insn.op2
  assert ((size == 1) || ((size == 2) || (size == 4)))
  elim (size == 1) [
    | true ↦ ok size
    | false ↦ do
      name ← opctable_name bt insn.opc
      last ← last_byte name
      ok (
          if (last == b'b')
            && ((ltb (length name) 8 && ltb 3 (length name)) || starts name (codes "orb"))
          then 1
          else size)
  ]
