-- ===== src/Insn.antt =====
-- What kind of instruction one is, by its name in the opcode table, btmod/bt/peep/insn.c.
pub mod Ends
pub mod Access
pub mod Usedef
pub mod Rename
use btkernel.Base.{
  Bool, true, false, not, ◌&&◌, ◌||◌, none, some, List, [], ◌∷◌, ltb, ◌==◌, length, get_or, set,
  Run, ◌>>=◌, ok,
}
use btkernel.Opctable.{Opctable, opctable_name, Name, str_eq}
use btkernel.Operand.{OperType, op_reg, op_mem, op_imm, type_eq, Operand, Insn}
use btkernel.Strings.{codes, strstart, starts, starts_one, equals_one}

-- A test of the name.
abbrev pub by_name : Opctable → Insn → (Name → Bool) → Run Bool
by_name bt insn test = opctable_name bt insn.opc >>= λ opc. ok (test opc)

pub insn_has_indirect_dependence : Opctable → Insn → Run Bool
insn_has_indirect_dependence bt insn = by_name bt insn λ opc.
    starts opc (codes "ret")
    || ((type_eq insn.op0.type op_mem && starts_one opc (codes "call" ∷ codes "jmp" ∷ []))
        || (starts opc (codes "j") && not (starts opc (codes "jmp"))))

pub insn_has_direct_dependence : Opctable → Insn → Run Bool
insn_has_direct_dependence bt insn =
    by_name bt insn
      λ opc. type_eq insn.op0.type op_imm && starts_one opc (codes "call" ∷ codes "jmp" ∷ [])

pub insn_is_direct_call : Opctable → Insn → Run Bool
insn_is_direct_call bt insn =
    by_name bt insn λ opc. starts opc (codes "call") && type_eq insn.op0.type op_imm

-- The tests of `insn_is_terminating`.
abbrev pub terminating : Name → Bool
terminating opc =
    (get_or opc 0 0 == b'j')
    || (((get_or opc 0 0 == b'l') && (get_or opc 1 0 == b'j'))
        || (starts_one opc (codes "call" ∷ codes "lcall" ∷ codes "loop" ∷ codes "ret" ∷ [])
            || (equals_one opc (codes "retw" ∷ codes "retl" ∷ [])
                || (starts opc (codes "lret")
                    || equals_one opc (codes "iret" ∷ codes "int" ∷ codes "hlt" ∷ [])))))

pub insn_is_terminating : Opctable → Insn → Run Bool
insn_is_terminating bt insn = by_name bt insn terminating

pub insn_is_indirect_jump : Opctable → Insn → Run Bool
insn_is_indirect_jump bt insn =
    by_name bt insn λ opc. str_eq opc (codes "jmp") && type_eq insn.op0.type op_mem

pub insn_is_string_op : Opctable → Insn → Run Bool
insn_is_string_op bt insn = by_name bt insn λ opc. equals_one opc (
    codes "movs"
    ∷ codes "cmps"
    ∷ codes "stos"
    ∷ codes "lods"
    ∷ codes "scas"
    ∷ codes "ins"
    ∷ codes "outs"
    ∷ [])

pub insn_is_movs_or_cmps : Opctable → Insn → Run Bool
insn_is_movs_or_cmps bt insn =
    by_name bt insn λ opc. equals_one opc (codes "movs" ∷ codes "cmps" ∷ [])

pub insn_is_cmps_or_scas : Opctable → Insn → Run Bool
insn_is_cmps_or_scas bt insn =
    by_name bt insn λ opc. equals_one opc (codes "cmps" ∷ codes "scas" ∷ [])

pub insn_is_push : Opctable → Insn → Run Bool
insn_is_push bt insn = by_name bt insn λ opc. starts opc (codes "push")

pub insn_is_pop : Opctable → Insn → Run Bool
insn_is_pop bt insn = by_name bt insn λ opc. starts opc (codes "pop")

pub insn_is_sti : Opctable → Insn → Run Bool
insn_is_sti bt insn = by_name bt insn λ opc. starts opc (codes "sti")

abbrev pub jmp_opcodes : List Name
jmp_opcodes =
    codes "jmp"
    ∷ codes "je"
    ∷ codes "jne"
    ∷ codes "jg"
    ∷ codes "jle"
    ∷ codes "jl"
    ∷ codes "jge"
    ∷ codes "ja"
    ∷ codes "jbe"
    ∷ codes "jb"
    ∷ codes "jae"
    ∷ codes "jo"
    ∷ codes "jno"
    ∷ codes "js"
    ∷ codes "jns"
    ∷ []

-- The loop of `insn_is_direct_jump`.
abbrev pub direct_jump : Insn → Name → List Name → Bool
direct_jump insn opc [] = false
direct_jump insn opc (jmp_opc ∷ rest) =
    (str_eq opc jmp_opc && type_eq insn.op0.type op_imm) || direct_jump insn opc rest

unfoldable pub insn_is_direct_jump : Opctable → Insn → Run Bool
insn_is_direct_jump bt insn = by_name bt insn λ opc. direct_jump insn opc jmp_opcodes

pub insn_is_conditional_jump : Opctable → Insn → Run Bool
insn_is_conditional_jump bt insn = do
  opc ← opctable_name bt insn.opc
  jump ← insn_is_direct_jump bt insn
  ok (jump && not (str_eq opc (codes "jmp")))

pub insn_is_prefetch : Opctable → Insn → Run Bool
insn_is_prefetch bt insn =
    by_name bt insn λ opc. starts_one opc (codes "prefe" ∷ codes "invlpg" ∷ [])

pub insn_accesses_stack : Opctable → Insn → Run Bool
insn_accesses_stack bt insn = by_name bt insn λ opc.
    starts_one opc (codes "push" ∷ codes "pop" ∷ [])
    || equals_one opc
        (codes "call" ∷ codes "ret" ∷ codes "lcall" ∷ codes "lret" ∷ codes "iret" ∷ [])

-- The test of the two loops over the names of `insn_reads_flags` and `insn_sets_flags`: one of the
-- names with at most one byte behind it.
abbrev pub with_suffix : Name → List Name → Bool
with_suffix opc [] = false
with_suffix opc (val ∷ vals) =
    elim (strstart opc val) [ none ↦ false | some remaining ↦ ltb (length remaining) 2 ]
    || with_suffix opc vals

abbrev pub setters : List Name
setters =
    codes "cmp"
    ∷ codes "cmpxchg"
    ∷ codes "test"
    ∷ codes "and"
    ∷ codes "or"
    ∷ codes "xor"
    ∷ codes "ret"
    ∷ codes "imul"
    ∷ codes "div"
    ∷ codes "sub"
    ∷ codes "scas"
    ∷ []

abbrev pub non_readers : List Name
non_readers =
    codes "mov"
    ∷ codes "xchg"
    ∷ codes "push"
    ∷ codes "pop"
    ∷ codes "cld"
    ∷ codes "call"
    ∷ codes "ret"
    ∷ codes "jmp"
    ∷ codes "shl"
    ∷ codes "shr"
    ∷ codes "sal"
    ∷ codes "sar"
    ∷ codes "inc"
    ∷ codes "dec"
    ∷ codes "add"
    ∷ codes "sub"
    ∷ codes "and"
    ∷ codes "or"
    ∷ codes "xor"
    ∷ codes "cmp"
    ∷ codes "test"
    ∷ codes "bt"
    ∷ codes "lea"
    ∷ codes "sti"
    ∷ codes "cli"
    ∷ codes "mfence"
    ∷ codes "sfence"
    ∷ codes "nop"
    ∷ codes "not"
    ∷ codes "cli"
    ∷ codes "sti"
    ∷ codes "imul"
    ∷ codes "div"
    ∷ codes "set"
    ∷ codes "scas"
    ∷ []

pub insn_sets_flags : Opctable → Insn → Run Bool
insn_sets_flags bt insn = by_name bt insn λ opc. with_suffix opc setters

pub insn_reads_flags : Opctable → Insn → Run Bool
insn_reads_flags bt insn = do
  opc ← opctable_name bt insn.opc
  elim (with_suffix opc non_readers) [
    | true ↦ ok false
    | false ↦ do sets ← insn_sets_flags bt insn; ok (not sets)
  ]

pub insn_has_translation : Opctable → Insn → Run Bool
insn_has_translation bt insn =
    by_name bt insn λ name. not (starts name (codes "outs")) && not (starts name (codes "ins"))
