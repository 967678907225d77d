-- ===== src/Operand.antt =====
-- Operands and instructions: the types of btmod/bt/peep/insntypes.h and the functions of
-- btmod/bt/peep/insn.c on one operand. The scalar members of the union `val` share the field `val`,
-- and the tags that overlay each other share `tag`; a field is read only where the type says that it
-- was written. A signed bit field is its bit pattern, so the `-1` of a base or an index is 31.
pub mod Equal
pub mod Decides
use btkernel.Base.{
  ℕ, ◌+◌, ◌*◌, ◌/◌, ◌%◌, ◌^◌, Bool, true, false, not, ◌&&◌, ◌||◌, ◌==◌, if◌then◌else◌, Run, assert,
  panic, ok, stop, ◌>>◌,
}
use btkernel.Insntypes.{Tag, tag_const, tag_eq}

pub data OperType : Type 0 where
  invalid op_reg op_seg op_mem op_imm op_pcrel op_cr : OperType
  op_db op_tr op_mmx op_xmm op_3dnow op_prefix op_st : OperType

abbrev pub type_num : OperType → ℕ
type_num invalid = 0
type_num op_reg = 1
type_num op_seg = 2
type_num op_mem = 3
type_num op_imm = 4
type_num op_pcrel = 5
type_num op_cr = 6
type_num op_db = 7
type_num op_tr = 8
type_num op_mmx = 9
type_num op_xmm = 10
type_num op_3dnow = 11
type_num op_prefix = 12
type_num op_st = 13

abbrev pub type_eq : OperType → OperType → Bool
type_eq a b = type_num a == type_num b

pub data SegType : Type 0 where
  segtype_sel segtype_desc : SegType

abbrev pub segtype_eq : SegType → SegType → Bool
segtype_eq segtype_sel segtype_sel = true
segtype_eq segtype_sel segtype_desc = false
segtype_eq segtype_desc segtype_sel = false
segtype_eq segtype_desc segtype_desc = true

-- `operand_mem_val_t`; `seg` is `seg.all`, and the selector is its four low bits.
pub record MemVal : Type 0 where
  pub addrsize : ℕ
  pub segtype : SegType
  pub seg : ℕ
  pub base : ℕ
  pub scale : ℕ
  pub index : ℕ
  pub disp : ℕ

-- `operand_mem_tag_t` but for `all`, which lies over the tag of the operand.
pub record MemTag : Type 0 where
  pub seg : Tag
  pub base : Tag
  pub index : Tag
  pub disp : Tag

-- `operand_t`
pub record Operand : Type 0 where
  pub type : OperType
  pub size : ℕ
  pub rex_used : Bool
  pub val : ℕ
  pub mem : MemVal
  pub tag : Tag
  pub mem_tag : MemTag

-- `insn_t` without the name that is there to be read
pub record Insn : Type 0 where
  pub opc : ℕ
  pub op0 : Operand
  pub op1 : Operand
  pub op2 : Operand

-- `-1` in a signed field of five bits
abbrev pub no_reg : ℕ
no_reg = 31

abbrev pub plain_tags : MemTag
plain_tags = record { seg = tag_const; base = tag_const; index = tag_const; disp = tag_const }

abbrev pub plain_mem : MemVal
plain_mem = record {
  addrsize = 4;
  segtype = segtype_sel;
  seg = 3;
  base = no_reg;
  scale = 0;
  index = no_reg;
  disp = 0;
}

-- An operand without a memory part, as the code sets up in a local variable. Such a variable has no
-- `rex_used` where the code leaves it out, and nothing reads it there.
abbrev pub scalar : OperType → ℕ → ℕ → Tag → Operand
scalar type size val tag = record {
  type = type;
  size = size;
  rex_used = false;
  val = val;
  mem = plain_mem;
  tag = tag;
  mem_tag = plain_tags;
}

-- `operand_init`, where the union and what it leaves alone hold what they held.
pub operand_init : Operand → Operand
operand_init op = record op {
  type = invalid;
  size = 0;
  mem = record plain_mem { seg = op.mem.seg / 16 * 16 + 3 };
  tag = tag_const;
  mem_tag = plain_tags;
}

-- `insn_init`; `opc_inval` is 0.
pub insn_init : Insn → Insn
insn_init insn = record {
  opc = 0;
  op0 = operand_init insn.op0;
  op1 = operand_init insn.op1;
  op2 = operand_init insn.op2;
}

-- The memory case of `operands_equal`, which leaves the address size out.
unfoldable pub mem_equal : Operand → Operand → Bool
mem_equal a b =
    segtype_eq a.mem.segtype b.mem.segtype
    && ((a.mem.seg == b.mem.seg)
        && ((a.mem.base == b.mem.base)
            && ((a.mem.scale == b.mem.scale)
                && ((a.mem.index == b.mem.index)
                    && ((a.mem.disp == b.mem.disp)
                        && (tag_eq a.mem_tag.seg b.mem_tag.seg
                            && (tag_eq a.tag b.tag
                                && (tag_eq a.mem_tag.base b.mem_tag.base
                                    && (tag_eq a.mem_tag.index b.mem_tag.index
                                        && tag_eq a.mem_tag.disp b.mem_tag.disp)))))))))

abbrev pub scalar_equal : Operand → Operand → Bool
scalar_equal a b = (a.val == b.val) && tag_eq a.tag b.tag

-- A constant immediate has no size.
abbrev pub imm_ok : Operand → Bool
imm_ok a = not (tag_eq a.tag tag_const) || (a.size == 0)

-- The `switch` of `operands_equal`.
unfoldable pub same_value : OperType → Operand → Operand → Run Bool
same_value invalid a b = ok true
same_value op_mem a b = ok (mem_equal a b)
same_value op_imm a b = do assert (imm_ok a); assert (imm_ok b); ok (scalar_equal a b)
same_value op_pcrel a b = stop panic
same_value op_st a b = stop panic
same_value _ a b = ok (scalar_equal a b)

unfoldable pub operands_equal : Operand → Operand → Run Bool
operands_equal a b =
    if type_eq a.type b.type
    then if a.size == b.size then same_value a.type a b else ok false
    else ok false

-- The `switch` of `operand_get_value`, whose result is a `long` of 32 bits.
unfoldable pub value_of : OperType → Operand → Run ℕ
value_of invalid op = stop panic
value_of op_mem op = stop panic
value_of op_imm op = do
  assert (tag_eq op.tag tag_const)
  assert (op.size == 0)
  ok (op.val % 2 ^ 32)
value_of op_pcrel op = stop panic
value_of op_st op = stop panic
value_of _ op = ok op.val

unfoldable pub operand_get_value : Operand → Run ℕ
operand_get_value op = value_of op.type op
