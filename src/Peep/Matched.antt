-- ===== src/Peep/Matched.antt =====
-- What it means that instructions are a template under an assignment, for the matching of
-- btmod/bt/peep/peep.c.
use btkernel.Base.{◌*◌, ◌%◌, ◌^◌, ◌<◌, ◌≡◌, ◌≢◌, List, [], ◌∷◌, Extends}
use btkernel.Insntypes.{tag_const}
use btkernel.Operand.{
  op_reg, op_imm, Operand, Insn, invalid, SegType, op_mem, op_seg, segtype_sel, segtype_desc,
}
use btkernel.Operand.Equal.{Same}
use btkernel.Assignments.{Assignments}
use btkernel.Assignments.Assigns.{Assigns, Extends-Assigns}
use btkernel.Peep.Fields.{FieldMatched, Extends-FieldMatched}

-- The match of the segment, whose selector is its four low bits.
abbrev pub SegFields : SegType → Assignments → Operand → Operand → Type 0
SegFields segtype_sel B op templ =
    FieldMatched B op_seg op.mem.addrsize (templ.mem.seg % 16) templ.mem_tag.seg (op.mem.seg % 16)
      op.mem_tag.seg
SegFields segtype_desc B op templ =
    FieldMatched B op_imm op.mem.addrsize templ.mem.seg templ.mem_tag.seg op.mem.seg op.mem_tag.seg

-- The memory operand is the template's under the assignment.
pub record MemMatched (B : Assignments) (op templ : Operand) : Type 0 where
  pub const : templ.tag ≡ tag_const
  pub addrsize : op.mem.addrsize ≡ templ.mem.addrsize
  pub segtype : op.mem.segtype ≡ templ.mem.segtype
  pub scale : op.mem.scale ≡ templ.mem.scale
  pub seg : SegFields op.mem.segtype B op templ
  pub base :
      FieldMatched B op_reg op.mem.addrsize templ.mem.base templ.mem_tag.base op.mem.base
        op.mem_tag.base
  pub index :
      FieldMatched B op_reg op.mem.addrsize templ.mem.index templ.mem_tag.index op.mem.index
        op.mem_tag.index
  pub disp :
      FieldMatched B op_imm op.mem.addrsize templ.mem.disp templ.mem_tag.disp op.mem.disp
        op.mem_tag.disp

-- The operand is the template's under the assignment: it is not there, it is what a variable of the
-- same size is assigned, it is a constant immediate without a size that fits the variable's, it is
-- the template's constant, or it is a memory operand that matches field by field.
pub data Matched (B : Assignments) (op templ : Operand) : Type 0 where
  absent : op.type ≡ invalid → Matched B op templ
  assigned : templ.tag ≢ tag_const → op.size ≡ templ.size → Assigns B templ op → Matched B op templ
  fitting :
      op.type ≡ op_imm
      → op.size ≡ 0
      → op.val < 2 ^ (templ.size * 8)
      → Assigns B templ op
      → Matched B op templ
  constant : templ.tag ≡ tag_const → Same templ op → Matched B op templ
  memory : op.type ≡ op_mem → op.size ≡ templ.size → MemMatched B op templ → Matched B op templ

pub record InsnMatched (B : Assignments) (insn templ : Insn) : Type 0 where
  pub opc : insn.opc ≡ templ.opc
  pub types :
      (insn.op0.type ≡ templ.op0.type)
      × (insn.op1.type ≡ templ.op1.type)
      × (insn.op2.type ≡ templ.op2.type)
  pub op0 : Matched B insn.op0 templ.op0
  pub op1 : Matched B insn.op1 templ.op1
  pub op2 : Matched B insn.op2 templ.op2

abbrev pub InsnsMatched : Assignments → List Insn → List Insn → Type 0
InsnsMatched B [] [] = Unit
InsnsMatched B [] (t ∷ ts) = ⊥
InsnsMatched B (i ∷ is) [] = ⊥
InsnsMatched B (i ∷ is) (t ∷ ts) = InsnMatched B i t × InsnsMatched B is ts

module _ (A B : Assignments) (more : Extends A B) where
  pub Extends-SegFields :
      (s : SegType) (op templ : Operand) → SegFields s A op templ → SegFields s B op templ
  Extends-SegFields segtype_sel op templ =
      Extends-FieldMatched A B op_seg op.mem.addrsize (templ.mem.seg % 16) templ.mem_tag.seg
        (op.mem.seg % 16) op.mem_tag.seg more
  Extends-SegFields segtype_desc op templ =
      Extends-FieldMatched A B op_imm op.mem.addrsize templ.mem.seg templ.mem_tag.seg op.mem.seg
        op.mem_tag.seg more

  Extends-MemMatched : (op templ : Operand) → MemMatched A op templ → MemMatched B op templ
  Extends-MemMatched op templ m = record {
    const = m.const;
    addrsize = m.addrsize;
    segtype = m.segtype;
    scale = m.scale;
    seg = Extends-SegFields op.mem.segtype op templ m.seg;
    base =
        Extends-FieldMatched A B op_reg op.mem.addrsize templ.mem.base templ.mem_tag.base
          op.mem.base op.mem_tag.base more m.base;
    index =
        Extends-FieldMatched A B op_reg op.mem.addrsize templ.mem.index templ.mem_tag.index
          op.mem.index op.mem_tag.index more m.index;
    disp =
        Extends-FieldMatched A B op_imm op.mem.addrsize templ.mem.disp templ.mem_tag.disp
          op.mem.disp op.mem_tag.disp more m.disp;
  }

  pub Extends-Matched : (op templ : Operand) → Matched A op templ → Matched B op templ
  Extends-Matched op templ (absent t) = absent t
  Extends-Matched op templ (assigned v s a) = assigned v s (Extends-Assigns A B templ op more a)
  Extends-Matched op templ (fitting t z f a) = fitting t z f (Extends-Assigns A B templ op more a)
  Extends-Matched op templ (constant t s) = constant t s
  Extends-Matched op templ (memory t s m) = memory t s (Extends-MemMatched op templ m)
