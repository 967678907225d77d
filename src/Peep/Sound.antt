-- ===== src/Peep/Sound.antt =====
-- A match of instructions against a template, `templ_matches_insns` of btmod/bt/peep/peep.c, gives
-- an assignment under which the template is the instructions.
use btkernel.Base.{
  ◌≡◌, subst, some, List, [], ◌∷◌, arith, ◌==◌, ==_iff, length, Extends, Extends-refl,
  Extends-trans, ok,
}
use btkernel.Operand.{Insn}
use btkernel.Assignments.{Assignments}
use btkernel.Peep.{operands_match, templ_matches_insn, insns_loop, templ_matches_insns}
use btkernel.Peep.Fields.{guard_not-some, and_then-some, some-ok}
use btkernel.Peep.Matched.{InsnMatched, InsnsMatched, Extends-Matched}
use btkernel.Peep.Operands.{operands_match-type, operands_match-Matched}

templ_matches_insn-InsnMatched :
    (A B : Assignments) (insn templ : Insn)
    → templ_matches_insn insn templ A ≡ ok (some B)
    → Extends A B × InsnMatched B insn templ
unfolding templ_matches_insn
templ_matches_insn-InsnMatched A B insn templ h =
    let (opc, h₁) = guard_not-some B (insn.opc == templ.opc) _ h in
    let (a₀, e₀, h₂) = and_then-some B (operands_match insn.op0 templ.op0 A) _ h₁ in
    let (a₁, e₁, e₂) = and_then-some B (operands_match insn.op1 templ.op1 a₀) _ h₂ in
    let (x₀, m₀) = operands_match-Matched A a₀ insn.op0 templ.op0 e₀ in
    let (x₁, m₁) = operands_match-Matched a₀ a₁ insn.op1 templ.op1 e₁ in
    let (x₂, m₂) = operands_match-Matched a₁ B insn.op2 templ.op2 e₂ in
    let x₁₂ = Extends-trans a₀ a₁ B x₁ x₂ in
    (
      Extends-trans A a₀ B x₀ x₁₂,
      record {
        opc = (==_iff _ _).0 opc;
        types = (
          operands_match-type A a₀ insn.op0 templ.op0 e₀,
          operands_match-type a₀ a₁ insn.op1 templ.op1 e₁,
          operands_match-type a₁ B insn.op2 templ.op2 e₂,
        );
        op0 = Extends-Matched a₀ B x₁₂ insn.op0 templ.op0 m₀;
        op1 = Extends-Matched a₁ B x₂ insn.op1 templ.op1 m₁;
        op2 = m₂;
      },
    )

Extends-InsnMatched :
    (A B : Assignments) (insn templ : Insn)
    → Extends A B
    → InsnMatched A insn templ
    → InsnMatched B insn templ
Extends-InsnMatched A B insn templ more m = record {
  opc = m.opc;
  types = m.types;
  op0 = Extends-Matched A B more insn.op0 templ.op0 m.op0;
  op1 = Extends-Matched A B more insn.op1 templ.op1 m.op1;
  op2 = Extends-Matched A B more insn.op2 templ.op2 m.op2;
}

insns_loop-InsnsMatched :
    (A B : Assignments) (insns templs : List Insn)
    → length insns ≡ length templs
    → insns_loop insns templs A ≡ ok (some B)
    → Extends A B × InsnsMatched B insns templs
unfolding insns_loop
insns_loop-InsnsMatched A B [] [] l h =
    (subst (λ u. Extends A u) (some-ok B A h) (Extends-refl A), tt)
insns_loop-InsnsMatched A B [] (t ∷ ts) l h = absurd (omega arith)
insns_loop-InsnsMatched A B (i ∷ is) [] l h = absurd (omega arith)
insns_loop-InsnsMatched A B (i ∷ is) (t ∷ ts) l h =
    let (next, e, h₁) = and_then-some B (templ_matches_insn i t A) _ h in
    let (x, m) = templ_matches_insn-InsnMatched A next i t e in
    let (y, ms) = insns_loop-InsnsMatched next B is ts (omega arith) h₁ in
    (Extends-trans A next B x y, (Extends-InsnMatched next B i t y m, ms))

-- When the instructions match the templates, they are as many, and under the assignment that is
-- filled each instruction is its template: the opcode and the types of the operands agree, and each
-- operand is absent, is what the template's variable is assigned, where it has the variable's size or
-- is an immediate without a size that fits into the variable's, is the template's constant, or is a
-- memory operand of the same size, address size, kind of segment and scale whose segment, base, index
-- and displacement are each the template's constant or what the template's variable is assigned, and
-- whose base and index are there where the template has variables.
pub templ_matches_insns-InsnsMatched :
    (insns templs : List Insn) (B : Assignments)
    → templ_matches_insns insns templs ≡ ok (some B)
    → InsnsMatched B insns templs
unfolding templ_matches_insns
templ_matches_insns-InsnsMatched insns templs B h =
    let (lengths, h₁) = guard_not-some B (length insns == length templs) _ h in
    (insns_loop-InsnsMatched [] B insns templs ((==_iff _ _).0 lengths) h₁).1
