-- ===== src/Peep/Built.antt =====
-- How `templ_matches_insns` of btmod/bt/peep/peep.c fills its array, operand by operand.
use btkernel.Base.{◌≡◌, some, List, [], ◌∷◌, arith, ◌==◌, ==_iff, length, ok}
use btkernel.Operand.{Insn}
use btkernel.Assignments.{Assignments}
use btkernel.Peep.{operands_match, templ_matches_insn, insns_loop, templ_matches_insns}
use btkernel.Peep.Fields.{guard_not-some, and_then-some, some-ok}
use btkernel.Peep.Matched.{InsnsMatched}
use btkernel.Peep.Sound.{templ_matches_insns-InsnsMatched}
use btkernel.Peep.Grown.{Grown, operands_match-Grown}

-- The three operands, one after the other.
abbrev pub InsnBuilt : Assignments → Assignments → Insn → Insn → Type 0
InsnBuilt A D insn templ =
    (B : Assignments) × (C : Assignments) × Grown A B insn.op0 templ.op0
    × Grown B C insn.op1 templ.op1
    × Grown C D insn.op2 templ.op2

-- The array `B` is `A` and what the operands of the instructions add, from the first to the last one.
abbrev pub Built : Assignments → Assignments → List Insn → List Insn → Type 0
Built A B [] [] = A ≡ B
Built A B [] (t ∷ ts) = ⊥
Built A B (i ∷ is) [] = ⊥
Built A B (i ∷ is) (t ∷ ts) = (C : Assignments) × InsnBuilt A C i t × Built C B is ts

templ_matches_insn-InsnBuilt :
    (A B : Assignments) (insn templ : Insn)
    → templ_matches_insn insn templ A ≡ ok (some B)
    → InsnBuilt A B insn templ
unfolding templ_matches_insn
templ_matches_insn-InsnBuilt A B insn templ h =
    let (_, h₁) = guard_not-some B (insn.opc == templ.opc) _ h in
    let (a₀, e₀, h₂) = and_then-some B (operands_match insn.op0 templ.op0 A) _ h₁ in
    let (a₁, e₁, e₂) = and_then-some B (operands_match insn.op1 templ.op1 a₀) _ h₂ in
    (
      a₀,
      a₁,
      operands_match-Grown A a₀ insn.op0 templ.op0 e₀,
      operands_match-Grown a₀ a₁ insn.op1 templ.op1 e₁,
      operands_match-Grown a₁ B insn.op2 templ.op2 e₂,
    )

insns_loop-Built :
    (A B : Assignments) (insns templs : List Insn)
    → length insns ≡ length templs
    → insns_loop insns templs A ≡ ok (some B)
    → Built A B insns templs
unfolding insns_loop
insns_loop-Built A B [] [] l h = some-ok B A h
insns_loop-Built A B [] (t ∷ ts) l h = absurd (omega arith)
insns_loop-Built A B (i ∷ is) [] l h = absurd (omega arith)
insns_loop-Built A B (i ∷ is) (t ∷ ts) l h =
    let (next, e, h₁) = and_then-some B (templ_matches_insn i t A) _ h in
    (
      next,
      templ_matches_insn-InsnBuilt A next i t e,
      insns_loop-Built next B is ts (omega arith) h₁,
    )

-- When the instructions match the templates, they are as many, and under the assignment that is
-- filled each instruction is its template: the opcode and the types of the operands agree, and each
-- operand is absent, is what the template's variable is assigned, where it has the variable's size or
-- is an immediate without a size that fits into the variable's, is the template's constant, or is a
-- memory operand of the same size, address size, kind of segment and scale whose segment, base, index
-- and displacement are each the template's constant or what the template's variable is assigned, and
-- whose base and index are there where the template has variables. The assignment is filled from
-- nothing, operand by operand: what an operand adds is for variables to which no operand before it
-- had given a value, a register of any size counting as one variable, and gives them constants of
-- their type, for registers those that the variable's tag allows; only an immediate without a size
-- may be added for a variable of some size that had a value.
pub templ_matches_insns-Built :
    (insns templs : List Insn) (B : Assignments)
    → templ_matches_insns insns templs ≡ ok (some B)
    → InsnsMatched B insns templs × Built [] B insns templs
unfolding templ_matches_insns
templ_matches_insns-Built insns templs B h =
    let (lengths, h₁) = guard_not-some B (length insns == length templs) _ h in
    (
      templ_matches_insns-InsnsMatched insns templs B h,
      insns_loop-Built [] B insns templs ((==_iff _ _).0 lengths) h₁,
    )
