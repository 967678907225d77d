-- ===== src/Insn/Access/First.antt =====
-- `insn_accesses_op_type` of btmod/bt/peep/insn.c finds the first and the last operand of a kind.
use btkernel.Base.{
  ◌≡◌, refl, Bool, true, false, Option, none, some, List, [], ◌∷◌, if◌then◌else◌, ◌>>=◌, ok,
}
use btkernel.Opctable.{Opctable, opctable_name, Name, str_eq}
use btkernel.Operand.{Operand, Insn}
use btkernel.Strings.{codes}
use btkernel.Insn.Access.{Access, note, insn_accesses_op_type}

-- The operands of the kind, in order.
abbrev pub of_kind : (Operand → Bool) → List Operand → List Operand
of_kind type_fn [] = []
of_kind type_fn (op ∷ ops) = if type_fn op then op ∷ of_kind type_fn ops else of_kind type_fn ops

abbrev pub last_of : List Operand → Option Operand
last_of [] = none
last_of (op ∷ []) = some op
last_of (op ∷ q ∷ ops) = last_of (q ∷ ops)

-- Whether there is an operand, the first one, and the last one behind it.
abbrev pub summary : List Operand → Access
summary [] = record { ret = false; op1 = none; op2 = none }
summary (op ∷ ops) = record { ret = true; op1 = some op; op2 = last_of ops }

notes :
    (op₀ op₁ op₂ : Operand) (b₀ b₁ b₂ : Bool)
    → note b₂ op₂ (note b₁ op₁ (note b₀ op₀ (record { ret = false; op1 = none; op2 = none })))
      ≡ summary (
          let rest₂ = if b₂ then op₂ ∷ [] else [] in
          let rest₁ = if b₁ then op₁ ∷ rest₂ else rest₂ in if b₀ then op₀ ∷ rest₁ else rest₁)
unfolding note
notes op₀ op₁ op₂ true true true = refl
notes op₀ op₁ op₂ true true false = refl
notes op₀ op₁ op₂ true false true = refl
notes op₀ op₁ op₂ true false false = refl
notes op₀ op₁ op₂ false true true = refl
notes op₀ op₁ op₂ false true false = refl
notes op₀ op₁ op₂ false false true = refl
notes op₀ op₁ op₂ false false false = refl

-- For an instruction other than `lea` the function answers whether it has an operand of the kind,
-- with the first such operand and, if there are more, the last one; `lea` has none, and leaves the
-- two pointers as they were.
pub insn_accesses_op_type-summary :
    (bt : Opctable) (insn : Insn) (type_fn : Operand → Bool) (op1 op2 : Option Operand) (opc : Name)
    → opctable_name bt insn.opc ≡ ok opc
    → insn_accesses_op_type bt insn type_fn op1 op2
      ≡ ok (
          if str_eq opc (codes "lea")
          then record { ret = false; op1 = op1; op2 = op2 }
          else summary (of_kind type_fn (insn.op0 ∷ insn.op1 ∷ insn.op2 ∷ [])))
unfolding insn_accesses_op_type
insn_accesses_op_type-summary bt insn type_fn op1 op2 opc e = rw (
  e,
  ◌>>=◌,
  notes insn.op0 insn.op1 insn.op2 (type_fn insn.op0) (type_fn insn.op1) (type_fn insn.op2),
)
