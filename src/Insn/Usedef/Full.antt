-- ===== src/Insn/Usedef/Full.antt =====
-- `__insn_get_usedef` of btmod/bt/peep/insn.c marks the registers of the operands, of the prefixes
-- and of the name of the instruction.
use btkernel.Base.{
  ℕ, ◌<◌, ◌≡◌, sym, ap, ◌∙◌, subst, inl, inr, Bool, true, false, not, ◌&&◌, ◌||◌, List, [], ◌∷◌,
  ◌++◌, arith, ℕ_discrete, ◌==◌, if◌then◌else◌, Bool-cases, All, Run, ◌>>=◌, ok,
}
use btkernel.Insntypes.{Tag, tag_const, tag_eq}
use btkernel.Opctable.{Opctable, opctable_name, Name}
use btkernel.Operand.{op_prefix, type_eq, Operand, Insn}
use btkernel.Regset.{Regset, regset_clear_all}
use btkernel.Regset.Marks.{has, limit, union_loop-cregs}
use btkernel.Strings.{codes}
use btkernel.Insn.Access.{is_rep}
use btkernel.Insn.Usedef.{
  set_cregs, prefix_step, full_step, implicit_regs, with_defined, full_insn_get_usedef,
}
use btkernel.Insn.Usedef.Implicit.{begins, first_row, rows, starts-begins, implicit_regs-first_row}
use btkernel.Insn.Usedef.Marked.{
  member, used, defined, defines, IsInRange, IsPlain, Marked, Marked-trans, Marked-refl, Steps,
  step-Steps, All_parts, uses, or_false, clear_all-has,
}

-- Registers of the machine.
abbrev pub machine : List ℕ → List (Tag × ℕ)
machine [] = []
machine (r ∷ rs) = (tag_const, r) ∷ machine rs

-- The prefixes that repeat, 1 and 2, count in `ecx` and step `esi` and `edi`.
abbrev pub prefix_regs : Operand → List (Tag × ℕ)
prefix_regs op =
    if type_eq op.type op_prefix && ((op.val == 1) || (op.val == 2))
    then machine (1 ∷ 6 ∷ 7 ∷ [])
    else []

abbrev pub moves : Name → Bool
moves opc = begins opc (codes "mov") || begins opc (codes "lea")

-- The registers of the machine in the list, where the instruction does not move.
abbrev pub kept : Name → List (Tag × ℕ) → Tag → ℕ → Bool
kept opc regs tag reg = not (moves opc) && (tag_eq tag tag_const && member regs tag reg)

set_cregs-Marked : (s : Regset) (rs : List ℕ) → Marked s (set_cregs s rs) (machine rs)
set_cregs-Marked s [] = Marked-refl s
set_cregs-Marked s (r ∷ rs) =
    Marked-trans s (set_cregs s (r ∷ [])) (set_cregs s (r ∷ rs)) ((tag_const, r) ∷ []) (machine rs)
      (one s r) (set_cregs-Marked (set_cregs s (r ∷ [])) rs)
  where
    one : (s : Regset) (r : ℕ) → Marked s (set_cregs s (r ∷ [])) ((tag_const, r) ∷ [])
    one s r tag reg = elim (Bool-cases (tag_eq tag tag_const)) [
      | inr var ↦ rw var
      | inl const ↦ elim (ℕ_discrete reg r) [
        | yes e ↦ rw (const, e) (ground arith)
        | no ne ↦ rw const (ground arith)
      ]
    ]

prefix-Marked : (op : Operand) (s : Regset) → Marked s (prefix_step op s) (prefix_regs op)
prefix-Marked op s = elim (Bool-cases (type_eq op.type op_prefix && is_rep op.val)) [
  | inl rep ↦ rw rep (set_cregs-Marked s (1 ∷ 6 ∷ 7 ∷ []))
  | inr no_rep ↦ rw no_rep (Marked-refl s)
]

full_step-Steps :
    (first : Bool) (op : Operand) (u d : Regset)
    → IsPlain op
    → All IsInRange (used first op)
    → All IsInRange (defines first op)
    → Steps u d (full_step first op (u, d)) (used first op ++ prefix_regs op) (defines first op)
unfolding full_step
full_step-Steps first op u d plain us ds =
    let (u', d', e, m, n) = step-Steps first op u d plain us ds in
    (
      prefix_step op u',
      d',
      rw (full_step, e, ◌>>=◌),
      Marked-trans u u' (prefix_step op u') (used first op) (prefix_regs op) m
          (prefix-Marked op u'),
      n,
    )

with_defined-has :
    (opc : Name) (u d : Regset) (tag : Tag) (reg : ℕ)
    → reg < limit tag
    → has (with_defined opc u d) tag reg
      ≡ has u tag reg || (not (moves opc) && (tag_eq tag tag_const && has d tag reg))
with_defined-has opc u d tag reg low =
    rw (starts-begins opc (codes "mov"), starts-begins opc (codes "lea"))
      (elim (Bool-cases (begins opc (codes "mov"))) [
        | inl mov ↦ rw mov (sym (or_false (has u tag reg)))
        | inr no_mov ↦ elim (Bool-cases (begins opc (codes "lea"))) [
          | inl lea ↦ rw (no_mov, lea) (sym (or_false (has u tag reg)))
          | inr no_lea ↦ elim (Bool-cases (tag_eq tag tag_const)) [
            | inr var ↦ rw (no_mov, no_lea, var) (sym (or_false _))
            | inl const ↦
                rw (no_mov, no_lea, const) (union_loop-cregs u.cregs d.cregs reg (rw const at low))
          ]
        ]
      ])

-- What the instruction uses: the registers of the operands and of repeating prefixes, those that its
-- name calls for, and where it is no move and no `lea`, the register of the machine that it defines.
abbrev pub full_uses : Name → Insn → List (Tag × ℕ)
full_uses opc insn =
    (used true insn.op0 ++ prefix_regs insn.op0)
    ++ ((used false insn.op1 ++ prefix_regs insn.op1)
        ++ ((used false insn.op2 ++ prefix_regs insn.op2) ++ machine (first_row opc rows)))

-- The sets that the run gives, where the used ones are those of the list and the kept ones.
abbrev pub ExactlyKept :
    Name → Run (Regset × Regset) → List (Tag × ℕ) → List (Tag × ℕ) → Tag → ℕ → Type 0
ExactlyKept opc run us ds tag reg =
    (u : Regset) × (d : Regset) × (run ≡ ok (u, d))
    × (has u tag reg ≡ member us tag reg || kept opc ds tag reg)
    × (has d tag reg ≡ member ds tag reg)

-- When no memory operand has a tag of its own and the registers of the operands are in range for
-- their tags, `__insn_get_usedef` returns for an instruction with a name: the used registers are
-- those of the operands, of prefixes that repeat and of the table by the name, and the register of the machine
-- that the instruction defines, unless the name starts with `mov` or `lea`; the defined register is
-- that of the first operand.
pub full_insn_get_usedef-ExactlyKept :
    (bt : Opctable) (opc : Name) (insn : Insn) (use_set def : Regset) (tag : Tag) (reg : ℕ)
    → opctable_name bt insn.opc ≡ ok opc
    → IsPlain insn.op0
    → IsPlain insn.op1
    → IsPlain insn.op2
    → All IsInRange (uses insn)
    → All IsInRange (defined insn.op0)
    → reg < limit tag
    → ExactlyKept opc
        (full_insn_get_usedef bt insn use_set def)
        (full_uses opc insn)
        (defined insn.op0)
        tag
        reg
unfolding full_insn_get_usedef
full_insn_get_usedef-ExactlyKept bt opc insn use_set def tag reg name p₀ p₁ p₂ us ds low =
    let u = regset_clear_all use_set in
    let d = regset_clear_all def in
    let (r₀, r₁₂) =
      All_parts (used true insn.op0) (used false insn.op1 ++ used false insn.op2) us in
    let (r₁, r₂) = All_parts (used false insn.op1) (used false insn.op2) r₁₂ in
    let (u₀, d₀, e₀, m₀, n₀) = full_step-Steps true insn.op0 u d p₀ r₀ ds in
    let (u₁, d₁, e₁, m₁, n₁) = full_step-Steps false insn.op1 u₀ d₀ p₁ r₁ tt in
    let (u₂, d₂, e₂, m₂, n₂) = full_step-Steps false insn.op2 u₁ d₁ p₂ r₂ tt in
    let u₃ = set_cregs u₂ (implicit_regs opc) in
    let l₀ = used true insn.op0 ++ prefix_regs insn.op0 in
    let l₁ = used false insn.op1 ++ prefix_regs insn.op1 in
    let l₂ = used false insn.op2 ++ prefix_regs insn.op2 in
    let l₃ = machine (first_row opc rows) in
    let named : Marked u₂ u₃ l₃ =
      subst (λ rs. Marked u₂ u₃ (machine rs)) (implicit_regs-first_row opc)
        (set_cregs-Marked u₂ (implicit_regs opc)) in
    let m =
      Marked-trans u u₀ u₃ l₀ (l₁ ++ (l₂ ++ l₃)) m₀
        (Marked-trans u₀ u₁ u₃ l₁ (l₂ ++ l₃) m₁ (Marked-trans u₁ u₂ u₃ l₂ l₃ m₂ named)) in
    let in_u =
      m tag reg
      ∙ ap (λ b. member (full_uses opc insn) tag reg || b) (clear_all-has use_set tag reg low)
      ∙ or_false _ in
    let in_d =
      n₂ tag reg
      ∙ n₁ tag reg
      ∙ n₀ tag reg
      ∙ ap (λ b. member (defined insn.op0) tag reg || b) (clear_all-has def tag reg low)
      ∙ or_false _ in
    (
      with_defined opc u₃ d₂,
      d₂,
      rw (name, ◌>>=◌, e₀, ◌>>=◌, e₁, ◌>>=◌, e₂),
      with_defined-has opc u₃ d₂ tag reg low
          ∙ ap (λ b. b || (not (moves opc) && (tag_eq tag tag_const && has d₂ tag reg))) in_u
          ∙ ap
              (λ b.
                member (full_uses opc insn) tag reg
                || (not (moves opc) && (tag_eq tag tag_const && b)))
              in_d,
      in_d,
    )
