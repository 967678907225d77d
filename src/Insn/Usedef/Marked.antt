-- ===== src/Insn/Usedef/Marked.antt =====
-- `insn_get_usedef` of btmod/bt/peep/insn.c marks exactly the registers of the operands.
use btkernel.Base.{
  ℕ, ◌-◌, ◌*◌, ◌/◌, ◌<◌, ◌≡◌, refl, sym, ap, ◌∙◌, ◌⊎◌, inl, inr, Bool, true, false, ◌&&◌, ◌||◌,
  List, [], ◌∷◌, ◌++◌, arith, ◌==◌, if◌then◌else◌, Bool-cases, All, Run, assert, ◌>>=◌, ok, ◌>>◌,
}
use mathlib.Core.Bool.{false≢true}
use btkernel.Insntypes.{Tag, tag_eq}
use btkernel.Operand.{op_mem, type_eq, Operand, Insn, no_reg}
use btkernel.Assignments.{is_const, is_reg}
use btkernel.Regset.{Regset, regset_clear_all, regset_mark}
use btkernel.Regset.Marks.{has, same_reg, limit, regset_mark-Puts, regset_diff-union}
use btkernel.Insn.Usedef.{reg_of, mark_part, usedef_step, insn_get_usedef, tag_const}

abbrev pub member : List (Tag × ℕ) → Tag → ℕ → Bool
member [] tag reg = false
member ((t, r) ∷ regs) tag reg = same_reg t r tag reg || member regs tag reg

abbrev pub part_regs : Tag → ℕ → List (Tag × ℕ)
part_regs tag reg = if reg == no_reg then [] else (tag, reg) ∷ []

-- The number of the register of an operand: the eight byte registers `al`, `cl`, `dl`, `bl`, `ah`,
-- `ch`, `dh` and `bh` are the lower and the upper parts of the first four, and a larger number wraps
-- around in the same way.
abbrev pub number_of : Operand → ℕ
number_of op = if tag_eq op.tag tag_const && (op.size == 1) then op.val - op.val / 4 * 4 else op.val

number_of_lem : (op : Operand) → reg_of op ≡ number_of op
number_of_lem op = elim (Bool-cases (tag_eq op.tag tag_const && (op.size == 1))) [
  | inl byte ↦ rw byte (omega arith)
  | inr full ↦ rw full
]

-- The registers that the operand uses and defines, where it is the first one or a later one.
abbrev pub used : Bool → Operand → List (Tag × ℕ)
used first op =
    if is_reg op
    then (if first then [] else (op.tag, number_of op) ∷ [])
    else if type_eq op.type op_mem
    then part_regs op.mem_tag.base op.mem.base ++ part_regs op.mem_tag.index op.mem.index
    else []

abbrev pub defined : Operand → List (Tag × ℕ)
defined op = if is_reg op then (op.tag, number_of op) ∷ [] else []

abbrev pub IsInRange : Tag × ℕ → Type 0
IsInRange r = r.1 < limit r.0

-- The second set is the first one with the registers.
abbrev pub Marked : Regset → Regset → List (Tag × ℕ) → Type 0
Marked s s' regs = (tag : Tag) (reg : ℕ) → has s' tag reg ≡ member regs tag reg || has s tag reg

pub or_assoc : (a b c : Bool) → (a || b) || c ≡ a || (b || c)
or_assoc true b c = refl
or_assoc false b c = refl

pub member-append :
    (a b : List (Tag × ℕ)) (tag : Tag) (reg : ℕ)
    → member (a ++ b) tag reg ≡ member a tag reg || member b tag reg
member-append [] b tag reg = refl
member-append ((t, r) ∷ a) b tag reg =
    ap (λ u. same_reg t r tag reg || u) (member-append a b tag reg)
    ∙ sym (or_assoc (same_reg t r tag reg) (member a tag reg) (member b tag reg))

pub Marked-trans :
    (s s' s'' : Regset) (a b : List (Tag × ℕ))
    → Marked s s' a
    → Marked s' s'' b
    → Marked s s'' (a ++ b)
Marked-trans s s' s'' a b m n tag reg =
    n tag reg
    ∙ ap (λ u. member b tag reg || u) (m tag reg)
    ∙ swap (member b tag reg) (member a tag reg) (has s tag reg)
    ∙ ap (λ u. u || has s tag reg) (sym (member-append a b tag reg))
  where
    swap : (x y z : Bool) → x || (y || z) ≡ (y || x) || z
    swap true true z = refl
    swap true false z = refl
    swap false true z = refl
    swap false false z = refl

-- The run gives the set with the registers.
abbrev Gives : Regset → Run Regset → List (Tag × ℕ) → Type 0
Gives s run regs = (s' : Regset) × (run ≡ ok s') × Marked s s' regs

mark-Gives :
    (s : Regset) (tag : Tag) (reg : ℕ)
    → reg < limit tag
    → Gives s (regset_mark s tag reg) ((tag, reg) ∷ [])
mark-Gives s tag reg low = elim (regset_mark-Puts s tag reg).0 [
  | inl (s', e, m) ↦ (s', e, λ t r. m t r ∙ choose (same_reg tag reg t r) (has s t r))
  | inr (e, high) ↦ absurd (omega arith)
]
  where
    choose : (b c : Bool) → (if b then true else c) ≡ (b || false) || c
    choose true c = refl
    choose false c = refl

part-Gives :
    (s : Regset) (tag : Tag) (reg : ℕ)
    → All IsInRange (part_regs tag reg)
    → Gives s (mark_part s tag reg) (part_regs tag reg)
part-Gives s tag reg h = elim (Bool-cases (reg == no_reg)) [
  | inl absent ↦ rw absent (s, refl, λ t r. refl)
  | inr present ↦ let low = rw present at h in rw present (mark-Gives s tag reg low.0)
]

pub All_parts : (a b : List (Tag × ℕ)) → All IsInRange (a ++ b) → All IsInRange a × All IsInRange b
All_parts [] b h = (tt, h)
All_parts (x ∷ a) b (p, h) = let (q, r) = All_parts a b h in ((p, q), r)

-- The step adds the operand's registers to the two sets.
abbrev pub Steps :
    Regset → Regset → Run (Regset × Regset) → List (Tag × ℕ) → List (Tag × ℕ) → Type 0
Steps u d run us ds =
    (u' : Regset) × (d' : Regset) × (run ≡ ok (u', d')) × Marked u u' us × Marked d d' ds

-- A memory operand has no tag of its own.
abbrev pub IsPlain : Operand → Type 0
IsPlain op = (type_eq op.type op_mem ≡ false) ⊎ (is_const op ≡ true)

-- What the step defines.
abbrev pub defines : Bool → Operand → List (Tag × ℕ)
defines first op = if first then defined op else []

pub Marked-refl : (s : Regset) → Marked s s []
Marked-refl s tag reg = refl

mem_step :
    (op : Operand) (u d : Regset)
    → IsPlain op
    → All IsInRange (
        if type_eq op.type op_mem
        then part_regs op.mem_tag.base op.mem.base ++ part_regs op.mem_tag.index op.mem.index
        else [])
    → Steps u d
        (elim (type_eq op.type op_mem) [
          | false ↦ ok (u, d)
          | true ↦ do
            assert (is_const op)
            use₁ ← mark_part u op.mem_tag.base op.mem.base
            use₂ ← mark_part use₁ op.mem_tag.index op.mem.index
            ok (use₂, d)
        ])
        (if type_eq op.type op_mem
          then part_regs op.mem_tag.base op.mem.base ++ part_regs op.mem_tag.index op.mem.index
          else [])
        []
mem_step op u d plain us = elim (Bool-cases (type_eq op.type op_mem)) [
  | inr no_mem ↦ rw no_mem (u, d, refl, Marked-refl u, Marked-refl d)
  | inl mem ↦
      let base = part_regs op.mem_tag.base op.mem.base in
      let index = part_regs op.mem_tag.index op.mem.index in
      let (p, q) = All_parts base index (rw mem at us) in
      let (u₁, e₁, m₁) = part-Gives u op.mem_tag.base op.mem.base p in
      let (u₂, e₂, m₂) = part-Gives u₁ op.mem_tag.index op.mem.index q in
      rw (mem, is_plain plain mem, e₁, ◌>>=◌, e₂, ◌>>=◌)
        (u₂, d, refl, Marked-trans u u₁ u₂ base index m₁ m₂, Marked-refl d)
]
  where
    is_plain : IsPlain op → type_eq op.type op_mem ≡ true → is_const op ≡ true
    is_plain (inl no_mem) mem = absurd (false≢true (sym no_mem ∙ mem))
    is_plain (inr const) mem = const

pub step-Steps :
    (first : Bool) (op : Operand) (u d : Regset)
    → IsPlain op
    → All IsInRange (used first op)
    → All IsInRange (defines first op)
    → Steps u d (usedef_step first op (u, d)) (used first op) (defines first op)
unfolding usedef_step
step-Steps true op u d plain us ds = elim (Bool-cases (is_reg op)) [
  | inl reg ↦
      let low = rw reg at ds in
      let (d', e, m) = mark-Gives d op.tag (number_of op) low.0 in
      rw (reg, number_of_lem op, e, ◌>>=◌) (u, d', refl, Marked-refl u, m)
  | inr not_reg ↦ rw not_reg (mem_step op u d plain (rw not_reg at us))
]
step-Steps false op u d plain us ds = elim (Bool-cases (is_reg op)) [
  | inl reg ↦
      let low = rw reg at us in
      let (u', e, m) = mark-Gives u op.tag (number_of op) low.0 in
      rw (reg, number_of_lem op, e, ◌>>=◌) (u', d, refl, m, Marked-refl d)
  | inr not_reg ↦ rw not_reg (mem_step op u d plain (rw not_reg at us))
]

-- The registers that the operands of the instruction use.
abbrev pub uses : Insn → List (Tag × ℕ)
uses insn = used true insn.op0 ++ (used false insn.op1 ++ used false insn.op2)

-- The sets that the run gives have a register just where the lists have it.
abbrev pub Exactly : Run (Regset × Regset) → List (Tag × ℕ) → List (Tag × ℕ) → Tag → ℕ → Type 0
Exactly run us ds tag reg =
    (u : Regset) × (d : Regset) × (run ≡ ok (u, d))
    × (has u tag reg ≡ member us tag reg)
    × (has d tag reg ≡ member ds tag reg)

pub or_false : (b : Bool) → b || false ≡ b
or_false true = refl
or_false false = refl

pub clear_all-has :
    (s : Regset) (tag : Tag) (reg : ℕ) → reg < limit tag → has (regset_clear_all s) tag reg ≡ false
clear_all-has s tag reg low = (regset_diff-union s s tag reg low).2

-- When no memory operand has a tag of its own and the registers of the operands are in range for
-- their tags, `insn_get_usedef` returns, whatever the two sets held: the used registers are those of
-- the second and the third operand and the bases and indices of memory operands, and the defined
-- register is that of the first operand, where a constant byte register is taken modulo four.
pub insn_get_usedef-Exactly :
    (insn : Insn) (use_set def : Regset) (tag : Tag) (reg : ℕ)
    → IsPlain insn.op0
    → IsPlain insn.op1
    → IsPlain insn.op2
    → All IsInRange (uses insn)
    → All IsInRange (defined insn.op0)
    → reg < limit tag
    → Exactly (insn_get_usedef insn use_set def) (uses insn) (defined insn.op0) tag reg
unfolding insn_get_usedef
insn_get_usedef-Exactly insn use_set def tag reg p₀ p₁ p₂ us ds low =
    let u = regset_clear_all use_set in
    let d = regset_clear_all def in
    let us₁₂ = used false insn.op1 ++ used false insn.op2 in
    let (r₀, r₁₂) = All_parts (used true insn.op0) us₁₂ us in
    let (r₁, r₂) = All_parts (used false insn.op1) (used false insn.op2) r₁₂ in
    let (u₀, d₀, e₀, m₀, n₀) = step-Steps true insn.op0 u d p₀ r₀ ds in
    let (u₁, d₁, e₁, m₁, n₁) = step-Steps false insn.op1 u₀ d₀ p₁ r₁ tt in
    let (u₂, d₂, e₂, m₂, n₂) = step-Steps false insn.op2 u₁ d₁ p₂ r₂ tt in
    let m =
      Marked-trans u u₀ u₂ (used true insn.op0) us₁₂ m₀
        (Marked-trans u₀ u₁ u₂ (used false insn.op1) (used false insn.op2) m₁ m₂) in
    (
      u₂,
      d₂,
      rw (e₀, ◌>>=◌, e₁, ◌>>=◌, e₂),
      m tag reg
          ∙ ap (λ b. member (uses insn) tag reg || b) (clear_all-has use_set tag reg low)
          ∙ or_false _,
      n₂ tag reg
          ∙ n₁ tag reg
          ∙ n₀ tag reg
          ∙ ap (λ b. member (defined insn.op0) tag reg || b) (clear_all-has def tag reg low)
          ∙ or_false _,
    )
