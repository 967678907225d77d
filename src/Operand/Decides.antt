-- ===== src/Operand/Decides.antt =====
-- `operands_equal` of btmod/bt/peep/insn.c returns on the operands that it compares.
use btkernel.Base.{
  ◌≡◌, refl, sym, ap, ◌∙◌, subst, ◌≢◌, ◌⊎◌, inl, inr, Bool, true, false, ◌==◌, ==_iff, Bool-cases,
  ==_refl, Run, assert-ok, ok-injective, ok,
}
use mathlib.Core.Bool.{false≢true}
use btkernel.Operand.{
  OperType, invalid, op_reg, op_seg, op_mem, op_imm, op_pcrel, op_cr, op_db, op_tr, op_mmx, op_xmm,
  op_3dnow, op_prefix, op_st, type_num, type_eq, Operand, mem_equal, scalar_equal, same_value,
  operands_equal, imm_ok,
}
use btkernel.Operand.Equal.{
  Same, SameValue, Same-refl, type_eq→eq, scalar_equal-parts, mem_equal-SameMem, SameMem-mem_equal,
  scalar_equal-of,
}

-- The operands that the code compares without a failed ASSERT.
abbrev pub IsComparable : OperType → Operand → Type 0
IsComparable op_pcrel a = ⊥
IsComparable op_st a = ⊥
IsComparable op_imm a = imm_ok a ≡ true
IsComparable _ a = Unit

-- Two comparable operands of type `t` are compared without a failed assertion, and rightly.
abbrev pub Decides : Run Bool → Type 0 → Type 0
Decides r P = ((r ≡ ok true) × P) ⊎ (r ≡ ok false) × ¬ P

scalar-Decides :
    (a b : Operand) → Decides (ok (scalar_equal a b)) ((a.val ≡ b.val) × (a.tag ≡ b.tag))
scalar-Decides a b = elim (Bool-cases (scalar_equal a b)) [
  | inl h ↦ inl (ap ok h, scalar_equal-parts a b h)
  | inr h ↦ inr (ap ok h, λ p. false≢true (sym h ∙ scalar_equal-of a b p))
]

same_value-Decides :
    (t : OperType) (a b : Operand)
    → IsComparable t a
    → IsComparable t b
    → Decides (same_value t a b) (SameValue t a b)
unfolding same_value
same_value-Decides invalid a b p q = inl (refl, tt)
same_value-Decides op_mem a b p q = elim (Bool-cases (mem_equal a b)) [
  | inl h ↦ inl (ap ok h, mem_equal-SameMem a b h)
  | inr h ↦ inr (ap ok h, λ s. false≢true (sym h ∙ SameMem-mem_equal a b s))
]
same_value-Decides op_imm a b p q = rw (p, q) (scalar-Decides a b)
same_value-Decides op_pcrel a b p q = elim p [ ]
same_value-Decides op_st a b p q = elim p [ ]
same_value-Decides op_reg a b p q = scalar-Decides a b
same_value-Decides op_seg a b p q = scalar-Decides a b
same_value-Decides op_cr a b p q = scalar-Decides a b
same_value-Decides op_db a b p q = scalar-Decides a b
same_value-Decides op_tr a b p q = scalar-Decides a b
same_value-Decides op_mmx a b p q = scalar-Decides a b
same_value-Decides op_xmm a b p q = scalar-Decides a b
same_value-Decides op_3dnow a b p q = scalar-Decides a b
same_value-Decides op_prefix a b p q = scalar-Decides a b

-- For operands that are neither jump targets nor of the stack of the floating point unit, and whose
-- constant immediates have no size, `operands_equal` returns, and answers whether they are of the
-- same type and size and agree in what their type says is there: for memory operands all fields and
-- tags but the address size, for others the value and the tag.
pub operands_equal-Decides :
    (a b : Operand)
    → IsComparable a.type a
    → IsComparable b.type b
    → Decides (operands_equal a b) (Same a b)
unfolding operands_equal
operands_equal-Decides a b p q = elim (Bool-cases (type_eq a.type b.type)) [
  | inr no_type ↦
      rw no_type (inr (refl, λ s. false≢true (sym no_type ∙ (==_iff _ _).1 (ap type_num s.type))))
  | inl t ↦ elim (Bool-cases (a.size == b.size)) [
    | inr no_size ↦
        rw (t, no_size) (inr (refl, λ s. false≢true (sym no_size ∙ (==_iff _ _).1 s.size)))
    | inl s ↦
        let same_type = type_eq→eq _ _ t in
        rw (t, s)
          (elim (same_value-Decides a.type a b p
            (subst (λ u. IsComparable u b) (sym same_type) q)) [
              | inl (run, v) ↦
                  inl (run, record { type = same_type; size = (==_iff _ _).0 s; value = v })
              | inr (run, differ) ↦ inr (run, λ s. differ s.value)
            ])
  ]
]

pub operands_equal_refl : (a : Operand) → IsComparable a.type a → operands_equal a a ≡ ok true
operands_equal_refl a p = elim (operands_equal-Decides a a p p) [
  | inl (run, s) ↦ run
  | inr (run, differ) ↦ absurd (differ (Same-refl a))
]

pub operands_equal-sizes :
    (a b : Operand) → a.type ≡ b.type → a.size ≢ b.size → operands_equal a b ≡ ok false
unfolding operands_equal
operands_equal-sizes a b types differ = elim (Bool-cases (a.size == b.size)) [
  | inl same ↦ absurd (differ ((==_iff _ _).0 same))
  | inr other ↦ rw (types, ==_refl (type_num b.type), other)
]

same_value-differs :
    (type : OperType) (a b : Operand) → same_value type a b ≡ ok false → ¬ SameValue type a b
unfolding same_value
same_value-differs invalid a b h s = absurd (cc)
same_value-differs op_mem a b h s = false≢true (sym (ok-injective _ _ h) ∙ SameMem-mem_equal a b s)
same_value-differs op_imm a b h s =
    let (_, h₁) = assert-ok (imm_ok a) _ h in
    let (_, h₂) = assert-ok (imm_ok b) _ h₁ in
    false≢true (sym (ok-injective _ _ h₂) ∙ scalar_equal-of a b s)
same_value-differs op_pcrel a b h s = absurd (cc)
same_value-differs op_st a b h s = absurd (cc)
same_value-differs op_reg a b h s = false≢true (sym (ok-injective _ _ h) ∙ scalar_equal-of a b s)
same_value-differs op_seg a b h s = false≢true (sym (ok-injective _ _ h) ∙ scalar_equal-of a b s)
same_value-differs op_cr a b h s = false≢true (sym (ok-injective _ _ h) ∙ scalar_equal-of a b s)
same_value-differs op_db a b h s = false≢true (sym (ok-injective _ _ h) ∙ scalar_equal-of a b s)
same_value-differs op_tr a b h s = false≢true (sym (ok-injective _ _ h) ∙ scalar_equal-of a b s)
same_value-differs op_mmx a b h s = false≢true (sym (ok-injective _ _ h) ∙ scalar_equal-of a b s)
same_value-differs op_xmm a b h s = false≢true (sym (ok-injective _ _ h) ∙ scalar_equal-of a b s)
same_value-differs op_3dnow a b h s = false≢true (sym (ok-injective _ _ h) ∙ scalar_equal-of a b s)
same_value-differs op_prefix a b h s = false≢true (sym (ok-injective _ _ h) ∙ scalar_equal-of a b s)

pub operands_equal-differs : (a b : Operand) → operands_equal a b ≡ ok false → ¬ Same a b
unfolding operands_equal
operands_equal-differs a b h s =
    let t : type_eq a.type b.type ≡ true = rw s.type (==_refl (type_num b.type)) in
    same_value-differs a.type a b (rw (t, (==_iff _ _).1 s.size) at h) s.value
