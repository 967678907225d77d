-- ===== src/Operand/Equal.antt =====
-- `operands_equal` of btmod/bt/peep/insn.c is equality of what the operand's type says is there.
use btkernel.Base.{
  ℕ, zero, suc, ◌≡◌, refl, sym, ap, ◌∙◌, inl, inr, Bool, true, ◌==◌, ==_iff, Bool-cases, ==_refl,
  and_parts, Run, assert-ok, ok-injective, ok,
}
use btkernel.Insntypes.{Tag, tag_num-injective, tag_eq, tag_num}
use btkernel.Operand.{
  OperType, invalid, op_reg, op_seg, op_mem, op_imm, op_pcrel, op_cr, op_db, op_tr, op_mmx, op_xmm,
  op_3dnow, op_prefix, op_st, type_num, type_eq, segtype_eq, Operand, mem_equal, scalar_equal,
  same_value, operands_equal, SegType, imm_ok, segtype_sel, segtype_desc,
}

pub type_num-injective : (a b : OperType) → type_num a ≡ type_num b → a ≡ b
type_num-injective a b e = sym (inverse a) ∙ ap type_of e ∙ inverse b
  where
    type_of : ℕ → OperType
    type_of zero = invalid
    type_of (suc zero) = op_reg
    type_of (suc (suc zero)) = op_seg
    type_of (suc (suc (suc zero))) = op_mem
    type_of (suc (suc (suc (suc zero)))) = op_imm
    type_of (suc (suc (suc (suc (suc zero))))) = op_pcrel
    type_of (suc (suc (suc (suc (suc (suc zero)))))) = op_cr
    type_of (suc (suc (suc (suc (suc (suc (suc zero))))))) = op_db
    type_of (suc (suc (suc (suc (suc (suc (suc (suc zero)))))))) = op_tr
    type_of (suc (suc (suc (suc (suc (suc (suc (suc (suc zero))))))))) = op_mmx
    type_of (suc (suc (suc (suc (suc (suc (suc (suc (suc (suc zero)))))))))) = op_xmm
    type_of (suc (suc (suc (suc (suc (suc (suc (suc (suc (suc (suc zero))))))))))) = op_3dnow
    type_of (suc (suc (suc (suc (suc (suc (suc (suc (suc (suc (suc (suc zero)))))))))))) = op_prefix
    type_of (suc (suc (suc (suc (suc (suc (suc (suc (suc (suc (suc (suc (suc n))))))))))))) = op_st

    inverse : (t : OperType) → type_of (type_num t) ≡ t
    inverse invalid = refl
    inverse op_reg = refl
    inverse op_seg = refl
    inverse op_mem = refl
    inverse op_imm = refl
    inverse op_pcrel = refl
    inverse op_cr = refl
    inverse op_db = refl
    inverse op_tr = refl
    inverse op_mmx = refl
    inverse op_xmm = refl
    inverse op_3dnow = refl
    inverse op_prefix = refl
    inverse op_st = refl

pub tag_eq→eq : (a b : Tag) → tag_eq a b ≡ true → a ≡ b
tag_eq→eq a b h = tag_num-injective a b ((==_iff _ _).0 h)

pub type_eq→eq : (a b : OperType) → type_eq a b ≡ true → a ≡ b
type_eq→eq a b h = type_num-injective a b ((==_iff _ _).0 h)

-- The two memory operands agree in all fields but the address size.
pub record SameMem (a b : Operand) : Type 0 where
  pub segtype : a.mem.segtype ≡ b.mem.segtype
  pub seg : a.mem.seg ≡ b.mem.seg
  pub base : a.mem.base ≡ b.mem.base
  pub scale : a.mem.scale ≡ b.mem.scale
  pub index : a.mem.index ≡ b.mem.index
  pub disp : a.mem.disp ≡ b.mem.disp
  pub tag : a.tag ≡ b.tag
  pub seg_tag : a.mem_tag.seg ≡ b.mem_tag.seg
  pub base_tag : a.mem_tag.base ≡ b.mem_tag.base
  pub index_tag : a.mem_tag.index ≡ b.mem_tag.index
  pub disp_tag : a.mem_tag.disp ≡ b.mem_tag.disp

-- The operands agree in what their type says is there.
abbrev pub SameValue : OperType → Operand → Operand → Type 0
SameValue invalid a b = Unit
SameValue op_mem a b = SameMem a b
SameValue _ a b = (a.val ≡ b.val) × (a.tag ≡ b.tag)

pub record Same (a b : Operand) : Type 0 where
  pub type : a.type ≡ b.type
  pub size : a.size ≡ b.size
  pub value : SameValue a.type a b

-- An operand whose size is set is the same where that was its size.
pub Same-resized : (a : Operand) (s : ℕ) → s ≡ a.size → Same (record a { size = s }) a
Same-resized a s e = record { type = refl; size = e; value = values a.type }
  where
    values : (t : OperType) → SameValue t (record a { size = s }) a
    values op_mem = record {
      segtype = refl;
      seg = refl;
      base = refl;
      scale = refl;
      index = refl;
      disp = refl;
      tag = refl;
      seg_tag = refl;
      base_tag = refl;
      index_tag = refl;
      disp_tag = refl;
    }
    values invalid = tt
    values op_reg = (refl, refl)
    values op_seg = (refl, refl)
    values op_imm = (refl, refl)
    values op_pcrel = (refl, refl)
    values op_cr = (refl, refl)
    values op_db = (refl, refl)
    values op_tr = (refl, refl)
    values op_mmx = (refl, refl)
    values op_xmm = (refl, refl)
    values op_3dnow = (refl, refl)
    values op_prefix = (refl, refl)
    values op_st = (refl, refl)

pub Same-refl : (a : Operand) → Same a a
Same-refl a = Same-resized a a.size refl

pub scalar_equal-parts :
    (a b : Operand) → scalar_equal a b ≡ true → (a.val ≡ b.val) × (a.tag ≡ b.tag)
scalar_equal-parts a b h = let (v, t) = and_parts _ _ h in ((==_iff _ _).0 v, tag_eq→eq _ _ t)

pub segtype_eq→eq : (a b : SegType) → segtype_eq a b ≡ true → a ≡ b
segtype_eq→eq segtype_sel segtype_sel h = refl
segtype_eq→eq segtype_desc segtype_desc h = refl
segtype_eq→eq segtype_sel segtype_desc h = absurd (cc)
segtype_eq→eq segtype_desc segtype_sel h = absurd (cc)

pub segtype_eq_refl : (a : SegType) → segtype_eq a a ≡ true
segtype_eq_refl segtype_sel = refl
segtype_eq_refl segtype_desc = refl

pub mem_equal-SameMem : (a b : Operand) → mem_equal a b ≡ true → SameMem a b
unfolding mem_equal
mem_equal-SameMem a b h =
    let (e₁, h₁) = and_parts _ _ h in
    let (e₂, h₂) = and_parts _ _ h₁ in
    let (e₃, h₃) = and_parts _ _ h₂ in
    let (e₄, h₄) = and_parts _ _ h₃ in
    let (e₅, h₅) = and_parts _ _ h₄ in
    let (e₆, h₆) = and_parts _ _ h₅ in
    let (e₇, h₇) = and_parts _ _ h₆ in
    let (e₈, h₈) = and_parts _ _ h₇ in
    let (e₉, h₉) = and_parts _ _ h₈ in
    let (e₁₀, e₁₁) = and_parts _ _ h₉ in
    record {
      segtype = segtype_eq→eq _ _ e₁;
      seg = (==_iff _ _).0 e₂;
      base = (==_iff _ _).0 e₃;
      scale = (==_iff _ _).0 e₄;
      index = (==_iff _ _).0 e₅;
      disp = (==_iff _ _).0 e₆;
      seg_tag = tag_eq→eq _ _ e₇;
      tag = tag_eq→eq _ _ e₈;
      base_tag = tag_eq→eq _ _ e₉;
      index_tag = tag_eq→eq _ _ e₁₀;
      disp_tag = tag_eq→eq _ _ e₁₁;
    }

pub SameMem-mem_equal : (a b : Operand) → SameMem a b → mem_equal a b ≡ true
unfolding mem_equal
SameMem-mem_equal a b s = rw (
  s.segtype,
  s.seg,
  s.base,
  s.scale,
  s.index,
  s.disp,
  s.seg_tag,
  s.tag,
  s.base_tag,
  s.index_tag,
  s.disp_tag,
  segtype_eq_refl b.mem.segtype,
  ==_refl b.mem.seg,
  ==_refl b.mem.base,
  ==_refl b.mem.scale,
  ==_refl b.mem.index,
  ==_refl b.mem.disp,
  ==_refl (tag_num b.mem_tag.seg),
  ==_refl (tag_num b.tag),
  ==_refl (tag_num b.mem_tag.base),
  ==_refl (tag_num b.mem_tag.index),
  ==_refl (tag_num b.mem_tag.disp),
)

pub scalar_equal-of : (a b : Operand) → (a.val ≡ b.val) × (a.tag ≡ b.tag) → scalar_equal a b ≡ true
scalar_equal-of a b (v, t) = rw (v, t, ==_refl b.val, ==_refl (tag_num b.tag))

scalar-SameValue :
    (a b : Operand)
    → ◌≡◌ {A = Run Bool} (ok (scalar_equal a b)) (ok true)
    → (a.val ≡ b.val) × (a.tag ≡ b.tag)
scalar-SameValue a b h = scalar_equal-parts a b (ok-injective _ _ h)

same_value-SameValue : (t : OperType) (a b : Operand) → same_value t a b ≡ ok true → SameValue t a b
unfolding same_value
same_value-SameValue invalid a b h = tt
same_value-SameValue op_mem a b h = mem_equal-SameMem a b (ok-injective _ _ h)
same_value-SameValue op_imm a b h =
    scalar-SameValue a b (assert-ok (imm_ok b) _ (assert-ok (imm_ok a) _ h).1).1
same_value-SameValue op_pcrel a b h = absurd (cc)
same_value-SameValue op_st a b h = absurd (cc)
same_value-SameValue op_reg a b h = scalar-SameValue a b h
same_value-SameValue op_seg a b h = scalar-SameValue a b h
same_value-SameValue op_cr a b h = scalar-SameValue a b h
same_value-SameValue op_db a b h = scalar-SameValue a b h
same_value-SameValue op_tr a b h = scalar-SameValue a b h
same_value-SameValue op_mmx a b h = scalar-SameValue a b h
same_value-SameValue op_xmm a b h = scalar-SameValue a b h
same_value-SameValue op_3dnow a b h = scalar-SameValue a b h
same_value-SameValue op_prefix a b h = scalar-SameValue a b h

-- An answer of true means that the operands are the same.
pub operands_equal-Same : (a b : Operand) → operands_equal a b ≡ ok true → Same a b
unfolding operands_equal
operands_equal-Same a b h = elim (Bool-cases (type_eq a.type b.type)) [
  | inr no_type ↦ absurd (cc (rw no_type at h))
  | inl t ↦ elim (Bool-cases (a.size == b.size)) [
    | inr no_size ↦ absurd (cc (rw (t, no_size) at h))
    | inl s ↦ record {
      type = type_eq→eq _ _ t;
      size = (==_iff _ _).0 s;
      value = same_value-SameValue a.type a b (rw (t, s) at h);
    }
  ]
]
