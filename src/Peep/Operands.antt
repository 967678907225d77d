-- ===== src/Peep/Operands.antt =====
-- A match of one operand against the template's, `operands_match` of btmod/bt/peep/peep.c.
use btkernel.Base.{
  ◌*◌, ◌%◌, ◌^◌, ◌≡◌, refl, sym, ap, ◌∙◌, subst, ◌≢◌, inl, inr, true, false, Option, none, some, [],
  ◌++◌, ltb, ◌==◌, if◌then◌else◌, ltb→lt, ==_iff, Bool-cases, Extends, Extends-refl, Extends-trans,
  ◌>>=◌, assert-ok, bind-ok, panic, ok, stop,
}
use mathlib.Core.Bool.{false≢true}
use btkernel.Insntypes.{tag_const, tag_eq}
use btkernel.Operand.{
  op_reg, op_imm, op_seg, op_mem, invalid, type_eq, SegType, segtype_sel, segtype_desc, segtype_eq,
  Operand, operands_equal,
}
use btkernel.Operand.Equal.{operands_equal-Same, tag_eq→eq, type_eq→eq, segtype_eq→eq}
use btkernel.Assignments.{
  Assignments, assignments_getval, assignments_add, assignment_is_coherent, append_assignments,
  is_const,
}
use btkernel.Assignments.Assigns.{append_assignments-++, add-Assigns, Assigns}
use btkernel.Peep.{
  seg_match, base_match, index_match, disp_match, mem_operands_match, size_match, var_match,
  const_match, operands_match,
}
use btkernel.Peep.Fields.{
  guard_not-some, and_then-some, some-ok, if-some, mem_match-FieldMatched, join-FieldMatched,
  Extends-append,
}
use btkernel.Peep.Matched.{
  SegFields, MemMatched, Matched, absent, assigned, fitting, constant, memory, Extends-SegFields,
}

-- A variable that had no value gets the operand.
added :
    (A B : Assignments) (op templ : Operand)
    → (templ.type ≡ op_reg → op.size ≡ templ.size)
    → (assignments_add A templ op >>= λ all. ok (some all)) ≡ ok (some B)
    → Extends A B × Assigns B templ op
added A B op templ sizes h =
    let (all, e, h₁) = bind-ok (assignments_add A templ op) _ h in
    add-Assigns A B templ op sizes (e ∙ ap ok (some-ok B all h₁))

var_match-Assigns :
    (A B : Assignments) (op templ : Operand)
    → op.size ≡ templ.size
    → var_match op templ A ≡ ok (some B)
    → Extends A B × Assigns B templ op
unfolding var_match
var_match-Assigns A B op templ sizes h =
    let (found, _, h₁) = bind-ok (assignments_getval A templ) _ h in step found h₁
  where
    step :
        (found : Option Operand)
        → (elim found [
          | some v ↦ operands_equal v op >>= λ same. (if same then stop panic else ok none)
          | none ↦ assignment_is_coherent templ op >>= λ coherent. elim coherent [
            | false ↦ ok none
            | true ↦ assignments_add A templ op >>= λ all. ok (some all)
          ]
        ])
          ≡ ok (some B)
        → Extends A B × Assigns B templ op
    step (some v) h₁ =
        let (same, _, h₂) = bind-ok (operands_equal v op) _ h₁ in
        elim (Bool-cases same) [
          | inl e ↦ absurd (cc (rw e at h₂))
          | inr e ↦ absurd (cc (rw e at h₂))
        ]
    step none h₁ =
        let (coherent, _, h₂) = bind-ok (assignment_is_coherent templ op) _ h₁ in
        elim (Bool-cases coherent) [
          | inr bad ↦ absurd (cc (rw bad at h₂))
          | inl good ↦ added A B op templ (λ _. sizes) (rw good at h₂)
        ]

size_match-Matched :
    (A B : Assignments) (op templ : Operand)
    → op.type ≡ templ.type
    → size_match op templ A ≡ ok (some B)
    → Extends A B × Matched B op templ
unfolding size_match
size_match-Matched A B op templ types h =
    let (zero_size, h₁) = guard_not-some B (op.size == 0) _ h in
    elim (Bool-cases (type_eq op.type op_imm)) [
      | inr other ↦ absurd (cc (rw other at h₁))
      | inl is_imm ↦
          let t = type_eq→eq _ _ is_imm in
          elim (Bool-cases (ltb (templ.size * 8) 64)) [
            | inr wide ↦ absurd (cc (rw (is_imm, wide) at h₁))
            | inl narrow ↦
                let (fits, h₂) =
                  guard_not-some B (ltb op.val (2 ^ (templ.size * 8))) _
                    (rw (is_imm, narrow) at h₁) in
                let (more, says) =
                  added A B op templ (λ reg. absurd (imm≢reg (sym t ∙ types ∙ reg))) h₂ in
                (more, fitting t ((==_iff _ _).0 zero_size) (ltb→lt _ _ fits) says)
          ]
    ]
  where
    imm≢reg : op_imm ≢ op_reg
    imm≢reg e = false≢true (ap (λ u. type_eq u op_reg) e)

seg_match-SegFields :
    (A tmp tmp' : Assignments) (op templ : Operand)
    → seg_match op templ A tmp ≡ ok (some tmp')
    → Extends tmp tmp' × SegFields op.mem.segtype (A ++ tmp') op templ
unfolding seg_match
seg_match-SegFields A tmp tmp' op templ h =
    elim (Bool-cases (segtype_eq op.mem.segtype segtype_sel)) [
      | inl sel ↦
          let e = segtype_eq→eq _ _ sel in
          let (more, k) =
            mem_match-FieldMatched A tmp tmp' op_seg op.mem.addrsize (templ.mem.seg % 16)
              templ.mem_tag.seg (op.mem.seg % 16) op.mem_tag.seg (rw sel at h) in
          (more, subst (λ s. SegFields s (A ++ tmp') op templ) (sym e) k)
      | inr desc ↦
          let (more, k) =
            mem_match-FieldMatched A tmp tmp' op_imm op.mem.addrsize templ.mem.seg templ.mem_tag.seg
              op.mem.seg op.mem_tag.seg (rw desc at h) in
          (more, subst (λ s. SegFields s (A ++ tmp') op templ) (sym (other op.mem.segtype desc)) k)
    ]
  where
    other : (s : SegType) → segtype_eq s segtype_sel ≡ false → s ≡ segtype_desc
    other segtype_sel e = absurd (cc)
    other segtype_desc e = refl

mem_operands_match-MemMatched :
    (A B : Assignments) (op templ : Operand)
    → mem_operands_match op templ A ≡ ok (some B)
    → Extends A B × MemMatched B op templ
unfolding mem_operands_match base_match index_match disp_match
mem_operands_match-MemMatched A B op templ h =
    let (_, h₁) = assert-ok (type_eq op.type op_mem) _ h in
    let (_, h₂) = assert-ok (type_eq templ.type op_mem) _ h₁ in
    let (const, h₃) = assert-ok (is_const templ) _ h₂ in
    let (addrsize, h₄) = guard_not-some B (op.mem.addrsize == templ.mem.addrsize) _ h₃ in
    let (segtype, h₅) = guard_not-some B (segtype_eq op.mem.segtype templ.mem.segtype) _ h₄ in
    let (t₁, e₁, h₆) = and_then-some B (seg_match op templ A []) _ h₅ in
    let (t₂, e₂, h₇) = and_then-some B (base_match op templ A t₁) _ h₆ in
    let (t₃, e₃, h₈) = and_then-some B (index_match op templ A t₂) _ h₇ in
    let (scale, h₉) = guard_not-some B (templ.mem.scale == op.mem.scale) _ h₈ in
    let (t₄, e₄, h₁₀) = and_then-some B (disp_match op templ A t₃) _ h₉ in
    let (all, a, h₁₁) = bind-ok (append_assignments A t₄) _ h₁₀ in
    let last = append_assignments-++ A t₄ all a ∙ some-ok B all h₁₁ in
    let (x₁, seg) = seg_match-SegFields A [] t₁ op templ e₁ in
    let (x₂, base) =
      mem_match-FieldMatched A t₁ t₂ op_reg op.mem.addrsize templ.mem.base templ.mem_tag.base
        op.mem.base op.mem_tag.base e₂ in
    let (x₃, index) =
      mem_match-FieldMatched A t₂ t₃ op_reg op.mem.addrsize templ.mem.index templ.mem_tag.index
        op.mem.index op.mem_tag.index e₃ in
    let (x₄, disp) =
      mem_match-FieldMatched A t₃ t₄ op_imm op.mem.addrsize templ.mem.disp templ.mem_tag.disp
        op.mem.disp op.mem_tag.disp e₄ in
    let x₃₄ = Extends-trans t₂ t₃ t₄ x₃ x₄ in
    (
      (t₄, sym last),
      subst (λ u. MemMatched u op templ) last
          (record {
            const = tag_eq→eq _ _ const;
            addrsize = (==_iff _ _).0 addrsize;
            segtype = segtype_eq→eq _ _ segtype;
            scale = sym ((==_iff _ _).0 scale);
            seg =
                Extends-SegFields (A ++ t₁) (A ++ t₄)
                  (Extends-append A t₁ t₄ (Extends-trans t₁ t₂ t₄ x₂ x₃₄)) op.mem.segtype op templ
                  seg;
            base =
                join-FieldMatched A t₂ t₄ op_reg op.mem.addrsize templ.mem.base templ.mem_tag.base
                  op.mem.base op.mem_tag.base x₃₄ base;
            index =
                join-FieldMatched A t₃ t₄ op_reg op.mem.addrsize templ.mem.index templ.mem_tag.index
                  op.mem.index op.mem_tag.index x₄ index;
            disp = disp;
          }),
    )

pub operands_match-type :
    (A B : Assignments) (op templ : Operand)
    → operands_match op templ A ≡ ok (some B)
    → op.type ≡ templ.type
unfolding operands_match
operands_match-type A B op templ h =
    type_eq→eq _ _ (guard_not-some B (type_eq op.type templ.type) _ h).0

pub operands_match-Matched :
    (A B : Assignments) (op templ : Operand)
    → operands_match op templ A ≡ ok (some B)
    → Extends A B × Matched B op templ
unfolding operands_match const_match
operands_match-Matched A B op templ h =
    let (types, h₁) = guard_not-some B (type_eq op.type templ.type) _ h in
    let t = type_eq→eq _ _ types in
    elim (Bool-cases (op.size == templ.size)) [
      | inr differ ↦ size_match-Matched A B op templ t (rw differ at h₁)
      | inl sizes ↦
          let s = (==_iff _ _).0 sizes in
          elim (Bool-cases (type_eq op.type invalid)) [
            | inl no_op ↦ (
              subst (λ u. Extends A u) (some-ok B A (rw (sizes, no_op) at h₁)) (Extends-refl A),
              absent (type_eq→eq _ _ no_op),
            )
            | inr is_op ↦ elim (Bool-cases (is_const templ)) [
              | inr var ↦
                  let (more, says) =
                    var_match-Assigns A B op templ s (rw (sizes, is_op, var) at h₁) in
                  (
                    more,
                    assigned (λ e. false≢true (sym var ∙ ap (λ u. tag_eq u tag_const) e)) s says,
                  )
              | inl const ↦ elim (Bool-cases (type_eq op.type op_mem)) [
                | inl is_mem ↦
                    let (more, m) =
                      mem_operands_match-MemMatched A B op templ
                        (rw (sizes, is_op, const, is_mem) at h₁) in
                    (more, memory (type_eq→eq _ _ is_mem) s m)
                | inr plain ↦
                    let (same, e, h₂) =
                      bind-ok (operands_equal templ op) _ (rw (sizes, is_op, const, plain) at h₁) in
                    let (is_same, kept) = if-some B same A h₂ in
                    (
                      subst (λ u. Extends A u) kept (Extends-refl A),
                      constant (tag_eq→eq _ _ const)
                          (operands_equal-Same templ op (e ∙ ap ok is_same)),
                    )
              ]
            ]
          ]
    ]
