-- ===== src/Peep/Entries.antt =====
-- The entries that the matching of btmod/bt/peep/peep.c adds to an array of assignments: each is for
-- a new variable, and its constant satisfies the variable's tag.
use btkernel.Assignments.Tags.{Satisfies, val_satisfies_tag-Satisfies}
use btkernel.Base.{
  ◌≡◌, refl, sym, ap, ◌∙◌, subst, ◌≢◌, ◌⊎◌, inl, inr, Bool, true, false, not, ◌&&◌, ◌||◌, none,
  some, [], ◌∷◌, ◌++◌, ltb, leb, ◌==◌, if◌then◌else◌, ==_iff, Bool-cases, and_parts, length, All,
  All-mono, assert, ◌>>=◌, ◌>>◌, assert-ok, bind-ok, ok-injective, ok,
}
use btkernel.Insntypes.{tag_const}
use btkernel.Operand.{
  OperType, invalid, op_reg, op_seg, op_mem, op_imm, op_pcrel, op_cr, op_db, op_tr, op_mmx, op_xmm,
  op_3dnow, op_prefix, op_st, Operand, type_eq,
}
use mathlib.Core.Bool.{false≢true}
use btkernel.Operand.Decides.{operands_equal-differs}
use btkernel.Operand.Equal.{Same, SameValue, tag_eq→eq, type_eq→eq}
use btkernel.Assignments.{
  Assignment, Assignments, assignments_getval, assignments_add, assignment_is_coherent, whole,
  is_const, val_satisfies_tag, is_reg, max_variables,
}
use btkernel.Assignments.Lookup.{IsOther, assignments_getval-IsOther}
use btkernel.Peep.Fields.{some-ok}

-- A constant register, or constant segment register, that the variable's tag allows.
abbrev IsAllowed : OperType → Operand → Operand → Type 0
IsAllowed op_reg var val = (val.tag ≡ tag_const) × Satisfies val.val var.tag
IsAllowed op_seg var val = (val.tag ≡ tag_const) × Satisfies val.val var.tag
IsAllowed type var val = Unit

-- The constant may be assigned to the variable.
pub record Coherent (var val : Operand) : Type 0 where
  pub type : var.type ≡ val.type
  pub allowed : IsAllowed var.type var val

-- The entry is for another variable, and if both are registers, for another register.
abbrev pub IsApart : Operand → Assignment → Type 0
IsApart var a = (¬ Same a.var var) × (a.var.type ≡ op_reg → var.type ≡ op_reg → a.var.val ≢ var.val)

-- A new entry behind those of the array.
pub record IsNew (A : Assignments) (g : Assignment) : Type 0 where
  pub coherent : Coherent g.var g.val
  pub apart : All (IsApart g.var) A

assignment_is_coherent_lem :
    (var val : Operand) → assignment_is_coherent var val ≡ ok true → Coherent var val
unfolding assignment_is_coherent
assignment_is_coherent_lem var val h =
    let (types, h₁) = assert-ok (type_eq var.type val.type) _ h in
    record { type = type_eq→eq _ _ types; allowed = split var.type h₁ }
  where
    allow :
        (assert (not (is_const var))
            >> (assert (is_const val) >> val_satisfies_tag val.val var.tag))
          ≡ ok true
        → (val.tag ≡ tag_const) × Satisfies val.val var.tag
    allow h =
        let (_, h₁) = assert-ok (not (is_const var)) _ h in
        let (const, h₂) = assert-ok (is_const val) _ h₁ in
        (tag_eq→eq _ _ const, val_satisfies_tag-Satisfies val.val var.tag h₂)

    split :
        (type : OperType)
        → (if type_eq type op_reg || type_eq type op_seg
            then (assert (not (is_const var))
                >> (assert (is_const val) >> val_satisfies_tag val.val var.tag))
            else ok true)
          ≡ ok true
        → IsAllowed type var val
    split op_reg h = allow h
    split op_seg h = allow h
    split invalid h = tt
    split op_mem h = tt
    split op_imm h = tt
    split op_pcrel h = tt
    split op_cr h = tt
    split op_db h = tt
    split op_tr h = tt
    split op_mmx h = tt
    split op_xmm h = tt
    split op_3dnow h = tt
    split op_prefix h = tt
    split op_st h = tt

IsOther-IsApart : (templ : Operand) (a : Assignment) → IsOther templ a → IsApart templ a
IsOther-IsApart templ a (differ, other) = (
  operands_equal-differs a.var templ differ,
  λ t t' e. elim other [
    | inl types ↦ false≢true (sym types ∙ rw (t, t'))
    | inr val ↦ false≢true (sym val ∙ (==_iff _ _).1 (sym e))
  ],
)

-- The entry that is stored differs from what is assigned in the two sizes at most, and only for a
-- register.
whole-parts :
    (t o : Operand) (g : Assignment)
    → whole t o ≡ ok g
    → ((g.var ≡ t) × (g.val ≡ o))
      ⊎ ((t.type ≡ op_reg) × (g.var ≡ record t { size = 4 }) × (g.val ≡ record o { size = 4 }))
unfolding whole
whole-parts t o g h = elim (Bool-cases (is_reg t && not (t.size == 4))) [
  | inr plain ↦
      let e = ok-injective _ g (rw plain at h) in
      inl (ap (λ (a : Assignment). a.var) (sym e), ap (λ (a : Assignment). a.val) (sym e))
  | inl resized ↦
      let (_, h₁) = assert-ok (leb t.size 4) _ (rw resized at h) in
      let (_, h₂) = assert-ok (leb o.size 4) _ h₁ in
      let e = ok-injective _ g h₂ in
      let (reg, size) = and_parts (is_reg t) _ resized in
      inr (
        type_eq→eq _ _ reg,
        ap (λ (a : Assignment). a.var) (sym e),
        ap (λ (a : Assignment). a.val) (sym e),
      )
]

resized-Coherent :
    (t o : Operand) → Coherent t o → Coherent (record t { size = 4 }) (record o { size = 4 })
resized-Coherent t o c = record { type = c.type; allowed = allowed t.type c.allowed }
  where
    allowed :
        (type : OperType)
        → IsAllowed type t o
        → IsAllowed type (record t { size = 4 }) (record o { size = 4 })
    allowed op_reg h = h
    allowed op_seg h = h
    allowed invalid h = tt
    allowed op_mem h = tt
    allowed op_imm h = tt
    allowed op_pcrel h = tt
    allowed op_cr h = tt
    allowed op_db h = tt
    allowed op_tr h = tt
    allowed op_mmx h = tt
    allowed op_xmm h = tt
    allowed op_3dnow h = tt
    allowed op_prefix h = tt
    allowed op_st h = tt

resized-IsApart :
    (t : Operand) (a : Assignment)
    → t.type ≡ op_reg
    → IsApart t a
    → IsApart (record t { size = 4 }) a
resized-IsApart t a reg (differ, other) = (
  λ s.
      let is_reg_var : a.var.type ≡ op_reg = s.type ∙ reg in
      let value = subst (λ u. SameValue u a.var (record t { size = 4 })) is_reg_var s.value in
      other is_reg_var reg value.0,
  other,
)

pub whole-Coherent :
    (t o : Operand) (g : Assignment) → whole t o ≡ ok g → Coherent t o → Coherent g.var g.val
whole-Coherent t o g e c = elim (whole-parts t o g e) [
  | inl (v, w) ↦ rw (v, w) c
  | inr (reg, v, w) ↦ rw (v, w) (resized-Coherent t o c)
]

whole-IsApart :
    (t o : Operand) (g a : Assignment) → whole t o ≡ ok g → IsApart t a → IsApart g.var a
whole-IsApart t o g a e apart = elim (whole-parts t o g e) [
  | inl (v, w) ↦ subst (λ u. IsApart u a) (sym v) apart
  | inr (reg, v, w) ↦ subst (λ u. IsApart u a) (sym v) (resized-IsApart t a reg apart)
]

-- The entry that an addition puts behind an array.
pub add-whole :
    (C D : Assignments) (t o : Operand)
    → assignments_add C t o ≡ ok D
    → (g : Assignment) × (D ≡ C ++ g ∷ []) × (whole t o ≡ ok g)
unfolding assignments_add
add-whole C D t o h =
    let (_, h₁) = assert-ok (ltb (length C) max_variables) _ h in
    let (g, e, h₂) = bind-ok (whole t o) _ h₁ in (g, sym (ok-injective _ D h₂), e)

-- What the code does with a variable that a lookup in `A` has not found: its entry, behind `C`, is
-- new for `A`.
pub add_step-IsNew :
    (A C D : Assignments) (t o : Operand)
    → assignments_getval A t ≡ ok none
    → (assignment_is_coherent t o >>= λ coherent. elim coherent [
      | false ↦ ok none
      | true ↦ assignments_add C t o >>= λ all. ok (some all)
    ])
      ≡ ok (some D)
    → (g : Assignment) × (D ≡ C ++ g ∷ []) × IsNew A g
unfolding assignments_getval
add_step-IsNew A C D t o missed h =
    let (coherent, c, h₁) = bind-ok (assignment_is_coherent t o) _ h in
    elim (Bool-cases coherent) [
      | inr bad ↦ absurd (cc (rw bad at h₁))
      | inl good ↦
          let (all, a, h₂) = bind-ok (assignments_add C t o) _ (rw good at h₁) in
          let (g, e, w) = add-whole C D t o (a ∙ ap ok (some-ok D all h₂)) in
          let (var, _) = assert-ok (not (is_const t)) _ missed in
          let others = assignments_getval-IsOther t (not_true _ var) A missed in
          (
            g,
            e,
            record {
              coherent = whole-Coherent t o g w (assignment_is_coherent_lem t o (c ∙ ap ok good));
              apart = All-mono A (λ a p. whole-IsApart t o g a w (IsOther-IsApart t a p)) others;
            },
          )
    ]
  where
    not_true : (b : Bool) → not b ≡ true → b ≡ false
    not_true false k = refl
    not_true true k = absurd (cc)

pub imm-Coherent : (t o : Operand) → t.type ≡ op_imm → o.type ≡ op_imm → Coherent t o
imm-Coherent t o e g = record {
  type = e ∙ sym g;
  allowed = subst (λ type. IsAllowed type t o) (sym e) tt;
}
