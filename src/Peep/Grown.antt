-- ===== src/Peep/Grown.antt =====
-- What a match of one operand, `operands_match` of btmod/bt/peep/peep.c, adds to the array.
use btkernel.Base.{
  ℕ, ◌*◌, ◌^◌, ◌≡◌, sym, ap, ◌∙◌, subst, ◌≢◌, ◌⊎◌, inl, inr, true, false, ◌&&◌, Option, none, some,
  [], ◌∷◌, ◌++◌, ltb, ◌==◌, if◌then◌else◌, ==_iff, Bool-cases, All, All-append, All-mono, ◌>>=◌,
  assert-ok, bind-ok, panic, ok, stop,
}
use btkernel.Insntypes.{Tag, tag_eq, tag_const}
use btkernel.Operand.{
  OperType, Operand, operands_equal, op_mem, op_reg, op_imm, segtype_eq, type_eq, segtype_sel,
  no_reg, invalid,
}
use mathlib.Core.Bool.{false≢true}
use mathlib.Core.List.{append-nil}
use btkernel.Operand.Equal.{type_eq→eq}
use btkernel.Assignments.{
  Assignments, assignments_getval, assignments_add, assignment_is_coherent, append_assignments,
  is_const,
}
use btkernel.Assignments.Assigns.{append_assignments-++}
use btkernel.Peep.{
  mem_match_var, mem_match, field_operand, seg_match, base_match, index_match, disp_match,
  mem_operands_match, size_match, var_match, const_match, operands_match,
}
use btkernel.Peep.Fields.{guard-some, guard_not-some, and_then-some, some-ok, if-some}
use btkernel.Peep.Entries.{imm-Coherent, Coherent, IsNew, add-whole, whole-Coherent, add_step-IsNew}

-- What one operand adds to the array: entries for variables that had no value before, with constants
-- that their tags allow. Only the entry for an immediate without a size, which fits a variable of
-- some size, may be for a variable that had a value.
pub record Grown (A B : Assignments) (op templ : Operand) : Type 0 where
  pub added : Assignments
  pub behind : B ≡ A ++ added
  pub coherent : All (λ g. Coherent g.var g.val) added
  pub new : All (IsNew A) added ⊎ (op.type ≡ op_imm) × (op.size ≡ 0) × (templ.size ≢ 0)

nothing-Grown : (A B : Assignments) (op templ : Operand) → A ≡ B → Grown A B op templ
nothing-Grown A B op templ e = record {
  added = [];
  behind = sym e ∙ sym (append-nil A);
  coherent = tt;
  new = inl tt;
}

new-Grown :
    (A B G : Assignments) (op templ : Operand) → B ≡ A ++ G → All (IsNew A) G → Grown A B op templ
new-Grown A B G op templ e new = record {
  added = G;
  behind = e;
  coherent = All-mono G (λ g n. n.coherent) new;
  new = inl new;
}

-- The entries of the second array stay new for the first one.
abbrev Keeps : Assignments → Assignments → Assignments → Type 0
Keeps A tmp tmp' = All (IsNew A) tmp → All (IsNew A) tmp'

mem_match_var-Keeps :
    (A tmp tmp' : Assignments) (t o : Operand)
    → mem_match_var A tmp t o ≡ ok (some tmp')
    → Keeps A tmp tmp'
unfolding mem_match_var
mem_match_var-Keeps A tmp tmp' t o h =
    let (found, e, h₁) = bind-ok (assignments_getval A t) _ h in step found e h₁
  where
    step :
        (found : Option Operand)
        → assignments_getval A t ≡ ok found
        → (elim found [
          | some v ↦ operands_equal v o >>= λ same. ok (if same then some tmp else none)
          | none ↦ assignment_is_coherent t o >>= λ coherent. elim coherent [
            | false ↦ ok none
            | true ↦ assignments_add tmp t o >>= λ all. ok (some all)
          ]
        ])
          ≡ ok (some tmp')
        → Keeps A tmp tmp'
    step (some v) e h₁ new =
        let (same, eq, h₂) = bind-ok (operands_equal v o) _ h₁ in
        subst (λ u. All (IsNew A) u) (if-some tmp' same tmp h₂).1 new
    step none e h₁ new =
        let (g, behind, is_new) = add_step-IsNew A tmp tmp' t o e h₁ in
        subst (λ u. All (IsNew A) u) (sym behind)
          (All-append (IsNew A) tmp (g ∷ []) new (is_new, tt))

mem_match-Keeps :
    (A tmp tmp' : Assignments) (type : OperType) (addrsize t : ℕ) (ttag : Tag) (o : ℕ) (otag : Tag)
    → mem_match A tmp type addrsize t ttag o otag ≡ ok (some tmp')
    → Keeps A tmp tmp'
unfolding mem_match
mem_match-Keeps A tmp tmp' type addrsize t ttag o otag h new =
    elim (Bool-cases (tag_eq ttag tag_const)) [
      | inl const ↦ elim (Bool-cases (o == t)) [
        | inl same ↦ subst (λ u. All (IsNew A) u) (some-ok tmp' tmp (rw (const, same) at h)) new
        | inr differ ↦ absurd (cc (rw (const, differ) at h))
      ]
      | inr var ↦
          let (there, h₁) =
            guard-some tmp' (type_eq type op_reg && (o == no_reg)) _ (rw var at h) in
          mem_match_var-Keeps A tmp tmp' (field_operand type addrsize t ttag)
            (field_operand type addrsize o otag) h₁ new
    ]

seg_match-Keeps :
    (A tmp tmp' : Assignments) (op templ : Operand)
    → seg_match op templ A tmp ≡ ok (some tmp')
    → Keeps A tmp tmp'
unfolding seg_match
seg_match-Keeps A tmp tmp' op templ h = elim (Bool-cases (segtype_eq op.mem.segtype segtype_sel)) [
  | inl sel ↦ mem_match-Keeps A tmp tmp' _ _ _ _ _ _ (rw sel at h)
  | inr desc ↦ mem_match-Keeps A tmp tmp' _ _ _ _ _ _ (rw desc at h)
]

mem_operands_match-Grown :
    (A B : Assignments) (op templ : Operand)
    → mem_operands_match op templ A ≡ ok (some B)
    → Grown A B op templ
unfolding mem_operands_match base_match index_match disp_match
mem_operands_match-Grown A B op templ h =
    let (_, h₁) = assert-ok (type_eq op.type op_mem) _ h in
    let (_, h₂) = assert-ok (type_eq templ.type op_mem) _ h₁ in
    let (_, h₃) = assert-ok (is_const templ) _ h₂ in
    let (_, h₄) = guard_not-some B (op.mem.addrsize == templ.mem.addrsize) _ h₃ in
    let (_, h₅) = guard_not-some B (segtype_eq op.mem.segtype templ.mem.segtype) _ h₄ in
    let (t₁, e₁, h₆) = and_then-some B (seg_match op templ A []) _ h₅ in
    let (t₂, e₂, h₇) = and_then-some B (base_match op templ A t₁) _ h₆ in
    let (t₃, e₃, h₈) = and_then-some B (index_match op templ A t₂) _ h₇ in
    let (_, h₉) = guard_not-some B (templ.mem.scale == op.mem.scale) _ h₈ in
    let (t₄, e₄, h₁₀) = and_then-some B (disp_match op templ A t₃) _ h₉ in
    let (all, a, h₁₁) = bind-ok (append_assignments A t₄) _ h₁₀ in
    let n₁ : All (IsNew A) t₁ = seg_match-Keeps A [] t₁ op templ e₁ tt in
    let n₂ : All (IsNew A) t₂ = mem_match-Keeps A t₁ t₂ _ _ _ _ _ _ e₂ n₁ in
    let n₃ : All (IsNew A) t₃ = mem_match-Keeps A t₂ t₃ _ _ _ _ _ _ e₃ n₂ in
    let n₄ : All (IsNew A) t₄ = mem_match-Keeps A t₃ t₄ _ _ _ _ _ _ e₄ n₃ in
    new-Grown A B t₄ op templ (sym (append_assignments-++ A t₄ all a ∙ some-ok B all h₁₁)) n₄

size_match-Grown :
    (A B : Assignments) (op templ : Operand)
    → op.type ≡ templ.type
    → op.size ≢ templ.size
    → size_match op templ A ≡ ok (some B)
    → Grown A B op templ
unfolding size_match
size_match-Grown A B op templ types sizes h =
    let (zero_size, h₁) = guard_not-some B (op.size == 0) _ h in
    let no_size = (==_iff _ _).0 zero_size in
    elim (Bool-cases (type_eq op.type op_imm)) [
      | inr other ↦ absurd (cc (rw other at h₁))
      | inl is_imm ↦
          let t = type_eq→eq _ _ is_imm in
          elim (Bool-cases (ltb (templ.size * 8) 64)) [
            | inr wide ↦ absurd (cc (rw (is_imm, wide) at h₁))
            | inl narrow ↦
                let (_, h₂) =
                  guard_not-some B (ltb op.val (2 ^ (templ.size * 8))) _
                    (rw (is_imm, narrow) at h₁) in
                let (all, a, h₃) = bind-ok (assignments_add A templ op) _ h₂ in
                let (g, behind, w) = add-whole A B templ op (a ∙ ap ok (some-ok B all h₃)) in
                let coherent = imm-Coherent templ op (sym types ∙ t) t in
                record {
                  added = g ∷ [];
                  behind = behind;
                  coherent = (whole-Coherent templ op g w coherent, tt);
                  new = inr (t, no_size, λ e. sizes (no_size ∙ sym e));
                }
          ]
    ]

var_match-Grown :
    (A B : Assignments) (op templ : Operand)
    → var_match op templ A ≡ ok (some B)
    → Grown A B op templ
unfolding var_match
var_match-Grown A B op templ h =
    let (found, e, h₁) = bind-ok (assignments_getval A templ) _ h in step found e h₁
  where
    step :
        (found : Option Operand)
        → assignments_getval A templ ≡ ok found
        → (elim found [
          | some v ↦ operands_equal v op >>= λ same. (if same then stop panic else ok none)
          | none ↦ assignment_is_coherent templ op >>= λ coherent. elim coherent [
            | false ↦ ok none
            | true ↦ assignments_add A templ op >>= λ all. ok (some all)
          ]
        ])
          ≡ ok (some B)
        → Grown A B op templ
    step (some v) e h₁ =
        let (same, _, h₂) = bind-ok (operands_equal v op) _ h₁ in
        elim (Bool-cases same) [
          | inl e ↦ absurd (cc (rw e at h₂))
          | inr e ↦ absurd (cc (rw e at h₂))
        ]
    step none e h₁ =
        let (g, behind, is_new) = add_step-IsNew A A B templ op e h₁ in
        new-Grown A B (g ∷ []) op templ behind (is_new, tt)

pub operands_match-Grown :
    (A B : Assignments) (op templ : Operand)
    → operands_match op templ A ≡ ok (some B)
    → Grown A B op templ
unfolding operands_match const_match
operands_match-Grown A B op templ h =
    let (types, h₁) = guard_not-some B (type_eq op.type templ.type) _ h in
    elim (Bool-cases (op.size == templ.size)) [
      | inr differ ↦
          size_match-Grown A B op templ (type_eq→eq _ _ types)
            (λ e. false≢true (sym differ ∙ (==_iff _ _).1 e)) (rw differ at h₁)
      | inl sizes ↦ elim (Bool-cases (type_eq op.type invalid)) [
        | inl no_op ↦ nothing-Grown A B op templ (some-ok B A (rw (sizes, no_op) at h₁))
        | inr is_op ↦ elim (Bool-cases (is_const templ)) [
          | inr var ↦ var_match-Grown A B op templ (rw (sizes, is_op, var) at h₁)
          | inl const ↦ elim (Bool-cases (type_eq op.type op_mem)) [
            | inl is_mem ↦
                mem_operands_match-Grown A B op templ (rw (sizes, is_op, const, is_mem) at h₁)
            | inr plain ↦
                let (same, _, h₂) =
                  bind-ok (operands_equal templ op) _ (rw (sizes, is_op, const, plain) at h₁) in
                nothing-Grown A B op templ (if-some B same A h₂).1
          ]
        ]
      ]
    ]
