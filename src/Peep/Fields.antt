-- ===== src/Peep/Fields.antt =====
-- What a match of one field of a memory operand says: `mem_match` of btmod/bt/peep/peep.c.
use btkernel.Base.{
  ℕ, ◌≡◌, refl, sym, ap, ◌∙◌, subst, ◌≢◌, ◌⊎◌, inl, inr, Bool, true, false, not, ◌&&◌, Option, none,
  some, ◌++◌, append_assoc, ◌==◌, if◌then◌else◌, ==_iff, Bool-cases, Extends, Extends-refl, Run,
  ◌>>=◌, bind-ok, ok, stop,
}
use mathlib.Core.Bool.{false≢true}
use btkernel.Insntypes.{Tag, tag_const, tag_eq}
use btkernel.Operand.{OperType, op_reg, type_eq, Operand, no_reg, operands_equal}
use btkernel.Operand.Equal.{operands_equal-Same, tag_eq→eq}
use btkernel.Assignments.{Assignments, assignments_getval, assignments_add, assignment_is_coherent}
use btkernel.Assignments.Assigns.{
  Assigns, Extends-Assigns, append-Assigns, getval-Assigns, add-Assigns,
}
use btkernel.Peep.{field_operand, mem_match_var, mem_match, and_then}

-- What a function has gone through when it returns an array.
module _ (r : Assignments) where
  pub guard-some :
      (b : Bool) (run : Run (Option Assignments))
      → (if b then ok none else run) ≡ ok (some r)
      → (b ≡ false) × (run ≡ ok (some r))
  guard-some true run h = absurd (cc)
  guard-some false run h = (refl, h)

  pub guard_not-some :
      (b : Bool) (run : Run (Option Assignments))
      → (if not b then ok none else run) ≡ ok (some r)
      → (b ≡ true) × (run ≡ ok (some r))
  guard_not-some true run h = (refl, h)
  guard_not-some false run h = absurd (cc)

  pub and_then-some :
      (run : Run (Option Assignments)) (next : Assignments → Run (Option Assignments))
      → and_then run next ≡ ok (some r)
      → (t : Assignments) × (run ≡ ok (some t)) × (next t ≡ ok (some r))
  and_then-some (stop how) next h = absurd (cc)
  and_then-some (ok none) next h = absurd (cc)
  and_then-some (ok (some t)) next h = (t, refl, h)

  pub some-ok :
      (t : Assignments) → ◌≡◌ {A = Run (Option Assignments)} (ok (some t)) (ok (some r)) → t ≡ r
  some-ok t h = cc

  pub if-some :
      (b : Bool) (t : Assignments)
      → ◌≡◌ {A = Run (Option Assignments)} (ok (if b then some t else none)) (ok (some r))
      → (b ≡ true) × (t ≡ r)
  if-some true t h = (refl, cc)
  if-some false t h = absurd (cc)

-- The template's field is a constant and the operand has it, or it is a variable and the array gives
-- it the operand's.
abbrev pub FieldMatched : Assignments → OperType → ℕ → ℕ → Tag → ℕ → Tag → Type 0
FieldMatched B type addrsize t ttag o otag =
    ((ttag ≡ tag_const) × (o ≡ t))
    ⊎ ((ttag ≢ tag_const)
        × (type ≡ op_reg → o ≢ no_reg)
        × Assigns B (field_operand type addrsize t ttag) (field_operand type addrsize o otag))

pub Extends-FieldMatched :
    (A B : Assignments) (type : OperType) (addrsize t : ℕ) (ttag : Tag) (o : ℕ) (otag : Tag)
    → Extends A B
    → FieldMatched A type addrsize t ttag o otag
    → FieldMatched B type addrsize t ttag o otag
Extends-FieldMatched A B type addrsize t ttag o otag more (inl h) = inl h
Extends-FieldMatched A B type addrsize t ttag o otag more (inr (v, n, says)) =
    inr (v, n, Extends-Assigns A B _ _ more says)

pub Extends-append : (A B C : Assignments) → Extends B C → Extends (A ++ B) (A ++ C)
Extends-append A B C (r, e) = (r, rw e (sym (append_assoc A B r)))

mem_match_var-Assigns :
    (A tmp tmp' : Assignments) (t o : Operand)
    → o.size ≡ t.size
    → mem_match_var A tmp t o ≡ ok (some tmp')
    → Extends tmp tmp' × Assigns (A ++ tmp') t o
unfolding mem_match_var
mem_match_var-Assigns A tmp tmp' t o sizes h =
    let (found, e, h₁) = bind-ok (assignments_getval A t) _ h in step found e h₁
  where
    step :
        (found : Option Operand)
        → assignments_getval A t ≡ ok found
        → (elim found [
          | some v ↦ operands_equal v o >>= λ same. ok (if same then some tmp else none)
          | none ↦ assignment_is_coherent t o >>= λ coherent. elim coherent [
            | false ↦ ok none
            | true ↦ assignments_add tmp t o >>= λ all. ok (some all)
          ]
        ])
          ≡ ok (some tmp')
        → Extends tmp tmp' × Assigns (A ++ tmp') t o
    step (some v) e h₁ =
        let (same, eq, h₂) = bind-ok (operands_equal v o) _ h₁ in
        let (yes_same, kept) = if-some tmp' same tmp h₂ in
        (
          subst (λ u. Extends tmp u) kept (Extends-refl tmp),
          Extends-Assigns A (A ++ tmp') t o (tmp', refl)
              (getval-Assigns A t v o e (operands_equal-Same v o (eq ∙ ap ok yes_same))),
        )
    step none e h₁ =
        let (coherent, c, h₂) = bind-ok (assignment_is_coherent t o) _ h₁ in
        elim (Bool-cases coherent) [
          | inr bad ↦ absurd (cc (rw bad at h₂))
          | inl good ↦
              let (all, a, h₃) = bind-ok (assignments_add tmp t o) _ (rw good at h₂) in
              let (more, says) = add-Assigns tmp all t o (λ _. sizes) a in
              let last = some-ok tmp' all h₃ in
              (
                subst (λ u. Extends tmp u) last more,
                append-Assigns A tmp' t o (subst (λ u. Assigns u t o) last says),
              )
        ]

pub mem_match-FieldMatched :
    (A tmp tmp' : Assignments) (type : OperType) (addrsize t : ℕ) (ttag : Tag) (o : ℕ) (otag : Tag)
    → mem_match A tmp type addrsize t ttag o otag ≡ ok (some tmp')
    → Extends tmp tmp' × FieldMatched (A ++ tmp') type addrsize t ttag o otag
unfolding mem_match
mem_match-FieldMatched A tmp tmp' type addrsize t ttag o otag h =
    elim (Bool-cases (tag_eq ttag tag_const)) [
      | inl const ↦ elim (Bool-cases (o == t)) [
        | inl same ↦ (
          subst (λ u. Extends tmp u) (some-ok tmp' tmp (rw (const, same) at h)) (Extends-refl tmp),
          inl (tag_eq→eq _ _ const, (==_iff _ _).0 same),
        )
        | inr differ ↦ absurd (cc (rw (const, differ) at h))
      ]
      | inr var ↦
          let (there, h₁) =
            guard-some tmp' (type_eq type op_reg && (o == no_reg)) _ (rw var at h) in
          let (more, says) =
            mem_match_var-Assigns A tmp tmp' (field_operand type addrsize t ttag)
              (field_operand type addrsize o otag) refl h₁ in
          (
            more,
            inr (
              λ e. false≢true (sym var ∙ ap (λ u. tag_eq u tag_const) e),
              λ reg none. false≢true (sym there ∙ rw (reg, none)),
              says,
            ),
          )
    ]

pub join-FieldMatched :
    (A tmp tmp' : Assignments) (type : OperType) (addrsize t : ℕ) (ttag : Tag) (o : ℕ) (otag : Tag)
    → Extends tmp tmp'
    → FieldMatched (A ++ tmp) type addrsize t ttag o otag
    → FieldMatched (A ++ tmp') type addrsize t ttag o otag
join-FieldMatched A tmp tmp' type addrsize t ttag o otag more =
    Extends-FieldMatched _ _ type addrsize t ttag o otag (Extends-append A tmp tmp' more)
