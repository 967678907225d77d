-- ===== src/Peep/Repeated.antt =====
-- A template that has a variable twice, for `operands_match` of btmod/bt/peep/peep.c.
use btkernel.Base.{
  ◌≡◌, sym, ap, ◌∙◌, ◌≢◌, inl, inr, true, false, Option, none, some, ◌==◌, if◌then◌else◌,
  Bool-cases, ==_refl, ◌>>=◌, bind-ok, panic, ok, stop,
}
use btkernel.Operand.{invalid, type_num, type_eq, Operand, operands_equal}
use btkernel.Operand.Equal.{type_eq→eq}
use btkernel.Operand.Decides.{IsComparable, operands_equal_refl}
use btkernel.Assignments.{
  Assignments, is_const, assignments_getval, assignments_add, assignment_is_coherent,
}
use btkernel.Assignments.Lookup.{assignments_getval-add, assignments_getval-IsOther}
use btkernel.Peep.{var_match, operands_match}
use btkernel.Peep.Fields.{some-ok, guard_not-some}

module _ (op templ : Operand) (A B : Assignments) where
  var_match-add :
      var_match op templ A ≡ ok (some B)
      → (assignments_getval A templ ≡ ok none) × (assignments_add A templ op ≡ ok B)
  unfolding var_match
  var_match-add h = let (found, e, h₁) = bind-ok (assignments_getval A templ) _ h in step found e h₁
    where
      step :
          (found : Option Operand)
          → assignments_getval A templ ≡ ok found
          → (elim found [
            | some v ↦ operands_equal v op >>= λ same. (if same then stop panic else ok none)
            | none ↦ assignment_is_coherent templ op >>= λ coherent. elim coherent [
              | false ↦ ok none
              | true ↦ assignments_add A templ op >>= λ all. ok (some all)
            ]
          ])
            ≡ ok (some B)
          → (assignments_getval A templ ≡ ok none) × (assignments_add A templ op ≡ ok B)
      step (some v) e h₁ =
          let (same, _, h₂) = bind-ok (operands_equal v op) _ h₁ in
          elim (Bool-cases same) [
            | inl yes_same ↦ absurd (cc (rw yes_same at h₂))
            | inr not_same ↦ absurd (cc (rw not_same at h₂))
          ]
      step none e h₁ =
          let (coherent, _, h₂) = bind-ok (assignment_is_coherent templ op) _ h₁ in
          elim (Bool-cases coherent) [
            | inr bad ↦ absurd (cc (rw bad at h₂))
            | inl good ↦
                let (all, a, h₃) = bind-ok (assignments_add A templ op) _ (rw good at h₂) in
                (e, a ∙ ap ok (some-ok B all h₃))
          ]

  operands_match-var_match :
      op.size ≡ templ.size
      → op.type ≢ invalid
      → is_const templ ≡ false
      → op.type ≡ templ.type
      → (C : Assignments) → operands_match op templ C ≡ var_match op templ C
  unfolding operands_match
  operands_match-var_match sizes there var types C =
      let t : type_eq op.type templ.type ≡ true = rw types (==_refl (type_num templ.type)) in
      let s : op.size == templ.size ≡ true = rw sizes (==_refl templ.size) in
      elim (Bool-cases (type_eq op.type invalid)) [
        | inl no_op ↦ absurd (there (type_eq→eq _ _ no_op))
        | inr is_op ↦ rw (t, s, is_op, var)
      ]

  -- An operand that has matched a variable of its own size and that meets the variable again, in the
  -- assignment that the match has filled, ends in NOT_REACHED instead of matching. The operands are
  -- those that the code compares: no jump targets, none of the stack of the floating point unit, and
  -- no constant immediates with a size.
  pub operands_match-twice :
      op.size ≡ templ.size
      → op.type ≢ invalid
      → is_const templ ≡ false
      → IsComparable op.type op
      → IsComparable templ.type templ
      → operands_match op templ A ≡ ok (some B)
      → operands_match op templ B ≡ stop panic
  unfolding operands_match var_match
  operands_match-twice sizes there var p q h =
      let types = type_eq→eq _ _ (guard_not-some B (type_eq op.type templ.type) _ h).0 in
      let (fresh, added) =
        var_match-add (sym (operands_match-var_match sizes there var types A) ∙ h) in
      let known =
        assignments_getval-add templ var A B op q (assignments_getval-IsOther templ var A fresh)
          sizes added in
      operands_match-var_match sizes there var types B
      ∙ rw (var_match, known, ◌>>=◌, operands_equal_refl op p)
