-- ===== src/Assignments/Assigns.antt =====
-- What an array of assignments says of a variable, and what `assignments_getval` and
-- `assignments_add` of btmod/bt/peep/assignments.c do to it.
use btkernel.Base.{
  ℕ, suc, ◌+◌, ◌<◌, ◌≡◌, refl, sym, ap, ◌∙◌, subst, ◌⊎◌, inl, inr, not, ◌&&◌, Option, some, [], ◌∷◌,
  ◌++◌, arith, ltb, leb, ◌==◌, ltb→lt, ==_iff, Bool-cases, and_parts, length, get_elem?,
  get_elem?-append_length, get_elem?-append_right, Extends, Extends-get_elem?, Run, assert-ok,
  bind-ok, ok-injective, ok,
}
use btkernel.Operand.{op_reg, Operand, operands_equal}
use btkernel.Operand.Equal.{Same, Same-refl, Same-resized, type_eq→eq, operands_equal-Same}
use btkernel.Assignments.{
  Assignment, Assignments, max_variables, is_const, is_reg, getval_loop, assignments_getval, whole,
  assignments_add, append_assignments,
}

-- The entry gives the variable `templ` the constant `op`: its variable is `templ`, or it is a
-- register and `templ` a smaller part of it.
abbrev pub Says : Assignment → Operand → Operand → Type 0
Says a templ op =
    (Same a.var templ × Same a.val op)
    ⊎ ((a.var.type ≡ op_reg)
        × (templ.type ≡ op_reg)
        × (a.var.val ≡ templ.val)
        × (templ.size < a.var.size)
        × Same (record a.val { size = templ.size }) op)

abbrev pub Assigns : Assignments → Operand → Operand → Type 0
Assigns assignments templ op =
    (i : ℕ) × (a : Assignment) × (get_elem? assignments i ≡ some a) × Says a templ op

pub Extends-Assigns :
    (A B : Assignments) (templ op : Operand) → Extends A B → Assigns A templ op → Assigns B templ op
Extends-Assigns A B templ op more (i, a, found, says) =
    (i, a, Extends-get_elem? A B i more found, says)

pub append-Assigns :
    (A B : Assignments) (templ op : Operand) → Assigns B templ op → Assigns (A ++ B) templ op
append-Assigns A B templ op (i, a, found, says) =
    (length A + i, a, get_elem?-append_right A B i found, says)

later :
    (a : Assignment) (rest : Assignments) (templ op : Operand)
    → Assigns rest templ op
    → Assigns (a ∷ rest) templ op
later a rest templ op (i, b, found, says) = (suc i, b, found, says)

some_injective :
    (v w : Operand) → ◌≡◌ {A = Run (Option Operand)} (ok (some v)) (ok (some w)) → v ≡ w
some_injective v w h = cc

-- What is found is what an entry says.
getval_loop-Assigns :
    (A : Assignments) (templ v op : Operand)
    → getval_loop A templ ≡ ok (some v)
    → Same v op
    → Assigns A templ op
unfolding getval_loop
getval_loop-Assigns [] templ v op h s = absurd (cc)
getval_loop-Assigns (a ∷ rest) templ v op h s =
    let (same, e, h₁) = bind-ok (operands_equal a.var templ) _ h in
    elim (Bool-cases same) [
      | inl yes_same ↦
          let h₂ = rw yes_same at h₁ in
          (
            0,
            a,
            refl,
            inl (
              operands_equal-Same _ _ (e ∙ ap ok yes_same),
              subst (λ u. Same u op) (sym (some_injective a.val v h₂)) s,
            ),
          )
      | inr not_same ↦ elim (Bool-cases (is_reg templ && is_reg a.var)) [
        | inr other ↦
            later a rest templ op
              (getval_loop-Assigns rest templ v op (rw (not_same, other) at h₁) s)
        | inl regs ↦
            let (_, h₂) = assert-ok (not (is_const templ)) _ (rw (not_same, regs) at h₁) in
            let (is_templ, is_var) = and_parts _ _ regs in
            elim (Bool-cases (templ.val == a.var.val)) [
              | inr differ ↦
                  later a rest templ op (getval_loop-Assigns rest templ v op (rw differ at h₂) s)
              | inl found ↦
                  let (smaller, h₃) = assert-ok (ltb templ.size a.var.size) _ (rw found at h₂) in
                  (
                    0,
                    a,
                    refl,
                    inr (
                      type_eq→eq _ _ is_var,
                      type_eq→eq _ _ is_templ,
                      sym ((==_iff _ _).0 found),
                      ltb→lt _ _ smaller,
                      subst (λ u. Same u op) (sym (some_injective _ v h₃)) s,
                    ),
                  )
            ]
      ]
    ]

pub getval-Assigns :
    (A : Assignments) (templ v op : Operand)
    → assignments_getval A templ ≡ ok (some v)
    → Same v op
    → Assigns A templ op
unfolding assignments_getval
getval-Assigns A templ v op h s =
    getval_loop-Assigns A templ v op (assert-ok (not (is_const templ)) _ h).1 s

whole-Says :
    (templ op : Operand) (a : Assignment)
    → (templ.type ≡ op_reg → op.size ≡ templ.size)
    → whole templ op ≡ ok a
    → Says a templ op
unfolding whole
whole-Says templ op a sizes h = elim (Bool-cases (is_reg templ && not (templ.size == 4))) [
  | inr plain ↦
      let e = ok-injective _ a (rw plain at h) in
      subst (λ u. Says u templ op) e (inl (Same-refl templ, Same-refl op))
  | inl resized ↦
      let (le, h₁) = assert-ok (leb templ.size 4) _ (rw resized at h) in
      let (_, h₂) = assert-ok (leb op.size 4) _ h₁ in
      let (reg, size) = and_parts _ _ resized in
      let t = type_eq→eq _ _ reg in
      subst (λ u. Says u templ op) (ok-injective _ a h₂)
        (inr (t, t, refl, ground arith, Same-resized op templ.size (sym (sizes t))))
]

-- An entry that is added says what it was added for.
pub add-Assigns :
    (A B : Assignments) (templ op : Operand)
    → (templ.type ≡ op_reg → op.size ≡ templ.size)
    → assignments_add A templ op ≡ ok B
    → Extends A B × Assigns B templ op
unfolding assignments_add
add-Assigns A B templ op sizes h =
    let (_, h₁) = assert-ok (ltb (length A) max_variables) _ h in
    let (a, e, h₂) = bind-ok (whole templ op) _ h₁ in
    let b = ok-injective _ B h₂ in
    (
      (a ∷ [], sym b),
      subst (λ u. Assigns u templ op) b
          (length A, a, get_elem?-append_length A a [], whole-Says templ op a sizes e),
    )

pub append_assignments-++ : (A B C : Assignments) → append_assignments A B ≡ ok C → A ++ B ≡ C
unfolding append_assignments
append_assignments-++ A B C h =
    ok-injective _ C (assert-ok (ltb (length A + length B) max_variables) _ h).1
