-- ===== src/Assignments/Lookup.antt =====
-- What is added to an array of assignments is found again, btmod/bt/peep/assignments.c.
use btkernel.Base.{
  ◌≡◌, refl, sym, ap, ◌∙◌, subst, ◌⊎◌, inl, inr, true, false, not, ◌&&◌, none, some, [], ◌∷◌, ◌++◌,
  arith, ltb, leb, ◌==◌, Bool-cases, ==_refl, and_parts, length, All, ◌>>=◌, assert-ok, bind-ok,
  ok-injective, ok,
}
use btkernel.Operand.{Operand, operands_equal}
use btkernel.Operand.Decides.{IsComparable, operands_equal_refl, operands_equal-sizes}
use btkernel.Assignments.{
  Assignment, Assignments, max_variables, is_const, is_reg, getval_loop, assignments_getval, whole,
  assignments_add,
}

-- The lookup of `templ` passes over the entry: its variable is another one, and if both are
-- registers, of another register.
abbrev pub IsOther : Operand → Assignment → Type 0
IsOther templ a =
    (operands_equal a.var templ ≡ ok false)
    × ((is_reg templ && is_reg a.var ≡ false) ⊎ (templ.val == a.var.val ≡ false))

module _ (templ : Operand) (var : is_const templ ≡ false) where
  getval_loop-append :
      (A B : Assignments) → All (IsOther templ) A → getval_loop (A ++ B) templ ≡ getval_loop B templ
  unfolding getval_loop
  getval_loop-append [] B h = refl
  getval_loop-append (a ∷ rest) B ((differ, inl type), hs) =
      rw (differ, ◌>>=◌, type) (getval_loop-append rest B hs)
  getval_loop-append (a ∷ rest) B ((differ, inr val), hs) =
      elim (Bool-cases (is_reg templ && is_reg a.var)) [
        | inl regs ↦ rw (differ, ◌>>=◌, regs, var, val) (getval_loop-append rest B hs)
        | inr type ↦ rw (differ, ◌>>=◌, type) (getval_loop-append rest B hs)
      ]

  whole-getval_loop :
      (op : Operand) (a : Assignment)
      → IsComparable templ.type templ
      → op.size ≡ templ.size
      → whole templ op ≡ ok a
      → getval_loop (a ∷ []) templ ≡ ok (some op)
  unfolding whole getval_loop
  whole-getval_loop op a comparable sizes h =
      elim (Bool-cases (is_reg templ && not (templ.size == 4))) [
        | inr plain ↦
            let e = ok-injective _ a (rw plain at h) in
            subst (λ b. getval_loop (b ∷ []) templ ≡ ok (some op)) e
              (rw (getval_loop, operands_equal_refl templ comparable, ◌>>=◌))
        | inl resized ↦
            let (le, h₁) = assert-ok (leb templ.size 4) _ (rw resized at h) in
            let (_, h₂) = assert-ok (leb op.size 4) _ h₁ in
            let (reg, size) = and_parts (is_reg templ) (not (templ.size == 4)) resized in
            let smaller : ltb templ.size 4 ≡ true = ground arith in
            let differ : operands_equal (record templ { size = 4 }) templ ≡ ok false =
              operands_equal-sizes _ templ refl (λ e. ground arith) in
            subst (λ b. getval_loop (b ∷ []) templ ≡ ok (some op)) (ok-injective _ a h₂)
              (rw (getval_loop, differ, ◌>>=◌, reg, var, ==_refl templ.val, smaller, sym sizes))
      ]

  -- A variable that no entry of the array is for and that is then added is found: the lookup gives
  -- the operand that was added, for a register of any size up to four bytes too, where the operand is
  -- of the variable's size.
  pub assignments_getval-add :
      (A B : Assignments) (op : Operand)
      → IsComparable templ.type templ
      → All (IsOther templ) A
      → op.size ≡ templ.size
      → assignments_add A templ op ≡ ok B
      → assignments_getval B templ ≡ ok (some op)
  unfolding assignments_getval assignments_add
  assignments_getval-add A B op comparable others sizes h =
      let (_, h₁) = assert-ok (ltb (length A) max_variables) _ h in
      let (a, e, h₂) = bind-ok (whole templ op) _ h₁ in
      subst (λ C. assignments_getval C templ ≡ ok (some op)) (ok-injective _ B h₂)
        (rw (assignments_getval, var, ◌>>=◌, getval_loop-append A (a ∷ []) others)
          (whole-getval_loop op a comparable sizes e))

  getval_loop-IsOther : (A : Assignments) → getval_loop A templ ≡ ok none → All (IsOther templ) A
  unfolding getval_loop
  getval_loop-IsOther [] h = tt
  getval_loop-IsOther (a ∷ rest) h =
      let (same, e, h₁) = bind-ok (operands_equal a.var templ) _ h in
      elim (Bool-cases same) [
        | inl found ↦ absurd (cc (rw found at h₁))
        | inr differ ↦
            let unequal = e ∙ ap ok differ in
            elim (Bool-cases (is_reg templ && is_reg a.var)) [
              | inr type ↦ ((unequal, inl type), getval_loop-IsOther rest (rw (differ, type) at h₁))
              | inl regs ↦ elim (Bool-cases (templ.val == a.var.val)) [
                | inr val ↦ (
                  (unequal, inr val),
                  getval_loop-IsOther rest (rw (differ, regs, var, val) at h₁),
                )
                | inl val ↦
                    let (smaller, h₂) =
                      assert-ok (ltb templ.size a.var.size) _ (rw (differ, regs, var, val) at h₁) in
                    absurd (cc)
              ]
            ]
      ]

  -- A lookup that finds nothing has passed over every entry.
  pub assignments_getval-IsOther :
      (A : Assignments) → assignments_getval A templ ≡ ok none → All (IsOther templ) A
  unfolding assignments_getval
  assignments_getval-IsOther A h = getval_loop-IsOther A (assert-ok (not (is_const templ)) _ h).1
