-- ===== src/Assignments/Indices.antt =====
-- `assignments_get_regs` and `assignments_get_segs` of btmod/bt/peep/assignments.c list the index of
-- every entry of the type.
use btkernel.Base.{
  ℕ, zero, suc, ◌+◌, ◌<◌, ◌≡◌, refl, sym, ap, ◌∙◌, subst, ◌⊎◌, inl, inr, Bool, true, false, not,
  ◌&&◌, ◌||◌, Option, some, List, [], ◌∷◌, ◌++◌, append_assoc, arith, Bool-cases, ==_refl, length,
  get_elem?, All, length-append, get_elem?-append_length, ◌>>=◌, assert-ok, bind-ok, ok-injective,
  ok,
}
use btkernel.Insntypes.{
  Tag, tag_const, tag_var, tag_eax, tag_abcd, tag_no_esp, tag_no_eax, tag_no_eax_esp, tag_no_cs_gs,
  tag_cs_gs, tag_eq, temp_reg0,
}
use btkernel.Operand.{OperType, op_reg, Operand, scalar, type_num, type_eq}
use btkernel.Assignments.{
  Assignment, Assignments, is_const, indices_loop, assignments_get_regs, assignment_is_coherent,
  val_satisfies_tag, is_reg,
}

indices_loop-get_elem? :
    (type : OperType) (A : Assignments) (i : ℕ) (indices : List ℕ) (k : ℕ) (a : Assignment)
    → indices_loop type A i ≡ ok indices
    → get_elem? A k ≡ some a
    → a.var.type ≡ type
    → (n : ℕ) × (get_elem? indices n ≡ some (i + k))
unfolding indices_loop
indices_loop-get_elem? type [] i indices k a h found is_type = absurd (cc)
indices_loop-get_elem? type (b ∷ rest) i indices zero a h found is_type =
    let (_, h₁) =
      assert-ok
        (not (type_eq b.var.type type)
          || (type_eq b.val.type type && (not (is_const b.var) && is_const b.val)))
        _ h in
    let (others, _, h₂) = bind-ok (indices_loop type rest (i + 1)) _ h₁ in
    let same : type_eq b.var.type type ≡ true =
      rw (some_injective b a found, is_type) (==_refl (type_num type)) in
    let last = ok-injective _ indices (rw same at h₂) in
    let plain : i ≡ i + 0 = omega arith in (0, rw (sym last) (ap some plain))
  where
    some_injective : (x y : Assignment) → ◌≡◌ {A = Option Assignment} (some x) (some y) → x ≡ y
    some_injective x y e = cc
indices_loop-get_elem? type (b ∷ rest) i indices (suc k) a h found is_type =
    let (_, h₁) =
      assert-ok
        (not (type_eq b.var.type type)
          || (type_eq b.val.type type && (not (is_const b.var) && is_const b.val)))
        _ h in
    let (others, e, h₂) = bind-ok (indices_loop type rest (i + 1)) _ h₁ in
    let (n, at) = indices_loop-get_elem? type rest (i + 1) others k a e found is_type in
    let next : i + 1 + k ≡ i + suc k = omega arith in
    elim (Bool-cases (type_eq b.var.type type)) [
      | inl same ↦
          let last = ok-injective _ indices (rw same at h₂) in
          (suc n, rw (sym last) (at ∙ ap some next))
      | inr other ↦
          let last = ok-injective _ indices (rw other at h₂) in
          (n, rw (sym last) (at ∙ ap some next))
    ]

pub assignments_get_regs-get_elem? :
    (A : Assignments) (indices : List ℕ) (k : ℕ) (a : Assignment)
    → assignments_get_regs A ≡ ok indices
    → get_elem? A k ≡ some a
    → a.var.type ≡ op_reg
    → (n : ℕ) × (get_elem? indices n ≡ some k)
unfolding assignments_get_regs
assignments_get_regs-get_elem? A indices k a h found reg =
    let (n, at) = indices_loop-get_elem? op_reg A 0 indices k a h found reg in
    let plain : 0 + k ≡ k = omega arith in (n, at ∙ ap some plain)

-- A coherent register satisfies the tag of the variable.
pub coherent-val_satisfies_tag :
    (var val : Operand)
    → var.type ≡ op_reg
    → assignment_is_coherent var val ≡ ok true
    → val_satisfies_tag val.val var.tag ≡ ok true
unfolding assignment_is_coherent
coherent-val_satisfies_tag var val reg h =
    let (_, h₁) = assert-ok (type_eq var.type val.type) _ h in
    let (_, h₂) = assert-ok (not (is_const var)) _ (rw reg at h₁) in
    (assert-ok (is_const val) _ h₂).1

-- What the code asserts of an entry for a register variable: its value is a register of the machine,
-- and its number is that of a variable and not of a temporary.
abbrev pub IsProper : Assignment → Type 0
IsProper a =
    (is_reg a.var ≡ false)
    ⊎ ((is_reg a.var ≡ true)
        × (is_reg a.val ≡ true)
        × (is_const a.var ≡ false)
        × (is_const a.val ≡ true)
        × (a.var.val < temp_reg0))

-- The index is that of such an entry.
abbrev pub IsRegister : Assignments → ℕ → Type 0
IsRegister A r =
    (a : Assignment) × (get_elem? A r ≡ some a)
    × (is_reg a.var ≡ true)
    × (is_reg a.val ≡ true)
    × (is_const a.var ≡ false)
    × (is_const a.val ≡ true)
    × (a.var.val < temp_reg0)

indices_loop-IsRegister :
    (pre A : Assignments)
    → All IsProper A
    → (indices : List ℕ) × (indices_loop op_reg A (length pre) ≡ ok indices)
      × All (IsRegister (pre ++ A)) indices
unfolding indices_loop
indices_loop-IsRegister pre [] h = ([], refl, tt)
indices_loop-IsRegister pre (a ∷ rest) (p, ps) =
    let (indices, e, hs) = indices_loop-IsRegister (pre ++ a ∷ []) rest ps in
    let count : length (pre ++ a ∷ []) ≡ length pre + 1 = length-append pre (a ∷ []) in
    let same : (pre ++ a ∷ []) ++ rest ≡ pre ++ a ∷ rest = append_assoc pre (a ∷ []) rest in
    let e₁ = subst (λ n. indices_loop op_reg rest n ≡ ok indices) count e in
    let hs₁ = subst (λ u. All (IsRegister u) indices) same hs in
    elim p [
      | inl other ↦ (indices, rw (other, ◌>>=◌, e₁), hs₁)
      | inr (var, val, no_const, const, low) ↦ (
        length pre ∷ indices,
        rw (var, val, no_const, const, ◌>>=◌, e₁),
        ((a, get_elem?-append_length pre a rest, var, val, no_const, const, low), hs₁),
      )
    ]

-- On proper assignments the indices are those of register variables.
pub assignments_get_regs-IsRegister :
    (A : Assignments)
    → All IsProper A
    → (indices : List ℕ) × (assignments_get_regs A ≡ ok indices) × All (IsRegister A) indices
unfolding assignments_get_regs
assignments_get_regs-IsRegister A proper = indices_loop-IsRegister [] A proper

pub val_satisfies_tag-returns :
    (v : ℕ) (tag : Tag)
    → tag_eq tag tag_const ≡ false
    → (b : Bool) × (val_satisfies_tag v tag ≡ ok b)
unfolding val_satisfies_tag
val_satisfies_tag-returns v tag_const h = absurd (cc)
val_satisfies_tag-returns v tag_var h = (_, refl)
val_satisfies_tag-returns v tag_eax h = (_, refl)
val_satisfies_tag-returns v tag_abcd h = (_, refl)
val_satisfies_tag-returns v tag_no_esp h = (_, refl)
val_satisfies_tag-returns v tag_no_eax h = (_, refl)
val_satisfies_tag-returns v tag_no_eax_esp h = (_, refl)
val_satisfies_tag-returns v tag_no_cs_gs h = (_, refl)
val_satisfies_tag-returns v tag_cs_gs h = (_, refl)

-- For a register the coherence is that of the tag.
pub coherent-scalar :
    (tag : Tag) (r : ℕ)
    → tag_eq tag tag_const ≡ false
    → assignment_is_coherent (scalar op_reg 4 0 tag) (scalar op_reg 4 r tag_const)
      ≡ val_satisfies_tag r tag
unfolding assignment_is_coherent
coherent-scalar tag r var = rw (assignment_is_coherent, ◌>>=◌, var)
