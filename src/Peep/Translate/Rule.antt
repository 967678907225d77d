-- ===== src/Peep/Translate/Rule.antt =====
-- The rule that `peep_translate` of btmod/bt/peep/peep.c applies and the parameters it gets.
use mathlib.Core.Bool.{false≢true}
use Prim.Native.Nat.{bit_and-bitwise}
use btkernel.Peep.Built.{Built, templ_matches_insns-Built}
use btkernel.Base.{
  ℕ, ◌+◌, ◌*◌, ◌/◌, ◌%◌, min, bit_and, ◌≡◌, sym, ap, ◌∙◌, subst, ◌⊎◌, inl, inr, true, false, not,
  ◌&&◌, ◌||◌, Option, none, some, List, [], ◌∷◌, ◌++◌, arith, ltb, ◌==◌, ==_iff, Bool-cases, ◌>>=◌,
  assert-ok, bind-ok, ok-injective, fault, ok, stop,
}
use btkernel.Insntypes.{num_regs}
use btkernel.Operand.{Insn, type_eq, operand_get_value}
use btkernel.Assignments.{Assignments, is_reg}
use btkernel.Peep.{templ_matches_insns}
use btkernel.Peep.Matched.{InsnsMatched}
use btkernel.Peep.Temps.{find_temporary_regs}
use btkernel.Peep.Temps.Distinct.{IsDistinct, AreFree, find_temporary_regs-AreFree}
use btkernel.Peep.Translate.{
  PeepEntry, admits, values_loop, temporaries_params, rule_params, peep_translate,
}

-- The values of the assigned operands, in order.
abbrev pub Values : Assignments → List ℕ → Type 0
Values [] [] = Unit
Values [] (v ∷ vs) = ⊥
Values (a ∷ rest) [] = ⊥
Values (a ∷ rest) (v ∷ vs) = (operand_get_value a.val ≡ ok v) × Values rest vs

values_loop-Values : (A : Assignments) (vs : List ℕ) → values_loop A ≡ ok vs → Values A vs
unfolding values_loop
values_loop-Values [] [] h = tt
values_loop-Values [] (v ∷ vs) h = absurd (cc)
values_loop-Values (a ∷ rest) vs h =
    let (v, e, h₁) = bind-ok (operand_get_value a.val) _ h in
    let (_, h₂) =
      assert-ok (not (is_reg a.var) || (type_eq a.var.type a.val.type && (v == a.val.val))) _ h₁ in
    let (others, e₁, h₃) = bind-ok (values_loop rest) _ h₂ in
    subst (Values (a ∷ rest)) (ok-injective _ vs h₃) (e, values_loop-Values rest others e₁)

temporaries_params-same : (ts us : List ℕ) → temporaries_params ts ≡ ok us → ts ≡ us
unfolding temporaries_params
temporaries_params-same [] us h = ok-injective [] us h
temporaries_params-same (t ∷ ts) us h =
    let (_, h₁) = assert-ok (ltb t num_regs) _ h in
    let (params, e, h₂) = bind-ok (temporaries_params ts) _ h₁ in
    ap (λ u. t ∷ u) (temporaries_params-same ts params e) ∙ ok-injective _ us h₂

-- The two constraints on the processor, by their bits in the mask: no exceptions, 2, and protected
-- mode, 4.
abbrev pub IsAdmitted : PeepEntry → Type 0
IsAdmitted entry = (entry.cpu_constraints / 2 % 2 ≡ 1) × (entry.cpu_constraints / 4 % 2 ≡ 1)

mask_bits : (c : ℕ) → bit_and 6 c ≡ c / 4 % 2 * 4 + c / 2 % 2 * 2
mask_bits c =
    let digits : bit_and 6 c
        ≡ ((0 + min 1 (c / 2 / 2 % 2)) * 2 + min 1 (c / 2 % 2)) * 2 + min 0 (c % 2) =
      bit_and-bitwise 6 c in
    let half : c / 2 / 2 ≡ c / 4 = omega arith in digits ∙ rw half (omega arith)

admits-IsAdmitted : (entry : PeepEntry) → admits entry ≡ true → IsAdmitted entry
admits-IsAdmitted entry h =
    let e = (==_iff _ _).0 h in
    let bits = mask_bits entry.cpu_constraints in (omega (arith, bits, e), omega (arith, bits, e))

admits-not : (entry : PeepEntry) → admits entry ≡ false → ¬ IsAdmitted entry
admits-not entry h (two, four) =
    let bits = mask_bits entry.cpu_constraints in
    let e : bit_and 6 entry.cpu_constraints ≡ 6 = bits ∙ omega (arith, two, four) in
    false≢true (sym h ∙ (==_iff _ _).1 e)

-- The entry is admitted and matches, and `call` is its label with the values of its variables and
-- registers for its temporaries.
pub record Applies (entry : PeepEntry) (insns : List Insn) (call : ℕ × List ℕ) : Type 0 where
  pub assignments : Assignments
  pub values : List ℕ
  pub temporaries : List ℕ
  pub admitted : IsAdmitted entry
  pub matched : InsnsMatched assignments insns entry.tmpl
  pub built : Built [] assignments insns entry.tmpl
  pub valued : Values assignments values
  pub free : AreFree assignments entry.nomatch_pairs 0 entry.temporaries temporaries
  pub distinct : IsDistinct temporaries
  pub called : call ≡ (entry.label, values ++ temporaries)

-- The entry is passed over.
abbrev pub Passed : PeepEntry → List Insn → Type 0
Passed entry insns = (¬ IsAdmitted entry) ⊎ (templ_matches_insns insns entry.tmpl ≡ ok none)

-- The first entry that is not passed over applies.
abbrev pub FirstApplies : List PeepEntry → List Insn → ℕ × List ℕ → Type 0
FirstApplies [] insns call = ⊥
FirstApplies (entry ∷ bucket) insns call =
    Applies entry insns call ⊎ (Passed entry insns × FirstApplies bucket insns call)

rule_params-Applies :
    (entry : PeepEntry) (insns : List Insn) (A : Assignments) (call : ℕ × List ℕ)
    → admits entry ≡ true
    → templ_matches_insns insns entry.tmpl ≡ ok (some A)
    → rule_params entry A ≡ ok call
    → Applies entry insns call
unfolding rule_params
rule_params-Applies entry insns A call admitted matched h =
    let (values, e, h₁) = bind-ok (values_loop A) _ h in
    let (found, e₁, h₂) =
      bind-ok (find_temporary_regs entry.temporaries A entry.nomatch_pairs) _ h₁ in
    made values e found e₁ h₂
  where
    made :
        (values : List ℕ)
        → values_loop A ≡ ok values
        → (found : Option (List ℕ))
        → find_temporary_regs entry.temporaries A entry.nomatch_pairs ≡ ok found
        → (elim found [
          | none ↦ stop fault
          | some temporaries ↦
              temporaries_params temporaries >>= λ params. ok (entry.label, values ++ params)
        ])
          ≡ ok call
        → Applies entry insns call
    made values e none e₁ h₂ = absurd (cc)
    made values e (some ts) e₁ h₂ =
        let (params, e₂, h₃) = bind-ok (temporaries_params ts) _ h₂ in
        let (free, distinct) =
          find_temporary_regs-AreFree entry.temporaries A entry.nomatch_pairs ts e₁ in
        record {
          assignments = A;
          values = values;
          temporaries = ts;
          admitted = admits-IsAdmitted entry admitted;
          matched = (templ_matches_insns-Built insns entry.tmpl A matched).0;
          built = (templ_matches_insns-Built insns entry.tmpl A matched).1;
          valued = values_loop-Values A values e;
          free = free;
          distinct = distinct;
          called =
              sym (ok-injective _ call h₃)
              ∙ ap (λ u. (entry.label, values ++ u)) (sym (temporaries_params-same ts params e₂));
        }

-- When `peep_translate` emits code, it is that of the first entry of the bucket whose mask has both
-- constraints on the processor and for which `templ_matches_insns` does not answer false. The
-- instructions are its template under an assignment that is filled operand by operand, where no
-- operand gives a value to a variable that operands before it have given one, but for an immediate
-- without a size, and registers satisfy the tags of their variables. The code gets the values of the
-- assigned operands in order and then, for each temporary of the rule, a register of its own that is
-- free for it.
pub peep_translate-FirstApplies :
    (bucket : List PeepEntry) (insns : List Insn) (call : ℕ × List ℕ)
    → peep_translate bucket insns ≡ ok (some call)
    → FirstApplies bucket insns call
unfolding peep_translate
peep_translate-FirstApplies [] insns call h = absurd (cc)
peep_translate-FirstApplies (entry ∷ bucket) insns call h = elim (Bool-cases (admits entry)) [
  | inr not_admitted ↦ inr (
    inl (admits-not entry not_admitted),
    peep_translate-FirstApplies bucket insns call (rw (peep_translate, not_admitted) at h),
  )
  | inl admitted ↦
      let (found, e, h₁) =
        bind-ok (templ_matches_insns insns entry.tmpl) _ (rw (peep_translate, admitted) at h) in
      next found e h₁ admitted (peep_translate-FirstApplies bucket insns call)
]
  where
    next :
        (found : Option Assignments)
        → templ_matches_insns insns entry.tmpl ≡ ok found
        → (elim found [
          | none ↦ peep_translate bucket insns
          | some A ↦ rule_params entry A >>= λ c. ok (some c)
        ])
          ≡ ok (some call)
        → admits entry ≡ true
        → (peep_translate bucket insns ≡ ok (some call) → FirstApplies bucket insns call)
        → FirstApplies (entry ∷ bucket) insns call
    next none e h₁ admitted later = inr (inr e, later h₁)
    next (some A) e h₁ admitted later =
        let (c, e₁, h₂) = bind-ok (rule_params entry A) _ h₁ in
        let same : c ≡ call = cc in
        inl (rule_params-Applies entry insns A call admitted e (e₁ ∙ ap ok same))
