-- ===== src/Insn/Ends.antt =====
-- Jumps, calls and returns end a block of the translation, btmod/bt/peep/insn.c.
use btkernel.Base.{
  ◌≡◌, refl, ap, ◌∙◌, ◌⊎◌, inl, inr, Bool, true, false, not, ◌&&◌, ◌||◌, List, [], ◌∷◌, ◌==◌,
  and_parts, get_or, All, ◌>>=◌, bind-ok, ok-injective, ok,
}
use btkernel.Opctable.{Opctable, opctable_name, Name, str_eq}
use btkernel.Operand.{op_mem, op_imm, type_eq, Insn}
use btkernel.Strings.{codes, starts, starts_one, starts-head, str_eq-starts}
use btkernel.Insn.{
  by_name, insn_has_indirect_dependence, insn_has_direct_dependence, insn_is_direct_call,
  terminating, insn_is_terminating, insn_is_indirect_jump, jmp_opcodes, direct_jump,
  insn_is_direct_jump, insn_is_conditional_jump,
}

or_left : (a b : Bool) → a ≡ true → a || b ≡ true
or_left true b h = refl
or_left false b h = absurd (cc)

or_right : (a b : Bool) → b ≡ true → a || b ≡ true
or_right true b h = refl
or_right false b h = h

or_parts : (a b : Bool) → a || b ≡ true → (a ≡ true) ⊎ (b ≡ true)
or_parts true b h = inl refl
or_parts false b h = inr h

-- The control may go on elsewhere behind the instruction.
abbrev pub Leaves : Opctable → Insn → Type 0
Leaves bt insn =
    (insn_has_indirect_dependence bt insn ≡ ok true)
    ⊎ (insn_has_direct_dependence bt insn ≡ ok true)
    ⊎ (insn_is_direct_call bt insn ≡ ok true)
    ⊎ (insn_is_direct_jump bt insn ≡ ok true)
    ⊎ (insn_is_conditional_jump bt insn ≡ ok true)
    ⊎ (insn_is_indirect_jump bt insn ≡ ok true)

by_name-true :
    (bt : Opctable) (insn : Insn) (test : Name → Bool)
    → by_name bt insn test ≡ ok true
    → (opc : Name) × (opctable_name bt insn.opc ≡ ok opc) × (test opc ≡ true)
by_name-true bt insn test h =
    let (opc, e, h₁) = bind-ok (opctable_name bt insn.opc) _ h in (opc, e, ok-injective _ _ h₁)

module _ (opc : Name) where
  j-terminating : get_or opc 0 0 == b'j' ≡ true → terminating opc ≡ true
  j-terminating h = or_left _ _ h

  call-terminating : starts opc (codes "call") ≡ true → terminating opc ≡ true
  call-terminating h = or_right (get_or opc 0 0 == b'j') _ (
      or_right ((get_or opc 0 0 == b'l') && (get_or opc 1 0 == b'j')) _
        (or_left _ _ (or_left _ _ h)))

  ret-terminating : starts opc (codes "ret") ≡ true → terminating opc ≡ true
  ret-terminating h = or_right (get_or opc 0 0 == b'j') _ (
      or_right ((get_or opc 0 0 == b'l') && (get_or opc 1 0 == b'j')) _ (
        or_left _ _ (
          or_right (starts opc (codes "call")) _ (
            or_right (starts opc (codes "lcall")) _
              (or_right (starts opc (codes "loop")) _ (or_left _ _ h))))))

  branch-terminating :
      starts_one opc (codes "call" ∷ codes "jmp" ∷ []) ≡ true → terminating opc ≡ true
  branch-terminating h = elim (or_parts (starts opc (codes "call")) _ h) [
    | inl call ↦ call-terminating call
    | inr other ↦ elim (or_parts (starts opc (codes "jmp")) false other) [
      | inl jmp ↦ j-terminating (starts-head opc b'j' (b'm' ∷ b'p' ∷ []) jmp)
      | inr missing ↦ absurd (cc)
    ]
  ]

  direct_jump-head :
      (insn : Insn) (vals : List Name)
      → All (λ v. starts v (codes "j") ≡ true) vals
      → direct_jump insn opc vals ≡ true
      → get_or opc 0 0 == b'j' ≡ true
  direct_jump-head insn [] all h = absurd (cc)
  direct_jump-head insn (v ∷ vals) (j, js) h =
      elim (or_parts (str_eq opc v && type_eq insn.op0.type op_imm) _ h) [
        | inl this ↦ str_eq-starts opc v b'j' (and_parts (str_eq opc v) _ this).0 j
        | inr later ↦ direct_jump-head insn vals js later
      ]

  jmp_opcodes-j : All (λ v. starts v (codes "j") ≡ true) jmp_opcodes
  jmp_opcodes-j = (
    refl,
    (
      refl,
      (
        refl,
        (
          refl,
          (
            refl,
            (refl, (refl, (refl, (refl, (refl, (refl, (refl, (refl, (refl, (refl, tt)))))))))),
          ),
        ),
      ),
    ),
  )

module _ (bt : Opctable) (insn : Insn) where
  ends :
      (test : Name → Bool)
      → ((opc : Name) → test opc ≡ true → terminating opc ≡ true)
      → by_name bt insn test ≡ ok true
      → insn_is_terminating bt insn ≡ ok true
  unfolding insn_is_terminating
  ends test implies h =
      let (opc, e, t) = by_name-true bt insn test h in rw (e, ◌>>=◌, implies opc t)

  direct_jump-ends : insn_is_direct_jump bt insn ≡ ok true → insn_is_terminating bt insn ≡ ok true
  unfolding insn_is_direct_jump
  direct_jump-ends h =
      ends (λ opc. direct_jump insn opc jmp_opcodes)
        (λ opc t. j-terminating opc (direct_jump-head opc insn jmp_opcodes (jmp_opcodes-j opc) t)) h

  -- An instruction that has an indirect or a direct dependence, or is a direct call, a direct, a
  -- conditional or an indirect jump, is terminating.
  pub Leaves-insn_is_terminating : Leaves bt insn → insn_is_terminating bt insn ≡ ok true
  unfolding insn_has_indirect_dependence insn_has_direct_dependence insn_is_direct_call
      insn_is_conditional_jump insn_is_indirect_jump
  Leaves-insn_is_terminating (inl h) =
      ends _
        (λ opc t. elim (or_parts (starts opc (codes "ret")) _ t) [
          | inl ret ↦ ret-terminating opc ret
          | inr other ↦
              elim (or_parts
                (type_eq insn.op0.type op_mem && starts_one opc (codes "call" ∷ codes "jmp" ∷ [])) _
                other) [
                  | inl mem ↦
                      branch-terminating opc
                        (and_parts (type_eq insn.op0.type op_mem)
                          (starts_one opc (codes "call" ∷ codes "jmp" ∷ [])) mem).1
                  | inr jump ↦ j-terminating opc (
                      starts-head opc b'j' []
                        (and_parts (starts opc (codes "j")) (not (starts opc (codes "jmp")))
                          jump).0)
                ]
        ])
        h
  Leaves-insn_is_terminating (inr (inl h)) =
      ends _ (λ opc t. branch-terminating opc (and_parts (type_eq insn.op0.type op_imm) _ t).1) h
  Leaves-insn_is_terminating (inr (inr (inl h))) =
      ends _ (λ opc t. call-terminating opc (and_parts (starts opc (codes "call")) _ t).0) h
  Leaves-insn_is_terminating (inr (inr (inr (inl h)))) = direct_jump-ends h
  Leaves-insn_is_terminating (inr (inr (inr (inr (inl h))))) =
      let (opc, _, h₁) = bind-ok (opctable_name bt insn.opc) _ h in
      let (jump, e, h₂) = bind-ok (insn_is_direct_jump bt insn) _ h₁ in
      direct_jump-ends (e ∙ ap ok (and_parts jump _ (ok-injective _ _ h₂)).0)
  Leaves-insn_is_terminating (inr (inr (inr (inr (inr h))))) =
      ends _
        (λ opc t.
          j-terminating opc (
            str_eq-starts opc (codes "jmp") b'j' (and_parts (str_eq opc (codes "jmp")) _ t).0 refl))
        h
