-- ===== src/Assignments/Tags.antt =====
-- The registers that satisfy a tag, `val_satisfies_tag` of btmod/bt/peep/assignments.c.
use btkernel.Base.{
  ℕ, ◌≤◌, ◌≡◌, ◌≢◌, ◌⊎◌, inl, inr, true, false, arith, ◌==◌, ==_iff, Bool-cases, ok-injective, ok,
}
use btkernel.Assignments.{val_satisfies_tag}
use btkernel.Insntypes.{
  Tag, tag_const, tag_var, tag_eax, tag_abcd, tag_no_esp, tag_no_eax, tag_no_eax_esp, tag_no_cs_gs,
  tag_cs_gs,
}

-- The registers that a tag allows.
abbrev pub Satisfies : ℕ → Tag → Type 0
Satisfies v tag_var = Unit
Satisfies v tag_eax = v ≡ 0
Satisfies v tag_abcd = v ≤ 3
Satisfies v tag_no_esp = v ≢ 4
Satisfies v tag_no_eax = v ≢ 0
Satisfies v tag_no_eax_esp = (v ≢ 0) × (v ≢ 4)
Satisfies v tag_no_cs_gs = (v ≢ 5) × (v ≢ 1)
Satisfies v tag_cs_gs = (v ≡ 5) ⊎ (v ≡ 1)
Satisfies v tag_const = ⊥

pub val_satisfies_tag-Satisfies :
    (v : ℕ) (tag : Tag) → val_satisfies_tag v tag ≡ ok true → Satisfies v tag
unfolding val_satisfies_tag
val_satisfies_tag-Satisfies v tag_var h = tt
val_satisfies_tag-Satisfies v tag_eax h = ground (arith, ok-injective _ _ h)
val_satisfies_tag-Satisfies v tag_abcd h = ground (arith, ok-injective _ _ h)
val_satisfies_tag-Satisfies v tag_no_esp h = ground (arith, ok-injective _ _ h)
val_satisfies_tag-Satisfies v tag_no_eax h = ground (arith, ok-injective _ _ h)
val_satisfies_tag-Satisfies v tag_no_eax_esp h = ground (arith, ok-injective _ _ h)
val_satisfies_tag-Satisfies v tag_no_cs_gs h = ground (arith, ok-injective _ _ h)
val_satisfies_tag-Satisfies v tag_cs_gs h = elim (Bool-cases (v == 5)) [
  | inl five ↦ inl ((==_iff _ _).0 five)
  | inr other ↦ inr ((==_iff _ _).0 (ok-injective _ _ (rw other at h)))
]
val_satisfies_tag-Satisfies v tag_const h = absurd (cc)

pub val_satisfies_tag-not :
    (v : ℕ) (tag : Tag) → val_satisfies_tag v tag ≡ ok false → ¬ Satisfies v tag
unfolding val_satisfies_tag
val_satisfies_tag-not v tag_var h s = absurd (cc)
val_satisfies_tag-not v tag_eax h s = ground (arith, ok-injective _ _ h)
val_satisfies_tag-not v tag_abcd h s = ground (arith, ok-injective _ _ h)
val_satisfies_tag-not v tag_no_esp h s = ground (arith, ok-injective _ _ h)
val_satisfies_tag-not v tag_no_eax h s = ground (arith, ok-injective _ _ h)
val_satisfies_tag-not v tag_no_eax_esp h s = ground (arith, ok-injective _ _ h)
val_satisfies_tag-not v tag_no_cs_gs h s = ground (arith, ok-injective _ _ h)
val_satisfies_tag-not v tag_cs_gs h (inl e) = ground (arith, ok-injective _ _ h)
val_satisfies_tag-not v tag_cs_gs h (inr e) = ground (arith, ok-injective _ _ h)
val_satisfies_tag-not v tag_const h s = absurd (cc)
