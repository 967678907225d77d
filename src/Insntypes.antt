-- ===== src/Insntypes.antt =====
-- The enumerations of btmod/bt/peep/insntypes.h. An enumerator is compared by its number.
use btkernel.Base.{ℕ, zero, suc, ◌≡◌, refl, sym, ap, ◌∙◌, Bool, ◌==◌}

pub data Tag : Type 0 where
  tag_const tag_var tag_eax tag_abcd tag_no_esp : Tag
  tag_no_eax tag_no_eax_esp tag_no_cs_gs tag_cs_gs : Tag

abbrev pub tag_num : Tag → ℕ
tag_num tag_const = 0
tag_num tag_var = 1
tag_num tag_eax = 2
tag_num tag_abcd = 3
tag_num tag_no_esp = 4
tag_num tag_no_eax = 5
tag_num tag_no_eax_esp = 6
tag_num tag_no_cs_gs = 7
tag_num tag_cs_gs = 8

abbrev pub tag_eq : Tag → Tag → Bool
tag_eq a b = tag_num a == tag_num b

abbrev pub num_regs : ℕ
num_regs = 8

abbrev pub max_temporaries : ℕ
max_temporaries = 8

-- TEMP_REG0 of peep/assignments.h
abbrev pub temp_reg0 : ℕ
temp_reg0 = 8

pub tag_num-injective : (a b : Tag) → tag_num a ≡ tag_num b → a ≡ b
tag_num-injective a b e = sym (inverse a) ∙ ap tag_of e ∙ inverse b
  where
    tag_of : ℕ → Tag
    tag_of zero = tag_const
    tag_of (suc zero) = tag_var
    tag_of (suc (suc zero)) = tag_eax
    tag_of (suc (suc (suc zero))) = tag_abcd
    tag_of (suc (suc (suc (suc zero)))) = tag_no_esp
    tag_of (suc (suc (suc (suc (suc zero))))) = tag_no_eax
    tag_of (suc (suc (suc (suc (suc (suc zero)))))) = tag_no_eax_esp
    tag_of (suc (suc (suc (suc (suc (suc (suc zero))))))) = tag_no_cs_gs
    tag_of (suc (suc (suc (suc (suc (suc (suc (suc n)))))))) = tag_cs_gs

    inverse : (t : Tag) → tag_of (tag_num t) ≡ t
    inverse tag_const = refl
    inverse tag_var = refl
    inverse tag_eax = refl
    inverse tag_abcd = refl
    inverse tag_no_esp = refl
    inverse tag_no_eax = refl
    inverse tag_no_eax_esp = refl
    inverse tag_no_cs_gs = refl
    inverse tag_cs_gs = refl
