-- ===== src/Tests/Peep.antt =====
-- The load `mov edx, [ebx + 16]` and a rule for loads, with two temporaries.
use btkernel.Base.{
  ℕ, ◌≡◌, refl, ◌⊎◌, inl, inr, false, none, some, List, [], ◌∷◌, arith, read, panic, ok, stop,
}
use btkernel.Insntypes.{tag_const, tag_var, tag_abcd}
use btkernel.NomatchPair.{NomatchPair}
use btkernel.Operand.{
  Operand, Insn, invalid, op_reg, op_mem, op_imm, scalar, plain_mem, plain_tags, operands_equal,
  same_value, mem_equal, value_of, operand_get_value,
}
use btkernel.Operand.Equal.{Same}
use btkernel.Operand.Decides.{Decides, operands_equal-Decides}
use btkernel.Assignments.{
  Assignments, getval_loop, assignments_getval, whole, assignments_add, append_assignments,
  val_satisfies_tag, assignment_is_coherent, indices_loop, assignments_get_regs,
}
use btkernel.Assignments.Lookup.{assignments_getval-add}
use btkernel.Insn.Rename.{
  insn_rename_constants, rename_operand, rename_seg, rename_base, rename_index, rename_disp,
  is_value,
}
use btkernel.Peep.{
  mem_match_var, mem_match, seg_match, base_match, index_match, disp_match, mem_operands_match,
  var_match, const_match, operands_match, templ_matches_insn, insns_loop, templ_matches_insns,
}
use btkernel.Peep.Matched.{InsnsMatched}
use btkernel.Peep.Built.{Built, templ_matches_insns-Built}
use btkernel.Peep.Repeated.{operands_match-twice}
use btkernel.Peep.Temps.{
  taken_loop, pair_violates, temp_assignment_violates_nomatch_pairs, is_free, pick,
  temporaries_from, find_temporary_regs,
}
use btkernel.Peep.Temps.Distinct.{IsDistinct, AreFree}
use btkernel.Peep.Temps.Chooses.{IsStuck, find_temporary_regs-Chooses}
use btkernel.Peep.Translate.{
  PeepEntry, hash_insns, peep_entry_hash, values_loop, temporaries_params, rule_params,
  peep_translate,
}
use btkernel.Peep.Translate.Hash.{peep_entry_hash-matches}
use btkernel.Peep.Translate.Rule.{FirstApplies, peep_translate-FirstApplies}

abbrev absent_op : Operand
absent_op = scalar invalid 0 0 tag_const

-- A register of four bytes and a variable for one.
abbrev register : ℕ → Operand
register r = scalar op_reg 4 r tag_const

abbrev variable : ℕ → Operand
variable v = scalar op_reg 4 v tag_var

abbrev load : Insn
load = record {
  opc = 7;
  op0 = register 2;
  op1 = record (scalar op_mem 4 0 tag_const) { mem = record plain_mem { base = 3; disp = 16 } };
  op2 = absent_op;
}

abbrev load_templ : Insn
load_templ = record {
  opc = 7;
  op0 = variable 0;
  op1 = record (scalar op_mem 4 0 tag_const) {
    mem = record plain_mem { base = 1; disp = 0 };
    mem_tag = record plain_tags { base = tag_var; disp = tag_var };
  };
  op2 = absent_op;
}

abbrev filled : Assignments
filled =
    record { var = variable 0; val = register 2 }
    ∷ record { var = variable 1; val = register 3 }
    ∷ record { var = scalar op_imm 0 0 tag_var; val = scalar op_imm 0 16 tag_const }
    ∷ []

-- The first temporary is neither the first variable nor register 7, the second one not register 3.
abbrev pairs : List NomatchPair
pairs =
    record { reg1 = 8; tag1 = tag_var; reg2 = 0; tag2 = tag_var }
    ∷ record { reg1 = 7; tag1 = tag_const; reg2 = 8; tag2 = tag_var }
    ∷ record { reg1 = 9; tag1 = tag_var; reg2 = 3; tag2 = tag_const }
    ∷ []

abbrev rule : PeepEntry
rule = record {
  tmpl = load_templ ∷ [];
  label = 5;
  temporaries = tag_var ∷ tag_abcd ∷ [];
  cpu_constraints = 7;
  nomatch_pairs = pairs;
}

load_matches : templ_matches_insns (load ∷ []) (load_templ ∷ []) ≡ ok (some filled)
unfolding templ_matches_insns insns_loop templ_matches_insn operands_match var_match const_match
    mem_operands_match seg_match base_match index_match disp_match mem_match mem_match_var
    assignments_getval getval_loop assignments_add whole append_assignments val_satisfies_tag
    assignment_is_coherent operands_equal same_value mem_equal
load_matches = refl

temporaries_found :
    find_temporary_regs (tag_var ∷ tag_abcd ∷ []) filled pairs ≡ ok (some (6 ∷ 2 ∷ []))
unfolding find_temporary_regs temporaries_from pick is_free temp_assignment_violates_nomatch_pairs
    pair_violates taken_loop assignments_get_regs indices_loop read assignment_is_coherent
    val_satisfies_tag
temporaries_found = refl

-- The assignment turns the load into the template.
load_renamed : insn_rename_constants load filled ≡ ok load_templ
unfolding insn_rename_constants rename_operand rename_seg rename_base rename_index rename_disp
    is_value operands_equal same_value mem_equal
load_renamed = refl

abbrev bucket : List PeepEntry
bucket = record rule { cpu_constraints = 1 } ∷ rule ∷ []

rule_applied : peep_translate bucket (load ∷ []) ≡ ok (some (5, 2 ∷ 3 ∷ 16 ∷ 6 ∷ 2 ∷ []))
unfolding peep_translate rule_params values_loop temporaries_params operand_get_value value_of
    templ_matches_insns insns_loop templ_matches_insn operands_match var_match const_match
    mem_operands_match seg_match base_match index_match disp_match mem_match mem_match_var
    assignments_getval getval_loop assignments_add whole append_assignments val_satisfies_tag
    assignment_is_coherent operands_equal same_value mem_equal find_temporary_regs temporaries_from
    pick is_free temp_assignment_violates_nomatch_pairs pair_violates taken_loop
    assignments_get_regs indices_loop read
rule_applied = refl

operands_equal-Decides_example :
    Decides (operands_equal (register 2) (register 3)) (Same (register 2) (register 3))
operands_equal-Decides_example = operands_equal-Decides (register 2) (register 3) tt tt

assignments_getval-add_example :
    assignments_getval
      (record { var = variable 0; val = register 2 }
        ∷ record { var = variable 1; val = register 3 }
        ∷ [])
      (record (variable 1) { size = 1 })
    ≡ ok (some (record (register 3) { size = 1 }))
unfolding assignments_getval getval_loop assignments_add whole operands_equal same_value
assignments_getval-add_example =
    assignments_getval-add (record (variable 1) { size = 1 }) refl
      (record { var = variable 0; val = register 2 } ∷ [])
      (record { var = variable 0; val = register 2 }
        ∷ record { var = variable 1; val = register 3 }
        ∷ [])
      (record (register 3) { size = 1 }) tt ((refl, inr refl), tt) refl refl

templ_matches_insns-Built_example :
    InsnsMatched filled (load ∷ []) (load_templ ∷ [])
    × Built [] filled (load ∷ []) (load_templ ∷ [])
templ_matches_insns-Built_example =
    templ_matches_insns-Built (load ∷ []) (load_templ ∷ []) filled load_matches

operands_match-twice_example :
    operands_match (register 2) (variable 0) (record { var = variable 0; val = register 2 } ∷ [])
    ≡ stop panic
unfolding operands_match var_match assignments_getval getval_loop assignments_add whole
    assignment_is_coherent val_satisfies_tag
operands_match-twice_example =
    operands_match-twice (register 2) (variable 0) []
      (record { var = variable 0; val = register 2 } ∷ []) refl (λ e. cc) refl tt tt refl

find_temporary_regs-Chooses_example :
    ((ts : List ℕ) × (find_temporary_regs (tag_var ∷ tag_abcd ∷ []) filled pairs ≡ ok (some ts))
      × AreFree filled pairs 0 (tag_var ∷ tag_abcd ∷ []) ts
      × IsDistinct ts)
    ⊎ (find_temporary_regs (tag_var ∷ tag_abcd ∷ []) filled pairs ≡ ok none)
      × IsStuck filled pairs 0 (tag_var ∷ tag_abcd ∷ []) (λ r. false)
find_temporary_regs-Chooses_example =
    find_temporary_regs-Chooses (tag_var ∷ tag_abcd ∷ []) filled pairs
      (
        inr (refl, refl, refl, refl, omega arith),
        (inr (refl, refl, refl, refl, omega arith), (inl refl, tt)),
      )
      (refl, (refl, tt)) (omega arith)

peep_entry_hash-matches_example : hash_insns (load ∷ []) ≡ peep_entry_hash rule
peep_entry_hash-matches_example = peep_entry_hash-matches rule (load ∷ []) filled load_matches

peep_translate-FirstApplies_example : FirstApplies bucket (load ∷ []) (5, 2 ∷ 3 ∷ 16 ∷ 6 ∷ 2 ∷ [])
peep_translate-FirstApplies_example =
    peep_translate-FirstApplies bucket (load ∷ []) (5, 2 ∷ 3 ∷ 16 ∷ 6 ∷ 2 ∷ []) rule_applied
