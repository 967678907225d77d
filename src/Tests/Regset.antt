-- ===== src/Tests/Regset.antt =====
-- Small register sets.
use btkernel.Base.{◌≡◌, true, false, [], arith, ltb, ◌==◌}
use btkernel.Insntypes.{tag_const}
use btkernel.Regset.{
  Regset, regset_clear_all, regset_diff, regset_union, regset_output_nomatch_pairs,
}
use btkernel.Regset.Marks.{has, regset_diff-union}
use btkernel.Regset.Pairs.{Ends}
use btkernel.Regset.Output.{Clash, regset_output_nomatch_pairs-Clash}

abbrev two : Regset
two = record { cregs = λ i. i == 0; vregs = λ i. i == 3; tregs = λ i. false }

abbrev three : Regset
three = record { cregs = λ i. ltb i 2; vregs = λ i. false; tregs = λ i. i == 1 }

regset_diff-union_example :
    (has (regset_diff three two) tag_const 1 ≡ true)
    × (has (regset_union three two) tag_const 1 ≡ true)
    × (has (regset_clear_all three) tag_const 1 ≡ false)
regset_diff-union_example = regset_diff-union three two tag_const 1 (omega arith)

regset_output_nomatch_pairs-Clash_example :
    Ends 400 (Clash two three) 384 [] (regset_output_nomatch_pairs 400 [] two three)
regset_output_nomatch_pairs-Clash_example = regset_output_nomatch_pairs-Clash two three 400 []
