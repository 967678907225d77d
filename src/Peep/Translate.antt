-- ===== src/Peep/Translate.antt =====
-- The lookup of the peephole rules, `hash_insns` and `peep_translate` of btmod/bt/peep/peep.c. The
-- bucket of the hash table is the list of the entries that it gives back, and the code that is
-- emitted for a rule is known by the rule's label and its parameters. Debug output is left out.
pub mod Hash
pub mod Rule
use btkernel.Base.{
  ℕ, ◌+◌, ◌*◌, ◌%◌, ◌^◌, bit_and, Bool, true, false, not, ◌&&◌, ◌||◌, Option, none, some, List, [],
  ◌∷◌, ◌++◌, ltb, ◌==◌, length, Run, assert, fault, ok, stop, ◌>>=◌, ◌>>◌,
}
use btkernel.Insntypes.{Tag, num_regs}
use btkernel.NomatchPair.{NomatchPair}
use btkernel.Operand.{Operand, Insn, op_reg, type_num, type_eq, operand_get_value}
use btkernel.Assignments.{Assignments, is_reg}
use btkernel.Peep.{templ_matches_insns}
use btkernel.Peep.Temps.{find_temporary_regs}

-- `peep_entry_t`
pub record PeepEntry : Type 0 where
  pub tmpl : List Insn
  pub label : ℕ
  pub temporaries : List Tag
  pub cpu_constraints : ℕ
  pub nomatch_pairs : List NomatchPair

-- An `unsigned` addition.
abbrev plus : ℕ → ℕ → ℕ
plus a b = (a + b) % 2 ^ 32

-- The loop of `hash_insns` from the sum `ret`.
pub hash_loop : List Insn → ℕ → ℕ
hash_loop [] ret = ret
hash_loop (insn ∷ insns) ret = hash_loop insns (
    plus
      (plus (plus (plus ret (insn.opc * 1601)) (type_num insn.op0.type * 487))
        (type_num insn.op1.type * 487))
      (type_num insn.op2.type * 487))

pub hash_insns : List Insn → ℕ
hash_insns insns = hash_loop insns (length insns * 313 % 2 ^ 32)

-- `peep_entry_hash`
pub peep_entry_hash : PeepEntry → ℕ
peep_entry_hash entry = hash_insns entry.tmpl

-- CPU_CONSTRAINT_NO_EXCP | CPU_CONSTRAINT_PROTECTED
abbrev pub constraints : ℕ
constraints = 6

abbrev pub admits : PeepEntry → Bool
admits entry = bit_and constraints entry.cpu_constraints == constraints

-- The parameters of the assigned variables.
unfoldable pub values_loop : Assignments → Run (List ℕ)
values_loop [] = ok []
values_loop (a ∷ rest) = do
  value ← operand_get_value a.val
  assert (not (is_reg a.var) || (type_eq a.var.type a.val.type && (value == a.val.val)))
  values ← values_loop rest
  ok (value ∷ values)

-- The second loop, over the temporaries.
unfoldable pub temporaries_params : List ℕ → Run (List ℕ)
temporaries_params [] = ok []
temporaries_params (t ∷ temporaries) = do
  assert (ltb t num_regs)
  params ← temporaries_params temporaries
  ok (t ∷ params)

-- What `peepgen_code` is called with for an entry that matches. When there are too few registers,
-- the code goes on to read temporaries that have no value.
unfoldable pub rule_params : PeepEntry → Assignments → Run (ℕ × List ℕ)
rule_params entry assignments = do
  values ← values_loop assignments
  found ← find_temporary_regs entry.temporaries assignments entry.nomatch_pairs
  elim found [
    | none ↦ stop fault
    | some temporaries ↦ do
      params ← temporaries_params temporaries
      ok (entry.label, values ++ params)
  ]

-- `peep_translate` over the entries of the bucket: the call of `peepgen_code` with the result 1, or
-- `none` for the result 0.
unfoldable pub peep_translate : List PeepEntry → List Insn → Run (Option (ℕ × List ℕ))
peep_translate [] insns = ok none
peep_translate (entry ∷ bucket) insns = elim (admits entry) [
  | false ↦ peep_translate bucket insns
  | true ↦ do
    found ← templ_matches_insns insns entry.tmpl
    elim found [
      | none ↦ peep_translate bucket insns
      | some assignments ↦ do call ← rule_params entry assignments; ok (some call)
    ]
]
