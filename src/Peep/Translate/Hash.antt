-- ===== src/Peep/Translate/Hash.antt =====
-- Instructions that match the template of a rule are looked up in the bucket of the rule.
use btkernel.Base.{ℕ, suc, ◌≡◌, refl, ap, some, List, [], ◌∷◌, length, ok}
use btkernel.Operand.{Insn}
use btkernel.Assignments.{Assignments}
use btkernel.Peep.{templ_matches_insns}
use btkernel.Peep.Matched.{InsnsMatched}
use btkernel.Peep.Sound.{templ_matches_insns-InsnsMatched}
use btkernel.Peep.Translate.{PeepEntry, hash_loop, hash_insns, peep_entry_hash}

InsnsMatched-length :
    (B : Assignments) (insns templs : List Insn)
    → InsnsMatched B insns templs
    → length insns ≡ length templs
InsnsMatched-length B [] [] m = refl
InsnsMatched-length B [] (t ∷ ts) m = elim m [ ]
InsnsMatched-length B (i ∷ is) [] m = elim m [ ]
InsnsMatched-length B (i ∷ is) (t ∷ ts) m = ap suc (InsnsMatched-length B is ts m.1)

hash_loop-InsnsMatched :
    (B : Assignments) (insns templs : List Insn) (ret : ℕ)
    → InsnsMatched B insns templs
    → hash_loop insns ret ≡ hash_loop templs ret
unfolding hash_loop
hash_loop-InsnsMatched B [] [] ret m = refl
hash_loop-InsnsMatched B [] (t ∷ ts) ret m = elim m [ ]
hash_loop-InsnsMatched B (i ∷ is) [] ret m = elim m [ ]
hash_loop-InsnsMatched B (i ∷ is) (t ∷ ts) ret (m, ms) =
    let (t₀, t₁, t₂) = m.types in rw (m.opc, t₀, t₁, t₂) (hash_loop-InsnsMatched B is ts _ ms)

-- Instructions that match the template of a rule have the hash of the rule, so that the bucket in
-- which they are looked up is the one that holds the rule.
pub peep_entry_hash-matches :
    (entry : PeepEntry) (insns : List Insn) (B : Assignments)
    → templ_matches_insns insns entry.tmpl ≡ ok (some B)
    → hash_insns insns ≡ peep_entry_hash entry
unfolding hash_insns peep_entry_hash
peep_entry_hash-matches entry insns B h =
    let m = templ_matches_insns-InsnsMatched insns entry.tmpl B h in
    rw (InsnsMatched-length B insns entry.tmpl m) (hash_loop-InsnsMatched B insns entry.tmpl _ m)
