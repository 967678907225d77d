-- ===== src/Tests/NomatchPair.antt =====
-- A list of one pair.
use btkernel.Base.{ℕ, [], ◌∷◌, arith}
use btkernel.Insntypes.{tag_var, tag_const}
use btkernel.NomatchPair.{NomatchPair, nomatch_pair_add}
use btkernel.NomatchPair.Cover.{Added, nomatch_pair_add-Added}

abbrev pair : ℕ → NomatchPair
pair n = record { reg1 = n; tag1 = tag_var; reg2 = 3; tag2 = tag_const }

nomatch_pair_add-Added_example :
    Added 2 (pair 1 ∷ []) (pair 2) (nomatch_pair_add 2 (pair 1 ∷ []) (pair 2))
nomatch_pair_add-Added_example =
    nomatch_pair_add-Added 2 (pair 1 ∷ []) (pair 2) (omega arith) (omega arith)
