-- ===== src/NomatchPair.antt =====
-- Pairs of registers that may not be matched to one register, btmod/bt/peep/nomatch_pair.c. The
-- array with its count is the list of the entries that count. A register number is the bit pattern
-- of an `int`; the fields of an entry are `char`, and hold the pattern of the `int` that such a
-- `char`, which is signed on the x86, is read as.
pub mod Cover
use btkernel.Base.{
  ℕ, ◌+◌, ◌-◌, ◌%◌, ◌^◌, Bool, true, false, ◌&&◌, List, [], ◌∷◌, ◌++◌, ltb, ◌==◌, if◌then◌else◌,
  length, Run, assert, ok, ◌>>◌,
}
use btkernel.Insntypes.{Tag, tag_eq, tag_num}

-- `nomatch_pair_t`, or the two registers that are passed to `nomatch_pair_add`.
pub record NomatchPair : Type 0 where
  pub reg1 : ℕ
  pub tag1 : Tag
  pub reg2 : ℕ
  pub tag2 : Tag

-- The two tests of the loop of `nomatch_pair_add`, for the entry `e`.
pub same_pair : NomatchPair → NomatchPair → Bool
same_pair e p =
    (e.reg1 == p.reg1) && (tag_eq e.tag1 p.tag1 && ((e.reg2 == p.reg2) && tag_eq e.tag2 p.tag2))

pub swapped_pair : NomatchPair → NomatchPair → Bool
swapped_pair e p =
    (e.reg2 == p.reg1) && (tag_eq e.tag2 p.tag1 && ((e.reg1 == p.reg2) && tag_eq e.tag1 p.tag2))

-- The loop: whether some entry is the pair, in either order.
pub covers : List NomatchPair → NomatchPair → Bool
covers [] p = false
covers (e ∷ pairs) p =
    let rest = covers pairs p in
    if same_pair e p then true else if swapped_pair e p then true else rest

-- What an `int` is read as, once it is stored in a `char`.
unfoldable pub as_char : ℕ → ℕ
as_char n = let c = n % 256 in if ltb c 128 then c else c + (2 ^ 32 - 256)

abbrev pub as_stored : NomatchPair → NomatchPair
as_stored p = record { reg1 = as_char p.reg1; tag1 = p.tag1; reg2 = as_char p.reg2; tag2 = p.tag2 }

pub nomatch_pair_add : ℕ → List NomatchPair → NomatchPair → Run (List NomatchPair)
nomatch_pair_add max_nomatch_pairs pairs p =
    if covers pairs p
    then ok pairs
    else do assert (ltb (length pairs) max_nomatch_pairs); ok (pairs ++ as_stored p ∷ [])
