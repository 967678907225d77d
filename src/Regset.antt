-- ===== src/Regset.antt =====
-- Sets of registers, btmod/bt/peep/regset.c and peep/regset.h. A `char` of the arrays is only tested
-- for 0, and is a Boolean here; the arrays are functions, which are read and written below the
-- bounds that the code asserts. A register number is not negative.
pub mod Marks
pub mod Unused
pub mod Pairs
pub mod Output
use btkernel.Base.{
  ℕ, zero, suc, ◌+◌, ◌-◌, Bool, true, false, not, ◌&&◌, ◌||◌, List, ltb, leb, ◌==◌, if◌then◌else◌,
  Run, assert, ◌>>◌, panic, ok, stop, ◌>>=◌,
}
use btkernel.NomatchPair.{NomatchPair, nomatch_pair_add}
use btkernel.Insntypes.{Tag, tag_const, tag_var, tag_eq, num_regs, max_temporaries, temp_reg0}

-- `regset_t`
pub record Regset : Type 0 where
  pub cregs : ℕ → Bool
  pub vregs : ℕ → Bool
  pub tregs : ℕ → Bool

-- An assignment to one element of an array.
abbrev pub update : (ℕ → Bool) → ℕ → Bool → ℕ → Bool
update f i v j = if j == i then v else f j

-- A `memset` of an array of `n` elements to 0.
abbrev pub cleared : ℕ → (ℕ → Bool) → ℕ → Bool
cleared n f j = if ltb j n then false else f j

pub regset_clear_all : Regset → Regset
regset_clear_all s = record {
  cregs = cleared num_regs s.cregs;
  vregs = cleared num_regs s.vregs;
  tregs = cleared max_temporaries s.tregs;
}

-- `regset_mark` (with the value 1) and `regset_clear` (with 0) are alike but for the value.
pub put : Bool → Regset → Tag → ℕ → Run Regset
put v s tag reg =
    if tag_eq tag tag_const
    then (assert (ltb reg num_regs) >> ok (record s { cregs = update s.cregs reg v }))
    else if leb temp_reg0 reg
    then (assert (ltb reg (temp_reg0 + max_temporaries))
        >> ok (record s { tregs = update s.tregs (reg - temp_reg0) v }))
    else (assert (ltb reg num_regs) >> ok (record s { vregs = update s.vregs reg v }))

pub regset_mark : Regset → Tag → ℕ → Run Regset
regset_mark = put true

pub regset_clear : Regset → Tag → ℕ → Run Regset
regset_clear = put false

-- A loop of `regset_diff` over one array, with `n` rounds left.
pub diff_loop : (ℕ → Bool) → (ℕ → Bool) → ℕ → ℕ → ℕ → Bool
diff_loop dst src zero i = dst
diff_loop dst src (suc n) i =
    diff_loop (if dst i && src i then update dst i false else dst) src n (i + 1)

pub regset_diff : Regset → Regset → Regset
regset_diff dst src = record {
  cregs = diff_loop dst.cregs src.cregs num_regs 0;
  vregs = diff_loop dst.vregs src.vregs num_regs 0;
  tregs = diff_loop dst.tregs src.tregs max_temporaries 0;
}

-- A loop of `regset_union` over one array, with `n` rounds left.
pub union_loop : (ℕ → Bool) → (ℕ → Bool) → ℕ → ℕ → ℕ → Bool
union_loop dst src zero i = dst
union_loop dst src (suc n) i = union_loop (update dst i (dst i || src i)) src n (i + 1)

pub regset_union : Regset → Regset → Regset
regset_union dst src = record {
  cregs = union_loop dst.cregs src.cregs num_regs 0;
  vregs = union_loop dst.vregs src.vregs num_regs 0;
  tregs = union_loop dst.tregs src.tregs max_temporaries 0;
}

-- The loop of `regset_find_unused` with `n` rounds left; after the last one comes `NOT_REACHED`.
pub unused_loop : (ℕ → Bool) → ℕ → ℕ → Run ℕ
unused_loop cregs zero i = stop panic
unused_loop cregs (suc n) i = elim (cregs i) [ true ↦ unused_loop cregs n (i + 1) | false ↦ ok i ]

pub regset_find_unused : Regset → Run ℕ
regset_find_unused s = unused_loop s.cregs num_regs 0

-- A loop of `regset_output_nomatch_pairs` with `n` rounds left: the body for each register that
-- passes the test.
pub each_loop :
    (ℕ → Bool)
    → (ℕ → List NomatchPair → Run (List NomatchPair))
    → ℕ
    → ℕ
    → List NomatchPair
    → Run (List NomatchPair)
each_loop test body zero i pairs = ok pairs
each_loop test body (suc n) i pairs = do
  pairs' ← if test i then body i pairs else ok pairs
  each_loop test body n (i + 1) pairs'

abbrev pub pair : ℕ → ℕ → Tag → NomatchPair
pair reg1 reg2 tag2 = record { reg1 = reg1; tag1 = tag_var; reg2 = reg2; tag2 = tag2 }

-- The three inner loops for the defined register `reg`, with the tests of their variables and
-- temporaries.
pub inner_loops :
    ℕ → ℕ → (ℕ → Bool) → (ℕ → Bool) → (ℕ → Bool) → List NomatchPair → Run (List NomatchPair)
inner_loops max reg cregs vregs tregs pairs₀ = do
  pairs₁ ←
      each_loop cregs (λ j ps. nomatch_pair_add max ps (pair reg j tag_const)) num_regs 0 pairs₀
  pairs₂ ← each_loop vregs (λ j ps. nomatch_pair_add max ps (pair reg j tag_var)) num_regs 0 pairs₁
  each_loop tregs (λ j ps. nomatch_pair_add max ps (pair reg (temp_reg0 + j) tag_var))
      max_temporaries 0 pairs₂

pub regset_output_nomatch_pairs : ℕ → List NomatchPair → Regset → Regset → Run (List NomatchPair)
regset_output_nomatch_pairs max pairs idef use_set = do
  pairs' ←
      each_loop idef.vregs
        (λ i. inner_loops max i use_set.cregs (λ j. not (i == j) && use_set.vregs j) use_set.tregs)
        num_regs 0 pairs
  each_loop idef.tregs
      (λ i.
        inner_loops max (temp_reg0 + i) use_set.cregs use_set.vregs
          (λ j. not (i == j) && use_set.tregs j))
      max_temporaries 0 pairs'
