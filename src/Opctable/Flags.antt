-- ===== src/Opctable/Flags.antt =====
-- `find_sizeflag_num` of btmod/bt/peep/opctable.c.
use btkernel.Base.{
  ℕ, zero, suc, ◌+◌, ◌≤◌, ◌<◌, ◌≡◌, sym, ap, ◌∙◌, ◌≢◌, inl, inr, true, false, arith, ℕ_discrete,
  ltb, leb, ◌==◌, if◌then◌else◌, ==_iff, lt_or_eq, ◌>>=◌, panic, ok, stop,
}
use native.Mathlib.Decide.{dec_lt}
use native.Mathlib.Nat.{le_refl}
use btkernel.Opctable.{Opctable, update, flag_loop, find_sizeflag_num}

-- `num` is the index of the first of `size` flags that matches, or `size` where none does.
pub record IsFlag (flags : ℕ → ℕ) (size sizeflag num : ℕ) : Type 0 where
  pub upto : num ≤ size
  pub match : num < size → flags num ≡ sizeflag
  pub first : (j : ℕ) → j < num → flags j ≢ sizeflag

flag_loop-IsFlag :
    (flags : ℕ → ℕ) (sizeflag size n i : ℕ)
    → i + n ≡ size
    → ((j : ℕ) → j < i → flags j ≢ sizeflag)
    → IsFlag flags size sizeflag (flag_loop flags sizeflag size n i)
unfolding flag_loop
flag_loop-IsFlag flags sizeflag size zero i h before = record {
  upto = le_refl size;
  match = λ lt. absurd (omega arith);
  first = λ j lt. before j (omega arith);
}
flag_loop-IsFlag flags sizeflag size (suc n) i h before = elim (ℕ_discrete (flags i) sizeflag) [
  | yes e ↦
      rw ((==_iff _ _).1 e, flag_loop)
        (record { upto = omega arith; match = λ lt. e; first = before })
  | no e ↦
      let miss : flags i == sizeflag ≡ false = ground arith in
      rw (miss, flag_loop)
        (flag_loop-IsFlag flags sizeflag size n (i + 1) (omega arith) (λ j lt g.
          elim (lt_or_eq j i (omega arith)) [
            | inl less ↦ before j less g
            | inr same ↦ e (ap flags (sym same) ∙ g)
          ]))
]

-- Such an index is unique.
IsFlag-unique :
    (flags : ℕ → ℕ) (size sizeflag num num' : ℕ)
    → IsFlag flags size sizeflag num
    → IsFlag flags size sizeflag num'
    → num ≡ num'
IsFlag-unique flags size sizeflag num num' a b = elim (dec_lt num num') [
  | yes lt ↦ absurd (b.first num lt (a.match (omega (arith, b.upto))))
  | no ge ↦ elim (dec_lt num' num) [
    | yes lt ↦ absurd (a.first num' lt (b.match (omega (arith, a.upto))))
    | no le ↦ omega arith
  ]
]

-- In a table of at most four flags `find_sizeflag_num` returns the index of the flag, or of the
-- place for a new one, where that is one of the four places, and it panics otherwise.
pub find_sizeflag_num-IsFlag :
    (t : Opctable) (sizeflag num : ℕ)
    → t.sizeflagtable_size ≤ 4
    → IsFlag t.sizeflagtable t.sizeflagtable_size sizeflag num
    → find_sizeflag_num t sizeflag ≡ (if ltb num 4 then ok num else stop panic)
unfolding find_sizeflag_num
find_sizeflag_num-IsFlag t sizeflag num small is =
    let size = t.sizeflagtable_size in
    let found =
      flag_loop-IsFlag t.sizeflagtable sizeflag size size 0 (omega arith)
        (λ j lt. absurd (omega arith)) in
    let same = IsFlag-unique t.sizeflagtable size sizeflag _ num found is in
    let fits : leb size 4 ≡ true = ground arith in rw (fits, ◌>>=◌, same) (ground arith)

-- A flag that is known, or that is put in the place where it was missed, is found in the longer
-- table at the same index.
pub IsFlag-update :
    (flags : ℕ → ℕ) (size sizeflag num other num' : ℕ)
    → IsFlag flags size sizeflag num
    → IsFlag flags size other num'
    → num' < size
    → (num ≡ size → IsFlag (update flags num sizeflag) (size + 1) other num')
IsFlag-update flags size sizeflag num other num' a b known new = record {
  upto = omega (arith, b.upto);
  match = λ lt. ground (arith, b.match known);
  first = λ j lt. ground (arith, b.first j lt);
}

pub IsFlag-new :
    (flags : ℕ → ℕ) (size sizeflag num : ℕ)
    → IsFlag flags size sizeflag num
    → num ≡ size
    → IsFlag (update flags num sizeflag) (size + 1) sizeflag num
IsFlag-new flags size sizeflag num a new = record {
  upto = omega (arith, a.upto);
  match = λ lt. ground arith;
  first = λ j lt. ground (arith, a.first j lt);
}
