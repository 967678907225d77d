-- ===== src/Regset/Output.antt =====
-- `regset_output_nomatch_pairs` of btmod/bt/peep/regset.c against the pairs it is meant to add.
use btkernel.Base.{
  ℕ, ◌+◌, ◌-◌, ◌≤◌, ◌<◌, ◌≡◌, refl, sym, ◌∙◌, ◌≢◌, ◌⊎◌, inl, inr, Bool, true, not, ◌&&◌, List,
  arith, ◌==◌, Run, ◌>>=◌,
}
use native.Mathlib.Decide.{dec_lt}
use btkernel.Insntypes.{Tag, tag_var, tag_const}
use btkernel.NomatchPair.{NomatchPair, nomatch_pair_add}
use btkernel.NomatchPair.Cover.{is_same}
use btkernel.Regset.{Regset, each_loop, pair, inner_loops, regset_output_nomatch_pairs}
use btkernel.Regset.Marks.{has, limit}
use btkernel.Regset.Pairs.{
  Pairs, Ends, Adds, Some, nomatch_pair_add-Adds, Adds->>=, Adds-iff, each_loop-Adds,
}

-- A register variable or temporary `d` that is defined early and a register `u` that is used, other
-- than `d` itself, make the pair, in either order.
abbrev pub Clash : Regset → Regset → NomatchPair → Type 0
Clash idef use_set q =
    (d : ℕ) × (u : ℕ) × (tag : Tag) × (d < 16)
    × (has idef tag_var d ≡ true)
    × (u < limit tag)
    × (has use_set tag u ≡ true)
    × ((tag ≡ tag_const) ⊎ (tag ≡ tag_var) × (u ≢ d))
    × (is_same (pair d u tag) q ≡ true)

abbrev Pairing : ℕ → Tag → ℕ → NomatchPair → Type 0
Pairing reg tag j q = is_same (pair reg j tag) q ≡ true

-- What the inner loops add.
abbrev Inner : ℕ → (ℕ → Bool) → (ℕ → Bool) → (ℕ → Bool) → NomatchPair → Type 0
Inner reg cregs vregs tregs q =
    Some cregs 0 8 (Pairing reg tag_const) q
    ⊎ (Some vregs 0 8 (Pairing reg tag_var) q ⊎ Some tregs 0 8 (λ j. Pairing reg tag_var (8 + j)) q)

abbrev pairing_loop : ℕ → (ℕ → Bool) → (ℕ → NomatchPair) → Pairs → Run Pairs
pairing_loop max test mk = each_loop test (λ j ps. nomatch_pair_add max ps (mk j)) 8 0

pairing_loop-Adds :
    (max : ℕ) (test : ℕ → Bool) (mk : ℕ → NomatchPair)
    → ((j : ℕ) → j < 8 → ((mk j).reg1 < 128) × ((mk j).reg2 < 128))
    → Adds max (Some test 0 8 (λ j q. is_same (mk j) q ≡ true)) 8 (pairing_loop max test mk)
pairing_loop-Adds max test mk small =
    each_loop-Adds max 1 test (λ j ps. nomatch_pair_add max ps (mk j))
      (λ j q. is_same (mk j) q ≡ true) 8
      (λ j lt. let (a, b) = small j lt in nomatch_pair_add-Adds max (mk j) a b) 8 0 8 8
      (omega arith) (omega arith) (omega arith)

inner_loops-Adds :
    (max reg : ℕ) (cregs vregs tregs : ℕ → Bool)
    → reg < 16
    → Adds max (Inner reg cregs vregs tregs) (8 + (8 + 8)) (inner_loops max reg cregs vregs tregs)
unfolding inner_loops
inner_loops-Adds max reg cregs vregs tregs low =
    let b = pairing_loop max vregs (λ j. pair reg j tag_var) in
    let c = pairing_loop max tregs (λ j. pair reg (8 + j) tag_var) in
    Adds->>= max (Some cregs 0 8 (Pairing reg tag_const))
      (λ q.
        Some vregs 0 8 (Pairing reg tag_var) q
        ⊎ Some tregs 0 8 (λ j. Pairing reg tag_var (8 + j)) q)
      8 (8 + 8) (pairing_loop max cregs (λ j. pair reg j tag_const)) (λ ps. b ps >>= c)
      (pairing_loop-Adds max cregs (λ j. pair reg j tag_const) (λ j lt. (omega arith, omega arith)))
      (Adds->>= max (Some vregs 0 8 (Pairing reg tag_var))
        (Some tregs 0 8 (λ j. Pairing reg tag_var (8 + j))) 8 8 b c
        (pairing_loop-Adds max vregs (λ j. pair reg j tag_var) (λ j lt. (omega arith, omega arith)))
        (pairing_loop-Adds max tregs (λ j. pair reg (8 + j) tag_var)
          (λ j lt. (omega arith, omega arith))))

has_low : (s : Regset) (r : ℕ) → r < 8 → has s tag_var r ≡ s.vregs r
has_low s r h = ground arith

has_high : (s : Regset) (i : ℕ) → has s tag_var (8 + i) ≡ s.tregs i
has_high s i = let e : 8 + i - 8 ≡ i = omega arith in ground (arith, e)

has_over : (s : Regset) (d : ℕ) → 8 ≤ d → has s tag_var d ≡ s.tregs (d - 8)
has_over s d h = ground arith

module _ (idef use_set : Regset) where
  abbrev VarRow : ℕ → NomatchPair → Type 0
  VarRow i = Inner i use_set.cregs (λ j. not (i == j) && use_set.vregs j) use_set.tregs

  abbrev TempRow : ℕ → NomatchPair → Type 0
  TempRow i = Inner (8 + i) use_set.cregs use_set.vregs (λ j. not (i == j) && use_set.tregs j)

  abbrev Rows : NomatchPair → Type 0
  Rows q = Some idef.vregs 0 8 VarRow q ⊎ Some idef.tregs 0 8 TempRow q

  Rows→Clash : (q : NomatchPair) → Rows q → Clash idef use_set q
  Rows→Clash q (inl (i, _, lt, d, inl (j, _, lt', u, same))) =
      (i, j, tag_const, omega arith, has_low idef i lt ∙ d, lt', u, inl refl, same)
  Rows→Clash q (inl (i, _, lt, d, inr (inl (j, _, lt', u, same)))) = (
    i,
    j,
    tag_var,
    omega arith,
    has_low idef i lt ∙ d,
    omega arith,
    has_low use_set j lt' ∙ ground (arith, u),
    inr (refl, ground (arith, u)),
    same,
  )
  Rows→Clash q (inl (i, _, lt, d, inr (inr (j, _, lt', u, same)))) = (
    i,
    8 + j,
    tag_var,
    omega arith,
    has_low idef i lt ∙ d,
    omega arith,
    has_high use_set j ∙ u,
    inr (refl, omega arith),
    same,
  )
  Rows→Clash q (inr (i, _, lt, d, inl (j, _, lt', u, same))) =
      (8 + i, j, tag_const, omega arith, has_high idef i ∙ d, lt', u, inl refl, same)
  Rows→Clash q (inr (i, _, lt, d, inr (inl (j, _, lt', u, same)))) = (
    8 + i,
    j,
    tag_var,
    omega arith,
    has_high idef i ∙ d,
    omega arith,
    has_low use_set j lt' ∙ u,
    inr (refl, omega arith),
    same,
  )
  Rows→Clash q (inr (i, _, lt, d, inr (inr (j, _, lt', u, same)))) = (
    8 + i,
    8 + j,
    tag_var,
    omega arith,
    has_high idef i ∙ d,
    omega arith,
    has_high use_set j ∙ ground (arith, u),
    inr (refl, ground (arith, u)),
    same,
  )

  -- The inner loops for `d` reach the register `u`, where their tests let it pass.
  reach_Inner :
      (d u : ℕ) (tag : Tag) (vregs tregs : ℕ → Bool) (q : NomatchPair)
      → u < limit tag
      → has use_set tag u ≡ true
      → ((tag ≡ tag_const) ⊎ (tag ≡ tag_var) × (u ≢ d))
      → (u ≢ d → u < 8 → has use_set tag_var u ≡ true → vregs u ≡ true)
      → (u ≢ d → 8 ≤ u → has use_set tag_var u ≡ true → tregs (u - 8) ≡ true)
      → is_same (pair d u tag) q ≡ true
      → Inner d use_set.cregs vregs tregs q
  reach_Inner d u tag vregs tregs q bound used (inl c) v t same =
      inl (u, omega arith, rw c at bound, rw c at used, rw c at same)
  reach_Inner d u tag vregs tregs q bound used (inr (e, ne)) v t same =
      let used' : has use_set tag_var u ≡ true = rw e at used in
      let same' : is_same (pair d u tag_var) q ≡ true = rw e at same in
      let bound' : u < 16 = rw e at bound in
      elim (dec_lt u 8) [
        | yes low ↦ inr (inl (u, omega arith, low, v ne low used', same'))
        | no high ↦
            let back : 8 + (u - 8) ≡ u = omega arith in
            inr (inr (u - 8, omega arith, omega arith, t ne (omega arith) used', rw back same'))
      ]

  Clash→Rows : (q : NomatchPair) → Clash idef use_set q → Rows q
  Clash→Rows q (d, u, tag, bound, defined, bound', used, apart, same) = elim (dec_lt d 8) [
    | yes low ↦ inl (
      d,
      omega arith,
      low,
      sym (has_low idef d low) ∙ defined,
      reach_Inner d u tag (λ j. not (d == j) && use_set.vregs j) use_set.tregs q bound' used apart
          (λ ne lt h. ground (arith, has_low use_set u lt))
          (λ ne ge h. sym (has_over use_set u ge) ∙ h) same,
    )
    | no high ↦
        let back : 8 + (d - 8) ≡ d = omega arith in
        inr (
          d - 8,
          omega arith,
          omega arith,
          sym (has_over idef d (omega arith)) ∙ defined,
          rw back (
              reach_Inner d u tag use_set.vregs (λ j. not (d - 8 == j) && use_set.tregs j) q bound'
                used apart (λ ne lt h. sym (has_low use_set u lt) ∙ h)
                (λ ne ge h. ground (arith, has_over use_set u ge)) same),
        )
  ]

  pub regset_output_nomatch_pairs-Clash :
      (max : ℕ) (pairs : List NomatchPair)
      → Ends max (Clash idef use_set) 384 pairs (regset_output_nomatch_pairs max pairs idef use_set)
  unfolding regset_output_nomatch_pairs
  regset_output_nomatch_pairs-Clash max pairs =
      let var_row : ℕ → Pairs → Run Pairs =
        λ i. inner_loops max i use_set.cregs (λ j. not (i == j) && use_set.vregs j) use_set.tregs in
      let temp_row : ℕ → Pairs → Run Pairs = λ i.
        inner_loops max (8 + i) use_set.cregs use_set.vregs
          (λ j. not (i == j) && use_set.tregs j) in
      let first =
        each_loop-Adds max 24 idef.vregs var_row VarRow 8
          (λ i lt.
            inner_loops-Adds max i use_set.cregs (λ j. not (i == j) && use_set.vregs j)
              use_set.tregs (omega arith))
          8 0 8 192 (omega arith) (omega arith) (omega arith) in
      let next =
        each_loop-Adds max 24 idef.tregs temp_row TempRow 8
          (λ i lt.
            inner_loops-Adds max (8 + i) use_set.cregs use_set.vregs
              (λ j. not (i == j) && use_set.tregs j) (omega arith))
          8 0 8 192 (omega arith) (omega arith) (omega arith) in
      let both =
        Adds->>= max (Some idef.vregs 0 8 VarRow) (Some idef.tregs 0 8 TempRow) 192 192
          (each_loop idef.vregs var_row 8 0) (each_loop idef.tregs temp_row 8 0) first next in
      Adds-iff max Rows (Clash idef use_set) (192 + 192) 384
        (λ ps. each_loop idef.vregs var_row 8 0 ps >>= each_loop idef.tregs temp_row 8 0)
        (omega arith) (λ q. (Rows→Clash q, Clash→Rows q)) both pairs
