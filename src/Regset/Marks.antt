-- ===== src/Regset/Marks.antt =====
-- Membership in a register set, and what each operation of btmod/bt/peep/regset.c does to it.
use btkernel.Base.{
  ℕ, zero, suc, ◌+◌, ◌-◌, ◌≤◌, ◌<◌, ◌≡◌, refl, ◌⊎◌, inl, inr, Bool, true, false, not, ◌&&◌, ◌||◌,
  arith, ℕ_discrete, ltb, leb, ◌==◌, if◌then◌else◌, Bool-cases, Run, panic, ok, stop,
}
use btkernel.Insntypes.{Tag, tag_const, tag_eq}
use btkernel.Regset.{
  Regset, update, put, regset_clear_all, regset_mark, regset_clear, diff_loop, regset_diff,
  union_loop, regset_union,
}

-- Whether the register is in the set.
abbrev pub has : Regset → Tag → ℕ → Bool
has s tag reg =
    if tag_eq tag tag_const
    then s.cregs reg
    else if leb 8 reg
    then s.tregs (reg - 8)
    else s.vregs reg

-- The two operands name the same register: a constant tag names one of the machine, and any other
-- tag a variable.
abbrev pub same_reg : Tag → ℕ → Tag → ℕ → Bool
same_reg tag reg tag' reg' =
    if tag_eq tag tag_const
    then tag_eq tag' tag_const && (reg == reg')
    else not (tag_eq tag' tag_const) && (reg == reg')

-- Eight machine registers, or eight register variables and eight temporaries.
abbrev pub limit : Tag → ℕ
limit tag = if tag_eq tag tag_const then 8 else 16

-- What an operation that puts `v` at a register leaves of the others.
abbrev pub Puts : Bool → Regset → Tag → ℕ → Run Regset → Type 0
Puts v s tag reg r =
    ((s' : Regset) × (r ≡ ok s')
      × ((tag' : Tag) (reg' : ℕ)
          → has s' tag' reg' ≡ (if same_reg tag reg tag' reg' then v else has s tag' reg')))
    ⊎ (r ≡ stop panic) × (limit tag ≤ reg)

put-Puts : (v : Bool) (s : Regset) (tag : Tag) (reg : ℕ) → Puts v s tag reg (put v s tag reg)
unfolding put
put-Puts v s tag reg = elim (Bool-cases (tag_eq tag tag_const)) [
  | inl c ↦ rw c (elim (Bool-cases (ltb reg 8)) [
    | inl h ↦ rw h (inl (_, refl, λ tag' reg'. ground (arith, h, c)))
    | inr h ↦ rw h (inr (refl, ground (arith, h, c)))
  ])
  | inr c ↦ rw c (elim (Bool-cases (leb 8 reg)) [
    | inl t ↦ rw t (elim (Bool-cases (ltb reg 16)) [
      | inl h ↦ rw h (inl (_, refl, λ tag' reg'. ground (arith, h, c, t)))
      | inr h ↦ rw h (inr (refl, ground (arith, h, c)))
    ])
    | inr t ↦
        let h : ltb reg 8 ≡ true = ground (arith, t) in
        rw (t, h) (inl (_, refl, λ tag' reg'. ground (arith, h, c, t)))
  ])
]

-- `regset_mark` adds exactly the one register to the set, `regset_clear` removes exactly that one,
-- and either fails its ASSERT only for a register number that is out of range for the tag.
pub regset_mark-Puts :
    (s : Regset) (tag : Tag) (reg : ℕ)
    → Puts true s tag reg (regset_mark s tag reg) × Puts false s tag reg (regset_clear s tag reg)
unfolding regset_mark regset_clear
regset_mark-Puts s tag reg = (put-Puts true s tag reg, put-Puts false s tag reg)

diff_loop_lem :
    (dst src : ℕ → Bool) (n i j : ℕ)
    → diff_loop dst src n i j ≡ (if leb i j && ltb j (i + n) then dst j && not (src j) else dst j)
unfolding diff_loop
diff_loop_lem dst src zero i j = ground arith
diff_loop_lem dst src (suc n) i j =
    rw (diff_loop_lem (if dst i && src i then update dst i false else dst) src n (i + 1) j)
      (elim (ℕ_discrete j i) [ yes e ↦ rw e (ground arith) | no ne ↦ ground arith ])

union_loop_lem :
    (dst src : ℕ → Bool) (n i j : ℕ)
    → union_loop dst src n i j ≡ (if leb i j && ltb j (i + n) then dst j || src j else dst j)
unfolding union_loop
union_loop_lem dst src zero i j = ground arith
union_loop_lem dst src (suc n) i j =
    rw (union_loop_lem (update dst i (dst i || src i)) src n (i + 1) j)
      (elim (ℕ_discrete j i) [ yes e ↦ rw e (ground arith) | no ne ↦ ground arith ])

-- For every register in range, `regset_diff` leaves those of the first set that are not in the
-- second, `regset_union` those of either, and `regset_clear_all` none.
pub regset_diff-union :
    (dst src : Regset) (tag : Tag) (reg : ℕ)
    → reg < limit tag
    → (has (regset_diff dst src) tag reg ≡ has dst tag reg && not (has src tag reg))
      × (has (regset_union dst src) tag reg ≡ has dst tag reg || has src tag reg)
      × (has (regset_clear_all dst) tag reg ≡ false)
unfolding regset_diff regset_union regset_clear_all
regset_diff-union dst src tag reg h = (
  rw (diff_loop_lem, diff_loop_lem, diff_loop_lem) (ground arith),
  rw (union_loop_lem, union_loop_lem, union_loop_lem) (ground arith),
  ground arith,
)

-- The loop over the registers of the machine.
pub union_loop-cregs :
    (dst src : ℕ → Bool) (reg : ℕ) → reg < 8 → union_loop dst src 8 0 reg ≡ dst reg || src reg
union_loop-cregs dst src reg low = rw (union_loop_lem dst src 8 0 reg) (ground arith)
