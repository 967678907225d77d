-- ===== src/Regset/Pairs.antt =====
-- The loops of `regset_output_nomatch_pairs`, btmod/bt/peep/regset.c: the pairs that they add.
use btkernel.Base.{
  ℕ, zero, suc, ◌+◌, ◌*◌, ◌≤◌, ◌<◌, ◌≡◌, refl, ◌↔◌, ◌⊎◌, inl, inr, Bool, true, false, ◌||◌, List,
  arith, if◌then◌else◌, Bool-cases, lt_or_eq, length, Run, ◌>>=◌, panic, ok, stop,
}
use mathlib.Core.Bool.{false≢true}
use btkernel.NomatchPair.{NomatchPair, covers, nomatch_pair_add}
use btkernel.NomatchPair.Cover.{is_same, nomatch_pair_add-Added}
use btkernel.Regset.{each_loop}

abbrev pub Pairs : Type 0
Pairs = List NomatchPair

-- How a run that adds pairs to `pairs` ends: with the pairs that were there, in either order, and
-- those that are wanted, `n` more at most; or in a panic, and then `n` more would not fit.
abbrev pub Ends :
    ℕ → (NomatchPair → Type 0) → ℕ → List NomatchPair → Run (List NomatchPair) → Type 0
Ends max Wanted n pairs r =
    ((out : List NomatchPair) × (r ≡ ok out)
      × ((q : NomatchPair) → (covers out q ≡ true) ↔ ((covers pairs q ≡ true) ⊎ Wanted q))
      × (length out ≤ length pairs + n))
    ⊎ (r ≡ stop panic) × (max < length pairs + n)

abbrev pub Adds : ℕ → (NomatchPair → Type 0) → ℕ → (Pairs → Run Pairs) → Type 0
Adds max Wanted n f = (pairs : Pairs) → Ends max Wanted n pairs (f pairs)

or_cases : (a b : Bool) → (a || b ≡ true) ↔ ((a ≡ true) ⊎ (b ≡ true))
or_cases true b = ((λ h. inl refl), (λ h. refl))
or_cases false b = (inr, λ h. elim h [ inl e ↦ absurd (cc) | inr e ↦ e ])

module _ (max : ℕ) where
  pub nomatch_pair_add-Adds :
      (p : NomatchPair)
      → p.reg1 < 128
      → p.reg2 < 128
      → Adds max (λ q. is_same p q ≡ true) 1 (λ ps. nomatch_pair_add max ps p)
  nomatch_pair_add-Adds p low low' pairs = elim (nomatch_pair_add-Added max pairs p low low') [
    | inl (out, run, both, fits, one) ↦
        inl (out, run, λ q. rw (both q) (or_cases (covers pairs q) (is_same p q)), one)
    | inr (run, new, full) ↦ inr (run, omega arith)
  ]

  Adds-none : (n : ℕ) → Adds max (λ q. ⊥) n ok
  Adds-none n pairs =
      inl (pairs, refl, λ q. (inl, λ h. elim h [ inl e ↦ e | inr e ↦ elim e [ ] ]), omega arith)

  pub Adds->>= :
      (V W : NomatchPair → Type 0) (n m : ℕ) (f g : Pairs → Run Pairs)
      → Adds max V n f
      → Adds max W m g
      → Adds max (λ q. V q ⊎ W q) (n + m) (λ ps. f ps >>= g)
  Adds->>= V W n m f g first next pairs = elim (first pairs) [
    | inr (run, full) ↦ inr (rw (run, ◌>>=◌), omega arith)
    | inl (mid, run, from, few) ↦ elim (next mid) [
      | inr (run', full) ↦ inr (rw (run, ◌>>=◌) run', omega arith)
      | inl (out, run', from', few') ↦ inl (
        out,
        rw (run, ◌>>=◌) run',
        λ q. (
          λ h. elim ((from' q).0 h) [
            | inr w ↦ inr (inr w)
            | inl c ↦ elim ((from q).0 c) [ inl e ↦ inl e | inr v ↦ inr (inl v) ]
          ],
          λ h. elim h [
            | inl e ↦ (from' q).1 (inl ((from q).1 (inl e)))
            | inr (inl v) ↦ (from' q).1 (inl ((from q).1 (inr v)))
            | inr (inr w) ↦ (from' q).1 (inr w)
          ],
        ),
        omega arith,
      )
    ]
  ]

  pub Adds-iff :
      (V W : NomatchPair → Type 0) (n m : ℕ) (f : Pairs → Run Pairs)
      → n ≤ m
      → ((q : NomatchPair) → V q ↔ W q)
      → Adds max V n f
      → Adds max W m f
  Adds-iff V W n m f le same adds pairs = elim (adds pairs) [
    | inr (run, full) ↦ inr (run, omega arith)
    | inl (out, run, from, few) ↦ inl (
      out,
      run,
      λ q. (
        λ h. elim ((from q).0 h) [ inl e ↦ inl e | inr v ↦ inr ((same q).0 v) ],
        λ h. (from q).1 (elim h [ inl e ↦ inl e | inr w ↦ inr ((same q).1 w) ]),
      ),
      omega arith,
    )
  ]

-- Some register of `a .. b` passes the test and wants the pair.
abbrev pub Some : (ℕ → Bool) → ℕ → ℕ → (ℕ → NomatchPair → Type 0) → NomatchPair → Type 0
Some test a b Wanted q = (j : ℕ) × (a ≤ j) × (j < b) × (test j ≡ true) × Wanted j q

module _ (max k : ℕ) (test : ℕ → Bool) (body : ℕ → Pairs → Run Pairs)
    (Wanted : ℕ → NomatchPair → Type 0) (top : ℕ)
    (each : (j : ℕ) → j < top → Adds max (Wanted j) k (body j)) where
  round-Adds :
      (i : ℕ)
      → i < top
      → Adds max (λ q. (test i ≡ true) × Wanted i q) k (λ ps. if test i then body i ps else ok ps)
  round-Adds i lt pairs = elim (Bool-cases (test i)) [
    | inl t ↦ rw t (
        Adds-iff max (Wanted i) (λ q. (true ≡ true) × Wanted i q) k k (body i) (omega arith)
          (λ q. ((λ w. (refl, w)), (λ h. h.1))) (each i lt) pairs)
    | inr f ↦ rw f (
        Adds-iff max (λ q. ⊥) (λ q. (false ≡ true) × Wanted i q) k k ok (omega arith)
          (λ q. ((λ e. elim e [ ]), (λ h. false≢true h.0))) (Adds-none max k) pairs)
  ]

  Some-cons :
      (i b : ℕ) (q : NomatchPair)
      → i < b
      → (((test i ≡ true) × Wanted i q) ⊎ Some test (i + 1) b Wanted q) ↔ Some test i b Wanted q
  Some-cons i b q lt = (
    λ h. elim h [
      | inl (t, w) ↦ (i, omega arith, lt, t, w)
      | inr (j, low, high, t, w) ↦ (j, omega arith, high, t, w)
    ],
    λ (j, low, high, t, w). elim (lt_or_eq i j low) [
      | inl less ↦ inr (j, omega arith, high, t, w)
      | inr e ↦ inl (rw e t, rw e w)
    ],
  )

  pub each_loop-Adds :
      (n i b m : ℕ)
      → i + n ≡ b
      → b ≤ top
      → n * k ≤ m
      → Adds max (Some test i b Wanted) m (each_loop test body n i)
  unfolding each_loop
  each_loop-Adds zero i b m h inside room =
      Adds-iff max (λ q. ⊥) (Some test i b Wanted) 0 m ok (omega arith)
        (λ q. ((λ e. elim e [ ]), (λ s. absurd (omega (arith, s.1, s.2))))) (Adds-none max 0)
  each_loop-Adds (suc n) i b m h inside room =
      let one : suc n * k ≡ k + n * k = omega arith in
      Adds-iff max (λ q. ((test i ≡ true) × Wanted i q) ⊎ Some test (i + 1) b Wanted q)
        (Some test i b Wanted) (k + n * k) m (each_loop test body (suc n) i) (omega arith)
        (λ q. Some-cons i b q (omega arith))
        (Adds->>= max (λ q. (test i ≡ true) × Wanted i q) (Some test (i + 1) b Wanted) k (n * k)
          (λ ps. if test i then body i ps else ok ps) (each_loop test body n (i + 1))
          (round-Adds i (omega arith))
          (each_loop-Adds n (i + 1) b (n * k) (omega arith) (omega arith) (omega arith)))
