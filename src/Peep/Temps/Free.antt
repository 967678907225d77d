-- ===== src/Peep/Temps/Free.antt =====
-- The temporary registers that `find_temporary_regs` of btmod/bt/peep/peep.c chooses do not clash
-- with each other, with their tags or with the assigned registers.
use btkernel.Base.{
  ℕ, zero, suc, ◌+◌, ◌≤◌, ◌<◌, ◌≡◌, refl, sym, ap, ◌∙◌, subst, ◌≢◌, ◌⊎◌, inl, inr, Bool, true,
  false, not, ◌&&◌, some, List, [], ◌∷◌, arith, ltb, ◌==◌, if◌then◌else◌, lt→ltb, ==_iff,
  Bool-cases, and_parts, get_elem?, All, Run, ◌>>=◌, read, read-some, assert-ok, bind-ok,
  ok-injective, ok,
}
use mathlib.Core.Bool.{false≢true}
use btkernel.Insntypes.{Tag, tag_const, tag_eq, num_regs, temp_reg0, tag_var}
use btkernel.NomatchPair.{NomatchPair}
use btkernel.Operand.{op_reg, scalar}
use btkernel.Operand.Equal.{tag_eq→eq}
use btkernel.Assignments.{
  Assignment, Assignments, is_const, is_reg, assignment_is_coherent, assignments_get_regs,
}
use btkernel.Assignments.Tags.{Satisfies, val_satisfies_tag-Satisfies}
use btkernel.Assignments.Indices.{assignments_get_regs-get_elem?, coherent-val_satisfies_tag}
use btkernel.Peep.Temps.{
  other_of, taken_loop, pair_violates, temp_assignment_violates_nomatch_pairs, is_free, pick,
}

-- An entry of the array gives the register `t` to the variable `v`.
abbrev pub Taken : Assignments → ℕ → ℕ → Type 0
Taken A v t =
    (i : ℕ) × (a : Assignment) × (get_elem? A i ≡ some a)
    × (a.var.type ≡ op_reg)
    × (a.var.val ≡ v)
    × (a.val.val ≡ t)

-- One register of the pair, first or second, is the temporary `j`, and the other one is `v` with the
-- tag `w`.
abbrev pub Other : ℕ → NomatchPair → ℕ → Tag → Type 0
Other j p v w =
    ((p.reg2 ≡ temp_reg0 + j) × (p.tag2 ≡ tag_var) × (p.reg1 ≡ v) × (p.tag1 ≡ w))
    ⊎ ((p.reg1 ≡ temp_reg0 + j) × (p.tag1 ≡ tag_var) × (p.reg2 ≡ v) × (p.tag2 ≡ w))

-- The machine's register `t` stands for the register `v` with the tag `w`.
abbrev pub Means : Assignments → ℕ → ℕ → Tag → Type 0
Means A t v w = ((w ≡ tag_const) × (v ≡ t)) ⊎ ((w ≢ tag_const) × (v < temp_reg0) × Taken A v t)

-- The register `t` for temporary `j` breaks the pair: the other register of the pair is the constant
-- `t`, or it is a register variable to which `t` is assigned.
abbrev pub Clash : Assignments → ℕ → ℕ → NomatchPair → Type 0
Clash A j t p = (v : ℕ) × (w : Tag) × Other j p v w × Means A t v w

-- What the code takes for the other register is one.
pub other_of-Other :
    (j : ℕ) (p : NomatchPair) (v : ℕ) (w : Tag) → other_of j p ≡ some (v, w) → Other j p v w
other_of-Other j p v w h = elim (Bool-cases ((p.reg2 == temp_reg0 + j) && tag_eq p.tag2 tag_var)) [
  | inl second ↦
      let (reg, tag) = and_parts (p.reg2 == temp_reg0 + j) _ second in
      let e = rw second at h in inl ((==_iff _ _).0 reg, tag_eq→eq _ _ tag, cc, cc)
  | inr not_second ↦ elim (Bool-cases ((p.reg1 == temp_reg0 + j) && tag_eq p.tag1 tag_var)) [
    | inl first ↦
        let (reg, tag) = and_parts (p.reg1 == temp_reg0 + j) _ first in
        let e = rw (not_second, first) at h in inr ((==_iff _ _).0 reg, tag_eq→eq _ _ tag, cc, cc)
    | inr not_first ↦ absurd (cc (rw (not_second, not_first) at h))
  ]
]

-- A register that a machine register stands for is not a temporary, so the code finds it.
Other-other_of :
    (A : Assignments) (j t : ℕ) (p : NomatchPair) (v : ℕ) (w : Tag)
    → Other j p v w
    → Means A t v w
    → other_of j p ≡ some (v, w)
Other-other_of A j t p v w (inl (reg, tag, e, f)) means =
    let hit : (p.reg2 == temp_reg0 + j) && tag_eq p.tag2 tag_var ≡ true =
      rw tag (rw ((==_iff _ _).1 reg) refl) in
    rw hit (cc)
Other-other_of A j t p v w (inr (reg, tag, e, f)) means =
    let hit : (p.reg1 == temp_reg0 + j) && tag_eq p.tag1 tag_var ≡ true =
      rw tag (rw ((==_iff _ _).1 reg) refl) in
    elim (Bool-cases ((p.reg2 == temp_reg0 + j) && tag_eq p.tag2 tag_var)) [
      | inr not_second ↦ rw (not_second, hit) (cc)
      | inl second ↦
          let (reg', tag') = and_parts (p.reg2 == temp_reg0 + j) _ second in
          let high : v ≡ temp_reg0 + j = sym e ∙ (==_iff _ _).0 reg' in
          let var : w ≡ tag_var = sym f ∙ tag_eq→eq _ _ tag' in
          absurd (elim means [
            | inl (const, _) ↦ false≢true (ap (λ u. tag_eq u tag_const) (sym var ∙ const))
            | inr (_, low, _) ↦ omega arith
          ])
    ]

and_of : (a b : Bool) → a && b ≡ false → a ≡ true → b ≡ false
and_of true b h e = h
and_of false b h e = absurd (cc)

==_of : (a b : ℕ) → a ≡ b → a == b ≡ true
==_of a b e = (==_iff a b).1 e

taken_loop-false :
    (A : Assignments) (v t : ℕ) (indices : List ℕ) (n i : ℕ) (a : Assignment)
    → taken_loop A v t indices ≡ ok false
    → get_elem? indices n ≡ some i
    → get_elem? A i ≡ some a
    → a.var.val ≡ v
    → a.val.val ≢ t
unfolding taken_loop
taken_loop-false A v t [] n i a h at found var val = absurd (cc)
taken_loop-false A v t (r ∷ indices) n i a h at found var val =
    let (b, e, h₁) = bind-ok (read A r) _ h in
    let (_, h₂) = assert-ok (is_reg b.var) _ h₁ in
    let (_, h₃) = assert-ok (is_reg b.val) _ h₂ in
    let (_, h₄) = assert-ok (not (is_const b.var)) _ h₃ in
    let (_, h₅) = assert-ok (is_const b.val) _ h₄ in
    let (_, h₆) = assert-ok (ltb b.var.val temp_reg0) _ h₅ in
    elim (Bool-cases ((v == b.var.val) && (t == b.val.val))) [
      | inl taken ↦ absurd (cc (rw taken at h₆))
      | inr other ↦
          here b e other
            (λ m rest_at.
              taken_loop-false A v t indices m i a (rw other at h₆) rest_at found var val)
            n at
    ]
  where
    here :
        (b : Assignment)
        → read A r ≡ ok b
        → (v == b.var.val) && (t == b.val.val) ≡ false
        → ((m : ℕ) → get_elem? indices m ≡ some i → ⊥)
        → (n : ℕ) → get_elem? (r ∷ indices) n ≡ some i
        → ⊥
    here b e other rest zero at₀ =
        let same : r ≡ i = cc in
        let there : ◌≡◌ {A = Run Assignment} (ok b) (ok a) =
          sym e ∙ read-some A r (subst (λ u. get_elem? A u ≡ some a) (sym same) found) in
        let eq = ok-injective b a there in
        let differ =
          and_of (v == b.var.val) (t == b.val.val) other
            (==_of _ _ (sym var ∙ ap (λ u. u.var.val) (sym eq))) in
        false≢true (sym differ ∙ ==_of _ _ (sym val ∙ ap (λ u. u.val.val) (sym eq)))
    here b e other rest (suc m) at₀ = rest m at₀

pair_violates-Clash :
    (A : Assignments) (j t : ℕ) (p : NomatchPair)
    → pair_violates j t A p ≡ ok false
    → ¬ Clash A j t p
unfolding pair_violates
pair_violates-Clash A j t p h (v, w, other, clash) =
    let e = Other-other_of A j t p v w other clash in both (rw (pair_violates, e) at h) clash
  where
    both :
        (if tag_eq w tag_const
            then ok (v == t)
            else if ltb v temp_reg0
            then assignments_get_regs A >>= taken_loop A v t
            else ok false)
          ≡ ok false
        → Means A t v w
        → ⊥
    both h₁ (inl (const, same)) =
        let e₁ : tag_eq w tag_const ≡ true = rw const in
        false≢true (sym (ok-injective _ _ (rw e₁ at h₁)) ∙ ==_of _ _ same)
    both h₁ (inr (var, low, (i, a, found, reg, is_v, is_t))) =
        elim (Bool-cases (tag_eq w tag_const)) [
          | inl const ↦ var (tag_eq→eq _ _ const)
          | inr not_const ↦
              let (indices, e₂, h₂) =
                bind-ok (assignments_get_regs A) _ (rw (not_const, lt→ltb _ _ low) at h₁) in
              let (n, at) = assignments_get_regs-get_elem? A indices i a e₂ found reg in
              taken_loop-false A v t indices n i a h₂ at found is_v is_t
        ]

violates-Clash :
    (A : Assignments) (j t : ℕ) (pairs : List NomatchPair)
    → temp_assignment_violates_nomatch_pairs j t A pairs ≡ ok false
    → All (λ p. ¬ Clash A j t p) pairs
unfolding temp_assignment_violates_nomatch_pairs
violates-Clash A j t [] h = tt
violates-Clash A j t (p ∷ pairs) h =
    let (violates, e, h₁) = bind-ok (pair_violates j t A p) _ h in
    elim (Bool-cases violates) [
      | inl bad ↦ absurd (cc (rw bad at h₁))
      | inr good ↦
          (pair_violates-Clash A j t p (e ∙ ap ok good), violates-Clash A j t pairs (rw good at h₁))
    ]

-- What is asked of the register `t` for temporary `j`, whose tag is `tag`.
pub record IsFree (A : Assignments) (pairs : List NomatchPair) (j t : ℕ) (tag : Tag) : Type 0 where
  pub register : t < num_regs
  pub allowed : Satisfies t tag
  pub clear : All (λ p. ¬ Clash A j t p) pairs

module _ (A : Assignments) (pairs : List NomatchPair) where
  is_free-true :
      (j : ℕ) (tag : Tag) (temp_regs : ℕ → Bool) (t : ℕ)
      → t < num_regs
      → is_free j tag A pairs temp_regs t ≡ ok true
      → IsFree A pairs j t tag × (temp_regs t ≡ false)
  unfolding is_free
  is_free-true j tag temp_regs t low h =
      let (coherent, e, h₁) =
        bind-ok (assignment_is_coherent (scalar op_reg 4 0 tag) (scalar op_reg 4 t tag_const)) _
          h in
      elim (Bool-cases (coherent && not (temp_regs t))) [
        | inr no_use ↦ absurd (cc (rw no_use at h₁))
        | inl usable ↦
            let (violates, e₁, h₂) =
              bind-ok (temp_assignment_violates_nomatch_pairs j t A pairs) _ (rw usable at h₁) in
            let (is_coherent, unused) = and_not _ _ usable in
            let sat =
              coherent-val_satisfies_tag (scalar op_reg 4 0 tag) (scalar op_reg 4 t tag_const) refl
                (e ∙ ap ok is_coherent) in
            (
              record {
                register = low;
                allowed = val_satisfies_tag-Satisfies t tag sat;
                clear = violates-Clash A j t pairs (e₁ ∙ ap ok (not_true _ (ok-injective _ _ h₂)));
              },
              unused,
            )
      ]
    where
      and_not : (a b : Bool) → a && not b ≡ true → (a ≡ true) × (b ≡ false)
      and_not true false k = (refl, refl)
      and_not true true k = absurd (cc)
      and_not false b k = absurd (cc)

      not_true : (a : Bool) → not a ≡ true → a ≡ false
      not_true false k = refl
      not_true true k = absurd (cc)

  pub pick-IsFree :
      (j : ℕ) (tag : Tag) (temp_regs : ℕ → Bool) (n t : ℕ)
      → n ≤ num_regs
      → pick j tag A pairs temp_regs n ≡ ok (some t)
      → IsFree A pairs j t tag × (temp_regs t ≡ false)
  unfolding pick
  pick-IsFree j tag temp_regs zero t le h = absurd (cc)
  pick-IsFree j tag temp_regs (suc r) t le h =
      let (free, e, h₁) = bind-ok (is_free j tag A pairs temp_regs r) _ h in
      elim (Bool-cases free) [
        | inr used ↦ pick-IsFree j tag temp_regs r t (omega arith) (rw used at h₁)
        | inl found ↦
            let same : r ≡ t = cc (rw found at h₁) in
            subst (λ u. IsFree A pairs j u tag × (temp_regs u ≡ false)) same
              (is_free-true j tag temp_regs r (omega arith) (e ∙ ap ok found))
      ]
