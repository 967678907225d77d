-- ===== src/Peep/Temps/Chooses.antt =====
-- `find_temporary_regs` of btmod/bt/peep/peep.c returns on proper assignments, and it fails only when
-- no register is left for a temporary.
use btkernel.Base.{
  ℕ, zero, suc, ◌+◌, ◌≤◌, ◌≡◌, refl, ap, ◌∙◌, ◌⊎◌, inl, inr, Bool, true, false, none, some, List,
  [], ◌∷◌, arith, ltb, lt→ltb, Bool-cases, length, get_elem?, All, ◌>>=◌, ok,
}
use btkernel.Insntypes.{Tag, tag_const, tag_eq, num_regs, max_temporaries}
use btkernel.NomatchPair.{NomatchPair}
use btkernel.Regset.{update}
use btkernel.Assignments.{Assignments}
use btkernel.Assignments.Tags.{Satisfies, val_satisfies_tag-not}
use btkernel.Assignments.Indices.{IsProper, val_satisfies_tag-returns, coherent-scalar}
use btkernel.Peep.Temps.{is_free, pick, temporaries_from, find_temporary_regs}
use btkernel.Peep.Temps.Free.{Clash, IsFree, pick-IsFree}
use btkernel.Peep.Temps.Returns.{violates-Tells}
use btkernel.Peep.Temps.Distinct.{IsDistinct, AreFree, find_temporary_regs-AreFree}

abbrev pub IsVariable : Tag → Type 0
IsVariable tag = tag_eq tag tag_const ≡ false

module _ (A : Assignments) (pairs : List NomatchPair) where
  -- The register does not satisfy the tag, is taken, or breaks a pair.
  abbrev pub IsUnusable : ℕ → Tag → (ℕ → Bool) → ℕ → Type 0
  IsUnusable j tag marks r =
      (¬ Satisfies r tag)
      ⊎ (marks r ≡ true)
      ⊎ ((n : ℕ) × (p : NomatchPair) × (get_elem? pairs n ≡ some p) × Clash A j r p)

  -- None of the registers below the number is usable.
  abbrev pub NoneBelow : ℕ → Tag → (ℕ → Bool) → ℕ → Type 0
  NoneBelow j tag marks zero = Unit
  NoneBelow j tag marks (suc r) = IsUnusable j tag marks r × NoneBelow j tag marks r

  -- There are registers for the first temporaries, and then none is usable for the next one.
  abbrev pub IsStuck : ℕ → List Tag → (ℕ → Bool) → Type 0
  IsStuck j [] marks = ⊥
  IsStuck j (tag ∷ tags) marks =
      NoneBelow j tag marks num_regs
      ⊎ ((t : ℕ) × (IsFree A pairs j t tag)
          × (marks t ≡ false)
          × IsStuck (j + 1) tags (update marks t true))

  module _ (proper : All IsProper A) where
    is_free-returns :
        (j : ℕ) (tag : Tag) (marks : ℕ → Bool) (r : ℕ)
        → IsVariable tag
        → (is_free j tag A pairs marks r ≡ ok true)
          ⊎ (is_free j tag A pairs marks r ≡ ok false) × IsUnusable j tag marks r
    unfolding is_free
    is_free-returns j tag marks r var =
        let (sat, e) = val_satisfies_tag-returns r tag var in
        let run = coherent-scalar tag r var ∙ e in
        elim (Bool-cases sat) [
          | inr bad ↦
              inr (rw (is_free, run, ◌>>=◌, bad), inl (val_satisfies_tag-not r tag (e ∙ ap ok bad)))
          | inl good ↦ elim (Bool-cases (marks r)) [
            | inl taken ↦ inr (rw (is_free, run, ◌>>=◌, good, taken), inr (inl taken))
            | inr unused ↦ elim (violates-Tells A j r pairs proper) [
              | inl clear ↦ inl (rw (is_free, run, ◌>>=◌, good, unused, clear))
              | inr (clash, why) ↦
                  inr (rw (is_free, run, ◌>>=◌, good, unused, clash), inr (inr why))
            ]
          ]
        ]

    pick-returns :
        (j : ℕ) (tag : Tag) (marks : ℕ → Bool) (n : ℕ)
        → IsVariable tag
        → ((t : ℕ) × (pick j tag A pairs marks n ≡ ok (some t)))
          ⊎ (pick j tag A pairs marks n ≡ ok none) × NoneBelow j tag marks n
    unfolding pick
    pick-returns j tag marks zero var = inr (refl, tt)
    pick-returns j tag marks (suc r) var = elim (is_free-returns j tag marks r var) [
      | inl free ↦ inl (r, rw (free, ◌>>=◌))
      | inr (used, why) ↦ elim (pick-returns j tag marks r var) [
        | inl (t, e) ↦ inl (t, rw (used, ◌>>=◌, e))
        | inr (e, rest) ↦ inr (rw (used, ◌>>=◌, e), (why, rest))
      ]
    ]

    temporaries_from-returns :
        (j : ℕ) (tags : List Tag) (marks : ℕ → Bool)
        → All IsVariable tags
        → j + length tags ≤ max_temporaries
        → ((ts : List ℕ) × (temporaries_from j tags A pairs marks ≡ ok (some ts)))
          ⊎ (temporaries_from j tags A pairs marks ≡ ok none) × IsStuck j tags marks
    unfolding temporaries_from
    temporaries_from-returns j [] marks vars room = inl ([], refl)
    temporaries_from-returns j (tag ∷ tags) marks (var, vars) room =
        elim (pick-returns j tag marks num_regs var) [
          | inr (e, no_register) ↦ inr (rw (temporaries_from, e, ◌>>=◌), inl no_register)
          | inl (t, e) ↦
              let (free, unused) = pick-IsFree A pairs j tag marks num_regs t (omega arith) e in
              let low = lt→ltb _ _ free.register in
              let j_low : ltb j max_temporaries ≡ true = lt→ltb _ _ (omega arith) in
              elim (temporaries_from-returns (j + 1) tags (update marks t true) vars
                (omega arith)) [
                  | inl (ts, rest) ↦ inl (t ∷ ts, rw (temporaries_from, e, ◌>>=◌, j_low, low, rest))
                  | inr (rest, stuck) ↦ inr (
                    rw (temporaries_from, e, ◌>>=◌, j_low, low, rest),
                    inr (t, free, unused, stuck),
                  )
                ]
        ]

-- For at most eight temporaries with tags of variables, and assignments whose register variables have
-- registers of the machine, `find_temporary_regs` returns. Either it chooses registers, all
-- different, as many as there are tags, where each is one of the eight registers, satisfies the tag
-- of its temporary and breaks none of the pairs that may not be matched to one register; or it
-- answers false, and after free registers for some first temporaries every register fails the next
-- one's tag, is taken by them, or breaks a pair.
pub find_temporary_regs-Chooses :
    (tags : List Tag) (A : Assignments) (pairs : List NomatchPair)
    → All IsProper A
    → All IsVariable tags
    → length tags ≤ max_temporaries
    → ((ts : List ℕ) × (find_temporary_regs tags A pairs ≡ ok (some ts))
        × AreFree A pairs 0 tags ts
        × IsDistinct ts)
      ⊎ (find_temporary_regs tags A pairs ≡ ok none) × IsStuck A pairs 0 tags (λ r. false)
unfolding find_temporary_regs
find_temporary_regs-Chooses tags A pairs proper vars room =
    elim (temporaries_from-returns A pairs proper 0 tags (λ r. false) vars (omega arith)) [
      | inl (ts, e) ↦
          let (free, distinct) = find_temporary_regs-AreFree tags A pairs ts e in
          inl (ts, e, free, distinct)
      | inr stuck ↦ inr stuck
    ]
