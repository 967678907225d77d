-- ===== src/Peep/Temps/Distinct.antt =====
-- The choice of all temporary registers, `find_temporary_regs` of btmod/bt/peep/peep.c.
use btkernel.Base.{
  ℕ, ◌+◌, ◌≡◌, sym, ◌∙◌, subst, ◌≢◌, inl, inr, Bool, true, false, Option, none, some, List, [], ◌∷◌,
  arith, ltb, ◌==◌, ==_iff, Bool-cases, All, All-mono, Run, assert, assert-ok, bind-ok, ok, ◌>>=◌,
  ◌>>◌,
}
use mathlib.Core.Bool.{false≢true}
use btkernel.Insntypes.{Tag, num_regs, max_temporaries}
use btkernel.NomatchPair.{NomatchPair}
use btkernel.Regset.{update}
use btkernel.Assignments.{Assignments}
use btkernel.Peep.Temps.{pick, temporaries_from, find_temporary_regs}
use btkernel.Peep.Temps.Free.{IsFree, pick-IsFree}

abbrev pub IsDistinct : List ℕ → Type 0
IsDistinct [] = Unit
IsDistinct (t ∷ ts) = All (λ u. t ≢ u) ts × IsDistinct ts

-- Each temporary from number `j` on has a register that is free for it.
abbrev pub AreFree : Assignments → List NomatchPair → ℕ → List Tag → List ℕ → Type 0
AreFree A pairs j [] [] = Unit
AreFree A pairs j [] (t ∷ ts) = ⊥
AreFree A pairs j (tag ∷ tags) [] = ⊥
AreFree A pairs j (tag ∷ tags) (t ∷ ts) = IsFree A pairs j t tag × AreFree A pairs (j + 1) tags ts

update-false : (f : ℕ → Bool) (t u : ℕ) → update f t true u ≡ false → (t ≢ u) × (f u ≡ false)
update-false f t u h = elim (Bool-cases (u == t)) [
  | inl same ↦ absurd (cc (rw same at h))
  | inr other ↦ (λ e. false≢true (sym other ∙ (==_iff u t).1 (sym e)), rw other at h)
]

module _ (A : Assignments) (pairs : List NomatchPair) where
  temporaries_from-AreFree :
      (j : ℕ) (tags : List Tag) (temp_regs : ℕ → Bool) (ts : List ℕ)
      → temporaries_from j tags A pairs temp_regs ≡ ok (some ts)
      → AreFree A pairs j tags ts × IsDistinct ts × All (λ t. temp_regs t ≡ false) ts
  unfolding temporaries_from
  temporaries_from-AreFree j [] temp_regs [] h = (tt, tt, tt)
  temporaries_from-AreFree j [] temp_regs (t ∷ ts) h = absurd (cc)
  temporaries_from-AreFree j (tag ∷ tags) temp_regs ts h =
      let (found, e, h₁) = bind-ok (pick j tag A pairs temp_regs num_regs) _ h in
      next found e h₁ (temporaries_from-AreFree (j + 1) tags)
    where
      last :
          (r : ℕ)
          → pick j tag A pairs temp_regs num_regs ≡ ok (some r)
          → (rest : Option (List ℕ))
          → temporaries_from (j + 1) tags A pairs (update temp_regs r true) ≡ ok rest
          → ◌≡◌ {A = Run (Option (List ℕ))}
              (ok (elim rest [ none ↦ none | some rs ↦ some (r ∷ rs) ]))
              (ok (some ts))
          → ((marks : ℕ → Bool) (rs : List ℕ)
              → temporaries_from (j + 1) tags A pairs marks ≡ ok (some rs)
              → AreFree A pairs (j + 1) tags rs × IsDistinct rs × All (λ t. marks t ≡ false) rs)
          → AreFree A pairs j (tag ∷ tags) ts × IsDistinct ts × All (λ t. temp_regs t ≡ false) ts
      last r e none e₁ h₄ later = absurd (cc)
      last r e (some rs) e₁ h₄ later =
          let (free, unused) = pick-IsFree A pairs j tag temp_regs num_regs r (omega arith) e in
          let (frees, distinct, marks) = later (update temp_regs r true) rs e₁ in
          let same : r ∷ rs ≡ ts = cc in
          subst
            (λ us.
              AreFree A pairs j (tag ∷ tags) us × IsDistinct us × All (λ t. temp_regs t ≡ false) us)
            same
            (
              (free, frees),
              (All-mono rs (λ u m. (update-false temp_regs r u m).0) marks, distinct),
              (unused, All-mono rs (λ u m. (update-false temp_regs r u m).1) marks),
            )

      next :
          (found : Option ℕ)
          → pick j tag A pairs temp_regs num_regs ≡ ok found
          → (elim found [
            | none ↦ ok none
            | some r ↦ do
              assert (ltb j max_temporaries)
              assert (ltb r num_regs)
              rest ← temporaries_from (j + 1) tags A pairs (update temp_regs r true)
              ok (elim rest [ none ↦ none | some rs ↦ some (r ∷ rs) ])
          ])
            ≡ ok (some ts)
          → ((marks : ℕ → Bool) (rs : List ℕ)
              → temporaries_from (j + 1) tags A pairs marks ≡ ok (some rs)
              → AreFree A pairs (j + 1) tags rs × IsDistinct rs × All (λ t. marks t ≡ false) rs)
          → AreFree A pairs j (tag ∷ tags) ts × IsDistinct ts × All (λ t. temp_regs t ≡ false) ts
      next none e h₁ later = absurd (cc)
      next (some r) e h₁ later =
          let (_, h₂) = assert-ok (ltb j max_temporaries) _ h₁ in
          let (_, h₃) = assert-ok (ltb r num_regs) _ h₂ in
          let (rest, e₁, h₄) =
            bind-ok (temporaries_from (j + 1) tags A pairs (update temp_regs r true)) _ h₃ in
          last r e rest e₁ h₄ later

-- The registers that are chosen for the temporaries of a rule are different ones, as many as there
-- are tags, and each is one of the eight registers, satisfies the tag of its temporary, and breaks
-- none of the pairs that may not be matched to one register: it is not the constant register of such
-- a pair, nor assigned to the register variable of one.
pub find_temporary_regs-AreFree :
    (tags : List Tag) (A : Assignments) (pairs : List NomatchPair) (ts : List ℕ)
    → find_temporary_regs tags A pairs ≡ ok (some ts)
    → AreFree A pairs 0 tags ts × IsDistinct ts
unfolding find_temporary_regs
find_temporary_regs-AreFree tags A pairs ts h =
    let (free, distinct, _) = temporaries_from-AreFree A pairs 0 tags (λ r. false) ts h in
    (free, distinct)
