-- ===== src/Insn/Usedef/Implicit.antt =====
-- The registers that the name of an instruction calls for, as a table, and `__insn_get_usedef` of
-- btmod/bt/peep/insn.c.
use btkernel.Base.{
  ℕ, ◌≡◌, refl, inl, inr, Bool, true, false, ◌&&◌, ◌||◌, List, [], ◌∷◌, ◌++◌, arith, ◌==◌,
  if◌then◌else◌, Bool-cases,
}
use btkernel.Opctable.{Name}
use btkernel.Strings.{codes, starts, strstart}
use btkernel.Insn.Usedef.{implicit_regs}

-- The name begins with these bytes.
abbrev pub begins : Name → Name → Bool
begins opc [] = true
begins [] (y ∷ val) = false
begins (x ∷ opc) (y ∷ val) = (x == y) && begins opc val

abbrev begins_one : Name → List Name → Bool
begins_one opc [] = false
begins_one opc (val ∷ vals) = begins opc val || begins_one opc vals

-- The registers of the first row with a beginning of the name.
abbrev pub first_row : Name → List (List Name × List ℕ) → List ℕ
first_row opc [] = []
first_row opc ((vals, regs) ∷ rows) = if begins_one opc vals then regs else first_row opc rows

-- The instructions that work on registers without naming them; `eax`, `ecx`, `edx`, `ebx` and `edi`
-- are 0, 1, 2, 3 and 7.
abbrev pub rows : List (List Name × List ℕ)
rows =
    (codes "idiv" ∷ codes "imul" ∷ codes "div" ∷ codes "mul" ∷ [], 2 ∷ 0 ∷ [])
    ∷ (codes "shrd" ∷ codes "shld" ∷ [], 1 ∷ [])
    ∷ (codes "sahf" ∷ [], 0 ∷ [])
    ∷ (codes "scas" ∷ [], 0 ∷ 7 ∷ [])
    ∷ (codes "cmpxchg8b" ∷ [], 0 ∷ 3 ∷ 1 ∷ 2 ∷ [])
    ∷ (codes "cmpxchg" ∷ [], 0 ∷ [])
    ∷ (codes "xsave" ∷ [], 0 ∷ 2 ∷ [])
    ∷ []

pub starts-begins : (opc val : Name) → starts opc val ≡ begins opc val
starts-begins opc [] = refl
starts-begins [] (y ∷ val) = refl
starts-begins (x ∷ opc) (y ∷ val) = elim (Bool-cases (x == y)) [
  | inl e ↦ rw (starts, strstart, e) (starts-begins opc val)
  | inr e ↦ rw (starts, strstart, e)
]

-- What the code does with the answers of its calls of `strstart`.
abbrev by_answers : Bool → Bool → Bool → Bool → Bool → Bool → Bool → Bool → List ℕ
by_answers div s sh sahf scas cmpxchg8b cmpxchg xsave =
    if div
    then 2 ∷ 0 ∷ []
    else if s
    then (if sh then 1 ∷ [] else [])
      ++ (if sahf then 0 ∷ [] else [])
      ++ (if scas then 0 ∷ 7 ∷ [] else [])
    else if cmpxchg8b
    then 0 ∷ 3 ∷ 1 ∷ 2 ∷ []
    else if cmpxchg
    then 0 ∷ []
    else if xsave
    then 0 ∷ 2 ∷ []
    else []

abbrev by_rows : Bool → Bool → Bool → Bool → Bool → Bool → Bool → List ℕ
by_rows div sh sahf scas cmpxchg8b cmpxchg xsave =
    if div
    then 2 ∷ 0 ∷ []
    else if sh
    then 1 ∷ []
    else if sahf || false
    then 0 ∷ []
    else if scas || false
    then 0 ∷ 7 ∷ []
    else if cmpxchg8b || false
    then 0 ∷ 3 ∷ 1 ∷ 2 ∷ []
    else if cmpxchg || false
    then 0 ∷ []
    else if xsave || false
    then 0 ∷ 2 ∷ []
    else []

answers_rows :
    (div s sh sahf scas cmpxchg8b cmpxchg xsave : Bool)
    → (sh ≡ true → s ≡ true)
    → (sahf ≡ true → (s ≡ true) × (sh ≡ false))
    → (scas ≡ true → (s ≡ true) × (sh ≡ false) × (sahf ≡ false))
    → (s ≡ true → (cmpxchg8b ≡ false) × (cmpxchg ≡ false) × (xsave ≡ false))
    → by_answers div s sh sahf scas cmpxchg8b cmpxchg xsave
      ≡ by_rows div sh sahf scas cmpxchg8b cmpxchg xsave
answers_rows true s sh sahf scas c8 x v h a c d = refl
answers_rows false true true sahf scas c8 x v h a c d = ground arith
answers_rows false true false true scas c8 x v h a c d = ground arith
answers_rows false true false false true c8 x v h a c d = refl
answers_rows false true false false false c8 x v h a c d = ground arith
answers_rows false false sh sahf scas c8 x v h a c d = ground arith

-- The two beginnings differ where both have a byte.
abbrev differ : Name → Name → Bool
differ [] other = false
differ (y ∷ val) [] = false
differ (y ∷ val) (z ∷ other) = if y == z then differ val other else true

-- A name with one beginning does not begin with one that differs from it.
only_one :
    (str val other : Name)
    → begins str val ≡ true
    → differ val other ≡ true
    → begins str other ≡ false
only_one str [] other h d = absurd (cc)
only_one str (y ∷ val) [] h d = absurd (cc)
only_one [] (y ∷ val) (z ∷ other) h d = refl
only_one (x ∷ str) (y ∷ val) (z ∷ other) h d = ground (arith, only_one str val other)

shorter :
    (str : Name) (y : ℕ) (val : Name) → begins str (y ∷ val) ≡ true → begins str (y ∷ []) ≡ true
shorter [] y val h = absurd (cc)
shorter (x ∷ str) y val h = ground arith

or_elim :
    (a b c : Bool)
    → (a ≡ true → c ≡ true)
    → (b ≡ true → c ≡ true)
    → a || (b || false) ≡ true
    → c ≡ true
or_elim true b c f g h = f refl
or_elim false true c f g h = g refl
or_elim false false c f g h = absurd (cc)

none_of : (a b : Bool) → a ≡ false → b ≡ false → a || (b || false) ≡ false
none_of a b e g = rw (e, g)

pub implicit_regs-first_row : (opc : Name) → implicit_regs opc ≡ first_row opc rows
unfolding implicit_regs
implicit_regs-first_row opc =
    rw
      (
        starts-begins opc (codes "idiv"),
        starts-begins opc (codes "imul"),
        starts-begins opc (codes "div"),
        starts-begins opc (codes "mul"),
        starts-begins opc (codes "s"),
        starts-begins opc (codes "shrd"),
        starts-begins opc (codes "shld"),
        starts-begins opc (codes "sahf"),
        starts-begins opc (codes "scas"),
        starts-begins opc (codes "cmpxchg8b"),
        starts-begins opc (codes "cmpxchg"),
        starts-begins opc (codes "xsave"),
      )
      (answers_rows _ _ _ _ _ _ _ _
        (or_elim (begins opc (codes "shrd")) (begins opc (codes "shld")) (begins opc (codes "s"))
          (shorter opc b's' (codes "hrd")) (shorter opc b's' (codes "hld")))
        (λ h. (
          shorter opc b's' (codes "ahf") h,
          none_of _ _ (only_one opc (codes "sahf") (codes "shrd") h refl)
              (only_one opc (codes "sahf") (codes "shld") h refl),
        ))
        (λ h. (
          shorter opc b's' (codes "cas") h,
          none_of _ _ (only_one opc (codes "scas") (codes "shrd") h refl)
              (only_one opc (codes "scas") (codes "shld") h refl),
          only_one opc (codes "scas") (codes "sahf") h refl,
        ))
        (λ h. (
          only_one opc (codes "s") (codes "cmpxchg8b") h refl,
          only_one opc (codes "s") (codes "cmpxchg") h refl,
          only_one opc (codes "s") (codes "xsave") h refl,
        )))
