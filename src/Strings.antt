-- ===== src/Strings.antt =====
-- Names as the lists of their bytes, without the byte 0 that ends them, and `strstart` of
-- btmod/bt/lib/utils.c. `str_eq` of Opctable is `!strcmp`.
use btkernel.Base.{
  ℕ, ◌≡◌, inl, inr, Bool, true, false, ◌||◌, Option, none, some, List, [], ◌∷◌, ◌==◌, if◌then◌else◌,
  ==_iff, Bool-cases, and_parts, get_or,
}
use Prim.Native.Char.{code}
use Prim.Native.String.{String}
use btkernel.Opctable.{Name, str_eq}

-- The bytes of a literal.
abbrev pub codes : String → Name
codes String.[] = []
codes (String.◌∷◌ c s) = code c ∷ codes s

-- `strstart`: what remains of `str` behind `val`, or `none` for 0.
abbrev pub strstart : Name → Name → Option Name
strstart str [] = some str
strstart [] (y ∷ val) = none
strstart (x ∷ str) (y ∷ val) = let rest = strstart str val in if x == y then rest else none

-- `strstart(str, val, NULL)`
abbrev pub starts : Name → Name → Bool
starts str val = elim (strstart str val) [ none ↦ false | some rest ↦ true ]

-- Chains of calls of `strstart` and of `strcmp` that are joined by `||`.
abbrev pub starts_one : Name → List Name → Bool
starts_one str [] = false
starts_one str (val ∷ vals) = starts str val || starts_one str vals

abbrev pub equals_one : Name → List Name → Bool
equals_one str [] = false
equals_one str (val ∷ vals) = str_eq str val || equals_one str vals

pub starts-head :
    (str : Name) (y : ℕ) (val : Name) → starts str (y ∷ val) ≡ true → get_or str 0 0 == y ≡ true
starts-head [] y val h = absurd (cc)
starts-head (x ∷ str) y val h = elim (Bool-cases (x == y)) [
  | inl e ↦ e
  | inr e ↦ absurd (cc (rw (starts, strstart, e) at h))
]

pub str_eq-starts :
    (a b : Name) (y : ℕ) → str_eq a b ≡ true → starts b (y ∷ []) ≡ true → get_or a 0 0 == y ≡ true
str_eq-starts [] [] y h s = absurd (cc)
str_eq-starts [] (z ∷ b) y h s = absurd (cc)
str_eq-starts (x ∷ a) [] y h s = absurd (cc)
str_eq-starts (x ∷ a) (z ∷ b) y h s =
    let same = (==_iff x z).0 (and_parts (x == z) (str_eq a b) h).0 in
    rw same (starts-head (z ∷ b) y [] s)
