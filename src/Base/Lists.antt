-- ===== src/Base/Lists.antt =====
-- Arrays as lists with native indices, under the library's names.

use Prim.Native.Nat.{ℕ, zero, suc, ◌+◌, ◌≤◌, ◌<◌}
use mathlib.Core.List.{List, [], ◌∷◌, ◌++◌, append-nil, append_assoc}
use mathlib.Core.Logic.{◌≢◌}
use mathlib.Core.Option.{Option, none, some}
use mathlib.Core.Path.{◌≡◌, refl, sym, ap, subst}
use native.Mathlib.Omega.{arith}
use btkernel.Base.Tests.{◌==◌, if◌then◌else◌}

module _ {ℓ} {A : Type ℓ} where
  abbrev pub length : List A → ℕ
  length [] = 0
  length (x ∷ xs) = suc (length xs)

  abbrev pub get_elem? : List A → ℕ → Option A
  get_elem? [] i = none
  get_elem? (x ∷ xs) zero = some x
  get_elem? (x ∷ xs) (suc i) = get_elem? xs i

  -- The element, or the default past the end.
  abbrev pub get_or : List A → ℕ → A → A
  get_or [] i d = d
  get_or (x ∷ xs) zero d = x
  get_or (x ∷ xs) (suc i) d = get_or xs i d

  -- A write past the end changes nothing.
  abbrev pub set : List A → ℕ → A → List A
  set [] i v = []
  set (x ∷ xs) zero v = v ∷ xs
  set (x ∷ xs) (suc i) v = x ∷ set xs i v

  abbrev pub take : ℕ → List A → List A
  take zero xs = []
  take (suc n) [] = []
  take (suc n) (x ∷ xs) = x ∷ take n xs

  abbrev pub replicate : ℕ → A → List A
  replicate zero a = []
  replicate (suc n) a = a ∷ replicate n a

  -- Every element satisfies the predicate.
  abbrev pub All {κ} : (A → Type κ) → List A → Type κ
  All P [] = Unit
  All P (x ∷ xs) = P x × All P xs

  pub length-append : (xs ys : List A) → length (xs ++ ys) ≡ length xs + length ys
  length-append [] ys = omega arith
  length-append (x ∷ xs) ys = omega (arith, length-append xs ys)

  pub length-replicate : (n : ℕ) (a : A) → length (replicate n a) ≡ n
  length-replicate zero a = refl
  length-replicate (suc n) a = ap suc (length-replicate n a)

  pub length-set : (xs : List A) (i : ℕ) (v : A) → length (set xs i v) ≡ length xs
  length-set [] i v = refl
  length-set (x ∷ xs) zero v = refl
  length-set (x ∷ xs) (suc i) v = ap suc (length-set xs i v)

  pub get_or-set_self :
      (xs : List A) (i : ℕ) (v d : A) → i < length xs → get_or (set xs i v) i d ≡ v
  get_or-set_self [] i v d h = elim h [ ]
  get_or-set_self (x ∷ xs) zero v d h = refl
  get_or-set_self (x ∷ xs) (suc i) v d h = get_or-set_self xs i v d (omega arith)

  pub get_or-set_ne :
      (xs : List A) (i j : ℕ) (v d : A) → i ≢ j → get_or (set xs i v) j d ≡ get_or xs j d
  get_or-set_ne [] i j v d h = refl
  get_or-set_ne (x ∷ xs) zero zero v d h = absurd (h refl)
  get_or-set_ne (x ∷ xs) zero (suc j) v d h = refl
  get_or-set_ne (x ∷ xs) (suc i) zero v d h = refl
  get_or-set_ne (x ∷ xs) (suc i) (suc j) v d h = get_or-set_ne xs i j v d (λ e. h (ap suc e))

  pub get_elem?-set_self :
      (xs : List A) (i : ℕ) (v : A) → i < length xs → get_elem? (set xs i v) i ≡ some v
  get_elem?-set_self [] i v h = elim h [ ]
  get_elem?-set_self (x ∷ xs) zero v h = refl
  get_elem?-set_self (x ∷ xs) (suc i) v h = get_elem?-set_self xs i v (omega arith)

  pub get_elem?-set_ne :
      (xs : List A) (i j : ℕ) (v : A) → i ≢ j → get_elem? (set xs i v) j ≡ get_elem? xs j
  get_elem?-set_ne [] i j v h = refl
  get_elem?-set_ne (x ∷ xs) zero zero v h = absurd (h refl)
  get_elem?-set_ne (x ∷ xs) zero (suc j) v h = refl
  get_elem?-set_ne (x ∷ xs) (suc i) zero v h = refl
  get_elem?-set_ne (x ∷ xs) (suc i) (suc j) v h = get_elem?-set_ne xs i j v (λ e. h (ap suc e))

  -- An element that is read lies inside the array.
  pub lt-length_of_get_elem? :
      (xs : List A) (i : ℕ) {a : A} → get_elem? xs i ≡ some a → i < length xs
  lt-length_of_get_elem? [] i h = cc
  lt-length_of_get_elem? (x ∷ xs) zero h = omega arith
  lt-length_of_get_elem? (x ∷ xs) (suc i) h = omega (arith, lt-length_of_get_elem? xs i h)

  pub get_elem?_of_lt : (xs : List A) (i : ℕ) → i < length xs → (a : A) × (get_elem? xs i ≡ some a)
  get_elem?_of_lt [] i h = elim h [ ]
  get_elem?_of_lt (x ∷ xs) zero h = (x, refl)
  get_elem?_of_lt (x ∷ xs) (suc i) h = get_elem?_of_lt xs i (omega arith)

  pub All-append {κ} : (P : A → Type κ) (xs ys : List A) → All P xs → All P ys → All P (xs ++ ys)
  All-append P [] ys p q = q
  All-append P (x ∷ xs) ys p q = (p.0, All-append P xs ys p.1 q)

  pub All-mono {κ μ} :
      {P : A → Type κ} {Q : A → Type μ} (xs : List A) → ((a : A) → P a → Q a) → All P xs → All Q xs
  All-mono [] f p = tt
  All-mono (x ∷ xs) f p = (f x p.0, All-mono xs f p.1)

  pub All-get_elem? {κ} :
      (P : A → Type κ) (xs : List A) (i : ℕ) {a : A} → All P xs → get_elem? xs i ≡ some a → P a
  All-get_elem? P [] i p h = cc
  All-get_elem? P (x ∷ xs) zero p h = subst P (cc) p.0
  All-get_elem? P (x ∷ xs) (suc i) p h = All-get_elem? P xs i p.1 h

  pub All-set {κ} :
      (P : A → Type κ) (xs : List A) (i : ℕ) (v : A) → All P xs → P v → All P (set xs i v)
  All-set P [] i v p q = tt
  All-set P (x ∷ xs) zero v p q = (q, p.1)
  All-set P (x ∷ xs) (suc i) v p q = (p.0, All-set P xs i v p.1 q)

  pub All_of_get_elem? {κ} :
      (P : A → Type κ) (xs : List A) → ((i : ℕ) (a : A) → get_elem? xs i ≡ some a → P a) → All P xs
  All_of_get_elem? P [] h = tt
  All_of_get_elem? P (x ∷ xs) h = (h 0 x refl, All_of_get_elem? P xs (λ i. h (suc i)))

  pub get_elem?-append_length :
      (pre : List A) (x : A) (xs : List A) → get_elem? (pre ++ x ∷ xs) (length pre) ≡ some x
  get_elem?-append_length [] x xs = refl
  get_elem?-append_length (y ∷ pre) x xs = get_elem?-append_length pre x xs

  pub length-take_le : (n : ℕ) (xs : List A) → length (take n xs) ≤ n
  length-take_le zero xs = omega arith
  length-take_le (suc n) [] = omega arith
  length-take_le (suc n) (x ∷ xs) = omega (arith, length-take_le n xs)

  pub take_of_short : (n : ℕ) (xs : List A) → length xs ≤ n → take n xs ≡ xs
  take_of_short zero [] h = refl
  take_of_short zero (x ∷ xs) h = absurd (omega arith)
  take_of_short (suc n) [] h = refl
  take_of_short (suc n) (x ∷ xs) h = ap (λ r. x ∷ r) (take_of_short n xs (omega arith))

  pub take-length : (xs : List A) → take (length xs) xs ≡ xs
  take-length [] = refl
  take-length (x ∷ xs) = ap (λ r. x ∷ r) (take-length xs)

  -- A write in range, in the form that the tactics split.
  pub get_or-set :
      (xs : List A) (i j : ℕ) (v d : A)
      → i < length xs
      → get_or (set xs i v) j d ≡ (if j == i then v else get_or xs j d)
  get_or-set [] i j v d h = elim h [ ]
  get_or-set (x ∷ xs) zero zero v d h = refl
  get_or-set (x ∷ xs) zero (suc j) v d h = ground arith
  get_or-set (x ∷ xs) (suc i) zero v d h = ground arith
  get_or-set (x ∷ xs) (suc i) (suc j) v d h = ground (arith, get_or-set xs i j v d)

module _ {ℓ} {A : Type ℓ} where
  pub get_elem?-append_left :
      (xs ys : List A) (i : ℕ) {a : A} → get_elem? xs i ≡ some a → get_elem? (xs ++ ys) i ≡ some a
  get_elem?-append_left [] ys i h = absurd (cc)
  get_elem?-append_left (x ∷ xs) ys zero h = h
  get_elem?-append_left (x ∷ xs) ys (suc i) h = get_elem?-append_left xs ys i h

  pub get_elem?-append_right :
      (xs ys : List A) (i : ℕ) {a : A}
      → get_elem? ys i ≡ some a
      → get_elem? (xs ++ ys) (length xs + i) ≡ some a
  get_elem?-append_right [] ys i h = let e : 0 + i ≡ i = omega arith in rw e h
  get_elem?-append_right (x ∷ xs) ys i h =
      let e : suc (length xs) + i ≡ suc (length xs + i) = omega arith in
      rw e (get_elem?-append_right xs ys i h)

  -- The second list starts with the first one.
  abbrev pub Extends : List A → List A → Type ℓ
  Extends xs ys = (rest : List A) × (ys ≡ xs ++ rest)

  pub Extends-refl : (xs : List A) → Extends xs xs
  Extends-refl xs = ([], sym (append-nil xs))

  pub Extends-trans : (xs ys zs : List A) → Extends xs ys → Extends ys zs → Extends xs zs
  Extends-trans xs ys zs (r, e) (s, g) = (r ++ s, rw (g, e) (append_assoc xs r s))

  pub Extends-get_elem? :
      (xs ys : List A) (i : ℕ) {a : A}
      → Extends xs ys
      → get_elem? xs i ≡ some a
      → get_elem? ys i ≡ some a
  Extends-get_elem? xs ys i (r, e) h = rw e (get_elem?-append_left xs r i h)
