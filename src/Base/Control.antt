-- ===== src/Base/Control.antt =====
-- How a run of the C code ends. `panic` stands for a failed ASSERT or a statement that is not to be
-- reached (the kernel build prints a message and goes on; what it does then is not modelled) and
-- for BUG; `fault` is an access outside an array, through a null pointer or to a variable without a
-- value, which C leaves undefined; `unfinished` is a loop that has used up the rounds that the
-- model gives it.
use Prim.Native.Nat.{ℕ, zero, suc, ◌<◌}
use mathlib.Core.Bool.{Bool, true, false}
use mathlib.Core.List.{List, [], ◌∷◌}
use mathlib.Core.Option.{none, some}
use mathlib.Core.Path.{◌≡◌, refl}
use native.Mathlib.Omega.{arith}
use btkernel.Base.Lists.{length, get_elem?, get_or, set}
use btkernel.Base.Tests.{ltb, lt→ltb, if◌then◌else◌}

pub data Stop : Type 0 where
  panic fault unfinished : Stop

pub data Run {ℓ} (A : Type ℓ) : Type ℓ where
  ok : A → Run A
  stop : Stop → Run A

-- `ASSERT(b)`
abbrev pub assert : Bool → Run (Unit {0})
assert true = ok tt
assert false = stop panic

infixl 5 ◌>>=◌
abbrev pub ◌>>=◌ {ℓ κ} : {A : Type ℓ} {B : Type κ} → Run A → (A → Run B) → Run B
stop how >>= next = stop how
ok a >>= next = next a

-- `xs[i]`
unfoldable pub read {ℓ} : {A : Type ℓ} → List A → ℕ → Run A
read xs i = elim (get_elem? xs i) [ none ↦ stop fault | some a ↦ ok a ]

-- `xs[i] = v`
unfoldable pub write {ℓ} : {A : Type ℓ} → List A → ℕ → A → Run (List A)
write xs i v = if ltb i (length xs) then ok (set xs i v) else stop fault

infixl 5 ◌>>◌
abbrev pub ◌>>◌ {ℓ} : {B : Type ℓ} → Run (Unit {0}) → Run B → Run B
first >> rest = first >>= λ u. rest

pub read-some {ℓ} :
    {A : Type ℓ} (xs : List A) (i : ℕ) {a : A} → get_elem? xs i ≡ some a → read xs i ≡ ok a
unfolding read
read-some xs i h = rw (h, read)

pub read-get_or {ℓ} :
    {A : Type ℓ} (xs : List A) (i : ℕ) (d : A) → i < length xs → read xs i ≡ ok (get_or xs i d)
unfolding read
read-get_or [] i d h = elim h [ ]
read-get_or (x ∷ xs) zero d h = refl
read-get_or (x ∷ xs) (suc i) d h = read-get_or xs i d (omega arith)

pub write-set {ℓ} :
    {A : Type ℓ} (xs : List A) (i : ℕ) (v : A) → i < length xs → write xs i v ≡ ok (set xs i v)
unfolding write
write-set xs i v h = rw (lt→ltb _ _ h)

-- What a run that returns has gone through.
pub assert-ok {ℓ} :
    {A : Type ℓ} (b : Bool) (rest : Run A) {a : A}
    → (assert b >> rest) ≡ ok a
    → (b ≡ true) × (rest ≡ ok a)
assert-ok true rest h = (refl, h)
assert-ok false rest h = cc

pub bind-ok {ℓ κ} :
    {A : Type ℓ} {B : Type κ} (run : Run A) (next : A → Run B) {b : B}
    → (run >>= next) ≡ ok b
    → (a : A) × (run ≡ ok a) × (next a ≡ ok b)
bind-ok (stop how) next h = cc
bind-ok (ok a) next h = (a, refl, h)

pub ok-injective {ℓ} : {A : Type ℓ} (a b : A) → ◌≡◌ {A = Run A} (ok a) (ok b) → a ≡ b
ok-injective a b h = cc
