-- ===== src/Base/Bits.antt =====
-- A word with its low half free takes another value there by `|`.
use Prim.Native.Nat.{
  ℕ, zero, suc, ◌+◌, ◌*◌, ◌/◌, ◌%◌, ◌^◌, ◌≤◌, ◌<◌, max, bit_or, digits, bit_or-bitwise,
}
use mathlib.Core.Path.{◌≡◌, refl, ap, ◌∙◌}
use native.Mathlib.Nat.{pow-suc, mul-one, le_refl}
use native.Mathlib.Omega.{arith}

abbrev or_digits : ℕ → ℕ → ℕ → ℕ
or_digits = digits (λ b. b) max

-- Any two counts of digits that reach the first number agree.
or_digits_enough : (n m a b : ℕ) → a ≤ n → a ≤ m → or_digits n a b ≡ or_digits m a b
or_digits_enough zero zero a b p q = refl
or_digits_enough (suc n) zero zero b p q = refl
or_digits_enough (suc n) zero (suc a) b p q = absurd (omega arith)
or_digits_enough zero (suc m) zero b p q = refl
or_digits_enough zero (suc m) (suc a) b p q = absurd (omega arith)
or_digits_enough (suc n) (suc m) zero b p q = refl
or_digits_enough (suc n) (suc m) (suc a) b p q =
    ap (λ t. t * 2 + max (suc a % 2) (b % 2))
      (or_digits_enough n m (suc a / 2) (b / 2) (omega arith) (omega arith))

zero-bit_or : (b : ℕ) → bit_or 0 b ≡ b
zero-bit_or b = bit_or-bitwise 0 b

bit_or-digit : (a b : ℕ) → bit_or a b ≡ bit_or (a / 2) (b / 2) * 2 + max (a % 2) (b % 2)
bit_or-digit zero b = omega (arith, zero-bit_or b, zero-bit_or (b / 2))
bit_or-digit (suc a) b = omega (
  arith,
  bit_or-bitwise (suc a) b,
  bit_or-bitwise (suc a / 2) (b / 2),
  or_digits_enough a (suc a / 2) (suc a / 2) (b / 2) (omega arith) (omega arith),
)

bit_or-zero : (n a : ℕ) → a ≤ n → bit_or a 0 ≡ a
bit_or-zero zero a h = let e : a ≡ 0 = omega arith in rw e
bit_or-zero (suc n) zero h = zero-bit_or 0
bit_or-zero (suc n) (suc a) h =
    omega (arith, bit_or-digit (suc a) 0, bit_or-zero n (suc a / 2) (omega arith))

-- `a << k | b` is a sum where `b` has at most `k` digits.
pub bit_or-shift : (k a b : ℕ) → b < 2 ^ k → bit_or (a * 2 ^ k) b ≡ a * 2 ^ k + b
bit_or-shift zero a b h =
    let small : b ≡ 0 = omega arith in
    let whole : a * 2 ^ 0 ≡ a = mul-one a in
    rw (small, whole) (bit_or-zero a a (le_refl a) ∙ omega arith)
bit_or-shift (suc k) a b h =
    let p : 2 ^ suc k ≡ 2 ^ k * 2 = pow-suc 2 k in
    let double : a * 2 ^ suc k ≡ 2 * (a * 2 ^ k) = ap (λ (t : ℕ). a * t) p ∙ omega arith in
    let rest = bit_or-shift k a (b / 2) (omega arith) in
    let half : a * 2 ^ suc k / 2 ≡ a * 2 ^ k = omega arith in
    let even : a * 2 ^ suc k % 2 ≡ 0 = omega arith in
    let step = bit_or-digit (a * 2 ^ suc k) b in rw (half, even) at step ∙ rw rest (omega arith)
