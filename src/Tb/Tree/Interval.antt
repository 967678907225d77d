-- ===== src/Tb/Tree/Interval.antt =====
-- The comparison `tc_less` of btmod/bt/peep/tb.c on disjoint translations and on a single address.
use btkernel.Base.{
  ℕ, ◌+◌, ◌≤◌, ◌<◌, ◌≡◌, refl, sym, ap, ◌∙◌, subst, ◌≢◌, ◌⊎◌, inl, inr, Bool, true, false, Option,
  none, some, List, [], ◌∷◌, ◌++◌, arith, leb, leb→le, Bool-cases, All,
}
use btkernel.Rbtree.Order.{IsOrder, Sorted}
use btkernel.Rbtree.Search.FirstEqual.{find_sorted}

-- The intervals lie apart, unless they are the same.
abbrev pub IsApart : (ℕ → ℕ) → (ℕ → ℕ) → ℕ → ℕ → Type 0
IsApart lo hi a b = (a ≡ b) ⊎ ((hi a ≤ lo b) ⊎ (hi b ≤ lo a))

pub leb→lt : (a b : ℕ) → leb a b ≡ false → b < a
leb→lt a b h = ground arith

pub lt→leb : (a b : ℕ) → b < a → leb a b ≡ false
lt→leb a b h = ground arith

pub le→leb : (a b : ℕ) → a ≤ b → leb a b ≡ true
le→leb a b h = ground arith

-- The intervals of the blocks alone.
module _ (lo hi : ℕ → ℕ) (Block : ℕ → Type 0)
    (apart : (a b : ℕ) → Block a → Block b → IsApart lo hi a b)
    (filled : (a : ℕ) → Block a → lo a < hi a) where
  meets_blocks : (a b c : ℕ) → Block a → Block b → lo b < hi a → lo c < hi b → lo c < hi a
  meets_blocks a b c p q h k = elim (apart a b p q) [
    | inl e ↦ let z = subst (λ v. lo c < hi v) (sym e) k in z
    | inr (inl l) ↦ omega arith
    | inr (inr l) ↦ let f = filled a p in omega arith
  ]

  pub blocks-IsOrder : IsOrder (λ a b. leb (hi a) (lo b)) Block
  blocks-IsOrder = record {
    asym = λ a b p q h.
        let k = leb→le (hi a) (lo b) h in
        let f = filled a p in let g = filled b q in lt→leb (hi b) (lo a) (omega arith);
    through = λ a b c p q r h k.
        lt→leb (hi a) (lo c)
          (meets_blocks a b c p q (leb→lt (hi a) (lo b) h) (leb→lt (hi b) (lo c) k));
  }

  -- A block that is none of a list of blocks is equal to none of them.
  pub find_sorted-absent :
      (x : ℕ) (xs : List ℕ)
      → Block x
      → All Block xs
      → All (λ y. x ≢ y) xs
      → find_sorted (λ a b. leb (hi a) (lo b)) x xs ≡ none
  find_sorted-absent x [] p ps new = refl
  find_sorted-absent x (a ∷ xs) p (q, ps) (n, new) = elim (Bool-cases (leb (hi a) (lo x))) [
    | inl e ↦ rw (find_sorted, e) (find_sorted-absent x xs p ps new)
    | inr e ↦
        let k : leb (hi x) (lo a) ≡ true = elim (apart x a p q) [
          | inl s ↦ absurd (n s)
          | inr (inl l) ↦ le→leb (hi x) (lo a) l
          | inr (inr l) ↦ let m = leb→lt (hi a) (lo x) e in absurd (omega arith)
        ] in
        rw (find_sorted, e, k)
  ]

module _ (lo hi : ℕ → ℕ) (Block : ℕ → Type 0) (key : ℕ) (unit : hi key ≡ lo key + 1)
    (apart : (a b : ℕ) → Block a → Block b → IsApart lo hi a b)
    (filled : (a : ℕ) → Block a → lo a < hi a) where
  abbrev pub before : ℕ → ℕ → Bool
  before a b = leb (hi a) (lo b)

  -- A block, or the single address.
  abbrev pub On : ℕ → Type 0
  On a = Block a ⊎ (a ≡ key)

  On-filled : (a : ℕ) → On a → lo a < hi a
  On-filled a (inl h) = filled a h
  On-filled a (inr e) = subst (λ v. lo v < hi v) (sym e) (let u = unit in omega arith)

  meets : (a b c : ℕ) → On a → On b → On c → lo b < hi a → lo c < hi b → lo c < hi a
  meets a b c p (inr e) r h k = let u = subst (λ v. hi v ≡ lo v + 1) (sym e) unit in omega arith
  meets a b c (inl p) (inl q) r h k = meets_blocks lo hi Block apart filled a b c p q h k
  meets a b c (inr e) (inl q) (inl r) h k = elim (apart b c q r) [
    | inl s ↦ let z = subst (λ v. lo v < hi a) s h in z
    | inr (inl l) ↦ omega arith
    | inr (inr l) ↦ let f = filled c r in omega arith
  ]
  meets a b c (inr e) (inl q) (inr s) h k =
      let f = On-filled a (inr e) in subst (λ v. lo v < hi a) (e ∙ sym s) f

  pub before-IsOrder : IsOrder before On
  before-IsOrder = record {
    asym = λ a b p q h.
        let k = leb→le (hi a) (lo b) h in
        let f = On-filled a p in let g = On-filled b q in lt→leb (hi b) (lo a) (omega arith);
    through = λ a b c p q r h k.
        lt→leb (hi a) (lo c) (meets a b c p q r (leb→lt (hi a) (lo b) h) (leb→lt (hi b) (lo c) k));
  }

  -- What a search for the address finds.
  abbrev pub Holding : List ℕ → Option ℕ → Type 0
  Holding xs none = All (λ b. (hi b ≤ lo key) ⊎ (lo key < lo b)) xs
  Holding xs (some f) =
      (pre : List ℕ) × (post : List ℕ) × (xs ≡ pre ++ f ∷ post) × (lo f ≤ lo key) × (lo key < hi f)

  Holding-cons :
      (a : ℕ) (xs : List ℕ) (o : Option ℕ) → hi a ≤ lo key → Holding xs o → Holding (a ∷ xs) o
  Holding-cons a xs none h holds = (inl h, holds)
  Holding-cons a xs (some f) h (pre, post, e, l, k) = (a ∷ pre, post, ap (λ w. a ∷ w) e, l, k)

  All-above :
      (a : ℕ) (xs : List ℕ)
      → Block a
      → All Block xs
      → lo key < lo a
      → All (λ b. before b a ≡ false) xs
      → All (λ b. (hi b ≤ lo key) ⊎ (lo key < lo b)) xs
  All-above a [] p ps h last = tt
  All-above a (b ∷ xs) p (q, ps) h (k, last) = (
    elim (apart a b p q) [
      | inl e ↦ inr (subst (λ v. lo key < lo v) e h)
      | inr (inl l) ↦ let f = filled a p in inr (omega arith)
      | inr (inr l) ↦ let g = leb→lt (hi b) (lo a) k in absurd (omega arith)
    ],
    All-above a xs p ps h last,
  )

  pub find_sorted-Holding :
      (xs : List ℕ) → All Block xs → Sorted before xs → Holding xs (find_sorted before key xs)
  find_sorted-Holding [] ps s = tt
  find_sorted-Holding (a ∷ xs) (p, ps) (last, s) = elim (Bool-cases (before a key)) [
    | inl e ↦
        rw (find_sorted, e)
          (Holding-cons a xs (find_sorted before key xs) (leb→le (hi a) (lo key) e)
            (find_sorted-Holding xs ps s))
    | inr e ↦ elim (Bool-cases (before key a)) [
      | inl k ↦
          rw (find_sorted, e, k)
            (let above : lo key < lo a =
                let l = leb→le (hi key) (lo a) k in let u = unit in omega arith in
              (inr above, All-above a xs p ps above last))
      | inr k ↦
          rw (find_sorted, e, k)
            (let l = leb→lt (hi key) (lo a) k in
              let u = unit in ([], xs, refl, omega arith, leb→lt (hi a) (lo key) e))
    ]
  ]
