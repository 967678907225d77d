-- ===== src/NomatchPair/Cover.antt =====
-- `nomatch_pair_add` keeps a set of unordered pairs.
use btkernel.Base.{
  ℕ, ◌+◌, ◌%◌, ◌≤◌, ◌<◌, ◌≡◌, refl, sym, ◌∙◌, ◌⊎◌, inl, inr, Bool, true, false, ◌||◌, List, [], ◌∷◌,
  ◌++◌, arith, ltb, lt→ltb, Bool-cases, length, length-append, Run, panic, ok, stop,
}
use btkernel.Insntypes.{tag_num}
use btkernel.NomatchPair.{
  NomatchPair, same_pair, swapped_pair, covers, nomatch_pair_add, as_stored, as_char,
}

-- The two entries are the same two registers, in either order.
abbrev pub is_same : NomatchPair → NomatchPair → Bool
is_same e p = same_pair e p || swapped_pair e p

abbrev Matches : NomatchPair → NomatchPair → Type 0
Matches e p =
    (tag_num e.tag1 ≡ tag_num p.tag1)
    × (tag_num e.tag2 ≡ tag_num p.tag2)
    × (e.reg1 ≡ p.reg1)
    × (e.reg2 ≡ p.reg2)

abbrev swap : NomatchPair → NomatchPair
swap p = record { reg1 = p.reg2; tag1 = p.tag2; reg2 = p.reg1; tag2 = p.tag1 }

same_pair→Matches : (e p : NomatchPair) → same_pair e p ≡ true → Matches e p
unfolding same_pair
same_pair→Matches e p h = ground arith

Matches→same_pair : (e p : NomatchPair) → Matches e p → same_pair e p ≡ true
unfolding same_pair
Matches→same_pair e p (a, b, c, d) = ground arith

swapped_pair→Matches : (e p : NomatchPair) → swapped_pair e p ≡ true → Matches e (swap p)
unfolding swapped_pair
swapped_pair→Matches e p h = ground arith

Matches→swapped_pair : (e p : NomatchPair) → Matches e (swap p) → swapped_pair e p ≡ true
unfolding swapped_pair
Matches→swapped_pair e p (a, b, c, d) = ground arith

or_left : (a b : Bool) → a ≡ true → a || b ≡ true
or_left a b h = rw h

or_right : (a b : Bool) → b ≡ true → a || b ≡ true
or_right a b h = ground arith

is_same-cases : (e p : NomatchPair) → is_same e p ≡ true → Matches e p ⊎ Matches e (swap p)
is_same-cases e p h = elim (Bool-cases (same_pair e p)) [
  | inl s ↦ inl (same_pair→Matches e p s)
  | inr n ↦ inr (swapped_pair→Matches e p (rw n at h))
]

Matches→is_same : (e p : NomatchPair) → Matches e p ⊎ Matches e (swap p) → is_same e p ≡ true
Matches→is_same e p (inl t) = or_left _ _ (Matches→same_pair e p t)
Matches→is_same e p (inr t) = or_right _ _ (Matches→swapped_pair e p t)

is_same_trans : (e p q : NomatchPair) → is_same e p ≡ true → is_same p q ≡ true → is_same e q ≡ true
is_same_trans e p q h g = Matches→is_same e q (elim (is_same-cases e p h) [
  | inl (a, b, c, d) ↦ elim (is_same-cases p q g) [
    | inl (a', b', c', d') ↦ inl (a ∙ a', b ∙ b', c ∙ c', d ∙ d')
    | inr (a', b', c', d') ↦ inr (a ∙ a', b ∙ b', c ∙ c', d ∙ d')
  ]
  | inr (a, b, c, d) ↦ elim (is_same-cases p q g) [
    | inl (a', b', c', d') ↦ inr (a ∙ b', b ∙ a', c ∙ d', d ∙ c')
    | inr (a', b', c', d') ↦ inl (a ∙ b', b ∙ a', c ∙ d', d ∙ c')
  ]
])

pub is_same_refl : (p : NomatchPair) → is_same p p ≡ true
is_same_refl p = Matches→is_same p p (inl (refl, refl, refl, refl))

covers-cons :
    (e : NomatchPair) (pairs : List NomatchPair) (p : NomatchPair)
    → covers (e ∷ pairs) p ≡ is_same e p || covers pairs p
unfolding covers
covers-cons e pairs p = ground arith

covers-is_same :
    (pairs : List NomatchPair) (p q : NomatchPair)
    → covers pairs p ≡ true
    → is_same p q ≡ true
    → covers pairs q ≡ true
covers-is_same [] p q c h = unfold covers in (ground arith)
covers-is_same (e ∷ pairs) p q c h = rw covers-cons (elim (Bool-cases (is_same e p)) [
  | inl s ↦ or_left _ _ (is_same_trans e p q s h)
  | inr n ↦ or_right _ _ (covers-is_same pairs p q (rw (covers-cons e pairs p, n) at c) h)
])

or_assoc : (a b c : Bool) → a || (b || c) ≡ (a || b) || c
or_assoc true b c = refl
or_assoc false b c = refl

or_false : (a : Bool) → a || false ≡ a
or_false true = refl
or_false false = refl

covers-snoc :
    (pairs : List NomatchPair) (p q : NomatchPair)
    → covers (pairs ++ p ∷ []) q ≡ covers pairs q || is_same p q
unfolding covers
covers-snoc [] p q = ground arith
covers-snoc (e ∷ pairs) p q =
    rw (covers-cons e (pairs ++ p ∷ []) q, covers-cons e pairs q, covers-snoc pairs p q)
      (or_assoc (is_same e q) (covers pairs q) (is_same p q))

-- How an addition may end: in a list that has the pairs of the old one and the new pair, in either
-- order, with one entry more at most and within the maximum, or in a panic over a new pair.
abbrev pub Added : ℕ → List NomatchPair → NomatchPair → Run (List NomatchPair) → Type 0
Added max_nomatch_pairs pairs p r =
    ((pairs' : List NomatchPair) × (r ≡ ok pairs')
      × ((q : NomatchPair) → covers pairs' q ≡ covers pairs q || is_same p q)
      × (length pairs ≤ max_nomatch_pairs → length pairs' ≤ max_nomatch_pairs)
      × (length pairs' ≤ length pairs + 1))
    ⊎ (r ≡ stop panic) × (covers pairs p ≡ false) × (max_nomatch_pairs ≤ length pairs)

is_same-covers :
    (pairs : List NomatchPair) (p q : NomatchPair)
    → covers pairs p ≡ true
    → covers pairs q ≡ covers pairs q || is_same p q
is_same-covers pairs p q c = elim (Bool-cases (is_same p q)) [
  | inl s ↦ rw (covers-is_same pairs p q c s)
  | inr n ↦ rw n (sym (or_false (covers pairs q)))
]

-- A register number below 128 fits a `char`.
as_char_small : (n : ℕ) → n < 128 → as_char n ≡ n
unfolding as_char
as_char_small n h = let e : n % 256 ≡ n = omega arith in rw (e, lt→ltb n 128 h)

as_stored_small : (p : NomatchPair) → p.reg1 < 128 → p.reg2 < 128 → as_stored p ≡ p
as_stored_small p h g = λ i. record {
  reg1 = as_char_small p.reg1 h i;
  tag1 = p.tag1;
  reg2 = as_char_small p.reg2 g i;
  tag2 = p.tag2;
}

pub nomatch_pair_add-Added :
    (max_nomatch_pairs : ℕ) (pairs : List NomatchPair) (p : NomatchPair)
    → p.reg1 < 128
    → p.reg2 < 128
    → Added max_nomatch_pairs pairs p (nomatch_pair_add max_nomatch_pairs pairs p)
unfolding nomatch_pair_add
nomatch_pair_add-Added n pairs p low low' = elim (Bool-cases (covers pairs p)) [
  | inl c ↦ rw c (inl (pairs, refl, (λ q. is_same-covers pairs p q c), (λ h. h), omega arith))
  | inr new ↦ rw new (elim (Bool-cases (ltb (length pairs) n)) [
    | inl room ↦
        let wide : length (pairs ++ p ∷ []) ≡ length pairs + 1 = length-append pairs (p ∷ []) in
        rw (room, as_stored_small p low low')
          (inl (
            pairs ++ p ∷ [],
            refl,
            covers-snoc pairs p,
            λ h. ground (arith, wide, room),
            omega (arith, wide),
          ))
    | inr full ↦ rw full (inr (refl, refl, ground (arith, full)))
  ])
]
