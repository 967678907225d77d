-- ===== src/Opctable/Insert.antt =====
-- `opctable_insert`, `opctable_find` and `opctable_name` of btmod/bt/peep/opctable.c together.
use btkernel.Base.{
  ℕ, zero, suc, ◌+◌, ◌≤◌, ◌<◌, ◌≡◌, refl, sym, ap, ◌∙◌, subst, ◌≢◌, ◌⊎◌, inl, inr, true, false,
  ◌&&◌, none, some, [], ◌∷◌, arith, ℕ_discrete, ltb, ◌==◌, if◌then◌else◌, lt→ltb, ==_iff,
  Bool-cases, lt_or_eq, length, length-take_le, take_of_short, ◌>>=◌, ok,
}
use mathlib.Core.Bool.{false≢true}
use btkernel.Opctable.{
  Opctable, Name, str_eq, stored, bad, update, name_loop, opctable_init, opctable_insert,
  opctable_find, opctable_name,
}
use btkernel.Opctable.Flags.{IsFlag, find_sizeflag_num-IsFlag, IsFlag-update, IsFlag-new}

-- The table after `opctable_init` and any insertions.
pub record IsTable (t : Opctable) : Type 0 where
  pub flags_fit : t.sizeflagtable_size ≤ 4
  pub has_bad : 0 < t.nametable_size
  pub bad_first : t.nametable 0 ≡ bad
  pub names_fit : (i : ℕ) → i < t.nametable_size → length (t.nametable i) ≤ 9

-- Whatever the memory held, `opctable_init` leaves a sound table.
pub opctable_init-IsTable : (t : Opctable) → IsTable (opctable_init t)
unfolding opctable_init
opctable_init-IsTable t = record {
  flags_fit = omega arith;
  has_bad = omega arith;
  bad_first = ground arith;
  names_fit = λ i lt. let e : i ≡ 0 = omega arith in rw e (omega arith);
}

str_eq→eq : (a b : Name) → str_eq a b ≡ true → a ≡ b
str_eq→eq [] [] h = refl
str_eq→eq [] (y ∷ ys) h = absurd (cc)
str_eq→eq (x ∷ xs) [] h = absurd (cc)
str_eq→eq (x ∷ xs) (y ∷ ys) h = ground (arith, str_eq→eq xs ys)

-- The answer of the loop over the names: a match, or `size` where there is none.
abbrev Named : (ℕ → Name) → Name → ℕ → ℕ → ℕ → Type 0
Named names name size i opc =
    ((opc < size) × (str_eq (names opc) name ≡ true))
    ⊎ ((opc ≡ size) × ((j : ℕ) → j < i → str_eq (names j) name ≡ false))

name_loop-Named :
    (names : ℕ → Name) (name : Name) (size n i opc : ℕ)
    → i + n ≡ size
    → Named names name size i opc
    → Named names name size size (name_loop names name n i opc)
unfolding name_loop
name_loop-Named names name size zero i opc h so_far =
    let e : i ≡ size = omega arith in subst (λ k. Named names name size k opc) e so_far
name_loop-Named names name size (suc n) i opc h so_far = elim (Bool-cases (str_eq (names i) name)) [
  | inl hit ↦
      rw hit (name_loop-Named names name size n (i + 1) i (omega arith) (inl (omega arith, hit)))
  | inr miss ↦ rw miss (
      name_loop-Named names name size n (i + 1) opc (omega arith) (elim so_far [
        | inl found ↦ inl found
        | inr (e, none_yet) ↦ inr (
          e,
          λ j lt. elim (lt_or_eq j i (omega arith)) [
            | inl less ↦ none_yet j less
            | inr same ↦ rw same miss
          ],
        )
      ]))
]

-- The opcode that an insertion of `name` uses.
abbrev pub opc_of : Opctable → Name → ℕ
opc_of t name = name_loop t.nametable name t.nametable_size 0 t.nametable_size

opc_of-Named :
    (t : Opctable) (name : Name)
    → Named t.nametable name t.nametable_size t.nametable_size (opc_of t name)
opc_of-Named t name =
    name_loop-Named t.nametable name t.nametable_size t.nametable_size 0 t.nametable_size
      (omega arith) (inr (refl, λ j lt. absurd (omega arith)))

-- There is room for the name, the flag and the entry.
pub record HasRoom (t : Opctable) (dp_num sizeflag num : ℕ) : Type 0 where
  pub flag : IsFlag t.sizeflagtable t.sizeflagtable_size sizeflag num
  pub flag_fits : num < 4
  pub entry_fits : dp_num < 4192
  pub name_fits : t.nametable_size < 2048

-- The table that the insertion leaves.
abbrev pub with_entry : Opctable → Name → ℕ → ℕ → ℕ → Opctable
with_entry t name dp_num sizeflag num =
    let opc = opc_of t name in
    let new_name = opc == t.nametable_size in
    let new_flag = num == t.sizeflagtable_size in
    record {
      dpnum = t.dpnum;
      sizeflagtable_size = if new_flag then t.sizeflagtable_size + 1 else t.sizeflagtable_size;
      nametable_size = if new_name then t.nametable_size + 1 else t.nametable_size;
      nametable = if new_name then update t.nametable opc (stored name) else t.nametable;
      sizeflagtable = if new_flag then update t.sizeflagtable num sizeflag else t.sizeflagtable;
      opctable = λ dp s. if (dp == dp_num) && (s == num) then opc else t.opctable dp s;
    }

module _ (t : Opctable) (name : Name) (dp_num sizeflag num : ℕ) (is : IsTable t)
    (room : HasRoom t dp_num sizeflag num) where
  opc_bound : opc_of t name ≤ t.nametable_size
  opc_bound = elim (opc_of-Named t name) [ inl (lt, _) ↦ omega arith | inr (e, _) ↦ omega arith ]

  pub opctable_insert_lem :
      opctable_insert t name dp_num sizeflag ≡ ok (with_entry t name dp_num sizeflag num)
  unfolding opctable_insert
  opctable_insert_lem =
      let bound = opc_bound in
      let a : ltb (opc_of t name) 2048 ≡ true = lt→ltb _ _ (omega (arith, room.name_fits)) in
      let b : ltb num 4 ≡ true = lt→ltb _ _ room.flag_fits in
      let c : ltb dp_num 4192 ≡ true = lt→ltb _ _ room.entry_fits in
      rw (a, ◌>>=◌, find_sizeflag_num-IsFlag t sizeflag num is.flags_fit room.flag, b, b, c)

  pub with_entry-IsTable : IsTable (with_entry t name dp_num sizeflag num)
  with_entry-IsTable =
      let up = room.flag.upto in
      let short = length-take_le 9 name in
      let bound = opc_bound in
      record {
        flags_fit = ground (arith, room.flag_fits, is.flags_fit);
        has_bad = ground (arith, is.has_bad);
        bad_first = ground (arith, is.bad_first, is.has_bad);
        names_fit = λ i lt. ground (arith, is.names_fit i, short);
      }

  -- The flag stands at `num` in the new table, and the other flags where they stood.
  IsFlag-after :
      IsFlag
        (with_entry t name dp_num sizeflag num).sizeflagtable
        (with_entry t name dp_num sizeflag num).sizeflagtable_size
        sizeflag
        num
  IsFlag-after = elim (ℕ_discrete num t.sizeflagtable_size) [
    | yes e ↦
        rw ((==_iff num t.sizeflagtable_size).1 e)
          (IsFlag-new t.sizeflagtable t.sizeflagtable_size sizeflag num room.flag e)
    | no e ↦ let old : num == t.sizeflagtable_size ≡ false = ground arith in rw old room.flag
  ]

  other_after :
      (other num' : ℕ)
      → IsFlag t.sizeflagtable t.sizeflagtable_size other num'
      → num' < t.sizeflagtable_size
      → IsFlag
          (with_entry t name dp_num sizeflag num).sizeflagtable
          (with_entry t name dp_num sizeflag num).sizeflagtable_size
          other
          num'
  other_after other num' flag known = elim (ℕ_discrete num t.sizeflagtable_size) [
    | yes e ↦ rw ((==_iff num t.sizeflagtable_size).1 e) (
        IsFlag-update t.sizeflagtable t.sizeflagtable_size sizeflag num other num' room.flag flag
          known e)
    | no e ↦ let old : num == t.sizeflagtable_size ≡ false = ground arith in rw old flag
  ]

  opc_pos : str_eq bad name ≡ false → opc_of t name ≢ 0
  opc_pos fresh z = elim (opc_of-Named t name) [
    | inl (lt, e) ↦
        let same : str_eq (t.nametable 0) name ≡ true = rw (← z) e in
        absurd (false≢true (sym fresh ∙ rw is.bad_first at same))
    | inr (e, missed) ↦ omega (arith, is.has_bad)
  ]

  known_after : num < (with_entry t name dp_num sizeflag num).sizeflagtable_size
  known_after = let up = room.flag.upto in ground arith

  name_after : (with_entry t name dp_num sizeflag num).nametable (opc_of t name) ≡ stored name
  name_after = elim (opc_of-Named t name) [
    | inr (e, missed) ↦ ground (arith, e)
    | inl (lt, e) ↦
        let old : opc_of t name == t.nametable_size ≡ false = ground arith in
        let same = str_eq→eq (t.nametable (opc_of t name)) name e in
        let short : length name ≤ 9 = rw (← same) (is.names_fit (opc_of t name) lt) in
        rw old (same ∙ sym (take_of_short 9 name short))
  ]

  cell_after :
      (dp other num' : ℕ)
      → IsFlag t.sizeflagtable t.sizeflagtable_size other num'
      → num' < t.sizeflagtable_size
      → (dp ≢ dp_num) ⊎ (other ≢ sizeflag)
      → (with_entry t name dp_num sizeflag num).opctable dp num' ≡ t.opctable dp num'
  cell_after dp other num' flag known (inl h) = ground arith
  cell_after dp other num' flag known (inr h) =
      let apart : num' ≢ num = λ e. h (
        sym (flag.match known)
        ∙ ap t.sizeflagtable e
        ∙ room.flag.match (subst (λ k. k < t.sizeflagtable_size) e known)) in
      ground arith

-- `opctable_find` at a flag whose place is known.
pub find_at :
    (t : Opctable) (dp_num sizeflag num : ℕ)
    → t.sizeflagtable_size ≤ 4
    → IsFlag t.sizeflagtable t.sizeflagtable_size sizeflag num
    → num < t.sizeflagtable_size
    → dp_num < 4192
    → opctable_find t dp_num sizeflag
      ≡ ok (if t.opctable dp_num num == 0 then none else some (t.opctable dp_num num))
unfolding opctable_find
find_at t dp_num sizeflag num fit flag known entry =
    let b : ltb num 4 ≡ true = lt→ltb _ _ (omega arith) in
    rw (
      find_sizeflag_num-IsFlag t sizeflag num fit flag,
      b,
      ◌>>=◌,
      lt→ltb _ _ known,
      lt→ltb _ _ entry,
    )

-- In a sound table with room for the name, the flag and the entry, `opctable_insert` returns, for
-- any name but "(bad)". `opctable_find` then finds an opcode under the entry and the flag, and
-- `opctable_name` gives the name's first nine bytes for that opcode. What was found under another
-- entry, or under another flag, where the flag was known, is still found there, and the table is
-- sound again.
pub opctable_find-opctable_insert :
    (t : Opctable) (name : Name) (dp_num sizeflag num : ℕ)
    → IsTable t
    → HasRoom t dp_num sizeflag num
    → str_eq bad name ≡ false
    → (t' : Opctable) × (opc : ℕ) × (opctable_insert t name dp_num sizeflag ≡ ok t')
      × IsTable t'
      × (opctable_find t' dp_num sizeflag ≡ ok (some opc))
      × (opctable_name t' opc ≡ ok (stored name))
      × ((dp other num' : ℕ)
          → IsFlag t.sizeflagtable t.sizeflagtable_size other num'
          → num' < t.sizeflagtable_size
          → dp < 4192
          → (dp ≢ dp_num) ⊎ (other ≢ sizeflag)
          → opctable_find t' dp other ≡ opctable_find t dp other)
unfolding opctable_name
opctable_find-opctable_insert t name dp_num sizeflag num is room fresh =
    let t' = with_entry t name dp_num sizeflag num in
    let opc = opc_of t name in
    let is' = with_entry-IsTable t name dp_num sizeflag num is room in
    (
      t',
      opc,
      opctable_insert_lem t name dp_num sizeflag num is room,
      is',
      find_at t' dp_num sizeflag num is'.flags_fit (IsFlag-after t name dp_num sizeflag num is room)
            (known_after t name dp_num sizeflag num is room) room.entry_fits
          ∙ ground (arith, opc_pos t name dp_num sizeflag num is room fresh),
      rw (
        lt→ltb (opc_of t name) 2048
            (omega (arith, opc_bound t name dp_num sizeflag num is room, room.name_fits)),
        name_after t name dp_num sizeflag num is room,
      ),
      λ dp other num' flag known entry apart.
          find_at t' dp other num' is'.flags_fit
            (other_after t name dp_num sizeflag num is room other num' flag known)
            (ground (arith, known)) entry
          ∙ ap (λ (v : ℕ). ok (if v == 0 then none else some v))
              (cell_after t name dp_num sizeflag num is room dp other num' flag known apart)
          ∙ sym (find_at t dp other num' is.flags_fit flag known entry),
    )

-- In a sound table with room for the name, the flag and the entry, the insertion of a name of more
-- than nine bytes takes a fresh opcode and a further row of the name table, whether the same name
-- has been inserted before or not.
pub opctable_insert_long :
    (t : Opctable) (name : Name) (dp_num sizeflag num : ℕ)
    → IsTable t
    → HasRoom t dp_num sizeflag num
    → 9 < length name
    → (t' : Opctable) × (opctable_insert t name dp_num sizeflag ≡ ok t')
      × (t'.nametable_size ≡ t.nametable_size + 1)
      × (t'.opctable dp_num num ≡ t.nametable_size)
opctable_insert_long t name dp_num sizeflag num is room long = elim (opc_of-Named t name) [
  | inl (lt, e) ↦
      let same = str_eq→eq (t.nametable (opc_of t name)) name e in
      let short : length name ≤ 9 = rw (← same) (is.names_fit (opc_of t name) lt) in
      absurd (omega arith)
  | inr (e, missed) ↦ (
    with_entry t name dp_num sizeflag num,
    opctable_insert_lem t name dp_num sizeflag num is room,
    ground (arith, e),
    ground (arith, e),
  )
]
