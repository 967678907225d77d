-- ===== src/Opctable/Entries.antt =====
-- A table that `opctable_init` has set up over any memory, and any number of `opctable_insert`,
-- btmod/bt/peep/opctable.c.
use btkernel.Base.{ℕ, ◌<◌, ◌≡◌, refl, ◌∙◌, ◌≢◌, none, List, [], ◌∷◌, arith, All, Run, ◌>>=◌, ok}
use btkernel.Opctable.{Opctable, Name, opctable_init, opctable_insert, opctable_find}
use btkernel.Opctable.Flags.{IsFlag}
use btkernel.Opctable.Insert.{
  IsTable, HasRoom, with_entry, opctable_insert_lem, with_entry-IsTable, opctable_init-IsTable,
  find_at,
}

-- What an insertion is given.
pub record Entry : Type 0 where
  pub name : Name
  pub dp_num : ℕ
  pub sizeflag : ℕ

pub insert_all : Opctable → List Entry → Run Opctable
insert_all t [] = ok t
insert_all t (e ∷ es) = do t' ← opctable_insert t e.name e.dp_num e.sizeflag; insert_all t' es

-- There is room for each entry in the table that the entries before it leave.
abbrev pub HasRoomFor : Opctable → List Entry → Type 0
HasRoomFor t [] = Unit
HasRoomFor t (e ∷ es) =
    (num : ℕ) × HasRoom t e.dp_num e.sizeflag num
    × HasRoomFor (with_entry t e.name e.dp_num e.sizeflag num) es

-- The row of an entry of the disassembler is empty.
abbrev IsBlank : Opctable → ℕ → Type 0
IsBlank t dp = (s : ℕ) → s < 4 → t.opctable dp s ≡ 0

opctable_init-IsBlank : (t : Opctable) (dp : ℕ) → dp < 4192 → IsBlank (opctable_init t) dp
unfolding opctable_init
opctable_init-IsBlank t dp low s lt = ground arith

with_entry-IsBlank :
    (t : Opctable) (name : Name) (dp_num sizeflag num dp : ℕ)
    → dp_num ≢ dp
    → IsBlank t dp
    → IsBlank (with_entry t name dp_num sizeflag num) dp
with_entry-IsBlank t name dp_num sizeflag num dp ne blank s lt = ground (arith, blank s lt)

insert_all-IsTable :
    (t : Opctable) (es : List Entry)
    → IsTable t
    → HasRoomFor t es
    → (t' : Opctable) × (insert_all t es ≡ ok t')
      × IsTable t'
      × ((dp : ℕ) → IsBlank t dp → All (λ e. e.dp_num ≢ dp) es → IsBlank t' dp)
unfolding insert_all
insert_all-IsTable t [] is room = (t, refl, is, λ dp blank absent. blank)
insert_all-IsTable t (e ∷ es) is (num, room, later) =
    let (t', run, is', keep) =
      insert_all-IsTable (with_entry t e.name e.dp_num e.sizeflag num) es
        (with_entry-IsTable t e.name e.dp_num e.sizeflag num is room) later in
    (
      t',
      rw (insert_all, opctable_insert_lem t e.name e.dp_num e.sizeflag num is room, ◌>>=◌) run,
      is',
      λ dp blank absent.
          keep dp (with_entry-IsBlank t e.name e.dp_num e.sizeflag num dp absent.0 blank) absent.1,
    )

-- Whatever the memory held before, where there is room for each name, flag and entry,
-- `opctable_init` and any insertions after it return, and leave a sound table: "(bad)" stands first,
-- there are at most four flags, and every name fits its row. Under a flag that is known then,
-- `opctable_find` gives -1 for every entry of the disassembler for which nothing was inserted.
pub insert_all-opctable_init :
    (t : Opctable) (es : List Entry)
    → HasRoomFor (opctable_init t) es
    → (t' : Opctable) × (insert_all (opctable_init t) es ≡ ok t')
      × IsTable t'
      × ((dp sizeflag num : ℕ)
          → dp < 4192
          → All (λ e. e.dp_num ≢ dp) es
          → IsFlag t'.sizeflagtable t'.sizeflagtable_size sizeflag num
          → num < t'.sizeflagtable_size
          → opctable_find t' dp sizeflag ≡ ok none)
insert_all-opctable_init t es room =
    let (t', run, is, keep) =
      insert_all-IsTable (opctable_init t) es (opctable_init-IsTable t) room in
    (
      t',
      run,
      is,
      λ dp sizeflag num low absent flag known.
          let empty : t'.opctable dp num ≡ 0 =
            keep dp (opctable_init-IsBlank t dp low) absent num (omega (arith, is.flags_fit)) in
          find_at t' dp sizeflag num is.flags_fit flag known low ∙ rw empty,
    )
