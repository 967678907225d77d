-- ===== src/Tests/Opctable.antt =====
-- A table that `opctable_init` has just set up.
use btkernel.Base.{ℕ, ◌+◌, ◌<◌, ◌≡◌, refl, ◌≢◌, ◌⊎◌, none, some, List, [], ◌∷◌, arith, All, ok}
use btkernel.Opctable.{
  Opctable, Name, stored, opctable_init, opctable_insert, opctable_find, opctable_name,
}
use btkernel.Opctable.Flags.{IsFlag}
use btkernel.Opctable.Entries.{Entry, insert_all, insert_all-opctable_init}
use btkernel.Opctable.Insert.{
  IsTable, HasRoom, opctable_init-IsTable, opctable_find-opctable_insert, opctable_insert_long,
}

abbrev unset : Opctable
unset = record {
  dpnum = 0;
  sizeflagtable_size = 0;
  nametable_size = 0;
  nametable = λ i. [];
  sizeflagtable = λ i. 0;
  opctable = λ dp s. 0;
}

abbrev table : Opctable
table = opctable_init unset

table-IsFlag : IsFlag table.sizeflagtable table.sizeflagtable_size 5 0
unfolding opctable_init
table-IsFlag = record {
  upto = omega arith;
  match = λ lt. absurd (omega arith);
  first = λ j lt. absurd (omega arith);
}

table-HasRoom : HasRoom table 17 5 0
unfolding opctable_init
table-HasRoom = record {
  flag = table-IsFlag;
  flag_fits = omega arith;
  entry_fits = omega arith;
  name_fits = omega arith;
}

abbrev add : Name
add = b'a' ∷ b'd' ∷ b'd' ∷ []

opctable_find-opctable_insert_example :
    (t' : Opctable) × (opc : ℕ) × (opctable_insert table add 17 5 ≡ ok t')
    × IsTable t'
    × (opctable_find t' 17 5 ≡ ok (some opc))
    × (opctable_name t' opc ≡ ok (stored add))
    × ((dp other num' : ℕ)
        → IsFlag table.sizeflagtable table.sizeflagtable_size other num'
        → num' < table.sizeflagtable_size
        → dp < 4192
        → (dp ≢ 17) ⊎ (other ≢ 5)
        → opctable_find t' dp other ≡ opctable_find table dp other)
opctable_find-opctable_insert_example =
    opctable_find-opctable_insert table add 17 5 0 (opctable_init-IsTable unset) table-HasRoom refl

abbrev long_name : Name
long_name = b'p' ∷ b'h' ∷ b'm' ∷ b'i' ∷ b'n' ∷ b'p' ∷ b'o' ∷ b's' ∷ b'u' ∷ b'w' ∷ []

opctable_insert_long_example :
    (t' : Opctable) × (opctable_insert table long_name 17 5 ≡ ok t')
    × (t'.nametable_size ≡ table.nametable_size + 1)
    × (t'.opctable 17 0 ≡ table.nametable_size)
opctable_insert_long_example =
    opctable_insert_long table long_name 17 5 0 (opctable_init-IsTable unset) table-HasRoom
      (omega arith)

abbrev entries : List Entry
entries = record { name = add; dp_num = 17; sizeflag = 5 } ∷ []

-- Memory that holds an opcode for every entry.
abbrev full : Opctable
full = record unset { opctable = λ dp s. 9 }

full-HasRoom : HasRoom (opctable_init full) 17 5 0
unfolding opctable_init
full-HasRoom = record {
  flag = record {
    upto = omega arith;
    match = λ lt. absurd (omega arith);
    first = λ j lt. absurd (omega arith);
  };
  flag_fits = omega arith;
  entry_fits = omega arith;
  name_fits = omega arith;
}

insert_all-opctable_init_example :
    (t' : Opctable) × (insert_all (opctable_init full) entries ≡ ok t')
    × IsTable t'
    × ((dp sizeflag num : ℕ)
        → dp < 4192
        → All (λ e. e.dp_num ≢ dp) entries
        → IsFlag t'.sizeflagtable t'.sizeflagtable_size sizeflag num
        → num < t'.sizeflagtable_size
        → opctable_find t' dp sizeflag ≡ ok none)
insert_all-opctable_init_example = insert_all-opctable_init full entries (0, full-HasRoom, tt)
