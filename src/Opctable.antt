-- ===== src/Opctable.antt =====
-- The table of opcodes by disassembly entry and size flag, btmod/bt/peep/opctable.c and
-- peep/opctable.h. An array is a function, and what reads or writes it tests its bound; a name is
-- the list of its bytes; an `int` flag is its bit pattern. The `-1` of `opctable_find` is `none`.
pub mod Flags
pub mod Insert
pub mod Entries
use btkernel.Base.{
  ℕ, zero, suc, ◌+◌, Bool, true, false, ◌&&◌, Option, none, some, List, [], ◌∷◌, ltb, leb, ◌==◌,
  if◌then◌else◌, take, Run, assert, fault, ok, stop, ◌>>=◌, ◌>>◌,
}

abbrev pub max_disas_entries : ℕ
max_disas_entries = 4192

abbrev pub max_sizeflags : ℕ
max_sizeflags = 4

abbrev pub max_opcs : ℕ
max_opcs = 2048

abbrev pub opc_inval : ℕ
opc_inval = 0

abbrev pub Name : Type 0
Name = List ℕ

-- `btmod_opctable`
pub record Opctable : Type 0 where
  pub dpnum : ℕ
  pub sizeflagtable_size : ℕ
  pub nametable_size : ℕ
  pub nametable : ℕ → Name
  pub sizeflagtable : ℕ → ℕ
  pub opctable : ℕ → ℕ → ℕ

-- An assignment to one element of an array.
abbrev pub update {ℓ} : {A : Type ℓ} → (ℕ → A) → ℕ → A → ℕ → A
update f i v j = if j == i then v else f j

-- `!strcmp(a, b)`
abbrev pub str_eq : Name → Name → Bool
str_eq [] [] = true
str_eq [] (y ∷ ys) = false
str_eq (x ∷ xs) [] = false
str_eq (x ∷ xs) (y ∷ ys) = (x == y) && str_eq xs ys

-- `snprintf` into the ten bytes of a row of the name table.
abbrev pub stored : Name → Name
stored name = take 9 name

abbrev pub bad : Name
bad = b'(' ∷ b'b' ∷ b'a' ∷ b'd' ∷ b')' ∷ []

-- `opctable_init`
unfoldable pub opctable_init : Opctable → Opctable
opctable_init t = record {
  dpnum = 0;
  sizeflagtable_size = 0;
  nametable_size = 1;
  nametable = update t.nametable 0 bad;
  sizeflagtable = t.sizeflagtable;
  opctable = λ dp s.
      if ltb dp max_disas_entries && ltb s max_sizeflags then opc_inval else t.opctable dp s;
}

-- The loop of `find_sizeflag_num` with `n` rounds left; `size` where no flag matches.
pub flag_loop : (ℕ → ℕ) → ℕ → ℕ → ℕ → ℕ → ℕ
flag_loop flags sizeflag size zero i = size
flag_loop flags sizeflag size (suc n) i = elim (flags i == sizeflag) [
  | true ↦ i
  | false ↦ flag_loop flags sizeflag size n (i + 1)
]

pub find_sizeflag_num : Opctable → ℕ → Run ℕ
find_sizeflag_num t sizeflag = do
  assert (leb t.sizeflagtable_size max_sizeflags)
  let size = t.sizeflagtable_size
  num ← ok (flag_loop t.sizeflagtable sizeflag size size 0)
  assert (ltb num max_sizeflags)
  ok num

-- The loop of `opctable_insert` with `n` rounds left: the last name that matches.
pub name_loop : (ℕ → Name) → Name → ℕ → ℕ → ℕ → ℕ
name_loop names name zero i opc = opc
name_loop names name (suc n) i opc =
    name_loop names name n (i + 1) (if str_eq (names i) name then i else opc)

pub opctable_insert : Opctable → Name → ℕ → ℕ → Run Opctable
opctable_insert t name dp_num sizeflag = do
  let opc = name_loop t.nametable name t.nametable_size 0 t.nametable_size
  assert (ltb opc max_opcs)
  num ← find_sizeflag_num t sizeflag
  assert (ltb num max_sizeflags)
  assert (ltb dp_num max_disas_entries)
  let new_name = opc == t.nametable_size
  let new_flag = num == t.sizeflagtable_size
  ok (record {
    dpnum = t.dpnum;
    sizeflagtable_size = if new_flag then t.sizeflagtable_size + 1 else t.sizeflagtable_size;
    nametable_size = if new_name then t.nametable_size + 1 else t.nametable_size;
    nametable = if new_name then update t.nametable opc (stored name) else t.nametable;
    sizeflagtable = if new_flag then update t.sizeflagtable num sizeflag else t.sizeflagtable;
    opctable = λ dp s. if (dp == dp_num) && (s == num) then opc else t.opctable dp s;
  })

pub opctable_find : Opctable → ℕ → ℕ → Run (Option ℕ)
opctable_find t dp_num sizeflag = do
  num ← find_sizeflag_num t sizeflag
  assert (ltb num t.sizeflagtable_size)
  opc ← if ltb dp_num max_disas_entries then ok (t.opctable dp_num num) else stop fault
  ok (if opc == opc_inval then none else some opc)

unfoldable pub opctable_name : Opctable → ℕ → Run Name
opctable_name t opc = if ltb opc max_opcs then ok (t.nametable opc) else stop fault
