-- ===== src/Lib.antt =====
-- A verification library for the binary translator btkernel, the kernel module under btmod/bt of the
-- repository. The translator copies guest code block by block into a cache of translations; the
-- parts that are modelled keep the memory, the blocks and the tables that it works with.
--
-- - Malloc (btmod/bt/mem/malloc.c, mem/malloc.h): three pools over sixty chunks. `malloc_from_pool`,
--   `addr_to_pool` and `init_pool_range` stand in Malloc, `btalloc` and `btfree` in Malloc/Pages,
--   `malloc_init` and `malloc_uninit` in Malloc/Init. Malloc/Take is about one request, Malloc/Trace
--   about sequences of them, Malloc/Classify about the pool of an address.
-- - Tb (btmod/bt/peep/tb.c, peep/tb.h): one translation block, its memory from the pools, and the
--   maps between source and translation addresses. Tb/Tree is the search tree of the blocks by the
--   addresses of their translations, over Rbtree.
-- - Jumptable1 (btmod/bt/peep/jumptable1.c): the per-cpu table that finds a target by its address.
-- - Opctable (btmod/bt/peep/opctable.c): the opcode numbers of the disassembler's names.
-- - NomatchPair (btmod/bt/peep/nomatch_pair.c) with the tags of Insntypes (peep/insntypes.h): the
--   pairs of registers that a peephole rule must keep apart.
-- - Regset (btmod/bt/peep/regset.c): sets of registers, and the pairs that two of them call for.
-- - Operand (peep/insntypes.h, and the operations of btmod/bt/peep/insn.c on one operand) and
--   Assignments (btmod/bt/peep/assignments.c): operands, and the constants that are assigned to the
--   variables of a rule.
-- - Strings (`strstart` of btmod/bt/lib/utils.c) and Insn (btmod/bt/peep/insn.c): what kind of
--   instruction one is, by its name; its operands of a kind; the registers that it uses and defines;
--   Insn/Rename puts variables for constants.
-- - Rbtree (btmod/bt/lib/rbtree.c, lib/rbtree.h): the red-black tree over a store of elements, with
--   the sentinel at the address 0. The rotations and the insertion stand in Rbtree, the searches and
--   the iteration in Rbtree/Search. Rbtree/Shape says which tree the fields hold and Rbtree/Fix what
--   an insertion makes of it, Rbtree/Sequence what the tree promises: a sorted sequence.
-- - Peep (btmod/bt/peep/peep.c, peep/peeptab.h): the matching of instructions against the templates
--   of the rules; Peep/Temps chooses the temporary registers, and Peep/Translate finds the rule.
--   Peep/Matched says what it means that instructions match, and Peep/Built what the match of each
--   operand adds to the assignment.
-- - Base: arrays as lists, the ways a run of the C code ends, and lemmas that the parts share.
-- - Tests: concrete states on which the theorems are applied.
--
-- Machine words are natural numbers; a 32-bit sum is taken modulo 2 ^ 32 (`add32`). An `int` that may
-- be negative or too large, as the size of `btalloc` and `btfree` and the register numbers that
-- `nomatch_pair_add` stores in `char` fields, is its bit pattern. A function that
-- can fail an assertion or leave an array returns a `Run`: `panic` for a failed ASSERT,
-- NOT_REACHED and BUG (the kernel build prints a message for the first two and goes on; what it does
-- then is not modelled), `fault` for an access that C leaves undefined, `unfinished` for a loop that
-- has used up its rounds. Loops are structural recursion on the rounds left, as many as the code
-- makes; the fuel of the loop of `btalloc` and `btfree` is the number of bytes, more than the pages
-- that it visits. Each loop of Rbtree has a number of rounds as an argument; one more than the number
-- of elements is enough for all of them.
--
-- `__vmalloc`, `vfree` and `__alloc_percpu` are the kernel's: a parameter with the laws that the
-- code relies on (KernelLaws), or answers that a theorem takes for any value. Locks, printing, the
-- contents of pages, the scanning and printing of text and the disassembler are not modelled, and
-- neither are the list and the hash table of btmod/bt/lib (copies of another project's; the bucket
-- of the hash table is an argument), the deletion from the red-black tree, the code that the table
-- generator writes and the kernel glue.
mod Base
pub mod Malloc
pub mod Tb
pub mod Jumptable1
pub mod Opctable
pub mod Insntypes
pub mod NomatchPair
pub mod Regset
pub mod Operand
pub mod Assignments
pub mod Strings
pub mod Insn
pub mod Rbtree
pub mod Peep
pub mod Tests
