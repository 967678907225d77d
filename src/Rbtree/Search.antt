-- ===== src/Rbtree/Search.antt =====
-- The searches and the iteration of btmod/bt/lib/rbtree.c. `NULL` is `none`, and is apart from `nil`.
pub mod Climb
pub mod Neighbours
pub mod FirstEqual
pub mod Found
pub mod Iterate
use btkernel.Base.{
  ℕ, zero, suc, min, Bool, true, false, not, ◌&&◌, ◌||◌, Option, none, some, ◌==◌, if◌then◌else◌,
  Run, assert, ◌>>=◌, ◌>>◌, unfinished, ok, stop,
}
use btkernel.Rbtree.{Rbtree, nil}

-- Each loop is given `rounds` rounds.
pub minimum : ℕ → Rbtree → ℕ → Run ℕ
minimum zero t root = stop unfinished
minimum (suc rounds) t root = elim (t.left root == nil) [
  | true ↦ ok root
  | false ↦ minimum rounds t (t.left root)
]

pub maximum : ℕ → Rbtree → ℕ → Run ℕ
maximum zero t root = stop unfinished
maximum (suc rounds) t root = elim (t.right root == nil) [
  | true ↦ ok root
  | false ↦ maximum rounds t (t.right root)
]

-- The loops of `successor` and `predecessor` go up while the node is a right, or a left, child.
pub climb : (ℕ → ℕ) → ℕ → Rbtree → ℕ → ℕ → Run ℕ
climb side zero t node parent = stop unfinished
climb side (suc rounds) t node parent = elim (not (parent == nil) && (node == side parent)) [
  | true ↦ climb side rounds t parent (t.parent parent)
  | false ↦ ok parent
]

pub successor : ℕ → Rbtree → ℕ → Run ℕ
successor rounds t node = elim (t.right node == nil) [
  | false ↦ minimum rounds t (t.right node)
  | true ↦ climb t.right rounds t node (t.parent node)
]

pub predecessor : ℕ → Rbtree → ℕ → Run ℕ
predecessor rounds t node = elim (t.left node == nil) [
  | false ↦ maximum rounds t (t.left node)
  | true ↦ climb t.left rounds t node (t.parent node)
]

abbrev pub or_null : ℕ → Option ℕ
or_null node = if node == nil then none else some node

pub rbtree_begin : ℕ → Rbtree → Run (Option ℕ)
rbtree_begin rounds t = minimum rounds t t.root >>= λ min. ok (or_null min)

pub rbtree_rbegin : ℕ → Rbtree → Run (Option ℕ)
rbtree_rbegin rounds t = maximum rounds t t.root >>= λ max. ok (or_null max)

pub rbtree_next : ℕ → Rbtree → ℕ → Run (Option ℕ)
rbtree_next rounds t elem = successor rounds t elem >>= λ next. ok (or_null next)

pub rbtree_prev : ℕ → Rbtree → ℕ → Run (Option ℕ)
rbtree_prev rounds t elem = predecessor rounds t elem >>= λ pred. ok (or_null pred)

abbrev pub rbtree_end : Rbtree → Option ℕ
rbtree_end t = none

-- `find_first_equal_entry`; the walks to the predecessors get the same number of rounds.
pub first_equal_loop : (ℕ → ℕ → Bool) → ℕ → ℕ → Rbtree → ℕ → ℕ → Run ℕ
first_equal_loop less walk zero t elem root = stop unfinished
first_equal_loop less walk (suc rounds) t elem root = do
  pred ← predecessor walk t root
  elim ((pred == nil) || less pred elem) [
    | true ↦ ok root
    | false ↦
        assert (not (less pred elem) && not (less elem pred))
        >> first_equal_loop less walk rounds t elem pred
  ]

pub find_first_equal_entry : (ℕ → ℕ → Bool) → ℕ → Rbtree → ℕ → ℕ → Run ℕ
find_first_equal_entry less rounds t elem root = do
  first ← first_equal_loop less rounds rounds t elem root
  assert (not (first == nil))
  assert (not (less elem first) && not (less first elem))
  ok first

-- The loops of `rbtree_find` and of `rbtree_find_first`, from the node `root`.
pub find_at : (ℕ → ℕ → Bool) → ℕ → ℕ → Rbtree → ℕ → ℕ → Run (Option ℕ)
find_at less walk zero t elem root = stop unfinished
find_at less walk (suc rounds) t elem root = elim (root == nil) [
  | true ↦ ok none
  | false ↦ elim (less root elem) [
    | true ↦ find_at less walk rounds t elem (t.right root)
    | false ↦ elim (less elem root) [
      | true ↦ find_at less walk rounds t elem (t.left root)
      | false ↦ find_first_equal_entry less walk t elem root >>= λ first. ok (some first)
    ]
  ]
]

pub rbtree_find : (ℕ → ℕ → Bool) → ℕ → Rbtree → ℕ → Run (Option ℕ)
rbtree_find less rounds t elem = find_at less rounds rounds t elem t.root

pub find_first_at : (ℕ → ℕ → Bool) → ℕ → ℕ → Rbtree → ℕ → ℕ → Option ℕ → Run (Option ℕ)
find_first_at less walk zero t elem root ret = stop unfinished
find_first_at less walk (suc rounds) t elem root ret = elim (root == nil) [
  | true ↦ elim ret [ none ↦ ok none | some last ↦ assert (less elem last) >> ok (some last) ]
  | false ↦ elim (less root elem) [
    | true ↦ find_first_at less walk rounds t elem (t.right root) ret
    | false ↦ elim (less elem root) [
      | true ↦ find_first_at less walk rounds t elem (t.left root) (some root)
      | false ↦ find_first_equal_entry less walk t elem root >>= λ first. ok (some first)
    ]
  ]
]

pub rbtree_find_first : (ℕ → ℕ → Bool) → ℕ → Rbtree → ℕ → Run (Option ℕ)
rbtree_find_first less rounds t elem = find_first_at less rounds rounds t elem t.root (rbtree_end t)
