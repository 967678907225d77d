-- ===== src/Rbtree.antt =====
-- The red-black tree of btmod/bt/lib/rbtree.c: pointers are addresses, and each field of
-- `struct rbtree_elem` is an array over them. The sentinel `nil` has the address 0. The comparison
-- `less` is a function of two addresses, since it reads what no operation of the tree writes.
pub mod Shape
pub mod Relink
pub mod Rotate
pub mod Fix
pub mod Place
pub mod Paint
pub mod Cases
pub mod Loop
pub mod Rounds
pub mod Counts
pub mod Insert
pub mod Balance
pub mod Order
pub mod Sequence
pub mod Search
pub mod Focus
use btkernel.Base.{
  ℕ, zero, suc, Bool, true, false, not, ◌&&◌, ◌==◌, if◌then◌else◌, Run, assert, ◌>>=◌, ◌>>◌,
  unfinished, ok, stop,
}

pub data Color : Type 0 where
  black red : Color

abbrev pub is_red : Color → Bool
is_red black = false
is_red red = true

abbrev pub nil : ℕ
nil = 0

-- `struct rbtree` with the fields of all elements
pub record Rbtree : Type 0 where
  pub root : ℕ
  pub left : ℕ → ℕ
  pub right : ℕ → ℕ
  pub parent : ℕ → ℕ
  pub color : ℕ → Color

-- An assignment to one field.
abbrev pub update {ℓ} : {A : Type ℓ} → (ℕ → A) → ℕ → A → ℕ → A
update f a v b = if b == a then v else f b

abbrev pub set_left : Rbtree → ℕ → ℕ → Rbtree
set_left t a v = record t { left = update t.left a v }

abbrev pub set_right : Rbtree → ℕ → ℕ → Rbtree
set_right t a v = record t { right = update t.right a v }

abbrev pub set_parent : Rbtree → ℕ → ℕ → Rbtree
set_parent t a v = record t { parent = update t.parent a v }

abbrev pub set_color : Rbtree → ℕ → Color → Rbtree
set_color t a v = record t { color = update t.color a v }

pub rbtree_init : Rbtree → Rbtree
rbtree_init t = record {
  root = nil;
  left = update t.left nil nil;
  right = update t.right nil nil;
  parent = update t.parent nil nil;
  color = update t.color nil black;
}

-- What both rotations do to the link from `parent`: `child` takes the place of `node`.
pub relink : Rbtree → ℕ → ℕ → ℕ → Run Rbtree
relink t parent node child =
    if parent == nil
    then (assert (t.root == node) >> ok (record t { root = child }))
    else if node == t.left parent
    then ok (set_left t parent child)
    else ok (set_right t parent child)

-- The write to the parent of the subtree that a rotation moves, if it is there.
pub adopt : Rbtree → ℕ → ℕ → Rbtree
adopt t inner node = if inner == nil then t else set_parent t inner node

pub leftrotate : Rbtree → ℕ → Run Rbtree
leftrotate t node = do
  let rchild = t.right node
  let parent = t.parent node
  let inner = t.left rchild
  let moved = set_parent (adopt (set_right t node inner) inner node) rchild parent
  linked ← relink moved parent node rchild
  ok (set_parent (set_left linked rchild node) node rchild)

pub rightrotate : Rbtree → ℕ → Run Rbtree
rightrotate t node = do
  let lchild = t.left node
  let parent = t.parent node
  let inner = t.right lchild
  let moved = set_parent (adopt (set_left t node inner) inner node) lchild parent
  linked ← relink moved parent node lchild
  ok (set_parent (set_right linked lchild node) node lchild)

-- The walk of `node_insert` to a free place, and the link there.
pub insert_at : (ℕ → ℕ → Bool) → ℕ → Rbtree → ℕ → ℕ → Run Rbtree
insert_at less zero t root new_node = stop unfinished
insert_at less (suc rounds) t root new_node =
    assert (not (root == nil)) >> elim (less root new_node) [
      | true ↦ elim (t.right root == nil) [
        | true ↦ ok (set_parent (set_right t root new_node) new_node root)
        | false ↦ insert_at less rounds t (t.right root) new_node
      ]
      | false ↦ elim (t.left root == nil) [
        | true ↦ ok (set_parent (set_left t root new_node) new_node root)
        | false ↦ insert_at less rounds t (t.left root) new_node
      ]
    ]

-- The recolouring of `rb_insert` under a red uncle.
abbrev pub recolor : Rbtree → ℕ → ℕ → Rbtree
recolor t parent uncle =
    set_color (set_color (set_color t parent black) uncle black) (t.parent parent) red

-- Under a black uncle: the rotation at the parent where the node is the inner child, with the new
-- `node` and `parent`, and then the rotation at the grandparent.
pub turn : (Rbtree → ℕ → Run Rbtree) → Bool → Rbtree → ℕ → ℕ → Run (Rbtree × ℕ × ℕ)
turn rotate false t node parent = ok (t, node, parent)
turn rotate true t node parent = rotate t parent >>= λ t'. ok (t', parent, t'.parent parent)

pub lift : (Rbtree → ℕ → Run Rbtree) → Rbtree → ℕ → ℕ → Run (Rbtree × ℕ)
lift rotate t node parent =
    let colored = set_color (set_color t parent black) (t.parent parent) red in
    rotate colored (colored.parent parent) >>= λ t'. ok (t', node)

-- The body of the loop of `rb_insert` where the parent is a left child, and where it is a right
-- child: the tree and `node` for the next round.
pub left_case : Rbtree → ℕ → Run (Rbtree × ℕ)
left_case t node =
    let parent = t.parent node in
    let uncle = t.right (t.parent parent) in
    elim (not (uncle == nil) && is_red (t.color uncle)) [
      | true ↦ ok (recolor t parent uncle, t.parent parent)
      | false ↦ turn leftrotate (node == t.right parent) t node parent >>= λ turned.
          lift rightrotate turned.0 turned.1 turned.2
    ]

pub right_case : Rbtree → ℕ → Run (Rbtree × ℕ)
right_case t node =
    let parent = t.parent node in
    let uncle = t.left (t.parent parent) in
    elim (not (uncle == nil) && is_red (t.color uncle)) [
      | true ↦ ok (recolor t parent uncle, t.parent parent)
      | false ↦ turn rightrotate (node == t.left parent) t node parent >>= λ turned.
          lift leftrotate turned.0 turned.1 turned.2
    ]

-- The loop of `rb_insert`; `root` is the root before the loop.
pub insert_loop : ℕ → ℕ → Rbtree → ℕ → Run Rbtree
insert_loop zero root t node = stop unfinished
insert_loop (suc rounds) root t node =
    elim (not (node == root) && is_red (t.color (t.parent node))) [
      | false ↦ ok t
      | true ↦ do
        let parent = t.parent node
        next ← elim (parent == t.left (t.parent parent)) [
          | true ↦ left_case t node
          | false ↦ right_case t node
        ]
        insert_loop rounds root next.0 next.1
    ]

pub rb_insert : ℕ → Rbtree → ℕ → Run Rbtree
rb_insert rounds t node = do
  t' ← insert_loop rounds t.root (set_color t node red) node
  ok (set_color t' t'.root black)

pub node_insert : (ℕ → ℕ → Bool) → ℕ → Rbtree → ℕ → Run Rbtree
node_insert less rounds t new_node = do
  linked ← elim (t.root == nil) [
    | true ↦ ok (record t { root = new_node })
    | false ↦ insert_at less rounds t t.root new_node
  ]
  rb_insert rounds linked new_node

-- `rbtree_insert`, where each loop is given `rounds` rounds.
pub rbtree_insert : (ℕ → ℕ → Bool) → ℕ → Rbtree → ℕ → Run Rbtree
rbtree_insert less rounds t elem =
    let cleared = set_parent (set_right (set_left t elem nil) elem nil) elem nil in
    node_insert less rounds (set_color cleared elem red) elem
