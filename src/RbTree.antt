-- ===== src/RbTree.antt =====
-- util/rbtree.c and inc/rbtree.h. A pointer to a node is a position: the subtree below the node
-- and the path to the root, which is what the parent links spell. Walking up takes a frame from
-- the path, and a write through a pointer gives the subtree that stands there afterwards.
pub mod Erase
pub mod Inorder
pub mod Insert
pub mod Walk
use fuse_example.Base.{Bool, true, false, Option, none, some, List, [], ◌∷◌, not}

pub data Color : Type 0 where
  red black : Color

pub data Tree {ℓ} (A : Type ℓ) : Type ℓ where
  leaf : Tree A
  node : Color → Tree A → A → Tree A → Tree A

-- A step from a child to its parent: the parent's colour, item and other child.
pub data Frame {ℓ} (A : Type ℓ) : Type ℓ where
  from_left : Color → A → Tree A → Frame A
  from_right : Color → Tree A → A → Frame A

-- A node of the tree, with the path from its parent up to the root.
pub data Position {ℓ} (A : Type ℓ) : Type ℓ where
  at : Color → Tree A → A → Tree A → List (Frame A) → Position A

module _ {ℓ} {A : Type ℓ} where
  -- The parent that a frame stands for, with `t` for the child.
  abbrev pub fill : Tree A → Frame A → Tree A
  fill t (from_left c a r) = node c t a r
  fill t (from_right c l a) = node c l a t

  -- The whole tree, from a subtree and its path.
  abbrev pub plug : Tree A → List (Frame A) → Tree A
  plug t [] = t
  plug t (f ∷ path) = plug (fill t f) path

  -- `rb_red`: a missing node is not red.
  abbrev pub is_red : Tree A → Bool
  is_red (node red l a r) = true
  is_red t = false

  -- `rb_black`
  abbrev pub is_black : Tree A → Bool
  is_black t = not (is_red t)

  abbrev pub set_color : Color → Tree A → Tree A
  set_color c leaf = leaf
  set_color c (node d l a r) = node c l a r

  abbrev pub set_red : Tree A → Tree A
  set_red = set_color red

  abbrev pub set_black : Tree A → Tree A
  set_black = set_color black

  -- `rb_rotate_left` at the root of this subtree. The source reads the right child unasked:
  -- `none` is the access through a null pointer.
  unfoldable pub rotate_left : Tree A → Option (Tree A)
  rotate_left (node xc xl x (node rc rl r rr)) = some (node rc (node xc xl x rl) r rr)
  rotate_left t = none

  unfoldable pub rotate_right : Tree A → Option (Tree A)
  rotate_right (node xc (node lc ll l lr) x xr) = some (node lc ll l (node xc lr x xr))
  rotate_right t = none

  -- `rb_swap_nodes`: the new node takes over the colour, the children and the place of the old.
  unfoldable pub rb_swap_nodes : Position A → A → Tree A
  rb_swap_nodes (at c l old r path) new = plug (node c l new r) path

  -- `__rb_leftmost` from this node down.
  unfoldable pub leftmost : Color → Tree A → A → Tree A → List (Frame A) → Position A
  leftmost c leaf a r path = at c leaf a r path
  leftmost c (node lc ll la lr) a r path = leftmost lc ll la lr (from_left c a r ∷ path)

  unfoldable pub rightmost : Color → Tree A → A → Tree A → List (Frame A) → Position A
  rightmost c l a leaf path = at c l a leaf path
  rightmost c l a (node rc rl ra rr) path = rightmost rc rl ra rr (from_right c l a ∷ path)

  unfoldable pub rb_leftmost : Tree A → Option (Position A)
  unfolding leftmost
  rb_leftmost leaf = none
  rb_leftmost (node c l a r) = some (leftmost c l a r [])

  unfoldable pub rb_rightmost : Tree A → Option (Position A)
  unfolding rightmost
  rb_rightmost leaf = none
  rb_rightmost (node c l a r) = some (rightmost c l a r [])

  -- `while (p && p->right == node)`: up to the first parent that has this subtree on its left.
  unfoldable pub climb_right : Tree A → List (Frame A) → Option (Position A)
  climb_right t [] = none
  climb_right t (from_left c a r ∷ path) = some (at c t a r path)
  climb_right t (from_right c l a ∷ path) = climb_right (node c l a t) path

  unfoldable pub climb_left : Tree A → List (Frame A) → Option (Position A)
  climb_left t [] = none
  climb_left t (from_right c l a ∷ path) = some (at c l a t path)
  climb_left t (from_left c a r ∷ path) = climb_left (node c t a r) path

  unfoldable pub rb_next : Option (Position A) → Option (Position A)
  unfolding leftmost climb_right
  rb_next none = none
  rb_next (some (at c l a (node rc rl ra rr) path)) =
      some (leftmost rc rl ra rr (from_right c l a ∷ path))
  rb_next (some (at c l a leaf path)) = climb_right (node c l a leaf) path

  unfoldable pub rb_prev : Option (Position A) → Option (Position A)
  unfolding rightmost climb_left
  rb_prev none = none
  rb_prev (some (at c (node lc ll la lr) a r path)) =
      some (rightmost lc ll la lr (from_left c a r ∷ path))
  rb_prev (some (at c leaf a r path)) = climb_left (node c leaf a r) path
