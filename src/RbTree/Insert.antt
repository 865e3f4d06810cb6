-- ===== src/RbTree/Insert.antt =====
-- `rb_insert` of util/rbtree.c: recolouring up the path, then at most two rotations.
pub mod Balance
pub mod Descend
pub mod Order
use fuse_example.Base.{Bool, true, false, Option, none, some, List, [], ◌∷◌, if◌then◌else◌}
use fuse_example.RbTree.{
  Color, red, black, Tree, leaf, node, Frame, from_left, from_right, fill, plug, is_red, set_red,
  set_black, rotate_left, rotate_right,
}

infixl 5 ◌>>=◌
abbrev pub ◌>>=◌ {ℓ κ} : {A : Type ℓ} {B : Type κ} → Option A → (A → Option B) → Option B
none >>= f = none
some a >>= f = f a

module _ {ℓ} {A : Type ℓ} where
  -- `rb_color(p) == RED`, at a node of the path.
  abbrev pub is_red_frame : Frame A → Bool
  is_red_frame (from_left red a r) = true
  is_red_frame (from_left black a r) = false
  is_red_frame (from_right red l a) = true
  is_red_frame (from_right black l a) = false

  -- `if (node == p->right) rb_rotate_left(p)`, and the subtree that is `p` from then on.
  unfoldable pub straighten_left : Tree A → Frame A → Option (Tree A)
  straighten_left n (from_right c l a) = rotate_left (node c l a n)
  straighten_left n (from_left c a r) = some (node c n a r)

  unfoldable pub straighten_right : Tree A → Frame A → Option (Tree A)
  straighten_right n (from_left c a r) = rotate_right (node c n a r)
  straighten_right n (from_right c l a) = some (node c l a n)

  -- `rb_set_black(p); rb_set_red(g)`, where `g` is the right child of `p`.
  unfoldable pub paint_right : Tree A → Tree A
  paint_right leaf = leaf
  paint_right (node c l a r) = node black l a (set_red r)

  unfoldable pub paint_left : Tree A → Tree A
  paint_left leaf = leaf
  paint_left (node c l a r) = node black (set_red l) a r

  -- The branch with a black uncle, `p` the left child of `g = node c _ a r`.
  unfoldable pub mend_left : Tree A → Frame A → Color → A → Tree A → Option (Tree A)
  unfolding straighten_left paint_right rotate_left rotate_right
  mend_left n p c a r = do
    p' ← straighten_left n p
    g' ← rotate_right (node c p' a r)
    some (paint_right g')

  unfoldable pub mend_right : Tree A → Frame A → Color → Tree A → A → Option (Tree A)
  unfolding straighten_right paint_left rotate_left rotate_right
  mend_right n p c l a = do
    p' ← straighten_right n p
    g' ← rotate_left (node c l a p')
    some (paint_left g')

  -- `rb_set_black(tree->root)`
  abbrev pub finish : Tree A → List (Frame A) → Option (Tree A)
  finish t path = some (set_black (plug t path))

  -- The loop, from `node` with its path. A red root has no parent: `none` is `g->left` there.
  unfoldable pub rb_insert : Tree A → List (Frame A) → Option (Tree A)
  rb_insert n [] = finish n []
  rb_insert n (p ∷ []) = if is_red_frame p then none else finish n (p ∷ [])
  rb_insert n (p ∷ from_left c a r ∷ path) =
      let up = rb_insert (node red (set_black (fill n p)) a (set_black r)) path in
      if is_red_frame p
      then (if is_red r then up else mend_left n p c a r >>= λ t. finish t path)
      else finish n (p ∷ from_left c a r ∷ path)
  rb_insert n (p ∷ from_right c l a ∷ path) =
      let up = rb_insert (node red (set_black l) a (set_black (fill n p))) path in
      if is_red_frame p
      then (if is_red l then up else mend_right n p c l a >>= λ t. finish t path)
      else finish n (p ∷ from_right c l a ∷ path)
