-- ===== src/RbTree/Erase.antt =====
-- `rb_erase` and `rb_erase_fix` of util/rbtree.c: the successor takes the node's place, and the
-- missing black node is made up for on the way up.
pub mod Balance
pub mod Order
use fuse_example.Base.{
  ℕ, zero, suc, Bool, true, false, Option, none, some, List, [], ◌∷◌, ◌++◌, ◌+◌, ◌&&◌, length,
  if◌then◌else◌,
}
use fuse_example.Errors.{Run, done, fault, out_of_fuel}
use fuse_example.RbTree.{
  Color, red, black, Tree, leaf, node, Frame, from_left, from_right, Position, at, plug, is_red,
  is_black, set_color, set_red, set_black, rotate_left, rotate_right, leftmost,
}
use fuse_example.RbTree.Insert.{◌>>=◌}

-- What a round of the loop leaves: the next `child` with its path, or the finished tree.
pub data Round {ℓ} (A : Type ℓ) : Type ℓ where
  again : Tree A → List (Frame A) → Round A
  stop : Tree A → Round A

module _ {ℓ} {A : Type ℓ} where
  -- The sibling `b` is red. It turns black, the parent red, and the rotation puts `b` above the
  -- parent: the sibling from then on, and the frame of `b`.
  unfoldable pub raise_right : Tree A → Option (Tree A × Frame A)
  raise_right leaf = none
  raise_right (node c l b r) = some (l, from_left black b r)

  unfoldable pub raise_left : Tree A → Option (Tree A × Frame A)
  raise_left leaf = none
  raise_left (node c l b r) = some (r, from_right black l b)

  -- `if (b->right) rb_set_black(b->right)`
  unfoldable pub blacken_right : Tree A → Tree A
  blacken_right leaf = leaf
  blacken_right (node c l b r) = node c l b (set_black r)

  unfoldable pub blacken_left : Tree A → Tree A
  blacken_left leaf = leaf
  blacken_left (node c l b r) = node c (set_black l) b r

  -- `if (rb_black(b->right))`: the near child of the sibling comes up.
  unfoldable pub turn_right : Color → Tree A → A → Tree A → Option (Tree A)
  unfolding rotate_right
  turn_right c l b r =
      if is_black r then rotate_right (node red (set_black l) b r) else some (node c l b r)

  unfoldable pub turn_left : Color → Tree A → A → Tree A → Option (Tree A)
  unfolding rotate_left
  turn_left c l b r =
      if is_black l then rotate_left (node red l b (set_black r)) else some (node c l b r)

  -- The rest of that branch at the parent `node c t a b`, up to its rotation.
  unfoldable pub lend_right : Color → Tree A → A → Tree A → Option (Tree A)
  unfolding rotate_left blacken_right
  lend_right c t a b = rotate_left (node black t a (set_color c (blacken_right b)))

  unfoldable pub lend_left : Color → Tree A → A → Tree A → Option (Tree A)
  unfolding rotate_right blacken_left
  lend_left c b a t = rotate_right (node black (set_color c (blacken_left b)) a t)

  -- The round from `if (rb_black(b->left) && rb_black(b->right))` on, `child` on the left.
  -- `child = tree->root` ends the loop, and the root turns black.
  unfoldable pub round_left : Tree A → Color → A → Tree A → List (Frame A) → Option (Round A)
  unfolding turn_right lend_right
  round_left t c a leaf path = none
  round_left t c a (node bc bl b br) path =
      if is_black bl && is_black br then some (again (node c t a (node red bl b br)) path) else do
        b' ← turn_right bc bl b br
        s ← lend_right c t a b'
        some (stop (set_black (plug s path)))

  unfoldable pub round_right : Tree A → Color → Tree A → A → List (Frame A) → Option (Round A)
  unfolding turn_left lend_left
  round_right t c leaf a path = none
  round_right t c (node bc bl b br) a path =
      if is_black br && is_black bl then some (again (node c (node red bl b br) a t) path) else do
        b' ← turn_left bc bl b br
        s ← lend_left c b' a t
        some (stop (set_black (plug s path)))

  -- A round at a black child below `frame`. `none` is an access through a null sibling.
  unfoldable pub erase_round : Tree A → Frame A → List (Frame A) → Option (Round A)
  unfolding raise_right raise_left round_left round_right
  erase_round t (from_left c a b) path =
      if is_red b
      then (raise_right b >>= λ s. round_left t red a s.0 (s.1 ∷ path))
      else round_left t c a b path
  erase_round t (from_right c b a) path =
      if is_red b
      then (raise_left b >>= λ s. round_right t red s.0 a (s.1 ∷ path))
      else round_right t c b a path

  -- The test `rb_black(child) && child != tree->root`; after the loop the child turns black.
  unfoldable pub erase_step : Tree A → List (Frame A) → Option (Round A)
  unfolding erase_round
  erase_step t [] = some (stop (set_black t))
  erase_step t (f ∷ path) =
      if is_black t then erase_round t f path else some (stop (plug (set_black t) (f ∷ path)))

  -- What comes after a round.
  abbrev pub resume : (Tree A → List (Frame A) → Run (Tree A)) → Option (Round A) → Run (Tree A)
  resume next none = fault
  resume next (some (stop t)) = done t
  resume next (some (again t path)) = next t path

  -- The loop, on fuel.
  unfoldable pub rb_erase_fix : ℕ → Tree A → List (Frame A) → Run (Tree A)
  unfolding erase_step
  rb_erase_fix zero t path = out_of_fuel
  rb_erase_fix (suc fuel) t path = resume (λ u up. rb_erase_fix fuel u up) (erase_step t path)

  -- `if (color == BLACK) rb_erase_fix(c, p, tree)`
  unfoldable pub after_unlink : Color → Tree A → List (Frame A) → Run (Tree A)
  unfolding rb_erase_fix
  after_unlink red t path = done (plug t path)
  after_unlink black t path = rb_erase_fix (length path + 2) t path

  -- The successor `x` gives its right child to its parent, and takes the node's colour, children
  -- and place. `inner` is its path up to the node; it is empty if `x == node->right`.
  unfoldable pub replace_by : Color → Tree A → List (Frame A) → Position A → Run (Tree A)
  unfolding after_unlink
  replace_by c l path (at xc xl x xr inner) = after_unlink xc xr (inner ++ from_right c l x ∷ path)

  unfoldable pub rb_erase : Position A → Run (Tree A)
  unfolding after_unlink replace_by leftmost
  rb_erase (at c leaf a r path) = after_unlink c r path
  rb_erase (at c (node lc ll la lr) a leaf path) = after_unlink c (node lc ll la lr) path
  rb_erase (at c (node lc ll la lr) a (node rc rl ra rr) path) =
      replace_by c (node lc ll la lr) path (leftmost rc rl ra rr [])
