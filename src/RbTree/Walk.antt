-- ===== src/RbTree/Walk.antt =====
-- `rb_leftmost`, `rb_rightmost`, `rb_next` and `rb_prev` of util/rbtree.c walk the items in order.
use mathlib.Core.Path.{subst}
use fuse_example.Base.{
  ◌≡◌, refl, sym, ◌∙◌, Option, none, some, List, [], ◌∷◌, ◌++◌, append_assoc, append-nil,
}
use fuse_example.RbTree.{
  Color, Tree, leaf, node, Frame, from_left, from_right, Position, at, plug, leftmost, rightmost,
  rb_leftmost, rb_rightmost, climb_right, climb_left, rb_next, rb_prev,
}
use fuse_example.RbTree.Inorder.{inorder, outside_left, outside_right, passed, ahead, tree_of, item}

module _ {ℓ} {A : Type ℓ} where
  -- The items behind the one at a position.
  abbrev pub behind : Position A → List A
  behind (at c l a r path) = inorder r ++ outside_right path

  -- Either a node of the tree `t` with `seen` before it and `rest` from it on, or the end.
  abbrev pub Stands : Tree A → List A → List A → Option (Position A) → Type ℓ
  Stands t seen rest none = rest ≡ []
  Stands t seen rest (some p) = (tree_of p ≡ t) × (passed p ≡ seen) × (ahead (some p) ≡ rest)

  -- The node before `seen`'s end, or none if nothing was seen.
  abbrev pub StandsBefore : Tree A → List A → List A → Option (Position A) → Type ℓ
  StandsBefore t seen rest none = seen ≡ []
  StandsBefore t seen rest (some p) =
      (tree_of p ≡ t) × (passed p ++ item p ∷ [] ≡ seen) × (ahead (some p) ≡ item p ∷ rest)

  pub leftmost-Stands :
      (c : Color) (l : Tree A) (a : A) (r : Tree A) (path : List (Frame A))
      → Stands
          (plug (node c l a r) path)
          (outside_left path)
          (inorder (node c l a r) ++ outside_right path)
          (some (leftmost c l a r path))
  unfolding leftmost
  leftmost-Stands c leaf a r path = (refl, append-nil (outside_left path), refl)
  leftmost-Stands c (node lc ll la lr) a r path =
      let (tree, seen, rest) = leftmost-Stands lc ll la lr (from_left c a r ∷ path) in
      (tree, seen, rest ∙ simp append_assoc)

  rightmost-StandsBefore :
      (c : Color) (l : Tree A) (a : A) (r : Tree A) (path : List (Frame A))
      → StandsBefore
          (plug (node c l a r) path)
          (outside_left path ++ inorder (node c l a r))
          (outside_right path)
          (some (rightmost c l a r path))
  unfolding rightmost
  rightmost-StandsBefore c l a leaf path = (refl, simp append_assoc, refl)
  rightmost-StandsBefore c l a (node rc rl ra rr) path =
      let (tree, seen, rest) = rightmost-StandsBefore rc rl ra rr (from_right c l a ∷ path) in
      (tree, seen ∙ simp append_assoc, rest)

  climb_right-Stands :
      (t : Tree A) (path : List (Frame A))
      → Stands
          (plug t path)
          (outside_left path ++ inorder t)
          (outside_right path)
          (climb_right t path)
  unfolding climb_right
  climb_right-Stands t [] = refl
  climb_right-Stands t (from_left c a r ∷ path) = (refl, refl, refl)
  climb_right-Stands t (from_right c l a ∷ path) =
      subst
        (λ seen.
          Stands (plug (node c l a t) path) seen (outside_right path)
            (climb_right (node c l a t) path))
        (simp append_assoc) (climb_right-Stands (node c l a t) path)

  climb_left-StandsBefore :
      (t : Tree A) (path : List (Frame A))
      → StandsBefore
          (plug t path)
          (outside_left path)
          (inorder t ++ outside_right path)
          (climb_left t path)
  unfolding climb_left
  climb_left-StandsBefore t [] = refl
  climb_left-StandsBefore t (from_right c l a ∷ path) = (refl, simp append_assoc, refl)
  climb_left-StandsBefore t (from_left c a r ∷ path) =
      subst
        (λ rest.
          StandsBefore (plug (node c t a r) path) (outside_left path) rest
            (climb_left (node c t a r) path))
        (simp append_assoc) (climb_left-StandsBefore (node c t a r) path)

  -- `rb_leftmost` stands at the first item of the tree, and is missing only if there is none.
  pub rb_leftmost-Stands : (t : Tree A) → Stands t [] (inorder t) (rb_leftmost t)
  unfolding rb_leftmost
  rb_leftmost-Stands leaf = refl
  rb_leftmost-Stands (node c l a r) =
      let (tree, seen, rest) = leftmost-Stands c l a r [] in
      (tree, seen, rest ∙ append-nil (inorder (node c l a r)))

  -- `rb_rightmost` stands at the last item of the tree, and is missing only if there is none.
  pub rb_rightmost-StandsBefore : (t : Tree A) → StandsBefore t (inorder t) [] (rb_rightmost t)
  unfolding rb_rightmost
  rb_rightmost-StandsBefore leaf = refl
  rb_rightmost-StandsBefore (node c l a r) = rightmost-StandsBefore c l a r []

  -- From any node `rb_next` stands at the node of the next item of the same tree, and at the end
  -- exactly where no item follows.
  pub rb_next-Stands :
      (p : Position A) → Stands (tree_of p) (passed p ++ item p ∷ []) (behind p) (rb_next (some p))
  unfolding rb_next
  rb_next-Stands (at c l a (node rc rl ra rr) path) =
      let (tree, seen, rest) = leftmost-Stands rc rl ra rr (from_right c l a ∷ path) in
      (tree, seen ∙ simp append_assoc, rest)
  rb_next-Stands (at c l a leaf path) =
      subst
        (λ seen.
          Stands (plug (node c l a leaf) path) seen (outside_right path)
            (climb_right (node c l a leaf) path))
        (simp append_assoc) (climb_right-Stands (node c l a leaf) path)

  -- From any node `rb_prev` stands at the node of the item before it in the same tree, and is
  -- missing exactly where none is.
  pub rb_prev-StandsBefore :
      (p : Position A) → StandsBefore (tree_of p) (passed p) (ahead (some p)) (rb_prev (some p))
  unfolding rb_prev
  rb_prev-StandsBefore (at c (node lc ll la lr) a r path) =
      rightmost-StandsBefore lc ll la lr (from_left c a r ∷ path)
  rb_prev-StandsBefore (at c leaf a r path) =
      subst
        (λ seen.
          StandsBefore (plug (node c leaf a r) path) seen (a ∷ (inorder r ++ outside_right path))
            (climb_left (node c leaf a r) path))
        (sym (append-nil (outside_left path))) (climb_left-StandsBefore (node c leaf a r) path)
