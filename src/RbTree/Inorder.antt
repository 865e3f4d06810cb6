-- ===== src/RbTree/Inorder.antt =====
-- The items of a tree in order, and where a position of util/rbtree.c stands among them.
use fuse_example.Base.{
  ◌≡◌, refl, sym, ap, ◌∙◌, Option, none, some, List, [], ◌∷◌, ◌++◌, append_assoc, append-nil,
}
use fuse_example.RbTree.{
  Color, Tree, leaf, node, Frame, from_left, from_right, Position, at, plug, set_color,
}

module _ {ℓ} {A : Type ℓ} where
  abbrev pub inorder : Tree A → List A
  inorder leaf = []
  inorder (node c l a r) = inorder l ++ a ∷ inorder r

  -- The items outside a subtree, on its left and on its right.
  abbrev pub outside_left : List (Frame A) → List A
  outside_left [] = []
  outside_left (from_left c a r ∷ path) = outside_left path
  outside_left (from_right c l a ∷ path) = outside_left path ++ (inorder l ++ a ∷ [])

  abbrev pub outside_right : List (Frame A) → List A
  outside_right [] = []
  outside_right (from_left c a r ∷ path) = a ∷ (inorder r ++ outside_right path)
  outside_right (from_right c l a ∷ path) = outside_right path

  -- The items that a position has passed, and those from it on; the end has none ahead.
  abbrev pub passed : Position A → List A
  passed (at c l a r path) = outside_left path ++ inorder l

  abbrev pub ahead : Option (Position A) → List A
  ahead none = []
  ahead (some (at c l a r path)) = a ∷ (inorder r ++ outside_right path)

  abbrev pub tree_of : Position A → Tree A
  tree_of (at c l a r path) = plug (node c l a r) path

  abbrev pub item : Position A → A
  item (at c l a r path) = a

  pub inorder-plug :
      (t : Tree A) (path : List (Frame A))
      → inorder (plug t path) ≡ outside_left path ++ (inorder t ++ outside_right path)
  inorder-plug t [] = sym (append-nil (inorder t))
  inorder-plug t (from_left c a r ∷ path) = inorder-plug (node c t a r) path ∙ simp append_assoc
  inorder-plug t (from_right c l a ∷ path) = inorder-plug (node c l a t) path ∙ simp append_assoc

  pub plug-cong :
      (s t : Tree A) (path : List (Frame A))
      → inorder s ≡ inorder t
      → inorder (plug s path) ≡ inorder (plug t path)
  plug-cong s t path e =
      inorder-plug s path
      ∙ ap (λ xs. outside_left path ++ (xs ++ outside_right path)) e
      ∙ sym (inorder-plug t path)

  pub inorder-set_color : (c : Color) (t : Tree A) → inorder (set_color c t) ≡ inorder t
  inorder-set_color c leaf = refl
  inorder-set_color c (node d l a r) = refl

  -- A position splits the items of its tree.
  pub passed-ahead : (p : Position A) → inorder (tree_of p) ≡ passed p ++ ahead (some p)
  passed-ahead (at c l a r path) = inorder-plug (node c l a r) path ∙ simp append_assoc
