-- ===== src/RbTree/Insert/Order.antt =====
-- `rb_insert` keeps the items and their order: it only recolours and rotates.
use mathlib.Core.Path.{subst, ap₂}
use fuse_example.Base.{
  ◌≡◌, refl, ap, ◌∙◌, Option, none, some, List, [], ◌∷◌, ◌++◌, append_assoc, Bool-cases, inl, inr,
}
use fuse_example.RbTree.{
  Color, red, black, Tree, leaf, node, Frame, from_left, from_right, fill, plug, is_red, set_black,
  rotate_left, rotate_right,
}
use fuse_example.RbTree.Inorder.{inorder, plug-cong, inorder-set_color}
use fuse_example.RbTree.Insert.{
  rb_insert, mend_left, mend_right, straighten_left, straighten_right, paint_left, paint_right,
  is_red_frame, ◌>>=◌, finish,
}

module _ {ℓ} {A : Type ℓ} where
  -- If a tree comes back, its items are `xs`.
  abbrev pub Yields : List A → Option (Tree A) → Type ℓ
  Yields xs none = Unit
  Yields xs (some t) = inorder t ≡ xs

  Yields-bind :
      (xs : List A) (o : Option (Tree A)) (f : Tree A → Option (Tree A))
      → ((t : Tree A) → o ≡ some t → Yields xs (f t))
      → Yields xs (o >>= f)
  Yields-bind xs none f h = tt
  Yields-bind xs (some t) f h = h t refl

  pub rotate_left-Yields : (t : Tree A) → Yields (inorder t) (rotate_left t)
  unfolding rotate_left
  rotate_left-Yields leaf = tt
  rotate_left-Yields (node c l a leaf) = tt
  rotate_left-Yields (node c l a (node rc rl ra rr)) = simp append_assoc

  pub rotate_right-Yields : (t : Tree A) → Yields (inorder t) (rotate_right t)
  unfolding rotate_right
  rotate_right-Yields leaf = tt
  rotate_right-Yields (node c leaf a r) = tt
  rotate_right-Yields (node c (node lc ll la lr) a r) = simp append_assoc

  straighten_left-Yields :
      (n : Tree A) (p : Frame A) → Yields (inorder (fill n p)) (straighten_left n p)
  unfolding straighten_left
  straighten_left-Yields n (from_left c a r) = refl
  straighten_left-Yields n (from_right c l a) = rotate_left-Yields (node c l a n)

  straighten_right-Yields :
      (n : Tree A) (p : Frame A) → Yields (inorder (fill n p)) (straighten_right n p)
  unfolding straighten_right
  straighten_right-Yields n (from_left c a r) = rotate_right-Yields (node c n a r)
  straighten_right-Yields n (from_right c l a) = refl

  pub Yields-eq :
      {xs : List A} {o : Option (Tree A)} (t : Tree A) → o ≡ some t → Yields xs o → inorder t ≡ xs
  Yields-eq {xs} t e y = subst (Yields xs) e y

  inorder-paint_right : (t : Tree A) → inorder (paint_right t) ≡ inorder t
  unfolding paint_right
  inorder-paint_right leaf = refl
  inorder-paint_right (node c l a r) = ap (λ xs. inorder l ++ a ∷ xs) (inorder-set_color red r)

  inorder-paint_left : (t : Tree A) → inorder (paint_left t) ≡ inorder t
  unfolding paint_left
  inorder-paint_left leaf = refl
  inorder-paint_left (node c l a r) = ap (λ xs. xs ++ a ∷ inorder r) (inorder-set_color red l)

  mend_left-Yields :
      (n : Tree A) (p : Frame A) (c : Color) (a : A) (r : Tree A)
      → Yields (inorder (node c (fill n p) a r)) (mend_left n p c a r)
  unfolding mend_left
  mend_left-Yields n p c a r = Yields-bind _ (straighten_left n p) _ λ p' e.
      Yields-bind _ (rotate_right (node c p' a r)) _ λ g' e'.
        inorder-paint_right g'
        ∙ Yields-eq g' e' (rotate_right-Yields (node c p' a r))
        ∙ ap (λ xs. xs ++ a ∷ inorder r) (Yields-eq p' e (straighten_left-Yields n p))

  mend_right-Yields :
      (n : Tree A) (p : Frame A) (c : Color) (l : Tree A) (a : A)
      → Yields (inorder (node c l a (fill n p))) (mend_right n p c l a)
  unfolding mend_right
  mend_right-Yields n p c l a = Yields-bind _ (straighten_right n p) _ λ p' e.
      Yields-bind _ (rotate_left (node c l a p')) _ λ g' e'.
        inorder-paint_left g'
        ∙ Yields-eq g' e' (rotate_left-Yields (node c l a p'))
        ∙ ap (λ xs. inorder l ++ a ∷ xs) (Yields-eq p' e (straighten_right-Yields n p))

  mended-Yields :
      (t : Tree A) (o : Option (Tree A)) (path : List (Frame A))
      → Yields (inorder t) o
      → Yields (inorder (plug t path)) (o >>= λ u. finish u path)
  mended-Yields t none path y = tt
  mended-Yields t (some u) path y = inorder-set_color black (plug u path) ∙ plug-cong u t path y

  recolored-Yields :
      (s t : Tree A) (path : List (Frame A)) (o : Option (Tree A))
      → inorder s ≡ inorder t
      → Yields (inorder (plug s path)) o
      → Yields (inorder (plug t path)) o
  recolored-Yields s t path o e y = subst (λ xs. Yields xs o) (plug-cong s t path e) y

  rb_insert-Yields :
      (n : Tree A) (path : List (Frame A)) → Yields (inorder (plug n path)) (rb_insert n path)
  unfolding rb_insert
  rb_insert-Yields n [] = inorder-set_color black n
  rb_insert-Yields n (p ∷ []) = elim (Bool-cases (is_red_frame p)) [
    | inl e ↦ rw e tt
    | inr e ↦ rw e (inorder-set_color black (fill n p))
  ]
  rb_insert-Yields n (p ∷ from_left c a r ∷ path) = elim (Bool-cases (is_red_frame p)) [
    | inr e ↦ rw e (inorder-set_color black (plug n (p ∷ from_left c a r ∷ path)))
    | inl e ↦ rw e (elim (Bool-cases (is_red r)) [
      | inl f ↦ rw f (
          recolored-Yields (node red (set_black (fill n p)) a (set_black r)) (node c (fill n p) a r)
            path _
            (ap₂ (λ xs ys. xs ++ a ∷ ys) (inorder-set_color black (fill n p))
              (inorder-set_color black r))
            (rb_insert-Yields (node red (set_black (fill n p)) a (set_black r)) path))
      | inr f ↦ rw f (
          mended-Yields (node c (fill n p) a r) (mend_left n p c a r) path
            (mend_left-Yields n p c a r))
    ])
  ]
  rb_insert-Yields n (p ∷ from_right c l a ∷ path) = elim (Bool-cases (is_red_frame p)) [
    | inr e ↦ rw e (inorder-set_color black (plug n (p ∷ from_right c l a ∷ path)))
    | inl e ↦ rw e (elim (Bool-cases (is_red l)) [
      | inl f ↦ rw f (
          recolored-Yields (node red (set_black l) a (set_black (fill n p))) (node c l a (fill n p))
            path _
            (ap₂ (λ xs ys. xs ++ a ∷ ys) (inorder-set_color black l)
              (inorder-set_color black (fill n p)))
            (rb_insert-Yields (node red (set_black l) a (set_black (fill n p))) path))
      | inr f ↦ rw f (
          mended-Yields (node c l a (fill n p)) (mend_right n p c l a) path
            (mend_right-Yields n p c l a))
    ])
  ]

  -- A tree that `rb_insert` returns holds the items it was given, in the same order.
  pub inorder-rb_insert :
      (n : Tree A) (path : List (Frame A)) {t : Tree A}
      → rb_insert n path ≡ some t
      → inorder t ≡ inorder (plug n path)
  inorder-rb_insert n path {t} e = Yields-eq t e (rb_insert-Yields n path)
