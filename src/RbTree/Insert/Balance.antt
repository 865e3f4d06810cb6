-- ===== src/RbTree/Insert/Balance.antt =====
-- The red-black invariant: equal numbers of black nodes on all paths, and no red child of a red
-- node. `rb_insert` keeps it and never follows a null pointer.
use mathlib.Core.Path.{subst}
use fuse_example.Base.{
  ℕ, suc, ◌≡◌, refl, sym, ◌∙◌, arith, true, false, Option, some, List, [], ◌∷◌, ◌⊎◌, inl, inr,
  Bool-cases,
}
use fuse_example.RbTree.{
  Color, red, black, Tree, leaf, node, Frame, from_left, from_right, fill, plug, is_red, set_black,
}
use fuse_example.RbTree.Insert.{rb_insert, mend_left, mend_right, is_red_frame, ◌>>=◌}

abbrev pub bump : Color → ℕ → ℕ
bump red n = n
bump black n = suc n

module _ {ℓ} {A : Type ℓ} where
  -- The black nodes from here to a leaf, counted on the left.
  abbrev pub black_height : Tree A → ℕ
  black_height leaf = 0
  black_height (node c l a r) = bump c (black_height l)

  abbrev pub HasBlackChildren : Color → Tree A → Tree A → Type 0
  HasBlackChildren red l r = (is_red l ≡ false) × (is_red r ≡ false)
  HasBlackChildren black l r = Unit

  -- Both halves of the invariant, at every node.
  abbrev pub IsBalanced : Tree A → Type 0
  IsBalanced leaf = Unit
  IsBalanced (node c l a r) =
      (black_height l ≡ black_height r) × HasBlackChildren c l r × IsBalanced l × IsBalanced r

  pub record IsRbTree (t : Tree A) : Type 0 where
    pub balanced : IsBalanced t
    pub black_root : is_red t ≡ false

  abbrev pub TopIsBlack : List (Frame A) → Type 0
  TopIsBlack [] = ⊥
  TopIsBlack (f ∷ path) = is_red_frame f ≡ false

  abbrev pub FitsRed : Color → Tree A → List (Frame A) → Type 0
  FitsRed red sibling path = (is_red sibling ≡ false) × TopIsBlack path
  FitsRed black sibling path = Unit

  -- The path around a balanced subtree of black height `n`; the subtree's root may be red.
  abbrev pub IsPath : ℕ → List (Frame A) → Type 0
  IsPath n [] = Unit
  IsPath n (from_left c a r ∷ path) =
      (black_height r ≡ n) × IsBalanced r × FitsRed c r path × IsPath (bump c n) path
  IsPath n (from_right c l a ∷ path) =
      (black_height l ≡ n) × IsBalanced l × FitsRed c l path × IsPath (bump c n) path

  -- A black subtree, or a red one below a black parent, completes a path.
  pub plug-IsBalanced :
      (t : Tree A) (path : List (Frame A))
      → IsBalanced t
      → (is_red t ≡ false) ⊎ TopIsBlack path
      → IsPath (black_height t) path
      → IsBalanced (plug t path)
  plug-IsBalanced t [] b c h = b
  plug-IsBalanced t (from_left red a r ∷ path) b c h =
      plug-IsBalanced (node red t a r) path (ground arith) (inr h.2.1) (ground arith)
  plug-IsBalanced t (from_left black a r ∷ path) b c h =
      plug-IsBalanced (node black t a r) path (ground arith) (inl refl) (ground arith)
  plug-IsBalanced t (from_right red l a ∷ path) b c h =
      plug-IsBalanced (node red l a t) path (ground arith) (inr h.2.1) (ground arith)
  plug-IsBalanced t (from_right black l a ∷ path) b c h =
      plug-IsBalanced (node black l a t) path (ground arith) (inl refl) (ground arith)

  pub set_black-IsRbTree : (t : Tree A) → IsBalanced t → IsRbTree (set_black t)
  set_black-IsRbTree leaf b = record { balanced = tt; black_root = refl }
  set_black-IsRbTree (node c l a r) b = record { balanced = ground arith; black_root = refl }

  -- A finished run: a tree comes back, and it is a red-black tree.
  abbrev pub EndsBalanced : Option (Tree A) → Type ℓ
  EndsBalanced o = (t : Tree A) × (o ≡ some t) × IsRbTree t

  finish-EndsBalanced :
      (t : Tree A) (path : List (Frame A))
      → IsBalanced t
      → (is_red t ≡ false) ⊎ TopIsBlack path
      → IsPath (black_height t) path
      → EndsBalanced (some (set_black (plug t path)))
  finish-EndsBalanced t path b c h = (
    set_black (plug t path),
    refl,
    set_black-IsRbTree (plug t path) (plug-IsBalanced t path b c h),
  )

  -- What the rotations leave at `g`: a black root over two red children.
  record IsMended (n : ℕ) (o : Option (Tree A)) : Type ℓ where
    tree : Tree A
    returned : o ≡ some tree
    balanced : IsBalanced tree
    black_root : is_red tree ≡ false
    height : black_height tree ≡ suc n

  abbrev sibling : Frame A → Tree A
  sibling (from_left c a r) = r
  sibling (from_right c l a) = l

  -- A balanced subtree with a black root, of black height `n`.
  abbrev IsBlackOf : ℕ → Tree A → Type 0
  IsBlackOf n t = (black_height t ≡ n) × IsBalanced t × (is_red t ≡ false)

  mend_left-IsMended :
      (l : Tree A) (a : A) (r : Tree A) (p : Frame A) (ga : A) (gr : Tree A)
      → IsBalanced (node red l a r)
      → is_red_frame p ≡ true
      → IsBlackOf (black_height l) (sibling p)
      → IsBlackOf (black_height l) gr
      → IsMended (black_height l) (mend_left (node red l a r) p black ga gr)
  unfolding mend_left
  mend_left-IsMended l a r (from_left red pa pr) ga gr b e h k = record {
    tree = node black (node red l a r) pa (node red pr ga gr);
    returned = refl;
    balanced = ground arith;
    black_root = refl;
    height = refl;
  }
  mend_left-IsMended l a r (from_right red pl pa) ga gr b e h k = record {
    tree = node black (node red pl pa l) a (node red r ga gr);
    returned = refl;
    balanced = ground arith;
    black_root = refl;
    height = ground arith;
  }
  mend_left-IsMended l a r (from_left black pa pr) ga gr b e h k = cc
  mend_left-IsMended l a r (from_right black pl pa) ga gr b e h k = cc

  mend_right-IsMended :
      (l : Tree A) (a : A) (r : Tree A) (p : Frame A) (gl : Tree A) (ga : A)
      → IsBalanced (node red l a r)
      → is_red_frame p ≡ true
      → IsBlackOf (black_height l) (sibling p)
      → IsBlackOf (black_height l) gl
      → IsMended (black_height l) (mend_right (node red l a r) p black gl ga)
  unfolding mend_right
  mend_right-IsMended l a r (from_right red pl pa) gl ga b e h k = record {
    tree = node black (node red gl ga pl) pa (node red l a r);
    returned = refl;
    balanced = ground arith;
    black_root = refl;
    height = ground arith;
  }
  mend_right-IsMended l a r (from_left red pa pr) gl ga b e h k = record {
    tree = node black (node red gl ga l) a (node red r pa pr);
    returned = refl;
    balanced = ground arith;
    black_root = refl;
    height = ground arith;
  }
  mend_right-IsMended l a r (from_right black pl pa) gl ga b e h k = cc
  mend_right-IsMended l a r (from_left black pa pr) gl ga b e h k = cc

  mended-EndsBalanced :
      {n : ℕ} {o : Option (Tree A)} (path : List (Frame A))
      → IsMended n o
      → IsPath (suc n) path
      → EndsBalanced (o >>= λ t. some (set_black (plug t path)))
  mended-EndsBalanced path m h = rw m.returned (
      finish-EndsBalanced m.tree path m.balanced (inl m.black_root)
        (subst (λ k. IsPath k path) (sym m.height) h))

  -- What a path says of a red parent.
  red_frame :
      (n : ℕ) (p : Frame A) (path : List (Frame A))
      → is_red_frame p ≡ true
      → IsPath n (p ∷ path)
      → IsBlackOf n (sibling p) × TopIsBlack path × IsPath n path
  red_frame n (from_left red a r) path e h = ((h.0, h.1, h.2.0), h.2.1, h.3)
  red_frame n (from_right red l a) path e h = ((h.0, h.1, h.2.0), h.2.1, h.3)
  red_frame n (from_left black a r) path e h = cc
  red_frame n (from_right black l a) path e h = cc

  -- The subtree at a red parent, painted black.
  fill-IsBlackOf :
      (l : Tree A) (a : A) (r : Tree A) (p : Frame A)
      → IsBalanced (node red l a r)
      → is_red_frame p ≡ true
      → IsBlackOf (black_height l) (sibling p)
      → IsBlackOf (suc (black_height l)) (set_black (fill (node red l a r) p))
  fill-IsBlackOf l a r (from_left c pa pr) b e h = ground arith
  fill-IsBlackOf l a r (from_right c pl pa) b e h = ground arith

  set_black-IsBlackOf :
      (n : ℕ) (t : Tree A)
      → is_red t ≡ true
      → black_height t ≡ n
      → IsBalanced t
      → IsBlackOf (suc n) (set_black t)
  set_black-IsBlackOf n leaf e h b = cc
  set_black-IsBlackOf n (node red l a r) e h b = ground arith
  set_black-IsBlackOf n (node black l a r) e h b = cc

  red_over_black :
      {n : ℕ} (l : Tree A) (a : A) (r : Tree A)
      → IsBlackOf n l
      → IsBlackOf n r
      → IsBalanced (node red l a r)
  red_over_black l a r h k = (h.0 ∙ sym k.0, (h.2, k.2), h.1, k.1)

  -- `rb_insert` at a balanced subtree with a red root, on a path that is balanced with it,
  -- follows no null pointer and returns a tree with equal black heights, no red child of a red
  -- node and a black root.
  pub rb_insert-EndsBalanced :
      (l : Tree A) (a : A) (r : Tree A) (path : List (Frame A))
      → IsBalanced (node red l a r)
      → IsPath (black_height l) path
      → EndsBalanced (rb_insert (node red l a r) path)
  unfolding rb_insert
  rb_insert-EndsBalanced l a r [] b h =
      (node black l a r, refl, set_black-IsRbTree (node red l a r) b)
  rb_insert-EndsBalanced l a r (p ∷ []) b h = elim (Bool-cases (is_red_frame p)) [
    | inl e ↦ absurd (red_frame (black_height l) p [] e h).1
    | inr e ↦ rw e (finish-EndsBalanced (node red l a r) (p ∷ []) b (inr e) h)
  ]
  rb_insert-EndsBalanced l a r (p ∷ from_left red ga gs ∷ path) b h =
      elim (Bool-cases (is_red_frame p)) [
        | inr e ↦
            rw e (finish-EndsBalanced (node red l a r) (p ∷ from_left red ga gs ∷ path) b (inr e) h)
        | inl e ↦ cc ((red_frame (black_height l) p (from_left red ga gs ∷ path) e h).1)
      ]
  rb_insert-EndsBalanced l a r (p ∷ from_left black ga gs ∷ path) b h =
      elim (Bool-cases (is_red_frame p)) [
        | inr e ↦
            rw e
              (finish-EndsBalanced (node red l a r) (p ∷ from_left black ga gs ∷ path) b (inr e) h)
        | inl e ↦ rw e (
            let (side, top, up) = red_frame (black_height l) p (from_left black ga gs ∷ path) e h in
            elim (Bool-cases (is_red gs)) [
              | inl f ↦ rw f (
                  let parent = fill-IsBlackOf l a r p b e side in
                  let uncle = set_black-IsBlackOf (black_height l) gs f up.0 up.1 in
                  rb_insert-EndsBalanced (set_black (fill (node red l a r) p)) ga (set_black gs)
                    path
                    (red_over_black (set_black (fill (node red l a r) p)) ga (set_black gs) parent
                      uncle)
                    (subst (λ k. IsPath k path) (sym parent.0) up.3))
              | inr f ↦ rw f (
                  mended-EndsBalanced path
                    (mend_left-IsMended l a r p ga gs b e side (up.0, up.1, f)) up.3)
            ])
      ]
  rb_insert-EndsBalanced l a r (p ∷ from_right red gs ga ∷ path) b h =
      elim (Bool-cases (is_red_frame p)) [
        | inr e ↦
            rw e
              (finish-EndsBalanced (node red l a r) (p ∷ from_right red gs ga ∷ path) b (inr e) h)
        | inl e ↦ cc ((red_frame (black_height l) p (from_right red gs ga ∷ path) e h).1)
      ]
  rb_insert-EndsBalanced l a r (p ∷ from_right black gs ga ∷ path) b h =
      elim (Bool-cases (is_red_frame p)) [
        | inr e ↦
            rw e
              (finish-EndsBalanced (node red l a r) (p ∷ from_right black gs ga ∷ path) b (inr e) h)
        | inl e ↦ rw e (
            let (side, top, up) =
              red_frame (black_height l) p (from_right black gs ga ∷ path) e h in
            elim (Bool-cases (is_red gs)) [
              | inl f ↦ rw f (
                  let parent = fill-IsBlackOf l a r p b e side in
                  let uncle = set_black-IsBlackOf (black_height l) gs f up.0 up.1 in
                  rb_insert-EndsBalanced (set_black gs) ga (set_black (fill (node red l a r) p))
                    path
                    (red_over_black (set_black gs) ga (set_black (fill (node red l a r) p)) uncle
                      parent)
                    (subst (λ k. IsPath k path) (sym uncle.0) up.3))
              | inr f ↦ rw f (
                  mended-EndsBalanced path
                    (mend_right-IsMended l a r p gs ga b e side (up.0, up.1, f)) up.3)
            ])
      ]

  -- A descent that changes no colour and no shape leaves a red-black tree.
  pub plug-IsRbTree :
      (t : Tree A) (path : List (Frame A))
      → IsBalanced t
      → (is_red t ≡ false) ⊎ TopIsBlack path
      → IsPath (black_height t) path
      → IsRbTree (plug t path)
  plug-IsRbTree t [] b (inl e) h = record { balanced = b; black_root = e }
  plug-IsRbTree t [] b (inr e) h = absurd e
  plug-IsRbTree t (from_left red a r ∷ path) b c h =
      plug-IsRbTree (node red t a r) path (ground arith) (inr h.2.1) (ground arith)
  plug-IsRbTree t (from_left black a r ∷ path) b c h =
      plug-IsRbTree (node black t a r) path (ground arith) (inl refl) (ground arith)
  plug-IsRbTree t (from_right red l a ∷ path) b c h =
      plug-IsRbTree (node red l a t) path (ground arith) (inr h.2.1) (ground arith)
  plug-IsRbTree t (from_right black l a ∷ path) b c h =
      plug-IsRbTree (node black l a t) path (ground arith) (inl refl) (ground arith)
