-- ===== src/Mtree/Bounds.antt =====
-- `mtree_lower_bound` of lib/mtree.c, against the sorted
-- list of entries.
use mathlib.Core.Path.{subst}
use Prim.Native.Nat.Ordering.{eq, gt}
use fuse_example.Base.{
  ◌≡◌, refl, sym, ap, ◌∙◌, Option, none, some, List, [], ◌∷◌, ◌++◌, append_assoc, append-nil, inl,
  inr, ◌⊎◌, arith,
}
use fuse_example.Lsm.Key.{Bytes, Entry, KeyOrder}
use fuse_example.RbTree.{Color, Tree, leaf, node, Frame, from_left, from_right, Position, at, plug}
use fuse_example.RbTree.Inorder.{inorder, inorder-plug, outside_left, outside_right}
use fuse_example.RbTree.Walk.{Stands}
use fuse_example.Mtree.{MtreeIter, lower_loop, mtree_lower_bound}
use fuse_example.Mtree.Spec.{All, append-All, IsSorted, take_below, drop_below}
use fuse_example.Mtree.Sorted.{
  Ordering-cases, IsBelow, IsSorted-append, take_below-append, drop_below-append, IsBelow-greater,
}

-- An entry with a given key.
abbrev pub probe : Bytes → Entry
probe key = record { key = key; val = [] }

module _ ⦃o : KeyOrder⦄ where
  open o use {cmp, cmp_opposite, lt_trans, eq_left}

  -- The first entry, if there is one, is not below the key.
  abbrev pub StartsHigh : Bytes → List Entry → Type 0
  StartsHigh key [] = Unit
  StartsHigh key (e ∷ es) = (cmp e.key key ≡ eq) ⊎ (cmp e.key key ≡ gt)

  take_below-high : (key : Bytes) (es : List Entry) → StartsHigh key es → take_below key es ≡ []
  unfolding take_below
  take_below-high key [] h = refl
  take_below-high key (e ∷ es) h = ground arith

  pub drop_below-high : (key : Bytes) (es : List Entry) → StartsHigh key es → drop_below key es ≡ es
  unfolding drop_below
  drop_below-high key [] h = refl
  drop_below-high key (e ∷ es) h = ground arith

  pub drop_below-StartsHigh : (key : Bytes) (es : List Entry) → StartsHigh key (drop_below key es)
  unfolding drop_below
  drop_below-StartsHigh key [] = tt
  drop_below-StartsHigh key (e ∷ es) = elim (Ordering-cases (cmp e.key key)) [
    | inl c ↦ rw (drop_below, c) (drop_below-StartsHigh key es)
    | inr (inl c) ↦ rw (drop_below, c) (inl c)
    | inr (inr c) ↦ rw (drop_below, c) (inr c)
  ]

  pub IsSorted-node :
      (c : Color) (l : Tree Entry) (a : Entry) (r : Tree Entry)
      → IsSorted (inorder (node c l a r))
      → IsSorted (inorder l) × All (IsBelow a.key) (inorder l) × IsSorted (inorder r)
  IsSorted-node c l a r s =
      let (sl, below, sa) = IsSorted-append (inorder l) a (inorder r) s in (sl, below, sa.1)

  pub All-node {κ} :
      (P : Entry → Type κ) (xs ys : List Entry) (a : Entry)
      → All P xs
      → All P ys
      → P a
      → All P (xs ++ (ys ++ a ∷ []))
  All-node P xs ys a h k p = append-All P xs (ys ++ a ∷ []) h (append-All P ys (a ∷ []) k (p, tt))

  module _ (key : Bytes) where
    -- Where the entries split into those below the key and those from it on.
    split_below :
        (t : Tree Entry) (seen rest : List Entry) (found : Option (Position Entry))
        → inorder t ≡ seen ++ rest
        → All (IsBelow key) seen
        → StartsHigh key rest
        → Stands t seen rest found
        → Stands t (take_below key (inorder t)) (drop_below key (inorder t)) found
    split_below t seen rest found e below high stands =
        subst (λ xs. Stands t xs (drop_below key (inorder t)) found) (sym fore)
          (subst (λ xs. Stands t seen xs found) (sym rear) stands)
      where
        fore : take_below key (inorder t) ≡ seen
        fore =
            ap (take_below key) e
            ∙ take_below-append key seen rest below
            ∙ ap (λ xs. seen ++ xs) (take_below-high key rest high)
            ∙ append-nil seen

        rear : drop_below key (inorder t) ≡ rest
        rear =
            ap (drop_below key) e
            ∙ drop_below-append key seen rest below
            ∙ drop_below-high key rest high

    lower_loop-Stands :
        (t : Tree Entry) (path : List (Frame Entry)) (lower : Option (Position Entry))
        → IsSorted (inorder t)
        → All (IsBelow key) (outside_left path)
        → StartsHigh key (outside_right path)
        → Stands (plug t path) (outside_left path ++ inorder t) (outside_right path) lower
        → Stands
            (plug t path)
            (take_below key (inorder (plug t path)))
            (drop_below key (inorder (plug t path)))
            (lower_loop key t path lower)
    unfolding lower_loop
    lower_loop-Stands leaf path lower s below high stands =
        split_below (plug leaf path) (outside_left path ++ []) (outside_right path) lower
          (inorder-plug leaf path ∙ sym (append_assoc (outside_left path) [] (outside_right path)))
          (append-All (IsBelow key) (outside_left path) [] below tt) high stands
    lower_loop-Stands (node c l a r) path lower s below high stands =
        elim (Ordering-cases (cmp a.key key)) [
          | inl e ↦
              rw (e, lower_loop)
                (lower_loop-Stands r (from_right c l a ∷ path) lower parts.2
                  (All-node (IsBelow key) (outside_left path) (inorder l) a below
                    (IsBelow-greater a (probe key) (inorder l) e parts.1) e)
                  high
                  (subst (λ xs. Stands (plug (node c l a r) path) xs (outside_right path) lower)
                    (simp append_assoc) stands))
          | inr (inl e) ↦
              rw (e, lower_loop)
                (lower_loop-Stands l (from_left c a r ∷ path) (some (at c l a r path)) parts.0 below
                  (inl e) (refl, refl, refl))
          | inr (inr e) ↦
              rw (e, lower_loop)
                (lower_loop-Stands l (from_left c a r ∷ path) (some (at c l a r path)) parts.0 below
                  (inr e) (refl, refl, refl))
        ]
      where
        parts : IsSorted (inorder l) × All (IsBelow a.key) (inorder l) × IsSorted (inorder r)
        parts = IsSorted-node c l a r s

    -- On a tree with strictly increasing keys `mtree_lower_bound` stands at the first entry whose
    -- key is not below the given one, with exactly the entries below it behind, or at the end if
    -- there is none; the tree stays as it was.
    pub mtree_lower_bound-Stands :
        (it : MtreeIter)
        → IsSorted (inorder it.tree)
        → Stands it.tree
            (take_below key (inorder it.tree))
            (drop_below key (inorder it.tree))
            (mtree_lower_bound it key).current
    unfolding mtree_lower_bound
    mtree_lower_bound-Stands it s = lower_loop-Stands it.tree [] none s tt tt refl
