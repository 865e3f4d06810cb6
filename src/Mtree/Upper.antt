-- ===== src/Mtree/Upper.antt =====
-- `mtree_upper_bound` of lib/mtree.c, against the sorted list of entries.
use mathlib.Core.Path.{subst}
use Prim.Native.Nat.Ordering.{lt, eq, gt}
use fuse_example.Base.{
  ◌≡◌, refl, sym, ap, ◌∙◌, Option, none, some, List, [], ◌∷◌, ◌++◌, append_assoc, inl, inr, ◌⊎◌,
  arith,
}
use fuse_example.Lsm.Key.{Bytes, Entry, KeyOrder}
use fuse_example.RbTree.{Tree, leaf, node, Frame, from_left, from_right, Position, at, plug}
use fuse_example.RbTree.Inorder.{inorder, inorder-plug, outside_left, outside_right}
use fuse_example.RbTree.Walk.{StandsBefore}
use fuse_example.Mtree.{MtreeIter, upper_loop, mtree_upper_bound}
use fuse_example.Mtree.Spec.{All, All-imp, IsSorted, take_upto, drop_upto}
use fuse_example.Mtree.Sorted.{Ordering-cases, IsBelow, IsBelow-equal, IsBelow-greater}
use fuse_example.Mtree.Bounds.{probe, IsSorted-node, All-node}

module _ ⦃o : KeyOrder⦄ (key : Bytes) where
  open o use {cmp}

  -- The entries up to a key, and the first above it.
  IsLow : Entry → Type 0
  IsLow e = (cmp e.key key ≡ lt) ⊎ (cmp e.key key ≡ eq)

  abbrev StartsAbove : List Entry → Type 0
  StartsAbove [] = Unit
  StartsAbove (e ∷ es) = cmp e.key key ≡ gt

  take_upto-append :
      (xs ys : List Entry) → All IsLow xs → StartsAbove ys → take_upto key (xs ++ ys) ≡ xs
  unfolding take_upto IsLow
  take_upto-append [] [] h k = refl
  take_upto-append [] (y ∷ ys) h k = ground arith
  take_upto-append (x ∷ xs) ys (inl e, hs) k =
      rw (e, take_upto) (ap (λ t. x ∷ t) (take_upto-append xs ys hs k))
  take_upto-append (x ∷ xs) ys (inr e, hs) k =
      rw (e, take_upto) (ap (λ t. x ∷ t) (take_upto-append xs ys hs k))

  drop_upto-append :
      (xs ys : List Entry) → All IsLow xs → StartsAbove ys → drop_upto key (xs ++ ys) ≡ ys
  unfolding drop_upto IsLow
  drop_upto-append [] [] h k = refl
  drop_upto-append [] (y ∷ ys) h k = ground arith
  drop_upto-append (x ∷ xs) ys (inl e, hs) k = rw (e, drop_upto) (drop_upto-append xs ys hs k)
  drop_upto-append (x ∷ xs) ys (inr e, hs) k = rw (e, drop_upto) (drop_upto-append xs ys hs k)

  split_upto :
      (t : Tree Entry) (seen rest : List Entry) (found : Option (Position Entry))
      → inorder t ≡ seen ++ rest
      → All IsLow seen
      → StartsAbove rest
      → StandsBefore t seen rest found
      → StandsBefore t (take_upto key (inorder t)) (drop_upto key (inorder t)) found
  split_upto t seen rest found e low above stands =
      subst (λ xs. StandsBefore t xs (drop_upto key (inorder t)) found)
        (sym (ap (take_upto key) e ∙ take_upto-append seen rest low above))
        (subst (λ xs. StandsBefore t seen xs found)
          (sym (ap (drop_upto key) e ∙ drop_upto-append seen rest low above)) stands)

  IsLow-left : (l : List Entry) (a : Entry) → All (IsBelow a.key) l → IsLow a → All IsLow l
  unfolding IsLow
  IsLow-left l a below (inl e) =
      All-imp (IsBelow key) IsLow l (λ f h. inl h) (IsBelow-greater a (probe key) l e below)
  IsLow-left l a below (inr e) =
      All-imp (IsBelow key) IsLow l (λ f h. inl h) (IsBelow-equal a (probe key) l e below)

  upper_loop-Stands :
      (t : Tree Entry) (path : List (Frame Entry)) (upper : Option (Position Entry))
      → IsSorted (inorder t)
      → All IsLow (outside_left path)
      → StartsAbove (outside_right path)
      → StandsBefore (plug t path) (outside_left path) (inorder t ++ outside_right path) upper
      → StandsBefore
          (plug t path)
          (take_upto key (inorder (plug t path)))
          (drop_upto key (inorder (plug t path)))
          (upper_loop key t path upper)
  unfolding upper_loop IsLow
  upper_loop-Stands leaf path upper s low above stands =
      split_upto (plug leaf path) (outside_left path) (outside_right path) upper
        (inorder-plug leaf path) low above stands
  upper_loop-Stands (node c l a r) path upper s low above stands =
      elim (Ordering-cases (cmp a.key key)) [
        | inl e ↦
            rw (e, upper_loop)
              (upper_loop-Stands r (from_right c l a ∷ path) (some (at c l a r path)) parts.2
                (passed_low (inl e)) above here)
        | inr (inl e) ↦
            rw (e, upper_loop)
              (upper_loop-Stands r (from_right c l a ∷ path) (some (at c l a r path)) parts.2
                (passed_low (inr e)) above here)
        | inr (inr e) ↦
            rw (e, upper_loop)
              (upper_loop-Stands l (from_left c a r ∷ path) upper parts.0 low e (
                subst (λ xs. StandsBefore (plug (node c l a r) path) (outside_left path) xs upper)
                  (simp append_assoc) stands))
      ]
    where
      parts : IsSorted (inorder l) × All (IsBelow a.key) (inorder l) × IsSorted (inorder r)
      parts = IsSorted-node c l a r s

      passed_low : IsLow a → All IsLow (outside_left path ++ (inorder l ++ a ∷ []))
      passed_low h =
          All-node IsLow (outside_left path) (inorder l) a low (IsLow-left (inorder l) a parts.1 h)
            h

      here :
          StandsBefore
            (plug (node c l a r) path)
            (outside_left path ++ (inorder l ++ a ∷ []))
            (inorder r ++ outside_right path)
            (some (at c l a r path))
      here = (refl, append_assoc (outside_left path) (inorder l) (a ∷ []), refl)

  -- On a tree with strictly increasing keys `mtree_upper_bound` stands at the last entry whose
  -- key is not above the given one, and at the end if every key is above it.
  pub mtree_upper_bound-StandsBefore :
      (it : MtreeIter)
      → IsSorted (inorder it.tree)
      → StandsBefore it.tree
          (take_upto key (inorder it.tree))
          (drop_upto key (inorder it.tree))
          (mtree_upper_bound it key).current
  unfolding mtree_upper_bound
  mtree_upper_bound-StandsBefore it s = upper_loop-Stands it.tree [] none s tt tt refl
