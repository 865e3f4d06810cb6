-- ===== src/Mtree/Insert.antt =====
-- `mtree_add` of lib/mtree.c: the new entry goes to its place in the order, a tree stays a
-- red-black tree, and no null pointer is followed.
use Prim.Native.Nat.Ordering.{lt, eq, gt}
use mathlib.Core.Path.{subst}
use fuse_example.Base.{
  false, ◌≡◌, refl, sym, ap, ◌∙◌, Option, some, List, [], ◌∷◌, ◌++◌, append_assoc, append-nil, inl,
  inr, ◌⊎◌,
}
use fuse_example.Lsm.Key.{Entry, KeyOrder}
use fuse_example.RbTree.{
  Color, red, black, is_red, Tree, leaf, node, Frame, from_left, from_right, at, plug,
  rb_swap_nodes,
}
use fuse_example.RbTree.Inorder.{inorder, inorder-plug, outside_left, outside_right}
use fuse_example.RbTree.Insert.{rb_insert}
use fuse_example.RbTree.Insert.Balance.{IsRbTree, rb_insert-EndsBalanced, plug-IsRbTree}
use fuse_example.RbTree.Insert.Descend.{Hangs, root-Hangs, left-Hangs, right-Hangs}
use fuse_example.RbTree.Insert.Order.{inorder-rb_insert}
use fuse_example.Mtree.{mtree_insert}
use fuse_example.Mtree.Spec.{All, append-All, ◌≺◌, IsSorted, put}
use fuse_example.Mtree.Sorted.{
  Ordering-cases, IsBelow, IsAbove, IsSorted-append, put-append, put-above, put-equal, put-IsSorted,
  IsBelow-equal, IsBelow-greater, before, lt_of_gt,
}

module _ ⦃o : KeyOrder⦄ where
  open o use {cmp, cmp_opposite, lt_trans, eq_left}

  -- What the descent knows: the subtree hangs soundly, and the new key belongs into it.
  record Seeks (t : Tree Entry) (path : List (Frame Entry)) (new : Entry) : Type 0 where
    hangs : Hangs t path
    sorted : IsSorted (inorder t)
    left : All (IsBelow new.key) (outside_left path)
    right : All (IsAbove new.key) (outside_right path)

  record Inserts (t : Tree Entry) (path : List (Frame Entry)) (new : Entry)
      (found : Option (Tree Entry)) : Type 0 where
    tree : Tree Entry
    returned : found ≡ some tree
    is_rb : IsRbTree tree
    items : inorder tree ≡ outside_left path ++ put new (inorder t ++ outside_right path)

  recolor_top :
      {T : Type 0} (c : Color) (l r : Tree Entry) (old new : Entry)
      → (is_red (node c l old r) ≡ false) ⊎ T
      → (is_red (node c l new r) ≡ false) ⊎ T
  recolor_top red l r old new h = h
  recolor_top black l r old new h = h

  module _ (c : Color) (l : Tree Entry) (old : Entry) (r : Tree Entry) (path : List (Frame Entry))
      (new : Entry) (s : Seeks (node c l old r) path new) where
    IsBelow-old : All (IsBelow old.key) (inorder l)
    IsBelow-old = (IsSorted-append (inorder l) old (inorder r) s.sorted).1

    IsAbove-old : All (IsAbove old.key) (inorder r)
    IsAbove-old = (IsSorted-append (inorder l) old (inorder r) s.sorted).2.0

    IsBelow-new : old.key ≺ new.key → All (IsBelow new.key) (inorder l ++ old ∷ [])
    IsBelow-new e =
        append-All (IsBelow new.key) (inorder l) (old ∷ [])
          (IsBelow-greater old new (inorder l) e IsBelow-old) (e, tt)

    seek_right : cmp old.key new.key ≡ lt → Seeks r (from_right c l old ∷ path) new
    seek_right e = record {
      hangs = right-Hangs c l old r path s.hangs;
      sorted = (IsSorted-append (inorder l) old (inorder r) s.sorted).2.1;
      left =
          append-All (IsBelow new.key) (outside_left path) (inorder l ++ old ∷ []) s.left
            (IsBelow-new e);
      right = s.right;
    }

    seek_left : cmp old.key new.key ≡ gt → Seeks l (from_left c old r ∷ path) new
    seek_left e = record {
      hangs = left-Hangs c l old r path s.hangs;
      sorted = (IsSorted-append (inorder l) old (inorder r) s.sorted).0;
      left = s.left;
      right = (
        lt_of_gt old.key new.key e,
        append-All (IsAbove new.key) (inorder r) (outside_right path)
            (before old new (inorder r) e IsAbove-old) s.right,
      );
    }

    from_right-Inserts :
        {found : Option (Tree Entry)}
        → cmp old.key new.key ≡ lt
        → Inserts r (from_right c l old ∷ path) new found
        → Inserts (node c l old r) path new found
    from_right-Inserts e h = record {
      tree = h.tree;
      returned = h.returned;
      is_rb = h.is_rb;
      items =
          h.items
          ∙ append_assoc (outside_left path) (inorder l ++ old ∷ [])
              (put new (inorder r ++ outside_right path))
          ∙ ap (λ xs. outside_left path ++ xs)
              (sym (
                  put-append new (inorder l ++ old ∷ []) (inorder r ++ outside_right path)
                    (IsBelow-new e))
                ∙ ap (put new) (simp append_assoc));
    }

    from_left-Inserts :
        {found : Option (Tree Entry)}
        → Inserts l (from_left c old r ∷ path) new found
        → Inserts (node c l old r) path new found
    from_left-Inserts h = record {
      tree = h.tree;
      returned = h.returned;
      is_rb = h.is_rb;
      items = h.items ∙ ap (λ xs. outside_left path ++ put new xs) (simp append_assoc);
    }

    replace-Inserts :
        cmp old.key new.key ≡ eq
        → Inserts (node c l old r) path new (some (rb_swap_nodes (at c l old r path) new))
    unfolding rb_swap_nodes
    replace-Inserts e = record {
      tree = plug (node c l new r) path;
      returned = refl;
      is_rb =
          plug-IsRbTree (node c l new r) path s.hangs.balanced
            (recolor_top c l r old new s.hangs.top) s.hangs.path_fits;
      items =
          inorder-plug (node c l new r) path
          ∙ ap (λ xs. outside_left path ++ xs)
              (append_assoc (inorder l) (new ∷ inorder r) (outside_right path)
                ∙ ap (λ xs. inorder l ++ xs)
                    (sym (put-equal new old (inorder r ++ outside_right path) e))
                ∙ sym (
                    put-append new (inorder l) (old ∷ (inorder r ++ outside_right path))
                      (IsBelow-equal old new (inorder l) e IsBelow-old))
                ∙ ap (put new) (simp append_assoc));
    }

  link-Inserts :
      (path : List (Frame Entry)) (new : Entry)
      → Seeks leaf path new
      → Inserts leaf path new (rb_insert (node red leaf new leaf) path)
  link-Inserts path new s =
      let (tree, e, rb) =
        rb_insert-EndsBalanced leaf new leaf path (refl, (refl, refl), tt, tt) s.hangs.path_fits in
      record {
        tree = tree;
        returned = e;
        is_rb = rb;
        items =
            inorder-rb_insert (node red leaf new leaf) path e
            ∙ inorder-plug (node red leaf new leaf) path
            ∙ ap (λ xs. outside_left path ++ xs) (sym (put-above new (outside_right path) s.right));
      }

  mtree_insert-Inserts :
      (t : Tree Entry) (path : List (Frame Entry)) (new : Entry)
      → Seeks t path new
      → Inserts t path new (mtree_insert t path new)
  unfolding mtree_insert
  mtree_insert-Inserts leaf path new s = link-Inserts path new s
  mtree_insert-Inserts (node c l old r) path new s = elim (Ordering-cases (cmp old.key new.key)) [
    | inl e ↦
        rw (e, mtree_insert)
          (from_right-Inserts c l old r path new s e (
            mtree_insert-Inserts r (from_right c l old ∷ path) new
              (seek_right c l old r path new s e)))
    | inr (inl e) ↦ rw (e, mtree_insert) (replace-Inserts c l old r path new s e)
    | inr (inr e) ↦
        rw (e, mtree_insert)
          (from_left-Inserts c l old r path new s (
            mtree_insert-Inserts l (from_left c old r ∷ path) new
              (seek_left c l old r path new s e)))
  ]

  -- On a red-black tree with strictly increasing keys `__mtree_insert` follows no null pointer,
  -- and leaves a red-black tree with strictly increasing keys whose entries are the old ones with
  -- the new one in its place, an entry with an equal key replaced.
  pub mtree_insert-put :
      (t : Tree Entry) (new : Entry)
      → IsRbTree t
      → IsSorted (inorder t)
      → (u : Tree Entry) × (mtree_insert t [] new ≡ some u)
        × IsRbTree u
        × (inorder u ≡ put new (inorder t))
        × IsSorted (inorder u)
  mtree_insert-put t new h s =
      let found : Inserts t [] new (mtree_insert t [] new) =
        mtree_insert-Inserts t [] new
          (record { hangs = root-Hangs t h; sorted = s; left = tt; right = tt }) in
      let items : inorder found.tree ≡ put new (inorder t) =
        found.items ∙ ap (put new) (append-nil (inorder t)) in
      (
        found.tree,
        found.returned,
        found.is_rb,
        items,
        subst IsSorted (sym items) (put-IsSorted new (inorder t) s),
      )
