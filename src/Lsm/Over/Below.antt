-- ===== src/Lsm/Over/Below.antt =====
-- What a search of lib/lsm.c leaves of lists that are laid over each other: the entries from a key on.
use fuse_example.Base.{◌≡◌, refl, ap, ◌∙◌, arith, List, [], ◌∷◌, inl, inr}
use fuse_example.Lsm.Key.{Bytes, Entry, KeyOrder}
use fuse_example.Mtree.Spec.{All, IsSorted, drop_below}
use fuse_example.Mtree.Lookup.{drop_below-IsSorted}
use fuse_example.Mtree.Sorted.{Ordering-cases}
use fuse_example.Lsm.Over.{over, over_nil, overlay, gt_trans, eq_right}

module _ ⦃o : KeyOrder⦄ where
  open o use {cmp, cmp_opposite, lt_trans, eq_left}

  over-drop_below :
      (key : Bytes) (xs ys : List Entry)
      → over (drop_below key xs) (drop_below key ys) ≡ drop_below key (over xs ys)
  unfolding over drop_below
  over-drop_below key [] ys = refl
  over-drop_below key (x ∷ xs) [] = over_nil (drop_below key (x ∷ xs))
  over-drop_below key (x ∷ xs) (y ∷ ys) = elim (Ordering-cases (cmp x.key y.key)) [
    | inl e ↦ ground (
      arith,
      over-drop_below key xs (y ∷ ys),
      e,
      lt_trans x.key y.key key,
      eq_right x.key y.key key,
      cmp_opposite x.key y.key,
    )
    | inr (inl e) ↦ ground (arith, over-drop_below key xs ys, e, eq_left x.key y.key key)
    | inr (inr e) ↦ ground (
      arith,
      over-drop_below key (x ∷ xs) ys,
      e,
      gt_trans x.key y.key key,
      eq_right x.key y.key key,
      lt_trans y.key x.key key,
      cmp_opposite x.key y.key,
    )
  ]

  abbrev pub drop_each : Bytes → List (List Entry) → List (List Entry)
  drop_each key [] = []
  drop_each key (xs ∷ xss) = drop_below key xs ∷ drop_each key xss

  pub overlay-drop_each :
      (key : Bytes) (xss : List (List Entry))
      → overlay (drop_each key xss) ≡ drop_below key (overlay xss)
  unfolding overlay drop_below
  overlay-drop_each key [] = refl
  overlay-drop_each key (xs ∷ xss) =
      ap (over (drop_below key xs)) (overlay-drop_each key xss)
      ∙ over-drop_below key xs (overlay xss)

  pub drop_each-IsSorted :
      (key : Bytes) (xss : List (List Entry)) → All IsSorted xss → All IsSorted (drop_each key xss)
  drop_each-IsSorted key [] s = tt
  drop_each-IsSorted key (xs ∷ xss) s =
      (drop_below-IsSorted key xs s.0, drop_each-IsSorted key xss s.1)
