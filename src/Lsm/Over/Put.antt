-- ===== src/Lsm/Over/Put.antt =====
-- An entry put into the first of the lists that are laid over each other, as `lsm_add` of lib/lsm.c puts it
-- into c0.
use fuse_example.Base.{◌≡◌, refl, arith, List, [], ◌∷◌, inl, inr}
use fuse_example.Lsm.Key.{Entry, KeyOrder}
use fuse_example.Mtree.Spec.{put}
use fuse_example.Mtree.Sorted.{Ordering-cases}
use fuse_example.Lsm.Over.{over, over_nil, gt_trans, eq_right}

module _ ⦃o : KeyOrder⦄ where
  open o use {cmp, cmp_opposite, lt_trans, eq_left}

  over_one : (new : Entry) (ys : List Entry) → over (new ∷ []) ys ≡ put new ys
  unfolding over put
  over_one new [] = refl
  over_one new (y ∷ ys) = ground (arith, over_one new ys, cmp_opposite new.key y.key)

  pub over-put : (new : Entry) (xs ys : List Entry) → over (put new xs) ys ≡ put new (over xs ys)
  unfolding over put
  over-put new [] ys = over_one new ys
  over-put new (x ∷ xs) [] = over_nil (put new (x ∷ xs))
  over-put new (x ∷ xs) (y ∷ ys) = elim (Ordering-cases (cmp x.key new.key)) [
    | inl e ↦ ground (
      arith,
      e,
      over-put new xs (y ∷ ys),
      over-put new xs ys,
      over-put new (x ∷ xs) ys,
      cmp_opposite x.key y.key,
      lt_trans y.key x.key new.key,
    )
    | inr (inl e) ↦ ground (
      arith,
      e,
      over-put new (x ∷ xs) ys,
      cmp_opposite x.key y.key,
      eq_left x.key new.key y.key,
      cmp_opposite new.key y.key,
    )
    | inr (inr e) ↦ ground (
      arith,
      e,
      over-put new (x ∷ xs) ys,
      cmp_opposite x.key y.key,
      cmp_opposite x.key new.key,
      cmp_opposite new.key y.key,
      gt_trans x.key new.key y.key,
      eq_right x.key new.key y.key,
      lt_trans new.key x.key y.key,
    )
  ]
