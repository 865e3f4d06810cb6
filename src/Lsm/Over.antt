-- ===== src/Lsm/Over.antt =====
-- What the merging iterator of lib/lsm.c promises: sorted lists laid over each other, where of equal
-- keys the first list's entry counts.
pub mod Below
pub mod Put
use Prim.Native.Nat.Ordering.{lt, eq, gt}
use fuse_example.Base.{◌≡◌, refl, sym, ap, ◌∙◌, arith, Option, none, some, List, [], ◌∷◌, inl, inr}
use fuse_example.Lsm.Key.{Bytes, Entry, KeyOrder, opposite}
use fuse_example.Mtree.Spec.{All, All-imp, IsSorted, drop_upto}
use fuse_example.Mtree.Sorted.{Ordering-cases, IsAbove, before, lt_of_gt}

abbrev pub head : List Entry → Option Entry
head [] = none
head (x ∷ xs) = some x

module _ ⦃o : KeyOrder⦄ where
  open o use {cmp, cmp_refl, cmp_opposite, lt_trans, eq_left}

  -- The entries of `xs` and `ys` by key; of equal keys the one in `xs`.
  unfoldable pub over : List Entry → List Entry → List Entry
  over [] ys = ys
  over (x ∷ xs) [] = x ∷ xs
  over (x ∷ xs) (y ∷ ys) = elim (cmp x.key y.key) [
    | lt ↦ x ∷ over xs (y ∷ ys)
    | eq ↦ x ∷ over xs ys
    | gt ↦ y ∷ over (x ∷ xs) ys
  ]

  unfoldable pub overlay : List (List Entry) → List Entry
  unfolding over
  overlay [] = []
  overlay (xs ∷ xss) = over xs (overlay xss)

  -- The entry with the smaller key, the first one of equal keys.
  abbrev pub least : Option Entry → Option Entry → Option Entry
  least none b = b
  least (some a) none = some a
  least (some a) (some b) = elim (cmp a.key b.key) [ gt ↦ some b | _ ↦ some a ]

  pub gt_trans : (a b c : Bytes) → cmp a b ≡ gt → cmp b c ≡ gt → cmp a c ≡ gt
  gt_trans a b c h k =
      cmp_opposite c a ∙ ap opposite (lt_trans c b a (lt_of_gt b c k) (lt_of_gt a b h))

  pub eq_right : (a b c : Bytes) → cmp b c ≡ eq → cmp a b ≡ cmp a c
  eq_right a b c h = cmp_opposite b a ∙ ap opposite (eq_left b c a h) ∙ sym (cmp_opposite c a)

  pub least_assoc : (a b c : Option Entry) → least (least a b) c ≡ least a (least b c)
  least_assoc none b c = refl
  least_assoc (some a) none c = refl
  least_assoc (some a) (some b) none = ground arith
  least_assoc (some a) (some b) (some c) = ground (
    arith,
    gt_trans a.key b.key c.key,
    lt_trans a.key b.key c.key,
    eq_left a.key b.key c.key,
    eq_right a.key b.key c.key,
  )

  head-over : (xs ys : List Entry) → head (over xs ys) ≡ least (head xs) (head ys)
  unfolding over
  head-over [] ys = refl
  head-over (x ∷ xs) [] = refl
  head-over (x ∷ xs) (y ∷ ys) = ground arith

  pub over_nil : (xs : List Entry) → over xs [] ≡ xs
  unfolding over
  over_nil [] = refl
  over_nil (x ∷ xs) = refl

  over-drop_upto :
      (key : Bytes) (xs ys : List Entry)
      → over (drop_upto key xs) (drop_upto key ys) ≡ drop_upto key (over xs ys)
  unfolding over drop_upto
  over-drop_upto key [] ys = refl
  over-drop_upto key (x ∷ xs) [] = over_nil (drop_upto key (x ∷ xs))
  over-drop_upto key (x ∷ xs) (y ∷ ys) = elim (Ordering-cases (cmp x.key y.key)) [
    | inl e ↦ ground (
      arith,
      over-drop_upto key xs (y ∷ ys),
      e,
      lt_trans x.key y.key key,
      eq_right x.key y.key key,
      gt_trans y.key x.key key,
      cmp_opposite x.key y.key,
    )
    | inr (inl e) ↦ ground (arith, over-drop_upto key xs ys, e, eq_left x.key y.key key)
    | inr (inr e) ↦ ground (arith, over-drop_upto key (x ∷ xs) ys, e, gt_trans x.key y.key key)
  ]

  drop_upto-above : (key : Bytes) (xs : List Entry) → All (IsAbove key) xs → drop_upto key xs ≡ xs
  unfolding drop_upto
  drop_upto-above key [] h = refl
  drop_upto-above key (x ∷ xs) h = ground (arith, cmp_opposite key x.key)

  over-All : (P : Entry → Type 0) (xs ys : List Entry) → All P xs → All P ys → All P (over xs ys)
  unfolding over
  over-All P [] ys h k = k
  over-All P (x ∷ xs) [] h k = h
  over-All P (x ∷ xs) (y ∷ ys) h k =
      ground (arith, over-All P xs (y ∷ ys), over-All P xs ys, over-All P (x ∷ xs) ys)

  over-IsSorted : (xs ys : List Entry) → IsSorted xs → IsSorted ys → IsSorted (over xs ys)
  unfolding over
  over-IsSorted [] ys s t = t
  over-IsSorted (x ∷ xs) [] s t = s
  over-IsSorted (x ∷ xs) (y ∷ ys) s t = elim (Ordering-cases (cmp x.key y.key)) [
    | inl e ↦
        rw (over, e)
          (
            over-All (IsAbove x.key) xs (y ∷ ys) s.0 (
              e,
              All-imp (IsAbove y.key) (IsAbove x.key) ys (λ f h. lt_trans x.key y.key f.key e h)
                  t.0,
            ),
            over-IsSorted xs (y ∷ ys) s.1 t,
          )
    | inr (inl e) ↦
        rw (over, e)
          (
            over-All (IsAbove x.key) xs ys s.0 (
                All-imp (IsAbove y.key) (IsAbove x.key) ys (λ f h. eq_left x.key y.key f.key e ∙ h)
                  t.0),
            over-IsSorted xs ys s.1 t.1,
          )
    | inr (inr e) ↦
        rw (over, e)
          (
            over-All (IsAbove y.key) (x ∷ xs) ys (lt_of_gt x.key y.key e, before x y xs e s.0) t.0,
            over-IsSorted (x ∷ xs) ys s t.1,
          )
  ]

  abbrev pub least_of : List (List Entry) → Option Entry
  least_of [] = none
  least_of (xs ∷ xss) = least (head xs) (least_of xss)

  pub head-overlay : (xss : List (List Entry)) → head (overlay xss) ≡ least_of xss
  unfolding overlay
  head-overlay [] = refl
  head-overlay (xs ∷ xss) = head-over xs (overlay xss) ∙ ap (least (head xs)) (head-overlay xss)

  abbrev pub drop_all : Bytes → List (List Entry) → List (List Entry)
  drop_all key [] = []
  drop_all key (xs ∷ xss) = drop_upto key xs ∷ drop_all key xss

  overlay-drop_all :
      (key : Bytes) (xss : List (List Entry))
      → overlay (drop_all key xss) ≡ drop_upto key (overlay xss)
  unfolding overlay drop_upto
  overlay-drop_all key [] = refl
  overlay-drop_all key (xs ∷ xss) =
      ap (over (drop_upto key xs)) (overlay-drop_all key xss) ∙ over-drop_upto key xs (overlay xss)

  pub overlay-IsSorted : (xss : List (List Entry)) → All IsSorted xss → IsSorted (overlay xss)
  unfolding overlay
  overlay-IsSorted [] s = tt
  overlay-IsSorted (xs ∷ xss) s = over-IsSorted xs (overlay xss) s.0 (overlay-IsSorted xss s.1)

  drop_upto-head : (x : Entry) (xs : List Entry) → IsSorted (x ∷ xs) → drop_upto x.key (x ∷ xs) ≡ xs
  unfolding drop_upto
  drop_upto-head x xs s = rw (drop_upto, cmp_refl x.key) (drop_upto-above x.key xs s.0)

  -- One step of the merge.
  pub overlay_step :
      (xss : List (List Entry)) (e : Entry)
      → All IsSorted xss
      → least_of xss ≡ some e
      → overlay xss ≡ e ∷ overlay (drop_all e.key xss)
  overlay_step xss e s h =
      step (overlay xss) (overlay-IsSorted xss s) (head-overlay xss ∙ h)
        (overlay-drop_all e.key xss)
    where
      step :
          (ys : List Entry)
          → IsSorted ys
          → head ys ≡ some e
          → overlay (drop_all e.key xss) ≡ drop_upto e.key ys
          → ys ≡ e ∷ overlay (drop_all e.key xss)
      step [] s h d = cc
      step (y ∷ ys) s h d =
          let same : y ≡ e = cc h in
          ap (λ x. x ∷ ys) same
          ∙ ap (λ zs. e ∷ zs)
              (sym (d ∙ ap (λ x. drop_upto x.key (y ∷ ys)) (sym same) ∙ drop_upto-head y ys s))

  pub overlay_over : (xss : List (List Entry)) → least_of xss ≡ none → overlay xss ≡ []
  overlay_over xss h = empty (overlay xss) (head-overlay xss ∙ h)
    where
      empty : (ys : List Entry) → head ys ≡ none → ys ≡ []
      empty [] h = refl
      empty (y ∷ ys) h = cc

  drop_upto-IsSorted : (key : Bytes) (xs : List Entry) → IsSorted xs → IsSorted (drop_upto key xs)
  unfolding drop_upto
  drop_upto-IsSorted key [] s = tt
  drop_upto-IsSorted key (x ∷ xs) s = ground (arith, drop_upto-IsSorted key xs s.1)

  pub drop_all-IsSorted :
      (key : Bytes) (xss : List (List Entry)) → All IsSorted xss → All IsSorted (drop_all key xss)
  drop_all-IsSorted key [] s = tt
  drop_all-IsSorted key (xs ∷ xss) s =
      (drop_upto-IsSorted key xs s.0, drop_all-IsSorted key xss s.1)
