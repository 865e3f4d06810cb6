-- ===== src/Mtree/Sorted.antt =====
-- Sorted entries around a key: `put` and the two splits at a place in the middle.
use Prim.Native.Nat.{Ordering}
use Prim.Native.Nat.Ordering.{lt, eq, gt}
use fuse_example.Base.{◌≡◌, refl, sym, ap, ◌∙◌, List, [], ◌∷◌, ◌++◌, arith, ◌⊎◌, inl, inr}
use fuse_example.Lsm.Key.{Bytes, Entry, KeyOrder, opposite}
use fuse_example.Mtree.Spec.{All, All-append, All-imp, ◌≺◌, IsSorted, put, take_below, drop_below}

pub Ordering-cases : (c : Ordering) → (c ≡ lt) ⊎ ((c ≡ eq) ⊎ (c ≡ gt))
Ordering-cases lt = inl refl
Ordering-cases eq = inr (inl refl)
Ordering-cases gt = inr (inr refl)

module _ ⦃o : KeyOrder⦄ where
  open o use {cmp, cmp_opposite, lt_trans, eq_left}

  pub lt_of_gt : (a b : Bytes) → cmp a b ≡ gt → b ≺ a
  lt_of_gt a b e = cmp_opposite a b ∙ ap opposite e

  abbrev pub IsBelow : Bytes → Entry → Type 0
  IsBelow key e = e.key ≺ key

  abbrev pub IsAbove : Bytes → Entry → Type 0
  IsAbove key e = key ≺ e.key

  pub IsSorted-append :
      (xs : List Entry) (a : Entry) (ys : List Entry)
      → IsSorted (xs ++ a ∷ ys)
      → IsSorted xs × All (IsBelow a.key) xs × IsSorted (a ∷ ys)
  IsSorted-append [] a ys s = (tt, tt, s)
  IsSorted-append (x ∷ xs) a ys s =
      let (sx, below, sa) = IsSorted-append xs a ys s.1 in
      let (fore, rear) = All-append (λ f. x.key ≺ f.key) xs (a ∷ ys) s.0 in
      ((fore, sx), (rear.0, below), sa)

  -- `put` goes past the entries below its key.
  pub put-append :
      (new : Entry) (xs ys : List Entry)
      → All (IsBelow new.key) xs
      → put new (xs ++ ys) ≡ xs ++ put new ys
  unfolding put
  put-append new [] ys h = refl
  put-append new (x ∷ xs) ys h = rw h.0 (ap (λ t. x ∷ t) (put-append new xs ys h.1))

  pub put-above : (new : Entry) (ys : List Entry) → All (IsAbove new.key) ys → put new ys ≡ new ∷ ys
  unfolding put
  put-above new [] h = refl
  put-above new (y ∷ ys) h = ground (arith, cmp_opposite new.key y.key, h.0)

  -- What is below a key is below an equal one, and below a greater one.
  pub IsBelow-equal :
      (old new : Entry) (xs : List Entry)
      → cmp old.key new.key ≡ eq
      → All (IsBelow old.key) xs
      → All (IsBelow new.key) xs
  IsBelow-equal old new xs e = All-imp (IsBelow old.key) (IsBelow new.key) xs λ f h.
      lt_of_gt new.key f.key
        (sym (eq_left old.key new.key f.key e) ∙ cmp_opposite f.key old.key ∙ ap opposite h)

  pub IsBelow-greater :
      (old new : Entry) (xs : List Entry)
      → old.key ≺ new.key
      → All (IsBelow old.key) xs
      → All (IsBelow new.key) xs
  IsBelow-greater old new xs e =
      All-imp (IsBelow old.key) (IsBelow new.key) xs λ f h. lt_trans f.key old.key new.key h e

  pub put-equal :
      (new old : Entry) (ys : List Entry) → cmp old.key new.key ≡ eq → put new (old ∷ ys) ≡ new ∷ ys
  unfolding put
  put-equal new old ys e = rw (e, put)

  put-All-IsAbove :
      (x : Entry) (new : Entry) (ys : List Entry)
      → x.key ≺ new.key
      → All (IsAbove x.key) ys
      → All (IsAbove x.key) (put new ys)
  unfolding put
  put-All-IsAbove x new [] h a = (h, tt)
  put-All-IsAbove x new (y ∷ ys) h a = ground (arith, put-All-IsAbove x new ys h)

  -- What is above a key is above an equal one, and above a smaller one.
  replaced :
      (y new : Entry) (ys : List Entry)
      → cmp y.key new.key ≡ eq
      → All (IsAbove y.key) ys
      → All (IsAbove new.key) ys
  replaced y new ys e =
      All-imp (IsAbove y.key) (IsAbove new.key) ys λ f h. sym (eq_left y.key new.key f.key e) ∙ h

  pub before :
      (y new : Entry) (ys : List Entry)
      → cmp y.key new.key ≡ gt
      → All (IsAbove y.key) ys
      → All (IsAbove new.key) ys
  before y new ys e =
      All-imp (IsAbove y.key) (IsAbove new.key) ys
        λ f h. lt_trans new.key y.key f.key (lt_of_gt y.key new.key e) h

  -- `put` keeps the order strict.
  pub put-IsSorted : (new : Entry) (ys : List Entry) → IsSorted ys → IsSorted (put new ys)
  unfolding put
  put-IsSorted new [] s = (tt, tt)
  put-IsSorted new (y ∷ ys) s = ground (
    arith,
    put-IsSorted new ys,
    put-All-IsAbove y new ys,
    cmp_opposite y.key new.key,
    replaced y new ys,
    before y new ys,
  )

  pub take_below-append :
      (key : Bytes) (xs ys : List Entry)
      → All (IsBelow key) xs
      → take_below key (xs ++ ys) ≡ xs ++ take_below key ys
  unfolding take_below
  take_below-append key [] ys h = refl
  take_below-append key (x ∷ xs) ys h = rw h.0 (ap (λ t. x ∷ t) (take_below-append key xs ys h.1))

  pub drop_below-append :
      (key : Bytes) (xs ys : List Entry)
      → All (IsBelow key) xs
      → drop_below key (xs ++ ys) ≡ drop_below key ys
  unfolding drop_below
  drop_below-append key [] ys h = refl
  drop_below-append key (x ∷ xs) ys h = rw h.0 (drop_below-append key xs ys h.1)
