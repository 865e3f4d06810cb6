-- ===== src/RbTree/Erase/Order.antt =====
-- `rb_erase` removes the item of its node and keeps the others in order.
use mathlib.Core.Path.{subst}
use fuse_example.Base.{
  ℕ, zero, suc, ◌+◌, ◌≡◌, refl, sym, ap, ◌∙◌, Option, none, some, List, [], ◌∷◌, ◌++◌, append_assoc,
  append-nil, length, Bool-cases, inl, inr, ◌&&◌,
}
use fuse_example.Errors.{Run, done, fail, fault, out_of_fuel}
use fuse_example.RbTree.{
  Color, red, black, Tree, leaf, node, Frame, from_left, from_right, Position, at, plug, is_black,
  set_black, set_color, leftmost, rotate_left, rotate_right,
}
use fuse_example.RbTree.Erase.{
  Round, again, stop, raise_right, raise_left, turn_right, turn_left, lend_right, lend_left,
  blacken_right, blacken_left, round_left, round_right, erase_round, erase_step, rb_erase_fix,
  after_unlink, replace_by, rb_erase, resume,
}
use fuse_example.RbTree.Inorder.{
  inorder, ahead, outside_left, outside_right, passed, inorder-plug, plug-cong, inorder-set_color,
}
use fuse_example.RbTree.Insert.{◌>>=◌}
use fuse_example.RbTree.Insert.Order.{Yields, Yields-eq, rotate_left-Yields, rotate_right-Yields}
use fuse_example.RbTree.Walk.{behind, leftmost-Stands}

module _ {ℓ} {A : Type ℓ} where
  -- The round keeps the items of the whole tree.
  abbrev RoundYields : List A → Option (Round A) → Type ℓ
  RoundYields xs none = Unit
  RoundYields xs (some (again t path)) = inorder (plug t path) ≡ xs
  RoundYields xs (some (stop t)) = inorder t ≡ xs

  -- If a tree comes back, its items are `xs`.
  abbrev RunYields : List A → Run (Tree A) → Type ℓ
  RunYields xs (done t) = inorder t ≡ xs
  RunYields xs (fail e) = Unit
  RunYields xs fault = Unit
  RunYields xs out_of_fuel = Unit

  stopped :
      (s t : Tree A) (path : List (Frame A))
      → inorder s ≡ inorder t
      → RoundYields (inorder (plug t path)) (some (stop (set_black (plug s path))))
  stopped s t path e = inorder-set_color black (plug s path) ∙ plug-cong s t path e

  RoundYields-bind :
      (xs : List A) (o : Option (Tree A)) (f : Tree A → Option (Round A))
      → ((t : Tree A) → o ≡ some t → RoundYields xs (f t))
      → RoundYields xs (o >>= f)
  RoundYields-bind xs none f h = tt
  RoundYields-bind xs (some t) f h = h t refl

  turn_right-Yields :
      (c : Color) (l : Tree A) (b : A) (r : Tree A)
      → Yields (inorder l ++ b ∷ inorder r) (turn_right c l b r)
  unfolding turn_right
  turn_right-Yields c l b r = elim (Bool-cases (is_black r)) [
    | inl e ↦ rw e (
        subst (λ xs. Yields (xs ++ b ∷ inorder r) (rotate_right (node red (set_black l) b r)))
          (inorder-set_color black l) (rotate_right-Yields (node red (set_black l) b r)))
    | inr e ↦ rw e refl
  ]

  turn_left-Yields :
      (c : Color) (l : Tree A) (b : A) (r : Tree A)
      → Yields (inorder l ++ b ∷ inorder r) (turn_left c l b r)
  unfolding turn_left
  turn_left-Yields c l b r = elim (Bool-cases (is_black l)) [
    | inl e ↦ rw e (
        subst (λ xs. Yields (inorder l ++ b ∷ xs) (rotate_left (node red l b (set_black r))))
          (inorder-set_color black r) (rotate_left-Yields (node red l b (set_black r))))
    | inr e ↦ rw e refl
  ]

  inorder-blacken_right :
      (c : Color) (b : Tree A) → inorder (set_color c (blacken_right b)) ≡ inorder b
  unfolding blacken_right
  inorder-blacken_right c leaf = refl
  inorder-blacken_right c (node d l b r) =
      ap (λ xs. inorder l ++ b ∷ xs) (inorder-set_color black r)

  inorder-blacken_left :
      (c : Color) (b : Tree A) → inorder (set_color c (blacken_left b)) ≡ inorder b
  unfolding blacken_left
  inorder-blacken_left c leaf = refl
  inorder-blacken_left c (node d l b r) = ap (λ xs. xs ++ b ∷ inorder r) (inorder-set_color black l)

  lend_right-Yields :
      (c : Color) (t : Tree A) (a : A) (b : Tree A)
      → Yields (inorder t ++ a ∷ inorder b) (lend_right c t a b)
  unfolding lend_right
  lend_right-Yields c t a b =
      subst
        (λ xs.
          Yields (inorder t ++ a ∷ xs)
            (rotate_left (node black t a (set_color c (blacken_right b)))))
        (inorder-blacken_right c b)
        (rotate_left-Yields (node black t a (set_color c (blacken_right b))))

  lend_left-Yields :
      (c : Color) (b : Tree A) (a : A) (t : Tree A)
      → Yields (inorder b ++ a ∷ inorder t) (lend_left c b a t)
  unfolding lend_left
  lend_left-Yields c b a t =
      subst
        (λ xs.
          Yields (xs ++ a ∷ inorder t)
            (rotate_right (node black (set_color c (blacken_left b)) a t)))
        (inorder-blacken_left c b)
        (rotate_right-Yields (node black (set_color c (blacken_left b)) a t))

  round_left-RoundYields :
      (t : Tree A) (c : Color) (a : A) (b : Tree A) (path : List (Frame A))
      → RoundYields (inorder (plug (node c t a b) path)) (round_left t c a b path)
  unfolding round_left
  round_left-RoundYields t c a leaf path = tt
  round_left-RoundYields t c a (node bc bl b br) path =
      elim (Bool-cases (is_black bl && is_black br)) [
        | inl e ↦
            rw e
              (plug-cong (node c t a (node red bl b br)) (node c t a (node bc bl b br)) path refl)
        | inr e ↦ rw e (
            RoundYields-bind _ (turn_right bc bl b br) _ λ b' e1.
              RoundYields-bind _ (lend_right c t a b') _ λ s e2.
                stopped s (node c t a (node bc bl b br)) path (
                  Yields-eq s e2 (lend_right-Yields c t a b')
                  ∙ ap (λ xs. inorder t ++ a ∷ xs)
                      (Yields-eq b' e1 (turn_right-Yields bc bl b br))))
      ]

  round_right-RoundYields :
      (t : Tree A) (c : Color) (b : Tree A) (a : A) (path : List (Frame A))
      → RoundYields (inorder (plug (node c b a t) path)) (round_right t c b a path)
  unfolding round_right
  round_right-RoundYields t c leaf a path = tt
  round_right-RoundYields t c (node bc bl b br) a path =
      elim (Bool-cases (is_black br && is_black bl)) [
        | inl e ↦
            rw e
              (plug-cong (node c (node red bl b br) a t) (node c (node bc bl b br) a t) path refl)
        | inr e ↦ rw e (
            RoundYields-bind _ (turn_left bc bl b br) _ λ b' e1.
              RoundYields-bind _ (lend_left c b' a t) _ λ s e2.
                stopped s (node c (node bc bl b br) a t) path (
                  Yields-eq s e2 (lend_left-Yields c b' a t)
                  ∙ ap (λ xs. xs ++ a ∷ inorder t) (Yields-eq b' e1 (turn_left-Yields bc bl b br))))
      ]

  -- A red sibling comes up first.
  raised :
      (s t : Tree A) (path : List (Frame A)) (o : Option (Round A))
      → inorder s ≡ inorder t
      → RoundYields (inorder (plug s path)) o
      → RoundYields (inorder (plug t path)) o
  raised s t path o e y = subst (λ xs. RoundYields xs o) (plug-cong s t path e) y

  erase_round-RoundYields :
      (t : Tree A) (f : Frame A) (path : List (Frame A))
      → RoundYields (inorder (plug t (f ∷ path))) (erase_round t f path)
  unfolding erase_round raise_right raise_left
  erase_round-RoundYields t (from_left c a leaf) path = round_left-RoundYields t c a leaf path
  erase_round-RoundYields t (from_left c a (node black l b r)) path =
      round_left-RoundYields t c a (node black l b r) path
  erase_round-RoundYields t (from_left c a (node red l b r)) path =
      raised (node black (node red t a l) b r) (node c t a (node red l b r)) path _
        (simp append_assoc) (round_left-RoundYields t red a l (from_left black b r ∷ path))
  erase_round-RoundYields t (from_right c leaf a) path = round_right-RoundYields t c leaf a path
  erase_round-RoundYields t (from_right c (node black l b r) a) path =
      round_right-RoundYields t c (node black l b r) a path
  erase_round-RoundYields t (from_right c (node red l b r) a) path =
      raised (node black l b (node red r a t)) (node c (node red l b r) a t) path _
        (simp append_assoc) (round_right-RoundYields t red r a (from_right black l b ∷ path))

  erase_step-RoundYields :
      (t : Tree A) (path : List (Frame A)) → RoundYields (inorder (plug t path)) (erase_step t path)
  unfolding erase_step
  erase_step-RoundYields t [] = inorder-set_color black t
  erase_step-RoundYields t (f ∷ path) = elim (Bool-cases (is_black t)) [
    | inl e ↦ rw e (erase_round-RoundYields t f path)
    | inr e ↦ rw e (plug-cong (set_black t) t (f ∷ path) (inorder-set_color black t))
  ]

  resume-RunYields :
      (xs : List A) (next : Tree A → List (Frame A) → Run (Tree A)) (o : Option (Round A))
      → RoundYields xs o
      → ((t : Tree A) (path : List (Frame A)) → RunYields (inorder (plug t path)) (next t path))
      → RunYields xs (resume next o)
  resume-RunYields xs next none y h = tt
  resume-RunYields xs next (some (stop t)) y h = y
  resume-RunYields xs next (some (again t path)) y h =
      subst (λ ys. RunYields ys (next t path)) y (h t path)

  rb_erase_fix-RunYields :
      (fuel : ℕ) (t : Tree A) (path : List (Frame A))
      → RunYields (inorder (plug t path)) (rb_erase_fix fuel t path)
  unfolding rb_erase_fix
  rb_erase_fix-RunYields zero t path = tt
  rb_erase_fix-RunYields (suc fuel) t path =
      resume-RunYields (inorder (plug t path)) (λ u up. rb_erase_fix fuel u up) (erase_step t path)
        (erase_step-RoundYields t path) λ u up. rb_erase_fix-RunYields fuel u up

  after_unlink-RunYields :
      (c : Color) (t : Tree A) (path : List (Frame A))
      → RunYields (inorder (plug t path)) (after_unlink c t path)
  unfolding after_unlink
  after_unlink-RunYields red t path = refl
  after_unlink-RunYields black t path = rb_erase_fix-RunYields (length path + 2) t path

  outside_left-append :
      (inner path : List (Frame A))
      → outside_left (inner ++ path) ≡ outside_left path ++ outside_left inner
  outside_left-append [] path = sym (append-nil (outside_left path))
  outside_left-append (from_left c a r ∷ inner) path = outside_left-append inner path
  outside_left-append (from_right c l a ∷ inner) path =
      ap (λ xs. xs ++ (inorder l ++ a ∷ [])) (outside_left-append inner path)
      ∙ append_assoc (outside_left path) (outside_left inner) (inorder l ++ a ∷ [])

  outside_right-append :
      (inner path : List (Frame A))
      → outside_right (inner ++ path) ≡ outside_right inner ++ outside_right path
  outside_right-append [] path = refl
  outside_right-append (from_left c a r ∷ inner) path =
      ap (λ xs. a ∷ (inorder r ++ xs)) (outside_right-append inner path)
      ∙ ap (λ xs. a ∷ xs)
          (sym (append_assoc (inorder r) (outside_right inner) (outside_right path)))
  outside_right-append (from_right c l a ∷ inner) path = outside_right-append inner path

  -- A position that is the first of the items `xs`.
  record IsFirst (xs : List A) (p : Position A) : Type ℓ where
    unseen : passed p ≡ []
    all : ahead (some p) ≡ xs

  nil_of_append : (xs ys : List A) → xs ++ ys ≡ [] → xs ≡ []
  nil_of_append [] ys e = refl
  nil_of_append (x ∷ xs) ys e = cc

  replaced-inorder :
      (c : Color) (l : Tree A) (path : List (Frame A)) (x : A) (xr : Tree A)
      (inner : List (Frame A)) (xs : List A)
      → outside_left inner ≡ []
      → x ∷ (inorder xr ++ outside_right inner) ≡ xs
      → inorder (plug xr (inner ++ from_right c l x ∷ path))
        ≡ outside_left path ++ (inorder l ++ (xs ++ outside_right path))
  replaced-inorder c l path x xr inner xs e h =
      inorder-plug xr (inner ++ from_right c l x ∷ path)
      ∙ simp (outside_left-append, outside_right-append, e, append-nil, append_assoc, sym h)

  -- The place of the successor, once the items it leads are `inorder r` without a node `a`.
  replace_by-RunYields :
      (c : Color) (l : Tree A) (path : List (Frame A)) (xs : List A) (p : Position A)
      → IsFirst xs p
      → RunYields
          (outside_left path ++ (inorder l ++ (xs ++ outside_right path)))
          (replace_by c l path p)
  unfolding replace_by
  replace_by-RunYields c l path xs (at xc xl x xr inner) f =
      subst (λ ys. RunYields ys (after_unlink xc xr (inner ++ from_right c l x ∷ path)))
        (replaced-inorder c l path x xr inner xs
          (nil_of_append (outside_left inner) (inorder xl) f.unseen) f.all)
        (after_unlink-RunYields xc xr (inner ++ from_right c l x ∷ path))

  rb_erase-RunYields : (p : Position A) → RunYields (passed p ++ behind p) (rb_erase p)
  unfolding rb_erase
  rb_erase-RunYields (at c leaf a r path) =
      subst (λ ys. RunYields ys (after_unlink c r path)) (inorder-plug r path ∙ simp append-nil)
        (after_unlink-RunYields c r path)
  rb_erase-RunYields (at c (node lc ll la lr) a leaf path) =
      subst (λ ys. RunYields ys (after_unlink c (node lc ll la lr) path))
        (inorder-plug (node lc ll la lr) path ∙ simp append_assoc)
        (after_unlink-RunYields c (node lc ll la lr) path)
  rb_erase-RunYields (at c (node lc ll la lr) a (node rc rl ra rr) path) =
      let (tree, seen, rest) = leftmost-Stands rc rl ra rr [] in
      subst (λ ys. RunYields ys (replace_by c (node lc ll la lr) path (leftmost rc rl ra rr [])))
        (simp append_assoc)
        (replace_by-RunYields c (node lc ll la lr) path (inorder (node rc rl ra rr))
          (leftmost rc rl ra rr [])
          (record { unseen = seen; all = rest ∙ append-nil (inorder (node rc rl ra rr)) }))

  -- The tree that `rb_erase` returns holds the items of the tree before it, in the same order,
  -- without the item of the erased node.
  pub inorder-rb_erase :
      (p : Position A) {t : Tree A} → rb_erase p ≡ done t → inorder t ≡ passed p ++ behind p
  inorder-rb_erase p {t} e = subst (RunYields (passed p ++ behind p)) e (rb_erase-RunYields p)
