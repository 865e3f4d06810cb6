-- ===== src/Lsm/Iter/Each.antt =====
-- An action on each tree that takes part in an iterator of lib/lsm.c, and what it leaves to each.
use mathlib.Core.Path.{subst}
use fuse_example.Base.{
  ℕ, suc, ◌≡◌, refl, sym, Bool, true, false, List, [], ◌∷◌, inl, inr, Bool-cases,
}
use fuse_example.Errors.{ok, done, ◌>>=◌}
use fuse_example.Lsm.Key.{Entry}
use fuse_example.Ctree.Iter.{Moved}
use fuse_example.Lsm.Iter.{TreeSlot, takes_part, leaves, each_tree}

-- What holds of a tree's part and its list of entries.
module _ (P : TreeSlot → List Entry → Type 0) where
  -- A tree that takes part shows its list; another has none.
  abbrev pub Sees : Bool → TreeSlot → List Entry → Type 0
  Sees true s xs = P s xs
  Sees false s xs = xs ≡ []

  abbrev pub LeavesIf : Bool → List Entry → Moved TreeSlot → Type 0
  LeavesIf true xs m = (s : TreeSlot) × (m ≡ done (s, ok tt)) × P s xs
  LeavesIf false xs m = xs ≡ []

  -- What an action leaves to each tree.
  abbrev pub EachLeaves :
      (go : TreeSlot → Moved TreeSlot)
      → (from to i : ℕ) → List TreeSlot
      → List (List Entry)
      → Type 0
  EachLeaves go from to i [] [] = leaves from to i ≡ false
  EachLeaves go from to i [] (xs ∷ xss) = ⊥
  EachLeaves go from to i (s ∷ ss) [] = ⊥
  EachLeaves go from to i (s ∷ ss) (xs ∷ xss) =
      LeavesIf (takes_part from to i) xs (go s) × EachLeaves go from to (suc i) ss xss

  abbrev pub Views : (from to i : ℕ) → List TreeSlot → List (List Entry) → Type 0
  Views from to i [] [] = leaves from to i ≡ false
  Views from to i [] (xs ∷ xss) = ⊥
  Views from to i (s ∷ ss) [] = ⊥
  Views from to i (s ∷ ss) (xs ∷ xss) =
      Sees (takes_part from to i) s xs × Views from to (suc i) ss xss

  -- The trees after an action on each, and their lists.
  abbrev pub EachViews : (from to i : ℕ) → List (List Entry) → Moved (List TreeSlot) → Type 0
  EachViews from to i xss m = (ss : List TreeSlot) × (m ≡ done (ss, ok tt)) × Views from to i ss xss

  -- An action that leaves a list to each tree that takes part does so for all of them.
  pub each_tree-EachViews :
      (go : TreeSlot → Moved TreeSlot) (from to i : ℕ) (ss : List TreeSlot)
      (xss : List (List Entry))
      → EachLeaves go from to i ss xss
      → EachViews from to i xss (each_tree go from to i ss)
  unfolding each_tree
  each_tree-EachViews go from to i [] [] h = rw (each_tree, h) ([], refl, h)
  each_tree-EachViews go from to i [] (xs ∷ xss) h = elim h [ ]
  each_tree-EachViews go from to i (s ∷ ss) [] h = elim h [ ]
  each_tree-EachViews go from to i (s ∷ ss) (xs ∷ xss) h =
      let (after, moved, views) = each_tree-EachViews go from to (suc i) ss xss h.1 in
      elim (Bool-cases (takes_part from to i)) [
        | inl e ↦
            let (s', left, shows) = subst (λ p. LeavesIf p xs (go s)) e h.0 in
            rw (each_tree, e, left, ◌>>=◌, moved)
              (s' ∷ after, refl, (subst (λ p. Sees p s' xs) (sym e) shows, views))
        | inr e ↦
            rw (each_tree, e, moved)
              (
                s ∷ after,
                refl,
                (subst (λ p. Sees p s xs) (sym e) (subst (λ p. LeavesIf p xs (go s)) e h.0), views),
              )
      ]

-- An action that takes every part from `P` to `Q`.
module _ (P Q : TreeSlot → List Entry → Type 0) (go : TreeSlot → Moved TreeSlot)
    (works : (s : TreeSlot) (xs : List Entry)
      → P s xs
      → (t : TreeSlot) × (go s ≡ done (t, ok tt)) × Q t xs) where
  part : (p : Bool) (s : TreeSlot) (xs : List Entry) → Sees P p s xs → LeavesIf Q p xs (go s)
  part true s xs h = works s xs h
  part false s xs h = h

  Views-EachLeaves :
      (from to i : ℕ) (ss : List TreeSlot) (xss : List (List Entry))
      → Views P from to i ss xss
      → EachLeaves Q go from to i ss xss
  Views-EachLeaves from to i [] [] h = h
  Views-EachLeaves from to i [] (xs ∷ xss) h = elim h [ ]
  Views-EachLeaves from to i (s ∷ ss) [] h = elim h [ ]
  Views-EachLeaves from to i (s ∷ ss) (xs ∷ xss) h =
      (part (takes_part from to i) s xs h.0, Views-EachLeaves from to (suc i) ss xss h.1)

  pub each_tree-works :
      (from to i : ℕ) (ss : List TreeSlot) (xss : List (List Entry))
      → Views P from to i ss xss
      → EachViews Q from to i xss (each_tree go from to i ss)
  each_tree-works from to i ss xss h =
      each_tree-EachViews Q go from to i ss xss (Views-EachLeaves from to i ss xss h)
