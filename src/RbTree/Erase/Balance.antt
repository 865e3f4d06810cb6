-- ===== src/RbTree/Erase/Balance.antt =====
-- `rb_erase` keeps the red-black invariant: the loop repairs a subtree that lacks a black node.
use mathlib.Core.Path.{subst}
use fuse_example.Base.{
  ℕ, zero, suc, ◌+◌, ◌≤◌, ◌≡◌, refl, sym, ◌∙◌, arith, Bool, true, false, Option, some, List, [],
  ◌∷◌, ◌++◌, inl, inr, length, Bool-cases,
}
use fuse_example.Errors.{Run, done}
use fuse_example.RbTree.{
  Color, red, black, Tree, leaf, node, Frame, from_left, from_right, Position, at, plug, is_red,
  set_black, leftmost, rotate_left, rotate_right,
}
use fuse_example.RbTree.Erase.{
  Round, again, stop, round_left, round_right, erase_round, erase_step, rb_erase_fix, after_unlink,
  replace_by, rb_erase, raise_right, raise_left, turn_right, turn_left, lend_right, lend_left,
  blacken_right, blacken_left,
}
use fuse_example.RbTree.Inorder.{tree_of}
use fuse_example.RbTree.Insert.Balance.{
  bump, black_height, IsBalanced, IsRbTree, IsPath, FitsRed, plug-IsBalanced, set_black-IsRbTree,
  plug-IsRbTree,
}
use fuse_example.RbTree.Insert.Descend.{Hangs, root-Hangs, left-Hangs, right-Hangs}

module _ {ℓ} {A : Type ℓ} where
  -- A subtree that is balanced once its root is black; its own black height is `n`.
  record IsShort (n : ℕ) (t : Tree A) : Type 0 where
    blackened : IsBalanced (set_black t)
    height : black_height t ≡ n

  -- A red-black tree came back.
  abbrev pub EndsErased : Run (Tree A) → Type ℓ
  EndsErased m = (t : Tree A) × (m ≡ done t) × IsRbTree t

  blackened-IsRbTree : (t : Tree A) → IsBalanced (set_black t) → IsRbTree (set_black t)
  blackened-IsRbTree leaf b = record { balanced = tt; black_root = refl }
  blackened-IsRbTree (node c l a r) b = record { balanced = b; black_root = refl }

  black-IsBalanced : (t : Tree A) → is_red t ≡ false → IsBalanced (set_black t) → IsBalanced t
  black-IsBalanced leaf e b = tt
  black-IsBalanced (node red l a r) e b = cc
  black-IsBalanced (node black l a r) e b = b

  -- A red child ends the loop: painted black, it has the height that its path asks for.
  red_child-IsRbTree :
      (n : ℕ) (t : Tree A) (path : List (Frame A))
      → is_red t ≡ true
      → IsShort n t
      → IsPath (suc n) path
      → IsRbTree (plug (set_black t) path)
  red_child-IsRbTree n leaf path e s h = cc
  red_child-IsRbTree n (node black l a r) path e s h = cc
  red_child-IsRbTree n (node red l a r) path e s h =
      plug-IsRbTree (node black l a r) path s.blackened (inl refl)
        (subst (λ k. IsPath (suc k) path) (sym s.height) h)

  -- Fuel for the loop at a child: a red one needs one round.
  abbrev HasFuel : ℕ → Bool → List (Frame A) → Type 0
  HasFuel fuel true path = 1 ≤ fuel
  HasFuel fuel false path = length path + 2 ≤ fuel

  abbrev HasFuelBelow : ℕ → Color → List (Frame A) → Type 0
  HasFuelBelow fuel red path = 1 ≤ fuel
  HasFuelBelow fuel black path = length path + 2 ≤ fuel

  -- What a round leaves: a finished tree, or a short subtree that the fuel suffices for.
  data RoundFits (fuel : ℕ) (o : Option (Round A)) : Type ℓ where
    stops : (u : Tree A) → o ≡ some (stop u) → IsRbTree u → RoundFits fuel o
    goes_on :
        (n : ℕ) (u : Tree A) (up : List (Frame A))
        → o ≡ some (again u up)
        → IsShort n u
        → IsPath (suc n) up
        → HasFuel fuel (is_red u) up
        → RoundFits fuel o

  -- Both children of the sibling are black: the parent becomes the short subtree.
  again-RoundFits :
      (fuel : ℕ) (c : Color) (l : Tree A) (a : A) (r : Tree A) (path : List (Frame A))
      → IsBalanced (node black l a r)
      → IsPath (bump c (suc (black_height l))) path
      → HasFuelBelow fuel c path
      → RoundFits fuel (some (again (node c l a r) path))
  again-RoundFits fuel red l a r path b p f =
      goes_on (black_height l) (node red l a r) path refl (record { blackened = b; height = refl })
        p f
  again-RoundFits fuel black l a r path b p f =
      goes_on (suc (black_height l)) (node black l a r) path refl
        (record { blackened = b; height = refl }) p f

  -- The other branch: the parent's place holds a tree of the height that was there before.
  stop-RoundFits :
      (fuel n : ℕ) (c : Color) (l : Tree A) (a : A) (r : Tree A) (path : List (Frame A))
      → IsBalanced (node black l a r)
      → FitsRed c leaf path
      → (is_red l ≡ false) × (is_red r ≡ false)
      → black_height l ≡ suc n
      → IsPath (bump c (suc n)) path
      → RoundFits fuel (some (stop (set_black (plug (node c l a r) path))))
  stop-RoundFits fuel n red l a r path b f k h p =
      stops (set_black (plug (node red l a r) path)) refl (
        set_black-IsRbTree (plug (node red l a r) path) (
          plug-IsBalanced (node red l a r) path (b.0, k, b.2, b.3) (inr f.1)
            (subst (λ m. IsPath m path) (sym h) p)))
  stop-RoundFits fuel n black l a r path b f k h p =
      stops (set_black (plug (node black l a r) path)) refl (
        set_black-IsRbTree (plug (node black l a r) path) (
          plug-IsBalanced (node black l a r) path b (inl refl)
            (subst (λ m. IsPath (suc m) path) (sym h) p)))

  -- A black node of black height `n + 1` with its children, where `rb_erase_fix` expects a sibling.
  record IsSibling (n : ℕ) (l r : Tree A) : Type 0 where
    left_tall : black_height l ≡ n
    right_tall : black_height r ≡ n
    left_balanced : IsBalanced l
    right_balanced : IsBalanced r

  near_black-RoundFits :
      (fuel : ℕ) (t : Tree A) (c : Color) (a : A) (bl : Tree A) (b : A) (br : Tree A)
      (path : List (Frame A))
      → IsBalanced t
      → IsSibling (black_height t) bl br
      → FitsRed c leaf path
      → IsPath (bump c (suc (black_height t))) path
      → HasFuelBelow fuel c path
      → is_red bl ≡ false
      → RoundFits fuel (round_left t c a (node black bl b br) path)
  unfolding round_left turn_right lend_right rotate_left rotate_right blacken_right
  near_black-RoundFits fuel t c a bl b leaf path tb s f p h e =
      rw e (again-RoundFits fuel c t a (node red bl b leaf) path (ground arith) p h)
  near_black-RoundFits fuel t c a bl b (node black l x r) path tb s f p h e =
      rw e (again-RoundFits fuel c t a (node red bl b (node black l x r)) path (ground arith) p h)
  near_black-RoundFits fuel t c a bl b (node red l x r) path tb s f p h e = rw e (
      stop-RoundFits fuel (black_height t) c (node black t a bl) b (node black l x r) path
        (ground arith) f (refl, refl) refl p)

  round_left-RoundFits :
      (fuel : ℕ) (t : Tree A) (c : Color) (a : A) (bl : Tree A) (b : A) (br : Tree A)
      (path : List (Frame A))
      → IsBalanced t
      → IsSibling (black_height t) bl br
      → FitsRed c leaf path
      → IsPath (bump c (suc (black_height t))) path
      → HasFuelBelow fuel c path
      → RoundFits fuel (round_left t c a (node black bl b br) path)
  unfolding round_left turn_right lend_right rotate_left rotate_right blacken_right
  round_left-RoundFits fuel t c a leaf b br path tb s f p h =
      near_black-RoundFits fuel t c a leaf b br path tb s f p h refl
  round_left-RoundFits fuel t c a (node black l x r) b br path tb s f p h =
      near_black-RoundFits fuel t c a (node black l x r) b br path tb s f p h refl
  round_left-RoundFits fuel t c a (node red l x r) b leaf path tb s f p h =
      stop-RoundFits fuel (black_height t) c (node black t a l) x (node black r b leaf) path
        (ground arith) f (refl, refl) refl p
  round_left-RoundFits fuel t c a (node red l x r) b (node black rl y rr) path tb s f p h =
      stop-RoundFits fuel (black_height t) c (node black t a l) x
        (node black r b (node black rl y rr)) path (ground arith) f (refl, refl) refl p
  round_left-RoundFits fuel t c a (node red l x r) b (node red rl y rr) path tb s f p h =
      stop-RoundFits fuel (black_height t) c (node black t a (node red l x r)) b
        (node black rl y rr) path (ground arith) f (refl, refl) refl p

  far_black-RoundFits :
      (fuel : ℕ) (t : Tree A) (c : Color) (bl : Tree A) (b : A) (br : Tree A) (a : A)
      (path : List (Frame A))
      → IsBalanced t
      → IsSibling (black_height t) bl br
      → FitsRed c leaf path
      → IsPath (bump c (suc (black_height t))) path
      → HasFuelBelow fuel c path
      → is_red br ≡ false
      → RoundFits fuel (round_right t c (node black bl b br) a path)
  unfolding round_right turn_left lend_left rotate_left rotate_right blacken_left
  far_black-RoundFits fuel t c leaf b br a path tb s f p h e = rw e (
      again-RoundFits fuel c (node red leaf b br) a t path (ground arith)
        (subst (λ m. IsPath (bump c (suc m)) path) (sym s.left_tall) p) h)
  far_black-RoundFits fuel t c (node black l x r) b br a path tb s f p h e = rw e (
      again-RoundFits fuel c (node red (node black l x r) b br) a t path (ground arith)
        (subst (λ m. IsPath (bump c (suc m)) path) (sym s.left_tall) p) h)
  far_black-RoundFits fuel t c (node red l x r) b br a path tb s f p h e = rw e (
      stop-RoundFits fuel (black_height t) c (node black l x r) b (node black br a t) path
        (ground arith) f (refl, refl) (ground arith) p)

  round_right-RoundFits :
      (fuel : ℕ) (t : Tree A) (c : Color) (bl : Tree A) (b : A) (br : Tree A) (a : A)
      (path : List (Frame A))
      → IsBalanced t
      → IsSibling (black_height t) bl br
      → FitsRed c leaf path
      → IsPath (bump c (suc (black_height t))) path
      → HasFuelBelow fuel c path
      → RoundFits fuel (round_right t c (node black bl b br) a path)
  unfolding round_right turn_left lend_left rotate_left rotate_right blacken_left
  round_right-RoundFits fuel t c bl b leaf a path tb s f p h =
      far_black-RoundFits fuel t c bl b leaf a path tb s f p h refl
  round_right-RoundFits fuel t c bl b (node black l x r) a path tb s f p h =
      far_black-RoundFits fuel t c bl b (node black l x r) a path tb s f p h refl
  round_right-RoundFits fuel t c leaf b (node red l x r) a path tb s f p h =
      stop-RoundFits fuel (black_height t) c (node black leaf b l) x (node black r a t) path
        (ground arith) f (refl, refl) (ground arith) p
  round_right-RoundFits fuel t c (node black ll y lr) b (node red l x r) a path tb s f p h =
      stop-RoundFits fuel (black_height t) c (node black (node black ll y lr) b l) x
        (node black r a t) path (ground arith) f (refl, refl) (ground arith) p
  round_right-RoundFits fuel t c (node red ll y lr) b (node red l x r) a path tb s f p h =
      stop-RoundFits fuel (black_height t) c (node black ll y lr) b
        (node black (node red l x r) a t) path (ground arith) f (refl, refl) (ground arith) p

  -- A red parent has a black parent, whatever its other child.
  FitsRed-leaf :
      (c : Color) (b : Tree A) (path : List (Frame A)) → FitsRed c b path → FitsRed c leaf path
  FitsRed-leaf red b path f = (refl, f.1)
  FitsRed-leaf black b path f = tt

  enough_below :
      (fuel : ℕ) (c : Color) (path : List (Frame A))
      → length path + 2 ≤ fuel
      → HasFuelBelow fuel c path
  enough_below fuel red path h = omega arith
  enough_below fuel black path h = h

  -- The children of a balanced black node of height `n + 1`.
  node-IsSibling :
      (n : ℕ) (l : Tree A) (a : A) (r : Tree A)
      → suc (black_height l) ≡ suc n
      → IsBalanced (node black l a r)
      → IsSibling n l r
  node-IsSibling n l a r e b = record {
    left_tall = omega arith;
    right_tall = ground arith;
    left_balanced = b.2;
    right_balanced = b.3;
  }

  erase_round-RoundFits :
      (fuel : ℕ) (t : Tree A) (f : Frame A) (path : List (Frame A))
      → IsBalanced t
      → IsPath (suc (black_height t)) (f ∷ path)
      → length path + 2 ≤ fuel
      → RoundFits fuel (erase_round t f path)
  unfolding erase_round raise_right raise_left
  erase_round-RoundFits fuel t (from_left c a leaf) path tb p h = absurd (ground arith)
  erase_round-RoundFits fuel t (from_left c a (node black bl b br)) path tb p h =
      round_left-RoundFits fuel t c a bl b br path tb
        (node-IsSibling (black_height t) bl b br p.0 p.1)
        (FitsRed-leaf c (node black bl b br) path p.2) p.3 (enough_below fuel c path h)
  erase_round-RoundFits fuel t (from_left red a (node red bl b br)) path tb p h = ground arith
  erase_round-RoundFits fuel t (from_left black a (node red leaf b br)) path tb p h =
      absurd (ground arith)
  erase_round-RoundFits fuel t (from_left black a (node red (node red l x r) b br)) path tb p h =
      absurd (ground arith)
  erase_round-RoundFits fuel t (from_left black a (node red (node black l x r) b br)) path tb p h =
      round_left-RoundFits fuel t red a l x r (from_left black b br ∷ path) tb
        (node-IsSibling (black_height t) l x r p.0 p.1.2) (refl, refl) (ground arith) (omega arith)
  erase_round-RoundFits fuel t (from_right c leaf a) path tb p h = absurd (ground arith)
  erase_round-RoundFits fuel t (from_right c (node black bl b br) a) path tb p h =
      round_right-RoundFits fuel t c bl b br a path tb
        (node-IsSibling (black_height t) bl b br p.0 p.1)
        (FitsRed-leaf c (node black bl b br) path p.2) p.3 (enough_below fuel c path h)
  erase_round-RoundFits fuel t (from_right red (node red bl b br) a) path tb p h = ground arith
  erase_round-RoundFits fuel t (from_right black (node red bl b leaf) a) path tb p h =
      absurd (ground arith)
  erase_round-RoundFits fuel t (from_right black (node red bl b (node red l x r)) a) path tb p h =
      absurd (ground arith)
  erase_round-RoundFits fuel t (from_right black (node red bl b (node black l x r)) a) path tb p h =
      round_right-RoundFits fuel t red l x r a (from_right black bl b ∷ path) tb
        (node-IsSibling (black_height t) l x r (sym p.1.0 ∙ p.0) p.1.3) (refl, refl) (ground arith)
        (omega arith)

  abbrev HasBlackRoot : Color → Tree A → Type 0
  HasBlackRoot red t = is_red t ≡ false
  HasBlackRoot black t = Unit

  black_fuel :
      (fuel : ℕ) (r : Bool) (path : List (Frame A))
      → r ≡ false
      → HasFuel (suc fuel) r path
      → length path + 1 ≤ fuel
  black_fuel fuel true path e h = cc
  black_fuel fuel false path e h = omega arith

  full_fuel : (r : Bool) (path : List (Frame A)) → HasFuel (length path + 2) r path
  full_fuel true path = omega arith
  full_fuel false path = omega arith

  -- The loop with enough fuel ends in a red-black tree.
  rb_erase_fix-EndsErased :
      (fuel n : ℕ) (t : Tree A) (path : List (Frame A))
      → IsShort n t
      → IsPath (suc n) path
      → HasFuel fuel (is_red t) path
      → EndsErased (rb_erase_fix fuel t path)
  unfolding rb_erase_fix erase_step
  rb_erase_fix-EndsErased zero n t path s p h = elim (Bool-cases (is_red t)) [
    | inl e ↦ absurd (ground arith)
    | inr e ↦ absurd (ground arith)
  ]
  rb_erase_fix-EndsErased (suc fuel) n t [] s p h =
      (set_black t, refl, blackened-IsRbTree t s.blackened)
  rb_erase_fix-EndsErased (suc fuel) n t (f ∷ path) s p h = elim (Bool-cases (is_red t)) [
    | inl e ↦ rw e (plug (set_black t) (f ∷ path), refl, red_child-IsRbTree n t (f ∷ path) e s p)
    | inr e ↦ rw e (
        let enough : length path + 2 ≤ fuel =
          omega (arith, black_fuel fuel (is_red t) (f ∷ path) e h) in
        elim (erase_round-RoundFits fuel t f path (black-IsBalanced t e s.blackened)
          (subst (λ k. IsPath (suc k) (f ∷ path)) (sym s.height) p) enough) [
            | stops u eq rb ↦ rw eq (u, refl, rb)
            | goes_on m u up eq short fits fuel_up ↦
                rw eq (rb_erase_fix-EndsErased fuel m u up short fits fuel_up)
          ])
  ]

  after_unlink-EndsErased :
      (c : Color) (t : Tree A) (path : List (Frame A))
      → IsBalanced t
      → HasBlackRoot c t
      → IsPath (bump c (black_height t)) path
      → EndsErased (after_unlink c t path)
  unfolding after_unlink
  after_unlink-EndsErased red t path b k p = (plug t path, refl, plug-IsRbTree t path b (inl k) p)
  after_unlink-EndsErased black t path b k p =
      rb_erase_fix-EndsErased (length path + 2) (black_height t) t path
        (record { blackened = (set_black-IsRbTree t b).balanced; height = refl }) p
        (full_fuel (is_red t) path)

  -- A node that stands in a red-black tree stands at the end of a balanced path.
  unplug-Hangs : (t : Tree A) (path : List (Frame A)) → IsRbTree (plug t path) → Hangs t path
  unplug-Hangs t [] h = root-Hangs t h
  unplug-Hangs t (from_left c a r ∷ path) h =
      left-Hangs c t a r path (unplug-Hangs (node c t a r) path h)
  unplug-Hangs t (from_right c l a ∷ path) h =
      right-Hangs c l a t path (unplug-Hangs (node c l a t) path h)

  -- A position without a left child at the end of a balanced path, below `rest`.
  abbrev HangsLast : List (Frame A) → Position A → Type 0
  HangsLast rest (at c l a r path) = Hangs (node c leaf a r) (path ++ rest)

  leftmost-HangsLast :
      (c : Color) (l : Tree A) (a : A) (r : Tree A) (path rest : List (Frame A))
      → Hangs (node c l a r) (path ++ rest)
      → HangsLast rest (leftmost c l a r path)
  unfolding leftmost
  leftmost-HangsLast c leaf a r path rest h = h
  leftmost-HangsLast c (node lc ll la lr) a r path rest h =
      leftmost-HangsLast lc ll la lr (from_left c a r ∷ path) rest
        (left-Hangs c (node lc ll la lr) a r (path ++ rest) h)

  -- A node with one child at most is replaced by that child.
  splice_right-EndsErased :
      (c : Color) (a : A) (r : Tree A) (path : List (Frame A))
      → Hangs (node c leaf a r) path
      → EndsErased (after_unlink c r path)
  splice_right-EndsErased red a r path h =
      after_unlink-EndsErased red r path h.balanced.3 h.balanced.1.1
        (subst (λ k. IsPath k path) h.balanced.0 h.path_fits)
  splice_right-EndsErased black a r path h =
      after_unlink-EndsErased black r path h.balanced.3 tt
        (subst (λ k. IsPath (suc k) path) h.balanced.0 h.path_fits)

  splice_left-EndsErased :
      (c : Color) (l : Tree A) (a : A) (path : List (Frame A))
      → Hangs (node c l a leaf) path
      → EndsErased (after_unlink c l path)
  splice_left-EndsErased red l a path h =
      after_unlink-EndsErased red l path h.balanced.2 h.balanced.1.0 h.path_fits
  splice_left-EndsErased black l a path h =
      after_unlink-EndsErased black l path h.balanced.2 tt h.path_fits

  replace_by-EndsErased :
      (c : Color) (l : Tree A) (path : List (Frame A)) (p : Position A)
      → ((x : A) → HangsLast (from_right c l x ∷ path) p)
      → EndsErased (replace_by c l path p)
  unfolding replace_by
  replace_by-EndsErased c l path (at xc xl x xr inner) h =
      splice_right-EndsErased xc x xr (inner ++ from_right c l x ∷ path) (h x)

  -- The invariant asks nothing of the items.
  Hangs-item :
      (c : Color) (l : Tree A) (a b : A) (r : Tree A) (path : List (Frame A))
      → Hangs (node c l a r) path
      → Hangs (node c l b r) path
  Hangs-item red l a b r path h = record {
    balanced = h.balanced;
    top = h.top;
    path_fits = h.path_fits;
  }
  Hangs-item black l a b r path h = record {
    balanced = h.balanced;
    top = h.top;
    path_fits = h.path_fits;
  }

  -- `rb_erase` at a node of a red-black tree follows no null pointer, ends, and leaves a red-
  -- black tree.
  pub rb_erase-EndsErased : (p : Position A) → IsRbTree (tree_of p) → EndsErased (rb_erase p)
  unfolding rb_erase
  rb_erase-EndsErased (at c leaf a r path) h =
      splice_right-EndsErased c a r path (unplug-Hangs (node c leaf a r) path h)
  rb_erase-EndsErased (at c (node lc ll la lr) a leaf path) h =
      splice_left-EndsErased c (node lc ll la lr) a path
        (unplug-Hangs (node c (node lc ll la lr) a leaf) path h)
  rb_erase-EndsErased (at c (node lc ll la lr) a (node rc rl ra rr) path) h =
      replace_by-EndsErased c (node lc ll la lr) path (leftmost rc rl ra rr []) λ x.
        leftmost-HangsLast rc rl ra rr [] (from_right c (node lc ll la lr) x ∷ path) (
          right-Hangs c (node lc ll la lr) x (node rc rl ra rr) path (
            Hangs-item c (node lc ll la lr) a x (node rc rl ra rr) path
              (unplug-Hangs (node c (node lc ll la lr) a (node rc rl ra rr)) path h)))
