-- ===== src/RbTree/Insert/Descend.antt =====
-- Going down from a node of a red-black tree keeps what `rb_insert` needs of the path.
use fuse_example.Base.{suc, ◌≡◌, refl, sym, false, List, [], ◌∷◌, ◌⊎◌, inl, inr}
use fuse_example.RbTree.{Color, red, black, Tree, node, Frame, from_left, from_right, is_red}
use fuse_example.RbTree.Insert.Balance.{black_height, IsBalanced, IsPath, IsRbTree, TopIsBlack}
use mathlib.Core.Path.{subst}

module _ {ℓ} {A : Type ℓ} where
  -- A balanced subtree at the end of a path of a red-black tree.
  pub record Hangs (t : Tree A) (path : List (Frame A)) : Type 0 where
    pub balanced : IsBalanced t
    pub top : (is_red t ≡ false) ⊎ TopIsBlack path
    pub path_fits : IsPath (black_height t) path

  pub root-Hangs : (t : Tree A) → IsRbTree t → Hangs t []
  root-Hangs t h = record { balanced = h.balanced; top = inl h.black_root; path_fits = tt }

  top_of_red :
      (l : Tree A) (a : A) (r : Tree A) (path : List (Frame A))
      → (is_red (node red l a r) ≡ false) ⊎ TopIsBlack path
      → TopIsBlack path
  top_of_red l a r path (inl e) = cc
  top_of_red l a r path (inr e) = e

  pub left-Hangs :
      (c : Color) (l : Tree A) (a : A) (r : Tree A) (path : List (Frame A))
      → Hangs (node c l a r) path
      → Hangs l (from_left c a r ∷ path)
  left-Hangs black l a r path h = record {
    balanced = h.balanced.2;
    top = inr refl;
    path_fits = (sym h.balanced.0, h.balanced.3, tt, h.path_fits);
  }
  left-Hangs red l a r path h = record {
    balanced = h.balanced.2;
    top = inl h.balanced.1.0;
    path_fits = (
      sym h.balanced.0,
      h.balanced.3,
      (h.balanced.1.1, top_of_red l a r path h.top),
      h.path_fits,
    );
  }

  pub right-Hangs :
      (c : Color) (l : Tree A) (a : A) (r : Tree A) (path : List (Frame A))
      → Hangs (node c l a r) path
      → Hangs r (from_right c l a ∷ path)
  right-Hangs black l a r path h = record {
    balanced = h.balanced.3;
    top = inr refl;
    path_fits =
        (h.balanced.0, h.balanced.2, tt, subst (λ n. IsPath (suc n) path) h.balanced.0 h.path_fits);
  }
  right-Hangs red l a r path h = record {
    balanced = h.balanced.3;
    top = inl h.balanced.1.1;
    path_fits = (
      h.balanced.0,
      h.balanced.2,
      (h.balanced.1.0, top_of_red l a r path h.top),
      subst (λ n. IsPath n path) h.balanced.0 h.path_fits,
    );
  }
